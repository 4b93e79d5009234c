-- ===== src/System/Invariant.antt =====
-- A socket and the lists of notified texts between two steps of the goroutines (socket.go, peer.go,
-- proxy.go).
use discovery_self.Base.{
  ℕ, List, [], ◌∷◌, ◌++◌, Option, Text, text_elem, contains, ◌≡◌, refl, ap, sym, ◌∙◌, Bool, true,
  false, ◌&&◌, not, All, inl, inr, subst, arith,
}
use discovery_self.Chan
use discovery_self.Chan.{Chan, IsChan}
use discovery_self.Chan.Fifo.{send-IsChan, capacity-send}
use discovery_self.Model.{
  State, NamedWebSocket, Message, Pump, peer_read, peer_write, control_read, control_write,
  proxy_read, proxy_write,
}
use discovery_self.Step.{emit}
use discovery_self.Step.Emits.{IsLive}
use discovery_self.Live.{AllLive}
use discovery_self.Peer.Notify.{is_news}
use discovery_self.Peer.{http_scheme}
use discovery_self.Proxy.Notify.{Remembers, remembered}
use discovery_self.Socket.{buffer_capacity}
use discovery_self.System.{start}
use discovery_self.System.Distinct.{Distinct, Distinct-snoc}

-- The connection that a pump serves.
abbrev pub pump_ws : Pump → Option ℕ
pump_ws (peer_read p) = p.ws
pump_ws (peer_write p) = p.ws
pump_ws (control_read c) = c.ws
pump_ws (control_write c) = c.ws
pump_ws (proxy_read p) = p.ws
pump_ws (proxy_write p) = p.ws

abbrev pub PumpLive : Pump → Type 0
PumpLive p = IsLive (pump_ws p)

pub record IsSound (s : State) : Type 0 where
  -- the two lists of notified texts are one list, without repetition
  pub same_lists : s.peer_notified_list ≡ s.proxy_notified_list
  pub notified_once : Distinct s.peer_notified_list
  -- the channel has its capacity, is not overfull, and parks a sender only when it is full
  pub channel : IsChan s.sock.broadcast_buffer
  pub capacity : s.sock.broadcast_buffer.capacity ≡ buffer_capacity
  -- no listed connection and no pump has a nil connection
  pub live : AllLive s.sock
  pub pumps_live : All PumpLive s.running

pub start-IsSound : (name : Text) → IsSound (start name)
unfolding start
start-IsSound name = record {
  same_lists = refl;
  notified_once = tt;
  channel = record { bounded = omega arith; full = inl refl };
  capacity = refl;
  live = record { of_controllers = tt; of_peers = tt; of_proxies = tt };
  pumps_live = tt;
}

-- Steps that write, or change the maps, keep all of it.
pub record SameCore (s t : State) : Type 0 where
  pub sock : t.sock ≡ s.sock
  pub peer_notified : t.peer_notified_list ≡ s.peer_notified_list
  pub proxy_notified : t.proxy_notified_list ≡ s.proxy_notified_list
  pub running : t.running ≡ s.running

pub SameCore-IsSound : {s t : State} → SameCore s t → IsSound s → IsSound t
SameCore-IsSound k v = record {
  same_lists = k.peer_notified ∙ v.same_lists ∙ sym k.proxy_notified;
  notified_once = subst Distinct (sym k.peer_notified) v.notified_once;
  channel = subst (λ (n : NamedWebSocket). IsChan n.broadcast_buffer) (sym k.sock) v.channel;
  capacity = ap (λ (n : NamedWebSocket). n.broadcast_buffer.capacity) k.sock ∙ v.capacity;
  live = subst AllLive (sym k.sock) v.live;
  pumps_live = subst (All PumpLive) (sym k.running) v.pumps_live;
}

pub remembered-IsSound :
    (text : Text) (s : State)
    → is_news text s.peer_notified_list ≡ true
    → IsSound s
    → IsSound (remembered text s)
remembered-IsSound text s news v = record {
  same_lists = ap (λ l. l ++ text ∷ []) v.same_lists;
  notified_once =
      Distinct-snoc text s.peer_notified_list v.notified_once
        (unseen (contains text http_scheme) (text_elem text s.peer_notified_list) news);
  channel = v.channel;
  capacity = v.capacity;
  live = v.live;
  pumps_live = v.pumps_live;
}
  where
    unseen : (a b : Bool) → (a && not b) ≡ true → b ≡ false
    unseen a b h = ground arith

pub Remembers-IsSound :
    (text : Text) (s t : State) (seen : List Text)
    → seen ≡ s.peer_notified_list
    → Remembers text s t seen
    → IsSound s
    → IsSound t
Remembers-IsSound text s t seen e (inl (same, old)) v = subst IsSound (sym same) v
Remembers-IsSound text s t seen e (inr (es, quiet, change, news)) v = subst IsSound (sym change) (
    SameCore-IsSound {s = remembered text s} {t = emit es (remembered text s)}
      (record { sock = refl; peer_notified = refl; proxy_notified = refl; running = refl })
      (remembered-IsSound text s (subst (λ l. is_news text l ≡ true) e news) v))

pub broadcast-IsSound :
    (m : Message) (s : State)
    → IsSound s
    → IsSound (record s {
      sock = record s.sock { broadcast_buffer = Chan.send s.sock.broadcast_buffer m };
    })
broadcast-IsSound m s v = record {
  same_lists = v.same_lists;
  notified_once = v.notified_once;
  channel = send-IsChan s.sock.broadcast_buffer m v.channel;
  capacity = capacity-send s.sock.broadcast_buffer m ∙ v.capacity;
  live = record {
    of_controllers = v.live.of_controllers;
    of_peers = v.live.of_peers;
    of_proxies = v.live.of_proxies;
  };
  pumps_live = v.pumps_live;
}
