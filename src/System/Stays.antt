-- ===== src/System/Stays.antt =====
-- What the reads, the dispatcher and the pings leave as it was (the read loops of peer.go, control.go
-- and proxy.go, messageDispatcher of socket.go).
pub mod Proxies
use discovery_self.Base.{
  ℕ, List, [], ◌∷◌, ◌++◌, Option, none, some, Text, text_eq, text_eq_refl, ◌≡◌, ◌≢◌, refl, ap, sym,
  ◌∙◌, Bool, true, false, All, All-find_first, inl, inr, subst, Bool-cases, Option-cases,
  append-nil, flat_map, ◌==◌, ==_iff, ==_refl, if◌then◌else◌, ◌||◌, not,
}
use discovery_self.Chan
use discovery_self.Env.{Env, IsEnv, WireMessage, connect, disconnect, message, directmessage}
use discovery_self.Model.{
  State, NamedWebSocket, PeerConnection, ControlConnection, ProxyConnection, Message, Pump, Effect,
  pinged,
}
use discovery_self.Step.{ok, crash, log_fatal, nil_dereference, ping, emit}
use discovery_self.Step.Emits.{send_wire-live, All-map, sent_wire}
use discovery_self.Step.Writes.{writes_to, IsOther, writes_to-wire_other}
use discovery_self.Live.{AllLive, wire, tell_owned, told_owned, delivered, forwarded}
use discovery_self.Sends.{control_send}
use discovery_self.Peer
use discovery_self.Control
use discovery_self.Control.Relay.{route, route_lem, controller_of, owner_of}
use discovery_self.Proxy
use discovery_self.Proxy.{handle_wire, handle_message, relay, insert_key, delete_key, update}
use discovery_self.Proxy.Frames.{
  owner_change, Silent, quiet-Silent, append-Silent, flat_map-Silent, sent_wire-Silent,
}
use discovery_self.Proxy.Notify.{Remembers, peer_notify_inv, proxy_notify_inv}
use discovery_self.Proxy.Ownership.{owned}
use discovery_self.Socket
use discovery_self.Socket.Dispatch.{dispatch_lem, dispatch_idle, delivery, dispatched}
use discovery_self.Socket.Once.{delivered_other}
use discovery_self.System.Comings.{returned}
use discovery_self.Step.Inversion.{ok_eq, then_inv}

-- Connection `c` is no peer's and no controller's.
pub record IsAway (c : ℕ) (sock : NamedWebSocket) : Type 0 where
  pub of_controllers : All (λ (x : ControlConnection). IsOther c x.ws) sock.controllers
  pub of_peers : All (λ (x : PeerConnection). IsOther c x.ws) sock.peers

-- The connections, the pumps and all maps but `r` are as before, and what was written tells no one
-- behind a proxy of a peer that came or went.
pub record Stays (env : Env) (r : Option ℕ) (s t : State) : Type 0 where
  pub es : List Effect
  pub written : t.out ≡ s.out ++ es
  pub controllers : t.sock.controllers ≡ s.sock.controllers
  pub peers : t.sock.peers ≡ s.sock.peers
  pub proxies : t.sock.proxies ≡ s.sock.proxies
  pub running : t.running ≡ s.running
  pub next_map : t.next_map ≡ s.next_map
  pub maps : (k : ℕ) → r ≢ some k → t.maps k ≡ s.maps k
  pub silent : IsEnv env → (c : ℕ) → IsAway c s.sock → Silent env c es

pub message_silent : (text_eq message connect ≡ false) × (text_eq message disconnect ≡ false)
unfolding text_eq
message_silent = (refl, refl)

directmessage_silent :
    (text_eq directmessage connect ≡ false) × (text_eq directmessage disconnect ≡ false)
unfolding text_eq
directmessage_silent = (refl, refl)

module _ (env : Env) where
  pub emit-Stays :
      (r : Option ℕ) (es : List Effect) (s t : State)
      → t ≡ emit es s
      → (IsEnv env → (c : ℕ) → IsAway c s.sock → Silent env c es)
      → Stays env r s t
  emit-Stays r es s t e h = subst (Stays env r s) (sym e) (record {
    es = es;
    written = refl;
    controllers = refl;
    peers = refl;
    proxies = refl;
    running = refl;
    next_map = refl;
    maps = λ k apart. refl;
    silent = h;
  })

  pub same-Stays : (r : Option ℕ) (s t : State) → s ≡ t → Stays env r s t
  same-Stays r s t e = subst (Stays env r s) e (record {
    es = [];
    written = sym (append-nil s.out);
    controllers = refl;
    peers = refl;
    proxies = refl;
    running = refl;
    next_map = refl;
    maps = λ k apart. refl;
    silent = λ spec c away ks. refl;
  })

  pub Remembers-Stays :
      (text : Text) (s t : State) (seen : List Text) → Remembers text s t seen → Stays env none s t
  Remembers-Stays text s t seen (inl (e, old)) = same-Stays none s t (sym e)
  Remembers-Stays text s t seen (inr (es, quiet, e, news)) =
      subst (Stays env none s) (sym e) (record {
        es = es;
        written = refl;
        controllers = refl;
        peers = refl;
        proxies = refl;
        running = refl;
        next_map = refl;
        maps = λ k apart. refl;
        silent = λ spec c away. quiet-Silent env c es (quiet c);
      })

  -- A message is queued after.
  pub broadcast-Stays :
      (r : Option ℕ) (s t : State) (m : Message)
      → Stays env r s t
      → Stays env r s (record t {
        sock = record t.sock { broadcast_buffer = Chan.send t.sock.broadcast_buffer m };
      })
  broadcast-Stays r s t m v = record {
    es = v.es;
    written = v.written;
    controllers = v.controllers;
    peers = v.peers;
    proxies = v.proxies;
    running = v.running;
    next_map = v.next_map;
    maps = v.maps;
    silent = v.silent;
  }

  pub peer_reads-Stays :
      (p : PeerConnection) (text : Text) (s t : State)
      → Peer.handle env p text s ≡ ok t
      → Stays env none s t
  unfolding Peer.handle
  peer_reads-Stays p text s t e =
      let (u, told, rest) = then_inv (Peer.notify env p text s) _ e in
      subst (Stays env none s) (ok_eq rest) (
        broadcast-Stays none s u _
          (Remembers-Stays text s u s.peer_notified_list (peer_notify_inv env p text s u told)))

  route-Silent :
      (spec : IsEnv env) (c source : ℕ) (m : WireMessage) (oc : Option ControlConnection)
      (oo : Option ProxyConnection)
      → Silent env c (route env source m oc oo)
  route-Silent spec c source m none none ks = refl
  route-Silent spec c source m none (some p) ks =
      sent_wire-Silent env c spec p.ws (wire directmessage source m.target m.payload) spec.ascii.4
        directmessage_silent.0 directmessage_silent.1 ks
  route-Silent spec c source m (some x) oo ks =
      sent_wire-Silent env c spec x.ws (wire message source m.target m.payload) spec.ascii.3
        message_silent.0 message_silent.1 ks

  control_wire-Stays :
      (c : ControlConnection) (m : WireMessage) (s t : State)
      → AllLive s.sock
      → Control.handle_wire env c (some m) s ≡ ok t
      → Stays env none s t
  unfolding Control.handle_wire
  control_wire-Stays c m s t v e = elim (Bool-cases (text_eq m.action message)) [
    | inl b ↦
        returned (Stays env none s) (rw b at e)
          (route_lem env c m s (controller_of m.target s) v refl)
          (emit-Stays none _ s _ refl (λ spec d away. route-Silent spec d c.id m _ _))
    | inr b ↦ same-Stays none s t (ok_eq (rw b at e))
  ]

  pub control_reads-Stays :
      (c : ControlConnection) (text : Text) (s t : State)
      → AllLive s.sock
      → Control.handle env c text s ≡ ok t
      → Stays env none s t
  unfolding Control.handle
  control_reads-Stays c text s t v e = elim (Option-cases (env.unmarshal text)) [
    | inl bad ↦ absurd (clash (rw bad at e))
    | inr (m, good) ↦ control_wire-Stays c m s t v (rw good at e)
  ]
    where
      clash : crash log_fatal ≡ ok t → ⊥
      clash h = cc

  forwarded-Silent :
      (spec : IsEnv env) (c : ℕ) (m : Message) (b : Bool) (ps : List ProxyConnection)
      → Silent env c (if b then [] else flat_map (forwarded env m) ps)
  forwarded-Silent spec c m true ps ks = refl
  forwarded-Silent spec c m false ps ks = flat_map-Silent env c (forwarded env m) ps (every ps) ks
    where
      one :
          (b : Bool) (ws : Option ℕ)
          → Silent env c (if b then [] else sent_wire env ws (wire message m.source 0 m.payload))
      one true ws js = refl
      one false ws js =
          sent_wire-Silent env c spec ws (wire message m.source 0 m.payload) spec.ascii.3
            message_silent.0 message_silent.1 js

      every : (qs : List ProxyConnection) → All (λ q. Silent env c (forwarded env m q)) qs
      every [] = tt
      every (q ∷ qs) = (one (not q.writeable || q.id == m.source) q.ws, every qs)

  pub dispatch-Stays :
      (s t : State) → AllLive s.sock → Socket.dispatch env s ≡ ok t → Stays env none s t
  dispatch-Stays s t v e = elim (Option-cases (Chan.receive s.sock.broadcast_buffer)) [
    | inl idle ↦ returned (Stays env none s) e (dispatch_idle env s idle) (same-Stays none s s refl)
    | inr ((m, rest), some_) ↦
        returned (Stays env none s) e (dispatch_lem env s m rest v some_) (record {
          es = delivery env s.sock m;
          written = refl;
          controllers = refl;
          peers = refl;
          proxies = refl;
          running = refl;
          next_map = refl;
          maps = λ k apart. refl;
          silent = λ spec c away.
              append-Silent env c (flat_map (delivered m) s.sock.peers) _
                (quiet-Silent env c (flat_map (delivered m) s.sock.peers)
                  (delivered_other c m s.sock.peers away.of_peers))
                (forwarded-Silent spec c m m.from_proxy s.sock.proxies);
        })
  ]

  pub ping-Stays : (ws : Option ℕ) (s t : State) → ping ws s ≡ ok t → Stays env none s t
  unfolding ping
  ping-Stays none s t e = absurd (clash e)
    where
      clash : crash nil_dereference ≡ ok t → ⊥
      clash h = cc
  ping-Stays (some c) s t e =
      emit-Stays none (pinged c ∷ []) s t (sym (ok_eq e))
        (λ spec d away. quiet-Silent env d (pinged c ∷ []) refl)
