-- ===== src/Tests/Flight.antt =====
-- Frames in flight between two machines, at concrete connections.
use discovery_self.Base.{◌++◌, List, Text, contains, false, [], ◌∷◌, arith, inl, codes, ◌≡◌, refl}
use discovery_self.Env.{connect, message}
use discovery_self.Model.{State, Effect, peer_write, proxy_read}
use discovery_self.Step.{ok}
use discovery_self.Live.{wire}
use discovery_self.Peer
use discovery_self.Proxy
use discovery_self.Proxy.Ownership.{owned}
use discovery_self.Step.Writes.{writes_to}
use discovery_self.Network.Handshake.{reads}
use discovery_self.Network.Sync.{farewell}
use discovery_self.Network.Channel.{Machines}
use discovery_self.Network.Channel.Delivery.{InStep}
use discovery_self.System.Invariant.{IsSound}
use discovery_self.Tests.{state_of, peer, controller, proxy, hello}
use discovery_self.Network.Conversation.{text_heard_once}
use discovery_self.Socket.{dispatch}
use discovery_self.Peer.Notify.{is_news}
use discovery_self.Tests.Codec.{env, env-IsEnv, marshal}

-- Peer 1 here, known to the machine behind proxy 9, over connection 30.
abbrev here : State
here = state_of (controller 1 10 ∷ []) (peer 1 11 ∷ []) (proxy 9 30 ∷ []) [] []

abbrev there : State
there = record (state_of (controller 2 20 ∷ []) (peer 2 21 ∷ []) (proxy 9 40 ∷ []) [] (1 ∷ [])) {
  running = proxy_read (proxy 9 40) ∷ [];
}

abbrev at_first : Machines
at_first = record { one = here; flight = []; other = there }

here-IsSound : IsSound here
here-IsSound = record {
  same_lists = refl;
  notified_once = tt;
  channel = record { bounded = omega arith; full = inl refl };
  capacity = refl;
  live = record { of_controllers = (tt, tt); of_peers = (tt, tt); of_proxies = (tt, tt) };
  pumps_live = tt;
}

there-IsSound : IsSound there
there-IsSound = record {
  same_lists = refl;
  notified_once = tt;
  channel = record { bounded = omega arith; full = inl refl };
  capacity = refl;
  live = record { of_controllers = (tt, tt); of_peers = (tt, tt); of_proxies = (tt, tt) };
  pumps_live = (tt, tt);
}

at_first-InStep : InStep env (proxy 9 30) (proxy 9 40) 30 at_first
at_first-InStep = record {
  one_sound = here-IsSound;
  other_sound = there-IsSound;
  link = record {
    before = [];
    after = [];
    listed = refl;
    over = refl;
    writes = refl;
    alone_before = tt;
    alone_after = tt;
    alone_controllers = ((λ e. cc), tt);
  };
  others = ((λ e. cc), tt);
  in_use = omega arith;
  reading = inl refl;
  agrees = λ k. refl;
}

-- Peer 5 comes, and it goes while the frame that tells of it is read at the other end.
abbrev came : State
came = Peer.Membership.joined env (peer 5 50) here

abbrev went : State
went = Peer.Membership.left env (peer 5 50) (record came { running = peer_write (peer 5 50) ∷ [] })

abbrev told : State
told = owned env connect 5 (proxy 9 40) (Proxy.insert_key 5) there

abbrev later : Machines
later = record { one = went; flight = writes_to 30 (farewell env (peer 5 50) came); other = told }

no_url : is_news hello [] ≡ false
unfolding contains discovery_self.Base.has_prefix
no_url = refl

text_heard_once_example :
    (s1 : State) × (s2 : State) × (es : List Effect) × (v : State) × (w : State) × (fs : List
      Effect)
    × (Peer.read_loop env (peer 1 11) (reads (hello ∷ [])) here ≡ ok s1)
    × (dispatch env s1 ≡ ok s2)
    × (s2.out ≡ s1.out ++ es)
    × (writes_to 30 es ≡ marshal (wire message 1 0 hello) ∷ [])
    × (Proxy.read_loop env (proxy 9 40) (reads (marshal (wire message 1 0 hello) ∷ [])) there
        ≡ ok v)
    × (dispatch env v ≡ ok w)
    × (w.out ≡ v.out ++ fs)
    × (writes_to 21 fs ≡ hello ∷ [])
text_heard_once_example =
    text_heard_once env env-IsEnv here there (peer 1 11) hello (codes "/home/Mediascape.png")
      (proxy 9 30) (proxy 9 40) 30 (peer 2 21) 21 [] [] (marshal (wire message 1 0 hello))
      here-IsSound there-IsSound refl refl (at_first-InStep).link ((λ e. cc), tt) (λ e. cc)
      (λ e. cc) refl refl refl refl refl (inl no_url) refl refl tt tt ((λ e. cc), tt)
