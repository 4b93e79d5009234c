-- ===== src/Tests/Links.antt =====
-- What crosses the link of two machines, at concrete connections.
use discovery_self.Base.{[], ◌∷◌, ◌++◌, List, some, Text, codes, ◌≡◌, refl}
use discovery_self.Chan
use discovery_self.Env.{message}
use discovery_self.Model.{State, Effect, wrote}
use discovery_self.Step.{ok, emit}
use discovery_self.Step.Emits.{sent_wire}
use discovery_self.Live.{AllLive, wire}
use discovery_self.Control
use discovery_self.Proxy
use discovery_self.Socket.{dispatch, remote_broadcast}
use discovery_self.Step.Writes.{writes_to}
use discovery_self.Network.Link.{IsLink}
use discovery_self.Network.Direct.{direct_message_delivered}
use discovery_self.Network.Broadcast.{broadcast_crosses_once, relayed}
use discovery_self.Proxy.{read_loop}
use discovery_self.Tests.{state_of, peer, controller, proxy, hello, greeting}
use discovery_self.Tests.Codec.{env, env-IsEnv, marshal}

-- Controller 1 here, controller 2 on the machine behind proxy 9, over connection 30.
abbrev here : State
here = state_of (controller 1 10 ∷ []) (peer 1 11 ∷ []) (proxy 9 30 ∷ []) (greeting ∷ []) (2 ∷ [])

abbrev there : State
there = state_of (controller 2 20 ∷ []) (peer 2 21 ∷ []) (proxy 9 40 ∷ []) [] (1 ∷ [])

here-AllLive : AllLive here.sock
here-AllLive = record { of_controllers = (tt, tt); of_peers = (tt, tt); of_proxies = (tt, tt) }

there-AllLive : AllLive there.sock
there-AllLive = record { of_controllers = (tt, tt); of_peers = (tt, tt); of_proxies = (tt, tt) }

here-IsLink : IsLink here (proxy 9 30) 30
here-IsLink = record {
  before = [];
  after = [];
  listed = refl;
  over = refl;
  writes = refl;
  alone_before = tt;
  alone_after = tt;
  alone_controllers = ((λ e. cc), tt);
}

direct_message_delivered_example :
    (frame : Text) × (Control.handle env (controller 1 10) (marshal (wire message 0 2 hello)) here
      ≡ ok (emit (wrote 30 frame ∷ []) here))
    × (Proxy.handle env (proxy 9 40) frame there
        ≡ ok (emit (sent_wire env (some 20) (wire message 1 2 hello)) there))
direct_message_delivered_example =
    direct_message_delivered env env-IsEnv here there (controller 1 10)
      (marshal (wire message 0 2 hello)) (wire message 0 2 hello) (proxy 9 30) (proxy 9 40) 30
      (controller 2 20) here-AllLive there-AllLive refl refl refl refl refl refl refl

broadcast_crosses_once_example :
    (frame : Text) × (es : List Effect) × (t : State) × (v : State) × (dispatch env here ≡ ok t)
    × (t.out ≡ [] ++ es)
    × (writes_to 30 es ≡ frame ∷ [])
    × (Proxy.handle env (proxy 9 40) frame there ≡ ok v)
    × (v.sock ≡ record there.sock {
      broadcast_buffer = Chan.send there.sock.broadcast_buffer (relayed greeting);
    })
    × (remote_broadcast env (relayed greeting) v ≡ ok v)
unfolding Chan.receive
broadcast_crosses_once_example =
    broadcast_crosses_once env env-IsEnv here there greeting
      (record { capacity = 512; buffer = []; parked = [] }) (proxy 9 30) (proxy 9 40) 30
      (codes "/home/Mediascape.png") here-AllLive refl here-IsLink ((λ e. cc), tt) (λ e. cc) refl
      refl refl
