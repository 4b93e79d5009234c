-- ===== src/System/Comings.antt =====
-- Connections that come and go, against the invariant (peer.go, control.go, proxy.go).
use discovery_self.Base.{
  ℕ, List, [], ◌∷◌, ◌++◌, Option, ◌≡◌, refl, sym, ◌∙◌, Bool, All, All-append, All-drop_first, subst,
}
use discovery_self.Env.{Env}
use discovery_self.Model.{
  State, PeerConnection, ControlConnection, ProxyConnection, Pump, peer_read, peer_write,
  control_read, control_write, proxy_read, proxy_write,
}
use discovery_self.Step.{Result, ok}
use discovery_self.Step.Inversion.{ok_eq}
use discovery_self.Step.Emits.{IsLive}
use discovery_self.Peer
use discovery_self.Control
use discovery_self.Proxy
use discovery_self.Proxy.{handle_wire, handle_message, relay}
use discovery_self.System.{join_proxy}
use discovery_self.System.Invariant.{IsSound, SameCore-IsSound, PumpLive}

-- The state that a step is known to return is the one that it returned.
pub returned {ℓ} :
    (P : State → Type ℓ) {r : Result State} {t u : State} → r ≡ ok t → r ≡ ok u → P u → P t
returned P e f h = subst P (ok_eq (sym f ∙ e)) h

two_pumps :
    (ps : List Pump) (p q : Pump)
    → All PumpLive ps
    → PumpLive p
    → PumpLive q
    → All PumpLive ((ps ++ p ∷ []) ++ q ∷ [])
two_pumps ps p q h hp hq =
    All-append PumpLive (ps ++ p ∷ []) (q ∷ []) (All-append PumpLive ps (p ∷ []) h (hp, tt))
      (hq, tt)

module _ (env : Env) where
  pub peer_joins-IsSound :
      (p : PeerConnection) (s t : State)
      → IsLive p.ws
      → Peer.add_connection env p s ≡ ok t
      → IsSound s
      → IsSound t
  peer_joins-IsSound p s t h e v =
      returned IsSound e (Peer.Membership.add_connection_lem env p s v.live) (record {
        same_lists = v.same_lists;
        notified_once = v.notified_once;
        channel = v.channel;
        capacity = v.capacity;
        live = record {
          of_controllers = v.live.of_controllers;
          of_peers =
              All-append (λ (q : PeerConnection). IsLive q.ws) s.sock.peers (p ∷ []) v.live.of_peers
                (h, tt);
          of_proxies = v.live.of_proxies;
        };
        pumps_live = two_pumps s.running (peer_write p) (peer_read p) v.pumps_live h h;
      })

  pub peer_ends-IsSound :
      (p : PeerConnection) (s t : State)
      → IsLive p.ws
      → Peer.remove_connection env p s ≡ ok t
      → IsSound s
      → IsSound t
  peer_ends-IsSound p s t h e v =
      returned IsSound e (Peer.Membership.remove_connection_lem env p s v.live h) (record {
        same_lists = v.same_lists;
        notified_once = v.notified_once;
        channel = v.channel;
        capacity = v.capacity;
        live = record {
          of_controllers = All-drop_first _ _ s.sock.controllers v.live.of_controllers;
          of_peers = All-drop_first _ _ s.sock.peers v.live.of_peers;
          of_proxies = v.live.of_proxies;
        };
        pumps_live = v.pumps_live;
      })

  pub control_joins-IsSound :
      (c : ControlConnection) (s t : State)
      → IsLive c.ws
      → Control.add_connection env c s ≡ ok t
      → IsSound s
      → IsSound t
  control_joins-IsSound c s t h e v =
      returned IsSound e (Control.Membership.controller_catches_up env c s h) (record {
        same_lists = v.same_lists;
        notified_once = v.notified_once;
        channel = v.channel;
        capacity = v.capacity;
        live = record {
          of_controllers =
              All-append (λ (d : ControlConnection). IsLive d.ws) s.sock.controllers (c ∷ [])
                v.live.of_controllers (h, tt);
          of_peers = v.live.of_peers;
          of_proxies = v.live.of_proxies;
        };
        pumps_live = two_pumps s.running (control_write c) (control_read c) v.pumps_live h h;
      })

  pub control_ends-IsSound :
      (c : ControlConnection) (s t : State)
      → IsLive c.ws
      → Control.remove_connection c s ≡ ok t
      → IsSound s
      → IsSound t
  control_ends-IsSound c s t h e v =
      returned IsSound e (Control.Membership.remove_connection_lem c s h) (record {
        same_lists = v.same_lists;
        notified_once = v.notified_once;
        channel = v.channel;
        capacity = v.capacity;
        live = record {
          of_controllers = All-drop_first _ _ s.sock.controllers v.live.of_controllers;
          of_peers = v.live.of_peers;
          of_proxies = v.live.of_proxies;
        };
        pumps_live = v.pumps_live;
      })

  pub proxy_added :
      (p : ProxyConnection) (s t : State)
      → IsLive p.ws
      → Proxy.add_connection env p s ≡ ok t
      → IsSound s
      → IsSound t
  proxy_added p s t h e v =
      returned IsSound e (Proxy.Membership.add_connection_lem env p s h) (record {
        same_lists = v.same_lists;
        notified_once = v.notified_once;
        channel = v.channel;
        capacity = v.capacity;
        live = record {
          of_controllers = v.live.of_controllers;
          of_peers = v.live.of_peers;
          of_proxies =
              All-append (λ (q : ProxyConnection). IsLive q.ws) s.sock.proxies (p ∷ [])
                v.live.of_proxies (h, tt);
        };
        pumps_live = two_pumps s.running (proxy_write p) (proxy_read p) v.pumps_live h h;
      })

  pub proxy_joins-IsSound :
      (id : ℕ) (ws : Option ℕ) (writeable : Bool) (s t : State)
      → IsLive ws
      → join_proxy env id ws writeable s ≡ ok t
      → IsSound s
      → IsSound t
  unfolding join_proxy
  proxy_joins-IsSound id ws writeable s t h e v =
      proxy_added (Proxy.new_proxy_connection id ws writeable s).0
        (Proxy.new_proxy_connection id ws writeable s).1 t h e
        (SameCore-IsSound {s = s}
          (record { sock = refl; peer_notified = refl; proxy_notified = refl; running = refl }) v)

  pub proxy_ends-IsSound :
      (p : ProxyConnection) (s t : State)
      → IsLive p.ws
      → Proxy.remove_connection env p s ≡ ok t
      → IsSound s
      → IsSound t
  proxy_ends-IsSound p s t h e v =
      returned IsSound e (Proxy.Membership.remove_connection_lem env p s h) (record {
        same_lists = v.same_lists;
        notified_once = v.notified_once;
        channel = v.channel;
        capacity = v.capacity;
        live = record {
          of_controllers = v.live.of_controllers;
          of_peers = v.live.of_peers;
          of_proxies = All-drop_first _ _ s.sock.proxies v.live.of_proxies;
        };
        pumps_live = v.pumps_live;
      })
