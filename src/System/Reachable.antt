-- ===== src/System/Reachable.antt =====
-- The states that the goroutines of a socket reach (socket.go).
use discovery_self.Base.{
  List, [], ◌∷◌, ◌++◌, none, some, Text, ◌≡◌, All, inl, inr, ◌⊎◌, subst, Option-cases,
}
use discovery_self.Chan
use discovery_self.Env.{Env}
use discovery_self.Model.{
  State, NamedWebSocket, PeerConnection, ControlConnection, ProxyConnection, Pump, peer_read,
  peer_write, control_read, control_write, proxy_read, proxy_write,
}
use discovery_self.Step.Emits.{IsLive}
use discovery_self.Peer
use discovery_self.Control
use discovery_self.Proxy
use discovery_self.Socket
use discovery_self.Socket.Dispatch.{dispatch_lem}
use discovery_self.Peer.Notify.{Returns}
use discovery_self.System.{
  start, Next, Reach, here, next, peer_joins, control_joins, proxy_joins, peer_reads, control_reads,
  proxy_reads, peer_ends, control_ends, proxy_ends, peer_pings, control_pings, proxy_pings,
  dispatches,
}
use discovery_self.System.Invariant.{IsSound, PumpLive, start-IsSound}
use discovery_self.System.Comings.{
  peer_joins-IsSound, control_joins-IsSound, proxy_joins-IsSound, peer_ends-IsSound,
  control_ends-IsSound, proxy_ends-IsSound,
}
use discovery_self.System.Reads.{
  peer_reads-IsSound, control_reads-IsSound, proxy_reads-IsSound, dispatch-IsSound, ping-IsSound,
}

-- A pump that ends is one less.
All-split :
    (xs ys : List Pump) (p : Pump)
    → All PumpLive (xs ++ p ∷ ys)
    → PumpLive p × All PumpLive (xs ++ ys)
All-split [] ys p h = h
All-split (x ∷ xs) ys p h = let (a, b) = All-split xs ys p h.1 in (a, (h.0, b))

pub stopped :
    (s : State) (xs ys : List Pump) (p : Pump)
    → s.running ≡ xs ++ p ∷ ys
    → IsSound s
    → PumpLive p × IsSound (record s { running = xs ++ ys })
stopped s xs ys p e v =
    let (a, b) = All-split xs ys p (subst (All PumpLive) e v.pumps_live) in
    (
      a,
      record {
        same_lists = v.same_lists;
        notified_once = v.notified_once;
        channel = v.channel;
        capacity = v.capacity;
        live = v.live;
        pumps_live = b;
      },
    )

module _ (env : Env) where
  pub Next-IsSound : (s t : State) → Next env s t → IsSound s → IsSound t
  unfolding Peer.write_connection_pump Control.write_connection_pump Proxy.write_connection_pump
  Next-IsSound s t (peer_joins p h e) v = peer_joins-IsSound env p s t h e v
  Next-IsSound s t (control_joins c h e) v = control_joins-IsSound env c s t h e v
  Next-IsSound s t (proxy_joins id ws w h e) v = proxy_joins-IsSound env id ws w s t h e v
  Next-IsSound s t (peer_reads p text r e) v = peer_reads-IsSound env p text s t e v
  Next-IsSound s t (control_reads c text r e) v = control_reads-IsSound env c text s t e v
  Next-IsSound s t (proxy_reads p text r e) v = proxy_reads-IsSound env p text s t e v
  Next-IsSound s t (peer_ends p xs ys r e) v =
      let (h, v') = stopped s xs ys (peer_read p) r v in peer_ends-IsSound env p _ t h e v'
  Next-IsSound s t (control_ends c xs ys r e) v =
      let (h, v') = stopped s xs ys (control_read c) r v in control_ends-IsSound env c _ t h e v'
  Next-IsSound s t (proxy_ends p xs ys r e) v =
      let (h, v') = stopped s xs ys (proxy_read p) r v in proxy_ends-IsSound env p _ t h e v'
  Next-IsSound s t (peer_pings p r e) v = ping-IsSound env p.ws s t e v
  Next-IsSound s t (control_pings c r e) v = ping-IsSound env c.ws s t e v
  Next-IsSound s t (proxy_pings p r e) v = ping-IsSound env p.ws s t e v
  Next-IsSound s t (dispatches e) v = dispatch-IsSound env s t e v

  -- From a sound state every state that the goroutines reach, in whatever order they run, is sound,
  -- provided that each connection that joins on the way is one whose upgrade or dial succeeded, and so
  -- is not nil: the two lists of notified texts are one list without repetition, the
  -- broadcast channel keeps to its 512 places and parks senders only when full, and no connection
  -- that is listed or served by a pump is nil.
  pub Reach-IsSound : (s t : State) → IsSound s → Reach env s t → IsSound t
  Reach-IsSound s t v here = v
  Reach-IsSound s t v (next {t = u} r st) = Next-IsSound u t st (Reach-IsSound s u v r)

-- In every state that a new socket reaches by steps in which each connection that joins is one whose
-- upgrade or dial succeeded, and so is not nil, a round of the dispatcher, and a peer, a controller or a
-- proxy, none of whose connections is nil, that joins or is torn down, are handled without a fault.
pub Reach-Returns :
    (env : Env) (name : Text) (s : State) (p : PeerConnection) (c : ControlConnection)
    (q : ProxyConnection)
    → Reach env (start name) s
    → IsLive p.ws
    → IsLive c.ws
    → IsLive q.ws
    → Returns (Socket.dispatch env s)
      × Returns (Peer.add_connection env p s)
      × Returns (Peer.remove_connection env p s)
      × Returns (Control.add_connection env c s)
      × Returns (Control.remove_connection c s)
      × Returns (Proxy.add_connection env q s)
      × Returns (Proxy.remove_connection env q s)
Reach-Returns env name s p c q r hp hc hq = (
  dispatch_returns (Option-cases (Chan.receive s.sock.broadcast_buffer)),
  (_, Peer.Membership.add_connection_lem env p s v.live),
  (_, Peer.Membership.remove_connection_lem env p s v.live hp),
  (_, Control.Membership.controller_catches_up env c s hc),
  (_, Control.Membership.remove_connection_lem c s hc),
  (_, Proxy.Membership.add_connection_lem env q s hq),
  (_, Proxy.Membership.remove_connection_lem env q s hq),
)
  where
    v : IsSound s
    v = Reach-IsSound env (start name) s (start-IsSound name) r

    dispatch_returns :
        (Chan.receive s.sock.broadcast_buffer ≡ none)
          ⊎ ((a : discovery_self.Model.Message × Chan.Chan discovery_self.Model.Message)
              × (Chan.receive s.sock.broadcast_buffer ≡ some a))
        → Returns (Socket.dispatch env s)
    dispatch_returns (inl idle) = (s, Socket.Dispatch.dispatch_idle env s idle)
    dispatch_returns (inr ((m, rest), e)) = (_, dispatch_lem env s m rest v.live e)
