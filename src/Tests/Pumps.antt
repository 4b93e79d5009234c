-- ===== src/Tests/Pumps.antt =====
-- The read pumps and the dispatcher of one socket, at concrete connections.
use discovery_self.Base.{
  List, [], ◌∷◌, ◌++◌, none, some, codes, ◌≡◌, refl, ◌↔◌, ◌⊎◌, inl, arith, flat_map, false,
}
use discovery_self.Chan
use discovery_self.Chan.{queued}
use discovery_self.Env.{message}
use discovery_self.Model.{State, Effect, peer_write, peer_read, wrote, closed, Request, replied}
use discovery_self.Step.{ok, crash, nil_dereference, emit, ◌>>=◌}
use discovery_self.Live.{AllLive, wire}
use discovery_self.Control
use discovery_self.Control.Relay.{handle-message}
use discovery_self.Control.Membership.{controller_catches_up}
use discovery_self.Peer
use discovery_self.Peer.Membership.{
  add_connection_lem, remove_connection_lem, remove-add_connection, remove_connection_shadowed,
  joined, left, controllers_without,
}
use discovery_self.Peer.Notify.{handle-Returns_iff, Returns, Survives, is_news}
use discovery_self.Proxy
use discovery_self.Socket
use discovery_self.Socket.Upgrade.{failed_upgrade}
use discovery_self.Sends.{ReadEvent}
use discovery_self.Socket.{dispatch, message_dispatcher}
use discovery_self.Socket.Dispatch.{message_dispatcher_drains, delivery}
use discovery_self.Step.Writes.{writes_to}
use discovery_self.Socket.Once.{dispatch_once}
use discovery_self.System.{start, Next, Reach, here, next, peer_joins, peer_ends}
use discovery_self.System.Invariant.{IsSound, start-IsSound}
use discovery_self.System.Reachable.{Reach-IsSound, Reach-Returns}
use discovery_self.Tests.{state_of, peer, controller, proxy, hello, url, greeting}
use discovery_self.Tests.Codec.{env, marshal}

abbrev busy : State
busy =
    state_of (controller 1 10 ∷ controller 2 20 ∷ []) (peer 1 11 ∷ peer 7 71 ∷ []) (proxy 9 30 ∷ [])
      (greeting ∷ greeting ∷ []) (4 ∷ [])

busy-AllLive : AllLive busy.sock
busy-AllLive = record {
  of_controllers = (tt, (tt, tt));
  of_peers = (tt, (tt, tt));
  of_proxies = (tt, tt);
}

message_dispatcher_drains_example :
    (t : State) × (message_dispatcher env 2 busy ≡ ok t)
    × (queued t.sock.broadcast_buffer ≡ [])
    × (t.out ≡ [] ++ flat_map (delivery env busy.sock) (greeting ∷ greeting ∷ []))
message_dispatcher_drains_example =
    message_dispatcher_drains env 2 busy busy-AllLive
      (record { bounded = omega arith; full = inl refl }) (omega arith) refl

dispatch_once_example :
    (t : State) × (es : List Effect) × (dispatch env busy ≡ ok t)
    × (t.out ≡ [] ++ es)
    × (writes_to 11 es ≡ hello ∷ [])
unfolding Chan.receive
dispatch_once_example =
    dispatch_once env busy greeting (record { capacity = 512; buffer = greeting ∷ []; parked = [] })
      (peer 1 11) 11 [] (peer 7 71 ∷ []) busy-AllLive refl refl refl tt ((λ e. cc), tt)
      ((λ e. cc), tt)

handle-message_example :
    Control.handle env (controller 1 10) (marshal (wire message 5 2 hello)) busy
    ≡ ok (emit (wrote 20 (marshal (wire message 1 2 hello)) ∷ []) busy)
handle-message_example =
    handle-message env (controller 1 10) (marshal (wire message 5 2 hello)) (wire message 5 2 hello)
      busy busy-AllLive refl refl

handle-Returns_iff_example :
    Returns (Peer.handle env (peer 1 11) url busy)
    ↔ ((is_news url [] ≡ false) ⊎ Survives env (peer 1 11) busy.sock.controllers)
handle-Returns_iff_example = handle-Returns_iff env (peer 1 11) url busy

add_connection_lem_example :
    Peer.add_connection env (peer 5 50) busy ≡ ok (joined env (peer 5 50) busy)
add_connection_lem_example = add_connection_lem env (peer 5 50) busy busy-AllLive

remove_connection_lem_example :
    Peer.remove_connection env (peer 1 11) busy ≡ ok (left env (peer 1 11) busy)
remove_connection_lem_example = remove_connection_lem env (peer 1 11) busy busy-AllLive tt

remove-add_connection_example :
    (t : State) × ((Peer.add_connection env (peer 2 21) busy
        >>= Peer.remove_connection env (peer 2 21))
      ≡ ok t)
    × (t.sock ≡ record busy.sock { controllers = controllers_without 2 busy.sock.controllers })
remove-add_connection_example = remove-add_connection env (peer 2 21) busy busy-AllLive tt refl

-- Two peers of one id.
abbrev twins : State
twins = state_of [] (peer 5 15 ∷ peer 1 11 ∷ peer 1 12 ∷ []) [] [] []

remove_connection_shadowed_example :
    (t : State) × (Peer.remove_connection env (peer 1 12) twins ≡ ok t)
    × (t.sock.peers ≡ peer 5 15 ∷ peer 1 12 ∷ [])
    × (t.out ≡ closed 12 ∷ [])
remove_connection_shadowed_example =
    remove_connection_shadowed env (peer 5 15 ∷ []) (peer 1 11) [] (peer 1 12) [] twins
      (record { of_controllers = tt; of_peers = (tt, (tt, (tt, tt))); of_proxies = tt }) refl
      ((λ e. cc), tt) refl

controller_catches_up_example :
    Control.add_connection env (controller 7 70) busy
    ≡ ok (Control.Membership.joined env (controller 7 70) busy)
controller_catches_up_example = controller_catches_up env (controller 7 70) busy tt

-- A peer that joins a new socket, and whose read pump then ends.
abbrev one_peer : State
one_peer = record (start (codes "chat")) {
  sock = record (start (codes "chat")).sock { peers = peer 1 11 ∷ [] };
  running = peer_write (peer 1 11) ∷ peer_read (peer 1 11) ∷ [];
}

joins : Next env (start (codes "chat")) one_peer
joins =
    peer_joins (peer 1 11) tt
      (unfold Peer.add_connection start discovery_self.Step.for_each in refl)

abbrev gone : State
gone = record (start (codes "chat")) { running = peer_write (peer 1 11) ∷ []; out = closed 11 ∷ [] }

leaves : Next env one_peer gone
unfolding start
leaves = peer_ends (peer 1 11) (peer_write (peer 1 11) ∷ []) [] refl (
    remove_connection_lem env (peer 1 11)
      (record one_peer { running = peer_write (peer 1 11) ∷ [] })
      (record { of_controllers = tt; of_peers = (tt, tt); of_proxies = tt }) tt)

comes_and_goes : Reach env (start (codes "chat")) gone
comes_and_goes = next (next here joins) leaves

one_peer-IsSound : IsSound one_peer
one_peer-IsSound =
    Reach-IsSound env (start (codes "chat")) one_peer (start-IsSound (codes "chat"))
      (next here joins)

Reach-IsSound_example : IsSound gone
Reach-IsSound_example =
    Reach-IsSound env (start (codes "chat")) gone (start-IsSound (codes "chat")) comes_and_goes

Reach-Returns_example :
    Returns (dispatch env gone)
    × Returns (Peer.add_connection env (peer 2 20) gone)
    × Returns (Peer.remove_connection env (peer 2 20) gone)
    × Returns (Control.add_connection env (controller 1 10) gone)
    × Returns (Control.remove_connection (controller 1 10) gone)
    × Returns (Proxy.add_connection env (proxy 9 30) gone)
    × Returns (Proxy.remove_connection env (proxy 9 30) gone)
Reach-Returns_example =
    Reach-Returns env (codes "chat") gone (peer 2 20) (controller 1 10) (proxy 9 30) comes_and_goes
      tt tt tt

-- A peer whose upgrade fails, for want of a key.
abbrev refuses : Socket.Upgrader
refuses r protocol = Socket.refused (some 400)

abbrev asks : Request
asks = record {
  method = codes "GET";
  path = codes "/local/chat/1234";
  host = codes "localhost:2000";
  upgrade = codes "websocket";
  proxy_header = [];
  protocols = [];
}

refused_lem : Socket.upgrade_to_web_socket env refuses asks ≡ Socket.refused (some 400)
unfolding Socket.upgrade_to_web_socket
refused_lem = refl

failed_upgrade_example :
    (es : List Effect) × (t : State) × (Socket.serve_service env refuses asks 1234 busy ≡ ok t)
    × (t.out ≡ ([] ++ replied 400 ∷ replied 404 ∷ []) ++ es)
    × (t.sock.peers ≡ busy.sock.peers ++ record { id = 1234; ws = none } ∷ [])
    × (t.running
        ≡ ([] ++ peer_write (record { id = 1234; ws = none }) ∷ [])
          ++ peer_read (record { id = 1234; ws = none }) ∷ [])
    × ((u : State) (evs : List ReadEvent)
        → Peer.read_connection_pump env (record { id = 1234; ws = none }) evs u
          ≡ crash nil_dereference)
    × ((u : State)
        → Peer.write_connection_pump (record { id = 1234; ws = none }) u ≡ crash nil_dereference)
failed_upgrade_example =
    failed_upgrade env refuses asks 1234 (some 400) busy refl (λ e. cc) refused_lem busy-AllLive
