-- ===== src/Tests/Process.antt =====
-- A process that serves two requests and goes on.
use discovery_self.Base.{
  ap, sym, ◌∙◌, ℕ, ◌+◌, ◌∷◌, ◌++◌, Text, ◌≢◌, [], none, some, codes, ◌≡◌, refl, true, false, atoi,
}
use discovery_self.Model.{Request}
use discovery_self.Step.Emits.{IsLive}
use discovery_self.Socket
use discovery_self.Peer.Notify.{Returns}
use discovery_self.Step.{ok}
use discovery_self.Service.{
  World, serve_ws_creator, resolve, on_socket, is_peer_id, lookup_path, is_valid_service_name,
  Service,
}
use discovery_self.Service.Found.{on_socket-service}
use discovery_self.Service.Parts.{network}
use discovery_self.Service.Routes.{control_shares_socket}
use discovery_self.Service.Sockets.{short_id_unadvertised}
use discovery_self.Process.{Turns, requests, none_yet, then_}
use discovery_self.Process.Invariant.{IsProcess, fresh-IsProcess}
use discovery_self.Process.Kept.{Turns-IsProcess}
use discovery_self.Process.Started.{
  first_world, first_world-IsProcess, start_socket-IsProcess, main-IsProcess, main-overwrites,
}
use discovery_self.Start.{main_, start_socket, start_path}
use discovery_self.Process.Served.{request_served}
use discovery_self.Tests.Requests.{empty, upgrade, get, get-IsUpgrade, chat_valid, id_valid}
use discovery_self.Tests.Codec.{env}

abbrev peer_asks : Request
peer_asks = get (codes "/network/chat/12345")

abbrev controller_asks : Request
controller_asks = get (codes "/control/network/chat/12345")

upgraded-IsLive : (r : Request) → IsLive (Socket.connection_of env upgrade r)
unfolding Socket.upgrade_to_web_socket
upgraded-IsLive r = tt

empty-IsProcess : IsProcess empty
empty-IsProcess = fresh-IsProcess empty refl refl refl refl

request_served_example : Returns (serve_ws_creator env upgrade peer_asks empty)
request_served_example =
    request_served env upgrade peer_asks (codes "network/chat/12345") empty refl
      (upgraded-IsLive peer_asks) empty-IsProcess

-- The program's own socket, made after the first request, and a request after it.
abbrev first : World
first = first_world (codes "box")

abbrev early : Returns (serve_ws_creator env upgrade peer_asks first)
early =
    request_served env upgrade peer_asks (codes "network/chat/12345") first refl
      (upgraded-IsLive peer_asks) (first_world-IsProcess (codes "box"))

first_request : Turns env upgrade first early.0
first_request = then_ none_yet (requests peer_asks (upgraded-IsLive peer_asks) early.1)

abbrev made : World
made = start_socket none early.0

made-IsProcess : IsProcess made
made-IsProcess =
    start_socket-IsProcess early.0 made refl (
      Turns-IsProcess env upgrade first early.0 first_request (first_world-IsProcess (codes "box")))

abbrev late : Returns (serve_ws_creator env upgrade controller_asks made)
late =
    request_served env upgrade controller_asks (codes "control/network/chat/12345") made refl
      (upgraded-IsLive controller_asks) made-IsProcess

made_lem : main_ (some (codes "box")) (λ w. early.0) ≡ some made
unfolding main_
made_lem = refl

main-IsProcess_example : IsProcess late.0
main-IsProcess_example =
    main-IsProcess env upgrade (codes "box") (λ w. early.0) made late.0 first_request made_lem
      (then_ none_yet (requests controller_asks (upgraded-IsLive controller_asks) late.1))

-- A peer's request, and the request of its controller after it.
abbrev asked : Returns (serve_ws_creator env upgrade peer_asks empty)
asked =
    request_served env upgrade peer_asks (codes "network/chat/12345") empty refl
      (upgraded-IsLive peer_asks) empty-IsProcess

control_shares_socket_example :
    (i : ℕ) × (v : World) × (resolve (codes "/network/chat") (codes "chat") true empty ≡ (i, v))
    × (on_socket i (Socket.serve_service env upgrade peer_asks (atoi (codes "12345"))) v
        ≡ ok asked.0)
    × (serve_ws_creator env upgrade controller_asks asked.0
        ≡ on_socket i
            (Socket.serve_control env upgrade controller_asks (atoi (codes "12345")))
            asked.0)
control_shares_socket_example =
    control_shares_socket env upgrade network (codes "chat") (codes "12345") peer_asks
      controller_asks empty asked.0 chat_valid id_valid
      (get-IsUpgrade (codes "/network/chat/12345"))
      (get-IsUpgrade (codes "/control/network/chat/12345")) refl refl asked.1

abbrev short_asks : Request
short_asks = get (codes "/network/chat/123")

abbrev short_asked : Returns (serve_ws_creator env upgrade short_asks empty)
short_asked =
    request_served env upgrade short_asks (codes "network/chat/123") empty refl
      (upgraded-IsLive short_asks) empty-IsProcess

short_id_unadvertised_example :
    (i : ℕ) × (v : World) × (on_socket i
        (Socket.serve_service env upgrade short_asks (atoi (codes "123")))
        v
      ≡ ok short_asked.0)
    × (resolve (codes "/network/chat") (codes "chat") false empty ≡ (i, v))
    × (short_asked.0.advertising ≡ [])
    × (resolve (codes "/network/chat") (codes "chat") true short_asked.0 ≡ (i, short_asked.0))
short_id_unadvertised_example =
    short_id_unadvertised env upgrade (codes "chat") (codes "123") (codes "chat") true short_asks
      empty short_asked.0 chat_valid (unfold is_peer_id discovery_self.Base.all_digits in refl)
      (unfold discovery_self.Base.lacks in refl) (get-IsUpgrade (codes "/network/chat/123")) refl
      short_asked.1

-- A peer asks for the path of the program's own socket before that is made.
abbrev own_asks : Request
own_asks = get (codes "/network/Mediascape/12345")

abbrev own_early : Returns (serve_ws_creator env upgrade own_asks first)
own_early =
    request_served env upgrade own_asks (codes "network/Mediascape/12345") first refl
      (upgraded-IsLive own_asks) (first_world-IsProcess (codes "box"))

abbrev own_controller : Request
own_controller = get (codes "/control/network/Mediascape/12345")

own_valid : is_valid_service_name (codes "Mediascape") ≡ true
own_valid =
    unfold is_valid_service_name discovery_self.Service.all_name_chars
      discovery_self.Service.is_name_char in
    refl

made_first :
    lookup_path start_path
      (resolve start_path (codes "Mediascape") true first).1.service.named_web_sockets
    ≡ some 0
unfolding resolve lookup_path discovery_self.Start.new_world
    discovery_self.Service.new_named_web_socket_service discovery_self.Service.insert_path
    discovery_self.Base.text_eq
made_first = refl

own_there : lookup_path start_path own_early.0.service.named_web_sockets ≡ some 0
own_there =
    let (i, v, found, served, shared) =
      control_shares_socket env upgrade network (codes "Mediascape") (codes "12345") own_asks
        own_controller first own_early.0 own_valid id_valid
        (get-IsUpgrade (codes "/network/Mediascape/12345"))
        (get-IsUpgrade (codes "/control/network/Mediascape/12345")) refl refl own_early.1 in
    let kept =
      on_socket-service i (Socket.serve_service env upgrade own_asks (atoi (codes "12345"))) v
        own_early.0 served in
    ap (λ (s : Service). lookup_path start_path s.named_web_sockets)
      (kept.0 ∙ ap (λ (a : ℕ × World). a.1.service) (sym found))
    ∙ made_first

main-overwrites_example :
    (w : World) × (main_ (some (codes "box")) (λ v. own_early.0) ≡ some w)
    × (w.next_sock ≡ own_early.0.next_sock + 1)
    × (lookup_path start_path w.service.named_web_sockets ≡ some own_early.0.next_sock)
    × (w.heap own_early.0.next_sock ≡ Socket.new_named_web_socket (codes "Mediascape"))
    × (w.advertising ≡ own_early.0.advertising ++ own_early.0.next_sock ∷ [])
    × (w.heap 0 ≡ own_early.0.heap 0)
    × (w.pumps 0 ≡ own_early.0.pumps 0)
    × ((path : Text) → lookup_path path w.service.named_web_sockets ≢ some 0)
main-overwrites_example =
    main-overwrites env upgrade (codes "box") (λ v. own_early.0) 0
      (then_ none_yet (requests own_asks (upgraded-IsLive own_asks) own_early.1)) own_there
