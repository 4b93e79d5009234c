-- ===== src/Start.antt =====
-- The start of the process (run.go of cmd/namedwebsockets), between the start of the HTTP server, which
-- runs in a goroutine of its own, and the browsing of the network.
use discovery_self.Base.{ℕ, [], Option, none, some, Text, codes, true}
use discovery_self.Socket
use discovery_self.Service.{
  Service, World, new_named_web_socket_service, new_socket, set_named_web_sockets,
}

abbrev pub start_path : Text
start_path = codes "/network/Mediascape"

-- GetNamedWebSockets: the caller's variable after the call, in which only a parameter is assigned.
unfoldable pub get_named_web_sockets : Service → Option ℕ → Text → Option ℕ
get_named_web_sockets service socket path = socket

abbrev start_new : World → Option ℕ → World
start_new w (some i) = w
start_new w none =
    let (i, v) = new_socket (codes "Mediascape") true w in set_named_web_sockets start_path i v

-- Lines 31 to 35, with the variable `sock`.
unfoldable pub start_socket : Option ℕ → World → World
unfolding get_named_web_sockets new_socket set_named_web_sockets
start_socket sock w = start_new w (get_named_web_sockets w.service sock start_path)

unfoldable pub new_world : Service → World
unfolding Socket.new_named_web_socket
new_world service = record {
  service = service;
  heap = λ _. Socket.new_named_web_socket [];
  next_sock = 0;
  advertising = [];
  pumps = λ _. [];
  maps = λ _. [];
  next_map = 0;
  peer_notified_list = [];
  proxy_notified_list = [];
  out = [];
}

-- main, up to the discovery server: `served` is what the HTTP server does before the socket is made.
unfoldable pub main_ : Option Text → (World → World) → Option World
unfolding start_socket new_world new_named_web_socket_service
main_ none served = none
main_ (some hostname) served =
    some (start_socket none (served (new_world (new_named_web_socket_service hostname 2000))))
