-- ===== src/Tests/Requests.antt =====
-- Requests to the service, at concrete paths.
use discovery_self.Base.{
  ℕ, List, [], ◌∷◌, ◌++◌, Option, some, Text, codes, ◌≡◌, refl, ◌⊎◌, inl, inr, to_lower, atoi, ◌≢◌,
  true, false,
}
use discovery_self.Model.{Request}
use discovery_self.Socket
use discovery_self.Service.{
  World, serve_ws_creator, resolve, on_socket, is_valid_service_name, is_peer_id,
  new_named_web_socket_service,
}
use discovery_self.Service.Routes.{IsUpgrade}

-- A process without sockets.
abbrev pub empty : World
empty = record {
  service = record {
    host = codes "localhost";
    port = 2000;
    named_web_sockets = [];
    advertised_service_names = [];
    registered_service_names = [];
  };
  heap = λ _. Socket.new_named_web_socket [];
  next_sock = 0;
  advertising = [];
  pumps = λ _. [];
  maps = λ _. [];
  next_map = 0;
  peer_notified_list = [];
  proxy_notified_list = [];
  out = [];
}

abbrev pub upgrade : Socket.Upgrader
upgrade r protocol = Socket.opened 10

-- An upgrade request.
abbrev pub get : Text → Request
get path = record {
  method = codes "GET";
  path = path;
  host = codes "localhost:2000";
  upgrade = codes "WebSocket";
  proxy_header = [];
  protocols = [];
}

pub get-IsUpgrade : (path : Text) → IsUpgrade (get path)
get-IsUpgrade path = record { get = refl; websocket = unfold to_lower in refl }

pub chat_valid : is_valid_service_name (codes "chat") ≡ true
chat_valid =
    unfold is_valid_service_name discovery_self.Service.all_name_chars
      discovery_self.Service.is_name_char in
    refl

pub id_valid : is_peer_id (codes "12345") ≡ true
id_valid = unfold is_peer_id discovery_self.Base.all_digits in refl
