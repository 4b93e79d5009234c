-- ===== src/Service.antt =====
-- service.go: the sockets of a process by their paths, and the handler that connects a request to
-- its socket. The regular expressions are modelled by tests on the parts between slashes.
pub mod Parts
pub mod Routes
pub mod Found
pub mod Sockets
pub mod Paths
pub mod Console
pub mod Mux
pub mod Matching
use discovery_self.Base.{
  ℕ, suc, ◌+◌, List, [], ◌∷◌, ◌++◌, Option, none, some, Text, codes, text_eq, Bool, true, false,
  ◌&&◌, ◌||◌, not, if◌then◌else◌, ◌==◌, leb, length, split, join, lacks, atoi, itoa, to_lower,
  all_digits, is_digit,
}
use discovery_self.Env.{Env}
use discovery_self.Model.{NamedWebSocket, State, Request, Pump, Effect, replied}
use discovery_self.Step.{Result, ok, crash, index_out_of_range, Step, ◌>>=◌}
use discovery_self.Socket

-- NamedWebSocket_Service. A socket is a pointer, an index of `World.heap`.
pub record Service : Type 0 where
  pub host : Text
  pub port : ℕ
  pub named_web_sockets : List (Text × ℕ)
  -- the keys that hold `true`
  pub advertised_service_names : List Text
  pub registered_service_names : List Text

unfoldable pub new_named_web_socket_service : Text → ℕ → Service
new_named_web_socket_service host port = record {
  host = host;
  port = port;
  named_web_sockets = [];
  advertised_service_names = [];
  registered_service_names = [];
}

-- The process: its sockets, their goroutines, and what its sockets share.
pub record World : Type 0 where
  pub service : Service
  pub heap : ℕ → NamedWebSocket
  pub next_sock : ℕ
  -- the sockets whose `advertise` was started
  pub advertising : List ℕ
  pub pumps : ℕ → List Pump
  pub maps : ℕ → List ℕ
  pub next_map : ℕ
  pub peer_notified_list : List Text
  pub proxy_notified_list : List Text
  pub out : List Effect

abbrev pub set_at {ℓ} : {A : Type ℓ} → (ℕ → A) → ℕ → A → ℕ → A
set_at f i a j = if i == j then a else f j

-- One socket with what it shares, and back.
abbrev pub focus : ℕ → World → State
focus i w = record {
  sock = w.heap i;
  maps = w.maps;
  next_map = w.next_map;
  peer_notified_list = w.peer_notified_list;
  proxy_notified_list = w.proxy_notified_list;
  running = w.pumps i;
  out = w.out;
}

abbrev pub unfocus : ℕ → World → State → World
unfocus i w s = record w {
  heap = set_at w.heap i s.sock;
  pumps = set_at w.pumps i s.running;
  maps = s.maps;
  next_map = s.next_map;
  peer_notified_list = s.peer_notified_list;
  proxy_notified_list = s.proxy_notified_list;
  out = s.out;
}

abbrev pub on_socket : ℕ → Step → World → Result World
on_socket i step w = step (focus i w) >>= λ s. ok (unfocus i w s)

-- A map with string keys.
unfoldable pub lookup_path : Text → List (Text × ℕ) → Option ℕ
lookup_path k [] = none
lookup_path k ((j, v) ∷ m) = if text_eq j k then some v else lookup_path k m

unfoldable pub insert_path : Text → ℕ → List (Text × ℕ) → List (Text × ℕ)
insert_path k v [] = (k, v) ∷ []
insert_path k v ((j, w) ∷ m) = if text_eq j k then (j, v) ∷ m else (j, w) ∷ insert_path k v m

-- [A-Za-z0-9\._-]
unfoldable pub is_name_char : ℕ → Bool
is_name_char c =
    leb 65 c && leb c 90
    || leb 97 c && leb c 122
    || is_digit c
    || c == b'.'
    || c == b'_'
    || c == b'-'

unfoldable pub all_name_chars : Text → Bool
unfolding is_name_char
all_name_chars [] = true
all_name_chars (c ∷ cs) = is_name_char c && all_name_chars cs

-- ^[A-Za-z0-9\._-]{1,255}$
unfoldable pub is_valid_service_name : Text → Bool
is_valid_service_name name = all_name_chars name && leb 1 (length name) && leb (length name) 255

-- ^[0-9]{4,}$
unfoldable pub is_peer_id : Text → Bool
is_peer_id id = all_digits id && leb 4 (length id)

-- [0-9]{4,} at the beginning of a text
unfoldable pub begins_with_peer_id : Text → Bool
begins_with_peer_id (a ∷ b ∷ c ∷ d ∷ rest) = is_digit a && is_digit b && is_digit c && is_digit d
begins_with_peer_id _ = false

-- All but the last two parts, and these.
unfoldable pub last_two : List Text → Option (List Text × Text × Text)
last_two [] = none
last_two (a ∷ []) = none
last_two (a ∷ b ∷ []) = some ([], a, b)
last_two (a ∷ b ∷ c ∷ rest) = elim (last_two (b ∷ c ∷ rest)) [
  | none ↦ none
  | some (pre, name, id) ↦ some (a ∷ pre, name, id)
]

-- The parts before a service name: some, and then "network". `.` is no newline.
unfoldable pub ends_in_network : List Text → Bool
ends_in_network [] = false
ends_in_network (a ∷ []) = false
ends_in_network (a ∷ b ∷ []) = lacks 10 a && text_eq b (codes "network")
ends_in_network (a ∷ b ∷ c ∷ rest) = lacks 10 a && ends_in_network (b ∷ c ∷ rest)

network_parts : Option (List Text × Text × Text) → Bool
network_parts none = false
network_parts (some (pre, name, id)) =
    ends_in_network pre && is_valid_service_name name && is_peer_id id

-- ^(.*/network/NAME/ID)$
unfoldable pub is_network_request : Text → Bool
unfolding network_parts
is_network_request path = network_parts (last_two (split b'/' path))

-- control/(network|local)/NAME/ID at the beginning of a list of parts
unfoldable pub begins_control : List Text → Bool
begins_control (a ∷ scope ∷ name ∷ id ∷ rest) =
    text_eq a (codes "control")
    && (text_eq scope (codes "network") || text_eq scope (codes "local"))
    && is_valid_service_name name
    && begins_with_peer_id id
begins_control _ = false

unfoldable pub holds_control : List Text → Bool
holds_control [] = false
holds_control (a ∷ rest) = begins_control (a ∷ rest) || holds_control rest

after_slash : List Text → Bool
after_slash [] = false
after_slash (a ∷ rest) = holds_control rest

-- (/control/(network|local)/NAME/ID), anywhere
unfoldable pub is_control_request : Text → Bool
unfolding after_slash
is_control_request path = after_slash (split b'/' path)

-- pathParts[0:len-1], and for a control request "/" and pathParts[2:len-1], joined. A slice past
-- its end is a panic.
unfoldable pub service_path : Bool → List Text → Result Text
service_path false parts = ok (join b'/' parts)
service_path true (a ∷ b ∷ parts) = ok (b'/' ∷ join b'/' parts)
service_path true _ = crash index_out_of_range

abbrev pub http_error : ℕ → World → Result World
http_error status w = ok (record w { out = w.out ++ replied status ∷ [] })

-- NewNamedWebSocket, with `go sock.advertise` for a network socket.
unfoldable pub new_socket : Text → Bool → World → ℕ × World
unfolding Socket.new_named_web_socket
new_socket name is_network w = (
  w.next_sock,
  record w {
    heap = set_at w.heap w.next_sock (Socket.new_named_web_socket name);
    pumps = set_at w.pumps w.next_sock [];
    next_sock = w.next_sock + 1;
    advertising = if is_network then w.advertising ++ w.next_sock ∷ [] else w.advertising;
  },
)

unfoldable pub set_named_web_sockets : Text → ℕ → World → World
set_named_web_sockets path i w = record w {
  service = record w.service { named_web_sockets = insert_path path i w.service.named_web_sockets };
}

abbrev pub found_or_new : Text → Text → Bool → World → Option ℕ → ℕ × World
found_or_new path name is_network w (some i) = (i, w)
found_or_new path name is_network w none =
    let (i, w') = new_socket name is_network w in (i, set_named_web_sockets path i w')

-- The socket of a path, created where there is none.
unfoldable pub resolve : Text → Text → Bool → World → ℕ × World
unfolding new_socket set_named_web_sockets
resolve path name is_network w =
    found_or_new path name is_network w (lookup_path path w.service.named_web_sockets)

module _ (env : Env) (upgrade : Socket.Upgrader) where
  serve_at : Bool → Request → ℕ → ℕ × World → Result World
  serve_at is_control r id (i, w) =
      on_socket i
        (if is_control
          then Socket.serve_control env upgrade r id
          else Socket.serve_service env upgrade r id)
        w

  unfoldable pub serve_parts : Request → Option (List Text × Text × Text) → World → Result World
  unfolding serve_at
  serve_parts r none w = crash index_out_of_range
  serve_parts r (some (pre, name, id)) w =
      service_path (is_control_request r.path) (pre ++ name ∷ []) >>= λ path.
      if is_valid_service_name name
      then serve_at (is_control_request r.path) r (atoi id)
          (resolve path name (is_network_request r.path) w)
      else http_error 404 w

  unfoldable pub serve_ws_creator : Request → World → Result World
  unfolding serve_parts
  serve_ws_creator r w =
      if not (text_eq r.method (codes "GET"))
      then http_error 405 w
      else if not (text_eq (to_lower r.upgrade) (codes "websocket"))
      then http_error 404 w
      else serve_parts r (last_two (split b'/' r.path)) w
