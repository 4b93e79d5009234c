-- ===== src/Socket.antt =====
-- socket.go: one Named WebSocket, its request handlers and its dispatcher.
pub mod Dispatch
pub mod Once
pub mod Upgrade
use discovery_self.Base.{
  ℕ, zero, suc, List, [], ◌∷◌, ◌++◌, Option, none, some, Text, codes, text_eq, Bool, true, false,
  ◌||◌, not, ◌*◌, ◌/◌, if◌then◌else◌, ◌==◌, trim_space, take_until,
}
use discovery_self.Chan
use discovery_self.Env.{Env, message}
use discovery_self.Model.{
  NamedWebSocket, State, PeerConnection, ProxyConnection, Message, Request, Effect, replied,
}
use discovery_self.Step.{Result, ok, Step, ◌>>=◌, ◌>>◌, skip, with_state, set_sock, for_each, emit}
use discovery_self.Sends.{peer_send, proxy_send}
use discovery_self.Control
use discovery_self.Peer
use discovery_self.Proxy

-- Seconds.
abbrev pub write_wait : ℕ
write_wait = 10

abbrev pub pong_wait : ℕ
pong_wait = 60

abbrev pub ping_period : ℕ
ping_period = (pong_wait * 9) / 10

abbrev pub buffer_capacity : ℕ
buffer_capacity = 512

-- NewNamedWebSocket; its caller starts the goroutine that advertises a network socket.
unfoldable pub new_named_web_socket : Text → NamedWebSocket
unfolding Chan.make
new_named_web_socket service_name = record {
  service_name = service_name;
  controllers = [];
  peers = [];
  proxies = [];
  broadcast_buffer = Chan.make buffer_capacity;
  discovery_client = none;
}

-- The first of the subprotocols that the client offers, and "" if it offers none.
unfoldable pub selected_subprotocol : Text → Text
selected_subprotocol header =
    let offered = trim_space header in if text_eq offered [] then [] else take_until b',' offered

-- What Upgrade of gorilla/websocket comes to: a connection, or a failure, before which it has called
-- http.Error itself with a status, or nothing where the connection is hijacked already.
pub data Upgraded : Type 0 where
  opened : ℕ → Upgraded
  refused : Option ℕ → Upgraded

-- From the request and the subprotocol.
abbrev pub Upgrader : Type 0
Upgrader = Request → Text → Upgraded

-- The connection that is returned, or nil.
abbrev pub connection : Upgraded → Option ℕ
connection (opened c) = some c
connection (refused answer) = none

unfoldable pub reply : ℕ → Step
reply status s = ok (emit (replied status ∷ []) s)

-- What the upgrader answers by itself. It has no Error function, so that is http.Error.
unfoldable pub refusal : Upgraded → Step
unfolding reply
refusal (opened c) = skip
refusal (refused none) = skip
refusal (refused (some status)) = reply status

-- The call of http.Error with 404 after a failed upgrade; the handlers go on after it.
unfoldable pub report_upgrade : Upgraded → Step
unfolding reply
report_upgrade (opened c) = skip
report_upgrade (refused answer) = reply 404

module _ (env : Env) (upgrade : Upgrader) where
  unfoldable pub upgrade_to_web_socket : Request → Upgraded
  unfolding selected_subprotocol
  upgrade_to_web_socket r = upgrade r (selected_subprotocol r.protocols)

  abbrev pub connection_of : Request → Option ℕ
  connection_of r = connection (upgrade_to_web_socket r)

  unfoldable pub attach : Bool → ℕ → Option ℕ → Step
  unfolding Proxy.new_proxy_connection Peer.new_peer_connection
  attach is_proxy id ws s =
      if is_proxy
      then (let (proxy, s') = Proxy.new_proxy_connection id ws true s in
          Proxy.add_connection env proxy s')
      else Peer.add_connection env (Peer.new_peer_connection id ws) s

  unfoldable pub serve_service : Request → ℕ → Step
  unfolding attach refusal report_upgrade upgrade_to_web_socket
  serve_service r id =
      if text_eq r.method (codes "GET")
      then refusal (upgrade_to_web_socket r)
        >> report_upgrade (upgrade_to_web_socket r)
        >> attach (text_eq r.proxy_header (codes "true")) id (connection_of r)
      else reply 405

  unfoldable pub serve_control : Request → ℕ → Step
  unfolding refusal report_upgrade upgrade_to_web_socket Control.new_control_connection
  serve_control r id =
      if text_eq r.method (codes "GET")
      then refusal (upgrade_to_web_socket r)
        >> report_upgrade (upgrade_to_web_socket r)
        >> Control.add_connection env (Control.new_control_connection id (connection_of r))
      else reply 405

unfoldable pub local_write : Message → PeerConnection → Step
local_write broadcast peer =
    if peer.id == broadcast.source then skip else peer_send peer broadcast.payload

-- To the peers, except the one that it came from.
unfoldable pub local_broadcast : Message → Step
local_broadcast broadcast = with_state λ s. for_each s.sock.peers (local_write broadcast)

module _ (env : Env) where
  unfoldable pub remote_write : Message → ProxyConnection → Step
  remote_write broadcast proxy =
      if not proxy.writeable || proxy.id == broadcast.source
      then skip
      else proxy_send env proxy message broadcast.source 0 broadcast.payload

  -- To the writeable proxies, unless it came from a proxy.
  unfoldable pub remote_broadcast : Message → Step
  remote_broadcast broadcast =
      if broadcast.from_proxy
      then skip
      else with_state λ s. for_each s.sock.proxies (remote_write broadcast)

  deliver : Option (Message × Chan.Chan Message) → Step
  deliver none = skip
  deliver (some (m, rest)) =
      set_sock (λ sock. record sock { broadcast_buffer = rest })
      >> local_broadcast m
      >> remote_broadcast m

  -- One round of the dispatcher; it waits where nothing is queued.
  unfoldable pub dispatch : Step
  unfolding deliver
  dispatch = with_state λ s. deliver (Chan.receive s.sock.broadcast_buffer)

  unfoldable pub message_dispatcher : ℕ → Step
  message_dispatcher zero s = ok s
  message_dispatcher (suc rounds) s = dispatch s >>= λ s'. message_dispatcher rounds s'
