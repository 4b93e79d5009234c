-- ===== src/Control.antt =====
-- control.go: the connections over which peers learn of one another and send direct messages.
pub mod Relay
pub mod Membership
use discovery_self.Base.{
  ℕ, List, [], ◌∷◌, ◌++◌, Option, none, some, Text, text_eq, Bool, true, false, if◌then◌else◌, ◌==◌,
  find_first, drop_first, elem,
}
use discovery_self.Env.{Env, WireMessage, connect, message, directmessage}
use discovery_self.Model.{
  NamedWebSocket, State, PeerConnection, ControlConnection, ProxyConnection, control_read,
  control_write,
}
use discovery_self.Step.{
  Result, ok, crash, log_fatal, Step, ◌>>=◌, ◌>>◌, skip, with_state, set_sock, go, for_each, close,
  ping,
}
use discovery_self.Sends.{ReadEvent, received, start_reading, control_send, proxy_send}

unfoldable pub new_control_connection : ℕ → Option ℕ → ControlConnection
new_control_connection id ws = record { peer_connection = record { id = id; ws = ws } }

-- The first connection with the same id leaves the list, and the receiver's socket is closed.
unfoldable pub remove_connection : ControlConnection → Step
remove_connection control =
    set_sock
      (λ sock. record sock { controllers = drop_first (λ c. c.id == control.id) sock.controllers })
    >> close control.ws

module _ (env : Env) where
  unfoldable pub tell_of_peer : ControlConnection → PeerConnection → Step
  tell_of_peer control peer =
      if control.id == peer.id then skip else control_send env control connect control.id peer.id []

  unfoldable pub tell_of_proxy : ControlConnection → ProxyConnection → Step
  tell_of_proxy control proxy = with_state λ s.
      for_each (env.range_order (s.maps proxy.peers))
        (λ peer_id. control_send env control connect control.id peer_id [])

  unfoldable pub add_connection : ControlConnection → Step
  add_connection control =
      set_sock (λ sock. record sock { controllers = sock.controllers ++ control ∷ [] })
      >> go (control_write control)
      >> go (control_read control)
      >> with_state (λ s. for_each s.sock.peers (tell_of_peer control))
      >> with_state (λ s. for_each s.sock.proxies (tell_of_proxy control))

  -- The connection that the target of a direct message is reached over.
  unfoldable pub to_controller :
      ControlConnection → WireMessage → Option ControlConnection → Step → Step
  to_controller control m none otherwise = otherwise
  to_controller control m (some c) otherwise =
      control_send env c message control.id m.target m.payload

  unfoldable pub to_proxy : ControlConnection → WireMessage → Option ProxyConnection → Step
  to_proxy control m none = skip
  to_proxy control m (some proxy) = proxy_send env proxy directmessage control.id m.target m.payload

  unfoldable pub relay : ControlConnection → WireMessage → Step
  unfolding to_controller to_proxy
  relay control m s =
      to_controller control m (find_first (λ c. c.id == m.target) s.sock.controllers)
        (to_proxy control m (find_first (λ p. elem m.target (s.maps p.peers)) s.sock.proxies)) s

  unfoldable pub handle_wire : ControlConnection → Option WireMessage → Step
  unfolding relay
  handle_wire control none = λ s. crash log_fatal
  handle_wire control (some m) = if text_eq m.action message then relay control m else skip

  -- One message of the read loop.
  unfoldable pub handle : ControlConnection → Text → Step
  unfolding handle_wire
  handle control text = handle_wire control (env.unmarshal text)

  -- The read loop over what the reads return; it waits where they end.
  unfoldable pub read_loop : ControlConnection → List ReadEvent → Step
  read_loop control [] s = ok s
  read_loop control (ev ∷ evs) s = elim (received ev) [
    | none ↦ remove_connection control s
    | some text ↦ handle control text s >>= λ s'. read_loop control evs s'
  ]

  unfoldable pub read_connection_pump : ControlConnection → List ReadEvent → Step
  read_connection_pump control evs = start_reading control.ws >> read_loop control evs

-- One tick of the ticker. The loop has no exit.
unfoldable pub write_connection_pump : ControlConnection → Step
write_connection_pump control = ping control.ws
