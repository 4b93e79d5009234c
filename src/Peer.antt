-- ===== src/Peer.antt =====
-- peer.go: the connections that share what is broadcast.
pub mod Membership
pub mod Notify
use discovery_self.Base.{
  ℕ, List, [], ◌∷◌, ◌++◌, Option, none, some, Text, codes, contains, text_elem, Bool, true, false,
  ◌&&◌, not, if◌then◌else◌, ◌==◌, find_first, drop_first,
}
use discovery_self.Chan
use discovery_self.Env.{Env, connect, disconnect}
use discovery_self.Model.{
  NamedWebSocket, State, PeerConnection, ControlConnection, ProxyConnection, Message, peer_read,
  peer_write,
}
use discovery_self.Step.{
  Result, ok, crash, index_out_of_range, Step, ◌>>=◌, ◌>>◌, skip, with_state, set_sock, go,
  for_each, close, ping,
}
use discovery_self.Sends.{
  ReadEvent, received, start_reading, control_send, proxy_send, show_notification,
}
use discovery_self.Control

unfoldable pub new_peer_connection : ℕ → Option ℕ → PeerConnection
new_peer_connection id ws = record { id = id; ws = ws }

abbrev pub http_scheme : Text
http_scheme = codes "http://"

abbrev pub agent_url : Text
agent_url = codes "http://localhost:8182/discoveryagent/notification?url="

-- PushBack on both lists.
abbrev pub remember : Text → Step
remember text s = ok (record s {
  peer_notified_list = s.peer_notified_list ++ text ∷ [];
  proxy_notified_list = s.proxy_notified_list ++ text ∷ [];
})

-- `sock.broadcastBuffer <- m`
abbrev pub broadcast : Message → Step
broadcast m =
    set_sock (λ sock. record sock { broadcast_buffer = Chan.send sock.broadcast_buffer m })

close_control : Option ControlConnection → Step
close_control none = skip
close_control (some control) = Control.remove_connection control

-- `peer.id != sock.controllers[0].id`
unfoldable pub unless_first_controller : PeerConnection → List ControlConnection → Step → Step
unless_first_controller peer [] show = λ s. crash index_out_of_range
unless_first_controller peer (c ∷ cs) show = if peer.id == c.id then skip else show

module _ (env : Env) where
  -- "connect" or "disconnect" to a controller, but not to the peer's own.
  unfoldable pub tell_controller : Text → PeerConnection → ControlConnection → Step
  tell_controller action peer control =
      if control.id == peer.id then skip else control_send env control action control.id peer.id []

  unfoldable pub tell_proxy : Text → PeerConnection → ProxyConnection → Step
  tell_proxy action peer proxy =
      if proxy.writeable then proxy_send env proxy action proxy.id peer.id [] else skip

  unfoldable pub add_connection : PeerConnection → Step
  add_connection peer =
      set_sock (λ sock. record sock { peers = sock.peers ++ peer ∷ [] })
      >> with_state (λ s. for_each s.sock.controllers (tell_controller connect peer))
      >> with_state (λ s. for_each s.sock.proxies (tell_proxy connect peer))
      >> go (peer_write peer)
      >> go (peer_read peer)

  -- The first peer with the same id leaves, and the control connection of that id with it.
  unfoldable pub remove_connection : PeerConnection → Step
  unfolding close_control
  remove_connection peer =
      set_sock (λ sock. record sock { peers = drop_first (λ c. c.id == peer.id) sock.peers })
      >> with_state (λ s. close_control (find_first (λ c. c.id == peer.id) s.sock.controllers))
      >> with_state (λ s. for_each s.sock.controllers (tell_controller disconnect peer))
      >> with_state (λ s. for_each s.sock.proxies (tell_proxy disconnect peer))
      >> close peer.ws

  -- A text with a URL that was not notified yet is noted in both lists and shown.
  unfoldable pub notify : PeerConnection → Text → Step
  unfolding unless_first_controller
  notify peer text = with_state λ s.
      if contains text http_scheme && not (text_elem text s.peer_notified_list)
      then remember text
        >> unless_first_controller peer s.sock.controllers (show_notification env agent_url text)
      else skip

  -- One message of the read loop.
  unfoldable pub handle : PeerConnection → Text → Step
  handle peer text =
      notify peer text
      >> broadcast (record { source = peer.id; target = 0; payload = text; from_proxy = false })

  unfoldable pub read_loop : PeerConnection → List ReadEvent → Step
  read_loop peer [] s = ok s
  read_loop peer (ev ∷ evs) s = elim (received ev) [
    | none ↦ remove_connection peer s
    | some text ↦ handle peer text s >>= λ s'. read_loop peer evs s'
  ]

  unfoldable pub read_connection_pump : PeerConnection → List ReadEvent → Step
  read_connection_pump peer evs = start_reading peer.ws >> read_loop peer evs

-- One tick of the ticker. The loop has no exit.
unfoldable pub write_connection_pump : PeerConnection → Step
write_connection_pump peer = ping peer.ws
