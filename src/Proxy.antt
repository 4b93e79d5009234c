-- ===== src/Proxy.antt =====
-- proxy.go: the connections between the proxies of two machines.
pub mod Ownership
pub mod Frames
pub mod Notify
pub mod Membership
use discovery_self.Base.{
  ℕ, suc, ◌+◌, List, [], ◌∷◌, ◌++◌, Option, none, some, Text, codes, contains, text_elem, text_eq,
  Bool, true, false, ◌&&◌, not, if◌then◌else◌, ◌==◌, find_first, drop_first, elem, keep,
}
use discovery_self.Env.{Env, WireMessage, connect, disconnect, message, directmessage}
use discovery_self.Model.{
  NamedWebSocket, State, PeerConnection, ControlConnection, ProxyConnection, Message, proxy_read,
  proxy_write,
}
use discovery_self.Step.{
  Result, ok, Step, ◌>>=◌, ◌>>◌, skip, with_state, set_sock, go, for_each, close, ping,
}
use discovery_self.Sends.{
  ReadEvent, received, start_reading, control_send, proxy_send, show_notification,
}
use discovery_self.Peer.{http_scheme, remember, broadcast}

-- A write into a map that holds `true` at its keys, and `delete`.
unfoldable pub insert_key : ℕ → List ℕ → List ℕ
insert_key k ks = if elem k ks then ks else ks ++ k ∷ []

unfoldable pub delete_key : ℕ → List ℕ → List ℕ
delete_key k = keep (λ j. not (j == k))

abbrev pub update : (ℕ → List ℕ) → ℕ → List ℕ → ℕ → List ℕ
update maps r ks q = if r == q then ks else maps q

-- `make(map[int]bool)` is a new map.
unfoldable pub new_proxy_connection : ℕ → Option ℕ → Bool → State → ProxyConnection × State
new_proxy_connection id ws writeable s = (
  record {
    peer_connection = record { id = id; ws = ws };
    peers = s.next_map;
    writeable = writeable;
  },
  record s { maps = update s.maps s.next_map []; next_map = s.next_map + 1 },
)

abbrev pub change_map : ℕ → (List ℕ → List ℕ) → Step
change_map r f s = ok (record s { maps = update s.maps r (f (s.maps r)) })

abbrev pub agent_url : Text
agent_url = codes "http://localhost:8182/discoveragent/notification?url="

module _ (env : Env) where
  -- "connect" or "disconnect" of one of our peers, to the machine behind a writeable proxy.
  unfoldable pub tell_of_peer : Text → ProxyConnection → PeerConnection → Step
  tell_of_peer action proxy peer = proxy_send env proxy action proxy.id peer.id []

  unfoldable pub add_connection : ProxyConnection → Step
  add_connection proxy =
      set_sock (λ sock. record sock { proxies = sock.proxies ++ proxy ∷ [] })
      >> with_state (λ s.
        if proxy.writeable then for_each s.sock.peers (tell_of_peer connect proxy) else skip)
      >> go (proxy_write proxy)
      >> go (proxy_read proxy)

  unfoldable pub remove_connection : ProxyConnection → Step
  remove_connection proxy =
      set_sock (λ sock. record sock { proxies = drop_first (λ c. c.id == proxy.id) sock.proxies })
      >> with_state (λ s.
        if proxy.writeable then for_each s.sock.peers (tell_of_peer disconnect proxy) else skip)
      >> close proxy.ws

  unfoldable pub tell_controller : Text → ℕ → ControlConnection → Step
  tell_controller action target control = control_send env control action control.id target []

  unfoldable pub notify : Text → Step
  notify text = with_state λ s.
      if contains text http_scheme && not (text_elem text s.proxy_notified_list)
      then remember text >> show_notification env agent_url text
      else skip

  to_controller : WireMessage → Option ControlConnection → Step
  to_controller m none = skip
  to_controller m (some c) = control_send env c message m.source m.target m.payload

  -- A direct message, for the controller of its target.
  unfoldable pub relay : WireMessage → Step
  unfolding to_controller
  relay m = with_state λ s. to_controller m (find_first (λ c. c.id == m.target) s.sock.controllers)

  unfoldable pub handle_message : ProxyConnection → WireMessage → Step
  handle_message proxy m =
      if text_eq m.action connect
      then change_map proxy.peers (insert_key m.target)
        >> with_state (λ s. for_each s.sock.controllers (tell_controller connect m.target))
      else if text_eq m.action disconnect
      then change_map proxy.peers (delete_key m.target)
        >> with_state (λ s. for_each s.sock.controllers (tell_controller disconnect m.target))
      else if text_eq m.action message
      then notify m.payload
        >> broadcast
            (record { source = m.source; target = 0; payload = m.payload; from_proxy = true })
      else if text_eq m.action directmessage
      then relay m
      else skip

  unfoldable pub handle_wire : ProxyConnection → Option WireMessage → Step
  handle_wire proxy none = skip
  handle_wire proxy (some m) = handle_message proxy m

  -- One message of the read loop; a text that is no wire message is passed over.
  unfoldable pub handle : ProxyConnection → Text → Step
  unfolding handle_wire
  handle proxy text = handle_wire proxy (env.unmarshal text)

  unfoldable pub read_loop : ProxyConnection → List ReadEvent → Step
  read_loop proxy [] s = ok s
  read_loop proxy (ev ∷ evs) s = elim (received ev) [
    | none ↦ remove_connection proxy s
    | some text ↦ handle proxy text s >>= λ s'. read_loop proxy evs s'
  ]

  unfoldable pub read_connection_pump : ProxyConnection → List ReadEvent → Step
  read_connection_pump proxy evs = start_reading proxy.ws >> read_loop proxy evs

-- One tick of the ticker. The loop has no exit.
unfoldable pub write_connection_pump : ProxyConnection → Step
write_connection_pump proxy = ping proxy.ws
