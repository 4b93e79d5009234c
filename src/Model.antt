-- ===== src/Model.antt =====
-- The data of one Named WebSocket and of the process around it: the connection types of peer.go,
-- control.go and proxy.go, NamedWebSocket of socket.go, the two package-level lists of texts that
-- were already notified, the maps of the proxy connections, and the goroutines that run.
use discovery_self.Base.{ℕ, List, Option, Text, Bool}
use discovery_self.Chan.{Chan}

-- `ws` is the pointer to the connection of gorilla/websocket; `none` is nil.
pub record PeerConnection : Type 0 where
  pub id : ℕ
  pub ws : Option ℕ

pub record ControlConnection : Type 0 where
  pub peer_connection : PeerConnection
  pub open peer_connection use *

-- `peers` is a Go map, so a reference: its contents are in `State.maps`.
pub record ProxyConnection : Type 0 where
  pub peer_connection : PeerConnection
  pub open peer_connection use *
  pub peers : ℕ
  pub writeable : Bool

pub record Message : Type 0 where
  pub source : ℕ
  pub target : ℕ
  pub payload : Text
  pub from_proxy : Bool

pub record DiscoveryClient : Type 0 where
  pub service_type : Text
  pub port : ℕ
  -- the DNS-SD instance name under which the mDNS server answers
  pub instance_name : Text

pub record NamedWebSocket : Type 0 where
  pub service_name : Text
  pub controllers : List ControlConnection
  pub peers : List PeerConnection
  pub proxies : List ProxyConnection
  pub broadcast_buffer : Chan Message
  pub discovery_client : Option DiscoveryClient

-- The goroutines that a connection starts.
pub data Pump : Type 0 where
  peer_read peer_write : PeerConnection → Pump
  control_read control_write : ControlConnection → Pump
  proxy_read proxy_write : ProxyConnection → Pump

-- What leaves the process.
pub data Effect : Type 0 where
  wrote : ℕ → Text → Effect
  pinged : ℕ → Effect
  closed : ℕ → Effect
  -- notify.Push(title, text, icon) and http.Get(url)
  pushed : Text → Text → Text → Effect
  fetched : Text → Effect
  -- http.Error
  replied : ℕ → Effect

-- What the handlers read of an *http.Request: the header fields are "" where they are missing.
pub record Request : Type 0 where
  pub method : Text
  pub path : Text
  pub host : Text
  pub upgrade : Text
  pub proxy_header : Text
  pub protocols : Text

pub record State : Type 0 where
  pub sock : NamedWebSocket
  -- the maps `peers` of the proxy connections: their keys, all of which hold `true`
  pub maps : ℕ → List ℕ
  pub next_map : ℕ
  pub peer_notified_list : List Text
  pub proxy_notified_list : List Text
  pub running : List Pump
  pub out : List Effect
