-- ===== src/System.antt =====
-- The goroutines of one Named WebSocket, interleaved: each step is one statement block of a handler,
-- of a read or write pump, or of the dispatcher. The source uses no lock; the steps are taken to be
-- atomic. A pump that is parked on the broadcast channel may read on here. A connection that joins is
-- one whose upgrade or dial succeeded: that a nil one joins after a failed upgrade (Socket/Upgrade)
-- is no step of the relation. The loop of a write pump has no exit in the source, so no step ends
-- one.
pub mod Distinct
pub mod Invariant
pub mod Comings
pub mod Reads
pub mod Stays
pub mod Reachable
pub mod Running
use discovery_self.Base.{ℕ, List, [], ◌∷◌, ◌++◌, Option, none, some, Text, ◌≡◌, Bool, ◌⊎◌, All}
use discovery_self.Env.{Env}
use discovery_self.Model.{
  State, NamedWebSocket, PeerConnection, ControlConnection, ProxyConnection, Pump, peer_read,
  peer_write, control_read, control_write, proxy_read, proxy_write,
}
use discovery_self.Step.{ok}
use discovery_self.Step.Emits.{IsLive}
use discovery_self.Peer
use discovery_self.Control
use discovery_self.Proxy
use discovery_self.Socket

abbrev pub Occurs : Pump → List Pump → Type 0
Occurs p [] = ⊥
Occurs p (q ∷ ps) = (q ≡ p) ⊎ Occurs p ps

-- A new socket in a process that has notified nothing yet.
unfoldable pub start : Text → State
unfolding Socket.new_named_web_socket
start service_name = record {
  sock = Socket.new_named_web_socket service_name;
  maps = λ _. [];
  next_map = 0;
  peer_notified_list = [];
  proxy_notified_list = [];
  running = [];
  out = [];
}

-- serveService and Browse: a new proxy connection that joins.
unfoldable pub join_proxy : Env → ℕ → Option ℕ → Bool → State → discovery_self.Step.Result State
unfolding Proxy.new_proxy_connection
join_proxy env id ws writeable s =
    let (p, s') = Proxy.new_proxy_connection id ws writeable s in Proxy.add_connection env p s'

pub data Next (env : Env) (s t : State) : Type 0 where
  peer_joins :
      (p : PeerConnection) → IsLive p.ws → Peer.add_connection env p s ≡ ok t → Next env s t
  control_joins :
      (c : ControlConnection) → IsLive c.ws → Control.add_connection env c s ≡ ok t → Next env s t
  proxy_joins :
      (id : ℕ) (ws : Option ℕ) (writeable : Bool)
      → IsLive ws
      → join_proxy env id ws writeable s ≡ ok t
      → Next env s t
  peer_reads :
      (p : PeerConnection) (text : Text)
      → Occurs (peer_read p) s.running
      → Peer.handle env p text s ≡ ok t
      → Next env s t
  control_reads :
      (c : ControlConnection) (text : Text)
      → Occurs (control_read c) s.running
      → Control.handle env c text s ≡ ok t
      → Next env s t
  proxy_reads :
      (p : ProxyConnection) (text : Text)
      → Occurs (proxy_read p) s.running
      → Proxy.handle env p text s ≡ ok t
      → Next env s t
  -- a read that fails ends the read pump, whose deferred call tears the connection down
  peer_ends :
      (p : PeerConnection) (xs ys : List Pump)
      → s.running ≡ xs ++ peer_read p ∷ ys
      → Peer.remove_connection env p (record s { running = xs ++ ys }) ≡ ok t
      → Next env s t
  control_ends :
      (c : ControlConnection) (xs ys : List Pump)
      → s.running ≡ xs ++ control_read c ∷ ys
      → Control.remove_connection c (record s { running = xs ++ ys }) ≡ ok t
      → Next env s t
  proxy_ends :
      (p : ProxyConnection) (xs ys : List Pump)
      → s.running ≡ xs ++ proxy_read p ∷ ys
      → Proxy.remove_connection env p (record s { running = xs ++ ys }) ≡ ok t
      → Next env s t
  peer_pings :
      (p : PeerConnection)
      → Occurs (peer_write p) s.running
      → Peer.write_connection_pump p s ≡ ok t
      → Next env s t
  control_pings :
      (c : ControlConnection)
      → Occurs (control_write c) s.running
      → Control.write_connection_pump c s ≡ ok t
      → Next env s t
  proxy_pings :
      (p : ProxyConnection)
      → Occurs (proxy_write p) s.running
      → Proxy.write_connection_pump p s ≡ ok t
      → Next env s t
  dispatches : Socket.dispatch env s ≡ ok t → Next env s t

pub data Reach (env : Env) (s : State) : State → Type 0 where
  here : Reach env s s
  next : {t u : State} → Reach env s t → Next env t u → Reach env s u
