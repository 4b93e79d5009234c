-- ===== src/Process.antt =====
-- The process: its requests (serveWSCreator of service.go), its browser and its advertisements
-- (discovery.go), and the goroutines of its sockets, in any order.
pub mod Invariant
pub mod Sockets
pub mod Requests
pub mod Kept
pub mod Served
pub mod Started
use discovery_self.Base.{ℕ, ◌<◌, ◌≡◌, Bool}
use discovery_self.Env.{Env}
use discovery_self.Model.{State, Request}
use discovery_self.Step.{ok}
use discovery_self.Step.Emits.{IsLive}
use discovery_self.Socket
use discovery_self.Service.{World, serve_ws_creator, focus, unfocus}
use discovery_self.Discovery.{Dialer, ServiceEntry, browse_entry, advertise}
use discovery_self.System.{Next}

-- One turn of the process. The upgrades of its requests succeed.
pub data Turn (env : Env) (upgrade : Socket.Upgrader) (w x : World) : Type 0 where
  requests :
      (r : Request)
      → IsLive (Socket.connection_of env upgrade r)
      → serve_ws_creator env upgrade r w ≡ ok x
      → Turn env upgrade w x
  advertises :
      (published : Bool) (uid i port : ℕ)
      → advertise published uid i port w ≡ ok x
      → Turn env upgrade w x
  finds :
      (dial : Dialer) (id : ℕ) (e : ServiceEntry)
      → browse_entry env dial id e w ≡ ok x
      → Turn env upgrade w x
  runs :
      (i : ℕ) (t : State)
      → i < w.next_sock
      → Next env (focus i w) t
      → x ≡ unfocus i w t
      → Turn env upgrade w x

pub data Turns (env : Env) (upgrade : Socket.Upgrader) (w : World) : World → Type 0 where
  none_yet : Turns env upgrade w w
  then_ : {x y : World} → Turns env upgrade w x → Turn env upgrade x y → Turns env upgrade w y
