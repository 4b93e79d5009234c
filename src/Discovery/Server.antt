-- ===== src/Discovery/Server.antt =====
-- The rounds of queries of a process (StartNewDiscoveryServer of service.go, and the DiscoveryServer of
-- discovery.go).
use discovery_self.Base.{ℕ, List, [], ◌∷◌, Text, Bool, true, if◌then◌else◌}
use discovery_self.Env.{Env}
use discovery_self.Step.{Result, ok, ◌>>=◌}
use discovery_self.Service.{World}
use discovery_self.Discovery.{Arrival, browse}

pub record DiscoveryServer : Type 0 where
  pub host : Text
  pub port : ℕ
  pub closed : Bool

unfoldable pub shut_down : DiscoveryServer → DiscoveryServer
shut_down server = record server { closed = true }

-- StartNewDiscoveryServer, one query after another, each with the entries that arrive.
unfoldable pub start_new_discovery_server :
    (env : Env) → DiscoveryServer → List (List Arrival) → World → Result World
start_new_discovery_server env server [] w = ok w
start_new_discovery_server env server (arrivals ∷ rounds) w =
    if server.closed
    then ok w
    else browse env arrivals w >>= start_new_discovery_server env server rounds
