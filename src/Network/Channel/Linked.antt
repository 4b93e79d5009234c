-- ===== src/Network/Channel/Linked.antt =====
-- A link from its first frame on: one machine accepts the connection of the other (addConnection of
-- proxy.go), and the goroutines of both run.
use discovery_self.Env.{Env}
use discovery_self.Proxy
