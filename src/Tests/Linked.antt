-- ===== src/Tests/Linked.antt =====
-- A link that has just been accepted, at concrete connections.
use discovery_self.Base.{[], ◌∷◌}
use discovery_self.Env.{connect}
use discovery_self.Model.{State, proxy_read}
use discovery_self.Live.{wire}
use discovery_self.Proxy
use discovery_self.Proxy.Ownership.{owned}
use discovery_self.Network.Channel.{Machines}
use discovery_self.Tests.{state_of, peer, controller, proxy}
use discovery_self.Tests.Codec.{env, marshal}

-- Two peers here, and a machine that dials in.
abbrev here : State
here = state_of (controller 1 10 ∷ []) (peer 1 11 ∷ peer 4 14 ∷ []) [] [] []

abbrev there : State
there = record (state_of (controller 2 20 ∷ []) (peer 2 21 ∷ []) (proxy 9 40 ∷ []) [] []) {
  running = proxy_read (proxy 9 40) ∷ [];
}

abbrev accepted : State
accepted = Proxy.Membership.joined env (proxy 9 30) here

abbrev greeted : State
greeted = owned env connect 1 (proxy 9 40) (Proxy.insert_key 1) there

-- The first frame of the greeting is read, and the second is in flight.
abbrev later : Machines
later = record { one = accepted; flight = marshal (wire connect 9 4 []) ∷ []; other = greeted }
