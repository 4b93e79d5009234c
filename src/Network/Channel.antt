-- ===== src/Network/Channel.antt =====
-- Two machines whose goroutines run on their own, and the frames that are in flight from one to the
-- other (peer.go, control.go, proxy.go and socket.go on both sides).
pub mod Near
pub mod Others
pub mod Far
pub mod Delivery
pub mod Linked
use discovery_self.Base.{ℕ, List, [], ◌∷◌, ◌++◌, none, Text, ◌≡◌, ◌≢◌, find_first, drop_first, ◌==◌}
use discovery_self.Env.{Env}
use discovery_self.Model.{State, PeerConnection, ProxyConnection, Effect, proxy_read}
use discovery_self.Sends.{IsFit}
use discovery_self.Step.{ok}
use discovery_self.Step.Writes.{writes_to, IsOther}
use discovery_self.Proxy
use discovery_self.System.{
  Occurs, Next, peer_joins, control_joins, proxy_joins, peer_reads, control_reads, proxy_reads,
  peer_ends, control_ends, proxy_ends, peer_pings, control_pings, proxy_pings, dispatches,
}

-- A step of the machine on which `near` is the proxy connection over `c`: who joins has another
-- connection, `near` itself is not torn down, and a peer that leaves shares its id with no other.
abbrev pub IsNear :
    (env : Env) (near : ProxyConnection) (c : ℕ) (s t : State) → Next env s t → Type 0
IsNear env near c s t (peer_joins p h e) = IsOther c p.ws
IsNear env near c s t (control_joins x h e) = IsOther c x.ws
IsNear env near c s t (proxy_joins id ws b h e) = IsOther c ws
IsNear env near c s t (peer_reads p text r e) = Unit
IsNear env near c s t (control_reads x text r e) = Unit
IsNear env near c s t (proxy_reads p text r e) = Unit
IsNear env near c s t (peer_ends p xs ys r e) =
    find_first (λ (q : PeerConnection). q.id == p.id)
      (drop_first (λ (q : PeerConnection). q.id == p.id) s.sock.peers)
    ≡ none
IsNear env near c s t (control_ends x xs ys r e) = Unit
IsNear env near c s t (proxy_ends p xs ys r e) = (near.id ≢ p.id) × IsOther c p.ws
IsNear env near c s t (peer_pings p r e) = Unit
IsNear env near c s t (control_pings x r e) = Unit
IsNear env near c s t (proxy_pings p r e) = Unit
IsNear env near c s t (dispatches e) = Unit

-- A step of the other machine that reads no frame into the map of `far` and does not end the pump that
-- reads from `far`.
abbrev pub IsElsewhere : (env : Env) (far : ProxyConnection) (s t : State) → Next env s t → Type 0
IsElsewhere env far s t (peer_joins p h e) = Unit
IsElsewhere env far s t (control_joins x h e) = Unit
IsElsewhere env far s t (proxy_joins id ws b h e) = Unit
IsElsewhere env far s t (peer_reads p text r e) = Unit
IsElsewhere env far s t (control_reads x text r e) = Unit
IsElsewhere env far s t (proxy_reads p text r e) = p.peers ≢ far.peers
IsElsewhere env far s t (peer_ends p xs ys r e) = Unit
IsElsewhere env far s t (control_ends x xs ys r e) = Unit
IsElsewhere env far s t (proxy_ends p xs ys r e) = proxy_read p ≢ proxy_read far
IsElsewhere env far s t (peer_pings p r e) = Unit
IsElsewhere env far s t (control_pings x r e) = Unit
IsElsewhere env far s t (proxy_pings p r e) = Unit
IsElsewhere env far s t (dispatches e) = Unit

-- Both machines, and the frames that one wrote and the other has not read.
pub record Machines : Type 0 where
  pub one : State
  pub flight : List Text
  pub other : State

pub data Move (env : Env) (near far : ProxyConnection) (c : ℕ) (w : Machines)
    : Machines → Type 0 where
  steps :
      {t : State} (es : List Effect) (st : Next env w.one t)
      → IsNear env near c w.one t st
      → t.out ≡ w.one.out ++ es
      → Move env near far c w (record w { one = t; flight = w.flight ++ writes_to c es })
  -- the pump that reads from `far` runs, and reads a frame within its read limit
  arrives :
      {v : State} (frame : Text) (rest : List Text)
      → IsFit frame
      → Occurs (proxy_read far) w.other.running
      → w.flight ≡ frame ∷ rest
      → Proxy.handle env far frame w.other ≡ ok v
      → Move env near far c w (record w { flight = rest; other = v })
  elsewhere :
      {v : State} (st : Next env w.other v)
      → IsElsewhere env far w.other v st
      → Move env near far c w (record w { other = v })

pub data Moves (env : Env) (near far : ProxyConnection) (c : ℕ) (w : Machines)
    : Machines → Type 0 where
  still : Moves env near far c w w
  more :
      {x y : Machines}
      → Moves env near far c w x
      → Move env near far c x y
      → Moves env near far c w y
