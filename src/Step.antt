-- ===== src/Step.antt =====
-- Statements of the program as functions on its state. A nil dereference and an index out of range
-- are panics, and log.Fatal exits. In a pump or in the browser nothing recovers a panic, and it ends
-- the process; net/http recovers one in a request handler, after which the model says nothing.
pub mod Emits
pub mod Writes
pub mod Inversion
use discovery_self.Base.{
  ℕ, List, [], ◌∷◌, ◌++◌, Option, none, some, Text, ◌≡◌, refl, ◌≢◌, append_assoc, append-nil, All,
  flat_map,
}
use discovery_self.Env.{Env, WireMessage}
use discovery_self.Model.{NamedWebSocket, State, Effect, wrote, closed, pinged, Pump}

pub data Fault : Type 0 where
  nil_dereference index_out_of_range log_fatal : Fault

pub data Result {ℓ} (A : Type ℓ) : Type ℓ where
  ok : A → Result A
  crash : Fault → Result A

abbrev pub Step : Type 0
Step = State → Result State

infixl 5 ◌>>=◌ ◌>>◌
abbrev pub ◌>>=◌ {ℓ κ} : {A : Type ℓ} {B : Type κ} → Result A → (A → Result B) → Result B
ok a >>= f = f a
crash e >>= f = crash e

-- One statement after another.
abbrev pub ◌>>◌ : Step → Step → Step
◌>>◌ m n s = m s >>= n

abbrev pub skip : Step
skip s = ok s

-- A statement that reads the state.
abbrev pub with_state : (State → Step) → Step
with_state f s = f s s

abbrev pub set_sock : (NamedWebSocket → NamedWebSocket) → Step
set_sock f s = ok (record s { sock = f s.sock })

-- `go f(sock)`.
abbrev pub go : Pump → Step
go p s = ok (record s { running = s.running ++ p ∷ [] })

-- `for _, x := range xs { body }`; the slice is read once, before the first round.
unfoldable pub for_each {ℓ} : {A : Type ℓ} → List A → (A → Step) → Step
for_each [] body s = ok s
for_each (x ∷ xs) body s = body x s >>= λ s'. for_each xs body s'

abbrev pub emit : List Effect → State → State
emit es s = record s { out = s.out ++ es }

-- SetWriteDeadline and WriteMessage on a connection; errors of the write are dropped.
unfoldable pub write : Option ℕ → Text → Step
write none text s = crash nil_dereference
write (some c) text s = ok (emit (wrote c text ∷ []) s)

unfoldable pub ping : Option ℕ → Step
ping none s = crash nil_dereference
ping (some c) s = ok (emit (pinged c ∷ []) s)

unfoldable pub close : Option ℕ → Step
close none s = crash nil_dereference
close (some c) s = ok (emit (closed c ∷ []) s)

write_all : Option ℕ → Option Text → Step
write_all ws none s = ok s
write_all ws (some text) s = write ws text s

-- `send` of control.go and proxy.go: nothing is written if json.Marshal fails.
unfoldable pub send_wire : Env → Option ℕ → WireMessage → Step
unfolding write_all write
send_wire env ws m s = write_all ws (env.marshal m) s
