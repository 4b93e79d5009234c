-- ===== src/Step/Emits.antt =====
-- Statements that only write, and the loops over them, on connections that are not nil.
use discovery_self.Base.{
  ℕ, List, [], ◌∷◌, ◌++◌, Option, none, some, Text, ◌≡◌, refl, ap, ◌∙◌, append_assoc, append-nil,
  All, flat_map, sym,
}
use discovery_self.Env.{Env, WireMessage}
use discovery_self.Model.{State, Effect, wrote, closed}
use discovery_self.Step.{ok, Step, for_each, emit, write, close, send_wire, write_all}

-- A connection that is not nil.
abbrev pub IsLive : Option ℕ → Type 0
IsLive none = ⊥
IsLive (some c) = Unit

abbrev pub sent : Option ℕ → Text → List Effect
sent none text = []
sent (some c) text = wrote c text ∷ []

abbrev pub sent_text : Option ℕ → Option Text → List Effect
sent_text ws none = []
sent_text ws (some text) = sent ws text

-- What `send` writes for a wire message.
abbrev pub sent_wire : Env → Option ℕ → WireMessage → List Effect
sent_wire env ws m = sent_text ws (env.marshal m)

abbrev pub closing : Option ℕ → List Effect
closing none = []
closing (some c) = closed c ∷ []

pub emit-nil : (s : State) → emit [] s ≡ s
emit-nil s = ap (λ o. record s { out = o }) (append-nil s.out)

pub emit-emit : (es bs : List Effect) (s : State) → emit bs (emit es s) ≡ emit (es ++ bs) s
emit-emit es bs s = ap (λ o. record s { out = o }) (append_assoc s.out es bs)

pub write-live :
    (ws : Option ℕ) (text : Text) (s : State)
    → IsLive ws
    → write ws text s ≡ ok (emit (sent ws text) s)
unfolding write
write-live none text s h = absurd h
write-live (some c) text s h = refl

pub close-live : (ws : Option ℕ) (s : State) → IsLive ws → close ws s ≡ ok (emit (closing ws) s)
unfolding close
close-live none s h = absurd h
close-live (some c) s h = refl

write_all-live :
    (ws : Option ℕ) (t : Option Text) (s : State)
    → IsLive ws
    → write_all ws t s ≡ ok (emit (sent_text ws t) s)
unfolding write_all
write_all-live ws none s h = ap ok (sym (emit-nil s))
write_all-live ws (some text) s h = write-live ws text s h

pub send_wire-live :
    (env : Env) (ws : Option ℕ) (m : WireMessage) (s : State)
    → IsLive ws
    → send_wire env ws m s ≡ ok (emit (sent_wire env ws m) s)
unfolding send_wire
send_wire-live env ws m s h = write_all-live ws (env.marshal m) s h

-- `body` writes `f x` in the round of `x`, whatever the state.
abbrev pub Writes {ℓ} : {A : Type ℓ} → (A → Step) → (A → List Effect) → A → Type 0
Writes body f x = (s : State) → body x s ≡ ok (emit (f x) s)

pub for_each-emits {ℓ} :
    {A : Type ℓ} (body : A → Step) (f : A → List Effect) (xs : List A) (s : State)
    → All (Writes body f) xs
    → for_each xs body s ≡ ok (emit (flat_map f xs) s)
unfolding for_each
for_each-emits body f [] s h = ap ok (sym (emit-nil s))
for_each-emits body f (x ∷ xs) s h =
    rw (h.0 s)
      (for_each-emits body f xs (emit (f x) s) h.1 ∙ ap ok (emit-emit (f x) (flat_map f xs) s))

pub All-map {ℓ κ λ'} :
    {A : Type ℓ} {P : A → Type κ} {Q : A → Type λ'}
    → ((x : A) → P x → Q x)
    → (xs : List A) → All P xs
    → All Q xs
All-map f [] h = tt
All-map f (x ∷ xs) h = (f x h.0, All-map f xs h.1)
