-- ===== src/Step/Writes.antt =====
-- The texts that a list of effects writes to one connection.
use discovery_self.Base.{
  ℕ, List, [], ◌∷◌, ◌++◌, Option, none, some, Text, ◌≡◌, ◌≢◌, refl, ap, ◌∙◌, All, flat_map, Bool,
  true, false, if◌then◌else◌, ◌==◌, ==_iff, ==_refl, Bool-cases, inl, inr, sym, append_assoc,
}
use discovery_self.Env.{Env, WireMessage}
use discovery_self.Model.{Effect, wrote, pinged, closed, pushed, fetched, replied}
use discovery_self.Step.Emits.{sent, sent_wire, sent_text, closing}

abbrev keep_text : Bool → Text → List Text → List Text
keep_text hit t ts = if hit then t ∷ ts else ts

-- The texts that are written to connection `c`.
abbrev pub writes_to : ℕ → List Effect → List Text
writes_to c [] = []
writes_to c (wrote d t ∷ es) = keep_text (d == c) t (writes_to c es)
writes_to c (pinged d ∷ es) = writes_to c es
writes_to c (closed d ∷ es) = writes_to c es
writes_to c (pushed t b i ∷ es) = writes_to c es
writes_to c (fetched u ∷ es) = writes_to c es
writes_to c (replied n ∷ es) = writes_to c es

pub writes_to-append :
    (c : ℕ) (es fs : List Effect) → writes_to c (es ++ fs) ≡ writes_to c es ++ writes_to c fs
writes_to-append c [] fs = refl
writes_to-append c (wrote d t ∷ es) fs = keep-append (d == c) (writes_to-append c es fs)
  where
    keep-append :
        (b : Bool)
        → writes_to c (es ++ fs) ≡ writes_to c es ++ writes_to c fs
        → keep_text b t (writes_to c (es ++ fs)) ≡ keep_text b t (writes_to c es) ++ writes_to c fs
    keep-append true ih = ap (λ l. t ∷ l) ih
    keep-append false ih = ih
writes_to-append c (pinged d ∷ es) fs = writes_to-append c es fs
writes_to-append c (closed d ∷ es) fs = writes_to-append c es fs
writes_to-append c (pushed t b i ∷ es) fs = writes_to-append c es fs
writes_to-append c (fetched u ∷ es) fs = writes_to-append c es fs
writes_to-append c (replied n ∷ es) fs = writes_to-append c es fs

-- Another connection than `c`.
abbrev pub IsOther : ℕ → Option ℕ → Type 0
IsOther c ws = ws ≢ some c

pub writes_to-sent_other :
    (c : ℕ) (ws : Option ℕ) (t : Text) → IsOther c ws → writes_to c (sent ws t) ≡ []
writes_to-sent_other c none t h = refl
writes_to-sent_other c (some d) t h = elim (Bool-cases (d == c)) [
  | inl hit ↦ absurd (h (ap some ((==_iff d c).0 hit)))
  | inr miss ↦ rw miss refl
]

pub writes_to-sent_self : (c : ℕ) (t : Text) → writes_to c (sent (some c) t) ≡ t ∷ []
writes_to-sent_self c t = rw (==_refl c) refl

pub writes_to-flat_map {ℓ} :
    {A : Type ℓ} (c : ℕ) (f : A → List Effect) (xs : List A)
    → All (λ x. writes_to c (f x) ≡ []) xs
    → writes_to c (flat_map f xs) ≡ []
writes_to-flat_map c f [] h = refl
writes_to-flat_map c f (x ∷ xs) h =
    rw (writes_to-append c (f x) (flat_map f xs), h.0) (writes_to-flat_map c f xs h.1)

pub flat_map-append {ℓ κ} :
    {A : Type ℓ} {B : Type κ} (f : A → List B) (xs ys : List A)
    → flat_map f (xs ++ ys) ≡ flat_map f xs ++ flat_map f ys
flat_map-append f [] ys = refl
flat_map-append f (x ∷ xs) ys =
    ap (λ l. f x ++ l) (flat_map-append f xs ys)
    ∙ sym (append_assoc (f x) (flat_map f xs) (flat_map f ys))

-- A wire message to another connection, and what closes, is no text on this one.
pub writes_to-wire_other :
    (env : Env) (c : ℕ) (w : WireMessage) (ws : Option ℕ)
    → IsOther c ws
    → writes_to c (sent_wire env ws w) ≡ []
writes_to-wire_other env c w ws o = go (env.marshal w)
  where
    go : (t : Option Text) → writes_to c (sent_text ws t) ≡ []
    go none = refl
    go (some t) = writes_to-sent_other c ws t o

pub writes_to-closing : (c : ℕ) (ws : Option ℕ) → writes_to c (closing ws) ≡ []
writes_to-closing c none = refl
writes_to-closing c (some d) = refl

pub writes_to-if :
    (c : ℕ) (b : Bool) (es fs : List Effect)
    → writes_to c es ≡ []
    → writes_to c fs ≡ []
    → writes_to c (if b then es else fs) ≡ []
writes_to-if c true es fs h k = h
writes_to-if c false es fs h k = k
