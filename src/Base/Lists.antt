-- ===== src/Base/Lists.antt =====
-- Lists measured by native numbers, predicates over their elements, and Boolean membership.
use Prim.Native.Nat.{ℕ, suc, ◌+◌}
use mathlib.Core.Path.{◌≡◌, refl, ap, subst}
use mathlib.Core.Logic.{◌≢◌, inl, inr}
use mathlib.Core.Bool.{Bool, true, false, ◌||◌}
use mathlib.Core.List.{List, [], ◌∷◌, ◌++◌}
use mathlib.Core.Option.{Option, none, some}
use native.Mathlib.Omega.{arith}
use discovery_self.Base.Tests.{if◌then◌else◌, ◌==◌, Bool-cases}

module _ {ℓ} {A : Type ℓ} where
  abbrev pub length : List A → ℕ
  length [] = 0
  length (x ∷ xs) = suc (length xs)

  pub length-append : (xs ys : List A) → length (xs ++ ys) ≡ length xs + length ys
  length-append [] ys = omega arith
  length-append (x ∷ xs) ys = omega (arith, length-append xs ys)

  abbrev pub All {κ} : (A → Type κ) → List A → Type κ
  All P [] = Unit
  All P (x ∷ xs) = P x × All P xs

  pub All-append {κ} : (P : A → Type κ) (xs ys : List A) → All P xs → All P ys → All P (xs ++ ys)
  All-append P [] ys hx hy = hy
  All-append P (x ∷ xs) ys hx hy = (hx.0, All-append P xs ys hx.1 hy)

  -- The elements that pass a Boolean test, in order.
  abbrev pub keep : (A → Bool) → List A → List A
  keep p [] = []
  keep p (x ∷ xs) = if p x then x ∷ keep p xs else keep p xs

  -- The first element that passes.
  abbrev pub find_first : (A → Bool) → List A → Option A
  find_first p [] = none
  find_first p (x ∷ xs) = if p x then some x else find_first p xs

  -- `append(xs[:i], xs[i+1:]...)` at the first `i` that passes, and `xs` where none does.
  abbrev pub drop_first : (A → Bool) → List A → List A
  drop_first p [] = []
  drop_first p (x ∷ xs) = if p x then xs else x ∷ drop_first p xs

-- Membership of a number in a list of numbers.
abbrev pub elem : ℕ → List ℕ → Bool
elem a [] = false
elem a (x ∷ xs) = x == a || elem a xs

abbrev pub flat_map {ℓ κ} : {A : Type ℓ} {B : Type κ} → (A → List B) → List A → List B
flat_map f [] = []
flat_map f (x ∷ xs) = f x ++ flat_map f xs

module _ {ℓ} {A : Type ℓ} where
  some_inj : {a b : A} → some a ≡ some b → a ≡ b
  some_inj e = cc

  if-some-ne-none : (b : Bool) (x : A) (o : Option A) → b ≡ true → (if b then some x else o) ≢ none
  if-some-ne-none true x o h e = cc
  if-some-ne-none false x o h e = cc

  if-some-none : (b : Bool) (x : A) (o : Option A) → (if b then some x else o) ≡ none → o ≡ none
  if-some-none true x o e = cc
  if-some-none false x o e = e

  if-some-hit :
      (b : Bool) (x : A) (o : Option A) {a : A}
      → b ≡ true
      → (if b then some x else o) ≡ some a
      → x ≡ a
  if-some-hit true x o h e = some_inj e
  if-some-hit false x o h e = cc

  if-some-some :
      (b : Bool) (x : A) (o : Option A) {a : A}
      → b ≡ false
      → (if b then some x else o) ≡ some a
      → o ≡ some a
  if-some-some true x o h e = cc
  if-some-some false x o h e = e

  pub drop_first-none : (p : A → Bool) (xs : List A) → find_first p xs ≡ none → drop_first p xs ≡ xs
  drop_first-none p [] e = refl
  drop_first-none p (x ∷ xs) e = elim (Bool-cases (p x)) [
    | inl hit ↦ absurd (if-some-ne-none (p x) x _ hit e)
    | inr miss ↦ rw miss (ap (λ l. x ∷ l) (drop_first-none p xs (if-some-none (p x) x _ e)))
  ]

  -- What the first element that passes is like.
  pub find_first-some : (p : A → Bool) (xs : List A) {a : A} → find_first p xs ≡ some a → p a ≡ true
  find_first-some p [] e = cc
  find_first-some p (x ∷ xs) {a} e = elim (Bool-cases (p x)) [
    | inl hit ↦ subst (λ y. p y ≡ true) (if-some-hit (p x) x _ hit e) hit
    | inr miss ↦ find_first-some p xs (if-some-some (p x) x _ miss e)
  ]

  -- A predicate of all elements holds of the one that is found, and of those that are left.
  pub All-find_first {κ} :
      (P : A → Type κ) (p : A → Bool) (xs : List A) {a : A}
      → All P xs
      → find_first p xs ≡ some a
      → P a
  All-find_first P p [] h e = cc
  All-find_first P p (x ∷ xs) {a} h e = pick (p x) h.0 (All-find_first P p xs h.1) e
    where
      pick :
          (b : Bool)
          → P x
          → (find_first p xs ≡ some a → P a)
          → (if b then some x else find_first p xs) ≡ some a
          → P a
      pick true hx ih e' = subst P (some_inj e') hx
      pick false hx ih e' = ih e'

  pub All-drop_first {κ} :
      (P : A → Type κ) (p : A → Bool) (xs : List A) → All P xs → All P (drop_first p xs)
  All-drop_first P p [] h = h
  All-drop_first P p (x ∷ xs) h = pick (p x) h (All-drop_first P p xs h.1)
    where
      pick :
          (b : Bool)
          → P x × All P xs
          → All P (drop_first p xs)
          → All P (if b then xs else x ∷ drop_first p xs)
      pick true hx ih = hx.1
      pick false hx ih = (hx.0, ih)

  -- An element that alone passes, put behind a list, is what a removal takes away.
  pub drop_first-last :
      (p : A → Bool) (xs : List A) (x : A)
      → p x ≡ true
      → find_first p xs ≡ none
      → drop_first p (xs ++ x ∷ []) ≡ xs
  drop_first-last p [] x h e = rw h
  drop_first-last p (y ∷ ys) x h e = elim (Bool-cases (p y)) [
    | inl hit ↦ absurd (if-some-ne-none (p y) y _ hit e)
    | inr miss ↦ rw miss (ap (λ l. y ∷ l) (drop_first-last p ys x h (if-some-none (p y) y _ e)))
  ]

  pub nil_of_length : (xs : List A) → length xs ≡ 0 → xs ≡ []
  nil_of_length [] e = refl
  nil_of_length (x ∷ xs) e = absurd (omega arith)
