-- ===== src/Base/Split.antt =====
-- strings.Split and strings.Join at one byte, and texts that lack a byte.
use Prim.Native.Nat.{ℕ}
use mathlib.Core.Path.{◌≡◌, refl, ap, ◌∙◌, sym}
use mathlib.Core.Logic.{inl, inr}
use mathlib.Core.Bool.{Bool, true, false, ◌&&◌, not}
use mathlib.Core.List.{List, [], ◌∷◌, ◌++◌}
use native.Mathlib.Omega.{arith}
use discovery_self.Base.Tests.{if◌then◌else◌, ◌==◌, ==_iff, ==_refl, Bool-cases}
use discovery_self.Base.Strings.{Text}

abbrev cons_head : ℕ → List Text → List Text
cons_head x [] = (x ∷ []) ∷ []
cons_head x (p ∷ ps) = (x ∷ p) ∷ ps

unfoldable pub split : ℕ → Text → List Text
split c [] = [] ∷ []
split c (x ∷ xs) = let rest = split c xs in if x == c then [] ∷ rest else cons_head x rest

unfoldable pub join : ℕ → List Text → Text
join c [] = []
join c (p ∷ []) = p
join c (p ∷ q ∷ ps) = p ++ c ∷ join c (q ∷ ps)

-- No byte of the text is `c`.
unfoldable pub lacks : ℕ → Text → Bool
lacks c [] = true
lacks c (x ∷ xs) = not (x == c) && lacks c xs

pub split-lacks : (c : ℕ) (p : Text) → lacks c p ≡ true → split c p ≡ p ∷ []
unfolding split lacks
split-lacks c [] h = refl
split-lacks c (x ∷ xs) h = ground (arith, split-lacks c xs)

-- What stands before the first `c` is the first part.
pub split-append : (c : ℕ) (p s : Text) → lacks c p ≡ true → split c (p ++ c ∷ s) ≡ p ∷ split c s
unfolding split lacks
split-append c [] s h = rw (==_refl c) refl
split-append c (x ∷ xs) s h = ground (arith, split-append c xs s)

join-cons_head :
    (c x : ℕ) (p : Text) (ps : List Text) → join c (cons_head x (p ∷ ps)) ≡ x ∷ join c (p ∷ ps)
unfolding join
join-cons_head c x p [] = refl
join-cons_head c x p (q ∷ ps) = refl

join-one : (c : ℕ) (p : Text) → join c (p ∷ []) ≡ p
unfolding join
join-one c p = refl

join-nil : (c : ℕ) (p : Text) (ps : List Text) → join c ([] ∷ p ∷ ps) ≡ c ∷ join c (p ∷ ps)
unfolding join
join-nil c p ps = refl

-- A split has a part, and its parts joined again are the text.
pub split-parts :
    (c : ℕ) (s : Text)
    → (p : Text) × (ps : List Text) × (split c s ≡ p ∷ ps) × (join c (p ∷ ps) ≡ s)
unfolding split
split-parts c [] = ([], [], refl, join-one c [])
split-parts c (x ∷ xs) =
    let (p, ps, e, j) = split-parts c xs in
    elim (Bool-cases (x == c)) [
      | inl cut ↦ (
        [],
        p ∷ ps,
        rw (cut, e) refl,
        join-nil c p ps ∙ rw j (ap (λ y. y ∷ xs) (sym ((==_iff x c).0 cut))),
      )
      | inr inside ↦ (x ∷ p, ps, rw (inside, e) refl, join-cons_head c x p ps ∙ ap (λ y. x ∷ y) j)
    ]

pub join-split : (c : ℕ) (s : Text) → join c (split c s) ≡ s
join-split c s = let (p, ps, e, j) = split-parts c s in rw e j

-- A split at a `c` that stands anywhere.
pub split-join_append : (c : ℕ) (p s : Text) → split c (p ++ c ∷ s) ≡ split c p ++ split c s
unfolding split
split-join_append c [] s = rw (==_refl c) refl
split-join_append c (x ∷ xs) s =
    let (q, qs, e, j) = split-parts c xs in rw (split-join_append c xs s, e) (either (x == c) q qs)
  where
    either :
        (b : Bool) (q : Text) (qs : List Text)
        → (if b then [] ∷ ((q ∷ qs) ++ split c s) else cons_head x ((q ∷ qs) ++ split c s))
          ≡ (if b then [] ∷ (q ∷ qs) else cons_head x (q ∷ qs)) ++ split c s
    either true q qs = refl
    either false q qs = refl
