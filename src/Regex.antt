-- ===== src/Regex.antt =====
-- The regular expressions of package regexp that the program uses (service.go, discovery.go), and what
-- it means for a text to match one, with no search order in it.
use discovery_self.Base.{
  ℕ, zero, suc, ◌≤◌, [], ◌∷◌, ◌++◌, Option, none, some, Text, ◌≡◌, refl, ap, Bool, true, ◌&&◌, ◌⊎◌,
  length, arith, ◌↔◌,
}

pub data Regex : Type 0 where
  -- a class of bytes, such as [0-9] or `.`
  one_of : (ℕ → Bool) → Regex
  literal : Text → Regex
  seq : Regex → Regex → Regex
  alt : Regex → Regex → Regex
  -- {lo,hi}, with `none` for {lo,}
  repeated : ℕ → Option ℕ → Regex → Regex

abbrev pub many : Regex → Regex
many r = repeated 0 none r

abbrev pub Split : (Text → Type 0) → (Text → Type 0) → Text → Type 0
Split P Q s = (u : Text) × (v : Text) × (s ≡ u ++ v) × P u × Q v

abbrev pub Times : (Text → Type 0) → ℕ → Text → Type 0
Times P zero s = s ≡ []
Times P (suc n) s = Split P (Times P n) s

abbrev pub AtMost : ℕ → Option ℕ → Type 0
AtMost n none = Unit
AtMost n (some hi) = n ≤ hi

-- The whole text matches: ^r$.
abbrev pub Matches : Regex → Text → Type 0
Matches (one_of p) s = (c : ℕ) × (s ≡ c ∷ []) × (p c ≡ true)
Matches (literal t) s = s ≡ t
Matches (seq a b) s = Split (Matches a) (Matches b) s
Matches (alt a b) s = Matches a s ⊎ Matches b s
Matches (repeated lo hi a) s = (n : ℕ) × (lo ≤ n) × AtMost n hi × Times (Matches a) n s

-- Some part of the text matches: MatchString without anchors.
abbrev pub Found : Regex → Text → Type 0
Found r s = (p : Text) × (u : Text) × (q : Text) × (s ≡ p ++ (u ++ q)) × Matches r u

abbrev pub all : (ℕ → Bool) → Text → Bool
all p [] = true
all p (c ∷ cs) = p c && all p cs

both : {a b : Bool} → (a && b) ≡ true → (a ≡ true) × (b ≡ true)
both e = ground arith

-- A repeated class is a text of bytes of the class, whose length is the count.
class_count :
    (p : ℕ → Bool) (n : ℕ) (s : Text)
    → Times (Matches (one_of p)) n s
    → (all p s ≡ true) × (length s ≡ n)
class_count p zero s e = rw e (refl, refl)
class_count p (suc n) s (u, v, e, (c, one, hit), rest) =
    let (h, k) = class_count p n v rest in rw (e, one) (rw (hit, h) (refl, ap suc k))

class_of : (p : ℕ → Bool) (s : Text) → all p s ≡ true → Times (Matches (one_of p)) (length s) s
class_of p [] h = refl
class_of p (c ∷ cs) h = (c ∷ [], cs, refl, (c, refl, (both h).0), class_of p cs (both h).1)

pub repeated_class :
    (p : ℕ → Bool) (lo : ℕ) (hi : Option ℕ) (s : Text)
    → Matches (repeated lo hi (one_of p)) s
      ↔ ((all p s ≡ true) × (lo ≤ length s) × AtMost (length s) hi)
repeated_class p lo hi s = (
  λ (n, low, high, t). bounded n low high (class_count p n s t),
  λ (h, low, high). (length s, low, high, class_of p s h),
)
  where
    bounded :
        (n : ℕ)
        → lo ≤ n
        → AtMost n hi
        → (all p s ≡ true) × (length s ≡ n)
        → (all p s ≡ true) × (lo ≤ length s) × AtMost (length s) hi
    bounded n low high (h, e) = (h, rw e low, rw e high)
