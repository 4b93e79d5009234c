-- ===== src/Base/Numbers.antt =====
-- strconv.Atoi with its error dropped, and the decimal of `%d`. An `int` is its 64-bit pattern.
use Prim.Native.Nat.{ℕ, zero, suc, ◌+◌, ◌*◌, ◌-◌, ◌/◌, ◌%◌, ◌^◌, ◌<◌, ◌≤◌}
use native.Mathlib.Nat.{pow-suc}
use mathlib.Core.Path.{◌≡◌, refl, ap, ◌∙◌, sym}
use mathlib.Core.Logic.{inl, inr, ◌≢◌}
use mathlib.Core.Bool.{Bool, true, false, ◌&&◌}
use mathlib.Core.List.{[], ◌∷◌}
use mathlib.Core.Option.{Option, none, some}
use native.Mathlib.Omega.{arith}
use discovery_self.Base.Tests.{if◌then◌else◌, ◌==◌, leb, ltb, Bool-cases}
use discovery_self.Base.Strings.{Text}

abbrev pub max_uint : ℕ
max_uint = 2 ^ 64 - 1

abbrev pub max_int : ℕ
max_int = 2 ^ 63 - 1

abbrev pub is_digit : ℕ → Bool
is_digit c = leb 48 c && leb c 57

-- ParseUint: `none` is a syntax error; past the range it stops at the largest value.
unfoldable pub parse_uint : ℕ → Text → Option ℕ
parse_uint acc [] = some acc
parse_uint acc (c ∷ cs) =
    let rest = parse_uint (acc * 10 + (c - 48)) cs in
    if is_digit c
    then (if ltb max_uint (acc * 10 + (c - 48)) then some max_uint else rest)
    else none

parse_digits : Text → Option ℕ
unfolding parse_uint
parse_digits [] = none
parse_digits (c ∷ cs) = parse_uint 0 (c ∷ cs)

abbrev positive : Option ℕ → ℕ
positive none = 0
positive (some n) = if leb n max_int then n else max_int

abbrev negative : Option ℕ → ℕ
negative none = 0
negative (some n) = if leb n (2 ^ 63) then (2 ^ 64 - n) % 2 ^ 64 else 2 ^ 63

unfoldable pub atoi : Text → ℕ
unfolding parse_digits
atoi [] = 0
atoi (c ∷ cs) =
    if c == b'-'
    then negative (parse_digits cs)
    else if c == b'+'
    then positive (parse_digits cs)
    else positive (parse_digits (c ∷ cs))

-- The digits of `n`, before those that are there already.
unfoldable pub digits_before : ℕ → ℕ → Text → Text
digits_before zero n acc = acc
digits_before (suc f) n acc =
    let more = digits_before f (n / 10) ((48 + n % 10) ∷ acc) in
    if ltb n 10 then (48 + n) ∷ acc else more

-- `%d` of a number that is not negative as an int: 64 rounds are enough below 2 ^ 64.
unfoldable pub itoa : ℕ → Text
unfolding digits_before
itoa n = digits_before 64 n []

-- The bounds that the rounds of the loop pass on.
fewer : (f n : ℕ) → n < 2 ^ suc f → n / 10 < 2 ^ f
fewer f n h = smaller (pow-suc 2 f)
  where
    smaller : 2 ^ suc f ≡ 2 ^ f * 2 → n / 10 < 2 ^ f
    smaller e = omega arith

rounds : (f n : ℕ) → ltb n 10 ≡ false → n < 2 ^ suc f → 0 < f
rounds zero n many below = absurd (ground arith)
rounds (suc f) n many below = omega arith

-- A digit that is read extends the number, within the range.
parse-digit :
    (a d : ℕ) (acc : Text)
    → d < 10
    → a * 10 + d ≤ max_int
    → parse_uint a ((48 + d) ∷ acc) ≡ parse_uint (a * 10 + d) acc
unfolding parse_uint
parse-digit a d acc small fits = rw (ascii, back) (rw within refl)
  where
    ascii : is_digit (48 + d) ≡ true
    ascii = ground arith

    back : 48 + d - 48 ≡ d
    back = omega arith

    within : ltb max_uint (a * 10 + d) ≡ false
    within = ground arith

parse-digits_before :
    (f n : ℕ) (acc : Text)
    → n < 2 ^ f
    → 0 < f
    → n ≤ max_int
    → parse_uint 0 (digits_before f n acc) ≡ parse_uint n acc
unfolding parse_uint digits_before
parse-digits_before zero n acc h pos m = absurd (omega arith)
parse-digits_before (suc f) n acc h pos m = elim (Bool-cases (ltb n 10)) [
  | inl one ↦ rw one (last_digit one)
  | inr many ↦ rw many (
      parse-digits_before f (n / 10) ((48 + n % 10) ∷ acc) (fewer f n h) (rounds f n many h)
        (omega arith)
      ∙ digit)
]
  where
    last_digit : ltb n 10 ≡ true → parse_uint 0 ((48 + n) ∷ acc) ≡ parse_uint n acc
    last_digit one =
        parse-digit 0 n acc (ground arith) (omega arith) ∙ ap (λ k. parse_uint k acc) (omega arith)

    digit : parse_uint (n / 10) ((48 + n % 10) ∷ acc) ≡ parse_uint n acc
    digit =
        parse-digit (n / 10) (n % 10) acc (omega arith) (omega arith)
        ∙ ap (λ k. parse_uint k acc) (omega arith)

-- Every byte is a digit.
unfoldable pub all_digits : Text → Bool
all_digits [] = true
all_digits (c ∷ cs) = is_digit c && all_digits cs

digits_before-head :
    (f n : ℕ) (acc : Text)
    → n < 2 ^ f
    → 0 < f
    → all_digits acc ≡ true
    → (d : ℕ) × (cs : Text) × (digits_before f n acc ≡ (48 + d) ∷ cs)
      × (d < 10)
      × (all_digits cs ≡ true)
unfolding digits_before all_digits
digits_before-head zero n acc h pos k = absurd (omega arith)
digits_before-head (suc f) n acc h pos k = elim (Bool-cases (ltb n 10)) [
  | inl one ↦ (n, acc, rw one refl, ground arith, k)
  | inr many ↦ rw many (
      digits_before-head f (n / 10) ((48 + n % 10) ∷ acc) (fewer f n h) (rounds f n many h)
        (ground arith))
]

itoa-head :
    (n : ℕ)
    → n ≤ max_int
    → (d : ℕ) × (cs : Text) × (itoa n ≡ (48 + d) ∷ cs) × (d < 10) × (all_digits cs ≡ true)
unfolding itoa all_digits
itoa-head n h = digits_before-head 64 n [] (omega arith) (omega arith) refl

pub all_digits-itoa : (n : ℕ) → n ≤ max_int → all_digits (itoa n) ≡ true
unfolding all_digits
all_digits-itoa n h = let (d, cs, e, small, rest) = itoa-head n h in rw e (ground arith)

parse-itoa : (n : ℕ) → n ≤ max_int → parse_uint 0 (itoa n) ≡ some n
unfolding itoa parse_uint
parse-itoa n h = parse-digits_before 64 n [] (omega arith) (omega arith) h

atoi-digits :
    (n d : ℕ) (cs : Text)
    → n ≤ max_int
    → d < 10
    → parse_uint 0 ((48 + d) ∷ cs) ≡ some n
    → atoi ((48 + d) ∷ cs) ≡ n
unfolding atoi
atoi-digits n d cs h small e = rw (minus, plus, e, fits) refl
  where
    minus : ((48 + d) == b'-') ≡ false
    minus = ground arith

    plus : ((48 + d) == b'+') ≡ false
    plus = ground arith

    fits : leb n max_int ≡ true
    fits = ground arith

-- The decimal of an int that is not negative is read back as that int.
pub atoi-itoa : (n : ℕ) → n ≤ max_int → atoi (itoa n) ≡ n
atoi-itoa n h =
    let (d, cs, e, small, rest) = itoa-head n h in
    rw e (atoi-digits n d cs h small (rw e at (parse-itoa n h)))

pub itoa-ne-nil : (n : ℕ) → n ≤ max_int → itoa n ≢ []
itoa-ne-nil n h e = let (d, cs, shape, small, rest) = itoa-head n h in cc (sym e ∙ shape)
