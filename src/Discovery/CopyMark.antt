-- ===== src/Discovery/CopyMark.antt =====
-- The digits and the mark of a copy in the name of an instance (NetworkServiceMatcher of discovery.go).
use discovery_self.Base.{
  ℕ, zero, suc, ◌≤◌, [], ◌∷◌, ◌++◌, none, some, Text, codes, text_eq, text_eq_sound, ◌≡◌, ◌≢◌, refl,
  ap, sym, ◌∙◌, Bool, true, false, ◌&&◌, inl, inr, ◌⊎◌, length, arith, ◌↔◌, ◌==◌, all_digits,
  is_digit, Bool-cases, Option-cases, append-nil, if◌then◌else◌, ==_iff,
}
use discovery_self.Regex.{Regex, one_of, literal, seq, repeated, Matches, repeated_class}
use discovery_self.Service.Matching.{all-digit}
use discovery_self.Discovery.{digits_then, is_copy_mark}
use discovery_self.Discovery.Names.{digits_then-digits}

-- [0-9]+
abbrev pub digits_regex : Regex
digits_regex = repeated 1 none (one_of is_digit)

pub digits_regex_iff :
    (s : Text) → Matches digits_regex s ↔ ((all_digits s ≡ true) × (1 ≤ length s))
digits_regex_iff s =
    let (from, to) = repeated_class is_digit 1 none s in
    (
      λ m. let (a, lo, u) = from m in (sym (all-digit s) ∙ a, lo),
      λ (a, lo). to (all-digit s ∙ a, lo, tt),
    )

pub digits_then_inv :
    (close : ℕ) (b : Bool) (s rest : Text)
    → digits_then close b s ≡ some rest
    → (ds : Text) × (s ≡ ds ++ close ∷ rest)
      × (all_digits ds ≡ true)
      × ((b ≡ true) ⊎ (1 ≤ length ds))
unfolding digits_then all_digits
digits_then_inv close b [] rest e = cc
digits_then_inv close b (c ∷ cs) rest e = elim (Bool-cases (is_digit c)) [
  | inl d ↦
      let (ds, f, a, n) = digits_then_inv close true cs rest (rw d at e) in
      (c ∷ ds, ap (λ l. c ∷ l) f, rw (d, a) refl, inr (omega arith))
  | inr o ↦ closed (c == close) b (==_iff c close).0 (rw o at e)
]
  where
    closed :
        (x y : Bool)
        → (x ≡ true → c ≡ close)
        → (if x && y then some cs else none) ≡ some rest
        → (ds : Text) × (c ∷ cs ≡ ds ++ close ∷ rest)
          × (all_digits ds ≡ true)
          × ((y ≡ true) ⊎ (1 ≤ length ds))
    closed true true k h = ([], cc (k refl), refl, inl refl)
    closed true false k h = cc
    closed false y k h = cc

pub ne_nil : (s : Text) → 1 ≤ length s → s ≢ []
ne_nil s h e = absurd (short (rw e at h))
  where
    short : 1 ≤ 0 → ⊥
    short k = omega arith

-- The mark of a copy, behind a space.
pub copy_mark_inv :
    (s : Text)
    → is_copy_mark s ≡ true
    → (s ≡ [])
      ⊎ ((ds : Text) × (s ≡ codes " (" ++ (ds ++ codes ")"))
          × (all_digits ds ≡ true)
          × (1 ≤ length ds))
unfolding is_copy_mark
copy_mark_inv [] h = inl refl
copy_mark_inv (a ∷ []) h = cc
copy_mark_inv (a ∷ b ∷ rest) h = elim (Option-cases (digits_then b')' false rest)) [
  | inl e ↦ absurd (no_mark (a == b' ') (b == b'(') (rw e at h))
  | inr (after, e) ↦
      let (ds, f, d, n) = digits_then_inv b')' false rest after e in
      let (sa, sb, sc) = parts (a == b' ') (b == b'(') (text_eq after []) (rw e at h) in
      inr (
        ds,
        rw ((==_iff a b' ').0 sa, (==_iff b b'(').0 sb)
            (ap (λ l. b' ' ∷ b'(' ∷ l) (f ∙ ap (λ t. ds ++ b')' ∷ t) (text_eq_sound after [] sc))),
        d,
        some_digit ds n,
      )
]
  where
    no_mark : (x y : Bool) → (x && y && false) ≡ true → ⊥
    no_mark x y e = ground arith

    parts : (x y z : Bool) → (x && y && z) ≡ true → (x ≡ true) × (y ≡ true) × (z ≡ true)
    parts x y z e = ground arith

    some_digit : (ds : Text) → (false ≡ true) ⊎ (1 ≤ length ds) → 1 ≤ length ds
    some_digit ds (inl e) = cc
    some_digit ds (inr n) = n

pub copy_mark_lem :
    (ds : Text)
    → all_digits ds ≡ true
    → 1 ≤ length ds
    → is_copy_mark (codes " (" ++ (ds ++ codes ")")) ≡ true
unfolding is_copy_mark text_eq
copy_mark_lem ds d n = rw (digits_then-digits b')' false ds [] d refl (inr (ne_nil ds n))) refl

pub copy_mark_iff :
    (s : Text)
    → (is_copy_mark s ≡ true)
      ↔ Matches
          (repeated 0
            (some 1)
            (seq (literal (codes " (")) (seq digits_regex (literal (codes ")")))))
          s
copy_mark_iff s = (λ h. from (copy_mark_inv s h), to)
  where
    from :
        (s ≡ [])
          ⊎ ((ds : Text) × (s ≡ codes " (" ++ (ds ++ codes ")"))
              × (all_digits ds ≡ true)
              × (1 ≤ length ds))
        → Matches
            (repeated 0
              (some 1)
              (seq (literal (codes " (")) (seq digits_regex (literal (codes ")")))))
            s
    from (inl e) = (0, omega arith, omega arith, e)
    from (inr (ds, e, d, n)) = (
      1,
      omega arith,
      omega arith,
      (
        s,
        [],
        sym (append-nil s),
        (
          codes " (",
          ds ++ codes ")",
          e,
          refl,
          (ds, codes ")", refl, (digits_regex_iff ds).1 (d, n), refl),
        ),
        refl,
      ),
    )

    to :
        Matches
          (repeated 0
            (some 1)
            (seq (literal (codes " (")) (seq digits_regex (literal (codes ")")))))
          s
        → is_copy_mark s ≡ true
    to (zero, lo, hi, e) = rw e (unfold is_copy_mark in refl)
    to (suc zero, lo, hi, (u, v, e, (open_mark, w, f, g, (ds, close, k, m, l)), nil)) =
        let (d, n) = (digits_regex_iff ds).0 m in
        rw (e, nil, append-nil, f, g, k, l) (copy_mark_lem ds d n)
    to (suc (suc n), lo, hi, t) = absurd (omega arith)
