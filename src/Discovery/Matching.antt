-- ===== src/Discovery/Matching.antt =====
-- NetworkServiceMatcher of discovery.go.
use discovery_self.Base.{
  ℕ, suc, ◌+◌, ◌≤◌, [], ◌∷◌, ◌++◌, some, Text, codes, ◌≡◌, refl, ap, sym, ◌∙◌, Bool, true, false,
  ◌&&◌, inl, inr, ◌⊎◌, length, arith, ◌↔◌, leb, ◌==◌, all_digits, Bool-cases, Option-cases, ==_iff,
}
use discovery_self.Regex.{Regex, literal, seq, repeated, Matches, repeated_class}
use discovery_self.Service.{is_name_char, all_name_chars}
use discovery_self.Service.Matching.{service_name_regex, all-name}
use discovery_self.Discovery.{
  digits_then, is_copy_mark, matches_from, is_network_service, after_uid,
}
use discovery_self.Discovery.Names.{matches_from-name, digits_then-digits}
use discovery_self.Discovery.CopyMark.{
  digits_regex, digits_regex_iff, digits_then_inv, ne_nil, copy_mark_iff,
}

-- ([A-Za-z0-9\._-]{1,255})\[[0-9]+\]( \([0-9]+\))?
abbrev pub network_service_regex : Regex
network_service_regex = seq service_name_regex (
    seq (literal (codes "[")) (
      seq digits_regex (
        seq (literal (codes "]")) (
          repeated 0 (some 1)
            (seq (literal (codes " (")) (seq digits_regex (literal (codes ")"))))))))

matches_from_inv :
    (n : ℕ) (s : Text)
    → matches_from n s ≡ true
    → (name : Text) × (rest : Text) × (s ≡ name ++ b'[' ∷ rest)
      × (all_name_chars name ≡ true)
      × (1 ≤ length name + n)
      × (length name + n ≤ 255)
      × (after_uid (digits_then b']' false rest) ≡ true)
unfolding matches_from all_name_chars
matches_from_inv n [] h = cc
matches_from_inv n (c ∷ cs) h = elim (Bool-cases (is_name_char c)) [
  | inl name_char ↦
      let (name, rest, e, a, lo, hi, uid) = matches_from_inv (suc n) cs (rw name_char at h) in
      (c ∷ name, rest, ap (λ l. c ∷ l) e, rw (name_char, a) refl, omega arith, omega arith, uid)
  | inr other ↦
      let (x, lo, hi, uid) =
        parts (c == b'[') (leb 1 n) (leb n 255) (after_uid (digits_then b']' false cs))
          (rw other at h) in
      ([], cs, ap (λ d. d ∷ cs) ((==_iff c b'[').0 x), refl, low lo, high hi, uid)
]
  where
    parts :
        (x y z w : Bool)
        → (x && y && z && w) ≡ true
        → (x ≡ true) × (y ≡ true) × (z ≡ true) × (w ≡ true)
    parts x y z w e = ground arith

    low : leb 1 n ≡ true → 1 ≤ 0 + n
    low e = ground arith

    high : leb n 255 ≡ true → 0 + n ≤ 255
    high e = ground arith

uid_inv :
    (s : Text)
    → after_uid (digits_then b']' false s) ≡ true
    → (ds : Text) × (rest : Text) × (s ≡ ds ++ b']' ∷ rest)
      × (all_digits ds ≡ true)
      × (1 ≤ length ds)
      × (is_copy_mark rest ≡ true)
unfolding after_uid
uid_inv s h = elim (Option-cases (digits_then b']' false s)) [
  | inl e ↦ absurd (clash (rw e at h))
  | inr (rest, e) ↦
      let (ds, f, d, n) = digits_then_inv b']' false s rest e in
      (ds, rest, f, d, some_digit ds n, rw e at h)
]
  where
    clash : false ≡ true → ⊥
    clash x = cc

    some_digit : (ds : Text) → (false ≡ true) ⊎ (1 ≤ length ds) → 1 ≤ length ds
    some_digit ds (inl e) = cc
    some_digit ds (inr n) = n

accepts :
    (name ds rest : Text)
    → all_name_chars name ≡ true
    → 1 ≤ length name
    → length name ≤ 255
    → all_digits ds ≡ true
    → 1 ≤ length ds
    → is_copy_mark rest ≡ true
    → is_network_service (name ++ b'[' ∷ (ds ++ b']' ∷ rest)) ≡ true
unfolding is_network_service
accepts name ds rest a lo hi d n mark =
    matches_from-name 0 name (b'[' ∷ (ds ++ b']' ∷ rest)) a
    ∙ bracket (length name + 0) (ground arith) (ground arith)
  where
    bracket :
        (k : ℕ)
        → leb 1 k ≡ true
        → leb k 255 ≡ true
        → matches_from k (b'[' ∷ (ds ++ b']' ∷ rest)) ≡ true
    bracket k l h =
        unfold matches_from is_name_char after_uid in
        (rw (l, h, digits_then-digits b']' false ds rest d refl (inr (ne_nil ds n)), mark) refl)

-- The test of a short name decides NetworkServiceMatcher.
pub is_network_service_iff :
    (s : Text) → (is_network_service s ≡ true) ↔ Matches network_service_regex s
unfolding is_network_service
is_network_service_iff s = (from, to)
  where
    from : matches_from 0 s ≡ true → Matches network_service_regex s
    from h =
        let (name, rest, e, a, lo, hi, uid) = matches_from_inv 0 s h in
        let (ds, mark, f, d, n, m) = uid_inv rest uid in
        (
          name,
          b'[' ∷ rest,
          e,
          (repeated_class is_name_char 1 (some 255) name).1
              (all-name name ∙ a, omega arith, omega arith),
          (
            codes "[",
            rest,
            refl,
            refl,
            (
              ds,
              b']' ∷ mark,
              f,
              (digits_regex_iff ds).1 (d, n),
              (codes "]", mark, refl, refl, (copy_mark_iff mark).0 m),
            ),
          ),
        )

    to : Matches network_service_regex s → matches_from 0 s ≡ true
    to (name, r, e, named, (open_mark, r2, f, g, (ds, r3, h, digits, (close, mark, k, l, m)))) =
        let (a, lo, hi) = (repeated_class is_name_char 1 (some 255) name).0 named in
        let (d, n) = (digits_regex_iff ds).0 digits in
        rw (e, f, g, h, k, l)
          (accepts name ds mark (sym (all-name name) ∙ a) lo hi d n ((copy_mark_iff mark).1 m))
