-- ===== src/Discovery/Names.antt =====
-- The names under which sockets are advertised (discovery.go).
use discovery_self.Base.{
  ℕ, suc, ◌+◌, ◌≤◌, List, [], ◌∷◌, ◌++◌, none, some, Text, codes, text_eq, text_eq_refl, ◌≡◌, ◌≢◌,
  refl, ap, ◌∙◌, Bool, true, false, ◌&&◌, leb, length, split, join-split, split-join_append, itoa,
  is_digit, all_digits, all_digits-itoa, itoa-ne-nil, max_int, inl, inr, ◌⊎◌, arith, append_assoc,
}
use discovery_self.Service.{is_name_char, all_name_chars, is_valid_service_name}
use discovery_self.Discovery.{
  before_last, short_name, digits_then, is_copy_mark, matches_from, is_network_service,
  instance_name,
}

-- The full name of an instance, as the mDNS library returns it.
abbrev pub full_name : Text → Text
full_name instance_ = instance_ ++ codes "._ws._tcp.local."

before_last-append :
    (t : Text) (xs ys : List Text)
    → before_last t ys ≡ none
    → before_last t (xs ++ t ∷ ys) ≡ some xs
unfolding before_last
before_last-append t [] ys h = rw (h, text_eq_refl t) refl
before_last-append t (x ∷ xs) ys h = rw (before_last-append t xs ys h) refl

-- The short name of an instance's full name is the instance's name, whatever dots it holds.
pub short_name-full_name : (instance_ : Text) → short_name (full_name instance_) ≡ instance_
unfolding short_name
short_name-full_name instance_ =
    rw (split-join_append b'.' instance_ (codes "_ws._tcp.local."), rest)
      (rw (before_last-append (codes "_ws") (split b'.' instance_) _ after)
        (join-split b'.' instance_))
  where
    rest :
        split b'.' (codes "_ws._tcp.local.") ≡ codes "_ws" ∷ codes "_tcp" ∷ codes "local" ∷ [] ∷ []
    rest = unfold split in refl

    after : before_last (codes "_ws") (codes "_tcp" ∷ codes "local" ∷ [] ∷ []) ≡ none
    after = unfold before_last text_eq in refl

pub matches_from-name :
    (n : ℕ) (name rest : Text)
    → all_name_chars name ≡ true
    → matches_from n (name ++ rest) ≡ matches_from (length name + n) rest
unfolding matches_from all_name_chars
matches_from-name n [] rest h = ap (λ k. matches_from k rest) (omega arith)
matches_from-name n (c ∷ cs) rest h = rw (first (is_name_char c) (all_name_chars cs) h) (
    matches_from-name (suc n) cs rest (second (is_name_char c) (all_name_chars cs) h)
    ∙ ap (λ k. matches_from k rest) (omega arith))
  where
    first : (a b : Bool) → (a && b) ≡ true → a ≡ true
    first a b e = ground arith

    second : (a b : Bool) → (a && b) ≡ true → b ≡ true
    second a b e = ground arith

pub digits_then-digits :
    (close : ℕ) (b : Bool) (ds rest : Text)
    → all_digits ds ≡ true
    → is_digit close ≡ false
    → (b ≡ true) ⊎ (ds ≢ [])
    → digits_then close b (ds ++ close ∷ rest) ≡ some rest
unfolding digits_then all_digits
digits_then-digits close b [] rest h k (inl e) = ground arith
digits_then-digits close b [] rest h k (inr e) = absurd (e refl)
digits_then-digits close b (d ∷ ds) rest h k n =
    ground (arith, digits_then-digits close true ds rest)

-- Behind a name of 1 to 255 bytes, a UID in brackets completes the match.
matches_from-uid :
    (n : ℕ) (ds : Text)
    → all_digits ds ≡ true
    → ds ≢ []
    → leb 1 n ≡ true
    → leb n 255 ≡ true
    → matches_from n (b'[' ∷ (ds ++ b']' ∷ [])) ≡ true
unfolding matches_from is_name_char is_copy_mark
matches_from-uid n ds h ne low high =
    rw (low, high, digits_then-digits b']' false ds [] h refl (inr ne)) refl

-- The name under which a socket of a valid name is advertised is one that the browser accepts.
pub is_network_service-instance_name :
    (name : Text) (uid : ℕ)
    → is_valid_service_name name ≡ true
    → uid ≤ max_int
    → is_network_service (instance_name name uid) ≡ true
unfolding is_network_service is_valid_service_name
is_network_service-instance_name name uid h fits =
    rw
      (
        append_assoc name (b'[' ∷ itoa uid) (b']' ∷ []),
        matches_from-name 0 name (b'[' ∷ (itoa uid ++ b']' ∷ [])) (ground arith),
      )
      (matches_from-uid (length name + 0) (itoa uid) (all_digits-itoa uid fits)
        (itoa-ne-nil uid fits) low high)
  where
    low : leb 1 (length name + 0) ≡ true
    low = ground arith

    high : leb (length name + 0) 255 ≡ true
    high = ground arith
