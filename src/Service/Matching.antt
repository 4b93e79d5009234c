-- ===== src/Service/Matching.antt =====
-- The regular expressions of service.go, and that the tests on the parts of a path decide them.
pub mod Network
pub mod ControlParts
pub mod Control
use discovery_self.Base.{
  ℕ, zero, suc, ◌≤◌, List, [], ◌∷◌, ◌++◌, Option, none, some, Text, codes, text_eq, text_eq_iff,
  text_eq_sound, text_eq_refl, ◌≡◌, refl, ap, sym, ◌∙◌, Bool, true, false, ◌&&◌, ◌||◌, not, ◌⊎◌,
  inl, inr, length, arith, ◌↔◌, split, join, lacks, join-split, split-lacks, split-append,
  split-join_append, split-parts, leb, ◌==◌, all_digits, is_digit, append_assoc, Bool-cases, subst,
  ==_iff,
}
use discovery_self.Regex.{
  Regex, one_of, literal, seq, alt, repeated, many, Matches, Found, all, repeated_class, Split,
}
use discovery_self.Service.{
  is_name_char, all_name_chars, is_valid_service_name, is_peer_id, begins_with_peer_id, last_two,
  ends_in_network, is_network_request, begins_control, holds_control, is_control_request,
  network_parts, after_slash,
}
use discovery_self.Service.Parts.{valid_lacks_slash, id_lacks_slash}

-- [A-Za-z0-9\._-]{1,255} and [0-9]{4,}
abbrev pub service_name_regex : Regex
service_name_regex = repeated 1 (some 255) (one_of is_name_char)

abbrev pub peer_id_regex : Regex
peer_id_regex = repeated 4 none (one_of is_digit)

-- .*/network/NAME/ID
abbrev pub network_request_regex : Regex
network_request_regex = seq (many (one_of (λ c. not (c == 10)))) (
    seq (literal (codes "/network/"))
      (seq service_name_regex (seq (literal (codes "/")) peer_id_regex)))

-- /control/(network|local)/NAME/ID
abbrev pub control_request_regex : Regex
control_request_regex = seq (literal (codes "/control/")) (
    seq (alt (literal (codes "network")) (literal (codes "local"))) (
      seq (literal (codes "/")) (seq service_name_regex (seq (literal (codes "/")) peer_id_regex))))

pub all-name : (s : Text) → all is_name_char s ≡ all_name_chars s
unfolding all_name_chars
all-name [] = refl
all-name (c ∷ cs) = rw (all-name cs) refl

pub all-digit : (s : Text) → all is_digit s ≡ all_digits s
unfolding all_digits
all-digit [] = refl
all-digit (c ∷ cs) = rw (all-digit cs) refl

all-line : (s : Text) → all (λ c. not (c == 10)) s ≡ lacks 10 s
unfolding lacks
all-line [] = refl
all-line (c ∷ cs) = rw (all-line cs) refl

-- The test of a service name decides the expression between ^ and $.
pub is_valid_service_name_iff :
    (s : Text) → (is_valid_service_name s ≡ true) ↔ Matches service_name_regex s
unfolding is_valid_service_name
is_valid_service_name_iff s =
    let (from, to) = repeated_class is_name_char 1 (some 255) s in
    (
      λ h. to (all-name s ∙ ground arith, ground arith, ground arith),
      λ m. let (a, lo, hi) = from m in test (sym (all-name s) ∙ a) lo hi,
    )
  where
    test :
        all_name_chars s ≡ true
        → 1 ≤ length s
        → length s ≤ 255
        → (all_name_chars s && leb 1 (length s) && leb (length s) 255) ≡ true
    test a lo hi = ground arith

pub is_peer_id_iff : (s : Text) → (is_peer_id s ≡ true) ↔ Matches peer_id_regex s
unfolding is_peer_id
is_peer_id_iff s =
    let (from, to) = repeated_class is_digit 4 none s in
    (
      λ h. to (all-digit s ∙ ground arith, ground arith, tt),
      λ m. let (a, lo, hi) = from m in test (sym (all-digit s) ∙ a) lo,
    )
  where
    test : all_digits s ≡ true → 4 ≤ length s → (all_digits s && leb 4 (length s)) ≡ true
    test a lo = ground arith

-- Parts of which none has a newline.
all_lines : List Text → Bool
all_lines [] = true
all_lines (p ∷ ps) = lacks 10 p && all_lines ps

lacks-append : (c : ℕ) (s t : Text) → lacks c (s ++ t) ≡ (lacks c s && lacks c t)
unfolding lacks
lacks-append c [] t = refl
lacks-append c (x ∷ s) t = ground (arith, lacks-append c s t)

-- A text has no newline exactly if none of its parts has.
lines-join : (p : Text) (ps : List Text) → lacks 10 (join b'/' (p ∷ ps)) ≡ all_lines (p ∷ ps)
unfolding join all_lines
lines-join p [] = ground arith
lines-join p (q ∷ qs) =
    lacks-append 10 p (b'/' ∷ join b'/' (q ∷ qs))
    ∙ ap (λ b. lacks 10 p && b) (skip_slash ∙ lines-join q qs)
  where
    skip_slash : lacks 10 (b'/' ∷ join b'/' (q ∷ qs)) ≡ lacks 10 (join b'/' (q ∷ qs))
    skip_slash = unfold lacks in refl

join-append :
    (p : Text) (ps : List Text) (q : Text) (qs : List Text)
    → join b'/' ((p ∷ ps) ++ q ∷ qs) ≡ join b'/' (p ∷ ps) ++ b'/' ∷ join b'/' (q ∷ qs)
unfolding join
join-append p [] q qs = refl
join-append p (r ∷ rs) q qs =
    ap (λ t. p ++ b'/' ∷ t) (join-append r rs q qs)
    ∙ sym (append_assoc p (b'/' ∷ join b'/' (r ∷ rs)) _)

last_two-append : (ps : List Text) (a b : Text) → last_two (ps ++ a ∷ b ∷ []) ≡ some (ps, a, b)
unfolding last_two
last_two-append [] a b = refl
last_two-append (p ∷ []) a b = refl
last_two-append (p ∷ q ∷ []) a b = refl
last_two-append (p ∷ q ∷ r ∷ ps) a b = rw (last_two-append (q ∷ r ∷ ps) a b) refl

-- What the last two parts were taken from.
pub last_two_inv :
    (ps : List Text)
    → (last_two ps ≡ none)
      ⊎ ((pre : List Text) × (a : Text) × (b : Text) × (last_two ps ≡ some (pre, a, b))
          × (ps ≡ pre ++ a ∷ b ∷ []))
unfolding last_two
last_two_inv [] = inl refl
last_two_inv (a ∷ []) = inl refl
last_two_inv (a ∷ b ∷ []) = inr ([], a, b, refl, refl)
last_two_inv (a ∷ b ∷ c ∷ rest) = elim (last_two_inv (b ∷ c ∷ rest)) [
  | inl e ↦ inl (rw e refl)
  | inr (pre, x, y, e, f) ↦ inr (a ∷ pre, x, y, rw e refl, ap (λ l. a ∷ l) f)
]

ends_in_network-append :
    (p : Text) (ps : List Text)
    → ends_in_network ((p ∷ ps) ++ codes "network" ∷ []) ≡ all_lines (p ∷ ps)
unfolding ends_in_network all_lines
ends_in_network-append p [] = rw (text_eq_refl (codes "network")) refl
ends_in_network-append p (q ∷ []) = ap (λ b. lacks 10 p && b) (ends_in_network-append q [])
ends_in_network-append p (q ∷ r ∷ ps) =
    ap (λ b. lacks 10 p && b) (ends_in_network-append q (r ∷ ps))

ends_in_network_inv :
    (ps : List Text)
    → ends_in_network ps ≡ true
    → (q : Text) × (qs : List Text) × (ps ≡ (q ∷ qs) ++ codes "network" ∷ [])
unfolding ends_in_network
ends_in_network_inv [] h = cc
ends_in_network_inv (a ∷ []) h = cc
ends_in_network_inv (a ∷ b ∷ []) h =
    (a, [], ap (λ t. a ∷ t ∷ []) (text_eq_sound b (codes "network") (ground arith)))
ends_in_network_inv (a ∷ b ∷ c ∷ rest) h =
    let (q, qs, e) = ends_in_network_inv (b ∷ c ∷ rest) (ground arith) in
    (a, q ∷ qs, ap (λ l. a ∷ l) e)
