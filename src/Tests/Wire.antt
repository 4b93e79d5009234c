-- ===== src/Tests/Wire.antt =====
-- A wire format of DNS messages: an answer is a tag, its numbers, and its two texts, each behind its
-- length.
use discovery_self.Base.{
  ℕ, zero, suc, List, [], ◌∷◌, ◌++◌, Option, none, some, Text, length, ◌≡◌, refl, Bool, true, false,
  ◌&&◌, arith,
}
use discovery_self.Mdns.{Query, Answer, ptr, srv, txt, a_record, aaaa_record, other_record}
use discovery_self.Mdns.Wire.{Wire, IsWire, answer_fits, all_fit}
use discovery_self.Discovery.Found.{asked}

abbrev put : Text → Text → Text
put t rest = length t ∷ (t ++ rest)

abbrev prepend : ℕ → Option (Text × Text) → Option (Text × Text)
prepend c none = none
prepend c (some (t, rest)) = some (c ∷ t, rest)

abbrev cut : ℕ → Text → Option (Text × Text)
cut zero xs = some ([], xs)
cut (suc n) [] = none
cut (suc n) (x ∷ xs) = prepend x (cut n xs)

abbrev take_text : Text → Option (Text × Text)
take_text [] = none
take_text (n ∷ xs) = cut n xs

cut-append : (t rest : Text) → cut (length t) (t ++ rest) ≡ some (t, rest)
cut-append [] rest = refl
cut-append (c ∷ t) rest = rw (cut-append t rest) refl

abbrev with_second : (Text → Answer) → Option (Text × Text) → Option (Answer × Text)
with_second f none = none
with_second f (some (t, rest)) = some (f t, rest)

abbrev with_first : (Text → Text → Answer) → Option (Text × Text) → Option (Answer × Text)
with_first f none = none
with_first f (some (t, rest)) = with_second (f t) (take_text rest)

two_texts :
    (f : Text → Text → Answer) (a b rest : Text)
    → with_first f (take_text (put a (put b rest))) ≡ some (f a b, rest)
two_texts f a b rest = rw (cut-append a (put b rest)) (rw (cut-append b rest) refl)

abbrev encode : Answer → Text → Text
encode (ptr h t) rest = 0 ∷ h.ttl ∷ put h.name (put t rest)
encode (srv h p w o t) rest = 1 ∷ h.ttl ∷ p ∷ w ∷ o ∷ put h.name (put t rest)
encode (txt h (t ∷ [])) rest = 2 ∷ h.ttl ∷ put h.name (put t rest)
encode (txt h _) rest = rest
encode (a_record h ip) rest = 3 ∷ h.ttl ∷ put h.name (put ip rest)
encode (aaaa_record h ip) rest = 4 ∷ h.ttl ∷ put h.name (put ip rest)
encode (other_record h) rest = rest

abbrev decode : Text → Option (Answer × Text)
decode (zero ∷ ttl ∷ xs) = with_first (λ n t. ptr (record { name = n; ttl = ttl }) t) (take_text xs)
decode ((suc zero) ∷ ttl ∷ p ∷ w ∷ o ∷ xs) =
    with_first (λ n t. srv (record { name = n; ttl = ttl }) p w o t) (take_text xs)
decode ((suc (suc zero)) ∷ ttl ∷ xs) =
    with_first (λ n t. txt (record { name = n; ttl = ttl }) (t ∷ [])) (take_text xs)
decode ((suc (suc (suc zero))) ∷ ttl ∷ xs) =
    with_first (λ n t. a_record (record { name = n; ttl = ttl }) t) (take_text xs)
decode ((suc (suc (suc (suc zero)))) ∷ ttl ∷ xs) =
    with_first (λ n t. aaaa_record (record { name = n; ttl = ttl }) t) (take_text xs)
decode _ = none

abbrev encode_all : List Answer → Text
encode_all [] = []
encode_all (a ∷ rest) = encode a (encode_all rest)

abbrev prepend_answer : Answer → Option (List Answer) → Option (List Answer)
prepend_answer a none = none
prepend_answer a (some answers) = some (a ∷ answers)

abbrev decode_all : ℕ → Text → Option (List Answer)
decode_all zero xs = some []
decode_all (suc n) xs = elim (decode xs) [
  | none ↦ none
  | some (a, rest) ↦ prepend_answer a (decode_all n rest)
]

abbrev unpack_reply : Text → Option (List Answer)
unpack_reply (id ∷ n ∷ xs) = decode_all n xs
unpack_reply _ = none

abbrev pub unpack_query : Text → Option Query
unpack_query (id ∷ xs) = some (asked id false)
unpack_query [] = none

abbrev pub wire : Wire
wire = record {
  pack = λ query answers. some (query.id ∷ length answers ∷ encode_all answers);
  unpack_query = unpack_query;
  unpack_reply = unpack_reply;
  is_ipv4 = λ addr. true;
  v4_text = λ ip. true;
  v6_text = λ ip. true;
}

decode-encode :
    (a : Answer) (rest : Text) → answer_fits wire a ≡ true → decode (encode a rest) ≡ some (a, rest)
unfolding answer_fits
decode-encode (ptr h t) rest e =
    two_texts (λ n s. ptr (record { name = n; ttl = h.ttl }) s) h.name t rest
decode-encode (srv h p w o t) rest e =
    two_texts (λ n s. srv (record { name = n; ttl = h.ttl }) p w o s) h.name t rest
decode-encode (txt h []) rest e = cc
decode-encode (txt h (t ∷ [])) rest e =
    two_texts (λ n s. txt (record { name = n; ttl = h.ttl }) (s ∷ [])) h.name t rest
decode-encode (txt h (t ∷ u ∷ us)) rest e = cc
decode-encode (a_record h ip) rest e =
    two_texts (λ n s. a_record (record { name = n; ttl = h.ttl }) s) h.name ip rest
decode-encode (aaaa_record h ip) rest e =
    two_texts (λ n s. aaaa_record (record { name = n; ttl = h.ttl }) s) h.name ip rest
decode-encode (other_record h) rest e = cc

decode_all-encode_all :
    (answers : List Answer)
    → all_fit wire answers ≡ true
    → decode_all (length answers) (encode_all answers) ≡ some answers
decode_all-encode_all [] e = refl
decode_all-encode_all (a ∷ rest) e =
    let head =
      decode-encode a (encode_all rest) (first (answer_fits wire a) (all_fit wire rest) e) in
    let tail = decode_all-encode_all rest (second (answer_fits wire a) (all_fit wire rest) e) in
    rw (decode_all, head, tail) refl
  where
    first : (x y : Bool) → (x && y) ≡ true → x ≡ true
    first x y h = ground arith

    second : (x y : Bool) → (x && y) ≡ true → y ≡ true
    second x y h = ground arith

pub wire-IsWire : IsWire wire
wire-IsWire = record {
  round_trip = λ query answers q fit few.
      (query.id ∷ length answers ∷ encode_all answers, refl, decode_all-encode_all answers fit);
}
