-- ===== src/Discovery/Info.antt =====
-- The TXT record of an advertisement (discovery.go).
use discovery_self.Base.{
  ℕ, List, [], ◌∷◌, ◌++◌, Text, codes, text_eq, text_eq_iff, ◌≡◌, refl, ap, ◌∙◌, Bool, true, false,
  ◌&&◌, not, ◌==◌, split-append, split-lacks, lacks, to_lower, trim_right, arith, All, flat_map,
}
use discovery_self.Step.{ok, crash, index_out_of_range}
use discovery_self.Service.{all_name_chars, is_valid_service_name}
use discovery_self.Service.Parts.{valid_lacks_slash}
use discovery_self.Discovery.{
  is_separator, fields, fields_from, add_field, path_in, path_of_fields, path_of_info, path_base,
  base_of, last_part, service_info,
}

-- A text without separators is one field.
no_separators : Text → Bool
no_separators [] = true
no_separators (c ∷ cs) = not (is_separator c) && no_separators cs

head_plain : (c : ℕ) (cs : Text) → no_separators (c ∷ cs) ≡ true → is_separator c ≡ false
unfolding no_separators
head_plain c cs h = first (is_separator c) (no_separators cs) h
  where
    first : (a b : Bool) → (not a && b) ≡ true → a ≡ false
    first a b e = ground arith

tail_plain : (c : ℕ) (cs : Text) → no_separators (c ∷ cs) ≡ true → no_separators cs ≡ true
unfolding no_separators
tail_plain c cs h = second (is_separator c) (no_separators cs) h
  where
    second : (a b : Bool) → (not a && b) ≡ true → b ≡ true
    second a b e = ground arith

fields_from-plain : (s : Text) → no_separators s ≡ true → fields_from s ≡ (s, [])
unfolding no_separators fields_from
fields_from-plain [] h = refl
fields_from-plain (c ∷ cs) h = rw (fields_from-plain cs (tail_plain c cs h), head_plain c cs h) refl

-- What stands before an equals sign is a field of its own.
fields_from-equals :
    (k v : Text)
    → no_separators k ≡ true
    → no_separators v ≡ true
    → fields_from (k ++ b'=' ∷ v) ≡ (k, add_field v [])
unfolding fields_from
fields_from-equals [] v h hv = rw (fields_from-plain v hv) refl
fields_from-equals (c ∷ k) v h hv =
    rw (fields_from-equals k v (tail_plain c k h) hv, head_plain c k h) refl

fields-equals :
    (k v : Text)
    → no_separators k ≡ true
    → no_separators v ≡ true
    → fields (k ++ b'=' ∷ v) ≡ add_field k (add_field v [])
unfolding fields
fields-equals k v h hv = rw (fields_from-equals k v h hv) refl

name_plain : (name : Text) → all_name_chars name ≡ true → no_separators name ≡ true
unfolding no_separators all_name_chars
name_plain [] h = refl
name_plain (c ∷ cs) h = ground (arith, name_plain cs)

-- The TXT record that advertises a socket under a valid name is read back as the path of the socket.
pub path_of_info-service_info :
    (name : Text)
    → is_valid_service_name name ≡ true
    → path_of_info (service_info name) ≡ ok (codes "/network/" ++ name)
unfolding path_of_info is_valid_service_name
path_of_info-service_info name h =
    ap path_of_fields (
      fields-equals (codes "path") (codes "/network/" ++ name) (unfold no_separators in refl)
        (unfold no_separators in (name_plain name (ground arith))))
    ∙ unfold path_of_fields path_in add_field to_lower text_eq in refl

trim_right-slashless : (s : Text) → lacks b'/' s ≡ true → trim_right (λ x. x == b'/') s ≡ s
unfolding trim_right lacks
trim_right-slashless [] h = refl
trim_right-slashless (c ∷ []) h = ground arith
trim_right-slashless (c ∷ d ∷ ds) h = rw (trim_right-slashless (d ∷ ds) (ground arith)) refl

-- Nothing is trimmed off a text whose end is a name.
trim_right-prefix :
    (p : Text) (c : ℕ) (cs : Text)
    → lacks b'/' (c ∷ cs) ≡ true
    → trim_right (λ x. x == b'/') (p ++ c ∷ cs) ≡ p ++ c ∷ cs
unfolding trim_right
trim_right-prefix [] c cs h = trim_right-slashless (c ∷ cs) h
trim_right-prefix (x ∷ []) c cs h = rw (trim_right-slashless (c ∷ cs) h) refl
trim_right-prefix (x ∷ y ∷ ys) c cs h = rw (trim_right-prefix (y ∷ ys) c cs h) refl

-- path.Base of the path of a socket is the socket's name.
pub path_base-network :
    (name : Text) → is_valid_service_name name ≡ true → path_base (codes "/network/" ++ name) ≡ name
unfolding path_base base_of last_part
path_base-network [] h = absurd (unfold is_valid_service_name in (ground arith))
path_base-network (c ∷ cs) h = rw (trim_right-prefix (codes "/network/") c cs slash) (
    rw
      (
        split-append b'/' [] (codes "network/" ++ c ∷ cs) (unfold lacks in refl),
        split-append b'/' (codes "network") (c ∷ cs) (unfold lacks in refl),
        split-lacks b'/' (c ∷ cs) slash,
      )
      refl)
  where
    slash : lacks b'/' (c ∷ cs) ≡ true
    slash = valid_lacks_slash (c ∷ cs) h

-- Key and value pairs, none of whose keys is "path".
abbrev pub pairs : List (Text × Text) → List Text
pairs = flat_map (λ (k, v). k ∷ v ∷ [])

-- The fields of a TXT record that are at least one pair, the keys of the pairs being other than "path"
-- in any case of letters, and then a last field "path" with no value behind it, are an index out of
-- range, which ends the process that browses.
pub path_of_fields-dangling :
    (kv : Text × Text) (kvs : List (Text × Text)) (k : Text)
    → All (λ (x : Text × Text). text_eq (to_lower x.0) (codes "path") ≡ false) (kv ∷ kvs)
    → to_lower k ≡ codes "path"
    → path_of_fields (pairs (kv ∷ kvs) ++ k ∷ []) ≡ crash index_out_of_range
unfolding path_of_fields path_in
path_of_fields-dangling (a, b) kvs k h e = rw h.0 (go kvs h.1)
  where
    go :
        (xs : List (Text × Text))
        → All (λ (x : Text × Text). text_eq (to_lower x.0) (codes "path") ≡ false) xs
        → path_in (pairs xs ++ k ∷ []) ≡ crash index_out_of_range
    go [] q = rw ((text_eq_iff (to_lower k) (codes "path")).1 e) refl
    go ((c, d) ∷ xs) q = rw q.0 (go xs q.1)
