-- ===== src/Service/Paths.antt =====
-- Every path of a URL is taken apart without a fault (serveWSCreator of service.go).
use discovery_self.Base.{
  List, [], ◌∷◌, ◌++◌, none, some, Text, ◌≡◌, refl, ap, sym, ◌∙◌, true, false, split, join,
  split-parts, Bool-cases, inl, inr,
}
use discovery_self.Step.{ok}
use discovery_self.Service.{
  last_two, service_path, is_control_request, holds_control, begins_control,
}
use discovery_self.Service.Matching.{last_two_inv}

last_two-some :
    (a b : Text) (ps : List Text)
    → (pre : List Text) × (name : Text) × (id : Text) × (last_two (a ∷ b ∷ ps)
        ≡ some (pre, name, id))
unfolding last_two
last_two-some a b [] = ([], a, b, refl)
last_two-some a b (c ∷ ps) =
    let (pre, name, id, e) = last_two-some b c ps in (a ∷ pre, name, id, rw e refl)

-- A control request has more than the two parts that are cut off.
control_parts :
    (path : Text) (pre : List Text) (name id : Text)
    → split b'/' path ≡ pre ++ name ∷ id ∷ []
    → is_control_request path ≡ true
    → (q : Text) × (service_path true (pre ++ name ∷ []) ≡ ok q)
unfolding is_control_request holds_control begins_control service_path
control_parts path [] name id e h = absurd (clash (rw e at h))
  where
    clash : false ≡ true → ⊥
    clash x = cc
control_parts path (a ∷ []) name id e h = (_, refl)
control_parts path (a ∷ b ∷ pre) name id e h = (_, refl)

-- What serveWSCreator makes of a path that begins with a slash: a last part, one before it, and the
-- path of the socket.
pub path_taken_apart :
    (path rest : Text)
    → path ≡ b'/' ∷ rest
    → (pre : List Text) × (name : Text) × (id : Text) × (q : Text) × (last_two (split b'/' path)
        ≡ some (pre, name, id))
      × (service_path (is_control_request path) (pre ++ name ∷ []) ≡ ok q)
unfolding split service_path
path_taken_apart path rest at =
    let (h, t, parts, j) = split-parts b'/' rest in
    let two : split b'/' path ≡ [] ∷ h ∷ t = ap (split b'/') at ∙ ap (λ l. [] ∷ l) parts in
    let (pre, name, id, e) = last_two-some [] h t in
    let found : last_two (split b'/' path) ≡ some (pre, name, id) = ap last_two two ∙ e in
    elim (Bool-cases (is_control_request path)) [
      | inr plain ↦ (pre, name, id, join b'/' (pre ++ name ∷ []), found, rw plain refl)
      | inl control ↦ elim (last_two_inv (split b'/' path)) [
        | inl absent ↦ absurd (clash (sym absent ∙ found))
        | inr (pre2, name2, id2, e2, whole) ↦
            let (q, known) = control_parts path pre2 name2 id2 whole control in
            (pre2, name2, id2, q, e2, rw control known)
      ]
    ]
  where
    clash : {a : List Text × Text × Text} → none ≡ some a → ⊥
    clash x = cc
