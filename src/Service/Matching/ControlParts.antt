-- ===== src/Service/Matching/ControlParts.antt =====
-- The parts of a path that hold a control request, and the text around them (service.go).
use discovery_self.Base.{
  ℕ, List, [], ◌∷◌, ◌++◌, Option, none, some, Text, codes, text_eq, text_eq_refl, text_eq_sound,
  ◌≡◌, refl, ap, sym, ◌∙◌, Bool, true, false, ◌&&◌, ◌||◌, inl, inr, ◌⊎◌, length, arith, ◌↔◌, split,
  join, lacks, join-split, split-lacks, split-append, split-join_append, split-parts, append_assoc,
  ◌==◌, subst, Bool-cases, leb, all_digits, is_digit,
}
use discovery_self.Service.{
  is_valid_service_name, is_peer_id, begins_with_peer_id, begins_control, holds_control,
  is_control_request,
}
use discovery_self.Service.Parts.{network, local, Scope, scope_text}
use discovery_self.Service.Matching.{join-append}

-- What stands from the slash before "control" on.
abbrev pub control_tail : Scope → Text → Text → Text
control_tail scope name rest =
    b'/' ∷ (codes "control" ++ b'/' ∷ (scope_text scope ++ b'/' ∷ (name ++ b'/' ∷ rest)))

-- The parts that begin a control path, found among the parts.
control_parts :
    (ps : List Text)
    → begins_control ps ≡ true
    → (scope : Scope) × (name : Text) × (idq : Text) × (more : List Text) × (ps
        ≡ codes "control" ∷ scope_text scope ∷ name ∷ idq ∷ more)
      × (is_valid_service_name name ≡ true)
      × (begins_with_peer_id idq ≡ true)
unfolding begins_control
control_parts [] h = cc
control_parts (a ∷ []) h = cc
control_parts (a ∷ b ∷ []) h = cc
control_parts (a ∷ b ∷ c ∷ []) h = cc
control_parts (a ∷ s ∷ name ∷ idq ∷ more) h = elim (Bool-cases (text_eq s (codes "network"))) [
  | inl net ↦ (
    network,
    name,
    idq,
    more,
    rw (text_eq_sound a (codes "control") (ground arith), text_eq_sound s (codes "network") net)
        refl,
    ground arith,
    ground arith,
  )
  | inr other ↦ (
    local,
    name,
    idq,
    more,
    rw
        (
          text_eq_sound a (codes "control") (ground arith),
          text_eq_sound s (codes "local") (ground arith),
        )
        refl,
    ground arith,
    ground arith,
  )
]

holds_inv :
    (ps : List Text)
    → holds_control ps ≡ true
    → (xs : List Text) × (ys : List Text) × (ps ≡ xs ++ ys) × (begins_control ys ≡ true)
unfolding holds_control
holds_inv [] h = cc
holds_inv (p ∷ ps) h = elim (Bool-cases (begins_control (p ∷ ps))) [
  | inl b ↦ ([], p ∷ ps, refl, b)
  | inr n ↦ let (xs, ys, e, b) = holds_inv ps (rw n at h) in (p ∷ xs, ys, ap (λ l. p ∷ l) e, b)
]

-- Four digits at the beginning are a peer id.
first_four :
    (idq : Text)
    → begins_with_peer_id idq ≡ true
    → (id : Text) × (r : Text) × (idq ≡ id ++ r) × (is_peer_id id ≡ true)
unfolding begins_with_peer_id is_peer_id all_digits
first_four [] h = cc
first_four (a ∷ []) h = cc
first_four (a ∷ b ∷ []) h = cc
first_four (a ∷ b ∷ c ∷ []) h = cc
first_four (a ∷ b ∷ c ∷ d ∷ rest) h = (a ∷ b ∷ c ∷ d ∷ [], rest, refl, ground arith)

join-first : (p : Text) (ps : List Text) → (r : Text) × (join b'/' (p ∷ ps) ≡ p ++ r)
unfolding join
join-first p [] = ([], sym (discovery_self.Base.append-nil p))
join-first p (q ∷ qs) = (b'/' ∷ join b'/' (q ∷ qs), refl)

tail_joined :
    (scope : Scope) (name idq : Text) (more : List Text)
    → b'/' ∷ join b'/' (codes "control" ∷ scope_text scope ∷ name ∷ idq ∷ more)
      ≡ control_tail scope name (join b'/' (idq ∷ more))
unfolding join
tail_joined scope name idq more = refl

-- The text around a control path that the parts begin somewhere.
rejoined :
    (path a : Text) (rest : List Text)
    → join b'/' (a ∷ rest) ≡ path
    → holds_control rest ≡ true
    → (p : Text) × (scope : Scope) × (name : Text) × (id : Text) × (q : Text) × (path
        ≡ p ++ control_tail scope name (id ++ q))
      × (is_valid_service_name name ≡ true)
      × (is_peer_id id ≡ true)
rejoined path a rest j h =
    let (xs, ys, e, b) = holds_inv rest h in
    let (scope, name, idq, more, f, valid, digits) = control_parts ys b in
    let (id, r, g, peer) = first_four idq digits in
    let (r2, k) = join-first idq more in
    (
      join b'/' (a ∷ xs),
      scope,
      name,
      id,
      r ++ r2,
      sym j
          ∙ ap (λ l. join b'/' (a ∷ l)) (e ∙ ap (λ l. xs ++ l) f)
          ∙ join-append a xs (codes "control") (scope_text scope ∷ name ∷ idq ∷ more)
          ∙ ap (λ t. join b'/' (a ∷ xs) ++ t)
              (tail_joined scope name idq more
                ∙ ap (control_tail scope name) (k ∙ ap (λ t. t ++ r2) g ∙ append_assoc id r r2)),
      valid,
      peer,
    )

pub parts_of :
    (path : Text)
    → is_control_request path ≡ true
    → (p : Text) × (scope : Scope) × (name : Text) × (id : Text) × (q : Text) × (path
        ≡ p ++ control_tail scope name (id ++ q))
      × (is_valid_service_name name ≡ true)
      × (is_peer_id id ≡ true)
unfolding is_control_request
parts_of path h = let (a, rest, e, j) = split-parts b'/' path in rejoined path a rest j (rw e at h)
