-- ===== src/Service/Matching/Control.antt =====
-- isControlRequest of service.go.
use discovery_self.Base.{
  ℕ, List, [], ◌∷◌, ◌++◌, Text, codes, text_eq, ◌≡◌, refl, ◌∙◌, Bool, true, false, ◌||◌, inl, inr,
  ◌⊎◌, arith, ◌↔◌, split, lacks, split-append, split-join_append, split-parts, append_assoc, ◌==◌,
}
use discovery_self.Regex.{Found}
use discovery_self.Service.{
  is_valid_service_name, is_peer_id, begins_with_peer_id, begins_control, holds_control,
  is_control_request,
}
use discovery_self.Service.Parts.{
  valid_lacks_slash, id_lacks_slash, id_begins, network, local, Scope, scope_text,
  scope_lacks_slash,
}
use discovery_self.Service.Matching.{
  control_request_regex, is_valid_service_name_iff, is_peer_id_iff,
}
use discovery_self.Service.Matching.ControlParts.{control_tail, parts_of}

-- A text without the byte grows the first part.
split-prefix :
    (c : ℕ) (p s : Text)
    → lacks c p ≡ true
    → (h : Text) × (t : List Text) × (split c (p ++ s) ≡ (p ++ h) ∷ t)
unfolding split lacks
split-prefix c [] s l = let (h, t, e, j) = split-parts c s in (h, t, e)
split-prefix c (x ∷ p) s l =
    let (h, t, e) = split-prefix c p s (ground arith) in (h, t, rw e (rw (apart l) refl))
  where
    apart : lacks c (x ∷ p) ≡ true → (x == c) ≡ false
    apart k = ground arith

begins-append : (id h : Text) → begins_with_peer_id id ≡ true → begins_with_peer_id (id ++ h) ≡ true
unfolding begins_with_peer_id
begins-append [] h e = cc
begins-append (a ∷ []) h e = cc
begins-append (a ∷ b ∷ []) h e = cc
begins-append (a ∷ b ∷ c ∷ []) h e = cc
begins-append (a ∷ b ∷ c ∷ d ∷ rest) h e = e

holds-append : (xs ys : List Text) → holds_control ys ≡ true → holds_control (xs ++ ys) ≡ true
unfolding holds_control
holds-append [] ys h = h
holds-append (x ∷ xs) ys h = rw (holds-append xs ys h) (either (begins_control (x ∷ (xs ++ ys))))
  where
    either : (b : Bool) → (b || true) ≡ true
    either true = refl
    either false = refl

begins_lem :
    (scope : Scope) (name idq : Text) (more : List Text)
    → is_valid_service_name name ≡ true
    → begins_with_peer_id idq ≡ true
    → holds_control (codes "control" ∷ scope_text scope ∷ name ∷ idq ∷ more) ≡ true
unfolding holds_control begins_control text_eq
begins_lem network name idq more v b = rw (v, b) refl
begins_lem local name idq more v b = rw (v, b) refl

accepts :
    (p : Text) (scope : Scope) (name id q : Text)
    → is_valid_service_name name ≡ true
    → is_peer_id id ≡ true
    → is_control_request (p ++ control_tail scope name (id ++ q)) ≡ true
unfolding is_control_request
accepts p scope name id q valid peer =
    let (x, xs, e, j) = split-parts b'/' p in
    let (h, more, f) = split-prefix b'/' id q (id_lacks_slash id peer) in
    rw
      (
        split-join_append b'/' p
            (codes "control" ++ b'/' ∷ (scope_text scope ++ b'/' ∷ (name ++ b'/' ∷ (id ++ q)))),
        e,
        split-append b'/' (codes "control") (scope_text scope ++ b'/' ∷ (name ++ b'/' ∷ (id ++ q)))
            (unfold lacks in refl),
        split-append b'/' (scope_text scope) (name ++ b'/' ∷ (id ++ q)) (scope_lacks_slash scope),
        split-append b'/' name (id ++ q) (valid_lacks_slash name valid),
        f,
      )
      (holds-append xs _
        (begins_lem scope name (id ++ h) more valid (begins-append id h (id_begins id peer))))

regrouped :
    (p : Text) (scope : Scope) (name id q : Text)
    → p ++ control_tail scope name (id ++ q)
      ≡ p ++ ((codes "/control/" ++ (scope_text scope ++ b'/' ∷ (name ++ b'/' ∷ id))) ++ q)
regrouped p scope name id q =
    rw
      (
        append_assoc (scope_text scope) (b'/' ∷ (name ++ b'/' ∷ id)) q,
        append_assoc name (b'/' ∷ id) q,
      )
      refl

-- The test decides (/control/(network|local)/NAME/ID), wherever in the path it stands.
pub is_control_request_iff :
    (path : Text) → (is_control_request path ≡ true) ↔ Found control_request_regex path
is_control_request_iff path = (from, to)
  where
    scoped :
        (t : Text) → (t ≡ codes "network") ⊎ (t ≡ codes "local") → (s : Scope) × (t ≡ scope_text s)
    scoped t (inl e) = (network, e)
    scoped t (inr e) = (local, e)

    to : Found control_request_regex path → is_control_request path ≡ true
    to
          (
            p,
            u,
            q,
            e,
            (
              a,
              b,
              f,
              word,
              (sc, d, g, which, (s1, k, h, sl, (name, l, i, n, (s2, id, j, sl2, peer)))),
            ),
          ) =
        let (scope, same) = scoped sc which in
        rw (e, f, word, g, same, h, sl, i, j, sl2)
          (rw
            (
              append_assoc (scope_text scope) (b'/' ∷ (name ++ b'/' ∷ id)) q,
              append_assoc name (b'/' ∷ id) q,
            )
            (accepts p scope name id q ((is_valid_service_name_iff name).1 n)
              ((is_peer_id_iff id).1 peer)))

    choose : (s : Scope) → (scope_text s ≡ codes "network") ⊎ (scope_text s ≡ codes "local")
    choose network = inl refl
    choose local = inr refl

    from : is_control_request path ≡ true → Found control_request_regex path
    from h =
        let (p, scope, name, id, q, e, valid, peer) = parts_of path h in
        (
          p,
          codes "/control/" ++ (scope_text scope ++ b'/' ∷ (name ++ b'/' ∷ id)),
          q,
          e ∙ regrouped p scope name id q,
          (
            codes "/control/",
            _,
            refl,
            refl,
            (
              scope_text scope,
              _,
              refl,
              choose scope,
              (
                codes "/",
                _,
                refl,
                refl,
                (
                  name,
                  _,
                  refl,
                  (is_valid_service_name_iff name).0 valid,
                  (codes "/", id, refl, refl, (is_peer_id_iff id).0 peer),
                ),
              ),
            ),
          ),
        )
