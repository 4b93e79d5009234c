-- ===== src/Service/Matching/Network.antt =====
-- isNetworkRequest of service.go.
use discovery_self.Base.{
  List, [], ◌∷◌, ◌++◌, none, Text, codes, ◌≡◌, refl, ap, sym, ◌∙◌, Bool, true, false, ◌&&◌, not,
  inl, inr, arith, ◌↔◌, split, join, lacks, join-split, split-lacks, split-append,
  split-join_append, split-parts, append_assoc, ◌==◌,
}
use discovery_self.Regex.{Matches, repeated_class}
use discovery_self.Service.{is_valid_service_name, is_peer_id, ends_in_network, is_network_request}
use discovery_self.Service.Parts.{valid_lacks_slash, id_lacks_slash}
use discovery_self.Service.Matching.{
  network_request_regex, is_valid_service_name_iff, is_peer_id_iff, all-line, all_lines, lines-join,
  join-append, last_two-append, last_two_inv, ends_in_network-append, ends_in_network_inv,
}

network_split :
    (p name id : Text)
    → lacks b'/' name ≡ true
    → lacks b'/' id ≡ true
    → split b'/' (p ++ b'/' ∷ (codes "network" ++ b'/' ∷ (name ++ b'/' ∷ id)))
      ≡ split b'/' p ++ (codes "network" ∷ name ∷ id ∷ [])
network_split p name id hn hi =
    split-join_append b'/' p _
    ∙ ap (λ l. split b'/' p ++ l)
        (split-append b'/' (codes "network") _ (unfold lacks in refl)
          ∙ ap (λ l. codes "network" ∷ l)
              (split-append b'/' name id hn ∙ ap (λ l. name ∷ l) (split-lacks b'/' id hi)))

-- The parts of a path with a first line, the word and the two names behind it.
accepts :
    (p name id : Text)
    → lacks 10 p ≡ true
    → is_valid_service_name name ≡ true
    → is_peer_id id ≡ true
    → is_network_request (p ++ b'/' ∷ (codes "network" ++ b'/' ∷ (name ++ b'/' ∷ id))) ≡ true
unfolding is_network_request
accepts p name id line valid peer =
    let (q, qs, e, j) = split-parts b'/' p in
    let lines : all_lines (q ∷ qs) ≡ true = sym (lines-join q qs) ∙ ap (lacks 10) j ∙ line in
    rw (network_split p name id (valid_lacks_slash name valid) (id_lacks_slash id peer), e)
      (rw
        (
          sym (append_assoc (q ∷ qs) (codes "network" ∷ []) (name ∷ id ∷ [])),
          last_two-append ((q ∷ qs) ++ codes "network" ∷ []) name id,
        )
        (rw (ends_in_network-append q qs, lines, valid, peer) refl))

and3 : {a b c : Bool} → (a && b && c) ≡ true → (a ≡ true) × (b ≡ true) × (c ≡ true)
and3 e = ground arith

rejoined :
    (path : Text) (pre : List Text) (name id : Text)
    → split b'/' path ≡ pre ++ name ∷ id ∷ []
    → ends_in_network pre ≡ true
    → (p : Text) × (lacks 10 p ≡ true)
      × (path ≡ p ++ b'/' ∷ (codes "network" ++ b'/' ∷ (name ++ b'/' ∷ id)))
rejoined path pre name id parts ends =
    let (q, qs, e) = ends_in_network_inv pre ends in
    (
      join b'/' (q ∷ qs),
      lines-join q qs ∙ sym (ends_in_network-append q qs) ∙ rw (← e) ends,
      sym (join-split b'/' path)
          ∙ ap (join b'/')
              (parts ∙ rw e (append_assoc (q ∷ qs) (codes "network" ∷ []) (name ∷ id ∷ [])))
          ∙ join-append q qs (codes "network") (name ∷ id ∷ [])
          ∙ unfold join in refl,
    )

-- The test decides ^(.*/network/NAME/ID)$ with the expressions of a service name and of a peer id.
pub is_network_request_iff :
    (path : Text) → (is_network_request path ≡ true) ↔ Matches network_request_regex path
unfolding is_network_request
is_network_request_iff path = (from, to)
  where
    to : Matches network_request_regex path → is_network_request path ≡ true
    to (p, r, e, dots, (w, v, f, word, (name, r2, g, n, (slash, id, h, sl, i)))) =
        let line = (repeated_class (λ c. not (c == 10)) 0 none p).0 dots in
        let valid = (is_valid_service_name_iff name).1 n in
        let peer = (is_peer_id_iff id).1 i in
        rw (e, f, word, g, h, sl) (accepts p name id (sym (all-line p) ∙ line.0) valid peer)

    found :
        (pre : List Text) (name id : Text)
        → split b'/' path ≡ pre ++ name ∷ id ∷ []
        → (ends_in_network pre && is_valid_service_name name && is_peer_id id) ≡ true
        → Matches network_request_regex path
    found pre name id parts h =
        let (ends, valid, peer) = and3 h in
        let (p, line, e) = rejoined path pre name id parts ends in
        (
          p,
          _,
          e,
          (repeated_class (λ c. not (c == 10)) 0 none p).1 (all-line p ∙ line, omega arith, tt),
          (
            codes "/network/",
            name ++ b'/' ∷ id,
            refl,
            refl,
            (
              name,
              b'/' ∷ id,
              refl,
              (is_valid_service_name_iff name).0 valid,
              (codes "/", id, refl, refl, (is_peer_id_iff id).0 peer),
            ),
          ),
        )

    from : is_network_request path ≡ true → Matches network_request_regex path
    from h = elim (last_two_inv (split b'/' path)) [
      | inl e ↦ absurd (clash (rw e at h))
      | inr (pre, name, id, e, parts) ↦ found pre name id parts (rw e at h)
    ]
      where
        clash : false ≡ true → ⊥
        clash x = cc
