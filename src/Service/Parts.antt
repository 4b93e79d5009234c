-- ===== src/Service/Parts.antt =====
-- The paths of sockets, of their peers and of their controllers, and their parts (service.go).
use discovery_self.Base.{
  [], ◌∷◌, ◌++◌, Text, codes, ◌≡◌, refl, ap, ◌∙◌, Bool, true, false, ◌&&◌, split, lacks,
  split-lacks, split-append, all_digits, arith,
}
use discovery_self.Service.{is_valid_service_name, is_peer_id, all_name_chars, begins_with_peer_id}

-- Neither a service name nor a peer id holds a slash.
pub name_lacks_slash : (name : Text) → all_name_chars name ≡ true → lacks b'/' name ≡ true
unfolding all_name_chars lacks
name_lacks_slash [] h = refl
name_lacks_slash (c ∷ cs) h = ground (arith, name_lacks_slash cs)

digits_lack_slash : (id : Text) → all_digits id ≡ true → lacks b'/' id ≡ true
unfolding all_digits lacks
digits_lack_slash [] h = refl
digits_lack_slash (c ∷ cs) h = ground (arith, digits_lack_slash cs)

pub valid_lacks_slash : (name : Text) → is_valid_service_name name ≡ true → lacks b'/' name ≡ true
unfolding is_valid_service_name
valid_lacks_slash name h = name_lacks_slash name (first (all_name_chars name) _ _ h)
  where
    first : (a b c : Bool) → (a && b && c) ≡ true → a ≡ true
    first a b c e = ground arith

pub id_lacks_slash : (id : Text) → is_peer_id id ≡ true → lacks b'/' id ≡ true
unfolding is_peer_id
id_lacks_slash id h = digits_lack_slash id (first (all_digits id) _ h)
  where
    first : (a b : Bool) → (a && b) ≡ true → a ≡ true
    first a b e = ground arith

pub id_begins : (id : Text) → is_peer_id id ≡ true → begins_with_peer_id id ≡ true
unfolding is_peer_id begins_with_peer_id all_digits
id_begins [] h = cc
id_begins (a ∷ []) h = ground arith
id_begins (a ∷ b ∷ []) h = ground arith
id_begins (a ∷ b ∷ c ∷ []) h = ground arith
id_begins (a ∷ b ∷ c ∷ d ∷ rest) h = ground arith

-- The two scopes of a socket.
pub data Scope : Type 0 where
  network local : Scope

abbrev pub scope_text : Scope → Text
scope_text network = codes "network"
scope_text local = codes "local"

abbrev pub is_network : Scope → Bool
is_network network = true
is_network local = false

-- /SCOPE/NAME, that with the id behind it, and the path of its control connection.
abbrev pub socket_path : Scope → Text → Text
socket_path scope name = b'/' ∷ (scope_text scope ++ b'/' ∷ name)

abbrev pub peer_path : Scope → Text → Text → Text
peer_path scope name id = b'/' ∷ (scope_text scope ++ b'/' ∷ (name ++ b'/' ∷ id))

abbrev pub control_path : Scope → Text → Text → Text
control_path scope name id = codes "/control" ++ peer_path scope name id

pub scope_lacks_slash : (scope : Scope) → lacks b'/' (scope_text scope) ≡ true
unfolding lacks
scope_lacks_slash network = refl
scope_lacks_slash local = refl

tail_split :
    (scope : Scope) (name id : Text)
    → lacks b'/' name ≡ true
    → lacks b'/' id ≡ true
    → split b'/' (scope_text scope ++ b'/' ∷ (name ++ b'/' ∷ id))
      ≡ scope_text scope ∷ name ∷ id ∷ []
tail_split scope name id hn hi =
    split-append b'/' (scope_text scope) _ (scope_lacks_slash scope)
    ∙ ap (λ l. scope_text scope ∷ l)
        (split-append b'/' name id hn ∙ ap (λ l. name ∷ l) (split-lacks b'/' id hi))

pub split-peer_path :
    (scope : Scope) (name id : Text)
    → lacks b'/' name ≡ true
    → lacks b'/' id ≡ true
    → split b'/' (peer_path scope name id) ≡ [] ∷ scope_text scope ∷ name ∷ id ∷ []
split-peer_path scope name id hn hi =
    split-append b'/' [] _ (unfold lacks in refl)
    ∙ ap (λ l. [] ∷ l) (tail_split scope name id hn hi)

pub split-control_path :
    (scope : Scope) (name id : Text)
    → lacks b'/' name ≡ true
    → lacks b'/' id ≡ true
    → split b'/' (control_path scope name id)
      ≡ [] ∷ codes "control" ∷ scope_text scope ∷ name ∷ id ∷ []
split-control_path scope name id hn hi =
    split-append b'/' [] _ (unfold lacks in refl)
    ∙ ap (λ l. [] ∷ l)
        (split-append b'/' (codes "control") _ (unfold lacks in refl)
          ∙ ap (λ l. codes "control" ∷ l) (tail_split scope name id hn hi))
