-- ===== src/Tests/Codec.antt =====
-- An environment of the program: a codec of wire messages that keeps the length of the action before
-- it, a platform, and maps that are ranged over in the order in which their keys were written.
use mathlib.Core.List.Perm
use discovery_self.Base.{
  ℕ, zero, suc, [], ◌∷◌, ◌++◌, Option, none, some, Text, codes, length, ◌≡◌, refl, true,
}
use discovery_self.Env.{WireMessage, Env, IsEnv}

abbrev after_action : Text → Option WireMessage
after_action (s ∷ t ∷ p) = some (record { action = []; source = s; target = t; payload = p })
after_action _ = none

abbrev put_first : ℕ → Option WireMessage → Option WireMessage
put_first c none = none
put_first c (some m) = some (record m { action = c ∷ m.action })

abbrev decode : ℕ → Text → Option WireMessage
decode zero rest = after_action rest
decode (suc n) [] = none
decode (suc n) (c ∷ cs) = put_first c (decode n cs)

abbrev pub unmarshal : Text → Option WireMessage
unmarshal [] = none
unmarshal (n ∷ rest) = decode n rest

abbrev pub marshal : WireMessage → Text
marshal m = length m.action ∷ (m.action ++ m.source ∷ m.target ∷ m.payload)

abbrev pub env : Env
env = record {
  goos = codes "linux";
  goarch = codes "amd64";
  icon_path = some (codes "/home/Mediascape.png");
  marshal = λ m. some (marshal m);
  unmarshal = unmarshal;
  valid_utf8 = λ _. true;
  range_order = λ ks. ks;
}

decode-append :
    (a : Text) (s t : ℕ) (p : Text)
    → decode (length a) (a ++ s ∷ t ∷ p)
      ≡ some (record { action = a; source = s; target = t; payload = p })
decode-append [] s t p = refl
decode-append (c ∷ a) s t p = rw (decode-append a s t p) refl

pub env-IsEnv : IsEnv env
env-IsEnv = record {
  json = λ m ha hp. (marshal m, refl, decode-append m.action m.source m.target m.payload);
  coerced =
      λ m ha. (marshal m, m.payload, refl, decode-append m.action m.source m.target m.payload);
  ascii = (refl, refl, refl, refl, refl);
  range_perm = λ ks. Perm.refl ks;
}
