-- ===== src/Proxy/Frames.antt =====
-- What the frames on a proxy's connection do to the ids that it owns, one after another (the read loop
-- of proxy.go).
use discovery_self.Base.{
  ℕ, List, [], ◌∷◌, ◌++◌, Option, none, some, Text, text_eq, ◌≡◌, refl, All, flat_map, true, false,
  if◌then◌else◌, ◌==◌, Bool-cases, inl, inr,
}
use discovery_self.Env.{Env, IsEnv, WireMessage, connect, disconnect}
use discovery_self.Model.{Effect}
use discovery_self.Step.Emits.{sent_wire}
use discovery_self.Step.Writes.{writes_to, writes_to-append}
use discovery_self.Proxy.{insert_key, delete_key}

-- The ids that are owned after a wire message, and after a frame.
abbrev pub owner_change : Option WireMessage → List ℕ → List ℕ
owner_change none ks = ks
owner_change (some m) ks =
    if text_eq m.action connect
    then insert_key m.target ks
    else if text_eq m.action disconnect
    then delete_key m.target ks
    else ks

abbrev pub absorb : Env → List Text → List ℕ → List ℕ
absorb env [] ks = ks
absorb env (f ∷ fs) ks = absorb env fs (owner_change (env.unmarshal f) ks)

-- Effects that write no "connect" and no "disconnect" to connection `c`.
abbrev pub Silent : Env → ℕ → List Effect → Type 0
Silent env c es = (ks : List ℕ) → absorb env (writes_to c es) ks ≡ ks

module _ (env : Env) (c : ℕ) where
  pub absorb-append :
      (fs gs : List Text) (ks : List ℕ)
      → absorb env (fs ++ gs) ks ≡ absorb env gs (absorb env fs ks)
  absorb-append [] gs ks = refl
  absorb-append (f ∷ fs) gs ks = absorb-append fs gs (owner_change (env.unmarshal f) ks)

  pub quiet-Silent : (es : List Effect) → writes_to c es ≡ [] → Silent env c es
  quiet-Silent es e ks = rw e refl

  pub append-Silent :
      (es fs : List Effect) → Silent env c es → Silent env c fs → Silent env c (es ++ fs)
  append-Silent es fs h k ks =
      rw (writes_to-append c es fs, absorb-append (writes_to c es) (writes_to c fs) ks, h ks) (k ks)

  pub flat_map-Silent {ℓ} :
      {A : Type ℓ} (f : A → List Effect) (xs : List A)
      → All (λ x. Silent env c (f x)) xs
      → Silent env c (flat_map f xs)
  flat_map-Silent f [] h ks = refl
  flat_map-Silent f (x ∷ xs) h ks =
      append-Silent (f x) (flat_map f xs) h.0 (flat_map-Silent f xs h.1) ks

  -- A wire message of another action, wherever it goes.
  pub sent_wire-Silent :
      (spec : IsEnv env) (ws : Option ℕ) (m : WireMessage)
      → env.valid_utf8 m.action ≡ true
      → text_eq m.action connect ≡ false
      → text_eq m.action disconnect ≡ false
      → Silent env c (sent_wire env ws m)
  sent_wire-Silent spec none m valid not_on not_off ks =
      let (t, p, enc, dec) = spec.coerced m valid in rw enc refl
  sent_wire-Silent spec (some d) m valid not_on not_off ks =
      let (t, p, enc, dec) = spec.coerced m valid in
      elim (Bool-cases (d == c)) [
        | inl hit ↦ rw (enc, hit, dec, not_on, not_off) refl
        | inr miss ↦ rw (enc, miss) refl
      ]
