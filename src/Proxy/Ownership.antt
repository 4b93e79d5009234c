-- ===== src/Proxy/Ownership.antt =====
-- Which peers the machine behind a proxy owns, as its "connect" and "disconnect" frames tell
-- (the read loop of proxy.go).
use discovery_self.Base.{
  ℕ, List, [], ◌∷◌, ◌++◌, some, Text, text_eq, ◌≡◌, refl, ◌∙◌, All, Bool, true, false, ◌==◌, ==_iff,
  arith, elem, flat_map, not, ◌||◌, Bool-cases, inl, inr, ◌&&◌,
}
use discovery_self.Env.{Env, connect, disconnect}
use discovery_self.Model.{State, ControlConnection, ProxyConnection}
use discovery_self.Step.{ok}
use discovery_self.Step.Emits.{IsLive}
use discovery_self.Live.{wire, told_owned, tell_owned}
use discovery_self.Proxy.{handle, handle_wire, handle_message, insert_key, delete_key, update}

pub elem-append : (k : ℕ) (xs ys : List ℕ) → elem k (xs ++ ys) ≡ (elem k xs || elem k ys)
elem-append k [] ys = refl
elem-append k (x ∷ xs) ys = ground (arith, elem-append k xs ys)

pub elem-insert_key : (j k : ℕ) (ks : List ℕ) → elem j (insert_key k ks) ≡ (k == j || elem j ks)
unfolding insert_key
elem-insert_key j k ks = elim (Bool-cases (elem k ks)) [
  | inl old ↦ rw old (already (elem j ks) old)
  | inr new ↦ rw new (elem-append j ks (k ∷ []) ∙ flip (elem j ks) (k == j))
]
  where
    already : (b : Bool) → elem k ks ≡ true → elem j ks ≡ (k == j || elem j ks)
    already b old = elim (Bool-cases (k == j)) [
      | inl same ↦ rw same (rw ((==_iff k j).0 same) at old)
      | inr other ↦ rw other refl
    ]

    flip : (a b : Bool) → (a || (b || false)) ≡ (b || a)
    flip true true = refl
    flip true false = refl
    flip false true = refl
    flip false false = refl

pub elem-delete_key :
    (j k : ℕ) (ks : List ℕ) → elem j (delete_key k ks) ≡ (not (k == j) && elem j ks)
unfolding delete_key
elem-delete_key j k [] = ground arith
elem-delete_key j k (x ∷ ks) = ground (arith, elem-delete_key j k ks)

abbrev pub owned : Env → Text → ℕ → ProxyConnection → (List ℕ → List ℕ) → State → State
owned env action k p f s = record s {
  maps = update s.maps p.peers (f (s.maps p.peers));
  out = s.out ++ flat_map (told_owned env action k) s.sock.controllers;
}

-- A "connect" frame adds its target to the ids that the proxy owns and tells every controller so.
pub handle-connect :
    (env : Env) (p : ProxyConnection) (text payload : Text) (i k : ℕ) (s : State)
    → All (λ (c : ControlConnection). IsLive c.ws) s.sock.controllers
    → env.unmarshal text ≡ some (wire connect i k payload)
    → handle env p text s ≡ ok (owned env connect k p (insert_key k) s)
unfolding handle handle_wire handle_message text_eq
handle-connect env p text payload i k s h e = rw e (tell_owned env connect k s.sock.controllers _ h)

pub handle-disconnect :
    (env : Env) (p : ProxyConnection) (text payload : Text) (i k : ℕ) (s : State)
    → All (λ (c : ControlConnection). IsLive c.ws) s.sock.controllers
    → env.unmarshal text ≡ some (wire disconnect i k payload)
    → handle env p text s ≡ ok (owned env disconnect k p (delete_key k) s)
unfolding handle handle_wire handle_message text_eq
handle-disconnect env p text payload i k s h e =
    rw e (tell_owned env disconnect k s.sock.controllers _ h)
