-- ===== src/Step/Inversion.antt =====
-- What is known of a statement that returned.
use discovery_self.Base.{◌≡◌, refl}
use discovery_self.Step.{Result, ok, crash, ◌>>=◌}

pub ok_eq {ℓ} : {A : Type ℓ} {a b : A} → ok a ≡ ok b → a ≡ b
ok_eq h = cc

pub then_inv {ℓ κ} :
    {A : Type ℓ} {B : Type κ} (r : Result A) (f : A → Result B) {b : B}
    → (r >>= f) ≡ ok b
    → (a : A) × (r ≡ ok a) × (f a ≡ ok b)
then_inv (ok a) f e = (a, refl, e)
then_inv (crash x) f e = cc
