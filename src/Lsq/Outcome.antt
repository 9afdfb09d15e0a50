-- ===== src/Lsq/Outcome.antt =====
-- How the functions of sim/lsq/tb_lsq.cpp end.
use rv64_ooo_core.Prelude.{Bool, true, false, ◌≡◌, refl}

-- How a function of the testbench ends: `return false`, or an access outside `mem`, which C++ does not
-- define, or a result.
pub data Outcome {ℓ} (A : Type ℓ) : Type ℓ where
  ok : A → Outcome A
  failed : Outcome A
  out_of_bounds : Outcome A

infixl 5 ◌>>=◌ ◌>>◌
abbrev pub ◌>>=◌ {ℓ κ} : {A : Type ℓ} {B : Type κ} → Outcome A → (A → Outcome B) → Outcome B
ok a >>= f = f a
failed >>= f = failed
out_of_bounds >>= f = out_of_bounds

abbrev pub ◌>>◌ {ℓ} : {B : Type ℓ} → Outcome (Unit {0}) → Outcome B → Outcome B
m >> k = m >>= λ _. k

-- `if (!b) return false;`
abbrev pub require : Bool → Outcome (Unit {0})
require true = ok tt
require false = failed

abbrev pub within : Bool → Outcome (Unit {0})
within true = ok tt
within false = out_of_bounds

-- The first part of a sequence that ends well ends well.
pub bound {ℓ κ} :
    {A : Type ℓ} {B : Type κ} (m : Outcome A) (f : A → Outcome B) (y : B)
    → (m >>= f) ≡ ok y
    → (x : A) × (m ≡ ok x) × (f x ≡ ok y)
bound (ok x) f y h = (x, refl, h)
bound failed f y h = absurd (let e = h in cc)
bound out_of_bounds f y h = absurd (let e = h in cc)

pub required {ℓ} :
    {A : Type ℓ} (b : Bool) (k : Outcome A) (y : A)
    → (require b >> k) ≡ ok y
    → (b ≡ true) × (k ≡ ok y)
required true k y h = (refl, h)
required false k y h = absurd (let e = h in cc)

pub within_ok {ℓ} :
    {A : Type ℓ} (b : Bool) (k : Outcome A) (y : A)
    → (within b >> k) ≡ ok y
    → (b ≡ true) × (k ≡ ok y)
within_ok true k y h = (refl, h)
within_ok false k y h = absurd (let e = h in cc)
