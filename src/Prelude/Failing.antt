-- ===== src/Prelude/Failing.antt =====
-- Code that may stop with a failure: `none` is the failure, after `exit(1)` or `return false`.
use mathlib.Core.Path.{◌≡◌, refl}
use mathlib.Core.Bool.{Bool, true, false}
use mathlib.Core.Option
use mathlib.Core.Option.{Option, none, some}

infixl 5 ◌>>=◌ ◌>>◌
abbrev pub ◌>>=◌ {ℓ κ} : {A : Type ℓ} {B : Type κ} → Option A → (A → Option B) → Option B
none >>= f = none
some a >>= f = f a

abbrev pub ◌>>◌ {ℓ} : {B : Type ℓ} → Option (Unit {0}) → Option B → Option B
none >> k = none
some _ >> k = k

-- A check that stops the run if it fails.
abbrev pub require : Bool → Option (Unit {0})
require true = some tt
require false = none

abbrev pub is_some {ℓ} : {A : Type ℓ} → Option A → Bool
is_some none = false
is_some (some a) = true

-- What a check passed returns.
pub passed {ℓ} :
    {A : Type ℓ} (b : Bool) (x y : A) → (require b >> some x) ≡ some y → (b ≡ true) × (x ≡ y)
passed true x y h = (refl, Option.some_inj.0 h)
passed false x y h = absurd (let e = h in cc)

-- A sequence that does not fail has a first part that does not.
pub bound {ℓ κ} :
    {A : Type ℓ} {B : Type κ} (m : Option A) (f : A → Option B) (y : B)
    → (m >>= f) ≡ some y
    → (x : A) × (m ≡ some x) × (f x ≡ some y)
bound none f y h = absurd (let e = h in cc)
bound (some x) f y h = (x, refl, h)
