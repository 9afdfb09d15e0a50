-- ===== src/Prelude/Digits.antt =====
-- The bytes of a number, lowest first, and the number that bytes make.
use Prim.Native.Nat.{ℕ, zero, suc, ◌+◌, ◌*◌, ◌/◌, ◌%◌, ◌^◌, ◌<◌}
use mathlib.Core.Path.{◌≡◌, refl}
use native.Mathlib.Omega.{arith}
use native.Mathlib.Nat.{mul_assoc}

-- Byte `k` of a value.
unfoldable pub byte : ℕ → ℕ → ℕ
byte v zero = v % 2 ^ 8
byte v (suc k) = byte (v / 2 ^ 8) k

pub byte_first : (v : ℕ) → byte v 0 ≡ v % 2 ^ 8
unfolding byte
byte_first v = refl

pub byte_next : (v k : ℕ) → byte (v / 2 ^ 8) k ≡ byte v (suc k)
unfolding byte
byte_next v k = refl

pub byte-lt : (v k : ℕ) → byte v k < 2 ^ 8
unfolding byte
byte-lt v zero = omega arith
byte-lt v (suc k) = byte-lt (v / 2 ^ 8) k

-- The number of the `n` lowest bytes of a value.
unfoldable pub assembled : ℕ → ℕ → ℕ
assembled zero v = 0
assembled (suc n) v = v % 2 ^ 8 + assembled n (v / 2 ^ 8) * 2 ^ 8

pub assembled_one : (v : ℕ) → assembled 1 v ≡ v % 2 ^ 8
unfolding assembled
assembled_one v = omega arith

pub assembled_two : (v : ℕ) → assembled 2 v ≡ v % 2 ^ 16
unfolding assembled
assembled_two v = omega arith

pub assembled_four : (v : ℕ) → assembled 4 v ≡ v % 2 ^ 32
unfolding assembled
assembled_four v = omega arith

pub assembled_eight : (v : ℕ) → assembled 8 v ≡ v % 2 ^ 64
unfolding assembled
assembled_eight v = omega arith

-- 2 ^ (8 * k)
unfoldable pub limit : ℕ → ℕ
limit zero = 1
limit (suc k) = limit k * 2 ^ 8

-- The highest byte last.
pub assembled_last : (n v : ℕ) → assembled (suc n) v ≡ byte v n * limit n + assembled n v
unfolding assembled limit byte
assembled_last zero v = omega arith
assembled_last (suc n) v =
    omega (arith, assembled_last n (v / 2 ^ 8), mul_assoc (byte (v / 2 ^ 8) n) (limit n) (2 ^ 8))
