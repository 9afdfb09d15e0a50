-- ===== src/Prelude/Word.antt =====
-- Machine words: a `uint64_t`, an `int32_t` and so on are the numbers of their bit patterns, and
-- `signed` is the integer that a pattern stands for.
use Prim.Native.Nat.{ℕ, zero, suc, ◌+◌, ◌-◌, ◌*◌, ◌/◌, ◌%◌, ◌^◌}
use mathlib.Core.Bool.{Bool, true, false}
use rv64_ooo_core.Prelude.Tests.{ltb, leb, if◌then◌else◌}

-- `negsuc n` is -(n + 1).
pub data ℤ : Type 0 where
  pos : ℕ → ℤ
  negsuc : ℕ → ℤ

abbrev pub is_neg : ℤ → Bool
is_neg (pos n) = false
is_neg (negsuc n) = true

abbrev pub abs : ℤ → ℕ
abs (pos n) = n
abs (negsuc n) = suc n

-- The integer of a size, negated on demand; there is no -0.
abbrev pub with_sign : Bool → ℕ → ℤ
with_sign false n = pos n
with_sign true zero = pos 0
with_sign true (suc n) = negsuc n

abbrev pub differs : Bool → Bool → Bool
differs false b = b
differs true false = true
differs true true = false

infixl 70 ◌*ℤ◌
abbrev pub ◌*ℤ◌ : ℤ → ℤ → ℤ
a *ℤ b = with_sign (differs (is_neg a) (is_neg b)) (abs a * abs b)

-- C's `/` and `%` on signed integers, which round to zero.
abbrev pub tdiv : ℤ → ℤ → ℤ
tdiv a b = with_sign (differs (is_neg a) (is_neg b)) (abs a / abs b)

abbrev pub trem : ℤ → ℤ → ℤ
trem a b = with_sign (is_neg a) (abs a % abs b)

-- A natural number added and subtracted.
abbrev pub add_ℤ : ℤ → ℕ → ℤ
add_ℤ (pos a) n = pos (a + n)
add_ℤ (negsuc a) n = if ltb a n then pos (n - suc a) else negsuc (a - n)

abbrev pub sub_ℤ : ℤ → ℕ → ℤ
sub_ℤ (pos a) n = if leb n a then pos (a - n) else negsuc (n - suc a)
sub_ℤ (negsuc a) n = negsuc (a + n)

-- `n - z`
abbrev pub from_ℕ_sub : ℕ → ℤ → ℤ
from_ℕ_sub n (pos a) = sub_ℤ (pos n) a
from_ℕ_sub n (negsuc a) = pos (n + suc a)

-- `n <= z`
abbrev pub at_least : ℕ → ℤ → Bool
at_least n (pos a) = leb n a
at_least n (negsuc a) = false

abbrev pub ltb_ℤ : ℤ → ℤ → Bool
ltb_ℤ (pos a) (pos b) = ltb a b
ltb_ℤ (pos a) (negsuc b) = false
ltb_ℤ (negsuc a) (pos b) = true
ltb_ℤ (negsuc a) (negsuc b) = ltb b a

-- The arithmetic shift to the right, which rounds down.
abbrev pub shr_ℤ : ℤ → ℕ → ℤ
shr_ℤ (pos n) k = pos (n / 2 ^ k)
shr_ℤ (negsuc n) k = negsuc (n / 2 ^ k)

-- The integer of a pattern of `w` bits, and the pattern that an integer is cut to.
abbrev pub signed : ℕ → ℕ → ℤ
signed w v = if ltb v (2 ^ (w - 1)) then pos v else negsuc (2 ^ w - 1 - v)

abbrev pub wrap : ℕ → ℤ → ℕ
wrap w (pos n) = n % 2 ^ w
wrap w (negsuc n) = 2 ^ w - 1 - n % 2 ^ w

abbrev pub u8 : ℕ → ℕ
u8 v = v % 2 ^ 8

abbrev pub u16 : ℕ → ℕ
u16 v = v % 2 ^ 16

abbrev pub u32 : ℕ → ℕ
u32 v = v % 2 ^ 32

abbrev pub u64 : ℕ → ℕ
u64 v = v % 2 ^ 64

-- `(uint64_t)(int64_t)(int32_t)v`
abbrev pub sx32 : ℕ → ℕ
sx32 v = wrap 64 (signed 32 (u32 v))

infixl 75 ◌<<◌ ◌>>◌
abbrev pub ◌<<◌ : ℕ → ℕ → ℕ
x << k = x * 2 ^ k

abbrev pub ◌>>◌ : ℕ → ℕ → ℕ
x >> k = x / 2 ^ k
