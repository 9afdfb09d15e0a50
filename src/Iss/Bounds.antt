-- ===== src/Iss/Bounds.antt =====
-- Every value that an instruction writes is a 64-bit pattern.
use native.Mathlib.Nat.{div-le_self, mod-le}
use rv64_ooo_core.Prelude.{
  ℕ, ◌/◌, ◌%◌, ◌^◌, ◌<◌, arith, one_if, if◌then◌else◌, bit_and, bit_or, bit_xor, Option, none, some,
  Bool, true, false,
}
use rv64_ooo_core.Prelude.Bits.{bit_and-lt, bit_or-lt, bit_xor-lt}
use rv64_ooo_core.Prelude.Word.{ℤ, pos, negsuc, wrap, ◌>>◌}
use rv64_ooo_core.Iss.Alu.{
  all_ones, int64_min, op_imm, mul, mulh, mulhsu, mulhu, div, divu, rem, remu, op_m, op_base, op,
  op_imm_w, op_m_w, op_base_w, op_w,
}

-- A result, if there is one, fits.
pub data Fits64 : Option ℕ → Type 0 where
  nothing : Fits64 none
  value : (v : ℕ) → v < 2 ^ 64 → Fits64 (some v)

pub if-Fits64 : (b : Bool) (p q : Option ℕ) → Fits64 p → Fits64 q → Fits64 (if b then p else q)
if-Fits64 true p q hp hq = hp
if-Fits64 false p q hp hq = hq

pub if-lt : (b : Bool) (p q n : ℕ) → p < n → q < n → (if b then p else q) < n
if-lt true p q n hp hq = hp
if-lt false p q n hp hq = hq

pub wrap-lt : (z : ℤ) → wrap 64 z < 2 ^ 64
wrap-lt (pos n) = omega arith
wrap-lt (negsuc n) = omega arith

one_if-lt : (b : Bool) → one_if b < 2 ^ 64
one_if-lt true = omega arith
one_if-lt false = omega arith

shr-lt : (a k : ℕ) → a < 2 ^ 64 → a >> k < 2 ^ 64
shr-lt a k h = omega (arith, div-le_self a (2 ^ k))

mod64-lt : (n : ℕ) → n % 2 ^ 64 < 2 ^ 64
mod64-lt n = omega arith

and64-lt : (a b : ℕ) → a < 2 ^ 64 → b < 2 ^ 64 → bit_and a b < 2 ^ 64
and64-lt = bit_and-lt 64

or64-lt : (a b : ℕ) → a < 2 ^ 64 → b < 2 ^ 64 → bit_or a b < 2 ^ 64
or64-lt = bit_or-lt 64

xor64-lt : (a b : ℕ) → a < 2 ^ 64 → b < 2 ^ 64 → bit_xor a b < 2 ^ 64
xor64-lt = bit_xor-lt 64

div64-lt : (a b : ℕ) → a < 2 ^ 64 → a / b < 2 ^ 64
div64-lt a b h = omega (arith, div-le_self a b)

rem64-lt : (a b : ℕ) → a < 2 ^ 64 → a % b < 2 ^ 64
rem64-lt a b h = omega (arith, mod-le a b)

zero64-lt : 0 < 2 ^ 64
zero64-lt = omega arith

all_ones-lt : all_ones < 2 ^ 64
all_ones-lt = omega arith

int64_min-lt : int64_min < 2 ^ 64
int64_min-lt = omega arith

ruleset fits_rules = (
  if-Fits64, if-lt, nothing, value, wrap-lt, one_if-lt, shr-lt, div64-lt, rem64-lt, mod64-lt,
  and64-lt, or64-lt, xor64-lt, zero64-lt, all_ones-lt, int64_min-lt,
)

module _ (a b : ℕ) (ha : a < 2 ^ 64) (hb : b < 2 ^ 64) where
  pub op_imm-Fits64 : (funct3 funct7 shamt : ℕ) → Fits64 (op_imm funct3 funct7 a b shamt)
  unfolding op_imm
  op_imm-Fits64 funct3 funct7 shamt = search fits_rules depth 30

  op_m-lt : (funct3 : ℕ) → op_m funct3 a b < 2 ^ 64
  unfolding op_m mul mulh mulhsu mulhu div divu rem remu
  op_m-lt funct3 = search fits_rules depth 30

  op_base-Fits64 : (funct3 funct7 : ℕ) → Fits64 (op_base funct3 funct7 a b)
  unfolding op_base
  op_base-Fits64 funct3 funct7 = search fits_rules depth 30

  pub op-Fits64 : (funct3 funct7 : ℕ) → Fits64 (op funct3 funct7 a b)
  unfolding op
  op-Fits64 funct3 funct7 =
      if-Fits64 _ _ _ (value _ (op_m-lt funct3)) (op_base-Fits64 funct3 funct7)

-- The results of 32 bits are sign-extended, so they fit whatever the operands are.
module _ (a b : ℕ) where
  pub op_imm_w-Fits64 : (funct3 funct7 shamtw : ℕ) → Fits64 (op_imm_w funct3 funct7 a b shamtw)
  unfolding op_imm_w
  op_imm_w-Fits64 funct3 funct7 shamtw = search fits_rules depth 30

  op_m_w-Fits64 : (funct3 : ℕ) → Fits64 (op_m_w funct3 a b)
  unfolding op_m_w
  op_m_w-Fits64 funct3 = search fits_rules depth 30

  op_base_w-Fits64 : (funct3 funct7 : ℕ) → Fits64 (op_base_w funct3 funct7 a b)
  unfolding op_base_w
  op_base_w-Fits64 funct3 funct7 = search fits_rules depth 30

  pub op_w-Fits64 : (funct3 funct7 : ℕ) → Fits64 (op_w funct3 funct7 a b)
  unfolding op_w
  op_w-Fits64 funct3 funct7 =
      if-Fits64 _ _ _ (op_m_w-Fits64 funct3) (op_base_w-Fits64 funct3 funct7)
