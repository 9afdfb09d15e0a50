-- ===== src/Iss/Fields.antt =====
-- The decoder of `Iss::step` as arithmetic: each field is a quotient and a remainder, and `sext` gives
-- the pattern of the signed value.
use rv64_ooo_core.Prelude.{
  ℕ, suc, ◌+◌, ◌-◌, ◌*◌, ◌/◌, ◌%◌, ◌^◌, ◌≤◌, ◌<◌, ◌≡◌, ◌∙◌, ap, arith, bit_and, bit_or,
}
use native.Mathlib.Nat.{pow-suc}
use rv64_ooo_core.Prelude.Bits.{bit_and_mask, bit_and-blocks, bit_and-zero, bit_or_low, bit_xor_top}
use rv64_ooo_core.Prelude.Word.{signed, wrap, sx32, ◌<<◌, ◌>>◌}
use rv64_ooo_core.Iss.Decode.{
  sext, opcode_of, rd_of, funct3_of, rs1_of, rs2_of, funct7_of, i_imm, s_imm, b_imm, u_imm, j_imm,
}

-- `sext` of a value of `bits` bits is the 64-bit pattern of its signed value.
pub sext-eq-wrap :
    (bits v : ℕ)
    → 0 < bits
    → 2 ^ bits ≤ 2 ^ 63
    → v < 2 ^ bits
    → sext v bits ≡ wrap 64 (signed bits v)
unfolding sext
sext-eq-wrap bits v some_bits small h =
    let e : bits ≡ suc (bits - 1) = omega arith in
    let p : 2 ^ bits ≡ 2 * 2 ^ (bits - 1) =
      ap (λ (n : ℕ). 2 ^ n) e ∙ omega (arith, pow-suc 2 (bits - 1)) in
    ground (arith, bit_xor_top (bits - 1) v (rw (← e) h), p)

-- The fields, lowest first.
pub opcode_of-eq : (insn : ℕ) → opcode_of insn ≡ insn % 2 ^ 7
unfolding opcode_of
opcode_of-eq insn = bit_and_mask 7 insn

pub rd_of-eq : (insn : ℕ) → rd_of insn ≡ insn / 2 ^ 7 % 2 ^ 5
unfolding rd_of
rd_of-eq insn = bit_and_mask 5 (insn / 2 ^ 7)

pub funct3_of-eq : (insn : ℕ) → funct3_of insn ≡ insn / 2 ^ 12 % 2 ^ 3
unfolding funct3_of
funct3_of-eq insn = bit_and_mask 3 (insn / 2 ^ 12)

pub rs1_of-eq : (insn : ℕ) → rs1_of insn ≡ insn / 2 ^ 15 % 2 ^ 5
unfolding rs1_of
rs1_of-eq insn = bit_and_mask 5 (insn / 2 ^ 15)

pub rs2_of-eq : (insn : ℕ) → rs2_of insn ≡ insn / 2 ^ 20 % 2 ^ 5
unfolding rs2_of
rs2_of-eq insn = bit_and_mask 5 (insn / 2 ^ 20)

pub funct7_of-eq : (insn : ℕ) → funct7_of insn ≡ insn / 2 ^ 25 % 2 ^ 7
unfolding funct7_of
funct7_of-eq insn = bit_and_mask 7 (insn / 2 ^ 25)

-- The immediates of an instruction of 32 bits.
abbrev pub sign_extended : ℕ → ℕ → ℕ
sign_extended bits v = wrap 64 (signed bits v)

pub i_imm-eq : (insn : ℕ) → insn < 2 ^ 32 → i_imm insn ≡ sign_extended 12 (insn / 2 ^ 20)
unfolding i_imm
i_imm-eq insn h = sext-eq-wrap 12 (insn / 2 ^ 20) (omega arith) (omega arith) (omega arith)

s_bits :
    (insn : ℕ)
    → bit_or ((insn >> 25) << 5) (bit_and (insn >> 7) 0x1f)
      ≡ insn / 2 ^ 25 * 2 ^ 5 + insn / 2 ^ 7 % 2 ^ 5
s_bits insn = ground (
  arith,
  bit_and_mask 5 (insn / 2 ^ 7),
  bit_or_low 5 (insn / 2 ^ 25 * 2 ^ 5) (insn / 2 ^ 7 % 2 ^ 5),
)

pub s_imm-eq :
    (insn : ℕ)
    → insn < 2 ^ 32
    → s_imm insn ≡ sign_extended 12 (insn / 2 ^ 25 * 2 ^ 5 + insn / 2 ^ 7 % 2 ^ 5)
unfolding s_imm
s_imm-eq insn h = rw (s_bits insn) (
    sext-eq-wrap 12 (insn / 2 ^ 25 * 2 ^ 5 + insn / 2 ^ 7 % 2 ^ 5) (omega arith) (omega arith)
      (omega arith))

-- The bits of a branch offset and of a jump offset, put in order.
abbrev pub b_value : ℕ → ℕ
b_value insn =
    insn / 2 ^ 31 % 2 * 2 ^ 12
    + insn / 2 ^ 7 % 2 * 2 ^ 11
    + insn / 2 ^ 25 % 2 ^ 6 * 2 ^ 5
    + insn / 2 ^ 8 % 2 ^ 4 * 2

abbrev pub j_value : ℕ → ℕ
j_value insn =
    insn / 2 ^ 31 % 2 * 2 ^ 20
    + insn / 2 ^ 12 % 2 ^ 8 * 2 ^ 12
    + insn / 2 ^ 20 % 2 * 2 ^ 11
    + insn / 2 ^ 21 % 2 ^ 10 * 2

-- Four fields that do not overlap.
or_fields :
    (i j k a b c d : ℕ)
    → a % 2 ^ i ≡ 0
    → b < 2 ^ i
    → (a + b) % 2 ^ j ≡ 0
    → c < 2 ^ j
    → (a + b + c) % 2 ^ k ≡ 0
    → d < 2 ^ k
    → bit_or (bit_or (bit_or a b) c) d ≡ a + b + c + d
or_fields i j k a b c d ha hb hab hc habc hd =
    rw (bit_or_low i a b ha hb, bit_or_low j (a + b) c hab hc) (bit_or_low k (a + b + c) d habc hd)

pub b_imm-eq : (insn : ℕ) → insn < 2 ^ 32 → b_imm insn ≡ sign_extended 13 (b_value insn)
unfolding b_imm
b_imm-eq insn h =
    rw
      (
        bit_and_mask 1 (insn / 2 ^ 31),
        bit_and_mask 1 (insn / 2 ^ 7),
        bit_and_mask 6 (insn / 2 ^ 25),
        bit_and_mask 4 (insn / 2 ^ 8),
        or_fields 12 11 5 (insn / 2 ^ 31 % 2 * 2 ^ 12) (insn / 2 ^ 7 % 2 * 2 ^ 11)
            (insn / 2 ^ 25 % 2 ^ 6 * 2 ^ 5) (insn / 2 ^ 8 % 2 ^ 4 * 2) (omega arith) (omega arith)
            (omega arith) (omega arith) (omega arith) (omega arith),
      )
      (sext-eq-wrap 13 (b_value insn) (omega arith) (omega arith) (omega arith))

pub j_imm-eq : (insn : ℕ) → insn < 2 ^ 32 → j_imm insn ≡ sign_extended 21 (j_value insn)
unfolding j_imm
j_imm-eq insn h =
    rw
      (
        bit_and_mask 1 (insn / 2 ^ 31),
        bit_and_mask 8 (insn / 2 ^ 12),
        bit_and_mask 1 (insn / 2 ^ 20),
        bit_and_mask 10 (insn / 2 ^ 21),
        or_fields 20 12 11 (insn / 2 ^ 31 % 2 * 2 ^ 20) (insn / 2 ^ 12 % 2 ^ 8 * 2 ^ 12)
            (insn / 2 ^ 20 % 2 * 2 ^ 11) (insn / 2 ^ 21 % 2 ^ 10 * 2) (omega arith) (omega arith)
            (omega arith) (omega arith) (omega arith) (omega arith),
      )
      (sext-eq-wrap 21 (j_value insn) (omega arith) (omega arith) (omega arith))

-- `insn & 0xfffff000`
pub high_mask : (v : ℕ) → v < 2 ^ 32 → bit_and v 0xfffff000 ≡ v / 2 ^ 12 * 2 ^ 12
high_mask v h =
    ap (λ (n : ℕ). bit_and n 0xfffff000) {y = v / 2 ^ 12 * 2 ^ 12 + v % 2 ^ 12} (omega arith)
    ∙ (bit_and-blocks 12 (v / 2 ^ 12) 0xfffff (v % 2 ^ 12) 0 (omega arith) (omega arith)
        ∙ rw (bit_and_mask 20 (v / 2 ^ 12), bit_and-zero) (omega arith))

pub u_imm-eq : (insn : ℕ) → insn < 2 ^ 32 → u_imm insn ≡ sx32 (insn / 2 ^ 12 * 2 ^ 12)
unfolding u_imm
u_imm-eq insn h = ap sx32 (high_mask insn h)
