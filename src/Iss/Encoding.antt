-- ===== src/Iss/Encoding.antt =====
-- The R and I formats of model/test_iss.cpp against the decoder of `Iss::step`.
use rv64_ooo_core.Prelude.{ℕ, ◌+◌, ◌-◌, ◌*◌, ◌/◌, ◌%◌, ◌^◌, ◌≤◌, ◌<◌, ◌≡◌, ◌∙◌, ◌⊎◌, arith, bit_or}
use rv64_ooo_core.Prelude.Bits.{bit_and_mask, bit_or_low}
use rv64_ooo_core.Prelude.Word.{u32, sx32, ◌<<◌}
use rv64_ooo_core.Iss.Decode.{
  opcode_of, rd_of, funct3_of, rs1_of, rs2_of, funct7_of, i_imm, enc_r, enc_i,
}
use rv64_ooo_core.Iss.Fields.{
  opcode_of-eq, rd_of-eq, funct3_of-eq, rs1_of-eq, rs2_of-eq, funct7_of-eq, i_imm-eq, sign_extended,
}

-- The pattern of an `int32_t` from -2^(bits - 1) to 2^(bits - 1) - 1.
abbrev pub Fits : ℕ → ℕ → Type 0
Fits bits imm = (imm < 2 ^ 32) × ((imm < 2 ^ (bits - 1)) ⊎ (2 ^ 32 ≤ imm + 2 ^ (bits - 1)))

-- The low 12 bits determine the value.
pub sign_extended_twelve : (imm : ℕ) → Fits 12 imm → sign_extended 12 (imm % 2 ^ 12) ≡ sx32 imm
sign_extended_twelve imm fits = ground arith

pub sign_extended_thirteen : (imm : ℕ) → Fits 13 imm → sign_extended 13 (imm % 2 ^ 13) ≡ sx32 imm
sign_extended_thirteen imm fits = ground arith

pub sign_extended_twenty_one : (imm : ℕ) → Fits 21 imm → sign_extended 21 (imm % 2 ^ 21) ≡ sx32 imm
sign_extended_twenty_one imm fits = ground arith

module _ (rs1 funct3 rd opcode : ℕ) (r1 : rs1 < 2 ^ 5) (f3 : funct3 < 2 ^ 3) (d : rd < 2 ^ 5)
    (o : opcode < 2 ^ 7) where
  -- The lower fields, which the R and I formats share, under what stands above bit 20.
  low_fields :
      (high : ℕ)
      → high < 2 ^ 12
      → bit_or
          (bit_or
            (bit_or (bit_or (high * 2 ^ 20) (u32 (rs1 << 15))) (u32 (funct3 << 12)))
            (u32 (rd << 7)))
          opcode
        ≡ high * 2 ^ 20 + rs1 * 2 ^ 15 + funct3 * 2 ^ 12 + rd * 2 ^ 7 + opcode
  low_fields high h =
      let e1 : u32 (rs1 << 15) ≡ rs1 * 2 ^ 15 = omega arith in
      let e2 : u32 (funct3 << 12) ≡ funct3 * 2 ^ 12 = omega arith in
      let e3 : u32 (rd << 7) ≡ rd * 2 ^ 7 = omega arith in
      rw
        (
          e1,
          e2,
          e3,
          bit_or_low 20 (high * 2 ^ 20) (rs1 * 2 ^ 15) (omega arith) (omega arith),
          bit_or_low 15 (high * 2 ^ 20 + rs1 * 2 ^ 15) (funct3 * 2 ^ 12) (omega arith)
              (omega arith),
          bit_or_low 12 (high * 2 ^ 20 + rs1 * 2 ^ 15 + funct3 * 2 ^ 12) (rd * 2 ^ 7) (omega arith)
              (omega arith),
        )
        (bit_or_low 7 (high * 2 ^ 20 + rs1 * 2 ^ 15 + funct3 * 2 ^ 12 + rd * 2 ^ 7) opcode
          (omega arith) o)

  pub enc_r-eq :
      (funct7 rs2 : ℕ)
      → funct7 < 2 ^ 7
      → rs2 < 2 ^ 5
      → enc_r funct7 rs2 rs1 funct3 rd opcode
        ≡ (funct7 * 2 ^ 5 + rs2) * 2 ^ 20 + rs1 * 2 ^ 15 + funct3 * 2 ^ 12 + rd * 2 ^ 7 + opcode
  unfolding enc_r
  enc_r-eq funct7 rs2 f7 r2 =
      let e1 : u32 (funct7 << 25) ≡ funct7 * 2 ^ 25 = omega arith in
      let e2 : u32 (rs2 << 20) ≡ rs2 * 2 ^ 20 = omega arith in
      let e3 : funct7 * 2 ^ 25 + rs2 * 2 ^ 20 ≡ (funct7 * 2 ^ 5 + rs2) * 2 ^ 20 = omega arith in
      rw (e1, e2, bit_or_low 25 (funct7 * 2 ^ 25) (rs2 * 2 ^ 20) (omega arith) (omega arith), e3)
        (low_fields (funct7 * 2 ^ 5 + rs2) (omega arith))

  -- The decoder takes every field of an R-format word as `enc_r` put it there.
  pub decode-enc_r :
      (funct7 rs2 : ℕ)
      → funct7 < 2 ^ 7
      → rs2 < 2 ^ 5
      → let insn = enc_r funct7 rs2 rs1 funct3 rd opcode in
        (funct7_of insn ≡ funct7)
        × (rs2_of insn ≡ rs2)
        × (rs1_of insn ≡ rs1)
        × (funct3_of insn ≡ funct3)
        × (rd_of insn ≡ rd)
        × (opcode_of insn ≡ opcode)
  decode-enc_r funct7 rs2 f7 r2 =
      let insn = enc_r funct7 rs2 rs1 funct3 rd opcode in
      omega (
        arith,
        enc_r-eq funct7 rs2 f7 r2,
        funct7_of-eq insn,
        rs2_of-eq insn,
        rs1_of-eq insn,
        funct3_of-eq insn,
        rd_of-eq insn,
        opcode_of-eq insn,
      )

  enc_i-eq :
      (imm : ℕ)
      → enc_i imm rs1 funct3 rd opcode
        ≡ imm % 2 ^ 12 * 2 ^ 20 + rs1 * 2 ^ 15 + funct3 * 2 ^ 12 + rd * 2 ^ 7 + opcode
  unfolding enc_i
  enc_i-eq imm =
      let e : u32 ((imm % 2 ^ 12) << 20) ≡ imm % 2 ^ 12 * 2 ^ 20 = omega arith in
      rw (bit_and_mask 12 imm, e) (low_fields (imm % 2 ^ 12) (omega arith))

  -- The decoder takes every field of an I-format word as `enc_i` put it there, and the immediate with
  -- its sign, if it fits 12 bits.
  pub decode-enc_i :
      (imm : ℕ)
      → Fits 12 imm
      → let insn = enc_i imm rs1 funct3 rd opcode in
        (i_imm insn ≡ sx32 imm)
        × (rs1_of insn ≡ rs1)
        × (funct3_of insn ≡ funct3)
        × (rd_of insn ≡ rd)
        × (opcode_of insn ≡ opcode)
  decode-enc_i imm fits =
      let insn = enc_i imm rs1 funct3 rd opcode in
      let small : insn < 2 ^ 32 = omega (arith, enc_i-eq imm) in
      let value : insn / 2 ^ 20 ≡ imm % 2 ^ 12 = omega (arith, enc_i-eq imm) in
      (
        i_imm-eq insn small ∙ rw value (sign_extended_twelve imm fits),
        omega (arith, enc_i-eq imm, rs1_of-eq insn),
        omega (arith, enc_i-eq imm, funct3_of-eq insn),
        omega (arith, enc_i-eq imm, rd_of-eq insn),
        omega (arith, enc_i-eq imm, opcode_of-eq insn),
      )
