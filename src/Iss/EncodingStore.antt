-- ===== src/Iss/EncodingStore.antt =====
-- The S and B formats of model/test_iss.cpp against the decoder of `Iss::step`.
use rv64_ooo_core.Prelude.{ℕ, ◌+◌, ◌*◌, ◌/◌, ◌%◌, ◌^◌, ◌<◌, ◌≡◌, ◌∙◌, ap, arith, bit_and, bit_or}
use rv64_ooo_core.Prelude.Bits.{bit_and_mask, bit_and-blocks, bit_and-zero, bit_or_low}
use rv64_ooo_core.Prelude.Word.{u32, sx32, ◌<<◌}
use rv64_ooo_core.Iss.Decode.{opcode_of, funct3_of, rs1_of, rs2_of, s_imm, b_imm, enc_s, enc_b}
use rv64_ooo_core.Iss.Fields.{
  opcode_of-eq, funct3_of-eq, rs1_of-eq, rs2_of-eq, s_imm-eq, b_imm-eq, b_value,
}
use rv64_ooo_core.Iss.Encoding.{Fits, sign_extended_twelve, sign_extended_thirteen}

-- The formats with a source register in bits 20 to 24 and no destination: `hi` and `lo` are the parts
-- of the immediate above bit 25 and below bit 12.
module _ (rs2 rs1 funct3 opcode : ℕ) (r2 : rs2 < 2 ^ 5) (r1 : rs1 < 2 ^ 5) (f3 : funct3 < 2 ^ 3)
    (o : opcode < 2 ^ 7) where
  source_fields :
      (hi : ℕ)
      → hi < 2 ^ 7
      → bit_or
          (bit_or (bit_or (hi * 2 ^ 25) (u32 (rs2 << 20))) (u32 (rs1 << 15)))
          (u32 (funct3 << 12))
        ≡ hi * 2 ^ 25 + rs2 * 2 ^ 20 + rs1 * 2 ^ 15 + funct3 * 2 ^ 12
  source_fields hi h =
      let e1 : u32 (rs2 << 20) ≡ rs2 * 2 ^ 20 = omega arith in
      let e2 : u32 (rs1 << 15) ≡ rs1 * 2 ^ 15 = omega arith in
      let e3 : u32 (funct3 << 12) ≡ funct3 * 2 ^ 12 = omega arith in
      rw
        (
          e1,
          e2,
          e3,
          bit_or_low 25 (hi * 2 ^ 25) (rs2 * 2 ^ 20) (omega arith) (omega arith),
          bit_or_low 20 (hi * 2 ^ 25 + rs2 * 2 ^ 20) (rs1 * 2 ^ 15) (omega arith) (omega arith),
        )
        (bit_or_low 15 (hi * 2 ^ 25 + rs2 * 2 ^ 20 + rs1 * 2 ^ 15) (funct3 * 2 ^ 12) (omega arith)
          (omega arith))

  abbrev source_word : ℕ → ℕ → ℕ
  source_word hi lo =
      hi * 2 ^ 25 + rs2 * 2 ^ 20 + rs1 * 2 ^ 15 + funct3 * 2 ^ 12 + lo * 2 ^ 7 + opcode

  mask_fe0 : (imm : ℕ) → imm < 2 ^ 32 → bit_and imm 0xfe0 ≡ imm / 2 ^ 5 % 2 ^ 7 * 2 ^ 5
  mask_fe0 imm h =
      ap (λ (n : ℕ). bit_and n 0xfe0) {y = imm / 2 ^ 5 * 2 ^ 5 + imm % 2 ^ 5} (omega arith)
      ∙ (bit_and-blocks 5 (imm / 2 ^ 5) 0x7f (imm % 2 ^ 5) 0 (omega arith) (omega arith)
          ∙ rw (bit_and_mask 7 (imm / 2 ^ 5), bit_and-zero) (omega arith))

  enc_s-eq :
      (imm : ℕ)
      → imm < 2 ^ 32
      → enc_s imm rs2 rs1 funct3 opcode ≡ source_word (imm / 2 ^ 5 % 2 ^ 7) (imm % 2 ^ 5)
  unfolding enc_s
  enc_s-eq imm h =
      let hi = imm / 2 ^ 5 % 2 ^ 7 in
      let lo = imm % 2 ^ 5 in
      let e1 : u32 ((hi * 2 ^ 5) << 20) ≡ hi * 2 ^ 25 = omega arith in
      let e2 : u32 (lo << 7) ≡ lo * 2 ^ 7 = omega arith in
      rw
        (
          mask_fe0 imm h,
          bit_and_mask 5 imm,
          e1,
          e2,
          source_fields hi (omega arith),
          bit_or_low 12 (hi * 2 ^ 25 + rs2 * 2 ^ 20 + rs1 * 2 ^ 15 + funct3 * 2 ^ 12) (lo * 2 ^ 7)
              (omega arith) (omega arith),
        )
        (bit_or_low 7 (hi * 2 ^ 25 + rs2 * 2 ^ 20 + rs1 * 2 ^ 15 + funct3 * 2 ^ 12 + lo * 2 ^ 7)
          opcode (omega arith) o)

  source_word-fields :
      (insn hi lo : ℕ)
      → hi < 2 ^ 7
      → lo < 2 ^ 5
      → insn ≡ source_word hi lo
      → (rs2_of insn ≡ rs2)
        × (rs1_of insn ≡ rs1)
        × (funct3_of insn ≡ funct3)
        × (opcode_of insn ≡ opcode)
  source_word-fields insn hi lo h l e =
      omega (arith, rs2_of-eq insn, rs1_of-eq insn, funct3_of-eq insn, opcode_of-eq insn)

  -- The decoder takes every field of an S-format word as `enc_s` put it there, and the immediate with
  -- its sign, if it fits 12 bits.
  pub decode-enc_s :
      (imm : ℕ)
      → Fits 12 imm
      → let insn = enc_s imm rs2 rs1 funct3 opcode in
        (s_imm insn ≡ sx32 imm)
        × (rs2_of insn ≡ rs2)
        × (rs1_of insn ≡ rs1)
        × (funct3_of insn ≡ funct3)
        × (opcode_of insn ≡ opcode)
  decode-enc_s imm fits =
      let insn = enc_s imm rs2 rs1 funct3 opcode in
      let e = enc_s-eq imm fits.0 in
      let f =
        source_word-fields insn (imm / 2 ^ 5 % 2 ^ 7) (imm % 2 ^ 5) (omega arith) (omega arith) e in
      let small : insn < 2 ^ 32 = omega (arith, e) in
      let value : insn / 2 ^ 25 * 2 ^ 5 + insn / 2 ^ 7 % 2 ^ 5 ≡ imm % 2 ^ 12 = omega (arith, e) in
      (s_imm-eq insn small ∙ rw value (sign_extended_twelve imm fits), f.0, f.1, f.2, f.3)

  enc_b-eq :
      (imm : ℕ)
      → imm < 2 ^ 32
      → enc_b imm rs2 rs1 funct3 opcode
        ≡ source_word
            (imm / 2 ^ 12 % 2 * 2 ^ 6 + imm / 2 ^ 5 % 2 ^ 6)
            (imm / 2 % 2 ^ 4 * 2 + imm / 2 ^ 11 % 2)
  unfolding enc_b
  enc_b-eq imm h =
      let hi = imm / 2 ^ 12 % 2 * 2 ^ 6 + imm / 2 ^ 5 % 2 ^ 6 in
      let a = imm / 2 % 2 ^ 4 in
      let b = imm / 2 ^ 11 % 2 in
      let e1 : u32 ((imm / 2 ^ 12 % 2) << 31) ≡ imm / 2 ^ 12 % 2 * 2 ^ 31 = omega arith in
      let e2 : u32 ((imm / 2 ^ 5 % 2 ^ 6) << 25) ≡ imm / 2 ^ 5 % 2 ^ 6 * 2 ^ 25 = omega arith in
      let e3 : u32 (a << 8) ≡ a * 2 ^ 8 = omega arith in
      let e4 : u32 (b << 7) ≡ b * 2 ^ 7 = omega arith in
      let e5 : imm / 2 ^ 12 % 2 * 2 ^ 31 + imm / 2 ^ 5 % 2 ^ 6 * 2 ^ 25 ≡ hi * 2 ^ 25 =
        omega arith in
      let base = hi * 2 ^ 25 + rs2 * 2 ^ 20 + rs1 * 2 ^ 15 + funct3 * 2 ^ 12 in
      rw
        (
          bit_and_mask 1 (imm / 2 ^ 12),
          bit_and_mask 6 (imm / 2 ^ 5),
          bit_and_mask 4 (imm / 2),
          bit_and_mask 1 (imm / 2 ^ 11),
          e1,
          e2,
          e3,
          e4,
          bit_or_low 31 (imm / 2 ^ 12 % 2 * 2 ^ 31) (imm / 2 ^ 5 % 2 ^ 6 * 2 ^ 25) (omega arith)
              (omega arith),
          e5,
          source_fields hi (omega arith),
          bit_or_low 12 base (a * 2 ^ 8) (omega arith) (omega arith),
          bit_or_low 8 (base + a * 2 ^ 8) (b * 2 ^ 7) (omega arith) (omega arith),
          bit_or_low 7 (base + a * 2 ^ 8 + b * 2 ^ 7) opcode (omega arith) o,
        )
        (omega arith)

  -- The decoder takes every field of a B-format word as `enc_b` put it there, and the offset with its
  -- sign, if it is even and fits 13 bits.
  pub decode-enc_b :
      (imm : ℕ)
      → Fits 13 imm
      → imm % 2 ≡ 0
      → let insn = enc_b imm rs2 rs1 funct3 opcode in
        (b_imm insn ≡ sx32 imm)
        × (rs2_of insn ≡ rs2)
        × (rs1_of insn ≡ rs1)
        × (funct3_of insn ≡ funct3)
        × (opcode_of insn ≡ opcode)
  decode-enc_b imm fits even =
      let insn = enc_b imm rs2 rs1 funct3 opcode in
      let e = enc_b-eq imm fits.0 in
      let f = source_word-fields insn _ _ (omega arith) (omega arith) e in
      let small : insn < 2 ^ 32 = omega (arith, e) in
      let value : b_value insn ≡ imm % 2 ^ 13 = omega (arith, e) in
      (b_imm-eq insn small ∙ rw value (sign_extended_thirteen imm fits), f.0, f.1, f.2, f.3)
