-- ===== src/Iss/EncodingUpper.antt =====
-- The U and J formats of model/test_iss.cpp against the decoder of `Iss::step`.
use rv64_ooo_core.Prelude.{ℕ, ◌+◌, ◌*◌, ◌/◌, ◌%◌, ◌^◌, ◌<◌, ◌≡◌, ◌∙◌, ap, arith, bit_or}
use rv64_ooo_core.Prelude.Bits.{bit_and_mask, bit_or_low}
use rv64_ooo_core.Prelude.Word.{u32, sx32, ◌<<◌}
use rv64_ooo_core.Iss.Decode.{opcode_of, rd_of, u_imm, j_imm, enc_u, enc_j}
use rv64_ooo_core.Iss.Fields.{opcode_of-eq, rd_of-eq, u_imm-eq, j_imm-eq, j_value, high_mask}
use rv64_ooo_core.Iss.Encoding.{Fits, sign_extended_twenty_one}

-- The formats with a destination and 20 bits of immediate.
module _ (rd opcode : ℕ) (d : rd < 2 ^ 5) (o : opcode < 2 ^ 7) where
  upper_fields :
      (high : ℕ)
      → bit_or (bit_or (high * 2 ^ 12) (u32 (rd << 7))) opcode ≡ high * 2 ^ 12 + rd * 2 ^ 7 + opcode
  upper_fields high =
      let e : u32 (rd << 7) ≡ rd * 2 ^ 7 = omega arith in
      rw (e, bit_or_low 12 (high * 2 ^ 12) (rd * 2 ^ 7) (omega arith) (omega arith))
        (bit_or_low 7 (high * 2 ^ 12 + rd * 2 ^ 7) opcode (omega arith) o)

  -- The decoder takes every field of a U-format word as `enc_u` put it there: the immediate with its
  -- low 12 bits cleared.
  pub decode-enc_u :
      (imm : ℕ)
      → imm < 2 ^ 32
      → let insn = enc_u imm rd opcode in
        (u_imm insn ≡ sx32 (imm / 2 ^ 12 * 2 ^ 12)) × (rd_of insn ≡ rd) × (opcode_of insn ≡ opcode)
  unfolding enc_u
  decode-enc_u imm h =
      let insn = enc_u imm rd opcode in
      let e : insn ≡ imm / 2 ^ 12 * 2 ^ 12 + rd * 2 ^ 7 + opcode =
        rw (high_mask imm h) (upper_fields (imm / 2 ^ 12)) in
      let value : insn / 2 ^ 12 ≡ imm / 2 ^ 12 = omega (arith, e) in
      (
        u_imm-eq insn (omega (arith, e)) ∙ ap (λ (n : ℕ). sx32 (n * 2 ^ 12)) value,
        omega (arith, e, rd_of-eq insn),
        omega (arith, e, opcode_of-eq insn),
      )

  abbrev j_high : ℕ → ℕ
  j_high imm =
      imm / 2 ^ 20 % 2 * 2 ^ 19
      + imm / 2 % 2 ^ 10 * 2 ^ 9
      + imm / 2 ^ 11 % 2 * 2 ^ 8
      + imm / 2 ^ 12 % 2 ^ 8

  enc_j-eq : (imm : ℕ) → enc_j imm rd opcode ≡ j_high imm * 2 ^ 12 + rd * 2 ^ 7 + opcode
  unfolding enc_j
  enc_j-eq imm =
      let a = imm / 2 ^ 20 % 2 in
      let b = imm / 2 % 2 ^ 10 in
      let c = imm / 2 ^ 11 % 2 in
      let e = imm / 2 ^ 12 % 2 ^ 8 in
      let e1 : u32 (a << 31) ≡ a * 2 ^ 31 = omega arith in
      let e2 : u32 (b << 21) ≡ b * 2 ^ 21 = omega arith in
      let e3 : u32 (c << 20) ≡ c * 2 ^ 20 = omega arith in
      let e4 : u32 (e << 12) ≡ e * 2 ^ 12 = omega arith in
      let e5 : a * 2 ^ 31 + b * 2 ^ 21 + c * 2 ^ 20 + e * 2 ^ 12 ≡ j_high imm * 2 ^ 12 =
        omega arith in
      rw
        (
          bit_and_mask 1 (imm / 2 ^ 20),
          bit_and_mask 10 (imm / 2),
          bit_and_mask 1 (imm / 2 ^ 11),
          bit_and_mask 8 (imm / 2 ^ 12),
          e1,
          e2,
          e3,
          e4,
          bit_or_low 31 (a * 2 ^ 31) (b * 2 ^ 21) (omega arith) (omega arith),
          bit_or_low 21 (a * 2 ^ 31 + b * 2 ^ 21) (c * 2 ^ 20) (omega arith) (omega arith),
          bit_or_low 20 (a * 2 ^ 31 + b * 2 ^ 21 + c * 2 ^ 20) (e * 2 ^ 12) (omega arith)
              (omega arith),
          e5,
        )
        (upper_fields (j_high imm))

  -- The decoder takes every field of a J-format word as `enc_j` put it there, and the offset with its
  -- sign, if it is even and fits 21 bits.
  pub decode-enc_j :
      (imm : ℕ)
      → Fits 21 imm
      → imm % 2 ≡ 0
      → let insn = enc_j imm rd opcode in
        (j_imm insn ≡ sx32 imm) × (rd_of insn ≡ rd) × (opcode_of insn ≡ opcode)
  decode-enc_j imm fits even =
      let insn = enc_j imm rd opcode in
      let e = enc_j-eq imm in
      let value : j_value insn ≡ imm % 2 ^ 21 = omega (arith, e) in
      (
        j_imm-eq insn (omega (arith, e)) ∙ rw value (sign_extended_twenty_one imm fits),
        omega (arith, e, rd_of-eq insn),
        omega (arith, e, opcode_of-eq insn),
      )
