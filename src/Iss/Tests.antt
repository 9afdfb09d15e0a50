-- ===== src/Iss/Tests.antt =====
-- Instructions encoded, placed and run, and the theorems at them.
use rv64_ooo_core.Prelude.{◌-◌, ◌*◌, ◌^◌, ◌≡◌, refl, arith, inl, inr, true, false}
use rv64_ooo_core.Prelude.Word.{sx32}
use rv64_ooo_core.Iss.{State}
use rv64_ooo_core.Iss.Memory.{Memory}
use rv64_ooo_core.Iss.Decode.{
  opcode_of, rd_of, funct3_of, rs1_of, rs2_of, s_imm, b_imm, j_imm, enc_i, enc_s, enc_b, enc_j,
}
use rv64_ooo_core.Iss.EncodingStore.{decode-enc_s, decode-enc_b}
use rv64_ooo_core.Iss.EncodingUpper.{decode-enc_j}
use rv64_ooo_core.Iss.RoundTrip.{ReadsBack, loaded-stored}
use rv64_ooo_core.Iss.Alu.{op_m, mul, mulh, mulhsu, mulhu, div, divu, rem, remu, op_m_w}
use rv64_ooo_core.Iss.Execute.{reset, step}
use rv64_ooo_core.Iss.Invariant.{IsWellFormed, reset-IsWellFormed, step-IsWellFormed}
use rv64_ooo_core.Iss.Effect.{Effect, step-Effect}
use rv64_ooo_core.Iss.SingleStep.{place, golden, in_x3, golden_lem}

abbrev zeros : Memory
zeros a = 0

-- `sub x5, x3, x17`
-- `addi x5, x3, -4`
-- `sd x17, -8(x3)`
decode-enc_s_example :
    (s_imm (enc_s (2 ^ 32 - 8) 17 3 3 0x23) ≡ sx32 (2 ^ 32 - 8))
    × (rs2_of (enc_s (2 ^ 32 - 8) 17 3 3 0x23) ≡ 17)
    × (rs1_of (enc_s (2 ^ 32 - 8) 17 3 3 0x23) ≡ 3)
    × (funct3_of (enc_s (2 ^ 32 - 8) 17 3 3 0x23) ≡ 3)
    × (opcode_of (enc_s (2 ^ 32 - 8) 17 3 3 0x23) ≡ 0x23)
decode-enc_s_example =
    decode-enc_s 17 3 3 0x23 (omega arith) (omega arith) (omega arith) (omega arith) (2 ^ 32 - 8)
      (omega arith, inr (omega arith))

-- `bne x3, x17, .-12`
decode-enc_b_example :
    (b_imm (enc_b (2 ^ 32 - 12) 17 3 1 0x63) ≡ sx32 (2 ^ 32 - 12))
    × (rs2_of (enc_b (2 ^ 32 - 12) 17 3 1 0x63) ≡ 17)
    × (rs1_of (enc_b (2 ^ 32 - 12) 17 3 1 0x63) ≡ 3)
    × (funct3_of (enc_b (2 ^ 32 - 12) 17 3 1 0x63) ≡ 1)
    × (opcode_of (enc_b (2 ^ 32 - 12) 17 3 1 0x63) ≡ 0x63)
decode-enc_b_example =
    decode-enc_b 17 3 1 0x63 (omega arith) (omega arith) (omega arith) (omega arith) (2 ^ 32 - 12)
      (omega arith, inr (omega arith)) refl

-- `lui x5, 0xabcde`
-- `jal x1, .+0x12344`
decode-enc_j_example :
    (j_imm (enc_j 0x12344 1 0x6f) ≡ sx32 0x12344)
    × (rd_of (enc_j 0x12344 1 0x6f) ≡ 1)
    × (opcode_of (enc_j 0x12344 1 0x6f) ≡ 0x6f)
decode-enc_j_example =
    decode-enc_j 1 0x6f (omega arith) (omega arith) 0x12344 (omega arith, inl (omega arith)) refl

-- A double word at the last address, which wraps round.
loaded-stored_example : ReadsBack zeros 0xffff 0x8877665544332211 (8 * 2 ^ 3) 3
loaded-stored_example =
    loaded-stored zeros 0xffff 0x8877665544332211 3 (λ b. omega arith) (omega arith) (omega arith)

abbrev minus_one : State
minus_one = record (reset zeros) { pc = 0x100; mem = place (enc_i (2 ^ 32 - 1) 0 0 5 0x13) zeros }

step-Effect_example : Effect minus_one (step minus_one)
step-Effect_example = step-Effect minus_one

step-IsWellFormed_example : IsWellFormed (step (reset zeros)).0
step-IsWellFormed_example =
    step-IsWellFormed (reset zeros) (reset-IsWellFormed zeros (λ b. omega arith))

golden_lem_example :
    (golden 7 (2 ^ 64 - 2) 4 false ≡ op_m 4 7 (2 ^ 64 - 2))
    × (golden 7 (2 ^ 64 - 2) 4 true ≡ in_x3 (op_m_w 4 7 (2 ^ 64 - 2)))
golden_lem_example = golden_lem 7 (2 ^ 64 - 2) 4 (omega arith)

-- 7 / -2 is -3.
golden_div : op_m 4 7 (2 ^ 64 - 2) ≡ 2 ^ 64 - 3
unfolding op_m div mul mulh mulhsu mulhu divu rem remu
golden_div = refl
