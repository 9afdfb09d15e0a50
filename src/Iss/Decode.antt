-- ===== src/Iss/Decode.antt =====
-- The fields and immediates of an instruction word, as `Iss::step` takes them, and the encoders that
-- model/test_iss.cpp writes its programs with.
use rv64_ooo_core.Prelude.{ℕ, ◌+◌, ◌-◌, ◌%◌, ◌^◌, bit_and, bit_or, bit_xor}
use rv64_ooo_core.Prelude.Word.{u32, sx32, ◌<<◌, ◌>>◌}

-- `sext`, its result as a 64-bit pattern.
unfoldable pub sext : ℕ → ℕ → ℕ
sext v bits = let m = 2 ^ (bits - 1) in (bit_xor v m + 2 ^ 64 - m) % 2 ^ 64

unfoldable pub opcode_of : ℕ → ℕ
opcode_of insn = bit_and insn 0x7f

unfoldable pub rd_of : ℕ → ℕ
rd_of insn = bit_and (insn >> 7) 0x1f

unfoldable pub funct3_of : ℕ → ℕ
funct3_of insn = bit_and (insn >> 12) 0x7

unfoldable pub rs1_of : ℕ → ℕ
rs1_of insn = bit_and (insn >> 15) 0x1f

unfoldable pub rs2_of : ℕ → ℕ
rs2_of insn = bit_and (insn >> 20) 0x1f

unfoldable pub funct7_of : ℕ → ℕ
funct7_of insn = bit_and (insn >> 25) 0x7f

unfoldable pub shamt_of : ℕ → ℕ
shamt_of insn = bit_and (insn >> 20) 0x3f

unfoldable pub shamtw_of : ℕ → ℕ
shamtw_of insn = bit_and (insn >> 20) 0x1f

unfoldable pub i_imm : ℕ → ℕ
i_imm insn = sext (insn >> 20) 12

unfoldable pub s_imm : ℕ → ℕ
s_imm insn = sext (bit_or ((insn >> 25) << 5) (bit_and (insn >> 7) 0x1f)) 12

unfoldable pub b_imm : ℕ → ℕ
b_imm insn =
    sext
      (bit_or
        (bit_or (bit_or (bit_and (insn >> 31) 1 << 12) (bit_and (insn >> 7) 1 << 11))
          (bit_and (insn >> 25) 0x3f << 5))
        (bit_and (insn >> 8) 0xf << 1))
      13

unfoldable pub u_imm : ℕ → ℕ
u_imm insn = sx32 (bit_and insn 0xfffff000)

unfoldable pub j_imm : ℕ → ℕ
j_imm insn =
    sext
      (bit_or
        (bit_or (bit_or (bit_and (insn >> 31) 1 << 20) (bit_and (insn >> 12) 0xff << 12))
          (bit_and (insn >> 20) 1 << 11))
        (bit_and (insn >> 21) 0x3ff << 1))
      21

-- The encoders. An `imm` is the `int32_t`'s pattern.
unfoldable pub enc_r : ℕ → ℕ → ℕ → ℕ → ℕ → ℕ → ℕ
enc_r funct7 rs2 rs1 funct3 rd opcode =
    bit_or
      (bit_or
        (bit_or (bit_or (bit_or (u32 (funct7 << 25)) (u32 (rs2 << 20))) (u32 (rs1 << 15)))
          (u32 (funct3 << 12)))
        (u32 (rd << 7)))
      opcode

unfoldable pub enc_i : ℕ → ℕ → ℕ → ℕ → ℕ → ℕ
enc_i imm rs1 funct3 rd opcode =
    bit_or
      (bit_or
        (bit_or (bit_or (u32 (bit_and imm 0xfff << 20)) (u32 (rs1 << 15))) (u32 (funct3 << 12)))
        (u32 (rd << 7)))
      opcode

unfoldable pub enc_s : ℕ → ℕ → ℕ → ℕ → ℕ → ℕ
enc_s imm rs2 rs1 funct3 opcode =
    bit_or
      (bit_or
        (bit_or
          (bit_or (bit_or (u32 (bit_and imm 0xfe0 << 20)) (u32 (rs2 << 20))) (u32 (rs1 << 15)))
          (u32 (funct3 << 12)))
        (u32 (bit_and imm 0x1f << 7)))
      opcode

unfoldable pub enc_b : ℕ → ℕ → ℕ → ℕ → ℕ → ℕ
enc_b imm rs2 rs1 funct3 opcode =
    bit_or
      (bit_or
        (bit_or
          (bit_or
            (bit_or
              (bit_or
                (bit_or (u32 (bit_and (imm >> 12) 1 << 31)) (u32 (bit_and (imm >> 5) 0x3f << 25)))
                (u32 (rs2 << 20)))
              (u32 (rs1 << 15)))
            (u32 (funct3 << 12)))
          (u32 (bit_and (imm >> 1) 0xf << 8)))
        (u32 (bit_and (imm >> 11) 1 << 7)))
      opcode

unfoldable pub enc_u : ℕ → ℕ → ℕ → ℕ
enc_u imm rd opcode = bit_or (bit_or (bit_and imm 0xfffff000) (u32 (rd << 7))) opcode

unfoldable pub enc_j : ℕ → ℕ → ℕ → ℕ
enc_j imm rd opcode =
    bit_or
      (bit_or
        (bit_or
          (bit_or
            (bit_or (u32 (bit_and (imm >> 20) 1 << 31)) (u32 (bit_and (imm >> 1) 0x3ff << 21)))
            (u32 (bit_and (imm >> 11) 1 << 20)))
          (u32 (bit_and (imm >> 12) 0xff << 12)))
        (u32 (rd << 7)))
      opcode
