-- ===== src/Iss/Alu.antt =====
-- The result that each arithmetic instruction of `Iss::step` writes; `none` where the source reports
-- an illegal instruction. Operands and results are 64-bit patterns.
use rv64_ooo_core.Prelude.{
  ℕ, ◌+◌, ◌-◌, ◌*◌, ◌/◌, ◌%◌, ◌^◌, bit_and, bit_or, bit_xor, ◌==◌, ltb, one_if, if◌then◌else◌,
  Option, none, some, Bool, not, ◌&&◌,
}
use rv64_ooo_core.Prelude.Word.{
  signed, wrap, ltb_ℤ, shr_ℤ, tdiv, trem, ◌*ℤ◌, pos, u32, u64, sx32, ◌<<◌, ◌>>◌,
}

-- `a + b` and `a - b` of 64 or 32 bits.
abbrev pub add64 : ℕ → ℕ → ℕ
add64 a b = (a + b) % 2 ^ 64

abbrev pub sub64 : ℕ → ℕ → ℕ
sub64 a b = (a + 2 ^ 64 - b) % 2 ^ 64

abbrev pub add32 : ℕ → ℕ → ℕ
add32 a b = (a + b) % 2 ^ 32

abbrev pub sub32 : ℕ → ℕ → ℕ
sub32 a b = (a + 2 ^ 32 - b) % 2 ^ 32

abbrev pub slt : ℕ → ℕ → Bool
slt a b = ltb_ℤ (signed 64 a) (signed 64 b)

-- `(uint64_t)-1`
abbrev pub all_ones : ℕ
all_ones = 2 ^ 64 - 1

-- `(uint64_t)INT64_MIN`, and `INT32_MIN` of 32 bits.
abbrev pub int64_min : ℕ
int64_min = 2 ^ 63

abbrev pub int32_min : ℕ
int32_min = 2 ^ 31

-- The conditions of the branches.
unfoldable pub taken : ℕ → ℕ → ℕ → Option Bool
taken funct3 a b =
    if funct3 == 0
    then some (a == b)
    else if funct3 == 1
    then some (not (a == b))
    else if funct3 == 4
    then some (slt a b)
    else if funct3 == 5
    then some (not (slt a b))
    else if funct3 == 6
    then some (ltb a b)
    else if funct3 == 7
    then some (not (ltb a b))
    else none

-- Opcode 0x13.
unfoldable pub op_imm : ℕ → ℕ → ℕ → ℕ → ℕ → Option ℕ
op_imm funct3 funct7 a imm shamt =
    if funct3 == 0
    then some (add64 a imm)
    else if funct3 == 2
    then some (one_if (slt a imm))
    else if funct3 == 3
    then some (one_if (ltb a imm))
    else if funct3 == 4
    then some (bit_xor a imm)
    else if funct3 == 6
    then some (bit_or a imm)
    else if funct3 == 7
    then some (bit_and a imm)
    else if funct3 == 1
    then (if bit_and funct7 0xfe == 0 then some (u64 (a << shamt)) else none)
    else if bit_and funct7 0xfe == 0
    then some (a >> shamt)
    else if bit_and funct7 0xfe == 0x20
    then some (wrap 64 (shr_ℤ (signed 64 a) shamt))
    else none

-- Opcode 0x33 with funct7 1: multiplication and division. The products of MULH and MULHSU are taken
-- to 128 bits, as `__int128` is.
unfoldable pub mul : ℕ → ℕ → ℕ
mul a b = wrap 64 (signed 64 a *ℤ signed 64 b)

unfoldable pub mulh : ℕ → ℕ → ℕ
mulh a b = wrap 64 (shr_ℤ (signed 128 (wrap 128 (signed 64 a *ℤ signed 64 b))) 64)

unfoldable pub mulhsu : ℕ → ℕ → ℕ
mulhsu a b = wrap 64 (shr_ℤ (signed 128 (wrap 128 (signed 64 a *ℤ pos b))) 64)

unfoldable pub mulhu : ℕ → ℕ → ℕ
mulhu a b = u64 (a * b >> 64)

unfoldable pub div : ℕ → ℕ → ℕ
div a b =
    if b == 0
    then all_ones
    else if a == int64_min && b == all_ones
    then int64_min
    else wrap 64 (tdiv (signed 64 a) (signed 64 b))

unfoldable pub divu : ℕ → ℕ → ℕ
divu a b = if b == 0 then all_ones else a / b

unfoldable pub rem : ℕ → ℕ → ℕ
rem a b =
    if b == 0
    then a
    else if a == int64_min && b == all_ones
    then 0
    else wrap 64 (trem (signed 64 a) (signed 64 b))

unfoldable pub remu : ℕ → ℕ → ℕ
remu a b = if b == 0 then a else a % b

unfoldable pub op_m : ℕ → ℕ → ℕ → ℕ
op_m funct3 a b =
    if funct3 == 0
    then mul a b
    else if funct3 == 1
    then mulh a b
    else if funct3 == 2
    then mulhsu a b
    else if funct3 == 3
    then mulhu a b
    else if funct3 == 4
    then div a b
    else if funct3 == 5
    then divu a b
    else if funct3 == 6
    then rem a b
    else remu a b

-- Opcode 0x33 with another funct7.
unfoldable pub op_base : ℕ → ℕ → ℕ → ℕ → Option ℕ
op_base funct3 funct7 a b =
    if funct3 == 0
    then (if funct7 == 0
        then some (add64 a b)
        else if funct7 == 0x20
        then some (sub64 a b)
        else none)
    else if funct3 == 1
    then (if funct7 == 0 then some (u64 (a << bit_and b 0x3f)) else none)
    else if funct3 == 2
    then some (one_if (slt a b))
    else if funct3 == 3
    then some (one_if (ltb a b))
    else if funct3 == 4
    then (if funct7 == 0 then some (bit_xor a b) else none)
    else if funct3 == 5
    then (if funct7 == 0
        then some (a >> bit_and b 0x3f)
        else if funct7 == 0x20
        then some (wrap 64 (shr_ℤ (signed 64 a) (bit_and b 0x3f)))
        else none)
    else if funct3 == 6
    then (if funct7 == 0 then some (bit_or a b) else none)
    else if funct7 == 0
    then some (bit_and a b)
    else none

unfoldable pub op : ℕ → ℕ → ℕ → ℕ → Option ℕ
op funct3 funct7 a b = if funct7 == 1 then some (op_m funct3 a b) else op_base funct3 funct7 a b

-- Opcode 0x1B; the 32-bit operand is the register's low half.
unfoldable pub op_imm_w : ℕ → ℕ → ℕ → ℕ → ℕ → Option ℕ
op_imm_w funct3 funct7 x imm shamtw =
    let a = u32 x in
    if funct3 == 0
    then some (sx32 (add32 a (u32 imm)))
    else if funct3 == 1
    then (if funct7 == 0 then some (sx32 (a << shamtw)) else none)
    else if funct3 == 5
    then (if funct7 == 0
        then some (sx32 (a >> shamtw))
        else if funct7 == 0x20
        then some (wrap 64 (shr_ℤ (signed 32 a) shamtw))
        else none)
    else none

-- Opcode 0x3B with funct7 1.
unfoldable pub op_m_w : ℕ → ℕ → ℕ → Option ℕ
op_m_w funct3 x y =
    let a = u32 x in
    let b = u32 y in
    if funct3 == 0
    then some (sx32 (wrap 32 (signed 32 a *ℤ signed 32 b)))
    else if funct3 == 4
    then (if b == 0
        then some all_ones
        else if a == int32_min && b == 2 ^ 32 - 1
        then some (sx32 a)
        else some (sx32 (wrap 32 (tdiv (signed 32 a) (signed 32 b)))))
    else if funct3 == 5
    then (if b == 0 then some (sx32 (2 ^ 32 - 1)) else some (sx32 (a / b)))
    else if funct3 == 6
    then (if b == 0
        then some (sx32 a)
        else if a == int32_min && b == 2 ^ 32 - 1
        then some 0
        else some (sx32 (wrap 32 (trem (signed 32 a) (signed 32 b)))))
    else if funct3 == 7
    then (if b == 0 then some (sx32 a) else some (sx32 (a % b)))
    else none

-- Opcode 0x3B with another funct7.
unfoldable pub op_base_w : ℕ → ℕ → ℕ → ℕ → Option ℕ
op_base_w funct3 funct7 x y =
    let a = u32 x in
    let b = u32 y in
    if funct3 == 0
    then (if funct7 == 0
        then some (sx32 (add32 a b))
        else if funct7 == 0x20
        then some (sx32 (sub32 a b))
        else none)
    else if funct3 == 1
    then (if funct7 == 0 then some (sx32 (a << bit_and b 0x1f)) else none)
    else if funct3 == 5
    then (if funct7 == 0
        then some (sx32 (a >> bit_and b 0x1f))
        else if funct7 == 0x20
        then some (sx32 (wrap 32 (shr_ℤ (signed 32 a) (bit_and b 0x1f))))
        else none)
    else none

unfoldable pub op_w : ℕ → ℕ → ℕ → ℕ → Option ℕ
op_w funct3 funct7 x y = if funct7 == 1 then op_m_w funct3 x y else op_base_w funct3 funct7 x y
