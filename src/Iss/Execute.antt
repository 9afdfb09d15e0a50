-- ===== src/Iss/Execute.antt =====
-- `Iss::step`: fetch, decode, execute one instruction, and commit it.
use rv64_ooo_core.Prelude.{
  ℕ, ◌-◌, ◌^◌, bit_and, ◌==◌, if◌then◌else◌, Option, none, some, Bool, true, false,
}
use rv64_ooo_core.Prelude.Word.{u8, u16, u32}
use rv64_ooo_core.Iss.{State, Exit, nothing, ecall, ebreak, illegal, update}
use rv64_ooo_core.Iss.Memory.{
  Memory, load8, load16, load32, load64, store8, store16, store32, store64, fetch,
}
use rv64_ooo_core.Iss.Decode.{
  sext, opcode_of, rd_of, funct3_of, rs1_of, rs2_of, funct7_of, shamt_of, shamtw_of, i_imm, s_imm,
  b_imm, u_imm, j_imm,
}
use rv64_ooo_core.Iss.Alu.{add64, taken, op_imm, op, op_imm_w, op_w}

-- The state before the first instruction, with a memory.
unfoldable pub reset : Memory → State
reset mem = record {
  x = λ i. 0;
  pc = 0;
  mem = mem;
  exit_reason = nothing;
  last_insn = 0;
  last_rd = none;
  last_rd_val = 0;
}

-- How the `switch` ends: in a `break`, with the state and `next_pc`, or in a halt.
pub data Outcome : Type 0 where
  next : State → ℕ → Outcome
  stop : Exit → Outcome

-- The lambda `wb`.
unfoldable pub write_rd : State → ℕ → ℕ → State
write_rd s rd v = record s {
  x = if rd == 0 then s.x else update s.x rd v;
  last_rd = some rd;
  last_rd_val = if rd == 0 then 0 else v;
}

abbrev pub next_pc_of : State → ℕ
next_pc_of s = add64 s.pc 4

-- `wb(v); break;`, or an illegal instruction.
unfoldable pub finish : State → ℕ → Option ℕ → Outcome
finish s insn none = stop illegal
finish s insn (some v) = next (write_rd s (rd_of insn) v) (next_pc_of s)

-- `x[rs1]` and `x[rs2]`
abbrev pub src1 : State → ℕ → ℕ
src1 s insn = s.x (rs1_of insn)

abbrev pub src2 : State → ℕ → ℕ
src2 s insn = s.x (rs2_of insn)

unfoldable pub exec_jalr : State → ℕ → Outcome
exec_jalr s insn =
    if funct3_of insn == 0
    then next (write_rd s (rd_of insn) (next_pc_of s))
        (bit_and (add64 (src1 s insn) (i_imm insn)) (2 ^ 64 - 2))
    else stop illegal

unfoldable pub branch_to : State → ℕ → Option Bool → Outcome
branch_to s insn none = stop illegal
branch_to s insn (some true) = next s (add64 s.pc (b_imm insn))
branch_to s insn (some false) = next s (next_pc_of s)

unfoldable pub exec_branch : State → ℕ → Outcome
exec_branch s insn = branch_to s insn (taken (funct3_of insn) (src1 s insn) (src2 s insn))

-- The value of a load.
unfoldable pub loaded : Memory → ℕ → ℕ → Option ℕ
loaded mem funct3 addr =
    if funct3 == 0
    then some (sext (load8 mem addr) 8)
    else if funct3 == 1
    then some (sext (load16 mem addr) 16)
    else if funct3 == 2
    then some (sext (load32 mem addr) 32)
    else if funct3 == 4
    then some (load8 mem addr)
    else if funct3 == 5
    then some (load16 mem addr)
    else if funct3 == 6
    then some (load32 mem addr)
    else if funct3 == 3
    then some (load64 mem addr)
    else none

unfoldable pub exec_load : State → ℕ → Outcome
exec_load s insn = finish s insn (loaded s.mem (funct3_of insn) (add64 (src1 s insn) (i_imm insn)))

-- The memory after a store.
unfoldable pub stored : Memory → ℕ → ℕ → ℕ → Option Memory
stored mem funct3 addr v =
    if funct3 == 0
    then some (store8 mem addr (u8 v))
    else if funct3 == 1
    then some (store16 mem addr (u16 v))
    else if funct3 == 2
    then some (store32 mem addr (u32 v))
    else if funct3 == 3
    then some (store64 mem addr v)
    else none

unfoldable pub store_to : State → Option Memory → Outcome
store_to s none = stop illegal
store_to s (some mem) = next (record s { mem = mem }) (next_pc_of s)

unfoldable pub exec_store : State → ℕ → Outcome
exec_store s insn =
    store_to s (stored s.mem (funct3_of insn) (add64 (src1 s insn) (s_imm insn)) (src2 s insn))

unfoldable pub exec_system : State → ℕ → Outcome
exec_system s insn =
    if i_imm insn == 0 then stop ecall else if i_imm insn == 1 then stop ebreak else stop illegal

-- The `switch (opcode)`.
unfoldable pub execute : State → ℕ → Outcome
execute s insn =
    let opcode = opcode_of insn in
    if opcode == 0x37
    then finish s insn (some (u_imm insn))
    else if opcode == 0x17
    then finish s insn (some (add64 s.pc (u_imm insn)))
    else if opcode == 0x6f
    then next (write_rd s (rd_of insn) (next_pc_of s)) (add64 s.pc (j_imm insn))
    else if opcode == 0x67
    then exec_jalr s insn
    else if opcode == 0x63
    then exec_branch s insn
    else if opcode == 0x03
    then exec_load s insn
    else if opcode == 0x23
    then exec_store s insn
    else if opcode == 0x13
    then finish s insn
        (op_imm (funct3_of insn) (funct7_of insn) (src1 s insn) (i_imm insn) (shamt_of insn))
    else if opcode == 0x33
    then finish s insn (op (funct3_of insn) (funct7_of insn) (src1 s insn) (src2 s insn))
    else if opcode == 0x0f
    then next s (next_pc_of s)
    else if opcode == 0x73
    then exec_system s insn
    else if opcode == 0x1b
    then finish s insn
        (op_imm_w (funct3_of insn) (funct7_of insn) (src1 s insn) (i_imm insn) (shamtw_of insn))
    else if opcode == 0x3b
    then finish s insn (op_w (funct3_of insn) (funct7_of insn) (src1 s insn) (src2 s insn))
    else stop illegal

-- What `step` does before the `switch`.
unfoldable pub fetched : State → State
fetched s = record s { x = update s.x 0 0; last_insn = fetch s.mem s.pc; last_rd = none }

-- ... and after it.
unfoldable pub commit : State → Outcome → State × Bool
commit s (next s' next_pc) = (record s' { x = update s'.x 0 0; pc = next_pc }, true)
commit s (stop e) = (record s { exit_reason = e }, false)

unfoldable pub step : State → State × Bool
step s = let s' = fetched s in commit s' (execute s' s'.last_insn)
