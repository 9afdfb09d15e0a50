-- ===== src/Iss/Invariant.antt =====
-- What holds of every step of `Iss::step`, whatever the instruction.
use rv64_ooo_core.Prelude.{
  ℕ, ◌+◌, ◌-◌, ◌^◌, ◌<◌, ◌≡◌, refl, arith, ◌==◌, if◌then◌else◌, bit_and, Option, none, some, Bool,
  true, false,
}
use rv64_ooo_core.Prelude.Bits.{bit_and-lt, bit_or-lt}
use rv64_ooo_core.Prelude.Word.{u8, u16, u32, u64, ◌<<◌}
use rv64_ooo_core.Iss.{State, Exit, nothing, update}
use rv64_ooo_core.Iss.Memory.{Memory, load8, load16, load32, load64}
use rv64_ooo_core.Iss.Bytes.{IsBytes}
use rv64_ooo_core.Iss.Bounds.{
  Fits64, nothing, value, if-Fits64, if-lt, wrap-lt, op_imm-Fits64, op-Fits64, op_imm_w-Fits64,
  op_w-Fits64,
}
use rv64_ooo_core.Iss.RoundTrip.{store8-IsBytes, store16-IsBytes, store32-IsBytes, store64-IsBytes}
use rv64_ooo_core.Iss.Decode.{
  sext, opcode_of, rd_of, funct3_of, funct7_of, shamt_of, shamtw_of, rs1_of, rs2_of, i_imm, s_imm,
  u_imm, j_imm,
}
use rv64_ooo_core.Iss.Alu.{add64}
use rv64_ooo_core.Iss.Execute.{
  Outcome, next, stop, reset, write_rd, next_pc_of, finish, src1, src2, exec_jalr, branch_to,
  exec_branch, loaded, exec_load, stored, store_to, exec_store, exec_system, execute, fetched,
  commit, step,
}

-- Registers and `pc` are 64-bit patterns, memory cells are bytes, and register 0 is 0.
pub record IsWellFormed (s : State) : Type 0 where
  pub x_fits : (i : ℕ) → s.x i < 2 ^ 64
  pub x_zero : s.x 0 ≡ 0
  pub pc_fits : s.pc < 2 ^ 64
  pub bytes : IsBytes s.mem

-- How an instruction ends from a valid state.
data Ends : Outcome → Type 0 where
  halts : {e : Exit} → Ends (stop e)
  continues :
      {s : State} {pc : ℕ}
      → ((i : ℕ) → s.x i < 2 ^ 64)
      → pc < 2 ^ 64
      → IsBytes s.mem
      → Ends (next s pc)

if-Ends : (b : Bool) (p q : Outcome) → Ends p → Ends q → Ends (if b then p else q)
if-Ends true p q hp hq = hp
if-Ends false p q hp hq = hq

add64-lt : (a b : ℕ) → add64 a b < 2 ^ 64
add64-lt a b = omega arith

sext-lt : (v bits : ℕ) → sext v bits < 2 ^ 64
unfolding sext
sext-lt v bits = omega arith

i_imm-lt : (insn : ℕ) → i_imm insn < 2 ^ 64
unfolding i_imm
i_imm-lt insn = sext-lt _ _

u_imm-lt : (insn : ℕ) → u_imm insn < 2 ^ 64
unfolding u_imm
u_imm-lt insn = wrap-lt _

module _ (mem : Memory) (h : IsBytes mem) where
  load8-lt : (a : ℕ) → load8 mem a < 2 ^ 8
  unfolding load8
  load8-lt a = h (bit_and a 0xffff)

  load16-lt : (a : ℕ) → load16 mem a < 2 ^ 16
  unfolding load16
  load16-lt a =
      bit_or-lt 16 (load8 mem a) (load8 mem (u64 (a + 1)) << 8) (omega (arith, load8-lt a))
        (omega (arith, load8-lt (u64 (a + 1))))

  load32-lt : (a : ℕ) → load32 mem a < 2 ^ 32
  unfolding load32
  load32-lt a =
      bit_or-lt 32 (load16 mem a) (load16 mem (u64 (a + 2)) << 16) (omega (arith, load16-lt a))
        (omega (arith, load16-lt (u64 (a + 2))))

  load64-lt : (a : ℕ) → load64 mem a < 2 ^ 64
  unfolding load64
  load64-lt a =
      bit_or-lt 64 (load32 mem a) (load32 mem (u64 (a + 4)) << 32) (omega (arith, load32-lt a))
        (omega (arith, load32-lt (u64 (a + 4))))

  load8_fits : (a : ℕ) → load8 mem a < 2 ^ 64
  load8_fits a = omega (arith, load8-lt a)

  load16_fits : (a : ℕ) → load16 mem a < 2 ^ 64
  load16_fits a = omega (arith, load16-lt a)

  load32_fits : (a : ℕ) → load32 mem a < 2 ^ 64
  load32_fits a = omega (arith, load32-lt a)

  loaded-Fits64 : (funct3 a : ℕ) → Fits64 (loaded mem funct3 a)
  unfolding loaded
  loaded-Fits64 funct3 a =
      search (if-Fits64, value, nothing, sext-lt, load8_fits, load16_fits, load32_fits, load64-lt)
        depth 30

-- The memory that a store leaves, if it is legal.
data Keeps : Option Memory → Type 0 where
  fails : Keeps none
  keeps : (mem : Memory) → IsBytes mem → Keeps (some mem)

if-Keeps : (b : Bool) (p q : Option Memory) → Keeps p → Keeps q → Keeps (if b then p else q)
if-Keeps true p q hp hq = hp
if-Keeps false p q hp hq = hq

stored-Keeps : (mem : Memory) (funct3 a v : ℕ) → IsBytes mem → Keeps (stored mem funct3 a v)
unfolding stored
stored-Keeps mem funct3 a v h =
    if-Keeps (funct3 == 0) _ _ (keeps _ (store8-IsBytes mem a (u8 v) h (omega arith))) (
      if-Keeps (funct3 == 1) _ _ (keeps _ (store16-IsBytes mem a (u16 v) h)) (
        if-Keeps (funct3 == 2) _ _ (keeps _ (store32-IsBytes mem a (u32 v) h))
          (if-Keeps (funct3 == 3) _ _ (keeps _ (store64-IsBytes mem a v h)) fails)))

if-all :
    (b : Bool) (f g : ℕ → ℕ)
    → ((i : ℕ) → f i < 2 ^ 64)
    → ((i : ℕ) → g i < 2 ^ 64)
    → (i : ℕ) → (if b then f else g) i < 2 ^ 64
if-all true f g hf hg = hf
if-all false f g hf hg = hg

module _ (s : State) (h : IsWellFormed s) (insn : ℕ) where
  written-fits : (rd v : ℕ) → v < 2 ^ 64 → (i : ℕ) → (write_rd s rd v).x i < 2 ^ 64
  unfolding write_rd
  written-fits rd v hv i =
      if-all (rd == 0) s.x (update s.x rd v) h.x_fits
        (λ j. if-lt (rd == j) v (s.x j) (2 ^ 64) hv (h.x_fits j)) i

  write_rd-Ends : (rd v pc : ℕ) → v < 2 ^ 64 → pc < 2 ^ 64 → Ends (next (write_rd s rd v) pc)
  unfolding write_rd
  write_rd-Ends rd v pc hv hp = continues (written-fits rd v hv) hp h.bytes

  stays-Ends : (pc : ℕ) → pc < 2 ^ 64 → Ends (next s pc)
  stays-Ends pc hp = continues h.x_fits hp h.bytes

  finish-Ends : (r : Option ℕ) → Fits64 r → Ends (finish s insn r)
  unfolding finish
  finish-Ends none f = halts
  finish-Ends (some v) (value _ hv) = write_rd-Ends (rd_of insn) v (next_pc_of s) hv (add64-lt _ _)

  exec_jalr-Ends : Ends (exec_jalr s insn)
  unfolding exec_jalr
  exec_jalr-Ends =
      if-Ends (funct3_of insn == 0) _ _
        (write_rd-Ends _ _ _ (add64-lt _ _) (
          bit_and-lt 64 (add64 (src1 s insn) (i_imm insn)) (2 ^ 64 - 2) (add64-lt _ _)
            (omega arith)))
        halts

  branch_to-Ends : (b : Option Bool) → Ends (branch_to s insn b)
  unfolding branch_to
  branch_to-Ends none = halts
  branch_to-Ends (some true) = stays-Ends _ (add64-lt _ _)
  branch_to-Ends (some false) = stays-Ends _ (add64-lt _ _)

  exec_branch-Ends : Ends (exec_branch s insn)
  unfolding exec_branch
  exec_branch-Ends = branch_to-Ends _

  store_to-Ends : (m : Option Memory) → Keeps m → Ends (store_to s m)
  unfolding store_to
  store_to-Ends none k = halts
  store_to-Ends (some mem) (keeps _ k) = continues h.x_fits (add64-lt _ _) k

  exec_store-Ends : Ends (exec_store s insn)
  unfolding exec_store
  exec_store-Ends =
      store_to-Ends _ (
        stored-Keeps s.mem (funct3_of insn) (add64 (src1 s insn) (s_imm insn)) (src2 s insn)
          h.bytes)

  exec_system-Ends : Ends (exec_system s insn)
  unfolding exec_system
  exec_system-Ends = search (if-Ends, halts)

  exec_load-Ends : Ends (exec_load s insn)
  unfolding exec_load
  exec_load-Ends = finish-Ends _ (loaded-Fits64 s.mem h.bytes (funct3_of insn) _)

  execute-Ends : Ends (execute s insn)
  unfolding execute
  execute-Ends =
      let a = src1 s insn in
      let b = src2 s insn in
      let ha = h.x_fits (rs1_of insn) in
      let hb = h.x_fits (rs2_of insn) in
      let f3 = funct3_of insn in
      let f7 = funct7_of insn in
      if-Ends (opcode_of insn == 0x37) _ _ (finish-Ends _ (value _ (u_imm-lt insn))) (
        if-Ends (opcode_of insn == 0x17) _ _ (finish-Ends _ (value _ (add64-lt s.pc (u_imm insn))))
          (if-Ends (opcode_of insn == 0x6f) _ _
            (write_rd-Ends _ _ _ (add64-lt s.pc 4) (add64-lt s.pc (j_imm insn)))
            (if-Ends (opcode_of insn == 0x67) _ _ exec_jalr-Ends (
              if-Ends (opcode_of insn == 0x63) _ _ exec_branch-Ends (
                if-Ends (opcode_of insn == 0x03) _ _ exec_load-Ends (
                  if-Ends (opcode_of insn == 0x23) _ _ exec_store-Ends (
                    if-Ends (opcode_of insn == 0x13) _ _
                      (finish-Ends _
                        (op_imm-Fits64 a (i_imm insn) ha (i_imm-lt insn) f3 f7 (shamt_of insn)))
                      (if-Ends (opcode_of insn == 0x33) _ _
                        (finish-Ends _ (op-Fits64 a b ha hb f3 f7))
                        (if-Ends (opcode_of insn == 0x0f) _ _ (stays-Ends _ (add64-lt s.pc 4)) (
                          if-Ends (opcode_of insn == 0x73) _ _ exec_system-Ends (
                            if-Ends (opcode_of insn == 0x1b) _ _
                              (finish-Ends _
                                (op_imm_w-Fits64 a (i_imm insn) f3 f7 (shamtw_of insn)))
                              (if-Ends (opcode_of insn == 0x3b) _ _
                                (finish-Ends _ (op_w-Fits64 a b f3 f7)) halts))))))))))))

fetched-IsWellFormed : (s : State) → IsWellFormed s → IsWellFormed (fetched s)
unfolding fetched
fetched-IsWellFormed s h = record {
  x_fits = λ i. if-lt (0 == i) 0 (s.x i) (2 ^ 64) (omega arith) (h.x_fits i);
  x_zero = refl;
  pc_fits = h.pc_fits;
  bytes = h.bytes;
}

commit-IsWellFormed :
    (s : State) (o : Outcome) → IsWellFormed s → Ends o → IsWellFormed (commit s o).0
unfolding commit
commit-IsWellFormed s (next s' pc) h (continues hx hp hb) = record {
  x_fits = λ i. if-lt (0 == i) 0 (s'.x i) (2 ^ 64) (omega arith) (hx i);
  x_zero = refl;
  pc_fits = hp;
  bytes = hb;
}
commit-IsWellFormed s (stop e) h halts = record {
  x_fits = h.x_fits;
  x_zero = h.x_zero;
  pc_fits = h.pc_fits;
  bytes = h.bytes;
}

-- Every step keeps the registers and `pc` 64-bit patterns, the memory cells bytes, and
-- register 0 at 0, also one that halts.
pub step-IsWellFormed : (s : State) → IsWellFormed s → IsWellFormed (step s).0
unfolding step
step-IsWellFormed s h =
    let h' = fetched-IsWellFormed s h in
    commit-IsWellFormed (fetched s) _ h' (execute-Ends (fetched s) h' (fetched s).last_insn)

pub reset-IsWellFormed : (mem : Memory) → IsBytes mem → IsWellFormed (reset mem)
unfolding reset
reset-IsWellFormed mem h = record {
  x_fits = λ i. omega arith;
  x_zero = refl;
  pc_fits = omega arith;
  bytes = h;
}
