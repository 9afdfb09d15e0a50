-- ===== src/Iss/Effect.antt =====
-- What a step of `Iss::step` reports in `last_rd`, `last_rd_val` and `exit_reason`, which
-- model/main.cpp and the testbenches read.
use rv64_ooo_core.Prelude.{
  ℕ, zero, suc, ◌≡◌, refl, sym, ◌∙◌, ◌≢◌, arith, ◌==◌, if◌then◌else◌, Option, none, some, Bool,
  true, false,
}
use rv64_ooo_core.Iss.{State, Exit, nothing, ecall, ebreak, illegal, update}
use rv64_ooo_core.Iss.Memory.{Memory, fetch}
use rv64_ooo_core.Iss.Decode.{rd_of}
use rv64_ooo_core.Iss.Execute.{
  Outcome, next, stop, write_rd, finish, exec_jalr, branch_to, exec_branch, exec_load, store_to,
  exec_store, exec_system, execute, fetched, commit, step,
}

-- The registers, as a reader of the trace replays them: one register is written, or none.
abbrev pub replayed : Option ℕ → ℕ → (ℕ → ℕ) → ℕ → ℕ
replayed none v x = x
replayed (some rd) v x = update x rd v

-- A step halts with a reason, and nothing else of the architecture changes; or it goes on, the reason
-- stays as it was, and `last_rd` and `last_rd_val` tell all that happens to the registers.
pub data Effect (s : State) : State × Bool → Type 0 where
  halted : (e : Exit) → e ≢ nothing → Effect s (record (fetched s) { exit_reason = e }, false)
  continued :
      (s' : State)
      → s'.exit_reason ≡ s.exit_reason
      → s'.last_insn ≡ fetch s.mem s.pc
      → ((i : ℕ) → s'.x i ≡ replayed s'.last_rd s'.last_rd_val (update s.x 0 0) i)
      → Effect s (s', true)

-- The same of the `switch`, from the state `s` that follows the fetch.
data Reports (s : State) : Outcome → Type 0 where
  stops : {e : Exit} → e ≢ nothing → Reports s (stop e)
  goes :
      (s' : State) (pc : ℕ)
      → s'.x 0 ≡ 0
      → s'.exit_reason ≡ s.exit_reason
      → s'.last_insn ≡ s.last_insn
      → ((i : ℕ) → s'.x i ≡ replayed s'.last_rd s'.last_rd_val s.x i)
      → Reports s (next s' pc)

ecall_halts : ecall ≢ nothing
ecall_halts e = cc

ebreak_halts : ebreak ≢ nothing
ebreak_halts e = cc

illegal_halts : illegal ≢ nothing
illegal_halts e = cc

-- A zero in register 0 may be written again.
same_zero : (x : ℕ → ℕ) (i : ℕ) → x 0 ≡ 0 → x i ≡ update x 0 0 i
same_zero x zero h = h
same_zero x (suc i) h = ground arith

module _ (s : State) (h : s.x 0 ≡ 0) where
  if-Reports :
      (b : Bool) (p q : Outcome) → Reports s p → Reports s q → Reports s (if b then p else q)
  if-Reports true p q hp hq = hp
  if-Reports false p q hp hq = hq

  wrote :
      (b : Bool) (rd v pc : ℕ)
      → (rd == 0) ≡ b
      → Reports s (
          next
            (record s {
              x = if b then s.x else update s.x rd v;
              last_rd = some rd;
              last_rd_val = if b then 0 else v;
            })
            pc)
  wrote true rd v pc e =
      goes (record s { last_rd = some rd; last_rd_val = 0 }) pc h refl refl (λ i. ground arith)
  wrote false rd v pc e =
      goes (record s { x = update s.x rd v; last_rd = some rd; last_rd_val = v }) pc (ground arith)
        refl refl (λ i. refl)

  write_rd-Reports : (rd v pc : ℕ) → Reports s (next (write_rd s rd v) pc)
  unfolding write_rd
  write_rd-Reports rd v pc = wrote (rd == 0) rd v pc refl

  finish-Reports : (insn : ℕ) (r : Option ℕ) → Reports s (finish s insn r)
  unfolding finish
  finish-Reports insn none = stops illegal_halts
  finish-Reports insn (some v) = write_rd-Reports (rd_of insn) v _

  module _ (none_yet : s.last_rd ≡ none) where
    stays-Reports : (mem : Memory) (pc : ℕ) → Reports s (next (record s { mem = mem }) pc)
    stays-Reports mem pc = goes (record s { mem = mem }) pc h refl refl (λ i. rw none_yet refl)

    unchanged-Reports : (pc : ℕ) → Reports s (next s pc)
    unchanged-Reports pc = stays-Reports s.mem pc

    branch_to-Reports : (insn : ℕ) (b : Option Bool) → Reports s (branch_to s insn b)
    unfolding branch_to
    branch_to-Reports insn none = stops illegal_halts
    branch_to-Reports insn (some true) = stays-Reports s.mem _
    branch_to-Reports insn (some false) = stays-Reports s.mem _

    store_to-Reports : (m : Option Memory) → Reports s (store_to s m)
    unfolding store_to
    store_to-Reports none = stops illegal_halts
    store_to-Reports (some mem) = stays-Reports mem _

    execute-Reports : (insn : ℕ) → Reports s (execute s insn)
    unfolding execute exec_jalr exec_branch exec_load exec_store exec_system
    execute-Reports insn =
        search
          (
            if-Reports, finish-Reports, write_rd-Reports, branch_to-Reports, store_to-Reports,
            unchanged-Reports, stops, illegal_halts, ecall_halts, ebreak_halts,
          )
          depth 30

commit-Effect : (s : State) (o : Outcome) → Reports (fetched s) o → Effect s (commit (fetched s) o)
unfolding commit fetched
commit-Effect s (stop e) (stops ne) = halted e ne
commit-Effect s (next s' pc) (goes _ _ zero_reg exit insn regs) =
    continued (record s' { x = update s'.x 0 0; pc = pc }) exit insn
      (λ i. sym (same_zero s'.x i zero_reg) ∙ regs i)

-- A step that returns false leaves a reason in `exit_reason`, and `pc`, the memory and the registers
-- but register 0 as they were. A step that returns true leaves `exit_reason` as it was, and the
-- registers after it are those before it, register 0 cleared, with `last_rd_val` in `last_rd`, or
-- unchanged when `last_rd` is -1. This holds of every state.
pub step-Effect : (s : State) → Effect s (step s)
unfolding step fetched
step-Effect s = commit-Effect s _ (execute-Reports (fetched s) refl refl (fetched s).last_insn)
