-- ===== src/Rename/Directed.antt =====
-- The directed tests of tb_rename.cpp, `directed`, a definition for each block; `exit(1)` is `none`.
use rv64_ooo_core.Prelude.{
  ℕ, zero, suc, ◌+◌, ◌%◌, leb, ◌==◌, if◌then◌else◌, Bool, true, false, not, Option, none, some,
  List, [], ◌∷◌, ◌++◌, length, get_or, ◌>>=◌, ◌>>◌, require,
}
use rv64_ooo_core.Rename.{Inputs, Outputs, n_ckpt}
use rv64_ooo_core.Rename.Bench.{Device, Bench, idle, step_and_check, do_cycle, reset_dut}

-- How a loop that a failed check may leave ends; with no fuel left it has not.
pub data Ending (S : Type 0) : Type 0 where
  exited : Ending S
  ended : S → Ending S
  out_of_fuel : Ending S

-- `in.valid0 = true; in.rs1_0 = rs1; in.rs2_0 = rs2; in.rd0 = rd;`
abbrev pub one : ℕ → ℕ → ℕ → Inputs
one rs1 rs2 rd = record idle { valid0 = true; rs1_0 = rs1; rs2_0 = rs2; rd0 = rd }

-- The same, with a second instruction.
abbrev pub and_one : Inputs → ℕ → ℕ → ℕ → Inputs
and_one i rs1 rs2 rd = record i { valid1 = true; rs1_1 = rs1; rs2_1 = rs2; rd1 = rd }

abbrev pub branch : Inputs → Inputs
branch i = record i { is_branch0 = true; ckpt_take0 = true }

-- What is done after a cycle of the loop that drains the free list: `none` is another cycle.
unfoldable pub drain_done : Outputs → Option Bool
drain_done o = if not o.rename_ready0 then some (not (leb 2 o.free_count)) else none

module _ (d : Device) where
  unfoldable pub x0_noalloc : Bench d → Option (Bench d)
  x0_noalloc t = do
    (t1, o) ← do_cycle d t (one 1 2 0)
    require (o.prd0 == 0)
    require (o.prev_prd0 == 0)
    some t1

  unfoldable pub hazard_rs1 : Bench d → Option (Bench d)
  hazard_rs1 t = do
    (t1, o) ← do_cycle d t (and_one (one 1 2 5) 5 3 6)
    require (o.prs1_1 == o.prd0)
    some t1

  unfoldable pub hazard_rs2 : Bench d → Option (Bench d)
  hazard_rs2 t = do
    (t1, o) ← do_cycle d t (and_one (one 1 2 7) 3 7 8)
    require (o.prs2_1 == o.prd0)
    some t1

  unfoldable pub same_rd : Bench d → Option (Bench d)
  same_rd t = do
    (t1, o) ← do_cycle d t (and_one (one 1 2 9) 3 4 9)
    require (not (o.prd0 == o.prd1))
    require (o.prev_prd1 == o.prd0)
    require (get_or t1.model.map 9 0 == o.prd1)
    some t1

  unfoldable pub drain_loop : ℕ → ℕ → Bench d → Ending (Bench d)
  drain_loop zero reg t = out_of_fuel
  drain_loop (suc fuel) reg t = elim (do_cycle d t (one 0 0 (reg % 31 + 1))) [
    | none ↦ exited
    | some (t1, o) ↦ elim (drain_done o) [
      | none ↦ drain_loop fuel (reg + 1) t1
      | some true ↦ ended t1
      | some false ↦ exited
    ]
  ]

  unfoldable pub drain : Bench d → Ending (Bench d)
  drain t = drain_loop 32 1 (reset_dut d t)

  unfoldable pub fill_loop : ℕ → Bench d → Option (Bench d)
  fill_loop zero t = some t
  fill_loop (suc n) t = do
    (t1, o) ← do_cycle d t (branch (one 0 0 0))
    require o.rename_ready0
    fill_loop n t1

  unfoldable pub ckpt_exhaustion : Bench d → Option (Bench d)
  ckpt_exhaustion t = do
    t1 ← fill_loop n_ckpt (reset_dut d t)
    (t2, o) ← do_cycle d t1 (branch (one 0 0 0))
    require (not o.rename_ready0)
    some t2

  unfoldable pub mispredict : Bench d → Option (Bench d)
  mispredict t = do
    (t1, o) ← step_and_check d (reset_dut d t) (branch (one 1 2 10))
    let saved_id = o.ckpt_id0
    let saved_p10 = get_or t1.model.map 10 0
    (t2, _) ← step_and_check d t1 (one 1 2 10)
    require (not (get_or t2.model.map 10 0 == saved_p10))
    (t3, _) ← step_and_check d t2 (record idle { restore_valid = true; restore_ckpt_id = saved_id })
    require (get_or t3.model.map 10 0 == saved_p10)
    (t4, oa) ← step_and_check d t3 (one 10 2 11)
    require (oa.prs1_0 == saved_p10)
    some t4

  -- A commit of the oldest of the registers in flight, once there are four.
  unfoldable pub wrap_commit : Bench d → List ℕ → Option (Bench d × List ℕ)
  wrap_commit t [] = some (t, [])
  wrap_commit t (front ∷ rest) =
      if leb 4 (length (front ∷ rest))
      then (do
        (t1, _) ← do_cycle d t (record idle { commit_valid0 = true; commit_prev_prd0 = front })
        some (t1, rest))
      else some (t, front ∷ rest)

  unfoldable pub wrap_loop : ℕ → ℕ → Bench d → List ℕ → Option (Bench d)
  wrap_loop zero i t inflight = some t
  wrap_loop (suc n) i t inflight = do
    (t1, o) ← do_cycle d t (one 0 0 (i % 31 + 1))
    (t2, rest) ← wrap_commit t1 (inflight ++ (o.prev_prd0 ∷ []))
    wrap_loop n (i + 1) t2 rest

  unfoldable pub wraparound : Bench d → Option (Bench d)
  wraparound t = wrap_loop 200 0 (reset_dut d t) []

  -- `directed`
  unfoldable pub directed : Bench d → Ending (Bench d)
  directed t =
      elim (do
        t1 ← x0_noalloc (reset_dut d t)
        t2 ← hazard_rs1 t1
        t3 ← hazard_rs2 t2
        same_rd t3) [
          | none ↦ exited
          | some t4 ↦ elim (drain t4) [
            | exited ↦ exited
            | out_of_fuel ↦ out_of_fuel
            | ended t5 ↦ elim (do t6 ← ckpt_exhaustion t5; t7 ← mispredict t6; wraparound t7) [
              | none ↦ exited
              | some t8 ↦ ended t8
            ]
          ]
        ]
