-- ===== src/Rob/Bench.antt =====
-- The testbench of the reorder buffer, sim/ooo/rob/tb_rob.cpp: a cycle driven through the device compiled
-- from the RTL, a parameter, and through the model, with the comparison of both. `return false` is `none`;
-- what is only printed (the seed and the cycle number) and `g_time`, which is only counted, are left out.
use rv64_ooo_core.Prelude.{
  ℕ, zero, suc, ◌+◌, ◌==◌, if◌then◌else◌, Bool, true, false, not, ◌&&◌, ◌||◌, Option, some, List,
  [], tabulate, get_or, ◌>>=◌, ◌>>◌, require, same,
}
use rv64_ooo_core.Prelude.Word.{u8, u64}
use rv64_ooo_core.Rob.{
  Rob, AllocReq, WbReq, CommitOut, StepOut, no_commit, is_empty, is_full, alloc_ready, alloc_idx,
  step,
}

abbrev pub depth : ℕ
depth = 32

abbrev pub width : ℕ
width = 2

-- The outputs of the device; a commit is the ports `commit_valid` to `commit_is_store` of a slot.
pub record Seen : Type 0 where
  pub alloc_ready : Bool
  pub alloc_rob_idx : List ℕ
  pub commits : List CommitOut
  pub flush_valid : Bool
  pub flush_full : Bool
  pub flush_pc : ℕ
  pub flush_branch_rob_idx : ℕ
  pub rob_head : ℕ
  pub rob_tail : ℕ
  pub rob_count : ℕ
  pub rob_empty : Bool
  pub rob_full : Bool

-- What the testbench uses of the Verilated class: its ports, by slot, and the evaluation of the circuit.
pub record Device : Type 1 where
  pub Dut : Type 0
  pub set_clk : Dut → Bool → Dut
  pub set_rst : Dut → Bool → Dut
  pub set_alloc_valid : Dut → ℕ → Bool → Dut
  pub set_wb_valid : Dut → ℕ → Bool → Dut
  pub set_commit_accept : Dut → ℕ → Bool → Dut
  pub set_alloc : Dut → ℕ → AllocReq → Dut
  pub set_wb : Dut → ℕ → WbReq → Dut
  pub eval : Dut → Dut
  pub seen : Dut → Seen

unfoldable pub mk_alloc : Bool → ℕ → ℕ → ℕ → ℕ → Bool → Bool → AllocReq
mk_alloc v pc rd prd prev br st = record {
  valid = v;
  pc = u64 pc;
  rd_arch = u8 rd;
  prd = u8 prd;
  prev_prd = u8 prev;
  is_branch = br;
  is_store = st;
}

unfoldable pub mk_wb : Bool → ℕ → Bool → Bool → ℕ → WbReq
mk_wb v idx exc mis rpc = record {
  valid = v;
  rob_idx = idx;
  exception = exc;
  mispredict = mis;
  redirect_pc = u64 rpc;
}

-- The loop that compares `alloc_rob_idx`.
unfoldable pub same_indices : List ℕ → List ℕ → ℕ → ℕ → Bool
same_indices dut exp zero i = true
same_indices dut exp (suc left) i =
    (get_or dut i 0 == get_or exp i 0) && same_indices dut exp left (suc i)

unfoldable pub same_fields : CommitOut → CommitOut → Bool
same_fields dut exp =
    (dut.pc == exp.pc)
    && (dut.rd_arch == exp.rd_arch)
    && (dut.prd == exp.prd)
    && (dut.prev_prd == exp.prev_prd)
    && same dut.is_store exp.is_store

-- One slot of the loop that compares the commits.
unfoldable pub same_commit : CommitOut → CommitOut → Bool
same_commit dut exp = same dut.valid exp.valid && (not dut.valid || same_fields dut exp)

-- The loop, with `commits_seen`.
unfoldable pub check_commits : List CommitOut → List CommitOut → ℕ → ℕ → ℕ → Option ℕ
check_commits dut exp zero i seen = some seen
check_commits dut exp (suc left) i seen =
    let cv = (get_or dut i no_commit).valid in
    do
      require (same_commit (get_or dut i no_commit) (get_or exp i no_commit))
      check_commits dut exp left (suc i) (if cv then seen + 1 else seen)

-- The comparisons of the flush outputs.
unfoldable pub same_flush : Seen → StepOut → Bool
same_flush s out =
    (same s.flush_valid out.flush_valid && same s.flush_full out.flush_full)
    && (not out.flush_valid || (s.flush_pc == out.flush_pc))
    && (not (out.flush_valid && not out.flush_full)
        || (s.flush_branch_rob_idx == out.flush_branch_idx))

-- The checks before the clock edge, which give `commits_seen`.
unfoldable pub check_outputs : Seen → Bool → List ℕ → StepOut → ℕ → Option ℕ
check_outputs s ready idx out seen = do
  require (same s.alloc_ready ready)
  require (same_indices s.alloc_rob_idx idx width 0)
  n ← check_commits s.commits out.commit_out width 0 seen
  require (same_flush s out)
  some n

-- The checks after it.
unfoldable pub same_status : Seen → Rob → Bool
same_status s model =
    ((s.rob_head == model.head) && (s.rob_tail == model.tail) && (s.rob_count == model.count))
    && (same s.rob_empty (is_empty depth width model)
        && same s.rob_full (is_full depth width model))

-- `exp_alloc_idx`
unfoldable pub alloc_indices : Rob → List ℕ
alloc_indices model = tabulate (alloc_idx depth width model) width

module _ (d : Device) where
  unfoldable pub tick : d.Dut → d.Dut
  tick dut = d.eval (d.set_clk (d.eval (d.set_clk dut false)) true)

  -- One round of the loop of `applyRstOnly`, and the loop.
  abbrev pub idle_slot : ℕ → d.Dut → d.Dut
  idle_slot i dut =
      d.set_commit_accept (d.set_wb_valid (d.set_alloc_valid dut i false) i false) i true

  unfoldable pub idle_slots : ℕ → ℕ → d.Dut → d.Dut
  idle_slots zero i dut = dut
  idle_slots (suc left) i dut = idle_slots left (suc i) (idle_slot i dut)

  unfoldable pub apply_rst_only : Bool → d.Dut → d.Dut
  apply_rst_only rst dut = idle_slots width 0 (d.set_rst dut rst)

  unfoldable pub drive_alloc : ℕ → AllocReq → d.Dut → d.Dut
  drive_alloc slot a dut = d.set_alloc dut slot a

  -- The port of an index is a byte of the class.
  unfoldable pub drive_wb : ℕ → WbReq → d.Dut → d.Dut
  drive_wb slot w dut = d.set_wb dut slot (record w { rob_idx = u8 w.rob_idx })

  -- The variables of a test.
  pub record Bench : Type 0 where
    pub dut : d.Dut
    pub model : Rob
    pub commits : ℕ

  -- What a cycle leaves, with `alloc_idx_out` and `flush_this_cycle_out`.
  pub record Cycle : Type 0 where
    pub bench : Bench
    pub alloc_idx : List ℕ
    pub flush_this_cycle : Bool

  -- The clock edge and the checks after it.
  unfoldable pub clocked : d.Dut → Rob → ℕ → List ℕ → StepOut → Option Cycle
  clocked dut model commits idx out =
      let dut1 = d.eval (tick dut) in
      do
        require (same_status (d.seen dut1) model)
        some (record {
          bench = record { dut = dut1; model = model; commits = commits };
          alloc_idx = idx;
          flush_this_cycle = out.flush_valid;
        })

  unfoldable pub check_cycle : Bench → List AllocReq → List WbReq → Bool → Option Cycle
  check_cycle t allocs wbs rst =
      let dut = d.eval t.dut in
      let idx = alloc_indices t.model in
      let (model, out) = step depth width t.model allocs wbs rst in
      do
        commits ←
            if rst
            then some t.commits
            else check_outputs (d.seen dut) (alloc_ready depth width t.model) idx out t.commits
        clocked dut model commits idx out

  unfoldable pub do_reset : Bench → Bench
  do_reset t =
      let (model, out) = step depth width t.model [] [] true in
      record t { dut = d.eval (d.set_rst (tick (apply_rst_only true t.dut)) false); model = model }
