-- ===== src/Lsq/BenchTests.antt =====
-- A device that plays back what it is to show, and the theorems on the testbench at it.
use rv64_ooo_core.Prelude.{
  ℕ, ◌+◌, ◌-◌, ◌%◌, ◌≤◌, ◌<◌, ◌≡◌, refl, arith, ◌==◌, if◌then◌else◌, true, false, List, [], ◌∷◌,
}
use native.Mathlib.Nat.{mod-lt}
use rv64_ooo_core.Lsq.{
  LqEntry, SqEntry, bytes_of, from_memory, forwarded, fresh, peek_dispatch, peek_store_commit,
  apply_dispatch, dispatch_one, apply_store_addr, apply_commit, commit_store, commit_load,
}
use rv64_ooo_core.Lsq.Outcome.{Outcome, ok, failed, out_of_bounds}
use rv64_ooo_core.Lsq.Bench.{written, reset_bench, check_final_memory_image, cleared, in_bounds}
use rv64_ooo_core.Lsq.BenchCycle.{
  CycleInputs, Seen, Device, drive, tick, withdraw, dispatch_agrees, counts_agree, store_agrees,
  check_response, through_owner, update_op,
}
use rv64_ooo_core.Lsq.BenchApply.{
  Run, cycles, reset_all, cycle, memory_answer, answered_read, observed, observe, after_checks,
  applied, dispatched, accept, store_addressed, load_addressed, committed, memory_written,
  after_write, retire_if, retired, after_commit, squashed, idle,
}
use rv64_ooo_core.Lsq.Random.{Rng, pick_inputs}
use rv64_ooo_core.Lsq.Replay.{cycles-image}
use rv64_ooo_core.Lsq.ForwardMemory.{forwarded-from_memory}
use rv64_ooo_core.Lsq.Window.{IsUniform, AreInWindow, pick_inputs-AreInWindow}

-- The queues empty and ready.
abbrev quiet : Seen
quiet = record {
  disp_ready0 = true;
  disp_ready1 = true;
  disp_lq_idx0 = 0;
  disp_lq_idx1 = 0;
  disp_sq_idx0 = 0;
  disp_sq_idx1 = 0;
  lq_count = 0;
  sq_count = 0;
  dmem_rd_valid = false;
  dmem_rd_addr = 0;
  dmem_rd_size = 0;
  dmem_wr_valid = false;
  dmem_wr_addr = 0;
  dmem_wr_size = 0;
  dmem_wr_data = 0;
  ld_resp_valid = false;
  ld_resp_lq_idx = 0;
  ld_resp_rob_idx = 0;
  ld_resp_data = 0;
}

-- After the reset, a store is in the queue for two cycles, and is written in the second.
abbrev script : ℕ → Seen
script n =
    if n == 2
    then record quiet { sq_count = 1 }
    else if n == 3
    then record quiet {
      sq_count = 1;
      dmem_wr_valid = true;
      dmem_wr_addr = 64;
      dmem_wr_size = 1;
      dmem_wr_data = 4660;
    }
    else quiet

abbrev player : Device
player = record {
  Dut = ℕ;
  set_clk = λ n b. if b then n + 1 else n;
  set_rst = λ n b. n;
  set_disp = λ n k v l i. n;
  set_rob_head = λ n v. n;
  set_st_addr_valid = λ n b. n;
  set_st = λ n k a s v. n;
  set_ld_addr_valid = λ n b. n;
  set_ld = λ n k a s b. n;
  set_commit_store_valid = λ n b. n;
  set_commit_load_valid = λ n b. n;
  set_squash_valid = λ n b. n;
  set_squash_rob_idx = λ n v. n;
  set_squash_all = λ n b. n;
  set_dmem_rd_data = λ n v. n;
  eval = λ n. n;
  outputs = script;
}

abbrev no_inputs : CycleInputs
no_inputs = record {
  disp_valid0 = false;
  disp_valid1 = false;
  disp_is_load0 = false;
  disp_is_load1 = false;
  st_addr_valid = false;
  st_slot = 0;
  st_addr = 0;
  st_size = 0;
  st_data = 0;
  ld_addr_valid = false;
  ld_slot = 0;
  ld_addr = 0;
  ld_size = 0;
  ld_signed = false;
  commit_store = false;
  commit_load = false;
  squash_valid = false;
  squash_rob_idx = 0;
  squash_all = false;
}

-- A store of 0x1234 to 64: dispatched, addressed, committed.
abbrev one_store : List CycleInputs
one_store =
    record no_inputs { disp_valid0 = true }
    ∷ record no_inputs { st_addr_valid = true; st_addr = 64; st_size = 1; st_data = 4660 }
    ∷ record no_inputs { commit_store = true }
    ∷ no_inputs
    ∷ []

abbrev powered : Run player
powered = record {
  dut = 0;
  bench = record {
    model = record {
      lq = [];
      sq = [];
      lq_head = 0;
      lq_tail = 0;
      lq_cnt = 0;
      sq_head = 0;
      sq_tail = 0;
      sq_cnt = 0;
    };
    mem = cleared;
    prog = [];
    lq_owner = [];
    sq_owner = [];
    next_rob_idx = 0;
    next_id = 0;
    g_cycle = 0;
    g_forwards = 0;
    g_stalls = 0;
    g_commit_log = [];
  };
}

abbrev run_of : Outcome (Run player) → Run player
run_of (ok r) = r
run_of failed = powered
run_of out_of_bounds = powered

after_store : Run player
unfolding cycles cycle memory_answer reset_all answered_read observed observe dispatch_agrees
    peek_dispatch reset_bench fresh counts_agree store_agrees peek_store_commit check_response
    after_checks applied dispatched accept apply_dispatch dispatch_one store_addressed
    load_addressed apply_store_addr through_owner update_op committed memory_written in_bounds
    bytes_of after_write apply_commit commit_store commit_load retire_if retired after_commit
    squashed idle
after_store = run_of (cycles player (reset_all player powered) one_store)

after_store_is : cycles player (reset_all player powered) one_store ≡ ok after_store
unfolding after_store drive tick withdraw cycles cycle memory_answer reset_all answered_read
    observed observe dispatch_agrees peek_dispatch reset_bench fresh counts_agree store_agrees
    peek_store_commit check_response after_checks applied dispatched accept apply_dispatch
    dispatch_one store_addressed load_addressed apply_store_addr through_owner update_op committed
    memory_written in_bounds bytes_of after_write apply_commit commit_store commit_load retire_if
    retired after_commit squashed idle
after_store_is = refl

stored_log : after_store.bench.g_commit_log ≡ record { addr = 64; size = 1; store_data = 4660 } ∷ []
unfolding after_store drive tick withdraw
stored_log = refl

cycles-image_example : check_final_memory_image after_store.bench ≡ true
cycles-image_example = cycles-image player powered after_store one_store after_store_is

-- The upper half of a word is read as a half word with its sign.
abbrev half_load : LqEntry
half_load = record { rob_idx = 4; addr_v = true; addr = 0x202; size = 1; sgn = true }

abbrev word_store : SqEntry
word_store = record { rob_idx = 3; addr_v = true; addr = 0x200; size = 2; store_data = 0x80017ffe }

forwarded-from_memory_example :
    from_memory
      (written cleared (record { addr = 0x200; size = 2; store_data = 0x80017ffe }))
      half_load
    ≡ forwarded 8 8 5 half_load word_store
unfolding bytes_of
forwarded-from_memory_example =
    forwarded-from_memory 8 8 5 cleared half_load word_store refl
      (record { size_in = omega arith; end_in = omega arith })
      (record { size_in = omega arith; end_in = omega arith }) (omega arith)

-- A generator that counts.
abbrev counting : Rng
counting = record {
  Gen = ℕ;
  seeded = λ n. n;
  draw = λ n lo hi. (lo + n % (hi - lo + 1), n + 7);
  next = λ n. (n, n + 5);
}

counting-IsUniform : IsUniform counting
counting-IsUniform = record { draw_in = λ n lo hi h. (omega arith, in_range n lo hi h) }
  where
    in_range : (n lo hi : ℕ) → lo ≤ hi → lo + n % (hi - lo + 1) ≤ hi
    in_range n lo hi h = let p : 0 < hi - lo + 1 = omega arith in omega (arith, mod-lt n p)

pick_inputs-AreInWindow_example : AreInWindow (pick_inputs counting false after_store.bench 3).0.0
pick_inputs-AreInWindow_example =
    pick_inputs-AreInWindow counting false after_store.bench 3 counting-IsUniform
