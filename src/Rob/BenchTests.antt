-- ===== src/Rob/BenchTests.antt =====
-- A device that is the model itself, a generator, and the testbench of the reorder buffer at them.
use native.Mathlib.Nat.{mod-lt}
use rv64_ooo_core.Prelude.{
  ℕ, ◌+◌, ◌-◌, ◌%◌, ◌≤◌, ◌<◌, ◌≡◌, refl, sym, ap, arith, if◌then◌else◌, Bool, true, false, not,
  ◌&&◌, List, [], ◌∷◌, get_or, set, get_or-replicate, none, some, is_some, one_if,
}
use rv64_ooo_core.Prelude.Occurrences.{occurrences}
use rv64_ooo_core.Rob.{
  Rob, AllocReq, WbReq, empty_entry, fresh, alloc_ready, is_empty, is_full, step, advance,
  alloc_loop, can_commit, commit_outs, count_commits, flush_of, flush_round, flush_scan, n_commit,
  n_valid, outputs, retire_alloc, retire_loop, squash_branch, squash_loop, wb_loop,
}
use rv64_ooo_core.Rob.Invariant.{IsValid, fresh-IsValid}
use rv64_ooo_core.Rob.Bench.{
  depth, width, Device, Seen, do_reset, tick, apply_rst_only, idle_slots, mk_alloc, mk_wb,
  drive_alloc, drive_wb, check_cycle, clocked, check_outputs, check_commits, same_commit,
  same_fields, same_flush, same_indices, same_status, alloc_indices,
}
use rv64_ooo_core.Rob.Pending.{pending_at, hits, is_pending}
use rv64_ooo_core.Rob.Directed
use rv64_ooo_core.Rob.Directed.{
  no_alloc, no_wb, directed_tests, fill_to_full, fill_loop, allocate, drive_allocs, drive_wbs,
  both_empty, commit_drains, drain_loop, drain_round, exception_flush, mispredict_squash,
  no_commits, out_of_order, pass, wrap_loop, wrap_round, wraparound,
}
use rv64_ooo_core.Rob.Random.{
  Rng, Test, random_cycles, random_cycle, driven, pick_wbs, pick_round, pick_wb, choose, already,
  erase_at, chance, and_chance, random_alloc, random_allocs, random_wb, note_allocs,
  outstanding_after,
}
use rv64_ooo_core.Rob.Outstanding.{IsUniform}
use rv64_ooo_core.Rob.Waiting.{IsOutstanding}
use rv64_ooo_core.Rob.RandomRun.{start_picks, pick_wbs-pending, random_cycles-IsOutstanding}

-- The registers and the input ports; `was_high` is the clock of the evaluation before.
record Twin : Type 0 where
  pub state : Rob
  pub allocs : List AllocReq
  pub wbs : List WbReq
  pub rst : Bool
  pub clk : Bool
  pub was_high : Bool

-- A rising edge takes the step.
evaluated : Twin → Twin
evaluated w =
    let (after, out) = step depth width w.state w.allocs w.wbs w.rst in
    record w { state = if w.clk && not w.was_high then after else w.state; was_high = w.clk }

shown : Twin → Seen
shown w =
    let out = outputs depth width w.state in
    record {
      alloc_ready = alloc_ready depth width w.state;
      alloc_rob_idx = alloc_indices w.state;
      commits = out.commit_out;
      flush_valid = out.flush_valid;
      flush_full = out.flush_full;
      flush_pc = out.flush_pc;
      flush_branch_rob_idx = out.flush_branch_idx;
      rob_head = w.state.head;
      rob_tail = w.state.tail;
      rob_count = w.state.count;
      rob_empty = is_empty depth width w.state;
      rob_full = is_full depth width w.state;
    }

abbrev twin : Device
twin = record {
  Dut = Twin;
  set_clk = λ w b. record w { clk = b };
  set_rst = λ w b. record w { rst = b };
  set_alloc_valid = λ w i b. record w {
    allocs = set w.allocs i (record (get_or w.allocs i no_alloc) { valid = b });
  };
  set_wb_valid =
      λ w i b. record w { wbs = set w.wbs i (record (get_or w.wbs i no_wb) { valid = b }) };
  set_commit_accept = λ w i b. w;
  set_alloc = λ w i a. record w { allocs = set w.allocs i a };
  set_wb = λ w i b. record w { wbs = set w.wbs i b };
  eval = evaluated;
  seen = shown;
}

abbrev new_twin : Twin
new_twin = record {
  state = fresh depth width;
  allocs = no_alloc ∷ no_alloc ∷ [];
  wbs = no_wb ∷ no_wb ∷ [];
  rst = false;
  clk = false;
  was_high = false;
}

-- A generator that counts.
abbrev counting : Rng
counting = record { Gen = ℕ; seeded = λ n. n; draw = λ n lo hi. (lo + n % (hi - lo + 1), n + 7) }

counting-IsUniform : IsUniform counting
counting-IsUniform = record { draw_in = λ n lo hi h. (omega arith, in_range n lo hi h) }
  where
    in_range : (n lo hi : ℕ) → lo ≤ hi → lo + n % (hi - lo + 1) ≤ hi
    in_range n lo hi h = let p : 0 < hi - lo + 1 = omega arith in omega (arith, mod-lt n p)

abbrev start : Test counting twin
start = record {
  bench = record { dut = new_twin; model = fresh depth width; commits = 0 };
  outstanding = [];
  gen = 20;
}

abbrev later : Test counting twin
later = elim (random_cycles counting twin 2 start) [ none ↦ start | some s ↦ s ]

passes_directed : is_some (directed_tests twin new_twin) ≡ true
unfolding evaluated shown do_reset tick apply_rst_only idle_slots mk_alloc mk_wb drive_alloc
    drive_wb check_cycle clocked check_outputs check_commits same_commit same_fields same_flush
    same_indices same_status alloc_indices alloc_ready is_empty is_full step advance alloc_loop
    can_commit commit_outs count_commits flush_of flush_round flush_scan n_commit n_valid outputs
    retire_alloc retire_loop squash_branch squash_loop wb_loop directed_tests fill_to_full fill_loop
    allocate drive_allocs drive_wbs both_empty commit_drains drain_loop drain_round exception_flush
    mispredict_squash no_commits out_of_order pass wrap_loop wrap_round wraparound
    Directed.write_back
passes_directed = refl

runs : random_cycles counting twin 2 start ≡ some later
unfolding evaluated shown do_reset tick apply_rst_only idle_slots mk_alloc mk_wb drive_alloc
    drive_wb check_cycle clocked check_outputs check_commits same_commit same_fields same_flush
    same_indices same_status alloc_indices alloc_ready is_empty is_full step advance alloc_loop
    can_commit commit_outs count_commits flush_of flush_round flush_scan n_commit n_valid outputs
    retire_alloc retire_loop squash_branch squash_loop wb_loop random_cycles random_cycle driven
    pick_wbs pick_round pick_wb choose already erase_at chance and_chance random_alloc random_allocs
    random_wb note_allocs outstanding_after drive_allocs drive_wbs
runs = refl

outstanding_later : later.outstanding ≡ 2 ∷ 3 ∷ []
unfolding evaluated shown do_reset tick apply_rst_only idle_slots mk_alloc mk_wb drive_alloc
    drive_wb check_cycle clocked check_outputs check_commits same_commit same_fields same_flush
    same_indices same_status alloc_indices alloc_ready is_empty is_full step advance alloc_loop
    can_commit commit_outs count_commits flush_of flush_round flush_scan n_commit n_valid outputs
    retire_alloc retire_loop squash_branch squash_loop wb_loop random_cycles random_cycle driven
    pick_wbs pick_round pick_wb choose already erase_at chance and_chance random_alloc random_allocs
    random_wb note_allocs outstanding_after drive_allocs drive_wbs
outstanding_later = refl

start_waits : IsOutstanding start.bench.model start.outstanding
unfolding occurrences
start_waits x = sym (ap (λ e. one_if (is_pending e)) (get_or-replicate depth x empty_entry))

later_waits : IsOutstanding later.bench.model later.outstanding
later_waits =
    (random_cycles-IsOutstanding counting counting-IsUniform twin 2 start later
      (fresh-IsValid depth width (omega arith) (omega arith)) start_waits runs).1

random_cycles-IsOutstanding_example :
    IsValid depth later.bench.model × IsOutstanding later.bench.model later.outstanding
random_cycles-IsOutstanding_example =
    random_cycles-IsOutstanding counting counting-IsUniform twin 2 start later
      (fresh-IsValid depth width (omega arith) (omega arith)) start_waits runs

pick_wbs-pending_example :
    hits 2 (pick_wbs counting width (start_picks later.outstanding) 3).0.wbs
    ≤ pending_at later.bench.model.buf 2
pick_wbs-pending_example =
    pick_wbs-pending counting counting-IsUniform later.bench.model later.outstanding width 3 2
      later_waits
