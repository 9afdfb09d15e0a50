-- ===== src/Rename/BenchTests.antt =====
-- A device that is the model itself, a generator, and the theorems on the testbench at them.
use rv64_ooo_core.Prelude.{
  ℕ, zero, suc, ◌+◌, ◌-◌, ◌%◌, ◌<◌, ◌≡◌, ◌≢◌, ◌↔◌, refl, ap, ap₂, ◌∙◌, arith, leb, ltb, ◌&&◌,
  one_if, Bool, true, false, Option, none, some, [], ◌∷◌, get_or, replicate, tabulate, tabulate_ext,
  get_or-replicate, if◌then◌else◌, is_some,
}
use rv64_ooo_core.Prelude.Occurrences.{occurrences, contains, to_set, all}
use rv64_ooo_core.Prelude.Word.{pos}
use rv64_ooo_core.Rename.{
  Rename, Inputs, Outputs, depth, reset, step, renamed, outputs, freed, bundle_ready,
  free_list_contents,
}
use rv64_ooo_core.Rename.Ring.{IsRing}
use rv64_ooo_core.Rename.Bench.{
  Device, Bench, idle, step_and_check, settled, rising_edge, port_values, all_equal,
  check_invariants, do_cycles, committed, displaced,
}
use rv64_ooo_core.Rename.Accounting.{Accounted, IsLegal, cycle-Accounted}
use rv64_ooo_core.Rename.Conformance.{Conforms, cycles-Conforms}
use rv64_ooo_core.Rename.Directed.{drain, out_of_fuel}
use rv64_ooo_core.Rename.Random.{Rng, renamed_both, push_back, can_commit}
use rv64_ooo_core.Rename.RandomCycle.{
  Test, random_cycle, resolution, resolve_oldest, after_cycle, rename_cycle, finish_rename, request,
  commits, chance, and_chance, drive_requests,
}
use rv64_ooo_core.Rename.Tracking.{IsTracked}
use rv64_ooo_core.Rename.TrackedCycle.{random_cycle-IsTracked}
use rv64_ooo_core.Rename.Drain.{drain-ends}

record Twin : Type 0 where
  pub state : Rename
  pub ports : Inputs
  pub out : Outputs
  pub clk : Bool
  pub rst : Bool

-- `eval` settles the outputs while the clock is low, and takes the step when it is high.
evaluated : Twin → Twin
evaluated w =
    let (after, out) = step w.state w.ports in
    if w.clk then record w { state = if w.rst then reset else after } else record w { out = out }

abbrev twin : Device
twin = record {
  Dut = Twin;
  set_inputs = λ w i. record w { ports = i };
  set_rst = λ w b. record w { rst = b };
  set_clk = λ w b. record w { clk = b };
  eval = evaluated;
  outputs = λ w. w.out;
}

abbrev start : Rename
start = record {
  map = tabulate (λ i. i) 32;
  ckpt_map = replicate 8 (replicate 32 0);
  fl = tabulate (λ i. 32 + i) 32;
  head = 0;
  tail = 0;
  count = 32;
  ckpt_fl_head = replicate 8 0;
  ckpt_head = 0;
  ckpt_count = pos 0;
}

abbrev quiet : Inputs
quiet = record {
  valid0 = false;
  valid1 = false;
  rs1_0 = 0;
  rs2_0 = 0;
  rd0 = 0;
  rs1_1 = 0;
  rs2_1 = 0;
  rd1 = 0;
  is_branch0 = false;
  is_branch1 = false;
  ckpt_take0 = false;
  ckpt_take1 = false;
  restore_valid = false;
  restore_ckpt_id = 0;
  commit_valid0 = false;
  commit_valid1 = false;
  commit_prev_prd0 = 0;
  commit_prev_prd1 = 0;
  commit_ckpt_release0 = false;
  commit_ckpt_release1 = false;
}

-- x5 and x6 renamed, and the register that x5 had returned in the cycle after.
abbrev two_results : Inputs
two_results = record quiet { valid0 = true; rd0 = 5; valid1 = true; rd1 = 6 }

abbrev commit_five : Inputs
commit_five = record quiet { commit_valid0 = true; commit_prev_prd0 = 5 }

-- `a, …, a + n - 1` has each of its numbers once.
range-occurrences :
    (a n p : ℕ) → occurrences p (tabulate (λ k. a + k) n) ≡ one_if (leb a p && ltb p (a + n))
unfolding occurrences
range-occurrences a zero p = ground arith
range-occurrences a (suc n) p =
    let shifted : tabulate (λ k. a + suc k) n ≡ tabulate (λ k. (a + 1) + k) n =
      tabulate_ext _ _ n (λ k h. omega arith) in
    rw (shifted, range-occurrences (a + 1) n p) (ground arith)

halves :
    (p : ℕ) → one_if (leb 0 p && ltb p 32) + one_if (leb 32 p && ltb p 64) + 0 ≡ one_if (ltb p 64)
halves p = ground arith

start-once : (p : ℕ) → occurrences p start.map + occurrences p start.fl + 0 ≡ one_if (ltb p 64)
start-once p =
    ap₂ (λ (a b : ℕ). a + b + 0)
      (ap (occurrences p) {x = start.map} {y = tabulate (λ k. 0 + k) 32} refl
        ∙ range-occurrences 0 32 p)
      (range-occurrences 32 32 p)
    ∙ halves p

no_heads : (k : ℕ) → get_or start.ckpt_fl_head k 0 < depth
no_heads k = rw (get_or-replicate {A = ℕ} 8 k 0) (omega arith)

start-IsRing : IsRing start
start-IsRing = record {
  sized = refl;
  head_in = omega arith;
  tail_at = refl;
  maps_sized = refl;
  heads_sized = refl;
  heads_in = no_heads;
  ckpt_in = omega arith;
}

start-free : free_list_contents start ≡ start.fl
unfolding free_list_contents
start-free = refl

start-Accounted : Accounted start []
unfolding occurrences
start-Accounted = record {
  ring = start-IsRing;
  owns = record {
    sized = refl;
    once = λ p. rw start-free (start-once p);
    number = rw start-free refl;
  };
}

two_results-IsLegal : IsLegal two_results []
two_results-IsLegal = record {
  no_restore = refl;
  rd0_in = omega arith;
  rd1_in = omega arith;
  commit0_in = λ e. absurd (let q = e in cc);
  commit1_in = λ e. absurd (let q = e in cc);
  commits_differ = λ e f. absurd (let q = e in cc);
}

cycle-Accounted_example :
    Accounted
      (step start two_results).0
      (committed two_results (displaced two_results (outputs start two_results) []))
cycle-Accounted_example = cycle-Accounted start two_results [] start-Accounted two_results-IsLegal

in_flight_after :
    committed two_results (displaced two_results (step start two_results).1 []) ≡ 6 ∷ 5 ∷ []
unfolding committed displaced outputs step bundle_ready contains
in_flight_after = refl

commit_five-IsLegal : IsLegal commit_five (6 ∷ 5 ∷ [])
unfolding contains
commit_five-IsLegal = record {
  no_restore = refl;
  rd0_in = omega arith;
  rd1_in = omega arith;
  commit0_in = λ e. refl;
  commit1_in = λ e. absurd (let q = e in cc);
  commits_differ = λ e f. absurd (let q = f in cc);
}

abbrev at_start : Bench twin
at_start = record {
  dut = record {
    state = start;
    ports = quiet;
    out = outputs start quiet;
    clk = false;
    rst = false;
  };
  model = start;
  tick = 0;
  g_inflight = [];
}

cycles-Conforms_example :
    (is_some (do_cycles twin at_start (two_results ∷ commit_five ∷ [])) ≡ true)
    ↔ Conforms twin at_start.dut start (two_results ∷ commit_five ∷ [])
cycles-Conforms_example =
    cycles-Conforms twin at_start (two_results ∷ commit_five ∷ []) start-Accounted
      (two_results-IsLegal, (rw in_flight_after commit_five-IsLegal, tt))

drain-ends_example : drain twin at_start ≢ out_of_fuel
drain-ends_example = drain-ends twin at_start

-- A generator that counts.
abbrev counting : Rng
counting = record { Gen = ℕ; seeded = λ n. n; draw = λ n lo hi. (lo + n % (hi - lo + 1), n + 7) }

abbrev first_test : Test twin counting
first_test = record {
  bench = at_start;
  gen = 5;
  flight = record { rob = []; inflight_set = []; seq_counter = 0; pending_branches = [] };
  total_renames = 0;
  total_restores = 0;
}

run_one : Option (Test twin counting)
unfolding random_cycle resolution resolve_oldest after_cycle rename_cycle finish_rename request
    commits chance and_chance drive_requests step_and_check settled rising_edge port_values idle
    evaluated step outputs renamed bundle_ready freed all_equal renamed_both push_back
    check_invariants free_list_contents to_set all contains can_commit
run_one = random_cycle twin counting first_test

abbrev or_else : Option (Test twin counting) → Test twin counting
or_else none = first_test
or_else (some t) = t

passes : random_cycle twin counting first_test ≡ some (or_else run_one)
unfolding run_one random_cycle resolution resolve_oldest after_cycle rename_cycle finish_rename
    request commits chance and_chance drive_requests step_and_check settled rising_edge port_values
    idle evaluated step outputs renamed bundle_ready freed all_equal renamed_both push_back
    check_invariants free_list_contents to_set all contains can_commit
passes = refl

random_cycle-IsTracked_example : IsTracked (or_else run_one).flight
random_cycle-IsTracked_example =
    random_cycle-IsTracked twin counting first_test (or_else run_one) passes
      (record { ascending = omega arith; pending = refl })
