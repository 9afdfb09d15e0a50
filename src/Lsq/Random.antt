-- ===== src/Lsq/Random.antt =====
-- The random test of sim/lsq/tb_lsq.cpp, and `main`. The generator `std::mt19937` and its distributions
-- are a parameter, with the device.
use rv64_ooo_core.Prelude.{
  ℕ, zero, suc, ◌+◌, ◌-◌, ◌*◌, ◌%◌, ◌^◌, leb, ltb, ◌&&◌, one_if, if◌then◌else◌, Bool, true, false,
  not, Option, none, some, List, [], ◌∷◌, length, get_or,
}
use rv64_ooo_core.Lsq.Outcome.{Outcome, ok, failed, out_of_bounds, ◌>>=◌, ◌>>◌, require}
use rv64_ooo_core.Lsq.Bench.{Op, Bench, check_final_memory_image}
use rv64_ooo_core.Lsq.BenchCycle.{CycleInputs, Device, find_op}
use rv64_ooo_core.Lsq.BenchApply.{idle, Run, cycle, reset_all}
use rv64_ooo_core.Lsq.Directed.{directed_tests}

-- The generator: a draw from the numbers from `lo` to `hi`, and the number that `rng()` gives.
pub record Rng : Type 1 where
  pub Gen : Type 0
  pub seeded : ℕ → Gen
  pub draw : Gen → ℕ → ℕ → ℕ × Gen
  pub next : Gen → ℕ × Gen

-- The slots from `i` on whose owner waits for its address.
unfoldable pub waits : Option Op → Bool
waits none = false
waits (some op) = not op.addr_set

unfoldable pub pointed : Option ℕ → List Op → Option Op
pointed none ops = none
pointed (some id) ops = find_op id ops

unfoldable pub candidates : List Op → List (Option ℕ) → ℕ → List ℕ
candidates ops [] i = []
candidates ops (owner ∷ owners) i =
    let rest = candidates ops owners (suc i) in if waits (pointed owner ops) then i ∷ rest else rest

abbrev win_base : ℕ
win_base = 0x100

-- The front of the program order, if it is ready to retire.
unfoldable pub retire_ready : Op → CycleInputs → CycleInputs
retire_ready f i =
    if f.is_load
    then (if f.resolved then record i { commit_load = true } else i)
    else if f.addr_set
    then record i { commit_store = true }
    else i

abbrev rob_idx_at : List Op → ℕ → ℕ
rob_idx_at [] k = 0
rob_idx_at (op ∷ ops) zero = op.rob_idx
rob_idx_at (op ∷ ops) (suc k) = rob_idx_at ops k

module _ (g : Rng) where
  -- `pct(rng) < percent`, and the same behind a condition.
  unfoldable pub chance : ℕ → g.Gen → Bool × g.Gen
  chance percent gen = let (v, gen1) = g.draw gen 0 99 in (ltb v percent, gen1)

  unfoldable pub and_chance : Bool → ℕ → g.Gen → Bool × g.Gen
  and_chance a percent gen = if a then chance percent gen else (false, gen)

  -- The dispatches of a cycle, with how many they are.
  unfoldable pub pick_dispatch : Bool → g.Gen → (CycleInputs × ℕ) × g.Gen
  pick_dispatch draining gen =
      if draining
      then ((idle, 0), gen)
      else (let (want0, gen1) = chance 70 gen in
          let (want1, gen2) = and_chance want0 50 gen1 in
          let (load0, gen3) = and_chance want0 50 gen2 in
          let (load1, gen4) = and_chance want1 50 gen3 in
          (
            (
              record idle {
                disp_valid0 = want0;
                disp_is_load0 = load0;
                disp_valid1 = want1;
                disp_is_load1 = load1;
              },
              one_if want0 + one_if want1,
            ),
            gen4,
          ))

  unfoldable pub pick_store : List ℕ → CycleInputs → g.Gen → CycleInputs × g.Gen
  pick_store [] i gen = (i, gen)
  pick_store (c ∷ cs) i gen =
      let (n, gen1) = g.next gen in
      let (off, gen2) = g.draw gen1 0 55 in
      let (size, gen3) = g.draw gen2 0 3 in
      let (value, gen4) = g.draw gen3 0 (2 ^ 64 - 1) in
      (
        record i {
          st_addr_valid = true;
          st_slot = get_or (c ∷ cs) (n % length (c ∷ cs)) 0;
          st_addr = win_base + off;
          st_size = size;
          st_data = value;
        },
        gen4,
      )

  unfoldable pub pick_load : List ℕ → CycleInputs → g.Gen → CycleInputs × g.Gen
  pick_load [] i gen = (i, gen)
  pick_load (c ∷ cs) i gen =
      let (n, gen1) = g.next gen in
      let (off, gen2) = g.draw gen1 0 55 in
      let (size, gen3) = g.draw gen2 0 3 in
      let (sgn, gen4) = chance 50 gen3 in
      (
        record i {
          ld_addr_valid = true;
          ld_slot = get_or (c ∷ cs) (n % length (c ∷ cs)) 0;
          ld_addr = win_base + off;
          ld_size = size;
          ld_signed = sgn;
        },
        gen4,
      )

  unfoldable pub pick_commit : List Op → CycleInputs → g.Gen → CycleInputs × g.Gen
  pick_commit [] i gen = (i, gen)
  pick_commit (f ∷ ops) i gen =
      let (now, gen1) = chance 50 gen in (if now then retire_ready f i else i, gen1)

  unfoldable pub pick_squash : List Op → CycleInputs → g.Gen → CycleInputs × g.Gen
  pick_squash [] i gen = (i, gen)
  pick_squash (f ∷ ops) i gen =
      let (some_younger, gen1) = chance 5 gen in
      if some_younger
      then (let (k, gen2) = g.next gen1 in
          (
            record i {
              squash_valid = true;
              squash_rob_idx = rob_idx_at (f ∷ ops) (k % length (f ∷ ops));
            },
            gen2,
          ))
      else let (every, gen2) = chance 1 gen1 in (record i { squash_all = every }, gen2)

  -- The inputs of a cycle, with the dispatches attempted.
  unfoldable pub pick_inputs : Bool → Bench → g.Gen → (CycleInputs × ℕ) × g.Gen
  pick_inputs draining t gen =
      let ((i0, attempted), gen1) = pick_dispatch draining gen in
      let (do_store, gen2) = chance 60 gen1 in
      let (i1, gen3) =
        pick_store (if do_store then candidates t.prog t.sq_owner 0 else []) i0 gen2 in
      let (do_load, gen4) = chance 60 gen3 in
      let (i2, gen5) = pick_load (if do_load then candidates t.prog t.lq_owner 0 else []) i1 gen4 in
      let (i3, gen6) = pick_commit t.prog i2 gen5 in
      let (i4, gen7) = pick_squash t.prog i3 gen6 in ((i4, attempted), gen7)

abbrev is_empty : List Op → Bool
is_empty [] = true
is_empty (op ∷ ops) = false

module _ (d : Device) (g : Rng) where
  -- The loop of `randomTest`, with the cycles that `safety` leaves.
  unfoldable pub random_loop : ℕ → ℕ → ℕ → g.Gen → Run d → Outcome (Run d)
  random_loop zero n_ops attempts gen r = ok r
  random_loop (suc left) n_ops attempts gen r = do
    let draining = leb n_ops attempts
    let ((i, attempted), gen1) = pick_inputs g draining r.bench gen
    (r1, _) ← cycle d r i
    let rest = random_loop left n_ops (attempts + attempted) gen1 r1
    if draining && is_empty r1.bench.prog then ok r1 else rest

  unfoldable pub random_test : ℕ → ℕ → Run d → Outcome (Run d)
  random_test seed n_ops r = do
    r1 ← random_loop (n_ops * 20 + 10000) n_ops 0 (g.seeded seed) (reset_all d r)
    require (is_empty r1.bench.prog)
    require (check_final_memory_image r1.bench)
    ok r1

  -- The seeds from `seed` on.
  unfoldable pub random_tests : ℕ → ℕ → Run d → Outcome (Run d)
  random_tests zero seed r = ok r
  random_tests (suc seeds) seed r = do
    r1 ← random_test seed 20000 r
    random_tests seeds (seed + 1) r1

  -- `main`, with its exit code.
  unfoldable pub exit_code : Outcome (Run d) → Outcome ℕ
  exit_code (ok r) = ok 0
  exit_code failed = ok 1
  exit_code out_of_bounds = out_of_bounds

  unfoldable pub main : Run d → Outcome ℕ
  main r = exit_code (do r1 ← directed_tests d r; random_tests 10 1 r1)
