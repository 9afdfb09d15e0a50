-- ===== src/Rename/RandomCycle.antt =====
-- A cycle of the random test of tb_rename.cpp, and the loops of `randomized` over the cycles and the seeds.
use rv64_ooo_core.Prelude.{
  ℕ, zero, suc, ◌+◌, leb, ltb, ◌&&◌, one_if, if◌then◌else◌, Bool, true, false, Option, none, some,
  List, [], ◌∷◌, ◌>>=◌, ◌>>◌, require,
}
use rv64_ooo_core.Rename.{Inputs, Outputs}
use rv64_ooo_core.Rename.Bench.{Device, Bench, idle, check_invariants, step_and_check, reset_dut}
use rv64_ooo_core.Rename.Directed.{Ending, exited, ended, out_of_fuel, directed}
use rv64_ooo_core.Rename.Random.{
  Rng, Flight, PendingBranch, Request, no_flight, no_request, mispredicted, predicted, must_resolve,
  can_commit, pop_front, drive_commit0, drive_commit1, renamed_both,
}

-- The two requests on the ports.
unfoldable pub drive_requests : Request → Request → Inputs
drive_requests r0 r1 = record idle {
  valid0 = r0.want;
  rs1_0 = r0.rs1;
  rs2_0 = r0.rs2;
  rd0 = r0.rd;
  is_branch0 = r0.br;
  ckpt_take0 = r0.br;
  valid1 = r1.want;
  rs1_1 = r1.rs1;
  rs2_1 = r1.rs2;
  rd1 = r1.rd;
  is_branch1 = r1.br;
  ckpt_take1 = r1.br;
}

-- How the cycle takes the oldest pending branch.
pub data Resolution : Type 0 where
  untouched : Resolution
  restoring : PendingBranch → Resolution
  confirming : PendingBranch → List PendingBranch → Resolution

unfoldable pub after_resolution : Resolution → Flight → Flight
after_resolution untouched f = f
after_resolution (restoring pb) f = mispredicted pb f
after_resolution (confirming pb rest) f = predicted pb rest f

module _ (g : Rng) where
  -- `dist100(rng) < percent`
  unfoldable pub chance : ℕ → g.Gen → Bool × g.Gen
  chance percent gen = let (v, gen1) = g.draw gen 0 99 in (ltb v percent, gen1)

  -- `a && dist100(rng) < percent`, which draws only if `a` holds.
  unfoldable pub and_chance : Bool → ℕ → g.Gen → Bool × g.Gen
  and_chance a percent gen = if a then chance percent gen else (false, gen)

  unfoldable pub request : Bool → g.Gen → Request × g.Gen
  request want gen =
      if want
      then (let (rs1, gen1) = g.draw gen 0 31 in
          let (rs2, gen2) = g.draw gen1 0 31 in
          let (zero_rd, gen3) = chance 10 gen2 in
          let (rd, gen4) = if zero_rd then (0, gen3) else g.draw gen3 0 31 in
          let (br, gen5) = chance 15 gen4 in
          (record { want = true; rs1 = rs1; rs2 = rs2; rd = rd; br = br }, gen5))
      else (no_request, gen)

  unfoldable pub resolve_oldest : Flight → List PendingBranch → g.Gen → Resolution × g.Gen
  resolve_oldest f [] gen = (untouched, gen)
  resolve_oldest f (pb ∷ rest) gen =
      let (now, gen1) = if must_resolve f pb then (true, gen) else chance 8 gen in
      let (wrong, gen2) = and_chance now 50 gen1 in
      (if now then (if wrong then restoring pb else confirming pb rest) else untouched, gen2)

  unfoldable pub resolution : Flight → g.Gen → Resolution × g.Gen
  resolution f gen = resolve_oldest f f.pending_branches gen

  -- The commits of a cycle: the inputs that they drive, and what they leave.
  unfoldable pub commits : Flight → Inputs → g.Gen → (Flight × Inputs) × g.Gen
  commits f i gen =
      let (lucky, gen1) = chance 60 gen in
      let commit0 = can_commit f.rob && lucky in
      let f1 = if commit0 then pop_front f else f in
      let i1 = if commit0 then drive_commit0 f.rob i else i in
      let (commit1, gen2) = and_chance (commit0 && can_commit f1.rob) 60 gen1 in
      (
        (if commit1 then pop_front f1 else f1, if commit1 then drive_commit1 f1.rob i1 else i1),
        gen2,
      )

module _ (d : Device) (g : Rng) where
  pub record Test : Type 0 where
    pub bench : Bench d
    pub gen : g.Gen
    pub flight : Flight
    pub total_renames : ℕ
    pub total_restores : ℕ

  -- What is left to do in a cycle once the device and the model have made their step.
  unfoldable pub finish_restore : g.Gen → Flight → Test → Bench d × Outputs → Option Test
  finish_restore gen f t (b, _) = do
    require (check_invariants b.model f.inflight_set)
    some (record t { bench = b; gen = gen; flight = f; total_restores = t.total_restores + 1 })

  unfoldable pub finish_rename :
      Request → Request → g.Gen → Flight → Test → Bench d × Outputs → Option Test
  finish_rename r0 r1 gen f t (b, o) = do
    let f1 = renamed_both r0 r1 o f
    require (check_invariants b.model f1.inflight_set)
    some (record t {
      bench = b;
      gen = gen;
      flight = f1;
      total_renames =
          if o.rename_ready0
          then t.total_renames + one_if r0.want + one_if r1.want
          else t.total_renames;
    })

  -- A cycle with a restore drives nothing else.
  unfoldable pub restore_cycle : PendingBranch → g.Gen → Test → Option Test
  restore_cycle pb gen t =
      step_and_check d t.bench (record idle { restore_valid = true; restore_ckpt_id = pb.ckpt_id })
      >>= finish_restore gen (after_resolution (restoring pb) t.flight) t

  unfoldable pub rename_cycle : Flight → g.Gen → Test → Option Test
  rename_cycle f gen t =
      let (nslots, gen1) = g.draw gen 0 2 in
      let (r0, gen2) = request g (leb 1 nslots) gen1 in
      let (r1, gen3) = request g (leb 2 nslots) gen2 in
      let ((f1, i), gen4) = commits g f (drive_requests r0 r1) gen3 in
      step_and_check d t.bench i >>= finish_rename r0 r1 gen4 f1 t

  unfoldable pub after_cycle : Resolution → g.Gen → Test → Option Test
  after_cycle untouched gen t = rename_cycle t.flight gen t
  after_cycle (restoring pb) gen t = restore_cycle pb gen t
  after_cycle (confirming pb rest) gen t =
      rename_cycle (after_resolution (confirming pb rest) t.flight) gen t

  unfoldable pub random_cycle : Test → Option Test
  random_cycle t = let (how, gen) = resolution g t.flight t.gen in after_cycle how gen t

  unfoldable pub random_cycles : ℕ → Test → Option Test
  random_cycles zero t = some t
  random_cycles (suc n) t = do t1 ← random_cycle t; random_cycles n t1

  -- `randomized`: the seeds from `seed` on, each with the device reset.
  unfoldable pub randomized : ℕ → ℕ → ℕ → Test → Option Test
  randomized zero seed cycles t = some t
  randomized (suc seeds) seed cycles t = do
    t1 ←
        random_cycles cycles
          (record t { bench = reset_dut d t.bench; gen = g.seeded seed; flight = no_flight })
    randomized seeds (seed + 1) cycles t1

-- `main`: its exit code, where the directed tests end.
unfoldable pub exit_code : {d : Device} {g : Rng} → Option (Test d g) → ℕ
exit_code none = 1
exit_code (some t) = if leb t.total_restores 100 then 1 else 0

unfoldable pub main : (d : Device) (g : Rng) → Test d g → Ending ℕ
main d g t = elim (directed d t.bench) [
  | exited ↦ ended 1
  | out_of_fuel ↦ out_of_fuel
  | ended b ↦ ended (
      exit_code
        (randomized d g 10 1 50000 (record t { bench = b; total_renames = 0; total_restores = 0 })))
]
