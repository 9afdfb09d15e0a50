-- ===== src/Rob/Random.antt =====
-- The random test of tb_rob.cpp, `randomTest`, and `main`. The generator `std::mt19937` and its
-- distributions are a parameter; `return false` is `none`. What a draw gives is kept in the order in which
-- the source names the draws; C++ leaves open in which order the arguments of a call are evaluated.
use rv64_ooo_core.Prelude.{
  ℕ, zero, suc, ◌+◌, ◌-◌, ◌^◌, ◌%◌, ltb, ◌==◌, if◌then◌else◌, Bool, true, false, not, ◌&&◌, ◌||◌,
  Option, none, some, List, [], ◌∷◌, ◌++◌, length, get_or, ◌>>=◌,
}
use rv64_ooo_core.Rob.{AllocReq, WbReq, alloc_ready, fresh}
use rv64_ooo_core.Rob.Bench.{depth, width, Device, Bench, mk_alloc, mk_wb, check_cycle, do_reset}
use rv64_ooo_core.Rob.Directed.{drive_allocs, drive_wbs, directed_tests}

-- `std::mt19937`, and a draw from the numbers from `lo` to `hi`.
pub record Rng : Type 1 where
  pub Gen : Type 0
  pub seeded : ℕ → Gen
  pub draw : Gen → ℕ → ℕ → ℕ × Gen

-- A request of writeback not set, an element of `wbs(WIDTH)`.
abbrev pub unset_wb : WbReq
unset_wb = record {
  valid = false;
  rob_idx = 0;
  exception = false;
  mispredict = false;
  redirect_pc = 0;
}

-- `outstanding.erase(outstanding.begin() + k)`
unfoldable pub erase_at : ℕ → List ℕ → List ℕ
erase_at k [] = []
erase_at zero (x ∷ xs) = xs
erase_at (suc k) (x ∷ xs) = x ∷ erase_at k xs

-- `for (int c2 : chosen) if (c2 == idx) already = true;`
unfoldable pub already : ℕ → List ℕ → Bool
already idx [] = false
already idx (c ∷ chosen) = (c == idx) || already idx chosen

-- The loop that notes the requests that got an entry.
unfoldable pub note_allocs : List AllocReq → List ℕ → ℕ → List ℕ → List ℕ
note_allocs [] alloc_idx i outstanding = outstanding
note_allocs (a ∷ allocs) alloc_idx i outstanding =
    note_allocs allocs alloc_idx (suc i)
      (if a.valid then outstanding ++ (get_or alloc_idx i 0 ∷ []) else outstanding)

-- `outstanding` after a cycle.
unfoldable pub outstanding_after : Bool → Bool → List AllocReq → List ℕ → List ℕ → List ℕ
outstanding_after ready_now flush allocs alloc_idx outstanding =
    let noted =
      if ready_now && not flush then note_allocs allocs alloc_idx 0 outstanding else outstanding in
    if flush then [] else noted

-- The variables of the loop that picks writebacks; `chosen` has the newest first.
pub record Picked : Type 0 where
  pub outstanding : List ℕ
  pub chosen : List ℕ
  pub wbs : List WbReq

-- The requests driven.
unfoldable pub driven : (d : Device) → List AllocReq → List WbReq → Bench d → Bench d
driven d allocs wbs t = drive_wbs d 0 wbs (drive_allocs d 0 allocs t)

module _ (g : Rng) where
  -- `pctDist(rng) < percent`
  unfoldable pub chance : ℕ → g.Gen → Bool × g.Gen
  chance percent gen = let (v, gen1) = g.draw gen 0 99 in (ltb v percent, gen1)

  unfoldable pub and_chance : Bool → ℕ → g.Gen → Bool × g.Gen
  and_chance b percent gen = if b then chance percent gen else (false, gen)

  unfoldable pub random_alloc : Bool → g.Gen → AllocReq × g.Gen
  random_alloc v gen =
      let (pc, gen1) = g.draw gen 0 (2 ^ 64 - 1) in
      let (rd, gen2) = g.draw gen1 0 31 in
      let (prd, gen3) = g.draw gen2 0 127 in
      let (prev, gen4) = g.draw gen3 0 127 in
      let (br, gen5) = chance 10 gen4 in
      let (st, gen6) = chance 20 gen5 in (mk_alloc v pc rd prd prev br st, gen6)

  unfoldable pub random_allocs : Bool → ℕ → ℕ → ℕ → g.Gen → List AllocReq × g.Gen
  random_allocs ready n_want zero i gen = ([], gen)
  random_allocs ready n_want (suc left) i gen =
      let (a, gen1) = random_alloc (ready && ltb i n_want) gen in
      let (allocs, gen2) = random_allocs ready n_want left (suc i) gen1 in (a ∷ allocs, gen2)

  unfoldable pub random_wb : ℕ → g.Gen → WbReq × g.Gen
  random_wb idx gen =
      let (exc, gen1) = chance 2 gen in
      let (mis, gen2) = and_chance (not exc) 5 gen1 in
      let (pc, gen3) = g.draw gen2 0 (2 ^ 64 - 1) in (mk_wb true idx exc mis pc, gen3)

  -- The entry at `k` is written back, unless it was chosen before.
  unfoldable pub choose : ℕ → Picked → g.Gen → Picked × g.Gen
  choose k p gen =
      let idx = get_or p.outstanding k 0 in
      let (wb, gen1) = random_wb idx gen in
      if already idx p.chosen then (record p { wbs = p.wbs ++ (unset_wb ∷ []) }, gen) else (
        record {
          outstanding = erase_at k p.outstanding;
          chosen = idx ∷ p.chosen;
          wbs = p.wbs ++ (wb ∷ []);
        },
        gen1,
      )

  unfoldable pub pick_wb : Picked → g.Gen → Picked × g.Gen
  pick_wb p gen =
      let (hit, gen1) = chance 70 gen in
      let (k, gen2) = g.draw gen1 0 (length p.outstanding - 1) in
      if hit then choose k p gen2 else (record p { wbs = p.wbs ++ (unset_wb ∷ []) }, gen1)

  -- A round of the loop: with nothing outstanding the element stays as it is, as in all later rounds.
  unfoldable pub pick_round : Picked → g.Gen → Picked × g.Gen
  pick_round p gen =
      if length p.outstanding == 0
      then (record p { wbs = p.wbs ++ (unset_wb ∷ []) }, gen)
      else pick_wb p gen

  unfoldable pub pick_wbs : ℕ → Picked → g.Gen → Picked × g.Gen
  pick_wbs zero p gen = (p, gen)
  pick_wbs (suc left) p gen = let (p1, gen1) = pick_round p gen in pick_wbs left p1 gen1

  module _ (d : Device) where
    -- The variables of the test.
    pub record Test : Type 0 where
      pub bench : Bench d
      pub outstanding : List ℕ
      pub gen : g.Gen

    unfoldable pub random_cycle : Test → Option Test
    random_cycle s =
        let ready_now = alloc_ready depth width s.bench.model in
        let (want, gen1) = g.draw s.gen 0 99 in
        let (allocs, gen2) = random_allocs ready_now (want % 3) width 0 gen1 in
        let (p, gen3) =
          pick_wbs width (record { outstanding = s.outstanding; chosen = []; wbs = [] }) gen2 in
        do
          c ← check_cycle d (driven d allocs p.wbs s.bench) allocs p.wbs false
          some (record {
            bench = c.bench;
            outstanding =
                outstanding_after ready_now c.flush_this_cycle allocs c.alloc_idx p.outstanding;
            gen = gen3;
          })

    unfoldable pub random_cycles : ℕ → Test → Option Test
    random_cycles zero s = some s
    random_cycles (suc n) s = do s1 ← random_cycle s; random_cycles n s1

    -- The test of a seed, with `commits_out`.
    unfoldable pub random_test : d.Dut → ℕ → ℕ → Option ℕ
    random_test dut seed n_cycles = do
      s ← random_cycles n_cycles (record {
        bench = do_reset d (record { dut = dut; model = fresh depth width; commits = 0 });
        outstanding = [];
        gen = g.seeded seed;
      })
      some s.bench.commits

    -- The loop of `main` over the seeds, with `total_commits`; `new_dut` is `new Vrob`.
    unfoldable pub random_seeds : d.Dut → ℕ → ℕ → ℕ → Option ℕ
    random_seeds new_dut zero seed total = some total
    random_seeds new_dut (suc left) seed total = do
      commits ← random_test new_dut seed 100000
      random_seeds new_dut left (suc seed) (total + commits)

    -- `main`: what it returns.
    unfoldable pub main : d.Dut → ℕ
    main new_dut = elim (directed_tests d new_dut) [
      | none ↦ 1
      | some t ↦ elim (random_seeds new_dut 10 1 0) [ none ↦ 1 | some total ↦ 0 ]
    ]
