-- ===== src/Rob/Directed.antt =====
-- The directed tests of tb_rob.cpp, `directedTests`, a definition for each of them; `return false` is
-- `none`.
use rv64_ooo_core.Prelude.{
  ℕ, zero, suc, ◌+◌, ◌*◌, ◌/◌, ◌%◌, ◌==◌, if◌then◌else◌, Bool, true, false, not, ◌&&◌, ◌||◌, Option,
  some, List, [], ◌∷◌, get_or, ◌>>=◌, ◌>>◌, require,
}
use rv64_ooo_core.Rob.{AllocReq, WbReq, no_commit, is_empty, is_full, fresh}
use rv64_ooo_core.Rob.Bench.{
  depth, width, Device, Bench, Cycle, mk_alloc, mk_wb, drive_alloc, drive_wb, check_cycle, do_reset,
}

abbrev pub no_alloc : AllocReq
no_alloc = mk_alloc false 0 0 0 0 false false

abbrev pub no_wb : WbReq
no_wb = mk_wb false 0 false false 0

-- The two requests of a cycle, neither a store nor, but for the first if said so, a branch.
abbrev pub two_allocs : ℕ → ℕ → Bool → List AllocReq
two_allocs pc0 pc1 br = mk_alloc true pc0 1 2 0 br false ∷ mk_alloc true pc1 3 4 0 false false ∷ []

abbrev pub finished : ℕ → WbReq
finished idx = mk_wb true idx false false 0

module _ (d : Device) where
  -- `for (int i = 0; i < WIDTH; i++) driveAlloc(i, allocs[i]);`, and the same of writebacks.
  unfoldable pub drive_allocs : ℕ → List AllocReq → Bench d → Bench d
  drive_allocs i [] t = t
  drive_allocs i (a ∷ allocs) t =
      drive_allocs (suc i) allocs (record t { dut = drive_alloc d i a t.dut })

  unfoldable pub drive_wbs : ℕ → List WbReq → Bench d → Bench d
  drive_wbs i [] t = t
  drive_wbs i (w ∷ wbs) t = drive_wbs (suc i) wbs (record t { dut = drive_wb d i w t.dut })

  abbrev pub no_allocs : Bench d → Bench d
  no_allocs t = drive_allocs 0 (no_alloc ∷ no_alloc ∷ []) t

  abbrev pub no_wbs : Bench d → Bench d
  no_wbs t = drive_wbs 0 (no_wb ∷ no_wb ∷ []) t

  -- Requests driven and checked for a cycle.
  unfoldable pub allocate : List AllocReq → Bench d → Option (Cycle d)
  allocate allocs t = check_cycle d (drive_allocs 0 allocs t) allocs [] false

  unfoldable pub write_back : List WbReq → Bench d → Option (Cycle d)
  write_back wbs t = check_cycle d (drive_wbs 0 wbs t) [] wbs false

  -- A cycle without requests, whatever is driven.
  unfoldable pub pass : Bench d → Option (Cycle d)
  pass t = check_cycle d t [] [] false

  -- "rob should be empty"
  unfoldable pub both_empty : Bench d → Bool
  both_empty t = is_empty depth width t.model && (d.seen t.dut).rob_empty

  unfoldable pub fill_loop : ℕ → ℕ → Bench d → Option (Bench d)
  fill_loop zero n t = some t
  fill_loop (suc left) n t = do
    c ← allocate (two_allocs (4096 + n) (4100 + n) false) t
    fill_loop left (suc n) c.bench

  unfoldable pub fill_to_full : Bench d → Option (Bench d)
  fill_to_full t = do
    t1 ← fill_loop (depth / width) 0 (no_wbs (no_allocs (do_reset d t)))
    let t2 : Bench d = record t1 { dut = d.eval t1.dut }
    require (not (d.seen t2.dut).alloc_ready)
    require (is_full depth width t2.model && (d.seen t2.dut).rob_full)
    some t2

  -- `n` and `n + 1` are finished in an even round.
  unfoldable pub drain_round : ℕ → Bench d → Option (Cycle d)
  drain_round n t =
      let idle_wbs = no_wbs t in
      if n % width == 0
      then write_back (finished n ∷ finished (n + 1) ∷ []) idle_wbs
      else pass idle_wbs

  unfoldable pub drain_loop : ℕ → ℕ → Bench d → Option (Bench d)
  drain_loop zero n t = some t
  drain_loop (suc left) n t = do c ← drain_round n t; drain_loop left (suc n) c.bench

  unfoldable pub commit_drains : Bench d → Option (Bench d)
  commit_drains t = do
    t1 ← drain_loop depth 0 (no_allocs t)
    let t2 = no_wbs t1
    require (both_empty t2)
    some t2

  unfoldable pub no_commits : Bench d → Bool
  no_commits t =
      let commits = (d.seen t.dut).commits in
      not ((get_or commits 0 no_commit).valid || (get_or commits 1 no_commit).valid)

  unfoldable pub out_of_order : Bench d → Option (Bench d)
  out_of_order t = do
    c1 ← allocate (two_allocs 8192 8196 false) (do_reset d t)
    c2 ← write_back (no_wb ∷ finished 1 ∷ []) (no_allocs c1.bench)
    require (no_commits c2.bench)
    c3 ← write_back (finished 0 ∷ no_wb ∷ []) c2.bench
    some c3.bench

  -- The next two requests of the test of a squash.
  abbrev pub two_younger : List AllocReq
  two_younger = mk_alloc true 12296 5 6 0 false false ∷ mk_alloc true 12300 7 8 0 false false ∷ []

  unfoldable pub mispredict_squash : Bench d → Option (Bench d)
  mispredict_squash t = do
    c1 ← allocate (two_allocs 12288 12292 true) (do_reset d t)
    c2 ← allocate two_younger c1.bench
    c3 ← write_back (mk_wb true 0 false true 36864 ∷ finished 1 ∷ []) (no_allocs c2.bench)
    c4 ← write_back (finished 2 ∷ finished 3 ∷ []) c3.bench
    c5 ← pass (no_wbs c4.bench)
    require (both_empty c5.bench)
    some c5.bench

  unfoldable pub exception_flush : Bench d → Option (Bench d)
  exception_flush t = do
    c1 ← allocate (two_allocs 16384 16388 false) (do_reset d t)
    c2 ← write_back (mk_wb true 0 true false 57005 ∷ finished 1 ∷ []) (no_allocs c1.bench)
    c3 ← pass (no_wbs c2.bench)
    require (both_empty c3.bench)
    some c3.bench

  unfoldable pub wrap_round : ℕ → Bench d → Option (Bench d)
  wrap_round round t = do
    c1 ← allocate (two_allocs (20480 + round) (20480 + round) false) t
    let wbs : List WbReq =
        finished (get_or c1.alloc_idx 0 0) ∷ finished (get_or c1.alloc_idx 1 0) ∷ []
    c2 ← write_back wbs (no_allocs c1.bench)
    c3 ← pass (no_wbs c2.bench)
    some c3.bench

  unfoldable pub wrap_loop : ℕ → ℕ → Bench d → Option (Bench d)
  wrap_loop zero round t = some t
  wrap_loop (suc left) round t = do t1 ← wrap_round round t; wrap_loop left (suc round) t1

  unfoldable pub wraparound : Bench d → Option (Bench d)
  wraparound t = wrap_loop (depth * 2 / width) 0 (no_allocs (do_reset d t))

  -- All of them, on a device and a new model.
  unfoldable pub directed_tests : d.Dut → Option (Bench d)
  directed_tests dut = do
    t1 ← fill_to_full (record { dut = dut; model = fresh depth width; commits = 0 })
    t2 ← commit_drains t1
    t3 ← out_of_order t2
    t4 ← mispredict_squash t3
    t5 ← exception_flush t4
    wraparound t5
