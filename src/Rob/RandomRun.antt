-- ===== src/Rob/RandomRun.antt =====
-- The random test of tb_rob.cpp over its cycles.
use mathlib.Core.Option
use rv64_ooo_core.Prelude.{
  ℕ, zero, suc, ◌+◌, ◌%◌, ◌<◌, ◌≤◌, ◌≡◌, refl, sym, ap, subst, ◌∙◌, arith, ltb, Bool, true, false,
  ◌&&◌, List, [], ◌∷◌, some, passed, bound, ==_refl,
}
use rv64_ooo_core.Prelude.Occurrences.{occurrences}
use rv64_ooo_core.Rob.{Rob, AllocReq, WbReq, StepOut, n_valid, alloc_ready, outputs, step}
use rv64_ooo_core.Rob.Bench.{
  depth, width, Device, Bench, Cycle, mk_alloc, alloc_indices, check_outputs, same_status, tick,
  clocked, check_cycle,
}
use rv64_ooo_core.Rob.Slots.{InRange}
use rv64_ooo_core.Rob.Invariant.{IsValid, step-IsValid}
use rv64_ooo_core.Rob.Pending.{pending_at, hits, pending_at-lt}
use rv64_ooo_core.Rob.Directed.{drive_allocs, drive_wbs}
use rv64_ooo_core.Rob.Random.{
  Rng, Picked, Test, random_alloc, random_allocs, pick_wbs, outstanding_after, driven, random_cycle,
  random_cycles,
}
use rv64_ooo_core.Rob.Outstanding.{IsUniform, pick_wbs_kept}
use rv64_ooo_core.Rob.Waiting.{IsOutstanding}
use rv64_ooo_core.Rob.Writebacks.{advanced}

-- What a cycle that passes its checks leaves.
pub record IsStep (d : Device) (t : Bench d) (allocs : List AllocReq) (wbs : List WbReq)
    (c : Cycle d) : Type 0 where
  pub model : c.bench.model ≡ (step depth width t.model allocs wbs false).0
  pub alloc_idx : c.alloc_idx ≡ alloc_indices t.model
  pub flush : c.flush_this_cycle ≡ (step depth width t.model allocs wbs false).1.flush_valid

check_cycle-IsStep :
    (d : Device) (t : Bench d) (allocs : List AllocReq) (wbs : List WbReq) (c : Cycle d)
    → check_cycle d t allocs wbs false ≡ some c
    → IsStep d t allocs wbs c
unfolding check_cycle clocked
check_cycle-IsStep d t allocs wbs c h =
    let dut = d.eval t.dut in
    let idx = alloc_indices t.model in
    let (model, out) = step depth width t.model allocs wbs false in
    let (commits, _, h1) =
      bound (check_outputs (d.seen dut) (alloc_ready depth width t.model) idx out t.commits)
        (λ n. clocked d dut model n idx out) c h in
    let (_, e) = passed (same_status (d.seen (d.eval (tick d dut))) model) _ c h1 in
    record {
      model = sym (ap (λ k. k.bench.model) e);
      alloc_idx = sym (ap (λ k. k.alloc_idx) e);
      flush = sym (ap (λ k. k.flush_this_cycle) e);
    }

module _ (d : Device) where
  allocs_model :
      (i : ℕ) (allocs : List AllocReq) (t : Bench d) → (drive_allocs d i allocs t).model ≡ t.model
  unfolding drive_allocs
  allocs_model i [] t = refl
  allocs_model i (a ∷ allocs) t = allocs_model (suc i) allocs _

  wbs_model : (i : ℕ) (wbs : List WbReq) (t : Bench d) → (drive_wbs d i wbs t).model ≡ t.model
  unfolding drive_wbs
  wbs_model i [] t = refl
  wbs_model i (w ∷ wbs) t = wbs_model (suc i) wbs _

driven_model :
    (d : Device) (t : Bench d) (allocs : List AllocReq) (wbs : List WbReq)
    → (driven d allocs wbs t).model ≡ t.model
unfolding driven
driven_model d t allocs wbs =
    wbs_model d 0 wbs (drive_allocs d 0 allocs t) ∙ allocs_model d 0 allocs t

hits-InRange : (n : ℕ) (wbs : List WbReq) → ((x : ℕ) → 1 ≤ hits x wbs → x < n) → InRange n wbs
unfolding hits
hits-InRange n [] h = tt
hits-InRange n (w ∷ wbs) h = (
  λ e. h w.rob_idx (ground (arith, ==_refl w.rob_idx)),
  hits-InRange n wbs (λ x k. h x (ground arith)),
)

-- The variables at the start of the loop that picks.
abbrev pub start_picks : List ℕ → Picked
start_picks outstanding = record { outstanding = outstanding; chosen = []; wbs = [] }

module _ (g : Rng) (u : IsUniform g) where
  -- The writebacks that the random test picks name entries that wait, and no two of them name the same.
  pub pick_wbs-pending :
      (r : Rob) (outstanding : List ℕ) (n : ℕ) (gen : g.Gen) (x : ℕ)
      → IsOutstanding r outstanding
      → hits x (pick_wbs g n (start_picks outstanding) gen).0.wbs ≤ pending_at r.buf x
  unfolding hits
  pick_wbs-pending r outstanding n gen x o =
      let e = pick_wbs_kept g u n x (start_picks outstanding) gen in let f = o x in omega arith

two_valid : (a0 a1 : AllocReq) → n_valid (a0 ∷ a1 ∷ []) ≤ width
unfolding n_valid
two_valid a0 a1 = ground arith

-- A step of the model with the requests of a cycle.
module _ (r : Rob) (v : IsValid depth r) (a0 a1 : AllocReq) (wbs : List WbReq) (kept : List ℕ)
    (prefix : a1.valid ≡ true → a0.valid ≡ true)
    (picked : (x : ℕ) → occurrences x kept + hits x wbs ≡ pending_at r.buf x) where
  abbrev stepped : Rob × StepOut
  stepped = step depth width r (a0 ∷ a1 ∷ []) wbs false

  in_range : InRange depth wbs
  in_range = hits-InRange depth wbs (λ x h.
      let below = pending_at-lt r.buf x (omega (arith, picked x)) in
      let sized = v.sized in omega arith)

  stepped-IsValid : IsValid depth stepped.0
  stepped-IsValid =
      step-IsValid depth width (omega arith) (omega arith) r (a0 ∷ a1 ∷ []) wbs false v
        (two_valid a0 a1) in_range

  stepped-IsOutstanding : IsOutstanding stepped.0 (
      outstanding_after
        (alloc_ready depth width r)
        stepped.1.flush_valid
        (a0 ∷ a1 ∷ [])
        (alloc_indices r)
        kept)
  unfolding step outputs
  stepped-IsOutstanding = advanced r v a0 a1 wbs kept prefix picked

-- The same of a cycle that passes its checks.
module _ (d : Device) (t : Bench d) (v : IsValid depth t.model) (a0 a1 : AllocReq)
    (wbs : List WbReq) (kept : List ℕ) (prefix : a1.valid ≡ true → a0.valid ≡ true)
    (picked : (x : ℕ) → occurrences x kept + hits x wbs ≡ pending_at t.model.buf x) where
  passed_kept :
      (c : Cycle d)
      → IsStep d (driven d (a0 ∷ a1 ∷ []) wbs t) (a0 ∷ a1 ∷ []) wbs c
      → IsValid depth c.bench.model
        × IsOutstanding c.bench.model (
            outstanding_after
              (alloc_ready depth width t.model)
              c.flush_this_cycle
              (a0 ∷ a1 ∷ [])
              c.alloc_idx
              kept)
  passed_kept c k =
      rw (k.model, k.flush, k.alloc_idx, driven_model d t (a0 ∷ a1 ∷ []) wbs)
        (
          stepped-IsValid t.model v a0 a1 wbs kept prefix picked,
          stepped-IsOutstanding t.model v a0 a1 wbs kept prefix picked,
        )

module _ (g : Rng) (u : IsUniform g) (d : Device) where
  -- What a cycle leaves, once its checks have passed.
  abbrev left : Bool → List AllocReq → List ℕ → g.Gen → Cycle d → Test g d
  left ready allocs kept gen c = record {
    bench = c.bench;
    outstanding = outstanding_after ready c.flush_this_cycle allocs c.alloc_idx kept;
    gen = gen;
  }

  requests_prefix : (ready : Bool) (n : ℕ) → (ready && ltb 1 n) ≡ true → (ready && ltb 0 n) ≡ true
  requests_prefix ready n h = ground arith

  cycle_kept :
      (s s1 : Test g d)
      → IsValid depth s.bench.model
      → IsOutstanding s.bench.model s.outstanding
      → random_cycle g d s ≡ some s1
      → IsValid depth s1.bench.model × IsOutstanding s1.bench.model s1.outstanding
  unfolding random_cycle random_allocs random_alloc mk_alloc hits
  cycle_kept s s1 v o h =
      let ready = alloc_ready depth width s.bench.model in
      let (want, gen1) = g.draw s.gen 0 99 in
      let (a0, gen2) = random_alloc g (ready && ltb 0 (want % 3)) gen1 in
      let (a1, gen3) = random_alloc g (ready && ltb 1 (want % 3)) gen2 in
      let allocs : List AllocReq = a0 ∷ a1 ∷ [] in
      let (p, gen4) = pick_wbs g width (start_picks s.outstanding) gen3 in
      let (c, e, h1) =
        bound (check_cycle d (driven d allocs p.wbs s.bench) allocs p.wbs false)
          (λ c. some (left ready allocs p.outstanding gen4 c)) s1 h in
      let picked : (x : ℕ)
          → occurrences x p.outstanding + hits x p.wbs ≡ pending_at s.bench.model.buf x =
        λ x.
          pick_wbs_kept g u width x (start_picks s.outstanding) gen3
          ∙ (let f = o x in omega arith) in
      subst (λ t. IsValid depth t.bench.model × IsOutstanding t.bench.model t.outstanding)
        (Option.some_inj.0 h1)
        (passed_kept d s.bench v a0 a1 p.wbs p.outstanding (requests_prefix ready (want % 3)) picked
          c (check_cycle-IsStep d (driven d allocs p.wbs s.bench) allocs p.wbs c e))

  -- Every run of the random test keeps in `outstanding` the slots that wait for their writeback, each
  -- once, and no other, whatever the device and the generator do, as long as the checks pass and a draw
  -- is from the range asked for.
  pub random_cycles-IsOutstanding :
      (n : ℕ) (s s1 : Test g d)
      → IsValid depth s.bench.model
      → IsOutstanding s.bench.model s.outstanding
      → random_cycles g d n s ≡ some s1
      → IsValid depth s1.bench.model × IsOutstanding s1.bench.model s1.outstanding
  unfolding random_cycles
  random_cycles-IsOutstanding zero s s1 v o h =
      subst (λ t. IsValid depth t.bench.model × IsOutstanding t.bench.model t.outstanding)
        (Option.some_inj.0 h) (v, o)
  random_cycles-IsOutstanding (suc n) s s1 v o h =
      let (m, e, h1) = bound (random_cycle g d s) (λ t. random_cycles g d n t) s1 h in
      let (w, q) = cycle_kept s m v o e in random_cycles-IsOutstanding n m s1 w q h1
