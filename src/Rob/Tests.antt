-- ===== src/Rob/Tests.antt =====
-- Runs of a reorder buffer of four slots, two wide, and the theorems at them.
use mathlib.Core.List.{Sublist}
use rv64_ooo_core.Prelude.{
  ℕ, zero, suc, ◌<◌, ◌≡◌, refl, Bool, true, false, arith, ltb, List, [], ◌∷◌, ◌++◌,
}
use rv64_ooo_core.Prelude.Circular.{at}
use rv64_ooo_core.Rob.{
  Rob, Entry, AllocReq, WbReq, StepOut, empty_entry, new_entry, alloc_ready, can_commit, step,
  advance, outputs, n_valid, n_commit, count_commits, commit_outs, flush_of, flush_scan,
  flush_round, retire_alloc, squash_branch, retire_loop, squash_loop, alloc_loop, wb_loop,
}
use rv64_ooo_core.Rob.Invariant.{IsValid, step-IsValid}
use rv64_ooo_core.Rob.Queue
use rv64_ooo_core.Rob.Retire.{contents, view}
use rv64_ooo_core.Rob.Refine.{step_refines}
use rv64_ooo_core.Rob.Order.{Cycle, Trace, run, offered, commit_pcs, valid_pcs, pcs, run_in_order}

abbrev request : ℕ → AllocReq
request pc = record {
  valid = true;
  pc = pc;
  rd_arch = 1;
  prd = 33;
  prev_prd = 1;
  is_branch = false;
  is_store = false;
}

abbrev finished : ℕ → Entry
finished pc = record (new_entry (request pc)) { done = true }

-- Round the end of the vector: 0x10 in slot 3, then 0x14 in slot 0.
abbrev wrapped : Rob
wrapped = record {
  buf = finished 0x14 ∷ record (finished 0x99) { valid = false } ∷ empty_entry ∷ finished 0x10 ∷ [];
  head = 3;
  tail = 1;
  count = 2;
}

abbrev finish : ℕ → WbReq
finish i = record {
  valid = true;
  rob_idx = i;
  exception = false;
  mispredict = false;
  redirect_pc = 0;
}

abbrev mispredicted : WbReq
mispredicted = record {
  valid = true;
  rob_idx = 1;
  exception = false;
  mispredict = true;
  redirect_pc = 0x80;
}

wrapped_live :
    (k : ℕ) → k < 4 → (at 4 empty_entry wrapped.buf wrapped.head k).valid ≡ ltb k wrapped.count
wrapped_live zero h = refl
wrapped_live (suc zero) h = refl
wrapped_live (suc (suc zero)) h = refl
wrapped_live (suc (suc (suc zero))) h = refl
wrapped_live (suc (suc (suc (suc k)))) h = absurd (omega arith)

wrapped-IsValid : IsValid 4 wrapped
wrapped-IsValid = record {
  sized = refl;
  head_in = omega arith;
  tail_at = refl;
  fits = omega arith;
  live = wrapped_live;
}

abbrev two_requests : List AllocReq
two_requests = request 0x18 ∷ request 0x1c ∷ []

-- `step` and `run`, with all that they call open.
steps : ℕ → ℕ → Rob → List AllocReq → List WbReq → Bool → Rob × StepOut
unfolding step advance outputs commit_outs flush_of flush_scan flush_round retire_alloc
    squash_branch n_commit count_commits can_commit retire_loop squash_loop alloc_loop wb_loop
    alloc_ready n_valid
steps = step

runs : ℕ → ℕ → Rob → List Cycle → Trace
unfolding run steps commit_pcs valid_pcs offered
runs = run

-- Both finished entries commit, and the two requests take slots 1 and 2.
wrapped_step :
    contents 4 (steps 4 2 wrapped two_requests (finish 2 ∷ []) false).0
    ≡ new_entry (request 0x18) ∷ finished 0x1c ∷ []
unfolding steps
wrapped_step = refl

-- The branch 0x18 turns out mispredicted: it commits, and 0x1c does not.
abbrev cycles : List Cycle
cycles =
    record { allocs = two_requests; wbs = finish 2 ∷ []; rst = false }
    ∷ record { allocs = []; wbs = mispredicted ∷ []; rst = false }
    ∷ record { allocs = []; wbs = []; rst = false }
    ∷ []

run_cycles : (runs 4 2 wrapped cycles).committed ≡ 0x10 ∷ 0x14 ∷ 0x18 ∷ []
unfolding runs
run_cycles = refl

run_flushes : (runs 4 2 wrapped cycles).last.count ≡ 0
unfolding runs
run_flushes = refl

step-IsValid_example : IsValid 4 (step 4 2 wrapped two_requests (finish 2 ∷ []) false).0
unfolding n_valid
step-IsValid_example =
    step-IsValid 4 2 (omega arith) (omega arith) wrapped two_requests (finish 2 ∷ []) false
      wrapped-IsValid (omega arith) (omega arith)

step_refines_example :
    (view 4 (step 4 2 wrapped two_requests (finish 2 ∷ []) false).0
      ≡ Queue.step 4 2 (view 4 wrapped) two_requests (finish 2 ∷ []))
    × ((step 4 2 wrapped two_requests (finish 2 ∷ []) false).1 ≡ Queue.outputs 4 2 (view 4 wrapped))
unfolding n_valid
step_refines_example =
    step_refines 4 2 wrapped two_requests (finish 2 ∷ []) (omega arith) (omega arith)
      wrapped-IsValid (omega arith) (omega arith)

run_in_order_example :
    Sublist
      ((run 4 2 wrapped cycles).committed ++ pcs (contents 4 (run 4 2 wrapped cycles).last))
      (0x10 ∷ 0x14 ∷ (run 4 2 wrapped cycles).sent)
unfolding n_valid
run_in_order_example =
    run_in_order 4 2 (omega arith) (omega arith) wrapped cycles wrapped-IsValid (omega arith)
