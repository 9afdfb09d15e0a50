-- ===== src/Rename/Tests.antt =====
-- Two instructions renamed from the reset state, with a checkpoint, and the theorems at them.
use rv64_ooo_core.Prelude.{
  ℕ, zero, suc, ◌+◌, ◌<◌, ◌≡◌, refl, arith, true, false, get_or, replicate, tabulate,
}
use rv64_ooo_core.Prelude.Word.{pos}
use rv64_ooo_core.Rename.{
  Rename, Inputs, Outputs, depth, reset, step, restored, renamed, outputs, freed, bundle_ready,
  head_after0,
}
use rv64_ooo_core.Rename.Ring.{IsRing, step-IsRing}
use rv64_ooo_core.Rename.Sequential.{InOrder, first, step-InOrder}
use rv64_ooo_core.Rename.Checkpoint.{done, restore_recovers}

-- x5 := x1 + x2, a branch that takes a checkpoint, and x6 := x5 + x5.
abbrev two : Inputs
two = record {
  valid0 = true;
  valid1 = true;
  rs1_0 = 1;
  rs2_0 = 2;
  rd0 = 5;
  rs1_1 = 5;
  rs2_1 = 5;
  rd1 = 6;
  is_branch0 = true;
  is_branch1 = false;
  ckpt_take0 = true;
  ckpt_take1 = false;
  restore_valid = false;
  restore_ckpt_id = 0;
  commit_valid0 = false;
  commit_valid1 = false;
  commit_prev_prd0 = 0;
  commit_prev_prd1 = 0;
  commit_ckpt_release0 = false;
  commit_ckpt_release1 = false;
}

abbrev back : Inputs
back = record two { valid0 = false; valid1 = false; restore_valid = true }

-- The reset state, and `step`, with all that they call open.
abbrev initial : Rename
initial = record {
  map = tabulate (λ i. i) 32;
  ckpt_map = replicate 8 (replicate 32 0);
  fl = tabulate (λ i. 32 + i) 32;
  head = 0;
  tail = 0;
  count = 32;
  ckpt_fl_head = replicate 8 0;
  ckpt_head = 0;
  ckpt_count = pos 0;
}

initial_is : reset ≡ initial
unfolding reset
initial_is = refl

steps : Rename → Inputs → Rename × Outputs
unfolding step restored renamed outputs freed bundle_ready
steps = step

-- The second instruction reads the new register of the first.
bypassed : (steps initial two).1.prs1_1 ≡ 32
unfolding steps bundle_ready
bypassed = refl

recovered : (steps (steps initial two).0 back).0.head ≡ 1
unfolding steps bundle_ready
recovered = refl

replicate_zero : (n k : ℕ) → get_or (replicate n 0) k 0 < depth
replicate_zero zero k = omega arith
replicate_zero (suc n) zero = omega arith
replicate_zero (suc n) (suc k) = replicate_zero n k

no_heads : (k : ℕ) → get_or (replicate 8 0) k 0 < depth
no_heads k = replicate_zero 8 k

initial-IsRing : IsRing initial
initial-IsRing = record {
  sized = refl;
  head_in = omega arith;
  tail_at = refl;
  maps_sized = refl;
  heads_sized = refl;
  heads_in = no_heads;
  ckpt_in = omega arith;
}

step-IsRing_example : IsRing (step initial two).0
step-IsRing_example = step-IsRing initial two initial-IsRing (omega arith)

step-InOrder_example : InOrder initial two
unfolding outputs bundle_ready
step-InOrder_example = step-InOrder initial two refl refl (omega arith) (omega arith)

restore_recovers_example :
    ((step (step initial two).0 back).0.map ≡ (first initial two).map)
    × ((step (step initial two).0 back).0.head ≡ head_after0 initial two)
unfolding bundle_ready
restore_recovers_example =
    restore_recovers initial (step initial two).0 two back initial-IsRing refl (omega arith) done
      refl refl
