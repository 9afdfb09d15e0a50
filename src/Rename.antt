-- ===== src/Rename.antt =====
-- The golden model of register renaming, sim/rename/rename_model.h: `RenameModel`, with its constants.
-- An `int` that the source keeps from 0 on is a number; `ckpt_count_`, which a release may take below
-- 0, is an integer.
pub mod Ring
pub mod Sequential
pub mod Checkpoint
pub mod Bench
pub mod FreeList
pub mod Partition
pub mod Lanes
pub mod Accounting
pub mod Conformance
pub mod Directed
pub mod Drain
pub mod Random
pub mod RandomCycle
pub mod Tracking
pub mod Discarding
pub mod TrackedCycle
mod Tests
mod BenchTests
use rv64_ooo_core.Prelude.{
  ℕ, zero, suc, ◌+◌, ◌-◌, ◌%◌, leb, ltb, ◌==◌, one_if, if◌then◌else◌, Bool, true, false, not, ◌&&◌,
  List, [], ◌∷◌, get_or, set, replicate, tabulate,
}
use rv64_ooo_core.Prelude.Word.{ℤ, pos, add_ℤ, sub_ℤ, from_ℕ_sub, at_least}

abbrev pub arch_regs : ℕ
arch_regs = 32

abbrev pub n_ckpt : ℕ
n_ckpt = 8

abbrev pub depth : ℕ
depth = 32

pub record Inputs : Type 0 where
  pub valid0 : Bool
  pub valid1 : Bool
  pub rs1_0 : ℕ
  pub rs2_0 : ℕ
  pub rd0 : ℕ
  pub rs1_1 : ℕ
  pub rs2_1 : ℕ
  pub rd1 : ℕ
  pub is_branch0 : Bool
  pub is_branch1 : Bool
  pub ckpt_take0 : Bool
  pub ckpt_take1 : Bool
  pub restore_valid : Bool
  pub restore_ckpt_id : ℕ
  pub commit_valid0 : Bool
  pub commit_valid1 : Bool
  pub commit_prev_prd0 : ℕ
  pub commit_prev_prd1 : ℕ
  pub commit_ckpt_release0 : Bool
  pub commit_ckpt_release1 : Bool

pub record Outputs : Type 0 where
  pub prs1_0 : ℕ
  pub prs2_0 : ℕ
  pub prd0 : ℕ
  pub prev_prd0 : ℕ
  pub ckpt_id0 : ℕ
  pub rename_ready0 : Bool
  pub prs1_1 : ℕ
  pub prs2_1 : ℕ
  pub prd1 : ℕ
  pub prev_prd1 : ℕ
  pub ckpt_id1 : ℕ
  pub rename_ready1 : Bool
  pub free_count : ℕ
  pub ckpt_free_count : ℤ

pub record Rename : Type 0 where
  pub map : List ℕ
  pub ckpt_map : List (List ℕ)
  pub fl : List ℕ
  pub head : ℕ
  pub tail : ℕ
  pub count : ℕ
  pub ckpt_fl_head : List ℕ
  pub ckpt_head : ℕ
  pub ckpt_count : ℤ

unfoldable pub reset : Rename
reset = record {
  map = tabulate (λ i. i) 32;
  ckpt_map = replicate n_ckpt (replicate 32 0);
  fl = tabulate (λ i. arch_regs + i) depth;
  head = 0;
  tail = 0;
  count = depth;
  ckpt_fl_head = replicate n_ckpt 0;
  ckpt_head = 0;
  ckpt_count = pos 0;
}

-- The variables of `step`, in its order.
module _ (s : Rename) (i : Inputs) where
  abbrev pub needs_prd0 : Bool
  needs_prd0 = i.valid0 && not (i.rd0 == 0)

  abbrev pub needs_prd1 : Bool
  needs_prd1 = i.valid1 && not (i.rd1 == 0)

  abbrev pub want_ckpt0 : Bool
  want_ckpt0 = i.valid0 && (i.is_branch0 && i.ckpt_take0)

  abbrev pub want_ckpt1 : Bool
  want_ckpt1 = i.valid1 && (i.is_branch1 && i.ckpt_take1)

  abbrev pub needed_ckpts : ℕ
  needed_ckpts = one_if want_ckpt0 + one_if want_ckpt1

  abbrev pub ckpt_free_now : ℤ
  ckpt_free_now = from_ℕ_sub n_ckpt s.ckpt_count

  unfoldable pub bundle_ready : Bool
  bundle_ready = leb 2 s.count && at_least needed_ckpts ckpt_free_now

  abbrev pub alloc_en0 : Bool
  alloc_en0 = needs_prd0 && bundle_ready

  abbrev pub alloc_en1 : Bool
  alloc_en1 = needs_prd1 && bundle_ready

  abbrev pub grant_ckpt0 : Bool
  grant_ckpt0 = want_ckpt0 && (bundle_ready && not i.restore_valid)

  abbrev pub grant_ckpt1 : Bool
  grant_ckpt1 = want_ckpt1 && (bundle_ready && not i.restore_valid)

  abbrev pub do_a0 : Bool
  do_a0 = alloc_en0 && (not i.restore_valid && leb 1 s.count)

  abbrev pub do_a1 : Bool
  do_a1 = alloc_en1 && (not i.restore_valid && leb (if do_a0 then 2 else 1) s.count)

  abbrev pub alloc0 : ℕ
  alloc0 = get_or s.fl s.head 0

  abbrev pub alloc1 : ℕ
  alloc1 = get_or s.fl ((s.head + one_if do_a0) % depth) 0

  abbrev pub do_f0 : Bool
  do_f0 = i.commit_valid0 && not (i.commit_prev_prd0 == 0)

  abbrev pub do_f1 : Bool
  do_f1 = i.commit_valid1 && not (i.commit_prev_prd1 == 0)

  abbrev pub head_after0 : ℕ
  head_after0 = (s.head + one_if do_a0) % depth

  abbrev pub head_after1 : ℕ
  head_after1 = (head_after0 + one_if do_a1) % depth

  abbrev pub count_after_frees : ℕ
  count_after_frees = s.count + one_if do_f0 + one_if do_f1

  abbrev pub count_after1 : ℕ
  count_after1 = count_after_frees - one_if do_a0 - one_if do_a1

  abbrev pub nxt0 : List ℕ
  nxt0 = if alloc_en0 && not (i.rd0 == 0) then set s.map i.rd0 alloc0 else s.map

  abbrev pub nxt1 : List ℕ
  nxt1 = if alloc_en1 && not (i.rd1 == 0) then set nxt0 i.rd1 alloc1 else nxt0

  abbrev pub release_count : ℕ
  release_count =
      one_if (i.commit_valid0 && i.commit_ckpt_release0)
      + one_if (i.commit_valid1 && i.commit_ckpt_release1)

  abbrev pub count_after_release : ℤ
  count_after_release = sub_ℤ s.ckpt_count release_count

  abbrev pub ckpt_head_after0 : ℕ
  ckpt_head_after0 = (s.ckpt_head + one_if grant_ckpt0) % n_ckpt

  abbrev pub ckpt_head_after1 : ℕ
  ckpt_head_after1 = (ckpt_head_after0 + one_if grant_ckpt1) % n_ckpt

  unfoldable pub outputs : Outputs
  outputs = record {
    prs1_0 = get_or s.map i.rs1_0 0;
    prs2_0 = get_or s.map i.rs2_0 0;
    prd0 = if needs_prd0 then alloc0 else 0;
    prev_prd0 = get_or s.map i.rd0 0;
    ckpt_id0 = s.ckpt_head;
    rename_ready0 = bundle_ready;
    prs1_1 = if needs_prd0 && (i.rs1_1 == i.rd0) then alloc0 else get_or s.map i.rs1_1 0;
    prs2_1 = if needs_prd0 && (i.rs2_1 == i.rd0) then alloc0 else get_or s.map i.rs2_1 0;
    prd1 = if needs_prd1 then alloc1 else 0;
    prev_prd1 =
        if needs_prd0 && (i.valid1 && (i.rd1 == i.rd0)) then alloc0 else get_or s.map i.rd1 0;
    ckpt_id1 = ckpt_head_after0;
    rename_ready1 = bundle_ready;
    free_count = s.count;
    ckpt_free_count = ckpt_free_now;
  }

  -- `fl_` after the frees.
  unfoldable pub freed : List ℕ
  freed =
      let fl0 = if do_f0 then set s.fl s.tail i.commit_prev_prd0 else s.fl in
      if do_f1 then set fl0 ((s.tail + one_if do_f0) % depth) i.commit_prev_prd1 else fl0

  -- `ckpt_fl_head_` and `ckpt_map_` after the checkpoints taken.
  abbrev pub ckpt_fl_head_after : List ℕ
  ckpt_fl_head_after =
      let heads0 =
        if grant_ckpt0 then set s.ckpt_fl_head s.ckpt_head head_after0 else s.ckpt_fl_head in
      if grant_ckpt1 then set heads0 ckpt_head_after0 head_after1 else heads0

  abbrev pub ckpt_map_after : List (List ℕ)
  ckpt_map_after =
      let maps0 = if grant_ckpt0 then set s.ckpt_map s.ckpt_head nxt0 else s.ckpt_map in
      if grant_ckpt1 then set maps0 ckpt_head_after0 nxt1 else maps0

  abbrev pub restored_head : ℕ
  restored_head = get_or s.ckpt_fl_head i.restore_ckpt_id 0

  -- The state after a step with `restore_valid`; no checkpoint is granted then. The two differences are
  -- taken modulo the size.
  unfoldable pub restored : Rename
  restored = record s {
    map = get_or s.ckpt_map i.restore_ckpt_id [];
    fl = freed;
    head = restored_head;
    tail = (s.tail + one_if do_f0 + one_if do_f1) % depth;
    count = count_after_frees + (s.head + depth - restored_head) % depth;
    ckpt_fl_head = ckpt_fl_head_after;
    ckpt_head = i.restore_ckpt_id;
    ckpt_count = sub_ℤ count_after_release ((s.ckpt_head + n_ckpt - i.restore_ckpt_id) % n_ckpt);
  }

  unfoldable pub renamed : Rename
  renamed = record {
    map = nxt1;
    ckpt_map = ckpt_map_after;
    fl = freed;
    head = head_after1;
    tail = (s.tail + one_if do_f0 + one_if do_f1) % depth;
    count = count_after1;
    ckpt_fl_head = ckpt_fl_head_after;
    ckpt_head = ckpt_head_after1;
    ckpt_count = add_ℤ (add_ℤ count_after_release (one_if grant_ckpt0)) (one_if grant_ckpt1);
  }

  unfoldable pub step : Rename × Outputs
  step = (if i.restore_valid then restored else renamed, outputs)

-- `free_list_contents`
unfoldable pub free_list_contents : Rename → List ℕ
free_list_contents s = tabulate (λ k. get_or s.fl ((s.head + k) % depth) 0) s.count
