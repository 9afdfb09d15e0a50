-- ===== src/Rob.antt =====
-- The reorder buffer's reference model, sim/ooo/rob/rob_model.h: `RobModel<DEPTH, WIDTH>`.
-- The two template parameters are the section's `depth` and `width`. `buf_` is a list of `depth`
-- entries; a field of 8 or 64 bits is only moved, never computed with, so it is any number.
-- An `int` index is a number: none of the model's subtractions goes below 0 where `Rob.Invariant`
-- holds.
pub mod Commit
pub mod Slots
pub mod Invariant
pub mod Queue
pub mod Retire
pub mod Refine
pub mod Order
pub mod Bench
pub mod Directed
pub mod Random
pub mod Pending
pub mod Outstanding
pub mod Waiting
pub mod Writebacks
pub mod RandomRun
mod Tests
mod BenchTests
use rv64_ooo_core.Prelude.{
  ℕ, zero, suc, ◌+◌, ◌-◌, ◌%◌, Bool, true, false, not, ◌&&◌, ◌||◌, List, [], ◌∷◌, leb, ◌==◌,
  if◌then◌else◌, get_or, set, replicate, one_if,
}

-- `RobModel::Entry`
pub record Entry : Type 0 where
  pub valid : Bool
  pub done : Bool
  pub exception : Bool
  pub mispredict : Bool
  pub pc : ℕ
  pub redirect_pc : ℕ
  pub rd_arch : ℕ
  pub prd : ℕ
  pub prev_prd : ℕ
  pub is_store : Bool

-- `Entry{}`
abbrev pub empty_entry : Entry
empty_entry = record {
  valid = false;
  done = false;
  exception = false;
  mispredict = false;
  pc = 0;
  redirect_pc = 0;
  rd_arch = 0;
  prd = 0;
  prev_prd = 0;
  is_store = false;
}

pub record AllocReq : Type 0 where
  pub valid : Bool
  pub pc : ℕ
  pub rd_arch : ℕ
  pub prd : ℕ
  pub prev_prd : ℕ
  pub is_branch : Bool
  pub is_store : Bool

pub record WbReq : Type 0 where
  pub valid : Bool
  pub rob_idx : ℕ
  pub exception : Bool
  pub mispredict : Bool
  pub redirect_pc : ℕ

pub record CommitOut : Type 0 where
  pub valid : Bool
  pub pc : ℕ
  pub rd_arch : ℕ
  pub prd : ℕ
  pub prev_prd : ℕ
  pub is_store : Bool

-- `CommitOut{false, 0, 0, 0, 0, false}`
abbrev pub no_commit : CommitOut
no_commit = record { valid = false; pc = 0; rd_arch = 0; prd = 0; prev_prd = 0; is_store = false }

-- The private members `buf_`, `head_`, `tail_` and `count_`.
pub record Rob : Type 0 where
  pub buf : List Entry
  pub head : ℕ
  pub tail : ℕ
  pub count : ℕ

-- `flush_full_c`, `flush_branch_c`, `flush_idx_c` and `flush_pc_c` of `step`.
pub record Flush : Type 0 where
  pub full : Bool
  pub branch : Bool
  pub idx : ℕ
  pub pc : ℕ

abbrev pub no_flush : Flush
no_flush = record { full = false; branch = false; idx = 0; pc = 0 }

-- The output parameters of `step`.
pub record StepOut : Type 0 where
  pub commit_out : List CommitOut
  pub flush_valid : Bool
  pub flush_full : Bool
  pub flush_pc : ℕ
  pub flush_branch_idx : ℕ

-- What is stored for an accepted allocation request.
abbrev pub new_entry : AllocReq → Entry
new_entry a = record empty_entry {
  valid = true;
  pc = a.pc;
  rd_arch = a.rd_arch;
  prd = a.prd;
  prev_prd = a.prev_prd;
  is_store = a.is_store;
}

abbrev pub commit_of : Entry → CommitOut
commit_of e = record {
  valid = true;
  pc = e.pc;
  rd_arch = e.rd_arch;
  prd = e.prd;
  prev_prd = e.prev_prd;
  is_store = e.is_store;
}

abbrev pub invalidate : Entry → Entry
invalidate e = record e { valid = false }

-- What a writeback request makes of the entry that it names.
abbrev pub mark_done : WbReq → Entry → Entry
mark_done w e = record e {
  done = true;
  exception = w.exception;
  mispredict = w.mispredict;
  redirect_pc = w.redirect_pc;
}

-- `n_alloc`: the valid requests.
pub n_valid : List AllocReq → ℕ
n_valid [] = 0
n_valid (a ∷ allocs) = one_if a.valid + n_valid allocs

module _ (depth width : ℕ) where
  -- The constructor, and the state after a reset or a full flush.
  abbrev pub fresh : Rob
  fresh = record { buf = replicate depth empty_entry; head = 0; tail = 0; count = 0 }

  pub is_empty : Rob → Bool
  is_empty r = r.count == 0

  pub is_full : Rob → Bool
  is_full r = r.count == depth

  pub alloc_ready : Rob → Bool
  alloc_ready r = leb width (depth - r.count)

  abbrev pub idx_at : Rob → ℕ → ℕ
  idx_at r offset = (r.head + offset) % depth

  abbrev pub alloc_idx : Rob → ℕ → ℕ
  alloc_idx r slot = idx_at r (r.count + slot)

  -- `buf_[head_idx[i]]`
  abbrev pub head_entry : Rob → ℕ → Entry
  head_entry r i = get_or r.buf (idx_at r i) empty_entry

  -- `can_commit[i]`
  pub can_commit : Rob → ℕ → Bool
  can_commit r zero = (head_entry r 0).valid && (head_entry r 0).done
  can_commit r (suc i) =
      can_commit r i
      && (not (head_entry r i).exception
          && (not (head_entry r i).mispredict
              && ((head_entry r (suc i)).valid && (head_entry r (suc i)).done)))

  -- The loop `for (int i = 0; i < WIDTH; i++)` that fills `commit_out` and counts, in its two
  -- results. Here, and in the loops below, `left` is the number of rounds left.
  pub count_commits : Rob → ℕ → ℕ → ℕ → ℕ
  count_commits r zero i n = n
  count_commits r (suc left) i n =
      count_commits r left (suc i) (if can_commit r i then n + 1 else n)

  pub commit_outs : Rob → ℕ → ℕ → List CommitOut
  commit_outs r zero i = []
  commit_outs r (suc left) i =
      (if can_commit r i then commit_of (head_entry r i) else no_commit)
      ∷ commit_outs r left (suc i)

  pub n_commit : Rob → ℕ
  n_commit r = count_commits r width 0 0

  -- One round of the flush detection, and its loop.
  pub flush_round : Rob → ℕ → Flush → Flush
  flush_round r i f =
      if can_commit r i && ((head_entry r i).exception && (not f.full && not f.branch))
      then record f { full = true; pc = (head_entry r i).redirect_pc }
      else if can_commit r i && ((head_entry r i).mispredict && (not f.full && not f.branch))
      then record f { branch = true; idx = idx_at r i; pc = (head_entry r i).redirect_pc }
      else f

  pub flush_scan : Rob → ℕ → ℕ → Flush → Flush
  flush_scan r zero i f = f
  flush_scan r (suc left) i f = flush_scan r left (suc i) (flush_round r i f)

  pub flush_of : Rob → Flush
  flush_of r = flush_scan r width 0 no_flush

  -- `buf_[idx].valid = false`
  abbrev pub clear_valid : ℕ → List Entry → List Entry
  clear_valid idx buf = set buf idx (invalidate (get_or buf idx empty_entry))

  -- "retire committed entries"
  pub retire_loop : Rob → ℕ → ℕ → List Entry → List Entry
  retire_loop r zero i buf = buf
  retire_loop r (suc left) i buf =
      retire_loop r left (suc i) (if can_commit r i then clear_valid (idx_at r i) buf else buf)

  -- The squash of what is younger than the mispredicted branch.
  pub squash_loop : ℕ → ℕ → ℕ → List Entry → List Entry
  squash_loop flush_idx zero k buf = buf
  squash_loop flush_idx (suc left) k buf =
      squash_loop flush_idx left (suc k) (clear_valid ((flush_idx + 1 + k) % depth) buf)

  pub alloc_loop : ℕ → List AllocReq → ℕ → List Entry → List Entry
  alloc_loop tail [] slot buf = buf
  alloc_loop tail (a ∷ allocs) slot buf =
      alloc_loop tail allocs (if a.valid then suc slot else slot)
        (if a.valid then set buf ((tail + slot) % depth) (new_entry a) else buf)

  pub wb_loop : List WbReq → List Entry → List Entry
  wb_loop [] buf = buf
  wb_loop (w ∷ wbs) buf =
      wb_loop wbs (
        if w.valid then set buf w.rob_idx (mark_done w (get_or buf w.rob_idx empty_entry)) else buf)

  -- The outputs of a step without reset.
  pub outputs : Rob → StepOut
  outputs r = record {
    commit_out = commit_outs r width 0;
    flush_valid = (flush_of r).full || (flush_of r).branch;
    flush_full = (flush_of r).full;
    flush_pc = (flush_of r).pc;
    flush_branch_idx = (flush_of r).idx;
  }

  -- After retirement: the branch flush, or else the allocation.
  pub squash_branch : Rob → Rob
  squash_branch r = record {
    buf = squash_loop (flush_of r).idx (r.count - n_commit r) 0 (retire_loop r width 0 r.buf);
    head = (r.head + n_commit r) % depth;
    tail = ((flush_of r).idx + 1) % depth;
    count = 0;
  }

  pub retire_alloc : Rob → List AllocReq → Rob
  retire_alloc r allocs =
      let n_alloc = if alloc_ready r then n_valid allocs else 0 in
      record {
        buf =
            if alloc_ready r
            then alloc_loop r.tail allocs 0 (retire_loop r width 0 r.buf)
            else retire_loop r width 0 r.buf;
        head = (r.head + n_commit r) % depth;
        tail = (r.tail + n_alloc) % depth;
        count = r.count - n_commit r + n_alloc;
      }

  abbrev pub write_back : Rob → List WbReq → Rob
  write_back r wbs = record r { buf = wb_loop wbs r.buf }

  -- A clock edge without reset.
  pub advance : Rob → List AllocReq → List WbReq → Rob
  advance r allocs wbs =
      if (flush_of r).full
      then fresh
      else if (flush_of r).branch
      then write_back (squash_branch r) wbs
      else write_back (retire_alloc r allocs) wbs

  abbrev pub reset_out : StepOut
  reset_out = record {
    commit_out = replicate width no_commit;
    flush_valid = false;
    flush_full = false;
    flush_pc = 0;
    flush_branch_idx = 0;
  }

  -- `RobModel::step`
  pub step : Rob → List AllocReq → List WbReq → Bool → Rob × StepOut
  step r allocs wbs rst = if rst then (fresh, reset_out) else (advance r allocs wbs, outputs r)
