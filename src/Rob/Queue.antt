-- ===== src/Rob/Queue.antt =====
-- What the reorder buffer promises, without slots: a queue of instructions in program order, which
-- retires the longest finished prefix of at most `width`, up to and with the first one that
-- trapped or was mispredicted.
use rv64_ooo_core.Prelude.{
  ℕ, zero, suc, ◌+◌, ◌-◌, ◌%◌, Bool, true, false, ◌||◌, List, [], ◌∷◌, ◌++◌, map, leb,
  if◌then◌else◌, length, get_or, set, drop, replicate,
}
use rv64_ooo_core.Prelude.Circular.{offset}
use rv64_ooo_core.Rob.{
  Entry, AllocReq, WbReq, StepOut, empty_entry, no_commit, commit_of, mark_done,
}
use rv64_ooo_core.Rob.Slots.{accepted}

-- The oldest entry is first; `first` is the slot by which writebacks name it.
pub record Queue : Type 0 where
  pub first : ℕ
  pub entries : List Entry

-- Why a step throws away what did not retire: nothing, a trap, or a mispredicted branch.
pub data Stop : Type 0 where
  keep : Stop
  trap : ℕ → Stop
  redirect : ℕ → Stop

-- The entry after which nothing more retires in this step.
abbrev pub ends_burst : Entry → Bool
ends_burst e = e.exception || e.mispredict

unfoldable pub retire : ℕ → List Entry → List Entry
retire zero q = []
retire (suc w) [] = []
retire (suc w) (e ∷ q) =
    let rest = retire w q in if e.done then e ∷ (if ends_burst e then [] else rest) else []

abbrev pub stop_at : Entry → Stop
stop_at e =
    if e.exception
    then trap e.redirect_pc
    else if e.mispredict
    then redirect e.redirect_pc
    else keep

-- The last retired entry decides.
unfoldable pub stop_of : List Entry → Stop
stop_of [] = keep
stop_of (e ∷ []) = stop_at e
stop_of (e ∷ f ∷ q) = stop_of (f ∷ q)

-- A writeback to a slot that holds no queued entry falls behind the queue, and does nothing.
unfoldable pub complete : ℕ → ℕ → List WbReq → List Entry → List Entry
complete depth first [] q = q
complete depth first (w ∷ wbs) q = complete depth first wbs (
    if w.valid
    then set q (offset depth first w.rob_idx)
        (mark_done w (get_or q (offset depth first w.rob_idx) empty_entry))
    else q)

abbrev pub after : ℕ → ℕ → Queue → List AllocReq → List WbReq → Stop → ℕ → Queue
after depth width q allocs wbs (trap pc) n = record { first = 0; entries = [] }
after depth width q allocs wbs (redirect pc) n = record {
  first = (q.first + n) % depth;
  entries = [];
}
after depth width q allocs wbs keep n = record {
  first = (q.first + n) % depth;
  entries =
      complete depth ((q.first + n) % depth) wbs (
        drop n q.entries ++ (if leb width (depth - length q.entries) then accepted allocs else []));
}

unfoldable pub step : ℕ → ℕ → Queue → List AllocReq → List WbReq → Queue
step depth width q allocs wbs =
    let done = retire width q.entries in after depth width q allocs wbs (stop_of done) (length done)

abbrev pub result : ℕ → ℕ → Queue → List Entry → Stop → StepOut
result depth width q done keep = record {
  commit_out = map commit_of done ++ replicate (width - length done) no_commit;
  flush_valid = false;
  flush_full = false;
  flush_pc = 0;
  flush_branch_idx = 0;
}
result depth width q done (trap pc) = record {
  commit_out = map commit_of done ++ replicate (width - length done) no_commit;
  flush_valid = true;
  flush_full = true;
  flush_pc = pc;
  flush_branch_idx = 0;
}
result depth width q done (redirect pc) = record {
  commit_out = map commit_of done ++ replicate (width - length done) no_commit;
  flush_valid = true;
  flush_full = false;
  flush_pc = pc;
  flush_branch_idx = (q.first + (length done - 1)) % depth;
}

-- What a step reports.
unfoldable pub outputs : ℕ → ℕ → Queue → StepOut
outputs depth width q =
    let done = retire width q.entries in result depth width q done (stop_of done)
