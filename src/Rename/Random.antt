-- ===== src/Rename/Random.antt =====
-- The random test of tb_rename.cpp, `randomized`: a cycle of it, with the parts that it takes in turn. The
-- generator `std::mt19937` and its distributions are a parameter; `exit(1)` is `none`.
use rv64_ooo_core.Prelude.{
  ℕ, ◌+◌, ◌-◌, ◌/◌, leb, ltb, ◌==◌, ◌&&◌, if◌then◌else◌, Bool, true, false, not, List, [], ◌∷◌,
  ◌++◌,
}
use rv64_ooo_core.Prelude.Occurrences.{insert, erase}
use rv64_ooo_core.Rename.{Inputs, Outputs, depth}

-- `std::mt19937`, and a draw from the numbers from `lo` to `hi`.
pub record Rng : Type 1 where
  pub Gen : Type 0
  pub seeded : ℕ → Gen
  pub draw : Gen → ℕ → ℕ → ℕ × Gen

pub record InFlightInstr : Type 0 where
  pub has_dest : Bool
  pub prev_prd : ℕ
  pub has_ckpt : Bool
  pub ckpt_id : ℕ
  pub seq : ℕ
  pub unresolved : Bool

pub record PendingBranch : Type 0 where
  pub ckpt_id : ℕ
  pub seq : ℕ

-- What the test keeps: `rob`, `inflight_set`, `seq_counter` and `pending_branches`.
pub record Flight : Type 0 where
  pub rob : List InFlightInstr
  pub inflight_set : List ℕ
  pub seq_counter : ℕ
  pub pending_branches : List PendingBranch

unfoldable pub no_flight : Flight
no_flight = record { rob = []; inflight_set = []; seq_counter = 0; pending_branches = [] }

abbrev pub forget : InFlightInstr → List ℕ → List ℕ
forget x set = if x.has_dest then erase x.prev_prd set else set

-- The loop that pops entries younger than a branch from the back of `rob`: an entry is popped if it is
-- younger and nothing is left behind it.
unfoldable pub pop_younger :
    ℕ → InFlightInstr → List InFlightInstr × List ℕ → List InFlightInstr × List ℕ
pop_younger seq x ([], set) = if ltb seq x.seq then ([], forget x set) else (x ∷ [], set)
pop_younger seq x (y ∷ ys, set) = (x ∷ y ∷ ys, set)

unfoldable pub discard_younger : ℕ → List InFlightInstr → List ℕ → List InFlightInstr × List ℕ
discard_younger seq [] set = ([], set)
discard_younger seq (x ∷ xs) set = pop_younger seq x (discard_younger seq xs set)

-- The branch at the back, which survives: its checkpoint is reclaimed.
unfoldable pub reclaim_back : ℕ → List InFlightInstr → List InFlightInstr
reclaim_back seq [] = []
reclaim_back seq (x ∷ []) =
    (if x.seq == seq then record x { unresolved = false; has_ckpt = false } else x) ∷ []
reclaim_back seq (x ∷ y ∷ ys) = x ∷ reclaim_back seq (y ∷ ys)

-- A branch predicted right: the first entry with its number is resolved.
unfoldable pub mark_resolved : ℕ → List InFlightInstr → List InFlightInstr
mark_resolved seq [] = []
mark_resolved seq (x ∷ xs) =
    if x.seq == seq then record x { unresolved = false } ∷ xs else x ∷ mark_resolved seq xs

unfoldable pub mispredicted : PendingBranch → Flight → Flight
mispredicted pb f =
    let (kept, set) = discard_younger pb.seq f.rob f.inflight_set in
    record f { rob = reclaim_back pb.seq kept; inflight_set = set; pending_branches = [] }

unfoldable pub predicted : PendingBranch → List PendingBranch → Flight → Flight
predicted pb rest f = record f { rob = mark_resolved pb.seq f.rob; pending_branches = rest }

-- A branch must be resolved before `DEPTH / 3` more instructions are renamed.
unfoldable pub must_resolve : Flight → PendingBranch → Bool
must_resolve f pb = leb (depth / 3) (f.seq_counter - pb.seq)

-- The rename requests of a cycle.
pub record Request : Type 0 where
  pub want : Bool
  pub rs1 : ℕ
  pub rs2 : ℕ
  pub rd : ℕ
  pub br : Bool

unfoldable pub no_request : Request
no_request = record { want = false; rs1 = 0; rs2 = 0; rd = 0; br = false }

-- The front of `rob` retires.
unfoldable pub can_commit : List InFlightInstr → Bool
can_commit [] = false
can_commit (x ∷ xs) = not x.unresolved

unfoldable pub pop_front : Flight → Flight
pop_front f = elim f.rob [
  | [] ↦ f
  | x ∷ xs ↦ record f { rob = xs; inflight_set = forget x f.inflight_set }
]

abbrev pub returned_prd : InFlightInstr → ℕ
returned_prd x = if x.has_dest then x.prev_prd else 0

unfoldable pub drive_commit0 : List InFlightInstr → Inputs → Inputs
drive_commit0 [] i = i
drive_commit0 (x ∷ xs) i = record i {
  commit_valid0 = true;
  commit_prev_prd0 = returned_prd x;
  commit_ckpt_release0 = x.has_ckpt;
}

unfoldable pub drive_commit1 : List InFlightInstr → Inputs → Inputs
drive_commit1 [] i = i
drive_commit1 (x ∷ xs) i = record i {
  commit_valid1 = true;
  commit_prev_prd1 = returned_prd x;
  commit_ckpt_release1 = x.has_ckpt;
}

-- The entry of an instruction that was renamed, at the back of `rob`.
unfoldable pub push_back : Request → ℕ → ℕ → Flight → Flight
push_back r prev_prd ckpt_id f =
    let has_dest = not (r.rd == 0) in
    let has_ckpt = r.br && r.want in
    record {
      rob =
          f.rob
          ++ (record {
            has_dest = has_dest;
            prev_prd = prev_prd;
            has_ckpt = has_ckpt;
            ckpt_id = ckpt_id;
            seq = f.seq_counter;
            unresolved = has_ckpt;
          }
              ∷ []);
      inflight_set = if has_dest then insert prev_prd f.inflight_set else f.inflight_set;
      seq_counter = f.seq_counter + 1;
      pending_branches =
          if r.br
          then f.pending_branches ++ (record { ckpt_id = ckpt_id; seq = f.seq_counter } ∷ [])
          else f.pending_branches;
    }

abbrev pub push_if : Request → ℕ → ℕ → Flight → Flight
push_if r prev_prd ckpt_id f = if r.want then push_back r prev_prd ckpt_id f else f

unfoldable pub renamed_both : Request → Request → Outputs → Flight → Flight
renamed_both r0 r1 o f =
    if o.rename_ready0
    then push_if r1 o.prev_prd1 o.ckpt_id1 (push_if r0 o.prev_prd0 o.ckpt_id0 f)
    else f
