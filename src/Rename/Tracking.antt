-- ===== src/Rename/Tracking.antt =====
-- The reorder buffer that the random test of tb_rename.cpp keeps: its numbers ascend, and the pending
-- branches are its unresolved entries.
use rv64_ooo_core.Prelude.{
  ℕ, ◌+◌, ◌≤◌, ◌≡◌, refl, ap, arith, ◌==◌, if◌then◌else◌, Bool, true, false, Bool-cases, inl, inr,
  List, [], ◌∷◌, ◌++◌, ==_iff, ne→==,
}
use rv64_ooo_core.Rename.Random.{InFlightInstr, PendingBranch, Flight, mark_resolved}

-- The numbers ascend, from `lo` on and below `hi`.
abbrev pub IsAscending : ℕ → List InFlightInstr → ℕ → Type 0
IsAscending lo [] hi = lo ≤ hi
IsAscending lo (x ∷ xs) hi = (lo ≤ x.seq) × IsAscending (x.seq + 1) xs hi

abbrev pub branch_of : InFlightInstr → PendingBranch
branch_of x = record { ckpt_id = x.ckpt_id; seq = x.seq }

-- The unresolved entries, as the branches that they are.
abbrev pub waiting : List InFlightInstr → List PendingBranch
waiting [] = []
waiting (x ∷ xs) = if x.unresolved then branch_of x ∷ waiting xs else waiting xs

pub record IsTracked (f : Flight) : Type 0 where
  pub ascending : IsAscending 0 f.rob f.seq_counter
  pub pending : f.pending_branches ≡ waiting f.rob

pub IsAscending-from :
    (lo lo' hi : ℕ) (xs : List InFlightInstr)
    → IsAscending lo xs hi
    → lo' ≤ lo
    → IsAscending lo' xs hi
IsAscending-from lo lo' hi [] h le = omega arith
IsAscending-from lo lo' hi (x ∷ xs) h le = (let a = h.0 in omega arith, h.1)

pub IsAscending-le : (lo hi : ℕ) (xs : List InFlightInstr) → IsAscending lo xs hi → lo ≤ hi
IsAscending-le lo hi [] h = h
IsAscending-le lo hi (x ∷ xs) h = let a = h.0 in omega (arith, IsAscending-le (x.seq + 1) hi xs h.1)

pub IsAscending-push :
    (lo hi : ℕ) (xs : List InFlightInstr) (e : InFlightInstr)
    → IsAscending lo xs hi
    → e.seq ≡ hi
    → IsAscending lo (xs ++ (e ∷ [])) (hi + 1)
IsAscending-push lo hi [] e h q = (omega arith, omega arith)
IsAscending-push lo hi (x ∷ xs) e h q = (h.0, IsAscending-push (x.seq + 1) hi xs e h.1 q)

pub waiting-push :
    (xs : List InFlightInstr) (e : InFlightInstr)
    → waiting (xs ++ (e ∷ []))
      ≡ (if e.unresolved then waiting xs ++ (branch_of e ∷ []) else waiting xs)
waiting-push [] e = refl
waiting-push (x ∷ xs) e = elim (Bool-cases x.unresolved) [
  | inl c ↦ rw (c, waiting-push xs e) (if_cons e.unresolved (branch_of x) _ _)
  | inr c ↦ rw c (waiting-push xs e)
]
  where
    if_cons :
        (b : Bool) (p : PendingBranch) (ps qs : List PendingBranch)
        → (p ∷ (if b then ps else qs)) ≡ (if b then p ∷ ps else p ∷ qs)
    if_cons true p ps qs = refl
    if_cons false p ps qs = refl

pub cons_parts :
    {p q : PendingBranch} {ps qs : List PendingBranch} → (p ∷ ps) ≡ (q ∷ qs) → (p ≡ q) × (ps ≡ qs)
cons_parts e = (cc, cc)

-- What the two loops do to a list whose oldest unresolved entry is `pb`.
pub waiting_bounded :
    (lo hi : ℕ) (xs : List InFlightInstr) (pb : PendingBranch) (rest : List PendingBranch)
    → IsAscending lo xs hi
    → waiting xs ≡ pb ∷ rest
    → lo ≤ pb.seq
waiting_bounded lo hi [] pb rest h e = absurd (let q = e in cc)
waiting_bounded lo hi (x ∷ xs) pb rest h e = elim (Bool-cases x.unresolved) [
  | inl c ↦
      let first : branch_of x ≡ pb = (cons_parts (rw c at e)).0 in
      let same : x.seq ≡ pb.seq = ap (λ (b : PendingBranch). b.seq) first in
      let a = h.0 in omega arith
  | inr c ↦
      let a = h.0 in
      let b = waiting_bounded (x.seq + 1) hi xs pb rest h.1 (rw c at e) in omega arith
]

pub mark-waiting :
    (lo hi : ℕ) (xs : List InFlightInstr) (pb : PendingBranch) (rest : List PendingBranch)
    → IsAscending lo xs hi
    → waiting xs ≡ pb ∷ rest
    → waiting (mark_resolved pb.seq xs) ≡ rest
unfolding mark_resolved
mark-waiting lo hi [] pb rest h e = absurd (let q = e in cc)
mark-waiting lo hi (x ∷ xs) pb rest h e = elim (Bool-cases x.unresolved) [
  | inl c ↦
      let split = cons_parts (rw c at e) in
      let same : x.seq ≡ pb.seq = ap (λ (b : PendingBranch). b.seq) split.0 in
      rw ((==_iff x.seq pb.seq).1 same) split.1
  | inr c ↦
      let b = waiting_bounded (x.seq + 1) hi xs pb rest h.1 (rw c at e) in
      rw (ne→== x.seq pb.seq (omega arith), c)
        (mark-waiting (x.seq + 1) hi xs pb rest h.1 (rw c at e))
]

pub mark-IsAscending :
    (lo hi seq : ℕ) (xs : List InFlightInstr)
    → IsAscending lo xs hi
    → IsAscending lo (mark_resolved seq xs) hi
unfolding mark_resolved
mark-IsAscending lo hi seq [] h = h
mark-IsAscending lo hi seq (x ∷ xs) h = elim (Bool-cases (x.seq == seq)) [
  | inl c ↦ rw c h
  | inr c ↦ rw c (h.0, mark-IsAscending (x.seq + 1) hi seq xs h.1)
]
