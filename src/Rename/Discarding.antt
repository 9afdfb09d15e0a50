-- ===== src/Rename/Discarding.antt =====
-- The entries that the random test of tb_rename.cpp discards after a misprediction.
use rv64_ooo_core.Prelude.{
  ℕ, ◌+◌, ◌≤◌, ◌<◌, ◌≡◌, refl, subst, arith, ltb, ◌==◌, false, Bool-cases, inl, inr, List, [], ◌∷◌,
  ==_refl, lt→ltb,
}
use rv64_ooo_core.Rename.Random.{
  InFlightInstr, PendingBranch, pop_younger, discard_younger, reclaim_back,
}
use rv64_ooo_core.Rename.Tracking.{IsAscending, waiting, branch_of, cons_parts}

pop-IsAscending :
    (lo hi seq : ℕ) (x : InFlightInstr) (r : List InFlightInstr × List ℕ)
    → lo ≤ x.seq
    → IsAscending (x.seq + 1) r.0 hi
    → IsAscending lo (pop_younger seq x r).0 hi
unfolding pop_younger
pop-IsAscending lo hi seq x ([], set) le h = elim (Bool-cases (ltb seq x.seq)) [
  | inl c ↦ rw c (omega arith)
  | inr c ↦ rw c (le, h)
]
pop-IsAscending lo hi seq x (y ∷ ys, set) le h = (le, h)

pub discard-IsAscending :
    (lo hi seq : ℕ) (xs : List InFlightInstr) (set : List ℕ)
    → IsAscending lo xs hi
    → IsAscending lo (discard_younger seq xs set).0 hi
unfolding discard_younger
discard-IsAscending lo hi seq [] set h = h
discard-IsAscending lo hi seq (x ∷ xs) set h =
    pop-IsAscending lo hi seq x (discard_younger seq xs set) h.0
      (discard-IsAscending (x.seq + 1) hi seq xs set h.1)

pub reclaim-IsAscending :
    (lo hi seq : ℕ) (xs : List InFlightInstr)
    → IsAscending lo xs hi
    → IsAscending lo (reclaim_back seq xs) hi
unfolding reclaim_back
reclaim-IsAscending lo hi seq [] h = h
reclaim-IsAscending lo hi seq (x ∷ []) h = elim (Bool-cases (x.seq == seq)) [
  | inl c ↦ rw c h
  | inr c ↦ rw c h
]
reclaim-IsAscending lo hi seq (x ∷ y ∷ ys) h =
    (h.0, reclaim-IsAscending (x.seq + 1) hi seq (y ∷ ys) h.1)

-- All younger than the branch: all are popped.
discard-all :
    (lo hi seq : ℕ) (xs : List InFlightInstr) (set : List ℕ)
    → IsAscending lo xs hi
    → seq < lo
    → (discard_younger seq xs set).0 ≡ []
unfolding discard_younger pop_younger
discard-all lo hi seq [] set h lt = refl
discard-all lo hi seq (x ∷ xs) set h lt =
    let a = h.0 in
    nothing_left seq x (discard_younger seq xs set) (omega arith)
      (discard-all (x.seq + 1) hi seq xs set h.1 (omega arith))
  where
    nothing_left :
        (seq : ℕ) (x : InFlightInstr) (r : List InFlightInstr × List ℕ)
        → seq < x.seq
        → r.0 ≡ []
        → (pop_younger seq x r).0 ≡ []
    nothing_left seq x ([], set) lt e = rw (lt→ltb seq x.seq lt) refl
    nothing_left seq x (y ∷ ys, set) lt e = absurd (let q = e in cc)

pop-resolved :
    (seq : ℕ) (x : InFlightInstr) (r : List InFlightInstr × List ℕ)
    → x.unresolved ≡ false
    → waiting (reclaim_back seq r.0) ≡ []
    → waiting (reclaim_back seq (pop_younger seq x r).0) ≡ []
unfolding pop_younger reclaim_back
pop-resolved seq x ([], set) c h = elim (Bool-cases (ltb seq x.seq)) [
  | inl l ↦ rw l refl
  | inr l ↦ rw l (elim (Bool-cases (x.seq == seq)) [ inl q ↦ rw q refl | inr q ↦ rw (q, c) refl ])
]
pop-resolved seq x (y ∷ ys, set) c h = rw c h

pop_itself :
    (x : InFlightInstr) (r : List InFlightInstr × List ℕ)
    → r.0 ≡ []
    → waiting (reclaim_back x.seq (pop_younger x.seq x r).0) ≡ []
unfolding pop_younger reclaim_back
pop_itself x ([], set) e = rw (ltb_irrefl x.seq, ==_refl x.seq) refl
  where
    ltb_irrefl : (n : ℕ) → ltb n n ≡ false
    ltb_irrefl n = ground arith
pop_itself x (y ∷ ys, set) e = absurd (let q = e in cc)

-- After a misprediction no entry is unresolved.
pub discard-waiting :
    (lo hi : ℕ) (xs : List InFlightInstr) (set : List ℕ) (pb : PendingBranch)
    (rest : List PendingBranch)
    → IsAscending lo xs hi
    → waiting xs ≡ pb ∷ rest
    → waiting (reclaim_back pb.seq (discard_younger pb.seq xs set).0) ≡ []
unfolding discard_younger
discard-waiting lo hi [] set pb rest h e = absurd (let q = e in cc)
discard-waiting lo hi (x ∷ xs) set pb rest h e = elim (Bool-cases x.unresolved) [
  | inl c ↦
      let first : branch_of x ≡ pb = (cons_parts (rw c at e)).0 in
      subst
        (λ (b : PendingBranch).
          waiting (reclaim_back b.seq (pop_younger b.seq x (discard_younger b.seq xs set)).0) ≡ [])
        first
        (pop_itself x (discard_younger x.seq xs set)
          (discard-all (x.seq + 1) hi x.seq xs set h.1 (omega arith)))
  | inr c ↦
      pop-resolved pb.seq x (discard_younger pb.seq xs set) c
        (discard-waiting (x.seq + 1) hi xs set pb rest h.1 (rw c at e))
]
