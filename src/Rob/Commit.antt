-- ===== src/Rob/Commit.antt =====
-- Commit eligibility of `RobModel::step`: the eligible slots are those below `n_commit`, and the
-- flush that is detected is that of the last of them.
use native.Mathlib.Decide.{dec_lt}
use rv64_ooo_core.Prelude.{
  ◌-◌, ℕ, zero, suc, ◌+◌, ◌≤◌, ◌<◌, ◌≡◌, refl, ◌∙◌, true, false, arith, ltb, Bool-cases, inl, inr,
  ap, if◌then◌else◌,
}
use rv64_ooo_core.Rob.{
  Rob, Flush, no_flush, idx_at, can_commit, count_commits, n_commit, flush_round, flush_scan,
  flush_of,
}

module _ (depth width : ℕ) (r : Rob) where
  -- How many slots from `i` on, of the next `left`, are eligible in a row.
  unfoldable pub run : ℕ → ℕ → ℕ
  run zero i = 0
  run (suc left) i = if can_commit depth width r i then suc (run left (suc i)) else 0

  pub run-le : (left i : ℕ) → run left i ≤ left
  unfolding run
  run-le zero i = omega arith
  run-le (suc left) i = ground (arith, run-le left (suc i))

  can_commit-suc :
      (i : ℕ) → can_commit depth width r i ≡ false → can_commit depth width r (suc i) ≡ false
  unfolding can_commit
  can_commit-suc i h = rw h

  pub can_commit_later :
      (k i : ℕ) → i ≤ k → can_commit depth width r i ≡ false → can_commit depth width r k ≡ false
  can_commit_later zero i l h = ground arith
  can_commit_later (suc k) i l h = ground (arith, can_commit_later k i, can_commit-suc k)

  run_none : (left i : ℕ) → can_commit depth width r i ≡ false → run left i ≡ 0
  unfolding run
  run_none zero i h = refl
  run_none (suc left) i h = rw h

  -- Within the slots looked at, eligible means below the end of the run.
  pub can_commit-eq-ltb :
      (left i k : ℕ) → i ≤ k → k < i + left → can_commit depth width r k ≡ ltb k (i + run left i)
  unfolding run
  can_commit-eq-ltb zero i k h l = absurd (omega arith)
  can_commit-eq-ltb (suc left) i k h l =
      ground (arith, can_commit_later k i h, can_commit-eq-ltb left (suc i) k)

  count_commits-eq-run : (left i n : ℕ) → count_commits depth width r left i n ≡ n + run left i
  unfolding count_commits run
  count_commits-eq-run zero i n = omega arith
  count_commits-eq-run (suc left) i n = elim (Bool-cases (can_commit depth width r i)) [
    | inl e ↦ rw e (omega (arith, count_commits-eq-run left (suc i) (n + 1)))
    | inr e ↦ rw e (
        omega
          (arith, count_commits-eq-run left (suc i) n, run_none left (suc i) (can_commit-suc i e)))
  ]

  pub n_commit-eq-run : n_commit depth width r ≡ run width 0
  unfolding n_commit
  n_commit-eq-run = omega (arith, count_commits-eq-run width 0 0)

  -- The flush that slot `i` asks for when it is eligible and no older slot has asked.
  abbrev pub flush_at : ℕ → Flush
  flush_at i = flush_round depth width r i no_flush

  -- ... of the last of `m` eligible slots from `i` on.
  pub last_flush : ℕ → ℕ → Flush
  last_flush i zero = no_flush
  last_flush i (suc zero) = flush_at i
  last_flush i (suc (suc m)) = last_flush (suc i) (suc m)

  -- Once a slot is not eligible, nothing changes.
  flush_scan_stop :
      (left i : ℕ) (f : Flush)
      → can_commit depth width r i ≡ false
      → flush_scan depth width r left i f ≡ f
  unfolding flush_scan flush_round
  flush_scan_stop zero i f h = refl
  flush_scan_stop (suc left) i f h = rw h (flush_scan_stop left (suc i) f (can_commit-suc i h))

  -- A slot behind which another is eligible asks for no flush.
  flush_at_inner : (i : ℕ) → can_commit depth width r (suc i) ≡ true → flush_at i ≡ no_flush
  unfolding flush_round can_commit
  flush_at_inner i h = ground arith

  run_pos :
      (left i : ℕ)
      → can_commit depth width r (suc i) ≡ true
      → run (suc left) (suc i) ≡ suc (run left (suc (suc i)))
  unfolding run
  run_pos left i h = rw h

  flush_scan-eq-last_flush :
      (left i : ℕ) → flush_scan depth width r left i no_flush ≡ last_flush i (run left i)
  unfolding flush_scan last_flush run
  flush_scan-eq-last_flush zero i = refl
  flush_scan-eq-last_flush (suc zero) i = elim (Bool-cases (can_commit depth width r i)) [
    | inl e ↦ rw e
    | inr e ↦ rw (e, flush_scan_stop 1 i no_flush e)
  ]
  flush_scan-eq-last_flush (suc (suc left)) i = elim (Bool-cases (can_commit depth width r i)) [
    | inr e ↦ rw e (flush_scan_stop (suc (suc left)) i no_flush e)
    | inl e ↦ elim (Bool-cases (can_commit depth width r (suc i))) [
      | inl e' ↦
          rw (e, e', flush_at_inner i e')
            (flush_scan-eq-last_flush (suc left) (suc i)
              ∙ ap (last_flush (suc i)) (run_pos left i e'))
      | inr e' ↦ rw (e, e') (flush_scan_stop (suc left) (suc i) (flush_at i) e')
    ]
  ]

  pub flush_of-eq-last_flush : flush_of depth width r ≡ last_flush 0 (n_commit depth width r)
  unfolding flush_of
  flush_of-eq-last_flush = rw n_commit-eq-run (flush_scan-eq-last_flush width 0)

  last_flush-suc : (i m : ℕ) → last_flush i (suc m) ≡ flush_at (i + m)
  unfolding last_flush
  last_flush-suc i zero = ap flush_at (omega arith)
  last_flush-suc i (suc m) = last_flush-suc (suc i) m ∙ ap flush_at (omega arith)

  -- The flush is that of the last eligible slot.
  pub flush_of-eq-flush_at :
      0 < n_commit depth width r → flush_of depth width r ≡ flush_at (n_commit depth width r - 1)
  flush_of-eq-flush_at h =
      flush_of-eq-last_flush
      ∙ (ap (last_flush 0) (omega arith)
          ∙ (last_flush-suc 0 (n_commit depth width r - 1) ∙ ap flush_at (omega arith)))

  -- Without an eligible slot there is no flush.
  pub flush_of_none : n_commit depth width r ≡ 0 → flush_of depth width r ≡ no_flush
  unfolding last_flush
  flush_of_none h = flush_of-eq-last_flush ∙ ap (last_flush 0) h

  flush_at_branch : (i : ℕ) → (flush_at i).branch ≡ true → (flush_at i).idx ≡ idx_at depth width r i
  unfolding flush_round
  flush_at_branch i h = ground arith

  -- A branch flush names the last eligible slot.
  pub flush_branch_idx :
      (flush_of depth width r).branch ≡ true
      → (0 < n_commit depth width r)
        × ((flush_of depth width r).idx ≡ idx_at depth width r (n_commit depth width r - 1))
  flush_branch_idx h = elim (dec_lt 0 (n_commit depth width r)) [
    | yes p ↦ (
      p,
      rw (flush_of-eq-flush_at p)
          (flush_at_branch (n_commit depth width r - 1) (rw (flush_of-eq-flush_at p) at h)),
    )
    | no p ↦ absurd (cc (flush_of_none (omega arith)))
  ]
