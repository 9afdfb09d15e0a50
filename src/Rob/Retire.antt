-- ===== src/Rob/Retire.antt =====
-- What `RobModel::step` commits, and the flush that it detects, in terms of the queue of
-- `Rob.Queue`.
use native.Mathlib.Decide.{dec_lt}
use rv64_ooo_core.Prelude.{
  ℕ, zero, suc, ◌+◌, ◌-◌, ◌%◌, ◌≤◌, ◌<◌, ◌≡◌, refl, sym, ◌∙◌, ap, Bool, true, false, not, ◌&&◌,
  arith, ap₂, Bool-cases, inl, inr, List, ◌∷◌, ◌++◌, map, length, tabulate, replicate,
  length-tabulate, tabulate_ext,
}
use rv64_ooo_core.Prelude.Circular.{at, window}
use rv64_ooo_core.Rob.{
  Rob, Entry, Flush, empty_entry, no_commit, no_flush, commit_of, can_commit, n_commit, commit_outs,
  flush_of, flush_round,
}
use rv64_ooo_core.Rob.Commit.{
  run, can_commit_later, n_commit-eq-run, flush_at, flush_of-eq-flush_at, flush_of_none,
}
use rv64_ooo_core.Rob.Invariant.{IsValid, n_commit-le-width, can_commit-eq}
use rv64_ooo_core.Rob.Queue.{Queue, Stop, retire, stop_of, stop_at, ends_burst}

-- The entries from the head on, oldest first.
abbrev pub contents : ℕ → Rob → List Entry
contents depth r = window depth empty_entry r.buf r.head r.count

abbrev pub view : ℕ → Rob → Queue
view depth r = record { first = r.head; entries = contents depth r }

module _ (depth width : ℕ) (pos : 0 < width) (room : width ≤ depth) (r : Rob)
    (v : IsValid depth r) where
  -- Nothing before slot `i` keeps it from committing.
  abbrev open_at : ℕ → Bool
  open_at zero = true
  open_at (suc i) =
      can_commit depth width r i && not (ends_burst (at depth empty_entry r.buf r.head i))

  can_commit-eq-open_at :
      (i : ℕ)
      → can_commit depth width r i ≡ (
          open_at i
          && ((at depth empty_entry r.buf r.head i).valid
              && (at depth empty_entry r.buf r.head i).done))
  unfolding can_commit
  can_commit-eq-open_at zero = refl
  can_commit-eq-open_at (suc i) = ground arith

  run_closed : (left i : ℕ) → open_at i ≡ false → run depth width r left i ≡ 0
  unfolding run
  run_closed zero i h = refl
  run_closed (suc left) i h = ground (arith, can_commit-eq-open_at i)

  -- The `n` entries from offset `i` on.
  abbrev from : ℕ → ℕ → List Entry
  from i n = tabulate (λ k. at depth empty_entry r.buf r.head (i + k)) n

  from-suc : (i n : ℕ) → from i (suc n) ≡ at depth empty_entry r.buf r.head i ∷ from (suc i) n
  from-suc i n =
      ap₂ ◌∷◌ (ap (at depth empty_entry r.buf r.head) (omega arith))
        (tabulate_ext _ _ n (λ k h. ap (at depth empty_entry r.buf r.head) (omega arith)))

  -- From a slot that may commit, the queue's rule retires the run of eligible slots.
  retire-eq-run :
      (left i : ℕ)
      → open_at i ≡ true
      → i + left ≤ depth
      → retire left (from i (r.count - i)) ≡ from i (run depth width r left i)
  unfolding retire run
  retire-eq-run zero i o h = refl
  retire-eq-run (suc left) i o h = elim (dec_lt i r.count) [
    | no p ↦
        let c : can_commit depth width r i ≡ false =
          ground (arith, can_commit-eq-open_at i, v.live i) in
        let z : r.count - i ≡ 0 = omega arith in rw (c, z)
    | yes p ↦
        ap (retire (suc left))
          (ap (from i) {y = suc (r.count - suc i)} (omega arith) ∙ from-suc i (r.count - suc i))
        ∙ elim (Bool-cases (at depth empty_entry r.buf r.head i).done) [
          | inr d ↦
              let c : can_commit depth width r i ≡ false =
                ground (arith, can_commit-eq-open_at i) in
              rw (d, c)
          | inl d ↦
              let c : can_commit depth width r i ≡ true =
                ground (arith, can_commit-eq-open_at i, v.live i) in
              rw (d, c)
                (ap (◌∷◌ (at depth empty_entry r.buf r.head i))
                    (elim (Bool-cases (ends_burst (at depth empty_entry r.buf r.head i))) [
                      | inl e ↦ rw (e, run_closed left (suc i) (rw (c, e)))
                      | inr e ↦ rw e (retire-eq-run left (suc i) (rw (c, e)) (omega arith))
                    ])
                  ∙ sym (from-suc i (run depth width r left (suc i))))
        ]
  ]

  from_zero : (n : ℕ) → from 0 n ≡ window depth empty_entry r.buf r.head n
  from_zero n = tabulate_ext _ _ n (λ k h. ap (at depth empty_entry r.buf r.head) (omega arith))

  retire-contents-run : retire width (contents depth r) ≡ from 0 (run depth width r width 0)
  retire-contents-run =
      ap (retire width) (sym (from_zero r.count) ∙ ap (from 0) {y = r.count - 0} (omega arith))
      ∙ retire-eq-run width 0 refl (omega arith)

  -- What commits is what the queue retires.
  pub retire-contents :
      retire width (contents depth r)
      ≡ window depth empty_entry r.buf r.head (n_commit depth width r)
  retire-contents =
      retire-contents-run
      ∙ (from_zero (run depth width r width 0)
          ∙ ap (window depth empty_entry r.buf r.head) (sym (n_commit-eq-run depth width r)))

  pub length-retire-contents : length (retire width (contents depth r)) ≡ n_commit depth width r
  length-retire-contents =
      ap length retire-contents
      ∙ length-tabulate (at depth empty_entry r.buf r.head) (n_commit depth width r)

  commit_outs_none :
      (left i : ℕ)
      → can_commit depth width r i ≡ false
      → commit_outs depth width r left i ≡ replicate left no_commit
  unfolding commit_outs
  commit_outs_none zero i h = refl
  commit_outs_none (suc left) i h = rw h (
      ap (◌∷◌ no_commit)
        (commit_outs_none left (suc i) (can_commit_later depth width r (suc i) i (omega arith) h)))

  commit_outs-eq-run :
      (left i : ℕ)
      → commit_outs depth width r left i
        ≡ map commit_of (from i (run depth width r left i))
          ++ replicate (left - run depth width r left i) no_commit
  unfolding commit_outs run
  commit_outs-eq-run zero i = refl
  commit_outs-eq-run (suc left) i = elim (Bool-cases (can_commit depth width r i)) [
    | inr c ↦ rw c (
        ap (◌∷◌ no_commit)
          (commit_outs_none left (suc i) (can_commit_later depth width r (suc i) i (omega arith) c))
        ∙ ap (λ (m : ℕ). replicate m no_commit) {x = suc left} (omega arith))
    | inl c ↦
        let n = run depth width r left (suc i) in
        rw c (
          ap (◌∷◌ (commit_of (at depth empty_entry r.buf r.head i)))
            (commit_outs-eq-run left (suc i))
          ∙ (ap (λ l. map commit_of l ++ replicate (left - n) no_commit) (sym (from-suc i n))
              ∙ ap (λ (m : ℕ). map commit_of (from i (suc n)) ++ replicate m no_commit)
                  {y = suc left - suc n} (omega arith)))
  ]

  -- The commit port carries what the queue retires, padded with invalid entries.
  pub commit_outs-contents :
      commit_outs depth width r width 0
      ≡ map commit_of (retire width (contents depth r))
        ++ replicate (width - length (retire width (contents depth r))) no_commit
  commit_outs-contents =
      let n = run depth width r width 0 in
      commit_outs-eq-run width 0
      ∙ (ap (λ (m : ℕ). map commit_of (from 0 n) ++ replicate (width - m) no_commit)
            (sym (length-tabulate (λ k. at depth empty_entry r.buf r.head (0 + k)) n))
          ∙ ap (λ l. map commit_of l ++ replicate (width - length l) no_commit)
              (sym retire-contents-run))

stop_of-tabulate : (f : ℕ → Entry) (m : ℕ) → stop_of (tabulate f (suc m)) ≡ stop_at (f m)
unfolding stop_of
stop_of-tabulate f zero = refl
stop_of-tabulate f (suc m) = stop_of-tabulate (λ k. f (suc k)) m

-- The flush signals of a stop at slot `i`.
abbrev pub as_flush : ℕ → Stop → Flush
as_flush i Stop.keep = no_flush
as_flush i (Stop.trap pc) = record no_flush { full = true; pc = pc }
as_flush i (Stop.redirect pc) = record no_flush { branch = true; idx = i; pc = pc }

module _ (depth width : ℕ) (pos : 0 < width) (room : width ≤ depth) (r : Rob)
    (v : IsValid depth r) where
  flush_at-eq :
      (i : ℕ)
      → can_commit depth width r i ≡ true
      → flush_at depth width r i
        ≡ as_flush ((r.head + i) % depth) (stop_at (at depth empty_entry r.buf r.head i))
  unfolding flush_round
  flush_at-eq i c = ground arith

  -- The flush that is detected is what the queue's last retired entry asks for.
  pub flush_of-contents :
      flush_of depth width r
      ≡ as_flush
          ((r.head + (n_commit depth width r - 1)) % depth)
          (stop_of (retire width (contents depth r)))
  unfolding stop_of
  flush_of-contents = elim (dec_lt 0 (n_commit depth width r)) [
    | yes p ↦
        flush_of-eq-flush_at depth width r p
        ∙ (flush_at-eq (n_commit depth width r - 1) (
              can_commit-eq depth width pos room r v (n_commit depth width r - 1)
                (omega (arith, n_commit-le-width depth width pos room r v))
              ∙ ground arith)
            ∙ ap (as_flush ((r.head + (n_commit depth width r - 1)) % depth)) (
                sym (
                  ap stop_of (
                    retire-contents depth width pos room r v
                    ∙ ap (window depth empty_entry r.buf r.head)
                        {y = suc (n_commit depth width r - 1)} (omega arith))
                  ∙ stop_of-tabulate (at depth empty_entry r.buf r.head)
                      (n_commit depth width r - 1))))
    | no p ↦
        let z : n_commit depth width r ≡ 0 = omega arith in
        flush_of_none depth width r z
        ∙ ap (as_flush ((r.head + (n_commit depth width r - 1)) % depth)) (
            sym (
              ap stop_of (
                retire-contents depth width pos room r v
                ∙ ap (window depth empty_entry r.buf r.head) z)))
  ]
