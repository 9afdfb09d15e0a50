-- ===== src/Rob/Writebacks.antt =====
-- The random test of tb_rob.cpp over its cycles: what it has outstanding, and what it writes back.
use rv64_ooo_core.Prelude.{
  ℕ, ◌+◌, ◌≤◌, ◌≡◌, refl, sym, ap, ◌∙◌, arith, ◌==◌, one_if, if◌then◌else◌, Bool, true, false, not,
  ◌&&◌, ◌||◌, Bool-cases, inl, inr, List, [], ◌∷◌, get_or-replicate,
}
use rv64_ooo_core.Prelude.Occurrences.{occurrences}
use rv64_ooo_core.Rob.{
  Rob, AllocReq, WbReq, Entry, empty_entry, alloc_ready, flush_of, retire_loop, alloc_loop,
  squash_branch, retire_alloc, write_back, advance,
}
use rv64_ooo_core.Rob.Bench.{depth, width, alloc_indices}
use rv64_ooo_core.Rob.Invariant.{IsValid, squash_branch-IsValid, length-retired}
use rv64_ooo_core.Rob.Pending.{
  is_pending, pending_at, hits, pending_at-wb_loop, pending_at-retire_loop,
}
use rv64_ooo_core.Rob.Random.{note_allocs, outstanding_after}
use rv64_ooo_core.Rob.Waiting.{IsOutstanding, pending-le, none_wait, noted}

-- Of the slots that waited, those written back do not wait, and those given out do.
settle :
    (waits kept hit given waits_now : ℕ)
    → waits_now + kept ≡ waits + given
    → kept + hit ≡ waits
    → waits ≤ 1
    → waits_now ≤ 1
    → given ≡ (if hit == 0 then waits_now else 0)
settle waits kept hit given waits_now e k a b = ground arith

module _ (r : Rob) (v : IsValid depth r) (a0 a1 : AllocReq) (wbs : List WbReq) (kept : List ℕ)
    (prefix : a1.valid ≡ true → a0.valid ≡ true)
    (picked : (x : ℕ) → occurrences x kept + hits x wbs ≡ pending_at r.buf x) where
  abbrev allocs : List AllocReq
  allocs = a0 ∷ a1 ∷ []

  abbrev flushes : Bool
  flushes = (flush_of depth width r).full || (flush_of depth width r).branch

  abbrev after : List ℕ
  after = outstanding_after (alloc_ready depth width r) flushes allocs (alloc_indices r) kept

  retired_same :
      (x : ℕ) → pending_at (retire_loop depth width r width 0 r.buf) x ≡ pending_at r.buf x
  retired_same x = pending_at-retire_loop depth width r width 0 r.buf x (λ y. refl)

  squash_count : (squash_branch depth width r).count ≡ 0
  unfolding squash_branch
  squash_count = refl

  room : alloc_ready depth width r ≡ true → r.count + 2 ≤ depth
  unfolding alloc_ready
  room h = let f = v.fits in ground arith

  abbrev retired : List Entry
  retired = retire_loop depth width r width 0 r.buf

  allocated :
      (x : ℕ)
      → occurrences x (
          if alloc_ready depth width r && not false
          then note_allocs allocs (alloc_indices r) 0 kept
          else kept)
        ≡ pending_at (write_back depth width (retire_alloc depth width r allocs) wbs).buf x
  unfolding retire_alloc
  allocated x =
      let below = pending-le r.buf x in
      elim (Bool-cases (alloc_ready depth width r)) [
        | inl c ↦
            let filled = alloc_loop depth width r.tail allocs 0 retired in
            let sized = length-retired depth width (omega arith) (omega arith) r v in
            let given = occurrences x (note_allocs allocs (alloc_indices r) 0 kept) in
            let e = noted r v retired sized retired_same a0 a1 kept x (room c) prefix in
            rw (c, pending_at-wb_loop depth width wbs filled x)
              (settle (pending_at r.buf x) (occurrences x kept) (hits x wbs) given
                (pending_at filled x) (e ∙ ap (λ (n : ℕ). n + given) (retired_same x)) (picked x)
                below (pending-le filled x))
        | inr c ↦
            rw (c, pending_at-wb_loop depth width wbs retired x)
              (settle (pending_at r.buf x) (occurrences x kept) (hits x wbs) (occurrences x kept)
                (pending_at retired x) (ap (λ (n : ℕ). n + occurrences x kept) (retired_same x))
                (picked x) below (pending-le retired x))
      ]

  squashed :
      (x : ℕ)
      → (flush_of depth width r).branch ≡ true
      → pending_at (write_back depth width (squash_branch depth width r) wbs).buf x ≡ 0
  squashed x b =
      let w = squash_branch-IsValid depth width (omega arith) (omega arith) r v b in
      let e = none_wait (squash_branch depth width r) x w squash_count in
      pending_at-wb_loop depth width wbs (squash_branch depth width r).buf x ∙ ground (arith, e)

  pub advanced : IsOutstanding (advance depth width r allocs wbs) after
  unfolding advance outstanding_after occurrences
  advanced x = elim (Bool-cases (flush_of depth width r).full) [
    | inl f ↦ rw f (sym (ap (λ e. one_if (is_pending e)) (get_or-replicate depth x empty_entry)))
    | inr f ↦ elim (Bool-cases (flush_of depth width r).branch) [
      | inl b ↦ rw (f, b) (sym (squashed x b))
      | inr b ↦ rw (f, b) (allocated x)
    ]
  ]
