-- ===== src/Rob/Refine.antt =====
-- The circular reorder buffer refines the queue of `Rob.Queue`: a step of one is a step of the other.
use rv64_ooo_core.Prelude.{
  ℕ, ◌+◌, ◌-◌, ◌%◌, ◌≤◌, ◌<◌, ◌≡◌, refl, sym, ◌∙◌, ap, false, arith, leb, Bool-cases, inl, inr,
  if◌then◌else◌, List, [], ◌∷◌, ◌++◌, length, get_or, set, drop, length-tabulate, tabulate_ext,
  length-set, modify-tabulate, tabulate-eq, length-append, length-drop, get_or-append, get_or-drop,
  get_or-tabulate,
}
use rv64_ooo_core.Prelude.Circular.{at, window, at-modify, offset}
use rv64_ooo_core.Rob.{
  Rob, Entry, AllocReq, WbReq, empty_entry, mark_done, n_valid, alloc_ready, n_commit, flush_of,
  alloc_loop, wb_loop, squash_branch, retire_alloc, advance, outputs, step,
}
use rv64_ooo_core.Rob.Slots.{InRange, accepted, length-accepted, at-alloc_loop_from}
use rv64_ooo_core.Rob.Invariant.{
  IsValid, n_commit-le-count, at-retired, head_after, retired, length-retired, tail_from_head,
  retire_alloc-IsValid,
}
use rv64_ooo_core.Rob.Retire.{
  contents, view, as_flush, length-retire-contents, commit_outs-contents, flush_of-contents,
}
use mathlib.Core.List.{append-nil}
use rv64_ooo_core.Rob.Queue
use rv64_ooo_core.Rob.Queue.{Queue, Stop, retire, stop_of, complete, after, result}

-- Writebacks, seen from the start `h`.
pub window-wb_loop :
    (depth width : ℕ) (wbs : List WbReq) (buf : List Entry) (h n : ℕ)
    → length buf ≡ depth
    → h < depth
    → n ≤ depth
    → InRange depth wbs
    → window depth empty_entry (wb_loop depth width wbs buf) h n
      ≡ complete depth h wbs (window depth empty_entry buf h n)
unfolding wb_loop complete
window-wb_loop depth width [] buf h n e hh hn ok = refl
window-wb_loop depth width (w ∷ wbs) buf h n e hh hn ok = elim (Bool-cases w.valid) [
  | inr i ↦ rw i (window-wb_loop depth width wbs buf h n e hh hn ok.1)
  | inl i ↦ rw i (
      window-wb_loop depth width wbs
        (set buf w.rob_idx (mark_done w (get_or buf w.rob_idx empty_entry))) h n
        (length-set buf w.rob_idx (mark_done w (get_or buf w.rob_idx empty_entry)) ∙ e) hh hn ok.1
      ∙ ap (complete depth h wbs) (
          tabulate_ext _ _ n (λ k p.
            at-modify depth empty_entry buf h w.rob_idx k (mark_done w) e hh (ok.0 i) (omega arith))
          ∙ sym (
              modify-tabulate (at depth empty_entry buf h) n (offset depth h w.rob_idx)
                (mark_done w) empty_entry)))
]

module _ (depth width : ℕ) (pos : 0 < width) (room : width ≤ depth) (r : Rob)
    (v : IsValid depth r) where
  abbrev done : List Entry
  done = retire width (contents depth r)

  abbrev last_slot : ℕ
  last_slot = (r.head + (n_commit depth width r - 1)) % depth

  outputs-eq-result :
      (s : Stop)
      → flush_of depth width r ≡ as_flush last_slot s
      → outputs depth width r ≡ result depth width (view depth r) done s
  unfolding outputs
  outputs-eq-result Stop.keep f = ground (arith, f, commit_outs-contents depth width pos room r v)
  outputs-eq-result (Stop.trap pc) f =
      ground (arith, f, commit_outs-contents depth width pos room r v)
  outputs-eq-result (Stop.redirect pc) f = ground (
    arith,
    f,
    commit_outs-contents depth width pos room r v,
    length-retire-contents depth width pos room r v,
  )

  abbrev n : ℕ
  n = n_commit depth width r

  abbrev left_over : List Entry
  left_over = drop n (contents depth r)

  length-left_over : length left_over ≡ r.count - n
  length-left_over =
      length-drop n (contents depth r)
      ∙ ap (λ (m : ℕ). m - n) (length-tabulate (at depth empty_entry r.buf r.head) r.count)

  -- What did not commit is found at the new head.
  left_over-retired :
      (k : ℕ)
      → k < r.count - n
      → get_or left_over k empty_entry
        ≡ at depth empty_entry
            (retired depth width pos room r v)
            (head_after depth width pos room r v)
            k
  left_over-retired k h =
      get_or-drop n (contents depth r) k empty_entry
      ∙ (get_or-tabulate (at depth empty_entry r.buf r.head) r.count (n + k) empty_entry
            (omega arith)
          ∙ sym (at-retired depth width pos room r v k h))

  contents_kept :
      window depth empty_entry
        (retired depth width pos room r v)
        (head_after depth width pos room r v)
        (r.count - n)
      ≡ left_over
  contents_kept =
      tabulate-eq _ (r.count - n) left_over empty_entry length-left_over
        (λ k h. sym (left_over-retired k h))

  contents_allocated :
      (allocs : List AllocReq)
      → r.count + n_valid allocs ≤ depth
      → window depth empty_entry
          (alloc_loop depth width r.tail allocs 0 (retired depth width pos room r v))
          (head_after depth width pos room r v)
          (r.count - n + n_valid allocs)
        ≡ left_over ++ accepted allocs
  contents_allocated allocs few =
      let h = head_after depth width pos room r v in
      let c = r.count - n in
      let buf = retired depth width pos room r v in
      ap
        (λ (t : ℕ).
          window depth empty_entry (alloc_loop depth width t allocs 0 buf) h (c + n_valid allocs))
        (tail_from_head depth width pos room r v)
      ∙ tabulate-eq _ (c + n_valid allocs) (left_over ++ accepted allocs) empty_entry
          (length-append left_over (accepted allocs)
            ∙ omega (arith, length-left_over, length-accepted allocs))
          (λ k p. ground (
            arith,
            n_commit-le-count depth width pos room r v,
            at-alloc_loop_from depth width h c allocs buf k
                (length-retired depth width pos room r v),
            get_or-append left_over (accepted allocs) k empty_entry,
            length-left_over,
            left_over-retired k,
          ))

  -- What a step leaves without a flush, before the writebacks.
  pub contents-retire_alloc :
      (allocs : List AllocReq)
      → n_valid allocs ≤ width
      → contents depth (retire_alloc depth width r allocs)
        ≡ drop (n_commit depth width r) (contents depth r)
          ++ (if leb width (depth - r.count) then accepted allocs else [])
  unfolding retire_alloc alloc_ready
  contents-retire_alloc allocs few = elim (Bool-cases (leb width (depth - r.count))) [
    | inl ready ↦ rw ready (contents_allocated allocs (ground (arith, v.fits)))
    | inr full ↦
        rw (full, append-nil)
          (ap
              (window depth empty_entry (retired depth width pos room r v)
                (head_after depth width pos room r v))
              (omega arith)
            ∙ contents_kept)
  ]

  advance-eq-after :
      (allocs : List AllocReq) (wbs : List WbReq)
      → n_valid allocs ≤ width
      → InRange depth wbs
      → (s : Stop) → flush_of depth width r ≡ as_flush last_slot s
      → view depth (advance depth width r allocs wbs)
        ≡ after depth width (view depth r) allocs wbs s (length done)
  unfolding advance squash_branch retire_alloc
  advance-eq-after allocs wbs few ok Stop.keep f =
      let v' = retire_alloc-IsValid depth width pos room r v allocs few in
      let r' = retire_alloc depth width r allocs in
      rw
        (
          f,
          length-retire-contents depth width pos room r v,
          length-tabulate (at depth empty_entry r.buf r.head) r.count,
        )
        (ap (λ e. record { first = head_after depth width pos room r v; entries = e })
          (window-wb_loop depth width wbs r'.buf r'.head r'.count v'.sized v'.head_in v'.fits ok
            ∙ ap (complete depth (head_after depth width pos room r v) wbs)
                (contents-retire_alloc allocs few)))
  advance-eq-after allocs wbs few ok (Stop.trap pc) f = rw f refl
  advance-eq-after allocs wbs few ok (Stop.redirect pc) f = rw f (
      ap (λ (m : ℕ). record { first = (r.head + m) % depth; entries = [] })
        (sym (length-retire-contents depth width pos room r v)))

-- A step of the circular buffer without reset is a step of the queue that it holds: the same entries
-- in the same order with the same oldest slot, and the same outputs on every port. So exactly the
-- longest finished prefix commits, up to `WIDTH` entries and to the first trap or mispredicted
-- branch; a trap or a mispredicted branch drops all else; requests are stored in order if there is
-- room for `WIDTH` of them; writebacks change queued entries only. The caller sends at most `WIDTH`
-- valid requests, and writes back to slots of the buffer.
pub step_refines :
    (depth width : ℕ) (r : Rob) (allocs : List AllocReq) (wbs : List WbReq)
    → 0 < width
    → width ≤ depth
    → IsValid depth r
    → n_valid allocs ≤ width
    → InRange depth wbs
    → (view depth (step depth width r allocs wbs false).0
        ≡ Queue.step depth width (view depth r) allocs wbs)
      × ((step depth width r allocs wbs false).1 ≡ Queue.outputs depth width (view depth r))
unfolding step Queue.step Queue.outputs
step_refines depth width r allocs wbs pos room v few ok =
    let s = stop_of (retire width (contents depth r)) in
    let f = flush_of-contents depth width pos room r v in
    (
      advance-eq-after depth width pos room r v allocs wbs few ok s f,
      outputs-eq-result depth width pos room r v s f,
    )
