-- ===== src/Rob/Slots.antt =====
-- What the loops of `RobModel::step` leave in each slot, counted from a start.
use rv64_ooo_core.Prelude.{
  ℕ, zero, suc, ◌+◌, ◌-◌, ◌%◌, ◌≤◌, ◌<◌, ◌≡◌, refl, ◌∙◌, true, ◌&&◌, arith, ltb, leb, ◌==◌,
  Bool-cases, inl, inr, if◌then◌else◌, List, [], ◌∷◌, length, get_or, set, length-set, get_or-cons,
}
use native.Mathlib.Decide.{dec_lt}
use rv64_ooo_core.Prelude.Circular.{at, at-set, at_shift, at_turn, at-modify}
use rv64_ooo_core.Rob.{
  Rob, Entry, AllocReq, WbReq, empty_entry, new_entry, invalidate, clear_valid, mark_done, n_valid,
  idx_at, can_commit, retire_loop, squash_loop, alloc_loop, wb_loop,
}

-- The entries of the valid requests, in order.
unfoldable pub accepted : List AllocReq → List Entry
accepted [] = []
accepted (a ∷ allocs) = let rest = accepted allocs in if a.valid then new_entry a ∷ rest else rest

pub length-accepted : (allocs : List AllocReq) → length (accepted allocs) ≡ n_valid allocs
unfolding accepted n_valid
length-accepted [] = refl
length-accepted (a ∷ allocs) = ground (arith, length-accepted allocs)

pub get_or-accepted_valid :
    (allocs : List AllocReq) (k : ℕ)
    → k < n_valid allocs
    → (get_or (accepted allocs) k empty_entry).valid ≡ true
unfolding accepted n_valid
get_or-accepted_valid [] k h = elim h [ ]
get_or-accepted_valid (a ∷ allocs) zero h = ground (arith, get_or-accepted_valid allocs 0)
get_or-accepted_valid (a ∷ allocs) (suc k) h =
    ground (arith, get_or-accepted_valid allocs k, get_or-accepted_valid allocs (suc k))

-- Every writeback names a slot of the buffer.
abbrev pub InRange : ℕ → List WbReq → Type 0
InRange depth [] = Unit
InRange depth (w ∷ wbs) = (w.valid ≡ true → w.rob_idx < depth) × InRange depth wbs

module _ (depth width : ℕ) where
  length-clear_valid :
      (buf : List Entry) (i : ℕ) → length (clear_valid depth width i buf) ≡ length buf
  length-clear_valid buf i = length-set buf i (invalidate (get_or buf i empty_entry))

  at-clear_valid :
      (buf : List Entry) (h j k : ℕ)
      → length buf ≡ depth
      → j < depth
      → k < depth
      → at depth empty_entry (clear_valid depth width ((h + j) % depth) buf) h k ≡ (
          if j == k
          then invalidate (at depth empty_entry buf h k)
          else at depth empty_entry buf h k)
  at-clear_valid buf h j k e hj hk =
      ground (arith, at-set depth empty_entry buf h j k (invalidate (at depth empty_entry buf h j)))

  module _ (r : Rob) where
    pub length-retire_loop :
        (left i : ℕ) (buf : List Entry) → length (retire_loop depth width r left i buf) ≡ length buf
    unfolding retire_loop
    length-retire_loop zero i buf = refl
    length-retire_loop (suc left) i buf = ground (
      arith,
      length-retire_loop left (suc i) (clear_valid depth width (idx_at depth width r i) buf),
      length-retire_loop left (suc i) buf,
      length-clear_valid buf (idx_at depth width r i),
    )

    pub at-retire_loop :
        (left i : ℕ) (buf : List Entry) (k : ℕ)
        → length buf ≡ depth
        → i + left ≤ depth
        → k < depth
        → at depth empty_entry (retire_loop depth width r left i buf) r.head k ≡ (
            if leb i k && (ltb k (i + left) && can_commit depth width r k)
            then invalidate (at depth empty_entry buf r.head k)
            else at depth empty_entry buf r.head k)
    unfolding retire_loop
    at-retire_loop zero i buf k e h hk = ground arith
    at-retire_loop (suc left) i buf k e h hk = elim (Bool-cases (can_commit depth width r i)) [
      | inl c ↦ rw c (
          ground (
            arith,
            at-retire_loop left (suc i) (clear_valid depth width (idx_at depth width r i) buf) k,
            length-clear_valid buf (idx_at depth width r i),
            at-clear_valid buf r.head i k,
          ))
      | inr c ↦ rw c (ground (arith, at-retire_loop left (suc i) buf k))
    ]

  pub length-squash_loop :
      (f left i : ℕ) (buf : List Entry) → length (squash_loop depth width f left i buf) ≡ length buf
  unfolding squash_loop
  length-squash_loop f zero i buf = refl
  length-squash_loop f (suc left) i buf =
      length-squash_loop f left (suc i) (clear_valid depth width ((f + 1 + i) % depth) buf)
      ∙ length-clear_valid buf ((f + 1 + i) % depth)

  pub at-squash_loop :
      (f left i : ℕ) (buf : List Entry) (k : ℕ)
      → length buf ≡ depth
      → i + left ≤ depth
      → k < depth
      → at depth empty_entry (squash_loop depth width f left i buf) (f + 1) k ≡ (
          if leb i k && ltb k (i + left)
          then invalidate (at depth empty_entry buf (f + 1) k)
          else at depth empty_entry buf (f + 1) k)
  unfolding squash_loop
  at-squash_loop f zero i buf k e h hk = ground arith
  at-squash_loop f (suc left) i buf k e h hk = ground (
    arith,
    at-squash_loop f left (suc i) (clear_valid depth width ((f + 1 + i) % depth) buf) k,
    length-clear_valid buf ((f + 1 + i) % depth),
    at-clear_valid buf (f + 1) i k,
  )

  pub length-alloc_loop :
      (tail : ℕ) (allocs : List AllocReq) (slot : ℕ) (buf : List Entry)
      → length (alloc_loop depth width tail allocs slot buf) ≡ length buf
  unfolding alloc_loop
  length-alloc_loop tail [] slot buf = refl
  length-alloc_loop tail (a ∷ allocs) slot buf = elim (Bool-cases a.valid) [
    | inl v ↦ rw v (
        length-alloc_loop tail allocs (suc slot) (set buf ((tail + slot) % depth) (new_entry a))
        ∙ length-set buf ((tail + slot) % depth) (new_entry a))
    | inr v ↦ rw v (length-alloc_loop tail allocs slot buf)
  ]

  pub at-alloc_loop :
      (tail : ℕ) (allocs : List AllocReq) (slot : ℕ) (buf : List Entry) (k : ℕ)
      → length buf ≡ depth
      → slot + n_valid allocs ≤ depth
      → k < depth
      → at depth empty_entry (alloc_loop depth width tail allocs slot buf) tail k ≡ (
          if leb slot k && ltb k (slot + n_valid allocs)
          then get_or (accepted allocs) (k - slot) empty_entry
          else at depth empty_entry buf tail k)
  unfolding alloc_loop accepted n_valid
  at-alloc_loop tail [] slot buf k e h hk = ground arith
  at-alloc_loop tail (a ∷ allocs) slot buf k e h hk = elim (Bool-cases a.valid) [
    | inl v ↦ rw v (
        ground (
          arith,
          at-alloc_loop tail allocs (suc slot) (set buf ((tail + slot) % depth) (new_entry a)) k,
          length-set buf ((tail + slot) % depth) (new_entry a),
          at-set depth empty_entry buf tail slot k (new_entry a),
          get_or-cons (new_entry a) (accepted allocs) (k - slot) empty_entry,
        ))
    | inr v ↦ rw v (ground (arith, at-alloc_loop tail allocs slot buf k))
  ]

  pub length-wb_loop :
      (wbs : List WbReq) (buf : List Entry) → length (wb_loop depth width wbs buf) ≡ length buf
  unfolding wb_loop
  length-wb_loop [] buf = refl
  length-wb_loop (w ∷ wbs) buf = elim (Bool-cases w.valid) [
    | inl v ↦ rw v (
        length-wb_loop wbs (set buf w.rob_idx (mark_done w (get_or buf w.rob_idx empty_entry)))
        ∙ length-set buf w.rob_idx (mark_done w (get_or buf w.rob_idx empty_entry)))
    | inr v ↦ rw v (length-wb_loop wbs buf)
  ]

  -- The allocated entries stand `c` slots after the start `h`; no other slot changes.
  pub at-alloc_loop_from :
      (h c : ℕ) (allocs : List AllocReq) (buf : List Entry) (k : ℕ)
      → length buf ≡ depth
      → c + n_valid allocs ≤ depth
      → k < depth
      → at depth empty_entry (alloc_loop depth width ((h + c) % depth) allocs 0 buf) h k ≡ (
          if leb c k && ltb k (c + n_valid allocs)
          then get_or (accepted allocs) (k - c) empty_entry
          else at depth empty_entry buf h k)
  at-alloc_loop_from h c allocs buf k e room hk =
      let tail = (h + c) % depth in
      let buf' = alloc_loop depth width tail allocs 0 buf in
      elim (dec_lt k c) [
        | yes p ↦ ground (
          arith,
          at-alloc_loop tail allocs 0 buf (k + depth - c),
          at_shift depth empty_entry buf h c (k + depth - c),
          at_shift depth empty_entry buf' h c (k + depth - c),
          at_turn depth empty_entry buf h k,
          at_turn depth empty_entry buf' h k,
        )
        | no p ↦ ground (
          arith,
          at-alloc_loop tail allocs 0 buf (k - c),
          at_shift depth empty_entry buf h c (k - c),
          at_shift depth empty_entry buf' h c (k - c),
        )
      ]

  -- A writeback does not change which entries are valid.
  pub at-wb_loop_valid :
      (wbs : List WbReq) (buf : List Entry) (h k : ℕ)
      → length buf ≡ depth
      → h < depth
      → k < depth
      → InRange depth wbs
      → (at depth empty_entry (wb_loop depth width wbs buf) h k).valid
        ≡ (at depth empty_entry buf h k).valid
  unfolding wb_loop
  at-wb_loop_valid [] buf h k e hh hk ok = refl
  at-wb_loop_valid (w ∷ wbs) buf h k e hh hk ok = elim (Bool-cases w.valid) [
    | inr v ↦ rw v (at-wb_loop_valid wbs buf h k e hh hk ok.1)
    | inl v ↦ rw v (
        at-wb_loop_valid wbs (set buf w.rob_idx (mark_done w (get_or buf w.rob_idx empty_entry))) h
          k (length-set buf w.rob_idx (mark_done w (get_or buf w.rob_idx empty_entry)) ∙ e) hh hk
          ok.1
        ∙ ground
            (arith, at-modify depth empty_entry buf h w.rob_idx k (mark_done w) e hh (ok.0 v) hk))
  ]
