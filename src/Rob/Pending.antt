-- ===== src/Rob/Pending.antt =====
-- The entries of the reorder buffer that are waiting for their writeback, through the parts of
-- `RobModel::step`.
use native.Mathlib.Decide.{dec_lt}
use rv64_ooo_core.Prelude.{
  ℕ, zero, suc, ◌+◌, ◌<◌, ◌≤◌, ◌≡◌, refl, ap, ◌∙◌, arith, ◌==◌, one_if, if◌then◌else◌, Bool, true,
  not, ◌&&◌, Bool-cases, inl, inr, List, [], ◌∷◌, length, get_or, set, get_or-set,
}
use rv64_ooo_core.Rob.{
  Rob, Entry, AllocReq, WbReq, empty_entry, new_entry, mark_done, invalidate, idx_at, head_entry,
  can_commit, clear_valid, retire_loop, wb_loop,
}

abbrev pub is_pending : Entry → Bool
is_pending e = e.valid && not e.done

-- Whether the slot `x` waits, as a number.
abbrev pub pending_at : List Entry → ℕ → ℕ
pending_at buf x = one_if (is_pending (get_or buf x empty_entry))

-- How many of the requests write the slot `x` back.
unfoldable pub hits : ℕ → List WbReq → ℕ
hits x [] = 0
hits x (w ∷ wbs) = one_if (w.valid && (x == w.rob_idx)) + hits x wbs

past_end : (buf : List Entry) (x : ℕ) → length buf ≤ x → get_or buf x empty_entry ≡ empty_entry
past_end [] x h = refl
past_end (e ∷ buf) zero h = absurd (omega arith)
past_end (e ∷ buf) (suc x) h = past_end buf x (omega arith)

set_past_end : (buf : List Entry) (i : ℕ) (e : Entry) → length buf ≤ i → set buf i e ≡ buf
set_past_end [] i e h = refl
set_past_end (a ∷ buf) zero e h = absurd (omega arith)
set_past_end (a ∷ buf) (suc i) e h = ap (λ l. a ∷ l) (set_past_end buf i e (omega arith))

pub pending_at-lt : (buf : List Entry) (x : ℕ) → 1 ≤ pending_at buf x → x < length buf
pending_at-lt buf x h = elim (dec_lt x (length buf)) [
  | yes p ↦ p
  | no p ↦ absurd (let e = past_end buf x (omega arith) in ground arith)
]

-- A write that leaves the entry of its slot waiting or not as `e` is.
pending_at-set :
    (buf : List Entry) (i x : ℕ) (e : Entry)
    → i < length buf
    → pending_at (set buf i e) x ≡ (if i == x then one_if (is_pending e) else pending_at buf x)
pending_at-set buf i x e h = rw (get_or-set buf i x e empty_entry h) (ground arith)

pending_at-clear :
    (depth width i : ℕ) (buf : List Entry) (x : ℕ)
    → pending_at (clear_valid depth width i buf) x ≡ (if i == x then 0 else pending_at buf x)
pending_at-clear depth width i buf x = elim (dec_lt i (length buf)) [
  | yes p ↦ pending_at-set buf i x (invalidate (get_or buf i empty_entry)) p
  | no p ↦
      let e = set_past_end buf i (invalidate (get_or buf i empty_entry)) (omega arith) in
      let f = past_end buf i (omega arith) in rw e (ground arith)
]

pending_at-done :
    (buf : List Entry) (w : WbReq) (x : ℕ)
    → pending_at (set buf w.rob_idx (mark_done w (get_or buf w.rob_idx empty_entry))) x
      ≡ (if w.rob_idx == x then 0 else pending_at buf x)
pending_at-done buf w x = elim (dec_lt w.rob_idx (length buf)) [
  | yes p ↦
      rw (pending_at-set buf w.rob_idx x (mark_done w (get_or buf w.rob_idx empty_entry)) p)
        (ground arith)
  | no p ↦
      let e =
        set_past_end buf w.rob_idx (mark_done w (get_or buf w.rob_idx empty_entry)) (omega arith) in
      let f = past_end buf w.rob_idx (omega arith) in rw e (ground arith)
]

-- A new entry waits.
pub pending_at-new :
    (buf : List Entry) (i x : ℕ) (a : AllocReq)
    → i < length buf
    → pending_at buf i ≡ 0
    → pending_at (set buf i (new_entry a)) x ≡ pending_at buf x + one_if (x == i)
pending_at-new buf i x a h e = rw (pending_at-set buf i x (new_entry a) h) (ground arith)

-- The writebacks end the waiting of the slots that they name, and of no other.
pub pending_at-wb_loop :
    (depth width : ℕ) (wbs : List WbReq) (buf : List Entry) (x : ℕ)
    → pending_at (wb_loop depth width wbs buf) x ≡ (if hits x wbs == 0 then pending_at buf x else 0)
unfolding wb_loop hits
pending_at-wb_loop depth width [] buf x = refl
pending_at-wb_loop depth width (w ∷ wbs) buf x = elim (Bool-cases w.valid) [
  | inl v ↦
      let done = set buf w.rob_idx (mark_done w (get_or buf w.rob_idx empty_entry)) in
      let ih = pending_at-wb_loop depth width wbs done x in
      let here = pending_at-done buf w x in rw v (ih ∙ ground (arith, here))
  | inr v ↦ let ih = pending_at-wb_loop depth width wbs buf x in rw v (ih ∙ ground arith)
]

module _ (depth width : ℕ) (r : Rob) where
  can_commit_done :
      (i : ℕ) → can_commit depth width r i ≡ true → (head_entry depth width r i).done ≡ true
  unfolding can_commit
  can_commit_done zero h = ground arith
  can_commit_done (suc i) h = ground arith

  -- What commits does not wait.
  pub pending_at-retire_loop :
      (left i : ℕ) (buf : List Entry) (x : ℕ)
      → ((y : ℕ) → pending_at buf y ≡ pending_at r.buf y)
      → pending_at (retire_loop depth width r left i buf) x ≡ pending_at r.buf x
  unfolding retire_loop
  pending_at-retire_loop zero i buf x h = h x
  pending_at-retire_loop (suc left) i buf x h = elim (Bool-cases (can_commit depth width r i)) [
    | inl c ↦ rw c (
        pending_at-retire_loop left (suc i) _ x (λ y.
          pending_at-clear depth width (idx_at depth width r i) buf y
          ∙ ground (arith, can_commit_done i c, h y)))
    | inr c ↦ rw c (pending_at-retire_loop left (suc i) buf x h)
  ]
