-- ===== src/Rob/Waiting.antt =====
-- The list `outstanding` of the random test of tb_rob.cpp and the entries that wait for a writeback, over a
-- step of the model.
use native.Mathlib.Nat.{mod-add-mod, mod-lt}
use native.Mathlib.Decide.{dec_lt}
use rv64_ooo_core.Prelude.{
  ℕ, ◌+◌, ◌%◌, ◌<◌, ◌≤◌, ◌≡◌, ◌≢◌, refl, sym, ap, ◌∙◌, arith, ◌==◌, one_if, true, Bool-cases, inl,
  inr, List, [], ◌∷◌, ◌++◌, length, set, length-set, ne→==,
}
use rv64_ooo_core.Prelude.Circular.{offset, offset-lt, add-offset, slot_injective}
use rv64_ooo_core.Prelude.Occurrences.{occurrences, occurrences-append}
use rv64_ooo_core.Rob.{Rob, Entry, AllocReq, new_entry, alloc_loop}
use rv64_ooo_core.Rob.Bench.{depth, width, alloc_indices}
use rv64_ooo_core.Rob.Invariant.{IsValid}
use rv64_ooo_core.Rob.Pending.{pending_at, pending_at-lt, pending_at-new}
use rv64_ooo_core.Rob.Random.{note_allocs}

-- The list has each slot that waits for its writeback once, and no other.
abbrev pub IsOutstanding : Rob → List ℕ → Type 0
IsOutstanding r outstanding = (x : ℕ) → occurrences x outstanding ≡ pending_at r.buf x

pub pending-le : (buf : List Entry) (x : ℕ) → pending_at buf x ≤ 1
pending-le buf x = ground arith

-- A slot past `count` does not wait.
free_slot :
    (r : Rob) (k : ℕ)
    → IsValid depth r
    → r.count ≤ k
    → k < depth
    → pending_at r.buf ((r.head + k) % depth) ≡ 0
free_slot r k v h hk = let e = v.live k hk in ground arith

-- An empty buffer has no entry that waits.
pub none_wait : (r : Rob) (x : ℕ) → IsValid depth r → r.count ≡ 0 → pending_at r.buf x ≡ 0
none_wait r x v e = elim (dec_lt x depth) [
  | yes p ↦
      ap (pending_at r.buf) (sym (add-offset depth r.head x v.head_in p))
      ∙ free_slot r (offset depth r.head x) v (omega arith) (offset-lt depth r.head x p)
  | no p ↦ let n = pending_at-lt r.buf x in let s = v.sized in ground arith
]

added :
    (x : ℕ) (xs : List ℕ) (i : ℕ)
    → occurrences x (xs ++ (i ∷ [])) ≡ occurrences x xs + one_if (x == i)
unfolding occurrences
added x xs i = occurrences-append x xs (i ∷ []) ∙ omega arith

added_two :
    (x : ℕ) (xs : List ℕ) (i j : ℕ)
    → occurrences x ((xs ++ (i ∷ [])) ++ (j ∷ []))
      ≡ occurrences x xs + one_if (x == i) + one_if (x == j)
added_two x xs i j = added x (xs ++ (i ∷ [])) j ∙ ap (λ (n : ℕ). n + one_if (x == j)) (added x xs i)

module _ (r : Rob) (v : IsValid depth r) where
  -- The slot of the request `k`.
  abbrev slot : ℕ → ℕ
  slot k = (r.head + (r.count + k)) % depth

  tail_slot : (k : ℕ) → (r.tail + k) % depth ≡ slot k
  tail_slot k =
      ap (λ (t : ℕ). (t + k) % depth) v.tail_at
      ∙ (mod-add-mod (r.head + r.count) depth k ∙ ap (λ (n : ℕ). n % depth) (omega arith))

  slot-lt : (k : ℕ) → slot k < depth
  slot-lt k = mod-lt (r.head + (r.count + k)) (omega arith)

  slots_apart : r.count + 1 < depth → slot 1 ≢ slot 0
  slots_apart h e =
      let k = slot_injective r.head (r.count + 1) (r.count + 0) (omega arith) (omega arith) e in
      omega arith

  module _ (buf : List Entry) (sized : length buf ≡ depth)
      (same_buf : (x : ℕ) → pending_at buf x ≡ pending_at r.buf x) where
    unused : (k : ℕ) → r.count + k < depth → pending_at buf (slot k) ≡ 0
    unused k h = same_buf (slot k) ∙ free_slot r (r.count + k) v (omega arith) h

    after_one :
        (a0 : AllocReq) (x : ℕ)
        → r.count < depth
        → pending_at (set buf ((r.tail + 0) % depth) (new_entry a0)) x
          ≡ pending_at buf x + one_if (x == slot 0)
    after_one a0 x h =
        ap (λ (i : ℕ). pending_at (set buf i (new_entry a0)) x) (tail_slot 0)
        ∙ pending_at-new buf (slot 0) x a0 (rw sized (slot-lt 0)) (unused 0 (omega arith))

    after_two :
        (a0 a1 : AllocReq) (x : ℕ)
        → r.count + 1 < depth
        → pending_at
            (set
              (set buf ((r.tail + 0) % depth) (new_entry a0))
              ((r.tail + 1) % depth)
              (new_entry a1))
            x
          ≡ pending_at buf x + one_if (x == slot 0) + one_if (x == slot 1)
    after_two a0 a1 x h =
        let buf1 = set buf ((r.tail + 0) % depth) (new_entry a0) in
        let free : pending_at buf1 (slot 1) ≡ 0 =
          after_one a0 (slot 1) (omega arith)
          ∙ rw (unused 1 h, ne→== (slot 1) (slot 0) (slots_apart h)) refl in
        ap (λ (i : ℕ). pending_at (set buf1 i (new_entry a1)) x) (tail_slot 1)
        ∙ (pending_at-new buf1 (slot 1) x a1
              (rw (length-set buf ((r.tail + 0) % depth) (new_entry a0), sized) (slot-lt 1)) free
            ∙ ap (λ (n : ℕ). n + one_if (x == slot 1)) (after_one a0 x (omega arith)))

    -- The requests, if the first is valid where the second is, wait in the slots that are noted.
    pub noted :
        (a0 a1 : AllocReq) (picked : List ℕ) (x : ℕ)
        → r.count + 2 ≤ depth
        → (a1.valid ≡ true → a0.valid ≡ true)
        → pending_at (alloc_loop depth width r.tail (a0 ∷ a1 ∷ []) 0 buf) x + occurrences x picked
          ≡ pending_at buf x + occurrences x (note_allocs (a0 ∷ a1 ∷ []) (alloc_indices r) 0 picked)
    unfolding alloc_loop note_allocs alloc_indices
    noted a0 a1 picked x room prefix = elim (Bool-cases a0.valid) [
      | inl c0 ↦ elim (Bool-cases a1.valid) [
        | inl c1 ↦
            rw (c0, c1)
              (omega (arith, after_two a0 a1 x (omega arith), added_two x picked (slot 0) (slot 1)))
        | inr c1 ↦
            rw (c0, c1) (omega (arith, after_one a0 x (omega arith), added x picked (slot 0)))
      ]
      | inr c0 ↦ elim (Bool-cases a1.valid) [
        | inl c1 ↦ absurd (let e = prefix c1 in cc)
        | inr c1 ↦ rw (c0, c1) refl
      ]
    ]
