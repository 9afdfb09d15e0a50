-- ===== src/Rob/Invariant.antt =====
-- The well-formedness of the reorder buffer, and that `RobModel::step` keeps it.
use native.Mathlib.Nat.{mod-lt, mod-add-mod, mod-mod, add-zero}
use native.Mathlib.Decide.{dec_lt}
use rv64_ooo_core.Prelude.{
  ℕ, zero, suc, ◌+◌, ◌-◌, ◌%◌, ◌≤◌, ◌<◌, ◌≡◌, sym, ◌∙◌, ap, Bool, true, false, arith, ltb, leb,
  Bool-cases, inl, inr, List, length, length-replicate, get_or-replicate,
}
use rv64_ooo_core.Prelude.Circular.{at, at_shift, at_turn, at_mod}
use rv64_ooo_core.Rob.{
  Rob, Entry, AllocReq, WbReq, empty_entry, n_valid, fresh, alloc_ready, can_commit, n_commit,
  flush_of, retire_loop, squash_loop, alloc_loop, squash_branch, retire_alloc, write_back, advance,
  step,
}
use rv64_ooo_core.Rob.Commit.{run-le, can_commit-eq-ltb, n_commit-eq-run, flush_branch_idx}
use rv64_ooo_core.Rob.Slots.{
  InRange, get_or-accepted_valid, length-retire_loop, at-retire_loop, length-squash_loop,
  at-squash_loop, length-alloc_loop, at-alloc_loop_from, length-wb_loop, at-wb_loop_valid,
}

-- The entries from the head on are valid up to `count`, and no other entry is.
pub record IsValid (depth : ℕ) (r : Rob) : Type 0 where
  pub sized : length r.buf ≡ depth
  pub head_in : r.head < depth
  pub tail_at : r.tail ≡ (r.head + r.count) % depth
  pub fits : r.count ≤ depth
  pub live : (k : ℕ) → k < depth → (at depth empty_entry r.buf r.head k).valid ≡ ltb k r.count

module _ (depth width : ℕ) (pos : 0 < width) (room : width ≤ depth) where
  pub fresh-IsValid : IsValid depth (fresh depth width)
  fresh-IsValid = record {
    sized = length-replicate depth empty_entry;
    head_in = omega arith;
    tail_at = omega (arith, mod-lt 0 {m = depth} (omega arith));
    fits = omega arith;
    live = λ k p. rw (get_or-replicate depth ((0 + k) % depth) empty_entry) (ground arith);
  }

  module _ (r : Rob) (v : IsValid depth r) where
    can_commit_valid :
        (k : ℕ)
        → can_commit depth width r k ≡ true
        → (at depth empty_entry r.buf r.head k).valid ≡ true
    unfolding can_commit
    can_commit_valid zero h = ground arith
    can_commit_valid (suc k) h = ground arith

    pub n_commit-le-width : n_commit depth width r ≤ width
    n_commit-le-width = omega (arith, n_commit-eq-run depth width r, run-le depth width r width 0)

    -- The eligible slots are those below `n_commit`.
    pub can_commit-eq :
        (k : ℕ) → k < width → can_commit depth width r k ≡ ltb k (n_commit depth width r)
    can_commit-eq k h = rw (n_commit-eq-run depth width r) (
        can_commit-eq-ltb depth width r width 0 k (omega arith) (omega arith)
        ∙ ap (ltb k) (omega arith))

    -- Only stored entries commit.
    pub n_commit-le-count : n_commit depth width r ≤ r.count
    n_commit-le-count = elim (dec_lt r.count (n_commit depth width r)) [
      | no p ↦ omega arith
      | yes p ↦ ground (
        arith,
        n_commit-le-width,
        can_commit-eq r.count,
        can_commit_valid r.count,
        v.live r.count,
      )
    ]

    abbrev pub retired : List Entry
    retired = retire_loop depth width r width 0 r.buf

    abbrev pub head_after : ℕ
    head_after = (r.head + n_commit depth width r) % depth

    -- After retirement the entries not committed stand at the new head, unchanged.
    pub at-retired :
        (k : ℕ)
        → k < r.count - n_commit depth width r
        → at depth empty_entry retired head_after k
          ≡ at depth empty_entry r.buf r.head (n_commit depth width r + k)
    at-retired k h =
        at_shift depth empty_entry retired r.head (n_commit depth width r) k
        ∙ ground (
          arith,
          n_commit-le-count,
          v.fits,
          at-retire_loop depth width r width 0 r.buf (n_commit depth width r + k) v.sized,
          can_commit-eq (n_commit depth width r + k),
        )

    retired_valid :
        (k : ℕ)
        → k < depth
        → (at depth empty_entry retired head_after k).valid
          ≡ ltb k (r.count - n_commit depth width r)
    retired_valid k h = elim (dec_lt (n_commit depth width r + k) depth) [
      | yes p ↦ ground (
        arith,
        at_shift depth empty_entry retired r.head (n_commit depth width r) k,
        at-retire_loop depth width r width 0 r.buf (n_commit depth width r + k) v.sized,
        can_commit-eq (n_commit depth width r + k),
        v.live (n_commit depth width r + k),
      )
      | no p ↦ ground (
        arith,
        n_commit-le-width,
        n_commit-le-count,
        v.fits,
        at_shift depth empty_entry retired r.head (n_commit depth width r) k,
        at_turn depth empty_entry retired r.head (n_commit depth width r + k - depth),
        at-retire_loop depth width r width 0 r.buf (n_commit depth width r + k - depth) v.sized,
        can_commit-eq (n_commit depth width r + k - depth),
      )
    ]

    branch_start :
        (flush_of depth width r).branch ≡ true
        → ((flush_of depth width r).idx + 1) % depth ≡ head_after
    branch_start b =
        let named = flush_branch_idx depth width r b in
        rw named.1 (
          mod-add-mod (r.head + (n_commit depth width r - 1)) depth 1
          ∙ ap (λ (m : ℕ). m % depth) (omega (arith, named.0)))

    -- A slot counted from the new head is the same counted from behind the branch.
    branch_slot :
        (flush_of depth width r).branch ≡ true
        → (buf : List Entry) (k : ℕ)
        → at depth empty_entry buf head_after k
          ≡ at depth empty_entry buf ((flush_of depth width r).idx + 1) k
    branch_slot b buf k =
        rw (← branch_start b) (at_mod depth empty_entry buf ((flush_of depth width r).idx + 1) k)

    pub head_after-lt : head_after < depth
    head_after-lt = mod-lt (r.head + n_commit depth width r) (omega arith)

    pub length-retired : length retired ≡ depth
    length-retired = length-retire_loop depth width r width 0 r.buf ∙ v.sized

    -- A branch flush squashes every entry that did not commit.
    pub squash_branch-IsValid :
        (flush_of depth width r).branch ≡ true → IsValid depth (squash_branch depth width r)
    unfolding squash_branch
    squash_branch-IsValid b =
        let idx = (flush_of depth width r).idx in
        let left = r.count - n_commit depth width r in
        let buf = squash_loop depth width idx left 0 retired in
        record {
          sized = length-squash_loop depth width idx left 0 retired ∙ length-retired;
          head_in = head_after-lt;
          tail_at =
              branch_start b ∙ rw add-zero (sym (mod-mod (r.head + n_commit depth width r) depth));
          fits = omega arith;
          live = λ k h. ground (
            arith,
            v.fits,
            n_commit-le-count,
            branch_slot b buf k,
            branch_slot b retired k,
            at-squash_loop depth width idx left 0 retired k length-retired,
            retired_valid k,
          );
        }

    pub tail_after :
        (m : ℕ)
        → (r.tail + m) % depth ≡ (head_after + (r.count - n_commit depth width r + m)) % depth
    tail_after m =
        ap (λ (t : ℕ). (t + m) % depth) v.tail_at
        ∙ (mod-add-mod (r.head + r.count) depth m
            ∙ (ap (λ (k : ℕ). k % depth) (omega (arith, n_commit-le-count))
                ∙ sym (
                    mod-add-mod (r.head + n_commit depth width r) depth
                      (r.count - n_commit depth width r + m))))

    pub tail_from_head : r.tail ≡ (head_after + (r.count - n_commit depth width r)) % depth
    tail_from_head =
        v.tail_at
        ∙ (ap (λ (k : ℕ). k % depth) (omega (arith, n_commit-le-count))
            ∙ sym (
                mod-add-mod (r.head + n_commit depth width r) depth
                  (r.count - n_commit depth width r)))

    allocated_valid :
        (allocs : List AllocReq) (k : ℕ)
        → r.count + n_valid allocs ≤ depth
        → k < depth
        → (at depth empty_entry (alloc_loop depth width r.tail allocs 0 retired) head_after k).valid
          ≡ ltb k (r.count - n_commit depth width r + n_valid allocs)
    allocated_valid allocs k few h =
        ap
          (λ t.
            (at depth empty_entry (alloc_loop depth width t allocs 0 retired) head_after k).valid)
          tail_from_head
        ∙ ground (
          arith,
          n_commit-le-count,
          at-alloc_loop_from depth width head_after (r.count - n_commit depth width r) allocs
              retired k length-retired,
          get_or-accepted_valid allocs (k - (r.count - n_commit depth width r)),
          retired_valid k,
        )

    -- Otherwise the requests, if there is room for `WIDTH` of them, stand behind what is left.
    pub retire_alloc-IsValid :
        (allocs : List AllocReq)
        → n_valid allocs ≤ width
        → IsValid depth (retire_alloc depth width r allocs)
    unfolding retire_alloc alloc_ready
    retire_alloc-IsValid allocs few = elim (Bool-cases (leb width (depth - r.count))) [
      | inl ready ↦ rw ready (record {
        sized = length-alloc_loop depth width r.tail allocs 0 retired ∙ length-retired;
        head_in = head_after-lt;
        tail_at = tail_after (n_valid allocs);
        fits = ground (arith, v.fits, n_commit-le-count);
        live = λ k h. allocated_valid allocs k (ground (arith, v.fits)) h;
      })
      | inr full ↦ rw full (record {
        sized = length-retired;
        head_in = head_after-lt;
        tail_at = tail_after 0;
        fits = omega (arith, v.fits);
        live = λ k h. retired_valid k h ∙ ap (ltb k) (omega arith);
      })
    ]

  pub write_back-IsValid :
      (r : Rob) (wbs : List WbReq)
      → IsValid depth r
      → InRange depth wbs
      → IsValid depth (write_back depth width r wbs)
  write_back-IsValid r wbs v ok = record {
    sized = length-wb_loop depth width wbs r.buf ∙ v.sized;
    head_in = v.head_in;
    tail_at = v.tail_at;
    fits = v.fits;
    live =
        λ k h. at-wb_loop_valid depth width wbs r.buf r.head k v.sized v.head_in h ok ∙ v.live k h;
  }

  -- Every step from a well-formed buffer ends in one: the size of the vector, the head and the
  -- tail within it, `count` entries from the head on valid and no other. The caller sends at most
  -- `WIDTH` valid requests, and writes back to slots of the buffer.
  pub step-IsValid :
      (r : Rob) (allocs : List AllocReq) (wbs : List WbReq) (rst : Bool)
      → IsValid depth r
      → n_valid allocs ≤ width
      → InRange depth wbs
      → IsValid depth (step depth width r allocs wbs rst).0
  unfolding step advance
  step-IsValid r allocs wbs true v few ok = fresh-IsValid
  step-IsValid r allocs wbs false v few ok = elim (Bool-cases (flush_of depth width r).full) [
    | inl f ↦ rw f fresh-IsValid
    | inr f ↦ elim (Bool-cases (flush_of depth width r).branch) [
      | inl b ↦ rw (f, b) (write_back-IsValid _ wbs (squash_branch-IsValid r v b) ok)
      | inr b ↦ rw (f, b) (write_back-IsValid _ wbs (retire_alloc-IsValid r v allocs few) ok)
    ]
  ]
