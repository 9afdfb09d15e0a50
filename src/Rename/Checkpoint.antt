-- ===== src/Rename/Checkpoint.antt =====
-- A checkpoint that `RenameModel::step` takes, and what a later step restores from it.
use rv64_ooo_core.Prelude.{
  ℕ, ◌+◌, ◌%◌, ◌<◌, ◌≡◌, refl, ap, ◌∙◌, arith, one_if, ◌==◌, if◌then◌else◌, Bool, true, false, ◌&&◌,
  Bool-cases, inl, inr, List, [], length, length-set, get_or, set, get_or-set, ne→==, ==_refl,
}
use rv64_ooo_core.Rename.{
  Rename, Inputs, n_ckpt, step, restored, renamed, grant_ckpt0, grant_ckpt1, bundle_ready,
  ckpt_head_after0, head_after0, head_after1, nxt0, nxt1, ckpt_fl_head_after, ckpt_map_after,
}
use rv64_ooo_core.Rename.Ring.{IsRing, step-IsRing}
use rv64_ooo_core.Rename.Sequential.{first, nxt0-eq}

-- A step takes no checkpoint under the id.
pub record Spares (id : ℕ) (s : Rename) (i : Inputs) : Type 0 where
  pub lane0 : (grant_ckpt0 s i && (s.ckpt_head == id)) ≡ false
  pub lane1 : (grant_ckpt1 s i && (ckpt_head_after0 s i == id)) ≡ false
  pub in_range : i.restore_ckpt_id < n_ckpt

pub data Run (id : ℕ) : Rename → Rename → Type 0 where
  done : {s : Rename} → Run id s s
  also : {s t : Rename} (i : Inputs) → Spares id s i → Run id (step s i).0 t → Run id s t

spared {ℓ} :
    {A : Type ℓ} (b : Bool) (j id : ℕ) (xs : List A) (v d : A)
    → j < length xs
    → (b && (j == id)) ≡ false
    → get_or (if b then set xs j v else xs) id d ≡ get_or xs id d
spared false j id xs v d h e = refl
spared true j id xs v d h e = get_or-set xs j id v d h ∙ rw e refl

and_false : (b : Bool) → (b && false) ≡ false
and_false true = refl
and_false false = refl

taken {ℓ} :
    {A : Type ℓ} (b : Bool) (j : ℕ) (xs : List A) (v d : A)
    → j < length xs
    → b ≡ true
    → get_or (if b then set xs j v else xs) j d ≡ v
taken b j xs v d h e = rw e (get_or-set xs j j v d h ∙ rw (==_refl j) refl)

length_kept {ℓ} :
    {A : Type ℓ} (b : Bool) (xs : List A) (j : ℕ) (v : A)
    → length (if b then set xs j v else xs) ≡ length xs
length_kept true xs j v = length-set xs j v
length_kept false xs j v = refl

module _ (s : Rename) (i : Inputs) (r : IsRing s) where
  map_slot : s.ckpt_head < length s.ckpt_map
  map_slot = omega (arith, r.maps_sized, r.ckpt_in)

  head_slot : s.ckpt_head < length s.ckpt_fl_head
  head_slot = omega (arith, r.heads_sized, r.ckpt_in)

  second_map_slot :
      ckpt_head_after0 s i
      < length (if grant_ckpt0 s i then set s.ckpt_map s.ckpt_head (nxt0 s i) else s.ckpt_map)
  second_map_slot =
      rw (length_kept (grant_ckpt0 s i) s.ckpt_map s.ckpt_head (nxt0 s i), r.maps_sized)
        (omega arith)

  second_head_slot :
      ckpt_head_after0 s i
      < length (
          if grant_ckpt0 s i
          then set s.ckpt_fl_head s.ckpt_head (head_after0 s i)
          else s.ckpt_fl_head)
  second_head_slot =
      rw (length_kept (grant_ckpt0 s i) s.ckpt_fl_head s.ckpt_head (head_after0 s i), r.heads_sized)
        (omega arith)

  -- The fields after a step, with a restore and without.
  step-ckpt_map :
      (id : ℕ)
      → get_or (ckpt_map_after s i) id [] ≡ get_or s.ckpt_map id []
      → get_or (step s i).0.ckpt_map id [] ≡ get_or s.ckpt_map id []
  unfolding step restored renamed
  step-ckpt_map id e = elim (Bool-cases i.restore_valid) [
    | inl c ↦ ap (λ b. get_or (if b then restored s i else renamed s i).ckpt_map id []) c
    | inr c ↦ ap (λ b. get_or (if b then restored s i else renamed s i).ckpt_map id []) c ∙ e
  ]

  step-ckpt_fl_head :
      (id : ℕ)
      → get_or (ckpt_fl_head_after s i) id 0 ≡ get_or s.ckpt_fl_head id 0
      → get_or (step s i).0.ckpt_fl_head id 0 ≡ get_or s.ckpt_fl_head id 0
  unfolding step restored renamed
  step-ckpt_fl_head id e = elim (Bool-cases i.restore_valid) [
    | inl c ↦ ap (λ b. get_or (if b then restored s i else renamed s i).ckpt_fl_head id 0) c ∙ e
    | inr c ↦ ap (λ b. get_or (if b then restored s i else renamed s i).ckpt_fl_head id 0) c ∙ e
  ]

  -- A step that spares a checkpoint keeps it.
  step-spared :
      (id : ℕ)
      → Spares id s i
      → (get_or (step s i).0.ckpt_map id [] ≡ get_or s.ckpt_map id [])
        × (get_or (step s i).0.ckpt_fl_head id 0 ≡ get_or s.ckpt_fl_head id 0)
  step-spared id p = (
    step-ckpt_map id (
        spared (grant_ckpt1 s i) (ckpt_head_after0 s i) id _ (nxt1 s i) [] second_map_slot p.lane1
        ∙ spared (grant_ckpt0 s i) s.ckpt_head id s.ckpt_map (nxt0 s i) [] map_slot p.lane0),
    step-ckpt_fl_head id (
        spared (grant_ckpt1 s i) (ckpt_head_after0 s i) id _ (head_after1 s i) 0 second_head_slot
          p.lane1
        ∙ spared (grant_ckpt0 s i) s.ckpt_head id s.ckpt_fl_head (head_after0 s i) 0 head_slot
            p.lane0),
  )

  module _ (grant : grant_ckpt0 s i ≡ true) where
    no_restore : i.restore_valid ≡ false
    no_restore = ground arith

    granted_ready : bundle_ready s i ≡ true
    granted_ready = ground arith

    other_slot : (grant_ckpt1 s i && (ckpt_head_after0 s i == s.ckpt_head)) ≡ false
    other_slot =
        let e : ckpt_head_after0 s i ≡ (s.ckpt_head + 1) % n_ckpt =
          ap (λ b. (s.ckpt_head + one_if b) % n_ckpt) grant in
        rw (ne→== (ckpt_head_after0 s i) s.ckpt_head (λ same. omega (arith, e, same, r.ckpt_in)))
          (and_false (grant_ckpt1 s i))

    -- What a step leaves in the checkpoint that its first lane takes.
    step-taken :
        (get_or (step s i).0.ckpt_map s.ckpt_head [] ≡ nxt0 s i)
        × (get_or (step s i).0.ckpt_fl_head s.ckpt_head 0 ≡ head_after0 s i)
    unfolding step renamed
    step-taken = (
      ap (λ b. get_or (if b then restored s i else renamed s i).ckpt_map s.ckpt_head []) no_restore
          ∙ (spared (grant_ckpt1 s i) (ckpt_head_after0 s i) s.ckpt_head _ (nxt1 s i) []
                second_map_slot other_slot
              ∙ taken (grant_ckpt0 s i) s.ckpt_head s.ckpt_map (nxt0 s i) [] map_slot grant),
      ap (λ b. get_or (if b then restored s i else renamed s i).ckpt_fl_head s.ckpt_head 0)
            no_restore
          ∙ (spared (grant_ckpt1 s i) (ckpt_head_after0 s i) s.ckpt_head _ (head_after1 s i) 0
                second_head_slot other_slot
              ∙ taken (grant_ckpt0 s i) s.ckpt_head s.ckpt_fl_head (head_after0 s i) 0 head_slot
                  grant),
    )

-- A run that spares a checkpoint keeps it, and the free list a circular queue.
run-kept :
    (id : ℕ) (s t : Rename)
    → IsRing s
    → Run id s t
    → (get_or t.ckpt_map id [] ≡ get_or s.ckpt_map id [])
      × (get_or t.ckpt_fl_head id 0 ≡ get_or s.ckpt_fl_head id 0)
run-kept id s _ r done = (refl, refl)
run-kept id s t r (also i p rest) =
    let (m, h) = run-kept id _ t (step-IsRing s i r p.in_range) rest in
    let (m', h') = step-spared s i r id p in (m ∙ m', h ∙ h')

-- A branch in the first lane takes a checkpoint. Whatever happens then, as long as no step takes a
-- checkpoint under the same id, a step that restores that id brings back the map as it was just after
-- the branch, and the head of the free list.
pub restore_recovers :
    (s t : Rename) (i q : Inputs)
    → IsRing s
    → grant_ckpt0 s i ≡ true
    → i.restore_ckpt_id < n_ckpt
    → Run s.ckpt_head (step s i).0 t
    → q.restore_valid ≡ true
    → q.restore_ckpt_id ≡ s.ckpt_head
    → ((step t q).0.map ≡ (first s i).map) × ((step t q).0.head ≡ head_after0 s i)
unfolding step restored
restore_recovers s t i q r grant in_range run valid id =
    let (m, h) = run-kept s.ckpt_head _ t (step-IsRing s i r in_range) run in
    let (m', h') = step-taken s i r grant in
    (
      ap (λ b. (if b then restored t q else renamed t q).map) valid
          ∙ (ap (λ n. get_or t.ckpt_map n []) id
              ∙ (m
                  ∙ (m'
                      ∙ nxt0-eq s i (granted_ready s i r grant) r.head_in
                          (no_restore s i r grant)))),
      ap (λ b. (if b then restored t q else renamed t q).head) valid
          ∙ (ap (λ n. get_or t.ckpt_fl_head n 0) id ∙ (h ∙ h')),
    )
