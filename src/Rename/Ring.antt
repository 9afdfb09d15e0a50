-- ===== src/Rename/Ring.antt =====
-- The free list as a circular queue: `head_`, `tail_` and `count_` agree after every step.
use rv64_ooo_core.Prelude.{
  ℕ, zero, suc, ◌+◌, ◌-◌, ◌%◌, ◌≤◌, ◌<◌, ◌≡◌, sym, ap, subst, ◌∙◌, arith, leb, one_if,
  if◌then◌else◌, Bool, true, false, not, ◌&&◌, Bool-cases, inl, inr, List, length, length-set,
  get_or, set, get_or-set,
}
use rv64_ooo_core.Rename.{
  Rename, Inputs, depth, n_ckpt, step, restored, renamed, freed, do_f0, do_f1, grant_ckpt0,
  grant_ckpt1, head_after0, head_after1, ckpt_head_after0, restored_head, ckpt_fl_head_after,
  ckpt_map_after, nxt0, nxt1,
}

-- The free list and the heads that the checkpoints keep are in range, and the tail is `count` slots
-- behind the head.
pub record IsRing (s : Rename) : Type 0 where
  pub sized : length s.fl ≡ depth
  pub head_in : s.head < depth
  pub tail_at : s.tail ≡ (s.head + s.count) % depth
  pub maps_sized : length s.ckpt_map ≡ n_ckpt
  pub heads_sized : length s.ckpt_fl_head ≡ n_ckpt
  pub heads_in : (k : ℕ) → get_or s.ckpt_fl_head k 0 < depth
  pub ckpt_in : s.ckpt_head < n_ckpt

length-if {ℓ} :
    {A : Type ℓ} (b : Bool) (xs ys : List A) (n : ℕ)
    → length xs ≡ n
    → length ys ≡ n
    → length (if b then xs else ys) ≡ n
length-if true xs ys n hx hy = hx
length-if false xs ys n hx hy = hy

get_or-if :
    (b : Bool) (xs ys : List ℕ) (n k : ℕ)
    → get_or xs k 0 < n
    → get_or ys k 0 < n
    → get_or (if b then xs else ys) k 0 < n
get_or-if true xs ys n k hx hy = hx
get_or-if false xs ys n k hx hy = hy

set_in :
    (xs : List ℕ) (j v n k : ℕ)
    → j < length xs
    → v < n
    → get_or xs k 0 < n
    → get_or (set xs j v) k 0 < n
set_in xs j v n k hj hv hk = rw (get_or-set xs j k v 0 hj) (ground arith)

-- The registers taken are there.
enough :
    (x n z : Bool) (c : ℕ)
    → one_if (x && (n && leb 1 c))
        + one_if (z && (n && leb (if x && (n && leb 1 c) then 2 else 1) c))
      ≤ c
enough true true true zero = omega arith
enough true true true (suc c) = ground arith
enough true true false c = ground arith
enough true false true c = omega arith
enough true false false c = omega arith
enough false true true c = ground arith
enough false true false c = omega arith
enough false false true c = omega arith
enough false false false c = omega arith

tail_restored :
    (t h c f0 f1 k : ℕ)
    → t ≡ (h + c) % 32
    → h < 32
    → k < 32
    → (t + f0 + f1) % 32 ≡ (k + (c + f0 + f1 + (h + 32 - k) % 32)) % 32
tail_restored t h c f0 f1 k e hh hk = omega arith

tail_renamed :
    (t h c f0 f1 a0 a1 : ℕ)
    → t ≡ (h + c) % 32
    → a0 + a1 ≤ c
    → (t + f0 + f1) % 32 ≡ (((h + a0) % 32 + a1) % 32 + (c + f0 + f1 - a0 - a1)) % 32
tail_renamed t h c f0 f1 a0 a1 e le = omega arith

module _ (s : Rename) (i : Inputs) (r : IsRing s) where
  freed-length : length (freed s i) ≡ depth
  unfolding freed
  freed-length =
      let first =
        length-if (do_f0 s i) (set s.fl s.tail i.commit_prev_prd0) s.fl depth
          (length-set s.fl s.tail i.commit_prev_prd0 ∙ r.sized) r.sized in
      length-if (do_f1 s i) _ _ depth
        (length-set _ ((s.tail + one_if (do_f0 s i)) % depth) i.commit_prev_prd1 ∙ first) first

  -- The heads that the checkpoints keep, after those taken in this step.
  abbrev HeadsAfter : List ℕ → Type 0
  HeadsAfter h = (length h ≡ n_ckpt) × ((k : ℕ) → get_or h k 0 < depth)

  keeps_heads :
      (b : Bool) (h : List ℕ) (j v : ℕ)
      → HeadsAfter h
      → j < n_ckpt
      → v < depth
      → HeadsAfter (if b then set h j v else h)
  keeps_heads b h j v (e, f) hj hv = (
    length-if b (set h j v) h n_ckpt (length-set h j v ∙ e) e,
    λ k. get_or-if b (set h j v) h depth k (set_in h j v depth k (rw e hj) hv (f k)) (f k),
  )

  heads_kept : HeadsAfter (ckpt_fl_head_after s i)
  heads_kept =
      keeps_heads (grant_ckpt1 s i) _ (ckpt_head_after0 s i) (head_after1 s i)
        (keeps_heads (grant_ckpt0 s i) s.ckpt_fl_head s.ckpt_head (head_after0 s i)
          (r.heads_sized, r.heads_in) r.ckpt_in (omega arith))
        (omega arith) (omega arith)

  maps_kept : length (ckpt_map_after s i) ≡ n_ckpt
  maps_kept =
      let first =
        length-if (grant_ckpt0 s i) (set s.ckpt_map s.ckpt_head (nxt0 s i)) s.ckpt_map n_ckpt
          (length-set s.ckpt_map s.ckpt_head (nxt0 s i) ∙ r.maps_sized) r.maps_sized in
      length-if (grant_ckpt1 s i) _ _ n_ckpt
        (length-set _ (ckpt_head_after0 s i) (nxt1 s i) ∙ first) first

  restored-IsRing : i.restore_ckpt_id < n_ckpt → IsRing (restored s i)
  unfolding restored
  restored-IsRing h = record {
    sized = freed-length;
    head_in = r.heads_in i.restore_ckpt_id;
    maps_sized = r.maps_sized;
    tail_at =
        tail_restored s.tail s.head s.count _ _ (restored_head s i) r.tail_at r.head_in
          (r.heads_in i.restore_ckpt_id);
    heads_sized = heads_kept.0;
    heads_in = heads_kept.1;
    ckpt_in = h;
  }

  pub renamed-IsRing : IsRing (renamed s i)
  unfolding renamed
  renamed-IsRing = record {
    sized = freed-length;
    head_in = omega arith;
    maps_sized = maps_kept;
    tail_at =
        tail_renamed s.tail s.head s.count _ _ _ _ r.tail_at
          (enough _ (not i.restore_valid) _ s.count);
    heads_sized = heads_kept.0;
    heads_in = heads_kept.1;
    ckpt_in = omega arith;
  }

-- Every step, also one that restores a checkpoint, keeps the free list a circular queue: its vector has
-- 32 slots, the head and the heads that the checkpoints keep are in it, and the tail is `count_` slots
-- behind the head.
pub step-IsRing :
    (s : Rename) (i : Inputs) → IsRing s → i.restore_ckpt_id < n_ckpt → IsRing (step s i).0
unfolding step
step-IsRing s i r h = elim (Bool-cases i.restore_valid) [
  | inl c ↦
      subst IsRing (sym (ap (λ b. if b then restored s i else renamed s i) c))
        (restored-IsRing s i r h)
  | inr c ↦
      subst IsRing (sym (ap (λ b. if b then restored s i else renamed s i) c))
        (renamed-IsRing s i r)
]
