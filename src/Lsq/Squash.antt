-- ===== src/Lsq/Squash.antt =====
-- What `LsqModel::applySquash` keeps of a queue in program order.
use rv64_ooo_core.Prelude.{
  ℕ, zero, suc, ◌+◌, ◌%◌, ◌≤◌, ◌<◌, ◌≡◌, refl, sym, ap, ◌∙◌, arith, lt→ltb, le→ltb, leb, ltb, Bool,
  true, false, Bool-cases, inl, inr,
}
use rv64_ooo_core.Lsq.{Lsq, age, lq_at, sq_at, keep_loop, apply_squash}

-- The values up to `n` do not fall.
abbrev pub Ascending : (ℕ → ℕ) → ℕ → Type 0
Ascending f n = (i j : ℕ) → i ≤ j → j < n → f i ≤ f j

ltb-suc : (j k : ℕ) → ltb (suc j) (suc k) ≡ ltb j k
ltb-suc j k = ground arith

module _ (lqd sqd w rob_head squash_idx : ℕ) (rob_idx_at : ℕ → ℕ) where
  abbrev stays : ℕ → Bool
  stays i = leb (age lqd sqd w (rob_idx_at i) rob_head) (age lqd sqd w squash_idx rob_head)

  -- The loop adds the length of a prefix: the entries that stay.
  record Prefix (left i keep result : ℕ) : Type 0 where
    pub kept : ℕ
    pub total : result ≡ keep + kept
    pub within : kept ≤ left
    pub each : (j : ℕ) → j < left → ltb j kept ≡ stays (i + j)

  shifted :
      (left i keep result : ℕ) (p : Prefix left (suc i) keep result)
      → stays i ≡ true
      → (j : ℕ) → j < suc left
      → ltb j (suc p.kept) ≡ stays (i + j)
  shifted left i keep result p e zero h =
      lt→ltb 0 (suc p.kept) (omega arith) ∙ (sym e ∙ ap stays {y = i + 0} (omega arith))
  shifted left i keep result p e (suc j) h =
      ltb-suc j p.kept ∙ (p.each j (omega arith) ∙ ap stays {y = i + suc j} (omega arith))

  gone :
      (left i : ℕ)
      → Ascending (λ j. age lqd sqd w (rob_idx_at j) rob_head) (i + suc left)
      → stays i ≡ false
      → (j : ℕ) → j < suc left
      → stays (i + j) ≡ false
  gone left i h e j p = ground (arith, h i (i + j) (omega arith) (omega arith))

  none_kept :
      (left i keep result : ℕ) (p : Prefix left (suc i) keep result)
      → Ascending (λ j. age lqd sqd w (rob_idx_at j) rob_head) (i + suc left)
      → stays i ≡ false
      → p.kept ≡ 0
  none_kept zero i keep result p h e = omega (arith, p.within)
  none_kept (suc left) i keep result p h e =
      let next : ltb 0 p.kept ≡ false =
        p.each 0 (omega arith)
        ∙ (ap stays {y = i + 1} (omega arith) ∙ gone (suc left) i h e 1 (omega arith)) in
      ground arith

  keep_loop-Prefix :
      (left i keep : ℕ)
      → Ascending (λ j. age lqd sqd w (rob_idx_at j) rob_head) (i + left)
      → Prefix left i keep (keep_loop lqd sqd w rob_idx_at squash_idx rob_head left i keep)
  unfolding keep_loop
  keep_loop-Prefix zero i keep h = record {
    kept = 0;
    total = omega arith;
    within = omega arith;
    each = λ j p. absurd (omega arith);
  }
  keep_loop-Prefix (suc left) i keep h = elim (Bool-cases (stays i)) [
    | inl yes_stays ↦
        let rest = keep_loop-Prefix left (suc i) (keep + 1) (λ a b p q. h a b p (omega arith)) in
        rw yes_stays (record {
          kept = suc rest.kept;
          total = omega (arith, rest.total);
          within = omega (arith, rest.within);
          each = shifted left i (keep + 1) _ rest yes_stays;
        })
    | inr goes ↦
        let rest = keep_loop-Prefix left (suc i) keep (λ a b p q. h a b p (omega arith)) in
        rw goes (record {
          kept = 0;
          total = omega (arith, rest.total, none_kept left i keep _ rest h goes);
          within = omega arith;
          each = λ j p. le→ltb j 0 (omega arith) ∙ sym (gone left i h goes j p);
        })
  ]

  -- The loop from the head on.
  keep_loop_all :
      (n : ℕ)
      → Ascending (λ j. age lqd sqd w (rob_idx_at j) rob_head) n
      → (keep_loop lqd sqd w rob_idx_at squash_idx rob_head n 0 0 ≤ n)
        × ((i : ℕ)
            → i < n
            → ltb i (keep_loop lqd sqd w rob_idx_at squash_idx rob_head n 0 0) ≡ stays i)
  keep_loop_all n h =
      let p = keep_loop-Prefix n 0 0 (λ i j q r. h i j q (omega arith)) in
      let e : keep_loop lqd sqd w rob_idx_at squash_idx rob_head n 0 0 ≡ p.kept =
        omega (arith, p.total) in
      (
        omega (arith, e, p.within),
        λ i q. ap (ltb i) e ∙ (p.each i q ∙ ap stays {x = 0 + i} (omega arith)),
      )

-- A queue after a squash: what is left of it is a prefix, of exactly the entries that are not younger
-- than the squashing instruction, and the tail is behind it.
pub record Cut (depth n head n' tail' : ℕ) (older : ℕ → Bool) : Type 0 where
  pub shorter : n' ≤ n
  pub tail_at : tail' ≡ (head + n') % depth
  pub each : (i : ℕ) → i < n → ltb i n' ≡ older i

module _ (lqd sqd w : ℕ) (s : Lsq) (squash_idx rob_head : ℕ) where
  -- A squash of a single instruction, of two queues in program order, keeps of each exactly the entries
  -- that are not younger than it, in place.
  pub apply_squash-Cut :
      Ascending (λ i. age lqd sqd w (lq_at lqd sqd w s i).rob_idx rob_head) s.lq_cnt
      → Ascending (λ i. age lqd sqd w (sq_at lqd sqd w s i).rob_idx rob_head) s.sq_cnt
      → let s' = apply_squash lqd sqd w s true squash_idx false rob_head in
        Cut lqd s.lq_cnt s.lq_head s'.lq_cnt s'.lq_tail (λ i.
          leb
            (age lqd sqd w (lq_at lqd sqd w s i).rob_idx rob_head)
            (age lqd sqd w squash_idx rob_head))
        × Cut sqd s.sq_cnt s.sq_head s'.sq_cnt s'.sq_tail (λ i.
          leb
            (age lqd sqd w (sq_at lqd sqd w s i).rob_idx rob_head)
            (age lqd sqd w squash_idx rob_head))
        × (s'.lq ≡ s.lq)
        × (s'.sq ≡ s.sq)
        × (s'.lq_head ≡ s.lq_head)
        × (s'.sq_head ≡ s.sq_head)
  unfolding apply_squash
  apply_squash-Cut hl hs =
      let kl =
        keep_loop_all lqd sqd w rob_head squash_idx (λ i. (lq_at lqd sqd w s i).rob_idx) s.lq_cnt
          hl in
      let ks =
        keep_loop_all lqd sqd w rob_head squash_idx (λ i. (sq_at lqd sqd w s i).rob_idx) s.sq_cnt
          hs in
      (
        record { shorter = kl.0; tail_at = refl; each = kl.1 },
        record { shorter = ks.0; tail_at = refl; each = ks.1 },
        refl,
        refl,
        refl,
        refl,
      )
