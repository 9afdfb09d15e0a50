-- ===== src/Lsq/Forward.antt =====
-- Which store `LsqModel::expectedLoadValue` forwards from.
use native.Mathlib.Decide.{ℕ_discrete}
use rv64_ooo_core.Prelude.{
  ℕ, zero, suc, ◌+◌, ◌≤◌, ◌<◌, ◌≡◌, refl, sym, ap, subst, ◌∙◌, arith, ltb, if◌then◌else◌, Bool,
  true, false, not, ◌&&◌, ◌||◌, Bool-cases, ltb→lt, inl, inr, get_or,
}
use rv64_ooo_core.Lsq.{
  Lsq, LqEntry, Best, no_best, new_lq, age, sq_at, overlaps, covers, forwarded, consider, scan,
  chosen, from_memory, expected_load_value,
}

and_assoc : (a b c : Bool) → (a && (b && c)) ≡ ((a && b) && c)
and_assoc true b c = refl
and_assoc false b c = refl

and_split : (a b : Bool) → (a && b) ≡ true → (a ≡ true) × (b ≡ true)
and_split true b h = (refl, h)
and_split false b h = cc

and_second : (a b : Bool) → (a && b) ≡ false → a ≡ true → b ≡ false
and_second true b h e = h
and_second false b h e = cc

not_ltb : (a b : ℕ) → ltb a b ≡ false → b ≤ a
not_ltb a b h = ground arith

module _ (lqd sqd w : ℕ) (s : Lsq) (rob_head : ℕ) (l : LqEntry) where
  -- The age of the store at a place of the queue.
  abbrev age_at : ℕ → ℕ
  age_at i = age lqd sqd w (sq_at lqd sqd w s i).rob_idx rob_head

  -- It is older than the load, and writes a byte that the load reads.
  abbrev matters : ℕ → Bool
  matters i =
      ltb (age_at i) (age lqd sqd w l.rob_idx rob_head)
      && overlaps lqd sqd w l (sq_at lqd sqd w s i)

  -- The outcome of the loop over the first `n` stores: none of them matters; or the store at `i` does,
  -- and is the youngest that does.
  pub data Found (n : ℕ) : Best → Type 0 where
    nowhere :
        (best : Best)
        → best.any_overlap ≡ false
        → ((j : ℕ) → j < n → matters j ≡ false)
        → Found n best
    youngest :
        (best : Best) (i : ℕ)
        → i < n
        → matters i ≡ true
        → ((j : ℕ) → j < n → matters j ≡ true → age_at j ≤ age_at i)
        → best.any_overlap ≡ true
        → best.yv_age ≡ age_at i
        → best.yv_full ≡ covers lqd sqd w l (sq_at lqd sqd w s i)
        → (best.yv_full ≡ true → best.yv_data ≡ forwarded lqd sqd w l (sq_at lqd sqd w s i))
        → Found n best

  below_suc : (P : ℕ → Type 0) (n : ℕ) → ((j : ℕ) → j < n → P j) → P n → (j : ℕ) → j < suc n → P j
  below_suc P n h here j p = elim (ℕ_discrete j n) [
    | yes e ↦ subst P (sym e) here
    | no ne ↦ h j (omega arith)
  ]

  abbrev replaces : ℕ → Best → Bool
  replaces n best = not best.any_overlap || ltb best.yv_age (age_at n)

  -- The new choice of a round.
  abbrev picked : ℕ → Best → Best
  picked n best =
      let e = sq_at lqd sqd w s n in
      record {
        any_overlap = true;
        yv_full = covers lqd sqd w l e;
        yv_age = age_at n;
        yv_data = if covers lqd sqd w l e then forwarded lqd sqd w l e else best.yv_data;
      }

  consider-eq :
      (n : ℕ) (best : Best)
      → consider lqd sqd w rob_head l (sq_at lqd sqd w s n) best
        ≡ (if matters n && replaces n best then picked n best else best)
  unfolding consider
  consider-eq n best =
      rw
        (and_assoc (ltb (age_at n) (age lqd sqd w l.rob_idx rob_head))
          (overlaps lqd sqd w l (sq_at lqd sqd w s n)) (replaces n best))
        refl

  picked_data :
      (n : ℕ) (best : Best)
      → (picked n best).yv_full ≡ true
      → (picked n best).yv_data ≡ forwarded lqd sqd w l (sq_at lqd sqd w s n)
  picked_data n best h = rw h refl

  picked-Found :
      (n : ℕ) (best : Best)
      → matters n ≡ true
      → ((j : ℕ) → j < n → matters j ≡ true → age_at j ≤ age_at n)
      → Found (suc n) (picked n best)
  picked-Found n best m older =
      youngest _ n (omega arith) m
        (below_suc (λ j. matters j ≡ true → age_at j ≤ age_at n) n older (λ _. omega arith)) refl
        refl refl (picked_data n best)

  consider-Found :
      (n : ℕ) (best : Best)
      → Found n best
      → Found (suc n) (consider lqd sqd w rob_head l (sq_at lqd sqd w s n) best)
  consider-Found n best (nowhere _ empty never) =
      rw (consider-eq n best) (elim (Bool-cases (matters n)) [
        | inl m ↦
            rw (m, empty) (picked-Found n best m (λ j p q. absurd (ground (arith, never j p))))
        | inr m ↦ rw m (nowhere best empty (below_suc (λ j. matters j ≡ false) n never m))
      ])
  consider-Found n best (youngest _ i p m older any a full data_is) =
      let same : (matters n && replaces n best) ≡ (matters n && ltb best.yv_age (age_at n)) =
        ap (λ x. matters n && (not x || ltb best.yv_age (age_at n))) any in
      rw (consider-eq n best, same)
        (elim (Bool-cases (matters n && ltb best.yv_age (age_at n))) [
          | inl c ↦
              let (mn, later) = and_split (matters n) (ltb best.yv_age (age_at n)) c in
              let lt = ltb→lt best.yv_age (age_at n) later in
              rw c (picked-Found n best mn (λ j q mj. omega (arith, older j q mj, a, lt)))
          | inr c ↦ rw c (
              youngest best i (omega arith) m
                (below_suc (λ j. matters j ≡ true → age_at j ≤ age_at i) n older
                  (λ mn.
                    let not_later = and_second (matters n) (ltb best.yv_age (age_at n)) c mn in
                    omega (arith, not_ltb best.yv_age (age_at n) not_later, a)))
                any a full data_is)
        ])

  scan-Found :
      (left i : ℕ) (best : Best)
      → Found i best
      → Found (i + left) (scan lqd sqd w s rob_head l left i best)
  unfolding scan
  scan-Found zero i best f = subst (λ n. Found n best) {x = i} (omega arith) f
  scan-Found (suc left) i best f =
      subst (λ n. Found n (scan lqd sqd w s rob_head l (suc left) i best)) {x = suc i + left}
        (omega arith) (scan-Found left (suc i) _ (consider-Found i best f))

-- Where the expected value of a load comes from.
pub data Source (lqd sqd w : ℕ) (s : Lsq) (rob_head : ℕ) (mem : ℕ → ℕ) (l : LqEntry)
    : ℕ × Bool → Type 0 where
  memory_only :
      ((j : ℕ) → j < s.sq_cnt → matters lqd sqd w s rob_head l j ≡ false)
      → Source lqd sqd w s rob_head mem l (from_memory mem l, false)
  store :
      (i : ℕ)
      → i < s.sq_cnt
      → matters lqd sqd w s rob_head l i ≡ true
      → ((j : ℕ)
          → j < s.sq_cnt
          → matters lqd sqd w s rob_head l j ≡ true
          → age_at lqd sqd w s rob_head l j ≤ age_at lqd sqd w s rob_head l i)
      → Source lqd sqd w s rob_head mem l (
          if covers lqd sqd w l (sq_at lqd sqd w s i)
          then (forwarded lqd sqd w l (sq_at lqd sqd w s i), true)
          else (from_memory mem l, false))

chosen-Source :
    (lqd sqd w : ℕ) (s : Lsq) (rob_head : ℕ) (mem : ℕ → ℕ) (l : LqEntry) (best : Best)
    → Found lqd sqd w s rob_head l s.sq_cnt best
    → Source lqd sqd w s rob_head mem l (chosen lqd sqd w best mem l)
unfolding chosen
chosen-Source lqd sqd w s rob_head mem l best (nowhere _ empty never) = rw empty (memory_only never)
chosen-Source lqd sqd w s rob_head mem l best (youngest _ i p m older any a full data_is) =
    let e = sq_at lqd sqd w s i in
    let pick : (if best.any_overlap && best.yv_full
          then (best.yv_data, true)
          else (from_memory mem l, false))
        ≡ (if covers lqd sqd w l e
            then (forwarded lqd sqd w l e, true)
            else (from_memory mem l, false)) =
      rw any (elim (Bool-cases (covers lqd sqd w l e)) [
        | inl c ↦ rw (full ∙ c, c, data_is (full ∙ c)) refl
        | inr c ↦ rw (full ∙ c, c) refl
      ]) in
    subst (Source lqd sqd w s rob_head mem l) (sym pick) (store i p m older)

-- The expected value of a load comes from the youngest store that is older than the load and writes a
-- byte that the load reads: its bytes, extended as the load has it, if it covers the load. If it does
-- not, or if there is no such store, the value comes from memory.
pub expected_load_value-Source :
    (lqd sqd w : ℕ) (s : Lsq) (lq_idx rob_head : ℕ) (mem : ℕ → ℕ)
    → Source lqd sqd w s rob_head mem
        (get_or s.lq lq_idx (new_lq 0))
        (expected_load_value lqd sqd w s lq_idx rob_head mem)
unfolding expected_load_value
expected_load_value-Source lqd sqd w s lq_idx rob_head mem =
    let l = get_or s.lq lq_idx (new_lq 0) in
    let best = scan lqd sqd w s rob_head l s.sq_cnt 0 no_best in
    chosen-Source lqd sqd w s rob_head mem l best (
      subst (λ n. Found lqd sqd w s rob_head l n best) {x = 0 + s.sq_cnt} (omega arith)
        (scan-Found lqd sqd w s rob_head l s.sq_cnt 0 no_best
          (nowhere no_best refl (λ j p. absurd (omega arith)))))
