-- ===== src/Lsq/Invariant.antt =====
-- The well-formedness of the two queues, and that every operation of `LsqModel` keeps it.
use native.Mathlib.Nat.{mod-eq_of_lt}
use rv64_ooo_core.Prelude.{
  ℕ, ◌+◌, ◌<◌, ◌≡◌, refl, sym, arith, ltb, one_if, if◌then◌else◌, Bool, true, false, not, ◌&&◌,
  ◌==◌, Bool-cases, ltb→lt, inl, inr, length, length-set, length-replicate,
}
use rv64_ooo_core.Lsq.{
  Lsq, DispReq, fresh, lq_at, sq_at, new_lq, new_sq, peek_dispatch, dispatch_one, apply_dispatch,
  apply_store_addr, apply_load_addr, commit_store, commit_load, apply_commit, apply_squash,
}
use rv64_ooo_core.Lsq.Sound.{
  Sound, pushed, popped, cut, emptied, resized, keep_loop-le, room_first, room_second,
}

pub record IsSound (lqd sqd : ℕ) (s : Lsq) : Type 0 where
  pub loads : Sound lqd (length s.lq) s.lq_head s.lq_tail s.lq_cnt
  pub stores : Sound sqd (length s.sq) s.sq_head s.sq_tail s.sq_cnt

-- What a cycle does to the queues: the calls that the testbench makes, with any arguments; a
-- dispatch is with the answers of `peekDispatch`.
pub data Step (lqd sqd w : ℕ) (s : Lsq) : Lsq → Type 0 where
  dispatch :
      (req0 req1 : DispReq) (sq : Bool)
      → Step lqd sqd w s
          (apply_dispatch lqd sqd w s req0 req1 (peek_dispatch lqd sqd w s req0 req1 sq))
  store_addr :
      (sq_idx addr size store_data : ℕ)
      → Step lqd sqd w s (apply_store_addr lqd sqd w s sq_idx addr size store_data)
  load_addr :
      (lq_idx addr size : ℕ) (sgn : Bool)
      → Step lqd sqd w s (apply_load_addr lqd sqd w s lq_idx addr size sgn)
  commit :
      (commit_store_valid commit_load_valid : Bool)
      → Step lqd sqd w s (apply_commit lqd sqd w s commit_store_valid commit_load_valid)
  squash :
      (squash_valid : Bool) (squash_rob_idx : ℕ) (squash_all : Bool) (rob_head : ℕ)
      → Step lqd sqd w s (apply_squash lqd sqd w s squash_valid squash_rob_idx squash_all rob_head)

module _ (lqd sqd w : ℕ) where
  fresh-IsSound : 0 < lqd → 0 < sqd → IsSound lqd sqd (fresh lqd sqd w)
  unfolding fresh
  fresh-IsSound hl hs = record {
    loads = record {
      sized = length-replicate lqd (new_lq 0);
      head_in = hl;
      tail_at = sym (mod-eq_of_lt {n = 0} {m = lqd} hl);
      fits = omega arith;
    };
    stores = record {
      sized = length-replicate sqd (new_sq 0);
      head_in = hs;
      tail_at = sym (mod-eq_of_lt {n = 0} {m = sqd} hs);
      fits = omega arith;
    };
  }

  -- There is a free slot in the queue that the request goes to.
  abbrev Room : Lsq → DispReq → Bool → Type 0
  Room s req ready =
      (req.valid && ready) ≡ true
      → (if req.is_load then ltb s.lq_cnt lqd else ltb s.sq_cnt sqd) ≡ true

  dispatch_one-IsSound :
      (s : Lsq) (req : DispReq) (ready : Bool) (idx : ℕ)
      → IsSound lqd sqd s
      → Room s req ready
      → IsSound lqd sqd (dispatch_one lqd sqd w s req ready idx)
  unfolding dispatch_one
  dispatch_one-IsSound s req ready idx v room = elim (Bool-cases (req.valid && ready)) [
    | inr c ↦ rw c v
    | inl c ↦ rw c (elim (Bool-cases req.is_load) [
      | inl k ↦
          let free : ltb s.lq_cnt lqd ≡ true = rw k at (room c) in
          rw k (record {
            loads =
                resized lqd _ _ s.lq_head _ _ (length-set s.lq idx (new_lq req.rob_idx))
                  (pushed lqd _ _ _ _ v.loads (ltb→lt s.lq_cnt lqd free));
            stores = v.stores;
          })
      | inr k ↦
          let free : ltb s.sq_cnt sqd ≡ true = rw k at (room c) in
          rw k (record {
            loads = v.loads;
            stores =
                resized sqd _ _ s.sq_head _ _ (length-set s.sq idx (new_sq req.rob_idx))
                  (pushed sqd _ _ _ _ v.stores (ltb→lt s.sq_cnt sqd free));
          })
    ])
  ]

  -- What the first lane leaves to the second.
  counts_after :
      (s : Lsq) (req : DispReq) (ready : Bool) (idx : ℕ)
      → ((dispatch_one lqd sqd w s req ready idx).lq_cnt
          ≡ s.lq_cnt + one_if (req.valid && (ready && req.is_load)))
        × ((dispatch_one lqd sqd w s req ready idx).sq_cnt
            ≡ s.sq_cnt + one_if (req.valid && (ready && not req.is_load)))
  unfolding dispatch_one
  counts_after s req ready idx = elim (Bool-cases req.valid) [
    | inr c ↦ rw c (omega arith, omega arith)
    | inl c ↦ rw c (elim (Bool-cases ready) [
      | inr k ↦ rw k (omega arith, omega arith)
      | inl k ↦ rw k (elim (Bool-cases req.is_load) [
        | inl l ↦ rw l (refl, omega arith)
        | inr l ↦ rw l (omega arith, refl)
      ])
    ])
  ]

  commit_store-IsSound :
      (s : Lsq) (b : Bool) → IsSound lqd sqd s → IsSound lqd sqd (commit_store lqd sqd w s b)
  unfolding commit_store
  commit_store-IsSound s b v = elim (Bool-cases (b && not (s.sq_cnt == 0))) [
    | inr c ↦ rw c v
    | inl c ↦ rw c (record { loads = v.loads; stores = popped sqd _ _ _ _ v.stores (ground arith) })
  ]

  commit_load-IsSound :
      (s : Lsq) (b : Bool) → IsSound lqd sqd s → IsSound lqd sqd (commit_load lqd sqd w s b)
  unfolding commit_load
  commit_load-IsSound s b v = elim (Bool-cases (b && not (s.lq_cnt == 0))) [
    | inr c ↦ rw c v
    | inl c ↦ rw c (record { loads = popped lqd _ _ _ _ v.loads (ground arith); stores = v.stores })
  ]

  apply_commit-IsSound :
      (s : Lsq) (cs cl : Bool)
      → IsSound lqd sqd s
      → IsSound lqd sqd (apply_commit lqd sqd w s cs cl)
  unfolding apply_commit
  apply_commit-IsSound s cs cl v =
      commit_load-IsSound (commit_store lqd sqd w s cs) cl (commit_store-IsSound s cs v)

  apply_dispatch-IsSound :
      (s : Lsq) (req0 req1 : DispReq) (sq : Bool)
      → IsSound lqd sqd s
      → IsSound lqd sqd
          (apply_dispatch lqd sqd w s req0 req1 (peek_dispatch lqd sqd w s req0 req1 sq))
  unfolding apply_dispatch peek_dispatch
  apply_dispatch-IsSound s req0 req1 sq v =
      let p = peek_dispatch lqd sqd w s req0 req1 sq in
      let s1 = dispatch_one lqd sqd w s req0 p.ready0 p.idx0 in
      let first =
        dispatch_one-IsSound s req0 p.ready0 p.idx0 v
          (room_first req0.valid sq req0.is_load s.lq_cnt s.sq_cnt lqd sqd) in
      let (lq_now, sq_now) = counts_after s req0 p.ready0 p.idx0 in
      dispatch_one-IsSound s1 req1 p.ready1 p.idx1 first (λ h.
        rw (lq_now, sq_now)
          (room_second req1.valid sq req1.is_load s.lq_cnt s.sq_cnt _ _ lqd sqd h))

  apply_squash-IsSound :
      (s : Lsq) (valid : Bool) (idx : ℕ) (all : Bool) (head : ℕ)
      → IsSound lqd sqd s
      → IsSound lqd sqd (apply_squash lqd sqd w s valid idx all head)
  unfolding apply_squash
  apply_squash-IsSound s valid idx true head v = record {
    loads = emptied lqd _ _ _ _ v.loads;
    stores = emptied sqd _ _ _ _ v.stores;
  }
  apply_squash-IsSound s false idx false head v = v
  apply_squash-IsSound s true idx false head v = record {
    loads = cut lqd _ _ _ _ v.loads _ (
        omega (
          arith,
          keep_loop-le lqd sqd w (λ i. (lq_at lqd sqd w s i).rob_idx) idx head s.lq_cnt 0 0,
        ));
    stores = cut sqd _ _ _ _ v.stores _ (
        omega (
          arith,
          keep_loop-le lqd sqd w (λ i. (sq_at lqd sqd w s i).rob_idx) idx head s.sq_cnt 0 0,
        ));
  }

-- Every call of a cycle, with any arguments and a dispatch with the answers of `peekDispatch`, keeps both
-- queues well formed: the vectors have their sizes, a head is in its vector, a tail is the count of
-- entries behind the head, and a count is at most the size.
pub Step-IsSound :
    (lqd sqd w : ℕ) (s s' : Lsq) → IsSound lqd sqd s → Step lqd sqd w s s' → IsSound lqd sqd s'
unfolding apply_store_addr apply_load_addr
Step-IsSound lqd sqd w s _ v (dispatch req0 req1 sq) =
    apply_dispatch-IsSound lqd sqd w s req0 req1 sq v
Step-IsSound lqd sqd w s _ v (store_addr i addr size d) = record {
  loads = v.loads;
  stores = resized sqd _ _ s.sq_head _ _ (length-set s.sq i _) v.stores;
}
Step-IsSound lqd sqd w s _ v (load_addr i addr size sgn) = record {
  loads = resized lqd _ _ s.lq_head _ _ (length-set s.lq i _) v.loads;
  stores = v.stores;
}
Step-IsSound lqd sqd w s _ v (commit cs cl) = apply_commit-IsSound lqd sqd w s cs cl v
Step-IsSound lqd sqd w s _ v (squash valid idx all head) =
    apply_squash-IsSound lqd sqd w s valid idx all head v
