-- ===== src/Lsq/Tests.antt =====
-- A load behind two stores, and the theorems at it: queues of four, and reorder buffer indices of five
-- bits.
use rv64_ooo_core.Prelude.{ℕ, zero, suc, ◌≡◌, refl, arith, leb, Bool, true, false, [], ◌∷◌}
use rv64_ooo_core.Lsq.{
  Lsq, LqEntry, SqEntry, new_lq, new_sq, age, lq_at, sq_at, expected_load_value, scan, consider,
  chosen, extend, bytes_of, from_memory, raw_loop, apply_squash, apply_commit,
}
use rv64_ooo_core.Lsq.Squash.{Ascending, Cut, apply_squash-Cut}
use rv64_ooo_core.Lsq.Forward.{Source, expected_load_value-Source}
use rv64_ooo_core.Lsq.Invariant.{IsSound, commit, Step-IsSound}

abbrev store_at : ℕ → ℕ → ℕ → SqEntry
store_at i addr v = record { rob_idx = i; addr_v = true; addr = addr; size = 3; store_data = v }

abbrev word_load : LqEntry
word_load = record { rob_idx = 7; addr_v = true; addr = 0x104; size = 2; sgn = false }

-- The stores 3 and 5 write 0x100, and the load 7 reads from its middle.
abbrev queues : Lsq
queues = record {
  lq = word_load ∷ new_lq 0 ∷ new_lq 0 ∷ new_lq 0 ∷ [];
  sq = store_at 5 0x100 0x1122334455667788 ∷ new_sq 0 ∷ new_sq 0 ∷ store_at 3 0x100 0 ∷ [];
  lq_head = 0;
  lq_tail = 1;
  lq_cnt = 1;
  sq_head = 3;
  sq_tail = 1;
  sq_cnt = 2;
}

abbrev nothing_stored : ℕ → ℕ
nothing_stored a = 0

loaded_value : ℕ × Bool
unfolding expected_load_value scan consider chosen age extend bytes_of from_memory raw_loop
loaded_value = expected_load_value 4 4 5 queues 0 2 nothing_stored

loaded_value_is : loaded_value ≡ (0x11223344, true)
unfolding loaded_value
loaded_value_is = refl

expected_load_value-Source_example :
    Source 4 4 5 queues 2 nothing_stored word_load
      (expected_load_value 4 4 5 queues 0 2 nothing_stored)
expected_load_value-Source_example = expected_load_value-Source 4 4 5 queues 0 2 nothing_stored

queues-IsSound : IsSound 4 4 queues
queues-IsSound = record {
  loads = record { sized = refl; head_in = omega arith; tail_at = refl; fits = omega arith };
  stores = record { sized = refl; head_in = omega arith; tail_at = refl; fits = omega arith };
}

Step-IsSound_example : IsSound 4 4 (apply_commit 4 4 5 queues true false)
Step-IsSound_example = Step-IsSound 4 4 5 queues _ queues-IsSound (commit true false)

one_load : Ascending (λ i. age 4 4 5 (lq_at 4 4 5 queues i).rob_idx 2) 1
one_load zero zero h p = omega arith
one_load (suc i) j h p = absurd (omega arith)
one_load zero (suc j) h p = absurd (omega arith)

two_stores : Ascending (λ i. age 4 4 5 (sq_at 4 4 5 queues i).rob_idx 2) 2
unfolding age
two_stores zero zero h p = omega arith
two_stores zero (suc zero) h p = omega arith
two_stores (suc zero) (suc zero) h p = omega arith
two_stores (suc zero) zero h p = absurd (omega arith)
two_stores (suc (suc i)) j h p = absurd (omega arith)
two_stores i (suc (suc j)) h p = absurd (omega arith)

apply_squash-Cut_example :
    Cut 4 1 0
      (apply_squash 4 4 5 queues true 3 false 2).lq_cnt
      (apply_squash 4 4 5 queues true 3 false 2).lq_tail
      (λ i. leb (age 4 4 5 (lq_at 4 4 5 queues i).rob_idx 2) (age 4 4 5 3 2))
    × Cut 4 2 3
        (apply_squash 4 4 5 queues true 3 false 2).sq_cnt
        (apply_squash 4 4 5 queues true 3 false 2).sq_tail
        (λ i. leb (age 4 4 5 (sq_at 4 4 5 queues i).rob_idx 2) (age 4 4 5 3 2))
    × ((apply_squash 4 4 5 queues true 3 false 2).lq ≡ queues.lq)
    × ((apply_squash 4 4 5 queues true 3 false 2).sq ≡ queues.sq)
    × ((apply_squash 4 4 5 queues true 3 false 2).lq_head ≡ queues.lq_head)
    × ((apply_squash 4 4 5 queues true 3 false 2).sq_head ≡ queues.sq_head)
apply_squash-Cut_example = apply_squash-Cut 4 4 5 queues 3 2 one_load two_stores
