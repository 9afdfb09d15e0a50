-- ===== src/Lsq/Window.antt =====
-- The accesses that the random test of sim/lsq/tb_lsq.cpp makes stay in its window of 64 bytes.
use rv64_ooo_core.Prelude.{
  ℕ, zero, suc, ◌+◌, ◌≤◌, ◌≡◌, arith, Bool, true, false, Bool-cases, inl, inr, List, [], ◌∷◌,
}
use rv64_ooo_core.Lsq.{bytes_of}
use rv64_ooo_core.Lsq.Bench.{Op, Bench}
use rv64_ooo_core.Lsq.BenchCycle.{CycleInputs}
use rv64_ooo_core.Lsq.BenchApply.{idle}
use rv64_ooo_core.Lsq.Random.{
  Rng, retire_ready, chance, pick_dispatch, pick_store, pick_load, pick_commit, pick_squash,
  pick_inputs,
}

-- `std::uniform_int_distribution`: a draw is from the range asked for.
pub record IsUniform (g : Rng) : Type 0 where
  pub draw_in :
      (gen : g.Gen) (lo hi : ℕ)
      → lo ≤ hi
      → (lo ≤ (g.draw gen lo hi).0) × ((g.draw gen lo hi).0 ≤ hi)

-- An access of 1, 2, 4 or 8 bytes in the 64 bytes from 0x100 on.
pub record InWindow (addr size : ℕ) : Type 0 where
  pub size_in : size ≤ 3
  pub from_base : 256 ≤ addr
  pub in_end : addr + bytes_of size ≤ 256 + 64

pub record AreInWindow (i : CycleInputs) : Type 0 where
  pub store_in : i.st_addr_valid ≡ true → InWindow i.st_addr i.st_size
  pub load_in : i.ld_addr_valid ≡ true → InWindow i.ld_addr i.ld_size

drawn : (off size : ℕ) → off ≤ 55 → size ≤ 3 → InWindow (256 + off) size
unfolding bytes_of
drawn off zero ho h = record {
  size_in = omega arith;
  from_base = omega arith;
  in_end = omega arith;
}
drawn off (suc zero) ho h = record {
  size_in = omega arith;
  from_base = omega arith;
  in_end = omega arith;
}
drawn off (suc (suc zero)) ho h = record {
  size_in = omega arith;
  from_base = omega arith;
  in_end = omega arith;
}
drawn off (suc (suc (suc zero))) ho h = record {
  size_in = omega arith;
  from_base = omega arith;
  in_end = omega arith;
}
drawn off (suc (suc (suc (suc n)))) ho h = absurd (omega arith)

module _ (g : Rng) (u : IsUniform g) where
  dispatch-AreInWindow :
      (draining : Bool) (gen : g.Gen) → AreInWindow (pick_dispatch g draining gen).0.0
  unfolding pick_dispatch idle
  dispatch-AreInWindow true gen = record {
    store_in = λ e. absurd (let q = e in cc);
    load_in = λ e. absurd (let q = e in cc);
  }
  dispatch-AreInWindow false gen = record {
    store_in = λ e. absurd (let q = e in cc);
    load_in = λ e. absurd (let q = e in cc);
  }

  store-AreInWindow :
      (cs : List ℕ) (i : CycleInputs) (gen : g.Gen)
      → AreInWindow i
      → AreInWindow (pick_store g cs i gen).0
  unfolding pick_store
  store-AreInWindow [] i gen w = w
  store-AreInWindow (c ∷ cs) i gen w = record {
    store_in = λ _.
        drawn _ _ (u.draw_in (g.next gen).1 0 55 (omega arith)).1
          (u.draw_in (g.draw (g.next gen).1 0 55).1 0 3 (omega arith)).1;
    load_in = w.load_in;
  }

  load-AreInWindow :
      (cs : List ℕ) (i : CycleInputs) (gen : g.Gen)
      → AreInWindow i
      → AreInWindow (pick_load g cs i gen).0
  unfolding pick_load
  load-AreInWindow [] i gen w = w
  load-AreInWindow (c ∷ cs) i gen w = record {
    store_in = w.store_in;
    load_in = λ _.
        drawn _ _ (u.draw_in (g.next gen).1 0 55 (omega arith)).1
          (u.draw_in (g.draw (g.next gen).1 0 55).1 0 3 (omega arith)).1;
  }

  retire-AreInWindow : (f : Op) (i : CycleInputs) → AreInWindow i → AreInWindow (retire_ready f i)
  unfolding retire_ready
  retire-AreInWindow f i w = elim (Bool-cases f.is_load) [
    | inl c ↦ rw c (elim (Bool-cases f.resolved) [
      | inl e ↦ rw e (record { store_in = w.store_in; load_in = w.load_in })
      | inr e ↦ rw e w
    ])
    | inr c ↦ rw c (elim (Bool-cases f.addr_set) [
      | inl e ↦ rw e (record { store_in = w.store_in; load_in = w.load_in })
      | inr e ↦ rw e w
    ])
  ]

  commit-AreInWindow :
      (ops : List Op) (i : CycleInputs) (gen : g.Gen)
      → AreInWindow i
      → AreInWindow (pick_commit g ops i gen).0
  unfolding pick_commit
  commit-AreInWindow [] i gen w = w
  commit-AreInWindow (f ∷ ops) i gen w = elim (Bool-cases (chance g 50 gen).0) [
    | inl c ↦ rw c (retire-AreInWindow f i w)
    | inr c ↦ rw c w
  ]

  squash-AreInWindow :
      (ops : List Op) (i : CycleInputs) (gen : g.Gen)
      → AreInWindow i
      → AreInWindow (pick_squash g ops i gen).0
  unfolding pick_squash
  squash-AreInWindow [] i gen w = w
  squash-AreInWindow (f ∷ ops) i gen w = elim (Bool-cases (chance g 5 gen).0) [
    | inl c ↦ rw c (record { store_in = w.store_in; load_in = w.load_in })
    | inr c ↦ rw c (record { store_in = w.store_in; load_in = w.load_in })
  ]

-- With draws from the ranges asked for, the store and the load that a cycle of the random test addresses
-- lie in the 64 bytes from 0x100 on.
pub pick_inputs-AreInWindow :
    (g : Rng) (draining : Bool) (t : Bench) (gen : g.Gen)
    → IsUniform g
    → AreInWindow (pick_inputs g draining t gen).0.0
unfolding pick_inputs
pick_inputs-AreInWindow g draining t gen u = squash-AreInWindow g u t.prog _ _ (
    commit-AreInWindow g u t.prog _ _ (
      load-AreInWindow g u _ _ _
        (store-AreInWindow g u _ _ _ (dispatch-AreInWindow g u draining gen))))
