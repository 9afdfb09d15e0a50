-- ===== src/Rename/Drain.antt =====
-- The loop of tb_rename.cpp that drains the free list, and the fuel that it needs.
use rv64_ooo_core.Prelude.{
  ℕ, zero, suc, ◌+◌, ◌%◌, ◌≤◌, ◌≡◌, ◌≢◌, refl, sym, ap, ◌∙◌, arith, Bool, true, false, Bool-cases,
  inl, inr, Option, none, some, passed, ne→==,
}
use rv64_ooo_core.Rename.{Rename, Inputs, Outputs, step, outputs, renamed, bundle_ready, reset}
use rv64_ooo_core.Rename.Bench.{
  Device, Bench, settled, idle, all_equal, step_and_check, do_cycle, reset_dut,
}
use rv64_ooo_core.Rename.Directed.{exited, ended, out_of_fuel, one, drain_done, drain_loop, drain}

-- What a cycle that passes its checks leaves of the model, and what it returns.
pub cycle-model :
    (d : Device) (t t1 : Bench d) (i : Inputs) (o : Outputs)
    → do_cycle d t i ≡ some (t1, o)
    → (t1.model ≡ (step t.model i).0) × (o ≡ (step t.model i).1)
unfolding do_cycle step_and_check
cycle-model d t t1 i o h =
    let mo = (step t.model i).1 in
    elim (Bool-cases (all_equal (d.outputs (settled d t.dut i)) mo)) [
      | inl c ↦
          let p = passed _ _ (t1, o) (rw c at h) in
          (ap (λ z. z.0.model) (sym p.1), ap (λ z. z.1) (sym p.1))
      | inr c ↦ absurd (let e = rw c at h in cc)
    ]

two_counted : (s : Rename) (i : Inputs) → bundle_ready s i ≡ true → 2 ≤ s.count
unfolding bundle_ready
two_counted s i ready = ground arith

-- An instruction that is ready takes one register.
count_less :
    (s : Rename) (rd : ℕ)
    → 1 ≤ rd
    → bundle_ready s (one 0 0 rd) ≡ true
    → (step s (one 0 0 rd)).0.count + 1 ≡ s.count
unfolding step renamed idle
count_less s rd h ready =
    let two = two_counted s (one 0 0 rd) ready in
    let nonzero = ne→== rd 0 (omega arith) in rw (ready, nonzero) (ground arith)

ready_is : (s : Rename) (i : Inputs) → (step s i).1.rename_ready0 ≡ bundle_ready s i
unfolding step outputs
ready_is s i = refl

abbrev next : ℕ → Inputs
next reg = one 0 0 (reg % 31 + 1)

still_ready : (o : Outputs) → drain_done o ≡ none → o.rename_ready0 ≡ true
unfolding drain_done
still_ready o h = elim (Bool-cases o.rename_ready0) [
  | inl c ↦ c
  | inr c ↦ absurd (let e = rw c at h in cc)
]

-- Another cycle of the loop finds one register less.
another :
    (d : Device) (fuel reg : ℕ) (t t1 : Bench d) (o : Outputs)
    → do_cycle d t (next reg) ≡ some (t1, o)
    → drain_done o ≡ none
    → t.model.count ≤ suc fuel
    → (t1.model.count ≤ fuel) × (1 ≤ fuel)
another d fuel reg t t1 o e again le =
    let m = cycle-model d t t1 (next reg) o e in
    let ready : bundle_ready t.model (next reg) ≡ true =
      sym (ready_is t.model (next reg))
      ∙ (sym (ap (λ (x : Outputs). x.rename_ready0) m.1) ∙ still_ready o again) in
    let less = count_less t.model (reg % 31 + 1) (omega arith) ready in
    let two = two_counted t.model (next reg) ready in
    let same : t1.model.count ≡ (step t.model (next reg)).0.count =
      ap (λ (x : Rename). x.count) m.0 in
    (omega arith, omega arith)

-- An iteration ends the loop or goes on to one that ends.
module _ (d : Device) (fuel reg : ℕ) (t : Bench d) (le : t.model.count ≤ suc fuel)
    (rest : (t1 : Bench d)
      → t1.model.count ≤ fuel
      → 1 ≤ fuel
      → drain_loop d fuel (reg + 1) t1 ≢ out_of_fuel) where
  judged :
      (t1 : Bench d) (o : Outputs) (r : Option Bool)
      → do_cycle d t (next reg) ≡ some (t1, o)
      → drain_done o ≡ r
      → (elim r [
        | none ↦ drain_loop d fuel (reg + 1) t1
        | some true ↦ ended t1
        | some false ↦ exited
      ])
        ≢ out_of_fuel
  judged t1 o none e again = let a = another d fuel reg t t1 o e again le in rest t1 a.0 a.1
  judged t1 o (some true) e again = λ p. absurd (let q = p in cc)
  judged t1 o (some false) e again = λ p. absurd (let q = p in cc)

  cycled :
      (r : Option (Bench d × Outputs))
      → do_cycle d t (next reg) ≡ r
      → (elim r [
        | none ↦ exited
        | some (t1, o) ↦ elim (drain_done o) [
          | none ↦ drain_loop d fuel (reg + 1) t1
          | some true ↦ ended t1
          | some false ↦ exited
        ]
      ])
        ≢ out_of_fuel
  cycled none e = λ p. absurd (let q = p in cc)
  cycled (some (t1, o)) e = judged t1 o (drain_done o) e refl

drain_loop-ends :
    (d : Device) (fuel reg : ℕ) (t : Bench d)
    → t.model.count ≤ fuel
    → 1 ≤ fuel
    → drain_loop d fuel reg t ≢ out_of_fuel
unfolding drain_loop
drain_loop-ends d zero reg t le h = absurd (omega arith)
drain_loop-ends d (suc fuel) reg t le h =
    cycled d fuel reg t le (λ t1. drain_loop-ends d fuel (reg + 1) t1) (do_cycle d t (next reg))
      refl

-- The loop ends on every device: either a check fails, or the model is not ready before 33 cycles.
pub drain-ends : (d : Device) (t : Bench d) → drain d t ≢ out_of_fuel
unfolding drain reset_dut reset
drain-ends d t = drain_loop-ends d 32 1 (reset_dut d t) (omega arith) (omega arith)
