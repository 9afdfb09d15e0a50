-- ===== src/Rename/Conformance.antt =====
-- What a run of the testbench tb_rename.cpp shows: its invariants always hold of the model, so that a run
-- stops exactly where the device differs from it.
use rv64_ooo_core.Prelude.{
  ℕ, ◌+◌, ◌≤◌, ◌≡◌, ◌↔◌, refl, ap, arith, ltb, ◌&&◌, true, false, not, Bool-cases, inl, inr, List,
  [], ◌∷◌, length, none, some, is_some, ==_refl, ==_iff, same_iff,
}
use rv64_ooo_core.Prelude.Occurrences.{
  occurrences, contains, to_set-id, occurrences-contains, all_intro,
}
use rv64_ooo_core.Prelude.Word.{ℤ, pos, negsuc, u64}
use rv64_ooo_core.Rename.{Rename, Inputs, Outputs, step, free_list_contents}
use rv64_ooo_core.Rename.Partition.{Owns, one_if-le}
use rv64_ooo_core.Rename.Accounting.{Accounted, IsLegal, cycle-Accounted}
use rv64_ooo_core.Rename.Bench.{
  Device, Bench, same_ℤ, settled, rising_edge, all_equal, check_invariants, step_and_check,
  do_cycle, do_cycles, displaced, committed,
}

at_most :
    {m f q : List ℕ}
    → Owns m f q
    → (p : ℕ) → occurrences p m + occurrences p f + occurrences p q ≤ 1
at_most o p = rw (o.once p) (one_if-le (ltb p 64))

passes : (s : Rename) (q : List ℕ) → Accounted s q → check_invariants s q ≡ true
unfolding check_invariants
passes s q a =
    let o = a.owns in
    let fl = free_list_contents s in
    let fl_id = to_set-id fl (λ p. let e = at_most o p in omega arith) in
    let map_id = to_set-id s.map (λ p. let e = at_most o p in omega arith) in
    let free_ok =
      all_intro (λ p. not (contains p s.map)) fl
        (λ p m. rw (occurrences-contains p s.map (let e = at_most o p in omega arith)) refl) in
    let flight_ok =
      all_intro (λ p. not (contains p fl) && not (contains p s.map)) q
        (λ p m.
          rw
            (
              occurrences-contains p s.map (let e = at_most o p in omega arith),
              occurrences-contains p fl (let e = at_most o p in omega arith),
            )
            refl) in
    let n = o.number in
    rw (fl_id, map_id, free_ok, flight_ok, ==_refl (length fl))
      ((==_iff (length fl + length s.map + length q) 64).1 (rw o.sized (omega arith)))

same_ℤ_iff : (a b : ℤ) → (same_ℤ a b ≡ true) ↔ (a ≡ b)
same_ℤ_iff (pos a) (pos b) = (λ h. ap pos ((==_iff a b).0 h), λ h. (==_iff a b).1 (cc))
same_ℤ_iff (negsuc a) (negsuc b) = (λ h. ap negsuc ((==_iff a b).0 h), λ h. (==_iff a b).1 (cc))
same_ℤ_iff (pos a) (negsuc b) = (λ h. absurd (let e = h in cc), λ h. absurd (let e = h in cc))
same_ℤ_iff (negsuc a) (pos b) = (λ h. absurd (let e = h in cc), λ h. absurd (let e = h in cc))

all_equal_self : (a : Outputs) → all_equal a a ≡ true
unfolding all_equal
all_equal_self a =
    rw
      (
        ==_refl a.prs1_0,
        ==_refl a.prs2_0,
        ==_refl a.prd0,
        ==_refl a.prev_prd0,
        ==_refl a.ckpt_id0,
        ==_refl a.prs1_1,
        ==_refl a.prs2_1,
        ==_refl a.prd1,
        ==_refl a.prev_prd1,
        ==_refl a.ckpt_id1,
        ==_refl a.free_count,
        (same_iff a.rename_ready0 a.rename_ready0).1 refl,
        (same_iff a.rename_ready1 a.rename_ready1).1 refl,
        (same_ℤ_iff a.ckpt_free_count a.ckpt_free_count).1 refl,
      )
      refl

all_equal-eq : (a b : Outputs) → all_equal a b ≡ true → a ≡ b
unfolding all_equal
all_equal-eq a b h =
    let e_prs1_0 : a.prs1_0 ≡ b.prs1_0 = ground arith in
    let e_prs2_0 : a.prs2_0 ≡ b.prs2_0 = ground arith in
    let e_prd0 : a.prd0 ≡ b.prd0 = ground arith in
    let e_prev_prd0 : a.prev_prd0 ≡ b.prev_prd0 = ground arith in
    let e_ckpt_id0 : a.ckpt_id0 ≡ b.ckpt_id0 = ground arith in
    let e_rename_ready0 : a.rename_ready0 ≡ b.rename_ready0 =
      (same_iff a.rename_ready0 b.rename_ready0).0 (ground arith) in
    let e_prs1_1 : a.prs1_1 ≡ b.prs1_1 = ground arith in
    let e_prs2_1 : a.prs2_1 ≡ b.prs2_1 = ground arith in
    let e_prd1 : a.prd1 ≡ b.prd1 = ground arith in
    let e_prev_prd1 : a.prev_prd1 ≡ b.prev_prd1 = ground arith in
    let e_ckpt_id1 : a.ckpt_id1 ≡ b.ckpt_id1 = ground arith in
    let e_rename_ready1 : a.rename_ready1 ≡ b.rename_ready1 =
      (same_iff a.rename_ready1 b.rename_ready1).0 (ground arith) in
    let e_free_count : a.free_count ≡ b.free_count = ground arith in
    let e_ckpt_free_count : a.ckpt_free_count ≡ b.ckpt_free_count =
      (same_ℤ_iff a.ckpt_free_count b.ckpt_free_count).0 (ground arith) in
    λ k. record {
      prs1_0 = e_prs1_0 k;
      prs2_0 = e_prs2_0 k;
      prd0 = e_prd0 k;
      prev_prd0 = e_prev_prd0 k;
      ckpt_id0 = e_ckpt_id0 k;
      rename_ready0 = e_rename_ready0 k;
      prs1_1 = e_prs1_1 k;
      prs2_1 = e_prs2_1 k;
      prd1 = e_prd1 k;
      prev_prd1 = e_prev_prd1 k;
      ckpt_id1 = e_ckpt_id1 k;
      rename_ready1 = e_rename_ready1 k;
      free_count = e_free_count k;
      ckpt_free_count = e_ckpt_free_count k;
    }

-- In every cycle, the device gives the outputs that the model gives.
abbrev pub Conforms : (d : Device) → Device.Dut d → Rename → List Inputs → Type 0
Conforms d dut s [] = Unit
Conforms d dut s (i ∷ is) =
    (Device.outputs d (settled d dut i) ≡ (step s i).1)
    × Conforms d (rising_edge d (settled d dut i)) (step s i).0 is

-- The cycles of a run are legal, each with the registers that are in flight then.
abbrev pub IsLegalRun : Rename → List ℕ → List Inputs → Type 0
IsLegalRun s q [] = Unit
IsLegalRun s q (i ∷ is) =
    IsLegal i q × IsLegalRun (step s i).0 (committed i (displaced i (step s i).1 q)) is

-- The state that a cycle leaves, if its checks pass.
abbrev next_state : {d : Device} → Bench d → Inputs → Bench d
next_state {d} t i = record t {
  dut = rising_edge d (settled d t.dut i);
  model = (step t.model i).0;
  tick = u64 (t.tick + 1);
  g_inflight = committed i (displaced i (step t.model i).1 t.g_inflight);
}

step-Accounted :
    (s : Rename) (i : Inputs) (q : List ℕ)
    → Accounted s q
    → IsLegal i q
    → Accounted (step s i).0 (committed i (displaced i (step s i).1 q))
unfolding step
step-Accounted s i q a legal = cycle-Accounted s i q a legal

module _ (d : Device) (t : Bench d) (i : Inputs) (a : Accounted t.model t.g_inflight)
    (legal : IsLegal i t.g_inflight) where
  cycle_ok :
      d.outputs (settled d t.dut i) ≡ (step t.model i).1
      → do_cycle d t i ≡ some (next_state t i, (step t.model i).1)
  unfolding do_cycle step_and_check
  cycle_ok e =
      rw
        (
          e,
          all_equal_self (step t.model i).1,
          passes (step t.model i).0 (committed i (displaced i (step t.model i).1 t.g_inflight))
              (step-Accounted t.model i t.g_inflight a legal),
        )
        refl

  cycle_fails :
      all_equal (d.outputs (settled d t.dut i)) (step t.model i).1 ≡ false → do_cycle d t i ≡ none
  unfolding do_cycle step_and_check
  cycle_fails e = rw e refl

-- A run of legal cycles, from a state in which the registers are accounted for, passes all checks exactly
-- if the device gives the outputs of the model in every cycle: the checks of the invariants never fail.
pub cycles-Conforms :
    (d : Device) (t : Bench d) (is : List Inputs)
    → Accounted t.model t.g_inflight
    → IsLegalRun t.model t.g_inflight is
    → (is_some (do_cycles d t is) ≡ true) ↔ Conforms d t.dut t.model is
unfolding do_cycles
cycles-Conforms d t [] a legal = (λ _. tt, λ _. refl)
cycles-Conforms d t (i ∷ is) a (legal, rest) =
    elim (Bool-cases (all_equal (d.outputs (settled d t.dut i)) (step t.model i).1)) [
      | inl c ↦
          let e = all_equal-eq (d.outputs (settled d t.dut i)) (step t.model i).1 c in
          let (to, from) =
            cycles-Conforms d (next_state t i) is (step-Accounted t.model i t.g_inflight a legal)
              rest in
          rw (cycle_ok d t i a legal e) (λ h. (e, to h), λ p. from p.1)
      | inr c ↦ rw (cycle_fails d t i a legal c) (
        λ h. absurd (let k = h in cc),
        λ p. absurd (let k = all_equal_self (step t.model i).1 in let l = c in let m = p.0 in cc),
      )
    ]
