-- ===== src/Divider/Verdict.antt =====
-- What the verdict of sim/muldiv/tb_muldiv.cpp shows.
use native.Mathlib.Nat.{mod-lt}
use rv64_ooo_core.Prelude.{
  ℕ, zero, suc, ◌<◌, ◌≤◌, ◌≡◌, ◌↔◌, refl, ◌∙◌, arith, ◌==◌, if◌then◌else◌, Bool, true, false, not,
  List, [], ◌∷◌,
}
use rv64_ooo_core.Iss.SingleStep.{golden}
use rv64_ooo_core.Divider.{
  Device, Bench, tick, wait_loop, started, judge, run_case, correct, Answers, started-mismatches,
  wait-mismatches, run_case_lem,
}
use rv64_ooo_core.Divider.Cases.{
  Case, Corner, both_widths, all_ops, ops, corners, corner_cases, random_cases, run_cases,
  failed_if, check_restart, check_quiet, reset_dut, run_all, main,
}

-- The cases are of the eight operations.
abbrev pub AreOps : List Case → Type 0
AreOps [] = Unit
AreOps (c ∷ cs) = (c.funct3 < 8) × AreOps cs

-- Every operation of a list is one of the eight.
abbrev AreSmall : List ℕ → Type 0
AreSmall [] = Unit
AreSmall (op ∷ os) = (op < 8) × AreSmall os

all_ops-AreOps :
    (a b : ℕ) (os : List ℕ) (rest : List Case)
    → AreSmall os
    → AreOps rest
    → AreOps (all_ops a b os rest)
unfolding all_ops both_widths
all_ops-AreOps a b [] rest small r = r
all_ops-AreOps a b (op ∷ os) rest (o, small) r = (o, (o, all_ops-AreOps a b os rest small r))

ops-AreSmall : AreSmall ops
ops-AreSmall = (
  omega arith,
  (
    omega arith,
    (omega arith, (omega arith, (omega arith, (omega arith, (omega arith, (omega arith, tt)))))),
  ),
)

corner_cases-AreOps : (cs : List Corner) → AreOps (corner_cases cs)
unfolding corner_cases
corner_cases-AreOps [] = tt
corner_cases-AreOps (c ∷ cs) =
    all_ops-AreOps c.a c.b ops (corner_cases cs) ops-AreSmall (corner_cases-AreOps cs)

random_cases-AreOps : (n state : ℕ) → AreOps (random_cases n state)
unfolding random_cases
random_cases-AreOps zero state = tt
random_cases-AreOps (suc n) state = (mod-lt _ (omega arith), random_cases-AreOps n _)

zero_iff : (n : ℕ) → ◌≡◌ {A = ℕ} (if n == 0 then 0 else 1) 0 ↔ (n ≡ 0)
zero_iff n = ground arith

module _ (d : Device) where
  -- In every case of a run, the device is done in time and gives what the instruction computes.
  abbrev pub AllAnswer : Bench d → List Case → Type 0
  AllAnswer t [] = Unit
  AllAnswer t (c ∷ cs) =
      Answers d (started d t c.a c.b c.funct3 c.is_word).dut (correct c.a c.b c.funct3 c.is_word)
      × AllAnswer (run_case d t c.a c.b c.funct3 c.is_word) cs

  judge-le : (expect : ℕ) (t : Bench d) → t.mismatches ≤ (judge d expect t).mismatches
  unfolding judge tick
  judge-le expect t = ground arith

  case-le :
      (t : Bench d) (c : Case) → t.mismatches ≤ (run_case d t c.a c.b c.funct3 c.is_word).mismatches
  unfolding run_case
  case-le t c =
      let s = started d t c.a c.b c.funct3 c.is_word in
      omega (
        arith,
        judge-le (golden c.a c.b c.funct3 c.is_word) (wait_loop d 200 s),
        wait-mismatches d 200 s,
        started-mismatches d t c.a c.b c.funct3 c.is_word,
      )

  cases-le : (t : Bench d) (cs : List Case) → t.mismatches ≤ (run_cases d t cs).mismatches
  unfolding run_cases
  cases-le t [] = omega arith
  cases-le t (c ∷ cs) =
      omega (arith, case-le t c, cases-le (run_case d t c.a c.b c.funct3 c.is_word) cs)

  cases-AllAnswer :
      (t : Bench d) (cs : List Case)
      → AreOps cs
      → ((run_cases d t cs).mismatches ≡ t.mismatches) ↔ AllAnswer t cs
  unfolding run_cases
  cases-AllAnswer t [] o = (λ _. tt, λ _. refl)
  cases-AllAnswer t (c ∷ cs) (o, os) =
      let next = run_case d t c.a c.b c.funct3 c.is_word in
      let (to, from) = run_case_lem d t c.a c.b c.funct3 c.is_word o in
      let (tos, froms) = cases-AllAnswer next cs os in
      let first = case-le t c in
      let rest = cases-le next cs in
      (λ h. (to (omega arith), tos (omega arith)), λ p. froms p.1 ∙ from p.0)

  failed-le : (wrong : Bool) (t : Bench d) → t.mismatches ≤ (failed_if d wrong t).mismatches
  unfolding failed_if
  failed-le true t = omega arith
  failed-le false t = omega arith

  tick-mismatches : (t : Bench d) → (tick d t).mismatches ≡ t.mismatches
  unfolding tick
  tick-mismatches t = refl

  quiet-le : (t : Bench d) → t.mismatches ≤ (check_quiet d t).mismatches
  unfolding check_quiet
  quiet-le t =
      let t0 = tick d t in
      let t1 = failed_if d (d.busy t0.dut) t0 in
      omega (arith, tick-mismatches t, failed-le (d.busy t0.dut) t0, failed-le (d.done t1.dut) t1)

  restart-le : (t : Bench d) → t.mismatches ≤ (check_restart d t).mismatches
  unfolding check_restart
  restart-le t =
      let s1 = started d t 0x123456789abcdef0 7 4 false in
      let t1 = tick d s1 in
      let t2 = failed_if d (not (d.busy t1.dut)) t1 in
      let s2 = started d t2 999 3 5 false in
      let t3 = wait_loop d 200 s2 in
      let wrong = not (d.y t3.dut == golden 0x123456789abcdef0 7 4 false) in
      omega (
        arith,
        started-mismatches d t 0x123456789abcdef0 7 4 false,
        tick-mismatches s1,
        failed-le (not (d.busy t1.dut)) t1,
        started-mismatches d t2 999 3 5 false,
        wait-mismatches d 200 s2,
        failed-le wrong t3,
        tick-mismatches (failed_if d wrong t3),
      )

  -- What `main` has after the check that nothing happens before a start, and after the one of a start
  -- while the device is busy.
  abbrev pub quiet : d.Dut → Bench d
  quiet new_dut = check_quiet d (reset_dut d new_dut)

  abbrev pub restarted : d.Dut → Bench d
  restarted new_dut = check_restart d (run_cases d (quiet new_dut) (corner_cases corners))

  -- What makes the count of mismatches end at 0.
  abbrev pub Passes : d.Dut → List Case → Type 0
  Passes dut cs =
      ((quiet dut).mismatches ≡ 0)
      × AllAnswer (quiet dut) (corner_cases corners)
      × ((restarted dut).mismatches ≡ (run_cases d (quiet dut) (corner_cases corners)).mismatches)
      × AllAnswer (restarted dut) cs

  verdict :
      (dut : d.Dut) (cs : List Case)
      → AreOps cs
      → ((run_cases d (restarted dut) cs).mismatches ≡ 0) ↔ Passes dut cs
  verdict dut cs o =
      let q = quiet dut in
      let early = cases-le q (corner_cases corners) in
      let mid = restart-le (run_cases d q (corner_cases corners)) in
      let late = cases-le (restarted dut) cs in
      let (to1, from1) = cases-AllAnswer q (corner_cases corners) (corner_cases-AreOps corners) in
      let (to2, from2) = cases-AllAnswer (restarted dut) cs o in
      (
        λ h. (omega arith, to1 (omega arith), omega arith, to2 (omega arith)),
        λ (z, p, e, r). from2 r ∙ (e ∙ (from1 p ∙ z)),
      )

  -- `main` returns 0 exactly if no mismatch is counted before the first start and in the check of a start
  -- while the device is busy, and in every corner case and every random case the device is done within
  -- 200 cycles of its start and then gives what the instruction computes.
  pub main-Passes :
      (dut : d.Dut) → (main d dut ≡ 0) ↔ Passes dut (random_cases 100000 0x123456789abcdef)
  unfolding main run_all
  main-Passes dut =
      let cs = random_cases 100000 0x123456789abcdef in
      let (to, from) = verdict dut cs (random_cases-AreOps 100000 0x123456789abcdef) in
      let (zero_to, zero_from) = zero_iff (run_cases d (restarted dut) cs).mismatches in
      (λ h. to (zero_to h), λ p. zero_from (from p))
