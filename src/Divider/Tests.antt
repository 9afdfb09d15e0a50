-- ===== src/Divider/Tests.antt =====
-- A device that answers the cycle after its start, and the theorem at it.
use rv64_ooo_core.Prelude.{if◌then◌else◌, [], ◌∷◌, refl, ℕ, ◌≡◌, ◌↔◌, arith, Bool, false}
use rv64_ooo_core.Divider.Cases.{all_ops, corner_cases, ops, random_cases, main}
use rv64_ooo_core.Divider.Verdict.{Passes, main-Passes}
use rv64_ooo_core.Divider.{Device, Bench, started, run_case, correct, Answers, run_case_lem}

record Quick : Type 0 where
  pub result : ℕ
  pub start : Bool
  pub finished : Bool

abbrev quick : Device
quick = record {
  Dut = Quick;
  set_rst = λ q v. q;
  set_operands = λ q a b funct3 is_word. record q { result = correct a b funct3 is_word };
  set_start = λ q v. record q { start = v };
  set_clk = λ q b. record q { finished = if b then q.start else q.finished };
  eval = λ q. q;
  busy = λ q. q.start;
  done = λ q. q.finished;
  y = λ q. q.result;
}

abbrev idle : Bench quick
idle = record {
  dut = record { result = 0; start = false; finished = false };
  mismatches = 0;
  cycle_count = 0;
}

run_case_lem_example :
    ((run_case quick idle 7 2 4 false).mismatches ≡ 0)
    ↔ Answers quick (started quick idle 7 2 4 false).dut (correct 7 2 4 false)
run_case_lem_example = run_case_lem quick idle 7 2 4 false (omega arith)

fresh_cases : corner_cases (record { a = 5; b = 3 } ∷ []) ≡ all_ops 5 3 ops []
unfolding corner_cases
fresh_cases = refl

main-Passes_example :
    (main quick idle.dut ≡ 0) ↔ Passes quick idle.dut (random_cases 100000 0x123456789abcdef)
main-Passes_example = main-Passes quick idle.dut
