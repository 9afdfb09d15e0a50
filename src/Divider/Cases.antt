-- ===== src/Divider/Cases.antt =====
-- The cases of sim/muldiv/tb_muldiv.cpp, and its `main`.
use rv64_ooo_core.Prelude.{
  ℕ, zero, suc, ◌+◌, ◌-◌, ◌^◌, ◌%◌, ◌==◌, bit_and, if◌then◌else◌, Bool, true, false, not, List, [],
  ◌∷◌,
}
use rv64_ooo_core.Iss.SingleStep.{golden}
use rv64_ooo_core.Divider.{next_rand, Device, Bench, tick, wait_loop, started, run_case}

-- The arguments of `run_case`.
pub record Case : Type 0 where
  pub a : ℕ
  pub b : ℕ
  pub funct3 : ℕ
  pub is_word : Bool

-- `for (int w = 0; w < 2; w++)`, under the loop over the operations.
unfoldable pub both_widths : ℕ → ℕ → ℕ → List Case → List Case
both_widths a b op rest =
    record { a = a; b = b; funct3 = op; is_word = false }
    ∷ record { a = a; b = b; funct3 = op; is_word = true }
    ∷ rest

unfoldable pub all_ops : ℕ → ℕ → List ℕ → List Case → List Case
all_ops a b [] rest = rest
all_ops a b (op ∷ ops) rest = both_widths a b op (all_ops a b ops rest)

abbrev pub ops : List ℕ
ops = 0 ∷ 1 ∷ 2 ∷ 3 ∷ 4 ∷ 5 ∷ 6 ∷ 7 ∷ []

abbrev pub ones : ℕ
ones = 2 ^ 64 - 1

pub record Corner : Type 0 where
  pub a : ℕ
  pub b : ℕ

unfoldable pub corners : List Corner
corners =
    record { a = 0; b = 0 }
    ∷ record { a = 42; b = 0 }
    ∷ record { a = 0; b = 1 }
    ∷ record { a = 1; b = 0 }
    ∷ record { a = ones; b = 1 }
    ∷ record { a = 1; b = ones }
    ∷ record { a = 0x8000000000000000; b = 0xffffffffffffffff }
    ∷ record { a = 0xffffffff80000000; b = 0xffffffffffffffff }
    ∷ record { a = 0xffffffffffffffff; b = 0xffffffffffffffff }
    ∷ record { a = 0xffffffffffffffff; b = 0x0000000000000001 }
    ∷ record { a = 0x7fffffffffffffff; b = 0xffffffffffffffff }
    ∷ []

unfoldable pub corner_cases : List Corner → List Case
corner_cases [] = []
corner_cases (c ∷ cs) = all_ops c.a c.b ops (corner_cases cs)

-- The random cases: the generator does not depend on the device.
unfoldable pub random_cases : ℕ → ℕ → List Case
random_cases zero state = []
random_cases (suc n) state =
    let a = next_rand state in
    let b = next_rand a in
    let r = next_rand b in
    let w = next_rand r in
    record { a = a; b = b; funct3 = r % 8; is_word = not (bit_and w 1 == 0) } ∷ random_cases n w

module _ (d : Device) where
  unfoldable pub run_cases : Bench d → List Case → Bench d
  run_cases t [] = t
  run_cases t (c ∷ cs) = run_cases (run_case d t c.a c.b c.funct3 c.is_word) cs

  unfoldable pub failed_if : Bool → Bench d → Bench d
  failed_if wrong t = if wrong then record t { mismatches = t.mismatches + 1 } else t

  unfoldable pub reset_dut : d.Dut → Bench d
  reset_dut dut =
      let held = d.set_operands (d.set_start (d.set_rst dut true) false) 0 0 0 false in
      let t = tick d (record { dut = held; mismatches = 0; cycle_count = 0 }) in
      record t { dut = d.set_rst t.dut false }

  -- Nothing is busy or done before a start.
  unfoldable pub check_quiet : Bench d → Bench d
  check_quiet t0 =
      let t = tick d t0 in let t1 = failed_if (d.busy t.dut) t in failed_if (d.done t1.dut) t1

  -- A start while the device is busy.
  unfoldable pub check_restart : Bench d → Bench d
  check_restart t =
      let t1 = tick d (started d t 0x123456789abcdef0 7 4 false) in
      let t2 = failed_if (not (d.busy t1.dut)) t1 in
      let t3 = wait_loop d 200 (started d t2 999 3 5 false) in
      let expect = golden 0x123456789abcdef0 7 4 false in
      tick d (failed_if (not (d.y t3.dut == expect)) t3)

  -- `main`, on a new device: what it returns.
  unfoldable pub run_all : d.Dut → Bench d
  run_all new_dut =
      run_cases (check_restart (run_cases (check_quiet (reset_dut new_dut)) (corner_cases corners)))
        (random_cases 100000 0x123456789abcdef)

  unfoldable pub main : d.Dut → ℕ
  main new_dut = if (run_all new_dut).mismatches == 0 then 0 else 1
