-- ===== src/Rename/Bench.antt =====
-- The testbench of the rename unit, sim/rename/tb_rename.cpp: a cycle driven through the device compiled
-- from the RTL, a parameter, and through the model, with the checks made of both. `exit(1)` is `none`.
use rv64_ooo_core.Prelude.{
  ℕ, ◌+◌, ◌==◌, if◌then◌else◌, Bool, true, false, not, ◌&&◌, Option, some, List, [], ◌∷◌, length,
  ◌>>=◌, ◌>>◌, require, same,
}
use rv64_ooo_core.Prelude.Occurrences.{contains, insert, erase, to_set, all}
use rv64_ooo_core.Prelude.Word.{ℤ, pos, negsuc, u8, u64}
use rv64_ooo_core.Rename.{Inputs, Outputs, Rename, step, reset, free_list_contents}

-- What the testbench uses of the Verilated class: its ports, and the evaluation of the circuit.
pub record Device : Type 1 where
  pub Dut : Type 0
  pub set_inputs : Dut → Inputs → Dut
  pub set_rst : Dut → Bool → Dut
  pub set_clk : Dut → Bool → Dut
  pub eval : Dut → Dut
  pub outputs : Dut → Outputs

-- The values that the ports take in `apply`; a port of several bits is a byte of the class.
unfoldable pub port_values : Inputs → Inputs
port_values i = record {
  valid0 = i.valid0;
  rs1_0 = u8 i.rs1_0;
  rs2_0 = u8 i.rs2_0;
  rd0 = u8 i.rd0;
  is_branch0 = i.is_branch0;
  ckpt_take0 = i.ckpt_take0;
  valid1 = i.valid1;
  rs1_1 = u8 i.rs1_1;
  rs2_1 = u8 i.rs2_1;
  rd1 = u8 i.rd1;
  is_branch1 = i.is_branch1;
  ckpt_take1 = i.ckpt_take1;
  restore_valid = i.restore_valid;
  restore_ckpt_id = u8 i.restore_ckpt_id;
  commit_valid0 = i.commit_valid0;
  commit_prev_prd0 = u8 i.commit_prev_prd0;
  commit_ckpt_release0 = i.commit_ckpt_release0;
  commit_valid1 = i.commit_valid1;
  commit_prev_prd1 = u8 i.commit_prev_prd1;
  commit_ckpt_release1 = i.commit_ckpt_release1;
}

-- `RenameInputs{}`
unfoldable pub idle : Inputs
idle = record {
  valid0 = false;
  valid1 = false;
  rs1_0 = 0;
  rs2_0 = 0;
  rd0 = 0;
  rs1_1 = 0;
  rs2_1 = 0;
  rd1 = 0;
  is_branch0 = false;
  is_branch1 = false;
  ckpt_take0 = false;
  ckpt_take1 = false;
  restore_valid = false;
  restore_ckpt_id = 0;
  commit_valid0 = false;
  commit_valid1 = false;
  commit_prev_prd0 = 0;
  commit_prev_prd1 = 0;
  commit_ckpt_release0 = false;
  commit_ckpt_release1 = false;
}

abbrev pub same_ℤ : ℤ → ℤ → Bool
same_ℤ (pos a) (pos b) = a == b
same_ℤ (negsuc a) (negsuc b) = a == b
same_ℤ _ _ = false

-- The comparisons `chk` of the device's outputs with the model's.
unfoldable pub all_equal : Outputs → Outputs → Bool
all_equal rtl mdl =
    (rtl.prs1_0 == mdl.prs1_0)
    && (rtl.prs2_0 == mdl.prs2_0)
    && (rtl.prd0 == mdl.prd0)
    && (rtl.prev_prd0 == mdl.prev_prd0)
    && (rtl.ckpt_id0 == mdl.ckpt_id0)
    && same rtl.rename_ready0 mdl.rename_ready0
    && (rtl.prs1_1 == mdl.prs1_1)
    && (rtl.prs2_1 == mdl.prs2_1)
    && (rtl.prd1 == mdl.prd1)
    && (rtl.prev_prd1 == mdl.prev_prd1)
    && (rtl.ckpt_id1 == mdl.ckpt_id1)
    && same rtl.rename_ready1 mdl.rename_ready1
    && (rtl.free_count == mdl.free_count)
    && same_ℤ rtl.ckpt_free_count mdl.ckpt_free_count

-- `check_invariants`, of the model and the set of registers in flight.
unfoldable pub check_invariants : Rename → List ℕ → Bool
check_invariants s inflight =
    let fl = free_list_contents s in
    let fl_set = to_set fl in
    let mapped = to_set s.map in
    (length fl_set == length fl)
    && all (λ p. not (contains p mapped)) fl
    && all (λ p. not (contains p fl_set) && not (contains p mapped)) inflight
    && (length fl + length mapped + length inflight == 64)

module _ (d : Device) where
  -- The variables of the file.
  pub record Bench : Type 0 where
    pub dut : d.Dut
    pub model : Rename
    pub tick : ℕ
    pub g_inflight : List ℕ

  -- The device with the inputs of a cycle, its outputs settled.
  unfoldable pub settled : d.Dut → Inputs → d.Dut
  settled dut i = d.eval (d.set_clk (d.set_inputs dut (port_values i)) false)

  unfoldable pub rising_edge : d.Dut → d.Dut
  rising_edge dut = d.eval (d.set_clk dut true)

  unfoldable pub step_and_check : Bench → Inputs → Option (Bench × Outputs)
  step_and_check t i =
      let dut = settled t.dut i in
      let (model, mo) = step t.model i in
      do
        require (all_equal (d.outputs dut) mo)
        some (record t { dut = rising_edge dut; model = model; tick = u64 (t.tick + 1) }, mo)

  abbrev pulse : Bench → Bench
  pulse t = record t { dut = rising_edge (d.eval (d.set_clk t.dut false)); tick = u64 (t.tick + 1) }

  unfoldable pub reset_dut : Bench → Bench
  reset_dut t =
      let t1 = record t { dut = d.set_inputs (d.set_rst t.dut true) (port_values idle) } in
      let t2 = pulse (pulse (pulse t1)) in
      record t2 { dut = d.set_rst t2.dut false; model = reset; g_inflight = [] }

-- What `do_cycle` makes of the registers in flight.
unfoldable pub displaced : Inputs → Outputs → List ℕ → List ℕ
displaced i o inflight =
    if o.rename_ready0
    then (let inflight0 =
          if i.valid0 && not (i.rd0 == 0) then insert o.prev_prd0 inflight else inflight in
        if i.valid1 && not (i.rd1 == 0) then insert o.prev_prd1 inflight0 else inflight0)
    else inflight

unfoldable pub committed : Inputs → List ℕ → List ℕ
committed i inflight =
    let inflight0 =
      if i.commit_valid0 && not (i.commit_prev_prd0 == 0)
      then erase i.commit_prev_prd0 inflight
      else inflight in
    if i.commit_valid1 && not (i.commit_prev_prd1 == 0)
    then erase i.commit_prev_prd1 inflight0
    else inflight0

module _ (d : Device) where
  unfoldable pub do_cycle : Bench d → Inputs → Option (Bench d × Outputs)
  do_cycle t i = do
    (t1, o) ← step_and_check d t i
    let inflight = committed i (displaced i o t1.g_inflight)
    require (check_invariants t1.model inflight)
    some (record t1 { g_inflight = inflight }, o)

  -- Several cycles, stopped at the first check that fails.
  unfoldable pub do_cycles : Bench d → List Inputs → Option (Bench d)
  do_cycles t [] = some t
  do_cycles t (i ∷ is) = do (t1, o) ← do_cycle t i; do_cycles t1 is
