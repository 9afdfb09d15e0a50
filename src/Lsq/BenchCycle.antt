-- ===== src/Lsq/BenchCycle.antt =====
-- A cycle of the testbench sim/lsq/tb_lsq.cpp, `cycle`: the device compiled from the RTL, a parameter, is
-- driven and checked against the model, and then both go on. The ports of two bits, of three (the
-- slots) and of five (the indices of the reorder buffer) are numbers. `g_time`, which is only counted,
-- is left out.
use rv64_ooo_core.Prelude.{
  ℕ, ◌+◌, ltb, ◌==◌, ◌&&◌, ◌||◌, one_if, if◌then◌else◌, Bool, true, false, not, Option, none, some,
  List, [], ◌∷◌, get_or, bit_and, same,
}
use rv64_ooo_core.Lsq.{DispReq, StoreCommitInfo, peek_dispatch, expected_load_value, new_lq}
use rv64_ooo_core.Lsq.Outcome.{Outcome, ok, failed, ◌>>=◌, ◌>>◌, require, within}
use rv64_ooo_core.Lsq.Bench.{Op, Bench, lqd, sqd, robw, in_bounds, cur_rob_head}

pub record CycleInputs : Type 0 where
  pub disp_valid0 : Bool
  pub disp_valid1 : Bool
  pub disp_is_load0 : Bool
  pub disp_is_load1 : Bool
  pub st_addr_valid : Bool
  pub st_slot : ℕ
  pub st_addr : ℕ
  pub st_size : ℕ
  pub st_data : ℕ
  pub ld_addr_valid : Bool
  pub ld_slot : ℕ
  pub ld_addr : ℕ
  pub ld_size : ℕ
  pub ld_signed : Bool
  pub commit_store : Bool
  pub commit_load : Bool
  pub squash_valid : Bool
  pub squash_rob_idx : ℕ
  pub squash_all : Bool

pub record CycleOutputs : Type 0 where
  pub disp_accept0 : Bool
  pub disp_accept1 : Bool
  pub disp_slot0 : ℕ
  pub disp_slot1 : ℕ
  pub resp_valid : Bool
  pub resp_slot : ℕ
  pub resp_data : ℕ

-- The inputs of the circuit besides those of `CycleInputs`.
pub record Driven : Type 0 where
  pub inputs : CycleInputs
  pub disp_rob_idx0 : ℕ
  pub disp_rob_idx1 : ℕ
  pub rob_head : ℕ

-- The outputs that the testbench reads.
pub record Seen : Type 0 where
  pub disp_ready0 : Bool
  pub disp_ready1 : Bool
  pub disp_lq_idx0 : ℕ
  pub disp_lq_idx1 : ℕ
  pub disp_sq_idx0 : ℕ
  pub disp_sq_idx1 : ℕ
  pub lq_count : ℕ
  pub sq_count : ℕ
  pub dmem_rd_valid : Bool
  pub dmem_rd_addr : ℕ
  pub dmem_rd_size : ℕ
  pub dmem_wr_valid : Bool
  pub dmem_wr_addr : ℕ
  pub dmem_wr_size : ℕ
  pub dmem_wr_data : ℕ
  pub ld_resp_valid : Bool
  pub ld_resp_lq_idx : ℕ
  pub ld_resp_rob_idx : ℕ
  pub ld_resp_data : ℕ

-- What the testbench uses of the Verilated class: its ports, and the evaluation of the circuit. `set_disp`
-- is of a lane; `set_st` and `set_ld` are the ports of a slot, an address, a size, and the data or the sign.
pub record Device : Type 1 where
  pub Dut : Type 0
  pub set_clk : Dut → Bool → Dut
  pub set_rst : Dut → Bool → Dut
  pub set_disp : Dut → ℕ → Bool → Bool → ℕ → Dut
  pub set_rob_head : Dut → ℕ → Dut
  pub set_st_addr_valid : Dut → Bool → Dut
  pub set_st : Dut → ℕ → ℕ → ℕ → ℕ → Dut
  pub set_ld_addr_valid : Dut → Bool → Dut
  pub set_ld : Dut → ℕ → ℕ → ℕ → Bool → Dut
  pub set_commit_store_valid : Dut → Bool → Dut
  pub set_commit_load_valid : Dut → Bool → Dut
  pub set_squash_valid : Dut → Bool → Dut
  pub set_squash_rob_idx : Dut → ℕ → Dut
  pub set_squash_all : Dut → Bool → Dut
  pub set_dmem_rd_data : Dut → ℕ → Dut
  pub eval : Dut → Dut
  pub outputs : Dut → Seen

module _ (d : Device) where
  unfoldable pub tick : d.Dut → d.Dut
  tick dut = d.eval (d.set_clk (d.eval (d.set_clk dut false)) true)

  -- The assignments to the ports at the start of `cycle`.
  unfoldable pub drive : d.Dut → Driven → d.Dut
  drive dut p =
      let i = p.inputs in
      let dut1 =
        d.set_disp (d.set_disp dut 0 i.disp_valid0 i.disp_is_load0 p.disp_rob_idx0) 1 i.disp_valid1
          i.disp_is_load1 p.disp_rob_idx1 in
      let dut2 = d.set_st_addr_valid (d.set_rob_head dut1 p.rob_head) i.st_addr_valid in
      let dut3 = d.set_st dut2 i.st_slot i.st_addr i.st_size i.st_data in
      let dut4 = d.set_ld_addr_valid dut3 i.ld_addr_valid in
      let dut5 = d.set_ld dut4 i.ld_slot i.ld_addr i.ld_size i.ld_signed in
      let dut6 =
        d.set_commit_load_valid (d.set_commit_store_valid dut5 i.commit_store) i.commit_load in
      let dut7 = d.set_squash_rob_idx (d.set_squash_valid dut6 i.squash_valid) i.squash_rob_idx in
      d.set_squash_all dut7 i.squash_all

  -- The assignments in `resetAll`: the requests are taken away, and what they carry stays as it was.
  unfoldable pub withdraw : d.Dut → d.Dut
  withdraw dut =
      let dut1 = d.set_disp (d.set_disp dut 0 false false 0) 1 false false 0 in
      let dut2 = d.set_ld_addr_valid (d.set_st_addr_valid dut1 false) false in
      let dut3 = d.set_commit_load_valid (d.set_commit_store_valid dut2 false) false in
      let dut4 = d.set_squash_all (d.set_squash_valid dut3 false) false in d.set_rob_head dut4 0

unfoldable pub driven : Bench → CycleInputs → Driven
driven t i = record {
  inputs = i;
  disp_rob_idx0 = bit_and t.next_rob_idx 31;
  disp_rob_idx1 = bit_and (t.next_rob_idx + 1) 31;
  rob_head = cur_rob_head t;
}

abbrev pub req0 : Bench → CycleInputs → DispReq
req0 t i = record {
  valid = i.disp_valid0;
  is_load = i.disp_is_load0;
  rob_idx = bit_and t.next_rob_idx 31;
}

abbrev pub req1 : Bench → CycleInputs → DispReq
req1 t i = record {
  valid = i.disp_valid1;
  is_load = i.disp_is_load1;
  rob_idx = bit_and (t.next_rob_idx + 1) 31;
}

-- The slot that the device gives to a request.
abbrev pub slot0 : CycleInputs → Seen → ℕ
slot0 i o = if i.disp_is_load0 then o.disp_lq_idx0 else o.disp_sq_idx0

abbrev pub slot1 : CycleInputs → Seen → ℕ
slot1 i o = if i.disp_is_load1 then o.disp_lq_idx1 else o.disp_sq_idx1

unfoldable pub dispatch_agrees : Bench → CycleInputs → Seen → Bool
dispatch_agrees t i o =
    let p =
      peek_dispatch lqd sqd robw t.model (req0 t i) (req1 t i) (i.squash_valid || i.squash_all) in
    same o.disp_ready0 p.ready0
    && (not (i.disp_valid0 && p.ready0) || (slot0 i o == p.idx0))
    && same o.disp_ready1 p.ready1
    && (not (i.disp_valid1 && p.ready1) || (slot1 i o == p.idx1))

unfoldable pub counts_agree : Bench → Seen → Bool
counts_agree t o = (o.lq_count == t.model.lq_cnt) && (o.sq_count == t.model.sq_cnt)

unfoldable pub store_agrees : StoreCommitInfo → Seen → Bool
store_agrees sc o =
    same o.dmem_wr_valid sc.valid
    && (not sc.valid
        || ((o.dmem_wr_addr == sc.addr)
            && (o.dmem_wr_size == sc.size)
            && (o.dmem_wr_data == sc.store_data)))

-- The operation that a pointer points to.
unfoldable pub find_op : ℕ → List Op → Option Op
find_op id [] = none
find_op id (op ∷ ops) = if op.id == id then some op else find_op id ops

unfoldable pub update_op : ℕ → (Op → Op) → List Op → List Op
update_op id f [] = []
update_op id f (op ∷ ops) = if op.id == id then f op ∷ ops else op ∷ update_op id f ops

-- `if (p) …` of an owner.
unfoldable pub through_owner : Option ℕ → (Op → Op) → List Op → List Op
through_owner none f ops = ops
through_owner (some id) f ops = update_op id f ops

abbrev pub no_outputs : CycleOutputs
no_outputs = record {
  disp_accept0 = false;
  disp_accept1 = false;
  disp_slot0 = 0;
  disp_slot1 = 0;
  resp_valid = false;
  resp_slot = 0;
  resp_data = 0;
}

abbrev after_some : Option ℕ → ℕ → Bool
after_some none cycle = false
after_some (some c) cycle = ltb c cycle

-- `model->expectedLoadValue` for the slot that responds, and the bounds of the memory that it reads.
unfoldable pub expected : Bench → Seen → ℕ × Bool
expected t o = expected_load_value lqd sqd robw t.model o.ld_resp_lq_idx (cur_rob_head t) t.mem

unfoldable pub readable : Bench → Seen → Bool
readable t o =
    let l = get_or t.model.lq o.ld_resp_lq_idx (new_lq 0) in
    (expected t o).1 || in_bounds l.addr l.size

-- What is noted of a response.
unfoldable pub noted : Bool → Op → Bench → Bench
noted used_fwd op t = record t {
  prog = update_op op.id (λ p. record p { resolved = true }) t.prog;
  g_forwards = t.g_forwards + one_if used_fwd;
  g_stalls = t.g_stalls + one_if (after_some op.addr_cycle t.g_cycle);
}

-- The check of a load's response.
unfoldable pub answered : Bench → Seen → Op → Outcome (Bench × ℕ)
answered t o op =
    require (o.ld_resp_rob_idx == op.rob_idx)
    >> (within (readable t o)
        >> (require (o.ld_resp_data == (expected t o).0)
            >> ok (noted (expected t o).1 op t, (expected t o).0)))

abbrev pub response_out : Seen → Bench × ℕ → Outcome (Bench × CycleOutputs)
response_out o (t, exp) =
    ok (t, record no_outputs { resp_valid = true; resp_slot = o.ld_resp_lq_idx; resp_data = exp })

unfoldable pub response_of : Bench → Seen → Option Op → Outcome (Bench × CycleOutputs)
response_of t o none = failed
response_of t o (some op) = answered t o op >>= response_out o

-- The operation that an owner points to.
unfoldable pub owned : Option ℕ → List Op → Option Op
owned none ops = none
owned (some id) ops = find_op id ops

unfoldable pub check_response : Bench → Seen → Outcome (Bench × CycleOutputs)
check_response t o =
    if o.ld_resp_valid
    then response_of t o (owned (get_or t.lq_owner o.ld_resp_lq_idx none) t.prog)
    else ok (t, no_outputs)
