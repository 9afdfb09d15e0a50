-- ===== src/Lsq/BenchApply.antt =====
-- The second half of `cycle` of sim/lsq/tb_lsq.cpp: what the cycle does to the model, to the operations in
-- program order and to the memory.
use rv64_ooo_core.Prelude.{
  ℕ, ◌+◌, ltb, ◌&&◌, one_if, if◌then◌else◌, Bool, true, false, Option, none, some, List, [], ◌∷◌,
  ◌++◌, get_or, set, replicate, bit_and,
}
use rv64_ooo_core.Lsq.{
  DispReq, Peek, StoreCommitInfo, age, bytes_of, peek_store_commit, apply_dispatch,
  apply_store_addr, apply_load_addr, apply_commit, apply_squash,
}
use rv64_ooo_core.Lsq.Outcome.{Outcome, ok, failed, ◌>>=◌, ◌>>◌, require, within}
use rv64_ooo_core.Lsq.Bench.{
  Op, CommitLogEntry, Bench, lqd, sqd, robw, in_bounds, read_bytes, written, cur_rob_head,
  reset_bench,
}
use rv64_ooo_core.Lsq.BenchCycle.{
  CycleInputs, CycleOutputs, Seen, Device, tick, drive, withdraw, driven, req0, req1, slot0, slot1,
  dispatch_agrees, counts_agree, store_agrees, through_owner, check_response,
}

-- A request that the device takes joins the program order.
unfoldable pub accept : DispReq → Bool → ℕ → Bench → Bench
accept req ready slot t =
    if req.valid && ready
    then record t {
      prog =
          t.prog
          ++ (record {
            id = t.next_id;
            is_load = req.is_load;
            rob_idx = req.rob_idx;
            slot = slot;
            addr_set = false;
            addr_cycle = none;
            resolved = false;
          }
              ∷ []);
      lq_owner = if req.is_load then set t.lq_owner slot (some t.next_id) else t.lq_owner;
      sq_owner = if req.is_load then t.sq_owner else set t.sq_owner slot (some t.next_id);
      next_id = t.next_id + 1;
    }
    else t

unfoldable pub dispatched : CycleInputs → Seen → Bench → Bench
dispatched i o t =
    let answer : Peek = record {
      ready0 = o.disp_ready0;
      ready1 = o.disp_ready1;
      idx0 = slot0 i o;
      idx1 = slot1 i o;
    } in
    let r0 = req0 t i in
    let r1 = req1 t i in
    let t1 = record t { model = apply_dispatch lqd sqd robw t.model r0 r1 answer } in
    let t2 = accept r1 o.disp_ready1 (slot1 i o) (accept r0 o.disp_ready0 (slot0 i o) t1) in
    let accepted = one_if (r0.valid && o.disp_ready0) + one_if (r1.valid && o.disp_ready1) in
    record t2 { next_rob_idx = bit_and (t.next_rob_idx + accepted) 31 }

unfoldable pub store_addressed : CycleInputs → Bench → Bench
store_addressed i t =
    if i.st_addr_valid
    then record t {
      model = apply_store_addr lqd sqd robw t.model i.st_slot i.st_addr i.st_size i.st_data;
      prog =
          through_owner (get_or t.sq_owner i.st_slot none) (λ p. record p { addr_set = true })
            t.prog;
    }
    else t

unfoldable pub load_addressed : CycleInputs → Bench → Bench
load_addressed i t =
    if i.ld_addr_valid
    then record t {
      model = apply_load_addr lqd sqd robw t.model i.ld_slot i.ld_addr i.ld_size i.ld_signed;
      prog =
          through_owner (get_or t.lq_owner i.ld_slot none)
            (λ p. record p { addr_set = true; addr_cycle = some t.g_cycle }) t.prog;
    }
    else t

-- The store that the model commits goes to memory and to the log.
unfoldable pub memory_written : StoreCommitInfo → Bench → Outcome Bench
memory_written sc t =
    if sc.valid
    then (let e : CommitLogEntry = record {
      addr = sc.addr;
      size = sc.size;
      store_data = sc.store_data;
    } in
        within (in_bounds sc.addr sc.size)
        >> ok (record t { mem = written t.mem e; g_commit_log = e ∷ t.g_commit_log }))
    else ok t

-- The front of the program order leaves it; `want_load` is what it must be.
unfoldable pub retired : Bool → List Op → Bench → Outcome Bench
retired want_load [] t = failed
retired true (op ∷ rest) t =
    if op.is_load
    then ok (record t { prog = rest; lq_owner = set t.lq_owner op.slot none })
    else failed
retired false (op ∷ rest) t =
    if op.is_load
    then failed
    else ok (record t { prog = rest; sq_owner = set t.sq_owner op.slot none })

unfoldable pub retire_if : Bool → Bool → Bench → Outcome Bench
retire_if true want_load t = retired want_load t.prog t
retire_if false want_load t = ok t

-- The commits in the model, and those of the front of the program order.
unfoldable pub after_write : CycleInputs → Bench → Outcome Bench
after_write i t =
    retire_if i.commit_store false
      (record t { model = apply_commit lqd sqd robw t.model i.commit_store i.commit_load })
    >>= retire_if i.commit_load true

unfoldable pub committed : CycleInputs → StoreCommitInfo → Bench → Outcome Bench
committed i sc t = memory_written sc t >>= after_write i

-- The owners of the two queues.
pub record Owners : Type 0 where
  pub lq : List (Option ℕ)
  pub sq : List (Option ℕ)

unfoldable pub disown : Op → Owners → Owners
disown op w =
    if op.is_load
    then record w { lq = set w.lq op.slot none }
    else record w { sq = set w.sq op.slot none }

-- The loop that pops operations from the back while they are younger than `b`.
unfoldable pub pop_younger : (ℕ → ℕ) → ℕ → Op → List Op × Owners → List Op × Owners
pop_younger age_of b op ([], w) =
    if ltb b (age_of op.rob_idx) then ([], disown op w) else (op ∷ [], w)
pop_younger age_of b op (x ∷ xs, w) = (op ∷ x ∷ xs, w)

unfoldable pub squash_ops : (ℕ → ℕ) → ℕ → List Op → Owners → List Op × Owners
squash_ops age_of b [] w = ([], w)
squash_ops age_of b (op ∷ ops) w = pop_younger age_of b op (squash_ops age_of b ops w)

unfoldable pub squashed : CycleInputs → ℕ → Bench → Bench
squashed i rob_head t =
    if i.squash_all
    then record t {
      model = apply_squash lqd sqd robw t.model false 0 true rob_head;
      prog = [];
      lq_owner = replicate lqd none;
      sq_owner = replicate sqd none;
    }
    else if i.squash_valid
    then (let age_of = λ (idx : ℕ). age lqd sqd robw idx rob_head in
        let (prog, w) =
          squash_ops age_of (age_of i.squash_rob_idx) t.prog
            (record { lq = t.lq_owner; sq = t.sq_owner }) in
        record t {
          model = apply_squash lqd sqd robw t.model true i.squash_rob_idx false rob_head;
          prog = prog;
          lq_owner = w.lq;
          sq_owner = w.sq;
        })
    else t

unfoldable pub after_commit : CycleInputs → ℕ → Bench → Outcome Bench
after_commit i rob_head t =
    let t1 = squashed i rob_head t in ok (record t1 { g_cycle = t1.g_cycle + 1 })

-- All the mutations, in their order.
unfoldable pub applied : CycleInputs → Seen → StoreCommitInfo → ℕ → Bench → Outcome Bench
applied i o sc rob_head t =
    committed i sc (load_addressed i (store_addressed i (dispatched i o t)))
    >>= after_commit i rob_head

unfoldable pub accepted_outputs : CycleInputs → Seen → CycleOutputs → CycleOutputs
accepted_outputs i o out =
    let taken0 = i.disp_valid0 && o.disp_ready0 in
    let taken1 = i.disp_valid1 && o.disp_ready1 in
    record out {
      disp_accept0 = taken0;
      disp_accept1 = taken1;
      disp_slot0 = if taken0 then slot0 i o else 0;
      disp_slot1 = if taken1 then slot1 i o else 0;
    }

abbrev pub with_outputs : CycleOutputs → Bench → Outcome (Bench × CycleOutputs)
with_outputs out t = ok (t, out)

unfoldable pub after_checks :
    CycleInputs → Seen → StoreCommitInfo → ℕ → Bench × CycleOutputs → Outcome (Bench × CycleOutputs)
after_checks i o sc rob_head (t, out) =
    applied i o sc rob_head t >>= with_outputs (accepted_outputs i o out)

-- `CycleInputs{}`
unfoldable pub idle : CycleInputs
idle = record {
  disp_valid0 = false;
  disp_valid1 = false;
  disp_is_load0 = false;
  disp_is_load1 = false;
  st_addr_valid = false;
  st_slot = 0;
  st_addr = 0;
  st_size = 0;
  st_data = 0;
  ld_addr_valid = false;
  ld_slot = 0;
  ld_addr = 0;
  ld_size = 0;
  ld_signed = false;
  commit_store = false;
  commit_load = false;
  squash_valid = false;
  squash_rob_idx = 0;
  squash_all = false;
}

-- The cycle from what is seen of the device on: the checks, and then the mutations.
unfoldable pub observe : Bench → CycleInputs → Seen → Outcome (Bench × CycleOutputs)
observe t i o =
    let sc = peek_store_commit lqd sqd robw t.model i.commit_store in
    require (dispatch_agrees t i o && counts_agree t o && store_agrees sc o)
    >> (check_response t o >>= after_checks i o sc (cur_rob_head t))

-- The memory answers the read that the device makes.
unfoldable pub memory_answer : Bench → Seen → Outcome ℕ
memory_answer t o =
    if o.dmem_rd_valid
    then (within (in_bounds o.dmem_rd_addr o.dmem_rd_size)
        >> ok (read_bytes t.mem o.dmem_rd_addr (bytes_of o.dmem_rd_size) 0 0))
    else ok 0

module _ (d : Device) where
  pub record Run : Type 0 where
    pub dut : d.Dut
    pub bench : Bench

  unfoldable pub reset_all : Run → Run
  reset_all r = record {
    dut = d.eval (d.set_rst (tick d (withdraw d (d.set_rst r.dut true))) false);
    bench = reset_bench r.bench;
  }

  abbrev pub with_dut : d.Dut → Bench × CycleOutputs → Outcome (Run × CycleOutputs)
  with_dut dut (t, out) = ok (record { dut = dut; bench = t }, out)

  unfoldable pub observed : d.Dut → Bench → CycleInputs → Outcome (Run × CycleOutputs)
  observed dut t i = observe t i (d.outputs dut) >>= with_dut (tick d dut)

  unfoldable pub answered_read : d.Dut → Bench → CycleInputs → ℕ → Outcome (Run × CycleOutputs)
  answered_read dut t i read = observed (d.eval (d.set_dmem_rd_data dut read)) t i

  unfoldable pub cycle : Run → CycleInputs → Outcome (Run × CycleOutputs)
  cycle r i =
      let dut = d.eval (drive d r.dut (driven r.bench i)) in
      memory_answer r.bench (d.outputs dut) >>= answered_read dut r.bench i

  -- Several cycles, up to the first check that fails.
  unfoldable pub cycles : Run → List CycleInputs → Outcome Run
  cycles r [] = ok r
  cycles r (i ∷ is) = cycle r i >>= λ y. cycles y.0 is
