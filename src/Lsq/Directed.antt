-- ===== src/Lsq/Directed.antt =====
-- The directed tests of sim/lsq/tb_lsq.cpp, with the device as a parameter.
use rv64_ooo_core.Prelude.{
  ℕ, zero, suc, ◌+◌, ◌-◌, ◌*◌, ◌/◌, ◌%◌, ◌^◌, leb, ltb, ◌==◌, ◌&&◌, if◌then◌else◌, Bool, true,
  false, not, List, [], ◌∷◌, ◌++◌,
}
use rv64_ooo_core.Lsq.{bytes_of, extend}
use rv64_ooo_core.Lsq.Outcome.{Outcome, ok, failed, ◌>>=◌, ◌>>◌, require}
use rv64_ooo_core.Lsq.Bench.{Op, lqd}
use rv64_ooo_core.Lsq.BenchCycle.{CycleOutputs, Device}
use rv64_ooo_core.Lsq.BenchApply.{idle, Run, cycle, reset_all}

-- A case of the forwarding matrix: the sizes of the store and of the load, and the offset.
pub record Case : Type 0 where
  pub ss : ℕ
  pub ls : ℕ
  pub off : ℕ

-- The loop over the offsets, of at most `fuel` rounds.
unfoldable pub offsets : ℕ → ℕ → ℕ → ℕ → List Case
offsets zero ss ls off = []
offsets (suc fuel) ss ls off =
    let sbytes = bytes_of ss in
    let lbytes = bytes_of ls in
    let step = if ltb 1 lbytes then lbytes else if ltb 1 sbytes then sbytes - 1 else 1 in
    let rest = offsets fuel ss ls (off + step) in
    if leb (off + lbytes) sbytes
    then (let here : Case = record { ss = ss; ls = ls; off = off } in
        here ∷ (if leb sbytes (off + lbytes) then [] else rest))
    else []

-- The two loops around it; a load is at most as large as the store.
unfoldable pub load_sizes : ℕ → ℕ → List Case
load_sizes ss zero = offsets 8 ss 0 0
load_sizes ss (suc ls) = load_sizes ss ls ++ offsets 8 ss (suc ls) 0

unfoldable pub matrix : List Case
matrix = load_sizes 0 0 ++ load_sizes 1 1 ++ load_sizes 2 2 ++ load_sizes 3 3

-- The loop that looks for the store at a slot, whose last match counts; the `int` -1 as it is passed on.
unfoldable pub rob_of_store : ℕ → List Op → ℕ → ℕ
rob_of_store slot [] found = found
rob_of_store slot (op ∷ ops) found =
    rob_of_store slot ops (if (op.slot == slot) && not op.is_load then op.rob_idx else found)

module _ (d : Device) where
  unfoldable pub idle_cycles : ℕ → Run d → Outcome (Run d)
  idle_cycles zero r = ok r
  idle_cycles (suc n) r = do (r1, _) ← cycle d r idle; idle_cycles n r1

  -- `dispatchOne`, with the tries that are left, 20 at the start.
  unfoldable pub dispatch_tries : ℕ → Bool → Run d → Outcome (Run d × ℕ)
  dispatch_tries zero is_load r = failed
  dispatch_tries (suc tries) is_load r = do
    (r1, out) ← cycle d r (record idle { disp_valid0 = true; disp_is_load0 = is_load })
    let again = dispatch_tries tries is_load r1
    if out.disp_accept0 then ok (r1, out.disp_slot0) else again

  abbrev pub dispatch : Bool → Run d → Outcome (Run d × ℕ)
  dispatch = dispatch_tries 20

  unfoldable pub send_store_addr : ℕ → ℕ → ℕ → ℕ → Run d → Outcome (Run d)
  send_store_addr slot addr size store_data r = do
    (r1, _) ← cycle d r (record idle {
      st_addr_valid = true;
      st_slot = slot;
      st_addr = addr;
      st_size = size;
      st_data = store_data;
    })
    ok r1

  unfoldable pub send_load_addr : ℕ → ℕ → ℕ → Bool → Run d → Outcome (Run d × CycleOutputs)
  send_load_addr slot addr size sgn r = do
    (r1, _) ← cycle d r (record idle {
      ld_addr_valid = true;
      ld_slot = slot;
      ld_addr = addr;
      ld_size = size;
      ld_signed = sgn;
    })
    cycle d r1 idle

  unfoldable pub commit_store : Run d → Outcome (Run d)
  commit_store r = do (r1, _) ← cycle d r (record idle { commit_store = true }); ok r1

  unfoldable pub commit_load : Run d → Outcome (Run d)
  commit_load r = do (r1, _) ← cycle d r (record idle { commit_load = true }); ok r1

  -- A case of `testForwardingMatrix`.
  unfoldable pub matrix_case : ℕ → Case → Run d → Outcome (Run d)
  matrix_case base c r = do
    (r1, store_slot) ← dispatch false r
    (r2, load_slot) ← dispatch true r1
    let store_data : ℕ = 0x8877665544332211
    r3 ← send_store_addr store_slot base c.ss store_data r2
    let sgn = (c.off % 2) == 0
    (r4, out) ← send_load_addr load_slot (base + c.off) c.ls sgn r3
    require out.resp_valid
    let exp = extend (store_data / 2 ^ (c.off * 8)) c.ls sgn
    require (out.resp_data == exp)
    r5 ← commit_store r4
    commit_load r5

  unfoldable pub matrix_cases : ℕ → List Case → Run d → Outcome (Run d)
  matrix_cases base [] r = ok r
  matrix_cases base (c ∷ cs) r = do r1 ← matrix_case base c r; matrix_cases (base + 64) cs r1

  unfoldable pub test_forwarding_matrix : Run d → Outcome (Run d)
  test_forwarding_matrix = matrix_cases 0x1000 matrix

  -- `for (int i = 0; i < 5 && !resolved; i++)`, with the rounds that are left.
  unfoldable pub wait_resolved : ℕ → Run d → Outcome (Run d)
  wait_resolved zero r = failed
  wait_resolved (suc n) r = do
    (r1, out) ← cycle d r idle
    let again = wait_resolved n r1
    if out.resp_valid then ok r1 else again

  unfoldable pub test_partial_overlap_stall : Run d → Outcome (Run d)
  test_partial_overlap_stall r = do
    let base : ℕ = 0x8000
    (r1, store_slot) ← dispatch false r
    (r2, load_slot) ← dispatch true r1
    r3 ← send_store_addr store_slot base 2 0xaabbccdd r2
    (r4, out) ← send_load_addr load_slot (base - 4) 3 false r3
    require (not out.resp_valid)
    r5 ← idle_cycles 5 r4
    r6 ← commit_store r5
    r7 ← wait_resolved 5 r6
    commit_load r7

  unfoldable pub test_unknown_addr_stall : Run d → Outcome (Run d)
  test_unknown_addr_stall r = do
    let base : ℕ = 0x9000
    (r1, store_slot) ← dispatch false r
    (r2, load_slot) ← dispatch true r1
    (r3, out) ← send_load_addr load_slot base 2 false r2
    require (not out.resp_valid)
    r4 ← idle_cycles 4 r3
    r5 ← send_store_addr store_slot (base + 100) 2 0x11223344 r4
    (r6, o2) ← cycle d r5 idle
    require o2.resp_valid
    r7 ← commit_store r6
    commit_load r7

  unfoldable pub test_out_of_order_addr_arrival : Run d → Outcome (Run d)
  test_out_of_order_addr_arrival r = do
    let base : ℕ = 0xa000
    (r1, s1) ← dispatch false r
    (r2, s2) ← dispatch false r1
    (r3, ld) ← dispatch true r2
    r4 ← send_store_addr s2 base 2 0xdeadbeef r3
    (r5, out) ← send_load_addr ld base 2 false r4
    require (not out.resp_valid)
    r6 ← send_store_addr s1 base 2 0x11112222 r5
    (r7, o2) ← cycle d r6 idle
    require o2.resp_valid
    require (o2.resp_data == 0xdeadbeef)
    r8 ← commit_store r7
    r9 ← commit_store r8
    commit_load r9

  -- No response for the load that is gone.
  unfoldable pub no_response : ℕ → ℕ → Run d → Outcome (Run d)
  no_response zero slot r = ok r
  no_response (suc n) slot r = do
    (r1, out) ← cycle d r idle
    require (not (out.resp_valid && (out.resp_slot == slot)))
    no_response n slot r1

  unfoldable pub test_squash : Run d → Outcome (Run d)
  test_squash r = do
    let base : ℕ = 0xb000
    (r1, s1) ← dispatch false r
    r2 ← send_store_addr s1 base 2 1 r1
    r3 ← commit_store r2
    (r4, s2) ← dispatch false r3
    (r5, _) ← dispatch true r4
    (r6, ld2) ← dispatch true r5
    (r7, out) ← send_load_addr ld2 base 2 false r6
    require (not out.resp_valid)
    let s2_rob = rob_of_store s2 r7.bench.prog 0xffffffff
    (r8, _) ← cycle d r7 (record idle { squash_valid = true; squash_rob_idx = s2_rob })
    r9 ← send_store_addr s2 base 2 0x99 r8
    r10 ← no_response 3 ld2 r9
    require ((r10.bench.model.lq_cnt == 0) && (r10.bench.model.sq_cnt == 1))
    commit_store r10

  -- Round `n` of `testWraparound`, with `left` to go.
  unfoldable pub wraparound_loop : ℕ → ℕ → Run d → Outcome (Run d)
  wraparound_loop zero n r = ok r
  wraparound_loop (suc left) n r = do
    (r1, st) ← dispatch false r
    (r2, ld) ← dispatch true r1
    let addr = 0xc000 + n % 4 * 8
    let store_data = 0x100 + n
    r3 ← send_store_addr st addr 3 store_data r2
    (r4, out) ← send_load_addr ld addr 3 false r3
    require (out.resp_valid && (out.resp_data == store_data))
    r5 ← commit_store r4
    r6 ← commit_load r5
    wraparound_loop left (n + 1) r6

  unfoldable pub test_wraparound : Run d → Outcome (Run d)
  test_wraparound = wraparound_loop (lqd * 3) 0

  unfoldable pub directed_tests : Run d → Outcome (Run d)
  directed_tests r = do
    r1 ← test_forwarding_matrix (reset_all d r)
    r2 ← test_partial_overlap_stall (reset_all d r1)
    r3 ← test_unknown_addr_stall (reset_all d r2)
    r4 ← test_out_of_order_addr_arrival (reset_all d r3)
    r5 ← test_squash (reset_all d r4)
    test_wraparound (reset_all d r5)
