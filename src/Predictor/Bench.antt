-- ===== src/Predictor/Bench.antt =====
-- The testbench of the branch predictor, `main` of sim/bp/tb_bp.cpp: the device compiled from the RTL, a
-- parameter, predicts each branch of a trace beside `RefModel`, and both are then updated. The counters are
-- numbers: a trace has fewer than 2^64 events.
use rv64_ooo_core.Prelude.{
  ℕ, zero, suc, ◌+◌, ◌*◌, leb, ◌==◌, if◌then◌else◌, Bool, true, false, not, ◌&&◌, ◌||◌, List, [],
  ◌∷◌, same, Option, some, ◌>>=◌,
}
use rv64_ooo_core.Predictor.{RefModel, Prediction, Event, fresh, predict, update, build_trace}

-- What the testbench uses of the Verilated class.
pub record Device : Type 1 where
  pub Dut : Type 0
  pub set_rst : Dut → Bool → Dut
  pub set_clk : Dut → Bool → Dut
  pub set_pred_pc : Dut → ℕ → Dut
  pub set_upd_valid : Dut → Bool → Dut
  pub set_upd : Dut → ℕ → Bool → ℕ → Dut
  pub eval : Dut → Dut
  pub seen : Dut → Prediction

pub record Counts : Type 0 where
  pub loop_total : ℕ
  pub loop_dir_correct : ℕ
  pub loop_mismatch : ℕ
  pub loop_btb_hits : ℕ
  pub loop_btb_checked : ℕ
  pub rand_total : ℕ
  pub rand_dir_correct : ℕ
  pub rand_mismatch : ℕ
  pub event_idx : ℕ

abbrev pub no_counts : Counts
no_counts = record {
  loop_total = 0;
  loop_dir_correct = 0;
  loop_mismatch = 0;
  loop_btb_hits = 0;
  loop_btb_checked = 0;
  rand_total = 0;
  rand_dir_correct = 0;
  rand_mismatch = 0;
  event_idx = 0;
}

-- The comparison of a prediction of the device with one of the model.
unfoldable pub mismatch : Prediction → Prediction → Bool
mismatch dut exp =
    not (same dut.hit exp.hit)
    || (not (same dut.taken exp.taken)
        || ((exp.hit && not (dut.target == exp.target)) || (not dut.hit && dut.taken)))

abbrev pub plus_if : Bool → ℕ → ℕ
plus_if b n = if b then n + 1 else n

-- The counters of a mismatch, and those of how well the device predicts.
unfoldable pub count_mismatch : Event → Bool → Counts → Counts
count_mismatch e wrong c = record c {
  loop_mismatch = plus_if (wrong && e.is_loop_stream) c.loop_mismatch;
  rand_mismatch = plus_if (wrong && not e.is_loop_stream) c.rand_mismatch;
}

unfoldable pub score : Event → Prediction → Prediction → Counts → Counts
score e dut exp c =
    let warm = leb 100 c.event_idx in
    if e.is_loop_stream
    then record c {
      loop_total = c.loop_total + 1;
      loop_dir_correct =
          plus_if (same dut.hit exp.hit && same dut.taken e.taken) c.loop_dir_correct;
      loop_btb_checked = plus_if warm c.loop_btb_checked;
      loop_btb_hits = plus_if (warm && dut.hit) c.loop_btb_hits;
    }
    else record c {
      rand_total = c.rand_total + 1;
      rand_dir_correct = plus_if (same dut.taken e.taken) c.rand_dir_correct;
    }

unfoldable pub counted_event : Event → Prediction → Prediction → Counts → Counts
counted_event e dut exp c =
    let c1 = score e dut exp (count_mismatch e (mismatch dut exp) c) in
    record c1 { event_idx = c1.event_idx + 1 }

-- `100.0 * part / whole >= percent` of two counters below 2^53 / 100, where the quotient of doubles is at
-- least a number of percent exactly if that of the counters is; with nothing counted it is not a number.
unfoldable pub rate_reaches : ℕ → ℕ → ℕ → Bool
rate_reaches part whole percent = not (whole == 0) && leb (percent * whole) (100 * part)

unfoldable pub total_mismatch : Counts → ℕ
total_mismatch c = c.loop_mismatch + c.rand_mismatch

unfoldable pub pass : Counts → Bool
pass c =
    (total_mismatch c == 0)
    && (rate_reaches c.loop_dir_correct c.loop_total 85
        && rate_reaches c.loop_btb_hits c.loop_btb_checked 99)

module _ (d : Device) where
  -- The variables of `main`.
  pub record Bench : Type 0 where
    pub dut : d.Dut
    pub model : RefModel
    pub counts : Counts

  -- The device with a branch to predict.
  unfoldable pub predicting : d.Dut → Event → d.Dut
  predicting dut e = d.eval (d.set_pred_pc dut e.pc)

  -- The update of the device on a rising edge.
  unfoldable pub updated : d.Dut → Event → d.Dut
  updated dut e =
      let ready = d.set_upd (d.set_upd_valid dut true) e.pc e.taken e.target in
      let clocked = d.eval (d.set_clk (d.eval (d.set_clk ready true)) false) in
      d.set_upd_valid clocked false

  -- `dut->clk = !dut->clk; dut->eval();`, a number of times.
  unfoldable pub toggle_loop : ℕ → Bool → d.Dut → d.Dut
  toggle_loop zero clk dut = dut
  toggle_loop (suc left) clk dut = toggle_loop left (not clk) (d.eval (d.set_clk dut (not clk)))

  unfoldable pub reset_dut : d.Dut → d.Dut
  reset_dut dut =
      let held = d.set_pred_pc (d.set_upd_valid (d.set_clk (d.set_rst dut true) false) false) 0 in
      d.set_rst (toggle_loop 4 false held) false

module _ (pht_entries btb_entries tag_bits : ℕ) (d : Device) where
  unfoldable pub run_event : Bench d → Event → Bench d
  run_event t e =
      let dut = predicting d t.dut e in
      let exp = predict pht_entries btb_entries tag_bits t.model e.pc in
      record {
        dut = updated d dut e;
        model = update pht_entries btb_entries tag_bits t.model e.pc e.taken e.target;
        counts = counted_event e (d.seen dut) exp t.counts;
      }

  unfoldable pub run_events : Bench d → List Event → Bench d
  run_events t [] = t
  run_events t (e ∷ es) = run_events (run_event t e) es

  -- `main` with the model, on a new device: what it returns.
  unfoldable pub verdict : d.Dut → RefModel → ℕ
  verdict new_dut model =
      let t =
        run_events (record { dut = reset_dut d new_dut; model = model; counts = no_counts })
          build_trace in
      if pass t.counts then 0 else 1

  -- `main`; it returns nothing where a number of entries is beyond `clog2`.
  unfoldable pub main : d.Dut → Option ℕ
  main new_dut = do model ← fresh pht_entries btb_entries tag_bits; some (verdict new_dut model)
