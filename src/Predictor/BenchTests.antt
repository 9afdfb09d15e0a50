-- ===== src/Predictor/BenchTests.antt =====
-- A device that is the model itself, and the testbench of the predictor at it.
use rv64_ooo_core.Prelude.{
  some, replicate, ℕ, ◌≡◌, ◌↔◌, refl, Bool, false, not, ◌&&◌, if◌then◌else◌, List, [], ◌∷◌,
}
use rv64_ooo_core.Predictor.{
  RefModel, Event, forward, fresh, predict, update, pht_idx, btb_idx, tag, clog2, clog2_loop,
}
use rv64_ooo_core.Predictor.Bench.{
  Device, Bench, no_counts, mismatch, count_mismatch, score, counted_event, total_mismatch,
  predicting, updated, run_event, run_events,
}
use rv64_ooo_core.Predictor.Conformance.{Conforms, run_events-Conforms}

-- The tables and the input ports; `was_high` is the clock of the evaluation before.
record Twin : Type 0 where
  pub tables : RefModel
  pub pred_pc : ℕ
  pub upd_valid : Bool
  pub upd_pc : ℕ
  pub upd_taken : Bool
  pub upd_target : ℕ
  pub clk : Bool
  pub was_high : Bool

-- A rising edge takes an update that is valid.
evaluated : Twin → Twin
evaluated w =
    let after = update 16 4 20 w.tables w.upd_pc w.upd_taken w.upd_target in
    record w {
      tables = if w.clk && (not w.was_high && w.upd_valid) then after else w.tables;
      was_high = w.clk;
    }

abbrev twin : Device
twin = record {
  Dut = Twin;
  set_rst = λ w b. w;
  set_clk = λ w b. record w { clk = b };
  set_pred_pc = λ w pc. record w { pred_pc = pc };
  set_upd_valid = λ w b. record w { upd_valid = b };
  set_upd = λ w pc taken target. record w { upd_pc = pc; upd_taken = taken; upd_target = target };
  eval = evaluated;
  seen = λ w. predict 16 4 20 w.tables w.pred_pc;
}

abbrev small : RefModel
small = record {
  pht_idx_w = 4;
  btb_idx_w = 2;
  pht = replicate 16 1;
  btb_valid = replicate 4 0;
  btb_tag = replicate 4 0;
  btb_target = replicate 4 0;
}

fresh-small : fresh 16 4 20 ≡ some small
unfolding fresh clog2 clog2_loop
fresh-small = refl

abbrev start : Bench twin
start = record {
  dut = record {
    tables = small;
    pred_pc = 0;
    upd_valid = false;
    upd_pc = 0;
    upd_taken = false;
    upd_target = 0;
    clk = false;
    was_high = false;
  };
  model = small;
  counts = no_counts;
}

abbrev three_events : List Event
three_events =
    forward 0x1004 0x2100
    ∷ forward 0x1004 0x2100
    ∷ record { pc = 0x1004; taken = false; target = 0; is_loop_stream = false }
    ∷ []

none_wrong : total_mismatch (run_events 16 4 20 twin start three_events).counts ≡ 0
unfolding total_mismatch run_events run_event predicting updated evaluated counted_event score
    count_mismatch mismatch predict update pht_idx btb_idx tag
none_wrong = refl

-- The second branch is predicted, the first and the third are not.
two_right : (run_events 16 4 20 twin start three_events).counts.loop_dir_correct ≡ 1
unfolding run_events run_event predicting updated evaluated counted_event score count_mismatch
    mismatch predict update pht_idx btb_idx tag
two_right = refl

run_events-Conforms_example :
    (total_mismatch (run_events 16 4 20 twin start three_events).counts
      ≡ total_mismatch start.counts)
    ↔ Conforms 16 4 20 twin start.dut start.model three_events
run_events-Conforms_example = run_events-Conforms 16 4 20 twin start three_events
