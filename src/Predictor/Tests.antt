-- ===== src/Predictor/Tests.antt =====
-- A predictor of 16 counters and 4 targets, the smallest that the testbench is run with, and the
-- theorems at it.
use rv64_ooo_core.Prelude.{
  none, some, replicate, ◌+◌, ℕ, ◌^◌, ◌≤◌, ◌<◌, ◌≡◌, ◌≢◌, refl, arith, true,
}
use rv64_ooo_core.Predictor.{
  RefModel, Prediction, fresh, predict, update, pht_idx, btb_idx, tag, clog2, clog2_loop, lfsr_next,
}
use rv64_ooo_core.Predictor.Clog.{clog2_lem, clog2-none}
use rv64_ooo_core.Predictor.Learning.{IsTable, fresh-IsTable, update_learns, update_spares}

clog2_lem_example :
    (e : ℕ) × (clog2 1000 ≡ some e) × (e ≤ 31) × (1000 ≤ 2 ^ e) × ((k : ℕ) → k < e → 2 ^ k < 1000)
clog2_lem_example = clog2_lem 1000 (omega arith)

ten_bits : clog2 1000 ≡ some 10
unfolding clog2 clog2_loop
ten_bits = refl

too_many : clog2 (2 ^ 31 + 1) ≡ none
too_many = clog2-none (2 ^ 31 + 1) (omega arith)

abbrev small : RefModel
small = record {
  pht_idx_w = 4;
  btb_idx_w = 2;
  pht = replicate 16 1;
  btb_valid = replicate 4 0;
  btb_tag = replicate 4 0;
  btb_target = replicate 4 0;
}

fresh-small : fresh 16 4 20 ≡ some small
unfolding fresh clog2 clog2_loop
fresh-small = refl

small-IsTable : IsTable small
small-IsTable = fresh-IsTable 4 2 20 small (omega arith) (omega arith) fresh-small

learned : Prediction
unfolding predict update pht_idx btb_idx tag
learned = predict 16 4 20 (update 16 4 20 small 0x1000 true 0xf00) 0x1000

learned_is : learned ≡ record { hit = true; taken = true; target = 0xf00 }
unfolding learned
learned_is = refl

lfsr_first : lfsr_next 0xace1 ≡ 0x5670
unfolding lfsr_next
lfsr_first = refl

update_learns_example :
    ((predict 16 4 20 (update 16 4 20 small 0x1000 true 0xf00) 0x1000).hit ≡ true)
    × ((predict 16 4 20 (update 16 4 20 small 0x1000 true 0xf00) 0x1000).target ≡ 0xf00)
    × ((predict 16 4 20
          (update 16 4 20 (update 16 4 20 small 0x1000 true 0xf00) 0x1000 true 0xe00)
          0x1000).hit
        ≡ true)
    × ((predict 16 4 20
          (update 16 4 20 (update 16 4 20 small 0x1000 true 0xf00) 0x1000 true 0xe00)
          0x1000).taken
        ≡ true)
    × ((predict 16 4 20
          (update 16 4 20 (update 16 4 20 small 0x1000 true 0xf00) 0x1000 true 0xe00)
          0x1000).target
        ≡ 0xe00)
update_learns_example = update_learns 16 4 20 small 0x1000 0xf00 0xe00 small-IsTable

other_entry : btb_idx small 0x1000 ≢ btb_idx small 0x1004
unfolding btb_idx
other_entry e = omega (arith, e)

update_spares_example :
    ((predict 16 4 20 (update 16 4 20 small 0x1000 true 0xf00) 0x1004).hit
      ≡ (predict 16 4 20 small 0x1004).hit)
    × ((predict 16 4 20 (update 16 4 20 small 0x1000 true 0xf00) 0x1004).target
        ≡ (predict 16 4 20 small 0x1004).target)
update_spares_example =
    update_spares 16 4 20 small 0x1000 0x1004 true 0xf00 small-IsTable other_entry
