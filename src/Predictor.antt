-- ===== src/Predictor.antt =====
-- The reference branch predictor of sim/bp/tb_bp.cpp: a table of two-bit counters and a branch target
-- buffer; and the stream of branches that the testbench feeds it. The macros PHT_ENTRIES, BTB_ENTRIES
-- and TAG_BITS are the parameters of the section.
pub mod Clog
pub mod Learning
pub mod Bench
pub mod Conformance
mod Tests
mod BenchTests
use rv64_ooo_core.Prelude.{
  ℕ, zero, suc, ◌+◌, ◌-◌, ◌*◌, ◌/◌, ◌%◌, ◌^◌, bit_and, bit_or, bit_xor, ltb, ◌==◌, if◌then◌else◌,
  Bool, true, false, not, ◌&&◌, List, [], ◌∷◌, ◌++◌, length, get_or, set, replicate, Option, none,
  some, ◌>>=◌,
}
use rv64_ooo_core.Prelude.Word.{u32, u64, ◌<<◌, ◌>>◌}

-- `while ((1u << r) < n) r++`, with `left` values of `r` left for which the shift is defined: an
-- `unsigned` has 32 bits, and C++ leaves a shift of it by 32 open, which is `none`.
unfoldable pub clog2_loop : ℕ → ℕ → ℕ → Option ℕ
clog2_loop zero n r = none
clog2_loop (suc left) n r =
    let rest = clog2_loop left n (r + 1) in if ltb (u32 (1 << r)) n then rest else some r

unfoldable pub clog2 : ℕ → Option ℕ
clog2 n = clog2_loop 32 n 0

pub record RefModel : Type 0 where
  pub pht_idx_w : ℕ
  pub btb_idx_w : ℕ
  pub pht : List ℕ
  pub btb_valid : List ℕ
  pub btb_tag : List ℕ
  pub btb_target : List ℕ

pub record Prediction : Type 0 where
  pub hit : Bool
  pub taken : Bool
  pub target : ℕ

unfoldable pub pht_idx : RefModel → ℕ → ℕ
pht_idx r pc = bit_and (pc >> 2) (2 ^ r.pht_idx_w - 1)

unfoldable pub btb_idx : RefModel → ℕ → ℕ
btb_idx r pc = bit_and (pc >> 2) (2 ^ r.btb_idx_w - 1)

module _ (pht_entries btb_entries tag_bits : ℕ) where
  -- The constructor, which needs the two exponents.
  unfoldable pub fresh : Option RefModel
  fresh = do
    pht_idx_w ← clog2 pht_entries
    btb_idx_w ← clog2 btb_entries
    some (record {
      pht_idx_w = pht_idx_w;
      btb_idx_w = btb_idx_w;
      pht = replicate pht_entries 1;
      btb_valid = replicate btb_entries 0;
      btb_tag = replicate btb_entries 0;
      btb_target = replicate btb_entries 0;
    })

  unfoldable pub tag : RefModel → ℕ → ℕ
  tag r pc = bit_and (pc >> (r.btb_idx_w + 2)) (2 ^ tag_bits - 1)

  unfoldable pub predict : RefModel → ℕ → Prediction
  predict r pc =
      let bidx = btb_idx r pc in
      let hit = not (get_or r.btb_valid bidx 0 == 0) && (get_or r.btb_tag bidx 0 == tag r pc) in
      record {
        hit = hit;
        taken = hit && not (bit_and (get_or r.pht (pht_idx r pc) 0) 2 == 0);
        target = get_or r.btb_target bidx 0;
      }

  -- The new value of a counter.
  abbrev pub counted : Bool → ℕ → ℕ
  counted true c = if not (c == 3) then c + 1 else c
  counted false c = if not (c == 0) then c - 1 else c

  unfoldable pub update : RefModel → ℕ → Bool → ℕ → RefModel
  update r pc taken target =
      let pidx = pht_idx r pc in
      let bidx = btb_idx r pc in
      record r {
        pht = set r.pht pidx (counted taken (get_or r.pht pidx 0));
        btb_valid = if taken then set r.btb_valid bidx 1 else r.btb_valid;
        btb_tag = if taken then set r.btb_tag bidx (tag r pc) else r.btb_tag;
        btb_target = if taken then set r.btb_target bidx target else r.btb_target;
      }

-- The trace of the testbench.
pub record Event : Type 0 where
  pub pc : ℕ
  pub taken : Bool
  pub target : ℕ
  pub is_loop_stream : Bool

-- The next state, which is also the number that the function returns.
unfoldable pub lfsr_next : ℕ → ℕ
lfsr_next state =
    let bit =
      bit_and (bit_xor (bit_xor (bit_xor (state >> 0) (state >> 10)) (state >> 30)) (state >> 31))
        1 in
    bit_or (state >> 1) (u32 (bit << 31))

-- The inner loop: the branch back, with the state of the generator after it.
unfoldable pub inner_loop : ℕ → ℕ → List Event × ℕ
inner_loop zero lfsr = ([], lfsr)
inner_loop (suc left) lfsr =
    let next = lfsr_next lfsr in
    let taken = not (next % 10 == 0) in
    let (rest, last) = inner_loop left next in
    (
      record {
        pc = 0x1000;
        taken = taken;
        target = if taken then 0x0f00 else 0;
        is_loop_stream = true;
      }
          ∷ rest,
      last,
    )

abbrev pub forward : ℕ → ℕ → Event
forward pc target = record { pc = pc; taken = true; target = target; is_loop_stream = true }

unfoldable pub outer_loop : ℕ → ℕ → List Event
outer_loop zero lfsr = []
outer_loop (suc left) lfsr =
    let (inner, last) = inner_loop 10 lfsr in
    inner
    ++ (forward 0x1004 0x2100
        ∷ forward 0x1008 0x2110
        ∷ forward 0x100c 0x2120
        ∷ outer_loop left last)

unfoldable pub random_loop : ℕ → ℕ → List Event
random_loop zero lfsr = []
random_loop (suc left) lfsr =
    let r1 = lfsr_next lfsr in
    let r2 = lfsr_next r1 in
    let taken = not (bit_and r2 1 == 0) in
    record {
      pc = bit_and r1 0x3fff << 2;
      taken = taken;
      target = if taken then bit_and (u64 (r2 << 2)) 0xfffff else 0;
      is_loop_stream = false;
    }
    ∷ random_loop left r2

unfoldable pub build_trace : List Event
build_trace = let ev = outer_loop 500 0xace1 in ev ++ random_loop (200000 - length ev) 0xdeadbeef
