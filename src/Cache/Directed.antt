-- ===== src/Cache/Directed.antt =====
-- `directed_tests` of sim/cache/l1d/tb_l1d.cpp, and `main`. Each unbounded loop has `fuel` rounds; `none` is
-- a run that needs more.
use rv64_ooo_core.Prelude.{
  ℕ, zero, suc, ◌+◌, ◌*◌, ◌%◌, leb, ltb, ◌==◌, ◌&&◌, ◌||◌, if◌then◌else◌, Bool, true, false, not,
  Option, none, some, List, [], ◌∷◌, ◌++◌, length, drop, ◌>>=◌,
}
use rv64_ooo_core.Prelude.Word.{u32}
use rv64_ooo_core.Cache.Bench.{mk_addr, Device, Rand, find_free_tag}
use rv64_ooo_core.Cache.Sim.{
  Sim, no_request, start, issue, drain, flush_and_check, hold_until_accepted,
}
use rv64_ooo_core.Cache.Random.{run_random_seed}

-- An operation: address, write, size, data.
pub record Operation : Type 0 where
  pub addr : ℕ
  pub we : Bool
  pub size : ℕ
  pub wdata : ℕ

abbrev pub load : ℕ → ℕ → Operation
load addr size = record { addr = addr; we = false; size = size; wdata = 0 }

abbrev pub store : ℕ → ℕ → ℕ → Operation
store addr size wdata = record { addr = addr; we = true; size = size; wdata = wdata }

-- The operations that are each drained before the next, in the order of the test.
unfoldable pub first_ops : List Operation
first_ops =
    load (mk_addr 1 0 0) 3
    ∷ store (mk_addr 1 0 0) 2 0xdeadbeef
    ∷ load (mk_addr 1 0 0) 2
    ∷ store (mk_addr 2 0 0) 3 0x1111111111111111
    ∷ store (mk_addr 3 0 0) 3 0x2222222222222222
    ∷ load (mk_addr 4 0 0) 3
    ∷ load (mk_addr 2 0 0) 3
    ∷ load (mk_addr 3 0 0) 3
    ∷ []

-- Round `r` of the conflict thrash, from line `k` on.
unfoldable pub thrash_round : ℕ → ℕ → ℕ → List Operation
thrash_round r zero k = []
thrash_round r (suc left) k =
    record {
      addr = mk_addr (10 + k) 7 (k % 8 * 8);
      we = k % 2 == 0;
      size = 3;
      wdata = 0xa000000000000000 + r * 16 + k;
    }
    ∷ thrash_round r left (k + 1)

unfoldable pub thrash : ℕ → ℕ → List Operation
thrash zero r = []
thrash (suc left) r = thrash_round r 5 0 ++ thrash left (r + 1)

-- The writes and reads back of all sizes at the offsets of a line, 7 apart.
unfoldable pub sub_line : ℕ → ℕ → ℕ → List Operation
sub_line zero size off = []
sub_line (suc left) size off =
    let a = mk_addr 80 20 0 + off in
    store a size (0x0102030405060708 + off) ∷ load a size ∷ sub_line left size (off + 7)

unfoldable pub sub_lines : List Operation
sub_lines =
    load (mk_addr 80 20 0) 3
    ∷ (sub_line 10 0 0 ++ (sub_line 9 1 0 ++ (sub_line 9 2 0 ++ sub_line 9 3 0)))

-- Where a tag stands in the log of responses, from `i` on: the last place, if any.
unfoldable pub last_position : ℕ → List ℕ → ℕ → Option ℕ → Option ℕ
last_position tag [] i found = found
last_position tag (t ∷ log) i found =
    last_position tag log (i + 1) (if t == tag then some i else found)

unfoldable pub worst_position : List ℕ → List ℕ → Option ℕ → Option ℕ
worst_position [] log worst = worst
worst_position (tag ∷ tags) log worst =
    worst_position tags log (later (last_position tag log 0 none) worst)
  where
    later : Option ℕ → Option ℕ → Option ℕ
    later none w = w
    later (some p) none = some p
    later (some p) (some w) = if ltb w p then some p else some w

-- The hits were answered before the miss; a place that is -1 is a failure.
unfoldable pub hits_first : Option ℕ → Option ℕ → Bool
hits_first none worst_hit = false
hits_first (some miss) none = false
hits_first (some miss) (some worst_hit) = leb worst_hit miss

module _ (d : Device) (g : Rand) (fuel : ℕ) where
  -- The simulation and `fail`.
  pub record Tester : Type 0 where
    pub sim : Sim d g
    pub fail : Bool

  unfoldable pub check : Tester → Tester
  check t = record t { fail = t.fail || t.sim.book.mismatch }

  unfoldable pub issue_drained : List Operation → Sim d g → Option (Sim d g)
  issue_drained [] s = some s
  issue_drained (o ∷ os) s = do
    (s1, _) ← issue d g fuel o.addr o.we o.size o.wdata s
    s2 ← drain d g fuel s1
    issue_drained os s2

  -- Loads at once, with their tags.
  unfoldable pub issue_loads : List ℕ → Sim d g → Option (Sim d g × List ℕ)
  issue_loads [] s = some (s, [])
  issue_loads (a ∷ addrs) s = do
    (s1, t) ← issue d g fuel a false 3 0 s
    (s2, ts) ← issue_loads addrs s1
    some (s2, t ∷ ts)

  unfoldable pub lines_from : ℕ → ℕ → ℕ → ℕ → List ℕ
  lines_from zero tag idx k = []
  lines_from (suc left) tag idx k = mk_addr (tag + k) (idx + k) 0 ∷ lines_from left tag idx (k + 1)

  unfoldable pub hit_under_miss : Tester → Option Tester
  hit_under_miss t = do
    let hot_addrs = lines_from 10 20 40 0
    (s1, _) ← issue_loads hot_addrs t.sim
    s2 ← drain d g fuel s1
    let log_before = length s2.book.resp_log
    (s3, miss_tag) ←
        issue d g fuel (mk_addr 99 50 0) false 3 0
          (record s2 { resp = record s2.resp { min_latency = 15 } })
    (s4, hit_tags) ← issue_loads hot_addrs s3
    s5 ← drain d g fuel s4
    let s6 = record s5 { resp = record s5.resp { min_latency = 1 } }
    let log = drop log_before s6.book.resp_log
    let good = hits_first (last_position miss_tag log 0 none) (worst_position hit_tags log none)
    some (check (record { sim = s6; fail = t.fail || not good }))

  -- A request presented and taken back: whether the cache was ready for it.
  unfoldable pub peek_ready : ℕ → Sim d g → Bool × Sim d g
  peek_ready addr s =
      let dut1 = d.eval (d.set_req (d.set_req_valid s.dut true) addr false 3 0) in
      let dut2 = d.eval (d.set_req_valid dut1 false) in
      ((d.outputs dut1).req_ready, record s { dut = dut2 })

  unfoldable pub miss_under_miss : Tester → Option Tester
  miss_under_miss t = do
    (s1, _) ← issue_loads (lines_from 4 60 55 0) t.sim
    let (ready, s2) = peek_ready (mk_addr 64 59 0) s1
    s3 ← drain d g fuel s2
    s4 ← issue_drained (load (mk_addr 64 59 0) 3 ∷ []) s3
    some (check (record { sim = s4; fail = t.fail || ready }))

  -- The first miss is presented with the tag of `find_free_tag`, which is free after a drain.
  unfoldable pub same_line : Tester → Option Tester
  same_line t = do
    let base = mk_addr 70 30 0
    tag ← find_free_tag t.sim.book.tag_busy
    s1 ←
        hold_until_accepted d g fuel
          (record (no_request d g) {
            req_valid = true;
            req_addr = base;
            req_size = 3;
            req_tag = tag;
          })
          t.sim
    let (ready, s2) = peek_ready (base + 8) s1
    s3 ← drain d g fuel s2
    some (check (record { sim = s3; fail = t.fail || ready }))

  -- `directed_tests`: whether they pass.
  unfoldable pub directed_tests : d.Dut → Option Bool
  directed_tests new_dut = do
    s1 ← issue_drained first_ops (start d g 0xc0ffee new_dut)
    s2 ← issue_drained (thrash 20 0) s1
    t3 ← hit_under_miss (check (record { sim = s2; fail = false }))
    t4 ← miss_under_miss t3
    t5 ← same_line t4
    s6 ← issue_drained sub_lines t5.sim
    let t6 = check (record t5 { sim = s6 })
    (_, flush_ok) ← flush_and_check d g fuel t6.sim
    some (not (t6.fail || not flush_ok))

  -- The seeds from `seed` on, each of which seeds `rand()` anew in `Sim`: whether all were right, with the hits and the misses under a miss.
  unfoldable pub random_seeds : ℕ → ℕ → d.Dut → Option (Bool × (ℕ × ℕ))
  random_seeds zero seed new_dut = some (true, (0, 0))
  random_seeds (suc seeds) seed new_dut = do
    (s, good) ← run_random_seed d g fuel 100000 (start d g (u32 (seed * 7919 + 13)) new_dut)
    (all, (hum, mum)) ← random_seeds seeds (seed + 1) new_dut
    let o = d.outputs s.dut
    some (good && all, (o.cnt_hit_under_miss + hum, o.cnt_miss_under_miss + mum))

  -- `main`, with its exit code.
  unfoldable pub main : d.Dut → Option ℕ
  main new_dut = do
    dpass ← directed_tests new_dut
    (all_ok, (tot_hum, tot_mum)) ← random_seeds 10 1 new_dut
    some (if dpass && all_ok && ltb 0 tot_hum && ltb 0 tot_mum then 0 else 1)
