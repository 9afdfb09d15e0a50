-- ===== src/Cache/Random.antt =====
-- `run_random_seed` of sim/cache/l1d/tb_l1d.cpp.
use rv64_ooo_core.Prelude.{
  ℕ, zero, suc, ◌+◌, ◌-◌, ◌%◌, ◌^◌, ltb, ◌==◌, ◌&&◌, if◌then◌else◌, Bool, not, bit_xor, ◌>>=◌,
  Option, some,
}
use rv64_ooo_core.Prelude.Word.{u64, ◌<<◌}
use rv64_ooo_core.Cache.Bench.{mk_addr, Device, Rand}
use rv64_ooo_core.Cache.Sim.{Sim, issue, drain, flush_and_check}

-- The access that an operation of `run_random_seed` makes, from what `rand()` returns for it.
pub record Access : Type 0 where
  pub addr : ℕ
  pub size : ℕ

abbrev pub hot_sets : ℕ
hot_sets = 4

abbrev pub hot_tags : ℕ
hot_tags = 8

module _ (g : Rand) where
  unfoldable pub random_line : g.Gen → (ℕ × ℕ) × g.Gen
  random_line gen =
      let (r, gen1) = g.next gen in
      let (a, gen2) = g.next gen1 in
      let (b, gen3) = g.next gen2 in
      (
        if ltb (r % 100) 70
            then (a % hot_sets, 100 + b % hot_tags)
            else (hot_sets + a % (64 - hot_sets), 200 + b % 64),
        gen3,
      )

  unfoldable pub random_access : g.Gen → Access × g.Gen
  random_access gen =
      let ((idx, tag), gen1) = random_line gen in
      let (s, gen2) = g.next gen1 in
      let size = s % 4 in
      let n = 2 ^ size in
      let (o, gen3) = g.next gen2 in
      let off = o % (65 - n) in
      let aligned = off - off % n in (record { addr = mk_addr tag idx aligned; size = size }, gen3)

module _ (d : Device) (g : Rand) where
  -- An operation of `run_random_seed`.
  unfoldable pub random_op : ℕ → Sim d g → Option (Sim d g)
  random_op fuel s = do
    let (a, gen1) = random_access g s.gen
    let (w, gen2) = g.next gen1
    let (hi, gen3) = g.next gen2
    let (lo, gen4) = g.next gen3
    let wdata = bit_xor (u64 (hi << 32)) lo
    (s1, _) ← issue d g fuel a.addr (w % 2 == 0) a.size wdata (record s { gen = gen4 })
    some s1

  unfoldable pub random_ops : ℕ → ℕ → Sim d g → Option (Sim d g)
  random_ops fuel zero s = some s
  random_ops fuel (suc n) s = do s1 ← random_op fuel s; random_ops fuel n s1

  -- `run_random_seed`, with `ok`.
  unfoldable pub run_random_seed : ℕ → ℕ → Sim d g → Option (Sim d g × Bool)
  run_random_seed fuel n_ops s = do
    s1 ← random_ops fuel n_ops s
    s2 ← drain d g fuel s1
    (s3, flush_ok) ← flush_and_check d g fuel s2
    some (s3, not s3.book.mismatch && flush_ok)
