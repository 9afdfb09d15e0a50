-- ===== src/Cache/Sim.antt =====
-- `Sim` of sim/cache/l1d/tb_l1d.cpp: a clock cycle, and the loops that issue a request, drain the cache and
-- flush it.
use rv64_ooo_core.Prelude.{
  ℕ, zero, suc, ◌+◌, ◌^◌, ◌&&◌, if◌then◌else◌, Bool, true, false, not, bit_and, ◌>>=◌, Option, none,
  some, List, [],
}
use rv64_ooo_core.Cache.{ByteMem, put, equals, bytes_to_wide}
use rv64_ooo_core.Cache.Responder.{Responder, Request, fresh, step}
use rv64_ooo_core.Cache.Bench.{
  Ports, Seen, Device, drive, tick, Rand, find_free_tag, any_busy, Book, noted, fresh_book,
}

module _ (d : Device) (g : Rand) where
  pub record Sim : Type 0 where
    pub dut : d.Dut
    pub book : Book
    pub resp : Responder
    pub gen : g.Gen

  -- What the memory side is asked; `rand()` is drawn only for a read that it accepts.
  unfoldable pub mem_request : Seen → g.Gen → Request
  mem_request o gen = record {
    req_valid = o.mem_req_valid;
    req_addr = o.mem_req_addr;
    req_we = o.mem_req_we;
    req_wdata = o.mem_req_wdata;
    rand = (g.next gen).0;
  }

  unfoldable pub next_gen : Responder → Seen → g.Gen → g.Gen
  next_gen r o gen =
      if not r.pending && o.mem_req_valid && not o.mem_req_we then (g.next gen).1 else gen

  abbrev lines : Option (List ℕ) → Option (List ℕ)
  lines none = none
  lines (some bytes) = some (bytes_to_wide bytes)

  -- `cycle`: the state after it, and whether the request was accepted.
  unfoldable pub cycle : Ports → Sim → Sim × Bool
  cycle p s =
      let dut1 = d.eval (drive d s.dut p) in
      let o = d.outputs dut1 in
      let accepted = p.req_valid && o.req_ready in
      let (resp, line) = step s.resp (mem_request o s.gen) in
      let dut2 = tick d (d.set_mem_req_ready (d.set_mem_resp dut1 (lines line)) true) in
      (
        record {
          dut = dut2;
          book = noted accepted p (d.outputs dut2) s.book;
          resp = resp;
          gen = next_gen s.resp o s.gen;
        },
        accepted,
      )

  -- `seed_random`, for `left` bytes from `a` on.
  unfoldable pub seed_loop : ℕ → ℕ → ByteMem → g.Gen → ByteMem × g.Gen
  seed_loop zero a m gen = (m, gen)
  seed_loop (suc left) a m gen =
      let (v, gen1) = g.next gen in seed_loop left (a + 1) (put m a (bit_and v 0xff)) gen1

  unfoldable pub seed_random : ℕ → ℕ → ℕ → ByteMem → ByteMem × g.Gen
  seed_random base nbytes rng_seed m = seed_loop nbytes base m (g.seeded rng_seed)

  abbrev pub no_request : Ports
  no_request = record {
    req_valid = false;
    req_addr = 0;
    req_we = false;
    req_size = 0;
    req_wdata = 0;
    req_tag = 0;
    flush_all = false;
  }

  -- The constructor: both memories have the same image, and the circuit is reset for four cycles.
  unfoldable pub start : ℕ → d.Dut → Sim
  start seed new_dut =
      let (golden, _) = seed_random 0 (2 ^ 20) seed [] in
      let (backing, gen) = seed_random 0 (2 ^ 20) seed [] in
      let held = d.set_req_valid (d.set_clk (d.set_rst_n new_dut false) false) false in
      let ready = d.set_mem_resp (d.set_mem_req_ready (d.set_flush_all held false) true) none in
      record {
        dut = d.set_rst_n (tick d (tick d (tick d (tick d ready)))) true;
        book = fresh_book golden;
        resp = fresh backing;
        gen = gen;
      }

  -- The loops of `issue`, `drain` and `flush_and_check` have no bound; with no fuel left they are not done.
  unfoldable pub wait_tag : ℕ → Sim → Option (Sim × ℕ)
  wait_tag zero s = none
  wait_tag (suc fuel) s = elim (find_free_tag s.book.tag_busy) [
    | some t ↦ some (s, t)
    | none ↦ wait_tag fuel (cycle no_request s).0
  ]

  unfoldable pub hold_until_accepted : ℕ → Ports → Sim → Option Sim
  hold_until_accepted zero p s = none
  hold_until_accepted (suc fuel) p s =
      let (s1, accepted) = cycle p s in
      let rest = hold_until_accepted fuel p s1 in if accepted then some s1 else rest

  unfoldable pub issue : ℕ → ℕ → Bool → ℕ → ℕ → Sim → Option (Sim × ℕ)
  issue fuel addr we size wdata s = do
    (s1, t) ← wait_tag fuel s
    s2 ←
        hold_until_accepted fuel
          (record no_request {
            req_valid = true;
            req_addr = addr;
            req_we = we;
            req_size = size;
            req_wdata = wdata;
            req_tag = t;
          })
          s1
    some (s2, t)

  unfoldable pub drain : ℕ → Sim → Option Sim
  drain zero s = none
  drain (suc fuel) s =
      let rest = drain fuel (cycle no_request s).0 in
      if any_busy s.book.tag_busy then rest else some s

  unfoldable pub flush_loop : ℕ → Sim → Option Sim
  flush_loop zero s = none
  flush_loop (suc fuel) s =
      let (s1, _) = cycle (record no_request { flush_all = true }) s in
      let rest = flush_loop fuel s1 in if (d.outputs s1.dut).flush_done then some s1 else rest

  -- `flush_and_check`, with `ok`.
  unfoldable pub flush_and_check : ℕ → Sim → Option (Sim × Bool)
  flush_and_check fuel s = do
    s1 ← drain fuel s
    s2 ← flush_loop fuel (record s1 { dut = d.set_req_valid s1.dut false })
    some (s2, equals s2.resp.backing s2.book.golden)
