-- ===== src/Cache/Bench.antt =====
-- The testbench of the data cache, sim/cache/l1d/tb_l1d.cpp: `Sim`, which drives the device compiled from
-- the RTL, a parameter, beside a golden memory. `rand()` is a parameter too.
use rv64_ooo_core.Prelude.{
  ℕ, suc, ◌==◌, ◌&&◌, ◌||◌, if◌then◌else◌, Bool, true, false, not, bit_or, Option, none, some, List,
  [], ◌∷◌, ◌++◌, get_or, set, replicate,
}
use rv64_ooo_core.Prelude.Word.{u64, ◌<<◌}
use rv64_ooo_core.Cache.{ByteMem, read, write}

unfoldable pub mk_addr : ℕ → ℕ → ℕ → ℕ
mk_addr tag idx off = bit_or (bit_or (u64 (tag << 12)) (u64 (idx << 6))) off

pub record PendingReq : Type 0 where
  pub is_read : Bool
  pub expected : ℕ

-- The request ports.
pub record Ports : Type 0 where
  pub req_valid : Bool
  pub req_addr : ℕ
  pub req_we : Bool
  pub req_size : ℕ
  pub req_wdata : ℕ
  pub req_tag : ℕ
  pub flush_all : Bool

-- The outputs that `Sim` reads.
pub record Seen : Type 0 where
  pub req_ready : Bool
  pub resp_valid : Bool
  pub resp_tag : ℕ
  pub resp_rdata : ℕ
  pub mem_req_valid : Bool
  pub mem_req_addr : ℕ
  pub mem_req_we : Bool
  pub mem_req_wdata : List ℕ
  pub flush_done : Bool
  pub cnt_hits : ℕ
  pub cnt_misses : ℕ
  pub cnt_hit_under_miss : ℕ
  pub cnt_miss_under_miss : ℕ
  pub cnt_writebacks : ℕ

-- What the testbench uses of the Verilated class: its ports, and the evaluation of the circuit. `set_req` is
-- of `req_addr`, `req_we`, `req_size` and `req_tag`; `set_mem_resp` leaves the data as it was if there is no
-- response.
pub record Device : Type 1 where
  pub Dut : Type 0
  pub set_clk : Dut → Bool → Dut
  pub set_rst_n : Dut → Bool → Dut
  pub set_req_valid : Dut → Bool → Dut
  pub set_req : Dut → ℕ → Bool → ℕ → ℕ → Dut
  pub set_req_wdata : Dut → ℕ → Dut
  pub set_flush_all : Dut → Bool → Dut
  pub set_mem_req_ready : Dut → Bool → Dut
  pub set_mem_resp : Dut → Option (List ℕ) → Dut
  pub eval : Dut → Dut
  pub outputs : Dut → Seen

-- The assignments to the ports at the start of `cycle`.
unfoldable pub drive : (d : Device) → d.Dut → Ports → d.Dut
drive d dut p =
    let dut1 =
      d.set_req (d.set_req_valid dut p.req_valid) p.req_addr p.req_we p.req_size p.req_tag in
    d.set_flush_all (d.set_req_wdata dut1 p.req_wdata) p.flush_all

unfoldable pub tick : (d : Device) → d.Dut → d.Dut
tick d dut = d.eval (d.set_clk (d.eval (d.set_clk dut true)) false)

-- `srand` and `rand()`.
pub record Rand : Type 1 where
  pub Gen : Type 0
  pub seeded : ℕ → Gen
  pub next : Gen → ℕ × Gen

-- The first tag from `t` on that is not busy; `none` stands for -1.
unfoldable pub free_from : List Bool → ℕ → Option ℕ
free_from [] t = none
free_from (busy ∷ tags) t = let rest = free_from tags (suc t) in if busy then rest else some t

unfoldable pub find_free_tag : List Bool → Option ℕ
find_free_tag tag_busy = free_from tag_busy 0

unfoldable pub any_busy : List Bool → Bool
any_busy [] = false
any_busy (busy ∷ tags) = busy || any_busy tags

-- What `Sim` knows of the requests: `tag_busy`, `slot`, `resp_log`, `mismatch`, and the golden memory.
pub record Book : Type 0 where
  pub golden : ByteMem
  pub tag_busy : List Bool
  pub slot : List PendingReq
  pub resp_log : List ℕ
  pub mismatch : Bool

-- A request that the cache accepts.
unfoldable pub note_request : Ports → Book → Book
note_request p b =
    let pending : PendingReq =
      if p.req_we
      then record { is_read = false; expected = 0 }
      else record { is_read = true; expected = read b.golden p.req_addr p.req_size } in
    record b {
      golden = if p.req_we then write b.golden p.req_addr p.req_size p.req_wdata else b.golden;
      slot = set b.slot p.req_tag pending;
      tag_busy = set b.tag_busy p.req_tag true;
    }

unfoldable pub wrong : PendingReq → ℕ → Bool
wrong p rdata = p.is_read && not (rdata == p.expected)

-- A response.
unfoldable pub note_response : Seen → Book → Book
note_response o b =
    let rt = o.resp_tag in
    if get_or b.tag_busy rt false
    then record b {
      mismatch =
          b.mismatch
          || wrong (get_or b.slot rt (record { is_read = false; expected = 0 })) o.resp_rdata;
      tag_busy = set b.tag_busy rt false;
      resp_log = b.resp_log ++ (rt ∷ []);
    }
    else record b { mismatch = true }

-- What a cycle makes of the book: whether the request was accepted, and whether there is a response.
unfoldable pub noted : Bool → Ports → Seen → Book → Book
noted accepted p o b =
    let b1 = if accepted then note_request p b else b in
    if o.resp_valid then note_response o b1 else b1

unfoldable pub fresh_book : ByteMem → Book
fresh_book m = record {
  golden = m;
  tag_busy = replicate 16 false;
  slot = replicate 16 (record { is_read = false; expected = 0 });
  resp_log = [];
  mismatch = false;
}
