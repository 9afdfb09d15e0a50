-- ===== src/Cache/BenchTests.antt =====
-- A cache that accepts every request and answers it at once, and the theorems at it.
use rv64_ooo_core.Prelude.{
  if◌then◌else◌, ℕ, ◌+◌, ◌*◌, ◌≡◌, refl, one_if, true, false, some, [], ◌∷◌, replicate,
}
use rv64_ooo_core.Cache.Bench.{Ports, Seen, Device, Rand, free_from, find_free_tag}
use rv64_ooo_core.Cache.Sim.{Sim, cycle}
use rv64_ooo_core.Cache.Random.{random_access}
use rv64_ooo_core.Cache.Responder.{fresh}
use rv64_ooo_core.Cache.Access.{InLine, random_access-InLine}
use rv64_ooo_core.Cache.Conserve.{known, cycle-known}

abbrev ready : Seen
ready = record {
  req_ready = true;
  resp_valid = false;
  resp_tag = 0;
  resp_rdata = 0;
  mem_req_valid = false;
  mem_req_addr = 0;
  mem_req_we = false;
  mem_req_wdata = [];
  flush_done = false;
  cnt_hits = 0;
  cnt_misses = 0;
  cnt_hit_under_miss = 0;
  cnt_miss_under_miss = 0;
  cnt_writebacks = 0;
}

record Quick : Type 0 where
  pub ports : Ports
  pub seen : Seen

abbrev quick : Device
quick = record {
  Dut = Quick;
  set_clk = λ q b. record q {
    seen =
        if b
        then record ready { resp_valid = q.ports.req_valid; resp_tag = q.ports.req_tag }
        else q.seen;
  };
  set_rst_n = λ q b. q;
  set_req_valid = λ q b. record q { ports = record q.ports { req_valid = b } };
  set_req = λ q a we size tag. record q {
    ports = record q.ports { req_addr = a; req_we = we; req_size = size; req_tag = tag };
  };
  set_req_wdata = λ q v. record q { ports = record q.ports { req_wdata = v } };
  set_flush_all = λ q b. record q { ports = record q.ports { flush_all = b } };
  set_mem_req_ready = λ q b. q;
  set_mem_resp = λ q r. q;
  eval = λ q. q;
  outputs = λ q. q.seen;
}

abbrev counting : Rand
counting = record { Gen = ℕ; seeded = λ n. n; next = λ n. (n * n + 3, n + 1) }

abbrev load_word : Ports
load_word = record {
  req_valid = true;
  req_addr = 0x1040;
  req_we = false;
  req_size = 2;
  req_wdata = 0;
  req_tag = 1;
  flush_all = false;
}

-- Tag 0 is out.
abbrev one_out : Sim quick counting
one_out = record {
  dut = record { ports = load_word; seen = ready };
  book = record {
    golden = [];
    tag_busy = true ∷ replicate 15 false;
    slot = replicate 16 (record { is_read = false; expected = 0 });
    resp_log = [];
    mismatch = false;
  };
  resp = fresh [];
  gen = 0;
}

tag_one : find_free_tag one_out.book.tag_busy ≡ some 1
unfolding find_free_tag free_from
tag_one = refl

cycle-known_example :
    known (cycle quick counting load_word one_out).0.book
    ≡ known one_out.book + one_if (cycle quick counting load_word one_out).1
cycle-known_example = cycle-known quick counting load_word one_out (λ _. tag_one)

random_access-InLine_example : InLine (random_access counting 12).0
random_access-InLine_example = random_access-InLine counting 12
