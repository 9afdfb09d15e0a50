-- ===== src/Lsq/Bench.antt =====
-- The state of the testbench of the load and store queues, sim/lsq/tb_lsq.cpp: its types and variables,
-- and the replay of the commit log.
use rv64_ooo_core.Prelude.{
  ℕ, zero, suc, ◌+◌, ◌*◌, leb, ◌==◌, ◌&&◌, if◌then◌else◌, Bool, true, Option, none, List, [], ◌∷◌,
  replicate, bit_or,
}
use rv64_ooo_core.Prelude.Word.{u8, u64, ◌<<◌, ◌>>◌}
use rv64_ooo_core.Lsq.{Lsq, fresh, bytes_of}

abbrev pub lqd : ℕ
lqd = 8

abbrev pub sqd : ℕ
sqd = 8

abbrev pub robw : ℕ
robw = 5

-- `mem.assign(8192, 0)`
abbrev pub mem_size : ℕ
mem_size = 8192

-- An operation in program order, with its address in the list for `id`; a pointer to it is that `id`.
pub record Op : Type 0 where
  pub id : ℕ
  pub is_load : Bool
  pub rob_idx : ℕ
  pub slot : ℕ
  pub addr_set : Bool
  pub addr_cycle : Option ℕ
  pub resolved : Bool

pub record CommitLogEntry : Type 0 where
  pub addr : ℕ
  pub size : ℕ
  pub store_data : ℕ

-- The variables of the file; `g_commit_log` is with the newest entry first.
pub record Bench : Type 0 where
  pub model : Lsq
  pub mem : ℕ → ℕ
  pub prog : List Op
  pub lq_owner : List (Option ℕ)
  pub sq_owner : List (Option ℕ)
  pub next_rob_idx : ℕ
  pub next_id : ℕ
  pub g_cycle : ℕ
  pub g_forwards : ℕ
  pub g_stalls : ℕ
  pub g_commit_log : List CommitLogEntry

abbrev pub cleared : ℕ → ℕ
cleared a = 0

unfoldable pub reset_bench : Bench → Bench
reset_bench t = record t {
  model = fresh lqd sqd robw;
  mem = cleared;
  prog = [];
  lq_owner = replicate lqd none;
  sq_owner = replicate sqd none;
  next_rob_idx = 0;
  g_cycle = 0;
  g_commit_log = [];
}

-- `mem[addr + b] = (uint8_t)(data >> (8 * b))`, for `left` bytes from `b` on.
unfoldable pub write_bytes : (ℕ → ℕ) → ℕ → ℕ → ℕ → ℕ → ℕ → ℕ
write_bytes mem addr store_data zero b = mem
write_bytes mem addr store_data (suc left) b =
    write_bytes (λ a. if a == u64 (addr + b) then u8 (store_data >> (8 * b)) else mem a) addr
      store_data left (suc b)

-- The bytes of an access are in `mem`.
unfoldable pub in_bounds : ℕ → ℕ → Bool
in_bounds addr size = leb (addr + bytes_of size) mem_size

-- `for (int b = 0; b < nb; b++) v |= (uint64_t)mem[addr + b] << (8 * b);`
unfoldable pub read_bytes : (ℕ → ℕ) → ℕ → ℕ → ℕ → ℕ → ℕ
read_bytes mem addr zero b v = v
read_bytes mem addr (suc left) b v =
    read_bytes mem addr left (suc b) (bit_or v (u64 (mem (u64 (addr + b)) << (8 * b))))

unfoldable pub written : (ℕ → ℕ) → CommitLogEntry → ℕ → ℕ
written mem e = write_bytes mem e.addr e.store_data (bytes_of e.size) 0

-- The memory that the log makes of a cleared one, its oldest entry first.
unfoldable pub replay : List CommitLogEntry → ℕ → ℕ
replay [] = cleared
replay (e ∷ log) = written (replay log) e

-- `replay == mem`, up to the size of `mem`.
unfoldable pub same_image : ℕ → (ℕ → ℕ) → (ℕ → ℕ) → Bool
same_image zero f g = true
same_image (suc n) f g = (f n == g n) && same_image n f g

unfoldable pub check_final_memory_image : Bench → Bool
check_final_memory_image t = same_image mem_size (replay t.g_commit_log) t.mem

unfoldable pub cur_rob_head : Bench → ℕ
cur_rob_head t = elim t.prog [ [] ↦ t.next_rob_idx | op ∷ rest ↦ op.rob_idx ]
