-- ===== src/Lsq.antt =====
-- The golden model of the load and store queues, sim/lsq/lsq_model.h: `LsqModel`, with its three
-- template parameters as those of the section. An `int` of the source that is never negative is a
-- number.
pub mod Squash
pub mod Forward
pub mod Sound
pub mod Invariant
pub mod Outcome
pub mod Bench
pub mod BenchCycle
pub mod BenchApply
pub mod Replay
pub mod ForwardMemory
pub mod Directed
pub mod Random
pub mod Window
mod Tests
mod BenchTests
use rv64_ooo_core.Prelude.{
  ℕ, zero, suc, ◌+◌, ◌-◌, ◌*◌, ◌/◌, ◌%◌, ◌^◌, bit_and, bit_or, leb, ltb, ◌==◌, one_if,
  if◌then◌else◌, Bool, true, false, not, ◌&&◌, ◌||◌, List, [], ◌∷◌, get_or, set, replicate,
}
use rv64_ooo_core.Prelude.Word.{wrap, signed, u8, u16, u32, u64, ◌<<◌, ◌>>◌}

pub record LqEntry : Type 0 where
  pub rob_idx : ℕ
  pub addr_v : Bool
  pub addr : ℕ
  pub size : ℕ
  pub sgn : Bool

pub record SqEntry : Type 0 where
  pub rob_idx : ℕ
  pub addr_v : Bool
  pub addr : ℕ
  pub size : ℕ
  pub store_data : ℕ

pub record DispReq : Type 0 where
  pub valid : Bool
  pub is_load : Bool
  pub rob_idx : ℕ

pub record StoreCommitInfo : Type 0 where
  pub valid : Bool
  pub addr : ℕ
  pub size : ℕ
  pub store_data : ℕ

-- An entry as dispatch leaves it; with 0 the default.
abbrev pub new_lq : ℕ → LqEntry
new_lq i = record { rob_idx = i; addr_v = false; addr = 0; size = 0; sgn = false }

abbrev pub new_sq : ℕ → SqEntry
new_sq i = record { rob_idx = i; addr_v = false; addr = 0; size = 0; store_data = 0 }

-- The members.
pub record Lsq : Type 0 where
  pub lq : List LqEntry
  pub sq : List SqEntry
  pub lq_head : ℕ
  pub lq_tail : ℕ
  pub lq_cnt : ℕ
  pub sq_head : ℕ
  pub sq_tail : ℕ
  pub sq_cnt : ℕ

unfoldable pub bytes_of : ℕ → ℕ
bytes_of size = 1 << size

-- A value of `bits` bits, with its sign or without.
abbrev pub cut : ℕ → ℕ → Bool → ℕ
cut bits raw true = wrap 64 (signed bits (raw % 2 ^ bits))
cut bits raw false = bit_and raw (2 ^ bits - 1)

unfoldable pub extend : ℕ → ℕ → Bool → ℕ
extend raw size sgn =
    if size == 0
    then cut 8 raw sgn
    else if size == 1
    then cut 16 raw sgn
    else if size == 2
    then cut 32 raw sgn
    else raw

-- What `peekDispatch` writes to `ready_out` and `idx_out`.
pub record Peek : Type 0 where
  pub ready0 : Bool
  pub ready1 : Bool
  pub idx0 : ℕ
  pub idx1 : ℕ

-- The youngest overlapping store found so far, in the loop of `expectedLoadValue`.
pub record Best : Type 0 where
  pub any_overlap : Bool
  pub yv_full : Bool
  pub yv_age : ℕ
  pub yv_data : ℕ

abbrev pub no_best : Best
no_best = record { any_overlap = false; yv_full = false; yv_age = 0; yv_data = 0 }

-- The loop over the bytes of a load, with `left` to go.
unfoldable pub raw_loop : (ℕ → ℕ) → ℕ → ℕ → ℕ → ℕ → ℕ
raw_loop mem lo zero b raw = raw
raw_loop mem lo (suc left) b raw =
    raw_loop mem lo left (suc b) (bit_or raw (u64 (mem (u64 (lo + b)) << (8 * b))))

-- The value that a load reads from memory.
unfoldable pub from_memory : (ℕ → ℕ) → LqEntry → ℕ
from_memory mem l = extend (raw_loop mem l.addr (bytes_of l.size) 0 0) l.size l.sgn

module _ (lq_depth sq_depth rob_idx_w : ℕ) where
  unfoldable pub fresh : Lsq
  fresh = record {
    lq = replicate lq_depth (new_lq 0);
    sq = replicate sq_depth (new_sq 0);
    lq_head = 0;
    lq_tail = 0;
    lq_cnt = 0;
    sq_head = 0;
    sq_tail = 0;
    sq_cnt = 0;
  }

  unfoldable pub age : ℕ → ℕ → ℕ
  age idx head = bit_and (u32 (idx + 2 ^ 32 - head)) (2 ^ rob_idx_w - 1)

  unfoldable pub peek_dispatch : Lsq → DispReq → DispReq → Bool → Peek
  peek_dispatch s req0 req1 squash =
      let lq_free = lq_depth - s.lq_cnt in
      let sq_free = sq_depth - s.sq_cnt in
      let p0_ready = not squash && (if req0.is_load then ltb 0 lq_free else ltb 0 sq_free) in
      let p0_lq = req0.valid && (p0_ready && req0.is_load) in
      let p0_sq = req0.valid && (p0_ready && not req0.is_load) in
      let lq_free1 = lq_free - one_if p0_lq in
      let sq_free1 = sq_free - one_if p0_sq in
      let p1_ready = not squash && (if req1.is_load then ltb 0 lq_free1 else ltb 0 sq_free1) in
      record {
        ready0 = p0_ready;
        ready1 = p1_ready;
        idx0 = if req0.is_load then s.lq_tail else s.sq_tail;
        idx1 =
            if req1.is_load
            then (if p0_lq then (s.lq_tail + 1) % lq_depth else s.lq_tail)
            else if p0_sq
            then (s.sq_tail + 1) % sq_depth
            else s.sq_tail;
      }

  unfoldable pub peek_store_commit : Lsq → Bool → StoreCommitInfo
  peek_store_commit s commit_store_valid =
      let e = get_or s.sq s.sq_head (new_sq 0) in
      let some_store = not (s.sq_cnt == 0) in
      record {
        valid = commit_store_valid && some_store;
        addr = if some_store then e.addr else 0;
        size = if some_store then e.size else 0;
        store_data = if some_store then e.store_data else 0;
      }

  -- The loads and the stores from the head on.
  abbrev pub lq_at : Lsq → ℕ → LqEntry
  lq_at s i = get_or s.lq ((s.lq_head + i) % lq_depth) (new_lq 0)

  abbrev pub sq_at : Lsq → ℕ → SqEntry
  sq_at s i = get_or s.sq ((s.sq_head + i) % sq_depth) (new_sq 0)

  -- The bytes of two accesses meet, and the store's contain the load's; an end is a `uint64_t`.
  abbrev pub overlaps : LqEntry → SqEntry → Bool
  overlaps l e =
      not
        (leb (u64 (l.addr + bytes_of l.size)) e.addr || leb (u64 (e.addr + bytes_of e.size)) l.addr)

  abbrev pub covers : LqEntry → SqEntry → Bool
  covers l e =
      leb e.addr l.addr && leb (u64 (l.addr + bytes_of l.size)) (u64 (e.addr + bytes_of e.size))

  -- The value that a covering store forwards.
  abbrev pub forwarded : LqEntry → SqEntry → ℕ
  forwarded l e = extend (e.store_data >> ((l.addr - e.addr) * 8)) l.size l.sgn

  -- A round of the loop.
  unfoldable pub consider : ℕ → LqEntry → SqEntry → Best → Best
  consider rob_head l e best =
      let a = age e.rob_idx rob_head in
      if ltb a (age l.rob_idx rob_head)
        && (overlaps l e && (not best.any_overlap || ltb best.yv_age a))
      then record {
        any_overlap = true;
        yv_full = covers l e;
        yv_age = a;
        yv_data = if covers l e then forwarded l e else best.yv_data;
      }
      else best

  unfoldable pub scan : Lsq → ℕ → LqEntry → ℕ → ℕ → Best → Best
  scan s rob_head l zero i best = best
  scan s rob_head l (suc left) i best =
      scan s rob_head l left (suc i) (consider rob_head l (sq_at s i) best)

  unfoldable pub chosen : Best → (ℕ → ℕ) → LqEntry → ℕ × Bool
  chosen best mem l =
      if best.any_overlap && best.yv_full then (best.yv_data, true) else (from_memory mem l, false)

  -- `expectedLoadValue` and `used_forward`.
  unfoldable pub expected_load_value : Lsq → ℕ → ℕ → (ℕ → ℕ) → ℕ × Bool
  expected_load_value s lq_idx rob_head mem =
      let l = get_or s.lq lq_idx (new_lq 0) in chosen (scan s rob_head l s.sq_cnt 0 no_best) mem l

  -- A round of `applyDispatch`.
  unfoldable pub dispatch_one : Lsq → DispReq → Bool → ℕ → Lsq
  dispatch_one s req ready idx =
      if req.valid && ready
      then (if req.is_load
          then record s {
            lq = set s.lq idx (new_lq req.rob_idx);
            lq_tail = (s.lq_tail + 1) % lq_depth;
            lq_cnt = s.lq_cnt + 1;
          }
          else record s {
            sq = set s.sq idx (new_sq req.rob_idx);
            sq_tail = (s.sq_tail + 1) % sq_depth;
            sq_cnt = s.sq_cnt + 1;
          })
      else s

  unfoldable pub apply_dispatch : Lsq → DispReq → DispReq → Peek → Lsq
  apply_dispatch s req0 req1 p =
      dispatch_one (dispatch_one s req0 p.ready0 p.idx0) req1 p.ready1 p.idx1

  unfoldable pub apply_store_addr : Lsq → ℕ → ℕ → ℕ → ℕ → Lsq
  apply_store_addr s sq_idx addr size store_data = record s {
    sq = set s.sq sq_idx (record (get_or s.sq sq_idx (new_sq 0)) {
      addr_v = true;
      addr = addr;
      size = size;
      store_data = store_data;
    });
  }

  unfoldable pub apply_load_addr : Lsq → ℕ → ℕ → ℕ → Bool → Lsq
  apply_load_addr s lq_idx addr size sgn = record s {
    lq = set s.lq lq_idx (record (get_or s.lq lq_idx (new_lq 0)) {
      addr_v = true;
      addr = addr;
      size = size;
      sgn = sgn;
    });
  }

  unfoldable pub commit_store : Lsq → Bool → Lsq
  commit_store s commit_store_valid =
      if commit_store_valid && not (s.sq_cnt == 0)
      then record s { sq_head = (s.sq_head + 1) % sq_depth; sq_cnt = s.sq_cnt - 1 }
      else s

  unfoldable pub commit_load : Lsq → Bool → Lsq
  commit_load s commit_load_valid =
      if commit_load_valid && not (s.lq_cnt == 0)
      then record s { lq_head = (s.lq_head + 1) % lq_depth; lq_cnt = s.lq_cnt - 1 }
      else s

  unfoldable pub apply_commit : Lsq → Bool → Bool → Lsq
  apply_commit s commit_store_valid commit_load_valid =
      commit_load (commit_store s commit_store_valid) commit_load_valid

  -- The loops that count `keep`, over the reorder buffer indices of a queue from its head on.
  unfoldable pub keep_loop : (ℕ → ℕ) → ℕ → ℕ → ℕ → ℕ → ℕ → ℕ
  keep_loop rob_idx_at squash_rob_idx rob_head zero i keep = keep
  keep_loop rob_idx_at squash_rob_idx rob_head (suc left) i keep =
      keep_loop rob_idx_at squash_rob_idx rob_head left (suc i)
        (if leb (age (rob_idx_at i) rob_head) (age squash_rob_idx rob_head) then keep + 1 else keep)

  unfoldable pub apply_squash : Lsq → Bool → ℕ → Bool → ℕ → Lsq
  apply_squash s squash_valid squash_rob_idx squash_all rob_head =
      if squash_all
      then record s { lq_head = 0; lq_tail = 0; lq_cnt = 0; sq_head = 0; sq_tail = 0; sq_cnt = 0 }
      else if squash_valid
      then (let keep_lq =
            keep_loop (λ i. (lq_at s i).rob_idx) squash_rob_idx rob_head s.lq_cnt 0 0 in
          let keep_sq = keep_loop (λ i. (sq_at s i).rob_idx) squash_rob_idx rob_head s.sq_cnt 0 0 in
          record s {
            lq_cnt = keep_lq;
            lq_tail = (s.lq_head + keep_lq) % lq_depth;
            sq_cnt = keep_sq;
            sq_tail = (s.sq_head + keep_sq) % sq_depth;
          })
      else s
