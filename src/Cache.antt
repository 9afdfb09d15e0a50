-- ===== src/Cache.antt =====
-- The memory that the cache testbench compares with, sim/cache/l1d/cache_model.h: `ByteMem`, the
-- conversion of a line to the words of a Verilator signal and back, and `MemResponder`.
pub mod Bytes
pub mod ReadBack
pub mod Equal
pub mod Wide
pub mod Responder
pub mod Bench
pub mod Sim
pub mod Random
pub mod Directed
pub mod Access
pub mod Conserve
mod Tests
mod BenchTests
use rv64_ooo_core.Prelude.{
  ℕ, zero, suc, ◌+◌, ◌-◌, ◌*◌, ◌/◌, ◌%◌, ◌^◌, bit_and, bit_or, ◌==◌, if◌then◌else◌, Option, none,
  some, Bool, true, false, not, ◌&&◌, List, [], ◌∷◌, tabulate, get_or,
}
use rv64_ooo_core.Prelude.Word.{u8, u32, u64, ◌<<◌, ◌>>◌}

-- An element `kv` of the `unordered_map`.
pub record Cell : Type 0 where
  pub addr : ℕ
  pub value : ℕ

-- `bytes`, in the order of its iteration; a key occurs once.
abbrev pub ByteMem : Type 0
ByteMem = List Cell

-- `bytes.find`
unfoldable pub find : ByteMem → ℕ → Option ℕ
find [] a = none
find (c ∷ m) a = let rest = find m a in if c.addr == a then some c.value else rest

abbrev pub value_or_zero : Option ℕ → ℕ
value_or_zero none = 0
value_or_zero (some v) = v

unfoldable pub get : ByteMem → ℕ → ℕ
get m a = value_or_zero (find m a)

-- `bytes[addr] = v`: the element's value is replaced, or an element is added.
unfoldable pub put : ByteMem → ℕ → ℕ → ByteMem
put [] a v = record { addr = a; value = v } ∷ []
put (c ∷ m) a v =
    let rest = put m a v in if c.addr == a then record { addr = a; value = v } ∷ m else c ∷ rest

-- The loop of `read`, from byte `i - 1` down; an address is a `uint64_t`.
unfoldable pub read_loop : ByteMem → ℕ → ℕ → ℕ → ℕ
read_loop m addr zero v = v
read_loop m addr (suc i) v =
    read_loop m addr i (u64 (bit_or (u64 (v << 8)) (get m (u64 (addr + i)))))

unfoldable pub read : ByteMem → ℕ → ℕ → ℕ
read m addr size_log2 = read_loop m addr (2 ^ size_log2) 0

-- The loop of `write`, with `left` rounds to go.
unfoldable pub write_loop : ByteMem → ℕ → ℕ → ℕ → ℕ → ByteMem
write_loop m addr zero i v = m
write_loop m addr (suc left) i v =
    write_loop (put m (u64 (addr + i)) (u8 (bit_and v 0xff))) addr left (suc i) (v >> 8)

unfoldable pub write : ByteMem → ℕ → ℕ → ℕ → ByteMem
write m addr size_log2 v = write_loop m addr (2 ^ size_log2) 0 v

-- A line has 64 bytes.
unfoldable pub read_line : ByteMem → ℕ → List ℕ
read_line m line_addr = tabulate (λ i. get m (u64 (line_addr + i))) 64

unfoldable pub write_line_loop : ByteMem → ℕ → List ℕ → ℕ → ℕ → ByteMem
write_line_loop m line_addr line zero i = m
write_line_loop m line_addr line (suc left) i =
    write_line_loop (put m (u64 (line_addr + i)) (get_or line i 0)) line_addr line left (suc i)

unfoldable pub write_line : ByteMem → ℕ → List ℕ → ByteMem
write_line m line_addr line = write_line_loop m line_addr line 64 0

-- A loop of `equals`.
unfoldable pub agrees : ByteMem → ByteMem → Bool
agrees [] o = true
agrees (c ∷ m) o = let rest = agrees m o in (c.value == get o c.addr) && rest

unfoldable pub equals : ByteMem → ByteMem → Bool
equals m o = agrees m o && agrees o m

-- `wide_to_bytes`: byte `4 * i + j` of the line is byte `j` of word `i`.
unfoldable pub wide_to_bytes : List ℕ → List ℕ
wide_to_bytes w = tabulate (λ k. u8 (bit_and (get_or w (k / 4) 0 >> (8 * (k % 4))) 0xff)) 64

-- The inner loop of `bytes_to_wide`, for the word whose first byte is byte `k`.
unfoldable pub word_loop : List ℕ → ℕ → ℕ → ℕ → ℕ → ℕ
word_loop b k zero j v = v
word_loop b k (suc left) j v =
    word_loop b k left (suc j) (bit_or v (u32 (get_or b (k + j) 0 << (8 * j))))

unfoldable pub bytes_to_wide : List ℕ → List ℕ
bytes_to_wide b = tabulate (λ i. word_loop b (i * 4) 4 0 0) 16
