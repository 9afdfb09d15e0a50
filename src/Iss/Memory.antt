-- ===== src/Iss/Memory.antt =====
-- The memory of the simulator: `Iss::load8` to `Iss::store64`, little-endian, addresses modulo 2^16.
use rv64_ooo_core.Prelude.{ℕ, ◌+◌, ◌*◌, bit_and, bit_or, List, length, get_or, ltb, if◌then◌else◌}
use rv64_ooo_core.Prelude.Word.{u8, u16, u32, u64, ◌<<◌, ◌>>◌}
use rv64_ooo_core.Iss.{update}

abbrev pub Memory : Type 0
Memory = ℕ → ℕ

unfoldable pub mem_size : ℕ
mem_size = 64 * 1024

-- `Iss::load`: cleared, then as much of the image as fits.
unfoldable pub load_image : List ℕ → Memory
load_image image a =
    let n = if ltb (length image) mem_size then length image else mem_size in
    if ltb a n then get_or image a 0 else 0

unfoldable pub load8 : Memory → ℕ → ℕ
load8 mem a = mem (bit_and a 0xffff)

-- An address is a `uint64_t`, and so is `a + 1`.
unfoldable pub load16 : Memory → ℕ → ℕ
load16 mem a = bit_or (load8 mem a) (load8 mem (u64 (a + 1)) << 8)

unfoldable pub load32 : Memory → ℕ → ℕ
load32 mem a = bit_or (load16 mem a) (load16 mem (u64 (a + 2)) << 16)

unfoldable pub load64 : Memory → ℕ → ℕ
load64 mem a = bit_or (load32 mem a) (load32 mem (u64 (a + 4)) << 32)

unfoldable pub store8 : Memory → ℕ → ℕ → Memory
store8 mem a v = update mem (bit_and a 0xffff) v

unfoldable pub store16 : Memory → ℕ → ℕ → Memory
store16 mem a v = store8 (store8 mem a (bit_and v 0xff)) (u64 (a + 1)) (u8 (v >> 8))

unfoldable pub store32 : Memory → ℕ → ℕ → Memory
store32 mem a v = store16 (store16 mem a (bit_and v 0xffff)) (u64 (a + 2)) (u16 (v >> 16))

unfoldable pub store64 : Memory → ℕ → ℕ → Memory
store64 mem a v = store32 (store32 mem a (u32 v)) (u64 (a + 4)) (u32 (v >> 32))

unfoldable pub fetch : Memory → ℕ → ℕ
fetch = load32
