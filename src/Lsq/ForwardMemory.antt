-- ===== src/Lsq/ForwardMemory.antt =====
-- Forwarding against the memory: what a load is given of a store that covers it is what it would read
-- once the store has been written.
use native.Mathlib.Decide.{ℕ_discrete}
use rv64_ooo_core.Prelude.{
  ℕ, zero, suc, ◌+◌, ◌-◌, ◌*◌, ◌/◌, ◌%◌, ◌^◌, ◌≤◌, ◌<◌, ◌≡◌, refl, sym, ap, ap₂, ◌∙◌, arith, ◌==◌,
  if◌then◌else◌, Bool, true, false, bit_or, ne→==,
}
use rv64_ooo_core.Prelude.Bits.{bit_or-blocks, bit_or-zero, zero-bit_or, bit_and_mask}
use rv64_ooo_core.Prelude.Digits.{
  byte, byte_next, byte-lt, assembled, assembled_last, assembled_one, assembled_two, assembled_four,
  assembled_eight, limit,
}
use rv64_ooo_core.Prelude.Word.{u8, u64, ◌<<◌, ◌>>◌}
use native.Mathlib.Nat.{mod-mod, div-le_self}
use rv64_ooo_core.Lsq.{
  LqEntry, cut, SqEntry, bytes_of, extend, raw_loop, from_memory, covers, forwarded,
}
use rv64_ooo_core.Lsq.Bench.{write_bytes, written}

module _ (addr v : ℕ) where
  -- The bytes before those that the loop writes.
  write_bytes-before :
      (mem : ℕ → ℕ) (left b k : ℕ)
      → k < b
      → addr + b + left ≤ 2 ^ 64
      → write_bytes mem addr v left b (addr + k) ≡ mem (addr + k)
  unfolding write_bytes
  write_bytes-before mem zero b k h le = refl
  write_bytes-before mem (suc left) b k h le =
      write_bytes-before (λ a. if a == u64 (addr + b) then u8 (v >> (8 * b)) else mem a) left
        (suc b) k (omega arith) (omega arith)
      ∙ rw (ne→== (addr + k) (u64 (addr + b)) (omega arith)) refl

  write_bytes-at :
      (mem : ℕ → ℕ) (left b k : ℕ)
      → b ≤ k
      → k < b + left
      → addr + b + left ≤ 2 ^ 64
      → write_bytes mem addr v left b (addr + k) ≡ u8 (v >> (8 * k))
  unfolding write_bytes
  write_bytes-at mem zero b k h lt le = absurd (omega arith)
  write_bytes-at mem (suc left) b k h lt le = elim (ℕ_discrete b k) [
    | yes e ↦
        write_bytes-before (λ a. if a == u64 (addr + b) then u8 (v >> (8 * b)) else mem a) left
          (suc b) k (omega arith) (omega arith)
        ∙ (let same : (addr + k == u64 (addr + b)) ≡ true = ground arith in
            rw same (ap (λ (j : ℕ). u8 (v >> (8 * j))) e))
    | no ne ↦
        write_bytes-at (λ a. if a == u64 (addr + b) then u8 (v >> (8 * b)) else mem a) left (suc b)
          k (omega arith) (omega arith) (omega arith)
  ]

limit_is : (b : ℕ) → b < 8 → limit b ≡ 2 ^ (8 * b)
unfolding limit
limit_is zero h = refl
limit_is (suc zero) h = refl
limit_is (suc (suc zero)) h = refl
limit_is (suc (suc (suc zero))) h = refl
limit_is (suc (suc (suc (suc zero)))) h = refl
limit_is (suc (suc (suc (suc (suc zero))))) h = refl
limit_is (suc (suc (suc (suc (suc (suc zero)))))) h = refl
limit_is (suc (suc (suc (suc (suc (suc (suc zero))))))) h = refl
limit_is (suc (suc (suc (suc (suc (suc (suc (suc b)))))))) h = absurd (omega arith)

assembled-lt : (n w : ℕ) → assembled n w < limit n
unfolding assembled limit
assembled-lt zero w = omega arith
assembled-lt (suc n) w = let h = assembled-lt n (w / 2 ^ 8) in omega arith

byte-shift : (k v : ℕ) → k < 8 → u8 (v >> (8 * k)) ≡ byte v k
unfolding byte
byte-shift zero v h = omega arith
byte-shift (suc zero) v h = omega arith
byte-shift (suc (suc zero)) v h = omega arith
byte-shift (suc (suc (suc zero))) v h = omega arith
byte-shift (suc (suc (suc (suc zero)))) v h = omega arith
byte-shift (suc (suc (suc (suc (suc zero))))) v h = omega arith
byte-shift (suc (suc (suc (suc (suc (suc zero)))))) v h = omega arith
byte-shift (suc (suc (suc (suc (suc (suc (suc zero))))))) v h = omega arith
byte-shift (suc (suc (suc (suc (suc (suc (suc (suc b)))))))) v h = absurd (omega arith)

byte_fits : (b x : ℕ) → b < 8 → x < 2 ^ 8 → x * 2 ^ (8 * b) < 2 ^ 64
byte_fits zero x h lt = omega arith
byte_fits (suc zero) x h lt = omega arith
byte_fits (suc (suc zero)) x h lt = omega arith
byte_fits (suc (suc (suc zero))) x h lt = omega arith
byte_fits (suc (suc (suc (suc zero)))) x h lt = omega arith
byte_fits (suc (suc (suc (suc (suc zero))))) x h lt = omega arith
byte_fits (suc (suc (suc (suc (suc (suc zero)))))) x h lt = omega arith
byte_fits (suc (suc (suc (suc (suc (suc (suc zero))))))) x h lt = omega arith
byte_fits (suc (suc (suc (suc (suc (suc (suc (suc b)))))))) x h lt = absurd (omega arith)

shift_next : (b v : ℕ) → b < 7 → v / 2 ^ (8 * suc b) ≡ v / 2 ^ 8 / 2 ^ (8 * b)
shift_next zero v h = omega arith
shift_next (suc zero) v h = omega arith
shift_next (suc (suc zero)) v h = omega arith
shift_next (suc (suc (suc zero))) v h = omega arith
shift_next (suc (suc (suc (suc zero)))) v h = omega arith
shift_next (suc (suc (suc (suc (suc zero))))) v h = omega arith
shift_next (suc (suc (suc (suc (suc (suc zero)))))) v h = omega arith
shift_next (suc (suc (suc (suc (suc (suc (suc b))))))) v h = absurd (omega arith)

-- One more byte above those read so far.
join_byte :
    (b w : ℕ) → b < 8 → bit_or (assembled b w) (u64 (byte w b << (8 * b))) ≡ assembled (suc b) w
join_byte b w h =
    let low = assembled-lt b w in
    let fits = byte_fits b (byte w b) h (byte-lt w b) in
    let size = limit_is b h in
    ap₂ bit_or {y = 0 * 2 ^ (8 * b) + assembled b w} {v = byte w b * 2 ^ (8 * b) + 0} (omega arith)
      (omega arith)
    ∙ (bit_or-blocks (8 * b) 0 (byte w b) (assembled b w) 0 (omega arith) (omega arith)
        ∙ (rw (zero-bit_or, bit_or-zero, ← size) refl ∙ sym (assembled_last b w)))

raw_loop-eq :
    (mem : ℕ → ℕ) (lo w left b : ℕ)
    → b + left ≤ 8
    → ((k : ℕ) → k < 8 → b ≤ k → k < b + left → mem (u64 (lo + k)) ≡ byte w k)
    → raw_loop mem lo left b (assembled b w) ≡ assembled (b + left) w
unfolding raw_loop
raw_loop-eq mem lo w zero b le h = ap (λ (n : ℕ). assembled n w) {x = b} (omega arith)
raw_loop-eq mem lo w (suc left) b le h =
    ap (raw_loop mem lo left (suc b)) (
      ap (λ (x : ℕ). bit_or (assembled b w) (u64 (x << (8 * b))))
        (h b (omega arith) (omega arith) (omega arith))
      ∙ join_byte b w (omega arith))
    ∙ (raw_loop-eq mem lo w left (suc b) (omega arith)
          (λ k h1 h2 h3. h k h1 (omega arith) (omega arith))
        ∙ ap (λ (n : ℕ). assembled n w) {x = suc b + left} (omega arith))

-- Byte `k` after a shift by `off` bytes.
shifted : (off k v : ℕ) → off < 8 → byte (v >> (8 * off)) k ≡ byte v (off + k)
unfolding byte
shifted zero k v h =
    ap₂ byte {x = v >> (8 * 0)} {y = v} {u = k} {v = 0 + k} (omega arith) (omega arith)
shifted (suc off) k v h =
    ap (λ (x : ℕ). byte x k) (shift_next off v (omega arith))
    ∙ (shifted off k (v / 2 ^ 8) (omega arith)
        ∙ (byte_next v (off + k) ∙ ap (byte v) {x = suc (off + k)} {y = suc off + k} (omega arith)))

-- The sizes of accesses: 1, 2, 4 and 8 bytes.
bytes-le : (size : ℕ) → size ≤ 3 → bytes_of size ≤ 8
unfolding bytes_of
bytes-le zero h = omega arith
bytes-le (suc zero) h = omega arith
bytes-le (suc (suc zero)) h = omega arith
bytes-le (suc (suc (suc zero))) h = omega arith
bytes-le (suc (suc (suc (suc n)))) h = absurd (omega arith)

cut_twice : (k w : ℕ) (sgn : Bool) → cut k (w % 2 ^ k) sgn ≡ cut k w sgn
cut_twice k w true = rw (mod-mod w (2 ^ k)) refl
cut_twice k w false = rw (bit_and_mask k (w % 2 ^ k), bit_and_mask k w, mod-mod w (2 ^ k)) refl

-- What is above the size of the load does not count.
extend-assembled :
    (size w : ℕ) (sgn : Bool)
    → size ≤ 3
    → w < 2 ^ 64
    → extend (assembled (bytes_of size) w) size sgn ≡ extend w size sgn
unfolding bytes_of extend
extend-assembled zero w sgn h hw = rw (assembled_one w) (cut_twice 8 w sgn)
extend-assembled (suc zero) w sgn h hw = rw (assembled_two w) (cut_twice 16 w sgn)
extend-assembled (suc (suc zero)) w sgn h hw = rw (assembled_four w) (cut_twice 32 w sgn)
extend-assembled (suc (suc (suc zero))) w sgn h hw = rw (assembled_eight w) (omega arith)
extend-assembled (suc (suc (suc (suc n)))) w sgn h hw = absurd (omega arith)

-- The two accesses have a size that the instructions have, and end below 2^64.
pub record IsAccess (addr size : ℕ) : Type 0 where
  pub size_in : size ≤ 3
  pub end_in : addr + bytes_of size < 2 ^ 64

module _ (lqd sqd w : ℕ) (mem : ℕ → ℕ) (l : LqEntry) (e : SqEntry) (c : covers lqd sqd w l e ≡ true)
    (al : IsAccess l.addr l.size) (ae : IsAccess e.addr e.size) (hd : e.store_data < 2 ^ 64) where
  abbrev off : ℕ
  off = l.addr - e.addr

  inside : (e.addr ≤ l.addr) × (l.addr + bytes_of l.size ≤ e.addr + bytes_of e.size)
  inside = let a = al.end_in in let b = ae.end_in in (ground arith, ground arith)

  -- The bytes of the load, once the store is written.
  load_bytes :
      (k : ℕ)
      → k < bytes_of l.size
      → write_bytes mem e.addr e.store_data (bytes_of e.size) 0 (u64 (l.addr + k))
        ≡ byte (e.store_data >> (8 * off)) k
  load_bytes k h =
      let i = inside in
      let a = al.end_in in
      let b = ae.end_in in
      let small = bytes-le e.size ae.size_in in
      let place : u64 (l.addr + k) ≡ e.addr + (off + k) = omega (arith, i.0) in
      rw place (
        write_bytes-at e.addr e.store_data mem (bytes_of e.size) 0 (off + k) (omega arith)
          (omega (arith, i.0, i.1)) (omega arith)
        ∙ (byte-shift (off + k) e.store_data (omega (arith, i.0, i.1))
            ∙ sym (shifted off k e.store_data (omega (arith, i.0, i.1)))))

  load_raw :
      raw_loop
        (write_bytes mem e.addr e.store_data (bytes_of e.size) 0)
        l.addr
        (bytes_of l.size)
        0
        0
      ≡ assembled (bytes_of l.size) (e.store_data >> (8 * off))
  unfolding assembled
  load_raw =
      raw_loop-eq (write_bytes mem e.addr e.store_data (bytes_of e.size) 0) l.addr
        (e.store_data >> (8 * off)) (bytes_of l.size) 0 (omega (arith, bytes-le l.size al.size_in))
        (λ k h8 h0 h. load_bytes k (omega arith))
      ∙ ap (λ (n : ℕ). assembled n (e.store_data >> (8 * off))) (omega arith)

  shift-lt : e.store_data >> (8 * off) < 2 ^ 64
  shift-lt = omega (arith, div-le_self e.store_data (2 ^ (8 * off)))

-- A store that covers a load, both of 1, 2, 4 or 8 bytes and ending below 2^64, forwards what the load
-- reads from memory once the store is written.
pub forwarded-from_memory :
    (lqd sqd w : ℕ) (mem : ℕ → ℕ) (l : LqEntry) (e : SqEntry)
    → covers lqd sqd w l e ≡ true
    → IsAccess l.addr l.size
    → IsAccess e.addr e.size
    → e.store_data < 2 ^ 64
    → from_memory
        (written mem (record { addr = e.addr; size = e.size; store_data = e.store_data }))
        l
      ≡ forwarded lqd sqd w l e
unfolding from_memory written
forwarded-from_memory lqd sqd w mem l e c al ae hd =
    let v = e.store_data >> (8 * (l.addr - e.addr)) in
    ap (λ (raw : ℕ). extend raw l.size l.sgn) (load_raw lqd sqd w mem l e c al ae hd)
    ∙ (extend-assembled l.size v l.sgn al.size_in (shift-lt lqd sqd w mem l e c al ae hd)
        ∙ ap (λ (n : ℕ). extend (e.store_data >> n) l.size l.sgn) (omega arith))
