-- ===== src/Cache/ReadBack.antt =====
-- Reading back what was written to a `ByteMem`.
use rv64_ooo_core.Prelude.{
  ℕ, zero, suc, ◌+◌, ◌-◌, ◌*◌, ◌%◌, ◌^◌, ◌≤◌, ◌<◌, ◌≡◌, refl, ◌∙◌, ap, arith, bit_or, lt→ltb,
  le→ltb, List, length, get_or, tabulate-eq,
}
use native.Mathlib.Nat.{mul_assoc}
use native.Mathlib.Decide.{ℕ_discrete}
use rv64_ooo_core.Prelude.Bits.{bit_or_low}
use rv64_ooo_core.Prelude.Digits.{
  byte, byte-lt, assembled, assembled_last, assembled_one, assembled_two, assembled_four,
  assembled_eight, limit,
}
use rv64_ooo_core.Prelude.Word.{u64, ◌<<◌}
use rv64_ooo_core.Cache.{ByteMem, get, read_loop, read, write_loop, write, read_line, write_line}
use rv64_ooo_core.Cache.Bytes.{away, write_loop-get, write_line_loop-get}

le_zero : (k : ℕ) → k ≤ 0 → k ≡ 0
le_zero k h = omega arith

limit_next : (m : ℕ) → limit (suc m) ≡ limit m * 2 ^ 8
unfolding limit
limit_next m = refl

limit-pos : (k : ℕ) → 0 < limit k
unfolding limit
limit-pos zero = omega arith
limit-pos (suc k) = omega (arith, limit-pos k)

limit_eight : limit 8 ≡ 2 ^ 64
unfolding limit
limit_eight = refl

limit-le : (k m : ℕ) → k ≤ m → limit k ≤ limit m
limit-le k zero h = rw (le_zero k h) (omega arith)
limit-le k (suc m) h = elim (ℕ_discrete k (suc m)) [
  | yes e ↦ rw e (omega arith)
  | no p ↦ omega (arith, limit-le k m (omega arith), limit_next m)
]

-- The loop of `read` puts the bytes of `w` behind `v`, if there is room for them in 64 bits.
read_loop-eq :
    (m : ByteMem) (addr w n k v : ℕ)
    → n + k ≡ 8
    → v < limit k
    → ((i : ℕ) → i < n → get m (u64 (addr + i)) ≡ byte w i)
    → read_loop m addr n v ≡ v * limit n + assembled n w
unfolding read_loop limit assembled
read_loop-eq m addr w zero k v e hv h = omega arith
read_loop-eq m addr w (suc n) k v e hv h =
    let small : v < 2 ^ 56 =
      omega (arith, limit-le (suc k) 8 (omega arith), limit_next k, limit_eight) in
    let top = byte w n in
    let joined : u64 (bit_or (u64 (v << 8)) (get m (u64 (addr + n)))) ≡ v * 2 ^ 8 + top =
      let e1 : u64 (v << 8) ≡ v * 2 ^ 8 = omega arith in
      rw (e1, h n (omega arith), bit_or_low 8 (v * 2 ^ 8) top (omega arith) (byte-lt w n))
        (omega (arith, byte-lt w n)) in
    rw joined (
      read_loop-eq m addr w n (suc k) (v * 2 ^ 8 + top) (omega arith)
        (omega (arith, limit_next k, byte-lt w n)) (λ i p. h i (omega arith))
      ∙ grind (arith, assembled_last n w, mul_assoc))

there : (addr i n : ℕ) → i < n → n < 2 ^ 64 → away (addr + 0) (u64 (addr + i)) ≡ i
there addr i n h hn = omega arith

module _ (m : ByteMem) (addr : ℕ) where
  -- The bytes that `write` leaves.
  written :
      (n v i : ℕ) → n < 2 ^ 64 → i < n → get (write_loop m addr n 0 v) (u64 (addr + i)) ≡ byte v i
  written n v i hn h =
      write_loop-get n m addr 0 v (u64 (addr + i)) (omega arith) hn
      ∙ rw (there addr i n h hn, lt→ltb i n h) refl

  read_loop-write_loop :
      (n v : ℕ) → n ≤ 8 → read_loop (write_loop m addr n 0 v) addr n 0 ≡ assembled n v
  read_loop-write_loop n v h =
      read_loop-eq _ addr v n (8 - n) 0 (omega arith) (limit-pos (8 - n))
        (λ i p. written n v i (omega arith) p)
      ∙ omega arith

  unwritten :
      (n v : ℕ)
      → n ≤ 8
      → (b : ℕ) → b < 2 ^ 64
      → n ≤ away addr b
      → get (write_loop m addr n 0 v) b ≡ get m b
  unwritten n v h b hb far =
      write_loop-get n m addr 0 v b hb (omega arith)
      ∙ rw (le→ltb (away (addr + 0) b) n (omega arith)) refl

  -- A value written is read back with the same size, cut to that size, at every address, also where the
  -- access wraps at 2^64; and `write` changes no byte but those.
  pub read-write :
      (size_log2 v : ℕ)
      → size_log2 ≤ 3
      → (read (write m addr size_log2 v) addr size_log2 ≡ v % 2 ^ (8 * 2 ^ size_log2))
        × ((b : ℕ)
            → b < 2 ^ 64
            → 2 ^ size_log2 ≤ away addr b
            → get (write m addr size_log2 v) b ≡ get m b)
  unfolding read write
  read-write zero v h =
      (read_loop-write_loop 1 v (omega arith) ∙ assembled_one v, unwritten 1 v (omega arith))
  read-write (suc zero) v h =
      (read_loop-write_loop 2 v (omega arith) ∙ assembled_two v, unwritten 2 v (omega arith))
  read-write (suc (suc zero)) v h =
      (read_loop-write_loop 4 v (omega arith) ∙ assembled_four v, unwritten 4 v (omega arith))
  read-write (suc (suc (suc zero))) v h =
      (read_loop-write_loop 8 v (omega arith) ∙ assembled_eight v, unwritten 8 v (omega arith))
  read-write (suc (suc (suc (suc k)))) v h = absurd (omega arith)

  -- A line written is read back, and `write_line` changes no byte outside it.
  pub read_line-write_line :
      (line : List ℕ)
      → length line ≡ 64
      → (read_line (write_line m addr line) addr ≡ line)
        × ((b : ℕ) → b < 2 ^ 64 → 64 ≤ away addr b → get (write_line m addr line) b ≡ get m b)
  unfolding read_line write_line
  read_line-write_line line e = (
    tabulate-eq _ 64 line 0 e (λ k h.
        write_line_loop-get 64 m addr line 0 (u64 (addr + k)) (omega arith) (omega arith)
        ∙ rw (there addr k 64 h (omega arith), lt→ltb k 64 h)
            (ap (λ n. get_or line n 0) (omega arith))),
    λ b hb far.
        write_line_loop-get 64 m addr line 0 b hb (omega arith)
        ∙ rw (le→ltb (away (addr + 0) b) 64 (omega arith)) refl,
  )
