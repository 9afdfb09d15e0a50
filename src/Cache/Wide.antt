-- ===== src/Cache/Wide.antt =====
-- The conversion of a line of 64 bytes to 16 words of 32 bits, and back.
use rv64_ooo_core.Prelude.{
  ℕ, zero, suc, ◌+◌, ◌*◌, ◌/◌, ◌%◌, ◌^◌, ◌<◌, ◌≡◌, ◌∙◌, ap, arith, bit_and, List, length, tabulate,
  get_or, tabulate-eq, get_or-tabulate,
}
use rv64_ooo_core.Prelude.Bits.{bit_or_high, bit_and_mask, zero-bit_or}
use rv64_ooo_core.Prelude.Word.{u8, u32, ◌<<◌, ◌>>◌}
use rv64_ooo_core.Cache.{wide_to_bytes, bytes_to_wide, word_loop}

-- The word of four bytes.
abbrev joined : (ℕ → ℕ) → ℕ
joined f = f 0 + f 1 * 2 ^ 8 + f 2 * 2 ^ 16 + f 3 * 2 ^ 24

word_loop-eq :
    (b : List ℕ) (k : ℕ)
    → ((j : ℕ) → j < 4 → get_or b (k + j) 0 < 2 ^ 8)
    → word_loop b k 4 0 0 ≡ joined (λ j. get_or b (k + j) 0)
unfolding word_loop
word_loop-eq b k h =
    let h0 = h 0 (omega arith) in
    let h1 = h 1 (omega arith) in
    let h2 = h 2 (omega arith) in
    let h3 = h 3 (omega arith) in
    let e0 : u32 (get_or b (k + 0) 0 << 0) ≡ get_or b (k + 0) 0 = omega (arith, h0) in
    let e1 : u32 (get_or b (k + 1) 0 << 8) ≡ get_or b (k + 1) 0 * 2 ^ 8 = omega (arith, h1) in
    let e2 : u32 (get_or b (k + 2) 0 << 16) ≡ get_or b (k + 2) 0 * 2 ^ 16 = omega (arith, h2) in
    let e3 : u32 (get_or b (k + 3) 0 << 24) ≡ get_or b (k + 3) 0 * 2 ^ 24 = omega (arith, h3) in
    rw
      (
        e0,
        e1,
        e2,
        e3,
        zero-bit_or (get_or b (k + 0) 0),
        bit_or_high 8 (get_or b (k + 1) 0) (get_or b (k + 0) 0) h0,
        bit_or_high 16 (get_or b (k + 2) 0) (get_or b (k + 0) 0 + get_or b (k + 1) 0 * 2 ^ 8)
            (omega (arith, h0, h1)),
      )
      (bit_or_high 24 (get_or b (k + 3) 0)
        (get_or b (k + 0) 0 + get_or b (k + 1) 0 * 2 ^ 8 + get_or b (k + 2) 0 * 2 ^ 16)
        (omega (arith, h0, h1, h2)))

joined_byte :
    (f : ℕ → ℕ) → ((j : ℕ) → f j < 2 ^ 8) → (j : ℕ) → j < 4 → joined f / 2 ^ (8 * j) % 2 ^ 8 ≡ f j
joined_byte f h zero p = omega (arith, h 0)
joined_byte f h (suc zero) p = omega (arith, h 0, h 1)
joined_byte f h (suc (suc zero)) p = omega (arith, h 0, h 1, h 2)
joined_byte f h (suc (suc (suc zero))) p = omega (arith, h 0, h 1, h 2, h 3)
joined_byte f h (suc (suc (suc (suc j)))) p = absurd (omega arith)

joined_ext : (f g : ℕ → ℕ) → ((j : ℕ) → j < 4 → f j ≡ g j) → joined f ≡ joined g
joined_ext f g h =
    omega (arith, h 0 (omega arith), h 1 (omega arith), h 2 (omega arith), h 3 (omega arith))

joined_bytes : (v : ℕ) → v < 2 ^ 32 → joined (λ j. v / 2 ^ (8 * j) % 2 ^ 8) ≡ v
joined_bytes v h = omega arith

byte_of : (v k : ℕ) → u8 (bit_and (v >> k) 0xff) ≡ v / 2 ^ k % 2 ^ 8
byte_of v k = rw (bit_and_mask 8 (v >> k)) (omega arith)

-- Byte `j` of word `i`.
wide_byte :
    (w : List ℕ) (i j : ℕ)
    → i < 16
    → j < 4
    → get_or (wide_to_bytes w) (i * 4 + j) 0 ≡ get_or w i 0 / 2 ^ (8 * j) % 2 ^ 8
unfolding wide_to_bytes
wide_byte w i j p q =
    let word : (i * 4 + j) / 4 ≡ i = omega arith in
    let place : (i * 4 + j) % 4 ≡ j = omega arith in
    get_or-tabulate (λ k. u8 (bit_and (get_or w (k / 4) 0 >> (8 * (k % 4))) 0xff)) 64 (i * 4 + j) 0
      (omega arith)
    ∙ rw (word, place) (byte_of (get_or w i 0) (8 * j))

-- A line of bytes survives the way to words and back.
pub wide_to_bytes-bytes_to_wide :
    (b : List ℕ)
    → length b ≡ 64
    → ((j : ℕ) → get_or b j 0 < 2 ^ 8)
    → wide_to_bytes (bytes_to_wide b) ≡ b
unfolding wide_to_bytes bytes_to_wide
wide_to_bytes-bytes_to_wide b e h = tabulate-eq _ 64 b 0 e (λ k p.
    byte_of (get_or (tabulate (λ i. word_loop b (i * 4) 4 0 0) 16) (k / 4) 0) (8 * (k % 4))
    ∙ rw
        (
          get_or-tabulate (λ i. word_loop b (i * 4) 4 0 0) 16 (k / 4) 0 (omega arith),
          word_loop-eq b (k / 4 * 4) (λ j _. h (k / 4 * 4 + j)),
        )
        (joined_byte (λ j. get_or b (k / 4 * 4 + j) 0) (λ j. h (k / 4 * 4 + j)) (k % 4)
            (omega arith)
          ∙ ap (λ n. get_or b n 0) (omega arith)))

-- Sixteen words survive the way to bytes and back.
pub bytes_to_wide-wide_to_bytes :
    (w : List ℕ)
    → length w ≡ 16
    → ((i : ℕ) → get_or w i 0 < 2 ^ 32)
    → bytes_to_wide (wide_to_bytes w) ≡ w
unfolding bytes_to_wide
bytes_to_wide-wide_to_bytes w e h = tabulate-eq _ 16 w 0 e (λ i p.
    word_loop-eq (wide_to_bytes w) (i * 4) (λ j q. rw (wide_byte w i j p q) (omega arith))
    ∙ (joined_ext (λ j. get_or (wide_to_bytes w) (i * 4 + j) 0)
          (λ j. get_or w i 0 / 2 ^ (8 * j) % 2 ^ 8) (λ j q. wide_byte w i j p q)
        ∙ joined_bytes (get_or w i 0) (h i)))
