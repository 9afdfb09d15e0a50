-- ===== src/Iss/Bytes.antt =====
-- The memory of the simulator byte by byte: a load puts the bytes at its addresses together, and a
-- store of `n` bytes changes those at the `n` addresses from its own on, modulo 2^16.
use rv64_ooo_core.Prelude.{
  ℕ, zero, suc, ◌+◌, ◌-◌, ◌*◌, ◌/◌, ◌%◌, ◌^◌, ◌≤◌, ◌<◌, ◌≡◌, refl, ◌∙◌, ap, ap₂, arith, ltb,
  if◌then◌else◌, bit_and,
}
use native.Mathlib.Decide.{ℕ_discrete}
use rv64_ooo_core.Prelude.Bits.{bit_and_mask, bit_or_high}
use rv64_ooo_core.Prelude.Digits.{byte}
use rv64_ooo_core.Prelude.Word.{u8, u16, u32, u64}
use rv64_ooo_core.Iss.Memory.{
  Memory, load8, load16, load32, load64, store8, store16, store32, store64,
}

abbrev pub IsBytes : Memory → Type 0
IsBytes mem = (b : ℕ) → mem b < 2 ^ 8

-- The number of the `n` bytes from `a` on, lowest first.
unfoldable pub word : ℕ → Memory → ℕ → ℕ
word zero mem a = 0
word (suc n) mem a = mem (a % 2 ^ 16) + word n mem (a + 1) * 2 ^ 8

-- How many addresses after `a` the address `b` is.
abbrev pub away : ℕ → ℕ → ℕ
away a b = (b + 2 ^ 16 - a % 2 ^ 16) % 2 ^ 16

load8-eq : (mem : Memory) (a : ℕ) → load8 mem a ≡ mem (a % 2 ^ 16)
unfolding load8
load8-eq mem a = ap mem (bit_and_mask 16 a)

load8_next : (mem : Memory) (a k : ℕ) → load8 mem (u64 (a + k)) ≡ mem ((a + k) % 2 ^ 16)
load8_next mem a k = load8-eq mem (u64 (a + k)) ∙ ap mem (omega arith)

module _ (mem : Memory) (bytes : IsBytes mem) where
  word_mod : (n a b : ℕ) → a % 2 ^ 16 ≡ b % 2 ^ 16 → word n mem a ≡ word n mem b
  unfolding word
  word_mod zero a b e = refl
  word_mod (suc n) a b e =
      ap₂ (λ (x y : ℕ). x + y * 2 ^ 8) (ap mem e) (word_mod n (a + 1) (b + 1) (omega arith))

  pub load8-word : (a : ℕ) → load8 mem a ≡ word 1 mem a
  unfolding word
  load8-word a = omega (arith, load8-eq mem a)

  pub load16-word : (a : ℕ) → load16 mem a ≡ word 2 mem a
  unfolding load16 word
  load16-word a =
      rw (load8-eq mem a, load8_next mem a 1)
        (bit_or_high 8 (mem ((a + 1) % 2 ^ 16)) (mem (a % 2 ^ 16)) (bytes (a % 2 ^ 16))
          ∙ omega arith)

  two_bytes : (a : ℕ) → word 2 mem a < 2 ^ 16
  unfolding word
  two_bytes a = omega (arith, bytes (a % 2 ^ 16), bytes ((a + 1) % 2 ^ 16))

  pub load32-word : (a : ℕ) → load32 mem a ≡ word 4 mem a
  unfolding load32
  load32-word a =
      rw
        (
          load16-word a,
          load16-word (u64 (a + 2)),
          word_mod 2 (u64 (a + 2)) (a + 1 + 1) (omega arith),
          bit_or_high 16 (word 2 mem (a + 1 + 1)) (word 2 mem a) (two_bytes a),
        )
        (unfold word in omega arith)

  four_bytes : (a : ℕ) → word 4 mem a < 2 ^ 32
  unfolding word
  four_bytes a = omega (
    arith,
    bytes (a % 2 ^ 16),
    bytes ((a + 1) % 2 ^ 16),
    bytes ((a + 1 + 1) % 2 ^ 16),
    bytes ((a + 1 + 1 + 1) % 2 ^ 16),
  )

  pub load64-word : (a : ℕ) → load64 mem a ≡ word 8 mem a
  unfolding load64
  load64-word a =
      rw
        (
          load32-word a,
          load32-word (u64 (a + 4)),
          word_mod 4 (u64 (a + 4)) (a + 1 + 1 + 1 + 1) (omega arith),
          bit_or_high 32 (word 4 mem (a + 1 + 1 + 1 + 1)) (word 4 mem a) (four_bytes a),
        )
        (unfold word in omega arith)

-- From the address `k` further on, an address is `k` less away.
away_next :
    (a k b : ℕ)
    → k < 2 ^ 16
    → b < 2 ^ 16
    → away (u64 (a + k)) b ≡ (if ltb (away a b) k then away a b + 2 ^ 16 - k else away a b - k)
away_next a k b hk hb = ground arith

byte_first : (v : ℕ) → byte v 0 ≡ v % 2 ^ 8
unfolding byte
byte_first v = refl

byte_second : (v : ℕ) → byte v 1 ≡ v / 2 ^ 8 % 2 ^ 8
unfolding byte
byte_second v = refl

byte_third_on : (v k : ℕ) → byte v (suc (suc k)) ≡ byte (v / 2 ^ 16) k
unfolding byte
byte_third_on v k = ap (λ (n : ℕ). byte n k) (omega arith)

byte_from_two : (v k : ℕ) → 2 ≤ k → byte v k ≡ byte (v / 2 ^ 16) (k - 2)
byte_from_two v k h = ap (byte v) {y = suc (suc (k - 2))} (omega arith) ∙ byte_third_on v (k - 2)

byte_from_four : (v k : ℕ) → 4 ≤ k → byte v k ≡ byte (v / 2 ^ 32) (k - 4)
byte_from_four v k h =
    byte_from_two v k (omega arith)
    ∙ (byte_from_two (v / 2 ^ 16) (k - 2) (omega arith)
        ∙ ap₂ byte {y = v / 2 ^ 32} {v = k - 4} (omega arith) (omega arith))

byte_low16 : (v k : ℕ) → k < 2 → byte (v % 2 ^ 16) k ≡ byte v k
unfolding byte
byte_low16 v zero h = omega arith
byte_low16 v (suc zero) h = omega arith
byte_low16 v (suc (suc k)) h = absurd (omega arith)

byte_low32 : (v k : ℕ) → k < 4 → byte (v % 2 ^ 32) k ≡ byte v k
unfolding byte
byte_low32 v zero h = omega arith
byte_low32 v (suc zero) h = omega arith
byte_low32 v (suc (suc zero)) h = omega arith
byte_low32 v (suc (suc (suc zero))) h = omega arith
byte_low32 v (suc (suc (suc (suc k)))) h = absurd (omega arith)

-- What a store leaves at each address.
pub store8-at :
    (mem : Memory) (a v b : ℕ)
    → b < 2 ^ 16
    → store8 mem a v b ≡ (if ltb (away a b) 1 then v else mem b)
unfolding store8
store8-at mem a v b h = ground (arith, bit_and_mask 16 a)

pub store16-at :
    (mem : Memory) (a v b : ℕ)
    → b < 2 ^ 16
    → v < 2 ^ 16
    → store16 mem a v b ≡ (if ltb (away a b) 2 then byte v (away a b) else mem b)
unfolding store16
store16-at mem a v b h hv =
    rw
      (
        store8-at (store8 mem a (bit_and v 0xff)) (u64 (a + 1)) (u8 (v / 2 ^ 8)) b h,
        store8-at mem a (bit_and v 0xff) b h,
        bit_and_mask 8 v,
        away_next a 1 b (omega arith) h,
      )
      (elim (ℕ_discrete (away a b) 0) [
        | yes e ↦ rw (e, byte_first v) (ground arith)
        | no p ↦ elim (ℕ_discrete (away a b) 1) [
          | yes e ↦ rw (e, byte_second v) (ground arith)
          | no q ↦ ground arith
        ]
      ])

pub store32-at :
    (mem : Memory) (a v b : ℕ)
    → b < 2 ^ 16
    → v < 2 ^ 32
    → store32 mem a v b ≡ (if ltb (away a b) 4 then byte v (away a b) else mem b)
unfolding store32
store32-at mem a v b h hv =
    rw
      (
        store16-at (store16 mem a (bit_and v 0xffff)) (u64 (a + 2)) (u16 (v / 2 ^ 16)) b h
            (omega arith),
        store16-at mem a (bit_and v 0xffff) b h (rw (bit_and_mask 16 v) (omega arith)),
        bit_and_mask 16 v,
        away_next a 2 b (omega arith) h,
      )
      (ground (
        arith,
        byte_low16 (v / 2 ^ 16) (away a b - 2),
        byte_low16 v (away a b),
        byte_from_two v (away a b),
      ))

-- `store64` puts the eight bytes of the value at the eight addresses from its own on, round the end of
-- the memory, and changes no other byte.
pub store64-at :
    (mem : Memory) (a v b : ℕ)
    → b < 2 ^ 16
    → v < 2 ^ 64
    → store64 mem a v b ≡ (if ltb (away a b) 8 then byte v (away a b) else mem b)
unfolding store64
store64-at mem a v b h hv =
    rw
      (
        store32-at (store32 mem a (u32 v)) (u64 (a + 4)) (u32 (v / 2 ^ 32)) b h (omega arith),
        store32-at mem a (u32 v) b h (omega arith),
        away_next a 4 b (omega arith) h,
      )
      (ground (
        arith,
        byte_low32 (v / 2 ^ 32) (away a b - 4),
        byte_low32 v (away a b),
        byte_from_four v (away a b),
      ))
