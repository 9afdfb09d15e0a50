-- ===== src/Prelude/Bits.antt =====
-- The bit operations at variables: an operation works on blocks of digits apart, so a mask is a
-- remainder, and the union of disjoint fields a sum.
use Prim.Native.Nat.{
  ℕ, zero, suc, ◌+◌, ◌-◌, ◌*◌, ◌/◌, ◌%◌, ◌^◌, ◌≤◌, ◌<◌, min, max, bit_and, bit_or, bit_xor, digits,
  differ, bit_and-bitwise, bit_or-bitwise, bit_xor-bitwise,
}
use native.Mathlib.Nat.{
  pow-suc, one-le-pow, div-add-mod', mod-lt, mod-eq_of_lt, mod-eq-sub-mod, div-eq_of_lt,
  div-eq-sub-div,
}
use native.Mathlib.Decide.{dec_lt}
use native.Mathlib.Omega.{arith}
use mathlib.Core.Path.{◌≡◌, refl, sym, ap, ap₂, ◌∙◌}
use mathlib.Core.WellFounded
use rv64_ooo_core.Prelude.Order.{lt_wf}
use rv64_ooo_core.Prelude.Tests.{ltb, if◌then◌else◌, lt→ltb, le→ltb}

-- Any operation that is computed digit by digit.
module _ (z : ℕ → ℕ) (f : ℕ → ℕ → ℕ) where
  -- More fuel than the first number changes nothing.
  digits_enough : (a : ℕ) → (n b : ℕ) → a ≤ n → digits z f n a b ≡ digits z f a a b
  digits_enough a =
      WellFounded.induction lt_wf {C = λ a. (n b : ℕ) → a ≤ n → digits z f n a b ≡ digits z f a a b}
        a step
    where
      step :
          (a : ℕ)
          → ((c : ℕ) → c < a → (n b : ℕ) → c ≤ n → digits z f n c b ≡ digits z f c c b)
          → (n b : ℕ) → a ≤ n
          → digits z f n a b ≡ digits z f a a b
      step zero ih zero b h = refl
      step zero ih (suc n) b h = refl
      step (suc a) ih zero b h = elim h [ ]
      step (suc a) ih (suc n) b h =
          ap (λ (t : ℕ). t * 2 + f (suc a % 2) (b % 2))
            (ih (suc a / 2) (omega arith) n (b / 2) (omega arith)
              ∙ sym (ih (suc a / 2) (omega arith) a (b / 2) (omega arith)))

  -- One equation for the lowest digit, if the operation's end case agrees with its digits.
  digits_lowest :
      (a b : ℕ)
      → z b ≡ z (b / 2) * 2 + f 0 (b % 2)
      → digits z f a a b ≡ digits z f (a / 2) (a / 2) (b / 2) * 2 + f (a % 2) (b % 2)
  digits_lowest zero b e = e
  digits_lowest (suc a) b e =
      ap (λ (t : ℕ). t * 2 + f (suc a % 2) (b % 2))
        (digits_enough (suc a / 2) a (b / 2) (omega arith))

pub bit_and-lowest : (a b : ℕ) → bit_and a b ≡ bit_and (a / 2) (b / 2) * 2 + min (a % 2) (b % 2)
bit_and-lowest a b = simp bit_and-bitwise (digits_lowest (λ b. 0) min a b (omega arith))

pub bit_or-lowest : (a b : ℕ) → bit_or a b ≡ bit_or (a / 2) (b / 2) * 2 + max (a % 2) (b % 2)
bit_or-lowest a b = simp bit_or-bitwise (digits_lowest (λ b. b) max a b (omega arith))

pub bit_xor-lowest : (a b : ℕ) → bit_xor a b ≡ bit_xor (a / 2) (b / 2) * 2 + differ (a % 2) (b % 2)
bit_xor-lowest a b = simp bit_xor-bitwise (digits_lowest (λ b. b) differ a b (omega arith))

twice_pow : (q k : ℕ) → q * 2 ^ suc k ≡ 2 * (q * 2 ^ k)
twice_pow q k = omega (arith, ap (λ (t : ℕ). q * t) (pow-suc 2 k))

-- Two blocks of digits do not mix.
module _ (op f : ℕ → ℕ → ℕ) (zero_op : op 0 0 ≡ 0)
    (lowest : (a b : ℕ) → op a b ≡ op (a / 2) (b / 2) * 2 + f (a % 2) (b % 2)) where
  pub blocks :
      (k q s r t : ℕ)
      → r < 2 ^ k
      → t < 2 ^ k
      → op (q * 2 ^ k + r) (s * 2 ^ k + t) ≡ op q s * 2 ^ k + op r t
  blocks zero q s r t hr ht =
      let r0 : r ≡ 0 = omega arith in
      let t0 : t ≡ 0 = omega arith in
      let ea : q * 2 ^ 0 + r ≡ q = omega arith in
      let eb : s * 2 ^ 0 + t ≡ s = omega arith in
      rw (ea, eb) (omega (arith, ap₂ op r0 t0 ∙ zero_op))
  blocks (suc k) q s r t hr ht =
      let a = q * 2 ^ suc k + r in
      let b = s * 2 ^ suc k + t in
      let ea : a / 2 ≡ q * 2 ^ k + r / 2 = omega (arith, twice_pow q k) in
      let eb : b / 2 ≡ s * 2 ^ k + t / 2 = omega (arith, twice_pow s k) in
      let ra : a % 2 ≡ r % 2 = omega (arith, twice_pow q k) in
      let rb : b % 2 ≡ t % 2 = omega (arith, twice_pow s k) in
      let hk : r / 2 < 2 ^ k = omega (arith, pow-suc 2 k) in
      let hl : t / 2 < 2 ^ k = omega (arith, pow-suc 2 k) in
      lowest a b
      ∙ rw (ea, eb, ra, rb, blocks k q s (r / 2) (t / 2) hk hl)
          (omega (arith, twice_pow (op q s) k, lowest r t))

pub bit_and-blocks :
    (k q s r t : ℕ)
    → r < 2 ^ k
    → t < 2 ^ k
    → bit_and (q * 2 ^ k + r) (s * 2 ^ k + t) ≡ bit_and q s * 2 ^ k + bit_and r t
bit_and-blocks = blocks bit_and min refl bit_and-lowest

pub bit_or-blocks :
    (k q s r t : ℕ)
    → r < 2 ^ k
    → t < 2 ^ k
    → bit_or (q * 2 ^ k + r) (s * 2 ^ k + t) ≡ bit_or q s * 2 ^ k + bit_or r t
bit_or-blocks = blocks bit_or max refl bit_or-lowest

pub bit_xor-blocks :
    (k q s r t : ℕ)
    → r < 2 ^ k
    → t < 2 ^ k
    → bit_xor (q * 2 ^ k + r) (s * 2 ^ k + t) ≡ bit_xor q s * 2 ^ k + bit_xor r t
bit_xor-blocks = blocks bit_xor differ refl bit_xor-lowest

-- What is neutral at every digit is neutral.
module _ (op : ℕ → ℕ) (lowest : (a : ℕ) → op a ≡ op (a / 2) * 2 + a % 2) (zero_op : op 0 ≡ 0) where
  neutral : (a : ℕ) → op a ≡ a
  neutral a = WellFounded.induction lt_wf {C = λ a. op a ≡ a} a step
    where
      step : (a : ℕ) → ((c : ℕ) → c < a → op c ≡ c) → op a ≡ a
      step zero ih = zero_op
      step (suc a) ih = omega (arith, lowest (suc a), ih (suc a / 2) (omega arith))

pub bit_or-zero : (a : ℕ) → bit_or a 0 ≡ a
bit_or-zero = neutral (λ a. bit_or a 0) (λ a. omega (arith, bit_or-lowest a 0)) refl

pub zero-bit_or : (a : ℕ) → bit_or 0 a ≡ a
zero-bit_or = neutral (λ a. bit_or 0 a) (λ a. omega (arith, bit_or-lowest 0 a)) refl

differ-zero : (a : ℕ) → differ a 0 ≡ a
differ-zero zero = refl
differ-zero (suc a) = refl

pub bit_xor-zero : (a : ℕ) → bit_xor a 0 ≡ a
bit_xor-zero =
    neutral (λ a. bit_xor a 0) (λ a. omega (arith, bit_xor-lowest a 0, differ-zero (a % 2))) refl

pub bit_and-zero : (a : ℕ) → bit_and a 0 ≡ 0
bit_and-zero a = WellFounded.induction lt_wf {C = λ a. bit_and a 0 ≡ 0} a step
  where
    step : (a : ℕ) → ((c : ℕ) → c < a → bit_and c 0 ≡ 0) → bit_and a 0 ≡ 0
    step zero ih = refl
    step (suc a) ih = omega (arith, bit_and-lowest (suc a) 0, ih (suc a / 2) (omega arith))

-- A number below `2 ^ k` passes the mask of `k` ones.
bit_and_ones : (k r : ℕ) → r < 2 ^ k → bit_and r (2 ^ k - 1) ≡ r
bit_and_ones zero r h = omega (arith, bit_and-zero r)
bit_and_ones (suc k) r h =
    let half : (2 ^ suc k - 1) / 2 ≡ 2 ^ k - 1 = omega (arith, pow-suc 2 k, one-le-pow k 2) in
    bit_and-lowest r (2 ^ suc k - 1)
    ∙ rw (half, bit_and_ones k (r / 2) (omega (arith, pow-suc 2 k)))
        (omega (arith, pow-suc 2 k, one-le-pow k 2))

-- `a & (2^k - 1)`
pub bit_and_mask : (k a : ℕ) → bit_and a (2 ^ k - 1) ≡ a % 2 ^ k
bit_and_mask k a =
    let p = one-le-pow k 2 (omega arith) in
    ap₂ bit_and {v = 0 * 2 ^ k + (2 ^ k - 1)} (sym (div-add-mod' a (2 ^ k))) (omega arith)
    ∙ (bit_and-blocks k (a / 2 ^ k) 0 (a % 2 ^ k) (2 ^ k - 1) (mod-lt a p) (omega arith)
        ∙ rw (bit_and-zero, bit_and_ones k (a % 2 ^ k) (mod-lt a p)) (omega arith))

-- `(q << k) | r`, where `r` fits below.
pub bit_or_fields : (k q r : ℕ) → r < 2 ^ k → bit_or (q * 2 ^ k) r ≡ q * 2 ^ k + r
bit_or_fields k q r h =
    let p = one-le-pow k 2 (omega arith) in
    ap₂ bit_or {y = q * 2 ^ k + 0} {v = 0 * 2 ^ k + r} (omega arith) (omega arith)
    ∙ (bit_or-blocks k q 0 0 r (omega arith) h ∙ rw (bit_or-zero, zero-bit_or))

-- The exclusive or with one digit, on numbers with no higher digit.
pub bit_xor_top :
    (k v : ℕ) → v < 2 ^ suc k → bit_xor v (2 ^ k) ≡ (if ltb v (2 ^ k) then v + 2 ^ k else v - 2 ^ k)
bit_xor_top k v h =
    let p = one-le-pow k 2 (omega arith) in
    let q = v / 2 ^ k in
    let r = v % 2 ^ k in
    let split : bit_xor v (2 ^ k) ≡ bit_xor q 1 * 2 ^ k + r =
      ap₂ bit_xor {v = 1 * 2 ^ k + 0} (sym (div-add-mod' v (2 ^ k))) (omega arith)
      ∙ (bit_xor-blocks k q 1 r 0 (mod-lt v p) (omega arith) ∙ rw bit_xor-zero) in
    elim (dec_lt v (2 ^ k)) [
      | yes l ↦
          let q0 : q ≡ 0 = div-eq_of_lt l in
          rw (lt→ltb v (2 ^ k) l) (split ∙ rw q0 (omega (arith, mod-eq_of_lt l)))
      | no l ↦
          let q1 : q ≡ 1 = omega (
            arith,
            div-eq-sub-div {m = 2 ^ k} {n = v} p (omega arith),
            div-eq_of_lt {n = v - 2 ^ k} {m = 2 ^ k} (omega (arith, pow-suc 2 k)),
          ) in
          rw (le→ltb v (2 ^ k) (omega arith)) (
            split
            ∙ rw q1 (
                omega (
                  arith,
                  mod-eq-sub-mod {n = v} {m = 2 ^ k} (omega arith),
                  mod-eq_of_lt {n = v - 2 ^ k} {m = 2 ^ k} (omega (arith, pow-suc 2 k)),
                )))
    ]

-- `a | r`, where `r` fits below the lowest digit of `a`.
pub bit_or_low : (k a r : ℕ) → a % 2 ^ k ≡ 0 → r < 2 ^ k → bit_or a r ≡ a + r
bit_or_low k a r e h =
    let exact : a / 2 ^ k * 2 ^ k ≡ a = omega (arith, div-add-mod' a (2 ^ k)) in
    rw exact at (bit_or_fields k (a / 2 ^ k) r h)

-- `r | (q << k)`, where `r` fits below.
pub bit_or_high : (k q r : ℕ) → r < 2 ^ k → bit_or r (q * 2 ^ k) ≡ r + q * 2 ^ k
bit_or_high k q r h =
    let p = one-le-pow k 2 (omega arith) in
    ap₂ bit_or {x = r} {y = 0 * 2 ^ k + r} {u = q * 2 ^ k} {v = q * 2 ^ k + 0} (omega arith)
      (omega arith)
    ∙ (bit_or-blocks k 0 q r 0 h (omega arith) ∙ rw (bit_or-zero, zero-bit_or) (omega arith))

-- No operation on digits makes a number longer.
module _ (op f : ℕ → ℕ → ℕ) (zero_op : op 0 0 ≡ 0)
    (lowest : (a b : ℕ) → op a b ≡ op (a / 2) (b / 2) * 2 + f (a % 2) (b % 2))
    (digit : (a b : ℕ) → a < 2 → b < 2 → f a b < 2) where
  pub op-lt : (k a b : ℕ) → a < 2 ^ k → b < 2 ^ k → op a b < 2 ^ k
  op-lt zero a b ha hb =
      let a0 : a ≡ 0 = omega arith in
      let b0 : b ≡ 0 = omega arith in rw (a0, b0, zero_op) (omega arith)
  op-lt (suc k) a b ha hb = omega (
    arith,
    pow-suc 2 k,
    lowest a b,
    digit (a % 2) (b % 2) (omega arith) (omega arith),
    op-lt k (a / 2) (b / 2) (omega (arith, pow-suc 2 k)) (omega (arith, pow-suc 2 k)),
  )

pub bit_and-lt : (k a b : ℕ) → a < 2 ^ k → b < 2 ^ k → bit_and a b < 2 ^ k
bit_and-lt = op-lt bit_and min refl bit_and-lowest (λ a b ha hb. omega arith)

pub bit_or-lt : (k a b : ℕ) → a < 2 ^ k → b < 2 ^ k → bit_or a b < 2 ^ k
bit_or-lt = op-lt bit_or max refl bit_or-lowest (λ a b ha hb. omega arith)

differ-lt : (a b : ℕ) → a < 2 → b < 2 → differ a b < 2
differ-lt zero b ha hb = hb
differ-lt (suc zero) zero ha hb = omega arith
differ-lt (suc zero) (suc b) ha hb = omega arith
differ-lt (suc (suc a)) b ha hb = absurd (omega arith)

pub bit_xor-lt : (k a b : ℕ) → a < 2 ^ k → b < 2 ^ k → bit_xor a b < 2 ^ k
bit_xor-lt = op-lt bit_xor differ refl bit_xor-lowest differ-lt
