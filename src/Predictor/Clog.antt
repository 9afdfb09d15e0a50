-- ===== src/Predictor/Clog.antt =====
-- `clog2` is the least exponent of 2 that reaches its argument, where a 32-bit shift can.
use native.Mathlib.Decide.{dec_lt, ℕ_discrete}
use native.Mathlib.Nat.{two-pow-succ, one-le-pow, pow-le-pow_right, mod-eq_of_lt}
use rv64_ooo_core.Prelude.{
  ℕ, zero, suc, ◌+◌, ◌^◌, ◌≤◌, ◌<◌, ◌≡◌, refl, ◌∙◌, ap, arith, ltb, true, false, Bool-cases, inl,
  inr, none, some, ltb→lt, lt→ltb, le→ltb,
}
use rv64_ooo_core.Prelude.Word.{u32, ◌<<◌}
use rv64_ooo_core.Predictor.{clog2_loop, clog2}

-- The loop from `r` on returns the first exponent that reaches `n`.
record Least (left n r : ℕ) : Type 0 where
  pub e : ℕ
  pub returned : clog2_loop left n r ≡ some e
  pub from : r ≤ e
  pub defined : e ≤ 31
  pub reaches : n ≤ 2 ^ e
  pub minimal : (k : ℕ) → r ≤ k → k < e → 2 ^ k < n

-- Below 32, the shift is the power.
u32-shift : (r : ℕ) → r ≤ 31 → u32 (1 << r) ≡ 2 ^ r
u32-shift r h =
    let below : 2 ^ r ≤ 2 ^ 31 = pow-le-pow_right (omega arith) h in
    ap u32 {y = 2 ^ r} (omega arith) ∙ mod-eq_of_lt (omega (arith, below))

-- The loop stops at `r`.
stops : (left n r : ℕ) → r ≤ 31 → ltb (2 ^ r) n ≡ false → Least (suc left) n r
unfolding clog2_loop
stops left n r h c = record {
  e = r;
  returned = rw (u32-shift r h, c) refl;
  from = omega arith;
  defined = h;
  reaches = ground arith;
  minimal = λ k p q. absurd (omega arith);
}

-- It goes on to the next exponent.
goes_on :
    (left n r : ℕ) → r ≤ 31 → ltb (2 ^ r) n ≡ true → Least left n (r + 1) → Least (suc left) n r
unfolding clog2_loop
goes_on left n r h c rest = record {
  e = rest.e;
  returned = rw (u32-shift r h, c) rest.returned;
  from = omega (arith, rest.from);
  defined = rest.defined;
  reaches = rest.reaches;
  minimal = λ k p q. elim (ℕ_discrete k r) [
    | yes e ↦ rw e (ltb→lt (2 ^ r) n c)
    | no ne ↦ rest.minimal k (omega arith) q
  ];
}

clog2_loop-Least : (left n r : ℕ) → r + left ≡ 31 → n ≤ 2 ^ 31 → Least (suc left) n r
clog2_loop-Least zero n r h small =
    let top : 2 ^ r ≡ 2 ^ 31 = ap (λ (k : ℕ). 2 ^ k) {y = 31} (omega arith) in
    stops 0 n r (omega arith) (le→ltb (2 ^ r) n (omega arith))
clog2_loop-Least (suc left) n r h small = elim (Bool-cases (ltb (2 ^ r) n)) [
  | inr c ↦ stops (suc left) n r (omega arith) c
  | inl c ↦
      goes_on (suc left) n r (omega arith) c (clog2_loop-Least left n (r + 1) (omega arith) small)
]

-- For an argument of at most 2^31, the loop ends, after at most 31 rounds and with no shift by 32, and
-- `clog2 n` is the least `e` with `n <= 2^e`.
pub clog2_lem :
    (n : ℕ)
    → n ≤ 2 ^ 31
    → (e : ℕ) × (clog2 n ≡ some e) × (e ≤ 31) × (n ≤ 2 ^ e) × ((k : ℕ) → k < e → 2 ^ k < n)
unfolding clog2
clog2_lem n small =
    let l = clog2_loop-Least 31 n 0 (omega arith) small in
    (l.e, l.returned, l.defined, l.reaches, λ k p. l.minimal k (omega arith) p)

past_all : (left n r : ℕ) → r + left ≡ 32 → 2 ^ 31 < n → clog2_loop left n r ≡ none
unfolding clog2_loop
past_all zero n r h big = refl
past_all (suc left) n r h big =
    let defined : r ≤ 31 = omega arith in
    let up : 2 ^ r ≤ 2 ^ 31 = pow-le-pow_right (omega arith) defined in
    rw (u32-shift r defined, lt→ltb (2 ^ r) n (omega (arith, up)))
      (past_all left n (r + 1) (omega arith) big)

-- For a larger one, the loop comes to the shift by 32.
pub clog2-none : (n : ℕ) → 2 ^ 31 < n → clog2 n ≡ none
unfolding clog2
clog2-none n big = past_all 32 n 0 (omega arith) big

pow-lt : (a b : ℕ) → a < b → 2 ^ a < 2 ^ b
pow-lt a b h =
    let up : 2 ^ suc a ≤ 2 ^ b = pow-le-pow_right (omega arith) (omega arith) in
    omega (arith, up, two-pow-succ a, one-le-pow a 2 (omega arith))

-- A power of two has its exponent.
pub clog2-pow : (a : ℕ) → a ≤ 31 → clog2 (2 ^ a) ≡ some a
clog2-pow a small =
    let (e, returned, _, reaches, minimal) =
      clog2_lem (2 ^ a) (pow-le-pow_right (omega arith) small) in
    returned
    ∙ ap some (elim (dec_lt e a) [
      | yes below ↦ absurd (omega (arith, pow-lt e a below))
      | no p ↦ elim (dec_lt a e) [
        | yes above ↦ absurd (omega (arith, minimal a above))
        | no q ↦ omega arith
      ]
    ])
