-- ===== src/Cache/Bytes.antt =====
-- What `ByteMem::get` finds after `set`, and after the loops of `write` and `write_line`.
use native.Mathlib.Decide.{ℕ_discrete}
use rv64_ooo_core.Prelude.{
  ℕ, zero, suc, ◌+◌, ◌-◌, ◌%◌, ◌^◌, ◌<◌, ◌≡◌, refl, ◌∙◌, ap, arith, bit_and, ltb, ◌==◌,
  if◌then◌else◌, some, false, List, [], ◌∷◌, get_or, ==_refl, ne→==, lt→ltb,
}
use rv64_ooo_core.Prelude.Bits.{bit_and_mask}
use rv64_ooo_core.Prelude.Word.{u8, u64, ◌>>◌}
use rv64_ooo_core.Prelude.Digits.{byte, byte_first, byte_next}
use rv64_ooo_core.Cache.{ByteMem, find, get, put, write_loop, write_line_loop}

pub find-put :
    (m : ByteMem) (a v b : ℕ) → find (put m a v) b ≡ (if a == b then some v else find m b)
unfolding find put
find-put [] a v b = refl
find-put (c ∷ m) a v b = elim (ℕ_discrete c.addr a) [
  | yes p ↦ rw (p, ==_refl a) (ground arith)
  | no p ↦ rw (ne→== c.addr a p) (ground (arith, find-put m a v b))
]

pub get-put : (m : ByteMem) (a v b : ℕ) → get (put m a v) b ≡ (if a == b then v else get m b)
unfolding get
get-put m a v b = rw (find-put m a v b) (ground arith)

-- How many addresses after `a` the address `b` is, modulo 2^64.
abbrev pub away : ℕ → ℕ → ℕ
away a b = (b + 2 ^ 64 - a % 2 ^ 64) % 2 ^ 64

module _ (a a' b n : ℕ) (next : a' ≡ a + 1) (h : b < 2 ^ 64) (hn : suc n < 2 ^ 64) where
  -- One round of a loop that writes `n + 1` bytes from `a` on, `f` the bytes: the first is written, and
  -- the rest of the loop writes the others, which are those of `g`.
  pub one_round :
      (f g : ℕ → ℕ) (first old : ℕ)
      → first ≡ f 0
      → ((k : ℕ) → g k ≡ f (suc k))
      → (if ltb (away a' b) n then g (away a' b) else if a % 2 ^ 64 == b then first else old)
        ≡ (if ltb (away a b) (suc n) then f (away a b) else old)
  one_round f g first old hf hg = elim (ℕ_discrete (a % 2 ^ 64) b) [
    | yes e ↦
        let far : ltb (away a' b) n ≡ false = ground arith in
        let here : away a b ≡ 0 = omega arith in
        rw (far, here, lt→ltb 0 (suc n) (omega arith), e, ==_refl b) hf
    | no p ↦
        let nearer : away a b ≡ suc (away a' b) = omega arith in
        rw (nearer, ne→== (a % 2 ^ 64) b p) (ground (arith, hg (away a' b)))
  ]

-- The bytes from `addr + i` on become those of the line, and no other changes.
pub write_line_loop-get :
    (left : ℕ) (m : ByteMem) (addr : ℕ) (line : List ℕ) (i b : ℕ)
    → b < 2 ^ 64
    → left < 2 ^ 64
    → get (write_line_loop m addr line left i) b
      ≡ (if ltb (away (addr + i) b) left then get_or line (i + away (addr + i) b) 0 else get m b)
unfolding write_line_loop
write_line_loop-get zero m addr line i b h hl = ground arith
write_line_loop-get (suc left) m addr line i b h hl =
    write_line_loop-get left (put m (u64 (addr + i)) (get_or line i 0)) addr line (suc i) b h
      (omega arith)
    ∙ rw (get-put m (u64 (addr + i)) (get_or line i 0) b) (
        one_round (addr + i) (addr + suc i) b left (omega arith) h hl (λ k. get_or line (i + k) 0)
          (λ k. get_or line (suc i + k) 0) (get_or line i 0) (get m b)
          (ap (λ n. get_or line n 0) {y = i + 0} (omega arith))
          (λ k. ap (λ n. get_or line n 0) {y = i + suc k} (omega arith)))

-- The same of `write`, and the bytes of its value.
pub write_loop-get :
    (left : ℕ) (m : ByteMem) (addr i v b : ℕ)
    → b < 2 ^ 64
    → left < 2 ^ 64
    → get (write_loop m addr left i v) b
      ≡ (if ltb (away (addr + i) b) left then byte v (away (addr + i) b) else get m b)
unfolding write_loop
write_loop-get zero m addr i v b h hl = ground arith
write_loop-get (suc left) m addr i v b h hl =
    write_loop-get left (put m (u64 (addr + i)) (u8 (bit_and v 0xff))) addr (suc i) (v >> 8) b h
      (omega arith)
    ∙ rw (get-put m (u64 (addr + i)) (u8 (bit_and v 0xff)) b) (
        one_round (addr + i) (addr + suc i) b left (omega arith) h hl (byte v) (byte (v >> 8))
          (u8 (bit_and v 0xff)) (get m b) (rw (bit_and_mask 8 v) (omega (arith, byte_first v)))
          (λ k. byte_next v k))
