-- ===== src/Cache/Access.antt =====
-- The accesses of the random test of sim/cache/l1d/tb_l1d.cpp: aligned, and within a line of the cache.
use rv64_ooo_core.Prelude.{
  ℕ, zero, suc, ◌+◌, ◌-◌, ◌*◌, ◌/◌, ◌%◌, ◌^◌, ◌≤◌, ◌<◌, ◌≡◌, arith, ltb, Bool-cases, inl, inr,
}
use rv64_ooo_core.Prelude.Bits.{bit_or_low}
use rv64_ooo_core.Prelude.Word.{u64, ◌<<◌}
use rv64_ooo_core.Cache.Bench.{mk_addr, Rand}
use rv64_ooo_core.Cache.Random.{Access, random_line, random_access}

-- The fields of an address stand side by side.
pub mk_addr_lem :
    (tag idx off : ℕ)
    → tag < 2 ^ 52
    → idx < 64
    → off < 64
    → mk_addr tag idx off ≡ tag * 2 ^ 12 + idx * 2 ^ 6 + off
unfolding mk_addr
mk_addr_lem tag idx off ht hi ho =
    let e1 : u64 (tag << 12) ≡ tag * 2 ^ 12 = omega arith in
    let e2 : u64 (idx << 6) ≡ idx * 2 ^ 6 = omega arith in
    rw (e1, e2, bit_or_low 12 (tag * 2 ^ 12) (idx * 2 ^ 6) (omega arith) (omega arith))
      (bit_or_low 6 (tag * 2 ^ 12 + idx * 2 ^ 6) off (omega arith) (omega arith))

-- An access of 1, 2, 4 or 8 bytes, aligned to its size, that does not leave its line of 64 bytes, in a
-- set and with a tag of the random test.
pub record InLine (a : Access) : Type 0 where
  pub size_in : a.size ≤ 3
  pub aligned : a.addr % 2 ^ a.size ≡ 0
  pub in_line : a.addr % 64 + 2 ^ a.size ≤ 64
  pub tag_in : a.addr / 2 ^ 12 < 264

-- An offset that is aligned and leaves room.
record IsOffset (x size : ℕ) : Type 0 where
  pub multiple : x % 2 ^ size ≡ 0
  pub room : x + 2 ^ size ≤ 64

drawn :
    (o size : ℕ) → size ≤ 3 → IsOffset (o % (65 - 2 ^ size) - o % (65 - 2 ^ size) % 2 ^ size) size
drawn o zero h = record { multiple = omega arith; room = omega arith }
drawn o (suc zero) h = record { multiple = omega arith; room = omega arith }
drawn o (suc (suc zero)) h = record { multiple = omega arith; room = omega arith }
drawn o (suc (suc (suc zero))) h = record { multiple = omega arith; room = omega arith }
drawn o (suc (suc (suc (suc n)))) h = absurd (omega arith)

fields :
    (tag idx x size a : ℕ)
    → a ≡ tag * 2 ^ 12 + idx * 2 ^ 6 + x
    → tag < 264
    → idx < 64
    → size ≤ 3
    → IsOffset x size
    → InLine (record { addr = a; size = size })
fields tag idx x zero a e ht hi h r =
    let m = r.room in
    record { size_in = h; aligned = omega arith; in_line = omega arith; tag_in = omega arith }
fields tag idx x (suc zero) a e ht hi h r =
    let m = r.room in
    let q = r.multiple in
    record { size_in = h; aligned = omega arith; in_line = omega arith; tag_in = omega arith }
fields tag idx x (suc (suc zero)) a e ht hi h r =
    let m = r.room in
    let q = r.multiple in
    record { size_in = h; aligned = omega arith; in_line = omega arith; tag_in = omega arith }
fields tag idx x (suc (suc (suc zero))) a e ht hi h r =
    let m = r.room in
    let q = r.multiple in
    record { size_in = h; aligned = omega arith; in_line = omega arith; tag_in = omega arith }
fields tag idx x (suc (suc (suc (suc n)))) a e ht hi h r = absurd (omega arith)

offset-lt : (x size : ℕ) → size ≤ 3 → IsOffset x size → x < 64
offset-lt x zero h r = let m = r.room in omega arith
offset-lt x (suc zero) h r = let m = r.room in omega arith
offset-lt x (suc (suc zero)) h r = let m = r.room in omega arith
offset-lt x (suc (suc (suc zero))) h r = let m = r.room in omega arith
offset-lt x (suc (suc (suc (suc n)))) h r = absurd (omega arith)

module _ (g : Rand) where
  line_in : (gen : g.Gen) → ((random_line g gen).0.0 < 64) × ((random_line g gen).0.1 < 264)
  unfolding random_line
  line_in gen = elim (Bool-cases (ltb ((g.next gen).0 % 100) 70)) [
    | inl c ↦ rw c (omega arith, omega arith)
    | inr c ↦ rw c (omega arith, omega arith)
  ]

-- Whatever `rand()` returns, an access of the random test is of 1, 2, 4 or 8 bytes, is aligned to its size,
-- does not leave its line of 64 bytes, and has a tag below 264.
pub random_access-InLine : (g : Rand) (gen : g.Gen) → InLine (random_access g gen).0
unfolding random_access
random_access-InLine g gen =
    let ((idx, tag), gen1) = random_line g gen in
    let size = (g.next gen1).0 % 4 in
    let o = (g.next (g.next gen1).1).0 in
    let x = o % (65 - 2 ^ size) - o % (65 - 2 ^ size) % 2 ^ size in
    let small : size ≤ 3 = omega arith in
    let r = drawn o size small in
    let (hi, ht) = line_in g gen in
    fields tag idx x size (mk_addr tag idx x)
      (mk_addr_lem tag idx x (omega arith) hi (offset-lt x size small r)) ht hi small r
