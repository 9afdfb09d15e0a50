-- ===== src/Iss/RoundTrip.antt =====
-- What a load finds after a store of the same width to the same address, as `Iss::step` performs them.
use rv64_ooo_core.Prelude.{
  ℕ, zero, suc, ◌+◌, ◌*◌, ◌/◌, ◌%◌, ◌^◌, ◌≤◌, ◌<◌, ◌≡◌, refl, ◌∙◌, ap, ap₂, ◌≢◌, arith, ltb, lt→ltb,
  if◌then◌else◌, bit_and, some,
}
use rv64_ooo_core.Prelude.Bits.{bit_and_mask}
use rv64_ooo_core.Prelude.Digits.{byte, assembled, assembled_two, assembled_four, assembled_eight}
use rv64_ooo_core.Prelude.Word.{u8, u16, u32, u64}
use rv64_ooo_core.Iss.Memory.{
  Memory, load8, load16, load32, load64, store8, store16, store32, store64,
}
use rv64_ooo_core.Iss.Bytes.{
  IsBytes, word, away, load16-word, load32-word, load64-word, store8-at, store16-at, store32-at,
  store64-at,
}
use rv64_ooo_core.Iss.Fields.{sext-eq-wrap, sign_extended}
use rv64_ooo_core.Iss.Execute.{loaded, stored}

-- A memory that holds the bytes of a value from `a` on.
pub word-eq-assembled :
    (n : ℕ) (mem : Memory) (a v : ℕ)
    → ((k : ℕ) → k < n → mem ((a + k) % 2 ^ 16) ≡ byte v k)
    → word n mem a ≡ assembled n v
unfolding word assembled byte
word-eq-assembled zero mem a v h = refl
word-eq-assembled (suc n) mem a v h =
    ap₂ (λ (x y : ℕ). x + y * 2 ^ 8)
      (ap mem {y = (a + 0) % 2 ^ 16} (omega arith) ∙ h 0 (omega arith))
      (word-eq-assembled n mem (a + 1) (v / 2 ^ 8)
        (λ k p. ap mem {y = (a + suc k) % 2 ^ 16} (omega arith) ∙ h (suc k) (omega arith)))

pub store8-IsBytes : (mem : Memory) (a v : ℕ) → IsBytes mem → v < 2 ^ 8 → IsBytes (store8 mem a v)
unfolding store8
store8-IsBytes mem a v h hv b = ground (arith, h b)

pub store16-IsBytes : (mem : Memory) (a v : ℕ) → IsBytes mem → IsBytes (store16 mem a v)
unfolding store16
store16-IsBytes mem a v h =
    store8-IsBytes _ (u64 (a + 1)) (u8 (v / 2 ^ 8))
      (store8-IsBytes mem a (bit_and v 0xff) h (rw (bit_and_mask 8 v) (omega arith))) (omega arith)

pub store32-IsBytes : (mem : Memory) (a v : ℕ) → IsBytes mem → IsBytes (store32 mem a v)
unfolding store32
store32-IsBytes mem a v h =
    store16-IsBytes _ (u64 (a + 2)) (u16 (v / 2 ^ 16)) (store16-IsBytes mem a (bit_and v 0xffff) h)

pub store64-IsBytes : (mem : Memory) (a v : ℕ) → IsBytes mem → IsBytes (store64 mem a v)
unfolding store64
store64-IsBytes mem a v h =
    store32-IsBytes _ (u64 (a + 4)) (u32 (v / 2 ^ 32)) (store32-IsBytes mem a (u32 v) h)

-- The byte `k` of a store of `n` bytes, in the form of the lemmas on stores.
byte_there :
    (a k n v old : ℕ)
    → k < n
    → n ≤ 8
    → (if ltb (away a ((a + k) % 2 ^ 16)) n then byte v (away a ((a + k) % 2 ^ 16)) else old)
      ≡ byte v k
byte_there a k n v old h hn =
    let e : away a ((a + k) % 2 ^ 16) ≡ k = omega arith in rw (e, lt→ltb k n h)

module _ (mem : Memory) (bytes : IsBytes mem) (a : ℕ) where
  pub load8-store8 : (v : ℕ) → v < 2 ^ 8 → load8 (store8 mem a v) a ≡ v
  unfolding load8 store8
  load8-store8 v h = ground arith

  pub load16-store16 : (v : ℕ) → v < 2 ^ 16 → load16 (store16 mem a v) a ≡ v
  load16-store16 v h =
      load16-word _ (store16-IsBytes mem a v bytes) a
      ∙ (word-eq-assembled 2 _ a v (λ k p.
            store16-at mem a v ((a + k) % 2 ^ 16) (omega arith) h
            ∙ byte_there a k 2 v _ p (omega arith))
          ∙ omega (arith, assembled_two v))

  pub load32-store32 : (v : ℕ) → v < 2 ^ 32 → load32 (store32 mem a v) a ≡ v
  load32-store32 v h =
      load32-word _ (store32-IsBytes mem a v bytes) a
      ∙ (word-eq-assembled 4 _ a v (λ k p.
            store32-at mem a v ((a + k) % 2 ^ 16) (omega arith) h
            ∙ byte_there a k 4 v _ p (omega arith))
          ∙ omega (arith, assembled_four v))

  pub load64-store64 : (v : ℕ) → v < 2 ^ 64 → load64 (store64 mem a v) a ≡ v
  load64-store64 v h =
      load64-word _ (store64-IsBytes mem a v bytes) a
      ∙ (word-eq-assembled 8 _ a v (λ k p.
            store64-at mem a v ((a + k) % 2 ^ 16) (omega arith) h
            ∙ byte_there a k 8 v _ p (omega arith))
          ∙ omega (arith, assembled_eight v))

-- The outcome of a store instruction and a load of the same width: the value cut to the width, with
-- its sign, and without it where there is such a load; and no byte outside the width has changed.
pub record ReadsBack (mem : Memory) (a v bits funct3 : ℕ) : Type 0 where
  pub after : Memory
  pub stores : stored mem funct3 a v ≡ some after
  pub signed_load : loaded after funct3 a ≡ some (sign_extended bits (v % 2 ^ bits))
  pub unsigned_load : funct3 ≢ 3 → loaded after (funct3 + 4) a ≡ some (v % 2 ^ bits)
  pub elsewhere : (b : ℕ) → b < 2 ^ 16 → bits ≤ 8 * away a b → after b ≡ mem b

-- SB, SH, SW and SD followed by a load of the same width at the same address read back the stored
-- value, cut to the width: LB, LH, LW and LD with its sign, LBU, LHU and LWU without. Bytes outside
-- the width keep their values. This holds at every address, also where the access wraps at 2^16.
pub loaded-stored :
    (mem : Memory) (a v funct3 : ℕ)
    → IsBytes mem
    → v < 2 ^ 64
    → funct3 < 4
    → ReadsBack mem a v (8 * 2 ^ funct3) funct3
unfolding stored loaded
loaded-stored mem a v zero bytes hv h = record {
  after = store8 mem a (u8 v);
  stores = refl;
  signed_load = ap some (
      rw (load8-store8 mem bytes a (u8 v) (omega arith))
        (sext-eq-wrap 8 (u8 v) (omega arith) (omega arith) (omega arith)));
  unsigned_load = λ _. ap some (load8-store8 mem bytes a (u8 v) (omega arith));
  elsewhere = λ b hb far. store8-at mem a (u8 v) b hb ∙ ground arith;
}
loaded-stored mem a v (suc zero) bytes hv h = record {
  after = store16 mem a (u16 v);
  stores = refl;
  signed_load = ap some (
      rw (load16-store16 mem bytes a (u16 v) (omega arith))
        (sext-eq-wrap 16 (u16 v) (omega arith) (omega arith) (omega arith)));
  unsigned_load = λ _. ap some (load16-store16 mem bytes a (u16 v) (omega arith));
  elsewhere = λ b hb far. store16-at mem a (u16 v) b hb (omega arith) ∙ ground arith;
}
loaded-stored mem a v (suc (suc zero)) bytes hv h = record {
  after = store32 mem a (u32 v);
  stores = refl;
  signed_load = ap some (
      rw (load32-store32 mem bytes a (u32 v) (omega arith))
        (sext-eq-wrap 32 (u32 v) (omega arith) (omega arith) (omega arith)));
  unsigned_load = λ _. ap some (load32-store32 mem bytes a (u32 v) (omega arith));
  elsewhere = λ b hb far. store32-at mem a (u32 v) b hb (omega arith) ∙ ground arith;
}
loaded-stored mem a v (suc (suc (suc zero))) bytes hv h = record {
  after = store64 mem a v;
  stores = refl;
  signed_load = ap some (load64-store64 mem bytes a v hv ∙ ground arith);
  unsigned_load = λ ne. absurd (ne refl);
  elsewhere = λ b hb far. store64-at mem a v b hb hv ∙ ground arith;
}
loaded-stored mem a v (suc (suc (suc (suc k)))) bytes hv h = absurd (omega arith)
