-- ===== src/Prelude/Circular.antt =====
-- Circular buffers: a vector of `cap` slots read from a moving start, as the reorder buffer, the
-- load and store queues and the free list use it.
use native.Mathlib.Nat.{mod-add-mod, mod-eq_of_lt, mod-eq-sub-mod, mod-lt, add_assoc}
use native.Mathlib.Decide.{dec_lt, ℕ_discrete}
use mathlib.Core.Path.{◌≡◌, ap, sym, subst, ◌∙◌}
use mathlib.Core.List.{List}
use Prim.Native.Nat.{ℕ, ◌+◌, ◌-◌, ◌%◌, ◌<◌}
use native.Mathlib.Omega.{arith}
use rv64_ooo_core.Prelude.Tests.{◌==◌, if◌then◌else◌, ne→==, ==_refl}
use rv64_ooo_core.Prelude.Lists.{length, get_or, set, tabulate, get_or-set}

-- How many slots after the start `h` the slot `i` is.
abbrev pub offset : ℕ → ℕ → ℕ → ℕ
offset cap h i = (i + cap - h) % cap

pub offset-lt : (cap h i : ℕ) → i < cap → offset cap h i < cap
offset-lt cap h i p = mod-lt (i + cap - h) (omega arith)

pub add-offset : (cap h i : ℕ) → h < cap → i < cap → (h + offset cap h i) % cap ≡ i
add-offset cap h i hh hi = elim (dec_lt i h) [
  | yes p ↦ grind (arith, mod-eq_of_lt, mod-eq-sub-mod)
  | no p ↦ grind (arith, mod-eq_of_lt, mod-eq-sub-mod)
]

pub offset-add : (cap h k : ℕ) → h < cap → k < cap → offset cap h ((h + k) % cap) ≡ k
offset-add cap h k hh hk = elim (dec_lt (h + k) cap) [
  | yes p ↦ grind (arith, mod-eq_of_lt, mod-eq-sub-mod)
  | no p ↦ grind (arith, mod-eq_of_lt, mod-eq-sub-mod)
]

-- The slots at two offsets below `cap` are one slot only if the offsets are one.
pub slot_injective :
    {cap : ℕ} (h j k : ℕ) → j < cap → k < cap → (h + j) % cap ≡ (h + k) % cap → j ≡ k
slot_injective {cap} h j k hj hk e =
    let start = mod-lt h (omega arith) in
    sym (offset-add cap (h % cap) j start hj)
    ∙ (ap (offset cap (h % cap)) (mod-add-mod h cap j ∙ (e ∙ sym (mod-add-mod h cap k)))
        ∙ offset-add cap (h % cap) k start hk)

module _ {ℓ} {A : Type ℓ} (cap : ℕ) (d : A) where
  -- the entry `k` slots after the start `h`
  abbrev pub at : List A → ℕ → ℕ → A
  at buf h k = get_or buf ((h + k) % cap) d

  -- the `n` entries from the start `h` on
  abbrev pub window : List A → ℕ → ℕ → List A
  window buf h n = tabulate (at buf h) n

  -- Reading relative to the start, after a write at an offset.
  pub at-set :
      (buf : List A) (h j k : ℕ) (v : A)
      → length buf ≡ cap
      → j < cap
      → k < cap
      → at (set buf ((h + j) % cap) v) h k ≡ (if j == k then v else at buf h k)
  at-set buf h j k v e hj hk =
      get_or-set buf ((h + j) % cap) ((h + k) % cap) v d (rw e (mod-lt (h + j) (omega arith)))
      ∙ elim (ℕ_discrete j k) [
        | yes p ↦ rw (p, ==_refl ((h + k) % cap), ==_refl k)
        | no p ↦ rw (ne→== _ _ (λ e. p (slot_injective h j k hj hk e)), ne→== j k p)
      ]

  -- Moving the start shifts the offsets.
  pub at_shift : (buf : List A) (h m k : ℕ) → at buf ((h + m) % cap) k ≡ at buf h (m + k)
  at_shift buf h m k =
      ap (λ n. get_or buf n d)
        (mod-add-mod (h + m) cap k ∙ ap (λ (n : ℕ). n % cap) (add_assoc h m k))

-- A whole turn changes nothing.
pub at_turn {ℓ} :
    {A : Type ℓ} (cap : ℕ) (d : A) (buf : List A) (h k : ℕ)
    → 0 < cap
    → at cap d buf h (cap + k) ≡ at cap d buf h k
at_turn cap d buf h k p = ap (λ n. get_or buf n d) (grind (arith, mod-eq-sub-mod))

-- A write at a slot, seen from the start: `f` of the old entry goes to the slot's offset.
pub at-modify {ℓ} :
    {A : Type ℓ} (cap : ℕ) (d : A) (buf : List A) (h i k : ℕ) (f : A → A)
    → length buf ≡ cap
    → h < cap
    → i < cap
    → k < cap
    → at cap d (set buf i (f (get_or buf i d))) h k
      ≡ (if offset cap h i == k then f (at cap d buf h k) else at cap d buf h k)
at-modify cap d buf h i k f e hh hi hk =
    subst
      (λ s.
        at cap d (set buf s (f (get_or buf s d))) h k
        ≡ (if offset cap h i == k then f (at cap d buf h k) else at cap d buf h k))
      (add-offset cap h i hh hi)
      (at-set cap d buf h (offset cap h i) k (f (at cap d buf h (offset cap h i))) e
          (offset-lt cap h i hi) hk
        ∙ elim (ℕ_discrete (offset cap h i) k) [ yes p ↦ rw p | no p ↦ rw (ne→== _ _ p) ])

-- The start may be reduced.
pub at_mod {ℓ} :
    {A : Type ℓ} (cap : ℕ) (d : A) (buf : List A) (h k : ℕ)
    → at cap d buf (h % cap) k ≡ at cap d buf h k
at_mod cap d buf h k = ap (λ n. get_or buf n d) (mod-add-mod h cap k)
