-- ===== src/Lsq/Sound.antt =====
-- A circular queue as `LsqModel` has two of them, what each operation makes of it, and the room that an
-- answer to a dispatch means.
use native.Mathlib.Nat.{mod-lt, mod-add-mod, add_assoc, mod-eq_of_lt}
use rv64_ooo_core.Prelude.{
  ℕ, zero, suc, ◌+◌, ◌-◌, ◌%◌, ◌≤◌, ◌<◌, ◌≡◌, refl, sym, ap, ◌∙◌, arith, leb, ltb, if◌then◌else◌,
  Bool, true, false, not, ◌&&◌, Bool-cases, inl, inr,
}
use rv64_ooo_core.Lsq.{age, keep_loop}

-- A circular queue of `cnt` entries from `head` to before `tail`.
pub record Sound (depth size head tail cnt : ℕ) : Type 0 where
  pub sized : size ≡ depth
  pub head_in : head < depth
  pub tail_at : tail ≡ (head + cnt) % depth
  pub fits : cnt ≤ depth

module _ (depth size head tail cnt : ℕ) (q : Sound depth size head tail cnt) where
  pub pushed : cnt < depth → Sound depth size head ((tail + 1) % depth) (cnt + 1)
  pushed h = record {
    sized = q.sized;
    head_in = q.head_in;
    tail_at =
        rw q.tail_at
          (mod-add-mod (head + cnt) depth 1 ∙ ap (λ (n : ℕ). n % depth) (add_assoc head cnt 1));
    fits = omega arith;
  }

  pub popped : 0 < cnt → Sound depth size ((head + 1) % depth) tail (cnt - 1)
  popped h = record {
    sized = q.sized;
    head_in = mod-lt (head + 1) (omega (arith, q.head_in));
    tail_at =
        q.tail_at
        ∙ sym (
            mod-add-mod (head + 1) depth (cnt - 1)
            ∙ ap (λ (n : ℕ). n % depth) {y = head + cnt} (omega arith));
    fits = omega (arith, q.fits);
  }

  pub cut : (n : ℕ) → n ≤ cnt → Sound depth size head ((head + n) % depth) n
  cut n h = record {
    sized = q.sized;
    head_in = q.head_in;
    tail_at = refl;
    fits = omega (arith, q.fits);
  }

  pub emptied : Sound depth size 0 0 0
  emptied = record {
    sized = q.sized;
    head_in = omega (arith, q.head_in);
    tail_at = sym (mod-eq_of_lt {n = 0} {m = depth} (omega (arith, q.head_in)));
    fits = omega arith;
  }

-- The size may be that of another list.
pub resized :
    (depth m n head tail cnt : ℕ)
    → n ≡ m
    → Sound depth m head tail cnt
    → Sound depth n head tail cnt
resized depth m n head tail cnt e q = record {
  sized = e ∙ q.sized;
  head_in = q.head_in;
  tail_at = q.tail_at;
  fits = q.fits;
}

pub keep_loop-le :
    (lqd sqd w : ℕ) (f : ℕ → ℕ) (squash_idx rob_head left i keep : ℕ)
    → keep_loop lqd sqd w f squash_idx rob_head left i keep ≤ keep + left
unfolding keep_loop
keep_loop-le lqd sqd w f squash_idx rob_head zero i keep = omega arith
keep_loop-le lqd sqd w f squash_idx rob_head (suc left) i keep =
    elim (Bool-cases (leb (age lqd sqd w (f i) rob_head) (age lqd sqd w squash_idx rob_head))) [
      | inl c ↦
          rw c (omega (arith, keep_loop-le lqd sqd w f squash_idx rob_head left (suc i) (keep + 1)))
      | inr c ↦ rw c (omega (arith, keep_loop-le lqd sqd w f squash_idx rob_head left (suc i) keep))
    ]

-- `ready` means that there is room, for the first lane and for the second.
pub room_first :
    (valid sq load : Bool) (a b lqd sqd : ℕ)
    → (valid && (not sq && (if load then ltb 0 (lqd - a) else ltb 0 (sqd - b)))) ≡ true
    → (if load then ltb a lqd else ltb b sqd) ≡ true
room_first true false true a b lqd sqd h = ground arith
room_first true false false a b lqd sqd h = ground arith
room_first true true load a b lqd sqd h = cc
room_first false sq load a b lqd sqd h = cc

pub room_second :
    (valid sq load : Bool) (a b x y lqd sqd : ℕ)
    → (valid && (not sq && (if load then ltb 0 (lqd - a - x) else ltb 0 (sqd - b - y)))) ≡ true
    → (if load then ltb (a + x) lqd else ltb (b + y) sqd) ≡ true
room_second true false true a b x y lqd sqd h = ground arith
room_second true false false a b x y lqd sqd h = ground arith
room_second true true load a b x y lqd sqd h = cc
room_second false sq load a b x y lqd sqd h = cc
