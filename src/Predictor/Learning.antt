-- ===== src/Predictor/Learning.antt =====
-- What the reference predictor predicts after an update.
use mathlib.Core.Option
use native.Mathlib.Nat.{mod-lt, one-le-pow}
use rv64_ooo_core.Prelude.{
  ℕ, zero, suc, ◌+◌, ◌-◌, ◌^◌, ◌≤◌, ◌<◌, ◌≡◌, ◌≢◌, refl, sym, ◌∙◌, ap, arith, bit_and, ◌==◌,
  if◌then◌else◌, Bool, true, false, List, length, length-set, length-replicate, get_or, set,
  get_or-set, ne→==, ==_refl, replicate, some, subst,
}
use rv64_ooo_core.Prelude.Bits.{bit_and_mask}
use rv64_ooo_core.Prelude.Word.{◌>>◌}
use rv64_ooo_core.Predictor.Clog.{clog2-pow}
use rv64_ooo_core.Predictor.{RefModel, fresh, pht_idx, btb_idx, tag, predict, counted, update}

-- The tables have as many entries as their indices can name, and a counter has two bits.
pub record IsTable (r : RefModel) : Type 0 where
  pub pht_sized : length r.pht ≡ 2 ^ r.pht_idx_w
  pub valid_sized : length r.btb_valid ≡ 2 ^ r.btb_idx_w
  pub tag_sized : length r.btb_tag ≡ 2 ^ r.btb_idx_w
  pub target_sized : length r.btb_target ≡ 2 ^ r.btb_idx_w
  pub two_bits : (k : ℕ) → get_or r.pht k 0 ≤ 3

masked-lt : (w a : ℕ) → bit_and a (2 ^ w - 1) < 2 ^ w
masked-lt w a = rw (bit_and_mask w a) (mod-lt a (one-le-pow w 2 (omega arith)))

if-le : (b : Bool) (x y n : ℕ) → x ≤ n → y ≤ n → (if b then x else y) ≤ n
if-le true x y n hx hy = hx
if-le false x y n hx hy = hy

module _ (pe be tb : ℕ) where
  counted-le : (t : Bool) (c : ℕ) → c ≤ 3 → counted pe be tb t c ≤ 3
  counted-le true c h = ground arith
  counted-le false c h = ground arith

  -- Two taken branches bring any counter to the upper half.
  counted_twice :
      (c : ℕ) → c ≤ 3 → (bit_and (counted pe be tb true (counted pe be tb true c)) 2 == 0) ≡ false
  counted_twice zero h = refl
  counted_twice (suc zero) h = refl
  counted_twice (suc (suc zero)) h = refl
  counted_twice (suc (suc (suc zero))) h = refl
  counted_twice (suc (suc (suc (suc c)))) h = absurd (omega arith)

  module _ (r : RefModel) (v : IsTable r) (pc : ℕ) where
    pht_in : pht_idx r pc < length r.pht
    unfolding pht_idx
    pht_in = rw v.pht_sized (masked-lt r.pht_idx_w (pc >> 2))

    valid_in : btb_idx r pc < length r.btb_valid
    unfolding btb_idx
    valid_in = rw v.valid_sized (masked-lt r.btb_idx_w (pc >> 2))

    tag_in : btb_idx r pc < length r.btb_tag
    unfolding btb_idx
    tag_in = rw v.tag_sized (masked-lt r.btb_idx_w (pc >> 2))

    target_in : btb_idx r pc < length r.btb_target
    unfolding btb_idx
    target_in = rw v.target_sized (masked-lt r.btb_idx_w (pc >> 2))

    length-if :
        (b : Bool) (xs : List ℕ) (j x n : ℕ)
        → length xs ≡ n
        → length (if b then set xs j x else xs) ≡ n
    length-if true xs j x n e = length-set xs j x ∙ e
    length-if false xs j x n e = e

    -- An update of tables that fit their indices keeps their sizes, and the counters between 0 and 3.
    pub update-IsTable : (t : Bool) (target : ℕ) → IsTable (update pe be tb r pc t target)
    unfolding update
    update-IsTable t target = record {
      pht_sized = length-set r.pht _ _ ∙ v.pht_sized;
      valid_sized = length-if t _ _ _ _ v.valid_sized;
      tag_sized = length-if t _ _ _ _ v.tag_sized;
      target_sized = length-if t _ _ _ _ v.target_sized;
      two_bits = λ k.
          rw
            (get_or-set r.pht (pht_idx r pc) k (counted pe be tb t (get_or r.pht (pht_idx r pc) 0))
              0 pht_in)
            (if-le (pht_idx r pc == k) _ _ 3 (counted-le t _ (v.two_bits (pht_idx r pc)))
              (v.two_bits k));
    }

    set_here : (xs : List ℕ) (j x : ℕ) → j < length xs → get_or (set xs j x) j 0 ≡ x
    set_here xs j x h = get_or-set xs j j x 0 h ∙ rw (==_refl j) refl

    -- The target buffer after a taken branch.
    hits :
        (target : ℕ)
        → ((predict pe be tb (update pe be tb r pc true target) pc).hit ≡ true)
          × ((predict pe be tb (update pe be tb r pc true target) pc).target ≡ target)
    unfolding predict update btb_idx tag
    hits target = (
      rw
          (
            set_here r.btb_valid (bit_and (pc >> 2) (2 ^ r.btb_idx_w - 1)) 1 valid_in,
            set_here r.btb_tag (bit_and (pc >> 2) (2 ^ r.btb_idx_w - 1))
                (bit_and (pc >> (r.btb_idx_w + 2)) (2 ^ tb - 1)) tag_in,
            ==_refl (bit_and (pc >> (r.btb_idx_w + 2)) (2 ^ tb - 1)),
          )
          refl,
      set_here r.btb_target (bit_and (pc >> 2) (2 ^ r.btb_idx_w - 1)) target target_in,
    )

    counter_after :
        (t : Bool) (target : ℕ)
        → get_or (update pe be tb r pc t target).pht (pht_idx r pc) 0
          ≡ counted pe be tb t (get_or r.pht (pht_idx r pc) 0)
    unfolding update
    counter_after t target = set_here r.pht (pht_idx r pc) _ pht_in

    -- Another branch's entry of the target buffer, after an update.
    spared :
        (t : Bool) (xs : List ℕ) (x j : ℕ)
        → btb_idx r pc < length xs
        → btb_idx r pc ≢ j
        → get_or (if t then set xs (btb_idx r pc) x else xs) j 0 ≡ get_or xs j 0
    spared true xs x j h ne =
        get_or-set xs (btb_idx r pc) j x 0 h ∙ rw (ne→== (btb_idx r pc) j ne) refl
    spared false xs x j h ne = refl

  same_idx :
      (r : RefModel) (pc pc' : ℕ) (t : Bool) (target : ℕ)
      → pht_idx (update pe be tb r pc t target) pc' ≡ pht_idx r pc'
  unfolding update pht_idx
  same_idx r pc pc' t target = refl

  same_btb_idx :
      (r : RefModel) (pc pc' : ℕ) (t : Bool) (target : ℕ)
      → btb_idx (update pe be tb r pc t target) pc' ≡ btb_idx r pc'
  unfolding update btb_idx
  same_btb_idx r pc pc' t target = refl

  same_tag :
      (r : RefModel) (pc pc' : ℕ) (t : Bool) (target : ℕ)
      → tag pe be tb (update pe be tb r pc t target) pc' ≡ tag pe be tb r pc'
  unfolding update tag
  same_tag r pc pc' t target = refl

  taken_after :
      (r : RefModel) (pc : ℕ)
      → (predict pe be tb r pc).hit ≡ true
      → (bit_and (get_or r.pht (pht_idx r pc) 0) 2 == 0) ≡ false
      → (predict pe be tb r pc).taken ≡ true
  unfolding predict
  taken_after r pc hit counter = rw (hit, counter) refl

-- If the tables fit their indices and counters have two bits, a branch that was taken hits with its
-- latest target, and one taken twice in a row is predicted taken, whatever its counter was.
pub update_learns :
    (pe be tb : ℕ) (r : RefModel) (pc t t' : ℕ)
    → IsTable r
    → let once = update pe be tb r pc true t in
      let twice = update pe be tb once pc true t' in
      ((predict pe be tb once pc).hit ≡ true)
      × ((predict pe be tb once pc).target ≡ t)
      × ((predict pe be tb twice pc).hit ≡ true)
      × ((predict pe be tb twice pc).taken ≡ true)
      × ((predict pe be tb twice pc).target ≡ t')
update_learns pe be tb r pc t t' v =
    let once = update pe be tb r pc true t in
    let v' = update-IsTable pe be tb r v pc true t in
    let (hit, target) = hits pe be tb once v' pc t' in
    let counter : get_or (update pe be tb once pc true t').pht (pht_idx r pc) 0
        ≡ counted pe be tb true (counted pe be tb true (get_or r.pht (pht_idx r pc) 0)) =
      ap (λ n. get_or (update pe be tb once pc true t').pht n 0)
        (sym (same_idx pe be tb r pc pc true t))
      ∙ (counter_after pe be tb once v' pc true t'
          ∙ ap (counted pe be tb true) (
              ap (λ n. get_or once.pht n 0) (same_idx pe be tb r pc pc true t)
              ∙ counter_after pe be tb r v pc true t)) in
    let upper =
      counted_twice pe be tb (get_or r.pht (pht_idx r pc) 0) (v.two_bits (pht_idx r pc)) in
    let taken = taken_after pe be tb (update pe be tb once pc true t') pc hit (
      ap (λ n. bit_and (get_or (update pe be tb once pc true t').pht n 0) 2 == 0)
        (same_idx pe be tb once pc pc true t' ∙ same_idx pe be tb r pc pc true t)
      ∙ (ap (λ c. bit_and c 2 == 0) counter ∙ upper)) in
    let (first_hit, first_target) = hits pe be tb r v pc t in
    (first_hit, first_target, hit, taken, target)

-- If the tables fit their indices, an update of one branch changes neither the hit nor the target of a
-- branch with another index in the target buffer.
pub update_spares :
    (pe be tb : ℕ) (r : RefModel) (pc pc' : ℕ) (taken : Bool) (target : ℕ)
    → IsTable r
    → btb_idx r pc ≢ btb_idx r pc'
    → ((predict pe be tb (update pe be tb r pc taken target) pc').hit
        ≡ (predict pe be tb r pc').hit)
      × ((predict pe be tb (update pe be tb r pc taken target) pc').target
          ≡ (predict pe be tb r pc').target)
unfolding predict update
update_spares pe be tb r pc pc' taken target v ne =
    let j = btb_idx r pc' in
    rw
      (
        same_btb_idx pe be tb r pc pc' taken target,
        same_tag pe be tb r pc pc' taken target,
        spared pe be tb r v pc taken r.btb_valid 1 j (valid_in pe be tb r v pc) ne,
        spared pe be tb r v pc taken r.btb_tag (tag pe be tb r pc) j (tag_in pe be tb r v pc) ne,
        spared pe be tb r v pc taken r.btb_target target j (target_in pe be tb r v pc) ne,
      )
      (refl, refl)

replicate-le : (n v k : ℕ) → v ≤ 3 → get_or (replicate n v) k 0 ≤ 3
replicate-le zero v k h = omega arith
replicate-le (suc n) v zero h = h
replicate-le (suc n) v (suc k) h = replicate-le n v k h

-- The tables of the reset state, if their sizes are powers of two of up to 2^31.
pub fresh-IsTable :
    (a b tb : ℕ) (r : RefModel) → a ≤ 31 → b ≤ 31 → fresh (2 ^ a) (2 ^ b) tb ≡ some r → IsTable r
unfolding fresh
fresh-IsTable a b tb r ha hb h =
    let tables : RefModel = record {
      pht_idx_w = a;
      btb_idx_w = b;
      pht = replicate (2 ^ a) 1;
      btb_valid = replicate (2 ^ b) 0;
      btb_tag = replicate (2 ^ b) 0;
      btb_target = replicate (2 ^ b) 0;
    } in
    let same : some tables ≡ some r = rw (clog2-pow a ha, clog2-pow b hb) at h in
    subst IsTable (Option.some_inj.0 same) (record {
      pht_sized = length-replicate (2 ^ a) 1;
      valid_sized = length-replicate (2 ^ b) 0;
      tag_sized = length-replicate (2 ^ b) 0;
      target_sized = length-replicate (2 ^ b) 0;
      two_bits = λ k. replicate-le (2 ^ a) 1 k (omega arith);
    })
