-- ===== src/Rename/Partition.antt =====
-- The physical registers as the testbench counts them: each is mapped, free or in flight, and only one
-- of these, after every cycle that restores nothing and commits registers in flight.
use rv64_ooo_core.Prelude.{
  ℕ, ◌+◌, ◌≤◌, ◌<◌, ◌≡◌, refl, ◌∙◌, arith, ltb, ◌==◌, one_if, if◌then◌else◌, Bool, true, false,
  List, [], ◌∷◌, ◌++◌, length, get_or, set, drop, length-set, length-append,
}
use rv64_ooo_core.Prelude.Occurrences.{
  occurrences, contains, insert, erase, occurrences-append, occurrences-set, occurrences-get_or,
  occurrences-contains, occurrences-erase, length-erase,
}
use rv64_ooo_core.Rename.FreeList.{one_of}

-- 32 of the 64 registers are mapped; each of them occurs once in the three lists.
pub record Owns (mapped free in_flight : List ℕ) : Type 0 where
  pub sized : length mapped ≡ 32
  pub once :
      (p : ℕ)
      → occurrences p mapped + occurrences p free + occurrences p in_flight ≡ one_if (ltb p 64)
  pub number : length free + length in_flight ≡ 32

pub one_if-le : (b : Bool) → one_if b ≤ 1
one_if-le true = omega arith
one_if-le false = omega arith

-- The total stays the same for every register.
take_total :
    (p old m m' f f' q d t : ℕ)
    → m' + one_if (p == old) ≡ m + d
    → d + f' ≡ f
    → m + f + q ≡ t
    → m' + f' + (one_if (p == old) + q) ≡ t
take_total p old m m' f f' q d t e1 e2 e3 = omega arith

-- An instruction that takes the first free register for `rd` displaces the one before.
take_Owns :
    (m f q : List ℕ) (rd preg : ℕ)
    → Owns m (preg ∷ f) q
    → rd < 32
    → Owns (set m rd preg) f (insert (get_or m rd 0) q)
unfolding occurrences
take_Owns m f q rd preg o h =
    let inside : rd < length m = rw o.sized h in
    let here = occurrences-get_or m rd inside in
    let once = o.once (get_or m rd 0) in
    let bound = one_if-le (ltb (get_or m rd 0) 64) in
    let new : contains (get_or m rd 0) q ≡ false =
      occurrences-contains (get_or m rd 0) q (omega arith) in
    rw new (record {
      sized = length-set m rd preg ∙ o.sized;
      once = λ p.
          take_total p (get_or m rd 0) (occurrences p m) _ (one_if (p == preg) + occurrences p f) _
            (occurrences p q) (one_if (p == preg)) _ (occurrences-set p m rd preg inside) refl
            (o.once p);
      number = let n = o.number in omega arith;
    })

abbrev pub map_after : Bool → List ℕ → List ℕ → ℕ → List ℕ
map_after b m f rd = if b then set m rd (get_or f 0 0) else m

abbrev pub out_after : Bool → List ℕ → List ℕ → ℕ → List ℕ
out_after b m q rd = if b then insert (get_or m rd 0) q else q

pub lane_Owns :
    (b : Bool) (m f q : List ℕ) (rd : ℕ)
    → Owns m f q
    → rd < 32
    → 1 ≤ length f
    → Owns (map_after b m f rd) (drop (one_if b) f) (out_after b m q rd)
lane_Owns b m [] q rd o h some_free = absurd (omega arith)
lane_Owns true m (r ∷ f) q rd o h some_free = take_Owns m f q rd r o h
lane_Owns false m (r ∷ f) q rd o h some_free = o

-- A commit that returns a register in flight.
pub give_Owns :
    (b : Bool) (m f q : List ℕ) (v : ℕ)
    → Owns m f q
    → (b ≡ true → contains v q ≡ true)
    → Owns m (f ++ one_of b v) (if b then erase v q else q)
unfolding occurrences
give_Owns false m f q v o h = record {
  sized = o.sized;
  once = λ p. rw occurrences-append (let e = o.once p in omega arith);
  number = rw length-append (let e = o.number in omega arith);
}
give_Owns true m f q v o h = record {
  sized = o.sized;
  once = λ p.
      rw occurrences-append (let e = o.once p in omega (arith, occurrences-erase p v q (h refl)));
  number = rw length-append (let e = o.number in omega (arith, length-erase v q (h refl)));
}
