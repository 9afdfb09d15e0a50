-- ===== src/Rename/Accounting.antt =====
-- The registers in flight that tb_rename.cpp keeps beside the model, through a whole cycle.
use rv64_ooo_core.Prelude.{
  ℕ, ◌+◌, ◌%◌, ◌≤◌, ◌<◌, ◌≡◌, ◌≢◌, refl, sym, ap, ap₂, subst, ◌∙◌, arith, ◌==◌, ◌&&◌, one_if,
  if◌then◌else◌, Bool, true, false, not, List, ◌++◌, length, get_or, set, drop, Bool-cases, inl,
  inr, length-append, get_or-drop, length-tabulate,
}
use rv64_ooo_core.Prelude.Occurrences.{contains, insert, contains-insert}
use rv64_ooo_core.Rename.{
  Rename, Inputs, depth, step, outputs, renamed, restored, bundle_ready, do_f0, do_f1, do_a1,
  free_list_contents,
}
use rv64_ooo_core.Rename.Ring.{IsRing, renamed-IsRing}
use rv64_ooo_core.Rename.Sequential.{writes, lane0, lane1, first, do_a0-eq, step-InOrder}
use rv64_ooo_core.Rename.Bench.{displaced, committed}
use rv64_ooo_core.Rename.FreeList.{one_of, returned, taken, free_list-step}
use rv64_ooo_core.Rename.Partition.{Owns, one_if-le, out_after, map_after}
use rv64_ooo_core.Rename.Lanes.{gives-Owns, lanes_Owns}

-- The registers of the model, with those in flight.
pub record Accounted (s : Rename) (in_flight : List ℕ) : Type 0 where
  pub ring : IsRing s
  pub owns : Owns s.map (free_list_contents s) in_flight

abbrev pub returns0 : Inputs → Bool
returns0 i = i.commit_valid0 && not (i.commit_prev_prd0 == 0)

abbrev pub returns1 : Inputs → Bool
returns1 i = i.commit_valid1 && not (i.commit_prev_prd1 == 0)

-- What the core keeps to in a cycle without a restore: destinations are registers, and the commits
-- return two different registers in flight.
pub record IsLegal (i : Inputs) (in_flight : List ℕ) : Type 0 where
  pub no_restore : i.restore_valid ≡ false
  pub rd0_in : i.rd0 < 32
  pub rd1_in : i.rd1 < 32
  pub commit0_in : returns0 i ≡ true → contains i.commit_prev_prd0 in_flight ≡ true
  pub commit1_in : returns1 i ≡ true → contains i.commit_prev_prd1 in_flight ≡ true
  pub commits_differ :
      returns0 i ≡ true → returns1 i ≡ true → i.commit_prev_prd1 ≢ i.commit_prev_prd0

never : (a b : Bool) → ((a && false) && b) ≡ false
never true b = refl
never false b = refl

never1 : (a : Bool) → (a && false) ≡ false
never1 true = refl
never1 false = refl

contains-insert_if :
    (b : Bool) (p v : ℕ) (q : List ℕ)
    → contains p q ≡ true
    → contains p (if b then insert v q else q) ≡ true
contains-insert_if true p v q h = contains-insert p v q h
contains-insert_if false p v q h = h

contains-displaced :
    (s : Rename) (i : Inputs) (p : ℕ) (q : List ℕ)
    → contains p q ≡ true
    → contains p (displaced i (outputs s i) q) ≡ true
unfolding displaced outputs
contains-displaced s i p q h = elim (Bool-cases (bundle_ready s i)) [
  | inl ready ↦
      let o = outputs s i in
      rw ready (
        contains-insert_if (writes (lane1 i)) p o.prev_prd1
          (if writes (lane0 i) then insert o.prev_prd0 q else q)
          (contains-insert_if (writes (lane0 i)) p o.prev_prd0 q h))
  | inr stall ↦ rw stall h
]

module _ (s : Rename) (i : Inputs) where
  abbrev w0 : Bool
  w0 = writes (lane0 i)

  abbrev w1 : Bool
  w1 = writes (lane1 i)

  abbrev free : List ℕ
  free = free_list_contents s

  free-length : length free ≡ s.count
  unfolding free_list_contents
  free-length = length-tabulate (λ k. get_or s.fl ((s.head + k) % depth) 0) s.count

  module _ (ready : bundle_ready s i ≡ true) (keep : i.restore_valid ≡ false) (r : IsRing s) where
    two_counted : 2 ≤ s.count
    unfolding bundle_ready
    two_counted = ground arith

    do_a1-eq : do_a1 s i ≡ w1
    do_a1-eq = rw (ready, keep) (let h = two_counted in ground arith)

    taken-eq : taken s i ≡ one_if w0 + one_if w1
    taken-eq =
        ap₂ (λ (a b : Bool). one_if a + one_if b) (do_a0-eq s i ready r.head_in keep) do_a1-eq

    map-eq :
        i.rd0 < length s.map
        → (step s i).0.map
          ≡ map_after w1 (map_after w0 s.map free i.rd0) (drop (one_if w0) free) i.rd1
    unfolding outputs
    map-eq inside =
        (step-InOrder s i ready keep r.head_in inside).map_after
        ∙ ap (λ (preg : ℕ). if w1 then set (first s i).map i.rd1 preg else (first s i).map)
            (sym (get_or-drop (one_if w0) free 0 0 ∙ ap (λ (k : ℕ). get_or free k 0) (omega arith)))

    displaced-eq :
        (q : List ℕ)
        → i.rd0 < length s.map
        → displaced i (outputs s i) q
          ≡ out_after w1 (map_after w0 s.map free i.rd0) (out_after w0 s.map q i.rd0) i.rd1
    unfolding displaced outputs
    displaced-eq q inside = rw ready (elim (Bool-cases i.valid1) [
      | inl v ↦
          ap
            (λ (prev : ℕ).
              if w1 then insert prev (out_after w0 s.map q i.rd0) else out_after w0 s.map q i.rd0)
            ((step-InOrder s i ready keep r.head_in inside).lane1_previous v)
      | inr v ↦ rw v refl
    ])

  module _ (stall : bundle_ready s i ≡ false) (keep : i.restore_valid ≡ false) where
    stalled-map : (step s i).0.map ≡ s.map
    unfolding step renamed
    stalled-map =
        ap (λ b. (if b then restored s i else renamed s i).map) keep
        ∙ rw (stall, never w1 (not (i.rd1 == 0)), never w0 (not (i.rd0 == 0))) refl

    stalled-taken : taken s i ≡ 0
    stalled-taken = rw (stall, never1 w0, never1 w1) refl

    stalled-displaced : (q : List ℕ) → displaced i (outputs s i) q ≡ q
    unfolding displaced outputs
    stalled-displaced q = rw stall refl

  taken-le : IsRing s → i.restore_valid ≡ false → taken s i ≤ s.count
  taken-le r keep = elim (Bool-cases (bundle_ready s i)) [
    | inl ready ↦
        let two = two_counted ready keep r in
        rw (taken-eq ready keep r) (omega (arith, one_if-le w0, one_if-le w1))
    | inr stall ↦ rw (stalled-taken stall keep) (omega arith)
  ]

  -- The lanes of a step, whether it is ready or not.
  step-lanes :
      (q : List ℕ)
      → Owns s.map free q
      → IsRing s
      → IsLegal i q
      → Owns (step s i).0.map (drop (taken s i) free) (displaced i (outputs s i) q)
  step-lanes q o r legal =
      let keep = legal.no_restore in
      let inside : i.rd0 < length s.map = rw o.sized legal.rd0_in in
      elim (Bool-cases (bundle_ready s i)) [
        | inl ready ↦
            rw
              (
                map-eq ready keep r inside,
                displaced-eq ready keep r q inside,
                taken-eq ready keep r,
              )
              (lanes_Owns s.map free q w0 w1 i.rd0 i.rd1 o legal.rd0_in legal.rd1_in
                (rw free-length (two_counted ready keep r)))
        | inr stall ↦
            rw (stalled-map stall keep, stalled-displaced stall keep q, stalled-taken stall keep) o
      ]

  -- The commits return no more than is in flight.
  room :
      (q : List ℕ)
      → Owns s.map free q
      → IsLegal i q
      → s.count + one_if (do_f0 s i) + one_if (do_f1 s i) ≤ depth
  room q o legal =
      let after =
        gives-Owns s.map free q (do_f0 s i) (do_f1 s i) i.commit_prev_prd0 i.commit_prev_prd1 o
          legal.commit0_in legal.commit1_in legal.commits_differ in
      omega (
        arith,
        after.number,
        length-append free (returned s i),
        returned-length (do_f0 s i) (do_f1 s i),
        free-length,
      )
    where
      returned-length :
          (b c : Bool)
          → length (one_of b i.commit_prev_prd0 ++ one_of c i.commit_prev_prd1)
            ≡ one_if b + one_if c
      returned-length true true = refl
      returned-length true false = refl
      returned-length false true = refl
      returned-length false false = refl

-- A cycle keeps every register mapped, free or in flight, and only one of these.
pub cycle-Accounted :
    (s : Rename) (i : Inputs) (in_flight : List ℕ)
    → Accounted s in_flight
    → IsLegal i in_flight
    → Accounted (step s i).0 (committed i (displaced i (outputs s i) in_flight))
unfolding committed step
cycle-Accounted s i q a legal =
    let lanes = step-lanes s i q a.owns a.ring legal in
    let le = taken-le s i a.ring legal.no_restore in
    let within = room s i q a.owns legal in
    record {
      ring =
          subst IsRing (sym (ap (λ b. if b then restored s i else renamed s i) legal.no_restore))
            (renamed-IsRing s i a.ring);
      owns = rw (free_list-step s i a.ring within legal.no_restore le) (
          gives-Owns (step s i).0.map (drop (taken s i) (free_list_contents s))
            (displaced i (outputs s i) q) (returns0 i) (returns1 i) i.commit_prev_prd0
            i.commit_prev_prd1 lanes
            (λ e. contains-displaced s i i.commit_prev_prd0 q (legal.commit0_in e))
            (λ e. contains-displaced s i i.commit_prev_prd1 q (legal.commit1_in e))
            legal.commits_differ);
    }
