-- ===== src/Rob/Outstanding.antt =====
-- The writebacks that the random test of tb_rob.cpp picks from its list `outstanding`.
use rv64_ooo_core.Prelude.{
  ℕ, zero, suc, ◌+◌, ◌-◌, ◌<◌, ◌≤◌, ◌≡◌, refl, ◌∙◌, arith, ◌==◌, one_if, Bool-cases, inl, inr, List,
  [], ◌∷◌, ◌++◌, length, get_or,
}
use rv64_ooo_core.Prelude.Occurrences.{occurrences}
use rv64_ooo_core.Rob.{WbReq}
use rv64_ooo_core.Rob.Bench.{mk_wb}
use rv64_ooo_core.Rob.Pending.{hits}
use rv64_ooo_core.Rob.Random.{
  Rng, Picked, unset_wb, erase_at, already, chance, random_wb, choose, pick_wb, pick_round,
  pick_wbs,
}

-- `std::uniform_int_distribution`: a draw is from the range asked for.
pub record IsUniform (g : Rng) : Type 0 where
  pub draw_in :
      (gen : g.Gen) (lo hi : ℕ)
      → lo ≤ hi
      → (lo ≤ (g.draw gen lo hi).0) × ((g.draw gen lo hi).0 ≤ hi)

pub occurrences-erase_at :
    (k x : ℕ) (xs : List ℕ)
    → k < length xs
    → occurrences x (erase_at k xs) + one_if (x == get_or xs k 0) ≡ occurrences x xs
unfolding erase_at occurrences
occurrences-erase_at k x [] h = absurd (omega arith)
occurrences-erase_at zero x (y ∷ xs) h = omega arith
occurrences-erase_at (suc k) x (y ∷ xs) h = omega (arith, occurrences-erase_at k x xs (omega arith))

pub hits-append : (x : ℕ) (ws vs : List WbReq) → hits x (ws ++ vs) ≡ hits x ws + hits x vs
unfolding hits
hits-append x [] vs = omega arith
hits-append x (w ∷ ws) vs = omega (arith, hits-append x ws vs)

module _ (g : Rng) (u : IsUniform g) where
  hits-unset : (x : ℕ) (p : Picked) → hits x (p.wbs ++ (unset_wb ∷ [])) ≡ hits x p.wbs
  unfolding hits
  hits-unset x p = hits-append x p.wbs (unset_wb ∷ []) ∙ omega arith

  hits-random_wb :
      (x idx : ℕ) (p : Picked) (gen : g.Gen)
      → hits x (p.wbs ++ ((random_wb g idx gen).0 ∷ [])) ≡ hits x p.wbs + one_if (x == idx)
  unfolding hits random_wb mk_wb
  hits-random_wb x idx p gen = hits-append x p.wbs ((random_wb g idx gen).0 ∷ []) ∙ omega arith

  -- A round moves an index from the list to the requests, or none.
  choose_kept :
      (x k : ℕ) (p : Picked) (gen : g.Gen)
      → k < length p.outstanding
      → occurrences x (choose g k p gen).0.outstanding + hits x (choose g k p gen).0.wbs
        ≡ occurrences x p.outstanding + hits x p.wbs
  unfolding choose
  choose_kept x k p gen h =
      let idx = get_or p.outstanding k 0 in
      elim (Bool-cases (already idx p.chosen)) [
        | inl c ↦ rw c (omega (arith, hits-unset x p))
        | inr c ↦
            rw c
              (omega (arith, hits-random_wb x idx p gen, occurrences-erase_at k x p.outstanding h))
      ]

  pick_wb_kept :
      (x : ℕ) (p : Picked) (gen : g.Gen)
      → 1 ≤ length p.outstanding
      → occurrences x (pick_wb g p gen).0.outstanding + hits x (pick_wb g p gen).0.wbs
        ≡ occurrences x p.outstanding + hits x p.wbs
  unfolding pick_wb
  pick_wb_kept x p gen h =
      let gen1 = (chance g 70 gen).1 in
      let (k, gen2) = g.draw gen1 0 (length p.outstanding - 1) in
      elim (Bool-cases (chance g 70 gen).0) [
        | inl c ↦ rw c (
            choose_kept x k p gen2 (
              let (_, up) = u.draw_in gen1 0 (length p.outstanding - 1) (omega arith) in
              omega arith))
        | inr c ↦ rw c (omega (arith, hits-unset x p))
      ]

  pick_round_kept :
      (x : ℕ) (p : Picked) (gen : g.Gen)
      → occurrences x (pick_round g p gen).0.outstanding + hits x (pick_round g p gen).0.wbs
        ≡ occurrences x p.outstanding + hits x p.wbs
  unfolding pick_round
  pick_round_kept x p gen = elim (Bool-cases (length p.outstanding == 0)) [
    | inl c ↦ rw c (omega (arith, hits-unset x p))
    | inr c ↦ rw c (pick_wb_kept x p gen (ground arith))
  ]

  pub pick_wbs_kept :
      (n x : ℕ) (p : Picked) (gen : g.Gen)
      → occurrences x (pick_wbs g n p gen).0.outstanding + hits x (pick_wbs g n p gen).0.wbs
        ≡ occurrences x p.outstanding + hits x p.wbs
  unfolding pick_wbs
  pick_wbs_kept zero x p gen = refl
  pick_wbs_kept (suc n) x p gen =
      let (p1, gen1) = pick_round g p gen in pick_wbs_kept n x p1 gen1 ∙ pick_round_kept x p gen
