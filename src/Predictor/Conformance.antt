-- ===== src/Predictor/Conformance.antt =====
-- What the mismatches that sim/bp/tb_bp.cpp counts show.
use rv64_ooo_core.Prelude.{
  ℕ, ◌+◌, ◌≤◌, ◌≡◌, ◌↔◌, refl, ◌∙◌, arith, one_if, Bool, true, false, Bool-cases, inl, inr, List,
  [], ◌∷◌,
}
use rv64_ooo_core.Predictor.{RefModel, Prediction, Event, predict, update}
use rv64_ooo_core.Predictor.Bench.{
  Device, Counts, Bench, mismatch, count_mismatch, score, counted_event, total_mismatch, predicting,
  updated, run_event, run_events,
}

-- The outputs that the predictor promises: the hit, the direction, and the target on a hit.
pub record Agrees (dut exp : Prediction) : Type 0 where
  pub hit : dut.hit ≡ exp.hit
  pub taken : dut.taken ≡ exp.taken
  pub target : exp.hit ≡ true → dut.target ≡ exp.target

-- A prediction that is taken is a hit.
IsSensible : Prediction → Type 0
IsSensible p = p.taken ≡ true → p.hit ≡ true

predict-IsSensible : (pe be tb : ℕ) (r : RefModel) (pc : ℕ) → IsSensible (predict pe be tb r pc)
unfolding predict IsSensible
predict-IsSensible pe be tb r pc h = ground arith

mismatch_iff : (dut exp : Prediction) → IsSensible exp → (mismatch dut exp ≡ false) ↔ Agrees dut exp
unfolding mismatch IsSensible
mismatch_iff dut exp s = (
  λ h. record { hit = ground arith; taken = ground arith; target = λ k. ground arith },
  λ a. let hit = a.hit in let taken = a.taken in let target = a.target in ground arith,
)

total-counted_event :
    (e : Event) (dut exp : Prediction) (c : Counts)
    → total_mismatch (counted_event e dut exp c) ≡ total_mismatch c + one_if (mismatch dut exp)
unfolding counted_event score count_mismatch total_mismatch
total-counted_event e dut exp c = elim (Bool-cases e.is_loop_stream) [
  | inl k ↦ rw k (elim (Bool-cases (mismatch dut exp)) [
    | inl w ↦ rw w (omega arith)
    | inr w ↦ rw w (omega arith)
  ])
  | inr k ↦ rw k (elim (Bool-cases (mismatch dut exp)) [
    | inl w ↦ rw w (omega arith)
    | inr w ↦ rw w (omega arith)
  ])
]

module _ (pe be tb : ℕ) (d : Device) where
  -- At every event of a trace, the device predicts as the model does.
  abbrev pub Conforms : d.Dut → RefModel → List Event → Type 0
  Conforms dut r [] = Unit
  Conforms dut r (e ∷ es) =
      Agrees (d.seen (predicting d dut e)) (predict pe be tb r e.pc)
      × Conforms (updated d (predicting d dut e) e) (update pe be tb r e.pc e.taken e.target) es

  abbrev wrong : Bench d → Event → Bool
  wrong t e = mismatch (d.seen (predicting d t.dut e)) (predict pe be tb t.model e.pc)

  total-run_event :
      (t : Bench d) (e : Event)
      → total_mismatch (run_event pe be tb d t e).counts
        ≡ total_mismatch t.counts + one_if (wrong t e)
  unfolding run_event
  total-run_event t e =
      total-counted_event e (d.seen (predicting d t.dut e)) (predict pe be tb t.model e.pc) t.counts

  total-le :
      (t : Bench d) (es : List Event)
      → total_mismatch t.counts ≤ total_mismatch (run_events pe be tb d t es).counts
  unfolding run_events
  total-le t [] = omega arith
  total-le t (e ∷ es) = omega (arith, total-run_event t e, total-le (run_event pe be tb d t e) es)

  -- Over any trace, no mismatch is counted exactly if at every event the device gives the hit, the
  -- direction and, on a hit, the target that the model gives: the check that no prediction is taken
  -- without a hit counts nothing by itself.
  pub run_events-Conforms :
      (t : Bench d) (es : List Event)
      → (total_mismatch (run_events pe be tb d t es).counts ≡ total_mismatch t.counts)
        ↔ Conforms t.dut t.model es
  unfolding run_events run_event
  run_events-Conforms t [] = (λ _. tt, λ _. refl)
  run_events-Conforms t (e ∷ es) =
      let dut = d.seen (predicting d t.dut e) in
      let exp = predict pe be tb t.model e.pc in
      let judge = mismatch_iff dut exp (predict-IsSensible pe be tb t.model e.pc) in
      let count = total-run_event t e in
      let more = total-le (run_event pe be tb d t e) es in
      let (to, from) = run_events-Conforms (run_event pe be tb d t e) es in
      elim (Bool-cases (mismatch dut exp)) [
        | inl w ↦
            let one : total_mismatch (run_event pe be tb d t e).counts
                ≡ total_mismatch t.counts + 1 =
              count ∙ rw w refl in
            (λ h. absurd (omega arith), λ p. absurd (let right = judge.1 p.0 in let k = w in cc))
        | inr w ↦
            let none : total_mismatch (run_event pe be tb d t e).counts ≡ total_mismatch t.counts =
              count ∙ rw w (omega arith) in
            (λ h. (judge.0 w, to (h ∙ (omega arith))), λ p. from p.1 ∙ (omega arith))
      ]
