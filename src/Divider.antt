-- ===== src/Divider.antt =====
-- The testbench of the multiplier and divider, sim/muldiv/tb_muldiv.cpp: a case, with the device
-- compiled from the RTL as a parameter, and the generator of its operands.
pub mod Cases
pub mod Verdict
mod Tests
use rv64_ooo_core.Prelude.{
  ℕ, zero, suc, ◌+◌, ◌^◌, ◌<◌, ◌≡◌, ◌≢◌, ◌↔◌, refl, sym, ap, ◌∙◌, arith, bit_xor, ◌==◌,
  if◌then◌else◌, Bool, true, false, not, Bool-cases, inl, inr, ==_refl,
}
use rv64_ooo_core.Prelude.Word.{u64, ◌<<◌, ◌>>◌}
use rv64_ooo_core.Iss.Alu.{op_m, op_m_w}
use rv64_ooo_core.Iss.SingleStep.{golden, in_x3, golden_lem}

-- `next_rand`, a xorshift: the next `lfsr_state`, which is also what it returns.
unfoldable pub next_rand : ℕ → ℕ
next_rand state =
    let s1 = bit_xor state (u64 (state << 13)) in
    let s2 = bit_xor s1 (s1 >> 7) in bit_xor s2 (u64 (s2 << 17))

-- What the testbench uses of the Verilated class: its inputs are set, the circuit is evaluated, and three
-- outputs are read.
pub record Device : Type 1 where
  pub Dut : Type 0
  pub set_rst : Dut → Bool → Dut
  pub set_operands : Dut → ℕ → ℕ → ℕ → Bool → Dut
  pub set_start : Dut → Bool → Dut
  pub set_clk : Dut → Bool → Dut
  pub eval : Dut → Dut
  pub busy : Dut → Bool
  pub done : Dut → Bool
  pub y : Dut → ℕ

-- The evaluations of `tick`.
unfoldable pub cycle : (d : Device) → d.Dut → d.Dut
cycle d dut = d.eval (d.set_clk (d.eval (d.set_clk dut false)) true)

module _ (d : Device) where
  pub record Bench : Type 0 where
    pub dut : d.Dut
    pub mismatches : ℕ
    pub cycle_count : ℕ

  unfoldable pub tick : Bench → Bench
  tick t = record t { dut = cycle d t.dut; cycle_count = t.cycle_count + 1 }

  -- `while (!dut->done && guard-- > 0) tick();`
  unfoldable pub wait_loop : ℕ → Bench → Bench
  wait_loop zero t = t
  wait_loop (suc guard) t = let rest = wait_loop guard (tick t) in if d.done t.dut then t else rest

  -- The device with the operands, after the pulse of `start`.
  unfoldable pub started : Bench → ℕ → ℕ → ℕ → Bool → Bench
  started t a b funct3 is_word =
      let t1 =
        tick (record t { dut = d.set_start (d.set_operands t.dut a b funct3 is_word) true }) in
      record t1 { dut = d.set_start t1.dut false }

  -- What is done with the result; a timeout returns at once.
  unfoldable pub judge : ℕ → Bench → Bench
  judge expect t =
      if not (d.done t.dut)
      then record t { mismatches = t.mismatches + 1 }
      else tick (if d.y t.dut == expect then t else record t { mismatches = t.mismatches + 1 })

  unfoldable pub run_case : Bench → ℕ → ℕ → ℕ → Bool → Bench
  run_case t a b funct3 is_word =
      let expect = golden a b funct3 is_word in
      judge expect (wait_loop 200 (started t a b funct3 is_word))

-- What the instruction computes.
abbrev pub correct : ℕ → ℕ → ℕ → Bool → ℕ
correct a b funct3 true = in_x3 (op_m_w funct3 a b)
correct a b funct3 false = op_m funct3 a b

-- The device says that it is done after at most `guard` cycles, and is then in the state `e`.
pub data DoneIn (d : Device) : ℕ → Device.Dut d → Device.Dut d → Type 0 where
  now : {guard : ℕ} {e : Device.Dut d} → Device.done d e ≡ true → DoneIn d guard e e
  later :
      {guard : ℕ} {e f : Device.Dut d}
      → Device.done d e ≡ false
      → DoneIn d guard (cycle d e) f
      → DoneIn d (suc guard) e f

-- It is done in time, with the value `v`.
pub record Answers (d : Device) (e : Device.Dut d) (v : ℕ) : Type 0 where
  pub at_end : Device.Dut d
  pub in_time : DoneIn d 200 e at_end
  pub value : Device.y d at_end ≡ v

same_number : (a b : ℕ) → (a == b) ≡ true → a ≡ b
same_number a b h = ground arith

other_number : (a b : ℕ) → (a == b) ≡ false → a ≢ b
other_number a b h = ground arith

golden-correct :
    (a b funct3 : ℕ) (is_word : Bool)
    → funct3 < 2 ^ 3
    → golden a b funct3 is_word ≡ correct a b funct3 is_word
golden-correct a b funct3 true f3 = (golden_lem a b funct3 f3).1
golden-correct a b funct3 false f3 = (golden_lem a b funct3 f3).0

module _ (d : Device) where
  started-mismatches :
      (t : Bench d) (a b funct3 : ℕ) (is_word : Bool)
      → (started d t a b funct3 is_word).mismatches ≡ t.mismatches
  unfolding started tick
  started-mismatches t a b funct3 is_word = refl

  wait-DoneIn :
      (guard : ℕ) (t : Bench d)
      → d.done (wait_loop d guard t).dut ≡ true
      → DoneIn d guard t.dut (wait_loop d guard t).dut
  unfolding wait_loop tick
  wait-DoneIn zero t h = now h
  wait-DoneIn (suc guard) t h = elim (Bool-cases (d.done t.dut)) [
    | inl c ↦ rw c (now c)
    | inr c ↦ rw c (later c (wait-DoneIn guard (tick d t) (rw c at h)))
  ]

  DoneIn-wait :
      (guard : ℕ) (t : Bench d) (f : d.Dut)
      → DoneIn d guard t.dut f
      → ((wait_loop d guard t).dut ≡ f) × (d.done f ≡ true)
  unfolding wait_loop tick
  DoneIn-wait zero t _ (now h) = (refl, h)
  DoneIn-wait (suc guard) t _ (now h) = (rw h refl, h)
  DoneIn-wait (suc guard) t f (later c rest) = rw c (DoneIn-wait guard (tick d t) f rest)

  wait-mismatches : (guard : ℕ) (t : Bench d) → (wait_loop d guard t).mismatches ≡ t.mismatches
  unfolding wait_loop tick
  wait-mismatches zero t = refl
  wait-mismatches (suc guard) t = elim (Bool-cases (d.done t.dut)) [
    | inl c ↦ rw c refl
    | inr c ↦ rw c (wait-mismatches guard (tick d t))
  ]

  judge_iff :
      (expect : ℕ) (t : Bench d)
      → ((judge d expect t).mismatches ≡ t.mismatches)
        ↔ ((d.done t.dut ≡ true) × (d.y t.dut ≡ expect))
  unfolding judge tick
  judge_iff expect t = elim (Bool-cases (d.done t.dut)) [
    | inr c ↦ rw c (λ h. absurd (omega (arith, h)), λ p. absurd (let q = p.0 in cc))
    | inl c ↦ rw c (elim (Bool-cases (d.y t.dut == expect)) [
      | inl q ↦ rw q (λ h. (refl, same_number (d.y t.dut) expect q), λ p. refl)
      | inr q ↦
          rw q (λ h. absurd (omega (arith, h)), λ p. absurd (other_number (d.y t.dut) expect q p.1))
    ])
  ]

-- A case counts no mismatch exactly if the device, once started with the operands, is done within 200
-- cycles and then gives what the instruction computes.
pub run_case_lem :
    (d : Device) (t : Bench d) (a b funct3 : ℕ) (is_word : Bool)
    → funct3 < 2 ^ 3
    → ((run_case d t a b funct3 is_word).mismatches ≡ t.mismatches)
      ↔ Answers d (started d t a b funct3 is_word).dut (correct a b funct3 is_word)
unfolding run_case
run_case_lem d t a b funct3 is_word f3 =
    let s = started d t a b funct3 is_word in
    let w = wait_loop d 200 s in
    let kept : w.mismatches ≡ t.mismatches =
      wait-mismatches d 200 s ∙ started-mismatches d t a b funct3 is_word in
    let expect = golden-correct a b funct3 is_word f3 in
    let (to, from) = judge_iff d (golden a b funct3 is_word) w in
    (
      λ h.
          let (ended, value) = to (h ∙ sym kept) in
          record { at_end = w.dut; in_time = wait-DoneIn d 200 s ended; value = value ∙ expect },
      λ ans.
          let (reached, ended) = DoneIn-wait d 200 s ans.at_end ans.in_time in
          from (ap d.done reached ∙ ended, ap d.y reached ∙ (ans.value ∙ sym expect)) ∙ kept,
    )
