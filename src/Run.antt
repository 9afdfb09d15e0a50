-- ===== src/Run.antt =====
-- The run of a program by model/main.cpp: the loop over `Iss::step` and the exit code. Reading the
-- arguments and the program, the trace and the register dump are left out.
mod Tests
use rv64_ooo_core.Prelude.{
  ℕ, zero, suc, ◌+◌, ◌<◌, ◌≡◌, ◌≢◌, refl, sym, ap, subst, ◌∙◌, arith, ◌==◌, if◌then◌else◌, Bool,
  true, false, Bool-cases, inl, inr, ==_iff, List,
}
use rv64_ooo_core.Iss.{State, Exit, nothing, ecall, ebreak, illegal}
use rv64_ooo_core.Iss.Memory.{load_image}
use rv64_ooo_core.Iss.Execute.{step, reset}
use rv64_ooo_core.Iss.Effect.{Effect, halted, continued, step-Effect}

-- The `switch` over `exit_reason`.
unfoldable pub halt_code : Exit → ℕ
halt_code ecall = 2
halt_code ebreak = 3
halt_code illegal = 4
halt_code nothing = 4

-- What `main` returns, the number of the last step, and the simulator at the end.
pub record Result : Type 0 where
  pub code : ℕ
  pub steps : ℕ
  pub final : State

-- A round of the loop, before `rest`.
abbrev pub round : ℕ → State → Bool → Result → Result
round n s false rest = record { code = halt_code s.exit_reason; steps = n; final = s }
round n s true rest = if s.x 31 == 1 then record { code = 0; steps = n; final = s } else rest

-- The loop, with `left` rounds to go before `max_steps`.
unfoldable pub run_loop : ℕ → ℕ → State → Result
run_loop zero n s = record { code = 1; steps = n; final = s }
run_loop (suc left) n s =
    let rest = run_loop left (n + 1) (step s).0 in round n (step s).0 (step s).1 rest

-- `main` after the program is read.
unfoldable pub main : ℕ → List ℕ → Result
main max_steps prog = run_loop max_steps 0 (reset (load_image prog))

-- `n` steps that neither halt nor leave 1 in x31.
pub data Runs : ℕ → State → State → Type 0 where
  start : {s : State} → Runs 0 s s
  onward :
      {n : ℕ} {s t : State}
      → (step s).1 ≡ true
      → (step s).0.x 31 ≢ 1
      → Runs n (step s).0 t
      → Runs (suc n) s t

-- Why a run of at most `left` steps, the first of them the step `n`, ended as it did.
pub data Verdict (left n : ℕ) (s : State) : Result → Type 0 where
  passed :
      (k : ℕ) (t : State)
      → k < left
      → Runs k s t
      → (step t).1 ≡ true
      → (step t).0.x 31 ≡ 1
      → Verdict left n s (record { code = 0; steps = n + k; final = (step t).0 })
  halts :
      (k : ℕ) (t : State)
      → k < left
      → Runs k s t
      → (step t).1 ≡ false
      → (step t).0.exit_reason ≢ nothing
      → Verdict left n s
          (record { code = halt_code (step t).0.exit_reason; steps = n + k; final = (step t).0 })
  timed_out :
      (t : State)
      → Runs left s t
      → Verdict left n s (record { code = 1; steps = n + left; final = t })

Effect-reason :
    (s : State) (r : State × Bool) → Effect s r → r.1 ≡ false → r.0.exit_reason ≢ nothing
Effect-reason s _ (halted e ne) h = ne
Effect-reason s _ (continued s' _ _ _) h = cc

module _ (left n : ℕ) (s : State) where
  at_first :
      (code k : ℕ) (t : State)
      → Verdict left n s (record { code = code; steps = n + 0; final = t })
      → Verdict left n s (record { code = code; steps = n; final = t })
  at_first code k t v =
      subst (λ m. Verdict left n s (record { code = code; steps = m; final = t })) {x = n + 0}
        (omega arith) v

  -- One step more before the rest of a run.
  one_more :
      (res : Result)
      → (step s).1 ≡ true
      → (step s).0.x 31 ≢ 1
      → Verdict left (n + 1) (step s).0 res
      → Verdict (suc left) n s res
  one_more _ ok not_one (passed k t h runs end one) =
      subst (λ m. Verdict (suc left) n s (record { code = 0; steps = m; final = (step t).0 }))
        {x = n + suc k} (omega arith)
        (passed (suc k) t (omega arith) (onward ok not_one runs) end one)
  one_more _ ok not_one (halts k t h runs end reason) =
      subst
        (λ m.
          Verdict (suc left) n s
            (record { code = halt_code (step t).0.exit_reason; steps = m; final = (step t).0 }))
        {x = n + suc k} (omega arith)
        (halts (suc k) t (omega arith) (onward ok not_one runs) end reason)
  one_more _ ok not_one (timed_out t runs) =
      subst (λ m. Verdict (suc left) n s (record { code = 1; steps = m; final = t }))
        {x = n + suc left} (omega arith) (timed_out t (onward ok not_one runs))

is_one : (v : ℕ) → (v == 1) ≡ true → v ≡ 1
is_one v h = ground arith

not_one : (v : ℕ) → (v == 1) ≡ false → v ≢ 1
not_one v h = ground arith

run_loop-Verdict : (left n : ℕ) (s : State) → Verdict left n s (run_loop left n s)
unfolding run_loop
run_loop-Verdict zero n s = at_first 0 n s 1 0 s (timed_out s start)
run_loop-Verdict (suc left) n s =
    let rest = run_loop left (n + 1) (step s).0 in
    elim (Bool-cases (step s).1) [
      | inr c ↦ rw c (
          at_first (suc left) n s _ 0 (step s).0
            (halts 0 s (omega arith) start c (Effect-reason s (step s) (step-Effect s) c)))
      | inl c ↦ rw c (elim (Bool-cases ((step s).0.x 31 == 1)) [
        | inl one ↦ rw one (
            at_first (suc left) n s _ 0 (step s).0
              (passed 0 s (omega arith) start c (is_one _ one)))
        | inr other ↦
            rw other (
              one_more left n s rest c (not_one _ other) (run_loop-Verdict left (n + 1) (step s).0))
      ])
    ]

-- A run of a program ends in one of three ways. The exit code is 0 after a step that leaves 1 in x31;
-- it is the code of the reason after a step that halts, and then there is a reason; it is 1 after
-- `max_steps` steps without either. In each case all steps before went on without leaving 1 in x31, and
-- the number printed is that of the last step.
pub main-Verdict :
    (max_steps : ℕ) (prog : List ℕ)
    → Verdict max_steps 0 (reset (load_image prog)) (main max_steps prog)
unfolding main
main-Verdict max_steps prog = run_loop-Verdict max_steps 0 (reset (load_image prog))
