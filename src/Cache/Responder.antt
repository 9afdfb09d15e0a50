-- ===== src/Cache/Responder.antt =====
-- `MemResponder`, the memory side of the cache testbench: one read at a time, answered some cycles
-- after its request. `rand()` is a parameter of each step, and the step also gets the counter of the
-- write-backs.
use native.Mathlib.Nat.{mod-lt}
use rv64_ooo_core.Prelude.{
  ℕ, zero, suc, ◌+◌, ◌-◌, ◌%◌, ◌≤◌, ◌<◌, ◌≡◌, refl, ap, arith, ◌==◌, if◌then◌else◌, Option, none,
  some, Bool, true, false, not, ◌&&◌, List, [], ◌∷◌, ◌++◌, length, replicate, ne→==,
}
use rv64_ooo_core.Prelude.Word.{ℤ, pos, negsuc, sub_ℤ}
use rv64_ooo_core.Cache.{ByteMem, read_line, write_line, wide_to_bytes}

-- The members; `backing` is a reference, so the memory is part of the state. `min_latency`, an `int` that
-- the testbench sets to 1 or 15, is a number.
pub record Responder : Type 0 where
  pub backing : ByteMem
  pub pending : Bool
  pub countdown : ℤ
  pub pending_line : List ℕ
  pub writebacks_seen : ℕ
  pub min_latency : ℕ

-- The request of a cycle: the arguments of `step`, and what `rand()` would return.
pub record Request : Type 0 where
  pub req_valid : Bool
  pub req_addr : ℕ
  pub req_we : Bool
  pub req_wdata : List ℕ
  pub rand : ℕ

unfoldable pub fresh : ByteMem → Responder
fresh m = record {
  backing = m;
  pending = false;
  countdown = pos 0;
  pending_line = replicate 64 0;
  writebacks_seen = 0;
  min_latency = 1;
}

-- The second half of `step`: `if (req_valid && !pending)`.
unfoldable pub accept : Responder → Request → Responder
accept r q =
    if q.req_valid && not r.pending
    then (if q.req_we
        then record r {
          backing = write_line r.backing q.req_addr (wide_to_bytes q.req_wdata);
          writebacks_seen = r.writebacks_seen + 1;
        }
        else record r {
          pending = true;
          countdown = pos (r.min_latency + q.rand % (21 - r.min_latency));
          pending_line = read_line r.backing q.req_addr;
        })
    else r

abbrev pub is_zero : ℤ → Bool
is_zero (pos n) = n == 0
is_zero (negsuc n) = false

-- `step`, which returns the response's line if there is one in this cycle.
unfoldable pub step : Responder → Request → Responder × Option (List ℕ)
step r q =
    let counted = record r { countdown = sub_ℤ r.countdown 1 } in
    if r.pending
    then (if is_zero counted.countdown
        then (record counted { pending = false }, some r.pending_line)
        else (accept counted q, none))
    else (accept r q, none)

-- The responses of a run, a cycle each, and the state after it.
unfoldable pub run : Responder → List Request → List (Option (List ℕ)) × Responder
run r [] = ([], r)
run r (q ∷ qs) = let (r', out) = step r q in let (outs, last) = run r' qs in (out ∷ outs, last)

and_false : (b : Bool) → (b && false) ≡ false
and_false true = refl
and_false false = refl

one_less : (n : ℕ) → sub_ℤ (pos (suc n)) 1 ≡ pos n
one_less n = ground arith

not_zero : (n : ℕ) → (suc n == 0) ≡ false
not_zero n = ne→== (suc n) 0 (λ e. omega arith)

module _ (r : Responder) where
  -- A read is under way, to be answered in `n` cycles.
  abbrev pub waiting : ℕ → Responder
  waiting n = record r { pending = true; countdown = pos n }

  -- It has been answered.
  abbrev pub answered : Responder
  answered = record r { pending = false; countdown = pos 0 }

  accept-waiting : (n : ℕ) (q : Request) → accept (waiting n) q ≡ waiting n
  unfolding accept
  accept-waiting n q = rw (and_false q.req_valid) refl

  step-last : (q : Request) → step (waiting 1) q ≡ (answered, some r.pending_line)
  unfolding step
  step-last q = refl

  step-waiting : (n : ℕ) (q : Request) → step (waiting (suc (suc n))) q ≡ (waiting (suc n), none)
  unfolding step
  step-waiting n q = rw (one_less (suc n), not_zero n, accept-waiting (suc n) q) refl

  run-waiting :
      (n : ℕ) (qs : List Request)
      → length qs ≡ suc n
      → run (waiting (suc n)) qs ≡ (replicate n none ++ (some r.pending_line ∷ []), answered)
  unfolding run
  run-waiting zero (q ∷ []) e = rw (step-last q) refl
  run-waiting zero [] e = absurd (omega arith)
  run-waiting zero (q ∷ (q' ∷ qs)) e = absurd (omega arith)
  run-waiting (suc n) [] e = absurd (omega arith)
  run-waiting (suc n) (q ∷ qs) e = rw (step-waiting n q, run-waiting n qs (omega arith)) refl

  run-waiting_from :
      (c : ℕ) (qs : List Request)
      → 0 < c
      → length qs ≡ c
      → (none ∷ (run (waiting c) qs).0 ≡ replicate c none ++ (some r.pending_line ∷ []))
        × ((run (waiting c) qs).1 ≡ answered)
  run-waiting_from zero qs h e = absurd (omega arith)
  run-waiting_from (suc n) qs h e = rw (run-waiting n qs e) (refl, refl)

-- The cycles from a read's request to its answer.
abbrev pub latency : Responder → Request → ℕ
latency r q = r.min_latency + q.rand % (21 - r.min_latency)

accept-read :
    (r : Responder) (q : Request)
    → r.pending ≡ false
    → q.req_valid ≡ true
    → q.req_we ≡ false
    → step r q
      ≡ (waiting (record r { pending_line = read_line r.backing q.req_addr }) (latency r q), none)
unfolding step accept
accept-read r q idle valid we = rw (idle, valid, we) refl

-- A read that is requested while none is under way is answered in the cycle `latency` later, which is
-- between 1 and 20 cycles after it, and in no cycle before: with the line as it was in memory at the
-- request. Requests that come before the answer, or in its cycle, change nothing.
pub read_answered :
    (r : Responder) (q : Request) (qs : List Request)
    → 0 < r.min_latency
    → r.min_latency ≤ 20
    → r.pending ≡ false
    → q.req_valid ≡ true
    → q.req_we ≡ false
    → length qs ≡ latency r q
    → ((0 < latency r q) × (latency r q ≤ 20))
      × ((run r (q ∷ qs)).0
          ≡ replicate (latency r q) none ++ (some (read_line r.backing q.req_addr) ∷ []))
      × ((run r (q ∷ qs)).1.backing ≡ r.backing)
unfolding run
read_answered r q qs low high idle valid we e =
    let bounds : (0 < latency r q) × (latency r q ≤ 20) =
      omega (arith, mod-lt q.rand {m = 21 - r.min_latency} (omega arith)) in
    let (outs, last) =
      run-waiting_from (record r { pending_line = read_line r.backing q.req_addr }) (latency r q) qs
        bounds.0 e in
    rw (accept-read r q idle valid we) (bounds, outs, ap (λ t. t.backing) last)
