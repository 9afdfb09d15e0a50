-- ===== src/Lsq/Replay.antt =====
-- The memory of the testbench sim/lsq/tb_lsq.cpp and the log of its commits.
use rv64_ooo_core.Prelude.{
  ℕ, zero, suc, ◌≡◌, refl, sym, ap, subst, ◌∙◌, ◌==◌, ==_refl, ◌&&◌, if◌then◌else◌, Bool, true,
  false, Bool-cases, inl, inr, Option, none, some, List, [], ◌∷◌, get_or,
}
use rv64_ooo_core.Lsq.{StoreCommitInfo, DispReq, apply_commit, peek_store_commit}
use rv64_ooo_core.Lsq.Outcome.{
  Outcome, ok, ◌>>=◌, ◌>>◌, require, within, bound, required, within_ok,
}
use rv64_ooo_core.Lsq.Bench.{
  Op, Bench, CommitLogEntry, lqd, sqd, robw, mem_size, written, replay, same_image,
  check_final_memory_image, in_bounds, reset_bench, cur_rob_head,
}
use rv64_ooo_core.Lsq.BenchCycle.{
  CycleInputs, CycleOutputs, Seen, Device, tick, drive, req0, req1, slot0, slot1, driven, answered,
  noted, expected, readable, owned, response_of, response_out, no_outputs, check_response,
  dispatch_agrees, counts_agree, store_agrees,
}
use rv64_ooo_core.Lsq.BenchApply.{
  accept, dispatched, store_addressed, load_addressed, memory_written, after_write, after_commit,
  retired, retire_if, committed, squashed, applied, accepted_outputs, with_outputs, with_dut,
  after_checks, observe, observed, answered_read, Run, memory_answer, cycle, cycles, reset_all,
}

-- The memory is what the log makes of a cleared one.
pub record IsLogged (t : Bench) : Type 0 where
  pub image : t.mem ≡ replay t.g_commit_log

ok_inj : {A : Type 0} {x y : A} → Path (Outcome A) (ok x) (ok y) → x ≡ y
ok_inj e = cc

-- Neither the memory nor the log is changed.
abbrev Untouched : Bench → Bench → Type 0
Untouched t u = (u.mem ≡ t.mem) × (u.g_commit_log ≡ t.g_commit_log)

Untouched-IsLogged : (t u : Bench) → Untouched t u → IsLogged t → IsLogged u
Untouched-IsLogged t u (m, l) k = record { image = m ∙ (k.image ∙ ap replay (sym l)) }

accept-Untouched : (r : DispReq) (b : Bool) (slot : ℕ) (t : Bench) → Untouched t (accept r b slot t)
unfolding accept
accept-Untouched r b slot t = elim (Bool-cases (r.valid && b)) [
  | inl c ↦ rw c (refl, refl)
  | inr c ↦ rw c (refl, refl)
]

accept_again :
    (t u : Bench) (r : DispReq) (b : Bool) (slot : ℕ)
    → Untouched t u
    → Untouched t (accept r b slot u)
accept_again t u r b slot h = let a = accept-Untouched r b slot u in (a.0 ∙ h.0, a.1 ∙ h.1)

dispatched-Untouched : (i : CycleInputs) (o : Seen) (t : Bench) → Untouched t (dispatched i o t)
unfolding dispatched
dispatched-Untouched i o t =
    accept_again t _ (req1 t i) o.disp_ready1 (slot1 i o)
      (accept_again t _ (req0 t i) o.disp_ready0 (slot0 i o) (refl, refl))

store_addressed-Untouched : (i : CycleInputs) (t : Bench) → Untouched t (store_addressed i t)
unfolding store_addressed
store_addressed-Untouched i t = elim (Bool-cases i.st_addr_valid) [
  | inl c ↦ rw c (refl, refl)
  | inr c ↦ rw c (refl, refl)
]

load_addressed-Untouched : (i : CycleInputs) (t : Bench) → Untouched t (load_addressed i t)
unfolding load_addressed
load_addressed-Untouched i t = elim (Bool-cases i.ld_addr_valid) [
  | inl c ↦ rw c (refl, refl)
  | inr c ↦ rw c (refl, refl)
]

squashed-Untouched : (i : CycleInputs) (h : ℕ) (t : Bench) → Untouched t (squashed i h t)
unfolding squashed
squashed-Untouched i h t = elim (Bool-cases i.squash_all) [
  | inl c ↦ rw c (refl, refl)
  | inr c ↦
      rw c
        (elim (Bool-cases i.squash_valid) [ inl e ↦ rw e (refl, refl) | inr e ↦ rw e (refl, refl) ])
]

written-IsLogged :
    (sc : StoreCommitInfo) (t u : Bench) → memory_written sc t ≡ ok u → IsLogged t → IsLogged u
unfolding memory_written replay
written-IsLogged sc t u h k = elim (Bool-cases sc.valid) [
  | inl c ↦
      let e : CommitLogEntry = record {
        addr = sc.addr;
        size = sc.size;
        store_data = sc.store_data;
      } in
      let q =
        within_ok (in_bounds sc.addr sc.size)
          (ok (record t { mem = written t.mem e; g_commit_log = e ∷ t.g_commit_log })) u
          (rw c at h) in
      subst IsLogged (ok_inj q.1) (record { image = ap (λ m. written m e) k.image })
  | inr c ↦ subst IsLogged (ok_inj (rw c at h)) k
]

retired-Untouched :
    (want : Bool) (ops : List Op) (t u : Bench) → retired want ops t ≡ ok u → Untouched t u
unfolding retired
retired-Untouched want [] t u h = absurd (let e = h in cc)
retired-Untouched true (op ∷ rest) t u h = elim (Bool-cases op.is_load) [
  | inl c ↦ subst (Untouched t) (ok_inj (rw c at h)) (refl, refl)
  | inr c ↦ absurd (let e = rw c at h in cc)
]
retired-Untouched false (op ∷ rest) t u h = elim (Bool-cases op.is_load) [
  | inl c ↦ absurd (let e = rw c at h in cc)
  | inr c ↦ subst (Untouched t) (ok_inj (rw c at h)) (refl, refl)
]

retire-Untouched : (b want : Bool) (t u : Bench) → retire_if b want t ≡ ok u → Untouched t u
unfolding retire_if
retire-Untouched false want t u h = subst (Untouched t) (ok_inj h) (refl, refl)
retire-Untouched true want t u h = retired-Untouched want t.prog t u h

committed-IsLogged :
    (i : CycleInputs) (sc : StoreCommitInfo) (t u : Bench)
    → committed i sc t ≡ ok u
    → IsLogged t
    → IsLogged u
unfolding committed after_write
committed-IsLogged i sc t u h k =
    let (t1, e1, h1) = bound (memory_written sc t) (after_write i) u h in
    let t2 = record t1 {
      model = apply_commit lqd sqd robw t1.model i.commit_store i.commit_load;
    } in
    let (t3, e3, h3) =
      bound (retire_if i.commit_store false t2) (retire_if i.commit_load true) u h1 in
    Untouched-IsLogged t3 u (retire-Untouched i.commit_load true t3 u h3) (
      Untouched-IsLogged t2 t3 (retire-Untouched i.commit_store false t2 t3 e3)
        (record { image = (written-IsLogged sc t t1 e1 k).image }))

applied-IsLogged :
    (i : CycleInputs) (o : Seen) (sc : StoreCommitInfo) (h : ℕ) (t u : Bench)
    → applied i o sc h t ≡ ok u
    → IsLogged t
    → IsLogged u
unfolding applied after_commit
applied-IsLogged i o sc head t u h k =
    let ta = dispatched i o t in
    let tb = store_addressed i ta in
    let t0 = load_addressed i tb in
    let k0 = Untouched-IsLogged tb t0 (load_addressed-Untouched i tb) (
      Untouched-IsLogged ta tb (store_addressed-Untouched i ta)
        (Untouched-IsLogged t ta (dispatched-Untouched i o t) k)) in
    let (t1, e1, h1) = bound (committed i sc t0) (after_commit i head) u h in
    let k1 =
      Untouched-IsLogged t1 (squashed i head t1) (squashed-Untouched i head t1)
        (committed-IsLogged i sc t0 t1 e1 k0) in
    subst IsLogged (ok_inj h1) (record { image = k1.image })

answered-Untouched :
    (t : Bench) (o : Seen) (op : Op) (r : Bench × ℕ) → answered t o op ≡ ok r → Untouched t r.0
unfolding answered noted
answered-Untouched t o op r h =
    let good = ok (noted (expected t o).1 op t, (expected t o).0) in
    let a =
      required (o.ld_resp_rob_idx == op.rob_idx)
        (within (readable t o) >> (require (o.ld_resp_data == (expected t o).0) >> good)) r h in
    let b = within_ok (readable t o) (require (o.ld_resp_data == (expected t o).0) >> good) r a.1 in
    let c = required (o.ld_resp_data == (expected t o).0) good r b.1 in
    subst (λ (x : Bench × ℕ). Untouched t x.0) (ok_inj c.1) (refl, refl)

response-Untouched :
    (t : Bench) (o : Seen) (op : Option Op) (r : Bench × CycleOutputs)
    → response_of t o op ≡ ok r
    → Untouched t r.0
unfolding response_of
response-Untouched t o none r h = absurd (let e = h in cc)
response-Untouched t o (some op) r h =
    let (x, e, g) = bound (answered t o op) (response_out o) r h in
    subst (λ (y : Bench × CycleOutputs). Untouched t y.0) (ok_inj g) (answered-Untouched t o op x e)

check-Untouched :
    (t : Bench) (o : Seen) (r : Bench × CycleOutputs) → check_response t o ≡ ok r → Untouched t r.0
unfolding check_response
check-Untouched t o r h =
    let op = owned (get_or t.lq_owner o.ld_resp_lq_idx none) t.prog in
    let branch = λ (b : Bool). if b then response_of t o op else ok (t, no_outputs) in
    elim (Bool-cases o.ld_resp_valid) [
      | inl c ↦ response-Untouched t o op r (sym (ap branch c) ∙ h)
      | inr c ↦
          subst (λ (y : Bench × CycleOutputs). Untouched t y.0) (ok_inj (sym (ap branch c) ∙ h))
            (refl, refl)
    ]

observe-IsLogged :
    (t : Bench) (i : CycleInputs) (o : Seen) (r : Bench × CycleOutputs)
    → observe t i o ≡ ok r
    → IsLogged t
    → IsLogged r.0
unfolding observe after_checks
observe-IsLogged t i o r h k =
    let sc = peek_store_commit lqd sqd robw t.model i.commit_store in
    let after = after_checks i o sc (cur_rob_head t) in
    let a =
      required (dispatch_agrees t i o && counts_agree t o && store_agrees sc o)
        (check_response t o >>= after) r h in
    let (x, e, g) = bound (check_response t o) after r a.1 in
    let (u, f, q) =
      bound (applied i o sc (cur_rob_head t) x.0) (with_outputs (accepted_outputs i o x.1)) r g in
    let k1 = Untouched-IsLogged t x.0 (check-Untouched t o x e) k in
    subst (λ (y : Bench × CycleOutputs). IsLogged y.0) (ok_inj q)
      (applied-IsLogged i o sc (cur_rob_head t) x.0 u f k1)

cycle-IsLogged :
    (d : Device) (r r1 : Run d) (i : CycleInputs) (out : CycleOutputs)
    → cycle d r i ≡ ok (r1, out)
    → IsLogged r.bench
    → IsLogged r1.bench
unfolding cycle observed answered_read
cycle-IsLogged d r r1 i out h k =
    let dut = d.eval (drive d r.dut (driven r.bench i)) in
    let (v, e, g) =
      bound (memory_answer r.bench (d.outputs dut)) (answered_read d dut r.bench i) (r1, out) h in
    let dut2 = d.eval (d.set_dmem_rd_data dut v) in
    let (x, f, q) =
      bound (observe r.bench i (d.outputs dut2)) (with_dut d (tick d dut2)) (r1, out) g in
    subst (λ (y : Run d × CycleOutputs). IsLogged y.0.bench) (ok_inj q)
      (observe-IsLogged r.bench i (d.outputs dut2) x f k)

cycles-IsLogged :
    (d : Device) (r r1 : Run d) (is : List CycleInputs)
    → cycles d r is ≡ ok r1
    → IsLogged r.bench
    → IsLogged r1.bench
unfolding cycles
cycles-IsLogged d r r1 [] h k = subst (λ (x : Run d). IsLogged x.bench) (ok_inj h) k
cycles-IsLogged d r r1 (i ∷ is) h k =
    let (x, e, g) = bound (cycle d r i) (λ y. cycles d y.0 is) r1 h in
    cycles-IsLogged d x.0 r1 is g (cycle-IsLogged d r x.0 i x.1 e k)

same_image_self : (n : ℕ) (f : ℕ → ℕ) → same_image n f f ≡ true
unfolding same_image
same_image_self zero f = refl
same_image_self (suc n) f = rw (==_refl (f n), same_image_self n f) refl

-- After any run of cycles from the reset that passes its checks, the replay of the commit log is the
-- memory: the check of the final memory image cannot fail.
pub cycles-image :
    (d : Device) (r r1 : Run d) (is : List CycleInputs)
    → cycles d (reset_all d r) is ≡ ok r1
    → check_final_memory_image r1.bench ≡ true
unfolding check_final_memory_image reset_all reset_bench replay
cycles-image d r r1 is h =
    let k = cycles-IsLogged d (reset_all d r) r1 is h (record { image = refl }) in
    rw (← k.image) (same_image_self mem_size r1.bench.mem)
