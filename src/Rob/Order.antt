-- ===== src/Rob/Order.antt =====
-- Runs of the reorder buffer over a sequence of clock cycles: what commits, against what was sent.
use mathlib.Core.List.{
  append-nil, append_assoc, map-append, Sublist, nil-sublist, sublist-append_left,
}
use mathlib.Core.List.Sublist
use rv64_ooo_core.Prelude.{
  ℕ, zero, suc, ◌-◌, ◌≤◌, ◌<◌, ◌≡◌, refl, sym, ◌∙◌, ap, Bool, true, false, subst, arith, leb,
  Bool-cases, inl, inr, if◌then◌else◌, List, [], ◌∷◌, ◌++◌, map, length, get_or, set, take, drop,
  replicate, take-append-drop, length-tabulate, ap₂,
}
use rv64_ooo_core.Prelude.Circular.{at}
use rv64_ooo_core.Rob.{
  Rob, Entry, AllocReq, WbReq, CommitOut, no_commit, commit_of, mark_done, empty_entry, n_valid,
  alloc_ready, step,
}
use rv64_ooo_core.Rob.Slots.{InRange, accepted}
use rv64_ooo_core.Rob.Invariant.{IsValid, step-IsValid}
use rv64_ooo_core.Rob.Queue
use rv64_ooo_core.Rob.Queue.{Queue, Stop, retire, stop_of, complete, after, result}
use rv64_ooo_core.Rob.Retire.{contents, view}
use rv64_ooo_core.Rob.Refine.{step_refines}

-- The inputs of one call of `step`.
pub record Cycle : Type 0 where
  pub allocs : List AllocReq
  pub wbs : List WbReq
  pub rst : Bool

unfoldable pub valid_pcs : List AllocReq → List ℕ
valid_pcs [] = []
valid_pcs (a ∷ allocs) = let rest = valid_pcs allocs in if a.valid then a.pc ∷ rest else rest

unfoldable pub commit_pcs : List CommitOut → List ℕ
commit_pcs [] = []
commit_pcs (c ∷ outs) = let rest = commit_pcs outs in if c.valid then c.pc ∷ rest else rest

-- What the sender takes for accepted in a cycle.
unfoldable pub offered : ℕ → ℕ → Rob → Cycle → List ℕ
offered depth width r c =
    if c.rst then [] else if alloc_ready depth width r then valid_pcs c.allocs else []

pub record Trace : Type 0 where
  pub last : Rob
  pub committed : List ℕ
  pub sent : List ℕ

unfoldable pub run : ℕ → ℕ → Rob → List Cycle → Trace
run depth width r [] = record { last = r; committed = []; sent = [] }
run depth width r (c ∷ cycles) =
    let (r', out) = step depth width r c.allocs c.wbs c.rst in
    let rest = run depth width r' cycles in
    record {
      last = rest.last;
      committed = commit_pcs out.commit_out ++ rest.committed;
      sent = offered depth width r c ++ rest.sent;
    }

-- What the model asks of its caller, in every cycle.
abbrev pub Proper : ℕ → ℕ → List Cycle → Type 0
Proper depth width [] = Unit
Proper depth width (c ∷ cycles) =
    (n_valid c.allocs ≤ width) × InRange depth c.wbs × Proper depth width cycles

abbrev pub pcs : List Entry → List ℕ
pcs = map (λ e. e.pc)

pcs-accepted : (allocs : List AllocReq) → pcs (accepted allocs) ≡ valid_pcs allocs
unfolding accepted valid_pcs
pcs-accepted [] = refl
pcs-accepted (a ∷ allocs) = ground (arith, pcs-accepted allocs)

pcs-mark_done :
    (w : WbReq) (q : List Entry) (i : ℕ)
    → pcs (set q i (mark_done w (get_or q i empty_entry))) ≡ pcs q
pcs-mark_done w [] i = refl
pcs-mark_done w (e ∷ q) zero = refl
pcs-mark_done w (e ∷ q) (suc i) = ap (◌∷◌ e.pc) (pcs-mark_done w q i)

pcs-complete :
    (depth first : ℕ) (wbs : List WbReq) (q : List Entry) → pcs (complete depth first wbs q) ≡ pcs q
unfolding complete
pcs-complete depth first [] q = refl
pcs-complete depth first (w ∷ wbs) q = elim (Bool-cases w.valid) [
  | inl v ↦ rw v (pcs-complete depth first wbs _ ∙ pcs-mark_done w q _)
  | inr v ↦ rw v (pcs-complete depth first wbs q)
]

-- What retires is a prefix of the queue.
pub retire-eq-take : (w : ℕ) (q : List Entry) → retire w q ≡ take (length (retire w q)) q
unfolding retire
retire-eq-take zero q = refl
retire-eq-take (suc w) [] = refl
retire-eq-take (suc w) (e ∷ q) = ground (arith, retire-eq-take w q)

commit_pcs-padding :
    (done : List Entry) (k : ℕ)
    → commit_pcs (map commit_of done ++ replicate k no_commit) ≡ pcs done
unfolding commit_pcs
commit_pcs-padding [] zero = refl
commit_pcs-padding [] (suc k) = commit_pcs-padding [] k
commit_pcs-padding (e ∷ done) k = ap (◌∷◌ e.pc) (commit_pcs-padding done k)

retire-append-drop : (w : ℕ) (q : List Entry) → retire w q ++ drop (length (retire w q)) q ≡ q
retire-append-drop w q =
    ap (λ l. l ++ drop (length (retire w q)) q) (retire-eq-take w q)
    ∙ take-append-drop (length (retire w q)) q

pcs_split :
    (w : ℕ) (q : List Entry) → pcs (retire w q) ++ pcs (drop (length (retire w q)) q) ≡ pcs q
pcs_split w q =
    sym (map-append (λ (e : Entry). e.pc) (retire w q) (drop (length (retire w q)) q))
    ∙ ap pcs (retire-append-drop w q)

retired_sublist :
    (w : ℕ) (q : List Entry) (more : List ℕ) → Sublist (pcs (retire w q) ++ []) (pcs q ++ more)
retired_sublist w q more =
    rw (append-nil, ← pcs_split w q)
      (Sublist.trans (sublist-append_left _ (pcs (drop (length (retire w q)) q)))
        (sublist-append_left _ more))

-- A step of the queue: what retires and what stays are, in order, among what was there and what is
-- sent.
after_order :
    (depth width : ℕ) (q : Queue) (allocs : List AllocReq) (wbs : List WbReq) (s : Stop)
    → let sent = if leb width (depth - length q.entries) then accepted allocs else [] in
      let done = retire width q.entries in
      Sublist
        (pcs done ++ pcs (after depth width q allocs wbs s (length done)).entries)
        (pcs q.entries ++ pcs sent)
after_order depth width q allocs wbs (Stop.trap pc) = retired_sublist width q.entries _
after_order depth width q allocs wbs (Stop.redirect pc) = retired_sublist width q.entries _
after_order depth width q allocs wbs Stop.keep =
    let done = retire width q.entries in
    let rest = drop (length done) q.entries in
    let sent = if leb width (depth - length q.entries) then accepted allocs else [] in
    subst (λ l. Sublist l (pcs q.entries ++ pcs sent))
      (sym (
        ap (λ l. pcs done ++ l)
          (pcs-complete depth _ wbs (rest ++ sent) ∙ map-append (λ (e : Entry). e.pc) rest sent)
        ∙ (sym (append_assoc (pcs done) (pcs rest) (pcs sent))
            ∙ ap (λ l. l ++ pcs sent) (pcs_split width q.entries))))
      (Sublist.refl _)

result_commit_out :
    (depth width : ℕ) (q : Queue) (done : List Entry) (s : Stop)
    → (result depth width q done s).commit_out
      ≡ map commit_of done ++ replicate (width - length done) no_commit
result_commit_out depth width q done Stop.keep = refl
result_commit_out depth width q done (Stop.trap pc) = refl
result_commit_out depth width q done (Stop.redirect pc) = refl

module _ (depth width : ℕ) (pos : 0 < width) (room : width ≤ depth) where
  abbrev sent_entries : Rob → List AllocReq → List Entry
  sent_entries r allocs =
      if leb width (depth - length (contents depth r)) then accepted allocs else []

  pcs-sent_entries :
      (r : Rob) (allocs : List AllocReq) (wbs : List WbReq)
      → pcs (sent_entries r allocs)
        ≡ offered depth width r (record { allocs = allocs; wbs = wbs; rst = false })
  unfolding offered alloc_ready
  pcs-sent_entries r allocs wbs =
      rw (length-tabulate (at depth empty_entry r.buf r.head) r.count)
        (elim (Bool-cases (leb width (depth - r.count))) [
          | inl e ↦ rw e (pcs-accepted allocs)
          | inr e ↦ rw e
        ])

  -- One cycle of the circular buffer.
  step_order :
      (r : Rob) (allocs : List AllocReq) (wbs : List WbReq) (rst : Bool)
      → IsValid depth r
      → n_valid allocs ≤ width
      → InRange depth wbs
      → let (r', out) = step depth width r allocs wbs rst in
        Sublist (commit_pcs out.commit_out ++ pcs (contents depth r')) (
          pcs (contents depth r)
          ++ offered depth width r (record { allocs = allocs; wbs = wbs; rst = rst }))
  unfolding step Queue.step Queue.outputs
  step_order r allocs wbs true v few ok = rw (commit_pcs-padding [] width) (nil-sublist _)
  step_order r allocs wbs false v few ok =
      let done = retire width (contents depth r) in
      let next = after depth width (view depth r) allocs wbs (stop_of done) (length done) in
      let sent = offered depth width r (record { allocs = allocs; wbs = wbs; rst = false }) in
      let e = step_refines depth width r allocs wbs pos room v few ok in
      subst (λ l. Sublist l (pcs (contents depth r) ++ sent))
        (sym (
          ap₂ (λ a b. commit_pcs a ++ pcs b)
            (ap (λ o. o.commit_out) e.1
              ∙ result_commit_out depth width (view depth r) done (stop_of done))
            (ap (λ q. q.entries) e.0)
          ∙ ap (λ l. l ++ pcs next.entries) (commit_pcs-padding done (width - length done))))
        (subst (λ l. Sublist (pcs done ++ pcs next.entries) (pcs (contents depth r) ++ l))
          (pcs-sent_entries r allocs wbs)
          (after_order depth width (view depth r) allocs wbs (stop_of done)))

  -- Over any run the instructions that commit, and behind them those that are left, are in order,
  -- and each as often at most, among those that were in the buffer at the start and those that were
  -- sent while it was ready: whatever traps, mispredicted branches and resets did in between. The caller
  -- sends at most `WIDTH` valid requests a cycle, and writes back to slots of the buffer.
  pub run_in_order :
      (r : Rob) (cycles : List Cycle)
      → IsValid depth r
      → Proper depth width cycles
      → let t = run depth width r cycles in
        Sublist (t.committed ++ pcs (contents depth t.last)) (pcs (contents depth r) ++ t.sent)
  unfolding run
  run_in_order r [] v p = sublist-append_left (pcs (contents depth r)) []
  run_in_order r (c ∷ cycles) v p =
      let (r', out) = step depth width r c.allocs c.wbs c.rst in
      let t = run depth width r' cycles in
      let now = commit_pcs out.commit_out in
      let ih =
        run_in_order r' cycles (step-IsValid depth width pos room r c.allocs c.wbs c.rst v p.0 p.1)
          p.2 in
      let one = step_order r c.allocs c.wbs c.rst v p.0 p.1 in
      rw
        (
          append_assoc now t.committed (pcs (contents depth t.last)),
          ← append_assoc (pcs (contents depth r)) (offered depth width r c) t.sent,
        )
        (Sublist.trans (Sublist.append (Sublist.refl now) ih) (
          rw (← append_assoc now (pcs (contents depth r')) t.sent)
            (Sublist.append one (Sublist.refl t.sent))))
