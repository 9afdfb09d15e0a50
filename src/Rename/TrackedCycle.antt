-- ===== src/Rename/TrackedCycle.antt =====
-- Every cycle of the random test of tb_rename.cpp keeps its reorder buffer and its pending branches in step.
use rv64_ooo_core.Prelude.{
  ℕ, ◌+◌, ◌≡◌, refl, sym, ap, subst, ◌∙◌, arith, leb, ◌&&◌, if◌then◌else◌, Bool, true, false, not,
  Bool-cases, inl, inr, some, List, [], ◌∷◌, ◌++◌, passed, bound,
}
use rv64_ooo_core.Rename.{Outputs, Inputs}
use rv64_ooo_core.Rename.Bench.{Device, Bench, idle, check_invariants, step_and_check}
use rv64_ooo_core.Rename.Random.{
  Rng, InFlightInstr, PendingBranch, Flight, Request, mispredicted, predicted, must_resolve,
  can_commit, pop_front, push_back, push_if, renamed_both,
}
use rv64_ooo_core.Rename.Tracking.{
  IsTracked, waiting, branch_of, IsAscending-from, IsAscending-push, waiting-push, mark-waiting,
  mark-IsAscending,
}
use rv64_ooo_core.Rename.Discarding.{discard-IsAscending, reclaim-IsAscending, discard-waiting}
use rv64_ooo_core.Rename.RandomCycle.{
  Test, Resolution, untouched, restoring, confirming, after_resolution, chance, and_chance,
  resolution, resolve_oldest, commits, restore_cycle, rename_cycle, finish_restore, finish_rename,
  after_cycle, random_cycle, drive_requests, request,
}

mispredicted-IsTracked :
    (f : Flight) (pb : PendingBranch) (rest : List PendingBranch)
    → IsTracked f
    → f.pending_branches ≡ pb ∷ rest
    → IsTracked (mispredicted pb f)
unfolding mispredicted
mispredicted-IsTracked f pb rest k e =
    let kept = discard-IsAscending 0 f.seq_counter pb.seq f.rob f.inflight_set k.ascending in
    record {
      ascending = reclaim-IsAscending 0 f.seq_counter pb.seq _ kept;
      pending = sym (
          discard-waiting 0 f.seq_counter f.rob f.inflight_set pb rest k.ascending
            (sym k.pending ∙ e));
    }

predicted-IsTracked :
    (f : Flight) (pb : PendingBranch) (rest : List PendingBranch)
    → IsTracked f
    → f.pending_branches ≡ pb ∷ rest
    → IsTracked (predicted pb rest f)
unfolding predicted
predicted-IsTracked f pb rest k e = record {
  ascending = mark-IsAscending 0 f.seq_counter pb.seq f.rob k.ascending;
  pending = sym (mark-waiting 0 f.seq_counter f.rob pb rest k.ascending (sym k.pending ∙ e));
}

front-IsTracked :
    (rob : List InFlightInstr) (set : List ℕ) (n : ℕ) (ps : List PendingBranch)
    → can_commit rob ≡ true
    → IsTracked (record { rob = rob; inflight_set = set; seq_counter = n; pending_branches = ps })
    → IsTracked (
        pop_front
          (record { rob = rob; inflight_set = set; seq_counter = n; pending_branches = ps }))
unfolding pop_front can_commit
front-IsTracked [] set n ps c k = k
front-IsTracked (x ∷ xs) set n ps c k =
    let resolved : x.unresolved ≡ false = not_true x.unresolved c in
    let wait = ap (λ b. if b then branch_of x ∷ waiting xs else waiting xs) resolved in
    record {
      ascending = IsAscending-from (x.seq + 1) 0 n xs k.ascending.1 (omega arith);
      pending = k.pending ∙ wait;
    }
  where
    not_true : (b : Bool) → not b ≡ true → b ≡ false
    not_true true h = absurd (let e = h in cc)
    not_true false h = refl

push-IsTracked :
    (r : Request) (prev_prd ckpt_id : ℕ) (f : Flight)
    → IsTracked f
    → IsTracked (push_if r prev_prd ckpt_id f)
unfolding push_back
push-IsTracked r prev_prd ckpt_id f k = elim (Bool-cases r.want) [
  | inr c ↦ rw c k
  | inl c ↦ rw c (record {
    ascending = IsAscending-push 0 f.seq_counter f.rob _ k.ascending refl;
    pending = elim (Bool-cases r.br) [
      | inl b ↦ rw b (
          ap (λ l. l ++ (record { ckpt_id = ckpt_id; seq = f.seq_counter } ∷ [])) k.pending
          ∙ sym (waiting-push f.rob _))
      | inr b ↦ rw b (k.pending ∙ sym (waiting-push f.rob _))
    ];
  })
]

pop_if-IsTracked :
    (b : Bool) (f : Flight)
    → IsTracked f
    → (b ≡ true → can_commit f.rob ≡ true)
    → IsTracked (if b then pop_front f else f)
pop_if-IsTracked true f k h =
    front-IsTracked f.rob f.inflight_set f.seq_counter f.pending_branches (h refl) k
pop_if-IsTracked false f k h = k

and_left : (a b : Bool) → (a && b) ≡ true → a ≡ true
and_left true b h = refl
and_left false b h = absurd (let e = h in cc)

and_right : (a b : Bool) → (a && b) ≡ true → b ≡ true
and_right true b h = h
and_right false b h = absurd (let e = h in cc)

renamed-IsTracked :
    (r0 r1 : Request) (o : Outputs) (f : Flight) → IsTracked f → IsTracked (renamed_both r0 r1 o f)
unfolding renamed_both
renamed-IsTracked r0 r1 o f k = elim (Bool-cases o.rename_ready0) [
  | inl c ↦ rw c (
      push-IsTracked r1 o.prev_prd1 o.ckpt_id1 (push_if r0 o.prev_prd0 o.ckpt_id0 f)
        (push-IsTracked r0 o.prev_prd0 o.ckpt_id0 f k))
  | inr c ↦ rw c k
]

module _ (g : Rng) where
  and_chance-true : (a : Bool) (p : ℕ) (gen : g.Gen) → (and_chance g a p gen).0 ≡ true → a ≡ true
  unfolding and_chance
  and_chance-true true p gen h = refl
  and_chance-true false p gen h = absurd (let e = h in cc)

  commits-IsTracked :
      (f : Flight) (i : Inputs) (gen : g.Gen) → IsTracked f → IsTracked (commits g f i gen).0.0
  unfolding commits
  commits-IsTracked f i gen k =
      let lucky = (chance g 60 gen).0 in
      let commit0 = can_commit f.rob && lucky in
      let f1 = if commit0 then pop_front f else f in
      let k1 = pop_if-IsTracked commit0 f k (and_left (can_commit f.rob) lucky) in
      pop_if-IsTracked _ f1 k1 (λ h.
        and_right commit0 (can_commit f1.rob)
          (and_chance-true (commit0 && can_commit f1.rob) 60 (chance g 60 gen).1 h))

  resolution-IsTracked :
      (f : Flight) (gen : g.Gen)
      → IsTracked f
      → IsTracked (after_resolution (resolution g f gen).0 f)
  unfolding resolution resolve_oldest after_resolution
  resolution-IsTracked f gen k = oldest f.pending_branches refl
    where
      oldest :
          (ps : List PendingBranch)
          → f.pending_branches ≡ ps
          → IsTracked (after_resolution (resolve_oldest g f ps gen).0 f)
      oldest [] e = k
      oldest (pb ∷ rest) e = taken (if must_resolve f pb then (true, gen) else chance g 8 gen)
        where
          chosen :
              (now wrong : Bool)
              → IsTracked (
                  after_resolution
                    (if now
                      then (if wrong then restoring pb else confirming pb rest)
                      else untouched)
                    f)
          chosen true true = mispredicted-IsTracked f pb rest k e
          chosen true false = predicted-IsTracked f pb rest k e
          chosen false wrong = k

          taken :
              (n : Bool × g.Gen)
              → IsTracked (
                  after_resolution
                    (if n.0
                      then (if (and_chance g n.0 50 n.1).0
                          then restoring pb
                          else confirming pb rest)
                      else untouched)
                    f)
          taken n = chosen n.0 (and_chance g n.0 50 n.1).0

module _ (d : Device) (g : Rng) where
  finish_restore-IsTracked :
      (gen : g.Gen) (f : Flight) (t t1 : Test d g) (r : Bench d × Outputs)
      → finish_restore d g gen f t r ≡ some t1
      → IsTracked f
      → IsTracked t1.flight
  unfolding finish_restore
  finish_restore-IsTracked gen f t t1 r h k =
      let q = passed (check_invariants r.0.model f.inflight_set) _ t1 h in
      subst (λ (x : Test d g). IsTracked x.flight) q.1 k

  finish_rename-IsTracked :
      (r0 r1 : Request) (gen : g.Gen) (f : Flight) (t t1 : Test d g) (r : Bench d × Outputs)
      → finish_rename d g r0 r1 gen f t r ≡ some t1
      → IsTracked f
      → IsTracked t1.flight
  unfolding finish_rename
  finish_rename-IsTracked r0 r1 gen f t t1 (b, o) h k =
      let q = passed (check_invariants b.model (renamed_both r0 r1 o f).inflight_set) _ t1 h in
      subst (λ (x : Test d g). IsTracked x.flight) q.1 (renamed-IsTracked r0 r1 o f k)

  restore-IsTracked :
      (pb : PendingBranch) (gen : g.Gen) (t t1 : Test d g)
      → restore_cycle d g pb gen t ≡ some t1
      → IsTracked (after_resolution (restoring pb) t.flight)
      → IsTracked t1.flight
  unfolding restore_cycle
  restore-IsTracked pb gen t t1 h k =
      let f = after_resolution (restoring pb) t.flight in
      let (r, _, e) =
        bound
          (step_and_check d t.bench
            (record idle { restore_valid = true; restore_ckpt_id = pb.ckpt_id }))
          (finish_restore d g gen f t) t1 h in
      finish_restore-IsTracked gen f t t1 r e k

  rename-IsTracked :
      (f : Flight) (gen : g.Gen) (t t1 : Test d g)
      → rename_cycle d g f gen t ≡ some t1
      → IsTracked f
      → IsTracked t1.flight
  unfolding rename_cycle
  rename-IsTracked f gen t t1 h k =
      let (nslots, gen1) = g.draw gen 0 2 in
      let (r0, gen2) = request g (leb 1 nslots) gen1 in
      let (r1, gen3) = request g (leb 2 nslots) gen2 in
      let c = commits g f (drive_requests r0 r1) gen3 in
      let (r, _, e) =
        bound (step_and_check d t.bench c.0.1) (finish_rename d g r0 r1 c.1 c.0.0 t) t1 h in
      finish_rename-IsTracked r0 r1 c.1 c.0.0 t t1 r e
        (commits-IsTracked g f (drive_requests r0 r1) gen3 k)

  resolved-IsTracked :
      (r : Resolution) (gen : g.Gen) (t t1 : Test d g)
      → after_cycle d g r gen t ≡ some t1
      → IsTracked (after_resolution r t.flight)
      → IsTracked t1.flight
  unfolding after_cycle after_resolution
  resolved-IsTracked untouched gen t t1 h k = rename-IsTracked t.flight gen t t1 h k
  resolved-IsTracked (restoring pb) gen t t1 h k = restore-IsTracked pb gen t t1 h k
  resolved-IsTracked (confirming pb rest) gen t t1 h k =
      rename-IsTracked (predicted pb rest t.flight) gen t t1 h k

-- A cycle of the random test that passes its checks keeps the numbers of the reorder buffer ascending and
-- its pending branches the unresolved entries, in order.
pub random_cycle-IsTracked :
    (d : Device) (g : Rng) (t t1 : Test d g)
    → random_cycle d g t ≡ some t1
    → IsTracked t.flight
    → IsTracked t1.flight
unfolding random_cycle
random_cycle-IsTracked d g t t1 h k =
    resolved-IsTracked d g (resolution g t.flight t.gen).0 (resolution g t.flight t.gen).1 t t1 h
      (resolution-IsTracked g t.flight t.gen k)
