-- ===== src/Rename/FreeList.antt =====
-- The circular free list of `RenameModel` as a queue: a step drops the registers it gives from the front
-- and adds those that commits return at the back.
use rv64_ooo_core.Prelude.{
  ℕ, zero, suc, ◌+◌, ◌-◌, ◌%◌, ◌≤◌, ◌<◌, ◌≡◌, refl, sym, ap, ap₂, ◌∙◌, arith, ◌==◌, one_if,
  if◌then◌else◌, Bool, true, false, List, [], ◌∷◌, ◌++◌, length, get_or, set, drop, tabulate,
  tabulate_ext, tabulate_last, drop-append, append_assoc, get_or-set, length-set, length-tabulate,
  append_nil,
}
use rv64_ooo_core.Rename.{
  Rename, Inputs, depth, step, renamed, restored, freed, do_f0, do_f1, do_a0, do_a1,
  free_list_contents,
}
use rv64_ooo_core.Rename.Ring.{IsRing}

-- `n` slots from `h` on.
abbrev pub queue : List ℕ → ℕ → ℕ → List ℕ
queue fl h n = tabulate (λ k. get_or fl ((h + k) % depth) 0) n

queue-next :
    (fl : List ℕ) (h n : ℕ)
    → queue fl h (suc n) ≡ get_or fl (h % depth) 0 ∷ queue fl ((h + 1) % depth) n
queue-next fl h n =
    ap₂ ◌∷◌ (ap (λ (k : ℕ). get_or fl k 0) (omega arith))
      (tabulate_ext _ _ n (λ k p. ap (λ (j : ℕ). get_or fl j 0) (omega arith)))

queue-drop :
    (fl : List ℕ) (k h n : ℕ)
    → k ≤ n
    → h < depth
    → drop k (queue fl h n) ≡ queue fl ((h + k) % depth) (n - k)
queue-drop fl zero h n le hh = ap₂ (queue fl) (omega arith) (omega arith)
queue-drop fl (suc k) h zero le hh = absurd (omega arith)
queue-drop fl (suc k) h (suc n) le hh =
    ap (drop (suc k)) (queue-next fl h n)
    ∙ (queue-drop fl k ((h + 1) % depth) n (omega arith) (omega arith)
        ∙ ap₂ (λ (j m : ℕ). queue fl j m) (omega arith) (omega arith))

abbrev pub one_of : Bool → ℕ → List ℕ
one_of b v = if b then v ∷ [] else []

queue-push :
    (fl : List ℕ) (h n v : ℕ)
    → length fl ≡ depth
    → n < depth
    → queue (set fl ((h + n) % depth) v) h (suc n) ≡ queue fl h n ++ (v ∷ [])
queue-push fl h n v e lt =
    let inside : (h + n) % depth < length fl = rw e (omega arith) in
    tabulate_last (λ k. get_or (set fl ((h + n) % depth) v) ((h + k) % depth) 0) n
    ∙ ap₂ ◌++◌
        (tabulate_ext _ _ n (λ k p.
          get_or-set fl ((h + n) % depth) ((h + k) % depth) v 0 inside
          ∙ apart ((h + n) % depth) ((h + k) % depth) v _ (omega arith)))
        (ap (λ (x : ℕ). x ∷ [])
          (get_or-set fl ((h + n) % depth) ((h + n) % depth) v 0 inside
            ∙ here ((h + n) % depth) v (get_or fl ((h + n) % depth) 0)))
  where
    here : (a v w : ℕ) → (if a == a then v else w) ≡ v
    here a v w = ground arith

    apart : (a b v w : ℕ) → ¬ (a ≡ b) → (if a == b then v else w) ≡ w
    apart a b v w h = ground arith

-- `one_if b` slots are filled if there is room.
push_if :
    (b : Bool) (fl : List ℕ) (h n v : ℕ)
    → length fl ≡ depth
    → n + one_if b ≤ depth
    → queue (if b then set fl ((h + n) % depth) v else fl) h (n + one_if b)
      ≡ queue fl h n ++ one_of b v
push_if true fl h n v e le =
    ap (queue (set fl ((h + n) % depth) v) h) {y = suc n} (omega arith)
    ∙ queue-push fl h n v e (omega arith)
push_if false fl h n v e le =
    ap (queue fl h) {y = n} (omega arith) ∙ sym (append_nil (queue fl h n))

-- What a commit with `prev_prd` returns.
module _ (s : Rename) (i : Inputs) where
  abbrev pub returned : List ℕ
  returned = one_of (do_f0 s i) i.commit_prev_prd0 ++ one_of (do_f1 s i) i.commit_prev_prd1

  abbrev pub taken : ℕ
  taken = one_if (do_a0 s i) + one_if (do_a1 s i)

  module _ (r : IsRing s) (room : s.count + one_if (do_f0 s i) + one_if (do_f1 s i) ≤ depth) where
    freed-queue :
        queue (freed s i) s.head (s.count + one_if (do_f0 s i) + one_if (do_f1 s i))
        ≡ free_list_contents s ++ returned
    unfolding freed free_list_contents
    freed-queue =
        let f0 = do_f0 s i in
        let f1 = do_f1 s i in
        let v0 = i.commit_prev_prd0 in
        let fl0 = if f0 then set s.fl s.tail v0 else s.fl in
        let fl0' = if f0 then set s.fl ((s.head + s.count) % depth) v0 else s.fl in
        let at : fl0 ≡ fl0' = ap (λ (t : ℕ). if f0 then set s.fl t v0 else s.fl) r.tail_at in
        let sized : length fl0 ≡ depth = set_if f0 s.fl s.tail v0 ∙ r.sized in
        let slot : (s.tail + one_if f0) % depth ≡ (s.head + (s.count + one_if f0)) % depth =
          rw r.tail_at (omega arith) in
        ap
          (λ (t : ℕ).
            queue (if f1 then set fl0 t i.commit_prev_prd1 else fl0) s.head
              (s.count + one_if f0 + one_if f1))
          slot
        ∙ (push_if f1 fl0 s.head (s.count + one_if f0) i.commit_prev_prd1 sized room
            ∙ (ap (λ l. queue l s.head (s.count + one_if f0) ++ one_of f1 i.commit_prev_prd1) at
                ∙ (ap (λ l. l ++ one_of f1 i.commit_prev_prd1)
                      (push_if f0 s.fl s.head s.count v0 r.sized (omega arith))
                    ∙ append_assoc (queue s.fl s.head s.count) (one_of f0 v0) _)))
      where
        set_if :
            (b : Bool) (xs : List ℕ) (j v : ℕ) → length (if b then set xs j v else xs) ≡ length xs
        set_if true xs j v = length-set xs j v
        set_if false xs j v = refl

    -- A step without a restore takes its registers from the front of the free list and puts the
    -- registers that the commits return behind the last.
    pub free_list-step :
        i.restore_valid ≡ false
        → taken ≤ s.count
        → free_list_contents (step s i).0 ≡ drop taken (free_list_contents s) ++ returned
    unfolding step renamed free_list_contents
    free_list-step keep le =
        let f = one_if (do_f0 s i) + one_if (do_f1 s i) in
        ap (λ b. free_list_contents (if b then restored s i else renamed s i)) keep
        ∙ (ap₂ (queue (freed s i)) (omega arith) (omega arith)
            ∙ (sym (
                  queue-drop (freed s i) taken s.head
                    (s.count + one_if (do_f0 s i) + one_if (do_f1 s i)) (omega arith) r.head_in)
                ∙ (ap (drop taken) freed-queue
                    ∙ drop-append taken (free_list_contents s) returned (
                        rw (length-tabulate (λ k. get_or s.fl ((s.head + k) % depth) 0) s.count)
                          le))))
