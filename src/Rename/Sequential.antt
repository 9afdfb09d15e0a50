-- ===== src/Rename/Sequential.antt =====
-- The two lanes of `RenameModel::step` against one instruction renamed after the other.
use rv64_ooo_core.Prelude.{
  ℕ, ◌+◌, ◌%◌, ◌≤◌, ◌<◌, ◌≡◌, refl, sym, ap, ◌∙◌, arith, ◌==◌, one_if, if◌then◌else◌, Bool, true,
  false, not, ◌&&◌, List, length, get_or, set, get_or-set, get_or-tabulate,
}
use rv64_ooo_core.Rename.{
  Rename, Inputs, depth, step, outputs, renamed, restored, bundle_ready, needs_prd0, needs_prd1,
  alloc0, alloc1, nxt0, nxt1, do_a0, free_list_contents,
}

-- An instruction: its registers.
pub record Lane : Type 0 where
  pub valid : Bool
  pub rs1 : ℕ
  pub rs2 : ℕ
  pub rd : ℕ

pub record Renamed : Type 0 where
  pub prs1 : ℕ
  pub prs2 : ℕ
  pub prd : ℕ
  pub prev_prd : ℕ
  pub map : List ℕ

-- It has a result, in a register other than x0.
abbrev pub writes : Lane → Bool
writes l = l.valid && not (l.rd == 0)

-- One instruction renamed with a map, and `preg` for its result.
abbrev pub rename_one : List ℕ → Lane → ℕ → Renamed
rename_one map l preg = record {
  prs1 = get_or map l.rs1 0;
  prs2 = get_or map l.rs2 0;
  prd = if writes l then preg else 0;
  prev_prd = get_or map l.rd 0;
  map = if writes l then set map l.rd preg else map;
}

abbrev pub lane0 : Inputs → Lane
lane0 i = record { valid = i.valid0; rs1 = i.rs1_0; rs2 = i.rs2_0; rd = i.rd0 }

abbrev pub lane1 : Inputs → Lane
lane1 i = record { valid = i.valid1; rs1 = i.rs1_1; rs2 = i.rs2_1; rd = i.rd1 }

-- The first free register, and the one after it if the first lane takes that.
abbrev pub first : Rename → Inputs → Renamed
first s i = rename_one s.map (lane0 i) (get_or (free_list_contents s) 0 0)

abbrev pub second : Rename → Inputs → Renamed
second s i =
    rename_one (first s i).map (lane1 i)
      (get_or (free_list_contents s) (one_if (writes (lane0 i))) 0)

one_if-lt : (b : Bool) → one_if b < 2
one_if-lt true = omega arith
one_if-lt false = omega arith

-- The source tests twice that the register is not x0.
again :
    (valid zero_reg : Bool)
    → (((valid && not zero_reg) && true) && not zero_reg) ≡ (valid && not zero_reg)
again true true = refl
again true false = refl
again false true = refl
again false false = refl

through :
    (map : List ℕ) (b : Bool) (rd r a : ℕ)
    → rd < length map
    → (if b && (r == rd) then a else get_or map r 0) ≡ get_or (if b then set map rd a else map) r 0
through map false rd r a h = refl
through map true rd r a h = rw (get_or-set map rd r a 0 h) (ground arith)

module _ (s : Rename) (i : Inputs) (ready : bundle_ready s i ≡ true)
    (head_in : s.head < depth) where
  two_free : 2 ≤ s.count
  unfolding bundle_ready
  two_free = ground arith

  free-eq :
      (k : ℕ) → k < 2 → get_or (free_list_contents s) k 0 ≡ get_or s.fl ((s.head + k) % depth) 0
  unfolding free_list_contents
  free-eq k h =
      get_or-tabulate (λ k. get_or s.fl ((s.head + k) % depth) 0) s.count k 0
        (omega (arith, two_free))

  alloc0-eq : alloc0 s i ≡ get_or (free_list_contents s) 0 0
  alloc0-eq = ap (λ n. get_or s.fl n 0) (omega arith) ∙ sym (free-eq 0 (omega arith))

  module _ (keep : i.restore_valid ≡ false) where
    pub do_a0-eq : do_a0 s i ≡ writes (lane0 i)
    do_a0-eq = rw (ready, keep) (let h = two_free in ground arith)

    alloc1-eq : alloc1 s i ≡ get_or (free_list_contents s) (one_if (writes (lane0 i))) 0
    alloc1-eq =
        rw do_a0-eq (sym (free-eq (one_if (writes (lane0 i))) (one_if-lt (writes (lane0 i)))))

    -- The maps between the lanes and after them.
    pub nxt0-eq : nxt0 s i ≡ (first s i).map
    nxt0-eq = rw (ready, again i.valid0 (i.rd0 == 0), alloc0-eq) refl

    nxt1-eq : nxt1 s i ≡ (second s i).map
    nxt1-eq =
        ap
          (λ m.
            if (needs_prd1 s i && bundle_ready s i) && not (i.rd1 == 0)
            then set m i.rd1 (alloc1 s i)
            else m)
          nxt0-eq
        ∙ (ap
              (λ a.
                if (needs_prd1 s i && bundle_ready s i) && not (i.rd1 == 0)
                then set (first s i).map i.rd1 a
                else (first s i).map)
              alloc1-eq
            ∙ rw (ready, again i.valid1 (i.rd1 == 0)) refl)

    -- What the second lane reads through the bypass.
    bypass :
        i.rd0 < length s.map
        → (r : ℕ)
        → (if needs_prd0 s i && (r == i.rd0) then alloc0 s i else get_or s.map r 0)
          ≡ get_or (first s i).map r 0
    bypass inside r =
        rw alloc0-eq
          (through s.map (needs_prd0 s i) i.rd0 r (get_or (free_list_contents s) 0 0) inside)

-- What a step of two instructions does, in terms of one instruction renamed after the other.
pub record InOrder (s : Rename) (i : Inputs) : Type 0 where
  pub lane0_reads :
      ((outputs s i).prs1_0 ≡ (first s i).prs1) × ((outputs s i).prs2_0 ≡ (first s i).prs2)
  pub lane0_writes :
      ((outputs s i).prd0 ≡ (first s i).prd) × ((outputs s i).prev_prd0 ≡ (first s i).prev_prd)
  pub lane1_reads :
      ((outputs s i).prs1_1 ≡ (second s i).prs1) × ((outputs s i).prs2_1 ≡ (second s i).prs2)
  pub lane1_writes : (outputs s i).prd1 ≡ (second s i).prd
  pub lane1_previous : i.valid1 ≡ true → (outputs s i).prev_prd1 ≡ (second s i).prev_prd
  pub map_after : (step s i).0.map ≡ (second s i).map

-- A step that is ready and restores nothing renames its two instructions as if one came after the
-- other: the second reads the map that the first has changed, also for the register that its result
-- replaces; each result takes the next register of the free list, and the map after the step is the one
-- after both.
pub step-InOrder :
    (s : Rename) (i : Inputs)
    → (outputs s i).rename_ready0 ≡ true
    → i.restore_valid ≡ false
    → s.head < depth
    → i.rd0 < length s.map
    → InOrder s i
unfolding outputs step renamed
step-InOrder s i ready keep head_in inside = record {
  lane0_reads = (refl, refl);
  lane0_writes = (ap (λ a. if needs_prd0 s i then a else 0) (alloc0-eq s i ready head_in), refl);
  lane1_reads =
      (bypass s i ready head_in keep inside i.rs1_1, bypass s i ready head_in keep inside i.rs2_1);
  lane1_writes = ap (λ a. if needs_prd1 s i then a else 0) (alloc1-eq s i ready head_in keep);
  lane1_previous = λ v.
      ap
        (λ b.
          if needs_prd0 s i && (b && (i.rd1 == i.rd0)) then alloc0 s i else get_or s.map i.rd1 0)
        v
      ∙ bypass s i ready head_in keep inside i.rd1;
  map_after =
      ap (λ b. (if b then restored s i else renamed s i).map) keep ∙ nxt1-eq s i ready head_in keep;
}
