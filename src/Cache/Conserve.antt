-- ===== src/Cache/Conserve.antt =====
-- The requests of sim/cache/l1d/tb_l1d.cpp: each that the cache accepts is answered or outstanding.
use rv64_ooo_core.Prelude.{
  ℕ, zero, suc, ◌+◌, ◌<◌, ◌≡◌, refl, ◌∙◌, arith, one_if, ◌&&◌, if◌then◌else◌, Bool, true, false,
  Bool-cases, inl, inr, Option, some, List, [], ◌∷◌, length, length-append, get_or, set,
}
use rv64_ooo_core.Cache.Bench.{
  Ports, Seen, Device, drive, Rand, free_from, find_free_tag, Book, note_request, note_response,
  noted,
}
use rv64_ooo_core.Cache.Sim.{Sim, cycle}

-- How many tags are busy.
abbrev pub busy_count : List Bool → ℕ
busy_count [] = 0
busy_count (b ∷ tags) = one_if b + busy_count tags

-- The requests outstanding and those answered.
abbrev pub known : Book → ℕ
known b = busy_count b.tag_busy + length b.resp_log

set_busy :
    (tags : List Bool) (t : ℕ)
    → t < length tags
    → get_or tags t false ≡ false
    → busy_count (set tags t true) ≡ busy_count tags + 1
set_busy [] t h e = absurd (omega arith)
set_busy (b ∷ tags) zero h e = rw e (omega arith)
set_busy (b ∷ tags) (suc t) h e = omega (arith, set_busy tags t (omega arith) e)

set_idle :
    (tags : List Bool) (t : ℕ)
    → get_or tags t false ≡ true
    → busy_count (set tags t false) + 1 ≡ busy_count tags
set_idle [] t e = absurd (let q = e in cc)
set_idle (b ∷ tags) zero e = rw e (omega arith)
set_idle (b ∷ tags) (suc t) e = omega (arith, set_idle tags t e)

-- A tag that is found is one that is not busy.
free_from_lem :
    (tags : List Bool) (t k : ℕ)
    → free_from tags t ≡ some k
    → (j : ℕ) × (k ≡ t + j) × (j < length tags) × (get_or tags j false ≡ false)
unfolding free_from
free_from_lem [] t k h = absurd (let q = h in cc)
free_from_lem (true ∷ tags) t k h =
    let (j, e, lt, free) = free_from_lem tags (suc t) k h in (suc j, omega arith, omega arith, free)
free_from_lem (false ∷ tags) t k h = (0, omega (arith, some_inj h), omega arith, refl)
  where
    some_inj : {a b : ℕ} → Path (Option ℕ) (some a) (some b) → a ≡ b
    some_inj e = cc

note_request-known :
    (p : Ports) (b : Book)
    → find_free_tag b.tag_busy ≡ some p.req_tag
    → known (note_request p b) ≡ known b + 1
unfolding note_request find_free_tag
note_request-known p b h =
    let (j, e, lt, free) = free_from_lem b.tag_busy 0 p.req_tag h in
    let at : p.req_tag ≡ j = omega arith in rw at (omega (arith, set_busy b.tag_busy j lt free))

note_response-known : (o : Seen) (b : Book) → known (note_response o b) ≡ known b
unfolding note_response
note_response-known o b = elim (Bool-cases (get_or b.tag_busy o.resp_tag false)) [
  | inl c ↦
      rw (c, length-append b.resp_log (o.resp_tag ∷ []))
        (omega (arith, set_idle b.tag_busy o.resp_tag c))
  | inr c ↦ rw c refl
]

answered-known :
    (o : Seen) (b : Book) → known (if o.resp_valid then note_response o b else b) ≡ known b
answered-known o b = answered o.resp_valid
  where
    answered : (v : Bool) → known (if v then note_response o b else b) ≡ known b
    answered true = note_response-known o b
    answered false = refl

noted-known :
    (accepted : Bool) (p : Ports) (o : Seen) (b : Book)
    → (accepted ≡ true → find_free_tag b.tag_busy ≡ some p.req_tag)
    → known (noted accepted p o b) ≡ known b + one_if accepted
unfolding noted
noted-known true p o b h = answered-known o (note_request p b) ∙ note_request-known p b (h refl)
noted-known false p o b h = answered-known o b ∙ omega arith

-- A cycle that presents a request, if any, with the tag that `find_free_tag` finds adds one to the
-- requests outstanding and answered together if the cache accepts it, and none otherwise, whatever the
-- cache responds.
pub cycle-known :
    (d : Device) (g : Rand) (p : Ports) (s : Sim d g)
    → (p.req_valid ≡ true → find_free_tag s.book.tag_busy ≡ some p.req_tag)
    → known (cycle d g p s).0.book ≡ known s.book + one_if (cycle d g p s).1
unfolding cycle
cycle-known d g p s h =
    let o = d.outputs (d.eval (drive d s.dut p)) in
    noted-known (p.req_valid && o.req_ready) p _ s.book
      (λ e. h (and_left p.req_valid o.req_ready e))
  where
    and_left : (a b : Bool) → (a && b) ≡ true → a ≡ true
    and_left true b e = refl
    and_left false b e = absurd (let q = e in cc)
