-- ===== src/Cache/Equal.antt =====
-- `ByteMem::equals` decides whether two memories hold the same bytes, absent ones being 0.
use native.Mathlib.Decide.{ℕ_discrete}
use rv64_ooo_core.Prelude.{
  ℕ, ◌≡◌, refl, sym, ◌↔◌, ◌∙◌, ap, arith, Option, none, some, true, [], ◌∷◌, ==_refl, ne→==,
}
use rv64_ooo_core.Cache.{ByteMem, Cell, find, get, put, value_or_zero, agrees, equals}
use rv64_ooo_core.Cache.Bytes.{find-put}

-- No key twice, as in an `unordered_map`.
pub data Distinct : ByteMem → Type 0 where
  empty : Distinct []
  more : {c : Cell} {m : ByteMem} → find m c.addr ≡ none → Distinct m → Distinct (c ∷ m)

pub put-Distinct : (m : ByteMem) (a v : ℕ) → Distinct m → Distinct (put m a v)
unfolding put find
put-Distinct [] a v d = more refl empty
put-Distinct (c ∷ m) a v (more n d) = elim (ℕ_discrete c.addr a) [
  | yes p ↦ rw (p, ==_refl a) (more (rw p at n) d)
  | no p ↦
      rw (ne→== c.addr a p) (
        more (find-put m a v c.addr ∙ rw (ne→== a c.addr (λ e. p (sym e))) n)
          (put-Distinct m a v d))
]

-- Where `find` succeeds, the loop of `equals` has compared.
agrees-find : (m o : ByteMem) → agrees m o ≡ true → (a v : ℕ) → find m a ≡ some v → v ≡ get o a
unfolding agrees find
agrees-find [] o h a v f = cc
agrees-find (c ∷ m) o h a v f = elim (ℕ_discrete c.addr a) [
  | yes p ↦
      let same : some c.value ≡ some v = rw (p, ==_refl a) at f in
      let value : c.value ≡ v = cc in
      let compared : c.value ≡ get o c.addr = ground arith in sym value ∙ (compared ∙ ap (get o) p)
  | no p ↦ agrees-find m o (ground arith) a v (rw (ne→== c.addr a p) at f)
]

find-agrees :
    (m o : ByteMem) → Distinct m → ((a v : ℕ) → find m a ≡ some v → v ≡ get o a) → agrees m o ≡ true
unfolding agrees find
find-agrees [] o d h = refl
find-agrees (c ∷ m) o (more n d) h =
    let here : c.value ≡ get o c.addr = h c.addr c.value (rw (==_refl c.addr) refl) in
    let rest : agrees m o ≡ true = find-agrees m o d (λ a v f. elim (ℕ_discrete c.addr a) [
      | yes p ↦ let e : none ≡ some v = sym n ∙ (ap (find m) p ∙ f) in cc
      | no p ↦ h a v (rw (ne→== c.addr a p) f)
    ]) in
    ground arith

get-eq :
    (m o : ByteMem)
    → agrees m o ≡ true
    → agrees o m ≡ true
    → (a : ℕ) (x y : Option ℕ) → find m a ≡ x
    → find o a ≡ y
    → get m a ≡ get o a
unfolding get
get-eq m o h k a (some v) y e f = ap value_or_zero e ∙ agrees-find m o h a v e
get-eq m o h k a none (some w) e f = sym (ap value_or_zero f ∙ agrees-find o m k a w f)
get-eq m o h k a none none e f = ap value_or_zero e ∙ sym (ap value_or_zero f)

value_found : (m : ByteMem) (a v : ℕ) → find m a ≡ some v → v ≡ get m a
unfolding get
value_found m a v f = sym (ap value_or_zero f)

-- `equals` returns true exactly if the two memories return the same byte at every address.
pub equals_iff :
    (m o : ByteMem) → Distinct m → Distinct o → (equals m o ≡ true) ↔ ((a : ℕ) → get m a ≡ get o a)
unfolding equals
equals_iff m o dm d = (
  λ h a. get-eq m o (ground arith) (ground arith) a (find m a) (find o a) refl refl,
  λ h.
      let e = find-agrees m o dm (λ a v f. value_found m a v f ∙ h a) in
      let f = find-agrees o m d (λ a v f. value_found o a v f ∙ sym (h a)) in ground arith,
)
