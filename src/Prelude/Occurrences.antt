-- ===== src/Prelude/Occurrences.antt =====
-- How often a number stands in a list, and `std::set<int>` as a list without duplicates.
use Prim.Native.Nat.{ℕ, zero, suc, ◌+◌, ◌<◌, ◌≤◌}
use mathlib.Core.Path.{◌≡◌, refl}
use mathlib.Core.Logic.{◌≢◌}
use mathlib.Core.Bool.{Bool, true, false, ◌||◌, ◌&&◌}
use mathlib.Core.List.{List, [], ◌∷◌, ◌++◌}
use native.Mathlib.Omega.{arith}
use rv64_ooo_core.Prelude.Tests.{◌==◌, if◌then◌else◌, one_if}
use rv64_ooo_core.Prelude.Lists.{length, get_or, set}

unfoldable pub occurrences : ℕ → List ℕ → ℕ
occurrences p [] = 0
occurrences p (x ∷ xs) = one_if (p == x) + occurrences p xs

unfoldable pub contains : ℕ → List ℕ → Bool
contains p [] = false
contains p (x ∷ xs) = (p == x) || contains p xs

abbrev pub insert : ℕ → List ℕ → List ℕ
insert p xs = if contains p xs then xs else p ∷ xs

unfoldable pub erase : ℕ → List ℕ → List ℕ
erase p [] = []
erase p (x ∷ xs) = if p == x then xs else x ∷ erase p xs

-- A set made from a range.
unfoldable pub to_set : List ℕ → List ℕ
to_set [] = []
to_set (x ∷ xs) = let rest = to_set xs in insert x rest

-- The test of every member, a loop that stops at the first one that fails.
unfoldable pub all : (ℕ → Bool) → List ℕ → Bool
all f [] = true
all f (x ∷ xs) = f x && all f xs

pub occurrences-append :
    (p : ℕ) (xs ys : List ℕ) → occurrences p (xs ++ ys) ≡ occurrences p xs + occurrences p ys
unfolding occurrences
occurrences-append p [] ys = omega arith
occurrences-append p (x ∷ xs) ys = omega (arith, occurrences-append p xs ys)

pub occurrences-set :
    (p : ℕ) (xs : List ℕ) (i v : ℕ)
    → i < length xs
    → occurrences p (set xs i v) + one_if (p == get_or xs i 0) ≡ occurrences p xs + one_if (p == v)
unfolding occurrences
occurrences-set p [] i v h = absurd (omega arith)
occurrences-set p (x ∷ xs) zero v h = omega arith
occurrences-set p (x ∷ xs) (suc i) v h = omega (arith, occurrences-set p xs i v (omega arith))

pub contains-occurrences : (p : ℕ) (xs : List ℕ) → contains p xs ≡ false → occurrences p xs ≡ 0
unfolding contains occurrences
contains-occurrences p [] h = refl
contains-occurrences p (x ∷ xs) h = ground (arith, contains-occurrences p xs)

pub occurrences-contains : (p : ℕ) (xs : List ℕ) → occurrences p xs ≡ 0 → contains p xs ≡ false
unfolding contains occurrences
occurrences-contains p [] h = refl
occurrences-contains p (x ∷ xs) h = ground (arith, occurrences-contains p xs)

pub contains-some : (p : ℕ) (xs : List ℕ) → contains p xs ≡ true → 1 ≤ occurrences p xs
unfolding contains occurrences
contains-some p [] h = absurd (let e = h in cc)
contains-some p (x ∷ xs) h = ground (arith, contains-some p xs)

pub occurrences-get_or : (xs : List ℕ) (i : ℕ) → i < length xs → 1 ≤ occurrences (get_or xs i 0) xs
unfolding occurrences
occurrences-get_or [] i h = absurd (omega arith)
occurrences-get_or (x ∷ xs) zero h = ground arith
occurrences-get_or (x ∷ xs) (suc i) h = omega (arith, occurrences-get_or xs i (omega arith))

pub occurrences-erase :
    (p q : ℕ) (xs : List ℕ)
    → contains q xs ≡ true
    → occurrences p (erase q xs) + one_if (p == q) ≡ occurrences p xs
unfolding contains occurrences erase
occurrences-erase p q [] h = absurd (let e = h in cc)
occurrences-erase p q (x ∷ xs) h = ground (arith, occurrences-erase p q xs)

pub length-erase :
    (q : ℕ) (xs : List ℕ) → contains q xs ≡ true → length (erase q xs) + 1 ≡ length xs
unfolding contains erase
length-erase q [] h = absurd (let e = h in cc)
length-erase q (x ∷ xs) h = ground (arith, length-erase q xs)

-- A list in which nothing occurs twice is the set made from it.
pub to_set-id : (xs : List ℕ) → ((p : ℕ) → occurrences p xs ≤ 1) → to_set xs ≡ xs
unfolding to_set occurrences
to_set-id [] h = refl
to_set-id (x ∷ xs) h =
    let rest = to_set-id xs (λ p. omega (arith, h p)) in
    let new = occurrences-contains x xs (ground (arith, h x)) in rw (rest, new) refl

pub all_intro :
    (f : ℕ → Bool) (xs : List ℕ) → ((p : ℕ) → 1 ≤ occurrences p xs → f p ≡ true) → all f xs ≡ true
unfolding all occurrences
all_intro f [] h = refl
all_intro f (x ∷ xs) h =
    let first = h x (ground arith) in
    let rest = all_intro f xs (λ p m. h p (omega arith)) in rw (first, rest) refl

pub contains-insert :
    (p q : ℕ) (xs : List ℕ) → contains p xs ≡ true → contains p (insert q xs) ≡ true
unfolding contains
contains-insert p q xs h = ground arith

pub contains-erase :
    (p q : ℕ) (xs : List ℕ) → contains p xs ≡ true → p ≢ q → contains p (erase q xs) ≡ true
unfolding contains erase
contains-erase p q [] h e = h
contains-erase p q (x ∷ xs) h e = ground (arith, contains-erase p q xs)
