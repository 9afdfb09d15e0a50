-- ===== src/Prelude/Lists.antt =====
-- Lists measured and indexed by native numbers, under the library's names: `std::vector`s.
use Prim.Native.Nat.{ℕ, zero, suc, ◌+◌, ◌-◌, ◌<◌, ◌≤◌, min}
use mathlib.Core.Path.{◌≡◌, refl, sym, ap, ap₂, ◌∙◌}
use mathlib.Core.List.{List, [], ◌∷◌, ◌++◌, map}
use native.Mathlib.Omega.{arith}
use rv64_ooo_core.Prelude.Tests.{◌==◌, ltb, if◌then◌else◌}

module _ {ℓ} {A : Type ℓ} where
  abbrev pub length : List A → ℕ
  length [] = 0
  length (x ∷ xs) = suc (length xs)

  abbrev pub get_or : List A → ℕ → A → A
  get_or [] i d = d
  get_or (x ∷ xs) zero d = x
  get_or (x ∷ xs) (suc i) d = get_or xs i d

  -- A write out of bounds changes nothing.
  abbrev pub set : List A → ℕ → A → List A
  set [] i v = []
  set (x ∷ xs) zero v = v ∷ xs
  set (x ∷ xs) (suc i) v = x ∷ set xs i v

  abbrev pub take : ℕ → List A → List A
  take zero xs = []
  take (suc n) [] = []
  take (suc n) (x ∷ xs) = x ∷ take n xs

  abbrev pub drop : ℕ → List A → List A
  drop zero xs = xs
  drop (suc n) [] = []
  drop (suc n) (x ∷ xs) = drop n xs

  abbrev pub replicate : ℕ → A → List A
  replicate zero a = []
  replicate (suc n) a = a ∷ replicate n a

  -- `f 0, …, f (n - 1)`
  abbrev pub tabulate : (ℕ → A) → ℕ → List A
  tabulate f zero = []
  tabulate f (suc n) = f zero ∷ tabulate (λ k. f (suc k)) n

module _ {ℓ} {A : Type ℓ} where
  pub length-append : (xs ys : List A) → length (xs ++ ys) ≡ length xs + length ys
  length-append [] ys = omega arith
  length-append (x ∷ xs) ys = omega (arith, length-append xs ys)

  pub length-set : (xs : List A) (i : ℕ) (v : A) → length (set xs i v) ≡ length xs
  length-set [] i v = refl
  length-set (x ∷ xs) zero v = refl
  length-set (x ∷ xs) (suc i) v = ap suc (length-set xs i v)

  pub length-replicate : (n : ℕ) (a : A) → length (replicate n a) ≡ n
  length-replicate zero a = refl
  length-replicate (suc n) a = ap suc (length-replicate n a)

  pub length-take : (n : ℕ) (xs : List A) → length (take n xs) ≡ min n (length xs)
  length-take zero xs = omega arith
  length-take (suc n) [] = omega arith
  length-take (suc n) (x ∷ xs) = omega (arith, length-take n xs)

  pub length-drop : (n : ℕ) (xs : List A) → length (drop n xs) ≡ length xs - n
  length-drop zero xs = omega arith
  length-drop (suc n) [] = omega arith
  length-drop (suc n) (x ∷ xs) = omega (arith, length-drop n xs)

  pub take-append-drop : (n : ℕ) (xs : List A) → take n xs ++ drop n xs ≡ xs
  take-append-drop zero xs = refl
  take-append-drop (suc n) [] = refl
  take-append-drop (suc n) (x ∷ xs) = ap (λ l. x ∷ l) (take-append-drop n xs)

  -- What a read sees after a write: the map law, with the write's bound as its condition.
  pub get_or-set :
      (xs : List A) (i j : ℕ) (v d : A)
      → i < length xs
      → get_or (set xs i v) j d ≡ (if i == j then v else get_or xs j d)
  get_or-set [] i j v d h = elim h [ ]
  get_or-set (x ∷ xs) zero zero v d h = refl
  get_or-set (x ∷ xs) zero (suc j) v d h = ground arith
  get_or-set (x ∷ xs) (suc i) zero v d h = ground arith
  get_or-set (x ∷ xs) (suc i) (suc j) v d h = ground (arith, get_or-set xs i j v d)

  pub get_or-replicate : (n i : ℕ) (a : A) → get_or (replicate n a) i a ≡ a
  get_or-replicate zero i a = refl
  get_or-replicate (suc n) zero a = refl
  get_or-replicate (suc n) (suc i) a = get_or-replicate n i a

module _ {ℓ} {A : Type ℓ} where
  pub length-tabulate : (f : ℕ → A) (n : ℕ) → length (tabulate f n) ≡ n
  length-tabulate f zero = refl
  length-tabulate f (suc n) = ap suc (length-tabulate (λ k. f (suc k)) n)

  pub tabulate_ext :
      (f g : ℕ → A) (n : ℕ) → ((k : ℕ) → k < n → f k ≡ g k) → tabulate f n ≡ tabulate g n
  tabulate_ext f g zero h = refl
  tabulate_ext f g (suc n) h =
      ap₂ ◌∷◌ (h 0 (omega arith))
        (tabulate_ext (λ k. f (suc k)) (λ k. g (suc k)) n (λ k p. h (suc k) (omega arith)))

  pub get_or-tabulate : (f : ℕ → A) (n k : ℕ) (d : A) → k < n → get_or (tabulate f n) k d ≡ f k
  get_or-tabulate f zero k d h = elim h [ ]
  get_or-tabulate f (suc n) zero d h = refl
  get_or-tabulate f (suc n) (suc k) d h = get_or-tabulate (λ j. f (suc j)) n k d (omega arith)

  -- Two lists of one length with the same reads are equal.
  pub get_or_ext :
      (xs ys : List A) (d : A)
      → length xs ≡ length ys
      → ((k : ℕ) → k < length xs → get_or xs k d ≡ get_or ys k d)
      → xs ≡ ys
  get_or_ext [] [] d e h = refl
  get_or_ext [] (y ∷ ys) d e h = absurd (omega arith)
  get_or_ext (x ∷ xs) [] d e h = absurd (omega arith)
  get_or_ext (x ∷ xs) (y ∷ ys) d e h =
      ap₂ ◌∷◌ (h 0 (omega arith))
        (get_or_ext xs ys d (omega arith) (λ k p. h (suc k) (omega arith)))

module _ {ℓ} {A : Type ℓ} where
  pub get_or-cons :
      (x : A) (xs : List A) (n : ℕ) (d : A)
      → get_or (x ∷ xs) n d ≡ (if n == 0 then x else get_or xs (n - 1) d)
  get_or-cons x xs zero d = refl
  get_or-cons x xs (suc n) d = ground arith

  pub get_or-append :
      (xs ys : List A) (n : ℕ) (d : A)
      → get_or (xs ++ ys) n d
        ≡ (if ltb n (length xs) then get_or xs n d else get_or ys (n - length xs) d)
  get_or-append [] ys n d = ground arith
  get_or-append (x ∷ xs) ys zero d = ground arith
  get_or-append (x ∷ xs) ys (suc n) d = ground (arith, get_or-append xs ys n d)

  pub get_or-drop :
      (m : ℕ) (xs : List A) (n : ℕ) (d : A) → get_or (drop m xs) n d ≡ get_or xs (m + n) d
  get_or-drop zero xs n d = ap (λ (k : ℕ). get_or xs k d) (omega arith)
  get_or-drop (suc m) [] n d = refl
  get_or-drop (suc m) (x ∷ xs) n d = ground (arith, get_or-drop m xs n d)

  -- A prefix of a table, and what is left of it.
  pub take-tabulate : (f : ℕ → A) (m n : ℕ) → m ≤ n → take m (tabulate f n) ≡ tabulate f m
  take-tabulate f zero n h = refl
  take-tabulate f (suc m) zero h = elim h [ ]
  take-tabulate f (suc m) (suc n) h =
      ap (λ l. f 0 ∷ l) (take-tabulate (λ k. f (suc k)) m n (omega arith))

  pub tabulate-get_or : (xs : List A) (d : A) → tabulate (λ k. get_or xs k d) (length xs) ≡ xs
  tabulate-get_or [] d = refl
  tabulate-get_or (x ∷ xs) d = ap (λ l. x ∷ l) (tabulate-get_or xs d)

module _ {ℓ} {A : Type ℓ} where
  -- A table with one entry modified; past the end nothing is.
  pub modify-tabulate :
      (f : ℕ → A) (n p : ℕ) (g : A → A) (d : A)
      → set (tabulate f n) p (g (get_or (tabulate f n) p d))
        ≡ tabulate (λ k. if p == k then g (f k) else f k) n
  modify-tabulate f zero p g d = refl
  modify-tabulate f (suc n) zero g d =
      ap (λ l. g (f 0) ∷ l) (tabulate_ext (λ k. f (suc k)) _ n (λ k h. ground arith))
  modify-tabulate f (suc n) (suc p) g d =
      ap₂ ◌∷◌ (ground arith)
        (modify-tabulate (λ k. f (suc k)) n p g d ∙ tabulate_ext _ _ n (λ k h. ground arith))

  pub length-map {κ} : {B : Type κ} (f : A → B) (xs : List A) → length (map f xs) ≡ length xs
  length-map f [] = refl
  length-map f (x ∷ xs) = ap suc (length-map f xs)

module _ {ℓ} {A : Type ℓ} where
  -- A table is the list that it agrees with, read by read.
  pub tabulate-eq :
      (f : ℕ → A) (n : ℕ) (ys : List A) (d : A)
      → length ys ≡ n
      → ((k : ℕ) → k < n → f k ≡ get_or ys k d)
      → tabulate f n ≡ ys
  tabulate-eq f n ys d e h =
      tabulate_ext f (λ k. get_or ys k d) n h
      ∙ (ap (tabulate (λ k. get_or ys k d)) (sym e) ∙ tabulate-get_or ys d)

  pub tabulate_last : (f : ℕ → A) (n : ℕ) → tabulate f (suc n) ≡ tabulate f n ++ (f n ∷ [])
  tabulate_last f zero = refl
  tabulate_last f (suc n) = ap (λ l. f 0 ∷ l) (tabulate_last (λ k. f (suc k)) n)

  pub drop-append : (n : ℕ) (xs ys : List A) → n ≤ length xs → drop n (xs ++ ys) ≡ drop n xs ++ ys
  drop-append zero xs ys h = refl
  drop-append (suc n) [] ys h = absurd (omega arith)
  drop-append (suc n) (x ∷ xs) ys h = drop-append n xs ys (omega arith)

  pub append_assoc : (xs ys zs : List A) → (xs ++ ys) ++ zs ≡ xs ++ (ys ++ zs)
  append_assoc [] ys zs = refl
  append_assoc (x ∷ xs) ys zs = ap (λ l. x ∷ l) (append_assoc xs ys zs)

  pub append_nil : (xs : List A) → xs ++ [] ≡ xs
  append_nil [] = refl
  append_nil (x ∷ xs) = ap (λ l. x ∷ l) (append_nil xs)

  pub drop_nil : (n : ℕ) → drop {A = A} n [] ≡ []
  drop_nil zero = refl
  drop_nil (suc n) = refl

  pub drop-drop : (m n : ℕ) (xs : List A) → drop n (drop m xs) ≡ drop (m + n) xs
  drop-drop zero n xs = ap (λ (k : ℕ). drop k xs) (omega arith)
  drop-drop (suc m) n [] = drop_nil n ∙ sym (drop_nil (suc m + n))
  drop-drop (suc m) n (x ∷ xs) =
      drop-drop m n xs ∙ ap (λ (k : ℕ). drop k (x ∷ xs)) {x = suc (m + n)} (omega arith)
