-- ===== src/Base/Sort.antt =====
-- `orderBy`: stable insertion sort, what it keeps, and how it meets a filter.
use Prim.Native.Nat.{ℕ, zero, suc, ◌+◌}
use mathlib.Core.Path.{◌≡◌, refl, subst}
use mathlib.Core.Logic.{◌⊎◌, inl, inr}
use mathlib.Core.Bool.{Bool, true, false}
use mathlib.Core.Option.{Option, none, some, some-injective}
use mathlib.Core.List.{List, [], ◌∷◌}
use native.Mathlib.Omega.{arith}
use internship_project.Base.Tests.{if◌then◌else◌, Bool-cases}
use internship_project.Base.Lists.{length, take, All-take, keep, All, All-keep, All-map}
use internship_project.Base.Search.{Has, All-Has}

module _ {A : Type 0} (le : A → A → Bool) where
  unfoldable pub insert_by : A → List A → List A
  insert_by x [] = x ∷ []
  insert_by x (y ∷ ys) = if le x y then x ∷ y ∷ ys else y ∷ insert_by x ys

  unfoldable pub sort_by : List A → List A
  unfolding insert_by
  sort_by [] = []
  sort_by (x ∷ xs) = insert_by x (sort_by xs)

  -- Each row stands before all that follow it.
  abbrev pub IsOrdered : List A → Type 0
  IsOrdered [] = Unit {0}
  IsOrdered (x ∷ xs) = All (λ y. le x y ≡ true) xs × IsOrdered xs

pub IsOrdered-take :
    {A : Type 0} (le : A → A → Bool) (n : ℕ) (xs : List A)
    → IsOrdered le xs
    → IsOrdered le (take n xs)
IsOrdered-take le zero xs o = tt
IsOrdered-take le (suc n) [] o = tt
IsOrdered-take le (suc n) (x ∷ xs) (a, o) = (All-take _ n xs a, IsOrdered-take le n xs o)

-- `findFirst`: the first row in the order.
abbrev pub first : {A : Type 0} → List A → Option A
first [] = none
first (x ∷ xs) = some x

pub first-of_Has : {A : Type 0} (x : A) (xs : List A) → Has x xs → (y : A) × (first xs ≡ some y)
first-of_Has x [] i = absurd i
first-of_Has x (y ∷ ys) i = (y, refl)

pub All-first :
    {A : Type 0} (P : A → Type 0) (xs : List A) (m : A) → All P xs → first xs ≡ some m → P m
All-first P [] m h e = cc
All-first P (x ∷ xs) m (h, hs) e = subst P (some-injective _ _ e) h

-- What sorting needs of its test.
pub record IsTotalOrder {A : Type 0} (le : A → A → Bool) : Type 0 where
  pub total : (x y : A) → le x y ≡ false → le y x ≡ true
  pub trans : (x y z : A) → le x y ≡ true → le y z ≡ true → le x z ≡ true

module _ {A : Type 0} (le : A → A → Bool) where
  pub All-insert_by :
      (P : A → Type 0) (x : A) (xs : List A) → P x → All P xs → All P (insert_by le x xs)
  unfolding insert_by
  All-insert_by P x [] p h = (p, tt)
  All-insert_by P x (y ∷ ys) p (q, h) = elim (Bool-cases (le x y)) [
    | inl e ↦ rw e (p, (q, h))
    | inr e ↦ rw e (q, All-insert_by P x ys p h)
  ]

  pub All-sort_by : (P : A → Type 0) (xs : List A) → All P xs → All P (sort_by le xs)
  unfolding sort_by
  All-sort_by P [] h = tt
  All-sort_by P (x ∷ xs) (p, h) = All-insert_by P x (sort_by le xs) p (All-sort_by P xs h)

  Has-insert_by : (m x : A) (xs : List A) → Has m (x ∷ xs) → Has m (insert_by le x xs)
  unfolding insert_by
  Has-insert_by m x [] i = i
  Has-insert_by m x (y ∷ ys) i = elim (Bool-cases (le x y)) [
    | inl e ↦ rw e i
    | inr e ↦ rw e (behind i (λ j. Has-insert_by m x ys j))
  ]
    where
      behind :
          Has m (x ∷ y ∷ ys)
          → (Has m (x ∷ ys) → Has m (insert_by le x ys))
          → Has m (y ∷ insert_by le x ys)
      behind (inl e) ih = inr (ih (inl e))
      behind (inr (inl e)) ih = inl e
      behind (inr (inr j)) ih = inr (ih (inr j))

  pub Has-sort_by : (m : A) (xs : List A) → Has m xs → Has m (sort_by le xs)
  unfolding sort_by
  Has-sort_by m [] i = i
  Has-sort_by m (x ∷ xs) (inl e) = Has-insert_by m x (sort_by le xs) (inl e)
  Has-sort_by m (x ∷ xs) (inr i) = Has-insert_by m x (sort_by le xs) (inr (Has-sort_by m xs i))

  length-insert_by : (x : A) (xs : List A) → length (insert_by le x xs) ≡ length xs + 1
  unfolding insert_by
  length-insert_by x [] = omega arith
  length-insert_by x (y ∷ ys) = ground (arith, length-insert_by x ys)

  pub length-sort_by : (xs : List A) → length (sort_by le xs) ≡ length xs
  unfolding sort_by
  length-sort_by [] = refl
  length-sort_by (x ∷ xs) = omega (arith, length-insert_by x (sort_by le xs), length-sort_by xs)

module _ {A : Type 0} {le : A → A → Bool} (order : IsTotalOrder le) where
  insert_by-IsOrdered : (x : A) (xs : List A) → IsOrdered le xs → IsOrdered le (insert_by le x xs)
  unfolding insert_by
  insert_by-IsOrdered x [] o = (tt, tt)
  insert_by-IsOrdered x (y ∷ ys) (a, o) = elim (Bool-cases (le x y)) [
    | inl e ↦ rw e ((e, All-map (λ z h. order.trans x y z e h) ys a), (a, o))
    | inr e ↦ rw e (
      All-insert_by le (λ z. le y z ≡ true) x ys (order.total x y e) a,
      insert_by-IsOrdered x ys o,
    )
  ]

  pub sort_by-IsOrdered : (xs : List A) → IsOrdered le (sort_by le xs)
  unfolding sort_by
  sort_by-IsOrdered [] = tt
  sort_by-IsOrdered (x ∷ xs) = insert_by-IsOrdered x (sort_by le xs) (sort_by-IsOrdered xs)

  -- A row in front of all others is inserted in front.
  insert_by-front : (x : A) (xs : List A) → All (λ y. le x y ≡ true) xs → insert_by le x xs ≡ x ∷ xs
  unfolding insert_by
  insert_by-front x [] h = refl
  insert_by-front x (y ∷ ys) (h, hs) = rw h

  keep-insert_by :
      (p : A → Bool) (x : A) (xs : List A)
      → IsOrdered le xs
      → keep p (insert_by le x xs) ≡ (if p x then insert_by le x (keep p xs) else keep p xs)
  unfolding insert_by
  keep-insert_by p x [] o = refl
  keep-insert_by p x (y ∷ ys) (a, o) = elim (Bool-cases (le x y)) [
    | inl e ↦
        let ahead = All-map (λ z h. order.trans x y z e h) ys a in
        let front = insert_by-front x (keep p ys) (All-keep (λ z. le x z ≡ true) p ys ahead) in
        ground (arith, e, front)
    | inr e ↦ ground (arith, e, keep-insert_by p x ys o)
  ]

  -- To filter and then sort is to sort and then filter.
  pub sort_by-keep : (p : A → Bool) (xs : List A) → sort_by le (keep p xs) ≡ keep p (sort_by le xs)
  unfolding sort_by
  sort_by-keep p [] = refl
  sort_by-keep p (x ∷ xs) =
      rw (keep-insert_by p x (sort_by le xs) (sort_by-IsOrdered xs))
        (ground (arith, sort_by-keep p xs))

  first-IsOrdered :
      (zs : List A) (m y : A)
      → IsOrdered le zs
      → first zs ≡ some m
      → Has y zs
      → (y ≡ m) ⊎ (le m y ≡ true)
  first-IsOrdered [] m y o e i = absurd i
  first-IsOrdered (z ∷ zs) m y o e (inl f) = inl (cc)
  first-IsOrdered (z ∷ zs) m y (a, o) e (inr i) =
      inr
        (subst (λ t. le t y ≡ true) (some-injective _ _ e) (All-Has (λ t. le z t ≡ true) y zs a i))

  -- The first row stands before every other row of the table.
  pub first-sort_by :
      (xs : List A) (m y : A)
      → first (sort_by le xs) ≡ some m
      → Has y xs
      → (y ≡ m) ⊎ (le m y ≡ true)
  first-sort_by xs m y e i =
      first-IsOrdered (sort_by le xs) m y (sort_by-IsOrdered xs) e (Has-sort_by le y xs i)
