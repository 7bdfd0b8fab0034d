-- ===== src/Base/Rows.antt =====
-- Tables as lists: a search in a part of a table, and tables in which a test passes one row at most.
use Prim.Native.Nat.{ℕ, ◌≤◌}
use mathlib.Core.Path.{◌≡◌, refl, ap}
use mathlib.Core.Logic.{◌≢◌, inl, inr}
use mathlib.Core.Bool.{Bool, true, false, ◌&&◌}
use mathlib.Core.Option.{Option, none, some}
use mathlib.Core.Option as Opt
use mathlib.Core.List.{List, [], ◌∷◌, ◌++◌, map}
use native.Mathlib.Omega.{arith}
use internship_project.Base.Tests.{◌==◌, ==_refl, Bool-cases}
use internship_project.Base.Lists.{find, keep, count, any, All}
use internship_project.Base.Search.{Has, count-one}
use internship_project.Base.Keys.{Distinct, keyed}

module _ {A : Type 0} where
  pub find-keep_and :
      (p q : A → Bool) (xs : List A) → find q (keep p xs) ≡ find (λ x. p x && q x) xs
  find-keep_and p q [] = refl
  find-keep_and p q (x ∷ xs) = elim (Bool-cases (p x)) [
    | inl e ↦ rw (e, find-keep_and p q xs) refl
    | inr e ↦ rw (e, find-keep_and p q xs) refl
  ]

  pub count-keep_and :
      (p q : A → Bool) (xs : List A) → count q (keep p xs) ≡ count (λ x. p x && q x) xs
  count-keep_and p q [] = refl
  count-keep_and p q (x ∷ xs) = elim (Bool-cases (p x)) [
    | inl e ↦ rw (e, count-keep_and p q xs) refl
    | inr e ↦ rw (e, count-keep_and p q xs) (omega arith)
  ]

  pub find-keep-none : (p q : A → Bool) (xs : List A) → find p xs ≡ none → find p (keep q xs) ≡ none
  find-keep-none p q [] h = refl
  find-keep-none p q (x ∷ xs) h = elim (Bool-cases (p x)) [
    | inl e ↦ cc (rw e at h)
    | inr e ↦ elim (Bool-cases (q x)) [
      | inl f ↦ rw (f, e) (find-keep-none p q xs (rw e at h))
      | inr f ↦ rw f (find-keep-none p q xs (rw e at h))
    ]
  ]

  -- Where all of the rows that are searched for are kept.
  pub find-keep_same :
      (p q : A → Bool) (xs : List A)
      → ((x : A) → p x ≡ true → q x ≡ true)
      → find p (keep q xs) ≡ find p xs
  find-keep_same p q [] h = refl
  find-keep_same p q (x ∷ xs) h = ground (arith, h x, find-keep_same p q xs h)

  pub find-eq-none_of_count : (p : A → Bool) (xs : List A) → count p xs ≤ 0 → find p xs ≡ none
  find-eq-none_of_count p [] h = refl
  find-eq-none_of_count p (x ∷ xs) h = elim (Bool-cases (p x)) [
    | inl e ↦ absurd (omega (arith, rw e at h))
    | inr e ↦ rw e (find-eq-none_of_count p xs (omega (arith, rw e at h)))
  ]

  -- The one row that passes is the one that is found.
  pub find-only :
      (p : A → Bool) (m : A) (xs : List A)
      → Has m xs
      → p m ≡ true
      → count p xs ≤ 1
      → find p xs ≡ some m
  find-only p m [] i e h = absurd i
  find-only p m (x ∷ xs) (inl k) e h = rw (← k, e) refl
  find-only p m (x ∷ xs) (inr i) e h = elim (Bool-cases (p x)) [
    | inr f ↦ rw f (find-only p m xs i e (omega (arith, rw f at h)))
    | inl f ↦
        let one : 1 ≤ count p xs = rw e at (count-one p m xs i) in
        absurd (omega (arith, one, rw f at h))
  ]

  pub find-map :
      (p : A → Bool) (f : A → A) (xs : List A)
      → ((x : A) → p (f x) ≡ p x)
      → find p (map f xs) ≡ Opt.map f (find p xs)
  find-map p f [] h = refl
  find-map p f (x ∷ xs) h = elim (Bool-cases (p x)) [
    | inl e ↦ rw (h x, e) refl
    | inr e ↦ rw (h x, e) (find-map p f xs h)
  ]

  -- Functions that agree on the rows that are searched for.
  pub map-find :
      (p : A → Bool) (f g : A → A) (xs : List A)
      → ((x : A) → p x ≡ true → f x ≡ g x)
      → Opt.map f (find p xs) ≡ Opt.map g (find p xs)
  map-find p f g [] h = refl
  map-find p f g (x ∷ xs) h = elim (Bool-cases (p x)) [
    | inl e ↦ rw e (ap some (h x e))
    | inr e ↦ rw e (map-find p f g xs h)
  ]

  pub map-find_id :
      (p : A → Bool) (f : A → A) (xs : List A)
      → ((x : A) → p x ≡ true → f x ≡ x)
      → Opt.map f (find p xs) ≡ find p xs
  map-find_id p f [] h = refl
  map-find_id p f (x ∷ xs) h = elim (Bool-cases (p x)) [
    | inl e ↦ rw e (ap some (h x e))
    | inr e ↦ rw e (map-find_id p f xs h)
  ]

  -- A test that a row passes, in the table before a deletion and before an insertion.
  pub any-of_keep : (p q : A → Bool) (xs : List A) → any p (keep q xs) ≡ true → any p xs ≡ true
  any-of_keep p q [] h = h
  any-of_keep p q (x ∷ xs) h = ground (arith, any-of_keep p q xs)

  pub any-of_snoc :
      (p : A → Bool) (xs : List A) (x : A)
      → p x ≡ false
      → any p (xs ++ x ∷ []) ≡ true
      → any p xs ≡ true
  any-of_snoc p [] x e h = ground (arith, e)
  any-of_snoc p (y ∷ xs) x e h = ground (arith, any-of_snoc p xs x e)

module _ {A : Type 0} (key : A → ℕ) where
  pub absent_of_count : (k : ℕ) (xs : List A) → count (keyed key k) xs ≤ 0 → All (λ y. key y ≢ k) xs
  absent_of_count k [] h = tt
  absent_of_count k (x ∷ xs) h = elim (Bool-cases (key x == k)) [
    | inl e ↦ absurd (omega (arith, rw e at h))
    | inr e ↦ (λ f. ground (arith, e, f), absent_of_count k xs (omega (arith, rw e at h)))
  ]

  pub Distinct-of_count : (xs : List A) → ((k : ℕ) → count (keyed key k) xs ≤ 1) → Distinct key xs
  Distinct-of_count [] h = tt
  Distinct-of_count (x ∷ xs) h = (
    absent_of_count (key x) xs (
        let one : count (keyed key (key x)) (x ∷ xs) ≤ 1 = h (key x) in
        omega (arith, rw (==_refl (key x)) at one)),
    Distinct-of_count xs (λ k. omega (arith, h k)),
  )

  pub Distinct-map :
      (f : A → A) (xs : List A)
      → ((x : A) → key (f x) ≡ key x)
      → Distinct key xs
      → Distinct key (map f xs)
  Distinct-map f [] h d = tt
  Distinct-map f (x ∷ xs) h (a, d) = (rw (h x) (away xs a), Distinct-map f xs h d)
    where
      away : (ys : List A) → All (λ y. key y ≢ key x) ys → All (λ y. key y ≢ key x) (map f ys)
      away [] a = tt
      away (y ∷ ys) (n, a) = (rw (h y) n, away ys a)

pub Has-map : {A B : Type 0} (f : A → B) (m : A) (ms : List A) → Has m ms → Has (f m) (map f ms)
Has-map f m [] i = i
Has-map f m (x ∷ ms) (inl e) = inl (ap f e)
Has-map f m (x ∷ ms) (inr i) = inr (Has-map f m ms i)
