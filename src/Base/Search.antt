-- ===== src/Base/Search.antt =====
-- Tables as lists: membership, what a search finds and how many rows pass a test, and how writes,
-- insertions and deletions act on these.
use Prim.Native.Nat.{◌+◌, ◌≤◌}
use mathlib.Core.Path.{◌≡◌, refl, ap, ◌∙◌}
use mathlib.Core.Logic.{◌⊎◌, inl, inr}
use mathlib.Core.Bool.{Bool, true, false, not, false≢true}
use mathlib.Core.Option.{none, some, some-injective}
use mathlib.Core.List.{List, [], ◌∷◌, ◌++◌}
use native.Mathlib.Omega.{arith}
use internship_project.Base.Tests.{◌==◌, if◌then◌else◌, indicator, Bool-cases}
use internship_project.Base.Lists.{keep, find, count, any, update, All}

module _ {A : Type 0} where
  -- Membership as a sum, which the tactics take apart.
  abbrev pub Has : A → List A → Type 0
  Has m [] = ⊥
  Has m (x ∷ xs) = (m ≡ x) ⊎ Has m xs

  pub All-Has {κ} : (P : A → Type κ) (m : A) (xs : List A) → All P xs → Has m xs → P m
  All-Has P m [] h i = absurd i
  All-Has P m (x ∷ xs) (h, hs) (inl e) = rw e h
  All-Has P m (x ∷ xs) (h, hs) (inr i) = All-Has P m xs hs i

  pub All-of_Has {κ} : (P : A → Type κ) (xs : List A) → ((x : A) → Has x xs → P x) → All P xs
  All-of_Has P [] f = tt
  All-of_Has P (x ∷ xs) f = (f x (inl refl), All-of_Has P xs (λ y i. f y (inr i)))

  pub Has-keep : (p : A → Bool) (m : A) (xs : List A) → Has m xs → p m ≡ true → Has m (keep p xs)
  Has-keep p m [] i e = absurd i
  Has-keep p m (x ∷ xs) (inl h) e = rw (← h, e) (inl refl)
  Has-keep p m (x ∷ xs) (inr i) e = elim (Bool-cases (p x)) [
    | inl t ↦ rw t (inr (Has-keep p m xs i e))
    | inr t ↦ rw t (Has-keep p m xs i e)
  ]

  pub Has-find : (p : A → Bool) (xs : List A) (m : A) → find p xs ≡ some m → Has m xs
  Has-find p [] m e = cc
  Has-find p (x ∷ xs) m e = elim (Bool-cases (p x)) [
    | inl t ↦ inl (ground (arith, t))
    | inr t ↦ inr (Has-find p xs m (rw t at e))
  ]

  pub test-find : (p : A → Bool) (xs : List A) (m : A) → find p xs ≡ some m → p m ≡ true
  test-find p [] m e = cc
  test-find p (x ∷ xs) m e = elim (Bool-cases (p x)) [
    | inl t ↦ ground (arith, t)
    | inr t ↦ test-find p xs m (rw t at e)
  ]

  -- A row that is found is found rewritten after a write that covers it.
  pub find-update :
      (p q : A → Bool) (f : A → A) (xs : List A) (m : A)
      → ((x : A) → p (f x) ≡ p x)
      → ((x : A) → p x ≡ true → q x ≡ true)
      → find p xs ≡ some m
      → find p (update q f xs) ≡ some (f m)
  find-update p q f [] m h k e = cc
  find-update p q f (x ∷ xs) m h k e = elim (Bool-cases (p x)) [
    | inl t ↦
        rw (k x t, h x, t) (ap (λ o. elim o [ none ↦ none | some y ↦ some (f y) ]) (rw t at e))
    | inr t ↦
        let skipped : p (if q x then f x else x) ≡ false = elim (Bool-cases (q x)) [
          | inl u ↦ rw (u, h x, t) refl
          | inr u ↦ rw (u, t) refl
        ] in
        rw skipped (find-update p q f xs m h k (rw t at e))
  ]

  -- The row that is found, after writes that the search does not see, insertions and deletions.
  pub find-update_if :
      (p q : A → Bool) (f : A → A) (xs : List A) (m : A)
      → ((x : A) → p (f x) ≡ p x)
      → find p xs ≡ some m
      → find p (update q f xs) ≡ some (if q m then f m else m)
  find-update_if p q f [] m h e = cc
  find-update_if p q f (x ∷ xs) m h e =
      let seen : p (if q x then f x else x) ≡ p x = elim (Bool-cases (q x)) [
        | inl u ↦ rw u (h x)
        | inr u ↦ rw u refl
      ] in
      elim (Bool-cases (p x)) [
        | inl t ↦
            rw (seen, t)
              (ap (λ o. elim o [ none ↦ none | some y ↦ some (if q y then f y else y) ])
                (rw t at e))
        | inr t ↦ rw (seen, t) (find-update_if p q f xs m h (rw t at e))
      ]

  pub find-append :
      (p : A → Bool) (xs ys : List A) (m : A) → find p xs ≡ some m → find p (xs ++ ys) ≡ some m
  find-append p [] ys m e = cc
  find-append p (x ∷ xs) ys m e = elim (Bool-cases (p x)) [
    | inl t ↦ rw t (rw t at e)
    | inr t ↦ rw t (find-append p xs ys m (rw t at e))
  ]

  pub find-keep :
      (p q : A → Bool) (xs : List A) (m : A)
      → find p xs ≡ some m
      → q m ≡ true
      → find p (keep q xs) ≡ some m
  find-keep p q [] m e h = cc
  find-keep p q (x ∷ xs) m e h = elim (Bool-cases (p x)) [
    | inl t ↦
        let same : x ≡ m = some-injective _ _ (rw t at e) in
        rw (ap q same ∙ h) (rw t (ap some same))
    | inr t ↦ elim (Bool-cases (q x)) [
      | inl u ↦ rw (u, t) (find-keep p q xs m (rw t at e) h)
      | inr u ↦ rw u (find-keep p q xs m (rw t at e) h)
    ]
  ]

  pub find-eq-none : (p : A → Bool) (xs : List A) → find p xs ≡ none → count p xs ≡ 0
  find-eq-none p [] e = refl
  find-eq-none p (x ∷ xs) e = elim (Bool-cases (p x)) [
    | inl t ↦ absurd (ground (arith, t))
    | inr t ↦ rw t (omega (arith, find-eq-none p xs (rw t at e)))
  ]

  -- A listed row is counted.
  pub count-one : (p : A → Bool) (m : A) (xs : List A) → Has m xs → indicator (p m) ≤ count p xs
  count-one p m [] i = absurd i
  count-one p m (x ∷ xs) (inl e) = rw e (omega arith)
  count-one p m (x ∷ xs) (inr i) = omega (arith, count-one p m xs i)

  pub count-append : (p : A → Bool) (xs ys : List A) → count p (xs ++ ys) ≡ count p xs + count p ys
  count-append p [] ys = omega arith
  count-append p (x ∷ xs) ys = omega (arith, count-append p xs ys)

  pub count-eq-zero : (p : A → Bool) (xs : List A) → All (λ x. p x ≡ false) xs → count p xs ≡ 0
  count-eq-zero p [] h = refl
  count-eq-zero p (x ∷ xs) (h, hs) = rw h (omega (arith, count-eq-zero p xs hs))

  -- Rows that a write or a deletion does not tell apart from others are counted as before.
  pub count-update_same :
      (p q : A → Bool) (f : A → A) (xs : List A)
      → ((x : A) → q x ≡ true → p (f x) ≡ p x)
      → count p (update q f xs) ≡ count p xs
  count-update_same p q f [] h = refl
  count-update_same p q f (x ∷ xs) h = elim (Bool-cases (q x)) [
    | inl e ↦ rw (e, h x e) (ap (◌+◌ (indicator (p x))) (count-update_same p q f xs h))
    | inr e ↦ rw e (ap (◌+◌ (indicator (p x))) (count-update_same p q f xs h))
  ]

  pub count-keep_same :
      (p q : A → Bool) (xs : List A)
      → ((x : A) → q x ≡ false → p x ≡ false)
      → count p (keep q xs) ≡ count p xs
  count-keep_same p q [] h = refl
  count-keep_same p q (x ∷ xs) h = elim (Bool-cases (q x)) [
    | inl e ↦ rw e (ap (◌+◌ (indicator (p x))) (count-keep_same p q xs h))
    | inr e ↦ rw (e, h x e) (omega (arith, count-keep_same p q xs h))
  ]

  pub any-Has : (p : A → Bool) (xs : List A) → any p xs ≡ true → (x : A) × Has x xs × (p x ≡ true)
  any-Has p [] e = absurd (false≢true e)
  any-Has p (x ∷ xs) e = elim (Bool-cases (p x)) [
    | inl t ↦ (x, inl refl, t)
    | inr t ↦ let (y, i, h) = any-Has p xs (rw t at e) in (y, inr i, h)
  ]

  -- A test that some row passes, after an insertion and a deletion.
  pub any-append : (p : A → Bool) (xs ys : List A) → any p xs ≡ true → any p (xs ++ ys) ≡ true
  any-append p [] ys e = cc
  any-append p (x ∷ xs) ys e = ground (arith, any-append p xs ys)

  pub any-snoc : (p : A → Bool) (xs : List A) (x : A) → p x ≡ true → any p (xs ++ x ∷ []) ≡ true
  any-snoc p [] x e = rw e
  any-snoc p (y ∷ xs) x e = ground (arith, any-snoc p xs x e)

  pub any-keep :
      (p q : A → Bool) (xs : List A)
      → ((x : A) → p x ≡ true → q x ≡ true)
      → any p xs ≡ true
      → any p (keep q xs) ≡ true
  any-keep p q [] h e = e
  any-keep p q (x ∷ xs) h e = elim (Bool-cases (p x)) [
    | inl t ↦ rw (h x t) (rw t refl)
    | inr t ↦ ground (arith, t, any-keep p q xs h)
  ]

  pub count-ext : (p q : A → Bool) (xs : List A) → ((x : A) → p x ≡ q x) → count p xs ≡ count q xs
  count-ext p q [] h = refl
  count-ext p q (x ∷ xs) h = rw (h x) (ap (◌+◌ (indicator (q x))) (count-ext p q xs h))

  -- A write that takes rows out of a count takes out as many as it covers, and never adds any.
  pub count-update_out :
      (p q : A → Bool) (f : A → A) (xs : List A)
      → All (λ x. q x ≡ true → p x ≡ true) xs
      → ((x : A) → p (f x) ≡ false)
      → count p (update q f xs) + count q xs ≡ count p xs
  count-update_out p q f [] h k = omega arith
  count-update_out p q f (x ∷ xs) (h, hs) k = elim (Bool-cases (q x)) [
    | inl e ↦ rw (e, k x, h e) (omega (arith, count-update_out p q f xs hs k))
    | inr e ↦ rw e (omega (arith, count-update_out p q f xs hs k))
  ]

  pub count-update-le :
      (p q : A → Bool) (f : A → A) (xs : List A)
      → ((x : A) → p (f x) ≡ false)
      → count p (update q f xs) ≤ count p xs
  count-update-le p q f [] k = omega arith
  count-update-le p q f (x ∷ xs) k = elim (Bool-cases (q x)) [
    | inl e ↦ rw (e, k x) (omega (arith, count-update-le p q f xs k))
    | inr e ↦ rw e (omega (arith, count-update-le p q f xs k))
  ]

  -- Nothing is left of the rows that a deletion covers.
  pub count-keep-not : (p : A → Bool) (xs : List A) → count p (keep (λ x. not (p x)) xs) ≡ 0
  count-keep-not p [] = refl
  count-keep-not p (x ∷ xs) = elim (Bool-cases (p x)) [
    | inl e ↦ rw e (count-keep-not p xs)
    | inr e ↦ rw e (rw e (omega (arith, count-keep-not p xs)))
  ]

  pub any-eq-count : (p : A → Bool) (xs : List A) → any p xs ≡ not (count p xs == 0)
  any-eq-count p [] = refl
  any-eq-count p (x ∷ xs) = ground (arith, any-eq-count p xs)

  pub any_of_Has : (p : A → Bool) (m : A) (xs : List A) → Has m xs → p m ≡ true → any p xs ≡ true
  any_of_Has p m [] i e = absurd i
  any_of_Has p m (x ∷ xs) (inl h) e = rw (← h, e) refl
  any_of_Has p m (x ∷ xs) (inr i) e = ground (arith, any_of_Has p m xs i e)

  pub count-keep-le : (p q : A → Bool) (xs : List A) → count p (keep q xs) ≤ count p xs
  count-keep-le p q [] = omega arith
  count-keep-le p q (x ∷ xs) = ground (arith, count-keep-le p q xs)
