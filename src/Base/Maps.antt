-- ===== src/Base/Maps.antt =====
-- JavaScript's Map, filled from a list of rows by their keys: a later row takes the place of an
-- earlier one. What a lookup reads of it, sorted or not.
use Prim.Native.Nat.{ℕ}
use mathlib.Core.Path.{◌≡◌, refl, sym, ◌∙◌}
use mathlib.Core.Logic.{◌≢◌, inl, inr}
use mathlib.Core.Bool.{Bool}
use mathlib.Core.Option.{Option, none, some}
use mathlib.Core.Option as Opt
use mathlib.Core.List.{List, [], ◌∷◌, ◌++◌, map}
use native.Mathlib.Omega.{arith}
use internship_project.Base.Tests.{◌==◌, ==_iff, if◌then◌else◌, Bool-cases, Option-cases}
use internship_project.Base.Lists.{find, update, All, All-map}
use internship_project.Base.Keys.{Distinct, keyed}
use internship_project.Base.Sort.{insert_by, sort_by, All-insert_by, All-sort_by}

-- `a ?? b` where `b` may be missing too.
abbrev pub or_else {ℓ} : {A : Type ℓ} → Option A → Option A → Option A
or_else none d = d
or_else (some a) d = some a

pub or_else-none {ℓ} : {A : Type ℓ} (o : Option A) → or_else o none ≡ o
or_else-none none = refl
or_else-none (some a) = refl

module _ {A : Type 0} (key : A → ℕ) where
  -- `byId.set(m.id, m)`, row by row.
  abbrev pub put : A → List A → List A
  put m [] = m ∷ []
  put m (x ∷ xs) = if key x == key m then m ∷ xs else x ∷ put m xs

  unfoldable pub put_all : List A → List A → List A
  put_all table [] = table
  put_all table (m ∷ ms) = put_all (put m table) ms

  -- The last row with a key.
  abbrev pub latest : ℕ → List A → Option A
  latest k [] = none
  latest k (m ∷ ms) = or_else (latest k ms) (if key m == k then some m else none)

  find-put :
      (k : ℕ) (m : A) (xs : List A)
      → find (keyed key k) (put m xs) ≡ (if key m == k then some m else find (keyed key k) xs)
  find-put k m [] = refl
  find-put k m (x ∷ xs) = ground (arith, find-put k m xs)

  All-put : (P : A → Type 0) (m : A) (xs : List A) → P m → All P xs → All P (put m xs)
  All-put P m [] p h = (p, tt)
  All-put P m (x ∷ xs) p (q, h) = elim (Bool-cases (key x == key m)) [
    | inl e ↦ rw e (p, h)
    | inr e ↦ rw e (q, All-put P m xs p h)
  ]

  Distinct-put : (m : A) (xs : List A) → Distinct key xs → Distinct key (put m xs)
  Distinct-put m [] d = (tt, tt)
  Distinct-put m (x ∷ xs) (a, d) = elim (Bool-cases (key x == key m)) [
    | inl e ↦
        let same : key x ≡ key m = (==_iff _ _).0 e in
        rw e (All-map (λ y n h. n (h ∙ sym same)) xs a, d)
    | inr e ↦
        rw e (All-put (λ y. key y ≢ key x) m xs (λ h. ground (arith, e, h)) a, Distinct-put m xs d)
  ]

  pub Distinct-put_all : (table ms : List A) → Distinct key table → Distinct key (put_all table ms)
  unfolding put_all
  Distinct-put_all table [] d = d
  Distinct-put_all table (m ∷ ms) d = Distinct-put_all (put m table) ms (Distinct-put m table d)

  -- The table holds the last row of each key.
  pub find-put_all :
      (k : ℕ) (table ms : List A)
      → find (keyed key k) (put_all table ms) ≡ or_else (latest k ms) (find (keyed key k) table)
  unfolding put_all
  find-put_all k table [] = refl
  find-put_all k table (m ∷ ms) =
      find-put_all k (put m table) ms
      ∙ rw (find-put k m table) (elim (Option-cases (latest k ms)) [
        | inl e ↦ rw e (elim (Bool-cases (key m == k)) [ inl t ↦ rw t refl | inr t ↦ rw t refl ])
        | inr (v, e) ↦ rw e refl
      ])

  pub latest-append :
      (k : ℕ) (xs ys : List A) → latest k (xs ++ ys) ≡ or_else (latest k ys) (latest k xs)
  latest-append k [] ys = or_else-none' (latest k ys)
    where
      or_else-none' : (o : Option A) → o ≡ or_else o none
      or_else-none' none = refl
      or_else-none' (some a) = refl
  latest-append k (x ∷ xs) ys = elim (Option-cases (latest k ys)) [
    | inl e ↦ rw (latest-append k xs ys, e) refl
    | inr (v, e) ↦ rw (latest-append k xs ys, e) refl
  ]

  pub latest-map :
      (f : A → A)
      → ((x : A) → key (f x) ≡ key x)
      → (k : ℕ) (xs : List A) → latest k (map f xs) ≡ Opt.map f (latest k xs)
  latest-map f h k [] = refl
  latest-map f h k (x ∷ xs) = elim (Option-cases (latest k xs)) [
    | inl e ↦
        rw (latest-map f h k xs, e, h x)
          (elim (Bool-cases (key x == k)) [ inl t ↦ rw t refl | inr t ↦ rw t refl ])
    | inr (v, e) ↦ rw (latest-map f h k xs, e) refl
  ]

  -- What is looked up is listed, and has the key.
  pub All-latest :
      (P : A → Type 0) (k : ℕ) (xs : List A) (m : A)
      → All P xs
      → latest k xs ≡ some m
      → P m × (key m ≡ k)
  All-latest P k [] m h e = cc
  All-latest P k (x ∷ xs) m (p, h) e = elim (Option-cases (latest k xs)) [
    | inr (v, t) ↦ All-latest P k xs m h (rw (← e, t) refl)
    | inl t ↦ elim (Bool-cases (key x == k)) [
      | inl u ↦
          let same : x ≡ m = Opt.some-injective _ _ (rw (t, u) at e) in
          rw (← same) (p, (==_iff _ _).0 u)
      | inr u ↦ cc (rw (t, u) at e)
    ]
  ]

  find-insert_by :
      (le : A → A → Bool) (k : ℕ) (x : A) (xs : List A)
      → All (λ y. key y ≢ key x) xs
      → find (keyed key k) (insert_by le x xs)
        ≡ (if key x == k then some x else find (keyed key k) xs)
  unfolding insert_by
  find-insert_by le k x [] h = refl
  find-insert_by le k x (y ∷ ys) (n, h) = elim (Bool-cases (le x y)) [
    | inl e ↦ rw e refl
    | inr e ↦ rw e (ground (arith, n, find-insert_by le k x ys h))
  ]

  -- Where keys are distinct, a search by key finds the same row in any order.
  pub find-sort_by :
      (le : A → A → Bool) (k : ℕ) (xs : List A)
      → Distinct key xs
      → find (keyed key k) (sort_by le xs) ≡ find (keyed key k) xs
  unfolding sort_by
  find-sort_by le k [] d = refl
  find-sort_by le k (x ∷ xs) (a, d) =
      find-insert_by le k x (sort_by le xs) (All-sort_by le (λ y. key y ≢ key x) xs a)
      ∙ rw (find-sort_by le k xs d) refl

  Distinct-insert_by :
      (le : A → A → Bool) (x : A) (xs : List A)
      → All (λ y. key y ≢ key x) xs
      → Distinct key xs
      → Distinct key (insert_by le x xs)
  unfolding insert_by
  Distinct-insert_by le x [] h d = (tt, tt)
  Distinct-insert_by le x (y ∷ ys) (n, h) (a, d) = elim (Bool-cases (le x y)) [
    | inl e ↦ rw e ((n, h), (a, d))
    | inr e ↦ rw e (
      All-insert_by le (λ z. key z ≢ key y) x ys (λ k. n (sym k)) a,
      Distinct-insert_by le x ys h d,
    )
  ]

  pub Distinct-sort_by :
      (le : A → A → Bool) (xs : List A) → Distinct key xs → Distinct key (sort_by le xs)
  unfolding sort_by
  Distinct-sort_by le [] d = tt
  Distinct-sort_by le (x ∷ xs) (a, d) =
      Distinct-insert_by le x (sort_by le xs) (All-sort_by le (λ y. key y ≢ key x) xs a)
        (Distinct-sort_by le xs d)

module _ {A : Type 0} where
  -- A search after an insertion at the end, and after a write that the search does not see.
  pub find-snoc :
      (p : A → Bool) (xs : List A) (x : A)
      → find p (xs ++ x ∷ []) ≡ or_else (find p xs) (if p x then some x else none)
  find-snoc p [] x = refl
  find-snoc p (y ∷ xs) x = elim (Bool-cases (p y)) [
    | inl e ↦ rw e refl
    | inr e ↦ rw e (find-snoc p xs x)
  ]

  pub find-update-map :
      (p q : A → Bool) (f : A → A) (xs : List A)
      → ((x : A) → p (f x) ≡ p x)
      → find p (update q f xs) ≡ Opt.map (λ x. if q x then f x else x) (find p xs)
  find-update-map p q f [] h = refl
  find-update-map p q f (x ∷ xs) h =
      let seen : p (if q x then f x else x) ≡ p x = elim (Bool-cases (q x)) [
        | inl u ↦ rw u (h x)
        | inr u ↦ rw u refl
      ] in
      elim (Bool-cases (p x)) [
        | inl t ↦ rw (seen, t) refl
        | inr t ↦ rw (seen, t) (find-update-map p q f xs h)
      ]
