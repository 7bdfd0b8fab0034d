-- ===== src/Base/Kept.antt =====
-- The rows of a table that pass a test, beside a write to other rows.
use mathlib.Core.Path.{◌≡◌, refl, ap}
use mathlib.Core.Logic.{inl, inr}
use mathlib.Core.Bool.{Bool, true, false}
use mathlib.Core.List.{List, [], ◌∷◌, ◌++◌}
use internship_project.Base.Tests.{Bool-cases}
use internship_project.Base.Lists.{keep, update}
use internship_project.Base.Search.{Has}

-- Rows that a write adds, changes or removes beside the rows that are kept.
module _ {A : Type 0} (p : A → Bool) where
  pub keep-snoc_away : (xs : List A) (x : A) → p x ≡ false → keep p (xs ++ x ∷ []) ≡ keep p xs
  keep-snoc_away [] x e = rw e refl
  keep-snoc_away (y ∷ ys) x e = elim (Bool-cases (p y)) [
    | inl f ↦ rw f (ap (◌∷◌ y) (keep-snoc_away ys x e))
    | inr f ↦ rw f (keep-snoc_away ys x e)
  ]

  pub keep-snoc_in :
      (xs : List A) (x : A) → p x ≡ true → keep p (xs ++ x ∷ []) ≡ keep p xs ++ x ∷ []
  keep-snoc_in [] x e = rw e refl
  keep-snoc_in (y ∷ ys) x e = elim (Bool-cases (p y)) [
    | inl f ↦ rw f (ap (◌∷◌ y) (keep-snoc_in ys x e))
    | inr f ↦ rw f (keep-snoc_in ys x e)
  ]

  pub keep-keep_away :
      (q : A → Bool) (xs : List A)
      → ((x : A) → Has x xs → q x ≡ false → p x ≡ false)
      → keep p (keep q xs) ≡ keep p xs
  keep-keep_away q [] h = refl
  keep-keep_away q (x ∷ xs) h =
      let rest = keep-keep_away q xs (λ y i. h y (inr i)) in
      elim (Bool-cases (q x)) [
        | inr e ↦ rw (e, h x (inl refl) e) rest
        | inl e ↦ elim (Bool-cases (p x)) [
          | inl f ↦ rw (e, f) (ap (◌∷◌ x) rest)
          | inr f ↦ rw (e, f) rest
        ]
      ]

  pub keep-update_away :
      (q : A → Bool) (f : A → A) (xs : List A)
      → ((x : A) → p (f x) ≡ p x)
      → ((x : A) → Has x xs → q x ≡ true → p x ≡ false)
      → keep p (update q f xs) ≡ keep p xs
  keep-update_away q f [] same h = refl
  keep-update_away q f (x ∷ xs) same h =
      let rest = keep-update_away q f xs same (λ y i. h y (inr i)) in
      elim (Bool-cases (q x)) [
        | inl e ↦ rw (e, same x, h x (inl refl) e) rest
        | inr e ↦ elim (Bool-cases (p x)) [
          | inl k ↦ rw (e, k) (ap (◌∷◌ x) rest)
          | inr k ↦ rw (e, k) rest
        ]
      ]
