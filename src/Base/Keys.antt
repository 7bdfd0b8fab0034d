-- ===== src/Base/Keys.antt =====
-- Tables whose rows have distinct keys, and writes and deletions by a key.
use Prim.Native.Nat.{ℕ, ◌+◌, ◌≤◌}
use mathlib.Core.Path.{◌≡◌, refl, ap, sym, subst, ◌∙◌}
use mathlib.Core.Logic.{◌≢◌, inl, inr}
use mathlib.Core.Bool.{Bool, false, not}
use mathlib.Core.List.{List, [], ◌∷◌, ◌++◌}
use native.Mathlib.Omega.{arith}
use internship_project.Base.Tests.{◌==◌, indicator, Bool-cases, ==_iff, ==_refl, ==_of_ne}
use internship_project.Base.Lists.{
  keep, count, any, update, All, All-append, All-keep, All-intro, All-update, All-keep_if,
}
use internship_project.Base.Search.{Has, All-Has, count-one}

module _ {A : Type 0} (key : A → ℕ) where
  -- No two rows share a key.
  abbrev pub Distinct : List A → Type 0
  Distinct [] = Unit {0}
  Distinct (x ∷ xs) = All (λ y. key y ≢ key x) xs × Distinct xs

  -- The test that a keyed write applies.
  abbrev pub keyed : ℕ → A → Bool
  keyed k x = key x == k

  abbrev pub unkeyed : ℕ → A → Bool
  unkeyed k x = not (key x == k)

  pub update-absent :
      (k : ℕ) (f : A → A) (xs : List A) → All (λ y. key y ≢ k) xs → update (keyed k) f xs ≡ xs
  update-absent k f [] h = refl
  update-absent k f (x ∷ xs) (h, hs) = ground (arith, ==_iff (key x) k, update-absent k f xs hs)

  pub any-absent : (k : ℕ) (xs : List A) → All (λ y. key y ≢ k) xs → any (keyed k) xs ≡ false
  any-absent k [] h = refl
  any-absent k (x ∷ xs) (h, hs) = ground (arith, any-absent k xs hs)

  pub keep-absent : (k : ℕ) (xs : List A) → All (λ y. key y ≢ k) xs → keep (unkeyed k) xs ≡ xs
  keep-absent k [] h = refl
  keep-absent k (x ∷ xs) (h, hs) = ground (arith, ==_iff (key x) k, keep-absent k xs hs)

  -- A keyed write changes a count by its one row.
  pub count-update_at :
      (p : A → Bool) (f : A → A) (m : A) (xs : List A)
      → Distinct xs
      → Has m xs
      → count p (update (keyed (key m)) f xs) + indicator (p m) ≡ count p xs + indicator (p (f m))
  count-update_at p f m [] d i = absurd i
  count-update_at p f m (x ∷ xs) (a, d) (inl e) =
      subst
        (λ m.
          count p (update (keyed (key m)) f (x ∷ xs)) + indicator (p m)
          ≡ count p (x ∷ xs) + indicator (p (f m)))
        (sym e) (rw (==_refl (key x)) (omega (arith, ap (count p) (update-absent (key x) f xs a))))
  count-update_at p f m (x ∷ xs) (a, d) (inr i) =
      let other = All-Has (λ y. key y ≢ key x) m xs a i in
      rw (==_of_ne (key x) (key m) (λ e. other (sym e)))
        (omega (arith, count-update_at p f m xs d i))

  pub count-keep_at :
      (p : A → Bool) (m : A) (xs : List A)
      → Distinct xs
      → Has m xs
      → count p (keep (unkeyed (key m)) xs) + indicator (p m) ≡ count p xs
  count-keep_at p m [] d i = absurd i
  count-keep_at p m (x ∷ xs) (a, d) (inl e) =
      subst (λ m. count p (keep (unkeyed (key m)) (x ∷ xs)) + indicator (p m) ≡ count p (x ∷ xs))
        (sym e) (rw (==_refl (key x)) (omega (arith, ap (count p) (keep-absent (key x) xs a))))
  count-keep_at p m (x ∷ xs) (a, d) (inr i) =
      let other = All-Has (λ y. key y ≢ key x) m xs a i in
      rw (==_of_ne (key x) (key m) (λ e. other (sym e))) (omega (arith, count-keep_at p m xs d i))

  pub Distinct-keep : (p : A → Bool) (xs : List A) → Distinct xs → Distinct (keep p xs)
  Distinct-keep p [] d = tt
  Distinct-keep p (x ∷ xs) (a, d) = elim (Bool-cases (p x)) [
    | inl e ↦ rw e (All-keep _ p xs a, Distinct-keep p xs d)
    | inr e ↦ rw e (Distinct-keep p xs d)
  ]

  pub Distinct-update :
      (p : A → Bool) (f : A → A) (xs : List A)
      → ((x : A) → key (f x) ≡ key x)
      → Distinct xs
      → Distinct (update p f xs)
  Distinct-update p f [] h d = tt
  Distinct-update p f (x ∷ xs) h (a, d) =
      let rest = Distinct-update p f xs h d in
      let away = All-update (λ y. key y ≢ key x) p f xs (λ y _ n. rw (h y) n) a in
      elim (Bool-cases (p x)) [ inl e ↦ rw (e, h x) (away, rest) | inr e ↦ rw e (away, rest) ]

  pub Distinct-snoc :
      (xs : List A) (x : A) → Distinct xs → All (λ y. key y ≢ key x) xs → Distinct (xs ++ x ∷ [])
  Distinct-snoc [] x d h = (tt, tt)
  Distinct-snoc (y ∷ xs) x (a, d) (h, hs) =
      (All-append _ xs (x ∷ []) a ((λ e. h (sym e)), tt), Distinct-snoc xs x d hs)

  -- A row with another key survives a keyed write.
  pub Has-update_other :
      (k : ℕ) (f : A → A) (m : A) (xs : List A)
      → key m ≢ k
      → Has m xs
      → Has m (update (keyed k) f xs)
  Has-update_other k f m [] n i = absurd i
  Has-update_other k f m (x ∷ xs) n (inl e) = inl (rw (← e, ==_of_ne (key m) k n) refl)
  Has-update_other k f m (x ∷ xs) n (inr i) = inr (Has-update_other k f m xs n i)

  Has-ne : (m : A) (k : ℕ) (xs : List A) → All (λ y. key y ≢ k) xs → Has m xs → key m ≢ k
  Has-ne m k xs a i = All-Has (λ y. key y ≢ k) m xs a i

  -- Two different rows are counted apart.
  pub count-two :
      (p : A → Bool) (a b : A) (xs : List A)
      → key a ≢ key b
      → Has a xs
      → Has b xs
      → indicator (p a) + indicator (p b) ≤ count p xs
  count-two p a b [] n i j = absurd i
  count-two p a b (x ∷ xs) n (inl e) (inl f) = absurd (n (ap key (e ∙ sym f)))
  count-two p a b (x ∷ xs) n (inl e) (inr j) = rw e (omega (arith, count-one p b xs j))
  count-two p a b (x ∷ xs) n (inr i) (inl f) = rw f (omega (arith, count-one p a xs i))
  count-two p a b (x ∷ xs) n (inr i) (inr j) = omega (arith, count-two p a b xs n i j)

  -- Rows with one key are one row.
  pub eq_of_key :
      (a b : A) (xs : List A) → Distinct xs → Has a xs → Has b xs → key a ≡ key b → a ≡ b
  eq_of_key a b [] d i j e = absurd i
  eq_of_key a b (x ∷ xs) (n, d) (inl h) (inl k) e = h ∙ sym k
  eq_of_key a b (x ∷ xs) (n, d) (inl h) (inr j) e =
      absurd (Has-ne b (key x) xs n j (sym e ∙ ap key h))
  eq_of_key a b (x ∷ xs) (n, d) (inr i) (inl k) e = absurd (Has-ne a (key x) xs n i (e ∙ ap key k))
  eq_of_key a b (x ∷ xs) (n, d) (inr i) (inr j) e = eq_of_key a b xs d i j e

  pub Has-update_at :
      (f : A → A) (m : A) (xs : List A) → Has m xs → Has (f m) (update (keyed (key m)) f xs)
  Has-update_at f m [] i = absurd i
  Has-update_at f m (x ∷ xs) (inl e) = inl (rw (← e, ==_refl (key m)) refl)
  Has-update_at f m (x ∷ xs) (inr i) = inr (Has-update_at f m xs i)

  -- After a deletion no row has the key.
  pub unkeyed-gone : (k : ℕ) (xs : List A) → All (λ y. key y ≢ k) (keep (unkeyed k) xs)
  unkeyed-gone k xs =
      All-keep_if (unkeyed k) (λ x t _. ground (arith, t)) xs
        (All-intro (λ _. Unit {0}) (λ x. tt) xs)
