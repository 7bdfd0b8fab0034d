-- ===== src/Base/Trim.antt =====
-- Texts that have been trimmed.
use Prim.Native.Nat.{ℕ, suc, ◌≤◌}
use mathlib.Core.Path.{◌≡◌, refl, ap, ◌∙◌}
use mathlib.Core.Logic.{inl, inr}
use mathlib.Core.Bool.{false}
use mathlib.Core.List.{[], ◌∷◌}
use native.Mathlib.Omega.{arith}
use internship_project.Base.Tests.{Bool-cases}
use internship_project.Base.Lists.{length}
use internship_project.Base.Texts.{Text, is_space, trim_start, kept_unit, trim_end, trim}

-- A text that no white space starts.
abbrev IsStarted : Text → Type 0
IsStarted [] = Unit {0}
IsStarted (c ∷ t) = is_space c ≡ false

trim_start-IsStarted : (s : Text) → IsStarted (trim_start s)
trim_start-IsStarted [] = tt
trim_start-IsStarted (c ∷ s) = elim (Bool-cases (is_space c)) [
  | inl e ↦ rw e (trim_start-IsStarted s)
  | inr e ↦ rw e e
]

trim_start_of : (s : Text) → IsStarted s → trim_start s ≡ s
trim_start_of [] h = refl
trim_start_of (c ∷ s) h = rw h refl

kept_unit-IsStarted : (c : ℕ) (t : Text) → is_space c ≡ false → IsStarted (kept_unit c t)
kept_unit-IsStarted c [] h = rw h h
kept_unit-IsStarted c (d ∷ t) h = h

trim_end-IsStarted : (s : Text) → IsStarted s → IsStarted (trim_end s)
trim_end-IsStarted [] h = tt
trim_end-IsStarted (c ∷ s) h = kept_unit-IsStarted c (trim_end s) h

trim_end-kept_unit : (c : ℕ) (t : Text) → trim_end t ≡ t → trim_end (kept_unit c t) ≡ kept_unit c t
trim_end-kept_unit c [] h = elim (Bool-cases (is_space c)) [
  | inl e ↦ rw e refl
  | inr e ↦ rw e (rw e refl)
]
trim_end-kept_unit c (d ∷ t) h = ap (kept_unit c) h

trim_end-trim_end : (s : Text) → trim_end (trim_end s) ≡ trim_end s
trim_end-trim_end [] = refl
trim_end-trim_end (c ∷ s) = trim_end-kept_unit c (trim_end s) (trim_end-trim_end s)

pub trim-trim : (s : Text) → trim (trim s) ≡ trim s
unfolding trim
trim-trim s =
    ap trim_end (
      trim_start_of (trim_end (trim_start s))
        (trim_end-IsStarted (trim_start s) (trim_start-IsStarted s)))
    ∙ trim_end-trim_end (trim_start s)

length-trim_start : (s : Text) → length (trim_start s) ≤ length s
length-trim_start [] = omega arith
length-trim_start (c ∷ s) = ground (arith, length-trim_start s)

length-kept_unit : (c : ℕ) (t : Text) → length (kept_unit c t) ≤ suc (length t)
length-kept_unit c [] = ground arith
length-kept_unit c (d ∷ t) = omega arith

length-trim_end : (s : Text) → length (trim_end s) ≤ length s
length-trim_end [] = omega arith
length-trim_end (c ∷ s) = omega (arith, length-kept_unit c (trim_end s), length-trim_end s)

pub length-trim : (s : Text) → length (trim s) ≤ length s
unfolding trim
length-trim s = omega (arith, length-trim_end (trim_start s), length-trim_start s)
