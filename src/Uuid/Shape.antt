-- ===== src/Uuid/Shape.antt =====
-- The texts that isUuid() accepts: their length, and the flag `i`.
use Prim.Native.Nat.{zero, suc}
use internship_project.Base.{
  ℕ, ◌+◌, ◌-◌, ◌≡◌, refl, ap₂, Bool, true, ◌&&◌, arith, [], ◌∷◌, map, Text, leb, ◌==◌,
  if◌then◌else◌, length,
}
use mathlib.Core.Bool.{false≢true}
use internship_project.Uuid.{is_hex, hex_run, dash, at_end, is_uuid}

-- `toUpperCase` on ASCII.
abbrev upper : ℕ → ℕ
upper c = if leb b'a' c && leb c b'z' then c - 32 else c

abbrev pub to_upper : Text → Text
to_upper t = map upper t

is_hex-upper : (c : ℕ) → is_hex (upper c) ≡ is_hex c
unfolding is_hex
is_hex-upper c = ground arith

dash-upper : (c : ℕ) → (upper c == b'-') ≡ (c == b'-')
dash-upper c = ground arith

-- A pattern that a text fits exactly when its upper case does.
abbrev IgnoresCase : (Text → Bool) → Type 0
IgnoresCase p = (t : Text) → p (to_upper t) ≡ p t

hex_run-IgnoresCase : (n : ℕ) (rest : Text → Bool) → IgnoresCase rest → IgnoresCase (hex_run n rest)
unfolding hex_run
hex_run-IgnoresCase zero rest h t = h t
hex_run-IgnoresCase (suc n) rest h [] = refl
hex_run-IgnoresCase (suc n) rest h (c ∷ t) =
    ap₂ (λ a b. a && b) (is_hex-upper c) (hex_run-IgnoresCase n rest h t)

dash-IgnoresCase : (rest : Text → Bool) → IgnoresCase rest → IgnoresCase (dash rest)
unfolding dash
dash-IgnoresCase rest h [] = refl
dash-IgnoresCase rest h (c ∷ t) = ap₂ (λ a b. a && b) (dash-upper c) (h t)

at_end-IgnoresCase : IgnoresCase at_end
unfolding at_end
at_end-IgnoresCase [] = refl
at_end-IgnoresCase (c ∷ t) = refl

-- The upper case of a text is accepted exactly when the text is.
pub is_uuid-to_upper : (t : Text) → is_uuid (to_upper t) ≡ is_uuid t
unfolding is_uuid
is_uuid-to_upper = hex_run-IgnoresCase 8 _ (
    dash-IgnoresCase _ (
      hex_run-IgnoresCase 4 _ (
        dash-IgnoresCase _ (
          hex_run-IgnoresCase 4 _ (
            dash-IgnoresCase _ (
              hex_run-IgnoresCase 4 _
                (dash-IgnoresCase _ (hex_run-IgnoresCase 12 at_end at_end-IgnoresCase))))))))

-- A pattern that only texts of one length fit.
abbrev HasLength : ℕ → (Text → Bool) → Type 0
HasLength n p = (t : Text) → p t ≡ true → length t ≡ n

hex_run-HasLength :
    (n m : ℕ) (rest : Text → Bool) → HasLength m rest → HasLength (n + m) (hex_run n rest)
unfolding hex_run
hex_run-HasLength zero m rest h t e = omega (arith, h t e)
hex_run-HasLength (suc n) m rest h [] e = absurd (false≢true e)
hex_run-HasLength (suc n) m rest h (c ∷ t) e =
    omega (arith, hex_run-HasLength n m rest h t (ground (arith, e)))

dash-HasLength : (m : ℕ) (rest : Text → Bool) → HasLength m rest → HasLength (1 + m) (dash rest)
unfolding dash
dash-HasLength m rest h [] e = absurd (false≢true e)
dash-HasLength m rest h (c ∷ t) e = omega (arith, h t (ground (arith, e)))

at_end-HasLength : HasLength 0 at_end
unfolding at_end
at_end-HasLength [] e = refl
at_end-HasLength (c ∷ t) e = absurd (false≢true e)

-- A text that is accepted has 36 code units.
pub is_uuid-length : (t : Text) → is_uuid t ≡ true → length t ≡ 36
unfolding is_uuid
is_uuid-length = hex_run-HasLength 8 _ _ (
    dash-HasLength _ _ (
      hex_run-HasLength 4 _ _ (
        dash-HasLength _ _ (
          hex_run-HasLength 4 _ _ (
            dash-HasLength _ _ (
              hex_run-HasLength 4 _ _
                (dash-HasLength _ _ (hex_run-HasLength 12 0 at_end at_end-HasLength))))))))
