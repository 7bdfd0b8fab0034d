-- ===== src/Duration.antt =====
-- backend/src/common/utils/duration.ts: a duration such as "15m" in milliseconds. `none` is the error
-- that is thrown; numbers are exact, as JavaScript's are below 2 ^ 53.
pub mod Forms
use internship_project.Base.{
  ℕ, ◌+◌, ◌-◌, ◌*◌, Bool, true, false, ◌&&◌, [], ◌∷◌, Option, none, some, Text, leb, ◌==◌,
  if◌then◌else◌, is_space, trim,
}
use mathlib.Core.Option as Opt

-- UNIT_MS; the letters are s, m, h and d.
abbrev pub unit_ms : ℕ → Option ℕ
unit_ms c =
    if c == 115
    then some 1000
    else if c == 109
    then some 60_000
    else if c == 104
    then some 3_600_000
    else if c == 100
    then some 86_400_000
    else none

abbrev pub is_digit : ℕ → Bool
is_digit c = leb 48 c && leb c 57

-- The pattern behind the digits: white space, one letter and the end.
unfoldable pub after_digits : Text → Option ℕ
after_digits [] = none
after_digits (c ∷ []) = unit_ms c
after_digits (c ∷ d ∷ s) = if is_space c then after_digits (d ∷ s) else none

unfoldable pub digits : (amount : ℕ) → Text → Option ℕ
unfolding after_digits
digits amount [] = none
digits amount (c ∷ s) =
    if is_digit c
    then digits (10 * amount + (c - 48)) s
    else Opt.map (λ ms. amount * ms) (after_digits (c ∷ s))

abbrev pub from_digit : Text → Option ℕ
unfolding digits
from_digit [] = none
from_digit (c ∷ s) = if is_digit c then digits (c - 48) s else none

unfoldable pub parse_duration_to_ms : Text → Option ℕ
unfolding digits
parse_duration_to_ms value = from_digit (trim value)
