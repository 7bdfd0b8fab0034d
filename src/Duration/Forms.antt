-- ===== src/Duration/Forms.antt =====
-- The texts that are durations, and what they come to.
use internship_project.Base.{
  ℕ, ◌+◌, ◌-◌, ◌*◌, ◌<◌, ◌≡◌, refl, sym, ap, ◌∙◌, true, false, arith, List, [], ◌∷◌, ◌++◌, map,
  append_assoc, some, Text, All, is_space, trim, trim_start, trim_end, kept_unit,
}
use internship_project.Duration.{
  unit_ms, is_digit, after_digits, digits, from_digit, parse_duration_to_ms,
}

-- A decimal number by its digits, from one that is read already, and the character of a digit.
abbrev pub number_from : ℕ → List ℕ → ℕ
number_from n [] = n
number_from n (d ∷ ds) = number_from (10 * n + d) ds

abbrev pub digit_code : ℕ → ℕ
digit_code d = 48 + d

abbrev IsSpaces : Text → Type 0
IsSpaces s = All (λ c. is_space c ≡ true) s

-- A letter of a unit is neither a digit nor white space.
unit_ms-letter : (u ms : ℕ) → unit_ms u ≡ some ms → (is_space u ≡ false) × (is_digit u ≡ false)
unit_ms-letter u ms h = (ground arith, ground arith)

trim_end-spaces : (s : Text) → IsSpaces s → trim_end s ≡ []
trim_end-spaces [] h = refl
trim_end-spaces (c ∷ s) (h, hs) = rw (trim_end-spaces s hs, h) refl

trim_end-append :
    (s : Text) (u : ℕ) (after : Text)
    → is_space u ≡ false
    → IsSpaces after
    → trim_end (s ++ u ∷ after) ≡ s ++ u ∷ []
trim_end-append [] u after letter h = rw (trim_end-spaces after h, letter) refl
trim_end-append (c ∷ []) u after letter h = ap (kept_unit c) (trim_end-append [] u after letter h)
trim_end-append (c ∷ d ∷ s) u after letter h =
    ap (kept_unit c) (trim_end-append (d ∷ s) u after letter h)

trim_start-append :
    (before s : Text) (c : ℕ)
    → IsSpaces before
    → is_space c ≡ false
    → trim_start (before ++ c ∷ s) ≡ c ∷ s
trim_start-append [] s c h other = rw other refl
trim_start-append (b ∷ before) s c (h, hs) other = rw h (trim_start-append before s c hs other)

after_digits-append : (gap : Text) (u : ℕ) → IsSpaces gap → after_digits (gap ++ u ∷ []) ≡ unit_ms u
unfolding after_digits
after_digits-append [] u h = refl
after_digits-append (c ∷ []) u (h, hs) = rw h refl
after_digits-append (c ∷ d ∷ gap) u (h, hs) = rw h (after_digits-append (d ∷ gap) u hs)

digits-append :
    (n : ℕ) (ds : List ℕ) (gap : Text) (u ms : ℕ)
    → All (λ d. d < 10) ds
    → IsSpaces gap
    → unit_ms u ≡ some ms
    → digits n (map digit_code ds ++ (gap ++ u ∷ [])) ≡ some (number_from n ds * ms)
unfolding digits
digits-append n [] [] u ms h k e = rw ((unit_ms-letter u ms e).1, e) refl
digits-append n [] (c ∷ gap) u ms h (k, ks) e =
    let other : is_digit c ≡ false = ground arith in
    rw (other, after_digits-append (c ∷ gap) u (k, ks), e) refl
digits-append n (d ∷ ds) gap u ms (h, hs) k e =
    let digit : is_digit (digit_code d) ≡ true = ground arith in
    let value : digit_code d - 48 ≡ d = omega arith in
    rw (digit, value) (digits-append (10 * n + d) ds gap u ms hs k e)

-- A decimal number, white space or none and one of the four letters are a duration, with any white
-- space around them; it comes to the number times the milliseconds of the unit.
pub parse_duration_to_ms-form :
    (before : Text) (d : ℕ) (ds : List ℕ) (gap : Text) (u ms : ℕ) (after : Text)
    → All (λ c. is_space c ≡ true) before
    → All (λ d. d < 10) (d ∷ ds)
    → All (λ c. is_space c ≡ true) gap
    → unit_ms u ≡ some ms
    → All (λ c. is_space c ≡ true) after
    → parse_duration_to_ms (before ++ digit_code d ∷ (map digit_code ds ++ (gap ++ u ∷ after)))
      ≡ some (number_from d ds * ms)
unfolding parse_duration_to_ms trim
parse_duration_to_ms-form before d ds gap u ms after hb (hd, hds) hg e ha =
    let digit : is_digit (digit_code d) ≡ true = ground arith in
    let other : is_space (digit_code d) ≡ false = ground arith in
    let value : digit_code d - 48 ≡ d = omega arith in
    let inner = digit_code d ∷ (map digit_code ds ++ gap) in
    let grouped : digit_code d ∷ (map digit_code ds ++ (gap ++ u ∷ after)) ≡ inner ++ u ∷ after =
      ap (◌∷◌ (digit_code d)) (sym (append_assoc (map digit_code ds) gap (u ∷ after))) in
    let cut : trim_end (inner ++ u ∷ after) ≡ inner ++ u ∷ [] =
      trim_end-append inner u after (unit_ms-letter u ms e).0 ha in
    let regrouped : inner ++ u ∷ [] ≡ digit_code d ∷ (map digit_code ds ++ (gap ++ u ∷ [])) =
      ap (◌∷◌ (digit_code d)) (append_assoc (map digit_code ds) gap (u ∷ [])) in
    let trimmed : trim (before ++ digit_code d ∷ (map digit_code ds ++ (gap ++ u ∷ after)))
        ≡ digit_code d ∷ (map digit_code ds ++ (gap ++ u ∷ [])) =
      ap trim_end (trim_start-append before _ (digit_code d) hb other ∙ grouped)
      ∙ cut
      ∙ regrouped in
    ap from_digit trimmed ∙ rw (digit, value) (digits-append d ds gap u ms hds hg e)
