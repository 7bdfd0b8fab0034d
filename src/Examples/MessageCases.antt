-- ===== src/Examples/MessageCases.antt =====
-- The theorems on messages and cursors, with a platform whose codecs are lists of numbers.
use internship_project.Base.{
  ℕ, ◌≡◌, refl, ap, arith, List, [], ◌∷◌, ◌++◌, Option, none, some, Text, codes, length, take, drop,
  sort_by,
}
use internship_project.Http.{ok, err, Exception}
use internship_project.Http.Filter.{build_error}
use internship_project.Cursor.{Field, field_of, Platform, IsLawful, encode_cursor}
use internship_project.Messages.{edit, edited, soft_delete, tombstoned, find_page}
use internship_project.Messages.Pages.{load_all, load_all-history}
use internship_project.Messages.Edit.{Changes, IsOwnMessage, edit-Changes, soft_delete-Changes}
use internship_project.Messages.Refusals.{find_page-forged}
use internship_project.Examples.{sample_message, sample_db, sample_id}

-- An object of two strings is the lengths of three texts, and then all four.
abbrev write_object : List (Text × Text) → Text
write_object [] = []
write_object (_ ∷ []) = []
write_object ((j, a) ∷ (k, b) ∷ _) = length j ∷ length k ∷ length a ∷ (j ++ (k ++ (a ++ b)))

abbrev read_values : (j k rest : Text) → ℕ → Text → Field
read_values j k rest n = field_of ((j, take n rest) ∷ (k, drop n rest) ∷ [])

abbrev read_object : Text → Option (Text → Field)
read_object (j ∷ k ∷ a ∷ t) =
    some (read_values (take j t) (take k (drop j t)) (drop k (drop j t)) a)
read_object _ = none

abbrev read_number : Text → Option ℕ
read_number [] = none
read_number (n ∷ t) = some n

abbrev tail : Text → Text
tail [] = []
tail (c ∷ t) = t

abbrev pub list_platform : Platform
list_platform = record {
  stringify = write_object;
  parse = read_object;
  to_base64url = λ t. 45 ∷ t;
  from_base64url = tail;
  to_iso = λ n. n ∷ [];
  to_date = read_number;
  spell = λ n. n ∷ [];
  read_uuid = read_number;
}

take-length : (a b : Text) → take (length a) (a ++ b) ≡ a
take-length [] b = refl
take-length (c ∷ a) b = ap (◌∷◌ c) (take-length a b)

drop-length : (a b : Text) → drop (length a) (a ++ b) ≡ b
drop-length [] b = refl
drop-length (c ∷ a) b = drop-length a b

pub list_platform-IsLawful : IsLawful list_platform
list_platform-IsLawful = record {
  parse-stringify = λ j k a b apart.
      rw
        (
          take-length j (k ++ (a ++ b)),
          drop-length j (k ++ (a ++ b)),
          take-length k (a ++ b),
          drop-length k (a ++ b),
          take-length a b,
          drop-length a b,
        )
        refl;
  from-to_base64url = λ t. refl;
  to_base64url-ne-nil = λ o e. cc;
  to_date-to_iso = λ n. refl;
  read_uuid-spell = λ n. refl;
}

load_all-history_example :
    load_all list_platform sample_id 2 sample_db 4 none
    ≡ ok (sample_message 202 6 ∷ sample_message 201 5 ∷ sample_message 200 5 ∷ [])
unfolding sort_by
load_all-history_example =
    load_all-history list_platform sample_id 2 sample_db list_platform-IsLawful (omega arith)
      (((λ e. omega arith), ((λ e. omega arith), tt)), (((λ e. omega arith), tt), (tt, tt)))

find_page-forged_example :
    (e : Exception) × (find_page list_platform sample_id 2
        (some (encode_cursor list_platform (record { created_at = 5; id = [] })))
        sample_db
      ≡ err e)
    × ((build_error e).status ≡ 500)
find_page-forged_example =
    find_page-forged list_platform sample_id 2 5 [] sample_db list_platform-IsLawful refl

edit-Changes_example :
    Changes
      (edited 9 (codes "new"))
      (λ m. IsOwnMessage 10 201 1 sample_db m × (m.deleted_at ≡ none))
      sample_db
      (edit 9 10 201 1 (codes "new") sample_db)
edit-Changes_example = edit-Changes 9 10 201 1 (codes "new") sample_db

soft_delete-Changes_example :
    Changes
      (tombstoned 9)
      (IsOwnMessage 10 201 1 sample_db)
      sample_db
      (soft_delete 9 10 201 1 sample_db)
soft_delete-Changes_example = soft_delete-Changes 9 10 201 1 sample_db
