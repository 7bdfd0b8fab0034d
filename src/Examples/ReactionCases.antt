-- ===== src/Examples/ReactionCases.antt =====
-- The theorems on reactions, on a message without any.
use internship_project.Base.{◌≡◌, refl, arith, codes}
use internship_project.Http.{ok}
use internship_project.Reactions.{Tap, toggle, reactions_of}
use internship_project.Reactions.Toggle.{IsUnique, toggle-flips}
use internship_project.Reactions.Concurrent.{
  Race, before_delete, before_insert, advance, IsSound, first_steps, second_steps, Reaches, here,
  later, Reaches-IsSound,
}
use internship_project.Examples.{sample_message, sample_db, sample_id}

abbrev tap : Tap
tap = record { message_id = 201; user_id = 2; emoji = codes "+1" }

sample-IsUnique : IsUnique sample_db
sample-IsUnique = λ t. omega arith

toggle-flips_example :
    (toggle 500 sample_id tap sample_db).result
    ≡ ok (reactions_of 201 (toggle 500 sample_id tap sample_db).db)
toggle-flips_example =
    (toggle-flips 500 sample_id tap (sample_message 201 5) sample_db refl refl sample-IsUnique).1

abbrev start : Race
start = record { db = sample_db; first = before_delete; second = before_delete }

abbrev both_deleted : Race
both_deleted = record { db = sample_db; first = before_insert; second = before_insert }

-- Both calls have deleted nothing before either inserts.
start-both_deleted : Reaches tap tap start both_deleted
unfolding advance
start-both_deleted =
    later
      (later here (
        first_steps 500
          {q = record { db = sample_db; first = before_insert; second = before_delete }} refl refl))
      (second_steps 501 refl refl)

Reaches-IsSound_example : IsSound tap tap both_deleted
Reaches-IsSound_example =
    Reaches-IsSound tap tap
      (record {
        unique = sample-IsUnique;
        first_known = record { message = refl; user = refl };
        second_known = record { message = refl; user = refl };
        first_alive = tt;
        second_alive = tt;
      })
      start-both_deleted
