-- ===== src/Examples/OnlineCases.antt =====
-- The theorem on presence: two sockets connect and join the room of the sample group.
use internship_project.Base.{
  any, true, ◌≡◌, text_eq, count, ◌==◌, inl, inr, ℕ, refl, arith, [], ◌∷◌, some, Text,
}
use internship_project.Groups.{assert_member}
use internship_project.Uuid.{is_uuid}
use internship_project.Chat.{Socket, room_for, join_group}
use internship_project.Online.{World, after, after_handler, nobody, connected, joined, here, next}
use internship_project.Online.{reaches_socket}
use internship_project.Online.Spellings.{on_events, leave-spelling}
use internship_project.Chat.Broadcast.{on_event}
use internship_project.Events.{message_created}
use internship_project.Schema.{member}
use internship_project.Groups.{leave}
use internship_project.Online.Invariant.{Reaches-count}
use internship_project.Examples.{sample_member, sample_message, sample_db, sample_id}

abbrev spell_id : ℕ → Text
spell_id n = n ∷ []

abbrev socket_of : (id user_id : ℕ) → Socket
socket_of id user_id = record { id = id; user_id = some user_id; rooms = [] }

abbrev arrive : Socket → World → World
arrive s w = after spell_id sample_id.raw (s ∷ w.sockets) [] w

abbrev enter : Socket → ℕ → World → World
enter s user_id w =
    after_handler spell_id sample_id.raw (join_group s user_id sample_id sample_db w.sockets) w

abbrev two_tabs : World
two_tabs = arrive (socket_of 2 2) (arrive (socket_of 1 1) nobody)

abbrev two_pages : World
two_pages = enter (socket_of 2 2) 2 (enter (socket_of 1 1) 1 two_tabs)

abbrev page_of_one : Socket
page_of_one = record { id = 1; user_id = some 1; rooms = room_for sample_id.raw ∷ [] }

Reaches-count_example : count (λ id. id == 2) (two_pages.online 1) ≡ 1
unfolding join_group assert_member is_uuid text_eq
Reaches-count_example =
    Reaches-count spell_id sample_id.raw two_pages page_of_one 2 (λ e. cc)
      (next
        (next
          (next (next here (connected (socket_of 1 1) refl tt))
            (connected (socket_of 2 2) refl (omega arith)))
          (joined (socket_of 1 1) 1 sample_id sample_db))
        (joined (socket_of 2 2) 2 sample_id sample_db))
      (inr (inl refl)) refl

abbrev stale_socket : Socket
stale_socket = record { id = 4; user_id = some 2; rooms = room_for (spell_id 10) ∷ [] }

-- The database spells the sample group's id in another way than the request of user 2.
leave-spelling_example :
    any
      (λ e. reaches_socket e 4)
      (on_event spell_id
        (message_created (sample_message 203 7))
        (on_events spell_id (leave 2 sample_id sample_db).events (stale_socket ∷ []))).1
    ≡ true
unfolding text_eq
leave-spelling_example =
    (leave-spelling spell_id sample_id 2 sample_db (sample_member 101 2 member) (stale_socket ∷ [])
      stale_socket (sample_message 203 7)
      (record { distinct = omega arith; single = λ g u. ground arith }) refl refl (λ e. cc) refl
      (inl refl) refl).1
