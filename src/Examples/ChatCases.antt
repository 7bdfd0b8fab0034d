-- ===== src/Examples/ChatCases.antt =====
-- The theorems on rooms and presence, on two sockets of one user.
use internship_project.Base.{
  ℕ, ◌≡◌, ◌≢◌, ◌≤◌, ◌⊎◌, List, [], ◌∷◌, some, Text, codes, All, length, trim,
}
use internship_project.Http.{ok}
use internship_project.Schema.{Message}
use internship_project.Events.{RequestId, member_left}
use internship_project.Messages.{create}
use internship_project.Chat.{Socket, room_for, accepted, send_message}
use internship_project.Chat.Broadcast.{on_event}
use internship_project.Chat.Rooms.{IsEvicted, on_event-member_left}
use internship_project.Chat.Guards.{IsMember, send_message-guards}
use internship_project.Examples.{sample_db, sample_id}

abbrev tab : ℕ → Socket
tab id = record { id = id; user_id = some 2; rooms = room_for sample_id.raw ∷ [] }

abbrev tabs : List Socket
tabs = tab 1 ∷ tab 2 ∷ []

-- The sample id in capitals.
abbrev upper_id : RequestId
upper_id = record { raw = codes "0190A000-0000-7000-8000-00000000000A"; value = 10 }

abbrev spell : ℕ → Text
spell n = n ∷ []

on_event-member_left_example :
    All (IsEvicted (room_for sample_id.raw) 2) (on_event spell (member_left sample_id 2) tabs).0
on_event-member_left_example = (on_event-member_left spell sample_id 2 tabs).0

send_message-guards_example :
    let (db', events, ack) = send_message 203 8 2 sample_id (codes " hi ") sample_db in
    let o = create 203 8 sample_id 2 (trim (codes " hi ")) sample_db in
    (IsMember 2 sample_id sample_db
      × (1 ≤ length (trim (codes " hi ")))
      × (length (trim (codes " hi ")) ≤ 4000)
      × (db' ≡ o.db)
      × (events ≡ o.events))
    ⊎ ((db' ≡ sample_db) × (events ≡ []) × ((m : Message) → ack ≢ ok (accepted m)))
send_message-guards_example = send_message-guards 203 8 2 sample_id (codes " hi ") sample_db
