-- ===== src/Events.antt =====
-- The in-process events: groups/group-events.ts and messages/message-events.ts, and what a service
-- method leaves behind.
use internship_project.Base.{ℕ, Text, List, []}
use internship_project.Http.{Result, Exception, ok, err}
use internship_project.Schema.{Db, GroupMember, Message, Reaction}

-- An id as a request carries it: its spelling, and the uuid that the database reads from it.
pub record RequestId : Type 0 where
  pub raw : Text
  pub value : ℕ

pub data Event : Type 0 where
  member_joined : (group_id : RequestId) → GroupMember → Event
  member_left : (group_id : RequestId) → (user_id : ℕ) → Event
  owner_changed : (group_id : RequestId) → (previous_owner_id new_owner_id : ℕ) → Event
  read_marked : (group_id : RequestId) → (user_id last_read_at : ℕ) → Event
  message_created : Message → Event
  message_updated : Message → Event
  reaction_changed : (group_id : RequestId) → (message_id : ℕ) → List Reaction → Event

-- The database after a method, the events that it emitted, oldest first, and what it returned.
pub record Outcome (A : Type 0) : Type 0 where
  pub db : Db
  pub events : List Event
  pub result : Result A

-- A method that writes nothing, and a transaction that is rolled back.
abbrev pub unchanged : {A : Type 0} → Db → Exception → Outcome A
unchanged db e = record { db = db; events = []; result = err e }

abbrev pub answer : {A : Type 0} → Db → List Event → A → Outcome A
answer db events a = record { db = db; events = events; result = ok a }
