-- ===== src/Chat.antt =====
-- backend/src/chat: the gateway's rooms, presence.service.ts and chat.constants.ts. A socket keeps
-- the names of its group rooms; fetchSockets sees all of them, those of the other nodes too.
pub mod Broadcast
pub mod Rooms
pub mod Presence
pub mod Guards
use internship_project.Base.{
  ℕ, Bool, true, false, not, ◌&&◌, ◌||◌, List, [], ◌∷◌, ◌++◌, map, Option, none, some, Text, codes,
  text_eq, trim, ltb, ◌==◌, if◌then◌else◌, length, keep, any,
}
use internship_project.Http.{Result, ok, err, Exception, http}
use internship_project.Schema.{Message, Db}
use internship_project.Events.{
  RequestId, Event, member_joined, member_left, owner_changed, read_marked, message_created,
  message_updated, reaction_changed, Outcome,
}
use internship_project.Groups.{assert_member}
use internship_project.Messages.{create}

-- chat.constants.ts
abbrev pub room_prefix : Text
room_prefix = codes "group:"

abbrev pub room_for : Text → Text
room_for group_id = room_prefix ++ group_id

abbrev pub after_prefix : (prefix room : Text) → Option Text
after_prefix [] room = some room
after_prefix (c ∷ prefix) [] = none
after_prefix (c ∷ prefix) (d ∷ room) = if c == d then after_prefix prefix room else none

unfoldable pub group_id_from_room : Text → Option Text
group_id_from_room room = after_prefix room_prefix room

-- A connected socket; `user_id` is absent where no auth data is attached.
pub record Socket : Type 0 where
  pub id : ℕ
  pub user_id : Option ℕ
  pub rooms : List Text

abbrev pub is_in : Text → Socket → Bool
is_in room s = any (text_eq room) s.rooms

-- `server.in(room).fetchSockets()`
abbrev pub fetch_sockets : Text → List Socket → List Socket
fetch_sockets room sockets = keep (is_in room) sockets

-- What the server sends: an event of SERVER_EVENTS to the sockets of a room.
pub data Payload : Type 0 where
  presence : (group_id : Text) → (user_ids : List ℕ) → Payload
  user_typing : (group_id : Text) → Option ℕ → Bool → Payload
  new_message : Message → Payload
  updated_message : Message → Payload
  other_event : Event → Payload

pub record Emission : Type 0 where
  pub room : Text
  pub to_sockets : List ℕ
  pub payload : Payload

abbrev pub socket_id : Socket → ℕ
socket_id s = s.id

abbrev pub emit_to : Text → Payload → List Socket → Emission
emit_to room payload sockets = record {
  room = room;
  to_sockets = map socket_id (fetch_sockets room sockets);
  payload = payload;
}

-- PresenceService.broadcast(): the filters, and `[...new Set(ids)]`, which keeps first places.
abbrev pub is_excluded : Option ℕ → Socket → Bool
is_excluded none s = false
is_excluded (some id) s = s.id == id

abbrev pub user_ids_of : List Socket → List ℕ
user_ids_of [] = []
user_ids_of (s ∷ ss) = known s.user_id (user_ids_of ss)
  where
    known : Option ℕ → List ℕ → List ℕ
    known none ids = ids
    known (some id) ids = id ∷ ids

unfoldable pub unique : List ℕ → List ℕ
unique [] = []
unique (x ∷ xs) = x ∷ keep (λ y. not (y == x)) (unique xs)

unfoldable pub present_users : Text → Option ℕ → List Socket → List ℕ
unfolding unique
present_users room exclude sockets =
    unique (user_ids_of (keep (λ s. not (is_excluded exclude s)) (fetch_sockets room sockets)))

abbrev pub broadcast_presence : Text → Option ℕ → List Socket → Emission
broadcast_presence group_id exclude sockets =
    emit_to (room_for group_id)
      (presence group_id (present_users (room_for group_id) exclude sockets)) sockets

-- `socket.join(room)` and `socket.leave(room)`, on the socket of an id.
abbrev pub with_room : Text → Socket → Socket
with_room room s = if is_in room s then s else record s { rooms = s.rooms ++ room ∷ [] }

abbrev pub without_room : Text → Socket → Socket
without_room room s = record s { rooms = keep (λ r. not (text_eq room r)) s.rooms }

abbrev pub change_socket : ℕ → (Socket → Socket) → List Socket → List Socket
change_socket id f sockets = map (λ s. if s.id == id then f s else s) sockets

-- The acknowledgement of a handler.
pub data Ack (A : Type 0) : Type 0 where
  accepted : A → Ack A
  refused : Text → Ack A

abbrev something_went_wrong : Text
something_went_wrong = codes "Something went wrong"

abbrev refusal : {A : Type 0} → Exception → Ack A
refusal (http status payload own) =
    if status == 403
    then refused (codes "You are not a member of this group")
    else refused something_went_wrong
refusal e = refused something_went_wrong

pub record Handled (A : Type 0) : Type 0 where
  pub sockets : List Socket
  pub emissions : List Emission
  pub ack : Ack A

-- joinGroup(); an absent groupId is the empty text.
abbrev pub join_checked : {A : Type 0} → Socket → Text → List Socket → Result A → Handled (Unit {0})
join_checked socket group_id sockets (err e) = record {
  sockets = sockets;
  emissions = [];
  ack = refusal e;
}
join_checked socket group_id sockets (ok member) =
    let joined = change_socket socket.id (with_room (room_for group_id)) sockets in
    record {
      sockets = joined;
      emissions = broadcast_presence group_id none joined ∷ [];
      ack = accepted tt;
    }

unfoldable pub join_group :
    Socket → (user_id : ℕ) → RequestId → Db → List Socket → Handled (Unit {0})
join_group socket user_id group_id db sockets =
    join_checked socket group_id.raw sockets (assert_member user_id group_id db)

-- leaveGroup()
unfoldable pub leave_group : Socket → (group_id : Text) → List Socket → Handled (Unit {0})
leave_group socket [] sockets = record { sockets = sockets; emissions = []; ack = accepted tt }
leave_group socket (c ∷ group_id) sockets =
    let left = change_socket socket.id (without_room (room_for (c ∷ group_id))) sockets in
    record {
      sockets = left;
      emissions = broadcast_presence (c ∷ group_id) none left ∷ [];
      ack = accepted tt;
    }

-- relayTyping(): to the room, less the sender.
abbrev pub is_blank : Text → Bool
is_blank [] = true
is_blank (c ∷ t) = false

unfoldable pub relay_typing : Socket → (group_id : Text) → Bool → List Socket → List Emission
relay_typing socket group_id typing sockets =
    if is_blank group_id || not (is_in (room_for group_id) socket)
    then []
    else emit_to (room_for group_id) (user_typing group_id socket.user_id typing)
        (keep (λ s. not (s.id == socket.id)) sockets)
      ∷ []

-- sendMessage(): the outcome of the write, and the acknowledgement.
abbrev message_content_max_length : ℕ
message_content_max_length = 4000

abbrev pub is_sendable : Text → Bool
is_sendable content =
    not (is_blank content) && not (ltb message_content_max_length (length content))

abbrev pub no_write : Db → Ack Message → Db × List Event × Result (Ack Message)
no_write db ack = (db, [], ok ack)

abbrev pub acked : Result Message → Result (Ack Message)
acked (ok m) = ok (accepted m)
acked (err e) = err e

abbrev pub written : Outcome Message → Db × List Event × Result (Ack Message)
written o = (o.db, o.events, acked o.result)

abbrev pub send_checked :
    {A : Type 0} → Db → Outcome Message → Result A → Db × List Event × Result (Ack Message)
send_checked db outcome (err e) = no_write db (refusal e)
send_checked db outcome (ok member) = written outcome

unfoldable pub send_message :
    (id now user_id : ℕ) → RequestId → Text → Db → Db × List Event × Result (Ack Message)
send_message id now user_id group_id body db =
    let content = trim body in
    if not (is_sendable content)
    then no_write db (refused (codes "Message must be 1–4000 characters"))
    else send_checked db (create id now group_id user_id content db)
        (assert_member user_id group_id db)
