-- ===== src/Chat/Broadcast.antt =====
-- The gateway's @OnEvent handlers, and what handleConnection does when a socket goes.
use internship_project.Base.{
  ℕ, Bool, false, ◌&&◌, List, [], ◌∷◌, ◌++◌, map, Option, none, some, Text, ◌==◌, if◌then◌else◌,
}
use internship_project.Events.{
  Event, member_joined, member_left, owner_changed, read_marked, message_created, message_updated,
  reaction_changed,
}
use internship_project.Chat.{
  room_for, group_id_from_room, Socket, is_in, Payload, new_message, updated_message, other_event,
  Emission, emit_to, broadcast_presence, without_room,
}

-- `userId === payload.userId`
abbrev pub is_user : ℕ → Option ℕ → Bool
is_user user_id none = false
is_user user_id (some id) = id == user_id

-- The loop of broadcastMemberLeft() over the room's sockets.
abbrev pub evict_socket : Text → ℕ → Socket → Socket
evict_socket room user_id s =
    if is_in room s && is_user user_id s.user_id then without_room room s else s

unfoldable pub evict : Text → ℕ → List Socket → List Socket
evict room user_id sockets = map (evict_socket room user_id) sockets

-- The sockets after a handler, and what it emitted.
abbrev just : Text → Payload → List Socket → List Socket × List Emission
just group_id payload sockets = (sockets, emit_to (room_for group_id) payload sockets ∷ [])

-- The handlers, for the events of the services; `spell` is the spelling of a stored id.
unfoldable pub on_event : (spell : ℕ → Text) → Event → List Socket → List Socket × List Emission
unfolding evict
on_event spell (message_created m) sockets = just (spell m.group_id) (new_message m) sockets
on_event spell (message_updated m) sockets = just (spell m.group_id) (updated_message m) sockets
on_event spell (member_joined g m) sockets = just g.raw (other_event (member_joined g m)) sockets
on_event spell (member_left g u) sockets =
    let room = room_for g.raw in
    let left = evict room u sockets in
    (
      left,
      emit_to room (other_event (member_left g u)) sockets
          ∷ broadcast_presence g.raw none left
          ∷ [],
    )
on_event spell (owner_changed g p n) sockets =
    just g.raw (other_event (owner_changed g p n)) sockets
on_event spell (reaction_changed g m rs) sockets =
    just g.raw (other_event (reaction_changed g m rs)) sockets
on_event spell (read_marked g u t) sockets = just g.raw (other_event (read_marked g u t)) sockets

-- 'disconnecting': the presence of every group room that the socket was in, without it; an empty
-- id is falsy.
abbrev pub room_presence : ℕ → List Socket → Option Text → List Emission
room_presence id sockets none = []
room_presence id sockets (some []) = []
room_presence id sockets (some (c ∷ group_id)) =
    broadcast_presence (c ∷ group_id) (some id) sockets ∷ []

abbrev pub rooms_presence : ℕ → List Socket → List Text → List Emission
rooms_presence id sockets [] = []
rooms_presence id sockets (r ∷ rs) =
    room_presence id sockets (group_id_from_room r) ++ rooms_presence id sockets rs

unfoldable pub on_disconnecting : Socket → List Socket → List Emission
on_disconnecting socket sockets = rooms_presence socket.id sockets socket.rooms
