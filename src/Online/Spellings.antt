-- ===== src/Online/Spellings.antt =====
-- One group under two spellings of its id: the room that a socket has joined under the one, and a
-- departure over HTTP under the other.
use internship_project.Base.{
  ℕ, ◌≡◌, ◌≢◌, refl, ◌∙◌, true, List, [], ◌∷◌, none, some, Text, any, Has, Has-map, arith, ==_refl,
}
use internship_project.Schema.{Message, GroupMember, member, Db}
use internship_project.Events.{RequestId, Event, message_created}
use internship_project.Groups.{find_membership, leave}
use internship_project.Chat.{Socket, is_in, room_for}
use internship_project.Chat.Broadcast.{evict_socket, evict, on_event}
use internship_project.Chat.Rooms.{evict_socket-other, room_for-injective}
use internship_project.Client.Roster.{IsTable}
use internship_project.Client.Roster.Rows.{find-deleted}
use internship_project.Online.{reaches_socket}
use internship_project.Online.Follows.{listed}

-- The sockets after the handlers of several events.
unfoldable pub on_events : (spell : ℕ → Text) → List Event → List Socket → List Socket
on_events spell [] sockets = sockets
on_events spell (e ∷ es) sockets = on_events spell es (on_event spell e sockets).0

-- A room is named by the id as the request spelled it, and the events of messages by the spelling of
-- the database. When a user whose role is MEMBER leaves with a request that spells the group's id in
-- another way, the row of the membership is gone, and a socket of that user, or of anybody else, that
-- is in the room of the database's spelling stays in it: it is sent a message of the group that is
-- created after that. In the table ids are distinct and no user has two rows in a group.
pub leave-spelling :
    (spell : ℕ → Text) (at : RequestId) (user_id : ℕ) (db : Db) (me : GroupMember)
    (sockets : List Socket) (s : Socket) (m : Message)
    → IsTable db.members
    → find_membership at.value user_id db ≡ some me
    → me.role ≡ member
    → at.raw ≢ spell at.value
    → m.group_id ≡ at.value
    → Has s sockets
    → is_in (room_for (spell at.value)) s ≡ true
    → let o = leave user_id at db in
      let told = on_event spell (message_created m) (on_events spell o.events sockets) in
      (find_membership at.value user_id o.db ≡ none)
      × (any (λ e. reaches_socket e s.id) told.1 ≡ true)
unfolding leave on_events on_event evict
leave-spelling spell at user_id db me sockets s m table found role apart here i into =
    let room = room_for (spell at.value) in
    let kept =
      evict_socket-other (room_for at.raw) room user_id s (λ e. apart (room_for-injective e)) in
    let evict_id : (evict_socket (room_for at.raw) user_id s).id ≡ s.id = ground arith in
    let reached =
      listed (spell at.value) (evict_socket (room_for at.raw) user_id s) _
        (Has-map (evict_socket (room_for at.raw) user_id) s sockets i) (kept ∙ into) in
    (
      rw (found, role)
          (find-deleted db table at.value user_id me found at.value user_id
            ∙ rw (==_refl at.value, ==_refl user_id) refl),
      rw (found, role, here) (ground (arith, reached, evict_id)),
    )
