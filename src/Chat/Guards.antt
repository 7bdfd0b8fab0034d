-- ===== src/Chat/Guards.antt =====
-- What the inbound handlers let through: membership, and the bounds of a message.
use internship_project.Base.{
  ℕ, ◌≤◌, ◌≡◌, ◌≢◌, refl, ◌⊎◌, inl, inr, true, arith, List, [], ◌∷◌, none, some, Text, Bool-cases,
  Option-cases, length, trim,
}
use mathlib.Core.Bool.{false≢true}
use internship_project.Http.{ok, err, ok-injective}
use internship_project.Schema.{GroupMember, Message, Db}
use internship_project.Uuid.{is_uuid}
use internship_project.Events.{RequestId}
use internship_project.Groups.{find_membership, assert_member, not_a_member}
use internship_project.Messages.{create}
use internship_project.Chat.{
  Socket, accepted, refused, is_sendable, join_group, send_message, change_socket, with_room,
  room_for, broadcast_presence,
}

-- A membership of the user in the group that a request names.
abbrev pub IsMember : ℕ → RequestId → Db → Type 0
IsMember user_id group_id db =
    (is_uuid group_id.raw ≡ true)
    × ((m : GroupMember) × (find_membership group_id.value user_id db ≡ some m))

assert_member-decides :
    (user_id : ℕ) (group_id : RequestId) (db : Db)
    → (IsMember user_id group_id db
        × ((m : GroupMember) × (assert_member user_id group_id db ≡ ok m)))
      ⊎ (assert_member user_id group_id db ≡ err not_a_member)
unfolding assert_member
assert_member-decides user_id group_id db = elim (Bool-cases (is_uuid group_id.raw)) [
  | inr e ↦ inr (rw e refl)
  | inl e ↦ elim (Option-cases (find_membership group_id.value user_id db)) [
    | inl f ↦ inr (rw (e, f) refl)
    | inr (m, f) ↦ inl ((e, (m, f)), (m, rw (e, f) refl))
  ]
]

-- join_group either adds the room to the caller's socket, tells the room its presence and accepts,
-- and then the caller is a member of the group; or it refuses and changes and sends nothing.
pub join_group-guards :
    (socket : Socket) (user_id : ℕ) (group_id : RequestId) (db : Db) (sockets : List Socket)
    → let h = join_group socket user_id group_id db sockets in
      (IsMember user_id group_id db
        × (h.ack ≡ accepted tt)
        × (h.sockets ≡ change_socket socket.id (with_room (room_for group_id.raw)) sockets)
        × (h.emissions ≡ broadcast_presence group_id.raw none h.sockets ∷ []))
      ⊎ ((h.ack ≢ accepted tt) × (h.sockets ≡ sockets) × (h.emissions ≡ []))
unfolding join_group
join_group-guards socket user_id group_id db sockets =
    elim (assert_member-decides user_id group_id db) [
      | inl (is, (m, e)) ↦ inl (is, rw e refl, rw e refl, rw e refl)
      | inr e ↦ inr (rw e (λ x. cc), rw e refl, rw e refl)
    ]

is_sendable-bounds : (t : Text) → is_sendable t ≡ true → (1 ≤ length t) × (length t ≤ 4000)
is_sendable-bounds [] e = absurd (false≢true e)
is_sendable-bounds (c ∷ t) e = ground arith

refused≢accepted : {A : Type 0} {t : Text} {a : A} → refused t ≢ accepted a
refused≢accepted e = cc

-- send_message writes and announces a message only for a member, and then its text is the trimmed
-- body with 1 to 4000 code units, and the effect is exactly that of MessagesService.create; in
-- every other case it leaves the database alone, emits nothing and does not accept.
pub send_message-guards :
    (id now user_id : ℕ) (group_id : RequestId) (body : Text) (db : Db)
    → let (db', events, ack) = send_message id now user_id group_id body db in
      let o = create id now group_id user_id (trim body) db in
      (IsMember user_id group_id db
        × (1 ≤ length (trim body))
        × (length (trim body) ≤ 4000)
        × (db' ≡ o.db)
        × (events ≡ o.events))
      ⊎ ((db' ≡ db) × (events ≡ []) × ((m : Message) → ack ≢ ok (accepted m)))
unfolding send_message
send_message-guards id now user_id group_id body db = elim (Bool-cases (is_sendable (trim body))) [
  | inr e ↦ inr (rw e refl, rw e refl, rw e (λ m x. absurd (refused≢accepted (ok-injective x))))
  | inl e ↦ elim (assert_member-decides user_id group_id db) [
    | inr f ↦ inr (
      rw (e, f) refl,
      rw (e, f) refl,
      rw (e, f) (λ m x. absurd (refused≢accepted (ok-injective x))),
    )
    | inl (is, (m, f)) ↦
        let (low, high) = is_sendable-bounds (trim body) e in
        inl (is, low, high, rw (e, f) refl, rw (e, f) refl)
  ]
]
