-- ===== src/Chat/Rooms.antt =====
-- Rooms: the name of a group's room, and whom broadcastMemberLeft() takes out of it.
use internship_project.Base.{
  ℕ, ◌≡◌, ◌≢◌, refl, sym, subst, ◌∙◌, ◌↔◌, inl, inr, true, false, not, ◌&&◌, arith, List, [], ◌∷◌,
  ◌++◌, map, some, Text, text_eq, text_eq_iff, Bool-cases, ◌==◌, ==_refl, ==_iff, ap₂, any, keep,
  All,
}
use mathlib.Core.Bool.{false≢true}
use internship_project.Events.{RequestId, member_left}
use internship_project.Chat.{room_prefix, room_for, after_prefix, group_id_from_room, Socket, is_in}
use internship_project.Chat.Broadcast.{is_user, evict_socket, evict, on_event}

after_prefix-append : (p t : Text) → after_prefix p (p ++ t) ≡ some t
after_prefix-append [] t = refl
after_prefix-append (c ∷ p) t = rw (==_refl c) (after_prefix-append p t)

append-after_prefix : (p r t : Text) → after_prefix p r ≡ some t → r ≡ p ++ t
append-after_prefix [] r t e = cc
append-after_prefix (c ∷ p) [] t e = cc
append-after_prefix (c ∷ p) (d ∷ r) t e = elim (Bool-cases (c == d)) [
  | inl h ↦ ap₂ (λ x y. x ∷ y) (sym ((==_iff c d).0 h)) (append-after_prefix p r t (rw h at e))
  | inr h ↦ absurd (cc (rw h at e))
]

-- groupIdFromRoom() and roomFor() invert each other: a room yields an id exactly when it is the
-- room of that id, and so a socket's own private room yields none.
pub group_id_from_room_iff :
    (room group_id : Text) → (group_id_from_room room ≡ some group_id) ↔ (room ≡ room_for group_id)
unfolding group_id_from_room
group_id_from_room_iff room group_id = (
  append-after_prefix room_prefix room group_id,
  λ e.
      subst (λ r. after_prefix room_prefix r ≡ some group_id) (sym e)
        (after_prefix-append room_prefix group_id),
)

pub text_eq_of_ne : (s t : Text) → s ≢ t → text_eq s t ≡ false
text_eq_of_ne s t h = elim (Bool-cases (text_eq s t)) [
  | inl e ↦ absurd (h ((text_eq_iff s t).0 e))
  | inr e ↦ e
]

-- The room goes, and the other rooms stay.
any-without :
    (room : Text) (rs : List Text)
    → any (text_eq room) (keep (λ r. not (text_eq room r)) rs) ≡ false
any-without room [] = refl
any-without room (r ∷ rs) = elim (Bool-cases (text_eq room r)) [
  | inl e ↦ rw e (any-without room rs)
  | inr e ↦ rw (e, e) (any-without room rs)
]

pub any-without_other :
    (room other : Text) (rs : List Text)
    → room ≢ other
    → any (text_eq other) (keep (λ r. not (text_eq room r)) rs) ≡ any (text_eq other) rs
any-without_other room other [] h = refl
any-without_other room other (r ∷ rs) h = elim (Bool-cases (text_eq room r)) [
  | inl e ↦
      rw (e, text_eq_of_ne other r (λ d. h ((text_eq_iff room r).0 e ∙ sym d)))
        (any-without_other room other rs h)
  | inr e ↦ rw (e, any-without_other room other rs h) refl
]

-- A socket that the user no longer has in the room, and one that is as it was.
abbrev pub IsEvicted : Text → ℕ → Socket → Type 0
IsEvicted room user_id s = is_user user_id s.user_id ≡ true → is_in room s ≡ false

evict_socket-IsEvicted :
    (room : Text) (user_id : ℕ) (s : Socket) → IsEvicted room user_id (evict_socket room user_id s)
evict_socket-IsEvicted room user_id s = elim (Bool-cases (is_in room s)) [
  | inr e ↦ rw e (λ _. e)
  | inl e ↦ elim (Bool-cases (is_user user_id s.user_id)) [
    | inl f ↦ rw (e, f) (λ _. any-without room s.rooms)
    | inr f ↦ rw (e, f) (λ g. absurd (false≢true (sym f ∙ g)))
  ]
]

pub evict_socket-other :
    (room other : Text) (user_id : ℕ) (s : Socket)
    → room ≢ other
    → is_in other (evict_socket room user_id s) ≡ is_in other s
evict_socket-other room other user_id s h =
    elim (Bool-cases (is_in room s && is_user user_id s.user_id)) [
      | inl e ↦ rw e (any-without_other room other s.rooms h)
      | inr e ↦ rw e refl
    ]

evict_socket-user :
    (room : Text) (user_id : ℕ) (s : Socket)
    → is_user user_id s.user_id ≡ false
    → evict_socket room user_id s ≡ s
evict_socket-user room user_id s h = ground (arith, h)

evict-IsEvicted :
    (room : Text) (user_id : ℕ) (sockets : List Socket)
    → All (IsEvicted room user_id) (evict room user_id sockets)
unfolding evict
evict-IsEvicted room user_id [] = tt
evict-IsEvicted room user_id (s ∷ ss) =
    (evict_socket-IsEvicted room user_id s, evict-IsEvicted room user_id ss)

pub evict_socket-user_id :
    (room : Text) (user_id : ℕ) (s : Socket) → (evict_socket room user_id s).user_id ≡ s.user_id
evict_socket-user_id room user_id s =
    elim (Bool-cases (is_in room s && is_user user_id s.user_id)) [
      | inl e ↦ rw e refl
      | inr e ↦ rw e refl
    ]

evict-others :
    (room : Text) (user_id : ℕ) (sockets : List Socket)
    → keep (λ s. not (is_user user_id s.user_id)) (evict room user_id sockets)
      ≡ keep (λ s. not (is_user user_id s.user_id)) sockets
unfolding evict
evict-others room user_id [] = refl
evict-others room user_id (s ∷ ss) = elim (Bool-cases (is_user user_id s.user_id)) [
  | inl e ↦ rw (evict_socket-user_id room user_id s, e) (evict-others room user_id ss)
  | inr e ↦ rw (evict_socket-user room user_id s e, e, evict-others room user_id ss) refl
]

evict-other_rooms :
    (room other : Text) (user_id : ℕ) (sockets : List Socket)
    → room ≢ other
    → map (is_in other) (evict room user_id sockets) ≡ map (is_in other) sockets
unfolding evict
evict-other_rooms room other user_id [] h = refl
evict-other_rooms room other user_id (s ∷ ss) h =
    ap₂ (λ b bs. b ∷ bs) (evict_socket-other room other user_id s h)
      (evict-other_rooms room other user_id ss h)

pub room_for-injective : {s t : Text} → room_for s ≡ room_for t → s ≡ t
room_for-injective e = cc

-- When a member has left, no socket of that user is in the room any more that the event names;
-- each other user's sockets are as they were, and so is each other room of the user's sockets.
pub on_event-member_left :
    (spell : ℕ → Text) (group_id : RequestId) (user_id : ℕ) (sockets : List Socket)
    → All
        (IsEvicted (room_for group_id.raw) user_id)
        (on_event spell (member_left group_id user_id) sockets).0
      × (keep
            (λ s. not (is_user user_id s.user_id))
            (on_event spell (member_left group_id user_id) sockets).0
          ≡ keep (λ s. not (is_user user_id s.user_id)) sockets)
      × ((other : Text)
          → room_for group_id.raw ≢ other
          → map (is_in other) (on_event spell (member_left group_id user_id) sockets).0
            ≡ map (is_in other) sockets)
unfolding on_event
on_event-member_left spell group_id user_id sockets =
    let room = room_for group_id.raw in
    (
      evict-IsEvicted room user_id sockets,
      evict-others room user_id sockets,
      λ other h. evict-other_rooms room other user_id sockets h,
    )
