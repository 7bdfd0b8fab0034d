-- ===== src/Online/Departures.antt =====
-- What a page in a group's room shows when a socket goes.
use internship_project.Base.{
  ℕ, ◌≡◌, ◌≢◌, refl, sym, ap, ◌∙◌, inl, inr, Bool, true, false, not, List, [], ◌∷◌, none, some,
  Text, text_eq, text_eq_iff, subst, Bool-cases, Option-cases, ◌==◌, if◌then◌else◌, any, keep, All,
  Has,
}
use mathlib.Core.Bool.{false≢true}
use internship_project.Chat.{
  Socket, is_in, room_for, group_id_from_room, is_excluded, user_ids_of, unique, present_users,
  broadcast_presence,
}
use internship_project.Chat.Broadcast.{rooms_presence}
use internship_project.Chat.Rooms.{room_for-injective, group_id_from_room_iff, text_eq_of_ne}
use internship_project.Online.{deliver, deliver_all}
use internship_project.Online.Follows.{announced, unheard}

abbrev pub is_not : ℕ → Socket → Bool
is_not id s = not (s.id == id)

-- The list of presence without a socket is that of the others.
pub present_users-gone :
    (room : Text) (id : ℕ) (sockets : List Socket)
    → present_users room (some id) sockets ≡ present_users room none (keep (is_not id) sockets)
unfolding present_users
present_users-gone room id sockets = ap (λ ss. unique (user_ids_of ss)) (swapped sockets)
  where
    swapped :
        (ss : List Socket)
        → keep (λ s. not (is_excluded (some id) s)) (keep (is_in room) ss)
          ≡ keep (λ s. not (is_excluded none s)) (keep (is_in room) (keep (is_not id) ss))
    swapped [] = refl
    swapped (s ∷ ss) = elim (Bool-cases (is_in room s)) [
      | inl e ↦ elim (Bool-cases (s.id == id)) [
        | inl f ↦ rw (e, f) (swapped ss)
        | inr f ↦ rw (e, f, e) (ap (◌∷◌ s) (swapped ss))
      ]
      | inr e ↦ elim (Bool-cases (s.id == id)) [
        | inl f ↦ rw (e, f) (swapped ss)
        | inr f ↦ rw (e, f, e) (swapped ss)
      ]
    ]

pub present_users-outside :
    (room : Text) (id : ℕ) (sockets : List Socket)
    → All (λ s. (s.id == id) ≡ true → is_in room s ≡ false) sockets
    → present_users room none (keep (is_not id) sockets) ≡ present_users room none sockets
unfolding present_users
present_users-outside room id sockets h =
    ap (λ ss. unique (user_ids_of (keep (λ s. not (is_excluded none s)) ss))) (same sockets h)
  where
    same :
        (ss : List Socket)
        → All (λ s. (s.id == id) ≡ true → is_in room s ≡ false) ss
        → keep (is_in room) (keep (is_not id) ss) ≡ keep (is_in room) ss
    same [] h = refl
    same (s ∷ ss) (h, hs) = elim (Bool-cases (s.id == id)) [
      | inl e ↦ rw (e, h e) (same ss hs)
      | inr e ↦ elim (Bool-cases (is_in room s)) [
        | inl f ↦ rw (e, f) (ap (◌∷◌ s) (same ss hs))
        | inr f ↦ rw (e, f) (same ss hs)
      ]
    ]

settled : {A : Type 0} {x y : A} (b : Bool) → x ≡ y → (if b then y else x) ≡ y
settled true e = refl
settled false e = e

-- The news of a departure, as a page of the group hears them.
module _ (group_id : Text) (named : group_id ≢ []) (id : ℕ) (sockets : List Socket) (t : Socket)
    (listed : Has t sockets) (into : is_in (room_for group_id) t ≡ true) where
  abbrev pub heard : List Text → (ℕ → List ℕ) → List ℕ
  heard rooms online =
      if any (text_eq (room_for group_id)) rooms
      then present_users (room_for group_id) (some id) sockets
      else online t.id

  other_room : (r : Text) → r ≢ room_for group_id → text_eq (room_for group_id) r ≡ false
  other_room r h = text_eq_of_ne (room_for group_id) r (λ e. h (sym e))

  pub deliver_all-rooms_presence :
      (rooms : List Text) (online : ℕ → List ℕ)
      → deliver_all group_id (rooms_presence id sockets rooms) online t.id ≡ heard rooms online
  unfolding deliver_all
  deliver_all-rooms_presence [] online = refl
  deliver_all-rooms_presence (r ∷ rooms) online = elim (Option-cases (group_id_from_room r)) [
    | inl e ↦
        let apart : r ≢ room_for group_id =
          λ d. cc (sym e ∙ (group_id_from_room_iff r group_id).1 d) in
        rw (e, other_room r apart) (deliver_all-rooms_presence rooms online)
    | inr ([], e) ↦
        let apart : r ≢ room_for group_id =
          λ d. named (room_for-injective (sym d ∙ (group_id_from_room_iff r []).0 e)) in
        rw (e, other_room r apart) (deliver_all-rooms_presence rooms online)
    | inr (c ∷ told, e) ↦ elim (Bool-cases (text_eq (c ∷ told) group_id)) [
      | inl same ↦
          let it : c ∷ told ≡ group_id = (text_eq_iff (c ∷ told) group_id).0 same in
          let hit : text_eq (room_for group_id) r ≡ true =
            (text_eq_iff (room_for group_id) r).1
              (ap room_for (sym it) ∙ sym ((group_id_from_room_iff r (c ∷ told)).0 e)) in
          let news =
            subst
              (λ g.
                deliver group_id (broadcast_presence g (some id) sockets) online t.id
                ≡ present_users (room_for group_id) (some id) sockets)
              (sym it) (announced group_id (some id) sockets online t listed into) in
          rw (e, hit)
            (deliver_all-rooms_presence rooms _
              ∙ settled (any (text_eq (room_for group_id)) rooms) news)
      | inr other ↦
          let apart : r ≢ room_for group_id = λ d. absurd (
            false≢true (
              sym other
              ∙ (text_eq_iff (c ∷ told) group_id).1
                  (room_for-injective (sym ((group_id_from_room_iff r (c ∷ told)).0 e) ∙ d)))) in
          rw (e, other_room r apart)
            (deliver_all-rooms_presence rooms _
              ∙ ap
                  (λ x.
                    if any (text_eq (room_for group_id)) rooms
                    then present_users (room_for group_id) (some id) sockets
                    else x)
                  (unheard group_id (c ∷ told) (some id) sockets online t.id other))
    ]
  ]
