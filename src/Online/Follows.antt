-- ===== src/Online/Follows.antt =====
-- A page in a group's room shows the users whose sockets are in it.
use internship_project.Base.{
  ℕ, ◌≡◌, ◌≢◌, refl, sym, ap, ◌∙◌, inl, inr, true, false, not, arith, List, [], ◌∷◌, ◌++◌, map,
  Option, none, Text, text_eq, text_eq_refl, text_eq_iff, Bool-cases, ◌==◌, ==_refl, if◌then◌else◌,
  any, keep, All, All-of_Has, Has,
}
use internship_project.Chat.{
  Socket, socket_id, is_in, room_for, fetch_sockets, is_excluded, user_ids_of, unique,
  present_users, broadcast_presence, with_room, without_room,
}
use mathlib.Core.Bool.{false≢true}
use internship_project.Chat.Broadcast.{evict_socket}
use internship_project.Chat.Rooms.{
  any-without_other, evict_socket-other, evict_socket-user_id, room_for-injective, text_eq_of_ne,
}
use internship_project.Online.{deliver}

All-of_mapped :
    {P : Socket → Type 0} (Q : Socket → Type 0) (f : Socket → Socket) (ss : List Socket)
    → ((s : Socket) → P s → Q (f s))
    → All P ss
    → All Q (map f ss)
All-of_mapped Q f [] h a = tt
All-of_mapped Q f (s ∷ ss) h (p, ps) = (h s p, All-of_mapped Q f ss h ps)

module _ (group_id : Text) where
  abbrev pub IsFollowed : List Socket → (ℕ → List ℕ) → Type 0
  IsFollowed sockets online =
      All
        (λ s.
          is_in (room_for group_id) s ≡ true
          → online s.id ≡ present_users (room_for group_id) none sockets)
        sockets

  pub listed :
      (s : Socket) (sockets : List Socket)
      → Has s sockets
      → is_in (room_for group_id) s ≡ true
      → any (λ i. i == s.id) (map socket_id (fetch_sockets (room_for group_id) sockets)) ≡ true
  listed s [] i e = absurd i
  listed s (t ∷ ts) (inl k) e = rw (← k, e, ==_refl s.id) refl
  listed s (t ∷ ts) (inr i) e = elim (Bool-cases (is_in (room_for group_id) t)) [
    | inl f ↦ rw f (ground (arith, listed s ts i e))
    | inr f ↦ rw f (listed s ts i e)
  ]

  pub announced :
      (exclude : Option ℕ) (sockets : List Socket) (online : ℕ → List ℕ) (s : Socket)
      → Has s sockets
      → is_in (room_for group_id) s ≡ true
      → deliver group_id (broadcast_presence group_id exclude sockets) online s.id
        ≡ present_users (room_for group_id) exclude sockets
  unfolding deliver
  announced exclude sockets online s i e = rw (listed s sockets i e, text_eq_refl group_id) refl

  pub unheard :
      (told : Text) (exclude : Option ℕ) (sockets : List Socket) (online : ℕ → List ℕ) (id : ℕ)
      → text_eq told group_id ≡ false
      → deliver group_id (broadcast_presence told exclude sockets) online id ≡ online id
  unfolding deliver
  unheard told exclude sockets online id e = rw e (ground arith)

  -- Sockets that stay in the room, or out of it, and keep their users.
  present_users-map :
      (f : Socket → Socket) (sockets : List Socket)
      → ((s : Socket) → is_in (room_for group_id) (f s) ≡ is_in (room_for group_id) s)
      → ((s : Socket) → (f s).user_id ≡ s.user_id)
      → present_users (room_for group_id) none (map f sockets)
        ≡ present_users (room_for group_id) none sockets
  unfolding present_users
  present_users-map f sockets stays same = ap unique (ids sockets)
    where
      ids :
          (ss : List Socket)
          → user_ids_of
              (keep (λ s. not (is_excluded none s)) (fetch_sockets (room_for group_id) (map f ss)))
            ≡ user_ids_of
                (keep (λ s. not (is_excluded none s)) (fetch_sockets (room_for group_id) ss))
      ids [] = refl
      ids (s ∷ ss) = elim (Bool-cases (is_in (room_for group_id) s)) [
        | inl e ↦ rw (stays s, e, same s, ids ss) refl
        | inr e ↦ rw (stays s, e) (ids ss)
      ]

  -- A change of the sockets that concerns one room, and that room's presence after it.
  pub record Concerns (room : Text) (f : Socket → Socket) : Type 0 where
    pub id_is : (s : Socket) → (f s).id ≡ s.id
    pub user_is : (s : Socket) → (f s).user_id ≡ s.user_id
    pub elsewhere : (other : Text) (s : Socket) → room ≢ other → is_in other (f s) ≡ is_in other s

  pub IsFollowed-changed :
      (told : Text) (f : Socket → Socket) (sockets : List Socket) (online : ℕ → List ℕ)
      → Concerns (room_for told) f
      → IsFollowed sockets online
      → IsFollowed
          (map f sockets)
          (deliver group_id (broadcast_presence told none (map f sockets)) online)
  IsFollowed-changed told f sockets online c follows = elim (Bool-cases (text_eq told group_id)) [
    | inl e ↦
        let same : group_id ≡ told = sym ((text_eq_iff told group_id).0 e) in
        All-of_Has _ (map f sockets)
          (λ s i into. rw (← same) (announced none (map f sockets) online s i into))
    | inr e ↦
        let apart : room_for told ≢ room_for group_id =
          λ d. absurd (false≢true (sym e ∙ (text_eq_iff told group_id).1 (room_for-injective d))) in
        let stays = λ (s : Socket). c.elsewhere (room_for group_id) s apart in
        let online' = present_users-map f sockets stays c.user_is in
        All-of_mapped _ f sockets
          (λ s h into.
            unheard told none (map f sockets) online (f s).id e
            ∙ ap online (c.id_is s)
            ∙ h (sym (stays s) ∙ into)
            ∙ sym online')
          follows
  ]

  -- What the gateway does with a socket's rooms.
  added_room :
      (other room : Text) (rs : List Text)
      → text_eq other room ≡ false
      → any (text_eq other) (rs ++ room ∷ []) ≡ any (text_eq other) rs
  added_room other room [] e = rw e refl
  added_room other room (r ∷ rs) e = rw (added_room other room rs e) refl

  pub with_room-Concerns :
      (id : ℕ) (room : Text) → Concerns room (λ s. if s.id == id then with_room room s else s)
  with_room-Concerns id room = record {
    id_is = λ s. ground arith;
    user_is = λ s. ground arith;
    elsewhere = λ other s h. elim (Bool-cases (s.id == id)) [
      | inr e ↦ rw e refl
      | inl e ↦ elim (Bool-cases (is_in room s)) [
        | inl f ↦ rw (e, f) refl
        | inr f ↦
            rw (e, f) (added_room other room s.rooms (text_eq_of_ne other room (λ d. h (sym d))))
      ]
    ];
  }

  pub without_room-Concerns :
      (id : ℕ) (room : Text) → Concerns room (λ s. if s.id == id then without_room room s else s)
  without_room-Concerns id room = record {
    id_is = λ s. ground arith;
    user_is = λ s. ground arith;
    elsewhere = λ other s h. elim (Bool-cases (s.id == id)) [
      | inr e ↦ rw e refl
      | inl e ↦ rw e (any-without_other room other s.rooms h)
    ];
  }

  pub evict_socket-Concerns :
      (room : Text) (user_id : ℕ) → Concerns room (evict_socket room user_id)
  evict_socket-Concerns room user_id = record {
    id_is = λ s. ground arith;
    user_is = evict_socket-user_id room user_id;
    elsewhere = λ other s h. evict_socket-other room other user_id s h;
  }
