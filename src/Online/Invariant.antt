-- ===== src/Online/Invariant.antt =====
-- The steps of the gateway, and the pages that listen.
use internship_project.Base.{
  count, indicator, ◌&&◌, ℕ, ◌≡◌, ◌≢◌, refl, sym, ap, ◌∙◌, inl, inr, true, false, arith, List, [],
  ◌∷◌, map, none, some, Text, text_eq, Bool-cases, ◌==◌, if◌then◌else◌, any, keep, All, All-map,
  All-Has, All-of_Has, All-keep_if, Has, Distinct, Distinct-map, Distinct-keep, eq_of_key, ==_iff,
}
use mathlib.Core.Bool.{false≢true}
use internship_project.Http.{Result, ok, err}
use internship_project.Schema.{GroupMember}
use internship_project.Events.{
  Event, member_joined, member_left, owner_changed, read_marked, message_created, message_updated,
  reaction_changed,
}
use internship_project.Chat.{
  Socket, socket_id, is_in, room_for, Payload, new_message, updated_message, other_event, Emission,
  join_checked, join_group, leave_group, present_users, broadcast_presence, emit_to,
}
use internship_project.Chat.Broadcast.{is_user, evict, on_event, on_disconnecting}
use internship_project.Chat.Presence.{count-present_users}
use internship_project.Online.{
  deliver, deliver_all, on_presence, World, after, Step, connected, joined, left, happened,
  disconnected, Reaches, here, next, nobody,
}
use internship_project.Online.Follows.{
  IsFollowed, IsFollowed-changed, Concerns, with_room-Concerns, without_room-Concerns,
  evict_socket-Concerns,
}
use internship_project.Online.Departures.{
  is_not, present_users-gone, present_users-outside, deliver_all-rooms_presence,
}

module _ (spell : ℕ → Text) (group_id : Text) (named : group_id ≢ []) where
  record IsSound (w : World) : Type 0 where
    distinct : Distinct socket_id w.sockets
    follows : IsFollowed group_id w.sockets w.online

  abbrev FollowsAt : World → Socket → Type 0
  FollowsAt w s =
      is_in (room_for group_id) s ≡ true
      → w.online s.id ≡ present_users (room_for group_id) none w.sockets

  -- News of another kind.
  unmoved :
      (e : Emission) (online : ℕ → List ℕ)
      → ((shown : List ℕ) → on_presence group_id e.payload shown ≡ shown)
      → (id : ℕ) → deliver group_id e online id ≡ online id
  unfolding deliver
  unmoved e online quiet id = rw (quiet (online id)) (ground arith)

  quiet-IsSound :
      (w : World) (room : Text) (p : Payload)
      → ((shown : List ℕ) → on_presence group_id p shown ≡ shown)
      → IsSound w
      → IsSound (record {
        sockets = w.sockets;
        online = deliver group_id (emit_to room p w.sockets) w.online;
      })
  quiet-IsSound w room p quiet i = record {
    distinct = i.distinct;
    follows =
        All-map (λ s h into. unmoved (emit_to room p w.sockets) w.online quiet s.id ∙ h into)
          w.sockets i.follows;
  }

  changed-IsSound :
      (w : World) (told : Text) (f : Socket → Socket)
      → Concerns group_id (room_for told) f
      → IsSound w
      → IsSound (record {
        sockets = map f w.sockets;
        online = deliver group_id (broadcast_presence told none (map f w.sockets)) w.online;
      })
  changed-IsSound w told f c i = record {
    distinct = Distinct-map socket_id f w.sockets c.id_is i.distinct;
    follows = IsFollowed-changed group_id told f w.sockets w.online c i.follows;
  }

  joined-IsSound :
      (w : World) (s : Socket) (told : Text) (r : Result GroupMember)
      → IsSound w
      → IsSound (
          after spell group_id
            (join_checked s told w.sockets r).sockets
            (join_checked s told w.sockets r).emissions
            w)
  unfolding deliver_all
  joined-IsSound w s told (err e) i = i
  joined-IsSound w s told (ok m) i =
      changed-IsSound w told _ (with_room-Concerns group_id s.id (room_for told)) i

  left-IsSound :
      (w : World) (s : Socket) (told : Text)
      → IsSound w
      → IsSound (
          after spell group_id
            (leave_group s told w.sockets).sockets
            (leave_group s told w.sockets).emissions
            w)
  unfolding deliver_all leave_group
  left-IsSound w s [] i = i
  left-IsSound w s (c ∷ told) i =
      changed-IsSound w (c ∷ told) _ (without_room-Concerns group_id s.id (room_for (c ∷ told))) i

  happened-IsSound :
      (w : World) (e : Event)
      → IsSound w
      → IsSound
          (after spell group_id (on_event spell e w.sockets).0 (on_event spell e w.sockets).1 w)
  unfolding deliver_all on_event on_presence evict
  happened-IsSound w (message_created m) i =
      quiet-IsSound w (room_for (spell m.group_id)) (new_message m) (λ shown. refl) i
  happened-IsSound w (message_updated m) i =
      quiet-IsSound w (room_for (spell m.group_id)) (updated_message m) (λ shown. refl) i
  happened-IsSound w (member_joined g m) i =
      quiet-IsSound w (room_for g.raw) (other_event (member_joined g m)) (λ shown. refl) i
  happened-IsSound w (owner_changed g p n) i =
      quiet-IsSound w (room_for g.raw) (other_event (owner_changed g p n)) (λ shown. refl) i
  happened-IsSound w (reaction_changed g m rs) i =
      quiet-IsSound w (room_for g.raw) (other_event (reaction_changed g m rs)) (λ shown. refl) i
  happened-IsSound w (read_marked g u t) i =
      quiet-IsSound w (room_for g.raw) (other_event (read_marked g u t)) (λ shown. refl) i
  happened-IsSound w (member_left g u) i =
      let news = emit_to (room_for g.raw) (other_event (member_left g u)) w.sockets in
      changed-IsSound (record { sockets = w.sockets; online = deliver group_id news w.online })
        g.raw _ (evict_socket-Concerns group_id (room_for g.raw) u)
        (quiet-IsSound w (room_for g.raw) (other_event (member_left g u)) (λ shown. refl) i)

  connected-IsSound :
      (w : World) (s : Socket)
      → s.rooms ≡ []
      → All (λ t. t.id ≢ s.id) w.sockets
      → IsSound w
      → IsSound (after spell group_id (s ∷ w.sockets) [] w)
  unfolding deliver_all present_users
  connected-IsSound w s bare fresh i =
      let outside : is_in (room_for group_id) s ≡ false = rw bare refl in
      let same : present_users (room_for group_id) none (s ∷ w.sockets)
          ≡ present_users (room_for group_id) none w.sockets =
        rw outside refl in
      record {
        distinct = (fresh, i.distinct);
        follows = (
          λ into. absurd (false≢true (sym outside ∙ into)),
          All-map (λ t h into. h into ∙ sym same) w.sockets i.follows,
        );
      }

  disconnected-IsSound :
      (w : World) (s : Socket)
      → Has s w.sockets
      → IsSound w
      → IsSound
          (after spell group_id (keep (is_not s.id) w.sockets) (on_disconnecting s w.sockets) w)
  unfolding on_disconnecting
  disconnected-IsSound w s listed i = record {
    distinct = Distinct-keep socket_id (is_not s.id) w.sockets i.distinct;
    follows =
        All-keep_if (is_not s.id)
          (λ t other m into.
            deliver_all-rooms_presence group_id named s.id w.sockets t m into s.rooms w.online
            ∙ settled t (All-Has (FollowsAt w) t w.sockets i.follows m into))
          w.sockets (All-of_Has (λ t. Has t w.sockets) w.sockets (λ t m. m));
  }
    where
      settled :
          (t : Socket)
          → w.online t.id ≡ present_users (room_for group_id) none w.sockets
          → (if any (text_eq (room_for group_id)) s.rooms
              then present_users (room_for group_id) (some s.id) w.sockets
              else w.online t.id)
            ≡ present_users (room_for group_id) none (keep (is_not s.id) w.sockets)
      settled t h = elim (Bool-cases (is_in (room_for group_id) s)) [
        | inl e ↦ rw e (present_users-gone (room_for group_id) s.id w.sockets)
        | inr e ↦
            let alone =
              All-of_Has (λ u. (u.id == s.id) ≡ true → is_in (room_for group_id) u ≡ false)
                w.sockets
                (λ u m same.
                  ap (is_in (room_for group_id)) (
                    eq_of_key socket_id u s w.sockets i.distinct m listed
                      ((==_iff u.id s.id).0 same))
                  ∙ e) in
            rw e (h ∙ sym (present_users-outside (room_for group_id) s.id w.sockets alone))
      ]

  Step-IsSound : {w v : World} → IsSound w → Step spell group_id w v → IsSound v
  unfolding join_group
  Step-IsSound {w} i (connected s bare fresh) = connected-IsSound w s bare fresh i
  Step-IsSound {w} i (joined s user_id told db) = joined-IsSound w s told.raw _ i
  Step-IsSound {w} i (left s told) = left-IsSound w s told i
  Step-IsSound {w} i (happened e) = happened-IsSound w e i
  Step-IsSound {w} i (disconnected s listed) = disconnected-IsSound w s listed i

  Reaches-IsSound : {w v : World} → IsSound w → Reaches spell group_id w v → IsSound v
  Reaches-IsSound i here = i
  Reaches-IsSound i (next r s) = Step-IsSound (Reaches-IsSound i r) s

-- However sockets connect, join rooms, leave them, are taken out of them by the departure of a
-- member, and disconnect, and whatever else the services tell: a tab whose socket is in the room of
-- a group lists a user as online exactly once if one of the connected sockets that are in that room
-- is of the user, and not at all otherwise. The group's id is not the empty text, at the start nobody
-- is connected, and what is emitted is heard at once.
pub Reaches-count :
    (spell : ℕ → Text) (group_id : Text) (w : World) (s : Socket) (user_id : ℕ)
    → group_id ≢ []
    → Reaches spell group_id nobody w
    → Has s w.sockets
    → is_in (room_for group_id) s ≡ true
    → count (λ id. id == user_id) (w.online s.id)
      ≡ indicator (any (λ t. is_in (room_for group_id) t && is_user user_id t.user_id) w.sockets)
Reaches-count spell group_id w s user_id named r listed into =
    let sound = Reaches-IsSound spell group_id named (record { distinct = tt; follows = tt }) r in
    ap (count (λ id. id == user_id))
      (All-Has (FollowsAt spell group_id named w) s w.sockets sound.follows listed into)
    ∙ count-present_users (room_for group_id) none w.sockets user_id
