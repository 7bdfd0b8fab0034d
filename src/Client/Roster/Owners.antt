-- ===== src/Client/Roster/Owners.antt =====
-- transferOwnership() and leave(), and the delivery of their events: the tab's member list stays that of
-- the group.
use internship_project.Base.{
  ℕ, ◌≡◌, refl, ◌∙◌, inl, inr, Bool, true, false, not, arith, List, [], ◌∷◌, map, Option, none,
  some, text_eq, ◌==◌, ==_refl, if◌then◌else◌, find, keep, keyed, unkeyed, find-map, map-find_id,
  any-of_keep, find-keep_same, any-absent, unkeyed-gone,
}
use mathlib.Core.Option as Opt
use internship_project.Schema.{owner, member, GroupMember}
use internship_project.Events.{RequestId, Outcome, member_left}
use internship_project.Cursor.{Platform, IsLawful}
use internship_project.Groups.{
  is_pair, member_id, group_id_of, set_role, find_membership, leave, transfer_ownership,
}
use internship_project.Groups.Effects.{Leaves, HandsOver, transfer-effect, leave-effect}
use internship_project.Client.{
  GroupCache, on_members, drop_member, flip_roles, with_members, deliver_all,
}
use internship_project.Client.World.{World, after}
use internship_project.Client.Roster.{IsSpelled}
use internship_project.Client.Roster.Rows.{IsTable-update, IsTable-keep, find-deleted}
use internship_project.Client.Roster.Roles.{flipped, swap_rows, hand_over_rows, found_successor}
use internship_project.Client.Roster.Changes.{IsRosterOf-drop, IsRosterOf-map}
use internship_project.Client.Roster.Steps.{
  IsSound, members-if, members-id, idle-IsSound, told-IsSound,
}

-- Two events, one after the other.
members-if_two :
    (b : Bool) (f g : List GroupMember → List GroupMember) (c : GroupCache)
    → (if b
        then with_members g (if b then with_members f c else c)
        else (if b then with_members f c else c)).members
      ≡ (if b then on_members (λ roster. g (f roster)) c.members else c.members)
members-if_two true f g c = composed c.members
  where
    composed :
        (o : Option (List GroupMember))
        → on_members g (on_members f o) ≡ on_members (λ roster. g (f roster)) o
    composed none = refl
    composed (some roster) = refl
members-if_two false f g c = refl

-- The rows of another group do not flip.
unflipped :
    (h g x y : ℕ) (u : ℕ) (members : List GroupMember)
    → (h == g) ≡ false
    → Opt.map (flipped (h == g) x y) (find (is_pair h u) members) ≡ find (is_pair h u) members
unflipped h g x y u members e = map-find_id (is_pair h u) _ members (λ m t. rw e refl)

module _ (p : Platform) (lawful : IsLawful p) (at : RequestId)
    (canonical : at.raw ≡ p.spell at.value) where
  pub transfer-IsSound :
      (caller_id : ℕ) (group_id : RequestId) (target_id : ℕ) (w : World)
      → IsSpelled p at group_id
      → IsSound at.value w
      → IsSound at.value (after p at w.cache (transfer_ownership caller_id group_id target_id w.db))
  unfolding deliver_all
  transfer-IsSound caller_id group_id target_id w spelled s =
      elim (transfer-effect caller_id group_id target_id w.db) [
        | inl i ↦ idle-IsSound p lawful at canonical w _ i s
        | inr t ↦
            let rows =
              swap_rows w.db s.table group_id.value caller_id target_id t.target t.of_target
                t.caller t.of_caller t.two at.value in
            told-IsSound p lawful at canonical w _ s group_id spelled _ _ _ t.leaves
              (IsTable-update _ (set_role member) _ (λ m. refl) (λ h u m. refl)
                (IsTable-update _ (set_role owner) w.db.members (λ m. refl) (λ h u m. refl)
                  s.table))
              (λ e. e) (map (flip_roles caller_id target_id))
              (λ db.
                members-if (text_eq group_id.raw at.raw) (map (flip_roles caller_id target_id))
                  w.cache)
              (λ same _ roster r.
                IsRosterOf-map at.value w.db.members (flip_roles caller_id target_id) _ roster
                  (λ m. ground arith) (λ u. rows u ∙ rw (same, ==_refl at.value) refl) r)
              (λ e u.
                rows u
                ∙ unflipped at.value group_id.value caller_id target_id u w.db.members
                    (ground (arith, e)))
      ]

  module _ (user_id : ℕ) (group_id : RequestId) (w : World) (spelled : IsSpelled p at group_id)
      (s : IsSound at.value w) (me : GroupMember)
      (of_me : find_membership group_id.value user_id w.db ≡ some me) where
    delete-IsSound :
        {A : Type 0} (o : Outcome A)
        → Leaves w.db.groups
            (keep (unkeyed member_id me.id) w.db.members)
            (member_left group_id user_id ∷ [])
            o
        → IsSound at.value (after p at w.cache o)
    unfolding deliver_all
    delete-IsSound o l =
        let rows = find-deleted w.db s.table group_id.value user_id me of_me at.value in
        told-IsSound p lawful at canonical w o s group_id spelled _ _ _ l
          (IsTable-keep _ w.db.members s.table) (λ e. e) (drop_member user_id)
          (λ db. members-if (text_eq group_id.raw at.raw) (drop_member user_id) w.cache)
          (λ same _ roster r.
            IsRosterOf-drop at.value w.db.members user_id _ roster
              (λ u. rows u ∙ rw (same, ==_refl at.value) refl) r)
          (λ e u.
            let other : (at.value == group_id.value) ≡ false = ground (arith, e) in
            rows u ∙ rw other refl)

    hand_over-IsSound :
        {A : Type 0} (o : Outcome A)
        → HandsOver user_id group_id w.db me o
        → IsSound at.value (after p at w.cache o)
    unfolding deliver_all
    hand_over-IsSound o t =
        let y = t.successor.user_id in
        let (of_successor, two) =
          found_successor group_id.value user_id w.db t.successor s.table t.chosen in
        let rows =
          hand_over_rows w.db s.table group_id.value user_id y t.successor of_successor me of_me two
            at.value in
        told-IsSound p lawful at canonical w o s group_id spelled _ _ _ t.leaves
          (IsTable-keep _ _
            (IsTable-update _ (set_role owner) w.db.members (λ m. refl) (λ h u m. refl) s.table))
          (λ e. e) (λ roster. drop_member user_id (map (flip_roles user_id y) roster))
          (λ db.
            members-if_two (text_eq group_id.raw at.raw) (map (flip_roles user_id y))
              (drop_member user_id) w.cache)
          (λ same _ roster r.
            IsRosterOf-drop at.value (map (flip_roles user_id y) w.db.members) user_id _ _
              (λ u.
                rows u
                ∙ rw
                    (
                      same,
                      ==_refl at.value,
                      find-map (is_pair at.value u) (flip_roles user_id y) w.db.members
                          (λ m. ground arith),
                    )
                    refl)
              (IsRosterOf-map at.value w.db.members (flip_roles user_id y) _ roster
                (λ m. ground arith)
                (λ u.
                  find-map (is_pair at.value u) (flip_roles user_id y) w.db.members
                    (λ m. ground arith))
                r))
          (λ e u.
            let other : (at.value == group_id.value) ≡ false = ground (arith, e) in
            rows u ∙ rw other (map-find_id (is_pair at.value u) _ w.db.members (λ m t. refl)))

    dissolve-IsSound :
        {A : Type 0} (o : Outcome A)
        → Leaves
            (keep (unkeyed group_id_of group_id.value) w.db.groups)
            (keep (λ m. not (m.group_id == group_id.value)) w.db.members)
            []
            o
        → IsSound at.value (after p at w.cache o)
    unfolding deliver_all
    dissolve-IsSound o l =
        told-IsSound p lawful at canonical w o s group_id spelled _ _ _ l
          (IsTable-keep _ w.db.members s.table)
          (any-of_keep (keyed group_id_of at.value) (unkeyed group_id_of group_id.value)
            w.db.groups)
          (λ roster. roster) (λ db. members-id (text_eq group_id.raw at.raw) w.cache.members)
          (λ same e roster r. absurd (
            ground (
              arith,
              e,
              same,
              any-absent group_id_of group_id.value _
                  (unkeyed-gone group_id_of group_id.value w.db.groups),
            )))
          (λ e u.
            find-keep_same (is_pair at.value u) (λ m. not (m.group_id == group_id.value))
              w.db.members (λ m t. ground (arith, t, e)))

  pub leave-IsSound :
      (user_id : ℕ) (group_id : RequestId) (w : World)
      → IsSpelled p at group_id
      → IsSound at.value w
      → IsSound at.value (after p at w.cache (leave user_id group_id w.db))
  leave-IsSound user_id group_id w spelled s = elim (leave-effect user_id group_id w.db) [
    | inl i ↦ idle-IsSound p lawful at canonical w _ i s
    | inr d ↦ elim d.how [
      | inl l ↦ delete-IsSound user_id group_id w spelled s d.me d.of_me _ l
      | inr (inl t) ↦ hand_over-IsSound user_id group_id w spelled s d.me d.of_me _ t
      | inr (inr l) ↦ dissolve-IsSound user_id group_id w spelled s d.me d.of_me _ l
    ]
  ]
