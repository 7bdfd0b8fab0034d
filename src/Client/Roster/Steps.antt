-- ===== src/Client/Roster/Steps.antt =====
-- Each method of groups.service.ts that writes, and the delivery of its events: the tab's member list
-- stays that of the group.
use internship_project.Base.{
  ℕ, ◌≡◌, refl, ◌∙◌, ◌≢◌, inl, inr, Bool, true, false, arith, List, map, Option, none, some, Text,
  text_eq, ◌==◌, ==_iff, if◌then◌else◌, Bool-cases, any, find, keyed, find-eq-none_of_count,
  any-eq-count, find-update-map, map-find, map-find_id, any-of_snoc, find-snoc, or_else-none,
}
use internship_project.Schema.{owner, member, Group, GroupMember, Db}
use internship_project.Events.{RequestId, Outcome, Event}
use internship_project.Cursor.{Platform, IsLawful}
use internship_project.Groups.{
  is_pair, group_id_of, stamp, new_group, new_member, create, join, mark_read,
}
use internship_project.Groups.Effects.{IsIdle, Leaves, join-effect, create-effect, mark_read-effect}
use internship_project.Groups.History.{IsFreshMember}
use internship_project.Client.{
  GroupCache, on_members, add_member, move_receipt, with_members, deliver_all,
}
use internship_project.Client.World.{World, after}
use internship_project.Client.Mirror.{address}
use internship_project.Client.Roster.{IsSpelled, IsTable, IsRosterOf, Mirrors}
use internship_project.Client.Roster.Rows.{IsTable-insert, IsTable-update}
use internship_project.Client.Roster.Changes.{
  IsRosterOf-add, IsRosterOf-map, Mirrors-here, Mirrors-elsewhere,
}

pub record IsSound (group_id : ℕ) (w : World) : Type 0 where
  pub table : IsTable w.db.members
  pub mirrors : Mirrors group_id w.db.groups w.db.members w.cache.members

pub members-if :
    (b : Bool) (f : List GroupMember → List GroupMember) (c : GroupCache)
    → (if b then with_members f c else c).members
      ≡ (if b then on_members f c.members else c.members)
members-if true f c = refl
members-if false f c = refl

pub members-id :
    (b : Bool) (o : Option (List GroupMember))
    → o ≡ (if b then on_members (λ roster. roster) o else o)
members-id true none = refl
members-id true (some roster) = refl
members-id false o = refl

module _ (p : Platform) (lawful : IsLawful p) (at : RequestId)
    (canonical : at.raw ≡ p.spell at.value) where
  -- An event of a group addresses the tab exactly when the group is the tab's.
  seen :
      (group_id : RequestId)
      → IsSpelled p at group_id
      → text_eq group_id.raw at.raw ≡ (group_id.value == at.value)
  seen group_id spelled = rw spelled (address p lawful at canonical group_id.value)

  pub idle-IsSound :
      {A : Type 0} (w : World) (o : Outcome A)
      → IsIdle w.db o
      → IsSound at.value w
      → IsSound at.value (after p at w.cache o)
  unfolding deliver_all
  idle-IsSound w o i s = rw (i.kept, i.silent) s

  -- A method that tells the group of a change, which the tab applies to its list.
  module _ {A : Type 0} (w : World) (o : Outcome A) (s : IsSound at.value w) (group_id : RequestId)
      (spelled : IsSpelled p at group_id) (groups : List Group) (members : List GroupMember)
      (events : List Event) (l : Leaves groups members events o) (table : IsTable members)
      (old : any (keyed group_id_of at.value) groups ≡ true
        → any (keyed group_id_of at.value) w.db.groups ≡ true)
      (f : List GroupMember → List GroupMember) where
    pub told-IsSound :
        ((db : Db)
          → (deliver_all p.spell at.raw db events w.cache).members ≡ (
              if text_eq group_id.raw at.raw
              then on_members f w.cache.members
              else w.cache.members))
        → (group_id.value ≡ at.value
            → any (keyed group_id_of at.value) groups ≡ true
            → (roster : List GroupMember) → IsRosterOf at.value w.db.members roster
            → IsRosterOf at.value members (f roster))
        → ((group_id.value == at.value) ≡ false
            → (u : ℕ) → find (is_pair at.value u) members ≡ find (is_pair at.value u) w.db.members)
        → IsSound at.value (after p at w.cache o)
    told-IsSound delivered here_too elsewhere = record {
      table = rw l.members_are table;
      mirrors =
          rw (l.groups_are, l.members_are, l.events_are, delivered _, seen group_id spelled)
            (elim (Bool-cases (group_id.value == at.value)) [
              | inl e ↦ rw e (
                  Mirrors-here at.value w.db.groups groups w.db.members members old f
                    (here_too ((==_iff _ _).0 e)) w.cache.members s.mirrors)
              | inr e ↦ rw e (
                  Mirrors-elsewhere at.value w.db.groups groups w.db.members members old
                    (elsewhere e) w.cache.members s.mirrors)
            ]);
    }

  pub join-IsSound :
      (mid now user_id : ℕ) (group_id : RequestId) (w : World)
      → IsFreshMember mid w.db
      → IsSpelled p at group_id
      → IsSound at.value w
      → IsSound at.value (after p at w.cache (join mid now user_id group_id w.db))
  unfolding deliver_all
  join-IsSound mid now user_id group_id w fresh spelled s =
      elim (join-effect mid now user_id group_id w.db) [
        | inl i ↦ idle-IsSound w _ i s
        | inr (first_time, l) ↦
            let m = new_member mid group_id.value user_id member now in
            let new : find (is_pair group_id.value user_id) w.db.members ≡ none =
              find-eq-none_of_count (is_pair group_id.value user_id) w.db.members (
                ground (
                  arith,
                  first_time,
                  any-eq-count (is_pair group_id.value user_id) w.db.members,
                )) in
            told-IsSound w _ s group_id spelled _ _ _ l
              (IsTable-insert w.db.members m s.table fresh first_time) (λ e. e) (add_member m)
              (λ db. members-if (text_eq group_id.raw at.raw) (add_member m) w.cache)
              (λ same _ roster r.
                IsRosterOf-add at.value w.db.members m roster same (rw same at new) r)
              (λ e u. find-snoc (is_pair at.value u) w.db.members m ∙ rw e (or_else-none _))
      ]

  pub read-IsSound :
      (now user_id : ℕ) (group_id : RequestId) (w : World)
      → IsSpelled p at group_id
      → IsSound at.value w
      → IsSound at.value (after p at w.cache (mark_read now user_id group_id w.db))
  unfolding deliver_all
  read-IsSound now user_id group_id w spelled s =
      elim (mark_read-effect now user_id group_id w.db) [
        | inl i ↦ idle-IsSound w _ i s
        | inr l ↦
            let rows = λ (u : ℕ).
              find-update-map (is_pair at.value u) (is_pair group_id.value user_id) (stamp now)
                w.db.members (λ m. refl) in
            told-IsSound w _ s group_id spelled _ _ _ l
              (IsTable-update _ (stamp now) w.db.members (λ m. refl) (λ g u m. refl) s.table)
              (λ e. e) (map (move_receipt user_id now))
              (λ db.
                members-if (text_eq group_id.raw at.raw) (map (move_receipt user_id now)) w.cache)
              (λ same _ roster r.
                IsRosterOf-map at.value w.db.members (move_receipt user_id now) _ roster
                  (λ m. ground arith)
                  (λ u.
                    rows u
                    ∙ map-find (is_pair at.value u) _ (move_receipt user_id now) w.db.members
                        (λ m t. ground (arith, t, same)))
                  r)
              (λ e u.
                rows u
                ∙ map-find_id (is_pair at.value u) _ w.db.members (λ m t. ground (arith, t, e)))
      ]

  pub create-IsSound :
      (gid mid now user_id : ℕ) (name : Text) (w : World)
      → IsFreshMember mid w.db
      → gid ≢ at.value
      → IsSound at.value w
      → IsSound at.value (after p at w.cache (create gid mid now user_id name w.db))
  unfolding deliver_all
  create-IsSound gid mid now user_id name w fresh other s =
      elim (create-effect gid mid now user_id name w.db) [
        | inl i ↦ idle-IsSound w _ i s
        | inr (first_time, l) ↦
            let m = new_member mid gid user_id owner now in
            let away : (gid == at.value) ≡ false = ground (arith, other) in
            told-IsSound w _ s (record { raw = p.spell gid; value = gid }) refl _ _ _ l
              (IsTable-insert w.db.members m s.table fresh first_time)
              (any-of_snoc (keyed group_id_of at.value) w.db.groups (new_group gid user_id name now)
                away)
              (λ roster. roster) (λ db. members-id (text_eq (p.spell gid) at.raw) w.cache.members)
              (λ same _ roster r. absurd (other same))
              (λ e u. find-snoc (is_pair at.value u) w.db.members m ∙ rw e (or_else-none _))
      ]
