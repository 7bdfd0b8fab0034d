-- ===== src/Client/Roster/Refines.antt =====
-- What the member list shows after any course of events, over the steps of Client/Roster.
use internship_project.Base.{
  ℕ, ◌≡◌, ◌∙◌, inl, inr, List, ◌==◌, ==_iff, Option-cases, keep, sort_by, keyed, Distinct,
  Distinct-of_count, Distinct-sort_by, count-keep_and, find-keep_and, find-sort_by, test-find,
}
use internship_project.Schema.{GroupMember, Db}
use internship_project.Events.{RequestId}
use internship_project.Cursor.{Platform, IsLawful}
use internship_project.Groups.{group_id_of, find_group, earliest_join_first, find_one}
use internship_project.Client.{empty_cache}
use internship_project.Client.World.{World}
use internship_project.Client.Roster.{
  user_of, load_detail, Step, created, joined, left, transferred, read, fetched, Reaches, here,
  next, IsTable, IsRosterOf, Mirrors,
}
use internship_project.Client.Roster.Steps.{IsSound, join-IsSound, read-IsSound, create-IsSound}
use internship_project.Client.Roster.Owners.{transfer-IsSound, leave-IsSound}

-- An answer of findOne() is a list of the rows of the group.
find_one-IsRosterOf :
    (group_id : ℕ) (members : List GroupMember)
    → IsTable members
    → IsRosterOf group_id members
        (sort_by earliest_join_first (keep (λ m. m.group_id == group_id) members))
find_one-IsRosterOf group_id members table = (
  Distinct-sort_by user_of earliest_join_first own distinct,
  λ u.
      find-sort_by user_of earliest_join_first u own distinct
      ∙ find-keep_and (λ m. m.group_id == group_id) (keyed user_of u) members,
)
  where
    own : List GroupMember
    own = keep (λ m. m.group_id == group_id) members

    distinct : Distinct user_of own
    distinct = Distinct-of_count user_of own (λ u.
        rw (count-keep_and (λ m. m.group_id == group_id) (keyed user_of u) members)
          (table.single group_id u))

fetch-IsSound :
    (at : RequestId) (w : World)
    → IsSound at.value w
    → IsSound at.value (record w { cache = load_detail at w.db w.cache })
unfolding load_detail find_one
fetch-IsSound at w s = elim (Option-cases (find_group at.value w.db)) [
  | inl e ↦ rw e s
  | inr (g, e) ↦
      let same : g.id ≡ at.value =
        (==_iff _ _).0 (test-find (keyed group_id_of at.value) w.db.groups g e) in
      rw (e, same)
        (record {
          table = s.table;
          mirrors = λ _. find_one-IsRosterOf at.value w.db.members s.table;
        })
]

module _ (p : Platform) (lawful : IsLawful p) (at : RequestId)
    (canonical : at.raw ≡ p.spell at.value) where
  Step-IsSound : {w v : World} → IsSound at.value w → Step p at w v → IsSound at.value v
  Step-IsSound {w} s (created g mid now u name fresh other) =
      create-IsSound p lawful at canonical g mid now u name w fresh other s
  Step-IsSound {w} s (joined mid now u g fresh spelled) =
      join-IsSound p lawful at canonical mid now u g w fresh spelled s
  Step-IsSound {w} s (left u g spelled) = leave-IsSound p lawful at canonical u g w spelled s
  Step-IsSound {w} s (transferred c g t spelled) =
      transfer-IsSound p lawful at canonical c g t w spelled s
  Step-IsSound {w} s (read now u g spelled) = read-IsSound p lawful at canonical now u g w spelled s
  Step-IsSound {w} s fetched = fetch-IsSound at w s

  Reaches-IsSound : {w v : World} → IsSound at.value w → Reaches p at w v → IsSound at.value v
  Reaches-IsSound s here = s
  Reaches-IsSound s (next r st) = Step-IsSound (Reaches-IsSound s r) st

-- A tab opens a group's page at the database `start`; groups are then created, and members of any
-- group join, leave, hand over the ownership and mark messages as read; the tab is given each event
-- as it is emitted, and it fetches the detail at any times. Whatever list of members it then holds
-- has no user twice and, as long as the group exists, holds for each user the very row that the
-- database holds, with its role and its read receipt, or none where there is none. The group's id is
-- spelled as the server spells ids, in the tab and in the requests; in the table at the start ids
-- are distinct and no user has two rows in a group, new rows have fresh ids and new groups other ids.
pub roster-refines :
    (p : Platform) (at : RequestId) (start : Db) (w : World)
    → IsLawful p
    → at.raw ≡ p.spell at.value
    → IsTable start.members
    → Reaches p at (record { db = start; cache = empty_cache }) w
    → Mirrors at.value w.db.groups w.db.members w.cache.members
roster-refines p at start w lawful canonical table r =
    (Reaches-IsSound p lawful at canonical (record { table = table; mirrors = tt }) r).mirrors
