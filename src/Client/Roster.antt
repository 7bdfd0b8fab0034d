-- ===== src/Client/Roster.antt =====
-- The member list of a group's page beside the server: useGroup() of frontend/src/lib/queries/groups.ts
-- fetches it, and the events of backend/src/groups/groups.service.ts change it. It is a step relation
-- on the database and the tab's cache of one group.
pub mod Rows
pub mod Roles
pub mod Changes
pub mod Steps
pub mod Owners
pub mod Refines
use internship_project.Base.{
  ℕ, ◌≤◌, ◌≡◌, ◌≢◌, true, List, Option, none, some, Text, ◌==◌, any, find, count, keyed, Distinct,
}
use internship_project.Http.{Result, ok, err}
use internship_project.Schema.{Group, GroupMember, Db}
use internship_project.Events.{RequestId, Outcome}
use internship_project.Cursor.{Platform}
use internship_project.Groups.{
  is_pair, member_id, group_id_of, find_membership, GroupDetail, find_one, create, join, leave,
  transfer_ownership, mark_read,
}
use internship_project.Groups.History.{IsFreshMember}
use internship_project.Client.{GroupCache}
use internship_project.Client.World.{World, after}

abbrev pub user_of : GroupMember → ℕ
user_of m = m.user_id

-- useGroup(): an answer is cached; a refusal leaves what was cached.
abbrev with_detail : Result GroupDetail → GroupCache → GroupCache
with_detail (err e) c = c
with_detail (ok d) c = record c { members = some d.members }

unfoldable pub load_detail : RequestId → Db → GroupCache → GroupCache
load_detail at db c = with_detail (find_one at db) c

-- Requests to the server, each followed by the delivery of its events to the tab; those of the tab's
-- group spell its id as the server does, and a new group has another id.
module _ (p : Platform) (at : RequestId) where
  abbrev pub IsSpelled : RequestId → Type 0
  IsSpelled group_id = group_id.raw ≡ p.spell group_id.value

  pub data Step (w : World) : World → Type 0 where
    created :
        (group_id member_id now user_id : ℕ) (name : Text)
        → IsFreshMember member_id w.db
        → group_id ≢ at.value
        → Step w (after p at w.cache (create group_id member_id now user_id name w.db))
    joined :
        (member_id now user_id : ℕ) (group_id : RequestId)
        → IsFreshMember member_id w.db
        → IsSpelled group_id
        → Step w (after p at w.cache (join member_id now user_id group_id w.db))
    left :
        (user_id : ℕ) (group_id : RequestId)
        → IsSpelled group_id
        → Step w (after p at w.cache (leave user_id group_id w.db))
    transferred :
        (caller_id : ℕ) (group_id : RequestId) (target_id : ℕ)
        → IsSpelled group_id
        → Step w (after p at w.cache (transfer_ownership caller_id group_id target_id w.db))
    read :
        (now user_id : ℕ) (group_id : RequestId)
        → IsSpelled group_id
        → Step w (after p at w.cache (mark_read now user_id group_id w.db))
    fetched : Step w (record w { cache = load_detail at w.db w.cache })

  pub data Reaches (w : World) : World → Type 0 where
    here : Reaches w w
    next : {v u : World} → Reaches w v → Step v u → Reaches w u

-- The rows of the table of members: distinct ids, and one row for a user in a group.
pub record IsTable (members : List GroupMember) : Type 0 where
  pub distinct : Distinct member_id members
  pub single : (group_id user_id : ℕ) → count (is_pair group_id user_id) members ≤ 1

-- A loaded member list holds the very rows of the group, one for each user, while the group exists.
abbrev pub IsRosterOf : (group_id : ℕ) → (members roster : List GroupMember) → Type 0
IsRosterOf group_id members roster =
    Distinct user_of roster
    × ((user_id : ℕ)
        → find (keyed user_of user_id) roster ≡ find (is_pair group_id user_id) members)

abbrev pub Mirrors :
    (group_id : ℕ) → List Group → List GroupMember → Option (List GroupMember) → Type 0
Mirrors group_id groups members none = Unit {0}
Mirrors group_id groups members (some roster) =
    any (keyed group_id_of group_id) groups ≡ true → IsRosterOf group_id members roster
