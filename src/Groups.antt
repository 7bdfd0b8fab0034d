-- ===== src/Groups.antt =====
-- backend/src/groups/groups.service.ts over the tables of the schema. Fresh ids and the clock are
-- arguments; a transaction runs alone, and Groups/Race takes two of them apart into statements.
pub mod Access
pub mod Ownership
pub mod Leave
pub mod History
pub mod Race
pub mod Views
pub mod Untouched
pub mod Apart
pub mod Effects
use internship_project.Base.{
  ℕ, ◌+◌, Bool, true, false, not, ◌&&◌, ◌||◌, List, [], ◌∷◌, ◌++◌, map, Option, none, some, Text,
  text_eq, ltb, leb, ◌==◌, if◌then◌else◌, is_some, keep, find, any, count, update, sort_by, first,
  keyed, unkeyed,
}
use internship_project.Http.{
  Result, ok, err, Exception, prisma, p2002, p2003, p2025, bad_request, forbidden, not_found,
  conflict, or_throw, throw_if, catch_p2002, ◌>>=◌, ◌>>◌,
}
use internship_project.Schema.{
  MemberRole, owner, member, Group, GroupMember, Message, Reaction, Db, is_owner_role,
}
use internship_project.Events.{
  RequestId, Event, member_joined, member_left, owner_changed, read_marked, Outcome, unchanged,
  answer,
}
use internship_project.Uuid.{is_uuid}

abbrev pub not_a_member : Exception
not_a_member = forbidden "You are not a member of this group"

-- `where: { groupId_userId: { groupId, userId } }`, and the key columns of the two tables.
abbrev pub is_pair : ℕ → ℕ → GroupMember → Bool
is_pair group_id user_id m = (m.group_id == group_id) && (m.user_id == user_id)

abbrev pub member_id : GroupMember → ℕ
member_id m = m.id

abbrev pub group_id_of : Group → ℕ
group_id_of g = g.id

abbrev pub find_membership : ℕ → ℕ → Db → Option GroupMember
find_membership group_id user_id db = find (is_pair group_id user_id) db.members

abbrev pub find_group : ℕ → Db → Option Group
find_group id db = find (keyed group_id_of id) db.groups

-- `@@unique([createdBy, name])` and the foreign key of the creator.
abbrev pub has_name : ℕ → Text → Group → Bool
has_name created_by name g = (g.created_by == created_by) && text_eq g.name name

pub insert_group : Group → Db → Result Db
insert_group g db =
    if any (has_name g.created_by g.name) db.groups
    then err (prisma p2002 (some "createdBy, name"))
    else if any (λ u. u.id == g.created_by) db.users
    then ok (record db { groups = db.groups ++ g ∷ [] })
    else err (prisma p2003 none)

-- `@@unique([groupId, userId])` and the two foreign keys.
pub insert_member : GroupMember → Db → Result Db
insert_member m db =
    if any (is_pair m.group_id m.user_id) db.members
    then err (prisma p2002 (some "groupId, userId"))
    else if any (keyed group_id_of m.group_id) db.groups && any (λ u. u.id == m.user_id) db.users
    then ok (record db { members = db.members ++ m ∷ [] })
    else err (prisma p2003 none)

abbrev pub set_role : MemberRole → GroupMember → GroupMember
set_role r m = record m { role = r }

-- `tx.groupMember.update` and `delete` by id.
abbrev pub update_member : ℕ → (GroupMember → GroupMember) → Db → Db
update_member id f db = record db { members = update (keyed member_id id) f db.members }

abbrev pub delete_member : ℕ → Db → Db
delete_member id db = record db { members = keep (unkeyed member_id id) db.members }

abbrev pub in_group : ℕ → Message → Bool
in_group id m = m.group_id == id

-- `tx.group.delete`, with the cascades that the schema declares.
abbrev pub delete_group : ℕ → Db → Db
delete_group id db = record db {
  groups = keep (unkeyed group_id_of id) db.groups;
  members = keep (λ m. not (m.group_id == id)) db.members;
  messages = keep (λ m. not (in_group id m)) db.messages;
  reactions =
      keep (λ r. not (any (λ m. in_group id m && (m.id == r.message_id)) db.messages)) db.reactions;
}

-- What `$transaction` leaves: its writes, or nothing.
abbrev pub committed : {A : Type 0} → Db → Result (Db × A) → (A → List Event) → Outcome A
committed db (err e) events = unchanged db e
committed db (ok (db', a)) events = answer db' (events a) a

-- create()
abbrev pub new_group : (id user_id : ℕ) → Text → (now : ℕ) → Group
new_group id user_id name now = record {
  id = id;
  name = name;
  created_by = user_id;
  created_at = now;
}

abbrev pub new_member : (id group_id user_id : ℕ) → MemberRole → (now : ℕ) → GroupMember
new_member id group_id user_id role now = record {
  id = id;
  group_id = group_id;
  user_id = user_id;
  role = role;
  joined_at = now;
  last_read_at = none;
}

create_tx : Group → GroupMember → Db → Result (Db × Group)
unfolding insert_group insert_member
create_tx g m db = do db' ← insert_group g db; db'' ← insert_member m db'; ok (db'', g)

pub create : (group_id member_id now user_id : ℕ) → Text → Db → Outcome Group
unfolding create_tx
create group_id member_id now user_id name db =
    committed db
      (catch_p2002 (conflict "You already have a group with this name") (
        create_tx (new_group group_id user_id name now)
          (new_member member_id group_id user_id owner now) db))
      (λ _. [])

-- join()
join_tx : GroupMember → RequestId → Db → Result (Db × Group)
unfolding insert_member
join_tx m group_id db = do
  group ← or_throw (find_group group_id.value db) (not_found "Group not found")
  db' ← catch_p2002 (conflict "You are already a member of this group") (insert_member m db)
  ok (db', group)

pub join : (member_id now user_id : ℕ) → RequestId → Db → Outcome Group
unfolding join_tx
join member_id now user_id group_id db =
    let m = new_member member_id group_id.value user_id member now in
    committed db (join_tx m group_id db) (λ _. member_joined group_id m ∷ [])

-- leave()
pub record LeaveOutcome : Type 0 where
  pub group_deleted : Bool
  pub new_owner_id : Option ℕ

-- `orderBy: [{ joinedAt: 'asc' }, { id: 'asc' }]`
abbrev pub joined_before : GroupMember → GroupMember → Bool
joined_before m n = ltb m.joined_at n.joined_at || ((m.joined_at == n.joined_at) && leb m.id n.id)

-- `where: { groupId, userId: { not: userId } }`
abbrev pub is_other_member : ℕ → ℕ → GroupMember → Bool
is_other_member group_id user_id m = (m.group_id == group_id) && not (m.user_id == user_id)

unfoldable pub find_successor : ℕ → ℕ → Db → Option GroupMember
find_successor group_id user_id db =
    first (sort_by joined_before (keep (is_other_member group_id user_id) db.members))

abbrev promote_and_delete : ℕ → GroupMember → Db → Option GroupMember → Db × LeaveOutcome
promote_and_delete group_id me db none =
    (delete_group group_id db, record { group_deleted = true; new_owner_id = none })
promote_and_delete group_id me db (some successor) = (
  delete_member me.id (update_member successor.id (set_role owner) db),
  record { group_deleted = false; new_owner_id = some successor.user_id },
)

pub leave_tx : ℕ → ℕ → Db → Result (Db × LeaveOutcome)
leave_tx user_id group_id db = do
  me ← or_throw (find_membership group_id user_id db) not_a_member
  ok (
      if not (is_owner_role me.role)
      then (delete_member me.id db, record { group_deleted = false; new_owner_id = none })
      else promote_and_delete group_id me db (find_successor group_id user_id db))

abbrev ownership_event : ℕ → RequestId → Option ℕ → List Event
ownership_event user_id group_id none = []
ownership_event user_id group_id (some new_owner_id) =
    owner_changed group_id user_id new_owner_id ∷ []

abbrev pub leave_events : ℕ → RequestId → LeaveOutcome → List Event
leave_events user_id group_id outcome =
    ownership_event user_id group_id outcome.new_owner_id
    ++ (if not outcome.group_deleted then member_left group_id user_id ∷ [] else [])

unfoldable pub leave : ℕ → RequestId → Db → Outcome LeaveOutcome
unfolding leave_tx
leave user_id group_id db =
    committed db (leave_tx user_id group_id.value db) (leave_events user_id group_id)

-- transferOwnership(): what its transaction reads, and then what it writes.
unfoldable pub transfer_reads : ℕ → ℕ → ℕ → Db → Result (GroupMember × GroupMember)
transfer_reads caller_id group_id target_id db = do
  caller ← or_throw (find_membership group_id caller_id db) not_owner
  throw_if (not (is_owner_role caller.role)) not_owner
  target ←
      or_throw (find_membership group_id target_id db)
        (not_found "That user is not a member of this group")
  ok (caller, target)
  where
    not_owner : Exception
    not_owner = forbidden "Only the group owner can transfer ownership"

unfoldable pub transfer_writes : GroupMember × GroupMember → Db → Db
transfer_writes (caller, target) db =
    update_member caller.id (set_role member) (update_member target.id (set_role owner) db)

pub transfer_tx : ℕ → ℕ → ℕ → Db → Result (Db × (ℕ × ℕ))
unfolding transfer_reads transfer_writes
transfer_tx caller_id group_id target_id db = do
  rows ← transfer_reads caller_id group_id target_id db
  ok (transfer_writes rows db, (caller_id, target_id))

unfoldable pub transfer_ownership : ℕ → RequestId → ℕ → Db → Outcome (ℕ × ℕ)
unfolding transfer_tx
transfer_ownership caller_id group_id target_id db =
    if caller_id == target_id
    then unchanged db (bad_request "You already own this group")
    else committed db (transfer_tx caller_id group_id.value target_id db)
        (λ _. owner_changed group_id caller_id target_id ∷ [])

-- assertMember()
unfoldable pub assert_member : ℕ → RequestId → Db → Result GroupMember
assert_member user_id group_id db =
    if not (is_uuid group_id.raw)
    then err not_a_member
    else or_throw (find_membership group_id.value user_id db) not_a_member

-- markRead(); `update` throws P2025 when there is no row.
abbrev pub stamp : ℕ → GroupMember → GroupMember
stamp now m = record m { last_read_at = some now }

unfoldable pub mark_read : (now user_id : ℕ) → RequestId → Db → Outcome ℕ
mark_read now user_id group_id db =
    if is_some (find_membership group_id.value user_id db)
    then answer
        (record db { members = update (is_pair group_id.value user_id) (stamp now) db.members })
        (read_marked group_id user_id now ∷ []) now
    else unchanged db (prisma p2025 none)

-- findMyGroups()
pub record GroupListing : Type 0 where
  pub group : Group
  pub member_count : ℕ
  pub message_count : ℕ

abbrev pub newest_group_first : Group → Group → Bool
newest_group_first g h = leb h.created_at g.created_at

abbrev pub listing : Db → Group → GroupListing
listing db g = record {
  group = g;
  member_count = count (λ m. m.group_id == g.id) db.members;
  message_count = count (in_group g.id) db.messages;
}

unfoldable pub find_my_groups : ℕ → Db → List GroupListing
find_my_groups user_id db =
    map (listing db)
      (sort_by newest_group_first (keep (λ g. any (is_pair g.id user_id) db.members) db.groups))

-- findOne()
pub record GroupDetail : Type 0 where
  pub group : Group
  pub members : List GroupMember

abbrev pub earliest_join_first : GroupMember → GroupMember → Bool
earliest_join_first m n = leb m.joined_at n.joined_at

unfoldable pub find_one : RequestId → Db → Result GroupDetail
find_one group_id db = do
  group ← or_throw (find_group group_id.value db) (not_found "Group not found")
  ok (record {
    group = group;
    members = sort_by earliest_join_first (keep (λ m. m.group_id == group.id) db.members);
  })
