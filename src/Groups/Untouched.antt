-- ===== src/Groups/Untouched.antt =====
-- The methods of GroupsService and the messages: which of them they leave alone.
use internship_project.Base.{ℕ, ◌≡◌, refl, ◌≢◌, not, arith, List, [], ◌∷◌, Text, keep}
use internship_project.Schema.{Message, Db}
use internship_project.Events.{RequestId}
use internship_project.Groups.{
  insert_group, insert_member, create_tx, create, join_tx, join, leave_tx, leave, transfer_reads,
  transfer_writes, transfer_tx, transfer_ownership, mark_read, in_group,
}

-- The messages of a group are the same rows in both databases.
abbrev pub SameMessages : (group_id : ℕ) → Db → Db → Type 0
SameMessages g db db' = keep (in_group g) db'.messages ≡ keep (in_group g) db.messages

pub create-messages :
    (group_id member_id now user_id : ℕ) (name : Text) (db : Db)
    → (create group_id member_id now user_id name db).db.messages ≡ db.messages
unfolding create create_tx insert_group insert_member
create-messages group_id member_id now user_id name db = ground arith

pub join-messages :
    (member_id now user_id : ℕ) (group_id : RequestId) (db : Db)
    → (join member_id now user_id group_id db).db.messages ≡ db.messages
unfolding join join_tx insert_member
join-messages member_id now user_id group_id db = ground arith

pub transfer_ownership-messages :
    (caller_id : ℕ) (group_id : RequestId) (target_id : ℕ) (db : Db)
    → (transfer_ownership caller_id group_id target_id db).db.messages ≡ db.messages
unfolding transfer_ownership transfer_tx transfer_reads transfer_writes
transfer_ownership-messages caller_id group_id target_id db = ground arith

pub mark_read-messages :
    (now user_id : ℕ) (group_id : RequestId) (db : Db)
    → (mark_read now user_id group_id db).db.messages ≡ db.messages
unfolding mark_read
mark_read-messages now user_id group_id db = ground arith

keep-delete_group :
    (g h : ℕ) (ms : List Message)
    → h ≢ g
    → keep (in_group g) (keep (λ m. not (in_group h m)) ms) ≡ keep (in_group g) ms
keep-delete_group g h [] n = refl
keep-delete_group g h (m ∷ ms) n = ground (arith, n, keep-delete_group g h ms n)

-- A departure takes the messages of no other group away.
pub leave-SameMessages :
    (user_id : ℕ) (group_id : RequestId) (g : ℕ) (db : Db)
    → group_id.value ≢ g
    → SameMessages g db (leave user_id group_id db).db
unfolding leave leave_tx
leave-SameMessages user_id group_id g db n =
    ground (arith, keep-delete_group g group_id.value db.messages n)
