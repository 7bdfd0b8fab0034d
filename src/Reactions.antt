-- ===== src/Reactions.antt =====
-- backend/src/messages/reactions.service.ts
pub mod Toggle
pub mod Concurrent
pub mod Sets
pub mod Apart
use internship_project.Base.{
  ℕ, Bool, true, false, not, ◌&&◌, List, [], ◌∷◌, ◌++◌, Option, some, none, Text, text_eq, ◌==◌,
  if◌then◌else◌, keep, find, any, count,
}
use internship_project.Http.{
  Result, ok, err, Exception, http, prisma, unknown, p2002, p2025, p2003, unmapped, not_found,
  or_throw, ◌>>=◌,
}
use internship_project.Schema.{Message, Reaction, Db}
use internship_project.Events.{RequestId, Event, reaction_changed, Outcome, unchanged, answer}
use internship_project.Messages.{is_message_of}

-- Who reacts to what, and with which emoji.
pub record Tap : Type 0 where
  pub message_id : ℕ
  pub user_id : ℕ
  pub emoji : Text

-- `where: { messageId, userId, emoji }`
pub is_tap : Tap → Reaction → Bool
is_tap t r = (r.message_id == t.message_id) && ((r.user_id == t.user_id) && text_eq r.emoji t.emoji)

-- Step 2: `deleteMany`, and how many rows it removed.
abbrev pub delete_reaction : Tap → Db → Db
delete_reaction t db = record db { reactions = keep (λ r. not (is_tap t r)) db.reactions }

abbrev pub removed : Tap → Db → ℕ
removed t db = count (is_tap t) db.reactions

abbrev pub new_reaction : ℕ → Tap → Reaction
new_reaction id t = record {
  id = id;
  message_id = t.message_id;
  user_id = t.user_id;
  emoji = t.emoji;
}

-- `reaction.create` under `@@unique([messageId, userId, emoji])` and the two foreign keys.
pub insert_reaction : ℕ → Tap → Db → Result Db
insert_reaction id t db =
    if any (is_tap t) db.reactions
    then err (prisma p2002 (some "messageId, userId, emoji"))
    else if any (λ m. m.id == t.message_id) db.messages && any (λ u. u.id == t.user_id) db.users
    then ok (record db { reactions = db.reactions ++ new_reaction id t ∷ [] })
    else err (prisma p2003 none)

-- Step 3: a P2002 is the state that the call was trying to reach; the rest is thrown again.
abbrev pub converge : Db → Result Db → Result Db
converge db (ok db') = ok db'
converge db (err (prisma p2002 target)) = ok db
converge db (err (http status payload own)) = err (http status payload own)
converge db (err (prisma p2025 target)) = err (prisma p2025 target)
converge db (err (prisma p2003 target)) = err (prisma p2003 target)
converge db (err (prisma unmapped target)) = err (prisma unmapped target)
converge db (err unknown) = err unknown

pub add_reaction : ℕ → Tap → Db → Result Db
unfolding insert_reaction
add_reaction id t db = converge db (insert_reaction id t db)

abbrev pub reactions_of : ℕ → Db → List Reaction
reactions_of message_id db = keep (λ r. r.message_id == message_id) db.reactions

-- Step 4: the whole set, to the listeners and to the caller.
abbrev pub told : RequestId → Tap → Db → Result Db → Outcome (List Reaction)
told group_id t db (err e) = unchanged db e
told group_id t db (ok db') =
    answer db' (reaction_changed group_id t.message_id (reactions_of t.message_id db') ∷ [])
      (reactions_of t.message_id db')

abbrev toggle_known : ℕ → RequestId → Tap → Db → Option Message → Outcome (List Reaction)
toggle_known id group_id t db none = unchanged db (not_found "Message not found")
toggle_known id group_id t db (some message) = told group_id t (delete_reaction t db) (
    if removed t db == 0
    then add_reaction id t (delete_reaction t db)
    else ok (delete_reaction t db))

pub toggle : ℕ → RequestId → Tap → Db → Outcome (List Reaction)
unfolding add_reaction
toggle id group_id t db =
    toggle_known id group_id t db (find (is_message_of group_id.value t.message_id) db.messages)
