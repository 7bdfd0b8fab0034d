-- ===== src/Messages.antt =====
-- backend/src/messages/messages.service.ts: the interactive path. A message row stands for what
-- MESSAGE_SELECT reads of it.
pub mod Edit
pub mod Pages
pub mod Refusals
pub mod PageRows
pub mod Effects
use internship_project.Base.{
  ℕ, suc, ◌+◌, Bool, true, false, not, ◌&&◌, ◌||◌, List, [], ◌∷◌, ◌++◌, Option, none, some, Text,
  ltb, leb, ◌==◌, if◌then◌else◌, is_some, length, take, keep, find, any, update, sort_by, keyed,
}
use internship_project.Http.{
  Result, ok, err, Exception, prisma, p2003, unmapped, forbidden, not_found, or_throw, throw_if,
  ◌>>=◌, ◌>>◌,
}
use internship_project.Schema.{MessageType, user, Message, Db, is_user_type}
use internship_project.Events.{
  RequestId, Event, message_created, message_updated, Outcome, unchanged, answer,
}
use internship_project.Cursor.{Platform, KeysetCursor, encode_cursor, decode_cursor}

abbrev pub message_id : Message → ℕ
message_id m = m.id

abbrev pub known_sender : Option ℕ → Db → Bool
known_sender none db = true
known_sender (some id) db = any (λ u. u.id == id) db.users

-- `prisma.message.create`, with the two foreign keys.
unfoldable pub insert_message : Message → Db → Result Db
insert_message m db =
    if any (λ g. g.id == m.group_id) db.groups && known_sender m.sender_id db
    then ok (record db { messages = db.messages ++ m ∷ [] })
    else err (prisma p2003 none)

pub record Attachment : Type 0 where
  pub url : Text
  pub name : Text
  pub mime : Text

-- persistAndEmit()
abbrev emitted : Message → Db → Result Db → Outcome Message
emitted m db (err e) = unchanged db e
emitted m db (ok db') = answer db' (message_created m ∷ []) m

unfoldable pub persist_and_emit : Message → Db → Outcome Message
unfolding insert_message
persist_and_emit m db = emitted m db (insert_message m db)

abbrev pub new_message : (id now group_id sender_id : ℕ) → Text → Message
new_message id now group_id sender_id content = record {
  id = id;
  group_id = group_id;
  sender_id = some sender_id;
  content = content;
  type = user;
  created_at = now;
  edited_at = none;
  deleted_at = none;
  attachment_url = none;
  attachment_name = none;
  attachment_mime = none;
}

abbrev pub attached_message : (id now group_id sender_id : ℕ) → Text → Attachment → Message
attached_message id now group_id sender_id content attachment =
    record (new_message id now group_id sender_id content) {
      attachment_url = some attachment.url;
      attachment_name = some attachment.name;
      attachment_mime = some attachment.mime;
    }

-- create() and createWithAttachment()
unfoldable pub create : (id now : ℕ) → RequestId → (sender_id : ℕ) → Text → Db → Outcome Message
unfolding persist_and_emit
create id now group_id sender_id content =
    persist_and_emit (new_message id now group_id.value sender_id content)

unfoldable pub create_with_attachment :
    (id now : ℕ) → RequestId → (sender_id : ℕ) → Text → Attachment → Db → Outcome Message
unfolding persist_and_emit
create_with_attachment id now group_id sender_id content attachment =
    persist_and_emit (attached_message id now group_id.value sender_id content attachment)

-- assertOwnUserMessage()
abbrev pub is_message_of : ℕ → ℕ → Message → Bool
is_message_of group_id id m = (m.id == id) && (m.group_id == group_id)

abbrev pub is_sender : Option ℕ → ℕ → Bool
is_sender none user_id = false
is_sender (some id) user_id = id == user_id

unfoldable pub assert_own_user_message : (group_id id user_id : ℕ) → Db → Result Message
assert_own_user_message group_id id user_id db = do
  existing ← or_throw (find (is_message_of group_id id) db.messages) (not_found "Message not found")
  throw_if (not (is_sender existing.sender_id user_id) || not (is_user_type existing.type))
      (forbidden "You can only change your own messages")
  ok existing

-- `message.update` by id, and the event that follows it.
abbrev pub rewrite : (Message → Message) → Message → Db → Outcome Message
rewrite f existing db =
    answer (record db { messages = update (keyed message_id existing.id) f db.messages })
      (message_updated (f existing) ∷ []) (f existing)

abbrev pub and_then : {A B : Type 0} → Db → Result A → (A → Outcome B) → Outcome B
and_then db (err e) f = unchanged db e
and_then db (ok a) f = f a

abbrev pub edited : (now : ℕ) → Text → Message → Message
edited now content m = record m { content = content; edited_at = some now }

abbrev pub tombstoned : (now : ℕ) → Message → Message
tombstoned now m = record m { content = []; deleted_at = some now }

-- edit() and softDelete()
unfoldable pub edit : (now group_id id user_id : ℕ) → Text → Db → Outcome Message
unfolding assert_own_user_message
edit now group_id id user_id content db =
    and_then db
      (do
        existing ← assert_own_user_message group_id id user_id db
        throw_if (is_some existing.deleted_at) (forbidden "This message has been deleted")
        ok existing)
      (λ existing. rewrite (edited now content) existing db)

unfoldable pub soft_delete : (now group_id id user_id : ℕ) → Db → Outcome Message
unfolding assert_own_user_message
soft_delete now group_id id user_id db =
    and_then db (assert_own_user_message group_id id user_id db)
      (λ existing. rewrite (tombstoned now) existing db)

-- `orderBy: [{ createdAt: 'desc' }, { id: 'desc' }]`
abbrev pub newest_first : Message → Message → Bool
newest_first m n =
    ltb n.created_at m.created_at || ((m.created_at == n.created_at) && leb n.id m.id)

-- search(); `matches` is Postgres's ILIKE.
abbrev pub search_result_limit : ℕ
search_result_limit = 50

abbrev pub is_hit : (Text → Text → Bool) → ℕ → Text → Message → Bool
is_hit matches group_id q m =
    (m.group_id == group_id)
    && (is_user_type m.type && (not (is_some m.deleted_at) && matches m.content q))

unfoldable pub search : (Text → Text → Bool) → RequestId → Text → Db → List Message
search matches group_id q db =
    take search_result_limit
      (sort_by newest_first (keep (is_hit matches group_id.value q) db.messages))

-- findPage()
pub record Page : Type 0 where
  pub rows : List Message
  pub limit : ℕ
  pub next_cursor : Option Text
  pub has_more : Bool

-- The keyset predicate: the row-value comparison in its OR form.
abbrev pub is_below : (created_at id : ℕ) → Message → Bool
is_below created_at id m =
    ltb m.created_at created_at || ((m.created_at == created_at) && ltb m.id id)

abbrev pub is_row_of : ℕ → Message → Bool
is_row_of group_id m = m.group_id == group_id

abbrev pub last : List Message → Option Message
last [] = none
last (m ∷ ms) = if is_some (last ms) then last ms else some m

module _ (p : Platform) where
  -- `cursor ? decodeCursor(cursor) : null`
  abbrev position : Option Text → Result (Option KeysetCursor)
  position none = ok none
  position (some []) = ok none
  position (some (c ∷ raw)) = do ok (some (← decode_cursor p (c ∷ raw)))

  -- The `where` clause; Prisma refuses an id that is no uuid.
  abbrev predicate : ℕ → Option KeysetCursor → Result (Message → Bool)
  predicate group_id none = ok (is_row_of group_id)
  predicate group_id (some c) = do
    id ← or_throw (p.read_uuid c.id) (prisma unmapped none)
    ok (λ m. is_row_of group_id m && is_below c.created_at id m)

  abbrev pub cursor_at : Option Message → Option Text
  cursor_at none = none
  cursor_at (some m) =
      some (encode_cursor p (record { created_at = m.created_at; id = p.spell m.id }))

  abbrev pub page_of : ℕ → List Message → Page
  page_of limit rows =
      let has_more = ltb limit (length rows) in
      let page = if has_more then take limit rows else rows in
      record {
        rows = page;
        limit = limit;
        next_cursor = if has_more then cursor_at (last page) else none;
        has_more = has_more;
      }

  unfoldable pub find_page : RequestId → (limit : ℕ) → Option Text → Db → Result Page
  find_page group_id limit cursor db = do
    decoded ← position cursor
    test ← predicate group_id.value decoded
    ok (page_of limit (take (suc limit) (sort_by newest_first (keep test db.messages))))
