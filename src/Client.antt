-- ===== src/Client.antt =====
-- frontend/src/lib: what a browser tab caches of one group, how the socket's events change it
-- (socket/socket-provider.tsx), and the list that is shown (queries/messages.ts). TanStack Query
-- is its two calls: a value under a key, and a function applied to it. A message keeps its row and
-- its reactions; the names of its sender follow from the row.
pub mod Cache
pub mod World
pub mod Mirror
pub mod Older
pub mod Refines
pub mod Chips
pub mod Roster
pub mod Races
pub mod Receipts
pub mod Paging
use internship_project.Base.{
  ℕ, Bool, true, false, not, ◌||◌, ◌&&◌, List, [], ◌∷◌, ◌++◌, map, Option, none, some, Text,
  text_eq, ltb, leb, ◌==◌, if◌then◌else◌, find, keep, any, put_all, sort_by,
}
use internship_project.Schema.{Message, GroupMember, Reaction, Db, owner, member}
use internship_project.Events.{
  RequestId, Event, member_joined, member_left, owner_changed, read_marked, message_created,
  message_updated, reaction_changed,
}
use internship_project.Messages.{message_id}
use internship_project.Reactions.{reactions_of}

pub record ReactionView : Type 0 where
  pub emoji : Text
  pub user_id : ℕ

pub record MessageView : Type 0 where
  pub row : Message
  pub reactions : List ReactionView

pub record MessagePage : Type 0 where
  pub rows : List MessageView
  pub next_cursor : Option Text

-- The three cached values of a group: messageKeys.history, messageKeys.live and groupKeys.detail.
pub record GroupCache : Type 0 where
  pub history : Option (List MessagePage)
  pub live : List MessageView
  pub members : Option (List GroupMember)

-- A tab that has just opened the group.
abbrev pub empty_cache : GroupCache
empty_cache = record { history = none; live = []; members = none }

abbrev pub view_id : MessageView → ℕ
view_id v = v.row.id

-- The server's side: MESSAGE_SELECT, and `select: { emoji: true, userId: true }`.
abbrev pub reaction_view : Reaction → ReactionView
reaction_view r = record { emoji = r.emoji; user_id = r.user_id }

abbrev pub select_message : Db → Message → MessageView
select_message db m = record { row = m; reactions = map reaction_view (reactions_of m.id db) }

-- new_message: append to the live buffer, once.
abbrev pub append_once : MessageView → List MessageView → List MessageView
append_once v old = if any (λ m. view_id m == view_id v) old then old else old ++ v ∷ []

abbrev pub on_new_message : MessageView → GroupCache → GroupCache
on_new_message v c = record c { live = append_once v c.live }

-- `old.map(f)` on the live buffer, and `pg.data.map(f)` on every page of the history.
abbrev pub map_page : (MessageView → MessageView) → MessagePage → MessagePage
map_page f pg = record pg { rows = map f pg.rows }

abbrev pub map_pages :
    (MessageView → MessageView) → Option (List MessagePage) → Option (List MessagePage)
map_pages f none = none
map_pages f (some pages) = some (map (map_page f) pages)

unfoldable pub map_messages : (MessageView → MessageView) → GroupCache → GroupCache
map_messages f c = record c { live = map f c.live; history = map_pages f c.history }

-- message_updated and reaction_updated
abbrev pub replace : MessageView → MessageView → MessageView
replace v m = if view_id m == view_id v then v else m

abbrev pub patch : ℕ → List ReactionView → MessageView → MessageView
patch id reactions m = if view_id m == id then record m { reactions = reactions } else m

-- member_joined, member_left, owner_changed and read_receipt, on a detail that is loaded.
abbrev pub add_member : GroupMember → List GroupMember → List GroupMember
add_member m old = if not (any (λ n. n.user_id == m.user_id) old) then old ++ m ∷ [] else old

abbrev pub drop_member : ℕ → List GroupMember → List GroupMember
drop_member user_id = keep (λ m. not (m.user_id == user_id))

abbrev pub flip_roles : (previous_owner_id new_owner_id : ℕ) → GroupMember → GroupMember
flip_roles previous_owner_id new_owner_id m =
    if m.user_id == new_owner_id
    then record m { role = owner }
    else if m.user_id == previous_owner_id
    then record m { role = member }
    else m

abbrev pub move_receipt : (user_id last_read_at : ℕ) → GroupMember → GroupMember
move_receipt user_id last_read_at m =
    if m.user_id == user_id then record m { last_read_at = some last_read_at } else m

abbrev pub on_members :
    (List GroupMember → List GroupMember) → Option (List GroupMember) → Option (List GroupMember)
on_members f none = none
on_members f (some old) = some (f old)

abbrev pub with_members : (List GroupMember → List GroupMember) → GroupCache → GroupCache
with_members f c = record c { members = on_members f c.members }

-- An event changes the values under its own group's keys. `key` is the group id of this cache,
-- `spell` is how the server writes an id, and `db` is the database when the event was emitted.
module _ (spell : ℕ → Text) (key : Text) where
  abbrev addressed : Text → (GroupCache → GroupCache) → GroupCache → GroupCache
  addressed group_id f c = if text_eq group_id key then f c else c

  unfoldable pub deliver : Db → Event → GroupCache → GroupCache
  unfolding map_messages
  deliver db (message_created m) =
      addressed (spell m.group_id) (on_new_message (select_message db m))
  deliver db (message_updated m) =
      addressed (spell m.group_id) (map_messages (replace (select_message db m)))
  deliver db (reaction_changed group_id id reactions) =
      addressed group_id.raw (map_messages (patch id (map reaction_view reactions)))
  deliver db (member_joined group_id m) = addressed group_id.raw (with_members (add_member m))
  deliver db (member_left group_id user_id) =
      addressed group_id.raw (with_members (drop_member user_id))
  deliver db (owner_changed group_id previous_owner_id new_owner_id) =
      addressed group_id.raw (with_members (map (flip_roles previous_owner_id new_owner_id)))
  deliver db (read_marked group_id user_id last_read_at) =
      addressed group_id.raw (with_members (map (move_receipt user_id last_read_at)))

  unfoldable pub deliver_all : Db → List Event → GroupCache → GroupCache
  unfolding deliver
  deliver_all db [] c = c
  deliver_all db (e ∷ events) c = deliver_all db events (deliver db e c)

-- useGroupMessages(): the pages and then the live buffer into one Map, sorted.
abbrev pub page_rows : List MessagePage → List MessageView
page_rows [] = []
page_rows (pg ∷ pages) = pg.rows ++ page_rows pages

abbrev pub history_rows : Option (List MessagePage) → List MessageView
history_rows none = []
history_rows (some pages) = page_rows pages

abbrev pub cached : GroupCache → List MessageView
cached c = history_rows c.history ++ c.live

-- Instants and ids are written with a fixed width, so `localeCompare` orders them as numbers.
abbrev pub oldest_first : MessageView → MessageView → Bool
oldest_first v w =
    ltb v.row.created_at w.row.created_at
    || ((v.row.created_at == w.row.created_at) && leb v.row.id w.row.id)

unfoldable pub shown : GroupCache → List MessageView
shown c = sort_by oldest_first (put_all view_id [] (cached c))
