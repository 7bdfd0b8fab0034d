-- ===== src/Client/World.antt =====
-- A tab beside the server: the server's message methods, each followed by the delivery of its
-- events to the tab, and the tab's requests for older pages. It is a step relation on the database
-- and the tab's cache of one group.
use internship_project.Base.{ℕ, ◌≡◌, ◌≢◌, List, [], ◌∷◌, ◌++◌, map, Option, none, some, Text, All}
use internship_project.Http.{Result, ok, err}
use internship_project.Schema.{Db}
use internship_project.Events.{RequestId, Outcome}
use internship_project.Cursor.{Platform}
use internship_project.Messages.{
  Attachment, create, create_with_attachment, edit, soft_delete, Page, find_page,
}
use internship_project.Reactions.{Tap, toggle}
use internship_project.Client.{MessagePage, GroupCache, select_message, deliver_all}

-- PAGE_SIZE
abbrev pub page_size : ℕ
page_size = 20

abbrev pub last_page : List MessagePage → Option MessagePage
last_page [] = none
last_page (pg ∷ pages) = if_last (last_page pages) pg
  where
    if_last : Option MessagePage → MessagePage → Option MessagePage
    if_last none pg = some pg
    if_last (some later) pg = some later

-- The cursor of the next request, or `none` where there is no next page: initialPageParam and
-- getNextPageParam.
abbrev pub cursor_after : Option MessagePage → Option (Option Text)
cursor_after none = some none
cursor_after (some pg) = elim pg.next_cursor [ none ↦ none | some c ↦ some (some c) ]

abbrev pub loaded_pages : Option (List MessagePage) → List MessagePage
loaded_pages none = []
loaded_pages (some pages) = pages

abbrev pub page_view : Db → Page → MessagePage
page_view db page = record {
  rows = map (select_message db) page.rows;
  next_cursor = page.next_cursor;
}

abbrev pub add_page : Db → Result Page → GroupCache → GroupCache
add_page db (err e) c = c
add_page db (ok page) c = record c {
  history = some (loaded_pages c.history ++ page_view db page ∷ []);
}

pub record World : Type 0 where
  pub db : Db
  pub cache : GroupCache

-- `at` is the group of the tab, as its address bar spells it.
module _ (p : Platform) (at : RequestId) where
  abbrev pub request_page : Option (Option Text) → Db → GroupCache → GroupCache
  request_page none db c = c
  request_page (some cursor) db c = add_page db (find_page p at page_size cursor db) c

  unfoldable pub load_older : Db → GroupCache → GroupCache
  load_older db c = request_page (cursor_after (last_page (loaded_pages c.history))) db c

  abbrev pub after : {A : Type 0} → GroupCache → Outcome A → World
  after c o = record { db = o.db; cache = deliver_all p.spell at.raw o.db o.events c }

  pub data Step (w : World) : World → Type 0 where
    posted :
        (id now : ℕ) (group_id : RequestId) (sender_id : ℕ) (content : Text)
        → All (λ m. m.id ≢ id) w.db.messages
        → Step w (after w.cache (create id now group_id sender_id content w.db))
    attached :
        (id now : ℕ) (group_id : RequestId) (sender_id : ℕ) (content : Text) (a : Attachment)
        → All (λ m. m.id ≢ id) w.db.messages
        → Step w (after w.cache (create_with_attachment id now group_id sender_id content a w.db))
    revised :
        (now group_id id user_id : ℕ) (content : Text)
        → Step w (after w.cache (edit now group_id id user_id content w.db))
    deleted :
        (now group_id id user_id : ℕ)
        → Step w (after w.cache (soft_delete now group_id id user_id w.db))
    reacted :
        (id : ℕ) (group_id : RequestId) (t : Tap)
        → group_id.raw ≡ p.spell group_id.value
        → Step w (after w.cache (toggle id group_id t w.db))
    loaded : Step w (record w { cache = load_older w.db w.cache })

  pub data Reaches (w : World) : World → Type 0 where
    here : Reaches w w
    next : {v u : World} → Reaches w v → Step v u → Reaches w u
