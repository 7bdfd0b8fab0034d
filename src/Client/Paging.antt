-- ===== src/Client/Paging.antt =====
-- "Load older" of a tab, pressed until there is nothing older: useGroupMessages() of
-- frontend/src/lib/queries/messages.ts beside findPage() of the server.
use internship_project.Base.{
  ℕ, zero, suc, ◌≡◌, refl, sym, ap, ◌∙◌, inl, inr, arith, List, [], ◌∷◌, ◌++◌, map, map-append,
  append_assoc, Option, none, some, Text, Option-cases, length, Distinct, sort_by, keep,
}
use internship_project.Http.{ok, >>=-eq-ok, ok-injective}
use internship_project.Schema.{Message, Db}
use internship_project.Events.{RequestId}
use internship_project.Cursor.{Platform, IsLawful}
use internship_project.Messages.{message_id, newest_first, is_row_of, Page, find_page}
use internship_project.Messages.Pages.{load_all, history, load_all-history}
use internship_project.Client.{MessagePage, GroupCache, empty_cache, select_message, history_rows}
use internship_project.Client.World.{
  page_size, last_page, cursor_after, loaded_pages, page_view, load_older,
}
use internship_project.Client.Older.{page_rows-snoc, page_rows-loaded}

-- The next request of a tab, or `none` where hasOlder is false.
abbrev pub next_request : GroupCache → Option (Option Text)
next_request c = cursor_after (last_page (loaded_pages c.history))

last_page-snoc :
    (pages : List MessagePage) (pg : MessagePage) → last_page (pages ++ pg ∷ []) ≡ some pg
last_page-snoc [] pg = refl
last_page-snoc (x ∷ pages) pg = rw (last_page-snoc pages pg) refl

abbrev with_page : Db → Page → GroupCache → GroupCache
with_page db page c = record c { history = some (loaded_pages c.history ++ page_view db page ∷ []) }

rows-with_page :
    (db : Db) (page : Page) (c : GroupCache)
    → history_rows (with_page db page c).history
      ≡ history_rows c.history ++ map (select_message db) page.rows
rows-with_page db page c =
    page_rows-snoc (loaded_pages c.history) (page_view db page)
    ∙ ap (λ rows. rows ++ map (select_message db) page.rows) (page_rows-loaded c.history)

module _ (p : Platform) (at : RequestId) (db : Db) where
  -- The button, pressed a number of times.
  unfoldable pub load_times : ℕ → GroupCache → GroupCache
  load_times zero c = c
  load_times (suc k) c = load_times k (load_older p at db c)

  load_older-with_page :
      (cursor : Option Text) (page : Page) (c : GroupCache)
      → next_request c ≡ some cursor
      → find_page p at page_size cursor db ≡ ok page
      → load_older p at db c ≡ with_page db page c
  unfolding load_older
  load_older-with_page cursor page c e h = rw (e, h) refl

  load_times_done : (k : ℕ) (c : GroupCache) → next_request c ≡ none → load_times k c ≡ c
  unfolding load_times load_older
  load_times_done zero c e = refl
  load_times_done (suc k) c e = rw e (load_times_done k c e)

  abbrev IsLoaded : GroupCache → GroupCache → List Message → Type 0
  IsLoaded c c' rows =
      (history_rows c'.history ≡ history_rows c.history ++ map (select_message db) rows)
      × (next_request c' ≡ none)

  -- The tab reads what a client reads that follows the cursors.
  load_times-load_all :
      (fuel : ℕ) (cursor : Option Text) (c : GroupCache) (rows : List Message)
      → next_request c ≡ some cursor
      → load_all p at page_size db fuel cursor ≡ ok rows
      → IsLoaded c (load_times fuel c) rows
  unfolding load_all load_times
  load_times-load_all zero cursor c rows e h = cc
  load_times-load_all (suc fuel) cursor c rows e h =
      let (page, found, rest) = >>=-eq-ok (find_page p at page_size cursor db) _ h in
      let step = load_older-with_page cursor page c e found in
      let stepped : load_times (suc fuel) c ≡ load_times fuel (with_page db page c) =
        ap (load_times fuel) step in
      let behind = last_page-snoc (loaded_pages c.history) (page_view db page) in
      elim (Option-cases page.next_cursor) [
        | inl l ↦
            let over : next_request (with_page db page c) ≡ none = rw (behind, l) refl in
            let all : page.rows ≡ rows = ok-injective (rw l at rest) in
            rw (stepped, load_times_done fuel (with_page db page c) over)
              (rows-with_page db page c ∙ rw all refl, over)
        | inr (cursor', l) ↦
            let (older, h2, h3) =
              >>=-eq-ok (load_all p at page_size db fuel (some cursor')) _ (rw l at rest) in
            let on : next_request (with_page db page c) ≡ some (some cursor') =
              rw (behind, l) refl in
            let (r, over) =
              load_times-load_all fuel (some cursor') (with_page db page c) older on h2 in
            let all : page.rows ++ older ≡ rows = ok-injective h3 in
            rw stepped (
              r
                  ∙ ap (λ rows. rows ++ map (select_message db) older) (rows-with_page db page c)
                  ∙ append_assoc (history_rows c.history) (map (select_message db) page.rows)
                      (map (select_message db) older)
                  ∙ ap (◌++◌ (history_rows c.history)) (
                      sym (map-append (select_message db) page.rows older)
                      ∙ ap (map (select_message db)) all),
              over,
            )
      ]

-- A tab that opens a group and asks for older messages comes to an end: after as many requests as the
-- group has messages, and one, there is nothing older to ask for, and the tab holds every message of
-- the group once, newest first. Nothing is posted in the meantime; the ids are distinct, and Node's
-- codecs and Postgres's uuids round-trip.
pub load_times-history :
    (p : Platform) (at : RequestId) (db : Db)
    → IsLawful p
    → Distinct message_id (history p at page_size db)
    → (next_request (load_times p at db (suc (length (history p at page_size db))) empty_cache)
        ≡ none)
      × (history_rows
            (load_times p at db (suc (length (history p at page_size db))) empty_cache).history
          ≡ map (select_message db) (sort_by newest_first (keep (is_row_of at.value) db.messages)))
load_times-history p at db lawful distinct =
    let (rows, over) =
      load_times-load_all p at db (suc (length (history p at page_size db))) none empty_cache _ refl
        (load_all-history p at page_size db lawful (omega arith) distinct) in
    (over, rows)
