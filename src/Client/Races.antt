-- ===== src/Client/Races.antt =====
-- An answer that is still under way when an event arrives: useGroupMessages() of
-- frontend/src/lib/queries/messages.ts beside the handlers of lib/socket/socket-provider.tsx.
use internship_project.Base.{
  ℕ, ◌≡◌, refl, ◌∙◌, inl, inr, arith, append-nil, map, none, some, text_eq, Bool-cases, find, keyed,
  latest, latest-append, latest-map,
}
use internship_project.Http.{ok}
use internship_project.Schema.{Message, Db}
use internship_project.Events.{RequestId}
use internship_project.Cursor.{Platform}
use internship_project.Messages.{Page, find_page, soft_delete, tombstoned}
use internship_project.Messages.Edit.{soft_delete-Changes}
use internship_project.Client.{
  MessageView, GroupCache, view_id, select_message, replace, map_messages, history_rows, shown,
  deliver_all,
}
use internship_project.Client.Cache.{find-shown}
use internship_project.Client.World.{page_size, add_page}

-- A tab without a first page and without the message ignores news of it.
record Ignores (id : ℕ) (c : GroupCache) : Type 0 where
  unloaded : c.history ≡ none
  unheard : latest view_id id c.live ≡ none

map_messages-Ignores :
    (f : MessageView → MessageView) (id : ℕ) (c : GroupCache)
    → ((m : MessageView) → view_id (f m) ≡ view_id m)
    → Ignores id c
    → Ignores id (map_messages f c)
unfolding map_messages
map_messages-Ignores f id c keeps i = record {
  unloaded = rw i.unloaded refl;
  unheard = latest-map view_id f keeps id c.live ∙ rw i.unheard refl;
}

view_id-replace : (v m : MessageView) → view_id (replace v m) ≡ view_id m
view_id-replace v m = ground arith

find-add_page :
    (db : Db) (page : Page) (id : ℕ) (c : GroupCache)
    → Ignores id c
    → find (keyed view_id id) (shown (add_page db (ok page) c))
      ≡ latest view_id id (map (select_message db) page.rows)
find-add_page db page id c i =
    find-shown (add_page db (ok page) c) id
    ∙ latest-append view_id id (history_rows (add_page db (ok page) c).history) c.live
    ∙ rw (i.unheard, i.unloaded, append-nil {A = MessageView}) refl

-- A request for the first page is answered before a deletion and the answer arrives after it: the
-- deletion finds neither a page nor the message in the live buffer, so the tab then shows the message
-- with the text that it had, although its sender has deleted it and every tab of the group was told.
pub add_page-stale :
    (p : Platform) (at : RequestId) (now id user_id : ℕ) (db : Db) (c : GroupCache) (page : Page)
    (m deleted : Message)
    → find_page p at page_size none db ≡ ok page
    → latest view_id id (map (select_message db) page.rows) ≡ some (select_message db m)
    → c.history ≡ none
    → latest view_id id c.live ≡ none
    → (soft_delete now at.value id user_id db).result ≡ ok deleted
    → find (keyed view_id id) (
        shown (
          add_page db (find_page p at page_size none db) (
            deliver_all p.spell at.raw
              (soft_delete now at.value id user_id db).db
              (soft_delete now at.value id user_id db).events
              c)))
      ≡ some (select_message db m)
unfolding deliver_all
add_page-stale p at now id user_id db c page m deleted answered listed unloaded unheard done =
    let i : Ignores id c = record { unloaded = unloaded; unheard = unheard } in
    elim (soft_delete-Changes now at.value id user_id db) [
      | inr (e, failed, _, _) ↦ absurd (cc (failed, done))
      | inl (x, own, _, events, _) ↦
          let v = select_message (soft_delete now at.value id user_id db).db (tombstoned now x) in
          rw (answered, events)
            (elim (Bool-cases (text_eq (p.spell x.group_id) at.raw)) [
              | inr far ↦ rw far (find-add_page db page id c i ∙ listed)
              | inl near ↦ rw near (
                  find-add_page db page id (map_messages (replace v) c)
                    (map_messages-Ignores (replace v) id c (view_id-replace v) i)
                  ∙ listed)
            ])
    ]
