-- ===== src/Client/Cache.antt =====
-- useGroupMessages() and the message events on the cache: what a lookup by id finds afterwards.
use internship_project.Base.{
  ℕ, ◌≡◌, refl, ap, sym, ◌∙◌, inl, inr, false, arith, List, [], ◌∷◌, ◌++◌, map, append_assoc,
  map-append, Option, none, some, find, any, keyed, ◌==◌, if◌then◌else◌, Bool-cases, Option-cases,
  put_all, latest, latest-append, latest-map, find-put_all, Distinct-put_all, Distinct,
  Distinct-sort_by, find-sort_by, or_else, or_else-none, IsTotalOrder, IsOrdered, sort_by-IsOrdered,
  is_some,
}
use mathlib.Core.Option as Opt
use internship_project.Client.{
  MessageView, MessagePage, GroupCache, view_id, on_new_message, map_page, map_pages, map_messages,
  page_rows, history_rows, cached, oldest_first, shown,
}

oldest_first_order : IsTotalOrder oldest_first
oldest_first_order = record { total = λ m n h. ground arith; trans = λ l m n h k. ground arith }

pub shown-IsOrdered : (c : GroupCache) → IsOrdered oldest_first (shown c)
unfolding shown
shown-IsOrdered c = sort_by-IsOrdered oldest_first_order _

pub shown-Distinct : (c : GroupCache) → Distinct view_id (shown c)
unfolding shown
shown-Distinct c =
    Distinct-sort_by view_id oldest_first _ (Distinct-put_all view_id [] (cached c) tt)

-- The list shows the last cached version of each message.
pub find-shown :
    (c : GroupCache) (id : ℕ) → find (keyed view_id id) (shown c) ≡ latest view_id id (cached c)
unfolding shown
find-shown c id =
    find-sort_by view_id oldest_first id (put_all view_id [] (cached c))
      (Distinct-put_all view_id [] (cached c) tt)
    ∙ find-put_all view_id id [] (cached c)
    ∙ or_else-none _

page_rows-map :
    (f : MessageView → MessageView) (pages : List MessagePage)
    → page_rows (map (map_page f) pages) ≡ map f (page_rows pages)
page_rows-map f [] = refl
page_rows-map f (pg ∷ pages) =
    ap (◌++◌ (map f pg.rows)) (page_rows-map f pages) ∙ sym (map-append f pg.rows (page_rows pages))

cached-map_messages :
    (f : MessageView → MessageView) (c : GroupCache) → cached (map_messages f c) ≡ map f (cached c)
unfolding map_messages
cached-map_messages f c = history_cases c.history
  where
    history_cases :
        (h : Option (List MessagePage))
        → history_rows (map_pages f h) ++ map f c.live ≡ map f (history_rows h ++ c.live)
    history_cases none = refl
    history_cases (some pages) =
        ap (λ rows. rows ++ map f c.live) (page_rows-map f pages)
        ∙ sym (map-append f (page_rows pages) c.live)

pub latest-map_messages :
    (f : MessageView → MessageView) (c : GroupCache)
    → ((m : MessageView) → view_id (f m) ≡ view_id m)
    → (id : ℕ)
    → latest view_id id (cached (map_messages f c)) ≡ Opt.map f (latest view_id id (cached c))
latest-map_messages f c h id =
    ap (latest view_id id) (cached-map_messages f c) ∙ latest-map view_id f h id (cached c)

any-latest :
    (id : ℕ) (ms : List MessageView)
    → any (λ m. view_id m == id) ms ≡ is_some (latest view_id id ms)
any-latest id [] = refl
any-latest id (m ∷ ms) = elim (Option-cases (latest view_id id ms)) [
  | inl e ↦
      rw (any-latest id ms, e)
        (elim (Bool-cases (view_id m == id)) [ inl t ↦ rw t refl | inr t ↦ rw t refl ])
  | inr (v, e) ↦
      rw (any-latest id ms, e)
        (elim (Bool-cases (view_id m == id)) [ inl t ↦ rw t refl | inr t ↦ rw t refl ])
]

-- A message that is not cached is appended, and nothing else is found differently.
pub latest-on_new_message :
    (v : MessageView) (c : GroupCache)
    → latest view_id (view_id v) (cached c) ≡ none
    → (id : ℕ)
    → latest view_id id (cached (on_new_message v c))
      ≡ (if view_id v == id then some v else latest view_id id (cached c))
latest-on_new_message v c fresh id =
    let apart = latest-append view_id (view_id v) (history_rows c.history) c.live in
    let new : any (λ m. view_id m == view_id v) c.live ≡ false =
      any-latest (view_id v) c.live
      ∙ empty (latest view_id (view_id v) c.live) _ (sym apart ∙ fresh) in
    rw new (
      ap (latest view_id id) (sym (append_assoc (history_rows c.history) c.live (v ∷ [])))
      ∙ latest-append view_id id (cached c) (v ∷ [])
      ∙ elim (Bool-cases (view_id v == id)) [ inl t ↦ rw t refl | inr t ↦ rw t refl ])
  where
    empty : (o p : Option MessageView) → or_else o p ≡ none → is_some o ≡ false
    empty none p e = refl
    empty (some m) p e = cc

-- A message in the live buffer is shown as it stands there, whatever the pages of the history say
-- of it: a page that is fetched again does not repair it.
pub shown-live :
    (c : GroupCache) (id : ℕ) (v : MessageView) (pages : Option (List MessagePage))
    → latest view_id id c.live ≡ some v
    → find (keyed view_id id) (shown (record c { history = pages })) ≡ some v
shown-live c id v pages e =
    find-shown (record c { history = pages }) id
    ∙ latest-append view_id id (history_rows pages) c.live
    ∙ rw e refl
