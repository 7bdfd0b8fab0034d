-- ===== src/Client/Older.antt =====
-- reaction_updated and the request for an older page, on a tab that mirrors the database.
use internship_project.Base.{
  ℕ, ◌≡◌, refl, ap, sym, ◌∙◌, inl, inr, true, false, arith, List, [], ◌∷◌, ◌++◌, map, append_assoc,
  Option, none, some, Text, text_eq, ◌==◌, ==_iff, if◌then◌else◌, Bool-cases, Option-cases, find,
  Has, Has-find, test-find, All, eq_of_key, latest, latest-append, All-latest, or_else,
  find-eq-none, count-one, indicator, append-nil,
}
use mathlib.Core.Option as Opt
use internship_project.Schema.{Message, Reaction, Db}
use internship_project.Events.{RequestId, Outcome}
use internship_project.Cursor.{Platform, IsLawful}
use internship_project.Http.{Result, ok, err}
use internship_project.Messages.{message_id, is_message_of, Page, find_page}
use internship_project.Messages.PageRows.{find_page-rows}
use internship_project.Reactions.{Tap, reactions_of}
use internship_project.Reactions.Sets.{IsTapped, Taps}
use internship_project.Client.{
  ReactionView, MessageView, MessagePage, GroupCache, view_id, select_message, map_messages, patch,
  cached, reaction_view, deliver_all, page_rows, history_rows,
}
use internship_project.Client.Cache.{latest-map_messages}
use internship_project.Client.World.{
  World, after, load_older, loaded_pages, page_view, page_size, add_page, request_page,
}
use internship_project.Client.Mirror.{stored, IsShown, IsMirror, address}

pub page_rows-snoc :
    (pages : List MessagePage) (pg : MessagePage)
    → page_rows (pages ++ pg ∷ []) ≡ page_rows pages ++ pg.rows
page_rows-snoc [] pg = append-nil pg.rows
page_rows-snoc (x ∷ pages) pg =
    ap (◌++◌ x.rows) (page_rows-snoc pages pg) ∙ sym (append_assoc x.rows (page_rows pages) pg.rows)

pub page_rows-loaded : (h : Option (List MessagePage)) → page_rows (loaded_pages h) ≡ history_rows h
page_rows-loaded none = refl
page_rows-loaded (some pages) = refl

-- A page that is added at the old end: the newer versions still win.
latest-add_page :
    (i : ℕ) (c : GroupCache) (pg : MessagePage)
    → latest view_id i (cached (record c { history = some (loaded_pages c.history ++ pg ∷ []) }))
      ≡ or_else
          (latest view_id i c.live)
          (or_else (latest view_id i pg.rows) (latest view_id i (history_rows c.history)))
latest-add_page i c pg =
    latest-append view_id i (page_rows (loaded_pages c.history ++ pg ∷ [])) c.live
    ∙ ap (or_else (latest view_id i c.live)) (
        ap (latest view_id i) (page_rows-snoc (loaded_pages c.history) pg)
        ∙ latest-append view_id i (page_rows (loaded_pages c.history)) pg.rows
        ∙ ap (λ rows. or_else (latest view_id i pg.rows) (latest view_id i rows))
            (page_rows-loaded c.history))

module _ (at : RequestId) (start : Db) (w : World) (mirror : IsMirror at.value start w) where
  -- A tap on message `t.message_id` of group `g` leaves `db'`.
  module _ (g : RequestId) (t : Tap) (db' : Db) (m : Message)
      (found : find (is_message_of g.value t.message_id) w.db.messages ≡ some m)
      (tapped : IsTapped t w.db db') where
    new_set : List ReactionView
    new_set = map reaction_view (reactions_of t.message_id db')

    same_messages : db'.messages ≡ w.db.messages
    same_messages = ap Db.messages tapped.rest

    -- A stored message with the tapped id is the one that was found, so the groups agree.
    same_group :
        (i : ℕ) (x : Message)
        → find (is_message_of at.value i) w.db.messages ≡ some x
        → i ≡ t.message_id
        → g.value ≡ at.value
    same_group i x e h =
        let tx = test-find (is_message_of at.value i) w.db.messages x e in
        let tm = test-find (is_message_of g.value t.message_id) w.db.messages m found in
        let same : x ≡ m =
          eq_of_key message_id x m w.db.messages mirror.distinct
            (Has-find (is_message_of at.value i) w.db.messages x e)
            (Has-find (is_message_of g.value t.message_id) w.db.messages m found)
            (ground (arith, tx, tm, h)) in
        let group : x.group_id ≡ m.group_id = ap Message.group_id same in
        ground (arith, tx, tm, group)

    stored-here :
        (i : ℕ)
        → stored at.value i db' ≡ Opt.map (patch t.message_id new_set) (stored at.value i w.db)
    unfolding new_set
    stored-here i = elim (Option-cases (find (is_message_of at.value i) w.db.messages)) [
      | inl e ↦ rw (same_messages, e) refl
      | inr (x, e) ↦ elim (Bool-cases (x.id == t.message_id)) [
        | inl s ↦
            rw (same_messages, e, s)
              (ap
                (λ k. some (record { row = x; reactions = map reaction_view (reactions_of k db') }))
                ((==_iff x.id t.message_id).0 s))
        | inr s ↦
            rw (same_messages, e, s)
              (ap (λ rs. some (record { row = x; reactions = map reaction_view rs }))
                (tapped.others x.id (ground (arith, s))))
      ]
    ]

    stored-elsewhere :
        (g.value == at.value) ≡ false → (i : ℕ) → stored at.value i db' ≡ stored at.value i w.db
    stored-elsewhere away i = elim (Option-cases (find (is_message_of at.value i) w.db.messages)) [
      | inl e ↦ rw (same_messages, e) refl
      | inr (x, e) ↦
          rw (same_messages, e)
            (ap (λ rs. some (record { row = x; reactions = map reaction_view rs }))
              (tapped.others x.id (λ h.
                let tx = test-find (is_message_of at.value i) w.db.messages x e in
                let here = same_group i x e (ground (arith, tx, h)) in
                absurd (ground (arith, away, here)))))
    ]

    IsShown-tapped :
        (i : ℕ)
        → IsShown at.value i start db' (
            latest view_id i (
              cached (
                if g.value == at.value
                then map_messages (patch t.message_id new_set) w.cache
                else w.cache)))
    IsShown-tapped i = elim (Bool-cases (g.value == at.value)) [
      | inr away ↦ rw (away, stored-elsewhere away i) (mirror.mirrors i)
      | inl here ↦
          rw
            (
              here,
              latest-map_messages (patch t.message_id new_set) w.cache
                  (λ n. ground (arith, ==_iff n.row.id t.message_id)) i,
              stored-here i,
            )
            (elim (mirror.mirrors i) [
              | inl e ↦ inl (ap (Opt.map (patch t.message_id new_set)) e)
              | inr (e, old) ↦ inr (ap (Opt.map (patch t.message_id new_set)) e, old)
            ])
    ]

  -- The row of the page that has an id is the stored one.
  find-listed :
      (i : ℕ) (x : Message)
      → Has x w.db.messages
      → x.group_id ≡ at.value
      → x.id ≡ i
      → find (is_message_of at.value i) w.db.messages ≡ some x
  find-listed i x listed g h =
      let passes : is_message_of at.value i x ≡ true = ground (arith, g, h) in
      elim (Option-cases (find (is_message_of at.value i) w.db.messages)) [
        | inl e ↦ absurd (
            omega (
              arith,
              find-eq-none (is_message_of at.value i) w.db.messages e,
              count-one (is_message_of at.value i) x w.db.messages listed,
              ap indicator passes,
            ))
        | inr (y, e) ↦
            let ty = test-find (is_message_of at.value i) w.db.messages y e in
            e
            ∙ ap some (
                eq_of_key message_id y x w.db.messages mirror.distinct
                  (Has-find (is_message_of at.value i) w.db.messages y e) listed
                  (ground (arith, ty, h)))
      ]

  IsStoredView : MessageView → Type 0
  IsStoredView v =
      (v ≡ select_message w.db v.row) × Has v.row w.db.messages × (v.row.group_id ≡ at.value)

  All-page_view :
      (rows : List Message)
      → All (λ m. Has m w.db.messages × (m.group_id ≡ at.value)) rows
      → All IsStoredView (map (select_message w.db) rows)
  unfolding IsStoredView
  All-page_view [] h = tt
  All-page_view (m ∷ rows) ((i, g), h) = ((refl, i, g), All-page_view rows h)

  latest-page :
      (i : ℕ) (rows : List Message) (v : MessageView)
      → All (λ m. Has m w.db.messages × (m.group_id ≡ at.value)) rows
      → latest view_id i (map (select_message w.db) rows) ≡ some v
      → some v ≡ stored at.value i w.db
  unfolding IsStoredView
  latest-page i rows v h e =
      let ((same, listed, g), at_id) =
        All-latest view_id IsStoredView i _ v (All-page_view rows h) e in
      ap some same ∙ sym (ap (Opt.map (select_message w.db)) (find-listed i v.row listed g at_id))

  IsShown-add_page :
      (page : Page)
      → All (λ m. Has m w.db.messages × (m.group_id ≡ at.value)) page.rows
      → (i : ℕ)
      → IsShown at.value i start w.db (
          latest view_id i (
            cached (record w.cache {
              history = some (loaded_pages w.cache.history ++ page_view w.db page ∷ []);
            })))
  IsShown-add_page page h i =
      let old = latest-append view_id i (history_rows w.cache.history) w.cache.live in
      rw (latest-add_page i w.cache (page_view w.db page))
        (elim (Option-cases (latest view_id i w.cache.live)) [
          | inr (v, e) ↦ rw e (rw (old, e) at (mirror.mirrors i))
          | inl e ↦ elim (Option-cases (latest view_id i (map (select_message w.db) page.rows))) [
            | inl k ↦ rw (e, k) (rw (old, e) at (mirror.mirrors i))
            | inr (v, k) ↦ rw (e, k) (inl (latest-page i page.rows v h k))
          ]
        ])

module _ (p : Platform) (lawful : IsLawful p) (at : RequestId)
    (canonical : at.raw ≡ p.spell at.value) (start : Db) (w : World)
    (mirror : IsMirror at.value start w) where
  pub IsMirror-tap :
      (g : RequestId) (t : Tap) (o : Outcome (List Reaction))
      → g.raw ≡ p.spell g.value
      → Taps g t w.db o
      → IsMirror at.value start (after p at w.cache o)
  unfolding deliver_all new_set
  IsMirror-tap g t o spelled (inr (d, e)) = rw (d, e) mirror
  IsMirror-tap g t o spelled (inl (m, found, tapped, e)) =
      let aim : text_eq g.raw at.raw ≡ (g.value == at.value) =
        ap (λ s. text_eq s at.raw) spelled ∙ address p lawful at canonical g.value in
      rw e (
        rw aim (record {
          distinct = rw (ap Db.messages tapped.rest) mirror.distinct;
          mirrors = IsShown-tapped at start w mirror g t o.db m found tapped;
        }))

  IsMirror-request :
      (cursor : Option (Option Text))
      → IsMirror at.value start (record w { cache = request_page p at cursor w.db w.cache })
  IsMirror-request none = mirror
  IsMirror-request (some cursor) = answered (find_page p at page_size cursor w.db) refl
    where
      answered :
          (r : Result Page)
          → find_page p at page_size cursor w.db ≡ r
          → IsMirror at.value start (record w { cache = add_page w.db r w.cache })
      answered (err x) e = mirror
      answered (ok page) e = record {
        distinct = mirror.distinct;
        mirrors =
            IsShown-add_page at start w mirror page
              (find_page-rows p at page_size cursor w.db page e);
      }

  pub IsMirror-load : IsMirror at.value start (record w { cache = load_older p at w.db w.cache })
  unfolding load_older
  IsMirror-load = IsMirror-request _
