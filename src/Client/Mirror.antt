-- ===== src/Client/Mirror.antt =====
-- The list that a tab shows, against the database: each step of Client/World keeps them together.
use internship_project.Base.{
  ℕ, ◌≡◌, refl, ap, sym, ◌∙◌, ◌≢◌, ◌⊎◌, inl, inr, true, false, arith, List, [], ◌∷◌, ◌++◌, Option,
  none, some, text_eq, text_eq_iff, ◌==◌, ==_iff, if◌then◌else◌, Bool-cases, Option-cases, find,
  find-snoc, find-update-map, Has, Has-find, test-find, All, update, keyed, Distinct,
  Distinct-update, Distinct-snoc, eq_of_key, latest, or_else-none, is_some,
}
use mathlib.Core.Option as Opt
use internship_project.Schema.{Message, Db}
use internship_project.Events.{RequestId, Outcome}
use internship_project.Cursor.{Platform, IsLawful}
use internship_project.Messages.{message_id, is_message_of}
use internship_project.Messages.Edit.{Changes}
use internship_project.Messages.Effects.{Stores}
use internship_project.Client.{
  MessageView, view_id, select_message, on_new_message, map_messages, replace, cached, deliver_all,
}
use internship_project.Client.Cache.{latest-map_messages, latest-on_new_message}
use internship_project.Client.World.{World, after}

-- The server's row of a message of a group, as a request would read it.
abbrev pub stored : (group_id id : ℕ) → Db → Option MessageView
stored group_id id db = Opt.map (select_message db) (find (is_message_of group_id id) db.messages)

-- A message is shown as it is stored; or it is not shown, and it was stored before the tab opened.
abbrev pub IsShown : (group_id id : ℕ) → (start db : Db) → Option MessageView → Type 0
IsShown group_id id start db v =
    (v ≡ stored group_id id db)
    ⊎ ((v ≡ none) × (is_some (find (is_message_of group_id id) start.messages) ≡ true))

pub record IsMirror (group_id : ℕ) (start : Db) (w : World) : Type 0 where
  pub distinct : Distinct message_id w.db.messages
  pub mirrors : (id : ℕ) → IsShown group_id id start w.db (latest view_id id (cached w.cache))

find-fresh :
    (g i id : ℕ) (ms : List Message)
    → All (λ m. m.id ≢ id) ms
    → i ≡ id
    → find (is_message_of g i) ms ≡ none
find-fresh g i id [] h e = refl
find-fresh g i id (m ∷ ms) (n, h) e = ground (arith, e, n, find-fresh g i id ms h)

module _ (p : Platform) (lawful : IsLawful p) (at : RequestId)
    (canonical : at.raw ≡ p.spell at.value) where
  -- The group id of a row addresses this tab exactly when it is the tab's.
  pub address : (h : ℕ) → text_eq (p.spell h) at.raw ≡ (h == at.value)
  address h = elim (Bool-cases (h == at.value)) [
    | inl e ↦ rw e ((text_eq_iff _ _).1 (ap p.spell ((==_iff h at.value).0 e) ∙ sym canonical))
    | inr e ↦ elim (Bool-cases (text_eq (p.spell h) at.raw)) [
      | inr f ↦ rw (e, f) refl
      | inl f ↦
          let same : p.spell h ≡ p.spell at.value = (text_eq_iff _ _).0 f ∙ canonical in
          let equal : h ≡ at.value = Opt.some-injective _ _ (
            sym (lawful.read_uuid-spell h)
            ∙ ap p.read_uuid same
            ∙ lawful.read_uuid-spell at.value) in
          ground (arith, e, equal)
    ]
  ]

  module _ (start : Db) (w : World) (mirror : IsMirror at.value start w) where
    -- A fresh id is not cached.
    fresh_uncached :
        (id : ℕ) → All (λ m. m.id ≢ id) w.db.messages → latest view_id id (cached w.cache) ≡ none
    fresh_uncached id h = elim (mirror.mirrors id) [
      | inl e ↦
          e ∙ ap (Opt.map (select_message w.db)) (find-fresh at.value id id w.db.messages h refl)
      | inr (e, _) ↦ e
    ]

    IsShown-post :
        (m : Message)
        → All (λ n. n.id ≢ m.id) w.db.messages
        → (i : ℕ)
        → IsShown at.value i start
            (record w.db { messages = w.db.messages ++ m ∷ [] })
            (latest view_id i (
              cached (
                if m.group_id == at.value
                then on_new_message (select_message w.db m) w.cache
                else w.cache)))
    IsShown-post m h i = elim (Bool-cases (is_message_of at.value i m)) [
      | inl t ↦
          let here : (m.group_id == at.value) ≡ true = ground (arith, t) in
          let same : (m.id == i) ≡ true = ground (arith, t) in
          let old = find-fresh at.value i m.id w.db.messages h (ground (arith, t)) in
          rw
            (
              here,
              find-snoc (is_message_of at.value i) w.db.messages m,
              old,
              t,
              latest-on_new_message (select_message w.db m) w.cache (fresh_uncached m.id h) i,
              same,
            )
            (inl refl)
      | inr t ↦
          let kept : latest view_id i (
                cached (
                  if m.group_id == at.value
                  then on_new_message (select_message w.db m) w.cache
                  else w.cache))
              ≡ latest view_id i (cached w.cache) =
            elim (Bool-cases (m.group_id == at.value)) [
              | inl u ↦
                  let other : (m.id == i) ≡ false = ground (arith, t, u) in
                  rw u (
                    latest-on_new_message (select_message w.db m) w.cache (fresh_uncached m.id h) i
                    ∙ rw other refl)
              | inr u ↦ rw u refl
            ] in
          rw
            (
              kept,
              find-snoc (is_message_of at.value i) w.db.messages m,
              t,
              or_else-none (find (is_message_of at.value i) w.db.messages),
            )
            (mirror.mirrors i)
    ]

    pub IsMirror-post :
        (m : Message) (o : Outcome Message)
        → All (λ n. n.id ≢ m.id) w.db.messages
        → Stores m w.db o
        → IsMirror at.value start (after p at w.cache o)
    unfolding deliver_all
    IsMirror-post m o h (inr (d, e)) = rw (d, e) mirror
    IsMirror-post m o h (inl (d, e)) =
        rw (d, e)
          (rw (address m.group_id) (record {
            distinct = Distinct-snoc message_id w.db.messages m mirror.distinct h;
            mirrors = IsShown-post m h;
          }))

    -- A rewrite of one message, by a function that keeps its id and its group.
    module _ (f : Message → Message) (keeps_id : (x : Message) → (f x).id ≡ x.id)
        (keeps_group : (x : Message) → (f x).group_id ≡ x.group_id) (m : Message)
        (listed : Has m w.db.messages) where
      abbrev rewritten : Db
      rewritten = record w.db { messages = update (keyed message_id m.id) f w.db.messages }

      -- The row that a search for a message finds is the rewritten one, or another one.
      found-is :
          (i : ℕ) (x : Message)
          → find (is_message_of at.value i) w.db.messages ≡ some x
          → (x.group_id ≡ at.value) × ((x.id == m.id) ≡ true → x ≡ m)
      found-is i x e =
          let t = test-find (is_message_of at.value i) w.db.messages x e in
          let i_x = Has-find (is_message_of at.value i) w.db.messages x e in
          (
            ground (arith, t),
            λ same.
                eq_of_key message_id x m w.db.messages mirror.distinct i_x listed
                  ((==_iff x.id m.id).0 same),
          )

      stored-here :
          (m.group_id == at.value) ≡ true
          → (i : ℕ)
          → stored at.value i rewritten
            ≡ Opt.map (replace (select_message rewritten (f m))) (stored at.value i w.db)
      stored-here here i =
          let seen =
            find-update-map (is_message_of at.value i) (keyed message_id m.id) f w.db.messages
              (λ x. rw (keeps_id x, keeps_group x) refl) in
          elim (Option-cases (find (is_message_of at.value i) w.db.messages)) [
            | inl e ↦ rw (seen, e) refl
            | inr (x, e) ↦
                let aim : (x.id == (f m).id) ≡ (x.id == m.id) = ap (◌==◌ x.id) (keeps_id m) in
                elim (Bool-cases (x.id == m.id)) [
                  | inl s ↦
                      rw (seen, e, aim ∙ s, s)
                        (ap (λ y. some (select_message rewritten (f y))) ((found-is i x e).1 s))
                  | inr s ↦ rw (seen, e, aim ∙ s, s) refl
                ]
          ]

      stored-elsewhere :
          (m.group_id == at.value) ≡ false
          → (i : ℕ) → stored at.value i rewritten ≡ stored at.value i w.db
      stored-elsewhere away i =
          let seen =
            find-update-map (is_message_of at.value i) (keyed message_id m.id) f w.db.messages
              (λ x. rw (keeps_id x, keeps_group x) refl) in
          elim (Option-cases (find (is_message_of at.value i) w.db.messages)) [
            | inl e ↦ rw (seen, e) refl
            | inr (x, e) ↦ elim (Bool-cases (x.id == m.id)) [
              | inl s ↦
                  let (g, same) = found-is i x e in
                  let here : m.group_id ≡ at.value = ap Message.group_id (sym (same s)) ∙ g in
                  absurd (ground (arith, away, here))
              | inr s ↦ rw (seen, e, s) refl
            ]
          ]

      IsShown-rewritten :
          (i : ℕ)
          → IsShown at.value i start rewritten (
              latest view_id i (
                cached (
                  if (f m).group_id == at.value
                  then map_messages (replace (select_message rewritten (f m))) w.cache
                  else w.cache)))
      IsShown-rewritten i =
          let v = select_message rewritten (f m) in
          let aim : ((f m).group_id == at.value) ≡ (m.group_id == at.value) =
            ap (λ g. g == at.value) (keeps_group m) in
          elim (Bool-cases (m.group_id == at.value)) [
            | inr away ↦ rw (aim ∙ away, stored-elsewhere away i) (mirror.mirrors i)
            | inl here ↦
                rw
                  (
                    aim ∙ here,
                    latest-map_messages (replace v) w.cache
                        (λ n. ground (arith, ==_iff n.row.id v.row.id)) i,
                    stored-here here i,
                  )
                  (elim (mirror.mirrors i) [
                    | inl e ↦ inl (ap (Opt.map (replace v)) e)
                    | inr (e, old) ↦ inr (ap (Opt.map (replace v)) e, old)
                  ])
          ]

    pub IsMirror-change :
        (f : Message → Message) (keeps_id : (x : Message) → (f x).id ≡ x.id)
        (keeps_group : (x : Message) → (f x).group_id ≡ x.group_id) (P : Message → Type 0)
        → ((m : Message) → P m → Has m w.db.messages)
        → (o : Outcome Message) → Changes f P w.db o
        → IsMirror at.value start (after p at w.cache o)
    unfolding deliver_all
    IsMirror-change f keeps_id keeps_group P listed o (inr (_, _, e, d)) = rw (d, e) mirror
    IsMirror-change f keeps_id keeps_group P listed o (inl (m, q, _, e, d)) =
        rw (d, e)
          (rw (address (f m).group_id) (record {
            distinct =
                Distinct-update message_id (keyed message_id m.id) f w.db.messages keeps_id
                  mirror.distinct;
            mirrors = IsShown-rewritten f keeps_id keeps_group m (listed m q);
          }))
