-- ===== src/Messages/PageRows.antt =====
-- findPage(): where the rows of a page come from.
use internship_project.Base.{
  ℕ, suc, ◌≡◌, ap, ◌∙◌, subst, inl, inr, Bool, true, ◌&&◌, arith, List, Option, none, some, Text,
  Option-cases, Bool-cases, ltb, length, Has, All, All-keep_if, All-of_Has, All-take, All-sort_by,
}
use internship_project.Http.{ok, >>=-eq-ok, ok-injective}
use internship_project.Schema.{Message, Db}
use internship_project.Events.{RequestId}
use internship_project.Cursor.{Platform, KeysetCursor}
use internship_project.Messages.{
  is_row_of, is_below, newest_first, position, predicate, page_of, Page, find_page,
}

module _ (p : Platform) where
  predicate-is_row_of :
      (group_id : ℕ) (c : Option KeysetCursor) (test : Message → Bool)
      → predicate p group_id c ≡ ok test
      → (m : Message) → test m ≡ true
      → m.group_id ≡ group_id
  predicate-is_row_of group_id none test e m t =
      let same : is_row_of group_id ≡ test = ok-injective e in
      let u : is_row_of group_id m ≡ true = ap (λ (f : Message → Bool). f m) same ∙ t in
      ground (arith, u)
  predicate-is_row_of group_id (some c) test e m t = elim (Option-cases (p.read_uuid c.id)) [
    | inl none_read ↦ cc (rw none_read at e)
    | inr (id, read) ↦
        let same : (λ m. is_row_of group_id m && is_below c.created_at id m) ≡ test =
          ok-injective (rw read at e) in
        let u : (is_row_of group_id m && is_below c.created_at id m) ≡ true =
          ap (λ (f : Message → Bool). f m) same ∙ t in
        ground (arith, u)
  ]

  All-page_of :
      (P : Message → Type 0) (limit : ℕ) (rows : List Message)
      → All P rows
      → All P (page_of p limit rows).rows
  All-page_of P limit rows h = elim (Bool-cases (ltb limit (length rows))) [
    | inl e ↦ rw e (All-take P limit rows h)
    | inr e ↦ rw e h
  ]

  -- Every row of a page is a message of the group.
  pub find_page-rows :
      (group_id : RequestId) (limit : ℕ) (cursor : Option Text) (db : Db) (page : Page)
      → find_page p group_id limit cursor db ≡ ok page
      → All (λ m. Has m db.messages × (m.group_id ≡ group_id.value)) page.rows
  unfolding find_page
  find_page-rows group_id limit cursor db page h =
      let (c, e, h1) = >>=-eq-ok (position p cursor) _ h in
      let (test, e2, h2) = >>=-eq-ok (predicate p group_id.value c) _ h1 in
      subst
        (λ (page : Page). All (λ m. Has m db.messages × (m.group_id ≡ group_id.value)) page.rows)
        (ok-injective h2)
        (All-page_of _ limit _ (
          All-take _ (suc limit) _ (
            All-sort_by newest_first _ _ (
              All-keep_if test (λ m t i. (i, predicate-is_row_of group_id.value c test e2 m t))
                db.messages (All-of_Has (λ m. Has m db.messages) db.messages (λ m i. i))))))
