-- ===== src/Messages/Pages.antt =====
-- findPage(), and a client that follows the cursors from page to page.
use internship_project.Base.{
  ℕ, zero, suc, ◌≤◌, ◌<◌, ◌≡◌, refl, sym, ap, ◌∙◌, ◌≢◌, inl, inr, Bool, true, false, ◌&&◌, arith,
  List, [], ◌∷◌, ◌++◌, append_assoc, Option, none, some, Text, Bool-cases, ltb, leb, leb→le, subst,
  length, take, drop, keep, All, All-middle, take_all, take-take, take-append-drop, length-take,
  length-drop, keep-keep, Distinct, IsTotalOrder, IsOrdered, sort_by, sort_by-IsOrdered,
  sort_by-keep,
}
use internship_project.Http.{Result, ok, err, unknown, ◌>>=◌}
use internship_project.Schema.{Message, Db}
use internship_project.Events.{RequestId}
use internship_project.Cursor.{Platform, IsLawful, KeysetCursor, encode_cursor, decode_cursor}
use internship_project.Cursor.RoundTrip.{decode_cursor-encode_cursor}
use internship_project.Messages.{
  message_id, newest_first, is_below, is_row_of, last, cursor_at, page_of, position, predicate,
  find_page,
}

pub newest_first_order : IsTotalOrder newest_first
newest_first_order = record { total = λ m n h. ground arith; trans = λ l m n h k. ground arith }

-- The rows that a cursor at `m` leaves.
abbrev below : Message → Message → Bool
below m = is_below m.created_at m.id

-- In an ordered list with distinct ids, what is below a row is what follows it.
keep-below_behind :
    (m : Message) (xs : List Message)
    → All (λ x. newest_first m x ≡ true) xs
    → All (λ x. x.id ≢ m.id) xs
    → keep (below m) xs ≡ xs
keep-below_behind m [] a d = refl
keep-below_behind m (x ∷ xs) (h, a) (n, d) = ground (arith, keep-below_behind m xs a d, n)

keep-below :
    (before : List Message) (m : Message) (behind : List Message)
    → IsOrdered newest_first (before ++ m ∷ behind)
    → Distinct message_id (before ++ m ∷ behind)
    → keep (below m) (before ++ m ∷ behind) ≡ behind
keep-below [] m behind (a, o) (n, d) = ground (arith, keep-below_behind m behind a n)
keep-below (x ∷ before) m behind (a, o) (n, d) =
    let ahead = All-middle (λ y. newest_first x y ≡ true) before m behind a in
    let other = All-middle (λ y. y.id ≢ x.id) before m behind n in
    ground (arith, keep-below before m behind o d, ahead, other)

-- A page that is not the last ends at a row, and the rest begins behind it.
record IsSplit (n : ℕ) (rows : List Message) : Type 0 where
  ahead : List Message
  end : Message
  page : take (suc n) rows ≡ ahead ++ end ∷ []
  at_end : last (take (suc n) rows) ≡ some end
  whole : rows ≡ ahead ++ end ∷ drop (suc n) rows

IsSplit-page : (n : ℕ) (rows : List Message) → n < length rows → IsSplit n rows
IsSplit-page n [] h = absurd (omega arith)
IsSplit-page zero (x ∷ rows) h = record {
  ahead = [];
  end = x;
  page = refl;
  at_end = refl;
  whole = refl;
}
IsSplit-page (suc n) (x ∷ rows) h =
    let r = IsSplit-page n rows (omega arith) in
    record {
      ahead = x ∷ r.ahead;
      end = r.end;
      page = ap (◌∷◌ x) r.page;
      at_end = rw r.at_end refl;
      whole = ap (◌∷◌ x) r.whole;
    }

module _ (p : Platform) (group_id : RequestId) (limit : ℕ) (db : Db) where
  -- What a client reads that follows `nextCursor` to the end, page after page.
  unfoldable pub load_all : (fuel : ℕ) → Option Text → Result (List Message)
  load_all zero cursor = err unknown
  load_all (suc fuel) cursor = do
    page ← find_page p group_id limit cursor db
    elim page.next_cursor [
      | none ↦ ok page.rows
      | some next ↦ load_all fuel (some next) >>= λ older. ok (page.rows ++ older)
    ]

  -- The group's history, newest first.
  abbrev pub history : List Message
  history = sort_by newest_first (keep (is_row_of group_id.value) db.messages)

  pub position-some :
      (raw : Text) → raw ≢ [] → position p (some raw) ≡ (decode_cursor p raw >>= λ c. ok (some c))
  position-some [] h = absurd (h refl)
  position-some (c ∷ raw) h = refl

  below-history :
      (m : Message)
      → sort_by newest_first (keep (λ x. is_row_of group_id.value x && below m x) db.messages)
        ≡ keep (below m) history
  below-history m =
      ap (sort_by newest_first) (keep-keep (is_row_of group_id.value) (below m) db.messages)
      ∙ sort_by-keep newest_first_order (below m) (keep (is_row_of group_id.value) db.messages)

  find_page_at :
      IsLawful p
      → (m : Message)
      → find_page p group_id limit (cursor_at p (some m)) db
        ≡ ok (page_of p limit (take (suc limit) (keep (below m) history)))
  unfolding find_page encode_cursor
  find_page_at lawful m =
      let c : KeysetCursor = record { created_at = m.created_at; id = p.spell m.id } in
      let decoded =
        position-some (encode_cursor p c) (lawful.to_base64url-ne-nil _)
        ∙ ap (λ r. r >>= λ (c : KeysetCursor). ok (some c))
            (decode_cursor-encode_cursor p lawful c) in
      ap
        (λ r. r >>= λ (o : Option KeysetCursor). predicate p group_id.value o >>= λ test.
          ok (page_of p limit (take (suc limit) (sort_by newest_first (keep test db.messages)))))
        decoded
      ∙ rw (lawful.read_uuid-spell)
          (ap (λ rows. ok (page_of p limit (take (suc limit) rows))) (below-history m))

-- The whole of `rows` is read from a cursor at which they are what is left.
module _ (p : Platform) (lawful : IsLawful p) (group_id : RequestId) (n : ℕ) (db : Db)
    (distinct : Distinct message_id (history p group_id (suc n) db)) where
  whole_of :
      (before rows : List Message) (cut : IsSplit n rows)
      → history p group_id (suc n) db ≡ before ++ rows
      → history p group_id (suc n) db ≡ (before ++ cut.ahead) ++ cut.end ∷ drop (suc n) rows
  whole_of before rows cut all =
      all
      ∙ ap (◌++◌ before) cut.whole
      ∙ sym (append_assoc before cut.ahead (cut.end ∷ drop (suc n) rows))

  next_page :
      (before rows : List Message) (cut : IsSplit n rows)
      → history p group_id (suc n) db ≡ before ++ rows
      → find_page p group_id (suc n) (cursor_at p (some cut.end)) db
        ≡ ok (page_of p (suc n) (take (suc (suc n)) (drop (suc n) rows)))
  next_page before rows cut all =
      let whole = whole_of before rows cut all in
      let ordered = subst (IsOrdered newest_first) whole (sort_by-IsOrdered newest_first_order _) in
      find_page_at p group_id (suc n) db lawful cut.end
      ∙ ap (λ rest. ok (page_of p (suc n) (take (suc (suc n)) rest)))
          (ap (keep (below cut.end)) whole
            ∙ keep-below (before ++ cut.ahead) cut.end (drop (suc n) rows) ordered
                (subst (Distinct message_id) whole distinct))

  load_last :
      (fuel : ℕ) (rows : List Message) (cursor : Option Text)
      → find_page p group_id (suc n) cursor db ≡ ok (page_of p (suc n) (take (suc (suc n)) rows))
      → length rows ≤ suc n
      → load_all p group_id (suc n) db (suc fuel) cursor ≡ ok rows
  unfolding load_all
  load_last fuel rows cursor here short =
      let done : ltb (suc n) (length (take (suc (suc n)) rows)) ≡ false =
        ground (arith, length-take (suc (suc n)) rows) in
      rw (here, done) (ap ok (take_all (suc (suc n)) rows (omega arith)))

  load_more :
      (fuel : ℕ) (rows : List Message) (cursor : Option Text) (cut : IsSplit n rows)
      → find_page p group_id (suc n) cursor db ≡ ok (page_of p (suc n) (take (suc (suc n)) rows))
      → ltb (suc n) (length (take (suc (suc n)) rows)) ≡ true
      → load_all p group_id (suc n) db fuel (cursor_at p (some cut.end)) ≡ ok (drop (suc n) rows)
      → load_all p group_id (suc n) db (suc fuel) cursor ≡ ok rows
  unfolding load_all
  load_more fuel rows cursor cut here more older =
      rw (here, more, take-take (suc n) rows, cut.at_end, older)
        (ap ok (take-append-drop (suc n) rows))

  load_rest :
      (fuel : ℕ) (before rows : List Message) (cursor : Option Text)
      → find_page p group_id (suc n) cursor db ≡ ok (page_of p (suc n) (take (suc (suc n)) rows))
      → history p group_id (suc n) db ≡ before ++ rows
      → length rows < fuel
      → load_all p group_id (suc n) db fuel cursor ≡ ok rows
  load_rest zero before rows cursor here all h = absurd (omega arith)
  load_rest (suc fuel) before rows cursor here all h =
      elim (Bool-cases (leb (length rows) (suc n))) [
        | inl short ↦ load_last fuel rows cursor here (leb→le _ _ short)
        | inr long ↦
            let cut = IsSplit-page n rows (ground (arith, long)) in
            load_more fuel rows cursor cut here
              (ground (arith, long, length-take (suc (suc n)) rows))
              (load_rest fuel ((before ++ cut.ahead) ++ cut.end ∷ []) (drop (suc n) rows) _
                (next_page before rows cut all)
                (whole_of before rows cut all
                  ∙ sym (append_assoc (before ++ cut.ahead) (cut.end ∷ []) (drop (suc n) rows)))
                (ground (arith, h, long, length-drop (suc n) rows)))
      ]

-- Following `nextCursor` from the first page, with any page size of at least one, a client reads
-- every message of the group exactly once, newest first: nothing is skipped or repeated between
-- pages, though messages share an instant. The ids are distinct, Node's codecs and Postgres's uuids
-- round-trip, and as many pages are allowed as there are messages, and one.
pub load_all-history :
    (p : Platform) (group_id : RequestId) (limit : ℕ) (db : Db)
    → IsLawful p
    → 1 ≤ limit
    → Distinct message_id (history p group_id limit db)
    → load_all p group_id limit db (suc (length (history p group_id limit db))) none
      ≡ ok (sort_by newest_first (keep (is_row_of group_id.value) db.messages))
unfolding find_page
load_all-history p group_id zero db lawful h distinct = absurd (omega arith)
load_all-history p group_id (suc n) db lawful h distinct =
    load_rest p lawful group_id n db distinct _ [] (history p group_id (suc n) db) none refl refl
      (omega arith)
