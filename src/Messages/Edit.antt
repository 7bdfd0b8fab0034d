-- ===== src/Messages/Edit.antt =====
-- edit(), softDelete() and search(): whose messages change, and what a tombstone ends.
use internship_project.Base.{
  ℕ, ◌≤◌, ◌≡◌, refl, ap, ◌∙◌, ◌⊎◌, inl, inr, Bool, true, not, ◌||◌, arith, [], ◌∷◌, none, some,
  Text, Option-cases, find, find-update, update, keyed, Has, Has-find, test-find, length,
  length-take, keep, All, All-keep_if, All-of_Has, All-sort_by, IsOrdered, IsOrdered-take, All-take,
  sort_by, sort_by-IsOrdered,
}
use internship_project.Messages.Pages.{newest_first_order}
use internship_project.Http.{
  Result, ok, err, Exception, forbidden, or_throw, or_throw-eq-ok, throw_if, throw_if-eq-ok,
  >>=-eq-ok, ok-injective,
}
use internship_project.Schema.{Message, Db, is_user_type}
use internship_project.Events.{RequestId, message_updated, Outcome}
use internship_project.Messages.{
  message_id, is_message_of, is_sender, assert_own_user_message, edited, tombstoned, edit,
  soft_delete, search, is_hit, newest_first,
}

-- A message that the caller may change.
pub record IsOwnMessage (group_id id user_id : ℕ) (db : Db) (m : Message) : Type 0 where
  pub found : find (is_message_of group_id id) db.messages ≡ some m
  pub listed : Has m db.messages
  pub at_id : m.id ≡ id
  pub in_group : m.group_id ≡ group_id
  pub of_user : is_sender m.sender_id user_id ≡ true
  pub typed : is_user_type m.type ≡ true

own_message :
    (group_id id user_id : ℕ) (db : Db) (m : Message)
    → assert_own_user_message group_id id user_id db ≡ ok m
    → IsOwnMessage group_id id user_id db m
unfolding assert_own_user_message
own_message group_id id user_id db m h =
    let (x, e, h1) = >>=-eq-ok (or_throw (find (is_message_of group_id id) db.messages) _) _ h in
    let (u, own, h2) =
      >>=-eq-ok (throw_if (not (is_sender x.sender_id user_id) || not (is_user_type x.type)) _) _
        h1 in
    let found =
      or_throw-eq-ok (find (is_message_of group_id id) db.messages) _ e
      ∙ ap some (ok-injective h2) in
    let t = test-find (is_message_of group_id id) db.messages m found in
    let passed = throw_if-eq-ok _ _ own in
    record {
      found = found;
      listed = Has-find (is_message_of group_id id) db.messages m found;
      at_id = ground (arith, t);
      in_group = ground (arith, t);
      of_user = rw (← ok-injective h2) (ground (arith, passed));
      typed = rw (← ok-injective h2) (ground (arith, passed));
    }

-- What a method does that changes a message by `f`: all of it, or nothing.
abbrev pub Changes : (Message → Message) → (Message → Type 0) → Db → Outcome Message → Type 0
Changes f P db o =
    ((m : Message) × P m
      × (o.result ≡ ok (f m))
      × (o.events ≡ message_updated (f m) ∷ [])
      × (o.db ≡ record db { messages = update (keyed message_id m.id) f db.messages }))
    ⊎ ((e : Exception) × (o.result ≡ err e) × (o.events ≡ []) × (o.db ≡ db))

Result-cases :
    {A : Type 0} (r : Result A) → ((a : A) × (r ≡ ok a)) ⊎ ((e : Exception) × (r ≡ err e))
Result-cases (ok a) = inl (a, refl)
Result-cases (err e) = inr (e, refl)

-- An edit rewrites the text of one message and stamps it, and announces exactly that; and then the
-- message stands in the named group, the caller sent it, it is a USER message and it was not
-- deleted. Otherwise it fails, and neither the database nor any listener learns of it.
pub edit-Changes :
    (now group_id id user_id : ℕ) (content : Text) (db : Db)
    → Changes
        (edited now content)
        (λ m. IsOwnMessage group_id id user_id db m × (m.deleted_at ≡ none))
        db
        (edit now group_id id user_id content db)
unfolding edit
edit-Changes now group_id id user_id content db =
    elim (Result-cases (assert_own_user_message group_id id user_id db)) [
      | inr (e, h) ↦ inr (e, rw h refl, rw h refl, rw h refl)
      | inl (m, h) ↦ elim (Option-cases m.deleted_at) [
        | inl live ↦ inl (
          m,
          (own_message group_id id user_id db m h, live),
          rw (h, live) refl,
          rw (h, live) refl,
          rw (h, live) refl,
        )
        | inr (t, dead) ↦ inr (
          forbidden "This message has been deleted",
          rw (h, dead) refl,
          rw (h, dead) refl,
          rw (h, dead) refl,
        )
      ]
    ]

-- A deletion blanks the text of one message, stamps it and keeps its row, and announces exactly
-- that; and then the message stands in the named group, the caller sent it and it is a USER
-- message. Otherwise it fails, and neither the database nor any listener learns of it.
pub soft_delete-Changes :
    (now group_id id user_id : ℕ) (db : Db)
    → Changes
        (tombstoned now)
        (IsOwnMessage group_id id user_id db)
        db
        (soft_delete now group_id id user_id db)
unfolding soft_delete
soft_delete-Changes now group_id id user_id db =
    elim (Result-cases (assert_own_user_message group_id id user_id db)) [
      | inr (e, h) ↦ inr (e, rw h refl, rw h refl, rw h refl)
      | inl (m, h) ↦
          inl (m, own_message group_id id user_id db m h, rw h refl, rw h refl, rw h refl)
    ]

-- A tombstone is final: after a successful deletion every later edit of the message by its sender
-- is refused, whatever the new text.
pub edit-soft_delete :
    (now later group_id id user_id : ℕ) (content : Text) (db : Db) (m : Message)
    → (soft_delete now group_id id user_id db).result ≡ ok m
    → (edit later group_id id user_id content (soft_delete now group_id id user_id db).db).result
      ≡ err (forbidden "This message has been deleted")
unfolding edit assert_own_user_message
edit-soft_delete now later group_id id user_id content db m h =
    elim (soft_delete-Changes now group_id id user_id db) [
      | inr (e, r, _, _) ↦ absurd (cc)
      | inl (x, own, r, _, written) ↦
          let still : find (is_message_of group_id id)
                (update (keyed message_id x.id) (tombstoned now) db.messages)
              ≡ some (tombstoned now x) =
            find-update (is_message_of group_id id) (keyed message_id x.id) (tombstoned now)
              db.messages x (λ y. refl) (λ y t. ground (arith, t, own.at_id)) own.found in
          rw written (rw (still, own.of_user, own.typed) refl)
    ]

-- A search gives at most 50 messages, the newest first; each is a USER message of the group that
-- matches and is not deleted.
pub search-hits :
    (matches : Text → Text → Bool) (group_id : RequestId) (q : Text) (db : Db)
    → (length (search matches group_id q db) ≤ 50)
      × All
          (λ m.
            Has m db.messages
            × (m.group_id ≡ group_id.value)
            × (is_user_type m.type ≡ true)
            × (m.deleted_at ≡ none)
            × (matches m.content q ≡ true))
          (search matches group_id q db)
      × IsOrdered newest_first (search matches group_id q db)
unfolding search
search-hits matches group_id q db = (
  omega (arith, length-take 50 (sort_by newest_first (keep hit db.messages))),
  All-take _ 50 _ (
      All-sort_by newest_first _ _ (
        All-keep_if (is_hit matches group_id.value q)
          (λ m t i. (i, ground (arith, t), ground (arith, t), live m t, ground (arith, t)))
          db.messages (All-of_Has (λ m. Has m db.messages) db.messages (λ m i. i)))),
  IsOrdered-take newest_first 50 _ (sort_by-IsOrdered newest_first_order _),
)
  where
    hit : Message → Bool
    hit = is_hit matches group_id.value q

    live : (m : Message) → is_hit matches group_id.value q m ≡ true → m.deleted_at ≡ none
    live m t = ground (arith, t)
