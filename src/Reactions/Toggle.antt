-- ===== src/Reactions/Toggle.antt =====
-- toggle() alone.
use internship_project.Base.{
  ℕ, ◌+◌, ◌-◌, ◌≤◌, ◌≡◌, refl, ap, ◌∙◌, inl, inr, true, false, not, arith, [], ◌∷◌, ◌++◌, some,
  text_eq_iff, text_eq_refl, Bool-cases, indicator, ◌==◌, if◌then◌else◌, find, any, count,
  count-append, count-keep-not, count-ext, any-eq-count, Has-find, test-find, any_of_Has,
  count-keep_same,
}
use internship_project.Http.{ok}
use internship_project.Schema.{Message, Reaction, Db}
use internship_project.Events.{RequestId}
use internship_project.Messages.{is_message_of}
use internship_project.Reactions.{
  Tap, is_tap, delete_reaction, new_reaction, add_reaction, reactions_of, toggle,
}

-- No reaction stands twice.
abbrev pub IsUnique : Db → Type 0
IsUnique db = (t : Tap) → count (is_tap t) db.reactions ≤ 1

pub is_tap-new : (id : ℕ) (t : Tap) → is_tap t (new_reaction id t) ≡ true
unfolding is_tap
is_tap-new id t = ground (arith, text_eq_refl t.emoji)

-- Two taps that one row answers are one tap.
pub is_tap-same :
    (t s : Tap) (r : Reaction) → is_tap t r ≡ true → is_tap s r ≡ is_tap s (new_reaction 0 t)
unfolding is_tap
is_tap-same t s r e =
    ground
      (arith, text_eq_iff r.emoji t.emoji, text_eq_iff r.emoji s.emoji, text_eq_iff t.emoji s.emoji)

is_tap-id : (id : ℕ) (t s : Tap) → is_tap s (new_reaction id t) ≡ is_tap s (new_reaction 0 t)
unfolding is_tap
is_tap-id id t s = refl

-- The counts after the two writes.
pub count-delete_other :
    (t s : Tap) (db : Db)
    → is_tap s (new_reaction 0 t) ≡ false
    → count (is_tap s) (delete_reaction t db).reactions ≡ count (is_tap s) db.reactions
count-delete_other t s db e =
    count-keep_same (is_tap s) (λ r. not (is_tap t r)) db.reactions
      (λ r gone. is_tap-same t s r (ground (arith, gone)) ∙ e)

pub count-insert :
    (id : ℕ) (t s : Tap) (db : Db)
    → count (is_tap s) (db.reactions ++ new_reaction id t ∷ [])
      ≡ count (is_tap s) db.reactions + indicator (is_tap s (new_reaction 0 t))
count-insert id t s db = omega (
  arith,
  count-append (is_tap s) db.reactions (new_reaction id t ∷ []),
  ap indicator (is_tap-id id t s),
)

pub is_tap-equal :
    (t s : Tap) → is_tap s (new_reaction 0 t) ≡ true → (r : Reaction) → is_tap s r ≡ is_tap t r
unfolding is_tap
is_tap-equal t s e r = ground (
  arith,
  e,
  text_eq_iff r.emoji t.emoji,
  text_eq_iff r.emoji s.emoji,
  text_eq_iff t.emoji s.emoji,
)

pub count-delete :
    (t s : Tap) (db : Db)
    → count (is_tap s) (delete_reaction t db).reactions
      ≡ (if is_tap s (new_reaction 0 t) then 0 else count (is_tap s) db.reactions)
count-delete t s db = elim (Bool-cases (is_tap s (new_reaction 0 t))) [
  | inl e ↦ rw e (
      count-ext (is_tap s) (is_tap t) _ (is_tap-equal t s e)
      ∙ count-keep-not (is_tap t) db.reactions)
  | inr e ↦ rw e (count-delete_other t s db e)
]

-- The insertion after a deletion meets no constraint.
pub add-delete :
    (id : ℕ) (t : Tap) (db : Db)
    → any (λ m. m.id == t.message_id) db.messages ≡ true
    → any (λ u. u.id == t.user_id) db.users ≡ true
    → add_reaction id t (delete_reaction t db)
      ≡ ok (record db { reactions = (delete_reaction t db).reactions ++ new_reaction id t ∷ [] })
unfolding add_reaction
add-delete id t db known_message known_user =
    let free : any (is_tap t) (delete_reaction t db).reactions ≡ false =
      any-eq-count (is_tap t) (delete_reaction t db).reactions
      ∙ ap (λ n. not (n == 0)) (count-keep-not (is_tap t) db.reactions) in
    rw (free, known_message, known_user) refl

-- A tap by a known user on a message of the group succeeds and adds the reaction if it was not
-- there and removes it if it was, every other reaction stands as often as before, and the caller
-- is given the message's whole new set.
pub toggle-flips :
    (id : ℕ) (group_id : RequestId) (t : Tap) (m : Message) (db : Db)
    → find (is_message_of group_id.value t.message_id) db.messages ≡ some m
    → any (λ u. u.id == t.user_id) db.users ≡ true
    → IsUnique db
    → ((s : Tap)
        → count (is_tap s) (toggle id group_id t db).db.reactions ≡ (
            if is_tap s (new_reaction 0 t)
            then 1 - count (is_tap s) db.reactions
            else count (is_tap s) db.reactions))
      × ((toggle id group_id t db).result
          ≡ ok (reactions_of t.message_id (toggle id group_id t db).db))
unfolding toggle
toggle-flips id group_id t m db found known unique =
    let here =
      any_of_Has (λ m. m.id == t.message_id) m db.messages
        (Has-find (is_message_of group_id.value t.message_id) db.messages m found)
        (ground
          (arith, test-find (is_message_of group_id.value t.message_id) db.messages m found)) in
    let added = add-delete id t db here known in
    elim (Bool-cases (count (is_tap t) db.reactions == 0)) [
      | inl absent ↦
          ((λ s. rw (found, absent, added) (count-add s absent)), rw (found, absent, added) refl)
      | inr present ↦ ((λ s. rw (found, present) (count-drop s present)), rw (found, present) refl)
    ]
  where
    count-add :
        (s : Tap)
        → (count (is_tap t) db.reactions == 0) ≡ true
        → count (is_tap s) ((delete_reaction t db).reactions ++ new_reaction id t ∷ []) ≡ (
            if is_tap s (new_reaction 0 t)
            then 1 - count (is_tap s) db.reactions
            else count (is_tap s) db.reactions)
    count-add s absent = elim (Bool-cases (is_tap s (new_reaction 0 t))) [
      | inl e ↦ ground (
        arith,
        absent,
        e,
        count-delete t s db,
        count-insert id t s (delete_reaction t db),
        count-ext (is_tap s) (is_tap t) db.reactions (is_tap-equal t s e),
      )
      | inr e ↦ ground (arith, e, count-delete t s db, count-insert id t s (delete_reaction t db))
    ]

    count-drop :
        (s : Tap)
        → (count (is_tap t) db.reactions == 0) ≡ false
        → count (is_tap s) (delete_reaction t db).reactions ≡ (
            if is_tap s (new_reaction 0 t)
            then 1 - count (is_tap s) db.reactions
            else count (is_tap s) db.reactions)
    count-drop s present = elim (Bool-cases (is_tap s (new_reaction 0 t))) [
      | inl e ↦ ground (
        arith,
        present,
        e,
        count-delete t s db,
        unique s,
        count-ext (is_tap s) (is_tap t) db.reactions (is_tap-equal t s e),
      )
      | inr e ↦ ground (arith, e, count-delete t s db)
    ]
