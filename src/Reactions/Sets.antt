-- ===== src/Reactions/Sets.antt =====
-- toggle(): the reactions of the other messages, and the whole effect of a call.
use internship_project.Base.{
  ℕ, ◌≡◌, refl, ap, ◌∙◌, ◌≢◌, ◌⊎◌, inl, inr, true, not, ◌&&◌, arith, List, [], ◌∷◌, ◌++◌, none,
  some, Option-cases, Bool-cases, ◌==◌, ==_iff, find, keep, any, count,
}
use internship_project.Http.{ok, err, Exception, prisma, p2003}
use internship_project.Schema.{Message, Reaction, Db}
use internship_project.Events.{RequestId, reaction_changed, Outcome}
use internship_project.Messages.{is_message_of}
use internship_project.Reactions.{
  Tap, is_tap, delete_reaction, removed, new_reaction, add_reaction, reactions_of, toggle,
}

keep-delete_other :
    (i : ℕ) (t : Tap) (rs : List Reaction)
    → i ≢ t.message_id
    → keep (λ r. r.message_id == i) (keep (λ r. not (is_tap t r)) rs)
      ≡ keep (λ r. r.message_id == i) rs
unfolding is_tap
keep-delete_other i t [] n = refl
keep-delete_other i t (r ∷ rs) n = ground (arith, n, keep-delete_other i t rs n)

keep-insert_other :
    (i id : ℕ) (t : Tap) (rs : List Reaction)
    → i ≢ t.message_id
    → keep (λ r. r.message_id == i) (rs ++ new_reaction id t ∷ [])
      ≡ keep (λ r. r.message_id == i) rs
keep-insert_other i id t [] n = ground (arith, n)
keep-insert_other i id t (r ∷ rs) n = ground (arith, keep-insert_other i id t rs n)

-- The set of one message may have changed, and no other table.
pub record IsTapped (t : Tap) (db db' : Db) : Type 0 where
  pub rest : db' ≡ record db { reactions = db'.reactions }
  pub others : (i : ℕ) → i ≢ t.message_id → reactions_of i db' ≡ reactions_of i db

delete-IsTapped : (t : Tap) (db : Db) → IsTapped t db (delete_reaction t db)
delete-IsTapped t db = record { rest = refl; others = λ i n. keep-delete_other i t db.reactions n }

add-IsTapped :
    (id : ℕ) (t : Tap) (db : Db)
    → ((db' : Db) × (add_reaction id t db ≡ ok db') × IsTapped t db db')
      ⊎ ((e : Exception) × (add_reaction id t db ≡ err e))
unfolding add_reaction
add-IsTapped id t db = elim (Bool-cases (any (is_tap t) db.reactions)) [
  | inl e ↦ inl (db, rw e refl, record { rest = refl; others = λ i n. refl })
  | inr e ↦
      elim (Bool-cases
        (any (λ m. m.id == t.message_id) db.messages && any (λ u. u.id == t.user_id) db.users)) [
          | inl k ↦ inl (
            record db { reactions = db.reactions ++ new_reaction id t ∷ [] },
            rw (e, k) refl,
            record { rest = refl; others = λ i n. keep-insert_other i id t db.reactions n },
          )
          | inr k ↦ inr (prisma p2003 none, rw (e, k) refl)
        ]
]

-- Where nothing is there to delete, a deletion leaves the table as it is.
keep-absent_tap :
    (t : Tap) (rs : List Reaction) → count (is_tap t) rs ≡ 0 → keep (λ r. not (is_tap t r)) rs ≡ rs
keep-absent_tap t [] e = refl
keep-absent_tap t (r ∷ rs) e = ground (arith, keep-absent_tap t rs)

delete-absent : (t : Tap) (db : Db) → (removed t db == 0) ≡ true → delete_reaction t db ≡ db
delete-absent t db k =
    ap (λ rs. record db { reactions = rs }) (keep-absent_tap t db.reactions ((==_iff _ 0).0 k))

IsTapped-then : (t : Tap) (db db' : Db) → IsTapped t (delete_reaction t db) db' → IsTapped t db db'
IsTapped-then t db db' a = record {
  rest = a.rest;
  others = λ i n. a.others i n ∙ keep-delete_other i t db.reactions n;
}

-- A call that succeeds concerns a message of the group, changes its set alone, and announces the
-- set as it then stands; a call that fails does nothing.
abbrev pub Taps : RequestId → Tap → Db → Outcome (List Reaction) → Type 0
Taps group_id t db o =
    ((m : Message) × (find (is_message_of group_id.value t.message_id) db.messages ≡ some m)
      × IsTapped t db o.db
      × (o.events ≡ reaction_changed group_id t.message_id (reactions_of t.message_id o.db) ∷ []))
    ⊎ ((o.db ≡ db) × (o.events ≡ []))

pub toggle-Taps :
    (id : ℕ) (group_id : RequestId) (t : Tap) (db : Db)
    → Taps group_id t db (toggle id group_id t db)
unfolding toggle
toggle-Taps id group_id t db =
    elim (Option-cases (find (is_message_of group_id.value t.message_id) db.messages)) [
      | inl e ↦ inr (rw e refl, rw e refl)
      | inr (m, e) ↦ elim (Bool-cases (removed t db == 0)) [
        | inr k ↦ inl (m, e, rw (e, k) (delete-IsTapped t db), rw (e, k) refl)
        | inl k ↦ elim (add-IsTapped id t (delete_reaction t db)) [
          | inl (db', a, tapped) ↦
              inl (m, e, rw (e, k, a) (IsTapped-then t db db' tapped), rw (e, k, a) refl)
          | inr (x, a) ↦ inr (rw (e, k, a) (delete-absent t db k), rw (e, k, a) refl)
        ]
      ]
    ]
