-- ===== src/Reactions/Apart.antt =====
-- toggle() on a message of one group, and the reactions of another one.
use internship_project.Base.{
  keep-snoc_away, keep-keep_away, ℕ, ◌≡◌, ◌≢◌, refl, ◌∙◌, inl, inr, true, false, not, ◌&&◌, arith,
  List, some, Bool-cases, Option-cases, ◌==◌, ==_refl, any, any_of_Has, keep, find, All,
  All-keep_if, All-intro, Has-find, test-find, Distinct,
}
use internship_project.Schema.{Message, Reaction, Db}
use internship_project.Http.{Result, ok, err}
use internship_project.Events.{RequestId}
use internship_project.Groups.{in_group}
use internship_project.Groups.Apart.{is_reaction_in, is_reaction_in-other, SameReactions}
use internship_project.Messages.{message_id, is_message_of}
use internship_project.Reactions.{
  Tap, is_tap, delete_reaction, removed, new_reaction, insert_reaction, add_reaction, told, toggle,
}

-- No reaction in an answer is to a message of the group.
abbrev pub IsElsewhere : (group_id : ℕ) → Db → Result (List Reaction) → Type 0
IsElsewhere g db (err e) = Unit {0}
IsElsewhere g db (ok rs) = All (λ r. is_reaction_in g db r ≡ false) rs

pub toggle-members :
    (id : ℕ) (at : RequestId) (t : Tap) (db : Db) → (toggle id at t db).db.members ≡ db.members
unfolding toggle add_reaction insert_reaction
toggle-members id at t db = ground arith

module _ (at : RequestId) (g : ℕ) (db : Db) (distinct : Distinct message_id db.messages)
    (away : at.value ≢ g) (t : Tap) (m : Message)
    (found : find (is_message_of at.value t.message_id) db.messages ≡ some m) where
  -- A reaction to the message of the tap is none to a message of the other group.
  other_reaction :
      (r : Reaction) → (r.message_id == t.message_id) ≡ true → is_reaction_in g db r ≡ false
  other_reaction r e =
      let is = test-find (is_message_of at.value t.message_id) db.messages m found in
      is_reaction_in-other at.value g db r distinct away (
        any_of_Has (λ x. in_group at.value x && (x.id == r.message_id)) m db.messages
          (Has-find (is_message_of at.value t.message_id) db.messages m found)
          (ground (arith, is, e)))

  tapped_away :
      keep (is_reaction_in g db) (delete_reaction t db).reactions
      ≡ keep (is_reaction_in g db) db.reactions
  unfolding is_tap
  tapped_away =
      keep-keep_away (is_reaction_in g db) (λ r. not (is_tap t r)) db.reactions
        (λ r i e. other_reaction r (ground (arith, e)))

  added_away :
      (id : ℕ)
      → SameReactions g db
          (told at t (delete_reaction t db) (add_reaction id t (delete_reaction t db))).db
  unfolding add_reaction insert_reaction
  added_away id = elim (Bool-cases (any (is_tap t) (delete_reaction t db).reactions)) [
    | inl e ↦ rw e tapped_away
    | inr e ↦
        elim (Bool-cases
          (any (λ m. m.id == t.message_id) db.messages && any (λ u. u.id == t.user_id) db.users)) [
            | inl k ↦
                rw (e, k)
                  (keep-snoc_away (is_reaction_in g db) (delete_reaction t db).reactions
                      (new_reaction id t)
                      (other_reaction (new_reaction id t) (==_refl t.message_id))
                    ∙ tapped_away)
            | inr k ↦ rw (e, k) tapped_away
          ]
  ]

  told_hidden : (d : Db) (r : Result Db) → IsElsewhere g db (told at t d r).result
  told_hidden d (err e) = tt
  told_hidden d (ok d') =
      All-keep_if (λ r. r.message_id == t.message_id) (λ r e h. other_reaction r e) d'.reactions
        (All-intro (λ r. Unit {0}) (λ r. tt) d'.reactions)

module _ (id : ℕ) (at : RequestId) (t : Tap) (g : ℕ) (db : Db)
    (distinct : Distinct message_id db.messages) (away : at.value ≢ g) where
  pub toggle-SameReactions : SameReactions g db (toggle id at t db).db
  unfolding toggle
  toggle-SameReactions =
      elim (Option-cases (find (is_message_of at.value t.message_id) db.messages)) [
        | inl e ↦ rw e refl
        | inr (m, e) ↦ elim (Bool-cases (removed t db == 0)) [
          | inr k ↦ rw (e, k) (tapped_away at g db distinct away t m e)
          | inl k ↦ rw (e, k) (added_away at g db distinct away t m e id)
        ]
      ]

  pub toggle-IsElsewhere : IsElsewhere g db (toggle id at t db).result
  unfolding toggle
  toggle-IsElsewhere =
      elim (Option-cases (find (is_message_of at.value t.message_id) db.messages)) [
        | inl e ↦ rw e tt
        | inr (m, e) ↦ rw e (told_hidden at g db distinct away t m e _ _)
      ]
