-- ===== src/Panel/Goodbye.antt =====
-- What the panel says before a member leaves, beside leave() of the server.
use internship_project.Base.{
  length, any-absent, unkeyed-gone, not, if◌then◌else◌, keep, ◌==◌, ℕ, ◌≡◌, ◌≢◌, refl, sym, ◌∙◌,
  inl, inr, Bool, true, false, arith, List, [], ◌∷◌, some, Option-cases, Bool-cases, ◌==◌, ==_refl,
  find, find-only, find-eq-none, keyed, Has, Has-find, Has-keep, Has-sort_by, first-of_Has,
  test-find, any,
}
use mathlib.Core.Option.{some-injective}
use internship_project.Http.{Result, ok, err}
use internship_project.Schema.{GroupMember, Db, is_owner_role}
use internship_project.Events.{RequestId, Outcome}
use internship_project.Groups.{
  is_pair, is_other_member, joined_before, find_membership, find_successor, leave, LeaveOutcome,
  group_id_of,
}
use internship_project.Groups.Ownership.{owns, one_owner_of, group_of}
use internship_project.Groups.Leave.{
  IsGoverned, find_membership-IsRowOf, find_successor-IsSuccessor,
}
use internship_project.Client.Roster.{IsRosterOf, IsTable}
use internship_project.Panel.{sole_member}

-- The answer to a departure that deletes the group.
abbrev pub deletes : Result LeaveOutcome → Bool
deletes (ok o) = o.group_deleted
deletes (err e) = false

-- A departure that deletes a group with all its messages, and says so, or that keeps the group and
-- every message.
pub record Deletes (group_id : ℕ) (deleted : Bool) (db : Db) (o : Outcome LeaveOutcome)
    : Type 0 where
  pub group_is : any (keyed group_id_of group_id) o.db.groups ≡ not deleted
  pub messages_are :
      o.db.messages
      ≡ (if deleted then keep (λ m. not (m.group_id == group_id)) db.messages else db.messages)
  pub answered : deletes o.result ≡ deleted

module _ (me : ℕ) (at : RequestId) (db : Db) (row : GroupMember) (governed : IsGoverned db)
    (table : IsTable db.members) (mine : find_membership at.value me db ≡ some row) where
  membership_of :
      (m : GroupMember)
      → Has m db.members
      → m.group_id ≡ at.value
      → find (is_pair at.value m.user_id) db.members ≡ some m
  membership_of m i g =
      find-only (is_pair at.value m.user_id) m db.members i (ground (arith, g))
        (table.single at.value m.user_id)

  exists : any (keyed group_id_of at.value) db.groups ≡ true
  exists =
      let held = find_membership-IsRowOf at.value me db row mine in
      rw (← held.in_group) (group_of db.groups db.members governed row held.listed)

  -- The one member of a group owns it.
  alone_owns :
      ((m : GroupMember) → Has m db.members → m.group_id ≡ at.value → m.user_id ≡ me)
      → is_owner_role row.role ≡ true
  alone_owns alone =
      let one = one_owner_of db.groups db.members governed at.value exists in
      elim (Option-cases (find (owns at.value) db.members)) [
        | inl e ↦ absurd (omega (arith, one, find-eq-none (owns at.value) db.members e))
        | inr (o, e) ↦
            let owning = test-find (owns at.value) db.members o e in
            let listed = Has-find (owns at.value) db.members o e in
            let here : o.group_id ≡ at.value = ground (arith, owning) in
            let same = membership_of o listed here in
            let me_too : o.user_id ≡ me = alone o listed here in
            let found : find (is_pair at.value me) db.members ≡ some o = rw (← me_too) same in
            ground (arith, owning, some-injective _ _ (sym mine ∙ found))
      ]

  alone-leave :
      ((m : GroupMember) → Has m db.members → m.group_id ≡ at.value → m.user_id ≡ me)
      → Deletes at.value true db (leave me at db)
  unfolding leave
  alone-leave alone =
      let own = alone_owns alone in
      elim (Option-cases (find_successor at.value me db)) [
        | inl e ↦
            rw (mine, own, e)
              (record {
                group_is =
                    any-absent group_id_of at.value _ (unkeyed-gone group_id_of at.value db.groups);
                messages_are = refl;
                answered = refl;
              })
        | inr (s, e) ↦
            let next = find_successor-IsSuccessor at.value me db s e in
            absurd (next.other (alone s next.listed next.in_group))
      ]

  accompanied-leave :
      (m : GroupMember)
      → find (is_pair at.value m.user_id) db.members ≡ some m
      → m.user_id ≢ me
      → Deletes at.value false db (leave me at db)
  unfolding leave find_successor
  accompanied-leave m e other = elim (Bool-cases (is_owner_role row.role)) [
    | inr plain ↦
        rw (mine, plain) (record { group_is = exists; messages_are = refl; answered = refl })
    | inl own ↦
        let p = is_other_member at.value me in
        let held = find_membership-IsRowOf at.value m.user_id db m e in
        let passes : p m ≡ true = ground (arith, held.in_group, other) in
        let (s, f) =
          first-of_Has m _
            (Has-sort_by joined_before m _ (Has-keep p m db.members held.listed passes)) in
        rw (mine, own, f) (record { group_is = exists; messages_are = refl; answered = refl })
  ]

  -- Everyone in the group is the one whom the list holds.
  alone_of :
      (y : GroupMember)
      → IsRosterOf at.value db.members (y ∷ [])
      → (m : GroupMember) → Has m db.members
      → m.group_id ≡ at.value
      → m.user_id ≡ me
  alone_of y (d, same) m i g =
      let me_too = same me ∙ mine in
      let it = same m.user_id ∙ membership_of m i g in ground (arith, me_too, it)

  -- A longer list holds another one.
  company_of :
      (y z : GroupMember) (rest : List GroupMember)
      → IsRosterOf at.value db.members (y ∷ z ∷ rest)
      → Deletes at.value false db (leave me at db)
  company_of y z rest (((z_y, away), d), same) = elim (Bool-cases (y.user_id == me)) [
    | inl e ↦
        let other : z.user_id ≢ me = λ h. z_y (ground (arith, h, e)) in
        let behind : (y.user_id == z.user_id) ≡ false = ground (arith, e, other) in
        accompanied-leave z (sym (same z.user_id) ∙ rw (behind, ==_refl z.user_id) refl) other
    | inr e ↦
        accompanied-leave y (sym (same y.user_id) ∙ rw (==_refl y.user_id) refl) (ground (arith, e))
  ]

-- In a database where every group has one owner and no user two rows in a group, a panel whose list of
-- members is that of the group warns a member that leaving deletes the group and its messages exactly
-- if the departure does: with the warning, the group and all its messages are gone from the tables and
-- the answer says so; without it, the group and every message stay.
pub sole_member-leave :
    (me : ℕ) (at : RequestId) (db : Db) (row : GroupMember) (roster : List GroupMember)
    → IsGoverned db
    → IsTable db.members
    → find_membership at.value me db ≡ some row
    → IsRosterOf at.value db.members roster
    → Deletes at.value (sole_member roster) db (leave me at db)
unfolding sole_member
sole_member-leave me at db row [] governed table mine (d, same) = cc (same me ∙ mine)
sole_member-leave me at db row (y ∷ []) governed table mine r =
    alone-leave me at db row governed table mine (alone_of me at db row governed table mine y r)
sole_member-leave me at db row (y ∷ z ∷ rest) governed table mine r =
    let longer : (length (y ∷ z ∷ rest) == 1) ≡ false = ground arith in
    rw longer (company_of me at db row governed table mine y z rest r)
