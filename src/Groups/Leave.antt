-- ===== src/Groups/Leave.antt =====
-- leave(): who takes over, and what becomes of the group.
use internship_project.Base.{
  ℕ, ◌≡◌, refl, sym, ap, ◌∙◌, ◌≢◌, Distinct, eq_of_key, Has-update_at, unkeyed-gone, ◌⊎◌, inl, inr,
  true, false, [], ◌∷◌, some, arith, Bool-cases, Option-cases, All, All-keep_if, All-of_Has, Has,
  Has-find, Has-keep, test-find, IsTotalOrder, first-sort_by, All-first, All-sort_by, unkeyed,
}
use internship_project.Http.{ok}
use internship_project.Schema.{owner, GroupMember, Db, is_owner_role}
use internship_project.Events.{RequestId, owner_changed, member_left}
use internship_project.Groups.{
  is_pair, member_id, set_role, find_membership, find_successor, joined_before, is_other_member,
  leave,
}
use internship_project.Groups.Ownership.{
  IsOwned, IsOwned-hand_over, IsOwned-delete, IsOwned-delete_group,
}

abbrev pub IsGoverned : Db → Type 0
IsGoverned db = IsOwned db.groups db.members

joined_before_order : IsTotalOrder joined_before
joined_before_order = record { total = λ m n h. ground arith; trans = λ l m n h k. ground arith }

-- The successor is another member of the group, and none of the others joined before.
pub record IsSuccessor (group_id user_id : ℕ) (db : Db) (s : GroupMember) : Type 0 where
  pub listed : Has s db.members
  pub in_group : s.group_id ≡ group_id
  pub other : s.user_id ≢ user_id
  pub longest :
      (m : GroupMember)
      → Has m db.members
      → m.group_id ≡ group_id
      → m.user_id ≢ user_id
      → (m ≡ s) ⊎ (joined_before s m ≡ true)

pub find_successor-IsSuccessor :
    (group_id user_id : ℕ) (db : Db) (s : GroupMember)
    → find_successor group_id user_id db ≡ some s
    → IsSuccessor group_id user_id db s
unfolding find_successor
find_successor-IsSuccessor group_id user_id db s e =
    let chosen =
      All-first (λ m. Has m db.members × (is_other_member group_id user_id m ≡ true)) _ s
        (All-sort_by joined_before _ _ (
          All-keep_if (is_other_member group_id user_id) (λ m t i. (i, t)) db.members
            (All-of_Has (λ m. Has m db.members) db.members (λ m i. i))))
        e in
    record {
      listed = chosen.0;
      in_group = ground (arith, chosen.1);
      other = λ h. ground (arith, chosen.1, h);
      longest = λ m i g u.
          first-sort_by joined_before_order _ s m e
            (Has-keep (is_other_member group_id user_id) m db.members i (ground (arith, g, u)));
    }

-- A membership row that was found.
pub record IsRowOf (group_id user_id : ℕ) (db : Db) (m : GroupMember) : Type 0 where
  pub listed : Has m db.members
  pub in_group : m.group_id ≡ group_id
  pub of_user : m.user_id ≡ user_id

pub find_membership-IsRowOf :
    (group_id user_id : ℕ) (db : Db) (m : GroupMember)
    → find_membership group_id user_id db ≡ some m
    → IsRowOf group_id user_id db m
find_membership-IsRowOf group_id user_id db m e =
    let t = test-find (is_pair group_id user_id) db.members m e in
    record {
      listed = Has-find (is_pair group_id user_id) db.members m e;
      in_group = ground (arith, t);
      of_user = ground (arith, t);
    }

-- Rows of different users are different rows.
pub apart_rows :
    {group_id user_id : ℕ} {db : Db} {a : GroupMember} (b : GroupMember)
    → Distinct member_id db.members
    → IsRowOf group_id user_id db a
    → Has b db.members
    → b.user_id ≢ user_id
    → a.id ≢ b.id
apart_rows {db} {a} b distinct row has_b other e = other (
    sym (
      ap (λ (m : GroupMember). m.user_id)
        (eq_of_key member_id a b db.members distinct row.listed has_b e))
    ∙ row.of_user)

pub leave-IsGoverned :
    (user_id : ℕ) (group_id : RequestId) (db : Db)
    → IsGoverned db
    → IsGoverned (leave user_id group_id db).db
unfolding leave
leave-IsGoverned user_id group_id db h =
    elim (Option-cases (find_membership group_id.value user_id db)) [
      | inl e ↦ rw e h
      | inr (me, e) ↦
          let row = find_membership-IsRowOf group_id.value user_id db me e in
          elim (Bool-cases (is_owner_role me.role)) [
            | inr plain ↦ rw (e, plain) (IsOwned-delete db.groups db.members h me row.listed plain)
            | inl own ↦ elim (Option-cases (find_successor group_id.value user_id db)) [
              | inl alone ↦
                  rw (e, own, alone) (IsOwned-delete_group db.groups db.members h group_id.value)
              | inr (s, found) ↦
                  let next = find_successor-IsSuccessor group_id.value user_id db s found in
                  rw (e, own, found)
                    (IsOwned-hand_over db.groups db.members h me s row.listed next.listed
                      (apart_rows s h.distinct row next.listed next.other)
                      (next.in_group ∙ sym row.in_group) own)
            ]
          ]
    ]

-- When an owner leaves a group that has other members, the group survives: the departing row is
-- gone, the member who joined first (the smaller id on a tie) holds an OWNER row, everyone is told
-- of the new owner and then of the departure, and messages and groups are untouched.
pub leave-hands_over :
    (user_id : ℕ) (group_id : RequestId) (db : Db) (me s : GroupMember)
    → IsGoverned db
    → find_membership group_id.value user_id db ≡ some me
    → me.role ≡ owner
    → find_successor group_id.value user_id db ≡ some s
    → IsSuccessor group_id.value user_id db s
      × ((leave user_id group_id db).result
          ≡ ok (record { group_deleted = false; new_owner_id = some s.user_id }))
      × ((leave user_id group_id db).events
          ≡ owner_changed group_id user_id s.user_id ∷ member_left group_id user_id ∷ [])
      × Has (set_role owner s) (leave user_id group_id db).db.members
      × (All (λ m. m.id ≢ me.id) (leave user_id group_id db).db.members)
      × ((leave user_id group_id db).db.groups ≡ db.groups)
      × ((leave user_id group_id db).db.messages ≡ db.messages)
unfolding leave
leave-hands_over user_id group_id db me s h e own found =
    let row = find_membership-IsRowOf group_id.value user_id db me e in
    let next = find_successor-IsSuccessor group_id.value user_id db s found in
    let apart = apart_rows s h.distinct row next.listed next.other in
    let promoted = Has-update_at member_id (set_role owner) s db.members next.listed in
    rw (e, own, found)
      (
        next,
        refl,
        refl,
        Has-keep (unkeyed member_id me.id) (set_role owner s) _ promoted (ground (arith, apart)),
        unkeyed-gone member_id me.id _,
        refl,
        refl,
      )
