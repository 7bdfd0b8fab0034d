-- ===== src/Groups/Apart.antt =====
-- The methods on one group, and the members and the reactions of another one.
use internship_project.Base.{
  keep-snoc_away, keep-keep_away, keep-update_away, ℕ, ◌≡◌, ◌≢◌, refl, ap, ◌∙◌, inl, inr, Bool,
  true, false, not, ◌&&◌, arith, Text, Bool-cases, ◌==◌, ==_iff, any, keep, update, keyed, unkeyed,
  ◌⊎◌, any-Has, All-Has, All-of_Has, All-update, Has, Distinct, eq_of_key,
}
use internship_project.Schema.{MemberRole, owner, member, GroupMember, Message, Reaction, Db}
use internship_project.Events.{RequestId}
use internship_project.Groups.{
  is_pair, member_id, set_role, stamp, in_group, insert_group, insert_member, create_tx, create,
  join_tx, join, leave_tx, leave, transfer_reads, transfer_writes, transfer_tx, transfer_ownership,
  mark_read,
}
use internship_project.Messages.{message_id}
use internship_project.Groups.Leave.{find_membership-IsRowOf, find_successor-IsSuccessor}
use internship_project.Groups.Effects.{
  create-effect, mark_read-effect, transfer-effect, leave-effect,
}

abbrev pub is_member_in : (group_id : ℕ) → GroupMember → Bool
is_member_in g m = m.group_id == g

-- A reaction to a message that the group has in the database.
abbrev pub is_reaction_in : (group_id : ℕ) → Db → Reaction → Bool
is_reaction_in g db r = any (λ m. in_group g m && (m.id == r.message_id)) db.messages

abbrev pub SameMembers : (group_id : ℕ) → Db → Db → Type 0
SameMembers g db db' = keep (is_member_in g) db'.members ≡ keep (is_member_in g) db.members

abbrev pub SameReactions : (group_id : ℕ) → Db → Db → Type 0
SameReactions g db db' =
    keep (is_reaction_in g db) db'.reactions ≡ keep (is_reaction_in g db) db.reactions

apart : (x g h : ℕ) → x ≡ h → h ≢ g → (x == g) ≡ false
apart x g h e n = ground (arith, e, n)

pub create-SameMembers :
    (group_id row_id now user_id : ℕ) (name : Text) (g : ℕ) (db : Db)
    → group_id ≢ g
    → SameMembers g db (create group_id row_id now user_id name db).db
create-SameMembers group_id row_id now user_id name g db n =
    elim (create-effect group_id row_id now user_id name db) [
      | inl i ↦ ap (λ (d : Db). keep (is_member_in g) d.members) i.kept
      | inr (_, l) ↦
          ap (keep (is_member_in g)) l.members_are
          ∙ keep-snoc_away (is_member_in g) db.members _ (apart group_id g group_id refl n)
    ]

pub create-reactions :
    (group_id row_id now user_id : ℕ) (name : Text) (db : Db)
    → (create group_id row_id now user_id name db).db.reactions ≡ db.reactions
unfolding create create_tx insert_group insert_member
create-reactions group_id row_id now user_id name db = ground arith

pub join-reactions :
    (row_id now user_id : ℕ) (group_id : RequestId) (db : Db)
    → (join row_id now user_id group_id db).db.reactions ≡ db.reactions
unfolding join join_tx insert_member
join-reactions row_id now user_id group_id db = ground arith

pub mark_read-SameMembers :
    (now user_id : ℕ) (at : RequestId) (g : ℕ) (db : Db)
    → at.value ≢ g
    → SameMembers g db (mark_read now user_id at db).db
mark_read-SameMembers now user_id at g db n = elim (mark_read-effect now user_id at db) [
  | inl i ↦ ap (λ (d : Db). keep (is_member_in g) d.members) i.kept
  | inr l ↦
      ap (keep (is_member_in g)) l.members_are
      ∙ keep-update_away (is_member_in g) (is_pair at.value user_id) (stamp now) db.members
          (λ m. refl) (λ m i t. ground (arith, t, n))
]

pub mark_read-reactions :
    (now user_id : ℕ) (at : RequestId) (db : Db)
    → (mark_read now user_id at db).db.reactions ≡ db.reactions
unfolding mark_read
mark_read-reactions now user_id at db = ground arith

pub transfer_ownership-reactions :
    (caller_id : ℕ) (at : RequestId) (target_id : ℕ) (db : Db)
    → (transfer_ownership caller_id at target_id db).db.reactions ≡ db.reactions
unfolding transfer_ownership transfer_tx transfer_reads transfer_writes
transfer_ownership-reactions caller_id at target_id db = ground arith

module _ (at : RequestId) (g : ℕ) (db : Db) (distinct : Distinct member_id db.members)
    (away : at.value ≢ g) where
  -- The row with the id of a row of `at` is that row.
  other_row :
      (own : GroupMember)
      → Has own db.members
      → own.group_id ≡ at.value
      → (m : GroupMember) → Has m db.members
      → (m.id == own.id) ≡ true
      → is_member_in g m ≡ false
  other_row own listed here m i t =
      let same =
        eq_of_key member_id m own db.members distinct i listed ((==_iff m.id own.id).0 t) in
      apart m.group_id g at.value (ap (λ (m : GroupMember). m.group_id) same ∙ here) away

  -- A role is set on one row of `at`.
  set-SameMembers :
      (own : GroupMember) (role : MemberRole)
      → Has own db.members
      → own.group_id ≡ at.value
      → keep (is_member_in g) (update (keyed member_id own.id) (set_role role) db.members)
        ≡ keep (is_member_in g) db.members
  set-SameMembers own role listed here =
      keep-update_away (is_member_in g) (keyed member_id own.id) (set_role role) db.members
        (λ m. refl) (other_row own listed here)

  -- The rows after that still have their ids and groups.
  still_other :
      (own later : GroupMember) (role : MemberRole)
      → Has own db.members
      → own.group_id ≡ at.value
      → (m : GroupMember) → Has m (update (keyed member_id later.id) (set_role role) db.members)
      → (m.id == own.id) ≡ true
      → is_member_in g m ≡ false
  still_other own later role listed here m i =
      All-Has (λ m. (m.id == own.id) ≡ true → is_member_in g m ≡ false) m _
        (All-update (λ m. (m.id == own.id) ≡ true → is_member_in g m ≡ false)
          (keyed member_id later.id) (set_role role) db.members (λ m t h. h)
          (All-of_Has _ db.members (other_row own listed here)))
        i

  pub transfer_ownership-SameMembers :
      (caller_id target_id : ℕ) → SameMembers g db (transfer_ownership caller_id at target_id db).db
  transfer_ownership-SameMembers caller_id target_id =
      elim (transfer-effect caller_id at target_id db) [
        | inl i ↦ ap (λ (d : Db). keep (is_member_in g) d.members) i.kept
        | inr t ↦
            let caller = find_membership-IsRowOf at.value caller_id db t.caller t.of_caller in
            let target = find_membership-IsRowOf at.value target_id db t.target t.of_target in
            ap (keep (is_member_in g)) t.leaves.members_are
            ∙ keep-update_away (is_member_in g) (keyed member_id t.caller.id) (set_role member) _
                (λ m. refl) (still_other t.caller t.target owner caller.listed caller.in_group)
            ∙ set-SameMembers t.target owner target.listed target.in_group
      ]

  pub leave-SameMembers : (user_id : ℕ) → SameMembers g db (leave user_id at db).db
  leave-SameMembers user_id = elim (leave-effect user_id at db) [
    | inl i ↦ ap (λ (d : Db). keep (is_member_in g) d.members) i.kept
    | inr d ↦
        let me = find_membership-IsRowOf at.value user_id db d.me d.of_me in
        elim d.how [
          | inl l ↦
              ap (keep (is_member_in g)) l.members_are
              ∙ keep-keep_away (is_member_in g) (unkeyed member_id d.me.id) db.members
                  (λ m i t. other_row d.me me.listed me.in_group m i (ground (arith, t)))
          | inr (inl h) ↦
              let next = find_successor-IsSuccessor at.value user_id db h.successor h.chosen in
              ap (keep (is_member_in g)) h.leaves.members_are
              ∙ keep-keep_away (is_member_in g) (unkeyed member_id d.me.id) _ (λ m i t.
                still_other d.me h.successor owner me.listed me.in_group m i (ground (arith, t)))
              ∙ set-SameMembers h.successor owner next.listed next.in_group
          | inr (inr l) ↦
              ap (keep (is_member_in g)) l.members_are
              ∙ keep-keep_away (is_member_in g) (λ m. not (m.group_id == at.value)) db.members
                  (λ m i t. ground (arith, t, away))
        ]
  ]

-- A message id names a message of one group.
pub is_reaction_in-other :
    (h g : ℕ) (db : Db) (r : Reaction)
    → Distinct message_id db.messages
    → h ≢ g
    → is_reaction_in h db r ≡ true
    → is_reaction_in g db r ≡ false
is_reaction_in-other h g db r distinct n t = elim (Bool-cases (is_reaction_in g db r)) [
  | inr e ↦ e
  | inl e ↦
      let (a, in_h, ta) = any-Has (λ m. in_group h m && (m.id == r.message_id)) db.messages t in
      let (b, in_g, tb) = any-Has (λ m. in_group g m && (m.id == r.message_id)) db.messages e in
      let one : a.id ≡ b.id = ground (arith, ta, tb) in
      let same = eq_of_key message_id a b db.messages distinct in_h in_g one in
      let groups : a.group_id ≡ b.group_id = ap Message.group_id same in
      absurd (n (ground (arith, ta, tb, groups)))
]

leave-reaction_rows :
    (user_id : ℕ) (at : RequestId) (db : Db)
    → ((leave user_id at db).db.reactions ≡ db.reactions)
      ⊎ ((leave user_id at db).db.reactions
          ≡ keep (λ r. not (is_reaction_in at.value db r)) db.reactions)
unfolding leave leave_tx
leave-reaction_rows user_id at db = ground arith

pub leave-SameReactions :
    (user_id : ℕ) (at : RequestId) (g : ℕ) (db : Db)
    → Distinct message_id db.messages
    → at.value ≢ g
    → SameReactions g db (leave user_id at db).db
leave-SameReactions user_id at g db distinct n = elim (leave-reaction_rows user_id at db) [
  | inl e ↦ ap (keep (is_reaction_in g db)) e
  | inr e ↦
      ap (keep (is_reaction_in g db)) e
      ∙ keep-keep_away (is_reaction_in g db) (λ r. not (is_reaction_in at.value db r)) db.reactions
          (λ r i t. is_reaction_in-other at.value g db r distinct n (ground (arith, t)))
]
