-- ===== src/Groups/Effects.antt =====
-- The methods of groups.service.ts that write: each by what it leaves in the tables of the groups and
-- the members, and by the events that go with it.
use internship_project.Base.{
  ℕ, ◌≡◌, refl, ◌⊎◌, inl, inr, false, not, ◌&&◌, List, [], ◌∷◌, ◌++◌, some, Text, ◌==◌, Bool-cases,
  Option-cases, any, keep, update, keyed, unkeyed, is_some,
}
use internship_project.Schema.{owner, member, Group, GroupMember, Db, is_owner_role}
use internship_project.Events.{
  RequestId, Event, Outcome, member_joined, member_left, owner_changed, read_marked,
}
use internship_project.Groups.{
  is_pair, member_id, group_id_of, has_name, set_role, stamp, find_membership, find_group,
  new_group, new_member, find_successor, create, join, leave, transfer_ownership, mark_read,
}

-- Nothing is written, and nobody is told.
pub record IsIdle {A : Type 0} (db : Db) (o : Outcome A) : Type 0 where
  pub kept : o.db ≡ db
  pub silent : o.events ≡ []

-- The two tables and the events after a method.
pub record Leaves {A : Type 0} (groups : List Group) (members : List GroupMember)
    (events : List Event) (o : Outcome A) : Type 0 where
  pub groups_are : o.db.groups ≡ groups
  pub members_are : o.db.members ≡ members
  pub events_are : o.events ≡ events

pub join-effect :
    (member_id now user_id : ℕ) (group_id : RequestId) (db : Db)
    → IsIdle db (join member_id now user_id group_id db)
      ⊎ ((any (is_pair group_id.value user_id) db.members ≡ false)
          × Leaves db.groups
              (db.members ++ new_member member_id group_id.value user_id member now ∷ [])
              (member_joined group_id (new_member member_id group_id.value user_id member now) ∷ [])
              (join member_id now user_id group_id db))
unfolding join
join-effect mid now user_id group_id db = elim (Option-cases (find_group group_id.value db)) [
  | inl e ↦ inl (rw e (record { kept = refl; silent = refl }))
  | inr (g, e) ↦ elim (Bool-cases (any (is_pair group_id.value user_id) db.members)) [
    | inl f ↦ inl (rw (e, f) (record { kept = refl; silent = refl }))
    | inr f ↦
        elim (Bool-cases (
          any (keyed group_id_of group_id.value) db.groups
          && any (λ u. u.id == user_id) db.users)) [
            | inr k ↦ inl (rw (e, f, k) (record { kept = refl; silent = refl }))
            | inl k ↦ inr (
              f,
              rw (e, f, k) (record { groups_are = refl; members_are = refl; events_are = refl }),
            )
          ]
  ]
]

pub create-effect :
    (group_id member_id now user_id : ℕ) (name : Text) (db : Db)
    → IsIdle db (create group_id member_id now user_id name db)
      ⊎ ((any (is_pair group_id user_id) db.members ≡ false)
          × Leaves
              (db.groups ++ new_group group_id user_id name now ∷ [])
              (db.members ++ new_member member_id group_id user_id owner now ∷ [])
              []
              (create group_id member_id now user_id name db))
unfolding create
create-effect gid mid now user_id name db =
    elim (Bool-cases (any (has_name user_id name) db.groups)) [
      | inl e ↦ inl (rw e (record { kept = refl; silent = refl }))
      | inr e ↦ elim (Bool-cases (any (λ u. u.id == user_id) db.users)) [
        | inr f ↦ inl (rw (e, f) (record { kept = refl; silent = refl }))
        | inl f ↦ elim (Bool-cases (any (is_pair gid user_id) db.members)) [
          | inl k ↦ inl (rw (e, f, k) (record { kept = refl; silent = refl }))
          | inr k ↦
              elim (Bool-cases
                (any (keyed group_id_of gid) (db.groups ++ new_group gid user_id name now ∷ []))) [
                  | inr l ↦ inl (rw (e, f, k, l) (record { kept = refl; silent = refl }))
                  | inl l ↦ inr (
                    k,
                    rw (e, f, k, l, f)
                        (record { groups_are = refl; members_are = refl; events_are = refl }),
                  )
                ]
        ]
      ]
    ]

pub mark_read-effect :
    (now user_id : ℕ) (group_id : RequestId) (db : Db)
    → IsIdle db (mark_read now user_id group_id db)
      ⊎ Leaves db.groups
          (update (is_pair group_id.value user_id) (stamp now) db.members)
          (read_marked group_id user_id now ∷ [])
          (mark_read now user_id group_id db)
unfolding mark_read
mark_read-effect now user_id group_id db =
    elim (Bool-cases (is_some (find_membership group_id.value user_id db))) [
      | inr e ↦ inl (rw e (record { kept = refl; silent = refl }))
      | inl e ↦ inr (rw e (record { groups_are = refl; members_are = refl; events_are = refl }))
    ]

-- The row of the old owner becomes a member's, and the row of the new one an owner's.
pub record Transfers {A : Type 0} (caller_id : ℕ) (group_id : RequestId) (target_id : ℕ) (db : Db)
    (o : Outcome A) : Type 0 where
  pub caller : GroupMember
  pub target : GroupMember
  pub of_caller : find_membership group_id.value caller_id db ≡ some caller
  pub of_target : find_membership group_id.value target_id db ≡ some target
  pub two : (caller_id == target_id) ≡ false
  pub leaves :
      Leaves db.groups
        (update
          (keyed member_id caller.id)
          (set_role member)
          (update (keyed member_id target.id) (set_role owner) db.members))
        (owner_changed group_id caller_id target_id ∷ [])
        o

pub transfer-effect :
    (caller_id : ℕ) (group_id : RequestId) (target_id : ℕ) (db : Db)
    → IsIdle db (transfer_ownership caller_id group_id target_id db)
      ⊎ Transfers caller_id group_id target_id db
          (transfer_ownership caller_id group_id target_id db)
unfolding transfer_ownership
transfer-effect caller_id group_id target_id db = elim (Bool-cases (caller_id == target_id)) [
  | inl self ↦ inl (rw self (record { kept = refl; silent = refl }))
  | inr two ↦ elim (Option-cases (find_membership group_id.value caller_id db)) [
    | inl e ↦ inl (rw (two, e) (record { kept = refl; silent = refl }))
    | inr (c, e) ↦ elim (Bool-cases (is_owner_role c.role)) [
      | inr plain ↦ inl (rw (two, e, plain) (record { kept = refl; silent = refl }))
      | inl own ↦ elim (Option-cases (find_membership group_id.value target_id db)) [
        | inl f ↦ inl (rw (two, e, own, f) (record { kept = refl; silent = refl }))
        | inr (t, f) ↦ inr (record {
          caller = c;
          target = t;
          of_caller = e;
          of_target = f;
          two = two;
          leaves =
              rw (two, e, own, f)
                (record { groups_are = refl; members_are = refl; events_are = refl });
        })
      ]
    ]
  ]
]

-- The departing row goes, after its role has gone to another one.
pub record HandsOver {A : Type 0} (user_id : ℕ) (group_id : RequestId) (db : Db) (me : GroupMember)
    (o : Outcome A) : Type 0 where
  pub successor : GroupMember
  pub chosen : find_successor group_id.value user_id db ≡ some successor
  pub leaves :
      Leaves db.groups
        (keep
          (unkeyed member_id me.id)
          (update (keyed member_id successor.id) (set_role owner) db.members))
        (owner_changed group_id user_id successor.user_id ∷ member_left group_id user_id ∷ [])
        o

pub record Departs {A : Type 0} (user_id : ℕ) (group_id : RequestId) (db : Db) (o : Outcome A)
    : Type 0 where
  pub me : GroupMember
  pub of_me : find_membership group_id.value user_id db ≡ some me
  pub how :
      Leaves db.groups
        (keep (unkeyed member_id me.id) db.members)
        (member_left group_id user_id ∷ [])
        o
      ⊎ HandsOver user_id group_id db me o
      ⊎ Leaves
          (keep (unkeyed group_id_of group_id.value) db.groups)
          (keep (λ m. not (m.group_id == group_id.value)) db.members)
          []
          o

pub leave-effect :
    (user_id : ℕ) (group_id : RequestId) (db : Db)
    → IsIdle db (leave user_id group_id db)
      ⊎ Departs user_id group_id db (leave user_id group_id db)
unfolding leave
leave-effect user_id group_id db = elim (Option-cases (find_membership group_id.value user_id db)) [
  | inl e ↦ inl (rw e (record { kept = refl; silent = refl }))
  | inr (me, e) ↦ elim (Bool-cases (is_owner_role me.role)) [
    | inr plain ↦ inr (record {
      me = me;
      of_me = e;
      how =
          inl (rw (e, plain) (record { groups_are = refl; members_are = refl; events_are = refl }));
    })
    | inl own ↦ elim (Option-cases (find_successor group_id.value user_id db)) [
      | inl alone ↦ inr (record {
        me = me;
        of_me = e;
        how = inr (
            inr (
              rw (e, own, alone)
                (record { groups_are = refl; members_are = refl; events_are = refl })));
      })
      | inr (s, found) ↦ inr (record {
        me = me;
        of_me = e;
        how = inr (
            inl (record {
              successor = s;
              chosen = found;
              leaves =
                  rw (e, own, found)
                    (record { groups_are = refl; members_are = refl; events_are = refl });
            }));
      })
    ]
  ]
]
