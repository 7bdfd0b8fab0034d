-- ===== src/Groups/History.antt =====
-- The other methods of groups.service.ts that write, and the invariant over every history.
use internship_project.Base.{
  ℕ, refl, sym, ◌∙◌, ◌≢◌, inl, inr, Text, arith, ◌==◌, Bool-cases, Option-cases, any, All,
  All-update, Distinct-update, count-update_same, is_some, All-map, any-snoc, ==_refl, keyed,
}
use internship_project.Schema.{owner, member, Db, is_owner_role}
use internship_project.Events.{RequestId}
use internship_project.Groups.{
  is_pair, member_id, group_id_of, has_name, stamp, find_membership, find_group, new_group,
  new_member, create, join, leave, transfer_ownership, mark_read,
}
use internship_project.Groups.Leave.{
  IsGoverned, find_membership-IsRowOf, apart_rows, leave-IsGoverned,
}
use internship_project.Groups.Ownership.{
  owns, HasGroup, IsOwned-swap, IsOwned-insert, IsOwned-create,
}

transfer-IsGoverned :
    (caller_id : ℕ) (group_id : RequestId) (target_id : ℕ) (db : Db)
    → IsGoverned db
    → IsGoverned (transfer_ownership caller_id group_id target_id db).db
unfolding transfer_ownership
transfer-IsGoverned caller_id group_id target_id db h = elim (Bool-cases (caller_id == target_id)) [
  | inl self ↦ rw self h
  | inr two ↦ elim (Option-cases (find_membership group_id.value caller_id db)) [
    | inl e ↦ rw (two, e) h
    | inr (c, e) ↦ elim (Bool-cases (is_owner_role c.role)) [
      | inr plain ↦ rw (two, e, plain) h
      | inl own ↦ elim (Option-cases (find_membership group_id.value target_id db)) [
        | inl f ↦ rw (two, e, own, f) h
        | inr (t, f) ↦
            let from = find_membership-IsRowOf group_id.value caller_id db c e in
            let to = find_membership-IsRowOf group_id.value target_id db t f in
            rw (two, e, own, f)
              (IsOwned-swap db.groups db.members h c t from.listed to.listed
                (apart_rows t h.distinct from to.listed (ground (arith, to.of_user, two)))
                (to.in_group ∙ sym from.in_group) own)
      ]
    ]
  ]
]

-- A fresh id, as the database's `uuid(7)` default makes one.
abbrev pub IsFreshMember : ℕ → Db → Type 0
IsFreshMember id db = All (λ m. m.id ≢ id) db.members

abbrev pub IsFreshGroup : ℕ → Db → Type 0
IsFreshGroup id db = All (λ g. g.id ≢ id) db.groups

join-IsGoverned :
    (member_id now user_id : ℕ) (group_id : RequestId) (db : Db)
    → IsFreshMember member_id db
    → IsGoverned db
    → IsGoverned (join member_id now user_id group_id db).db
unfolding join
join-IsGoverned mid now user_id group_id db fresh h =
    elim (Option-cases (find_group group_id.value db)) [
      | inl e ↦ rw e h
      | inr (g, e) ↦ elim (Bool-cases (any (is_pair group_id.value user_id) db.members)) [
        | inl twice ↦ rw (e, twice) h
        | inr first_time ↦ elim (Bool-cases (any (keyed group_id_of group_id.value) db.groups)) [
          | inr lost ↦ rw (e, first_time, lost) h
          | inl known ↦ elim (Bool-cases (any (λ u. u.id == user_id) db.users)) [
            | inr ghost ↦ rw (e, first_time, known, ghost) h
            | inl real ↦
                rw (e, first_time, known, real)
                  (IsOwned-insert db.groups db.members h
                    (new_member mid group_id.value user_id member now) fresh refl known)
          ]
        ]
      ]
    ]

create-IsGoverned :
    (group_id member_id now user_id : ℕ) (name : Text) (db : Db)
    → IsFreshMember member_id db
    → IsFreshGroup group_id db
    → IsGoverned db
    → IsGoverned (create group_id member_id now user_id name db).db
unfolding create
create-IsGoverned gid mid now user_id name db fresh new h =
    elim (Bool-cases (any (has_name user_id name) db.groups)) [
      | inl taken ↦ rw taken h
      | inr free ↦ elim (Bool-cases (any (λ u. u.id == user_id) db.users)) [
        | inr ghost ↦ rw (free, ghost) h
        | inl real ↦ elim (Bool-cases (any (is_pair gid user_id) db.members)) [
          | inl twice ↦ rw (free, real, twice) h
          | inr first_time ↦
              rw
                (
                  free,
                  real,
                  first_time,
                  any-snoc (keyed group_id_of gid) db.groups (new_group gid user_id name now)
                      (==_refl gid),
                  real,
                )
                (IsOwned-create db.groups db.members h (new_group gid user_id name now)
                  (new_member mid gid user_id owner now) fresh new refl refl)
        ]
      ]
    ]

mark_read-IsGoverned :
    (now user_id : ℕ) (group_id : RequestId) (db : Db)
    → IsGoverned db
    → IsGoverned (mark_read now user_id group_id db).db
unfolding mark_read
mark_read-IsGoverned now user_id group_id db h =
    elim (Bool-cases (is_some (find_membership group_id.value user_id db))) [
      | inr gone ↦ rw gone h
      | inl there ↦ rw there (record {
        distinct = Distinct-update member_id _ (stamp now) db.members (λ m. refl) h.distinct;
        one_owner =
            All-map
              (λ g one. count-update_same (owns g.id) _ (stamp now) db.members (λ m _. refl) ∙ one)
              db.groups h.one_owner;
        no_orphan =
            All-update (HasGroup db.groups) _ (stamp now) db.members (λ m _ k. k) h.no_orphan;
      })
    ]

-- A request to groups.service.ts that writes, with the ids and the clock that it is given.
pub data Call : Type 0 where
  creates : (group_id member_id now user_id : ℕ) → Text → Call
  joins : (member_id now user_id : ℕ) → RequestId → Call
  leaves : (user_id : ℕ) → RequestId → Call
  transfers : (caller_id : ℕ) → RequestId → (target_id : ℕ) → Call
  reads : (now user_id : ℕ) → RequestId → Call

abbrev pub after : Call → Db → Db
after (creates gid mid now user_id name) db = (create gid mid now user_id name db).db
after (joins mid now user_id group_id) db = (join mid now user_id group_id db).db
after (leaves user_id group_id) db = (leave user_id group_id db).db
after (transfers caller_id group_id target_id) db =
    (transfer_ownership caller_id group_id target_id db).db
after (reads now user_id group_id) db = (mark_read now user_id group_id db).db

-- The ids that a request is given are new to the tables.
abbrev pub IsFresh : Call → Db → Type 0
IsFresh (creates gid mid now user_id name) db = IsFreshMember mid db × IsFreshGroup gid db
IsFresh (joins mid now user_id group_id) db = IsFreshMember mid db
IsFresh (leaves user_id group_id) db = Unit
IsFresh (transfers caller_id group_id target_id) db = Unit
IsFresh (reads now user_id group_id) db = Unit

-- The states that a sequence of requests, one at a time, can lead to.
pub data Reaches (start : Db) : Db → Type 0 where
  here : Reaches start start
  next : {db : Db} → Reaches start db → (c : Call) → IsFresh c db → Reaches start (after c db)

after-IsGoverned : (c : Call) (db : Db) → IsFresh c db → IsGoverned db → IsGoverned (after c db)
after-IsGoverned (creates gid mid now user_id name) db f h =
    create-IsGoverned gid mid now user_id name db f.0 f.1 h
after-IsGoverned (joins mid now user_id group_id) db f h =
    join-IsGoverned mid now user_id group_id db f h
after-IsGoverned (leaves user_id group_id) db f h = leave-IsGoverned user_id group_id db h
after-IsGoverned (transfers caller_id group_id target_id) db f h =
    transfer-IsGoverned caller_id group_id target_id db h
after-IsGoverned (reads now user_id group_id) db f h =
    mark_read-IsGoverned now user_id group_id db h

-- From tables in which every group has exactly one OWNER row, every membership row names a group
-- that exists and no two rows share an id, any sequence of create, join, leave, transfer and
-- mark-read requests with fresh ids, run one at a time and whether they succeed or fail, leads to
-- such tables again.
pub Reaches-IsGoverned : {start db : Db} → IsGoverned start → Reaches start db → IsGoverned db
Reaches-IsGoverned h here = h
Reaches-IsGoverned h (next {db} r c f) = after-IsGoverned c db f (Reaches-IsGoverned h r)
