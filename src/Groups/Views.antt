-- ===== src/Groups/Views.antt =====
-- findMyGroups() and findOne(): what the two listings hold, and in which order.
use internship_project.Base.{
  ℕ, ◌≡◌, refl, ap, subst, true, arith, List, [], ◌∷◌, map, any, count, All, All-keep_if,
  All-of_Has, All-sort_by, Has, Has-keep, Has-sort_by, IsTotalOrder, IsOrdered, sort_by-IsOrdered,
  ◌==◌, ==_iff, test-find, keyed,
}
use internship_project.Http.{ok, or_throw, >>=-eq-ok, or_throw-eq-ok, ok-injective}
use internship_project.Schema.{Group, GroupMember, Db}
use internship_project.Events.{RequestId}
use internship_project.Groups.{
  is_pair, group_id_of, in_group, find_group, GroupListing, GroupDetail, listing,
  newest_group_first, find_my_groups, earliest_join_first, find_one,
}

earliest_join_order : IsTotalOrder earliest_join_first
earliest_join_order = record { total = λ m n h. ground arith; trans = λ l m n h k. ground arith }

newest_group_order : IsTotalOrder newest_group_first
newest_group_order = record { total = λ m n h. ground arith; trans = λ l m n h k. ground arith }

abbrev pub group_in : GroupListing → Group
group_in l = l.group

-- The group detail holds the rows of the group's members, all of them and no others, by the time
-- at which they joined.
pub find_one-members :
    (group_id : RequestId) (db : Db) (d : GroupDetail)
    → find_one group_id db ≡ ok d
    → (d.group.id ≡ group_id.value)
      × All (λ m. Has m db.members × (m.group_id ≡ group_id.value)) d.members
      × ((m : GroupMember) → Has m db.members → m.group_id ≡ group_id.value → Has m d.members)
      × IsOrdered earliest_join_first d.members
unfolding find_one
find_one-members group_id db d h =
    let (g, e, h1) = >>=-eq-ok (or_throw (find_group group_id.value db) _) _ h in
    let found = or_throw-eq-ok (find_group group_id.value db) _ e in
    let same =
      (==_iff g.id group_id.value).0
        (test-find (keyed group_id_of group_id.value) db.groups g found) in
    subst
      (λ (d : GroupDetail).
        (d.group.id ≡ group_id.value)
        × All (λ m. Has m db.members × (m.group_id ≡ group_id.value)) d.members
        × ((m : GroupMember) → Has m db.members → m.group_id ≡ group_id.value → Has m d.members)
        × IsOrdered earliest_join_first d.members)
      (ok-injective h1)
      (
        same,
        All-sort_by earliest_join_first _ _ (
            All-keep_if (λ m. m.group_id == g.id) (λ m t i. (i, ground (arith, t, same))) db.members
              (All-of_Has (λ m. Has m db.members) db.members (λ m i. i))),
        (λ m i e.
            Has-sort_by earliest_join_first m _
              (Has-keep (λ m. m.group_id == g.id) m db.members i (ground (arith, e, same)))),
        sort_by-IsOrdered earliest_join_order _,
      )

-- The caller's groups: exactly those that hold a row of the caller, each with the numbers of its
-- members and its messages, the newest first.
pub find_my_groups-members :
    (user_id : ℕ) (db : Db)
    → All
        (λ l.
          Has l.group db.groups
          × (any (is_pair l.group.id user_id) db.members ≡ true)
          × (l.member_count ≡ count (λ m. m.group_id == l.group.id) db.members)
          × (l.message_count ≡ count (in_group l.group.id) db.messages))
        (find_my_groups user_id db)
      × ((g : Group)
          → Has g db.groups
          → any (is_pair g.id user_id) db.members ≡ true
          → Has g (map group_in (find_my_groups user_id db)))
      × IsOrdered newest_group_first (map group_in (find_my_groups user_id db))
unfolding find_my_groups
find_my_groups-members user_id db = (
  All-listing _ (
      All-sort_by newest_group_first _ _ (
        All-keep_if (λ g. any (is_pair g.id user_id) db.members) (λ g t i. (i, t)) db.groups
          (All-of_Has (λ g. Has g db.groups) db.groups (λ g i. i)))),
  (λ g i t. rw (plain _) (
      Has-sort_by newest_group_first g _
        (Has-keep (λ g. any (is_pair g.id user_id) db.members) g db.groups i t))),
  rw (plain _) (sort_by-IsOrdered newest_group_order _),
)
  where
    plain : (gs : List Group) → map group_in (map (listing db) gs) ≡ gs
    plain [] = refl
    plain (g ∷ gs) = ap (◌∷◌ g) (plain gs)

    All-listing :
        (gs : List Group)
        → All (λ g. Has g db.groups × (any (is_pair g.id user_id) db.members ≡ true)) gs
        → All
            (λ l.
              Has l.group db.groups
              × (any (is_pair l.group.id user_id) db.members ≡ true)
              × (l.member_count ≡ count (λ m. m.group_id == l.group.id) db.members)
              × (l.message_count ≡ count (in_group l.group.id) db.messages))
            (map (listing db) gs)
    All-listing [] h = tt
    All-listing (g ∷ gs) ((i, t), hs) = ((i, t, refl, refl), All-listing gs hs)
