-- ===== src/Groups/Access.antt =====
-- assertMember(): who may read a group.
use internship_project.Base.{
  ℕ, ◌≡◌, refl, ◌⊎◌, inl, inr, true, false, Bool-cases, Option-cases, count, find-eq-none,
}
use internship_project.Http.{ok, err}
use internship_project.Schema.{GroupMember, Db}
use internship_project.Events.{RequestId}
use internship_project.Uuid.{is_uuid}
use internship_project.Groups.{is_pair, find_membership, not_a_member, assert_member}
use internship_project.Groups.Leave.{IsRowOf, find_membership-IsRowOf}

-- Access is granted with the caller's own membership row of the named group, and only for a
-- well-formed id; or it is refused by one and the same 403, and then the id is malformed or no
-- row joins the caller to the group, whether or not the group exists.
pub assert_member_cases :
    (user_id : ℕ) (group_id : RequestId) (db : Db)
    → ((m : GroupMember) × (assert_member user_id group_id db ≡ ok m)
        × (is_uuid group_id.raw ≡ true)
        × IsRowOf group_id.value user_id db m)
      ⊎ ((assert_member user_id group_id db ≡ err not_a_member)
          × ((is_uuid group_id.raw ≡ false)
              ⊎ (count (is_pair group_id.value user_id) db.members ≡ 0)))
unfolding assert_member
assert_member_cases user_id group_id db = elim (Bool-cases (is_uuid group_id.raw)) [
  | inr bad ↦ inr (rw bad refl, inl bad)
  | inl good ↦ elim (Option-cases (find_membership group_id.value user_id db)) [
    | inl e ↦
        inr (rw (good, e) refl, inr (find-eq-none (is_pair group_id.value user_id) db.members e))
    | inr (m, e) ↦
        inl (m, rw (good, e) refl, good, find_membership-IsRowOf group_id.value user_id db m e)
  ]
]
