-- ===== src/Panel/Offers.antt =====
-- The "Make owner" buttons of the panel beside transferOwnership() of the server.
use internship_project.Base.{
  ℕ, ◌≡◌, refl, sym, ◌∙◌, inl, inr, Bool, true, false, arith, List, some, Option-cases, Bool-cases,
  ◌==◌, find, keyed,
}
use internship_project.Http.{Result, ok, err}
use internship_project.Schema.{GroupMember, Db, is_owner_role}
use internship_project.Events.{RequestId}
use internship_project.Groups.{find_membership, transfer_ownership}
use internship_project.Client.Roster.{user_of, IsRosterOf}
use internship_project.Panel.{offers_transfer}

abbrev pub is_ok {ℓ} : {A : Type ℓ} → Result A → Bool
is_ok (ok a) = true
is_ok (err e) = false

-- When a list of members is that of the group, its row of a member has a "Make owner" button exactly
-- if the server takes the viewer's transfer to that member.
pub offers_transfer-transfer_ownership :
    (me : ℕ) (at : RequestId) (db : Db) (roster : List GroupMember) (m : GroupMember)
    → IsRosterOf at.value db.members roster
    → find (keyed user_of m.user_id) roster ≡ some m
    → offers_transfer me roster m ≡ is_ok (transfer_ownership me at m.user_id db).result
unfolding offers_transfer transfer_ownership
offers_transfer-transfer_ownership me at db roster m (d, same) listed =
    let target : find_membership at.value m.user_id db ≡ some m = sym (same m.user_id) ∙ listed in
    elim (Bool-cases (me == m.user_id)) [
      | inl self ↦
          let mine : (m.user_id == me) ≡ true = ground (arith, self) in
          rw (self, mine) (ground arith)
      | inr two ↦
          let other : (m.user_id == me) ≡ false = ground (arith, two) in
          elim (Option-cases (find_membership at.value me db)) [
            | inl e ↦ rw (two, other, same me, e) refl
            | inr (c, e) ↦ elim (Bool-cases (is_owner_role c.role)) [
              | inr plain ↦ rw (two, other, same me, e, plain) refl
              | inl own ↦ rw (two, other, same me, e, own, target) refl
            ]
          ]
    ]
