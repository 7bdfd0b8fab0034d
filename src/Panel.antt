-- ===== src/Panel.antt =====
-- frontend/src/components/groups/members-panel.tsx: the list of members of a group's page, with the
-- buttons to hand over the group and to leave it. Names, the dots of presence and the text of an
-- error are left out; a member is its row.
pub mod Offers
pub mod Goodbye
use internship_project.Base.{
  ℕ, Bool, true, false, not, ◌&&◌, ◌||◌, List, [], ◌∷◌, Option, none, some, ◌==◌, if◌then◌else◌,
  length, find, keyed,
}
use internship_project.Schema.{GroupMember, is_owner_role}
use internship_project.Client.Roster.{user_of}

-- The state of the panel; `leaving` and `transferring` are isPending of the two mutations.
pub record Panel : Type 0 where
  pub confirming : Bool
  pub failed : Bool
  pub leaving : Bool
  pub transferring : Bool

abbrev is_owner_row : Option GroupMember → Bool
is_owner_row none = false
is_owner_row (some m) = is_owner_role m.role

-- iAmOwner, soleMember, and whether a row has its "Make owner" button.
unfoldable pub i_am_owner : (current_user_id : ℕ) → (members : List GroupMember) → Bool
i_am_owner current_user_id members = is_owner_row (find (keyed user_of current_user_id) members)

unfoldable pub sole_member : (members : List GroupMember) → Bool
sole_member members = length members == 1

unfoldable pub offers_transfer :
    (current_user_id : ℕ) → (members : List GroupMember) → GroupMember → Bool
unfolding i_am_owner
offers_transfer current_user_id members m =
    i_am_owner current_user_id members && not (m.user_id == current_user_id)

-- onTransfer() and onLeave() behind their buttons, and what follows them: the request that is sent is
-- the second part, or for an answer whether the page goes back to the list of groups.
unfoldable pub on_transfer : ℕ → Panel → Panel × Option ℕ
on_transfer user_id p =
    if p.transferring
    then (p, none)
    else (record p { failed = false; transferring = true }, some user_id)

abbrev pub on_transferred : (ok : Bool) → Panel → Panel
on_transferred ok p = record p { failed = if ok then p.failed else true; transferring = false }

unfoldable pub on_leave : Panel → Panel × Bool
on_leave p =
    if p.leaving || not p.confirming
    then (p, false)
    else (record p { failed = false; leaving = true }, true)

abbrev pub on_left : (ok : Bool) → Panel → Panel × Bool
on_left ok p = (record p { failed = if ok then p.failed else true; leaving = false }, ok)

abbrev pub set_confirming : Bool → Panel → Panel
set_confirming confirming p = record p { confirming = confirming }
