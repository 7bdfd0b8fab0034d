-- ===== src/Client/Roster/Roles.antt =====
-- The rows of a group after a transfer of its ownership, and after the departure of its owner.
use internship_project.Base.{
  ℕ, ◌≡◌, refl, ap, ◌∙◌, inl, inr, Bool, false, ◌&&◌, arith, none, some, ◌==◌, ==_refl,
  if◌then◌else◌, Bool-cases, Option-cases, find, keep, update, keyed, unkeyed, find-only,
}
use mathlib.Core.Option as Opt
use internship_project.Schema.{owner, member, GroupMember, Db}
use internship_project.Groups.{is_pair, member_id, set_role, find_membership, find_successor}
use internship_project.Groups.Leave.{find_membership-IsRowOf, find_successor-IsSuccessor}
use internship_project.Client.{flip_roles}
use internship_project.Client.Roster.{IsTable}
use internship_project.Client.Roster.Rows.{IsTable-update, find-updated, find-deleted}

-- What owner_changed does to a row of the group, and to one of another group.
abbrev pub flipped :
    (in_group : Bool) → (previous_owner_id new_owner_id : ℕ) → GroupMember → GroupMember
flipped in_group previous_owner_id new_owner_id m =
    if in_group then flip_roles previous_owner_id new_owner_id m else m

module _ (db : Db) (table : IsTable db.members) (g x y : ℕ) (t : GroupMember)
    (found : find_membership g y db ≡ some t) where
  -- The tables after the promotion of `t`.
  abbrev pub promoted : Db
  promoted = record db { members = update (keyed member_id t.id) (set_role owner) db.members }

  promoted-IsTable : IsTable promoted.members
  promoted-IsTable =
      IsTable-update (keyed member_id t.id) (set_role owner) db.members (λ m. refl) (λ h u m. refl)
        table

  found_promoted :
      (c : GroupMember)
      → find_membership g x db ≡ some c
      → (x == y) ≡ false
      → find_membership g x promoted ≡ some c
  found_promoted c e two =
      find-updated db table g y t found (set_role owner) (λ h u m. refl) g x
      ∙ rw (e, two, ==_refl g) refl

  pub swap_rows :
      (c : GroupMember)
      → find_membership g x db ≡ some c
      → (x == y) ≡ false
      → (h u : ℕ)
      → find (is_pair h u) (update (keyed member_id c.id) (set_role member) promoted.members)
        ≡ Opt.map (flipped (h == g) x y) (find_membership h u db)
  swap_rows c e two h u =
      find-updated promoted promoted-IsTable g x c (found_promoted c e two) (set_role member)
        (λ h u m. refl) h u
      ∙ ap (Opt.map _) (find-updated db table g y t found (set_role owner) (λ h u m. refl) h u)
      ∙ elim (Option-cases (find_membership h u db)) [
        | inl k ↦ rw k refl
        | inr (m, k) ↦
            let row = find_membership-IsRowOf h u db m k in
            rw k (ap some (ground (arith, row.of_user, two)))
      ]

  pub hand_over_rows :
      (c : GroupMember)
      → find_membership g x db ≡ some c
      → (x == y) ≡ false
      → (h u : ℕ)
      → find (is_pair h u) (keep (unkeyed member_id c.id) promoted.members) ≡ (
          if (h == g) && (u == x)
          then none
          else Opt.map (flipped (h == g) x y) (find_membership h u db))
  hand_over_rows c e two h u =
      find-deleted promoted promoted-IsTable g x c (found_promoted c e two) h u
      ∙ elim (Bool-cases ((h == g) && (u == x))) [
        | inl k ↦ rw k refl
        | inr k ↦ rw k (
            find-updated db table g y t found (set_role owner) (λ h u m. refl) h u
            ∙ elim (Option-cases (find_membership h u db)) [
              | inl l ↦ rw l refl
              | inr (m, l) ↦
                  let row = find_membership-IsRowOf h u db m l in
                  rw l (ap some (ground (arith, row.of_user, two, k)))
            ])
      ]

-- The successor's row is the one that is found for its user.
pub found_successor :
    (g x : ℕ) (db : Db) (s : GroupMember)
    → IsTable db.members
    → find_successor g x db ≡ some s
    → (find_membership g s.user_id db ≡ some s) × ((x == s.user_id) ≡ false)
found_successor g x db s table e =
    let next = find_successor-IsSuccessor g x db s e in
    (
      find-only (is_pair g s.user_id) s db.members next.listed (ground (arith, next.in_group))
          (table.single g s.user_id),
      ground (arith, next.other),
    )
