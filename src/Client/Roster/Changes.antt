-- ===== src/Client/Roster/Changes.antt =====
-- What the socket's handlers do to a loaded member list, against the rows of the group.
use internship_project.Base.{
  ℕ, ◌≡◌, refl, sym, ap, ◌∙◌, inl, inr, true, false, not, arith, List, [], ◌∷◌, ◌++◌, map, Option,
  none, some, ◌==◌, ==_iff, ==_refl, if◌then◌else◌, Bool-cases, any, find, any-eq-count,
  find-eq-none, Distinct-snoc, Distinct-keep, Distinct-map, absent_of_count, keyed, find-snoc,
  find-map, find-keep_same, find-eq-none_of_count, count-keep-not,
}
use mathlib.Core.Option as Opt
use internship_project.Schema.{Group, GroupMember}
use internship_project.Groups.{is_pair, group_id_of}
use internship_project.Client.{add_member, drop_member, on_members}
use internship_project.Client.Roster.{user_of, IsRosterOf, Mirrors}

module _ (g : ℕ) (members : List GroupMember) where
  pub IsRosterOf-add :
      (m : GroupMember) (roster : List GroupMember)
      → m.group_id ≡ g
      → find (is_pair g m.user_id) members ≡ none
      → IsRosterOf g members roster
      → IsRosterOf g (members ++ m ∷ []) (add_member m roster)
  IsRosterOf-add m roster own new (d, same) =
      let zero_rows = find-eq-none (keyed user_of m.user_id) roster (same m.user_id ∙ new) in
      let absent : any (λ n. n.user_id == m.user_id) roster ≡ false =
        ground (arith, zero_rows, any-eq-count (keyed user_of m.user_id) roster) in
      rw absent (
        Distinct-snoc user_of roster m d
            (absent_of_count user_of m.user_id roster (omega (arith, zero_rows))),
        λ u.
            find-snoc (keyed user_of u) roster m
            ∙ rw (find-snoc (is_pair g u) members m, same u, own, ==_refl g) refl,
      )

  pub IsRosterOf-drop :
      (x : ℕ) (members' roster : List GroupMember)
      → ((u : ℕ)
          → find (is_pair g u) members' ≡ (if u == x then none else find (is_pair g u) members))
      → IsRosterOf g members roster
      → IsRosterOf g members' (drop_member x roster)
  IsRosterOf-drop x members' roster rows (d, same) = (
    Distinct-keep user_of _ roster d,
    λ u. elim (Bool-cases (u == x)) [
      | inl e ↦
          let same_user : u ≡ x = (==_iff u x).0 e in
          rw (rows u, e)
            (rw same_user (
              find-eq-none_of_count (keyed user_of x) _
                (omega (arith, count-keep-not (keyed user_of x) roster))))
      | inr e ↦
          find-keep_same (keyed user_of u) (λ m. not (m.user_id == x)) roster
            (λ m t. ground (arith, t, e))
          ∙ same u
          ∙ rw (rows u, e) refl
    ],
  )

  -- A function that is applied to each row of the list, where the table does the same to the rows of
  -- the group.
  pub IsRosterOf-map :
      (f : GroupMember → GroupMember) (members' roster : List GroupMember)
      → ((m : GroupMember) → (f m).user_id ≡ m.user_id)
      → ((u : ℕ) → find (is_pair g u) members' ≡ Opt.map f (find (is_pair g u) members))
      → IsRosterOf g members roster
      → IsRosterOf g members' (map f roster)
  IsRosterOf-map f members' roster keeps rows (d, same) = (
    Distinct-map user_of f roster keeps d,
    λ u.
        find-map (keyed user_of u) f roster (λ m. rw (keeps m) refl)
        ∙ ap (Opt.map f) (same u)
        ∙ sym (rows u),
  )

-- The list of a cache, after a change of the tables that it takes part in, and after one that it need
-- not take part in.
module _ (g : ℕ) (groups groups' : List Group) (members members' : List GroupMember)
    (old : any (keyed group_id_of g) groups' ≡ true → any (keyed group_id_of g) groups ≡ true) where
  pub Mirrors-here :
      (f : List GroupMember → List GroupMember)
      → (any (keyed group_id_of g) groups' ≡ true
          → (roster : List GroupMember) → IsRosterOf g members roster
          → IsRosterOf g members' (f roster))
      → (o : Option (List GroupMember)) → Mirrors g groups members o
      → Mirrors g groups' members' (on_members f o)
  Mirrors-here f change none m = tt
  Mirrors-here f change (some roster) m = λ e. change e roster (m (old e))

  pub Mirrors-elsewhere :
      ((u : ℕ) → find (is_pair g u) members' ≡ find (is_pair g u) members)
      → (o : Option (List GroupMember)) → Mirrors g groups members o
      → Mirrors g groups' members' o
  Mirrors-elsewhere rows none m = tt
  Mirrors-elsewhere rows (some roster) m =
      λ e. let (d, same) = m (old e) in (d, λ u. same u ∙ sym (rows u))
