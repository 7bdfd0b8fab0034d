-- ===== src/Client/Roster/Rows.antt =====
-- The rows of the members of all groups: what stays unique under a write, and which row of a user and
-- a group is found after it.
use internship_project.Base.{
  ℕ, ◌≡◌, refl, sym, ap, ◌∙◌, ◌≢◌, inl, inr, Bool, true, false, ◌&&◌, arith, List, [], ◌∷◌, ◌++◌,
  none, some, ◌==◌, ==_iff, if◌then◌else◌, Bool-cases, Option-cases, any, find, keep, update, count,
  count-append, any-eq-count, count-update_same, count-keep-le, count-keep_at, All, Distinct-snoc,
  Distinct-keep, Distinct-update, keyed, unkeyed, eq_of_key, find-update-map, find-keep,
  find-keep-none, find-eq-none_of_count,
}
use mathlib.Core.Option as Opt
use internship_project.Schema.{GroupMember, Db}
use internship_project.Groups.{is_pair, member_id, find_membership}
use internship_project.Groups.Leave.{find_membership-IsRowOf}
use internship_project.Client.Roster.{IsTable}

pub IsTable-insert :
    (members : List GroupMember) (m : GroupMember)
    → IsTable members
    → All (λ n. n.id ≢ m.id) members
    → any (is_pair m.group_id m.user_id) members ≡ false
    → IsTable (members ++ m ∷ [])
IsTable-insert members m t fresh new = record {
  distinct = Distinct-snoc member_id members m t.distinct fresh;
  single = λ g u.
      rw (count-append (is_pair g u) members (m ∷ [])) (elim (Bool-cases (is_pair g u m)) [
        | inr e ↦ rw e (omega (arith, t.single g u))
        | inl e ↦
            let g' : m.group_id ≡ g = ground (arith, e) in
            let u' : m.user_id ≡ u = ground (arith, e) in
            let zero_rows : count (is_pair g u) members ≡ 0 =
              rw (← g', ← u')
                (ground (arith, new, any-eq-count (is_pair m.group_id m.user_id) members)) in
            rw e (omega (arith, zero_rows))
      ]);
}

pub IsTable-update :
    (q : GroupMember → Bool) (f : GroupMember → GroupMember) (members : List GroupMember)
    → ((m : GroupMember) → (f m).id ≡ m.id)
    → ((g u : ℕ) (m : GroupMember) → is_pair g u (f m) ≡ is_pair g u m)
    → IsTable members
    → IsTable (update q f members)
IsTable-update q f members same_id same_pair t = record {
  distinct = Distinct-update member_id q f members same_id t.distinct;
  single = λ g u.
      rw (count-update_same (is_pair g u) q f members (λ m _. same_pair g u m)) (t.single g u);
}

pub IsTable-keep :
    (q : GroupMember → Bool) (members : List GroupMember)
    → IsTable members
    → IsTable (keep q members)
IsTable-keep q members t = record {
  distinct = Distinct-keep member_id q members t.distinct;
  single = λ g u. omega (arith, t.single g u, count-keep-le (is_pair g u) q members);
}

module _ (db : Db) (table : IsTable db.members) (g x : ℕ) (t : GroupMember)
    (found : find_membership g x db ≡ some t) where
  -- A row that is found is the row of `t` exactly when it is that of the same user and group.
  pub same_row :
      (h u : ℕ) (m : GroupMember)
      → find_membership h u db ≡ some m
      → (m.id == t.id) ≡ ((h == g) && (u == x))
  same_row h u m e =
      let row = find_membership-IsRowOf h u db m e in
      let own = find_membership-IsRowOf g x db t found in
      elim (Bool-cases (m.id == t.id)) [
        | inl f ↦
            let same =
              eq_of_key member_id m t db.members table.distinct row.listed own.listed
                ((==_iff _ _).0 f) in
            let g' : h ≡ g =
              sym row.in_group ∙ ap (λ (m : GroupMember). m.group_id) same ∙ own.in_group in
            let u' : u ≡ x =
              sym row.of_user ∙ ap (λ (m : GroupMember). m.user_id) same ∙ own.of_user in
            ground (arith, f, g', u')
        | inr f ↦ elim (Bool-cases ((h == g) && (u == x))) [
          | inr k ↦ rw (f, k) refl
          | inl k ↦
              let g' : h ≡ g = ground (arith, k) in
              let u' : u ≡ x = ground (arith, k) in
              let same : m ≡ t = Opt.some-injective _ _ (sym (rw (g', u') at e) ∙ found) in
              absurd (ground (arith, f, ap member_id same))
        ]
      ]

  -- The row that is found after a write to the row of `t`, and after its deletion.
  pub find-updated :
      (f : GroupMember → GroupMember)
      → ((h u : ℕ) (m : GroupMember) → is_pair h u (f m) ≡ is_pair h u m)
      → (h u : ℕ)
      → find (is_pair h u) (update (keyed member_id t.id) f db.members)
        ≡ Opt.map (λ m. if (h == g) && (u == x) then f m else m) (find_membership h u db)
  find-updated f same h u =
      find-update-map (is_pair h u) (keyed member_id t.id) f db.members (same h u)
      ∙ elim (Option-cases (find_membership h u db)) [
        | inl e ↦ rw e refl
        | inr (m, e) ↦ rw (e, same_row h u m e) refl
      ]

  pub find-deleted :
      (h u : ℕ)
      → find (is_pair h u) (keep (unkeyed member_id t.id) db.members)
        ≡ (if (h == g) && (u == x) then none else find_membership h u db)
  find-deleted h u = elim (Option-cases (find_membership h u db)) [
    | inl e ↦
        rw (e, find-keep-none (is_pair h u) (unkeyed member_id t.id) db.members e)
          (elim (Bool-cases ((h == g) && (u == x))) [ inl k ↦ rw k refl | inr k ↦ rw k refl ])
    | inr (m, e) ↦ elim (Bool-cases ((h == g) && (u == x))) [
      | inr k ↦
          rw (e, k)
            (find-keep (is_pair h u) (unkeyed member_id t.id) db.members m e
              (ground (arith, k, same_row h u m e)))
      | inl k ↦
          let own = find_membership-IsRowOf g x db t found in
          let g' : h ≡ g = ground (arith, k) in
          let u' : u ≡ x = ground (arith, k) in
          let mine : is_pair h u t ≡ true = ground (arith, own.in_group, own.of_user, g', u') in
          let left = count-keep_at member_id (is_pair h u) t db.members table.distinct own.listed in
          rw k (
            find-eq-none_of_count (is_pair h u) _
              (omega (arith, table.single h u, rw mine at left)))
    ]
  ]
