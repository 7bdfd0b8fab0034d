-- ===== src/Groups/Ownership.antt =====
-- The invariant of groups.service.ts on owners and memberships, and the writes that act on it.
use internship_project.Base.{
  ℕ, ◌≡◌, refl, ◌∙◌, ◌≢◌, Bool, true, false, not, ◌&&◌, List, [], ◌∷◌, ◌++◌, arith, ◌==◌, ==_iff,
  ==_refl, keep, any, count, update, All, All-append, All-map, All-update, All-keep, All-keep_if,
  Has, All-Has, count-append, count-eq-zero, count-keep_same, count-update_at, count-keep_at,
  count-two, Distinct, Distinct-update, Distinct-keep, Distinct-snoc, Has-update_other, any-Has,
  any-absent, any-append, any-snoc, any-keep, keyed, unkeyed,
}
use internship_project.Schema.{owner, member, Group, GroupMember, is_owner_role}
use internship_project.Groups.{member_id, group_id_of, set_role}

-- The row of a group's owner.
abbrev pub owns : ℕ → GroupMember → Bool
owns group_id m = (m.group_id == group_id) && is_owner_role m.role

abbrev pub HasOneOwner : List GroupMember → Group → Type 0
HasOneOwner members g = count (owns g.id) members ≡ 1

abbrev pub HasGroup : List Group → GroupMember → Type 0
HasGroup groups m = any (keyed group_id_of m.group_id) groups ≡ true

pub record IsOwned (groups : List Group) (members : List GroupMember) : Type 0 where
  pub distinct : Distinct member_id members
  pub one_owner : All (HasOneOwner members) groups
  pub no_orphan : All (HasGroup groups) members

-- A role moves from one row of a group to another.
module _ (a b : GroupMember) (members : List GroupMember) (distinct : Distinct member_id members)
    (has_a : Has a members) (has_b : Has b members) (apart : a.id ≢ b.id)
    (same : b.group_id ≡ a.group_id) (owner_a : is_owner_role a.role ≡ true) where
  promoted : List GroupMember
  promoted = update (keyed member_id b.id) (set_role owner) members

  promoted-Distinct : Distinct member_id promoted
  unfolding promoted
  promoted-Distinct =
      Distinct-update member_id (keyed member_id b.id) (set_role owner) members (λ x. refl) distinct

  Has-a_promoted : Has a promoted
  unfolding promoted
  Has-a_promoted = Has-update_other member_id b.id (set_role owner) a members apart has_a

  pub count-hand_over :
      (g : ℕ)
      → count (owns g) members ≡ 1
      → count
          (owns g)
          (keep (unkeyed member_id a.id) (update (keyed member_id b.id) (set_role owner) members))
        ≡ 1
  unfolding promoted
  count-hand_over g one = ground (
    arith,
    count-update_at member_id (owns g) (set_role owner) b members distinct has_b,
    count-keep_at member_id (owns g) a promoted promoted-Distinct Has-a_promoted,
    count-two member_id (owns g) a b members apart has_a has_b,
  )

  pub count-swap :
      (g : ℕ)
      → count (owns g) members ≡ 1
      → count (owns g) (
          update
            (keyed member_id a.id)
            (set_role member)
            (update (keyed member_id b.id) (set_role owner) members))
        ≡ 1
  unfolding promoted
  count-swap g one = ground (
    arith,
    count-update_at member_id (owns g) (set_role owner) b members distinct has_b,
    count-update_at member_id (owns g) (set_role member) a promoted promoted-Distinct
        Has-a_promoted,
    count-two member_id (owns g) a b members apart has_a has_b,
  )

-- What each write does to the invariant, in terms of the two tables.
module _ (groups : List Group) (members : List GroupMember) (owned : IsOwned groups members) where
  pub one_owner_of : (g : ℕ) → any (keyed group_id_of g) groups ≡ true → count (owns g) members ≡ 1
  one_owner_of g e =
      let (x, listed, same) = any-Has (keyed group_id_of g) groups e in
      rw (← (==_iff x.id g).0 same) (All-Has (HasOneOwner members) x groups owned.one_owner listed)

  pub group_of :
      (m : GroupMember) → Has m members → any (keyed group_id_of m.group_id) groups ≡ true
  group_of m i = All-Has (HasGroup groups) m members owned.no_orphan i

  pub IsOwned-hand_over :
      (a b : GroupMember)
      → Has a members
      → Has b members
      → a.id ≢ b.id
      → b.group_id ≡ a.group_id
      → is_owner_role a.role ≡ true
      → IsOwned groups
          (keep (unkeyed member_id a.id) (update (keyed member_id b.id) (set_role owner) members))
  IsOwned-hand_over a b has_a has_b apart same owner_a = record {
    distinct =
        Distinct-keep member_id _ _
          (Distinct-update member_id _ (set_role owner) members (λ x. refl) owned.distinct);
    one_owner =
        All-map
          (λ g. count-hand_over a b members owned.distinct has_a has_b apart same owner_a g.id)
          groups owned.one_owner;
    no_orphan =
        All-keep (HasGroup groups) _ _
          (All-update (HasGroup groups) _ (set_role owner) members (λ x _ h. h) owned.no_orphan);
  }

  pub IsOwned-swap :
      (a b : GroupMember)
      → Has a members
      → Has b members
      → a.id ≢ b.id
      → b.group_id ≡ a.group_id
      → is_owner_role a.role ≡ true
      → IsOwned groups (
          update
            (keyed member_id a.id)
            (set_role member)
            (update (keyed member_id b.id) (set_role owner) members))
  IsOwned-swap a b has_a has_b apart same owner_a = record {
    distinct =
        Distinct-update member_id _ (set_role member) _ (λ x. refl)
          (Distinct-update member_id _ (set_role owner) members (λ x. refl) owned.distinct);
    one_owner =
        All-map (λ g. count-swap a b members owned.distinct has_a has_b apart same owner_a g.id)
          groups owned.one_owner;
    no_orphan =
        All-update (HasGroup groups) _ (set_role member) _ (λ x _ h. h)
          (All-update (HasGroup groups) _ (set_role owner) members (λ x _ h. h) owned.no_orphan);
  }

  -- A row that is no owner's goes.
  pub IsOwned-delete :
      (m : GroupMember)
      → Has m members
      → is_owner_role m.role ≡ false
      → IsOwned groups (keep (unkeyed member_id m.id) members)
  IsOwned-delete m i plain = record {
    distinct = Distinct-keep member_id _ members owned.distinct;
    one_owner =
        All-map
          (λ g one.
            ground
              (arith, one, plain, count-keep_at member_id (owns g.id) m members owned.distinct i))
          groups owned.one_owner;
    no_orphan = All-keep (HasGroup groups) _ members owned.no_orphan;
  }

  -- A row that is no owner's comes.
  pub IsOwned-insert :
      (m : GroupMember)
      → All (λ n. n.id ≢ m.id) members
      → is_owner_role m.role ≡ false
      → any (keyed group_id_of m.group_id) groups ≡ true
      → IsOwned groups (members ++ m ∷ [])
  IsOwned-insert m fresh plain known = record {
    distinct = Distinct-snoc member_id members m owned.distinct fresh;
    one_owner =
        All-map (λ g one. ground (arith, one, plain, count-append (owns g.id) members (m ∷ [])))
          groups owned.one_owner;
    no_orphan = All-append (HasGroup groups) members (m ∷ []) owned.no_orphan (known, tt);
  }

  -- A group goes, and its rows with it.
  pub IsOwned-delete_group :
      (g : ℕ)
      → IsOwned (keep (unkeyed group_id_of g) groups) (keep (λ m. not (m.group_id == g)) members)
  IsOwned-delete_group g = record {
    distinct = Distinct-keep member_id _ members owned.distinct;
    one_owner =
        All-keep_if _
          (λ h other one.
            count-keep_same (owns h.id) (λ m. not (m.group_id == g)) members
              (λ m gone. ground (arith, gone, other))
            ∙ one)
          groups owned.one_owner;
    no_orphan =
        All-keep_if _ (λ m other known. any-keep _ _ groups (λ h e. ground (arith, e, other)) known)
          members owned.no_orphan;
  }

  -- A row of a group comes with the group.
  pub IsOwned-create :
      (g : Group) (m : GroupMember)
      → All (λ n. n.id ≢ m.id) members
      → All (λ h. h.id ≢ g.id) groups
      → is_owner_role m.role ≡ true
      → m.group_id ≡ g.id
      → IsOwned (groups ++ g ∷ []) (members ++ m ∷ [])
  IsOwned-create g m fresh new owner_m same = record {
    distinct = Distinct-snoc member_id members m owned.distinct fresh;
    one_owner =
        All-append (HasOneOwner (members ++ m ∷ [])) groups (g ∷ [])
          (All-zip groups new owned.one_owner) (own, tt);
    no_orphan =
        All-append (HasGroup (groups ++ g ∷ [])) members (m ∷ [])
          (All-map (λ n. any-append _ groups (g ∷ [])) members owned.no_orphan)
          (any-snoc _ groups g (rw same (==_refl g.id)), tt);
  }
    where
      -- No row can name the new group.
      away : All (λ n. owns g.id n ≡ false) members
      away =
          All-map
            (λ n known. ground (
              arith,
              known,
              λ (e : n.group_id ≡ g.id). rw e at known,
              any-absent group_id_of g.id groups new,
            ))
            members owned.no_orphan

      own : count (owns g.id) (members ++ m ∷ []) ≡ 1
      own = ground (
        arith,
        count-append (owns g.id) members (m ∷ []),
        count-eq-zero (owns g.id) members away,
        same,
        owner_m,
      )

      All-zip :
          (gs : List Group)
          → All (λ h. h.id ≢ g.id) gs
          → All (HasOneOwner members) gs
          → All (HasOneOwner (members ++ m ∷ [])) gs
      All-zip [] a b = tt
      All-zip (h ∷ gs) (n, a) (one, b) =
          (ground (arith, n, one, same, count-append (owns h.id) members (m ∷ [])), All-zip gs a b)
