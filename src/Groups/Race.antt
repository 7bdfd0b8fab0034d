-- ===== src/Groups/Race.antt =====
-- transferOwnership() against itself. `$transaction` is called with no isolation level, so Postgres
-- takes its default, read committed: the statements of two transactions interleave.
use internship_project.Base.{
  ℕ, ◌≡◌, refl, sym, ap, ◌∙◌, ◌≢◌, true, not, arith, List, some, count, update, Has, Distinct,
  Distinct-update, Has-update_other, Has-update_at, count-update_at, count-two, keyed,
}
use internship_project.Http.{
  ok, or_throw, throw_if, >>=-eq-ok, or_throw-eq-ok, throw_if-eq-ok, ok-injective,
}
use internship_project.Schema.{owner, member, GroupMember, Db, is_owner_role}
use internship_project.Groups.{
  member_id, set_role, find_membership, transfer_reads, transfer_writes,
}
use internship_project.Groups.Ownership.{owns}
use internship_project.Groups.Leave.{IsRowOf, find_membership-IsRowOf, apart_rows}

-- What the reads of a transfer have established when they succeed.
pub record IsTransferOf (caller_id group_id target_id : ℕ) (db : Db) (c t : GroupMember)
    : Type 0 where
  pub from : IsRowOf group_id caller_id db c
  pub to : IsRowOf group_id target_id db t
  pub owned : is_owner_role c.role ≡ true

pub transfer_reads-IsTransferOf :
    (caller_id group_id target_id : ℕ) (db : Db) (c t : GroupMember)
    → transfer_reads caller_id group_id target_id db ≡ ok (c, t)
    → IsTransferOf caller_id group_id target_id db c t
unfolding transfer_reads
transfer_reads-IsTransferOf caller_id group_id target_id db c t h =
    let (x, e, h1) = >>=-eq-ok (or_throw (find_membership group_id caller_id db) _) _ h in
    let (u, own, h2) = >>=-eq-ok (throw_if (not (is_owner_role x.role)) _) _ h1 in
    let (y, f, h3) = >>=-eq-ok (or_throw (find_membership group_id target_id db) _) _ h2 in
    let both : (x, y) ≡ (c, t) = ok-injective h3 in
    let here : x ≡ c = ap (λ (p : GroupMember × GroupMember). p.0) both in
    let there : y ≡ t = ap (λ (p : GroupMember × GroupMember). p.1) both in
    record {
      from =
          find_membership-IsRowOf group_id caller_id db c
            (or_throw-eq-ok (find_membership group_id caller_id db) _ e ∙ ap some here);
      to =
          find_membership-IsRowOf group_id target_id db t
            (or_throw-eq-ok (find_membership group_id target_id db) _ f ∙ ap some there);
      owned = rw (← here) (ground (arith, throw_if-eq-ok (not (is_owner_role x.role)) _ own));
    }

module _ (c a b : GroupMember) (g : ℕ) (ms : List GroupMember) (distinct : Distinct member_id ms)
    (has_c : Has c ms) (has_a : Has a ms) (has_b : Has b ms) (ca : c.id ≢ a.id) (cb : c.id ≢ b.id)
    (ab : a.id ≢ b.id) where
  ms1 : List GroupMember
  ms1 = update (keyed member_id a.id) (set_role owner) ms

  ms2 : List GroupMember
  ms2 = update (keyed member_id c.id) (set_role member) ms1

  ms3 : List GroupMember
  ms3 = update (keyed member_id b.id) (set_role owner) ms2

  distinct1 : Distinct member_id ms1
  unfolding ms1
  distinct1 = Distinct-update member_id _ (set_role owner) ms (λ x. refl) distinct

  distinct2 : Distinct member_id ms2
  unfolding ms2
  distinct2 = Distinct-update member_id _ (set_role member) ms1 (λ x. refl) distinct1

  distinct3 : Distinct member_id ms3
  unfolding ms3
  distinct3 = Distinct-update member_id _ (set_role owner) ms2 (λ x. refl) distinct2

  c_in_1 : Has c ms1
  unfolding ms1
  c_in_1 = Has-update_other member_id a.id (set_role owner) c ms ca has_c

  c_in_3 : Has (set_role member c) ms3
  unfolding ms3 ms2
  c_in_3 =
      Has-update_other member_id b.id (set_role owner) (set_role member c) ms2 cb
        (Has-update_at member_id (set_role member) c ms1 c_in_1)

  b_in_2 : Has b ms2
  unfolding ms2 ms1
  b_in_2 =
      Has-update_other member_id c.id (set_role member) b ms1 (λ e. cb (sym e))
        (Has-update_other member_id a.id (set_role owner) b ms (λ e. ab (sym e)) has_b)

  count-interleaved :
      is_owner_role c.role ≡ true
      → c.group_id ≡ g
      → a.group_id ≡ g
      → b.group_id ≡ g
      → count (owns g) ms ≡ 1
      → count (owns g) (update (keyed member_id c.id) (set_role member) ms3) ≡ 2
  unfolding ms3 ms2 ms1
  count-interleaved own gc ga gb one = ground (
    arith,
    count-update_at member_id (owns g) (set_role owner) a ms distinct has_a,
    count-update_at member_id (owns g) (set_role member) c ms1 distinct1 c_in_1,
    count-update_at member_id (owns g) (set_role owner) b ms2 distinct2 b_in_2,
    count-update_at member_id (owns g) (set_role member) (set_role member c) ms3 distinct3 c_in_3,
    count-two member_id (owns g) c a ms ca has_c has_a,
    count-two member_id (owns g) c b ms cb has_c has_b,
  )

-- Two transfers by one owner, to two different other members, whose reads both come before the
-- writes of either: both commit, and the group is left with two owners.
pub transfer_interleaved :
    (caller_id group_id first_id second_id : ℕ) (db : Db) (c a b : GroupMember)
    → Distinct member_id db.members
    → count (owns group_id) db.members ≡ 1
    → first_id ≢ caller_id
    → second_id ≢ caller_id
    → first_id ≢ second_id
    → transfer_reads caller_id group_id first_id db ≡ ok (c, a)
    → transfer_reads caller_id group_id second_id db ≡ ok (c, b)
    → count (owns group_id) (transfer_writes (c, b) (transfer_writes (c, a) db)).members ≡ 2
unfolding transfer_writes ms3 ms2 ms1
transfer_interleaved caller_id group_id first_id second_id db c a b distinct one fc sc fs ra rb =
    let ta = transfer_reads-IsTransferOf caller_id group_id first_id db c a ra in
    let tb = transfer_reads-IsTransferOf caller_id group_id second_id db c b rb in
    count-interleaved c a b group_id db.members distinct ta.from.listed ta.to.listed tb.to.listed
      (apart_rows a distinct ta.from ta.to.listed (λ e. fc (sym ta.to.of_user ∙ e)))
      (apart_rows b distinct ta.from tb.to.listed (λ e. sc (sym tb.to.of_user ∙ e)))
      (apart_rows b distinct ta.to tb.to.listed (λ e. fs (sym e ∙ tb.to.of_user))) ta.owned
      ta.from.in_group ta.to.in_group tb.to.in_group one
