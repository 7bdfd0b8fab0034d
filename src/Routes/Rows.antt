-- ===== src/Routes/Rows.antt =====
-- Every route of the controllers: what becomes of the members and the reactions of a group that the
-- caller is not in.
use internship_project.Base.{
  keep-snoc_away, keep-snoc_in, ℕ, ◌≡◌, refl, sym, ap, ◌∙◌, ◌≢◌, ◌⊎◌, inl, inr, [], ◌∷◌, ◌++◌, none,
  Bool-cases, ◌==◌, ==_iff, keep,
}
use internship_project.Http.{Result, ok, err}
use internship_project.Schema.{member, GroupMember, Message, Db}
use internship_project.Events.{RequestId, Outcome}
use internship_project.Bodies.{parse_uuid}
use internship_project.Groups
use internship_project.Groups.{find_membership, assert_member, member_id, new_member}
use internship_project.Groups.Effects.{join-effect}
use internship_project.Groups.Apart.{
  is_member_in, is_reaction_in, SameMembers, SameReactions, join-reactions,
}
use internship_project.Messages.{and_then}
use internship_project.Messages.Effects.{IsBeside}
use internship_project.Reactions.Apart.{IsElsewhere}
use internship_project.Routes
use internship_project.Routes.Spares.{parse_uuid-value, behind_guard}

-- No reaction in a reply is to a message of the group.
abbrev pub HidesReactions : (group_id : ℕ) → Db → Result Routes.Reply → Type 0
HidesReactions g db (err x) = Unit {0}
HidesReactions g db (ok (Routes.group x)) = Unit {0}
HidesReactions g db (ok (Routes.groups ls)) = Unit {0}
HidesReactions g db (ok (Routes.detail d)) = Unit {0}
HidesReactions g db (ok (Routes.read_at t)) = Unit {0}
HidesReactions g db (ok (Routes.left o)) = Unit {0}
HidesReactions g db (ok (Routes.moved p)) = Unit {0}
HidesReactions g db (ok (Routes.message m)) = Unit {0}
HidesReactions g db (ok (Routes.page pg)) = Unit {0}
HidesReactions g db (ok (Routes.hits ms)) = Unit {0}
HidesReactions g db (ok (Routes.reactions rs)) = IsElsewhere g db (ok rs)

pub record KeepsRows (group_id : ℕ) (db : Db) (o : Outcome Routes.Reply) : Type 0 where
  pub members : SameMembers group_id db o.db
  pub reactions : SameReactions group_id db o.db
  pub hidden : HidesReactions group_id db o.result

-- A join of the group, which adds one row, of the caller and with the role MEMBER.
pub record JoinsGroup (group_id user_id : ℕ) (route : Routes.Route) (db db' : Db) : Type 0 where
  pub target : RequestId
  pub is_join : route ≡ Routes.join_group target
  pub into : target.value ≡ group_id
  pub row : GroupMember
  pub of_user : row.user_id ≡ user_id
  pub plain : row.role ≡ member
  pub added :
      keep (is_member_in group_id) db'.members ≡ keep (is_member_in group_id) db.members ++ row ∷ []
  pub reactions : SameReactions group_id db db'

module _ (g : ℕ) (db : Db) where
  pub KeepsRows-and_then :
      {A : Type 0} (r : Result A) (f : A → Outcome Routes.Reply)
      → ((a : A) → r ≡ ok a → KeepsRows g db (f a))
      → KeepsRows g db (and_then db r f)
  KeepsRows-and_then (err x) f h = record { members = refl; reactions = refl; hidden = tt }
  KeepsRows-and_then (ok a) f h = h a refl

  pub KeepsRows-replied :
      {A : Type 0} (f : A → Routes.Reply) (o : Outcome A)
      → SameMembers g db o.db
      → SameReactions g db o.db
      → ((a : A) → HidesReactions g db (ok (f a)))
      → KeepsRows g db (Routes.replied f o)
  KeepsRows-replied {A} f o m r h = record { members = m; reactions = r; hidden = hides o.result }
    where
      hides : (x : Result A) → HidesReactions g db (Routes.reply_with f x)
      hides (ok a) = h a
      hides (err x) = tt

  pub KeepsRows-beside :
      (o : Outcome Message) → IsBeside db o.db → KeepsRows g db (Routes.replied Routes.message o)
  KeepsRows-beside o b =
      KeepsRows-replied Routes.message o (ap (keep (is_member_in g)) b.members)
        (ap (keep (is_reaction_in g db)) b.reactions) (λ m. tt)

  pub KeepsRows-reads :
      {A : Type 0} (f : A → Routes.Reply) (r : Result A)
      → ((a : A) → HidesReactions g db (ok (f a)))
      → KeepsRows g db (Routes.reads db f r)
  KeepsRows-reads f (ok a) h = record { members = refl; reactions = refl; hidden = h a }
  KeepsRows-reads f (err x) h = record { members = refl; reactions = refl; hidden = tt }

module _ (e : Routes.Env) (g user_id : ℕ) (db : Db)
    (outside : find_membership g user_id db ≡ none) where
  pub guarded :
      (at : RequestId) (o : Outcome Routes.Reply)
      → (at.value ≢ g → KeepsRows g db o)
      → KeepsRows g db (Routes.member_only user_id at db o)
  guarded at o h =
      behind_guard g db (KeepsRows g db)
        (λ x. record { members = refl; reactions = refl; hidden = tt }) user_id at o outside h

  pub behind :
      {A : Type 0} (at : RequestId) (r : Result A) (f : A → Outcome Routes.Reply)
      → (at.value ≢ g → (a : A) → r ≡ ok a → KeepsRows g db (f a))
      → KeepsRows g db (Routes.member_only user_id at db (and_then db r f))
  behind at r f h = guarded at (and_then db r f) (λ away. KeepsRows-and_then g db r f (h away))

  pub reads_behind :
      {A : Type 0} (at : RequestId) (f : A → Routes.Reply) (r : Result A)
      → ((a : A) → HidesReactions g db (ok (f a)))
      → KeepsRows g db (Routes.member_only user_id at db (Routes.reads db f r))
  reads_behind at f r h = guarded at (Routes.reads db f r) (λ away. KeepsRows-reads g db f r h)

  -- A parsed id is the one of the path.
  pub elsewhere : (at a : RequestId) → parse_uuid at ≡ ok a → at.value ≢ g → a.value ≢ g
  elsewhere at a h away k = away (sym (parse_uuid-value at a h) ∙ k)

  pub joins :
      (at : RequestId)
      → KeepsRows g db (Routes.handle_as e user_id (Routes.join_group at) db)
        ⊎ JoinsGroup g user_id
            (Routes.join_group at)
            db
            (Routes.handle_as e user_id (Routes.join_group at) db).db
  unfolding Routes.handle_as
  joins at = of_parsed (parse_uuid at) (parse_uuid-value at)
    where
      of_parsed :
          (r : Result RequestId)
          → ((a : RequestId) → r ≡ ok a → a.value ≡ at.value)
          → KeepsRows g db (
              and_then db r
                (λ a. Routes.replied Routes.group (Groups.join e.id e.now user_id a db)))
            ⊎ JoinsGroup g user_id
                (Routes.join_group at)
                db
                (and_then db r
                  (λ a. Routes.replied Routes.group (Groups.join e.id e.now user_id a db))).db
      of_parsed (err x) same = inl (record { members = refl; reactions = refl; hidden = tt })
      of_parsed (ok a) same =
          let reactions =
            ap (keep (is_reaction_in g db)) (join-reactions e.id e.now user_id a db) in
          let row = new_member e.id a.value user_id member e.now in
          elim (join-effect e.id e.now user_id a db) [
            | inl i ↦ inl (
                KeepsRows-replied g db Routes.group (Groups.join e.id e.now user_id a db)
                  (ap (λ (d : Db). keep (is_member_in g) d.members) i.kept) reactions (λ x. tt))
            | inr (_, l) ↦ elim (Bool-cases (a.value == g)) [
              | inr away ↦ inl (
                  KeepsRows-replied g db Routes.group (Groups.join e.id e.now user_id a db)
                    (ap (keep (is_member_in g)) l.members_are
                      ∙ keep-snoc_away (is_member_in g) db.members row away)
                    reactions (λ x. tt))
              | inl here ↦ inr (record {
                target = at;
                is_join = refl;
                into = sym (same a refl) ∙ (==_iff a.value g).0 here;
                row = row;
                of_user = refl;
                plain = refl;
                added =
                    ap (keep (is_member_in g)) l.members_are
                    ∙ keep-snoc_in (is_member_in g) db.members row here;
                reactions = reactions;
              })
            ]
          ]
