-- ===== src/Reactions/Concurrent.antt =====
-- Two calls of toggle() whose statements interleave in any way.
use internship_project.Base.{
  ℕ, ◌≡◌, refl, inl, inr, true, not, arith, Bool-cases, ◌==◌, if◌then◌else◌, any, any-eq-count,
  count-keep-le, count-ext, subst, sym,
}
use internship_project.Http.{Result, ok, err, Exception}
use internship_project.Schema.{Db}
use internship_project.Reactions.{Tap, is_tap, delete_reaction, removed, new_reaction, add_reaction}
use internship_project.Reactions.Toggle.{IsUnique, count-insert, is_tap-equal}

-- How far a call has come; `failed` is an exception that leaves the method.
pub data Phase : Type 0 where
  before_delete : Phase
  before_insert : Phase
  settled : Phase
  failed : Exception → Phase

pub record Race : Type 0 where
  pub db : Db
  pub first : Phase
  pub second : Phase

abbrev written : Db → Result Db → Db × Phase
written db (ok db') = (db', settled)
written db (err e) = (db, failed e)

-- One write of a call, with the id that it would insert under.
unfoldable pub advance : ℕ → Tap → Db → Phase → Db × Phase
unfolding add_reaction
advance id t db before_delete =
    (delete_reaction t db, if removed t db == 0 then before_insert else settled)
advance id t db before_insert = written db (add_reaction id t db)
advance id t db settled = (db, settled)
advance id t db (failed e) = (db, failed e)

-- Either call may take the next step.
pub data Step (t s : Tap) : Race → Race → Type 0 where
  first_steps :
      (id : ℕ) {r q : Race}
      → (q.db, q.first) ≡ advance id t r.db r.first
      → q.second ≡ r.second
      → Step t s r q
  second_steps :
      (id : ℕ) {r q : Race}
      → (q.db, q.second) ≡ advance id s r.db r.second
      → q.first ≡ r.first
      → Step t s r q

pub data Reaches (t s : Tap) (start : Race) : Race → Type 0 where
  here : Reaches t s start start
  later : {r q : Race} → Reaches t s start r → Step t s r q → Reaches t s start q

-- The message and the user that a tap names exist.
pub record IsKnown (t : Tap) (db : Db) : Type 0 where
  pub message : any (λ m. m.id == t.message_id) db.messages ≡ true
  pub user : any (λ u. u.id == t.user_id) db.users ≡ true

abbrev pub HasNotFailed : Phase → Type 0
HasNotFailed (failed e) = ⊥
HasNotFailed before_delete = Unit
HasNotFailed before_insert = Unit
HasNotFailed settled = Unit

pub record IsSound (t s : Tap) (r : Race) : Type 0 where
  pub unique : IsUnique r.db
  pub first_known : IsKnown t r.db
  pub second_known : IsKnown s r.db
  pub first_alive : HasNotFailed r.first
  pub second_alive : HasNotFailed r.second

-- What one write keeps.
record Keeps (t : Tap) (db : Db) (after : Db × Phase) : Type 0 where
  unique : IsUnique after.0
  alive : HasNotFailed after.1
  messages : after.0.messages ≡ db.messages
  users : after.0.users ≡ db.users

add_reaction-Keeps :
    (id : ℕ) (t : Tap) (db : Db)
    → IsUnique db
    → IsKnown t db
    → Keeps t db (written db (add_reaction id t db))
unfolding add_reaction
add_reaction-Keeps id t db u k = elim (Bool-cases (any (is_tap t) db.reactions)) [
  | inl e ↦ rw e (record { unique = u; alive = tt; messages = refl; users = refl })
  | inr e ↦
      rw (e, k.message, k.user)
        (record {
          unique = λ s. elim (Bool-cases (is_tap s (new_reaction 0 t))) [
            | inl h ↦ ground (
              arith,
              h,
              e,
              count-insert id t s db,
              any-eq-count (is_tap t) db.reactions,
              count-ext (is_tap s) (is_tap t) db.reactions (is_tap-equal t s h),
            )
            | inr h ↦ ground (arith, h, u s, count-insert id t s db)
          ];
          alive = tt;
          messages = refl;
          users = refl;
        })
]

advance-Keeps :
    (id : ℕ) (t : Tap) (db : Db) (p : Phase)
    → IsUnique db
    → IsKnown t db
    → HasNotFailed p
    → Keeps t db (advance id t db p)
unfolding advance
advance-Keeps id t db before_delete u k a = record {
  unique = λ s. omega (arith, u s, count-keep-le (is_tap s) (λ r. not (is_tap t r)) db.reactions);
  alive = elim (Bool-cases (removed t db == 0)) [ inl e ↦ rw e tt | inr e ↦ rw e tt ];
  messages = refl;
  users = refl;
}
advance-Keeps id t db before_insert u k a = add_reaction-Keeps id t db u k
advance-Keeps id t db settled u k a = record {
  unique = u;
  alive = tt;
  messages = refl;
  users = refl;
}
advance-Keeps id t db (failed e) u k a = absurd a

IsKnown-subst :
    (t : Tap) (db db' : Db)
    → db'.messages ≡ db.messages
    → db'.users ≡ db.users
    → IsKnown t db
    → IsKnown t db'
IsKnown-subst t db db' m u k = record { message = rw m k.message; user = rw u k.user }

Step-IsSound : (t s : Tap) {r q : Race} → Step t s r q → IsSound t s r → IsSound t s q
Step-IsSound t s (first_steps id {r} {q} e same) h =
    let k =
      subst (Keeps t r.db) (sym e)
        (advance-Keeps id t r.db r.first h.unique h.first_known h.first_alive) in
    record {
      unique = k.unique;
      first_known = IsKnown-subst t r.db q.db k.messages k.users h.first_known;
      second_known = IsKnown-subst s r.db q.db k.messages k.users h.second_known;
      first_alive = k.alive;
      second_alive = subst HasNotFailed (sym same) h.second_alive;
    }
Step-IsSound t s (second_steps id {r} {q} e same) h =
    let k =
      subst (Keeps s r.db) (sym e)
        (advance-Keeps id s r.db r.second h.unique h.second_known h.second_alive) in
    record {
      unique = k.unique;
      first_known = IsKnown-subst t r.db q.db k.messages k.users h.first_known;
      second_known = IsKnown-subst s r.db q.db k.messages k.users h.second_known;
      first_alive = subst HasNotFailed (sym same) h.first_alive;
      second_alive = k.alive;
    }

-- However the writes of two toggles interleave, of the same reaction or of two, no reaction is ever
-- stored twice and neither call ends in an exception, if the messages and users that they name
-- exist and no reaction stood twice before.
pub Reaches-IsSound :
    (t s : Tap) {start end : Race} → IsSound t s start → Reaches t s start end → IsSound t s end
Reaches-IsSound t s h here = h
Reaches-IsSound t s h (later r st) = Step-IsSound t s st (Reaches-IsSound t s h r)
