-- ===== src/Tokens/Sessions.antt =====
-- Sequences of logins, refreshes, logouts and purges.
use internship_project.Base.{
  ℕ, ◌+◌, ◌<◌, ◌≡◌, ap, ◌≢◌, inl, inr, true, [], ◌∷◌, Option, none, some, Option-cases, ◌==◌,
  is_some, find, All, All-append, All-keep, All-Has, Has-find,
}
use internship_project.Http.{err}
use internship_project.Schema.{User, RefreshToken, Db}
use internship_project.Tokens.{
  Draw, is_live_in, has_hash, new_token, issue_for_new_session, is_claimable, claim, reuse, rotate,
  revoke_by_token, purge_expired,
}
use internship_project.Tokens.Family.{
  IsSound, insert_token_cases, claim_cases, check_token-fresh, rotate_elim, rotate-IsSound,
  revoke_by_token-IsSound, issue-IsSound, purge-IsSound, IsFreshToken,
}
use internship_project.Tokens.Rotation.{IsDead, IsDead-revoke, IsDead-revoke_family, rotate_revoked}

-- A request to the token service, or a run of the purge.
pub data Call : Type 0 where
  issues : (now family_id : ℕ) → Draw → User → Call
  rotates : (now : ℕ) → Draw → (raw : ℕ) → Call
  logs_out : (now raw : ℕ) → Call
  purges : (grace now : ℕ) → Call

module _ (hash : ℕ → ℕ) (ttl : ℕ) where
  abbrev pub after : Call → Db → Db
  after (issues now family_id draw user) db =
      (issue_for_new_session hash ttl now family_id draw user db).0
  after (rotates now draw raw) db = (rotate hash ttl now draw raw db).0
  after (logs_out now raw) db = revoke_by_token hash now raw db
  after (purges grace now) db = (purge_expired grace now db).0

  -- The random ids that a call draws are new to the table.
  abbrev pub IsFresh : Call → Db → Type 0
  IsFresh (issues now family_id draw user) db =
      IsFreshToken draw.id db.tokens × All (λ r. r.family_id ≢ family_id) db.tokens
  IsFresh (rotates now draw raw) db = IsFreshToken draw.id db.tokens
  IsFresh (logs_out now raw) db = Unit
  IsFresh (purges grace now) db = Unit

  -- The states that a sequence of calls of a kind leads to.
  pub data Reaches (kind : Call → Type 0) (start : Db) : Db → Type 0 where
    here : Reaches kind start start
    next :
        {db : Db}
        → Reaches kind start db
        → (c : Call) → kind c
        → IsFresh c db
        → Reaches kind start (after c db)

  after-IsSound :
      (c : Call) (db : Db) → IsFresh c db → IsSound db.tokens → IsSound (after c db).tokens
  after-IsSound (issues now family_id draw user) db f h =
      issue-IsSound hash ttl now family_id draw user db f.0 f.1 h
  after-IsSound (rotates now draw raw) db f h = rotate-IsSound hash ttl now draw raw db f h
  after-IsSound (logs_out now raw) db f h = revoke_by_token-IsSound hash now raw db h
  after-IsSound (purges grace now) db f h = purge-IsSound hash grace now db h

  -- From a token table with distinct ids in which no rotation family has two live tokens, every
  -- sequence of logins, refreshes, logouts and purges with fresh random ids leads to such a table.
  pub session-IsSound :
      {kind : Call → Type 0} {start db : Db}
      → IsSound start.tokens
      → Reaches kind start db
      → IsSound db.tokens
  session-IsSound h here = h
  session-IsSound h (next {db} r c k f) = after-IsSound c db f (session-IsSound h r)

  -- No new session takes the family's id.
  abbrev pub Avoids : ℕ → Call → Type 0
  Avoids g (issues now family_id draw user) = family_id ≢ g
  Avoids g (rotates now draw raw) = Unit
  Avoids g (logs_out now raw) = Unit
  Avoids g (purges grace now) = Unit

  issue-IsDead :
      (g now family_id : ℕ) (draw : Draw) (user : User) (db : Db)
      → family_id ≢ g
      → IsDead g db
      → IsDead g (issue_for_new_session hash ttl now family_id draw user db).0
  unfolding issue_for_new_session
  issue-IsDead g now family_id draw user db other d =
      let r = new_token hash draw user.id family_id (now + ttl) in
      elim (insert_token_cases hash r db) [
        | inl (x, e) ↦ rw e d
        | inr e ↦ rw e (
            All-append (λ s. s.family_id ≡ g → is_some s.revoked_at ≡ true) db.tokens (r ∷ []) d
              ((λ same. absurd (other same)), tt))
      ]

  rotate-IsDead :
      (g now : ℕ) (draw : Draw) (raw : ℕ) (db : Db)
      → IsDead g db
      → IsDead g (rotate hash ttl now draw raw db).0
  rotate-IsDead g now draw raw db d =
      rotate_elim hash (IsDead g) ttl now draw raw db d
        (λ f x k. IsDead-revoke g (is_live_in f) now x k)
        (λ e user fresh_e. claimed e user (check_token-fresh hash now raw db e user fresh_e))
    where
      claimed :
          (e : RefreshToken) (user : User)
          → (find (has_hash hash raw) db.tokens ≡ some e)
            × (e.revoked_at ≡ none)
            × (now < e.expires_at)
            × (find (λ u. u.id == e.user_id) db.users ≡ some user)
          → IsDead g (claim hash ttl now draw e user db).0
      claimed e user facts =
          let other : e.family_id ≢ g = λ same. cc (
            All-Has (λ s. s.family_id ≡ g → is_some s.revoked_at ≡ true) e db.tokens d
                (Has-find (has_hash hash raw) db.tokens e facts.0) same,
            ap (λ (o : Option ℕ). is_some o) facts.1,
          ) in
          elim (claim_cases hash ttl now draw e user db) [
            | inl (c, _) ↦ rw c d
            | inr (inl (x, c)) ↦ rw c d
            | inr (inr (c, _)) ↦ rw c (
                All-append (λ s. s.family_id ≡ g → is_some s.revoked_at ≡ true) _ _
                  (IsDead-revoke g (is_claimable e) now db d) ((λ same. absurd (other same)), tt))
          ]

  logout-IsDead :
      (g now raw : ℕ) (db : Db) → IsDead g db → IsDead g (revoke_by_token hash now raw db)
  unfolding revoke_by_token
  logout-IsDead g now raw db d = elim (Option-cases (find (has_hash hash raw) db.tokens)) [
    | inl e ↦ rw e d
    | inr (r, e) ↦ rw e (IsDead-revoke g (is_live_in r.family_id) now db d)
  ]

  purge-IsDead : (g grace now : ℕ) (db : Db) → IsDead g db → IsDead g (purge_expired grace now db).0
  unfolding purge_expired
  purge-IsDead g grace now db d =
      All-keep (λ s. s.family_id ≡ g → is_some s.revoked_at ≡ true) _ db.tokens d

  after-IsDead : (g : ℕ) (c : Call) (db : Db) → Avoids g c → IsDead g db → IsDead g (after c db)
  after-IsDead g (issues now family_id draw user) db k d =
      issue-IsDead g now family_id draw user db k d
  after-IsDead g (rotates now draw raw) db k d = rotate-IsDead g now draw raw db d
  after-IsDead g (logs_out now raw) db k d = logout-IsDead g now raw db d
  after-IsDead g (purges grace now) db k d = purge-IsDead g grace now db d

  Reaches-IsDead :
      (g : ℕ) {start db : Db} → IsDead g start → Reaches (Avoids g) start db → IsDead g db
  Reaches-IsDead g d here = d
  Reaches-IsDead g d (next {db} r c k f) = after-IsDead g c db k (Reaches-IsDead g d r)

  logout_kills :
      (now raw : ℕ) (db : Db) (r : RefreshToken)
      → find (has_hash hash raw) db.tokens ≡ some r
      → IsDead r.family_id (revoke_by_token hash now raw db)
  unfolding revoke_by_token
  logout_kills now raw db r e = rw e (IsDead-revoke_family r.family_id now db)

  -- A logout ends the session for good: after any later sequence of logins under other families,
  -- refreshes, logouts and purges, no token of the family that is then still stored can be rotated,
  -- and an attempt is answered as a reuse.
  pub logout_final :
      (now later raw other_raw : ℕ) (draw : Draw) (db end : Db) (r s : RefreshToken)
      → find (has_hash hash raw) db.tokens ≡ some r
      → Reaches (Avoids r.family_id) (revoke_by_token hash now raw db) end
      → find (has_hash hash other_raw) end.tokens ≡ some s
      → s.family_id ≡ r.family_id
      → (rotate hash ttl later draw other_raw end).1 ≡ err reuse
  logout_final now later raw other_raw draw db end r s f path found same =
      let dead = Reaches-IsDead r.family_id (logout_kills now raw db r f) path in
      (rotate_revoked hash ttl later draw other_raw end s found (
        All-Has (λ t. t.family_id ≡ r.family_id → is_some t.revoked_at ≡ true) s end.tokens dead
          (Has-find (has_hash hash other_raw) end.tokens s found) same)).0
