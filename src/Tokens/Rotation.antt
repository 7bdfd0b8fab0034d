-- ===== src/Tokens/Rotation.antt =====
-- What a rotation does, what a replay ends, and what the purge leaves visible.
use internship_project.Base.{
  ℕ, ◌+◌, ◌≤◌, ◌<◌, ◌≡◌, refl, sym, ◌∙◌, subst, inl, inr, Bool, true, not, arith, List, [], ◌∷◌,
  ◌++◌, none, some, ==_refl, is_some, find, update, All, All-update, find-update_if, find-append,
  find-keep,
}
use internship_project.Http.{ok, err, ok-injective}
use internship_project.Schema.{User, RefreshToken, Db}
use internship_project.Tokens.{
  Draw, sign_access_token, is_live_in, revoke, revoke_family, has_hash, new_token, Verdict, refused,
  replayed, fresh, check_token, is_claimable, reuse, Rotated, verdict_outcome, rotate,
  purge_expired, is_expired,
}
use internship_project.Tokens.Family.{claim_cases, check_token-fresh}

-- Every token of the family is revoked.
abbrev pub IsDead : ℕ → Db → Type 0
IsDead family_id db = All (λ r. r.family_id ≡ family_id → is_some r.revoked_at ≡ true) db.tokens

-- A revocation of any rows leaves a dead family dead, and that of a family kills it.
pub IsDead-revoke :
    (f : ℕ) (q : RefreshToken → Bool) (now : ℕ) (db : Db)
    → IsDead f db
    → IsDead f (record db { tokens = update q (revoke now) db.tokens })
IsDead-revoke f q now db h =
    All-update (λ r. r.family_id ≡ f → is_some r.revoked_at ≡ true) q (revoke now) db.tokens
      (λ r _ _ _. refl) h

pub IsDead-revoke_family : (f now : ℕ) (db : Db) → IsDead f (revoke_family f now db)
IsDead-revoke_family f now db = go db.tokens
  where
    go :
        (rs : List RefreshToken)
        → All
            (λ r. r.family_id ≡ f → is_some r.revoked_at ≡ true)
            (update (is_live_in f) (revoke now) rs)
    go [] = tt
    go (r ∷ rs) = ((λ e. ground (arith, e)), go rs)

module _ (hash : ℕ → ℕ) where
  abbrev traded : (ttl now : ℕ) → Draw → RefreshToken → User → Db → Db
  traded ttl now draw old user db = record db {
    tokens =
        update (is_claimable old) (revoke now) db.tokens
        ++ new_token hash draw user.id old.family_id (now + ttl) ∷ [];
  }

  -- A revoked token is a replay.
  pub rotate_revoked :
      (ttl now : ℕ) (draw : Draw) (raw : ℕ) (db : Db) (r : RefreshToken)
      → find (has_hash hash raw) db.tokens ≡ some r
      → is_some r.revoked_at ≡ true
      → ((rotate hash ttl now draw raw db).1 ≡ err reuse)
        × ((rotate hash ttl now draw raw db).0 ≡ revoke_family r.family_id now db)
  unfolding rotate check_token
  rotate_revoked ttl now draw raw db r f dead = rw (f, dead) (refl, refl)

  -- A successful rotation, taken apart.
  record IsRotation (ttl now : ℕ) (draw : Draw) (raw : ℕ) (db db' : Db) (r : Rotated) : Type 0 where
    old : RefreshToken
    found : find (has_hash hash raw) db.tokens ≡ some old
    live : old.revoked_at ≡ none
    young : now < old.expires_at
    tokens :
        db'.tokens
        ≡ update (is_claimable old) (revoke now) db.tokens
          ++ new_token hash draw r.user.id old.family_id (now + ttl) ∷ []
    users : db'.users ≡ db.users
    issued : r.tokens ≡ record { access_token = sign_access_token r.user; refresh_token = draw.raw }

  rotate-IsRotation :
      (ttl now : ℕ) (draw : Draw) (raw : ℕ) (db : Db) (r : Rotated)
      → (rotate hash ttl now draw raw db).1 ≡ ok r
      → IsRotation ttl now draw raw db (rotate hash ttl now draw raw db).0 r
  unfolding rotate
  rotate-IsRotation ttl now draw raw db r = go (check_token hash now raw db) refl
    where
      go :
          (v : Verdict)
          → check_token hash now raw db ≡ v
          → (verdict_outcome hash ttl now draw db v).1 ≡ ok r
          → IsRotation ttl now draw raw db (verdict_outcome hash ttl now draw db v).0 r
      go (refused x) e h = cc
      go (replayed f) e h = cc
      go (fresh old user) e h = elim (claim_cases hash ttl now draw old user db) [
        | inl (c, _) ↦ absurd (cc (rw c at h))
        | inr (inl (x, c)) ↦ absurd (cc (rw c at h))
        | inr (inr (c, _)) ↦
            let facts = check_token-fresh hash now raw db old user e in
            rw c (
              subst
                (λ (r : Rotated).
                  IsRotation ttl now draw raw db (traded ttl now draw old user db) r)
                (ok-injective (rw c at h))
                (record {
                  old = old;
                  found = facts.0;
                  live = facts.1;
                  young = facts.2;
                  tokens = refl;
                  users = refl;
                  issued = refl;
                }))
      ]

  -- A token that has been traded is not good again, and offering it again ends the session: the
  -- second call fails as a reuse, and leaves every token of the family revoked, the replacement
  -- that the first call handed out included.
  pub rotate_twice :
      (ttl now later : ℕ) (draw again : Draw) (raw : ℕ) (db : Db) (r : Rotated)
      → (rotate hash ttl now draw raw db).1 ≡ ok r
      → (old : RefreshToken) × (find (has_hash hash raw) db.tokens ≡ some old)
        × ((rotate hash ttl later again raw (rotate hash ttl now draw raw db).0).1 ≡ err reuse)
        × IsDead old.family_id
            (rotate hash ttl later again raw (rotate hash ttl now draw raw db).0).0
  rotate_twice ttl now later draw again raw db r h =
      let first = rotate-IsRotation ttl now draw raw db r h in
      let used =
        subst (λ ts. find (has_hash hash raw) ts ≡ some (revoke now first.old)) (sym first.tokens)
          (find-append (has_hash hash raw) _ _ (revoke now first.old) (
            find-update_if (has_hash hash raw) (is_claimable first.old) (revoke now) db.tokens
              first.old (λ x. refl) first.found
            ∙ rw (==_refl first.old.id, first.live) refl)) in
      let replay = rotate_revoked ttl later again raw _ (revoke now first.old) used refl in
      (
        first.old,
        first.found,
        replay.0,
        subst (IsDead first.old.family_id) (sym replay.1)
            (IsDead-revoke_family first.old.family_id later (rotate hash ttl now draw raw db).0),
      )

  -- The purge hides no replay: of a token that has not been expired for longer than the grace
  -- period, rotate() decides after the purge what it decided before.
  pub check_token-purge :
      (grace at now raw : ℕ) (db : Db) (r : RefreshToken)
      → find (has_hash hash raw) db.tokens ≡ some r
      → at ≤ r.expires_at + grace
      → check_token hash now raw (purge_expired grace at db).0 ≡ check_token hash now raw db
  unfolding check_token purge_expired
  check_token-purge grace at now raw db r f young =
      rw
        (
          find-keep (has_hash hash raw) (λ s. not (is_expired grace at s)) db.tokens r f
              (ground (arith, young)),
          f,
        )
        refl
