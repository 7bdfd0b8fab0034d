-- ===== src/Tokens/Family.antt =====
-- The tokens of one rotation family: the invariant of the token table, and each operation on it.
use internship_project.Base.{
  ℕ, ◌+◌, ◌≤◌, ◌<◌, ◌≡◌, subst, leb, refl, sym, ap, ◌∙◌, ◌≢◌, ◌⊎◌, inl, inr, Bool, false, arith,
  List, [], ◌∷◌, ◌++◌, none, some, Bool-cases, Option-cases, ◌==◌, keep, find, any, count, update,
  All, All-map, All-update, All-of_Has, Has-find, Distinct, Distinct-update, Distinct-keep,
  Distinct-snoc, eq_of_key, count-append, count-eq-zero, count-update_out, count-update-le,
  count-keep-le,
}
use internship_project.Http.{ok, err, Exception, prisma, p2002, p2003}
use internship_project.Schema.{User, RefreshToken, Db}
use internship_project.Tokens.{
  Draw, is_live_in, revoke, revoke_family, has_hash, new_token, insert_token, issue_for_new_session,
  Verdict, refused, replayed, fresh, check_token, Claim, won, lost, threw, is_claimable, claim,
  claimed_outcome, verdict_outcome, rotate, revoke_by_token, purge_expired,
}

abbrev pub token_id : RefreshToken → ℕ
token_id r = r.id

abbrev pub HasSingles : List RefreshToken → Type 0
HasSingles tokens = (family_id : ℕ) → count (is_live_in family_id) tokens ≤ 1

pub record IsSound (tokens : List RefreshToken) : Type 0 where
  pub distinct : Distinct token_id tokens
  pub single : HasSingles tokens

revoked-is_live_in : (f now : ℕ) (r : RefreshToken) → is_live_in f (revoke now r) ≡ false
revoked-is_live_in f now r = ground arith

-- A revocation by any test keeps the tables sound.
pub IsSound-revoke :
    (q : RefreshToken → Bool) (now : ℕ) (tokens : List RefreshToken)
    → IsSound tokens
    → IsSound (update q (revoke now) tokens)
IsSound-revoke q now tokens h = record {
  distinct = Distinct-update token_id q (revoke now) tokens (λ r. refl) h.distinct;
  single = λ f. omega (
    arith,
    h.single f,
    count-update-le (is_live_in f) q (revoke now) tokens (revoked-is_live_in f now),
  );
}

pub IsSound-keep :
    (q : RefreshToken → Bool) (tokens : List RefreshToken)
    → IsSound tokens
    → IsSound (keep q tokens)
IsSound-keep q tokens h = record {
  distinct = Distinct-keep token_id q tokens h.distinct;
  single = λ f. omega (arith, h.single f, count-keep-le (is_live_in f) q tokens);
}

abbrev pub IsFreshToken : ℕ → List RefreshToken → Type 0
IsFreshToken id tokens = All (λ r. r.id ≢ id) tokens

-- A token comes to a family that has no live one.
IsSound-snoc :
    (r : RefreshToken) (tokens : List RefreshToken)
    → IsFreshToken r.id tokens
    → count (is_live_in r.family_id) tokens ≡ 0
    → IsSound tokens
    → IsSound (tokens ++ r ∷ [])
IsSound-snoc r tokens unused empty h = record {
  distinct = Distinct-snoc token_id tokens r h.distinct unused;
  single = λ f. elim (Bool-cases (r.family_id == f)) [
    | inl e ↦
        let same : r.family_id ≡ f = ground (arith, e) in
        ground (arith, count-append (is_live_in f) tokens (r ∷ []), rw same at empty)
    | inr e ↦ ground (arith, e, h.single f, count-append (is_live_in f) tokens (r ∷ []))
  ];
}

-- The conditional update empties the family of the row that it claims.
count-claimed :
    (now : ℕ) (e : RefreshToken) (tokens : List RefreshToken)
    → All (λ r. r.id ≡ e.id → r.family_id ≡ e.family_id) tokens
    → IsSound tokens
    → count (is_claimable e) tokens ≢ 0
    → count (is_live_in e.family_id) (update (is_claimable e) (revoke now) tokens) ≡ 0
count-claimed now e tokens linked h some_row = omega (
  arith,
  h.single e.family_id,
  some_row,
  count-update_out (is_live_in e.family_id) (is_claimable e) (revoke now) tokens
      (All-map (λ r link t. ground (arith, t, link)) tokens linked)
      (revoked-is_live_in e.family_id now),
)

module _ (hash : ℕ → ℕ) where
  -- An insertion fails, or adds its row.
  pub insert_token_cases :
      (r : RefreshToken) (db : Db)
      → ((e : Exception) × (insert_token hash r db ≡ err e))
        ⊎ (insert_token hash r db ≡ ok (record db { tokens = db.tokens ++ r ∷ [] }))
  unfolding insert_token
  insert_token_cases r db = elim (Bool-cases (any (λ s. s.token_hash == r.token_hash) db.tokens)) [
    | inl e ↦ inl (prisma p2002 (some "tokenHash"), rw e refl)
    | inr e ↦ elim (Bool-cases (any (λ u. u.id == r.user_id) db.users)) [
      | inl u ↦ inr (rw (e, u) refl)
      | inr u ↦ inl (prisma p2003 none, rw (e, u) refl)
    ]
  ]

  -- A claim loses and writes nothing, is rolled back, or trades the row for its replacement.
  pub claim_cases :
      (ttl now : ℕ) (draw : Draw) (e : RefreshToken) (user : User) (db : Db)
      → ((claim hash ttl now draw e user db ≡ (db, lost)) × (count (is_claimable e) db.tokens ≡ 0))
        ⊎ (((x : Exception) × (claim hash ttl now draw e user db ≡ (db, threw x)))
            ⊎ (claim hash ttl now draw e user db ≡ (
              record db {
                tokens =
                    update (is_claimable e) (revoke now) db.tokens
                    ++ new_token hash draw user.id e.family_id (now + ttl) ∷ [];
              },
              won,
            ))
              × (count (is_claimable e) db.tokens ≢ 0))
  unfolding claim
  claim_cases ttl now draw e user db =
      let claimed = update (is_claimable e) (revoke now) db.tokens in
      let r = new_token hash draw user.id e.family_id (now + ttl) in
      elim (Bool-cases (count (is_claimable e) db.tokens == 0)) [
        | inl gone ↦ inl (rw gone refl, ground (arith, gone))
        | inr there ↦ elim (insert_token_cases r (record db { tokens = claimed })) [
          | inl (x, f) ↦ inr (inl (x, rw (there, f) refl))
          | inr f ↦ inr (inr (rw (there, f) refl, ground (arith, there)))
        ]
      ]

  -- The claim, in a state where the row that was read may have changed since.
  pub claim-IsSound :
      (ttl now : ℕ) (draw : Draw) (e : RefreshToken) (user : User) (db : Db)
      → IsFreshToken draw.id db.tokens
      → All (λ r. r.id ≡ e.id → r.family_id ≡ e.family_id) db.tokens
      → IsSound db.tokens
      → IsSound (claim hash ttl now draw e user db).0.tokens
  unfolding claim
  claim-IsSound ttl now draw e user db unused linked h =
      let claimed = update (is_claimable e) (revoke now) db.tokens in
      let r = new_token hash draw user.id e.family_id (now + ttl) in
      elim (Bool-cases (count (is_claimable e) db.tokens == 0)) [
        | inl gone ↦ rw gone h
        | inr there ↦ elim (insert_token_cases r (record db { tokens = claimed })) [
          | inl (x, f) ↦ rw (there, f) h
          | inr f ↦
              rw (there, f)
                (IsSound-snoc r claimed
                  (All-update (λ s. s.id ≢ draw.id) _ (revoke now) db.tokens (λ s _ n. n) unused)
                  (count-claimed now e db.tokens linked h (ground (arith, there)))
                  (IsSound-revoke (is_claimable e) now db.tokens h))
        ]
      ]

  -- The row that a token's digest finds, and the rows that share its id.
  pub linked_of :
      (raw : ℕ) (db : Db) (e : RefreshToken)
      → IsSound db.tokens
      → find (has_hash hash raw) db.tokens ≡ some e
      → All (λ r. r.id ≡ e.id → r.family_id ≡ e.family_id) db.tokens
  linked_of raw db e h found =
      All-of_Has (λ r. r.id ≡ e.id → r.family_id ≡ e.family_id) db.tokens
        (λ r i same.
          ap (λ (t : RefreshToken). t.family_id)
            (eq_of_key token_id r e db.tokens h.distinct i
              (Has-find (has_hash hash raw) db.tokens e found) same))

  -- What `fresh` says of the row.
  pub check_token-fresh :
      (now raw : ℕ) (db : Db) (e : RefreshToken) (user : User)
      → check_token hash now raw db ≡ fresh e user
      → (find (has_hash hash raw) db.tokens ≡ some e)
        × (e.revoked_at ≡ none)
        × (now < e.expires_at)
        × (find (λ u. u.id == e.user_id) db.users ≡ some user)
  unfolding check_token
  check_token-fresh now raw db e user h = elim (Option-cases (find (has_hash hash raw) db.tokens)) [
    | inl f ↦ absurd (cc (rw f at h))
    | inr (r, f) ↦ elim (Option-cases r.revoked_at) [
      | inr (t, dead) ↦ absurd (cc (rw (f, dead) at h))
      | inl live ↦ elim (Bool-cases (leb r.expires_at now)) [
        | inl old ↦ absurd (cc (rw (f, live, old) at h))
        | inr young ↦ elim (Option-cases (find (λ u. u.id == r.user_id) db.users)) [
          | inl ghost ↦ absurd (cc (rw (f, live, young, ghost) at h))
          | inr (u, found) ↦
              let both = rw (f, live, young, found) at h in
              let same : r ≡ e = cc (both) in
              let who : u ≡ user = cc (both) in
              let late : now < r.expires_at = ground (arith, young) in
              (
                f ∙ ap some same,
                ap (λ (t : RefreshToken). t.revoked_at) (sym same) ∙ live,
                subst (λ (t : RefreshToken). now < t.expires_at) same late,
                subst (λ (t : RefreshToken). find (λ u. u.id == t.user_id) db.users ≡ some user)
                    same (found ∙ ap some who),
              )
        ]
      ]
    ]
  ]

  -- The three ways in which rotate() ends.
  pub rotate_elim {ℓ} :
      (P : Db → Type ℓ) (ttl now : ℕ) (draw : Draw) (raw : ℕ) (db : Db)
      → P db
      → ((family_id : ℕ) (d : Db) → P d → P (revoke_family family_id now d))
      → ((e : RefreshToken) (user : User)
          → check_token hash now raw db ≡ fresh e user
          → P (claim hash ttl now draw e user db).0)
      → P (rotate hash ttl now draw raw db).0
  unfolding rotate
  rotate_elim P ttl now draw raw db same revoked claimed = go (check_token hash now raw db) refl
    where
      outcome :
          (e : RefreshToken) (user : User) (c : Db × Claim)
          → P c.0
          → P (claimed_outcome now draw e user c).0
      outcome e user (d, won) q = q
      outcome e user (d, lost) q = revoked e.family_id d q
      outcome e user (d, threw x) q = q

      go :
          (v : Verdict)
          → check_token hash now raw db ≡ v
          → P (verdict_outcome hash ttl now draw db v).0
      go (refused x) e = same
      go (replayed f) e = revoked f db same
      go (fresh r user) e = outcome r user (claim hash ttl now draw r user db) (claimed r user e)

  pub rotate-IsSound :
      (ttl now : ℕ) (draw : Draw) (raw : ℕ) (db : Db)
      → IsFreshToken draw.id db.tokens
      → IsSound db.tokens
      → IsSound (rotate hash ttl now draw raw db).0.tokens
  rotate-IsSound ttl now draw raw db unused h =
      rotate_elim (λ d. IsSound d.tokens) ttl now draw raw db h
        (λ f d k. IsSound-revoke (is_live_in f) now d.tokens k)
        (λ e user fresh_e.
          claim-IsSound ttl now draw e user db unused
            (linked_of raw db e h (check_token-fresh now raw db e user fresh_e).0) h)

  pub revoke_by_token-IsSound :
      (now raw : ℕ) (db : Db) → IsSound db.tokens → IsSound (revoke_by_token hash now raw db).tokens
  unfolding revoke_by_token
  revoke_by_token-IsSound now raw db h = elim (Option-cases (find (has_hash hash raw) db.tokens)) [
    | inl e ↦ rw e h
    | inr (r, e) ↦ rw e (IsSound-revoke (is_live_in r.family_id) now db.tokens h)
  ]

  -- A new session's family is new.
  abbrev pub IsFreshFamily : ℕ → Db → Type 0
  IsFreshFamily family_id db = All (λ r. r.family_id ≢ family_id) db.tokens

  pub issue-IsSound :
      (ttl now family_id : ℕ) (draw : Draw) (user : User) (db : Db)
      → IsFreshToken draw.id db.tokens
      → IsFreshFamily family_id db
      → IsSound db.tokens
      → IsSound (issue_for_new_session hash ttl now family_id draw user db).0.tokens
  unfolding issue_for_new_session
  issue-IsSound ttl now family_id draw user db unused new h =
      let r = new_token hash draw user.id family_id (now + ttl) in
      elim (insert_token_cases r db) [
        | inl (x, e) ↦ rw e h
        | inr e ↦ rw e (
            IsSound-snoc r db.tokens unused
              (count-eq-zero (is_live_in family_id) db.tokens
                (All-map (λ s n. ground (arith, n)) db.tokens new))
              h)
      ]

  pub purge-IsSound :
      (grace now : ℕ) (db : Db) → IsSound db.tokens → IsSound (purge_expired grace now db).0.tokens
  unfolding purge_expired
  purge-IsSound grace now db h = IsSound-keep _ db.tokens h
