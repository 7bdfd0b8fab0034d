-- ===== src/Tokens.antt =====
-- backend/src/auth/token.service.ts and refresh-token-purge.service.ts. A raw token and its SHA-256
-- digest are numbers, and the digest function is a parameter; the clock and the random values are
-- arguments, one reading of the clock for each call; an access token stands for its claims.
pub mod Family
pub mod Rotation
pub mod Sessions
use internship_project.Base.{
  ℕ, ◌+◌, Bool, true, false, not, ◌&&◌, List, [], ◌∷◌, ◌++◌, Option, none, some, Text, ltb, leb,
  ◌==◌, if◌then◌else◌, is_some, keep, find, any, count, update,
}
use internship_project.Http.{Result, ok, err, Exception, prisma, p2002, p2003, unauthorized}
use internship_project.Schema.{User, RefreshToken, Db}

-- JwtPayload and AuthTokens.
pub record Claims : Type 0 where
  pub sub : ℕ
  pub email : Text

pub record AuthTokens : Type 0 where
  pub access_token : Claims
  pub refresh_token : ℕ

-- The random values that a call draws: the row's id, and the raw token.
pub record Draw : Type 0 where
  pub id : ℕ
  pub raw : ℕ

abbrev pub sign_access_token : User → Claims
sign_access_token u = record { sub = u.id; email = u.email }

abbrev pub is_live : RefreshToken → Bool
is_live r = not (is_some r.revoked_at)

abbrev pub is_live_in : ℕ → RefreshToken → Bool
is_live_in family_id r = (r.family_id == family_id) && is_live r

abbrev pub revoke : (now : ℕ) → RefreshToken → RefreshToken
revoke now r = record r { revoked_at = some now }

-- revokeFamily()
abbrev pub revoke_family : (family_id now : ℕ) → Db → Db
revoke_family family_id now db = record db {
  tokens = update (is_live_in family_id) (revoke now) db.tokens;
}

-- What rotate() decides from its reads.
pub data Verdict : Type 0 where
  refused : Exception → Verdict
  replayed : (family_id : ℕ) → Verdict
  fresh : RefreshToken → User → Verdict

-- The transaction: a conditional update, and the replacement if it hit a row.
pub data Claim : Type 0 where
  won : Claim
  lost : Claim
  threw : Exception → Claim

abbrev pub reuse : Exception
reuse = unauthorized "Refresh token reuse detected"

pub record Rotated : Type 0 where
  pub user : User
  pub tokens : AuthTokens

-- `where: { id: existing.id, revokedAt: null }`
abbrev pub is_claimable : RefreshToken → RefreshToken → Bool
is_claimable existing r = (r.id == existing.id) && is_live r

abbrev rolled_back : Db → Result Db → Db × Claim
rolled_back db (err e) = (db, threw e)
rolled_back db (ok db') = (db', won)

-- rotate()
abbrev pub claimed_outcome :
    (now : ℕ) → Draw → RefreshToken → User → Db × Claim → Db × Result Rotated
claimed_outcome now draw existing user (db, won) = (
  db,
  ok (record {
    user = user;
    tokens = record { access_token = sign_access_token user; refresh_token = draw.raw };
  }),
)
claimed_outcome now draw existing user (db, lost) =
    (revoke_family existing.family_id now db, err reuse)
claimed_outcome now draw existing user (db, threw e) = (db, err e)

module _ (hash : ℕ → ℕ) where
  abbrev pub has_hash : ℕ → RefreshToken → Bool
  has_hash raw r = r.token_hash == hash raw

  abbrev pub new_token : Draw → (user_id family_id expires_at : ℕ) → RefreshToken
  new_token draw user_id family_id expires_at = record {
    id = draw.id;
    user_id = user_id;
    token_hash = hash draw.raw;
    family_id = family_id;
    expires_at = expires_at;
    revoked_at = none;
  }

  -- `refreshToken.create` under the unique hash and the foreign key of the user.
  unfoldable pub insert_token : RefreshToken → Db → Result Db
  insert_token r db =
      if any (λ s. s.token_hash == r.token_hash) db.tokens
      then err (prisma p2002 (some "tokenHash"))
      else if any (λ u. u.id == r.user_id) db.users
      then ok (record db { tokens = db.tokens ++ r ∷ [] })
      else err (prisma p2003 none)

  -- issueForNewSession(), with the new family's id.
  abbrev issued : User → ℕ → Db → Result Db → Db × Result AuthTokens
  issued user raw db (err e) = (db, err e)
  issued user raw db (ok db') =
      (db', ok (record { access_token = sign_access_token user; refresh_token = raw }))

  unfoldable pub issue_for_new_session :
      (ttl now family_id : ℕ) → Draw → User → Db → Db × Result AuthTokens
  unfolding insert_token
  issue_for_new_session ttl now family_id draw user db =
      issued user draw.raw db (insert_token (new_token draw user.id family_id (now + ttl)) db)

  abbrev check_user : RefreshToken → Option User → Verdict
  check_user existing none = refused (unauthorized "Invalid refresh token")
  check_user existing (some user) = fresh existing user

  abbrev pub judge : (now : ℕ) → Db → Option RefreshToken → Verdict
  judge now db none = refused (unauthorized "Invalid refresh token")
  judge now db (some existing) =
      if is_some existing.revoked_at
      then replayed existing.family_id
      else if leb existing.expires_at now
      then refused (unauthorized "Refresh token expired")
      else check_user existing (find (λ u. u.id == existing.user_id) db.users)

  unfoldable pub check_token : (now raw : ℕ) → Db → Verdict
  check_token now raw db = judge now db (find (has_hash raw) db.tokens)

  unfoldable pub claim : (ttl now : ℕ) → Draw → RefreshToken → User → Db → Db × Claim
  unfolding insert_token
  claim ttl now draw existing user db =
      let claimed = record db { tokens = update (is_claimable existing) (revoke now) db.tokens } in
      if count (is_claimable existing) db.tokens == 0
      then (db, lost)
      else rolled_back db
          (insert_token (new_token draw user.id existing.family_id (now + ttl)) claimed)

  abbrev pub verdict_outcome : (ttl now : ℕ) → Draw → Db → Verdict → Db × Result Rotated
  verdict_outcome ttl now draw db (refused e) = (db, err e)
  verdict_outcome ttl now draw db (replayed family_id) = (revoke_family family_id now db, err reuse)
  verdict_outcome ttl now draw db (fresh existing user) =
      claimed_outcome now draw existing user (claim ttl now draw existing user db)

  unfoldable pub rotate : (ttl now : ℕ) → Draw → (raw : ℕ) → Db → Db × Result Rotated
  rotate ttl now draw raw db = verdict_outcome ttl now draw db (check_token now raw db)

  -- revokeByToken()
  abbrev revoke_found : (now : ℕ) → Db → Option RefreshToken → Db
  revoke_found now db none = db
  revoke_found now db (some existing) = revoke_family existing.family_id now db

  unfoldable pub revoke_by_token : (now raw : ℕ) → Db → Db
  revoke_by_token now raw db = revoke_found now db (find (has_hash raw) db.tokens)

-- purgeExpired(): `expiresAt < now - grace`, and the number of rows that went.
abbrev pub is_expired : (grace now : ℕ) → RefreshToken → Bool
is_expired grace now r = ltb (r.expires_at + grace) now

unfoldable pub purge_expired : (grace now : ℕ) → Db → Db × ℕ
purge_expired grace now db = (
  record db { tokens = keep (λ r. not (is_expired grace now r)) db.tokens },
  count (is_expired grace now) db.tokens,
)
