-- ===== src/Accounts.antt =====
-- backend/src/auth/auth.service.ts and backend/src/users/users.service.ts. The password hasher and
-- the text of a hash are parameters, and a session is issued by the token service. `identity` is
-- what GoogleService.verify() returns.
pub mod SignIn
pub mod Google
use internship_project.Base.{
  ℕ, Bool, true, false, not, ◌&&◌, List, [], ◌∷◌, ◌++◌, Option, none, some, Text, text_eq,
  if◌then◌else◌, find, any, or_default,
}
use internship_project.Http.{Result, ok, err, Exception, prisma, p2002, unauthorized, conflict}
use internship_project.Schema.{AuthProvider, local, google, User, Db}
use internship_project.Tokens.{AuthTokens, Draw, Rotated, issue_for_new_session}

-- UsersService: the two unique keys of a user, its reads, and the insertion under those keys.
abbrev pub has_email : Text → User → Bool
has_email email u = text_eq u.email email

abbrev same_provider : AuthProvider → AuthProvider → Bool
same_provider local local = true
same_provider google google = true
same_provider local google = false
same_provider google local = false

abbrev same_id : Option Text → Option Text → Bool
same_id none id = false
same_id (some a) none = false
same_id (some a) (some b) = text_eq a b

abbrev pub has_provider_id : AuthProvider → Option Text → User → Bool
has_provider_id provider id u = same_provider u.provider provider && same_id u.provider_id id

abbrev pub find_by_email : Text → Db → Option User
find_by_email email db = find (has_email email) db.users

abbrev pub find_by_provider_id : AuthProvider → Text → Db → Option User
find_by_provider_id provider id db = find (has_provider_id provider (some id)) db.users

unfoldable pub create_user : User → Db → Result Db
create_user u db =
    if any (has_email u.email) db.users
    then err (prisma p2002 (some "email"))
    else if any (has_provider_id u.provider u.provider_id) db.users
    then err (prisma p2002 (some "provider, providerId"))
    else ok (record db { users = db.users ++ u ∷ [] })

abbrev pub new_user :
    (id now : ℕ) (email name : Text) → Option Text → AuthProvider → Option Text → User
new_user id now email name password provider provider_id = record {
  id = id;
  email = email;
  password = password;
  name = name;
  provider = provider;
  provider_id = provider_id;
  created_at = now;
}

-- What a new session draws: the clock, the family's id, and the token.
pub record Session : Type 0 where
  pub now : ℕ
  pub family_id : ℕ
  pub draw : Draw

pub record GoogleIdentity : Type 0 where
  pub provider_id : Text
  pub email : Text
  pub name : Text

abbrev pub invalid_credentials : Exception
invalid_credentials = unauthorized "Invalid email or password"

abbrev pub with_user : User → Db × Result AuthTokens → Db × Result Rotated
with_user u (db, err e) = (db, err e)
with_user u (db, ok tokens) = (db, ok (record { user = u; tokens = tokens }))

-- resolveGoogleUser(): the user, and the tables with it.
abbrev created : User → Db → Result Db → Db × Result User
created u db (err e) = (db, err e)
created u db (ok db') = (db', ok u)

abbrev claim_email : (id now : ℕ) → GoogleIdentity → Db → Option User → Db × Result User
claim_email id now identity db (some email_owner) =
    (db, err (conflict "An account with this email already exists. Sign in with your password."))
claim_email id now identity db none =
    let u = new_user id now identity.email identity.name none google (some identity.provider_id) in
    created u db (create_user u db)

abbrev resolve_from : (id now : ℕ) → GoogleIdentity → Db → Option User → Db × Result User
resolve_from id now identity db (some existing) = (db, ok existing)
resolve_from id now identity db none =
    claim_email id now identity db (find_by_email identity.email db)

unfoldable pub resolve_google_user : (id now : ℕ) → GoogleIdentity → Db → Db × Result User
unfolding create_user
resolve_google_user id now identity db =
    resolve_from id now identity db (find_by_provider_id google identity.provider_id db)

module _ (digest : ℕ → ℕ) (ttl : ℕ) where
  abbrev pub session_for : Session → User → Db → Db × Result Rotated
  session_for s u db = with_user u (issue_for_new_session digest ttl s.now s.family_id s.draw u db)

  abbrev pub session_from : Session → Db × Result User → Db × Result Rotated
  session_from s (db, err e) = (db, err e)
  session_from s (db, ok u) = session_for s u db

  -- register()
  unfoldable pub register :
      (hash_password : Text → Text) (id : ℕ)
      → Session
      → (email name password : Text) → Db
      → Db × Result Rotated
  unfolding create_user
  register hash_password id s email name password db =
      let u = new_user id s.now email name (some (hash_password password)) local none in
      session_from s (created u db (create_user u db))

  -- login(); the dummy hash is checked where there is no user or no password.
  abbrev password_of : Option User → Option Text
  password_of none = none
  password_of (some u) = u.password

  abbrev admitted : Session → Db → Option User → Option Text → Bool → Db × Result Rotated
  admitted s db (some u) (some h) true = session_for s u db
  admitted s db (some u) (some h) false = (db, err invalid_credentials)
  admitted s db (some u) none matches = (db, err invalid_credentials)
  admitted s db none stored matches = (db, err invalid_credentials)

  unfoldable pub login :
      (verify : Text → Text → Bool) (dummy_hash : Text)
      → Session
      → (email password : Text) → Db
      → Db × Result Rotated
  login verify dummy_hash s email password db =
      let stored = password_of (find_by_email email db) in
      admitted s db (find_by_email email db) stored (verify (or_default stored dummy_hash) password)

  -- googleLogin()
  unfoldable pub google_login : (id : ℕ) → Session → GoogleIdentity → Db → Db × Result Rotated
  unfolding resolve_google_user
  google_login id s identity db = session_from s (resolve_google_user id s.now identity db)
