-- ===== src/Accounts/Google.antt =====
-- backend/src/auth/google.service.ts, and AuthService.googleLogin() from the id token on. Google's
-- library checks the signature, the audience and the expiry: its answer for a token is an argument,
-- and so is normalizeEmail()'s `toLowerCase`.
use internship_project.Base.{
  subst, ℕ, ◌≡◌, refl, sym, ap, Bool, true, false, not, ◌||◌, arith, [], ◌∷◌, Option, none, some,
  Text, codes, text_eq, trim, or_default,
}
use internship_project.Http.{
  Result, ok, err, Exception, unauthorized, throw_if, ◌>>=◌, ◌>>◌, >>=-eq-ok, ok-injective,
}
use internship_project.Schema.{google, User, Db}
use internship_project.Tokens.{AuthTokens, Rotated, issue_for_new_session}
use internship_project.Accounts.{
  Session, GoogleIdentity, has_provider_id, resolve_google_user, with_user, session_from,
  google_login,
}
use internship_project.Accounts.SignIn.{resolve_google_user-owns}

-- The claims that are read; a claim that is absent is `none`, and `email_verified` says whether it
-- is the value `true`.
pub record Payload : Type 0 where
  pub iss : Option Text
  pub email : Option Text
  pub email_verified : Bool
  pub sub : Option Text
  pub name : Option Text

-- What verifyIdToken() does with a token.
pub data Ticket : Type 0 where
  thrown : Ticket
  no_payload : Ticket
  payload : Payload → Ticket

-- `!claim`
abbrev pub is_missing : Option Text → Bool
is_missing none = true
is_missing (some []) = true
is_missing (some (c ∷ t)) = false

-- VALID_ISSUERS
abbrev pub is_google : Option Text → Bool
is_google none = false
is_google (some t) =
    text_eq t (codes "accounts.google.com") || text_eq t (codes "https://accounts.google.com")

-- verifySignatureAndAudience()
abbrev payload_of : Ticket → Result Payload
payload_of thrown = err (unauthorized "Invalid Google token")
payload_of no_payload = err (unauthorized "Google token could not be read")
payload_of (payload p) = ok p

module _ (to_lower : Text → Text) where
  abbrev normalize_email : Text → Text
  normalize_email t = to_lower (trim t)

  abbrev identity_of : Payload → GoogleIdentity
  identity_of p =
      let email = normalize_email (or_default p.email []) in
      record { provider_id = or_default p.sub []; email = email; name = or_default p.name email }

  unfoldable pub verify : Ticket → Result GoogleIdentity
  verify ticket = do
    p ← payload_of ticket
    throw_if (is_missing p.iss || not (is_google p.iss))
        (unauthorized "Google token has an unexpected issuer")
    throw_if (is_missing p.email || not p.email_verified)
        (unauthorized "Google account email is not verified")
    throw_if (is_missing p.sub) (unauthorized "Google token is missing a subject")
    ok (identity_of p)

-- AuthService.googleLogin()
abbrev login_from :
    (ℕ → ℕ) → ℕ → (id : ℕ) → Session → Result GoogleIdentity → Db → Db × Result Rotated
login_from digest ttl id s (err e) db = (db, err e)
login_from digest ttl id s (ok identity) db = google_login digest ttl id s identity db

unfoldable pub google_sign_in :
    (verify_id_token : Text → Ticket) (to_lower : Text → Text) (digest : ℕ → ℕ) (ttl id : ℕ)
    → Session
    → (id_token : Text) → Db
    → Db × Result Rotated
unfolding verify
google_sign_in verify_id_token to_lower digest ttl id s id_token db =
    login_from digest ttl id s (verify to_lower (verify_id_token id_token)) db

-- What a token has to say.
pub record IsVouched (ticket : Ticket) (u : User) : Type 0 where
  pub claims : Payload
  pub genuine : ticket ≡ payload claims
  pub issued : is_google claims.iss ≡ true
  pub proven : claims.email_verified ≡ true
  pub subject : is_missing claims.sub ≡ false
  pub of_user : has_provider_id google (some (or_default claims.sub [])) u ≡ true

with_user-user :
    (u : User) (o : Db × Result AuthTokens) (r : Rotated) → (with_user u o).1 ≡ ok r → r.user ≡ u
with_user-user u (db, err e) r h = cc
with_user-user u (db, ok t) r h = ap Rotated.user (sym (ok-injective h))

session_from-owns :
    (digest : ℕ → ℕ) (ttl : ℕ) (s : Session) (id : Text) (o : Db × Result User) (r : Rotated)
    → ((u : User) → o.1 ≡ ok u → has_provider_id google (some id) u ≡ true)
    → (session_from digest ttl s o).1 ≡ ok r
    → has_provider_id google (some id) r.user ≡ true
session_from-owns digest ttl s id (db, err e) r owns h = cc
session_from-owns digest ttl s id (db, ok u) r owns h =
    let same =
      with_user-user u (issue_for_new_session digest ttl s.now s.family_id s.draw u db) r h in
    subst (λ x. has_provider_id google (some id) x ≡ true) (sym same) (owns u refl)

google_login-owns :
    (digest : ℕ → ℕ) (ttl id : ℕ) (s : Session) (identity : GoogleIdentity) (db : Db) (r : Rotated)
    → (google_login digest ttl id s identity db).1 ≡ ok r
    → has_provider_id google (some identity.provider_id) r.user ≡ true
unfolding google_login
google_login-owns digest ttl id s identity db r h =
    session_from-owns digest ttl s identity.provider_id (resolve_google_user id s.now identity db) r
      (λ u k. (resolve_google_user-owns id s.now identity db u k).0) h

payload_of-payload : (ticket : Ticket) (p : Payload) → payload_of ticket ≡ ok p → ticket ≡ payload p
payload_of-payload thrown p h = cc
payload_of-payload no_payload p h = cc
payload_of-payload (payload q) p h = ap payload (ok-injective h)

>>-eq-ok :
    (b : Bool) (e : Exception) {rest : Result GoogleIdentity} {i : GoogleIdentity}
    → (throw_if b e >> rest) ≡ ok i
    → (b ≡ false) × (rest ≡ ok i)
>>-eq-ok true e h = cc
>>-eq-ok false e h = (refl, h)

verify-claims :
    (to_lower : Text → Text) (ticket : Ticket) (identity : GoogleIdentity)
    → verify to_lower ticket ≡ ok identity
    → (p : Payload) × (ticket ≡ payload p)
      × (is_google p.iss ≡ true)
      × (p.email_verified ≡ true)
      × (is_missing p.sub ≡ false)
      × (identity ≡ identity_of to_lower p)
unfolding verify
verify-claims to_lower ticket identity h =
    let (p, e, h1) = >>=-eq-ok (payload_of ticket) _ h in
    let (iss, h2) = >>-eq-ok (is_missing p.iss || not (is_google p.iss)) _ h1 in
    let (email, h3) = >>-eq-ok (is_missing p.email || not p.email_verified) _ h2 in
    let (sub, h4) = >>-eq-ok (is_missing p.sub) _ h3 in
    (
      p,
      payload_of-payload ticket p e,
      or_not (is_missing p.iss) (is_google p.iss) iss,
      or_not (is_missing p.email) p.email_verified email,
      sub,
      sym (ok-injective h4),
    )
  where
    or_not : (a b : Bool) → a || not b ≡ false → b ≡ true
    or_not a b k = ground arith

-- A Google sign-in that answers with a session is for a token that Google's library accepted, whose
-- issuer is one of Google's two, whose email is verified and whose subject is not missing; and the
-- session is that of the Google account of this very subject.
pub google_sign_in-IsVouched :
    (verify_id_token : Text → Ticket) (to_lower : Text → Text) (digest : ℕ → ℕ) (ttl id : ℕ)
    (s : Session) (id_token : Text) (db : Db) (r : Rotated)
    → (google_sign_in verify_id_token to_lower digest ttl id s id_token db).1 ≡ ok r
    → IsVouched (verify_id_token id_token) r.user
unfolding google_sign_in
google_sign_in-IsVouched verify_id_token to_lower digest ttl id s id_token db r h =
    vouched (verify to_lower (verify_id_token id_token)) refl h
  where
    vouched :
        (o : Result GoogleIdentity)
        → verify to_lower (verify_id_token id_token) ≡ o
        → (login_from digest ttl id s o db).1 ≡ ok r
        → IsVouched (verify_id_token id_token) r.user
    vouched (err e) v k = cc
    vouched (ok identity) v k =
        let (p, genuine, issued, proven, subject, same) =
          verify-claims to_lower (verify_id_token id_token) identity v in
        record {
          claims = p;
          genuine = genuine;
          issued = issued;
          proven = proven;
          subject = subject;
          of_user =
              subst (λ i. has_provider_id google (some i.provider_id) r.user ≡ true) same
                (google_login-owns digest ttl id s identity db r k);
        }
