-- ===== src/Examples/AccountCases.antt =====
-- The theorems on accounts: a user with a password, and a Google identity that is new.
use internship_project.Base.{◌≡◌, ◌⊎◌, refl, true, [], ◌∷◌, none, some, codes, text_eq, trim}
use internship_project.Http.{err}
use internship_project.Schema.{google, User, Db}
use internship_project.Accounts.{
  Session, GoogleIdentity, login, session_for, invalid_credentials, create_user,
  resolve_google_user, new_user, google_login,
}
use internship_project.Accounts.SignIn.{IsOpened, login-decides}
use internship_project.Tokens.{issue_for_new_session}
use internship_project.Accounts.Google.{
  Payload, payload, IsVouched, google_sign_in, google_sign_in-IsVouched,
}
use internship_project.Examples.{sample_user, sample_db}

abbrev account : User
account = record (sample_user 1) { password = some (codes "secret") }

abbrev account_db : Db
account_db = record sample_db { users = account ∷ [] }

abbrev session : Session
session = record { now = 5; family_id = 401; draw = record { id = 301; raw = 8 } }

abbrev identity : GoogleIdentity
identity = record { provider_id = codes "g"; email = codes "g@b.c"; name = codes "Gus" }

login-decides_example :
    ((u : User) × IsOpened text_eq (codes "a@b.c") (codes "secret") account_db u
      × (login
            (λ n. n)
            100
            text_eq
            (codes "dummy")
            session
            (codes "a@b.c")
            (codes "secret")
            account_db
          ≡ session_for (λ n. n) 100 session u account_db))
    ⊎ (login
          (λ n. n)
          100
          text_eq
          (codes "dummy")
          session
          (codes "a@b.c")
          (codes "secret")
          account_db
        ≡ (account_db, err invalid_credentials))
login-decides_example =
    login-decides (λ n. n) 100 text_eq (codes "dummy") session (codes "a@b.c") (codes "secret")
      account_db

abbrev token_claims : Payload
token_claims = record {
  iss = some (codes "accounts.google.com");
  email = some (codes "g@b.c");
  email_verified = true;
  sub = some (codes "g");
  name = none;
}

abbrev token_user : User
token_user = new_user 4 5 (codes "g@b.c") (codes "g@b.c") none google (some (codes "g"))

google_sign_in-IsVouched_example : IsVouched (payload token_claims) token_user
unfolding google_sign_in google_login resolve_google_user create_user text_eq trim
    issue_for_new_session
google_sign_in-IsVouched_example =
    google_sign_in-IsVouched (λ t. payload token_claims) (λ t. t) (λ n. n) 100 4 session
      (codes "token") account_db
      (record {
        user = token_user;
        tokens = record {
          access_token = record { sub = 4; email = codes "g@b.c" };
          refresh_token = 8;
        };
      })
      refl
