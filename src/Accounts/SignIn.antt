-- ===== src/Accounts/SignIn.antt =====
-- Who is given a session, and what the user table keeps.
use internship_project.Base.{
  ℕ, ◌+◌, ◌≤◌, ◌≡◌, refl, sym, subst, ◌⊎◌, inl, inr, Bool, true, false, arith, [], ◌∷◌, ◌++◌, none,
  some, Text, text_eq, text_eq_iff, Bool-cases, Option-cases, test-find, any, count, count-append,
  any-eq-count,
}
use internship_project.Http.{Result, ok, err, Exception, prisma, p2002, ok-injective}
use internship_project.Schema.{local, google, User, Db}
use internship_project.Tokens.{new_token, issue_for_new_session}
use internship_project.Tokens.Family.{insert_token_cases}
use internship_project.Accounts.{
  has_email, has_provider_id, find_by_email, find_by_provider_id, create_user, new_user, Session,
  GoogleIdentity, invalid_credentials, session_for, resolve_google_user, login, session_from,
  register,
}

-- The account that a password opens.
pub record IsOpened (verify : Text → Text → Bool) (email password : Text) (db : Db) (u : User)
    : Type 0 where
  pub found : find_by_email email db ≡ some u
  pub hash : Text
  pub stored : u.password ≡ some hash
  pub verified : verify hash password ≡ true

-- login() opens a session for the user of that email, whose own stored hash the password verifies;
-- or it changes nothing and answers with one and the same 401, whether the email is unknown, the
-- account has no password or the password is wrong.
pub login-decides :
    (digest : ℕ → ℕ) (ttl : ℕ) (verify : Text → Text → Bool) (dummy_hash : Text) (s : Session)
    (email password : Text) (db : Db)
    → ((u : User) × IsOpened verify email password db u
        × (login digest ttl verify dummy_hash s email password db ≡ session_for digest ttl s u db))
      ⊎ (login digest ttl verify dummy_hash s email password db ≡ (db, err invalid_credentials))
unfolding login
login-decides digest ttl verify dummy_hash s email password db =
    elim (Option-cases (find_by_email email db)) [
      | inl e ↦ inr (rw e refl)
      | inr (u, e) ↦ elim (Option-cases u.password) [
        | inl f ↦ inr (rw (e, f) refl)
        | inr (h, f) ↦ elim (Bool-cases (verify h password)) [
          | inr g ↦ inr (rw (e, f, g) refl)
          | inl g ↦
              inl (u, record { found = e; hash = h; stored = f; verified = g }, rw (e, f, g) refl)
        ]
      ]
    ]

create_user-cases :
    (u : User) (db : Db)
    → ((create_user u db ≡ ok (record db { users = db.users ++ u ∷ [] }))
        × (any (has_email u.email) db.users ≡ false))
      ⊎ ((e : Exception) × (create_user u db ≡ err e))
unfolding create_user
create_user-cases u db = elim (Bool-cases (any (has_email u.email) db.users)) [
  | inl e ↦ inr (prisma p2002 (some "email"), rw e refl)
  | inr e ↦ elim (Bool-cases (any (has_provider_id u.provider u.provider_id) db.users)) [
    | inl f ↦ inr (prisma p2002 (some "provider, providerId"), rw (e, f) refl)
    | inr f ↦ inl (rw (e, f) refl, e)
  ]
]

-- The user whom a Google identity stands for: the account of that very identity, or a new one of
-- it under its email. An identity whose email belongs to another account is refused with 409 and
-- takes nothing over.
pub resolve_google_user-owns :
    (id now : ℕ) (identity : GoogleIdentity) (db : Db) (u : User)
    → (resolve_google_user id now identity db).1 ≡ ok u
    → (has_provider_id google (some identity.provider_id) u ≡ true)
      × ((find_by_provider_id google identity.provider_id db ≡ some u)
          ⊎ ((find_by_email identity.email db ≡ none)
              × (u
                  ≡ new_user id now identity.email identity.name none google
                      (some identity.provider_id))))
unfolding resolve_google_user
resolve_google_user-owns id now identity db u h =
    elim (Option-cases (find_by_provider_id google identity.provider_id db)) [
      | inr (x, e) ↦
          let same : x ≡ u = ok-injective (rw e at h) in
          let found =
            subst (λ y. find_by_provider_id google identity.provider_id db ≡ some y) same e in
          (
            test-find (has_provider_id google (some identity.provider_id)) db.users u found,
            inl found,
          )
      | inl e ↦ elim (Option-cases (find_by_email identity.email db)) [
        | inr (x, f) ↦ absurd (cc (rw (e, f) at h))
        | inl f ↦ elim (create_user-cases fresh db) [
          | inr (x, g) ↦ absurd (cc (rw (e, f, g) at h))
          | inl (g, _) ↦
              let same : fresh ≡ u = ok-injective (rw (e, f, g) at h) in
              (
                subst (λ y. has_provider_id google (some identity.provider_id) y ≡ true) same
                    ((text_eq_iff identity.provider_id identity.provider_id).1 refl),
                inr (f, sym same),
              )
        ]
      ]
    ]
  where
    fresh : User
    fresh = new_user id now identity.email identity.name none google (some identity.provider_id)

-- No two users share an email.
abbrev pub HasUniqueEmails : Db → Type 0
HasUniqueEmails db = (email : Text) → count (has_email email) db.users ≤ 1

HasUniqueEmails-snoc :
    (u : User) (db : Db)
    → any (has_email u.email) db.users ≡ false
    → HasUniqueEmails db
    → HasUniqueEmails (record db { users = db.users ++ u ∷ [] })
HasUniqueEmails-snoc u db free h email = elim (Bool-cases (text_eq u.email email)) [
  | inl e ↦
      let same : u.email ≡ email = (text_eq_iff u.email email).0 e in
      let none_before : any (has_email email) db.users ≡ false =
        subst (λ t. any (has_email t) db.users ≡ false) same free in
      ground (
        arith,
        e,
        none_before,
        any-eq-count (has_email email) db.users,
        count-append (has_email email) db.users (u ∷ []),
      )
  | inr e ↦ ground (arith, e, h email, count-append (has_email email) db.users (u ∷ []))
]

session_from-users :
    (digest : ℕ → ℕ) (ttl : ℕ) (s : Session) (r : Db × Result User)
    → (session_from digest ttl s r).0.users ≡ r.0.users
unfolding issue_for_new_session
session_from-users digest ttl s (db, err e) = refl
session_from-users digest ttl s (db, ok u) =
    elim (insert_token_cases digest (new_token digest s.draw u.id s.family_id (s.now + ttl)) db) [
      | inl (x, e) ↦ rw e refl
      | inr e ↦ rw e refl
    ]

-- A registration keeps every email unique, whether it succeeds or fails.
pub register-HasUniqueEmails :
    (digest : ℕ → ℕ) (ttl : ℕ) (hash_password : Text → Text) (id : ℕ) (s : Session)
    (email name password : Text) (db : Db)
    → HasUniqueEmails db
    → HasUniqueEmails (register digest ttl hash_password id s email name password db).0
unfolding register
register-HasUniqueEmails digest ttl hash_password id s email name password db h =
    elim (create_user-cases u db) [
      | inl (e, free) ↦ rw e (λ t.
          subst (λ us. count (has_email t) us ≤ 1)
            (sym (session_from-users digest ttl s (record db { users = db.users ++ u ∷ [] }, ok u)))
            (HasUniqueEmails-snoc u db free h t))
      | inr (x, e) ↦ rw e h
    ]
  where
    u : User
    u = new_user id s.now email name (some (hash_password password)) local none
