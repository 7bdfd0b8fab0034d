-- ===== src/Session/Browser.antt =====
-- The tabs of one browser: api/session.ts keeps the tokens in the localStorage, which all tabs share,
-- while the module of api/client.ts, and so its pending refresh, is one for each tab.
use internship_project.Base.{ℕ, false, List, Option}
use internship_project.Http.{Result, ok, err}
use internship_project.Tokens.{Claims, Rotated}
use internship_project.Session.{Tab, on_unauthorized, on_refreshed, on_refresh_failed}

-- The localStorage, and two tabs.
pub record Browser : Type 0 where
  pub access : Option ℕ
  pub refresh : Option ℕ
  pub stored_user : Option ℕ
  pub first : Tab
  pub second : Tab

-- A tab as it reads the localStorage, and the localStorage after it has written.
abbrev pub reading : Browser → Tab → Tab
reading b tab = record tab { access = b.access; refresh = b.refresh; stored_user = b.stored_user }

abbrev pub written : Tab → Browser → Browser
written tab b = record b {
  access = tab.access;
  refresh = tab.refresh;
  stored_user = tab.stored_user;
}

abbrev pub in_first : (Tab → Tab) → Browser → Browser
in_first f b = let tab = f (reading b b.first) in record (written tab b) { first = tab }

abbrev pub in_second : (Tab → Tab) → Browser → Browser
in_second f b = let tab = f (reading b b.second) in record (written tab b) { second = tab }

-- What each of the tabs posts when a request of it is answered with 401.
unfoldable pub first_posts : Browser → List ℕ
first_posts b = (on_unauthorized false (reading b b.first)).1

unfoldable pub second_posts : Browser → List ℕ
second_posts b = (on_unauthorized false (reading b b.second)).1

-- Both tabs see a 401.
unfoldable pub both_unauthorized : Browser → Browser
both_unauthorized b =
    in_second (λ tab. (on_unauthorized false tab).0)
      (in_first (λ tab. (on_unauthorized false tab).0) b)

-- The answer of /auth/refresh, as the tab that asked takes it; signing a token is the library's.
abbrev pub on_answer : (sign : Claims → ℕ) → Result Rotated → Tab → Tab
on_answer sign (ok r) tab = on_refreshed (sign r.tokens.access_token) r.tokens.refresh_token tab
on_answer sign (err e) tab = on_refresh_failed tab
