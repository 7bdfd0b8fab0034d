-- ===== src/Session.antt =====
-- frontend/src/lib: the session of one browser tab. api/session.ts keeps it in the localStorage,
-- api/client.ts refreshes it, api/auth.ts and auth/auth-context.tsx begin and end it. A token is a
-- number; a promise is the state between its call and its answer, so what may come between the two
-- is a step of its own. A tab's first three fields are the
-- localStorage, which the tab alone writes to here, and which all tabs share in Session/Browser.
pub mod Flight
pub mod Browser
pub mod Tabs
use internship_project.Base.{
  ℕ, zero, suc, Bool, true, false, not, ◌&&◌, List, [], ◌∷◌, Option, none, some, if◌then◌else◌,
  is_some,
}

pub data AuthStatus : Type 0 where
  loading authenticated unauthenticated : AuthStatus

-- ACCESS_TOKEN_KEY, REFRESH_TOKEN_KEY and USER_KEY, the context's state, the token that the
-- pending refresh call carries, and the requests that await it.
pub record Tab : Type 0 where
  pub access : Option ℕ
  pub refresh : Option ℕ
  pub stored_user : Option ℕ
  pub user : Option ℕ
  pub status : AuthStatus
  pub refresh_in_flight : Option ℕ
  pub waiting : ℕ

-- tokenStore.set() and tokenStore.clear()
abbrev pub set_tokens : (access refresh : ℕ) → Tab → Tab
set_tokens a r tab = record tab { access = some a; refresh = some r }

abbrev pub clear_tokens : Tab → Tab
clear_tokens tab = record tab { access = none; refresh = none }

-- AuthProvider's mount effect.
unfoldable pub mount : Tab → Tab
mount tab =
    if is_some tab.access
    then record tab { user = tab.stored_user; status = authenticated }
    else record tab { status = unauthenticated }

-- The answer to login, register or googleLogin.
unfoldable pub signed_in : (access refresh user_id : ℕ) → Tab → Tab
signed_in a r user_id tab = record (set_tokens a r tab) {
  user = some user_id;
  stored_user = some user_id;
  status = authenticated;
}

-- The context's reset: onForcedLogout(), and the end of logout().
abbrev pub signed_out : Tab → Tab
signed_out tab = record tab { user = none; stored_user = none; status = unauthenticated }

-- The response interceptor on a 401, as far as the refresh call: the refresh token that is posted,
-- if one is. `retried` is the request's own mark.
abbrev join_flight : Option ℕ → Option ℕ → Tab → Tab × List ℕ
join_flight (some flying) token tab = (record tab { waiting = suc tab.waiting }, [])
join_flight none none tab = (tab, [])
join_flight none (some t) tab =
    (record tab { refresh_in_flight = some t; waiting = suc tab.waiting }, t ∷ [])

unfoldable pub on_unauthorized : (retried : Bool) → Tab → Tab × List ℕ
on_unauthorized retried tab =
    if not retried && is_some tab.refresh
    then join_flight tab.refresh_in_flight tab.refresh tab
    else (tab, [])

-- doRefresh() settles, for all that await it: with new tokens they are sent again, and without
-- each of them dispatches AUTH_LOGOUT_EVENT.
abbrev settled : Tab → Tab
settled tab = record tab { refresh_in_flight = none; waiting = zero }

abbrev each_logs_out : ℕ → Tab → Tab
each_logs_out zero tab = tab
each_logs_out (suc n) tab = signed_out tab

unfoldable pub on_refreshed : (access refresh : ℕ) → Tab → Tab
on_refreshed a r tab = settled (set_tokens a r tab)

unfoldable pub on_refresh_failed : Tab → Tab
on_refresh_failed tab = settled (each_logs_out tab.waiting (clear_tokens tab))

-- logout() of api/auth.ts and of the context: the token that it posts, and then, at the answer,
-- the local teardown, which the context completes only where the call did not throw.
unfoldable pub logout_call : Tab → List ℕ
logout_call tab = elim tab.refresh [ none ↦ [] | some t ↦ t ∷ [] ]

unfoldable pub on_logout : (thrown : Bool) → Tab → Tab
on_logout thrown tab = if thrown then clear_tokens tab else signed_out (clear_tokens tab)
