-- ===== src/Session/Tabs.antt =====
-- Two tabs of one browser, which refresh at the same time; and a logout whose call throws.
use internship_project.Base.{
  ℕ, zero, suc, ap, ◌∙◌, ◌≡◌, refl, Bool, true, false, [], ◌∷◌, none, some, find,
}
use internship_project.Http.{Result, ok}
use internship_project.Schema.{RefreshToken, Db}
use internship_project.Tokens.{Claims, Draw, Rotated, has_hash, rotate}
use internship_project.Tokens.Rotation.{IsDead, rotate_twice}
use internship_project.Session.Browser.{
  Browser, reading, in_first, in_second, first_posts, second_posts, both_unauthorized, on_answer,
}
use internship_project.Session.{
  on_refreshed, on_refresh_failed, each_logs_out, clear_tokens, Tab, on_unauthorized, on_logout,
  mount, unauthenticated,
}

-- A refresh that fails takes the tokens away, and signs out a tab with a request that awaits it.
logs_out_tokens :
    (n : ℕ) (tab : Tab)
    → ((each_logs_out n tab).access ≡ tab.access) × ((each_logs_out n tab).refresh ≡ tab.refresh)
logs_out_tokens zero tab = (refl, refl)
logs_out_tokens (suc n) tab = (refl, refl)

failed_tokens :
    (tab : Tab) → ((on_refresh_failed tab).access ≡ none) × ((on_refresh_failed tab).refresh ≡ none)
unfolding on_refresh_failed
failed_tokens tab = logs_out_tokens tab.waiting (clear_tokens tab)

failed_status :
    (tab : Tab) (n : ℕ) → tab.waiting ≡ suc n → (on_refresh_failed tab).status ≡ unauthenticated
unfolding on_refresh_failed
failed_status tab n e = ap (λ w. (each_logs_out w (clear_tokens tab)).status) e

-- Without a token in the localStorage, nothing is posted.
silent : (b : Browser) → b.refresh ≡ none → first_posts b ≡ []
unfolding first_posts on_unauthorized
silent b e = rw e refl

-- Two tabs of one browser, neither of which awaits a refresh, each see a 401 before the other's refresh
-- is answered, and both post the token in the localStorage. Where the server trades it for the first,
-- it takes the second for a replay. When both answers have come, in this order, the localStorage, which
-- held the new pair for a while, has no token left, the second tab is signed out, a later 401 in the
-- first one posts nothing, and every token of the family is revoked, the new one included.
pub rotate-two_tabs :
    (hash : ℕ → ℕ) (sign : Claims → ℕ) (ttl now later : ℕ) (draw again : Draw) (raw : ℕ) (db : Db)
    (r : Rotated) (b : Browser)
    → b.refresh ≡ some raw
    → b.first.refresh_in_flight ≡ none
    → b.second.refresh_in_flight ≡ none
    → (rotate hash ttl now draw raw db).1 ≡ ok r
    → let traded = rotate hash ttl now draw raw db in
      let replayed = rotate hash ttl later again raw traded.0 in
      let between = in_first (on_answer sign traded.1) (both_unauthorized b) in
      let after = in_second (on_answer sign replayed.1) between in
      (first_posts b ≡ raw ∷ [])
      × (second_posts (in_first (λ tab. (on_unauthorized false tab).0) b) ≡ raw ∷ [])
      × (between.refresh ≡ some r.tokens.refresh_token)
      × (after.access ≡ none)
      × (after.refresh ≡ none)
      × (after.second.status ≡ unauthenticated)
      × (first_posts after ≡ [])
      × ((old : RefreshToken) × (find (has_hash hash raw) db.tokens ≡ some old)
          × IsDead old.family_id replayed.0)
unfolding on_unauthorized on_refreshed on_refresh_failed first_posts second_posts both_unauthorized
rotate-two_tabs hash sign ttl now later draw again raw db r b held quiet_a quiet_b traded =
    let (old, found, refused, dead) = rotate_twice hash ttl now later draw again raw db r traded in
    let waits : (both_unauthorized b).second.waiting ≡ suc b.second.waiting =
      rw (held, quiet_a, quiet_b) refl in
    let between =
      in_first (on_answer sign (rotate hash ttl now draw raw db).1) (both_unauthorized b) in
    let asked = reading between between.second in
    let lost = failed_tokens asked in
    let answered = λ (x : Result Rotated). in_second (on_answer sign x) between in
    let no_token = ap (λ x. (answered x).refresh) refused ∙ lost.1 in
    (
      rw (held, quiet_a) refl,
      rw (held, quiet_a, quiet_b) refl,
      rw traded refl,
      ap (λ x. (answered x).access) refused ∙ lost.0,
      no_token,
      ap (λ x. (answered x).second.status) refused ∙ failed_status asked _ waits,
      silent (answered (rotate hash ttl later again raw (rotate hash ttl now draw raw db).0).1)
          no_token,
      (old, found, dead),
    )

-- After a logout whose call throws the tokens are gone, and the tab still shows the user and the
-- status that it had: no 401 of a later request changes anything or posts anything, although a tab
-- that starts on the same localStorage is signed out.
pub on_logout-thrown :
    (tab : Tab) (retried : Bool)
    → let left = on_logout true tab in
      (left.access ≡ none)
      × (left.refresh ≡ none)
      × (left.user ≡ tab.user)
      × (left.status ≡ tab.status)
      × (on_unauthorized retried left ≡ (left, []))
      × ((mount left).status ≡ unauthenticated)
unfolding on_logout on_unauthorized mount
on_logout-thrown tab true = (refl, refl, refl, refl, refl, refl)
on_logout-thrown tab false = (refl, refl, refl, refl, refl, refl)
