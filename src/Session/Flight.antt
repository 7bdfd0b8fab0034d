-- ===== src/Session/Flight.antt =====
-- refreshAccessToken(): one refresh call for all the requests that wait, over any course of
-- answers, sign-ins and logouts in a tab.
use internship_project.Base.{
  ℕ, zero, suc, ◌≤◌, ◌≡◌, ◌≢◌, refl, ◌⊎◌, inl, inr, Bool, not, ◌&&◌, arith, List, [], ◌∷◌, ◌++◌,
  Option, none, some, Bool-cases, Option-cases, is_some, All, Distinct,
}
use internship_project.Session.{
  Tab, each_logs_out, clear_tokens, mount, signed_in, on_unauthorized, on_refreshed,
  on_refresh_failed, on_logout,
}

-- The tab, and the refresh tokens that it has posted to /auth/refresh.
pub record World : Type 0 where
  pub tab : Tab
  pub offered : List ℕ

-- The server hands out tokens that the tab has not offered yet.
pub data Step (w : World) : World → Type 0 where
  mounted : Step w (record w { tab = mount w.tab })
  logged_in :
      (access refresh user_id : ℕ)
      → All (λ t. t ≢ refresh) w.offered
      → Step w (record w { tab = signed_in access refresh user_id w.tab })
  unauthorized :
      (retried : Bool)
      → Step w (record {
        tab = (on_unauthorized retried w.tab).0;
        offered = (on_unauthorized retried w.tab).1 ++ w.offered;
      })
  refreshed :
      (access refresh : ℕ)
      → All (λ t. t ≢ refresh) w.offered
      → Step w (record w { tab = on_refreshed access refresh w.tab })
  refresh_failed : Step w (record w { tab = on_refresh_failed w.tab })
  logged_out : (thrown : Bool) → Step w (record w { tab = on_logout thrown w.tab })

pub data Reaches (w : World) : World → Type 0 where
  here : Reaches w w
  next : {v u : World} → Reaches w v → Step v u → Reaches w u

abbrev pub itself : ℕ → ℕ
itself t = t

-- The token at hand has not been offered, or its call is on its way.
abbrev IsUnspent : Option ℕ → Option ℕ → List ℕ → Type 0
IsUnspent none flight offered = Unit {0}
IsUnspent (some t) flight offered = All (λ s. s ≢ t) offered ⊎ (flight ≡ some t)

abbrev pub IsAwaited : Option ℕ → ℕ → Type 0
IsAwaited none waiting = waiting ≡ 0
IsAwaited (some t) waiting = 1 ≤ waiting

pub record IsSound (w : World) : Type 0 where
  pub distinct : Distinct itself w.offered
  pub unspent : IsUnspent w.tab.refresh w.tab.refresh_in_flight w.offered
  pub awaited : IsAwaited w.tab.refresh_in_flight w.tab.waiting

unauthorized-IsSound :
    (retried : Bool) (w : World)
    → IsSound w
    → IsSound (record {
      tab = (on_unauthorized retried w.tab).0;
      offered = (on_unauthorized retried w.tab).1 ++ w.offered;
    })
unfolding on_unauthorized
unauthorized-IsSound retried w s = elim (Bool-cases (not retried && is_some w.tab.refresh)) [
  | inr e ↦ rw e s
  | inl e ↦ elim (Option-cases w.tab.refresh_in_flight) [
    | inr (t, f) ↦
        rw (e, f)
          (record { distinct = s.distinct; unspent = rw f at s.unspent; awaited = omega arith })
    | inl f ↦ elim (Option-cases w.tab.refresh) [
      | inl g ↦ absurd (ground (arith, e, g))
      | inr (t, g) ↦ rw (e, f, g) (posted t (rw (g, f) at s.unspent))
    ]
  ]
]
  where
    posted :
        (t : ℕ)
        → All (λ s. s ≢ t) w.offered ⊎ (none ≡ some t)
        → IsSound (record {
          tab = record w.tab {
            refresh = some t;
            refresh_in_flight = some t;
            waiting = suc w.tab.waiting;
          };
          offered = t ∷ w.offered;
        })
    posted t (inr clash) = cc
    posted t (inl fresh) = record {
      distinct = (fresh, s.distinct);
      unspent = inr refl;
      awaited = omega arith;
    }

each_logs_out-refresh :
    (n : ℕ) (tab : Tab) → tab.refresh ≡ none → (each_logs_out n tab).refresh ≡ none
each_logs_out-refresh zero tab e = e
each_logs_out-refresh (suc n) tab e = e

Step-IsSound : {w v : World} → IsSound w → Step w v → IsSound v
unfolding mount signed_in on_refreshed on_refresh_failed on_logout
Step-IsSound {w} s mounted = elim (Bool-cases (is_some w.tab.access)) [
  | inl e ↦ rw e (record { distinct = s.distinct; unspent = s.unspent; awaited = s.awaited })
  | inr e ↦ rw e (record { distinct = s.distinct; unspent = s.unspent; awaited = s.awaited })
]
Step-IsSound {w} s (logged_in a r u fresh) = record {
  distinct = s.distinct;
  unspent = inl fresh;
  awaited = s.awaited;
}
Step-IsSound {w} s (unauthorized retried) = unauthorized-IsSound retried w s
Step-IsSound {w} s (refreshed a r fresh) = record {
  distinct = s.distinct;
  unspent = inl fresh;
  awaited = refl;
}
Step-IsSound {w} s refresh_failed = record {
  distinct = s.distinct;
  unspent = rw (each_logs_out-refresh w.tab.waiting (clear_tokens w.tab) refl) tt;
  awaited = refl;
}
Step-IsSound {w} s (logged_out thrown) = elim (Bool-cases thrown) [
  | inl e ↦ rw e (record { distinct = s.distinct; unspent = tt; awaited = s.awaited })
  | inr e ↦ rw e (record { distinct = s.distinct; unspent = tt; awaited = s.awaited })
]

Reaches-IsSound : {w v : World} → IsSound w → Reaches w v → IsSound v
Reaches-IsSound s here = s
Reaches-IsSound s (next r t) = Step-IsSound (Reaches-IsSound s r) t

-- A tab with no refresh call on its way and no request waiting.
abbrev pub idle : Tab → World
idle tab = record { tab = record tab { refresh_in_flight = none; waiting = 0 }; offered = [] }

-- Whatever 401s, answers, sign-ins and logouts come in whatever order, a tab never offers one
-- refresh token twice, and a request waits exactly while a refresh call is on its way. The server
-- hands out only tokens that the tab has not offered.
pub Reaches-offers_once :
    (tab : Tab) (w : World)
    → Reaches (idle tab) w
    → Distinct itself w.offered × IsAwaited w.tab.refresh_in_flight w.tab.waiting
Reaches-offers_once tab w r =
    let s =
      Reaches-IsSound (record { distinct = tt; unspent = unspent_of tab.refresh; awaited = refl })
        r in
    (s.distinct, s.awaited)
  where
    unspent_of : (o : Option ℕ) → IsUnspent o none []
    unspent_of none = tt
    unspent_of (some t) = inl tt
