-- ===== src/Config/Startup.antt =====
-- What a process that starts can rely on, and which settings keep one from starting.
use internship_project.Base.{
  ℕ, ◌≤◌, ◌≡◌, refl, sym, ap, subst, inl, inr, Bool, true, false, arith, List, [], ◌∷◌, Option,
  none, some, Text, codes, ltb, leb→le, Option-cases, All, Has,
}
use internship_project.Bodies.{Validators}
use internship_project.Config.{
  Environment, EnvironmentVariables, Worker, scheduler, ai, summary, notification, worker_key,
  rate_limit_max_default, rate_limit_duration_default, number_or, plain_to_instance, is_secret,
  at_least, is_port, checks, property_of, errors, Boot, booted, refused, decide, validate_env,
  int_from_env, concurrency_for,
}

none_fail : (cs : List (Text × Bool)) → errors cs ≡ [] → All (λ c. c.1 ≡ true) cs
none_fail [] h = tt
none_fail ((k, true) ∷ cs) h = (refl, none_fail cs h)
none_fail ((k, false) ∷ cs) h = cc

-- The setting of a worker.
abbrev pub concurrency_of : Worker → EnvironmentVariables → Option ℕ
concurrency_of scheduler c = c.scheduler_worker_concurrency
concurrency_of ai c = c.ai_worker_concurrency
concurrency_of summary c = c.summary_worker_concurrency
concurrency_of notification c = c.notification_worker_concurrency

in_range : (o : Option ℕ) → is_port o ≡ true → (n : ℕ) × (o ≡ some n) × (1 ≤ n) × (n ≤ 65535)
in_range none h = cc
in_range (some n) h = (n, refl, ground arith, ground arith)

no_less : (low : ℕ) (o : Option ℕ) → at_least low o ≡ true → (n : ℕ) × (o ≡ some n) × (low ≤ n)
no_less low none h = cc
no_less low (some n) h = (n, refl, leb→le low n h)

settings_of : EnvironmentVariables → Boot → EnvironmentVariables
settings_of c (booted d) = d
settings_of c (refused es) = c

booted-errors :
    (c d : EnvironmentVariables) (es : List Text) → decide c es ≡ booted d → (c ≡ d) × (es ≡ [])
unfolding settings_of
booted-errors c d [] h = (ap (settings_of c) h, refl)
booted-errors c d (e ∷ es) h = cc

module _ (v : Validators) where
  -- A number that passes its rule is the one that intFromEnv() reads.
  read_twice :
      (raw : Environment) (key : Text) (low fallback : ℕ)
      → 1 ≤ low
      → at_least low (number_or v (raw key) fallback) ≡ true
      → number_or v (raw key) fallback ≡ some (int_from_env v raw key fallback)
  unfolding int_from_env
  read_twice raw key low fallback h t = elim (Option-cases (raw key)) [
    | inl e ↦ rw e refl
    | inr (s, e) ↦ elim (Option-cases (v.to_integer s)) [
      | inl f ↦ cc (rw (e, f) at t)
      | inr (n, f) ↦
          let positive : ltb 0 n ≡ true = ground (arith, rw (e, f) at t) in rw (e, f, positive) refl
    ]
  ]

  long_enough :
      (o : Option Text) → is_secret v o ≡ true → (t : Text) × (o ≡ some t) × (32 ≤ v.size t)
  long_enough none h = cc
  long_enough (some []) h = cc
  long_enough (some (c ∷ t)) h = (c ∷ t, refl, leb→le 32 (v.size (c ∷ t)) h)

  -- What holds of the settings of a process that has started.
  pub record IsConfigured (c : EnvironmentVariables) : Type 0 where
    pub port : (n : ℕ) × (c.port ≡ some n) × (1 ≤ n) × (n ≤ 65535)
    pub redis_port : (n : ℕ) × (c.redis_port ≡ some n) × (1 ≤ n) × (n ≤ 65535)
    pub access_secret : (t : Text) × (c.jwt_access_secret ≡ some t) × (32 ≤ v.size t)
    pub refresh_secret : (t : Text) × (c.jwt_refresh_secret ≡ some t) × (32 ≤ v.size t)
    pub concurrency : (w : Worker) → (n : ℕ) × (concurrency_of w c ≡ some n) × (1 ≤ n)
    pub interval : (n : ℕ) × (c.summary_interval_ms ≡ some n) × (1000 ≤ n)
    pub window : (n : ℕ) × (c.summary_window_ms ≡ some n) × (1000 ≤ n)
    pub purge_interval : (n : ℕ) × (c.token_purge_interval_ms ≡ some n) × (1000 ≤ n)
    pub purge_grace : (n : ℕ) × (c.refresh_token_purge_grace_ms ≡ some n) × (0 ≤ n)

  -- What the decorators of the workers read of an environment, against its settings.
  pub record IsReadTwice (raw : Environment) (c : EnvironmentVariables) : Type 0 where
    pub concurrency : (w : Worker) → concurrency_of w c ≡ some (concurrency_for v raw w)
    pub rate_limit_max :
        c.ai_rate_limit_max
        ≡ some (int_from_env v raw (codes "AI_RATE_LIMIT_MAX") rate_limit_max_default)
    pub rate_limit_duration :
        c.ai_rate_limit_duration_ms
        ≡ some (int_from_env v raw (codes "AI_RATE_LIMIT_DURATION_MS") rate_limit_duration_default)

  -- A process that starts has ports from 1 to 65535, intervals and a window of at least a second, two
  -- secrets that class-validator counts at least 32 characters in, and at least one job at a time for
  -- each worker; and the workers' decorators, which read the environment on their own and fall back
  -- silently on a default, read the very numbers of the validated settings.
  pub validate_env-booted :
      (raw : Environment) (c : EnvironmentVariables)
      → validate_env v raw ≡ booted c
      → IsConfigured c × IsReadTwice raw c
  unfolding validate_env concurrency_for
  validate_env-booted raw c h =
      let (same, none_fails) = booted-errors (plain_to_instance v raw) c _ h in
      let passed = none_fail (checks v (plain_to_instance v raw)) none_fails in
      let (
        _,
        (
          port,
          (
            _,
            (
              access_secret,
              (
                refresh_secret,
                (_, (_, (_, (_, (redis_port, (_, (_, (_, (max, (duration, more)))))))))),
              ),
            ),
          ),
        ),
      ) =
        passed in
      let (interval, (window, (purge_interval, (grace, (one, (two, (three, (four, _)))))))) =
        more in
      subst (λ c. IsConfigured c × IsReadTwice raw c) same
        (
          record {
            port = in_range _ port;
            redis_port = in_range _ redis_port;
            access_secret = long_enough _ access_secret;
            refresh_secret = long_enough _ refresh_secret;
            concurrency = λ w.
                elim w
                  as (λ w.
                    (n : ℕ) × (concurrency_of w (plain_to_instance v raw) ≡ some n) × (1 ≤ n)) [
                      | scheduler ↦ no_less 1 _ one
                      | ai ↦ no_less 1 _ two
                      | summary ↦ no_less 1 _ three
                      | notification ↦ no_less 1 _ four
                    ];
            interval = no_less 1000 _ interval;
            window = no_less 1000 _ window;
            purge_interval = no_less 1000 _ purge_interval;
            purge_grace = no_less 0 _ grace;
          },
          record {
            concurrency = λ w.
                elim w
                  as (λ w.
                    concurrency_of w (plain_to_instance v raw) ≡ some (concurrency_for v raw w)) [
                      | scheduler ↦ read_twice raw (worker_key scheduler) 1 _ (omega arith) one
                      | ai ↦ read_twice raw (worker_key ai) 1 _ (omega arith) two
                      | summary ↦ read_twice raw (worker_key summary) 1 _ (omega arith) three
                      | notification ↦
                          read_twice raw (worker_key notification) 1 _ (omega arith) four
                    ];
            rate_limit_max = read_twice raw (codes "AI_RATE_LIMIT_MAX") 1 _ (omega arith) max;
            rate_limit_duration =
                read_twice raw (codes "AI_RATE_LIMIT_DURATION_MS") 1000 _ (omega arith) duration;
          },
        )

-- The variables that have no default.
abbrev pub required : List Text
required =
    codes "DATABASE_URL"
    ∷ codes "JWT_ACCESS_SECRET"
    ∷ codes "JWT_REFRESH_SECRET"
    ∷ codes "GOOGLE_CLIENT_ID"
    ∷ codes "GOOGLE_GENERATIVE_AI_API_KEY"
    ∷ []

reported : (k : Text) (cs : List (Text × Bool)) → Has (k, false) cs → Has k (errors cs)
reported k [] i = absurd i
reported k ((j, b) ∷ cs) (inl e) =
    let failed : b ≡ false = ap (λ (c : Text × Bool). c.1) (sym e) in
    rw failed (inl (ap property_of e))
reported k ((j, true) ∷ cs) (inr i) = reported k cs i
reported k ((j, false) ∷ cs) (inr i) = inr (reported k cs i)

refused-Has :
    (k : Text) (c : EnvironmentVariables) (es : List Text)
    → Has k es
    → (names : List Text) × (decide c es ≡ refused names) × Has k names
refused-Has k c [] i = absurd i
refused-Has k c (e ∷ es) i = (e ∷ es, refl, i)

-- A process without one of the variables that have no default does not start, and its error names
-- each that is missing, all at once.
pub validate_env-refuses :
    (v : Validators) (raw : Environment)
    → All
        (λ key.
          raw key ≡ none
          → (names : List Text) × (validate_env v raw ≡ refused names) × Has key names)
        required
unfolding validate_env
validate_env-refuses v raw =
    let cs = checks v (plain_to_instance v raw) in
    let missing = λ (key : Text) (i : Has (key, false) cs).
      refused-Has key (plain_to_instance v raw) (errors cs) (reported key cs i) in
    (
      (λ e. missing _ (inr (inr (inl (rw e refl))))),
      (
        (λ e. missing _ (inr (inr (inr (inl (rw e refl)))))),
        (
          (λ e. missing _ (inr (inr (inr (inr (inl (rw e refl))))))),
          (
            (λ e. missing _ (inr (inr (inr (inr (inr (inr (inr (inl (rw e refl)))))))))),
            (
              (λ e. missing _ (
                  inr
                    (inr (inr (inr (inr (inr (inr (inr (inr (inr (inr (inl (rw e refl)))))))))))))),
              tt,
            ),
          ),
        ),
      ),
    )
