-- ===== src/Config.antt =====
-- backend/src/config/env.validation.ts, which reads all settings when the process starts, and
-- intFromEnv() of queues/queue.constants.ts, which reads some of them again before that. The
-- environment gives each variable a text or nothing; class-validator and Number() are a parameter, and
-- a number is `none` where it is no natural number, which every rule refuses.
pub mod Startup
use internship_project.Base.{
  ℕ, ◌+◌, Bool, true, false, not, ◌&&◌, ◌||◌, List, [], ◌∷◌, map, Option, none, some, Text, codes,
  text_eq, leb, ltb, if◌then◌else◌, is_some, or_default, keep,
}
use internship_project.Bodies.{Validators}

abbrev pub Environment : Type 0
Environment = Text → Option Text

pub record EnvironmentVariables : Type 0 where
  pub node_env : Option Text
  pub port : Option ℕ
  pub database_url : Option Text
  pub jwt_access_secret : Option Text
  pub jwt_refresh_secret : Option Text
  pub jwt_access_expires_in : Option Text
  pub jwt_refresh_expires_in : Option Text
  pub google_client_id : Option Text
  pub redis_host : Option Text
  pub redis_port : Option ℕ
  pub redis_password : Option Text
  pub socket_cors_origin : Option Text
  pub google_generative_ai_api_key : Option Text
  pub gemini_model : Option Text
  pub ai_rate_limit_max : Option ℕ
  pub ai_rate_limit_duration_ms : Option ℕ
  pub summary_interval_ms : Option ℕ
  pub summary_window_ms : Option ℕ
  pub token_purge_interval_ms : Option ℕ
  pub refresh_token_purge_grace_ms : Option ℕ
  pub scheduler_worker_concurrency : Option ℕ
  pub ai_worker_concurrency : Option ℕ
  pub summary_worker_concurrency : Option ℕ
  pub notification_worker_concurrency : Option ℕ
  pub supabase_url : Option Text
  pub supabase_service_key : Option Text
  pub supabase_bucket : Option Text

-- WORKER_CONCURRENCY and AI_RATE_LIMIT: a key and its default.
pub data Worker : Type 0 where
  scheduler ai summary notification : Worker

abbrev pub worker_key : Worker → Text
worker_key scheduler = codes "SCHEDULER_WORKER_CONCURRENCY"
worker_key ai = codes "AI_WORKER_CONCURRENCY"
worker_key summary = codes "SUMMARY_WORKER_CONCURRENCY"
worker_key notification = codes "NOTIFICATION_WORKER_CONCURRENCY"

abbrev pub worker_default : Worker → ℕ
worker_default scheduler = 1
worker_default ai = 10
worker_default summary = 5
worker_default notification = 3

abbrev pub rate_limit_max_default : ℕ
rate_limit_max_default = 10

abbrev pub rate_limit_duration_default : ℕ
rate_limit_duration_default = 60_000

abbrev pub purge_grace_default : ℕ
purge_grace_default = 604_800_000

-- What a start comes to: the settings, or the names of the properties that fail.
pub data Boot : Type 0 where
  booted : EnvironmentVariables → Boot
  refused : List Text → Boot

-- A property with an initialiser keeps it where the variable is absent.
abbrev pub text_or : Option Text → Text → Option Text
text_or o default = some (or_default o default)

-- @IsEnum(NodeEnv); @IsString() @IsNotEmpty(), with @MinLength(32) or not; @IsOptional() lets any
-- text and nothing pass; @IsInt() @Min(low), with @Max(high) or not.
abbrev is_node_env : Option Text → Bool
is_node_env none = false
is_node_env (some t) =
    text_eq t (codes "development") || (text_eq t (codes "production") || text_eq t (codes "test"))

abbrev pub is_filled : Option Text → Bool
is_filled none = false
is_filled (some []) = false
is_filled (some (c ∷ t)) = true

abbrev pub at_least : (low : ℕ) → Option ℕ → Bool
at_least low none = false
at_least low (some n) = leb low n

abbrev pub is_port : Option ℕ → Bool
is_port o = at_least 1 o && leb (or_default o 0) 65535

-- validateSync(): the properties that fail.
abbrev pub fails : Text × Bool → Bool
fails check = not check.1

abbrev pub property_of : Text × Bool → Text
property_of check = check.0

abbrev pub errors : List (Text × Bool) → List Text
errors all_checks = map property_of (keep fails all_checks)

abbrev pub decide : EnvironmentVariables → List Text → Boot
decide c [] = booted c
decide c (property ∷ properties) = refused (property ∷ properties)

abbrev positive_or : Option ℕ → ℕ → ℕ
positive_or none fallback = fallback
positive_or (some n) fallback = if ltb 0 n then n else fallback

module _ (v : Validators) where
  abbrev pub number_or : Option Text → ℕ → Option ℕ
  number_or none default = some default
  number_or (some t) default = v.to_integer t

  -- plainToInstance()
  unfoldable pub plain_to_instance : Environment → EnvironmentVariables
  plain_to_instance raw = record {
    node_env = text_or (raw (codes "NODE_ENV")) (codes "development");
    port = number_or (raw (codes "PORT")) 3000;
    database_url = raw (codes "DATABASE_URL");
    jwt_access_secret = raw (codes "JWT_ACCESS_SECRET");
    jwt_refresh_secret = raw (codes "JWT_REFRESH_SECRET");
    jwt_access_expires_in = text_or (raw (codes "JWT_ACCESS_EXPIRES_IN")) (codes "15m");
    jwt_refresh_expires_in = text_or (raw (codes "JWT_REFRESH_EXPIRES_IN")) (codes "7d");
    google_client_id = raw (codes "GOOGLE_CLIENT_ID");
    redis_host = text_or (raw (codes "REDIS_HOST")) (codes "localhost");
    redis_port = number_or (raw (codes "REDIS_PORT")) 6379;
    redis_password = raw (codes "REDIS_PASSWORD");
    socket_cors_origin = text_or (raw (codes "SOCKET_CORS_ORIGIN")) (codes "http://localhost:3001");
    google_generative_ai_api_key = raw (codes "GOOGLE_GENERATIVE_AI_API_KEY");
    gemini_model = text_or (raw (codes "GEMINI_MODEL")) (codes "gemini-3.5-flash");
    ai_rate_limit_max = number_or (raw (codes "AI_RATE_LIMIT_MAX")) rate_limit_max_default;
    ai_rate_limit_duration_ms =
        number_or (raw (codes "AI_RATE_LIMIT_DURATION_MS")) rate_limit_duration_default;
    summary_interval_ms = number_or (raw (codes "SUMMARY_INTERVAL_MS")) 86_400_000;
    summary_window_ms = number_or (raw (codes "SUMMARY_WINDOW_MS")) 86_400_000;
    token_purge_interval_ms = number_or (raw (codes "TOKEN_PURGE_INTERVAL_MS")) 86_400_000;
    refresh_token_purge_grace_ms =
        number_or (raw (codes "REFRESH_TOKEN_PURGE_GRACE_MS")) purge_grace_default;
    scheduler_worker_concurrency =
        number_or (raw (codes "SCHEDULER_WORKER_CONCURRENCY")) (worker_default scheduler);
    ai_worker_concurrency = number_or (raw (codes "AI_WORKER_CONCURRENCY")) (worker_default ai);
    summary_worker_concurrency =
        number_or (raw (codes "SUMMARY_WORKER_CONCURRENCY")) (worker_default summary);
    notification_worker_concurrency =
        number_or (raw (codes "NOTIFICATION_WORKER_CONCURRENCY")) (worker_default notification);
    supabase_url = raw (codes "SUPABASE_URL");
    supabase_service_key = raw (codes "SUPABASE_SERVICE_KEY");
    supabase_bucket = text_or (raw (codes "SUPABASE_BUCKET")) (codes "chat-uploads");
  }

  abbrev pub is_secret : Option Text → Bool
  is_secret o = is_filled o && leb 32 (v.size (or_default o []))

  -- Each property that has a rule which can fail, and whether its value passes.
  abbrev pub checks : EnvironmentVariables → List (Text × Bool)
  checks c =
      (codes "NODE_ENV", is_node_env c.node_env)
      ∷ (codes "PORT", is_port c.port)
      ∷ (codes "DATABASE_URL", is_filled c.database_url)
      ∷ (codes "JWT_ACCESS_SECRET", is_secret c.jwt_access_secret)
      ∷ (codes "JWT_REFRESH_SECRET", is_secret c.jwt_refresh_secret)
      ∷ (codes "JWT_ACCESS_EXPIRES_IN", is_filled c.jwt_access_expires_in)
      ∷ (codes "JWT_REFRESH_EXPIRES_IN", is_filled c.jwt_refresh_expires_in)
      ∷ (codes "GOOGLE_CLIENT_ID", is_filled c.google_client_id)
      ∷ (codes "REDIS_HOST", is_filled c.redis_host)
      ∷ (codes "REDIS_PORT", is_port c.redis_port)
      ∷ (codes "SOCKET_CORS_ORIGIN", is_filled c.socket_cors_origin)
      ∷ (codes "GOOGLE_GENERATIVE_AI_API_KEY", is_filled c.google_generative_ai_api_key)
      ∷ (codes "GEMINI_MODEL", is_filled c.gemini_model)
      ∷ (codes "AI_RATE_LIMIT_MAX", at_least 1 c.ai_rate_limit_max)
      ∷ (codes "AI_RATE_LIMIT_DURATION_MS", at_least 1000 c.ai_rate_limit_duration_ms)
      ∷ (codes "SUMMARY_INTERVAL_MS", at_least 1000 c.summary_interval_ms)
      ∷ (codes "SUMMARY_WINDOW_MS", at_least 1000 c.summary_window_ms)
      ∷ (codes "TOKEN_PURGE_INTERVAL_MS", at_least 1000 c.token_purge_interval_ms)
      ∷ (codes "REFRESH_TOKEN_PURGE_GRACE_MS", at_least 0 c.refresh_token_purge_grace_ms)
      ∷ (codes "SCHEDULER_WORKER_CONCURRENCY", at_least 1 c.scheduler_worker_concurrency)
      ∷ (codes "AI_WORKER_CONCURRENCY", at_least 1 c.ai_worker_concurrency)
      ∷ (codes "SUMMARY_WORKER_CONCURRENCY", at_least 1 c.summary_worker_concurrency)
      ∷ (codes "NOTIFICATION_WORKER_CONCURRENCY", at_least 1 c.notification_worker_concurrency)
      ∷ (codes "SUPABASE_BUCKET", is_some c.supabase_bucket)
      ∷ []

  -- validateEnv()
  unfoldable pub validate_env : Environment → Boot
  unfolding plain_to_instance
  validate_env raw = decide (plain_to_instance raw) (errors (checks (plain_to_instance raw)))

  -- intFromEnv() and concurrencyFor()
  abbrev number_of : Option Text → Option ℕ
  number_of none = none
  number_of (some t) = v.to_integer t

  unfoldable pub int_from_env : Environment → Text → (fallback : ℕ) → ℕ
  int_from_env raw key fallback = positive_or (number_of (raw key)) fallback

  unfoldable pub concurrency_for : Environment → Worker → ℕ
  unfolding int_from_env
  concurrency_for raw w = int_from_env raw (worker_key w) (worker_default w)
