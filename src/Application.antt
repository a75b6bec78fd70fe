-- ===== src/Application.antt =====
-- apps/gateway/src/orbi_gateway/main.py: what `create_app` builds from the settings, and the
-- maintenance loop that runs beside the routes.
pub mod Startup
pub mod Events
use orbi_inference.Base.{ℕ, String, Bool, true, List, [], ◌∷◌, ltb}
use orbi_inference.Base.Text.{Text}
use orbi_inference.Base.Json.{Json}
use orbi_inference.Base.Calendar.{Instant}
use orbi_inference.Errors.{Result, ok, err, value_error, ◌>>=◌, ◌>>◌, raise_if}
use orbi_inference.Entities.{Db}
use orbi_inference.Queue.Recovery.{recover_expired_leases}
use orbi_inference.ApiKeys.{PasswordHasher, peppered}
use orbi_inference.WorkerTokens.{Jwt}
use orbi_inference.RateLimit.{Counters}
use orbi_inference.WorkerHealth.{heartbeat_timeout, mark_stale_workers_offline}
use orbi_inference.Chat.{ChatCompletionRequest, utf8_length}
use orbi_inference.Middleware.{Header, Running, Bytes, AsgiApp, security_middleware}
use orbi_inference.Config.{Settings}
use orbi_inference.Routes.{Services, Reply, no_content, session, Call}
use orbi_inference.Routes.Dispatch.{serve}

-- `APIKeyService.__init__`: the pepper that it keeps.
abbrev pub api_key_service : Text → Result Text
api_key_service pepper = do
  raise_if (ltb (utf8_length pepper) 32)
      (value_error "API key pepper must contain at least 32 bytes")
  ok pepper

-- `WorkerEnrollmentService.__init__`
abbrev pub worker_enrollment_service : Text → Result Text
worker_enrollment_service pepper = do
  raise_if (ltb (utf8_length pepper) 32)
      (value_error "worker enrollment pepper must contain at least 32 bytes")
  ok pepper

-- `verify_admin`
abbrev pub verify_admin : PasswordHasher → Settings → Text → Bool
verify_admin hasher settings token =
    hasher.verify settings.admin_token_hash (peppered settings.admin_token_pepper token)

-- The libraries that the services stand on. Those which set something up can refuse its arguments:
-- the two of logging the level, before it is put in capitals, the engine and the Redis client their
-- addresses, and the files their paths. PyJWT takes the two keys.
pub record Libraries (S : Type 0) : Type 0 where
  pub redis : Counters S
  pub api_hasher : PasswordHasher
  pub enrollment_hasher : PasswordHasher
  pub admin_hasher : PasswordHasher
  pub jwt : Text → Text → Jwt
  pub basic_config : Text → Result (Unit {0})
  pub structlog_configure : Text → Result (Unit {0})
  pub create_async_engine : Text → Result (Unit {0})
  pub redis_from_url : Text → Result (Unit {0})
  pub read_text : Text → Result Text
  pub contained : Json → Json → Bool
  pub dump : ChatCompletionRequest → Json
  pub json_response : ℕ → String → String → List Header → Running

-- `WorkerHealthService()`
abbrev pub default_heartbeat_timeout : ℕ
default_heartbeat_timeout = 90

-- `app.state`, with the two peppers that the constructors have checked, and PyJWT with the keys.
abbrev pub app_state : {S : Type 0} → Libraries S → Settings → Text → Text → Jwt → Services S
app_state libraries settings api_key_pepper enrollment_pepper jwt = record {
  redis = libraries.redis;
  api_hasher = libraries.api_hasher;
  api_key_pepper = api_key_pepper;
  enrollment_hasher = libraries.enrollment_hasher;
  enrollment_pepper = enrollment_pepper;
  jwt = record {
    jwt = jwt;
    issuer = settings.jwt_issuer;
    audience = settings.jwt_audience;
    ttl = settings.worker_token_ttl_seconds;
  };
  verify_admin = verify_admin libraries.admin_hasher settings;
  worker_lease_seconds = settings.worker_lease_seconds;
  contained = libraries.contained;
  dump = libraries.dump;
}

-- `lifespan`: the services that the routes find in `app.state`, with the timeout of heartbeats.
unfoldable pub lifespan : {S : Type 0} → Libraries S → Settings → Result (Services S × ℕ)
unfolding heartbeat_timeout
lifespan libraries settings = do
  libraries.create_async_engine settings.database_url
  libraries.redis_from_url settings.redis_url
  api_key_pepper ← api_key_service settings.api_key_pepper
  enrollment_pepper ← worker_enrollment_service settings.worker_enrollment_pepper
  private_key ← libraries.read_text settings.jwt_private_key_path
  public_key ← libraries.read_text settings.jwt_public_key_path
  timeout ← heartbeat_timeout default_heartbeat_timeout
  ok (
    app_state libraries settings api_key_pepper enrollment_pepper
        (libraries.jwt private_key public_key),
    timeout,
  )

-- `configure_logging` of logging.py.
abbrev pub configure_logging : {S : Type 0} → Libraries S → Text → Result (Unit {0})
configure_logging libraries level =
    libraries.basic_config level >> libraries.structlog_configure level

-- `create_app`: the application of FastAPI behind the middleware.
unfoldable pub create_app :
    {S : Type 0} → Libraries S → Settings → AsgiApp → Result (Bytes → AsgiApp)
create_app libraries settings app =
    configure_logging libraries settings.log_level
    >> security_middleware libraries.json_response app settings.max_request_body_bytes

-- The second update of a cycle, on what the first has left.
abbrev pub after_recovery : ℕ → Instant → ℕ × Db → Result (Reply × Db)
after_recovery timeout marking (count, recovered) =
    ok (no_content, (mark_stale_workers_offline timeout marking recovered).1)

-- A cycle of `_lease_recovery_loop`, at the times of its two updates. What raises is logged, and
-- its transaction rolled back.
unfoldable pub maintain : ℕ → Instant → Instant → Db → Db
maintain timeout recovering marking db =
    (session db (recover_expired_leases recovering db >>= after_recovery timeout marking)).1

-- What happens to the gateway: a request, or a cycle of the maintenance.
pub data Event : Type 0 where
  request : Call → Event
  maintenance : Instant → Instant → Event

module _ {S : Type 0} (services : Services S) (timeout : ℕ) where
  abbrev pub happen : Event → Db × S → Db × S
  happen (request call) (db, s) = let (_, after, s') = serve services call db s in (after, s')
  happen (maintenance recovering marking) (db, s) = (maintain timeout recovering marking db, s)

  -- The database and Redis after a sequence of events, one after another.
  abbrev pub run_events : List Event → Db × S → Db × S
  run_events [] state = state
  run_events (event ∷ events) state = run_events events (happen event state)
