-- ===== src/Routes.antt =====
-- The routes of apps/gateway/src/orbi_gateway as `create_app` of main.py includes them: the
-- dependencies that a route names, the check of its body, and its handler, in one transaction of
-- database.py. The routes that only read (routes/models.py, routes/usage.py) stand here too.
pub mod Dispatch
pub mod Frames
pub mod Leads
pub mod Steps
use orbi_inference.Base.{ℕ, String, Bool, Option, none, some, List, keep}
use orbi_inference.Base.Text.{Text}
use orbi_inference.Base.Json.{Json}
use orbi_inference.Base.Calendar.{Instant, Date}
use orbi_inference.Errors.{Exception, Result, ok, err, ◌>>=◌, ◌>>◌, or_raise, no_result_found}
use orbi_inference.Entities.{Project, ApiKey, ModelAlias, Worker, ErrorDetail, OrbiRequest, Db}
use orbi_inference.ApiKeys.{PasswordHasher}
use orbi_inference.WorkerTokens.{WorkerJwtService, verify}
use orbi_inference.RateLimit.{Counters}
use orbi_inference.Auth.{
  AuthClock, require_api_key, require_api_scope, require_admin, require_worker_scope,
}
use orbi_inference.Budget.{find_project}
use orbi_inference.Queue.Commit.{Report}
use orbi_inference.Chat.{Clock, ChatCompletionRequest, Answer, accept}
use orbi_inference.WorkerRoutes.{
  WorkerRegisterRequest, WorkerTokenResponse, WorkerHeartbeatRequest, Fresh, register_worker,
  heartbeat, pull_request, submit_result, renew_worker_token, submit_error,
}
use orbi_inference.Admin.{
  ApiKeyCreateRequest, Random, ProjectCreateRequest, ModelAliasCreateRequest, create_api_key,
  create_worker_enrollment, create_project, create_model_alias, revoke_api_key, revoke_worker,
}
use orbi_inference.Schemas.{
  validated, is_valid_chat, is_valid_api_key, is_valid_enrollment, is_valid_registration,
  is_valid_heartbeat, is_valid_error, is_valid_project, is_valid_alias,
}

-- What `lifespan` of main.py puts into `app.state`, with the libraries behind it.
pub record Services (S : Type 0) : Type 0 where
  pub redis : Counters S
  pub api_hasher : PasswordHasher
  pub api_key_pepper : Text
  pub enrollment_hasher : PasswordHasher
  pub enrollment_pepper : Text
  pub jwt : WorkerJwtService
  pub verify_admin : Text → Bool
  pub worker_lease_seconds : ℕ
  pub contained : Json → Json → Bool
  pub dump : ChatCompletionRequest → Json

-- The answer of `get_usage`.
pub record Usage : Type 0 where
  pub project_id : ℕ
  pub daily_date : Date
  pub daily_used : ℕ
  pub daily_limit : ℕ
  pub monthly_month : Date
  pub monthly_used : ℕ
  pub monthly_limit : ℕ
  pub display_prefix : Text
  pub completed_requests : ℕ
  pub completed_tokens : ℕ
  pub daily_requests_used : ℕ
  pub daily_request_limit : ℕ

-- What a route answers with, if it does not raise.
pub data Reply : Type 0 where
  chat : Answer → Reply
  models : List ModelAlias → Reply
  usage : Usage → Reply
  token : WorkerTokenResponse → Reply
  pulled : Option OrbiRequest → Reply
  key_created : ℕ × Text × Text → Reply
  enrollment_created : Text × Instant → Reply
  project_created : ℕ × String × String → Reply
  alias_created : String × String → Reply
  no_content : Reply

-- The requests that clients, workers and the administrator send: the `Authorization` header, the
-- body, and what the handler takes from the clock and at random.
pub data Call : Type 0 where
  post_chat_completions :
      Option Text → AuthClock → ℕ → Clock → ChatCompletionRequest → Option Text → Call
  get_models : Option Text → AuthClock → Call
  get_usage : Option Text → AuthClock → Call
  post_register : Fresh → WorkerRegisterRequest → Call
  post_heartbeat : Option Text → Instant → Instant → WorkerHeartbeatRequest → Call
  get_request : Option Text → Instant → List ℕ → Instant → Call
  post_result : Option Text → Instant → Instant → ℕ → Report → Call
  post_renew : Option Text → Instant → Instant → Text → Call
  post_error : Option Text → Instant → ℕ → Bool → ErrorDetail → Call
  post_api_keys : Option Text → Random → ℕ → Date → ApiKeyCreateRequest → Call
  post_worker_enrollments : Option Text → Random → ℕ → Instant → ℕ → Call
  post_projects : Option Text → ℕ → Date → Date → ProjectCreateRequest → Call
  post_model_aliases : Option Text → ModelAliasCreateRequest → Call
  post_api_key_revoke : Option Text → ℕ → Instant → Call
  post_worker_revoke : Option Text → ℕ → Instant → Call

-- `list_models`
abbrev pub list_models : Db → List ModelAlias
list_models db = keep (λ (a : ModelAlias). a.is_active) db.model_aliases

abbrev pub usage_of_project : ApiKey → Project → Usage
usage_of_project api_key project = record {
  project_id = project.id;
  daily_date = project.daily_usage_date;
  daily_used = project.daily_tokens_used;
  daily_limit = project.daily_token_limit;
  monthly_month = project.monthly_usage_month;
  monthly_used = project.monthly_tokens_used;
  monthly_limit = project.monthly_token_limit;
  display_prefix = api_key.display_prefix;
  completed_requests = api_key.total_requests;
  completed_tokens = api_key.total_tokens;
  daily_requests_used = api_key.daily_requests_used;
  daily_request_limit = api_key.daily_req_limit;
}

-- `get_usage`
unfoldable pub usage_of_key : ApiKey → Db → Result Usage
usage_of_key api_key db = do
  found ← or_raise (find_project api_key.project_id db) no_result_found
  ok (usage_of_project api_key found)

-- An answer in its constructor, with the database.
abbrev pub as_reply : {A : Type 0} → (A → Reply) → A × Db → Result (Reply × Db)
as_reply reply (a, db) = ok (reply a, db)

-- `Database.session`: a transaction is committed, or rolled back if the route raises.
abbrev pub session : Db → Result (Reply × Db) → Result Reply × Db
session db (ok (reply, after)) = (ok reply, after)
session db (err e) = (err e, db)

module _ {S : Type 0} (services : Services S) where
  -- A route behind `require_api_scope`. Redis is not part of the transaction.
  abbrev pub with_key :
      String
      → Option Text
      → AuthClock
      → (ApiKey → Db → Result (Reply × Db))
      → Db
      → S
      → S × Result (Reply × Db)
  with_key scope authorization clock handler db s =
      let (s', admitted) =
        require_api_key services.redis services.api_hasher services.api_key_pepper clock
          authorization db s in
      (
        s',
        admitted >>= λ (found : ApiKey × Db).
            require_api_scope scope found.0 >>= λ api_key. handler api_key found.1,
      )

  -- A route behind `require_worker_scope`.
  abbrev pub with_worker :
      String → Option Text → Instant → (Worker → Result (Reply × Db)) → Db → Result (Reply × Db)
  with_worker scope authorization now handler db =
      require_worker_scope (verify services.jwt now) scope authorization db >>= handler

  -- A route behind `require_admin`.
  abbrev pub with_admin : Option Text → Result (Reply × Db) → Result (Reply × Db)
  with_admin authorization handler = require_admin services.verify_admin authorization >> handler
