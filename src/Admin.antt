-- ===== src/Admin.antt =====
-- apps/gateway/src/orbi_gateway/routes/admin.py: what the administrator creates and revokes. The
-- routes run behind `require_admin`.
pub mod Revocation
use orbi_inference.Base.{
  sym, inr, ap, inl, Option-cases, ◌≡◌, ℕ, ◌+◌, String, Bool, true, false, Option, none, some, List,
  [], ◌∷◌, ◌++◌, if◌then◌else◌, is_none, first_where, str_eq,
}
use orbi_inference.Base.Table.{get, modify}
use orbi_inference.Base.Text.{Text, codes}
use orbi_inference.Base.Json.{Json}
use orbi_inference.Base.Calendar.{Instant, Date, seconds}
use orbi_inference.Errors.{
  ok-ne_err, ok-eq, Exception, Result, ok, err, ◌>>=◌, ◌>>◌, raise_if, or_raise, orbi,
}
use orbi_inference.Entities.{Project, ApiKey, ModelAlias, Worker, WorkerEnrollmentToken, Db}
use orbi_inference.Entities.Status.{WorkerStatus}
use orbi_inference.Budget.{find_project}
use orbi_inference.ApiKeys.{PasswordHasher, GeneratedApiKey, generate}
use orbi_inference.WorkerTokens.{GeneratedEnrollmentToken, generate_enrollment}
use orbi_inference.Auth.{find_worker}
use orbi_inference.WorkerRoutes.{save_worker}

pub record ApiKeyCreateRequest : Type 0 where
  pub project_id : ℕ
  pub environment : Text
  pub name : Option String
  pub scopes : List String
  pub expires_at : Option Instant
  pub rpm_limit : ℕ
  pub daily_req_limit : ℕ

-- The random parts of a new credential.
pub record Random : Type 0 where
  pub public_id : Text
  pub secret : Text
  pub salt : Text

-- The row of a new key. `today` is the database's, for the default of the column.
abbrev pub new_api_key : ℕ → Date → ApiKeyCreateRequest → GeneratedApiKey → ApiKey
new_api_key new_id today payload generated = record {
  id = new_id;
  project_id = payload.project_id;
  key_id = generated.key_id;
  display_prefix = generated.display_prefix;
  secret_hash = generated.secret_hash;
  environment = generated.environment;
  name = payload.name;
  scopes = payload.scopes;
  expires_at = payload.expires_at;
  revoked_at = none;
  last_used_at = none;
  total_requests = 0;
  total_tokens = 0;
  rpm_limit = payload.rpm_limit;
  daily_req_limit = payload.daily_req_limit;
  daily_requests_used = 0;
  daily_requests_date = today;
}

-- `create_api_key`; the answer holds the raw key.
unfoldable pub create_api_key :
    PasswordHasher
    → Text
    → Random
    → ℕ
    → Date
    → ApiKeyCreateRequest
    → Db
    → Result ((ℕ × Text × Text) × Db)
create_api_key hasher pepper random new_id today payload db = do
  project ←
      or_raise (find_project payload.project_id db)
        (orbi "project_not_found" "Project does not exist." 404)
  generated ← generate hasher pepper random.public_id random.secret random.salt payload.environment
  ok (
    (new_id, generated.raw_key, generated.display_prefix),
    record db { api_keys = db.api_keys ++ new_api_key new_id today payload generated ∷ [] },
  )

-- `create_worker_enrollment`
unfoldable pub create_worker_enrollment :
    PasswordHasher → Text → Random → ℕ → Instant → ℕ → Db → (Text × Instant) × Db
create_worker_enrollment hasher pepper random new_id now expires_in_seconds db =
    let generated : GeneratedEnrollmentToken =
      generate_enrollment hasher pepper random.public_id random.secret random.salt in
    let expires_at : Instant = now + seconds expires_in_seconds in
    (
      (generated.raw_token, expires_at),
      record db {
        enrollment_tokens =
            db.enrollment_tokens
            ++ record {
              id = new_id;
              token_id = generated.token_id;
              secret_hash = generated.secret_hash;
              expires_at = expires_at;
              consumed_at = none;
            }
              ∷ [];
      },
    )

pub record ProjectCreateRequest : Type 0 where
  pub name : String
  pub slug : String
  pub owner_id : ℕ
  pub daily_token_limit : ℕ
  pub monthly_token_limit : ℕ

-- An insert that a unique column refuses if a row with its value is there.
abbrev pub unless_taken : {A : Type 0} → Option A → Exception → Result (Unit {0})
unless_taken none e = ok tt
unless_taken (some _) e = err e

abbrev pub find_slug : String → Db → Option Project
find_slug slug db = first_where (λ (p : Project). str_eq p.slug slug) db.projects

-- The row of a new project. `today` and `month` are the database's, for the defaults of the columns.
abbrev pub new_project : ℕ → Date → Date → ProjectCreateRequest → Project
new_project new_id today month payload = record {
  id = new_id;
  name = payload.name;
  slug = payload.slug;
  owner_id = payload.owner_id;
  monthly_token_limit = payload.monthly_token_limit;
  monthly_tokens_used = 0;
  daily_token_limit = payload.daily_token_limit;
  daily_tokens_used = 0;
  daily_usage_date = today;
  monthly_usage_month = month;
  is_active = true;
}

-- `create_project`
unfoldable pub create_project :
    ℕ → Date → Date → ProjectCreateRequest → Db → Result ((ℕ × String × String) × Db)
create_project new_id today month payload db = do
  unless_taken (find_slug payload.slug db)
      (orbi "project_conflict" "Project slug already exists." 409)
  ok (
    (new_id, payload.name, payload.slug),
    record db { projects = db.projects ++ new_project new_id today month payload ∷ [] },
  )

-- What a successful creation leaves.
pub create_project-eq_ok :
    (new_id : ℕ) (today month : Date) (payload : ProjectCreateRequest) (db : Db)
    {answer : ℕ × String × String} {db' : Db}
    → create_project new_id today month payload db ≡ ok (answer, db')
    → (find_slug payload.slug db ≡ none)
      × (record db { projects = db.projects ++ new_project new_id today month payload ∷ [] } ≡ db')
unfolding create_project
create_project-eq_ok new_id today month payload db e =
    elim (Option-cases (find_slug payload.slug db)) [
      | inl free ↦ (free, ap (λ x. x.1) (ok-eq (rw free at e)))
      | inr (p, taken) ↦ absurd (ok-ne_err (sym (rw taken at e)))
    ]

pub record ModelAliasCreateRequest : Type 0 where
  pub alias : String
  pub display_name : Option String
  pub model_id : String
  pub required_capabilities : Json
  pub supports_streaming : Bool
  pub supports_tools : Bool
  pub max_context_tokens : ℕ

-- `create_model_alias`; the alias is the primary key.
unfoldable pub create_model_alias : ModelAliasCreateRequest → Db → Result ((String × String) × Db)
create_model_alias payload db = do
  unless_taken (first_where (λ (a : ModelAlias). str_eq a.alias payload.alias) db.model_aliases)
      (orbi "model_alias_conflict" "Model alias already exists." 409)
  ok (
    (payload.alias, payload.model_id),
    record db {
      model_aliases =
          db.model_aliases
          ++ record {
            alias = payload.alias;
            display_name = payload.display_name;
            model_id = payload.model_id;
            is_active = true;
            required_capabilities = payload.required_capabilities;
            supports_streaming = payload.supports_streaming;
            supports_tools = payload.supports_tools;
            max_context_tokens = payload.max_context_tokens;
          }
            ∷ [];
    },
  )

-- The time of the first revocation stays.
abbrev pub or_now : Option Instant → Instant → Instant
or_now none now = now
or_now (some earlier) now = earlier

abbrev pub revoke_key : Instant → ApiKey → ApiKey
revoke_key now key = record key { revoked_at = some (or_now key.revoked_at now) }

-- `revoke_api_key`
unfoldable pub revoke_api_key : ℕ → Instant → Db → Result Db
revoke_api_key api_key_id now db = do
  key ←
      or_raise (get ApiKey.id api_key_id db.api_keys)
        (orbi "api_key_not_found" "API key does not exist." 404)
  ok (record db { api_keys = modify ApiKey.id api_key_id (λ _. revoke_key now key) db.api_keys })

abbrev pub suspend : Instant → Worker → Worker
suspend now worker = record worker {
  revoked_at = some (or_now worker.revoked_at now);
  status = WorkerStatus.suspended;
  token_jti = none;
}

-- `revoke_worker`
unfoldable pub revoke_worker : ℕ → Instant → Db → Result Db
revoke_worker worker_id now db = do
  worker ←
      or_raise (find_worker worker_id db) (orbi "worker_not_found" "Worker does not exist." 404)
  ok (save_worker (suspend now worker) db)
