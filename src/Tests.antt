-- ===== src/Tests.antt =====
-- A small database of the gateway and a run over it, on which the theorems are tried: a project with
-- a model alias, one chat request, and one worker that answers it.
pub mod Budgets
pub mod Runs
pub mod Servers
pub mod Security
pub mod Enrollment
pub mod Services
pub mod Liveness
pub mod Http
pub mod Logs
pub mod Events
pub mod Migrations
pub mod EnvFiles
pub mod Scripts
use orbi_inference.Base.{ℕ, ◌+◌, ◌≡◌, refl, Bool, true, Option, none, some, List, [], ◌∷◌, ◌++◌}
use orbi_inference.Base.Text.{Text, codes}
use orbi_inference.Base.Json.{Json, obj, end}
use orbi_inference.Base.Calendar.{Instant, Date, seconds}
use orbi_inference.Errors.{Result, ok, err}
use orbi_inference.Entities.{Project, ApiKey, ModelAlias, Worker, ErrorDetail, OrbiRequest, Db}
use orbi_inference.Entities.Status.{WorkerStatus}
use orbi_inference.Queue.Claim.{claim_next, assign}
use orbi_inference.Queue.Commit.{Report, commit_result, complete}
use orbi_inference.Queue.Failure.{record_error}
use orbi_inference.Queue.Recovery.{recover_expired_leases}
use orbi_inference.Chat.{Clock, ChatCompletionRequest, Role, Answer, new_request, accept}

-- 2024-02-29 00:00:00 UTC
abbrev pub noon : Instant
noon = seconds 1_709_164_800

abbrev pub leap_day : Date
leap_day = record { year = 2024; month = 2; day = 29 }

abbrev pub february : Date
february = record { year = 2024; month = 2; day = 1 }

abbrev pub no_json : Json
no_json = obj end

abbrev pub project : Project
project = record {
  id = 1;
  name = "demo";
  slug = "demo";
  owner_id = 9;
  monthly_token_limit = 10_000;
  monthly_tokens_used = 0;
  daily_token_limit = 1000;
  daily_tokens_used = 0;
  daily_usage_date = leap_day;
  monthly_usage_month = february;
  is_active = true;
}

abbrev pub api_key : ApiKey
api_key = record {
  id = 3;
  project_id = 1;
  key_id = codes "abcdefghijkl";
  display_prefix = codes "orbi_live_v1_abcdefghijkl";
  secret_hash = codes "hash";
  environment = codes "live";
  name = none;
  scopes = "chat" ∷ [];
  expires_at = none;
  revoked_at = none;
  last_used_at = none;
  total_requests = 0;
  total_tokens = 0;
  rpm_limit = 60;
  daily_req_limit = 1000;
  daily_requests_used = 0;
  daily_requests_date = leap_day;
}

abbrev pub llama : ModelAlias
llama = record {
  alias = "llama";
  display_name = none;
  model_id = "llama-3-8b";
  is_active = true;
  required_capabilities = no_json;
  supports_streaming = true;
  supports_tools = Bool.false;
  max_context_tokens = 4096;
}

abbrev pub worker : Worker
worker = record {
  id = 5;
  provider_type = "local";
  name = "w";
  status = WorkerStatus.online;
  supported_models = "llama-3-8b" ∷ [];
  capabilities = no_json;
  current_queue_depth = 0;
  token_jti = none;
  last_heartbeat = some noon;
  revoked_at = none;
}

abbrev pub empty_db : Db
empty_db = record {
  projects = project ∷ [];
  api_keys = api_key ∷ [];
  model_aliases = llama ∷ [];
  workers = worker ∷ [];
  enrollment_tokens = [];
  requests = [];
  usage_records = [];
}

abbrev pub payload : ChatCompletionRequest
payload = record {
  model = "llama";
  messages = record { role = Role.user; content = codes "hi" } ∷ [];
  stream = Bool.false;
  max_tokens = 16;
  temperature = codes "0.7";
}

abbrev pub call_key : Text
call_key = codes "idem-key-1"

abbrev pub clock : Clock
clock = record { reserving = noon; expiring = noon; creating = noon }

abbrev pub dump : ChatCompletionRequest → Json
dump _ = no_json

abbrev pub contained : Json → Json → Bool
contained _ _ = true

abbrev pub report : Report
report = record { result = no_json; input_tokens = 2; output_tokens = 9; latency_ms = 40 }

abbrev pub db_of : {A : Type 0} → Result (A × Db) → Db
db_of (ok (a, db)) = db
db_of (err e) = empty_db

abbrev pub queued_db : Db
queued_db = db_of (accept dump 7 clock api_key payload (some call_key) empty_db)

abbrev pub assigned_db : Db
assigned_db = (claim_next contained [] noon worker 120 queued_db).1

abbrev pub completed_db : Db
completed_db = db_of (commit_result 7 worker report noon assigned_db)

abbrev pub broken : ErrorDetail
broken = record { code = "oom"; message = none }

-- The worker gives up on the request.
abbrev pub failed_db : Db
failed_db = db_of (record_error 7 worker Bool.false broken assigned_db)

-- The worker falls silent: its lease is over after two minutes.
abbrev pub late : Instant
late = noon + seconds 121

abbrev pub recovered_db : Db
recovered_db = db_of (recover_expired_leases late assigned_db)

abbrev pub queued_request : OrbiRequest
queued_request =
    new_request dump 7 clock api_key payload (some call_key) llama project leap_day february

abbrev pub assigned_request : OrbiRequest
assigned_request = assign 5 (noon + seconds 120) queued_request

abbrev pub completed_request : OrbiRequest
completed_request = complete no_json 2 9 noon assigned_request
