-- ===== src/Entities.antt =====
-- apps/gateway/src/orbi_gateway/models/entities.py: the rows of the tables. An id (a UUID) is a
-- number, since ids are only compared. Left out: the columns that no code under src/ reads or
-- writes after the insert (`min_vram_gb`, `p95_latency_ms`, `failure_count_1h`, `cost_usd`,
-- `fallback_alias`, the creation stamps other than a request's) and the table `incidents`.
pub mod Status
use orbi_inference.Base.{ℕ, String, Bool, Option, List}
use orbi_inference.Base.Text.{Text}
use orbi_inference.Base.Json.{Json}
use orbi_inference.Base.Calendar.{Instant, Date}
use Status.{RequestStatus, WorkerStatus}

pub record Project : Type 0 where
  pub id : ℕ
  pub name : String
  pub slug : String
  pub owner_id : ℕ
  pub monthly_token_limit : ℕ
  pub monthly_tokens_used : ℕ
  pub daily_token_limit : ℕ
  pub daily_tokens_used : ℕ
  pub daily_usage_date : Date
  pub monthly_usage_month : Date
  pub is_active : Bool

pub record ApiKey : Type 0 where
  pub id : ℕ
  pub project_id : ℕ
  pub key_id : Text
  pub display_prefix : Text
  pub secret_hash : Text
  pub environment : Text
  pub name : Option String
  pub scopes : List String
  pub expires_at : Option Instant
  pub revoked_at : Option Instant
  pub last_used_at : Option Instant
  pub total_requests : ℕ
  pub total_tokens : ℕ
  pub rpm_limit : ℕ
  pub daily_req_limit : ℕ
  pub daily_requests_used : ℕ
  pub daily_requests_date : Date

pub record ModelAlias : Type 0 where
  pub alias : String
  pub display_name : Option String
  pub model_id : String
  pub is_active : Bool
  pub required_capabilities : Json
  pub supports_streaming : Bool
  pub supports_tools : Bool
  pub max_context_tokens : ℕ

pub record Worker : Type 0 where
  pub id : ℕ
  pub provider_type : String
  pub name : String
  pub status : WorkerStatus
  pub supported_models : List String
  pub capabilities : Json
  pub current_queue_depth : ℕ
  pub token_jti : Option Text
  pub last_heartbeat : Option Instant
  pub revoked_at : Option Instant

pub record WorkerEnrollmentToken : Type 0 where
  pub id : ℕ
  pub token_id : Text
  pub secret_hash : Text
  pub expires_at : Instant
  pub consumed_at : Option Instant

-- `error_detail` holds a code and, from a worker's report, a message.
pub record ErrorDetail : Type 0 where
  pub code : String
  pub message : Option String

pub record OrbiRequest : Type 0 where
  pub id : ℕ
  pub idempotency_key : Option Text
  pub project_id : ℕ
  pub api_key_id : ℕ
  pub model_alias : String
  pub resolved_model : String
  pub payload : Json
  pub required_capabilities : Json
  pub priority : ℕ
  pub status : RequestStatus
  pub assigned_to : Option ℕ
  pub lease_expires : Option Instant
  pub retry_count : ℕ
  pub max_retries : ℕ
  pub created_at : Instant
  pub expires_at : Instant
  pub completed_at : Option Instant
  pub result : Option Json
  pub error_detail : Option ErrorDetail
  pub input_tokens : Option ℕ
  pub output_tokens : Option ℕ
  pub reserved_tokens : ℕ
  pub budget_day : Date
  pub budget_month : Date

pub record UsageRecord : Type 0 where
  pub request_id : ℕ
  pub project_id : ℕ
  pub api_key_id : ℕ
  pub worker_id : Option ℕ
  pub provider_type : Option String
  pub model_id : String
  pub input_tokens : ℕ
  pub output_tokens : ℕ
  pub latency_ms : Option ℕ

-- The whole database, as one transaction sees it.
pub record Db : Type 0 where
  pub projects : List Project
  pub api_keys : List ApiKey
  pub model_aliases : List ModelAlias
  pub workers : List Worker
  pub enrollment_tokens : List WorkerEnrollmentToken
  pub requests : List OrbiRequest
  pub usage_records : List UsageRecord
