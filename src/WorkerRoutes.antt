-- ===== src/WorkerRoutes.antt =====
-- apps/gateway/src/orbi_gateway/routes/internal/workers.py: enrollment, heartbeat, and the routes on
-- which a worker takes requests and reports on them.
pub mod Enrollment
pub mod Tokens
use orbi_inference.Base.{
  ℕ, ◌+◌, String, Bool, true, false, not, ◌&&◌, ◌||◌, Option, none, some, List, [], ◌∷◌, ◌++◌,
  if◌then◌else◌, leb, is_none, first_where,
}
use orbi_inference.Base.Table.{modify}
use orbi_inference.Base.Text.{Text}
use orbi_inference.Base.Text.Chars.{text_eq}
use orbi_inference.Base.Json.{Json}
use orbi_inference.Base.Calendar.{Instant}
use orbi_inference.Errors.{Exception, Result, ok, err, ◌>>=◌, ◌>>◌, raise_if, or_raise, orbi}
use orbi_inference.Entities.{Worker, WorkerEnrollmentToken, ErrorDetail, OrbiRequest, Db}
use orbi_inference.Entities.Status.{WorkerStatus, is_online}
use orbi_inference.Queue.Claim.{claim_next}
use orbi_inference.Queue.Commit.{Report, commit_result}
use orbi_inference.Queue.Failure.{record_error}
use orbi_inference.ApiKeys.{PasswordHasher}
use orbi_inference.WorkerTokens.{split_token, parse_and_verify, WorkerJwtService, issue}

pub record WorkerRegisterRequest : Type 0 where
  pub enrollment_token : Text
  pub provider_type : String
  pub name : String
  pub supported_models : List String
  pub capabilities : Json

pub record WorkerTokenResponse : Type 0 where
  pub worker_id : ℕ
  pub access_token : Text
  pub expires_in : ℕ

abbrev pub invalid_enrollment_token : Exception
invalid_enrollment_token = orbi "invalid_enrollment_token" "Enrollment token is invalid." 401

abbrev pub spent_enrollment_token : Exception
spent_enrollment_token =
    orbi "invalid_enrollment_token" "Enrollment token is invalid or expired." 401

abbrev pub has_token_id : Text → WorkerEnrollmentToken → Bool
has_token_id token_id t = text_eq t.token_id token_id

abbrev pub find_token : Text → Db → Option WorkerEnrollmentToken
find_token token_id db = first_where (has_token_id token_id) db.enrollment_tokens

-- The tests of `register_worker` on the stored token.
abbrev pub is_unusable : PasswordHasher → Text → Instant → Text → WorkerEnrollmentToken → Bool
is_unusable hasher pepper now raw_token token =
    not (is_none token.consumed_at)
    || leb token.expires_at now
    || is_none (parse_and_verify hasher pepper raw_token token.secret_hash)

abbrev pub new_worker : ℕ → Text → Instant → WorkerRegisterRequest → Worker
new_worker worker_id jti now payload = record {
  id = worker_id;
  provider_type = payload.provider_type;
  name = payload.name;
  status = WorkerStatus.online;
  supported_models = payload.supported_models;
  capabilities = payload.capabilities;
  current_queue_depth = 0;
  token_jti = some jti;
  last_heartbeat = some now;
  revoked_at = none;
}

abbrev pub consume : Instant → WorkerEnrollmentToken → WorkerEnrollmentToken
consume now token = record token { consumed_at = some now }

abbrev pub token_response : WorkerJwtService → ℕ → Text → Instant → WorkerTokenResponse
token_response jwt worker_id jti now = record {
  worker_id = worker_id;
  access_token = (issue jwt worker_id jti now).0;
  expires_in = jwt.ttl;
}

-- The fresh values of a registration: the worker's id, its token's id, and two readings of the clock.
pub record Fresh : Type 0 where
  pub worker_id : ℕ
  pub jti : Text
  pub now : Instant
  pub issuing : Instant

-- `register_worker`. The row of the token is locked for the rest of the transaction.
unfoldable pub register_worker :
    PasswordHasher
    → Text
    → WorkerJwtService
    → Fresh
    → WorkerRegisterRequest
    → Db
    → Result (WorkerTokenResponse × Db)
register_worker hasher pepper jwt fresh payload db = do
  parts ← or_raise (split_token payload.enrollment_token) invalid_enrollment_token
  token ← or_raise (find_token parts.0 db) spent_enrollment_token
  raise_if (is_unusable hasher pepper fresh.now payload.enrollment_token token)
      spent_enrollment_token
  ok (
    token_response jwt fresh.worker_id fresh.jti fresh.issuing,
    record db {
      workers = db.workers ++ new_worker fresh.worker_id fresh.jti fresh.now payload ∷ [];
      enrollment_tokens =
          modify WorkerEnrollmentToken.id token.id (λ _. consume fresh.now token)
            db.enrollment_tokens;
    },
  )

abbrev pub save_worker : Worker → Db → Db
save_worker worker db = record db { workers = modify Worker.id worker.id (λ _. worker) db.workers }

pub record WorkerHeartbeatRequest : Type 0 where
  pub status : WorkerStatus
  pub current_queue_depth : ℕ
  pub capabilities : Json

-- `heartbeat`
unfoldable pub heartbeat : WorkerHeartbeatRequest → Worker → Instant → Db → Db
heartbeat payload worker now db =
    save_worker
      (record worker {
        status = payload.status;
        current_queue_depth = payload.current_queue_depth;
        capabilities = payload.capabilities;
        last_heartbeat = some now;
      })
      db

-- `pull_request`
unfoldable pub pull_request :
    (Json → Json → Bool) → List ℕ → Instant → Worker → ℕ → Db → Option OrbiRequest × Db
pull_request contained locked now worker worker_lease_seconds db =
    if is_online worker.status
    then claim_next contained locked now worker worker_lease_seconds db
    else (none, db)

-- The answer of a route whose report the queue did not accept; its transaction is rolled back.
abbrev pub unless_accepted : Exception → Bool × Db → Result Db
unless_accepted e (true, db) = ok db
unless_accepted e (false, db) = err e

abbrev pub result_not_accepted : Exception
result_not_accepted =
    orbi "result_not_accepted" "The request is complete, unassigned, or assigned to another worker."
      409

abbrev pub error_not_accepted : Exception
error_not_accepted =
    orbi "error_not_accepted" "The request is complete, unassigned, or assigned to another worker."
      409

-- `submit_result`
unfoldable pub submit_result : ℕ → Worker → Report → Instant → Db → Result Db
submit_result request_id worker report now db = do
  answer ← commit_result request_id worker report now db
  unless_accepted result_not_accepted answer

-- `renew_worker_token`
unfoldable pub renew_worker_token :
    WorkerJwtService → Worker → Text → Instant → Db → WorkerTokenResponse × Db
renew_worker_token jwt worker jti now db =
    (token_response jwt worker.id jti now, save_worker (record worker { token_jti = some jti }) db)

-- `submit_error`
unfoldable pub submit_error : ℕ → Worker → Bool → ErrorDetail → Db → Result Db
submit_error request_id worker retryable detail db = do
  answer ← record_error request_id worker retryable detail db
  unless_accepted error_not_accepted answer
