-- ===== src/Queue.antt =====
-- apps/gateway/src/orbi_gateway/services/queue.py: what the methods of `QueueService` share. Each
-- method runs inside one database transaction, and the current time is an argument.
pub mod Claim
pub mod Commit
pub mod Failure
pub mod Recovery
pub mod Rows
pub mod Selection
pub mod Lifecycle
pub mod Shape
pub mod Usage
pub mod Totality
use orbi_inference.Base.{
  ℕ, suc, ◌+◌, String, Bool, true, false, ◌&&◌, ◌||◌, Option, none, some, List, [], ◌∷◌, ◌++◌, ltb,
  leb, ◌==◌, if◌then◌else◌, is_none, sql_eq, is_in, is_in_ids, keep, not, length,
}
use orbi_inference.Base.Table.{get, modify, update_where}
use orbi_inference.Base.Json.{Json}
use orbi_inference.Base.Calendar.{Instant, Date, seconds}
use orbi_inference.Errors.{Result, ok, err, ◌>>=◌}
use orbi_inference.Entities.{ApiKey, Worker, ErrorDetail, OrbiRequest, UsageRecord, Db}
use orbi_inference.Entities.Status.{RequestStatus, is_in_progress, is_queued}
use orbi_inference.Budget.{reconcile, release}

abbrev pub find_request : ℕ → Db → Option OrbiRequest
find_request request_id db = get OrbiRequest.id request_id db.requests

-- The conditions, besides the id, under which a worker's report on a request is accepted.
abbrev pub accepts : ℕ → OrbiRequest → Bool
accepts worker_id request =
    sql_eq request.assigned_to worker_id && is_none request.result && is_in_progress request.status

-- The row that `where(id == request_id, ...)` selects.
abbrev pub if_accepting : ℕ → Option OrbiRequest → Option OrbiRequest
if_accepting worker_id none = none
if_accepting worker_id (some request) = if accepts worker_id request then some request else none

abbrev pub find_accepting : ℕ → ℕ → Db → Option OrbiRequest
find_accepting request_id worker_id db = if_accepting worker_id (find_request request_id db)

abbrev pub save_request : OrbiRequest → Db → Db
save_request request db = record db {
  requests = modify OrbiRequest.id request.id (λ _. request) db.requests;
}
