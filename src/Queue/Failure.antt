-- ===== src/Queue/Failure.antt =====
-- `QueueService.record_error` of apps/gateway/src/orbi_gateway/services/queue.py.
use orbi_inference.Base.{Option, ℕ, ◌+◌, Bool, true, false, ◌&&◌, none, some, ltb, if◌then◌else◌}
use orbi_inference.Errors.{Result, ok, ◌>>=◌}
use orbi_inference.Entities.{Worker, ErrorDetail, OrbiRequest, Db}
use orbi_inference.Entities.Status.{RequestStatus}
use orbi_inference.Budget.{release}
use orbi_inference.Queue.{find_accepting, save_request}

abbrev pub unassign : ErrorDetail → OrbiRequest → OrbiRequest
unassign detail request = record request {
  error_detail = some detail;
  assigned_to = none;
  lease_expires = none;
}

abbrev pub requeue_after_error : ErrorDetail → OrbiRequest → OrbiRequest
requeue_after_error detail request = record (unassign detail request) {
  retry_count = request.retry_count + 1;
  status = RequestStatus.queued;
}

abbrev pub fail_after_error : ErrorDetail → OrbiRequest → OrbiRequest
fail_after_error detail request = record (unassign detail request) {
  status = RequestStatus.failed_final;
}

-- What `record_error` does with the row that it has locked.
abbrev pub error_row : Bool → ErrorDetail → Db → Option OrbiRequest → Result (Bool × Db)
error_row retryable detail db none = ok (false, db)
error_row retryable detail db (some request) =
    if retryable && ltb request.retry_count request.max_retries
    then ok (true, save_request (requeue_after_error detail request) db)
    else (do
      released ←
          release request.project_id request.reserved_tokens request.budget_day request.budget_month
            (save_request (fail_after_error detail request) db)
      ok (true, released))

-- `QueueService.record_error`
unfoldable pub record_error : ℕ → Worker → Bool → ErrorDetail → Db → Result (Bool × Db)
record_error request_id worker retryable detail db =
    error_row retryable detail db (find_accepting request_id worker.id db)
