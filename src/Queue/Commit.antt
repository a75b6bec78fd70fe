-- ===== src/Queue/Commit.antt =====
-- `QueueService.commit_result` of apps/gateway/src/orbi_gateway/services/queue.py.
use orbi_inference.Base.{
  Option, ℕ, ◌+◌, ◌≡◌, ◌∙◌, Bool, ◌&&◌, not, ltb, true, false, none, some, [], ◌∷◌, ◌++◌,
}
use orbi_inference.Base.Table.{modify}
use orbi_inference.Base.Json.{Json}
use orbi_inference.Base.Calendar.{Instant}
use orbi_inference.Errors.{Result, ok, ◌>>=◌, ◌>>◌, raise_if, data_error, >>=-eq-ok}
use orbi_inference.Entities.{ApiKey, Worker, OrbiRequest, UsageRecord, Db}
use orbi_inference.Entities.Status.{RequestStatus}
use orbi_inference.Budget.{reconcile}
use orbi_inference.Queue.{find_accepting}

abbrev pub complete : Json → ℕ → ℕ → Instant → OrbiRequest → OrbiRequest
complete result input_tokens output_tokens now request = record request {
  status = RequestStatus.completed;
  result = some result;
  input_tokens = some input_tokens;
  output_tokens = some output_tokens;
  completed_at = some now;
  lease_expires = none;
}

abbrev pub count_usage : ℕ → ApiKey → ApiKey
count_usage total_tokens key = record key {
  total_requests = key.total_requests + 1;
  total_tokens = key.total_tokens + total_tokens;
}

-- What a worker reports of a finished request.
pub record Report : Type 0 where
  pub result : Json
  pub input_tokens : ℕ
  pub output_tokens : ℕ
  pub latency_ms : ℕ

abbrev pub total_tokens : Report → ℕ
total_tokens report = report.input_tokens + report.output_tokens

abbrev pub usage_of : Worker → Report → OrbiRequest → UsageRecord
usage_of worker report row = record {
  request_id = row.id;
  project_id = row.project_id;
  api_key_id = row.api_key_id;
  worker_id = some worker.id;
  provider_type = some worker.provider_type;
  model_id = row.resolved_model;
  input_tokens = report.input_tokens;
  output_tokens = report.output_tokens;
  latency_ms = some report.latency_ms;
}

-- The update of the request's row alone.
abbrev pub store_result : Instant → Report → OrbiRequest → Db → Db
store_result now report row db = record db {
  requests =
      modify OrbiRequest.id row.id
        (complete report.result report.input_tokens report.output_tokens now) db.requests;
}

-- The update of the key's totals, and the usage record.
abbrev pub account : Worker → Report → OrbiRequest → Db → Db
account worker report row db = record db {
  api_keys = modify ApiKey.id row.api_key_id (count_usage (total_tokens report)) db.api_keys;
  usage_records = db.usage_records ++ usage_of worker report row ∷ [];
}

-- What `commit_result` does with the row that its update returned.
abbrev pub commit_row : Worker → Report → Instant → Db → Option OrbiRequest → Result (Bool × Db)
commit_row worker report now db none = ok (false, db)
commit_row worker report now db (some row) = do
  reconciled ←
      reconcile row.project_id row.reserved_tokens (total_tokens report) row.budget_day
        row.budget_month (store_result now report row db)
  ok (true, account worker report row reconciled)

-- A column of type `Integer` has 32 bits.
abbrev pub fits_integer : ℕ → Bool
fits_integer n = ltb n 2_147_483_648

-- The values of the update can be sent.
abbrev pub can_update : Report → Bool
can_update report = fits_integer report.input_tokens && fits_integer report.output_tokens

-- `QueueService.commit_result`, to which the flush of the usage record is added: the driver refuses
-- numbers that do not fit their columns, whether or not the update would find a row.
unfoldable pub commit_result : ℕ → Worker → Report → Instant → Db → Result (Bool × Db)
commit_result request_id worker report now db =
    raise_if (not (can_update report)) data_error
    >> (commit_row worker report now db (find_accepting request_id worker.id db) >>= λ answer.
        raise_if (answer.0 && not (fits_integer report.latency_ms)) data_error >> ok answer)

pub commit_row-committed :
    (request_id : ℕ) (worker : Worker) (report : Report) (now : Instant) (db : Db) {done : Bool}
    {db' : Db}
    → commit_result request_id worker report now db ≡ ok (done, db')
    → commit_row worker report now db (find_accepting request_id worker.id db) ≡ ok (done, db')
unfolding commit_result
commit_row-committed request_id worker report now db h =
    let (_, sent, h1) = >>=-eq-ok (raise_if (not (can_update report)) data_error) _ h in
    let (answer, found, h2) =
      >>=-eq-ok (commit_row worker report now db (find_accepting request_id worker.id db)) _ h1 in
    let (_, kept, h3) =
      >>=-eq-ok (raise_if (answer.0 && not (fits_integer report.latency_ms)) data_error) _ h2 in
    found ∙ h3
