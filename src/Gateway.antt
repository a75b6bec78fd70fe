-- ===== src/Gateway.antt =====
-- The gateway as a state machine over its database: committed transactions of routes/chat.py and
-- services/queue.py of apps/gateway/src/orbi_gateway, and the administrator's, in any order and by any number of clients and
-- workers. A transaction that raises is rolled back, and is no step.
pub mod Ownership
pub mod Invariant
pub mod Soundness
pub mod History
pub mod Promises
pub mod Idempotence
pub mod Service
use orbi_inference.Base.{ℕ, ◌≡◌, Bool, true, Option, none, List, String}
use orbi_inference.Base.Text.{Text}
use orbi_inference.Base.Json.{Json}
use orbi_inference.Base.Table.{get}
use orbi_inference.Base.Calendar.{Instant, Date}
use orbi_inference.Errors.{ok}
use orbi_inference.Entities.{ApiKey, Worker, ErrorDetail, OrbiRequest, Db}
use orbi_inference.Budget.{find_project}
use orbi_inference.Admin.{ProjectCreateRequest, create_project}
use orbi_inference.Queue.Claim.{claim_next}
use orbi_inference.Queue.Commit.{Report, commit_result}
use orbi_inference.Queue.Failure.{record_error}
use orbi_inference.Queue.Recovery.{recover_expired_leases}
use orbi_inference.Schemas.{is_valid_chat}
use orbi_inference.Chat.{Clock, ChatCompletionRequest, Answer, accept}
use orbi_inference.Chat.Charges.{Advances}

-- What the database does with JSONB, and what pydantic does with a request, are parameters.
module _ (contained : Json → Json → Bool) (dump : ChatCompletionRequest → Json) where
  pub data Step (a b : Db) : Type 0 where
    accepts :
        (new_id : ℕ) (clock : Clock) (api_key : ApiKey) (payload : ChatCompletionRequest)
        (key : Option Text) (answer : Answer)
        → get OrbiRequest.id new_id a.requests ≡ none
        → Advances clock.reserving api_key.project_id a
        → is_valid_chat payload ≡ true
        → accept dump new_id clock api_key payload key a ≡ ok (answer, b)
        → Step a b
    claims :
        (locked : List ℕ) (now : Instant) (worker : Worker) (lease_seconds : ℕ)
        → b ≡ (claim_next contained locked now worker lease_seconds a).1
        → Step a b
    commits :
        (request_id : ℕ) (worker : Worker) (report : Report) (now : Instant) (done : Bool)
        → commit_result request_id worker report now a ≡ ok (done, b)
        → Step a b
    errors :
        (request_id : ℕ) (worker : Worker) (retryable : Bool) (detail : ErrorDetail) (done : Bool)
        → record_error request_id worker retryable detail a ≡ ok (done, b)
        → Step a b
    recovers : (now : Instant) (count : ℕ) → recover_expired_leases now a ≡ ok (count, b) → Step a b
    creates :
        (new_id : ℕ) (today month : Date) (payload : ProjectCreateRequest)
        (answer : ℕ × String × String)
        → find_project new_id a ≡ none
        → create_project new_id today month payload a ≡ ok (answer, b)
        → Step a b
    -- Transactions that write neither requests nor projects nor usage records: on credentials,
    -- aliases and workers.
    elsewhere :
        b.requests ≡ a.requests
        → b.projects ≡ a.projects
        → b.usage_records ≡ a.usage_records
        → Step a b

  pub data Reach (a : Db) : Db → Type 0 where
    here : Reach a a
    next : {b c : Db} → Reach a b → Step b c → Reach a c
