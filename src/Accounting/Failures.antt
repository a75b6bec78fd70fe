-- ===== src/Accounting/Failures.antt =====
-- Worker errors of services/queue.py keep the counters of every project equal to the charges of its
-- requests: a request that is tried again keeps its reservation, and one that fails gives it back.
use orbi_inference.Base.{
  subst, ℕ, ◌≡◌, refl, Bool, true, Option, none, some, arith, Bool-cases, inl, inr, ◌&&◌, ltb, sym,
}
use orbi_inference.Errors.{ok, >>=-eq-ok}
use orbi_inference.Entities.{Worker, ErrorDetail, OrbiRequest, Db}
use orbi_inference.Budget.{release}
use orbi_inference.Budget.Frame.{reconcile_frame}
use orbi_inference.Queue.{find_request, accepts, find_accepting, save_request}
use orbi_inference.Queue.Failure.{requeue_after_error, fail_after_error, error_row, record_error}
use orbi_inference.Queue.Rows.Operations.{found_row}
use orbi_inference.Accounting.{charge, spent, IsBalanced}
use orbi_inference.Accounting.Reconcile.{reconcile-AgreesWith}
use orbi_inference.Accounting.Reports.{
  accepts-charge, modify-Replaces, modify-spent, AgreesWith-cong,
}

retry-IsBalanced :
    (detail : ErrorDetail) (db : Db) (r : OrbiRequest) (worker_id : ℕ)
    → find_request r.id db ≡ some r
    → accepts worker_id r ≡ true
    → IsBalanced db
    → IsBalanced (save_request (requeue_after_error detail r) db)
retry-IsBalanced detail db r worker_id stored accepted b =
    let same : charge (requeue_after_error detail r) ≡ charge r =
      sym (accepts-charge r worker_id accepted) in
    AgreesWith-cong (modify-spent OrbiRequest.budget_day r _ db.requests stored same refl refl)
      (modify-spent OrbiRequest.budget_month r _ db.requests stored same refl refl) b

fail-IsBalanced :
    (detail : ErrorDetail) (db : Db) (r : OrbiRequest) (worker_id : ℕ) {db' : Db}
    → find_request r.id db ≡ some r
    → accepts worker_id r ≡ true
    → release r.project_id r.reserved_tokens r.budget_day r.budget_month
        (save_request (fail_after_error detail r) db)
      ≡ ok db'
    → IsBalanced db
    → IsBalanced db'
unfolding release
fail-IsBalanced detail db r worker_id {db'} stored accepted released b =
    let db₁ : Db = save_request (fail_after_error detail r) db in
    let before = accepts-charge r worker_id accepted in
    let agrees =
      reconcile-AgreesWith r r.reserved_tokens 0 (spent OrbiRequest.budget_day db.requests)
        (spent OrbiRequest.budget_month db.requests) (spent OrbiRequest.budget_day db₁.requests)
        (spent OrbiRequest.budget_month db₁.requests)
        (modify-Replaces OrbiRequest.budget_day r (fail_after_error detail r) _ r.reserved_tokens 0
          db.requests stored refl before refl refl refl)
        (modify-Replaces OrbiRequest.budget_month r (fail_after_error detail r) _ r.reserved_tokens
          0 db.requests stored refl before refl refl refl)
        db₁ b released in
    rw (reconcile_frame _ _ _ _ _ _ released).requests agrees

error_row-IsBalanced :
    (worker_id : ℕ) (retryable : Bool) (detail : ErrorDetail) (db : Db) (found : Option OrbiRequest)
    {done : Bool} {db' : Db}
    → ((r : OrbiRequest)
        → found ≡ some r
        → (find_request r.id db ≡ some r) × (accepts worker_id r ≡ true))
    → error_row retryable detail db found ≡ ok (done, db')
    → IsBalanced db
    → IsBalanced db'
error_row-IsBalanced worker_id retryable detail db none {done} {db'} h e b =
    let q : db ≡ db' = ground arith in subst IsBalanced q b
error_row-IsBalanced worker_id retryable detail db (some r) {done} {db'} h e b =
    let (stored, accepted) = h r refl in
    elim (Bool-cases (retryable && ltb r.retry_count r.max_retries)) [
      | inl t ↦
          let q : save_request (requeue_after_error detail r) db ≡ db' = ground arith in
          subst IsBalanced q (retry-IsBalanced detail db r worker_id stored accepted b)
      | inr f ↦
          let (d, released, e') =
            >>=-eq-ok
              (release r.project_id r.reserved_tokens r.budget_day r.budget_month
                (save_request (fail_after_error detail r) db))
              _ (rw f at e) in
          let q : d ≡ db' = ground arith in
          subst IsBalanced q
            (fail-IsBalanced detail db r worker_id {db' = d} stored accepted released b)
    ]

-- If the token counters of every project are the sums of its requests' charges, they are so after a
-- report of an error that commits, where a request that has failed for good is charged with nothing
-- and one that waits again with its reservation.
pub record_error-IsBalanced :
    (request_id : ℕ) (worker : Worker) (retryable : Bool) (detail : ErrorDetail) (db : Db)
    {done : Bool} {db' : Db}
    → IsBalanced db
    → record_error request_id worker retryable detail db ≡ ok (done, db')
    → IsBalanced db'
unfolding record_error
record_error-IsBalanced request_id worker retryable detail db b e =
    error_row-IsBalanced worker.id retryable detail db (find_accepting request_id worker.id db)
      (λ r q. found_row request_id worker.id db {r = r} q) e b
