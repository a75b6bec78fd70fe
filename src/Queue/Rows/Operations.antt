-- ===== src/Queue/Rows/Operations.antt =====
-- Each method of `QueueService` changes every row of the request table by the rules of `RowRules`.
use orbi_inference.Base.{
  ℕ, ◌+◌, ◌<◌, ◌≡◌, refl, sym, ◌∙◌, subst, Bool, true, ◌&&◌, Option, none, some, List, [], ◌∷◌,
  ◌++◌, arith, some-eq, Bool-cases, inl, inr, ltb,
}
use orbi_inference.Base.Json.{Json}
use orbi_inference.Base.Table.{IsKeyed, key-get}
use orbi_inference.Base.Table.Related.{
  Related, Related-refl, modify-Related, update_where-Related, Related-trans,
}
use orbi_inference.Base.Calendar.{Instant, seconds}
use orbi_inference.Errors.{ok, >>=-eq-ok}
use orbi_inference.Entities.{Worker, ErrorDetail, OrbiRequest, Db}
use orbi_inference.Entities.Status.{is_queued}
use orbi_inference.Budget.{reconcile, release}
use orbi_inference.Budget.Frame.{
  SameOutsideProjects, reconcile_frame, SameOutsideProjects-refl, SameOutsideProjects-trans,
}
use orbi_inference.Queue.{find_request, accepts, find_accepting, save_request}
use orbi_inference.Queue.Claim.{first_row, claim_next, candidates, claim_row}
use orbi_inference.Queue.Commit.{
  commit_row-committed, Report, commit_row, commit_result, store_result, total_tokens,
}
use orbi_inference.Queue.Failure.{requeue_after_error, fail_after_error, error_row, record_error}
use orbi_inference.Queue.Recovery.{
  can_retry, cannot_retry, is_overdue, requeue, exhaust, expire, release_all, after_requeue,
  after_exhaust, after_expire, recover_expired_leases, terminal_rows, expired_rows,
}
use orbi_inference.Queue.Rows.{
  QuietRules, RowRules, RowsRelated, find_accepting-eq_some, candidate_row,
}

pub release_all_frame :
    (rows : List OrbiRequest) (db : Db) {db' : Db}
    → release_all rows db ≡ ok db'
    → SameOutsideProjects db db'
unfolding release_all release
release_all_frame [] db {db'} h =
    let q : db ≡ db' = ground arith in rw q (SameOutsideProjects-refl db')
release_all_frame (r ∷ rs) db {db'} h =
    let (d, first, rest) =
      >>=-eq-ok (release r.project_id r.reserved_tokens r.budget_day r.budget_month db) _ h in
    SameOutsideProjects-trans (reconcile_frame _ _ _ _ _ _ first)
      (release_all_frame rs d {db' = db'} rest)

-- The id of a row that `find_accepting` returns is the one asked for.
pub found_row :
    (request_id worker_id : ℕ) (db : Db) {r : OrbiRequest}
    → find_accepting request_id worker_id db ≡ some r
    → (find_request r.id db ≡ some r) × (accepts worker_id r ≡ true)
found_row request_id worker_id db {r} e =
    let (stored, accepted) = find_accepting-eq_some request_id worker_id db {row = r} e in
    (
      subst (λ k. find_request k db ≡ some r)
          (sym (key-get OrbiRequest.id request_id {a = r} db.requests stored)) stored,
      accepted,
    )

module _ {R : OrbiRequest → OrbiRequest → Type 0} (rules : QuietRules R) where
  open rules use {same, chain, claimed, retried, failed, requeued, exhausted, expired}

  claim_row-rows :
      (worker_id : ℕ) (lease : Instant) (db : Db) (found : Option OrbiRequest)
      → ((r : OrbiRequest)
          → found ≡ some r
          → (find_request r.id db ≡ some r) × (is_queued r.status ≡ true))
      → RowsRelated R db (claim_row worker_id lease db found).1
  claim_row-rows worker_id lease db none h = Related-refl OrbiRequest.id R same db.requests
  claim_row-rows worker_id lease db (some r) h =
      let (stored, queued) = h r refl in
      modify-Related OrbiRequest.id R r.id _ db.requests same
        (λ a g. rw (some-eq (sym g ∙ stored)) (claimed r worker_id lease queued))

  pub claim_next-rows :
      (contained : Json → Json → Bool) (locked : List ℕ) (now : Instant) (worker : Worker)
      (lease_seconds : ℕ) (db : Db)
      → IsKeyed OrbiRequest.id db.requests
      → RowsRelated R db (claim_next contained locked now worker lease_seconds db).1
  unfolding claim_next
  claim_next-rows contained locked now worker lease_seconds db keyed =
      claim_row-rows worker.id (now + seconds lease_seconds) db
        (first_row (candidates contained locked now worker db))
        (λ r e.
          let (stored, fits, free) = candidate_row contained locked now worker db {r = r} keyed e in
          (stored, ground arith))

  error_row-rows :
      (worker_id : ℕ) (retryable : Bool) (detail : ErrorDetail) (db : Db)
      (found : Option OrbiRequest) {done : Bool} {db' : Db}
      → ((r : OrbiRequest)
          → found ≡ some r
          → (find_request r.id db ≡ some r) × (accepts worker_id r ≡ true))
      → error_row retryable detail db found ≡ ok (done, db')
      → RowsRelated R db db'
  unfolding release
  error_row-rows worker_id retryable detail db none {done} {db'} h e =
      let q : db ≡ db' = ground arith in rw (← q) (Related-refl OrbiRequest.id R same db.requests)
  error_row-rows worker_id retryable detail db (some r) {done} {db'} h e =
      let (stored, accepted) = h r refl in
      elim (Bool-cases (retryable && ltb r.retry_count r.max_retries)) [
        | inl t ↦
            let q : db' ≡ save_request (requeue_after_error detail r) db = ground arith in
            let room : r.retry_count < r.max_retries = ground arith in
            rw q (
              modify-Related OrbiRequest.id R r.id _ db.requests same
                (λ a g. rw (some-eq (sym g ∙ stored)) (retried r worker_id detail accepted room)))
        | inr f ↦
            let (d, released, e') =
              >>=-eq-ok
                (release r.project_id r.reserved_tokens r.budget_day r.budget_month
                  (save_request (fail_after_error detail r) db))
                _ (rw f at e) in
            let q : db'.requests ≡ d.requests = ground arith in
            rw (q, (reconcile_frame _ _ _ _ _ _ released).requests)
              (modify-Related OrbiRequest.id R r.id _ db.requests same
                (λ a g. rw (some-eq (sym g ∙ stored)) (failed r worker_id detail accepted)))
      ]

  pub record_error-rows :
      (request_id : ℕ) (worker : Worker) (retryable : Bool) (detail : ErrorDetail) (db : Db)
      {done : Bool} {db' : Db}
      → record_error request_id worker retryable detail db ≡ ok (done, db')
      → RowsRelated R db db'
  unfolding record_error
  record_error-rows request_id worker retryable detail db h =
      error_row-rows worker.id retryable detail db (find_accepting request_id worker.id db)
        (λ r e. found_row request_id worker.id db {r = r} e) h

  pub after_expire-rows :
      (now : Instant) (t : List OrbiRequest) → Related OrbiRequest.id R t (after_expire now t)
  after_expire-rows now t =
      Related-trans OrbiRequest.id R t (after_exhaust now t) (after_expire now t) chain
        (Related-trans OrbiRequest.id R t (after_requeue now t) (after_exhaust now t) chain
          (update_where-Related OrbiRequest.id R (can_retry now) requeue t (λ a _. same a)
            (λ a e. requeued a now e))
          (update_where-Related OrbiRequest.id R (cannot_retry now) exhaust (after_requeue now t)
            (λ a _. same a) (λ a e. exhausted a now e)))
        (update_where-Related OrbiRequest.id R (is_overdue now) expire (after_exhaust now t)
          (λ a _. same a) (λ a e. expired a now e))

  pub recover_expired_leases-rows :
      (now : Instant) (db : Db) {count : ℕ} {db' : Db}
      → recover_expired_leases now db ≡ ok (count, db')
      → RowsRelated R db db'
  unfolding recover_expired_leases
  recover_expired_leases-rows now db {count} {db'} h =
      let (d, released, e) =
        >>=-eq-ok
          (release_all (terminal_rows now db.requests ++ expired_rows now db.requests)
            (record db { requests = after_expire now db.requests }))
          _ h in
      let q : db'.requests ≡ d.requests = ground arith in
      rw (q, (release_all_frame _ _ released).requests) (after_expire-rows now db.requests)

module _ {R : OrbiRequest → OrbiRequest → Type 0} (rules : RowRules R) where
  open rules use {quiet, completed}
  open quiet use {same}

  commit_row-rows :
      (worker : Worker) (report : Report) (now : Instant) (db : Db) (found : Option OrbiRequest)
      {done : Bool} {db' : Db}
      → ((r : OrbiRequest)
          → found ≡ some r
          → (find_request r.id db ≡ some r) × (accepts worker.id r ≡ true))
      → commit_row worker report now db found ≡ ok (done, db')
      → RowsRelated R db db'
  commit_row-rows worker report now db none {done} {db'} h e =
      let q : db ≡ db' = ground arith in rw (← q) (Related-refl OrbiRequest.id R same db.requests)
  commit_row-rows worker report now db (some r) {done} {db'} h e =
      let (stored, accepted) = h r refl in
      let (d, reconciled, e') =
        >>=-eq-ok
          (reconcile r.project_id r.reserved_tokens (total_tokens report) r.budget_day
            r.budget_month (store_result now report r db))
          _ e in
      let q : db'.requests ≡ d.requests = ground arith in
      rw (q, (reconcile_frame _ _ _ _ _ _ reconciled).requests)
        (modify-Related OrbiRequest.id R r.id _ db.requests same (λ a g.
          rw (some-eq (sym g ∙ stored)) (
            completed r worker.id report.result report.input_tokens report.output_tokens now
              accepted)))

  pub commit_result-rows :
      (request_id : ℕ) (worker : Worker) (report : Report) (now : Instant) (db : Db) {done : Bool}
      {db' : Db}
      → commit_result request_id worker report now db ≡ ok (done, db')
      → RowsRelated R db db'
  commit_result-rows request_id worker report now db h =
      commit_row-rows worker report now db (find_accepting request_id worker.id db)
        (λ r e. found_row request_id worker.id db {r = r} e)
        (commit_row-committed request_id worker report now db h)

error_row-usage :
    (retryable : Bool) (detail : ErrorDetail) (db : Db) (found : Option OrbiRequest) {done : Bool}
    {db' : Db}
    → error_row retryable detail db found ≡ ok (done, db')
    → db'.usage_records ≡ db.usage_records
unfolding release
error_row-usage retryable detail db none {done} {db'} h = ground arith
error_row-usage retryable detail db (some r) {done} {db'} h =
    elim (Bool-cases (retryable && ltb r.retry_count r.max_retries)) [
      | inl t ↦ ground arith
      | inr f ↦
          let (d, released, e) =
            >>=-eq-ok
              (release r.project_id r.reserved_tokens r.budget_day r.budget_month
                (save_request (fail_after_error detail r) db))
              _ (rw f at h) in
          let q : db'.usage_records ≡ d.usage_records = ground arith in
          q ∙ (reconcile_frame _ _ _ _ _ _ released).usage_records
    ]

pub record_error-usage :
    (request_id : ℕ) (worker : Worker) (retryable : Bool) (detail : ErrorDetail) (db : Db)
    {done : Bool} {db' : Db}
    → record_error request_id worker retryable detail db ≡ ok (done, db')
    → db'.usage_records ≡ db.usage_records
unfolding record_error
record_error-usage request_id worker retryable detail db h =
    error_row-usage retryable detail db (find_accepting request_id worker.id db) h

pub recover_expired_leases-usage :
    (now : Instant) (db : Db) {count : ℕ} {db' : Db}
    → recover_expired_leases now db ≡ ok (count, db')
    → db'.usage_records ≡ db.usage_records
unfolding recover_expired_leases
recover_expired_leases-usage now db {count} {db'} h =
    let (d, released, e) =
      >>=-eq-ok
        (release_all (terminal_rows now db.requests ++ expired_rows now db.requests)
          (record db { requests = after_expire now db.requests }))
        _ h in
    let q : db'.usage_records ≡ d.usage_records = ground arith in
    q ∙ (release_all_frame _ _ released).usage_records
