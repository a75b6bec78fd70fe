-- ===== src/Gateway/Invariant.antt =====
-- The invariant of the gateway's database, and that each method of `QueueService` keeps it.
use orbi_inference.Base.{◌<◌, sym, subst, ℕ, ◌+◌, ◌≡◌, refl, Bool, Option, none, some, List, All}
use orbi_inference.Base.Json.{Json}
use orbi_inference.Base.Table.{IsKeyed}
use orbi_inference.Base.Table.Related.{Related-All, Related-IsKeyed}
use orbi_inference.Base.Calendar.{seconds, Instant}
use orbi_inference.Errors.{ok}
use orbi_inference.Entities.{Worker, ErrorDetail, OrbiRequest, Db}
use orbi_inference.Queue.Claim.{candidates, first_row, claim_row, claim_next}
use orbi_inference.Queue.Commit.{Report, commit_result}
use orbi_inference.Queue.Failure.{record_error}
use orbi_inference.Queue.Recovery.{recover_expired_leases}
use orbi_inference.Queue.Rows.{RowsRelated}
use orbi_inference.Queue.Rows.Operations.{
  recover_expired_leases-usage, record_error-usage, claim_next-rows, commit_result-rows,
  record_error-rows, recover_expired_leases-rows,
}
use orbi_inference.Queue.Lifecycle.{SameOrder, SameOrder-rules}
use orbi_inference.Queue.Shape.{IsWellFormed, KeepsWellFormed, KeepsWellFormed-rules}
use orbi_inference.Queue.Usage.{
  KeepsCompleted, IsAccounted, KeepsCompleted-rules, RowsRelated-completed_count,
  commit_result-IsAccounted,
}
use orbi_inference.Accounting.{IsBalanced}
use orbi_inference.Accounting.Reports.{claim_next-IsBalanced, commit_result-IsBalanced}
use orbi_inference.Accounting.Failures.{record_error-IsBalanced}
use orbi_inference.Accounting.Recovery.{recover_expired_leases-IsBalanced}
use orbi_inference.Accounting.Periods.{
  KeepsPeriods, KeepsPeriods-refl, commit_result-KeepsPeriods, record_error-KeepsPeriods,
  recover_expired_leases-KeepsPeriods,
}
use orbi_inference.Accounting.Dated.{IsDated, IsDated-keeps}
use orbi_inference.Queue.Totality.{IsOwned}
use orbi_inference.Gateway.Ownership.{IsOwned-keeps}

-- The reservation fits into its column, a signed integer of 32 bits.
abbrev pub FitsColumn : OrbiRequest → Type 0
FitsColumn r = r.reserved_tokens < 2_147_483_648

rows-FitsColumn :
    (a b : Db) → RowsRelated SameOrder a b → All FitsColumn a.requests → All FitsColumn b.requests
rows-FitsColumn a b =
    Related-All OrbiRequest.id SameOrder FitsColumn a.requests b.requests
      (λ x y same fits. subst (λ n. n < 2_147_483_648) (sym same.reserved_tokens) fits)

pub record IsSound (db : Db) : Type 0 where
  pub keyed : IsKeyed OrbiRequest.id db.requests
  pub formed : All IsWellFormed db.requests
  pub accounted : IsAccounted db
  pub balanced : IsBalanced db
  pub dated : IsDated db
  pub owned : IsOwned db
  pub sized : All FitsColumn db.requests

-- Changes of rows alone keep the keys and the shapes.
rows-IsKeyed :
    (a b : Db)
    → RowsRelated SameOrder a b
    → IsKeyed OrbiRequest.id a.requests
    → IsKeyed OrbiRequest.id b.requests
rows-IsKeyed a b = Related-IsKeyed OrbiRequest.id SameOrder a.requests b.requests (λ x y r. r.id)

rows-formed :
    (a b : Db)
    → RowsRelated KeepsWellFormed a b
    → All IsWellFormed a.requests
    → All IsWellFormed b.requests
rows-formed a b =
    Related-All OrbiRequest.id KeepsWellFormed IsWellFormed a.requests b.requests (λ x y r. r)

pub IsAccounted-quiet :
    (a b : Db)
    → b.usage_records ≡ a.usage_records
    → RowsRelated KeepsCompleted a b
    → IsAccounted a
    → IsAccounted b
IsAccounted-quiet a b usage counts h k = rw (usage, RowsRelated-completed_count a b k counts) (h k)

periods_same : (a b : Db) → b.projects ≡ a.projects → KeepsPeriods a b
periods_same a b e = rw e (KeepsPeriods-refl a)

-- What is the same for every transaction of the queue.
assemble :
    (a b : Db)
    → RowsRelated SameOrder a b
    → RowsRelated KeepsWellFormed a b
    → KeepsPeriods a b
    → IsAccounted b
    → IsBalanced b
    → IsSound a
    → IsSound b
assemble a b orders shapes periods accounted balanced s = record {
  keyed = rows-IsKeyed a b orders s.keyed;
  formed = rows-formed a b shapes s.formed;
  accounted = accounted;
  balanced = balanced;
  dated = IsDated-keeps a b orders periods s.dated;
  owned = IsOwned-keeps a b orders periods s.owned;
  sized = rows-FitsColumn a b orders s.sized;
}

claim_row_frame :
    (worker_id : ℕ) (lease : Instant) (db : Db) (found : Option OrbiRequest)
    → ((claim_row worker_id lease db found).1.projects ≡ db.projects)
      × ((claim_row worker_id lease db found).1.usage_records ≡ db.usage_records)
claim_row_frame worker_id lease db none = (refl, refl)
claim_row_frame worker_id lease db (some r) = (refl, refl)

pub claim_next-IsSound :
    (contained : Json → Json → Bool) (locked : List ℕ) (now : Instant) (worker : Worker)
    (lease_seconds : ℕ) (db : Db)
    → IsSound db
    → IsSound (claim_next contained locked now worker lease_seconds db).1
unfolding claim_next
claim_next-IsSound contained locked now worker lease_seconds db s =
    let db' : Db = (claim_next contained locked now worker lease_seconds db).1 in
    let (projects, usage) =
      claim_row_frame worker.id (now + seconds lease_seconds) db
        (first_row (candidates contained locked now worker db)) in
    assemble db db'
      (claim_next-rows SameOrder-rules.quiet contained locked now worker lease_seconds db s.keyed)
      (claim_next-rows KeepsWellFormed-rules.quiet contained locked now worker lease_seconds db
        s.keyed)
      (periods_same db db' projects)
      (IsAccounted-quiet db db' usage
        (claim_next-rows KeepsCompleted-rules contained locked now worker lease_seconds db s.keyed)
        s.accounted)
      (claim_next-IsBalanced contained locked now worker lease_seconds db s.keyed s.balanced) s

pub commit_result-IsSound :
    (request_id : ℕ) (worker : Worker) (report : Report) (now : Instant) (db : Db) {done : Bool}
    {db' : Db}
    → commit_result request_id worker report now db ≡ ok (done, db')
    → IsSound db
    → IsSound db'
commit_result-IsSound request_id worker report now db {done} {db'} e s =
    assemble db db' (commit_result-rows SameOrder-rules request_id worker report now db e)
      (commit_result-rows KeepsWellFormed-rules request_id worker report now db e)
      (commit_result-KeepsPeriods request_id worker report now db e)
      (commit_result-IsAccounted request_id worker report now db s.accounted e)
      (commit_result-IsBalanced request_id worker report now db s.balanced e) s

pub record_error-IsSound :
    (request_id : ℕ) (worker : Worker) (retryable : Bool) (detail : ErrorDetail) (db : Db)
    {done : Bool} {db' : Db}
    → record_error request_id worker retryable detail db ≡ ok (done, db')
    → IsSound db
    → IsSound db'
record_error-IsSound request_id worker retryable detail db {done} {db'} e s =
    assemble db db'
      (record_error-rows SameOrder-rules.quiet request_id worker retryable detail db e)
      (record_error-rows KeepsWellFormed-rules.quiet request_id worker retryable detail db e)
      (record_error-KeepsPeriods request_id worker retryable detail db e)
      (IsAccounted-quiet db db' (record_error-usage request_id worker retryable detail db e)
        (record_error-rows KeepsCompleted-rules request_id worker retryable detail db e)
        s.accounted)
      (record_error-IsBalanced request_id worker retryable detail db s.balanced e) s

pub recover_expired_leases-IsSound :
    (now : Instant) (db : Db) {count : ℕ} {db' : Db}
    → recover_expired_leases now db ≡ ok (count, db')
    → IsSound db
    → IsSound db'
recover_expired_leases-IsSound now db {count} {db'} e s =
    assemble db db' (recover_expired_leases-rows SameOrder-rules.quiet now db e)
      (recover_expired_leases-rows KeepsWellFormed-rules.quiet now db e)
      (recover_expired_leases-KeepsPeriods now db e)
      (IsAccounted-quiet db db' (recover_expired_leases-usage now db e)
        (recover_expired_leases-rows KeepsCompleted-rules now db e) s.accounted)
      (recover_expired_leases-IsBalanced now db s.balanced e) s
