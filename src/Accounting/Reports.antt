-- ===== src/Accounting/Reports.antt =====
-- Claims, results and errors of services/queue.py keep the counters of every project equal to the
-- charges of its requests.
use orbi_inference.Base.{
  subst, ℕ, ◌+◌, ◌≡◌, refl, Bool, true, Option, none, some, List, arith, sym, ◌∙◌,
}
use orbi_inference.Base.Json.{Json}
use orbi_inference.Base.Table.{get, modify, IsKeyed}
use orbi_inference.Base.Table.Sums.{sum_by-modify}
use orbi_inference.Base.Calendar.{Instant, Date, seconds}
use orbi_inference.Errors.{ok, >>=-eq-ok}
use orbi_inference.Entities.{Project, Worker, OrbiRequest, Db}
use orbi_inference.Entities.Status.{RequestStatus, is_in_progress, is_queued}
use orbi_inference.Budget.{reconcile}
use orbi_inference.Budget.Frame.{reconcile_frame}
use orbi_inference.Queue.{find_request, accepts, find_accepting}
use orbi_inference.Queue.Claim.{assign, first_row, claim_row, claim_next, candidates}
use orbi_inference.Queue.Commit.{
  Report, complete, commit_row, commit_result, commit_row-committed, store_result, total_tokens,
}
use orbi_inference.Queue.Rows.{candidate_row}
use orbi_inference.Queue.Rows.Operations.{found_row}
use orbi_inference.Accounting.{share, charge, charge_of, spent, AgreesWith, IsBalanced}
use orbi_inference.Accounting.Reconcile.{Replaces, reconcile-AgreesWith}

pub queued-charge :
    (s : RequestStatus) (reserved : ℕ) (i o : Option ℕ)
    → is_queued s ≡ true
    → charge_of s reserved i o ≡ reserved
queued-charge RequestStatus.queued reserved i o h = refl
queued-charge _ reserved i o h = absurd (ground arith)

pub in_progress-charge :
    (s : RequestStatus) (reserved : ℕ) (i o : Option ℕ)
    → is_in_progress s ≡ true
    → charge_of s reserved i o ≡ reserved
in_progress-charge RequestStatus.assigned reserved i o h = refl
in_progress-charge RequestStatus.starting reserved i o h = refl
in_progress-charge RequestStatus.running reserved i o h = refl
in_progress-charge RequestStatus.streaming reserved i o h = refl
in_progress-charge _ reserved i o h = absurd (ground arith)

pub accepts-charge : (r : OrbiRequest) (w : ℕ) → accepts w r ≡ true → charge r ≡ r.reserved_tokens
accepts-charge r w h =
    in_progress-charge r.status r.reserved_tokens r.input_tokens r.output_tokens (ground arith)

-- A stored row whose charge changes from `reserved` to `actual` changes the sums by its share.
pub modify-Replaces :
    (period : OrbiRequest → Date) (r r' : OrbiRequest) (f : OrbiRequest → OrbiRequest)
    (reserved actual : ℕ) (requests : List OrbiRequest)
    → get OrbiRequest.id r.id requests ≡ some r
    → f r ≡ r'
    → charge r ≡ reserved
    → charge r' ≡ actual
    → r'.project_id ≡ r.project_id
    → period r' ≡ period r
    → Replaces period r reserved actual
        (spent period requests)
        (spent period (modify OrbiRequest.id r.id f requests))
modify-Replaces period r r' f reserved actual requests stored e before after project same pid date =
    let sums =
      sum_by-modify OrbiRequest.id (λ x. share period pid date (charge x) x) r.id f requests
        stored in
    let old : share period pid date (charge r) r ≡ share period pid date reserved r = rw before in
    let new : share period pid date (charge (f r)) (f r) ≡ share period pid date actual r =
      rw (e, same, after, project) in
    omega arith

-- Of changes that leave the charge alone.
pub modify-spent :
    (period : OrbiRequest → Date) (r : OrbiRequest) (f : OrbiRequest → OrbiRequest)
    (requests : List OrbiRequest)
    → get OrbiRequest.id r.id requests ≡ some r
    → charge (f r) ≡ charge r
    → (f r).project_id ≡ r.project_id
    → period (f r) ≡ period r
    → (pid : ℕ) (date : Date)
    → spent period (modify OrbiRequest.id r.id f requests) pid date ≡ spent period requests pid date
modify-spent period r f requests stored same project period_same pid date =
    let replaced =
      modify-Replaces period r (f r) f (charge r) (charge r) requests stored refl refl same project
        period_same pid date in
    omega arith

-- The counters agree with amounts that are equal everywhere.
pub AgreesWith-cong :
    {daily monthly daily' monthly' : ℕ → Date → ℕ} {projects : List Project}
    → ((pid : ℕ) (date : Date) → daily' pid date ≡ daily pid date)
    → ((pid : ℕ) (date : Date) → monthly' pid date ≡ monthly pid date)
    → AgreesWith daily monthly projects
    → AgreesWith daily' monthly' projects
AgreesWith-cong d m agrees = record {
  day = λ pid p g. agrees.day pid p g ∙ sym (d pid p.daily_usage_date);
  month = λ pid p g. agrees.month pid p g ∙ sym (m pid p.monthly_usage_month);
}

claim_row-IsBalanced :
    (worker_id : ℕ) (lease : Instant) (db : Db) (found : Option OrbiRequest)
    → ((r : OrbiRequest)
        → found ≡ some r
        → (find_request r.id db ≡ some r) × (is_queued r.status ≡ true))
    → IsBalanced db
    → IsBalanced (claim_row worker_id lease db found).1
claim_row-IsBalanced worker_id lease db none h b = b
claim_row-IsBalanced worker_id lease db (some r) h b =
    let (stored, queued) = h r refl in
    let same : charge (assign worker_id lease r) ≡ charge r =
      sym (queued-charge r.status r.reserved_tokens r.input_tokens r.output_tokens queued) in
    AgreesWith-cong (modify-spent OrbiRequest.budget_day r _ db.requests stored same refl refl)
      (modify-spent OrbiRequest.budget_month r _ db.requests stored same refl refl) b

-- A claim charges nobody.
pub claim_next-IsBalanced :
    (contained : Json → Json → Bool) (locked : List ℕ) (now : Instant) (worker : Worker)
    (lease_seconds : ℕ) (db : Db)
    → IsKeyed OrbiRequest.id db.requests
    → IsBalanced db
    → IsBalanced (claim_next contained locked now worker lease_seconds db).1
unfolding claim_next
claim_next-IsBalanced contained locked now worker lease_seconds db keyed b =
    claim_row-IsBalanced worker.id (now + seconds lease_seconds) db
      (first_row (candidates contained locked now worker db))
      (λ r e.
        let (stored, fits, free) = candidate_row contained locked now worker db {r = r} keyed e in
        (stored, ground arith))
      b

commit_row-IsBalanced :
    (worker : Worker) (report : Report) (now : Instant) (db : Db) (found : Option OrbiRequest)
    {done : Bool} {db' : Db}
    → ((r : OrbiRequest)
        → found ≡ some r
        → (find_request r.id db ≡ some r) × (accepts worker.id r ≡ true))
    → commit_row worker report now db found ≡ ok (done, db')
    → IsBalanced db
    → IsBalanced db'
commit_row-IsBalanced worker report now db none {done} {db'} h e b =
    let q : db ≡ db' = ground arith in subst IsBalanced q b
commit_row-IsBalanced worker report now db (some r) {done} {db'} h e b =
    let (stored, accepted) = h r refl in
    let db₁ : Db = store_result now report r db in
    let change : OrbiRequest → OrbiRequest =
      complete report.result report.input_tokens report.output_tokens now in
    let (d, reconciled, e') =
      >>=-eq-ok
        (reconcile r.project_id r.reserved_tokens (total_tokens report) r.budget_day r.budget_month
          db₁)
        _ e in
    let projects : d.projects ≡ db'.projects = ground arith in
    let requests : d.requests ≡ db'.requests = ground arith in
    let before = accepts-charge r worker.id accepted in
    let agrees =
      reconcile-AgreesWith r r.reserved_tokens (total_tokens report)
        (spent OrbiRequest.budget_day db.requests) (spent OrbiRequest.budget_month db.requests)
        (spent OrbiRequest.budget_day db₁.requests) (spent OrbiRequest.budget_month db₁.requests)
        (modify-Replaces OrbiRequest.budget_day r (change r) change r.reserved_tokens
          (total_tokens report) db.requests stored refl before refl refl refl)
        (modify-Replaces OrbiRequest.budget_month r (change r) change r.reserved_tokens
          (total_tokens report) db.requests stored refl before refl refl refl)
        db₁ b reconciled in
    rw (← requests, ← projects, (reconcile_frame _ _ _ _ _ _ reconciled).requests) agrees

-- If the token counters of every project are the sums of its requests' charges, they are so after a
-- report of a result that commits, where a completed request is charged with the tokens that were
-- reported.
pub commit_result-IsBalanced :
    (request_id : ℕ) (worker : Worker) (report : Report) (now : Instant) (db : Db) {done : Bool}
    {db' : Db}
    → IsBalanced db
    → commit_result request_id worker report now db ≡ ok (done, db')
    → IsBalanced db'
commit_result-IsBalanced request_id worker report now db b e =
    commit_row-IsBalanced worker report now db (find_accepting request_id worker.id db)
      (λ r q. found_row request_id worker.id db {r = r} q)
      (commit_row-committed request_id worker report now db e) b
