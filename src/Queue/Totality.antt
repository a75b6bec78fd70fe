-- ===== src/Queue/Totality.antt =====
-- That the methods of `QueueService` in services/queue.py do not raise while each request belongs to
-- a stored project, which the foreign key of `orbi_requests` ensures.
use orbi_inference.Base.{
  arith, ◌<◌, ℕ, ◌≡◌, refl, sym, subst, ◌∙◌, Bool, true, false, ◌&&◌, Option, none, some, List, [],
  ◌∷◌, ◌++◌, All, keep, Bool-cases, inl, inr, ltb, length, ◌==◌,
}
use orbi_inference.Base.Table.{modify, update_where, get-replace, key-get}
use orbi_inference.Base.Table.Members.{All-IsIn, get-IsIn}
use orbi_inference.Base.Calendar.{Instant, Date}
use orbi_inference.Errors.{◌>>◌, data_error, raise_if, ok}
use orbi_inference.Entities.{Project, Worker, ErrorDetail, OrbiRequest, Db}
use orbi_inference.Budget.{find_project, reconcile, reconcile_row, release}
use orbi_inference.Budget.Settlement.{reconcile-found, id-reconcile_row}
use orbi_inference.Queue.{find_accepting, save_request}
use orbi_inference.Queue.Commit.{
  Report, total_tokens, store_result, account, commit_row, commit_result, fits_integer,
}
use orbi_inference.Queue.Failure.{requeue_after_error, fail_after_error, error_row, record_error}
use orbi_inference.Queue.Recovery.{
  can_retry, cannot_retry, is_overdue, requeue, exhaust, release_all, after_requeue, after_exhaust,
  after_expire, terminal_rows, expired_rows, recover_expired_leases,
}
use orbi_inference.Queue.Rows.{find_accepting-eq_some}

-- The project of a request is stored.
abbrev pub HasProject : Db → OrbiRequest → Type 0
HasProject db r = (p : Project) × (find_project r.project_id db ≡ some p)

abbrev pub IsOwned : Db → Type 0
IsOwned db = All (HasProject db) db.requests

-- No project is lost.
abbrev pub KeepsProjects : Db → Db → Type 0
KeepsProjects a b =
    (pid : ℕ)
    → ((p : Project) × (find_project pid a ≡ some p))
    → (p : Project) × (find_project pid b ≡ some p)

reconcile-total :
    (pid reserved actual : ℕ) (day month : Date) (db : Db)
    → ((p : Project) × (find_project pid db ≡ some p))
    → (db' : Db) × (reconcile pid reserved actual day month db ≡ ok db') × KeepsProjects db db'
reconcile-total pid reserved actual day month db (p, found) =
    let updated : Project = reconcile_row reserved actual day month p in
    let id : updated.id ≡ pid =
      id-reconcile_row reserved actual day month p ∙ key-get Project.id pid db.projects found in
    (
      record db { projects = modify Project.id pid (λ _. updated) db.projects },
      reconcile-found pid reserved actual day month db found,
      λ k (q, stored). elim (Bool-cases (pid == k)) [
        | inl t ↦ (updated, get-replace Project.id k pid updated db.projects found id ∙ rw t refl)
        | inr f ↦ (q, get-replace Project.id k pid updated db.projects found id ∙ rw f stored)
      ],
    )

release-total :
    (pid reserved : ℕ) (day month : Date) (db : Db)
    → ((p : Project) × (find_project pid db ≡ some p))
    → (db' : Db) × (release pid reserved day month db ≡ ok db') × KeepsProjects db db'
unfolding release
release-total pid reserved day month db owned = reconcile-total pid reserved 0 day month db owned

owned_after :
    (a b : Db) (rows : List OrbiRequest)
    → KeepsProjects a b
    → All (HasProject a) rows
    → All (HasProject b) rows
owned_after a b [] keeps owned = tt
owned_after a b (r ∷ rows) keeps (first, rest) =
    (keeps r.project_id first, owned_after a b rows keeps rest)

release_all-total :
    (rows : List OrbiRequest) (db : Db)
    → All (HasProject db) rows
    → (db' : Db) × (release_all rows db ≡ ok db')
unfolding release_all
release_all-total [] db owned = (db, refl)
release_all-total (r ∷ rows) db (first, rest) =
    let (next, released, keeps) =
      release-total r.project_id r.reserved_tokens r.budget_day r.budget_month db first in
    let (last, done) = release_all-total rows next (owned_after db next rows keeps rest) in
    (last, rw released done)

owned_append :
    (db : Db) (a b : List OrbiRequest)
    → All (HasProject db) a
    → All (HasProject db) b
    → All (HasProject db) (a ++ b)
owned_append db [] b _ h = h
owned_append db (r ∷ a) b (first, rest) h = (first, owned_append db a b rest h)

owned_keep :
    (db : Db) (p : OrbiRequest → Bool) (t : List OrbiRequest)
    → All (HasProject db) t
    → All (HasProject db) (keep p t)
owned_keep db p [] h = tt
owned_keep db p (r ∷ rows) (first, rest) = elim (Bool-cases (p r)) [
  | inl t ↦ rw t (first, owned_keep db p rows rest)
  | inr f ↦ rw f (owned_keep db p rows rest)
]

owned_update :
    (db : Db) (p : OrbiRequest → Bool) (f : OrbiRequest → OrbiRequest) (t : List OrbiRequest)
    → ((r : OrbiRequest) → (f r).project_id ≡ r.project_id)
    → All (HasProject db) t
    → All (HasProject db) (update_where p f t)
owned_update db p f [] same h = tt
owned_update db p f (r ∷ rows) same (first, rest) = elim (Bool-cases (p r)) [
  | inl t ↦ rw t (
    subst (λ k. (q : Project) × (find_project k db ≡ some q)) (sym (same r)) first,
    owned_update db p f rows same rest,
  )
  | inr e ↦ rw e (first, owned_update db p f rows same rest)
]

-- A pass of the recovery does not raise, whatever the time and the leases, if each request belongs
-- to a stored project.
pub recover_expired_leases-total :
    (now : Instant) (db : Db)
    → IsOwned db
    → (count : ℕ) × (db' : Db) × (recover_expired_leases now db ≡ ok (count, db'))
unfolding recover_expired_leases
recover_expired_leases-total now db owned =
    let t : List OrbiRequest = db.requests in
    let requeued = owned_update db (can_retry now) requeue t (λ r. refl) owned in
    let exhausted =
      owned_update db (cannot_retry now) exhaust (after_requeue now t) (λ r. refl) requeued in
    let rows : List OrbiRequest = terminal_rows now t ++ expired_rows now t in
    let updated : Db = record db { requests = after_expire now t } in
    let (db', released) = release_all-total rows updated (
      owned_append updated (terminal_rows now t) (expired_rows now t)
        (owned_keep updated (cannot_retry now) (after_requeue now t) requeued)
        (owned_keep updated (is_overdue now) (after_exhaust now t) exhausted)) in
    (length (keep (can_retry now) t), db', rw released refl)

accepted_owned :
    (request_id : ℕ) (worker : Worker) (db : Db) {r : OrbiRequest}
    → IsOwned db
    → find_accepting request_id worker.id db ≡ some r
    → HasProject db r
accepted_owned request_id worker db {r} owned found = All-IsIn (HasProject db) r db.requests owned (
    get-IsIn OrbiRequest.id request_id r db.requests
      (find_accepting-eq_some request_id worker.id db found).0)

commit_row-total :
    (worker : Worker) (report : Report) (now : Instant) (db : Db) (found : Option OrbiRequest)
    → ((r : OrbiRequest) → found ≡ some r → HasProject db r)
    → (done : Bool) × (db' : Db) × (commit_row worker report now db found ≡ ok (done, db'))
commit_row-total worker report now db none owned = (false, db, refl)
commit_row-total worker report now db (some r) owned =
    let (next, reconciled, keeps) =
      reconcile-total r.project_id r.reserved_tokens (total_tokens report) r.budget_day
        r.budget_month (store_result now report r db) (owned r refl) in
    (true, account worker report r next, rw reconciled refl)

-- The numbers of a report fit their 32-bit columns.
pub record FitsColumns (report : Report) : Type 0 where
  pub input_tokens : report.input_tokens < 2_147_483_648
  pub output_tokens : report.output_tokens < 2_147_483_648
  pub latency_ms : report.latency_ms < 2_147_483_648

nothing_raised :
    {A : Type 0} (done : Bool) (a : A) → (raise_if (done && false) data_error >> ok a) ≡ ok a
nothing_raised true a = refl
nothing_raised false a = refl

lt→fits_integer : (n : ℕ) → n < 2_147_483_648 → fits_integer n ≡ true
lt→fits_integer n h = ground arith

-- A report of a result is either accepted or not, and never raises, if its numbers fit their columns
-- and each request belongs to a stored project.
pub commit_result-total :
    (request_id : ℕ) (worker : Worker) (report : Report) (now : Instant) (db : Db)
    → FitsColumns report
    → IsOwned db
    → (done : Bool) × (db' : Db) × (commit_result request_id worker report now db ≡ ok (done, db'))
unfolding commit_result
commit_result-total request_id worker report now db fits owned =
    let (done, db', committed) =
      commit_row-total worker report now db (find_accepting request_id worker.id db)
        (λ r e. accepted_owned request_id worker db owned e) in
    (
      done,
      db',
      rw
          (
            lt→fits_integer report.input_tokens fits.input_tokens,
            lt→fits_integer report.output_tokens fits.output_tokens,
            committed,
            lt→fits_integer report.latency_ms fits.latency_ms,
          )
          (nothing_raised done (done, db')),
    )

error_row-total :
    (retryable : Bool) (detail : ErrorDetail) (db : Db) (found : Option OrbiRequest)
    → ((r : OrbiRequest) → found ≡ some r → HasProject db r)
    → (done : Bool) × (db' : Db) × (error_row retryable detail db found ≡ ok (done, db'))
error_row-total retryable detail db none owned = (false, db, refl)
error_row-total retryable detail db (some r) owned =
    elim (Bool-cases (retryable && ltb r.retry_count r.max_retries)) [
      | inl t ↦ (true, save_request (requeue_after_error detail r) db, rw t refl)
      | inr f ↦
          let (next, released, keeps) =
            release-total r.project_id r.reserved_tokens r.budget_day r.budget_month
              (save_request (fail_after_error detail r) db) (owned r refl) in
          (true, next, rw (f, released) refl)
    ]

-- A report of an error is either accepted or not, and never raises, if each request belongs to a
-- stored project.
pub record_error-total :
    (request_id : ℕ) (worker : Worker) (retryable : Bool) (detail : ErrorDetail) (db : Db)
    → IsOwned db
    → (done : Bool) × (db' : Db) × (record_error request_id worker retryable detail db
        ≡ ok (done, db'))
unfolding record_error
record_error-total request_id worker retryable detail db owned =
    error_row-total retryable detail db (find_accepting request_id worker.id db)
      (λ r e. accepted_owned request_id worker db owned e)
