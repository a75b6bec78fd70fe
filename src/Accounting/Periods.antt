-- ===== src/Accounting/Periods.antt =====
-- The periods of the projects in services/budget.py: a request is never charged to a day or a month
-- after the one that its project's counters stand for.
use orbi_inference.Base.{
  ℕ, ◌≡◌, refl, sym, subst, ◌∙◌, Bool, Option, none, some, List, [], ◌∷◌, ◌++◌, arith, Option-cases,
  Bool-cases, inl, inr, some-eq, ◌&&◌, ltb,
}
use orbi_inference.Base.Table.{modify}
use orbi_inference.Base.Table.Related.{Related, Related-refl, Related-trans, modify-Related}
use orbi_inference.Base.Calendar.{Instant, Date}
use orbi_inference.Errors.{ok, >>=-eq-ok}
use orbi_inference.Entities.{Project, Worker, ErrorDetail, OrbiRequest, Db}
use orbi_inference.Budget.{reconcile, reconcile_row, release, find_project}
use orbi_inference.Queue.{find_accepting, save_request}
use orbi_inference.Queue.Commit.{
  commit_row-committed, Report, commit_row, commit_result, store_result, total_tokens,
}
use orbi_inference.Queue.Failure.{error_row, record_error, fail_after_error}
use orbi_inference.Queue.Recovery.{
  release_all, recover_expired_leases, terminal_rows, expired_rows, after_expire,
}

-- A project whose counters may have changed, within the same periods.
pub record SamePeriods (p q : Project) : Type 0 where
  pub id : q.id ≡ p.id
  pub day : q.daily_usage_date ≡ p.daily_usage_date
  pub month : q.monthly_usage_month ≡ p.monthly_usage_month
  pub daily_limit : q.daily_token_limit ≡ p.daily_token_limit
  pub monthly_limit : q.monthly_token_limit ≡ p.monthly_token_limit

pub SamePeriods-refl : (p : Project) → SamePeriods p p
SamePeriods-refl p = ground arith

pub SamePeriods-trans : (p q r : Project) → SamePeriods p q → SamePeriods q r → SamePeriods p r
SamePeriods-trans p q r a b = record {
  id = b.id ∙ a.id;
  day = b.day ∙ a.day;
  month = b.month ∙ a.month;
  daily_limit = b.daily_limit ∙ a.daily_limit;
  monthly_limit = b.monthly_limit ∙ a.monthly_limit;
}

abbrev pub KeepsPeriods : Db → Db → Type 0
KeepsPeriods a b = Related Project.id SamePeriods a.projects b.projects

pub KeepsPeriods-refl : (a : Db) → KeepsPeriods a a
KeepsPeriods-refl a = Related-refl Project.id SamePeriods SamePeriods-refl a.projects

reconcile_row-SamePeriods :
    (reserved actual : ℕ) (day month : Date) (p : Project)
    → SamePeriods p (reconcile_row reserved actual day month p)
unfolding reconcile_row
reconcile_row-SamePeriods reserved actual day month p = record {
  id = refl;
  day = refl;
  month = refl;
  daily_limit = refl;
  monthly_limit = refl;
}

pub reconcile-KeepsPeriods :
    (pid reserved actual : ℕ) (day month : Date) (db : Db) {db' : Db}
    → reconcile pid reserved actual day month db ≡ ok db'
    → KeepsPeriods db db'
unfolding reconcile
reconcile-KeepsPeriods pid reserved actual day month db {db'} h =
    elim (Option-cases (find_project pid db)) [
      | inl e ↦ absurd (ground arith)
      | inr (p, e) ↦
          let q : db'.projects
              ≡ modify Project.id pid (λ _. reconcile_row reserved actual day month p) db.projects =
            ground arith in
          rw q (
            modify-Related Project.id SamePeriods pid _ db.projects SamePeriods-refl (λ a g.
              rw (some-eq (sym g ∙ e)) (reconcile_row-SamePeriods reserved actual day month p)))
    ]

pub release_all-KeepsPeriods :
    (rows : List OrbiRequest) (db : Db) {db' : Db}
    → release_all rows db ≡ ok db'
    → KeepsPeriods db db'
unfolding release_all release
release_all-KeepsPeriods [] db {db'} h =
    let q : db ≡ db' = ground arith in subst (KeepsPeriods db) q (KeepsPeriods-refl db)
release_all-KeepsPeriods (r ∷ rows) db {db'} h =
    let (d, first, rest) =
      >>=-eq-ok (release r.project_id r.reserved_tokens r.budget_day r.budget_month db) _ h in
    Related-trans Project.id SamePeriods db.projects d.projects db'.projects SamePeriods-trans
      (reconcile-KeepsPeriods _ _ _ _ _ _ first) (release_all-KeepsPeriods rows d {db' = db'} rest)

commit_row-KeepsPeriods :
    (worker : Worker) (report : Report) (now : Instant) (db : Db) (found : Option OrbiRequest)
    {done : Bool} {db' : Db}
    → commit_row worker report now db found ≡ ok (done, db')
    → KeepsPeriods db db'
commit_row-KeepsPeriods worker report now db none {done} {db'} h =
    let q : db ≡ db' = ground arith in subst (KeepsPeriods db) q (KeepsPeriods-refl db)
commit_row-KeepsPeriods worker report now db (some r) {done} {db'} h =
    let (d, reconciled, e) =
      >>=-eq-ok
        (reconcile r.project_id r.reserved_tokens (total_tokens report) r.budget_day r.budget_month
          (store_result now report r db))
        _ h in
    let q : db'.projects ≡ d.projects = ground arith in
    rw q (reconcile-KeepsPeriods _ _ _ _ _ _ reconciled)

pub commit_result-KeepsPeriods :
    (request_id : ℕ) (worker : Worker) (report : Report) (now : Instant) (db : Db) {done : Bool}
    {db' : Db}
    → commit_result request_id worker report now db ≡ ok (done, db')
    → KeepsPeriods db db'
commit_result-KeepsPeriods request_id worker report now db h =
    commit_row-KeepsPeriods worker report now db (find_accepting request_id worker.id db)
      (commit_row-committed request_id worker report now db h)

error_row-KeepsPeriods :
    (retryable : Bool) (detail : ErrorDetail) (db : Db) (found : Option OrbiRequest) {done : Bool}
    {db' : Db}
    → error_row retryable detail db found ≡ ok (done, db')
    → KeepsPeriods db db'
unfolding release
error_row-KeepsPeriods retryable detail db none {done} {db'} h =
    let q : db ≡ db' = ground arith in subst (KeepsPeriods db) q (KeepsPeriods-refl db)
error_row-KeepsPeriods retryable detail db (some r) {done} {db'} h =
    elim (Bool-cases (retryable && ltb r.retry_count r.max_retries)) [
      | inl t ↦ let q : db'.projects ≡ db.projects = ground arith in rw q (KeepsPeriods-refl db)
      | inr f ↦
          let (d, released, e) =
            >>=-eq-ok
              (release r.project_id r.reserved_tokens r.budget_day r.budget_month
                (save_request (fail_after_error detail r) db))
              _ (rw f at h) in
          let q : db'.projects ≡ d.projects = ground arith in
          rw q (reconcile-KeepsPeriods _ _ _ _ _ _ released)
    ]

pub record_error-KeepsPeriods :
    (request_id : ℕ) (worker : Worker) (retryable : Bool) (detail : ErrorDetail) (db : Db)
    {done : Bool} {db' : Db}
    → record_error request_id worker retryable detail db ≡ ok (done, db')
    → KeepsPeriods db db'
unfolding record_error
record_error-KeepsPeriods request_id worker retryable detail db h =
    error_row-KeepsPeriods retryable detail db (find_accepting request_id worker.id db) h

pub recover_expired_leases-KeepsPeriods :
    (now : Instant) (db : Db) {count : ℕ} {db' : Db}
    → recover_expired_leases now db ≡ ok (count, db')
    → KeepsPeriods db db'
unfolding recover_expired_leases
recover_expired_leases-KeepsPeriods now db {count} {db'} h =
    let (d, released, e) =
      >>=-eq-ok
        (release_all (terminal_rows now db.requests ++ expired_rows now db.requests)
          (record db { requests = after_expire now db.requests }))
        _ h in
    let q : db'.projects ≡ d.projects = ground arith in rw q (release_all-KeepsPeriods _ _ released)
