-- ===== src/Queue/Rows.antt =====
-- How each method of `QueueService` acts on the single rows of the request table: one rule for each
-- way in which the code changes a row.
pub mod Operations
use orbi_inference.Base.{
  ℕ, ◌+◌, ◌<◌, ◌≤◌, ◌≡◌, refl, sym, ◌∙◌, subst, ◌⊎◌, Bool, true, false, ◌&&◌, Option, none, some,
  List, [], ◌∷◌, ◌++◌, arith, some-eq, none-ne_some, Option-cases, Bool-cases, inl, inr, ltb, leb,
  keep, if◌then◌else◌, ◌==◌,
}
use orbi_inference.Base.Json.{Json}
use orbi_inference.Base.Table.{get, modify, update_where, IsKeyed, key-get}
use orbi_inference.Base.Table.Related.{Related, Related-refl, modify-Related, update_where-Related}
use orbi_inference.Base.Table.Members.{IsIn, keep-IsIn, IsKeyed-get}
use orbi_inference.Base.Calendar.{Instant, seconds}
use orbi_inference.Errors.{Result, ok, err, ◌>>=◌, >>=-eq-ok}
use orbi_inference.Entities.{Worker, ErrorDetail, OrbiRequest, Db}
use orbi_inference.Entities.Status.{is_in_progress, is_queued}
use orbi_inference.Budget.{reconcile, release}
use orbi_inference.Budget.Frame.{
  SameOutsideProjects, reconcile_frame, SameOutsideProjects-refl, SameOutsideProjects-trans,
}
use orbi_inference.Queue.{find_request, accepts, if_accepting, find_accepting, save_request}
use orbi_inference.Queue.Claim.{
  assign, first_row, claim_next, first_of, comes_first, candidates, is_claimable, is_free,
  claim_row,
}
use orbi_inference.Queue.Commit.{
  Report, complete, commit_row, commit_result, store_result, total_tokens,
}
use orbi_inference.Queue.Failure.{requeue_after_error, fail_after_error, error_row, record_error}
use orbi_inference.Queue.Recovery.{
  can_retry, cannot_retry, is_overdue, requeue, exhaust, expire, release_all, after_requeue,
  after_exhaust, after_expire, recover_expired_leases, terminal_rows, expired_rows,
}

-- A relation between a row and what becomes of it that every change of the code respects,
-- but for the one that stores a result.
pub record QuietRules (R : OrbiRequest → OrbiRequest → Type 0) : Type 0 where
  pub same : (a : OrbiRequest) → R a a
  pub chain : (a b c : OrbiRequest) → R a b → R b c → R a c
  pub claimed :
      (a : OrbiRequest) (worker_id : ℕ) (lease : Instant)
      → is_queued a.status ≡ true
      → R a (assign worker_id lease a)
  pub retried :
      (a : OrbiRequest) (worker_id : ℕ) (detail : ErrorDetail)
      → accepts worker_id a ≡ true
      → a.retry_count < a.max_retries
      → R a (requeue_after_error detail a)
  pub failed :
      (a : OrbiRequest) (worker_id : ℕ) (detail : ErrorDetail)
      → accepts worker_id a ≡ true
      → R a (fail_after_error detail a)
  pub requeued : (a : OrbiRequest) (now : Instant) → can_retry now a ≡ true → R a (requeue a)
  pub exhausted : (a : OrbiRequest) (now : Instant) → cannot_retry now a ≡ true → R a (exhaust a)
  pub expired : (a : OrbiRequest) (now : Instant) → is_overdue now a ≡ true → R a (expire a)

-- The same with the change that stores a result.
pub record RowRules (R : OrbiRequest → OrbiRequest → Type 0) : Type 0 where
  pub quiet : QuietRules R
  pub completed :
      (a : OrbiRequest) (worker_id : ℕ) (result : Json) (input output : ℕ) (now : Instant)
      → accepts worker_id a ≡ true
      → R a (complete result input output now a)

abbrev pub RowsRelated : (OrbiRequest → OrbiRequest → Type 0) → Db → Db → Type 0
RowsRelated R a b = Related OrbiRequest.id R a.requests b.requests

if_accepting-eq_some :
    (worker_id : ℕ) (found : Option OrbiRequest) {row : OrbiRequest}
    → if_accepting worker_id found ≡ some row
    → (found ≡ some row) × (accepts worker_id row ≡ true)
if_accepting-eq_some worker_id none h = absurd (ground arith)
if_accepting-eq_some worker_id (some r) {row} h = elim (Bool-cases (accepts worker_id r)) [
  | inl t ↦ let same : some r ≡ some row = rw t at h in (same, rw (some-eq same) at t)
  | inr f ↦ absurd (none-ne_some (rw f at h))
]

-- A report is accepted for the stored request of that id, under the other conditions.
pub find_accepting-eq_some :
    (request_id worker_id : ℕ) (db : Db) {row : OrbiRequest}
    → find_accepting request_id worker_id db ≡ some row
    → (find_request request_id db ≡ some row) × (accepts worker_id row ≡ true)
find_accepting-eq_some request_id worker_id db h =
    if_accepting-eq_some worker_id (find_request request_id db) h

first_of-cases :
    (r : OrbiRequest) (best : Option OrbiRequest)
    → (first_of r best ≡ r) ⊎ ((b : OrbiRequest) × (best ≡ some b) × (first_of r best ≡ b))
first_of-cases r none = inl refl
first_of-cases r (some b) = elim (Bool-cases (comes_first r b)) [
  | inl t ↦ inl (rw t)
  | inr f ↦ inr (b, refl, rw f)
]

pub first_row-IsIn :
    (rows : List OrbiRequest) {r : OrbiRequest} → first_row rows ≡ some r → IsIn r rows
unfolding first_row
first_row-IsIn [] h = absurd (none-ne_some h)
first_row-IsIn (x ∷ xs) {r} h = elim (first_of-cases x (first_row xs)) [
  | inl e ↦ inl (sym (some-eq h) ∙ e)
  | inr (b, e, q) ↦ inr (subst (λ z. IsIn z xs) (sym q ∙ some-eq h) (first_row-IsIn xs {r = b} e))
]

-- What `claim_next` finds is a stored row that meets its conditions and is not locked.
pub candidate_row :
    (contained : Json → Json → Bool) (locked : List ℕ) (now : Instant) (worker : Worker) (db : Db)
    {r : OrbiRequest}
    → IsKeyed OrbiRequest.id db.requests
    → first_row (candidates contained locked now worker db) ≡ some r
    → (find_request r.id db ≡ some r)
      × (is_claimable contained now worker r ≡ true)
      × (is_free contained locked r ≡ true)
candidate_row contained locked now worker db {r} keyed h =
    let (m, t) =
      keep-IsIn _ r db.requests (first_row-IsIn (candidates contained locked now worker db) h) in
    (IsKeyed-get OrbiRequest.id r db.requests keyed m, ground arith, ground arith)
