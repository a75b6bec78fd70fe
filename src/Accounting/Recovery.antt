-- ===== src/Accounting/Recovery.antt =====
-- Lease recovery of services/queue.py gives back exactly the reservations of the requests that it
-- ends, whatever their number.
use orbi_inference.Base.{◌∷◌, subst, ℕ, ◌+◌, ◌≡◌, refl, true, List, arith, sym, sum_by}
use orbi_inference.Base.Calendar.{Instant, Date}
use orbi_inference.Errors.{ok, >>=-eq-ok}
use orbi_inference.Entities.{OrbiRequest, Db}
use orbi_inference.Budget.{release}
use orbi_inference.Queue.Rows.Operations.{release_all_frame}
use orbi_inference.Accounting.{share, charge, spent, AgreesWith, IsBalanced}
use orbi_inference.Accounting.Reconcile.{Replaces, reconcile-AgreesWith}
use orbi_inference.Base.Table.Sums.{sum_by-update_where_same, sum_by-update_where_drop}
use orbi_inference.Base.{sum_by-append, [], ◌∷◌, ◌++◌}
use orbi_inference.Accounting.Reports.{queued-charge, in_progress-charge, AgreesWith-cong}
use orbi_inference.Queue.Recovery.{
  is_abandoned, can_retry, cannot_retry, is_overdue, requeue, exhaust, expire, release_all,
  after_requeue, after_exhaust, after_expire, recover_expired_leases, terminal_rows, expired_rows,
}

-- The reservations of rows that have been ended and are yet to be released.
abbrev pending : (OrbiRequest → Date) → List OrbiRequest → ℕ → Date → ℕ
pending period rows pid date = sum_by (λ r. share period pid date r.reserved_tokens r) rows

abbrev owed : (OrbiRequest → Date) → List OrbiRequest → List OrbiRequest → ℕ → Date → ℕ
owed period requests rows pid date = spent period requests pid date + pending period rows pid date

pending-Replaces :
    (period : OrbiRequest → Date) (requests rows : List OrbiRequest) (r : OrbiRequest)
    → Replaces period r r.reserved_tokens 0
        (owed period requests (r ∷ rows))
        (owed period requests rows)
pending-Replaces period requests rows r pid date = ground arith

-- Each release pays for one row.
release_all-AgreesWith :
    (requests rows : List OrbiRequest) (db : Db) {db' : Db}
    → AgreesWith
        (owed OrbiRequest.budget_day requests rows)
        (owed OrbiRequest.budget_month requests rows)
        db.projects
    → release_all rows db ≡ ok db'
    → AgreesWith
        (spent OrbiRequest.budget_day requests)
        (spent OrbiRequest.budget_month requests)
        db'.projects
unfolding release_all release
release_all-AgreesWith requests [] db {db'} agrees e =
    let q : db ≡ db' = ground arith in
    subst
      (λ (d : Db).
        AgreesWith (spent OrbiRequest.budget_day requests) (spent OrbiRequest.budget_month requests)
          d.projects)
      q (AgreesWith-cong (λ pid date. omega arith) (λ pid date. omega arith) agrees)
release_all-AgreesWith requests (r ∷ rows) db {db'} agrees e =
    let (d, first, rest) =
      >>=-eq-ok (release r.project_id r.reserved_tokens r.budget_day r.budget_month db) _ e in
    release_all-AgreesWith requests rows d {db' = db'}
      (reconcile-AgreesWith r r.reserved_tokens 0 _ _ _ _
        (pending-Replaces OrbiRequest.budget_day requests rows r)
        (pending-Replaces OrbiRequest.budget_month requests rows r) db agrees first)
      rest

in_progress_share :
    (period : OrbiRequest → Date) (now : Instant) (pid : ℕ) (date : Date) (r : OrbiRequest)
    → is_abandoned now r ≡ true
    → share period pid date (charge r) r ≡ share period pid date r.reserved_tokens r
in_progress_share period now pid date r h =
    let e : charge r ≡ r.reserved_tokens =
      in_progress-charge r.status r.reserved_tokens r.input_tokens r.output_tokens (ground arith) in
    rw e

queued_share :
    (period : OrbiRequest → Date) (now : Instant) (pid : ℕ) (date : Date) (r : OrbiRequest)
    → is_overdue now r ≡ true
    → share period pid date (charge r) r ≡ share period pid date r.reserved_tokens r
queued_share period now pid date r h =
    let e : charge r ≡ r.reserved_tokens =
      queued-charge r.status r.reserved_tokens r.input_tokens r.output_tokens (ground arith) in
    rw e

-- A period that the updates of a row leave alone.
record IsStable (period : OrbiRequest → Date) : Type 0 where
  requeued : (r : OrbiRequest) → period (requeue r) ≡ period r
  exhausted : (r : OrbiRequest) → period (exhaust r) ≡ period r
  expired : (r : OrbiRequest) → period (expire r) ≡ period r

share-requeue :
    (period : OrbiRequest → Date) (now : Instant) (pid : ℕ) (date : Date) (r : OrbiRequest)
    → IsStable period
    → can_retry now r ≡ true
    → share period pid date (charge (requeue r)) (requeue r) ≡ share period pid date (charge r) r
share-requeue period now pid date r stable h =
    rw stable.requeued (sym (in_progress_share period now pid date r (ground arith)))

zero_share :
    (period : OrbiRequest → Date) (pid : ℕ) (date : Date) (r : OrbiRequest)
    → share period pid date 0 r ≡ 0
zero_share period pid date r = ground arith

-- What the three updates take from the sums is what is pending afterwards.
after_expire-owed :
    (period : OrbiRequest → Date) (now : Instant) (t : List OrbiRequest) (pid : ℕ) (date : Date)
    → IsStable period
    → owed period (after_expire now t) (terminal_rows now t ++ expired_rows now t) pid date
      ≡ spent period t pid date
after_expire-owed period now t pid date stable =
    let c : OrbiRequest → ℕ = λ r. share period pid date (charge r) r in
    let d : OrbiRequest → ℕ = λ r. share period pid date r.reserved_tokens r in
    let first =
      sum_by-update_where_same c (can_retry now) requeue t
        (λ r h. share-requeue period now pid date r stable h) in
    let second =
      sum_by-update_where_drop c d (cannot_retry now) exhaust (after_requeue now t) (λ r h. (
        zero_share period pid date (exhaust r),
        in_progress_share period now pid date r (ground arith),
      )) in
    let third =
      sum_by-update_where_drop c d (is_overdue now) expire (after_exhaust now t)
        (λ r h. (zero_share period pid date (expire r), queued_share period now pid date r h)) in
    let split = sum_by-append d (terminal_rows now t) (expired_rows now t) in omega arith

-- If the token counters of every project are the sums of its requests' charges, they are so after a
-- pass of the recovery that commits.
pub recover_expired_leases-IsBalanced :
    (now : Instant) (db : Db) {count : ℕ} {db' : Db}
    → IsBalanced db
    → recover_expired_leases now db ≡ ok (count, db')
    → IsBalanced db'
unfolding recover_expired_leases
recover_expired_leases-IsBalanced now db {count} {db'} b e =
    let t : List OrbiRequest = db.requests in
    let rows : List OrbiRequest = terminal_rows now t ++ expired_rows now t in
    let updated : Db = record db { requests = after_expire now t } in
    let (d, released, e') = >>=-eq-ok (release_all rows updated) _ e in
    let q : d ≡ db' = ground arith in
    let day_stable : IsStable OrbiRequest.budget_day = record {
      requeued = λ r. refl;
      exhausted = λ r. refl;
      expired = λ r. refl;
    } in
    let month_stable : IsStable OrbiRequest.budget_month = record {
      requeued = λ r. refl;
      exhausted = λ r. refl;
      expired = λ r. refl;
    } in
    let agrees =
      release_all-AgreesWith (after_expire now t) rows updated {db' = d}
        (AgreesWith-cong
          (λ pid date. after_expire-owed OrbiRequest.budget_day now t pid date day_stable)
          (λ pid date. after_expire-owed OrbiRequest.budget_month now t pid date month_stable) b)
        released in
    subst IsBalanced q (rw (release_all_frame rows updated released).requests agrees)
