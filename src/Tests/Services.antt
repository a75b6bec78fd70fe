-- ===== src/Tests/Services.antt =====
-- The theorems on the rate limiter, the circuit breaker, the wait for a result, the liveness of
-- workers and the totality of the queue, at small inputs.

use orbi_inference.Base.{
  ℕ, zero, suc, ◌+◌, ◌*◌, ◌≤◌, ◌<◌, ◌≡◌, refl, String, Bool, true, false, some, List, [], ◌∷◌,
  arith,
}
use orbi_inference.Base.Text.{codes}
use orbi_inference.Base.Json.{Json}
use orbi_inference.Base.Table.{get, modify}
use orbi_inference.Base.Calendar.{Instant, seconds, date_of}
use orbi_inference.Errors.{Result, ok}
use orbi_inference.Entities.{OrbiRequest, Db}
use orbi_inference.Entities.Status.{is_completed}
use orbi_inference.Budget.{reserve, reserve_row, reconcile, reconcile_row}
use orbi_inference.Queue.{find_request}
use orbi_inference.Queue.Claim.{claim_next, first_row}
use orbi_inference.Queue.Commit.{commit_result}
use orbi_inference.Queue.Failure.{record_error}
use orbi_inference.Queue.Recovery.{recover_expired_leases}
use orbi_inference.Queue.Totality.{
  IsOwned, FitsColumns, commit_result-total, record_error-total, recover_expired_leases-total,
}
use orbi_inference.Idempotency.{validate_idempotency_key}
use orbi_inference.Chat.{accept, enqueue, reservation}
use orbi_inference.Chat.Wait.{wait, wait_from, wait-returns, wait_from-stored}
use orbi_inference.RateLimit.{allowed, allowed_exact}
use orbi_inference.Entities.Status.{WorkerStatus}
use orbi_inference.Base.{◌⊎◌}
use orbi_inference.WorkerHealth.{
  IsLost, mark_stale_workers_offline, mark_stale_workers_offline-exact,
}
use orbi_inference.Auth.{find_worker}
use orbi_inference.Tests.{
  noon, no_json, worker, empty_db, report, assigned_db, completed_db, broken, late,
}
use orbi_inference.Tests.Servers.{plain_counters, no_counts}

abbrev three_calls : List Instant
three_calls = noon ∷ (noon + 1) ∷ (noon + 2) ∷ []

-- Of three calls in a minute two are let through.
allowed_exact_example : allowed plain_counters (codes "k") 2 three_calls no_counts ≡ 2
allowed_exact_example =
    allowed_exact plain_counters (codes "k") 2 28_486_080 three_calls no_counts
      (refl, (refl, (refl, tt)))

abbrev two_failures : List (Instant × Instant)
two_failures = (noon, noon) ∷ (noon + 9, noon + 9) ∷ []

-- A loop that passes every quarter of a second, and sees the result in its second pass.
abbrev ticks : ℕ → Instant
ticks i = noon + 250_000 * i

abbrev seen : ℕ → Db
seen zero = assigned_db
seen (suc i) = completed_db

abbrev timed_out : ℕ → String
timed_out id = "timeout"

wait-returns_example : (answer : Result Json) × (wait ticks seen timed_out noon 60 7 ≡ some answer)
wait-returns_example = wait-returns ticks seen timed_out noon 60 7 (omega arith) (λ j. omega arith)

result_comes : wait_from ticks seen timed_out 3 0 (noon + seconds 60) 7 ≡ some (ok no_json)
unfolding wait_from commit_result reconcile reconcile_row claim_next first_row accept
    validate_idempotency_key enqueue reserve get modify reserve_row reservation date_of
result_comes = refl

wait_from-stored_example :
    (j : ℕ) × (r : OrbiRequest) × (0 ≤ j)
    × (ticks j < noon + seconds 60)
    × (find_request 7 (seen j) ≡ some r)
    × (is_completed r.status ≡ true)
    × (r.result ≡ some no_json)
wait_from-stored_example =
    wait_from-stored ticks seen timed_out 3 0 (noon + seconds 60) 7 result_comes

mark_stale_workers_offline-exact_example :
    (IsLost 90 late worker
      × (find_worker 5 (mark_stale_workers_offline 90 late empty_db).1
          ≡ some (record worker { status = WorkerStatus.offline })))
    ⊎ (¬ IsLost 90 late worker
        × (find_worker 5 (mark_stale_workers_offline 90 late empty_db).1 ≡ some worker))
unfolding get
mark_stale_workers_offline-exact_example = mark_stale_workers_offline-exact 90 late 5 empty_db refl

assigned-IsOwned : IsOwned assigned_db
unfolding reconcile reconcile_row claim_next first_row accept validate_idempotency_key enqueue
    reserve get modify reserve_row reservation date_of
assigned-IsOwned = ((_, refl), tt)

report-FitsColumns : FitsColumns report
report-FitsColumns = record {
  input_tokens = omega arith;
  output_tokens = omega arith;
  latency_ms = omega arith;
}

commit_result-total_example :
    (done : Bool) × (db' : Db) × (commit_result 7 worker report noon assigned_db ≡ ok (done, db'))
commit_result-total_example =
    commit_result-total 7 worker report noon assigned_db report-FitsColumns assigned-IsOwned

record_error-total_example :
    (done : Bool) × (db' : Db) × (record_error 7 worker false broken assigned_db ≡ ok (done, db'))
record_error-total_example = record_error-total 7 worker false broken assigned_db assigned-IsOwned

recover_expired_leases-total_example :
    (count : ℕ) × (db' : Db) × (recover_expired_leases late assigned_db ≡ ok (count, db'))
recover_expired_leases-total_example =
    recover_expired_leases-total late assigned_db assigned-IsOwned
