-- ===== src/Tests/Runs.antt =====
-- The theorems on runs of the gateway, at the sample database.
use orbi_inference.Base.{if◌then◌else◌, ℕ, ◌≡◌, refl, true, false, none, some, [], ◌∷◌, arith, map}
use orbi_inference.Base.Table.{get}
use orbi_inference.Base.Calendar.{date_of}
use orbi_inference.Errors.{data_error, err, ok}
use orbi_inference.Entities.{Project, OrbiRequest}
use orbi_inference.Queue.{find_request}
use orbi_inference.Base.{◌+◌}
use orbi_inference.Base.Calendar.{seconds}
use orbi_inference.Base.Table.Members.{IsIn}
use orbi_inference.Queue.Claim.{claim_next, assign}
use orbi_inference.Queue.Selection.{
  IsCandidate, IsServedBefore, claim_next-first, claim_next-nothing,
}
use orbi_inference.Queue.Commit.{can_update, commit_result, complete}
use orbi_inference.Base.Table.{modify}
use orbi_inference.Budget.{reserve, reserve_row, reconcile, reconcile_row, release}
use orbi_inference.Queue.Failure.{record_error}
use orbi_inference.Queue.Recovery.{recover_expired_leases}
use orbi_inference.Queue.Usage.{IsAccounted, commit_result-IsAccounted}
use orbi_inference.Accounting.{IsBalanced}
use orbi_inference.Accounting.Reports.{commit_result-IsBalanced}
use orbi_inference.Accounting.Failures.{record_error-IsBalanced}
use orbi_inference.Accounting.Recovery.{recover_expired_leases-IsBalanced}
use orbi_inference.Idempotency.{validate_idempotency_key}
use orbi_inference.Chat.{enqueue, reservation}
use orbi_inference.Queue.Claim.{first_row}
use orbi_inference.Queue.Lifecycle.{Evolves}
use orbi_inference.Gateway.Promises.{
  Reach-Evolves, Reach-keeps_final, commit_result-once, commit_result-stored, IsHeldBy,
}
use orbi_inference.Gateway.Idempotence.{accept-once}
use orbi_inference.Chat.{replay}
use orbi_inference.Chat.{find_call}
use orbi_inference.Chat.{accepted, accept}
use orbi_inference.Chat.Charges.{Advances}
use orbi_inference.Gateway.{accepts as accepting, claims, commits, Reach, here, next}
use orbi_inference.Gateway.Invariant.{IsSound}
use orbi_inference.Gateway.Soundness.{Reach-IsSound}
use orbi_inference.Tests.{
  noon, project, api_key, worker, empty_db, payload, call_key, clock, dump, contained, report,
  queued_db, assigned_db, completed_db, failed_db, recovered_db, broken, late, queued_request,
  assigned_request, completed_request, no_json,
}

pub only_project :
    (pid : ℕ) (p : Project) → get Project.id pid empty_db.projects ≡ some p → project ≡ p
unfolding get
only_project pid p g = ground arith

pub empty_db-IsSound : IsSound empty_db
empty_db-IsSound = record {
  keyed = tt;
  owned = tt;
  sized = tt;
  formed = tt;
  accounted = λ k. unfold get in refl;
  balanced = record {
    day = λ pid p g. rw (← only_project pid p g) refl;
    month = λ pid p g. rw (← only_project pid p g) refl;
  };
  dated = record { at = λ pid p g. tt };
}

clock-Advances : Advances noon 1 empty_db
unfolding date_of
clock-Advances p g = rw (← only_project 1 p g) (omega arith)

accept_runs :
    accept dump 7 clock api_key payload (some call_key) empty_db ≡ ok (accepted 7, queued_db)
unfolding accept validate_idempotency_key enqueue reserve get modify reserve_row reservation date_of
accept_runs = refl

commit_runs : commit_result 7 worker report noon assigned_db ≡ ok (true, completed_db)
unfolding commit_result reconcile reconcile_row claim_next first_row accept validate_idempotency_key
    enqueue reserve get modify reserve_row reservation date_of
commit_runs = refl

walk_queued : Reach contained dump empty_db queued_db
unfolding get
walk_queued = next here (
    accepting 7 clock api_key payload (some call_key) (accepted 7) refl clock-Advances refl
      accept_runs)

pub walk_assigned : Reach contained dump empty_db assigned_db
walk_assigned = next walk_queued (claims [] noon worker 120 refl)

walk_completed : Reach contained dump empty_db completed_db
walk_completed = next walk_assigned (commits 7 worker report noon true commit_runs)

from_queued : Reach contained dump queued_db completed_db
from_queued =
    next (next here (claims [] noon worker 120 refl))
      (commits 7 worker report noon true commit_runs)

-- After the run the project is charged with the eleven tokens that the worker reported.
completed_charge : map (λ (p : Project). p.daily_tokens_used) completed_db.projects ≡ 11 ∷ []
unfolding commit_result reconcile reconcile_row claim_next first_row accept validate_idempotency_key
    enqueue reserve get modify reserve_row reservation date_of
completed_charge = refl

error_runs : record_error 7 worker false broken assigned_db ≡ ok (true, failed_db)
unfolding record_error release reconcile reconcile_row claim_next first_row accept
    validate_idempotency_key enqueue reserve get modify reserve_row reservation date_of
error_runs = refl

recovery_runs : recover_expired_leases late assigned_db ≡ ok (1, recovered_db)
unfolding recover_expired_leases release reconcile reconcile_row claim_next first_row accept
    validate_idempotency_key enqueue reserve get modify reserve_row reservation date_of
recovery_runs = refl

-- A lost lease puts the request back into the queue.
recovered_state : map (λ (r : OrbiRequest). r.retry_count) recovered_db.requests ≡ 1 ∷ []
unfolding recover_expired_leases release reconcile reconcile_row claim_next first_row accept
    validate_idempotency_key enqueue reserve get modify reserve_row reservation date_of
recovered_state = refl

queued_stored : find_request 7 queued_db ≡ some queued_request
unfolding accept validate_idempotency_key enqueue reserve get modify reserve_row reservation date_of
queued_stored = refl

completed_stored : find_request 7 completed_db ≡ some completed_request
unfolding commit_result reconcile reconcile_row claim_next first_row accept validate_idempotency_key
    enqueue reserve get modify reserve_row reservation date_of
completed_stored = refl

Reach-IsSound_example : IsSound completed_db
Reach-IsSound_example = Reach-IsSound dump contained empty_db-IsSound walk_completed

queued-IsSound : IsSound queued_db
queued-IsSound = Reach-IsSound dump contained empty_db-IsSound walk_queued

assigned-IsSound : IsSound assigned_db
assigned-IsSound = Reach-IsSound dump contained empty_db-IsSound walk_assigned

accept-once_example :
    (r : OrbiRequest) × (find_call 3 (some call_key) completed_db.requests ≡ some r)
    × (r.id ≡ 7)
    × (accept dump 8 clock api_key payload (some call_key) completed_db
        ≡ ok (replay r, completed_db))
unfolding get
accept-once_example =
    accept-once dump contained 7 8 clock clock api_key payload payload call_key empty_db-IsSound
      refl clock-Advances refl accept_runs from_queued refl

commit_result-once_example :
    commit_result 7 worker report noon completed_db
    ≡ (if can_update report then ok (false, completed_db) else err data_error)
commit_result-once_example =
    commit_result-once dump contained 7 worker worker report report noon noon assigned-IsSound
      commit_runs here

Reach-Evolves_example :
    (r' : OrbiRequest) × (find_request 7 completed_db ≡ some r') × Evolves queued_request r'
Reach-Evolves_example =
    Reach-Evolves dump contained 7 queued_request queued-IsSound queued_stored from_queued

Reach-keeps_final_example : find_request 7 completed_db ≡ some completed_request
Reach-keeps_final_example =
    Reach-keeps_final dump contained 7 completed_request Reach-IsSound_example completed_stored refl
      here

commit_result-stored_example :
    (r : OrbiRequest) × (find_request 7 assigned_db ≡ some r)
    × IsHeldBy worker.id r
    × (find_request 7 completed_db ≡ some (complete no_json 2 9 noon r))
commit_result-stored_example = commit_result-stored 7 worker report noon assigned_db commit_runs

commit_result-IsBalanced_example : IsBalanced completed_db
commit_result-IsBalanced_example =
    commit_result-IsBalanced 7 worker report noon assigned_db assigned-IsSound.balanced commit_runs

commit_result-IsAccounted_example : IsAccounted completed_db
commit_result-IsAccounted_example =
    commit_result-IsAccounted 7 worker report noon assigned_db assigned-IsSound.accounted
      commit_runs

record_error-IsBalanced_example : IsBalanced failed_db
record_error-IsBalanced_example =
    record_error-IsBalanced 7 worker false broken assigned_db assigned-IsSound.balanced error_runs

recover_expired_leases-IsBalanced_example : IsBalanced recovered_db
recover_expired_leases-IsBalanced_example =
    recover_expired_leases-IsBalanced late assigned_db assigned-IsSound.balanced recovery_runs

claim_runs :
    claim_next contained [] noon worker 120 queued_db ≡ (some assigned_request, assigned_db)
unfolding claim_next first_row accept validate_idempotency_key enqueue reserve get modify
    reserve_row reservation date_of
claim_runs = refl

claim_next-first_example :
    (r : OrbiRequest) × (find_request r.id queued_db ≡ some r)
    × IsCandidate contained [] noon worker r
    × ((x : OrbiRequest)
        → IsIn x queued_db.requests
        → IsCandidate contained [] noon worker x
        → IsServedBefore r x)
    × (assigned_request ≡ assign 5 (noon + seconds 120) r)
    × (find_request r.id assigned_db ≡ some assigned_request)
claim_next-first_example =
    claim_next-first contained [] noon worker 120 queued_db queued-IsSound.keyed claim_runs

-- A second worker that comes while the row is locked gets nothing.
locked_runs : claim_next contained (7 ∷ []) noon worker 120 queued_db ≡ (none, queued_db)
unfolding claim_next first_row accept validate_idempotency_key enqueue reserve get modify
    reserve_row reservation date_of
locked_runs = refl

claim_next-nothing_example :
    (queued_db ≡ queued_db)
    × ((x : OrbiRequest)
        → IsIn x queued_db.requests
        → ¬ IsCandidate contained (7 ∷ []) noon worker x)
claim_next-nothing_example =
    claim_next-nothing contained (7 ∷ []) noon worker 120 queued_db locked_runs
