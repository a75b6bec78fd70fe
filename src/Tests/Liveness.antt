-- ===== src/Tests/Liveness.antt =====
-- What the gateway keeps doing, at the run of the sample database.
use orbi_inference.Base.{true, ℕ, ◌+◌, ◌≡◌, refl, some, arith}
use orbi_inference.Base.Calendar.{date_of}
use orbi_inference.Queue.Claim.{claim_next}
use orbi_inference.Base.Table.{get, modify}
use orbi_inference.Budget.{reserve, reserve_row}
use orbi_inference.Idempotency.{validate_idempotency_key}
use orbi_inference.Chat.{enqueue, reservation}
use orbi_inference.Queue.Claim.{first_row}
use orbi_inference.Chat.{accept}
use orbi_inference.Base.Calendar.{Instant, seconds}
use orbi_inference.Errors.{ok}
use orbi_inference.Entities.{OrbiRequest, Db}
use orbi_inference.Entities.Status.{is_terminal}
use orbi_inference.Queue.{find_request}
use orbi_inference.Queue.Recovery.{recover_expired_leases}
use orbi_inference.Gateway.Service.{IsDead, Reach-closes}
use orbi_inference.Tests.{noon, dump, contained, assigned_db, assigned_request}
use orbi_inference.Tests.Runs.{empty_db-IsSound, walk_assigned}

-- Eleven minutes later the deadline of the request and the lease of its worker are over.
abbrev much_later : Instant
much_later = noon + seconds 660

assigned_stored : find_request 7 assigned_db ≡ some assigned_request
unfolding claim_next first_row accept validate_idempotency_key enqueue reserve get modify
    reserve_row reservation date_of
assigned_stored = refl

assigned-IsDead : IsDead much_later assigned_request
assigned-IsDead = record { overdue = omega arith; lapsed = λ lease e. ground arith }

Reach-closes_example :
    (count : ℕ) × (db' : Db) × (r' : OrbiRequest) × (recover_expired_leases much_later assigned_db
      ≡ ok (count, db'))
    × (find_request 7 db' ≡ some r')
    × (is_terminal r'.status ≡ true)
Reach-closes_example =
    Reach-closes dump contained much_later 7 assigned_request empty_db-IsSound walk_assigned
      assigned_stored assigned-IsDead
