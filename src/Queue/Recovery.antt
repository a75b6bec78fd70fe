-- ===== src/Queue/Recovery.antt =====
-- `QueueService.recover_expired_leases` of apps/gateway/src/orbi_gateway/services/queue.py.
use orbi_inference.Base.{
  ℕ, ◌+◌, Bool, false, ◌&&◌, none, some, List, [], ◌∷◌, ◌++◌, ltb, leb, is_none, keep, length,
}
use orbi_inference.Base.Table.{update_where}
use orbi_inference.Base.Calendar.{Instant}
use orbi_inference.Errors.{Result, ok, ◌>>=◌}
use orbi_inference.Entities.{OrbiRequest, Db}
use orbi_inference.Entities.Status.{RequestStatus, is_in_progress, is_queued}
use orbi_inference.Budget.{release}

-- `lease_expires < now`, which is not true of a null.
abbrev pub lease_is_over : Instant → OrbiRequest → Bool
lease_is_over now request = elim request.lease_expires [ none ↦ false | some lease ↦ ltb lease now ]

abbrev pub is_abandoned : Instant → OrbiRequest → Bool
is_abandoned now request =
    is_in_progress request.status && lease_is_over now request && is_none request.result

-- The conditions of the three updates of `recover_expired_leases`.
abbrev pub can_retry : Instant → OrbiRequest → Bool
can_retry now request = is_abandoned now request && ltb request.retry_count request.max_retries

abbrev pub cannot_retry : Instant → OrbiRequest → Bool
cannot_retry now request = is_abandoned now request && leb request.max_retries request.retry_count

abbrev pub is_overdue : Instant → OrbiRequest → Bool
is_overdue now request =
    is_queued request.status && ltb request.expires_at now && is_none request.result

-- The values of the three updates.
abbrev pub requeue : OrbiRequest → OrbiRequest
requeue request = record request {
  status = RequestStatus.queued;
  assigned_to = none;
  lease_expires = none;
  retry_count = request.retry_count + 1;
}

abbrev pub exhaust : OrbiRequest → OrbiRequest
exhaust request = record request {
  status = RequestStatus.failed_final;
  assigned_to = none;
  lease_expires = none;
  error_detail = some (record { code = "retry_budget_exhausted"; message = none });
}

abbrev pub expire : OrbiRequest → OrbiRequest
expire request = record request {
  status = RequestStatus.expired;
  error_detail = some (record { code = "queue_ttl_expired"; message = none });
}

-- `for row in rows: await release(...)`
unfoldable pub release_all : List OrbiRequest → Db → Result Db
release_all [] db = ok db
release_all (row ∷ rows) db = do
  released ← release row.project_id row.reserved_tokens row.budget_day row.budget_month db
  release_all rows released

-- The table after the first, the second and the third update.
abbrev pub after_requeue : Instant → List OrbiRequest → List OrbiRequest
after_requeue now = update_where (can_retry now) requeue

abbrev pub after_exhaust : Instant → List OrbiRequest → List OrbiRequest
after_exhaust now requests = update_where (cannot_retry now) exhaust (after_requeue now requests)

abbrev pub after_expire : Instant → List OrbiRequest → List OrbiRequest
after_expire now requests = update_where (is_overdue now) expire (after_exhaust now requests)

-- The rows that the second and the third update return.
abbrev pub terminal_rows : Instant → List OrbiRequest → List OrbiRequest
terminal_rows now requests = keep (cannot_retry now) (after_requeue now requests)

abbrev pub expired_rows : Instant → List OrbiRequest → List OrbiRequest
expired_rows now requests = keep (is_overdue now) (after_exhaust now requests)

-- `QueueService.recover_expired_leases`, with the number of rows that the first update changed.
unfoldable pub recover_expired_leases : Instant → Db → Result (ℕ × Db)
unfolding release_all
recover_expired_leases now db = do
  let requests = db.requests
  let updated = record db { requests = after_expire now requests }
  released ← release_all (terminal_rows now requests ++ expired_rows now requests) updated
  ok (length (keep (can_retry now) requests), released)
