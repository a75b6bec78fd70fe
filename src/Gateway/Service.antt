-- ===== src/Gateway/Service.antt =====
-- What the gateway keeps doing in every database that its transactions reach: the methods of
-- `QueueService` in services/queue.py do not raise, and a recovery pass closes a dead request.
use orbi_inference.Base.{
  Option-cases, ltb, ◌++◌, ℕ, ◌<◌, ◌≡◌, refl, sym, ap, ◌∙◌, subst, Bool, true, false, some, List,
  [], ◌∷◌, arith, Bool-cases, inl, inr, if◌then◌else◌,
}
use orbi_inference.Base.Table.{get, update_where}
use orbi_inference.Base.Table.Members.{get-IsIn, All-IsIn}
use orbi_inference.Base.Json.{Json}
use orbi_inference.Base.Calendar.{Instant}
use orbi_inference.Errors.{ok, >>=-eq-ok}
use orbi_inference.Entities.{OrbiRequest, Db}
use orbi_inference.Entities.Status.{is_queued, is_in_progress, RequestStatus, is_terminal}
use orbi_inference.Queue.{find_request}
use orbi_inference.Queue.Recovery.{
  is_abandoned, can_retry, cannot_retry, is_overdue, requeue, exhaust, expire, after_requeue,
  after_exhaust, after_expire, terminal_rows, expired_rows, release_all, recover_expired_leases,
}
use orbi_inference.Queue.Rows.Operations.{release_all_frame}
use orbi_inference.Queue.Shape.{IsWellFormed, queued-HasShape, in_progress-HasShape}
use orbi_inference.Queue.Totality.{recover_expired_leases-total}
use orbi_inference.Chat.{ChatCompletionRequest}
use orbi_inference.Gateway.{Reach}
use orbi_inference.Gateway.Invariant.{IsSound}
use orbi_inference.Gateway.Soundness.{Reach-IsSound}

-- `update(T).where(test).values(f)` at one row.
changed : (OrbiRequest → Bool) → (OrbiRequest → OrbiRequest) → OrbiRequest → OrbiRequest
changed test f r = if test r then f r else r

changed-met :
    (test : OrbiRequest → Bool) (f : OrbiRequest → OrbiRequest) (r : OrbiRequest)
    → test r ≡ true
    → changed test f r ≡ f r
unfolding changed
changed-met test f r h = rw h refl

changed-unmet :
    (test : OrbiRequest → Bool) (f : OrbiRequest → OrbiRequest) (r : OrbiRequest)
    → test r ≡ false
    → changed test f r ≡ r
unfolding changed
changed-unmet test f r h = rw h refl

-- What one pass makes of a row: the three updates after one another.
abbrev recover_row : Instant → OrbiRequest → OrbiRequest
recover_row now r =
    changed (is_overdue now) expire
      (changed (cannot_retry now) exhaust (changed (can_retry now) requeue r))

get-update_where :
    (p : OrbiRequest → Bool) (f : OrbiRequest → OrbiRequest) (k : ℕ) (t : List OrbiRequest)
    {r : OrbiRequest}
    → ((x : OrbiRequest) → (f x).id ≡ x.id)
    → get OrbiRequest.id k t ≡ some r
    → get OrbiRequest.id k (update_where p f t) ≡ some (changed p f r)
unfolding get changed
get-update_where p f k [] same h = absurd (ground arith)
get-update_where p f k (x ∷ xs) {r} same h =
    ground (arith, same x, get-update_where p f k xs {r = r} same)

after_pass :
    (now : Instant) (k : ℕ) (t : List OrbiRequest) {r : OrbiRequest}
    → get OrbiRequest.id k t ≡ some r
    → get OrbiRequest.id k (after_expire now t) ≡ some (recover_row now r)
after_pass now k t {r} h =
    get-update_where (is_overdue now) expire k (after_exhaust now t) (λ x. refl)
      (get-update_where (cannot_retry now) exhaust k (after_requeue now t) (λ x. refl)
        (get-update_where (can_retry now) requeue k t (λ x. refl) h))

recovered-find_request :
    (now : Instant) (k : ℕ) (db : Db) {r : OrbiRequest} {count : ℕ} {db' : Db}
    → recover_expired_leases now db ≡ ok (count, db')
    → find_request k db ≡ some r
    → find_request k db' ≡ some (recover_row now r)
unfolding recover_expired_leases
recovered-find_request now k db {r} {count} {db'} h found =
    let (d, released, e) =
      >>=-eq-ok
        (release_all (terminal_rows now db.requests ++ expired_rows now db.requests)
          (record db { requests = after_expire now db.requests }))
        _ h in
    let q : db'.requests ≡ d.requests = ground arith in
    ap (get OrbiRequest.id k) (q ∙ (release_all_frame _ _ released).requests)
    ∙ after_pass now k db.requests found

-- No worker can still answer: the deadline has passed, and so has the lease, if there is one.
pub record IsDead (now : Instant) (r : OrbiRequest) : Type 0 where
  pub overdue : r.expires_at < now
  pub lapsed : (lease : Instant) → r.lease_expires ≡ some lease → lease < now

ltb_of : (now : Instant) (r : OrbiRequest) → IsDead now r → ltb r.expires_at now ≡ true
ltb_of now r dead = ground (arith, dead.overdue)

-- A row that lost its lease: requeued and then expired, or exhausted.
abandoned-is_terminal :
    (now : Instant) (r : OrbiRequest)
    → IsDead now r
    → is_abandoned now r ≡ true
    → is_terminal (recover_row now r).status ≡ true
abandoned-is_terminal now r dead lost = elim (Bool-cases (ltb r.retry_count r.max_retries)) [
  | inl more ↦
      let e : recover_row now r ≡ expire (requeue r) =
        ap (λ x. changed (is_overdue now) expire (changed (cannot_retry now) exhaust x))
          (changed-met (can_retry now) requeue r (ground arith))
        ∙ ap (changed (is_overdue now) expire)
            (changed-unmet (cannot_retry now) exhaust (requeue r) refl)
        ∙ changed-met (is_overdue now) expire (requeue r) (ground (arith, ltb_of now r dead)) in
      subst (λ (x : OrbiRequest). is_terminal x.status ≡ true) (sym e) refl
  | inr last ↦
      let e : recover_row now r ≡ exhaust r =
        ap (λ x. changed (is_overdue now) expire (changed (cannot_retry now) exhaust x))
          (changed-unmet (can_retry now) requeue r (ground arith))
        ∙ ap (changed (is_overdue now) expire)
            (changed-met (cannot_retry now) exhaust r (ground arith))
        ∙ changed-unmet (is_overdue now) expire (exhaust r) refl in
      subst (λ (x : OrbiRequest). is_terminal x.status ≡ true) (sym e) refl
]

in_progress-is_abandoned :
    (now : Instant) (r : OrbiRequest)
    → IsWellFormed r
    → IsDead now r
    → is_in_progress r.status ≡ true
    → is_abandoned now r ≡ true
in_progress-is_abandoned now r w dead h =
    let (worker, leased, result) =
      in_progress-HasShape r.status r.assigned_to r.lease_expires r.result h w.shape in
    elim (Option-cases r.lease_expires) [
      | inl e ↦ ground arith
      | inr (lease, e) ↦ ground (arith, dead.lapsed lease e)
    ]

closed : (s : RequestStatus) → is_in_progress s ≡ false → is_queued s ≡ false → is_terminal s ≡ true
closed RequestStatus.queued h q = cc
closed _ h q = ground arith

-- A row that a worker does not hold: expired now, or closed before.
unheld-is_terminal :
    (now : Instant) (r : OrbiRequest)
    → IsWellFormed r
    → IsDead now r
    → is_in_progress r.status ≡ false
    → is_terminal (recover_row now r).status ≡ true
unheld-is_terminal now r w dead h =
    let same : recover_row now r ≡ changed (is_overdue now) expire r =
      ap (λ x. changed (is_overdue now) expire (changed (cannot_retry now) exhaust x))
        (changed-unmet (can_retry now) requeue r (ground arith))
      ∙ ap (changed (is_overdue now) expire)
          (changed-unmet (cannot_retry now) exhaust r (ground arith)) in
    elim (Bool-cases (is_queued r.status)) [
      | inl q ↦
          let (_, _, result) =
            queued-HasShape r.status r.assigned_to r.lease_expires r.result q w.shape in
          let e =
            same
            ∙ changed-met (is_overdue now) expire r (ground (arith, ltb_of now r dead, result)) in
          subst (λ (x : OrbiRequest). is_terminal x.status ≡ true) (sym e) refl
      | inr q ↦
          let e = same ∙ changed-unmet (is_overdue now) expire r (ground arith) in
          subst (λ (x : OrbiRequest). is_terminal x.status ≡ true) (sym e) (closed r.status h q)
    ]

recover_row-is_terminal :
    (now : Instant) (r : OrbiRequest)
    → IsWellFormed r
    → IsDead now r
    → is_terminal (recover_row now r).status ≡ true
recover_row-is_terminal now r w dead = elim (Bool-cases (is_in_progress r.status)) [
  | inl held ↦ abandoned-is_terminal now r dead (in_progress-is_abandoned now r w dead held)
  | inr free ↦ unheld-is_terminal now r w dead free
]

module _ (dump : ChatCompletionRequest → Json) (contained : Json → Json → Bool) where
  -- Whatever transactions have run, a recovery pass after the deadline and the lease of a request
  -- returns and leaves the request in a status at which clients stop waiting. Retries that are left
  -- do not keep the request alive.
  pub Reach-closes :
      {a b : Db} (now : Instant) (k : ℕ) (r : OrbiRequest)
      → IsSound a
      → Reach contained dump a b
      → find_request k b ≡ some r
      → IsDead now r
      → (count : ℕ) × (db' : Db) × (r' : OrbiRequest) × (recover_expired_leases now b
          ≡ ok (count, db'))
        × (find_request k db' ≡ some r')
        × (is_terminal r'.status ≡ true)
  Reach-closes {a} {b} now k r s walk found dead =
      let sound = Reach-IsSound dump contained s walk in
      let (count, db', done) = recover_expired_leases-total now b sound.owned in
      let formed : IsWellFormed r =
        All-IsIn IsWellFormed r b.requests sound.formed
          (get-IsIn OrbiRequest.id k r b.requests found) in
      (
        count,
        db',
        recover_row now r,
        done,
        recovered-find_request now k b done found,
        recover_row-is_terminal now r formed dead,
      )
