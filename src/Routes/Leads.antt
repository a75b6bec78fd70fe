-- ===== src/Routes/Leads.antt =====
-- What the parts of a route lead to: its dependencies, the check of its body, and the handlers behind a
-- worker's token (dependencies.py, routes/internal/workers.py, routes/admin.py).
use orbi_inference.WorkerTokens.{verify}
use orbi_inference.Auth.{require_worker_scope, require_admin}
use orbi_inference.Queue.Failure.{record_error}
use orbi_inference.Queue.Commit.{commit_result}
use orbi_inference.Queue.Failure.{record_error}
use orbi_inference.Entities.{ErrorDetail}
use orbi_inference.Queue.Commit.{Report}
use orbi_inference.Admin.{Random}
use orbi_inference.WorkerRoutes.{WorkerHeartbeatRequest}
use orbi_inference.Base.{List}
use orbi_inference.WorkerRoutes.{unless_accepted}
use orbi_inference.Base.{
  ◌⊎◌, ℕ, ◌≡◌, refl, sym, subst, ap, String, Bool, true, false, Option, Bool-cases, inl, inr,
}
use orbi_inference.Base.Text.{Text}
use orbi_inference.Base.Calendar.{Instant}
use orbi_inference.Errors.{
  Exception, Exception, Result, ok, ◌>>=◌, ◌>>◌, >>=-eq-ok, ok-eq, ok-ne_err,
}
use orbi_inference.Entities.{ApiKey, Worker, Db}
use orbi_inference.Entities.Status.{is_online}
use orbi_inference.Auth.{AuthClock}
use orbi_inference.Schemas.{validated}
use orbi_inference.Routes.{Reply, Services, as_reply, no_content, with_admin, with_key, with_worker}
use orbi_inference.Routes.Dispatch.{quietly}
use orbi_inference.Routes.Frames.{SameTables, require_api_key-SameTables}
use orbi_inference.Admin.{create_worker_enrollment}
use orbi_inference.WorkerRoutes.{heartbeat}
use orbi_inference.WorkerRoutes.{pull_request}
use orbi_inference.WorkerRoutes.{renew_worker_token}
use orbi_inference.WorkerRoutes.{submit_error}
use orbi_inference.WorkerRoutes.{submit_result}
use orbi_inference.Gateway.{Step, claims, commits, errors, elsewhere, Reach, here, next}

module _ {S : Type 0} (services : Services S) where
  -- Whatever database a result leaves, it is reached by steps.
  abbrev pub Leads : Db → Result (Reply × Db) → Type 0
  Leads a r =
      (reply : Reply) (b : Db) → r ≡ ok (reply, b) → Reach services.contained services.dump a b

  pub bind-Leads :
      {A : Type 0} (a : Db) (m : Result A) (f : A → Result (Reply × Db))
      → ((v : A) → m ≡ ok v → Leads a (f v))
      → Leads a (m >>= f)
  bind-Leads a m f h reply b e = let (v, first, rest) = >>=-eq-ok m f e in h v first reply b rest

  pub reply-Leads :
      {A : Type 0} (a : Db) (reply : A → Reply) (answer : A) (b : Db)
      → Reach services.contained services.dump a b
      → Leads a (as_reply reply (answer, b))
  reply-Leads a reply answer b walk x c e =
      subst (Reach services.contained services.dump a) (ap (λ p. p.1) (ok-eq e)) walk

  pub same_walk : {a b : Db} → SameTables a b → Reach services.contained services.dump a b
  same_walk same = next here (elsewhere same.requests same.projects same.usage_records)

  -- The handlers behind a worker's token.
  pub pull_walk :
      (locked : List ℕ) (now : Instant) (worker : Worker) (db : Db)
      → Reach services.contained services.dump db
          (pull_request services.contained locked now worker services.worker_lease_seconds db).1
  unfolding pull_request
  pull_walk locked now worker db = elim (Bool-cases (is_online worker.status)) [
    | inl on ↦ rw on (next here (claims locked now worker services.worker_lease_seconds refl))
    | inr off ↦ rw off here
  ]

  pub renew_walk :
      (worker : Worker) (jti : Text) (now : Instant) (db : Db)
      → Reach services.contained services.dump db
          (renew_worker_token services.jwt worker jti now db).1
  unfolding renew_worker_token
  renew_walk worker jti now db = next here (elsewhere refl refl refl)

  pub heartbeat_step :
      (payload : WorkerHeartbeatRequest) (worker : Worker) (now : Instant) (db : Db)
      → Step services.contained services.dump db (heartbeat payload worker now db)
  unfolding heartbeat
  heartbeat_step payload worker now db = elsewhere refl refl refl

  pub enrollment_walk :
      (random : Random) (new_id : ℕ) (now : Instant) (expires_in_seconds : ℕ) (db : Db)
      → Reach services.contained services.dump db
          (create_worker_enrollment services.enrollment_hasher services.enrollment_pepper random
            new_id now expires_in_seconds db).1
  unfolding create_worker_enrollment
  enrollment_walk random new_id now expires_in_seconds db = next here (elsewhere refl refl refl)

  pub accepted_report :
      (e : Exception) (answer : Bool × Db) {b : Db} → unless_accepted e answer ≡ ok b → answer.1 ≡ b
  accepted_report e (true, db) h = ok-eq h
  accepted_report e (false, db) h = absurd (ok-ne_err (sym h))

  pub result_walk :
      (request_id : ℕ) (worker : Worker) (report : Report) (now : Instant) (db : Db) {b : Db}
      → submit_result request_id worker report now db ≡ ok b
      → Reach services.contained services.dump db b
  unfolding submit_result
  result_walk request_id worker report now db e =
      let ((done, after), committed, rest) =
        >>=-eq-ok (commit_result request_id worker report now db) _ e in
      subst (Reach services.contained services.dump db) (accepted_report _ (done, after) rest)
        (next here (commits request_id worker report now done committed))

  pub error_walk :
      (request_id : ℕ) (worker : Worker) (retryable : Bool) (detail : ErrorDetail) (db : Db)
      {b : Db}
      → submit_error request_id worker retryable detail db ≡ ok b
      → Reach services.contained services.dump db b
  unfolding submit_error
  error_walk request_id worker retryable detail db e =
      let ((done, after), recorded, rest) =
        >>=-eq-ok (record_error request_id worker retryable detail db) _ e in
      subst (Reach services.contained services.dump db) (accepted_report _ (done, after) rest)
        (next here (errors request_id worker retryable detail done recorded))

  -- A route behind an API key: the count of the key is a step of its own.
  pub with_key-Leads :
      (scope : String) (authorization : Option Text) (clock : AuthClock)
      (handler : ApiKey → Db → Result (Reply × Db)) (db : Db) (s : S)
      → ((key : ApiKey) (counted : Db)
          → SameTables db counted
          → (reply : Reply) (b : Db) → handler key counted ≡ ok (reply, b)
          → (counted ≡ b) ⊎ Step services.contained services.dump counted b)
      → Leads db (with_key services scope authorization clock handler db s).1
  with_key-Leads scope authorization clock handler db s h = bind-Leads db _ _ (λ found admitted.
      bind-Leads db _ (λ key. handler key found.1)
        (λ key allowed reply b e.
          let same =
            require_api_key-SameTables services.redis services.api_hasher services.api_key_pepper
              clock authorization db s admitted in
          elim (h key found.1 same reply b e) [
            | inl q ↦ subst (Reach services.contained services.dump db) q (same_walk same)
            | inr st ↦ next (same_walk same) st
          ]))

  -- What a handler leaves, by the database in its answer.
  pub value-Leads :
      {A : Type 0} (a : Db) (reply : A → Reply) (m : Result (A × Db))
      → ((answer : A) (b : Db) → m ≡ ok (answer, b) → Reach services.contained services.dump a b)
      → Leads a (m >>= as_reply reply)
  value-Leads a reply m h =
      bind-Leads a m (as_reply reply) (λ (answer, b) e. reply-Leads a reply answer b (h answer b e))

  pub quiet-Leads :
      (a : Db) (m : Result Db)
      → ((b : Db) → m ≡ ok b → Reach services.contained services.dump a b)
      → Leads a (m >>= quietly)
  quiet-Leads a m h =
      bind-Leads a m quietly (λ b e. reply-Leads a (λ (_ : Unit {0}). no_content) tt b (h b e))

  pub checked-Leads :
      (a : Db) (valid : Bool) (r : Result (Reply × Db))
      → (valid ≡ true → Leads a r)
      → Leads a (validated valid >> r)
  checked-Leads a true r h = h refl
  checked-Leads a false r h = λ reply b e. absurd (ok-ne_err (sym e))

  pub walk-Leads :
      {A : Type 0} (a : Db) (reply : A → Reply) (answer : A × Db)
      → Reach services.contained services.dump a answer.1
      → Leads a (as_reply reply answer)
  walk-Leads a reply (answer, b) walk = reply-Leads a reply answer b walk

  pub worker-Leads :
      (scope : String) (authorization : Option Text) (now : Instant)
      (handler : Worker → Result (Reply × Db)) (db : Db)
      → ((worker : Worker) → Leads db (handler worker))
      → Leads db (with_worker services scope authorization now handler db)
  worker-Leads scope authorization now handler db h =
      bind-Leads db (require_worker_scope (verify services.jwt now) scope authorization db) handler
        (λ worker _. h worker)

  pub admin-Leads :
      (authorization : Option Text) (r : Result (Reply × Db)) (db : Db)
      → Leads db r
      → Leads db (with_admin services authorization r)
  admin-Leads authorization r db h =
      bind-Leads db (require_admin services.verify_admin authorization) (λ _. r) (λ _ _. h)
