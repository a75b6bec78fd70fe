-- ===== src/Gateway/Promises.antt =====
-- What the gateway promises to its clients over any run: apps/gateway/src/orbi_gateway/routes/chat.py
-- and services/queue.py, and the correctness boundary of docs/security.md.
use orbi_inference.Base.{
  inr, inl, Bool-cases, if◌then◌else◌, is_none, sql_eq, ℕ, ◌≡◌, refl, subst, ap, ◌∙◌, Bool, true,
  false, Option, none, some, arith, ==_iff,
}
use orbi_inference.Base.Json.{Json}
use orbi_inference.Base.Table.{modify, get-modify, key-get}
use orbi_inference.Base.Calendar.{Instant}
use orbi_inference.Errors.{data_error, err, ok, >>=-eq-ok}
use orbi_inference.Entities.{Worker, OrbiRequest, Db}
use orbi_inference.Entities.Status.{is_in_progress, is_terminal}
use orbi_inference.Budget.{reconcile}
use orbi_inference.Budget.Frame.{reconcile_frame}
use orbi_inference.Queue.{find_request, accepts, find_accepting}
use orbi_inference.Queue.Commit.{
  Report, complete, commit_row, commit_result, commit_row-committed, can_update, store_result,
  total_tokens,
}
use orbi_inference.Queue.Rows.{find_accepting-eq_some}
use orbi_inference.Queue.Rows.Operations.{found_row}
use orbi_inference.Queue.Lifecycle.{Evolves, Evolves-rules}
use orbi_inference.Queue.Shape.{KeepsFinal-rules}
use orbi_inference.Chat.{ChatCompletionRequest}
use orbi_inference.Gateway.{commits, Reach}
use orbi_inference.Gateway.Invariant.{IsSound}
use orbi_inference.Gateway.Soundness.{Step-IsSound}
use orbi_inference.Gateway.History.{Reach-find_request}

module _ (dump : ChatCompletionRequest → Json) (contained : Json → Json → Bool) where
  -- From a database that meets the invariant, over any sequence of committed transactions, a stored
  -- request stays stored, keeps the columns of its order (its ids, key, models, payload, capabilities,
  -- priority, retry limit, times of creation and expiry, reservation and budget periods), and its
  -- status, retries, holder and result move by the state machine alone: from the queue to a holder;
  -- from a holder to an answer, to failure, or, while there are retries left, back to the queue with
  -- one more; or from the queue to the timeout.
  pub Reach-Evolves :
      (k : ℕ) (r : OrbiRequest) {a b : Db}
      → IsSound a
      → find_request k a ≡ some r
      → Reach contained dump a b
      → (r' : OrbiRequest) × (find_request k b ≡ some r') × Evolves r r'
  Reach-Evolves k r s f walk =
      Reach-find_request dump contained Evolves-rules (λ x y e. e.order.id) k r s f walk

  -- From a database that meets the invariant, over any sequence of committed transactions, the row
  -- of a request that has ended, with a result or without, stays as it is.
  pub Reach-keeps_final :
      (k : ℕ) (r : OrbiRequest) {a b : Db}
      → IsSound a
      → find_request k a ≡ some r
      → is_terminal r.status ≡ true
      → Reach contained dump a b
      → find_request k b ≡ some r
  Reach-keeps_final k r s f final walk =
      let (x, found, kept) =
        Reach-find_request dump contained KeepsFinal-rules (λ x y e. e.0) k r s f walk in
      found ∙ ap some (kept.1 final)

-- The row after a result was accepted.
commit_row-stored :
    (worker : Worker) (report : Report) (now : Instant) (db : Db) (found : Option OrbiRequest)
    {db' : Db}
    → ((r : OrbiRequest) → found ≡ some r → find_request r.id db ≡ some r)
    → commit_row worker report now db found ≡ ok (true, db')
    → (r : OrbiRequest) × (found ≡ some r)
      × (find_request r.id db'
          ≡ some (complete report.result report.input_tokens report.output_tokens now r))
commit_row-stored worker report now db none h e = absurd (ground arith)
commit_row-stored worker report now db (some r) {db'} h e =
    let (d, reconciled, e') =
      >>=-eq-ok
        (reconcile r.project_id r.reserved_tokens (total_tokens report) r.budget_day r.budget_month
          (store_result now report r db))
        _ e in
    let requests : db'.requests
        ≡ modify OrbiRequest.id r.id
            (complete report.result report.input_tokens report.output_tokens now) db.requests =
      let q : db'.requests ≡ d.requests = ground arith in
      q ∙ (reconcile_frame _ _ _ _ _ _ reconciled).requests in
    (
      r,
      refl,
      rw requests (
          rw
            (
              get-modify OrbiRequest.id r.id r.id
                  (complete report.result report.input_tokens report.output_tokens now) db.requests
                  (λ a. refl),
              (==_iff r.id r.id).1 refl,
              h r refl,
            )
            refl),
    )

-- The worker holds the request, which is in progress and has no result.
pub record IsHeldBy (worker_id : ℕ) (r : OrbiRequest) : Type 0 where
  pub holder : r.assigned_to ≡ some worker_id
  pub unanswered : r.result ≡ none
  pub in_progress : is_in_progress r.status ≡ true

sql_eq→eq : (o : Option ℕ) (n : ℕ) → sql_eq o n ≡ true → o ≡ some n
sql_eq→eq none n h = absurd (ground arith)
sql_eq→eq (some m) n h = ap some ((==_iff m n).0 h)

is_none→eq : {A : Type 0} (o : Option A) → is_none o ≡ true → o ≡ none
is_none→eq none h = refl
is_none→eq (some a) h = absurd (ground arith)

accepts-IsHeldBy :
    (worker_id : ℕ) (r : OrbiRequest) → accepts worker_id r ≡ true → IsHeldBy worker_id r
accepts-IsHeldBy worker_id r h = record {
  holder = sql_eq→eq r.assigned_to worker_id (ground arith);
  unanswered = is_none→eq r.result (ground arith);
  in_progress = ground arith;
}

-- If a result is accepted, the request was stored and in progress, held by the worker that reports,
-- without a result; and its row is then that row, completed with what was reported.
pub commit_result-stored :
    (request_id : ℕ) (worker : Worker) (report : Report) (now : Instant) (a : Db) {b : Db}
    → commit_result request_id worker report now a ≡ ok (true, b)
    → (r : OrbiRequest) × (find_request request_id a ≡ some r)
      × IsHeldBy worker.id r
      × (find_request request_id b
          ≡ some (complete report.result report.input_tokens report.output_tokens now r))
commit_result-stored request_id worker report now a {b} h =
    let (r, found, stored) =
      commit_row-stored worker report now a (find_accepting request_id worker.id a)
        (λ x e. (found_row request_id worker.id a {r = x} e).0)
        (commit_row-committed request_id worker report now a h) in
    let (before, accepted_from) = find_accepting-eq_some request_id worker.id a {row = r} found in
    let id : r.id ≡ request_id = key-get OrbiRequest.id request_id a.requests before in
    (
      r,
      before,
      accepts-IsHeldBy worker.id r accepted_from,
      subst
          (λ (k : ℕ).
            find_request k b
            ≡ some (complete report.result report.input_tokens report.output_tokens now r))
          id stored,
    )

commit_result-refused :
    (request_id : ℕ) (worker : Worker) (report : Report) (now : Instant) (c : Db) (r : OrbiRequest)
    → find_request request_id c ≡ some r
    → accepts worker.id r ≡ false
    → commit_result request_id worker report now c
      ≡ (if can_update report then ok (false, c) else err data_error)
unfolding commit_result
commit_result-refused request_id worker report now c r found refused =
    elim (Bool-cases (can_update report)) [
      | inl t ↦ rw t (rw (found, refused) refl)
      | inr f ↦ rw f refl
    ]

complete-refuses :
    (w : ℕ) (j : Json) (i o : ℕ) (now : Instant) (r : OrbiRequest)
    → accepts w (complete j i o now r) ≡ false
complete-refuses w j i o now r = ground arith

module _ (dump : ChatCompletionRequest → Json) (contained : Json → Json → Bool) where
  -- In a database that meets the invariant, once a result is accepted for a request, then after any
  -- sequence of committed transactions every report of a result on it is refused and changes
  -- nothing, whoever sends it; or raises, if its token counts do not fit into 32 bits.
  pub commit_result-once :
      (request_id : ℕ) (worker worker' : Worker) (report report' : Report) (now now' : Instant)
      {a b c : Db}
      → IsSound a
      → commit_result request_id worker report now a ≡ ok (true, b)
      → Reach contained dump b c
      → commit_result request_id worker' report' now' c
        ≡ (if can_update report' then ok (false, c) else err data_error)
  commit_result-once request_id worker worker' report report' now now' {a} {b} {c} s h walk =
      let (r, before, from, stored) = commit_result-stored request_id worker report now a h in
      let done : OrbiRequest =
        complete report.result report.input_tokens report.output_tokens now r in
      let sound = Step-IsSound dump contained (commits request_id worker report now true h) s in
      commit_result-refused request_id worker' report' now' c done
        (Reach-keeps_final dump contained request_id done sound stored refl walk)
        (complete-refuses worker'.id report.result report.input_tokens report.output_tokens now r)
