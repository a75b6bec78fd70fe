-- ===== src/Gateway/Soundness.antt =====
-- Every committed transaction of the gateway keeps the invariant of its database.
use orbi_inference.Entities.Status.{is_completed}
use orbi_inference.Base.{
  true, String, ℕ, ◌≡◌, refl, sym, subst, ap, ◌∙◌, Bool, false, Option, none, List, [], ◌∷◌, ◌++◌,
  arith, Option-cases, inl, inr,
}
use orbi_inference.Base.Text.{Text}
use orbi_inference.Errors.{ok}
use orbi_inference.Budget.{find_project}
use orbi_inference.Admin.{create_project-eq_ok, new_project, ProjectCreateRequest, create_project}
use orbi_inference.Gateway.Ownership.{
  Enqueued-IsOwned, IsOwned-same, created-IsOwned, created-IsBalanced, created-IsDated,
}
use orbi_inference.Base.Json.{Json}
use orbi_inference.Base.Table.{get}
use orbi_inference.Base.Table.Members.{get-append, IsKeyed-append}
use orbi_inference.Base.Calendar.{Date}
use orbi_inference.Entities.{Project, ModelAlias, ApiKey, OrbiRequest, Db}
use orbi_inference.Budget.Limits.{reserve-parts}
use orbi_inference.Queue.Shape.{IsWellFormed}
use orbi_inference.Queue.Usage.{completed_count}
use orbi_inference.Accounting.Dated.{All-snoc}
use orbi_inference.Schemas.{is_valid_chat}
use orbi_inference.Schemas.Bounds.{reservation-le}
use orbi_inference.Chat.{Clock, ChatCompletionRequest, Answer, reservation, new_request}
use orbi_inference.Chat.Acceptance.{Enqueued, Outcome, repeated, enqueued, accept-Outcome}
use orbi_inference.Chat.Charges.{Advances, Enqueued-IsBalanced}
use orbi_inference.Gateway.{
  Step, accepts, claims, commits, errors, recovers, creates, elsewhere, Reach, here, next,
}
use orbi_inference.Gateway.Invariant.{
  IsSound, FitsColumn, claim_next-IsSound, commit_result-IsSound, record_error-IsSound,
  recover_expired_leases-IsSound,
}

-- A new project leaves the requests, the records and the other projects alone.
create_project-IsSound :
    (new_id : ℕ) (today month : Date) (payload : ProjectCreateRequest) (db : Db)
    {answer : ℕ × String × String} {db' : Db}
    → find_project new_id db ≡ none
    → create_project new_id today month payload db ≡ ok (answer, db')
    → IsSound db
    → IsSound db'
create_project-IsSound new_id today month payload db {answer} {db'} fresh e s =
    let new : Project = new_project new_id today month payload in
    let after : Db = record db { projects = db.projects ++ new ∷ [] } in
    subst IsSound (create_project-eq_ok new_id today month payload db e).1 (record {
      keyed = s.keyed;
      formed = s.formed;
      accounted = s.accounted;
      balanced = created-IsBalanced new db after refl refl fresh s.owned refl refl s.balanced;
      dated = created-IsDated new db after refl refl fresh s.owned s.dated;
      owned = created-IsOwned new db after refl refl fresh s.owned;
      sized = s.sized;
    })

module _ (dump : ChatCompletionRequest → Json) where
  new_request-IsWellFormed :
      (new_id : ℕ) (clock : Clock) (api_key : ApiKey) (payload : ChatCompletionRequest)
      (key : Option Text) (alias : ModelAlias) (project : Project) (day month : Date)
      → IsWellFormed (new_request dump new_id clock api_key payload key alias project day month)
  new_request-IsWellFormed new_id clock api_key payload key alias project day month = record {
    shape = (refl, refl, refl);
    retries = omega arith;
  }

  -- The tables after an acceptance.
  pub Enqueued-tables :
      (new_id : ℕ) (clock : Clock) (api_key : ApiKey) (payload : ChatCompletionRequest)
      (key : Option Text) (db db' : Db)
      → (e : Enqueued dump new_id clock api_key payload key db db')
      → (db'.requests
          ≡ db.requests
            ++ new_request dump new_id clock api_key payload key e.alias e.project e.day e.month
              ∷ [])
        × (db'.usage_records ≡ db.usage_records)
  Enqueued-tables new_id clock api_key payload key db db' e =
      let (p, stored, row, t, m, d) =
        reserve-parts api_key.project_id (reservation payload) clock.reserving db e.reserved in
      (
        ap Db.requests e.inserted
            ∙ ap
                (λ (x : Db).
                  x.requests
                  ++ new_request dump new_id clock api_key payload key e.alias e.project e.day
                      e.month
                    ∷ [])
                d,
        ap Db.usage_records e.inserted ∙ ap Db.usage_records d,
      )

  queued_count :
      (k : ℕ) (t : List OrbiRequest) (r : OrbiRequest)
      → is_completed r.status ≡ false
      → completed_count (get OrbiRequest.id k (t ++ r ∷ []))
        ≡ completed_count (get OrbiRequest.id k t)
  queued_count k t r h = elim (Option-cases (get OrbiRequest.id k t)) [
    | inl e ↦ rw (get-append OrbiRequest.id k r t, e) (ground arith)
    | inr (x, e) ↦ rw (get-append OrbiRequest.id k r t, e)
  ]

  Enqueued-IsSound :
      (new_id : ℕ) (clock : Clock) (api_key : ApiKey) (payload : ChatCompletionRequest)
      (key : Option Text) (db db' : Db)
      → Enqueued dump new_id clock api_key payload key db db'
      → get OrbiRequest.id new_id db.requests ≡ none
      → Advances clock.reserving api_key.project_id db
      → is_valid_chat payload ≡ true
      → IsSound db
      → IsSound db'
  Enqueued-IsSound new_id clock api_key payload key db db' e fresh clocked valid s =
      let new : OrbiRequest =
        new_request dump new_id clock api_key payload key e.alias e.project e.day e.month in
      let (requests, usage) = Enqueued-tables new_id clock api_key payload key db db' e in
      let (balanced, dated) =
        Enqueued-IsBalanced dump new_id clock api_key payload key db db' e clocked s.balanced
          s.dated in
      record {
        keyed = rw requests (IsKeyed-append OrbiRequest.id new db.requests s.keyed fresh);
        formed = rw requests (
            All-snoc IsWellFormed db.requests new s.formed (
              new_request-IsWellFormed new_id clock api_key payload key e.alias e.project e.day
                e.month));
        accounted = λ k. rw (requests, usage, queued_count k db.requests new refl) (s.accounted k);
        balanced = balanced;
        dated = dated;
        owned = Enqueued-IsOwned dump new_id clock api_key payload key db db' e requests s.owned;
        sized = rw requests (
            All-snoc FitsColumn db.requests new s.sized
              (omega (arith, reservation-le payload valid)));
      }

  Outcome-IsSound :
      (new_id : ℕ) (clock : Clock) (api_key : ApiKey) (payload : ChatCompletionRequest)
      (key : Option Text) (db : Db) {answer : Answer} {db' : Db}
      → get OrbiRequest.id new_id db.requests ≡ none
      → Advances clock.reserving api_key.project_id db
      → is_valid_chat payload ≡ true
      → Outcome dump new_id clock api_key payload key db answer db'
      → IsSound db
      → IsSound db'
  Outcome-IsSound new_id clock api_key payload key db fresh clocked valid (repeated x f a same) s =
      subst IsSound (sym same) s
  Outcome-IsSound new_id clock api_key payload key db {db'} fresh clocked valid (enqueued f a e) s =
      Enqueued-IsSound new_id clock api_key payload key db db' e fresh clocked valid s

  module _ (contained : Json → Json → Bool) where
    -- Every committed transaction keeps the invariant.
    pub Step-IsSound : {a b : Db} → Step contained dump a b → IsSound a → IsSound b
    Step-IsSound {a} (accepts new_id clock api_key payload key answer fresh clocked valid h) s =
        Outcome-IsSound new_id clock api_key payload key a fresh clocked valid
          (accept-Outcome dump new_id clock api_key payload key a h).2 s
    Step-IsSound {a} (claims locked now worker lease_seconds e) s =
        subst IsSound (sym e) (claim_next-IsSound contained locked now worker lease_seconds a s)
    Step-IsSound {a} (commits request_id worker report now done e) s =
        commit_result-IsSound request_id worker report now a e s
    Step-IsSound {a} (errors request_id worker retryable detail done e) s =
        record_error-IsSound request_id worker retryable detail a e s
    Step-IsSound {a} (recovers now count e) s = recover_expired_leases-IsSound now a e s
    Step-IsSound {a} {b} (creates new_id today month payload answer fresh e) s =
        create_project-IsSound new_id today month payload a fresh e s
    Step-IsSound {a} {b} (elsewhere requests projects usage) s = record {
      keyed = rw requests s.keyed;
      formed = rw requests s.formed;
      accounted = λ k. rw (requests, usage) (s.accounted k);
      balanced = rw (requests, projects) s.balanced;
      dated = record { at = rw (requests, projects) s.dated.at };
      owned = IsOwned-same a b requests projects s.owned;
      sized = rw requests s.sized;
    }

    -- From a database that meets the invariant every sequence of committed transactions leads to
    -- one that does: the ids of requests are unique, rows have the columns of their status, each
    -- completed request has exactly one usage record and no other request has any, and the token
    -- counters of every project are the sums of its requests' charges in the day and the month that
    -- it has last been charged in, each request belongs to a stored project, and its reservation fits
    -- into a signed integer of 32 bits.
    pub Reach-IsSound : {a b : Db} → IsSound a → Reach contained dump a b → IsSound b
    Reach-IsSound s here = s
    Reach-IsSound s (next r st) = Step-IsSound st (Reach-IsSound s r)
