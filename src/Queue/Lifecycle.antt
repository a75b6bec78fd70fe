-- ===== src/Queue/Lifecycle.antt =====
-- The life of a request as a state machine, which the methods of `QueueService` in
-- apps/gateway/src/orbi_gateway/services/queue.py implement, and the shapes that its row can have.
use orbi_inference.Queue.Recovery.{is_abandoned}
use orbi_inference.Base.{
  subst, ap, sql_eq, ℕ, ◌+◌, ◌<◌, ◌≡◌, refl, ◌∙◌, true, Option, none, some, arith,
}
use orbi_inference.Base.Json.{Json}
use orbi_inference.Base.Calendar.{Instant}
use orbi_inference.Entities.{OrbiRequest}
use orbi_inference.Entities.Status.{RequestStatus, is_in_progress, is_queued}
use orbi_inference.Queue.{accepts}
use orbi_inference.Queue.Rows.{RowRules}

-- What a row says of its request: waiting after so many retries, held by a worker, answered with a
-- result, or ended without one.
pub data Phase : Type 0 where
  waiting : ℕ → Phase
  held : ℕ → Option ℕ → Phase
  answered : Option Json → Phase
  failed cancelled expired : Phase

abbrev phase_of : RequestStatus → ℕ → Option ℕ → Option Json → Phase
phase_of RequestStatus.queued retries worker result = waiting retries
phase_of RequestStatus.completed retries worker result = answered result
phase_of RequestStatus.failed_final retries worker result = failed
phase_of RequestStatus.cancelled retries worker result = cancelled
phase_of RequestStatus.expired retries worker result = expired
phase_of _ retries worker result = held retries worker

abbrev pub phase : OrbiRequest → Phase
phase r = phase_of r.status r.retry_count r.assigned_to r.result

-- The moves that are allowed, for a request that may be retried `limit` times.
pub data Move (limit : ℕ) (a b : Phase) : Type 0 where
  claim :
      (retries worker : ℕ) → a ≡ waiting retries → b ≡ held retries (some worker) → Move limit a b
  answer :
      (retries worker : ℕ) (result : Json)
      → a ≡ held retries (some worker)
      → b ≡ answered (some result)
      → Move limit a b
  retry :
      (retries : ℕ) (worker : Option ℕ)
      → retries < limit
      → a ≡ held retries worker
      → b ≡ waiting (retries + 1)
      → Move limit a b
  fail : (retries : ℕ) (worker : Option ℕ) → a ≡ held retries worker → b ≡ failed → Move limit a b
  time_out : (retries : ℕ) → a ≡ waiting retries → b ≡ expired → Move limit a b

-- Any number of moves.
pub data Moves (limit : ℕ) (a : Phase) : Phase → Type 0 where
  stay : Moves limit a a
  then_move : {b c : Phase} → Moves limit a b → Move limit b c → Moves limit a c

pub Moves-trans : {limit : ℕ} {a b c : Phase} → Moves limit a b → Moves limit b c → Moves limit a c
Moves-trans p stay = p
Moves-trans p (then_move q m) = then_move (Moves-trans p q) m

one-Move : {limit : ℕ} {a b : Phase} → Move limit a b → Moves limit a b
one-Move m = then_move stay m

-- The columns that no method changes.
pub record SameOrder (a b : OrbiRequest) : Type 0 where
  pub id : b.id ≡ a.id
  pub idempotency_key : b.idempotency_key ≡ a.idempotency_key
  pub project_id : b.project_id ≡ a.project_id
  pub api_key_id : b.api_key_id ≡ a.api_key_id
  pub model_alias : b.model_alias ≡ a.model_alias
  pub resolved_model : b.resolved_model ≡ a.resolved_model
  pub required_capabilities : b.required_capabilities ≡ a.required_capabilities
  pub payload : b.payload ≡ a.payload
  pub priority : b.priority ≡ a.priority
  pub max_retries : b.max_retries ≡ a.max_retries
  pub created_at : b.created_at ≡ a.created_at
  pub expires_at : b.expires_at ≡ a.expires_at
  pub reserved_tokens : b.reserved_tokens ≡ a.reserved_tokens
  pub budget_day : b.budget_day ≡ a.budget_day
  pub budget_month : b.budget_month ≡ a.budget_month

pub SameOrder-rules : RowRules SameOrder
SameOrder-rules = record {
  quiet = record {
    same = λ a. ground arith;
    chain = λ a b c p q. record {
      id = q.id ∙ p.id;
      idempotency_key = q.idempotency_key ∙ p.idempotency_key;
      project_id = q.project_id ∙ p.project_id;
      api_key_id = q.api_key_id ∙ p.api_key_id;
      model_alias = q.model_alias ∙ p.model_alias;
      resolved_model = q.resolved_model ∙ p.resolved_model;
      required_capabilities = q.required_capabilities ∙ p.required_capabilities;
      payload = q.payload ∙ p.payload;
      priority = q.priority ∙ p.priority;
      max_retries = q.max_retries ∙ p.max_retries;
      created_at = q.created_at ∙ p.created_at;
      expires_at = q.expires_at ∙ p.expires_at;
      reserved_tokens = q.reserved_tokens ∙ p.reserved_tokens;
      budget_day = q.budget_day ∙ p.budget_day;
      budget_month = q.budget_month ∙ p.budget_month;
    };
    claimed = λ a w l h. ground arith;
    retried = λ a w d h room. ground arith;
    failed = λ a w d h. ground arith;
    requeued = λ a now h. ground arith;
    exhausted = λ a now h. ground arith;
    expired = λ a now h. ground arith;
  };
  completed = λ a w j i o now h. ground arith;
}

-- The columns of the order are kept, and the phase moves as the machine allows.
pub record Evolves (a b : OrbiRequest) : Type 0 where
  pub order : SameOrder a b
  pub moves : Moves a.max_retries (phase a) (phase b)

queued-phase :
    (s : RequestStatus) (n : ℕ) (w : Option ℕ) (j : Option Json)
    → is_queued s ≡ true
    → phase_of s n w j ≡ waiting n
queued-phase RequestStatus.queued n w j h = refl
queued-phase _ n w j h = absurd (ground arith)

in_progress-phase :
    (s : RequestStatus) (n : ℕ) (w : Option ℕ) (j : Option Json)
    → is_in_progress s ≡ true
    → phase_of s n w j ≡ held n w
in_progress-phase RequestStatus.assigned n w j h = refl
in_progress-phase RequestStatus.starting n w j h = refl
in_progress-phase RequestStatus.running n w j h = refl
in_progress-phase RequestStatus.streaming n w j h = refl
in_progress-phase _ n w j h = absurd (ground arith)

sql_eq-some : (o : Option ℕ) (b : ℕ) → sql_eq o b ≡ true → o ≡ some b
sql_eq-some none b h = absurd (ground arith)
sql_eq-some (some a) b h = ground arith

-- A report is accepted from the worker that holds the request, and from nobody else.
pub accepts-phase :
    (a : OrbiRequest) (w : ℕ) → accepts w a ≡ true → phase a ≡ held a.retry_count (some w)
accepts-phase a w h =
    let assigned : a.assigned_to ≡ some w = sql_eq-some a.assigned_to w (ground arith) in
    let working : is_in_progress a.status ≡ true = ground arith in
    in_progress-phase a.status a.retry_count a.assigned_to a.result working
    ∙ ap (λ (o : Option ℕ). held a.retry_count o) assigned

abandoned-phase :
    (a : OrbiRequest) (now : Instant)
    → is_abandoned now a ≡ true
    → phase a ≡ held a.retry_count a.assigned_to
abandoned-phase a now h =
    in_progress-phase a.status a.retry_count a.assigned_to a.result (ground arith)

-- Every method moves every request by the machine alone, and keeps the columns of its order.
pub Evolves-rules : RowRules Evolves
Evolves-rules = record {
  quiet = record {
    same = λ a. record { order = SameOrder-rules.quiet.same a; moves = stay };
    chain = λ a b c p q. record {
      order = SameOrder-rules.quiet.chain a b c p.order q.order;
      moves =
          Moves-trans p.moves
            (subst (λ n. Moves n (phase b) (phase c)) p.order.max_retries q.moves);
    };
    claimed = λ a w l h. record {
      order = SameOrder-rules.quiet.claimed a w l h;
      moves = one-Move (
          claim a.retry_count w (queued-phase a.status a.retry_count a.assigned_to a.result h)
            refl);
    };
    retried = λ a w d h room. record {
      order = SameOrder-rules.quiet.retried a w d h room;
      moves = one-Move (retry a.retry_count (some w) room (accepts-phase a w h) refl);
    };
    failed = λ a w d h. record {
      order = SameOrder-rules.quiet.failed a w d h;
      moves = one-Move (fail a.retry_count (some w) (accepts-phase a w h) refl);
    };
    requeued = λ a now h. record {
      order = SameOrder-rules.quiet.requeued a now h;
      moves = one-Move (
          retry a.retry_count a.assigned_to (ground arith) (abandoned-phase a now (ground arith))
            refl);
    };
    exhausted = λ a now h. record {
      order = SameOrder-rules.quiet.exhausted a now h;
      moves =
          one-Move (fail a.retry_count a.assigned_to (abandoned-phase a now (ground arith)) refl);
    };
    expired = λ a now h. record {
      order = SameOrder-rules.quiet.expired a now h;
      moves = one-Move (
          time_out a.retry_count
            (queued-phase a.status a.retry_count a.assigned_to a.result (ground arith)) refl);
    };
  };
  completed = λ a w j i o now h. record {
    order = SameOrder-rules.completed a w j i o now h;
    moves = one-Move (answer a.retry_count w j (accepts-phase a w h) refl);
  };
}
