-- ===== src/Chat.antt =====
-- apps/gateway/src/orbi_gateway/routes/chat.py: the acceptance of a chat request, up to the commit
-- that makes it visible to the workers. The wait for its result is the child module `Wait`.
pub mod Acceptance
pub mod Charges
pub mod Wait
use orbi_inference.Base.{
  first_where, ℕ, ◌+◌, ◌≡◌, String, Bool, true, false, ◌&&◌, Option, none, some, List, [], ◌∷◌,
  ◌++◌, ltb, ◌==◌, if◌then◌else◌, str_eq, sum_by,
}
use orbi_inference.Base.Text.{Text}
use orbi_inference.Base.Text.Chars.{text_eq}
use orbi_inference.Base.Json.{Json}
use orbi_inference.Base.Calendar.{Instant, Date, minutes}
use orbi_inference.Errors.{
  Exception, orbi_error, value_error, budget_exceeded, integrity_error, Result, ok, err, ◌>>=◌,
  ◌>>◌, raise_if, or_raise, orbi,
}
use orbi_inference.Entities.{Project, ApiKey, ModelAlias, OrbiRequest, Db}
use orbi_inference.Entities.Status.{RequestStatus, is_completed}
use orbi_inference.Budget.{reserve}
use orbi_inference.Idempotency.{validate_idempotency_key}

pub data Role : Type 0 where
  system user assistant : Role

pub record ChatMessage : Type 0 where
  pub role : Role
  pub content : Text

-- `temperature` is a decimal number that nothing computes with, kept as text.
pub record ChatCompletionRequest : Type 0 where
  pub model : String
  pub messages : List ChatMessage
  pub stream : Bool
  pub max_tokens : ℕ
  pub temperature : Text

-- The bytes of a code point in UTF-8.
abbrev utf8_width : ℕ → ℕ
utf8_width c = if ltb c 0x80 then 1 else if ltb c 0x800 then 2 else if ltb c 0x10000 then 3 else 4

-- `len(s.encode("utf-8"))`
abbrev pub utf8_length : Text → ℕ
utf8_length s = sum_by utf8_width s

-- The number of tokens that `create_chat_completion` reserves.
unfoldable pub reservation : ChatCompletionRequest → ℕ
reservation payload =
    sum_by (λ (m : ChatMessage). utf8_length m.content) payload.messages + payload.max_tokens

-- `OrbiRequest.idempotency_key == key`
abbrev key_eq : Option Text → Text → Bool
key_eq none key = false
key_eq (some k) key = text_eq k key

abbrev pub is_same_call : ℕ → Text → OrbiRequest → Bool
is_same_call api_key_id key r = r.api_key_id == api_key_id && key_eq r.idempotency_key key

-- The earlier request under an idempotency key; the database holds one at most.
abbrev pub find_call : ℕ → Option Text → List OrbiRequest → Option OrbiRequest
find_call api_key_id none requests = none
find_call api_key_id (some key) requests = first_where (is_same_call api_key_id key) requests

abbrev pub find_alias : String → Db → Option ModelAlias
find_alias name db =
    first_where (λ (a : ModelAlias). str_eq a.alias name && a.is_active) db.model_aliases

-- What a client is sent, or the id of the new request that the route then waits for.
pub data Answer : Type 0 where
  result : Json → Answer
  state : ℕ → RequestStatus → Answer
  accepted : ℕ → Answer

-- The answer to a repeated call.
abbrev pub replay_result : OrbiRequest → Option Json → Answer
replay_result r none = state r.id r.status
replay_result r (some json) = if is_completed r.status then result json else state r.id r.status

abbrev pub replay : OrbiRequest → Answer
replay existing = replay_result existing existing.result

-- `str(exc)` of the errors that the handler turns into its own.
abbrev invalid_key : {A : Type 0} → Result A → Result A
invalid_key (ok a) = ok a
invalid_key (err (value_error text)) = err (orbi "invalid_idempotency_key" text 400)
invalid_key (err e) = err e

abbrev pub over_budget : {A : Type 0} → Result A → Result A
over_budget (ok a) = ok a
over_budget (err (budget_exceeded text)) = err (orbi "token_budget_exceeded" text 429)
over_budget (err e) = err e

-- The insert: PostgreSQL refuses a second row with the same API key and idempotency key.
abbrev pub insert_unless : Option OrbiRequest → OrbiRequest → Db → Result Db
insert_unless none r db = ok (record db { requests = db.requests ++ r ∷ [] })
insert_unless (some _) r db =
    err (orbi "idempotency_conflict" "An equivalent request already exists." 409)

abbrev pub insert_request : OrbiRequest → Db → Result Db
insert_request r db = insert_unless (find_call r.api_key_id r.idempotency_key db.requests) r db

-- The three readings of the clock: in `reserve`, for the expiry, and the database's for the row.
pub record Clock : Type 0 where
  pub reserving : Instant
  pub expiring : Instant
  pub creating : Instant

module _ (dump : ChatCompletionRequest → Json) where
  -- The row of a new request. `dump` stands for pydantic's `model_dump`, which is not of this
  -- repository.
  abbrev pub new_request :
      ℕ
      → Clock
      → ApiKey
      → ChatCompletionRequest
      → Option Text
      → ModelAlias
      → Project
      → Date
      → Date
      → OrbiRequest
  new_request new_id clock api_key payload key alias project budget_day budget_month = record {
    id = new_id;
    idempotency_key = key;
    project_id = project.id;
    api_key_id = api_key.id;
    model_alias = alias.alias;
    resolved_model = alias.model_id;
    payload = dump payload;
    required_capabilities = alias.required_capabilities;
    priority = 5;
    status = RequestStatus.queued;
    assigned_to = none;
    lease_expires = none;
    retry_count = 0;
    max_retries = 3;
    created_at = clock.creating;
    expires_at = clock.expiring + minutes 5;
    completed_at = none;
    result = none;
    error_detail = none;
    input_tokens = none;
    output_tokens = none;
    reserved_tokens = reservation payload;
    budget_day = budget_day;
    budget_month = budget_month;
  }

  -- The part of the handler that follows the search for an earlier call.
  unfoldable pub enqueue :
      ℕ → Clock → ApiKey → ChatCompletionRequest → Option Text → Db → Result (Answer × Db)
  enqueue new_id clock api_key payload key db = do
    alias ←
        or_raise (find_alias payload.model db)
          (orbi "model_not_found" "Requested model alias is unavailable." 404)
    ((project, budget_day, budget_month), charged) ←
        over_budget (reserve api_key.project_id (reservation payload) clock.reserving db)
    inserted ←
        insert_request
          (new_request new_id clock api_key payload key alias project budget_day budget_month)
          charged
    ok (accepted new_id, inserted)

  abbrev pub answer_call :
      ℕ
      → Clock
      → ApiKey
      → ChatCompletionRequest
      → Option Text
      → Db
      → Option OrbiRequest
      → Result (Answer × Db)
  answer_call new_id clock api_key payload key db (some existing) = ok (replay existing, db)
  answer_call new_id clock api_key payload key db none = enqueue new_id clock api_key payload key db

  -- `create_chat_completion`, up to `session.commit()`
  unfoldable pub accept :
      ℕ → Clock → ApiKey → ChatCompletionRequest → Option Text → Db → Result (Answer × Db)
  accept new_id clock api_key payload idempotency_key db = do
    raise_if payload.stream (orbi "streaming_not_available" "Streaming is deferred to Phase 2." 400)
    key ← invalid_key (validate_idempotency_key idempotency_key)
    answer_call new_id clock api_key payload key db (find_call api_key.id key db.requests)
