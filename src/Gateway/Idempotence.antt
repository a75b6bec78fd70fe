-- ===== src/Gateway/Idempotence.antt =====
-- Repeated calls of routes/chat.py under one idempotency key: docs/api-reference.md and
-- docs/security.md name the promise.
use orbi_inference.Base.{
  first_where, ℕ, ◌≡◌, refl, sym, ◌∙◌, Bool, true, false, Option, none, some, List, [], ◌∷◌, ◌++◌,
  arith, ==_iff,
}
use orbi_inference.Base.Text.{Text}
use orbi_inference.Base.Text.Chars.{text_eq_refl}
use orbi_inference.Base.Json.{Json}
use orbi_inference.Base.Table.{get}
use orbi_inference.Errors.{ok}
use orbi_inference.Entities.{ApiKey, OrbiRequest, Db}
use orbi_inference.Queue.Lifecycle.{Evolves, Evolves-rules}
use orbi_inference.Idempotency.{validate_idempotency_key}
use orbi_inference.Schemas.{is_valid_chat}
use orbi_inference.Chat.{
  Clock, ChatCompletionRequest, accepted, replay, replay_result, accept, new_request, is_same_call,
  find_call,
}
use orbi_inference.Chat.Acceptance.{Outcome, repeated, enqueued, accept-Outcome}
use orbi_inference.Chat.Charges.{Advances}
use orbi_inference.Gateway.{Reach, accepts}
use orbi_inference.Gateway.Invariant.{IsSound}
use orbi_inference.Gateway.Soundness.{Enqueued-tables, Step-IsSound}
use orbi_inference.Gateway.History.{Reach-find_call}

replay_result-ne-accepted :
    (r : OrbiRequest) (o : Option Json) (n : ℕ) → replay_result r o ≡ accepted n → ⊥
replay_result-ne-accepted r none n h = ground arith
replay_result-ne-accepted r (some j) n h = ground arith

first_where-snoc :
    (p : OrbiRequest → Bool) (t : List OrbiRequest) (r : OrbiRequest)
    → first_where p t ≡ none
    → p r ≡ true
    → first_where p (t ++ r ∷ []) ≡ some r
first_where-snoc p [] r h e = rw e
first_where-snoc p (x ∷ xs) r h e = ground (arith, first_where-snoc p xs r)

same_call_cong :
    (api_key_id : ℕ) (key : Text) (a b : OrbiRequest)
    → Evolves a b
    → is_same_call api_key_id key b ≡ is_same_call api_key_id key a
same_call_cong api_key_id key a b e = rw (e.order.api_key_id, e.order.idempotency_key) refl

module _ (dump : ChatCompletionRequest → Json) where
  -- The request that a call has enqueued is found under its idempotency key.
  enqueued-find_call :
      (new_id : ℕ) (clock : Clock) (api_key : ApiKey) (payload : ChatCompletionRequest) (key : Text)
      (a : Db) {b : Db}
      → Outcome dump new_id clock api_key payload (some key) a (accepted new_id) b
      → (r : OrbiRequest) × (find_call api_key.id (some key) b.requests ≡ some r) × (r.id ≡ new_id)
  enqueued-find_call new_id clock api_key payload key a (repeated x f e q) =
      absurd (replay_result-ne-accepted x x.result new_id (sym e))
  enqueued-find_call new_id clock api_key payload key a {b} (enqueued f e q) =
      let new : OrbiRequest =
        new_request dump new_id clock api_key payload (some key) q.alias q.project q.day q.month in
      let (requests, usage) = Enqueued-tables dump new_id clock api_key payload (some key) a b q in
      let mine : is_same_call api_key.id key new ≡ true =
        rw ((==_iff api_key.id api_key.id).1 refl, text_eq_refl key) refl in
      (
        new,
        rw requests (first_where-snoc (is_same_call api_key.id key) a.requests new f mine),
        refl,
      )

  accept-repeated :
      (new_id : ℕ) (clock : Clock) (api_key : ApiKey) (payload : ChatCompletionRequest) (key : Text)
      (c : Db) (r : OrbiRequest)
      → payload.stream ≡ false
      → validate_idempotency_key (some key) ≡ ok (some key)
      → find_call api_key.id (some key) c.requests ≡ some r
      → accept dump new_id clock api_key payload (some key) c ≡ ok (replay r, c)
  unfolding accept
  accept-repeated new_id clock api_key payload key c r plain valid found =
      rw (plain, valid, found) refl

  module _ (contained : Json → Json → Bool) where
    -- In a database that meets the invariant, once a valid call with an idempotency key has been
    -- accepted under a fresh id, by a clock that is not behind the project's periods, then after any
    -- sequence of committed transactions a call of the same API key with that idempotency key, with
    -- any payload that asks for no stream, is answered from that one request and leaves the
    -- database as it is.
    pub accept-once :
        (new_id new_id' : ℕ) (clock clock' : Clock) (api_key : ApiKey)
        (payload payload' : ChatCompletionRequest) (key : Text) {a b c : Db}
        → IsSound a
        → get OrbiRequest.id new_id a.requests ≡ none
        → Advances clock.reserving api_key.project_id a
        → is_valid_chat payload ≡ true
        → accept dump new_id clock api_key payload (some key) a ≡ ok (accepted new_id, b)
        → Reach contained dump b c
        → payload'.stream ≡ false
        → (r : OrbiRequest) × (find_call api_key.id (some key) c.requests ≡ some r)
          × (r.id ≡ new_id)
          × (accept dump new_id' clock' api_key payload' (some key) c ≡ ok (replay r, c))
    accept-once new_id new_id' clock clock' api_key payload payload' key {a} {b} {c} s fresh clocked
          formed h walk plain =
        let (streaming, valid, outcome) =
          accept-Outcome dump new_id clock api_key payload (some key) a h in
        let (r, found, id) =
          enqueued-find_call new_id clock api_key payload key a {b = b} outcome in
        let sound : IsSound b =
          Step-IsSound dump contained
            (accepts new_id clock api_key payload (some key) (accepted new_id) fresh clocked formed
              h)
            s in
        let (r', found', moved) =
          Reach-find_call dump contained Evolves-rules api_key.id key
            (same_call_cong api_key.id key) r {a = b} {b = c} sound found walk in
        (
          r',
          found',
          moved.order.id ∙ id,
          accept-repeated new_id' clock' api_key payload' key c r' plain valid found',
        )
