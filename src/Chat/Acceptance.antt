-- ===== src/Chat/Acceptance.antt =====
-- What an accepted chat request of routes/chat.py leaves behind: one new queued row, and the
-- reservation that pays for it; and that a repeated call is answered from the first.
use orbi_inference.Base.{
  ℕ, ◌≡◌, refl, sym, subst, ◌∙◌, Bool, true, false, Option, none, some, [], ◌∷◌, ◌++◌, arith,
}
use orbi_inference.Base.Text.{Text}
use orbi_inference.Base.Json.{Json}
use orbi_inference.Base.Calendar.{Date}
use orbi_inference.Errors.{
  Exception, orbi_error, value_error, budget_exceeded, no_result_found, integrity_error, data_error,
  validation_failed, Result, ok, err, raise_if, or_raise, >>=-eq-ok,
}
use orbi_inference.Entities.{Project, ApiKey, ModelAlias, OrbiRequest, Db}
use orbi_inference.Budget.{reserve}
use orbi_inference.Idempotency.{validate_idempotency_key}
use orbi_inference.Chat.{
  Clock, ChatCompletionRequest, Answer, accepted, replay, find_call, find_alias, reservation,
  invalid_key, over_budget, insert_unless, insert_request, new_request, enqueue, answer_call,
  accept,
}

over_budget-eq-ok : {A : Type 0} (m : Result A) {a : A} → over_budget m ≡ ok a → m ≡ ok a
over_budget-eq-ok (ok a) h = h
over_budget-eq-ok (err (orbi_error e)) h = absurd (ground arith)
over_budget-eq-ok (err (value_error e)) h = absurd (ground arith)
over_budget-eq-ok (err (budget_exceeded e)) h = absurd (ground arith)
over_budget-eq-ok (err no_result_found) h = absurd (ground arith)
over_budget-eq-ok (err integrity_error) h = absurd (ground arith)
over_budget-eq-ok (err data_error) h = absurd (ground arith)
over_budget-eq-ok (err validation_failed) h = absurd (ground arith)

invalid_key-eq-ok : {A : Type 0} (m : Result A) {a : A} → invalid_key m ≡ ok a → m ≡ ok a
invalid_key-eq-ok (ok a) h = h
invalid_key-eq-ok (err (orbi_error e)) h = absurd (ground arith)
invalid_key-eq-ok (err (value_error e)) h = absurd (ground arith)
invalid_key-eq-ok (err (budget_exceeded e)) h = absurd (ground arith)
invalid_key-eq-ok (err no_result_found) h = absurd (ground arith)
invalid_key-eq-ok (err integrity_error) h = absurd (ground arith)
invalid_key-eq-ok (err data_error) h = absurd (ground arith)
invalid_key-eq-ok (err validation_failed) h = absurd (ground arith)

pub or_raise-eq-ok :
    {A : Type 0} (o : Option A) (e : Exception) {a : A} → or_raise o e ≡ ok a → o ≡ some a
or_raise-eq-ok none e h = absurd (ground arith)
or_raise-eq-ok (some a) e h = ground arith

insert_unless-eq-ok :
    (found : Option OrbiRequest) (r : OrbiRequest) (db : Db) {db' : Db}
    → insert_unless found r db ≡ ok db'
    → (found ≡ none) × (db' ≡ record db { requests = db.requests ++ r ∷ [] })
insert_unless-eq-ok none r db h = (refl, ground arith)
insert_unless-eq-ok (some x) r db h = absurd (ground arith)

module _ (dump : ChatCompletionRequest → Json) where
  -- All that a new request's acceptance consists of.
  pub record Enqueued (new_id : ℕ) (clock : Clock) (api_key : ApiKey)
      (payload : ChatCompletionRequest) (key : Option Text) (db db' : Db) : Type 0 where
    pub alias : ModelAlias
    pub project : Project
    pub day : Date
    pub month : Date
    pub charged : Db
    pub known : find_alias payload.model db ≡ some alias
    pub reserved :
        reserve api_key.project_id (reservation payload) clock.reserving db
        ≡ ok ((project, day, month), charged)
    pub fresh : find_call api_key.id key charged.requests ≡ none
    pub inserted : db' ≡ record charged {
      requests =
          charged.requests
          ++ new_request dump new_id clock api_key payload key alias project day month ∷ [];
    }

  pub enqueue-Enqueued :
      (new_id : ℕ) (clock : Clock) (api_key : ApiKey) (payload : ChatCompletionRequest)
      (key : Option Text) (db : Db) {answer : Answer} {db' : Db}
      → enqueue dump new_id clock api_key payload key db ≡ ok (answer, db')
      → (answer ≡ accepted new_id) × Enqueued new_id clock api_key payload key db db'
  unfolding enqueue
  enqueue-Enqueued new_id clock api_key payload key db {answer} {db'} h =
      let (alias, known, h₁) = >>=-eq-ok (or_raise (find_alias payload.model db) _) _ h in
      let (triple, reserved, h₂) =
        >>=-eq-ok
          (over_budget (reserve api_key.project_id (reservation payload) clock.reserving db)) _
          h₁ in
      let ((project, day, month), charged) = triple in
      let row = new_request dump new_id clock api_key payload key alias project day month in
      let (d, inserted, h₃) = >>=-eq-ok (insert_request row charged) _ h₂ in
      let (fresh, e) =
        insert_unless-eq-ok (find_call api_key.id key charged.requests) row charged inserted in
      let same : d ≡ db' = ground arith in
      (
        ground arith,
        record {
          alias = alias;
          project = project;
          day = day;
          month = month;
          charged = charged;
          known = or_raise-eq-ok (find_alias payload.model db) _ known;
          reserved = over_budget-eq-ok _ reserved;
          fresh = fresh;
          inserted = sym same ∙ e;
        },
      )

  -- A call that is answered is a repeated one, or has enqueued a request.
  pub data Outcome (new_id : ℕ) (clock : Clock) (api_key : ApiKey) (payload : ChatCompletionRequest)
      (key : Option Text) (db : Db) (answer : Answer) (db' : Db) : Type 0 where
    repeated :
        (existing : OrbiRequest)
        → find_call api_key.id key db.requests ≡ some existing
        → answer ≡ replay existing
        → db' ≡ db
        → Outcome new_id clock api_key payload key db answer db'
    enqueued :
        find_call api_key.id key db.requests ≡ none
        → answer ≡ accepted new_id
        → Enqueued new_id clock api_key payload key db db'
        → Outcome new_id clock api_key payload key db answer db'

  answer_call-Outcome :
      (new_id : ℕ) (clock : Clock) (api_key : ApiKey) (payload : ChatCompletionRequest)
      (key : Option Text) (db : Db) (found : Option OrbiRequest) {answer : Answer} {db' : Db}
      → find_call api_key.id key db.requests ≡ found
      → answer_call dump new_id clock api_key payload key db found ≡ ok (answer, db')
      → Outcome new_id clock api_key payload key db answer db'
  answer_call-Outcome new_id clock api_key payload key db none e h =
      let (a, q) = enqueue-Enqueued new_id clock api_key payload key db h in enqueued e a q
  answer_call-Outcome new_id clock api_key payload key db (some x) {answer} {db'} e h =
      repeated x e (ground arith) (ground arith)

  validated-key :
      (given : Option Text) {key : Option Text}
      → validate_idempotency_key given ≡ ok key
      → key ≡ given
  unfolding validate_idempotency_key
  validated-key none h = ground arith
  validated-key (some value) h = ground arith

  raise_if-eq-ok : (b : Bool) (e : Exception) {u : Unit {0}} → raise_if b e ≡ ok u → b ≡ false
  raise_if-eq-ok true e h = absurd (ground arith)
  raise_if-eq-ok false e h = refl

  pub accept-Outcome :
      (new_id : ℕ) (clock : Clock) (api_key : ApiKey) (payload : ChatCompletionRequest)
      (key : Option Text) (db : Db) {answer : Answer} {db' : Db}
      → accept dump new_id clock api_key payload key db ≡ ok (answer, db')
      → (payload.stream ≡ false)
        × (validate_idempotency_key key ≡ ok key)
        × Outcome new_id clock api_key payload key db answer db'
  unfolding accept
  accept-Outcome new_id clock api_key payload key db {answer} {db'} h =
      let (u, streaming, h₁) = >>=-eq-ok (raise_if payload.stream _) _ h in
      let (k, valid, h₂) = >>=-eq-ok (invalid_key (validate_idempotency_key key)) _ h₁ in
      let valid' = invalid_key-eq-ok (validate_idempotency_key key) valid in
      let same : k ≡ key = validated-key key valid' in
      (
        raise_if-eq-ok payload.stream _ streaming,
        subst (λ (o : Option Text). validate_idempotency_key key ≡ ok o) same valid',
        subst (λ (o : Option Text). Outcome new_id clock api_key payload o db answer db') same
            (answer_call-Outcome new_id clock api_key payload k db _ refl h₂),
      )
