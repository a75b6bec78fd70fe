-- ===== src/Routes/Frames.antt =====
-- The handlers that leave requests, projects and usage records alone: registration and credentials
-- (routes/internal/workers.py, routes/admin.py, dependencies.py).
use orbi_inference.Base.{
  ℕ, subst, ◌≡◌, refl, sym, ap, String, Bool, true, false, Option, Bool-cases, inl, inr, leb,
  first_where, str_eq,
}
use orbi_inference.Base.Table.{get}
use orbi_inference.Base.Text.{Text}
use orbi_inference.Base.Calendar.{Instant, Date, date_of}
use orbi_inference.Errors.{ok, >>=-eq-ok, ok-eq, ok-ne_err, Result-cases, raise_if, or_raise}
use orbi_inference.Entities.{ApiKey, ModelAlias, Db}
use orbi_inference.Budget.{find_project}
use orbi_inference.ApiKeys.{PasswordHasher, generate}
use orbi_inference.WorkerTokens.{WorkerJwtService, split_token}
use orbi_inference.RateLimit.{Counters, allow_minute}
use orbi_inference.Auth.{
  AuthClock, admit, roll_requests, charge_request, authenticate, require_api_key, find_worker,
}
use orbi_inference.WorkerRoutes.{
  WorkerRegisterRequest, WorkerTokenResponse, Fresh, register_worker, find_token, is_unusable,
}
use orbi_inference.Admin.{
  ApiKeyCreateRequest, Random, ModelAliasCreateRequest, create_api_key, create_model_alias,
  revoke_api_key, revoke_worker, unless_taken,
}

-- The tables by which the steps of the state machine are told apart.
pub record SameTables (a b : Db) : Type 0 where
  pub requests : b.requests ≡ a.requests
  pub projects : b.projects ≡ a.projects
  pub usage_records : b.usage_records ≡ a.usage_records

module _ {S : Type 0} where
  admit-SameTables :
      (now : Instant) (key : ApiKey) (db : Db) (answer : Bool × S) {key' : ApiKey} {db' : Db}
      → (admit now key db answer).1 ≡ ok (key', db')
      → SameTables db db'
  admit-SameTables now key db (false, s) h = absurd (ok-ne_err (sym h))
  admit-SameTables now key db (true, s) {db' = db'} h =
      subst (SameTables db) (ap (λ p. p.1) (ok-eq h))
        (record { requests = refl; projects = refl; usage_records = refl })

  charge_request-SameTables :
      (redis : Counters S) (clock : AuthClock) (key : ApiKey) (db : Db) (s : S) {key' : ApiKey}
      {db' : Db}
      → (charge_request redis clock key db s).1 ≡ ok (key', db')
      → SameTables db db'
  charge_request-SameTables redis clock key db s h =
      elim (Bool-cases (leb key.daily_req_limit key.daily_requests_used)) [
        | inl full ↦ absurd (ok-ne_err (sym (rw full at h)))
        | inr room ↦
            admit-SameTables clock.counting key db
              (allow_minute redis key.key_id key.rpm_limit clock.limiting s) (rw room at h)
      ]

  pub require_api_key-SameTables :
      (redis : Counters S) (hasher : PasswordHasher) (pepper : Text) (clock : AuthClock)
      (authorization : Option Text) (db : Db) (s : S) {key : ApiKey} {db' : Db}
      → (require_api_key redis hasher pepper clock authorization db s).1 ≡ ok (key, db')
      → SameTables db db'
  unfolding require_api_key
  require_api_key-SameTables redis hasher pepper clock authorization db s h =
      elim (Result-cases (authenticate hasher pepper clock.checking authorization db)) [
        | inr (e, q) ↦ absurd (ok-ne_err (sym (rw q at h)))
        | inl (key, q) ↦
            charge_request-SameTables redis clock (roll_requests (date_of clock.counting) key) db s
              (rw q at h)
      ]

pub register_worker-SameTables :
    (hasher : PasswordHasher) (pepper : Text) (jwt : WorkerJwtService) (fresh : Fresh)
    (payload : WorkerRegisterRequest) (db : Db) {answer : WorkerTokenResponse} {db' : Db}
    → register_worker hasher pepper jwt fresh payload db ≡ ok (answer, db')
    → SameTables db db'
unfolding register_worker
register_worker-SameTables hasher pepper jwt fresh payload db h =
    let (parts, _, h1) = >>=-eq-ok (or_raise (split_token payload.enrollment_token) _) _ h in
    let (token, _, h2) = >>=-eq-ok (or_raise (find_token parts.0 db) _) _ h1 in
    let (_, _, h3) =
      >>=-eq-ok (raise_if (is_unusable hasher pepper fresh.now payload.enrollment_token token) _) _
        h2 in
    subst (SameTables db) (ap (λ p. p.1) (ok-eq h3))
      (record { requests = refl; projects = refl; usage_records = refl })

pub create_api_key-SameTables :
    (hasher : PasswordHasher) (pepper : Text) (random : Random) (new_id : ℕ) (today : Date)
    (payload : ApiKeyCreateRequest) (db : Db) {answer : ℕ × Text × Text} {db' : Db}
    → create_api_key hasher pepper random new_id today payload db ≡ ok (answer, db')
    → SameTables db db'
unfolding create_api_key
create_api_key-SameTables hasher pepper random new_id today payload db h =
    let (_, _, h1) = >>=-eq-ok (or_raise (find_project payload.project_id db) _) _ h in
    let (_, _, h2) =
      >>=-eq-ok
        (generate hasher pepper random.public_id random.secret random.salt payload.environment) _
        h1 in
    subst (SameTables db) (ap (λ p. p.1) (ok-eq h2))
      (record { requests = refl; projects = refl; usage_records = refl })

pub create_model_alias-SameTables :
    (payload : ModelAliasCreateRequest) (db : Db) {answer : String × String} {db' : Db}
    → create_model_alias payload db ≡ ok (answer, db')
    → SameTables db db'
unfolding create_model_alias
create_model_alias-SameTables payload db h =
    let (_, _, h1) =
      >>=-eq-ok
        (unless_taken
          (first_where (λ (a : ModelAlias). str_eq a.alias payload.alias) db.model_aliases) _)
        _ h in
    subst (SameTables db) (ap (λ p. p.1) (ok-eq h1))
      (record { requests = refl; projects = refl; usage_records = refl })

pub revoke_api_key-SameTables :
    (api_key_id : ℕ) (now : Instant) (db : Db) {db' : Db}
    → revoke_api_key api_key_id now db ≡ ok db'
    → SameTables db db'
unfolding revoke_api_key
revoke_api_key-SameTables api_key_id now db h =
    let (_, _, h1) = >>=-eq-ok (or_raise (get ApiKey.id api_key_id db.api_keys) _) _ h in
    subst (SameTables db) (ok-eq h1)
      (record { requests = refl; projects = refl; usage_records = refl })

pub revoke_worker-SameTables :
    (worker_id : ℕ) (now : Instant) (db : Db) {db' : Db}
    → revoke_worker worker_id now db ≡ ok db'
    → SameTables db db'
unfolding revoke_worker
revoke_worker-SameTables worker_id now db h =
    let (_, _, h1) = >>=-eq-ok (or_raise (find_worker worker_id db) _) _ h in
    subst (SameTables db) (ok-eq h1)
      (record { requests = refl; projects = refl; usage_records = refl })
