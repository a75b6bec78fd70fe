-- ===== src/Auth.antt =====
-- apps/gateway/src/orbi_gateway/dependencies.py: who may call the gateway.
pub mod Clients
use orbi_inference.Base.{
  ℕ, ◌+◌, String, Bool, true, false, not, ◌&&◌, ◌||◌, Option, none, some, List, [], ◌∷◌, ◌==◌,
  if◌then◌else◌, leb, is_none, is_in, first_where,
}
use orbi_inference.Base.Table.{get, modify}
use orbi_inference.Base.Text.{Text, codes}
use orbi_inference.Base.Text.Chars.{text_eq, strip_prefix}
use orbi_inference.Base.Calendar.{Instant, Date, date_eq, date_of}
use orbi_inference.Errors.{Exception, Result, ok, err, ◌>>=◌, ◌>>◌, raise_if, or_raise, orbi}
use orbi_inference.Entities.{Project, ApiKey, Worker, Db}
use orbi_inference.Budget.{find_project}
use orbi_inference.ApiKeys.{PasswordHasher, parse, verify_secret, is_record_active}
use orbi_inference.WorkerTokens.{Claims}
use orbi_inference.RateLimit.{Counters, allow_minute}

-- The white space that `str.strip` removes.
abbrev pub is_space : ℕ → Bool
is_space c =
    (leb 9 c && leb c 13)
    || (leb 28 c && leb c 32)
    || c == 0x85
    || c == 0xa0
    || c == 0x1680
    || (leb 0x2000 c && leb c 0x200a)
    || c == 0x2028
    || c == 0x2029
    || c == 0x202f
    || c == 0x205f
    || c == 0x3000

abbrev pub lstrip : Text → Text
lstrip [] = []
lstrip (c ∷ s) = if is_space c then lstrip s else c ∷ s

abbrev pub cons_unless_blank : ℕ → Text → Text
cons_unless_blank c [] = if is_space c then [] else c ∷ []
cons_unless_blank c (d ∷ s) = c ∷ d ∷ s

abbrev pub rstrip : Text → Text
rstrip [] = []
rstrip (c ∷ s) = cons_unless_blank c (rstrip s)

-- `authorization.removeprefix("Bearer ").strip()`, if there is such a header.
abbrev pub strip_found : Option Text → Option Text
strip_found none = none
strip_found (some rest) = some (rstrip (lstrip rest))

abbrev pub bearer : Option Text → Option Text
bearer none = none
bearer (some authorization) = strip_found (strip_prefix (codes "Bearer ") authorization)

abbrev pub invalid_api_key : Exception
invalid_api_key = orbi "invalid_api_key" "A valid bearer API key is required." 401

-- `.join(Project, ...).where(Project.is_active.is_(True))`
abbrev pub is_found_active : Option Project → Bool
is_found_active none = false
is_found_active (some project) = project.is_active

abbrev pub find_api_key : Text → Db → Option ApiKey
find_api_key key_id db =
    first_where
      (λ (k : ApiKey). text_eq k.key_id key_id && is_found_active (find_project k.project_id db))
      db.api_keys

-- The readings of the clock in `require_api_key`: in `is_record_active`, in the handler, and in the
-- rate limiter.
pub record AuthClock : Type 0 where
  pub checking : Instant
  pub counting : Instant
  pub limiting : Instant

-- The two resets of the daily counter.
abbrev pub roll_requests : Date → ApiKey → ApiKey
roll_requests today key =
    if date_eq key.daily_requests_date today
    then key
    else record key { daily_requests_date = today; daily_requests_used = 0 }

abbrev pub count_request : Instant → ApiKey → ApiKey
count_request now key = record key {
  daily_requests_used = key.daily_requests_used + 1;
  last_used_at = some now;
}

module _ (hasher : PasswordHasher) (pepper : Text) where
  -- What is tested of the record that was found.
  abbrev pub is_authentic : Instant → Text × Text × Text → ApiKey → Bool
  is_authentic now (environment, key_id, secret) key =
      text_eq key.environment environment
      && verify_secret hasher pepper secret key.secret_hash
      && is_record_active now key.expires_at key.revoked_at

  -- `require_api_key` up to its last 401.
  unfoldable pub authenticate : Instant → Option Text → Db → Result ApiKey
  authenticate now authorization db = do
    raw_key ← or_raise (bearer authorization) invalid_api_key
    parsed ← or_raise (parse raw_key) invalid_api_key
    key ← or_raise (find_api_key parsed.1 db) invalid_api_key
    raise_if (not (is_authentic now parsed key)) invalid_api_key
    ok key

-- What the handler does once the rate limiter has answered.
abbrev pub admit : {S : Type 0} → Instant → ApiKey → Db → Bool × S → S × Result (ApiKey × Db)
admit now key db (false, s) =
    (s, err (orbi "rate_limit_exceeded" "Per-minute request limit exceeded." 429))
admit now key db (true, s) = (
  s,
  ok (
    count_request now key,
    record db { api_keys = modify ApiKey.id key.id (λ _. count_request now key) db.api_keys },
  ),
)

module _ {S : Type 0} (redis : Counters S) where
  abbrev pub charge_request : AuthClock → ApiKey → Db → S → S × Result (ApiKey × Db)
  charge_request clock key db s =
      if leb key.daily_req_limit key.daily_requests_used
      then (s, err (orbi "daily_request_limit_exceeded" "Daily request limit exceeded." 429))
      else admit clock.counting key db
          (allow_minute redis key.key_id key.rpm_limit clock.limiting s)

  abbrev pub after_authentication : AuthClock → Db → S → Result ApiKey → S × Result (ApiKey × Db)
  after_authentication clock db s (err e) = (s, err e)
  after_authentication clock db s (ok key) =
      charge_request clock (roll_requests (date_of clock.counting) key) db s

  -- `require_api_key`. The counters of Redis are not part of the transaction: they stay counted when
  -- the call raises.
  unfoldable pub require_api_key :
      PasswordHasher → Text → AuthClock → Option Text → Db → S → S × Result (ApiKey × Db)
  require_api_key hasher pepper clock authorization db s =
      after_authentication clock db s (authenticate hasher pepper clock.checking authorization db)

-- `require_api_scope`
unfoldable pub require_api_scope : String → ApiKey → Result ApiKey
require_api_scope required_scope api_key = do
  raise_if (not (is_in required_scope api_key.scopes) && not (is_in "*" api_key.scopes))
      (orbi "insufficient_scope" "API key lacks the required scope." 403)
  ok api_key

-- `require_admin`, with the verification of the administrator's token as an argument.
unfoldable pub require_admin : (Text → Bool) → Option Text → Result (Unit {0})
require_admin verifier authorization = do
  token ←
      or_raise (bearer authorization)
        (orbi "admin_auth_required" "Administrator authentication is required." 401)
  raise_if (not (verifier token))
      (orbi "admin_auth_required" "Administrator authentication is required." 401)

abbrev pub find_worker : ℕ → Db → Option Worker
find_worker worker_id db = get Worker.id worker_id db.workers

-- `worker.token_jti == jti`
abbrev pub jti_eq : Option Text → Text → Bool
jti_eq none jti = false
jti_eq (some current) jti = text_eq current jti

-- `require_worker`. `verify` stands for the JWT library, which checks the signature, the audience,
-- the issuer and the times, and answers nothing where it raises.
unfoldable pub require_worker : (Text → Option Claims) → Option Text → Db → Result (Worker × Claims)
require_worker verify authorization db = do
  token ←
      or_raise (bearer authorization)
        (orbi "worker_auth_required" "Worker authentication is required." 401)
  claims ←
      or_raise (verify token)
        (orbi "invalid_worker_token" "Worker token is invalid or expired." 401)
  worker_id ←
      or_raise claims.sub (orbi "invalid_worker_token" "Worker token is invalid or expired." 401)
  worker ←
      or_raise (find_worker worker_id db)
        (orbi "invalid_worker_token" "Worker token is invalid or revoked." 401)
  raise_if (not (is_none worker.revoked_at) || not (jti_eq worker.token_jti claims.jti))
      (orbi "invalid_worker_token" "Worker token is invalid or revoked." 401)
  ok (worker, claims)

abbrev pub has_scope : String → Option (List String) → Bool
has_scope required_scope none = false
has_scope required_scope (some scopes) = is_in required_scope scopes

-- `require_worker_scope`
unfoldable pub require_worker_scope :
    (Text → Option Claims) → String → Option Text → Db → Result Worker
require_worker_scope verify required_scope authorization db = do
  found ← require_worker verify authorization db
  raise_if (not (has_scope required_scope found.1.scope))
      (orbi "insufficient_worker_scope" "Worker token lacks scope." 403)
  ok found.0
