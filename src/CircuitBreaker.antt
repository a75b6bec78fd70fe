-- ===== src/CircuitBreaker.antt =====
-- apps/gateway/src/orbi_gateway/services/circuit_breaker.py: a three-state circuit breaker for each
-- worker, kept in a Redis hash.
pub mod Threshold
use orbi_inference.Base.{
  ℕ, ◌+◌, ◌*◌, ◌≤◌, ◌≡◌, Bool, true, false, ◌&&◌, Option, none, some, leb, if◌then◌else◌,
}
use orbi_inference.Base.Calendar.{Instant, seconds}

-- `CLOSED`, `OPEN` and `HALF_OPEN`
pub data CircuitState : Type 0 where
  closed opened half_open : CircuitState

pub record CircuitSnapshot : Type 0 where
  pub state : CircuitState
  pub failures : ℕ
  pub opened_at : Option Instant

-- The fields of a hash, or those that a write sets. Every write sets the state.
pub record Mapping : Type 0 where
  pub state : CircuitState
  pub failures : Option ℕ
  pub opened_at : Option Instant

abbrev pub or_old : {A : Type 0} → Option A → Option A → Option A
or_old none old = old
or_old (some new) old = some new

-- HSET leaves the fields alone that it does not name.
abbrev pub merge : Mapping → Option Mapping → Mapping
merge new none = new
merge new (some old) = record {
  state = new.state;
  failures = or_old new.failures old.failures;
  opened_at = or_old new.opened_at old.opened_at;
}

-- `RedisHashClient`: the commands that the service uses, and what Redis documents of them for a key
-- that does not expire meanwhile. A key stands for the worker it is named after.
pub record RedisHashClient (S : Type 0) : Type 0 where
  pub hgetall : ℕ → S → Option Mapping
  pub hset : ℕ → Mapping → S → S
  pub expire : ℕ → ℕ → S → S
  pub delete : ℕ → S → S
  pub hgetall-hset :
      (k : ℕ) (m : Mapping) (s : S) → hgetall k (hset k m s) ≡ some (merge m (hgetall k s))
  pub hgetall-expire : (k n : ℕ) (s : S) → 1 ≤ n → hgetall k (expire k n s) ≡ hgetall k s
  pub hgetall-delete : (k : ℕ) (s : S) → hgetall k (delete k s) ≡ none

abbrev pub or_none : Option ℕ → ℕ
or_none none = 0
or_none (some n) = n

-- What `get` reads, before the cooldown is looked at.
abbrev pub decode : Option Mapping → CircuitSnapshot
decode none = record { state = CircuitState.closed; failures = 0; opened_at = none }
decode (some raw) = record {
  state = raw.state;
  failures = or_none raw.failures;
  opened_at = raw.opened_at;
}

abbrev pub is_open : CircuitState → Bool
is_open CircuitState.opened = true
is_open _ = false

abbrev pub has_passed : ℕ → Instant → Option Instant → Bool
has_passed cooldown now none = false
has_passed cooldown now (some opened_at) = leb (opened_at + seconds cooldown) now

-- The test of `get`: an open circuit whose cooldown is over.
abbrev pub has_cooled : ℕ → Instant → CircuitSnapshot → Bool
has_cooled cooldown now stored = is_open stored.state && has_passed cooldown now stored.opened_at

abbrev pub half_opened : CircuitSnapshot → CircuitSnapshot
half_opened stored = record stored { state = CircuitState.half_open }

-- The pure parts of `get` and `record_failure`.
abbrev pub effective : ℕ → Instant → CircuitSnapshot → CircuitSnapshot
effective cooldown now stored =
    if has_cooled cooldown now stored then half_opened stored else stored

abbrev pub after_failure : ℕ → Instant → CircuitSnapshot → CircuitSnapshot
after_failure threshold now current =
    let failures : ℕ = current.failures + 1 in
    let state : CircuitState =
      if leb threshold failures then CircuitState.opened else current.state in
    record {
      state = state;
      failures = failures;
      opened_at = if is_open state then some now else current.opened_at;
    }

abbrev pub to_mapping : CircuitSnapshot → Mapping
to_mapping snapshot = record {
  state = snapshot.state;
  failures = some snapshot.failures;
  opened_at = snapshot.opened_at;
}

abbrev pub half_open_mapping : Mapping
half_open_mapping = record { state = CircuitState.half_open; failures = none; opened_at = none }

module _ {S : Type 0} (redis : RedisHashClient S) where
  abbrev pub store : ℕ → ℕ → Mapping → S → S
  store cooldown worker_id mapping s =
      redis.expire worker_id (cooldown * 3) (redis.hset worker_id mapping s)

  -- `CircuitBreakerService.get`
  unfoldable pub get_circuit : ℕ → ℕ → Instant → S → CircuitSnapshot × S
  get_circuit cooldown worker_id now s =
      let stored : CircuitSnapshot = decode (redis.hgetall worker_id s) in
      (
        effective cooldown now stored,
        if has_cooled cooldown now stored then store cooldown worker_id half_open_mapping s else s,
      )

  -- `CircuitBreakerService.record_failure`, with the clock's readings in `get` and in the handler.
  unfoldable pub record_failure : ℕ → ℕ → ℕ → Instant → Instant → S → CircuitSnapshot × S
  record_failure threshold cooldown worker_id reading now s =
      let current = get_circuit cooldown worker_id reading s in
      let after : CircuitSnapshot = after_failure threshold now current.0 in
      (after, store cooldown worker_id (to_mapping after) current.1)

  -- `CircuitBreakerService.record_success`
  unfoldable pub record_success : ℕ → S → CircuitSnapshot × S
  record_success worker_id s = (decode none, redis.delete worker_id s)
