-- ===== src/CircuitBreaker/Threshold.antt =====
-- What services/circuit_breaker.py stores, and when a circuit is open.
use orbi_inference.Base.{
  ℕ, ◌*◌, ◌≤◌, ◌≡◌, refl, ap, ◌∙◌, true, Option, none, some, List, [], ◌∷◌, leb, if◌then◌else◌,
  arith, Bool-cases, inl, inr,
}
use orbi_inference.Base.Calendar.{Instant}
use orbi_inference.CircuitBreaker.{
  CircuitState, CircuitSnapshot, Mapping, or_old, merge, RedisHashClient, decode, is_open,
  has_cooled, half_opened, effective, after_failure, to_mapping, half_open_mapping, store,
  get_circuit, record_failure,
}

decode-half_open :
    (raw : Option Mapping)
    → is_open (decode raw).state ≡ true
    → decode (some (merge half_open_mapping raw)) ≡ half_opened (decode raw)
decode-half_open none h = absurd (ground arith)
decode-half_open (some raw) h = refl

or_old-new : {A : Type 0} (new old : Option A) → (new ≡ none → old ≡ none) → or_old new old ≡ new
or_old-new none old h = h refl
or_old-new (some a) old h = refl

-- A write that sets no time of opening keeps the stored one.
decode-written :
    (raw : Option Mapping) (after : CircuitSnapshot)
    → (after.opened_at ≡ none → (decode raw).opened_at ≡ none)
    → decode (some (merge (to_mapping after) raw)) ≡ after
decode-written none after h = refl
decode-written (some raw) after h =
    ap (λ o. record after { opened_at = o }) (or_old-new after.opened_at raw.opened_at h)

has_cooled-open :
    (cooldown : ℕ) (now : Instant) (c : CircuitSnapshot)
    → has_cooled cooldown now c ≡ true
    → is_open c.state ≡ true
has_cooled-open cooldown now c h = ground arith

effective-opened_at :
    (cooldown : ℕ) (now : Instant) (c : CircuitSnapshot)
    → (effective cooldown now c).opened_at ≡ c.opened_at
effective-opened_at cooldown now c = elim (Bool-cases (has_cooled cooldown now c)) [
  | inl t ↦ rw t refl
  | inr f ↦ rw f refl
]

after_failure-opened_at :
    (threshold : ℕ) (now : Instant) (c : CircuitSnapshot)
    → (after_failure threshold now c).opened_at ≡ none
    → c.opened_at ≡ none
after_failure-opened_at threshold now c h = ground arith

-- The state of a circuit that has only seen failures.
abbrev pub IsCounted : ℕ → CircuitSnapshot → Type 0
IsCounted threshold c =
    c.state ≡ (if leb threshold c.failures then CircuitState.opened else CircuitState.closed)

module _ {S : Type 0} (redis : RedisHashClient S) (cooldown : ℕ) (positive : 1 ≤ cooldown) where
  abbrev pub view : ℕ → S → CircuitSnapshot
  view worker_id s = decode (redis.hgetall worker_id s)

  stored :
      (worker_id : ℕ) (m : Mapping) (s : S)
      → redis.hgetall worker_id (store redis cooldown worker_id m s)
        ≡ some (merge m (redis.hgetall worker_id s))
  stored worker_id m s =
      redis.hgetall-expire worker_id (cooldown * 3) (redis.hset worker_id m s)
        (omega (arith, positive))
      ∙ redis.hgetall-hset worker_id m s

  -- What `get` answers is what it leaves in Redis.
  get_circuit-view :
      (worker_id : ℕ) (now : Instant) (s : S)
      → view worker_id (get_circuit redis cooldown worker_id now s).1
        ≡ effective cooldown now (view worker_id s)
  unfolding get_circuit
  get_circuit-view worker_id now s =
      elim (Bool-cases (has_cooled cooldown now (view worker_id s))) [
        | inl t ↦ rw t (
            ap decode (stored worker_id half_open_mapping s)
            ∙ decode-half_open (redis.hgetall worker_id s)
                (has_cooled-open cooldown now (view worker_id s) t))
        | inr f ↦ rw f refl
      ]

  -- If the cooldown is positive, a failure leaves in Redis what it answers: what is in effect at
  -- the first reading of the clock with one failure more, and, if the threshold is reached, open
  -- since the second.
  pub record_failure-view :
      (threshold worker_id : ℕ) (reading now : Instant) (s : S)
      → (view worker_id (record_failure redis threshold cooldown worker_id reading now s).1
          ≡ (record_failure redis threshold cooldown worker_id reading now s).0)
        × ((record_failure redis threshold cooldown worker_id reading now s).0
            ≡ after_failure threshold now (effective cooldown reading (view worker_id s)))
  unfolding record_failure get_circuit
  record_failure-view threshold worker_id reading now s =
      let current : CircuitSnapshot = effective cooldown reading (view worker_id s) in
      let after : CircuitSnapshot = after_failure threshold now current in
      let kept : S = (get_circuit redis cooldown worker_id reading s).1 in
      (
        ap decode (stored worker_id (to_mapping after) kept)
            ∙ decode-written (redis.hgetall worker_id kept) after (λ e.
              ap CircuitSnapshot.opened_at (get_circuit-view worker_id reading s)
              ∙ after_failure-opened_at threshold now current e),
        refl,
      )

  -- Failures in a row, each at its two readings of the clock.
  unfoldable pub failures_in_a_row : ℕ → ℕ → List (Instant × Instant) → S → S
  failures_in_a_row threshold worker_id [] s = s
  failures_in_a_row threshold worker_id ((reading, now) ∷ later) s =
      failures_in_a_row threshold worker_id later
        (record_failure redis threshold cooldown worker_id reading now s).1
