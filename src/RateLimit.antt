-- ===== src/RateLimit.antt =====
-- apps/gateway/src/orbi_gateway/services/rate_limit.py: at most so many requests a minute per key.
use orbi_inference.Base.{
  ℕ, ◌+◌, ◌-◌, ◌/◌, ◌≤◌, ◌≡◌, refl, ap, ◌∙◌, Bool, List, [], ◌∷◌, ◌==◌, if◌then◌else◌, leb, All,
  suc, Bool-cases, arith, length, inl, inr,
}
use orbi_inference.Base.Text.{Text}
use orbi_inference.Base.Calendar.{Instant, minutes}

-- The Redis server, of which the service uses INCR, which answers the new count, and EXPIRE. A
-- counter is named by a key id and a minute, as `orbi:ratelimit:{key_id}:{window}` is. `count` is
-- what the counter stands at; the laws are what Redis documents of a counter that does not expire
-- meanwhile.
pub record Counters (S : Type 0) : Type 0 where
  pub incr : Text → ℕ → S → ℕ × S
  pub expire : Text → ℕ → ℕ → S → S
  pub count : Text → ℕ → S → ℕ
  pub incr-answer :
      (key : Text) (window : ℕ) (s : S) → (incr key window s).0 ≡ count key window s + 1
  pub count-incr :
      (key : Text) (window : ℕ) (s : S)
      → count key window (incr key window s).1 ≡ count key window s + 1
  pub count-expire :
      (key : Text) (window n : ℕ) (s : S)
      → 1 ≤ n
      → count key window (expire key window n s) ≡ count key window s

-- `now.strftime("%Y%m%d%H%M")`, which tells minutes apart.
abbrev pub minute_of : Instant → ℕ
minute_of now = now / minutes 1

module _ {S : Type 0} (redis : Counters S) where
  -- The key is given a lifetime when it is created.
  abbrev keep_alive : Text → ℕ → ℕ × S → S
  keep_alive key_id window (count, s) = if count == 1 then redis.expire key_id window 120 s else s

  -- `RateLimitService.allow_minute`
  unfoldable pub allow_minute : Text → ℕ → Instant → S → Bool × S
  allow_minute key_id rpm_limit now s =
      let window = minute_of now in
      let answer = redis.incr key_id window s in
      (leb answer.0 rpm_limit, keep_alive key_id window answer)

  keep_alive-count :
      (key_id : Text) (window n : ℕ) (s : S)
      → redis.count key_id window (keep_alive key_id window (n, s)) ≡ redis.count key_id window s
  keep_alive-count key_id window n s = elim (Bool-cases (n == 1)) [
    | inl t ↦ rw t (redis.count-expire key_id window 120 s (omega arith))
    | inr f ↦ rw f refl
  ]

  allow_minute-step :
      (key_id : Text) (rpm_limit : ℕ) (now : Instant) (s : S)
      → ((allow_minute key_id rpm_limit now s).0
          ≡ leb (redis.count key_id (minute_of now) s + 1) rpm_limit)
        × (redis.count key_id (minute_of now) (allow_minute key_id rpm_limit now s).1
            ≡ redis.count key_id (minute_of now) s + 1)
  unfolding allow_minute
  allow_minute-step key_id rpm_limit now s = (
    ap (λ n. leb n rpm_limit) (redis.incr-answer key_id (minute_of now) s),
    keep_alive-count key_id (minute_of now) (redis.incr key_id (minute_of now) s).0
          (redis.incr key_id (minute_of now) s).1
        ∙ redis.count-incr key_id (minute_of now) s,
  )

  -- How many of the calls at the given times are let through.
  unfoldable pub allowed : Text → ℕ → List Instant → S → ℕ
  allowed key_id rpm_limit [] s = 0
  allowed key_id rpm_limit (now ∷ later) s =
      let step = allow_minute key_id rpm_limit now s in
      let rest = allowed key_id rpm_limit later step.1 in if step.0 then rest + 1 else rest

  room_left :
      (passed : Bool) (count count' limit calls rest : ℕ)
      → passed ≡ leb (count + 1) limit
      → count' ≡ count + 1
      → rest ≡ (if leb calls (limit - count') then calls else limit - count')
      → (if passed then rest + 1 else rest)
        ≡ (if leb (suc calls) (limit - count) then suc calls else limit - count)
  room_left passed count count' limit calls rest p c r = ground arith

  -- Of any number of calls with one key within one minute as many are let through as the limit
  -- leaves room for on top of what is counted already, or all of them if they are fewer.
  pub allowed_exact :
      (key_id : Text) (rpm_limit window : ℕ) (times : List Instant) (s : S)
      → All (λ now. minute_of now ≡ window) times
      → allowed key_id rpm_limit times s ≡ (
          if leb (length times) (rpm_limit - redis.count key_id window s)
          then length times
          else rpm_limit - redis.count key_id window s)
  unfolding allowed
  allowed_exact key_id rpm_limit window [] s same = ground arith
  allowed_exact key_id rpm_limit window (now ∷ later) s (e, same) =
      let (passed, counted) = allow_minute-step key_id rpm_limit now s in
      let after : S = (allow_minute key_id rpm_limit now s).1 in
      let rest = allowed_exact key_id rpm_limit window later after same in
      room_left (allow_minute key_id rpm_limit now s).0 (redis.count key_id window s)
        (redis.count key_id window after) rpm_limit (length later)
        (allowed key_id rpm_limit later after) (rw e at passed) (rw e at counted) rest
