-- ===== src/Chat/Wait.antt =====
-- The wait of `create_chat_completion` in routes/chat.py for the result of the request that it has
-- stored: the row is polled every quarter of a second until a deadline.
use orbi_inference.Base.{
  ℕ, zero, suc, ◌+◌, ◌*◌, ◌≤◌, ◌<◌, ◌≡◌, refl, sym, ap, ◌∙◌, String, Bool, true, false, Option,
  none, some, if◌then◌else◌, ltb, arith, Bool-cases, Option-cases, ◌⊎◌, inl, inr, some-eq,
  none-ne_some,
}
use orbi_inference.Base.Json.{Json}
use orbi_inference.Base.Calendar.{Instant, seconds}
use orbi_inference.Errors.{Exception, Result, ok, err, ok-eq, ok-ne_err, orbi}
use orbi_inference.Entities.{OrbiRequest, Db}
use orbi_inference.Entities.Status.{RequestStatus, is_completed}
use orbi_inference.Queue.{find_request}

-- `status in {"FAILED_FINAL", "CANCELLED", "EXPIRED"}`
abbrev pub is_lost : RequestStatus → Bool
is_lost RequestStatus.failed_final = true
is_lost RequestStatus.cancelled = true
is_lost RequestStatus.expired = true
is_lost _ = false

abbrev pub request_not_found : Exception
request_not_found = orbi "request_not_found" "Request disappeared unexpectedly." 500

abbrev pub inference_failed : Exception
inference_failed = orbi "inference_failed" "The inference request could not be completed." 503

-- What a poll that finds the row decides: to go on if nothing.
abbrev pub unless_lost : RequestStatus → Option (Result Json)
unless_lost status = if is_lost status then some (err inference_failed) else none

abbrev pub outcome : RequestStatus → Option Json → Option (Result Json)
outcome status none = unless_lost status
outcome status (some result) = if is_completed status then some (ok result) else unless_lost status

abbrev pub poll : Option OrbiRequest → Option (Result Json)
poll none = some (err request_not_found)
poll (some current) = outcome current.status current.result

abbrev pub or_later : Option (Result Json) → Option (Result Json) → Option (Result Json)
or_later (some answer) later = some answer
or_later none later = later

-- `clock i` is what the event loop's time is at the test of pass `i`, and `seen i` the database that
-- this pass reads. The message of the timeout holds the id as text.
module _ (clock : ℕ → Instant) (seen : ℕ → Db) (timeout_message : ℕ → String) where
  -- The loop from pass `i` on; nothing is said once the fuel is used up.
  unfoldable pub wait_from : ℕ → ℕ → Instant → ℕ → Option (Result Json)
  wait_from zero i deadline request_id = none
  wait_from (suc fuel) i deadline request_id =
      let later = wait_from fuel (suc i) deadline request_id in
      if ltb (clock i) deadline
      then or_later (poll (find_request request_id (seen i))) later
      else some (err (orbi "inference_timeout" (timeout_message request_id) 504))

  -- The wait from its start, with a pass for each quarter of a second and one more.
  abbrev pub wait : Instant → ℕ → ℕ → Option (Result Json)
  wait start timeout_seconds request_id =
      wait_from (4 * timeout_seconds + 1) 0 (start + seconds timeout_seconds) request_id

  or_later-some :
      (first later : Option (Result Json)) {a : Result Json}
      → later ≡ some a
      → (b : Result Json) × (or_later first later ≡ some b)
  or_later-some none later {a} h = (a, h)
  or_later-some (some b) later h = (b, refl)

  wait_from-returns :
      (fuel i : ℕ) (deadline : Instant) (request_id : ℕ)
      → ((j : ℕ) → clock j + 250_000 ≤ clock (suc j))
      → deadline ≤ clock i + 250_000 * fuel
      → (answer : Result Json) × (wait_from (suc fuel) i deadline request_id ≡ some answer)
  unfolding wait_from
  wait_from-returns zero i deadline request_id sleeps reach =
      (err (orbi "inference_timeout" (timeout_message request_id) 504), ground (arith, reach))
  wait_from-returns (suc fuel) i deadline request_id sleeps reach =
      elim (Bool-cases (ltb (clock i) deadline)) [
        | inr f ↦ (err (orbi "inference_timeout" (timeout_message request_id) 504), rw f refl)
        | inl t ↦
            let (answer, later) =
              wait_from-returns fuel (suc i) deadline request_id sleeps
                (omega (arith, reach, sleeps i)) in
            let (b, first) =
              or_later-some (poll (find_request request_id (seen i)))
                (wait_from (suc fuel) (suc i) deadline request_id) later in
            (b, rw t first)
      ]

  -- If the clock does not go back before the first pass, and gains at least a quarter of a second
  -- from each pass to the next, the wait ends with an answer or an error, within four passes for
  -- each second of the timeout, and one more.
  pub wait-returns :
      (start : Instant) (timeout_seconds request_id : ℕ)
      → start ≤ clock 0
      → ((j : ℕ) → clock j + 250_000 ≤ clock (suc j))
      → (answer : Result Json) × (wait start timeout_seconds request_id ≡ some answer)
  wait-returns start timeout_seconds request_id started sleeps =
      let (answer, h) =
        wait_from-returns (4 * timeout_seconds) 0 (start + seconds timeout_seconds) request_id
          sleeps (omega (arith, started)) in
      (
        answer,
        ap (λ n. wait_from n 0 (start + seconds timeout_seconds) request_id) (omega arith) ∙ h,
      )

  unless_lost-ok : (status : RequestStatus) {json : Json} → ¬ (unless_lost status ≡ some (ok json))
  unless_lost-ok status h = ground arith

  poll-ok :
      (found : Option OrbiRequest) {json : Json}
      → poll found ≡ some (ok json)
      → (r : OrbiRequest) × (found ≡ some r)
        × (is_completed r.status ≡ true)
        × (r.result ≡ some json)
  poll-ok none h = absurd (ground arith)
  poll-ok (some r) {json} h = elim (Option-cases r.result) [
    | inl e ↦ absurd (unless_lost-ok r.status (rw e at h))
    | inr (j, e) ↦ elim (Bool-cases (is_completed r.status)) [
      | inl t ↦ (r, refl, t, e ∙ ap some (ok-eq (some-eq (rw (e, t) at h))))
      | inr f ↦ absurd (unless_lost-ok r.status (rw (e, f) at h))
    ]
  ]

  or_later-ok :
      (first later : Option (Result Json)) {json : Json}
      → or_later first later ≡ some (ok json)
      → (first ≡ some (ok json)) ⊎ (later ≡ some (ok json))
  or_later-ok none later h = inr h
  or_later-ok (some b) later h = inl h

  -- If the wait answers with a result, some pass that began before the deadline has seen the
  -- request stored as completed, with this result.
  pub wait_from-stored :
      (fuel i : ℕ) (deadline : Instant) (request_id : ℕ) {json : Json}
      → wait_from fuel i deadline request_id ≡ some (ok json)
      → (j : ℕ) × (r : OrbiRequest) × (i ≤ j)
        × (clock j < deadline)
        × (find_request request_id (seen j) ≡ some r)
        × (is_completed r.status ≡ true)
        × (r.result ≡ some json)
  unfolding wait_from
  wait_from-stored zero i deadline request_id h = absurd (none-ne_some h)
  wait_from-stored (suc fuel) i deadline request_id h = elim (Bool-cases (ltb (clock i) deadline)) [
    | inr f ↦ absurd (ok-ne_err (sym (some-eq (rw f at h))))
    | inl t ↦
        elim (or_later-ok (poll (find_request request_id (seen i)))
          (wait_from fuel (suc i) deadline request_id) (rw t at h)) [
            | inl first ↦
                let (r, found, done, result) = poll-ok (find_request request_id (seen i)) first in
                (i, r, omega arith, ground (arith, t), found, done, result)
            | inr later ↦
                let (j, r, after, early, found, done, result) =
                  wait_from-stored fuel (suc i) deadline request_id later in
                (j, r, omega (arith, after), early, found, done, result)
          ]
  ]
