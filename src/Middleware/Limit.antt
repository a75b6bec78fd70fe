-- ===== src/Middleware/Limit.antt =====
-- What an application behind the middleware gets, and what goes out for it: middleware.py of
-- apps/gateway/src/orbi_gateway, run against the messages that the server has for it.
use orbi_inference.Base.{
  ◌⊎◌, ℕ, zero, suc, ◌+◌, ◌≤◌, ◌≡◌, refl, ap, ◌∙◌, String, Bool, true, false, ◌||◌, Option, none,
  some, List, [], ◌∷◌, ◌++◌, map, arith, ltb, Bool-cases, inl, inr, if◌then◌else◌,
}
use orbi_inference.Middleware.{
  Header, Bytes, Sent, start, body, AsgiException, request_body_too_large, other, Delivery, message,
  failed, Running, returned, raised, receive, send, request, disconnect, secured, starts, size,
  limited, reject, guarded,
}

-- How a run ends: what was sent, the exception if one was raised, and how many messages were taken.
pub record Run : Type 0 where
  pub sent : List Sent
  pub exception : Option AsgiException
  pub taken : ℕ

abbrev pub before : List Sent → Run → Run
before sent r = record r { sent = sent ++ r.sent }

-- A run against a server that has the given messages, from the `i`-th on.
unfoldable pub run : Running → (ℕ → Delivery) → ℕ → Run
run returned server i = record { sent = []; exception = none; taken = i }
run (raised e) server i = record { sent = []; exception = some e; taken = i }
run (receive k) server i = run (k (server i)) server (suc i)
run (send m rest) server i = before (m ∷ []) (run rest server i)

-- The bytes of the first messages.
abbrev pub total : (ℕ → Delivery) → ℕ → ℕ
total server zero = 0
total server (suc i) = total server i + size (server i)

-- What the application gets in place of the messages of the server.
abbrev pub limited_server : ℕ → (ℕ → Delivery) → ℕ → Delivery
limited_server max server i = limited max (total server (suc i)) (server i)

size-limited-le : (max consumed : ℕ) (d : Delivery) → size (limited max consumed d) ≤ size d
size-limited-le max consumed (message (request b more)) = ground arith
size-limited-le max consumed (message disconnect) = omega arith
size-limited-le max consumed (failed e) = omega arith

size-limited-bound :
    (max consumed : ℕ) (d : Delivery) → (size (limited max consumed d) ≡ 0) ⊎ (consumed ≤ max)
size-limited-bound max consumed (message (request b more)) = elim (Bool-cases (ltb max consumed)) [
  | inl over ↦ inl (rw over refl)
  | inr within ↦ inr (ground arith)
]
size-limited-bound max consumed (message disconnect) = inl refl
size-limited-bound max consumed (failed e) = inl refl

delivered-le-total :
    (max : ℕ) (server : ℕ → Delivery) (n : ℕ) → total (limited_server max server) n ≤ total server n
delivered-le-total max server zero = omega arith
delivered-le-total max server (suc n) =
    omega (
      arith,
      delivered-le-total max server n,
      size-limited-le max (total server (suc n)) (server n),
    )

-- However many messages the server has, the application never gets more bytes than the limit.
pub delivered-le-max :
    (max : ℕ) (server : ℕ → Delivery) (n : ℕ) → total (limited_server max server) n ≤ max
delivered-le-max max server zero = omega arith
delivered-le-max max server (suc n) =
    elim (size-limited-bound max (total server (suc n)) (server n)) [
      | inl nothing ↦ omega (arith, delivered-le-max max server n)
      | inr within ↦ omega (
        arith,
        delivered-le-total max server n,
        size-limited-le max (total server (suc n)) (server n),
      )
    ]

abbrev any_start : List Sent → Bool
any_start [] = false
any_start (m ∷ sent) = starts m || any_start sent

module _ (secure : Sent → Sent) (refusal : Running) where
  settled : (ℕ → Delivery) → Bool → Option AsgiException → Run → Run
  settled server started (some request_body_too_large) r =
      if started || any_start r.sent
      then record r { sent = map secure r.sent }
      else before (map secure r.sent) (run refusal server r.taken)
  settled server started _ r = record r { sent = map secure r.sent }

  -- What goes out for a run of the application: its messages with the headers added, and the
  -- rejection if it let the exception of `limited_receive` through and had not started to answer.
  pub answered : (ℕ → Delivery) → Bool → Run → Run
  answered server started r = settled server started r.exception r

  settled-send :
      (server : ℕ → Delivery) (m : Sent) (started : Bool) (e : Option AsgiException) (r : Run)
      → before (secure m ∷ []) (settled server (if starts m then true else started) e r)
        ≡ settled server started e (before (m ∷ []) r)
  unfolding settled
  settled-send server m started none r = refl
  settled-send server m started (some (other e)) r = refl
  settled-send server (body bytes more) started (some request_body_too_large) r =
      elim (Bool-cases (started || any_start r.sent)) [ inl t ↦ rw t refl | inr f ↦ rw f refl ]
  settled-send server (start status headers) true (some request_body_too_large) r = refl
  settled-send server (start status headers) false (some request_body_too_large) r = refl

  pub answered-of_return :
      (server : ℕ → Delivery) (started : Bool) (r : Run)
      → r.exception ≡ none
      → answered server started r ≡ record r { sent = map secure r.sent }
  unfolding answered settled
  answered-of_return server started r h = ap (λ e. settled server started e r) h

module _ (json_response : ℕ → String → String → List Header → Running) where
  pub guarded-run :
      (max : ℕ) (request_id : Bytes) (server : ℕ → Delivery) (started : Bool) (app : Running)
      (i : ℕ)
      → run (guarded json_response max request_id (total server i) started app) server i
        ≡ answered
            (secured request_id)
            (reject json_response true)
            server
            started
            (run app (limited_server max server) i)
  unfolding run guarded answered settled
  guarded-run max request_id server started returned i = refl
  guarded-run max request_id server true (raised request_body_too_large) i = refl
  guarded-run max request_id server false (raised request_body_too_large) i = refl
  guarded-run max request_id server started (raised (other e)) i = refl
  guarded-run max request_id server started (receive k) i =
      guarded-run max request_id server started (k (limited_server max server i)) (suc i)
  guarded-run max request_id server started (send m rest) i =
      ap (before (secured request_id m ∷ []))
        (guarded-run max request_id server (if starts m then true else started) rest i)
      ∙ settled-send (secured request_id) (reject json_response true) server m started
          (run rest (limited_server max server) i).exception
          (run rest (limited_server max server) i)
