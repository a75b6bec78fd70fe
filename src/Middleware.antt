-- ===== src/Middleware.antt =====
-- apps/gateway/src/orbi_gateway/middleware.py: the limit on the bytes of a request's body and the
-- headers of its response. An ASGI application is a tree of its interactions with the server.
pub mod Limit
pub mod Description
pub mod Requests
use orbi_inference.Base.{
  ℕ, ◌+◌, ◌<◌, String, Bool, true, false, Option, none, some, List, [], ◌∷◌, ◌++◌, ltb, str_eq,
  length, if◌then◌else◌,
}
use orbi_inference.Base.Text.{Text, codes}
use orbi_inference.Base.Text.Chars.{text_eq}
use orbi_inference.Base.Text.Numerals.{parse_int}
use orbi_inference.Base.Int.{ℤ, pos, negsuc}
use orbi_inference.Errors.{Exception, Result, ok, err, value_error}

abbrev pub Bytes : Type 0
Bytes = Text

abbrev pub Header : Type 0
Header = Bytes × Bytes

-- `http.request` with its body, if it names one, and any other message of the server.
pub data Received : Type 0 where
  request : Option Bytes → Bool → Received
  disconnect : Received

-- `http.response.start` with its headers, if it names any, and `http.response.body`.
pub data Sent : Type 0 where
  start : ℕ → Option (List Header) → Sent
  body : Bytes → Bool → Sent

-- `RequestBodyTooLarge`, and what else an application raises.
pub data AsgiException : Type 0 where
  request_body_too_large : AsgiException
  other : Exception → AsgiException

-- What `await receive()` comes back with.
pub data Delivery : Type 0 where
  message : Received → Delivery
  failed : AsgiException → Delivery

-- The application from some point on: it has returned, has raised, waits for a message, or sends
-- one. It may catch an exception of `receive`.
pub data Running : Type 0 where
  returned : Running
  raised : AsgiException → Running
  receive : (Delivery → Running) → Running
  send : Sent → Running → Running

-- `scope`, as far as the middleware reads and writes it.
pub record Scope : Type 0 where
  pub kind : String
  pub headers : Option (List Header)
  pub request_id : Option Text

abbrev pub AsgiApp : Type 0
AsgiApp = Scope → Running

abbrev pub or_empty : {A : Type 0} → Option (List A) → List A
or_empty none = []
or_empty (some xs) = xs

abbrev pub security_headers : Bytes → List Header
security_headers request_id =
    (codes "x-content-type-options", codes "nosniff")
    ∷ (codes "cache-control", codes "no-store")
    ∷ (codes "x-orbi-request-id", request_id)
    ∷ []

-- `secure_send`: what goes out for a message.
abbrev pub secured : Bytes → Sent → Sent
secured request_id (start status headers) =
    start status (some (or_empty headers ++ security_headers request_id))
secured request_id (body bytes more) = body bytes more

abbrev pub starts : Sent → Bool
starts (start _ _) = true
starts (body _ _) = false

-- The bytes that `limited_receive` counts for a message.
abbrev pub size : Delivery → ℕ
size (message (request bytes _)) = length (or_empty bytes)
size _ = 0

-- `limited_receive`: what the application gets for a delivery, with the bytes counted so far.
abbrev pub limited : ℕ → ℕ → Delivery → Delivery
limited max consumed (message (request bytes more)) =
    if ltb max consumed then failed request_body_too_large else message (request bytes more)
limited max consumed d = d

-- The last value of a header: `dict(headers).get(name)`.
abbrev pub last_value : Bytes → List Header → Option Bytes
last_value name [] = none
last_value name ((key, value) ∷ headers) = elim (last_value name headers) [
  | some later ↦ some later
  | none ↦ if text_eq key name then some value else none
]

-- `int(content_length) > max_body_bytes`
abbrev pub exceeds : ℕ → ℤ → Bool
exceeds max (pos n) = ltb max n
exceeds max (negsuc _) = false

-- starlette's `JSONResponse(status_code, {"error": {"code": …, "message": …}}, headers)` is a
-- parameter.
module _ (json_response : ℕ → String → String → List Header → Running) where
  abbrev pub reject : Bool → Running
  reject too_large =
      json_response (if too_large then 413 else 400)
        (if too_large then "request_body_too_large" else "invalid_content_length")
        "Request body is invalid or exceeds the configured limit."
        ((codes "Cache-Control", codes "no-store")
          ∷ (codes "X-Content-Type-Options", codes "nosniff")
          ∷ [])

  -- `except RequestBodyTooLarge`
  abbrev pub after_raise : Bool → AsgiException → Running
  after_raise response_started (other e) = raised (other e)
  after_raise response_started request_body_too_large =
      if response_started then raised request_body_too_large else reject true

  -- The application behind `limited_receive` and `secure_send`.
  unfoldable pub guarded : ℕ → Bytes → ℕ → Bool → Running → Running
  guarded max request_id consumed response_started returned = returned
  guarded max request_id consumed response_started (raised e) = after_raise response_started e
  guarded max request_id consumed response_started (receive k) = receive (λ d.
      guarded max request_id (consumed + size d) response_started
        (k (limited max (consumed + size d) d)))
  guarded max request_id consumed response_started (send m rest) =
      send (secured request_id m)
        (guarded max request_id consumed (if starts m then true else response_started) rest)

  abbrev pub call_app : ℕ → Bytes → Scope → AsgiApp → Running
  call_app max request_id scope app =
      guarded max request_id 0 false (app (record scope { request_id = some request_id }))

  -- `SecurityMiddleware.__call__`, with the new request id.
  unfoldable pub call : ℕ → AsgiApp → Bytes → AsgiApp
  call max app request_id scope =
      if str_eq scope.kind "http"
      then elim (last_value (codes "content-length") (or_empty scope.headers)) [
        | none ↦ call_app max request_id scope app
        | some content_length ↦ elim (parse_int content_length) [
          | none ↦ reject false
          | some n ↦ if exceeds max n then reject true else call_app max request_id scope app
        ]
      ]
      else app scope

  -- `SecurityMiddleware.__init__`
  unfoldable pub security_middleware : AsgiApp → ℕ → Result (Bytes → AsgiApp)
  security_middleware app max_body_bytes =
      if ltb max_body_bytes 1024
      then err (value_error "max_body_bytes must be at least 1024")
      else ok (call max_body_bytes app)
