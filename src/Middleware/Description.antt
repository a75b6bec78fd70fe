-- ===== src/Middleware/Description.antt =====
-- A description of what middleware.py is to do with the headers and the bodies of a request and of a
-- response, and that the code does so.
use mathlib.Core.Path.{fun_ext}
use orbi_inference.Base.{
  All, All, zero, ◌+◌, ◌++◌, [], ◌∷◌, leb, ℕ, suc, ◌≤◌, ◌≡◌, refl, ap, ◌∙◌, ◌⊎◌, String, false,
  none, some, List, length, if◌then◌else◌, arith,
}
use orbi_inference.Base.Text.{codes}
use orbi_inference.Base.Text.Numerals.{parse_int}
use orbi_inference.Base.Text.Chars.{text_eq, text_eq_refl}
use orbi_inference.Base.Int.{negsuc, pos, ℤ}
use orbi_inference.Middleware.{
  body, start, request_body_too_large, size, Sent, Header, Bytes, Scope, Delivery, message, failed,
  request, disconnect, Running, or_empty, last_value, exceeds, limited, secured,
}
use orbi_inference.Middleware.Limit.{total, limited_server}

-- No header of the list has the name.
abbrev pub AreOthers : Bytes → List Header → Type 0
AreOthers name headers = All (λ (h : Header). text_eq h.0 name ≡ false) headers

-- The last header of the name has the value.
abbrev pub IsLast : Bytes → Bytes → List Header → Type 0
IsLast name value headers =
    (before : List Header) × (after : List Header) × (headers ≡ before ++ (name, value) ∷ after)
    × AreOthers name after

pub last_value-none :
    (name : Bytes) (headers : List Header) → AreOthers name headers → last_value name headers ≡ none
last_value-none name [] others = refl
last_value-none name ((key, value) ∷ headers) (other, others) =
    rw (last_value-none name headers others, other) refl

pub last_value-last :
    (name value : Bytes) (before after : List Header)
    → AreOthers name after
    → last_value name (before ++ (name, value) ∷ after) ≡ some value
last_value-last name value [] after others =
    rw (last_value-none name after others, text_eq_refl name) refl
last_value-last name value ((key, v) ∷ before) after others =
    rw (last_value-last name value before after others) refl

pub IsLast-last_value :
    (name value : Bytes) (headers : List Header)
    → IsLast name value headers
    → last_value name headers ≡ some value
IsLast-last_value name value headers (before, after, same, others) =
    rw same (last_value-last name value before after others)

abbrev pub IsAtMost : ℕ → ℤ → Type 0
IsAtMost max (pos n) = n ≤ max
IsAtMost max (negsuc n) = Unit

pub IsAtMost-exceeds : (max : ℕ) (n : ℤ) → IsAtMost max n → exceeds max n ≡ false
IsAtMost-exceeds max (pos n) h = ground arith
IsAtMost-exceeds max (negsuc n) h = refl

-- The request declares no length, or a number that is not above the limit.
abbrev pub IsAdmitted : ℕ → Scope → Type 0
IsAdmitted max scope =
    AreOthers (codes "content-length") (or_empty scope.headers)
    ⊎ ((value : Bytes) × (n : ℤ) × IsLast (codes "content-length") value (or_empty scope.headers)
        × (parse_int value ≡ some n)
        × IsAtMost max n)

abbrev pub with_id : Bytes → Scope → Scope
with_id request_id scope = record scope { request_id = some request_id }

-- What a message becomes on its way out: a start gets three headers more.
abbrev pub hardened : Bytes → Sent → Sent
hardened request_id (start status headers) = start status (
    some (
      or_empty headers
      ++ (codes "x-content-type-options", codes "nosniff")
        ∷ (codes "cache-control", codes "no-store")
        ∷ (codes "x-orbi-request-id", request_id)
        ∷ []))
hardened request_id (body bytes more) = body bytes more

-- The bytes of the bodies among the first messages.
abbrev pub byte_count : Delivery → ℕ
byte_count (message (request (some bytes) more)) = length bytes
byte_count _ = 0

abbrev pub bytes_of : (ℕ → Delivery) → ℕ → ℕ
bytes_of server zero = 0
bytes_of server (suc i) = bytes_of server i + byte_count (server i)

abbrev pub cut : ℕ → ℕ → Delivery → Delivery
cut max sofar (message (request bytes more)) =
    if leb sofar max then message (request bytes more) else failed request_body_too_large
cut max sofar d = d

-- The messages of the server, where an exception stands for each body that ends beyond the limit.
abbrev pub cut_server : ℕ → (ℕ → Delivery) → ℕ → Delivery
cut_server max server i = cut max (bytes_of server (suc i)) (server i)

-- The answer 413.
abbrev pub too_large : (ℕ → String → String → List Header → Running) → Running
too_large json_response =
    json_response 413 "request_body_too_large"
      "Request body is invalid or exceeds the configured limit."
      ((codes "Cache-Control", codes "no-store")
        ∷ (codes "X-Content-Type-Options", codes "nosniff")
        ∷ [])

pub secured-hardened : (request_id : Bytes) → secured request_id ≡ hardened request_id
secured-hardened request_id = fun_ext same
  where
    same : (m : Sent) → secured request_id m ≡ hardened request_id m
    same (start status headers) = refl
    same (body bytes more) = refl

pub size-byte_count : (d : Delivery) → size d ≡ byte_count d
size-byte_count (message (request none more)) = refl
size-byte_count (message (request (some bytes) more)) = refl
size-byte_count (message disconnect) = refl
size-byte_count (failed e) = refl

pub total-bytes_of : (server : ℕ → Delivery) (n : ℕ) → total server n ≡ bytes_of server n
total-bytes_of server zero = refl
total-bytes_of server (suc n) = rw (total-bytes_of server n, size-byte_count (server n)) refl

pub limited-cut : (max sofar : ℕ) (d : Delivery) → limited max sofar d ≡ cut max sofar d
limited-cut max sofar (message (request bytes more)) = ground arith
limited-cut max sofar (message disconnect) = refl
limited-cut max sofar (failed e) = refl

pub limited_server-cut_server :
    (max : ℕ) (server : ℕ → Delivery) → limited_server max server ≡ cut_server max server
limited_server-cut_server max server = fun_ext (λ i.
    ap (λ n. limited max n (server i)) (total-bytes_of server (suc i))
    ∙ limited-cut max (bytes_of server (suc i)) (server i))

pub cut-within : (max sofar : ℕ) (d : Delivery) → sofar ≤ max → cut max sofar d ≡ d
cut-within max sofar (message (request b more)) h = ground arith
cut-within max sofar (message disconnect) h = refl
cut-within max sofar (failed e) h = refl
