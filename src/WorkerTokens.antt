-- ===== src/WorkerTokens.antt =====
-- apps/gateway/src/orbi_gateway/services/worker_tokens.py: one-time enrollment tokens, and the
-- scoped tokens of enrolled workers.
use orbi_inference.Base.{
  ℕ, ◌+◌, ◌/◌, ◌≤◌, ◌<◌, ◌≡◌, String, ◌&&◌, Option, none, some, List, [], ◌∷◌, ◌++◌, ◌==◌,
  if◌then◌else◌, length, take, drop, ap, refl, arith, ◌∙◌, take-append, drop-append, length-append,
}
use orbi_inference.Base.Text.{Text, codes}
use orbi_inference.Base.Text.Chars.{strip_prefix, strip_prefix-append}
use orbi_inference.Base.Calendar.{Instant, seconds}
use orbi_inference.ApiKeys.{PasswordHasher, peppered}
use orbi_inference.ApiKeys.Formats.{IsToken}

pub record GeneratedEnrollmentToken : Type 0 where
  pub raw_token : Text
  pub token_id : Text
  pub secret_hash : Text

abbrev pub enrollment_prefix : Text
enrollment_prefix = codes "orbi_node_v1_"

-- `WorkerEnrollmentService.generate`, with the random parts as arguments.
unfoldable pub generate_enrollment :
    PasswordHasher → Text → Text → Text → Text → GeneratedEnrollmentToken
generate_enrollment hasher pepper token_id secret salt = record {
  raw_token = enrollment_prefix ++ (token_id ++ (codes "_" ++ secret));
  token_id = token_id;
  secret_hash = hasher.hash salt (peppered pepper secret);
}

-- The token's id and secret: `remainder[:12]` and `remainder[13:]`, if `remainder` has 56 characters
-- and an underscore at 12.
abbrev pub split_after : Text → Text → ℕ → Option (Text × Text)
split_after token_id [] size = none
split_after token_id (c ∷ secret) size =
    if size == 56 && c == b'_' then some (token_id, secret) else none

abbrev pub split_remainder : Option Text → Option (Text × Text)
split_remainder none = none
split_remainder (some remainder) =
    split_after (take 12 remainder) (drop 12 remainder) (length remainder)

abbrev pub split_token : Text → Option (Text × Text)
split_token raw_token = split_remainder (strip_prefix enrollment_prefix raw_token)

abbrev verify_parts : PasswordHasher → Text → Text → Option (Text × Text) → Option Text
verify_parts hasher pepper expected_hash none = none
verify_parts hasher pepper expected_hash (some (token_id, secret)) =
    if hasher.verify expected_hash (peppered pepper secret) then some token_id else none

-- `WorkerEnrollmentService.parse_and_verify`
unfoldable pub parse_and_verify : PasswordHasher → Text → Text → Text → Option Text
parse_and_verify hasher pepper raw_token expected_hash =
    verify_parts hasher pepper expected_hash (split_token raw_token)

split_token-generated :
    (token_id secret : Text)
    → IsToken 12 token_id
    → IsToken 43 secret
    → split_token (enrollment_prefix ++ (token_id ++ b'_' ∷ secret)) ≡ some (token_id, secret)
split_token-generated token_id secret k s =
    let rest : Text = token_id ++ b'_' ∷ secret in
    let size : length rest ≡ 56 =
      omega (arith, length-append token_id (b'_' ∷ secret), k.size, s.size) in
    let parts : split_remainder (some rest) ≡ split_after token_id (b'_' ∷ secret) 56 =
      rw
        (
          take-append 12 token_id (b'_' ∷ secret) k.size,
          drop-append 12 token_id (b'_' ∷ secret) k.size,
          size,
        )
        refl in
    ap split_remainder (strip_prefix-append enrollment_prefix rest) ∙ parts

-- A generated enrollment token verifies against the hash that is stored for it, under its own id, if
-- the random parts have the lengths and the characters of `token_urlsafe`.
pub generate_enrollment-parse_and_verify :
    (hasher : PasswordHasher) (pepper token_id secret salt : Text)
    → IsToken 12 token_id
    → IsToken 43 secret
    → parse_and_verify hasher pepper
        (generate_enrollment hasher pepper token_id secret salt).raw_token
        (generate_enrollment hasher pepper token_id secret salt).secret_hash
      ≡ some token_id
unfolding generate_enrollment parse_and_verify
generate_enrollment-parse_and_verify hasher pepper token_id secret salt k s =
    ap (verify_parts hasher pepper (hasher.hash salt (peppered pepper secret)))
      (split_token-generated token_id secret k s)
    ∙ (rw (hasher.verify-hash salt (peppered pepper secret)) refl)

-- The claims of a worker's token. `sub` is the worker that the subject names, where it is a UUID;
-- `scope` is there where it is a list.
pub record Claims : Type 0 where
  pub sub : Option ℕ
  pub jti : Text
  pub scope : Option (List String)
  pub iat : Instant
  pub nbf : Instant
  pub exp : Instant
  pub iss : Text
  pub aud : Text

-- The scopes that every worker is given.
abbrev pub worker_scopes : List String
worker_scopes =
    "worker:heartbeat" ∷ "worker:pull" ∷ "worker:result" ∷ "worker:error" ∷ "worker:renew" ∷ []

-- A token has its times as whole seconds.
abbrev pub whole_second : Instant → Instant
whole_second t = seconds (t / 1_000_000)

abbrev pub in_whole_seconds : Claims → Claims
in_whole_seconds c = record c {
  iat = whole_second c.iat;
  nbf = whole_second c.nbf;
  exp = whole_second c.exp;
}

-- PyJWT with a key pair is not of this repository. `decode` answers nothing where it raises. It
-- documents that claims which were signed are read back, with their times cut to whole seconds, while
-- these times make them valid; of which the claims with these scopes are used.
pub record Jwt : Type 0 where
  pub encode : Claims → Text
  pub decode : Text → Text → Instant → Text → Option Claims
  pub decode-encode :
      (c : Claims) (now : Instant)
      → c.scope ≡ some worker_scopes
      → whole_second c.iat ≤ now
      → whole_second c.nbf ≤ now
      → now < whole_second c.exp
      → decode c.aud c.iss now (encode c) ≡ some (in_whole_seconds c)

-- `WorkerJWTService`, with its settings.
pub record WorkerJwtService : Type 0 where
  pub jwt : Jwt
  pub issuer : Text
  pub audience : Text
  pub ttl : ℕ

abbrev pub worker_claims : WorkerJwtService → ℕ → Text → Instant → Claims
worker_claims service worker_id jti now = record {
  sub = some worker_id;
  jti = jti;
  scope = some worker_scopes;
  iat = now;
  nbf = now;
  exp = now + seconds service.ttl;
  iss = service.issuer;
  aud = service.audience;
}

-- `WorkerJWTService.issue`; `jti` is the new UUID.
unfoldable pub issue : WorkerJwtService → ℕ → Text → Instant → Text × Text
issue service worker_id jti now =
    (service.jwt.encode (worker_claims service worker_id jti now), jti)

-- `WorkerJWTService.verify`
unfoldable pub verify : WorkerJwtService → Instant → Text → Option Claims
verify service now token = service.jwt.decode service.audience service.issuer now token
