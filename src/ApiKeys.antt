-- ===== src/ApiKeys.antt =====
-- apps/gateway/src/orbi_gateway/services/api_keys.py: creation, parsing and verification of API keys.
pub mod Formats
use orbi_inference.Base.{
  ℕ, Bool, true, false, ◌&&◌, ◌||◌, Option, none, some, List, [], ◌∷◌, ◌++◌, ◌==◌, ◌≡◌,
  if◌then◌else◌, ltb, length, take, drop, not,
}
use orbi_inference.Base.Text.{Text, codes}
use orbi_inference.Base.Text.Chars.{is_urlsafe, all_of, text_eq, strip_prefix}
use orbi_inference.Base.Calendar.{Instant}
use orbi_inference.Errors.{Result, ok, value_error, ◌>>◌, raise_if}

-- argon2's `PasswordHasher` is not of this repository. `hash` takes the salt, which is random there;
-- `verify` answers false where the library raises one of the two errors that the callers catch. The
-- library promises that a password verifies against its own hash.
pub record PasswordHasher : Type 0 where
  pub hash : Text → Text → Text
  pub verify : Text → Text → Bool
  pub verify-hash : (salt password : Text) → verify (hash salt password) password ≡ true

pub record GeneratedApiKey : Type 0 where
  pub raw_key : Text
  pub key_id : Text
  pub display_prefix : Text
  pub secret_hash : Text
  pub environment : Text

-- `f"{secret}:{pepper}"`
abbrev pub peppered : Text → Text → Text
peppered pepper secret = secret ++ (codes ":" ++ pepper)

-- `f"orbi_{environment}_v1_"`
abbrev pub key_prefix : Text → Text
key_prefix environment = codes "orbi_" ++ (environment ++ codes "_v1_")

abbrev pub is_environment : Text → Bool
is_environment environment =
    text_eq environment (codes "live") || text_eq environment (codes "test")

-- `APIKeyService.generate`, with the random parts as arguments: the two results of `token_urlsafe`,
-- and the salt of the hash.
unfoldable pub generate : PasswordHasher → Text → Text → Text → Text → Text → Result GeneratedApiKey
generate hasher pepper key_id secret salt environment = do
  raise_if (not (is_environment environment)) (value_error "environment must be 'live' or 'test'")
  ok (record {
    raw_key = key_prefix environment ++ (key_id ++ (codes "_" ++ secret));
    key_id = key_id;
    display_prefix = key_prefix environment ++ key_id;
    secret_hash = hasher.hash salt (peppered pepper secret);
    environment = environment;
  })

-- `[A-Za-z0-9_-]{12}_[A-Za-z0-9_-]{43}`, the part of the key before and after the underscore.
abbrev pub parse_after : Text → Text → Text → Option (Text × Text × Text)
parse_after environment key_id [] = none
parse_after environment key_id (c ∷ secret) =
    if length key_id == 12
      && all_of is_urlsafe key_id
      && c == b'_'
      && length secret == 43
      && all_of is_urlsafe secret
    then some (environment, key_id, secret)
    else none

abbrev pub parse_rest : Text → Option Text → Option (Text × Text × Text)
parse_rest environment none = none
parse_rest environment (some rest) = parse_after environment (take 12 rest) (drop 12 rest)

abbrev pub parse_as : Text → Text → Option (Text × Text × Text)
parse_as environment raw_key =
    parse_rest environment (strip_prefix (key_prefix environment) raw_key)

abbrev pub or_else : {A : Type 0} → Option A → Option A → Option A
or_else (some a) other = some a
or_else none other = other

-- `APIKeyService.parse`: the groups of `_KEY_RE.fullmatch(raw_key)`.
unfoldable pub parse : Text → Option (Text × Text × Text)
parse raw_key = or_else (parse_as (codes "live") raw_key) (parse_as (codes "test") raw_key)

-- `APIKeyService.verify_secret`
abbrev pub verify_secret : PasswordHasher → Text → Text → Text → Bool
verify_secret hasher pepper secret stored_hash = hasher.verify stored_hash (peppered pepper secret)

-- `APIKeyService.is_record_active`
abbrev pub is_record_active : Instant → Option Instant → Option Instant → Bool
is_record_active now expires_at (some revoked_at) = false
is_record_active now none none = true
is_record_active now (some expires_at) none = ltb now expires_at
