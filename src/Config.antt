-- ===== src/Config.antt =====
-- apps/gateway/src/orbi_gateway/config.py: the settings and their bounds. A setting that comes from
-- the environment is a text that pydantic has parsed.
use orbi_inference.Base.{ℕ, Bool, not, ◌&&◌, ◌||◌, ltb, is_none}
use orbi_inference.Base.Text.{Text, codes}
use orbi_inference.Base.Text.Chars.{strip_prefix}
use orbi_inference.Errors.{Result, ok, value_error, ◌>>=◌, ◌>>◌, raise_if, validation_failed}
use orbi_inference.Chat.{utf8_length}
use orbi_inference.Schemas.{within}

-- `Settings`
pub record Settings : Type 0 where
  pub environment : Text
  pub log_level : Text
  pub database_url : Text
  pub redis_url : Text
  pub api_key_pepper : Text
  pub worker_enrollment_pepper : Text
  pub admin_token_hash : Text
  pub admin_token_pepper : Text
  pub jwt_private_key_path : Text
  pub jwt_public_key_path : Text
  pub jwt_issuer : Text
  pub jwt_audience : Text
  pub worker_token_ttl_seconds : ℕ
  pub rate_limit_rpm_default : ℕ
  pub max_request_body_bytes : ℕ
  pub request_wait_timeout_seconds : ℕ
  pub worker_lease_seconds : ℕ
  pub lease_recovery_interval_seconds : ℕ
  pub circuit_failure_threshold : ℕ
  pub circuit_cooldown_seconds : ℕ

-- The bounds of the fields.
abbrev pub is_within_bounds : Settings → Bool
is_within_bounds settings =
    within 300 86_400 settings.worker_token_ttl_seconds
    && within 1 100_000 settings.rate_limit_rpm_default
    && within 1024 16_777_216 settings.max_request_body_bytes
    && within 1 600 settings.request_wait_timeout_seconds
    && within 30 1800 settings.worker_lease_seconds
    && within 5 300 settings.lease_recovery_interval_seconds
    && within 1 100 settings.circuit_failure_threshold
    && within 10 3600 settings.circuit_cooldown_seconds

-- `len(raw.encode()) < 32 or raw.startswith("replace-")`
abbrev pub is_weak : Text → Bool
is_weak raw = ltb (utf8_length raw) 32 || not (is_none (strip_prefix (codes "replace-") raw))

-- `validate_secret_length`
abbrev pub validate_secret_length : Text → Result Text
validate_secret_length value = do
  raise_if (is_weak value)
      (value_error "security peppers must contain at least 32 non-placeholder bytes")
  ok value

-- `Settings()`, which checks the fields and the three secrets.
unfoldable pub load_settings : Settings → Result Settings
load_settings settings = do
  raise_if (not (is_within_bounds settings)) validation_failed
  api_key_pepper ← validate_secret_length settings.api_key_pepper
  worker_enrollment_pepper ← validate_secret_length settings.worker_enrollment_pepper
  admin_token_pepper ← validate_secret_length settings.admin_token_pepper
  ok (record settings {
    api_key_pepper = api_key_pepper;
    worker_enrollment_pepper = worker_enrollment_pepper;
    admin_token_pepper = admin_token_pepper;
  })
