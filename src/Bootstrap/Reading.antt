-- ===== src/Bootstrap/Reading.antt =====
-- That config.py accepts settings with the values of the file which scripts/bootstrap-dev.py writes.
use orbi_inference.Base.{
  ℕ, ◌≤◌, ◌≡◌, refl, sym, arith, true, false, Option, none, some, List, [], ◌∷◌, if◌then◌else◌,
  length, ltb, some-eq,
}
use orbi_inference.Base.Int.{ℤ, pos}
use orbi_inference.Base.Text.{Text, codes}
use orbi_inference.Base.Text.Chars.{text_eq, strip_prefix}
use orbi_inference.Base.Text.Numerals.{parse_int, read_digits}
use orbi_inference.Errors.{ok}
use orbi_inference.ApiKeys.{PasswordHasher}
use orbi_inference.ApiKeys.Formats.{IsToken}
use orbi_inference.Chat.{utf8_length}
use orbi_inference.Config.{Settings, is_weak, load_settings, is_within_bounds}
use orbi_inference.Bootstrap.EnvFile.{pairs}
use orbi_inference.Bootstrap.{Drawn, assignments}

-- The value of a variable that was read.
abbrev pub value_of : Text → List (Text × Text) → Option Text
value_of name [] = none
value_of name ((other, value) ∷ rest) =
    let later = value_of name rest in if text_eq name other then some value else later

abbrev pub number_of : Option Text → Option ℤ
number_of none = none
number_of (some text) = parse_int text

-- The settings have the values that were read, the prefix ORBI_ and capitals aside.
pub record IsRead (file : List (Text × Text)) (settings : Settings) : Type 0 where
  pub api_key_pepper : value_of (codes "ORBI_API_KEY_PEPPER") file ≡ some settings.api_key_pepper
  pub worker_enrollment_pepper :
      value_of (codes "ORBI_WORKER_ENROLLMENT_PEPPER") file ≡ some settings.worker_enrollment_pepper
  pub admin_token_hash :
      value_of (codes "ORBI_ADMIN_TOKEN_HASH") file ≡ some settings.admin_token_hash
  pub admin_token_pepper :
      value_of (codes "ORBI_ADMIN_TOKEN_PEPPER") file ≡ some settings.admin_token_pepper
  pub worker_token_ttl_seconds :
      number_of (value_of (codes "ORBI_WORKER_TOKEN_TTL_SECONDS") file)
      ≡ some (pos settings.worker_token_ttl_seconds)
  pub rate_limit_rpm_default :
      number_of (value_of (codes "ORBI_RATE_LIMIT_RPM_DEFAULT") file)
      ≡ some (pos settings.rate_limit_rpm_default)
  pub max_request_body_bytes :
      number_of (value_of (codes "ORBI_MAX_REQUEST_BODY_BYTES") file)
      ≡ some (pos settings.max_request_body_bytes)
  pub request_wait_timeout_seconds :
      number_of (value_of (codes "ORBI_REQUEST_WAIT_TIMEOUT_SECONDS") file)
      ≡ some (pos settings.request_wait_timeout_seconds)
  pub worker_lease_seconds :
      number_of (value_of (codes "ORBI_WORKER_LEASE_SECONDS") file)
      ≡ some (pos settings.worker_lease_seconds)
  pub lease_recovery_interval_seconds :
      number_of (value_of (codes "ORBI_LEASE_RECOVERY_INTERVAL_SECONDS") file)
      ≡ some (pos settings.lease_recovery_interval_seconds)
  pub circuit_failure_threshold :
      number_of (value_of (codes "ORBI_CIRCUIT_FAILURE_THRESHOLD") file)
      ≡ some (pos settings.circuit_failure_threshold)
  pub circuit_cooldown_seconds :
      number_of (value_of (codes "ORBI_CIRCUIT_COOLDOWN_SECONDS") file)
      ≡ some (pos settings.circuit_cooldown_seconds)

length-le-utf8_length : (s : Text) → length s ≤ utf8_length s
length-le-utf8_length [] = omega arith
length-le-utf8_length (c ∷ s) = ground (arith, length-le-utf8_length s)

-- A random text of 48 bytes is a strong secret, unless it happens to start like a placeholder.
pub record IsPepper (pepper : Text) : Type 0 where
  pub is_token : IsToken 64 pepper
  pub is_no_placeholder : strip_prefix (codes "replace-") pepper ≡ none

IsPepper-is_weak : (pepper : Text) → IsPepper pepper → is_weak pepper ≡ false
IsPepper-is_weak pepper p = rw p.is_no_placeholder (
    rw (ltb_false (utf8_length pepper) (long_enough p.is_token.size (length-le-utf8_length pepper)))
      refl)
  where
    ltb_false : (n : ℕ) → 32 ≤ n → ltb n 32 ≡ false
    ltb_false n h = ground arith

    long_enough : {n m : ℕ} → n ≡ 64 → n ≤ m → 32 ≤ m
    long_enough size le = omega arith

number_read :
    {settings_number n : ℕ} → some (pos n) ≡ some (pos settings_number) → settings_number ≡ n
number_read h = cc

IsRead-is_within_bounds :
    (hasher : PasswordHasher) (drawn : Drawn) (settings : Settings)
    → IsRead (pairs (assignments hasher drawn)) settings
    → is_within_bounds settings ≡ true
unfolding parse_int read_digits
IsRead-is_within_bounds hasher drawn settings r =
    rw
      (
        number_read r.worker_token_ttl_seconds,
        number_read r.rate_limit_rpm_default,
        number_read r.max_request_body_bytes,
        number_read r.request_wait_timeout_seconds,
        number_read r.worker_lease_seconds,
        number_read r.lease_recovery_interval_seconds,
        number_read r.circuit_failure_threshold,
        number_read r.circuit_cooldown_seconds,
      )
      refl

strong_secret :
    {read pepper : Text} → some pepper ≡ some read → IsPepper pepper → is_weak read ≡ false
strong_secret same p = rw (sym (some-eq same)) (IsPepper-is_weak _ p)

pub settings-load :
    (hasher : PasswordHasher) (drawn : Drawn) (settings : Settings)
    → IsPepper drawn.api_key_pepper
    → IsPepper drawn.worker_pepper
    → IsPepper drawn.admin_pepper
    → IsRead (pairs (assignments hasher drawn)) settings
    → load_settings settings ≡ ok settings
unfolding load_settings
settings-load hasher drawn settings api worker admin r =
    rw
      (
        IsRead-is_within_bounds hasher drawn settings r,
        strong_secret r.api_key_pepper api,
        strong_secret r.worker_enrollment_pepper worker,
        strong_secret r.admin_token_pepper admin,
      )
      refl
