-- ===== src/Bootstrap.antt =====
-- scripts/bootstrap-dev.py: the development configuration, written into a store of files. A file that
-- is created gets the mode of the process's umask, and its own one by `chmod`. The key pair, the
-- random texts and the ids of the user are arguments. The directories are left out.
pub mod EnvFile
pub mod Reading
pub mod Admission
use orbi_inference.Base.{
  ℕ, Bool, true, false, not, ◌||◌, Option, none, some, List, [], ◌∷◌, ◌++◌, String, if◌then◌else◌,
  is_none, str_eq,
}
use orbi_inference.Base.Text.{Text, codes}
use orbi_inference.ApiKeys.{PasswordHasher, peppered}

pub record File : Type 0 where
  pub content : Text
  pub mode : ℕ

abbrev pub Files : Type 0
Files = String → Option File

-- `SystemExit` carries its message.
pub data Outcome (A : Type 0) : Type 0 where
  returned : A → Outcome A
  system_exit : String → String → Outcome A

abbrev pub env_path : String
env_path = ".env"

abbrev pub private_key_path : String
private_key_path = "secrets/orbi_jwt_private.pem"

abbrev pub public_key_path : String
public_key_path = "secrets/orbi_jwt_public.pem"

-- `Path.exists`
abbrev pub exists : String → Files → Bool
exists path files = not (is_none (files path))

-- `Path.write_text`
abbrev pub write_text : ℕ → String → Text → Files → Files
write_text new_mode path content files p =
    if str_eq p path
    then elim (files path) [
      | none ↦ some (record { content = content; mode = new_mode })
      | some file ↦ some (record file { content = content })
    ]
    else files p

abbrev with_mode : ℕ → Option File → Option File
with_mode mode none = none
with_mode mode (some file) = some (record file { mode = mode })

-- `Path.chmod`
abbrev pub chmod : String → ℕ → Files → Files
chmod path mode files p = if str_eq p path then with_mode mode (files p) else files p

-- `stat.S_IRUSR | stat.S_IWUSR`
abbrev pub owner_only : ℕ
owner_only = 384

-- `secure_write`
abbrev pub secure_write : ℕ → String → Text → Files → Outcome (Unit {0}) × Files
secure_write new_mode path content files =
    if exists path files
    then (system_exit "Refusing to overwrite existing file: " path, files)
    else (returned tt, chmod path owner_only (write_text new_mode path content files))

-- The statements after a call run unless it exits; what it has written stays.
abbrev pub after :
    {A : Type 0} → Outcome (Unit {0}) × Files → (Files → Outcome A × Files) → Outcome A × Files
after (returned _, files) rest = rest files
after (system_exit message path, files) rest = (system_exit message path, files)

-- What the script draws or asks the system for.
pub record Drawn : Type 0 where
  pub private_pem : Text
  pub public_pem : Text
  pub api_key_pepper : Text
  pub worker_pepper : Text
  pub admin_pepper : Text
  pub postgres_password : Text
  pub admin_secret : Text
  pub admin_salt : Text
  pub uid : Text
  pub gid : Text

abbrev pub admin_token : Drawn → Text
admin_token drawn = codes "orbi_admin_v1_" ++ drawn.admin_secret

abbrev pub admin_hash : PasswordHasher → Drawn → Text
admin_hash hasher drawn =
    hasher.hash drawn.admin_salt (peppered drawn.admin_pepper (admin_token drawn))

-- A line of the file, with its value bare or in quotes.
pub data Assignment : Type 0 where
  bare quoted : String → Text → Assignment

abbrev pub assignments : PasswordHasher → Drawn → List Assignment
assignments hasher drawn =
    bare "ORBI_ENVIRONMENT" (codes "development")
    ∷ bare "ORBI_LOG_LEVEL" (codes "INFO")
    ∷ bare "ORBI_HOST_UID" drawn.uid
    ∷ bare "ORBI_HOST_GID" drawn.gid
    ∷ quoted "ORBI_POSTGRES_PASSWORD" drawn.postgres_password
    ∷ quoted "ORBI_DATABASE_URL" (
        codes "postgresql+asyncpg://orbi:"
        ++ (drawn.postgres_password ++ codes "@postgres:5432/orbi"))
    ∷ quoted "ORBI_REDIS_URL" (codes "redis://redis:6379/0")
    ∷ quoted "ORBI_API_KEY_PEPPER" drawn.api_key_pepper
    ∷ quoted "ORBI_WORKER_ENROLLMENT_PEPPER" drawn.worker_pepper
    ∷ quoted "ORBI_JWT_PRIVATE_KEY_PATH" (codes "/run/secrets/orbi_jwt_private.pem")
    ∷ quoted "ORBI_JWT_PUBLIC_KEY_PATH" (codes "/run/secrets/orbi_jwt_public.pem")
    ∷ quoted "ORBI_JWT_ISSUER" (codes "orbi-core")
    ∷ quoted "ORBI_JWT_AUDIENCE" (codes "orbi-worker")
    ∷ bare "ORBI_WORKER_TOKEN_TTL_SECONDS" (codes "3600")
    ∷ quoted "ORBI_ADMIN_TOKEN_HASH" (admin_hash hasher drawn)
    ∷ quoted "ORBI_ADMIN_TOKEN_PEPPER" drawn.admin_pepper
    ∷ bare "ORBI_RATE_LIMIT_RPM_DEFAULT" (codes "60")
    ∷ bare "ORBI_MAX_REQUEST_BODY_BYTES" (codes "1048576")
    ∷ bare "ORBI_REQUEST_WAIT_TIMEOUT_SECONDS" (codes "60")
    ∷ bare "ORBI_WORKER_LEASE_SECONDS" (codes "120")
    ∷ bare "ORBI_LEASE_RECOVERY_INTERVAL_SECONDS" (codes "30")
    ∷ bare "ORBI_CIRCUIT_FAILURE_THRESHOLD" (codes "5")
    ∷ bare "ORBI_CIRCUIT_COOLDOWN_SECONDS" (codes "120")
    ∷ []

abbrev pub render : List Assignment → Text
render [] = []
render (bare name value ∷ rest) =
    codes name ++ (codes "=" ++ (value ++ (codes "\n" ++ render rest)))
render (quoted name value ∷ rest) =
    codes name ++ (codes "='" ++ (value ++ (codes "'\n" ++ render rest)))

unfoldable pub env_content : PasswordHasher → Drawn → Text
env_content hasher drawn = render (assignments hasher drawn)

abbrev pub write_env : PasswordHasher → ℕ → Drawn → Files → Outcome Text × Files
write_env hasher new_mode drawn files =
    after (secure_write new_mode env_path (env_content hasher drawn) files)
      (λ files. (returned (admin_token drawn), files))

abbrev pub write_public_key : PasswordHasher → ℕ → Drawn → Files → Outcome Text × Files
write_public_key hasher new_mode drawn files =
    after (secure_write new_mode public_key_path drawn.public_pem files)
      (write_env hasher new_mode drawn)

-- `main`, which prints the token that it returns here.
unfoldable pub bootstrap : PasswordHasher → ℕ → Drawn → Files → Outcome Text × Files
bootstrap hasher new_mode drawn files =
    if exists env_path files || exists private_key_path files || exists public_key_path files
    then (
      system_exit
          "Bootstrap files already exist. Move or delete .env and secrets/ intentionally before rerunning."
          "",
      files,
    )
    else after (secure_write new_mode private_key_path drawn.private_pem files)
        (write_public_key hasher new_mode drawn)
