-- ===== src/Bootstrap/Admission.antt =====
-- That what scripts/bootstrap-dev.py writes is accepted by config.py and main.py.
use orbi_inference.Base.{
  ℕ, ◌≡◌, refl, sym, ap, subst, ◌∙◌, arith, String, Bool, true, false, ◌||◌, Option, none, some,
  List, [], ◌∷◌, str_eq, is_in, some-eq,
}
use orbi_inference.Base.Text.{Text, codes}
use orbi_inference.Base.Text.Chars.{is_alnum, all_of}
use orbi_inference.Errors.{ok}
use orbi_inference.ApiKeys.{PasswordHasher}
use orbi_inference.ApiKeys.Formats.{IsToken}
use orbi_inference.Config.{Settings, load_settings}
use orbi_inference.Application.{verify_admin}
use orbi_inference.Bootstrap.EnvFile.{
  Dotenv, is_literal, are_readable, pairs, read-render, literal_token, all_of-append,
}
use orbi_inference.Bootstrap.{
  File, Files, returned, env_path, private_key_path, public_key_path, Drawn, admin_token,
  admin_hash, assignments, env_content, bootstrap,
}
use orbi_inference.Bootstrap.Reading.{IsRead, IsPepper, settings-load}

-- A file of mode 0600, which is 384.
abbrev pub private_file : Text → Option File
private_file content = some (record { content = content; mode = 384 })

-- The run on files of which none is one of the three.
pub IsWritten : PasswordHasher → Drawn → Files → Files → Type 0
IsWritten hasher drawn files files' =
    (files' private_key_path ≡ private_file drawn.private_pem)
    × (files' public_key_path ≡ private_file drawn.public_pem)
    × (files' env_path ≡ private_file (env_content hasher drawn))
    × ((path : String)
        → is_in path (private_key_path ∷ public_key_path ∷ env_path ∷ []) ≡ false
        → files' path ≡ files path)

bootstrap-IsWritten :
    (hasher : PasswordHasher) (new_mode : ℕ) (drawn : Drawn) (files : Files)
    → files private_key_path ≡ none
    → files public_key_path ≡ none
    → files env_path ≡ none
    → ((bootstrap hasher new_mode drawn files).0 ≡ returned (admin_token drawn))
      × IsWritten hasher drawn files (bootstrap hasher new_mode drawn files).1
unfolding bootstrap IsWritten
bootstrap-IsWritten hasher new_mode drawn files no_private no_public no_env = rw no_private (
    rw no_public (
      rw no_env (
        refl,
        (
          rw no_private refl,
          rw no_public refl,
          rw no_env refl,
          λ path other.
              let (a, b, c) =
                three_false (str_eq path private_key_path) (str_eq path public_key_path)
                  (str_eq path env_path) other in
              rw a (rw b (rw c refl)),
        ),
      )))
  where
    three_false :
        (a b c : Bool)
        → (a || (b || (c || false))) ≡ false
        → (a ≡ false) × (b ≡ false) × (c ≡ false)
    three_false false false false h = (refl, refl, refl)
    three_false false false true h = ground arith
    three_false false true c h = ground arith
    three_false true b c h = ground arith

-- What the random texts, the hash and the ids of the user look like.
pub record IsDrawn (hasher : PasswordHasher) (drawn : Drawn) : Type 0 where
  pub api_key_pepper : IsPepper drawn.api_key_pepper
  pub worker_pepper : IsPepper drawn.worker_pepper
  pub admin_pepper : IsPepper drawn.admin_pepper
  pub postgres_password : IsToken 43 drawn.postgres_password
  pub admin_hash : all_of is_literal (admin_hash hasher drawn) ≡ true
  pub uid : all_of is_alnum drawn.uid ≡ true
  pub gid : all_of is_alnum drawn.gid ≡ true

pub IsDrawn-are_readable :
    (hasher : PasswordHasher) (drawn : Drawn)
    → IsDrawn hasher drawn
    → are_readable (assignments hasher drawn) ≡ true
IsDrawn-are_readable hasher drawn d =
    let password = literal_token drawn.postgres_password d.postgres_password.urlsafe in
    rw
      (
        d.uid,
        d.gid,
        password,
        all_of-append is_literal drawn.postgres_password (codes "@postgres:5432/orbi") password
            refl,
        literal_token drawn.api_key_pepper d.api_key_pepper.is_token.urlsafe,
        literal_token drawn.worker_pepper d.worker_pepper.is_token.urlsafe,
        d.admin_hash,
        literal_token drawn.admin_pepper d.admin_pepper.is_token.urlsafe,
      )
      refl

-- If none of the three files is there, the peppers and the password have the form of `token_urlsafe`,
-- no pepper starts like a placeholder, the hash has only characters that may stand in quotes, and the
-- ids of the user are plain, then a run creates the three files with mode 0600 and changes no other;
-- and settings that have the values which dotenv reads from the text of the environment file are
-- accepted as they are, and their test of the administrator's token accepts the one that the run
-- returns.
pub bootstrap-load_settings :
    (hasher : PasswordHasher) (dotenv : Dotenv) (new_mode : ℕ) (drawn : Drawn) (files : Files)
    (file : File) (settings : Settings)
    → files private_key_path ≡ none
    → files public_key_path ≡ none
    → files env_path ≡ none
    → IsDrawn hasher drawn
    → (bootstrap hasher new_mode drawn files).1 env_path ≡ some file
    → IsRead (dotenv.read file.content) settings
    → ((bootstrap hasher new_mode drawn files).0 ≡ returned (admin_token drawn))
      × IsWritten hasher drawn files (bootstrap hasher new_mode drawn files).1
      × (load_settings settings ≡ ok settings)
      × (verify_admin hasher settings (admin_token drawn) ≡ true)
unfolding env_content IsWritten
bootstrap-load_settings hasher dotenv new_mode drawn files file settings no_private no_public no_env
      d stored read =
    let (printed, written) =
      bootstrap-IsWritten hasher new_mode drawn files no_private no_public no_env in
    let (private, public, environment, others) = written in
    let content : file.content ≡ env_content hasher drawn =
      ap File.content (some-eq (sym stored ∙ environment)) in
    let r : IsRead (pairs (assignments hasher drawn)) settings =
      subst (λ (values : List (Text × Text)). IsRead values settings)
        (ap dotenv.read content
          ∙ read-render dotenv (assignments hasher drawn) (IsDrawn-are_readable hasher drawn d))
        read in
    (
      printed,
      written,
      settings-load hasher drawn settings d.api_key_pepper d.worker_pepper d.admin_pepper r,
      rw (sym (some-eq r.admin_token_hash))
          (rw (sym (some-eq r.admin_token_pepper)) (hasher.verify-hash drawn.admin_salt _)),
    )
