-- ===== src/Application/Startup.antt =====
-- That settings which config.py accepts start the application: no constructor that `create_app` and
-- `lifespan` of main.py call refuses them.
use orbi_inference.Base.{
  subst, ℕ, ◌≡◌, refl, sym, ap, ◌∙◌, Bool, true, false, not, ◌||◌, arith, ltb,
}
use orbi_inference.Base.Text.{Text}
use orbi_inference.Errors.{ok, >>=-eq-ok, ok-eq, raise_if, raise_if-eq-ok}
use orbi_inference.Chat.{utf8_length}
use orbi_inference.Config.{
  Settings, is_within_bounds, is_weak, validate_secret_length, load_settings,
}
use orbi_inference.Routes.{Services}
use orbi_inference.Middleware.{AsgiApp, security_middleware, call}
use orbi_inference.Application.{Libraries, app_state, lifespan, create_app}

-- A secret that is accepted is long enough, and stays as it is.
accepted_secret :
    (value : Text) {kept : Text}
    → validate_secret_length value ≡ ok kept
    → (value ≡ kept) × (ltb (utf8_length value) 32 ≡ false)
accepted_secret value {kept} h =
    let (_, strong, same) = >>=-eq-ok (raise_if (is_weak value) _) _ h in
    let weak : is_weak value ≡ false = raise_if-eq-ok _ _ strong in
    (ok-eq same, long_enough (ltb (utf8_length value) 32) _ weak)
  where
    long_enough : (a b : Bool) → (a || b) ≡ false → a ≡ false
    long_enough false b e = refl
    long_enough true b e = e

load_settings-eq_ok :
    (settings : Settings) {loaded : Settings}
    → load_settings settings ≡ ok loaded
    → (loaded ≡ settings)
      × (is_within_bounds settings ≡ true)
      × (ltb (utf8_length settings.api_key_pepper) 32 ≡ false)
      × (ltb (utf8_length settings.worker_enrollment_pepper) 32 ≡ false)
unfolding load_settings
load_settings-eq_ok settings h =
    let (_, bounds, h1) = >>=-eq-ok (raise_if (not (is_within_bounds settings)) _) _ h in
    let (a, api, h2) = >>=-eq-ok (validate_secret_length settings.api_key_pepper) _ h1 in
    let (b, enrollment, h3) =
      >>=-eq-ok (validate_secret_length settings.worker_enrollment_pepper) _ h2 in
    let (c, admin, h4) = >>=-eq-ok (validate_secret_length settings.admin_token_pepper) _ h3 in
    let (same_a, long_a) = accepted_secret settings.api_key_pepper api in
    let (same_b, long_b) = accepted_secret settings.worker_enrollment_pepper enrollment in
    let (same_c, _) = accepted_secret settings.admin_token_pepper admin in
    (
      sym (ok-eq h4)
          ∙ ap
              (λ x. record settings {
                api_key_pepper = x;
                worker_enrollment_pepper = b;
                admin_token_pepper = c;
              })
              (sym same_a)
          ∙ ap (λ x. record settings { worker_enrollment_pepper = x; admin_token_pepper = c })
              (sym same_b)
          ∙ ap (λ x. record settings { admin_token_pepper = x }) (sym same_c),
      not_false (is_within_bounds settings) (raise_if-eq-ok _ _ bounds),
      long_a,
      long_b,
    )
  where
    not_false : (b : Bool) → not b ≡ false → b ≡ true
    not_false true e = refl
    not_false false e = sym e

body_limit :
    (settings : Settings)
    → is_within_bounds settings ≡ true
    → ltb settings.max_request_body_bytes 1024 ≡ false
body_limit settings h = ground arith

module _ {S : Type 0} (libraries : Libraries S) where
  -- The libraries accept what the settings tell them.
  pub record Accepts (settings : Settings) : Type 0 where
    pub logging : libraries.basic_config settings.log_level ≡ ok tt
    pub structlog : libraries.structlog_configure settings.log_level ≡ ok tt
    pub engine : libraries.create_async_engine settings.database_url ≡ ok tt
    pub redis : libraries.redis_from_url settings.redis_url ≡ ok tt
    pub private_key : (key : Text) × (libraries.read_text settings.jwt_private_key_path ≡ ok key)
    pub public_key : (key : Text) × (libraries.read_text settings.jwt_public_key_path ≡ ok key)

  built :
      (settings : Settings)
      → Accepts settings
      → ltb (utf8_length settings.api_key_pepper) 32 ≡ false
      → ltb (utf8_length settings.worker_enrollment_pepper) 32 ≡ false
      → (services : Services S) × (timeout : ℕ) × (lifespan libraries settings
          ≡ ok (services, timeout))
  unfolding lifespan
  built settings accepts a b =
      let (private_key, read) = accepts.private_key in
      let (public_key, read') = accepts.public_key in
      (
        app_state libraries settings settings.api_key_pepper settings.worker_enrollment_pepper
            (libraries.jwt private_key public_key),
        90,
        rw (accepts.engine, accepts.redis, a, b, read, read') refl,
      )

  -- Settings that pass the checks are kept as they are. If the logging libraries accept their level,
  -- the database engine and the Redis client their addresses, and the two key files can be read, they
  -- start the application: no constructor of a service refuses them, nor does the middleware.
  pub load_settings-starts :
      (settings loaded : Settings) (app : AsgiApp)
      → load_settings settings ≡ ok loaded
      → Accepts settings
      → (loaded ≡ settings)
        × ((services : Services S) × (timeout : ℕ) × (lifespan libraries loaded
              ≡ ok (services, timeout)))
        × (create_app libraries loaded app
            ≡ ok (call libraries.json_response loaded.max_request_body_bytes app))
  unfolding create_app security_middleware
  load_settings-starts settings loaded app h accepts =
      let (same, bounds, long_a, long_b) = load_settings-eq_ok settings h in
      (
        same,
        subst
            (λ (x : Settings).
              (services : Services S) × (timeout : ℕ) × (lifespan libraries x
                ≡ ok (services, timeout)))
            (sym same) (built settings accepts long_a long_b),
        subst
            (λ (x : Settings).
              create_app libraries x app
              ≡ ok (call libraries.json_response x.max_request_body_bytes app))
            (sym same) (rw (accepts.logging, accepts.structlog, body_limit settings bounds) refl),
      )
