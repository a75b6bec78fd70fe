-- ===== src/ApiKeys/Formats.antt =====
-- The format of API keys in services/api_keys.py: what `generate` writes is what `parse` reads, and
-- nothing else is read.
use orbi_inference.Base.{
  ℕ, true, Option, none, some, [], ◌∷◌, ◌++◌, ◌≡◌, ◌↔◌, subst, refl, sym, ap, ◌∙◌, length, take,
  drop, take-append, drop-append, append-take-drop, arith, Bool-cases, inl, inr, ◌⊎◌, none-ne_some,
}
use orbi_inference.Base.Text.{Text, codes}
use orbi_inference.Base.Text.Chars.{
  is_urlsafe, all_of, text_eq, text_eq→eq, strip_prefix, strip_prefix-append, strip_prefix→append,
}
use orbi_inference.Errors.{ok, ok-eq, ok-ne_err}
use orbi_inference.ApiKeys.{
  PasswordHasher, GeneratedApiKey, peppered, key_prefix, is_environment, generate, parse_after,
  parse_rest, parse_as, or_else, parse, verify_secret,
}

-- What `secrets.token_urlsafe` promises of its result, for the number of characters that the number
-- of random bytes leads to.
pub record IsToken (n : ℕ) (s : Text) : Type 0 where
  pub size : length s ≡ n
  pub urlsafe : all_of is_urlsafe s ≡ true

abbrev pub key_of : Text → Text → Text → Text
key_of environment key_id secret = key_prefix environment ++ (key_id ++ b'_' ∷ secret)

parse_after-token :
    (environment key_id secret : Text)
    → IsToken 12 key_id
    → IsToken 43 secret
    → parse_after environment key_id (b'_' ∷ secret) ≡ some (environment, key_id, secret)
parse_after-token environment key_id secret k s =
    ground (arith, k.size, k.urlsafe, s.size, s.urlsafe)

parse_as-key_of :
    (environment key_id secret : Text)
    → IsToken 12 key_id
    → IsToken 43 secret
    → parse_as environment (key_of environment key_id secret) ≡ some (environment, key_id, secret)
parse_as-key_of environment key_id secret k s =
    let rest : Text = key_id ++ b'_' ∷ secret in
    let parts : parse_rest environment (some rest)
        ≡ parse_after environment key_id (b'_' ∷ secret) =
      rw
        (take-append 12 key_id (b'_' ∷ secret) k.size, drop-append 12 key_id (b'_' ∷ secret) k.size)
        refl in
    ap (parse_rest environment) (strip_prefix-append (key_prefix environment) rest)
    ∙ parts
    ∙ parse_after-token environment key_id secret k s

parse-key_of :
    (environment key_id secret : Text)
    → is_environment environment ≡ true
    → IsToken 12 key_id
    → IsToken 43 secret
    → parse (key_of environment key_id secret) ≡ some (environment, key_id, secret)
unfolding parse
parse-key_of environment key_id secret e k s =
    elim (Bool-cases (text_eq environment (codes "live"))) [
      | inl t ↦
          rw
            (
              text_eq→eq environment (codes "live") t,
              parse_as-key_of (codes "live") key_id secret k s,
            )
            refl
      | inr f ↦
          rw
            (
              text_eq→eq environment (codes "test") (rw f at e),
              parse_as-key_of (codes "test") key_id secret k s,
            )
            refl
    ]

-- What a key that is read looks like.
abbrev pub IsKeyOf : Text → Text × Text × Text → Type 0
IsKeyOf raw_key (environment, key_id, secret) =
    (is_environment environment ≡ true)
    × IsToken 12 key_id
    × IsToken 43 secret
    × (raw_key ≡ key_of environment key_id secret)

parse_after-parts :
    (environment key_id : Text) (c : ℕ) (secret : Text) {parts : Text × Text × Text}
    → parse_after environment key_id (c ∷ secret) ≡ some parts
    → (parts ≡ (environment, key_id, secret)) × IsToken 12 key_id × IsToken 43 secret × (c ≡ b'_')
parse_after-parts environment key_id c secret {parts} h = (
  ground arith,
  record { size = ground arith; urlsafe = ground arith },
  record { size = ground arith; urlsafe = ground arith },
  ground arith,
)

parse_after-IsKeyOf :
    (environment key_id rest : Text) {parts : Text × Text × Text}
    → is_environment environment ≡ true
    → parse_after environment key_id rest ≡ some parts
    → IsKeyOf (key_prefix environment ++ (key_id ++ rest)) parts
parse_after-IsKeyOf environment key_id [] e h = absurd (none-ne_some h)
parse_after-IsKeyOf environment key_id (c ∷ secret) e h =
    let (same, k, s, underscore) = parse_after-parts environment key_id c secret h in
    subst (IsKeyOf (key_prefix environment ++ (key_id ++ c ∷ secret))) (sym same)
      (e, k, s, ap (λ x. key_prefix environment ++ (key_id ++ x ∷ secret)) underscore)

parse_rest-IsKeyOf :
    (environment raw_key : Text) (rest : Option Text) {parts : Text × Text × Text}
    → is_environment environment ≡ true
    → ((r : Text) → rest ≡ some r → raw_key ≡ key_prefix environment ++ r)
    → parse_rest environment rest ≡ some parts
    → IsKeyOf raw_key parts
parse_rest-IsKeyOf environment raw_key none e split h = absurd (none-ne_some h)
parse_rest-IsKeyOf environment raw_key (some rest) {parts} e split h =
    let whole : key_prefix environment ++ (take 12 rest ++ drop 12 rest) ≡ raw_key =
      ap (λ x. key_prefix environment ++ x) (append-take-drop 12 rest) ∙ sym (split rest refl) in
    subst (λ x. IsKeyOf x parts) whole
      (parse_after-IsKeyOf environment (take 12 rest) (drop 12 rest) e h)

parse_as-IsKeyOf :
    (environment raw_key : Text) {parts : Text × Text × Text}
    → is_environment environment ≡ true
    → parse_as environment raw_key ≡ some parts
    → IsKeyOf raw_key parts
parse_as-IsKeyOf environment raw_key e h =
    parse_rest-IsKeyOf environment raw_key (strip_prefix (key_prefix environment) raw_key) e
      (λ r q. strip_prefix→append (key_prefix environment) raw_key q) h

or_else-some :
    {A : Type 0} (x y : Option A) {a : A} → or_else x y ≡ some a → (x ≡ some a) ⊎ (y ≡ some a)
or_else-some none y h = inr h
or_else-some (some x) y h = inl h

parse-IsKeyOf :
    (raw_key : Text) {parts : Text × Text × Text}
    → parse raw_key ≡ some parts
    → IsKeyOf raw_key parts
unfolding parse
parse-IsKeyOf raw_key h =
    elim (or_else-some (parse_as (codes "live") raw_key) (parse_as (codes "test") raw_key) h) [
      | inl q ↦ parse_as-IsKeyOf (codes "live") raw_key refl q
      | inr q ↦ parse_as-IsKeyOf (codes "test") raw_key refl q
    ]

-- A text is read as an API key exactly if it is the prefix of the environment live or test, a key id
-- of 12 URL-safe characters, an underscore, and a secret of 43; these three parts are what is read.
pub parse_exact :
    (raw_key environment key_id secret : Text)
    → (parse raw_key ≡ some (environment, key_id, secret))
      ↔ IsKeyOf raw_key (environment, key_id, secret)
parse_exact raw_key environment key_id secret = (
  parse-IsKeyOf raw_key,
  λ (e, k, s, same). ap parse same ∙ parse-key_of environment key_id secret e k s,
)

generated :
    (hasher : PasswordHasher) (pepper key_id secret salt environment : Text) {g : GeneratedApiKey}
    → generate hasher pepper key_id secret salt environment ≡ ok g
    → (is_environment environment ≡ true)
      × (g.raw_key ≡ key_of environment key_id secret)
      × (g.key_id ≡ key_id)
      × (g.environment ≡ environment)
      × (g.secret_hash ≡ hasher.hash salt (peppered pepper secret))
unfolding generate
generated hasher pepper key_id secret salt environment {g} h =
    elim (Bool-cases (is_environment environment)) [
      | inl t ↦
          let e = sym (ok-eq (rw t at h)) in
          (
            t,
            ap GeneratedApiKey.raw_key e,
            ap GeneratedApiKey.key_id e,
            ap GeneratedApiKey.environment e,
            ap GeneratedApiKey.secret_hash e,
          )
      | inr f ↦ absurd (ok-ne_err (sym (rw f at h)))
    ]

-- A generated key is read back as the parts that are stored with it, and its secret verifies against
-- the stored hash, if the random parts have the lengths and the characters of `token_urlsafe`.
pub generate-parse :
    (hasher : PasswordHasher) (pepper key_id secret salt environment : Text) {g : GeneratedApiKey}
    → generate hasher pepper key_id secret salt environment ≡ ok g
    → IsToken 12 key_id
    → IsToken 43 secret
    → (parse g.raw_key ≡ some (g.environment, g.key_id, secret))
      × (verify_secret hasher pepper secret g.secret_hash ≡ true)
generate-parse hasher pepper key_id secret salt environment h k s =
    let (e, raw, id, env, stored) = generated hasher pepper key_id secret salt environment h in
    (
      rw (raw, id, env) (parse-key_of environment key_id secret e k s),
      rw stored (hasher.verify-hash salt (peppered pepper secret)),
    )
