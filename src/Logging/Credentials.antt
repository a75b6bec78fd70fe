-- ===== src/Logging/Credentials.antt =====
-- That `redact_secrets` of logging.py finds the credentials which services/api_keys.py and
-- services/worker_tokens.py generate.
use mathlib.Core.List.{append_assoc}
use orbi_inference.Base.{
  Bool-cases, inl, inr, length-append, ◌≡◌, refl, sym, ap, ◌∙◌, subst, true, not, some, [], ◌∷◌,
  ◌++◌, arith, length,
}
use orbi_inference.Base.Text.{Text, codes}
use orbi_inference.Base.Text.Chars.{is_urlsafe, all_of, text_eq, text_eq→eq}
use orbi_inference.Errors.{ok, ok-eq, >>=-eq-ok, raise_if, raise_if-eq-ok}
use orbi_inference.ApiKeys.{PasswordHasher, GeneratedApiKey, generate, is_environment}
use orbi_inference.ApiKeys.Formats.{IsToken}
use orbi_inference.WorkerTokens.{generate_enrollment}
use orbi_inference.Logging.{replacement, redact}
use orbi_inference.Logging.Token.{
  after_run, after_secret, stops, token_prefix, find_any, match_token-any,
}
use orbi_inference.Logging.Redaction.{Kind, live, test, node, admin, redact-token}

after_run-append :
    (b t : Text) → all_of is_urlsafe b ≡ true → stops t ≡ true → after_run (b ++ t) ≡ t
after_run-append [] [] h k = refl
after_run-append [] (c ∷ t) h k = ground arith
after_run-append (c ∷ b) t h k = ground (arith, after_run-append b t)

after_secret-append :
    (b t : Text)
    → (length b ≡ 0 → ⊥)
    → all_of is_urlsafe b ≡ true
    → stops t ≡ true
    → after_secret (some (b ++ t)) ≡ some t
after_secret-append [] t n h k = absurd (n refl)
after_secret-append (c ∷ b) t n h k = ground (arith, after_run-append b t)

find_any-of_kind :
    {kind : Text} (u : Text) {r : Text}
    → Kind kind
    → after_secret (some u) ≡ some r
    → find_any (token_prefix kind ++ u) ≡ some r
find_any-of_kind u live h = rw h refl
find_any-of_kind u test h = rw h refl
find_any-of_kind u node h = rw h refl
find_any-of_kind u admin h = rw h refl

-- A token of one of the kinds is replaced as a whole.
pub redact-of_kind :
    {kind : Text} (u t : Text)
    → Kind kind
    → after_secret (some u) ≡ some t
    → redact (token_prefix kind ++ u) ≡ replacement ++ redact t
redact-of_kind {kind} u t k h =
    redact-token b'o' _ (match_token-any (token_prefix kind ++ u) ∙ find_any-of_kind u k h)

all_of-append :
    (a b : Text)
    → all_of is_urlsafe a ≡ true
    → all_of is_urlsafe b ≡ true
    → all_of is_urlsafe (a ++ b) ≡ true
all_of-append [] b h k = k
all_of-append (c ∷ a) b h k = ground (arith, all_of-append a b)

environment-Kind : (environment : Text) → is_environment environment ≡ true → Kind environment
environment-Kind environment h = elim (Bool-cases (text_eq environment (codes "live"))) [
  | inl e ↦ subst Kind (sym (text_eq→eq environment (codes "live") e)) live
  | inr e ↦ subst Kind (sym (text_eq→eq environment (codes "test") (rw e at h))) test
]

module _ (hasher : PasswordHasher) (pepper id secret salt t : Text) (id_random : IsToken 12 id)
    (secret_random : IsToken 43 secret) (behind : stops t ≡ true) where
  id_and_secret : after_secret (some ((id ++ (codes "_" ++ secret)) ++ t)) ≡ some t
  id_and_secret =
      after_secret-append (id ++ (codes "_" ++ secret)) t
        (λ e. omega (arith, length-append id (codes "_" ++ secret), id_random.size, e))
        (all_of-append id (codes "_" ++ secret) id_random.urlsafe
          (all_of-append (codes "_") secret refl secret_random.urlsafe))
        behind

  -- An API key or an enrollment token that the gateway has generated is replaced as a whole where it
  -- starts a text and no URL-safe character follows it; the redaction goes on behind it.
  pub redact-generated :
      ((environment : Text) (g : GeneratedApiKey)
        → generate hasher pepper id secret salt environment ≡ ok g
        → redact (g.raw_key ++ t) ≡ replacement ++ redact t)
      × (redact ((generate_enrollment hasher pepper id secret salt).raw_token ++ t)
          ≡ replacement ++ redact t)
  unfolding generate generate_enrollment
  redact-generated = (
    λ environment g h.
        let (_, allowed, made) = >>=-eq-ok (raise_if (not (is_environment environment)) _) _ h in
        let key : g.raw_key ≡ token_prefix environment ++ (id ++ (codes "_" ++ secret)) =
          ap GeneratedApiKey.raw_key (sym (ok-eq made)) in
        let kind : Kind environment =
          environment-Kind environment (ground (arith, raise_if-eq-ok _ _ allowed)) in
        ap (λ k. redact (k ++ t)) key
        ∙ ap redact (append_assoc (token_prefix environment) (id ++ (codes "_" ++ secret)) t)
        ∙ redact-of_kind ((id ++ (codes "_" ++ secret)) ++ t) t kind id_and_secret,
    redact-of_kind ((id ++ (codes "_" ++ secret)) ++ t) t node id_and_secret,
  )
