-- ===== src/Tests/Logs.antt =====
-- The theorems on the redaction of logs, at an event with a token in a nested value.
use orbi_inference.Base.{◌≡◌, refl, [], ◌++◌}
use orbi_inference.Base.Text.{Text, codes}
use orbi_inference.Errors.{ok}
use orbi_inference.ApiKeys.{GeneratedApiKey, generate}
use orbi_inference.WorkerTokens.{generate_enrollment}
use orbi_inference.Tests.Servers.{plain_hasher}
use orbi_inference.Tests.Security.{pepper, public_id, secret, public_id-IsToken, secret-IsToken}
use orbi_inference.Logging.{
  LogFields, text, dict, list, cons, nil, end, field, opaque, redact, substitute, replacement,
  redact_secrets,
}
use orbi_inference.Logging.Events.{AreCleanFields, redact_secrets-AreClean}
use orbi_inference.Logging.Credentials.{redact-generated}

abbrev event : LogFields
event = field (codes "path") (text (codes "/v1")) (
    field (codes "headers")
      (dict (field (codes "auth") (text (codes "Bearer orbi_live_v1_a_b, x")) end))
      (field (codes "rest") (list (cons (opaque 4) nil)) end))

redact_secrets-AreClean_example :
    AreCleanFields (redact_secrets event)
    × (redact_secrets (redact_secrets event) ≡ redact_secrets event)
    × (AreCleanFields event → redact_secrets event ≡ event)
redact_secrets-AreClean_example = redact_secrets-AreClean event

redacted : redact (codes "Bearer orbi_live_v1_a_b, x") ≡ codes "Bearer [REDACTED_ORBI_TOKEN], x"
unfolding redact substitute
redacted = refl

-- A prefix alone is no token.
prefix_alone : redact (codes "orbi_node_v1_ x") ≡ codes "orbi_node_v1_ x"
unfolding redact substitute
prefix_alone = refl

-- Between quotes, with more text behind.
redact-generated_example :
    ((environment : Text) (g : GeneratedApiKey)
      → generate plain_hasher pepper public_id secret [] environment ≡ ok g
      → redact (g.raw_key ++ codes "' used") ≡ replacement ++ redact (codes "' used"))
    × (redact (
          (generate_enrollment plain_hasher pepper public_id secret []).raw_token ++ codes "' used")
        ≡ replacement ++ redact (codes "' used"))
redact-generated_example =
    redact-generated plain_hasher pepper public_id secret [] (codes "' used") public_id-IsToken
      secret-IsToken refl
