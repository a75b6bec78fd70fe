-- ===== src/Logging.antt =====
-- apps/gateway/src/orbi_gateway/logging.py: the redaction of credentials in log events.
pub mod Token
pub mod Redaction
pub mod Clean
pub mod Events
pub mod Credentials
use orbi_inference.Base.{ℕ, zero, suc, Option, none, some, List, [], ◌∷◌, ◌++◌, length}
use orbi_inference.Base.Text.{Text, codes}
use orbi_inference.Base.Text.Chars.{is_urlsafe}
use orbi_inference.Base.Text.Patterns.{
  Pattern, literal, either, in_turn, one_or_more, optional, match,
}

-- `_TOKEN_PATTERN`
abbrev pub token_pattern : Pattern
token_pattern = in_turn (literal (codes "orbi_")) (
    in_turn
      (either (literal (codes "live")) (
        either (literal (codes "test"))
          (either (literal (codes "node")) (literal (codes "admin")))))
      (in_turn (literal (codes "_v1_")) (
        in_turn (one_or_more is_urlsafe)
          (optional (in_turn (literal (codes "_")) (one_or_more is_urlsafe))))))

abbrev pub replacement : Text
replacement = codes "[REDACTED_ORBI_TOKEN]"

-- What stands behind a token at the start of a text.
abbrev pub match_token : Text → Option Text
match_token s = match token_pattern s (λ rest. some rest)

-- What `sub` does at a character: it replaces the token that starts there, or keeps the character.
abbrev pub at_character : (Text → Text) → ℕ → Text → Option Text → Text
at_character substituted c s (some rest) = replacement ++ substituted rest
at_character substituted c s none = c ∷ substituted s

-- `_TOKEN_PATTERN.sub(…)`, from left to right; a match is not empty, so that the length of the text
-- is fuel enough.
unfoldable pub substitute : ℕ → Text → Text
substitute zero s = s
substitute (suc fuel) [] = []
substitute (suc fuel) (c ∷ s) = at_character (substitute fuel) c s (match_token (c ∷ s))

unfoldable pub redact : Text → Text
redact s = substitute (length s) s

-- The values of a log event; a value of any other type stays as it is.
mutual
  pub data LogValue : Type 0 where
    text : Text → LogValue
    dict : LogFields → LogValue
    list : LogItems → LogValue
    opaque : ℕ → LogValue

  pub data LogItems : Type 0 where
    nil : LogItems
    cons : LogValue → LogItems → LogItems

  pub data LogFields : Type 0 where
    end : LogFields
    field : Text → LogValue → LogFields → LogFields

-- `scrub`
unfoldable mutual
  pub scrub : LogValue → LogValue
  scrub (text s) = text (redact s)
  scrub (dict fields) = dict (scrub_fields fields)
  scrub (list items) = list (scrub_items items)
  scrub (opaque v) = opaque v

  pub scrub_items : LogItems → LogItems
  scrub_items nil = nil
  scrub_items (cons v items) = cons (scrub v) (scrub_items items)

  pub scrub_fields : LogFields → LogFields
  scrub_fields end = end
  scrub_fields (field key v fields) = field key (scrub v) (scrub_fields fields)

-- `redact_secrets`, on the event itself.
unfoldable pub redact_secrets : LogFields → LogFields
redact_secrets event = scrub_fields event
