-- ===== src/Logging/Events.antt =====
-- What `redact_secrets` of logging.py promises of a whole event.
use orbi_inference.Base.{◌≡◌, refl, ap, ◌∙◌}
use orbi_inference.Logging.{
  LogValue, text, dict, list, opaque, LogItems, nil, cons, LogFields, end, field, scrub,
  scrub_items, scrub_fields, redact_secrets,
}
use orbi_inference.Logging.Clean.{NoToken, redact-NoToken, redact-of_clean}

-- No text below the value has a token in it: texts in dictionaries and lists count, at any depth;
-- the keys of dictionaries and values of other types do not.
mutual
  pub IsClean : LogValue → Type 0
  IsClean (text s) = NoToken s
  IsClean (dict fields) = AreCleanFields fields
  IsClean (list items) = AreCleanItems items
  IsClean (opaque v) = Unit

  pub AreCleanItems : LogItems → Type 0
  AreCleanItems nil = Unit
  AreCleanItems (cons v items) = IsClean v × AreCleanItems items

  pub AreCleanFields : LogFields → Type 0
  AreCleanFields end = Unit
  AreCleanFields (field key v fields) = IsClean v × AreCleanFields fields

mutual
  unfolding scrub IsClean

  scrub-IsClean : (v : LogValue) → IsClean (scrub v)
  scrub-IsClean (text s) = redact-NoToken s
  scrub-IsClean (dict fields) = scrub_fields-AreClean fields
  scrub-IsClean (list items) = scrub_items-AreClean items
  scrub-IsClean (opaque v) = tt

  scrub_items-AreClean : (items : LogItems) → AreCleanItems (scrub_items items)
  scrub_items-AreClean nil = tt
  scrub_items-AreClean (cons v items) = (scrub-IsClean v, scrub_items-AreClean items)

  scrub_fields-AreClean : (fields : LogFields) → AreCleanFields (scrub_fields fields)
  scrub_fields-AreClean end = tt
  scrub_fields-AreClean (field key v fields) = (scrub-IsClean v, scrub_fields-AreClean fields)

-- What is clean stays as it is.
mutual
  unfolding scrub IsClean

  scrub-of_clean : (v : LogValue) → IsClean v → scrub v ≡ v
  scrub-of_clean (text s) h = ap text (redact-of_clean s h)
  scrub-of_clean (dict fields) h = ap dict (scrub_fields-of_clean fields h)
  scrub-of_clean (list items) h = ap list (scrub_items-of_clean items h)
  scrub-of_clean (opaque v) h = refl

  scrub_items-of_clean : (items : LogItems) → AreCleanItems items → scrub_items items ≡ items
  scrub_items-of_clean nil h = refl
  scrub_items-of_clean (cons v items) h =
      ap (λ x. cons x (scrub_items items)) (scrub-of_clean v h.0)
      ∙ ap (cons v) (scrub_items-of_clean items h.1)

  scrub_fields-of_clean :
      (fields : LogFields) → AreCleanFields fields → scrub_fields fields ≡ fields
  scrub_fields-of_clean end h = refl
  scrub_fields-of_clean (field key v fields) h =
      ap (λ x. field key x (scrub_fields fields)) (scrub-of_clean v h.0)
      ∙ ap (field key v) (scrub_fields-of_clean fields h.1)

-- In the event that is logged no text that is a value of the event, of a dictionary or of a list, at
-- any depth, has a token at any position, keys of dictionaries and values of other types aside; a
-- second pass changes nothing; and an event without tokens in such texts is logged as it is.
pub redact_secrets-AreClean :
    (event : LogFields)
    → AreCleanFields (redact_secrets event)
      × (redact_secrets (redact_secrets event) ≡ redact_secrets event)
      × (AreCleanFields event → redact_secrets event ≡ event)
unfolding redact_secrets
redact_secrets-AreClean event = (
  scrub_fields-AreClean event,
  scrub_fields-of_clean (scrub_fields event) (scrub_fields-AreClean event),
  scrub_fields-of_clean event,
)
