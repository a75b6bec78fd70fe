-- ===== src/Schemas.antt =====
-- apps/gateway/src/orbi_gateway/schemas/api.py: what a request's body has to meet before a handler
-- gets it. The bounds are those of the fields; pydantic checks them and FastAPI answers with 422.
pub mod Slugs
pub mod Bounds
use orbi_inference.Base.{
  not, ℕ, String, Bool, true, false, ◌&&◌, ◌||◌, Option, none, some, List, [], ◌∷◌, leb, ltb, ◌==◌,
  length, is_in, if◌then◌else◌,
}
use orbi_inference.Base.Text.{Text, codes}
use orbi_inference.Base.Text.Chars.{text_eq, all_of}
use orbi_inference.Errors.{Result, raise_if, validation_failed}
use orbi_inference.Entities.Status.{WorkerStatus}
use orbi_inference.Chat.{ChatMessage, ChatCompletionRequest}
use orbi_inference.WorkerRoutes.{WorkerRegisterRequest, WorkerHeartbeatRequest}
use orbi_inference.Entities.{ErrorDetail}
use orbi_inference.Admin.{ApiKeyCreateRequest, ProjectCreateRequest, ModelAliasCreateRequest}

-- `Field(ge=low, le=high)`, and on lengths `Field(min_length=low, max_length=high)`.
abbrev pub within : ℕ → ℕ → ℕ → Bool
within low high n = leb low n && leb n high

abbrev pub text_within : ℕ → ℕ → String → Bool
text_within low high s = within low high (length (codes s))

-- `str | None` with a maximal length.
abbrev pub name_within : ℕ → Option String → Bool
name_within high none = true
name_within high (some s) = text_within 0 high s

abbrev pub all_meet : {A : Type 0} → (A → Bool) → List A → Bool
all_meet test [] = true
all_meet test (x ∷ xs) = test x && all_meet test xs

-- `[a-z0-9]`
abbrev pub is_slug_char : ℕ → Bool
is_slug_char c = (leb b'a' c && leb c b'z') || (leb b'0' c && leb c b'9')

-- `^[a-z0-9]+(?:-[a-z0-9]+)*$`, from a place behind a character or behind a dash.
abbrev pub is_slug_from : Bool → Text → Bool
is_slug_from after_char [] = after_char
is_slug_from after_char (c ∷ s) =
    (is_slug_char c && is_slug_from true s) || (c == b'-' && after_char && is_slug_from false s)

abbrev pub is_slug : Text → Bool
is_slug s = is_slug_from false s

-- `^[a-z0-9_]+$`
abbrev pub is_error_code : Text → Bool
is_error_code s = all_of (λ c. is_slug_char c || c == b'_') s

abbrev pub is_valid_message : ChatMessage → Bool
is_valid_message m = within 1 100_000 (length m.content)

-- The range of `temperature`, with which nothing computes, is left to pydantic.
abbrev pub is_valid_chat : ChatCompletionRequest → Bool
is_valid_chat payload =
    text_within 1 64 payload.model
    && within 1 256 (length payload.messages)
    && all_meet is_valid_message payload.messages
    && within 1 4096 payload.max_tokens

abbrev pub is_valid_api_key : ApiKeyCreateRequest → Bool
is_valid_api_key payload =
    (text_eq payload.environment (codes "live") || text_eq payload.environment (codes "test"))
    && name_within 128 payload.name
    && leb (length payload.scopes) 32
    && within 1 100_000 payload.rpm_limit
    && within 1 10_000_000 payload.daily_req_limit

abbrev pub is_valid_enrollment : ℕ → Bool
is_valid_enrollment expires_in_seconds = within 60 86_400 expires_in_seconds

abbrev pub is_valid_registration : WorkerRegisterRequest → Bool
is_valid_registration payload =
    within 32 512 (length payload.enrollment_token)
    && is_in payload.provider_type ("colab" ∷ "kaggle" ∷ "local" ∷ "docker" ∷ "dedicated" ∷ [])
    && text_within 1 128 payload.name
    && leb (length payload.supported_models) 128

abbrev pub is_reportable : WorkerStatus → Bool
is_reportable WorkerStatus.online = true
is_reportable WorkerStatus.draining = true
is_reportable _ = false

abbrev pub is_valid_heartbeat : WorkerHeartbeatRequest → Bool
is_valid_heartbeat payload =
    is_reportable payload.status && within 0 100_000 payload.current_queue_depth

abbrev message_length : Option String → ℕ
message_length none = 0
message_length (some s) = length (codes s)

abbrev pub is_valid_error : ErrorDetail → Bool
is_valid_error detail =
    text_within 1 64 detail.code
    && is_error_code (codes detail.code)
    && within 1 512 (message_length detail.message)

abbrev pub is_valid_project : ProjectCreateRequest → Bool
is_valid_project payload =
    text_within 1 128 payload.name
    && text_within 3 64 payload.slug
    && is_slug (codes payload.slug)
    && leb 1 payload.daily_token_limit
    && leb 1 payload.monthly_token_limit

abbrev pub is_valid_alias : ModelAliasCreateRequest → Bool
is_valid_alias payload =
    text_within 1 64 payload.alias
    && is_slug (codes payload.alias)
    && name_within 128 payload.display_name
    && text_within 1 256 payload.model_id
    && within 128 2_000_000 payload.max_context_tokens

-- FastAPI's check of a body before the handler runs.
abbrev pub validated : Bool → Result (Unit {0})
validated valid = raise_if (not valid) validation_failed
