-- ===== src/Migration/Accounts.antt =====
-- The tables of projects, keys, aliases and workers in
-- apps/gateway/alembic/versions/0001_phase1_foundation.py.
use orbi_inference.Base.{[], ◌∷◌}
use orbi_inference.Migration.Schema.{
  Table, uuid, string, text_type, big_integer, integer, boolean, date, timestamp, float, jsonb,
  text_array, cascade, no_action, column, not_null, unique, primary_key, with_default,
  with_expression, references,
}

abbrev pub projects_table : Table
projects_table = record {
  name = "projects";
  columns =
      (primary_key (column "id" uuid))
      ∷ (not_null (column "name" (string 128)))
      ∷ (unique (not_null (column "slug" (string 64))))
      ∷ (not_null (column "owner_id" uuid))
      ∷ (with_default "1000000" (not_null (column "monthly_token_limit" big_integer)))
      ∷ (with_default "0" (not_null (column "monthly_tokens_used" big_integer)))
      ∷ (with_default "100000" (not_null (column "daily_token_limit" big_integer)))
      ∷ (with_default "0" (not_null (column "daily_tokens_used" big_integer)))
      ∷ (with_expression "CURRENT_DATE" (not_null (column "daily_usage_date" date)))
      ∷ (with_expression "(date_trunc('month', CURRENT_DATE)::date)"
          (not_null (column "monthly_usage_month" date)))
      ∷ (with_expression "true" (not_null (column "is_active" boolean)))
      ∷ (with_expression "now()" (not_null (column "created_at" timestamp)))
      ∷ [];
  checks = [];
  uniques = [];
}

abbrev pub api_keys_table : Table
api_keys_table = record {
  name = "api_keys";
  columns =
      (primary_key (column "id" uuid))
      ∷ (not_null (references "projects" "id" cascade (column "project_id" uuid)))
      ∷ (unique (not_null (column "key_id" (string 32))))
      ∷ (not_null (column "display_prefix" (string 64)))
      ∷ (not_null (column "secret_hash" text_type))
      ∷ (not_null (column "environment" (string 8)))
      ∷ (column "name" (string 128))
      ∷ (with_default "{chat,models:read,usage:read}" (not_null (column "scopes" text_array)))
      ∷ (column "expires_at" timestamp)
      ∷ (column "revoked_at" timestamp)
      ∷ (column "last_used_at" timestamp)
      ∷ (with_default "0" (not_null (column "total_requests" big_integer)))
      ∷ (with_default "0" (not_null (column "total_tokens" big_integer)))
      ∷ (with_default "60" (not_null (column "rpm_limit" integer)))
      ∷ (with_default "1000" (not_null (column "daily_req_limit" integer)))
      ∷ (with_default "0" (not_null (column "daily_requests_used" integer)))
      ∷ (with_expression "CURRENT_DATE" (not_null (column "daily_requests_date" date)))
      ∷ (with_expression "now()" (not_null (column "created_at" timestamp)))
      ∷ [];
  checks = ("ck_api_keys_environment", "environment IN ('live', 'test')") ∷ [];
  uniques = [];
}

abbrev pub model_aliases_table : Table
model_aliases_table = record {
  name = "model_aliases";
  columns =
      (primary_key (column "alias" (string 64)))
      ∷ (column "display_name" (string 128))
      ∷ (not_null (column "model_id" (string 256)))
      ∷ (references "model_aliases" "alias" no_action (column "fallback_alias" (string 64)))
      ∷ (with_expression "true" (not_null (column "is_active" boolean)))
      ∷ (column "min_vram_gb" float)
      ∷ (with_expression "'{}'::jsonb" (not_null (column "required_capabilities" jsonb)))
      ∷ (with_expression "true" (not_null (column "supports_streaming" boolean)))
      ∷ (with_expression "false" (not_null (column "supports_tools" boolean)))
      ∷ (with_default "4096" (not_null (column "max_context_tokens" integer)))
      ∷ [];
  checks = [];
  uniques = [];
}

abbrev pub workers_table : Table
workers_table = record {
  name = "workers";
  columns =
      (primary_key (column "id" uuid))
      ∷ (not_null (column "provider_type" (string 32)))
      ∷ (not_null (column "name" (string 128)))
      ∷ (with_default "OFFLINE" (not_null (column "status" (string 32))))
      ∷ (with_default "{}" (not_null (column "supported_models" text_array)))
      ∷ (with_expression "'{}'::jsonb" (not_null (column "capabilities" jsonb)))
      ∷ (with_default "0" (not_null (column "current_queue_depth" integer)))
      ∷ (with_default "0" (not_null (column "failure_count_1h" integer)))
      ∷ (column "p95_latency_ms" float)
      ∷ (column "token_jti" (string 128))
      ∷ (with_expression "now()" (not_null (column "registered_at" timestamp)))
      ∷ (column "last_heartbeat" timestamp)
      ∷ (column "revoked_at" timestamp)
      ∷ [];
  checks = [];
  uniques = [];
}

abbrev pub worker_enrollment_tokens_table : Table
worker_enrollment_tokens_table = record {
  name = "worker_enrollment_tokens";
  columns =
      (primary_key (column "id" uuid))
      ∷ (unique (not_null (column "token_id" (string 32))))
      ∷ (not_null (column "secret_hash" text_type))
      ∷ (not_null (column "expires_at" timestamp))
      ∷ (column "consumed_at" timestamp)
      ∷ (with_expression "now()" (not_null (column "created_at" timestamp)))
      ∷ [];
  checks = [];
  uniques = [];
}
