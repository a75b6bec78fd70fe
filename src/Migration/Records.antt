-- ===== src/Migration/Records.antt =====
-- The tables of requests, usage records and incidents, with their indexes, in
-- apps/gateway/alembic/versions/0001_phase1_foundation.py.
use orbi_inference.Base.{none, some, [], ◌∷◌}
use orbi_inference.Migration.Schema.{
  Table, Index, uuid, string, integer, small_integer, date, timestamp, jsonb, numeric, cascade,
  restrict, set_null, column, not_null, unique, primary_key, with_default, with_expression,
  references,
}

abbrev pub orbi_requests_table : Table
orbi_requests_table = record {
  name = "orbi_requests";
  columns =
      (primary_key (column "id" uuid))
      ∷ (column "idempotency_key" (string 128))
      ∷ (not_null (references "projects" "id" cascade (column "project_id" uuid)))
      ∷ (not_null (references "api_keys" "id" restrict (column "api_key_id" uuid)))
      ∷ (not_null (column "model_alias" (string 64)))
      ∷ (not_null (column "resolved_model" (string 256)))
      ∷ (not_null (column "payload" jsonb))
      ∷ (with_expression "'{}'::jsonb" (not_null (column "required_capabilities" jsonb)))
      ∷ (with_default "5" (not_null (column "priority" small_integer)))
      ∷ (with_default "QUEUED" (not_null (column "status" (string 32))))
      ∷ (references "workers" "id" set_null (column "assigned_to" uuid))
      ∷ (column "lease_expires" timestamp)
      ∷ (with_default "0" (not_null (column "retry_count" integer)))
      ∷ (with_default "3" (not_null (column "max_retries" integer)))
      ∷ (with_expression "now()" (not_null (column "created_at" timestamp)))
      ∷ (not_null (column "expires_at" timestamp))
      ∷ (column "completed_at" timestamp)
      ∷ (column "result" jsonb)
      ∷ (column "error_detail" jsonb)
      ∷ (column "input_tokens" integer)
      ∷ (column "output_tokens" integer)
      ∷ (with_default "0" (not_null (column "reserved_tokens" integer)))
      ∷ (with_expression "CURRENT_DATE" (not_null (column "budget_day" date)))
      ∷ (with_expression "(date_trunc('month', CURRENT_DATE)::date)"
          (not_null (column "budget_month" date)))
      ∷ [];
  checks = ("ck_requests_priority", "priority BETWEEN 1 AND 10") ∷ [];
  uniques = ("uq_requests_key_idempotency", "api_key_id" ∷ "idempotency_key" ∷ []) ∷ [];
}

abbrev pub idx_requests_queue : Index
idx_requests_queue = record {
  name = "idx_requests_queue";
  table = "orbi_requests";
  columns = "priority" ∷ "created_at" ∷ [];
  where_clause = some "status = 'QUEUED'";
}

abbrev pub idx_requests_lease : Index
idx_requests_lease = record {
  name = "idx_requests_lease";
  table = "orbi_requests";
  columns = "lease_expires" ∷ [];
  where_clause = some "status IN ('ASSIGNED','STARTING','RUNNING')";
}

abbrev pub usage_records_table : Table
usage_records_table = record {
  name = "usage_records";
  columns =
      (primary_key (column "id" uuid))
      ∷ (unique (not_null (references "orbi_requests" "id" restrict (column "request_id" uuid))))
      ∷ (not_null (references "projects" "id" restrict (column "project_id" uuid)))
      ∷ (not_null (references "api_keys" "id" restrict (column "api_key_id" uuid)))
      ∷ (references "workers" "id" set_null (column "worker_id" uuid))
      ∷ (column "provider_type" (string 32))
      ∷ (not_null (column "model_id" (string 256)))
      ∷ (not_null (column "input_tokens" integer))
      ∷ (not_null (column "output_tokens" integer))
      ∷ (column "latency_ms" integer)
      ∷ (with_default "0" (not_null (column "cost_usd" (numeric 12 8))))
      ∷ (with_expression "now()" (not_null (column "recorded_at" timestamp)))
      ∷ [];
  checks = [];
  uniques = [];
}

abbrev pub idx_usage_project_day : Index
idx_usage_project_day = record {
  name = "idx_usage_project_day";
  table = "usage_records";
  columns = "project_id" ∷ "recorded_at" ∷ [];
  where_clause = none;
}

abbrev pub incidents_table : Table
incidents_table = record {
  name = "incidents";
  columns =
      (primary_key (column "id" uuid))
      ∷ (not_null (column "type" (string 64)))
      ∷ (not_null (column "severity" (string 16)))
      ∷ (references "workers" "id" set_null (column "worker_id" uuid))
      ∷ (with_expression "'{}'::jsonb" (not_null (column "detail" jsonb)))
      ∷ (column "resolved_at" timestamp)
      ∷ (with_expression "now()" (not_null (column "created_at" timestamp)))
      ∷ [];
  checks = ("ck_incidents_severity", "severity IN ('info','warning','critical')") ∷ [];
  uniques = [];
}
