-- ===== src/Migration.antt =====
-- apps/gateway/alembic/versions/0001_phase1_foundation.py: the creation of the database's schema, and
-- its removal.
pub mod Schema
pub mod Accounts
pub mod Records
pub mod Reversal
use orbi_inference.Base.{String, List, [], ◌∷◌}
use orbi_inference.Errors.{Result, ok, ◌>>=◌}
use orbi_inference.Migration.Schema.{Table, Index, Operations}
use orbi_inference.Migration.Accounts.{
  projects_table, api_keys_table, model_aliases_table, workers_table,
  worker_enrollment_tokens_table,
}
use orbi_inference.Migration.Records.{
  orbi_requests_table, usage_records_table, incidents_table, idx_requests_queue, idx_requests_lease,
  idx_usage_project_day,
}

-- The statements of a migration.
pub data Statement : Type 0 where
  table : Table → Statement
  index : Index → Statement

-- `upgrade`
abbrev pub upgrade : List Statement
upgrade =
    table projects_table
    ∷ table api_keys_table
    ∷ table model_aliases_table
    ∷ table workers_table
    ∷ table worker_enrollment_tokens_table
    ∷ table orbi_requests_table
    ∷ index idx_requests_queue
    ∷ index idx_requests_lease
    ∷ table usage_records_table
    ∷ index idx_usage_project_day
    ∷ table incidents_table
    ∷ []

-- The tables that `downgrade` drops.
abbrev pub downgrade : List String
downgrade =
    "incidents" ∷ "usage_records" ∷ "orbi_requests" ∷ "worker_enrollment_tokens" ∷ "workers"
    ∷ "model_aliases" ∷ "api_keys" ∷ "projects" ∷ []

module _ {S : Type 0} (op : Operations S) where
  abbrev pub execute : Statement → S → Result S
  execute (table t) = op.create_table t
  execute (index i) = op.create_index i

  unfoldable pub run_upgrade : List Statement → S → Result S
  run_upgrade [] s = ok s
  run_upgrade (statement ∷ statements) s = execute statement s >>= run_upgrade statements

  unfoldable pub run_downgrade : List String → S → Result S
  run_downgrade [] s = ok s
  run_downgrade (name ∷ names) s = op.drop_table name s >>= run_downgrade names
