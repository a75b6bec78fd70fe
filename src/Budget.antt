-- ===== src/Budget.antt =====
-- apps/gateway/src/orbi_gateway/services/budget.py: hard token limits for a day and a month.
pub mod Frame
pub mod Limits
pub mod Settlement
use orbi_inference.Base.{ℕ, ◌+◌, Bool, Option, ltb, if◌then◌else◌}
use orbi_inference.Base.Int.{ℤ, pos, pos_part, sub_ℕ, ◌+ℤ◌}
use orbi_inference.Base.Table.{get, modify}
use orbi_inference.Base.Calendar.{Instant, Date, date_eq, date_of, first_of_month}
use orbi_inference.Errors.{
  Exception, value_error, budget_exceeded, no_result_found, Result, ok, ◌>>=◌, ◌>>◌, raise_if,
  or_raise,
}
use orbi_inference.Entities.{Project, Db}

pub record BudgetSnapshot : Type 0 where
  pub daily_limit : ℕ
  pub daily_used : ℕ
  pub monthly_limit : ℕ
  pub monthly_used : ℕ

abbrev pub daily_exceeded : Exception
daily_exceeded = budget_exceeded "daily token limit would be exceeded"

abbrev pub monthly_exceeded : Exception
monthly_exceeded = budget_exceeded "monthly token limit would be exceeded"

abbrev pub not_positive : Exception
not_positive = value_error "requested_tokens must be positive"

unfoldable pub enforce_budget : BudgetSnapshot → ℕ → Result (Unit {0})
enforce_budget snapshot requested_tokens = do
  raise_if (ltb requested_tokens 1) not_positive
  raise_if (ltb snapshot.daily_limit (snapshot.daily_used + requested_tokens)) daily_exceeded
  raise_if (ltb snapshot.monthly_limit (snapshot.monthly_used + requested_tokens)) monthly_exceeded

-- The two resets of `reserve`: a counter that belongs to another day or month begins at zero.
unfoldable pub roll_periods : Date → Project → Project
roll_periods today project =
    let month : Date = first_of_month today in
    let same_day : Bool = date_eq project.daily_usage_date today in
    let same_month : Bool = date_eq project.monthly_usage_month month in
    record project {
      daily_usage_date = if same_day then project.daily_usage_date else today;
      daily_tokens_used = if same_day then project.daily_tokens_used else 0;
      monthly_usage_month = if same_month then project.monthly_usage_month else month;
      monthly_tokens_used = if same_month then project.monthly_tokens_used else 0;
    }

abbrev pub snapshot : Project → BudgetSnapshot
snapshot project = record {
  daily_limit = project.daily_token_limit;
  daily_used = project.daily_tokens_used;
  monthly_limit = project.monthly_token_limit;
  monthly_used = project.monthly_tokens_used;
}

-- `reserve` on the project's row, which is locked for the rest of the transaction.
unfoldable pub reserve_row : Date → ℕ → Project → Result Project
unfolding roll_periods enforce_budget
reserve_row today requested_tokens project = do
  let rolled = roll_periods today project
  enforce_budget (snapshot rolled) requested_tokens
  ok (record rolled {
    daily_tokens_used = rolled.daily_tokens_used + requested_tokens;
    monthly_tokens_used = rolled.monthly_tokens_used + requested_tokens;
  })

abbrev pub find_project : ℕ → Db → Option Project
find_project project_id db = get Project.id project_id db.projects

-- `BudgetService.reserve`. A raise leaves no database: the caller's transaction is rolled back.
unfoldable pub reserve : ℕ → ℕ → Instant → Db → Result ((Project × Date × Date) × Db)
reserve project_id requested_tokens now db = do
  project ← or_raise (find_project project_id db) no_result_found
  let today = date_of now
  reserved ← reserve_row today requested_tokens project
  ok (
    (reserved, today, first_of_month today),
    record db { projects = modify Project.id project_id (λ _. reserved) db.projects },
  )

-- `max(0, used + delta)`
abbrev pub add_delta : ℕ → ℤ → ℕ
add_delta used delta = pos_part (pos used +ℤ delta)

-- `reconcile` on the project's row.
unfoldable pub reconcile_row : ℕ → ℕ → Date → Date → Project → Project
reconcile_row reserved_tokens actual_tokens budget_day budget_month project =
    let delta : ℤ = sub_ℕ actual_tokens reserved_tokens in
    record project {
      daily_tokens_used =
          if date_eq project.daily_usage_date budget_day
          then add_delta project.daily_tokens_used delta
          else project.daily_tokens_used;
      monthly_tokens_used =
          if date_eq project.monthly_usage_month budget_month
          then add_delta project.monthly_tokens_used delta
          else project.monthly_tokens_used;
    }

-- `BudgetService.reconcile`
unfoldable pub reconcile : ℕ → ℕ → ℕ → Date → Date → Db → Result Db
reconcile project_id reserved_tokens actual_tokens budget_day budget_month db = do
  project ← or_raise (find_project project_id db) no_result_found
  let updated = reconcile_row reserved_tokens actual_tokens budget_day budget_month project
  ok (record db { projects = modify Project.id project_id (λ _. updated) db.projects })

-- `BudgetService.release`
unfoldable pub release : ℕ → ℕ → Date → Date → Db → Result Db
unfolding reconcile
release project_id reserved_tokens budget_day budget_month =
    reconcile project_id reserved_tokens 0 budget_day budget_month
