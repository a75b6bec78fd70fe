-- ===== src/Tests/Budgets.antt =====
-- The theorems on budgets and idempotency keys, at the sample project.
use orbi_inference.Base.{◌+◌, ◌≤◌, ◌≡◌, ◌↔◌, refl, some, arith}
use orbi_inference.Base.Calendar.{Date, date_of}
use orbi_inference.Base.Table.{get, modify}
use orbi_inference.Errors.{ok}
use orbi_inference.Entities.{Project, Db}
use orbi_inference.Idempotency.{IsKey, validate_idempotency_key, validate_idempotency_key_exact}
use orbi_inference.Budget.{
  BudgetSnapshot, enforce_budget, roll_periods, reserve_row, reserve, release, find_project,
  reconcile_row,
}
use orbi_inference.Budget.Limits.{
  IsWithin, Reserved, add_tokens, enforce_budget_exact, reserve_row-Reserved, reserve_row-succeeds,
}
use orbi_inference.Budget.Settlement.{reconcile_row-IsWithin, release-reserve}
use orbi_inference.Tests.{noon, leap_day, february, project, empty_db, call_key}

abbrev nearly_full : BudgetSnapshot
nearly_full = record { daily_used = 90; daily_limit = 100; monthly_used = 90; monthly_limit = 1000 }

-- Ten more tokens fit, eleven do not.
eleven_do_not : enforce_budget nearly_full 10 ≡ ok tt
unfolding enforce_budget
eleven_do_not = refl

enforce_budget_exact_example :
    (enforce_budget nearly_full 10 ≡ ok tt) ↔ ((1 ≤ 10) × (90 + 10 ≤ 100) × (90 + 10 ≤ 1000))
enforce_budget_exact_example = enforce_budget_exact nearly_full 10

-- The day after, the sample project starts from nothing.
abbrev next_day : Date
next_day = record { year = 2024; month = 3; day = 1 }

abbrev charged : Project
charged = add_tokens 18 (roll_periods next_day project)

reserve_row-Reserved_example : Reserved next_day 18 project charged
unfolding reserve_row enforce_budget roll_periods
reserve_row-Reserved_example = reserve_row-Reserved next_day 18 project refl

reserve_row-succeeds_example : reserve_row next_day 18 project ≡ ok charged
reserve_row-succeeds_example =
    reserve_row-succeeds next_day 18 project (omega arith) (omega arith) (omega arith)

abbrev busy : Project
busy = record project { daily_tokens_used = 30; monthly_tokens_used = 30 }

reconcile_row-IsWithin_example : IsWithin (reconcile_row 18 11 leap_day february busy)
reconcile_row-IsWithin_example =
    reconcile_row-IsWithin 18 11 leap_day february busy (omega arith)
      (record { daily = omega arith; monthly = omega arith })

abbrev reserved_db : Db
reserved_db = record empty_db {
  projects =
      modify Project.id 1 (λ _. add_tokens 18 (roll_periods leap_day project)) empty_db.projects;
}

release-reserve_example :
    (p : Project) × (find_project 1 empty_db ≡ some p)
    × (db'' : Db) × (release 1 18 leap_day february reserved_db ≡ ok db'')
    × (find_project 1 db'' ≡ some (roll_periods (date_of noon) p))
unfolding reserve reserve_row enforce_budget roll_periods get modify date_of
release-reserve_example =
    release-reserve 1 18 noon empty_db {q = add_tokens 18 (roll_periods leap_day project)} refl

validate_idempotency_key_exact_example :
    (validate_idempotency_key (some call_key) ≡ ok (some call_key))
    ↔ ((some call_key ≡ some call_key) × IsKey call_key)
validate_idempotency_key_exact_example = validate_idempotency_key_exact (some call_key) call_key
