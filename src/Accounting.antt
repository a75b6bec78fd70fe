-- ===== src/Accounting.antt =====
-- The account that the counters of a project keep: what services/budget.py and services/queue.py
-- of apps/gateway/src/orbi_gateway promise together. A request is charged with its reservation while
-- it is open, with its actual tokens once it is completed, and with nothing if it ends otherwise.
pub mod Reconcile
pub mod Reports
pub mod Failures
pub mod Recovery
pub mod Periods
pub mod Dated
use orbi_inference.Base.{
  ℕ, ◌+◌, Bool, ◌&&◌, ◌≡◌, Option, none, some, List, ◌==◌, if◌then◌else◌, sum_by,
}
use orbi_inference.Base.Table.{get}
use orbi_inference.Base.Calendar.{Date, date_eq}
use orbi_inference.Entities.{Project, OrbiRequest, Db}
use orbi_inference.Entities.Status.{RequestStatus}

abbrev pub or_zero : Option ℕ → ℕ
or_zero none = 0
or_zero (some n) = n

abbrev pub charge_of : RequestStatus → ℕ → Option ℕ → Option ℕ → ℕ
charge_of RequestStatus.completed reserved input output = or_zero input + or_zero output
charge_of RequestStatus.failed_final reserved input output = 0
charge_of RequestStatus.cancelled reserved input output = 0
charge_of RequestStatus.expired reserved input output = 0
charge_of _ reserved input output = reserved

abbrev pub charge : OrbiRequest → ℕ
charge r = charge_of r.status r.reserved_tokens r.input_tokens r.output_tokens

-- An amount counts for a project in a period if the request belongs to both.
abbrev pub share : (OrbiRequest → Date) → ℕ → Date → ℕ → OrbiRequest → ℕ
share period project_id date amount r =
    if r.project_id == project_id && date_eq date (period r) then amount else 0

-- All charges of a project in a period.
abbrev pub spent : (OrbiRequest → Date) → List OrbiRequest → ℕ → Date → ℕ
spent period requests project_id date =
    sum_by (λ r. share period project_id date (charge r) r) requests

-- The counters of every project are the given amounts of its current day and month.
pub record AgreesWith (daily monthly : ℕ → Date → ℕ) (projects : List Project) : Type 0 where
  pub day :
      (pid : ℕ) (p : Project)
      → get Project.id pid projects ≡ some p
      → p.daily_tokens_used ≡ daily pid p.daily_usage_date
  pub month :
      (pid : ℕ) (p : Project)
      → get Project.id pid projects ≡ some p
      → p.monthly_tokens_used ≡ monthly pid p.monthly_usage_month

-- The counters of every project are exactly the charges of its requests.
abbrev pub IsBalanced : Db → Type 0
IsBalanced db =
    AgreesWith (spent OrbiRequest.budget_day db.requests)
      (spent OrbiRequest.budget_month db.requests) db.projects
