-- ===== src/Accounting/Reconcile.antt =====
-- One reconciliation of services/budget.py corrects the counters by the difference that it is given,
-- in the periods that the request was charged to and in no other.
use orbi_inference.Base.{
  ℕ, ◌+◌, ◌≡◌, false, some, List, arith, Option-cases, inl, inr, ◌==◌, sym, ◌∙◌,
}
use orbi_inference.Base.Table.{get-replace-cases, get, modify, key-get}
use orbi_inference.Base.Calendar.{Date}
use orbi_inference.Errors.{ok}
use orbi_inference.Entities.{Project, OrbiRequest, Db}
use orbi_inference.Budget.{reconcile, reconcile_row, find_project}
use orbi_inference.Accounting.{share, AgreesWith}

-- `after` is `before` with the share of `reserved` replaced by that of `actual`.
abbrev pub Replaces :
    (OrbiRequest → Date) → OrbiRequest → ℕ → ℕ → (ℕ → Date → ℕ) → (ℕ → Date → ℕ) → Type 0
Replaces period r reserved actual before after =
    (pid : ℕ) (date : Date)
    → after pid date + share period pid date reserved r
      ≡ before pid date + share period pid date actual r

module _ (r : OrbiRequest) (reserved actual : ℕ) (daily monthly daily' monthly' : ℕ → Date → ℕ)
    (day : Replaces OrbiRequest.budget_day r reserved actual daily daily')
    (month : Replaces OrbiRequest.budget_month r reserved actual monthly monthly') where
  row_day :
      (p : Project)
      → p.daily_tokens_used ≡ daily r.project_id p.daily_usage_date
      → (reconcile_row reserved actual r.budget_day r.budget_month p).daily_tokens_used
        ≡ daily' r.project_id p.daily_usage_date
  unfolding reconcile_row
  row_day p h = ground (arith, day r.project_id p.daily_usage_date)

  row_month :
      (p : Project)
      → p.monthly_tokens_used ≡ monthly r.project_id p.monthly_usage_month
      → (reconcile_row reserved actual r.budget_day r.budget_month p).monthly_tokens_used
        ≡ monthly' r.project_id p.monthly_usage_month
  unfolding reconcile_row
  row_month p h = ground (arith, month r.project_id p.monthly_usage_month)

  elsewhere_day :
      (pid : ℕ) (date : Date) → (r.project_id == pid) ≡ false → daily' pid date ≡ daily pid date
  elsewhere_day pid date h = ground (arith, day pid date)

  elsewhere_month :
      (pid : ℕ) (date : Date) → (r.project_id == pid) ≡ false → monthly' pid date ≡ monthly pid date
  elsewhere_month pid date h = ground (arith, month pid date)

  replace_AgreesWith :
      (projects : List Project) (p : Project)
      → get Project.id r.project_id projects ≡ some p
      → AgreesWith daily monthly projects
      → AgreesWith daily' monthly' (
          modify Project.id r.project_id
            (λ _. reconcile_row reserved actual r.budget_day r.budget_month p)
            projects)
  unfolding reconcile_row
  replace_AgreesWith projects p stored agrees = record {
    day = λ pid q g.
        elim (get-replace-cases Project.id pid r.project_id _ projects stored
          (key-get Project.id r.project_id projects stored) g) [
            | inl (e, same) ↦ rw (same, e) (row_day p (agrees.day r.project_id p stored))
            | inr (other, g') ↦
                agrees.day pid q g' ∙ sym (elsewhere_day pid q.daily_usage_date other)
          ];
    month = λ pid q g.
        elim (get-replace-cases Project.id pid r.project_id _ projects stored
          (key-get Project.id r.project_id projects stored) g) [
            | inl (e, same) ↦ rw (same, e) (row_month p (agrees.month r.project_id p stored))
            | inr (other, g') ↦
                agrees.month pid q g' ∙ sym (elsewhere_month pid q.monthly_usage_month other)
          ];
  }

  -- After a reconciliation the counters agree with the corrected amounts.
  pub reconcile-AgreesWith :
      (db : Db) {db' : Db}
      → AgreesWith daily monthly db.projects
      → reconcile r.project_id reserved actual r.budget_day r.budget_month db ≡ ok db'
      → AgreesWith daily' monthly' db'.projects
  unfolding reconcile
  reconcile-AgreesWith db {db'} agrees h = elim (Option-cases (find_project r.project_id db)) [
    | inl e ↦ absurd (ground arith)
    | inr (p, e) ↦
        let q : db'.projects
            ≡ modify Project.id r.project_id
                (λ _. reconcile_row reserved actual r.budget_day r.budget_month p) db.projects =
          ground arith in
        rw q (replace_AgreesWith db.projects p e agrees)
  ]
