-- ===== src/Accounting/Dated.antt =====
-- No request is charged to a period after its project's current one, while the clock of the gateway
-- does not run back over midnight: so a counter that `reserve` of services/budget.py resets has
-- nothing to count.
use orbi_inference.Base.{
  ℕ, ◌≡◌, refl, sym, ◌∙◌, false, some, List, [], ◌∷◌, ◌++◌, Bool-cases, inl, inr, All, ◌==◌, ==_iff,
}
use orbi_inference.Base.Table.{get}
use orbi_inference.Base.Table.Related.{Related-All, Related-get_before}
use orbi_inference.Base.Table.Sums.{sum_by-zero}
use orbi_inference.Base.Calendar.{Date, Upto, Upto-ne, date_eq}
use orbi_inference.Entities.{Project, OrbiRequest, Db}
use orbi_inference.Queue.Rows.{RowsRelated}
use orbi_inference.Queue.Lifecycle.{SameOrder}
use orbi_inference.Accounting.{spent}
use orbi_inference.Accounting.Periods.{SamePeriods, KeepsPeriods}

abbrev pub Precedes : ℕ → Date → Date → OrbiRequest → Type 0
Precedes pid day month r = r.project_id ≡ pid → Upto r.budget_day day × Upto r.budget_month month

pub record IsDated (db : Db) : Type 0 where
  pub at :
      (pid : ℕ) (p : Project)
      → get Project.id pid db.projects ≡ some p
      → All (Precedes pid p.daily_usage_date p.monthly_usage_month) db.requests

Precedes-SameOrder :
    (pid : ℕ) (day month : Date) (a b : OrbiRequest)
    → SameOrder a b
    → Precedes pid day month a
    → Precedes pid day month b
Precedes-SameOrder pid day month a b same h e =
    let old = h (sym same.project_id ∙ e) in rw (same.budget_day, same.budget_month) old

-- Changes that keep the orders and the periods keep the dates.
pub IsDated-keeps :
    (a b : Db) → RowsRelated SameOrder a b → KeepsPeriods a b → IsDated a → IsDated b
IsDated-keeps a b rows periods dated = record {
  at = λ pid q g.
      let (p, found, same) =
        Related-get_before Project.id SamePeriods pid a.projects b.projects q (λ x y r. r.id)
          periods g in
      rw (same.day, same.month)
        (Related-All OrbiRequest.id SameOrder
          (Precedes pid p.daily_usage_date p.monthly_usage_month) a.requests b.requests
          (Precedes-SameOrder pid p.daily_usage_date p.monthly_usage_month) rows
          (dated.at pid p found));
}

pub All-mono :
    {A : Type 0} (P Q : A → Type 0) (t : List A) → ((a : A) → P a → Q a) → All P t → All Q t
All-mono P Q [] h p = tt
All-mono P Q (x ∷ xs) h p = (h x p.0, All-mono P Q xs h p.1)

pub All-snoc :
    {A : Type 0} (P : A → Type 0) (t : List A) (a : A) → All P t → P a → All P (t ++ a ∷ [])
All-snoc P [] a h p = (p, tt)
All-snoc P (x ∷ xs) a h p = (h.0, All-snoc P xs a h.1 p)

-- On a new day nothing has been spent yet.
pub spent_new_day :
    (pid : ℕ) (old month today : Date) (t : List OrbiRequest)
    → All (Precedes pid old month) t
    → Upto old today
    → date_eq old today ≡ false
    → spent OrbiRequest.budget_day t pid today ≡ 0
spent_new_day pid old month today t h later other = sum_by-zero _ t (
    All-mono (Precedes pid old month) _ t
      (λ r before. elim (Bool-cases (r.project_id == pid)) [
        | inl e ↦
            let up = before ((==_iff r.project_id pid).0 e) in
            rw (e, Upto-ne r.budget_day old today up.0 later other) refl
        | inr e ↦ rw e refl
      ])
      h)

pub spent_new_month :
    (pid : ℕ) (day old today : Date) (t : List OrbiRequest)
    → All (Precedes pid day old) t
    → Upto old today
    → date_eq old today ≡ false
    → spent OrbiRequest.budget_month t pid today ≡ 0
spent_new_month pid day old today t h later other = sum_by-zero _ t (
    All-mono (Precedes pid day old) _ t
      (λ r before. elim (Bool-cases (r.project_id == pid)) [
        | inl e ↦
            let up = before ((==_iff r.project_id pid).0 e) in
            rw (e, Upto-ne r.budget_month old today up.1 later other) refl
        | inr e ↦ rw e refl
      ])
      h)
