-- ===== src/Budget/Frame.antt =====
-- What the budget operations leave alone: every table but that of the projects.
use orbi_inference.Base.{ℕ, ◌≡◌, ◌∙◌, arith, Option-cases, inl, inr}
use orbi_inference.Base.Calendar.{Date}
use orbi_inference.Errors.{ok}
use orbi_inference.Entities.{Db}
use orbi_inference.Budget.{reconcile, find_project}

-- The other tables of two databases agree.
pub record SameOutsideProjects (a b : Db) : Type 0 where
  pub api_keys : b.api_keys ≡ a.api_keys
  pub model_aliases : b.model_aliases ≡ a.model_aliases
  pub workers : b.workers ≡ a.workers
  pub enrollment_tokens : b.enrollment_tokens ≡ a.enrollment_tokens
  pub requests : b.requests ≡ a.requests
  pub usage_records : b.usage_records ≡ a.usage_records

pub SameOutsideProjects-refl : (a : Db) → SameOutsideProjects a a
SameOutsideProjects-refl a = ground arith

pub SameOutsideProjects-trans :
    {a b c : Db} → SameOutsideProjects a b → SameOutsideProjects b c → SameOutsideProjects a c
SameOutsideProjects-trans p q = record {
  api_keys = q.api_keys ∙ p.api_keys;
  model_aliases = q.model_aliases ∙ p.model_aliases;
  workers = q.workers ∙ p.workers;
  enrollment_tokens = q.enrollment_tokens ∙ p.enrollment_tokens;
  requests = q.requests ∙ p.requests;
  usage_records = q.usage_records ∙ p.usage_records;
}

pub reconcile_frame :
    (pid reserved actual : ℕ) (day month : Date) (db : Db) {db' : Db}
    → reconcile pid reserved actual day month db ≡ ok db'
    → SameOutsideProjects db db'
unfolding reconcile
reconcile_frame pid reserved actual day month db h = elim (Option-cases (find_project pid db)) [
  | inl e ↦ absurd (ground arith)
  | inr (p, e) ↦ ground arith
]
