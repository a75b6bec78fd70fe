-- ===== src/Gateway/Ownership.antt =====
-- That each request of the gateway's database belongs to a stored project, over the transactions of
-- services/queue.py, routes/chat.py and the creation of projects in routes/admin.py.
use orbi_inference.Base.{
  ℕ, ◌≡◌, refl, sym, subst, ap, ◌∙◌, false, Option, none, some, List, [], ◌∷◌, ◌++◌, All, ◌⊎◌,
  arith, Bool-cases, Option-cases, inl, inr, ◌==◌, ==_iff, none-ne_some, if◌then◌else◌,
}
use orbi_inference.Base.Text.{Text}
use orbi_inference.Base.Json.{Json}
use orbi_inference.Base.Table.{get, modify, get-replace, key-get}
use orbi_inference.Base.Table.Members.{get-append}
use orbi_inference.Base.Table.Related.{Related-All, Related-get}
use orbi_inference.Base.Table.Sums.{sum_by-zero}
use orbi_inference.Base.Calendar.{Date, date_of}
use orbi_inference.Entities.{Project, ApiKey, OrbiRequest, Db}
use orbi_inference.Budget.{find_project}
use orbi_inference.Budget.Limits.{reserve-parts, reserve_row-Reserved}
use orbi_inference.Queue.Rows.{RowsRelated}
use orbi_inference.Queue.Lifecycle.{SameOrder}
use orbi_inference.Queue.Totality.{HasProject, IsOwned}
use orbi_inference.Accounting.{IsBalanced, spent}
use orbi_inference.Accounting.Periods.{SamePeriods, KeepsPeriods}
use orbi_inference.Accounting.Dated.{IsDated, Precedes, All-mono, All-snoc}
use orbi_inference.Chat.{Clock, ChatCompletionRequest, reservation, new_request}
use orbi_inference.Chat.Acceptance.{Enqueued}

HasProject-SameOrder :
    (db : Db) (x y : OrbiRequest) → SameOrder x y → HasProject db x → HasProject db y
HasProject-SameOrder db x y same (p, found) =
    (p, ap (λ k. find_project k db) same.project_id ∙ found)

HasProject-KeepsPeriods :
    (a b : Db) → KeepsPeriods a b → (r : OrbiRequest) → HasProject a r → HasProject b r
HasProject-KeepsPeriods a b periods r (p, found) =
    let (q, stored, same) =
      Related-get Project.id SamePeriods r.project_id a.projects b.projects p (λ x y s. s.id)
        periods found in
    (q, stored)

-- Changes that keep the orders and the projects keep the ownership.
pub IsOwned-keeps :
    (a b : Db) → RowsRelated SameOrder a b → KeepsPeriods a b → IsOwned a → IsOwned b
IsOwned-keeps a b rows periods owned =
    All-mono (HasProject a) (HasProject b) b.requests (HasProject-KeepsPeriods a b periods) (
      Related-All OrbiRequest.id SameOrder (HasProject a) a.requests b.requests
        (HasProject-SameOrder a) rows owned)

pub IsOwned-same :
    (a b : Db) → b.requests ≡ a.requests → b.projects ≡ a.projects → IsOwned a → IsOwned b
IsOwned-same a b requests projects owned = rw (requests, projects) owned

-- A replaced project is still there.
replaced :
    (pid k : ℕ) (q : Project) (t : List Project) {p x : Project}
    → get Project.id pid t ≡ some p
    → q.id ≡ pid
    → get Project.id k t ≡ some x
    → (y : Project) × (get Project.id k (modify Project.id pid (λ _. q) t) ≡ some y)
replaced pid k q t {p} {x} found id stored = elim (Bool-cases (pid == k)) [
  | inl e ↦ (q, get-replace Project.id k pid q t found id ∙ rw e refl)
  | inr e ↦ (x, get-replace Project.id k pid q t found id ∙ rw e stored)
]

module _ (dump : ChatCompletionRequest → Json) where
  pub Enqueued-IsOwned :
      (new_id : ℕ) (clock : Clock) (api_key : ApiKey) (payload : ChatCompletionRequest)
      (key : Option Text) (db db' : Db)
      → (e : Enqueued dump new_id clock api_key payload key db db')
      → db'.requests
        ≡ db.requests
          ++ new_request dump new_id clock api_key payload key e.alias e.project e.day e.month ∷ []
      → IsOwned db
      → IsOwned db'
  Enqueued-IsOwned new_id clock api_key payload key db db' e requests owned =
      let (p, found, row, t, m, d) =
        reserve-parts api_key.project_id (reservation payload) clock.reserving db e.reserved in
      let id : e.project.id ≡ api_key.project_id =
        (reserve_row-Reserved (date_of clock.reserving) (reservation payload) p row).id
        ∙ key-get Project.id api_key.project_id db.projects found in
      let projects : db'.projects
          ≡ modify Project.id api_key.project_id (λ _. e.project) db.projects =
        ap Db.projects e.inserted ∙ ap Db.projects d in
      let new : OrbiRequest =
        new_request dump new_id clock api_key payload key e.alias e.project e.day e.month in
      let kept : (k : ℕ) (x : Project)
          → find_project k db ≡ some x
          → (y : Project) × (find_project k db' ≡ some y) =
        λ k x stored.
          let (y, there) = replaced api_key.project_id k e.project db.projects found id stored in
          (y, ap (get Project.id k) projects ∙ there) in
      subst (All (HasProject db')) (sym requests) (
        All-snoc (HasProject db') db.requests new
          (All-mono (HasProject db) (HasProject db') db.requests
            (λ r (x, stored). kept r.project_id x stored) owned)
          (kept e.project.id p (ap (λ k. find_project k db) id ∙ found)))

-- A new project, whose id no request has.
module _ (new : Project) (a b : Db) (requests : b.requests ≡ a.requests)
    (projects : b.projects ≡ a.projects ++ new ∷ []) (fresh : find_project new.id a ≡ none)
    (owned : IsOwned a) where
  pub created-IsOwned : IsOwned b
  created-IsOwned = rw requests (
      All-mono (HasProject a) (HasProject b) a.requests
        (λ r (p, found). (
          p,
          ap (get Project.id r.project_id) projects
              ∙ get-append Project.id r.project_id new a.projects
              ∙ (rw found refl),
        ))
        owned)

  not_its : (r : OrbiRequest) → HasProject a r → (r.project_id == new.id) ≡ false
  not_its r (p, found) = elim (Bool-cases (r.project_id == new.id)) [
    | inl e ↦ absurd (
        none-ne_some
          (sym fresh ∙ ap (λ k. find_project k a) (sym ((==_iff r.project_id new.id).0 e)) ∙ found))
    | inr e ↦ e
  ]

  differs : (r : OrbiRequest) → HasProject a r → r.project_id ≡ new.id → ⊥
  differs r mine same = ground (arith, not_its r mine)

  spent_nothing :
      (period : OrbiRequest → Date) (date : Date) → spent period b.requests new.id date ≡ 0
  spent_nothing period date =
      ap (λ t. spent period t new.id date) requests
      ∙ sum_by-zero _ a.requests
          (All-mono (HasProject a) _ a.requests (λ r h. rw (not_its r h) refl) owned)

  only_new :
      (k : ℕ) (p : Project)
      → (if new.id == k then some new else none) ≡ some p
      → (k ≡ new.id) × (p ≡ new)
  only_new k p h = ground (arith, ==_iff new.id k)

  -- What a select finds after the creation.
  found_cases :
      (k : ℕ) (p : Project)
      → find_project k b ≡ some p
      → (find_project k a ≡ some p) ⊎ ((k ≡ new.id) × (p ≡ new))
  found_cases k p h = elim (Option-cases (find_project k a)) [
    | inr (x, e) ↦
        let same : some x ≡ some p =
          sym (ap (get Project.id k) projects ∙ get-append Project.id k new a.projects ∙ rw e refl)
          ∙ h in
        inl (e ∙ same)
    | inl e ↦
        let one : (if new.id == k then some new else none) ≡ some p =
          sym (ap (get Project.id k) projects ∙ get-append Project.id k new a.projects ∙ rw e refl)
          ∙ h in
        inr (only_new k p one)
  ]

  -- The counters of the new project are zero, and nothing has been charged to it.
  pub created-IsBalanced :
      new.daily_tokens_used ≡ 0 → new.monthly_tokens_used ≡ 0 → IsBalanced a → IsBalanced b
  created-IsBalanced day month balanced = record {
    day = λ pid p h. elim (found_cases pid p h) [
      | inl e ↦
          balanced.day pid p e
          ∙ sym (ap (λ t. spent OrbiRequest.budget_day t pid p.daily_usage_date) requests)
      | inr (k, q) ↦
          subst
            (λ (x : Project).
              x.daily_tokens_used ≡ spent OrbiRequest.budget_day b.requests pid x.daily_usage_date)
            (sym q)
            (day
              ∙ sym (
                  subst
                    (λ (j : ℕ). spent OrbiRequest.budget_day b.requests j new.daily_usage_date ≡ 0)
                    (sym k) (spent_nothing OrbiRequest.budget_day new.daily_usage_date)))
    ];
    month = λ pid p h. elim (found_cases pid p h) [
      | inl e ↦
          balanced.month pid p e
          ∙ sym (ap (λ t. spent OrbiRequest.budget_month t pid p.monthly_usage_month) requests)
      | inr (k, q) ↦
          subst
            (λ (x : Project).
              x.monthly_tokens_used
              ≡ spent OrbiRequest.budget_month b.requests pid x.monthly_usage_month)
            (sym q)
            (month
              ∙ sym (
                  subst
                    (λ (j : ℕ).
                      spent OrbiRequest.budget_month b.requests j new.monthly_usage_month ≡ 0)
                    (sym k) (spent_nothing OrbiRequest.budget_month new.monthly_usage_month)))
    ];
  }

  -- No request belongs to the new project, and the others keep their periods.
  pub created-IsDated : IsDated a → IsDated b
  created-IsDated dated = record {
    at = λ pid p h. elim (found_cases pid p h) [
      | inl e ↦
          subst (All (Precedes pid p.daily_usage_date p.monthly_usage_month)) (sym requests)
            (dated.at pid p e)
      | inr (k, q) ↦
          subst (All (Precedes pid p.daily_usage_date p.monthly_usage_month)) (sym requests) (
            All-mono (HasProject a) (Precedes pid p.daily_usage_date p.monthly_usage_month)
              a.requests (λ r mine same. absurd (differs r mine (same ∙ k))) owned)
    ];
  }
