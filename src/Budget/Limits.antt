-- ===== src/Budget/Limits.antt =====
-- The limits that services/budget.py of apps/gateway enforces, and what a reservation does.
use orbi_inference.Base.{
  ap, ℕ, ◌+◌, ◌≤◌, ◌≡◌, ◌↔◌, refl, true, some, arith, Option-cases, inl, inr, if◌then◌else◌, leb,
}
use orbi_inference.Base.Table.{modify}
use orbi_inference.Base.Calendar.{Instant, Date, date_eq, date_of, first_of_month}
use orbi_inference.Errors.{ok, err, >>=-eq-ok}
use orbi_inference.Entities.{Project, Db}
use orbi_inference.Budget.{
  BudgetSnapshot, enforce_budget, snapshot, roll_periods, reserve_row, reserve, find_project,
  not_positive, daily_exceeded, monthly_exceeded,
}

-- The budget is not exceeded exactly if at least one token is asked for and both limits have room
-- for them on top of what is used.
pub enforce_budget_exact :
    (s : BudgetSnapshot) (n : ℕ)
    → (enforce_budget s n ≡ ok tt)
      ↔ ((1 ≤ n) × (s.daily_used + n ≤ s.daily_limit) × (s.monthly_used + n ≤ s.monthly_limit))
unfolding enforce_budget
enforce_budget_exact s n = ground arith

-- Which error is raised: the first of the three that applies.
pub enforce_budget_errors :
    (s : BudgetSnapshot) (n : ℕ)
    → enforce_budget s n ≡ (
        if leb n 0
        then err not_positive
        else if leb (s.daily_used + n) s.daily_limit
        then (if leb (s.monthly_used + n) s.monthly_limit then ok tt else err monthly_exceeded)
        else err daily_exceeded)
unfolding enforce_budget
enforce_budget_errors s n = ground arith

pub record IsWithin (p : Project) : Type 0 where
  pub daily : p.daily_tokens_used ≤ p.daily_token_limit
  pub monthly : p.monthly_tokens_used ≤ p.monthly_token_limit

-- What is already used in the periods of `today`.
abbrev pub carried_day : Date → Project → ℕ
carried_day today p = if date_eq p.daily_usage_date today then p.daily_tokens_used else 0

abbrev pub carried_month : Date → Project → ℕ
carried_month today p =
    if date_eq p.monthly_usage_month (first_of_month today) then p.monthly_tokens_used else 0

pub date_eq→eq : (a b : Date) → date_eq a b ≡ true → a ≡ b
date_eq→eq a b h = ground arith

pub date_eq_refl : (a : Date) → date_eq a a ≡ true
date_eq_refl a = ground arith

pub record Reserved (today : Date) (n : ℕ) (p q : Project) : Type 0 where
  pub id : q.id ≡ p.id
  pub within : IsWithin q
  pub day : q.daily_usage_date ≡ today
  pub month : q.monthly_usage_month ≡ first_of_month today
  pub daily_used : q.daily_tokens_used ≡ carried_day today p + n
  pub monthly_used : q.monthly_tokens_used ≡ carried_month today p + n
  pub daily_limit : q.daily_token_limit ≡ p.daily_token_limit
  pub monthly_limit : q.monthly_token_limit ≡ p.monthly_token_limit

pub roll_day : (today : Date) (p : Project) → (roll_periods today p).daily_usage_date ≡ today
unfolding roll_periods
roll_day today p = ground (arith, date_eq→eq p.daily_usage_date today)

pub roll_month :
    (today : Date) (p : Project) → (roll_periods today p).monthly_usage_month ≡ first_of_month today
unfolding roll_periods
roll_month today p = ground (arith, date_eq→eq p.monthly_usage_month (first_of_month today))

-- The row that `reserve` writes, from the row with its periods rolled.
abbrev pub add_tokens : ℕ → Project → Project
add_tokens n rolled = record rolled {
  daily_tokens_used = rolled.daily_tokens_used + n;
  monthly_tokens_used = rolled.monthly_tokens_used + n;
}

pub reserve_row-parts :
    (today : Date) (n : ℕ) (p : Project) {q : Project}
    → reserve_row today n p ≡ ok q
    → (enforce_budget (snapshot (roll_periods today p)) n ≡ ok tt)
      × (q ≡ add_tokens n (roll_periods today p))
unfolding reserve_row
reserve_row-parts today n p {q} h =
    let (u, passed, e) = >>=-eq-ok (enforce_budget (snapshot (roll_periods today p)) n) _ h in
    (passed, ground arith)

rolled_used :
    (today : Date) (p : Project)
    → ((roll_periods today p).daily_tokens_used ≡ carried_day today p)
      × ((roll_periods today p).monthly_tokens_used ≡ carried_month today p)
      × ((roll_periods today p).daily_token_limit ≡ p.daily_token_limit)
      × ((roll_periods today p).monthly_token_limit ≡ p.monthly_token_limit)
      × ((roll_periods today p).id ≡ p.id)
unfolding roll_periods
rolled_used today p = (refl, refl, refl, refl, refl)

-- If a reservation succeeds, the project's periods are today and this month, both counters are what
-- these periods carry and the reserved tokens, the limits are as before, and neither counter is
-- over its limit.
pub reserve_row-Reserved :
    (today : Date) (n : ℕ) (p : Project) {q : Project}
    → reserve_row today n p ≡ ok q
    → Reserved today n p q
reserve_row-Reserved today n p {q} h =
    let (passed, e) = reserve_row-parts today n p {q = q} h in
    let (positive, daily, monthly) =
      (enforce_budget_exact (snapshot (roll_periods today p)) n).0 passed in
    let (d, m, dl, ml, i) = rolled_used today p in
    rw e (record {
      id = i;
      within = record { daily = daily; monthly = monthly };
      day = roll_day today p;
      month = roll_month today p;
      daily_used = ap (λ (k : ℕ). k + n) d;
      monthly_used = ap (λ (k : ℕ). k + n) m;
      daily_limit = dl;
      monthly_limit = ml;
    })

-- A reservation of at least one token succeeds if both periods have room for it on top of what they
-- carry, and then adds it to both counters of the row with its periods rolled.
pub reserve_row-succeeds :
    (today : Date) (n : ℕ) (p : Project)
    → 1 ≤ n
    → carried_day today p + n ≤ p.daily_token_limit
    → carried_month today p + n ≤ p.monthly_token_limit
    → reserve_row today n p ≡ ok (add_tokens n (roll_periods today p))
unfolding reserve_row
reserve_row-succeeds today n p positive daily monthly =
    let (d, m, dl, ml, i) = rolled_used today p in
    let passed : enforce_budget (snapshot (roll_periods today p)) n ≡ ok tt =
      (enforce_budget_exact (snapshot (roll_periods today p)) n).1
        (positive, rw (d, dl) daily, rw (m, ml) monthly) in
    rw passed

pub reserve-parts :
    (pid n : ℕ) (now : Instant) (db : Db) {q : Project} {today month : Date} {db' : Db}
    → reserve pid n now db ≡ ok ((q, today, month), db')
    → (p : Project) × (find_project pid db ≡ some p)
      × (reserve_row (date_of now) n p ≡ ok q)
      × (today ≡ date_of now)
      × (month ≡ first_of_month (date_of now))
      × (db' ≡ record db { projects = modify Project.id pid (λ _. q) db.projects })
unfolding reserve
reserve-parts pid n now db {q} {today} {month} {db'} h = elim (Option-cases (find_project pid db)) [
  | inl e ↦ absurd (ground arith)
  | inr (p, e) ↦
      let (r, row, e') = >>=-eq-ok (reserve_row (date_of now) n p) _ (rw (e) at h) in
      let same : r ≡ q = ground arith in
      (p, e, rw (← same) row, ground arith, ground arith, ground arith)
]
