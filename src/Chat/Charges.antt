-- ===== src/Chat/Charges.antt =====
-- The acceptance of a chat request in routes/chat.py keeps the account of its project: the new row
-- is charged with exactly the tokens that were reserved for it.
use orbi_inference.Base.{
  ◌⊎◌, ℕ, ◌+◌, ◌≡◌, refl, sym, subst, ap, ◌∙◌, Bool, true, false, Option, some, List, [], ◌∷◌, ◌++◌,
  arith, Bool-cases, inl, inr, ◌==◌, ==_iff, sum_by-append,
}
use orbi_inference.Base.Text.{Text}
use orbi_inference.Base.Json.{Json}
use orbi_inference.Base.Table.{modify, get-replace-cases, key-get}
use orbi_inference.Base.Calendar.{
  Instant, Date, Upto, Upto-refl, Upto-trans, date_eq, date_of, first_of_month,
}
use orbi_inference.Entities.{Project, ApiKey, OrbiRequest, Db}
use orbi_inference.Budget.{find_project}
use orbi_inference.Budget.Limits.{
  Reserved, reserve-parts, reserve_row-Reserved, carried_day, carried_month, date_eq_refl,
  date_eq→eq,
}
use orbi_inference.Accounting.{share, charge, spent, IsBalanced}
use orbi_inference.Accounting.Dated.{
  Precedes, IsDated, All-mono, All-snoc, spent_new_day, spent_new_month,
}
use orbi_inference.Chat.{Clock, ChatCompletionRequest, reservation, new_request}
use orbi_inference.Chat.Acceptance.{Enqueued}

-- The clock is not before the periods that the project's counters stand for.
abbrev pub Advances : Instant → ℕ → Db → Type 0
Advances now pid db =
    (p : Project)
    → find_project pid db ≡ some p
    → Upto p.daily_usage_date (date_of now)
      × Upto p.monthly_usage_month (first_of_month (date_of now))

carried_day-spent :
    (pid : ℕ) (today : Date) (db : Db) (p : Project)
    → find_project pid db ≡ some p
    → IsBalanced db
    → IsDated db
    → Upto p.daily_usage_date today
    → carried_day today p ≡ spent OrbiRequest.budget_day db.requests pid today
carried_day-spent pid today db p stored b dated later =
    elim (Bool-cases (date_eq p.daily_usage_date today)) [
      | inl e ↦ rw (e, ← date_eq→eq p.daily_usage_date today e) (b.day pid p stored)
      | inr e ↦ rw e (
          sym (
            spent_new_day pid p.daily_usage_date p.monthly_usage_month today db.requests
              (dated.at pid p stored) later e))
    ]

carried_month-spent :
    (pid : ℕ) (today : Date) (db : Db) (p : Project)
    → find_project pid db ≡ some p
    → IsBalanced db
    → IsDated db
    → Upto p.monthly_usage_month (first_of_month today)
    → carried_month today p ≡ spent OrbiRequest.budget_month db.requests pid (first_of_month today)
carried_month-spent pid today db p stored b dated later =
    elim (Bool-cases (date_eq p.monthly_usage_month (first_of_month today))) [
      | inl e ↦ rw e (
          subst
            (λ (d : Date). p.monthly_tokens_used ≡ spent OrbiRequest.budget_month db.requests pid d)
            (date_eq→eq p.monthly_usage_month (first_of_month today) e) (b.month pid p stored))
      | inr e ↦ rw e (
          sym (
            spent_new_month pid p.daily_usage_date p.monthly_usage_month (first_of_month today)
              db.requests (dated.at pid p stored) later e))
    ]

spent-snoc :
    (period : OrbiRequest → Date) (t : List OrbiRequest) (r : OrbiRequest) (pid : ℕ) (date : Date)
    → spent period (t ++ r ∷ []) pid date
      ≡ spent period t pid date + share period pid date (charge r) r
spent-snoc period t r pid date =
    let split =
      sum_by-append (λ (x : OrbiRequest). share period pid date (charge x) x) t (r ∷ []) in
    omega arith

share_other :
    (period : OrbiRequest → Date) (pid : ℕ) (date : Date) (n : ℕ) (r : OrbiRequest)
    → (r.project_id == pid) ≡ false
    → share period pid date n r ≡ 0
share_other period pid date n r h = rw h

share_own :
    (period : OrbiRequest → Date) (pid : ℕ) (date : Date) (n : ℕ) (r : OrbiRequest)
    → r.project_id ≡ pid
    → period r ≡ date
    → share period pid date n r ≡ n
share_own period pid date n r h e = rw (e, date_eq_refl date, (==_iff r.project_id pid).1 h)

-- A row that is paid for by a reservation of `n` tokens at `now`.
record IsPaid (now : Instant) (n : ℕ) (q : Project) (row : OrbiRequest) : Type 0 where
  project : row.project_id ≡ q.id
  day : row.budget_day ≡ date_of now
  month : row.budget_month ≡ first_of_month (date_of now)
  amount : charge row ≡ n

not_both : (x : Bool) → x ≡ false → x ≡ true → ⊥
not_both x f t = ground arith

module _ (db : Db) (pid n : ℕ) (now : Instant) (p q : Project) (row : OrbiRequest)
    (stored : find_project pid db ≡ some p) (res : Reserved (date_of now) n p q)
    (paid : IsPaid now n q row)
    (later : Upto p.daily_usage_date (date_of now)
      × Upto p.monthly_usage_month (first_of_month (date_of now))) where
  charged_db : Db
  charged_db = record db {
    projects = modify Project.id pid (λ _. q) db.projects;
    requests = db.requests ++ row ∷ [];
  }

  q_id : q.id ≡ pid
  q_id = res.id ∙ key-get Project.id pid db.projects stored

  found_after :
      (k : ℕ) {r : Project}
      → find_project k charged_db ≡ some r
      → ((k ≡ pid) × (r ≡ q)) ⊎ (((pid == k) ≡ false) × (find_project k db ≡ some r))
  unfolding charged_db
  found_after k g = get-replace-cases Project.id k pid q db.projects stored q_id g

  own_day :
      IsBalanced db
      → IsDated db
      → q.daily_tokens_used
        ≡ spent OrbiRequest.budget_day db.requests pid q.daily_usage_date
          + share OrbiRequest.budget_day pid q.daily_usage_date (charge row) row
  own_day b dated =
      let before = carried_day-spent pid (date_of now) db p stored b dated later.0 in
      let own =
        share_own OrbiRequest.budget_day pid (date_of now) (charge row) row (paid.project ∙ q_id)
          paid.day in
      let used = res.daily_used in
      let amount = paid.amount in
      subst
        (λ (d : Date).
          q.daily_tokens_used
          ≡ spent OrbiRequest.budget_day db.requests pid d
            + share OrbiRequest.budget_day pid d (charge row) row)
        (sym res.day) (omega arith)

  own_month :
      IsBalanced db
      → IsDated db
      → q.monthly_tokens_used
        ≡ spent OrbiRequest.budget_month db.requests pid q.monthly_usage_month
          + share OrbiRequest.budget_month pid q.monthly_usage_month (charge row) row
  own_month b dated =
      let before = carried_month-spent pid (date_of now) db p stored b dated later.1 in
      let own =
        share_own OrbiRequest.budget_month pid (first_of_month (date_of now)) (charge row) row
          (paid.project ∙ q_id) paid.month in
      let used = res.monthly_used in
      let amount = paid.amount in
      subst
        (λ (d : Date).
          q.monthly_tokens_used
          ≡ spent OrbiRequest.budget_month db.requests pid d
            + share OrbiRequest.budget_month pid d (charge row) row)
        (sym res.month) (omega arith)

  not_own : (k : ℕ) → (pid == k) ≡ false → (row.project_id == k) ≡ false
  not_own k h = rw (paid.project ∙ q_id) h

  charged_db-IsBalanced : IsBalanced db → IsDated db → IsBalanced charged_db
  unfolding charged_db
  charged_db-IsBalanced b dated = record {
    day = λ k r g. rw spent-snoc (elim (found_after k {r = r} g) [
      | inl (e, same) ↦ rw (same, e) (own_day b dated)
      | inr (other, g') ↦
          let none_here =
            share_other OrbiRequest.budget_day k r.daily_usage_date (charge row) row
              (not_own k other) in
          omega (arith, b.day k r g', none_here)
    ]);
    month = λ k r g. rw spent-snoc (elim (found_after k {r = r} g) [
      | inl (e, same) ↦ rw (same, e) (own_month b dated)
      | inr (other, g') ↦
          let none_here =
            share_other OrbiRequest.budget_month k r.monthly_usage_month (charge row) row
              (not_own k other) in
          omega (arith, b.month k r g', none_here)
    ]);
  }

  charged_db-IsDated : IsDated db → IsDated charged_db
  unfolding charged_db
  charged_db-IsDated dated = record {
    at = λ k r g. elim (found_after k {r = r} g) [
      | inl (e, same) ↦
          rw (same, e, res.day, res.month)
            (All-snoc (Precedes pid (date_of now) (first_of_month (date_of now))) db.requests row
              (All-mono (Precedes pid p.daily_usage_date p.monthly_usage_month) _ db.requests
                (λ x before own.
                  let (d, m) = before own in
                  (
                    Upto-trans x.budget_day p.daily_usage_date (date_of now) d later.0,
                    Upto-trans x.budget_month p.monthly_usage_month (first_of_month (date_of now)) m
                        later.1,
                  ))
                (dated.at pid p stored))
              (λ own. (
                rw paid.day (Upto-refl (date_of now)),
                rw paid.month (Upto-refl (first_of_month (date_of now))),
              )))
      | inr (other, g') ↦
          All-snoc (Precedes k r.daily_usage_date r.monthly_usage_month) db.requests row
            (dated.at k r g')
            (λ own.
              absurd (
                not_both (row.project_id == k) (not_own k other) ((==_iff row.project_id k).1 own)))
    ];
  }

-- An acceptance keeps the account exact: the project is charged with the new request's reservation,
-- and the counters of past periods are dropped with nothing left to count.
module _ (dump : ChatCompletionRequest → Json) where
  pub Enqueued-IsBalanced :
      (new_id : ℕ) (clock : Clock) (api_key : ApiKey) (payload : ChatCompletionRequest)
      (key : Option Text) (db db' : Db)
      → Enqueued dump new_id clock api_key payload key db db'
      → Advances clock.reserving api_key.project_id db
      → IsBalanced db
      → IsDated db
      → IsBalanced db' × IsDated db'
  unfolding charged_db
  Enqueued-IsBalanced new_id clock api_key payload key db db' e clocked b dated =
      let (p, stored, row, t, m, d) =
        reserve-parts api_key.project_id (reservation payload) clock.reserving db e.reserved in
      let res = reserve_row-Reserved (date_of clock.reserving) (reservation payload) p row in
      let new : OrbiRequest =
        new_request dump new_id clock api_key payload key e.alias e.project e.day e.month in
      let paid : IsPaid clock.reserving (reservation payload) e.project new = record {
        project = refl;
        day = t;
        month = m;
        amount = refl;
      } in
      let q : db'
          ≡ charged_db db api_key.project_id (reservation payload) clock.reserving p e.project new
              stored res paid (clocked p stored) =
        e.inserted ∙ ap (λ (x : Db). record x { requests = x.requests ++ new ∷ [] }) d in
      rw q (
        charged_db-IsBalanced db api_key.project_id (reservation payload) clock.reserving p
            e.project new stored res paid (clocked p stored) b dated,
        charged_db-IsDated db api_key.project_id (reservation payload) clock.reserving p e.project
            new stored res paid (clocked p stored) dated,
      )
