-- ===== src/Budget/Settlement.antt =====
-- How services/budget.py of apps/gateway settles a reservation: a release takes it back, and a
-- reconciliation within the reservation keeps the limits.
use orbi_inference.Base.{ap, subst, ℕ, ◌≤◌, ◌≡◌, refl, some, arith, sym, ◌∙◌}
use orbi_inference.Base.Table.{get-replace_self, modify, key-get}
use orbi_inference.Base.Calendar.{Instant, Date, date_of, first_of_month}
use orbi_inference.Errors.{ok}
use orbi_inference.Entities.{Project, Db}
use orbi_inference.Budget.{roll_periods, reserve, reconcile_row, reconcile, release, find_project}
use orbi_inference.Budget.Limits.{
  IsWithin, roll_day, roll_month, add_tokens, reserve_row-parts, reserve-parts,
  reserve_row-Reserved,
}

-- If no more tokens are charged than were reserved, a project that is within its limits stays
-- within them.
pub reconcile_row-IsWithin :
    (reserved actual : ℕ) (day month : Date) (p : Project)
    → actual ≤ reserved
    → IsWithin p
    → IsWithin (reconcile_row reserved actual day month p)
unfolding reconcile_row
reconcile_row-IsWithin reserved actual day month p h w = ground arith

pub id-reconcile_row :
    (reserved actual : ℕ) (day month : Date) (p : Project)
    → (reconcile_row reserved actual day month p).id ≡ p.id
unfolding reconcile_row
id-reconcile_row reserved actual day month p = refl

reconcile-add_tokens :
    (n : ℕ) (p : Project)
    → reconcile_row n 0 p.daily_usage_date p.monthly_usage_month (add_tokens n p) ≡ p
unfolding reconcile_row
reconcile-add_tokens n p = ground arith

pub reconcile-found :
    (pid reserved actual : ℕ) (day month : Date) (db : Db) {p : Project}
    → find_project pid db ≡ some p
    → reconcile pid reserved actual day month db
      ≡ ok (record db {
        projects =
            modify Project.id pid (λ _. reconcile_row reserved actual day month p) db.projects;
      })
unfolding reconcile
reconcile-found pid reserved actual day month db h = rw h

undone :
    (n : ℕ) (p q : Project) (today : Date)
    → q ≡ add_tokens n (roll_periods today p)
    → reconcile_row n 0 today (first_of_month today) q ≡ roll_periods today p
undone n p q today e = rw e (
    subst
      (λ (d : Date).
        reconcile_row n 0 d (first_of_month today) (add_tokens n (roll_periods today p))
        ≡ roll_periods today p)
      (roll_day today p)
      (subst
        (λ (m : Date).
          reconcile_row n 0 (roll_periods today p).daily_usage_date m
            (add_tokens n (roll_periods today p))
          ≡ roll_periods today p)
        (roll_month today p) (reconcile-add_tokens n (roll_periods today p))))

-- If a reservation has succeeded, its release in the periods that it was made in succeeds on the
-- database that it left, and leaves the project as it was, with the counters of past periods reset.
pub release-reserve :
    (pid n : ℕ) (now : Instant) (db : Db) {q : Project} {today month : Date} {db' : Db}
    → reserve pid n now db ≡ ok ((q, today, month), db')
    → (p : Project) × (find_project pid db ≡ some p)
      × (db'' : Db) × (release pid n today month db' ≡ ok db'')
      × (find_project pid db'' ≡ some (roll_periods (date_of now) p))
unfolding release
release-reserve pid n now db {q} {today} {month} {db'} h =
    let (p, stored, row, t, m, d) = reserve-parts pid n now db h in
    let (passed, e) = reserve_row-parts (date_of now) n p row in
    let id : q.id ≡ pid =
      (reserve_row-Reserved (date_of now) n p row).id ∙ key-get Project.id pid db.projects stored in
    let now_stored : find_project pid db' ≡ some q =
      rw d (get-replace_self Project.id pid q db.projects stored id) in
    let back : reconcile_row n 0 today month q ≡ roll_periods (date_of now) p =
      rw (t, m) (undone n p q (date_of now) e) in
    (
      p,
      stored,
      record db' {
        projects = modify Project.id pid (λ _. reconcile_row n 0 today month q) db'.projects;
      },
      reconcile-found pid n 0 today month db' now_stored,
      rw back (
          get-replace_self Project.id pid (roll_periods (date_of now) p) db'.projects now_stored
            (sym (ap Project.id back) ∙ id-reconcile_row n 0 today month q ∙ id)),
    )
