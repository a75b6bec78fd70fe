-- ===== src/Queue/Usage.antt =====
-- Usage records of services/queue.py: a request has one if it is completed, and none otherwise.
use orbi_inference.Base.{
  ℕ, ◌+◌, ◌≡◌, refl, subst, ap, ◌∙◌, Bool, true, false, Option, none, some, List, [], ◌∷◌, ◌++◌,
  arith, Option-cases, Bool-cases, inl, inr, if◌then◌else◌, ◌==◌, ==_iff, sum_by, sum_by-append,
}
use orbi_inference.Base.Table.{get, modify, get-modify}
use orbi_inference.Base.Table.Related.{Related-get, Related-get-none}
use orbi_inference.Base.Calendar.{Instant}
use orbi_inference.Errors.{ok, >>=-eq-ok}
use orbi_inference.Entities.{Worker, OrbiRequest, UsageRecord, Db}
use orbi_inference.Entities.Status.{RequestStatus, is_completed, is_in_progress, is_queued}
use orbi_inference.Budget.{reconcile}
use orbi_inference.Budget.Frame.{reconcile_frame}
use orbi_inference.Queue.{find_request, accepts, find_accepting}
use orbi_inference.Queue.Commit.{
  Report, complete, commit_row, commit_result, commit_row-committed, store_result, total_tokens,
  usage_of,
}
use orbi_inference.Queue.Rows.{QuietRules, RowsRelated}
use orbi_inference.Queue.Rows.Operations.{found_row}

abbrev pub usage_count : ℕ → List UsageRecord → ℕ
usage_count k records = sum_by (λ (u : UsageRecord). if u.request_id == k then 1 else 0) records

abbrev pub completed_count : Option OrbiRequest → ℕ
completed_count none = 0
completed_count (some r) = if is_completed r.status then 1 else 0

abbrev pub IsAccounted : Db → Type 0
IsAccounted db = (k : ℕ) → usage_count k db.usage_records ≡ completed_count (find_request k db)

abbrev pub KeepsCompleted : OrbiRequest → OrbiRequest → Type 0
KeepsCompleted a b = (b.id ≡ a.id) × (is_completed b.status ≡ is_completed a.status)

queued-incomplete : (s : RequestStatus) → is_queued s ≡ true → false ≡ is_completed s
queued-incomplete RequestStatus.queued q = refl
queued-incomplete _ q = absurd (ground arith)

pub in_progress-incomplete : (s : RequestStatus) → is_in_progress s ≡ true → false ≡ is_completed s
in_progress-incomplete RequestStatus.completed q = absurd (ground arith)
in_progress-incomplete _ q = refl

pub KeepsCompleted-rules : QuietRules KeepsCompleted
KeepsCompleted-rules = record {
  same = λ a. (refl, refl);
  chain = λ a b c p q. (q.0 ∙ p.0, q.1 ∙ p.1);
  claimed = λ a w l h. (refl, queued-incomplete a.status h);
  retried = λ a w d h room. (refl, in_progress-incomplete a.status (ground arith));
  failed = λ a w d h. (refl, in_progress-incomplete a.status (ground arith));
  requeued = λ a now h. (refl, in_progress-incomplete a.status (ground arith));
  exhausted = λ a now h. (refl, in_progress-incomplete a.status (ground arith));
  expired = λ a now h. (refl, queued-incomplete a.status (ground arith));
}

-- Methods that store no result keep the counts.
pub RowsRelated-completed_count :
    (a b : Db) (k : ℕ)
    → RowsRelated KeepsCompleted a b
    → completed_count (find_request k b) ≡ completed_count (find_request k a)
RowsRelated-completed_count a b k h = elim (Option-cases (find_request k a)) [
  | inl e ↦
      rw (
        e,
        Related-get-none OrbiRequest.id KeepsCompleted k a.requests b.requests (λ x y r. r.0) h e,
      )
  | inr (x, e) ↦
      let (y, found, kept) =
        Related-get OrbiRequest.id KeepsCompleted k a.requests b.requests x (λ x y r. r.0) h e in
      rw (e, found, kept.1)
]

counted :
    (k : ℕ) (r : OrbiRequest) (f : OrbiRequest → OrbiRequest) (t : List OrbiRequest)
    → get OrbiRequest.id r.id t ≡ some r
    → false ≡ is_completed r.status
    → is_completed (f r).status ≡ true
    → ((a : OrbiRequest) → (f a).id ≡ a.id)
    → completed_count (get OrbiRequest.id k (modify OrbiRequest.id r.id f t))
      ≡ completed_count (get OrbiRequest.id k t) + (if r.id == k then 1 else 0)
counted k r f t stored before after same = elim (Bool-cases (r.id == k)) [
  | inl e ↦
      let here : get OrbiRequest.id k t ≡ some r =
        subst (λ j. get OrbiRequest.id j t ≡ some r) ((==_iff r.id k).0 e) stored in
      rw (get-modify OrbiRequest.id k r.id f t same, e, here, after, ← before) refl
  | inr e ↦ rw (get-modify OrbiRequest.id k r.id f t same, e) (omega arith)
]

usage_count-snoc :
    (k : ℕ) (u : UsageRecord) (records : List UsageRecord)
    → usage_count k (records ++ u ∷ [])
      ≡ usage_count k records + (if u.request_id == k then 1 else 0)
usage_count-snoc k u records =
    let split =
      sum_by-append (λ (v : UsageRecord). if v.request_id == k then 1 else 0) records (u ∷ []) in
    omega arith

commit_row-IsAccounted :
    (worker : Worker) (report : Report) (now : Instant) (db : Db) (found : Option OrbiRequest)
    {done : Bool} {db' : Db}
    → ((r : OrbiRequest)
        → found ≡ some r
        → (find_request r.id db ≡ some r) × (accepts worker.id r ≡ true))
    → commit_row worker report now db found ≡ ok (done, db')
    → IsAccounted db
    → IsAccounted db'
commit_row-IsAccounted worker report now db none {done} {db'} h e b =
    let q : db ≡ db' = ground arith in subst IsAccounted q b
commit_row-IsAccounted worker report now db (some r) {done} {db'} h e b = λ k.
    let (stored, accepted) = h r refl in
    let (d, reconciled, e') =
      >>=-eq-ok
        (reconcile r.project_id r.reserved_tokens (total_tokens report) r.budget_day r.budget_month
          (store_result now report r db))
        _ e in
    let frame = reconcile_frame _ _ _ _ _ _ reconciled in
    let usage : db'.usage_records ≡ db.usage_records ++ usage_of worker report r ∷ [] =
      let q : db'.usage_records ≡ d.usage_records ++ usage_of worker report r ∷ [] = ground arith in
      q ∙ ap (λ (l : List UsageRecord). l ++ usage_of worker report r ∷ []) frame.usage_records in
    let requests : db'.requests
        ≡ modify OrbiRequest.id r.id
            (complete report.result report.input_tokens report.output_tokens now) db.requests =
      let q : db'.requests ≡ d.requests = ground arith in q ∙ frame.requests in
    let incomplete : false ≡ is_completed r.status =
      in_progress-incomplete r.status (ground arith) in
    let count =
      counted k r (complete report.result report.input_tokens report.output_tokens now) db.requests
        stored incomplete refl (λ a. refl) in
    let records = usage_count-snoc k (usage_of worker report r) db.usage_records in
    rw (usage, requests) (omega (arith, records, count, b k))

-- If each completed request has exactly one usage record and no other request has any, this is so
-- after a report of a result that commits.
pub commit_result-IsAccounted :
    (request_id : ℕ) (worker : Worker) (report : Report) (now : Instant) (db : Db) {done : Bool}
    {db' : Db}
    → IsAccounted db
    → commit_result request_id worker report now db ≡ ok (done, db')
    → IsAccounted db'
commit_result-IsAccounted request_id worker report now db b e =
    commit_row-IsAccounted worker report now db (find_accepting request_id worker.id db)
      (λ r q. found_row request_id worker.id db {r = r} q)
      (commit_row-committed request_id worker report now db e) b
