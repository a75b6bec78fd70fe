-- ===== src/Queue/Selection.antt =====
-- Which request `QueueService.claim_next` of apps/gateway/src/orbi_gateway/services/queue.py takes.
use orbi_inference.Entities.Status.{RequestStatus, is_queued}
use orbi_inference.Base.{
  ◌<◌, ◌≤◌, ◌⊎◌, is_in, is_in_ids, ltb, ℕ, ◌+◌, ◌≡◌, refl, sym, ap, subst, Bool, true, false, ◌&&◌,
  Option, none, some, List, [], ◌∷◌, arith, Option-cases, Bool-cases, inl, inr, some-eq,
  none-ne_some,
}
use orbi_inference.Base.Table.{IsKeyed, get-replace_self}
use orbi_inference.Base.Table.Members.{IsIn, IsIn-keep}
use orbi_inference.Base.Json.{Json}
use orbi_inference.Base.Calendar.{Instant, seconds}
use orbi_inference.Entities.{Worker, OrbiRequest, Db}
use orbi_inference.Queue.{find_request}
use orbi_inference.Queue.Claim.{
  comes_first, first_of, first_row, is_claimable, is_free, candidates, assign, claim_row,
  claim_next,
}
use orbi_inference.Queue.Rows.{candidate_row}

comes_first_refl : (a : OrbiRequest) → comes_first a a ≡ true
comes_first_refl a = ground arith

comes_first_trans :
    (a b c : OrbiRequest) → comes_first a b ≡ true → comes_first b c ≡ true → comes_first a c ≡ true
comes_first_trans a b c p q = ground arith

comes_first_total : (a b : OrbiRequest) → comes_first a b ≡ false → comes_first b a ≡ true
comes_first_total a b p = ground arith

first_of-first :
    (x : OrbiRequest) (found : Option OrbiRequest)
    → (comes_first (first_of x found) x ≡ true)
      × ((b : OrbiRequest) → found ≡ some b → comes_first (first_of x found) b ≡ true)
first_of-first x none = (comes_first_refl x, λ b e. absurd (none-ne_some e))
first_of-first x (some best) = elim (Bool-cases (comes_first x best)) [
  | inl t ↦ (rw t (comes_first_refl x), λ b e. rw (← some-eq e, t) t)
  | inr f ↦ (rw f (comes_first_total x best f), λ b e. rw (← some-eq e, f) (comes_first_refl best))
]

first_row-some :
    (rows : List OrbiRequest) → first_row rows ≡ none → (x : OrbiRequest) → IsIn x rows → ⊥
unfolding first_row
first_row-some [] h x m = m
first_row-some (y ∷ ys) h x m = none-ne_some (sym h)

-- The first row comes no later than any other.
first_row-first :
    (rows : List OrbiRequest) {r : OrbiRequest}
    → first_row rows ≡ some r
    → (x : OrbiRequest) → IsIn x rows
    → comes_first r x ≡ true
unfolding first_row
first_row-first [] h x m = absurd (none-ne_some h)
first_row-first (y ∷ ys) {r} h x (inl e) =
    subst (λ z. comes_first z x ≡ true) (some-eq h) (rw e (first_of-first y (first_row ys)).0)
first_row-first (y ∷ ys) {r} h x (inr m) = elim (Option-cases (first_row ys)) [
  | inl e ↦ absurd (first_row-some ys e x m)
  | inr (b, e) ↦
      subst (λ z. comes_first z x ≡ true) (some-eq h)
        (comes_first_trans (first_of y (first_row ys)) b x ((first_of-first y (first_row ys)).1 b e)
          (first_row-first ys e x m))
]

-- A row that another caller's transaction does not hold and that this worker may take.
abbrev pub is_candidate : (Json → Json → Bool) → List ℕ → Instant → Worker → OrbiRequest → Bool
is_candidate contained locked now worker r =
    is_claimable contained now worker r && is_free contained locked r

-- What the conditions of the statement say of a row: it is queued, its deadline is not over, the
-- worker has what it requires, and serves its model under one of the two names, and no other
-- transaction has locked it.
pub record IsCandidate (contained : Json → Json → Bool) (locked : List ℕ) (now : Instant)
    (worker : Worker) (r : OrbiRequest) : Type 0 where
  pub queued : r.status ≡ RequestStatus.queued
  pub in_time : now < r.expires_at
  pub capable : contained r.required_capabilities worker.capabilities ≡ true
  pub served :
      (is_in r.resolved_model worker.supported_models ≡ true)
      ⊎ (is_in r.model_alias worker.supported_models ≡ true)
  pub unlocked : is_in_ids r.id locked ≡ false

is_queued→eq : (s : RequestStatus) → is_queued s ≡ true → s ≡ RequestStatus.queued
is_queued→eq RequestStatus.queued h = refl
is_queued→eq _ h = absurd (ground arith)

is_candidate-IsCandidate :
    (contained : Json → Json → Bool) (locked : List ℕ) (now : Instant) (worker : Worker)
    (r : OrbiRequest)
    → is_candidate contained locked now worker r ≡ true
    → IsCandidate contained locked now worker r
is_candidate-IsCandidate contained locked now worker r h = record {
  queued = is_queued→eq r.status (ground arith);
  in_time = ground arith;
  capable = ground arith;
  served = elim (Bool-cases (is_in r.resolved_model worker.supported_models)) [
    | inl t ↦ inl t
    | inr f ↦ inr (ground arith)
  ];
  unlocked = ground arith;
}

IsCandidate-is_candidate :
    (contained : Json → Json → Bool) (locked : List ℕ) (now : Instant) (worker : Worker)
    (r : OrbiRequest)
    → IsCandidate contained locked now worker r
    → is_candidate contained locked now worker r ≡ true
IsCandidate-is_candidate contained locked now worker r c =
    ground (arith, c.queued, c.in_time, c.capable, c.served, c.unlocked)

-- The order in which requests are served: by priority, and within one by age.
abbrev pub IsServedBefore : OrbiRequest → OrbiRequest → Type 0
IsServedBefore a b =
    (a.priority < b.priority) ⊎ ((a.priority ≡ b.priority) × (a.created_at ≤ b.created_at))

comes_first-IsServedBefore : (a b : OrbiRequest) → comes_first a b ≡ true → IsServedBefore a b
comes_first-IsServedBefore a b h = elim (Bool-cases (ltb a.priority b.priority)) [
  | inl t ↦ inl (ground arith)
  | inr f ↦ inr (ground arith, ground arith)
]

claim_row-some :
    (worker_id : ℕ) (lease : Instant) (db : Db) (found : Option OrbiRequest) {r' : OrbiRequest}
    {db' : Db}
    → claim_row worker_id lease db found ≡ (some r', db')
    → (r : OrbiRequest) × (found ≡ some r)
      × (r' ≡ assign worker_id lease r)
      × (db' ≡ (claim_row worker_id lease db (some r)).1)
claim_row-some worker_id lease db none h = absurd (none-ne_some (ap (λ p. p.0) h))
claim_row-some worker_id lease db (some r) h =
    (r, refl, sym (some-eq (ap (λ p. p.0) h)), sym (ap (λ p. p.1) h))

-- If request ids are unique, a request that is claimed was stored, queued, not yet over its
-- deadline, within the worker's capabilities and models, and not locked by another transaction; no
-- other such request comes before it by priority and then by age; and it is then stored as assigned
-- to the worker, with its lease.
pub claim_next-first :
    (contained : Json → Json → Bool) (locked : List ℕ) (now : Instant) (worker : Worker)
    (lease_seconds : ℕ) (db : Db) {r' : OrbiRequest} {db' : Db}
    → IsKeyed OrbiRequest.id db.requests
    → claim_next contained locked now worker lease_seconds db ≡ (some r', db')
    → (r : OrbiRequest) × (find_request r.id db ≡ some r)
      × IsCandidate contained locked now worker r
      × ((x : OrbiRequest)
          → IsIn x db.requests
          → IsCandidate contained locked now worker x
          → IsServedBefore r x)
      × (r' ≡ assign worker.id (now + seconds lease_seconds) r)
      × (find_request r.id db' ≡ some r')
unfolding claim_next
claim_next-first contained locked now worker lease_seconds db {r'} {db'} keyed h =
    let rows : List OrbiRequest = candidates contained locked now worker db in
    let lease : Instant = now + seconds lease_seconds in
    let (r, found, same, after) = claim_row-some worker.id lease db (first_row rows) h in
    let (stored, claimable, free) = candidate_row contained locked now worker db keyed found in
    (
      r,
      stored,
      is_candidate-IsCandidate contained locked now worker r (ground (arith, claimable, free)),
      λ x m c. comes_first-IsServedBefore r x (
          first_row-first rows found x (
            IsIn-keep (is_candidate contained locked now worker) x db.requests m
              (IsCandidate-is_candidate contained locked now worker x c))),
      same,
      rw (after, same)
          (get-replace_self OrbiRequest.id r.id (assign worker.id lease r) db.requests stored refl),
    )

claim_row-none :
    (worker_id : ℕ) (lease : Instant) (db : Db) (found : Option OrbiRequest) {db' : Db}
    → claim_row worker_id lease db found ≡ (none, db')
    → (found ≡ none) × (db' ≡ db)
claim_row-none worker_id lease db none h = (refl, sym (ap (λ p. p.1) h))
claim_row-none worker_id lease db (some r) h = absurd (none-ne_some (sym (ap (λ p. p.0) h)))

-- If no request is claimed, the database is left as it is, and no stored request is queued, in
-- time, within the worker's capabilities and models, and not locked.
pub claim_next-nothing :
    (contained : Json → Json → Bool) (locked : List ℕ) (now : Instant) (worker : Worker)
    (lease_seconds : ℕ) (db : Db) {db' : Db}
    → claim_next contained locked now worker lease_seconds db ≡ (none, db')
    → (db' ≡ db)
      × ((x : OrbiRequest) → IsIn x db.requests → ¬ IsCandidate contained locked now worker x)
unfolding claim_next
claim_next-nothing contained locked now worker lease_seconds db {db'} h =
    let rows : List OrbiRequest = candidates contained locked now worker db in
    let (empty, same) =
      claim_row-none worker.id (now + seconds lease_seconds) db (first_row rows) h in
    (
      same,
      λ x m c. first_row-some rows empty x (
          IsIn-keep (is_candidate contained locked now worker) x db.requests m
            (IsCandidate-is_candidate contained locked now worker x c)),
    )
