-- ===== src/Queue/Shape.antt =====
-- What the columns of a request's row say together, after the methods of `QueueService` in
-- apps/gateway/src/orbi_gateway/services/queue.py, and that a finished row is final.
use orbi_inference.Base.{
  subst, sym, ℕ, ◌≤◌, ◌≡◌, refl, ◌∙◌, true, false, Option, none, arith, is_none,
}
use orbi_inference.Base.Json.{Json}
use orbi_inference.Base.Calendar.{Instant}
use orbi_inference.Entities.{OrbiRequest}
use orbi_inference.Entities.Status.{RequestStatus, is_in_progress, is_queued, is_terminal}
use orbi_inference.Queue.Rows.{RowRules}

-- A queued request is nobody's; one in progress has a worker and a lease; a result is stored
-- exactly if the request is completed.
abbrev HasShape : RequestStatus → Option ℕ → Option Instant → Option Json → Type 0
HasShape RequestStatus.queued worker lease result =
    (worker ≡ none) × (lease ≡ none) × (result ≡ none)
HasShape RequestStatus.completed worker lease result =
    (is_none worker ≡ false) × (lease ≡ none) × (is_none result ≡ false)
HasShape RequestStatus.failed_final worker lease result =
    (worker ≡ none) × (lease ≡ none) × (result ≡ none)
HasShape RequestStatus.expired worker lease result =
    (worker ≡ none) × (lease ≡ none) × (result ≡ none)
HasShape RequestStatus.cancelled worker lease result = ⊥
HasShape _ worker lease result =
    (is_none worker ≡ false) × (is_none lease ≡ false) × (result ≡ none)

-- The code never cancels a request, and never retries beyond `max_retries`.
pub record IsWellFormed (r : OrbiRequest) : Type 0 where
  pub shape : HasShape r.status r.assigned_to r.lease_expires r.result
  pub retries : r.retry_count ≤ r.max_retries

abbrev pub KeepsWellFormed : OrbiRequest → OrbiRequest → Type 0
KeepsWellFormed a b = IsWellFormed a → IsWellFormed b

pub queued-HasShape :
    (s : RequestStatus) (w : Option ℕ) (l : Option Instant) (j : Option Json)
    → is_queued s ≡ true
    → HasShape s w l j
    → (w ≡ none) × (l ≡ none) × (j ≡ none)
queued-HasShape RequestStatus.queued w l j q h = h
queued-HasShape _ w l j q h = absurd (ground arith)

pub in_progress-HasShape :
    (s : RequestStatus) (w : Option ℕ) (l : Option Instant) (j : Option Json)
    → is_in_progress s ≡ true
    → HasShape s w l j
    → (is_none w ≡ false) × (is_none l ≡ false) × (j ≡ none)
in_progress-HasShape RequestStatus.assigned w l j q h = h
in_progress-HasShape RequestStatus.starting w l j q h = h
in_progress-HasShape RequestStatus.running w l j q h = h
in_progress-HasShape RequestStatus.streaming w l j q h = h
in_progress-HasShape _ w l j q h = absurd (ground arith)

pub KeepsWellFormed-rules : RowRules KeepsWellFormed
KeepsWellFormed-rules = record {
  quiet = record {
    same = λ a w. w;
    chain = λ a b c p q w. q (p w);
    claimed = λ a worker lease h w.
        let (_, _, r) = queued-HasShape a.status a.assigned_to a.lease_expires a.result h w.shape in
        record { shape = (refl, refl, r); retries = w.retries };
    retried = λ a worker d h room w.
        let (_, _, r) =
          in_progress-HasShape a.status a.assigned_to a.lease_expires a.result (ground arith)
            w.shape in
        record { shape = (refl, refl, r); retries = omega arith };
    failed = λ a worker d h w.
        let (_, _, r) =
          in_progress-HasShape a.status a.assigned_to a.lease_expires a.result (ground arith)
            w.shape in
        record { shape = (refl, refl, r); retries = w.retries };
    requeued = λ a now h w.
        let (_, _, r) =
          in_progress-HasShape a.status a.assigned_to a.lease_expires a.result (ground arith)
            w.shape in
        record { shape = (refl, refl, r); retries = ground arith };
    exhausted = λ a now h w.
        let (_, _, r) =
          in_progress-HasShape a.status a.assigned_to a.lease_expires a.result (ground arith)
            w.shape in
        record { shape = (refl, refl, r); retries = w.retries };
    expired = λ a now h w.
        let (x, y, r) =
          queued-HasShape a.status a.assigned_to a.lease_expires a.result (ground arith) w.shape in
        record { shape = (x, y, r); retries = w.retries };
  };
  completed = λ a worker j i o now h w.
      let (x, _, _) =
        in_progress-HasShape a.status a.assigned_to a.lease_expires a.result (ground arith)
          w.shape in
      record { shape = (x, refl, refl); retries = w.retries };
}

-- A row that has reached a final status is never written again.
abbrev pub KeepsFinal : OrbiRequest → OrbiRequest → Type 0
KeepsFinal a b = (b.id ≡ a.id) × (is_terminal a.status ≡ true → b ≡ a)

queued-not-terminal : (s : RequestStatus) → is_queued s ≡ true → is_terminal s ≡ true → ⊥
queued-not-terminal RequestStatus.queued q t = cc
queued-not-terminal _ q t = ground arith

in_progress-not-terminal : (s : RequestStatus) → is_in_progress s ≡ true → is_terminal s ≡ true → ⊥
in_progress-not-terminal RequestStatus.queued q t = cc
in_progress-not-terminal _ q t = ground arith

pub KeepsFinal-rules : RowRules KeepsFinal
KeepsFinal-rules = record {
  quiet = record {
    same = λ a. (refl, λ t. refl);
    chain = λ a b c p q. (
      q.0 ∙ p.0,
      λ t. q.1 (subst (λ (r : OrbiRequest). is_terminal r.status ≡ true) (sym (p.1 t)) t) ∙ p.1 t,
    );
    claimed = λ a w l h. (refl, λ t. absurd (queued-not-terminal a.status h t));
    retried =
        λ a w d h room. (refl, λ t. absurd (in_progress-not-terminal a.status (ground arith) t));
    failed = λ a w d h. (refl, λ t. absurd (in_progress-not-terminal a.status (ground arith) t));
    requeued = λ a now h. (refl, λ t. absurd (in_progress-not-terminal a.status (ground arith) t));
    exhausted = λ a now h. (refl, λ t. absurd (in_progress-not-terminal a.status (ground arith) t));
    expired = λ a now h. (refl, λ t. absurd (queued-not-terminal a.status (ground arith) t));
  };
  completed =
      λ a w j i o now h. (refl, λ t. absurd (in_progress-not-terminal a.status (ground arith) t));
}
