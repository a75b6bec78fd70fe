-- ===== src/Gateway/History.antt =====
-- What becomes of one request over any number of transactions of the gateway
-- (apps/gateway/src/orbi_gateway, services/queue.py and routes/chat.py).
use orbi_inference.Base.{
  first_where, ℕ, ◌≡◌, sym, subst, Bool, Option, some, List, [], ◌∷◌, ◌++◌, arith, Bool-cases, inl,
  inr, some-eq, none-ne_some,
}
use mathlib.Core.List.{append-nil}
use orbi_inference.Base.Text.{Text}
use orbi_inference.Base.Json.{Json}
use orbi_inference.Base.Table.{get}
use orbi_inference.Base.Table.Related.{Related, Related-refl, Related-get}
use orbi_inference.Entities.{ApiKey, OrbiRequest, Db}
use orbi_inference.Queue.{find_request}
use orbi_inference.Queue.Rows.{RowRules, RowsRelated}
use orbi_inference.Queue.Rows.Operations.{
  claim_next-rows, commit_result-rows, record_error-rows, recover_expired_leases-rows,
}
use orbi_inference.Admin.{create_project-eq_ok}
use orbi_inference.Chat.{Clock, ChatCompletionRequest, Answer, new_request, is_same_call, find_call}
use orbi_inference.Chat.Acceptance.{Outcome, repeated, enqueued, accept-Outcome}
use orbi_inference.Gateway.{
  Step, accepts, claims, commits, errors, recovers, creates, elsewhere, Reach, here, next,
}
use orbi_inference.Gateway.Invariant.{IsSound}
use orbi_inference.Gateway.Soundness.{Enqueued-tables, Reach-IsSound}

-- The old rows, each related to what it was, and perhaps new rows behind them.
pub record Extends (R : OrbiRequest → OrbiRequest → Type 0) (a b : Db) : Type 0 where
  pub old : List OrbiRequest
  pub new : List OrbiRequest
  pub related : Related OrbiRequest.id R a.requests old
  pub all : b.requests ≡ old ++ new

rows-Extends :
    (R : OrbiRequest → OrbiRequest → Type 0) (a b : Db) → RowsRelated R a b → Extends R a b
rows-Extends R a b h = record {
  old = b.requests;
  new = [];
  related = h;
  all = sym (append-nil b.requests);
}

get-of_append :
    (k : ℕ) (t u : List OrbiRequest) (r : OrbiRequest)
    → get OrbiRequest.id k t ≡ some r
    → get OrbiRequest.id k (t ++ u) ≡ some r
unfolding get
get-of_append k [] u r h = absurd (none-ne_some h)
get-of_append k (x ∷ xs) u r h = ground (arith, get-of_append k xs u r)

first_where-of_append :
    (p : OrbiRequest → Bool) (t u : List OrbiRequest) (r : OrbiRequest)
    → first_where p t ≡ some r
    → first_where p (t ++ u) ≡ some r
first_where-of_append p [] u r h = absurd (none-ne_some h)
first_where-of_append p (x ∷ xs) u r h = ground (arith, first_where-of_append p xs u r)

first_where-Related :
    (R : OrbiRequest → OrbiRequest → Type 0) (p : OrbiRequest → Bool) (t u : List OrbiRequest)
    (r : OrbiRequest)
    → ((a b : OrbiRequest) → R a b → p b ≡ p a)
    → Related OrbiRequest.id R t u
    → first_where p t ≡ some r
    → (r' : OrbiRequest) × (first_where p u ≡ some r') × R r r'
first_where-Related R p [] u r keeps h g = absurd (none-ne_some g)
first_where-Related R p (x ∷ xs) [] r keeps h g = absurd h
first_where-Related R p (x ∷ xs) (y ∷ ys) r keeps h g = elim (Bool-cases (p x)) [
  | inl e ↦ (y, rw (keeps x y h.0, e), subst (λ (z : OrbiRequest). R z y) (some-eq (rw e at g)) h.0)
  | inr e ↦ rw (keeps x y h.0, e) (first_where-Related R p xs ys r keeps h.1 (rw e at g))
]

module _ (dump : ChatCompletionRequest → Json) where
  Outcome-Extends :
      (R : OrbiRequest → OrbiRequest → Type 0) (same : (r : OrbiRequest) → R r r) (new_id : ℕ)
      (clock : Clock) (api_key : ApiKey) (payload : ChatCompletionRequest) (key : Option Text)
      (a : Db) {answer : Answer} {b : Db}
      → Outcome dump new_id clock api_key payload key a answer b
      → Extends R a b
  Outcome-Extends R same new_id clock api_key payload key a (repeated x f e q) =
      rows-Extends R a _ (rw (q) (Related-refl OrbiRequest.id R same a.requests))
  Outcome-Extends R same new_id clock api_key payload key a {b = b} (enqueued f e q) = record {
    old = a.requests;
    new = new_request dump new_id clock api_key payload key q.alias q.project q.day q.month ∷ [];
    related = Related-refl OrbiRequest.id R same a.requests;
    all = (Enqueued-tables dump new_id clock api_key payload key a b q).0;
  }

  module _ (contained : Json → Json → Bool) where
    pub Step-Extends :
        {R : OrbiRequest → OrbiRequest → Type 0} (rules : RowRules R) {a b : Db}
        → IsSound a
        → Step contained dump a b
        → Extends R a b
    Step-Extends {R} rules {a} {b} s
          (accepts new_id clock api_key payload key answer fresh clocked valid h) =
        Outcome-Extends R rules.quiet.same new_id clock api_key payload key a
          (accept-Outcome dump new_id clock api_key payload key a h).2
    Step-Extends {R} rules {a} {b} s (claims locked now worker lease_seconds e) =
        rows-Extends R a b (
          subst (RowsRelated R a) (sym e)
            (claim_next-rows rules.quiet contained locked now worker lease_seconds a s.keyed))
    Step-Extends {R} rules {a} {b} s (commits request_id worker report now done e) =
        rows-Extends R a b (commit_result-rows rules request_id worker report now a e)
    Step-Extends {R} rules {a} {b} s (errors request_id worker retryable detail done e) =
        rows-Extends R a b (record_error-rows rules.quiet request_id worker retryable detail a e)
    Step-Extends {R} rules {a} {b} s (recovers now count e) =
        rows-Extends R a b (recover_expired_leases-rows rules.quiet now a e)
    Step-Extends {R} rules {a} {b} s (creates new_id today month payload answer fresh e) =
        rows-Extends R a b (
          subst (RowsRelated R a) (create_project-eq_ok new_id today month payload a e).1
            (Related-refl OrbiRequest.id R rules.quiet.same a.requests))
    Step-Extends {R} rules {a} {b} s (elsewhere requests projects usage) =
        rows-Extends R a b (rw requests (Related-refl OrbiRequest.id R rules.quiet.same a.requests))

    -- A stored request stays stored under its id, and moves by the rules.
    pub Reach-find_request :
        {R : OrbiRequest → OrbiRequest → Type 0} (rules : RowRules R)
        → ((x y : OrbiRequest) → R x y → y.id ≡ x.id)
        → (k : ℕ) (r : OrbiRequest) {a b : Db} → IsSound a
        → find_request k a ≡ some r
        → Reach contained dump a b
        → (r' : OrbiRequest) × (find_request k b ≡ some r') × R r r'
    Reach-find_request rules keeps k r s f here = (r, f, rules.quiet.same r)
    Reach-find_request {R} rules keeps k r {a} {b = c} s f (next {b} walk step) =
        let (x, found, moved) = Reach-find_request rules keeps k r {a = a} {b = b} s f walk in
        let e = Step-Extends rules (Reach-IsSound dump contained s walk) step in
        let (y, found', moved') =
          Related-get OrbiRequest.id R k b.requests e.old x keeps e.related found in
        (y, rw e.all (get-of_append k e.old e.new y found'), rules.quiet.chain r x y moved moved')

    -- The same for the search by an idempotency key.
    pub Reach-find_call :
        {R : OrbiRequest → OrbiRequest → Type 0} (rules : RowRules R) (api_key_id : ℕ) (key : Text)
        → ((x y : OrbiRequest)
            → R x y
            → is_same_call api_key_id key y ≡ is_same_call api_key_id key x)
        → (r : OrbiRequest) {a b : Db} → IsSound a
        → find_call api_key_id (some key) a.requests ≡ some r
        → Reach contained dump a b
        → (r' : OrbiRequest) × (find_call api_key_id (some key) b.requests ≡ some r') × R r r'
    Reach-find_call rules api_key_id key keeps r s f here = (r, f, rules.quiet.same r)
    Reach-find_call {R} rules api_key_id key keeps r {a} {b = c} s f (next {b} walk step) =
        let (x, found, moved) =
          Reach-find_call rules api_key_id key keeps r {a = a} {b = b} s f walk in
        let e = Step-Extends rules (Reach-IsSound dump contained s walk) step in
        let (y, found', moved') =
          first_where-Related R (is_same_call api_key_id key) b.requests e.old x keeps e.related
            found in
        (
          y,
          rw e.all (first_where-of_append (is_same_call api_key_id key) e.old e.new y found'),
          rules.quiet.chain r x y moved moved',
        )
