-- ===== src/Queue/Claim.antt =====
-- `QueueService.claim_next` of apps/gateway/src/orbi_gateway/services/queue.py.
use orbi_inference.Base.{
  ℕ, ◌+◌, Bool, ◌&&◌, ◌||◌, Option, none, some, List, [], ◌∷◌, ltb, leb, ◌==◌, if◌then◌else◌, is_in,
  is_in_ids, keep, not,
}
use orbi_inference.Base.Table.{modify}
use orbi_inference.Base.Json.{Json}
use orbi_inference.Base.Calendar.{Instant, seconds}
use orbi_inference.Entities.{Worker, OrbiRequest, Db}
use orbi_inference.Entities.Status.{RequestStatus, is_queued}

-- `.order_by(priority.asc(), created_at.asc())`: the first argument comes no later than the second.
abbrev pub comes_first : OrbiRequest → OrbiRequest → Bool
comes_first a b =
    ltb a.priority b.priority || (a.priority == b.priority && leb a.created_at b.created_at)

-- `.limit(1)` of the ordered rows. Of rows that tie SQL may return any; this takes the earliest.
abbrev pub first_of : OrbiRequest → Option OrbiRequest → OrbiRequest
first_of r none = r
first_of r (some best) = if comes_first r best then r else best

unfoldable pub first_row : List OrbiRequest → Option OrbiRequest
first_row [] = none
first_row (r ∷ rs) = some (first_of r (first_row rs))

-- PostgreSQL's `<@` on JSONB is not of this repository: `contained` stands for it.
module _ (contained : Json → Json → Bool) where
  -- The `where` of `claim_next`.
  abbrev pub is_claimable : Instant → Worker → OrbiRequest → Bool
  is_claimable now worker request =
      is_queued request.status
      && ltb now request.expires_at
      && contained request.required_capabilities worker.capabilities
      && (is_in request.resolved_model worker.supported_models
          || is_in request.model_alias worker.supported_models)

  -- `skip_locked`: `locked` holds the requests whose rows another transaction has locked.
  abbrev pub is_free : List ℕ → OrbiRequest → Bool
  is_free locked request = not (is_in_ids request.id locked)

  abbrev pub candidates : List ℕ → Instant → Worker → Db → List OrbiRequest
  candidates locked now worker db =
      keep (λ r. is_claimable now worker r && is_free locked r) db.requests

-- The assignments of `claim_next` to the row that it found.
abbrev pub assign : ℕ → Instant → OrbiRequest → OrbiRequest
assign worker_id lease_expires request = record request {
  status = RequestStatus.assigned;
  assigned_to = some worker_id;
  lease_expires = some lease_expires;
}

-- What `claim_next` does with the row that its statement returned.
abbrev pub claim_row : ℕ → Instant → Db → Option OrbiRequest → Option OrbiRequest × Db
claim_row worker_id lease_expires db none = (none, db)
claim_row worker_id lease_expires db (some request) = (
  some (assign worker_id lease_expires request),
  record db {
    requests =
        modify OrbiRequest.id request.id (λ _. assign worker_id lease_expires request) db.requests;
  },
)

-- `QueueService.claim_next`
unfoldable pub claim_next :
    (Json → Json → Bool) → List ℕ → Instant → Worker → ℕ → Db → Option OrbiRequest × Db
claim_next contained locked now worker lease_seconds db =
    claim_row worker.id (now + seconds lease_seconds) db
      (first_row (candidates contained locked now worker db))
