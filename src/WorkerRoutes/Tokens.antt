-- ===== src/WorkerRoutes/Tokens.antt =====
-- Which tokens `require_worker` of dependencies.py accepts after the routes of
-- routes/internal/workers.py have issued and replaced them.
use orbi_inference.Base.{
  arith, ℕ, ◌+◌, ◌≤◌, ◌<◌, ◌≡◌, refl, ap, ◌∙◌, Bool, ◌&&◌, Option, none, some, if◌then◌else◌,
  is_none, Bool-cases, inl, inr, ==_iff,
}
use orbi_inference.Base.Table.{get-replace_self}
use orbi_inference.Base.Table.Members.{get-append}
use orbi_inference.Base.Text.{Text}
use orbi_inference.Base.Text.Chars.{text_eq, text_eq_refl}
use orbi_inference.Base.Calendar.{Instant, seconds}
use orbi_inference.Errors.{Exception, ok, err, orbi}
use orbi_inference.Entities.{Worker, Db}
use orbi_inference.ApiKeys.{PasswordHasher}
use orbi_inference.WorkerTokens.{
  Claims, WorkerJwtService, whole_second, in_whole_seconds, worker_claims, issue, verify,
}
use orbi_inference.Auth.{bearer, find_worker, jti_eq, require_worker}
use orbi_inference.WorkerRoutes.Enrollment.{register_worker-parts}
use orbi_inference.WorkerRoutes.{
  WorkerRegisterRequest, WorkerTokenResponse, new_worker, Fresh, register_worker, save_worker,
  renew_worker_token,
}

abbrev pub revoked_token : Exception
revoked_token = orbi "invalid_worker_token" "Worker token is invalid or revoked." 401

-- The token is the current one of the worker, who is not revoked.
abbrev pub is_current : Claims → Worker → Bool
is_current claims worker = is_none worker.revoked_at && jti_eq worker.token_jti claims.jti

-- What `require_worker` answers to a token that the library accepts.
pub require_worker-verified :
    (check : Text → Option Claims) (authorization : Option Text) (db : Db) (token : Text)
    (claims : Claims) (worker : Worker)
    → bearer authorization ≡ some token
    → check token ≡ some claims
    → claims.sub ≡ some worker.id
    → find_worker worker.id db ≡ some worker
    → require_worker check authorization db
      ≡ (if is_current claims worker then ok (worker, claims) else err revoked_token)
unfolding require_worker
require_worker-verified check authorization db token claims worker b v s f =
    elim (Bool-cases (is_none worker.revoked_at)) [
      | inl r ↦ elim (Bool-cases (jti_eq worker.token_jti claims.jti)) [
        | inl j ↦ rw (b, v, s, f, r, j) refl
        | inr j ↦ rw (b, v, s, f, r, j) refl
      ]
      | inr r ↦ rw (b, v, s, f, r) refl
    ]

verify-issued :
    (service : WorkerJwtService) (worker_id : ℕ) (jti : Text) (issued now : Instant)
    → issued ≤ now
    → now < whole_second issued + seconds service.ttl
    → verify service now (issue service worker_id jti issued).0
      ≡ some (in_whole_seconds (worker_claims service worker_id jti issued))
unfolding verify issue
verify-issued service worker_id jti issued now early late =
    let started : whole_second issued ≤ now = omega (arith, early) in
    let valid : now < whole_second (issued + seconds service.ttl) = omega (arith, late) in
    service.jwt.decode-encode (worker_claims service worker_id jti issued) now refl started started
      valid

-- After a stored worker that is not revoked has renewed its token, a valid token that names it is
-- accepted exactly if its id is the new one; any other is refused.
pub renew_worker_token-replaces :
    (service : WorkerJwtService) (worker : Worker) (jti : Text) (issued now : Instant) (db : Db)
    (authorization : Option Text) (token : Text) (claims : Claims)
    → find_worker worker.id db ≡ some worker
    → worker.revoked_at ≡ none
    → bearer authorization ≡ some token
    → verify service now token ≡ some claims
    → claims.sub ≡ some worker.id
    → require_worker
        (verify service now)
        authorization
        (renew_worker_token service worker jti issued db).1
      ≡ (if text_eq jti claims.jti
          then ok (record worker { token_jti = some jti }, claims)
          else err revoked_token)
unfolding renew_worker_token
renew_worker_token-replaces service worker jti issued now db authorization token claims f r b v s =
    let renewed : Worker = record worker { token_jti = some jti } in
    let stored : find_worker worker.id (save_worker renewed db) ≡ some renewed =
      get-replace_self Worker.id worker.id renewed db.workers f refl in
    require_worker-verified (verify service now) authorization (save_worker renewed db) token claims
      renewed b v s stored
    ∙ ap
        (λ x.
          if is_none x && text_eq jti claims.jti then ok (renewed, claims) else err revoked_token)
        r

-- If a worker has registered under an id that was not in use, the token that it was sent
-- authenticates it, as the worker that it has described, from the time it was issued until its
-- lifetime is over, which counts from the start of the second of its issue; its claims have their
-- times in whole seconds.
pub register_worker-authenticates :
    (hasher : PasswordHasher) (pepper : Text) (service : WorkerJwtService) (fresh : Fresh)
    (payload : WorkerRegisterRequest) (a : Db) {response : WorkerTokenResponse} {b : Db}
    (authorization : Option Text) (now : Instant)
    → find_worker fresh.worker_id a ≡ none
    → register_worker hasher pepper service fresh payload a ≡ ok (response, b)
    → bearer authorization ≡ some response.access_token
    → fresh.issuing ≤ now
    → now < whole_second fresh.issuing + seconds service.ttl
    → require_worker (verify service now) authorization b
      ≡ ok (
        new_worker fresh.worker_id fresh.jti fresh.now payload,
        in_whole_seconds (worker_claims service fresh.worker_id fresh.jti fresh.issuing),
      )
register_worker-authenticates hasher pepper service fresh payload a {response} {b} authorization now
      unknown h sent early late =
    let worker : Worker = new_worker fresh.worker_id fresh.jti fresh.now payload in
    let claims : Claims =
      in_whole_seconds (worker_claims service fresh.worker_id fresh.jti fresh.issuing) in
    let (parts, row, p, f, usable, after, workers, answered) =
      register_worker-parts hasher pepper service fresh payload a {db' = b} h in
    let access = ap WorkerTokenResponse.access_token answered in
    let stored : find_worker fresh.worker_id b ≡ some worker =
      rw (workers, get-append Worker.id fresh.worker_id worker a.workers, unknown)
        (rw ((==_iff fresh.worker_id fresh.worker_id).1 refl) refl) in
    let verified : verify service now response.access_token ≡ some claims =
      rw access (verify-issued service fresh.worker_id fresh.jti fresh.issuing now early late) in
    require_worker-verified (verify service now) authorization b response.access_token claims worker
      sent verified refl stored
    ∙ rw (text_eq_refl fresh.jti) refl
