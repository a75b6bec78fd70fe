-- ===== src/Admin/Revocation.antt =====
-- What a revocation in routes/admin.py does to the credentials that dependencies.py tests.
use orbi_inference.Base.{
  ℕ, ◌≡◌, refl, sym, ap, subst, some-eq, ◌≢◌, List, ◌∙◌, Option, some, none-ne_some, arith,
}
use orbi_inference.Base.Table.{get, modify, get-replace_self, key-get, IsKeyed}
use orbi_inference.Base.Table.Related.{Related-IsKeyed, modify-Related}
use orbi_inference.Base.Table.Members.{IsKeyed-get}
use orbi_inference.Base.Text.{Text}
use orbi_inference.Base.Calendar.{Instant, Date, date_of}
use orbi_inference.Errors.{ok, err, ok-eq, or_raise, orbi, >>=-eq-ok}
use orbi_inference.Entities.{Worker, ApiKey, Db}
use orbi_inference.Chat.Acceptance.{or_raise-eq-ok}
use orbi_inference.Auth.Clients.{require_api_key-Authentic}
use orbi_inference.ApiKeys.{PasswordHasher}
use orbi_inference.RateLimit.{Counters}
use orbi_inference.WorkerTokens.{Claims}
use orbi_inference.Auth.{
  AuthClock, roll_requests, require_api_key, bearer, find_worker, require_worker,
}
use orbi_inference.WorkerRoutes.Tokens.{require_worker-verified, revoked_token}
use orbi_inference.Admin.{revoke_key, revoke_api_key, suspend, revoke_worker}

revoke_worker-stored :
    (worker_id : ℕ) (now : Instant) (a : Db) {b : Db}
    → revoke_worker worker_id now a ≡ ok b
    → (worker : Worker) × (worker.id ≡ worker_id)
      × (find_worker worker.id b ≡ some (suspend now worker))
unfolding revoke_worker
revoke_worker-stored worker_id now a {b} h =
    let (worker, f, saved) =
      >>=-eq-ok
        (or_raise (find_worker worker_id a) (orbi "worker_not_found" "Worker does not exist." 404))
        _ h in
    let found : find_worker worker_id a ≡ some worker =
      or_raise-eq-ok (find_worker worker_id a)
        (orbi "worker_not_found" "Worker does not exist." 404) f in
    let id : worker.id ≡ worker_id = key-get Worker.id worker_id a.workers found in
    (
      worker,
      id,
      subst (λ d. find_worker worker.id d ≡ some (suspend now worker)) (ok-eq saved)
          (get-replace_self Worker.id worker.id (suspend now worker) a.workers
            (subst (λ k. find_worker k a ≡ some worker) (sym id) found) refl),
    )

-- In the database that the revocation of a worker leaves, every token that names the worker is
-- refused, whenever it was issued.
pub revoke_worker-rejects :
    (worker_id : ℕ) (now : Instant) (a : Db) {b : Db} (check : Text → Option Claims)
    (authorization : Option Text) (token : Text) (claims : Claims)
    → revoke_worker worker_id now a ≡ ok b
    → bearer authorization ≡ some token
    → check token ≡ some claims
    → claims.sub ≡ some worker_id
    → require_worker check authorization b ≡ err revoked_token
revoke_worker-rejects worker_id now a {b} check authorization token claims h sent checked sub =
    let (worker, id, stored) = revoke_worker-stored worker_id now a {b = b} h in
    require_worker-verified check authorization b token claims (suspend now worker) sent checked
      (sub ∙ ap some (sym id)) stored

revoke_api_key-parts :
    (api_key_id : ℕ) (now : Instant) (a : Db) {b : Db}
    → revoke_api_key api_key_id now a ≡ ok b
    → (key : ApiKey) × (get ApiKey.id api_key_id a.api_keys ≡ some key)
      × (b.api_keys ≡ modify ApiKey.id api_key_id (λ _. revoke_key now key) a.api_keys)
unfolding revoke_api_key
revoke_api_key-parts api_key_id now a h =
    let (key, f, saved) =
      >>=-eq-ok
        (or_raise (get ApiKey.id api_key_id a.api_keys)
          (orbi "api_key_not_found" "API key does not exist." 404))
        _ h in
    (
      key,
      or_raise-eq-ok (get ApiKey.id api_key_id a.api_keys)
          (orbi "api_key_not_found" "API key does not exist." 404) f,
      sym (ap Db.api_keys (ok-eq saved)),
    )

roll_requests-id : (today : Date) (key : ApiKey) → (roll_requests today key).id ≡ key.id
roll_requests-id today key = ground arith

revoked-IsKeyed :
    (api_key_id : ℕ) (now : Instant) (key : ApiKey) (t : List ApiKey)
    → get ApiKey.id api_key_id t ≡ some key
    → IsKeyed ApiKey.id t
    → IsKeyed ApiKey.id (modify ApiKey.id api_key_id (λ _. revoke_key now key) t)
revoked-IsKeyed api_key_id now key t found keyed =
    Related-IsKeyed ApiKey.id (λ x y. y.id ≡ x.id) t _ (λ x y e. e)
      (modify-Related ApiKey.id (λ x y. y.id ≡ x.id) api_key_id (λ _. revoke_key now key) t
        (λ x. refl) (λ x g. ap ApiKey.id (some-eq (sym found ∙ g))))
      keyed

-- If the ids of API keys are unique, then once a key is revoked, a call that is let through acts
-- under another key.
pub revoke_api_key-rejects :
    {S : Type 0} (redis : Counters S) (api_key_id : ℕ) (now : Instant) (a : Db) {b : Db}
    (hasher : PasswordHasher) (pepper : Text) (clock : AuthClock) (authorization : Option Text)
    (s : S) {s' : S} {key' : ApiKey} {db' : Db}
    → IsKeyed ApiKey.id a.api_keys
    → revoke_api_key api_key_id now a ≡ ok b
    → require_api_key redis hasher pepper clock authorization b s ≡ (s', ok (key', db'))
    → key'.id ≢ api_key_id
revoke_api_key-rejects redis api_key_id now a {b} hasher pepper clock authorization s {key' = key'}
      keyed h passed same =
    let (revoked, found, after) = revoke_api_key-parts api_key_id now a {b = b} h in
    let (key, authentic, counted, date, used) =
      require_api_key-Authentic redis hasher pepper clock authorization b s passed in
    let id : key.id ≡ api_key_id =
      sym (ap ApiKey.id counted ∙ roll_requests-id (date_of clock.counting) key) ∙ same in
    let keyed' : IsKeyed ApiKey.id b.api_keys =
      subst (IsKeyed ApiKey.id) (sym after)
        (revoked-IsKeyed api_key_id now revoked a.api_keys found keyed) in
    let stored : get ApiKey.id api_key_id b.api_keys ≡ some key =
      subst (λ k. get ApiKey.id k b.api_keys ≡ some key) id
        (IsKeyed-get ApiKey.id key b.api_keys keyed' authentic.stored) in
    let written : get ApiKey.id api_key_id b.api_keys ≡ some (revoke_key now revoked) =
      subst (λ t. get ApiKey.id api_key_id t ≡ some (revoke_key now revoked)) (sym after)
        (get-replace_self ApiKey.id api_key_id (revoke_key now revoked) a.api_keys found
          (key-get ApiKey.id api_key_id a.api_keys found)) in
    none-ne_some (sym authentic.unrevoked ∙ ap ApiKey.revoked_at (some-eq (sym stored ∙ written)))
