-- ===== src/Routes/Steps.antt =====
-- Whatever a request is answered, its transaction is a run of the gateway's state machine: the routes
-- of apps/gateway/src/orbi_gateway with their dependencies, over database.py.
use orbi_inference.Schemas.{is_valid_enrollment, is_valid_project, is_valid_alias}
use orbi_inference.Routes.{key_created, alias_created, project_created, enrollment_created}
use orbi_inference.Base.{ℕ, ◌≡◌, refl, sym, subst, ap, ◌∙◌, Option, none, Bool-cases, inl, inr}
use orbi_inference.Base.Table.{get}
use orbi_inference.Base.Text.{Text}
use orbi_inference.Errors.{
  err, Exception, Exception, ok, ◌>>=◌, ◌>>◌, >>=-eq-ok, ok-eq, ok-ne_err, Result-cases,
}
use orbi_inference.Entities.{Project, ApiKey, OrbiRequest, Db}
use orbi_inference.Budget.{find_project}
use orbi_inference.Chat.{ChatCompletionRequest, Clock, accept}
use orbi_inference.Chat.Charges.{Advances}
use orbi_inference.Schemas.{validated, is_valid_chat}
use orbi_inference.Routes.{
  Call, Reply, Services, as_reply, chat, get_models, get_request, get_usage, no_content,
  post_api_key_revoke, post_api_keys, post_chat_completions, post_error, post_heartbeat,
  post_model_aliases, post_projects, post_register, post_renew, post_result,
  post_worker_enrollments, post_worker_revoke, pulled, token, usage_of_key,
}
use orbi_inference.Routes.Dispatch.{route, serve}
use orbi_inference.Routes.Frames.{
  SameTables, register_worker-SameTables, create_api_key-SameTables, create_model_alias-SameTables,
  revoke_api_key-SameTables, revoke_worker-SameTables,
}
use orbi_inference.Admin.{create_worker_enrollment}
use orbi_inference.WorkerRoutes.{heartbeat}
use orbi_inference.Schemas.{is_valid_api_key}
use orbi_inference.Schemas.{is_valid_error}
use orbi_inference.Schemas.{is_valid_heartbeat}
use orbi_inference.Schemas.{is_valid_registration}
use orbi_inference.WorkerRoutes.{pull_request}
use orbi_inference.WorkerRoutes.{renew_worker_token}
use orbi_inference.Gateway.{Step, accepts, creates, Reach, here, next}
use orbi_inference.Routes.Leads.{
  Leads, reply-Leads, same_walk, pull_walk, renew_walk, heartbeat_step, enrollment_walk,
  result_walk, error_walk, with_key-Leads, value-Leads, quiet-Leads, checked-Leads, walk-Leads,
  worker-Leads, admin-Leads,
}

-- What is not up to the gateway: that the ids it draws are new, and that the clock does not run back
-- over midnight.
abbrev pub IsPossible : Call → Db → Type 0
IsPossible (post_chat_completions authorization checking new_id clock payload key) db =
    (get OrbiRequest.id new_id db.requests ≡ none) × ((pid : ℕ) → Advances clock.reserving pid db)
IsPossible (post_projects authorization new_id today month payload) db =
    find_project new_id db ≡ none
IsPossible _ db = Unit

module _ {S : Type 0} (services : Services S) where
  chat-Step :
      (new_id : ℕ) (clock : Clock) (payload : ChatCompletionRequest) (key : Option Text)
      (api_key : ApiKey) (db counted : Db) (same : SameTables db counted)
      → get OrbiRequest.id new_id db.requests ≡ none
      → ((pid : ℕ) → Advances clock.reserving pid db)
      → (reply : Reply) (b : Db)
      → (validated (is_valid_chat payload)
          >> (accept services.dump new_id clock api_key payload key counted >>= as_reply chat))
        ≡ ok (reply, b)
      → Step services.contained services.dump counted b
  chat-Step new_id clock payload key api_key db counted same fresh clocked reply b e =
      elim (Bool-cases (is_valid_chat payload)) [
        | inr f ↦ absurd (ok-ne_err (sym (rw f at e)))
        | inl valid ↦
            let ((answer, after), done, rest) =
              >>=-eq-ok (accept services.dump new_id clock api_key payload key counted) _
                (rw valid at e) in
            subst (Step services.contained services.dump counted) (ap (λ p. p.1) (ok-eq rest)) (
              accepts new_id clock api_key payload key answer
                (ap (get OrbiRequest.id new_id) same.requests ∙ fresh)
                (λ p found.
                  clocked api_key.project_id p
                    (sym (ap (get Project.id api_key.project_id) same.projects) ∙ found))
                valid done)
      ]

  route-Leads :
      (call : Call) (db : Db) (s : S)
      → IsPossible call db
      → Leads services db (route services call db s).1
  route-Leads (post_chat_completions authorization checking new_id clock payload key) db s p =
      with_key-Leads services "chat" authorization checking _ db s
        (λ api_key counted same reply b e.
          inr (chat-Step new_id clock payload key api_key db counted same p.0 p.1 reply b e))
  route-Leads (get_models authorization checking) db s p =
      with_key-Leads services "models:read" authorization checking _ db s
        (λ api_key counted same reply b e. inl (ap (λ x. x.1) (ok-eq e)))
  route-Leads (get_usage authorization checking) db s p =
      with_key-Leads services "usage:read" authorization checking _ db s
        (λ api_key counted same reply b e.
          let (_, _, rest) = >>=-eq-ok (usage_of_key api_key counted) _ e in
          inl (ap (λ x. x.1) (ok-eq rest)))
  route-Leads (post_register fresh payload) db s p =
      checked-Leads services db (is_valid_registration payload) _ (λ _.
        value-Leads services db token _ (λ answer b e. same_walk services (
          register_worker-SameTables services.enrollment_hasher services.enrollment_pepper
            services.jwt fresh payload db e)))
  route-Leads (post_heartbeat authorization checking now payload) db s p =
      worker-Leads services "worker:heartbeat" authorization checking _ db (λ worker.
        checked-Leads services db (is_valid_heartbeat payload) _ (λ _.
          reply-Leads services db (λ (_ : Unit {0}). no_content) tt
            (heartbeat payload worker now db)
            (next here (heartbeat_step services payload worker now db))))
  route-Leads (get_request authorization checking locked now) db s p =
      worker-Leads services "worker:pull" authorization checking _ db (λ worker.
        walk-Leads services db pulled
          (pull_request services.contained locked now worker services.worker_lease_seconds db)
          (pull_walk services locked now worker db))
  route-Leads (post_result authorization checking now request_id report) db s p =
      worker-Leads services "worker:result" authorization checking _ db (λ worker.
        quiet-Leads services db _ (λ b e. result_walk services request_id worker report now db e))
  route-Leads (post_renew authorization checking now jti) db s p =
      worker-Leads services "worker:renew" authorization checking _ db (λ worker.
        walk-Leads services db token (renew_worker_token services.jwt worker jti now db)
          (renew_walk services worker jti now db))
  route-Leads (post_error authorization checking request_id retryable detail) db s p =
      worker-Leads services "worker:error" authorization checking _ db (λ worker.
        checked-Leads services db (is_valid_error detail) _ (λ _.
          quiet-Leads services db _
            (λ b e. error_walk services request_id worker retryable detail db e)))
  route-Leads (post_api_keys authorization random new_id today payload) db s p =
      admin-Leads services authorization _ db (
        checked-Leads services db (is_valid_api_key payload) _ (λ _.
          value-Leads services db key_created _ (λ answer b e. same_walk services (
            create_api_key-SameTables services.api_hasher services.api_key_pepper random new_id
              today payload db e))))
  route-Leads (post_worker_enrollments authorization random new_id now expires_in_seconds) db s p =
      admin-Leads services authorization _ db (
        checked-Leads services db (is_valid_enrollment expires_in_seconds) _ (λ _.
          walk-Leads services db enrollment_created
            (create_worker_enrollment services.enrollment_hasher services.enrollment_pepper random
              new_id now expires_in_seconds db)
            (enrollment_walk services random new_id now expires_in_seconds db)))
  route-Leads (post_projects authorization new_id today month payload) db s p =
      admin-Leads services authorization _ db (
        checked-Leads services db (is_valid_project payload) _ (λ _.
          value-Leads services db project_created _
            (λ answer b e. next here (creates new_id today month payload answer p e))))
  route-Leads (post_model_aliases authorization payload) db s p =
      admin-Leads services authorization _ db (
        checked-Leads services db (is_valid_alias payload) _ (λ _.
          value-Leads services db alias_created _
            (λ answer b e. same_walk services (create_model_alias-SameTables payload db e))))
  route-Leads (post_api_key_revoke authorization api_key_id now) db s p =
      admin-Leads services authorization _ db (
        quiet-Leads services db _
          (λ b e. same_walk services (revoke_api_key-SameTables api_key_id now db e)))
  route-Leads (post_worker_revoke authorization worker_id now) db s p =
      admin-Leads services authorization _ db (
        quiet-Leads services db _
          (λ b e. same_walk services (revoke_worker-SameTables worker_id now db e)))

  -- Whatever a request asks and however it is answered, its transaction with all dependencies is a run
  -- of the state machine, if the ids that it draws are new and the clock does not run back over
  -- midnight; a request that is refused leaves the database as it is.
  pub serve-Reach :
      (call : Call) (db : Db) (s : S)
      → IsPossible call db
      → Reach services.contained services.dump db (serve services call db s).1
        × ((e : Exception)
            → (serve services call db s).0 ≡ err e
            → (serve services call db s).1 ≡ db)
  unfolding serve
  serve-Reach call db s p = elim (Result-cases (route services call db s).1) [
    | inl ((reply, after), e) ↦
        rw e (route-Leads call db s p reply after e, λ exc refused. absurd (ok-ne_err refused))
    | inr (_, e) ↦ rw e (here, λ exc refused. refl)
  ]
