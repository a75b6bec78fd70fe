-- ===== src/Routes/Dispatch.antt =====
-- What each route does: its dependencies, the check of its body, and its handler
-- (routes/chat.py, routes/models.py, routes/usage.py, routes/admin.py, routes/internal/workers.py and
-- database.py of apps/gateway/src/orbi_gateway).
use orbi_inference.Errors.{Result, ok, ◌>>=◌, ◌>>◌}
use orbi_inference.Entities.{Db}
use orbi_inference.Chat.{accept}
use orbi_inference.WorkerRoutes.{
  register_worker, heartbeat, pull_request, submit_result, renew_worker_token, submit_error,
}
use orbi_inference.Admin.{
  create_api_key, create_worker_enrollment, create_project, create_model_alias, revoke_api_key,
  revoke_worker,
}
use orbi_inference.Schemas.{
  validated, is_valid_chat, is_valid_api_key, is_valid_enrollment, is_valid_registration,
  is_valid_heartbeat, is_valid_error, is_valid_project, is_valid_alias,
}
use orbi_inference.Routes.{
  Services, Reply, chat, models, usage, token, pulled, key_created, enrollment_created,
  project_created, alias_created, no_content, Call, post_chat_completions, get_models, get_usage,
  post_register, post_heartbeat, get_request, post_result, post_renew, post_error, post_api_keys,
  post_worker_enrollments, post_projects, post_model_aliases, post_api_key_revoke,
  post_worker_revoke, list_models, usage_of_key, as_reply, session, with_key, with_worker,
  with_admin,
}

abbrev pub quietly : Db → Result (Reply × Db)
quietly db = ok (no_content, db)

module _ {S : Type 0} (services : Services S) where
  -- The handler that a request reaches, behind the dependencies of its route.
  abbrev pub route : Call → Db → S → S × Result (Reply × Db)
  route (post_chat_completions authorization checking new_id clock payload key) db s =
      with_key services "chat" authorization checking
        (λ api_key counted.
          validated (is_valid_chat payload)
          >> (accept services.dump new_id clock api_key payload key counted >>= as_reply chat))
        db s
  route (get_models authorization checking) db s =
      with_key services "models:read" authorization checking
        (λ api_key counted. ok (models (list_models counted), counted)) db s
  route (get_usage authorization checking) db s =
      with_key services "usage:read" authorization checking
        (λ api_key counted. usage_of_key api_key counted >>= λ found. ok (usage found, counted)) db
        s
  route (post_register fresh payload) db s = (
    s,
    validated (is_valid_registration payload)
        >> (register_worker services.enrollment_hasher services.enrollment_pepper services.jwt fresh
              payload db
            >>= as_reply token),
  )
  route (post_heartbeat authorization checking now payload) db s = (
    s,
    with_worker services "worker:heartbeat" authorization checking
        (λ worker.
          validated (is_valid_heartbeat payload) >> quietly (heartbeat payload worker now db))
        db,
  )
  route (get_request authorization checking locked now) db s = (
    s,
    with_worker services "worker:pull" authorization checking
        (λ worker.
          as_reply pulled
            (pull_request services.contained locked now worker services.worker_lease_seconds db))
        db,
  )
  route (post_result authorization checking now request_id report) db s = (
    s,
    with_worker services "worker:result" authorization checking
        (λ worker. submit_result request_id worker report now db >>= quietly) db,
  )
  route (post_renew authorization checking now jti) db s = (
    s,
    with_worker services "worker:renew" authorization checking
        (λ worker. as_reply token (renew_worker_token services.jwt worker jti now db)) db,
  )
  route (post_error authorization checking request_id retryable detail) db s = (
    s,
    with_worker services "worker:error" authorization checking
        (λ worker.
          validated (is_valid_error detail)
          >> (submit_error request_id worker retryable detail db >>= quietly))
        db,
  )
  route (post_api_keys authorization random new_id today payload) db s = (
    s,
    with_admin services authorization (
        validated (is_valid_api_key payload)
        >> (create_api_key services.api_hasher services.api_key_pepper random new_id today payload
              db
            >>= as_reply key_created)),
  )
  route (post_worker_enrollments authorization random new_id now expires_in_seconds) db s = (
    s,
    with_admin services authorization (
        validated (is_valid_enrollment expires_in_seconds)
        >> as_reply enrollment_created (
            create_worker_enrollment services.enrollment_hasher services.enrollment_pepper random
              new_id now expires_in_seconds db)),
  )
  route (post_projects authorization new_id today month payload) db s = (
    s,
    with_admin services authorization (
        validated (is_valid_project payload)
        >> (create_project new_id today month payload db >>= as_reply project_created)),
  )
  route (post_model_aliases authorization payload) db s = (
    s,
    with_admin services authorization (
        validated (is_valid_alias payload)
        >> (create_model_alias payload db >>= as_reply alias_created)),
  )
  route (post_api_key_revoke authorization api_key_id now) db s =
      (s, with_admin services authorization (revoke_api_key api_key_id now db >>= quietly))
  route (post_worker_revoke authorization worker_id now) db s =
      (s, with_admin services authorization (revoke_worker worker_id now db >>= quietly))

  -- A request from its arrival to its answer: what is answered, the database, and Redis.
  unfoldable pub serve : Call → Db → S → Result Reply × Db × S
  serve call db s =
      let (s', result) = route call db s in
      let (reply, after) = session db result in (reply, after, s')
