-- ===== src/Tests/Enrollment.antt =====
-- The theorems on workers' credentials, at a worker that enrolls, renews its token, and is revoked.
use orbi_inference.Base.{◌+◌, ◌≡◌, refl, Option, some, [], ◌∷◌, ◌++◌, arith}
use orbi_inference.Base.Table.{get, modify}
use orbi_inference.Base.Text.{Text, codes}
use orbi_inference.Errors.{Result, ok, err}
use orbi_inference.Entities.{Worker, Db}
use orbi_inference.WorkerTokens.{
  in_whole_seconds, Claims, worker_claims, issue, verify, generate_enrollment, parse_and_verify,
}
use orbi_inference.Auth.{require_worker, bearer, find_worker}
use orbi_inference.WorkerRoutes.{
  WorkerRegisterRequest, WorkerTokenResponse, Fresh, new_worker, register_worker,
  renew_worker_token, spent_enrollment_token, save_worker,
}
use orbi_inference.WorkerRoutes.Enrollment.{register_worker-once}
use orbi_inference.WorkerRoutes.Tokens.{
  renew_worker_token-replaces, register_worker-authenticates, revoked_token,
}
use orbi_inference.Admin.{create_worker_enrollment, revoke_worker, suspend}
use orbi_inference.Admin.Revocation.{revoke_worker-rejects}
use orbi_inference.Tests.{noon, no_json, empty_db}
use orbi_inference.Tests.Servers.{plain_hasher, jwt_service}

abbrev public_id : Text
public_id = codes "abcdefghijkl"

abbrev secret : Text
secret = codes "ABCDEFGHIJKLMNOPQRSTUVWXYZ0123456789-_abcde"

abbrev pepper : Text
pepper = codes "p"

abbrev enrollment_db : Db
enrollment_db =
    (create_worker_enrollment plain_hasher pepper
      (record { public_id = public_id; secret = secret; salt = [] }) 1 noon 900 empty_db).1

abbrev registration : WorkerRegisterRequest
registration = record {
  enrollment_token = codes "orbi_node_v1_" ++ (public_id ++ (codes "_" ++ secret));
  provider_type = "local";
  name = "w";
  supported_models = "llama-3-8b" ∷ [];
  capabilities = no_json;
}

abbrev fresh : Fresh
fresh = record { worker_id = 40; jti = codes "j1"; now = noon; issuing = noon }

abbrev enrolled : Worker
enrolled = new_worker 40 (codes "j1") noon registration

abbrev first_token : Text
first_token = (issue jwt_service 40 (codes "j1") noon).0

abbrev response : WorkerTokenResponse
response = record { worker_id = 40; access_token = first_token; expires_in = 3600 }

abbrev db_of_registration : Result (WorkerTokenResponse × Db) → Db
db_of_registration (ok (r, db)) = db
db_of_registration (err e) = empty_db

abbrev enrolled_db : Db
enrolled_db =
    db_of_registration
      (register_worker plain_hasher pepper jwt_service fresh registration enrollment_db)

registration_runs :
    register_worker plain_hasher pepper jwt_service fresh registration enrollment_db
    ≡ ok (response, enrolled_db)
unfolding register_worker parse_and_verify create_worker_enrollment generate_enrollment issue modify
registration_runs = refl

register_worker-once_example :
    register_worker plain_hasher pepper jwt_service
      (record { worker_id = 41; jti = codes "j2"; now = noon; issuing = noon })
      registration
      enrolled_db
    ≡ err spent_enrollment_token
unfolding create_worker_enrollment generate_enrollment get
register_worker-once_example =
    register_worker-once plain_hasher pepper jwt_service fresh
      (record { worker_id = 41; jti = codes "j2"; now = noon; issuing = noon }) registration
      registration enrollment_db enrolled_db enrolled_db (refl, tt) registration_runs refl refl

abbrev header : Option Text
header = some (codes "Bearer " ++ first_token)

register_worker-authenticates_example :
    require_worker (verify jwt_service (noon + 5)) header enrolled_db
    ≡ ok (enrolled, in_whole_seconds (worker_claims jwt_service 40 (codes "j1") noon))
unfolding create_worker_enrollment generate_enrollment get issue
register_worker-authenticates_example =
    register_worker-authenticates plain_hasher pepper jwt_service fresh registration enrollment_db
      header (noon + 5) refl registration_runs refl (omega arith) (omega arith)

abbrev first_claims : Claims
first_claims = worker_claims jwt_service 40 (codes "j1") noon

enrolled_stored : find_worker 40 enrolled_db ≡ some enrolled
unfolding register_worker parse_and_verify create_worker_enrollment generate_enrollment issue modify
    get
enrolled_stored = refl

first_verified : verify jwt_service (noon + 5) first_token ≡ some first_claims
unfolding verify issue
first_verified = refl

first_sent : bearer header ≡ some first_token
unfolding issue
first_sent = refl

-- The first token after the worker has renewed it.
renew_worker_token-replaces_example :
    require_worker
      (verify jwt_service (noon + 5))
      header
      (renew_worker_token jwt_service enrolled (codes "j2") noon enrolled_db).1
    ≡ err revoked_token
renew_worker_token-replaces_example =
    renew_worker_token-replaces jwt_service enrolled (codes "j2") noon (noon + 5) enrolled_db header
      first_token first_claims enrolled_stored refl first_sent first_verified refl

abbrev suspended_db : Db
suspended_db = save_worker (suspend noon enrolled) enrolled_db

revocation_runs : revoke_worker 40 noon enrolled_db ≡ ok suspended_db
unfolding revoke_worker register_worker parse_and_verify create_worker_enrollment
    generate_enrollment issue modify get
revocation_runs = refl

revoke_worker-rejects_example :
    require_worker (verify jwt_service (noon + 5)) header suspended_db ≡ err revoked_token
revoke_worker-rejects_example =
    revoke_worker-rejects 40 noon enrolled_db (verify jwt_service (noon + 5)) header first_token
      first_claims revocation_runs first_sent first_verified refl
