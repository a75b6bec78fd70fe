-- ===== src/Tests/Security.antt =====
-- The theorems on credentials, at a generated API key and an enrolled worker.
use orbi_inference.Base.{ℕ, ◌≤◌, ◌≡◌, ◌↔◌, ◌≢◌, refl, true, Option, some, [], ◌∷◌, ◌++◌}
use orbi_inference.Base.Table.{get, modify}
use orbi_inference.Base.Text.{Text, codes}
use orbi_inference.Base.Calendar.{date_of}
use orbi_inference.Errors.{ok}
use orbi_inference.Entities.{ApiKey, Db}
use orbi_inference.ApiKeys.{GeneratedApiKey, generate, parse, verify_secret}
use orbi_inference.ApiKeys.Formats.{IsToken, IsKeyOf, parse_exact, generate-parse}
use orbi_inference.RateLimit.{allow_minute}
use orbi_inference.WorkerTokens.{
  generate_enrollment, parse_and_verify, generate_enrollment-parse_and_verify,
}
use orbi_inference.Auth.{AuthClock, authenticate, count_request, roll_requests, require_api_key}
use orbi_inference.Auth.Clients.{Authentic, require_api_key-Authentic}
use orbi_inference.Admin.{revoke_api_key}
use orbi_inference.Admin.Revocation.{revoke_api_key-rejects}
use orbi_inference.Tests.{noon, api_key, empty_db}
use orbi_inference.Tests.Servers.{plain_hasher, plain_counters, no_counts}

abbrev pub public_id : Text
public_id = codes "abcdefghijkl"

abbrev pub secret : Text
secret = codes "ABCDEFGHIJKLMNOPQRSTUVWXYZ0123456789-_abcde"

abbrev pub pepper : Text
pepper = codes "p"

abbrev live : Text
live = codes "live"

abbrev raw_key : Text
raw_key = codes "orbi_live_v1_abcdefghijkl_ABCDEFGHIJKLMNOPQRSTUVWXYZ0123456789-_abcde"

pub public_id-IsToken : IsToken 12 public_id
public_id-IsToken = record { size = refl; urlsafe = refl }

pub secret-IsToken : IsToken 43 secret
secret-IsToken = record { size = refl; urlsafe = refl }

parse_exact_example :
    (parse raw_key ≡ some (live, public_id, secret)) ↔ IsKeyOf raw_key (live, public_id, secret)
parse_exact_example = parse_exact raw_key live public_id secret

abbrev stored_hash : Text
stored_hash = secret ++ codes ":p"

abbrev generated : GeneratedApiKey
generated = record {
  raw_key = raw_key;
  key_id = public_id;
  display_prefix = codes "orbi_live_v1_abcdefghijkl";
  secret_hash = stored_hash;
  environment = live;
}

generate_runs : generate plain_hasher pepper public_id secret [] live ≡ ok generated
unfolding generate
generate_runs = refl

generate-parse_example :
    (parse raw_key ≡ some (live, public_id, secret))
    × (verify_secret plain_hasher pepper secret stored_hash ≡ true)
generate-parse_example =
    generate-parse plain_hasher pepper public_id secret [] live generate_runs public_id-IsToken
      secret-IsToken

generate_enrollment-parse_and_verify_example :
    parse_and_verify plain_hasher pepper
      (generate_enrollment plain_hasher pepper public_id secret []).raw_token
      (generate_enrollment plain_hasher pepper public_id secret []).secret_hash
    ≡ some public_id
generate_enrollment-parse_and_verify_example =
    generate_enrollment-parse_and_verify plain_hasher pepper public_id secret [] public_id-IsToken
      secret-IsToken

-- The sample key with the hash of the generated secret, and another key of the project.
abbrev client : ApiKey
client = record api_key { secret_hash = stored_hash }

abbrev other : ApiKey
other = record api_key { id = 4; key_id = codes "other-key-id" }

abbrev pub keyed_db : Db
keyed_db = record empty_db { api_keys = client ∷ other ∷ [] }

abbrev pub auth_clock : AuthClock
auth_clock = record { checking = noon; counting = noon; limiting = noon }

abbrev pub header : Option Text
header = some (codes "Bearer " ++ raw_key)

abbrev used : ApiKey
used = count_request noon client

abbrev counted : Text → ℕ → ℕ
counted = (allow_minute plain_counters public_id 60 noon no_counts).1

abbrev counted_db : Db
counted_db = record empty_db { api_keys = used ∷ other ∷ [] }

client_passes :
    require_api_key plain_counters plain_hasher pepper auth_clock header keyed_db no_counts
    ≡ (counted, ok (used, counted_db))
unfolding require_api_key authenticate parse get modify allow_minute date_of
client_passes = refl

require_api_key-Authentic_example :
    (key : ApiKey) × Authentic plain_hasher pepper noon header keyed_db key
    × (used ≡ count_request noon (roll_requests (date_of noon) key))
    × (used.daily_requests_date ≡ date_of noon)
    × (used.daily_requests_used ≤ used.daily_req_limit)
require_api_key-Authentic_example =
    require_api_key-Authentic plain_counters plain_hasher pepper auth_clock header keyed_db
      no_counts client_passes

-- The other key is revoked; the client's own still passes.
abbrev revoked_db : Db
revoked_db = record empty_db { api_keys = client ∷ record other { revoked_at = some noon } ∷ [] }

other_revoked : revoke_api_key 4 noon keyed_db ≡ ok revoked_db
unfolding revoke_api_key get modify
other_revoked = refl

still_passes :
    require_api_key plain_counters plain_hasher pepper auth_clock header revoked_db no_counts ≡ (
      counted,
      ok (used, record empty_db { api_keys = used ∷ record other { revoked_at = some noon } ∷ [] }),
    )
unfolding require_api_key authenticate parse get modify allow_minute date_of
still_passes = refl

revoke_api_key-rejects_example : used.id ≢ 4
unfolding get
revoke_api_key-rejects_example =
    revoke_api_key-rejects plain_counters 4 noon keyed_db plain_hasher pepper auth_clock header
      no_counts (refl, (refl, tt)) other_revoked still_passes
