-- ===== src/Tests/Servers.antt =====
-- Concrete stand-ins for the libraries and services that the gateway calls: a password hasher that
-- keeps the password, tokens that hold their claims, and Redis as functions from keys.
use orbi_inference.Base.{
  true, ℕ, zero, suc, ◌+◌, ◌≤◌, ◌<◌, ◌≡◌, refl, ◌&&◌, Option, none, some, ◌∷◌, ◌==◌, ==_iff, leb,
  ltb, if◌then◌else◌, arith,
}
use orbi_inference.Base.Text.{Text, codes}
use orbi_inference.Base.Text.Chars.{text_eq, text_eq_refl}
use orbi_inference.Base.Calendar.{Instant}
use orbi_inference.ApiKeys.{PasswordHasher}
use orbi_inference.WorkerTokens.{
  Claims, Jwt, whole_second, in_whole_seconds, worker_scopes, WorkerJwtService,
}
use orbi_inference.RateLimit.{Counters}
use orbi_inference.CircuitBreaker.{Mapping, RedisHashClient, merge}

abbrev pub plain_hasher : PasswordHasher
plain_hasher = record {
  hash = λ salt password. password;
  verify = λ stored password. text_eq stored password;
  verify-hash = λ salt password. text_eq_refl password;
}

abbrev pub sub_code : Option ℕ → ℕ
sub_code none = 0
sub_code (some n) = suc n

abbrev pub code_sub : ℕ → Option ℕ
code_sub zero = none
code_sub (suc n) = some n

abbrev pub read_claims : Text → Text → Instant → Text → Option Claims
read_claims aud iss now (sub ∷ iat ∷ nbf ∷ exp ∷ jti) =
    if leb nbf now && ltb now exp
    then some (record {
      sub = code_sub sub;
      jti = jti;
      scope = some worker_scopes;
      iat = iat;
      nbf = nbf;
      exp = exp;
      iss = iss;
      aud = aud;
    })
    else none
read_claims aud iss now _ = none

abbrev pub write_claims : Claims → Text
write_claims c =
    sub_code c.sub ∷ whole_second c.iat ∷ whole_second c.nbf ∷ whole_second c.exp ∷ c.jti

code_sub-sub_code : (o : Option ℕ) → code_sub (sub_code o) ≡ o
code_sub-sub_code none = refl
code_sub-sub_code (some n) = refl

pub read-write_claims :
    (c : Claims) (now : Instant)
    → c.scope ≡ some worker_scopes
    → whole_second c.iat ≤ now
    → whole_second c.nbf ≤ now
    → now < whole_second c.exp
    → read_claims c.aud c.iss now (write_claims c) ≡ some (in_whole_seconds c)
read-write_claims c now scopes issued early late =
    rw (le→leb _ now early, lt→ltb now _ late, code_sub-sub_code c.sub, scopes) refl
  where
    le→leb : (m n : ℕ) → m ≤ n → leb m n ≡ true
    le→leb m n h = ground arith

    lt→ltb : (m n : ℕ) → m < n → ltb m n ≡ true
    lt→ltb m n h = ground arith

abbrev pub plain_jwt : Jwt
plain_jwt = record {
  encode = write_claims;
  decode = read_claims;
  decode-encode = read-write_claims;
}

abbrev pub jwt_service : WorkerJwtService
jwt_service = record {
  jwt = plain_jwt;
  issuer = codes "orbi-core";
  audience = codes "orbi-worker";
  ttl = 3600;
}

abbrev pub bump : Text → ℕ → (Text → ℕ → ℕ) → Text → ℕ → ℕ
bump key window s k w = if text_eq key k && window == w then s k w + 1 else s k w

pub count-bump :
    (key : Text) (window : ℕ) (s : Text → ℕ → ℕ) → bump key window s key window ≡ s key window + 1
count-bump key window s = rw (text_eq_refl key, (==_iff window window).1 refl) refl

abbrev pub plain_counters : Counters (Text → ℕ → ℕ)
plain_counters = record {
  incr = λ key window s. (s key window + 1, bump key window s);
  expire = λ key window n s. s;
  count = λ key window s. s key window;
  incr-answer = λ key window s. refl;
  count-incr = count-bump;
  count-expire = λ key window n s positive. refl;
}

abbrev pub no_counts : Text → ℕ → ℕ
no_counts k w = 0

abbrev pub put : ℕ → Option Mapping → (ℕ → Option Mapping) → ℕ → Option Mapping
put k v s j = if k == j then v else s j

pub get-put : (k : ℕ) (v : Option Mapping) (s : ℕ → Option Mapping) → put k v s k ≡ v
get-put k v s = rw ((==_iff k k).1 refl) refl

abbrev pub plain_hashes : RedisHashClient (ℕ → Option Mapping)
plain_hashes = record {
  hgetall = λ k s. s k;
  hset = λ k m s. put k (some (merge m (s k))) s;
  expire = λ k n s. s;
  delete = λ k s. put k none s;
  hgetall-hset = λ k m s. get-put k (some (merge m (s k))) s;
  hgetall-expire = λ k n s positive. refl;
  hgetall-delete = λ k s. get-put k none s;
}

abbrev pub no_circuits : ℕ → Option Mapping
no_circuits k = none
