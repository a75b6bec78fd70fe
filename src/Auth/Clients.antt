-- ===== src/Auth/Clients.antt =====
-- What `require_api_key` of apps/gateway/src/orbi_gateway/dependencies.py lets through.
use orbi_inference.Base.{
  ◌≤◌, ◌<◌, ◌≡◌, refl, sym, ap, subst, ◌∙◌, Bool, true, false, not, Option, none, some, List, [],
  ◌∷◌, leb, arith, Bool-cases, inl, inr, none-ne_some, some-eq, first_where,
}
use orbi_inference.Base.Table.Members.{IsIn}
use orbi_inference.Base.Text.{Text}
use orbi_inference.Base.Text.Chars.{text_eq→eq}
use orbi_inference.Base.Calendar.{Instant, Date, date_of}
use orbi_inference.Errors.{ok, ok-eq, ok-ne_err, ◌>>◌, raise_if, or_raise, >>=-eq-ok, Result-cases}
use orbi_inference.Entities.{ApiKey, Db}
use orbi_inference.Budget.{find_project}
use orbi_inference.Budget.Limits.{date_eq→eq}
use orbi_inference.ApiKeys.{PasswordHasher, parse, verify_secret, is_record_active}
use orbi_inference.RateLimit.{Counters, allow_minute}
use orbi_inference.Chat.Acceptance.{or_raise-eq-ok}
use orbi_inference.Auth.{
  bearer, invalid_api_key, is_found_active, find_api_key, AuthClock, roll_requests, count_request,
  is_authentic, authenticate, admit, charge_request, require_api_key,
}

pub first_where-found :
    {A : Type 0} (p : A → Bool) (t : List A) {a : A}
    → first_where p t ≡ some a
    → IsIn a t × (p a ≡ true)
first_where-found p [] h = absurd (none-ne_some h)
first_where-found p (x ∷ xs) {a} h = elim (Bool-cases (p x)) [
  | inl t ↦ let same = some-eq (rw t at h) in (inl (sym same), rw (← same) t)
  | inr f ↦ let (m, t) = first_where-found p xs {a = a} (rw f at h) in (inr m, t)
]

is_record_active-parts :
    (now : Instant) (expires revoked : Option Instant)
    → is_record_active now expires revoked ≡ true
    → (revoked ≡ none) × ((t : Instant) → expires ≡ some t → now < t)
is_record_active-parts now expires (some r) h = absurd (ground arith)
is_record_active-parts now none none h = (refl, λ t e. absurd (none-ne_some e))
is_record_active-parts now (some t) none h = (refl, λ t' e. ground (arith, some-eq e))

module _ (hasher : PasswordHasher) (pepper : Text) where
  -- The key is the stored one that the header names, of an active project, with the secret that was
  -- issued for it, neither revoked nor expired.
  pub record Authentic (now : Instant) (authorization : Option Text) (db : Db) (key : ApiKey)
      : Type 0 where
    pub raw_key : Text
    pub secret : Text
    pub sent : bearer authorization ≡ some raw_key
    pub parsed : parse raw_key ≡ some (key.environment, key.key_id, secret)
    pub stored : IsIn key db.api_keys
    pub project_active : is_found_active (find_project key.project_id db) ≡ true
    pub verified : verify_secret hasher pepper secret key.secret_hash ≡ true
    pub unrevoked : key.revoked_at ≡ none
    pub unexpired : (t : Instant) → key.expires_at ≡ some t → now < t

  Authentic-of :
      (now : Instant) (authorization : Option Text) (db : Db) (raw_key : Text)
      (parts : Text × Text × Text) (key : ApiKey)
      → bearer authorization ≡ some raw_key
      → parse raw_key ≡ some parts
      → find_api_key parts.1 db ≡ some key
      → is_authentic hasher pepper now parts key ≡ true
      → Authentic now authorization db key
  Authentic-of now authorization db raw_key (environment, key_id, secret) key sent parsed found t =
      let (stored, selected) = first_where-found _ db.api_keys {a = key} found in
      let environment_same = text_eq→eq key.environment environment (ground arith) in
      let id_same = text_eq→eq key.key_id key_id (ground arith) in
      let (unrevoked, unexpired) =
        is_record_active-parts now key.expires_at key.revoked_at (ground arith) in
      record {
        raw_key = raw_key;
        secret = secret;
        sent = sent;
        parsed = rw (environment_same, id_same) parsed;
        stored = stored;
        project_active = ground arith;
        verified = ground arith;
        unrevoked = unrevoked;
        unexpired = unexpired;
      }

  tested :
      (now : Instant) (parts : Text × Text × Text) (found : ApiKey) {key : ApiKey}
      → (raise_if (not (is_authentic hasher pepper now parts found)) invalid_api_key >> ok found)
        ≡ ok key
      → (found ≡ key) × (is_authentic hasher pepper now parts found ≡ true)
  tested now parts found h = elim (Bool-cases (is_authentic hasher pepper now parts found)) [
    | inl t ↦ (ok-eq (rw t at h), t)
    | inr e ↦ absurd (ok-ne_err (sym (rw e at h)))
  ]

  pub authenticate-Authentic :
      (now : Instant) (authorization : Option Text) (db : Db) {key : ApiKey}
      → authenticate hasher pepper now authorization db ≡ ok key
      → Authentic now authorization db key
  unfolding authenticate
  authenticate-Authentic now authorization db {key} h =
      let (raw, r, h1) = >>=-eq-ok (or_raise (bearer authorization) invalid_api_key) _ h in
      let (parts, p, h2) = >>=-eq-ok (or_raise (parse raw) invalid_api_key) _ h1 in
      let (found, f, h3) = >>=-eq-ok (or_raise (find_api_key parts.1 db) invalid_api_key) _ h2 in
      let (same, t) = tested now parts found h3 in
      subst (Authentic now authorization db) same (
        Authentic-of now authorization db raw parts found
          (or_raise-eq-ok (bearer authorization) invalid_api_key r)
          (or_raise-eq-ok (parse raw) invalid_api_key p)
          (or_raise-eq-ok (find_api_key parts.1 db) invalid_api_key f) t)

roll_requests-date :
    (today : Date) (key : ApiKey) → (roll_requests today key).daily_requests_date ≡ today
roll_requests-date today key = ground (arith, date_eq→eq key.daily_requests_date today)

admit-ok :
    {S : Type 0} (now : Instant) (key : ApiKey) (db : Db) (answer : Bool × S) {s' : S}
    {key' : ApiKey} {db' : Db}
    → admit now key db answer ≡ (s', ok (key', db'))
    → (answer.0 ≡ true) × (key' ≡ count_request now key)
admit-ok now key db (false, s) h = absurd (ok-ne_err (sym (ap (λ p. p.1) h)))
admit-ok now key db (true, s) h = (refl, sym (ap (λ p. p.0) (ok-eq (ap (λ p. p.1) h))))

module _ {S : Type 0} (redis : Counters S) where
  charge_request-ok :
      (clock : AuthClock) (key : ApiKey) (db : Db) (s : S) {s' : S} {key' : ApiKey} {db' : Db}
      → charge_request redis clock key db s ≡ (s', ok (key', db'))
      → (key.daily_requests_used < key.daily_req_limit) × (key' ≡ count_request clock.counting key)
  charge_request-ok clock key db s h =
      elim (Bool-cases (leb key.daily_req_limit key.daily_requests_used)) [
        | inl t ↦ absurd (ok-ne_err (sym (ap (λ p. p.1) (rw t at h))))
        | inr f ↦
            let (passed, same) =
              admit-ok clock.counting key db
                (allow_minute redis key.key_id key.rpm_limit clock.limiting s) (rw f at h) in
            (ground arith, same)
      ]

  -- If a client is let through, its header names a stored key of an active project, has the secret
  -- that verifies against the key's hash, and the key is neither revoked nor expired; and the key
  -- that the call acts under is that one, counted once more for today, within its daily limit.
  pub require_api_key-Authentic :
      (hasher : PasswordHasher) (pepper : Text) (clock : AuthClock) (authorization : Option Text)
      (db : Db) (s : S) {s' : S} {key' : ApiKey} {db' : Db}
      → require_api_key redis hasher pepper clock authorization db s ≡ (s', ok (key', db'))
      → (key : ApiKey) × Authentic hasher pepper clock.checking authorization db key
        × (key' ≡ count_request clock.counting (roll_requests (date_of clock.counting) key))
        × (key'.daily_requests_date ≡ date_of clock.counting)
        × (key'.daily_requests_used ≤ key'.daily_req_limit)
  unfolding require_api_key
  require_api_key-Authentic hasher pepper clock authorization db s {key' = key'} h =
      elim (Result-cases (authenticate hasher pepper clock.checking authorization db)) [
        | inr (e, q) ↦ absurd (ok-ne_err (sym (ap (λ p. p.1) (rw q at h))))
        | inl (key, q) ↦
            let rolled : ApiKey = roll_requests (date_of clock.counting) key in
            let (room, same) = charge_request-ok clock rolled db s (rw q at h) in
            (
              key,
              authenticate-Authentic hasher pepper clock.checking authorization db q,
              same,
              ap ApiKey.daily_requests_date same ∙ roll_requests-date (date_of clock.counting) key,
              rw same (omega (arith, room)),
            )
      ]
