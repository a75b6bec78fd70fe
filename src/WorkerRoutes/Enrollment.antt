-- ===== src/WorkerRoutes/Enrollment.antt =====
-- One-time enrollment in routes/internal/workers.py: a token that has registered a worker registers
-- no other.
use orbi_inference.Base.{
  ℕ, ◌≡◌, refl, sym, ap, subst, ◌∙◌, Bool, true, false, none, some, List, [], ◌∷◌, ◌++◌,
  first_where, Bool-cases, inl, inr, none-ne_some, some-eq, ◌==◌, ==_iff,
}
use orbi_inference.Base.Table.{modify, get, IsKeyed}
use orbi_inference.Base.Table.Members.{IsIn, IsKeyed-get}
use orbi_inference.Base.Text.{Text}
use orbi_inference.Errors.{ok, err, ok-eq, raise_if, raise_if-eq-ok, or_raise, >>=-eq-ok}
use orbi_inference.Entities.{WorkerEnrollmentToken, Db}
use orbi_inference.Chat.Acceptance.{or_raise-eq-ok}
use orbi_inference.Auth.Clients.{first_where-found}
use orbi_inference.ApiKeys.{PasswordHasher}
use orbi_inference.WorkerTokens.{split_token, WorkerJwtService}
use orbi_inference.WorkerRoutes.{
  WorkerRegisterRequest, WorkerTokenResponse, invalid_enrollment_token, spent_enrollment_token,
  has_token_id, find_token, is_unusable, consume, Fresh, register_worker, new_worker,
  token_response,
}

other_key :
    {A : Type 0} (key : A → ℕ) (x : A) (xs : List A) (a : A)
    → IsKeyed key (x ∷ xs)
    → IsIn a xs
    → (key x == key a) ≡ false
other_key key x xs a k m = elim (Bool-cases (key x == key a)) [
  | inl t ↦
      let none_there : get key (key a) xs ≡ none =
        subst (λ n. get key n xs ≡ none) ((==_iff (key x) (key a)).0 t) k.0 in
      absurd (none-ne_some (sym none_there ∙ IsKeyed-get key a xs k.1 m))
  | inr f ↦ f
]

-- The row that a select has found is still the one it finds once its other columns have changed.
module _ {A : Type 0} (key : A → ℕ) (p : A → Bool) (v : A) where
  pub first_where-modify :
      (t : List A) {a : A}
      → IsKeyed key t
      → first_where p t ≡ some a
      → key v ≡ key a
      → p v ≡ true
      → first_where p (modify key (key a) (λ _. v) t) ≡ some v
  unfolding modify
  first_where-modify [] k h e q = absurd (none-ne_some h)
  first_where-modify (x ∷ xs) {a} k h e q = elim (Bool-cases (p x)) [
    | inl t ↦
        let found : key x ≡ key a = ap key (some-eq (rw t at h)) in
        rw ((==_iff (key x) (key a)).1 found, q) refl
    | inr f ↦
        let later : first_where p xs ≡ some a = rw f at h in
        let (m, selected) = first_where-found p xs later in
        rw (other_key key x xs a k m, f) (first_where-modify xs k.1 later e q)
  ]

pub register_worker-parts :
    (hasher : PasswordHasher) (pepper : Text) (jwt : WorkerJwtService) (fresh : Fresh)
    (payload : WorkerRegisterRequest) (db : Db) {response : WorkerTokenResponse} {db' : Db}
    → register_worker hasher pepper jwt fresh payload db ≡ ok (response, db')
    → (parts : Text × Text) × (token : WorkerEnrollmentToken) × (split_token
          payload.enrollment_token
        ≡ some parts)
      × (find_token parts.0 db ≡ some token)
      × (is_unusable hasher pepper fresh.now payload.enrollment_token token ≡ false)
      × (db'.enrollment_tokens
          ≡ modify WorkerEnrollmentToken.id token.id
              (λ _. consume fresh.now token)
              db.enrollment_tokens)
      × (db'.workers ≡ db.workers ++ new_worker fresh.worker_id fresh.jti fresh.now payload ∷ [])
      × (response ≡ token_response jwt fresh.worker_id fresh.jti fresh.issuing)
unfolding register_worker
register_worker-parts hasher pepper jwt fresh payload db h =
    let (parts, p, h1) =
      >>=-eq-ok (or_raise (split_token payload.enrollment_token) invalid_enrollment_token) _ h in
    let (token, f, h2) = >>=-eq-ok (or_raise (find_token parts.0 db) spent_enrollment_token) _ h1 in
    let (u, r, h3) =
      >>=-eq-ok
        (raise_if (is_unusable hasher pepper fresh.now payload.enrollment_token token)
          spent_enrollment_token)
        _ h2 in
    (
      parts,
      token,
      or_raise-eq-ok (split_token payload.enrollment_token) invalid_enrollment_token p,
      or_raise-eq-ok (find_token parts.0 db) spent_enrollment_token f,
      raise_if-eq-ok (is_unusable hasher pepper fresh.now payload.enrollment_token token)
          spent_enrollment_token r,
      sym (ap (λ x. x.1.enrollment_tokens) (ok-eq h3)),
      sym (ap (λ x. x.1.workers) (ok-eq h3)),
      sym (ap (λ x. x.0) (ok-eq h3)),
    )

register_worker-refused :
    (hasher : PasswordHasher) (pepper : Text) (jwt : WorkerJwtService) (fresh : Fresh)
    (payload : WorkerRegisterRequest) (db : Db) (parts : Text × Text)
    (token : WorkerEnrollmentToken)
    → split_token payload.enrollment_token ≡ some parts
    → find_token parts.0 db ≡ some token
    → is_unusable hasher pepper fresh.now payload.enrollment_token token ≡ true
    → register_worker hasher pepper jwt fresh payload db ≡ err spent_enrollment_token
unfolding register_worker
register_worker-refused hasher pepper jwt fresh payload db parts token p f u = rw (p, f, u) refl

-- If the ids of enrollment tokens are unique, a token that has registered a worker registers no
-- other: while the table of the tokens is as the registration has left it, every call with that
-- token is refused, at any time and whatever worker it describes.
pub register_worker-once :
    (hasher : PasswordHasher) (pepper : Text) (jwt : WorkerJwtService) (fresh fresh' : Fresh)
    (payload payload' : WorkerRegisterRequest) (a b c : Db) {response : WorkerTokenResponse}
    → IsKeyed WorkerEnrollmentToken.id a.enrollment_tokens
    → register_worker hasher pepper jwt fresh payload a ≡ ok (response, b)
    → c.enrollment_tokens ≡ b.enrollment_tokens
    → payload'.enrollment_token ≡ payload.enrollment_token
    → register_worker hasher pepper jwt fresh' payload' c ≡ err spent_enrollment_token
register_worker-once hasher pepper jwt fresh fresh' payload payload' a b c keyed h kept same =
    let (parts, token, p, f, usable, after, workers, answered) =
      register_worker-parts hasher pepper jwt fresh payload a {db' = b} h in
    let (stored, mine) =
      first_where-found (has_token_id parts.0) a.enrollment_tokens {a = token} f in
    let spent : WorkerEnrollmentToken = consume fresh.now token in
    let now_found : find_token parts.0 c ≡ some spent = rw (kept ∙ after) (
      first_where-modify WorkerEnrollmentToken.id (has_token_id parts.0) spent a.enrollment_tokens
        {a = token} keyed f refl mine) in
    register_worker-refused hasher pepper jwt fresh' payload' c parts spent (rw same p) now_found
      refl
