-- ===== src/Errors.antt =====
-- apps/gateway/src/orbi_gateway/errors.py, and the other exceptions that the services raise.
use orbi_inference.Base.{
  ◌⊎◌, inl, inr, ℕ, String, ◌≡◌, refl, sym, Bool, true, false, Option, none, some, arith,
}

-- `OrbiError`
pub record OrbiError : Type 0 where
  pub code : String
  pub message : String
  pub status_code : ℕ

-- What a call can raise. `no_result_found` is SQLAlchemy's, from `scalar_one`, `integrity_error` is
-- a constraint that the database refuses, `data_error` the driver's, for a number that its column
-- does not hold, `validation_failed` is FastAPI's `RequestValidationError`.
pub data Exception : Type 0 where
  orbi_error : OrbiError → Exception
  value_error : String → Exception
  budget_exceeded : String → Exception
  no_result_found : Exception
  integrity_error : Exception
  data_error : Exception
  validation_failed : Exception

pub data Result (A : Type 0) : Type 0 where
  ok : A → Result A
  err : Exception → Result A

-- `if test: raise e`
abbrev pub raise_if : Bool → Exception → Result (Unit {0})
raise_if true e = err e
raise_if false e = ok tt

abbrev pub or_raise : {A : Type 0} → Option A → Exception → Result A
or_raise none e = err e
or_raise (some a) e = ok a

-- `raise OrbiError(code, message, status_code)`
abbrev pub orbi : String → String → ℕ → Exception
orbi code message status_code =
    orbi_error (record { code = code; message = message; status_code = status_code })

-- The HTTP status and the body's `code` that a client is sent for an exception. Only an `OrbiError`
-- shows its own; the details of a validation error are left out, and `unexpected_error_handler`
-- answers for all others alike.
abbrev pub rendered : Exception → ℕ × String × String
rendered (orbi_error e) = (e.status_code, e.code, e.message)
rendered validation_failed = (422, "request_validation_failed", "Request validation failed.")
rendered _ = (500, "internal_error", "The request could not be completed.")

-- The statements after a call run with its value, unless it raises.
infixl 5 ◌>>=◌
abbrev pub ◌>>=◌ : {A B : Type 0} → Result A → (A → Result B) → Result B
err exc >>= rest = err exc
ok value >>= rest = rest value

-- The same after a call whose value is not used.
infixl 5 ◌>>◌
abbrev pub ◌>>◌ : {B : Type 0} → Result (Unit {0}) → Result B → Result B
call >> rest = call >>= λ _. rest

-- A chain that returns has a first call that returned.
pub >>=-eq-ok :
    {A B : Type 0} (call : Result A) (rest : A → Result B) {result : B}
    → (call >>= rest) ≡ ok result
    → (value : A) × (call ≡ ok value) × (rest value ≡ ok result)
>>=-eq-ok (err exc) rest returned = absurd (ground arith)
>>=-eq-ok (ok value) rest returned = (value, refl, returned)

pub ok-eq : {A : Type 0} {a b : A} → ok a ≡ ok b → a ≡ b
ok-eq h = ground arith

pub ok-ne_err : {A : Type 0} {a : A} {e : Exception} → ¬ (ok a ≡ err e)
ok-ne_err h = ground arith

pub Result-cases :
    {A : Type 0} (m : Result A) → ((a : A) × (m ≡ ok a)) ⊎ ((e : Exception) × (m ≡ err e))
Result-cases (ok a) = inl (a, refl)
Result-cases (err e) = inr (e, refl)

pub raise_if-eq-ok :
    (test : Bool) (e : Exception) {u : Unit {0}} → raise_if test e ≡ ok u → test ≡ false
raise_if-eq-ok true e h = absurd (ok-ne_err (sym h))
raise_if-eq-ok false e h = refl
