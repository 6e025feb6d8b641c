-- ===== src/Errors.antt =====
-- app/platform/errors.py: the taxonomy of failures, the HTTP status and the retry decision of each.
-- An exception is an `AppError` or one of the built-in and third-party classes that the code can
-- let through.
use festival_service.Prelude.{ℕ, String, Bool, true, false, [], ◌≡◌, refl, ◌⊎◌, inl, inr}
use festival_service.Dict.{Dict}

pub data Code : Type 0 where
  invalid_argument_code unauthenticated_code permission_denied_code not_found_code : Code
  already_exists_code conflict_code failed_precondition_code : Code
  resource_exhausted_code unavailable_code internal_code : Code

-- `_HTTP_STATUS`
unfoldable pub status_of : Code → ℕ
status_of invalid_argument_code = 400
status_of unauthenticated_code = 401
status_of permission_denied_code = 403
status_of not_found_code = 404
status_of already_exists_code = 409
status_of conflict_code = 409
status_of failed_precondition_code = 422
status_of resource_exhausted_code = 429
status_of unavailable_code = 503
status_of internal_code = 500

-- membership in `_RETRYABLE`
unfoldable pub in_retryable : Code → Bool
in_retryable unavailable_code = true
in_retryable internal_code = true
in_retryable _ = false

pub record AppError : Type 0 where
  pub code : Code
  pub message : String
  pub reason : String
  pub details : Dict String

unfoldable pub http_status : AppError → ℕ
unfolding status_of
http_status e = status_of e.code

unfoldable pub retryable : AppError → Bool
unfolding in_retryable
retryable e = in_retryable e.code

-- `_factory(code)`: `make(message, reason=..., **details)`
abbrev pub make : Code → String → String → Dict String → AppError
make c message reason details = record {
  code = c;
  message = message;
  reason = reason;
  details = details;
}

-- The other classes stand for what Python and the libraries raise.
pub data Exception : Type 0 where
  app : AppError → Exception
  type_error value_error attribute_error runtime_error integrity_error money_error : Exception
  malformed_envelope : String → Exception

abbrev pub invalid_argument : String → String → Exception
invalid_argument message reason = app (make invalid_argument_code message reason [])

abbrev pub unauthenticated : String → String → Exception
unauthenticated message reason = app (make unauthenticated_code message reason [])

abbrev pub permission_denied : String → String → Exception
permission_denied message reason = app (make permission_denied_code message reason [])

abbrev pub not_found : String → String → Exception
not_found message reason = app (make not_found_code message reason [])

abbrev pub already_exists : String → String → Exception
already_exists message reason = app (make already_exists_code message reason [])

abbrev pub conflict : String → String → Dict String → Exception
conflict message reason details = app (make conflict_code message reason details)

abbrev pub failed_precondition : String → String → Exception
failed_precondition message reason = app (make failed_precondition_code message reason [])

abbrev pub internal : String → Exception
internal message = app (make internal_code message "" [])

unfoldable pub is_retryable : Exception → Bool
unfolding retryable
is_retryable (app e) = retryable e
is_retryable _ = true

-- The outcome of a call that may raise.
pub data Result {ℓ} (A : Type ℓ) : Type ℓ where
  ok : A → Result A
  err : Exception → Result A

-- `if test: raise e`
abbrev pub raise_if : Bool → Exception → Result (Unit {0})
raise_if test e = elim test [ false ↦ ok tt | true ↦ err e ]

-- What is left of a block runs only if the call before it returned.
abbrev pub then_run {ℓ κ} : {A : Type ℓ} {B : Type κ} → Result A → (A → Result B) → Result B
then_run (err raised) rest = err raised
then_run (ok value) rest = rest value

infixl 5 ◌>>=◌ ◌>>◌
abbrev pub ◌>>=◌ {ℓ κ} : {A : Type ℓ} {B : Type κ} → Result A → (A → Result B) → Result B
call >>= rest = then_run call rest

abbrev pub ◌>>◌ {ℓ} : {B : Type ℓ} → Result (Unit {0}) → Result B → Result B
call >> rest = then_run call (λ done. rest)

-- The call raised an `AppError` of this code and reason.
abbrev pub Raises {ℓ} : {A : Type ℓ} → Code → String → Result A → Type 0
Raises c reason (ok a) = ⊥
Raises c reason (err (app e)) = (e.code ≡ c) × (e.reason ≡ reason)
Raises c reason (err _) = ⊥

pub Result-cases {ℓ} :
    {A : Type ℓ} (r : Result A) → ((a : A) × (r ≡ ok a)) ⊎ ((e : Exception) × (r ≡ err e))
Result-cases (ok a) = inl (a, refl)
Result-cases (err e) = inr (e, refl)
