-- ===== src/Errors.antt =====
-- core/errors.py: the application errors, and the results of code that may raise.
use film_compliance_agent.Base.{ℕ, String, ◌≡◌, refl, Bool, true, false}
use film_compliance_agent.Schemas.Enums.Process.{ErrorCode, error_code_value}
use film_compliance_agent.Schemas.Json.{Detail, end, entry, str, obj}

-- `app` is an `AppError` with its code, message and details. The others are what the code lets
-- through: a document that its own validators refuse, a snapshot that is not there, an assertion,
-- another exception by its class, and one of the policy workers' errors, with its code and message.
pub data Error : Type 0 where
  app : ErrorCode → String → Detail → Error
  invalid_document : Error
  snapshot_not_found : Error
  assertion_failed : Error
  duplicate_key : Error
  raised : String → Error
  coded : String → String → Error

-- what a call comes to: it raises, or returns a value
pub data Result {κ} (X : Type κ) : Type κ where
  err : Error → Result X
  ok : X → Result X

-- `STATUS_BY_CODE`
unfoldable pub status_by_code : ErrorCode → ℕ
status_by_code ErrorCode.validation_error = 422
status_by_code ErrorCode.not_found = 404
status_by_code ErrorCode.forbidden = 403
status_by_code ErrorCode.conflict = 409
status_by_code ErrorCode.gate_blocked = 409
status_by_code ErrorCode.state_invalid = 409
status_by_code ErrorCode.upstream_llm_error = 502
status_by_code ErrorCode.rate_limited = 429
status_by_code ErrorCode.unsupported_script_type = 422
status_by_code ErrorCode.unreadable_script = 422
status_by_code ErrorCode.script_too_large = 413
status_by_code ErrorCode.artifact_unavailable = 409
status_by_code ErrorCode.artifact_generation_failed = 503

-- `AppError.envelope`
unfoldable pub envelope : ErrorCode → String → Detail → Detail
envelope code message details =
    entry "error"
      (obj (
        entry "code" (str (error_code_value code))
          (entry "message" (str message) (entry "details" (obj details) end))))
      end

-- A raise ends the rest of the run.
infixl 5 ◌>>=◌ ◌>>◌
abbrev pub ◌>>=◌ {κ ℓ} : {X : Type κ} {Y : Type ℓ} → Result X → (X → Result Y) → Result Y
err e >>= next = err e
ok x >>= next = next x

abbrev pub ◌>>◌ {κ} : {Y : Type κ} → Result (Unit {0}) → Result Y → Result Y
first >> next = first >>= λ done. next

-- `if not test: raise e`
abbrev pub require : Bool → Error → Result (Unit {0})
require true e = ok tt
require false e = err e

-- `if test: raise e`
abbrev pub refuse : Bool → Error → Result (Unit {0})
refuse false e = ok tt
refuse true e = err e

-- A run of two calls that returned: the first returned a value, and the second returned from it.
pub >>=-eq-ok {κ ℓ} :
    {X : Type κ} {Y : Type ℓ} (run : Result X) (next : X → Result Y) {y : Y}
    → (run >>= next) ≡ ok y
    → (x : X) × (run ≡ ok x) × (next x ≡ ok y)
>>=-eq-ok (err e) next returned = cc
>>=-eq-ok (ok x) next returned = (x, refl, returned)
