-- ===== src/Contracts/Errors.antt =====
-- packages/contracts/src/errors.ts: the codes and the error value.
use authia.Prelude.{String, Bool, true, false}

pub data DeniedCode : Type 0 where
  invalid_input ambiguous_credentials duplicate_identity rate_limited policy_denied : DeniedCode

pub data UnauthenticatedCode : Type 0 where
  invalid_credentials session_expired session_revoked : UnauthenticatedCode

-- AuthErrorCode | StorageConstraintCode.
pub data AuthErrorCode : Type 0 where
  runtime_misconfigured migration_mismatch storage_unavailable crypto_failure : AuthErrorCode
  policy_failure response_apply_failed delivery_unavailable : AuthErrorCode
  delivery_rate_limited delivery_misconfigured duplicate_identity : AuthErrorCode

pub data ErrorCategory : Type 0 where
  operator infrastructure : ErrorCategory

pub record AuthError : Type 0 where
  pub category : ErrorCategory
  pub code : AuthErrorCode
  pub message : String
  pub retryable : Bool

-- The shape that every constructor of errors in the packages builds.
abbrev pub infrastructure_error : AuthErrorCode → String → AuthError
infrastructure_error code message = record {
  category = ErrorCategory.infrastructure;
  code = code;
  message = message;
  retryable = false;
}

abbrev pub is_duplicate_identity : AuthErrorCode → Bool
is_duplicate_identity AuthErrorCode.duplicate_identity = true
is_duplicate_identity _ = false

abbrev pub is_storage_unavailable : AuthErrorCode → Bool
is_storage_unavailable AuthErrorCode.storage_unavailable = true
is_storage_unavailable _ = false

-- { ok: true } | { ok: false, code: 'RUNTIME_MISCONFIGURED', message }.
pub data ValidationResult : Type 0 where
  valid : ValidationResult
  misconfigured : String → ValidationResult
