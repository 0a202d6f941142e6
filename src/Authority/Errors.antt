-- ===== src/Authority/Errors.antt =====
-- authority/errors.ts: the failure codes of the Policy Enforcement Point and their HTTP statuses.
use appport_services.Common.{ℕ, String, Bool, true, false, Option, none}

pub data ServiceFailureCode : Type 0 where
  denied authority_unavailable authorization_timeout invalid_request : ServiceFailureCode
  provider_error unauthenticated not_found custody_read_only : ServiceFailureCode

unfoldable pub status_of : ServiceFailureCode → ℕ
status_of denied = 403
status_of authority_unavailable = 503
status_of authorization_timeout = 504
status_of invalid_request = 400
status_of provider_error = 502
status_of unauthenticated = 401
status_of not_found = 404
status_of custody_read_only = 409

-- `ServiceAuthorityError.details`.
pub record Details : Type 0 where
  pub capability : Option String
  pub decision_id : Option String
  pub reason : Option String

abbrev pub no_details : Details
no_details = record { capability = none; decision_id = none; reason = none }

-- Whatever the services throw: a ServiceAuthorityError, FeltDB's ConditionalConflictError, or any
-- other error with its message. A `delivery_error` is the ServiceAuthorityError, of code
-- PROVIDER_ERROR, that carries the outcome of a webhook delivery: its message and status code.
pub data Error : Type 0 where
  authority_error : ServiceFailureCode → String → Details → Error
  delivery_error : String → Option ℕ → Error
  conditional_conflict : Error
  other_error : String → Error

unfoldable pub is_service_authority_error : Error → Bool
is_service_authority_error (authority_error _ _ _) = true
is_service_authority_error (delivery_error _ _) = true
is_service_authority_error conditional_conflict = false
is_service_authority_error (other_error _) = false
