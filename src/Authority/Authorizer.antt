-- ===== src/Authority/Authorizer.antt =====
-- authority/authorizer.ts: the AuthBoundry protocol. The authorizer itself is supplied by the host.
use appport_services.Common.{ℕ, String, Bool, Option, List}
use appport_services.Authority.Errors.{Error}
use appport_services.Authority.Principal.{PrincipalVerification}

pub record ServiceAuthorizationRequest : Type 0 where
  pub request_id : String
  pub subject_kind : String
  pub subject_id : String
  pub tenant_id : String
  pub application_id : String
  pub capability : String
  pub capability_version : ℕ
  pub resource_uri : String
  pub attributes : List (String × String)
  pub timestamp : ℕ
  pub verified_by : PrincipalVerification
  pub execution_id : String
  pub delegation_id : Option String
  pub run_id : Option String
  pub credential_id : Option String

-- What came back over the wire: a field that is missing or of another type is `none`.
pub record ServiceAuthorizationDecision : Type 0 where
  pub decision_id : Option String
  pub allowed : Option Bool
  pub capability : Option String
  pub tenant_id : Option String
  pub application_id : Option String
  pub subject_id : Option String
  pub resource_uri : Option String
  pub reason : Option String
  pub policy_version : Option String

-- The outcome of the race between the authorizer and the timer.
pub data AuthorizerOutcome : Type 0 where
  answered : Option ServiceAuthorizationDecision → AuthorizerOutcome
  failed : Error → AuthorizerOutcome
  timed_out : AuthorizerOutcome
