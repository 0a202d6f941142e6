-- ===== src/Authority/Gateway.antt =====
-- authority/gateway.ts and authority/credential-binding.ts: the Policy Enforcement Point. `S` is
-- the state of the world outside the gateway; the host's authorizer, the evidence store, the
-- clock, the source of ids, the custody of credentials and the checks bound to principals act on it. Where the
-- state of one effect is `S × EffectLocals`, the second part holds the local variables
-- `resolvedRefs` and `stored` of `run`.
pub mod Authorize
pub mod Execution
pub mod Custody
pub mod Attest
pub mod Enforcement
pub mod Outcomes
pub mod Accountability
pub mod Attestation
pub mod Checks
use appport_services.Common.{
  ℕ, ◌+◌, String, Bool, true, false, not, ◌&&◌, ◌||◌, ◌==◌, opt_eq, Option, none, some, List, [],
  ◌∷◌, any, includes, get, is_blank, truthy, present, or_else, or_default, is_some, strip_prefix,
  if◌then◌else◌,
}
use appport_services.Authority.Errors.{
  ServiceFailureCode, denied, authority_unavailable, authorization_timeout, invalid_request,
  provider_error, unauthenticated, not_found, custody_read_only, Details, Error, authority_error,
  delivery_error, conditional_conflict, other_error,
}
use appport_services.Authority.Principal.{
  PrincipalClaims, VerifiedPrincipal, by_api_key, by_host, by_job, by_delivery, by_integration,
  PrincipalVerification, Caller, verified, require_verified_principal, mint_verified_principal,
  DurablePrincipal,
}
use appport_services.Authority.Manifest.{ServiceCapability, find_capability, get_service_capability}
use appport_services.Authority.Context.{
  ServiceResource, ServiceExecutionContext, assert_execution_context, resource_uri,
}
use appport_services.Authority.Authorizer.{
  ServiceAuthorizationRequest, ServiceAuthorizationDecision, AuthorizerOutcome, answered, failed,
  timed_out,
}
use appport_services.Authority.Custody.{Credentials}
use appport_services.Authority.Evidence
use appport_services.Authority.Evidence.{
  EffectOutcome, EffectEvidence, EffectEvidenceStore, EvidenceUpdate,
}
use appport_services.Exec.{
  Exec, pure, throw, lift, catch, attempt, Result, ok, err, require, invalid, ◌>>=◌, ◌>>◌,
}
use Prim.Native.String

abbrev pub context_ttl_ms : ℕ
context_ttl_ms = 60000

abbrev pub CredentialCheck : Type 0 → Type 0
CredentialCheck S = String → ServiceResource → Exec S (Unit {0})

pub record ServiceGateway (S : Type 0) : Type 0 where
  pub application : String
  pub authorizer : Option (ServiceAuthorizationRequest → S → AuthorizerOutcome × S)
  pub evidence : EffectEvidenceStore S
  pub now : Exec S ℕ
  pub random_uuid : Exec S String
  pub extension_capabilities : List ServiceCapability
  pub bindings : VerifiedPrincipal → Option (CredentialCheck S)
  pub credentials : Option (Credentials S)
  pub encode_uri_component : String → String
  pub timeout_text : String

pub record ExecuteOptions : Type 0 where
  pub service : String
  pub provider : Option String
  pub credential_ref : Option String
  pub request_id : Option String

abbrev pub for_service : String → ExecuteOptions
for_service service = record {
  service = service;
  provider = none;
  credential_ref = none;
  request_id = none;
}

pub record EffectLocals : Type 0 where
  pub resolved_refs : List String
  pub stored_version : Option ℕ

abbrev pub no_locals : EffectLocals
no_locals = record { resolved_refs = []; stored_version = none }

abbrev beside : {S A : Type 0} → Result A × S → EffectLocals → Result A × (S × EffectLocals)
beside (r, s) l = (r, (s, l))

-- An effect that uses no credential tool.
abbrev pub without_tools : {S A : Type 0} → Exec S A → Exec (S × EffectLocals) A
without_tools m (s, l) = beside (m s) l

abbrev why : String → String → Details
why capability reason = record {
  capability = some capability;
  decision_id = none;
  reason = some reason;
}

abbrev about : String → Details
about capability = record { capability = some capability; decision_id = none; reason = none }

-- The constructor's loop over the capabilities that extensions declare.
unfoldable pub declare_extensions :
    List ServiceCapability → List ServiceCapability → Result (List ServiceCapability)
unfolding strip_prefix
declare_extensions [] declared = ok declared
declare_extensions (c ∷ rest) declared =
    let others = declare_extensions rest (c ∷ declared) in
    let namespace = or_default (strip_prefix "extension:" c.service) "" in
    if is_some (get_service_capability c.name) || is_some (find_capability c.name declared)
    then err (other_error "Extension capability is already declared")
    else if (namespace == "")
        || not (is_some (strip_prefix (String.◌++◌ namespace ".") c.name))
        || c.invocable
    then err (other_error "Extension capability must come from a defined extension")
    else others

module _ {S : Type 0} (g : ServiceGateway S) where
  unfoldable pub capability : String → Option ServiceCapability
  capability name =
      or_else_capability (get_service_capability name)
        (find_capability name g.extension_capabilities)
    where
      or_else_capability :
          Option ServiceCapability → Option ServiceCapability → Option ServiceCapability
      or_else_capability (some c) d = some c
      or_else_capability none d = d

  -- A host identity; claims that name another application are refused.
  unfoldable pub identify : Option PrincipalClaims → Result (Option VerifiedPrincipal)
  identify none = ok none
  identify (some claims) =
      if truthy claims.application_id && not (opt_eq claims.application_id (some g.application))
      then err (
          authority_error denied "Identity belongs to a different application" (record {
            capability = none;
            decision_id = none;
            reason = some "application_mismatch";
          }))
      else elim (mint_verified_principal claims by_host) [ ok p ↦ ok (some p) | err e ↦ err e ]

  unfoldable pub assert_ownership : VerifiedPrincipal → ServiceResource → String → Result (Unit {0})
  assert_ownership principal resource entry =
      if (resource.tenant_id == "") || not (principal.tenant_id == resource.tenant_id)
      then err (
          authority_error denied "Cross-tenant service operation denied"
            (why entry "tenant_mismatch"))
      else if truthy principal.application_id
          && not (opt_eq principal.application_id (some g.application))
      then err (
          authority_error denied "Principal belongs to a different application"
            (why entry "application_mismatch"))
      else ok tt

  -- credential-binding.ts: a check that fails for another reason counts as an unreadable store.
  abbrev pub rethrow_check : String → Error → Error
  rethrow_check entry (authority_error code message details) = authority_error code message details
  rethrow_check entry (delivery_error message status_code) = delivery_error message status_code
  rethrow_check entry _ =
      authority_error authority_unavailable "API-key credential state could not be read"
        (why entry "credential_store_unavailable")

  abbrev is_api_key : PrincipalVerification → Bool
  is_api_key by_api_key = true
  is_api_key by_host = false
  is_api_key by_job = false
  is_api_key by_delivery = false
  is_api_key by_integration = false

  unfoldable pub enforce_credential : VerifiedPrincipal → CredentialCheck S
  enforce_credential principal entry resource = elim (g.bindings principal) [
    | none ↦
        if is_api_key principal.verified_by
        then throw (
            authority_error denied "API-key principal is not bound to a live credential"
              (why entry "credential_unbound"))
        else pure tt
    | some check ↦ catch (check entry resource) (λ e. throw (rethrow_check entry e))
  ]

  unfoldable pub request_for :
      ServiceCapability
      → VerifiedPrincipal
      → ServiceResource
      → String
      → ℕ
      → ServiceAuthorizationRequest
  request_for entry principal resource request_id timestamp = record {
    request_id = request_id;
    subject_kind = principal.principal_type;
    subject_id = principal.principal_id;
    tenant_id = resource.tenant_id;
    application_id = g.application;
    capability = entry.name;
    capability_version = entry.version;
    resource_uri = resource_uri g.encode_uri_component g.application resource;
    attributes = resource.attributes;
    timestamp = timestamp;
    verified_by = principal.verified_by;
    execution_id = request_id;
    delegation_id = present principal.delegation_id;
    run_id = present principal.run_id;
    credential_id = present principal.credential_id;
  }
