-- ===== src/Authority/Gateway/Authorize.antt =====
-- authority/gateway.ts: `authorize` and `decide`.
use appport_services.Common.{
  ◌+◌, String, Bool, true, false, not, ◌&&◌, ◌==◌, opt_eq, Option, none, some, truthy, present,
  or_default, is_some, if◌then◌else◌,
}
use appport_services.Authority.Errors.{
  denied, authority_unavailable, authorization_timeout, invalid_request, Error, authority_error,
}
use appport_services.Authority.Principal.{VerifiedPrincipal, Caller, require_verified_principal}
use appport_services.Authority.Manifest.{ServiceCapability}
use appport_services.Authority.Context.{ServiceResource, ServiceExecutionContext, resource_uri}
use appport_services.Authority.Authorizer.{
  ServiceAuthorizationRequest, ServiceAuthorizationDecision, AuthorizerOutcome, answered, failed,
  timed_out,
}
use appport_services.Exec.{Exec, pure, throw, lift, Result, ok, err, invalid, ◌>>=◌, ◌>>◌}
use Prim.Native.String
use appport_services.Authority.Gateway.{
  about, context_ttl_ms, ServiceGateway, assert_ownership, capability, enforce_credential,
  request_for,
}

-- `validateDecision`: the decision is about this very request.
unfoldable pub decision_matches : ServiceAuthorizationRequest → ServiceAuthorizationDecision → Bool
decision_matches request d =
    truthy d.decision_id
    && is_some d.allowed
    && opt_eq d.capability (some request.capability)
    && opt_eq d.tenant_id (some request.tenant_id)
    && opt_eq d.application_id (some request.application_id)
    && opt_eq d.subject_id (some request.subject_id)
    && opt_eq d.resource_uri (some request.resource_uri)

unfoldable pub validate_decision :
    ServiceAuthorizationRequest
    → Option ServiceAuthorizationDecision
    → Result ServiceAuthorizationDecision
validate_decision request none = err (
    authority_error authority_unavailable
      "AuthBoundry returned a decision that does not match the request" (about request.capability))
validate_decision request (some d) =
    if decision_matches request d
    then ok d
    else err (
        authority_error authority_unavailable
          "AuthBoundry returned a decision that does not match the request"
          (about request.capability))

abbrev authorizer_error : String → Error → Error
authorizer_error entry (authority_error code message details) = authority_error code message details
authorizer_error entry _ =
    authority_error authority_unavailable "AuthBoundry authorization failed" (about entry)

module _ {S : Type 0} (g : ServiceGateway S) where
  unfoldable pub settle_decision :
      ServiceAuthorizationRequest → AuthorizerOutcome → Result ServiceAuthorizationDecision
  unfolding validate_decision
  settle_decision request (answered d) = validate_decision request d
  settle_decision request (failed e) = err (authorizer_error request.capability e)
  settle_decision request timed_out = err (
      authority_error authorization_timeout
        (String.◌++◌ "AuthBoundry did not decide " (
          String.◌++◌ request.capability
            (String.◌++◌ " within " (String.◌++◌ g.timeout_text "ms"))))
        (about request.capability))

  unfoldable pub decide_by :
      Option (ServiceAuthorizationRequest → S → AuthorizerOutcome × S)
      → ServiceAuthorizationRequest
      → Exec S ServiceAuthorizationDecision
  unfolding settle_decision
  decide_by none request = throw (
      authority_error authority_unavailable
        "No AuthBoundry authorizer is configured; service effects are disabled"
        (about request.capability))
  decide_by (some ask) request = λ s. (settle_decision request (ask request s).0, (ask request s).1)

  unfoldable pub decide : ServiceAuthorizationRequest → Exec S ServiceAuthorizationDecision
  unfolding decide_by
  decide = decide_by g.authorizer

  abbrev is_allowed : Option Bool → Bool
  is_allowed (some true) = true
  is_allowed (some false) = false
  is_allowed none = false

  -- The end of `authorize`: the context that an allowing decision is turned into.
  unfoldable pub grant :
      ServiceCapability
      → VerifiedPrincipal
      → ServiceResource
      → String
      → ServiceAuthorizationDecision
      → Exec S ServiceExecutionContext
  grant entry principal resource request_id decision =
      if not (is_allowed decision.allowed)
      then throw (
          authority_error denied (String.◌++◌ "AuthBoundry denied " entry.name) (record {
            capability = some entry.name;
            decision_id = decision.decision_id;
            reason = decision.reason;
          }))
      else do
        decided_at ← g.now
        issued_at ← g.now
        pure (record {
          application = g.application;
          tenant_id = resource.tenant_id;
          principal = principal;
          capability = entry.name;
          capability_version = entry.version;
          request_id = request_id;
          resource = resource;
          resource_uri = resource_uri g.encode_uri_component g.application resource;
          authorization = record {
            decision_id = or_default decision.decision_id "";
            decided_at = decided_at;
            policy_version = present decision.policy_version;
            reason = present decision.reason;
          };
          expires_at = issued_at + context_ttl_ms;
        })

  -- What `authorize` does once the caller is accepted.
  unfoldable pub authorize_principal :
      ServiceCapability
      → VerifiedPrincipal
      → ServiceResource
      → String
      → Exec S ServiceExecutionContext
  authorize_principal entry principal resource request_id = do
    timestamp ← g.now
    decision ← decide (request_for g entry principal resource request_id timestamp)
    grant entry principal resource request_id decision

  unfoldable pub authorize_capability :
      Option ServiceCapability
      → String
      → Caller
      → ServiceResource
      → String
      → Exec S ServiceExecutionContext
  authorize_capability none name caller resource request_id = throw (
      invalid (
        String.◌++◌ "Capability \""
          (String.◌++◌ name "\" is not declared in the service capability manifest")))
  authorize_capability (some entry) name caller resource request_id =
      if not (resource.kind == entry.resource)
      then throw (
          authority_error invalid_request
            (String.◌++◌ "Capability \"" (
              String.◌++◌ entry.name (
                String.◌++◌ "\" applies to "
                  (String.◌++◌ entry.resource (String.◌++◌ " resources, not " resource.kind)))))
            (about entry.name))
      else do
        principal ← lift (require_verified_principal caller)
        lift (assert_ownership g principal resource name)
        enforce_credential g principal entry.name resource
        authorize_principal entry principal resource request_id

  -- Ask AuthBoundry and return a context for one effect; no effect is performed.
  unfoldable pub authorize :
      String → Caller → ServiceResource → String → Exec S ServiceExecutionContext
  unfolding authorize_capability
  authorize name = authorize_capability (capability g name) name
