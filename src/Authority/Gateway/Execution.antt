-- ===== src/Authority/Gateway/Execution.antt =====
-- authority/gateway.ts: performing an effect under an execution context, with its evidence.
use appport_services.Common.{
  ℕ, String, Bool, true, false, Option, none, some, List, [], ◌∷◌, get, truthy, present, or_else,
  if◌then◌else◌,
}
use appport_services.Authority.Errors.{
  ServiceFailureCode, denied, authority_unavailable, authorization_timeout, invalid_request,
  provider_error, unauthenticated, not_found, custody_read_only, Error, authority_error,
  delivery_error, conditional_conflict, other_error,
}
use appport_services.Authority.Principal.{
  VerifiedPrincipal, Caller, verified, actor_text, scoped_object, other_value,
}
use appport_services.Authority.Manifest.{ServiceCapability}
use appport_services.Authority.Context.{
  ServiceResource, ServiceExecutionContext, assert_execution_context, resource_uri,
}
use appport_services.Authority.Evidence.{EffectOutcome, EffectEvidence, allow, deny, undecided}
use appport_services.Authority.Gateway.{
  ServiceGateway, ExecuteOptions, EffectLocals, no_locals, capability,
}
use appport_services.Authority.Gateway.Authorize.{authorize}
use appport_services.Exec.{Exec, pure, throw, lift, catch, attempt, Result, ok, err, ◌>>=◌, ◌>>◌}

unfoldable pub code_name : ServiceFailureCode → String
code_name denied = "DENIED"
code_name authority_unavailable = "AUTHORITY_UNAVAILABLE"
code_name authorization_timeout = "AUTHORIZATION_TIMEOUT"
code_name invalid_request = "INVALID_REQUEST"
code_name provider_error = "PROVIDER_ERROR"
code_name unauthenticated = "UNAUTHENTICATED"
code_name not_found = "NOT_FOUND"
code_name custody_read_only = "CUSTODY_READ_ONLY"

-- The delegation of a resource attribute, else the principal's own.
unfoldable pub effective_delegation : ServiceExecutionContext → Option String
effective_delegation context =
    or_else (get "delegationId" context.resource.attributes) context.principal.delegation_id

-- `evidenceFor(…, 'started')`.
unfoldable pub started_evidence :
    ServiceExecutionContext → ExecuteOptions → String → ℕ → EffectEvidence
unfolding effective_delegation
started_evidence context options id started_at = record {
  id = id;
  application = context.application;
  tenant_id = context.tenant_id;
  principal_id = context.principal.principal_id;
  principal_type = context.principal.principal_type;
  delegation_id = present (effective_delegation context);
  run_id = present context.principal.run_id;
  capability = context.capability;
  capability_version = context.capability_version;
  resource = context.resource_uri;
  decision = allow;
  decision_id = some context.authorization.decision_id;
  credential_ref = present options.credential_ref;
  credential_version = none;
  service = options.service;
  provider = present options.provider;
  request_id = context.request_id;
  started_at = started_at;
  completed_at = none;
  outcome = EffectOutcome.started;
  failure_code = none;
}

abbrev first : List String → Option String
first [] = none
first (r ∷ _) = some r

-- `refUpdate`.
unfoldable pub ref_update : ExecuteOptions → List String → Option String
ref_update options resolved = present (or_else options.credential_ref (first resolved))

-- The outcome that the evidence of a failed effect records.
unfoldable pub outcome_of_error : Error → EffectOutcome
outcome_of_error (authority_error provider_error _ _) = EffectOutcome.provider_error
outcome_of_error (authority_error denied _ _) = EffectOutcome.denied
outcome_of_error (authority_error _ _ _) = EffectOutcome.failed
outcome_of_error (delivery_error _ _) = EffectOutcome.provider_error
outcome_of_error conditional_conflict = EffectOutcome.failed
outcome_of_error (other_error _) = EffectOutcome.failed

unfoldable pub failure_code_of : Error → String
unfolding code_name
failure_code_of (authority_error code _ _) = code_name code
failure_code_of (delivery_error _ _) = code_name provider_error
failure_code_of conditional_conflict = "EFFECT_FAILED"
failure_code_of (other_error _) = "EFFECT_FAILED"

-- `.catch(() => undefined)`.
abbrev pub quietly : {S : Type 0} → Exec S (Unit {0}) → Exec S (Unit {0})
quietly m = catch m (λ _. pure tt)

abbrev is_refusal : Error → Bool
is_refusal (authority_error invalid_request _ _) = false
is_refusal (authority_error unauthenticated _ _) = false
is_refusal (authority_error _ _ _) = true
is_refusal (delivery_error _ _) = true
is_refusal conditional_conflict = false
is_refusal (other_error _) = false

abbrev details_decision : Error → Option String
details_decision (authority_error _ _ details) = details.decision_id
details_decision (delivery_error _ _) = none
details_decision conditional_conflict = none
details_decision (other_error _) = none

abbrev declared_version : Option ServiceCapability → ℕ
declared_version none = 0
declared_version (some c) = c.version

module _ {S : Type 0} (g : ServiceGateway S) where
  unfoldable pub refusal_evidence :
      String
      → VerifiedPrincipal
      → ServiceResource
      → ExecuteOptions
      → String
      → ℕ
      → Error
      → String
      → ℕ
      → EffectEvidence
  unfolding failure_code_of
  refusal_evidence name principal resource options request_id started_at e id completed_at =
      record {
        id = id;
        application = g.application;
        tenant_id = resource.tenant_id;
        principal_id = principal.principal_id;
        principal_type = principal.principal_type;
        delegation_id = present principal.delegation_id;
        run_id = present principal.run_id;
        capability = name;
        capability_version = declared_version (capability g name);
        resource = resource_uri g.encode_uri_component g.application resource;
        decision = if truthy (details_decision e) then deny else undecided;
        decision_id = present (details_decision e);
        credential_ref = none;
        credential_version = none;
        service = options.service;
        provider = present options.provider;
        request_id = request_id;
        started_at = started_at;
        completed_at = some completed_at;
        outcome = EffectOutcome.denied;
        failure_code = some (failure_code_of e);
      }

  write_refusal :
      String
      → VerifiedPrincipal
      → ServiceResource
      → ExecuteOptions
      → String
      → ℕ
      → Error
      → Exec S (Unit {0})
  write_refusal name principal resource options request_id started_at e = do
    id ← g.random_uuid
    completed_at ← g.now
    quietly (
        g.evidence.write (
          refusal_evidence name principal resource options request_id started_at e id completed_at))

  -- Errors that concern the request itself leave no evidence. A refusal of any other kind comes
  -- after the check of the caller, which is then a verified principal.
  unfoldable pub record_refusal :
      String → Caller → ServiceResource → ExecuteOptions → String → ℕ → Error → Exec S (Unit {0})
  unfolding write_refusal
  record_refusal name (verified principal) resource options request_id started_at e =
      if is_refusal e
      then write_refusal name principal resource options request_id started_at e
      else pure tt
  record_refusal name (actor_text _) resource options request_id started_at e = pure tt
  record_refusal name scoped_object resource options request_id started_at e = pure tt
  record_refusal name other_value resource options request_id started_at e = pure tt

  abbrev pub given_or_new : Option String → Exec S String
  given_or_new none = g.random_uuid
  given_or_new (some id) = pure id

module _ {S A : Type 0} (g : ServiceGateway S) where
  -- The effect returned: its completion is recorded, and a failure to record it is a failure of
  -- the operation like one of the effect.
  unfoldable pub succeed : ExecuteOptions → String → A → EffectLocals → Exec S A
  succeed options evidence_id result locals = do
    completed_at ← g.now
    g.evidence.complete evidence_id (record {
      outcome = EffectOutcome.succeeded;
      completed_at = completed_at;
      failure_code = none;
      credential_ref = ref_update options locals.resolved_refs;
      credential_version = locals.stored_version;
    })
    pure result

  unfoldable pub fail_effect : ExecuteOptions → String → Error → EffectLocals → Exec S A
  fail_effect options evidence_id e locals = do
    completed_at ← g.now
    quietly (
        g.evidence.complete evidence_id (record {
          outcome = outcome_of_error e;
          completed_at = completed_at;
          failure_code = some (failure_code_of e);
          credential_ref = ref_update options locals.resolved_refs;
          credential_version = none;
        }))
    throw e

  -- The `try` block of `run`, from the state in which the effect left the world and the locals.
  unfoldable pub conclude : ExecuteOptions → String → Result A × (S × EffectLocals) → Result A × S
  conclude options evidence_id (ok a, (s, l)) =
      catch (succeed options evidence_id a l) (λ e. fail_effect options evidence_id e l) s
  conclude options evidence_id (err e, (s, l)) = fail_effect options evidence_id e l s

  -- The effect between its two evidence records; its tools act on the locals.
  unfoldable pub perform :
      ServiceExecutionContext
      → ExecuteOptions
      → (ServiceExecutionContext → Exec (S × EffectLocals) A)
      → ℕ
      → String
      → Exec S A
  perform context options effect started_at evidence_id = do
    g.evidence.write (started_evidence context options evidence_id started_at)
    λ s. conclude options evidence_id (effect context (s, no_locals))

  -- A live context of the gateway is asserted first.
  unfoldable pub run :
      Option ServiceExecutionContext
      → ExecuteOptions
      → (ServiceExecutionContext → Exec (S × EffectLocals) A)
      → ℕ
      → Exec S A
  run input options effect started_at = do
    now ← g.now
    context ← lift (assert_execution_context input (context_capability input) none now)
    evidence_id ← g.random_uuid
    perform context options effect started_at evidence_id
    where
      context_capability : Option ServiceExecutionContext → String
      context_capability none = ""
      context_capability (some c) = c.capability

  -- Authorize, then perform; a refusal is recorded and thrown on.
  unfoldable pub enforce :
      String
      → Caller
      → ServiceResource
      → ExecuteOptions
      → (ServiceExecutionContext → Exec (S × EffectLocals) A)
      → String
      → ℕ
      → Exec S A
  enforce name caller resource options effect request_id started_at =
      attempt (authorize g name caller resource request_id)
        (λ context. run (some context) options effect started_at)
        (λ e. do record_refusal g name caller resource options request_id started_at e; throw e)

  unfoldable pub execute :
      String
      → Caller
      → ServiceResource
      → ExecuteOptions
      → (ServiceExecutionContext → Exec (S × EffectLocals) A)
      → Exec S A
  unfolding enforce
  execute name caller resource options effect = do
    request_id ← given_or_new g options.request_id
    started_at ← g.now
    enforce name caller resource options effect request_id started_at
