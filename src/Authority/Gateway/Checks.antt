-- ===== src/Authority/Gateway/Checks.antt =====
-- Tests of the gateway in a small world, and instances of its theorems.
use appport_services.Common.{
  ◌≡◌, refl, ◌∙◌, ap, ◌≢◌, eq_iff, String, true, false, ◌==◌, opt_eq, Option, none, some, List, [],
  ◌∷◌, map, keep, if◌then◌else◌, arith,
}
use appport_services.Authority.Principal.{
  VerifiedPrincipal, by_host, verified, require_verified_principal, DurablePrincipal,
}
use appport_services.Authority.Manifest.{
  service_capability_manifest, find_capability, get_service_capability,
}
use appport_services.Authority.Context.{
  ServiceResource, ServiceExecutionContext, assert_execution_context, resource_uri,
}
use appport_services.Authority.Authorizer.{
  ServiceAuthorizationRequest, ServiceAuthorizationDecision, AuthorizerOutcome, answered,
}
use appport_services.Authority.Evidence.{EffectEvidence, EffectEvidenceStore, EvidenceUpdate}
use appport_services.Authority.Evidence.{
  EffectOutcome, EffectEvidenceLookup, EffectEvidenceLookupOptions, aggregate, completed,
  find_by_run_id, lookup_of, row_matches, with_state, evidence_state, aggregate_state, allow,
}
use appport_services.Authority.Evidence.Lookup.{IsScoped, find_by_run_id-IsScoped}
use appport_services.Common.{◌≤◌, false}
use appport_services.Common.Sorting.{sort_by}
use appport_services.Authority.Gateway.{
  ServiceGateway, for_service, without_tools, capability, assert_ownership, enforce_credential,
  request_for,
}
use appport_services.Authority.Gateway.Authorize.{
  decision_matches, validate_decision, settle_decision, decide_by, decide, grant,
  authorize_principal, authorize_capability, authorize,
}
use appport_services.Authority.Gateway.Execution.{
  execute, enforce, run, perform, conclude, succeed, started_evidence, ref_update,
  effective_delegation,
}
use appport_services.Authority.Gateway.Attest.{attest, row_attests}
use appport_services.Authority.Gateway.Enforcement.{
  IsAuthorized, authorize-IsAuthorized, execute-needs-IsAuthorized,
}
use appport_services.Authority.Gateway.Outcomes.{HasEvidence, run-HasEvidence}
use appport_services.Authority.Gateway.Accountability.{IsAccountable, execute-IsAccountable}
use appport_services.Authority.Gateway.Attestation.{HasVoucher, attest-HasVoucher}
use appport_services.Exec.{pure, ok}

-- The world is the evidence in it, the latest first.
abbrev pub World : Type 0
World = List EffectEvidence

abbrev completed_row : String → EvidenceUpdate → EffectEvidence → EffectEvidence
completed_row id u row =
    if row.id == id
    then record row {
      outcome = u.outcome;
      completed_at = some u.completed_at;
      failure_code = u.failure_code;
    }
    else row

abbrev listed_evidence : EffectEvidenceStore World
listed_evidence = record {
  write = λ row s. (ok tt, row ∷ s);
  complete = λ id u s. (ok tt, map (completed_row id u) s);
  find_by_decision = λ id s. (ok (keep (λ row. opt_eq row.decision_id (some id)) s), s);
  find_by_run_id = none;
}

-- An authorizer that allows whatever it is asked.
abbrev yes : ServiceAuthorizationRequest → ServiceAuthorizationDecision
yes request = record {
  decision_id = some "d1";
  allowed = some true;
  capability = some request.capability;
  tenant_id = some request.tenant_id;
  application_id = some request.application_id;
  subject_id = some request.subject_id;
  resource_uri = some request.resource_uri;
  reason = none;
  policy_version = none;
}

abbrev says_yes : ServiceAuthorizationRequest → World → AuthorizerOutcome × World
says_yes request s = (answered (some (yes request)), s)

abbrev gateway_of :
    Option (ServiceAuthorizationRequest → World → AuthorizerOutcome × World) → ServiceGateway World
gateway_of ask = record {
  application = "app";
  authorizer = ask;
  evidence = listed_evidence;
  now = pure 10;
  random_uuid = pure "e1";
  extension_capabilities = [];
  bindings = λ p. none;
  credentials = none;
  encode_uri_component = λ s. s;
  timeout_text = "5000";
}

abbrev pub open_gateway : ServiceGateway World
open_gateway = gateway_of (some says_yes)

abbrev closed_gateway : ServiceGateway World
closed_gateway = gateway_of none

abbrev pub ann : VerifiedPrincipal
ann = record {
  principal_id = "ann";
  principal_type = "user";
  tenant_id = "t";
  application_id = none;
  credential_id = none;
  delegation_id = none;
  run_id = none;
  verified_by = by_host;
}

abbrev pub new_job : ServiceResource
new_job = record { kind = "job"; tenant_id = "t"; id = none; attributes = [] }

abbrev pub granted : ServiceExecutionContext
granted = record {
  application = "app";
  tenant_id = "t";
  principal = ann;
  capability = "jobs.create";
  capability_version = 1;
  request_id = "r1";
  resource = new_job;
  resource_uri = "appport://app/tenants/t/job/*";
  authorization = record {
    decision_id = "d1";
    decided_at = 10;
    policy_version = none;
    reason = none;
  };
  expires_at = 60010;
}

authorized : (authorize open_gateway "jobs.create" (verified ann) new_job "r1" []).0 ≡ ok granted
unfolding authorize authorize_capability capability service_capability_manifest find_capability
    get_service_capability require_verified_principal assert_ownership enforce_credential
    authorize_principal request_for decide decide_by settle_decision validate_decision
    decision_matches grant resource_uri
authorized = refl

authorize-IsAuthorized_example :
    (p : VerifiedPrincipal) × (verified ann ≡ verified p)
    × (done : IsAuthorized open_gateway "jobs.create" p new_job "r1" granted) × (done.checked_in
        ≡ [])
authorize-IsAuthorized_example =
    authorize-IsAuthorized open_gateway "jobs.create" (verified ann) new_job "r1" [] granted
      authorized

-- The tenant of the job is not the caller's.
abbrev foreign_job : ServiceResource
foreign_job = record { kind = "job"; tenant_id = "u"; id = none; attributes = [] }

texts_differ : ◌≢◌ {A = String} "t" "u"
texts_differ e = ground (arith, (eq_iff "t" "u").1 e)

tenants_differ :
    (p : VerifiedPrincipal) (request_id : String) (context : ServiceExecutionContext)
    → verified ann ≡ verified p
    → ¬ IsAuthorized open_gateway "jobs.create" p foreign_job request_id context
tenants_differ p request_id context e authorization =
    let same : ann ≡ p = cc e in
    let tenant : "t" ≡ "u" = ap (λ x. x.tenant_id) same ∙ authorization.tenant in
    texts_differ tenant

execute-needs-IsAuthorized_example :
    execute open_gateway "jobs.create"
      (verified ann)
      foreign_job
      (for_service "jobs")
      (λ _. without_tools (pure true))
      []
    ≡ execute open_gateway "jobs.create"
        (verified ann)
        foreign_job
        (for_service "jobs")
        (λ _. without_tools (pure false))
        []
execute-needs-IsAuthorized_example =
    execute-needs-IsAuthorized open_gateway "jobs.create" (verified ann) foreign_job
      (for_service "jobs") (λ _. without_tools (pure true)) (λ _. without_tools (pure false)) []
      tenants_differ

returned :
    (run open_gateway (some granted) (for_service "jobs") (λ _. without_tools (pure true)) 10 []).0
    ≡ ok true
unfolding run assert_execution_context perform conclude succeed started_evidence ref_update
    effective_delegation
returned = refl

run-HasEvidence_example :
    HasEvidence open_gateway granted (for_service "jobs") (λ _. without_tools (pure true)) 10 true
run-HasEvidence_example =
    run-HasEvidence open_gateway granted (for_service "jobs") (λ _. without_tools (pure true)) 10 []
      true returned

performed :
    (execute open_gateway "jobs.create"
      (verified ann)
      new_job
      (for_service "jobs")
      (λ _. without_tools (pure true))
      []).0
    ≡ ok true
unfolding execute enforce run assert_execution_context perform conclude succeed started_evidence
    ref_update effective_delegation authorize authorize_capability capability
    service_capability_manifest find_capability get_service_capability require_verified_principal
    assert_ownership enforce_credential authorize_principal request_for decide decide_by
    settle_decision validate_decision decision_matches grant resource_uri
performed = refl

execute-IsAccountable_example :
    IsAccountable open_gateway "jobs.create"
      (verified ann)
      new_job
      (for_service "jobs")
      (λ _. without_tools (pure true))
      true
execute-IsAccountable_example =
    execute-IsAccountable open_gateway "jobs.create" (verified ann) new_job (for_service "jobs")
      (λ _. without_tools (pure true)) [] true performed

abbrev pub durable_ann : DurablePrincipal
durable_ann = record {
  principal_id = "ann";
  principal_type = "user";
  tenant_id = "t";
  application_id = none;
  delegation_id = none;
  credential_id = none;
  authorized_by = some "d1";
}

-- The evidence that creating the job leaves vouches for its creator.
abbrev after_creation : World
after_creation =
    (execute open_gateway "jobs.create" (verified ann) new_job (for_service "jobs")
      (λ _. without_tools (pure true)) []).1

attested : (attest open_gateway (some durable_ann) ("jobs.create" ∷ []) after_creation).0 ≡ ok tt
unfolding attest row_attests execute enforce run assert_execution_context perform conclude succeed
    started_evidence ref_update effective_delegation authorize authorize_capability capability
    service_capability_manifest find_capability get_service_capability require_verified_principal
    assert_ownership enforce_credential authorize_principal request_for decide decide_by
    settle_decision validate_decision decision_matches grant resource_uri
attested = refl

attest-HasVoucher_example : HasVoucher open_gateway durable_ann ("jobs.create" ∷ []) after_creation
attest-HasVoucher_example =
    attest-HasVoucher open_gateway durable_ann ("jobs.create" ∷ []) after_creation attested

-- Two rows of one run, the second of another tenant.
abbrev row_of : String → String → EffectEvidence
row_of id tenant = record {
  id = id;
  application = "app";
  tenant_id = tenant;
  principal_id = "ann";
  principal_type = "user";
  delegation_id = none;
  run_id = some "r1";
  capability = "jobs.create";
  capability_version = 1;
  resource = "appport://app";
  decision = allow;
  decision_id = some "d1";
  credential_ref = none;
  credential_version = none;
  service = "jobs";
  provider = none;
  request_id = "r1";
  started_at = 10;
  completed_at = some 11;
  outcome = EffectOutcome.succeeded;
  failure_code = none;
}

abbrev searchable : EffectEvidenceStore World
searchable = record listed_evidence { find_by_run_id = some (λ run filter s. (ok s, s)) }

abbrev of_tenant_t : EffectEvidenceLookupOptions
of_tenant_t = record { limit = some 5; tenant_id = some "t" }

abbrev one_found : EffectEvidenceLookup
one_found = record {
  run_id = "r1";
  state = aggregate completed;
  records = record { row = row_of "e1" "t"; state = completed } ∷ [];
  truncated = false;
}

found_one :
    (find_by_run_id
      (λ a b. true)
      searchable
      "app"
      "r1"
      of_tenant_t
      (row_of "e1" "t" ∷ row_of "e2" "u" ∷ [])).0
    ≡ ok one_found
unfolding find_by_run_id lookup_of row_matches with_state evidence_state aggregate_state sort_by
found_one = refl

find_by_run_id-IsScoped_example : (1 ≤ 5) × (5 ≤ 1000) × IsScoped "r1" "app" (some "t") 5 one_found
find_by_run_id-IsScoped_example =
    find_by_run_id-IsScoped (λ a b. true) searchable "app" "r1" of_tenant_t
      (row_of "e1" "t" ∷ row_of "e2" "u" ∷ []) one_found found_one
