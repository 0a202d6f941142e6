-- ===== src/Webhooks/Service/Endpoints.antt =====
-- webhooks/service.ts: registering and removing the destinations of deliveries.
use appport_services.Common.{
  ℕ, String, Bool, true, false, not, ◌==◌, opt_eq, Option, none, some, List, [], ◌∷◌, is_some,
  if◌then◌else◌,
}
use appport_services.Authority.Principal.{
  VerifiedPrincipal, Caller, verified, require_verified_principal, reject_caller_actor,
  resolve_tenant, migration_error,
}
use appport_services.Authority.Context.{ServiceResource, ServiceExecutionContext}
use appport_services.Authority.Credentials.{require_credential_ref}
use appport_services.Authority.Destination.{ValidatedDestination, validate_destination}
use appport_services.Authority.Gateway.{ServiceGateway, ExecuteOptions, for_service, without_tools}
use appport_services.Authority.Gateway.Execution.{execute}
use appport_services.Jobs.Models.{success}
use appport_services.Webhooks.Models.{
  WebhookEndpoint, CreateWebhookEndpointInput, DisableWebhookEndpointInput,
}
use appport_services.Webhooks.Service.{WebhookService, AuditFields, gateway, audit}
use appport_services.Exec.{Exec, pure, lift, Result, ok, err, invalid, ◌>>=◌, ◌>>◌}

-- An event about one endpoint.
abbrev endpoint_event : String → String → WebhookEndpoint → String → AuditFields
endpoint_event kind tenant_id endpoint principal_id = record {
  kind = kind;
  endpoint_id = some endpoint.id;
  delivery_id = none;
  integration_id = none;
  tenant_id = tenant_id;
  principal_id = principal_id;
  result = success;
  reason = none;
}

given : {A : Type 0} → Option A → String → Result A
given none message = err (invalid message)
given (some a) message = ok a

refuse_secret : Bool → Result (Unit {0})
refuse_secret true =
    err (migration_error "Webhook signing secrets are not accepted; pass signingCredentialRef.")
refuse_secret false = ok tt

new_endpoint :
    String
    → String
    → ServiceExecutionContext
    → ValidatedDestination
    → List String
    → String
    → ℕ
    → String
    → WebhookEndpoint
new_endpoint id tenant_id context destination events credential_ref now created_by = record {
  id = id;
  tenant_id = tenant_id;
  application_id = some context.application;
  url = destination.url.href;
  events = events;
  signing_credential_ref = some credential_ref;
  created_at = now;
  created_by = created_by;
  disabled_at = none;
  version = 1;
}

registration : String → ValidatedDestination → String → ServiceResource
registration tenant_id destination credential_ref = record {
  kind = "webhook_endpoint";
  tenant_id = tenant_id;
  id = none;
  attributes = ("destination", destination.url.origin) ∷ ("credentialRef", credential_ref) ∷ [];
}

abbrev pub with_ref : Option String → String → ExecuteOptions
with_ref provider credential_ref = record {
  service = "webhooks";
  provider = provider;
  credential_ref = some credential_ref;
  request_id = none;
}

module _ {S : Type 0} (svc : WebhookService S) where
  store_endpoint :
      String
      → ValidatedDestination
      → List String
      → String
      → VerifiedPrincipal
      → ServiceExecutionContext
      → Exec S WebhookEndpoint
  unfolding new_endpoint
  store_endpoint tenant_id destination events credential_ref principal context = do
    now ← svc.now
    id ← svc.random_uuid
    let endpoint =
        new_endpoint id tenant_id context destination events credential_ref now
          principal.principal_id
    svc.endpoint_store.create endpoint
    audit svc (endpoint_event "webhook.endpoint.created" tenant_id endpoint principal.principal_id)
    pure endpoint

  unfoldable pub create_webhook_endpoint :
      CreateWebhookEndpointInput → Caller → Exec S WebhookEndpoint
  unfolding given refuse_secret registration store_endpoint
  create_webhook_endpoint input caller = do
    principal ← lift (require_verified_principal caller)
    lift (refuse_secret input.has_secret)
    lift (reject_caller_actor input.claims principal)
    tenant_id ← lift (resolve_tenant input.tenant_id principal)
    url ← lift (given input.url "url must be a string")
    events ← lift (given input.events "events must be an array of event names")
    credential_ref ←
        lift (require_credential_ref input.signing_credential_ref "signingCredentialRef")
    destination ← validate_destination svc.network svc.destination_policy url
    g ← lift (gateway svc)
    execute g "webhooks.register" (verified principal)
        (registration tenant_id destination credential_ref) (with_ref none credential_ref)
        λ context.
          without_tools
            (store_endpoint tenant_id destination events credential_ref principal context)

  own_tenant : String → Option WebhookEndpoint → Option WebhookEndpoint
  own_tenant tenant_id none = none
  own_tenant tenant_id (some endpoint) =
      if endpoint.tenant_id == tenant_id then some endpoint else none

  unfoldable pub get_webhook_endpoint : String → String → Exec S (Option WebhookEndpoint)
  unfolding own_tenant
  get_webhook_endpoint tenant_id id = do
    endpoint ← svc.endpoint_store.get id
    pure (own_tenant tenant_id endpoint)

  unfoldable pub list_webhook_endpoints : String → Exec S (List WebhookEndpoint)
  list_webhook_endpoints tenant_id = svc.endpoint_store.list tenant_id

  after_disable : String → String → Option WebhookEndpoint → Exec S (Option WebhookEndpoint)
  after_disable tenant_id principal_id none = pure none
  after_disable tenant_id principal_id (some updated) = do
    audit svc (endpoint_event "webhook.endpoint.disabled" tenant_id updated principal_id)
    pure (some updated)

  disable_now : String → WebhookEndpoint → VerifiedPrincipal → Exec S (Option WebhookEndpoint)
  unfolding after_disable
  disable_now tenant_id endpoint principal = do
    disabled_at ← svc.now
    updated ← svc.endpoint_store.disable endpoint.id endpoint.version disabled_at
    after_disable tenant_id principal.principal_id updated

  disable_by :
      ServiceGateway S
      → VerifiedPrincipal
      → String
      → WebhookEndpoint
      → Exec S (Option WebhookEndpoint)
  unfolding disable_now
  disable_by g principal tenant_id endpoint =
      if not (opt_eq endpoint.application_id (some g.application))
      then pure none
      else if is_some endpoint.disabled_at
      then pure (some endpoint)
      else execute g "webhooks.remove" (verified principal)
          (record {
            kind = "webhook_endpoint";
            tenant_id = tenant_id;
            id = some endpoint.id;
            attributes = [];
          })
          (for_service "webhooks") (λ _. without_tools (disable_now tenant_id endpoint principal))

  disable_found :
      VerifiedPrincipal → String → Option WebhookEndpoint → Exec S (Option WebhookEndpoint)
  unfolding disable_by
  disable_found principal tenant_id none = pure none
  disable_found principal tenant_id (some endpoint) = do
    g ← lift (gateway svc)
    disable_by g principal tenant_id endpoint

  unfoldable pub disable_webhook_endpoint :
      DisableWebhookEndpointInput → Caller → Exec S (Option WebhookEndpoint)
  unfolding disable_found
  disable_webhook_endpoint input caller = do
    principal ← lift (require_verified_principal caller)
    lift (reject_caller_actor input.claims principal)
    tenant_id ← lift (resolve_tenant input.tenant_id principal)
    endpoint ← get_webhook_endpoint tenant_id input.id
    disable_found principal tenant_id endpoint
