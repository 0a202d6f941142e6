-- ===== src/Webhooks/Service/Emit.antt =====
-- webhooks/service.ts: emitting events, reading deliveries and replaying them.
pub mod Matching
use appport_services.Common.{
  ℕ, String, Bool, true, false, not, ◌&&◌, ◌||◌, ◌==◌, opt_eq, Option, none, some, List, [], ◌∷◌,
  map, keep, any, take, leb, includes, is_some, truthy, or_default, present, if◌then◌else◌,
}
use Prim.Native.String
use appport_services.Common.Json.{Json}
use appport_services.Authority.Errors.{authority_error, denied}
use appport_services.Authority.Principal.{
  VerifiedPrincipal, Caller, verified, require_verified_principal, resolve_tenant,
  to_durable_principal,
}
use appport_services.Authority.Context.{ServiceResource, ServiceExecutionContext}
use appport_services.Authority.Gateway.{ServiceGateway, for_service, without_tools}
use appport_services.Authority.Gateway.Execution.{execute}
use appport_services.Jobs.Models.{success}
use appport_services.Webhooks.Models.{
  WebhookEndpoint, WebhookDelivery, WebhookDeliveryStatus, pending, delivering, delivered, retrying,
  failed, same_status, EmitWebhookEventInput, WebhookDeliveryQuery, Limit, no_limit, bad_limit,
  limit, DeliveryFilter,
}
use appport_services.Webhooks.Service.{WebhookService, AuditFields, gateway, audit}
use appport_services.Exec.{Exec, pure, throw, lift, Result, ok, err, invalid, require, ◌>>=◌, ◌>>◌}

-- An event about one delivery that succeeded.
abbrev pub delivery_event : String → String → WebhookDelivery → String → AuditFields
delivery_event kind tenant_id delivery principal_id = record {
  kind = kind;
  endpoint_id = some delivery.endpoint_id;
  delivery_id = some delivery.id;
  integration_id = none;
  tenant_id = tenant_id;
  principal_id = principal_id;
  result = success;
  reason = none;
}

abbrev destination_fields : List String
destination_fields =
    "url" ∷ "destination" ∷ "endpointId" ∷ "endpointIds" ∷ "signingCredentialRef" ∷ "credentialRef"
    ∷ []

refuse_chosen : List String → List String → Result (Unit {0})
refuse_chosen [] chosen = ok tt
refuse_chosen (field ∷ fields) chosen =
    let rest = refuse_chosen fields chosen in
    if includes chosen field
    then err (
        invalid (
          String.◌++◌ "\"" (
            String.◌++◌ field
              "\" cannot be chosen when emitting; deliveries go only to registered, credential-bound destinations")))
    else rest

abbrev is_allowed : Option (List String) → String → Bool
is_allowed none kind = true
is_allowed (some kinds) kind = includes kinds kind

-- An enabled endpoint of the application that subscribes to the event.
unfoldable pub subscribes : String → String → WebhookEndpoint → Bool
subscribes application kind endpoint =
    opt_eq endpoint.application_id (some application)
    && not (is_some endpoint.disabled_at)
    && includes endpoint.events kind

unfoldable pub new_delivery :
    EmitWebhookEventInput
    → String
    → VerifiedPrincipal
    → ServiceExecutionContext
    → String
    → ℕ
    → WebhookEndpoint
    → String
    → WebhookDelivery
new_delivery input tenant_id principal context event_id created_at endpoint id = record {
  id = id;
  tenant_id = tenant_id;
  endpoint_id = endpoint.id;
  event_id = event_id;
  event_type = input.kind;
  payload = input.payload;
  status = pending;
  attempt_count = 0;
  next_attempt_at = none;
  created_at = created_at;
  last_attempt_at = none;
  delivered_at = none;
  last_status_code = none;
  last_error = none;
  principal = some (to_durable_principal principal none (some context.authorization.decision_id));
  version = 1;
}

module _ {S : Type 0} (svc : WebhookService S) where
  -- `matching.map(...)`, each delivery with a new id.
  unfoldable pub make_deliveries :
      (WebhookEndpoint → String → WebhookDelivery)
      → List WebhookEndpoint
      → Exec S (List WebhookDelivery)
  make_deliveries make [] = pure []
  make_deliveries make (endpoint ∷ rest) = do
    id ← svc.random_uuid
    deliveries ← make_deliveries make rest
    pure (make endpoint id ∷ deliveries)

  unfoldable pub announce : String → String → List WebhookDelivery → Exec S (Unit {0})
  announce tenant_id principal_id [] = pure tt
  announce tenant_id principal_id (delivery ∷ rest) = do
    audit svc (delivery_event "webhook.delivery.created" tenant_id delivery principal_id)
    announce tenant_id principal_id rest

  queue_deliveries :
      EmitWebhookEventInput
      → String
      → VerifiedPrincipal
      → ServiceExecutionContext
      → List WebhookEndpoint
      → Exec S (List WebhookDelivery)
  unfolding make_deliveries announce
  queue_deliveries input tenant_id principal context [] = pure []
  queue_deliveries input tenant_id principal context (endpoint ∷ rest) = do
    event_id ← svc.random_uuid
    created_at ← svc.now
    deliveries ←
        make_deliveries (new_delivery input tenant_id principal context event_id created_at)
          (endpoint ∷ rest)
    svc.delivery_store.create_multiple deliveries
    announce tenant_id principal.principal_id deliveries
    pure deliveries

  -- The effect of `webhooks.emit`.
  unfoldable pub emit_to_endpoints :
      EmitWebhookEventInput
      → String
      → VerifiedPrincipal
      → ServiceExecutionContext
      → Exec S (List WebhookDelivery)
  unfolding queue_deliveries
  emit_to_endpoints input tenant_id principal context = do
    endpoints ← svc.endpoint_store.list tenant_id
    queue_deliveries input tenant_id principal context
        (keep (subscribes context.application input.kind) endpoints)

  unfoldable pub emit_webhook_event : EmitWebhookEventInput → Caller → Exec S (List WebhookDelivery)
  unfolding refuse_chosen emit_to_endpoints
  emit_webhook_event input caller = do
    principal ← lift (require_verified_principal caller)
    lift (refuse_chosen destination_fields input.chosen)
    tenant_id ← lift (resolve_tenant input.tenant_id principal)
    lift (
        require (is_allowed svc.allowed_events input.kind) (
          invalid (
            String.◌++◌ "Webhook event \""
              (String.◌++◌ input.kind "\" is not declared in appport.toml"))))
    g ← lift (gateway svc)
    execute g "webhooks.emit" (verified principal)
        (record {
          kind = "webhook_event";
          tenant_id = tenant_id;
          id = none;
          attributes = ("eventType", input.kind) ∷ [];
        })
        (for_service "webhooks")
        (λ context. without_tools (emit_to_endpoints input tenant_id principal context))
