-- ===== src/Webhooks/Service/Deliveries.antt =====
-- webhooks/service.ts: reading and replaying deliveries.
pub mod Reads
use appport_services.Common.{
  ℕ, String, Bool, true, false, not, ◌&&◌, ◌||◌, ◌==◌, opt_eq, Option, none, some, List, [], ◌∷◌,
  map, keep, take, leb, includes, is_some, truthy, or_default, present, if◌then◌else◌,
}
use appport_services.Authority.Errors.{authority_error, denied}
use appport_services.Authority.Principal.{
  VerifiedPrincipal, Caller, verified, require_verified_principal, resolve_tenant,
  to_durable_principal,
}
use appport_services.Authority.Context.{ServiceResource, ServiceExecutionContext}
use appport_services.Authority.Gateway.{ServiceGateway, for_service, without_tools}
use appport_services.Authority.Gateway.Execution.{execute}
use appport_services.Webhooks.Models.{
  WebhookEndpoint, WebhookDelivery, WebhookDeliveryStatus, pending, delivering, delivered, retrying,
  failed, same_status, WebhookDeliveryQuery, Limit, no_limit, bad_limit, limit, DeliveryFilter,
}
use appport_services.Webhooks.Service.{WebhookService, gateway, audit}
use appport_services.Webhooks.Service.Emit.{delivery_event}
use appport_services.Exec.{Exec, pure, throw, lift, Result, ok, err, invalid, require, ◌>>=◌, ◌>>◌}

abbrev pub default_webhook_delivery_page : ℕ
default_webhook_delivery_page = 50

abbrev pub max_webhook_delivery_page : ℕ
max_webhook_delivery_page = 200

-- A query that was validated.
pub record CheckedQuery : Type 0 where
  pub filter : DeliveryFilter
  pub limit : ℕ

check_limit : Limit → Result ℕ
check_limit no_limit = ok default_webhook_delivery_page
check_limit bad_limit = err (invalid "limit must be an integer from 1 to 200")
check_limit (limit n) =
    if leb 1 n && leb n max_webhook_delivery_page
    then ok n
    else err (invalid "limit must be an integer from 1 to 200")

check_endpoint : Option (Option String) → Result (Option String)
check_endpoint none = ok none
check_endpoint (some none) = err (invalid "endpointId must be a non-empty string")
check_endpoint (some (some id)) =
    if id == "" then err (invalid "endpointId must be a non-empty string") else ok (some id)

check_status : Option (Option WebhookDeliveryStatus) → Result (Option WebhookDeliveryStatus)
check_status none = ok none
check_status (some (some status)) = ok (some status)
check_status (some none) =
    err (invalid "status must be one of pending, delivering, delivered, retrying, failed")

-- `deliveryQuery`.
unfoldable pub delivery_query : {S : Type 0} → WebhookDeliveryQuery → Exec S CheckedQuery
unfolding check_limit check_endpoint check_status
delivery_query input = do
  n ← lift (check_limit input.page_limit)
  endpoint_id ← lift (check_endpoint input.endpoint_id)
  status ← lift (check_status input.status)
  pure (record { filter = record { endpoint_id = endpoint_id; status = status }; limit = n })

unfoldable pub status_name : WebhookDeliveryStatus → String
status_name pending = "pending"
status_name delivering = "delivering"
status_name delivered = "delivered"
status_name retrying = "retrying"
status_name failed = "failed"

abbrev name_or_star : Option WebhookDeliveryStatus → String
name_or_star none = "*"
name_or_star (some status) = status_name status

has_status : Option WebhookDeliveryStatus → WebhookDelivery → Bool
has_status none delivery = true
has_status (some status) delivery = same_status delivery.status status

abbrev of_application : String → WebhookEndpoint → Bool
of_application application endpoint = opt_eq endpoint.application_id (some application)

unfoldable pub delivery_resource : String → Option String → String → String → ServiceResource
delivery_resource tenant_id id endpoint_id status = record {
  kind = "webhook_delivery";
  tenant_id = tenant_id;
  id = id;
  attributes = ("endpointId", endpoint_id) ∷ ("status", status) ∷ [];
}

abbrev endpoint_or_star : Option WebhookDelivery → String
endpoint_or_star none = "*"
endpoint_or_star (some delivery) = delivery.endpoint_id

abbrev status_or_star : Option WebhookDelivery → String
status_or_star none = "*"
status_or_star (some delivery) = status_name delivery.status

-- Everything of the last attempts is taken back; a new principal answers for the next one.
unfoldable pub replay_update :
    VerifiedPrincipal → ServiceExecutionContext → WebhookDelivery → WebhookDelivery
replay_update principal context stored = record stored {
  status = pending;
  attempt_count = 0;
  next_attempt_at = none;
  last_attempt_at = none;
  delivered_at = none;
  last_status_code = none;
  last_error = none;
  principal = some (to_durable_principal principal none (some context.authorization.decision_id));
}

abbrev not_owned : Option String → List String → Bool
not_owned endpoint_id owned = truthy endpoint_id && not (includes owned (or_default endpoint_id ""))

module _ {S : Type 0} (svc : WebhookService S) where
  own_tenant : String → Option WebhookDelivery → Option WebhookDelivery
  own_tenant tenant_id none = none
  own_tenant tenant_id (some delivery) =
      if delivery.tenant_id == tenant_id then some delivery else none

  unfoldable pub get_webhook_delivery : String → String → Exec S (Option WebhookDelivery)
  unfolding own_tenant
  get_webhook_delivery tenant_id id = do
    delivery ← svc.delivery_store.get id
    pure (own_tenant tenant_id delivery)

  unfoldable pub list_webhook_deliveries :
      String → Option String → Option ℕ → Exec S (List WebhookDelivery)
  list_webhook_deliveries tenant_id endpoint_id count =
      svc.delivery_store.list tenant_id endpoint_id count

  unfoldable pub owned_endpoint_ids : String → String → Exec S (List String)
  owned_endpoint_ids tenant_id application = do
    endpoints ← svc.endpoint_store.list tenant_id
    pure (map (λ endpoint. endpoint.id) (keep (of_application application) endpoints))

  -- A store without `page` is read whole, and bounded in memory.
  unfoldable pub delivery_rows :
      Option (String → DeliveryFilter → ℕ → Exec S (List WebhookDelivery))
      → String
      → CheckedQuery
      → Exec S (List WebhookDelivery)
  unfolding has_status
  delivery_rows (some page) tenant_id query = page tenant_id query.filter query.limit
  delivery_rows none tenant_id query = do
    rows ← svc.delivery_store.list tenant_id query.filter.endpoint_id none
    pure (take query.limit (keep (has_status query.filter.status) rows))

  owned_rows : String → CheckedQuery → List String → Exec S (List WebhookDelivery)
  unfolding delivery_rows
  owned_rows tenant_id query owned =
      if not_owned query.filter.endpoint_id owned then pure [] else do
        rows ← delivery_rows svc.delivery_store.page tenant_id query
        pure (keep (λ delivery. includes owned delivery.endpoint_id) rows)

  -- The effect of `webhooks.deliveries.read`.
  unfoldable pub read_rows : String → CheckedQuery → String → Exec S (List WebhookDelivery)
  unfolding owned_rows owned_endpoint_ids
  read_rows tenant_id query application = do
    owned ← owned_endpoint_ids tenant_id application
    owned_rows tenant_id query owned

  unfoldable pub read_webhook_deliveries :
      WebhookDeliveryQuery → Caller → Exec S (List WebhookDelivery)
  unfolding delivery_query delivery_resource read_rows
  read_webhook_deliveries input caller = do
    principal ← lift (require_verified_principal caller)
    tenant_id ← lift (resolve_tenant input.tenant_id principal)
    query ← delivery_query input
    g ← lift (gateway svc)
    execute g "webhooks.deliveries.read" (verified principal)
        (delivery_resource tenant_id none (or_default query.filter.endpoint_id "*")
          (name_or_star query.filter.status))
        (for_service "webhooks")
        (λ context. without_tools (read_rows tenant_id query context.application))

  owned_delivery : String → String → Option WebhookDelivery → Exec S (Option WebhookDelivery)
  unfolding owned_endpoint_ids
  owned_delivery tenant_id application none = pure none
  owned_delivery tenant_id application (some delivery) = do
    owned ← owned_endpoint_ids tenant_id application
    pure (if includes owned delivery.endpoint_id then some delivery else none)

  -- The input's id is `none` where it is no text.
  unfoldable pub read_webhook_delivery :
      Option String → Option String → Caller → Exec S (Option WebhookDelivery)
  unfolding owned_delivery get_webhook_delivery delivery_resource
  read_webhook_delivery id tenant caller = do
    principal ← lift (require_verified_principal caller)
    tenant_id ← lift (resolve_tenant tenant principal)
    lift (require (truthy id) (invalid "id must be a non-empty string"))
    delivery ← get_webhook_delivery tenant_id (or_default id "")
    g ← lift (gateway svc)
    execute g "webhooks.deliveries.read" (verified principal)
        (delivery_resource tenant_id id (endpoint_or_star delivery) (status_or_star delivery))
        (for_service "webhooks")
        (λ context. without_tools (owned_delivery tenant_id context.application delivery))

  after_replay : String → String → Option WebhookDelivery → Exec S (Option WebhookDelivery)
  after_replay tenant_id principal_id none = pure none
  after_replay tenant_id principal_id (some updated) = do
    audit svc (delivery_event "webhook.delivery.replayed" tenant_id updated principal_id)
    pure (some updated)

  replay_now :
      String
      → String
      → WebhookDelivery
      → VerifiedPrincipal
      → ServiceExecutionContext
      → Exec S (Option WebhookDelivery)
  unfolding after_replay replay_update
  replay_now tenant_id delivery_id delivery principal context = do
    updated ←
        svc.delivery_store.update_delivery delivery_id delivery.version
          (replay_update principal context)
    after_replay tenant_id principal.principal_id updated

  replay_by :
      ServiceGateway S
      → VerifiedPrincipal
      → String
      → String
      → WebhookDelivery
      → WebhookEndpoint
      → Exec S (Option WebhookDelivery)
  unfolding replay_now
  replay_by g principal tenant_id delivery_id delivery endpoint =
      if not (opt_eq endpoint.application_id (some g.application))
      then pure none
      else execute g "webhooks.replay" (verified principal)
          (record {
            kind = "webhook_delivery";
            tenant_id = tenant_id;
            id = some delivery.id;
            attributes = ("endpointId", endpoint.id) ∷ [];
          })
          (for_service "webhooks")
          (λ context. without_tools (replay_now tenant_id delivery_id delivery principal context))

  replay_to :
      VerifiedPrincipal
      → String
      → String
      → WebhookDelivery
      → Option WebhookEndpoint
      → Exec S (Option WebhookDelivery)
  unfolding replay_by
  replay_to principal tenant_id delivery_id delivery none = pure none
  replay_to principal tenant_id delivery_id delivery (some endpoint) =
      if is_some endpoint.disabled_at
      then pure none
      else do g ← lift (gateway svc); replay_by g principal tenant_id delivery_id delivery endpoint

  replay_found :
      VerifiedPrincipal → String → String → Option WebhookDelivery → Exec S (Option WebhookDelivery)
  unfolding replay_to
  replay_found principal tenant_id delivery_id none = pure none
  replay_found principal tenant_id delivery_id (some delivery) = do
    endpoint ← svc.endpoint_store.get delivery.endpoint_id
    replay_to principal tenant_id delivery_id delivery endpoint

  unfoldable pub replay_webhook_delivery :
      String → String → Caller → Exec S (Option WebhookDelivery)
  unfolding replay_found get_webhook_delivery
  replay_webhook_delivery tenant_id delivery_id caller = do
    principal ← lift (require_verified_principal caller)
    lift (
        require (principal.tenant_id == tenant_id) (
          authority_error denied "Cross-tenant service operation denied"
            (record { capability = none; decision_id = none; reason = some "tenant_mismatch" })))
    delivery ← get_webhook_delivery tenant_id delivery_id
    replay_found principal tenant_id delivery_id delivery
