-- ===== src/Webhooks/Service/Deliver.antt =====
-- webhooks/service.ts: one attempt of a delivery, and how it is settled.
pub mod Authority
use Prim.Native.String
use appport_services.Common.{
  ℕ, ◌+◌, ◌*◌, ◌^◌, String, Bool, true, false, not, ◌&&◌, ◌||◌, ◌==◌, eqb, opt_eq, leb, ltb, Option,
  none, some, List, [], ◌∷◌, is_some, or_default, or_else, truthy, decimal, if◌then◌else◌,
}
use appport_services.Common.Json.{Json, text, object, member, end}
use appport_services.Authority.Errors.{
  ServiceFailureCode, denied, authority_unavailable, authorization_timeout, invalid_request,
  provider_error, unauthenticated, not_found, custody_read_only, Error, authority_error,
  delivery_error, conditional_conflict, other_error,
}
use appport_services.Authority.Principal.{
  DurablePrincipal, VerifiedPrincipal, verified, by_delivery, mint_verified_principal,
  durable_claims,
}
use appport_services.Authority.Context.{ServiceResource, ServiceExecutionContext}
use appport_services.Authority.Custody.{ResolvedSecret}
use appport_services.Authority.Destination.{ValidatedDestination, validate_destination, Url}
use appport_services.Authority.Gateway.{ServiceGateway, ExecuteOptions, EffectLocals, without_tools}
use appport_services.Authority.Gateway.Execution.{execute, code_name}
use appport_services.Authority.Gateway.Attest.{attest}
use appport_services.Authority.Gateway.Custody.{credential_tool}
use appport_services.Jobs.Models.{success, failure}
use appport_services.Webhooks.Models.{
  WebhookEndpoint, WebhookDelivery, pending, delivering, delivered, retrying, failed, same_status,
  WebhookDeliveryResult,
}
use appport_services.Webhooks.Signatures.{sign_webhook_payload, signing_secret_value}
use appport_services.Webhooks.Service.{
  WebhookService, AuditFields, HttpRequest, HttpOutcome, responded, network_error, timed_out,
  gateway, audit, initial_retry_delay_ms,
}
use appport_services.Webhooks.Service.Endpoints.{with_ref}
use appport_services.Webhooks.Service.Emit.{delivery_event}
use appport_services.Exec.{Exec, pure, throw, lift, attempt, catch, ◌>>=◌, ◌>>◌}
use appport_services.Webhooks.Service.Settlement.{
  emitting_capabilities, succeeded_with, failed_with, http_failure, result_of_status,
  result_of_outcome, is_terminal, code_of, failure_result, message_of, Settlement, by_provider,
  by_code, settlement, coded, error_text, settle_update, principal_or_anonymous, failure_event,
  is_denied, deliver, refuse, postpone, give_up, retry,
}

unfoldable pub deliver_resource :
    String → WebhookEndpoint → String → WebhookDelivery → String → ServiceResource
deliver_resource tenant_id endpoint credential_ref delivery origin = record {
  kind = "webhook_delivery";
  tenant_id = tenant_id;
  id = some delivery.id;
  attributes =
      ("endpointId", endpoint.id)
      ∷ ("destination", origin)
      ∷ ("eventType", delivery.event_type)
      ∷ ("credentialRef", credential_ref)
      ∷ [];
}

unfoldable pub attempt_run_id : WebhookDelivery → WebhookDelivery → String
attempt_run_id delivery claimed =
    String.◌++◌ delivery.id (String.◌++◌ ":" (decimal (claimed.attempt_count + 1)))

module _ {S : Type 0} (svc : WebhookService S) where
  update_claimed : Settlement → ℕ → WebhookDelivery → WebhookDeliveryResult → Exec S (Unit {0})
  unfolding settle_update
  update_claimed s now claimed result = do
    svc.delivery_store.update_delivery claimed.id claimed.version
        (settle_update s now claimed result)
    pure tt

  audit_failure : String → WebhookDelivery → String → Exec S (Unit {0})
  audit_failure kind claimed reason = audit svc (
      failure_event kind claimed.tenant_id claimed.endpoint_id claimed
        (principal_or_anonymous claimed.principal) reason)

  settle_attempt : Settlement → ℕ → WebhookDelivery → WebhookDeliveryResult → Exec S (Unit {0})
  unfolding update_claimed audit_failure
  settle_attempt deliver now claimed result = do
    update_claimed deliver now claimed result
    audit svc (
        delivery_event "webhook.delivery.delivered" claimed.tenant_id claimed
          (principal_or_anonymous claimed.principal))
  settle_attempt (refuse code) now claimed result = do
    update_claimed (refuse code) now claimed result
    audit_failure (if is_denied code then "webhook.delivery.denied" else "webhook.delivery.failed")
        claimed (code_name code)
  settle_attempt (postpone code) now claimed result = do
    later ← svc.now
    update_claimed (postpone code) later claimed result
  settle_attempt give_up now claimed result = do
    update_claimed give_up now claimed result
    audit_failure "webhook.delivery.failed" claimed "PROVIDER_ERROR"
  settle_attempt retry now claimed result = do
    later ← svc.now
    update_claimed retry later claimed result

  unfoldable pub record_attempt : WebhookDelivery → WebhookDeliveryResult → Exec S (Unit {0})
  unfolding settlement settle_attempt
  record_attempt claimed result = do
    now ← svc.now
    settle_attempt (settlement svc.retry_attempts claimed result) now claimed result

  -- `deliveryBody`.
  unfoldable pub delivery_body : WebhookDelivery → String
  delivery_body delivery = svc.stringify (
      object (
        member "id" (text delivery.id) (
          member "eventId" (text delivery.event_id) (
            member "type" (text delivery.event_type) (
              member "data" delivery.payload
                (member "timestamp" (text (svc.date_text delivery.created_at)) end))))))

  unfoldable pub perform_http_delivery :
      ValidatedDestination → WebhookDelivery → String → String → Exec S WebhookDeliveryResult
  unfolding result_of_outcome
  perform_http_delivery destination delivery payload signature = do
    outcome ← svc.send (record {
      url = destination.url;
      address = destination.address;
      signature = signature;
      event_id = delivery.event_id;
      body = payload;
    })
    pure (result_of_outcome outcome)

  abbrev sign_with : String → ResolvedSecret → Exec S String
  sign_with payload secret = do
    key ← lift (signing_secret_value secret.value)
    pure (sign_webhook_payload svc.hmac key payload)

  throw_failure : WebhookDeliveryResult → Exec (S × EffectLocals) WebhookDeliveryResult
  throw_failure outcome =
      if outcome.success
      then pure outcome
      else throw
          (delivery_error (or_default outcome.error "Webhook delivery failed") outcome.status_code)

  -- The effect of `webhooks.deliver`: the bound destination is checked again on every attempt.
  unfoldable pub send_delivery :
      ServiceGateway S
      → WebhookEndpoint
      → String
      → WebhookDelivery
      → ServiceExecutionContext
      → Exec (S × EffectLocals) WebhookDeliveryResult
  unfolding delivery_body perform_http_delivery throw_failure
  send_delivery g endpoint credential_ref claimed context = do
    destination ←
        without_tools (validate_destination svc.network svc.destination_policy endpoint.url)
    let payload = delivery_body claimed
    signature ←
        credential_tool g context (with_ref (some "webhook") credential_ref) credential_ref
          "webhook.sign" (sign_with payload)
    outcome ← without_tools (perform_http_delivery destination claimed payload signature)
    throw_failure outcome

  -- `new URL(url).origin` throws for a text that is no URL.
  attempt_at :
      ServiceGateway S
      → String
      → WebhookDelivery
      → WebhookEndpoint
      → String
      → VerifiedPrincipal
      → (ServiceExecutionContext → Exec (S × EffectLocals) WebhookDeliveryResult)
      → Option Url
      → Exec S WebhookDeliveryResult
  unfolding deliver_resource
  attempt_at g tenant_id delivery endpoint credential_ref principal effect none =
      throw (other_error "Invalid URL")
  attempt_at g tenant_id delivery endpoint credential_ref principal effect (some url) =
      execute g "webhooks.deliver" (verified principal)
        (deliver_resource tenant_id endpoint credential_ref delivery url.origin)
        (with_ref (some "webhook") credential_ref) effect

  -- The claimed delivery is what is sent; the resource names the delivery as it was read.
  unfoldable pub attempt_delivery :
      ServiceGateway S
      → String
      → WebhookDelivery
      → WebhookEndpoint
      → String
      → VerifiedPrincipal
      → (ServiceExecutionContext → Exec (S × EffectLocals) WebhookDeliveryResult)
      → Exec S WebhookDeliveryResult
  unfolding attempt_at
  attempt_delivery g tenant_id delivery endpoint credential_ref principal effect =
      catch
        (attempt_at g tenant_id delivery endpoint credential_ref principal effect
          (svc.network.parse_url endpoint.url))
        (λ e. pure (failure_result svc.conflict_message e))

  unfoldable pub deliver_claimed :
      ServiceGateway S
      → String
      → WebhookDelivery
      → WebhookEndpoint
      → String
      → DurablePrincipal
      → Option WebhookDelivery
      → Exec S WebhookDeliveryResult
  unfolding attempt_delivery send_delivery record_attempt attempt_run_id
  deliver_claimed g tenant_id delivery endpoint credential_ref durable none =
      pure (succeeded_with (some 200))
  deliver_claimed g tenant_id delivery endpoint credential_ref durable (some claimed) = do
    principal ← lift (
        mint_verified_principal (durable_claims durable (attempt_run_id delivery claimed))
          by_delivery)
    result ←
        attempt_delivery g tenant_id delivery endpoint credential_ref principal
          (send_delivery g endpoint credential_ref claimed)
    record_attempt claimed result
    pure result

-- `deliverWebhook` of one delivery for a tenant, by the id that it was asked for.
module _ {S : Type 0} (svc : WebhookService S) (tenant_id delivery_id : String) where
  fail_delivery : WebhookDelivery → String → Exec S (Unit {0})
  fail_delivery delivery message = do
    svc.delivery_store.update_delivery delivery_id delivery.version
        (λ stored. record stored { status = failed; last_error = some message })
    pure tt

  denied_event : WebhookEndpoint → String → String → AuditFields
  denied_event endpoint principal_id reason = record {
    kind = "webhook.delivery.denied";
    endpoint_id = some endpoint.id;
    delivery_id = some delivery_id;
    integration_id = none;
    tenant_id = tenant_id;
    principal_id = principal_id;
    result = failure;
    reason = some reason;
  }

  unfoldable pub refuse_unattested :
      WebhookDelivery → WebhookEndpoint → DurablePrincipal → Error → Exec S WebhookDeliveryResult
  unfolding fail_delivery denied_event
  refuse_unattested delivery endpoint durable e = do
    fail_delivery delivery (String.◌++◌ "DENIED: " (message_of svc.conflict_message e))
    audit svc (denied_event endpoint durable.principal_id "unattested_principal")
    pure (failure_result svc.conflict_message e)

  -- A delivery that was claimed in between is someone else's.
  claim_and_deliver :
      ServiceGateway S
      → WebhookDelivery
      → WebhookEndpoint
      → DurablePrincipal
      → String
      → Exec S WebhookDeliveryResult
  unfolding deliver_claimed
  claim_and_deliver g delivery endpoint durable credential_ref = do
    claimed ← svc.delivery_store.claim delivery_id delivery.version
    deliver_claimed svc g tenant_id delivery endpoint credential_ref durable claimed

  unfoldable pub deliver_attested :
      ServiceGateway S
      → WebhookDelivery
      → WebhookEndpoint
      → DurablePrincipal
      → String
      → Exec S WebhookDeliveryResult
  unfolding refuse_unattested claim_and_deliver
  deliver_attested g delivery endpoint durable credential_ref =
      attempt (attest g (some durable) emitting_capabilities)
        (λ _. claim_and_deliver g delivery endpoint durable credential_ref)
        (refuse_unattested delivery endpoint durable)

  refuse_unsigned : WebhookDelivery → Exec S WebhookDeliveryResult
  unfolding fail_delivery
  refuse_unsigned delivery = do
    fail_delivery delivery "Endpoint has no signing credential reference; re-register it"
    pure (failed_with invalid_request "Endpoint has no signing credential reference")

  deliver_signed :
      ServiceGateway S
      → WebhookDelivery
      → WebhookEndpoint
      → DurablePrincipal
      → Option String
      → Exec S WebhookDeliveryResult
  unfolding deliver_attested refuse_unsigned
  deliver_signed g delivery endpoint durable credential_ref =
      if truthy credential_ref
      then deliver_attested g delivery endpoint durable (or_default credential_ref "")
      else refuse_unsigned delivery

  refuse_anonymous : WebhookDelivery → WebhookEndpoint → Exec S WebhookDeliveryResult
  unfolding fail_delivery denied_event
  refuse_anonymous delivery endpoint = do
    fail_delivery delivery "DENIED: delivery has no durable execution principal"
    audit svc (denied_event endpoint "anonymous" "anonymous")
    pure (failed_with denied "Delivery has no durable execution principal")

  deliver_as :
      ServiceGateway S
      → WebhookDelivery
      → WebhookEndpoint
      → Option DurablePrincipal
      → Exec S WebhookDeliveryResult
  unfolding refuse_anonymous deliver_signed
  deliver_as g delivery endpoint none = refuse_anonymous delivery endpoint
  deliver_as g delivery endpoint (some durable) =
      if durable.tenant_id == tenant_id
      then deliver_signed g delivery endpoint durable endpoint.signing_credential_ref
      else refuse_anonymous delivery endpoint

  refuse_disabled : WebhookDelivery → Exec S WebhookDeliveryResult
  unfolding fail_delivery
  refuse_disabled delivery = do
    fail_delivery delivery "Endpoint is disabled"
    pure (failed_with invalid_request "Endpoint is disabled")

  unfoldable pub deliver_by :
      ServiceGateway S → WebhookDelivery → WebhookEndpoint → Exec S WebhookDeliveryResult
  unfolding deliver_as refuse_disabled
  deliver_by g delivery endpoint =
      if not (opt_eq endpoint.application_id (some g.application))
      then pure (failed_with denied "Endpoint belongs to a different application")
      else if is_some endpoint.disabled_at
      then refuse_disabled delivery
      else deliver_as g delivery endpoint delivery.principal

  deliver_here : WebhookDelivery → WebhookEndpoint → Exec S WebhookDeliveryResult
  unfolding deliver_by
  deliver_here delivery endpoint = do g ← lift (gateway svc); deliver_by g delivery endpoint

  unfoldable pub deliver_to :
      WebhookDelivery → Option WebhookEndpoint → Exec S WebhookDeliveryResult
  unfolding deliver_here
  deliver_to delivery none = pure (failed_with invalid_request "Endpoint not found")
  deliver_to delivery (some endpoint) =
      if endpoint.tenant_id == tenant_id
      then deliver_here delivery endpoint
      else pure (failed_with invalid_request "Endpoint not found")

  deliver_pending : WebhookDelivery → Exec S WebhookDeliveryResult
  unfolding deliver_to
  deliver_pending delivery = do
    endpoint ← svc.endpoint_store.get delivery.endpoint_id
    deliver_to delivery endpoint

  unfoldable pub deliver_found : Option WebhookDelivery → Exec S WebhookDeliveryResult
  unfolding deliver_pending
  deliver_found none = pure (failed_with invalid_request "Delivery not found")
  deliver_found (some delivery) =
      if not (delivery.tenant_id == tenant_id)
      then pure (failed_with denied "Tenant mismatch")
      else if same_status delivery.status delivered || same_status delivery.status delivering
      then pure (succeeded_with (some 200))
      else deliver_pending delivery

  unfoldable pub deliver_webhook : Exec S WebhookDeliveryResult
  unfolding deliver_found
  deliver_webhook = do delivery ← svc.delivery_store.get delivery_id; deliver_found delivery
