-- ===== src/Webhooks/Service/Inbound.antt =====
-- webhooks/service.ts: inbound webhooks.
pub mod Acceptance
use Prim.Native.String
use appport_services.Common.{
  ℕ, ◌+◌, ◌-◌, String, Bool, true, false, not, ◌&&◌, ◌||◌, ◌==◌, leb, ltb, Option, none, some, List,
  [], ◌∷◌, get, is_some, or_default, or_else, truthy, if◌then◌else◌,
}
use appport_services.Common.Json.{Json}
use appport_services.Authority.Errors.{
  ServiceFailureCode, denied, invalid_request, not_found, authority_unavailable, provider_error,
  no_details, Error, authority_error, delivery_error, conditional_conflict, other_error,
}
use appport_services.Authority.Principal.{
  PrincipalClaims, VerifiedPrincipal, Caller, verified, by_integration, mint_verified_principal,
  require_verified_principal, reject_caller_actor, resolve_tenant,
}
use appport_services.Authority.Context.{ServiceResource, ServiceExecutionContext}
use appport_services.Authority.Credentials.{require_credential_ref}
use appport_services.Authority.Custody.{ResolvedSecret}
use appport_services.Authority.Gateway.{ServiceGateway, ExecuteOptions, EffectLocals, without_tools}
use appport_services.Authority.Gateway.Execution.{execute, code_name, quietly}
use appport_services.Authority.Gateway.Custody.{credential_tool}
use appport_services.Jobs.Models.{AuditResult, success, failure}
use appport_services.Webhooks.Models.{
  WebhookIntegration, WebhookIntegrationStore, InboundWebhookReplayStore, AcceptedEvent,
  RegisterWebhookIntegrationInput, InboundWebhookRequest, InboundWebhookResult,
}
use appport_services.Webhooks.Signatures.{signing_secret_value, verify_webhook_signature}
use appport_services.Webhooks.Service.{
  WebhookService, AuditFields, InboundWebhookHandler, gateway, audit, require_integration_store,
  is_provider,
}
use appport_services.Webhooks.Service.Endpoints.{with_ref}
use appport_services.Exec.{
  Exec, pure, throw, lift, catch, Result, ok, err, invalid, require, ◌>>=◌, ◌>>◌,
}
use appport_services.Webhooks.Service.Integrations.{integration_event}

-- The headers and the body that an inbound webhook must have, with the time in its header.
pub record Envelope : Type 0 where
  pub event_id : String
  pub timestamp : String
  pub signature : String
  pub raw_body : String

abbrev because : String → String → Error
because message reason =
    authority_error denied message
      (record { capability = none; decision_id = none; reason = some reason })

abbrev first_value : Option (List String) → Option String
first_value none = none
first_value (some []) = none
first_value (some (value ∷ _)) = some value

-- `details.reason ?? code`, for a ServiceAuthorityError.
unfoldable pub rejection_reason : Error → String
unfolding code_name
rejection_reason (authority_error code message details) = or_default details.reason (code_name code)
rejection_reason (delivery_error message status_code) = code_name provider_error
rejection_reason conditional_conflict = "handler_failed"
rejection_reason (other_error message) = "handler_failed"

-- Identity comes from the integration record only.
unfoldable pub integration_claims : WebhookIntegration → PrincipalClaims
integration_claims integration = record {
  principal_id = integration.principal_id;
  principal_type = "integration";
  tenant_id = integration.tenant_id;
  application_id = some integration.application_id;
  credential_id = none;
  delegation_id = none;
  run_id = none;
}

unfoldable pub receive_resource : WebhookIntegration → Envelope → ServiceResource
receive_resource integration envelope = record {
  kind = "webhook_integration";
  tenant_id = integration.tenant_id;
  id = some integration.id;
  attributes =
      ("provider", integration.provider)
      ∷ ("eventId", envelope.event_id)
      ∷ ("credentialRef", integration.signing_credential_ref)
      ∷ [];
}

-- `Math.abs(now - sentAt) > tolerance`.
unfoldable pub is_outside : ℕ → ℕ → ℕ → Bool
is_outside tolerance now sent_at = ltb tolerance (now - sent_at) || ltb tolerance (sent_at - now)

-- A date that cannot be read, or lies before 1970, is none.
abbrev is_stale : ℕ → ℕ → Option ℕ → Bool
is_stale tolerance now none = true
is_stale tolerance now (some sent_at) = is_outside tolerance now sent_at

-- What the signature covers.
unfoldable pub signed_text : Envelope → String
signed_text envelope = String.◌++◌ envelope.timestamp (String.◌++◌ "." envelope.raw_body)

abbrev unknown_integration : Error
unknown_integration = authority_error not_found "Webhook integration not found" no_details

unfoldable pub usable : Option WebhookIntegration → Result WebhookIntegration
usable none = err unknown_integration
usable (some integration) =
    if is_some integration.disabled_at then err unknown_integration else ok integration

pub find_integration :
    {S : Type 0} → WebhookIntegrationStore S → Option String → Exec S (Option WebhookIntegration)
find_integration store none = pure none
find_integration store (some id) = store.get id

require_replay_store :
    {S : Type 0} → Option (InboundWebhookReplayStore S) → Result (InboundWebhookReplayStore S)
require_replay_store none = err (
    authority_error authority_unavailable "Inbound webhooks require a durable replay store"
      no_details)
require_replay_store (some replay) = ok replay

module _ {S : Type 0} (svc : WebhookService S) where
  header_ignoring_case : String → List (String × List String) → Option (List String)
  header_ignoring_case name [] = none
  header_ignoring_case name ((key, value) ∷ rest) =
      if svc.network.lower_case key == name then some value else header_ignoring_case name rest

  -- `header`, for a name in lower case.
  unfoldable pub header : List (String × List String) → String → Option String
  unfolding header_ignoring_case
  header headers name = first_value (or_else (get name headers) (header_ignoring_case name headers))

  envelope_of : Option String → Option String → Option String → Option String → Result Envelope
  envelope_of event_id timestamp signature raw_body =
      if truthy event_id && truthy timestamp && truthy signature && is_some raw_body
      then ok (record {
        event_id = or_default event_id "";
        timestamp = or_default timestamp "";
        signature = or_default signature "";
        raw_body = or_default raw_body "";
      })
      else err (invalid "Inbound webhook requires event id, timestamp, signature, and body")

  unfoldable pub open_envelope : InboundWebhookRequest → Result Envelope
  unfolding envelope_of header
  open_envelope request =
      envelope_of (header request.headers "x-appport-event-id")
        (header request.headers "x-appport-timestamp")
        (header request.headers "x-appport-signature") request.raw_body

  unfoldable pub check_signature : Envelope → ResolvedSecret → Exec S Bool
  unfolding signed_text
  check_signature envelope secret = do
    key ← lift (signing_secret_value secret.value)
    pure (verify_webhook_signature svc.hmac key (signed_text envelope) envelope.signature)

  unfoldable pub event_record : WebhookIntegration → Envelope → ℕ → ℕ → AcceptedEvent
  event_record integration envelope sent_at now = record {
    id = svc.sha256 (String.◌++◌ integration.id (String.◌++◌ ":" envelope.event_id));
    integration_id = integration.id;
    provider = integration.provider;
    event_id = envelope.event_id;
    event_timestamp = sent_at;
    accepted_at = now;
    tenant_id = integration.tenant_id;
  }

  parsed : Option Json → Result Json
  parsed none = err (invalid "Inbound webhook body must be JSON")
  parsed (some payload) = ok payload

  handle_event :
      Option (InboundWebhookHandler S)
      → WebhookIntegration
      → Envelope
      → ℕ
      → Json
      → VerifiedPrincipal
      → ServiceExecutionContext
      → Exec S (Option Json)
  handle_event none integration envelope sent_at payload principal context = pure none
  handle_event (some handler) integration envelope sent_at payload principal context =
      handler (record {
        event = record {
          integration_id = integration.id;
          provider = integration.provider;
          event_id = envelope.event_id;
          timestamp = sent_at;
          payload = payload;
        };
        principal = principal;
        context = context;
      })

  -- The event was authentic: it is accepted once, and then handled.
  unfoldable pub accept_event :
      InboundWebhookReplayStore S
      → WebhookIntegration
      → Envelope
      → ℕ
      → VerifiedPrincipal
      → ServiceExecutionContext
      → Exec S InboundWebhookResult
  unfolding event_record parsed handle_event
  accept_event replay integration envelope sent_at principal context = do
    now ← svc.now
    accepted ← replay.accept (event_record integration envelope sent_at now)
    lift (require accepted (because "Inbound webhook event was already accepted" "replayed"))
    payload ← lift (parsed (svc.parse_json envelope.raw_body))
    handled ←
        handle_event (svc.handlers integration.provider) integration envelope sent_at payload
          principal context
    pure (record { accepted = true; event_id = envelope.event_id; result = handled })

  -- The effect of `webhooks.receive`.
  unfoldable pub receive_effect :
      ServiceGateway S
      → InboundWebhookReplayStore S
      → WebhookIntegration
      → Envelope
      → ℕ
      → VerifiedPrincipal
      → ServiceExecutionContext
      → Exec (S × EffectLocals) InboundWebhookResult
  unfolding check_signature accept_event
  receive_effect g replay integration envelope sent_at principal context = do
    valid ←
        credential_tool g context
          (with_ref (some integration.provider) integration.signing_credential_ref)
          integration.signing_credential_ref "webhook.verify" (check_signature envelope)
    lift (require valid (because "Inbound webhook signature is invalid" "invalid_signature"))
    without_tools (accept_event replay integration envelope sent_at principal context)

  receive_authorized :
      InboundWebhookReplayStore S
      → WebhookIntegration
      → Envelope
      → ℕ
      → VerifiedPrincipal
      → Exec S InboundWebhookResult
  unfolding receive_effect receive_resource
  receive_authorized replay integration envelope sent_at principal = do
    g ← lift (gateway svc)
    execute g "webhooks.receive" (verified principal) (receive_resource integration envelope)
        (with_ref (some integration.provider) integration.signing_credential_ref)
        (receive_effect g replay integration envelope sent_at principal)

  reject_event : WebhookIntegration → Error → Exec S InboundWebhookResult
  unfolding integration_event rejection_reason
  reject_event integration e = do
    quietly (
        audit svc (
          integration_event "webhook.inbound.rejected" integration integration.principal_id failure
            (some (rejection_reason e))))
    throw e

  announce_accepted :
      WebhookIntegration → VerifiedPrincipal → InboundWebhookResult → Exec S InboundWebhookResult
  unfolding integration_event
  announce_accepted integration principal result = do
    audit svc (
        integration_event "webhook.inbound.accepted" integration principal.principal_id success
          none)
    pure result

  -- The `try` block: the audit of the acceptance is a part of it.
  receive_as :
      InboundWebhookReplayStore S
      → WebhookIntegration
      → Envelope
      → ℕ
      → VerifiedPrincipal
      → Exec S InboundWebhookResult
  unfolding receive_authorized reject_event announce_accepted
  receive_as replay integration envelope sent_at principal =
      catch
        (receive_authorized replay integration envelope sent_at principal
          >>= announce_accepted integration principal)
        (reject_event integration)

  reject_stale : WebhookIntegration → Exec S InboundWebhookResult
  unfolding integration_event
  reject_stale integration = do
    audit svc (
        integration_event "webhook.inbound.rejected" integration integration.principal_id failure
          (some "stale_timestamp"))
    throw (because "Inbound webhook timestamp is outside the accepted window" "stale_timestamp")

  receive_fresh :
      InboundWebhookReplayStore S → WebhookIntegration → Envelope → ℕ → Exec S InboundWebhookResult
  unfolding receive_as
  receive_fresh replay integration envelope sent_at = do
    principal ← lift (mint_verified_principal (integration_claims integration) by_integration)
    receive_as replay integration envelope sent_at principal

  receive_in_time :
      InboundWebhookReplayStore S
      → WebhookIntegration
      → Envelope
      → ℕ
      → ℕ
      → Exec S InboundWebhookResult
  receive_in_time replay integration envelope sent_at now =
      if is_outside svc.inbound_tolerance_ms now sent_at
      then reject_stale integration
      else receive_fresh replay integration envelope sent_at

  -- The clock is read where the time in the header can be read.
  receive_at :
      InboundWebhookReplayStore S
      → WebhookIntegration
      → Envelope
      → Option ℕ
      → Exec S InboundWebhookResult
  unfolding reject_stale receive_fresh receive_in_time
  receive_at replay integration envelope none = reject_stale integration
  receive_at replay integration envelope (some sent_at) =
      svc.now >>= receive_in_time replay integration envelope sent_at

  unfoldable pub receive_for :
      InboundWebhookReplayStore S
      → WebhookIntegration
      → InboundWebhookRequest
      → Exec S InboundWebhookResult
  unfolding receive_at open_envelope
  receive_for replay integration request = do
    envelope ← lift (open_envelope request)
    receive_at replay integration envelope (svc.parse_date envelope.timestamp)

  unfoldable pub receive_webhook : InboundWebhookRequest → Exec S InboundWebhookResult
  unfolding receive_for usable find_integration require_replay_store
  receive_webhook request = do
    store ← lift (require_integration_store svc)
    replay ← lift (require_replay_store svc.replay_store)
    found ← find_integration store request.integration_id
    integration ← lift (usable found)
    receive_for replay integration request
