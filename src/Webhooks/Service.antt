-- ===== src/Webhooks/Service.antt =====
-- webhooks/service.ts: the service of webhooks. `S` is the state of the world. The handlers are
-- a field.
pub mod Endpoints
pub mod Emit
pub mod Deliveries
pub mod Settlement
pub mod Deliver
pub mod Integrations
pub mod Inbound
pub mod Checks
use Prim.Native.Char.{code}
use Prim.Native.String
use appport_services.Common.{
  ℕ, zero, suc, String, Bool, true, false, ◌&&◌, ◌||◌, ◌==◌, eqb, leb, Option, none, some, List, [],
  ◌∷◌, if◌then◌else◌,
}
use appport_services.Common.Json.{Json}
use appport_services.Authority.Errors.{
  authority_error, authority_unavailable, no_details, other_error,
}
use appport_services.Authority.Principal.{VerifiedPrincipal}
use appport_services.Authority.Context.{ServiceExecutionContext}
use appport_services.Authority.Destination.{Network, WebhookDestinationPolicy, ResolvedAddress, Url}
use appport_services.Authority.Gateway.{ServiceGateway}
use appport_services.Jobs.Models.{AuditResult}
use appport_services.Webhooks.Models.{
  WebhookEndpointStore, WebhookDeliveryStore, WebhookIntegrationStore, InboundWebhookReplayStore,
  WebhookAuditEvent, InboundWebhookEvent,
}
use appport_services.Exec.{Exec, Result, ok, err, ◌>>=◌}

abbrev pub max_retry_attempts : ℕ
max_retry_attempts = 5

abbrev pub initial_retry_delay_ms : ℕ
initial_retry_delay_ms = 5000

abbrev pub default_inbound_tolerance_ms : ℕ
default_inbound_tolerance_ms = 300000

abbrev is_lower : ℕ → Bool
is_lower c = leb b'a' c && leb c b'z'

provider_rest : ℕ → String → Bool
provider_rest n String.[] = true
provider_rest zero (String.◌∷◌ c s) = false
provider_rest (suc n) (String.◌∷◌ c s) =
    (is_lower (code c)
      || (leb b'0' (code c) && leb (code c) b'9')
      || eqb (code c) b'_'
      || eqb (code c) b'-')
    && provider_rest n s

-- `PROVIDER`, /^[a-z][a-z0-9_-]{0,63}$/.
unfoldable pub is_provider : String → Bool
unfolding provider_rest
is_provider String.[] = false
is_provider (String.◌∷◌ c s) = is_lower (code c) && provider_rest 63 s

-- What the handler of an inbound event is given.
pub record InboundHandlerInput : Type 0 where
  pub event : InboundWebhookEvent
  pub principal : VerifiedPrincipal
  pub context : ServiceExecutionContext

-- `undefined` is none.
abbrev pub InboundWebhookHandler : Type 0 → Type 0
InboundWebhookHandler S = InboundHandlerInput → Exec S (Option Json)

-- The request that is sent: to the validated address, with the headers that matter.
pub record HttpRequest : Type 0 where
  pub url : Url
  pub address : ResolvedAddress
  pub signature : String
  pub event_id : String
  pub body : String

-- What Node's client reports of a request. A response may have no status code.
pub data HttpOutcome : Type 0 where
  responded : Option ℕ → HttpOutcome
  network_error : String → HttpOutcome
  timed_out : HttpOutcome

-- `hmac`, `sha256`, `stringify_delivery`, `parse_json` and `parse_date` are Node's; `date_text` is
-- `toISOString`.
pub record WebhookService (S : Type 0) : Type 0 where
  pub endpoint_store : WebhookEndpointStore S
  pub delivery_store : WebhookDeliveryStore S
  pub write_audit : WebhookAuditEvent → Exec S (Unit {0})
  pub integration_store : Option (WebhookIntegrationStore S)
  pub replay_store : Option (InboundWebhookReplayStore S)
  pub authority : Option (ServiceGateway S)
  pub network : Network S
  pub destination_policy : WebhookDestinationPolicy S
  pub now : Exec S ℕ
  pub random_uuid : Exec S String
  pub retry_attempts : ℕ
  pub allowed_events : Option (List String)
  pub inbound_tolerance_ms : ℕ
  pub handlers : String → Option (InboundWebhookHandler S)
  pub send : HttpRequest → Exec S HttpOutcome
  pub hmac : String → String → String
  pub sha256 : String → String
  pub stringify : Json → String
  pub parse_json : String → Option Json
  pub parse_date : String → Option ℕ
  pub date_text : ℕ → String
  pub conflict_message : String

-- The fields of an audit event that an operation sets.
pub record AuditFields : Type 0 where
  pub kind : String
  pub endpoint_id : Option String
  pub delivery_id : Option String
  pub integration_id : Option String
  pub tenant_id : String
  pub principal_id : String
  pub result : AuditResult
  pub reason : Option String

unfoldable pub gateway_of : {S : Type 0} → Option (ServiceGateway S) → Result (ServiceGateway S)
gateway_of none = err (
    authority_error authority_unavailable "Webhooks have no AuthBoundry authority configured"
      no_details)
gateway_of (some g) = ok g

module _ {S : Type 0} (svc : WebhookService S) where
  unfoldable pub gateway : Result (ServiceGateway S)
  unfolding gateway_of
  gateway = gateway_of svc.authority

  unfoldable pub require_integration_store : Result (WebhookIntegrationStore S)
  require_integration_store = elim svc.integration_store [
    | none ↦ err (
        authority_error authority_unavailable "Inbound webhook integrations are not configured"
          no_details)
    | some store ↦ ok store
  ]

  unfoldable pub audit : AuditFields → Exec S (Unit {0})
  audit event = do
    id ← svc.random_uuid
    timestamp ← svc.now
    svc.write_audit (record {
      id = id;
      kind = event.kind;
      endpoint_id = event.endpoint_id;
      delivery_id = event.delivery_id;
      integration_id = event.integration_id;
      tenant_id = event.tenant_id;
      principal_id = event.principal_id;
      timestamp = timestamp;
      result = event.result;
      reason = event.reason;
      event_type = none;
    })

  -- The latest handler of a provider counts.
  unfoldable pub register_inbound_handler :
      String → InboundWebhookHandler S → Result (WebhookService S)
  register_inbound_handler provider handler =
      if is_provider provider
      then ok (record svc {
        handlers = λ name. if name == provider then some handler else svc.handlers name;
      })
      else err (other_error "provider must be a lowercase identifier")
