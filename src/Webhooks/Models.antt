-- ===== src/Webhooks/Models.antt =====
-- webhooks/models.ts and the interfaces of storage/webhooks.ts. Times are numbers of milliseconds,
-- as in ApiKeys/Models.antt.
use appport_services.Common.{ℕ, String, Bool, true, false, Option, List}
use appport_services.Common.Json.{Json}
use appport_services.Authority.Errors.{ServiceFailureCode}
use appport_services.Authority.Principal.{DurablePrincipal, ActorClaims}
use appport_services.Jobs.Models.{AuditResult}
use appport_services.Exec.{Exec}

pub record WebhookEndpoint : Type 0 where
  pub id : String
  pub tenant_id : String
  pub application_id : Option String
  pub url : String
  pub events : List String
  pub signing_credential_ref : Option String
  pub created_at : ℕ
  pub created_by : String
  pub disabled_at : Option ℕ
  pub version : ℕ

-- `events` is `none` where a value is no array of texts that are not empty, and
-- `signing_credential_ref` where it is no text.
pub record CreateWebhookEndpointInput : Type 0 where
  pub claims : ActorClaims
  pub has_secret : Bool
  pub tenant_id : Option String
  pub url : Option String
  pub events : Option (List String)
  pub signing_credential_ref : Option String

pub record DisableWebhookEndpointInput : Type 0 where
  pub claims : ActorClaims
  pub tenant_id : Option String
  pub id : String

pub data WebhookDeliveryStatus : Type 0 where
  pending delivering delivered retrying failed : WebhookDeliveryStatus

abbrev pub same_status : WebhookDeliveryStatus → WebhookDeliveryStatus → Bool
same_status pending pending = true
same_status delivering delivering = true
same_status delivered delivered = true
same_status retrying retrying = true
same_status failed failed = true
same_status _ _ = false

pub record WebhookDelivery : Type 0 where
  pub id : String
  pub tenant_id : String
  pub endpoint_id : String
  pub event_id : String
  pub event_type : String
  pub payload : Json
  pub status : WebhookDeliveryStatus
  pub attempt_count : ℕ
  pub next_attempt_at : Option ℕ
  pub created_at : ℕ
  pub last_attempt_at : Option ℕ
  pub delivered_at : Option ℕ
  pub last_status_code : Option ℕ
  pub last_error : Option String
  pub principal : Option DurablePrincipal
  pub version : ℕ

-- A limit that is no whole number is `bad_limit`.
pub data Limit : Type 0 where
  no_limit bad_limit : Limit
  limit : ℕ → Limit

-- The inner option of a filter is `none` for a value that is not one of its kind.
pub record WebhookDeliveryQuery : Type 0 where
  pub tenant_id : Option String
  pub endpoint_id : Option (Option String)
  pub status : Option (Option WebhookDeliveryStatus)
  pub page_limit : Limit

-- `chosen` are the fields of the input that are set.
pub record EmitWebhookEventInput : Type 0 where
  pub chosen : List String
  pub tenant_id : Option String
  pub kind : String
  pub payload : Json

pub record WebhookAuditEvent : Type 0 where
  pub id : String
  pub kind : String
  pub endpoint_id : Option String
  pub delivery_id : Option String
  pub integration_id : Option String
  pub tenant_id : String
  pub principal_id : String
  pub timestamp : ℕ
  pub result : AuditResult
  pub reason : Option String
  pub event_type : Option String

pub record WebhookDeliveryResult : Type 0 where
  pub success : Bool
  pub status_code : Option ℕ
  pub error : Option String
  pub code : Option ServiceFailureCode

pub record WebhookIntegration : Type 0 where
  pub id : String
  pub tenant_id : String
  pub application_id : String
  pub provider : String
  pub principal_id : String
  pub signing_credential_ref : String
  pub created_at : ℕ
  pub created_by : String
  pub disabled_at : Option ℕ
  pub version : ℕ

pub record RegisterWebhookIntegrationInput : Type 0 where
  pub claims : ActorClaims
  pub tenant_id : Option String
  pub provider : Option String
  pub signing_credential_ref : Option String

-- A header that came several times has several values. The id and the body are `none` where they
-- are no texts.
pub record InboundWebhookRequest : Type 0 where
  pub integration_id : Option String
  pub headers : List (String × List String)
  pub raw_body : Option String

pub record InboundWebhookEvent : Type 0 where
  pub integration_id : String
  pub provider : String
  pub event_id : String
  pub timestamp : ℕ
  pub payload : Json

pub record InboundWebhookResult : Type 0 where
  pub accepted : Bool
  pub event_id : String
  pub result : Option Json

-- The identity of an accepted inbound event.
pub record AcceptedEvent : Type 0 where
  pub id : String
  pub integration_id : String
  pub provider : String
  pub event_id : String
  pub event_timestamp : ℕ
  pub accepted_at : ℕ
  pub tenant_id : String

pub record WebhookEndpointStore (S : Type 0) : Type 0 where
  pub create : WebhookEndpoint → Exec S (Unit {0})
  pub get : String → Exec S (Option WebhookEndpoint)
  pub list : String → Exec S (List WebhookEndpoint)
  pub disable : String → ℕ → ℕ → Exec S (Option WebhookEndpoint)

pub record DeliveryFilter : Type 0 where
  pub endpoint_id : Option String
  pub status : Option WebhookDeliveryStatus

-- A partial update is the function that merges it. `page` is optional in the source.
pub record WebhookDeliveryStore (S : Type 0) : Type 0 where
  pub create : WebhookDelivery → Exec S (Unit {0})
  pub create_multiple : List WebhookDelivery → Exec S (Unit {0})
  pub get : String → Exec S (Option WebhookDelivery)
  pub list : String → Option String → Option ℕ → Exec S (List WebhookDelivery)
  pub page : Option (String → DeliveryFilter → ℕ → Exec S (List WebhookDelivery))
  pub claim : String → ℕ → Exec S (Option WebhookDelivery)
  pub update_delivery :
      String → ℕ → (WebhookDelivery → WebhookDelivery) → Exec S (Option WebhookDelivery)

pub record WebhookIntegrationStore (S : Type 0) : Type 0 where
  pub create : WebhookIntegration → Exec S (Unit {0})
  pub get : String → Exec S (Option WebhookIntegration)
  pub list : String → Exec S (List WebhookIntegration)

pub record InboundWebhookReplayStore (S : Type 0) : Type 0 where
  pub accept : AcceptedEvent → Exec S Bool
