-- ===== src/Runtime/Transaction.antt =====
-- runtime/transaction.ts: the operations that are collected for one transaction of the database.
pub mod Authorized
pub mod Jobs
pub mod Deliveries
pub mod Notifications
pub mod Services
pub mod Triples
pub mod Grounds
pub mod Queue
pub mod Effects
pub mod Notices
pub mod Validations
pub mod Vouched
pub mod Once
pub mod Checks
use appport_services.Common.{ℕ, String, Bool, true, false, Option, none, some, List, [], ◌∷◌, ◌++◌}
use appport_services.Common.Json.{Json}
use appport_services.Authority.Evidence.{EffectEvidence}
use appport_services.Authority.Context.{ServiceExecutionContext}
use appport_services.Authority.Errors.{Error}
use appport_services.Jobs.Models.{Job, JobAuditEvent}
use appport_services.Webhooks.Models.{WebhookDelivery, WebhookAuditEvent, WebhookEndpoint}
use appport_services.Exec.{Exec, Result, ok, err, pure}

-- The rows that queueNotification writes.
pub record Notification : Type 0 where
  pub id : String
  pub tenant_id : String
  pub application_id : String
  pub recipient : String
  pub kind : String
  pub title : String
  pub body : Option String
  pub data_value : Option Json
  pub source : Option Json
  pub priority : String
  pub channels : List String
  pub status : String
  pub created_at : ℕ
  pub created_by : String
  pub delivered_at : ℕ
  pub version : ℕ

pub record NotificationDelivery : Type 0 where
  pub id : String
  pub tenant_id : String
  pub notification_id : String
  pub recipient : String
  pub channel : String
  pub status : String
  pub idempotency_key : String
  pub attempt_count : ℕ
  pub max_attempts : ℕ
  pub created_at : ℕ
  pub last_attempt_at : ℕ
  pub delivered_at : ℕ
  pub version : ℕ

pub record NotificationEvent : Type 0 where
  pub id : String
  pub kind : String
  pub notification_id : String
  pub tenant_id : String
  pub recipient : String
  pub principal_id : String
  pub timestamp : ℕ
  pub result : String

-- What an operation stores: a value of the application, or a record of one of the services.
pub data Value : Type 0 where
  raw : Json → Value
  evidence_row : EffectEvidence → Value
  job_row : Job → Value
  job_event_row : JobAuditEvent → Value
  delivery_row : WebhookDelivery → Value
  webhook_event_row : WebhookAuditEvent → Value
  notification_row : Notification → Value
  notification_delivery_row : NotificationDelivery → Value
  notification_event_row : NotificationEvent → Value

pub record TransactionOperation : Type 0 where
  pub collection : String
  pub id : String
  pub value : Option Value
  pub require_absent : Bool
  pub require_present : Bool
  pub expected_version : Option ℕ

-- The `event` of queueWebhookDeliveries.
pub record TransactionEvent : Type 0 where
  pub tenant_id : String
  pub kind : String
  pub payload : Json

-- A validation that was started: what its lookup of the endpoints came to, and what follows it.
pub record PendingDeliveries : Type 0 where
  pub registered : Result (List WebhookEndpoint)
  pub endpoint_ids : List String
  pub event : TransactionEvent
  pub authorized : ServiceExecutionContext

-- The builder's operations, the `pending` validations, what the first of them that failed failed
-- with, and the contexts that are used up (`consumed` of authority/context.ts), by identity.
pub record Transaction : Type 0 where
  pub operations : List TransactionOperation
  pub pending : List PendingDeliveries
  pub rejected : Option Error
  pub consumed : List ℕ

module _ {S : Type 0} where
  -- `builder.addOperation`.
  unfoldable pub push : TransactionOperation → Exec (S × Transaction) (Unit {0})
  push op (s, t) = (ok tt, (s, record t { operations = t.operations ++ (op ∷ []) }))

  -- What happens outside of the transaction.
  abbrev pub outside : {A : Type 0} → Exec S A → Exec (S × Transaction) A
  outside m (s, t) = ((m s).0, ((m s).1, t))

-- `TransactionCollectionImpl.insert`.
abbrev pub insert_operation : String → Json → String → TransactionOperation
insert_operation name value id = record {
  collection = name;
  id = id;
  value = some (raw value);
  require_absent = true;
  require_present = false;
  expected_version = none;
}

-- `TransactionCollectionImpl.updateIfVersion`.
abbrev pub update_operation : String → String → ℕ → Json → TransactionOperation
update_operation name id expected_version updates = record {
  collection = name;
  id = id;
  value = some (raw updates);
  require_absent = false;
  require_present = false;
  expected_version = some expected_version;
}

-- `commit(db)`: an empty transaction is not sent.
unfoldable pub commit :
    {S : Type 0}
    → (List TransactionOperation → Exec S (Unit {0}))
    → List TransactionOperation
    → Exec S (Unit {0})
commit db [] = pure tt
commit db (op ∷ ops) = db (op ∷ ops)
