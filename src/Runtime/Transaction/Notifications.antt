-- ===== src/Runtime/Transaction/Notifications.antt =====
-- runtime/transaction-services.ts: queueNotification.
use Prim.Native.String
use appport_services.Common.{
  ℕ, String, not, opt_eq, Option, none, some, [], ◌∷◌, get, or_default, if◌then◌else◌,
}
use appport_services.Common.Json.{Json, text}
use appport_services.Authority.Context.{ServiceExecutionContext}
use appport_services.Notifications.Sensitive.{TextEngine, assert_no_credentials}
use appport_services.Runtime.Transaction.{
  TransactionOperation, Transaction, Notification, NotificationDelivery, NotificationEvent,
  notification_row, notification_delivery_row, notification_event_row, push, outside,
}
use appport_services.Runtime.Transaction.Authorized.{
  TransactionServices, insertion, refuse, authorized,
}
use appport_services.Exec.{Exec, Result, ok, err, pure, lift, ◌>>=◌, ◌>>◌}

-- The input of queueNotification; `data` and `source` are objects.
pub record TransactionNotification : Type 0 where
  pub tenant_id : String
  pub recipient : String
  pub kind : String
  pub title : String
  pub body : Option String
  pub data_value : Option Json
  pub source : Option Json
  pub priority : Option String

unfoldable pub check_recipient :
    ServiceExecutionContext → TransactionNotification → Result (Unit {0})
check_recipient context input =
    if not (opt_eq (get "recipient" context.resource.attributes) (some input.recipient))
    then err (refuse "Execution context was not issued for this recipient")
    else ok tt

abbrev pub some_text : Option String → Option Json
some_text none = none
some_text (some s) = some (text s)

unfoldable pub check_part : TextEngine → Option Json → String → Result (Unit {0})
check_part engine none path = ok tt
check_part engine (some value) path = assert_no_credentials engine value path

abbrev pub queued_notification :
    ServiceExecutionContext → TransactionNotification → String → ℕ → Notification
queued_notification context input id now = record {
  id = id;
  tenant_id = input.tenant_id;
  application_id = context.application;
  recipient = input.recipient;
  kind = input.kind;
  title = input.title;
  body = input.body;
  data_value = input.data_value;
  source = input.source;
  priority = or_default input.priority "normal";
  channels = "in-app" ∷ [];
  status = "delivered";
  created_at = now;
  created_by = context.principal.principal_id;
  delivered_at = now;
  version = 1;
}

abbrev notification_delivery : TransactionNotification → String → String → ℕ → NotificationDelivery
notification_delivery input id delivery_id now = record {
  id = delivery_id;
  tenant_id = input.tenant_id;
  notification_id = id;
  recipient = input.recipient;
  channel = "in-app";
  status = "delivered";
  idempotency_key = String.◌++◌ id ":in-app";
  attempt_count = 1;
  max_attempts = 1;
  created_at = now;
  last_attempt_at = now;
  delivered_at = now;
  version = 1;
}

abbrev notification_event :
    ServiceExecutionContext → TransactionNotification → String → String → ℕ → NotificationEvent
notification_event context input id audit_id now = record {
  id = audit_id;
  kind = "notification.created";
  notification_id = id;
  tenant_id = input.tenant_id;
  recipient = input.recipient;
  principal_id = context.principal.principal_id;
  timestamp = now;
  result = "success";
}

abbrev pub notification_operation :
    ServiceExecutionContext → TransactionNotification → String → ℕ → TransactionOperation
notification_operation context input id now =
    insertion "notifications" id (notification_row (queued_notification context input id now))

abbrev pub notification_delivery_operation :
    TransactionNotification → String → String → ℕ → TransactionOperation
notification_delivery_operation input id delivery_id now =
    insertion "notification_deliveries" delivery_id
      (notification_delivery_row (notification_delivery input id delivery_id now))

abbrev pub notification_event_operation :
    ServiceExecutionContext → TransactionNotification → String → String → ℕ → TransactionOperation
notification_event_operation context input id audit_id now =
    insertion "notification_audit_events" audit_id
      (notification_event_row (notification_event context input id audit_id now))

module _ {S : Type 0} (svc : TransactionServices S) where
  -- `queueNotification` behind its checks.
  unfoldable pub notify :
      ServiceExecutionContext → TransactionNotification → Exec (S × Transaction) String
  notify issued input = do
    id ← outside svc.random_uuid
    now ← outside svc.now
    push (notification_operation issued input id now)
    delivery_id ← outside svc.random_uuid
    push (notification_delivery_operation input id delivery_id now)
    audit_id ← outside svc.random_uuid
    push (notification_event_operation issued input id audit_id now)
    pure id

  unfoldable pub queue_notification :
      TransactionNotification → Option ℕ → Exec (S × Transaction) String
  unfolding check_recipient check_part notify
  queue_notification input context = do
    issued ← authorized svc context "notifications.send" input.tenant_id "notification"
    lift (check_recipient issued input)
    lift (check_part svc.engine (some (text input.title)) "title")
    lift (check_part svc.engine (some_text input.body) "body")
    lift (check_part svc.engine input.data_value "data")
    lift (check_part svc.engine input.source "source")
    notify issued input
