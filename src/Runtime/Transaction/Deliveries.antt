-- ===== src/Runtime/Transaction/Deliveries.antt =====
-- runtime/transaction-services.ts: queueWebhookDeliveries, whose validation of the endpoints goes on
-- while the callback does.
use Prim.Native.String
use appport_services.Common.{
  ℕ, String, Bool, false, not, ◌&&◌, ◌==◌, opt_eq, Option, none, some, is_some, List, [], ◌∷◌, ◌++◌,
  includes, get, if◌then◌else◌,
}
use appport_services.Authority.Errors.{Error, authority_error, authority_unavailable, no_details}
use appport_services.Authority.Principal.{to_durable_principal}
use appport_services.Authority.Context.{ServiceExecutionContext}
use appport_services.Jobs.Models.{AuditResult}
use appport_services.Webhooks.Models.{WebhookDelivery, WebhookDeliveryStatus, WebhookEndpoint}
use appport_services.Runtime.Transaction.{
  delivery_row, webhook_event_row, TransactionEvent, PendingDeliveries, Transaction, push, outside,
}
use appport_services.Exec.{Exec, Result, ok, err, pure, lift, require, catch, ◌>>=◌, ◌>>◌}
use appport_services.Runtime.Transaction.Authorized.{
  TransactionServices, insertion, refuse, authorized,
}

unfoldable pub queued_delivery :
    ServiceExecutionContext → TransactionEvent → String → ℕ → String → String → WebhookDelivery
queued_delivery context event event_id created_at endpoint_id id = record {
  id = id;
  tenant_id = event.tenant_id;
  endpoint_id = endpoint_id;
  event_id = event_id;
  event_type = event.kind;
  payload = event.payload;
  status = WebhookDeliveryStatus.pending;
  attempt_count = 0;
  next_attempt_at = some created_at;
  created_at = created_at;
  last_attempt_at = none;
  delivered_at = none;
  last_status_code = none;
  last_error = none;
  principal =
      some (to_durable_principal context.principal none (some context.authorization.decision_id));
  version = 1;
}

is_subscriber : String → TransactionEvent → WebhookEndpoint → Bool
is_subscriber application event endpoint =
    (endpoint.tenant_id == event.tenant_id)
    && opt_eq endpoint.application_id (some application)
    && not (is_some endpoint.disabled_at)
    && includes endpoint.events event.kind

-- `registered.find(...)`: the first endpoint of that id.
may_deliver : String → TransactionEvent → List WebhookEndpoint → String → Bool
unfolding is_subscriber
may_deliver application event [] endpoint_id = false
may_deliver application event (endpoint ∷ rest) endpoint_id =
    let further = may_deliver application event rest endpoint_id in
    if endpoint.id == endpoint_id then is_subscriber application event endpoint else further

unfoldable pub check_endpoints :
    String → TransactionEvent → List WebhookEndpoint → List String → Result (Unit {0})
unfolding may_deliver
check_endpoints application event registered [] = ok tt
check_endpoints application event registered (endpoint_id ∷ rest) =
    let others = check_endpoints application event registered rest in
    if may_deliver application event registered endpoint_id
    then others
    else err (
        refuse (
          String.◌++◌ "Endpoint " (
            String.◌++◌ endpoint_id (
              String.◌++◌ " is not a registered, enabled subscriber to "
                (String.◌++◌ event.kind " for this tenant")))))

pub require_endpoints :
    {S : Type 0}
    → Option (String → Exec S (List WebhookEndpoint))
    → Result (String → Exec S (List WebhookEndpoint))
require_endpoints none = err (
    authority_error authority_unavailable
      "Transactions cannot validate webhook endpoints without the webhook service" no_details)
require_endpoints (some lookup) = ok lookup

module _ {S : Type 0} (svc : TransactionServices S) where
  unfoldable pub push_deliveries :
      ServiceExecutionContext
      → TransactionEvent
      → String
      → ℕ
      → List String
      → Exec (S × Transaction) (Unit {0})
  push_deliveries context event event_id created_at [] = pure tt
  push_deliveries context event event_id created_at (endpoint_id ∷ rest) = do
    id ← outside svc.random_uuid
    push (
        insertion "webhook_deliveries" id
          (delivery_row (queued_delivery context event event_id created_at endpoint_id id)))
    push_deliveries context event event_id created_at rest

  unfoldable pub add_deliveries :
      List String → TransactionEvent → ServiceExecutionContext → Exec (S × Transaction) (Unit {0})
  add_deliveries endpoint_ids event context = do
    event_id ← outside svc.random_uuid
    created_at ← outside svc.now
    push_deliveries context event event_id created_at endpoint_ids
    audit_id ← outside svc.random_uuid
    push (
        insertion "webhook_audit_events" audit_id (
          webhook_event_row (record {
            id = audit_id;
            kind = "webhook.event.emitted";
            endpoint_id = none;
            delivery_id = none;
            integration_id = none;
            tenant_id = event.tenant_id;
            principal_id = context.principal.principal_id;
            timestamp = created_at;
            result = AuditResult.success;
            reason = none;
            event_type = some event.kind;
          })))

  -- What follows the lookup of the endpoints.
  unfoldable pub finish_deliveries : PendingDeliveries → Exec (S × Transaction) (Unit {0})
  unfolding check_endpoints add_deliveries
  finish_deliveries p = do
    registered ← lift p.registered
    lift (check_endpoints p.authorized.application p.event registered p.endpoint_ids)
    add_deliveries p.endpoint_ids p.event p.authorized

  -- The lookup is called at once; that it fails shows when its validation goes on.
  unfoldable pub start_validation :
      (String → Exec S (List WebhookEndpoint))
      → List String
      → TransactionEvent
      → ServiceExecutionContext
      → Exec (S × Transaction) (Unit {0})
  start_validation lookup endpoint_ids event context (s, t) = (
    ok tt,
    (
      (lookup event.tenant_id s).1,
      record t {
        pending =
            t.pending
            ++ (record {
              registered = (lookup event.tenant_id s).0;
              endpoint_ids = endpoint_ids;
              event = event;
              authorized = context;
            }
                ∷ []);
      },
    ),
  )

  unfoldable pub queue_webhook_deliveries :
      List String → TransactionEvent → Option ℕ → Exec (S × Transaction) (Unit {0})
  unfolding require_endpoints start_validation
  queue_webhook_deliveries endpoint_ids event context = do
    issued ← authorized svc context "webhooks.emit" event.tenant_id "webhook_event"
    lift (
        require (opt_eq (get "eventType" issued.resource.attributes) (some event.kind))
          (refuse (String.◌++◌ "Execution context was not issued for event " event.kind)))
    lookup ← lift (require_endpoints svc.endpoints)
    start_validation lookup endpoint_ids event issued

  -- The first validation that fails is what `_settle` throws.
  unfoldable pub reject : Error → Exec (S × Transaction) (Unit {0})
  reject e (s, t) = (ok tt, (s, record t { rejected = some (first_of t.rejected) }))
    where
      first_of : Option Error → Error
      first_of none = e
      first_of (some f) = f

  unfoldable pub complete : PendingDeliveries → Exec (S × Transaction) (Unit {0})
  unfolding finish_deliveries reject
  complete p = catch (finish_deliveries p) reject
