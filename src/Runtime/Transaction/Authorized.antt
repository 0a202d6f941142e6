-- ===== src/Runtime/Transaction/Authorized.antt =====
-- runtime/transaction-services.ts: how a transaction is given authority, and what the application
-- itself may queue. A context is an object that the gateway issued: a number is its identity,
-- `issued` holds its contents, and a value that was not issued is `none`.
use Prim.Native.String
use appport_services.Common.{
  ℕ, String, Bool, true, false, ◌||◌, ◌==◌, eqb, Option, none, some, List, [], ◌∷◌, if◌then◌else◌,
}
use appport_services.Common.Json.{Json}
use appport_services.Authority.Errors.{
  Error, authority_error, denied, authority_unavailable, no_details,
}
use appport_services.Authority.Context.{ServiceExecutionContext, assert_execution_context}
use appport_services.Authority.Evidence.{EffectEvidence, EffectOutcome}
use appport_services.Authority.Gateway.{ServiceGateway, ExecuteOptions}
use appport_services.Authority.Gateway.Execution.{started_evidence}
use appport_services.Authority.Reserved.{assert_application_collection}
use appport_services.Notifications.Sensitive.{TextEngine}
use appport_services.Webhooks.Models.{WebhookEndpoint}
use appport_services.Runtime.Transaction.{
  Value, evidence_row, TransactionOperation, Transaction, push, outside, insert_operation,
  update_operation,
}
use appport_services.Exec.{Exec, Result, ok, err, pure, lift, require, ◌>>=◌, ◌>>◌}

pub record TransactionServices (S : Type 0) : Type 0 where
  pub gateway : Option (ServiceGateway S)
  pub endpoints : Option (String → Exec S (List WebhookEndpoint))
  pub issued : ℕ → ServiceExecutionContext
  pub now : Exec S ℕ
  pub random_uuid : Exec S String
  pub date_text : ℕ → String
  pub engine : TextEngine

abbrev pub transaction_options : ExecuteOptions
transaction_options = record {
  service = "transaction";
  credential_ref = none;
  provider = none;
  request_id = none;
}

-- `evidenceFor(…, 'succeeded')`.
unfoldable pub succeeded_evidence : ServiceExecutionContext → String → ℕ → EffectEvidence
unfolding started_evidence
succeeded_evidence context id at = record (started_evidence context transaction_options id at) {
  completed_at = some at;
  outcome = EffectOutcome.succeeded;
}

abbrev pub insertion : String → String → Value → TransactionOperation
insertion collection id value = record {
  collection = collection;
  id = id;
  value = some value;
  require_absent = true;
  require_present = false;
  expected_version = none;
}

abbrev pub evidence_operation : EffectEvidence → TransactionOperation
evidence_operation e = insertion "service_effect_evidence" e.id (evidence_row e)

abbrev pub is_used : List ℕ → ℕ → Bool
is_used [] i = false
is_used (j ∷ js) i = eqb j i || is_used js i

abbrev pub refuse : String → Error
refuse message = authority_error denied message no_details

abbrev pub contents :
    {S : Type 0} → TransactionServices S → Option ℕ → Option ServiceExecutionContext
contents svc none = none
contents svc (some i) = some (svc.issued i)

module _ {S : Type 0} where
  unfoldable pub require_gateway : Option (ServiceGateway S) → Result (ServiceGateway S)
  require_gateway none = err (
      authority_error authority_unavailable "Transactions have no AuthBoundry authority configured"
        no_details)
  require_gateway (some g) = ok g

  -- `consumed.has(context)`, `consumed.add(context)`.
  unfoldable pub mark_used :
      Option ℕ → String → ServiceExecutionContext → Exec (S × Transaction) ServiceExecutionContext
  mark_used none capability context w = (ok context, w)
  mark_used (some i) capability context (s, t) =
      if is_used t.consumed i
      then (
        err (
            authority_error denied "Execution context has already been used" (record {
              capability = some capability;
              decision_id = some context.authorization.decision_id;
              reason = none;
            })),
        (s, t),
      )
      else (ok context, (s, record t { consumed = i ∷ t.consumed }))

module _ {S : Type 0} (svc : TransactionServices S) where
  -- `consumeExecutionContext` of authority/context.ts.
  unfoldable pub consume_execution_context :
      Option ℕ → String → Option String → Exec (S × Transaction) ServiceExecutionContext
  unfolding mark_used
  consume_execution_context input capability tenant_id = do
    now ← outside svc.now
    context ← lift (assert_execution_context (contents svc input) capability tenant_id now)
    mark_used input capability context

  -- The evidence is queued before the operation's own checks.
  unfoldable pub authorized :
      Option ℕ → String → String → String → Exec (S × Transaction) ServiceExecutionContext
  unfolding require_gateway succeeded_evidence
  authorized input capability tenant_id resource_type = do
    g ← lift (require_gateway svc.gateway)
    context ← consume_execution_context input capability (some tenant_id)
    lift (
        require (context.resource.kind == resource_type) (
          refuse (
            String.◌++◌ "Execution context was issued for a "
              (String.◌++◌ context.resource.kind (String.◌++◌ ", not a " resource_type)))))
    id ← outside svc.random_uuid
    at ← outside svc.now
    push (evidence_operation (succeeded_evidence context id at))
    pure context

module _ {S : Type 0} where
  unfoldable pub add_operation : TransactionOperation → Exec (S × Transaction) (Unit {0})
  add_operation op = do lift (assert_application_collection op.collection); push op

  -- `collection(name).insert(value, id)`.
  unfoldable pub insert : String → Json → String → Exec (S × Transaction) (Unit {0})
  insert name value id = do
    lift (assert_application_collection name)
    push (insert_operation name value id)

  -- `collection(name).updateIfVersion(id, expectedVersion, updates)`.
  unfoldable pub update_if_version : String → String → ℕ → Json → Exec (S × Transaction) (Unit {0})
  update_if_version name id expected_version updates = do
    lift (assert_application_collection name)
    push (update_operation name id expected_version updates)
