-- ===== src/Runtime/Transaction/Grounds.antt =====
-- What an operation of a transaction stands on.
use appport_services.Common.{
  ℕ, ◌≡◌, refl, sym, subst, String, Bool, true, false, ◌==◌, eq_iff, eq_refl, opt_eq, Option, none,
  some, List, [], ◌∷◌, ◌++◌, includes, get, present, or_else, ◌⊎◌, inl, inr, arith,
}
use appport_services.Authority.Principal.{DurablePrincipal, to_durable_principal}
use appport_services.Authority.Context.{ServiceExecutionContext}
use appport_services.Authority.Evidence.{EffectEvidence}
use appport_services.Authority.Gateway.{ServiceGateway}
use appport_services.Authority.Gateway.Execution.{started_evidence, effective_delegation}
use appport_services.Authority.Gateway.Attest.{row_attests}
use appport_services.Authority.Reserved.{service_owned_collections}
use appport_services.Jobs.Models.{Job}
use appport_services.Jobs.Service.Run.{creating_capabilities}
use appport_services.Webhooks.Models.{WebhookDelivery}
use appport_services.Webhooks.Service.Settlement.{emitting_capabilities}
use appport_services.Runtime.Transaction.{
  TransactionOperation, Transaction, PendingDeliveries, job_row, delivery_row, Notification,
  notification_row,
}
use appport_services.Runtime.Transaction.Authorized.{
  TransactionServices, succeeded_evidence, evidence_operation, is_used,
}
use mathlib.Core.List.{Memᴰ}
use mathlib.Core.List.Memᴰ

-- What the gateway sees to when it issues a context, and that contexts of emissions name no
-- delegation among the attributes of their resource.
pub record IsIssued {S : Type 0} (g : ServiceGateway S) (context : ServiceExecutionContext)
    : Type 0 where
  pub same_application : context.application ≡ g.application
  pub same_tenant : context.tenant_id ≡ context.principal.tenant_id
  pub decided : (context.authorization.decision_id == "") ≡ false
  pub plain :
      context.capability ≡ "webhooks.emit" → get "delegationId" context.resource.attributes ≡ none

module _ {S : Type 0} (svc : TransactionServices S) (g : ServiceGateway S) where
  -- Evidence of success under an issued context is queued with the other operations.
  pub record IsBacked (context : ServiceExecutionContext) (capability : String)
      (ops : List TransactionOperation) : Type 0 where
    pub identity : ℕ
    pub same : svc.issued identity ≡ context
    pub capable : context.capability ≡ capability
    pub id : String
    pub at : ℕ
    pub listed : Memᴰ (evidence_operation (succeeded_evidence context id at)) ops

  -- Queued evidence attests a durable principal.
  pub record IsVouched (creating : List String) (o : Option DurablePrincipal)
      (ops : List TransactionOperation) : Type 0 where
    pub durable : DurablePrincipal
    pub carried : o ≡ some durable
    pub row : EffectEvidence
    pub listed : Memᴰ (evidence_operation row) ops
    pub attests : row_attests g.application durable creating row ≡ true
    pub decision : durable.authorized_by ≡ row.decision_id

  pub data IsGrounded (ops : List TransactionOperation) (op : TransactionOperation) : Type 0 where
    of_application : includes service_owned_collections op.collection ≡ false → IsGrounded ops op
    of_evidence :
        (identity : ℕ) (id : String) (at : ℕ)
        → op ≡ evidence_operation (succeeded_evidence (svc.issued identity) id at)
        → IsGrounded ops op
    of_job :
        (job : Job)
        → op.collection ≡ "jobs"
        → op.value ≡ some (job_row job)
        → IsVouched creating_capabilities job.principal ops
        → IsGrounded ops op
    of_delivery :
        (delivery : WebhookDelivery)
        → op.collection ≡ "webhook_deliveries"
        → op.value ≡ some (delivery_row delivery)
        → IsVouched emitting_capabilities delivery.principal ops
        → IsGrounded ops op
    of_job_event :
        (context : ServiceExecutionContext)
        → op.collection ≡ "job_audit_events"
        → IsBacked context "jobs.create" ops
        → IsGrounded ops op
    of_webhook_event :
        (context : ServiceExecutionContext)
        → op.collection ≡ "webhook_audit_events"
        → IsBacked context "webhooks.emit" ops
        → IsGrounded ops op
    of_notification :
        (context : ServiceExecutionContext) (notification : Notification)
        → op.collection ≡ "notifications"
        → op.value ≡ some (notification_row notification)
        → opt_eq (get "recipient" context.resource.attributes) (some notification.recipient) ≡ true
        → notification.created_by ≡ context.principal.principal_id
        → IsBacked context "notifications.send" ops
        → IsGrounded ops op
    of_notification_record :
        (context : ServiceExecutionContext)
        → includes ("notification_deliveries" ∷ "notification_audit_events" ∷ []) op.collection
          ≡ true
        → IsBacked context "notifications.send" ops
        → IsGrounded ops op

  -- `start` says whether the context `i` was used up when the transaction was looked at first.
  pub record Invariant (start : Bool) (i : ℕ) (t : Transaction) : Type 0 where
    pub sound : (op : TransactionOperation) → Memᴰ op t.operations → IsGrounded t.operations op
    pub awaiting :
        (p : PendingDeliveries)
        → Memᴰ p t.pending
        → IsBacked p.authorized "webhooks.emit" t.operations
    pub kept : start ≡ true → is_used t.consumed i ≡ true

  pub IsBacked-append :
      (context : ServiceExecutionContext) (capability : String)
      (ops more : List TransactionOperation)
      → IsBacked context capability ops
      → IsBacked context capability (ops ++ more)
  IsBacked-append context capability ops more b = record {
    identity = b.identity;
    same = b.same;
    capable = b.capable;
    id = b.id;
    at = b.at;
    listed = Memᴰ.append_left more b.listed;
  }

  IsVouched-append :
      (creating : List String) (o : Option DurablePrincipal) (ops more : List TransactionOperation)
      → IsVouched creating o ops
      → IsVouched creating o (ops ++ more)
  IsVouched-append creating o ops more v = record {
    durable = v.durable;
    carried = v.carried;
    row = v.row;
    listed = Memᴰ.append_left more v.listed;
    attests = v.attests;
    decision = v.decision;
  }

  IsGrounded-append :
      (op : TransactionOperation) (ops more : List TransactionOperation)
      → IsGrounded ops op
      → IsGrounded (ops ++ more) op
  IsGrounded-append op ops more (of_application h) = of_application h
  IsGrounded-append op ops more (of_evidence identity id at e) = of_evidence identity id at e
  IsGrounded-append op ops more (of_job job c e v) =
      of_job job c e (IsVouched-append creating_capabilities job.principal ops more v)
  IsGrounded-append op ops more (of_delivery delivery c e v) =
      of_delivery delivery c e
        (IsVouched-append emitting_capabilities delivery.principal ops more v)
  IsGrounded-append op ops more (of_job_event context c b) =
      of_job_event context c (IsBacked-append context "jobs.create" ops more b)
  IsGrounded-append op ops more (of_webhook_event context c b) =
      of_webhook_event context c (IsBacked-append context "webhooks.emit" ops more b)
  IsGrounded-append op ops more (of_notification context notification c e to by b) =
      of_notification context notification c e to by
        (IsBacked-append context "notifications.send" ops more b)
  IsGrounded-append op ops more (of_notification_record context c b) =
      of_notification_record context c (IsBacked-append context "notifications.send" ops more b)

  -- Queueing an operation that is grounded by then.
  pub push-Invariant :
      (start : Bool) (i : ℕ) (op : TransactionOperation) (t : Transaction)
      → IsGrounded (t.operations ++ (op ∷ [])) op
      → Invariant start i t
      → Invariant start i (record t { operations = t.operations ++ (op ∷ []) })
  push-Invariant start i op t grounded inv = record {
    sound = λ o m. old_or_new o (Memᴰ.append_cases t.operations m);
    awaiting = λ p m.
        IsBacked-append p.authorized "webhooks.emit" t.operations (op ∷ []) (inv.awaiting p m);
    kept = inv.kept;
  }
    where
      old_or_new :
          (o : TransactionOperation)
          → Memᴰ o t.operations ⊎ Memᴰ o (op ∷ [])
          → IsGrounded (t.operations ++ (op ∷ [])) o
      old_or_new o (inl m) = IsGrounded-append o t.operations (op ∷ []) (inv.sound o m)
      old_or_new o (inr (Memᴰ.head e)) =
          subst (λ x. IsGrounded (t.operations ++ (op ∷ [])) x) (sym e) grounded
      old_or_new o (inr (Memᴰ.tail m)) = absurd (Memᴰ.not-nil m)

  opt_eq_refl : (o : Option String) → opt_eq o o ≡ true
  opt_eq_refl none = refl
  opt_eq_refl (some s) = eq_refl s

  -- The principal of a context, with the delegation that its evidence records, is vouched for.
  pub principal-IsVouched :
      (context : ServiceExecutionContext) (capability : String) (creating : List String)
      (delegation : Option String) (ops : List TransactionOperation)
      → IsIssued g context
      → includes creating capability ≡ true
      → present (or_else delegation context.principal.delegation_id)
        ≡ present (effective_delegation context)
      → IsBacked context capability ops
      → IsVouched creating
          (some (
            to_durable_principal context.principal delegation
              (some context.authorization.decision_id)))
          ops
  unfolding row_attests to_durable_principal succeeded_evidence started_evidence
  principal-IsVouched context capability creating delegation ops issued may same b =
      let decided = issued.decided in
      let recorded : opt_eq (present (effective_delegation context))
            (present (or_else delegation context.principal.delegation_id))
          ≡ true =
        rw same (opt_eq_refl (present (effective_delegation context))) in
      record {
        durable =
            to_durable_principal context.principal delegation
              (some context.authorization.decision_id);
        carried = refl;
        row = succeeded_evidence context b.id b.at;
        listed = b.listed;
        attests = ground (
          arith,
          (eq_iff context.application g.application).1 issued.same_application,
          (eq_iff context.tenant_id context.principal.tenant_id).1 issued.same_tenant,
          eq_refl context.principal.principal_id,
          eq_refl context.principal.principal_type,
          subst (λ c. includes creating c ≡ true) (sym b.capable) may,
          recorded,
        );
        decision = rw decided refl;
      }
