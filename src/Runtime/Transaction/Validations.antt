-- ===== src/Runtime/Transaction/Validations.antt =====
-- What queued deliveries, and the validations that they wait for, leave of the grounds.
use appport_services.Common.{
  ℕ, ◌≡◌, refl, sym, ap, ◌∙◌, subst, String, Bool, Option, none, some, List, [], ◌∷◌, present,
  or_else, ◌⊎◌, inl, inr,
}
use appport_services.Authority.Context.{ServiceExecutionContext}
use appport_services.Authority.Gateway.{ServiceGateway}
use appport_services.Authority.Gateway.Execution.{effective_delegation}
use appport_services.Webhooks.Models.{WebhookEndpoint}
use appport_services.Webhooks.Service.Settlement.{emitting_capabilities}
use appport_services.Runtime.Transaction.{
  TransactionOperation, TransactionEvent, Transaction, delivery_row, PendingDeliveries,
}
use appport_services.Runtime.Transaction.Authorized.{TransactionServices, authorized}
use appport_services.Runtime.Transaction.Deliveries.{
  queued_delivery, push_deliveries, add_deliveries, finish_deliveries, queue_webhook_deliveries,
  start_validation, complete, reject,
}
use appport_services.Runtime.Transaction.Grounds.{
  IsIssued, IsBacked, IsGrounded, of_delivery, of_webhook_event, principal-IsVouched,
}
use appport_services.Runtime.Transaction.Triples.{
  Outcome, Triple, triple-bind, triple-catch, triple-outside, triple-lift,
}
use appport_services.Exec.{Exec}
use mathlib.Core.List.{Memᴰ}
use mathlib.Core.List.Memᴰ
use appport_services.Runtime.Transaction.Queue.{
  Good, Backed, backed-IsIssued, push-Backed, authorized-Backed,
}
use appport_services.Runtime.Transaction.Deliveries.{require_endpoints, check_endpoints}
use appport_services.Runtime.Transaction.Services.{complete_next, complete_first}
use appport_services.Runtime.Transaction.Effects.{safe, push-Good}

module _ {S : Type 0} (svc : TransactionServices S) (g : ServiceGateway S)
    (fit : (j : ℕ) → IsIssued g (svc.issued j)) (start : Bool) (i : ℕ) where
  abbrev E : Transaction → Type 0
  E = Good svc g fit start i

  abbrev B : ServiceExecutionContext → String → Transaction → Type 0
  B = Backed svc g fit start i

  delivery-grounds :
      (context : ServiceExecutionContext) (event : TransactionEvent) (event_id : String)
      (created_at : ℕ) (endpoint_id id : String) (op : TransactionOperation)
      (ops : List TransactionOperation)
      → op.collection ≡ "webhook_deliveries"
      → op.value
        ≡ some (delivery_row (queued_delivery context event event_id created_at endpoint_id id))
      → IsBacked svc g context "webhooks.emit" ops
      → IsGrounded svc g ops op
  unfolding queued_delivery effective_delegation
  delivery-grounds context event event_id created_at endpoint_id id op ops collection value b =
      let issued = backed-IsIssued svc g fit start i context "webhooks.emit" ops b in
      of_delivery (queued_delivery context event event_id created_at endpoint_id id) collection
        value
        (principal-IsVouched svc g context "webhooks.emit" emitting_capabilities none ops issued
          refl
          (ap (λ o. present (or_else o context.principal.delegation_id))
            (sym (issued.plain b.capable)))
          b)

  push_deliveries-Backed :
      (c : ServiceExecutionContext) (event : TransactionEvent) (event_id : String) (created_at : ℕ)
      (ids : List String)
      → Triple S E
          (B c "webhooks.emit")
          (push_deliveries svc c event event_id created_at ids)
          (λ _. B c "webhooks.emit")
  unfolding push_deliveries Triple Outcome
  push_deliveries-Backed c event event_id created_at [] = λ w h. h
  push_deliveries-Backed c event event_id created_at (endpoint_id ∷ rest) =
      let pre = B c "webhooks.emit" in
      triple-outside S E pre (λ _. pre) (safe svc g fit start i c "webhooks.emit") svc.random_uuid _
        λ id.
          triple-bind S E pre (λ _. pre) (λ _. pre) _ _
            (push-Backed svc g fit start i c "webhooks.emit" _ λ ops b.
              delivery-grounds c event event_id created_at endpoint_id id _ ops refl refl b)
            λ _. push_deliveries-Backed c event event_id created_at rest

  add_deliveries-Good :
      (c : ServiceExecutionContext) (event : TransactionEvent) (ids : List String)
      → Triple S E (B c "webhooks.emit") (add_deliveries svc ids event c) (λ _. E)
  unfolding add_deliveries
  add_deliveries-Good c event ids =
      let pre = B c "webhooks.emit" in
      let last : Unit {0} → Transaction → Type 0 = λ _. E in
      let s = safe svc g fit start i c "webhooks.emit" in
      triple-outside S E pre last s svc.random_uuid _ λ event_id.
        triple-outside S E pre last s svc.now _ λ created_at.
          triple-bind S E pre (λ _. pre) last _ _
            (push_deliveries-Backed c event event_id created_at ids)
            λ _. triple-outside S E pre last s svc.random_uuid _ λ audit_id.
              push-Good svc g fit start i c "webhooks.emit" _ λ ops b. of_webhook_event c refl b

  finish_deliveries-Good :
      (p : PendingDeliveries)
      → Triple S E (B p.authorized "webhooks.emit") (finish_deliveries svc p) (λ _. E)
  unfolding finish_deliveries
  finish_deliveries-Good p =
      let c = p.authorized in
      let pre = B c "webhooks.emit" in
      let last : Unit {0} → Transaction → Type 0 = λ _. E in
      let s = safe svc g fit start i c "webhooks.emit" in
      triple-lift S E pre last s p.registered _ λ registered _.
        triple-lift S E pre last s (check_endpoints c.application p.event registered p.endpoint_ids)
          (λ _. add_deliveries svc p.endpoint_ids p.event c)
          λ _ _. add_deliveries-Good c p.event p.endpoint_ids

  pub complete-Good :
      (p : PendingDeliveries)
      → Triple S E (B p.authorized "webhooks.emit") (complete svc p) (λ _. E)
  unfolding complete reject Triple Outcome
  complete-Good p =
      triple-catch S E (B p.authorized "webhooks.emit") (λ _. E) (finish_deliveries svc p)
        (reject svc) (finish_deliveries-Good p)
        λ e (s, t) inv. record { sound = inv.sound; awaiting = inv.awaiting; kept = inv.kept }

  -- The validation that is started is backed by the evidence that was queued for it.
  start_validation-Good :
      (lookup : String → Exec S (List WebhookEndpoint)) (ids : List String)
      (event : TransactionEvent) (c : ServiceExecutionContext)
      → Triple S E (B c "webhooks.emit") (start_validation svc lookup ids event c) (λ _. E)
  unfolding start_validation Triple Outcome
  start_validation-Good lookup ids event c (s, t) (inv, b) =
      let p : PendingDeliveries = record {
        registered = (lookup event.tenant_id s).0;
        endpoint_ids = ids;
        event = event;
        authorized = c;
      } in
      record {
        sound = inv.sound;
        awaiting = λ q m. old_or_new p refl q (Memᴰ.append_cases t.pending m);
        kept = inv.kept;
      }
    where
      old_or_new :
          (p : PendingDeliveries)
          → p.authorized ≡ c
          → (q : PendingDeliveries) → Memᴰ q t.pending ⊎ Memᴰ q (p ∷ [])
          → IsBacked svc g q.authorized "webhooks.emit" t.operations
      old_or_new p same q (inl m) = inv.awaiting q m
      old_or_new p same q (inr (Memᴰ.head e)) =
          subst (λ x. IsBacked svc g x "webhooks.emit" t.operations)
            (sym (ap (λ x. x.authorized) e ∙ same)) b
      old_or_new p same q (inr (Memᴰ.tail m)) = absurd (Memᴰ.not-nil m)

  pub queue_webhook_deliveries-Good :
      (ids : List String) (event : TransactionEvent) (context : Option ℕ)
      → Triple S E E (queue_webhook_deliveries svc ids event context) (λ _. E)
  unfolding queue_webhook_deliveries
  queue_webhook_deliveries-Good ids event context =
      let last : Unit {0} → Transaction → Type 0 = λ _. E in
      triple-bind S E E (λ (c : ServiceExecutionContext). B c "webhooks.emit") last
        (authorized svc context "webhooks.emit" event.tenant_id "webhook_event") _
        (authorized-Backed svc g fit start i context "webhooks.emit" event.tenant_id
          "webhook_event")
        λ c.
          let pre = B c "webhooks.emit" in
          let s = safe svc g fit start i c "webhooks.emit" in
          triple-lift S E pre last s _ _ λ _ _.
            triple-lift S E pre last s (require_endpoints svc.endpoints) _
              λ lookup _. start_validation-Good lookup ids event c

  pub complete_next-Good : Triple S E E (complete_next svc) (λ _. E)
  unfolding complete_next complete_first Triple Outcome
  complete_next-Good (s, t) inv = first_of t.pending inv.awaiting
    where
      first_of :
          (ps : List PendingDeliveries)
          → ((p : PendingDeliveries)
              → Memᴰ p ps
              → IsBacked svc g p.authorized "webhooks.emit" t.operations)
          → Outcome E (λ _. E) (complete_first svc ps (s, t)).0 (complete_first svc ps (s, t)).1.1
      first_of [] backed = inv
      first_of (p ∷ rest) backed =
          complete-Good p (s, record t { pending = rest })
            (
              record {
                sound = inv.sound;
                awaiting = λ q m. backed q (Memᴰ.tail m);
                kept = inv.kept;
              },
              backed p (Memᴰ.head refl),
            )
