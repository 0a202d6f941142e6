-- ===== src/Runtime/Transaction/Notices.antt =====
-- What a notification that is queued leaves of the grounds.
use appport_services.Common.{
  ℕ, ◌≡◌, refl, String, Bool, true, opt_eq, Option, some, get, inl, inr, Bool-cases,
}
use appport_services.Common.Json.{text}
use appport_services.Authority.Context.{ServiceExecutionContext}
use appport_services.Authority.Gateway.{ServiceGateway}
use appport_services.Runtime.Transaction.{Transaction, push}
use appport_services.Runtime.Transaction.Authorized.{TransactionServices, authorized}
use appport_services.Runtime.Transaction.Notifications.{
  TransactionNotification, some_text, check_part, check_recipient, queued_notification,
  notification_operation, notification_delivery_operation, notification_event_operation, notify,
  queue_notification,
}
use appport_services.Runtime.Transaction.Grounds.{IsIssued, of_notification, of_notification_record}
use appport_services.Runtime.Transaction.Triples.{Triple, triple-bind, triple-outside, triple-lift}
use appport_services.Runtime.Transaction.Queue.{push-Backed, authorized-Backed}
use appport_services.Runtime.Transaction.Effects.{E, B, safe, pure-Good}
use appport_services.Exec.{ok, pure}

check_recipient-ok :
    (context : ServiceExecutionContext) (input : TransactionNotification)
    → check_recipient context input ≡ ok tt
    → opt_eq (get "recipient" context.resource.attributes) (some input.recipient) ≡ true
unfolding check_recipient
check_recipient-ok context input h =
    elim (Bool-cases
      (opt_eq (get "recipient" context.resource.attributes) (some input.recipient))) [
        | inl e ↦ e
        | inr e ↦ let refused = rw e at h in cc
      ]

module _ {S : Type 0} (svc : TransactionServices S) (g : ServiceGateway S)
    (fit : (j : ℕ) → IsIssued g (svc.issued j)) (start : Bool) (i : ℕ) where
  notify-Good :
      (c : ServiceExecutionContext) (input : TransactionNotification)
      → opt_eq (get "recipient" c.resource.attributes) (some input.recipient) ≡ true
      → Triple S
          (E svc g fit start i)
          (B svc g fit start i c "notifications.send")
          (notify svc c input)
          (λ _. E svc g fit start i)
  unfolding notify
  notify-Good c input to =
      let send : String = "notifications.send" in
      let inv = E svc g fit start i in
      let pre = B svc g fit start i c send in
      let last : String → Transaction → Type 0 = λ _. inv in
      let s = safe svc g fit start i c send in
      triple-outside S inv pre last s svc.random_uuid _ λ id.
        triple-outside S inv pre last s svc.now _ λ now.
          triple-bind S inv pre (λ _. pre) last (push (notification_operation c input id now)) _
            (push-Backed svc g fit start i c send (notification_operation c input id now)
              λ ops b. of_notification c (queued_notification c input id now) refl refl to refl b)
            λ _. triple-outside S inv pre last s svc.random_uuid _ λ delivery_id.
              triple-bind S inv pre (λ _. pre) last
                (push (notification_delivery_operation input id delivery_id now)) _
                (push-Backed svc g fit start i c send
                  (notification_delivery_operation input id delivery_id now)
                  λ ops b. of_notification_record c refl b)
                λ _. triple-outside S inv pre last s svc.random_uuid _ λ audit_id.
                  triple-bind S inv pre (λ _. pre) last
                    (push (notification_event_operation c input id audit_id now)) (λ _. pure id)
                    (push-Backed svc g fit start i c send
                      (notification_event_operation c input id audit_id now)
                      λ ops b. of_notification_record c refl b)
                    λ _. pure-Good svc g fit start i c send id

  pub queue_notification-Good :
      (input : TransactionNotification) (context : Option ℕ)
      → Triple S
          (E svc g fit start i)
          (E svc g fit start i)
          (queue_notification svc input context)
          (λ _. E svc g fit start i)
  unfolding queue_notification
  queue_notification-Good input context =
      let send : String = "notifications.send" in
      let inv = E svc g fit start i in
      let last : String → Transaction → Type 0 = λ _. inv in
      triple-bind S inv inv (λ (c : ServiceExecutionContext). B svc g fit start i c send) last
        (authorized svc context send input.tenant_id "notification") _
        (authorized-Backed svc g fit start i context send input.tenant_id "notification")
        λ c.
          let pre = B svc g fit start i c send in
          let s = safe svc g fit start i c send in
          triple-lift S inv pre last s (check_recipient c input) _ λ _ h.
            triple-lift S inv pre last s (check_part svc.engine (some (text input.title)) "title") _
              λ _ _.
                triple-lift S inv pre last s (check_part svc.engine (some_text input.body) "body") _
                  λ _ _.
                    triple-lift S inv pre last s (check_part svc.engine input.data_value "data") _
                      λ _ _.
                        triple-lift S inv pre last s (check_part svc.engine input.source "source") _
                          λ _ _. notify-Good c input (check_recipient-ok c input h)
