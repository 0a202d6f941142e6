-- ===== src/Runtime/Transaction/Vouched.antt =====
-- Whatever a callback queues, what a transaction would commit stands on evidence that it commits too.
use appport_services.Common.{ℕ, ◌≡◌, refl, String, Bool, true, false, List, [], Option, none}
use appport_services.Common.Json.{Json}
use appport_services.Authority.Gateway.{ServiceGateway}
use appport_services.Runtime.Transaction.{
  TransactionOperation, TransactionEvent, Transaction, insert_operation, update_operation,
}
use appport_services.Runtime.Transaction.Authorized.{
  TransactionServices, add_operation, insert, update_if_version,
}
use appport_services.Runtime.Transaction.Jobs.{TransactionJob, queue_job}
use appport_services.Runtime.Transaction.Deliveries.{queue_webhook_deliveries}
use appport_services.Runtime.Transaction.Notifications.{TransactionNotification, queue_notification}
use appport_services.Runtime.Transaction.Notices.{queue_notification-Good}
use appport_services.Runtime.Transaction.Services.{complete_next}
use appport_services.Runtime.Transaction.Grounds.{IsIssued, IsGrounded, Invariant}
use appport_services.Runtime.Transaction.Effects.{application-Good, queue_job-Good}
use appport_services.Runtime.Transaction.Validations.{
  queue_webhook_deliveries-Good, complete_next-Good,
}
use appport_services.Runtime.Transaction.Triples.{Outcome, Triple}
use appport_services.Exec.{Exec, Result, ok, err}
use mathlib.Core.List.{Memᴰ}
use mathlib.Core.List.Memᴰ

-- A new transaction of a process that has used up some contexts.
abbrev pub fresh : List ℕ → Transaction
fresh consumed = record { operations = []; pending = []; rejected = none; consumed = consumed }

module _ {S : Type 0} (svc : TransactionServices S) where
  -- What may happen to a transaction, in any order: a call of addOperation, of a collection, of
  -- queueJob, queueNotification or queueWebhookDeliveries, which may throw and be caught; the end of
  -- a validation; anything in the rest of the world; and the begin of the next. The internal
  -- _getBuilder, which hands out the unguarded builder, is not for callbacks and not among them.
  pub data Reach (v : S × Transaction) : S × Transaction → Type 0 where
    here : Reach v v
    adds :
        {w : S × Transaction}
        → Reach v w
        → (op : TransactionOperation) → Reach v (add_operation op w).1
    inserts :
        {w : S × Transaction}
        → Reach v w
        → (name id : String) (value : Json) → Reach v (insert name value id w).1
    updates :
        {w : S × Transaction}
        → Reach v w
        → (name id : String) (expected_version : ℕ) (changes : Json)
        → Reach v (update_if_version name id expected_version changes w).1
    queues_job :
        {w : S × Transaction}
        → Reach v w
        → (input : TransactionJob) (context : Option ℕ) → Reach v (queue_job svc input context w).1
    queues_deliveries :
        {w : S × Transaction}
        → Reach v w
        → (ids : List String) (event : TransactionEvent) (context : Option ℕ)
        → Reach v (queue_webhook_deliveries svc ids event context w).1
    queues_notification :
        {w : S × Transaction}
        → Reach v w
        → (input : TransactionNotification) (context : Option ℕ)
        → Reach v (queue_notification svc input context w).1
    completes : {w : S × Transaction} → Reach v w → Reach v (complete_next svc w).1
    elsewhere : {s : S} {t : Transaction} → Reach v (s, t) → (s' : S) → Reach v (s', t)
    begins : {s : S} {t : Transaction} → Reach v (s, t) → Reach v (s, fresh t.consumed)

  module _ (g : ServiceGateway S) (fit : (j : ℕ) → IsIssued g (svc.issued j)) where
    module _ (start : Bool) (i : ℕ) where
      abbrev pub E : Transaction → Type 0
      E = Invariant svc g start i

      after :
          {A : Type 0} (m : Exec (S × Transaction) A) (w : S × Transaction)
          → Triple S E E m (λ _. E)
          → E w.1
          → E (m w).1.1
      unfolding Triple Outcome
      after m w h inv = either (m w).1.1 (m w).0 (h w inv)
        where
          either : {A : Type 0} (t : Transaction) (r : Result A) → Outcome E (λ _. E) r t → E t
          either t (ok a) q = q
          either t (err e) q = q

      pub Reach-Good : {v w : S × Transaction} → E v.1 → Reach v w → E w.1
      unfolding add_operation insert update_if_version
      Reach-Good inv here = inv
      Reach-Good inv (adds {w} r op) =
          after (add_operation op) w (application-Good svc g fit start i op.collection op refl)
            (Reach-Good inv r)
      Reach-Good inv (inserts {w} r name id value) =
          after (insert name value id) w
            (application-Good svc g fit start i name (insert_operation name value id) refl)
            (Reach-Good inv r)
      Reach-Good inv (updates {w} r name id expected_version changes) =
          after (update_if_version name id expected_version changes) w
            (application-Good svc g fit start i name
              (update_operation name id expected_version changes) refl)
            (Reach-Good inv r)
      Reach-Good inv (queues_job {w} r input context) =
          after (queue_job svc input context) w (queue_job-Good svc g fit start i input context)
            (Reach-Good inv r)
      Reach-Good inv (queues_deliveries {w} r ids event context) =
          after (queue_webhook_deliveries svc ids event context) w
            (queue_webhook_deliveries-Good svc g fit start i ids event context) (Reach-Good inv r)
      Reach-Good inv (queues_notification {w} r input context) =
          after (queue_notification svc input context) w
            (queue_notification-Good svc g fit start i input context) (Reach-Good inv r)
      Reach-Good inv (completes {w} r) =
          after (complete_next svc) w (complete_next-Good svc g fit start i) (Reach-Good inv r)
      Reach-Good inv (elsewhere r s') = Reach-Good inv r
      Reach-Good inv (begins r) = record {
        sound = λ op m. absurd (Memᴰ.not-nil m);
        awaiting = λ p m. absurd (Memᴰ.not-nil m);
        kept = (Reach-Good inv r).kept;
      }

    -- A transaction that was begun.
    pub new-Good : (i : ℕ) (consumed : List ℕ) → Invariant svc g false i (fresh consumed)
    new-Good i consumed = record {
      sound = λ op m. absurd (Memᴰ.not-nil m);
      awaiting = λ p m. absurd (Memᴰ.not-nil m);
      kept = λ (e : false ≡ true). cc;
    }

    -- Whatever a callback does by addOperation, collections, queueJob, queueNotification and
    -- queueWebhookDeliveries, in whatever order, and whichever errors it catches, every operation
    -- queued stands on something: it is the application's and writes a collection that no service
    -- owns; or it is evidence of success under an issued context; or it is a job, or a delivery,
    -- whose durable principal is attested by evidence queued in the same transaction; or it is a
    -- notification by the principal, and to the recipient, of an issued context, with evidence of
    -- its success queued in the same transaction; or it is an audit event or the record of the
    -- delivery of a notification beside such evidence. This is where each issued context is of the
    -- gateway's application and of its principal's tenant, has a decision, and holds no field of a
    -- delegation among the attributes of its resource if it is one for an emission.
    pub operations_are-IsGrounded :
        {s : S} {consumed : List ℕ} {w : S × Transaction}
        → Reach (s, fresh consumed) w
        → (op : TransactionOperation) → Memᴰ op w.1.operations
        → IsGrounded svc g w.1.operations op
    operations_are-IsGrounded {consumed} reached op listed =
        (Reach-Good false 0 (new-Good 0 consumed) reached).sound op listed
