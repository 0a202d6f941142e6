-- ===== src/Runtime/Transaction/Effects.antt =====
-- What the operations of the application, and the jobs, that are queued leave of the grounds.
use appport_services.Common.{
  ℕ, ◌≡◌, refl, ap, ◌∙◌, String, Bool, false, Option, none, some, List, includes, get, present,
  or_else, inl, inr, Bool-cases,
}
use appport_services.Authority.Context.{ServiceExecutionContext}
use appport_services.Authority.Gateway.{ServiceGateway}
use appport_services.Authority.Gateway.Execution.{effective_delegation}
use appport_services.Authority.Reserved.{service_owned_collections, assert_application_collection}
use appport_services.Jobs.Service.Run.{creating_capabilities}
use appport_services.Runtime.Transaction.{TransactionOperation, Transaction, job_row, push}
use appport_services.Runtime.Transaction.Authorized.{TransactionServices, authorized}
use appport_services.Runtime.Transaction.Jobs.{
  TransactionJob, queued_job, queue_job, enqueue, check_job, job_operation, job_event_operation,
}
use appport_services.Runtime.Transaction.Grounds.{
  IsIssued, IsBacked, IsGrounded, of_application, of_job, of_job_event, push-Invariant,
  principal-IsVouched,
}
use appport_services.Runtime.Transaction.Triples.{
  Outcome, Triple, triple-bind, triple-outside, triple-lift,
}
use appport_services.Exec.{ok, pure, lift, ◌>>=◌}
use appport_services.Runtime.Transaction.Queue.{
  Good, Backed, backed-IsIssued, push-Backed, authorized-Backed,
}

or_else_twice : (a b : Option String) → or_else (or_else a b) b ≡ or_else a b
or_else_twice none none = refl
or_else_twice none (some b) = refl
or_else_twice (some a) b = refl

application_collection :
    (name : String)
    → assert_application_collection name ≡ ok tt
    → includes service_owned_collections name ≡ false
unfolding assert_application_collection
application_collection name h = elim (Bool-cases (includes service_owned_collections name)) [
  | inl e ↦ let refused = rw e at h in cc
  | inr e ↦ e
]

module _ {S : Type 0} (svc : TransactionServices S) (g : ServiceGateway S)
    (fit : (j : ℕ) → IsIssued g (svc.issued j)) (start : Bool) (i : ℕ) where
  abbrev pub E : Transaction → Type 0
  E = Good svc g fit start i

  abbrev pub B : ServiceExecutionContext → String → Transaction → Type 0
  B = Backed svc g fit start i

  pub safe :
      (c : ServiceExecutionContext) (capability : String) (t : Transaction) → B c capability t → E t
  safe c capability t h = h.0

  pub push-Good :
      (c : ServiceExecutionContext) (capability : String) (op : TransactionOperation)
      → ((ops : List TransactionOperation)
          → IsBacked svc g c capability ops
          → IsGrounded svc g ops op)
      → Triple S E (B c capability) (push op) (λ _. E)
  unfolding Triple Outcome push
  push-Good c capability op grounds w h =
      (push-Backed svc g fit start i c capability op grounds w h).0

  pub pure-Good :
      {A : Type 0} (c : ServiceExecutionContext) (capability : String) (a : A)
      → Triple S E (B c capability) (pure a) (λ _. E)
  unfolding Triple Outcome
  pure-Good c capability a w h = h.0

  -- An operation of the application on a collection of its own.
  pub application-Good :
      (name : String) (op : TransactionOperation)
      → op.collection ≡ name
      → Triple S E E (lift (assert_application_collection name) >>= λ _. push op) (λ _. E)
  unfolding Triple Outcome push
  application-Good name op same =
      triple-lift S E E (λ _. E) (λ t h. h) (assert_application_collection name) _
        λ _ h (s, t) inv.
          push-Invariant svc g start i op t
            (of_application
              (ap (includes service_owned_collections) same ∙ application_collection name h))
            inv

  job-grounds :
      (context : ServiceExecutionContext) (input : TransactionJob) (id : String) (now : ℕ)
      (op : TransactionOperation) (ops : List TransactionOperation)
      → op.collection ≡ "jobs"
      → op.value ≡ some (job_row (queued_job svc.date_text context input id now))
      → IsBacked svc g context "jobs.create" ops
      → IsGrounded svc g ops op
  unfolding queued_job effective_delegation
  job-grounds context input id now op ops collection value b =
      of_job (queued_job svc.date_text context input id now) collection value (
        principal-IsVouched svc g context "jobs.create" creating_capabilities
          (or_else (get "delegationId" context.resource.attributes) context.principal.delegation_id)
          ops (backed-IsIssued svc g fit start i context "jobs.create" ops b) refl
          (ap present (
            or_else_twice (get "delegationId" context.resource.attributes)
              context.principal.delegation_id))
          b)

  enqueue-Good :
      (c : ServiceExecutionContext) (input : TransactionJob)
      → Triple S E (B c "jobs.create") (enqueue svc c input) (λ _. E)
  unfolding enqueue
  enqueue-Good c input =
      let pre = B c "jobs.create" in
      let last : String → Transaction → Type 0 = λ _. E in
      let s = safe c "jobs.create" in
      triple-outside S E pre last s svc.random_uuid _ λ id.
        triple-outside S E pre last s svc.now _ λ now.
          let job = queued_job svc.date_text c input id now in
          triple-bind S E pre (λ _. pre) last (push (job_operation job)) _
            (push-Backed svc g fit start i c "jobs.create" (job_operation job)
              λ ops b. job-grounds c input id now (job_operation job) ops refl refl b)
            λ _. triple-outside S E pre last s svc.random_uuid _ λ audit_id.
              triple-bind S E pre (λ _. pre) last (push (job_event_operation c job audit_id now))
                (λ _. pure id)
                (push-Backed svc g fit start i c "jobs.create"
                  (job_event_operation c job audit_id now) λ ops b. of_job_event c refl b)
                λ _. pure-Good c "jobs.create" id

  pub queue_job-Good :
      (input : TransactionJob) (context : Option ℕ)
      → Triple S E E (queue_job svc input context) (λ _. E)
  unfolding queue_job
  queue_job-Good input context =
      let last : String → Transaction → Type 0 = λ _. E in
      triple-bind S E E (λ (c : ServiceExecutionContext). B c "jobs.create") last
        (authorized svc context "jobs.create" input.tenant_id "job") _
        (authorized-Backed svc g fit start i context "jobs.create" input.tenant_id "job")
        λ c.
          triple-lift S E (B c "jobs.create") last (safe c "jobs.create") (check_job c input)
            (λ _. enqueue svc c input) λ _ _. enqueue-Good c input
