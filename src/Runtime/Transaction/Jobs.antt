-- ===== src/Runtime/Transaction/Jobs.antt =====
-- runtime/transaction-services.ts: queueJob.
use Prim.Native.String
use appport_services.Common.{
  ℕ, String, not, ◌&&◌, opt_eq, code_le, Option, none, some, is_some, [], ◌∷◌, get, or_else,
  or_default, if◌then◌else◌,
}
use appport_services.Common.Json.{Json}
use appport_services.Authority.Principal.{to_durable_principal}
use appport_services.Authority.Context.{ServiceExecutionContext}
use appport_services.Jobs.Models.{Job, JobStatus, JobAuditEvent, AuditResult}
use appport_services.Runtime.Transaction.{
  TransactionOperation, job_row, job_event_row, Transaction, push, outside,
}
use appport_services.Exec.{Exec, Result, ok, err, pure, lift, ◌>>=◌, ◌>>◌}
use appport_services.Runtime.Transaction.Authorized.{
  TransactionServices, insertion, refuse, authorized,
}

-- The input of queueJob.
pub record TransactionJob : Type 0 where
  pub tenant_id : String
  pub kind : String
  pub payload : Json
  pub max_attempts : Option ℕ
  pub run_at : Option String
  pub delegation_id : Option String

unfoldable pub check_job : ServiceExecutionContext → TransactionJob → Result (Unit {0})
check_job context input =
    if not (opt_eq (get "jobType" context.resource.attributes) (some input.kind))
    then err (refuse (String.◌++◌ "Execution context was not issued for job type " input.kind))
    else if is_some input.delegation_id
        && not (
            opt_eq input.delegation_id (
              or_else (get "delegationId" context.resource.attributes)
                context.principal.delegation_id))
    then err (refuse "Execution context was not issued for this delegation")
    else ok tt

-- `date_text` is `toISOString`; times that are given are texts, and so are the ones compared.
unfoldable pub queued_job :
    (ℕ → String) → ServiceExecutionContext → TransactionJob → String → ℕ → Job
queued_job date_text context input id now = record {
  id = id;
  tenant_id = input.tenant_id;
  application_id = some context.application;
  kind = input.kind;
  payload = input.payload;
  status =
      if code_le (or_default input.run_at (date_text now)) (date_text now)
      then JobStatus.pending
      else JobStatus.scheduled;
  run_at = or_default input.run_at (date_text now);
  attempt_count = 0;
  max_attempts = or_default input.max_attempts 3;
  created_at = now;
  started_at = none;
  completed_at = none;
  next_attempt_at = some (or_default input.run_at (date_text now));
  lease_owner = none;
  lease_expires_at = none;
  last_error = none;
  principal = some (
      to_durable_principal context.principal
        (or_else (get "delegationId" context.resource.attributes) context.principal.delegation_id)
        (some context.authorization.decision_id));
  version = 1;
}

-- The job type of the event is one of its details.
abbrev job_event : ServiceExecutionContext → Job → String → ℕ → JobAuditEvent
job_event context job id now = record {
  id = id;
  kind = "job.enqueued";
  job_id = some job.id;
  schedule_id = none;
  tenant_id = job.tenant_id;
  principal_id = context.principal.principal_id;
  timestamp = now;
  result = AuditResult.success;
  details = ("jobType", job.kind) ∷ [];
}

abbrev pub job_operation : Job → TransactionOperation
job_operation job = insertion "jobs" job.id (job_row job)

abbrev pub job_event_operation : ServiceExecutionContext → Job → String → ℕ → TransactionOperation
job_event_operation context job id now =
    insertion "job_audit_events" id (job_event_row (job_event context job id now))

module _ {S : Type 0} (svc : TransactionServices S) where
  -- `queueJob` behind its checks.
  unfoldable pub enqueue : ServiceExecutionContext → TransactionJob → Exec (S × Transaction) String
  unfolding queued_job
  enqueue issued input = do
    id ← outside svc.random_uuid
    now ← outside svc.now
    push (job_operation (queued_job svc.date_text issued input id now))
    audit_id ← outside svc.random_uuid
    push (job_event_operation issued (queued_job svc.date_text issued input id now) audit_id now)
    pure id

  unfoldable pub queue_job : TransactionJob → Option ℕ → Exec (S × Transaction) String
  unfolding check_job enqueue
  queue_job input context = do
    issued ← authorized svc context "jobs.create" input.tenant_id "job"
    lift (check_job issued input)
    enqueue issued input
