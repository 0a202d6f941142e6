-- ===== src/Jobs/Service/Create.antt =====
-- jobs/service.ts: creating jobs and schedules, disabling schedules, retrying jobs.
pub mod Recurring
pub mod Vouched
use appport_services.Common.{
  code_le, ℕ, String, Bool, true, false, not, ◌==◌, opt_eq, Option, none, some, List, [], ◌∷◌, leb,
  is_some, or_else, or_default, truthy, present, if◌then◌else◌,
}
use appport_services.Common.Json.{Json}
use appport_services.Authority.Errors.{Error, other_error}
use appport_services.Authority.Principal.{
  VerifiedPrincipal, Caller, verified, ActorClaims, DurablePrincipal, require_verified_principal,
  reject_caller_actor, resolve_tenant, to_durable_principal,
}
use appport_services.Authority.Context.{ServiceResource, ServiceExecutionContext}
use appport_services.Authority.Gateway.{ServiceGateway, for_service, without_tools}
use appport_services.Authority.Gateway.Execution.{execute}
use appport_services.Jobs.Models.{
  Job, JobSchedule, CreateJobInput, ScheduleRecurringInput, pending, scheduled, success,
}
use appport_services.Jobs.Interval.{next_run_time}
use appport_services.Jobs.Service.{
  JobService, audit_job, gateway, assert_application_job_type, assert_allowed_type,
}
use appport_services.Jobs.Service.Settle.{reset_job}
use appport_services.Exec.{Exec, pure, throw, lift, Result, ok, err, invalid, ◌>>=◌, ◌>>◌}

-- The caller that a record is created for, with the decision that allowed it; none in legacy mode.
pub record Author : Type 0 where
  pub principal_id : String
  pub application_id : Option String
  pub principal : Option VerifiedPrincipal
  pub authorized_by : Option String

abbrev pub legacy_author : String → Author
legacy_author principal_id = record {
  principal_id = principal_id;
  application_id = none;
  principal = none;
  authorized_by = none;
}

abbrev pub authorized_author :
    {S : Type 0} → ServiceGateway S → VerifiedPrincipal → ServiceExecutionContext → Author
authorized_author g principal context = record {
  principal_id = principal.principal_id;
  application_id = some g.application;
  principal = some principal;
  authorized_by = some context.authorization.decision_id;
}

-- The durable principal of a new record: there is one where both the principal and the decision
-- are given. An empty decision id counts as none.
durable_for : Option VerifiedPrincipal → Option String → Option String → Option DurablePrincipal
durable_for none authorized_by delegation_id = none
durable_for (some principal) authorized_by delegation_id =
    if truthy authorized_by
    then some (
        to_durable_principal principal (or_else delegation_id principal.delegation_id)
          authorized_by)
    else none

unfoldable pub durable_of : Author → Option String → Option DurablePrincipal
unfolding durable_for
durable_of author delegation_id = durable_for author.principal author.authorized_by delegation_id

-- The attributes of a resource that names a job type and a delegation.
abbrev typed_attributes : String → Option String → List (String × String)
typed_attributes kind delegation_id =
    if truthy delegation_id
    then ("jobType", kind) ∷ ("delegationId", or_default delegation_id "") ∷ []
    else ("jobType", kind) ∷ []

module _ {S : Type 0} (svc : JobService S) where
  -- `createJobRecord` for a tenant.
  unfoldable pub create_job_record : CreateJobInput → String → Author → Exec S Job
  unfolding durable_of
  create_job_record input tenant_id author = do
    id ← svc.random_uuid
    now ← svc.now
    let run_at = or_default input.run_at (svc.date_text now)
    let job : Job = record {
      id = id;
      tenant_id = tenant_id;
      application_id = present author.application_id;
      kind = input.kind;
      payload = input.payload;
      status = if code_le run_at (svc.date_text now) then pending else scheduled;
      run_at = run_at;
      attempt_count = 0;
      max_attempts = or_default input.max_attempts svc.max_retry_attempts;
      created_at = now;
      started_at = none;
      completed_at = none;
      next_attempt_at = none;
      lease_owner = none;
      lease_expires_at = none;
      last_error = none;
      principal = durable_of author input.delegation_id;
      version = 1;
    }
    svc.job_store.create job
    audit_job svc "job.created" job author.principal_id now success (("jobType", job.kind) ∷ [])
    pure job

  enqueue_by : Option (ServiceGateway S) → CreateJobInput → Caller → Exec S Job
  unfolding create_job_record
  enqueue_by none input caller =
      create_job_record input (or_default input.tenant_id "") (legacy_author "system")
  enqueue_by (some g) input caller = do
    principal ← lift (require_verified_principal caller)
    lift (reject_caller_actor input.claims principal)
    tenant_id ← lift (resolve_tenant input.tenant_id principal)
    execute g "jobs.create" (verified principal)
        (record {
          kind = "job";
          tenant_id = tenant_id;
          id = none;
          attributes =
              typed_attributes input.kind (or_else input.delegation_id principal.delegation_id);
        })
        (for_service "jobs")
        (λ context.
          without_tools (create_job_record input tenant_id (authorized_author g principal context)))

  -- In legacy mode a tenant that is left out is stored as it is; here, as the empty text.
  unfoldable pub enqueue : CreateJobInput → Caller → Exec S Job
  unfolding enqueue_by
  enqueue input caller = do
    lift (assert_application_job_type input.kind)
    lift (assert_allowed_type svc input.kind (is_some svc.authority))
    enqueue_by svc.authority input caller

  unfoldable pub schedule : CreateJobInput → Caller → Exec S Job
  unfolding enqueue
  schedule input caller = elim input.run_at [
    | some _ ↦ enqueue input caller
    | none ↦ throw (
        if is_some svc.authority
        then invalid "schedule() requires runAt"
        else other_error "schedule() requires runAt")
  ]

  retry_found : ServiceGateway S → VerifiedPrincipal → String → Option Job → Exec S (Option Job)
  retry_found g principal tenant_id none = pure none
  retry_found g principal tenant_id (some owned) =
      if not (opt_eq owned.application_id (some g.application))
      then pure none
      else execute g "jobs.retry" (verified principal)
          (record {
            kind = "job";
            tenant_id = tenant_id;
            id = some owned.id;
            attributes = ("jobType", owned.kind) ∷ [];
          })
          (for_service "jobs") (λ _. without_tools (reset_job svc owned principal.principal_id))

  retry_by : Option (ServiceGateway S) → String → String → Caller → Option Job → Exec S (Option Job)
  unfolding retry_found
  retry_by authority tenant_id job_id caller none = pure none
  retry_by none tenant_id job_id caller (some job) = reset_job svc job "system"
  retry_by (some g) tenant_id job_id caller (some job) = do
    principal ← lift (require_verified_principal caller)
    tenant ← lift (resolve_tenant (some tenant_id) principal)
    owned ← svc.job_store.get tenant job_id
    retry_found g principal tenant_id owned

  -- The first read decides alone whether there is a job at all.
  unfoldable pub retry : String → String → Caller → Exec S (Option Job)
  unfolding retry_by
  retry tenant_id job_id caller = do
    job ← svc.job_store.get tenant_id job_id
    retry_by svc.authority tenant_id job_id caller job
