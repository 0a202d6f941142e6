-- ===== src/Jobs/Service/Create/Recurring.antt =====
-- jobs/service.ts: recurring schedules, and the jobs that are made from them.
use appport_services.Common.{
  ℕ, ◌+◌, String, true, not, opt_eq, Option, none, some, List, [], ◌∷◌, is_some, or_else,
  or_default, present, if◌then◌else◌,
}
use appport_services.Authority.Principal.{
  VerifiedPrincipal, Caller, verified, require_verified_principal, reject_caller_actor,
  resolve_tenant,
}
use appport_services.Authority.Gateway.{ServiceGateway, for_service, without_tools}
use appport_services.Authority.Gateway.Execution.{execute}
use appport_services.Jobs.Models.{JobSchedule, ScheduleRecurringInput, pending, success}
use appport_services.Jobs.Interval.{next_run_time}
use appport_services.Jobs.Service.{
  JobService, assert_application_job_type, assert_allowed_type, default_max_attempts, principal_or,
}
use appport_services.Jobs.Service.Create.{
  Author, legacy_author, authorized_author, durable_of, typed_attributes,
}
use appport_services.Exec.{Exec, pure, lift, ◌>>=◌, ◌>>◌}

module _ {S : Type 0} (svc : JobService S) where
  abbrev audit_schedule :
      String → Option String → JobSchedule → String → ℕ → List (String × String) → Exec S (Unit {0})
  audit_schedule kind job_id schedule principal_id timestamp details = do
    id ← svc.random_uuid
    svc.write_audit (record {
      id = id;
      kind = kind;
      job_id = job_id;
      schedule_id = some schedule.id;
      tenant_id = schedule.tenant_id;
      principal_id = principal_id;
      timestamp = timestamp;
      result = success;
      details = details;
    })

  unfoldable pub create_schedule_record :
      ScheduleRecurringInput → String → Author → Exec S JobSchedule
  unfolding durable_of
  create_schedule_record input tenant_id author = do
    id ← svc.random_uuid
    now ← svc.now
    next_run_at ← lift (next_run_time now input.interval)
    let schedule : JobSchedule = record {
      id = id;
      tenant_id = tenant_id;
      application_id = present author.application_id;
      kind = input.kind;
      payload = input.payload;
      interval = input.interval;
      next_run_at = next_run_at;
      enabled = true;
      created_at = now;
      created_by = author.principal_id;
      principal = durable_of author input.delegation_id;
      version = 1;
    }
    svc.schedule_store.create schedule
    audit_schedule "job.schedule.created" none schedule author.principal_id now
        (("jobType", schedule.kind) ∷ ("interval", schedule.interval) ∷ [])
    pure schedule

  schedule_by : Option (ServiceGateway S) → ScheduleRecurringInput → Caller → Exec S JobSchedule
  unfolding create_schedule_record
  schedule_by none input caller =
      create_schedule_record input (or_default input.tenant_id "")
        (legacy_author (or_default input.created_by "system"))
  schedule_by (some g) input caller = do
    principal ← lift (require_verified_principal caller)
    lift (reject_caller_actor input.claims principal)
    tenant_id ← lift (resolve_tenant input.tenant_id principal)
    execute g "schedules.create" (verified principal)
        (record {
          kind = "schedule";
          tenant_id = tenant_id;
          id = none;
          attributes =
              typed_attributes input.kind (or_else input.delegation_id principal.delegation_id);
        })
        (for_service "jobs")
        (λ context.
          without_tools
            (create_schedule_record input tenant_id (authorized_author g principal context)))

  -- The interval is checked first.
  unfoldable pub schedule_recurring : ScheduleRecurringInput → Caller → Exec S JobSchedule
  unfolding schedule_by
  schedule_recurring input caller = do
    now ← svc.now
    lift (next_run_time now input.interval)
    lift (assert_application_job_type input.kind)
    lift (assert_allowed_type svc input.kind (is_some svc.authority))
    schedule_by svc.authority input caller

  audit_disabled : String → Option JobSchedule → Exec S (Option JobSchedule)
  audit_disabled principal_id none = pure none
  audit_disabled principal_id (some updated) = do
    id ← svc.random_uuid
    timestamp ← svc.now
    svc.write_audit (record {
      id = id;
      kind = "job.schedule.disabled";
      job_id = none;
      schedule_id = some updated.id;
      tenant_id = updated.tenant_id;
      principal_id = principal_id;
      timestamp = timestamp;
      result = success;
      details = [];
    })
    pure (some updated)

  disable_found :
      Option (ServiceGateway S × VerifiedPrincipal)
      → String
      → String
      → Option JobSchedule
      → Exec S (Option JobSchedule)
  unfolding audit_disabled
  disable_found by tenant_id schedule_id none = pure none
  disable_found none tenant_id schedule_id (some schedule) = do
    updated ← svc.schedule_store.disable tenant_id schedule_id schedule.version
    audit_disabled "system" updated
  disable_found (some (g, principal)) tenant_id schedule_id (some schedule) =
      if not (opt_eq schedule.application_id (some g.application))
      then pure none
      else execute g "schedules.cancel" (verified principal)
          (record {
            kind = "schedule";
            tenant_id = tenant_id;
            id = some schedule.id;
            attributes = ("jobType", schedule.kind) ∷ ("createdBy", schedule.created_by) ∷ [];
          })
          (for_service "jobs")
          (λ _. without_tools (do
            updated ← svc.schedule_store.disable tenant_id schedule_id schedule.version
            audit_disabled principal.principal_id updated))

  disable_by : Option (ServiceGateway S) → String → String → Caller → Exec S (Option JobSchedule)
  unfolding disable_found
  disable_by none tenant_id schedule_id caller = do
    schedule ← svc.schedule_store.get tenant_id schedule_id
    disable_found none tenant_id schedule_id schedule
  disable_by (some g) tenant_id schedule_id caller = do
    principal ← lift (require_verified_principal caller)
    tenant ← lift (resolve_tenant (some tenant_id) principal)
    schedule ← svc.schedule_store.get tenant schedule_id
    disable_found (some (g, principal)) tenant_id schedule_id schedule

  unfoldable pub disable_schedule : String → String → Caller → Exec S (Option JobSchedule)
  unfolding disable_by
  disable_schedule tenant_id schedule_id caller =
      disable_by svc.authority tenant_id schedule_id caller

  audit_created : String → ℕ → JobSchedule → Option JobSchedule → Exec S (Unit {0})
  audit_created job_id now schedule none = pure tt
  audit_created job_id now schedule (some _) =
      audit_schedule "job.created_from_schedule" (some job_id) schedule
        (principal_or schedule.principal "anonymous") now []

  -- A job is created first; then the schedule moves on, if its version is still the one read.
  unfoldable pub process_schedule : String → ℕ → JobSchedule → Exec S (Unit {0})
  unfolding audit_created
  process_schedule tenant_id now schedule = do
    job_id ← svc.random_uuid
    svc.job_store.create (record {
      id = job_id;
      tenant_id = schedule.tenant_id;
      application_id = present schedule.application_id;
      kind = schedule.kind;
      payload = schedule.payload;
      status = pending;
      run_at = svc.date_text now;
      attempt_count = 0;
      max_attempts = default_max_attempts;
      created_at = now;
      started_at = none;
      completed_at = none;
      next_attempt_at = none;
      lease_owner = none;
      lease_expires_at = none;
      last_error = none;
      principal = schedule.principal;
      version = 1;
    })
    next_run_at ← lift (next_run_time now schedule.interval)
    updated ←
        svc.schedule_store.update_schedule tenant_id schedule.id schedule.version
          (λ stored. record stored { next_run_at = next_run_at })
    audit_created job_id now schedule updated

  unfoldable pub process_schedules : String → ℕ → ℕ → List JobSchedule → Exec S ℕ
  unfolding process_schedule
  process_schedules tenant_id now created [] = pure created
  process_schedules tenant_id now created (schedule ∷ rest) = do
    process_schedule tenant_id now schedule
    process_schedules tenant_id now (created + 1) rest

  unfoldable pub process_recurring_schedules : String → Exec S ℕ
  unfolding process_schedules
  process_recurring_schedules tenant_id = do
    now ← svc.now
    due ← svc.schedule_store.list_due tenant_id now
    process_schedules tenant_id now 0 due
