-- ===== src/Jobs/Service.antt =====
-- jobs/service.ts: the service of jobs. `S` is the state of the world. The maps of the service
-- object do not change here: the handlers are those that were registered before.
pub mod Create
pub mod Settle
pub mod Run
use Prim.Native.String
use appport_services.Common.{
  ℕ, String, Bool, true, false, Option, none, some, List, [], ◌∷◌, includes, is_some, or_else,
  strip_prefix, truthy, if◌then◌else◌, or_default,
}
use appport_services.Authority.Errors.{
  Error, authority_error, delivery_error, conditional_conflict, other_error, invalid_request,
  authority_unavailable, no_details,
}
use appport_services.Authority.Principal.{VerifiedPrincipal, DurablePrincipal}
use appport_services.Authority.Context.{ServiceExecutionContext, ServiceResource}
use appport_services.Authority.Gateway.{ServiceGateway}
use appport_services.Jobs.Models.{Job, JobStore, JobScheduleStore, JobAuditEvent, AuditResult}
use appport_services.Exec.{Exec, pure, throw, Result, ok, err, require, invalid, ◌>>=◌}

abbrev pub default_max_attempts : ℕ
default_max_attempts = 5

abbrev pub initial_retry_delay_ms : ℕ
initial_retry_delay_ms = 1000

-- What a running job is allowed to act as.
pub record JobExecution : Type 0 where
  pub principal : VerifiedPrincipal
  pub context : ServiceExecutionContext
  pub run_id : String

-- A legacy handler gets no execution.
abbrev pub JobHandler : Type 0 → Type 0
JobHandler S = Job → Option JobExecution → Exec S (Unit {0})

-- `conflict_message` is the message of FeltDB's conflict error, `date_text` is `toISOString`.
pub record JobService (S : Type 0) : Type 0 where
  pub job_store : JobStore S
  pub schedule_store : JobScheduleStore S
  pub write_audit : JobAuditEvent → Exec S (Unit {0})
  pub now : Exec S ℕ
  pub random_uuid : Exec S String
  pub max_retry_attempts : ℕ
  pub lease_duration_ms : ℕ
  pub handlers : String → Option (JobHandler S)
  pub allowed_types : Option (List String)
  pub authority : Option (ServiceGateway S)
  pub conflict_message : String
  pub date_text : ℕ → String

-- `SYSTEM_JOB_TYPE_PREFIX`.
unfoldable pub is_system_type : String → Bool
is_system_type kind = is_some (strip_prefix "appport." kind)

-- `assertApplicationJobType`.
unfoldable pub assert_application_job_type : String → Result (Unit {0})
assert_application_job_type kind =
    if is_system_type kind
    then err (other_error "Job type is reserved for AppPort Services")
    else ok tt

abbrev is_allowed_type : Option (List String) → String → Bool
is_allowed_type none kind = true
is_allowed_type (some types) kind = includes types kind

-- An event of the service; its principal, time and details are given.
module _ {S : Type 0} (svc : JobService S) where
  unfoldable pub assert_allowed_type : String → Bool → Result (Unit {0})
  assert_allowed_type kind authority_mode =
      if is_allowed_type svc.allowed_types kind
      then ok tt
      else if authority_mode
      then err (invalid "Job type is not declared in appport.toml")
      else err (other_error "Job type is not declared in appport.toml")

  unfoldable pub gateway : Result (ServiceGateway S)
  gateway = elim svc.authority [
    | none ↦ err (
        authority_error authority_unavailable "Jobs have no AuthBoundry authority configured"
          no_details)
    | some g ↦ ok g
  ]

  unfoldable pub message_of : Error → String
  message_of (authority_error code message details) = message
  message_of (delivery_error message status_code) = message
  message_of conditional_conflict = svc.conflict_message
  message_of (other_error message) = message

  unfoldable pub audit_job :
      String → Job → String → ℕ → AuditResult → List (String × String) → Exec S (Unit {0})
  audit_job kind job principal_id timestamp result details = do
    id ← svc.random_uuid
    svc.write_audit (record {
      id = id;
      kind = kind;
      job_id = some job.id;
      schedule_id = none;
      tenant_id = job.tenant_id;
      principal_id = principal_id;
      timestamp = timestamp;
      result = result;
      details = details;
    })

-- `job.principal?.principalId ?? fallback`.
abbrev pub principal_or : Option DurablePrincipal → String → String
principal_or none fallback = fallback
principal_or (some p) fallback = p.principal_id
