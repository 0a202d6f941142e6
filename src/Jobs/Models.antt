-- ===== src/Jobs/Models.antt =====
-- jobs/models.ts and the interfaces of jobs/store.ts. Times are numbers of milliseconds, as in
-- ApiKeys/Models.antt; those of a job that a caller may give unchecked, and what they are copied to,
-- are texts.
use appport_services.Common.{ℕ, String, Bool, Option, List}
use appport_services.Common.Json.{Json}
use appport_services.Authority.Principal.{DurablePrincipal, ActorClaims}
use appport_services.Exec.{Exec}

pub data JobStatus : Type 0 where
  scheduled pending running retrying completed failed : JobStatus

pub record Job : Type 0 where
  pub id : String
  pub tenant_id : String
  pub application_id : Option String
  pub kind : String
  pub payload : Json
  pub status : JobStatus
  pub run_at : String
  pub attempt_count : ℕ
  pub max_attempts : ℕ
  pub created_at : ℕ
  pub started_at : Option ℕ
  pub completed_at : Option ℕ
  pub next_attempt_at : Option String
  pub lease_owner : Option String
  pub lease_expires_at : Option ℕ
  pub last_error : Option String
  pub principal : Option DurablePrincipal
  pub version : ℕ

pub record JobSchedule : Type 0 where
  pub id : String
  pub tenant_id : String
  pub application_id : Option String
  pub kind : String
  pub payload : Json
  pub interval : String
  pub next_run_at : ℕ
  pub enabled : Bool
  pub created_at : ℕ
  pub created_by : String
  pub principal : Option DurablePrincipal
  pub version : ℕ

pub data AuditResult : Type 0 where
  success failure : AuditResult

-- The `details` of an event, as the texts that it names.
pub record JobAuditEvent : Type 0 where
  pub id : String
  pub kind : String
  pub job_id : Option String
  pub schedule_id : Option String
  pub tenant_id : String
  pub principal_id : String
  pub timestamp : ℕ
  pub result : AuditResult
  pub details : List (String × String)

pub record CreateJobInput : Type 0 where
  pub claims : ActorClaims
  pub tenant_id : Option String
  pub kind : String
  pub payload : Json
  pub run_at : Option String
  pub max_attempts : Option ℕ
  pub delegation_id : Option String

pub record ScheduleRecurringInput : Type 0 where
  pub claims : ActorClaims
  pub tenant_id : Option String
  pub kind : String
  pub payload : Json
  pub interval : String
  pub delegation_id : Option String
  pub created_by : Option String

-- A partial update is the function that merges it.
pub record JobStore (S : Type 0) : Type 0 where
  pub create : Job → Exec S (Unit {0})
  pub get : String → String → Exec S (Option Job)
  pub list : String → Exec S (List Job)
  pub list_by_status : String → JobStatus → Exec S (List Job)
  pub list_due : String → String → Exec S (List Job)
  pub claim : String → String → ℕ → ℕ → Exec S (Option Job)
  pub update_job : String → String → ℕ → (Job → Job) → Exec S (Option Job)

pub record JobScheduleStore (S : Type 0) : Type 0 where
  pub create : JobSchedule → Exec S (Unit {0})
  pub get : String → String → Exec S (Option JobSchedule)
  pub list : String → Exec S (List JobSchedule)
  pub list_due : String → ℕ → Exec S (List JobSchedule)
  pub update_schedule :
      String → String → ℕ → (JobSchedule → JobSchedule) → Exec S (Option JobSchedule)
  pub disable : String → String → ℕ → Exec S (Option JobSchedule)
