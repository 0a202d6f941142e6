-- ===== src/Jobs/Store.antt =====
-- jobs/store.ts: the stores over FeltDB collections.
pub mod Claims
use appport_services.Common.{
  code_le, truthy, ℕ, String, Bool, true, false, not, ◌&&◌, ◌||◌, ◌==◌, Option, none, some, List,
  [], ◌∷◌, leb, keep, if◌then◌else◌,
}
use appport_services.FeltDb.{Collection}
use appport_services.Jobs.Models.{
  Job, JobStatus, scheduled, pending, running, retrying, completed, failed, JobSchedule, JobStore,
  JobScheduleStore,
}
use appport_services.Exec.{Exec, pure, ◌>>=◌}

abbrev pub same_status : JobStatus → JobStatus → Bool
same_status scheduled scheduled = true
same_status pending pending = true
same_status running running = true
same_status retrying retrying = true
same_status completed completed = true
same_status failed failed = true
same_status _ _ = false

-- A time that is set and has come, as texts compare.
abbrev has_come : Option String → String → Bool
has_come none now = false
has_come (some t) now = truthy (some t) && code_le t now

-- `date_text` is `toISOString`.
abbrev written : (ℕ → String) → Option ℕ → Option String
written date_text none = none
written date_text (some t) = some (date_text t)

-- The filter of `listDue`, which compares the texts of the times.
unfoldable pub is_due : (ℕ → String) → String → Job → Bool
is_due date_text now job =
    (((same_status job.status pending || same_status job.status scheduled)
        && code_le job.run_at now)
      || (same_status job.status retrying && has_come job.next_attempt_at now))
    || (same_status job.status running && has_come (written date_text job.lease_expires_at) now)

abbrev in_tenant : String → Option Job → Option Job
in_tenant tenant_id none = none
in_tenant tenant_id (some job) = if job.tenant_id == tenant_id then some job else none

abbrev schedule_in_tenant : String → Option JobSchedule → Option JobSchedule
schedule_in_tenant tenant_id none = none
schedule_in_tenant tenant_id (some s) = if s.tenant_id == tenant_id then some s else none

-- The update that a claim merges into the record.
abbrev pub claim_update : ℕ → ℕ → Job → Job
claim_update lease_expires_at now job = record job {
  status = running;
  lease_expires_at = some lease_expires_at;
  started_at = some now;
}

module _ {S : Type 0} (jobs : Collection S Job) (wall_clock : Exec S ℕ) where
  -- `claim` reads the wall clock, not the clock of the service.
  unfoldable pub claim : String → String → ℕ → ℕ → Exec S (Option Job)
  claim tenant_id job_id expected_version lease_expires_at = do
    now ← wall_clock
    item ← jobs.update_if_version job_id expected_version (claim_update lease_expires_at now)
    pure (in_tenant tenant_id item)

  unfoldable pub felt_db_job_store : (ℕ → String) → JobStore S
  unfolding claim is_due
  felt_db_job_store date_text = record {
    create = λ job. jobs.insert_absent job.id job;
    get = λ tenant_id id. do
      job ← jobs.get id
      pure (in_tenant tenant_id job);
    list = λ tenant_id. jobs.find (λ job. job.tenant_id == tenant_id);
    list_by_status = λ tenant_id status.
        jobs.find (λ job. (job.tenant_id == tenant_id) && same_status job.status status);
    list_due = λ tenant_id now. do
      all ← jobs.find (λ job. job.tenant_id == tenant_id)
      pure (keep (is_due date_text now) all);
    claim = claim;
    update_job = λ tenant_id job_id expected_version updates. do
      item ← jobs.update_if_version job_id expected_version updates
      pure (in_tenant tenant_id item);
  }

module _ {S : Type 0} (schedules : Collection S JobSchedule) where
  unfoldable pub update_schedule :
      String → String → ℕ → (JobSchedule → JobSchedule) → Exec S (Option JobSchedule)
  update_schedule tenant_id schedule_id expected_version updates = do
    item ← schedules.update_if_version schedule_id expected_version updates
    pure (schedule_in_tenant tenant_id item)

  unfoldable pub felt_db_job_schedule_store : JobScheduleStore S
  unfolding update_schedule
  felt_db_job_schedule_store = record {
    create = λ s. schedules.insert_absent s.id s;
    get = λ tenant_id id. do
      s ← schedules.get id
      pure (schedule_in_tenant tenant_id s);
    list = λ tenant_id. schedules.find (λ s. s.tenant_id == tenant_id);
    list_due = λ tenant_id now. do
      all ← schedules.find (λ s. (s.tenant_id == tenant_id) && s.enabled)
      pure (keep (λ s. leb s.next_run_at now) all);
    update_schedule = update_schedule;
    disable = λ tenant_id schedule_id expected_version.
        update_schedule tenant_id schedule_id expected_version (λ s. record s { enabled = false });
  }
