-- ===== src/Jobs/Service/Settle.antt =====
-- jobs/service.ts: how an attempt ends. An update that finds another version writes nothing, which
-- the service does not look at.
use appport_services.Common.{
  ℕ, ◌+◌, ◌*◌, ◌^◌, String, Bool, Option, none, some, List, [], ◌∷◌, leb, decimal, if◌then◌else◌,
}
use appport_services.Jobs.Models.{Job, pending, retrying, completed, failed, success, failure}
use appport_services.Jobs.Service.{JobService, audit_job, principal_or, initial_retry_delay_ms}
use appport_services.Exec.{Exec, pure, ◌>>=◌, ◌>>◌}

unfoldable pub next_attempt_at : ℕ → Job → ℕ
next_attempt_at now job = now + initial_retry_delay_ms * 2 ^ job.attempt_count

abbrev pub is_last_attempt : Job → Bool
is_last_attempt job = leb job.max_attempts (job.attempt_count + 1)

-- The update that a failed attempt of `job` merges into the stored record: it was the last one, or
-- the next one is due after a delay that doubles with each attempt.
unfoldable pub failure_update : (ℕ → String) → ℕ → String → Job → Job → Job
failure_update date_text now message job stored =
    if is_last_attempt job
    then record stored {
      status = failed;
      last_error = some message;
      attempt_count = job.attempt_count + 1;
    }
    else record stored {
      status = retrying;
      next_attempt_at = some (date_text (next_attempt_at now job));
      last_error = some message;
      attempt_count = job.attempt_count + 1;
    }

module _ {S : Type 0} (svc : JobService S) where
  run_details : Option String → List (String × String)
  run_details none = []
  run_details (some run_id) = ("runId", run_id) ∷ []

  unfoldable pub complete_job : Job → String → Option String → Exec S (Unit {0})
  unfolding run_details
  complete_job job principal_id run_id = do
    completed_at ← svc.now
    svc.job_store.update_job job.tenant_id job.id job.version
        (λ stored. record stored { status = completed; completed_at = some completed_at })
    audit_job svc "job.completed" job principal_id completed_at success (run_details run_id)

  -- The event of a failed attempt; the last one has the time that was read before the update.
  abbrev audit_failure : Job → String → String → ℕ → Exec S (Unit {0})
  audit_failure job principal_id message now =
      if is_last_attempt job
      then audit_job svc "job.failed" job principal_id now failure
          (("error", message) ∷ ("attemptCount", decimal (job.attempt_count + 1)) ∷ [])
      else do
        timestamp ← svc.now
        audit_job svc "job.retrying" job principal_id timestamp failure (
            ("error", message)
            ∷ ("nextAttemptAt", svc.date_text (next_attempt_at now job))
            ∷ ("attemptCount", decimal (job.attempt_count + 1))
            ∷ [])

  unfoldable pub record_execution_failure : Job → String → String → Exec S (Unit {0})
  unfolding failure_update next_attempt_at
  record_execution_failure job principal_id message = do
    now ← svc.now
    svc.job_store.update_job job.tenant_id job.id job.version
        (failure_update svc.date_text now message job)
    audit_failure job principal_id message now

  unfoldable pub deny : Job → String → Exec S (Unit {0})
  deny job reason = do
    svc.job_store.update_job job.tenant_id job.id job.version
        (λ stored. record stored { status = failed; last_error = some reason })
    timestamp ← svc.now
    audit_job svc "job.denied" job (principal_or job.principal "anonymous") timestamp failure
        (("reason", reason) ∷ [])

  abbrev after_reset : String → ℕ → Option Job → Exec S (Option Job)
  after_reset principal_id now none = pure none
  after_reset principal_id now (some updated) = do
    audit_job svc "job.retried" updated principal_id now success []
    pure (some updated)

  unfoldable pub reset_job : Job → String → Exec S (Option Job)
  reset_job job principal_id = do
    now ← svc.now
    updated ← svc.job_store.update_job job.tenant_id job.id job.version (λ stored. record stored {
      status = pending;
      attempt_count = 0;
      next_attempt_at = none;
      last_error = none;
    })
    after_reset principal_id now updated
