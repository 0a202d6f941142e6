-- ===== src/Jobs/Service/Run.antt =====
-- jobs/service.ts: `executeJob`.
pub mod Authority
pub mod Checks
use Prim.Native.String
use appport_services.Common.{
  ℕ, ◌+◌, String, Bool, true, false, not, ◌&&◌, ◌||◌, ◌==◌, opt_eq, Option, none, some, List, [],
  ◌∷◌, leb, decimal, if◌then◌else◌,
}
use appport_services.Authority.Errors.{
  Error, authority_error, delivery_error, conditional_conflict, other_error, ServiceFailureCode,
  denied, unauthenticated, authority_unavailable, authorization_timeout,
}
use appport_services.Authority.Principal.{
  DurablePrincipal, VerifiedPrincipal, verified, by_job, mint_verified_principal, durable_claims,
}
use appport_services.Authority.Context.{ServiceResource}
use appport_services.Authority.Gateway.{ServiceGateway, ExecuteOptions, without_tools}
use appport_services.Authority.Gateway.Execution.{execute, code_name}
use appport_services.Authority.Gateway.Attest.{attest}
use appport_services.Jobs.Models.{Job, running, retrying, failed, failure}
use appport_services.Jobs.Store.{same_status}
use appport_services.Jobs.Service.{
  JobService, JobHandler, JobExecution, audit_job, principal_or, message_of, is_system_type,
  initial_retry_delay_ms,
}
use appport_services.Jobs.Service.Settle.{complete_job, record_execution_failure, deny}
use appport_services.Exec.{Exec, pure, lift, attempt, ◌>>=◌, ◌>>◌}

abbrev pub creating_capabilities : List String
creating_capabilities = "jobs.create" ∷ "schedules.create" ∷ []

-- A lease that has run out.
abbrev pub has_run_out : Option ℕ → ℕ → Bool
has_run_out none now = false
has_run_out (some t) now = leb t now

-- A running job whose lease has run out was abandoned.
unfoldable pub is_abandoned : ℕ → Job → Bool
is_abandoned now job = same_status job.status running && has_run_out job.lease_expires_at now

-- A job that another worker holds.
unfoldable pub is_held : ℕ → String → Job → Bool
unfolding is_abandoned
is_held now worker_id job =
    same_status job.status running
    && not (is_abandoned now job)
    && not (opt_eq job.lease_owner (some worker_id))

unfoldable pub run_id_of : Job → String
run_id_of job = String.◌++◌ job.id (String.◌++◌ ":" (decimal (job.attempt_count + 1)))

abbrev lease_error : ℕ → String
lease_error count =
    String.◌++◌ "lease expired before attempt "
      (String.◌++◌ (decimal count) " settled; it may have partly run")

abbrev run_options : String → ExecuteOptions
run_options run_id = record {
  service = "jobs";
  provider = none;
  credential_ref = none;
  request_id = some run_id;
}

abbrev job_resource : String → Job → ServiceResource
job_resource tenant_id job = record {
  kind = "job";
  tenant_id = tenant_id;
  id = some job.id;
  attributes = ("jobType", job.kind) ∷ [];
}

module _ {S : Type 0} (svc : JobService S) where
  abbrev refuse : Job → String → Exec S Bool
  refuse job reason = do deny svc job (String.◌++◌ "DENIED: " reason); pure false

  abbrev no_decision : ServiceFailureCode → String → String → Job → Exec S Bool
  no_decision code message tenant_id job = do
    now ← svc.now
    svc.job_store.update_job tenant_id job.id job.version (λ stored. record stored {
      status = retrying;
      next_attempt_at = some (svc.date_text (now + initial_retry_delay_ms));
      last_error = some (String.◌++◌ (code_name code) (String.◌++◌ ": " message));
    })
    pure false

  abbrev fail_attempt : Job → String → String → Exec S Bool
  fail_attempt job principal_id message = do
    record_execution_failure svc job principal_id message
    pure false

  -- The `catch` of `executeJob`: a denial settles the job, a missing decision puts it off without
  -- counting the attempt, any other error is a failed attempt.
  unfoldable pub settle_error : String → Job → String → Error → Exec S Bool
  unfolding code_name
  settle_error tenant_id job principal_id (authority_error denied message _) = refuse job message
  settle_error tenant_id job principal_id (authority_error unauthenticated message _) =
      refuse job message
  settle_error tenant_id job principal_id (authority_error authority_unavailable message _) =
      no_decision authority_unavailable message tenant_id job
  settle_error tenant_id job principal_id (authority_error authorization_timeout message _) =
      no_decision authorization_timeout message tenant_id job
  settle_error tenant_id job principal_id (authority_error _ message _) =
      fail_attempt job principal_id message
  settle_error tenant_id job principal_id (delivery_error message _) =
      fail_attempt job principal_id message
  settle_error tenant_id job principal_id conditional_conflict =
      fail_attempt job principal_id (message_of svc conditional_conflict)
  settle_error tenant_id job principal_id (other_error message) =
      fail_attempt job principal_id message

  -- `principal` was minted for this run; the handler is the effect.
  unfoldable pub run_as :
      ServiceGateway S → String → Job → JobHandler S → String → VerifiedPrincipal → Exec S Bool
  unfolding settle_error
  run_as g tenant_id job handler run_id principal =
      attempt
        (do
          execute g "jobs.execute" (verified principal) (job_resource tenant_id job)
              (run_options run_id)
              λ context. without_tools (
                handler job
                  (some (record { principal = principal; context = context; run_id = run_id })))
          complete_job svc job principal.principal_id (some run_id))
        (λ _. pure true) (settle_error tenant_id job principal.principal_id)

  unfoldable pub run_durable :
      ServiceGateway S → String → Job → JobHandler S → Option DurablePrincipal → Exec S Bool
  unfolding run_as
  run_durable g tenant_id job handler none =
      refuse job
        "anonymous job execution is not permitted; enqueue jobs through an authorized caller"
  run_durable g tenant_id job handler (some durable) =
      if not (durable.tenant_id == tenant_id)
      then refuse job
          "anonymous job execution is not permitted; enqueue jobs through an authorized caller"
      else attempt (attest g (some durable) creating_capabilities)
          (λ _. do
            principal ←
                lift (mint_verified_principal (durable_claims durable (run_id_of job)) by_job)
            run_as g tenant_id job handler (run_id_of job) principal)
          (λ e. refuse job (message_of svc e))

  unfoldable pub execute_legacy_handler : Job → JobHandler S → Exec S Bool
  execute_legacy_handler job handler =
      attempt (do handler job none; complete_job svc job (principal_or job.principal "system") none)
        (λ _. pure true)
        (λ e. fail_attempt job (principal_or job.principal "system") (message_of svc e))

  abbrev run_under : Option (ServiceGateway S) → String → Job → JobHandler S → Exec S Bool
  run_under none tenant_id job handler = execute_legacy_handler job handler
  run_under (some g) tenant_id job handler =
      if is_system_type job.kind
      then execute_legacy_handler job handler
      else run_durable g tenant_id job handler job.principal

  abbrev pub dispatch : String → Job → Option (JobHandler S) → Exec S Bool
  dispatch tenant_id job none = do
    svc.job_store.update_job tenant_id job.id job.version (λ stored. record stored {
      status = failed;
      last_error = some (String.◌++◌ "Handler not registered for type: " job.kind);
    })
    pure false
  dispatch tenant_id job (some handler) = run_under svc.authority tenant_id job handler

  abbrev run_claimed : String → Option Job → Exec S Bool
  run_claimed tenant_id none = pure false
  run_claimed tenant_id (some claimed) = dispatch tenant_id claimed (svc.handlers claimed.kind)

  unfoldable pub claim_and_run : String → Job → Exec S Bool
  unfolding run_durable execute_legacy_handler
  claim_and_run tenant_id job = do
    now ← svc.now
    claimed ← svc.job_store.claim tenant_id job.id job.version (now + svc.lease_duration_ms)
    run_claimed tenant_id claimed

  abbrev audit_abandoned : Job → ℕ → Option Job → Exec S Bool
  audit_abandoned job now none = pure false
  audit_abandoned job now (some _) = do
    audit_job svc "job.failed" job (principal_or job.principal "system") now failure (
        ("error", lease_error (job.attempt_count + 1))
        ∷ ("attemptCount", decimal (job.attempt_count + 1))
        ∷ [])
    pure false

  abbrev run_counted : String → Option Job → Exec S Bool
  run_counted tenant_id none = pure false
  run_counted tenant_id (some counted) = claim_and_run tenant_id counted

  abbrev give_up : String → Job → ℕ → Exec S Bool
  give_up tenant_id job now = do
    settled ← svc.job_store.update_job tenant_id job.id job.version (λ stored. record stored {
      status = failed;
      attempt_count = job.attempt_count + 1;
      last_error = some (lease_error (job.attempt_count + 1));
    })
    audit_abandoned job now settled

  abbrev count_and_run : String → Job → Exec S Bool
  count_and_run tenant_id job = do
    counted ← svc.job_store.update_job tenant_id job.id job.version (λ stored. record stored {
      attempt_count = job.attempt_count + 1;
      last_error = some (lease_error (job.attempt_count + 1));
    })
    run_counted tenant_id counted

  -- An abandoned attempt counts: the last one fails the job.
  unfoldable pub take_over : String → Job → ℕ → Exec S Bool
  unfolding claim_and_run
  take_over tenant_id job now =
      if leb job.max_attempts (job.attempt_count + 1)
      then give_up tenant_id job now
      else count_and_run tenant_id job

  unfoldable pub execute_found : String → String → Option Job → Exec S Bool
  unfolding take_over
  execute_found tenant_id worker_id none = pure false
  execute_found tenant_id worker_id (some job) = do
    now ← svc.now
    if is_held now worker_id job
        then pure false
        else if is_abandoned now job
        then take_over tenant_id job now
        else claim_and_run tenant_id job

  unfoldable pub execute_job : String → String → String → Exec S Bool
  unfolding execute_found
  execute_job tenant_id job_id worker_id = do
    job ← svc.job_store.get tenant_id job_id
    execute_found tenant_id worker_id job
