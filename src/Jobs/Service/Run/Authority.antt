-- ===== src/Jobs/Service/Run/Authority.antt =====
-- A stored job runs only under its own, attested and authorized principal.
use appport_services.Common.{
  false, ap, sym, ◌∙◌, ◌≡◌, refl, String, Bool, true, ◌==◌, eq_iff, Option, none, some, Bool-cases,
  inl, inr, ap, subst,
}
use appport_services.Authority.Errors.{Error}
use appport_services.Authority.Principal.{
  DurablePrincipal, VerifiedPrincipal, verified, by_job, mint_verified_principal, durable_claims,
}
use appport_services.Authority.Context.{ServiceExecutionContext}
use appport_services.Authority.Gateway.{ServiceGateway, EffectLocals, without_tools}
use appport_services.Authority.Gateway.Attest.{attest}
use appport_services.Authority.Gateway.Enforcement.{IsAuthorized, execute-needs-IsAuthorized}
use appport_services.Authority.Gateway.Attestation.{HasVoucher, attest-HasVoucher}
use appport_services.Jobs.Models.{Job}
use appport_services.Jobs.Service.{JobService, JobHandler, message_of}
use appport_services.Jobs.Service.Run.{
  dispatch, run_under, is_system_type, run_durable, run_as, run_id_of, job_resource, run_options,
  settle_error, refuse, creating_capabilities,
}
use appport_services.Jobs.Service.Settle.{complete_job}
use appport_services.Exec.{Exec, ok, attempt-cong, lift-cong, continue, settle, lift, ◌>>=◌, pure}

-- What the service has established of a job before its handler runs.
pub record MayRun {S : Type 0} (g : ServiceGateway S) (tenant_id : String) (job : Job) (s : S)
    : Type 0 where
  pub durable : DurablePrincipal
  pub of_job : job.principal ≡ some durable
  pub of_tenant : durable.tenant_id ≡ tenant_id
  pub vouched : HasVoucher g durable creating_capabilities s
  pub principal : VerifiedPrincipal
  pub minted :
      mint_verified_principal (durable_claims durable (run_id_of job)) by_job ≡ ok principal
  pub request_id : String
  pub context : ServiceExecutionContext
  pub authorized :
      IsAuthorized g "jobs.execute" principal (job_resource tenant_id job) request_id context

module _ {S : Type 0} (svc : JobService S) (g : ServiceGateway S) (tenant_id : String) (job : Job)
    (handler handler' : JobHandler S) where
  run_as-cong :
      (run_id : String) (principal : VerifiedPrincipal) (s : S)
      → ((request_id : String) (context : ServiceExecutionContext)
          → ¬ IsAuthorized g "jobs.execute" principal
              (job_resource tenant_id job)
              request_id
              context)
      → run_as svc g tenant_id job handler run_id principal s
        ≡ run_as svc g tenant_id job handler' run_id principal s
  unfolding run_as
  run_as-cong run_id principal s never =
      ap (λ r. settle (continue r.0 after r.1).0 (λ _. pure true) rescue (continue r.0 after r.1).1)
        (execute-needs-IsAuthorized g "jobs.execute" (verified principal)
          (job_resource tenant_id job) (run_options run_id) (effect handler) (effect handler') s
          λ p request_id context e authorized. never request_id context (
            subst
              (λ q. IsAuthorized g "jobs.execute" q (job_resource tenant_id job) request_id context)
              (verified-eq e) authorized))
    where
      after : Unit {0} → Exec S (Unit {0})
      after _ = complete_job svc job principal.principal_id (some run_id)

      rescue : Error → Exec S Bool
      rescue = settle_error svc tenant_id job principal.principal_id

      effect : JobHandler S → ServiceExecutionContext → Exec (S × EffectLocals) (Unit {0})
      effect h context =
          without_tools
            (h job (some (record { principal = principal; context = context; run_id = run_id })))

      verified-eq : {p : VerifiedPrincipal} → verified principal ≡ verified p → p ≡ principal
      verified-eq e = cc e

  run_vouched-cong :
      (durable : DurablePrincipal) (s t : S)
      → job.principal ≡ some durable
      → durable.tenant_id ≡ tenant_id
      → HasVoucher g durable creating_capabilities s
      → ¬ MayRun g tenant_id job s
      → (lift (mint_verified_principal (durable_claims durable (run_id_of job)) by_job)
            >>= run_as svc g tenant_id job handler (run_id_of job))
          t
        ≡ (lift (mint_verified_principal (durable_claims durable (run_id_of job)) by_job)
              >>= run_as svc g tenant_id job handler' (run_id_of job))
            t
  run_vouched-cong durable s t of_job of_tenant vouched never =
      lift-cong (mint_verified_principal (durable_claims durable (run_id_of job)) by_job)
        (run_as svc g tenant_id job handler (run_id_of job))
        (run_as svc g tenant_id job handler' (run_id_of job)) t
        λ principal minted. run_as-cong (run_id_of job) principal t λ request_id context authorized.
          never (record {
            durable = durable;
            of_job = of_job;
            of_tenant = of_tenant;
            vouched = vouched;
            principal = principal;
            minted = minted;
            request_id = request_id;
            context = context;
            authorized = authorized;
          })

  run_durable-cong :
      (o : Option DurablePrincipal) (s : S)
      → job.principal ≡ o
      → ¬ MayRun g tenant_id job s
      → run_durable svc g tenant_id job handler o s ≡ run_durable svc g tenant_id job handler' o s
  unfolding run_durable
  run_durable-cong none s of_job never = refl
  run_durable-cong (some durable) s of_job never =
      elim (Bool-cases (durable.tenant_id == tenant_id)) [
        | inl same ↦ rw same (
            attempt-cong (attest g (some durable) creating_capabilities)
              (λ _.
                lift (mint_verified_principal (durable_claims durable (run_id_of job)) by_job)
                >>= run_as svc g tenant_id job handler (run_id_of job))
              (λ _.
                lift (mint_verified_principal (durable_claims durable (run_id_of job)) by_job)
                >>= run_as svc g tenant_id job handler' (run_id_of job))
              (λ e. refuse svc job (message_of svc e)) s
              λ _ attested.
                run_vouched-cong durable s _ of_job ((eq_iff durable.tenant_id tenant_id).0 same)
                  (attest-HasVoucher g durable creating_capabilities s attested) never)
        | inr other ↦ rw other refl
      ]

  -- In authority mode a claimed application job is not run, whatever its handler is, unless all of
  -- this holds: the job carries a durable principal of the tenant; the evidence of the decision
  -- that it is bound to, as the store holds it then, attests it as the creator of a job or a
  -- schedule; and the gateway establishes an authorization of `jobs.execute` on this job for the
  -- principal minted from it for this run.
  pub job_runs_only_as_authorized :
      (s : S)
      → svc.authority ≡ some g
      → is_system_type job.kind ≡ false
      → ¬ MayRun g tenant_id job s
      → dispatch svc tenant_id job (some handler) s ≡ dispatch svc tenant_id job (some handler') s
  job_runs_only_as_authorized s authority application never =
      under handler ∙ run_durable-cong job.principal s refl never ∙ sym (under handler')
    where
      under :
          (h : JobHandler S)
          → dispatch svc tenant_id job (some h) s
            ≡ run_durable svc g tenant_id job h job.principal s
      under h = ap (λ o. run_under svc o tenant_id job h s) authority ∙ rw application refl
