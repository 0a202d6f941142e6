-- ===== src/Jobs/Service/Run/Checks.antt =====
-- Jobs in a small world: tests, and instances of the theorems on jobs.
use appport_services.Jobs.Service.{is_system_type}
use appport_services.Common.{
  strip_prefix, ℕ, ◌+◌, ◌≤◌, ◌≡◌, refl, sym, ◌∙◌, ap, subst, ◌≢◌, inl, inr, String, true, false,
  ◌&&◌, ◌==◌, none, some, List, [], ◌∷◌, arith, eqb, if◌then◌else◌, Bool-cases,
}
use appport_services.Common.Json.{null}
use appport_services.FeltDb.{Collection, HasVersions}
use appport_services.Authority.Errors.{other_error}
use appport_services.Authority.Gateway.Checks.{open_gateway, durable_ann}
use appport_services.Authority.Gateway.Checks.{granted, new_job}
use appport_services.Authority.Context.{ServiceExecutionContext}
use appport_services.Authority.Evidence.{EffectEvidence}
use appport_services.Jobs.Models.{Job, JobSchedule, pending, running, completed, JobStore}
use appport_services.Jobs.Store.{claim, felt_db_job_store, felt_db_job_schedule_store}
use appport_services.Jobs.Store.Claims.{after_writes, IsClock, claim_is_exclusive}
use appport_services.Jobs.Service.{JobService, JobHandler, audit_job}
use appport_services.Jobs.Service.Settle.{complete_job}
use appport_services.Jobs.Service.Run.{execute_job, is_held, dispatch}
use appport_services.Jobs.Service.Run.Authority.{MayRun, job_runs_only_as_authorized}
use mathlib.Core.List.{Memᴰ}
use mathlib.Core.List.Memᴰ
use appport_services.Exec.{Exec, ok, pure, throw}

-- The world holds one job, under the id "j1".
abbrev World : Type 0
World = Job

abbrev versioned : Job → ℕ → Job
versioned job v = record job { version = v }

abbrev one_job : Collection World Job
one_job = record {
  get = λ id s. (ok (if id == "j1" then some s else none), s);
  find = λ p s. (ok (if p s then s ∷ [] else []), s);
  update_if_version = λ id v f s.
      if (id == "j1") && eqb s.version v
      then (ok (some (versioned (f s) (v + 1))), versioned (f s) (v + 1))
      else (ok none, s);
  insert_absent = λ id job s. (ok tt, s);
}

get_one :
    (id : String) (s item : Job)
    → (one_job.get id s).0 ≡ ok (some item)
    → ((id == "j1") ≡ true) × (s ≡ item)
get_one id s item h = (ground arith, ground arith)

one_job_updated :
    (id : String) (v : ℕ) (f : Job → Job) (s item : Job)
    → (one_job.update_if_version id v f s).0 ≡ ok (some item)
    → (item.version ≡ v + 1)
      × ((one_job.get id (one_job.update_if_version id v f s).1).0 ≡ ok (some item))
one_job_updated id v f s item h = elim (Bool-cases ((id == "j1") && eqb s.version v)) [
  | inl fits ↦
      let same : versioned (f s) (v + 1) ≡ item = ground (arith, fits) in
      (
        ap (λ x. x.version) (sym same),
        rw (fits)
            (rw (← same) (let named : (id == "j1") ≡ true = ground (arith, fits) in rw named refl)),
      )
  | inr other ↦ absurd (ground (arith, other))
]

one_job_stale :
    (id : String) (v : ℕ) (f : Job → Job) (s item : Job)
    → (one_job.get id s).0 ≡ ok (some item)
    → item.version ≢ v
    → (i : Job) → (one_job.update_if_version id v f s).0 ≢ ok (some i)
one_job_stale id v f s item h other i h' =
    let (named, same) = get_one id s item h in
    let moved : eqb s.version v ≡ false =
      ground (arith, λ (e : s.version ≡ v). other (sym (ap (λ x. x.version) same) ∙ e)) in
    absurd (ground (arith, named, moved))

one_job_monotone :
    (id j : String) (v : ℕ) (f : Job → Job) (s item : Job)
    → (one_job.get id s).0 ≡ ok (some item)
    → (item' : Job) × ((one_job.get id (one_job.update_if_version j v f s).1).0 ≡ ok (some item'))
      × (item.version ≤ item'.version)
one_job_monotone id j v f s item h =
    let (named, same) = get_one id s item h in
    elim (Bool-cases ((j == "j1") && eqb s.version v)) [
      | inl fits ↦ (
        versioned (f s) (v + 1),
        rw (fits, named) refl,
        ground (arith, fits, ap (λ x. x.version) same),
      )
      | inr other ↦ (item, rw (other, named) (ap (λ x. ok (some x)) same), omega arith)
    ]

one_job-HasVersions : HasVersions one_job (λ job. job.version)
one_job-HasVersions = record {
  updated = one_job_updated;
  stale = one_job_stale;
  monotone = one_job_monotone;
}

abbrev a_job : Job
a_job = record {
  id = "j1";
  tenant_id = "t";
  application_id = some "app";
  kind = "mail";
  payload = null;
  status = pending;
  run_at = "5";
  attempt_count = 0;
  max_attempts = 3;
  created_at = 5;
  started_at = none;
  completed_at = none;
  next_attempt_at = none;
  lease_owner = none;
  lease_expires_at = none;
  last_error = none;
  principal = none;
  version = 1;
}

abbrev steady : Exec World ℕ
steady = pure 10

steady-IsClock : IsClock steady
steady-IsClock s = (10, refl)

abbrev taken : Job
taken = record a_job {
  status = running;
  lease_expires_at = some 40;
  started_at = some 10;
  version = 2;
}

took : (claim one_job steady "t" "j1" 1 40 a_job).0 ≡ ok (some taken)
unfolding claim
took = refl

claim_is_exclusive_example :
    (claim one_job steady "t" "j1" 1 50
      (after_writes one_job [] (claim one_job steady "t" "j1" 1 40 a_job).1)).0
    ≢ ok (some taken)
claim_is_exclusive_example =
    claim_is_exclusive one_job one_job-HasVersions steady steady-IsClock "t" "t" "j1" 1 40 50 []
      a_job taken taken took

-- Schedules are not used here.
abbrev no_schedules : Collection World JobSchedule
no_schedules = record {
  get = λ id s. (ok none, s);
  find = λ p s. (ok [], s);
  update_if_version = λ id v f s. (ok none, s);
  insert_absent = λ id item s. (ok tt, s);
}

-- A handler that always succeeds.
abbrev does_well : JobHandler World
does_well job execution = pure tt

abbrev job_service : JobService World
job_service = record {
  job_store = felt_db_job_store one_job steady (λ t. "");
  schedule_store = felt_db_job_schedule_store no_schedules;
  write_audit = λ event. pure tt;
  now = steady;
  random_uuid = pure "u";
  max_retry_attempts = 5;
  lease_duration_ms = 30;
  handlers = λ kind. some does_well;
  allowed_types = none;
  authority = none;
  conflict_message = "conflict";
  date_text = λ t. "";
}

-- The service does not ask whether a job is due: a job that has been completed is run again.
completed_job_runs_again :
    (execute_job job_service "t" "j1" "w"
      (record a_job { status = completed; completed_at = some 8 })).0
    ≡ ok true
unfolding execute_job felt_db_job_store is_held complete_job audit_job
completed_job_runs_again = refl

-- The world of the gateway, where jobs are kept elsewhere.
abbrev no_jobs : JobStore (List EffectEvidence)
no_jobs = record {
  create = λ job. pure tt;
  get = λ tenant_id id. pure none;
  list = λ tenant_id. pure [];
  list_by_status = λ tenant_id status. pure [];
  list_due = λ tenant_id now. pure [];
  claim = λ tenant_id id v lease. pure none;
  update_job = λ tenant_id id v updates. pure none;
}

abbrev authority_service : JobService (List EffectEvidence)
authority_service = record {
  job_store = no_jobs;
  schedule_store = record {
    create = λ schedule. pure tt;
    get = λ tenant_id id. pure none;
    list = λ tenant_id. pure [];
    list_due = λ tenant_id now. pure [];
    update_schedule = λ tenant_id id v updates. pure none;
    disable = λ tenant_id id v. pure none;
  };
  write_audit = λ event. pure tt;
  now = pure 10;
  random_uuid = pure "u";
  max_retry_attempts = 5;
  lease_duration_ms = 30;
  handlers = λ kind. none;
  allowed_types = none;
  authority = some open_gateway;
  conflict_message = "conflict";
  date_text = λ t. "";
}

-- A job with a principal that no evidence vouches for.
abbrev forged : Job
forged = record a_job { principal = some durable_ann }

forged_may_not_run : ¬ MayRun open_gateway "t" forged []
forged_may_not_run may =
    let nothing : [] ≡ may.vouched.rows = cc may.vouched.read in
    Memᴰ.not-nil (subst (λ rows. Memᴰ may.vouched.row rows) (sym nothing) may.vouched.listed)

mail_is_applications : is_system_type forged.kind ≡ false
unfolding is_system_type strip_prefix
mail_is_applications = refl

job_runs_only_as_authorized_example :
    dispatch authority_service "t" forged (some λ job execution. pure tt) []
    ≡ dispatch authority_service "t" forged (some λ job execution. throw (other_error "down")) []
job_runs_only_as_authorized_example =
    job_runs_only_as_authorized authority_service open_gateway "t" forged (λ job execution. pure tt)
      (λ job execution. throw (other_error "down")) [] refl mail_is_applications forged_may_not_run

-- The context of a creation of a job of one kind.
abbrev creating_mail : ServiceExecutionContext
creating_mail = record granted {
  resource = record new_job { attributes = ("jobType", "mail") ∷ [] };
}
