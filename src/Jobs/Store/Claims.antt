-- ===== src/Jobs/Store/Claims.antt =====
-- A claim is exclusive.
use appport_services.Common.{
  ℕ, ◌≤◌, ◌≡◌, refl, ◌≢◌, ◌∙◌, ap, sym, subst, String, Option, none, some, List, [], ◌∷◌, arith,
}
use appport_services.FeltDb.{Collection, HasVersions}
use appport_services.Jobs.Models.{Job}
use appport_services.Jobs.Store.{claim, claim_update, in_tenant}
use appport_services.Exec.{Exec, ok, >>=-eq-ok, bind-pure, pure, ◌>>=◌}

-- An update that any client makes of any job.
pub record Write : Type 0 where
  pub target : String
  pub at_version : ℕ
  pub change : Job → Job

-- Reading the clock gives a time and changes nothing.
abbrev pub IsClock : {S : Type 0} → Exec S ℕ → Type 0
IsClock {S} clock = (s : S) → (now : ℕ) × (clock s ≡ (ok now, s))

in_tenant-some :
    (tenant_id : String) (o : Option Job) (job : Job)
    → in_tenant tenant_id o ≡ some job
    → o ≡ some job
in_tenant-some tenant_id none job h = h
in_tenant-some tenant_id (some j) job h = ground arith

module _ {S : Type 0} (jobs : Collection S Job) where
  -- The world after the writes, one after the other.
  abbrev pub after_writes : List Write → S → S
  after_writes [] s = s
  after_writes (w ∷ ws) s =
      after_writes ws (jobs.update_if_version w.target w.at_version w.change s).1

  module _ (laws : HasVersions jobs (λ job. job.version)) where
    after_writes-version :
        (ws : List Write) (id : String) (job : Job) (s : S)
        → (jobs.get id s).0 ≡ ok (some job)
        → (job' : Job) × ((jobs.get id (after_writes ws s)).0 ≡ ok (some job'))
          × (job.version ≤ job'.version)
    after_writes-version [] id job s e = (job, e, omega arith)
    after_writes-version (w ∷ ws) id job s e =
        let (mid, found, le) = laws.monotone id w.target w.at_version w.change s job e in
        let (last, found', le') = after_writes-version ws id mid _ found in
        (last, found', omega (arith, le, le'))

    module _ (clock : Exec S ℕ) (reads : IsClock clock) where
      -- A claim is the conditional update with the time that was read.
      claim-update :
          (tenant_id id : String) (v lease now : ℕ) (s : S)
          → clock s ≡ (ok now, s)
          → claim jobs clock tenant_id id v lease s
            ≡ (jobs.update_if_version id v (claim_update lease now) >>= λ item.
                  pure (in_tenant tenant_id item))
                s
      unfolding claim
      claim-update tenant_id id v lease now s e = rw e refl

      claim-updated :
          (tenant_id id : String) (v lease : ℕ) (s : S) (job : Job)
          → (claim jobs clock tenant_id id v lease s).0 ≡ ok (some job)
          → (f : Job → Job) × ((jobs.update_if_version id v f s).0 ≡ ok (some job))
            × ((claim jobs clock tenant_id id v lease s).1 ≡ (jobs.update_if_version id v f s).1)
      claim-updated tenant_id id v lease s job h =
          let (now, e) = reads s in
          let run = claim-update tenant_id id v lease now s e in
          let update = jobs.update_if_version id v (claim_update lease now) in
          let (item, done, h₁) =
            >>=-eq-ok update (λ item. pure (in_tenant tenant_id item)) s
              (ap (λ r. r.0) (sym run) ∙ h) in
          let found : in_tenant tenant_id item ≡ some job = cc h₁ in
          (
            claim_update lease now,
            done ∙ ap ok (in_tenant-some tenant_id item job found),
            ap (λ r. r.1) run ∙ bind-pure update (in_tenant tenant_id) s,
          )

      -- Where the collection counts versions and the clock only reads: once a claim of a job at a
      -- version has succeeded, no claim of it at that version ever succeeds again, whatever
      -- updates of any jobs came in between, and whoever claims it.
      pub claim_is_exclusive :
          (tenant_id other id : String) (v lease lease' : ℕ) (ws : List Write) (s : S)
          (job job' : Job)
          → (claim jobs clock tenant_id id v lease s).0 ≡ ok (some job)
          → (claim jobs clock other id v lease'
              (after_writes ws (claim jobs clock tenant_id id v lease s).1)).0
            ≢ ok (some job')
      claim_is_exclusive tenant_id other id v lease lease' ws s job job' h h' =
          let (f, done, left) = claim-updated tenant_id id v lease s job h in
          let (next, stored) = laws.updated id v f s job done in
          let (last, found, le) = after_writes-version ws id job _ stored in
          let (f', again, _) = claim-updated other id v lease' _ job' h' in
          laws.stale id v f' _ last
            (subst (λ t. (jobs.get id (after_writes ws t)).0 ≡ ok (some last)) (sym left) found)
            (λ e. absurd (omega (arith, next, le, e))) job' again
