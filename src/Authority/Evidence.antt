-- ===== src/Authority/Evidence.antt =====
-- authority/evidence.ts: durable evidence of effects, the store that keeps it, and its lookup by
-- run id.
pub mod Lookup
use appport_services.Common.{
  ℕ, ◌+◌, String, Bool, true, false, not, ◌&&◌, ◌||◌, ◌==◌, opt_eq, Option, none, some, List, [],
  ◌∷◌, map, length, take, keep, any, leb, ltb, eqb, truthy, present, or_default, if◌then◌else◌,
}
use appport_services.Common.Sorting.{sort_by}
use appport_services.Authority.Errors.{other_error}
use appport_services.Exec.{Exec, pure, throw, lift, require, ◌>>=◌, ◌>>◌}

pub data EffectOutcome : Type 0 where
  started succeeded failed provider_error denied : EffectOutcome

pub data EvidenceDecision : Type 0 where
  allow deny undecided : EvidenceDecision

pub record EffectEvidence : Type 0 where
  pub id : String
  pub application : String
  pub tenant_id : String
  pub principal_id : String
  pub principal_type : String
  pub delegation_id : Option String
  pub run_id : Option String
  pub capability : String
  pub capability_version : ℕ
  pub resource : String
  pub decision : EvidenceDecision
  pub decision_id : Option String
  pub credential_ref : Option String
  pub credential_version : Option ℕ
  pub service : String
  pub provider : Option String
  pub request_id : String
  pub started_at : ℕ
  pub completed_at : Option ℕ
  pub outcome : EffectOutcome
  pub failure_code : Option String

pub record EvidenceUpdate : Type 0 where
  pub outcome : EffectOutcome
  pub completed_at : ℕ
  pub failure_code : Option String
  pub credential_ref : Option String
  pub credential_version : Option ℕ

pub record RunFilter : Type 0 where
  pub limit : ℕ
  pub application : String
  pub tenant_id : Option String

-- `find_by_run_id` is optional in the source.
pub record EffectEvidenceStore (S : Type 0) : Type 0 where
  pub write : EffectEvidence → Exec S (Unit {0})
  pub complete : String → EvidenceUpdate → Exec S (Unit {0})
  pub find_by_decision : String → Exec S (List EffectEvidence)
  pub find_by_run_id : Option (String → RunFilter → Exec S (List EffectEvidence))

pub data EffectEvidenceState : Type 0 where
  in_progress completed unsuccessful : EffectEvidenceState

unfoldable pub evidence_state : EffectOutcome → EffectEvidenceState
evidence_state started = in_progress
evidence_state succeeded = completed
evidence_state failed = unsuccessful
evidence_state provider_error = unsuccessful
evidence_state denied = unsuccessful

pub record EffectEvidenceRecord : Type 0 where
  pub row : EffectEvidence
  pub open row use *
  pub state : EffectEvidenceState

pub data LookupState : Type 0 where
  nothing_recorded : LookupState
  aggregate : EffectEvidenceState → LookupState

abbrev is_unsuccessful : EffectEvidenceState → Bool
is_unsuccessful unsuccessful = true
is_unsuccessful in_progress = false
is_unsuccessful completed = false

abbrev is_in_progress : EffectEvidenceState → Bool
is_in_progress in_progress = true
is_in_progress unsuccessful = false
is_in_progress completed = false

unfoldable pub aggregate_state : List EffectEvidenceRecord → LookupState
aggregate_state [] = nothing_recorded
aggregate_state (r ∷ rs) =
    if any (λ x. is_unsuccessful x.state) (r ∷ rs)
    then aggregate unsuccessful
    else if any (λ x. is_in_progress x.state) (r ∷ rs)
    then aggregate in_progress
    else aggregate completed

pub record EffectEvidenceLookup : Type 0 where
  pub run_id : String
  pub state : LookupState
  pub records : List EffectEvidenceRecord
  pub truncated : Bool

pub record EffectEvidenceLookupOptions : Type 0 where
  pub limit : Option ℕ
  pub tenant_id : Option String

abbrev pub default_evidence_lookup_limit : ℕ
default_evidence_lookup_limit = 100

abbrev pub max_evidence_lookup_limit : ℕ
max_evidence_lookup_limit = 1000

unfoldable pub with_state : EffectEvidence → EffectEvidenceRecord
unfolding evidence_state
with_state e = record { row = e; state = evidence_state e.outcome }

-- The rows that the reader keeps of what the store returned.
unfoldable pub row_matches : String → String → Option String → EffectEvidence → Bool
row_matches run application tenant e =
    opt_eq e.run_id (some run)
    && (e.application == application)
    && (not (truthy tenant) || (e.tenant_id == or_default tenant ""))

-- `a.startedAt.localeCompare(b.startedAt) || a.id.localeCompare(b.id)`, not after. The order of
-- localeCompare on ids is `locale_le`.
abbrev pub started_le :
    (String → String → Bool) → EffectEvidenceRecord → EffectEvidenceRecord → Bool
started_le locale_le a b =
    ltb a.started_at b.started_at || (eqb a.started_at b.started_at && locale_le a.id b.id)

unfoldable pub lookup_of :
    (String → String → Bool) → String → ℕ → List EffectEvidence → EffectEvidenceLookup
lookup_of locale_le run limit matching =
    let records = sort_by (started_le locale_le) (map with_state (take limit matching)) in
    record {
      run_id = run;
      state = aggregate_state records;
      records = records;
      truncated = ltb limit (length matching);
    }

module _ {S : Type 0} (locale_le : String → String → Bool) where
  abbrev pub look_up :
      Option (String → RunFilter → Exec S (List EffectEvidence))
      → String
      → String
      → Option String
      → ℕ
      → Exec S EffectEvidenceLookup
  look_up none application run tenant limit =
      throw (other_error "This evidence store does not support findByRunId")
  look_up (some find) application run tenant limit = do
    rows ←
        find run
          (record { limit = limit + 1; application = application; tenant_id = present tenant })
    pure (lookup_of locale_le run limit (keep (row_matches run application tenant) rows))

  abbrev pub look_up_within :
      EffectEvidenceStore S → String → String → Option String → ℕ → Exec S EffectEvidenceLookup
  look_up_within store application run tenant limit = do
    lift (require (not (run == "")) (other_error "findByRunId requires a non-empty runId"))
    lift (
        require (leb 1 limit && leb limit max_evidence_lookup_limit)
          (other_error "limit must be an integer from 1 to 1000"))
    look_up store.find_by_run_id application run tenant limit

  -- `createEvidenceReader(store, application).findByRunId(runId, options)`.
  unfoldable pub find_by_run_id :
      EffectEvidenceStore S
      → String
      → String
      → EffectEvidenceLookupOptions
      → Exec S EffectEvidenceLookup
  find_by_run_id store application run options =
      look_up_within store application run options.tenant_id
        (or_default options.limit default_evidence_lookup_limit)
