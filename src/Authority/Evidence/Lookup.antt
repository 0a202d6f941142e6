-- ===== src/Authority/Evidence/Lookup.antt =====
-- What a lookup of the effects of a run returns, whatever rows the store gives it.
use appport_services.Common.{
  ℕ, zero, suc, ◌+◌, ◌≤◌, ◌≡◌, refl, sym, ◌∙◌, ap, subst, present, not, ◌==◌, String, Bool, true,
  false, ◌&&◌, Option, none, some, List, [], ◌∷◌, map, length, take, keep, every, any, leb,
  length-take-le, or_default, arith, Bool-cases, inl, inr,
}
use appport_services.Common.Sorting.{sort_by, sort_by-every, sort_by-length}
use appport_services.Authority.Errors.{Error, other_error}
use appport_services.Authority.Evidence.{
  EffectEvidence, EffectOutcome, EffectEvidenceStore, completed, EffectEvidenceRecord, aggregate,
  aggregate_state, EffectEvidenceLookup, EffectEvidenceLookupOptions, default_evidence_lookup_limit,
  max_evidence_lookup_limit, with_state, evidence_state, row_matches, lookup_of, look_up, RunFilter,
  find_by_run_id, started_le, is_unsuccessful, is_in_progress,
}
use appport_services.Exec.{Exec, ok, lift, pure, require, >>=-eq-ok, ◌>>◌}

abbrev pub is_succeeded : EffectOutcome → Bool
is_succeeded EffectOutcome.succeeded = true
is_succeeded EffectOutcome.started = false
is_succeeded EffectOutcome.failed = false
is_succeeded EffectOutcome.provider_error = false
is_succeeded EffectOutcome.denied = false

every-keep {ℓ} : {A : Type ℓ} (p : A → Bool) (xs : List A) → every p (keep p xs) ≡ true
every-keep p [] = refl
every-keep p (x ∷ xs) = elim (Bool-cases (p x)) [
  | inl h ↦ rw (h, h) (every-keep p xs)
  | inr h ↦ rw h (every-keep p xs)
]

every-take {ℓ} :
    {A : Type ℓ} (p : A → Bool) (n : ℕ) (xs : List A)
    → every p xs ≡ true
    → every p (take n xs) ≡ true
every-take p zero xs h = refl
every-take p (suc n) [] h = refl
every-take p (suc n) (x ∷ xs) h = ground (arith, every-take p n xs)

length-take_full {ℓ} : {A : Type ℓ} (n : ℕ) (xs : List A) → n ≤ length xs → length (take n xs) ≡ n
length-take_full zero xs h = refl
length-take_full (suc n) [] h = absurd (omega (arith, h))
length-take_full (suc n) (x ∷ xs) h = ap suc (length-take_full n xs (omega (arith, h)))

length-map {ℓ} : {A B : Type ℓ} (f : A → B) (xs : List A) → length (map f xs) ≡ length xs
length-map f [] = refl
length-map f (x ∷ xs) = ap suc (length-map f xs)

every-with_state :
    (p : EffectEvidence → Bool) (xs : List EffectEvidence)
    → every (λ r. p r.row) (map with_state xs) ≡ every p xs
unfolding with_state
every-with_state p [] = refl
every-with_state p (x ∷ xs) = ap (λ b. p x && b) (every-with_state p xs)

succeeded_outcome :
    (o : EffectOutcome)
    → is_unsuccessful (evidence_state o) ≡ false
    → is_in_progress (evidence_state o) ≡ false
    → is_succeeded o ≡ true
unfolding evidence_state
succeeded_outcome EffectOutcome.succeeded h k = refl
succeeded_outcome EffectOutcome.started h k = cc k
succeeded_outcome EffectOutcome.failed h k = cc h
succeeded_outcome EffectOutcome.provider_error h k = cc h
succeeded_outcome EffectOutcome.denied h k = cc h

-- Records whose states are those of their outcomes, none of them failed or open.
all_succeeded :
    (xs : List EffectEvidence)
    → any (λ r. is_unsuccessful r.state) (map with_state xs) ≡ false
    → any (λ r. is_in_progress r.state) (map with_state xs) ≡ false
    → every (λ e. is_succeeded e.outcome) xs ≡ true
unfolding with_state evidence_state
all_succeeded [] h k = refl
all_succeeded (x ∷ xs) h k = ground (
  arith,
  succeeded_outcome x.outcome (ground arith) (ground arith),
  all_succeeded xs (ground arith) (ground arith),
)

any_of_every {ℓ} :
    {A : Type ℓ} (p : A → Bool) (xs : List A) → any p xs ≡ not (every (λ x. not (p x)) xs)
any_of_every p [] = refl
any_of_every p (x ∷ xs) = ground (arith, any_of_every p xs)

-- Sorting does not change whether some element satisfies a test.
any-sort_by {ℓ} :
    {A : Type ℓ} (le : A → A → Bool) (p : A → Bool) (xs : List A) → any p (sort_by le xs) ≡ any p xs
any-sort_by le p xs =
    any_of_every p (sort_by le xs)
    ∙ ap not (sort_by-every le (λ x. not (p x)) xs)
    ∙ sym (any_of_every p xs)

completed-any :
    (rs : List EffectEvidenceRecord)
    → aggregate_state rs ≡ aggregate completed
    → (any (λ r. is_unsuccessful r.state) rs ≡ false)
      × (any (λ r. is_in_progress r.state) rs ≡ false)
unfolding aggregate_state
completed-any [] h = cc
completed-any (r ∷ rs) h = (ground arith, ground arith)

-- What a lookup with this limit says: no row of another run, application or tenant; no more rows
-- than the limit, and as many if it was cut; and completed only if every row records a success.
pub record IsScoped (run application : String) (tenant : Option String) (limit : ℕ)
    (found : EffectEvidenceLookup) : Type 0 where
  pub of_run : every (λ r. row_matches run application tenant r.row) found.records ≡ true
  pub few : length found.records ≤ limit
  pub full : found.truncated ≡ true → length found.records ≡ limit
  pub all_done :
      found.state ≡ aggregate completed
      → every (λ r. is_succeeded r.row.outcome) found.records ≡ true

require-true : (b : Bool) (e : Error) → require b e ≡ ok tt → b ≡ true
require-true true e h = refl
require-true false e h = cc h

module _ (locale_le : String → String → Bool) where
  lookup_of-IsScoped :
      (run application : String) (tenant : Option String) (limit : ℕ) (rows : List EffectEvidence)
      → every (row_matches run application tenant) rows ≡ true
      → IsScoped run application tenant limit (lookup_of locale_le run limit rows)
  unfolding lookup_of
  lookup_of-IsScoped run application tenant limit rows h =
      let taken = take limit rows in
      let le = started_le locale_le in
      let same_length : length (sort_by le (map with_state taken)) ≡ length taken =
        sort_by-length le (map with_state taken) ∙ length-map with_state taken in
      record {
        of_run =
            sort_by-every le (λ r. row_matches run application tenant r.row) (map with_state taken)
            ∙ every-with_state (row_matches run application tenant) taken
            ∙ every-take (row_matches run application tenant) limit rows h;
        few = omega (arith, same_length, length-take-le limit rows);
        full = λ cut. same_length ∙ length-take_full limit rows (ground (arith, cut));
        all_done = λ done.
            let (no_failure, none_open) = completed-any (sort_by le (map with_state taken)) done in
            sort_by-every le (λ r. is_succeeded r.row.outcome) (map with_state taken)
            ∙ every-with_state (λ e. is_succeeded e.outcome) taken
            ∙ all_succeeded taken
                (sym (any-sort_by le (λ r. is_unsuccessful r.state) (map with_state taken))
                  ∙ no_failure)
                (sym (any-sort_by le (λ r. is_in_progress r.state) (map with_state taken))
                  ∙ none_open);
      }

  module _ {S : Type 0} where
    look_up-IsScoped :
        (o : Option (String → RunFilter → Exec S (List EffectEvidence))) (application run : String)
        (tenant : Option String) (limit : ℕ) (s : S) (found : EffectEvidenceLookup)
        → (look_up locale_le o application run tenant limit s).0 ≡ ok found
        → IsScoped run application tenant limit found
    look_up-IsScoped none application run tenant limit s found h = absurd (cc h)
    look_up-IsScoped (some find) application run tenant limit s found h =
        let filter : RunFilter = record {
          limit = limit + 1;
          application = application;
          tenant_id = present tenant;
        } in
        let kept = λ (rows : List EffectEvidence). keep (row_matches run application tenant) rows in
        let (rows, _, h₁) =
          >>=-eq-ok (find run filter) (λ rows. pure (lookup_of locale_le run limit (kept rows))) s
            h in
        let same : lookup_of locale_le run limit (kept rows) ≡ found = cc h₁ in
        subst (IsScoped run application tenant limit) same (
          lookup_of-IsScoped run application tenant limit (kept rows)
            (every-keep (row_matches run application tenant) rows))

    -- A lookup by run id that returns, whatever rows the store gave it, was asked for a limit from
    -- 1 to 1000, by default 100; it holds only rows of this run, this application and, where one is
    -- given, this tenant, no more than the limit and exactly as many if it says that it was cut;
    -- and it says completed only if every row that it holds records a success.
    pub find_by_run_id-IsScoped :
        (store : EffectEvidenceStore S) (application run : String)
        (options : EffectEvidenceLookupOptions) (s : S) (found : EffectEvidenceLookup)
        → (find_by_run_id locale_le store application run options s).0 ≡ ok found
        → (1 ≤ or_default options.limit default_evidence_lookup_limit)
          × (or_default options.limit default_evidence_lookup_limit ≤ max_evidence_lookup_limit)
          × IsScoped run application options.tenant_id
              (or_default options.limit default_evidence_lookup_limit)
              found
    unfolding find_by_run_id
    find_by_run_id-IsScoped store application run options s found h =
        let limit = or_default options.limit default_evidence_lookup_limit in
        let search =
          look_up locale_le store.find_by_run_id application run options.tenant_id limit in
        let bounds = leb 1 limit && leb limit max_evidence_lookup_limit in
        let bounded : Exec S (Unit {0}) =
          lift (require bounds (other_error "limit must be an integer from 1 to 1000")) in
        let named : Exec S (Unit {0}) =
          lift (require (not (run == "")) (other_error "findByRunId requires a non-empty runId")) in
        let (_, _, h₁) = >>=-eq-ok named (λ _. bounded >> search) s h in
        let (_, in_bounds, h₂) = >>=-eq-ok bounded (λ _. search) s h₁ in
        let fits : bounds ≡ true = require-true bounds _ in_bounds in
        (
          ground (arith, fits),
          ground (arith, fits),
          look_up-IsScoped store.find_by_run_id application run options.tenant_id limit s found h₂,
        )
