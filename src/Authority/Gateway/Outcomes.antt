-- ===== src/Authority/Gateway/Outcomes.antt =====
-- Evidence around an effect: written before it, completed after it.
use appport_services.Common.{ℕ, String, ◌≡◌, ap, subst, inl, inr, Option, none, some, arith}
use appport_services.Authority.Errors.{Error}
use appport_services.Authority.Context.{ServiceExecutionContext, assert_execution_context}
use appport_services.Authority.Evidence.{EffectOutcome, EvidenceUpdate}
use appport_services.Authority.Gateway.{ServiceGateway, ExecuteOptions, EffectLocals, no_locals}
use appport_services.Authority.Gateway.Execution.{
  started_evidence, ref_update, succeed, fail_effect, conclude, perform, run,
}
use appport_services.Exec.{Exec, Result, ok, err, >>=-eq-ok, catch-eq-ok, lift, ◌>>=◌}

-- The update that records a success.
abbrev pub success_update : ExecuteOptions → EffectLocals → ℕ → EvidenceUpdate
success_update options locals completed_at = record {
  outcome = EffectOutcome.succeeded;
  completed_at = completed_at;
  failure_code = none;
  credential_ref = ref_update options locals.resolved_refs;
  credential_version = locals.stored_version;
}

pub assert_execution_context-same :
    (c : ServiceExecutionContext) (name : String) (tenant : Option String) (now : ℕ)
    (live : ServiceExecutionContext)
    → assert_execution_context (some c) name tenant now ≡ ok live
    → live ≡ c
unfolding assert_execution_context
assert_execution_context-same c name tenant now live h = ground arith

module _ {S A : Type 0} (g : ServiceGateway S) where
  -- The history of an operation that returned `a`.
  pub record HasEvidence (context : ServiceExecutionContext) (options : ExecuteOptions)
      (effect : ServiceExecutionContext → Exec (S × EffectLocals) A) (started_at : ℕ) (a : A)
      : Type 0 where
    pub evidence_id : String
    pub before : S
    pub written :
        (g.evidence.write (started_evidence context options evidence_id started_at) before).0
        ≡ ok tt
    pub after : S × EffectLocals
    pub performed :
        effect context (
          (g.evidence.write (started_evidence context options evidence_id started_at) before).1,
          no_locals,
        )
        ≡ (ok a, after)
    pub completed_at : ℕ
    pub closing : S
    pub completed :
        (g.evidence.complete evidence_id (success_update options after.1 completed_at) closing).0
        ≡ ok tt

  fail_effect-not-ok :
      (options : ExecuteOptions) (id : String) (e : Error) (l : EffectLocals) (s : S) (a : A)
      → (fail_effect g options id e l s).0 ≡ ok a
      → ⊥
  unfolding fail_effect
  fail_effect-not-ok options id e l s a h = ground arith

  succeed-ok :
      (options : ExecuteOptions) (id : String) (b : A) (l : EffectLocals) (s : S) (a : A)
      → (succeed g options id b l s).0 ≡ ok a
      → (b ≡ a)
        × (completed_at : ℕ) × (t : S) × ((g.evidence.complete id
              (success_update options l completed_at)
              t).0
            ≡ ok tt)
  unfolding succeed
  succeed-ok options id b l s a h =
      let (completed_at, read, h₁) = >>=-eq-ok g.now _ s h in
      let (done, stored, h₂) =
        >>=-eq-ok (g.evidence.complete id (success_update options l completed_at))
          (λ _ t. (ok b, t)) _ h₁ in
      (cc h₂, completed_at, _, stored)

  conclude-ok :
      (options : ExecuteOptions) (id : String) (r : Result A) (s : S) (l : EffectLocals) (a : A)
      → (conclude g options id (r, (s, l))).0 ≡ ok a
      → (r ≡ ok a)
        × (completed_at : ℕ) × (t : S) × ((g.evidence.complete id
              (success_update options l completed_at)
              t).0
            ≡ ok tt)
  unfolding conclude
  conclude-ok options id (ok b) s l a h =
      elim (catch-eq-ok (succeed g options id b l) (λ e. fail_effect g options id e l) s h) [
        | inl done ↦
            let (same, completed_at, t, stored) = succeed-ok options id b l s a done in
            (ap ok same, completed_at, t, stored)
        | inr (e, raised) ↦ absurd (fail_effect-not-ok options id e l _ a raised)
      ]
  conclude-ok options id (err e) s l a h = absurd (fail_effect-not-ok options id e l s a h)

  perform-HasEvidence :
      (context : ServiceExecutionContext) (options : ExecuteOptions)
      (effect : ServiceExecutionContext → Exec (S × EffectLocals) A) (started_at : ℕ) (id : String)
      (s : S) (a : A)
      → (perform g context options effect started_at id s).0 ≡ ok a
      → HasEvidence context options effect started_at a
  unfolding perform
  perform-HasEvidence context options effect started_at id s a h =
      let write = g.evidence.write (started_evidence context options id started_at) in
      let (_, written, h₁) =
        >>=-eq-ok write (λ _ t. conclude g options id (effect context (t, no_locals))) s h in
      let out = effect context ((write s).1, no_locals) in
      let (returned, completed_at, closing, completed) =
        conclude-ok options id out.0 out.1.0 out.1.1 a h₁ in
      record {
        evidence_id = id;
        before = s;
        written = written;
        after = out.1;
        performed = λ i. (returned i, out.1);
        completed_at = completed_at;
        closing = closing;
        completed = completed;
      }

  -- An operation under a live context returns a value only if its `started` evidence was stored
  -- first, the effect then ran from the state which that write left, with empty locals, and
  -- returned this value, and afterwards its completion as succeeded was stored under the same id.
  pub run-HasEvidence :
      (context : ServiceExecutionContext) (options : ExecuteOptions)
      (effect : ServiceExecutionContext → Exec (S × EffectLocals) A) (started_at : ℕ) (s : S)
      (a : A)
      → (run g (some context) options effect started_at s).0 ≡ ok a
      → HasEvidence context options effect started_at a
  unfolding run
  run-HasEvidence context options effect started_at s a h =
      let after =
        λ (c : ServiceExecutionContext) (id : String). perform g c options effect started_at id in
      let (now, _, h₁) = >>=-eq-ok g.now _ s h in
      let (live, asserted, h₂) =
        >>=-eq-ok (lift (assert_execution_context (some context) context.capability none now))
          (λ c. g.random_uuid >>= after c) _ h₁ in
      let (id, _, h₃) = >>=-eq-ok g.random_uuid (after live) _ h₂ in
      subst (λ c. HasEvidence c options effect started_at a)
        (assert_execution_context-same context context.capability none now live asserted)
        (perform-HasEvidence live options effect started_at id _ a h₃)
