-- ===== src/Authority/Gateway/Accountability.antt =====
-- What stands behind an operation that returned.
use appport_services.Common.{ℕ, ◌≡◌, String, inl, inr, some}
use appport_services.Authority.Errors.{Error}
use appport_services.Authority.Principal.{VerifiedPrincipal, Caller, verified}
use appport_services.Authority.Context.{ServiceResource, ServiceExecutionContext}
use appport_services.Authority.Gateway.{ServiceGateway, ExecuteOptions, EffectLocals}
use appport_services.Authority.Gateway.Authorize.{authorize}
use appport_services.Authority.Gateway.Execution.{
  execute, enforce, run, record_refusal, given_or_new,
}
use appport_services.Authority.Gateway.Enforcement.{IsAuthorized, authorize-IsAuthorized}
use appport_services.Authority.Gateway.Outcomes.{HasEvidence, run-HasEvidence}
use appport_services.Exec.{Exec, ok, throw, >>=-eq-ok, attempt-eq-ok, ◌>>=◌, ◌>>◌}

module _ {S A : Type 0} (g : ServiceGateway S) (name : String) (caller : Caller)
    (resource : ServiceResource) (options : ExecuteOptions)
    (effect : ServiceExecutionContext → Exec (S × EffectLocals) A) where
  pub record IsAccountable (a : A) : Type 0 where
    pub principal : VerifiedPrincipal
    pub of_caller : caller ≡ verified principal
    pub request_id : String
    pub context : ServiceExecutionContext
    pub authorized : IsAuthorized g name principal resource request_id context
    pub started_at : ℕ
    pub evidence : HasEvidence g context options effect started_at a

  -- The `catch` of `execute` throws on, so that an operation which returned was authorized.
  refused-not-ok :
      (request_id : String) (started_at : ℕ) (e : Error) (s : S) (a : A)
      → ((record_refusal g name caller resource options request_id started_at e >> throw e) s).0
        ≡ ok a
      → ⊥
  refused-not-ok request_id started_at e s a h =
      let (_, _, raised) =
        >>=-eq-ok (record_refusal g name caller resource options request_id started_at e)
          (λ _. throw e) s h in
      cc raised

  enforce-IsAccountable :
      (request_id : String) (started_at : ℕ) (s : S) (a : A)
      → (enforce g name caller resource options effect request_id started_at s).0 ≡ ok a
      → IsAccountable a
  unfolding enforce
  enforce-IsAccountable request_id started_at s a h =
      elim (attempt-eq-ok (authorize g name caller resource request_id)
        (λ context. run g (some context) options effect started_at)
        (λ e. record_refusal g name caller resource options request_id started_at e >> throw e) s
        h) [
          | inl (context, issued, ran) ↦
              let (principal, of_caller, authorized, _) =
                authorize-IsAuthorized g name caller resource request_id s context issued in
              record {
                principal = principal;
                of_caller = of_caller;
                request_id = request_id;
                context = context;
                authorized = authorized;
                started_at = started_at;
                evidence = run-HasEvidence g context options effect started_at _ a ran;
              }
          | inr (e, raised) ↦ absurd (refused-not-ok request_id started_at e _ a raised)
        ]

  -- An operation returns a value only if the caller is a verified principal, the gateway issued a
  -- context for this capability, principal and resource after everything that an authorization
  -- needs was established, and the effect made the value under this context, between its evidence
  -- of having started and its evidence of having succeeded.
  pub execute-IsAccountable :
      (s : S) (a : A) → (execute g name caller resource options effect s).0 ≡ ok a → IsAccountable a
  unfolding execute
  execute-IsAccountable s a h =
      let (request_id, _, h₁) =
        >>=-eq-ok (given_or_new g options.request_id)
          (λ r. g.now >>= enforce g name caller resource options effect r) s h in
      let (started_at, _, h₂) =
        >>=-eq-ok g.now (enforce g name caller resource options effect request_id) _ h₁ in
      enforce-IsAccountable request_id started_at _ a h₂
