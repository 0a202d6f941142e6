-- ===== src/Authority/Gateway/Enforcement.antt =====
-- What an execution context stands for: nothing is performed that was not asked for and allowed.
use appport_services.Common.{
  ℕ, String, ◌≡◌, refl, ◌≢◌, ◌⊎◌, inl, inr, true, false, not, ◌&&◌, ◌==◌, opt_eq, eq_iff, Option,
  none, some, arith, truthy, or_default, Bool-cases, ap, ◌∙◌,
}
use appport_services.Authority.Principal.{
  VerifiedPrincipal, Caller, verified, require_verified_principal,
}
use appport_services.Authority.Manifest.{ServiceCapability}
use appport_services.Authority.Context.{ServiceResource, ServiceExecutionContext}
use appport_services.Authority.Authorizer.{
  ServiceAuthorizationRequest, ServiceAuthorizationDecision, AuthorizerOutcome, answered, failed,
  timed_out,
}
use appport_services.Authority.Gateway.{
  ServiceGateway, ExecuteOptions, EffectLocals, capability, assert_ownership, enforce_credential,
  request_for,
}
use appport_services.Authority.Gateway.Authorize.{
  decision_matches, settle_decision, decide_by, decide, grant, authorize_principal,
  authorize_capability, authorize,
}
use appport_services.Authority.Gateway.Execution.{
  execute, enforce, run, record_refusal, given_or_new,
}
use appport_services.Exec.{Exec, ok, >>=-eq-ok, bind-cong, attempt-cong, throw, ◌>>=◌, ◌>>◌}

-- AuthBoundry was asked about this request and its answer allows it.
pub record WasAllowed {S : Type 0} (g : ServiceGateway S) (request : ServiceAuthorizationRequest)
    (decision : ServiceAuthorizationDecision) : Type 0 where
  pub ask : ServiceAuthorizationRequest → S → AuthorizerOutcome × S
  pub configured : g.authorizer ≡ some ask
  pub world : S
  pub answer : (ask request world).0 ≡ answered (some decision)
  pub about_request : decision_matches request decision ≡ true
  pub allowed : decision.allowed ≡ some true

-- Everything that the gateway has established when it issues a context.
pub record IsAuthorized {S : Type 0} (g : ServiceGateway S) (name : String)
    (principal : VerifiedPrincipal) (resource : ServiceResource) (request_id : String)
    (context : ServiceExecutionContext) : Type 0 where
  pub entry : ServiceCapability
  pub declared : capability g name ≡ some entry
  pub fits : resource.kind ≡ entry.resource
  pub tenant : principal.tenant_id ≡ resource.tenant_id
  pub has_tenant : resource.tenant_id ≢ ""
  pub application :
      (truthy principal.application_id ≡ false) ⊎ (principal.application_id ≡ some g.application)
  pub checked_in : S
  pub credential_checked : (enforce_credential g principal entry.name resource checked_in).0 ≡ ok tt
  pub timestamp : ℕ
  pub decision : ServiceAuthorizationDecision
  pub was_allowed :
      WasAllowed g (request_for g entry principal resource request_id timestamp) decision
  pub of_principal : context.principal ≡ principal
  pub of_capability : context.capability ≡ entry.name
  pub of_resource : context.resource ≡ resource
  pub of_tenant : context.tenant_id ≡ resource.tenant_id
  pub of_decision : some context.authorization.decision_id ≡ decision.decision_id

module _ {S : Type 0} (g : ServiceGateway S) where
  settle_decision-ok :
      (request : ServiceAuthorizationRequest) (o : AuthorizerOutcome)
      (d : ServiceAuthorizationDecision)
      → settle_decision g request o ≡ ok d
      → (o ≡ answered (some d)) × (decision_matches request d ≡ true)
  unfolding settle_decision
  settle_decision-ok request (answered none) d h = cc
  settle_decision-ok request (answered (some x)) d h =
      elim (Bool-cases (decision_matches request x)) [
        | inl fits ↦ let same : x ≡ d = ground arith in rw (← same) (refl, fits)
        | inr other ↦ ground arith
      ]
  settle_decision-ok request (failed e) d h = cc
  settle_decision-ok request timed_out d h = cc

  decide_by-ok :
      (o : Option (ServiceAuthorizationRequest → S → AuthorizerOutcome × S))
      (request : ServiceAuthorizationRequest) (s : S) (d : ServiceAuthorizationDecision)
      → (decide_by g o request s).0 ≡ ok d
      → (ask : ServiceAuthorizationRequest → S → AuthorizerOutcome × S) × (o ≡ some ask)
        × ((ask request s).0 ≡ answered (some d))
        × (decision_matches request d ≡ true)
  unfolding decide_by
  decide_by-ok none request s d h = cc
  decide_by-ok (some ask) request s d h =
      let (answer, fits) = settle_decision-ok request _ d h in (ask, refl, answer, fits)

  grant-ok :
      (entry : ServiceCapability) (principal : VerifiedPrincipal) (resource : ServiceResource)
      (request_id : String) (d : ServiceAuthorizationDecision) (s : S)
      (context : ServiceExecutionContext)
      → (grant g entry principal resource request_id d s).0 ≡ ok context
      → (d.allowed ≡ some true)
        × (context.principal ≡ principal)
        × (context.capability ≡ entry.name)
        × (context.resource ≡ resource)
        × (context.tenant_id ≡ resource.tenant_id)
        × (context.authorization.decision_id ≡ or_default d.decision_id "")
  unfolding grant
  grant-ok entry principal resource request_id d s context h = ground arith

  some_of_matches :
      (request : ServiceAuthorizationRequest) (d : ServiceAuthorizationDecision)
      → decision_matches request d ≡ true
      → some (or_default d.decision_id "") ≡ d.decision_id
  unfolding decision_matches
  some_of_matches request d h = ground arith

  authorize_principal-ok :
      (entry : ServiceCapability) (principal : VerifiedPrincipal) (resource : ServiceResource)
      (request_id : String) (s : S) (context : ServiceExecutionContext)
      → (authorize_principal g entry principal resource request_id s).0 ≡ ok context
      → (timestamp : ℕ) × (decision : ServiceAuthorizationDecision) × WasAllowed g
          (request_for g entry principal resource request_id timestamp)
          decision
        × (context.principal ≡ principal)
        × (context.capability ≡ entry.name)
        × (context.resource ≡ resource)
        × (context.tenant_id ≡ resource.tenant_id)
        × (some context.authorization.decision_id ≡ decision.decision_id)
  unfolding authorize_principal decide
  authorize_principal-ok entry principal resource request_id s context h =
      let (timestamp, timed, h₁) = >>=-eq-ok g.now _ s h in
      let (d, decided, h₂) = >>=-eq-ok (decide g _) _ _ h₁ in
      let (ask, configured, answer, fits) = decide_by-ok g.authorizer _ _ d decided in
      let (allowed, p, c, r, t, i) = grant-ok entry principal resource request_id d _ context h₂ in
      (
        timestamp,
        d,
        record {
          ask = ask;
          configured = configured;
          world = _;
          answer = answer;
          about_request = fits;
          allowed = allowed;
        },
        p,
        c,
        r,
        t,
        ap some i ∙ some_of_matches _ d fits,
      )

  authorize_capability-ok :
      (entry : ServiceCapability) (name : String) (caller : Caller) (resource : ServiceResource)
      (request_id : String) (s : S) (context : ServiceExecutionContext)
      → (authorize_capability g (some entry) name caller resource request_id s).0 ≡ ok context
      → (p : VerifiedPrincipal) × (caller ≡ verified p)
        × (resource.kind ≡ entry.resource)
        × (assert_ownership g p resource name ≡ ok tt)
        × ((enforce_credential g p entry.name resource s).0 ≡ ok tt)
        × (s' : S) × ((authorize_principal g entry p resource request_id s').0 ≡ ok context)
  unfolding authorize_capability require_verified_principal
  authorize_capability-ok entry name (verified p) resource request_id s context h = (
    p,
    refl,
    ground (arith, eq_iff resource.kind entry.resource),
    ground arith,
    ground arith,
    (enforce_credential g p entry.name resource s).1,
    ground arith,
  )
  authorize_capability-ok entry name _ resource request_id s context h = ground arith

  own_application :
      (o : Option String) (a : String)
      → (truthy o && not (opt_eq o (some a))) ≡ false
      → (truthy o ≡ false) ⊎ (o ≡ some a)
  own_application none a h = inl refl
  own_application (some x) a h = elim (Bool-cases (x == a)) [
    | inl e ↦ inr (ap some ((eq_iff x a).0 e))
    | inr e ↦ inl (ground arith)
  ]

  assert_ownership-ok :
      (p : VerifiedPrincipal) (resource : ServiceResource) (name : String)
      → assert_ownership g p resource name ≡ ok tt
      → (p.tenant_id ≡ resource.tenant_id)
        × (resource.tenant_id ≢ "")
        × ((truthy p.application_id ≡ false) ⊎ (p.application_id ≡ some g.application))
  unfolding assert_ownership
  assert_ownership-ok p resource name h = (
    ground (arith, eq_iff resource.tenant_id "", eq_iff p.tenant_id resource.tenant_id),
    ground (arith, eq_iff resource.tenant_id "", eq_iff p.tenant_id resource.tenant_id),
    own_application p.application_id g.application (ground arith),
  )

  authorize_capability-IsAuthorized :
      (o : Option ServiceCapability) (name : String) (caller : Caller) (resource : ServiceResource)
      (request_id : String) (s : S) (context : ServiceExecutionContext)
      → capability g name ≡ o
      → (authorize_capability g o name caller resource request_id s).0 ≡ ok context
      → (p : VerifiedPrincipal) × (caller ≡ verified p)
        × (done : IsAuthorized g name p resource request_id context) × (done.checked_in ≡ s)
  authorize_capability-IsAuthorized none name caller resource request_id s context e h =
      absurd (unfold authorize_capability in cc h)
  authorize_capability-IsAuthorized (some entry) name caller resource request_id s context e h =
      let (p, from, fits, owned, checked, s', granted) =
        authorize_capability-ok entry name caller resource request_id s context h in
      let (tenant, has_tenant, application) = assert_ownership-ok p resource name owned in
      let (timestamp, d, was, of_p, of_c, of_r, of_t, of_d) =
        authorize_principal-ok entry p resource request_id s' context granted in
      (
        p,
        from,
        record {
          entry = entry;
          declared = e;
          fits = fits;
          tenant = tenant;
          has_tenant = has_tenant;
          application = application;
          checked_in = s;
          credential_checked = checked;
          timestamp = timestamp;
          decision = d;
          was_allowed = was;
          of_principal = of_p;
          of_capability = of_c;
          of_resource = of_r;
          of_tenant = of_t;
          of_decision = of_d;
        },
        refl,
      )

  -- A context is issued only to a verified principal, for a declared capability that fits the
  -- resource, within the principal's tenant and application, after its credential check passed in
  -- the state in which the request starts, and on an answer of AuthBoundry that allows this very
  -- request; and it names all of these.
  pub authorize-IsAuthorized :
      (name : String) (caller : Caller) (resource : ServiceResource) (request_id : String) (s : S)
      (context : ServiceExecutionContext)
      → (authorize g name caller resource request_id s).0 ≡ ok context
      → (p : VerifiedPrincipal) × (caller ≡ verified p)
        × (done : IsAuthorized g name p resource request_id context) × (done.checked_in ≡ s)
  unfolding authorize
  authorize-IsAuthorized name caller resource request_id s context =
      authorize_capability-IsAuthorized (capability g name) name caller resource request_id s
        context refl

module _ {S A : Type 0} (g : ServiceGateway S) where
  -- If the gateway can establish no authorization for the caller, then an operation does the same
  -- whatever its effect is: the effect is not performed.
  pub execute-needs-IsAuthorized :
      (name : String) (caller : Caller) (resource : ServiceResource) (options : ExecuteOptions)
      (effect effect' : ServiceExecutionContext → Exec (S × EffectLocals) A) (s : S)
      → ((p : VerifiedPrincipal) (request_id : String) (context : ServiceExecutionContext)
          → caller ≡ verified p
          → ¬ IsAuthorized g name p resource request_id context)
      → execute g name caller resource options effect s
        ≡ execute g name caller resource options effect' s
  unfolding execute
  execute-needs-IsAuthorized name caller resource options effect effect' s never =
      bind-cong (given_or_new g options.request_id) (after effect) (after effect') s
        λ request_id s₁.
          bind-cong g.now (enforce g name caller resource options effect request_id)
            (enforce g name caller resource options effect' request_id) s₁
            λ started_at s₂.
              attempt-cong (authorize g name caller resource request_id)
                (λ context. run g (some context) options effect started_at)
                (λ context. run g (some context) options effect' started_at)
                (λ e. do
                  record_refusal g name caller resource options request_id started_at e
                  throw e)
                s₂
                λ context e.
                  let (p, from, done, _) =
                    authorize-IsAuthorized g name caller resource request_id s₂ context e in
                  absurd (never p request_id context from done)
    where
      after : (ServiceExecutionContext → Exec (S × EffectLocals) A) → String → Exec S A
      after eff request_id = do
        started_at ← g.now
        enforce g name caller resource options eff request_id started_at
