-- ===== src/Authority/Gateway/Custody/Entitlement.antt =====
-- Who gets to use the material of a credential.
use appport_services.Common.{
  ℕ, ◌<◌, ◌≡◌, refl, ap, subst, ◌∙◌, String, true, opt_eq, eq_iff, Option, none, some, get,
  Bool-cases, inl, inr, arith,
}
use appport_services.Authority.Errors.{Error}
use appport_services.Authority.Context.{ServiceExecutionContext, assert_execution_context}
use appport_services.Authority.Custody.{
  ResolvedSecret, CustodyFailure, CustodyResult, given, refused, CustodyAction, Credentials,
}
use appport_services.Authority.Credentials.{credential_reference}
use appport_services.Authority.Gateway.{ServiceGateway, ExecuteOptions, EffectLocals}
use appport_services.Authority.Gateway.Outcomes.{assert_execution_context-same}
use appport_services.Authority.Gateway.Custody.{
  told, ask, access_of, admit_ref, not_authorized, map_credential_failure, custody_context,
  conclude_use, use_secret, resolve_with, with_credential, credential_tool, push_ref,
}
use appport_services.Exec.{Exec, Result, ok, err, pure, lift, >>=-eq-ok}

-- How a use of the credential `ref` that returned `a` came about.
pub record IsEntitled {S A : Type 0} (g : ServiceGateway S) (context : ServiceExecutionContext)
    (ref purpose : String) (provider : Option String) (callback : ResolvedSecret → Exec S A) (s : S)
    (a : A) : Type 0 where
  pub authorized : get "credentialRef" context.resource.attributes ≡ some ref
  pub now : ℕ
  pub clock : (g.now s).0 ≡ ok now
  pub live : now < context.expires_at
  pub credentials : Credentials S
  pub of_gateway : g.credentials ≡ some credentials
  pub secret : ResolvedSecret
  pub revealed :
      (credentials.reveal
        (credential_reference ref context.tenant_id provider)
        (access_of context purpose)
        (custody_context g context ref s).1).0
      ≡ given secret
  pub used :
      (callback secret
        (credentials.reveal
          (credential_reference ref context.tenant_id provider)
          (access_of context purpose)
          (custody_context g context ref s).1).1).0
      ≡ ok a

opt_eq-some : (o : Option String) (t : String) → opt_eq o (some t) ≡ true → o ≡ some t
opt_eq-some none t h = cc
opt_eq-some (some s) t h = ap some ((eq_iff s t).0 h)

assert_execution_context-live :
    (c : ServiceExecutionContext) (name : String) (tenant : Option String) (now : ℕ)
    (live : ServiceExecutionContext)
    → assert_execution_context (some c) name tenant now ≡ ok live
    → now < c.expires_at
unfolding assert_execution_context
assert_execution_context-live c name tenant now live h = ground arith

module _ {S A : Type 0} where
  told-ok :
      (mapped : CustodyFailure → Error) (r : CustodyResult A) (s : S) (a : A)
      → (told mapped r s).0 ≡ ok a
      → (r ≡ given a) × ((told mapped r s).1 ≡ s)
  unfolding told
  told-ok mapped (given b) s a h = (cc, refl)
  told-ok mapped (refused failure) s a h = cc

  conclude_use-ok :
      (mapped : CustodyFailure → Error) (conceal : CustodyAction S (Unit {0})) (r : Result A)
      (s : S) (a : A)
      → (conclude_use mapped conceal r s).0 ≡ ok a
      → r ≡ ok a
  unfolding conclude_use
  conclude_use-ok mapped conceal (ok b) s a h =
      let (_, _, same) = >>=-eq-ok (ask mapped conceal) (λ _. pure b) s h in same
  conclude_use-ok mapped conceal (err e) s a h = h

admit_ref-ok :
    (context : ServiceExecutionContext) (ref : String) (got : ServiceExecutionContext)
    → admit_ref context ref ≡ ok got
    → (got ≡ context) × (get "credentialRef" context.resource.attributes ≡ some ref)
unfolding admit_ref
admit_ref-ok context ref got h =
    elim (Bool-cases (opt_eq (get "credentialRef" context.resource.attributes) (some ref))) [
      | inl fits ↦
          let same : ok context ≡ ok got = rw fits at h in
          (cc same, opt_eq-some (get "credentialRef" context.resource.attributes) ref fits)
      | inr other ↦ let raised : err (not_authorized context) ≡ ok got = rw other at h in cc raised
    ]

custody_context-ok :
    {S : Type 0} (g : ServiceGateway S) (ref : String) (context got : ServiceExecutionContext)
    (s : S)
    → (custody_context g context ref s).0 ≡ ok got
    → (got ≡ context)
      × (get "credentialRef" context.resource.attributes ≡ some ref)
      × (now : ℕ) × ((g.now s).0 ≡ ok now)
      × (now < context.expires_at)
unfolding custody_context
custody_context-ok g ref context got s h =
    let (now, clock, h₁) = >>=-eq-ok g.now _ s h in
    let (live, asserted, h₂) =
      >>=-eq-ok (lift (assert_execution_context (some context) context.capability none now))
        (λ c. lift (admit_ref c ref)) _ h₁ in
    let same = assert_execution_context-same context context.capability none now live asserted in
    let (got_same, fits) = admit_ref-ok live ref got h₂ in
    (
      got_same ∙ same,
      subst (λ c. get "credentialRef" c.resource.attributes ≡ some ref) same fits,
      now,
      clock,
      assert_execution_context-live context context.capability none now live asserted,
    )

module _ {S A : Type 0} (g : ServiceGateway S) (ref purpose : String) (provider : Option String)
    (callback : ResolvedSecret → Exec S A) where
  resolve_with-IsEntitled :
      (c : Option (Credentials S)) (context : ServiceExecutionContext) (s : S) (a : A)
      → g.credentials ≡ c
      → get "credentialRef" context.resource.attributes ≡ some ref
      → (now : ℕ) → (g.now s).0 ≡ ok now
      → now < context.expires_at
      → (resolve_with c context ref purpose provider callback (custody_context g context ref s).1).0
        ≡ ok a
      → IsEntitled g context ref purpose provider callback s a
  unfolding resolve_with ask use_secret
  resolve_with-IsEntitled none context s a e f now clock live h = cc
  resolve_with-IsEntitled (some c) context s a e f now clock live h =
      let t = (custody_context g context ref s).1 in
      let reference = credential_reference ref context.tenant_id provider in
      let access = access_of context purpose in
      let mapped = map_credential_failure context.capability in
      let (secret, asked, h₁) =
        >>=-eq-ok (ask mapped (c.reveal reference access))
          (use_secret mapped (c.conceal reference access) callback) t h in
      let (revealed, left) =
        told-ok mapped (c.reveal reference access t).0 (c.reveal reference access t).1 secret
          asked in
      record {
        authorized = f;
        now = now;
        clock = clock;
        live = live;
        credentials = c;
        of_gateway = e;
        secret = secret;
        revealed = revealed;
        used =
            subst (λ u. (callback secret u).0 ≡ ok a) left
              (conclude_use-ok mapped (c.conceal reference access)
                (callback secret
                  (told mapped (c.reveal reference access t).0 (c.reveal reference access t).1).1).0
                _ a h₁);
      }

  -- A use of a credential returns a value only for a context that is live by the gateway's clock,
  -- read as the use starts, and that was authorized for exactly this reference: the custody of the gateway then revealed the secret of this reference,
  -- for the context's tenant, principal and decision, and the callback made the value of it.
  pub with_credential-IsEntitled :
      (context : ServiceExecutionContext) (s : S) (a : A)
      → (with_credential g context ref purpose provider callback s).0 ≡ ok a
      → IsEntitled g context ref purpose provider callback s a
  unfolding with_credential
  with_credential-IsEntitled context s a h =
      let (got, admitted, h₁) =
        >>=-eq-ok (custody_context g context ref)
          (λ c. resolve_with g.credentials c ref purpose provider callback) s h in
      let (same, fits, now, clock, live) = custody_context-ok g ref context got s admitted in
      resolve_with-IsEntitled g.credentials context s a refl fits now clock live (
        subst
          (λ c.
            (resolve_with g.credentials c ref purpose provider callback
              (custody_context g context ref s).1).0
            ≡ ok a)
          same h₁)

  -- The tool of an effect gives out a credential on the same terms.
  pub credential_tool-IsEntitled :
      (context : ServiceExecutionContext) (options : ExecuteOptions) (s : S × EffectLocals) (a : A)
      → options.provider ≡ provider
      → (credential_tool g context options ref purpose callback s).0 ≡ ok a
      → IsEntitled g context ref purpose provider callback s.0 a
  unfolding credential_tool push_ref
  credential_tool-IsEntitled context options s a e h =
      with_credential-IsEntitled context s.0 a
        (subst (λ o. (with_credential g context ref purpose o callback s.0).0 ≡ ok a) e h)
