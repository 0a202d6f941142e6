-- ===== src/ApiKeys/Service/Credentials.antt =====
-- The check of a key as the gateway enforces it.
use appport_services.Common.{
  String, ◌≡◌, some, inl, inr, subst, sym, ℕ, true, eq_iff, opt_eq, Option, none, arith,
}
use appport_services.Authority.Principal.{VerifiedPrincipal, verified}
use appport_services.Authority.Context.{ServiceResource, ServiceExecutionContext}
use appport_services.Authority.Gateway.{ServiceGateway, enforce_credential, rethrow_check}
use appport_services.Authority.Gateway.Authorize.{authorize}
use appport_services.Authority.Gateway.Enforcement.{authorize-IsAuthorized}
use appport_services.ApiKeys.Service.{ApiKeyService}
use appport_services.ApiKeys.Service.Authenticate.{credential_check, check_record, check_found}
use appport_services.Exec.{ok, catch, catch-eq-ok, throw, lift, >>=-eq-ok}
use appport_services.ApiKeys.Restrictions.{restrictions_permit}
use appport_services.ApiKeys.Models.{ApiKey, active}
use appport_services.ApiKeys.Views.{key_status}

module _ {S : Type 0} (svc : ApiKeyService S) where
  -- What the check that is bound to a key's principal has seen when it lets an operation through.
  pub record IsLive (key_id : String) (principal : VerifiedPrincipal) (capability : String)
      (resource : ServiceResource) (s : S) : Type 0 where
    pub key : ApiKey
    pub read : (svc.store.get key_id s).0 ≡ ok (some key)
    pub same_tenant : key.tenant_id ≡ principal.tenant_id
    pub same_application : opt_eq key.application_id (some svc.application_id) ≡ true
    pub now : ℕ
    pub clock : (svc.now (svc.store.get key_id s).1).0 ≡ ok now
    pub live : key_status key now ≡ active
    pub permitted : restrictions_permit key.restrictions capability resource ≡ true

  check_record-ok :
      (principal : VerifiedPrincipal) (capability : String) (resource : ServiceResource) (now : ℕ)
      (key : ApiKey)
      → check_record svc principal capability resource now key ≡ ok tt
      → (key.tenant_id ≡ principal.tenant_id)
        × (opt_eq key.application_id (some svc.application_id) ≡ true)
        × (key_status key now ≡ active)
        × (restrictions_permit key.restrictions capability resource ≡ true)
  unfolding check_record
  check_record-ok principal capability resource now key h = (
    ground (arith, eq_iff key.tenant_id principal.tenant_id),
    ground arith,
    ground arith,
    ground arith,
  )

  check_found-IsLive :
      (key_id : String) (principal : VerifiedPrincipal) (capability : String)
      (resource : ServiceResource) (s : S) (o : Option ApiKey)
      → (svc.store.get key_id s).0 ≡ ok o
      → (check_found svc principal capability resource o (svc.store.get key_id s).1).0 ≡ ok tt
      → IsLive key_id principal capability resource s
  check_found-IsLive key_id principal capability resource s none e h = cc h
  check_found-IsLive key_id principal capability resource s (some key) e h =
      let (now, clock, h₁) =
        >>=-eq-ok svc.now (λ n. lift (check_record svc principal capability resource n key))
          (svc.store.get key_id s).1 h in
      let (tenant, application, live, permitted) =
        check_record-ok principal capability resource now key h₁ in
      record {
        key = key;
        read = e;
        same_tenant = tenant;
        same_application = application;
        now = now;
        clock = clock;
        live = live;
        permitted = permitted;
      }

  -- The check bound to a key's principal lets an operation through only if the store, read anew,
  -- holds the key in the principal's tenant and this application, active at the time that the clock
  -- then shows, and with restrictions that permit the operation on the resource.
  pub credential_check-IsLive :
      (key_id : String) (principal : VerifiedPrincipal) (capability : String)
      (resource : ServiceResource) (s : S)
      → (credential_check svc key_id principal capability resource s).0 ≡ ok tt
      → IsLive key_id principal capability resource s
  unfolding credential_check
  credential_check-IsLive key_id principal capability resource s h =
      let (o, read, h₁) =
        >>=-eq-ok (svc.store.get key_id) (check_found svc principal capability resource) s h in
      check_found-IsLive key_id principal capability resource s o read h₁

module _ {S : Type 0} (svc : ApiKeyService S) (g : ServiceGateway S) (key_id : String)
    (principal : VerifiedPrincipal)
    (bound : g.bindings principal ≡ some (credential_check svc key_id principal)) where
  enforced-IsLive :
      (capability : String) (resource : ServiceResource) (s : S)
      → (enforce_credential g principal capability resource s).0 ≡ ok tt
      → IsLive svc key_id principal capability resource s
  unfolding enforce_credential
  enforced-IsLive capability resource s h =
      let checked : (catch (credential_check svc key_id principal capability resource)
            (λ e. throw (rethrow_check g capability e)) s).0
          ≡ ok tt =
        rw (enforce_credential, bound) at h in
      elim (catch-eq-ok (credential_check svc key_id principal capability resource)
        (λ e. throw (rethrow_check g capability e)) s checked) [
          | inl passed ↦ credential_check-IsLive svc key_id principal capability resource s passed
          | inr (e, thrown) ↦ absurd (cc thrown)
        ]

  -- Where the principal of a key is bound to the check of that key, the gateway issues it a
  -- context only if the store, read as the request starts, holds the key in the principal's tenant
  -- and the service's application, active at the time that the clock then shows, and with restrictions that permit the capability of the
  -- context on the resource: a key that was revoked, has expired or was narrowed since its
  -- authentication performs nothing that its record does not permit now.
  pub authorized_key-IsLive :
      (name : String) (resource : ServiceResource) (request_id : String) (s : S)
      (context : ServiceExecutionContext)
      → (authorize g name (verified principal) resource request_id s).0 ≡ ok context
      → IsLive svc key_id principal context.capability resource s
  authorized_key-IsLive name resource request_id s context h =
      let (p, from, done, now) =
        authorize-IsAuthorized g name (verified principal) resource request_id s context h in
      let same : p ≡ principal = cc from in
      let passed : (enforce_credential g principal done.entry.name resource done.checked_in).0
          ≡ ok tt =
        subst (λ q. (enforce_credential g q done.entry.name resource done.checked_in).0 ≡ ok tt)
          same done.credential_checked in
      subst (λ c. IsLive svc key_id principal c resource s) (sym done.of_capability)
        (subst (IsLive svc key_id principal done.entry.name resource) now
          (enforced-IsLive done.entry.name resource done.checked_in passed))
