-- ===== src/ApiKeys/Service/Authenticity.antt =====
-- What a principal stands for that an authentication returned, and what its check lets through.
use appport_services.Common.{
  ℕ, zero, suc, ◌+◌, ◌≡◌, refl, String, true, false, eq_iff, opt_eq, Option, none, some, arith, inl,
  inr, ap, subst, ◌∙◌, present,
}
use appport_services.Authority.Principal.{VerifiedPrincipal, by_api_key, mint_verified_principal}
use appport_services.ApiKeys.Models.{ApiKey, AuditResult}
use appport_services.ApiKeys.Secrets.{verify_secret, accepted, parse_api_key_prefix}
use appport_services.ApiKeys.Views.{elapsed}
use appport_services.ApiKeys.Service.{
  ApiKeyService, max_update_attempts, wait_for_update_retry, remember_local,
}
use appport_services.ApiKeys.Service.Authenticate.{
  authentication_failure, find_api_key_by_prefix, to_principal, used_copy, finish_authentication,
  use_key, authenticate_found, last_found, authenticate_last, authenticate_rounds,
  authenticate_api_key, authenticate_prefix, record_successful_auth_event, record_auth_event,
  after_use, retry_after, settle_last, refuse,
}
use appport_services.Exec.{
  Exec, pure, lift, catch, ok, >>=-eq-ok, catch-eq-ok, catch-ok-state, attempt-eq-ok,
}

-- The key may be used with this secret at this time.
pub record IsUsable {S : Type 0} (svc : ApiKeyService S) (key : ApiKey) (secret : String) (now : ℕ)
    : Type 0 where
  pub not_revoked : key.revoked_at ≡ none
  pub not_expired : elapsed key.expires_at now ≡ false
  pub verified : verify_secret svc.crypto secret key.secret_hash svc.verifier_key ≡ accepted
  pub same_application : key.application_id ≡ some svc.application_id

-- The principal is the identity of a key that was looked up and was usable then.
pub record IsAuthentic {S : Type 0} (svc : ApiKeyService S) (secret : String)
    (principal : VerifiedPrincipal) : Type 0 where
  pub prefix : String
  pub parsed : parse_api_key_prefix secret ≡ some prefix
  pub before : S
  pub key : ApiKey
  pub looked_up : (find_api_key_by_prefix svc prefix before).0 ≡ ok (some key)
  pub now : ℕ
  pub clock : (svc.now (find_api_key_by_prefix svc prefix before).1).0 ≡ ok now
  pub usable : IsUsable svc key secret now
  pub same_id : principal.principal_id ≡ key.id
  pub same_tenant : principal.tenant_id ≡ key.tenant_id
  pub same_credential : principal.credential_id ≡ present (some key.id)
  pub by_key : principal.verified_by ≡ by_api_key

module _ {S : Type 0} (svc : ApiKeyService S) where
  authentication_failure-IsUsable :
      (key : ApiKey) (secret : String) (now : ℕ)
      → authentication_failure svc key secret now ≡ none
      → IsUsable svc key secret now
  unfolding authentication_failure
  authentication_failure-IsUsable key secret now h = record {
    not_revoked = ground arith;
    not_expired = ground arith;
    verified = ground arith;
    same_application = opt_eq-eq key.application_id _ (ground arith);
  }
    where
      opt_eq-eq : (a b : Option String) → opt_eq a b ≡ true → a ≡ b
      opt_eq-eq none none e = refl
      opt_eq-eq none (some y) e = cc
      opt_eq-eq (some x) none e = cc
      opt_eq-eq (some x) (some y) e = ap some ((eq_iff x y).0 e)

  to_principal-same :
      (key : ApiKey) (p : VerifiedPrincipal)
      → to_principal svc key ≡ ok p
      → (p.principal_id ≡ key.id)
        × (p.tenant_id ≡ key.tenant_id)
        × (p.credential_id ≡ present (some key.id))
        × (p.verified_by ≡ by_api_key)
  unfolding to_principal mint_verified_principal
  to_principal-same key p h = ground arith

  -- An action returns authentic principals only.
  abbrev Sound : String → Exec S (Option VerifiedPrincipal) → Type 0
  Sound secret m =
      (s : S) (p : VerifiedPrincipal) → (m s).0 ≡ ok (some p) → IsAuthentic svc secret p

  module _ (prefix secret : String) (parsed : parse_api_key_prefix secret ≡ some prefix) where
    -- The key that was found, and the principal made from a copy of it with the same identity.
    authentic :
        (s : S) (key copy : ApiKey) (now : ℕ) (p : VerifiedPrincipal)
        → (find_api_key_by_prefix svc prefix s).0 ≡ ok (some key)
        → (svc.now (find_api_key_by_prefix svc prefix s).1).0 ≡ ok now
        → authentication_failure svc key secret now ≡ none
        → copy.id ≡ key.id
        → copy.tenant_id ≡ key.tenant_id
        → to_principal svc copy ≡ ok p
        → IsAuthentic svc secret p
    authentic s key copy now p found clock fine same_id same_tenant made =
        let (id, tenant, credential, by) = to_principal-same copy p made in
        record {
          prefix = prefix;
          parsed = parsed;
          before = s;
          key = key;
          looked_up = found;
          now = now;
          clock = clock;
          usable = authentication_failure-IsUsable key secret now fine;
          same_id = id ∙ same_id;
          same_tenant = tenant ∙ same_tenant;
          same_credential = credential ∙ ap (λ x. present (some x)) same_id;
          by_key = by;
        }

    finish-made :
        (current stored : ApiKey) (now : ℕ) (s : S) (p : VerifiedPrincipal)
        → (finish_authentication svc current stored now s).0 ≡ ok (some p)
        → to_principal svc (used_copy svc current stored now) ≡ ok p
    unfolding finish_authentication
    finish-made current stored now s p h =
        let updated = used_copy svc current stored now in
        let (_, _, h₁) = >>=-eq-ok (record_successful_auth_event svc updated now) _ s h in
        let (_, _, h₂) = >>=-eq-ok (remember_local svc updated) _ _ h₁ in
        let (q, made, h₃) = >>=-eq-ok (lift (to_principal svc updated)) (λ x. pure (some x)) _ h₂ in
        let same : q ≡ p = cc h₃ in made ∙ ap ok same

    used_copy-same :
        (current stored : ApiKey) (now : ℕ)
        → ((used_copy svc current stored now).id ≡ current.id)
          × ((used_copy svc current stored now).tenant_id ≡ current.tenant_id)
    unfolding used_copy
    used_copy-same current stored now = (refl, refl)

    retry-Sound :
        (n : ℕ) (again : Exec S (Option VerifiedPrincipal))
        → Sound secret again
        → Sound secret (retry_after svc n again)
    retry-Sound n again sound s p h =
        let (_, _, h₁) = >>=-eq-ok (wait_for_update_retry svc n) (λ _. again) s h in sound _ p h₁

    refuse-Sound :
        (key : ApiKey) (failure : AuditResult) (now : ℕ) → Sound secret (refuse svc key failure now)
    refuse-Sound key failure now s p h =
        let (_, _, h₁) =
          >>=-eq-ok (record_auth_event svc key failure now) (λ _ t. (ok none, t)) s h in
        cc h₁

    use_key-IsAuthentic :
        (n : ℕ) (again : Exec S (Option VerifiedPrincipal)) (s₀ : S) (current : ApiKey) (now : ℕ)
        (o : Option AuditResult) (s : S) (p : VerifiedPrincipal)
        → Sound secret again
        → (find_api_key_by_prefix svc prefix s₀).0 ≡ ok (some current)
        → (svc.now (find_api_key_by_prefix svc prefix s₀).1).0 ≡ ok now
        → authentication_failure svc current secret now ≡ o
        → (use_key svc n again current now o s).0 ≡ ok (some p)
        → IsAuthentic svc secret p
    unfolding use_key
    use_key-IsAuthentic n again s₀ current now (some failure) s p sound found clock e h =
        refuse-Sound current failure now s p h
    use_key-IsAuthentic n again s₀ current now none s p sound found clock e h =
        elim (attempt-eq-ok (svc.store.record_last_used current.id current.version now)
          (after_use svc n again current now) (λ _. retry_after svc n again) s h) [
            | inl (stored, _, h₁) ↦ after stored _ h₁
            | inr (x, h₁) ↦ retry-Sound n again sound _ p h₁
          ]
      where
        after :
            (o : Option ApiKey) (t : S)
            → (after_use svc n again current now o t).0 ≡ ok (some p)
            → IsAuthentic svc secret p
        after none t h' = retry-Sound n again sound t p h'
        after (some stored) t h' =
            let (same_id, same_tenant) = used_copy-same current stored now in
            authentic s₀ current (used_copy svc current stored now) now p found clock e same_id
              same_tenant (finish-made current stored now t p h')

    found-IsAuthentic :
        (n : ℕ) (again : Exec S (Option VerifiedPrincipal)) (s₀ : S) (o : Option ApiKey)
        (p : VerifiedPrincipal)
        → Sound secret again
        → (find_api_key_by_prefix svc prefix s₀).0 ≡ ok o
        → (authenticate_found svc secret n again o (find_api_key_by_prefix svc prefix s₀).1).0
          ≡ ok (some p)
        → IsAuthentic svc secret p
    unfolding authenticate_found
    found-IsAuthentic n again s₀ none p sound found h = retry-Sound n again sound _ p h
    found-IsAuthentic n again s₀ (some current) p sound found h =
        let (now, clock, h₁) =
          >>=-eq-ok svc.now
            (λ t. use_key svc n again current t (authentication_failure svc current secret t))
            (find_api_key_by_prefix svc prefix s₀).1 h in
        use_key-IsAuthentic n again s₀ current now _ _ p sound found clock refl h₁

    settle_last-IsAuthentic :
        (s₀ : S) (current : ApiKey) (now : ℕ) (o : Option AuditResult) (s : S)
        (p : VerifiedPrincipal)
        → (find_api_key_by_prefix svc prefix s₀).0 ≡ ok (some current)
        → (svc.now (find_api_key_by_prefix svc prefix s₀).1).0 ≡ ok now
        → authentication_failure svc current secret now ≡ o
        → (settle_last svc current now o s).0 ≡ ok (some p)
        → IsAuthentic svc secret p
    settle_last-IsAuthentic s₀ current now (some failure) s p found clock e h =
        let (_, _, h₁) =
          >>=-eq-ok (catch (record_auth_event svc current failure now) (λ _. pure tt))
            (λ _ t. (ok none, t)) s h in
        cc h₁
    settle_last-IsAuthentic s₀ current now none s p found clock e h =
        let (_, _, h₁) = >>=-eq-ok (record_successful_auth_event svc current now) _ s h in
        let (q, made, h₂) = >>=-eq-ok (lift (to_principal svc current)) (λ x. pure (some x)) _ h₁ in
        let same : q ≡ p = cc h₂ in
        authentic s₀ current current now p found clock e refl refl (made ∙ ap ok same)

    last_found-IsAuthentic :
        (s₀ : S) (o : Option ApiKey) (s : S) (p : VerifiedPrincipal)
        → (find_api_key_by_prefix svc prefix s₀).0 ≡ ok o
        → s ≡ (find_api_key_by_prefix svc prefix s₀).1
        → (last_found svc secret o s).0 ≡ ok (some p)
        → IsAuthentic svc secret p
    unfolding last_found
    last_found-IsAuthentic s₀ none s p found left h = cc h
    last_found-IsAuthentic s₀ (some current) s p found left h =
        let (now, clock, h₁) =
          >>=-eq-ok svc.now
            (λ t. settle_last svc current t (authentication_failure svc current secret t)) s h in
        settle_last-IsAuthentic s₀ current now _ _ p found
          (subst (λ t. (svc.now t).0 ≡ ok now) left clock) refl h₁

    last-Sound : Sound secret (authenticate_last svc prefix secret)
    unfolding authenticate_last
    last-Sound s p h =
        let (o, read, h₁) =
          >>=-eq-ok (catch (find_api_key_by_prefix svc prefix) (λ _. pure none))
            (last_found svc secret) s h in
        elim (catch-eq-ok (find_api_key_by_prefix svc prefix) (λ _. pure none) s read) [
          | inl found ↦
              last_found-IsAuthentic s o _ p found
                (catch-ok-state (find_api_key_by_prefix svc prefix) (λ _. pure none) s found) h₁
          | inr (x, failed) ↦ absurd (unfold last_found in cc (h₁, failed))
        ]

    rounds-Sound :
        (n attempt_no : ℕ) → Sound secret (authenticate_rounds svc n attempt_no prefix secret)
    unfolding authenticate_rounds
    rounds-Sound zero attempt_no s p h = last-Sound s p h
    rounds-Sound (suc n) attempt_no s p h =
        let again = authenticate_rounds svc n (attempt_no + 1) prefix secret in
        let sound = rounds-Sound n (attempt_no + 1) in
        elim (attempt-eq-ok (find_api_key_by_prefix svc prefix)
          (authenticate_found svc secret attempt_no again) (λ _. retry_after svc attempt_no again) s
          h) [
            | inl (o, found, h₁) ↦ found-IsAuthentic attempt_no again s o p sound found h₁
            | inr (x, h₁) ↦ retry-Sound attempt_no again sound _ p h₁
          ]

  prefix-Sound :
      (secret : String) (o : Option String)
      → parse_api_key_prefix secret ≡ o
      → Sound secret (authenticate_prefix svc secret o)
  prefix-Sound secret none parsed s p h = cc h
  prefix-Sound secret (some prefix) parsed s p h =
      rounds-Sound prefix secret parsed max_update_attempts 0 s p h

  -- Authentication returns a principal only as the identity of a key that it looked up by the
  -- prefix of the secret, and that was not revoked, not expired by the clock read right after, bound to this application, and verified
  -- by the given secret.
  pub authenticate-IsAuthentic :
      (secret : String) (s : S) (p : VerifiedPrincipal)
      → (authenticate_api_key svc secret s).0 ≡ ok (some p)
      → IsAuthentic svc secret p
  unfolding authenticate_api_key
  authenticate-IsAuthentic secret s p = prefix-Sound secret (parse_api_key_prefix secret) refl s p
