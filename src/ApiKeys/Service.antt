-- ===== src/ApiKeys/Service.antt =====
-- api-keys/service.ts: the service over its store, its audit sink and the gateway. `S` is the
-- world with the fields of the service object in it; the two maps of the service are reached by
-- `caches` and `set_caches`. The queues that make creations and authentications wait for one
-- another are the order of the actions.
pub mod Issue
pub mod Change
pub mod Rotate
pub mod Revoke
pub mod Authenticate
pub mod Lifetime
pub mod Authenticity
pub mod Credentials
pub mod Acceptance
pub mod Checks
use appport_services.ApiKeys.Views.{iso_lt}
use appport_services.Common.{
  ℕ, zero, suc, ◌+◌, ◌-◌, ◌*◌, ◌^◌, String, Bool, true, false, not, ◌&&◌, ◌||◌, ◌==◌, opt_eq,
  Option, none, some, List, [], ◌∷◌, ◌++◌, length, drop, get, leb, ltb, is_some, truthy, present,
  or_else, or_default, if◌then◌else◌,
}
use appport_services.Authority.Errors.{
  Error, authority_error, conditional_conflict, other_error, denied, authority_unavailable,
  invalid_request, Details, no_details,
}
use appport_services.Authority.Principal.{
  VerifiedPrincipal, by_api_key, by_host, by_job, by_delivery, by_integration,
  PrincipalVerification,
}
use appport_services.Authority.Gateway.{ServiceGateway}
use appport_services.ApiKeys.Restrictions.{ApiKeyRestrictions, restrictions_within}
use appport_services.ApiKeys.Models.{
  ApiKey, ApiKeyStore, AuditSink, ApiKeyAuditType, ApiKeyAuditEvent, AuditResult, success,
}
use appport_services.ApiKeys.Secrets.{Bytes, Crypto}
use appport_services.Exec.{Exec, pure, throw, lift, Result, ok, err, invalid, require, ◌>>=◌, ◌>>◌}

-- `knownPrefixes` and `locallyCreatedKeys`: maps in the order of insertion.
pub record Caches : Type 0 where
  pub known_prefixes : List (String × String)
  pub locally_created : List (String × ApiKey)

pub record ApiKeyService (S : Type 0) : Type 0 where
  pub store : ApiKeyStore S
  pub audit_sink : AuditSink S
  pub authority : Option (ServiceGateway S)
  pub now : Exec S ℕ
  pub random_uuid : Exec S String
  pub random_hex : Exec S String
  pub random_secret : Exec S String
  pub random_salt : Exec S Bytes
  pub wait : ℕ → Exec S (Unit {0})
  pub crypto : Crypto
  pub verifier_key : Option Bytes
  pub application_id : String
  pub is_local : Bool
  pub caches : S → Caches
  pub set_caches : Caches → S → S

abbrev pub max_create_attempts : ℕ
max_create_attempts = 5

abbrev pub max_update_attempts : ℕ
max_update_attempts = 10

abbrev pub max_update_retry_delay_ms : ℕ
max_update_retry_delay_ms = 32

abbrev pub max_overlap_seconds : ℕ
max_overlap_seconds = 604800

abbrev pub max_cached_prefixes : ℕ
max_cached_prefixes = 10000

abbrev pub max_local_keys : ℕ
max_local_keys = 1000

module _ {V : Type 0} where
  -- `map.delete(k)`, `map.set(k, v)` (in place if the key is there) and `evictOldest(map, max)`.
  unfoldable pub delete_entry : String → List (String × V) → List (String × V)
  delete_entry k [] = []
  delete_entry k ((j, v) ∷ m) =
      let rest = delete_entry k m in if j == k then rest else (j, v) ∷ rest

  unfoldable pub set_entry : String → V → List (String × V) → List (String × V)
  set_entry k v [] = (k, v) ∷ []
  set_entry k v ((j, w) ∷ m) = if j == k then (k, v) ∷ m else (j, w) ∷ set_entry k v m

  unfoldable pub evict_oldest : ℕ → List (String × V) → List (String × V)
  evict_oldest most m = drop (length m - most) m

abbrev because : String → Details
because reason = record { capability = none; decision_id = none; reason = some reason }

-- `callerKey.expiresAt && (!expiresAt || expiresAt > callerKey.expiresAt)`.
abbrev pub outlives : Option ℕ → Option ℕ → Bool
outlives expires_at none = false
outlives none (some limit) = true
outlives (some t) (some limit) = iso_lt limit t

abbrev pub is_api_key : PrincipalVerification → Bool
is_api_key by_api_key = true
is_api_key by_host = false
is_api_key by_job = false
is_api_key by_delivery = false
is_api_key by_integration = false

-- The credential that limits a caller: the id of the key that authenticated it.
abbrev pub limiting_credential : VerifiedPrincipal → Option String
limiting_credential principal =
    if is_api_key principal.verified_by then present principal.credential_id else none

module _ {S : Type 0} (svc : ApiKeyService S) where
  abbrev change_caches : (Caches → Caches) → Exec S (Unit {0})
  change_caches f s = (ok tt, svc.set_caches (f (svc.caches s)) s)

  unfoldable pub remember_prefix : String → String → Exec S (Unit {0})
  unfolding delete_entry set_entry evict_oldest
  remember_prefix prefix id = change_caches (λ c. record c {
    known_prefixes =
        evict_oldest max_cached_prefixes
          (set_entry prefix id (delete_entry prefix c.known_prefixes));
  })

  unfoldable pub remember_created : ApiKey → Exec S (Unit {0})
  unfolding set_entry evict_oldest
  remember_created key =
      if svc.is_local
      then change_caches (λ c. record c {
        locally_created = evict_oldest max_local_keys (set_entry key.id key c.locally_created);
      })
      else pure tt

  -- A local copy is kept in step; tracking never starts here.
  unfoldable pub remember_local : ApiKey → Exec S (Unit {0})
  unfolding set_entry
  remember_local key = change_caches (λ c.
      if is_some (get key.id c.locally_created)
      then record c { locally_created = set_entry key.id key c.locally_created }
      else c)

  -- `waitForUpdateRetry`.
  unfoldable pub wait_for_update_retry : ℕ → Exec S (Unit {0})
  wait_for_update_retry attempt = svc.wait (
      if leb (2 ^ attempt) max_update_retry_delay_ms
      then 2 ^ attempt
      else max_update_retry_delay_ms)

  unfoldable pub audit :
      ApiKeyAuditType
      → ApiKey
      → String
      → ℕ
      → Option (List String)
      → Option String
      → Exec S (Unit {0})
  audit kind key principal_id timestamp changes related = do
    id ← svc.random_uuid
    svc.audit_sink.write (record {
      id = id;
      kind = kind;
      credential_id = key.id;
      tenant_id = key.tenant_id;
      principal_id = principal_id;
      timestamp = timestamp;
      result = success;
      changes = changes;
      related_credential_id = related;
    })

  unfoldable pub gateway : Result (ServiceGateway S)
  gateway = elim svc.authority [
    | none ↦ err (
        authority_error authority_unavailable
          "API key management has no AuthBoundry authority configured" no_details)
    | some g ↦ ok g
  ]

  -- The record belongs to this tenant and application; legacy keys, bound to no application,
  -- count only where they are allowed.
  unfoldable pub owns : Bool → String → ApiKey → Bool
  owns allow_legacy tenant_id key =
      (key.tenant_id == tenant_id)
      && (opt_eq key.application_id (some svc.application_id)
          || (allow_legacy && not (is_some key.application_id)))

  unfoldable pub within_caller_key :
      ApiKey → Option ApiKeyRestrictions → Option ℕ → Result (Unit {0})
  within_caller_key caller_key restrictions expires_at =
      if not (restrictions_within restrictions caller_key.restrictions)
      then err (
          authority_error denied
            "An API key cannot create, widen, or rotate a key broader than its own restrictions"
            (because "exceeds_credential_restrictions"))
      else if outlives expires_at caller_key.expires_at
      then err (
          authority_error denied "An API key cannot create or extend a key that outlives it"
            (because "exceeds_credential_lifetime"))
      else ok tt

  abbrev pub assert_within_key :
      Option ApiKeyRestrictions → Option ℕ → Option ApiKey → Exec S (Unit {0})
  assert_within_key restrictions expires_at none =
      throw (authority_error denied "Calling API key is unknown" (because "credential_unknown"))
  assert_within_key restrictions expires_at (some caller_key) =
      lift (within_caller_key caller_key restrictions expires_at)

  abbrev pub assert_within_credential :
      Option ApiKeyRestrictions → Option ℕ → Option String → Exec S (Unit {0})
  assert_within_credential restrictions expires_at none = pure tt
  assert_within_credential restrictions expires_at (some id) = do
    caller_key ← svc.store.get id
    assert_within_key restrictions expires_at caller_key

  -- A caller that an API key authenticated stays within the ceiling of that key.
  unfoldable pub assert_within_caller :
      VerifiedPrincipal → Option ApiKeyRestrictions → Option ℕ → Exec S (Unit {0})
  assert_within_caller principal restrictions expires_at =
      assert_within_credential restrictions expires_at (limiting_credential principal)
