-- ===== src/ApiKeys/Service/Authenticate.antt =====
-- api-keys/service.ts: authentication, and the check that is bound to a key's principal.
use appport_services.Common.{
  ℕ, zero, suc, ◌+◌, String, not, ◌||◌, ◌==◌, opt_eq, Option, none, some, get, is_some,
  if◌then◌else◌,
}
use appport_services.Authority.Errors.{Error, authority_error, denied}
use appport_services.Authority.Context.{ServiceResource}
use appport_services.Authority.Principal.{VerifiedPrincipal, by_api_key, mint_verified_principal}
use appport_services.Authority.Gateway.{CredentialCheck}
use appport_services.ApiKeys.Restrictions.{restrictions_permit}
use appport_services.ApiKeys.Models.{
  ApiKey, ApiKeyStatus, active, expired, revoked, AuditResult, success, was_revoked, was_expired,
  invalid_secret, application_mismatch, verifier_unavailable, key_authenticated,
}
use appport_services.ApiKeys.Secrets.{
  verify_secret, parse_api_key_prefix, SecretCheck, accepted, rejected, unavailable,
}
use appport_services.ApiKeys.Views.{key_status, elapsed}
use appport_services.ApiKeys.Service.{
  ApiKeyService, max_update_attempts, remember_prefix, remember_local, wait_for_update_retry,
  delete_entry,
}
use appport_services.Exec.{Exec, pure, throw, lift, catch, attempt, Result, ok, err, ◌>>=◌, ◌>>◌}

module _ {S : Type 0} (svc : ApiKeyService S) where
  abbrev pub failure_of_check : SecretCheck → ApiKey → Option AuditResult
  failure_of_check unavailable key = some verifier_unavailable
  failure_of_check rejected key = some invalid_secret
  failure_of_check accepted key =
      if opt_eq key.application_id (some svc.application_id)
      then none
      else some application_mismatch

  unfoldable pub authentication_failure : ApiKey → String → ℕ → Option AuditResult
  authentication_failure key secret now =
      if is_some key.revoked_at
      then some was_revoked
      else if elapsed key.expires_at now
      then some was_expired
      else failure_of_check (verify_secret svc.crypto secret key.secret_hash svc.verifier_key) key

  unfoldable pub record_auth_event : ApiKey → AuditResult → ℕ → Exec S (Unit {0})
  record_auth_event key result timestamp = do
    id ← svc.random_uuid
    svc.audit_sink.write (record {
      id = id;
      kind = key_authenticated;
      credential_id = key.id;
      tenant_id = key.tenant_id;
      principal_id = key.id;
      timestamp = timestamp;
      result = result;
      changes = none;
      related_credential_id = none;
    })

  unfoldable pub record_successful_auth_event : ApiKey → ℕ → Exec S (Unit {0})
  record_successful_auth_event key timestamp =
      catch (record_auth_event key success timestamp) (λ _. pure tt)

  abbrev pub forget_local : String → Exec S (Unit {0})
  forget_local id s = (
    ok tt,
    svc.set_caches
        (record (svc.caches s) { locally_created = delete_entry id (svc.caches s).locally_created })
        s,
  )

  abbrev pub remember_indexed : String → Option ApiKey → Exec S (Option ApiKey)
  remember_indexed prefix none = pure none
  remember_indexed prefix (some key) = do remember_prefix svc prefix key.id; pure (some key)

  abbrev pub find_indexed : String → Exec S (Option ApiKey)
  find_indexed prefix = do
    indexed ← svc.store.find_by_prefix prefix
    remember_indexed prefix indexed

  -- A local copy stands in for a key that the store does not return yet, in local mode only.
  abbrev pub local_copy : String → S → Option ApiKey
  local_copy id s = if svc.is_local then get id (svc.caches s).locally_created else none

  abbrev pub use_local : String → Option ApiKey → Exec S (Option ApiKey)
  use_local prefix none = find_indexed prefix
  use_local prefix (some key) = pure (some key)

  abbrev pub use_stored : String → String → Option ApiKey → Exec S (Option ApiKey)
  use_stored prefix id none s = use_local prefix (local_copy id s) s
  use_stored prefix id (some stored) s = (forget_local id >>= λ _. pure (some stored)) s

  abbrev pub find_known : String → Option String → Exec S (Option ApiKey)
  find_known prefix none = find_indexed prefix
  find_known prefix (some id) =
      if id == ""
      then find_indexed prefix
      else do stored ← svc.store.get id; use_stored prefix id stored

  unfoldable pub find_api_key_by_prefix : String → Exec S (Option ApiKey)
  unfolding delete_entry
  find_api_key_by_prefix prefix s = find_known prefix (get prefix (svc.caches s).known_prefixes) s

  -- The identity of a key. The check that `toPrincipal` binds to it is `credential_check`.
  unfoldable pub to_principal : ApiKey → Result VerifiedPrincipal
  to_principal key =
      mint_verified_principal
        (record {
          principal_id = key.id;
          principal_type = "api_key";
          tenant_id = key.tenant_id;
          application_id = key.application_id;
          credential_id = some key.id;
          delegation_id = none;
          run_id = none;
        })
        by_api_key

  abbrev pub deny_because : String → String → String → Error
  deny_because capability reason message =
      authority_error denied message
        (record { capability = some capability; decision_id = none; reason = some reason })

  abbrev pub check_status : String → ApiKeyStatus → Result (Unit {0}) → Result (Unit {0})
  check_status capability revoked next =
      err (deny_because capability "credential_revoked" "API key has been revoked")
  check_status capability expired next =
      err (deny_because capability "credential_expired" "API key has expired")
  check_status capability active next = next

  -- The check against the record as it stands now.
  unfoldable pub check_record :
      VerifiedPrincipal → String → ServiceResource → ℕ → ApiKey → Result (Unit {0})
  check_record principal capability resource now key =
      if not (key.tenant_id == principal.tenant_id)
        || not (opt_eq key.application_id (some svc.application_id))
      then err (deny_because capability "credential_unknown" "API key is unknown")
      else check_status capability (key_status key now) (
          if restrictions_permit key.restrictions capability resource
          then ok tt
          else err (
              deny_because capability "credential_restricted"
                "API key restrictions do not permit the capability on this resource"))

  abbrev pub check_found :
      VerifiedPrincipal → String → ServiceResource → Option ApiKey → Exec S (Unit {0})
  check_found principal capability resource none =
      throw (deny_because capability "credential_unknown" "API key is unknown")
  check_found principal capability resource (some key) = do
    now ← svc.now
    lift (check_record principal capability resource now key)

  unfoldable pub credential_check : String → VerifiedPrincipal → CredentialCheck S
  credential_check key_id principal capability resource = do
    current ← svc.store.get key_id
    check_found principal capability resource current

  -- The copy of the record that a successful authentication goes on with.
  unfoldable pub used_copy : ApiKey → ApiKey → ℕ → ApiKey
  used_copy current stored now = record current {
    last_used_at = or_now stored.last_used_at;
    version = stored.version;
  }
    where
      or_now : Option ℕ → Option ℕ
      or_now none = some now
      or_now (some t) = some t

  unfoldable pub finish_authentication : ApiKey → ApiKey → ℕ → Exec S (Option VerifiedPrincipal)
  unfolding used_copy
  finish_authentication current stored now = do
    let updated = used_copy current stored now
    record_successful_auth_event updated now
    remember_local svc updated
    principal ← lift (to_principal updated)
    pure (some principal)

  abbrev pub retry_after : {A : Type 0} → ℕ → Exec S A → Exec S A
  retry_after attempt_no again = do wait_for_update_retry svc attempt_no; again

  abbrev pub after_use :
      ℕ
      → Exec S (Option VerifiedPrincipal)
      → ApiKey
      → ℕ
      → Option ApiKey
      → Exec S (Option VerifiedPrincipal)
  after_use attempt_no again current now none = retry_after attempt_no again
  after_use attempt_no again current now (some stored) = finish_authentication current stored now

  abbrev pub refuse : ApiKey → AuditResult → ℕ → Exec S (Option VerifiedPrincipal)
  refuse key failure now = do record_auth_event key failure now; pure none

  unfoldable pub use_key :
      ℕ
      → Exec S (Option VerifiedPrincipal)
      → ApiKey
      → ℕ
      → Option AuditResult
      → Exec S (Option VerifiedPrincipal)
  unfolding finish_authentication
  use_key attempt_no again current now (some failure) = refuse current failure now
  use_key attempt_no again current now none =
      attempt (svc.store.record_last_used current.id current.version now)
        (after_use attempt_no again current now) (λ _. retry_after attempt_no again)

  unfoldable pub authenticate_found :
      String
      → ℕ
      → Exec S (Option VerifiedPrincipal)
      → Option ApiKey
      → Exec S (Option VerifiedPrincipal)
  authenticate_found secret attempt_no again none = retry_after attempt_no again
  authenticate_found secret attempt_no again (some current) = do
    now ← svc.now
    use_key attempt_no again current now (authentication_failure current secret now)

  abbrev pub settle_last : ApiKey → ℕ → Option AuditResult → Exec S (Option VerifiedPrincipal)
  settle_last current now (some failure) = do
    catch (record_auth_event current failure now) (λ _. pure tt)
    pure none
  settle_last current now none = do
    record_successful_auth_event current now
    principal ← lift (to_principal current)
    pure (some principal)

  unfoldable pub last_found : String → Option ApiKey → Exec S (Option VerifiedPrincipal)
  last_found secret none = pure none
  last_found secret (some current) = do
    now ← svc.now
    settle_last current now (authentication_failure current secret now)

  -- After the last round: a last read decides; if it fails, authentication fails closed.
  unfoldable pub authenticate_last : String → String → Exec S (Option VerifiedPrincipal)
  unfolding last_found
  authenticate_last prefix secret = do
    current ← catch (find_api_key_by_prefix prefix) (λ _. pure none)
    last_found secret current

  unfoldable pub authenticate_rounds : ℕ → ℕ → String → String → Exec S (Option VerifiedPrincipal)
  unfolding authenticate_found authenticate_last use_key
  authenticate_rounds zero attempt_no prefix secret = authenticate_last prefix secret
  authenticate_rounds (suc n) attempt_no prefix secret =
      attempt (find_api_key_by_prefix prefix)
        (authenticate_found secret attempt_no
          (authenticate_rounds n (attempt_no + 1) prefix secret))
        (λ _. retry_after attempt_no (authenticate_rounds n (attempt_no + 1) prefix secret))

  abbrev pub authenticate_prefix : String → Option String → Exec S (Option VerifiedPrincipal)
  authenticate_prefix secret none = pure none
  authenticate_prefix secret (some prefix) = authenticate_rounds max_update_attempts 0 prefix secret

  unfoldable pub authenticate_api_key : String → Exec S (Option VerifiedPrincipal)
  unfolding authenticate_rounds
  authenticate_api_key secret = authenticate_prefix secret (parse_api_key_prefix secret)
