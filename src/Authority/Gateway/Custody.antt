-- ===== src/Authority/Gateway/Custody.antt =====
-- authority/gateway.ts: credential custody under an execution context, `withCredential`,
-- `storeCredential` and `credentialStatus`, and the tools that an effect gets for them.
pub mod Secrecy
pub mod Entitlement
pub mod Checks
use Prim.Native.String
use Prim.Native.Char.{code}
use appport_services.Common.{
  ℕ, zero, suc, String, Bool, true, false, not, ◌&&◌, ◌||◌, ◌==◌, opt_eq, eqb, leb, Option, none,
  some, List, [], ◌∷◌, ◌++◌, get, truthy, present, or_default, is_some, includes, if◌then◌else◌,
}
use appport_services.Authority.Errors.{
  ServiceFailureCode, denied, authority_unavailable, custody_read_only, Details, Error,
  authority_error,
}
use appport_services.Authority.Context.{ServiceExecutionContext, assert_execution_context}
use appport_services.Authority.Custody.{
  SecretReference, SecretResolutionContext, ResolvedSecret, CustodyFailure, authority_failure,
  secret_failure, other_failure, CustodyResult, given, refused, CustodyAction, StoreResult,
  HostStatus, CustodyState, SecretCustodyWriteResult, SecretCustodyStatus, Vault, Credentials,
}
use appport_services.Authority.Credentials.{credential_reference}
use appport_services.Authority.Gateway.{ServiceGateway, ExecuteOptions, EffectLocals, without_tools}
use appport_services.Authority.Gateway.Execution.{code_name}
use appport_services.Exec.{Exec, pure, throw, lift, Result, ok, err, ◌>>=◌, ◌>>◌}

pub record CustodyOptions : Type 0 where
  pub purpose : String
  pub provider : Option String
  pub kind : Option String

abbrev is_lower : ℕ → Bool
is_lower c = leb b'a' c && leb c b'z'

code_rest : ℕ → String → Bool
code_rest n String.[] = true
code_rest zero (String.◌∷◌ c s) = false
code_rest (suc n) (String.◌∷◌ c s) =
    (is_lower (code c) || (leb b'0' (code c) && leb (code c) b'9') || eqb (code c) b'_')
    && code_rest n s

-- A word of lower case letters, digits and underscores, of 64 characters at most.
unfoldable pub safe_code : String → Bool
unfolding code_rest
safe_code String.[] = false
safe_code (String.◌∷◌ c s) = is_lower (code c) && code_rest 63 s

abbrev because : String → String → Details
because capability reason = record {
  capability = some capability;
  decision_id = none;
  reason = some reason;
}

unconfigured_text : String
unconfigured_text =
    "No credential custody is configured on this host, so a value cannot be stored here. Configure a SecretCustody (createServices({ credentials })), or store the credential where the host keeps credentials and attach its credential-ref."

read_only_text : Option String → String
read_only_text location =
    if truthy location
    then String.◌++◌ "This environment's credential comes from the host ("
        (String.◌++◌ (or_default location "") ") and cannot be changed here; set it there.")
    else "This host's credential custody is read-only: it resolves credentials but cannot store them. Store the value where the host keeps credentials (for example its secret manager or environment), or give createServices a SecretCustody."

-- `readOnly`, without the flag.
unfoldable pub read_only : String → Option String → Error
unfolding read_only_text
read_only capability location =
    authority_error custody_read_only (read_only_text location)
      (because capability "custody_read_only")

-- The vault of the custody, or `readOnly(capability, undefined, !this.credentials)`.
vault_or : {S : Type 0} → String → Option (Vault S) → Result (Vault S)
vault_or capability none = err (read_only capability none)
vault_or capability (some vault) = ok vault

unfoldable pub vault_of : {S : Type 0} → String → Option (Credentials S) → Result (Vault S)
unfolding unconfigured_text vault_or read_only
vault_of capability none = err (
    authority_error custody_read_only unconfigured_text (because capability "custody_unconfigured"))
vault_of capability (some credentials) = vault_or capability credentials.vault

-- The switch of `mapCredentialFailure` on the code of a SecretError.
unfoldable pub failure_of_code : String → Option String → Error
failure_of_code capability none =
    authority_error authority_unavailable "Credential custody is unavailable"
      (because capability "unknown")
failure_of_code capability (some word) =
    if includes ("secret_resolution_denied" ∷ "tenant_mismatch" ∷ "provider_mismatch" ∷ []) word
    then authority_error denied "Credential resolution denied by AuthBoundry"
        (because capability word)
    else if includes ("secret_revoked" ∷ "secret_inactive" ∷ "secret_expired" ∷ []) word
    then authority_error denied "Credential is revoked or inactive" (because capability word)
    else if word == "secret_not_found"
    then authority_error denied "Credential reference is unknown" (because capability word)
    else authority_error authority_unavailable "Credential custody is unavailable"
        (because capability word)

-- A reason that does not look like a code is dropped.
abbrev safe_reason : Option String → Option String
safe_reason none = none
safe_reason (some reason) = if safe_code reason then some reason else none

-- On the write path a ServiceAuthorityError of the host is rebuilt from its code.
unfoldable pub rebuild : String → ServiceFailureCode → Option String → Error
unfolding safe_code read_only code_name
rebuild capability custody_read_only reason = read_only capability none
rebuild capability failure reason =
    authority_error failure
      (String.◌++◌ "Credential custody refused the request (" (String.◌++◌ (code_name failure) ")"))
      (record { capability = some capability; decision_id = none; reason = safe_reason reason })

-- `mapCredentialFailure(error, capability)`.
unfoldable pub map_credential_failure : String → CustodyFailure → Error
unfolding failure_of_code
map_credential_failure capability (authority_failure failure message details) =
    authority_error failure message details
map_credential_failure capability (secret_failure word) = failure_of_code capability (some word)
map_credential_failure capability (other_failure words) = failure_of_code capability none

-- `mapCredentialFailure(error, capability, true)`.
unfoldable pub map_write_failure : String → CustodyFailure → Error
unfolding rebuild failure_of_code safe_code
map_write_failure capability (authority_failure failure message details) =
    rebuild capability failure details.reason
map_write_failure capability (secret_failure word) =
    failure_of_code capability (safe_reason (some word))
map_write_failure capability (other_failure words) = failure_of_code capability none

-- A call of the custody; a failure is thrown as `mapped` says.
told : {S A : Type 0} → (CustodyFailure → Error) → CustodyResult A → Exec S A
told mapped (given a) s = (ok a, s)
told mapped (refused failure) s = (err (mapped failure), s)

unfoldable pub ask : {S A : Type 0} → (CustodyFailure → Error) → CustodyAction S A → Exec S A
unfolding told
ask mapped action s = told mapped (action s).0 (action s).1

abbrev access_of : ServiceExecutionContext → String → SecretResolutionContext
access_of context purpose = record {
  tenant_id = context.tenant_id;
  principal_id = context.principal.principal_id;
  purpose = purpose;
  authorization_ref = some context.authorization.decision_id;
}

unfoldable pub custody_reference : String → String → CustodyOptions → SecretReference
unfolding credential_reference
custody_reference ref tenant_id options =
    record (credential_reference ref tenant_id options.provider) { kind = present options.kind }

-- The store result, with only the fields that are documented; the version starts at 1.
abbrev checked_store : String → Option ℕ → Option String → Result SecretCustodyWriteResult
checked_store capability (some (suc n)) (some stored_at) =
    ok (record { version = suc n; stored_at = stored_at })
checked_store capability _ _ = err (
    authority_error authority_unavailable "Credential custody returned an invalid store result"
      (because capability "invalid_store_result"))

unfoldable pub check_store_result : String → Option StoreResult → Result SecretCustodyWriteResult
check_store_result capability none = checked_store capability none none
check_store_result capability (some r) = checked_store capability r.version r.stored_at

-- `safeStatus`; what it throws is caught and mapped like a refusal of the host.
abbrev status_of_host : String → Option CustodyState → HostStatus → Result SecretCustodyStatus
status_of_host capability none status = err (
    map_write_failure capability (
      authority_failure authority_unavailable "Credential custody returned an invalid status"
        (record { capability = none; decision_id = none; reason = some "invalid_status" })))
status_of_host capability (some state) status = ok (record {
  state = state;
  version = status.version;
  updated_at = status.updated_at;
  location = status.location;
  writable = status.writable;
})

no_status : HostStatus
no_status = record {
  state = none;
  version = none;
  updated_at = none;
  location = none;
  writable = false;
}

unfoldable pub safe_status : String → Option HostStatus → Result SecretCustodyStatus
unfolding no_status map_write_failure
safe_status capability none = status_of_host capability none no_status
safe_status capability (some status) = status_of_host capability status.state status

abbrev is_writable : Option HostStatus → Bool
is_writable none = false
is_writable (some status) = status.writable

abbrev location_of : Option HostStatus → Option String
location_of none = none
location_of (some status) = status.location

abbrev not_authorized : ServiceExecutionContext → Error
not_authorized context =
    authority_error denied "Credential reference was not part of the authorized resource" (record {
      capability = some context.capability;
      decision_id = some context.authorization.decision_id;
      reason = some "credential_not_authorized";
    })

admit_ref : ServiceExecutionContext → String → Result ServiceExecutionContext
admit_ref context ref =
    if opt_eq (get "credentialRef" context.resource.attributes) (some ref)
    then ok context
    else err (not_authorized context)

module _ {S : Type 0} where
  store_in :
      Vault S
      → ServiceExecutionContext
      → String
      → String
      → CustodyOptions
      → Exec S SecretCustodyWriteResult
  store_in vault context ref value options =
      let reference = custody_reference ref context.tenant_id options in
      let access = access_of context options.purpose in
      do
        status ← ask (map_write_failure context.capability) (vault.status reference access)
        stored ←
            if is_writable status
            then ask (map_write_failure context.capability) (vault.store reference value access)
            else throw (read_only context.capability (location_of status))
        lift (check_store_result context.capability stored)

  status_in :
      Vault S → ServiceExecutionContext → String → CustodyOptions → Exec S SecretCustodyStatus
  status_in vault context ref options = do
    status ← ask (map_write_failure context.capability) (
        vault.status (custody_reference ref context.tenant_id options)
          (access_of context options.purpose))
    lift (safe_status context.capability status)

module _ {S : Type 0} (g : ServiceGateway S) where
  -- The context is live and was authorized for this reference.
  unfoldable pub custody_context : ServiceExecutionContext → String → Exec S ServiceExecutionContext
  unfolding admit_ref
  custody_context input ref = do
    now ← g.now
    context ← lift (assert_execution_context (some input) input.capability none now)
    lift (admit_ref context ref)

  unfoldable pub store_credential :
      ServiceExecutionContext → String → String → CustodyOptions → Exec S SecretCustodyWriteResult
  unfolding store_in vault_of
  store_credential input ref value options = do
    context ← custody_context input ref
    vault ← lift (vault_of context.capability g.credentials)
    store_in vault context ref value options

  -- The options have no kind.
  unfoldable pub credential_status :
      ServiceExecutionContext → String → CustodyOptions → Exec S SecretCustodyStatus
  unfolding status_in vault_of
  credential_status input ref options = do
    context ← custody_context input ref
    vault ← lift (vault_of context.capability g.credentials)
    status_in vault context ref (record options { kind = none })

module _ {S A : Type 0} where
  -- The host takes the material away when the callback is done, whichever way it ended; what the
  -- callback threw is thrown on as it is.
  conclude_use : (CustodyFailure → Error) → CustodyAction S (Unit {0}) → Result A → Exec S A
  unfolding ask
  conclude_use mapped conceal (ok a) s = (do ask mapped conceal; pure a) s
  conclude_use mapped conceal (err e) s = (err e, (conceal s).1)

  use_secret :
      (CustodyFailure → Error)
      → CustodyAction S (Unit {0})
      → (ResolvedSecret → Exec S A)
      → ResolvedSecret
      → Exec S A
  unfolding conclude_use
  use_secret mapped conceal callback secret s =
      conclude_use mapped conceal (callback secret s).0 (callback secret s).1

  resolve_with :
      Option (Credentials S)
      → ServiceExecutionContext
      → String
      → String
      → Option String
      → (ResolvedSecret → Exec S A)
      → Exec S A
  unfolding use_secret ask
  resolve_with none context ref purpose provider callback = throw (
      authority_error authority_unavailable "No AuthBoundry credential resolver is configured"
        (record { capability = some context.capability; decision_id = none; reason = none }))
  resolve_with (some credentials) context ref purpose provider callback =
      let reference = credential_reference ref context.tenant_id provider in
      let mapped = map_credential_failure context.capability in
      do
        secret ← ask mapped (credentials.reveal reference (access_of context purpose))
        use_secret mapped (credentials.conceal reference (access_of context purpose)) callback
            secret

  -- A context resolves only the credential that it was authorized for.
  unfoldable pub with_credential :
      ServiceGateway S
      → ServiceExecutionContext
      → String
      → String
      → Option String
      → (ResolvedSecret → Exec S A)
      → Exec S A
  unfolding resolve_with custody_context
  with_credential g input ref purpose provider callback = do
    context ← custody_context g input ref
    resolve_with g.credentials context ref purpose provider callback

-- `run`'s tools push the reference on `resolvedRefs` and then act on the world.
module _ {S : Type 0} where
  push_ref : String → Exec (S × EffectLocals) (Unit {0})
  push_ref ref s = (ok tt, (s.0, record s.1 { resolved_refs = s.1.resolved_refs ++ (ref ∷ []) }))

  keep_version : ℕ → Exec (S × EffectLocals) (Unit {0})
  keep_version version s = (ok tt, (s.0, record s.1 { stored_version = some version }))

  unfoldable pub credential_tool :
      {A : Type 0}
      → ServiceGateway S
      → ServiceExecutionContext
      → ExecuteOptions
      → String
      → String
      → (ResolvedSecret → Exec S A)
      → Exec (S × EffectLocals) A
  unfolding push_ref with_credential
  credential_tool g context options ref purpose callback = do
    push_ref ref
    without_tools (with_credential g context ref purpose options.provider callback)

  unfoldable pub store_tool :
      ServiceGateway S
      → ServiceExecutionContext
      → String
      → String
      → CustodyOptions
      → Exec (S × EffectLocals) SecretCustodyWriteResult
  unfolding push_ref keep_version store_credential
  store_tool g context ref value options = do
    push_ref ref
    result ← without_tools (store_credential g context ref value options)
    keep_version result.version
    pure result

  -- The purpose is the capability unless one is given.
  unfoldable pub status_tool :
      ServiceGateway S
      → ServiceExecutionContext
      → String
      → Option String
      → Option String
      → Exec (S × EffectLocals) SecretCustodyStatus
  unfolding push_ref credential_status
  status_tool g context ref purpose provider = do
    push_ref ref
    without_tools (
        credential_status g context ref (record {
          purpose = or_default purpose context.capability;
          provider = present provider;
          kind = none;
        }))
