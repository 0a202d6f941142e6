-- ===== src/ApiKeys/Service/Issue.antt =====
-- api-keys/service.ts: creating keys.
use Prim.Native.String
use appport_services.Common.{
  ℕ, zero, suc, String, Bool, false, Option, none, some, [], ◌∷◌, is_blank, present, if◌then◌else◌,
}
use appport_services.Authority.Errors.{
  Error, authority_error, delivery_error, conditional_conflict, other_error,
}
use appport_services.Authority.Principal.{
  VerifiedPrincipal, Caller, ActorClaims, verified, require_verified_principal, reject_caller_actor,
  resolve_tenant, migration_error,
}
use appport_services.Authority.Gateway.{for_service, without_tools}
use appport_services.Authority.Gateway.Execution.{execute}
use appport_services.ApiKeys.Restrictions.{ApiKeyRestrictions, normalize_restrictions}
use appport_services.ApiKeys.Models.{ApiKey, CreatedApiKey, key_created}
use appport_services.ApiKeys.Secrets.{Bytes, hash_secret}
use appport_services.ApiKeys.Service.{
  ApiKeyService, max_create_attempts, remember_prefix, remember_created, audit, gateway,
  assert_within_caller,
}
use appport_services.Common.Json.{Json}
use appport_services.Exec.{Exec, pure, throw, lift, attempt, Result, ok, err, invalid, ◌>>=◌, ◌>>◌}

pub record IssueInput : Type 0 where
  pub tenant_id : String
  pub name : String
  pub restrictions : Option ApiKeyRestrictions
  pub expires_at : Option ℕ
  pub created_by : String
  pub rotated_from : Option String

-- A date is `none` in `some none` where the value given is no valid date.
pub record CreateApiKeyInput : Type 0 where
  pub tenant_id : Option String
  pub name : String
  pub has_scopes : Bool
  pub restrictions : Option Json
  pub expires_at : Option (Option ℕ)
  pub created_by : Option String

-- `isoDate`, on a value that may be left out.
unfoldable pub optional_date : Option (Option ℕ) → Result (Option ℕ)
optional_date none = ok none
optional_date (some none) = err (invalid "expiresAt must be a valid date")
optional_date (some (some t)) = ok (some t)

abbrev some_restrictions : Result ApiKeyRestrictions → Result (Option ApiKeyRestrictions)
some_restrictions (ok r) = ok (some r)
some_restrictions (err e) = err e

-- `input.restrictions === undefined ? undefined : normalizeRestrictions(input.restrictions)`.
unfoldable pub optional_restrictions :
    (String → String → Bool) → Option Json → Result (Option ApiKeyRestrictions)
optional_restrictions locale_le none = ok none
optional_restrictions locale_le (some v) = some_restrictions (normalize_restrictions locale_le v)

module _ {S : Type 0} (svc : ApiKeyService S) where
  -- The record and the secret that `issue` makes of what it draws.
  unfoldable pub issued_key : IssueInput → String → String → String → Bytes → ℕ → ApiKey × String
  issued_key input hex random id salt created_at =
      let prefix = String.◌++◌ "app_live_" hex in
      let secret = String.◌++◌ prefix (String.◌++◌ "_" random) in
      (
        record {
          id = id;
          tenant_id = input.tenant_id;
          application_id = some svc.application_id;
          name = input.name;
          key_prefix = prefix;
          secret_hash = hash_secret svc.crypto secret svc.verifier_key salt;
          scopes = [];
          restrictions = input.restrictions;
          created_at = created_at;
          expires_at = input.expires_at;
          revoked_at = none;
          revoked_by = none;
          last_used_at = none;
          updated_at = none;
          updated_by = none;
          rotated_from = present input.rotated_from;
          rotated_to = none;
          rotated_at = none;
          created_by = input.created_by;
          version = 1;
        },
        secret,
      )

  -- A new record and its secret, which is shown once. Nothing is stored here.
  unfoldable pub issue : IssueInput → Exec S (ApiKey × String)
  unfolding issued_key
  issue input = do
    hex ← svc.random_hex
    random ← svc.random_secret
    id ← svc.random_uuid
    salt ← svc.random_salt
    created_at ← svc.now
    pure (issued_key input hex random id salt created_at)

  abbrev announce : IssueInput → ApiKey → String → Exec S CreatedApiKey
  announce input key secret = do
    remember_prefix svc key.key_prefix key.id
    remember_created svc key
    audit svc key_created key input.created_by key.created_at none none
    pure (record { id = key.id; name = key.name; prefix = key.key_prefix; secret = secret })

  abbrev retry_conflict : {A : Type 0} → Exec S A → Error → Exec S A
  retry_conflict again conditional_conflict = again
  retry_conflict again (delivery_error message code) = throw (delivery_error message code)
  retry_conflict again (authority_error code message details) =
      throw (authority_error code message details)
  retry_conflict again (other_error message) = throw (other_error message)

  -- One round of the loop; a conflict of any of its writes starts the next one.
  unfoldable pub create_round : IssueInput → Exec S CreatedApiKey → Exec S CreatedApiKey
  create_round input again = do
    (key, secret) ← issue input
    attempt (do svc.store.create key; announce input key secret) pure (retry_conflict again)

  unfoldable pub create_rounds : ℕ → IssueInput → Exec S CreatedApiKey
  unfolding create_round
  create_rounds zero input =
      throw (other_error "Unable to create a unique API key after repeated FeltDB conflicts.")
  create_rounds (suc n) input = create_round input (create_rounds n input)

  unfoldable pub create_api_key_with_side_effects : IssueInput → Exec S CreatedApiKey
  unfolding create_rounds
  create_api_key_with_side_effects input =
      if is_blank input.name
      then throw (invalid "name must be a non-empty string")
      else create_rounds max_create_attempts input

  -- What runs once AuthBoundry has allowed the creation.
  unfoldable pub create_within : VerifiedPrincipal → IssueInput → Exec S CreatedApiKey
  create_within principal input = do
    assert_within_caller svc principal input.restrictions input.expires_at
    create_api_key_with_side_effects input

  unfoldable pub create_api_key :
      (String → String → Bool) → CreateApiKeyInput → Caller → Exec S CreatedApiKey
  create_api_key locale_le input caller =
      if input.has_scopes
      then throw (
          migration_error
            "API key scopes are no longer authority. Old: API key + scopes -> service authority. New: API key -> identity; AuthBoundry -> authorization. Create the key without scopes and grant capabilities in AuthBoundry.")
      else do
        principal ← lift (require_verified_principal caller)
        lift (reject_caller_actor (claims input.created_by) principal)
        tenant_id ← lift (resolve_tenant input.tenant_id principal)
        restrictions ← lift (optional_restrictions locale_le input.restrictions)
        expires_at ← lift (optional_date input.expires_at)
        g ← lift (gateway svc)
        execute g "apikeys.create" (verified principal)
            (record { kind = "api_key"; tenant_id = tenant_id; id = none; attributes = [] })
            (for_service "api-keys")
            (λ _. without_tools (
              create_within principal (record {
                tenant_id = tenant_id;
                name = input.name;
                restrictions = restrictions;
                expires_at = expires_at;
                created_by = principal.principal_id;
                rotated_from = none;
              })))
    where
      claims : Option String → ActorClaims
      claims none = record { actors = []; has_principal = false; scopes = none }
      claims (some by) = record {
        actors = ("createdBy", by) ∷ [];
        has_principal = false;
        scopes = none;
      }
