-- ===== src/ApiKeys/Service/Rotate.antt =====
-- api-keys/service.ts: rotating keys.
use Prim.Native.String
use appport_services.Common.{
  ℕ, zero, suc, ◌+◌, ◌*◌, String, false, not, Option, none, some, [], truthy, leb, eqb, or_default,
  if◌then◌else◌,
}
use appport_services.Authority.Errors.{
  Error, authority_error, delivery_error, conditional_conflict, other_error,
}
use appport_services.Authority.Principal.{
  VerifiedPrincipal, Caller, ActorClaims, verified, require_verified_principal, reject_caller_actor,
  resolve_tenant,
}
use appport_services.Authority.Gateway.{for_service, without_tools}
use appport_services.Authority.Gateway.Execution.{execute}
use appport_services.ApiKeys.Models.{
  ApiKey, ApiKeyStatus, active, expired, revoked, RotatedApiKey, key_created, key_revoked,
  key_rotated,
}
use appport_services.ApiKeys.Views.{iso_lt, key_status, required_id}
use appport_services.ApiKeys.Service.{
  ApiKeyService, max_update_attempts, max_overlap_seconds, remember_prefix, remember_created,
  remember_local, audit, gateway, owns, assert_within_caller, wait_for_update_retry,
}
use appport_services.ApiKeys.Service.Issue.{issue}
use appport_services.Exec.{
  Exec, pure, throw, lift, attempt, Result, ok, err, invalid, require, ◌>>=◌, ◌>>◌,
}

-- The record that a rotation puts in place of `current`.
unfoldable pub valid_until : Option ℕ → ℕ → ℕ
valid_until none overlap_end = overlap_end
valid_until (some t) overlap_end = if iso_lt t overlap_end then t else overlap_end

unfoldable pub retire : ApiKey → String → ℕ → ℕ → String → ApiKey
unfolding valid_until
retire current replacement_id now overlap_seconds by =
    let marked = record current { rotated_to = some replacement_id; rotated_at = some now } in
    if eqb overlap_seconds 0
    then record marked { revoked_at = some now; revoked_by = some by }
    else record marked {
      expires_at = some (valid_until current.expires_at (now + overlap_seconds * 1000));
    }

pub record RotateApiKeyInput : Type 0 where
  pub claims : ActorClaims
  pub tenant_id : Option String
  pub id : String
  pub overlap_seconds : Option ℕ

module _ {S : Type 0} (svc : ApiKeyService S) where
  abbrev rotation_result : ApiKey → ApiKey → String → ℕ → RotatedApiKey
  rotation_result current replacement secret until = record {
    created = record {
      id = replacement.id;
      name = replacement.name;
      prefix = replacement.key_prefix;
      secret = secret;
    };
    replaces = current.id;
    replaced_key_valid_until = until;
  }

  abbrev retry_rotation : ℕ → Exec S (Option RotatedApiKey) → Error → Exec S (Option RotatedApiKey)
  retry_rotation attempt again conditional_conflict = do wait_for_update_retry svc attempt; again
  retry_rotation attempt again (authority_error code message details) =
      throw (authority_error code message details)
  retry_rotation attempt again (delivery_error message code) = throw (delivery_error message code)
  retry_rotation attempt again (other_error message) = throw (other_error message)

  -- What follows the commit of a rotation.
  abbrev after_rotation :
      ApiKey → ApiKey → ApiKey → String → ℕ → ℕ → String → Exec S (Option RotatedApiKey)
  after_rotation current retired replacement secret now overlap_seconds by = do
    remember_prefix svc replacement.key_prefix replacement.id
    remember_created svc replacement
    remember_local svc (record retired { version = current.version + 1 })
    audit svc key_created replacement by now none (some current.id)
    audit svc key_rotated current by now none (some replacement.id)
    if eqb overlap_seconds 0 then audit svc key_revoked current by now none none else pure tt
    pure (
        some (
          rotation_result current replacement secret (
            if eqb overlap_seconds 0
            then now
            else valid_until current.expires_at (now + overlap_seconds * 1000))))

  abbrev refuse_inactive : ApiKeyStatus → Result (Unit {0})
  refuse_inactive active = ok tt
  refuse_inactive expired = err (invalid "A expired API key cannot be rotated")
  refuse_inactive revoked = err (invalid "A revoked API key cannot be rotated")

  unfoldable pub rotate_owned :
      String
      → ℕ
      → VerifiedPrincipal
      → ApiKey
      → ℕ
      → Exec S (Option RotatedApiKey)
      → Exec S (Option RotatedApiKey)
  unfolding retire valid_until
  rotate_owned tenant_id overlap_seconds principal current attempt_no again = do
    now ← svc.now
    lift (
        require (not (truthy current.rotated_to))
          (invalid "This API key has already been rotated; rotate its replacement instead"))
    lift (refuse_inactive (key_status current now))
    assert_within_caller svc principal current.restrictions current.expires_at
    (replacement, secret) ← issue svc (record {
      tenant_id = tenant_id;
      name = current.name;
      restrictions = current.restrictions;
      expires_at = current.expires_at;
      created_by = principal.principal_id;
      rotated_from = some current.id;
    })
    let retired = retire current replacement.id now overlap_seconds principal.principal_id
    attempt (svc.store.rotate current retired replacement)
        (λ _.
          after_rotation current retired replacement secret now overlap_seconds
            principal.principal_id)
        (retry_rotation attempt_no again)

  unfoldable pub rotate_round :
      String
      → ℕ
      → VerifiedPrincipal
      → ℕ
      → Exec S (Option RotatedApiKey)
      → Option ApiKey
      → Exec S (Option RotatedApiKey)
  unfolding rotate_owned owns
  rotate_round tenant_id overlap_seconds principal attempt_no again none = pure none
  rotate_round tenant_id overlap_seconds principal attempt_no again (some current) =
      if owns svc false tenant_id current
      then rotate_owned tenant_id overlap_seconds principal current attempt_no again
      else pure none

  unfoldable pub rotate_rounds :
      ℕ → ℕ → String → String → ℕ → VerifiedPrincipal → Exec S (Option RotatedApiKey)
  unfolding rotate_round
  rotate_rounds zero attempt_no tenant_id id overlap_seconds principal = throw (
      other_error (
        String.◌++◌ "Unable to rotate API key "
          (String.◌++◌ id " because concurrent FeltDB updates never settled.")))
  rotate_rounds (suc n) attempt_no tenant_id id overlap_seconds principal = do
    current ← svc.store.get id
    rotate_round tenant_id overlap_seconds principal attempt_no
        (rotate_rounds n (attempt_no + 1) tenant_id id overlap_seconds principal) current

  unfoldable pub rotate_api_key : RotateApiKeyInput → Caller → Exec S (Option RotatedApiKey)
  rotate_api_key input caller = do
    principal ← lift (require_verified_principal caller)
    lift (reject_caller_actor input.claims principal)
    tenant_id ← lift (resolve_tenant input.tenant_id principal)
    id ← lift (required_id input.id)
    let overlap_seconds = or_default input.overlap_seconds 0
    lift (
        require (leb overlap_seconds max_overlap_seconds)
          (invalid "overlapSeconds must be an integer from 0 to 604800"))
    g ← lift (gateway svc)
    execute g "apikeys.rotate" (verified principal)
        (record { kind = "api_key"; tenant_id = tenant_id; id = some id; attributes = [] })
        (for_service "api-keys")
        (λ _.
          without_tools
            (rotate_rounds max_update_attempts 0 tenant_id id overlap_seconds principal))
