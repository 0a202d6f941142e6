-- ===== src/ApiKeys/Service/Change.antt =====
-- api-keys/service.ts: updating keys.
use Prim.Native.String
use appport_services.Common.{
  ℕ, zero, suc, ◌+◌, String, Bool, true, false, ◌||◌, Option, none, some, List, [], ◌∷◌, ◌++◌,
  is_blank, is_some, or_default, if◌then◌else◌,
}
use appport_services.Common.Json.{Json}
use appport_services.Authority.Errors.{other_error}
use appport_services.Authority.Principal.{
  VerifiedPrincipal, Caller, ActorClaims, verified, require_verified_principal, reject_caller_actor,
  resolve_tenant,
}
use appport_services.Authority.Gateway.{for_service, without_tools}
use appport_services.Authority.Gateway.Execution.{execute}
use appport_services.ApiKeys.Restrictions.{ApiKeyRestrictions, normalize_restrictions}
use appport_services.ApiKeys.Models.{ApiKey, ApiKeyView, key_updated}
use appport_services.ApiKeys.Views.{to_view, required_id}
use appport_services.ApiKeys.Service.{
  ApiKeyService, max_update_attempts, remember_local, audit, gateway, owns, assert_within_caller,
  wait_for_update_retry,
}
use appport_services.Exec.{
  Exec, pure, throw, lift, attempt, Result, ok, err, invalid, require, ◌>>=◌, ◌>>◌,
}

-- A change of a field that can be cleared: left alone, cleared (null), or set.
pub data Change {ℓ} (A : Type ℓ) : Type ℓ where
  keep_field clear_field : Change A
  set_field : A → Change A

abbrev pub changed {ℓ} : {A : Type ℓ} → Change A → Option A → Option A
changed keep_field current = current
changed clear_field current = none
changed (set_field a) current = some a

abbrev pub is_change {ℓ} : {A : Type ℓ} → Change A → Bool
is_change keep_field = false
is_change clear_field = true
is_change (set_field _) = true

pub record Changes : Type 0 where
  pub name : Option String
  pub restrictions : Change ApiKeyRestrictions
  pub expires_at : Change ℕ

-- `Object.keys(changes).sort()`.
unfoldable pub changed_fields : Changes → List String
changed_fields c =
    (if is_change c.expires_at then "expiresAt" ∷ [] else [])
    ++ ((if is_some c.name then "name" ∷ [] else [])
        ++ (if is_change c.restrictions then "restrictions" ∷ [] else []))

-- The record that an update puts in place of `current`.
unfoldable pub apply_changes : ApiKey → Changes → String → ℕ → ApiKey
apply_changes current changes by now = record current {
  name = or_default changes.name current.name;
  restrictions = changed changes.restrictions current.restrictions;
  expires_at = changed changes.expires_at current.expires_at;
  updated_at = some now;
  updated_by = some by;
}

pub record UpdateApiKeyInput : Type 0 where
  pub claims : ActorClaims
  pub tenant_id : Option String
  pub id : String
  pub name : Option String
  pub restrictions : Change Json
  pub expires_at : Change (Option ℕ)

abbrev valid_name : Option String → Result (Option String)
valid_name none = ok none
valid_name (some n) =
    if is_blank n then err (invalid "name must be a non-empty string") else ok (some n)

abbrev set_result : {A : Type 0} → Result A → Result (Change A)
set_result (ok a) = ok (set_field a)
set_result (err e) = err e

abbrev restriction_change :
    (String → String → Bool) → Change Json → Result (Change ApiKeyRestrictions)
restriction_change locale_le keep_field = ok keep_field
restriction_change locale_le clear_field = ok clear_field
restriction_change locale_le (set_field v) = set_result (normalize_restrictions locale_le v)

abbrev date_change : Change (Option ℕ) → Result (Change ℕ)
date_change keep_field = ok keep_field
date_change clear_field = ok clear_field
date_change (set_field none) = err (invalid "expiresAt must be a valid date")
date_change (set_field (some t)) = ok (set_field t)

module _ {S : Type 0} (svc : ApiKeyService S) where
  -- `result.__version ?? current.__version + 1`: the record that a store returns has a version.
  abbrev after_replace :
      VerifiedPrincipal
      → Changes
      → ApiKey
      → ℕ
      → ℕ
      → Exec S (Option ApiKeyView)
      → Option ApiKey
      → Exec S (Option ApiKeyView)
  after_replace principal changes next updated_at attempt again none = do
    wait_for_update_retry svc attempt
    again
  after_replace principal changes next updated_at attempt again (some result) = do
    let updated = record next { version = result.version }
    remember_local svc updated
    audit svc key_updated updated principal.principal_id updated_at (some (changed_fields changes))
        none
    now ← svc.now
    pure (some (to_view updated now))

  abbrev check_ceiling : VerifiedPrincipal → Changes → ApiKey → Exec S (Unit {0})
  check_ceiling principal changes next =
      if is_change changes.restrictions || is_change changes.expires_at
      then assert_within_caller svc principal next.restrictions next.expires_at
      else pure tt

  unfoldable pub update_owned :
      Changes
      → VerifiedPrincipal
      → ApiKey
      → ℕ
      → Exec S (Option ApiKeyView)
      → Exec S (Option ApiKeyView)
  unfolding apply_changes
  update_owned changes principal current attempt again =
      if is_some current.revoked_at
      then throw (invalid "A revoked API key cannot be updated")
      else do
        updated_at ← svc.now
        let next = apply_changes current changes principal.principal_id updated_at
        check_ceiling principal changes next
        result ← svc.store.replace current.id current.version next
        after_replace principal changes next updated_at attempt again result

  -- One round of the loop, from the record that was read.
  unfoldable pub update_round :
      String
      → Changes
      → VerifiedPrincipal
      → ℕ
      → Exec S (Option ApiKeyView)
      → Option ApiKey
      → Exec S (Option ApiKeyView)
  unfolding update_owned owns
  update_round tenant_id changes principal attempt again none = pure none
  update_round tenant_id changes principal attempt again (some current) =
      if owns svc false tenant_id current
      then update_owned changes principal current attempt again
      else pure none

  unfoldable pub update_rounds :
      ℕ → ℕ → String → String → Changes → VerifiedPrincipal → Exec S (Option ApiKeyView)
  unfolding update_round
  update_rounds zero attempt tenant_id id changes principal = throw (
      other_error (
        String.◌++◌ "Unable to update API key "
          (String.◌++◌ id " because concurrent FeltDB updates never settled.")))
  update_rounds (suc n) attempt tenant_id id changes principal = do
    current ← svc.store.get id
    update_round tenant_id changes principal attempt
        (update_rounds n (attempt + 1) tenant_id id changes principal) current

  unfoldable pub update_api_key :
      (String → String → Bool) → UpdateApiKeyInput → Caller → Exec S (Option ApiKeyView)
  update_api_key locale_le input caller = do
    principal ← lift (require_verified_principal caller)
    lift (reject_caller_actor input.claims principal)
    tenant_id ← lift (resolve_tenant input.tenant_id principal)
    id ← lift (required_id input.id)
    name ← lift (valid_name input.name)
    restrictions ← lift (restriction_change locale_le input.restrictions)
    expires_at ← lift (date_change input.expires_at)
    lift (
        require (is_some name || is_change restrictions || is_change expires_at)
          (invalid "Nothing to update: supply name, restrictions, or expiresAt"))
    g ← lift (gateway svc)
    execute g "apikeys.update" (verified principal)
        (record { kind = "api_key"; tenant_id = tenant_id; id = some id; attributes = [] })
        (for_service "api-keys")
        (λ _. without_tools (
          update_rounds max_update_attempts 0 tenant_id id
            (record { name = name; restrictions = restrictions; expires_at = expires_at })
            principal))
