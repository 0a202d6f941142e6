-- ===== src/ApiKeys/Service/Revoke.antt =====
-- api-keys/service.ts: revoking one key or all of them, and the reads.
use Prim.Native.String
use appport_services.Common.{
  ℕ, zero, suc, ◌+◌, String, Bool, true, false, not, ◌&&◌, ◌||◌, ◌==◌, Option, none, some, List, [],
  ◌∷◌, is_blank, is_some, map, keep, includes, ltb, eqb, or_default, if◌then◌else◌,
}
use appport_services.Common.Sorting.{sort_by}
use appport_services.Authority.Errors.{other_error}
use appport_services.Authority.Principal.{
  Caller, ActorClaims, verified, require_verified_principal, reject_caller_actor, resolve_tenant,
}
use appport_services.Authority.Gateway.{for_service, without_tools}
use appport_services.Authority.Gateway.Execution.{execute}
use appport_services.ApiKeys.Models.{ApiKey, ApiKeyView, ApiKeyAuditEvent, key_revoked}
use appport_services.ApiKeys.Views.{
  to_view, ApiKeyListOptions, list_query, page, matching_keys, created_le, to_audit_view,
}
use appport_services.ApiKeys.Service.{
  ApiKeyService, max_update_attempts, remember_local, audit, gateway, owns, wait_for_update_retry,
}
use appport_services.Exec.{Exec, pure, throw, lift, Result, ok, err, invalid, require, ◌>>=◌, ◌>>◌}

-- `createdBy` and `revokedBy` in the input of a revocation.
pub record RevokeApiKeyInput : Type 0 where
  pub claims : ActorClaims
  pub tenant_id : Option String
  pub id : String

pub record RevokeAllApiKeysInput : Type 0 where
  pub claims : ActorClaims
  pub tenant_id : Option String
  pub created_by : Option String

pub record ApiKeyAuditQuery : Type 0 where
  pub tenant_id : Option String
  pub credential_id : Option String
  pub limit : Option ℕ
  pub after : Option String

abbrev pub default_audit_page_size : ℕ
default_audit_page_size = 100

-- The record of a revoked key as the service goes on with it.
unfoldable pub revoked_copy : ApiKey → ℕ → String → ℕ → ApiKey
revoked_copy current revoked_at by version = record current {
  revoked_at = some revoked_at;
  revoked_by = some by;
  version = version;
}

abbrev event_le : (String → String → Bool) → ApiKeyAuditEvent → ApiKeyAuditEvent → Bool
event_le locale_le a b =
    ltb a.timestamp b.timestamp || (eqb a.timestamp b.timestamp && locale_le a.id b.id)

module _ {S : Type 0} (svc : ApiKeyService S) where
  abbrev after_revoke :
      ApiKey
      → ℕ
      → String
      → ℕ
      → Exec S (Option ApiKeyView)
      → Option ApiKey
      → Exec S (Option ApiKeyView)
  after_revoke current revoked_at by attempt again none = do
    wait_for_update_retry svc attempt
    again
  after_revoke current revoked_at by attempt again (some result) = do
    let updated = revoked_copy current revoked_at by result.version
    audit svc key_revoked updated by revoked_at none none
    remember_local svc updated
    now ← svc.now
    pure (some (to_view updated now))

  unfoldable pub revoke_owned :
      String → ApiKey → ℕ → Exec S (Option ApiKeyView) → Exec S (Option ApiKeyView)
  unfolding revoked_copy
  revoke_owned by current attempt again =
      if is_some current.revoked_at
      then (do now ← svc.now; pure (some (to_view current now)))
      else do
        revoked_at ← svc.now
        result ← svc.store.revoke current.id current.version revoked_at by
        after_revoke current revoked_at by attempt again result

  unfoldable pub revoke_round :
      String → String → ℕ → Exec S (Option ApiKeyView) → Option ApiKey → Exec S (Option ApiKeyView)
  unfolding revoke_owned owns
  revoke_round tenant_id by attempt again none = pure none
  revoke_round tenant_id by attempt again (some current) =
      if owns svc true tenant_id current then revoke_owned by current attempt again else pure none

  unfoldable pub revoke_rounds : ℕ → ℕ → String → String → String → Exec S (Option ApiKeyView)
  unfolding revoke_round
  revoke_rounds zero attempt tenant_id id by = throw (
      other_error (
        String.◌++◌ "Unable to revoke API key "
          (String.◌++◌ id " because concurrent FeltDB updates never settled.")))
  revoke_rounds (suc n) attempt tenant_id id by = do
    current ← svc.store.get id
    revoke_round tenant_id by attempt (revoke_rounds n (attempt + 1) tenant_id id by) current

  unfoldable pub revoke_api_key : RevokeApiKeyInput → Caller → Exec S (Option ApiKeyView)
  revoke_api_key input caller = do
    principal ← lift (require_verified_principal caller)
    lift (reject_caller_actor input.claims principal)
    tenant_id ← lift (resolve_tenant input.tenant_id principal)
    g ← lift (gateway svc)
    execute g "apikeys.revoke" (verified principal)
        (record { kind = "api_key"; tenant_id = tenant_id; id = some input.id; attributes = [] })
        (for_service "api-keys")
        (λ _.
          without_tools
            (revoke_rounds max_update_attempts 0 tenant_id input.id principal.principal_id))

  abbrev created_by_fits : Option String → String → Bool
  created_by_fits none actual = true
  created_by_fits (some wanted) actual = actual == wanted

  -- The keys that a mass revocation goes through.
  unfoldable pub revocation_candidates :
      (String → String → Bool) → String → Option String → List ApiKey → List ApiKey
  unfolding owns
  revocation_candidates locale_le tenant_id created_by keys = sort_by (created_le locale_le) (
      keep (λ key. created_by_fits created_by key.created_by)
        (keep (λ key. owns svc true tenant_id key && not (is_some key.revoked_at)) keys))

  abbrev add_revoked : Option ApiKeyView → List String → List String
  add_revoked none ids = ids
  add_revoked (some view) ids = view.id ∷ ids

  unfoldable pub revoke_each : String → String → List ApiKey → Exec S (List String)
  unfolding revoke_rounds
  revoke_each tenant_id by [] = pure []
  revoke_each tenant_id by (key ∷ rest) = do
    result ← revoke_rounds max_update_attempts 0 tenant_id key.id by
    ids ← revoke_each tenant_id by rest
    pure (add_revoked result ids)

  unfoldable pub revoke_all_api_keys :
      (String → String → Bool) → RevokeAllApiKeysInput → Caller → Exec S (List String)
  revoke_all_api_keys locale_le input caller = do
    principal ← lift (require_verified_principal caller)
    lift (reject_caller_actor input.claims principal)
    tenant_id ← lift (resolve_tenant input.tenant_id principal)
    lift (
        require (not (is_blank_option input.created_by))
          (invalid "createdBy must be a non-empty string"))
    g ← lift (gateway svc)
    execute g "apikeys.revoke" (verified principal)
        (record {
          kind = "api_key";
          tenant_id = tenant_id;
          id = none;
          attributes = ("createdBy", or_default input.created_by "*") ∷ [];
        })
        (for_service "api-keys")
        (λ _. without_tools (do
          keys ← svc.store.list tenant_id
          revoke_each tenant_id principal.principal_id
              (revocation_candidates locale_le tenant_id input.created_by keys)))
    where
      is_blank_option : Option String → Bool
      is_blank_option none = false
      is_blank_option (some s) = is_blank s

  -- Without options: every key of the tenant. With options: this application's, filtered and paged.
  unfoldable pub list_api_keys :
      (String → String → Bool) → String → Option ApiKeyListOptions → Exec S (List ApiKeyView)
  list_api_keys locale_le tenant_id options = do
    items ← svc.store.list tenant_id
    now ← svc.now
    elim options [
      | none ↦ pure (map (λ item. to_view item now) items)
      | some given ↦ do
        query ← lift (list_query given)
        pure (
            map (λ item. to_view item now)
              (page (λ key. key.id) (matching_keys locale_le svc.application_id query now items)
                query.after query.limit))
    ]

  abbrev view_in_tenant : String → Option ApiKey → Exec S (Option ApiKeyView)
  view_in_tenant tenant_id none = pure none
  view_in_tenant tenant_id (some key) =
      if key.tenant_id == tenant_id
      then (do now ← svc.now; pure (some (to_view key now)))
      else pure none

  unfoldable pub get_api_key : String → String → Exec S (Option ApiKeyView)
  get_api_key tenant_id id = do key ← svc.store.get id; view_in_tenant tenant_id key

  abbrev credential_fits : Option String → String → Bool
  credential_fits none actual = true
  credential_fits (some wanted) actual = actual == wanted

  -- The events of a tenant that a caller sees: those of this application's keys.
  unfoldable pub visible_events :
      (String → String → Bool)
      → String
      → Option String
      → List ApiKey
      → List ApiKeyAuditEvent
      → List ApiKeyAuditEvent
  unfolding owns
  visible_events locale_le tenant_id credential_id keys events =
      let owned = map (λ (k : ApiKey). k.id) (keep (owns svc false tenant_id) keys) in
      sort_by (event_le locale_le) (
        keep (λ e. credential_fits credential_id e.credential_id)
          (keep (λ e. (e.tenant_id == tenant_id) && includes owned e.credential_id) events))

  abbrev optional_id : Option String → Result (Option String)
  optional_id none = ok none
  optional_id (some id) = if is_blank id then err (invalid "id is required") else ok (some id)

  unfoldable pub list_api_key_audit_events :
      (String → String → Bool) → ApiKeyAuditQuery → Caller → Exec S (List ApiKeyAuditEvent)
  list_api_key_audit_events locale_le query caller = do
    principal ← lift (require_verified_principal caller)
    tenant_id ← lift (resolve_tenant query.tenant_id principal)
    credential_id ← lift (optional_id query.credential_id)
    bounds ← lift (
        list_query (record {
          status = none;
          created_by = none;
          limit = some (or_default query.limit default_audit_page_size);
          after = query.after;
        }))
    g ← lift (gateway svc)
    execute g "apikeys.audit" (verified principal)
        (record { kind = "api_key"; tenant_id = tenant_id; id = credential_id; attributes = [] })
        (for_service "api-keys")
        (λ _. without_tools (elim svc.audit_sink.list [
          | none ↦ throw (invalid "The configured API key audit sink does not support reads")
          | some read ↦ do
            keys ← svc.store.list tenant_id
            events ← read tenant_id
            pure (
                map to_audit_view (
                  page (λ e. e.id) (visible_events locale_le tenant_id credential_id keys events)
                    bounds.after bounds.limit))
        ]))
