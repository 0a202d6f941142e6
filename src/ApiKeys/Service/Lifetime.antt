-- ===== src/ApiKeys/Service/Lifetime.antt =====
-- What rotations and issued keys can never do: outlive or exceed what they come from.
use appport_services.Common.{
  ◌<◌, ℕ, ◌+◌, ◌*◌, ◌≤◌, ◌≡◌, ◌≢◌, refl, String, true, false, Option, none, some, arith, ap, ◌∙◌,
}
use appport_services.Authority.Context.{ServiceResource}
use appport_services.Authority.Principal.{VerifiedPrincipal}
use appport_services.ApiKeys.Restrictions.{ApiKeyRestrictions, restrictions_permit}
use appport_services.ApiKeys.Restrictions.Ceiling.{permit-within}
use appport_services.ApiKeys.Models.{ApiKey, CreatedApiKey, active, revoked}
use appport_services.ApiKeys.Views.{year_10000, elapsed, key_status}
use appport_services.ApiKeys.Service.{
  ApiKeyService, within_caller_key, limiting_credential, outlives, assert_within_key,
  assert_within_credential, assert_within_caller,
}
use appport_services.ApiKeys.Service.Issue.{
  IssueInput, create_within, create_api_key_with_side_effects,
}
use appport_services.ApiKeys.Service.Rotate.{valid_until, retire}
use appport_services.Exec.{ok, >>=-eq-ok}

-- Before the year 10000 the texts of two times compare as the times do.
valid_until-least :
    (o : Option ℕ) (end t : ℕ)
    → ((u : ℕ) → o ≡ some u → u < year_10000)
    → end < year_10000
    → (t < valid_until o end → elapsed o t ≡ false) × (valid_until o end ≤ end)
unfolding valid_until
valid_until-least none end t dated soon = (λ h. refl, omega arith)
valid_until-least (some u) end t dated soon =
    let first = dated u refl in (λ h. ground arith, ground arith)

-- Where the expiry of the key, if it has one, and the end of the overlap lie before the year 10000:
-- a rotated key is never active when the key would not have been without the rotation, and never
-- once the overlap has passed; with no overlap it is revoked from the start.
pub retire-bounded :
    (current : ApiKey) (replacement by : String) (now overlap t : ℕ)
    → ((u : ℕ) → current.expires_at ≡ some u → u < year_10000)
    → now + overlap * 1000 < year_10000
    → (key_status (retire current replacement now overlap by) t ≡ active
        → key_status current t ≡ active)
      × (now + overlap * 1000 ≤ t
          → key_status (retire current replacement now overlap by) t ≢ active)
      × (key_status (retire current replacement now 0 by) t ≡ revoked)
unfolding retire key_status
retire-bounded current replacement by now overlap t dated soon =
    let earliest = valid_until-least current.expires_at (now + overlap * 1000) t dated soon in
    (λ h. ground (arith, earliest.0), λ late h. ground (arith, earliest.1), refl)

-- A key with these properties is within the ceiling of another key, and does not outlive it.
pub record IsWithinKey (caller_key : ApiKey) (restrictions : Option ApiKeyRestrictions)
    (expires_at : Option ℕ) : Type 0 where
  pub permits :
      (capability : String) (resource : ServiceResource)
      → restrictions_permit restrictions capability resource ≡ true
      → restrictions_permit caller_key.restrictions capability resource ≡ true
  pub lifetime :
      (limit : ℕ)
      → caller_key.expires_at ≡ some limit
      → (t : ℕ) × (expires_at ≡ some t) × (t ≤ limit)

outlives-false :
    (expires_at limit_at : Option ℕ) (limit : ℕ)
    → ((t : ℕ) → expires_at ≡ some t → t < year_10000)
    → outlives expires_at limit_at ≡ false
    → limit_at ≡ some limit
    → (t : ℕ) × (expires_at ≡ some t) × (t ≤ limit)
outlives-false (some t) (some l) limit dated h e =
    let first = dated t refl in (t, refl, ground arith)
outlives-false none (some l) limit dated h e = absurd (ground arith)
outlives-false o none limit dated h e = absurd (ground arith)

module _ {S : Type 0} (svc : ApiKeyService S) where
  within_caller_key-IsWithinKey :
      (caller_key : ApiKey) (restrictions : Option ApiKeyRestrictions) (expires_at : Option ℕ)
      → ((t : ℕ) → expires_at ≡ some t → t < year_10000)
      → within_caller_key svc caller_key restrictions expires_at ≡ ok tt
      → IsWithinKey caller_key restrictions expires_at
  unfolding within_caller_key
  within_caller_key-IsWithinKey caller_key restrictions expires_at dated h = record {
    permits = λ capability resource p.
        permit-within restrictions caller_key.restrictions capability resource (ground arith) p;
    lifetime =
        λ limit e. outlives-false expires_at caller_key.expires_at limit dated (ground arith) e;
  }

  assert_within_key-IsWithinKey :
      (restrictions : Option ApiKeyRestrictions) (expires_at : Option ℕ) (o : Option ApiKey) (s : S)
      → ((t : ℕ) → expires_at ≡ some t → t < year_10000)
      → (assert_within_key svc restrictions expires_at o s).0 ≡ ok tt
      → (caller_key : ApiKey) × (o ≡ some caller_key)
        × IsWithinKey caller_key restrictions expires_at
  assert_within_key-IsWithinKey restrictions expires_at none s dated h = absurd (cc h)
  assert_within_key-IsWithinKey restrictions expires_at (some k) s dated h =
      (k, refl, within_caller_key-IsWithinKey k restrictions expires_at dated h)

  assert_within_credential-IsWithinKey :
      (restrictions : Option ApiKeyRestrictions) (expires_at : Option ℕ) (id : String) (s : S)
      → ((t : ℕ) → expires_at ≡ some t → t < year_10000)
      → (assert_within_credential svc restrictions expires_at (some id) s).0 ≡ ok tt
      → (caller_key : ApiKey) × ((svc.store.get id s).0 ≡ ok (some caller_key))
        × IsWithinKey caller_key restrictions expires_at
  assert_within_credential-IsWithinKey restrictions expires_at id s dated h =
      let (o, read, h₁) =
        >>=-eq-ok (svc.store.get id) (assert_within_key svc restrictions expires_at) s h in
      let (k, found, within) = assert_within_key-IsWithinKey restrictions expires_at o _ dated h₁ in
      (k, read ∙ ap ok found, within)

  -- A caller that an API key authenticated can create a key, with no expiry or one before the year
  -- 10000, only if the store holds its own key, the new ceiling permits nothing that this key's does
  -- not, and, where this key expires, the new one does too and no later.
  pub create_within-IsWithinKey :
      (principal : VerifiedPrincipal) (input : IssueInput) (id : String) (s : S)
      (created : CreatedApiKey)
      → ((t : ℕ) → input.expires_at ≡ some t → t < year_10000)
      → limiting_credential principal ≡ some id
      → (create_within svc principal input s).0 ≡ ok created
      → (caller_key : ApiKey) × ((svc.store.get id s).0 ≡ ok (some caller_key))
        × IsWithinKey caller_key input.restrictions input.expires_at
  unfolding create_within assert_within_caller
  create_within-IsWithinKey principal input id s created dated e h =
      let (_, passed, _) =
        >>=-eq-ok (assert_within_caller svc principal input.restrictions input.expires_at)
          (λ _. create_api_key_with_side_effects svc input) s h in
      assert_within_credential-IsWithinKey input.restrictions input.expires_at id s dated
        (rw e at passed)
