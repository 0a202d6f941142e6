-- ===== src/Webhooks/Service/Inbound/Acceptance.antt =====
-- What an inbound webhook has gone through when it is accepted.
use appport_services.Common.{
  ℕ, ◌+◌, ◌≤◌, ◌≡◌, refl, ◌∙◌, ap, subst, String, Bool, true, false, ◌==◌, eq_iff, Option, none,
  some, is_some, Bool-cases, inl, inr, arith,
}
use appport_services.Authority.Errors.{Error}
use appport_services.Authority.Principal.{
  VerifiedPrincipal, verified, by_integration, mint_verified_principal,
}
use appport_services.Authority.Context.{ServiceExecutionContext}
use appport_services.Authority.Custody.{ResolvedSecret}
use appport_services.Authority.Gateway.{ServiceGateway, EffectLocals, without_tools}
use appport_services.Authority.Gateway.Accountability.{IsAccountable, execute-IsAccountable}
use appport_services.Authority.Gateway.Custody.{credential_tool}
use appport_services.Authority.Gateway.Execution.{execute, quietly, started_evidence}
use appport_services.Authority.Gateway.Custody.Entitlement.{IsEntitled, credential_tool-IsEntitled}
use appport_services.Jobs.Models.{success, failure}
use appport_services.Webhooks.Models.{
  WebhookIntegration, WebhookIntegrationStore, InboundWebhookReplayStore, InboundWebhookRequest,
  InboundWebhookResult,
}
use appport_services.Webhooks.Signatures.{
  signing_secret_value, verify_webhook_signature, sign_webhook_payload,
}
use appport_services.Webhooks.Service.{
  WebhookService, gateway, gateway_of, audit, require_integration_store,
}
use appport_services.Webhooks.Service.Endpoints.{with_ref}
use appport_services.Webhooks.Service.Integrations.{integration_event}
use appport_services.Webhooks.Service.Inbound.{
  Envelope, because, signed_text, check_signature, event_record, accept_event, receive_effect,
  open_envelope, integration_claims, receive_resource, receive_authorized, receive_as, reject_event,
  announce_accepted, is_outside, receive_fresh, reject_stale, receive_at, receive_in_time, usable,
  unknown_integration, require_replay_store, find_integration, receive_for, receive_webhook,
  rejection_reason,
}
use appport_services.Exec.{ok, err, pure, throw, lift, require, >>=-eq-ok, catch-eq-ok, ◌>>=◌, ◌>>◌}

require-ok : (b : Bool) (e : Error) → require b e ≡ ok tt → b ≡ true
require-ok true e h = refl
require-ok false e h = cc

module _ {S : Type 0} (svc : WebhookService S) (g : ServiceGateway S)
    (replay : InboundWebhookReplayStore S) (integration : WebhookIntegration) (envelope : Envelope)
    (sent_at : ℕ) where
  -- The signature of an event that was accepted as new, with the secret that custody revealed for
  -- the integration's own reference to the effect that ran from `s` under `context`.
  pub record IsSigned (context : ServiceExecutionContext) (s : S) : Type 0 where
    pub entitled :
        IsEntitled g context integration.signing_credential_ref "webhook.verify"
          (some integration.provider)
          (check_signature svc envelope)
          s
          true
    pub key : String
    pub of_secret : signing_secret_value entitled.secret.value ≡ ok key
    pub signed : svc.hmac key (signed_text envelope) ≡ envelope.signature
    pub accepted_at : ℕ
    pub before : S
    pub accepted :
        (replay.accept (event_record svc integration envelope sent_at accepted_at) before).0
        ≡ ok true

  check_signature-ok :
      (secret : ResolvedSecret) (s : S)
      → (check_signature svc envelope secret s).0 ≡ ok true
      → (key : String) × (signing_secret_value secret.value ≡ ok key)
        × (svc.hmac key (signed_text envelope) ≡ envelope.signature)
  unfolding check_signature verify_webhook_signature sign_webhook_payload
  check_signature-ok secret s h =
      let (key, read, same) =
        >>=-eq-ok (lift (signing_secret_value secret.value))
          (λ k.
            pure (verify_webhook_signature svc.hmac k (signed_text envelope) envelope.signature))
          s h in
      let fits : (svc.hmac key (signed_text envelope) == envelope.signature) ≡ true = cc same in
      (key, read, (eq_iff (svc.hmac key (signed_text envelope)) envelope.signature).0 fits)

  accept_event-ok :
      (principal : VerifiedPrincipal) (context : ServiceExecutionContext) (s : S)
      (result : InboundWebhookResult)
      → (accept_event svc replay integration envelope sent_at principal context s).0 ≡ ok result
      → (accepted_at : ℕ) × (before : S) × ((replay.accept
            (event_record svc integration envelope sent_at accepted_at)
            before).0
          ≡ ok true)
  unfolding accept_event
  accept_event-ok principal context s result h =
      let (now, _, h₁) = >>=-eq-ok svc.now _ s h in
      let (accepted, stored, h₂) =
        >>=-eq-ok (replay.accept (event_record svc integration envelope sent_at now)) _ _ h₁ in
      let (_, required, _) =
        >>=-eq-ok
          (lift
            (require accepted (because "Inbound webhook event was already accepted" "replayed")))
          _ _ h₂ in
      (now, _, stored ∙ ap ok (require-ok accepted _ required))

  receive_effect-IsSigned :
      (principal : VerifiedPrincipal) (context : ServiceExecutionContext) (s : S × EffectLocals)
      (result : InboundWebhookResult)
      → (receive_effect svc g replay integration envelope sent_at principal context s).0 ≡ ok result
      → IsSigned context s.0
  unfolding receive_effect
  receive_effect-IsSigned principal context s result h =
      let options = with_ref (some integration.provider) integration.signing_credential_ref in
      let ref = integration.signing_credential_ref in
      let tool =
        credential_tool g context options ref "webhook.verify" (check_signature svc envelope) in
      let accepting =
        without_tools (accept_event svc replay integration envelope sent_at principal context) in
      let (valid, checked, h₁) =
        >>=-eq-ok tool
          (λ v.
            lift (require v (because "Inbound webhook signature is invalid" "invalid_signature"))
            >> accepting)
          s h in
      let (_, required, h₂) =
        >>=-eq-ok
          (lift
            (require valid (because "Inbound webhook signature is invalid" "invalid_signature")))
          (λ _. accepting) _ h₁ in
      let entitled =
        credential_tool-IsEntitled g ref "webhook.verify" (some integration.provider)
          (check_signature svc envelope) context options s valid refl checked in
      let entitled_true : IsEntitled g context ref "webhook.verify" (some integration.provider)
          (check_signature svc envelope) s.0 true =
        subst
          (IsEntitled g context ref "webhook.verify" (some integration.provider)
            (check_signature svc envelope) s.0)
          (require-ok valid _ required) entitled in
      let (key, of_secret, signed) = check_signature-ok entitled_true.secret _ entitled_true.used in
      let (accepted_at, before, accepted) = accept_event-ok principal context _ result h₂ in
      record {
        entitled = entitled_true;
        key = key;
        of_secret = of_secret;
        signed = signed;
        accepted_at = accepted_at;
        before = before;
        accepted = accepted;
      }

-- Everything that stands behind an inbound webhook that was accepted with `result`.
pub record IsGenuine {S : Type 0} (svc : WebhookService S) (request : InboundWebhookRequest)
    (start : S) (result : InboundWebhookResult) : Type 0 where
  pub replay : InboundWebhookReplayStore S
  pub of_store : svc.replay_store ≡ some replay
  pub store : WebhookIntegrationStore S
  pub of_integrations : require_integration_store svc ≡ ok store
  pub integration : WebhookIntegration
  pub found : (find_integration store request.integration_id start).0 ≡ ok (some integration)
  pub enabled : is_some integration.disabled_at ≡ false
  pub envelope : Envelope
  pub opened : open_envelope svc request ≡ ok envelope
  pub sent_at : ℕ
  pub of_header : svc.parse_date envelope.timestamp ≡ some sent_at
  pub now : ℕ
  pub clock : (svc.now (find_integration store request.integration_id start).1).0 ≡ ok now
  pub not_old : now ≤ sent_at + svc.inbound_tolerance_ms
  pub not_early : sent_at ≤ now + svc.inbound_tolerance_ms
  pub g : ServiceGateway S
  pub of_service : svc.authority ≡ some g
  pub principal : VerifiedPrincipal
  pub minted :
      mint_verified_principal (integration_claims integration) by_integration ≡ ok principal
  pub accountable :
      IsAccountable g "webhooks.receive"
        (verified principal)
        (receive_resource integration envelope)
        (with_ref (some integration.provider) integration.signing_credential_ref)
        (receive_effect svc g replay integration envelope sent_at principal)
        result
  pub signed :
      IsSigned svc g replay integration envelope sent_at accountable.context
        (g.evidence.write
          (started_evidence accountable.context
            (with_ref (some integration.provider) integration.signing_credential_ref)
            accountable.evidence.evidence_id
            accountable.started_at)
          accountable.evidence.before).1

is_outside-bounds :
    (tolerance now sent_at : ℕ)
    → is_outside tolerance now sent_at ≡ false
    → (now ≤ sent_at + tolerance) × (sent_at ≤ now + tolerance)
unfolding is_outside
is_outside-bounds tolerance now sent_at h = (ground arith, ground arith)

gateway_of-ok :
    {S : Type 0} (o : Option (ServiceGateway S)) (g : ServiceGateway S)
    → gateway_of o ≡ ok g
    → o ≡ some g
unfolding gateway_of
gateway_of-ok none g h = cc
gateway_of-ok (some g') g h = let same : g' ≡ g = cc h in ap some same

module _ {S : Type 0} (svc : WebhookService S) (request : InboundWebhookRequest) (start : S)
    (replay : InboundWebhookReplayStore S) (of_store : svc.replay_store ≡ some replay)
    (store : WebhookIntegrationStore S) (of_integrations : require_integration_store svc ≡ ok store)
    (integration : WebhookIntegration)
    (found : (find_integration store request.integration_id start).0 ≡ ok (some integration))
    (enabled : is_some integration.disabled_at ≡ false) (envelope : Envelope)
    (opened : open_envelope svc request ≡ ok envelope) where
  receive_authorized-IsGenuine :
      (sent_at now : ℕ) (principal : VerifiedPrincipal) (s : S) (result : InboundWebhookResult)
      → svc.parse_date envelope.timestamp ≡ some sent_at
      → (svc.now (find_integration store request.integration_id start).1).0 ≡ ok now
      → is_outside svc.inbound_tolerance_ms now sent_at ≡ false
      → mint_verified_principal (integration_claims integration) by_integration ≡ ok principal
      → (receive_authorized svc replay integration envelope sent_at principal s).0 ≡ ok result
      → IsGenuine svc request start result
  unfolding receive_authorized gateway
  receive_authorized-IsGenuine sent_at now principal s result of_header clock fresh minted h =
      let (g, of_service, h₁) =
        >>=-eq-ok (lift (gateway svc))
          (λ g.
            execute g "webhooks.receive" (verified principal)
              (receive_resource integration envelope)
              (with_ref (some integration.provider) integration.signing_credential_ref)
              (receive_effect svc g replay integration envelope sent_at principal))
          s h in
      let accountable =
        execute-IsAccountable g "webhooks.receive" (verified principal)
          (receive_resource integration envelope)
          (with_ref (some integration.provider) integration.signing_credential_ref)
          (receive_effect svc g replay integration envelope sent_at principal) _ result h₁ in
      let (not_old, not_early) = is_outside-bounds svc.inbound_tolerance_ms now sent_at fresh in
      record {
        replay = replay;
        of_store = of_store;
        store = store;
        of_integrations = of_integrations;
        integration = integration;
        found = found;
        enabled = enabled;
        envelope = envelope;
        opened = opened;
        sent_at = sent_at;
        of_header = of_header;
        now = now;
        clock = clock;
        not_old = not_old;
        not_early = not_early;
        g = g;
        of_service = gateway_of-ok svc.authority g of_service;
        principal = principal;
        minted = minted;
        accountable = accountable;
        signed =
            receive_effect-IsSigned svc g replay integration envelope sent_at principal
              accountable.context _ result (ap (λ r. r.0) accountable.evidence.performed);
      }

  announced :
      (principal : VerifiedPrincipal) (r result : InboundWebhookResult) (s : S)
      → (announce_accepted svc integration principal r s).0 ≡ ok result
      → r ≡ result
  unfolding announce_accepted
  announced principal r result s h =
      let (_, _, same) =
        >>=-eq-ok
          (audit svc (
            integration_event "webhook.inbound.accepted" integration principal.principal_id success
              none))
          (λ _. pure r) s h in
      cc same

  rejected :
      (e : Error) (s : S) (result : InboundWebhookResult)
      → (reject_event svc integration e s).0 ≡ ok result
      → ⊥
  unfolding reject_event
  rejected e s result h =
      let (_, _, raised) =
        >>=-eq-ok
          (quietly (
            audit svc (
              integration_event "webhook.inbound.rejected" integration integration.principal_id
                failure (some (rejection_reason e)))))
          (λ _. throw e) s h in
      cc raised

  receive_as-IsGenuine :
      (sent_at now : ℕ) (principal : VerifiedPrincipal) (s : S) (result : InboundWebhookResult)
      → svc.parse_date envelope.timestamp ≡ some sent_at
      → (svc.now (find_integration store request.integration_id start).1).0 ≡ ok now
      → is_outside svc.inbound_tolerance_ms now sent_at ≡ false
      → mint_verified_principal (integration_claims integration) by_integration ≡ ok principal
      → (receive_as svc replay integration envelope sent_at principal s).0 ≡ ok result
      → IsGenuine svc request start result
  unfolding receive_as reject_event
  receive_as-IsGenuine sent_at now principal s result of_header clock fresh minted h =
      elim (catch-eq-ok
        (receive_authorized svc replay integration envelope sent_at principal
          >>= announce_accepted svc integration principal)
        (reject_event svc integration) s h) [
          | inl returned ↦
              let (r, received, h₁) =
                >>=-eq-ok (receive_authorized svc replay integration envelope sent_at principal)
                  (announce_accepted svc integration principal) s returned in
              receive_authorized-IsGenuine sent_at now principal s result of_header clock fresh
                minted (received ∙ ap ok (announced principal r result _ h₁))
          | inr (e, raised) ↦ absurd (rejected e _ result raised)
        ]

  receive_fresh-IsGenuine :
      (sent_at now : ℕ) (s : S) (result : InboundWebhookResult)
      → svc.parse_date envelope.timestamp ≡ some sent_at
      → (svc.now (find_integration store request.integration_id start).1).0 ≡ ok now
      → is_outside svc.inbound_tolerance_ms now sent_at ≡ false
      → (receive_fresh svc replay integration envelope sent_at s).0 ≡ ok result
      → IsGenuine svc request start result
  unfolding receive_fresh
  receive_fresh-IsGenuine sent_at now s result of_header clock fresh h =
      let (principal, minted, h₁) =
        >>=-eq-ok (lift (mint_verified_principal (integration_claims integration) by_integration))
          (receive_as svc replay integration envelope sent_at) s h in
      receive_as-IsGenuine sent_at now principal _ result of_header clock fresh minted h₁

  stale-not-ok :
      (s : S) (result : InboundWebhookResult) → (reject_stale svc integration s).0 ≡ ok result → ⊥
  unfolding reject_stale
  stale-not-ok s result h =
      let (_, _, raised) =
        >>=-eq-ok
          (audit svc (
            integration_event "webhook.inbound.rejected" integration integration.principal_id
              failure (some "stale_timestamp")))
          (λ _.
            throw (
              because "Inbound webhook timestamp is outside the accepted window" "stale_timestamp"))
          s h in
      cc raised

  receive_at-IsGenuine :
      (o : Option ℕ) (result : InboundWebhookResult)
      → svc.parse_date envelope.timestamp ≡ o
      → (receive_at svc replay integration envelope o
          (find_integration store request.integration_id start).1).0
        ≡ ok result
      → IsGenuine svc request start result
  unfolding receive_at receive_in_time
  receive_at-IsGenuine none result of_header h = absurd (stale-not-ok _ result h)
  receive_at-IsGenuine (some sent_at) result of_header h =
      let (now, clock, h₁) =
        >>=-eq-ok svc.now (receive_in_time svc replay integration envelope sent_at)
          (find_integration store request.integration_id start).1 h in
      elim (Bool-cases (is_outside svc.inbound_tolerance_ms now sent_at)) [
        | inl late ↦ absurd (stale-not-ok _ result (rw late at h₁))
        | inr fresh ↦
            receive_fresh-IsGenuine sent_at now _ result of_header clock fresh (rw fresh at h₁)
      ]

usable-ok :
    (o : Option WebhookIntegration) (integration : WebhookIntegration)
    → usable o ≡ ok integration
    → (o ≡ some integration) × (is_some integration.disabled_at ≡ false)
unfolding usable
usable-ok none integration h = cc
usable-ok (some found) integration h = elim (Bool-cases (is_some found.disabled_at)) [
  | inl off ↦ let raised : err unknown_integration ≡ ok integration = rw off at h in cc raised
  | inr live ↦
      let returned : ok found ≡ ok integration = rw live at h in
      let same : found ≡ integration = cc returned in
      (ap some same, subst (λ (i : WebhookIntegration). is_some i.disabled_at ≡ false) same live)
]

require_replay_store-ok :
    {S : Type 0} (o : Option (InboundWebhookReplayStore S)) (replay : InboundWebhookReplayStore S)
    → require_replay_store o ≡ ok replay
    → o ≡ some replay
unfolding require_replay_store
require_replay_store-ok none replay h = cc
require_replay_store-ok (some r) replay h = let same : r ≡ replay = cc h in ap some same

module _ {S : Type 0} (svc : WebhookService S) (request : InboundWebhookRequest) where
  -- An inbound webhook is accepted only if it is for an enabled integration that the store holds, its
  -- time lies within the tolerance of the clock read after that lookup, its signature is the HMAC of its time and body under the signing
  -- secret that custody revealed for the integration's own credential reference, and the replay
  -- store accepted the identity of its event as new; and all of this happened under a context that
  -- was authorized for `webhooks.receive`, for the principal of the integration.
  pub receive_webhook-IsGenuine :
      (s : S) (result : InboundWebhookResult)
      → (receive_webhook svc request s).0 ≡ ok result
      → IsGenuine svc request s result
  unfolding receive_webhook receive_for
  receive_webhook-IsGenuine s result h =
      let (store, of_integrations, h₁) = >>=-eq-ok (lift (require_integration_store svc)) _ s h in
      let (replay, kept, h₂) = >>=-eq-ok (lift (require_replay_store svc.replay_store)) _ _ h₁ in
      let (o, found, h₃) = >>=-eq-ok (find_integration store request.integration_id) _ _ h₂ in
      let (integration, used, h₄) =
        >>=-eq-ok (lift (usable o)) (λ i. receive_for svc replay i request) _ h₃ in
      let (envelope, opened, h₅) =
        >>=-eq-ok (lift (open_envelope svc request))
          (λ e. receive_at svc replay integration e (svc.parse_date e.timestamp)) _ h₄ in
      let (is_found, enabled) = usable-ok o integration used in
      receive_at-IsGenuine svc request s replay
        (require_replay_store-ok svc.replay_store replay kept) store of_integrations integration
        (found ∙ ap ok is_found) enabled envelope opened (svc.parse_date envelope.timestamp) result
        refl h₅
