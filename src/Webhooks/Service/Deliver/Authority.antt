-- ===== src/Webhooks/Service/Deliver/Authority.antt =====
-- A delivery is sent only under its own, attested and authorized principal.
use appport_services.Common.{
  ◌≡◌, refl, ap, subst, String, true, false, ◌==◌, opt_eq, eq_iff, Option, none, some, is_some,
  truthy, or_default, Bool-cases, inl, inr,
}
use appport_services.Authority.Principal.{
  DurablePrincipal, VerifiedPrincipal, verified, by_delivery, mint_verified_principal,
  durable_claims,
}
use appport_services.Authority.Context.{ServiceExecutionContext}
use appport_services.Authority.Destination.{Url}
use appport_services.Authority.Gateway.{ServiceGateway, EffectLocals}
use appport_services.Authority.Gateway.Attest.{attest}
use appport_services.Authority.Gateway.Enforcement.{IsAuthorized, execute-needs-IsAuthorized}
use appport_services.Authority.Gateway.Attestation.{HasVoucher, attest-HasVoucher}
use appport_services.Webhooks.Models.{WebhookEndpoint, WebhookDelivery, WebhookDeliveryResult}
use appport_services.Webhooks.Service.{WebhookService, HttpRequest, HttpOutcome, audit}
use appport_services.Webhooks.Service.Endpoints.{with_ref}
use appport_services.Webhooks.Service.Deliver.{
  attempt_run_id, deliver_resource, attempt_at, attempt_delivery, send_delivery, record_attempt,
  deliver_claimed, claim_and_deliver, refuse_unattested, deliver_attested, deliver_signed,
  deliver_as, deliver_by, refuse_unsigned, refuse_anonymous, refuse_disabled,
}
use appport_services.Webhooks.Service.Settlement.{emitting_capabilities, failure_result}
use appport_services.Exec.{
  Exec, ok, handle, continue, pure, lift-cong, bind-cong, attempt-cong, ◌>>=◌, ◌>>◌,
}

-- The service with another way to the network.
abbrev pub with_sender :
    {S : Type 0} → WebhookService S → (HttpRequest → Exec S HttpOutcome) → WebhookService S
with_sender svc send = record svc { send = send }

-- What the service has established of a delivery before anything is sent.
pub record MaySend {S : Type 0} (svc : WebhookService S) (g : ServiceGateway S) (tenant_id : String)
    (delivery : WebhookDelivery) (endpoint : WebhookEndpoint) (s : S) : Type 0 where
  pub owned : opt_eq endpoint.application_id (some g.application) ≡ true
  pub enabled : is_some endpoint.disabled_at ≡ false
  pub durable : DurablePrincipal
  pub of_delivery : delivery.principal ≡ some durable
  pub of_tenant : durable.tenant_id ≡ tenant_id
  pub signed : truthy endpoint.signing_credential_ref ≡ true
  pub vouched : HasVoucher g durable emitting_capabilities s
  pub claimed : WebhookDelivery
  pub principal : VerifiedPrincipal
  pub minted :
      mint_verified_principal (durable_claims durable (attempt_run_id delivery claimed)) by_delivery
      ≡ ok principal
  pub url : Url
  pub bound : svc.network.parse_url endpoint.url ≡ some url
  pub request_id : String
  pub context : ServiceExecutionContext
  pub authorized :
      IsAuthorized g "webhooks.deliver" principal
        (deliver_resource tenant_id endpoint
          (or_default endpoint.signing_credential_ref "")
          delivery
          url.origin)
        request_id
        context

module _ {S : Type 0} (svc : WebhookService S) (g : ServiceGateway S) (tenant_id : String)
    (delivery : WebhookDelivery) (endpoint : WebhookEndpoint) where
  attempt_at-cong :
      (credential_ref : String) (principal : VerifiedPrincipal)
      (effect effect' : ServiceExecutionContext → Exec (S × EffectLocals) WebhookDeliveryResult)
      (o : Option Url) (s : S)
      → ((url : Url) (request_id : String) (context : ServiceExecutionContext)
          → o ≡ some url
          → ¬ IsAuthorized g "webhooks.deliver" principal
              (deliver_resource tenant_id endpoint credential_ref delivery url.origin)
              request_id
              context)
      → attempt_at svc g tenant_id delivery endpoint credential_ref principal effect o s
        ≡ attempt_at svc g tenant_id delivery endpoint credential_ref principal effect' o s
  unfolding attempt_at
  attempt_at-cong credential_ref principal effect effect' none s never = refl
  attempt_at-cong credential_ref principal effect effect' (some url) s never =
      execute-needs-IsAuthorized g "webhooks.deliver" (verified principal)
        (deliver_resource tenant_id endpoint credential_ref delivery url.origin)
        (with_ref (some "webhook") credential_ref) effect effect' s
        λ p request_id context e authorized. never url request_id context refl (
          subst
            (λ q.
              IsAuthorized g "webhooks.deliver" q
                (deliver_resource tenant_id endpoint credential_ref delivery url.origin) request_id
                context)
            (verified-eq e) authorized)
    where
      verified-eq : {p : VerifiedPrincipal} → verified principal ≡ verified p → p ≡ principal
      verified-eq e = cc e

  module _ (send : HttpRequest → Exec S HttpOutcome) where
    attempt_delivery-cong :
        (credential_ref : String) (principal : VerifiedPrincipal)
        (effect effect' : ServiceExecutionContext → Exec (S × EffectLocals) WebhookDeliveryResult)
        (s : S)
        → ((url : Url) (request_id : String) (context : ServiceExecutionContext)
            → svc.network.parse_url endpoint.url ≡ some url
            → ¬ IsAuthorized g "webhooks.deliver" principal
                (deliver_resource tenant_id endpoint credential_ref delivery url.origin)
                request_id
                context)
        → attempt_delivery svc g tenant_id delivery endpoint credential_ref principal effect s
          ≡ attempt_delivery
              (with_sender svc send)
              g
              tenant_id
              delivery
              endpoint
              credential_ref
              principal
              effect'
              s
    unfolding attempt_delivery
    attempt_delivery-cong credential_ref principal effect effect' s never =
        ap (λ r. handle r.0 (λ e. pure (failure_result svc.conflict_message e)) r.1)
          (attempt_at-cong credential_ref principal effect effect'
            (svc.network.parse_url endpoint.url) s never)

    deliver_claimed-cong :
        (credential_ref : String) (durable : DurablePrincipal) (o : Option WebhookDelivery) (s : S)
        → ((claimed : WebhookDelivery) (principal : VerifiedPrincipal) (url : Url)
              (request_id : String) (context : ServiceExecutionContext)
            → mint_verified_principal
                (durable_claims durable (attempt_run_id delivery claimed))
                by_delivery
              ≡ ok principal
            → svc.network.parse_url endpoint.url ≡ some url
            → ¬ IsAuthorized g "webhooks.deliver" principal
                (deliver_resource tenant_id endpoint credential_ref delivery url.origin)
                request_id
                context)
        → deliver_claimed svc g tenant_id delivery endpoint credential_ref durable o s
          ≡ deliver_claimed
              (with_sender svc send)
              g
              tenant_id
              delivery
              endpoint
              credential_ref
              durable
              o
              s
    unfolding deliver_claimed record_attempt audit
    deliver_claimed-cong credential_ref durable none s never = refl
    deliver_claimed-cong credential_ref durable (some claimed) s never =
        lift-cong
          (mint_verified_principal (durable_claims durable (attempt_run_id delivery claimed))
            by_delivery)
          (λ principal.
            attempt_delivery svc g tenant_id delivery endpoint credential_ref principal
              (send_delivery svc g endpoint credential_ref claimed)
            >>= λ result. record_attempt svc claimed result >> pure result)
          (λ principal.
            attempt_delivery (with_sender svc send) g tenant_id delivery endpoint credential_ref
              principal (send_delivery (with_sender svc send) g endpoint credential_ref claimed)
            >>= λ result. record_attempt (with_sender svc send) claimed result >> pure result)
          s
          λ principal minted.
            ap (λ r. continue r.0 (λ result. record_attempt svc claimed result >> pure result) r.1)
              (attempt_delivery-cong credential_ref principal
                (send_delivery svc g endpoint credential_ref claimed)
                (send_delivery (with_sender svc send) g endpoint credential_ref claimed) s
                λ url request_id context bound.
                  never claimed principal url request_id context minted bound)

  -- The delivery for a known durable principal, of the tenant.
  module _ (send : HttpRequest → Exec S HttpOutcome) (delivery_id : String)
      (durable : DurablePrincipal)
      (owned : opt_eq endpoint.application_id (some g.application) ≡ true)
      (enabled : is_some endpoint.disabled_at ≡ false)
      (of_delivery : delivery.principal ≡ some durable) (of_tenant : durable.tenant_id ≡ tenant_id)
      (s : S) (never : ¬ MaySend svc g tenant_id delivery endpoint s) where
    deliver_attested-cong :
        truthy endpoint.signing_credential_ref ≡ true
        → deliver_attested svc tenant_id delivery_id g delivery endpoint durable
            (or_default endpoint.signing_credential_ref "")
            s
          ≡ deliver_attested
              (with_sender svc send)
              tenant_id
              delivery_id
              g
              delivery
              endpoint
              durable
              (or_default endpoint.signing_credential_ref "")
              s
    unfolding deliver_attested claim_and_deliver refuse_unattested audit
    deliver_attested-cong signed =
        let credential_ref = or_default endpoint.signing_credential_ref "" in
        attempt-cong (attest g (some durable) emitting_capabilities)
          (λ _.
            claim_and_deliver svc tenant_id delivery_id g delivery endpoint durable credential_ref)
          (λ _.
            claim_and_deliver (with_sender svc send) tenant_id delivery_id g delivery endpoint
              durable credential_ref)
          (refuse_unattested svc tenant_id delivery_id delivery endpoint durable) s
          λ _ attested.
            bind-cong (svc.delivery_store.claim delivery_id delivery.version)
              (deliver_claimed svc g tenant_id delivery endpoint credential_ref durable)
              (deliver_claimed (with_sender svc send) g tenant_id delivery endpoint credential_ref
                durable)
              _
              λ o t.
                deliver_claimed-cong send credential_ref durable o t
                  λ claimed principal url request_id context minted bound authorized.
                    never (record {
                      owned = owned;
                      enabled = enabled;
                      durable = durable;
                      of_delivery = of_delivery;
                      of_tenant = of_tenant;
                      signed = signed;
                      vouched = attest-HasVoucher g durable emitting_capabilities s attested;
                      claimed = claimed;
                      principal = principal;
                      minted = minted;
                      url = url;
                      bound = bound;
                      request_id = request_id;
                      context = context;
                      authorized = authorized;
                    })

    deliver_signed-cong :
        deliver_signed svc tenant_id delivery_id g delivery endpoint durable
          endpoint.signing_credential_ref s
        ≡ deliver_signed
            (with_sender svc send)
            tenant_id
            delivery_id
            g
            delivery
            endpoint
            durable
            endpoint.signing_credential_ref
            s
    unfolding deliver_signed refuse_unsigned audit
    deliver_signed-cong = elim (Bool-cases (truthy endpoint.signing_credential_ref)) [
      | inl signed ↦ rw signed (deliver_attested-cong signed)
      | inr unsigned ↦ rw unsigned refl
    ]

  module _ (send : HttpRequest → Exec S HttpOutcome) (delivery_id : String) (s : S)
      (never : ¬ MaySend svc g tenant_id delivery endpoint s) where
    deliver_as-cong :
        (o : Option DurablePrincipal)
        → opt_eq endpoint.application_id (some g.application) ≡ true
        → is_some endpoint.disabled_at ≡ false
        → delivery.principal ≡ o
        → deliver_as svc tenant_id delivery_id g delivery endpoint o s
          ≡ deliver_as (with_sender svc send) tenant_id delivery_id g delivery endpoint o s
    unfolding deliver_as refuse_anonymous audit
    deliver_as-cong none owned enabled of_delivery = refl
    deliver_as-cong (some durable) owned enabled of_delivery =
        elim (Bool-cases (durable.tenant_id == tenant_id)) [
          | inl same ↦ rw same (
              deliver_signed-cong send delivery_id durable owned enabled of_delivery
                ((eq_iff durable.tenant_id tenant_id).0 same) s never)
          | inr other ↦ rw other refl
        ]

    -- What the network would answer has no influence on a delivery to an endpoint, so that nothing
    -- depends on having been sent, unless all of this holds: the endpoint is the application's,
    -- enabled and bound to a signing credential; the delivery carries a durable principal of the
    -- tenant; stored evidence attests it as the emitter or replayer of a delivery; and the gateway
    -- establishes an authorization of `webhooks.deliver`, on this delivery, destination and
    -- credential, for the principal minted from it for this attempt.
    pub delivery_is_sent_only_as_authorized :
        deliver_by svc tenant_id delivery_id g delivery endpoint s
        ≡ deliver_by (with_sender svc send) tenant_id delivery_id g delivery endpoint s
    unfolding deliver_by refuse_disabled
    delivery_is_sent_only_as_authorized =
        elim (Bool-cases (opt_eq endpoint.application_id (some g.application))) [
          | inl owned ↦ rw owned (elim (Bool-cases (is_some endpoint.disabled_at)) [
            | inl disabled ↦ rw disabled refl
            | inr enabled ↦ rw enabled (deliver_as-cong delivery.principal owned enabled refl)
          ])
          | inr other ↦ rw other refl
        ]
