-- ===== src/Webhooks/Service/Emit/Matching.antt =====
-- Where an event goes.
use appport_services.Common.{
  ℕ, ◌≡◌, refl, sym, ap, ◌∙◌, subst, String, none, some, List, [], ◌∷◌, keep,
}
use appport_services.Authority.Principal.{VerifiedPrincipal, DurablePrincipal, to_durable_principal}
use appport_services.Authority.Context.{ServiceExecutionContext}
use appport_services.Webhooks.Models.{
  WebhookEndpoint, WebhookDelivery, pending, EmitWebhookEventInput,
}
use appport_services.Webhooks.Service.{WebhookService}
use appport_services.Webhooks.Service.Emit.{
  subscribes, new_delivery, make_deliveries, announce, queue_deliveries, emit_to_endpoints,
}
use appport_services.Exec.{ok, pure, bind-ok, >>=-eq-ok, ◌>>=◌, ◌>>◌}

module _ (input : EmitWebhookEventInput) (tenant_id : String) (author : DurablePrincipal)
    (event_id : String) where
  -- A delivery as it is queued for an endpoint.
  pub record IsQueued (endpoint : WebhookEndpoint) (delivery : WebhookDelivery) : Type 0 where
    pub to : delivery.endpoint_id ≡ endpoint.id
    pub waiting : delivery.status ≡ pending
    pub unattempted : delivery.attempt_count ≡ 0
    pub of_tenant : delivery.tenant_id ≡ tenant_id
    pub of_event : delivery.event_id ≡ event_id
    pub of_type : delivery.event_type ≡ input.kind
    pub carries : delivery.payload ≡ input.payload
    pub by : delivery.principal ≡ some author

  -- One delivery for each endpoint, in their order.
  abbrev pub AreQueued : List WebhookEndpoint → List WebhookDelivery → Type 0
  AreQueued [] [] = Unit
  AreQueued (endpoint ∷ endpoints) (delivery ∷ deliveries) =
      IsQueued endpoint delivery × AreQueued endpoints deliveries
  AreQueued _ _ = ⊥

module _ {S : Type 0} (svc : WebhookService S) (input : EmitWebhookEventInput) (tenant_id : String)
    (principal : VerifiedPrincipal) (context : ServiceExecutionContext) where
  abbrev author : DurablePrincipal
  author = to_durable_principal principal none (some context.authorization.decision_id)

  new_delivery-IsQueued :
      (event_id : String) (created_at : ℕ) (endpoint : WebhookEndpoint) (id : String)
      → IsQueued input tenant_id author event_id endpoint
          (new_delivery input tenant_id principal context event_id created_at endpoint id)
  unfolding new_delivery
  new_delivery-IsQueued event_id created_at endpoint id = record {
    to = refl;
    waiting = refl;
    unattempted = refl;
    of_tenant = refl;
    of_event = refl;
    of_type = refl;
    carries = refl;
    by = refl;
  }

  make_deliveries-AreQueued :
      (event_id : String) (created_at : ℕ) (endpoints : List WebhookEndpoint) (s : S)
      (deliveries : List WebhookDelivery)
      → (make_deliveries svc
          (new_delivery input tenant_id principal context event_id created_at)
          endpoints
          s).0
        ≡ ok deliveries
      → AreQueued input tenant_id author event_id endpoints deliveries
  unfolding make_deliveries
  make_deliveries-AreQueued event_id created_at [] s deliveries h =
      let same : [] ≡ deliveries = cc h in
      subst (AreQueued input tenant_id author event_id []) same tt
  make_deliveries-AreQueued event_id created_at (endpoint ∷ rest) s deliveries h =
      let make = new_delivery input tenant_id principal context event_id created_at in
      let (id, _, h₁) =
        >>=-eq-ok svc.random_uuid
          (λ i. make_deliveries svc make rest >>= λ ds. pure (make endpoint i ∷ ds)) s h in
      let (others, made, h₂) =
        >>=-eq-ok (make_deliveries svc make rest) (λ ds. pure (make endpoint id ∷ ds)) _ h₁ in
      let same : make endpoint id ∷ others ≡ deliveries = cc h₂ in
      subst (AreQueued input tenant_id author event_id (endpoint ∷ rest)) same (
        new_delivery-IsQueued event_id created_at endpoint id,
        make_deliveries-AreQueued event_id created_at rest _ others made,
      )

  -- Deliveries were stored together and then announced, and that was all that was left to do.
  abbrev pub AreStored : List WebhookDelivery → S → Type 0
  AreStored [] final = Unit
  AreStored (delivery ∷ deliveries) final =
      (at : S) × ((svc.delivery_store.create_multiple (delivery ∷ deliveries) at).0 ≡ ok tt)
      × (final
          ≡ (announce svc tenant_id principal.principal_id (delivery ∷ deliveries)
              (svc.delivery_store.create_multiple (delivery ∷ deliveries) at).1).1)

  are_stored :
      (endpoint : WebhookEndpoint) (rest : List WebhookEndpoint) (event_id : String)
      (deliveries : List WebhookDelivery) (at final : S)
      → AreQueued input tenant_id author event_id (endpoint ∷ rest) deliveries
      → (svc.delivery_store.create_multiple deliveries at).0 ≡ ok tt
      → final
        ≡ (announce svc tenant_id principal.principal_id deliveries
            (svc.delivery_store.create_multiple deliveries at).1).1
      → AreStored deliveries final
  are_stored endpoint rest event_id [] at final q e f = tt
  are_stored endpoint rest event_id (d ∷ ds) at final q e f = (at, e, f)

  queue_deliveries-AreQueued :
      (endpoints : List WebhookEndpoint) (s : S) (deliveries : List WebhookDelivery)
      → (queue_deliveries svc input tenant_id principal context endpoints s).0 ≡ ok deliveries
      → (event_id : String) × AreQueued input tenant_id author event_id endpoints deliveries
        × AreStored deliveries
            (queue_deliveries svc input tenant_id principal context endpoints s).1
  unfolding queue_deliveries
  queue_deliveries-AreQueued [] s deliveries h =
      let same : [] ≡ deliveries = cc h in
      (
        "",
        subst (AreQueued input tenant_id author "" []) same tt,
        subst (λ ds. AreStored ds s) same tt,
      )
  queue_deliveries-AreQueued (endpoint ∷ rest) s deliveries h =
      let queued = λ (ds : List WebhookDelivery).
        svc.delivery_store.create_multiple ds
        >> (announce svc tenant_id principal.principal_id ds >> pure ds) in
      let make = λ (event_id : String) (created_at : ℕ).
        make_deliveries svc (new_delivery input tenant_id principal context event_id created_at)
          (endpoint ∷ rest) in
      let (event_id, e₁, h₁) =
        >>=-eq-ok svc.random_uuid (λ e. svc.now >>= λ c. make e c >>= queued) s h in
      let (created_at, e₂, h₂) = >>=-eq-ok svc.now (λ c. make event_id c >>= queued) _ h₁ in
      let (ds, made, h₃) = >>=-eq-ok (make event_id created_at) queued _ h₂ in
      let (_, e₄, h₄) =
        >>=-eq-ok (svc.delivery_store.create_multiple ds)
          (λ _. announce svc tenant_id principal.principal_id ds >> pure ds) _ h₃ in
      let (_, e₅, h₅) =
        >>=-eq-ok (announce svc tenant_id principal.principal_id ds) (λ _. pure ds) _ h₄ in
      let same : ds ≡ deliveries = cc h₅ in
      (
        event_id,
        subst (AreQueued input tenant_id author event_id (endpoint ∷ rest)) same
            (make_deliveries-AreQueued event_id created_at (endpoint ∷ rest) _ ds made),
        subst
            (λ x.
              AreStored x
                (queue_deliveries svc input tenant_id principal context (endpoint ∷ rest) s).1)
            same
            (are_stored endpoint rest event_id ds _ _
              (make_deliveries-AreQueued event_id created_at (endpoint ∷ rest) _ ds made) e₄
              (ap (λ r. r.1)
                (bind-ok svc.random_uuid (λ e. svc.now >>= λ c. make e c >>= queued) s e₁
                  ∙ bind-ok svc.now (λ c. make event_id c >>= queued) _ e₂
                  ∙ bind-ok (make event_id created_at) queued _ made
                  ∙ bind-ok (svc.delivery_store.create_multiple ds)
                      (λ _. announce svc tenant_id principal.principal_id ds >> pure ds) _ e₄
                  ∙ bind-ok (announce svc tenant_id principal.principal_id ds) (λ _. pure ds) _
                      e₅))),
      )

  -- The deliveries that an emission queued: those of one event to the endpoints that the store
  -- lists for the tenant and that subscribe to it.
  pub record GoToSubscribers (deliveries : List WebhookDelivery) (s : S) : Type 0 where
    pub endpoints : List WebhookEndpoint
    pub listed : (svc.endpoint_store.list tenant_id s).0 ≡ ok endpoints
    pub event_id : String
    pub queued :
        AreQueued input tenant_id author event_id
          (keep (subscribes context.application input.kind) endpoints)
          deliveries
    pub stored : AreStored deliveries (emit_to_endpoints svc input tenant_id principal context s).1

  -- An emission that returns has queued exactly one delivery for each endpoint that the store lists
  -- for the tenant and that belongs to the application of the context, is enabled and subscribes to
  -- the event, in their order: each is pending, unattempted, of one event of the given type and
  -- payload, and carries the durable principal of the caller with the decision that allowed it. If
  -- there are any, the store took them in one write, and announcing them was all that followed.
  pub emit-GoToSubscribers :
      (s : S) (deliveries : List WebhookDelivery)
      → (emit_to_endpoints svc input tenant_id principal context s).0 ≡ ok deliveries
      → GoToSubscribers deliveries s
  unfolding emit_to_endpoints
  emit-GoToSubscribers s deliveries h =
      let queue = λ (found : List WebhookEndpoint).
        queue_deliveries svc input tenant_id principal context
          (keep (subscribes context.application input.kind) found) in
      let (endpoints, listed, h₁) =
        >>=-eq-ok (svc.endpoint_store.list tenant_id)
          (λ found.
            queue_deliveries svc input tenant_id principal context
              (keep (subscribes context.application input.kind) found))
          s h in
      let (event_id, queued, stored) =
        queue_deliveries-AreQueued (keep (subscribes context.application input.kind) endpoints) _
          deliveries h₁ in
      record {
        endpoints = endpoints;
        listed = listed;
        event_id = event_id;
        queued = queued;
        stored =
            subst (AreStored deliveries)
              (sym (ap (λ r. r.1) (bind-ok (svc.endpoint_store.list tenant_id) queue s listed)))
              stored;
      }
