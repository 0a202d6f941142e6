-- ===== src/Webhooks/Store.antt =====
-- storage/webhooks.ts: the stores of webhooks over FeltDB collections.
use appport_services.Common.{
  ℕ, String, Bool, true, false, not, ◌&&◌, ◌||◌, ◌==◌, eqb, Option, none, some, List, [], ◌∷◌, take,
  truthy, or_default, if◌then◌else◌,
}
use appport_services.Authority.Errors.{
  Error, conditional_conflict, authority_error, delivery_error, other_error,
}
use appport_services.FeltDb.{Collection}
use appport_services.Storage.Bounded.{Query, bounded_find}
use appport_services.Webhooks.Models.{
  WebhookEndpoint, WebhookDelivery, WebhookDeliveryStatus, delivering, same_status,
  WebhookIntegration, AcceptedEvent, WebhookEndpointStore, WebhookDeliveryStore,
  WebhookIntegrationStore, InboundWebhookReplayStore,
}
use appport_services.Exec.{Exec, pure, throw, attempt, ◌>>=◌}

module _ {S : Type 0} (endpoints : Collection S WebhookEndpoint) where
  unfoldable pub felt_db_endpoint_store : WebhookEndpointStore S
  felt_db_endpoint_store = record {
    create = λ endpoint. endpoints.insert_absent endpoint.id endpoint;
    get = endpoints.get;
    list = λ tenant_id. endpoints.find (λ endpoint. endpoint.tenant_id == tenant_id);
    disable = λ id version disabled_at.
        endpoints.update_if_version id version
          (λ stored. record stored { disabled_at = some disabled_at });
  }

abbrev of_endpoint : Option String → WebhookDelivery → Bool
of_endpoint endpoint_id delivery =
    not (truthy endpoint_id) || (delivery.endpoint_id == or_default endpoint_id "")

abbrev of_status : Option WebhookDeliveryStatus → WebhookDelivery → Bool
of_status none delivery = true
of_status (some status) delivery = same_status delivery.status status

-- `limit ? results.slice(0, limit) : results`.
abbrev limited : Option ℕ → List WebhookDelivery → List WebhookDelivery
limited none rows = rows
limited (some n) rows = if eqb n 0 then rows else take n rows

-- The update of a claim.
unfoldable pub claim_update : ℕ → WebhookDelivery → WebhookDelivery
claim_update now stored = record stored { status = delivering; last_attempt_at = some now }

-- `insert_all` is one transaction of insertions with `requireAbsent`, `clock` the system's clock,
-- and `query` FeltDB's bounded query.
module _ {S : Type 0} (deliveries : Collection S WebhookDelivery)
    (insert_all : List WebhookDelivery → Exec S (Unit {0})) (clock : Exec S ℕ)
    (query : Query S WebhookDelivery) (rounds : ℕ) where
  create_all : List WebhookDelivery → Exec S (Unit {0})
  create_all [] = pure tt
  create_all (delivery ∷ rest) = insert_all (delivery ∷ rest)

  unfoldable pub claim_delivery : String → ℕ → Exec S (Option WebhookDelivery)
  claim_delivery id version = do
    now ← clock
    deliveries.update_if_version id version (claim_update now)

  unfoldable pub felt_db_delivery_store : WebhookDeliveryStore S
  unfolding create_all claim_delivery bounded_find
  felt_db_delivery_store = record {
    create = λ delivery. deliveries.insert_absent delivery.id delivery;
    create_multiple = create_all;
    get = deliveries.get;
    list = λ tenant_id endpoint_id limit. do
      rows ←
          deliveries.find
            (λ delivery. delivery.tenant_id == tenant_id && of_endpoint endpoint_id delivery)
      pure (limited limit rows);
    page = some λ tenant_id filter limit.
        bounded_find query
          (λ delivery.
            delivery.tenant_id == tenant_id
            && of_endpoint filter.endpoint_id delivery
            && of_status filter.status delivery)
          limit rounds;
    claim = claim_delivery;
    update_delivery = deliveries.update_if_version;
  }

module _ {S : Type 0} (integrations : Collection S WebhookIntegration) where
  unfoldable pub felt_db_integration_store : WebhookIntegrationStore S
  felt_db_integration_store = record {
    create = λ integration. integrations.insert_absent integration.id integration;
    get = integrations.get;
    list = λ tenant_id. integrations.find (λ integration. integration.tenant_id == tenant_id);
  }

module _ {S : Type 0} (events : Collection S AcceptedEvent) where
  abbrev already_accepted : Error → Exec S Bool
  already_accepted conditional_conflict = pure false
  already_accepted (authority_error code message details) =
      throw (authority_error code message details)
  already_accepted (delivery_error message code) = throw (delivery_error message code)
  already_accepted (other_error message) = throw (other_error message)

  -- Only an insertion that succeeds accepts an event; a conflict is an event accepted before.
  unfoldable pub accept : AcceptedEvent → Exec S Bool
  accept event = attempt (events.insert_absent event.id event) (λ _. pure true) already_accepted

  unfoldable pub felt_db_replay_store : InboundWebhookReplayStore S
  unfolding accept
  felt_db_replay_store = record { accept = accept }
