-- ===== src/Webhooks/Service/Checks.antt =====
-- Webhooks in a small world: tests, and instances of the theorems on webhooks.
use Prim.Native.String
use appport_services.Common.{
  eq_iff, ◌≡◌, refl, ◌∙◌, ap, ◌≢◌, String, true, none, some, [], ◌∷◌, arith,
}
use appport_services.Common.Json.{null}
use appport_services.Authority.Principal.{DurablePrincipal}
use appport_services.Authority.Destination.Checks.{small_network, public_only}
use appport_services.Authority.Gateway.Checks.{World, granted, ann, durable_ann}
use appport_services.Authority.Gateway.Custody.Checks.{keeping_gateway}
use appport_services.Webhooks.Models.{
  WebhookEndpoint, WebhookDelivery, WebhookIntegration, pending, EmitWebhookEventInput,
  InboundWebhookRequest, InboundWebhookResult, WebhookDeliveryQuery, no_limit,
}
use appport_services.Webhooks.Service.{WebhookService, responded, timed_out}
use appport_services.Webhooks.Service.Emit.{subscribes, new_delivery, emit_to_endpoints}
use appport_services.Webhooks.Service.Emit.Matching.{GoToSubscribers, emit-GoToSubscribers}
use appport_services.Webhooks.Service.Deliveries.{CheckedQuery, delivery_query, read_rows}
use appport_services.Webhooks.Service.Deliveries.Reads.{IsOwnPage, read_rows-IsOwnPage}
use appport_services.Webhooks.Service.Deliver.{deliver_by}
use appport_services.Webhooks.Service.Deliver.Authority.{
  MaySend, with_sender, delivery_is_sent_only_as_authorized,
}
use appport_services.Webhooks.Service.Inbound.{receive_webhook}
use appport_services.Webhooks.Service.Inbound.Acceptance.{IsGenuine, receive_webhook-IsGenuine}
use appport_services.Exec.{ok, pure}
use appport_services.Webhooks.Service.{require_integration_store, gateway, audit, gateway_of}
use appport_services.Webhooks.Service.Inbound.{
  is_outside, integration_claims, accept_event, check_signature, event_record, header,
  open_envelope, receive_effect, receive_for, receive_resource, rejection_reason, signed_text,
  usable,
}
use appport_services.Authority.Principal.{mint_verified_principal, require_verified_principal}
use appport_services.Common.{is_blank}
use appport_services.Authority.Gateway.Execution.{
  execute, code_name, conclude, effective_delegation, enforce, fail_effect, failure_code_of,
  outcome_of_error, perform, record_refusal, ref_update, refusal_evidence, run, started_evidence,
  succeed,
}
use appport_services.Authority.Gateway.Authorize.{
  authorize, authorize_principal, decide, decision_matches, authorize_capability, decide_by, grant,
  settle_decision, validate_decision,
}
use appport_services.Authority.Gateway.{
  capability, assert_ownership, enforce_credential, request_for,
}
use appport_services.Authority.Manifest.{
  get_service_capability, find_capability, service_capability_manifest,
}
use appport_services.Authority.Context.{assert_execution_context, resource_uri}
use appport_services.Authority.Credentials.{credential_id, credential_reference}
use appport_services.Authority.Gateway.Custody.{
  ask, credential_tool, custody_context, failure_of_code, map_credential_failure, with_credential,
}
use appport_services.Webhooks.Signatures.{
  sign_webhook_payload, signing_secret_value, verify_webhook_signature,
}

abbrev endpoint : WebhookEndpoint
endpoint = record {
  id = "w1";
  tenant_id = "t";
  application_id = some "app";
  url = "https://hooks.example.com/in";
  events = "order.paid" ∷ [];
  signing_credential_ref = some "credential-ref:k";
  created_at = 1;
  created_by = "ann";
  disabled_at = none;
  version = 1;
}

abbrev delivery : WebhookDelivery
delivery = record {
  id = "d1";
  tenant_id = "t";
  endpoint_id = "w1";
  event_id = "e1";
  event_type = "order.paid";
  payload = null;
  status = pending;
  attempt_count = 0;
  next_attempt_at = none;
  created_at = 10;
  last_attempt_at = none;
  delivered_at = none;
  last_status_code = none;
  last_error = none;
  principal = some durable_ann;
  version = 1;
}

abbrev integration : WebhookIntegration
integration = record {
  id = "i1";
  tenant_id = "t";
  application_id = "app";
  provider = "stripe";
  principal_id = "integration:stripe";
  signing_credential_ref = "credential-ref:k";
  created_at = 1;
  created_by = "ann";
  disabled_at = none;
  version = 1;
}

-- The signature of a text under a key is the key before the text.
abbrev svc : WebhookService World
svc = record {
  endpoint_store = record {
    create = λ e. pure tt;
    get = λ id. pure (some endpoint);
    list = λ tenant_id. pure (endpoint ∷ record endpoint { id = "w2"; events = [] } ∷ []);
    disable = λ id version at. pure none;
  };
  delivery_store = record {
    create = λ d. pure tt;
    create_multiple = λ ds. pure tt;
    get = λ id. pure (some delivery);
    list = λ tenant_id endpoint_id n. pure (delivery ∷ record delivery { endpoint_id = "w9" } ∷ []);
    page = none;
    claim = λ id version. pure (some delivery);
    update_delivery = λ id version f. pure (some (f delivery));
  };
  write_audit = λ event. pure tt;
  integration_store = some (record {
    create = λ i. pure tt;
    get = λ id. pure (some integration);
    list = λ tenant_id. pure (integration ∷ []);
  });
  replay_store = some (record { accept = λ event. pure true });
  authority = some keeping_gateway;
  network = small_network;
  destination_policy = public_only;
  now = pure 10;
  random_uuid = pure "u1";
  retry_attempts = 5;
  allowed_events = none;
  inbound_tolerance_ms = 300000;
  handlers = λ provider. none;
  send = λ request. pure (responded (some 200));
  hmac = λ key body. String.◌++◌ key body;
  sha256 = λ s. s;
  stringify = λ json. "{}";
  parse_json = λ s. some null;
  parse_date = λ s. some 12;
  date_text = λ n. "date";
  conflict_message = "conflict";
}

abbrev paid : EmitWebhookEventInput
paid = record { chosen = []; tenant_id = none; kind = "order.paid"; payload = null }

-- Of the two endpoints one subscribes.
abbrev queued : WebhookDelivery
queued = new_delivery paid "t" ann granted "u1" 10 endpoint "u1"

emitted : (emit_to_endpoints svc paid "t" ann granted []).0 ≡ ok (queued ∷ [])
unfolding emit_to_endpoints subscribes audit
emitted = refl

emit-GoToSubscribers_example : GoToSubscribers svc paid "t" ann granted (queued ∷ []) []
emit-GoToSubscribers_example =
    emit-GoToSubscribers svc paid "t" ann granted [] (queued ∷ []) emitted

-- The durable principal is of another tenant.
abbrev foreign : WebhookDelivery
foreign = record delivery { principal = some (record durable_ann { tenant_id = "u" }) }

texts_differ : ◌≢◌ {A = String} "u" "t"
texts_differ e = ground (arith, (eq_iff "u" "t").1 e)

never_sent : ¬ MaySend svc keeping_gateway "t" foreign endpoint []
never_sent may =
    let same : some (record durable_ann { tenant_id = "u" }) ≡ some may.durable = may.of_delivery in
    let durable : record durable_ann { tenant_id = "u" } ≡ may.durable = cc same in
    texts_differ (ap (λ (d : DurablePrincipal). d.tenant_id) durable ∙ may.of_tenant)

delivery_is_sent_only_as_authorized_example :
    deliver_by svc "t" "d1" keeping_gateway foreign endpoint []
    ≡ deliver_by
        (with_sender svc (λ request. pure timed_out))
        "t"
        "d1"
        keeping_gateway
        foreign
        endpoint
        []
delivery_is_sent_only_as_authorized_example =
    delivery_is_sent_only_as_authorized svc keeping_gateway "t" foreign endpoint
      (λ request. pure timed_out) "d1" [] never_sent

abbrev every_delivery : WebhookDeliveryQuery
every_delivery = record {
  tenant_id = none;
  endpoint_id = none;
  status = none;
  page_limit = no_limit;
}

abbrev first_page : CheckedQuery
first_page = record { filter = record { endpoint_id = none; status = none }; limit = 50 }

checked : (delivery_query {S = World} every_delivery []).0 ≡ ok first_page
unfolding delivery_query
checked = refl

rows_read : (read_rows svc "t" first_page "app" []).0 ≡ ok (delivery ∷ [])
unfolding read_rows
rows_read = refl

read_rows-IsOwnPage_example : IsOwnPage svc "t" "app" first_page (delivery ∷ []) []
read_rows-IsOwnPage_example =
    read_rows-IsOwnPage svc "t" "app" first_page every_delivery [] [] (delivery ∷ []) tt checked
      rows_read

abbrev hook_request : InboundWebhookRequest
hook_request = record {
  integration_id = some "i1";
  headers =
      ("x-appport-event-id", "e1" ∷ [])
      ∷ ("X-AppPort-Timestamp", "date" ∷ [])
      ∷ ("x-appport-signature", "keydate.{}" ∷ [])
      ∷ ("x-appport-timestamp", "date" ∷ [])
      ∷ [];
  raw_body = some "{}";
}

abbrev accepted : InboundWebhookResult
accepted = record { accepted = true; event_id = "e1"; result = none }

received : (receive_webhook svc hook_request []).0 ≡ ok accepted
unfolding receive_webhook require_integration_store is_outside mint_verified_principal is_blank
    integration_claims gateway execute authorize capability get_service_capability
    require_verified_principal assert_ownership enforce_credential authorize_principal decide
    decision_matches request_for assert_execution_context resource_uri credential_id
    credential_reference authorize_capability decide_by grant settle_decision validate_decision ask
    credential_tool custody_context failure_of_code map_credential_failure with_credential code_name
    conclude effective_delegation enforce fail_effect failure_code_of outcome_of_error perform
    record_refusal ref_update refusal_evidence run started_evidence succeed find_capability
    service_capability_manifest accept_event check_signature event_record header open_envelope
    receive_effect receive_for receive_resource rejection_reason signed_text usable audit gateway_of
    sign_webhook_payload signing_secret_value verify_webhook_signature
received = refl

receive_webhook-IsGenuine_example : IsGenuine svc hook_request [] accepted
receive_webhook-IsGenuine_example = receive_webhook-IsGenuine svc hook_request [] accepted received
