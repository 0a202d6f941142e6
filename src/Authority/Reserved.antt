-- ===== src/Authority/Reserved.antt =====
-- authority/reserved.ts: the collections that only the services' own paths write.
use appport_services.Common.{String, none, some, List, [], ◌∷◌, includes, if◌then◌else◌}
use appport_services.Authority.Errors.{authority_error, denied}
use appport_services.Exec.{Result, ok, err}
use Prim.Native.String

abbrev pub service_owned_collections : List String
service_owned_collections =
    "api_keys" ∷ "api_key_prefixes" ∷ "api_key_audit_events" ∷ "webhook_endpoints"
    ∷ "webhook_deliveries" ∷ "webhook_audit_events" ∷ "webhook_integrations"
    ∷ "inbound_webhook_events" ∷ "jobs" ∷ "job_schedules" ∷ "job_audit_events" ∷ "notifications"
    ∷ "notification_deliveries" ∷ "notification_audit_events" ∷ "files" ∷ "file_audit_events"
    ∷ "ConfigurationVariables" ∷ "ConfigurationSecrets" ∷ "ConfigurationAuditEvents"
    ∷ "service_effect_evidence" ∷ []

unfoldable pub assert_application_collection : String → Result (Unit {0})
assert_application_collection name =
    if includes service_owned_collections name
    then err (
        authority_error denied
          (String.◌++◌ "Collection \"" (
            String.◌++◌ name
              "\" is owned by AppPort Services; use the service capability instead of writing it directly"))
          (record { capability = none; decision_id = none; reason = some "reserved_collection" }))
    else ok tt
