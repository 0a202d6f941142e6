-- ===== src/Authority/Manifest.antt =====
-- authority/manifest.ts: the static capability table. The source sorts the table by name; the
-- order does not show in a lookup, so it is kept as written.
use appport_services.Common.{
  ℕ, String, Bool, true, false, ◌==◌, Option, none, some, List, [], ◌∷◌, if◌then◌else◌,
}

pub data ServiceEffect : Type 0 where
  consequential observation : ServiceEffect

-- `authorization.required` is always true and is left out.
pub record ServiceCapability : Type 0 where
  pub name : String
  pub version : ℕ
  pub service : String
  pub operation : String
  pub effect : ServiceEffect
  pub invocable : Bool
  pub resource : String

abbrev entry : String → String → String → ServiceEffect → String → Bool → ServiceCapability
entry name service operation effect resource invocable = record {
  name = name;
  version = 1;
  service = service;
  operation = operation;
  effect = effect;
  invocable = invocable;
  resource = resource;
}

unfoldable pub service_capability_manifest : List ServiceCapability
service_capability_manifest =
    entry "apikeys.read" "api-keys" "listApiKeys" observation "api_key" true
    ∷ entry "apikeys.create" "api-keys" "createApiKey" consequential "api_key" true
    ∷ entry "apikeys.revoke" "api-keys" "revokeApiKey" consequential "api_key" true
    ∷ entry "apikeys.update" "api-keys" "updateApiKey" consequential "api_key" true
    ∷ entry "apikeys.rotate" "api-keys" "rotateApiKey" consequential "api_key" true
    ∷ entry "apikeys.audit" "api-keys" "listApiKeyAuditEvents" observation "api_key" true
    ∷ entry "webhooks.read" "webhooks" "listWebhookEndpoints" observation "webhook_endpoint" true
    ∷ entry "webhooks.deliveries.read" "webhooks" "readWebhookDeliveries" observation
        "webhook_delivery" true
    ∷ entry "webhooks.register" "webhooks" "createWebhookEndpoint" consequential "webhook_endpoint"
        true
    ∷ entry "webhooks.remove" "webhooks" "disableWebhookEndpoint" consequential "webhook_endpoint"
        true
    ∷ entry "webhooks.emit" "webhooks" "emitWebhookEvent" consequential "webhook_event" true
    ∷ entry "webhooks.replay" "webhooks" "replayWebhookDelivery" consequential "webhook_delivery"
        true
    ∷ entry "webhooks.deliver" "webhooks" "deliverWebhook" consequential "webhook_delivery" false
    ∷ entry "webhooks.integrations.register" "webhooks" "registerIntegration" consequential
        "webhook_integration" true
    ∷ entry "webhooks.receive" "webhooks" "receiveWebhook" consequential "webhook_integration" false
    ∷ entry "jobs.read" "jobs" "listJobs" observation "job" true
    ∷ entry "jobs.create" "jobs" "enqueue" consequential "job" true
    ∷ entry "jobs.retry" "jobs" "retry" consequential "job" true
    ∷ entry "jobs.execute" "jobs" "executeJob" consequential "job" false
    ∷ entry "schedules.read" "schedules" "list" observation "schedule" true
    ∷ entry "schedules.create" "schedules" "create" consequential "schedule" true
    ∷ entry "schedules.cancel" "schedules" "disable" consequential "schedule" true
    ∷ entry "notifications.read" "notifications" "list" observation "notification" true
    ∷ entry "notifications.send" "notifications" "create" consequential "notification" true
    ∷ entry "notifications.update" "notifications" "markRead" consequential "notification" true
    ∷ entry "notifications.delete" "notifications" "delete" consequential "notification" true
    ∷ entry "files.read" "files" "list" observation "file" true
    ∷ entry "files.write" "files" "create" consequential "file" true
    ∷ entry "files.delete" "files" "delete" consequential "file" true
    ∷ entry "configuration.read" "configuration" "list" observation "configuration" true
    ∷ entry "configuration.write" "configuration" "createVariable" consequential "configuration"
        true
    ∷ entry "configuration.delete" "configuration" "delete" consequential "configuration" true
    ∷ entry "credential.attach" "configuration" "createSecret" consequential "credential" true
    ∷ entry "credential.rotate" "configuration" "rotateSecret" consequential "credential" true
    ∷ entry "credential.detach" "configuration" "delete" consequential "credential" true
    ∷ entry "credential.store" "configuration" "storeCredential" consequential "credential" true
    ∷ entry "credential.status" "configuration" "credentialStatus" observation "credential" true
    ∷ entry "intelligence.catalog" "intelligence" "catalog" observation "intelligence" true
    ∷ entry "intelligence.read" "intelligence" "get" observation "intelligence" true
    ∷ entry "intelligence.write" "intelligence" "set" consequential "intelligence" true
    ∷ entry "intelligence.credential.set" "intelligence" "setCredential" consequential "credential"
        true
    ∷ entry "intelligence.credential.remove" "intelligence" "removeCredential" consequential
        "credential" true
    ∷ entry "intelligence.resolve" "intelligence" "resolveRuntime" observation "intelligence" false
    ∷ []

-- The map by name: the names are distinct, so that the first entry is the only one.
unfoldable pub find_capability : String → List ServiceCapability → Option ServiceCapability
find_capability name [] = none
find_capability name (c ∷ rest) = if c.name == name then some c else find_capability name rest

unfoldable pub get_service_capability : String → Option ServiceCapability
unfolding find_capability service_capability_manifest
get_service_capability name = find_capability name service_capability_manifest
