-- ===== src/Webhooks/Service/Integrations.antt =====
-- webhooks/service.ts: the integrations that inbound webhooks belong to.
use Prim.Native.String
use appport_services.Common.{ℕ, String, Option, none, some, [], ◌∷◌, if◌then◌else◌}
use appport_services.Authority.Principal.{
  VerifiedPrincipal, Caller, verified, require_verified_principal, reject_caller_actor,
  resolve_tenant,
}
use appport_services.Authority.Context.{ServiceExecutionContext}
use appport_services.Authority.Credentials.{require_credential_ref}
use appport_services.Authority.Gateway.{without_tools}
use appport_services.Authority.Gateway.Execution.{execute}
use appport_services.Jobs.Models.{AuditResult, success}
use appport_services.Webhooks.Models.{
  WebhookIntegration, WebhookIntegrationStore, RegisterWebhookIntegrationInput,
}
use appport_services.Webhooks.Service.{
  WebhookService, AuditFields, gateway, audit, require_integration_store, is_provider,
}
use appport_services.Webhooks.Service.Endpoints.{with_ref}
use appport_services.Exec.{Exec, pure, lift, Result, ok, err, invalid, ◌>>=◌, ◌>>◌}

unfoldable pub integration_event :
    String → WebhookIntegration → String → AuditResult → Option String → AuditFields
integration_event kind integration principal_id result reason = record {
  kind = kind;
  endpoint_id = none;
  delivery_id = none;
  integration_id = some integration.id;
  tenant_id = integration.tenant_id;
  principal_id = principal_id;
  result = result;
  reason = reason;
}

new_integration : String → String → String → String → String → ℕ → String → WebhookIntegration
new_integration id tenant_id application provider credential_ref now created_by = record {
  id = id;
  tenant_id = tenant_id;
  application_id = application;
  provider = provider;
  principal_id = String.◌++◌ "integration:" provider;
  signing_credential_ref = credential_ref;
  created_at = now;
  created_by = created_by;
  disabled_at = none;
  version = 1;
}

given_provider : Option String → Result String
given_provider none = err (invalid "provider must be a lowercase identifier")
given_provider (some provider) =
    if is_provider provider
    then ok provider
    else err (invalid "provider must be a lowercase identifier")

module _ {S : Type 0} (svc : WebhookService S) where
  store_integration :
      WebhookIntegrationStore S
      → String
      → String
      → String
      → VerifiedPrincipal
      → ServiceExecutionContext
      → Exec S WebhookIntegration
  unfolding new_integration integration_event
  store_integration store tenant_id provider credential_ref principal context = do
    id ← svc.random_uuid
    now ← svc.now
    let integration =
        new_integration id tenant_id context.application provider credential_ref now
          principal.principal_id
    store.create integration
    audit svc (
        integration_event "webhook.integration.registered" integration principal.principal_id
          success none)
    pure integration

  unfoldable pub register_integration :
      RegisterWebhookIntegrationInput → Caller → Exec S WebhookIntegration
  unfolding given_provider store_integration
  register_integration input caller = do
    principal ← lift (require_verified_principal caller)
    lift (reject_caller_actor input.claims principal)
    tenant_id ← lift (resolve_tenant input.tenant_id principal)
    provider ← lift (given_provider input.provider)
    credential_ref ←
        lift (require_credential_ref input.signing_credential_ref "signingCredentialRef")
    store ← lift (require_integration_store svc)
    g ← lift (gateway svc)
    execute g "webhooks.integrations.register" (verified principal)
        (record {
          kind = "webhook_integration";
          tenant_id = tenant_id;
          id = none;
          attributes = ("provider", provider) ∷ ("credentialRef", credential_ref) ∷ [];
        })
        (with_ref (some provider) credential_ref)
        λ context.
          without_tools
            (store_integration store tenant_id provider credential_ref principal context)
