-- ===== src/Jobs/Service/Create/Vouched.antt =====
-- What an authorized caller stores is what the evidence of its request vouches for.
use appport_services.Common.{String, ◌≡◌, ◌≢◌, Option, or_else}
use appport_services.Authority.Principal.{VerifiedPrincipal}
use appport_services.Authority.Context.{ServiceExecutionContext}
use appport_services.Authority.Gateway.{ServiceGateway}
use appport_services.Jobs.Service.Create.{typed_attributes}

module _ {S : Type 0} (g : ServiceGateway S) where
  -- What the context of an authorized creation of a job says.
  pub record IsOfCreation (principal : VerifiedPrincipal) (kind : String)
      (delegation : Option String) (context : ServiceExecutionContext) : Type 0 where
    pub same_application : context.application ≡ g.application
    pub same_principal : context.principal ≡ principal
    pub same_tenant : context.tenant_id ≡ principal.tenant_id
    pub creates : context.capability ≡ "jobs.create"
    pub decided : context.authorization.decision_id ≢ ""
    pub attributes :
        context.resource.attributes
        ≡ typed_attributes kind (or_else delegation principal.delegation_id)
