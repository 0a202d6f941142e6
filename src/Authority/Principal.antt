-- ===== src/Authority/Principal.antt =====
-- authority/principal.ts: identities that an authentication path established. The module-private
-- WeakSet of minted objects is the constructor `verified` of `Caller`: what a caller passes in is
-- such an object, or something that is none.
use appport_services.Common.{
  String, Bool, true, false, ◌==◌, Option, none, some, List, [], ◌∷◌, is_blank, present, or_else,
  if◌then◌else◌,
}
use appport_services.Authority.Errors.{
  Error, authority_error, denied, unauthenticated, invalid_request, no_details,
}
use appport_services.Exec.{Result, ok, err}
use Prim.Native.String

-- How the identity was established.
pub data PrincipalVerification : Type 0 where
  by_api_key by_host by_job by_delivery by_integration : PrincipalVerification

pub record PrincipalClaims : Type 0 where
  pub principal_id : String
  pub principal_type : String
  pub tenant_id : String
  pub application_id : Option String
  pub credential_id : Option String
  pub delegation_id : Option String
  pub run_id : Option String

pub record VerifiedPrincipal : Type 0 where
  pub principal_id : String
  pub principal_type : String
  pub tenant_id : String
  pub application_id : Option String
  pub credential_id : Option String
  pub delegation_id : Option String
  pub run_id : Option String
  pub verified_by : PrincipalVerification

abbrev pub unauthenticated_error : String → Error
unauthenticated_error message = authority_error unauthenticated message no_details

-- `ServiceMigrationError`, whose code is INVALID_REQUEST.
abbrev pub migration_error : String → Error
migration_error message =
    authority_error invalid_request (String.◌++◌ message " See docs/AUTHORITY.md#migration.")
      no_details

unfoldable pub mint_verified_principal :
    PrincipalClaims → PrincipalVerification → Result VerifiedPrincipal
mint_verified_principal claims verified_by =
    if is_blank claims.principal_id
    then err (unauthenticated_error "Authenticated identity is missing principalId")
    else if is_blank claims.principal_type
    then err (unauthenticated_error "Authenticated identity is missing principalType")
    else if is_blank claims.tenant_id
    then err (unauthenticated_error "Authenticated identity is missing tenantId")
    else ok (record {
      principal_id = claims.principal_id;
      principal_type = claims.principal_type;
      tenant_id = claims.tenant_id;
      application_id = present claims.application_id;
      credential_id = present claims.credential_id;
      delegation_id = present claims.delegation_id;
      run_id = present claims.run_id;
      verified_by = verified_by;
    })

-- What reaches a service as its caller: a minted principal, a text, an object with a field
-- `scopes`, or anything else.
pub data Caller : Type 0 where
  verified : VerifiedPrincipal → Caller
  actor_text : String → Caller
  scoped_object : Caller
  other_value : Caller

unfoldable pub require_verified_principal : Caller → Result VerifiedPrincipal
require_verified_principal (verified p) = ok p
require_verified_principal (actor_text _) = err (
    migration_error
      "An actor string is not an identity. Pass the principal returned by authentication.")
require_verified_principal scoped_object = err (
    migration_error
      "Principals carrying scopes are no longer authority. Pass the principal returned by authentication; AuthBoundry authorizes each capability.")
require_verified_principal other_value =
    err (unauthenticated_error "A verified principal is required for this service operation")

-- The fields of an input object by which a caller might choose an identity: the ACTOR_FIELDS that
-- are set, in their order, and the fields `principal` and `scopes`.
pub record ActorClaims : Type 0 where
  pub actors : List (String × String)
  pub has_principal : Bool
  pub scopes : Option (List String)

abbrev pub no_claims : ActorClaims
no_claims = record { actors = []; has_principal = false; scopes = none }

abbrev no_scopes : Option (List String) → Bool
no_scopes none = true
no_scopes (some []) = true
no_scopes (some (_ ∷ _)) = false

reject_actors : List (String × String) → VerifiedPrincipal → Result (Unit {0})
reject_actors [] principal = ok tt
reject_actors ((field, value) ∷ more) principal =
    let rest = reject_actors more principal in
    if value == principal.principal_id
    then rest
    else err (
        migration_error (
          String.◌++◌ "Caller-supplied \"" (
            String.◌++◌ field
              "\" cannot establish identity; the actor is the verified principal.")))

unfoldable pub reject_caller_actor : ActorClaims → VerifiedPrincipal → Result (Unit {0})
unfolding reject_actors
reject_caller_actor input principal = elim (reject_actors input.actors principal) [
  | err e ↦ err e
  | ok _ ↦
      if input.has_principal
      then err (migration_error "Caller-supplied \"principal\" cannot establish identity.")
      else if no_scopes input.scopes
      then ok tt
      else err (migration_error "Caller-supplied scopes do not grant authority.")
]

-- The tenant is the principal's; another tenant in the input is a cross-tenant request.
unfoldable pub resolve_tenant : Option String → VerifiedPrincipal → Result String
resolve_tenant none principal = ok principal.tenant_id
resolve_tenant (some supplied) principal =
    if supplied == principal.tenant_id
    then ok principal.tenant_id
    else err (
        authority_error denied "Cross-tenant service operation denied"
          (record { capability = none; decision_id = none; reason = some "tenant_mismatch" }))

-- The identity that a stored job, schedule or delivery runs as.
pub record DurablePrincipal : Type 0 where
  pub principal_id : String
  pub principal_type : String
  pub tenant_id : String
  pub application_id : Option String
  pub delegation_id : Option String
  pub credential_id : Option String
  pub authorized_by : Option String

-- The default of the second parameter is taken when it is undefined.
unfoldable pub to_durable_principal :
    VerifiedPrincipal → Option String → Option String → DurablePrincipal
to_durable_principal principal delegation_id authorized_by = record {
  principal_id = principal.principal_id;
  principal_type = principal.principal_type;
  tenant_id = principal.tenant_id;
  application_id = present principal.application_id;
  delegation_id = present (or_else delegation_id principal.delegation_id);
  credential_id = present principal.credential_id;
  authorized_by = present authorized_by;
}

-- `{ ...durable, runId }`, as the claims of the principal of one run.
abbrev pub durable_claims : DurablePrincipal → String → PrincipalClaims
durable_claims durable run_id = record {
  principal_id = durable.principal_id;
  principal_type = durable.principal_type;
  tenant_id = durable.tenant_id;
  application_id = durable.application_id;
  credential_id = durable.credential_id;
  delegation_id = durable.delegation_id;
  run_id = some run_id;
}
