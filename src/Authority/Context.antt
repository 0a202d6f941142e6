-- ===== src/Authority/Context.antt =====
-- authority/context.ts: resources and execution contexts. A value that the gateway did not issue
-- is `none` where a context is expected: the WeakSet `issued` holds exactly the minted ones.
use appport_services.Common.{
  ℕ, String, not, ◌==◌, leb, Option, none, some, List, or_default, if◌then◌else◌,
}
use appport_services.Authority.Errors.{authority_error, denied, unauthenticated, Details}
use appport_services.Authority.Principal.{VerifiedPrincipal}
use appport_services.Exec.{Result, ok, err}
use Prim.Native.String

-- Absent attributes are the empty list.
pub record ServiceResource : Type 0 where
  pub kind : String
  pub tenant_id : String
  pub id : Option String
  pub attributes : List (String × String)

pub record AuthorizationEvidence : Type 0 where
  pub decision_id : String
  pub decided_at : ℕ
  pub policy_version : Option String
  pub reason : Option String

pub record ServiceExecutionContext : Type 0 where
  pub application : String
  pub tenant_id : String
  pub principal : VerifiedPrincipal
  pub capability : String
  pub capability_version : ℕ
  pub request_id : String
  pub resource : ServiceResource
  pub resource_uri : String
  pub authorization : AuthorizationEvidence
  pub expires_at : ℕ

abbrev of_capability : String → Details
of_capability c = record { capability = some c; decision_id = none; reason = none }

unfoldable pub assert_execution_context :
    Option ServiceExecutionContext → String → Option String → ℕ → Result ServiceExecutionContext
assert_execution_context none capability tenant now = err (
    authority_error unauthenticated "A gateway-issued execution context is required"
      (of_capability capability))
assert_execution_context (some value) capability tenant now =
    if not (value.capability == capability)
    then err (
        authority_error denied
          (String.◌++◌ "Execution context was authorized for "
            (String.◌++◌ value.capability (String.◌++◌ ", not " capability)))
          (of_capability capability))
    else if not (or_default tenant value.tenant_id == value.tenant_id)
    then err (
        authority_error denied "Cross-tenant service operation denied" (record {
          capability = some capability;
          decision_id = none;
          reason = some "tenant_mismatch";
        }))
    else if leb value.expires_at now
    then err (
        authority_error denied "Execution context has expired" (record {
          capability = some capability;
          decision_id = some value.authorization.decision_id;
          reason = none;
        }))
    else ok value

-- `encode` is JavaScript's encodeURIComponent.
unfoldable pub resource_uri : (String → String) → String → ServiceResource → String
resource_uri encode application resource = String.◌++◌ "appport://" (
    String.◌++◌ (encode application) (
      String.◌++◌ "/tenants/" (
        String.◌++◌ (encode resource.tenant_id) (
          String.◌++◌ "/" (
            String.◌++◌ (encode resource.kind)
              (String.◌++◌ "/" (encode (or_default resource.id "*"))))))))
