-- ===== src/Authority/Gateway/Attest.antt =====
-- authority/gateway.ts: `attest`.
use appport_services.Common.{
  String, Bool, true, false, ◌&&◌, ◌==◌, opt_eq, Option, none, some, List, any, includes, present,
  if◌then◌else◌,
}
use appport_services.Authority.Errors.{denied, Error, authority_error}
use appport_services.Authority.Principal.{DurablePrincipal}
use appport_services.Authority.Evidence.{
  EffectOutcome, EffectEvidence, EvidenceDecision, allow, deny, undecided,
}
use appport_services.Authority.Gateway.{ServiceGateway}
use appport_services.Exec.{Exec, pure, throw, ◌>>=◌}

abbrev pub is_open_outcome : EffectOutcome → Bool
is_open_outcome EffectOutcome.started = true
is_open_outcome EffectOutcome.succeeded = true
is_open_outcome EffectOutcome.failed = false
is_open_outcome EffectOutcome.provider_error = false
is_open_outcome EffectOutcome.denied = false

abbrev is_allow : EvidenceDecision → Bool
is_allow allow = true
is_allow deny = false
is_allow undecided = false

-- One row of evidence vouches for a durable principal.
unfoldable pub row_attests : String → DurablePrincipal → List String → EffectEvidence → Bool
row_attests application durable creating row =
    is_allow row.decision
    && (row.application == application)
    && (row.tenant_id == durable.tenant_id)
    && (row.principal_id == durable.principal_id)
    && (row.principal_type == durable.principal_type)
    && opt_eq row.delegation_id durable.delegation_id
    && includes creating row.capability
    && is_open_outcome row.outcome

abbrev pub unattested : String → Option String → Error
unattested message decision_id =
    authority_error denied message (record {
      capability = none;
      decision_id = decision_id;
      reason = some "unattested_principal";
    })

module _ {S : Type 0} (g : ServiceGateway S) where
  abbrev pub attest_decision : DurablePrincipal → List String → Option String → Exec S (Unit {0})
  attest_decision durable creating none =
      throw (unattested "Durable principal is not bound to an AuthBoundry decision" none)
  attest_decision durable creating (some decision_id) = do
    rows ← g.evidence.find_by_decision decision_id
    if any (row_attests g.application durable creating) rows
        then pure tt
        else throw
            (unattested "Durable principal does not match an authorized effect" (some decision_id))

  -- A missing decision id is `undefined` or the empty text.
  unfoldable pub attest : Option DurablePrincipal → List String → Exec S (Unit {0})
  attest none creating =
      throw (unattested "Durable principal is not bound to an AuthBoundry decision" none)
  attest (some durable) creating = attest_decision durable creating (present durable.authorized_by)
