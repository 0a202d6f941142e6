-- ===== src/Authority/Gateway/Attestation.antt =====
-- A stored principal is honoured only on evidence of an authorized effect that made it.
use appport_services.Common.{
  String, ◌≡◌, refl, ◌⊎◌, inl, inr, Bool, true, eq_iff, Option, none, some, List, [], ◌∷◌, arith,
  any, includes, present, Bool-cases, opt_eq, if◌then◌else◌, ap,
}
use appport_services.Authority.Principal.{DurablePrincipal}
use appport_services.Authority.Evidence.{EffectEvidence, EffectOutcome, allow}
use appport_services.Authority.Gateway.{ServiceGateway}
use appport_services.Authority.Gateway.Attest.{
  row_attests, attest, attest_decision, is_open_outcome, unattested,
}
use appport_services.Exec.{ok, >>=-eq-ok, pure, throw}
use mathlib.Core.List.{Memᴰ}

-- What a row says of the principal that it vouches for.
pub record Attests (application : String) (durable : DurablePrincipal) (creating : List String)
    (row : EffectEvidence) : Type 0 where
  pub allowed : row.decision ≡ allow
  pub same_application : row.application ≡ application
  pub same_tenant : row.tenant_id ≡ durable.tenant_id
  pub same_principal : row.principal_id ≡ durable.principal_id
  pub same_type : row.principal_type ≡ durable.principal_type
  pub same_delegation : row.delegation_id ≡ durable.delegation_id
  pub creates : includes creating row.capability ≡ true
  pub not_failed : (row.outcome ≡ EffectOutcome.started) ⊎ (row.outcome ≡ EffectOutcome.succeeded)

opt_eq-eq : (a b : Option String) → opt_eq a b ≡ true → a ≡ b
opt_eq-eq none none h = refl
opt_eq-eq none (some b) h = cc
opt_eq-eq (some a) none h = cc
opt_eq-eq (some a) (some b) h = ap some ((eq_iff a b).0 h)

open_outcome-cases :
    (o : EffectOutcome)
    → is_open_outcome o ≡ true
    → (o ≡ EffectOutcome.started) ⊎ (o ≡ EffectOutcome.succeeded)
open_outcome-cases EffectOutcome.started h = inl refl
open_outcome-cases EffectOutcome.succeeded h = inr refl
open_outcome-cases _ h = absurd (ground arith)

row_attests-Attests :
    (application : String) (durable : DurablePrincipal) (creating : List String)
    (row : EffectEvidence)
    → row_attests application durable creating row ≡ true
    → Attests application durable creating row
unfolding row_attests
row_attests-Attests application durable creating row h = record {
  allowed = ground arith;
  same_application = ground (arith, eq_iff row.application application);
  same_tenant = ground (arith, eq_iff row.tenant_id durable.tenant_id);
  same_principal = ground (arith, eq_iff row.principal_id durable.principal_id);
  same_type = ground (arith, eq_iff row.principal_type durable.principal_type);
  same_delegation = opt_eq-eq row.delegation_id durable.delegation_id (ground arith);
  creates = ground arith;
  not_failed = open_outcome-cases row.outcome (ground arith);
}

any-Memᴰ {ℓ} :
    {A : Type ℓ} (p : A → Bool) (xs : List A) → any p xs ≡ true → (x : A) × Memᴰ x xs × (p x ≡ true)
any-Memᴰ p [] h = cc
any-Memᴰ p (x ∷ xs) h = elim (Bool-cases (p x)) [
  | inl e ↦ (x, Memᴰ.head refl, e)
  | inr e ↦ let (y, m, k) = any-Memᴰ p xs (rw e at h) in (y, Memᴰ.tail m, k)
]

module _ {S : Type 0} (g : ServiceGateway S) where
  -- What has been found when a durable principal is attested.
  pub record HasVoucher (durable : DurablePrincipal) (creating : List String) (s : S) : Type 0 where
    pub decision_id : String
    pub bound : present durable.authorized_by ≡ some decision_id
    pub rows : List EffectEvidence
    pub read : (g.evidence.find_by_decision decision_id s).0 ≡ ok rows
    pub row : EffectEvidence
    pub listed : Memᴰ row rows
    pub vouches : Attests g.application durable creating row

  voucher_of_rows :
      (durable : DurablePrincipal) (creating : List String) (id : String)
      (rows : List EffectEvidence) (s : S)
      → ((if any (row_attests g.application durable creating) rows
            then pure tt
            else throw
                (unattested "Durable principal does not match an authorized effect" (some id)))
          s).0
        ≡ ok tt
      → (row : EffectEvidence) × Memᴰ row rows × Attests g.application durable creating row
  voucher_of_rows durable creating id rows s h =
      let (row, listed, fits) =
        any-Memᴰ (row_attests g.application durable creating) rows (ground arith) in
      (row, listed, row_attests-Attests g.application durable creating row fits)

  attest_decision-HasVoucher :
      (durable : DurablePrincipal) (creating : List String) (o : Option String) (s : S)
      → present durable.authorized_by ≡ o
      → (attest_decision g durable creating o s).0 ≡ ok tt
      → HasVoucher durable creating s
  attest_decision-HasVoucher durable creating none s e h = absurd (ground arith)
  attest_decision-HasVoucher durable creating (some id) s e h =
      let (rows, read, h₁) = >>=-eq-ok (g.evidence.find_by_decision id) _ s h in
      let (row, listed, vouches) = voucher_of_rows durable creating id rows _ h₁ in
      record {
        decision_id = id;
        bound = e;
        rows = rows;
        read = read;
        row = row;
        listed = listed;
        vouches = vouches;
      }

  -- A durable principal is attested only if it is bound to a decision whose evidence, read from
  -- the store, holds a row that allows one of the creating capabilities, for this application and
  -- the very same tenant, principal, type and delegation, and has not failed.
  pub attest-HasVoucher :
      (durable : DurablePrincipal) (creating : List String) (s : S)
      → (attest g (some durable) creating s).0 ≡ ok tt
      → HasVoucher durable creating s
  unfolding attest
  attest-HasVoucher durable creating s h =
      attest_decision-HasVoucher durable creating (present durable.authorized_by) s refl h
