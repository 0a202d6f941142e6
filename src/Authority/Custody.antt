-- ===== src/Authority/Custody.antt =====
-- secrets/models.ts and secrets/protocol.ts: credential custody, which the host implements. `S` is
-- the state of the world. A custody that throws fails with a ServiceAuthorityError, a SecretError
-- with its code, or any other error.
use appport_services.Common.{ℕ, String, Bool, Option}
use appport_services.Common.Json.{Json}
use appport_services.Authority.Errors.{ServiceFailureCode, Details}

pub record SecretReference : Type 0 where
  pub secret_id : String
  pub tenant_id : String
  pub provider : Option String
  pub kind : Option String

pub record SecretResolutionContext : Type 0 where
  pub tenant_id : String
  pub principal_id : String
  pub purpose : String
  pub authorization_ref : Option String

pub record ResolvedSecret : Type 0 where
  pub value : Json
  pub secret_id : String
  pub version : ℕ
  pub provider : Option String
  pub kind : Option String

pub data CustodyFailure : Type 0 where
  authority_failure : ServiceFailureCode → String → Details → CustodyFailure
  secret_failure : String → CustodyFailure
  other_failure : String → CustodyFailure

pub data CustodyResult (A : Type 0) : Type 0 where
  given : A → CustodyResult A
  refused : CustodyFailure → CustodyResult A

abbrev pub CustodyAction : Type 0 → Type 0 → Type 0
CustodyAction S A = S → CustodyResult A × S

-- What a store call returned: `none` for a field that is no whole number, or no text.
pub record StoreResult : Type 0 where
  pub version : Option ℕ
  pub stored_at : Option String

pub data CustodyState : Type 0 where
  set missing revoked : CustodyState

-- What a status call returned: the state is `none` for any other word.
pub record HostStatus : Type 0 where
  pub state : Option CustodyState
  pub version : Option ℕ
  pub updated_at : Option String
  pub location : Option String
  pub writable : Bool

pub record SecretCustodyWriteResult : Type 0 where
  pub version : ℕ
  pub stored_at : String

pub record SecretCustodyStatus : Type 0 where
  pub state : CustodyState
  pub version : Option ℕ
  pub updated_at : Option String
  pub location : Option String
  pub writable : Bool

-- The write path of a custody; either call may return nothing.
pub record Vault (S : Type 0) : Type 0 where
  pub store :
      SecretReference → String → SecretResolutionContext → CustodyAction S (Option StoreResult)
  pub status : SecretReference → SecretResolutionContext → CustodyAction S (Option HostStatus)

-- The host's `withSecret` makes the material available to the callback (`reveal`) and takes it away
-- when the callback is done (`conceal`). The vault is there where the custody has `store` and
-- `status` (`isSecretCustody`).
pub record Credentials (S : Type 0) : Type 0 where
  pub reveal : SecretReference → SecretResolutionContext → CustodyAction S ResolvedSecret
  pub conceal : SecretReference → SecretResolutionContext → CustodyAction S (Unit {0})
  pub vault : Option (Vault S)
