-- ===== src/ApiKeys/Models.antt =====
-- api-keys/models.ts and the interfaces of storage/api-keys.ts. A time is the number of
-- milliseconds of its ISO text: `toISOString` prints the years 0 to 9999 at one width, so that the
-- order of the texts, by which the source compares them, is the order of the numbers.
use appport_services.Common.{ℕ, String, Option, List}
use appport_services.ApiKeys.Restrictions.{ApiKeyRestrictions}
use appport_services.Exec.{Exec}

pub record ApiKey : Type 0 where
  pub id : String
  pub tenant_id : String
  pub application_id : Option String
  pub name : String
  pub key_prefix : String
  pub secret_hash : String
  pub scopes : List String
  pub restrictions : Option ApiKeyRestrictions
  pub created_at : ℕ
  pub expires_at : Option ℕ
  pub revoked_at : Option ℕ
  pub revoked_by : Option String
  pub last_used_at : Option ℕ
  pub updated_at : Option ℕ
  pub updated_by : Option String
  pub rotated_from : Option String
  pub rotated_to : Option String
  pub rotated_at : Option ℕ
  pub created_by : String
  pub version : ℕ

pub data ApiKeyStatus : Type 0 where
  active expired revoked : ApiKeyStatus

pub record ApiKeyView : Type 0 where
  pub id : String
  pub tenant_id : String
  pub application_id : Option String
  pub name : String
  pub key_prefix : String
  pub scopes : List String
  pub restrictions : Option ApiKeyRestrictions
  pub status : ApiKeyStatus
  pub created_at : ℕ
  pub expires_at : Option ℕ
  pub revoked_at : Option ℕ
  pub revoked_by : Option String
  pub last_used_at : Option ℕ
  pub updated_at : Option ℕ
  pub updated_by : Option String
  pub rotated_from : Option String
  pub rotated_to : Option String
  pub rotated_at : Option ℕ
  pub created_by : String

pub record CreatedApiKey : Type 0 where
  pub id : String
  pub name : String
  pub prefix : String
  pub secret : String

pub record RotatedApiKey : Type 0 where
  pub created : CreatedApiKey
  pub open created use *
  pub replaces : String
  pub replaced_key_valid_until : ℕ

pub data ApiKeyAuditType : Type 0 where
  key_created key_revoked key_authenticated key_updated key_rotated : ApiKeyAuditType

pub data AuditResult : Type 0 where
  success was_revoked was_expired invalid_secret : AuditResult
  application_mismatch verifier_unavailable : AuditResult

pub record ApiKeyAuditEvent : Type 0 where
  pub id : String
  pub kind : ApiKeyAuditType
  pub credential_id : String
  pub tenant_id : String
  pub principal_id : String
  pub timestamp : ℕ
  pub result : AuditResult
  pub changes : Option (List String)
  pub related_credential_id : Option String

-- The store that the service is given; any of its calls may throw.
pub record ApiKeyStore (S : Type 0) : Type 0 where
  pub create : ApiKey → Exec S (Unit {0})
  pub get : String → Exec S (Option ApiKey)
  pub find_by_prefix : String → Exec S (Option ApiKey)
  pub list : String → Exec S (List ApiKey)
  pub revoke : String → ℕ → ℕ → String → Exec S (Option ApiKey)
  pub record_last_used : String → ℕ → ℕ → Exec S (Option ApiKey)
  pub replace : String → ℕ → ApiKey → Exec S (Option ApiKey)
  pub rotate : ApiKey → ApiKey → ApiKey → Exec S (Unit {0})

-- `list` is optional in the source.
pub record AuditSink (S : Type 0) : Type 0 where
  pub write : ApiKeyAuditEvent → Exec S (Unit {0})
  pub list : Option (String → Exec S (List ApiKeyAuditEvent))
