-- ===== src/Authority.antt =====
-- src/authority: identities, execution contexts, evidence and the Policy Enforcement Point.
pub mod Errors
pub mod Principal
pub mod Context
pub mod Manifest
pub mod Authorizer
pub mod Custody
pub mod Credentials
pub mod Destination
pub mod Reserved
pub mod Evidence
pub mod Gateway
