-- ===== src/ApiKeys.antt =====
-- src/api-keys and storage/api-keys.ts: keys, their restrictions, their store and the service.
pub mod Restrictions
pub mod Models
pub mod Secrets
pub mod Views
pub mod Service
