-- ===== src/Webhooks.antt =====
-- src/webhooks and src/storage/webhooks.ts: outbound deliveries and inbound integrations.
pub mod Models
pub mod Store
pub mod Signatures
pub mod Service
