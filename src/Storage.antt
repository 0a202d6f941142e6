-- ===== src/Storage.antt =====
-- src/storage: what the FeltDB stores share. The stores themselves stand with their components.
pub mod Bounded
