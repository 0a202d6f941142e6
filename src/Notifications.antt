-- ===== src/Notifications.antt =====
-- Notifications (src/notifications), as far as a transaction queues them: the check of their
-- contents.
pub mod Sensitive
