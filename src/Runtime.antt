-- ===== src/Runtime.antt =====
-- The runtime (src/runtime), as far as it keeps a state of its own: transactions.
pub mod Transaction
