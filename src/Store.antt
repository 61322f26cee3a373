-- ===== src/Store.antt =====
-- internal/store: the tables and the transactions on them.
pub mod Tables
pub mod Tx
pub mod Pause
pub mod Subscriptions
pub mod Orders
pub mod Rules
pub mod Entitlements
pub mod Reconcile
pub mod Examples
