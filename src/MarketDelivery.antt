-- ===== src/MarketDelivery.antt =====
-- internal/store/market_delivery.go: the windows that collect triggers, and the queue of notifications.
pub mod Tables
pub mod Windows
pub mod Stage
pub mod Queue
pub mod RuleEvents
pub mod Examples
