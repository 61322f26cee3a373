-- ===== src/MarketRules.antt =====
-- internal/marketrules/evaluator.go: when a rule on a market triggers.
pub mod Types
pub mod Values
pub mod Snapshots
pub mod Events
pub mod Progress
pub mod Evaluate
pub mod Merge
pub mod Repeated
pub mod Examples
