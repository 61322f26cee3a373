-- ===== src/Alerts.antt =====
-- internal/store/aggregations.go, aggregation_history.go, events.go, combinations.go, rules.go: the
-- rows that a check of a rule writes.
pub mod Tables
pub mod Tx
pub mod Events
pub mod Windows
pub mod Stage
pub mod Running
pub mod Combination
pub mod Invariant
pub mod Enabled
pub mod Frames
pub mod Cleanup
pub mod Triggers
mod Examples
