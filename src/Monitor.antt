-- ===== src/Monitor.antt =====
-- internal/monitor/executor.go: the check of the watch rules.
pub mod Conditions
pub mod Escape
pub mod Tags
pub mod Texts
pub mod Crossings
pub mod Check
pub mod Trigger
pub mod Effects
pub mod Delivery
pub mod Rules
pub mod Limits
pub mod Kinds
pub mod Safety
pub mod Observed
pub mod Cycle
mod Examples
