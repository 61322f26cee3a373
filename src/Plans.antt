-- ===== src/Plans.antt =====
-- internal/plans/plans.go: what a subscription plan allows.
pub mod Types
pub mod RuleTypes
pub mod Catalog
