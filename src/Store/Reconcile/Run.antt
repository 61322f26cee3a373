-- ===== src/Store/Reconcile/Run.antt =====
-- internal/store/entitlement_reconcile.go: `ReconcileUserEntitlements`, the loops one after the other.
use de_box_asset_alert.Prelude.{ℕ, String, List, select, str_eq, if◌then◌else◌}
use de_box_asset_alert.Store.Tables.{Db, Combination}
use de_box_asset_alert.Store.Tx.{Tx, ◌>>=◌, ◌>>◌, pure, gets}
use de_box_asset_alert.Store.Rules.{active_wallets}
use de_box_asset_alert.Store.Entitlements.{
  QuotaPolicy, require_policy_plan, count_active_rule_slots,
}
use de_box_asset_alert.Store.Reconcile.{
  ReconcileResult, Usage, oldest_first, restore_projects, restore_watch_rules,
  is_stopped_watch_rule, restore_combinations, is_stopped_combination,
}
use de_box_asset_alert.Store.Reconcile.Market.{
  restore_market_rules, is_stopped_market_rule, restore_market_combinations,
  is_stopped_market_combination,
}

abbrev pub nothing_restored : ReconcileResult
nothing_restored = record {
  projects_restored = 0;
  watch_rules_restored = 0;
  combination_rules_restored = 0;
  market_rules_restored = 0;
  market_combinations_restored = 0;
}

abbrev pub start_usage : String → Db → Usage
start_usage user db = record {
  slots = count_active_rule_slots user db;
  wallets = active_wallets user db.watch_rules;
  restored = 0;
}

-- Each loop counts what it restored from 0.
abbrev pub fresh : Usage → Usage
fresh u = record u { restored = 0 }

-- Each loop reads its rules when it begins.
unfoldable pub watch_loop : String → QuotaPolicy → ℕ → Usage → Tx Usage
unfolding restore_watch_rules is_stopped_watch_rule oldest_first
watch_loop user p now u = do
  rules ← gets (λ db.
      oldest_first (λ r. r.created_at) (λ r. r.id)
        (select (is_stopped_watch_rule user) db.watch_rules))
  restore_watch_rules p now rules (fresh u)

pub stopped_combinations : String → Db → List Combination
unfolding oldest_first is_stopped_combination
stopped_combinations user db =
    oldest_first (λ c. c.created_at) (λ c. c.id)
      (select (is_stopped_combination user) db.combination_rules)

unfoldable pub combination_loop : String → QuotaPolicy → ℕ → Usage → Tx Usage
unfolding restore_combinations stopped_combinations
combination_loop user p now u db =
    if p.combination_rules
    then restore_combinations p now (stopped_combinations user db) (fresh u) db
    else pure (fresh u) db

unfoldable pub market_loop : String → QuotaPolicy → ℕ → Usage → Tx Usage
unfolding restore_market_rules is_stopped_market_rule oldest_first
market_loop user p now u = do
  rules ← gets (λ db.
      oldest_first (λ r. r.created_at) (λ r. r.id)
        (select (is_stopped_market_rule user db.market_projects) db.market_rules))
  restore_market_rules p now rules (fresh u)

pub stopped_market_combinations : String → Db → List Combination
unfolding oldest_first is_stopped_market_combination
stopped_market_combinations user db =
    oldest_first (λ c. c.created_at) (λ c. c.id)
      (select (is_stopped_market_combination user) db.market_combinations)

unfoldable pub market_combination_loop : String → QuotaPolicy → ℕ → Usage → Tx Usage
unfolding restore_market_combinations stopped_market_combinations
market_combination_loop user p now u db =
    if p.combination_rules
    then restore_market_combinations p now (stopped_market_combinations user db) (fresh u) db
    else pure (fresh u) db

unfoldable pub restore_rules : String → QuotaPolicy → ℕ → ℕ → Usage → Tx ReconcileResult
unfolding watch_loop combination_loop market_loop market_combination_loop
restore_rules user p now projects start = do
  rules ← watch_loop user p now start
  combinations ← combination_loop user p now rules
  markets ← market_loop user p now combinations
  last ← market_combination_loop user p now markets
  pure (record {
    projects_restored = projects;
    watch_rules_restored = rules.restored;
    combination_rules_restored = combinations.restored;
    market_rules_restored = markets.restored;
    market_combinations_restored = last.restored;
  })

unfoldable pub restore_all : String → QuotaPolicy → ℕ → Tx ReconcileResult
unfolding restore_rules restore_projects
restore_all user p now = do
  projects ← restore_projects user p
  start ← gets (start_usage user)
  restore_rules user p now projects start

unfoldable pub reconcile_user_entitlements : String → QuotaPolicy → ℕ → Tx ReconcileResult
unfolding require_policy_plan restore_all
reconcile_user_entitlements user p now = do
  require_policy_plan user p now
  if str_eq p.plan_code "free" then pure nothing_restored else restore_all user p now
