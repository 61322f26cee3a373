-- ===== src/Store/Reconcile/Market.antt =====
-- internal/store/entitlement_reconcile.go: the market rules and their combinations.
use de_box_asset_alert.Prelude.{
  ℕ, String, Bool, not, ◌&&◌, ◌||◌, List, [], ◌∷◌, exists, select, update, length, str_eq, ◌==◌,
  leb, if◌then◌else◌,
}
use de_box_asset_alert.Store.Tables.{
  Db, Combination, MarketRule, MarketProject, watch, market, WatchRule, MarketCombinationMember,
  active, is_active, is_active_project,
}
use de_box_asset_alert.Store.Tx.{Tx, pure}
use de_box_asset_alert.Store.Pause.{subscription_expired}
use de_box_asset_alert.Store.Rules.{anchor}
use de_box_asset_alert.Store.Entitlements.{QuotaPolicy, allows_market_rule_type, denies_group}
use de_box_asset_alert.Store.Reconcile.{Usage, one_more, resume_combination}

unfoldable pub skips_market_rule : QuotaPolicy → MarketRule → Usage → Bool
unfolding allows_market_rule_type
skips_market_rule p r u =
    leb p.rule_limit u.slots
    || (not (allows_market_rule_type p r.rule_type)
        || (denies_group p r.notification_chat_type
            || (str_eq r.delivery_mode "stage" && not p.stage_notifications)))

abbrev pub resume_market_rule : ℕ → MarketRule → MarketRule
resume_market_rule now r = record r {
  run_status = active;
  pause_reason = "";
  aggregation_anchor_at = anchor r.delivery_mode r.cycle_type now;
}

unfoldable pub start_market_rule : ℕ → MarketRule → Db → Db
start_market_rule now r db = record db {
  market_rules = update (λ (x : MarketRule). x.id == r.id) (resume_market_rule now) db.market_rules;
}

unfoldable pub restore_market_rules : QuotaPolicy → ℕ → List MarketRule → Usage → Tx Usage
unfolding skips_market_rule start_market_rule one_more
restore_market_rules p now [] u = pure u
restore_market_rules p now (r ∷ rs) u = λ db.
    if skips_market_rule p r u
    then restore_market_rules p now rs u db
    else restore_market_rules p now rs (one_more u) (start_market_rule now r db)

-- EXISTS (SELECT 1 FROM market_projects WHERE id = market_project_id AND status = 'active')
unfoldable pub is_stopped_market_rule : String → List MarketProject → MarketRule → Bool
is_stopped_market_rule user projects r =
    str_eq r.debox_user_id user
    && (r.enabled
        && (not (is_active r.run_status)
            && (str_eq r.pause_reason subscription_expired
                && exists
                    (λ (q : MarketProject).
                      (q.id == r.market_project_id) && is_active_project q.status)
                    projects)))

-- A member counts while its rule is enabled and running. The schema deletes a member with its rule.
unfoldable pub member_runs : Db → MarketCombinationMember → Bool
member_runs db m = elim m.member [
  | watch id ↦
      exists (λ (r : WatchRule). (r.id == id) && (r.enabled && is_active r.run_status))
        db.watch_rules
  | market id ↦
      exists (λ (r : MarketRule). (r.id == id) && (r.enabled && is_active r.run_status))
        db.market_rules
]

-- COUNT(*) >= 2 AND BOOL_AND(...)
unfoldable pub is_eligible : ℕ → Db → Bool
unfolding member_runs
is_eligible id db =
    let members =
      select (λ (m : MarketCombinationMember). m.market_combination_rule_id == id)
        db.market_combination_members in
    leb 2 (length members) && not (exists (λ m. not (member_runs db m)) members)

unfoldable pub skips_market_combination : QuotaPolicy → Combination → Usage → Db → Bool
unfolding is_eligible
skips_market_combination p c u db =
    leb p.rule_limit u.slots
    || (denies_group p c.notification_chat_type || not (is_eligible c.id db))

unfoldable pub start_market_combination : ℕ → Combination → Db → Db
start_market_combination now c db = record db {
  market_combinations =
      update (λ (x : Combination). x.id == c.id) (resume_combination now) db.market_combinations;
}

unfoldable pub restore_market_combinations : QuotaPolicy → ℕ → List Combination → Usage → Tx Usage
unfolding skips_market_combination start_market_combination one_more
restore_market_combinations p now [] u = pure u
restore_market_combinations p now (c ∷ cs) u = λ db.
    if skips_market_combination p c u db
    then restore_market_combinations p now cs u db
    else restore_market_combinations p now cs (one_more u) (start_market_combination now c db)

unfoldable pub is_stopped_market_combination : String → Combination → Bool
is_stopped_market_combination user c =
    str_eq c.debox_user_id user
    && (c.enabled && (not (is_active c.run_status) && str_eq c.pause_reason subscription_expired))
