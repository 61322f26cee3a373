-- ===== src/Store/Pause.antt =====
-- internal/store/entitlements.go: `pauseExpiredUserResources`, what stops when a paid plan ends.
use de_box_asset_alert.Prelude.{
  ℕ, String, Bool, false, not, ◌&&◌, ◌||◌, Option, none, some, List, exists, update, str_eq, ◌==◌,
}
use de_box_asset_alert.Store.Tables.{
  Db, paused, ProjectStatus, is_active, is_active_project, WatchRule, Combination, MarketRule,
  MarketProject, Delivery,
}

abbrev pub subscription_expired : String
subscription_expired = "subscription_expired"

-- `exceptRuleID != nil` adds `AND id <> $2`
abbrev pub is_excepted : Option ℕ → ℕ → Bool
is_excepted none id = false
is_excepted (some kept) id = id == kept

-- WHERE debox_user_id = $1 AND enabled = 1 AND run_status = 'active'
abbrev pub watch_runs : String → WatchRule → Bool
watch_runs user r = str_eq r.debox_user_id user && (r.enabled && is_active r.run_status)

abbrev pub combination_runs : String → Combination → Bool
combination_runs user r = str_eq r.debox_user_id user && (r.enabled && is_active r.run_status)

abbrev pub market_runs : String → MarketRule → Bool
market_runs user r = str_eq r.debox_user_id user && (r.enabled && is_active r.run_status)

abbrev pub project_runs : String → MarketProject → Bool
project_runs user p = str_eq p.debox_user_id user && is_active_project p.status

pause_watch_rules : String → Option ℕ → List WatchRule → List WatchRule
pause_watch_rules user except =
    update (λ r. watch_runs user r && not (is_excepted except r.id))
      (λ r. record r { run_status = paused; pause_reason = subscription_expired })

pause_combinations : String → List Combination → List Combination
pause_combinations user =
    update (combination_runs user)
      (λ r. record r { run_status = paused; pause_reason = subscription_expired })

pause_market_rules : String → List MarketRule → List MarketRule
pause_market_rules user =
    update (market_runs user)
      (λ r. record r { run_status = paused; pause_reason = subscription_expired })

pause_projects : String → List MarketProject → List MarketProject
pause_projects user =
    update (project_runs user)
      (λ p. record p { status = ProjectStatus.paused; pause_reason = subscription_expired })

is_undelivered : String → Bool
is_undelivered status =
    str_eq status "pending"
    || (str_eq status "sending"
        || (str_eq status "failed" || (str_eq status "staged" || str_eq status "combined")))

is_unsettled : String → Bool
is_unsettled status = not (str_eq status "sent" || str_eq status "skipped")

-- COALESCE(closed_at, now)
abbrev pub closed_since : ℕ → Option ℕ → Option ℕ
closed_since now none = some now
closed_since now (some at) = some at

abbrev skip : Delivery → Delivery
skip d = record d {
  notification_status = "skipped";
  notification_error = "subscription expired before delivery";
}

owns_market_rule : String → List MarketRule → ℕ → Bool
owns_market_rule user rules id =
    exists (λ (r : MarketRule). (r.id == id) && str_eq r.debox_user_id user) rules

owns_combination : String → List Combination → ℕ → Bool
owns_combination user rules id =
    exists (λ (r : Combination). (r.id == id) && str_eq r.debox_user_id user) rules

skip_events : String → List MarketRule → List Delivery → List Delivery
unfolding owns_market_rule is_undelivered
skip_events user rules =
    update (λ d. owns_market_rule user rules d.rule_id && is_undelivered d.notification_status) skip

close_stage_windows : String → ℕ → List MarketRule → List Delivery → List Delivery
unfolding owns_market_rule is_unsettled
close_stage_windows user now rules =
    update (λ d. owns_market_rule user rules d.rule_id && is_unsettled d.notification_status)
      (λ d. record (skip d) { closed_at = closed_since now d.closed_at })

close_combination_windows : String → ℕ → List Combination → List Delivery → List Delivery
unfolding owns_combination is_unsettled
close_combination_windows user now rules =
    update (λ d. owns_combination user rules d.rule_id && is_unsettled d.notification_status)
      (λ d. record (skip d) { closed_at = closed_since now d.closed_at })

-- The deliveries are settled by the owner of their rule, which no later statement changes.
unfoldable pub pause_expired_user_resources : String → Option ℕ → ℕ → Db → Db
unfolding pause_watch_rules pause_combinations skip_events close_stage_windows
    close_combination_windows pause_market_rules pause_projects
pause_expired_user_resources user except now db = record db {
  watch_rules = pause_watch_rules user except db.watch_rules;
  combination_rules = pause_combinations user db.combination_rules;
  market_rule_events = skip_events user db.market_rules db.market_rule_events;
  market_stage_windows = close_stage_windows user now db.market_rules db.market_stage_windows;
  market_combination_windows =
      close_combination_windows user now db.market_combinations db.market_combination_windows;
  market_rules = pause_market_rules user db.market_rules;
  market_combinations = pause_combinations user db.market_combinations;
  market_projects = pause_projects user db.market_projects;
}
