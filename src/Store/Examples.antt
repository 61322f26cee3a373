-- ===== src/Store/Examples.antt =====
-- A small database: a user whose standard plan runs, one order that is being confirmed, a rule that is
-- paused and a rule that runs.
mod Payments
mod Quotas
use de_box_asset_alert.Prelude.{ℕ, String, true, false, none, some, List, [], ◌∷◌}
use de_box_asset_alert.Store.Tables.{
  Db, Order, Subscription, WatchRule, SummarySettings, RunStatus, active, paused, confirming, live,
  NotificationGroup,
}
use de_box_asset_alert.Store.Entitlements.{QuotaPolicy}

abbrev pub settings : SummarySettings
settings = record {
  enabled = true;
  time = "20:00";
  timezone = "Asia/Shanghai";
  chat_type = "private";
  chat_id = "ann";
  label = "";
  language = "en";
  last_sent_date = "";
  scheduled_push_last_sent_at = none;
  last_period_end_at = none;
}

abbrev pub ann_standard : Subscription
ann_standard = record {
  id = 1;
  debox_user_id = "ann";
  plan_code = "standard";
  status = live;
  starts_at = 100;
  expires_at = 9000;
  daily_summary = settings;
  is_permanent = false;
  entitlement_source = "paid";
  entitlement_wallet_address = none;
}

abbrev pub ann_order : Order
ann_order = record {
  id = 7;
  debox_user_id = "ann";
  payer_address = "0xaa";
  plan_code = "standard";
  billing_cycle = "monthly";
  subscription_days = 30;
  chain_key = "bsc";
  chain_id = 56;
  token_address = some "0x55";
  token_symbol = "USDT";
  token_decimals = 18;
  total_amount = "5";
  recipient_address = "0xbb";
  tx_hash = some "0xAB";
  status = confirming;
  expires_at = 2000;
  completed_at = none;
  tx_block_number = none;
  tx_confirmations = 0;
  verified_at = some 1000;
  verification_error = "";
}

abbrev pub rule_of : ℕ → String → RunStatus → String → WatchRule
rule_of id wallet status reason = record {
  id = id;
  debox_user_id = "ann";
  chain_key = "bsc";
  chain_id = 56;
  wallet_address = wallet;
  token_address = none;
  target_address = none;
  target_label = "";
  rule_type = "incoming";
  threshold = "1";
  notification_chat_id = "ann";
  notification_chat_type = "private";
  notification_label = "";
  notification_language = "en";
  rule_scope = "standalone";
  delivery_mode = "realtime";
  cycle_type = "fixed";
  cycle_minutes = 60;
  trigger_count_threshold = 1;
  aggregation_anchor_at = none;
  enabled = true;
  run_status = status;
  pause_reason = reason;
  last_value = none;
  last_checked_at = none;
  created_at = id;
}

abbrev pub shop : Db
shop = record {
  subscriptions = ann_standard ∷ [];
  summary_targets = [];
  summary_deliveries = [];
  orders = ann_order ∷ [];
  watch_rules = rule_of 3 "0xW1" active "" ∷ rule_of 4 "0xW2" paused "subscription_expired" ∷ [];
  combination_rules = [];
  combination_members = [];
  market_projects = [];
  market_rules = [];
  market_combinations = [];
  market_combination_members = [];
  notification_groups = [];
  user_preferences = [];
  aggregation_windows = [];
  market_rule_events = [];
  market_stage_windows = [];
  market_combination_windows = [];
  next_id = 8;
}

-- The standard plan's policy, with one group.
abbrev pub standard_policy : QuotaPolicy
standard_policy = record {
  plan_code = "standard";
  wallet_limit = 3;
  rule_limit = 10;
  group_limit = 1;
  market_project_limit = 1;
  allowed_rule_types = "incoming" ∷ [];
  allowed_market_rule_types = [];
  group_notification = true;
  stage_notifications = true;
  combination_rules = true;
  multi_pool_monitoring = false;
}
