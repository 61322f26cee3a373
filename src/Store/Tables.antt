-- ===== src/Store/Tables.antt =====
-- internal/store/models.go and market_models.go: the rows, and the tables of the database. Times are
-- seconds, a nullable column is an Option, and a status column with a fixed set of values is a data
-- type. Of a table that only entitlements touch, the columns that its statements read or write are
-- kept.
use de_box_asset_alert.Prelude.{ℕ, String, Bool, true, false, Option, List}

pub data RunStatus : Type 0 where
  active paused : RunStatus

pub data SubscriptionStatus : Type 0 where
  live expired upgraded revoked : SubscriptionStatus

pub data OrderStatus : Type 0 where
  pending confirming paid failed lapsed : OrderStatus

-- The daily summary columns of a subscription.
pub record SummarySettings : Type 0 where
  pub enabled : Bool
  pub time : String
  pub timezone : String
  pub chat_type : String
  pub chat_id : String
  pub label : String
  pub language : String
  pub last_sent_date : String
  pub scheduled_push_last_sent_at : Option ℕ
  pub last_period_end_at : Option ℕ

pub record Subscription : Type 0 where
  pub id : ℕ
  pub debox_user_id : String
  pub plan_code : String
  pub status : SubscriptionStatus
  pub starts_at : ℕ
  pub expires_at : ℕ
  pub daily_summary : SummarySettings
  pub is_permanent : Bool
  pub entitlement_source : String
  pub entitlement_wallet_address : Option String

-- A row of daily_summary_targets or of daily_summary_deliveries.
pub record SummaryRow : Type 0 where
  pub subscription_id : ℕ
  pub chat_id : String

pub record Order : Type 0 where
  pub id : ℕ
  pub debox_user_id : String
  pub payer_address : String
  pub plan_code : String
  pub billing_cycle : String
  pub subscription_days : ℕ
  pub chain_key : String
  pub chain_id : ℕ
  pub token_address : Option String
  pub token_symbol : String
  pub token_decimals : ℕ
  pub total_amount : String
  pub recipient_address : String
  pub tx_hash : Option String
  pub status : OrderStatus
  pub expires_at : ℕ
  pub completed_at : Option ℕ
  pub tx_block_number : Option ℕ
  pub tx_confirmations : ℕ
  pub verified_at : Option ℕ
  pub verification_error : String

pub record WatchRule : Type 0 where
  pub id : ℕ
  pub debox_user_id : String
  pub chain_key : String
  pub chain_id : ℕ
  pub wallet_address : String
  pub token_address : Option String
  pub target_address : Option String
  pub target_label : String
  pub rule_type : String
  pub threshold : String
  pub notification_chat_id : String
  pub notification_chat_type : String
  pub notification_label : String
  pub notification_language : String
  pub rule_scope : String
  pub delivery_mode : String
  pub cycle_type : String
  pub cycle_minutes : ℕ
  pub trigger_count_threshold : ℕ
  pub aggregation_anchor_at : Option ℕ
  pub enabled : Bool
  pub run_status : RunStatus
  pub pause_reason : String
  pub last_value : Option String
  pub last_checked_at : Option ℕ
  pub created_at : ℕ

-- combination_rules and market_combination_rules
pub record Combination : Type 0 where
  pub id : ℕ
  pub debox_user_id : String
  pub cycle_type : String
  pub notification_chat_type : String
  pub enabled : Bool
  pub run_status : RunStatus
  pub pause_reason : String
  pub aggregation_anchor_at : Option ℕ
  pub created_at : ℕ

pub record CombinationMember : Type 0 where
  pub combination_rule_id : ℕ
  pub watch_rule_id : ℕ

pub data MarketMember : Type 0 where
  watch market : ℕ → MarketMember

pub record MarketCombinationMember : Type 0 where
  pub market_combination_rule_id : ℕ
  pub member : MarketMember

pub record MarketRule : Type 0 where
  pub id : ℕ
  pub debox_user_id : String
  pub market_project_id : ℕ
  pub rule_type : String
  pub delivery_mode : String
  pub cycle_type : String
  pub notification_chat_type : String
  pub enabled : Bool
  pub run_status : RunStatus
  pub pause_reason : String
  pub aggregation_anchor_at : Option ℕ
  pub created_at : ℕ

-- The `archived` projects are neither active nor paused.
pub data ProjectStatus : Type 0 where
  active paused archived : ProjectStatus

pub record MarketProject : Type 0 where
  pub id : ℕ
  pub debox_user_id : String
  pub status : ProjectStatus
  pub pause_reason : String
  pub created_at : ℕ

pub record NotificationGroup : Type 0 where
  pub id : ℕ
  pub debox_user_id : String
  pub gid : String
  pub name : String
  pub enabled : Bool

pub record UserPreference : Type 0 where
  pub debox_user_id : String
  pub free_watch_rule_id : Option ℕ

pub record AggregationWindow : Type 0 where
  pub watch_rule_id : Option ℕ
  pub closed_at : Option ℕ

-- A row of market_rule_events, market_stage_windows or market_combination_windows: its rule and the
-- state of its notification.
pub record Delivery : Type 0 where
  pub rule_id : ℕ
  pub notification_status : String
  pub notification_error : String
  pub closed_at : Option ℕ

pub record Db : Type 0 where
  pub subscriptions : List Subscription
  pub summary_targets : List SummaryRow
  pub summary_deliveries : List SummaryRow
  pub orders : List Order
  pub watch_rules : List WatchRule
  pub combination_rules : List Combination
  pub combination_members : List CombinationMember
  pub market_projects : List MarketProject
  pub market_rules : List MarketRule
  pub market_combinations : List Combination
  pub market_combination_members : List MarketCombinationMember
  pub notification_groups : List NotificationGroup
  pub user_preferences : List UserPreference
  pub aggregation_windows : List AggregationWindow
  pub market_rule_events : List Delivery
  pub market_stage_windows : List Delivery
  pub market_combination_windows : List Delivery
  pub next_id : ℕ

-- The errors of store.go that these operations return.
pub data StoreError : Type 0 where
  active_subscription_conflict combination_member_managed group_limit_reached : StoreError
  group_notification_denied invalid_free_watch_rule not_found order_conflict : StoreError
  order_invalid order_transaction_used permanent_entitlement rule_limit_reached : StoreError
  rule_type_denied subscription_changed wallet_limit_reached : StoreError
  -- a statement that violates a constraint of the schema, or finds no row where the schema has one:
  -- the code wraps the driver's error
  constraint_violated : StoreError

abbrev pub is_active : RunStatus → Bool
is_active active = true
is_active paused = false

abbrev pub is_live : SubscriptionStatus → Bool
is_live live = true
is_live _ = false

abbrev pub is_pending : OrderStatus → Bool
is_pending pending = true
is_pending _ = false

abbrev pub is_confirming : OrderStatus → Bool
is_confirming confirming = true
is_confirming _ = false

abbrev pub is_paid : OrderStatus → Bool
is_paid paid = true
is_paid _ = false

abbrev pub is_active_project : ProjectStatus → Bool
is_active_project ProjectStatus.active = true
is_active_project _ = false
