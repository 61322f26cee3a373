-- ===== src/Alerts/Tables.antt =====
-- The rows that a check of a watch rule reads and writes, with the columns that it uses
-- (internal/store/models.go, migrations/0001_python_baseline.sql, 0002_aggregated_notifications.sql).
use de_box_asset_alert.Prelude.{ℕ, String, Bool, true, false, Option, none, some, List}
use de_box_asset_alert.Store.Tables.{WatchRule, Subscription, UserPreference, RunStatus}

pub data NoticeStatus : Type 0 where
  pending sent failed : NoticeStatus

-- The notification columns, which alert_events and aggregate_notifications share.
pub record Notice : Type 0 where
  pub message_id : Option String
  pub status : NoticeStatus
  pub error : String
  pub attempts : ℕ
  pub attempted_at : Option ℕ
  pub sent_at : Option ℕ

pub record AlertEvent : Type 0 where
  pub id : ℕ
  pub watch_rule_id : ℕ
  pub event_type : String
  pub previous_value : Option String
  pub current_value : Option String
  pub notice : Notice
  pub created_at : ℕ

-- source_type, with the one of the two columns that is not NULL.
pub data Source : Type 0 where
  of_rule of_combination : ℕ → Source

pub record AlertWindow : Type 0 where
  pub id : ℕ
  pub debox_user_id : String
  pub source : Source
  pub starts_at : ℕ
  pub ends_at : ℕ
  pub total_trigger_count : ℕ
  pub notification_sent : Bool
  pub notification_sent_at : Option ℕ
  pub closed_at : Option ℕ
  pub updated_at : ℕ

pub record WindowMember : Type 0 where
  pub window_id : ℕ
  pub watch_rule_id : ℕ
  pub required_trigger_count : ℕ
  pub trigger_count : ℕ
  pub reached_at : Option ℕ
  pub updated_at : ℕ

-- A row of rule_trigger_events; of its details, the note.
pub record TriggerEvent : Type 0 where
  pub id : ℕ
  pub debox_user_id : String
  pub watch_rule_id : ℕ
  pub window_id : ℕ
  pub event_type : String
  pub event_key : String
  pub previous_value : Option String
  pub current_value : Option String
  pub note : String
  pub occurred_at : Option ℕ
  pub created_at : ℕ

pub data NotificationKind : Type 0 where
  stage combination : NotificationKind

pub record AggregateNotification : Type 0 where
  pub id : ℕ
  pub debox_user_id : String
  pub window_id : ℕ
  pub kind : NotificationKind
  pub chat_id : String
  pub chat_type : String
  pub label : String
  pub language : String
  pub note : String
  pub trigger_count_snapshot : ℕ
  pub notice : Notice
  pub created_at : ℕ

pub record AlertCombination : Type 0 where
  pub id : ℕ
  pub debox_user_id : String
  pub note : String
  pub cycle_type : String
  pub cycle_minutes : ℕ
  pub notification_chat_id : String
  pub notification_chat_type : String
  pub notification_label : String
  pub notification_language : String
  pub enabled : Bool
  pub run_status : RunStatus
  pub aggregation_anchor_at : Option ℕ
  pub created_at : ℕ

pub record AlertMember : Type 0 where
  pub combination_rule_id : ℕ
  pub watch_rule_id : ℕ
  pub required_trigger_count : ℕ

pub record AlertDb : Type 0 where
  pub watch_rules : List WatchRule
  pub subscriptions : List Subscription
  pub user_preferences : List UserPreference
  pub combinations : List AlertCombination
  pub combination_members : List AlertMember
  pub alert_events : List AlertEvent
  pub windows : List AlertWindow
  pub window_members : List WindowMember
  pub trigger_events : List TriggerEvent
  pub notifications : List AggregateNotification
  pub next_id : ℕ

pub data AlertError : Type 0 where
  not_found stage_delivery_required invalid_notification_status : AlertError
  -- a statement that violates a constraint of the schema: the code wraps the driver's error
  constraint_violated : AlertError

abbrev pub is_pending : NoticeStatus → Bool
is_pending pending = true
is_pending _ = false

abbrev pub is_sent : NoticeStatus → Bool
is_sent sent = true
is_sent _ = false

abbrev pub is_open : Option ℕ → Bool
is_open none = true
is_open (some closed_at) = false
