-- ===== src/MarketDelivery/Tables.antt =====
-- The rows that internal/store/market_delivery.go reads and writes, with the columns that it uses
-- (internal/store/market_models.go, migrations/0008_market_rules_notifications.sql).
use de_box_asset_alert.Prelude.{ℕ, String, Bool, true, false, not, Option, List, exists, ◌&&◌, ◌==◌}

pub data Status : Type 0 where
  staged combined collecting pending sending sent failed skipped : Status

-- A row of one of the three tables with notifications: their common columns, and the other ones.
pub record Row (A : Type 0) : Type 0 where
  pub id : ℕ
  pub status : Status
  pub message_id : Option String
  pub error : String
  pub attempts : ℕ
  pub attempted_at : Option ℕ
  pub sent_at : Option ℕ
  pub next_attempt_at : ℕ
  pub columns : A

pub record RuleEvent : Type 0 where
  pub market_rule_id : ℕ
  pub market_event_id : ℕ
  pub trigger_key : String

pub record StageWindow : Type 0 where
  pub debox_user_id : String
  pub market_rule_id : ℕ
  pub starts_at : ℕ
  pub ends_at : ℕ
  pub trigger_count : ℕ
  pub closed_at : Option ℕ
  pub updated_at : ℕ

pub record CombinationWindow : Type 0 where
  pub combination_id : ℕ

pub record DeliveryRule : Type 0 where
  pub id : ℕ
  pub debox_user_id : String
  pub project_id : ℕ
  pub enabled : Bool
  pub is_active : Bool
  pub delivery_mode : String
  pub cycle_type : String
  pub cycle_minutes : ℕ
  pub trigger_count_threshold : ℕ
  pub aggregation_anchor_at : Option ℕ
  pub deployment_scope : String

pub record DeliveryProject : Type 0 where
  pub id : ℕ
  pub is_active : Bool
  pub chain_id : ℕ
  pub token_address : String

pub record ChainEvent : Type 0 where
  pub id : ℕ
  pub reorged : Bool
  pub chain_id : ℕ
  pub token_address : String

pub record ProjectDeployment : Type 0 where
  pub id : ℕ
  pub project_id : ℕ
  pub asset_deployment_id : ℕ
  pub is_active : Bool

pub record AssetDeployment : Type 0 where
  pub id : ℕ
  pub chain_id : ℕ
  pub token_address : String

pub record RuleDeployment : Type 0 where
  pub market_rule_id : ℕ
  pub project_deployment_id : ℕ

pub record DeliveryCombination : Type 0 where
  pub id : ℕ
  pub enabled : Bool
  pub is_active : Bool

-- A row that puts a rule event into a window.
pub record WindowEvent : Type 0 where
  pub window_id : ℕ
  pub rule_event_id : ℕ

pub record Db : Type 0 where
  pub rules : List DeliveryRule
  pub projects : List DeliveryProject
  pub events : List ChainEvent
  pub combinations : List DeliveryCombination
  pub project_deployments : List ProjectDeployment
  pub asset_deployments : List AssetDeployment
  pub rule_deployments : List RuleDeployment
  pub rule_events : List (Row RuleEvent)
  pub stage_windows : List (Row StageWindow)
  pub combination_windows : List (Row CombinationWindow)
  pub stage_window_events : List WindowEvent
  pub combination_window_events : List WindowEvent
  pub next_id : ℕ

pub data DeliveryError : Type 0 where
  not_found invalid_notification_status invalid_market_rule_event : DeliveryError

abbrev pub is_staged : Status → Bool
is_staged staged = true
is_staged _ = false

abbrev pub is_combined : Status → Bool
is_combined combined = true
is_combined _ = false

abbrev pub is_collecting : Status → Bool
is_collecting collecting = true
is_collecting _ = false

abbrev pub is_sending : Status → Bool
is_sending sending = true
is_sending _ = false

abbrev pub is_pending : Status → Bool
is_pending pending = true
is_pending _ = false

-- notification_status IN ('pending', 'failed')
abbrev pub is_queued : Status → Bool
is_queued pending = true
is_queued failed = true
is_queued _ = false

-- notification_status IN ('sent', 'sending', 'skipped')
abbrev pub is_emitted : Status → Bool
is_emitted sent = true
is_emitted sending = true
is_emitted skipped = true
is_emitted _ = false

-- A rule and its project run.
unfoldable pub rule_runs : Db → ℕ → Bool
unfolding exists
rule_runs db rule_id =
    exists
      (λ (r : DeliveryRule).
        (r.id == rule_id)
        && (r.enabled
            && (r.is_active
                && exists (λ (p : DeliveryProject). (p.id == r.project_id) && p.is_active)
                    db.projects)))
      db.rules

unfoldable pub is_on_chain : Db → ℕ → Bool
unfolding exists
is_on_chain db event_id = exists (λ (e : ChainEvent). (e.id == event_id) && not e.reorged) db.events

unfoldable pub combination_is_running : Db → ℕ → Bool
unfolding exists
combination_is_running db combination_id =
    exists (λ (c : DeliveryCombination). (c.id == combination_id) && (c.enabled && c.is_active))
      db.combinations
