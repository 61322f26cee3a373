-- ===== src/MarketRules/Types.antt =====
-- The rows of internal/store/market_models.go that the evaluator reads, with the columns that it
-- reads, and its own types. A time is a number of seconds.
use de_box_asset_alert.Prelude.{ℕ, String, Bool, Option, List}
use de_box_asset_alert.Prelude.Int.{ℤ}

-- What json.Unmarshal gives for a key: a text, a float64 by its shortest decimal text, another value,
-- or nothing. A payload that is no JSON object has no keys.
pub data MetadataValue : Type 0 where
  text number : String → MetadataValue
  other absent : MetadataValue

abbrev pub Metadata : Type 0
Metadata = String → MetadataValue

-- The state that a rule carries from one evaluation to the next, decoded from its JSON.
pub record RuleState : Type 0 where
  pub last_snapshot_id : ℕ
  pub last_event_id : ℕ
  pub condition_active : Bool
  pub pending_crossing : Bool

pub record Rule : Type 0 where
  pub id : ℕ
  pub market_pool_id : Option ℕ
  pub rule_type : String
  pub threshold_value : String
  pub threshold_unit : String
  pub window_minutes : Option ℤ
  pub cooldown_seconds : ℤ
  pub repeat_while_active : Bool
  pub trigger_count_threshold : ℤ
  pub state : RuleState
  pub last_triggered_at : Option ℕ

pub record Project : Type 0 where
  pub id : ℕ
  pub token_symbol : String
  pub total_supply_raw : Option String
  pub main_pool_id : Option ℕ

pub record Snapshot : Type 0 where
  pub id : ℕ
  pub market_pool_id : ℕ
  pub price_usd : Option String
  pub liquidity_usd : Option String
  pub volume_5m_usd : Option String
  pub volume_15m_usd : Option String
  pub volume_1h_usd : Option String
  pub volume_6h_usd : Option String
  pub volume_24h_usd : Option String
  pub buys_5m : Option ℕ
  pub sells_5m : Option ℕ
  pub buys_1h : Option ℕ
  pub sells_1h : Option ℕ
  pub buys_24h : Option ℕ
  pub sells_24h : Option ℕ
  pub captured_at : ℕ

pub record Event : Type 0 where
  pub id : ℕ
  pub market_pool_id : Option ℕ
  pub event_type : String
  pub event_key : String
  pub wallet_address : Option String
  pub token_amount_raw : Option String
  pub token_amount : Option String
  pub usd_value : Option String
  pub confirmed : Bool
  pub reorged : Bool
  pub occurred_at : ℕ
  pub metadata : Metadata

pub record Holder : Type 0 where
  pub holder_address : String
  pub excluded : Bool

pub record AddressLabel : Type 0 where
  pub address : String
  pub excluded : Bool

-- The JSON of a trigger: that of a snapshot by its five fields, or the metadata of an event.
pub data Details : Type 0 where
  of_snapshot : ℕ → String → String → String → Option ℤ → Details
  of_event : Metadata → Details

pub record Trigger : Type 0 where
  pub event : Option Event
  pub event_type : String
  pub event_key : String
  pub previous_value : Option String
  pub current_value : Option String
  pub note : String
  pub details : Details
  pub occurred_at : ℕ

-- A trigger that the cooldown suppresses, with the reason.
pub record SuppressedTrigger : Type 0 where
  pub trigger : Trigger
  pub reason : String

pub record Evaluation : Type 0 where
  pub state : RuleState
  pub triggers : List Trigger
  pub suppressed : List SuppressedTrigger

pub record EvaluationInput : Type 0 where
  pub rule : Rule
  pub project : Project
  pub snapshots : List Snapshot
  pub events : List Event
  pub holders : List Holder
  pub labels : List AddressLabel
  pub now : ℕ

pub data EvaluationError : Type 0 where
  invalid_threshold : EvaluationError
