-- ===== src/Monitor/Check.antt =====
-- internal/monitor/executor.go: what a check of a rule works with. A failed step keeps what the steps before
-- it have written. A check is taken to happen at one moment, and does not panic.
use de_box_asset_alert.Prelude.{ℕ, String, Bool, Option, none, List, [], ◌∷◌, Result, ok, err}
use de_box_asset_alert.Plans.Types.{PlanError}
use de_box_asset_alert.Plans.Catalog.{Catalog}
use de_box_asset_alert.Alerts.Tables.{AlertDb, AlertError, AlertEvent, AggregateNotification}
use de_box_asset_alert.Alerts.Tx.{AlertTx}
use de_box_asset_alert.Alerts.Combination.{MemberProgress}
use de_box_asset_alert.Monitor.Conditions.{Floats}

pub record BalanceResult : Type 0 where
  pub value : String
  pub symbol : String

pub record InteractionResult : Type 0 where
  pub cursor : String
  pub matched : Bool

-- The button of a notification: its text and its address.
pub record Action : Type 0 where
  pub text : String
  pub url : String

-- What the code that is not this program's answers: the chain, the messenger, the clock, the days of a
-- time zone, and decimal texts; and the configuration.
pub record World : Type 0 where
  pub balance : String → String → String → String → Result String BalanceResult
  pub token_allowance : String → String → String → String → String → Result String String
  pub latest_interaction : String → String → String → String → Result String InteractionResult
  pub send_notification : String → String → String → Result String String
  pub send_with_action : Option (String → String → String → Action → Result String String)
  pub now : ℕ
  pub day_in : String → ℕ → ℕ
  pub floats : Floats
  pub catalog : Catalog
  pub default_chain_key : String
  pub public_app_url : String

-- A message that was given to the messenger, with its answer.
pub record Message : Type 0 where
  pub chat_id : String
  pub chat_type : String
  pub text : String
  pub action : Option Action
  pub outcome : Result String String

pub record State : Type 0 where
  pub db : AlertDb
  pub messages : List Message

pub data CheckError : Type 0 where
  store_failed : AlertError → CheckError
  chain_failed send_failed : String → CheckError
  record_failed : String → AlertError → CheckError
  claimed_without_record : CheckError
  plan_failed : PlanError → CheckError

pub data RuleStatus : Type 0 where
  baseline no_change daily_limit alerted counted plan_limited unsupported invalid error : RuleStatus

pub record RuleResult : Type 0 where
  pub rule_id : ℕ
  pub status : RuleStatus
  pub reason : String
  pub plan : String
  pub rule_type : String
  pub limit : ℕ
  pub used : ℕ
  pub value : String
  pub event : Option AlertEvent
  pub aggregate : Option AggregateNotification
  pub trigger_count : ℕ
  pub trigger_threshold : ℕ
  pub combination_id : ℕ
  pub member_progress : List MemberProgress
  pub failure : Option CheckError

-- RuleResult{RuleID: id, Status: status}
unfoldable pub new_result : ℕ → RuleStatus → RuleResult
new_result id status = record {
  rule_id = id;
  status = status;
  reason = "";
  plan = "";
  rule_type = "";
  limit = 0;
  used = 0;
  value = "";
  event = none;
  aggregate = none;
  trigger_count = 0;
  trigger_threshold = 0;
  combination_id = 0;
  member_progress = [];
  failure = none;
}

abbrev pub Check : Type 0 → Type 0
Check A = State → Result CheckError A × State

abbrev pub then_with :
    {A B : Type 0} → Result CheckError A × State → (A → Check B) → Result CheckError B × State
then_with (ok a, s) f = f a s
then_with (err e, s) f = (err e, s)

infixl 5 ◌>>=◌ ◌>>◌
abbrev pub ◌>>=◌ : {A B : Type 0} → Check A → (A → Check B) → Check B
◌>>=◌ m f s = then_with (m s) f

abbrev pub ◌>>◌ : {A B : Type 0} → Check A → Check B → Check B
m >> k = m >>= λ _. k

abbrev pub pure : {A : Type 0} → A → Check A
pure a s = (ok a, s)

abbrev pub fail : {A : Type 0} → CheckError → Check A
fail e s = (err e, s)

-- What a transaction answers; a failed one changes nothing.
abbrev pub attempted :
    {A : Type 0} → State → Result AlertError (A × AlertDb) → Result AlertError A × State
attempted s (ok (a, db)) = (ok a, record s { db = db })
attempted s (err e) = (err e, s)

abbrev pub lifted : {A : Type 0} → Result AlertError A × State → Result CheckError A × State
lifted (ok a, s) = (ok a, s)
lifted (err e, s) = (err (store_failed e), s)

abbrev pub store : {A : Type 0} → AlertTx A → Check A
store tx s = lifted (attempted s (tx s.db))

abbrev pub modify_store : (AlertDb → AlertDb) → Check (Unit {0})
modify_store f s = (ok tt, record s { db = f s.db })

abbrev pub of_chain : {A : Type 0} → Result String A → Check A
of_chain (ok a) s = (ok a, s)
of_chain (err e) s = (err (chain_failed e), s)

-- The messenger's answer, whatever it is.
abbrev pub sent : Message → State → State
sent m s = record s { messages = m ∷ s.messages }
