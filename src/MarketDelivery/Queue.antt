-- ===== src/MarketDelivery/Queue.antt =====
-- internal/store/market_delivery.go: RecoverStaleMarketDeliveries, ClaimMarketDeliveries and
-- CompleteMarketDelivery. SKIP LOCKED is not modelled: an operation sees all rows.
pub mod Moves
pub mod History
pub mod Claims
use de_box_asset_alert.Prelude.{
  ℕ, ◌+◌, ◌-◌, ◌*◌, ◌^◌, String, Bool, true, false, not, ◌&&◌, ◌||◌, Option, none, some, List, [],
  ◌∷◌, ◌++◌, map, Result, ok, err, select, update, count, exists, take, length, take_runes, str_eq,
  ◌==◌, leb, ltb, if◌then◌else◌,
}
use de_box_asset_alert.Prelude.Int.{ℤ, pos, leb_ℤ, pos_part}
use de_box_asset_alert.Prelude.Sort.{sort}
use de_box_asset_alert.Store.Orders.{clamp}
use de_box_asset_alert.MarketDelivery.Tables.{
  Status, pending, sending, sent, failed, skipped, Row, RuleEvent, StageWindow, CombinationWindow,
  WindowEvent, Db, DeliveryError, not_found, invalid_notification_status, is_staged, is_combined,
  is_sending, is_queued, rule_runs, is_on_chain, combination_is_running,
}

abbrev attempted_before : Option ℕ → ℕ → ℕ → Bool
attempted_before none lease now = false
attempted_before (some at) lease now = ltb (at + lease) now

abbrev pub is_among : List ℕ → ℕ → Bool
is_among ids id = exists (λ i. i == id) ids

abbrev or_old : Option String → Option String → Option String
or_old (some new) old = some new
or_old none old = old

-- The statements on one table, with whatever other columns it has.
module _ {A : Type 0} where
  unfoldable pub is_stale : ℕ → ℕ → Row A → Bool
  is_stale lease now r = is_sending r.status && attempted_before r.attempted_at lease now

  unfoldable pub expire_lease : ℕ → Row A → Row A
  expire_lease now r = record r {
    status = failed;
    error = "notification worker lease expired";
    next_attempt_at = now;
  }

  unfoldable pub recover_table : ℕ → ℕ → List (Row A) → ℕ × List (Row A)
  unfolding count update is_stale expire_lease
  recover_table lease now rows =
      (count (is_stale lease now) rows, update (is_stale lease now) (expire_lease now) rows)

  unfoldable pub is_due : ℕ → Row A → Bool
  is_due now r = is_queued r.status && (leb r.next_attempt_at now && ltb r.attempts 5)

  unfoldable pub start_sending : ℕ → Row A → Row A
  start_sending now r = record r { status = sending; attempted_at = some now }

  -- WITH candidates: the ids of the first rows that are due and pass the extra condition.
  unfoldable pub candidates : (Row A → Bool) → ℕ → ℕ → List (Row A) → List ℕ
  unfolding select sort is_due
  candidates extra limit now rows = take limit (
      map (λ r. r.id)
        (sort (λ (a b : Row A). ltb a.id b.id) (select (λ r. is_due now r && extra r) rows)))

  unfoldable pub claim_table : (Row A → Bool) → ℕ → ℕ → List (Row A) → List ℕ × List (Row A)
  unfolding candidates start_sending update exists
  claim_table extra limit now rows =
      let ids = candidates extra limit now rows in
      (ids, update (λ r. is_among ids r.id) (start_sending now) rows)

  unfoldable pub completed : Option String → String → ℕ → Row A → Row A
  unfolding take_runes
  completed message delivery_error now r =
      let delay = 30 * 2 ^ r.attempts in
      if str_eq delivery_error ""
      then record r {
        status = sent;
        message_id = or_old message r.message_id;
        error = "";
        attempts = r.attempts + 1;
        attempted_at = some now;
        sent_at = some now;
      }
      else record r {
        status = if leb 5 (r.attempts + 1) then skipped else failed;
        message_id = or_old message r.message_id;
        error = take_runes 2000 delivery_error;
        attempts = r.attempts + 1;
        attempted_at = some now;
        next_attempt_at = now + (if leb 1800 delay then 1800 else delay);
      }

  unfoldable pub is_claimed : ℕ → Row A → Bool
  is_claimed id r = (r.id == id) && is_sending r.status

  -- No row with the claim is an error.
  unfoldable pub complete_table :
      ℕ → Option String → String → ℕ → List (Row A) → Result DeliveryError (List (Row A))
  unfolding completed is_claimed update exists
  complete_table id message delivery_error now rows =
      if exists (is_claimed id) rows
      then ok (update (is_claimed id) (completed message delivery_error now) rows)
      else err not_found

-- The row of a notification that its window has sent.
unfoldable pub mark_sent : Option String → ℕ → Row RuleEvent → Row RuleEvent
mark_sent message now r = record r { status = sent; message_id = message; sent_at = some now }

abbrev pub is_in_window : List WindowEvent → ℕ → ℕ → Bool
is_in_window links window_id rule_event_id =
    exists (λ (w : WindowEvent). (w.window_id == window_id) && (w.rule_event_id == rule_event_id))
      links

unfoldable pub recover_stale_market_deliveries : ℤ → ℕ → Db → ℕ × Db
unfolding recover_table
recover_stale_market_deliveries lease now db =
    let seconds = if leb_ℤ lease (pos 0) then 300 else pos_part lease in
    let (realtime, rule_events) = recover_table seconds now db.rule_events in
    let (stage, stage_windows) = recover_table seconds now db.stage_windows in
    let (combination, combination_windows) = recover_table seconds now db.combination_windows in
    (
      realtime + stage + combination,
      record db {
        rule_events = rule_events;
        stage_windows = stage_windows;
        combination_windows = combination_windows;
      },
    )

pub record Claim : Type 0 where
  pub kind : String
  pub id : ℕ

abbrev pub claims_of : String → List ℕ → List Claim
claims_of kind ids = map (λ id. record { kind = kind; id = id }) ids

unfoldable pub can_notify_realtime : Db → Row RuleEvent → Bool
unfolding is_on_chain rule_runs
can_notify_realtime db r =
    is_on_chain db r.columns.market_event_id && rule_runs db r.columns.market_rule_id

unfoldable pub can_notify_stage : Db → Row StageWindow → Bool
unfolding rule_runs
can_notify_stage db r = rule_runs db r.columns.market_rule_id

unfoldable pub can_notify_combination : Db → Row CombinationWindow → Bool
unfolding combination_is_running
can_notify_combination db r = combination_is_running db r.columns.combination_id

-- A limit of 0 leaves a table as it is, as the early end of the loop does.
unfoldable pub claim_market_deliveries : ℕ → ℕ → Db → List Claim × Db
unfolding clamp claim_table can_notify_realtime can_notify_stage can_notify_combination
claim_market_deliveries wanted now db =
    let limit = clamp wanted 1 200 in
    let (realtime, rule_events) = claim_table (can_notify_realtime db) limit now db.rule_events in
    let left = limit - length realtime in
    let (stage, stage_windows) = claim_table (can_notify_stage db) left now db.stage_windows in
    let (combination, combination_windows) =
      claim_table (can_notify_combination db) (left - length stage) now db.combination_windows in
    (
      claims_of "realtime" realtime
          ++ (claims_of "stage" stage ++ claims_of "combination" combination),
      record db {
        rule_events = rule_events;
        stage_windows = stage_windows;
        combination_windows = combination_windows;
      },
    )

-- The rule events of a window that was sent are sent with it.
unfoldable pub send_members :
    (Status → Bool)
    → List WindowEvent
    → ℕ
    → Option String
    → ℕ
    → List (Row RuleEvent)
    → List (Row RuleEvent)
unfolding mark_sent update exists
send_members waits links window_id message now rule_events =
    update (λ (r : Row RuleEvent). waits r.status && is_in_window links window_id r.id)
      (mark_sent message now) rule_events

-- `if status == "sent"`
unfoldable pub sent_members :
    (Status → Bool)
    → List WindowEvent
    → ℕ
    → Option String
    → String
    → ℕ
    → List (Row RuleEvent)
    → List (Row RuleEvent)
unfolding send_members
sent_members waits links window_id message delivery_error now rule_events =
    if str_eq delivery_error ""
    then send_members waits links window_id message now rule_events
    else rule_events

unfoldable pub complete_market_delivery :
    Claim → Option String → String → ℕ → Db → Result DeliveryError Db
unfolding complete_table sent_members
complete_market_delivery claim message delivery_error now db =
    if str_eq claim.kind "realtime"
    then elim (complete_table claim.id message delivery_error now db.rule_events) [
      | err e ↦ err e
      | ok rows ↦ ok (record db { rule_events = rows })
    ]
    else if str_eq claim.kind "stage"
    then elim (complete_table claim.id message delivery_error now db.stage_windows) [
      | err e ↦ err e
      | ok rows ↦ ok (record db {
        stage_windows = rows;
        rule_events =
            sent_members is_staged db.stage_window_events claim.id message delivery_error now
              db.rule_events;
      })
    ]
    else if str_eq claim.kind "combination"
    then elim (complete_table claim.id message delivery_error now db.combination_windows) [
      | err e ↦ err e
      | ok rows ↦ ok (record db {
        combination_windows = rows;
        rule_events =
            sent_members is_combined db.combination_window_events claim.id message delivery_error
              now db.rule_events;
      })
    ]
    else err invalid_notification_status
