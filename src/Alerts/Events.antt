-- ===== src/Alerts/Events.antt =====
-- internal/store/events.go: the alerts of a rule that notifies in real time, and the outcome of a
-- notification.
use de_box_asset_alert.Prelude.{
  ℕ, suc, String, Bool, ◌&&◌, Option, none, some, List, ◌∷◌, ok, err, count, exists, find, update,
  take_runes, str_eq, ◌==◌, if◌then◌else◌,
}
use de_box_asset_alert.Store.Tables.{WatchRule}
use de_box_asset_alert.Alerts.Tables.{
  NoticeStatus, Notice, AlertEvent, AggregateNotification, AlertDb, not_found,
  invalid_notification_status, constraint_violated, is_pending, is_sent,
}
use de_box_asset_alert.Alerts.Tx.{AlertTx, ◌>>=◌, ◌>>◌, refuse_if, gets, modify, or_fail}

unfoldable pub owns : List WatchRule → String → ℕ → Bool
unfolding exists
owns rules user rule_id =
    exists (λ (r : WatchRule). (r.id == rule_id) && str_eq r.debox_user_id user) rules

-- `AT TIME ZONE`, with the day of a moment in a time zone, is the database's.
unfoldable pub is_on_day : (String → ℕ → ℕ) → String → ℕ → AlertEvent → Bool
is_on_day day_in timezone now e = day_in timezone e.created_at == day_in timezone now

unfoldable pub count_daily_alert_events : (String → ℕ → ℕ) → String → String → ℕ → AlertDb → ℕ
unfolding count owns is_on_day
count_daily_alert_events day_in user timezone now db =
    count
      (λ (e : AlertEvent).
        owns db.watch_rules user e.watch_rule_id && is_on_day day_in timezone now e)
      db.alert_events

-- The notification columns of a new row.
unfoldable pub new_notice : NoticeStatus → Notice
new_notice status = record {
  message_id = none;
  status = status;
  error = "";
  attempts = 0;
  attempted_at = none;
  sent_at = none;
}

pub record CreateAlertEventParams : Type 0 where
  pub watch_rule_id : ℕ
  pub event_type : String
  pub previous_value : Option String
  pub current_value : Option String
  pub message_id : Option String
  pub status : NoticeStatus

unfoldable pub insert_alert_event : CreateAlertEventParams → ℕ → AlertTx AlertEvent
unfolding new_notice
insert_alert_event params now db =
    let event : AlertEvent = record {
      id = db.next_id;
      watch_rule_id = params.watch_rule_id;
      event_type = params.event_type;
      previous_value = params.previous_value;
      current_value = params.current_value;
      notice = record (new_notice params.status) { message_id = params.message_id };
      created_at = now;
    } in
    ok (event, record db { alert_events = event ∷ db.alert_events; next_id = suc db.next_id })

-- The rule of an event exists.
unfoldable pub create_alert_event : CreateAlertEventParams → ℕ → AlertTx AlertEvent
unfolding insert_alert_event exists
create_alert_event params now db =
    if exists (λ (r : WatchRule). r.id == params.watch_rule_id) db.watch_rules
    then insert_alert_event params now db
    else err constraint_violated

-- One more attempt, with its outcome.
unfoldable pub attempt : NoticeStatus → Option String → String → ℕ → Notice → Notice
unfolding take_runes
attempt status message_id error now notice = record {
  message_id = message_id;
  status = status;
  error = take_runes 500 error;
  attempts = suc notice.attempts;
  attempted_at = some now;
  sent_at = if is_sent status then some now else none;
}

unfoldable pub attempt_event : NoticeStatus → Option String → String → ℕ → AlertEvent → AlertEvent
unfolding attempt
attempt_event status message_id error now e = record e {
  notice = attempt status message_id error now e.notice;
}

unfoldable pub attempt_notification :
    NoticeStatus → Option String → String → ℕ → AggregateNotification → AggregateNotification
unfolding attempt
attempt_notification status message_id error now n = record n {
  notice = attempt status message_id error now n.notice;
}

-- The status is `sent` or `failed`.
unfoldable pub update_alert_event_notification :
    ℕ → NoticeStatus → Option String → String → ℕ → AlertTx AlertEvent
unfolding update find attempt_event
update_alert_event_notification event_id status message_id error now = do
  refuse_if (is_pending status) invalid_notification_status
  modify (λ db. record db {
    alert_events =
        update (λ (e : AlertEvent). e.id == event_id) (attempt_event status message_id error now)
          db.alert_events;
  })
  row ← gets (λ db. find (λ (e : AlertEvent). e.id == event_id) db.alert_events)
  or_fail not_found row

unfoldable pub update_aggregate_notification :
    ℕ → NoticeStatus → Option String → String → ℕ → AlertTx AggregateNotification
unfolding update find attempt_notification
update_aggregate_notification notification_id status message_id error now = do
  refuse_if (is_pending status) invalid_notification_status
  modify (λ db. record db {
    notifications =
        update (λ (n : AggregateNotification). n.id == notification_id)
          (attempt_notification status message_id error now) db.notifications;
  })
  row ← gets (λ db. find (λ (n : AggregateNotification). n.id == notification_id) db.notifications)
  or_fail not_found row

unfoldable pub store_rule_value : ℕ → String → ℕ → AlertDb → AlertDb
unfolding update
store_rule_value rule_id value now db = record db {
  watch_rules =
      update (λ (r : WatchRule). r.id == rule_id)
        (λ r. record r { last_value = some value; last_checked_at = some now }) db.watch_rules;
}
