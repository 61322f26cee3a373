-- ===== src/Monitor/Trigger.antt =====
-- internal/monitor/executor.go: the delivery of a trigger, at once or by a window.
pub mod Realtime
use de_box_asset_alert.Prelude.{
  ℕ, String, Bool, true, false, Option, none, some, Result, ok, err, List, [], ◌∷◌, append, str_eq,
  ◌||◌, if◌then◌else◌,
}
use de_box_asset_alert.Prelude.Strings.{cut_before}
use de_box_asset_alert.Store.Tables.{WatchRule}
use de_box_asset_alert.Store.Rules.{normalize_language}
use de_box_asset_alert.Alerts.Tables.{
  NoticeStatus, pending, sent as notice_sent, failed, AlertDb, AlertError, AlertEvent,
  AggregateNotification,
}
use de_box_asset_alert.Alerts.Tx.{AlertTx}
use de_box_asset_alert.Alerts.Events.{
  CreateAlertEventParams, create_alert_event, update_alert_event_notification,
  update_aggregate_notification,
}
use de_box_asset_alert.Alerts.Stage.{RecordTriggerParams, StageTriggerResult, record_stage_trigger}
use de_box_asset_alert.Alerts.Combination.{CombinationTriggerResult, record_combination_trigger}
use de_box_asset_alert.Monitor.Check.{
  World, Action, Message, State, CheckError, send_failed, record_failed, claimed_without_record,
  alerted, counted, RuleResult, new_result, Check, ◌>>=◌, ◌>>◌, pure, fail, attempted, lifted,
  store, sent,
}
use de_box_asset_alert.Monitor.Texts.{alert_text, stage_alert_text, combination_alert_text}

-- A failed delivery, once its failure has been recorded or not.
unfoldable pub failure_of :
    {A : Type 0} → String → Result AlertError A × State → Result CheckError A × State
failure_of message (ok a, s) = (err (send_failed message), s)
failure_of message (err e, s) = (err (record_failed message e), s)

-- The outcome of the messenger, in the columns of the notification.
unfoldable pub record_outcome :
    {A : Type 0}
    → (NoticeStatus → Option String → String → AlertTx A)
    → Result String String
    → Check A
unfolding failure_of
record_outcome write (ok message_id) s = store (write notice_sent (some message_id) "") s
record_outcome write (err message) s =
    failure_of message (attempted s (write failed none message s.db))

unfoldable pub deliver :
    World
    → String
    → String
    → String
    → Option Action
    → Result String String
    → Check (Result String String)
deliver w chat_id chat_type text action outcome s = (
  ok outcome,
  sent
      (record {
        chat_id = chat_id;
        chat_type = chat_type;
        text = text;
        action = action;
        outcome = outcome;
      })
      s,
)

unfoldable pub new_event : WatchRule → Option String → String → CreateAlertEventParams
new_event rule previous_value current_value = record {
  watch_rule_id = rule.id;
  event_type = rule.rule_type;
  previous_value = previous_value;
  current_value = some current_value;
  message_id = none;
  status = pending;
}

-- The attempt to send an alert.
unfoldable pub send_event : World → WatchRule → String → AlertEvent → Check AlertEvent
unfolding deliver record_outcome update_alert_event_notification
send_event w rule text event = do
  outcome ←
      deliver w rule.notification_chat_id rule.notification_chat_type text none
        (w.send_notification rule.notification_chat_id rule.notification_chat_type text)
  record_outcome
      (λ status message_id error.
        update_alert_event_notification event.id status message_id error w.now)
      outcome

-- The new alert, and the attempt to send it.
unfoldable pub record_and_send :
    World → WatchRule → Option String → String → String → Check AlertEvent
unfolding create_alert_event new_event send_event alert_text
record_and_send w rule previous_value current_value note = do
  event ← store (create_alert_event (new_event rule previous_value current_value) w.now)
  send_event w rule (alert_text rule previous_value current_value note) event

-- The button, if the messenger has them and the address of the application is known.
unfoldable pub action_of : World → String → Option Action
unfolding cut_before normalize_language append
action_of w language =
    if str_eq w.public_app_url ""
    then none
    else some (record {
      text = if str_eq (normalize_language language) "en" then "View all events" else "查看全部事件";
      url = append (cut_before b'#' w.public_app_url) "#aggregateEventsSection";
    })

unfoldable pub send_or_plain :
    World
    → String
    → String
    → String
    → Option (String → String → String → Action → Result String String)
    → Option Action
    → Check (Result String String)
unfolding deliver
send_or_plain w chat_id chat_type text none action =
    deliver w chat_id chat_type text none (w.send_notification chat_id chat_type text)
send_or_plain w chat_id chat_type text (some f) none =
    deliver w chat_id chat_type text none (w.send_notification chat_id chat_type text)
send_or_plain w chat_id chat_type text (some f) (some action) =
    deliver w chat_id chat_type text (some action) (f chat_id chat_type text action)

unfoldable pub send_aggregate_notification :
    World → String → String → String → String → Check (Result String String)
unfolding action_of send_or_plain
send_aggregate_notification w chat_id chat_type text language =
    send_or_plain w chat_id chat_type text w.send_with_action (action_of w language)

unfoldable pub aggregate_result :
    RuleResult
    → Result CheckError AggregateNotification × State
    → Result CheckError RuleResult × State
aggregate_result result (err e, s) = (err e, s)
aggregate_result result (ok n, s) = (ok (record result { status = alerted; aggregate = some n }), s)

unfoldable pub record_aggregate :
    World → AggregateNotification → RuleResult → Result String String → Check RuleResult
unfolding record_outcome update_aggregate_notification aggregate_result
record_aggregate w n result outcome s = aggregate_result result (
    record_outcome
      (λ status message_id error. update_aggregate_notification n.id status message_id error w.now)
      outcome s)

-- The result with the notification that was sent.
unfoldable pub send_and_record :
    World → AggregateNotification → String → String → RuleResult → Check RuleResult
unfolding send_aggregate_notification record_aggregate
send_and_record w n text language result = do
  outcome ← send_aggregate_notification w n.chat_id n.chat_type text language
  record_aggregate w n result outcome

-- A notification that is due, with its row.
unfoldable pub notify_if_due :
    World
    → Bool
    → Option AggregateNotification
    → (AggregateNotification → String)
    → (AggregateNotification → String)
    → RuleResult
    → Check RuleResult
unfolding send_and_record
notify_if_due w false notification text language result = pure result
notify_if_due w true none text language result = fail claimed_without_record
notify_if_due w true (some n) text language result =
    send_and_record w n (text n) (language n) result

unfoldable pub trigger_params : WatchRule → Option String → String → String → RecordTriggerParams
trigger_params rule previous_value current_value note = record {
  watch_rule_id = rule.id;
  debox_user_id = rule.debox_user_id;
  previous_value = previous_value;
  current_value = some current_value;
  note = note;
  event_key = "";
  occurred_at = none;
}

unfoldable pub stage_rule_result : WatchRule → String → StageTriggerResult → RuleResult
unfolding new_result
stage_rule_result rule value stage = record (new_result rule.id counted) {
  value = value;
  trigger_count = stage.total_trigger_count;
  trigger_threshold = stage.trigger_count_threshold;
}

unfoldable pub stage_delivery :
    World
    → WatchRule
    → String
    → Result CheckError StageTriggerResult × State
    → Result CheckError RuleResult × State
unfolding stage_rule_result notify_if_due stage_alert_text
stage_delivery w rule value (err e, s) = (err e, s)
stage_delivery w rule value (ok stage, s) =
    notify_if_due w stage.notification_due stage.notification (λ n. stage_alert_text rule stage)
      (λ n. rule.notification_language) (stage_rule_result rule value stage) s

unfoldable pub record_stage : World → WatchRule → Option String → String → String → Check RuleResult
unfolding trigger_params record_stage_trigger stage_delivery
record_stage w rule previous_value current_value note s =
    stage_delivery w rule current_value
      (store (record_stage_trigger (trigger_params rule previous_value current_value note) w.now) s)

unfoldable pub combination_rule_result : WatchRule → String → CombinationTriggerResult → RuleResult
unfolding new_result
combination_rule_result rule value combination = record (new_result rule.id counted) {
  value = value;
  combination_id = combination.combination_rule_id;
  member_progress = combination.member_progress;
}

unfoldable pub combination_delivery :
    World
    → WatchRule
    → String
    → Result CheckError CombinationTriggerResult × State
    → Result CheckError RuleResult × State
unfolding combination_rule_result notify_if_due combination_alert_text
combination_delivery w rule value (err e, s) = (err e, s)
combination_delivery w rule value (ok combination, s) =
    notify_if_due w combination.notification_due combination.notification
      (λ n. combination_alert_text n combination.member_progress) (λ n. n.language)
      (combination_rule_result rule value combination) s

unfoldable pub record_combination :
    World → WatchRule → Option String → String → String → Check RuleResult
unfolding trigger_params record_combination_trigger combination_delivery
record_combination w rule previous_value current_value note s =
    combination_delivery w rule current_value (
      store
        (record_combination_trigger (trigger_params rule previous_value current_value note) w.now)
        s)

unfoldable pub realtime_result :
    WatchRule → String → Result CheckError AlertEvent × State → Result CheckError RuleResult × State
unfolding new_result
realtime_result rule value (err e, s) = (err e, s)
realtime_result rule value (ok event, s) =
    (ok (record (new_result rule.id alerted) { value = value; event = some event }), s)

unfoldable pub record_realtime :
    World → WatchRule → Option String → String → String → Check RuleResult
unfolding record_and_send realtime_result
record_realtime w rule previous_value current_value note s =
    realtime_result rule current_value (record_and_send w rule previous_value current_value note s)

unfoldable pub record_trigger :
    World → WatchRule → Option String → String → String → Check RuleResult
unfolding record_combination record_realtime record_stage
record_trigger w rule previous_value current_value note =
    if str_eq rule.rule_scope "combination"
    then record_combination w rule previous_value current_value note
    else if str_eq rule.delivery_mode "stage"
    then record_stage w rule previous_value current_value note
    else record_realtime w rule previous_value current_value note
