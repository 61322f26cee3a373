-- ===== src/Monitor/Delivery.antt =====
-- internal/monitor/executor.go: what the notification of a window, and so any delivery, does.
use de_box_asset_alert.Prelude.{
  String, Bool, true, false, inl, inr, ◌≡◌, refl, ap, ◌∙◌, Option, none, some, Result, ok, err,
  List, ◌∷◌, count, str_eq, arith, Bool-cases,
}
use de_box_asset_alert.Store.Tables.{WatchRule}
use de_box_asset_alert.Alerts.Tables.{AggregateNotification, AlertDb, AlertError, sent, failed}
use de_box_asset_alert.Alerts.Events.{update_aggregate_notification}
use de_box_asset_alert.Alerts.Stage.{StageTriggerResult, record_stage_trigger}
use de_box_asset_alert.Alerts.Combination.{CombinationTriggerResult, record_combination_trigger}
use de_box_asset_alert.Alerts.Frames.{
  Frame, Keeps, record_stage_trigger-Keeps, record_combination_trigger-Keeps,
  update_aggregate_notification-Keeps,
}
use de_box_asset_alert.Monitor.Check.{
  World, Action, Message, counted, RuleResult, new_result, lifted, attempted,
}
use de_box_asset_alert.Monitor.Texts.{stage_alert_text, combination_alert_text}
use de_box_asset_alert.Monitor.Trigger.{
  failure_of, record_outcome, deliver, action_of, send_or_plain, send_aggregate_notification,
  aggregate_result, record_aggregate, send_and_record, notify_if_due, trigger_params,
  stage_rule_result, stage_delivery, combination_delivery, record_stage, combination_rule_result,
  record_combination, record_trigger,
}
use de_box_asset_alert.Monitor.Trigger.Realtime.{has_arrived}
use de_box_asset_alert.Monitor.Effects.{
  is_alerted, is_quiet, Effect, framed, record_realtime-Effect, arrived_ok,
}

module _ (w : World) (user timezone : String) where
  -- Every way to send a notification of a window is one message, with its outcome.
  send_or_plain-one :
      (chat_id chat_type text : String)
      (sender : Option (String → String → String → Action → Result String String))
      (action : Option Action) (db : AlertDb) (ms : List Message)
      → (m : Message) × (send_or_plain w chat_id chat_type text sender action
            (record { db = db; messages = ms })
          ≡ (ok m.outcome, record { db = db; messages = m ∷ ms }))
  unfolding send_or_plain deliver
  send_or_plain-one chat_id chat_type text none action db ms = (_, refl)
  send_or_plain-one chat_id chat_type text (some f) none db ms = (_, refl)
  send_or_plain-one chat_id chat_type text (some f) (some action) db ms = (_, refl)

  -- What is left of a delivered notification, recorded or not.
  recorded :
      (result : RuleResult) (db0 db : AlertDb) (ms : List Message) (m : Message)
      (r : Result AlertError (AggregateNotification × AlertDb))
      → Frame db0 db
      → has_arrived m ≡ true
      → Keeps db r
      → Effect w user timezone db0 ms
          (aggregate_result result (lifted (attempted (record { db = db; messages = m ∷ ms }) r)))
  unfolding aggregate_result count
  recorded result db0 db ms m (ok (n, db')) f e k =
      framed w user timezone db0 db' ms _ (m ∷ ms)
        (record { events = k.events ∙ f.events; rules = k.rules ∙ f.rules }) (omega arith)
        (ground (arith, e)) refl
  recorded result db0 db ms m (err x) f e k =
      framed w user timezone db0 db ms _ (m ∷ ms) f (omega arith) (ground arith) tt

  -- What is left of a refused one.
  unrecorded :
      (result : RuleResult) (message : String) (db0 db : AlertDb) (ms : List Message) (m : Message)
      (r : Result AlertError (AggregateNotification × AlertDb))
      → Frame db0 db
      → Keeps db r
      → Effect w user timezone db0 ms (
          aggregate_result result
            (failure_of message (attempted (record { db = db; messages = m ∷ ms }) r)))
  unfolding aggregate_result failure_of count
  unrecorded result message db0 db ms m (ok (n, db')) f k =
      framed w user timezone db0 db' ms _ (m ∷ ms)
        (record { events = k.events ∙ f.events; rules = k.rules ∙ f.rules }) (omega arith)
        (ground arith) tt
  unrecorded result message db0 db ms m (err x) f k =
      framed w user timezone db0 db ms _ (m ∷ ms) f (omega arith) (ground arith) tt

  record_aggregate-Effect :
      (n : AggregateNotification) (result : RuleResult) (db0 db : AlertDb) (ms : List Message)
      (m : Message) (outcome : Result String String)
      → Frame db0 db
      → m.outcome ≡ outcome
      → Effect w user timezone db0 ms
          (record_aggregate w n result outcome (record { db = db; messages = m ∷ ms }))
  unfolding record_aggregate record_outcome
  record_aggregate-Effect n result db0 db ms m (ok id) f e =
      recorded result db0 db ms m (update_aggregate_notification n.id sent (some id) "" w.now db) f
        (arrived_ok m id e) (update_aggregate_notification-Keeps n.id sent (some id) "" w.now db)
  record_aggregate-Effect n result db0 db ms m (err message) f e =
      unrecorded result message db0 db ms m
        (update_aggregate_notification n.id failed none message w.now db) f
        (update_aggregate_notification-Keeps n.id failed none message w.now db)

  notify_if_due-Effect :
      (due : Bool) (notification : Option AggregateNotification)
      (text language : AggregateNotification → String) (result : RuleResult) (db0 db : AlertDb)
      (ms : List Message)
      → Frame db0 db
      → result.status ≡ counted
      → Effect w user timezone db0 ms (
          notify_if_due w due notification text language result (record { db = db; messages = ms }))
  unfolding notify_if_due send_and_record send_aggregate_notification
  notify_if_due-Effect false notification text language result db0 db ms f h =
      framed w user timezone db0 db ms (ok result) ms f (omega arith)
        (let quiet : is_alerted result.status ≡ false = ap is_alerted h in ground (arith, quiet))
        (ap is_quiet h)
  notify_if_due-Effect true none text language result db0 db ms f h =
      framed w user timezone db0 db ms _ ms f (omega arith) (omega arith) tt
  notify_if_due-Effect true (some n) text language result db0 db ms f h =
      let (m, e) =
        send_or_plain-one n.chat_id n.chat_type (text n) w.send_with_action
          (action_of w (language n)) db ms in
      rw e (record_aggregate-Effect n result db0 db ms m m.outcome f refl)

  staged :
      (rule : WatchRule) (current : String) (db : AlertDb) (ms : List Message)
      (r : Result AlertError (StageTriggerResult × AlertDb))
      → Keeps db r
      → Effect w user timezone db ms
          (stage_delivery w rule current (lifted (attempted (record { db = db; messages = ms }) r)))
  unfolding stage_delivery stage_rule_result new_result
  staged rule current db ms (err e) k =
      framed w user timezone db db ms _ ms (record { events = refl; rules = refl }) (omega arith)
        (omega arith) tt
  staged rule current db ms (ok (stage, db')) k =
      notify_if_due-Effect stage.notification_due stage.notification
        (λ n. stage_alert_text rule stage) (λ n. rule.notification_language)
        (stage_rule_result rule current stage) db db' ms k refl

  combined :
      (rule : WatchRule) (current : String) (db : AlertDb) (ms : List Message)
      (r : Result AlertError (CombinationTriggerResult × AlertDb))
      → Keeps db r
      → Effect w user timezone db ms (
          combination_delivery w rule current
            (lifted (attempted (record { db = db; messages = ms }) r)))
  unfolding combination_delivery combination_rule_result new_result
  combined rule current db ms (err e) k =
      framed w user timezone db db ms _ ms (record { events = refl; rules = refl }) (omega arith)
        (omega arith) tt
  combined rule current db ms (ok (combination, db')) k =
      notify_if_due-Effect combination.notification_due combination.notification
        (λ n. combination_alert_text n combination.member_progress) (λ n. n.language)
        (combination_rule_result rule current combination) db db' ms k refl

  -- The delivery of a trigger, in any of the three ways.
  pub record_trigger-Effect :
      (rule : WatchRule) (previous : Option String) (current note : String) (db : AlertDb)
      (ms : List Message)
      → Effect w user timezone db ms
          (record_trigger w rule previous current note (record { db = db; messages = ms }))
  unfolding record_trigger record_combination record_stage
  record_trigger-Effect rule previous current note db ms =
      let params = trigger_params rule previous current note in
      elim (Bool-cases (str_eq rule.rule_scope "combination")) [
        | inl e ↦ rw e (
            combined rule current db ms (record_combination_trigger params w.now db)
              (record_combination_trigger-Keeps params w.now db))
        | inr e ↦ elim (Bool-cases (str_eq rule.delivery_mode "stage")) [
          | inl f ↦
              rw (e, f)
                (staged rule current db ms (record_stage_trigger params w.now db)
                  (record_stage_trigger-Keeps params w.now db))
          | inr f ↦
              rw (e, f) (record_realtime-Effect w user timezone rule previous current note db ms)
        ]
      ]
