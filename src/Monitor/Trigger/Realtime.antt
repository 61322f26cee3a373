-- ===== src/Monitor/Trigger/Realtime.antt =====
-- internal/monitor/executor.go: recordAndSend, and what it leaves behind.
use de_box_asset_alert.Prelude.{
  ℕ, suc, String, Bool, true, false, inl, inr, ◌≡◌, refl, ◌⊎◌, Option, none, some, Result, ok, err,
  List, ◌∷◌, count, exists, find, update, ◌==◌, arith, Bool-cases,
}
use de_box_asset_alert.Store.Tables.{WatchRule}
use de_box_asset_alert.Alerts.Tables.{
  NoticeStatus, pending, sent as notice_sent, failed, AlertEvent, AlertDb, constraint_violated,
  is_pending,
}
use de_box_asset_alert.Alerts.Events.{
  insert_alert_event, create_alert_event, attempt_event, new_notice,
  update_alert_event_notification,
}
use de_box_asset_alert.Monitor.Check.{World, Message, State, CheckError, store_failed, send_failed}
use de_box_asset_alert.Monitor.Texts.{alert_text}
use de_box_asset_alert.Monitor.Trigger.{
  failure_of, record_outcome, deliver, new_event, send_event, record_and_send,
}

-- The alerts whose notification is still to be attempted.
abbrev pub unsettled : AlertDb → ℕ
unsettled db = count (λ (e : AlertEvent). is_pending e.notice.status) db.alert_events

abbrev pub has_arrived : Message → Bool
has_arrived m = elim m.outcome [ ok id ↦ true | err e ↦ false ]

abbrev pub arrived : List Message → ℕ
arrived ms = count has_arrived ms

-- The tables with the event at the head attempted.
abbrev pub settle : NoticeStatus → Option String → String → ℕ → AlertEvent → AlertDb → AlertDb
settle status message_id error now event db = record db {
  alert_events =
      attempt_event status message_id error now event
      ∷ update (λ (e : AlertEvent). e.id == event.id) (attempt_event status message_id error now)
          db.alert_events;
}

update-settles :
    (status : NoticeStatus) (message_id : Option String) (error : String) (now : ℕ)
    (event : AlertEvent) (db : AlertDb)
    → is_pending status ≡ false
    → update_alert_event_notification event.id status message_id error now
        (record db { alert_events = event ∷ db.alert_events })
      ≡ ok (
        attempt_event status message_id error now event,
        settle status message_id error now event db,
      )
unfolding update_alert_event_notification update find attempt_event
update-settles status message_id error now event db h =
    let same : (event.id == event.id) ≡ true = ground arith in rw (h, same, same) refl

-- What remains of the attempt to send an alert that was just inserted: one message, and the alert with
-- the outcome.
pub data Sent (event : AlertEvent) (now : ℕ) (db : AlertDb) (ms : List Message)
    : Result CheckError AlertEvent × State → Type 0 where
  delivered :
      (m : Message) (id : String)
      → m.outcome ≡ ok id
      → Sent event now db ms (
        ok (attempt_event notice_sent (some id) "" now event),
        record { db = settle notice_sent (some id) "" now event db; messages = m ∷ ms },
      )
  refused :
      (m : Message) (e : String)
      → m.outcome ≡ err e
      → Sent event now db ms (
        err (send_failed e),
        record { db = settle failed none e now event db; messages = m ∷ ms },
      )

abbrev inserted : AlertEvent → AlertDb → AlertDb
inserted event db = record db { alert_events = event ∷ db.alert_events }

outcome-Sent :
    (w : World) (chat_id chat_type text : String) (event : AlertEvent) (db : AlertDb)
    (ms : List Message) (outcome : Result String String)
    → Sent event w.now db ms (
        record_outcome
          (λ status message_id error.
            update_alert_event_notification event.id status message_id error w.now)
          outcome
          (deliver w chat_id chat_type text none outcome
            (record { db = inserted event db; messages = ms })).1)
unfolding deliver record_outcome failure_of
outcome-Sent w chat_id chat_type text event db ms (ok id) =
    let m : Message = record {
      chat_id = chat_id;
      chat_type = chat_type;
      text = text;
      action = none;
      outcome = ok id;
    } in
    rw (update-settles notice_sent (some id) "" w.now event db refl) (delivered m id refl)
outcome-Sent w chat_id chat_type text event db ms (err e) =
    let m : Message = record {
      chat_id = chat_id;
      chat_type = chat_type;
      text = text;
      action = none;
      outcome = err e;
    } in
    rw (update-settles failed none e w.now event db refl) (refused m e refl)

-- The rule of the alert is gone, or the alert was inserted and its notification attempted.
pub record_and_send-cases :
    (w : World) (rule : WatchRule) (previous : Option String) (current note : String) (db : AlertDb)
    (ms : List Message)
    → (record_and_send w rule previous current note (record { db = db; messages = ms })
        ≡ (err (store_failed constraint_violated), record { db = db; messages = ms }))
      ⊎ ((event : AlertEvent) × (is_pending event.notice.status ≡ true)
          × (db' : AlertDb) × (db'.alert_events ≡ db.alert_events)
          × (db'.watch_rules ≡ db.watch_rules)
          × Sent event w.now db' ms
              (record_and_send w rule previous current note (record { db = db; messages = ms })))
unfolding record_and_send create_alert_event insert_alert_event new_notice new_event send_event
    deliver
record_and_send-cases w rule previous current note db ms =
    elim (Bool-cases (exists (λ (r : WatchRule). r.id == rule.id) db.watch_rules)) [
      | inr e ↦ inl (rw e refl)
      | inl e ↦
          let event : AlertEvent = record {
            id = db.next_id;
            watch_rule_id = rule.id;
            event_type = rule.rule_type;
            previous_value = previous;
            current_value = some current;
            notice = new_notice pending;
            created_at = w.now;
          } in
          inr (
            event,
            refl,
            record db { next_id = suc db.next_id },
            refl,
            refl,
            rw e (
                outcome-Sent w rule.notification_chat_id rule.notification_chat_type
                  (alert_text rule previous current note) event
                  (record db { next_id = suc db.next_id }) ms
                  (w.send_notification rule.notification_chat_id rule.notification_chat_type
                    (alert_text rule previous current note))),
          )
    ]
