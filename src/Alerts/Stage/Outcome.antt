-- ===== src/Alerts/Stage/Outcome.antt =====
-- internal/store/aggregations.go: what RecordStageTrigger does to the windows of a rule.
use de_box_asset_alert.Prelude.{
  ℕ, suc, ◌+◌, ◌<◌, String, true, false, not, inl, inr, ◌≡◌, refl, subst, ap, ◌∙◌, ◌&&◌, ◌||◌, some,
  ok, List, ◌∷◌, count, find, str_eq, ◌==◌, ltb, arith, Bool-cases,
}
use de_box_asset_alert.Prelude.Single.{indicator}
use de_box_asset_alert.Store.Tables.{WatchRule, is_active}
use de_box_asset_alert.Alerts.Tables.{of_rule, AlertWindow, TriggerEvent, AlertDb}
use de_box_asset_alert.Alerts.Stage.{
  RecordTriggerParams, trigger_event, StageTriggerResult, current_stage_window, is_key_taken,
  insert_trigger_event, update_window, count_trigger, claim, stage_notification, stage_result,
  notified_stage, claim_stage, counted_stage, add_stage_trigger, record_stage_trigger,
}
use de_box_asset_alert.Alerts.Invariant.{Inv, events_of, notices_of, has_members, is_of_rule}
use de_box_asset_alert.Alerts.Triggers.{
  with_event, with_event-Inv, no_members-Fits, with_claim, with_claim-Inv,
  insert_notification-first,
}
use de_box_asset_alert.Alerts.Stage.Current.{IsStageWindow, stage_window_or_new-IsStageWindow}
use de_box_asset_alert.Alerts.Running.{id_or, running_window, has_running, has_running-update}

-- What a trigger does: its event is filed in the running window of the rule, or in a new one if none is
-- running; the window goes on, it counts its events, and it is notified once, when they are enough.
pub record StageOutcome (params : RecordTriggerParams) (r : WatchRule) (now : ℕ) (db : AlertDb)
    (result : StageTriggerResult) (db' : AlertDb) : Type 0 where
  pub inv : Inv db'
  pub window : result.window_id ≡ id_or db.next_id (running_window (of_rule r.id) now db)
  pub recorded :
      db'.trigger_events
      ≡ trigger_event params r.debox_user_id r result.window_id result.trigger_event_id now
        ∷ db.trigger_events
  pub counted : result.total_trigger_count ≡ suc (events_of result.window_id db.trigger_events)
  pub running : has_running (of_rule r.id) now result.window_id result.window_ends_at db' ≡ true
  pub due : result.notification_due ≡ (
      not (ltb result.total_trigger_count r.trigger_count_threshold)
      && (notices_of result.window_id db.notifications == 0))
  pub notified :
      notices_of result.window_id db'.notifications
      ≡ notices_of result.window_id db.notifications + indicator result.notification_due

-- The claim of a window that has no notification.
claim_stage-ok :
    (r : WatchRule) (result : StageTriggerResult) (now : ℕ) (db : AlertDb)
    → notices_of result.window_id db.notifications ≡ 0
    → 0 < result.total_trigger_count
    → claim_stage r result now db
      ≡ notified_stage result (
          ok (
            stage_notification r result.window_id result.total_trigger_count db.next_id now,
            with_claim result.window_id
                (stage_notification r result.window_id result.total_trigger_count db.next_id now)
                now
                db,
          ))
unfolding claim_stage with_claim update_window stage_notification
claim_stage-ok r result now db none_yet positive =
    let n = stage_notification r result.window_id result.total_trigger_count db.next_id now in
    ap (notified_stage result) (
      insert_notification-first n (update_window result.window_id (claim now) db) none_yet positive)

pub insert_trigger_event-free :
    (e : TriggerEvent) (db : AlertDb)
    → is_key_taken e.watch_rule_id e.event_key db ≡ false
    → insert_trigger_event e db
      ≡ ok (e.id, record db { trigger_events = e ∷ db.trigger_events; next_id = suc db.next_id })
unfolding insert_trigger_event
insert_trigger_event-free e db free = rw free refl

counted_stage-waits :
    (r : WatchRule) (w : AlertWindow) (now id : ℕ) (db : AlertDb)
    → w.notification_sent || ltb (suc w.total_trigger_count) r.trigger_count_threshold ≡ true
    → counted_stage r w now (ok (id, db))
      ≡ ok (
        stage_result r w id (suc w.total_trigger_count),
        update_window w.id (count_trigger now) db,
      )
unfolding counted_stage
counted_stage-waits r w now id db e = rw e refl

counted_stage-due :
    (r : WatchRule) (w : AlertWindow) (now id : ℕ) (db : AlertDb)
    → w.notification_sent || ltb (suc w.total_trigger_count) r.trigger_count_threshold ≡ false
    → counted_stage r w now (ok (id, db))
      ≡ claim_stage r
          (stage_result r w id (suc w.total_trigger_count))
          now
          (update_window w.id (count_trigger now) db)
unfolding counted_stage
counted_stage-due r w now id db e = rw e refl

-- What a trigger in a given window does.
add_stage_trigger-StageOutcome :
    (params : RecordTriggerParams) (r : WatchRule) (now : ℕ) (before : AlertDb) (w : AlertWindow)
    (db : AlertDb)
    → IsStageWindow r now before w db
    → is_key_taken r.id params.event_key db ≡ false
    → (result : StageTriggerResult) × (db' : AlertDb) × (add_stage_trigger params r w now db
        ≡ ok (result, db'))
      × StageOutcome params r now before result db'
unfolding add_stage_trigger trigger_event update_window count stage_result with_claim notified_stage
    stage_notification
add_stage_trigger-StageOutcome params r now before w db window free =
    let events = window.events in
    let counts = has_running-update (of_rule r.id) now w.id w.ends_at w.id now db in
    let claims =
      has_running-update (of_rule r.id) now w.id w.ends_at w.id now
        (update_window w.id (count_trigger now) db) in
    let notices : notices_of w.id db.notifications ≡ notices_of w.id before.notifications =
      ap (notices_of w.id) window.notices in
    let e = trigger_event params r.debox_user_id r w.id db.next_id now in
    let no_members : has_members w.id db.window_members ≡ false =
      subst (λ s. is_of_rule s && has_members w.id db.window_members ≡ false) window.source
        window.known.separate in
    let counted =
      with_event-Inv e now db db.window_members window.inv window.known.is_old
        (no_members-Fits e db window.inv no_members) in
    elim (Bool-cases
      (w.notification_sent || ltb (suc w.total_trigger_count) r.trigger_count_threshold)) [
        | inl waits ↦ (
          stage_result r w db.next_id (suc w.total_trigger_count),
          with_event e now db,
          ap (counted_stage r w now) (insert_trigger_event-free e db free)
              ∙ counted_stage-waits r w now db.next_id _ waits,
          record {
            inv = counted;
            window = window.current.found;
            recorded = ap (λ (es : List TriggerEvent). e ∷ es) events;
            counted = ground (arith, window.known.counted, ap (events_of w.id) events);
            running = counts.0 ∙ window.current.there;
            due = ground (arith, window.known.claimed, notices);
            notified = omega (arith, notices);
          },
        )
        | inr due ↦
            let result = stage_result r w db.next_id (suc w.total_trigger_count) in
            let n = stage_notification r w.id (suc w.total_trigger_count) (suc db.next_id) now in
            let none_yet : notices_of w.id db.notifications ≡ 0 =
              ground (arith, window.known.claimed) in
            (
              _,
              with_claim w.id n now (with_event e now db),
              ap (counted_stage r w now) (insert_trigger_event-free e db free)
                  ∙ counted_stage-due r w now db.next_id _ due
                  ∙ claim_stage-ok r result now (with_event e now db) none_yet (omega arith),
              record {
                inv =
                    with_claim-Inv w.id n now (with_event e now db) counted refl
                      (omega (arith, window.known.is_old)) none_yet;
                window = window.current.found;
                recorded = ap (λ (es : List TriggerEvent). e ∷ es) events;
                counted = ground (arith, window.known.counted, ap (events_of w.id) events);
                running = claims.1 ∙ counts.0 ∙ window.current.there;
                due = ground (arith, none_yet, notices);
                notified = ground (arith, notices);
              },
            )
      ]

-- The rule of a trigger: it runs, and it notifies in stages.
pub record IsStageRule (params : RecordTriggerParams) (db : AlertDb) (r : WatchRule) : Type 0 where
  pub row :
      find
        (λ (x : WatchRule).
          (x.id == params.watch_rule_id) && str_eq x.debox_user_id params.debox_user_id)
        db.watch_rules
      ≡ some r
  pub running : r.enabled && is_active r.run_status ≡ true
  pub staged : str_eq r.delivery_mode "stage" ≡ true
  pub cycle : 0 < r.cycle_minutes

pub no_key :
    (rule_id : ℕ) (key : String) (db : AlertDb)
    → str_eq key "" ≡ true
    → is_key_taken rule_id key db ≡ false
unfolding is_key_taken
no_key rule_id key db h = rw h refl

-- A trigger without a key of a running rule that notifies in stages, in tables whose counts are right, is
-- recorded: its event is filed in the window of the rule that was open and not over, or in a new one if
-- there was none, and that window is open and not over; it counts one event more than it had; its
-- notification is due exactly if these events are enough and the window has had none; the counts are
-- right again.
pub record_stage_trigger-StageOutcome :
    (params : RecordTriggerParams) (now : ℕ) (db : AlertDb) (r : WatchRule)
    → Inv db
    → IsStageRule params db r
    → str_eq params.event_key "" ≡ true
    → (result : StageTriggerResult) × (db' : AlertDb) × (record_stage_trigger params now db
        ≡ ok (result, db'))
      × StageOutcome params r now db result db'
unfolding record_stage_trigger current_stage_window
record_stage_trigger-StageOutcome params now db r inv rule key =
    let window = stage_window_or_new-IsStageWindow r now db _ inv rule.cycle refl in
    let (result, db', e, outcome) =
      add_stage_trigger-StageOutcome params r now db (current_stage_window r now db).0
        (current_stage_window r now db).1 window
        (no_key r.id params.event_key (current_stage_window r now db).1 key) in
    (result, db', rw (rule.row, rule.running, rule.staged) e, outcome)
