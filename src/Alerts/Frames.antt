-- ===== src/Alerts/Frames.antt =====
-- internal/store/aggregations.go and combinations.go: the rows of events and rules, which the triggers of
-- windows leave as they are.
use de_box_asset_alert.Prelude.{
  ℕ, suc, String, inl, inr, ◌≡◌, refl, ◌∙◌, not, ◌&&◌, ◌||◌, Option, none, some, Result, ok, err,
  find, str_eq, leb, ltb, ◌==◌, Bool-cases, Option-cases, exists,
}
use de_box_asset_alert.Store.Tables.{WatchRule, is_active}
use de_box_asset_alert.Alerts.Tables.{
  of_rule, of_combination, AlertWindow, TriggerEvent, AggregateNotification, AlertCombination,
  AlertDb, AlertError, NoticeStatus, is_pending, not_found,
}
use de_box_asset_alert.Alerts.Tx.{or_fail}
use de_box_asset_alert.Alerts.Events.{update_aggregate_notification}
use de_box_asset_alert.Alerts.Stage.{
  RecordTriggerParams, trigger_event, StageTriggerResult, is_open_window, close_one,
  stage_window_or_new, insert_alert_window, current_stage_window, is_key_taken,
  insert_trigger_event, update_window, claim, insert_notification, notified_stage, claim_stage,
  counted_stage, stage_result, count_trigger, add_stage_trigger, record_stage_trigger,
}
use de_box_asset_alert.Alerts.Combination.{
  CombinationTriggerResult, combination_rule_row, combination_row, combination_window_or_new,
  insert_combination_window, current_combination_window, update_member, combination_progress,
  all_combination_members_reached, combination_result, notified_combination, claim_combination,
  counted_combination, add_combination_trigger, record_combination_trigger,
}

-- The same alerts and the same rules.
pub record Frame (db db' : AlertDb) : Type 0 where
  pub events : db'.alert_events ≡ db.alert_events
  pub rules : db'.watch_rules ≡ db.watch_rules

abbrev pub Keeps : {A : Type 0} → AlertDb → Result AlertError (A × AlertDb) → Type 0
Keeps db (ok (a, db')) = Frame db db'
Keeps db (err e) = Unit

same : (db : AlertDb) → Frame db db
same db = record { events = refl; rules = refl }

after :
    {A : Type 0} (db db' : AlertDb) (r : Result AlertError (A × AlertDb))
    → Frame db db'
    → Keeps db' r
    → Keeps db r
after db db' (ok (a, db'')) f k = record { events = k.events ∙ f.events; rules = k.rules ∙ f.rules }
after db db' (err e) f k = tt

insert_notification-Keeps :
    (n : AggregateNotification) (db : AlertDb) → Keeps db (insert_notification n db)
unfolding insert_notification
insert_notification-Keeps n db =
    elim (Bool-cases (
      exists (λ (m : AggregateNotification). m.window_id == n.window_id) db.notifications
      || (n.trigger_count_snapshot == 0))) [
        | inl e ↦ rw e tt
        | inr e ↦ rw e (record { events = refl; rules = refl })
      ]

notified_stage-Keeps :
    (result : StageTriggerResult) (db : AlertDb)
    (r : Result AlertError (AggregateNotification × AlertDb))
    → Keeps db r
    → Keeps db (notified_stage result r)
unfolding notified_stage
notified_stage-Keeps result db (ok (n, db')) k = k
notified_stage-Keeps result db (err e) k = tt

claim_stage-Keeps :
    (r : WatchRule) (result : StageTriggerResult) (now : ℕ) (db : AlertDb)
    → Keeps db (claim_stage r result now db)
unfolding claim_stage update_window
claim_stage-Keeps r result now db = notified_stage-Keeps result db _ (
    after db (update_window result.window_id (claim now) db) _
      (record { events = refl; rules = refl })
      (insert_notification-Keeps _ (update_window result.window_id (claim now) db)))

counted_stage-Keeps :
    (r : WatchRule) (w : AlertWindow) (now : ℕ) (db : AlertDb)
    (inserted : Result AlertError (ℕ × AlertDb))
    → Keeps db inserted
    → Keeps db (counted_stage r w now inserted)
unfolding counted_stage update_window
counted_stage-Keeps r w now db (err e) k = tt
counted_stage-Keeps r w now db (ok (id, db')) k =
    elim (Bool-cases
      (w.notification_sent || ltb (suc w.total_trigger_count) r.trigger_count_threshold)) [
        | inl e ↦ rw e (record { events = k.events; rules = k.rules })
        | inr e ↦ rw e (
            after db (update_window w.id (count_trigger now) db') _
              (record { events = k.events; rules = k.rules })
              (claim_stage-Keeps r (stage_result r w id (suc w.total_trigger_count)) now
                (update_window w.id (count_trigger now) db')))
      ]

insert_trigger_event-Keeps :
    (e : TriggerEvent) (db : AlertDb) → Keeps db (insert_trigger_event e db)
unfolding insert_trigger_event
insert_trigger_event-Keeps e db = elim (Bool-cases (is_key_taken e.watch_rule_id e.event_key db)) [
  | inl t ↦ rw t tt
  | inr t ↦ rw t (record { events = refl; rules = refl })
]

stage_window_or_new-Frame :
    (r : WatchRule) (now : ℕ) (db : AlertDb) (found : Option AlertWindow)
    → Frame db (stage_window_or_new r now db found).1
unfolding stage_window_or_new insert_alert_window close_one
stage_window_or_new-Frame r now db none = record { events = refl; rules = refl }
stage_window_or_new-Frame r now db (some w) = elim (Bool-cases (leb w.ends_at now)) [
  | inl e ↦ rw e (record { events = refl; rules = refl })
  | inr e ↦ rw e (record { events = refl; rules = refl })
]

added_stage-Keeps :
    (params : RecordTriggerParams) (r : WatchRule) (now : ℕ) (db : AlertDb)
    → Keeps db (
        add_stage_trigger params r
          (current_stage_window r now db).0
          now
          (current_stage_window r now db).1)
unfolding current_stage_window add_stage_trigger
added_stage-Keeps params r now db =
    let found = find (is_open_window (of_rule r.id)) db.windows in
    let window = stage_window_or_new r now db found in
    let e = trigger_event params r.debox_user_id r window.0.id window.1.next_id now in
    after db window.1 (add_stage_trigger params r window.0 now window.1)
      (stage_window_or_new-Frame r now db found)
      (counted_stage-Keeps r window.0 now window.1 (insert_trigger_event e window.1)
        (insert_trigger_event-Keeps e window.1))

or_fail-Keeps :
    {A : Type 0} (e : AlertError) (o : Option A) (db db' : AlertDb)
    → Frame db db'
    → Keeps db (or_fail e o db')
or_fail-Keeps e none db db' f = tt
or_fail-Keeps e (some a) db db' f = f

-- The outcome of a notification of a window leaves the alerts and the rules.
pub update_aggregate_notification-Keeps :
    (id : ℕ) (status : NoticeStatus) (message_id : Option String) (error : String) (now : ℕ)
    (db : AlertDb)
    → Keeps db (update_aggregate_notification id status message_id error now db)
unfolding update_aggregate_notification
update_aggregate_notification-Keeps id status message_id error now db =
    elim (Bool-cases (is_pending status)) [
      | inl e ↦ rw (e, Keeps) tt
      | inr e ↦
          rw (e, Keeps) (or_fail-Keeps not_found _ db _ (record { events = refl; rules = refl }))
    ]

-- A trigger of a stage leaves the alerts and the rules.
pub record_stage_trigger-Keeps :
    (params : RecordTriggerParams) (now : ℕ) (db : AlertDb)
    → Keeps db (record_stage_trigger params now db)
unfolding record_stage_trigger
record_stage_trigger-Keeps params now db =
    elim (Option-cases (
      find
        (λ (x : WatchRule).
          (x.id == params.watch_rule_id) && str_eq x.debox_user_id params.debox_user_id)
        db.watch_rules)) [
          | inl e ↦ rw (e, Keeps) tt
          | inr (r, e) ↦ elim (Bool-cases (r.enabled && is_active r.run_status)) [
            | inr f ↦ rw (e, f, Keeps) tt
            | inl f ↦ elim (Bool-cases (str_eq r.delivery_mode "stage")) [
              | inr g ↦ rw (e, f, g, Keeps) tt
              | inl g ↦ rw (e, f, g, Keeps) (added_stage-Keeps params r now db)
            ]
          ]
        ]

combination_window_or_new-Frame :
    (c : AlertCombination) (now : ℕ) (db : AlertDb) (found : Option AlertWindow)
    → Frame db (combination_window_or_new c now db found).1
unfolding combination_window_or_new insert_combination_window insert_alert_window close_one
combination_window_or_new-Frame c now db none = record { events = refl; rules = refl }
combination_window_or_new-Frame c now db (some w) = elim (Bool-cases (leb w.ends_at now)) [
  | inl e ↦ rw e (record { events = refl; rules = refl })
  | inr e ↦ rw e (record { events = refl; rules = refl })
]

notified_combination-Keeps :
    (result : CombinationTriggerResult) (db : AlertDb)
    (r : Result AlertError (AggregateNotification × AlertDb))
    → Keeps db r
    → Keeps db (notified_combination result r)
unfolding notified_combination
notified_combination-Keeps result db (ok (n, db')) k = k
notified_combination-Keeps result db (err e) k = tt

claim_combination-Keeps :
    (c : AlertCombination) (result : CombinationTriggerResult) (total now : ℕ) (db : AlertDb)
    → Keeps db (claim_combination c result total now db)
unfolding claim_combination update_window
claim_combination-Keeps c result total now db = notified_combination-Keeps result db _ (
    after db (update_window result.window_id (claim now) db) _
      (record { events = refl; rules = refl })
      (insert_notification-Keeps _ (update_window result.window_id (claim now) db)))

counted_combination-Keeps :
    (c : AlertCombination) (r : WatchRule) (w : AlertWindow) (now : ℕ) (db : AlertDb)
    (inserted : Result AlertError (ℕ × AlertDb))
    → Keeps db inserted
    → Keeps db (counted_combination c r w now inserted)
unfolding counted_combination update_window update_member
counted_combination-Keeps c r w now db (err e) k = tt
counted_combination-Keeps c r w now db (ok (id, db')) k =
    let counted = update_member w.id r.id now (update_window w.id (count_trigger now) db') in
    let progress = combination_progress w.id counted in
    elim (Bool-cases (w.notification_sent || not (all_combination_members_reached progress))) [
      | inl e ↦ rw e (record { events = k.events; rules = k.rules })
      | inr e ↦ rw e (
          after db counted _ (record { events = k.events; rules = k.rules })
            (claim_combination-Keeps c (combination_result c w id progress)
              (suc w.total_trigger_count) now counted))
    ]

added_combination-Keeps :
    (params : RecordTriggerParams) (c : AlertCombination) (r : WatchRule) (now : ℕ) (db : AlertDb)
    → Keeps db (
        add_combination_trigger params c r
          (current_combination_window c now db).0
          now
          (current_combination_window c now db).1)
unfolding current_combination_window add_combination_trigger
added_combination-Keeps params c r now db =
    let found = find (is_open_window (of_combination c.id)) db.windows in
    let window = combination_window_or_new c now db found in
    let e = trigger_event params c.debox_user_id r window.0.id window.1.next_id now in
    after db window.1 (add_combination_trigger params c r window.0 now window.1)
      (combination_window_or_new-Frame c now db found)
      (counted_combination-Keeps c r window.0 now window.1 (insert_trigger_event e window.1)
        (insert_trigger_event-Keeps e window.1))

-- A trigger of a combination leaves the alerts and the rules.
pub record_combination_trigger-Keeps :
    (params : RecordTriggerParams) (now : ℕ) (db : AlertDb)
    → Keeps db (record_combination_trigger params now db)
unfolding record_combination_trigger
record_combination_trigger-Keeps params now db =
    elim (Option-cases (combination_rule_row params db)) [
      | inl e ↦ rw (e, Keeps) tt
      | inr (r, e) ↦ elim (Option-cases (combination_row r.id db)) [
        | inl f ↦ rw (e, f, Keeps) tt
        | inr (c, f) ↦ rw (e, f, Keeps) (added_combination-Keeps params c r now db)
      ]
    ]
