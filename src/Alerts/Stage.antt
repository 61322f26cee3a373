-- ===== src/Alerts/Stage.antt =====
-- internal/store/aggregations.go: RecordStageTrigger, by which a window counts the triggers of a rule
-- until they are enough for one notification.
pub mod Current
pub mod Outcome
use de_box_asset_alert.Prelude.{
  ℕ, suc, String, Bool, true, false, not, ◌&&◌, ◌||◌, Option, none, some, List, [], ◌∷◌, Result, ok,
  err, map, take, exists, find, select, update, take_runes, str_eq, ◌==◌, ltb, leb, if◌then◌else◌,
}
use de_box_asset_alert.Prelude.Sort.{sort}
use de_box_asset_alert.Store.Tables.{WatchRule, is_active}
use de_box_asset_alert.Store.Rules.{normalize_language}
use de_box_asset_alert.Alerts.Tables.{
  pending, Source, of_rule, of_combination, AlertWindow, TriggerEvent, NotificationKind, stage,
  AggregateNotification, AlertDb, AlertError, not_found, stage_delivery_required,
  constraint_violated, is_open,
}
use de_box_asset_alert.Alerts.Tx.{AlertTx, ◌>>=◌, ◌>>◌, pure, refuse_if, gets, modify, or_fail}
use de_box_asset_alert.Alerts.Events.{new_notice}
use de_box_asset_alert.Alerts.Windows.{stage_window_bounds}

pub record RecordTriggerParams : Type 0 where
  pub watch_rule_id : ℕ
  pub debox_user_id : String
  pub previous_value : Option String
  pub current_value : Option String
  pub note : String
  pub event_key : String
  pub occurred_at : Option ℕ

pub record StageTriggerResult : Type 0 where
  pub window_id : ℕ
  pub trigger_event_id : ℕ
  pub total_trigger_count : ℕ
  pub trigger_count_threshold : ℕ
  pub window_starts_at : ℕ
  pub window_ends_at : ℕ
  pub notification_due : Bool
  pub recent_notes : List String
  pub notification : Option AggregateNotification

-- COALESCE(aggregation_anchor_at, created_at)
unfoldable pub anchor_or : Option ℕ → ℕ → ℕ
anchor_or none created_at = created_at
anchor_or (some anchor) created_at = anchor

abbrev pub same_source : Source → Source → Bool
same_source (of_rule m) (of_rule n) = m == n
same_source (of_combination m) (of_combination n) = m == n
same_source (of_rule m) (of_combination n) = false
same_source (of_combination m) (of_rule n) = false

unfoldable pub is_open_window : Source → AlertWindow → Bool
is_open_window source w = same_source w.source source && is_open w.closed_at

unfoldable pub close_alert_window : ℕ → AlertWindow → AlertWindow
close_alert_window now w = record w { closed_at = some now; updated_at = now }

unfoldable pub close_one : ℕ → AlertWindow → AlertDb → AlertDb
unfolding update close_alert_window
close_one now w db = record db {
  windows = update (λ (v : AlertWindow). v.id == w.id) (close_alert_window now) db.windows;
}

-- A window, with its bounds, that has counted nothing.
unfoldable pub insert_alert_window : String → Source → ℕ × ℕ → ℕ → AlertDb → AlertWindow × AlertDb
insert_alert_window user source bounds now db =
    let w : AlertWindow = record {
      id = db.next_id;
      debox_user_id = user;
      source = source;
      starts_at = bounds.0;
      ends_at = bounds.1;
      total_trigger_count = 0;
      notification_sent = false;
      notification_sent_at = none;
      closed_at = none;
      updated_at = now;
    } in
    (w, record db { windows = w ∷ db.windows; next_id = suc db.next_id })

-- The open window of the rule; one that is over is closed, and another one is opened.
unfoldable pub stage_window_or_new :
    WatchRule → ℕ → AlertDb → Option AlertWindow → AlertWindow × AlertDb
unfolding close_one insert_alert_window stage_window_bounds anchor_or
stage_window_or_new r now db found =
    let bounds =
      stage_window_bounds r.cycle_type r.cycle_minutes
        (anchor_or r.aggregation_anchor_at r.created_at) now in
    elim found [
      | none ↦ insert_alert_window r.debox_user_id (of_rule r.id) bounds now db
      | some w ↦
          if leb w.ends_at now
          then insert_alert_window r.debox_user_id (of_rule r.id) bounds now (close_one now w db)
          else (w, db)
    ]

unfoldable pub current_stage_window : WatchRule → ℕ → AlertDb → AlertWindow × AlertDb
unfolding find is_open_window stage_window_or_new
current_stage_window r now db =
    stage_window_or_new r now db (find (is_open_window (of_rule r.id)) db.windows)

-- idx_rule_trigger_events_key: a key of a rule is used once, the empty one as often as it occurs.
unfoldable pub is_key_taken : ℕ → String → AlertDb → Bool
unfolding exists
is_key_taken rule_id event_key db =
    not (str_eq event_key "")
    && exists (λ (e : TriggerEvent). (e.watch_rule_id == rule_id) && str_eq e.event_key event_key)
        db.trigger_events

unfoldable pub trigger_event : RecordTriggerParams → String → WatchRule → ℕ → ℕ → ℕ → TriggerEvent
unfolding take_runes
trigger_event params user r window_id id now = record {
  id = id;
  debox_user_id = user;
  watch_rule_id = r.id;
  window_id = window_id;
  event_type = r.rule_type;
  event_key = params.event_key;
  previous_value = params.previous_value;
  current_value = params.current_value;
  note = take_runes 1000 params.note;
  occurred_at = params.occurred_at;
  created_at = now;
}

unfoldable pub insert_trigger_event : TriggerEvent → AlertTx ℕ
unfolding is_key_taken
insert_trigger_event event db =
    if is_key_taken event.watch_rule_id event.event_key db
    then err constraint_violated
    else ok (
      event.id,
      record db { trigger_events = event ∷ db.trigger_events; next_id = suc db.next_id },
    )

unfoldable pub count_trigger : ℕ → AlertWindow → AlertWindow
count_trigger now w = record w { total_trigger_count = suc w.total_trigger_count; updated_at = now }

unfoldable pub claim : ℕ → AlertWindow → AlertWindow
claim now w = record w {
  notification_sent = true;
  notification_sent_at = some now;
  updated_at = now;
}

unfoldable pub update_window : ℕ → (AlertWindow → AlertWindow) → AlertDb → AlertDb
unfolding update
update_window id change db = record db {
  windows = update (λ (v : AlertWindow). v.id == id) change db.windows;
}

-- ORDER BY created_at DESC, id DESC
unfoldable pub is_newer : TriggerEvent → TriggerEvent → Bool
is_newer a b = ltb b.created_at a.created_at || ((a.created_at == b.created_at) && ltb b.id a.id)

unfoldable pub recent_stage_notes : ℕ → AlertDb → List String
unfolding sort select is_newer
recent_stage_notes window_id db =
    map (λ (e : TriggerEvent). e.note)
      (take 5
        (sort is_newer (select (λ (e : TriggerEvent). e.window_id == window_id) db.trigger_events)))

-- aggregation_window_id is UNIQUE, and a snapshot of no triggers is refused.
unfoldable pub insert_notification : AggregateNotification → AlertTx AggregateNotification
unfolding exists
insert_notification n db =
    if exists (λ (m : AggregateNotification). m.window_id == n.window_id) db.notifications
      || (n.trigger_count_snapshot == 0)
    then err constraint_violated
    else ok (n, record db { notifications = n ∷ db.notifications; next_id = suc db.next_id })

unfoldable pub stage_notification : WatchRule → ℕ → ℕ → ℕ → ℕ → AggregateNotification
unfolding new_notice normalize_language
stage_notification r window_id total id now = record {
  id = id;
  debox_user_id = r.debox_user_id;
  window_id = window_id;
  kind = stage;
  chat_id = r.notification_chat_id;
  chat_type = r.notification_chat_type;
  label = r.notification_label;
  language = normalize_language r.notification_language;
  note = "";
  trigger_count_snapshot = total;
  notice = new_notice pending;
  created_at = now;
}

unfoldable pub stage_result : WatchRule → AlertWindow → ℕ → ℕ → StageTriggerResult
stage_result r w event_id total = record {
  window_id = w.id;
  trigger_event_id = event_id;
  total_trigger_count = total;
  trigger_count_threshold = r.trigger_count_threshold;
  window_starts_at = w.starts_at;
  window_ends_at = w.ends_at;
  notification_due = false;
  recent_notes = [];
  notification = none;
}

unfoldable pub notified_stage :
    StageTriggerResult
    → Result AlertError (AggregateNotification × AlertDb)
    → Result AlertError (StageTriggerResult × AlertDb)
unfolding recent_stage_notes
notified_stage result (err e) = err e
notified_stage result (ok (n, db)) = ok (
  record result {
    notification_due = true;
    recent_notes = recent_stage_notes result.window_id db;
    notification = some n;
  },
  db,
)

-- The notification of a window whose triggers are enough, and which has had none. The row is locked, so
-- that the claim affects it.
unfoldable pub claim_stage : WatchRule → StageTriggerResult → ℕ → AlertTx StageTriggerResult
unfolding update_window claim insert_notification stage_notification notified_stage
claim_stage r result now db =
    let claimed = update_window result.window_id (claim now) db in
    notified_stage result (
      insert_notification
        (stage_notification r result.window_id result.total_trigger_count claimed.next_id now)
        claimed)

-- The trigger of the inserted event in its window.
unfoldable pub counted_stage :
    WatchRule
    → AlertWindow
    → ℕ
    → Result AlertError (ℕ × AlertDb)
    → Result AlertError (StageTriggerResult × AlertDb)
unfolding update_window count_trigger claim_stage stage_result
counted_stage r w now (err e) = err e
counted_stage r w now (ok (event_id, db)) =
    let counted = update_window w.id (count_trigger now) db in
    let total = suc w.total_trigger_count in
    let result = stage_result r w event_id total in
    if w.notification_sent || ltb total r.trigger_count_threshold
    then ok (result, counted)
    else claim_stage r result now counted

unfoldable pub add_stage_trigger :
    RecordTriggerParams → WatchRule → AlertWindow → ℕ → AlertTx StageTriggerResult
unfolding trigger_event insert_trigger_event counted_stage
add_stage_trigger params r w now db =
    counted_stage r w now
      (insert_trigger_event (trigger_event params r.debox_user_id r w.id db.next_id now) db)

unfoldable pub record_stage_trigger : RecordTriggerParams → ℕ → AlertTx StageTriggerResult
unfolding find current_stage_window add_stage_trigger
record_stage_trigger params now = do
  row ← gets (λ db.
      find
        (λ (r : WatchRule).
          (r.id == params.watch_rule_id) && str_eq r.debox_user_id params.debox_user_id)
        db.watch_rules)
  r ← or_fail not_found row
  refuse_if (not (r.enabled && is_active r.run_status)) not_found
  refuse_if (not (str_eq r.delivery_mode "stage")) stage_delivery_required
  w ← λ db. ok (current_stage_window r now db)
  add_stage_trigger params r w now
