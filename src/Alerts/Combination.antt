-- ===== src/Alerts/Combination.antt =====
-- internal/store/combinations.go: RecordCombinationTrigger, by which a window counts the triggers of each
-- of several rules until all of them have enough for one notification.
pub mod Members
pub mod Current
pub mod Outcome
use de_box_asset_alert.Prelude.{
  ℕ, suc, ◌+◌, String, Bool, true, false, not, ◌&&◌, ◌||◌, Option, none, some, List, [], ◌∷◌, ◌++◌,
  Result, ok, err, map, take, length, count, exists, find, select, update, str_eq, ◌==◌, ltb, leb,
  if◌then◌else◌,
}
use de_box_asset_alert.Prelude.Sort.{sort}
use de_box_asset_alert.Store.Tables.{WatchRule, is_active}
use de_box_asset_alert.Store.Rules.{normalize_language}
use de_box_asset_alert.Alerts.Tables.{
  pending, Source, of_combination, AlertWindow, WindowMember, TriggerEvent, NotificationKind,
  combination, AggregateNotification, AlertCombination, AlertMember, AlertDb, AlertError, not_found,
  is_open,
}
use de_box_asset_alert.Alerts.Tx.{AlertTx, ◌>>=◌, ◌>>◌, pure, refuse_if, gets, modify, or_fail}
use de_box_asset_alert.Alerts.Events.{new_notice}
use de_box_asset_alert.Alerts.Windows.{stage_window_bounds}
use de_box_asset_alert.Alerts.Stage.{
  RecordTriggerParams, anchor_or, is_open_window, close_one, insert_alert_window, trigger_event,
  insert_trigger_event, count_trigger, claim, update_window, is_newer, insert_notification,
}

pub record MemberProgress : Type 0 where
  pub watch_rule_id : ℕ
  pub rule_type : String
  pub required_trigger_count : ℕ
  pub trigger_count : ℕ
  pub recent_notes : List String

pub record CombinationTriggerResult : Type 0 where
  pub combination_rule_id : ℕ
  pub window_id : ℕ
  pub trigger_event_id : ℕ
  pub window_starts_at : ℕ
  pub window_ends_at : ℕ
  pub notification_due : Bool
  pub member_progress : List MemberProgress
  pub notification : Option AggregateNotification

unfoldable pub is_member_of : ℕ → ℕ → AlertMember → Bool
is_member_of combination_id rule_id m =
    (m.combination_rule_id == combination_id) && (m.watch_rule_id == rule_id)

-- The rule of the trigger, which belongs to a combination and runs.
unfoldable pub combination_rule_row : RecordTriggerParams → AlertDb → Option WatchRule
unfolding find
combination_rule_row params db =
    find
      (λ (r : WatchRule).
        (r.id == params.watch_rule_id)
        && (str_eq r.debox_user_id params.debox_user_id
            && (str_eq r.rule_scope "combination" && (r.enabled && is_active r.run_status))))
      db.watch_rules

-- The running combination that it is a member of.
unfoldable pub combination_row : ℕ → AlertDb → Option AlertCombination
unfolding find exists is_member_of
combination_row rule_id db =
    find
      (λ (c : AlertCombination).
        exists (is_member_of c.id rule_id) db.combination_members
        && (c.enabled && is_active c.run_status))
      db.combinations

unfoldable pub combination_window_bounds : AlertCombination → ℕ → ℕ × ℕ
unfolding stage_window_bounds anchor_or
combination_window_bounds c now =
    stage_window_bounds c.cycle_type c.cycle_minutes
      (anchor_or c.aggregation_anchor_at c.created_at) now

-- What the members have to reach, as it is when the window opens.
unfoldable pub snapshot : ℕ → ℕ → AlertMember → WindowMember
snapshot window_id now m = record {
  window_id = window_id;
  watch_rule_id = m.watch_rule_id;
  required_trigger_count = m.required_trigger_count;
  trigger_count = 0;
  reached_at = none;
  updated_at = now;
}

unfoldable pub insert_combination_window : AlertCombination → ℕ → AlertDb → AlertWindow × AlertDb
unfolding insert_alert_window combination_window_bounds select snapshot
insert_combination_window c now db =
    let (w, db') =
      insert_alert_window c.debox_user_id (of_combination c.id) (combination_window_bounds c now)
        now db in
    (
      w,
      record db' {
        window_members =
            map (snapshot w.id now)
              (select (λ (m : AlertMember). m.combination_rule_id == c.id) db.combination_members)
            ++ db.window_members;
      },
    )

unfoldable pub combination_window_or_new :
    AlertCombination → ℕ → AlertDb → Option AlertWindow → AlertWindow × AlertDb
unfolding insert_combination_window close_one
combination_window_or_new c now db none = insert_combination_window c now db
combination_window_or_new c now db (some w) =
    if leb w.ends_at now then insert_combination_window c now (close_one now w db) else (w, db)

unfoldable pub current_combination_window : AlertCombination → ℕ → AlertDb → AlertWindow × AlertDb
unfolding find is_open_window combination_window_or_new
current_combination_window c now db =
    combination_window_or_new c now db (find (is_open_window (of_combination c.id)) db.windows)

unfoldable pub is_row_of : ℕ → ℕ → WindowMember → Bool
is_row_of window_id rule_id m = (m.window_id == window_id) && (m.watch_rule_id == rule_id)

unfoldable pub count_member : ℕ → WindowMember → WindowMember
count_member now m = record m {
  trigger_count = suc m.trigger_count;
  reached_at =
      if is_open m.reached_at && leb m.required_trigger_count (suc m.trigger_count)
      then some now
      else m.reached_at;
  updated_at = now;
}

unfoldable pub update_member : ℕ → ℕ → ℕ → AlertDb → AlertDb
unfolding update is_row_of count_member
update_member window_id rule_id now db = record db {
  window_members = update (is_row_of window_id rule_id) (count_member now) db.window_members;
}

-- JOIN watch_rules: the members whose rule exists.
unfoldable pub progress_row :
    WindowMember → Option WatchRule → List MemberProgress → List MemberProgress
progress_row m none rest = rest
progress_row m (some r) rest =
    record {
      watch_rule_id = m.watch_rule_id;
      rule_type = r.rule_type;
      required_trigger_count = m.required_trigger_count;
      trigger_count = m.trigger_count;
      recent_notes = [];
    }
    ∷ rest

unfoldable pub progress_of : List WatchRule → List WindowMember → List MemberProgress
unfolding find progress_row
progress_of rules [] = []
progress_of rules (m ∷ ms) =
    progress_row m (find (λ (r : WatchRule). r.id == m.watch_rule_id) rules) (progress_of rules ms)

unfoldable pub combination_progress : ℕ → AlertDb → List MemberProgress
unfolding progress_of sort select
combination_progress window_id db = progress_of db.watch_rules (
    sort (λ (a b : WindowMember). ltb a.watch_rule_id b.watch_rule_id)
      (select (λ (m : WindowMember). m.window_id == window_id) db.window_members))

unfoldable pub minimum_combination_members : ℕ
minimum_combination_members = 2

unfoldable pub all_combination_members_reached : List MemberProgress → Bool
unfolding exists minimum_combination_members
all_combination_members_reached progress =
    not (ltb (length progress) minimum_combination_members)
    && not (exists (λ (p : MemberProgress). ltb p.trigger_count p.required_trigger_count) progress)

unfoldable pub combination_recent_event_limit : ℕ
combination_recent_event_limit = 3

-- ROW_NUMBER() OVER (PARTITION BY watch_rule_id ORDER BY created_at DESC, id DESC)
event_position : List TriggerEvent → TriggerEvent → ℕ
unfolding count is_newer
event_position events e =
    suc (count (λ (x : TriggerEvent). (x.watch_rule_id == e.watch_rule_id) && is_newer x e) events)

unfoldable pub recent_combination_events : ℕ → AlertDb → List TriggerEvent
unfolding event_position sort select is_newer combination_recent_event_limit
recent_combination_events window_id db =
    let events = select (λ (e : TriggerEvent). e.window_id == window_id) db.trigger_events in
    sort
      (λ (a b : TriggerEvent).
        ltb a.watch_rule_id b.watch_rule_id
        || ((a.watch_rule_id == b.watch_rule_id) && is_newer a b))
      (select (λ (e : TriggerEvent). leb (event_position events e) combination_recent_event_limit)
        events)

-- Each event's note to its member, of which a member keeps the first three.
unfoldable pub attach_recent_combination_events :
    List TriggerEvent → List MemberProgress → List MemberProgress
unfolding update combination_recent_event_limit
attach_recent_combination_events [] progress = progress
attach_recent_combination_events (e ∷ events) progress = attach_recent_combination_events events (
    update
      (λ (p : MemberProgress).
        (p.watch_rule_id == e.watch_rule_id)
        && ltb (length p.recent_notes) combination_recent_event_limit)
      (λ p. record p { recent_notes = p.recent_notes ++ (e.note ∷ []) }) progress)

unfoldable pub combination_notification : AlertCombination → ℕ → ℕ → ℕ → ℕ → AggregateNotification
unfolding new_notice normalize_language
combination_notification c window_id total id now = record {
  id = id;
  debox_user_id = c.debox_user_id;
  window_id = window_id;
  kind = combination;
  chat_id = c.notification_chat_id;
  chat_type = c.notification_chat_type;
  label = c.notification_label;
  language = normalize_language c.notification_language;
  note = c.note;
  trigger_count_snapshot = total;
  notice = new_notice pending;
  created_at = now;
}

unfoldable pub combination_result :
    AlertCombination → AlertWindow → ℕ → List MemberProgress → CombinationTriggerResult
combination_result c w event_id progress = record {
  combination_rule_id = c.id;
  window_id = w.id;
  trigger_event_id = event_id;
  window_starts_at = w.starts_at;
  window_ends_at = w.ends_at;
  notification_due = false;
  member_progress = progress;
  notification = none;
}

unfoldable pub notified_combination :
    CombinationTriggerResult
    → Result AlertError (AggregateNotification × AlertDb)
    → Result AlertError (CombinationTriggerResult × AlertDb)
unfolding recent_combination_events attach_recent_combination_events
notified_combination result (err e) = err e
notified_combination result (ok (n, db)) = ok (
  record result {
    notification_due = true;
    member_progress =
        attach_recent_combination_events (recent_combination_events result.window_id db)
          result.member_progress;
    notification = some n;
  },
  db,
)

-- The window is locked, so that the claim affects it and its total is the one counted.
unfoldable pub claim_combination :
    AlertCombination → CombinationTriggerResult → ℕ → ℕ → AlertTx CombinationTriggerResult
unfolding update_window claim insert_notification combination_notification notified_combination
claim_combination c result total now db =
    let claimed = update_window result.window_id (claim now) db in
    notified_combination result (
      insert_notification (combination_notification c result.window_id total claimed.next_id now)
        claimed)

-- The trigger of the inserted event in its window and for its member.
unfoldable pub counted_combination :
    AlertCombination
    → WatchRule
    → AlertWindow
    → ℕ
    → Result AlertError (ℕ × AlertDb)
    → Result AlertError (CombinationTriggerResult × AlertDb)
unfolding update_window count_trigger update_member combination_progress combination_result
    claim_combination all_combination_members_reached
counted_combination c r w now (err e) = err e
counted_combination c r w now (ok (event_id, db)) =
    let counted = update_member w.id r.id now (update_window w.id (count_trigger now) db) in
    let progress = combination_progress w.id counted in
    let result = combination_result c w event_id progress in
    if w.notification_sent || not (all_combination_members_reached progress)
    then ok (result, counted)
    else claim_combination c result (suc w.total_trigger_count) now counted

unfoldable pub add_combination_trigger :
    RecordTriggerParams
    → AlertCombination
    → WatchRule
    → AlertWindow
    → ℕ
    → AlertTx CombinationTriggerResult
unfolding trigger_event insert_trigger_event counted_combination
add_combination_trigger params c r w now db =
    counted_combination c r w now
      (insert_trigger_event (trigger_event params c.debox_user_id r w.id db.next_id now) db)

unfoldable pub record_combination_trigger :
    RecordTriggerParams → ℕ → AlertTx CombinationTriggerResult
unfolding combination_rule_row combination_row current_combination_window add_combination_trigger
record_combination_trigger params now = do
  rule ← gets (combination_rule_row params)
  r ← or_fail not_found rule
  row ← gets (combination_row r.id)
  c ← or_fail not_found row
  w ← λ db. ok (current_combination_window c now db)
  add_combination_trigger params c r w now
