-- ===== src/Alerts/Examples.antt =====
-- Three rules, one in stages and two in a combination, and a trigger of each kind.
use de_box_asset_alert.Prelude.{
  ℕ, String, first_by, ◌-◌, ◌≤◌, exists, map, true, false, not, none, some, [], ◌∷◌, All, ok,
  length, select, find, count, ◌≡◌, refl, arith,
}
use de_box_asset_alert.Prelude.Int.{pos}
use de_box_asset_alert.Store.Tables.{WatchRule, active}
use de_box_asset_alert.Store.Examples.{rule_of, ann_standard}
use de_box_asset_alert.Alerts.Tables.{
  AlertDb, AlertCombination, AlertMember, TriggerEvent, Source, of_rule, of_combination,
  AlertWindow, WindowMember, AggregateNotification, stage, pending,
}
use de_box_asset_alert.Alerts.Events.{new_notice}
use de_box_asset_alert.Alerts.Windows.{stage_window_bounds, IsCycle, stage_window_bounds-IsCycle}
use de_box_asset_alert.Alerts.Stage.{
  is_open_window, RecordTriggerParams, StageTriggerResult, record_stage_trigger,
}
use de_box_asset_alert.Alerts.Stage.Outcome.{
  StageOutcome, IsStageRule, record_stage_trigger-StageOutcome,
}
use de_box_asset_alert.Alerts.Invariant.{Inv}
use de_box_asset_alert.Alerts.Cleanup.{
  cleanup_aggregation_history, is_expired, HasWindows, cleanup-HasWindows,
}
use de_box_asset_alert.Alerts.Enabled.{
  EnabledRule, IsListed, list_enabled_watch_rules, list_enabled_watch_rules-IsListed,
}

abbrev staged_rule : WatchRule
staged_rule = record (rule_of 8 "0xW1" active "") {
  delivery_mode = "stage";
  trigger_count_threshold = 2;
}

abbrev member : ℕ → WatchRule
member id = record (rule_of id "0xW2" active "") { rule_scope = "combination" }

abbrev watched : AlertCombination
watched = record {
  id = 3;
  debox_user_id = "ann";
  note = "watched";
  cycle_type = "follow";
  cycle_minutes = 60;
  notification_chat_id = "ann";
  notification_chat_type = "private";
  notification_label = "";
  notification_language = "en";
  enabled = true;
  run_status = active;
  aggregation_anchor_at = none;
  created_at = 100;
}

abbrev member_row : ℕ → AlertMember
member_row id = record { combination_rule_id = 3; watch_rule_id = id; required_trigger_count = 1 }

abbrev window : ℕ → Source → ℕ → AlertWindow
window id source total = record {
  id = id;
  debox_user_id = "ann";
  source = source;
  starts_at = 500;
  ends_at = 5000;
  total_trigger_count = total;
  notification_sent = false;
  notification_sent_at = none;
  closed_at = none;
  updated_at = 500;
}

abbrev event_in : ℕ → ℕ → ℕ → ℕ → TriggerEvent
event_in window_id id rule_id at = record {
  id = id;
  debox_user_id = "ann";
  watch_rule_id = rule_id;
  window_id = window_id;
  event_type = "incoming";
  event_key = "";
  previous_value = none;
  current_value = some "1";
  note = "in";
  occurred_at = none;
  created_at = at;
}

abbrev row_of : ℕ → ℕ → WindowMember
row_of rule_id total = record {
  window_id = 14;
  watch_rule_id = rule_id;
  required_trigger_count = 1;
  trigger_count = total;
  reached_at = none;
  updated_at = 500;
}

-- The windows of the rule and of the combination are open, and each has one event.
abbrev tables : AlertDb
tables = record {
  watch_rules = staged_rule ∷ member 9 ∷ member 10 ∷ [];
  subscriptions = [];
  user_preferences = [];
  combinations = watched ∷ [];
  combination_members = member_row 9 ∷ member_row 10 ∷ [];
  alert_events = [];
  windows = window 12 (of_rule 8) 1 ∷ window 14 (of_combination 3) 1 ∷ [];
  window_members = row_of 9 0 ∷ row_of 10 1 ∷ [];
  trigger_events = event_in 12 13 8 600 ∷ event_in 14 15 10 700 ∷ [];
  notifications = [];
  next_id = 20;
}

abbrev trigger_of : ℕ → RecordTriggerParams
trigger_of id = record {
  watch_rule_id = id;
  debox_user_id = "ann";
  previous_value = some "1";
  current_value = some "3";
  note = "in";
  event_key = "";
  occurred_at = none;
}

one_open : (s : Source) → count (is_open_window s) tables.windows ≤ 1
unfolding count is_open_window
one_open (of_rule n) = ground arith
one_open (of_combination n) = ground arith

tables-Inv : Inv tables
unfolding count exists is_open_window
tables-Inv = record {
  windows = (
    record { counted = refl; claimed = refl; separate = refl; is_old = omega arith },
    (record { counted = refl; claimed = refl; separate = refl; is_old = omega arith }, tt),
  );
  one_open = one_open;
  members = (refl, (refl, tt));
  old_members = (omega arith, (omega arith, tt));
  old_events = (omega arith, (omega arith, tt));
  old_notices = tt;
}

staged_rule-IsStageRule : IsStageRule (trigger_of 8) tables staged_rule
unfolding find
staged_rule-IsStageRule = record { row = refl; running = refl; staged = refl; cycle = omega arith }

record_stage_trigger-StageOutcome_example :
    (result : StageTriggerResult) × (db : AlertDb) × (record_stage_trigger
        (trigger_of 8)
        1000
        tables
      ≡ ok (result, db))
    × StageOutcome (trigger_of 8) staged_rule 1000 tables result db
record_stage_trigger-StageOutcome_example =
    record_stage_trigger-StageOutcome (trigger_of 8) 1000 tables staged_rule tables-Inv
      staged_rule-IsStageRule refl

-- An anchor at 10.9 s, a cycle of a minute and a moment at 70.1 s: the window starts at 70.9 s.
stage_window_bounds-IsCycle_example :
    IsCycle "fixed" 1 10900000000 70100000000
      (stage_window_bounds "fixed" 1 10900000000 70100000000)
stage_window_bounds-IsCycle_example =
    stage_window_bounds-IsCycle "fixed" 1 10900000000 70100000000 (omega arith)

window_starts_early : (stage_window_bounds "fixed" 1 10900000000 70100000000).0 ≡ 70900000000
unfolding stage_window_bounds
window_starts_early = refl

abbrev notified_in : ℕ → ℕ → AggregateNotification
notified_in window_id id = record {
  id = id;
  debox_user_id = "ann";
  window_id = window_id;
  kind = stage;
  chat_id = "ann";
  chat_type = "private";
  label = "";
  language = "en";
  note = "";
  trigger_count_snapshot = 1;
  notice = new_notice pending;
  created_at = 700;
}

-- Thirty days and ten minutes after the start of the clock, in nanoseconds.
abbrev late : ℕ
late = 2592600000000000

-- One window has an old and a recent event and a notification, the other one an old event and an old
-- notification.
abbrev old_tables : AlertDb
old_tables = record tables {
  windows = window 12 (of_rule 8) 2 ∷ window 16 (of_rule 7) 1 ∷ [];
  window_members = [];
  trigger_events = event_in 12 13 8 600 ∷ event_in 12 18 8 (late - 5) ∷ event_in 16 17 7 600 ∷ [];
  notifications = notified_in 12 19 ∷ notified_in 16 11 ∷ [];
}

old_tables-HasWindows : HasWindows old_tables
unfolding exists
old_tables-HasWindows = record {
  events = (refl, (refl, (refl, tt)));
  notifications = (refl, (refl, tt));
}

-- The second window goes, with all that refers to it, and so does the old event of the first one.
cleanup_deletes :
    (cleanup_aggregation_history late old_tables).0
    ≡ record { notifications_deleted = 1; events_deleted = 2; windows_deleted = 1 }
unfolding cleanup_aggregation_history
cleanup_deletes = refl

cleanup-HasWindows_example :
    HasWindows (cleanup_aggregation_history late old_tables).1
    × (select
          (λ (e : TriggerEvent). not (is_expired late e.created_at))
          (cleanup_aggregation_history late old_tables).1.trigger_events
        ≡ select
            (λ (e : TriggerEvent). not (is_expired late e.created_at))
            old_tables.trigger_events)
    × All
        (λ (e : TriggerEvent). not (is_expired late e.created_at) ≡ true)
        (cleanup_aggregation_history late old_tables).1.trigger_events
cleanup-HasWindows_example = cleanup-HasWindows late old_tables old_tables-HasWindows

-- Ann has the free plan and has chosen the first of two rules; Bob has paid.
abbrev user_tables : AlertDb
user_tables = record tables {
  watch_rules = staged_rule ∷ member 9 ∷ record (member 11) { debox_user_id = "bob" } ∷ [];
  subscriptions =
      record ann_standard { id = 2; debox_user_id = "bob"; plan_code = "professional" } ∷ [];
  user_preferences = record { debox_user_id = "ann"; free_watch_rule_id = some 8 } ∷ [];
}

listed_rules :
    map {B = ℕ × String}
      (λ (e : EnabledRule). (e.rule.id, e.effective_plan_code))
      (list_enabled_watch_rules (pos 100) 1000 user_tables)
    ≡ ((8, "free") ∷ (11, "professional") ∷ [])
unfolding list_enabled_watch_rules first_by
listed_rules = refl

list_enabled_watch_rules-IsListed_example :
    All (IsListed user_tables) (list_enabled_watch_rules (pos 100) 1000 user_tables)
    × (length (list_enabled_watch_rules (pos 100) 1000 user_tables) ≤ 1000)
list_enabled_watch_rules-IsListed_example =
    list_enabled_watch_rules-IsListed (pos 100) 1000 user_tables
