-- ===== src/Alerts/Combination/Outcome.antt =====
-- internal/store/combinations.go: what RecordCombinationTrigger does to the windows of a combination.
use de_box_asset_alert.Prelude.{
  ℕ, suc, ◌+◌, Bool, true, false, not, inl, inr, ◌≡◌, ◌&&◌, List, ◌∷◌, All, count, ◌==◌, leb, arith,
  Bool-cases,
}
use de_box_asset_alert.Prelude.Single.{indicator}
use de_box_asset_alert.Store.Tables.{WatchRule}
use de_box_asset_alert.Alerts.Tables.{
  of_combination, AlertWindow, WindowMember, TriggerEvent, AlertCombination, AlertDb,
}
use de_box_asset_alert.Alerts.Stage.{
  RecordTriggerParams, trigger_event, update_window, count_trigger,
}
use de_box_asset_alert.Alerts.Combination.{
  CombinationTriggerResult, is_row_of, update_member, combination_progress, combination_result,
}
use de_box_asset_alert.Alerts.Combination.Members.{has_rule, lags}
use de_box_asset_alert.Alerts.Invariant.{Inv, notices_of, events_by}
use de_box_asset_alert.Alerts.Triggers.{with_event}
use de_box_asset_alert.Alerts.Combination.Current.{rows_of, rows_due}
use de_box_asset_alert.Alerts.Running.{id_or, running_window, has_running}
use de_box_asset_alert.Prelude.Queries.{All-mono}

-- At least two members of a window have a rule, and none of these lags behind what is required of it.
abbrev pub has_all_reached : ℕ → AlertDb → Bool
has_all_reached window_id db =
    leb 2 (
      count (λ (m : WindowMember). (m.window_id == window_id) && has_rule db.watch_rules m)
        db.window_members)
    && (count (λ (m : WindowMember). (m.window_id == window_id) && lags db.watch_rules m)
          db.window_members
        == 0)

-- What a trigger does: its event is filed in the running window of the combination, or in a new one with
-- the combination's members if none is running; the window goes on, the rows of the rule in it count the
-- event, and it is notified once, when all members have enough.
pub record CombinationOutcome (params : RecordTriggerParams) (r : WatchRule) (c : AlertCombination)
    (now : ℕ) (db : AlertDb) (result : CombinationTriggerResult) (db' : AlertDb) : Type 0 where
  pub inv : Inv db'
  pub window : result.window_id ≡ id_or db.next_id (running_window (of_combination c.id) now db)
  pub recorded :
      db'.trigger_events
      ≡ trigger_event params c.debox_user_id r result.window_id result.trigger_event_id now
        ∷ db.trigger_events
  pub rows :
      (id : ℕ)
      → rows_of result.window_id id db'.window_members
        ≡ rows_due c id db (running_window (of_combination c.id) now db)
  pub counted :
      All
        (λ (m : WindowMember).
          (is_row_of result.window_id r.id m
            && not (m.trigger_count == suc (events_by result.window_id r.id db.trigger_events)))
          ≡ false)
        db'.window_members
  pub running :
      has_running (of_combination c.id) now result.window_id result.window_ends_at db' ≡ true
  pub due : result.notification_due ≡ (
      has_all_reached result.window_id db' && (notices_of result.window_id db.notifications == 0))
  pub notified :
      notices_of result.window_id db'.notifications
      ≡ notices_of result.window_id db.notifications + indicator result.notification_due

-- A row that counts its events counts the one that was filed.
one_more :
    (e : TriggerEvent) (events : List TriggerEvent) (ms : List WindowMember)
    → All
        (λ (m : WindowMember). m.trigger_count ≡ events_by m.window_id m.watch_rule_id (e ∷ events))
        ms
    → All
        (λ (m : WindowMember).
          (is_row_of e.window_id e.watch_rule_id m
            && not (m.trigger_count == suc (events_by e.window_id e.watch_rule_id events)))
          ≡ false)
        ms
unfolding is_row_of count
one_more e events ms h =
    All-mono _ _ ms
      (λ m k. elim (Bool-cases (is_row_of e.window_id e.watch_rule_id m)) [
        | inr f ↦ ground (arith, f)
        | inl f ↦
            let w : m.window_id ≡ e.window_id = ground (arith, f) in
            let r : m.watch_rule_id ≡ e.watch_rule_id = ground (arith, f) in
            let same : events_by m.window_id m.watch_rule_id events
                ≡ events_by e.window_id e.watch_rule_id events =
              cc (w, r) in
            ground (arith, k, w, r, same)
      ])
      h

-- The tables after a trigger of a member.
abbrev with_member : TriggerEvent → ℕ → AlertDb → AlertDb
with_member e now db = update_member e.window_id e.watch_rule_id now (with_event e now db)

module _ (c : AlertCombination) (r : WatchRule) (w : AlertWindow) (now id : ℕ) (db : AlertDb) where
  abbrev counted : AlertDb
  counted = update_member w.id r.id now (update_window w.id (count_trigger now) db)

  abbrev progress_result : CombinationTriggerResult
  progress_result = combination_result c w id (combination_progress w.id counted)
