-- ===== src/Alerts/Stage/Current.antt =====
-- internal/store/aggregations.go: currentStageWindow, the window that a trigger falls in.
use de_box_asset_alert.Prelude.{
  ℕ, ◌<◌, true, inl, inr, ◌≡◌, refl, sym, ap, Option, none, some, count, find, leb, arith,
  Bool-cases,
}
use de_box_asset_alert.Prelude.Queries.{find-All, find-test}
use de_box_asset_alert.Prelude.Updates.{find-none}
use de_box_asset_alert.Store.Tables.{WatchRule}
use de_box_asset_alert.Alerts.Tables.{Source, of_rule, AlertWindow, AlertDb}
use de_box_asset_alert.Alerts.Stage.{
  is_open_window, stage_window_or_new, insert_alert_window, close_one, same_source, anchor_or,
}
use de_box_asset_alert.Alerts.Invariant.{
  Known, Inv, same_source-eq, insert_alert_window-Inv, close_one-Inv,
}
use de_box_asset_alert.Alerts.Windows.{stage_window_bounds, stage_window_bounds-IsCycle}
use de_box_asset_alert.Alerts.Running.{IsCurrent, id_or, new-IsCurrent, open-IsCurrent, over-none}

-- The window that the trigger of a rule falls in.
pub record IsStageWindow (r : WatchRule) (now : ℕ) (before : AlertDb) (w : AlertWindow)
    (db : AlertDb) : Type 0 where
  pub inv : Inv db
  pub known : Known db w
  pub source : w.source ≡ of_rule r.id
  pub runs : now < w.ends_at
  pub events : db.trigger_events ≡ before.trigger_events
  pub notices : db.notifications ≡ before.notifications
  pub current : IsCurrent (of_rule r.id) now before w db

open_window-source :
    (s : Source) (w : AlertWindow) → is_open_window s w ≡ true → same_source w.source s ≡ true
unfolding is_open_window
open_window-source s w h = ground arith

new-IsStageWindow :
    (r : WatchRule) (now : ℕ) (db : AlertDb)
    → Inv db
    → 0 < r.cycle_minutes
    → count (is_open_window (of_rule r.id)) db.windows ≡ 0
    → IsStageWindow r now db
        (stage_window_or_new r now db none).0
        (stage_window_or_new r now db none).1
unfolding stage_window_or_new insert_alert_window
new-IsStageWindow r now db inv positive none_open =
    let anchor = anchor_or r.aggregation_anchor_at r.created_at in
    let bounds = stage_window_bounds r.cycle_type r.cycle_minutes anchor now in
    let (after, first) =
      insert_alert_window-Inv r.debox_user_id (of_rule r.id) bounds now db inv none_open in
    let cycle = stage_window_bounds-IsCycle r.cycle_type r.cycle_minutes anchor now positive in
    record {
      inv = after;
      known = first;
      source = refl;
      runs = cycle.runs;
      events = refl;
      notices = refl;
      current = new-IsCurrent r.debox_user_id (of_rule r.id) bounds now db cycle.runs none_open;
    }

pub stage_window_or_new-IsStageWindow :
    (r : WatchRule) (now : ℕ) (db : AlertDb) (found : Option AlertWindow)
    → Inv db
    → 0 < r.cycle_minutes
    → find (is_open_window (of_rule r.id)) db.windows ≡ found
    → IsStageWindow r now db
        (stage_window_or_new r now db found).0
        (stage_window_or_new r now db found).1
unfolding stage_window_or_new close_one insert_alert_window
stage_window_or_new-IsStageWindow r now db none inv positive e =
    new-IsStageWindow r now db inv positive (find-none _ db.windows e)
stage_window_or_new-IsStageWindow r now db (some w) inv positive e =
    elim (Bool-cases (leb w.ends_at now)) [
      | inl over ↦
          let (closed, none_open) = close_one-Inv (of_rule r.id) now w db inv e in
          let new = new-IsStageWindow r now (close_one now w db) closed positive none_open in
          rw over (record {
            inv = new.inv;
            known = new.known;
            source = new.source;
            runs = new.runs;
            events = new.events;
            notices = new.notices;
            current = record {
              found =
                  ap (id_or db.next_id)
                    (sym (over-none (of_rule r.id) now db w e over (inv.one_open (of_rule r.id))));
              there = new.current.there;
            };
          })
      | inr runs ↦ rw runs (record {
        inv = inv;
        known = find-All (Known db) _ db.windows inv.windows e;
        source =
            same_source-eq w.source (of_rule r.id)
              (open_window-source (of_rule r.id) w (find-test _ db.windows e));
        runs = ground arith;
        events = refl;
        notices = refl;
        current = open-IsCurrent (of_rule r.id) now db w e runs;
      })
    ]
