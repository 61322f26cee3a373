-- ===== src/MarketDelivery/Examples.antt =====
-- The theorems on windows and notifications, at one rule with one staged event and one realtime event.
use de_box_asset_alert.Prelude.{
  ℕ, ◌*◌, Bool, true, false, ◌≡◌, refl, none, some, List, [], ◌∷◌, ok, All, count, arith,
}
use de_box_asset_alert.Prelude.Int.{pos}
use de_box_asset_alert.MarketDelivery.Tables.{
  staged, pending, Row, RuleEvent, StageWindow, DeliveryRule, Db,
}
use de_box_asset_alert.MarketDelivery.Windows.{
  market_window_bounds, IsWindow, market_window_bounds-IsWindow,
}
use de_box_asset_alert.MarketDelivery.RuleEvents.{
  CreateParams, new_rule_event, with_row, create_market_rule_event, create_market_rule_event-again,
}
use de_box_asset_alert.MarketDelivery.Stage.{
  current_market_stage_window, advance_stage, record_market_stage_trigger,
}
use de_box_asset_alert.MarketDelivery.Stage.Counts.{Inv, record_market_stage_trigger-Inv}
use de_box_asset_alert.MarketDelivery.Queue.{is_among, can_notify_realtime, claim_table}
use de_box_asset_alert.MarketDelivery.Queue.Claims.{claim_table-disjoint}
use de_box_asset_alert.MarketDelivery.Queue.Moves.{Pairwise, Follows}
use de_box_asset_alert.MarketDelivery.Queue.History.{
  Call, claim, complete, recover, run, DbDistinct, DbBounded, run-Follows, run-DbBounded,
}

-- The anchor is at 600, the cycle is of 10 minutes, and the moment is in the third window.
market_window_bounds-IsWindow_example :
    IsWindow 600 (10 * 60) 2000 (market_window_bounds "fixed" 10 (some 600) 2000)
market_window_bounds-IsWindow_example = market_window_bounds-IsWindow 10 600 2000 (omega arith)

abbrev queued : Row RuleEvent
queued = record {
  id = 1;
  status = pending;
  message_id = none;
  error = "";
  attempts = 0;
  attempted_at = none;
  sent_at = none;
  next_attempt_at = 900;
  columns = record { market_rule_id = 5; market_event_id = 8; trigger_key = "k1" };
}

abbrev rule : DeliveryRule
rule = record {
  id = 5;
  debox_user_id = "ann";
  project_id = 3;
  enabled = true;
  is_active = true;
  delivery_mode = "stage";
  cycle_type = "fixed";
  cycle_minutes = 10;
  trigger_count_threshold = 2;
  aggregation_anchor_at = some 600;
  deployment_scope = "all";
}

abbrev db : Db
db = record {
  rules = rule ∷ [];
  projects = record { id = 3; is_active = true; chain_id = 56; token_address = "0x01" } ∷ [];
  events = record { id = 8; reorged = false; chain_id = 56; token_address = "0x01" } ∷ [];
  combinations = [];
  project_deployments = [];
  asset_deployments = [];
  rule_deployments = [];
  rule_events =
      queued
      ∷ record queued {
        id = 2;
        status = staged;
        columns = record queued.columns { trigger_key = "k2" };
      }
      ∷ [];
  stage_windows = [];
  combination_windows = [];
  stage_window_events = [];
  combination_window_events = [];
  next_id = 10;
}

db-DbDistinct : DbDistinct db
unfolding count
db-DbDistinct = (λ n. ground arith, (λ n. omega arith, λ n. omega arith))

abbrev first_claim : List ℕ × List (Row RuleEvent)
first_claim = claim_table (can_notify_realtime db) 200 1000 db.rule_events

-- It takes the one that is pending.
first_claim_takes : first_claim.0 ≡ 1 ∷ []
unfolding claim_table can_notify_realtime
first_claim_takes = refl

claim_table-disjoint_example :
    All
      (λ i. is_among first_claim.0 i ≡ false)
      (claim_table (can_notify_realtime db) 200 1001 first_claim.1).0
claim_table-disjoint_example =
    claim_table-disjoint (can_notify_realtime db) (can_notify_realtime db) 200 200 1000 1001
      db.rule_events

abbrev calls : List Call
calls =
    claim 200 1000
    ∷ complete (record { kind = "realtime"; id = 1 }) (some "m1") "" 1001
    ∷ recover (pos 60) 1100
    ∷ claim 200 1200
    ∷ []

run-Follows_example :
    Pairwise Follows db.rule_events (run db calls).rule_events
    × (Pairwise Follows db.stage_windows (run db calls).stage_windows
        × Pairwise Follows db.combination_windows (run db calls).combination_windows)
run-Follows_example = run-Follows db calls db-DbDistinct

db-DbBounded : DbBounded db
db-DbBounded = (((omega arith, refl), ((omega arith, refl), tt)), (tt, tt))

run-DbBounded_example : DbBounded (run db calls)
run-DbBounded_example = run-DbBounded db calls db-DbDistinct db-DbBounded

db-Inv : Inv db
unfolding count
db-Inv = record {
  counted = tt;
  once = λ n. omega arith;
  one_open = λ n. omega arith;
  old_windows = tt;
  old_links = tt;
}

-- The rule event 2 opens the window from 1800 on.
abbrev opened : Row StageWindow × Db
opened = current_market_stage_window rule 2000 db

abbrev recorded : (Row StageWindow × Bool) × Db
recorded = advance_stage rule 2000 2 opened.0 opened.1

recorded_run : record_market_stage_trigger 2 2000 db ≡ ok (recorded.0, recorded.1)
unfolding record_market_stage_trigger
recorded_run = refl

recorded_once : (recorded.0.0.columns.starts_at ≡ 1800) × (recorded.0.0.columns.trigger_count ≡ 1)
unfolding record_market_stage_trigger
recorded_once = (refl, refl)

record_market_stage_trigger-Inv_example : Inv recorded.1
record_market_stage_trigger-Inv_example =
    record_market_stage_trigger-Inv 2 2000 db {window = recorded.0.0} {due = recorded.0.1}
      {db' = recorded.1} db-Inv recorded_run

abbrev trigger : CreateParams
trigger = record {
  market_rule_id = 5;
  market_event_id = 8;
  trigger_key = "snapshot:1";
  notification_status = "staged";
  notification_error = "";
}

abbrev empty_db : Db
empty_db = record db { rule_events = [] }

abbrev added : Row RuleEvent
added = new_rule_event 10 1000 trigger "snapshot:1"

trigger_is_new :
    create_market_rule_event trigger 1000 empty_db ≡ ok ((added, true), with_row added empty_db)
unfolding create_market_rule_event
trigger_is_new = refl

create_market_rule_event-again_example :
    create_market_rule_event trigger 1005 (with_row added empty_db)
    ≡ ok ((added, false), with_row added empty_db)
create_market_rule_event-again_example =
    create_market_rule_event-again trigger 1000 1005 empty_db trigger_is_new
