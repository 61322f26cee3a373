-- ===== src/MarketDelivery/Stage.antt =====
-- internal/store/market_delivery.go: RecordMarketStageTrigger, by which a window collects the triggers
-- of a rule until they are enough for a notification.
pub mod Counts
use de_box_asset_alert.Prelude.{
  ℕ, suc, ◌+◌, String, Bool, true, false, not, ◌&&◌, ◌||◌, Option, none, some, List, [], ◌∷◌,
  Result, ok, err, find, update, exists, str_eq, ◌==◌, leb, if◌then◌else◌,
}
use de_box_asset_alert.MarketDelivery.Tables.{
  Status, collecting, pending, skipped, Row, RuleEvent, StageWindow, DeliveryRule, DeliveryProject,
  WindowEvent, Db, DeliveryError, not_found, is_staged, is_collecting, is_emitted, is_pending,
  is_on_chain,
}
use de_box_asset_alert.MarketDelivery.Windows.{market_window_bounds}

runs_in_stages : Db → DeliveryRule → Bool
unfolding exists
runs_in_stages db r =
    r.enabled
    && (r.is_active
        && (str_eq r.delivery_mode "stage"
            && exists (λ (p : DeliveryProject). (p.id == r.project_id) && p.is_active) db.projects))

-- The rule of a staged rule event that still counts.
unfoldable pub stage_configuration : Db → ℕ → Option DeliveryRule
unfolding find is_on_chain runs_in_stages
stage_configuration db rule_event_id =
    elim (find
      (λ (e : Row RuleEvent).
        (e.id == rule_event_id) && (is_staged e.status && is_on_chain db e.columns.market_event_id))
      db.rule_events) [
        | none ↦ none
        | some e ↦
            find (λ (r : DeliveryRule). (r.id == e.columns.market_rule_id) && runs_in_stages db r)
              db.rules
      ]

abbrev pub is_none : Option ℕ → Bool
is_none none = true
is_none (some n) = false

unfoldable pub is_open_of : ℕ → Row StageWindow → Bool
is_open_of rule_id w = (w.columns.market_rule_id == rule_id) && is_none w.columns.closed_at

unfoldable pub close_window : ℕ → Row StageWindow → Row StageWindow
close_window now w = record w {
  columns = record w.columns { closed_at = some now; updated_at = now };
  status = if is_collecting w.status then skipped else w.status;
}

unfoldable pub new_window : DeliveryRule → ℕ → ℕ → Row StageWindow
unfolding market_window_bounds
new_window r id now =
    let (starts_at, ends_at) =
      market_window_bounds r.cycle_type r.cycle_minutes r.aggregation_anchor_at now in
    record {
      id = id;
      status = collecting;
      message_id = none;
      error = "";
      attempts = 0;
      attempted_at = none;
      sent_at = none;
      next_attempt_at = now;
      columns = record {
        debox_user_id = r.debox_user_id;
        market_rule_id = r.id;
        starts_at = starts_at;
        ends_at = ends_at;
        trigger_count = 0;
        closed_at = none;
        updated_at = now;
      };
    }

unfoldable pub insert_window : DeliveryRule → ℕ → Db → Row StageWindow × Db
unfolding new_window
insert_window r now db =
    let w = new_window r db.next_id now in
    (w, record db { stage_windows = w ∷ db.stage_windows; next_id = suc db.next_id })

unfoldable pub close_row : ℕ → Row StageWindow → Db → Db
unfolding update close_window
close_row now w db = record db {
  stage_windows =
      update (λ (v : Row StageWindow). v.id == w.id) (close_window now) db.stage_windows;
}

-- A window that is over is closed, and another one is opened.
unfoldable pub window_or_new :
    DeliveryRule → ℕ → Db → Option (Row StageWindow) → Row StageWindow × Db
unfolding close_row insert_window
window_or_new r now db none = insert_window r now db
window_or_new r now db (some w) =
    if leb w.columns.ends_at now then insert_window r now (close_row now w db) else (w, db)

unfoldable pub current_market_stage_window : DeliveryRule → ℕ → Db → Row StageWindow × Db
unfolding find is_open_of window_or_new
current_market_stage_window r now db =
    window_or_new r now db (find (is_open_of r.id) db.stage_windows)

-- Another trigger in a window, which is to be notified once they are enough.
unfoldable pub advance_window : ℕ → ℕ → Row StageWindow → Row StageWindow
advance_window threshold now w =
    let reached = leb threshold (suc w.columns.trigger_count) && is_collecting w.status in
    record w {
      columns = record w.columns { trigger_count = suc w.columns.trigger_count; updated_at = now };
      status = if is_emitted w.status then w.status else if reached then pending else w.status;
      next_attempt_at = if reached then now else w.next_attempt_at;
    }

unfoldable pub skip_late : Row RuleEvent → Row RuleEvent
skip_late e = record e {
  status = skipped;
  error = "stage notification already emitted for this window";
}

-- ON CONFLICT DO NOTHING: a rule event is in one window at most.
abbrev pub has_link : ℕ → List WindowEvent → Bool
has_link rule_event_id links = exists (λ (l : WindowEvent). l.rule_event_id == rule_event_id) links

-- The trigger of a rule event in a window.
unfoldable pub advance_stage :
    DeliveryRule → ℕ → ℕ → Row StageWindow → Db → (Row StageWindow × Bool) × Db
unfolding update advance_window skip_late exists
advance_stage r now rule_event_id window db =
    let advanced = advance_window r.trigger_count_threshold now window in
    if has_link rule_event_id db.stage_window_events then ((window, false), db) else (
      (advanced, is_pending advanced.status),
      record db {
        stage_window_events =
            record { window_id = window.id; rule_event_id = rule_event_id }
            ∷ db.stage_window_events;
        stage_windows =
            update (λ (v : Row StageWindow). v.id == window.id)
              (advance_window r.trigger_count_threshold now) db.stage_windows;
        rule_events =
            if is_emitted advanced.status
            then update (λ (e : Row RuleEvent). (e.id == rule_event_id) && is_staged e.status)
                skip_late db.rule_events
            else db.rule_events;
      },
    )

unfoldable pub record_market_stage_trigger :
    ℕ → ℕ → Db → Result DeliveryError ((Row StageWindow × Bool) × Db)
unfolding stage_configuration current_market_stage_window advance_stage
record_market_stage_trigger rule_event_id now db = elim (stage_configuration db rule_event_id) [
  | none ↦ err not_found
  | some r ↦
      (let (window, db') = current_market_stage_window r now db in
        ok (advance_stage r now rule_event_id window db'))
]
