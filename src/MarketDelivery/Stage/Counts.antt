-- ===== src/MarketDelivery/Stage/Counts.antt =====
-- internal/store/market_delivery.go: what the windows count.
use de_box_asset_alert.Prelude.{
  ℕ, ◌≤◌, ◌<◌, Bool, true, false, inl, inr, ◌≡◌, refl, sym, subst, ap, ==_iff, ◌∙◌, Option, none,
  some, List, [], ◌∷◌, Result, ok, err, All, count, find, exists, ◌==◌, leb, arith, Bool-cases,
  Option-cases,
}
use de_box_asset_alert.Prelude.Queries.{All-mono, All-update, count-update_same, find-All}
use de_box_asset_alert.Prelude.Updates.{
  find-none, count-update_found, count-update_le, All-update_to,
}
use de_box_asset_alert.MarketDelivery.Tables.{
  Row, StageWindow, DeliveryRule, WindowEvent, Db, DeliveryError,
}
use de_box_asset_alert.MarketDelivery.Stage.{
  stage_configuration, is_open_of, close_window, new_window, insert_window, close_row,
  window_or_new, current_market_stage_window, advance_window, has_link, advance_stage,
  record_market_stage_trigger,
}

abbrev pub links_of : ℕ → List WindowEvent → ℕ
links_of window_id links = count (λ (l : WindowEvent). l.window_id == window_id) links

-- Every window counts the rule events that are in it; a rule event is in one window at most; a rule has
-- one open window at most; and the ids of the windows are below the next id.
pub record Inv (db : Db) : Type 0 where
  pub counted :
      All (λ w. w.columns.trigger_count ≡ links_of w.id db.stage_window_events) db.stage_windows
  pub once : (n : ℕ) → count (λ (l : WindowEvent). l.rule_event_id == n) db.stage_window_events ≤ 1
  pub one_open : (n : ℕ) → count (is_open_of n) db.stage_windows ≤ 1
  pub old_windows : All (λ w. w.id < db.next_id) db.stage_windows
  pub old_links : All (λ (l : WindowEvent). l.window_id < db.next_id) db.stage_window_events

links_of-none :
    (n : ℕ) (links : List WindowEvent)
    → All (λ (l : WindowEvent). l.window_id < n) links
    → links_of n links ≡ 0
unfolding count
links_of-none n [] h = refl
links_of-none n (l ∷ links) (k, h) = ground (arith, links_of-none n links h)

close_window-not_open :
    (n now : ℕ) (w : Row StageWindow) → is_open_of n (close_window now w) ≡ false
unfolding is_open_of close_window
close_window-not_open n now w = ground arith

new_window-is_open :
    (r : DeliveryRule) (n id now : ℕ) → is_open_of n (new_window r id now) ≡ (r.id == n)
unfolding is_open_of new_window
new_window-is_open r n id now = ground arith

-- A new window, where the rule has no open one.
insert_window-Inv :
    (r : DeliveryRule) (now : ℕ) (db : Db)
    → Inv db
    → count (is_open_of r.id) db.stage_windows ≡ 0
    → Inv (insert_window r now db).1
      × ((insert_window r now db).0.id < (insert_window r now db).1.next_id)
unfolding insert_window count
insert_window-Inv r now db inv none_open = (
  record {
    counted = (sym (links_of-none db.next_id db.stage_window_events inv.old_links), inv.counted);
    once = inv.once;
    one_open = λ n. rw (new_window-is_open r n db.next_id now) (elim (Bool-cases (r.id == n)) [
      | inl e ↦ rw e (
          omega (
            arith,
            none_open,
            ap (λ m. count (is_open_of m) db.stage_windows) ((==_iff r.id n).0 e),
          ))
      | inr e ↦ rw e (inv.one_open n)
    ]);
    old_windows =
        (omega arith, All-mono _ _ db.stage_windows (λ w h. omega (arith, h)) inv.old_windows);
    old_links = All-mono _ _ db.stage_window_events (λ l h. omega (arith, h)) inv.old_links;
  },
  omega arith,
)

kept_count :
    (now : ℕ) (w : Row StageWindow) (links : List WindowEvent)
    → w.columns.trigger_count ≡ links_of w.id links
    → (close_window now w).columns.trigger_count ≡ links_of (close_window now w).id links
unfolding close_window
kept_count now w links h = h

kept_id : (now : ℕ) (w : Row StageWindow) (n : ℕ) → w.id < n → (close_window now w).id < n
unfolding close_window
kept_id now w n h = h

-- Closing the window that was found leaves the rule without an open one.
close_row-Inv :
    (n now : ℕ) (w : Row StageWindow) (db : Db)
    → Inv db
    → find (is_open_of n) db.stage_windows ≡ some w
    → Inv (close_row now w db) × (count (is_open_of n) (close_row now w db).stage_windows ≡ 0)
unfolding close_row
close_row-Inv n now w db inv e =
    let hit : Row StageWindow → Bool = λ v. v.id == w.id in
    (
      record {
        counted =
            All-update _ hit (close_window now) db.stage_windows (λ v t c. kept_count now v _ c)
              inv.counted;
        once = inv.once;
        one_open = λ m. omega (
          arith,
          inv.one_open m,
          count-update_le (is_open_of m) hit (close_window now)
              (λ v t. close_window-not_open m now v) db.stage_windows,
        );
        old_windows =
            All-update _ hit (close_window now) db.stage_windows (λ v t c. kept_id now v _ c)
              inv.old_windows;
        old_links = inv.old_links;
      },
      count-update_found (is_open_of n) hit (close_window now)
          (λ v t. close_window-not_open n now v) db.stage_windows e (ground arith) (inv.one_open n),
    )

abbrev IsCurrent : Row StageWindow × Db → Type 0
IsCurrent (w, db) = Inv db × (w.id < db.next_id)

window_or_new-Inv :
    (r : DeliveryRule) (now : ℕ) (db : Db) (found : Option (Row StageWindow))
    → Inv db
    → find (is_open_of r.id) db.stage_windows ≡ found
    → IsCurrent (window_or_new r now db found)
unfolding window_or_new
window_or_new-Inv r now db none inv e =
    insert_window-Inv r now db inv (find-none _ db.stage_windows e)
window_or_new-Inv r now db (some w) inv e = elim (Bool-cases (leb w.columns.ends_at now)) [
  | inr l ↦ rw l (inv, find-All _ _ db.stage_windows inv.old_windows e)
  | inl l ↦
      (let c = close_row-Inv r.id now w db inv e in
        rw l (insert_window-Inv r now (close_row now w db) c.0 c.1))
]

one_more :
    (threshold now rule_event_id : ℕ) (window v : Row StageWindow) (links : List WindowEvent)
    → (v.id == window.id) ≡ true
    → v.columns.trigger_count ≡ links_of v.id links
    → (advance_window threshold now v).columns.trigger_count
      ≡ links_of
          (advance_window threshold now v).id
          (record { window_id = window.id; rule_event_id = rule_event_id } ∷ links)
unfolding advance_window count
one_more threshold now rule_event_id window v links t c = ground (arith, c)

no_more :
    (rule_event_id : ℕ) (window v : Row StageWindow) (links : List WindowEvent)
    → (v.id == window.id) ≡ false
    → v.columns.trigger_count ≡ links_of v.id links
    → v.columns.trigger_count
      ≡ links_of v.id (record { window_id = window.id; rule_event_id = rule_event_id } ∷ links)
unfolding count
no_more rule_event_id window v links t c = ground (arith, c)

once_more :
    (n rule_event_id window_id : ℕ) (links : List WindowEvent)
    → count (λ (l : WindowEvent). l.rule_event_id == n) links ≤ 1
    → count (λ (l : WindowEvent). l.rule_event_id == rule_event_id) links ≡ 0
    → count
        (λ (l : WindowEvent). l.rule_event_id == n)
        (record { window_id = window_id; rule_event_id = rule_event_id } ∷ links)
      ≤ 1
unfolding count
once_more n rule_event_id window_id links k z = elim (Bool-cases (rule_event_id == n)) [
  | inl e ↦ rw e (
      omega (
        arith,
        z,
        ap (λ m. count (λ (l : WindowEvent). l.rule_event_id == m) links)
            ((==_iff rule_event_id n).0 e),
      ))
  | inr e ↦ rw e k
]

advance_window-is_open :
    (n threshold now : ℕ) (v : Row StageWindow)
    → is_open_of n (advance_window threshold now v) ≡ is_open_of n v
unfolding advance_window is_open_of
advance_window-is_open n threshold now v = refl

kept_old :
    (threshold now : ℕ) (v : Row StageWindow) (n : ℕ)
    → v.id < n
    → (advance_window threshold now v).id < n
unfolding advance_window
kept_old threshold now v n h = h

exists-count :
    (n : ℕ) (links : List WindowEvent)
    → has_link n links ≡ false
    → count (λ (l : WindowEvent). l.rule_event_id == n) links ≡ 0
unfolding exists count
exists-count n [] h = refl
exists-count n (l ∷ links) h = ground (arith, exists-count n links)

advance_stage-Inv :
    (r : DeliveryRule) (now rule_event_id : ℕ) (window : Row StageWindow) (db : Db)
    → Inv db
    → window.id < db.next_id
    → Inv (advance_stage r now rule_event_id window db).1
unfolding advance_stage
advance_stage-Inv r now rule_event_id window db inv l =
    elim (Bool-cases (has_link rule_event_id db.stage_window_events)) [
      | inl e ↦ rw e inv
      | inr e ↦ rw e (record {
        counted =
            All-update_to _ _ _ _
              (λ v t c. one_more r.trigger_count_threshold now rule_event_id window v _ t c)
              (λ v t c. no_more rule_event_id window v _ t c) db.stage_windows inv.counted;
        once = λ n.
            once_more n rule_event_id window.id _ (inv.once n)
              (exists-count rule_event_id db.stage_window_events e);
        one_open = λ n. omega (
          arith,
          inv.one_open n,
          count-update_same (is_open_of n) (λ v. v.id == window.id)
              (advance_window r.trigger_count_threshold now) db.stage_windows
              (λ v t. advance_window-is_open n r.trigger_count_threshold now v),
        );
        old_windows =
            All-update _ _ _ db.stage_windows
              (λ v t c. kept_old r.trigger_count_threshold now v _ c) inv.old_windows;
        old_links = (l, inv.old_links);
      })
    ]

db_after : Db → Result DeliveryError ((Row StageWindow × Bool) × Db) → Db
db_after db (ok (window, db')) = db'
db_after db (err e) = db

-- The trigger of a rule event keeps the invariant of the windows: every window counts the rule events
-- that are in it, a rule event is in one window at most, however often it is recorded, and a rule has
-- one open window at most.
pub record_market_stage_trigger-Inv :
    (rule_event_id now : ℕ) (db : Db) {window : Row StageWindow} {due : Bool} {db' : Db}
    → Inv db
    → record_market_stage_trigger rule_event_id now db ≡ ok ((window, due), db')
    → Inv db'
unfolding record_market_stage_trigger current_market_stage_window db_after
record_market_stage_trigger-Inv rule_event_id now db {window} {due} {db'} inv h =
    elim (Option-cases (stage_configuration db rule_event_id)) [
      | inl e ↦ absurd (cc)
      | inr (r, e) ↦
          (let c = window_or_new-Inv r now db (find (is_open_of r.id) db.stage_windows) inv refl in
            let current = current_market_stage_window r now db in
            let g : ok (advance_stage r now rule_event_id current.0 current.1)
                ≡ ok ((window, due), db') =
              sym (rw (e, record_market_stage_trigger) refl) ∙ h in
            subst Inv {x = (advance_stage r now rule_event_id current.0 current.1).1} {y = db'}
              (ap (λ outcome. db_after db outcome) g)
              (advance_stage-Inv r now rule_event_id current.0 current.1 c.0 c.1))
    ]
