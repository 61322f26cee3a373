-- ===== src/Alerts/Combination/Current.antt =====
-- internal/store/combinations.go: currentCombinationWindow, the window that a trigger falls in.
use de_box_asset_alert.Prelude.{
  ℕ, ◌+◌, ◌<◌, ◌++◌, ◌∙◌, ltb, All, List, [], ◌∷◌, inl, inr, ◌≡◌, refl, sym, ap, Option, none, some,
  map, count, find, select, ◌==◌, leb, arith, Bool-cases,
}
use de_box_asset_alert.Prelude.Queries.{find-All, All-mono, All-append}
use de_box_asset_alert.Prelude.Updates.{find-none, find-both_none, find-both_some}
use de_box_asset_alert.Alerts.Tables.{
  of_combination, AlertWindow, AlertCombination, AlertMember, AlertDb, WindowMember,
}
use de_box_asset_alert.Alerts.Windows.{stage_window_bounds-IsCycle}
use de_box_asset_alert.Alerts.Stage.{is_open_window, insert_alert_window, close_one, anchor_or}
use de_box_asset_alert.Alerts.Combination.{
  is_member_of, is_row_of, combination_window_bounds, snapshot, insert_combination_window,
  combination_window_or_new,
}
use de_box_asset_alert.Alerts.Combination.Members.{
  has_members-snapshot, snapshot-All, events_by-fresh,
}
use de_box_asset_alert.Alerts.Invariant.{
  Known, Inv, events_by, insert_alert_window-Inv, close_one-Inv,
}
use de_box_asset_alert.Alerts.Running.{
  IsCurrent, running_window, id_or, new-IsCurrent, open-IsCurrent, over-none,
}

-- The rows of a rule in a window.
abbrev pub rows_of : ℕ → ℕ → List WindowMember → ℕ
rows_of window_id rule_id ms = count (is_row_of window_id rule_id) ms

-- Those of the window that was running; a new one has the members of the combination.
abbrev pub rows_due : AlertCombination → ℕ → AlertDb → Option AlertWindow → ℕ
rows_due c rule_id before none = count (is_member_of c.id rule_id) before.combination_members
rows_due c rule_id before (some w) = rows_of w.id rule_id before.window_members

snapshot-rows :
    (window_id now combination_id rule_id : ℕ) (members : List AlertMember) (ms : List WindowMember)
    → rows_of window_id rule_id (
        map
          (snapshot window_id now)
          (select (λ (m : AlertMember). m.combination_rule_id == combination_id) members)
        ++ ms)
      ≡ count (is_member_of combination_id rule_id) members + rows_of window_id rule_id ms
unfolding count select snapshot is_row_of is_member_of
snapshot-rows window_id now combination_id rule_id [] ms = omega arith
snapshot-rows window_id now combination_id rule_id (m ∷ members) ms =
    let rest = snapshot-rows window_id now combination_id rule_id members ms in
    elim (Bool-cases (m.combination_rule_id == combination_id)) [
      | inl e ↦ rw e (ground (arith, rest))
      | inr e ↦ rw e (ground (arith, rest))
    ]

rows_of-fresh :
    (n rule_id : ℕ) (ms : List WindowMember)
    → All (λ (m : WindowMember). m.window_id < n) ms
    → rows_of n rule_id ms ≡ 0
unfolding count is_row_of
rows_of-fresh n rule_id [] h = refl
rows_of-fresh n rule_id (m ∷ ms) (k, h) = ground (arith, rows_of-fresh n rule_id ms h)

-- The window that a trigger of a member of the combination falls in.
pub record IsCombinationWindow (c : AlertCombination) (now : ℕ) (before : AlertDb) (w : AlertWindow)
    (db : AlertDb) : Type 0 where
  pub inv : Inv db
  pub known : Known db w
  pub runs : now < w.ends_at
  pub events : db.trigger_events ≡ before.trigger_events
  pub notices : db.notifications ≡ before.notifications
  pub rules : db.watch_rules ≡ before.watch_rules
  pub current : IsCurrent (of_combination c.id) now before w db
  pub rows :
      (id : ℕ)
      → rows_of w.id id db.window_members
        ≡ rows_due c id before (running_window (of_combination c.id) now before)

new-IsCombinationWindow :
    (c : AlertCombination) (now : ℕ) (db : AlertDb)
    → Inv db
    → 0 < c.cycle_minutes
    → count (is_open_window (of_combination c.id)) db.windows ≡ 0
    → IsCombinationWindow c now db
        (insert_combination_window c now db).0
        (insert_combination_window c now db).1
unfolding insert_combination_window insert_alert_window combination_window_bounds snapshot
new-IsCombinationWindow c now db inv positive none_open =
    let bounds = combination_window_bounds c now in
    let (after, first) =
      insert_alert_window-Inv c.debox_user_id (of_combination c.id) bounds now db inv none_open in
    let cycle =
      stage_window_bounds-IsCycle c.cycle_type c.cycle_minutes
        (anchor_or c.aggregation_anchor_at c.created_at) now positive in
    let current =
      new-IsCurrent c.debox_user_id (of_combination c.id) bounds now db cycle.runs none_open in
    let sel = select (λ (m : AlertMember). m.combination_rule_id == c.id) db.combination_members in
    let no_events : (r : ℕ) → events_by db.next_id r db.trigger_events ≡ 0 =
      λ r. events_by-fresh db.next_id r db.trigger_events inv.old_events in
    let known : Known (insert_combination_window c now db).1
        (insert_combination_window c now db).0 =
      record {
        counted = first.counted;
        claimed = first.claimed;
        separate = refl;
        is_old = first.is_old;
      } in
    record {
      inv = record {
        windows = (
          known,
          All-mono _ _ db.windows
              (λ v k. record {
                counted = k.counted;
                claimed = k.claimed;
                separate = ground (
                  arith,
                  k.separate,
                  has_members-snapshot db.next_id now v.id sel db.window_members k.is_old,
                );
                is_old = omega (arith, k.is_old);
              })
              inv.windows,
        );
        one_open = after.one_open;
        members =
            All-append _ (map (snapshot db.next_id now) sel) db.window_members
              (snapshot-All _ db.next_id now sel (λ m. sym (no_events m.watch_rule_id)))
              inv.members;
        old_members =
            All-append _ (map (snapshot db.next_id now) sel) db.window_members
              (snapshot-All _ db.next_id now sel (λ m. omega arith)) after.old_members;
        old_events = after.old_events;
        old_notices = after.old_notices;
      };
      known = known;
      runs = cycle.runs;
      events = refl;
      notices = refl;
      rules = refl;
      current = record { found = current.found; there = current.there };
      rows = λ id.
          (rw
            (find-both_none (is_open_window (of_combination c.id)) (λ w. ltb now w.ends_at)
              db.windows none_open)
            (omega (
              arith,
              snapshot-rows db.next_id now c.id id db.combination_members db.window_members,
              rows_of-fresh db.next_id id db.window_members inv.old_members,
            )));
    }

pub combination_window_or_new-IsWindow :
    (c : AlertCombination) (now : ℕ) (db : AlertDb) (found : Option AlertWindow)
    → Inv db
    → 0 < c.cycle_minutes
    → find (is_open_window (of_combination c.id)) db.windows ≡ found
    → IsCombinationWindow c now db
        (combination_window_or_new c now db found).0
        (combination_window_or_new c now db found).1
unfolding combination_window_or_new close_one insert_combination_window insert_alert_window
combination_window_or_new-IsWindow c now db none inv positive e =
    new-IsCombinationWindow c now db inv positive (find-none _ db.windows e)
combination_window_or_new-IsWindow c now db (some w) inv positive e =
    elim (Bool-cases (leb w.ends_at now)) [
      | inl over ↦
          let (closed, none_open) = close_one-Inv (of_combination c.id) now w db inv e in
          let none_running =
            over-none (of_combination c.id) now db w e over (inv.one_open (of_combination c.id)) in
          let closed_none : running_window (of_combination c.id) now (close_one now w db) ≡ none =
            find-both_none (is_open_window (of_combination c.id)) (λ v. ltb now v.ends_at) _
              none_open in
          let new = new-IsCombinationWindow c now (close_one now w db) closed positive none_open in
          rw over (record {
            inv = new.inv;
            known = new.known;
            runs = new.runs;
            events = new.events;
            notices = new.notices;
            rules = new.rules;
            current = record {
              found = ap (id_or db.next_id) (sym none_running);
              there = new.current.there;
            };
            rows = λ id.
                (new.rows id
                  ∙ ap (rows_due c id (close_one now w db)) (closed_none)
                  ∙ ap (rows_due c id db) (sym none_running));
          })
      | inr runs ↦ rw runs (record {
        inv = inv;
        known = find-All (Known db) _ db.windows inv.windows e;
        runs = ground arith;
        events = refl;
        notices = refl;
        rules = refl;
        current = open-IsCurrent (of_combination c.id) now db w e runs;
        rows = λ id. ap (rows_due c id db) (
            sym (
              find-both_some (is_open_window (of_combination c.id)) (λ v. ltb now v.ends_at)
                db.windows e (ground (arith, runs))));
      })
    ]
