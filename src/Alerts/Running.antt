-- ===== src/Alerts/Running.antt =====
-- internal/store/aggregations.go: which window a trigger falls in, told without the steps of the code.
use de_box_asset_alert.Prelude.{
  ℕ, ◌≤◌, ◌<◌, String, Bool, true, false, ◌≡◌, refl, sym, ap, ◌&&◌, Option, none, some, count, find,
  exists, ◌==◌, leb, ltb, arith,
}
use de_box_asset_alert.Prelude.Queries.{find-test}
use de_box_asset_alert.Prelude.Updates.{
  find-both_none, find-both_some, find-both_failed, find-exists, exists-update_same,
}
use de_box_asset_alert.Alerts.Tables.{Source, of_rule, of_combination, AlertWindow, AlertDb}
use de_box_asset_alert.Alerts.Stage.{
  same_source, is_open_window, insert_alert_window, count_trigger, claim, update_window,
}

-- An open window of the rule or of the combination, before its end.
abbrev pub is_running : Source → ℕ → AlertWindow → Bool
is_running s now w = is_open_window s w && ltb now w.ends_at

abbrev pub running_window : Source → ℕ → AlertDb → Option AlertWindow
running_window s now db = find (is_running s now) db.windows

abbrev pub id_or : ℕ → Option AlertWindow → ℕ
id_or id none = id
id_or id (some w) = w.id

-- The tables have such a running window.
abbrev pub has_running : Source → ℕ → ℕ → ℕ → AlertDb → Bool
has_running s now id ends_at db =
    exists (λ (v : AlertWindow). (v.id == id) && (is_running s now v && (v.ends_at == ends_at)))
      db.windows

-- The window is the one that was running before, or else a new one; and it is running.
pub record IsCurrent (s : Source) (now : ℕ) (before : AlertDb) (w : AlertWindow) (db : AlertDb)
    : Type 0 where
  pub found : w.id ≡ id_or before.next_id (running_window s now before)
  pub there : has_running s now w.id w.ends_at db ≡ true

same_source_refl : (s : Source) → same_source s s ≡ true
same_source_refl (of_rule n) = ground arith
same_source_refl (of_combination n) = ground arith

-- A new window, which does not end before it is opened.
pub new-IsCurrent :
    (user : String) (s : Source) (bounds : ℕ × ℕ) (now : ℕ) (db : AlertDb)
    → now < bounds.1
    → count (is_open_window s) db.windows ≡ 0
    → IsCurrent s now db
        (insert_alert_window user s bounds now db).0
        (insert_alert_window user s bounds now db).1
unfolding insert_alert_window exists is_open_window
new-IsCurrent user s bounds now db runs none_open = record {
  found =
      ap (id_or db.next_id)
        (sym (find-both_none (is_open_window s) (λ w. ltb now w.ends_at) db.windows none_open));
  there = ground (arith, same_source_refl s, runs);
}

-- The open window, before its end.
pub open-IsCurrent :
    (s : Source) (now : ℕ) (db : AlertDb) (w : AlertWindow)
    → find (is_open_window s) db.windows ≡ some w
    → leb w.ends_at now ≡ false
    → IsCurrent s now db w db
open-IsCurrent s now db w e runs =
    let t : is_open_window s w ≡ true = find-test _ db.windows e in
    let r : ltb now w.ends_at ≡ true = ground (arith, runs) in
    record {
      found =
          ap (id_or db.next_id)
            (sym (find-both_some (is_open_window s) (λ v. ltb now v.ends_at) db.windows e r));
      there =
          find-exists (is_open_window s)
            (λ v. (v.id == w.id) && (is_running s now v && (v.ends_at == w.ends_at))) db.windows e
            (ground (arith, t, r));
    }

-- If the open window is over, no window is running.
pub over-none :
    (s : Source) (now : ℕ) (db : AlertDb) (w : AlertWindow)
    → find (is_open_window s) db.windows ≡ some w
    → leb w.ends_at now ≡ true
    → count (is_open_window s) db.windows ≤ 1
    → running_window s now db ≡ none
over-none s now db w e over one =
    find-both_failed (is_open_window s) (λ v. ltb now v.ends_at) db.windows e (ground (arith, over))
      one

-- The count of a trigger and the claim of a notification leave the window running.
pub has_running-update :
    (s : Source) (now id ends_at n : ℕ) (t : ℕ) (db : AlertDb)
    → (has_running s now id ends_at (update_window n (count_trigger t) db)
        ≡ has_running s now id ends_at db)
      × (has_running s now id ends_at (update_window n (claim t) db)
          ≡ has_running s now id ends_at db)
unfolding update_window count_trigger claim is_open_window
has_running-update s now id ends_at n t db = (
  exists-update_same _ _ (count_trigger t) db.windows (λ v. refl),
  exists-update_same _ _ (claim t) db.windows (λ v. refl),
)
