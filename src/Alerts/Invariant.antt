-- ===== src/Alerts/Invariant.antt =====
-- What holds of the windows, their members, their triggers and their notifications.
use de_box_asset_alert.Prelude.{
  ℕ, ◌≤◌, ◌<◌, Bool, true, false, inl, inr, ◌≡◌, refl, sym, subst, ap, ==_iff, ◌&&◌, some, List, [],
  ◌∷◌, All, count, find, exists, String, ◌==◌, arith, Bool-cases,
}
use de_box_asset_alert.Prelude.Queries.{All-mono}
use de_box_asset_alert.Prelude.Single.{indicator}
use de_box_asset_alert.Prelude.Updates.{count-update_found, count-update_le, All-update_to}
use de_box_asset_alert.Alerts.Tables.{
  Source, of_rule, of_combination, AlertWindow, WindowMember, TriggerEvent, AggregateNotification,
  AlertDb,
}
use de_box_asset_alert.Alerts.Stage.{
  same_source, is_open_window, close_alert_window, close_one, insert_alert_window,
}

abbrev pub events_of : ℕ → List TriggerEvent → ℕ
events_of window_id events = count (λ (e : TriggerEvent). e.window_id == window_id) events

abbrev pub events_by : ℕ → ℕ → List TriggerEvent → ℕ
events_by window_id rule_id events =
    count (λ (e : TriggerEvent). (e.window_id == window_id) && (e.watch_rule_id == rule_id)) events

abbrev pub notices_of : ℕ → List AggregateNotification → ℕ
notices_of window_id ns = count (λ (n : AggregateNotification). n.window_id == window_id) ns

abbrev pub is_of_rule : Source → Bool
is_of_rule (of_rule n) = true
is_of_rule (of_combination n) = false

abbrev pub has_members : ℕ → List WindowMember → Bool
has_members window_id ms = exists (λ (m : WindowMember). m.window_id == window_id) ms

-- A window counts its triggers, it has been claimed by as many notifications as it has, and it has
-- members only if it is a combination's.
pub record Known (db : AlertDb) (w : AlertWindow) : Type 0 where
  pub counted : w.total_trigger_count ≡ events_of w.id db.trigger_events
  pub claimed : indicator w.notification_sent ≡ notices_of w.id db.notifications
  pub separate : is_of_rule w.source && has_members w.id db.window_members ≡ false
  pub is_old : w.id < db.next_id

-- Besides, a rule or a combination has one open window at most, and a member counts the triggers of its
-- rule in its window.
pub record Inv (db : AlertDb) : Type 0 where
  pub windows : All (Known db) db.windows
  pub one_open : (s : Source) → count (is_open_window s) db.windows ≤ 1
  pub members :
      All
        (λ (m : WindowMember).
          m.trigger_count ≡ events_by m.window_id m.watch_rule_id db.trigger_events)
        db.window_members
  pub old_members : All (λ (m : WindowMember). m.window_id < db.next_id) db.window_members
  pub old_events : All (λ (e : TriggerEvent). e.window_id < db.next_id) db.trigger_events
  pub old_notices : All (λ (n : AggregateNotification). n.window_id < db.next_id) db.notifications

-- What no row of a list refers to yet, it does not count.
pub count_fresh {ℓ} :
    {A : Type ℓ} (key : A → ℕ) (n : ℕ) (xs : List A)
    → All (λ x. key x < n) xs
    → count (λ x. key x == n) xs ≡ 0
unfolding count
count_fresh key n [] h = refl
count_fresh key n (x ∷ xs) (k, h) = ground (arith, count_fresh key n xs h)

pub exists_fresh {ℓ} :
    {A : Type ℓ} (key : A → ℕ) (n : ℕ) (xs : List A)
    → All (λ x. key x < n) xs
    → exists (λ x. key x == n) xs ≡ false
unfolding exists
exists_fresh key n [] h = refl
exists_fresh key n (x ∷ xs) (k, h) = ground (arith, exists_fresh key n xs h)

close-not_open :
    (s : Source) (now : ℕ) (w : AlertWindow) → is_open_window s (close_alert_window now w) ≡ false
unfolding is_open_window close_alert_window
close-not_open s now w = ground arith

pub same_source-eq : (s t : Source) → same_source s t ≡ true → s ≡ t
same_source-eq (of_rule m) (of_rule n) h = ap of_rule ((==_iff m n).0 h)
same_source-eq (of_combination m) (of_combination n) h = ap of_combination ((==_iff m n).0 h)
same_source-eq (of_rule m) (of_combination n) h = absurd (cc)
same_source-eq (of_combination m) (of_rule n) h = absurd (cc)

-- A new window, where its rule or combination has no open one.
pub insert_alert_window-Inv :
    (user : String) (s : Source) (bounds : ℕ × ℕ) (now : ℕ) (db : AlertDb)
    → Inv db
    → count (is_open_window s) db.windows ≡ 0
    → Inv (insert_alert_window user s bounds now db).1
      × Known
          (insert_alert_window user s bounds now db).1
          (insert_alert_window user s bounds now db).0
unfolding insert_alert_window count is_open_window
insert_alert_window-Inv user s bounds now db inv none_open =
    let no_events =
      count_fresh (λ (e : TriggerEvent). e.window_id) db.next_id db.trigger_events inv.old_events in
    let no_notices =
      count_fresh (λ (n : AggregateNotification). n.window_id) db.next_id db.notifications
        inv.old_notices in
    let no_members =
      exists_fresh (λ (m : WindowMember). m.window_id) db.next_id db.window_members
        inv.old_members in
    let first : Known (insert_alert_window user s bounds now db).1
        (insert_alert_window user s bounds now db).0 =
      record {
        counted = sym no_events;
        claimed = sym no_notices;
        separate = ground (arith, no_members);
        is_old = omega arith;
      } in
    (
      record {
        windows = (
          first,
          All-mono _ _ db.windows
              (λ w k. record {
                counted = k.counted;
                claimed = k.claimed;
                separate = k.separate;
                is_old = omega (arith, k.is_old);
              })
              inv.windows,
        );
        one_open = λ m. elim (Bool-cases (same_source s m)) [
          | inl e ↦
              let none_of : count (is_open_window m) db.windows ≡ 0 =
                subst (λ t. count (is_open_window t) db.windows ≡ 0) (same_source-eq s m e)
                  none_open in
              rw (e, is_open_window) (omega (arith, none_of))
          | inr e ↦ rw (e, is_open_window) (inv.one_open m)
        ];
        members = inv.members;
        old_members = All-mono _ _ db.window_members (λ m h. omega (arith, h)) inv.old_members;
        old_events = All-mono _ _ db.trigger_events (λ e h. omega (arith, h)) inv.old_events;
        old_notices = All-mono _ _ db.notifications (λ n h. omega (arith, h)) inv.old_notices;
      },
      first,
    )

pub close_one-Inv :
    (s : Source) (now : ℕ) (w : AlertWindow) (db : AlertDb)
    → Inv db
    → find (is_open_window s) db.windows ≡ some w
    → Inv (close_one now w db) × (count (is_open_window s) (close_one now w db).windows ≡ 0)
unfolding close_one close_alert_window
close_one-Inv s now w db inv e =
    let hit : AlertWindow → Bool = λ v. v.id == w.id in
    (
      record {
        windows =
            All-update_to (Known db) (Known (close_one now w db)) hit (close_alert_window now)
              (λ v t k. record {
                counted = k.counted;
                claimed = k.claimed;
                separate = k.separate;
                is_old = k.is_old;
              })
              (λ v t k. record {
                counted = k.counted;
                claimed = k.claimed;
                separate = k.separate;
                is_old = k.is_old;
              })
              db.windows inv.windows;
        one_open = λ m. omega (
          arith,
          inv.one_open m,
          count-update_le (is_open_window m) hit (close_alert_window now)
              (λ v t. close-not_open m now v) db.windows,
        );
        members = inv.members;
        old_members = inv.old_members;
        old_events = inv.old_events;
        old_notices = inv.old_notices;
      },
      count-update_found (is_open_window s) hit (close_alert_window now)
          (λ v t. close-not_open s now v) db.windows e (ground arith) (inv.one_open s),
    )
