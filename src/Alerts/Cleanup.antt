-- ===== src/Alerts/Cleanup.antt =====
-- internal/store/aggregation_history.go: the removal of what is older than thirty days.
use de_box_asset_alert.Prelude.{
  ℕ, ◌+◌, ◌*◌, Bool, true, false, not, ◌&&◌, ◌≡◌, refl, inl, inr, sym, ap, subst, List, [], ◌∷◌,
  All, count, exists, select, ◌==◌, ==_iff, ltb, arith, Bool-cases,
}
use de_box_asset_alert.Prelude.Queries.{All-mono, All-both, select-All}
use de_box_asset_alert.Alerts.Windows.{second}
use de_box_asset_alert.Alerts.Tables.{
  AlertWindow, WindowMember, TriggerEvent, AggregateNotification, AlertDb,
}

-- AggregationHistoryRetentionDays, in nanoseconds.
unfoldable pub retention : ℕ
retention = 30 * 86400 * second

-- Before NOW() - 30 days.
unfoldable pub is_expired : ℕ → ℕ → Bool
unfolding retention
is_expired now at = ltb (at + retention) now

pub record CleanupResult : Type 0 where
  pub notifications_deleted : ℕ
  pub events_deleted : ℕ
  pub windows_deleted : ℕ

unfoldable pub is_old_notification : ℕ → List TriggerEvent → AggregateNotification → Bool
unfolding exists is_expired
is_old_notification now events n =
    is_expired now n.created_at
    && not (
        exists
          (λ (e : TriggerEvent). (e.window_id == n.window_id) && not (is_expired now e.created_at))
          events)

unfoldable pub is_old_window :
    ℕ → List TriggerEvent → List AggregateNotification → AlertWindow → Bool
unfolding exists is_expired
is_old_window now events notifications w =
    is_expired now w.ends_at
    && (not (exists (λ (e : TriggerEvent). e.window_id == w.id) events)
        && not (exists (λ (n : AggregateNotification). n.window_id == w.id) notifications))

-- DELETE ... WHERE
abbrev pub remove : {A : Type 0} → (A → Bool) → List A → List A
unfolding select
remove test xs = select (λ x. not (test x)) xs

-- ON DELETE CASCADE: the members go with their window.
unfoldable pub cleanup_aggregation_history : ℕ → AlertDb → CleanupResult × AlertDb
unfolding is_old_notification is_old_window is_expired count remove select exists
cleanup_aggregation_history now db =
    let notifications = remove (is_old_notification now db.trigger_events) db.notifications in
    let events = remove (λ (e : TriggerEvent). is_expired now e.created_at) db.trigger_events in
    let is_gone = is_old_window now events notifications in
    (
      record {
        notifications_deleted = count (is_old_notification now db.trigger_events) db.notifications;
        events_deleted =
            count (λ (e : TriggerEvent). is_expired now e.created_at) db.trigger_events;
        windows_deleted = count is_gone db.windows;
      },
      record db {
        notifications = notifications;
        trigger_events = events;
        windows = remove is_gone db.windows;
        window_members =
            remove
              (λ (m : WindowMember).
                exists (λ (w : AlertWindow). (w.id == m.window_id) && is_gone w) db.windows)
              db.window_members;
      },
    )

abbrev pub has_window : List AlertWindow → ℕ → Bool
has_window windows id = exists (λ (w : AlertWindow). w.id == id) windows

-- Of every event and of every notification the window is there.
pub record HasWindows (db : AlertDb) : Type 0 where
  pub events :
      All (λ (e : TriggerEvent). has_window db.windows e.window_id ≡ true) db.trigger_events
  pub notifications :
      All (λ (n : AggregateNotification). has_window db.windows n.window_id ≡ true) db.notifications

All-select-of :
    {A : Type 0} (P : A → Type 0) (test : A → Bool) (xs : List A)
    → All P xs
    → All P (select test xs)
unfolding select
All-select-of P test [] h = tt
All-select-of P test (x ∷ xs) (p, h) = elim (Bool-cases (test x)) [
  | inl e ↦ rw e (p, All-select-of P test xs h)
  | inr e ↦ rw e (All-select-of P test xs h)
]

select_twice :
    {A : Type 0} (test : A → Bool) (xs : List A) → select test (select test xs) ≡ select test xs
unfolding select
select_twice test [] = refl
select_twice test (x ∷ xs) = elim (Bool-cases (test x)) [
  | inl e ↦ rw (e, e) (ap (λ ys. x ∷ ys) (select_twice test xs))
  | inr e ↦ rw e (select_twice test xs)
]

-- A window that is referred to stays.
kept_window :
    (gone : AlertWindow → Bool) (windows : List AlertWindow) (id : ℕ)
    → ((w : AlertWindow) → (w.id == id) ≡ true → gone w ≡ false)
    → has_window windows id ≡ true
    → has_window (remove gone windows) id ≡ true
unfolding exists select remove
kept_window gone [] id f h = h
kept_window gone (w ∷ windows) id f h = elim (Bool-cases (w.id == id)) [
  | inl m ↦ rw (f w m, m) refl
  | inr m ↦
      let rest : has_window windows id ≡ true = ground (arith, m, h) in
      elim (Bool-cases (gone w)) [
        | inl e ↦ rw e (kept_window gone windows id f rest)
        | inr e ↦ rw (e, m) (kept_window gone windows id f rest)
      ]
]

-- Every row is among the rows with its key.
All-among :
    {A : Type 0} (key : A → ℕ) (xs : List A) → All (λ x. exists (λ y. key y == key x) xs ≡ true) xs
unfolding exists
All-among key [] = tt
All-among key (x ∷ xs) =
    let first : (key x == key x) ≡ true = ground arith in
    (
      rw first refl,
      All-mono _ _ xs
          (λ y h. elim (Bool-cases (key x == key y)) [ inl e ↦ rw e refl | inr e ↦ rw e h ])
          (All-among key xs),
    )

event_window-kept :
    (now : ℕ) (events : List TriggerEvent) (notifications : List AggregateNotification)
    (w : AlertWindow)
    → exists (λ (e : TriggerEvent). e.window_id == w.id) events ≡ true
    → is_old_window now events notifications w ≡ false
unfolding is_old_window
event_window-kept now events notifications w h = ground (arith, h)

notification_window-kept :
    (now : ℕ) (events : List TriggerEvent) (notifications : List AggregateNotification)
    (w : AlertWindow)
    → exists (λ (n : AggregateNotification). n.window_id == w.id) notifications ≡ true
    → is_old_window now events notifications w ≡ false
unfolding is_old_window
notification_window-kept now events notifications w h = ground (arith, h)

-- The cleanup leaves no event and no notification without its window, keeps every event of the last
-- thirty days, and no older one.
pub cleanup-HasWindows :
    (now : ℕ) (db : AlertDb)
    → HasWindows db
    → HasWindows (cleanup_aggregation_history now db).1
      × (select
            (λ (e : TriggerEvent). not (is_expired now e.created_at))
            (cleanup_aggregation_history now db).1.trigger_events
          ≡ select (λ (e : TriggerEvent). not (is_expired now e.created_at)) db.trigger_events)
      × All
          (λ (e : TriggerEvent). not (is_expired now e.created_at) ≡ true)
          (cleanup_aggregation_history now db).1.trigger_events
unfolding cleanup_aggregation_history remove
cleanup-HasWindows now db windows =
    let notifications =
      select (λ n. not (is_old_notification now db.trigger_events n)) db.notifications in
    let events =
      select (λ (e : TriggerEvent). not (is_expired now e.created_at)) db.trigger_events in
    let gone = is_old_window now events notifications in
    (
      record {
        events =
            All-mono _ _ events
              (λ e (among, there).
                kept_window gone db.windows e.window_id
                  (λ w m. event_window-kept now events notifications w (
                    subst (λ n. exists (λ (x : TriggerEvent). x.window_id == n) events ≡ true)
                      (sym ((==_iff w.id e.window_id).0 m)) among))
                  there)
              (All-both _ _ events (All-among (λ (e : TriggerEvent). e.window_id) events)
                (All-select-of _ _ db.trigger_events windows.events));
        notifications =
            All-mono _ _ notifications
              (λ n (among, there).
                kept_window gone db.windows n.window_id
                  (λ w m. notification_window-kept now events notifications w (
                    subst
                      (λ k.
                        exists (λ (x : AggregateNotification). x.window_id == k) notifications
                        ≡ true)
                      (sym ((==_iff w.id n.window_id).0 m)) among))
                  there)
              (All-both _ _ notifications
                (All-among (λ (n : AggregateNotification). n.window_id) notifications)
                (All-select-of _ _ db.notifications windows.notifications));
      },
      select_twice _ db.trigger_events,
      select-All _ db.trigger_events,
    )
