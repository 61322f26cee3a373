-- ===== src/Alerts/Triggers.antt =====
-- internal/store/aggregations.go and combinations.go: what a trigger, a claim and a notification do to
-- the counts of the windows.
use de_box_asset_alert.Prelude.{
  ℕ, suc, ◌<◌, Bool, false, inl, inr, ◌≡◌, refl, ap, List, [], ◌∷◌, All, count, exists, ◌==◌, arith,
  ok, Bool-cases,
}
use de_box_asset_alert.Prelude.Queries.{All-mono, All-both, exists_none, count-update_same}
use de_box_asset_alert.Prelude.Updates.{All-update_to}
use de_box_asset_alert.Alerts.Tables.{
  Source, AlertWindow, WindowMember, TriggerEvent, AggregateNotification, AlertDb,
}
use de_box_asset_alert.Alerts.Stage.{
  is_open_window, count_trigger, claim, update_window, insert_notification,
}
use de_box_asset_alert.Alerts.Invariant.{Known, Inv, events_by, notices_of, has_members}

-- The tables after one more trigger event in a window.
abbrev pub with_event : TriggerEvent → ℕ → AlertDb → AlertDb
with_event e now db =
    update_window e.window_id (count_trigger now)
      (record db { trigger_events = e ∷ db.trigger_events; next_id = suc db.next_id })

count_trigger-open :
    (s : Source) (now : ℕ) (w : AlertWindow)
    → is_open_window s (count_trigger now w) ≡ is_open_window s w
unfolding is_open_window count_trigger
count_trigger-open s now w = refl

claim-open :
    (s : Source) (now : ℕ) (w : AlertWindow) → is_open_window s (claim now w) ≡ is_open_window s w
unfolding is_open_window claim
claim-open s now w = refl

exists_of_count {ℓ} :
    {A : Type ℓ} (test : A → Bool) (xs : List A) → count test xs ≡ 0 → exists test xs ≡ false
unfolding count exists
exists_of_count test [] h = refl
exists_of_count test (x ∷ xs) h = elim (Bool-cases (test x)) [
  | inl e ↦ absurd (ground arith)
  | inr e ↦ rw e (exists_of_count test xs (ground arith))
]

-- The members whose counts fit the triggers, in the same windows.
pub record Fits (e : TriggerEvent) (db : AlertDb) (ms : List WindowMember) : Type 0 where
  pub counted :
      All
        (λ (m : WindowMember).
          m.trigger_count ≡ events_by m.window_id m.watch_rule_id (e ∷ db.trigger_events))
        ms
  pub is_old : All (λ (m : WindowMember). m.window_id < db.next_id) ms
  pub same : (n : ℕ) → has_members n ms ≡ has_members n db.window_members

-- Every count is right after a trigger, with such members.
pub with_event-Inv :
    (e : TriggerEvent) (now : ℕ) (db : AlertDb) (ms : List WindowMember)
    → Inv db
    → e.window_id < db.next_id
    → Fits e db ms
    → Inv (record (with_event e now db) { window_members = ms })
unfolding update_window count_trigger count
with_event-Inv e now db ms inv b fits =
    let after : AlertDb = record (with_event e now db) { window_members = ms } in
    record {
      windows =
          All-update_to (Known db) (Known after) (λ v. v.id == e.window_id) (count_trigger now)
            (λ v t k. record {
              counted = ground (arith, k.counted);
              claimed = k.claimed;
              separate = ground (arith, k.separate, fits.same v.id);
              is_old = omega (arith, k.is_old);
            })
            (λ v t k. record {
              counted = ground (arith, k.counted);
              claimed = k.claimed;
              separate = ground (arith, k.separate, fits.same v.id);
              is_old = omega (arith, k.is_old);
            })
            db.windows inv.windows;
      one_open = λ s. omega (
        arith,
        inv.one_open s,
        count-update_same (is_open_window s) (λ v. v.id == e.window_id) (count_trigger now)
            db.windows (λ w t. count_trigger-open s now w),
      );
      members = fits.counted;
      old_members = All-mono _ _ ms (λ m h. omega (arith, h)) fits.is_old;
      old_events = (
        omega (arith, b),
        All-mono _ _ db.trigger_events (λ e h. omega (arith, h)) inv.old_events,
      );
      old_notices = All-mono _ _ db.notifications (λ n h. omega (arith, h)) inv.old_notices;
    }

untouched :
    (e : TriggerEvent) (m : WindowMember) (events : List TriggerEvent)
    → (m.window_id == e.window_id) ≡ false
    → m.trigger_count ≡ events_by m.window_id m.watch_rule_id events
    → m.trigger_count ≡ events_by m.window_id m.watch_rule_id (e ∷ events)
unfolding count
untouched e m events h k = ground (arith, k)

-- A trigger in a window without members changes none.
pub no_members-Fits :
    (e : TriggerEvent) (db : AlertDb)
    → Inv db
    → has_members e.window_id db.window_members ≡ false
    → Fits e db db.window_members
no_members-Fits e db inv h = record {
  counted =
      All-mono _ _ db.window_members (λ m (t, k). untouched e m db.trigger_events t k)
        (All-both _ _ db.window_members (exists_none _ db.window_members h) inv.members);
  is_old = inv.old_members;
  same = λ n. refl;
}

-- The tables after the claim of a window by a new notification.
unfoldable pub with_claim : ℕ → AggregateNotification → ℕ → AlertDb → AlertDb
unfolding update_window
with_claim window_id n now db =
    let claimed = update_window window_id (claim now) db in
    record claimed { notifications = n ∷ claimed.notifications; next_id = suc claimed.next_id }

pub with_claim-Inv :
    (window_id : ℕ) (n : AggregateNotification) (now : ℕ) (db : AlertDb)
    → Inv db
    → n.window_id ≡ window_id
    → window_id < db.next_id
    → notices_of window_id db.notifications ≡ 0
    → Inv (with_claim window_id n now db)
unfolding with_claim update_window claim count
with_claim-Inv window_id n now db inv same b none_yet = record {
  windows =
      All-update_to (Known db) (Known (with_claim window_id n now db)) (λ v. v.id == window_id)
        (claim now)
        (λ v t k. record {
          counted = k.counted;
          claimed =
              (let e : v.id ≡ window_id = ground arith in
                ground (arith, ap (λ m. notices_of m db.notifications) e));
          separate = k.separate;
          is_old = omega (arith, k.is_old);
        })
        (λ v t k. record {
          counted = k.counted;
          claimed = ground (arith, k.claimed);
          separate = k.separate;
          is_old = omega (arith, k.is_old);
        })
        db.windows inv.windows;
  one_open = λ s. omega (
    arith,
    inv.one_open s,
    count-update_same (is_open_window s) (λ v. v.id == window_id) (claim now) db.windows
        (λ w t. claim-open s now w),
  );
  members = inv.members;
  old_members = All-mono _ _ db.window_members (λ m h. omega (arith, h)) inv.old_members;
  old_events = All-mono _ _ db.trigger_events (λ e h. omega (arith, h)) inv.old_events;
  old_notices = (
    omega (arith, same, b),
    All-mono _ _ db.notifications (λ m h. omega (arith, h)) inv.old_notices,
  );
}

-- The constraints on notifications do not refuse the first one of a window.
pub insert_notification-first :
    (n : AggregateNotification) (db : AlertDb)
    → notices_of n.window_id db.notifications ≡ 0
    → 0 < n.trigger_count_snapshot
    → insert_notification n db
      ≡ ok (n, record db { notifications = n ∷ db.notifications; next_id = suc db.next_id })
unfolding insert_notification
insert_notification-first n db none_yet positive =
    let free = exists_of_count _ db.notifications none_yet in
    let some_triggers : (n.trigger_count_snapshot == 0) ≡ false = ground arith in
    rw (free, some_triggers) refl
