-- ===== src/Store/Subscriptions/Activation.antt =====
-- What `activateSubscription` grants, and when it refuses.
use de_box_asset_alert.Prelude.{
  ℕ, ◌+◌, ◌*◌, ◌≤◌, String, ◌≡◌, refl, sym, ◌∙◌, ◌≢◌, ◌⊎◌, ◌↔◌, Bool, true, false, Option, none,
  some, List, err, ok, select, eq_iff, arith,
}
use de_box_asset_alert.Prelude.Queries.{first_by-All, select-All, select-update}
use de_box_asset_alert.Store.Tables.{
  Db, Subscription, live, active_subscription_conflict, StoreError,
}
use de_box_asset_alert.Store.Pause.{pause_expired_user_resources}
use de_box_asset_alert.Store.Subscriptions.{
  seconds_per_day, is_timed, timed_subscription, is_lapsed, expire, after_expiry,
  expire_subscriptions, switch_subscription, activate_subscription, pause_stale_resources, extend,
}

timed-is_timed :
    (user : String) (now : ℕ) (subs : List Subscription) {s : Subscription}
    → timed_subscription user now subs ≡ some s
    → is_timed user now s ≡ true
unfolding timed_subscription
timed-is_timed user now subs h =
    first_by-All (λ s. is_timed user now s ≡ true) _ (select (is_timed user now) subs)
      (select-All (is_timed user now) subs) h

-- The expiry takes no subscription whose time is still running.
timed-after_expiry :
    (user : String) (now : ℕ) (db : Db)
    → timed_subscription user now (after_expiry user now db).subscriptions
      ≡ timed_subscription user now db.subscriptions
unfolding timed_subscription after_expiry expire
timed-after_expiry user now db = rw (
    select-update (is_timed user now) (is_lapsed user now) expire db.subscriptions
      (λ s h. ground arith) (λ s. ground arith))

-- The subscription that a grant of so many days results in.
pub record IsGranted (user plan : String) (days now : ℕ) (before : Option Subscription)
    (s : Subscription) : Type 0 where
  pub owner : s.debox_user_id ≡ user
  pub plan_lem : s.plan_code ≡ plan
  pub running : s.status ≡ live
  pub timed : s.is_permanent ≡ false
  pub term : now + days * seconds_per_day ≤ s.expires_at
  pub renewal : (b : Subscription) → before ≡ some b → b.plan_code ≡ plan → s ≡ extend days b

-- An activation is the switch from the user's running subscription, once the others have expired.
activate_subscription_lem :
    (user plan : String) (days : ℕ) (allow : Bool) (now : ℕ) (db : Db)
    → let before = timed_subscription user now db.subscriptions in
      activate_subscription user plan days allow now db
      ≡ switch_subscription user plan days allow now before
          (pause_stale_resources user now before (after_expiry user now db))
unfolding activate_subscription expire_subscriptions
activate_subscription_lem user plan days allow now db = rw (timed-after_expiry user now db)

switch-IsGranted :
    (user plan : String) (days now : ℕ) (before : Option Subscription) (db : Db)
    → ((b : Subscription) → before ≡ some b → is_timed user now b ≡ true)
    → {s : Subscription} {db' : Db}
    → switch_subscription user plan days true now before db ≡ ok (s, db')
    → IsGranted user plan days now before s
unfolding switch_subscription
switch-IsGranted user plan days now none db t {s} h = record {
  owner = ground arith;
  plan_lem = ground arith;
  running = ground arith;
  timed = ground arith;
  term = ground arith;
  renewal = λ b e. absurd (cc);
}
switch-IsGranted user plan days now (some b) db t {s} h = record {
  owner = ground (arith, eq_iff b.debox_user_id user, t b refl);
  plan_lem = ground (arith, eq_iff b.plan_code plan, t b refl);
  running = ground (arith, t b refl);
  timed = ground (arith, t b refl);
  term = ground (arith, t b refl);
  renewal = λ c e same. ground (arith, eq_iff b.plan_code plan, t b refl);
}

-- The subscription that an activation with renewal allowed returns is the user's, of that plan, running and not permanent, and lasts for
-- at least the paid days from now; a renewal adds the days to what was left.
pub activate_subscription-IsGranted :
    (user plan : String) (days now : ℕ) (db : Db) {s : Subscription} {db' : Db}
    → activate_subscription user plan days true now db ≡ ok (s, db')
    → IsGranted user plan days now (timed_subscription user now db.subscriptions) s
activate_subscription-IsGranted user plan days now db h =
    switch-IsGranted user plan days now (timed_subscription user now db.subscriptions) _
      (λ b e. timed-is_timed user now db.subscriptions e)
      (sym (activate_subscription_lem user plan days true now db) ∙ h)

-- The running plan forbids the change: it is another one, and not the free one.
abbrev pub IsConflict : String → Option Subscription → Type 0
IsConflict plan none = ⊥
IsConflict plan (some b) = (b.plan_code ≢ plan) × ((b.plan_code ≢ "free") ⊎ (plan ≡ "free"))

switch-IsConflict :
    (user plan : String) (days now : ℕ) (before : Option Subscription) (db : Db)
    → ((e : StoreError) × (switch_subscription user plan days true now before db ≡ err e))
      ↔ IsConflict plan before
unfolding switch_subscription
switch-IsConflict user plan days now none db = (λ (e, h). cc, λ h. absurd h)
switch-IsConflict user plan days now (some b) db = (
  λ (e, h). ground (arith, eq_iff b.plan_code plan, eq_iff b.plan_code "free", eq_iff plan "free"),
  λ h. (
    active_subscription_conflict,
    ground (arith, eq_iff b.plan_code plan, eq_iff b.plan_code "free", eq_iff plan "free"),
  ),
)

-- An activation with renewal allowed fails exactly when a timed subscription to another plan is
-- running and is not free, or is to become free.
pub activate_subscription-IsConflict :
    (user plan : String) (days now : ℕ) (db : Db)
    → ((e : StoreError) × (activate_subscription user plan days true now db ≡ err e))
      ↔ IsConflict plan (timed_subscription user now db.subscriptions)
activate_subscription-IsConflict user plan days now db =
    rw (activate_subscription_lem user plan days true now db)
      (switch-IsConflict user plan days now (timed_subscription user now db.subscriptions) _)

-- The orders are none of an activation's business.
record KeepsOrders (db db' : Db) : Type 0 where
  pub orders_lem : db'.orders ≡ db.orders
  pub next_id_lem : db.next_id ≤ db'.next_id

switch-KeepsOrders :
    (user plan : String) (days : ℕ) (allow : Bool) (now : ℕ) (before : Option Subscription)
    (db : Db) {s : Subscription} {db' : Db}
    → switch_subscription user plan days allow now before db ≡ ok (s, db')
    → KeepsOrders db db'
unfolding switch_subscription
switch-KeepsOrders user plan days allow now none db h = ground arith
switch-KeepsOrders user plan days allow now (some b) db h = ground arith

pause-KeepsOrders :
    (user : String) (now : ℕ) (before : Option Subscription) (db : Db)
    → KeepsOrders db (pause_stale_resources user now before (after_expiry user now db))
unfolding pause_stale_resources pause_expired_user_resources after_expiry
pause-KeepsOrders user now none db = ground arith
pause-KeepsOrders user now (some b) db = ground arith

pub activate_subscription-KeepsOrders :
    (user plan : String) (days : ℕ) (allow : Bool) (now : ℕ) (db : Db) {s : Subscription} {db' : Db}
    → activate_subscription user plan days allow now db ≡ ok (s, db')
    → (db'.orders ≡ db.orders) × (db.next_id ≤ db'.next_id)
activate_subscription-KeepsOrders user plan days allow now db {s} {db'} h =
    let before = timed_subscription user now db.subscriptions in
    let paused = pause-KeepsOrders user now before db in
    let switched =
      switch-KeepsOrders user plan days allow now before _
        (sym (activate_subscription_lem user plan days allow now db) ∙ h) in
    (switched.orders_lem ∙ paused.orders_lem, omega arith)
