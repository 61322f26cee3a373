-- ===== src/Store/Subscriptions/Effective.antt =====
-- The expiry of subscriptions and the plan that is in effect.
use de_box_asset_alert.Prelude.{
  ℕ, ◌≤◌, String, ◌≡◌, refl, subst, ◌⊎◌, inl, inr, true, false, ◌&&◌, List, [], ok, All, count,
  exists, select, update, first_by, str_eq, arith, Option-cases,
}
use text.Mathlib.TextPositions.{eq_refl}
use de_box_asset_alert.Prelude.Queries.{
  All-select, select_none, update_none, select_all, count-update, select-update, first_by-best,
  first_by-none, exists-select, exists_of_select_nil, first_by-exists,
}
use de_box_asset_alert.Store.Tables.{Db, Subscription, SummaryRow}
use de_box_asset_alert.Store.Subscriptions.{
  plan_rank, is_current, precedes, current_subscription, is_lapsed, expire, after_expiry,
  expire_subscriptions, effective_plan_code, plan_code_or_free, drop_rows,
}

expire-lapsed : (user : String) (now : ℕ) (s : Subscription) → is_lapsed user now (expire s) ≡ false
unfolding expire
expire-lapsed user now s = refl

expire-current :
    (who user : String) (now : ℕ) (s : Subscription) → is_current who now (expire s) ≡ false
unfolding expire
expire-current who user now s = ground arith

lapsed-not-current :
    (who user : String) (now : ℕ) (s : Subscription)
    → is_lapsed user now s ≡ true
    → is_current who now s ≡ false
lapsed-not-current who user now s h = ground arith

drop_rows_nil : (rows : List SummaryRow) → drop_rows [] rows ≡ rows
unfolding drop_rows exists
drop_rows_nil rows = select_all _ rows (λ row. refl)

expire_nothing :
    (user : String) (now : ℕ) (db : Db)
    → count (is_lapsed user now) db.subscriptions ≡ 0
    → expire_subscriptions user now db ≡ ok (0, db)
unfolding expire_subscriptions
expire_nothing user now db h =
    unfold after_expiry in
    simp (
      h,
      select_none (is_lapsed user now) db.subscriptions h,
      update_none (is_lapsed user now) expire db.subscriptions h,
      drop_rows_nil,
    )

count-after_expiry :
    (user : String) (now : ℕ) (db : Db)
    → count (is_lapsed user now) (after_expiry user now db).subscriptions ≡ 0
unfolding after_expiry
count-after_expiry user now db =
    count-update (is_lapsed user now) expire db.subscriptions (expire-lapsed user now)

-- The database after an expiry has no lapsed subscription of that user left, so that a second expiry
-- at the same time finds nothing to do.
pub expire_subscriptions_once :
    (user : String) (now : ℕ) (db : Db) {n : ℕ} {db' : Db}
    → expire_subscriptions user now db ≡ ok (n, db')
    → (count (is_lapsed user now) db'.subscriptions ≡ 0)
      × (expire_subscriptions user now db' ≡ ok (0, db'))
expire_subscriptions_once user now db {n} {db'} h =
    (none_left, expire_nothing user now db' none_left)
  where
    none_left : count (is_lapsed user now) db'.subscriptions ≡ 0
    none_left = unfold expire_subscriptions in cc (h, count-after_expiry user now db)

-- What `effective_plan_code` reads is what it would read before the expiry.
select-current :
    (who user : String) (now : ℕ) (subs : List Subscription)
    → select (is_current who now) (update (is_lapsed user now) expire subs)
      ≡ select (is_current who now) subs
select-current who user now subs =
    select-update (is_current who now) (is_lapsed user now) expire subs
      (lapsed-not-current who user now) (expire-current who user now)

precedes-rank :
    (a b : Subscription) → precedes a b ≡ true → plan_rank b.plan_code ≤ plan_rank a.plan_code
unfolding precedes
precedes-rank a b h = ground arith

not_precedes-rank :
    (a b : Subscription) → precedes a b ≡ false → plan_rank a.plan_code ≤ plan_rank b.plan_code
unfolding precedes
not_precedes-rank a b h = ground arith

-- The plan of the best current subscription of the user, or the free plan.
pub record IsEffective (user : String) (now : ℕ) (subs : List Subscription) (code : String)
    : Type 0 where
  pub best : All (λ s. is_current user now s ≡ true → plan_rank s.plan_code ≤ plan_rank code) subs
  pub held :
      (exists (λ s. is_current user now s && str_eq s.plan_code code) subs ≡ true)
      ⊎ ((exists (is_current user now) subs ≡ false) × (code ≡ "free"))

current-IsEffective :
    (user : String) (now : ℕ) (subs : List Subscription)
    → IsEffective user now subs (plan_code_or_free (current_subscription user now subs))
unfolding current_subscription
current-IsEffective user now subs =
    elim (Option-cases (first_by precedes (select (is_current user now) subs))) [
      | inl e ↦
          let nil = first_by-none precedes (select (is_current user now) subs) e in
          rw e (record {
            best = All-select _ (is_current user now) subs (rw nil tt);
            held = inr (exists_of_select_nil (is_current user now) subs nil, refl);
          })
      | inr (y, e) ↦ rw e (record {
        best = All-select _ (is_current user now) subs (
            first_by-best precedes (λ s. plan_rank s.plan_code) precedes-rank not_precedes-rank
              (select (is_current user now) subs) e);
        held = inl (
            rw (← exists-select (is_current user now) (λ s. str_eq s.plan_code y.plan_code) subs) (
              first_by-exists precedes (λ s. str_eq s.plan_code y.plan_code)
                (select (is_current user now) subs) e (eq_refl y.plan_code)));
      })
    ]

pub effective_plan_code_lem :
    (user : String) (now : ℕ) (db : Db)
    → effective_plan_code user now db
      ≡ ok (
        plan_code_or_free (current_subscription user now db.subscriptions),
        after_expiry user now db,
      )
unfolding effective_plan_code expire_subscriptions after_expiry current_subscription
effective_plan_code_lem user now db = rw (select-current user user now db.subscriptions)

-- The effective plan is the highest plan among the subscriptions that are current before the expiry
-- of the others, and one of the user's current subscriptions has it; without one it is the free plan.
-- Afterwards no lapsed subscription of the user is left.
pub effective_plan_code-IsEffective :
    (user : String) (now : ℕ) (db : Db) {code : String} {db' : Db}
    → effective_plan_code user now db ≡ ok (code, db')
    → IsEffective user now db.subscriptions code
      × (count (is_lapsed user now) db'.subscriptions ≡ 0)
effective_plan_code-IsEffective user now db {code} {db'} h = (
  subst (IsEffective user now db.subscriptions) (cc (h, effective_plan_code_lem user now db))
      (current-IsEffective user now db.subscriptions),
  cc (h, effective_plan_code_lem user now db, count-after_expiry user now db),
)
