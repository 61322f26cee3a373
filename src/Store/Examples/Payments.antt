-- ===== src/Store/Examples/Payments.antt =====
-- The theorems on subscriptions and orders, at the example database.
use de_box_asset_alert.Prelude.{
  ℕ, ◌≡◌, refl, ◌↔◌, true, some, List, [], ◌∷◌, ok, err, count, update, find, first_by, select,
  equal_fold, arith,
}
use de_box_asset_alert.Store.Tables.{Db, Subscription, StoreError}
use de_box_asset_alert.Store.Subscriptions.{
  is_lapsed, expire_subscriptions, after_expiry, effective_plan_code, timed_subscription,
  activate_subscription, extend,
}
use de_box_asset_alert.Store.Subscriptions.Effective.{IsEffective, effective_plan_code-IsEffective}
use de_box_asset_alert.Store.Subscriptions.Activation.{
  IsGranted, activate_subscription-IsGranted, IsConflict, activate_subscription-IsConflict,
}
use de_box_asset_alert.Store.Orders.{FinalizedOrder, settle, finalize_paid_order}
use de_box_asset_alert.Store.Orders.Finalize.{
  IsFinal, finalize_paid_order-IsFinal, finalize_paid_order_once,
}
use de_box_asset_alert.Store.Orders.Steps.{OrderCall, expires, claims, finalizes, apply, Evolves}
use de_box_asset_alert.Store.Orders.Steps.Effects.{apply-Evolves}
use de_box_asset_alert.Store.Orders.Steps.History.{Inv, apply-Inv, run, run-Inv}
use de_box_asset_alert.Store.Orders.Steps.Keeping.{Keeps, run-Keeps}
use de_box_asset_alert.Store.Examples.{shop, ann_standard, ann_order}

-- At second 9500 the plan has run out.
late_run : expire_subscriptions "ann" 9500 shop ≡ ok (1, after_expiry "ann" 9500 shop)
unfolding expire_subscriptions count
late_run = refl

now_run : effective_plan_code "ann" 1000 shop ≡ ok ("standard", after_expiry "ann" 1000 shop)
unfolding effective_plan_code expire_subscriptions first_by select after_expiry update
now_run = refl

effective_plan_code-IsEffective_example :
    IsEffective "ann" 1000 shop.subscriptions "standard"
    × (count (is_lapsed "ann" 1000) (after_expiry "ann" 1000 shop).subscriptions ≡ 0)
effective_plan_code-IsEffective_example = effective_plan_code-IsEffective "ann" 1000 shop now_run

-- Thirty more days.
abbrev renewed : Subscription
renewed = extend 30 ann_standard

abbrev renewed_shop : Db
renewed_shop = record shop { subscriptions = renewed ∷ [] }

renewal_run : activate_subscription "ann" "standard" 30 true 1000 shop ≡ ok (renewed, renewed_shop)
unfolding activate_subscription timed_subscription expire_subscriptions after_expiry first_by select
    update
renewal_run = refl

activate_subscription-IsGranted_example :
    IsGranted "ann" "standard" 30 1000 (timed_subscription "ann" 1000 shop.subscriptions) renewed
activate_subscription-IsGranted_example =
    activate_subscription-IsGranted "ann" "standard" 30 1000 shop renewal_run

activate_subscription-IsConflict_example :
    ((e : StoreError) × (activate_subscription "ann" "professional" 30 true 1000 shop ≡ err e))
    ↔ IsConflict "professional" (timed_subscription "ann" 1000 shop.subscriptions)
activate_subscription-IsConflict_example =
    activate_subscription-IsConflict "ann" "professional" 30 1000 shop

abbrev settled : FinalizedOrder
settled = record { order = settle 50 3 1000 ann_order; subscription = some renewed }

abbrev settled_shop : Db
settled_shop = record renewed_shop { orders = settle 50 3 1000 ann_order ∷ [] }

settle_run : finalize_paid_order 7 "0xab" 50 3 1000 shop ≡ ok (settled, settled_shop)
unfolding finalize_paid_order activate_subscription timed_subscription expire_subscriptions
    after_expiry settle find equal_fold first_by select update
settle_run = refl

finalize_paid_order-IsFinal_example : IsFinal 7 "0xab" settled.order settled_shop
finalize_paid_order-IsFinal_example = finalize_paid_order-IsFinal 7 "0xab" 50 3 1000 shop settle_run

finalize_paid_order_once_example :
    finalize_paid_order 7 "0xab" 51 4 2000 settled_shop
    ≡ ok (
      record {
        order = settled.order;
        subscription =
            timed_subscription settled.order.debox_user_id 2000 settled_shop.subscriptions;
      },
      settled_shop,
    )
finalize_paid_order_once_example =
    finalize_paid_order_once 7 "0xab" 50 3 1000 shop settle_run 51 4 2000

apply-Evolves_example : Evolves shop.orders (apply (finalizes 7 "0xab" 50 3) 1000 shop).orders
apply-Evolves_example = apply-Evolves (finalizes 7 "0xab" 50 3) 1000 shop tt

shop-Inv : Inv shop
unfolding count
shop-Inv = record {
  fresh = (omega arith, tt);
  one_id = λ id. ground arith;
  one_open = λ user. ground arith;
  one_hash = λ hash. ground arith;
}

abbrev day : List (ℕ × OrderCall)
day = (1000, finalizes 7 "0xab" 50 3) ∷ (1100, expires) ∷ (1200, claims 7 "ann" "0xaa" "0xcd") ∷ []

apply-Inv_example : Inv (apply (finalizes 7 "0xab" 50 3) 1000 shop)
apply-Inv_example = apply-Inv (finalizes 7 "0xab" 50 3) 1000 shop shop-Inv

run-Inv_example : Inv (run day shop)
run-Inv_example = run-Inv day shop shop-Inv

run-Keeps_example : Keeps shop.orders (run day shop).orders
run-Keeps_example = run-Keeps day shop (tt, (tt, (tt, tt)))
