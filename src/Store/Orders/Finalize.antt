-- ===== src/Store/Orders/Finalize.antt =====
-- What `FinalizePaidOrder` leaves behind, and what a second call finds.
use de_box_asset_alert.Prelude.{
  ℕ, String, ◌≡◌, refl, inl, inr, Bool, true, ◌&&◌, some, List, [], ◌∷◌, ok, find, update, arith,
  ◌==◌, Bool-cases, Option-cases, Result-cases,
}
use de_box_asset_alert.Prelude.Queries.{find-test}
use de_box_asset_alert.Store.Tables.{Db, Order, is_paid, is_confirming}
use de_box_asset_alert.Store.Subscriptions.{activate_subscription, timed_subscription}
use de_box_asset_alert.Store.Subscriptions.Activation.{activate_subscription-KeepsOrders}
use de_box_asset_alert.Store.Orders.{
  FinalizedOrder, get_order, same_hash, settle, is_settling, settle_row, finalize_row,
  finalize_paid_order,
}

-- The row that a key finds, after an update that keeps the key.
find-update {ℓ} :
    {A : Type ℓ} (key test : A → Bool) (change : A → A) (xs : List A) {x : A}
    → ((y : A) → key (change y) ≡ key y)
    → find key xs ≡ some x
    → test x ≡ true
    → find key (update test change xs) ≡ some (change x)
unfolding find update
find-update key test change [] same h t = absurd (cc)
find-update key test change (y ∷ xs) {x} same h t = elim (Bool-cases (key y)) [
  | inl e ↦ ground (arith, same y)
  | inr e ↦ ground (arith, same y, find-update key test change xs {x = x} same)
]

-- A narrower test finds the same row, if that row passes it.
find_part {ℓ} :
    {A : Type ℓ} (key test : A → Bool) (xs : List A) {x : A}
    → ((y : A) → test y ≡ true → key y ≡ true)
    → find key xs ≡ some x
    → test x ≡ true
    → find test xs ≡ some x
unfolding find
find_part key test [] part h t = absurd (cc)
find_part key test (y ∷ xs) {x} part h t = elim (Bool-cases (key y)) [
  | inl e ↦ ground arith
  | inr e ↦ ground (arith, part y, find_part key test xs {x = x} part)
]

-- The order is paid, by the transaction, and is the one in the table.
pub record IsFinal (id : ℕ) (hash : String) (o : Order) (db : Db) : Type 0 where
  pub paid_lem : is_paid o.status ≡ true
  pub hash_lem : same_hash hash o.tx_hash ≡ true
  pub stored : get_order id db.orders ≡ some o

finalize_row-IsFinal :
    (id : ℕ) (hash : String) (block confirmations now : ℕ) (o : Order) (db : Db)
    → get_order id db.orders ≡ some o
    → {f : FinalizedOrder} {db' : Db}
    → finalize_row id hash block confirmations now (some o) db ≡ ok (f, db')
    → IsFinal id hash f.order db'
unfolding finalize_row get_order settle_row settle is_settling
finalize_row-IsFinal id hash block confirmations now o db found {f} {db'} h =
    elim (Bool-cases (is_paid o.status)) [
      | inl e ↦ ground arith
      | inr e ↦ elim (Bool-cases (is_confirming o.status && same_hash hash o.tx_hash)) [
        | inr g ↦ absurd (ground arith)
        | inl g ↦
            elim (Result-cases
              (activate_subscription o.debox_user_id o.plan_code o.subscription_days true now db)) [
                | inr (x, a) ↦ absurd (ground arith)
                | inl ((s, mid), a) ↦
                    let kept =
                      (activate_subscription-KeepsOrders o.debox_user_id o.plan_code
                        o.subscription_days true now db a).0 in
                    let t : is_settling id o ≡ true =
                      ground (arith, find-test (λ o. o.id == id) db.orders {x = o} found) in
                    let row : find (is_settling id) mid.orders ≡ some o = rw kept (
                      find_part (λ o. o.id == id) (is_settling id) db.orders {x = o}
                        (λ y u. ground arith) found t) in
                    let later : find (λ o. o.id == id)
                          (update (is_settling id) (settle block confirmations now) mid.orders)
                        ≡ some (settle block confirmations now o) =
                      rw kept (
                        find-update (λ o. o.id == id) (is_settling id)
                          (settle block confirmations now) db.orders {x = o} (λ y. refl) found t) in
                    ground arith
              ]
      ]
    ]

-- A finalized order is paid, by the given transaction, and is the order that the table now has under
-- the given id.
pub finalize_paid_order-IsFinal :
    (id : ℕ) (hash : String) (block confirmations now : ℕ) (db : Db) {f : FinalizedOrder} {db' : Db}
    → finalize_paid_order id hash block confirmations now db ≡ ok (f, db')
    → IsFinal id hash f.order db'
unfolding finalize_paid_order
finalize_paid_order-IsFinal id hash block confirmations now db {f} {db'} h =
    elim (Option-cases (get_order id db.orders)) [
      | inl e ↦ absurd (unfold finalize_row in ground arith)
      | inr (o, e) ↦
          (let g : finalize_row id hash block confirmations now (some o) db ≡ ok (f, db') =
              rw e at h in
            finalize_row-IsFinal id hash block confirmations now o db e g)
    ]

-- A second finalization by the same transaction, at any time and with any receipt, answers with the
-- same order and changes nothing, so that a payment extends the subscription once.
pub finalize_paid_order_once :
    (id : ℕ) (hash : String) (block confirmations now : ℕ) (db : Db) {f : FinalizedOrder} {db' : Db}
    → finalize_paid_order id hash block confirmations now db ≡ ok (f, db')
    → (block' confirmations' later : ℕ)
    → finalize_paid_order id hash block' confirmations' later db'
      ≡ ok (
        record {
          order = f.order;
          subscription = timed_subscription f.order.debox_user_id later db'.subscriptions;
        },
        db',
      )
finalize_paid_order_once id hash block confirmations now db h block' confirmations' later =
    let final = finalize_paid_order-IsFinal id hash block confirmations now db h in
    unfold finalize_paid_order finalize_row in
    rw (final.stored, final.paid_lem, final.hash_lem) refl
