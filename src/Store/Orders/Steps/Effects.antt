-- ===== src/Store/Orders/Steps/Effects.antt =====
-- What each call does to the table of orders: nothing, or one known update.
use de_box_asset_alert.Prelude.{
  ℕ, suc, ◌≤◌, String, ◌≡◌, refl, ◌⊎◌, inl, inr, true, false, ◌&&◌, some, [], ◌∷◌, ◌++◌, find,
  exists, update, arith, Bool-cases, Option-cases, Result-cases,
}
use de_box_asset_alert.Store.Tables.{Db, Order, is_paid, is_confirming}
use de_box_asset_alert.Store.Subscriptions.Activation.{activate_subscription-KeepsOrders}
use de_box_asset_alert.Store.Subscriptions.{activate_subscription}
use de_box_asset_alert.Store.Orders.{
  CreateOrderParams, Verification, update_orders, has_expired, lapse, claim, verify, settle,
  replaced, new_order, is_pending_of, is_open, is_claimable, is_unpaid, is_settling, taken_by_other,
  reopens, expire_pending_orders, create_order, finalize_paid_order, finalize_row, settle_row,
  same_hash, get_order,
}
use de_box_asset_alert.Store.Orders.Steps.{
  OrderCall, expires, creates, claims, verifies, finalizes, apply, after, IsCall, Evolves,
  Evolves-same, Evolves-update, Evolves-append, Step-lapse, Step-expire, Step-claim, Step-verify,
  Step-settle,
}

pub apply_claims :
    (id : ℕ) (user payer hash : String) (now : ℕ) (db : Db)
    → let test = is_claimable id user payer hash now in
      let db' = apply (claims id user payer hash) now db in
      (db' ≡ db)
      ⊎ ((o : Order) × (find test db.orders ≡ some o)
          × (taken_by_other id hash db.orders ≡ false)
          × (db' ≡ update_orders test (claim hash now) db))
unfolding apply
apply_claims id user payer hash now db =
    elim (Option-cases (find (is_claimable id user payer hash now) db.orders)) [
      | inl e ↦ inl (ground arith)
      | inr (o, e) ↦ elim (Bool-cases (taken_by_other id hash db.orders)) [
        | inl t ↦ inl (ground arith)
        | inr t ↦ inr (o, e, t, ground arith)
      ]
    ]

pub apply_verifies :
    (id : ℕ) (v : Verification) (now : ℕ) (db : Db)
    → let db' = apply (verifies id v) now db in
      (db' ≡ db)
      ⊎ ((o : Order) × (find (is_unpaid id) db.orders ≡ some o)
          × (reopens v id o db.orders ≡ false)
          × (db' ≡ update_orders (is_unpaid id) (verify v now) db))
unfolding apply
apply_verifies id v now db = elim (Option-cases (find (is_unpaid id) db.orders)) [
  | inl e ↦ inl (ground arith)
  | inr (o, e) ↦ elim (Bool-cases (reopens v id o db.orders)) [
    | inl t ↦ inl (ground arith)
    | inr t ↦ inr (o, e, t, ground arith)
  ]
]

pub apply_creates :
    (p : CreateOrderParams) (now : ℕ) (db : Db)
    → let db' = apply (creates p) now db in
      let lapsing = update (is_pending_of p.debox_user_id) (lapse replaced) db.orders in
      (db' ≡ db)
      ⊎ ((exists (is_open p.debox_user_id) lapsing ≡ false)
          × (db'.orders ≡ lapsing ++ new_order p db.next_id now ∷ [])
          × (db'.next_id ≡ suc db.next_id))
unfolding apply create_order
apply_creates p now db = ground arith

-- An unpaid order is finalized through an activation, which leaves the orders alone.
finalize_effect :
    (id : ℕ) (hash : String) (block confirmations now : ℕ) (o : Order) (db : Db)
    → let db' = after db (finalize_row id hash block confirmations now (some o) db) in
      (db' ≡ db)
      ⊎ ((x : Order) × (find (is_settling id) db.orders ≡ some x)
          × (db'.orders ≡ update (is_settling id) (settle block confirmations now) db.orders)
          × (db.next_id ≤ db'.next_id))
unfolding finalize_row settle_row
finalize_effect id hash block confirmations now o db =
    elim (Result-cases
      (activate_subscription o.debox_user_id o.plan_code o.subscription_days true now db)) [
        | inr (e, a) ↦ inl (ground arith)
        | inl ((s, mid), a) ↦ elim (Option-cases (find (is_settling id) mid.orders)) [
          | inl f ↦ inl (ground arith)
          | inr (x, f) ↦
              let (same, later) =
                activate_subscription-KeepsOrders o.debox_user_id o.plan_code o.subscription_days
                  true now db a in
              elim (Bool-cases (is_paid o.status)) [
                | inl t ↦ inl (ground arith)
                | inr t ↦ elim (Bool-cases (is_confirming o.status && same_hash hash o.tx_hash)) [
                  | inr u ↦ inl (ground arith)
                  | inl u ↦ inr (x, cc, ground arith, ground arith)
                ]
              ]
        ]
      ]

pub apply_finalizes :
    (id : ℕ) (hash : String) (block confirmations now : ℕ) (db : Db)
    → let db' = apply (finalizes id hash block confirmations) now db in
      (db' ≡ db)
      ⊎ ((o : Order) × (find (is_settling id) db.orders ≡ some o)
          × (db'.orders ≡ update (is_settling id) (settle block confirmations now) db.orders)
          × (db.next_id ≤ db'.next_id))
unfolding apply finalize_paid_order
apply_finalizes id hash block confirmations now db = elim (Option-cases (get_order id db.orders)) [
  | inl e ↦ rw (e, finalize_row) (inl refl)
  | inr (o, e) ↦ rw e (finalize_effect id hash block confirmations now o db)
]

-- A call, which sets no order to `paid` by an update of its verification, keeps every order in its
-- place, with its id, owner, payer, plan, days, amount and recipient. A paid order stays as it is, an
-- order becomes paid only from `confirming` and with its transaction hash, and a hash that is not
-- blank is never replaced by another one.
pub apply-Evolves :
    (c : OrderCall) (now : ℕ) (db : Db) → IsCall c → Evolves db.orders (apply c now db).orders
unfolding has_expired is_pending_of
apply-Evolves expires now db h =
    unfold apply expire_pending_orders in
    Evolves-update (has_expired now) _ db.orders (λ o t. Step-expire o (ground arith))
apply-Evolves (creates p) now db h = elim (apply_creates p now db) [
  | inl e ↦ rw e (Evolves-same db.orders)
  | inr (_, e, _) ↦ rw e (
      Evolves-append db.orders _ _ (
        Evolves-update (is_pending_of p.debox_user_id) (lapse replaced) db.orders
          (λ o t. Step-lapse replaced o (ground arith))))
]
apply-Evolves (claims id user payer hash) now db h = elim (apply_claims id user payer hash now db) [
  | inl e ↦ rw e (Evolves-same db.orders)
  | inr (_, _, _, e) ↦ rw e (
      Evolves-update (is_claimable id user payer hash now) (claim hash now) db.orders
        (Step-claim id user payer hash now))
]
apply-Evolves (verifies id v) now db h = elim (apply_verifies id v now db) [
  | inl e ↦ rw e (Evolves-same db.orders)
  | inr (_, _, _, e) ↦
      rw e (Evolves-update (is_unpaid id) (verify v now) db.orders (λ o. Step-verify v now id o h))
]
apply-Evolves (finalizes id hash block confirmations) now db h =
    elim (apply_finalizes id hash block confirmations now db) [
      | inl e ↦ rw e (Evolves-same db.orders)
      | inr (_, _, e, _) ↦ rw e (
          Evolves-update (is_settling id) (settle block confirmations now) db.orders
            (Step-settle block confirmations now id))
    ]
