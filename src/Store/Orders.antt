-- ===== src/Store/Orders.antt =====
-- internal/store/orders.go: the life of a payment order, with the two unique indices on orders.
pub mod Steps
pub mod Finalize
use de_box_asset_alert.Prelude.{
  ℕ, suc, ◌+◌, ◌*◌, String, Bool, true, false, not, ◌&&◌, ◌||◌, Option, none, some, List, [], ◌∷◌,
  ◌++◌, ok, take, exists, find, select, count, update, to_lower, equal_fold, take_runes, str_eq,
  ◌==◌, ltb, leb, if◌then◌else◌,
}
use de_box_asset_alert.Store.Tables.{
  Db, Order, OrderStatus, pending, confirming, paid, failed, lapsed, is_pending, is_confirming,
  is_paid, Subscription, StoreError, active_subscription_conflict, not_found, order_conflict,
  order_invalid, order_transaction_used, permanent_entitlement, constraint_violated,
}
use de_box_asset_alert.Store.Tx.{Tx, ◌>>=◌, ◌>>◌, pure, fail, gets, modify, refuse_if}
use de_box_asset_alert.Store.Subscriptions.{
  current_subscription, timed_subscription, activate_subscription,
}

pub record CreateOrderParams : Type 0 where
  pub debox_user_id : String
  pub payer_address : String
  pub plan_code : String
  pub billing_cycle : String
  pub subscription_days : ℕ
  pub chain_key : String
  pub chain_id : ℕ
  pub token_address : Option String
  pub token_symbol : String
  pub token_decimals : ℕ
  pub total_amount : String
  pub recipient_address : String

abbrev pub order_lifetime : ℕ
order_lifetime = 20 * 60

-- UPDATE orders SET ... WHERE test
abbrev pub update_orders : (Order → Bool) → (Order → Order) → Db → Db
update_orders test change db = record db { orders = update test change db.orders }

pub has_expired : ℕ → Order → Bool
has_expired now o = is_pending o.status && ltb o.expires_at now

pub lapse : String → Order → Order
lapse note o = record o { status = lapsed; verification_error = note }

unfoldable pub expire_pending_orders : ℕ → Tx ℕ
unfolding has_expired
expire_pending_orders now db = ok (
  count (has_expired now) db.orders,
  update_orders (has_expired now) (λ o. record o { status = lapsed }) db,
)

-- The indexed part of idx_orders_one_open_per_user.
abbrev pub is_open : String → Order → Bool
is_open user o = str_eq o.debox_user_id user && (is_pending o.status || is_confirming o.status)

-- The plan that forbids a new order.
refuse_active_plan : String → Option Subscription → Tx (Unit {0})
refuse_active_plan plan none = pure tt
refuse_active_plan plan (some s) = do
  refuse_if s.is_permanent permanent_entitlement
  refuse_if (not (str_eq s.plan_code "free") && not (str_eq s.plan_code plan))
      active_subscription_conflict

pub new_order : CreateOrderParams → ℕ → ℕ → Order
new_order p id now = record {
  id = id;
  debox_user_id = p.debox_user_id;
  payer_address = p.payer_address;
  plan_code = p.plan_code;
  billing_cycle = p.billing_cycle;
  subscription_days = p.subscription_days;
  chain_key = p.chain_key;
  chain_id = p.chain_id;
  token_address = p.token_address;
  token_symbol = p.token_symbol;
  token_decimals = p.token_decimals;
  total_amount = p.total_amount;
  recipient_address = p.recipient_address;
  tx_hash = none;
  status = pending;
  expires_at = now + order_lifetime;
  completed_at = none;
  tx_block_number = none;
  tx_confirmations = 0;
  verified_at = none;
  verification_error = "";
}

insert_order : Order → Tx Order
insert_order o db = ok (o, record db { orders = db.orders ++ o ∷ []; next_id = suc db.next_id })

abbrev pub replaced : String
replaced = "replaced by a newer payment order"

pub is_pending_of : String → Order → Bool
is_pending_of user o = str_eq o.debox_user_id user && is_pending o.status

pub is_confirming_of : String → Order → Bool
is_confirming_of user o = str_eq o.debox_user_id user && is_confirming o.status

unfoldable pub create_order : CreateOrderParams → ℕ → Tx Order
unfolding refuse_active_plan new_order insert_order lapse current_subscription is_pending_of
    is_confirming_of
create_order p now = do
  active ← gets (λ db. current_subscription p.debox_user_id now db.subscriptions)
  refuse_active_plan p.plan_code active
  waiting ← gets (λ db. exists (is_confirming_of p.debox_user_id) db.orders)
  refuse_if waiting order_conflict
  modify (update_orders (is_pending_of p.debox_user_id) (lapse replaced))
  open_order ← gets (λ db. exists (is_open p.debox_user_id) db.orders)
  refuse_if open_order order_conflict
  id ← gets (λ db. db.next_id)
  insert_order (new_order p id now)

unfoldable pub get_order : ℕ → List Order → Option Order
get_order id = find (λ o. o.id == id)

-- LOWER(tx_hash) = LOWER(hash), of a hash that the index covers
abbrev pub has_hash : String → Order → Bool
has_hash hash o = elim o.tx_hash [ none ↦ false | some h ↦ not (str_eq h "") && equal_fold h hash ]

-- tx_hash IS NULL OR tx_hash = '' OR LOWER(tx_hash) = LOWER($1)
abbrev pub accepts_hash : String → Option String → Bool
accepts_hash hash none = true
accepts_hash hash (some h) = str_eq h "" || equal_fold h hash

-- The WHERE clause of the claim.
unfoldable pub is_claimable : ℕ → String → String → String → ℕ → Order → Bool
is_claimable id user payer hash now o =
    (o.id == id)
    && (str_eq o.debox_user_id user
        && (equal_fold o.payer_address payer
            && (((is_pending o.status && ltb now o.expires_at) || is_confirming o.status)
                && accepts_hash hash o.tx_hash)))

pub claim : String → ℕ → Order → Order
claim hash now o = record o {
  status = confirming;
  tx_hash = some hash;
  verified_at = some now;
  verification_error = "";
}

-- existing.TxHash != nil && strings.EqualFold(*existing.TxHash, txHash)
abbrev pub same_hash : String → Option String → Bool
same_hash hash none = false
same_hash hash (some h) = equal_fold h hash

-- A claim that updates no row succeeds if the order is paid by this very transaction.
already_paid : String → Option Order → Tx Order
already_paid hash none = fail order_invalid
already_paid hash (some o) =
    if is_paid o.status && same_hash hash o.tx_hash then pure o else fail order_invalid

-- The index on LOWER(tx_hash) refuses a hash that another order has.
pub taken_by_other : ℕ → String → List Order → Bool
taken_by_other id hash =
    exists (λ (o : Order). not (o.id == id) && (not (str_eq hash "") && has_hash hash o))

claim_row : ℕ → String → String → String → ℕ → Option Order → Tx Order
unfolding already_paid taken_by_other claim is_claimable
claim_row id user payer hash now none db = already_paid hash (find (λ o. o.id == id) db.orders) db
claim_row id user payer hash now (some o) db =
    if taken_by_other id hash db.orders
    then fail order_transaction_used db
    else pure (claim hash now o)
        (update_orders (is_claimable id user payer hash now) (claim hash now) db)

unfoldable pub claim_order_transaction : ℕ → String → String → String → ℕ → Tx Order
unfolding claim_row is_claimable
claim_order_transaction id user payer hash now db =
    claim_row id user payer hash now (find (is_claimable id user payer hash now) db.orders) db

pub record Verification : Type 0 where
  pub status : OrderStatus
  pub block_number : Option ℕ
  pub confirmations : ℕ
  pub error : String

unfoldable pub verify : Verification → ℕ → Order → Order
verify v now o = record o {
  status = v.status;
  tx_block_number = v.block_number;
  tx_confirmations = v.confirmations;
  verified_at = some now;
  verification_error = take_runes 500 v.error;
}

unfoldable pub is_unpaid : ℕ → Order → Bool
is_unpaid id o = (o.id == id) && not (is_paid o.status)

-- Reopening an order while its user has another open one violates the index.
pub reopens : Verification → ℕ → Order → List Order → Bool
reopens v id o orders =
    (is_pending v.status || is_confirming v.status)
    && exists (λ (p : Order). not (p.id == id) && is_open o.debox_user_id p) orders

or_not_found : Option Order → Tx Order
or_not_found none = fail not_found
or_not_found (some o) = pure o

verify_row : ℕ → Verification → ℕ → Option Order → Tx Order
unfolding verify is_unpaid or_not_found reopens
verify_row id v now none db = or_not_found (find (λ o. o.id == id) db.orders) db
verify_row id v now (some o) db =
    if reopens v id o db.orders
    then fail constraint_violated db
    else pure (verify v now o) (update_orders (is_unpaid id) (verify v now) db)

unfoldable pub update_order_verification : ℕ → Verification → ℕ → Tx Order
unfolding verify_row is_unpaid
update_order_verification id v now db = verify_row id v now (find (is_unpaid id) db.orders) db

-- ORDER BY verified_at ASC NULLS FIRST, id ASC
verified_before : Option ℕ → Option ℕ → Bool
verified_before none none = false
verified_before none (some b) = true
verified_before (some a) none = false
verified_before (some a) (some b) = ltb a b

due_before : Order → Order → Bool
unfolding verified_before
due_before a b =
    if verified_before a.verified_at b.verified_at
    then true
    else if verified_before b.verified_at a.verified_at
    then false
    else leb a.id b.id

insert_due : Order → List Order → List Order
insert_due o [] = o ∷ []
insert_due o (p ∷ ps) = if due_before o p then o ∷ p ∷ ps else p ∷ insert_due o ps

sort_due : List Order → List Order
sort_due [] = []
sort_due (o ∷ os) = insert_due o (sort_due os)

-- status = 'confirming' AND tx_hash IS NOT NULL AND tx_hash <> ''
abbrev pub awaits_confirmation : Order → Bool
awaits_confirmation o =
    is_confirming o.status && (elim o.tx_hash [ none ↦ false | some h ↦ not (str_eq h "") ])

unfoldable pub clamp : ℕ → ℕ → ℕ → ℕ
clamp value minimum maximum =
    if ltb value minimum then minimum else if ltb maximum value then maximum else value

unfoldable pub list_confirming_orders : ℕ → List Order → List Order
unfolding sort_due insert_due due_before clamp
list_confirming_orders limit orders =
    take (clamp limit 1 200) (sort_due (select awaits_confirmation orders))

pub record FinalizedOrder : Type 0 where
  pub order : Order
  pub subscription : Option Subscription

unfoldable pub settle : ℕ → ℕ → ℕ → Order → Order
settle block confirmations now o = record o {
  status = paid;
  tx_block_number = some block;
  tx_confirmations = confirmations;
  verified_at = some now;
  verification_error = "";
  completed_at = some now;
}

pub is_settling : ℕ → Order → Bool
is_settling id o = (o.id == id) && is_confirming o.status

-- The last UPDATE of the finalization finds no row if the order is no longer confirming.
settle_row : ℕ → ℕ → ℕ → ℕ → Subscription → Option Order → Tx FinalizedOrder
unfolding settle is_settling
settle_row id block confirmations now s none db = fail order_conflict db
settle_row id block confirmations now s (some o) db =
    pure (record { order = settle block confirmations now o; subscription = some s })
      (update_orders (is_settling id) (settle block confirmations now) db)

finalize_row : ℕ → String → ℕ → ℕ → ℕ → Option Order → Tx FinalizedOrder
unfolding settle_row activate_subscription timed_subscription is_settling
finalize_row id hash block confirmations now none = fail not_found
finalize_row id hash block confirmations now (some o) =
    if is_paid o.status
    then (if same_hash hash o.tx_hash
        then gets (λ db. record {
          order = o;
          subscription = timed_subscription o.debox_user_id now db.subscriptions;
        })
        else fail order_invalid)
    else if is_confirming o.status && same_hash hash o.tx_hash
    then (do
      s ← activate_subscription o.debox_user_id o.plan_code o.subscription_days true now
      row ← gets (λ db. find (is_settling id) db.orders)
      settle_row id block confirmations now s row)
    else fail order_invalid

unfoldable pub finalize_paid_order : ℕ → String → ℕ → ℕ → ℕ → Tx FinalizedOrder
unfolding finalize_row get_order
finalize_paid_order id hash block confirmations now db =
    finalize_row id hash block confirmations now (get_order id db.orders) db
