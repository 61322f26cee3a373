-- ===== src/Payment/Verify.antt =====
-- internal/payment/service.go: `verifyClaimedOrder` and `Verify`. The reading of decimals and the
-- reconciliation of the entitlements, which another service does, are arguments.
pub mod Safety
use de_box_asset_alert.Prelude.{
  ℕ, String, Bool, true, false, not, ◌&&◌, Option, none, some, Result, ok, err, ◌>>=◌, ◌>>◌,
  refuse_if, trim_space, str_eq, ◌==◌, leb, ltb, if◌then◌else◌,
}
use de_box_asset_alert.Prelude.Int.{ℤ, leb_ℤ}
use de_box_asset_alert.Chain.Profiles.{ChainError, validate_address, validate_transaction_hash}
use de_box_asset_alert.Prelude.Rat.{Rat}
use de_box_asset_alert.Chain.Units.{amount_to_units}
use de_box_asset_alert.Store.Tables.{
  Db, Order, OrderStatus, confirming, failed, is_paid, Subscription, StoreError,
}
use de_box_asset_alert.Store.Tx.{Tx}
use de_box_asset_alert.Store.Orders.{
  Verification, FinalizedOrder, claim_order_transaction, update_order_verification,
  finalize_paid_order,
}
use de_box_asset_alert.Payment.Evidence.{
  payment_chain_key, payment_chain_id, bsc_usdt_address, required_confirmations, max_int64, RpcMap,
  Replies, PaymentError, chain_unavailable, chain_failed, missing_hash, invalid_field, Verdict,
  unknown, rejected, waiting, hex_quantity, is_value, optional_address, validate_transaction,
  Transfer, decode_erc20_transfer, confirmations_of,
}

pub record Confirmed : Type 0 where
  pub hash : String
  pub block : ℕ
  pub confirmations : ℕ

-- An error of the code below as a verdict.
abbrev pub or_verdict {ℓ} : {E A : Type ℓ} → (E → Verdict) → Result E A → Result Verdict A
or_verdict f (ok a) = ok a
or_verdict f (err e) = err (f e)

unfoldable pub order_hash : Option String → Result PaymentError String
unfolding validate_transaction_hash
order_hash none = err missing_hash
order_hash (some h) = elim (validate_transaction_hash h) [
  | ok s ↦ ok s
  | err e ↦ err (chain_failed e)
]

-- An answer that the node gave.
abbrev pub answer {ℓ} : {A : Type ℓ} → Result String A → Result Verdict A
answer (ok a) = ok a
answer (err e) = err (unknown (chain_unavailable e))

-- Both answers, once the node knows the transaction.
abbrev pub both : Option RpcMap → Option RpcMap → Result Verdict (RpcMap × RpcMap)
both (some t) (some r) = ok (t, r)
both none r = err (waiting none 0)
both (some t) none = err (waiting none 0)

abbrev pub block_of : Option ℕ → Result Verdict ℕ
block_of none = err (unknown (invalid_field "blockNumber"))
block_of (some n) = ok n

abbrev pub eq_ℤ : ℤ → ℤ → Bool
eq_ℤ a b = leb_ℤ a b && leb_ℤ b a

pub data PaymentFailure : Type 0 where
  payment : PaymentError → PaymentFailure
  stored : StoreError → PaymentFailure
  entitlement : String → PaymentFailure

pub data PaymentStatus : Type 0 where
  paid_status confirming_status failed_status : PaymentStatus

pub record VerifyResult : Type 0 where
  pub payment_status : PaymentStatus
  pub order : Order
  pub subscription : Option Subscription
  pub confirmations : ℕ
  pub error : String

-- A call of the service: a failure keeps what the transactions before it committed.
abbrev pub Action : Type 0 → Type 0
Action A = Db → Result PaymentFailure A × Db

-- A transaction of the store, and what to do with its value.
abbrev pub then_do : {A B : Type 0} → Tx A → (A → Action B) → Action B
then_do m f db = elim (m db) [ ok (a, db') ↦ f a db' | err e ↦ (err (stored e), db) ]

abbrev pub done : {A : Type 0} → A → Action A
done a db = (ok a, db)

abbrev pub waiting_update : Option ℕ → ℕ → Verification
waiting_update block confirmations = record {
  status = confirming;
  block_number = block;
  confirmations = confirmations;
  error = "";
}

abbrev pub failed_update : String → Option ℕ → Verification
failed_update message block = record {
  status = failed;
  block_number = block;
  confirmations = 0;
  error = message;
}

-- `confirming`, `failed`, or the error.
unfoldable pub report : Order → ℕ → Verdict → Action VerifyResult
unfolding update_order_verification
report o now (unknown e) = λ db. (err (payment e), db)
report o now (waiting block confirmations) =
    then_do (update_order_verification o.id (waiting_update block confirmations) now) (λ updated.
      done (record {
        payment_status = confirming_status;
        order = updated;
        subscription = none;
        confirmations = confirmations;
        error = "";
      }))
report o now (rejected message block) =
    then_do (update_order_verification o.id (failed_update message block) now) (λ updated.
      done (record {
        payment_status = failed_status;
        order = updated;
        subscription = none;
        confirmations = 0;
        error = message;
      }))

abbrev pub reject_if : ℕ → Option String → Result Verdict (Unit {0})
reject_if block none = ok tt
reject_if block (some message) = err (rejected message (some block))

after_reconcile :
    VerifyResult → Result String (Unit {0}) × Db → Result PaymentFailure VerifyResult × Db
after_reconcile result (ok _, db) = (ok result, db)
after_reconcile result (err e, db) = (err (entitlement e), db)

module _ (set_string : String → Option Rat) where
  -- The checks that follow once the block is known.
  pub check_call : Order → RpcMap → ℕ → Result Verdict (Unit {0})
  unfolding decode_erc20_transfer validate_address amount_to_units
  check_call o transaction block = do
    transfer ←
        or_verdict (λ m. rejected m (some block)) (decode_erc20_transfer (transaction "input"))
    refuse_if (not (is_value (validate_address o.recipient_address) transfer.recipient))
        (rejected "USDT recipient does not match the order" (some block))
    expected ←
        or_verdict (λ e. unknown (chain_failed e))
          (amount_to_units set_string o.total_amount o.token_decimals)
    refuse_if (not (eq_ℤ transfer.amount expected))
        (rejected "USDT amount does not match the order" (some block))

  pub check_transfer : Order → String → RpcMap → RpcMap → ℕ → Result Verdict (Unit {0})
  unfolding validate_transaction check_call
  check_transfer o hash transaction receipt block = do
    reject_if block (validate_transaction o hash transaction receipt block)
    check_call o transaction block

  unfoldable pub assess : Order → Replies → Result Verdict Confirmed
  unfolding order_hash optional_address hex_quantity check_transfer confirmations_of
  assess o replies = do
    hash ← or_verdict unknown (order_hash o.tx_hash)
    refuse_if (not (str_eq o.chain_key payment_chain_key && (o.chain_id == payment_chain_id)))
        (rejected "order payment network is not BNB Chain" none)
    refuse_if (not (is_value (optional_address o.token_address) bsc_usdt_address))
        (rejected "order payment token is not BSC USDT" none)
    transaction ← answer (replies.transaction hash payment_chain_key payment_chain_key)
    receipt ← answer (replies.receipt hash payment_chain_key payment_chain_key)
    maps ← both transaction receipt
    block ← block_of (hex_quantity (maps.1 "blockNumber"))
    refuse_if (ltb max_int64 block) (rejected "transaction block number is invalid" none)
    check_transfer o hash maps.0 maps.1 block
    latest ← answer (replies.latest_block payment_chain_key payment_chain_key)
    let count = confirmations_of latest block
    refuse_if (ltb count required_confirmations) (waiting (some block) count)
    ok (record { hash = hash; block = block; confirmations = count })

module _ (set_string : String → Option Rat)
    (reconcile : Option (String → String → ℕ → Db → Result String (Unit {0}) × Db)) where
  reconcile_plan : FinalizedOrder → ℕ → VerifyResult → Action VerifyResult
  unfolding after_reconcile
  reconcile_plan f now result db = elim reconcile [
    | none ↦ (ok result, db)
    | some run ↦ after_reconcile result (run f.order.debox_user_id f.order.plan_code now db)
  ]

  finish : Order → ℕ → Result Verdict Confirmed → Action VerifyResult
  unfolding finalize_paid_order report reconcile_plan
  finish o now (err verdict) = report o now verdict
  finish o now (ok c) = then_do (finalize_paid_order o.id c.hash c.block c.confirmations now) (λ f.
      reconcile_plan f now (record {
        payment_status = paid_status;
        order = f.order;
        subscription = f.subscription;
        confirmations = c.confirmations;
        error = "";
      }))

  unfoldable pub verify_claimed_order : Order → Replies → ℕ → Action VerifyResult
  unfolding finish assess
  verify_claimed_order o replies now = finish o now (assess set_string o replies)

  -- The answer for an order that is paid already, or the verification.
  verify_order : Replies → ℕ → Order → Action VerifyResult
  unfolding verify_claimed_order
  verify_order replies now o =
      if is_paid o.status
      then done (record {
        payment_status = paid_status;
        order = o;
        subscription = none;
        confirmations =
            if o.tx_confirmations == 0 then required_confirmations else o.tx_confirmations;
        error = "";
      })
      else verify_claimed_order o replies now

  verify_texts :
      ℕ
      → String
      → Replies
      → ℕ
      → Result ChainError String
      → Result ChainError String
      → Action VerifyResult
  unfolding verify_order claim_order_transaction
  verify_texts id user replies now (err e) payer = λ db. (err (payment (chain_failed e)), db)
  verify_texts id user replies now (ok hash) (err e) = λ db. (err (payment (chain_failed e)), db)
  verify_texts id user replies now (ok hash) (ok payer) =
      then_do (claim_order_transaction id (trim_space user) payer hash now)
        (verify_order replies now)

  -- `Verify`: the claim of a transaction, and its verification.
  unfoldable pub verify_payment : ℕ → String → String → String → Replies → ℕ → Action VerifyResult
  unfolding verify_texts validate_transaction_hash validate_address
  verify_payment id tx_hash user payer replies now =
      verify_texts id user replies now (validate_transaction_hash tx_hash) (validate_address payer)
