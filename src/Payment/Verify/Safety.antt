-- ===== src/Payment/Verify/Safety.antt =====
-- What must have happened on the chain for an order to be paid.
use de_box_asset_alert.Prelude.{
  update, first_failure-none, ap, ==_iff, ℕ, ◌+◌, ◌≤◌, String, ◌≡◌, refl, subst, ◌⊎◌, inl, inr,
  Bool, true, false, not, ◌&&◌, Option, none, some, List, [], ◌∷◌, Result, ok, arith, str_eq, ◌==◌,
  ltb, Bool-cases, Option-cases, Result-cases,
}
use de_box_asset_alert.Prelude.Int.{ℤ}
use de_box_asset_alert.Chain.Profiles.{validate_address, validate_transaction_hash}
use de_box_asset_alert.Prelude.Rat.{Rat}
use de_box_asset_alert.Chain.Units.{amount_to_units}
use de_box_asset_alert.Store.Tables.{Db, Order, is_paid}
use de_box_asset_alert.Store.Orders.{Verification, is_unpaid, verify, update_order_verification}
use de_box_asset_alert.Store.Orders.Steps.{apply, after}
use de_box_asset_alert.Store.Tx.{Tx}
use de_box_asset_alert.Store.Orders.Steps.Effects.{apply_verifies}
use de_box_asset_alert.Payment.Evidence.{
  payment_chain_key, payment_chain_id, bsc_usdt_address, required_confirmations, max_int64, RpcMap,
  Replies, Verdict, unknown, waiting, rejected, value_string, hex_quantity, is_value, same_value,
  optional_address, validate_transaction, Transfer, decode_erc20_transfer, confirmations_of,
  is_number, or_default, text,
}
use de_box_asset_alert.Payment.Verify.{
  Confirmed, order_hash, eq_ℤ, report, then_do, done, waiting_update, failed_update, VerifyResult,
  verify_claimed_order, check_call, check_transfer, assess,
}

-- The transaction of that hash and in that block is a successful transfer of the order's amount, and of
-- no coins besides, by its payer to its recipient; the receipt is the transaction's.
pub record IsTransfer (set_string : String → Option Rat) (o : Order) (hash : String) (block : ℕ)
    (transaction receipt : RpcMap) : Type 0 where
  pub hashed : is_value (validate_transaction_hash (value_string (transaction "hash"))) hash ≡ true
  pub receipt_hashed :
      is_value (validate_transaction_hash (value_string (receipt "transactionHash"))) hash ≡ true
  pub mined : hex_quantity (transaction "blockNumber") ≡ some block
  pub no_coins : hex_quantity (or_default (transaction "value") (text "0x0")) ≡ some 0
  pub payer :
      same_value
        (validate_address (value_string (transaction "from")))
        (validate_address o.payer_address)
      ≡ true
  pub token :
      same_value
        (validate_address (value_string (transaction "to")))
        (optional_address o.token_address)
      ≡ true
  pub succeeded : hex_quantity (receipt "status") ≡ some 1
  pub call : Transfer
  pub decoded : decode_erc20_transfer (transaction "input") ≡ ok call
  pub recipient : is_value (validate_address o.recipient_address) call.recipient ≡ true
  pub expected : ℤ
  pub units : amount_to_units set_string o.total_amount o.token_decimals ≡ ok expected
  pub amount : eq_ℤ call.amount expected ≡ true

-- The node knows the transaction of the order, on the right chain and to the right token, and two
-- blocks or more have followed its block.
pub record IsPayment (set_string : String → Option Rat) (o : Order) (replies : Replies)
    (c : Confirmed) : Type 0 where
  pub hash : order_hash o.tx_hash ≡ ok c.hash
  pub network : str_eq o.chain_key payment_chain_key ≡ true
  pub chain : o.chain_id ≡ payment_chain_id
  pub usdt : is_value (optional_address o.token_address) bsc_usdt_address ≡ true
  pub transaction : RpcMap
  pub receipt : RpcMap
  pub found : replies.transaction c.hash payment_chain_key payment_chain_key ≡ ok (some transaction)
  pub received : replies.receipt c.hash payment_chain_key payment_chain_key ≡ ok (some receipt)
  pub block : hex_quantity (receipt "blockNumber") ≡ some c.block
  pub fits : c.block ≤ max_int64
  pub transfer : IsTransfer set_string o c.hash c.block transaction receipt
  pub latest : ℕ
  pub answered : replies.latest_block payment_chain_key payment_chain_key ≡ ok latest
  pub confirmed : c.confirmations ≡ confirmations_of latest c.block
  pub deep : c.block + 2 ≤ latest

abbrev Passes : Order → String → RpcMap → RpcMap → ℕ → Type 0
Passes o hash transaction receipt block =
    (not (is_value (validate_transaction_hash (value_string (transaction "hash"))) hash) ≡ false)
    × (not (is_value (validate_transaction_hash (value_string (receipt "transactionHash"))) hash)
        ≡ false)
    × (not (is_number (hex_quantity (transaction "blockNumber")) block) ≡ false)
    × (not (
          same_value (validate_address (value_string (transaction "from")))
            (validate_address o.payer_address))
        ≡ false)
    × (not (
          same_value (validate_address (value_string (transaction "to")))
            (optional_address o.token_address))
        ≡ false)
    × (not (is_number (hex_quantity (or_default (transaction "value") (text "0x0"))) 0) ≡ false)
    × (not (is_number (hex_quantity (receipt "status")) 1) ≡ false)

validate-Passes :
    (o : Order) (hash : String) (transaction receipt : RpcMap) (block : ℕ)
    → validate_transaction o hash transaction receipt block ≡ none
    → Passes o hash transaction receipt block
unfolding validate_transaction
validate-Passes o hash transaction receipt block h =
    let (hashed, (receipted, (mined, (payer, (token, (coins, (status, _))))))) =
      first_failure-none _ h in
    (hashed, receipted, mined, payer, token, coins, status)

not-false : (b : Bool) → not b ≡ false → b ≡ true
not-false true h = refl
not-false false h = absurd (cc)

is_number-some : (m : Option ℕ) (n : ℕ) → is_number m n ≡ true → m ≡ some n
is_number-some none n h = absurd (cc)
is_number-some (some m) n h = ap some ((==_iff m n).0 h)

module _ (set_string : String → Option Rat) where
  check_call-IsTransfer :
      (o : Order) (hash : String) (transaction receipt : RpcMap) (block : ℕ) {x : Unit {0}}
      → Passes o hash transaction receipt block
      → check_call set_string o transaction block ≡ ok x
      → IsTransfer set_string o hash block transaction receipt
  unfolding check_call
  check_call-IsTransfer o hash transaction receipt block
        (hashed, receipted, mined, payer, token, coins, status) h =
      elim (Result-cases (decode_erc20_transfer (transaction "input"))) [
        | inr (m, e) ↦ absurd (cc)
        | inl (call, d) ↦
            elim (Bool-cases (is_value (validate_address o.recipient_address) call.recipient)) [
              | inr r ↦ absurd (cc)
              | inl r ↦
                  elim (Result-cases (amount_to_units set_string o.total_amount o.token_decimals)) [
                    | inr (m, e) ↦ absurd (cc)
                    | inl (expected, u) ↦ elim (Bool-cases (eq_ℤ call.amount expected)) [
                      | inr a ↦ absurd (cc)
                      | inl a ↦ record {
                        hashed = not-false _ hashed;
                        receipt_hashed = not-false _ receipted;
                        mined = is_number-some _ block (not-false _ mined);
                        no_coins = is_number-some _ 0 (not-false _ coins);
                        payer = not-false _ payer;
                        token = not-false _ token;
                        succeeded = is_number-some _ 1 (not-false _ status);
                        call = call;
                        decoded = d;
                        recipient = r;
                        expected = expected;
                        units = u;
                        amount = a;
                      }
                    ]
                  ]
            ]
      ]

  check_transfer-IsTransfer :
      (o : Order) (hash : String) (transaction receipt : RpcMap) (block : ℕ) {x : Unit {0}}
      → check_transfer set_string o hash transaction receipt block ≡ ok x
      → IsTransfer set_string o hash block transaction receipt
  unfolding check_transfer
  check_transfer-IsTransfer o hash transaction receipt block {x} h =
      elim (Option-cases (validate_transaction o hash transaction receipt block)) [
        | inr (m, e) ↦ absurd (cc)
        | inl v ↦
            let tail : check_call set_string o transaction block ≡ ok x = cc in
            check_call-IsTransfer o hash transaction receipt block
              (validate-Passes o hash transaction receipt block v) tail
      ]

  deep_enough :
      (latest block : ℕ)
      → ltb (confirmations_of latest block) required_confirmations ≡ false
      → block + 2 ≤ latest
  unfolding confirmations_of
  deep_enough latest block h = ground arith

  -- What `verifyClaimedOrder` takes for a payment is one: asked for the order's hash on BNB Chain, the
  -- node gives a transaction and a receipt of that hash and in the same block, a successful call of the
  -- order's token by the order's payer, that transfers the order's amount of USDT to the order's
  -- recipient and no coins besides; and two blocks or more have followed that block.
  pub assess-IsPayment :
      (o : Order) (replies : Replies) {c : Confirmed}
      → assess set_string o replies ≡ ok c
      → IsPayment set_string o replies c
  unfolding assess
  assess-IsPayment o replies {c} h = elim (Result-cases (order_hash o.tx_hash)) [
    | inr (x, e) ↦ absurd (cc)
    | inl (hash, e1) ↦
        elim (Bool-cases
          (str_eq o.chain_key payment_chain_key && (o.chain_id == payment_chain_id))) [
            | inr e ↦ absurd (cc)
            | inl e2 ↦
                elim (Bool-cases (is_value (optional_address o.token_address) bsc_usdt_address)) [
                  | inr e ↦ absurd (cc)
                  | inl e3 ↦
                      elim (Result-cases
                        (replies.transaction hash payment_chain_key payment_chain_key)) [
                          | inr (x, e) ↦ absurd (cc)
                          | inl (t, e4) ↦
                              elim (Result-cases
                                (replies.receipt hash payment_chain_key payment_chain_key)) [
                                  | inr (x, e) ↦ absurd (cc)
                                  | inl (r, e5) ↦ elim (Option-cases t) [
                                    | inl e ↦ absurd (cc)
                                    | inr (transaction, e6) ↦ elim (Option-cases r) [
                                      | inl e ↦ absurd (cc)
                                      | inr (receipt, e7) ↦
                                          elim (Option-cases
                                            (hex_quantity (receipt "blockNumber"))) [
                                              | inl e ↦ absurd (cc)
                                              | inr (block, e8) ↦
                                                  elim (Bool-cases (ltb max_int64 block)) [
                                                    | inl e ↦ absurd (cc)
                                                    | inr e9 ↦
                                                        elim (Result-cases (
                                                          check_transfer set_string o hash
                                                            transaction receipt block)) [
                                                              | inr (x, e) ↦ absurd (cc)
                                                              | inl (x, e10) ↦
                                                                elim (Result-cases (
                                                                replies.latest_block
                                                                payment_chain_key
                                                                payment_chain_key)) [
                                                                  | inr (x, e) ↦ absurd (cc)
                                                                  | inl (latest, e11) ↦
                                                                    elim (Bool-cases (
                                                                    ltb
                                                                    (confirmations_of latest block)
                                                                    required_confirmations)) [
                                                                      | inl e ↦ absurd (cc)
                                                                      | inr e12 ↦
                                                                        (let count =
                                                                        confirmations_of latest
                                                                        block in
                                                                        let found : Confirmed =
                                                                        record {
                                                                        hash = hash;
                                                                        block = block;
                                                                        confirmations = count;
                                                                        } in
                                                                        let same : found ≡ c = cc in
                                                                        subst
                                                                        (IsPayment set_string o
                                                                        replies)
                                                                        same
                                                                        (record {
                                                                        hash = e1;
                                                                        network =
                                                                        ground (arith, e2);
                                                                        chain = ground (arith, e2);
                                                                        usdt = e3;
                                                                        transaction = transaction;
                                                                        receipt = receipt;
                                                                        found = cc;
                                                                        received = cc;
                                                                        block = e8;
                                                                        fits = ground (arith, e9);
                                                                        transfer =
                                                                        check_transfer-IsTransfer o
                                                                        hash transaction receipt
                                                                        block e10;
                                                                        latest = latest;
                                                                        answered = e11;
                                                                        confirmed = refl;
                                                                        deep =
                                                                        deep_enough latest block
                                                                        e12;
                                                                        }))
                                                                    ]
                                                                ]
                                                            ]
                                                  ]
                                            ]
                                    ]
                                  ]
                                ]
                        ]
                ]
          ]
  ]

-- No order is paid that was not paid before.
abbrev pub NonePaid : List Order → List Order → Type 0
NonePaid [] [] = Unit {0}
NonePaid [] (y ∷ ys) = ⊥
NonePaid (x ∷ xs) [] = ⊥
NonePaid (x ∷ xs) (y ∷ ys) = (is_paid y.status ≡ true → is_paid x.status ≡ true) × NonePaid xs ys

NonePaid-same : (xs : List Order) → NonePaid xs xs
NonePaid-same [] = tt
NonePaid-same (x ∷ xs) = (λ h. h, NonePaid-same xs)

NonePaid-update :
    (test : Order → Bool) (change : Order → Order) (xs : List Order)
    → ((x : Order) → is_paid (change x).status ≡ false)
    → NonePaid xs (update test change xs)
unfolding update
NonePaid-update test change [] h = tt
NonePaid-update test change (x ∷ xs) h = (ground (arith, h x), NonePaid-update test change xs h)

then_do-after :
    {A : Type 0} (m : Tx A) (f : A → VerifyResult) (db : Db)
    → (then_do m (λ a. done (f a)) db).1 ≡ after db (m db)
then_do-after m f db = elim (Result-cases (m db)) [ inl ((a, db'), e) ↦ cc | inr (x, e) ↦ cc ]

update-NonePaid :
    (id : ℕ) (v : Verification) (now : ℕ) (db : Db) (f : Order → VerifyResult)
    → is_paid v.status ≡ false
    → NonePaid db.orders
        (then_do (update_order_verification id v now) (λ a. done (f a)) db).1.orders
unfolding apply
update-NonePaid id v now db f h = elim (apply_verifies id v now db) [
  | inl e ↦
      rw (then_do-after (update_order_verification id v now) f db, e) (NonePaid-same db.orders)
  | inr (_, _, _, e) ↦
      rw (then_do-after (update_order_verification id v now) f db, e)
        (NonePaid-update (is_unpaid id) (verify v now) db.orders (λ x. unfold verify in h))
]

report-NonePaid :
    (o : Order) (now : ℕ) (v : Verdict) (db : Db) → NonePaid db.orders (report o now v db).1.orders
unfolding report
report-NonePaid o now (unknown e) db = NonePaid-same db.orders
report-NonePaid o now (waiting block n) db =
    update-NonePaid o.id (waiting_update block n) now db _ refl
report-NonePaid o now (rejected message block) db =
    update-NonePaid o.id (failed_update message block) now db _ refl

-- The verification of a claimed order makes no order paid, unless the node shows the payment of that
-- order: asked for the order's hash on BNB Chain, a transaction and a receipt of that hash and in the
-- same block, a successful call of the order's token by the order's payer that transfers the order's
-- amount to the order's recipient, in a block that two blocks or more have followed.
pub verify_claimed_order-pays :
    (set_string : String → Option Rat)
    (reconcile : Option (String → String → ℕ → Db → Result String (Unit {0}) × Db)) (o : Order)
    (replies : Replies) (now : ℕ) (db : Db)
    → ((c : Confirmed) × IsPayment set_string o replies c)
      ⊎ NonePaid db.orders (verify_claimed_order set_string reconcile o replies now db).1.orders
unfolding verify_claimed_order
verify_claimed_order-pays set_string reconcile o replies now db =
    elim (Result-cases (assess set_string o replies)) [
      | inl (c, e) ↦ inl (c, assess-IsPayment set_string o replies e)
      | inr (v, e) ↦ inr (rw e (report-NonePaid o now v db))
    ]
