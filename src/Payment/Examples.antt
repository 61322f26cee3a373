-- ===== src/Payment/Examples.antt =====
-- The theorems on payments, at one transfer of 5 USDT.
use de_box_asset_alert.Prelude.{
  String, ◌&&◌, ◌≡◌, refl, ◌⊎◌, Option, none, some, [], ◌∷◌, ok, str_eq, to_lower, trim_space,
  take_runes, drop_runes, rune_count, append, arith, first_failure, if◌then◌else◌,
}
use de_box_asset_alert.Prelude.Int.{pos}
use de_box_asset_alert.Chain.Hex.{parse_uint, parse_big}
use de_box_asset_alert.Prelude.Rat.{Rat}
use de_box_asset_alert.Store.Tables.{Db, Order}
use de_box_asset_alert.Payment.Evidence.{
  RpcMap, text, nothing, Replies, bsc_usdt_address, decode_erc20_transfer,
}
use de_box_asset_alert.Payment.Verify.{Confirmed, assess, verify_claimed_order}
use de_box_asset_alert.Payment.Verify.Safety.{
  IsPayment, NonePaid, assess-IsPayment, verify_claimed_order-pays,
}
use de_box_asset_alert.Store.Examples.{ann_order, shop}
use de_box_asset_alert.Chain.Profiles.{validate_address}
use de_box_asset_alert.Chain.Transfer.{encode_erc20_transfer}
use de_box_asset_alert.Payment.RoundTrip.{decode_encode_transfer}

abbrev sent : String
sent = "0xabababababababababababababababababababababababababababababababab"

abbrev claimed : Order
claimed = record ann_order {
  tx_hash = some sent;
  token_address = some bsc_usdt_address;
  payer_address = "0x1c1c1c1c1c1c1c1c1c1c1c1c1c1c1c1c1c1c1c1c";
  recipient_address = "0x2d2d2d2d2d2d2d2d2d2d2d2d2d2d2d2d2d2d2d2d";
}

abbrev five : String → Option Rat
five s = if str_eq s "5" then some (record { num = pos 5; den = 1 }) else none

abbrev transaction : RpcMap
transaction key =
    if str_eq key "hash"
    then text sent
    else if str_eq key "blockNumber"
    then text "0x64"
    else if str_eq key "from"
    then text "0x1c1c1c1c1c1c1c1c1c1c1c1c1c1c1c1c1c1c1c1c"
    else if str_eq key "to"
    then text bsc_usdt_address
    else if str_eq key "input"
    then text
        "0xa9059cbb0000000000000000000000002d2d2d2d2d2d2d2d2d2d2d2d2d2d2d2d2d2d2d2d0000000000000000000000000000000000000000000000004563918244f40000"
    else nothing

abbrev receipt : RpcMap
receipt key =
    if str_eq key "transactionHash"
    then text sent
    else if str_eq key "blockNumber"
    then text "0x64"
    else if str_eq key "status"
    then text "0x1"
    else nothing

-- The transfer is in block 100, and the latest block is 102.
abbrev replies : Replies
replies = record {
  transaction = λ hash chain_key default_key.
      if str_eq hash sent && str_eq chain_key "bsc" then ok (some transaction) else ok none;
  receipt = λ hash chain_key default_key.
      if str_eq hash sent && str_eq chain_key "bsc" then ok (some receipt) else ok none;
  latest_block = λ chain_key default_key. ok 102;
}

abbrev confirmed : Confirmed
confirmed = record { hash = sent; block = 100; confirmations = 3 }

assess_run : assess five claimed replies ≡ ok confirmed
unfolding assess trim_space append to_lower take_runes rune_count parse_uint drop_runes
    first_failure parse_big
assess_run = refl

assess-IsPayment_example : IsPayment five claimed replies confirmed
assess-IsPayment_example = assess-IsPayment five claimed replies assess_run

abbrev checkout : Db
checkout = record shop { orders = claimed ∷ [] }

verify_claimed_order-pays_example :
    ((c : Confirmed) × IsPayment five claimed replies c)
    ⊎ NonePaid checkout.orders
        (verify_claimed_order five none claimed replies 1000 checkout).1.orders
verify_claimed_order-pays_example =
    verify_claimed_order-pays five none claimed replies 1000 checkout

payee : String
payee = "0x2D2D2D2D2D2D2D2D2D2D2D2D2D2D2D2D2D2D2D2D"

payee_valid : validate_address payee ≡ ok "0x2d2d2d2d2d2d2d2d2d2d2d2d2d2d2d2d2d2d2d2d"
unfolding payee validate_address trim_space to_lower append
payee_valid = refl

decode_encode_transfer_example :
    (call : String) × (encode_erc20_transfer payee (some (pos 5000000)) ≡ ok call)
    × (decode_erc20_transfer (text call)
        ≡ ok (record {
          recipient = "0x2d2d2d2d2d2d2d2d2d2d2d2d2d2d2d2d2d2d2d2d";
          amount = pos 5000000;
        }))
decode_encode_transfer_example =
    decode_encode_transfer payee "0x2d2d2d2d2d2d2d2d2d2d2d2d2d2d2d2d2d2d2d2d" 5000000 payee_valid
      (omega arith)
