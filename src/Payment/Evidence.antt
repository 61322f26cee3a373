-- ===== src/Payment/Evidence.antt =====
-- internal/payment/service.go: what the answers of a node say of an order, before any change.
use de_box_asset_alert.Prelude.{
  ℕ, ◌+◌, ◌-◌, ◌^◌, ◌%◌, String, Bool, false, not, ◌&&◌, Option, none, some, [], ◌∷◌, first_failure,
  Result, ok, err, ◌>>◌, refuse_if, to_lower, trim_space, take_runes, drop_runes, rune_count,
  append, str_eq, ◌==◌, leb, ltb, if◌then◌else◌,
}
use de_box_asset_alert.Prelude.Int.{ℤ, pos, negsuc}
use de_box_asset_alert.Chain.Hex.{parse_uint, parse_big}
use de_box_asset_alert.Chain.Profiles.{ChainError, validate_address, validate_transaction_hash}
use de_box_asset_alert.Store.Tables.{Order}

abbrev pub payment_chain_key : String
payment_chain_key = "bsc"

abbrev pub payment_chain_id : ℕ
payment_chain_id = 56

abbrev pub bsc_usdt_address : String
bsc_usdt_address = "0x55d398326f99059ff775485246999027b3197955"

abbrev pub required_confirmations : ℕ
required_confirmations = 3

abbrev pub max_int64 : ℕ
max_int64 = 2 ^ 63 - 1

-- A value of a decoded JSON object: a text, a json.Number by its text, a Go integer with the text that
-- fmt prints for it, nil or a missing key, or any other value by its printed text.
pub data RpcValue : Type 0 where
  text number other : String → RpcValue
  integer : ℤ → String → RpcValue
  nothing : RpcValue

abbrev pub RpcMap : Type 0
RpcMap = String → RpcValue

-- The node's answers to RPCTransactionByHash and to TransactionReceipt, by the hash, the chain and the
-- default chain, and to LatestBlockNumber, by the chains; an error has its text.
pub record Replies : Type 0 where
  pub transaction : String → String → String → Result String (Option RpcMap)
  pub receipt : String → String → String → Result String (Option RpcMap)
  pub latest_block : String → String → Result String ℕ

pub data PaymentError : Type 0 where
  chain_unavailable : String → PaymentError
  chain_failed : ChainError → PaymentError
  missing_hash : PaymentError
  invalid_field : String → PaymentError

-- The ways in which the verification ends, with the transaction's block where it is known.
pub data Verdict : Type 0 where
  unknown : PaymentError → Verdict
  rejected : String → Option ℕ → Verdict
  waiting : Option ℕ → ℕ → Verdict

unfoldable pub value_string : RpcValue → String
value_string (text s) = s
value_string (number s) = s
value_string (other s) = s
value_string (integer n s) = s
value_string nothing = ""

-- `strings.HasPrefix(typed, "0x") && len(typed) > 2`, and the rest as a uint64
hex_quantity_of : String → Option ℕ
hex_quantity_of s =
    if str_eq (take_runes 2 s) "0x" && ltb 2 (rune_count s)
    then parse_uint 16 (drop_runes 2 s)
    else none

unfoldable pub hex_quantity : RpcValue → Option ℕ
unfolding hex_quantity_of
hex_quantity (text s) = hex_quantity_of s
hex_quantity (integer (pos n) s) = some n
hex_quantity (integer (negsuc n) s) = none
hex_quantity (number s) = parse_uint 10 s
hex_quantity (other s) = none
hex_quantity nothing = none

abbrev pub or_default : RpcValue → RpcValue → RpcValue
or_default nothing fallback = fallback
or_default v fallback = v

-- The value, if there is no error and it is the expected one.
abbrev pub is_value : Result ChainError String → String → Bool
is_value (ok a) b = str_eq a b
is_value (err e) b = false

abbrev pub same_value : Result ChainError String → Result ChainError String → Bool
same_value a (ok b) = is_value a b
same_value a (err e) = false

abbrev pub is_number : Option ℕ → ℕ → Bool
is_number none n = false
is_number (some m) n = m == n

-- The callers look at no text of this error.
unfoldable pub optional_address : Option String → Result ChainError String
unfolding validate_address
optional_address none = err ChainError.invalid_address
optional_address (some a) = validate_address a

-- The message of the first check that fails, in the order of validateTransaction.
unfoldable pub validate_transaction : Order → String → RpcMap → RpcMap → ℕ → Option String
unfolding value_string hex_quantity optional_address validate_address validate_transaction_hash
validate_transaction o hash transaction receipt block = first_failure (
    (
      not (is_value (validate_transaction_hash (value_string (transaction "hash"))) hash),
      "on-chain transaction hash does not match",
    )
    ∷ (
      not (is_value (validate_transaction_hash (value_string (receipt "transactionHash"))) hash),
      "transaction receipt hash does not match",
    )
    ∷ (
      not (is_number (hex_quantity (transaction "blockNumber")) block),
      "transaction and receipt block numbers do not match",
    )
    ∷ (
      not (
          same_value (validate_address (value_string (transaction "from")))
            (validate_address o.payer_address)),
      "payment wallet does not match the order",
    )
    ∷ (
      not (
          same_value (validate_address (value_string (transaction "to")))
            (optional_address o.token_address)),
      "transaction was not sent to the required USDT contract",
    )
    ∷ (
      not (is_number (hex_quantity (or_default (transaction "value") (text "0x0"))) 0),
      "USDT payment must not include a BNB value",
    )
    ∷ (not (is_number (hex_quantity (receipt "status")) 1), "on-chain payment transaction failed")
    ∷ [])

pub record Transfer : Type 0 where
  pub recipient : String
  pub amount : ℤ

invalid_parameters : String
invalid_parameters = "transaction transfer parameters are invalid"

unfoldable pub transfer_of : Result ChainError String → Option ℤ → Result String Transfer
unfolding invalid_parameters
transfer_of (err e) amount = err invalid_parameters
transfer_of (ok a) none = err invalid_parameters
transfer_of (ok a) (some n) = ok (record { recipient = a; amount = n })

unfoldable pub decode_erc20_transfer : RpcValue → Result String Transfer
unfolding transfer_of value_string validate_address
decode_erc20_transfer input =
    let value = to_lower (trim_space (value_string input)) in
    let word = take_runes 64 (drop_runes 10 value) in
    do
      refuse_if (not ((rune_count value == 138) && str_eq (take_runes 10 value) "0xa9059cbb"))
          "transaction is not a standard ERC-20 transfer"
      refuse_if (not (str_eq (take_runes 24 word) "000000000000000000000000"))
          "transaction recipient encoding is invalid"
      transfer_of (validate_address (append "0x" (drop_runes 24 word)))
          (parse_big (take_runes 64 (drop_runes 74 value)))

-- latestBlock - blockNumber + 1, in 64 bits, at most math.MaxInt
unfoldable pub confirmations_of : ℕ → ℕ → ℕ
confirmations_of latest block =
    if leb block latest
    then (let count = (latest - block + 1) % 2 ^ 64 in
        if ltb max_int64 count then max_int64 else count)
    else 0
