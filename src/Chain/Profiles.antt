-- ===== src/Chain/Profiles.antt =====
-- internal/chain/profiles.go: the supported chains, and the form of addresses and of hashes.
use de_box_asset_alert.Prelude.{
  ℕ, String, Option, none, some, List, [], ◌∷◌, Result, ok, err, find, to_lower, trim_space, append,
  str_eq, ◌||◌, if◌then◌else◌,
}
use de_box_asset_alert.Chain.Hex.{hex_text}

pub record Profile : Type 0 where
  pub key : String
  pub chain : String
  pub network : String
  pub chain_id : ℕ
  pub chain_id_hex : String
  pub name : String
  pub native_symbol : String

pub data ChainError : Type 0 where
  unsupported_chain : String → ChainError
  invalid_address invalid_transaction_hash : ChainError
  negative_decimals invalid_amount too_many_decimals invalid_amount_units : ChainError

abbrev profile : String → String → ℕ → String → String → String → Profile
profile key chain id hex name symbol = record {
  key = key;
  chain = chain;
  network = "mainnet";
  chain_id = id;
  chain_id_hex = hex;
  name = name;
  native_symbol = symbol;
}

-- The Go map by key, in the order of `profileOrder`.
abbrev pub profiles : List Profile
profiles =
    profile "bsc" "bnb" 56 "0x38" "BNB Chain" "BNB"
    ∷ profile "ethereum" "ethereum" 1 "0x1" "Ethereum" "ETH"
    ∷ profile "base" "base" 8453 "0x2105" "Base" "ETH"
    ∷ profile "polygon" "polygon" 137 "0x89" "Polygon" "POL"
    ∷ profile "arbitrum" "arbitrum" 42161 "0xa4b1" "Arbitrum" "ETH"
    ∷ profile "optimism" "optimism" 10 "0xa" "Optimism" "ETH"
    ∷ []

-- The first of two texts that is not blank.
or_else : String → String → String
or_else value default = if str_eq value "" then default else value

unfoldable pub normalize_chain_key : String → String → String
unfolding or_else
normalize_chain_key chain_key fallback =
    let key =
      or_else (or_else (to_lower (trim_space chain_key)) (to_lower (trim_space fallback))) "bsc" in
    if str_eq key "bnb" || (str_eq key "bnbchain" || str_eq key "bnb_chain") then "bsc" else key

or_unsupported : String → Option Profile → Result ChainError Profile
or_unsupported key none = err (unsupported_chain key)
or_unsupported key (some p) = ok p

unfoldable pub chain_profile : String → String → Result ChainError Profile
unfolding normalize_chain_key or_unsupported
chain_profile chain_key fallback =
    let key = normalize_chain_key chain_key fallback in
    or_unsupported key (find (λ (p : Profile). str_eq p.key key) profiles)

-- `profiles` is in this order already.
unfoldable pub supported_chains : List Profile
supported_chains = profiles

-- A text of the form, as "0x" and the lower case of its digits, or the error.
unfoldable pub or_invalid : ChainError → Option String → Result ChainError String
or_invalid e none = err e
or_invalid e (some digits) = ok (append "0x" (to_lower digits))

unfoldable pub validate_address : String → Result ChainError String
unfolding or_invalid hex_text
validate_address address = or_invalid invalid_address (hex_text 40 (trim_space address))

unfoldable pub validate_transaction_hash : String → Result ChainError String
unfolding or_invalid hex_text
validate_transaction_hash hash = or_invalid invalid_transaction_hash (hex_text 64 (trim_space hash))
