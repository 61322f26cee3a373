-- ===== src/Chain/Transfer.antt =====
-- internal/chain/units.go: the call of an ERC-20 token that transfers an amount.
use Prim.Native.String.{◌∷◌}
use de_box_asset_alert.Prelude.{
  ℕ, zero, suc, ◌-◌, ◌/◌, ◌%◌, String, Option, none, some, Result, ok, err, drop_runes, rune_count,
  append, ltb, leb, if◌then◌else◌,
}
use de_box_asset_alert.Prelude.Int.{ℤ, pos_part, neg_part}
use de_box_asset_alert.Prelude.Strings.{char_at}
use de_box_asset_alert.Chain.Profiles.{ChainError, invalid_amount_units, validate_address}

unfoldable pub transfer_selector : String
transfer_selector = "a9059cbb"

-- The hexadecimal digits of a number before a text, so many of them.
unfoldable pub show_hex : ℕ → ℕ → String → String
unfolding char_at
show_hex zero n out = out
show_hex (suc digits) n out =
    show_hex digits (n / 16) (char_at "0123456789abcdef" (n % 16) "0" ∷ out)

-- How many hexadecimal digits a number has; as much fuel as the number itself is enough.
unfoldable pub hex_count : ℕ → ℕ → ℕ
hex_count zero n = 1
hex_count (suc fuel) n = let rest = hex_count fuel (n / 16) in if ltb n 16 then 1 else suc rest

unfoldable pub zeros : ℕ → String → String
zeros zero out = out
zeros (suc n) out = "0" ∷ zeros n out

-- fmt's %064s
unfoldable pub padded_text : ℕ → String → String
unfolding zeros
padded_text width s = zeros (width - rune_count s) s

-- fmt's %064x: the width is a minimum.
unfoldable pub padded_hex : ℕ → ℕ → String
unfolding show_hex hex_count
padded_hex width n =
    let count = hex_count n n in show_hex (if leb count width then width else count) n ""

-- `nil` is none.
unfoldable pub encode_amount : Result ChainError String → Option ℤ → Result ChainError String
unfolding transfer_selector padded_text padded_hex
encode_amount (err e) amount = err e
encode_amount (ok recipient) none = err invalid_amount_units
encode_amount (ok recipient) (some amount) =
    if ltb 0 (neg_part amount)
    then err invalid_amount_units
    else ok (
        append "0x" (
          append transfer_selector
            (append (padded_text 64 (drop_runes 2 recipient)) (padded_hex 64 (pos_part amount)))))

unfoldable pub encode_erc20_transfer : String → Option ℤ → Result ChainError String
unfolding encode_amount validate_address
encode_erc20_transfer recipient_address amount_units =
    encode_amount (validate_address recipient_address) amount_units
