-- ===== src/Chain/Units.antt =====
-- internal/chain/units.go: an amount of a token in its smallest unit. The reading of a decimal text by
-- math/big is an argument, so that what follows holds of every reading.
use de_box_asset_alert.Prelude.{
  ℕ, ◌*◌, ◌/◌, ◌%◌, ◌^◌, String, Option, none, some, ◌&&◌, Result, ok, err, trim_space, ◌==◌,
  if◌then◌else◌,
}
use de_box_asset_alert.Prelude.Int.{ℤ, sub_ℕ, pos_part, neg_part}
use de_box_asset_alert.Prelude.Rat.{Rat}
use de_box_asset_alert.Chain.Profiles.{ChainError, invalid_amount, too_many_decimals}

-- The fraction times 10 ^ decimals, if that is an integer.
scaled : ℕ → Option Rat → Result ChainError ℤ
scaled decimals none = err invalid_amount
scaled decimals (some r) =
    let up = pos_part r.num * 10 ^ decimals in
    let down = neg_part r.num * 10 ^ decimals in
    if (up % r.den == 0) && (down % r.den == 0)
    then ok (sub_ℕ (up / r.den) (down / r.den))
    else err too_many_decimals

-- The decimals of an order are not negative.
unfoldable pub amount_to_units : (String → Option Rat) → String → ℕ → Result ChainError ℤ
unfolding scaled
amount_to_units set_string value decimals = scaled decimals (set_string (trim_space value))
