-- ===== src/Monitor/Conditions.antt =====
-- internal/monitor/executor.go: when an observed value is worth an alert. The reading of a decimal text by
-- math/big and its rounding to 256 bits are arguments, for texts of finite numbers.
use de_box_asset_alert.Prelude.{
  String, Bool, false, not, ◌&&◌, ◌||◌, Option, none, some, trim_space, str_eq, if◌then◌else◌,
}
use de_box_asset_alert.Prelude.Rat.{Rat, leb_ℚ, ltb_ℚ, is_zero_ℚ, is_nonpos_ℚ, sub_ℚ, neg_ℚ, of_ℕ}
use de_box_asset_alert.Plans.Types.{balance_threshold, high_balance_threshold}
use de_box_asset_alert.Plans.RuleTypes.{balance_change, incoming, outgoing}

pub record Floats : Type 0 where
  pub parse : String → Option Rat
  pub round : Rat → Rat

or_zero : Option Rat → Rat
or_zero none = of_ℕ 0
or_zero (some r) = r

unfoldable pub decimal : Floats → String → Rat
unfolding or_zero
decimal floats value = or_zero (floats.parse (trim_space value))

-- decimalCompare(left, right) <= 0 and decimalCompare(left, right) == 0
unfoldable pub decimal_le : Floats → String → String → Bool
unfolding decimal
decimal_le floats left right = leb_ℚ (decimal floats left) (decimal floats right)

unfoldable pub decimal_eq : Floats → String → String → Bool
unfolding decimal_le
decimal_eq floats left right = decimal_le floats left right && decimal_le floats right left

-- The five conditions, of the numbers.
unfoldable pub alerts_on : (Rat → Rat) → String → Rat → Rat → Rat → Bool
alerts_on round rule_type previous current threshold =
    let delta = round (sub_ℚ current previous) in
    let size = if ltb_ℚ delta (of_ℕ 0) then neg_ℚ delta else delta in
    if str_eq rule_type balance_change
    then not (is_zero_ℚ delta) && (is_nonpos_ℚ threshold || leb_ℚ threshold size)
    else if str_eq rule_type incoming
    then not (is_nonpos_ℚ delta) && (is_nonpos_ℚ threshold || leb_ℚ threshold delta)
    else if str_eq rule_type outgoing
    then ltb_ℚ delta (of_ℕ 0) && (is_nonpos_ℚ threshold || leb_ℚ threshold size)
    else if str_eq rule_type balance_threshold
    then ltb_ℚ threshold previous && leb_ℚ current threshold
    else if str_eq rule_type high_balance_threshold
    then ltb_ℚ previous threshold && leb_ℚ threshold current
    else false

unfoldable pub should_alert_asset : Floats → String → String → String → String → Bool
unfolding decimal alerts_on
should_alert_asset floats rule_type previous_value current_value threshold_value =
    alerts_on floats.round rule_type (decimal floats previous_value) (decimal floats current_value)
      (decimal floats threshold_value)

unfoldable pub initial_balance_threshold_match : Floats → String → String → String → Bool
unfolding decimal_le
initial_balance_threshold_match floats rule_type current_value threshold_value =
    if str_eq rule_type balance_threshold
    then decimal_le floats current_value threshold_value
    else if str_eq rule_type high_balance_threshold
    then decimal_le floats threshold_value current_value
    else false

abbrev pub string_value : Option String → String
string_value none = ""
string_value (some s) = s

-- Whether the check of an asset rule reports the value: the first one, if it matches a threshold, and a
-- later one by the previous value.
unfoldable pub is_reported : Floats → String → Option String → String → String → Bool
unfolding should_alert_asset initial_balance_threshold_match
is_reported floats rule_type none current threshold =
    initial_balance_threshold_match floats rule_type current threshold
is_reported floats rule_type (some previous) current threshold =
    should_alert_asset floats rule_type previous current threshold
