-- ===== src/Monitor/Crossings.antt =====
-- internal/monitor/executor.go: when the conditions on a balance alert.
use de_box_asset_alert.Prelude.{
  String, Bool, false, not, ◌&&◌, ◌≡◌, refl, Option, none, some, List, [], ◌∷◌, map, str_eq, arith,
  if◌then◌else◌,
}
use de_box_asset_alert.Prelude.Rat.{Rat, leb_ℚ, ltb_ℚ}
use de_box_asset_alert.Plans.Types.{balance_threshold, high_balance_threshold}
use de_box_asset_alert.Monitor.Conditions.{
  Floats, decimal, decimal_le, alerts_on, should_alert_asset, initial_balance_threshold_match,
  is_reported,
}

-- Of two fractions either the first is greater, or it is not.
ltb_ℚ-leb : (a b : Rat) → ltb_ℚ a b ≡ not (leb_ℚ b a)
unfolding ltb_ℚ leb_ℚ
ltb_ℚ-leb a b = ground arith

-- Which of the values observed one after another are reported.
unfoldable pub reports : Floats → String → String → Option String → List String → List Bool
unfolding is_reported
reports floats rule_type threshold previous [] = []
reports floats rule_type threshold previous (value ∷ values) =
    is_reported floats rule_type previous value threshold
    ∷ reports floats rule_type threshold (some value) values

-- Where a sequence becomes true that was not true before.
unfoldable pub rises : Bool → List Bool → List Bool
rises before [] = []
rises before (b ∷ bs) = (b && not before) ∷ rises b bs

-- Whether a value is on the side of the threshold that the rule watches.
unfoldable pub is_past : Floats → String → String → String → Bool
unfolding decimal_le
is_past floats rule_type threshold value =
    if str_eq rule_type balance_threshold
    then decimal_le floats value threshold
    else decimal_le floats threshold value

abbrev pub was_past : Floats → String → String → Option String → Bool
unfolding is_past
was_past floats rule_type threshold none = false
was_past floats rule_type threshold (some value) = is_past floats rule_type threshold value

reported_low :
    (floats : Floats) (threshold value : String) (previous : Option String)
    → is_reported floats balance_threshold previous value threshold ≡ (
        is_past floats balance_threshold threshold value
        && not (was_past floats balance_threshold threshold previous))
unfolding is_reported is_past decimal_le decimal initial_balance_threshold_match should_alert_asset
    alerts_on was_past
reported_low floats threshold value none = ground arith
reported_low floats threshold value (some previous) =
    ground (arith, ltb_ℚ-leb (decimal floats threshold) (decimal floats previous))

reported_high :
    (floats : Floats) (threshold value : String) (previous : Option String)
    → is_reported floats high_balance_threshold previous value threshold ≡ (
        is_past floats high_balance_threshold threshold value
        && not (was_past floats high_balance_threshold threshold previous))
unfolding is_reported is_past decimal_le decimal initial_balance_threshold_match should_alert_asset
    alerts_on was_past
reported_high floats threshold value none = ground arith
reported_high floats threshold value (some previous) =
    ground (arith, ltb_ℚ-leb (decimal floats previous) (decimal floats threshold))

reports_low :
    (values : List String) (floats : Floats) (threshold : String) (previous : Option String)
    → reports floats balance_threshold threshold previous values
      ≡ rises
          (was_past floats balance_threshold threshold previous)
          (map (is_past floats balance_threshold threshold) values)
unfolding reports rises is_past
reports_low [] floats threshold previous = refl
reports_low (value ∷ values) floats threshold previous =
    cc (
      reported_low floats threshold value previous,
      reports_low values floats threshold (some value),
    )

reports_high :
    (values : List String) (floats : Floats) (threshold : String) (previous : Option String)
    → reports floats high_balance_threshold threshold previous values
      ≡ rises
          (was_past floats high_balance_threshold threshold previous)
          (map (is_past floats high_balance_threshold threshold) values)
unfolding reports rises is_past
reports_high [] floats threshold previous = refl
reports_high (value ∷ values) floats threshold previous = cc (
  reported_high floats threshold value previous,
  reports_high values floats threshold (some value),
)

-- A rule of a low threshold reports, of the balances observed one after another, those at which the
-- balance comes to be at or below the threshold, the first one included if it is there; a rule of a
-- high threshold likewise those at which it comes to be at or above.
pub reports-rises :
    (floats : Floats) (threshold : String) (values : List String)
    → (reports floats balance_threshold threshold none values
        ≡ rises false (map (is_past floats balance_threshold threshold) values))
      × (reports floats high_balance_threshold threshold none values
          ≡ rises false (map (is_past floats high_balance_threshold threshold) values))
unfolding was_past
reports-rises floats threshold values =
    (reports_low values floats threshold none, reports_high values floats threshold none)
