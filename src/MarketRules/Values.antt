-- ===== src/MarketRules/Values.antt =====
-- internal/marketrules/evaluator.go: the helpers on numbers, metadata, windows and texts.
use de_box_asset_alert.Prelude.{
  ℕ, ◌+◌, String, Bool, false, ◌&&◌, Option, none, some, [], ◌∷◌, to_lower, trim_space, ltb,
  if◌then◌else◌,
}
use de_box_asset_alert.Prelude.Int.{ℤ, pos, leb_ℤ, ltb_ℤ, pos_part}
use de_box_asset_alert.Prelude.Strings.{contains}
use de_box_asset_alert.Prelude.Rat.{
  Rat, leb_ℚ, is_zero_ℚ, sub_ℚ, quo_ℚ, mul_ℚ, of_ℕ, decimal_string, concat,
}
use de_box_asset_alert.MarketRules.Types.{
  MetadataValue, text, number, Metadata, Rule, Project, Event,
}

-- `if value == nil || *value <= 0 { return fallback }`
unfoldable pub default_window : Option ℤ → ℕ → ℕ
default_window none fallback = fallback
default_window (some n) fallback = if leb_ℤ n (pos 0) then fallback else pos_part n

abbrev triggered_within : Option ℕ → ℕ → ℕ → Bool
triggered_within none seconds now = false
triggered_within (some last) seconds now = ltb now (last + seconds)

unfoldable pub cooldown_active : Rule → ℕ → Bool
cooldown_active r now =
    ltb_ℤ (pos 0) r.cooldown_seconds
    && triggered_within r.last_triggered_at (pos_part r.cooldown_seconds) now

string_of : MetadataValue → String
string_of (text s) = to_lower (trim_space s)
string_of _ = ""

unfoldable pub metadata_string : Metadata → String → String
unfolding string_of
metadata_string payload key = string_of (payload key)

unfoldable pub metadata_contains : Metadata → String → String → Bool
unfolding metadata_string
metadata_contains payload key expected = contains (metadata_string payload key) (to_lower expected)

-- A nil value prints as a dash.
abbrev string_value : Option String → String
string_value none = "-"
string_value (some s) = s

unfoldable pub snapshot_note : Rule → Project → Option String → String
snapshot_note r p current = concat (
    p.token_symbol
    ∷ " "
    ∷ r.rule_type
    ∷ "：当前 "
    ∷ string_value current
    ∷ "，阈值 "
    ∷ r.threshold_value
    ∷ " "
    ∷ r.threshold_unit
    ∷ [])

unfoldable pub market_event_note : Rule → Project → Event → Option String → String
market_event_note r p e value = concat (
    p.token_symbol
    ∷ " "
    ∷ r.rule_type
    ∷ "："
    ∷ string_value value
    ∷ " "
    ∷ r.threshold_unit
    ∷ "（"
    ∷ e.event_key
    ∷ "）"
    ∷ [])

-- The reading of a decimal by math/big is an argument.
module _ (set_string : String → Option Rat) where
  abbrev pub rat : String → Option Rat
  rat value = set_string (trim_space value)

  abbrev pub pointer_rat : Option String → Option Rat
  pointer_rat none = none
  pointer_rat (some s) = rat s

  decimal_of : MetadataValue → Option String
  decimal_of (text s) = elim (rat s) [ none ↦ none | some _ ↦ some s ]
  decimal_of (number s) = some s
  decimal_of _ = none

  unfoldable pub metadata_decimal : Metadata → String → Option String
  unfolding decimal_of
  metadata_decimal payload key = decimal_of (payload key)

  -- comparePointer(value, threshold) >= 0
  reaches_ℚ : Option Rat → Option Rat → Bool
  reaches_ℚ (some a) (some b) = leb_ℚ b a
  reaches_ℚ (some a) none = false
  reaches_ℚ none b = false

  unfoldable pub reaches : Option String → String → Bool
  unfolding reaches_ℚ
  reaches value threshold = reaches_ℚ (pointer_rat value) (rat threshold)

  -- !rankGreaterThanThreshold(rank, threshold)
  rank_ℚ : Option Rat → Option Rat → Bool
  rank_ℚ (some a) (some b) = leb_ℚ a b
  rank_ℚ (some a) none = false
  rank_ℚ none b = false

  unfoldable pub rank_within_threshold : Option String → String → Bool
  unfolding rank_ℚ
  rank_within_threshold rank threshold = rank_ℚ (pointer_rat rank) (rat threshold)

  change_ℚ : Option Rat → Option Rat → Option Rat
  change_ℚ (some a) (some b) =
      if is_zero_ℚ b then none else some (mul_ℚ (quo_ℚ (sub_ℚ a b) b) (of_ℕ 100))
  change_ℚ (some a) none = none
  change_ℚ none b = none

  unfoldable pub percent_change : Option String → Option String → Option Rat
  unfolding change_ℚ
  percent_change current previous = change_ℚ (pointer_rat current) (pointer_rat previous)

  percent_ℚ : Option Rat → Option Rat → Option String
  percent_ℚ (some a) (some b) =
      if is_zero_ℚ b then none else some (decimal_string (mul_ℚ (quo_ℚ a b) (of_ℕ 100)))
  percent_ℚ (some a) none = none
  percent_ℚ none b = none

  unfoldable pub ratio_percent : String → String → Option String
  unfolding percent_ℚ
  ratio_percent numerator denominator = percent_ℚ (rat numerator) (rat denominator)
