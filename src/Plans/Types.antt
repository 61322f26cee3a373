-- ===== src/Plans/Types.antt =====
-- internal/plans/plans.go: the codes, the rule types, a plan and its methods.
use de_box_asset_alert.Prelude.{
  ℕ, String, Bool, ◌||◌, Option, none, some, List, [], ◌∷◌, Result, ok, err, exists, find, to_lower,
  trim_space, str_eq, if◌then◌else◌,
}

abbrev pub free : String
free = "free"

abbrev pub standard : String
standard = "standard"

abbrev pub professional : String
professional = "professional"

abbrev pub monthly : String
monthly = "monthly"

abbrev pub quarterly : String
quarterly = "quarterly"

abbrev pub annual : String
annual = "annual"

abbrev pub balance_threshold : String
balance_threshold = "balance_threshold"

abbrev pub high_balance_threshold : String
high_balance_threshold = "balance_threshold_high"

abbrev pub plan_order : List String
plan_order = free ∷ standard ∷ professional ∷ []

-- The label and the description are display texts.
pub record RuleType : Type 0 where
  pub code : String
  pub label : String
  pub description : String

pub record BillingOption : Type 0 where
  pub code : String
  pub price : String
  pub days : ℕ

-- The limits and the days are Go ints; the catalog gives them non-negative values only.
pub record Plan : Type 0 where
  pub code : String
  pub name : String
  pub price : String
  pub asset : String
  pub days : ℕ
  pub billing_options : List BillingOption
  pub wallet_limit : ℕ
  pub rule_limit : ℕ
  pub group_limit : ℕ
  pub market_project_limit : ℕ
  pub daily_alert_limit : Option ℕ
  pub allowed_rule_types : List String
  pub allowed_market_rules : List String
  pub allowed_rules : List RuleType
  pub private_notification : Bool
  pub group_notification : Bool
  pub daily_summary : Bool
  pub summary_targets : List String
  pub market_query : Bool
  pub market_pool_mode : String
  pub four_meme_mode : String
  pub market_combination : Bool
  pub description : String

pub data PlanError : Type 0 where
  price_empty days_not_positive asset_empty : PlanError
  unsupported_plan unsupported_cycle : String → PlanError

-- `strings.ToLower(strings.TrimSpace(code))`, with a default for the empty text
unfoldable pub normalize_code : String → String → String
unfolding to_lower trim_space
normalize_code code default =
    let lowered = to_lower (trim_space code) in if str_eq lowered "" then default else lowered

or_unsupported_cycle : String → Option BillingOption → Result PlanError BillingOption
or_unsupported_cycle code none = err (unsupported_cycle code)
or_unsupported_cycle code (some option) = ok option

unfoldable pub find_option : String → List BillingOption → Result PlanError BillingOption
unfolding find or_unsupported_cycle
find_option code options =
    or_unsupported_cycle code (find (λ option. str_eq option.code code) options)

unfoldable pub billing_option : Plan → String → Result PlanError BillingOption
unfolding normalize_code find_option
billing_option p code = find_option (normalize_code code monthly) p.billing_options

-- The loops of the four `Allows…` methods over a list of codes.
unfoldable pub allows : List String → String → Bool
unfolding exists
allows allowed code = exists (λ a. str_eq a code) allowed

unfoldable pub allows_rule_type : Plan → String → Bool
unfolding allows
allows_rule_type p rule_type = allows p.allowed_rule_types rule_type

unfoldable pub allows_market_rule_type : Plan → String → Bool
unfolding allows
allows_market_rule_type p rule_type = allows p.allowed_market_rules rule_type

unfoldable pub allows_summary_target : Plan → String → Bool
unfolding allows
allows_summary_target p chat_type = allows p.summary_targets chat_type

unfoldable pub allows_stage_notifications : Plan → Bool
allows_stage_notifications p = str_eq p.code standard || str_eq p.code professional

unfoldable pub allows_combination_rules : Plan → Bool
allows_combination_rules p = str_eq p.code professional

unfoldable pub is_balance_threshold : String → Bool
is_balance_threshold rule_type =
    str_eq rule_type balance_threshold || str_eq rule_type high_balance_threshold
