-- ===== src/Plans/Catalog.antt =====
-- internal/plans/plans.go: the catalog, built from the configured price, days and asset.
pub mod Tiers
mod Examples
use de_box_asset_alert.Prelude.{
  ℕ, ◌<◌, String, Bool, true, false, Option, none, some, List, [], ◌∷◌, ◌++◌, Result, ok, err,
  ◌>>=◌, ◌>>◌, refuse_if, find, to_lower, trim_space, str_eq, if◌then◌else◌, map,
}
use de_box_asset_alert.Prelude.Int.{ℤ, pos, negsuc, ltb_ℤ, pos_part}
use de_box_asset_alert.Plans.Types.{
  RuleType, BillingOption, Plan, PlanError, price_empty, days_not_positive, asset_empty,
  unsupported_plan, free, standard, professional, monthly, quarterly, annual, balance_threshold,
  high_balance_threshold, plan_order, normalize_code,
}
use de_box_asset_alert.Plans.RuleTypes.{
  rule_types, balance_change, incoming, outgoing, approval_change, address_interaction,
  standard_market_rule_types, professional_market_rule_types,
}

-- The inner loop of `makePlan` with its `break`.
append_found : Option RuleType → List RuleType → List RuleType
append_found none rest = rest
append_found (some r) rest = r ∷ rest

collect_rules : List String → List RuleType
unfolding append_found find
collect_rules [] = []
collect_rules (code ∷ codes) =
    append_found (find (λ (r : RuleType). str_eq r.code code) rule_types) (collect_rules codes)

make_plan :
    String
    → String
    → String
    → String
    → ℕ
    → ℕ
    → ℕ
    → ℕ
    → Option ℕ
    → List String
    → Bool
    → Bool
    → List String
    → String
    → Plan
unfolding collect_rules
make_plan code name price asset days wallets rules groups daily allowed group summary targets text =
    record {
      code = code;
      name = name;
      price = price;
      asset = asset;
      days = days;
      billing_options = record { code = monthly; price = price; days = days } ∷ [];
      wallet_limit = wallets;
      rule_limit = rules;
      group_limit = groups;
      market_project_limit = 0;
      daily_alert_limit = daily;
      allowed_rule_types = allowed;
      allowed_market_rules = [];
      allowed_rules = collect_rules allowed;
      private_notification = true;
      group_notification = group;
      daily_summary = summary;
      summary_targets = targets;
      market_query = false;
      market_pool_mode = "";
      four_meme_mode = "";
      market_combination = false;
      description = text;
    }

-- The Go map from codes to plans has these three keys.
pub record Catalog : Type 0 where
  pub free_plan : Plan
  pub standard_plan : Plan
  pub professional_plan : Plan

free_rule_types : List String
free_rule_types =
    balance_change ∷ incoming ∷ outgoing ∷ balance_threshold ∷ high_balance_threshold ∷ []

unfoldable pub make_free : String → Plan
unfolding make_plan free_rule_types
make_free asset =
    let p =
      make_plan free "免费版" "0" asset 0 1 1 0 (some 5) free_rule_types false false []
        "1 个钱包、1 条基础规则，每日最多 5 次提醒，仅支持私聊通知。" in
    record p { market_query = true; market_pool_mode = "query"; four_meme_mode = "query" }

unfoldable pub make_standard : String → ℕ → String → Plan
unfolding make_plan free_rule_types
make_standard price days asset =
    let p =
      make_plan standard "标准版" price asset days 3 10 0 none
        (free_rule_types ++ (approval_change ∷ [])) false true ("private" ∷ [])
        "适合个人监控：3 个钱包、10 条规则，支持资产变化、Approve 监控、私聊通知和每日摘要。" in
    record p {
      market_project_limit = 1;
      allowed_market_rules = standard_market_rule_types;
      market_query = true;
      market_pool_mode = "main";
      four_meme_mode = "market";
      billing_options =
          record { code = monthly; price = p.price; days = p.days }
          ∷ record { code = quarterly; price = "14"; days = 90 }
          ∷ record { code = annual; price = "50"; days = 365 }
          ∷ [];
    }

unfoldable pub make_professional : String → Plan
unfolding make_plan free_rule_types
make_professional asset =
    let p =
      make_plan professional "专业版" "15" asset 30 20 100 5 none
        (free_rule_types ++ (approval_change ∷ address_interaction ∷ [])) true true
        ("private" ∷ "group" ∷ []) "适合项目方和社群：20 个地址、100 条规则，支持 5 个群通知、指定地址交互提醒，以及本人私聊与多群每日摘要。" in
    record p {
      market_project_limit = 5;
      allowed_market_rules = professional_market_rule_types;
      market_query = true;
      market_pool_mode = "multiple";
      four_meme_mode = "full";
      market_combination = true;
      billing_options =
          record { code = monthly; price = p.price; days = p.days }
          ∷ record { code = quarterly; price = "42"; days = 90 }
          ∷ record { code = annual; price = "150"; days = 365 }
          ∷ [];
    }

unfoldable pub new_catalog : String → ℤ → String → Result PlanError Catalog
unfolding make_free make_standard make_professional trim_space
new_catalog standard_price standard_days asset = do
  let price = trim_space standard_price
  let asset' = trim_space asset
  refuse_if (str_eq price "") price_empty
  refuse_if (ltb_ℤ standard_days (pos 1)) days_not_positive
  refuse_if (str_eq asset' "") asset_empty
  ok (record {
    free_plan = make_free asset';
    standard_plan = make_standard price (pos_part standard_days) asset';
    professional_plan = make_professional asset';
  })

-- `c.plans[code]`
unfoldable pub plan_at : Catalog → String → Option Plan
plan_at c code =
    if str_eq code free
    then some c.free_plan
    else if str_eq code standard
    then some c.standard_plan
    else if str_eq code professional
    then some c.professional_plan
    else none

-- A copy has its own slices, so that callers cannot write to the catalog's.
clone_plan : Plan → Plan
clone_plan p = record p {
  allowed_rule_types = [] ++ p.allowed_rule_types;
  allowed_market_rules = [] ++ p.allowed_market_rules;
  allowed_rules = [] ++ p.allowed_rules;
  billing_options = [] ++ p.billing_options;
  summary_targets = [] ++ p.summary_targets;
  daily_alert_limit = elim p.daily_alert_limit [ none ↦ none | some value ↦ some value ];
}

or_unsupported : String → Option Plan → Result PlanError Plan
unfolding clone_plan
or_unsupported code none = err (unsupported_plan code)
or_unsupported code (some p) = ok (clone_plan p)

unfoldable pub get : Catalog → String → Result PlanError Plan
unfolding normalize_code plan_at or_unsupported
get c code = let key = normalize_code code standard in or_unsupported key (plan_at c key)

-- `Plan{}`
zero_plan : Plan
zero_plan = record {
  code = "";
  name = "";
  price = "";
  asset = "";
  days = 0;
  billing_options = [];
  wallet_limit = 0;
  rule_limit = 0;
  group_limit = 0;
  market_project_limit = 0;
  daily_alert_limit = none;
  allowed_rule_types = [];
  allowed_market_rules = [];
  allowed_rules = [];
  private_notification = false;
  group_notification = false;
  daily_summary = false;
  summary_targets = [];
  market_query = false;
  market_pool_mode = "";
  four_meme_mode = "";
  market_combination = false;
  description = "";
}

-- `plan, _ := c.Get(code)`: the error is ignored, and its plan is the zero plan.
plan_or_zero : Result PlanError Plan → Plan
unfolding zero_plan
plan_or_zero (ok p) = p
plan_or_zero (err _) = zero_plan

plans_of : Catalog → List String → List Plan
unfolding plan_or_zero get
plans_of c [] = []
plans_of c (code ∷ codes) = plan_or_zero (get c code) ∷ plans_of c codes

unfoldable pub public_plans : Catalog → List Plan
unfolding plans_of
public_plans c = plans_of c plan_order

unfoldable pub public_rule_types : List RuleType
public_rule_types = [] ++ rule_types
