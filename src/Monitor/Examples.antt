-- ===== src/Monitor/Examples.antt =====
-- A rule of a low threshold of the free plan, and what the chain and the messenger answer.
use de_box_asset_alert.Prelude.{
  ℕ, ◌+◌, ◌≤◌, String, true, false, not, Option, none, some, [], ◌∷◌, ok, map, length, exists, find,
  inl, ◌≡◌, refl, trim_space, to_lower, arith, count,
}
use de_box_asset_alert.Prelude.Int.{pos}
use de_box_asset_alert.Prelude.Rat.{Rat, of_ℕ}
use de_box_asset_alert.Chain.Hex.{read_natural}
use de_box_asset_alert.Plans.Catalog.{Catalog, make_free, make_standard, make_professional, get}
use de_box_asset_alert.Store.Tables.{WatchRule, active}
use de_box_asset_alert.Store.Examples.{rule_of}
use de_box_asset_alert.Alerts.Tables.{AlertDb}
use de_box_asset_alert.Alerts.Events.{count_daily_alert_events}
use de_box_asset_alert.Alerts.Enabled.{list_enabled_watch_rules}
use de_box_asset_alert.Monitor.Conditions.{Floats}
use de_box_asset_alert.Monitor.Crossings.{rises, is_past}
use de_box_asset_alert.Monitor.Texts.{alert_text, alert_text-tags}
use de_box_asset_alert.Monitor.Tags.{tag_count}
use de_box_asset_alert.Monitor.Check.{World, State}
use de_box_asset_alert.Monitor.Effects.{is_quiet}
use de_box_asset_alert.Monitor.Trigger.Realtime.{unsettled, arrived}
use de_box_asset_alert.Monitor.Rules.{plan_of, rule_allowed_by_plan, limit_of, check_rule}
use de_box_asset_alert.Monitor.Limits.{today}
use de_box_asset_alert.Monitor.Safety.{CheckEffect, check_rule-CheckEffect, check_rule-within_limit}
use de_box_asset_alert.Monitor.Observed.{Observes, row_of, run_checks, run_checks-rises}
use de_box_asset_alert.Monitor.Cycle.{check_all, check_all-accounts}

number : Option ℕ → Option Rat
number none = none
number (some n) = some (of_ℕ n)

abbrev exact : Floats
exact = record { parse = λ s. number (read_natural 10 s); round = λ r. r }

abbrev deployed : Catalog
deployed = record {
  free_plan = make_free "USDT";
  standard_plan = make_standard "5" 30 "USDT";
  professional_plan = make_professional "USDT";
}

-- The chain tells this balance of every asset, and every message arrives.
abbrev telling : String → World
telling value = record {
  balance = λ wallet token chain fallback. ok (record { value = value; symbol = "BNB" });
  token_allowance = λ wallet token spender chain fallback. ok value;
  latest_interaction =
      λ wallet target chain fallback. ok (record { cursor = value; matched = true });
  send_notification = λ chat_id chat_type text. ok "m1";
  send_with_action = none;
  now = 1000;
  day_in = λ timezone t. t;
  floats = exact;
  catalog = deployed;
  default_chain_key = "bsc";
  public_app_url = "";
}

abbrev low : WatchRule
low = record (rule_of 8 "0xW1" active "") { rule_type = "balance_threshold"; threshold = "10" }

abbrev tables : AlertDb
tables = record {
  watch_rules = low ∷ [];
  subscriptions = [];
  user_preferences = record { debox_user_id = "ann"; free_watch_rule_id = some 8 } ∷ [];
  combinations = [];
  combination_members = [];
  alert_events = [];
  windows = [];
  window_members = [];
  trigger_events = [];
  notifications = [];
  next_id = 20;
}

abbrev start : State
start = record { db = tables; messages = [] }

has_free : (value : String) → plan_of (telling value) "free" ≡ ok (make_free "USDT")
unfolding plan_of get make_free to_lower trim_space
has_free value = refl

free_allows : rule_allowed_by_plan low (make_free "USDT") ≡ none
unfolding rule_allowed_by_plan make_free exists
free_allows = refl

tells :
    (value : String)
    → Observes exact "0xW1" "" "bsc" "free" (make_free "USDT") (telling value) value
tells value = record {
  has_plan = has_free value;
  current = record { value = value; symbol = "BNB" };
  balance = refl;
  same_value = refl;
  same_floats = refl;
}

low_found : row_of 8 tables ≡ some low
unfolding find
low_found = refl

run_checks-rises_example :
    map is_quiet (run_checks (telling "12" ∷ telling "9" ∷ telling "8" ∷ []) "free" 8 start)
    ≡ map not (rises false (map (is_past exact "balance_threshold" "10") ("12" ∷ "9" ∷ "8" ∷ [])))
run_checks-rises_example =
    run_checks-rises exact low "free" (make_free "USDT") start
      (telling "12" ∷ telling "9" ∷ telling "8" ∷ []) ("12" ∷ "9" ∷ "8" ∷ [])
      (tells "12", (tells "9", (tells "8", tt))) low_found free_allows refl (inl refl)

check_rule-CheckEffect_example : CheckEffect start (check_rule (telling "9") low "free" start)
check_rule-CheckEffect_example =
    check_rule-CheckEffect (telling "9") low "free" (make_free "USDT") start (has_free "9")

five_a_day : limit_of (make_free "USDT") ≡ some 5
unfolding limit_of make_free
five_a_day = refl

none_today : today (telling "9") low tables ≤ 5
unfolding count_daily_alert_events count
none_today = omega arith

check_rule-within_limit_example :
    today (telling "9") low (check_rule (telling "9") low "free" start).1.db ≤ 5
check_rule-within_limit_example =
    check_rule-within_limit (telling "9") low "free" (make_free "USDT") start (has_free "9") 5
      five_a_day none_today

check_all-accounts_example :
    ((check_all (λ r. telling "9") (pos 100) 1000 start).0.checked
      ≡ length (list_enabled_watch_rules (pos 100) 1000 tables))
    × (unsettled (check_all (λ r. telling "9") (pos 100) 1000 start).1.db ≤ unsettled tables)
    × (length (check_all (λ r. telling "9") (pos 100) 1000 start).1.messages
        ≤ 0 + (check_all (λ r. telling "9") (pos 100) 1000 start).0.checked)
    × (arrived (check_all (λ r. telling "9") (pos 100) 1000 start).1.messages
        ≤ arrived []
          + (check_all (λ r. telling "9") (pos 100) 1000 start).0.alerted
          + length (check_all (λ r. telling "9") (pos 100) 1000 start).0.errors)
check_all-accounts_example = check_all-accounts (λ r. telling "9") (pos 100) 1000 start

alert_text-tags_example : tag_count (alert_text low (some "<b>1") "9" "<br/>") ≡ 7
alert_text-tags_example = alert_text-tags low (some "<b>1") "9" "<br/>"
