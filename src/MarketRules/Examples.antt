-- ===== src/MarketRules/Examples.antt =====
-- The theorems on the rules of markets, at a rule on large buys and at a rule on the price.
use de_box_asset_alert.Prelude.{
  ℕ, ◌≤◌, String, true, false, not, ◌&&◌, ◌≡◌, refl, Option, none, some, List, [], ◌∷◌, map, ok,
  str_eq, trim_space, All, length, count, exists, ◌==◌, arith, if◌then◌else◌,
}
use de_box_asset_alert.Prelude.Int.{pos, ltb_ℤ}
use de_box_asset_alert.Prelude.Rat.{Rat, leb_ℚ}
use de_box_asset_alert.Plans.RuleTypes.{
  market_large_buy, market_price_above, market_four_meme_progress,
}
use de_box_asset_alert.MarketRules.Types.{
  Metadata, text, absent, RuleState, Rule, Project, Snapshot, Event, Holder, AddressLabel,
  EvaluationInput, Evaluation, Trigger,
}
use de_box_asset_alert.MarketRules.Values.{cooldown_active, rat}
use de_box_asset_alert.MarketRules.Snapshots.{
  is_snapshot_rule, Reading, snapshot_condition, repeats_while_condition_active,
}
use de_box_asset_alert.MarketRules.Snapshots.Crossing.{
  Observation, IsHolding, is_free, is_waiting, trigger_count, trigger_count-crossing,
}
use de_box_asset_alert.MarketRules.Events.Matching.{event_condition}
use de_box_asset_alert.MarketRules.Events.Scan.{evaluate_event_rule, Scan}
use de_box_asset_alert.MarketRules.Events.Cursor.{
  AreIncreasing, Settled, NoneLost, event_rule-Settled,
}
use de_box_asset_alert.MarketRules.Events.Delivered.{
  matches, delivered, held_back, event_rule-matches,
}
use de_box_asset_alert.MarketRules.Events.Final.{IsFinal, event_rule-AreFinal}
use de_box_asset_alert.MarketRules.Progress.{ProgressOutcome, evaluate_progress_rule}
use de_box_asset_alert.MarketRules.Progress.Candidate.{IsSound, evaluate_progress_rule-IsSound}
use de_box_asset_alert.MarketRules.Evaluate.{evaluate}
use de_box_asset_alert.MarketRules.Repeated.{evaluated_again, evaluate-again}

abbrev whole : ℕ → Option Rat
whole n = some (record { num = pos n; den = 1 })

abbrev decimal : String → Option Rat
decimal s = if str_eq s "100" then whole 100 else if str_eq s "150" then whole 150 else none

abbrev fresh : RuleState
fresh = record {
  last_snapshot_id = 0;
  last_event_id = 0;
  condition_active = false;
  pending_crossing = false;
}

abbrev large_buys : Rule
large_buys = record {
  id = 1;
  market_pool_id = none;
  rule_type = market_large_buy;
  threshold_value = "100";
  threshold_unit = "usd";
  window_minutes = none;
  cooldown_seconds = pos 60;
  repeat_while_active = false;
  trigger_count_threshold = pos 1;
  state = fresh;
  last_triggered_at = none;
}

abbrev meme : Project
meme = record { id = 1; token_symbol = "MEME"; total_supply_raw = none; main_pool_id = some 7 }

abbrev no_metadata : Metadata
no_metadata key = absent

abbrev buy : ℕ → Event
buy id = record {
  id = id;
  market_pool_id = some 7;
  event_type = "buy";
  event_key = "0x01:1";
  wallet_address = none;
  token_amount_raw = none;
  token_amount = none;
  usd_value = some "150";
  confirmed = true;
  reorged = false;
  occurred_at = 1000;
  metadata = no_metadata;
}

-- Two buys, one that is reorged, and one that is not confirmed yet.
abbrev buys : List Event
buys = buy 1 ∷ buy 2 ∷ record (buy 3) { reorged = true } ∷ record (buy 5) { confirmed = false } ∷ []

buys-AreIncreasing : AreIncreasing buys
buys-AreIncreasing = ((refl, (refl, (refl, tt))), ((refl, (refl, tt)), ((refl, tt), (tt, tt))))

abbrev run : Scan
run = evaluate_event_rule decimal large_buys meme [] buys [] 0 1010

-- The first buy is delivered, the second is in its cooldown, and the last waits.
run_delivers : (length run.triggers ≡ 1) × ((length run.suppressed ≡ 1) × (run.cursor ≡ 4))
unfolding evaluate_event_rule trim_space leb_ℚ
run_delivers = (refl, (refl, refl))

event_rule-Settled_example :
    Settled run.cursor buys × ((0 ≤ run.cursor) × NoneLost 0 run.cursor buys)
event_rule-Settled_example =
    event_rule-Settled decimal large_buys meme [] buys [] 0 1010 buys-AreIncreasing

abbrev due_buys : List Trigger
due_buys = matches (λ e. event_condition decimal large_buys meme [] buys e []) 0 run.cursor buys

event_rule-matches_example :
    (run.triggers
      ≡ delivered
          (ltb_ℤ (pos 0) large_buys.cooldown_seconds)
          (not (cooldown_active large_buys 1010))
          due_buys)
    × (map (λ u. u.trigger) run.suppressed
        ≡ held_back
            (ltb_ℤ (pos 0) large_buys.cooldown_seconds)
            (not (cooldown_active large_buys 1010))
            due_buys)
event_rule-matches_example =
    event_rule-matches decimal large_buys meme [] buys [] 0 1010 buys-AreIncreasing

event_rule-AreFinal_example :
    All (IsFinal 0 run.cursor) run.triggers
    × All (λ u. IsFinal 0 run.cursor u.trigger) run.suppressed
event_rule-AreFinal_example =
    event_rule-AreFinal decimal large_buys meme [] buys [] 0 1010 buys-AreIncreasing

abbrev input : EvaluationInput
input = record {
  rule = large_buys;
  project = meme;
  snapshots = [];
  events = buy 9 ∷ buy 2 ∷ [];
  holders = [];
  labels = [];
  now = 1010;
}

input-once : (n : ℕ) → count (λ e. e.id == n) input.events ≤ 1
unfolding count
input-once n = ground arith

large_buys-not_snapshot : is_snapshot_rule input.rule.rule_type ≡ false
unfolding is_snapshot_rule
large_buys-not_snapshot = refl

evaluate-again_example :
    (ev : Evaluation) × ((evaluate decimal input ≡ ok ev)
      × (evaluate decimal (evaluated_again input ev 2000)
          ≡ ok (record { state = ev.state; triggers = []; suppressed = [] })))
evaluate-again_example = evaluate-again decimal input 2000 input-once large_buys-not_snapshot refl

abbrev holders : List Holder
holders = record { holder_address = "0xAB"; excluded = false } ∷ []

abbrev labels : List AddressLabel
labels = record { address = "0xCD"; excluded = true } ∷ []

abbrev price_above : Rule
price_above = record large_buys { rule_type = market_price_above; last_triggered_at = some 1000 }

abbrev snapshot : Snapshot
snapshot = record {
  id = 1;
  market_pool_id = 7;
  price_usd = some "150";
  liquidity_usd = none;
  volume_5m_usd = none;
  volume_15m_usd = none;
  volume_1h_usd = none;
  volume_6h_usd = none;
  volume_24h_usd = none;
  buys_5m = none;
  sells_5m = none;
  buys_1h = none;
  sells_1h = none;
  buys_24h = none;
  sells_24h = none;
  captured_at = 1020;
}

abbrev seen_at : ℕ → Observation
seen_at now = record { rule = price_above; latest = snapshot; older = []; now = now }

-- The crossing comes in the cooldown, which ends at 1060.
abbrev observations : List Observation
observations = seen_at 1030 ∷ seen_at 1070 ∷ []

abbrev high : Reading
high = record { current = some "150"; previous = none; condition = true }

price-holds : snapshot_condition decimal price_above snapshot [] ≡ ok (some high)
unfolding snapshot_condition trim_space leb_ℚ
price-holds = refl

observations-AreHolding : All (IsHolding decimal meme) observations
unfolding repeats_while_condition_active
observations-AreHolding =
    (((high, (price-holds, refl)), refl), (((high, (price-holds, refl)), refl), tt))

trigger_count-crossing_example :
    trigger_count decimal meme fresh observations
    ≡ (if is_waiting fresh && exists is_free observations then 1 else 0)
trigger_count-crossing_example =
    trigger_count-crossing decimal meme fresh observations observations-AreHolding

abbrev bonding : Rule
bonding = record large_buys { rule_type = market_four_meme_progress; threshold_unit = "progress" }

abbrev bonding_metadata : Metadata
bonding_metadata key =
    if str_eq key "protocol"
    then text "four_meme_v1"
    else if str_eq key "progress_percent"
    then text "150"
    else absent

abbrev bonded : List Event
bonded = record (buy 1) { metadata = bonding_metadata } ∷ []

bonding-threshold : rat decimal bonding.threshold_value ≡ whole 100
unfolding trim_space
bonding-threshold = refl

evaluate_progress_rule-IsSound_example :
    (outcome : ProgressOutcome) × ((evaluate_progress_rule decimal bonding meme bonded fresh 1010
        ≡ ok outcome)
      × IsSound decimal bonding 1010 outcome)
evaluate_progress_rule-IsSound_example =
    evaluate_progress_rule-IsSound decimal bonding meme bonded fresh 1010 bonding-threshold refl
