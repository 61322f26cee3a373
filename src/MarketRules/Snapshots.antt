-- ===== src/MarketRules/Snapshots.antt =====
-- internal/marketrules/evaluator.go: the rules on snapshots of a market.
pub mod Crossing
use de_box_asset_alert.Prelude.{
  ℕ, zero, suc, ◌+◌, ◌*◌, String, Bool, true, false, not, ◌&&◌, ◌||◌, Option, none, some, List, [],
  ◌∷◌, Result, ok, err, str_eq, ◌==◌, leb, ltb, if◌then◌else◌,
}
use de_box_asset_alert.Prelude.Int.{ℤ, pos}
use de_box_asset_alert.Prelude.Strings.{show_ℕ}
use de_box_asset_alert.Prelude.Rat.{
  Rat, leb_ℚ, is_nonpos_ℚ, add_ℚ, neg_ℚ, quo_ℚ, of_ℕ, decimal_string, concat,
}
use de_box_asset_alert.Plans.RuleTypes.{
  market_price_above, market_price_below, market_price_increase, market_price_decrease,
  market_liquidity_below, market_liquidity_decrease, market_volume_above, market_volume_spike,
  market_trade_imbalance,
}
use de_box_asset_alert.MarketRules.Types.{
  Rule, RuleState, Project, Snapshot, Trigger, of_snapshot, EvaluationError, invalid_threshold,
}
use de_box_asset_alert.MarketRules.Values.{
  default_window, cooldown_active, snapshot_note, rat, pointer_rat, percent_change,
}

unfoldable pub is_snapshot_rule : String → Bool
is_snapshot_rule t =
    str_eq t market_price_above
    || (str_eq t market_price_below
        || (str_eq t market_price_increase
            || (str_eq t market_price_decrease
                || (str_eq t market_liquidity_below
                    || (str_eq t market_liquidity_decrease
                        || (str_eq t market_volume_above
                            || (str_eq t market_volume_spike
                                || str_eq t market_trade_imbalance)))))))

unfoldable pub repeats_while_condition_active : Rule → Bool
repeats_while_condition_active r =
    r.repeat_while_active
    && (str_eq r.rule_type market_price_increase
        || (str_eq r.rule_type market_price_decrease
            || (str_eq r.rule_type market_liquidity_decrease
                || (str_eq r.rule_type market_volume_above
                    || (str_eq r.rule_type market_volume_spike
                        || str_eq r.rule_type market_trade_imbalance)))))

-- The first of the older snapshots, newest first, that is a window or more before the latest.
unfoldable pub baseline_before : ℕ → ℕ → List Snapshot → Option Snapshot
baseline_before latest_at window [] = none
baseline_before latest_at window (s ∷ older) =
    let rest = baseline_before latest_at window older in
    if leb (s.captured_at + window) latest_at then some s else rest

unfoldable pub snapshot_baseline : Snapshot → List Snapshot → Option ℤ → Option Snapshot
unfolding baseline_before default_window
snapshot_baseline latest older window =
    baseline_before latest.captured_at (default_window window 60 * 60) older

unfoldable pub snapshot_volume : Snapshot → Option ℤ → Option String
unfolding default_window
snapshot_volume s window =
    let minutes = default_window window 60 in
    if leb minutes 5
    then s.volume_5m_usd
    else if leb minutes 15
    then s.volume_15m_usd
    else if leb minutes 60
    then s.volume_1h_usd
    else if leb minutes 360
    then s.volume_6h_usd
    else s.volume_24h_usd

-- Both counts, where both are there.
abbrev both_counts : Option ℕ → Option ℕ → Option (ℕ × ℕ)
both_counts (some b) (some s) = some (b, s)
both_counts (some b) none = none
both_counts none s = none

-- The counts, if the window is short enough for them, or else the next ones.
abbrev counts_or : Bool → Option (ℕ × ℕ) → Option (ℕ × ℕ) → Option (ℕ × ℕ)
counts_or true (some p) next = some p
counts_or true none next = next
counts_or false p next = next

unfoldable pub snapshot_trades : Snapshot → Option ℤ → Option (ℕ × ℕ)
unfolding default_window
snapshot_trades s window =
    let minutes = default_window window 60 in
    counts_or (leb minutes 5) (both_counts s.buys_5m s.sells_5m) (
      counts_or (leb minutes 60) (both_counts s.buys_1h s.sells_1h)
        (both_counts s.buys_24h s.sells_24h))

-- What a snapshot says of the condition of a rule.
pub record Reading : Type 0 where
  pub current : Option String
  pub previous : Option String
  pub condition : Bool

module _ (set_string : String → Option Rat) where
  -- The sum and the number of the volumes that can be read, of the first `left` of them.
  volume_total : ℕ → Option ℤ → List Snapshot → Rat × ℕ
  unfolding snapshot_volume
  volume_total left window [] = (of_ℕ 0, 0)
  volume_total zero window (s ∷ older) = (of_ℕ 0, 0)
  volume_total (suc left) window (s ∷ older) =
      elim (pointer_rat set_string (snapshot_volume s window)) [
        | none ↦ volume_total (suc left) window older
        | some v ↦ let (total, n) = volume_total left window older in (add_ℚ v total, suc n)
      ]

  average_of : Rat × ℕ → Option Rat
  average_of (total, zero) = none
  average_of (total, suc n) = some (quo_ℚ total (of_ℕ (suc n)))

  -- The average of the first 12 volumes that can be read.
  unfoldable pub historical_volume_average : List Snapshot → Option ℤ → Option Rat
  unfolding volume_total average_of
  historical_volume_average older window = average_of (volume_total 12 window older)

  -- A reading of a text that holds a number, or none.
  reading_of : Option String → (Rat → Bool) → Option Reading
  reading_of current test = elim (pointer_rat set_string current) [
    | none ↦ none
    | some v ↦ some (record { current = current; previous = none; condition = test v })
  ]

  -- The change of a text against the same text of the baseline.
  change_of :
      (Snapshot → Option String) → (Rat → Rat) → Rat → Snapshot → Option Snapshot → Option Reading
  unfolding percent_change
  change_of value turn threshold latest none = none
  change_of value turn threshold latest (some base) =
      elim (percent_change set_string (value latest) (value base)) [
        | none ↦ none
        | some change ↦ some (record {
          current = some (decimal_string (turn change));
          previous = value base;
          condition = leb_ℚ threshold (turn change);
        })
      ]

  spike_of : Rat → Option Rat → Option Rat → Option Reading
  spike_of threshold (some v) (some average) =
      if is_nonpos_ℚ average
      then none
      else (let ratio = quo_ℚ v average in
          some (record {
            current = some (decimal_string ratio);
            previous = some (decimal_string average);
            condition = leb_ℚ threshold ratio;
          }))
  spike_of threshold (some v) none = none
  spike_of threshold none average = none

  imbalance_of : Rat → Option (ℕ × ℕ) → Option Reading
  imbalance_of threshold none = none
  imbalance_of threshold (some (buys, sells)) =
      let dominant = if ltb buys sells then sells else buys in
      let percent = quo_ℚ (of_ℕ (dominant * 100)) (of_ℕ (buys + sells)) in
      if buys + sells == 0
      then none
      else some (record {
        current = some (decimal_string percent);
        previous = none;
        condition = leb_ℚ threshold percent;
      })

  -- The switch on the type of the rule, at a threshold.
  pub reading_at : Rule → Snapshot → List Snapshot → Rat → Option Reading
  unfolding reading_of change_of spike_of imbalance_of snapshot_baseline snapshot_volume
      snapshot_trades historical_volume_average
  reading_at r latest older threshold =
      let t = r.rule_type in
      let base = snapshot_baseline latest older r.window_minutes in
      if str_eq t market_price_above
      then reading_of latest.price_usd (λ v. leb_ℚ threshold v)
      else if str_eq t market_price_below
      then reading_of latest.price_usd (λ v. leb_ℚ v threshold)
      else if str_eq t market_liquidity_below
      then reading_of latest.liquidity_usd (λ v. leb_ℚ v threshold)
      else if str_eq t market_price_increase
      then change_of (λ s. s.price_usd) (λ c. c) threshold latest base
      else if str_eq t market_price_decrease
      then change_of (λ s. s.price_usd) neg_ℚ threshold latest base
      else if str_eq t market_liquidity_decrease
      then change_of (λ s. s.liquidity_usd) neg_ℚ threshold latest base
      else if str_eq t market_volume_above
      then reading_of (snapshot_volume latest r.window_minutes) (λ v. leb_ℚ threshold v)
      else if str_eq t market_volume_spike
      then spike_of threshold (pointer_rat set_string (snapshot_volume latest r.window_minutes))
          (historical_volume_average older r.window_minutes)
      else if str_eq t market_trade_imbalance
      then imbalance_of threshold (snapshot_trades latest r.window_minutes)
      else none

  -- No reading means that the condition is not available.
  unfoldable pub snapshot_condition :
      Rule → Snapshot → List Snapshot → Result EvaluationError (Option Reading)
  unfolding reading_at
  snapshot_condition r latest older = elim (rat set_string r.threshold_value) [
    | none ↦ err invalid_threshold
    | some threshold ↦ ok (reading_at r latest older threshold)
  ]

-- What an evaluation of a snapshot rule returns beside an error.
pub record SnapshotOutcome : Type 0 where
  pub trigger : Option Trigger
  pub active : Bool
  pub pending : Bool
  pub evaluated : Bool

-- The crossing, or the repetition, that waits for the end of the cooldown.
unfoldable pub is_pending_after : Rule → Snapshot → RuleState → ℕ → Bool → Bool
unfolding repeats_while_condition_active cooldown_active
is_pending_after r latest state now condition =
    let crossed = condition && not state.condition_active in
    let repeat_ready =
      condition
      && (state.condition_active
          && (repeats_while_condition_active r
              && (not (latest.id == state.last_snapshot_id) && not (cooldown_active r now)))) in
    condition && (state.pending_crossing || (crossed || repeat_ready))

unfoldable pub snapshot_trigger : Rule → Project → Snapshot → Reading → Trigger
unfolding snapshot_note
snapshot_trigger r p latest reading = record {
  event = none;
  event_type = r.rule_type;
  event_key = concat ("snapshot:" ∷ show_ℕ latest.id ∷ ":" ∷ r.rule_type ∷ []);
  previous_value = reading.previous;
  current_value = reading.current;
  note = snapshot_note r p reading.current;
  details = of_snapshot latest.id r.rule_type r.threshold_value r.threshold_unit r.window_minutes;
  occurred_at = latest.captured_at;
}

unfoldable pub decide_snapshot :
    Rule → Project → Snapshot → RuleState → ℕ → Option Reading → SnapshotOutcome
unfolding is_pending_after snapshot_trigger cooldown_active
decide_snapshot r p latest state now none = record {
  trigger = none;
  active = false;
  pending = false;
  evaluated = true;
}
decide_snapshot r p latest state now (some reading) =
    let pending = is_pending_after r latest state now reading.condition in
    if not pending || cooldown_active r now
    then record { trigger = none; active = reading.condition; pending = pending; evaluated = true }
    else record {
      trigger = some (snapshot_trigger r p latest reading);
      active = reading.condition;
      pending = false;
      evaluated = true;
    }

module _ (set_string : String → Option Rat) where
  unfoldable pub evaluate_snapshot_rule :
      Rule → Project → List Snapshot → RuleState → ℕ → Result EvaluationError SnapshotOutcome
  unfolding snapshot_condition decide_snapshot
  evaluate_snapshot_rule r p [] state now = ok (record {
    trigger = none;
    active = state.condition_active;
    pending = state.pending_crossing;
    evaluated = false;
  })
  evaluate_snapshot_rule r p (latest ∷ older) state now =
      elim (snapshot_condition set_string r latest older) [
        | err e ↦ err e
        | ok reading ↦ ok (decide_snapshot r p latest state now reading)
      ]
