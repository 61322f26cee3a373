-- ===== src/MarketRules/Events/Matching.antt =====
-- internal/marketrules/evaluator.go: the conditions on a single event.
use de_box_asset_alert.Prelude.{
  ℕ, ◌+◌, ◌*◌, String, Bool, true, false, not, ◌&&◌, ◌||◌, Option, none, some, List, [], ◌∷◌,
  to_lower, str_eq, leb, count, if◌then◌else◌,
}
use de_box_asset_alert.Prelude.Int.{ltb_ℤ, pos}
use de_box_asset_alert.Prelude.Strings.{contains, show_ℕ}
use de_box_asset_alert.Prelude.Rat.{Rat}
use de_box_asset_alert.Plans.RuleTypes.{
  market_large_buy, market_large_sell, market_consecutive_large_buy, market_consecutive_large_sell,
  market_liquidity_added, market_liquidity_removed, market_new_pool, market_holder_increase,
  market_holder_decrease, market_holder_rank_entered, market_holder_rank_exited,
  market_four_meme_large_trade, market_four_meme_progress, market_four_meme_migration,
}
use de_box_asset_alert.MarketRules.Types.{Rule, Project, Snapshot, Event, Metadata}
use de_box_asset_alert.MarketRules.Values.{
  default_window, metadata_string, metadata_contains, metadata_decimal, reaches,
  rank_within_threshold, ratio_percent, market_event_note,
}
use de_box_asset_alert.MarketRules.Events.{HolderIndex, tracked}

-- What a condition returns of an event that matches.
pub record Match : Type 0 where
  pub value : Option String
  pub note : String
  pub details : Metadata

-- `return true, value, marketEventNote(rule, project, event, value), event.Metadata`
matched : Rule → Project → Event → Option String → Match
unfolding market_event_note
matched r p e value = record {
  value = value;
  note = market_event_note r p e value;
  details = e.metadata;
}

unfoldable pub matched_if : Bool → Rule → Project → Event → Option String → Option Match
unfolding matched
matched_if test r p e value = if test then some (matched r p e value) else none

abbrev is_some : Option String → Bool
is_some none = false
is_some (some s) = true

module _ (set_string : String → Option Rat) where
  ratio_of : Option String → Option String → Option (Option String)
  ratio_of (some a) (some b) = some (ratio_percent set_string a b)
  ratio_of (some a) none = none
  ratio_of none b = none

  -- The liquidity of the latest snapshot.
  abbrev latest_liquidity : List Snapshot → Option String
  latest_liquidity [] = none
  latest_liquidity (s ∷ older) = s.liquidity_usd

  first_ratio : Option (Option String) → Option (Option String) → Option String
  first_ratio (some ratio) next = ratio
  first_ratio none (some ratio) = ratio
  first_ratio none none = none

  unfoldable pub event_value : Rule → Project → List Snapshot → Event → Option String
  unfolding ratio_of first_ratio contains metadata_decimal
  event_value r p snapshots e =
      if str_eq r.threshold_unit "token"
      then e.token_amount
      else if str_eq r.threshold_unit "percent"
      then first_ratio
          (if contains r.rule_type "holder"
            then ratio_of e.token_amount_raw p.total_supply_raw
            else none)
          (ratio_of e.usd_value (latest_liquidity snapshots))
      else if str_eq r.threshold_unit "count"
      then some "1"
      else if str_eq r.threshold_unit "progress"
      then metadata_decimal set_string e.metadata "progress_percent"
      else e.usd_value

  unfoldable pub event_threshold_match : Rule → Project → List Snapshot → Event → Bool
  unfolding event_value reaches
  event_threshold_match r p snapshots e =
      reaches set_string (event_value r p snapshots e) r.threshold_value

  -- A candidate is none of the events after the current one, and within the window before it.
  unfoldable pub is_candidate : Rule → Event → String → Event → Bool
  unfolding default_window
  is_candidate r current direction e =
      leb e.id current.id
      && (str_eq e.event_type direction
          && (leb current.occurred_at (e.occurred_at + default_window r.window_minutes 15 * 60)
              && leb e.occurred_at current.occurred_at))

  unfoldable pub consecutive_count :
      Rule → Project → List Snapshot → List Event → Event → String → ℕ
  unfolding event_threshold_match is_candidate count
  consecutive_count r p snapshots events current direction =
      count (λ e. is_candidate r current direction e && event_threshold_match r p snapshots e)
        events

  abbrev lowered : Option String → String
  lowered none = ""
  lowered (some address) = to_lower address

  holder_address : Event → String
  unfolding metadata_string
  holder_address e =
      let wallet = lowered e.wallet_address in
      if str_eq wallet "" then metadata_string e.metadata "holder_address" else wallet

  rank_match : Rule → Project → Event → Option String → Option Match
  unfolding matched_if rank_within_threshold
  rank_match r p e rank =
      matched_if (is_some rank && rank_within_threshold set_string rank r.threshold_value) r p e
        rank

  -- The type of an event that a rule on an increase or a decrease is about, with the tracked side
  -- of a transfer.
  holder_direction_match : Rule → Event → HolderIndex → Bool
  unfolding metadata_string
  holder_direction_match r e holders =
      let decrease = str_eq r.rule_type market_holder_decrease in
      let side = if decrease then "from_address" else "to_address" in
      let expected = if decrease then "holder_decrease" else "holder_increase" in
      if str_eq e.event_type "holder_increase" || str_eq e.event_type "holder_decrease"
      then str_eq e.event_type expected
      else if str_eq e.event_type "token_transfer"
      then tracked holders (metadata_string e.metadata side)
      else false

  unfoldable pub holder_event_condition : Rule → Project → Event → HolderIndex → Option Match
  unfolding holder_address rank_match holder_direction_match metadata_decimal matched_if
      event_threshold_match event_value
  holder_event_condition r p e holders =
      if not (tracked holders (holder_address e))
      then none
      else if str_eq r.rule_type market_holder_rank_entered
      then (if str_eq e.event_type "holder_rank_entered"
          then rank_match r p e (metadata_decimal set_string e.metadata "new_rank")
          else none)
      else if str_eq r.rule_type market_holder_rank_exited
      then (if str_eq e.event_type "holder_rank_exited"
          then rank_match r p e (metadata_decimal set_string e.metadata "old_rank")
          else none)
      else matched_if (holder_direction_match r e holders && event_threshold_match r p [] e) r p e
          (event_value r p [] e)

  progress_match : Rule → Project → Event → Option Match
  unfolding metadata_decimal metadata_contains matched_if reaches
  progress_match r p e =
      let progress = metadata_decimal set_string e.metadata "progress_percent" in
      matched_if
        (is_some progress
          && (metadata_contains e.metadata "protocol" "four_meme"
              && reaches set_string progress r.threshold_value))
        r p e progress

  consecutive_match : Rule → Project → List Snapshot → List Event → Event → Option Match
  unfolding consecutive_count event_threshold_match matched_if show_ℕ
  consecutive_match r p snapshots events e =
      let direction = if str_eq r.rule_type market_consecutive_large_sell then "sell" else "buy" in
      let n = consecutive_count r p snapshots events e direction in
      matched_if
        (str_eq e.event_type direction
          && (event_threshold_match r p snapshots e
              && not (ltb_ℤ (pos n) r.trigger_count_threshold)))
        r p e (some (show_ℕ n))

  -- The event type that a rule type asks for, where it asks for one.
  abbrev matched_type : String → String
  matched_type t =
      if str_eq t market_large_buy
      then "buy"
      else if str_eq t market_large_sell
      then "sell"
      else if str_eq t market_liquidity_added
      then "liquidity_added"
      else if str_eq t market_liquidity_removed
      then "liquidity_removed"
      else if str_eq t market_new_pool
      then "pool_initialized"
      else if str_eq t market_four_meme_migration
      then "migrated"
      else ""

  -- The rule types whose value must reach the threshold.
  abbrev needs_threshold : String → Bool
  needs_threshold t =
      str_eq t market_large_buy
      || (str_eq t market_large_sell
          || (str_eq t market_four_meme_large_trade
              || (str_eq t market_liquidity_added || str_eq t market_liquidity_removed)))

  -- What the switch lets through to the test of the event type.
  is_large_trade : String → Event → Bool
  unfolding metadata_contains
  is_large_trade t e =
      not (str_eq t market_four_meme_large_trade)
      || ((str_eq e.event_type "buy" || str_eq e.event_type "sell")
          && metadata_contains e.metadata "protocol" "four_meme")

  typed_match : Rule → Project → List Snapshot → Event → Option Match
  unfolding is_large_trade event_threshold_match event_value matched_if
  typed_match r p snapshots e =
      let t = r.rule_type in
      matched_if
        (is_large_trade t e
          && ((str_eq (matched_type t) "" || str_eq e.event_type (matched_type t))
              && (not (needs_threshold t) || event_threshold_match r p snapshots e)))
        r p e (event_value r p snapshots e)

  is_holder_rule : String → Bool
  is_holder_rule t =
      str_eq t market_holder_increase
      || (str_eq t market_holder_decrease
          || (str_eq t market_holder_rank_entered || str_eq t market_holder_rank_exited))

  unfoldable pub event_condition :
      Rule → Project → List Snapshot → List Event → Event → HolderIndex → Option Match
  unfolding progress_match is_holder_rule holder_event_condition consecutive_match typed_match
  event_condition r p snapshots events e holders =
      let t = r.rule_type in
      if str_eq t market_four_meme_progress
      then progress_match r p e
      else if is_holder_rule t
      then holder_event_condition r p e holders
      else if str_eq t market_consecutive_large_buy || str_eq t market_consecutive_large_sell
      then consecutive_match r p snapshots events e
      else typed_match r p snapshots e
