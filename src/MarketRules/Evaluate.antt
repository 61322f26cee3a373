-- ===== src/MarketRules/Evaluate.antt =====
-- internal/marketrules/evaluator.go: the evaluation of a rule, and the state that it leaves.
use de_box_asset_alert.Prelude.{
  String, Option, none, some, List, [], ◌∷◌, Result, ok, err, str_eq, if◌then◌else◌,
}
use de_box_asset_alert.Prelude.Rat.{Rat}
use de_box_asset_alert.Plans.RuleTypes.{market_four_meme_progress}
use de_box_asset_alert.MarketRules.Types.{
  RuleState, Snapshot, Trigger, Evaluation, EvaluationInput, EvaluationError,
}
use de_box_asset_alert.MarketRules.Snapshots.{
  is_snapshot_rule, evaluate_snapshot_rule, SnapshotOutcome,
}
use de_box_asset_alert.MarketRules.Events.{eligible_snapshots, eligible_events, holder_index}
use de_box_asset_alert.MarketRules.Events.Scan.{Scan, evaluate_event_rule}
use de_box_asset_alert.MarketRules.Progress.{ProgressOutcome, evaluate_progress_rule}

-- The state after the evaluation of a snapshot rule on the latest snapshot.
unfoldable pub after_snapshot : Snapshot → RuleState → SnapshotOutcome → RuleState
after_snapshot latest state outcome = record {
  last_snapshot_id = latest.id;
  last_event_id = state.last_event_id;
  condition_active = outcome.active;
  pending_crossing = outcome.pending;
}

one_trigger : Option Trigger → List Trigger
one_trigger none = []
one_trigger (some t) = t ∷ []

-- Without a snapshot nothing is evaluated, and the state is left as it is.
unfoldable pub conclude_snapshot : List Snapshot → RuleState → SnapshotOutcome → Evaluation
unfolding after_snapshot one_trigger
conclude_snapshot [] state outcome = record {
  state = state;
  triggers = one_trigger outcome.trigger;
  suppressed = [];
}
conclude_snapshot (latest ∷ older) state outcome = record {
  state = after_snapshot latest state outcome;
  triggers = one_trigger outcome.trigger;
  suppressed = [];
}

unfoldable pub after_progress : RuleState → ProgressOutcome → Evaluation
after_progress state outcome = record {
  state = record {
    last_snapshot_id = state.last_snapshot_id;
    last_event_id = outcome.cursor;
    condition_active = outcome.active;
    pending_crossing = outcome.pending;
  };
  triggers = outcome.triggers;
  suppressed = [];
}

unfoldable pub after_scan : RuleState → Scan → Evaluation
after_scan state outcome = record {
  state = record {
    last_snapshot_id = state.last_snapshot_id;
    last_event_id = outcome.cursor;
    condition_active = state.condition_active;
    pending_crossing = state.pending_crossing;
  };
  triggers = outcome.triggers;
  suppressed = outcome.suppressed;
}

module _ (set_string : String → Option Rat) where
  snapshot_evaluation : EvaluationInput → Result EvaluationError Evaluation
  unfolding eligible_snapshots evaluate_snapshot_rule conclude_snapshot
  snapshot_evaluation input =
      let snapshots = eligible_snapshots input in
      let state = input.rule.state in
      elim (evaluate_snapshot_rule set_string input.rule input.project snapshots state input.now) [
        | err e ↦ err e
        | ok outcome ↦ ok (conclude_snapshot snapshots state outcome)
      ]

  progress_evaluation : EvaluationInput → Result EvaluationError Evaluation
  unfolding eligible_events evaluate_progress_rule after_progress
  progress_evaluation input =
      let state = input.rule.state in
      elim (evaluate_progress_rule set_string input.rule input.project (eligible_events input) state
        input.now) [ err e ↦ err e | ok outcome ↦ ok (after_progress state outcome) ]

  unfoldable pub event_evaluation : EvaluationInput → Evaluation
  unfolding eligible_snapshots eligible_events holder_index evaluate_event_rule after_scan
  event_evaluation input =
      let state = input.rule.state in
      after_scan state (
        evaluate_event_rule set_string input.rule input.project (eligible_snapshots input)
          (eligible_events input) (holder_index input.holders input.labels) state.last_event_id
          input.now)

  unfoldable pub evaluate : EvaluationInput → Result EvaluationError Evaluation
  unfolding is_snapshot_rule snapshot_evaluation progress_evaluation event_evaluation
  evaluate input =
      if is_snapshot_rule input.rule.rule_type
      then snapshot_evaluation input
      else if str_eq input.rule.rule_type market_four_meme_progress
      then progress_evaluation input
      else ok (event_evaluation input)
