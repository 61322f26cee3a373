-- ===== src/MarketRules/Repeated.antt =====
-- internal/marketrules/evaluator.go: an evaluation that follows another one on the same rows.
use de_box_asset_alert.Prelude.{
  ℕ, ◌≤◌, false, ◌≡◌, ap, ◌∙◌, Option, [], String, ok, str_eq, count, ◌==◌,
}
use de_box_asset_alert.Prelude.Rat.{Rat}
use de_box_asset_alert.Plans.RuleTypes.{market_four_meme_progress}
use de_box_asset_alert.MarketRules.Types.{Rule, RuleState, Evaluation, EvaluationInput}
use de_box_asset_alert.MarketRules.Snapshots.{is_snapshot_rule}
use de_box_asset_alert.MarketRules.Events.{
  event_pool, eligible_snapshots, eligible_events, holder_index,
}
use de_box_asset_alert.MarketRules.Events.Cursor.{event_rule-again}
use de_box_asset_alert.MarketRules.Events.Eligible.{eligible_events-AreIncreasing}
use de_box_asset_alert.MarketRules.Evaluate.{after_scan, event_evaluation, evaluate}

abbrev with_state : RuleState → Rule → Rule
with_state state r = record r { state = state }

-- The same rows at a later time, with the state that an evaluation left.
abbrev pub evaluated_again : EvaluationInput → Evaluation → ℕ → EvaluationInput
evaluated_again input ev now = record input { rule = with_state ev.state input.rule; now = now }

module _ (set_string : String → Option Rat) where
  evaluate-event :
      (input : EvaluationInput)
      → is_snapshot_rule input.rule.rule_type ≡ false
      → str_eq input.rule.rule_type market_four_meme_progress ≡ false
      → evaluate set_string input ≡ ok (event_evaluation set_string input)
  unfolding evaluate
  evaluate-event input s p = cc

  event_evaluation-again :
      (input : EvaluationInput) (now : ℕ)
      → ((n : ℕ) → count (λ e. e.id == n) input.events ≤ 1)
      → event_evaluation set_string (evaluated_again input (event_evaluation set_string input) now)
        ≡ record {
          state = (event_evaluation set_string input).state;
          triggers = [];
          suppressed = [];
        }
  unfolding event_evaluation after_scan eligible_snapshots eligible_events event_pool
  event_evaluation-again input now once =
      let r = with_state (event_evaluation set_string input).state input.rule in
      ap (λ s. after_scan (event_evaluation set_string input).state s)
        (event_rule-again set_string input.rule input.project (eligible_snapshots input)
          (eligible_events input) (holder_index input.holders input.labels)
          input.rule.state.last_event_id input.now (eligible_events-AreIncreasing input once) r
          input.project (eligible_snapshots input) (holder_index input.holders input.labels) now)

-- If no event id is given twice and the rule is a rule on events, other than the one on the progress,
-- an evaluation succeeds, and any later evaluation of the same rows from the state that it left
-- triggers nothing, suppresses nothing and leaves that state.
pub evaluate-again :
    (set_string : String → Option Rat) (input : EvaluationInput) (now : ℕ)
    → ((n : ℕ) → count (λ e. e.id == n) input.events ≤ 1)
    → is_snapshot_rule input.rule.rule_type ≡ false
    → str_eq input.rule.rule_type market_four_meme_progress ≡ false
    → (ev : Evaluation) × ((evaluate set_string input ≡ ok ev)
        × (evaluate set_string (evaluated_again input ev now)
            ≡ ok (record { state = ev.state; triggers = []; suppressed = [] })))
evaluate-again set_string input now once s p = (
  event_evaluation set_string input,
  (
    evaluate-event set_string input s p,
    evaluate-event set_string (evaluated_again input (event_evaluation set_string input) now) s p
        ∙ ap ok (event_evaluation-again set_string input now once),
  ),
)
