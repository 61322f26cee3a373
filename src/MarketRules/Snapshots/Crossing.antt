-- ===== src/MarketRules/Snapshots/Crossing.antt =====
-- internal/marketrules/evaluator.go: the crossings of a snapshot rule over a run of evaluations.
use de_box_asset_alert.Prelude.{
  ℕ, ◌+◌, Bool, true, false, not, ◌&&◌, ◌||◌, ◌≡◌, refl, Option, none, some, List, [], ◌∷◌, String,
  Result, ok, err, exists, All, arith, if◌then◌else◌,
}
use de_box_asset_alert.Prelude.Rat.{Rat}
use de_box_asset_alert.MarketRules.Types.{Rule, RuleState, Project, Snapshot, EvaluationError}
use de_box_asset_alert.MarketRules.Values.{cooldown_active}
use de_box_asset_alert.MarketRules.Snapshots.{
  repeats_while_condition_active, Reading, snapshot_condition, SnapshotOutcome, is_pending_after,
  decide_snapshot, evaluate_snapshot_rule,
}
use de_box_asset_alert.MarketRules.Evaluate.{after_snapshot}

-- One evaluation of the run: the rule as it is stored then, the snapshots and the time.
pub record Observation : Type 0 where
  pub rule : Rule
  pub latest : Snapshot
  pub older : List Snapshot
  pub now : ℕ

abbrev pub is_free : Observation → Bool
is_free o = not (cooldown_active o.rule o.now)

abbrev has_trigger : SnapshotOutcome → ℕ
has_trigger outcome = elim outcome.trigger [ none ↦ 0 | some t ↦ 1 ]

-- A crossing is not reported yet.
abbrev pub is_waiting : RuleState → Bool
is_waiting state = state.pending_crossing || not state.condition_active

-- One evaluation under a condition that holds, by a rule that does not repeat itself.
decide_snapshot-holding :
    (r : Rule) (p : Project) (latest : Snapshot) (state : RuleState) (now : ℕ) (reading : Reading)
    → reading.condition ≡ true
    → repeats_while_condition_active r ≡ false
    → (has_trigger (decide_snapshot r p latest state now (some reading))
        ≡ (if is_waiting state && not (cooldown_active r now) then 1 else 0))
      × (is_waiting
            (after_snapshot latest state (decide_snapshot r p latest state now (some reading)))
          ≡ (is_waiting state && cooldown_active r now))
unfolding decide_snapshot is_pending_after after_snapshot
decide_snapshot-holding r p latest state now reading c once = (ground arith, ground arith)

now_or_later :
    (waiting cooling later : Bool)
    → (if waiting && not cooling then 1 else 0) + (if (waiting && cooling) && later then 1 else 0)
      ≡ (if waiting && (if not cooling then true else later) then 1 else 0)
now_or_later waiting cooling later = ground arith

module _ (set_string : String → Option Rat) (p : Project) where
  abbrev pub evaluate_at : RuleState → Observation → Result EvaluationError SnapshotOutcome
  evaluate_at state o = evaluate_snapshot_rule set_string o.rule p (o.latest ∷ o.older) state o.now

  -- The number of triggers of a run of evaluations, each from the state that the one before it left.
  unfoldable pub trigger_count : RuleState → List Observation → ℕ
  unfolding evaluate_snapshot_rule after_snapshot
  trigger_count state [] = 0
  trigger_count state (o ∷ os) = elim (evaluate_at state o) [
    | err e ↦ trigger_count state os
    | ok outcome ↦ has_trigger outcome + trigger_count (after_snapshot o.latest state outcome) os
  ]

  -- The condition of the rule is available and holds, and the rule does not repeat itself.
  abbrev pub IsHolding : Observation → Type 0
  IsHolding o =
      ((reading : Reading) × ((snapshot_condition set_string o.rule o.latest o.older
            ≡ ok (some reading))
          × (reading.condition ≡ true)))
      × (repeats_while_condition_active o.rule ≡ false)

  evaluate_at-holding :
      (state : RuleState) (o : Observation) (reading : Reading)
      → snapshot_condition set_string o.rule o.latest o.older ≡ ok (some reading)
      → evaluate_at state o ≡ ok (decide_snapshot o.rule p o.latest state o.now (some reading))
  unfolding evaluate_snapshot_rule
  evaluate_at-holding state o reading h = rw (h, evaluate_snapshot_rule) refl

  trigger_count-step :
      (state : RuleState) (o : Observation) (os : List Observation) (outcome : SnapshotOutcome)
      → evaluate_at state o ≡ ok outcome
      → trigger_count state (o ∷ os)
        ≡ has_trigger outcome + trigger_count (after_snapshot o.latest state outcome) os
  unfolding trigger_count
  trigger_count-step state o os outcome h = rw (h, trigger_count) refl

  -- While the condition of a rule holds, evaluation after evaluation, and the rule does not repeat
  -- itself, a run triggers exactly once if the crossing is not reported yet and some evaluation of the
  -- run is outside the cooldown, and not at all otherwise.
  pub trigger_count-crossing :
      (state : RuleState) (os : List Observation)
      → All IsHolding os
      → trigger_count state os ≡ (if is_waiting state && exists is_free os then 1 else 0)
  unfolding exists trigger_count
  trigger_count-crossing state [] h = ground arith
  trigger_count-crossing state (o ∷ os) (((reading, (eq, c)), once), h) =
      let outcome = decide_snapshot o.rule p o.latest state o.now (some reading) in
      let d = decide_snapshot-holding o.rule p o.latest state o.now reading c once in
      let ih = trigger_count-crossing (after_snapshot o.latest state outcome) os h in
      rw (trigger_count-step state o os outcome (evaluate_at-holding state o reading eq)) (
        rw (d.0, ih, d.1)
          (now_or_later (is_waiting state) (cooldown_active o.rule o.now) (exists is_free os)))
