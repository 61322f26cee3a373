-- ===== src/MarketRules/Progress.antt =====
-- internal/marketrules/evaluator.go: the rule on the progress of a Four.meme token.
pub mod Candidate
use de_box_asset_alert.Prelude.{
  ℕ, ◌-◌, String, Bool, true, false, not, ◌&&◌, ◌||◌, Option, none, some, List, [], ◌∷◌, Result, ok,
  err, if◌then◌else◌,
}
use de_box_asset_alert.Prelude.Rat.{Rat, leb_ℚ}
use de_box_asset_alert.MarketRules.Types.{
  Rule, RuleState, Project, Event, Trigger, of_event, EvaluationError, invalid_threshold,
}
use de_box_asset_alert.MarketRules.Values.{
  cooldown_active, rat, metadata_decimal, metadata_contains, market_event_note,
}
use de_box_asset_alert.MarketRules.Events.Scan.{
  Verdict, handled, skipped, halted, matching, verdict, advance,
}

-- What the loop keeps from one event to the next.
pub record Progress : Type 0 where
  pub cursor : ℕ
  pub active : Bool
  pub pending : Bool
  pub candidate : Option (Event × String)

abbrev pub with_cursor : ℕ → Progress → Progress
with_cursor n s = record s { cursor = n }

unfoldable pub keep_candidate :
    Bool → Option (Event × String) → Option (Event × String) → Option (Event × String)
keep_candidate true new old = new
keep_candidate false new old = old

-- A reading of the progress that meets the threshold or not: a crossing waits, a fall forgets it.
unfoldable pub observe : Event → String → Bool → Progress → Progress
unfolding keep_candidate
observe e progress condition s =
    let pending = condition && (s.pending || not s.active) in
    record {
      cursor = s.cursor;
      active = condition;
      pending = pending;
      candidate = keep_candidate pending (some (e, progress)) s.candidate;
    }

module _ (set_string : String → Option Rat) where
  -- The progress of an event of a Four.meme token.
  unfoldable pub progress_of : Event → Option String
  unfolding metadata_decimal metadata_contains
  progress_of e =
      if metadata_contains e.metadata "protocol" "four_meme"
      then metadata_decimal set_string e.metadata "progress_percent"
      else none

  unfoldable pub with_value : Option String → Option (String × Rat)
  with_value none = none
  with_value (some progress) = elim (rat set_string progress) [
    | none ↦ none
    | some v ↦ some (progress, v)
  ]

  unfoldable pub progress_reading : Event → Option (String × Rat)
  unfolding progress_of with_value
  progress_reading e = with_value (progress_of e)

  -- An event that was handled before is the candidate again while its crossing waits.
  unfoldable pub reconsider : Event → Option String → Progress → Progress
  unfolding keep_candidate
  reconsider e none s = s
  reconsider e (some progress) s = record s {
    candidate =
        keep_candidate (not e.reorged && (e.confirmed && (s.active && s.pending)))
          (some (e, progress)) s.candidate;
  }

  unfoldable pub progress_scan : Rat → ℕ → Progress → List Event → Progress
  unfolding progress_of progress_reading reconsider observe verdict
  progress_scan threshold last s [] = s
  progress_scan threshold last s (e ∷ events) = elim (verdict progress_reading last e) [
    | handled ↦ progress_scan threshold last (reconsider e (progress_of e) s) events
    | skipped ↦ progress_scan threshold last (with_cursor (advance s.cursor e) s) events
    | halted ↦ with_cursor (e.id - 1) s
    | matching (progress, v) ↦
        progress_scan threshold last
          (observe e progress (leb_ℚ threshold v) (with_cursor (advance s.cursor e) s)) events
  ]

-- What an evaluation of a progress rule returns beside an error.
pub record ProgressOutcome : Type 0 where
  pub triggers : List Trigger
  pub cursor : ℕ
  pub active : Bool
  pub pending : Bool

unfoldable pub progress_trigger : Rule → Project → Event → String → Trigger
unfolding market_event_note
progress_trigger r p e progress = record {
  event = some e;
  event_type = e.event_type;
  event_key = e.event_key;
  previous_value = none;
  current_value = some progress;
  note = market_event_note r p e (some progress);
  details = of_event e.metadata;
  occurred_at = e.occurred_at;
}

abbrev no_trigger : Progress → ProgressOutcome
no_trigger s = record { triggers = []; cursor = s.cursor; active = s.active; pending = s.pending }

unfoldable pub conclude_with :
    Rule → Project → Bool → Progress → Option (Event × String) → ProgressOutcome
unfolding progress_trigger
conclude_with r p ready s none = no_trigger s
conclude_with r p ready s (some (e, progress)) =
    if ready
    then record {
      triggers = progress_trigger r p e progress ∷ [];
      cursor = s.cursor;
      active = s.active;
      pending = false;
    }
    else no_trigger s

unfoldable pub conclude_progress : Rule → Project → ℕ → Progress → ProgressOutcome
unfolding conclude_with cooldown_active
conclude_progress r p now s =
    conclude_with r p (s.active && (s.pending && not (cooldown_active r now))) s s.candidate

module _ (set_string : String → Option Rat) where
  unfoldable pub evaluate_progress_rule :
      Rule → Project → List Event → RuleState → ℕ → Result EvaluationError ProgressOutcome
  unfolding progress_scan conclude_progress
  evaluate_progress_rule r p events state now = elim (rat set_string r.threshold_value) [
    | none ↦ err invalid_threshold
    | some threshold ↦ ok (
        conclude_progress r p now (
          progress_scan set_string threshold state.last_event_id
            (record {
              cursor = state.last_event_id;
              active = state.condition_active;
              pending = state.pending_crossing;
              candidate = none;
            })
            events))
  ]
