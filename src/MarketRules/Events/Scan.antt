-- ===== src/MarketRules/Events/Scan.antt =====
-- internal/marketrules/evaluator.go: the scan of the events by a rule, from its cursor on.
use de_box_asset_alert.Prelude.{
  ℕ, ◌-◌, String, Bool, true, false, not, ◌⊎◌, inl, inr, ◌≡◌, refl, Option, none, some, List, [],
  ◌∷◌, leb, ltb, if◌then◌else◌,
}
use de_box_asset_alert.Prelude.Int.{ltb_ℤ, pos}
use de_box_asset_alert.Prelude.Rat.{Rat}
use de_box_asset_alert.MarketRules.Types.{
  Rule, Project, Snapshot, Event, Trigger, SuppressedTrigger, of_event,
}
use de_box_asset_alert.MarketRules.Values.{cooldown_active}
use de_box_asset_alert.MarketRules.Events.{HolderIndex}
use de_box_asset_alert.MarketRules.Events.Matching.{Match, event_condition}

-- What the body of a loop over events does with one of them: it was handled before, it only moves the
-- cursor, it ends the loop, or it matches.
pub data Verdict (A : Type 0) : Type 0 where
  handled skipped halted : Verdict A
  matching : A → Verdict A

pub Verdict-cases :
    {A : Type 0} (v : Verdict A)
    → (v ≡ handled) ⊎ ((v ≡ skipped) ⊎ ((v ≡ halted) ⊎ ((m : A) × (v ≡ matching m))))
Verdict-cases handled = inl refl
Verdict-cases skipped = inr (inl refl)
Verdict-cases halted = inr (inr (inl refl))
Verdict-cases (matching m) = inr (inr (inr (m, refl)))

of_match : {A : Type 0} → Option A → Verdict A
of_match none = skipped
of_match (some m) = matching m

unfoldable pub verdict : {A : Type 0} → (Event → Option A) → ℕ → Event → Verdict A
unfolding of_match
verdict condition last e =
    if leb e.id last
    then handled
    else if e.reorged
    then skipped
    else if not e.confirmed
    then halted
    else of_match (condition e)

unfoldable pub event_trigger : Event → Match → Trigger
event_trigger e m = record {
  event = some e;
  event_type = e.event_type;
  event_key = e.event_key;
  previous_value = none;
  current_value = m.value;
  note = m.note;
  details = of_event m.details;
  occurred_at = e.occurred_at;
}

-- `if event.ID > maxEventID { maxEventID = event.ID }`
abbrev pub advance : ℕ → Event → ℕ
advance cursor e = if ltb cursor e.id then e.id else cursor

pub record Scan : Type 0 where
  pub triggers : List Trigger
  pub suppressed : List SuppressedTrigger
  pub cursor : ℕ

unfoldable pub deliver : Trigger → Scan → Scan
deliver t s = record { triggers = t ∷ s.triggers; suppressed = s.suppressed; cursor = s.cursor }

unfoldable pub suppress : Trigger → Scan → Scan
suppress t s = record {
  triggers = s.triggers;
  suppressed = record { trigger = t; reason = "cooldown_active" } ∷ s.suppressed;
  cursor = s.cursor;
}

-- The loop of evaluateEventRule. `cooling` says that a trigger starts a cooldown, and `available`
-- that no cooldown is active.
unfoldable pub scan : (Event → Verdict Match) → Bool → ℕ → Bool → List Event → Scan
unfolding event_trigger deliver suppress
scan judge cooling cursor available [] = record { triggers = []; suppressed = []; cursor = cursor }
scan judge cooling cursor available (e ∷ events) = elim (judge e) [
  | handled ↦ scan judge cooling cursor available events
  | skipped ↦ scan judge cooling (advance cursor e) available events
  | halted ↦ record { triggers = []; suppressed = []; cursor = e.id - 1 }
  | matching m ↦ elim available [
    | true ↦
        deliver (event_trigger e m) (scan judge cooling (advance cursor e) (not cooling) events)
    | false ↦ suppress (event_trigger e m) (scan judge cooling (advance cursor e) false events)
  ]
]

module _ (set_string : String → Option Rat) where
  unfoldable pub evaluate_event_rule :
      Rule → Project → List Snapshot → List Event → HolderIndex → ℕ → ℕ → Scan
  unfolding event_condition cooldown_active verdict scan
  evaluate_event_rule r p snapshots events holders last now =
      scan (verdict (λ e. event_condition set_string r p snapshots events e holders) last)
        (ltb_ℤ (pos 0) r.cooldown_seconds) last (not (cooldown_active r now)) events
