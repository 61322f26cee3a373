-- ===== src/MarketRules/Progress/Candidate.antt =====
-- internal/marketrules/evaluator.go: which event a progress rule reports.
use de_box_asset_alert.Prelude.{
  ℕ, Bool, true, false, not, ◌&&◌, ◌||◌, inl, inr, ◌≡◌, refl, Option, none, some, List, [], ◌∷◌,
  String, ok, All, length, ◌≤◌, arith, Option-cases,
}
use de_box_asset_alert.Prelude.Rat.{Rat}
use de_box_asset_alert.MarketRules.Types.{Rule, RuleState, Project, Event, Trigger}
use de_box_asset_alert.MarketRules.Values.{cooldown_active, rat}
use de_box_asset_alert.MarketRules.Events.Scan.{advance}
use de_box_asset_alert.MarketRules.Events.Induction.{
  verdict-Judged, was_handled, was_reorged, was_halted, was_unmatched, was_matched,
}
use de_box_asset_alert.MarketRules.Progress.{
  Progress, ProgressOutcome, with_cursor, keep_candidate, observe, progress_of, with_value,
  progress_reading, reconsider, progress_scan, progress_trigger, conclude_with, conclude_progress,
  evaluate_progress_rule,
}

module _ (set_string : String → Option Rat) where
  -- No candidate, or a confirmed event that is not reorged, with its progress.
  abbrev IsCandidate : Option (Event × String) → Type 0
  IsCandidate none = Unit
  IsCandidate (some (e, progress)) =
      (e.confirmed ≡ true) × ((e.reorged ≡ false) × (progress_of set_string e ≡ some progress))

  -- A crossing waits only while the condition holds.
  abbrev IsConsistent : Progress → Type 0
  IsConsistent s = IsCandidate s.candidate × ((s.pending && not s.active) ≡ false)

  with_value-text :
      (text : Option String) (progress : String) (v : Rat)
      → with_value set_string text ≡ some (progress, v)
      → text ≡ some progress
  unfolding with_value
  with_value-text none progress v h = absurd (cc)
  with_value-text (some t) progress v h = elim (Option-cases (rat set_string t)) [
    | inl e ↦ absurd (ground arith)
    | inr (w, e) ↦ ground arith
  ]

  keep_candidate-IsCandidate :
      (b : Bool) (new old : Option (Event × String))
      → (b ≡ true → IsCandidate new)
      → IsCandidate old
      → IsCandidate (keep_candidate b new old)
  unfolding keep_candidate
  keep_candidate-IsCandidate true new old n o = n refl
  keep_candidate-IsCandidate false new old n o = o

  observe-IsConsistent :
      (e : Event) (progress : String) (condition : Bool) (s : Progress)
      → IsCandidate (some (e, progress))
      → IsConsistent s
      → IsConsistent (observe e progress condition s)
  unfolding observe
  observe-IsConsistent e progress condition s c (k, _) = (
    keep_candidate-IsCandidate (condition && (s.pending || not s.active)) (some (e, progress))
        s.candidate (λ _. c) k,
    ground arith,
  )

  reconsider-IsConsistent :
      (e : Event) (text : Option String) (s : Progress)
      → progress_of set_string e ≡ text
      → IsConsistent s
      → IsConsistent (reconsider set_string e text s)
  unfolding reconsider
  reconsider-IsConsistent e none s t h = h
  reconsider-IsConsistent e (some progress) s t (c, k) = (
    keep_candidate-IsCandidate (not e.reorged && (e.confirmed && (s.active && s.pending)))
        (some (e, progress)) s.candidate (λ h. (ground arith, (ground arith, t))) c,
    k,
  )

  progress_scan-IsConsistent :
      (threshold : Rat) (last : ℕ) (events : List Event) (s : Progress)
      → IsConsistent s
      → IsConsistent (progress_scan set_string threshold last s events)
  unfolding progress_scan
  progress_scan-IsConsistent threshold last [] s h = h
  progress_scan-IsConsistent threshold last (e ∷ events) s h =
      elim (verdict-Judged (progress_reading set_string) last e) [
        | was_handled l v ↦
            rw (v, progress_scan)
              (progress_scan-IsConsistent threshold last events _
                (reconsider-IsConsistent e (progress_of set_string e) s refl h))
        | was_reorged l r v ↦
            rw (v, progress_scan) (progress_scan-IsConsistent threshold last events _ h)
        | was_unmatched l r c n v ↦
            rw (v, progress_scan) (progress_scan-IsConsistent threshold last events _ h)
        | was_halted l r c v ↦ rw (v, progress_scan) h
        | was_matched (progress, w) l r c n v ↦
            rw (v, progress_scan)
              (progress_scan-IsConsistent threshold last events _ (
                observe-IsConsistent e progress _ (with_cursor (advance s.cursor e) s)
                  (c, (r, with_value-text _ progress w n)) h))
      ]

-- The trigger is of a confirmed event that is not reorged, with the progress of a Four.meme token.
abbrev pub IsProgress : (String → Option Rat) → Trigger → Type 0
IsProgress set_string t =
    (e : Event) × ((progress : String) × ((t.event ≡ some e)
        × ((e.confirmed ≡ true)
            × ((e.reorged ≡ false)
                × ((progress_of set_string e ≡ some progress)
                    × (t.current_value ≡ some progress))))))

abbrev pub IsSound : (String → Option Rat) → Rule → ℕ → ProgressOutcome → Type 0
IsSound set_string r now outcome =
    All (λ t. IsProgress set_string t × (cooldown_active r now ≡ false)) outcome.triggers
    × (((outcome.pending && not outcome.active) ≡ false) × (length outcome.triggers ≤ 1))

conclude_with-IsSound :
    (set_string : String → Option Rat) (r : Rule) (p : Project) (now : ℕ) (ready : Bool)
    (s : Progress) (candidate : Option (Event × String))
    → IsCandidate set_string candidate
    → (s.pending && not s.active) ≡ false
    → (ready ≡ true → cooldown_active r now ≡ false)
    → IsSound set_string r now (conclude_with r p ready s candidate)
unfolding conclude_with progress_trigger
conclude_with-IsSound set_string r p now ready s none c k h = (tt, (k, omega arith))
conclude_with-IsSound set_string r p now false s (some (e, progress)) c k h = (tt, (k, omega arith))
conclude_with-IsSound set_string r p now true s (some (e, progress)) (c, (g, o)) k h =
    ((((e, (progress, (refl, (c, (g, (o, refl)))))), h refl), tt), (refl, omega arith))

-- If the threshold can be read and the state has no crossing waiting without its condition, a progress
-- rule triggers at most once: for a confirmed event that is not reorged, with the progress of a
-- Four.meme token, and outside the cooldown. After it no crossing waits without its condition either.
pub evaluate_progress_rule-IsSound :
    (set_string : String → Option Rat) (r : Rule) (p : Project) (events : List Event)
    (state : RuleState) (now : ℕ) {threshold : Rat}
    → rat set_string r.threshold_value ≡ some threshold
    → (state.pending_crossing && not state.condition_active) ≡ false
    → (outcome : ProgressOutcome) × ((evaluate_progress_rule set_string r p events state now
          ≡ ok outcome)
        × IsSound set_string r now outcome)
unfolding evaluate_progress_rule conclude_progress
evaluate_progress_rule-IsSound set_string r p events state now {threshold} t k =
    let s =
      progress_scan set_string threshold state.last_event_id
        (record {
          cursor = state.last_event_id;
          active = state.condition_active;
          pending = state.pending_crossing;
          candidate = none;
        })
        events in
    let h = progress_scan-IsConsistent set_string threshold state.last_event_id events _ (tt, k) in
    (
      conclude_progress r p now s,
      (
        rw (t, evaluate_progress_rule) refl,
        conclude_with-IsSound set_string r p now _ s s.candidate h.0 h.1 (λ e. ground arith),
      ),
    )
