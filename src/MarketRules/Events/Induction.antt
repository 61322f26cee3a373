-- ===== src/MarketRules/Events/Induction.antt =====
-- internal/marketrules/evaluator.go: the induction on the scan of the events.
use de_box_asset_alert.Prelude.{
  ℕ, ◌-◌, ◌≤◌, ◌<◌, Bool, true, false, not, ◌⊎◌, inl, inr, ◌≡◌, refl, subst, sym, Option, none,
  some, List, [], ◌∷◌, leb, arith, Bool-cases, Option-cases,
}
use de_box_asset_alert.MarketRules.Types.{Event}
use de_box_asset_alert.MarketRules.Events.Matching.{Match}
use de_box_asset_alert.MarketRules.Events.Scan.{
  Verdict, handled, skipped, halted, matching, verdict, event_trigger, advance, Scan, scan, deliver,
  suppress,
}

-- The cases of a verdict.
pub data Judged {A : Type 0} (condition : Event → Option A) (last : ℕ) (e : Event) : Type 0 where
  was_handled : e.id ≤ last → verdict condition last e ≡ handled → Judged condition last e
  was_reorged :
      last < e.id → e.reorged ≡ true → verdict condition last e ≡ skipped → Judged condition last e
  was_halted :
      last < e.id
      → e.reorged ≡ false
      → e.confirmed ≡ false
      → verdict condition last e ≡ halted
      → Judged condition last e
  was_unmatched :
      last < e.id
      → e.reorged ≡ false
      → e.confirmed ≡ true
      → condition e ≡ none
      → verdict condition last e ≡ skipped
      → Judged condition last e
  was_matched :
      (m : A)
      → last < e.id
      → e.reorged ≡ false
      → e.confirmed ≡ true
      → condition e ≡ some m
      → verdict condition last e ≡ matching m
      → Judged condition last e

pub verdict-Judged :
    {A : Type 0} (condition : Event → Option A) (last : ℕ) (e : Event) → Judged condition last e
unfolding verdict
verdict-Judged condition last e = elim (Bool-cases (leb e.id last)) [
  | inl l ↦ was_handled (ground arith) (ground arith)
  | inr l ↦ elim (Bool-cases e.reorged) [
    | inl r ↦ was_reorged (ground arith) r (ground arith)
    | inr r ↦ elim (Bool-cases e.confirmed) [
      | inr c ↦ was_halted (ground arith) r c (ground arith)
      | inl c ↦ elim (Option-cases (condition e)) [
        | inl n ↦ was_unmatched (ground arith) r c n (ground arith)
        | inr (m, n) ↦ was_matched m (ground arith) r c n (ground arith)
      ]
    ]
  ]
]

scan-nil :
    (judge : Event → Verdict Match) (cooling : Bool) (cursor : ℕ) (available : Bool)
    → scan judge cooling cursor available []
      ≡ record { triggers = []; suppressed = []; cursor = cursor }
unfolding scan
scan-nil judge cooling cursor available = refl

-- The scan of one event, by its verdict.
module _ (judge : Event → Verdict Match) (cooling : Bool) (cursor : ℕ) (e : Event)
    (events : List Event) where
  scan-handled :
      (available : Bool)
      → judge e ≡ handled
      → scan judge cooling cursor available (e ∷ events)
        ≡ scan judge cooling cursor available events
  unfolding scan
  scan-handled available h = rw (h, scan) refl

  scan-skipped :
      (available : Bool)
      → judge e ≡ skipped
      → scan judge cooling cursor available (e ∷ events)
        ≡ scan judge cooling (advance cursor e) available events
  unfolding scan
  scan-skipped available h = rw (h, scan) refl

  scan-halted :
      (available : Bool)
      → judge e ≡ halted
      → scan judge cooling cursor available (e ∷ events)
        ≡ record { triggers = []; suppressed = []; cursor = e.id - 1 }
  unfolding scan
  scan-halted available h = rw (h, scan) refl

  scan-delivered :
      (available : Bool) (m : Match)
      → available ≡ true
      → judge e ≡ matching m
      → scan judge cooling cursor available (e ∷ events)
        ≡ deliver (event_trigger e m) (scan judge cooling (advance cursor e) (not cooling) events)
  unfolding scan
  scan-delivered available m b h = rw b (rw (h, scan) refl)

  scan-suppressed :
      (available : Bool) (m : Match)
      → available ≡ false
      → judge e ≡ matching m
      → scan judge cooling cursor available (e ∷ events)
        ≡ suppress (event_trigger e m) (scan judge cooling (advance cursor e) false events)
  unfolding scan
  scan-suppressed available m b h = rw b (rw (h, scan) refl)

-- An event that only moves the cursor.
abbrev pub IsSkipped : (Event → Option Match) → Event → Type 0
IsSkipped condition e =
    (e.reorged ≡ true) ⊎ ((e.reorged ≡ false) × ((e.confirmed ≡ true) × (condition e ≡ none)))

module _ (condition : Event → Option Match) (last : ℕ) (cooling : Bool)
    (P : ℕ → Bool → List Event → Scan → Type 0)
    (at_end : (cursor : ℕ) (b : Bool)
      → P cursor b [] (record { triggers = []; suppressed = []; cursor = cursor }))
    (at_handled : (cursor : ℕ) (b : Bool) (e : Event) (es : List Event) (s : Scan)
      → e.id ≤ last
      → P cursor b es s
      → P cursor b (e ∷ es) s)
    (at_skipped : (cursor : ℕ) (b : Bool) (e : Event) (es : List Event) (s : Scan)
      → last < e.id
      → IsSkipped condition e
      → P (advance cursor e) b es s
      → P cursor b (e ∷ es) s)
    (at_halted : (cursor : ℕ) (b : Bool) (e : Event) (es : List Event)
      → last < e.id
      → e.reorged ≡ false
      → e.confirmed ≡ false
      → P cursor b (e ∷ es) (record { triggers = []; suppressed = []; cursor = e.id - 1 }))
    (at_delivered : (cursor : ℕ) (e : Event) (es : List Event) (m : Match) (s : Scan)
      → last < e.id
      → e.reorged ≡ false
      → e.confirmed ≡ true
      → condition e ≡ some m
      → P (advance cursor e) (not cooling) es s
      → P cursor true (e ∷ es) (deliver (event_trigger e m) s))
    (at_suppressed : (cursor : ℕ) (e : Event) (es : List Event) (m : Match) (s : Scan)
      → last < e.id
      → e.reorged ≡ false
      → e.confirmed ≡ true
      → condition e ≡ some m
      → P (advance cursor e) false es s
      → P cursor false (e ∷ es) (suppress (event_trigger e m) s)) where
  abbrev judge : Event → Verdict Match
  judge = verdict condition last

  -- What holds of the scan of no event, and is kept by each case of the loop, holds of every scan.
  pub scan-induction :
      (cursor : ℕ) (available : Bool) (events : List Event)
      → P cursor available events (scan judge cooling cursor available events)
  scan-induction cursor available [] =
      subst (P cursor available []) (sym (scan-nil judge cooling cursor available))
        (at_end cursor available)
  scan-induction cursor available (e ∷ es) =
      let next : (b : Bool)
          → P (advance cursor e) b es (scan judge cooling (advance cursor e) b es) =
        λ b. scan-induction (advance cursor e) b es in
      let over : (s t : Scan)
          → s ≡ t
          → P cursor available (e ∷ es) t
          → P cursor available (e ∷ es) s =
        λ s t h. subst (P cursor available (e ∷ es)) (sym h) in
      elim (verdict-Judged condition last e) [
        | was_handled h v ↦
            over _ _ (scan-handled judge cooling cursor e es available v)
              (at_handled cursor available e es _ h (scan-induction cursor available es))
        | was_reorged h r v ↦
            over _ _ (scan-skipped judge cooling cursor e es available v)
              (at_skipped cursor available e es _ h (inl r) (next available))
        | was_unmatched h r c n v ↦
            over _ _ (scan-skipped judge cooling cursor e es available v)
              (at_skipped cursor available e es _ h (inr (r, (c, n))) (next available))
        | was_halted h r c v ↦
            over _ _ (scan-halted judge cooling cursor e es available v)
              (at_halted cursor available e es h r c)
        | was_matched m h r c n v ↦ elim (Bool-cases available) [
          | inl b ↦ over _ _ (scan-delivered judge cooling cursor e es available m b v) (
              subst
                (λ a. P cursor a (e ∷ es) (
                  deliver (event_trigger e m)
                    (scan judge cooling (advance cursor e) (not cooling) es)))
                (sym b) (at_delivered cursor e es m _ h r c n (next (not cooling))))
          | inr b ↦ over _ _ (scan-suppressed judge cooling cursor e es available m b v) (
              subst
                (λ a.
                  P cursor a (e ∷ es)
                    (suppress (event_trigger e m) (scan judge cooling (advance cursor e) false es)))
                (sym b) (at_suppressed cursor e es m _ h r c n (next false)))
        ]
      ]
