-- ===== src/MarketRules/Events/Cursor.antt =====
-- internal/marketrules/evaluator.go: how far the scan of the events goes, and what it may pass.
use de_box_asset_alert.Prelude.{
  ℕ, suc, ◌≤◌, ◌<◌, Bool, true, false, not, ◌&&◌, ◌⊎◌, inl, inr, ◌≡◌, refl, Option, List, [], ◌∷◌,
  String, All, ltb, leb, arith,
}
use de_box_asset_alert.Prelude.Queries.{All-mono, All-of}
use de_box_asset_alert.Prelude.Rat.{Rat}
use de_box_asset_alert.MarketRules.Types.{Rule, Project, Snapshot, Event}
use de_box_asset_alert.MarketRules.Events.{HolderIndex}
use de_box_asset_alert.MarketRules.Events.Matching.{Match}
use de_box_asset_alert.MarketRules.Events.Induction.{IsSkipped, scan-induction}
use de_box_asset_alert.MarketRules.Events.Scan.{
  Verdict, verdict, advance, Scan, scan, deliver, suppress, evaluate_event_rule,
}

-- The order of the ids, no id twice.
abbrev pub AreIncreasing : List Event → Type 0
AreIncreasing [] = Unit
AreIncreasing (e ∷ events) = All (λ f. ltb e.id f.id ≡ true) events × AreIncreasing events

-- The events up to the cursor, and then none or one that is not confirmed yet right after it.
abbrev pub Settled : ℕ → List Event → Type 0
Settled c [] = Unit
Settled c (e ∷ events) =
    ((e.id ≤ c) × Settled c events)
    ⊎ ((e.reorged ≡ false) × ((e.confirmed ≡ false) × (e.id ≡ suc c)))

-- The new events are after the cursor.
abbrev pub AreAhead : ℕ → ℕ → List Event → Type 0
AreAhead last cursor events = All (λ e. last < e.id → cursor < e.id) events

pub advance-AreAhead :
    (last cursor : ℕ) (e : Event) (events : List Event)
    → cursor < e.id
    → All (λ f. ltb e.id f.id ≡ true) events
    → AreAhead last (advance cursor e) events
advance-AreAhead last cursor e events h a = All-mono _ _ events (λ f l n. ground arith) a

-- An event that waits for its confirmation, after one cursor and not after the other.
abbrev pub is_lost : ℕ → ℕ → Event → Bool
is_lost last cursor e = ltb last e.id && (leb e.id cursor && (not e.reorged && not e.confirmed))

abbrev pub NoneLost : ℕ → ℕ → List Event → Type 0
NoneLost last cursor events = All (λ e. is_lost last cursor e ≡ false) events

abbrev HasReached : ℕ → ℕ → List Event → Scan → Type 0
HasReached last cursor events s =
    Settled s.cursor events × ((cursor ≤ s.cursor) × NoneLost last s.cursor events)

skipped-final :
    (condition : Event → Option Match) (e : Event)
    → IsSkipped condition e
    → not e.reorged && not e.confirmed ≡ false
skipped-final condition e (inl r) = ground (arith, r)
skipped-final condition e (inr (r, (c, n))) = ground (arith, c)

-- The scan ends where the events are settled, and never before where it started.
pub scan-Settled :
    (condition : Event → Option Match) (last : ℕ) (cooling available : Bool) (events : List Event)
    → AreIncreasing events
    → HasReached last last events (scan (verdict condition last) cooling last available events)
unfolding deliver suppress
scan-Settled condition last cooling available events i =
    let step : (cursor : ℕ) (e : Event) (es : List Event) (s : Scan)
        → last < e.id
        → not e.reorged && not e.confirmed ≡ false
        → (last ≤ advance cursor e
            → AreAhead last (advance cursor e) es
            → AreIncreasing es
            → HasReached last (advance cursor e) es s)
        → last ≤ cursor
        → AreAhead last cursor (e ∷ es)
        → AreIncreasing (e ∷ es)
        → HasReached last cursor (e ∷ es) s =
      λ cursor e es s h w ih l (n, a) (i, is).
        (let g = ih (ground (arith, n h)) (advance-AreAhead last cursor e es (n h) i) is in
          (
            inl (ground (arith, n h, g.1.0), g.0),
            (ground (arith, n h, g.1.0), (ground (arith, w), g.1.1)),
          )) in
    scan-induction condition last cooling
      (λ cursor b es s.
        last ≤ cursor → AreAhead last cursor es → AreIncreasing es → HasReached last cursor es s)
      (λ cursor b l a i. (tt, (omega arith, tt)))
      (λ cursor b e es s h ih l (n, a) (i, is).
        (let g = ih l a is in
          (inl (omega (arith, g.1.0, h, l), g.0), (g.1.0, (ground (arith, h), g.1.1)))))
      (λ cursor b e es s h k. step cursor e es s h (skipped-final condition e k))
      (λ cursor b e es h r c l (n, a) (i, is). (
        inr (r, (c, omega (arith, h))),
        (omega (arith, n h), (ground (arith, h), All-mono _ _ es (λ f k. ground (arith, k)) i)),
      ))
      (λ cursor e es m s h r c k. step cursor e es s h (ground (arith, c)))
      (λ cursor e es m s h r c k. step cursor e es s h (ground (arith, c))) last available events
      (omega arith) (All-of _ events (λ e h. h)) i

module _ (condition : Event → Option Match) (last : ℕ) (cooling : Bool) where
  abbrev judge : Event → Verdict Match
  judge = verdict condition last

  -- From where the events are settled the scan finds nothing to do.
  pub Settled-scan :
      (available : Bool) (events : List Event)
      → Settled last events
      → scan judge cooling last available events
        ≡ record { triggers = []; suppressed = []; cursor = last }
  unfolding scan verdict
  Settled-scan available [] s = refl
  Settled-scan available (e ∷ events) (inl (h, s)) =
      let ih = Settled-scan available events s in ground arith
  Settled-scan available (e ∷ events) (inr (r, (c, h))) = ground arith

module _ (set_string : String → Option Rat) (r : Rule) (p : Project) (snapshots : List Snapshot)
    (events : List Event) (holders : HolderIndex) (last now : ℕ) (i : AreIncreasing events) where
  abbrev pub rule_scan : Scan
  rule_scan = evaluate_event_rule set_string r p snapshots events holders last now

  -- Of events in the order of their ids, the cursor after the evaluation of a rule is not before the
  -- cursor that it started from; no event between the two waits for its confirmation: it is confirmed
  -- or reorged; and the events up to the cursor are followed by none, or by one that waits and whose id
  -- is the next one.
  pub event_rule-Settled :
      Settled rule_scan.cursor events
      × ((last ≤ rule_scan.cursor) × NoneLost last rule_scan.cursor events)
  unfolding evaluate_event_rule
  event_rule-Settled = scan-Settled _ last _ _ events i

  -- A second evaluation of the same events, which are in the order of their ids, from the cursor that
  -- the first one left, by any rule and at any time, triggers nothing, suppresses nothing and leaves the
  -- cursor.
  pub event_rule-again :
      (r' : Rule) (p' : Project) (snapshots' : List Snapshot) (holders' : HolderIndex) (now' : ℕ)
      → evaluate_event_rule set_string r' p' snapshots' events holders' rule_scan.cursor now'
        ≡ record { triggers = []; suppressed = []; cursor = rule_scan.cursor }
  unfolding evaluate_event_rule
  event_rule-again r' p' snapshots' holders' now' =
      Settled-scan _ rule_scan.cursor _ _ events event_rule-Settled.0
