-- ===== src/MarketRules/Events/Final.antt =====
-- internal/marketrules/evaluator.go: the events of the triggers that the scan gives.
use de_box_asset_alert.Prelude.{
  ℕ, ◌≤◌, ◌<◌, Bool, true, false, ◌≡◌, refl, Option, some, List, ◌∷◌, String, All, arith,
}
use de_box_asset_alert.Prelude.Queries.{All-of}
use de_box_asset_alert.Prelude.Rat.{Rat}
use de_box_asset_alert.MarketRules.Types.{Rule, Project, Snapshot, Event, Trigger}
use de_box_asset_alert.MarketRules.Events.{HolderIndex}
use de_box_asset_alert.MarketRules.Events.Matching.{Match}
use de_box_asset_alert.MarketRules.Events.Scan.{
  verdict, event_trigger, advance, Scan, scan, deliver, suppress, evaluate_event_rule,
}
use de_box_asset_alert.MarketRules.Events.Induction.{scan-induction}
use de_box_asset_alert.MarketRules.Events.Cursor.{AreIncreasing, AreAhead, advance-AreAhead}

-- A trigger of an event after the first cursor and up to the second one, confirmed and not reorged.
abbrev pub IsFinal : ℕ → ℕ → Trigger → Type 0
IsFinal last cursor t =
    (e : Event) × ((t.event ≡ some e)
      × ((last < e.id) × ((e.id ≤ cursor) × ((e.confirmed ≡ true) × (e.reorged ≡ false)))))

module _ (condition : Event → Option Match) (last : ℕ) where
  abbrev AreFinal : ℕ → Scan → Type 0
  AreFinal cursor s =
      (cursor ≤ s.cursor)
      × (All (IsFinal last s.cursor) s.triggers
          × All (λ u. IsFinal last s.cursor u.trigger) s.suppressed)

  trigger-IsFinal :
      (cursor : ℕ) (e : Event) (m : Match)
      → last < e.id
      → e.id ≤ cursor
      → e.confirmed ≡ true
      → e.reorged ≡ false
      → IsFinal last cursor (event_trigger e m)
  unfolding event_trigger
  trigger-IsFinal cursor e m l k c r = (e, (refl, (l, (k, (c, r)))))

  pub scan-AreFinal :
      (cooling available : Bool) (events : List Event)
      → AreIncreasing events
      → AreFinal last (scan (verdict condition last) cooling last available events)
  unfolding deliver suppress
  scan-AreFinal cooling available events i =
      let next : (cursor : ℕ) (e : Event) (es : List Event) (s : Scan)
          → last < e.id
          → (AreAhead last (advance cursor e) es → AreIncreasing es → AreFinal (advance cursor e) s)
          → AreAhead last cursor (e ∷ es)
          → AreIncreasing (e ∷ es)
          → (e.id ≤ s.cursor) × AreFinal cursor s =
        λ cursor e es s l ih (n, a) (i, is).
          (let g = ih (advance-AreAhead last cursor e es (n l) i) is in
            (ground (arith, g.0), (ground (arith, g.0, n l), g.1))) in
      scan-induction condition last cooling
        (λ cursor b es s. AreAhead last cursor es → AreIncreasing es → AreFinal cursor s)
        (λ cursor b a i. (omega arith, (tt, tt))) (λ cursor b e es s h ih (n, a) (i, is). ih a is)
        (λ cursor b e es s l h ih a i. (next cursor e es s l ih a i).1)
        (λ cursor b e es l r c (n, a) i. (omega (arith, n l), (tt, tt)))
        (λ cursor e es m s l r c k ih a i.
          (let g = next cursor e es s l ih a i in
            (g.1.0, ((trigger-IsFinal s.cursor e m l g.0 c r, g.1.1.0), g.1.1.1))))
        (λ cursor e es m s l r c k ih a i.
          (let g = next cursor e es s l ih a i in
            (g.1.0, (g.1.1.0, (trigger-IsFinal s.cursor e m l g.0 c r, g.1.1.1)))))
        last available events (All-of _ events (λ e h. h)) i

module _ (set_string : String → Option Rat) (r : Rule) (p : Project) (snapshots : List Snapshot)
    (events : List Event) (holders : HolderIndex) (last now : ℕ) (i : AreIncreasing events) where
  abbrev rule_scan : Scan
  rule_scan = evaluate_event_rule set_string r p snapshots events holders last now

  -- Of events in the order of their ids, each trigger that the evaluation of a rule delivers or
  -- suppresses is of an event after its cursor and up to its new cursor, which is confirmed and not
  -- reorged.
  pub event_rule-AreFinal :
      All (IsFinal last rule_scan.cursor) rule_scan.triggers
      × All (λ u. IsFinal last rule_scan.cursor u.trigger) rule_scan.suppressed
  unfolding evaluate_event_rule
  event_rule-AreFinal = (scan-AreFinal _ last _ _ events i).1
