-- ===== src/MarketRules/Events/Delivered.antt =====
-- internal/marketrules/evaluator.go: which triggers the scan of the events gives.
use de_box_asset_alert.Prelude.{
  ℕ, ◌-◌, ◌≤◌, ◌<◌, Bool, true, false, not, ◌&&◌, ◌⊎◌, inl, inr, ◌≡◌, refl, ap, ◌∙◌, Option, none,
  some, List, [], ◌∷◌, map, String, All, leb, ltb, arith, if◌then◌else◌,
}
use de_box_asset_alert.Prelude.Int.{ltb_ℤ, pos}
use de_box_asset_alert.Prelude.Queries.{All-mono, All-of}
use de_box_asset_alert.Prelude.Rat.{Rat}
use de_box_asset_alert.MarketRules.Types.{Rule, Project, Snapshot, Event, Trigger}
use de_box_asset_alert.MarketRules.Values.{cooldown_active}
use de_box_asset_alert.MarketRules.Events.{HolderIndex}
use de_box_asset_alert.MarketRules.Events.Matching.{Match, event_condition}
use de_box_asset_alert.MarketRules.Events.Scan.{
  verdict, event_trigger, advance, Scan, scan, deliver, suppress, evaluate_event_rule,
}
use de_box_asset_alert.MarketRules.Events.Induction.{scan-induction, IsSkipped}
use de_box_asset_alert.MarketRules.Events.Cursor.{AreIncreasing, AreAhead, advance-AreAhead}

-- The trigger of an event, if it is one of those after the first cursor and up to the second one that
-- are not reorged, and matches.
abbrev pub due : (Event → Option Match) → ℕ → ℕ → Event → Option Match
due condition last cursor e =
    if ltb last e.id && (leb e.id cursor && not e.reorged) then condition e else none

abbrev with_trigger : Event → Option Match → List Trigger → List Trigger
with_trigger e none rest = rest
with_trigger e (some m) rest = event_trigger e m ∷ rest

-- The triggers of the due events, in their order.
unfoldable pub matches : (Event → Option Match) → ℕ → ℕ → List Event → List Trigger
unfolding event_trigger
matches condition last cursor [] = []
matches condition last cursor (e ∷ es) =
    with_trigger e (due condition last cursor e) (matches condition last cursor es)

-- What is delivered of triggers: none in a cooldown, one if it starts a cooldown, or else all of them.
unfoldable pub delivered : (cooling available : Bool) → List Trigger → List Trigger
delivered cooling false ts = []
delivered cooling true [] = []
delivered true true (t ∷ ts) = t ∷ []
delivered false true (t ∷ ts) = t ∷ ts

-- The others.
unfoldable pub held_back : (cooling available : Bool) → List Trigger → List Trigger
held_back cooling false ts = ts
held_back cooling true [] = []
held_back true true (t ∷ ts) = ts
held_back false true (t ∷ ts) = []

delivered-all : (ts : List Trigger) → delivered false true ts ≡ ts
unfolding delivered
delivered-all [] = refl
delivered-all (t ∷ ts) = refl

held_back-none : (ts : List Trigger) → held_back false true ts ≡ []
unfolding held_back
held_back-none [] = refl
held_back-none (t ∷ ts) = refl

-- Of no triggers none is delivered, and none held back.
split-nil : (cooling b : Bool) → ([] ≡ delivered cooling b []) × ([] ≡ held_back cooling b [])
unfolding delivered held_back
split-nil cooling false = (refl, refl)
split-nil cooling true = (refl, refl)

module _ (condition : Event → Option Match) (last : ℕ) where
  matches-none :
      (cursor : ℕ) (es : List Event)
      → All (λ e. cursor < e.id) es
      → matches condition last cursor es ≡ []
  unfolding matches
  matches-none cursor [] a = refl
  matches-none cursor (e ∷ es) (h, a) = let ih = matches-none cursor es a in ground arith

  matches-skipped :
      (cursor : ℕ) (e : Event) (es : List Event)
      → (e.id ≤ last) ⊎ IsSkipped condition e
      → matches condition last cursor (e ∷ es) ≡ matches condition last cursor es
  unfolding matches
  matches-skipped cursor e es (inl h) = ground arith
  matches-skipped cursor e es (inr (inl h)) = ground arith
  matches-skipped cursor e es (inr (inr h)) = ground arith

  matches-matched :
      (cursor : ℕ) (e : Event) (es : List Event) (m : Match)
      → last < e.id
      → e.id ≤ cursor
      → e.reorged ≡ false
      → condition e ≡ some m
      → matches condition last cursor (e ∷ es)
        ≡ event_trigger e m ∷ matches condition last cursor es
  unfolding matches
  matches-matched cursor e es m l c r h = ground arith

  -- The due triggers, split by the cooldown.
  abbrev HasAll : Bool → ℕ → Bool → List Event → Scan → Type 0
  HasAll cooling cursor b es s =
      (cursor ≤ s.cursor)
      × ((s.triggers ≡ delivered cooling b (matches condition last s.cursor es))
          × (map (λ u. u.trigger) s.suppressed
              ≡ held_back cooling b (matches condition last s.cursor es)))

  all-deliver :
      (cooling : Bool) (cursor : ℕ) (e : Event) (es : List Event) (m : Match) (s : Scan)
      → last < e.id
      → e.reorged ≡ false
      → condition e ≡ some m
      → e.id ≤ cursor
      → HasAll cooling cursor (not cooling) es s
      → HasAll cooling cursor true (e ∷ es) (deliver (event_trigger e m) s)
  unfolding deliver delivered held_back
  all-deliver true cursor e es m s l r c h (k, (dt, st)) =
      rw (matches-matched s.cursor e es m l (omega (arith, h, k)) r c)
        (k, (ap (λ ts. event_trigger e m ∷ ts) dt, st))
  all-deliver false cursor e es m s l r c h (k, (dt, st)) =
      rw (matches-matched s.cursor e es m l (omega (arith, h, k)) r c)
        (k, (ap (λ ts. event_trigger e m ∷ ts) (dt ∙ delivered-all _), st ∙ held_back-none _))

  all-suppress :
      (cooling : Bool) (cursor : ℕ) (e : Event) (es : List Event) (m : Match) (s : Scan)
      → last < e.id
      → e.reorged ≡ false
      → condition e ≡ some m
      → e.id ≤ cursor
      → HasAll cooling cursor false es s
      → HasAll cooling cursor false (e ∷ es) (suppress (event_trigger e m) s)
  unfolding suppress delivered held_back
  all-suppress cooling cursor e es m s l r c h (k, (dt, st)) =
      rw (matches-matched s.cursor e es m l (omega (arith, h, k)) r c)
        (k, (dt, ap (λ ts. event_trigger e m ∷ ts) st))

  -- From the next event on, and then from this one on.
  HasAll-from :
      (cooling : Bool) (cursor : ℕ) (b : Bool) (e : Event) (es : List Event) (s : Scan)
      → last < e.id
      → (last < e.id → cursor < e.id)
      → HasAll cooling (advance cursor e) b es s
      → HasAll cooling cursor b es s
  HasAll-from cooling cursor b e es s l n (k, h) = (ground (arith, k, n l), h)

  -- An event without a due trigger.
  HasAll-skipped :
      (cooling : Bool) (cursor : ℕ) (b : Bool) (e : Event) (es : List Event) (s : Scan)
      → (e.id ≤ last) ⊎ IsSkipped condition e
      → HasAll cooling cursor b es s
      → HasAll cooling cursor b (e ∷ es) s
  HasAll-skipped cooling cursor b e es s h g = rw (matches-skipped s.cursor e es h) g

  -- The scan gives all due triggers, delivered and then suppressed.
  pub scan-HasAll :
      (cooling available : Bool) (events : List Event)
      → AreIncreasing events
      → HasAll cooling last available events
          (scan (verdict condition last) cooling last available events)
  scan-HasAll cooling available events i =
      let ahead : (cursor : ℕ) (e : Event) (es : List Event)
          → last < e.id
          → AreAhead last cursor (e ∷ es)
          → AreIncreasing (e ∷ es)
          → AreAhead last (advance cursor e) es =
        λ cursor e es l (n, a) (i, is). advance-AreAhead last cursor e es (n l) i in
      scan-induction condition last cooling
        (λ cursor b es s. AreAhead last cursor es → AreIncreasing es → HasAll cooling cursor b es s)
        (λ cursor b a i. (omega arith, rw (matches-none cursor [] tt) (split-nil cooling b)))
        (λ cursor b e es s h ih (n, a) (i, is).
          HasAll-skipped cooling cursor b e es s (inl h) (ih a is))
        (λ cursor b e es s l h ih a i.
          HasAll-skipped cooling cursor b e es s (inr h)
            (HasAll-from cooling cursor b e es s l a.0 (ih (ahead cursor e es l a i) i.1)))
        (λ cursor b e es l r c (n, a) (i, is). (
          omega (arith, n l),
          rw
              (matches-none (e.id - 1) (e ∷ es)
                (omega (arith, l), All-mono _ _ es (λ f h. ground (arith, l)) i))
              (split-nil cooling b),
        ))
        (λ cursor e es m s l r c k ih a i. HasAll-from cooling cursor true e (e ∷ es) _ l a.0 (
          all-deliver cooling (advance cursor e) e es m s l r k (ground arith)
            (ih (ahead cursor e es l a i) i.1)))
        (λ cursor e es m s l r c k ih a i. HasAll-from cooling cursor false e (e ∷ es) _ l a.0 (
          all-suppress cooling (advance cursor e) e es m s l r k (ground arith)
            (ih (ahead cursor e es l a i) i.1)))
        last available events (All-of _ events (λ e h. h)) i

module _ (set_string : String → Option Rat) (r : Rule) (p : Project) (snapshots : List Snapshot)
    (events : List Event) (holders : HolderIndex) (last now : ℕ) (i : AreIncreasing events) where
  abbrev rule_scan : Scan
  rule_scan = evaluate_event_rule set_string r p snapshots events holders last now

  abbrev due_matches : List Trigger
  due_matches =
      matches (λ e. event_condition set_string r p snapshots events e holders) last rule_scan.cursor
        events

  -- Of events in the order of their ids, the due triggers are those of all the events after the cursor
  -- and up to the new one that match and are not reorged, in their order. The evaluation of a rule
  -- delivers none of them in a cooldown, the first one if the rule has a cooldown, and else all of them;
  -- it suppresses exactly the other ones, so that no match is lost and none is reported twice.
  pub event_rule-matches :
      (rule_scan.triggers
        ≡ delivered (ltb_ℤ (pos 0) r.cooldown_seconds) (not (cooldown_active r now)) due_matches)
      × (map (λ u. u.trigger) rule_scan.suppressed
          ≡ held_back (ltb_ℤ (pos 0) r.cooldown_seconds) (not (cooldown_active r now)) due_matches)
  unfolding evaluate_event_rule
  event_rule-matches = (scan-HasAll _ last _ _ events i).1
