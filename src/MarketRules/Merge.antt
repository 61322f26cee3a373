-- ===== src/MarketRules/Merge.antt =====
-- internal/marketrules/service.go: mergeMarketEvents, which puts the events before the cursor of a rule
-- and the later ones together. The map by id is a list in which no id stands twice, its order is free.
use de_box_asset_alert.Prelude.{
  ℕ, Bool, not, ◌&&◌, ◌||◌, ◌≡◌, refl, List, [], ◌∷◌, select, count, exists, ◌==◌, leb, arith,
  if◌then◌else◌,
}
use de_box_asset_alert.MarketRules.Types.{Event}

-- byID[event.ID] = event
unfoldable pub put : Event → List Event → List Event
unfolding select
put e by_id = e ∷ select (λ f. not (f.id == e.id)) by_id

unfoldable pub put_all : List Event → List Event → List Event
unfolding put
put_all [] by_id = by_id
put_all (e ∷ events) by_id = put_all events (put e by_id)

unfoldable pub merge_market_events : ℕ → List Event → List Event → List Event
unfolding put_all select
merge_market_events cursor historical current =
    put_all current (put_all (select (λ e. leb e.id cursor) historical) [])

abbrev has_id : ℕ → Event → Bool
has_id n e = e.id == n

count-removed :
    (n m : ℕ) (es : List Event)
    → count (has_id n) (select (λ f. not (f.id == m)) es)
      ≡ (if m == n then 0 else count (has_id n) es)
unfolding count select
count-removed n m [] = ground arith
count-removed n m (e ∷ es) = ground (arith, count-removed n m es)

-- A write sets the number of events with its id to one, and leaves the others.
count-put :
    (n : ℕ) (e : Event) (es : List Event)
    → count (has_id n) (put e es) ≡ (if e.id == n then 1 else count (has_id n) es)
unfolding count put
count-put n e es = ground (arith, count-removed n e.id es)

count-put_all :
    (n : ℕ) (events es : List Event)
    → count (has_id n) (put_all events es)
      ≡ (if exists (has_id n) events then 1 else count (has_id n) es)
unfolding put_all exists
count-put_all n [] es = refl
count-put_all n (e ∷ events) es =
    ground (arith, count-put_all n events (put e es), count-put n e es)

exists-select_id :
    (n cursor : ℕ) (es : List Event)
    → exists (has_id n) (select (λ e. leb e.id cursor) es) ≡ (leb n cursor && exists (has_id n) es)
unfolding exists select
exists-select_id n cursor [] = ground arith
exists-select_id n cursor (e ∷ es) = ground (arith, exists-select_id n cursor es)

-- The merged events have an id once if it is one of the later events, or if it is at most the cursor and
-- one of the earlier events; they do not have it otherwise. So they have no id twice.
pub merge_market_events-once :
    (n cursor : ℕ) (historical current : List Event)
    → count (λ (e : Event). e.id == n) (merge_market_events cursor historical current) ≡ (
        if exists (λ (e : Event). e.id == n) current
          || (leb n cursor && exists (λ (e : Event). e.id == n) historical)
        then 1
        else 0)
unfolding merge_market_events count
merge_market_events-once n cursor historical current = ground (
  arith,
  count-put_all n current (put_all (select (λ e. leb e.id cursor) historical) []),
  count-put_all n (select (λ e. leb e.id cursor) historical) [],
  exists-select_id n cursor historical,
)
