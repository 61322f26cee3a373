-- ===== src/MarketRules/Events/Eligible.antt =====
-- internal/marketrules/evaluator.go: the events, snapshots and holders that a rule looks at.
use de_box_asset_alert.Prelude.{
  ℕ, ◌≤◌, Bool, true, false, not, ◌&&◌, ◌||◌, inl, inr, ◌≡◌, refl, ap, ◌∙◌, some, List, [], ◌∷◌,
  String, to_lower, str_eq, eq_iff, All, select, count, exists, ◌==◌, arith, Bool-cases,
  if◌then◌else◌,
}
use de_box_asset_alert.Prelude.Queries.{All-mono, All-both, select-All, count-none}
use de_box_asset_alert.Prelude.Sort.{IsSorted, count-sort, All-sort, sort-IsSorted}
use de_box_asset_alert.MarketRules.Types.{Event, Snapshot, Holder, AddressLabel, EvaluationInput}
use de_box_asset_alert.MarketRules.Events.{
  is_of_pool, event_pool, snapshot_pool, newer, earlier, eligible_events, eligible_snapshots,
  HolderIndex, tracked, is_excluded, index_from, holder_index,
}
use de_box_asset_alert.MarketRules.Events.Cursor.{AreIncreasing}

count-select {ℓ} :
    {A : Type ℓ} (test q : A → Bool) (xs : List A)
    → count test (select q xs) ≡ count (λ x. q x && test x) xs
unfolding count select
count-select test q [] = refl
count-select test q (x ∷ xs) = ground (arith, count-select test q xs)

count-both {ℓ} :
    {A : Type ℓ} (test q : A → Bool) (xs : List A) → count (λ x. q x && test x) xs ≤ count test xs
unfolding count
count-both test q [] = omega arith
count-both test q (x ∷ xs) = ground (arith, count-both test q xs)

-- The events of a rule are the events of its pool, in the order of their ids, each as often as it is
-- given: the pool of the rule, for a rule on trades or liquidity without one the main pool of the
-- project, and every event without a pool to look at.
pub eligible_events-IsSorted :
    (input : EvaluationInput) (test : Event → Bool)
    → IsSorted earlier (eligible_events input)
      × (All (λ e. is_of_pool (event_pool input) e.market_pool_id ≡ true) (eligible_events input)
          × (count test (eligible_events input)
              ≡ count (λ e. is_of_pool (event_pool input) e.market_pool_id && test e) input.events))
unfolding eligible_events
eligible_events-IsSorted input test =
    let rows = select (λ e. is_of_pool (event_pool input) e.market_pool_id) input.events in
    (
      sort-IsSorted earlier (λ a b h. ground arith) (λ a b c h k. ground arith) rows,
      (
        All-sort earlier _ rows (select-All _ input.events),
        count-sort earlier test rows ∙ count-select test _ input.events,
      ),
    )

-- The snapshots of a rule are the snapshots of its pool, or of the main pool of the project, the newest
-- first and of two at the same time the one with the larger id, each as often as it is given.
pub eligible_snapshots-IsSorted :
    (input : EvaluationInput) (test : Snapshot → Bool)
    → IsSorted newer (eligible_snapshots input)
      × (All
            (λ s. is_of_pool (snapshot_pool input) (some s.market_pool_id) ≡ true)
            (eligible_snapshots input)
          × (count test (eligible_snapshots input)
              ≡ count
                  (λ s. is_of_pool (snapshot_pool input) (some s.market_pool_id) && test s)
                  input.snapshots))
unfolding eligible_snapshots
eligible_snapshots-IsSorted input test =
    let rows =
      select (λ s. is_of_pool (snapshot_pool input) (some s.market_pool_id)) input.snapshots in
    (
      sort-IsSorted newer (λ a b h. ground arith) (λ a b c h k. ground arith) rows,
      (
        All-sort newer _ rows (select-All _ input.snapshots),
        count-sort newer test rows ∙ count-select test _ input.snapshots,
      ),
    )

Sorted-AreIncreasing :
    (es : List Event)
    → IsSorted earlier es
    → ((n : ℕ) → count (λ e. e.id == n) es ≤ 1)
    → AreIncreasing es
unfolding count
Sorted-AreIncreasing [] s h = tt
Sorted-AreIncreasing (e ∷ es) (a, s) h = (
  All-mono _ _ es (λ f (l, n). ground arith)
      (All-both _ _ es a (count-none (λ f. f.id == e.id) es (ground (arith, h e.id)))),
  Sorted-AreIncreasing es s (λ n. ground (arith, h n)),
)

-- If no id is given twice, the events of a rule are in the order of their ids, no id twice.
pub eligible_events-AreIncreasing :
    (input : EvaluationInput)
    → ((n : ℕ) → count (λ e. e.id == n) input.events ≤ 1)
    → AreIncreasing (eligible_events input)
eligible_events-AreIncreasing input h =
    Sorted-AreIncreasing (eligible_events input) (eligible_events-IsSorted input (λ e. e.id == 0)).0
      (λ n.
        (let c = (eligible_events-IsSorted input (λ e. e.id == n)).1.1 in
          let b =
            count-both (λ e. e.id == n) (λ e. is_of_pool (event_pool input) e.market_pool_id)
              input.events in
          omega (arith, c, b, h n)))

tracked-put :
    (b : Bool) (index : HolderIndex) (key : String) (h : Holder) (address : String)
    → tracked (if b then index else (key, h) ∷ index) address
      ≡ ((not b && str_eq key address) || tracked index address)
unfolding exists
tracked-put true index key h address = refl
tracked-put false index key h address = ground arith

one_more :
    (a b d m t : Bool)
    → (m || ((not (a || b) && d) || t)) ≡ ((if not a && (d && not b) then true else m) || t)
one_more a b d m t = ground arith

index_from-tracked :
    (labels : List AddressLabel) (holders : List Holder) (index : HolderIndex) (address : String)
    → tracked (index_from labels holders index) address ≡ (
        exists
          (λ h.
            not h.excluded
            && (str_eq (to_lower h.holder_address) address && not (is_excluded labels address)))
          holders
        || tracked index address)
unfolding index_from exists
index_from-tracked labels [] index address = refl
index_from-tracked labels (h ∷ hs) index address =
    let key = to_lower h.holder_address in
    rw
      (index_from-tracked labels hs
        (if h.excluded || is_excluded labels key then index else (key, h) ∷ index) address)
      (rw (tracked-put (h.excluded || is_excluded labels key) index key h address)
        (elim (Bool-cases (str_eq key address)) [
          | inl e ↦
              rw (ap (is_excluded labels) ((eq_iff key address).0 e)) (one_more h.excluded _ _ _ _)
          | inr e ↦ rw e (ground arith)
        ]))

-- An address is in the index of the holders exactly if a holder has it, in any letter case, that is not
-- excluded and whose address no label excludes.
pub holder_index-tracked :
    (holders : List Holder) (labels : List AddressLabel) (address : String)
    → tracked (holder_index holders labels) address
      ≡ exists
          (λ h.
            not h.excluded
            && (str_eq (to_lower h.holder_address) address && not (is_excluded labels address)))
          holders
unfolding holder_index exists
holder_index-tracked holders labels address =
    index_from-tracked labels holders [] address ∙ ground arith
