-- ===== src/MarketRules/Events.antt =====
-- internal/marketrules/evaluator.go: which events of a market a rule is about, and which of them match.
-- marketparse/types.go names the events.
pub mod Matching
pub mod Scan
pub mod Induction
pub mod Cursor
pub mod Delivered
pub mod Final
pub mod Eligible
use de_box_asset_alert.Prelude.{
  ℕ, String, Bool, true, false, not, ◌&&◌, ◌||◌, Option, none, some, List, [], ◌∷◌, to_lower,
  str_eq, ◌==◌, leb, ltb, select, exists, if◌then◌else◌,
}
use de_box_asset_alert.Prelude.Sort.{sort}
use de_box_asset_alert.Plans.RuleTypes.{
  market_large_buy, market_large_sell, market_consecutive_large_buy, market_consecutive_large_sell,
  market_liquidity_added, market_liquidity_removed, market_four_meme_large_trade,
}
use de_box_asset_alert.MarketRules.Types.{
  Rule, Project, Snapshot, Event, Holder, AddressLabel, EvaluationInput,
}

unfoldable pub is_pool_scoped_event_rule : String → Bool
is_pool_scoped_event_rule t =
    str_eq t market_large_buy
    || (str_eq t market_large_sell
        || (str_eq t market_consecutive_large_buy
            || (str_eq t market_consecutive_large_sell
                || (str_eq t market_liquidity_added
                    || (str_eq t market_liquidity_removed
                        || str_eq t market_four_meme_large_trade)))))

abbrev or_else : Option ℕ → Option ℕ → Option ℕ
or_else (some pool) other = some pool
or_else none other = other

abbrev pub is_of_pool : Option ℕ → Option ℕ → Bool
is_of_pool none pool = true
is_of_pool (some wanted) none = false
is_of_pool (some wanted) (some pool) = pool == wanted

-- The newest first, and of two of the same time the one with the larger id.
abbrev pub newer : Snapshot → Snapshot → Bool
newer a b =
    if a.captured_at == b.captured_at then ltb b.id a.id else ltb b.captured_at a.captured_at

abbrev pub snapshot_pool : EvaluationInput → Option ℕ
snapshot_pool input = or_else input.rule.market_pool_id input.project.main_pool_id

unfoldable pub eligible_snapshots : EvaluationInput → List Snapshot
unfolding sort select
eligible_snapshots input =
    sort newer
      (select (λ s. is_of_pool (snapshot_pool input) (some s.market_pool_id)) input.snapshots)

unfoldable pub event_pool : EvaluationInput → Option ℕ
unfolding is_pool_scoped_event_rule
event_pool input =
    or_else input.rule.market_pool_id
      (if is_pool_scoped_event_rule input.rule.rule_type then input.project.main_pool_id else none)

abbrev pub earlier : Event → Event → Bool
earlier a b = ltb a.id b.id

unfoldable pub eligible_events : EvaluationInput → List Event
unfolding sort select event_pool
eligible_events input =
    sort earlier (select (λ e. is_of_pool (event_pool input) e.market_pool_id) input.events)

-- The map of the holders by address, the last one written first.
abbrev pub HolderIndex : Type 0
HolderIndex = List (String × Holder)

abbrev pub tracked : HolderIndex → String → Bool
tracked index address = exists (λ entry. str_eq entry.0 address) index

abbrev pub is_excluded : List AddressLabel → String → Bool
is_excluded labels address = exists (λ l. l.excluded && str_eq (to_lower l.address) address) labels

index_from : List AddressLabel → List Holder → HolderIndex → HolderIndex
index_from labels [] index = index
index_from labels (h ∷ hs) index =
    let address = to_lower h.holder_address in
    index_from labels hs
      (if h.excluded || is_excluded labels address then index else (address, h) ∷ index)

unfoldable pub holder_index : List Holder → List AddressLabel → HolderIndex
unfolding index_from
holder_index holders labels = index_from labels holders []
