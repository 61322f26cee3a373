-- ===== src/Alerts/Enabled.antt =====
-- internal/store/rules.go: ListEnabledWatchRules, the rules that a cycle checks, with the plan of each.
use de_box_asset_alert.Prelude.{
  ℕ, String, Bool, true, false, not, ◌&&◌, ◌||◌, Option, none, some, List, [], ◌∷◌, map, take, All,
  length, ◌≤◌, exists, select, ◌≡◌, refl, zero, suc, ap, arith, str_eq, ◌==◌, ltb,
}
use de_box_asset_alert.Prelude.Int.{ℤ, pos_part}
use de_box_asset_alert.Prelude.Queries.{select-All}
use de_box_asset_alert.Prelude.Sort.{sort, All-sort}
use de_box_asset_alert.Store.Tables.{WatchRule, Subscription, UserPreference, is_active}
use de_box_asset_alert.Store.Subscriptions.{current_subscription, plan_code_or_free}
use de_box_asset_alert.Store.Orders.{clamp}
use de_box_asset_alert.Alerts.Tables.{AlertDb}

abbrev pub is_other_plan : Option Subscription → Bool
is_other_plan none = false
is_other_plan (some s) = not (str_eq s.plan_code "free")

abbrev pub is_free_plan : Option Subscription → Bool
is_free_plan none = false
is_free_plan (some s) = str_eq s.plan_code "free"

-- A subscription that was paid for, whatever has become of it.
unfoldable pub has_history : String → List Subscription → Bool
unfolding exists
has_history user subs =
    exists
      (λ (s : Subscription).
        str_eq s.debox_user_id user && (not (str_eq s.plan_code "free") && not s.is_permanent))
      subs

abbrev pub is_choice : Option ℕ → ℕ → Bool
is_choice none id = false
is_choice (some chosen) id = chosen == id

unfoldable pub is_free_choice : WatchRule → List UserPreference → Bool
unfolding exists
is_free_choice r preferences =
    exists
      (λ (p : UserPreference).
        str_eq p.debox_user_id r.debox_user_id && is_choice p.free_watch_rule_id r.id)
      preferences

-- Without a plan but the free one, only the chosen rule of a user who has never paid is checked.
unfoldable pub is_entitled : AlertDb → WatchRule → Option Subscription → Bool
unfolding has_history is_free_choice
is_entitled db r subscription =
    is_other_plan subscription
    || ((is_free_plan subscription || not (has_history r.debox_user_id db.subscriptions))
        && is_free_choice r db.user_preferences)

unfoldable pub is_checked : ℕ → AlertDb → WatchRule → Bool
unfolding is_entitled current_subscription
is_checked now db r =
    r.enabled
    && (is_active r.run_status
        && is_entitled db r (current_subscription r.debox_user_id now db.subscriptions))

-- last_checked_at NULLS FIRST
abbrev pub is_earlier : Option ℕ → Option ℕ → Bool
is_earlier none none = false
is_earlier none (some t) = true
is_earlier (some s) none = false
is_earlier (some s) (some t) = ltb s t

unfoldable pub is_checked_before : WatchRule → WatchRule → Bool
is_checked_before a b =
    is_earlier a.last_checked_at b.last_checked_at
    || (not (is_earlier b.last_checked_at a.last_checked_at) && ltb a.id b.id)

-- The rule, with its effective_plan_code.
pub record EnabledRule : Type 0 where
  pub rule : WatchRule
  pub effective_plan_code : String

unfoldable pub with_plan : ℕ → AlertDb → WatchRule → EnabledRule
unfolding current_subscription
with_plan now db r = record {
  rule = r;
  effective_plan_code =
      plan_code_or_free (current_subscription r.debox_user_id now db.subscriptions);
}

unfoldable pub list_enabled_watch_rules : ℤ → ℕ → AlertDb → List EnabledRule
unfolding sort select is_checked is_checked_before with_plan clamp
list_enabled_watch_rules limit now db = map (with_plan now db) (
    take (clamp (pos_part limit) 1 1000)
      (sort is_checked_before (select (is_checked now db) db.watch_rules)))

-- A listed rule is enabled and active; and if the plan it comes with is the free one, it is the rule that
-- its user has chosen.
abbrev pub IsListed : AlertDb → EnabledRule → Type 0
IsListed db e =
    (e.rule.enabled && is_active e.rule.run_status ≡ true)
    × ((str_eq e.effective_plan_code "free" && not (is_free_choice e.rule db.user_preferences))
        ≡ false)

is_entitled-chosen :
    (db : AlertDb) (r : WatchRule) (subscription : Option Subscription)
    → is_entitled db r subscription ≡ true
    → (str_eq (plan_code_or_free subscription) "free" && not (is_free_choice r db.user_preferences))
      ≡ false
unfolding is_entitled
is_entitled-chosen db r none h = ground arith
is_entitled-chosen db r (some s) h = ground arith

with_plan-IsListed :
    (now : ℕ) (db : AlertDb) (r : WatchRule)
    → is_checked now db r ≡ true
    → IsListed db (with_plan now db r)
unfolding with_plan is_checked
with_plan-IsListed now db r h =
    let subscription = current_subscription r.debox_user_id now db.subscriptions in
    let entitled : is_entitled db r subscription ≡ true = ground arith in
    (ground arith, is_entitled-chosen db r subscription entitled)

take-All :
    {A : Type 0} (P : A → Type 0) (n : ℕ) (xs : List A)
    → All P xs
    → All P (take n xs) × (length (take n xs) ≤ n)
take-All P zero xs h = (tt, omega arith)
take-All P (suc n) [] h = (tt, omega arith)
take-All P (suc n) (x ∷ xs) (p, h) = let (a, b) = take-All P n xs h in ((p, a), omega (arith, b))

map-All :
    {A B : Type 0} (P : A → Type 0) (Q : B → Type 0) (f : A → B) (xs : List A)
    → ((x : A) → P x → Q (f x))
    → All P xs
    → All Q (map f xs) × (length (map f xs) ≡ length xs)
map-All P Q f [] g h = (tt, refl)
map-All P Q f (x ∷ xs) g (p, h) = let (a, b) = map-All P Q f xs g h in ((g x p, a), ap suc b)

clamp-le : (value low high : ℕ) → low ≤ high → clamp value low high ≤ high
unfolding clamp
clamp-le value low high h = ground (arith, h)

-- A cycle lists a thousand rules at most; each is enabled and active, and if it comes with the free plan
-- it is the rule that its user has chosen.
pub list_enabled_watch_rules-IsListed :
    (limit : ℤ) (now : ℕ) (db : AlertDb)
    → All (IsListed db) (list_enabled_watch_rules limit now db)
      × (length (list_enabled_watch_rules limit now db) ≤ 1000)
unfolding list_enabled_watch_rules
list_enabled_watch_rules-IsListed limit now db =
    let rules = sort is_checked_before (select (is_checked now db) db.watch_rules) in
    let n = clamp (pos_part limit) 1 1000 in
    let sorted =
      All-sort is_checked_before (λ r. is_checked now db r ≡ true) _
        (select-All (is_checked now db) db.watch_rules) in
    let (checked, few) = take-All (λ r. is_checked now db r ≡ true) n rules sorted in
    let (listed, same) =
      map-All (λ r. is_checked now db r ≡ true) (IsListed db) (with_plan now db) (take n rules)
        (λ r h. with_plan-IsListed now db r h) checked in
    (listed, omega (arith, few, same, clamp-le (pos_part limit) 1 1000 (omega arith)))
