-- ===== src/Plans/Catalog/Tiers.antt =====
-- What holds of every catalog: its codes, its tiers and its billing cycles.
use de_box_asset_alert.Prelude.{
  ℕ, ◌≤◌, String, ◌≡◌, refl, subst, sym, ◌≢◌, ◌⊎◌, inl, inr, ◌↔◌, true, false, Bool, not, ◌&&◌,
  Option, none, some, leb, List, [], ◌∷◌, ok, err, All, map, exists, trim_space, str_eq, eq_iff,
  arith, Bool-cases,
}
use de_box_asset_alert.Prelude.Int.{ℤ, pos, negsuc, ◌≤ℤ◌}
use de_box_asset_alert.Plans.Types.{
  RuleType, BillingOption, Plan, unsupported_plan, unsupported_cycle, free, standard, professional,
  monthly, quarterly, annual, plan_order, normalize_code, allows, allows_stage_notifications,
  allows_combination_rules, find_option, billing_option,
}
use de_box_asset_alert.Plans.Catalog.{
  Catalog, make_free, make_standard, make_professional, new_catalog, get, clone_plan, public_plans,
}

-- The catalog of a price, of days and of an asset.
abbrev catalog_of : String → ℕ → String → Catalog
catalog_of price d asset = record {
  free_plan = make_free asset;
  standard_plan = make_standard price d asset;
  professional_plan = make_professional asset;
}

-- What holds of each `catalog_of` with at least one day holds of every catalog that is built.
new_catalog_cases {ℓ} :
    (P : Catalog → Type ℓ) (price : String) (days : ℤ) (asset : String) {c : Catalog}
    → new_catalog price days asset ≡ ok c
    → ((p a : String) (d : ℕ) → 1 ≤ d → P (catalog_of p d a))
    → P c
unfolding new_catalog
new_catalog_cases P price (negsuc d) asset h all = absurd (ground arith)
new_catalog_cases P price (pos d) asset h all =
    subst P (ground arith) (all (trim_space price) (trim_space asset) d (ground arith))

-- The catalog is built exactly from a price and an asset that are not blank and from at least one
-- day.
pub new_catalog_accepts :
    (price : String) (days : ℤ) (asset : String)
    → ((c : Catalog) × (new_catalog price days asset ≡ ok c))
      ↔ ((trim_space price ≢ "") × (pos 1 ≤ℤ days) × (trim_space asset ≢ ""))
unfolding new_catalog
new_catalog_accepts price (negsuc d) asset = (
  λ (c, h). absurd (ground (arith, eq_iff (trim_space price) "")),
  λ (a, b, e). absurd (omega arith),
)
new_catalog_accepts price (pos d) asset = (
  λ (c, h). ground (arith, eq_iff (trim_space price) "", eq_iff (trim_space asset) ""),
  λ (a, b, e). (
    record {
      free_plan = make_free (trim_space asset);
      standard_plan = make_standard (trim_space price) d (trim_space asset);
      professional_plan = make_professional (trim_space asset);
    },
    ground (arith, eq_iff (trim_space price) "", eq_iff (trim_space asset) ""),
  ),
)

-- What `get` returns, by the normalised code.
get_cases :
    (c : Catalog) (code : String)
    → let key = normalize_code code standard in
      ((key ≡ free) × (get c code ≡ ok c.free_plan))
      ⊎ ((key ≡ standard) × (get c code ≡ ok c.standard_plan))
      ⊎ ((key ≡ professional) × (get c code ≡ ok c.professional_plan))
      ⊎ ((exists (str_eq key) plan_order ≡ false) × (get c code ≡ err (unsupported_plan key)))
unfolding get exists
get_cases c code =
    let key = normalize_code code standard in
    ground (arith, eq_iff key free, eq_iff key standard, eq_iff key professional)

-- Every code that the first list has, the second has too.
abbrev pub Covers : List String → List String → Type 0
Covers xs ys = All (λ x. allows ys x ≡ true) xs

-- No limit is above every limit.
abbrev pub is_within : Option ℕ → Option ℕ → Bool
is_within p none = true
is_within none (some m) = false
is_within (some n) (some m) = leb n m

-- What the first plan has, the second has too.
abbrev pub Implies : Bool → Bool → Type 0
Implies p q = (p && not q) ≡ false

-- The limits and the permissions of a plan, but for the two modes of the market, which are only named.
pub record IsBelow (p q : Plan) : Type 0 where
  pub wallets : p.wallet_limit ≤ q.wallet_limit
  pub rules : p.rule_limit ≤ q.rule_limit
  pub groups : p.group_limit ≤ q.group_limit
  pub projects : p.market_project_limit ≤ q.market_project_limit
  pub alerts : is_within p.daily_alert_limit q.daily_alert_limit ≡ true
  pub rule_types : Covers p.allowed_rule_types q.allowed_rule_types
  pub market_rules : Covers p.allowed_market_rules q.allowed_market_rules
  pub targets : Covers p.summary_targets q.summary_targets
  pub private_notification : Implies p.private_notification q.private_notification
  pub group_notification : Implies p.group_notification q.group_notification
  pub daily_summary : Implies p.daily_summary q.daily_summary
  pub market_query : Implies p.market_query q.market_query
  pub market_combination : Implies p.market_combination q.market_combination
  pub stages : Implies (allows_stage_notifications p) (allows_stage_notifications q)
  pub combinations : Implies (allows_combination_rules p) (allows_combination_rules q)

abbrev pub IsAscending : List Plan → Type 0
IsAscending (p ∷ q ∷ ps) = IsBelow p q × IsAscending (q ∷ ps)
IsAscending _ = Unit

abbrev Finds : Catalog → Type 0
Finds c =
    (code : String)
    → let key = normalize_code code standard in
      (exists (str_eq key) plan_order ≡ true) × ((p : Plan) × (get c code ≡ ok p) × (p.code ≡ key))
      ⊎ ((exists (str_eq key) plan_order ≡ false) × (get c code ≡ err (unsupported_plan key)))

catalog_of-Finds : (p a : String) (d : ℕ) → Finds (catalog_of p d a)
unfolding make_free make_standard make_professional exists
catalog_of-Finds p a d code = elim (get_cases (catalog_of p d a) code) [
  | inl (k, g) ↦ inl (rw k, (make_free a, g, sym k))
  | inr (inl (k, g)) ↦ inl (rw k, (make_standard p d a, g, sym k))
  | inr (inr (inl (k, g))) ↦ inl (rw k, (make_professional a, g, sym k))
  | inr (inr (inr (k, g))) ↦ inr (k, g)
]

-- Every allowed rule type of a plan comes with its description, in the same order.
abbrev pub Describes : Plan → Type 0
Describes p = map (λ (r : RuleType). r.code) p.allowed_rules ≡ p.allowed_rule_types

catalog_of-Describes : (p a : String) (d : ℕ) → All Describes (public_plans (catalog_of p d a))
unfolding public_plans make_free make_standard make_professional clone_plan
catalog_of-Describes p a d = (refl, (refl, (refl, tt)))

-- A plan sells an option of its own under each cycle of the list, for at least one day, and has no
-- other option.
abbrev pub Sells : List String → Plan → Type 0
Sells cycles p =
    (cycle : String)
    → let key = normalize_code cycle monthly in
      (allows cycles key ≡ true)
        × ((o : BillingOption) × (billing_option p cycle ≡ ok o) × (o.code ≡ key) × (1 ≤ o.days))
      ⊎ ((allows cycles key ≡ false) × (billing_option p cycle ≡ err (unsupported_cycle key)))

find_option_cases :
    (key : String) (options : List BillingOption)
    → All (λ o. 1 ≤ o.days) options
    → (allows (map (λ o. o.code) options) key ≡ true)
        × ((o : BillingOption) × (find_option key options ≡ ok o) × (o.code ≡ key) × (1 ≤ o.days))
      ⊎ ((allows (map (λ o. o.code) options) key ≡ false)
          × (find_option key options ≡ err (unsupported_cycle key)))
unfolding find_option allows
find_option_cases key [] h = inr (refl, refl)
find_option_cases key (o ∷ options) (d, h) = elim (Bool-cases (str_eq o.code key)) [
  | inl e ↦ inl (ground arith, (o, ground arith, (eq_iff o.code key).0 e, d))
  | inr e ↦ rw e (find_option_cases key options h)
]

abbrev pub all_cycles : List String
all_cycles = monthly ∷ quarterly ∷ annual ∷ []

make_standard-Sells : (p a : String) (d : ℕ) → 1 ≤ d → Sells all_cycles (make_standard p d a)
unfolding make_standard billing_option
make_standard-Sells p a d h cycle =
    find_option_cases (normalize_code cycle monthly) (make_standard p d a).billing_options
      (h, (omega arith, (omega arith, tt)))

make_professional-Sells : (a : String) → Sells all_cycles (make_professional a)
unfolding make_professional billing_option
make_professional-Sells a cycle =
    find_option_cases (normalize_code cycle monthly) (make_professional a).billing_options
      (omega arith, (omega arith, (omega arith, tt)))

code-make_free : (a : String) → (make_free a).code ≡ free
unfolding make_free
code-make_free a = refl

abbrev PaidSell : Catalog → Type 0
PaidSell c = (code : String) (p : Plan) → get c code ≡ ok p → p.code ≢ free → Sells all_cycles p

catalog_of-PaidSell : (p a : String) (d : ℕ) → 1 ≤ d → PaidSell (catalog_of p d a)
catalog_of-PaidSell p a d h code q g paid = elim (get_cases (catalog_of p d a) code) [
  | inl (k, e) ↦ absurd (paid (cc (code-make_free a)))
  | inr (inl (k, e)) ↦ subst (Sells all_cycles) (cc) (make_standard-Sells p a d h)
  | inr (inr (inl (k, e))) ↦ subst (Sells all_cycles) (cc) (make_professional-Sells a)
  | inr (inr (inr (k, e))) ↦ absurd (cc)
]

module _ (price : String) (days : ℤ) (asset : String) {c : Catalog}
    (made : new_catalog price days asset ≡ ok c) where
  -- `Get` finds exactly the three plans, whatever the letter case and the space round the code, and
  -- gives the standard plan for a blank code.
  pub get_finds :
      (code : String)
      → let key = normalize_code code standard in
        (exists (str_eq key) plan_order ≡ true)
          × ((p : Plan) × (get c code ≡ ok p) × (p.code ≡ key))
        ⊎ ((exists (str_eq key) plan_order ≡ false) × (get c code ≡ err (unsupported_plan key)))
  get_finds = new_catalog_cases Finds price days asset made (λ p a d _. catalog_of-Finds p a d)

  -- Every public plan describes exactly the rule types that it allows.
  pub public_plans-describe : All Describes (public_plans c)
  public_plans-describe =
      new_catalog_cases (λ c. All Describes (public_plans c)) price days asset made
        (λ p a d _. catalog_of-Describes p a d)

  -- Every plan but the free one sells the monthly, the quarterly and the annual cycle, in any
  -- spelling, each for at least one day, and refuses any other cycle.
  pub paid_plan-Sells :
      (code : String) (p : Plan) → get c code ≡ ok p → p.code ≢ free → Sells all_cycles p
  paid_plan-Sells = new_catalog_cases PaidSell price days asset made catalog_of-PaidSell
