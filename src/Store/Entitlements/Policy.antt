-- ===== src/Store/Entitlements/Policy.antt =====
-- The check that a quota's policy is the user's plan.
use de_box_asset_alert.Prelude.{
  ℕ, String, ◌≡◌, refl, ◌⊎◌, inl, inr, true, false, ok, err, str_eq, arith, Bool-cases,
}
use de_box_asset_alert.Store.Tables.{Db, subscription_changed}
use de_box_asset_alert.Store.Subscriptions.{current_subscription, plan_code_or_free, after_expiry}
use de_box_asset_alert.Store.Subscriptions.Effective.{effective_plan_code_lem}
use de_box_asset_alert.Store.Entitlements.{
  QuotaPolicy, require_policy_plan, count_active_rule_slots,
}

-- The plan in effect, as a function of the subscriptions.
abbrev pub plan_in_effect : String → ℕ → Db → String
plan_in_effect user now db = plan_code_or_free (current_subscription user now db.subscriptions)

pub require_policy_plan_cases :
    (user : String) (p : QuotaPolicy) (now : ℕ) (db : Db)
    → (str_eq (plan_in_effect user now db) p.plan_code ≡ true)
        × (require_policy_plan user p now db ≡ ok (tt, after_expiry user now db))
      ⊎ ((str_eq (plan_in_effect user now db) p.plan_code ≡ false)
          × (require_policy_plan user p now db ≡ err subscription_changed))
unfolding require_policy_plan
require_policy_plan_cases user p now db =
    elim (Bool-cases (str_eq (plan_in_effect user now db) p.plan_code)) [
      | inl e ↦ inl (e, ground (arith, effective_plan_code_lem user now db))
      | inr e ↦ inr (e, ground (arith, effective_plan_code_lem user now db))
    ]

-- An expiry of subscriptions stops no rule.
pub count_active_rule_slots-after_expiry :
    (user : String) (now : ℕ) (db : Db)
    → count_active_rule_slots user (after_expiry user now db) ≡ count_active_rule_slots user db
unfolding after_expiry count_active_rule_slots
count_active_rule_slots-after_expiry user now db = refl
