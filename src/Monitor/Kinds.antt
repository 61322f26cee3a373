-- ===== src/Monitor/Kinds.antt =====
-- internal/monitor/executor.go: the checks of each kind of rule, in terms of Limits.
use de_box_asset_alert.Prelude.{
  String, Bool, true, false, inl, inr, ◌≡◌, refl, subst, ap, not, ◌||◌, Option, none, some, List,
  str_eq, Bool-cases, Result-cases,
}
use de_box_asset_alert.Plans.Types.{Plan}
use de_box_asset_alert.Plans.RuleTypes.{approval_change, address_interaction}
use de_box_asset_alert.Store.Tables.{WatchRule}
use de_box_asset_alert.Alerts.Tables.{AlertDb}
use de_box_asset_alert.Alerts.Events.{store_rule_value}
use de_box_asset_alert.Monitor.Check.{
  World, BalanceResult, InteractionResult, Message, no_change, plan_limited, RuleResult, new_result,
}
use de_box_asset_alert.Monitor.Conditions.{decimal_eq, string_value}
use de_box_asset_alert.Monitor.Effects.{is_alerted}
use de_box_asset_alert.Monitor.Rules.{
  with_value, observe_asset, check_asset_rule, observe_approval, check_approval_of,
  check_approval_rule, observe_interaction, check_interaction_of, check_interaction_rule,
  invalid_rule, check_by_type, check_allowed, rule_allowed_by_plan, is_asset_type,
}
use de_box_asset_alert.Monitor.Limits.{
  IsLimited, IsLimited-status, rule_allowed_by_plan-IsLimited, Checked, quiet, failing,
  trigger-Checked, stored,
}

module _ (w : World) (rule : WatchRule) (plan : Plan) where
  observe_asset-Checked :
      (current : BalanceResult) (previous : Option String) (reported : Bool) (db : AlertDb)
      (ms : List Message)
      → Checked w rule plan db ms
          (observe_asset w rule plan current previous reported (record { db = db; messages = ms }))
  unfolding observe_asset with_value new_result
  observe_asset-Checked current previous true db ms =
      trigger-Checked w rule plan previous current.value _ db ms
  observe_asset-Checked current none false db ms = quiet w rule plan db ms _ refl
  observe_asset-Checked current (some previous) false db ms = quiet w rule plan db ms _ refl

  observe_approval-Checked :
      (target current : String) (previous : Option String) (db : AlertDb) (ms : List Message)
      → Checked w rule plan db ms
          (observe_approval w rule plan target current previous (record { db = db; messages = ms }))
  unfolding observe_approval with_value new_result
  observe_approval-Checked target current none db ms = quiet w rule plan db ms _ refl
  observe_approval-Checked target current (some previous) db ms =
      elim (Bool-cases (decimal_eq w.floats previous current)) [
        | inl e ↦ rw e (quiet w rule plan db ms (with_value no_change rule current) refl)
        | inr e ↦ rw e (trigger-Checked w rule plan (some previous) current _ db ms)
      ]

  observe_interaction-Checked :
      (target : String) (current : InteractionResult) (previous : Option String) (db : AlertDb)
      (ms : List Message)
      → Checked w rule plan db ms (
          observe_interaction w rule plan target current previous
            (record { db = db; messages = ms }))
  unfolding observe_interaction with_value new_result
  observe_interaction-Checked target current none db ms = quiet w rule plan db ms _ refl
  observe_interaction-Checked target current (some previous) db ms =
      elim (Bool-cases (str_eq current.cursor previous || not current.matched)) [
        | inl e ↦ rw e (quiet w rule plan db ms (with_value no_change rule current.cursor) refl)
        | inr e ↦ rw e (trigger-Checked w rule plan (some previous) current.cursor _ db ms)
      ]

  check_asset_rule-Checked :
      (db : AlertDb) (ms : List Message)
      → Checked w rule plan db ms (check_asset_rule w rule plan (record { db = db; messages = ms }))
  unfolding check_asset_rule
  check_asset_rule-Checked db ms =
      elim (Result-cases (
        w.balance rule.wallet_address (string_value rule.token_address) rule.chain_key
          w.default_chain_key)) [
            | inr (e, h) ↦ rw h (failing w rule plan db ms _)
            | inl (current, h) ↦ rw h (
                stored w rule plan rule.id current.value db ms _ (
                  observe_asset-Checked current rule.last_value _
                    (store_rule_value rule.id current.value w.now db) ms))
          ]

  check_approval_of-Checked :
      (token target : Option String) (db : AlertDb) (ms : List Message)
      → Checked w rule plan db ms
          (check_approval_of w rule plan token target (record { db = db; messages = ms }))
  unfolding check_approval_of invalid_rule new_result
  check_approval_of-Checked none target db ms = quiet w rule plan db ms _ refl
  check_approval_of-Checked (some token) none db ms = quiet w rule plan db ms _ refl
  check_approval_of-Checked (some token) (some target) db ms =
      elim (Result-cases
        (w.token_allowance rule.wallet_address token target rule.chain_key w.default_chain_key)) [
          | inr (e, h) ↦ rw h (failing w rule plan db ms _)
          | inl (current, h) ↦ rw h (
              stored w rule plan rule.id current db ms _ (
                observe_approval-Checked target current rule.last_value
                  (store_rule_value rule.id current w.now db) ms))
        ]

  check_interaction_of-Checked :
      (target : Option String) (db : AlertDb) (ms : List Message)
      → Checked w rule plan db ms
          (check_interaction_of w rule plan target (record { db = db; messages = ms }))
  unfolding check_interaction_of invalid_rule new_result
  check_interaction_of-Checked none db ms = quiet w rule plan db ms _ refl
  check_interaction_of-Checked (some target) db ms =
      elim (Result-cases
        (w.latest_interaction rule.wallet_address target rule.chain_key w.default_chain_key)) [
          | inr (e, h) ↦ rw h (failing w rule plan db ms _)
          | inl (current, h) ↦ rw h (
              stored w rule plan rule.id current.cursor db ms _ (
                observe_interaction-Checked target current rule.last_value
                  (store_rule_value rule.id current.cursor w.now db) ms))
        ]

  check_by_type-Checked :
      (db : AlertDb) (ms : List Message)
      → Checked w rule plan db ms (check_by_type w rule plan (record { db = db; messages = ms }))
  unfolding check_by_type check_approval_rule check_interaction_rule new_result
  check_by_type-Checked db ms = elim (Bool-cases (is_asset_type rule.rule_type)) [
    | inl e ↦ rw e (check_asset_rule-Checked db ms)
    | inr e ↦ elim (Bool-cases (str_eq rule.rule_type approval_change)) [
      | inl f ↦ rw (e, f) (check_approval_of-Checked rule.token_address rule.target_address db ms)
      | inr f ↦ elim (Bool-cases (str_eq rule.rule_type address_interaction)) [
        | inl g ↦ rw (e, f, g) (check_interaction_of-Checked rule.target_address db ms)
        | inr g ↦ rw (e, f, g) (quiet w rule plan db ms _ refl)
      ]
    ]
  ]

  pub check_allowed-Checked :
      (limited : Option RuleResult) (db : AlertDb) (ms : List Message)
      → rule_allowed_by_plan rule plan ≡ limited
      → Checked w rule plan db ms
          (check_allowed w rule plan limited (record { db = db; messages = ms }))
  unfolding check_allowed
  check_allowed-Checked none db ms e = check_by_type-Checked db ms
  check_allowed-Checked (some result) db ms e =
      let status : result.status ≡ plan_limited =
        IsLimited-status (subst IsLimited e (rule_allowed_by_plan-IsLimited rule plan)) in
      quiet w rule plan db ms result (ap is_alerted status)
