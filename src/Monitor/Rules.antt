-- ===== src/Monitor/Rules.antt =====
-- internal/monitor/executor.go: the check of a rule, by its type, its plan and the daily limit.
use de_box_asset_alert.Prelude.{
  ℕ, String, Bool, true, false, not, ◌&&◌, ◌||◌, Option, none, some, Result, ok, err, [], ◌∷◌,
  append, str_eq, ◌==◌, ltb, if◌then◌else◌,
}
use de_box_asset_alert.Prelude.Rat.{concat}
use de_box_asset_alert.Plans.Types.{
  Plan, PlanError, free, balance_threshold, high_balance_threshold, normalize_code,
  allows_rule_type, allows_stage_notifications, allows_combination_rules,
}
use de_box_asset_alert.Plans.RuleTypes.{
  balance_change, incoming, outgoing, approval_change, address_interaction,
}
use de_box_asset_alert.Plans.Catalog.{get}
use de_box_asset_alert.Store.Tables.{WatchRule}
use de_box_asset_alert.Store.Rules.{normalize_language}
use de_box_asset_alert.Alerts.Tables.{AlertDb}
use de_box_asset_alert.Alerts.Events.{count_daily_alert_events, store_rule_value}
use de_box_asset_alert.Monitor.Conditions.{is_reported, decimal_eq, string_value}
use de_box_asset_alert.Monitor.Texts.{short_address}
use de_box_asset_alert.Monitor.Check.{
  World, BalanceResult, InteractionResult, State, CheckError, plan_failed, RuleStatus, baseline,
  no_change, daily_limit, plan_limited, unsupported, invalid, error, RuleResult, new_result, Check,
  ◌>>=◌, ◌>>◌, pure, fail, modify_store, of_chain,
}
use de_box_asset_alert.Monitor.Trigger.{record_trigger}

unfoldable pub plan_limited_result : WatchRule → Plan → String → RuleResult
unfolding new_result
plan_limited_result rule plan reason = record (new_result rule.id plan_limited) {
  reason = reason;
  plan = plan.code;
}

-- The first thing that the plan does not allow.
unfoldable pub rule_allowed_by_plan : WatchRule → Plan → Option RuleResult
unfolding plan_limited_result allows_combination_rules allows_rule_type allows_stage_notifications
rule_allowed_by_plan rule plan =
    if str_eq rule.rule_scope "combination" && not (allows_combination_rules plan)
    then some (plan_limited_result rule plan "combination_rule")
    else if not (allows_rule_type plan rule.rule_type)
    then some (plan_limited_result rule plan "rule_type")
    else if str_eq rule.notification_chat_type "group" && not plan.group_notification
    then some (plan_limited_result rule plan "group_notification")
    else if str_eq rule.delivery_mode "stage" && not (allows_stage_notifications plan)
    then some (plan_limited_result rule plan "stage_notification")
    else none

unfoldable pub free_alert_timezone : String
free_alert_timezone = "Asia/Shanghai"

-- The limit of the free plan, if it has one.
unfoldable pub limit_of : Plan → Option ℕ
limit_of plan =
    if str_eq plan.code free
    then (elim plan.daily_alert_limit [
      | none ↦ none
      | some limit ↦ if limit == 0 then none else some limit
    ])
    else none

unfoldable pub daily_limit_result : WatchRule → ℕ → ℕ → RuleResult
unfolding new_result
daily_limit_result rule limit used = record (new_result rule.id daily_limit) {
  limit = limit;
  used = used;
}

unfoldable pub limited_at : WatchRule → Option ℕ → ℕ → Option RuleResult
unfolding daily_limit_result
limited_at rule none used = none
limited_at rule (some limit) used =
    if ltb used limit then none else some (daily_limit_result rule limit used)

unfoldable pub free_daily_limit : World → WatchRule → Plan → AlertDb → Option RuleResult
unfolding limited_at limit_of count_daily_alert_events free_alert_timezone
free_daily_limit w rule plan db =
    limited_at rule (limit_of plan)
      (count_daily_alert_events w.day_in rule.debox_user_id free_alert_timezone w.now db)

unfoldable pub plan_of : World → String → Result PlanError Plan
unfolding normalize_code get
plan_of w code = get w.catalog (normalize_code code free)

unfoldable pub with_value : RuleStatus → WatchRule → String → RuleResult
unfolding new_result
with_value status rule value = record (new_result rule.id status) { value = value }

-- The trigger, unless the day's limit is reached.
unfoldable pub limited_or_recorded :
    World → WatchRule → Option String → String → String → Option RuleResult → Check RuleResult
unfolding record_trigger
limited_or_recorded w rule previous value note none = record_trigger w rule previous value note
limited_or_recorded w rule previous value note (some limited) =
    pure (record limited { value = value })

unfoldable pub trigger_within_limit :
    World → WatchRule → Plan → Option String → String → String → Check RuleResult
unfolding free_daily_limit limited_or_recorded
trigger_within_limit w rule plan previous value note s =
    limited_or_recorded w rule previous value note (free_daily_limit w rule plan s.db) s

unfoldable pub asset_note : WatchRule → String → String
unfolding append concat normalize_language
asset_note rule symbol =
    let english = str_eq (normalize_language rule.notification_language) "en" in
    if str_eq rule.rule_type balance_threshold
    then (if english
        then concat
            (symbol ∷ " balance reached or fell below the threshold " ∷ rule.threshold ∷ "." ∷ [])
        else concat (symbol ∷ " 余额达到或低于阈值 " ∷ rule.threshold ∷ "。" ∷ []))
    else if str_eq rule.rule_type high_balance_threshold
    then (if english
        then concat
            (symbol ∷ " balance reached or rose above the threshold " ∷ rule.threshold ∷ "." ∷ [])
        else concat (symbol ∷ " 余额达到或高于阈值 " ∷ rule.threshold ∷ "。" ∷ []))
    else if english
    then append symbol " balance matched the monitoring condition."
    else append symbol " 余额触发监控条件。"

-- What a value is worth: the first one is a baseline, unless it is reported.
unfoldable pub observe_asset :
    World → WatchRule → Plan → BalanceResult → Option String → Bool → Check RuleResult
unfolding trigger_within_limit with_value asset_note
observe_asset w rule plan current previous true =
    trigger_within_limit w rule plan previous current.value (asset_note rule current.symbol)
observe_asset w rule plan current none false = pure (with_value baseline rule current.value)
observe_asset w rule plan current (some previous) false =
    pure (with_value no_change rule current.value)

unfoldable pub check_asset_rule : World → WatchRule → Plan → Check RuleResult
unfolding store_rule_value observe_asset is_reported
check_asset_rule w rule plan = do
  current ← of_chain (
      w.balance rule.wallet_address (string_value rule.token_address) rule.chain_key
        w.default_chain_key)
  modify_store (store_rule_value rule.id current.value w.now)
  observe_asset w rule plan current rule.last_value
      (is_reported w.floats rule.rule_type rule.last_value current.value rule.threshold)

unfoldable pub observe_approval :
    World → WatchRule → Plan → String → String → Option String → Check RuleResult
unfolding trigger_within_limit with_value short_address decimal_eq normalize_language concat
observe_approval w rule plan target current none = pure (with_value baseline rule current)
observe_approval w rule plan target current (some previous) =
    if decimal_eq w.floats previous current
    then pure (with_value no_change rule current)
    else trigger_within_limit w rule plan (some previous) current (
        if str_eq (normalize_language rule.notification_language) "en"
        then concat ("Approved spender: " ∷ short_address (some target) ∷ "." ∷ [])
        else concat ("授权对象：" ∷ short_address (some target) ∷ "。" ∷ []))

unfoldable pub invalid_rule : WatchRule → String → RuleResult
unfolding new_result
invalid_rule rule reason = record (new_result rule.id invalid) { reason = reason }

unfoldable pub check_approval_of :
    World → WatchRule → Plan → Option String → Option String → Check RuleResult
unfolding store_rule_value observe_approval invalid_rule
check_approval_of w rule plan none target = pure (invalid_rule rule "missing token or spender")
check_approval_of w rule plan (some token) none =
    pure (invalid_rule rule "missing token or spender")
check_approval_of w rule plan (some token) (some target) = do
  current ←
      of_chain
        (w.token_allowance rule.wallet_address token target rule.chain_key w.default_chain_key)
  modify_store (store_rule_value rule.id current w.now)
  observe_approval w rule plan target current rule.last_value

unfoldable pub check_approval_rule : World → WatchRule → Plan → Check RuleResult
unfolding check_approval_of
check_approval_rule w rule plan =
    check_approval_of w rule plan rule.token_address rule.target_address

unfoldable pub observe_interaction :
    World → WatchRule → Plan → String → InteractionResult → Option String → Check RuleResult
unfolding trigger_within_limit with_value short_address normalize_language concat
observe_interaction w rule plan target current none = pure (with_value baseline rule current.cursor)
observe_interaction w rule plan target current (some previous) =
    if str_eq current.cursor previous || not current.matched
    then pure (with_value no_change rule current.cursor)
    else trigger_within_limit w rule plan (some previous) current.cursor (
        if str_eq (normalize_language rule.notification_language) "en"
        then concat ("Target address: " ∷ short_address (some target) ∷ "." ∷ [])
        else concat ("目标地址：" ∷ short_address (some target) ∷ "。" ∷ []))

unfoldable pub check_interaction_of : World → WatchRule → Plan → Option String → Check RuleResult
unfolding store_rule_value observe_interaction invalid_rule
check_interaction_of w rule plan none = pure (invalid_rule rule "missing target address")
check_interaction_of w rule plan (some target) = do
  current ←
      of_chain (w.latest_interaction rule.wallet_address target rule.chain_key w.default_chain_key)
  modify_store (store_rule_value rule.id current.cursor w.now)
  observe_interaction w rule plan target current rule.last_value

unfoldable pub check_interaction_rule : World → WatchRule → Plan → Check RuleResult
unfolding check_interaction_of
check_interaction_rule w rule plan = check_interaction_of w rule plan rule.target_address

unfoldable pub is_asset_type : String → Bool
is_asset_type t =
    str_eq t balance_change
    || (str_eq t incoming
        || (str_eq t outgoing || (str_eq t balance_threshold || str_eq t high_balance_threshold)))

unfoldable pub check_by_type : World → WatchRule → Plan → Check RuleResult
unfolding check_asset_rule check_approval_rule check_interaction_rule is_asset_type new_result
check_by_type w rule plan =
    if is_asset_type rule.rule_type
    then check_asset_rule w rule plan
    else if str_eq rule.rule_type approval_change
    then check_approval_rule w rule plan
    else if str_eq rule.rule_type address_interaction
    then check_interaction_rule w rule plan
    else pure (record (new_result rule.id unsupported) { rule_type = rule.rule_type })

unfoldable pub check_allowed : World → WatchRule → Plan → Option RuleResult → Check RuleResult
unfolding check_by_type
check_allowed w rule plan none = check_by_type w rule plan
check_allowed w rule plan (some limited) = pure limited

unfoldable pub check_with_plan : World → WatchRule → Result PlanError Plan → Check RuleResult
unfolding check_allowed rule_allowed_by_plan
check_with_plan w rule (err e) = fail (plan_failed e)
check_with_plan w rule (ok plan) = check_allowed w rule plan (rule_allowed_by_plan rule plan)

-- errorResult
unfoldable pub result_or_error : ℕ → Result CheckError RuleResult × State → RuleResult × State
unfolding new_result
result_or_error id (ok result, s) = (result, s)
result_or_error id (err e, s) = (record (new_result id error) { failure = some e }, s)

unfoldable pub check_rule : World → WatchRule → String → State → RuleResult × State
unfolding check_with_plan plan_of result_or_error
check_rule w rule effective_plan_code s =
    result_or_error rule.id (check_with_plan w rule (plan_of w effective_plan_code) s)
