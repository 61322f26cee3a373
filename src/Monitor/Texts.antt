-- ===== src/Monitor/Texts.antt =====
-- internal/monitor/executor.go: the texts of the notifications.
use de_box_asset_alert.Prelude.{
  ℕ, suc, ◌+◌, ◌-◌, ◌≡◌, refl, ap, ◌∙◌, arith, String, Bool, true, false, Option, none, some, List,
  [], ◌∷◌, take_runes, drop_runes, rune_count, append, trim_space, str_eq, leb, if◌then◌else◌,
}
use de_box_asset_alert.Prelude.Rat.{concat}
use de_box_asset_alert.Prelude.Strings.{show_ℕ}
use de_box_asset_alert.Store.Tables.{WatchRule}
use de_box_asset_alert.Store.Rules.{normalize_language}
use de_box_asset_alert.Plans.Types.{balance_threshold, high_balance_threshold}
use de_box_asset_alert.Plans.RuleTypes.{
  balance_change, incoming, outgoing, approval_change, address_interaction,
}
use de_box_asset_alert.Monitor.Escape.{escape_string}
use de_box_asset_alert.Monitor.Tags.{tag_count, tag_count-append, tag_count-escape_string}
use de_box_asset_alert.Alerts.Tables.{AggregateNotification}
use de_box_asset_alert.Alerts.Stage.{StageTriggerResult}
use de_box_asset_alert.Alerts.Combination.{MemberProgress}

unfoldable pub rule_type_labels : String → String → Option String
rule_type_labels language rule_type =
    let zh = str_eq language "zh" in
    if str_eq rule_type balance_change
    then some (if zh then "余额变化" else "Balance change")
    else if str_eq rule_type incoming
    then some (if zh then "转入提醒" else "Incoming transfer")
    else if str_eq rule_type outgoing
    then some (if zh then "转出提醒" else "Outgoing transfer")
    else if str_eq rule_type balance_threshold
    then some (if zh then "低余额阈值" else "Low balance threshold")
    else if str_eq rule_type high_balance_threshold
    then some (if zh then "高余额阈值" else "High balance threshold")
    else if str_eq rule_type approval_change
    then some (if zh then "授权 / Approve 监控" else "Approval change")
    else if str_eq rule_type address_interaction
    then some (if zh then "指定地址交互提醒" else "Specified address interaction")
    else none

-- The label of a type without one is its name.
unfoldable pub label_of : String → String → String
unfolding rule_type_labels
label_of language rule_type = elim (rule_type_labels language rule_type) [
  | none ↦ rule_type
  | some label ↦ if str_eq label "" then rule_type else label
]

-- Addresses are ASCII.
unfoldable pub short_address : Option String → String
unfolding take_runes drop_runes rune_count append
short_address none = "-"
short_address (some value) =
    if str_eq value ""
    then "-"
    else if leb (rune_count value) 16
    then value
    else append (take_runes 8 value) (append "..." (drop_runes (rune_count value - 6) value))

abbrev pub is_english : String → Bool
unfolding normalize_language
is_english language = str_eq (normalize_language language) "en"

abbrev pub pick : Bool → String → String → String
pick english en zh = if english then en else zh

abbrev or_dash : Option String → String
or_dash none = "-"
or_dash (some value) = value

unfoldable pub alert_parts : WatchRule → Option String → String → String → List String
unfolding label_of escape_string short_address normalize_language
alert_parts rule previous_value current_value note =
    let english = str_eq (normalize_language rule.notification_language) "en" in
    let label = label_of (normalize_language rule.notification_language) rule.rule_type in
    ("<b>DeBox Asset Alert</b><br/>"
      ∷ pick english "Rule: " "规则："
      ∷ escape_string label
      ∷ "<br/>"
      ∷ pick english "Network: " "网络："
      ∷ escape_string rule.chain_key
      ∷ "<br/>"
      ∷ pick english "Monitored address: " "监控地址："
      ∷ escape_string (short_address (some rule.wallet_address))
      ∷ "<br/>"
      ∷ pick english "Change: " "变化："
      ∷ escape_string (or_dash previous_value)
      ∷ " -&gt; "
      ∷ escape_string current_value
      ∷ "<br/>"
      ∷ escape_string note
      ∷ [])

unfoldable pub alert_text : WatchRule → Option String → String → String → String
unfolding alert_parts concat
alert_text rule previous_value current_value note =
    concat (alert_parts rule previous_value current_value note)

-- The notes, numbered from one.
numbered : String → ℕ → List String → String
unfolding append concat escape_string show_ℕ
numbered before index [] = ""
numbered before index (note ∷ notes) =
    append (concat (before ∷ show_ℕ index ∷ ". " ∷ escape_string note ∷ []))
      (numbered before (suc index) notes)

unfoldable pub stage_alert_text : WatchRule → StageTriggerResult → String
unfolding label_of escape_string short_address concat numbered show_ℕ normalize_language
stage_alert_text rule result =
    let english = str_eq (normalize_language rule.notification_language) "en" in
    let label = label_of (normalize_language rule.notification_language) rule.rule_type in
    concat (
      pick english "<b>DeBox Asset Alert - Stage summary</b><br/>"
        "<b>DeBox Asset Alert - 阶段汇总</b><br/>"
      ∷ pick english "Rule: " "规则："
      ∷ escape_string label
      ∷ "<br/>"
      ∷ pick english "Network: " "网络："
      ∷ escape_string rule.chain_key
      ∷ "<br/>"
      ∷ pick english "Monitored address: " "监控地址："
      ∷ escape_string (short_address (some rule.wallet_address))
      ∷ "<br/>"
      ∷ pick english "Cycle: " "周期："
      ∷ show_ℕ rule.cycle_minutes
      ∷ pick english " minutes<br/>" " 分钟<br/>"
      ∷ pick english "Triggers this cycle: " "本周期累计触发："
      ∷ show_ℕ result.total_trigger_count
      ∷ pick english "<br/>" " 次<br/>"
      ∷ pick english "Recent events:" "最近事件："
      ∷ numbered "<br/>" 1 result.recent_notes
      ∷ [])

member_lines : String → List MemberProgress → String
unfolding append concat escape_string numbered label_of show_ℕ
member_lines language [] = ""
member_lines language (p ∷ ps) =
    append
      (concat (
        "<br/>- "
        ∷ escape_string (label_of language p.rule_type)
        ∷ ": "
        ∷ show_ℕ p.trigger_count
        ∷ "/"
        ∷ show_ℕ p.required_trigger_count
        ∷ numbered "<br/>&nbsp;&nbsp;" 1 p.recent_notes
        ∷ []))
      (member_lines language ps)

-- The line of the note of a combination.
note_line : Bool → String → String
unfolding append escape_string
note_line english note =
    if str_eq note ""
    then ""
    else append (pick english "<br/>Note: " "<br/>备注：") (escape_string note)

-- Of a result with a notification, the only one that is sent.
unfoldable pub combination_alert_text : AggregateNotification → List MemberProgress → String
unfolding concat note_line member_lines normalize_language trim_space
combination_alert_text notification progress =
    let language = normalize_language notification.language in
    let english = str_eq language "en" in
    concat (
      pick english "<b>DeBox Asset Alert - Combined alert</b>" "<b>DeBox Asset Alert - 组合规则提醒</b>"
      ∷ note_line english (trim_space notification.note)
      ∷ pick english "<br/>All combined conditions have reached their trigger counts:"
          "<br/>所有联动条件均已达到触发次数："
      ∷ member_lines language progress
      ∷ [])

sum_tags : List String → ℕ
sum_tags [] = 0
sum_tags (s ∷ ss) = tag_count s + sum_tags ss

tag_count-concat : (ss : List String) → tag_count (concat ss) ≡ sum_tags ss
unfolding concat sum_tags tag_count
tag_count-concat [] = refl
tag_count-concat (s ∷ ss) =
    tag_count-append s (concat ss) ∙ ap (λ n. tag_count s + n) (tag_count-concat ss)

tag_count-pick :
    (english : Bool) (en zh : String)
    → tag_count en ≡ 0
    → tag_count zh ≡ 0
    → tag_count (pick english en zh) ≡ 0
tag_count-pick true en zh p q = p
tag_count-pick false en zh p q = q

alert_parts-tags :
    (rule : WatchRule) (previous : Option String) (current note : String)
    → sum_tags (alert_parts rule previous current note) ≡ 7
unfolding alert_parts sum_tags tag_count
alert_parts-tags rule previous current note =
    let english = str_eq (normalize_language rule.notification_language) "en" in
    omega (
      arith,
      tag_count-escape_string
          (label_of (normalize_language rule.notification_language) rule.rule_type),
      tag_count-escape_string rule.chain_key,
      tag_count-escape_string (short_address (some rule.wallet_address)),
      tag_count-escape_string (or_dash previous),
      tag_count-escape_string current,
      tag_count-escape_string note,
      tag_count-pick english "Rule: " "规则：" refl refl,
      tag_count-pick english "Network: " "网络：" refl refl,
      tag_count-pick english "Monitored address: " "监控地址：" refl refl,
      tag_count-pick english "Change: " "变化：" refl refl,
    )

-- The text of an alert has its own seven tags, whatever the rule, the values and the note contain.
pub alert_text-tags :
    (rule : WatchRule) (previous : Option String) (current note : String)
    → tag_count (alert_text rule previous current note) ≡ 7
unfolding alert_text
alert_text-tags rule previous current note =
    tag_count-concat (alert_parts rule previous current note)
    ∙ alert_parts-tags rule previous current note
