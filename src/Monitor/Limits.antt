-- ===== src/Monitor/Limits.antt =====
-- internal/monitor/executor.go: what a trigger, or a check that finds none, does to the alerts of the day
-- and to the messages, and what a plan answers to a rule that it does not allow.
use de_box_asset_alert.Prelude.{
  ℕ, suc, ◌≤◌, String, Bool, true, false, inl, inr, ◌≡◌, refl, ap, not, ◌&&◌, Option, none, some,
  Result, ok, err, List, [], ◌∷◌, count, exists, update, length, str_eq, ◌==◌, ltb, arith,
  Bool-cases, if◌then◌else◌,
}
use de_box_asset_alert.Plans.Types.{
  Plan, allows_rule_type, allows_stage_notifications, allows_combination_rules,
}
use de_box_asset_alert.Store.Tables.{WatchRule}
use de_box_asset_alert.Alerts.Tables.{AlertEvent, AlertDb}
use de_box_asset_alert.Alerts.Events.{owns, is_on_day, count_daily_alert_events, store_rule_value}
use de_box_asset_alert.Monitor.Check.{
  World, Message, State, CheckError, plan_limited, RuleResult, new_result,
}
use de_box_asset_alert.Monitor.Trigger.{record_trigger}
use de_box_asset_alert.Monitor.Trigger.Realtime.{unsettled}
use de_box_asset_alert.Monitor.Effects.{is_alerted, Reported, daily}
use de_box_asset_alert.Monitor.Delivery.{record_trigger-Effect}
use de_box_asset_alert.Monitor.Rules.{
  plan_limited_result, free_alert_timezone, limit_of, limited_at, daily_limit_result,
  free_daily_limit, limited_or_recorded, trigger_within_limit, rule_allowed_by_plan,
}

abbrev pub today : World → WatchRule → AlertDb → ℕ
today w rule db = daily w rule.debox_user_id free_alert_timezone db

owns_after :
    (rules : List WatchRule) (user value : String) (id now rule_id : ℕ)
    → owns
        (update
          (λ (r : WatchRule). r.id == id)
          (λ r. record r { last_value = some value; last_checked_at = some now })
          rules)
        user
        rule_id
      ≡ owns rules user rule_id
unfolding owns exists update
owns_after [] user value id now rule_id = refl
owns_after (r ∷ rules) user value id now rule_id =
    ground (arith, owns_after rules user value id now rule_id)

count_same {ℓ} :
    {A : Type ℓ} (p q : A → Bool) (xs : List A) → ((x : A) → p x ≡ q x) → count p xs ≡ count q xs
unfolding count
count_same p q [] h = refl
count_same p q (x ∷ xs) h = ground (arith, h x, count_same p q xs h)

-- The value of a rule does not matter to the alerts of the day.
today-store_rule_value :
    (w : World) (rule : WatchRule) (id : ℕ) (value : String) (db : AlertDb)
    → today w rule (store_rule_value id value w.now db) ≡ today w rule db
unfolding store_rule_value count_daily_alert_events
today-store_rule_value w rule id value db = count_same _ _ db.alert_events (λ (e : AlertEvent).
    ap (λ (b : Bool). b && is_on_day w.day_in free_alert_timezone w.now e)
      (owns_after db.watch_rules rule.debox_user_id value id w.now e.watch_rule_id))

-- None, or a result of this status.
pub data IsLimited : Option RuleResult → Type 0 where
  allowed : IsLimited none
  limited : (r : RuleResult) → r.status ≡ plan_limited → IsLimited (some r)

pub IsLimited-status : {r : RuleResult} → IsLimited (some r) → r.status ≡ plan_limited
IsLimited-status (limited r e) = e

pub rule_allowed_by_plan-IsLimited :
    (rule : WatchRule) (plan : Plan) → IsLimited (rule_allowed_by_plan rule plan)
unfolding rule_allowed_by_plan plan_limited_result new_result
rule_allowed_by_plan-IsLimited rule plan =
    elim (Bool-cases
      (str_eq rule.rule_scope "combination" && not (allows_combination_rules plan))) [
        | inl e ↦ rw e (limited _ refl)
        | inr e ↦ elim (Bool-cases (allows_rule_type plan rule.rule_type)) [
          | inr f ↦ rw (e, f) (limited _ refl)
          | inl f ↦
              elim (Bool-cases
                (str_eq rule.notification_chat_type "group" && not plan.group_notification)) [
                  | inl g ↦ rw (e, f, g) (limited _ refl)
                  | inr g ↦
                      elim (Bool-cases (
                        str_eq rule.delivery_mode "stage"
                        && not (allows_stage_notifications plan))) [
                          | inl h ↦ rw (e, f, g, h) (limited _ refl)
                          | inr h ↦ rw (e, f, g, h) allowed
                        ]
                ]
        ]
      ]

-- An alert is never one too many, none waits for its notification afterwards, one message at most has
-- been given to the messenger, and the check says `alerted` exactly if it has arrived.
pub record Checked (w : World) (rule : WatchRule) (plan : Plan) (db : AlertDb) (ms : List Message)
    (r : Result CheckError RuleResult × State) : Type 0 where
  pub within :
      (limit : ℕ)
      → limit_of plan ≡ some limit
      → today w rule db ≤ limit
      → today w rule r.1.db ≤ limit
  pub settled : unsettled r.1.db ≤ unsettled db
  pub one_message : length r.1.messages ≤ suc (length ms)
  pub reported : Reported ms r

module _ (w : World) (rule : WatchRule) (plan : Plan) where
  -- A step that changes nothing.
  unchanged :
      (db : AlertDb) (ms : List Message) (r : Result CheckError RuleResult)
      → Reported ms (r, record { db = db; messages = ms })
      → Checked w rule plan db ms (r, record { db = db; messages = ms })
  unchanged db ms r h = record {
    within = λ l e k. k;
    settled = omega arith;
    one_message = omega arith;
    reported = h;
  }

  pub quiet :
      (db : AlertDb) (ms : List Message) (result : RuleResult)
      → is_alerted result.status ≡ false
      → Checked w rule plan db ms (ok result, record { db = db; messages = ms })
  quiet db ms result h = unchanged db ms (ok result) (ground (arith, h))

  pub failing :
      (db : AlertDb) (ms : List Message) (e : CheckError)
      → Checked w rule plan db ms (err e, record { db = db; messages = ms })
  failing db ms e = unchanged db ms (err e) (omega arith)

  -- An alert, where one more is within the limit.
  recorded-Checked :
      (previous : Option String) (value note : String) (db : AlertDb) (ms : List Message)
      → ((l : ℕ) → limit_of plan ≡ some l → suc (today w rule db) ≤ l)
      → Checked w rule plan db ms
          (record_trigger w rule previous value note (record { db = db; messages = ms }))
  recorded-Checked previous value note db ms free =
      let effect =
        record_trigger-Effect w rule.debox_user_id free_alert_timezone rule previous value note db
          ms in
      record {
        within = λ l f k. omega (arith, effect.one_alert, free l f);
        settled = effect.settled;
        one_message = effect.one_message;
        reported = effect.reported;
      }

  below_or_limited :
      (previous : Option String) (value note : String) (db : AlertDb) (ms : List Message)
      (limit : ℕ) (below : Bool)
      → limit_of plan ≡ some limit
      → ltb (today w rule db) limit ≡ below
      → Checked w rule plan db ms (
          limited_or_recorded w rule previous value note
            (if below then none else some (daily_limit_result rule limit (today w rule db)))
            (record { db = db; messages = ms }))
  unfolding limited_or_recorded daily_limit_result new_result
  below_or_limited previous value note db ms limit true e more =
      recorded-Checked previous value note db ms
        (λ l f. let same : limit ≡ l = cc in ground (arith, more, same))
  below_or_limited previous value note db ms limit false e reached = quiet db ms _ refl

  limited-Checked :
      (previous : Option String) (value note : String) (db : AlertDb) (ms : List Message)
      (limit : Option ℕ)
      → limit_of plan ≡ limit
      → Checked w rule plan db ms (
          limited_or_recorded w rule previous value note
            (limited_at rule limit (today w rule db))
            (record { db = db; messages = ms }))
  unfolding limited_or_recorded limited_at
  limited-Checked previous value note db ms none e =
      recorded-Checked previous value note db ms (λ l f. absurd (cc))
  limited-Checked previous value note db ms (some limit) e =
      below_or_limited previous value note db ms limit (ltb (today w rule db) limit) e refl

  pub trigger-Checked :
      (previous : Option String) (value note : String) (db : AlertDb) (ms : List Message)
      → Checked w rule plan db ms
          (trigger_within_limit w rule plan previous value note (record { db = db; messages = ms }))
  unfolding trigger_within_limit free_daily_limit
  trigger-Checked previous value note db ms =
      limited-Checked previous value note db ms (limit_of plan) refl

  -- What holds of the rest of a check, once the value has been stored, holds of the check.
  pub stored :
      (id : ℕ) (value : String) (db : AlertDb) (ms : List Message)
      (r : Result CheckError RuleResult × State)
      → Checked w rule plan (store_rule_value id value w.now db) ms r
      → Checked w rule plan db ms r
  unfolding store_rule_value
  stored id value db ms r c = record {
    within = λ l e k. c.within l e (omega (arith, today-store_rule_value w rule id value db, k));
    settled = c.settled;
    one_message = c.one_message;
    reported = c.reported;
  }
