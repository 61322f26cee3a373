-- ===== src/Monitor/Safety.antt =====
-- internal/monitor/executor.go: what a check of a rule does to the alerts and to the messages, whatever its
-- type, its plan and its outcome.
use de_box_asset_alert.Prelude.{
  ℕ, suc, ◌+◌, ◌≤◌, String, Bool, true, false, ◌≡◌, refl, not, ◌&&◌, some, Result, ok, err, length,
  ◌==◌, arith,
}
use de_box_asset_alert.Prelude.Single.{indicator}
use de_box_asset_alert.Plans.Types.{Plan}
use de_box_asset_alert.Store.Tables.{WatchRule}
use de_box_asset_alert.Monitor.Check.{
  World, State, CheckError, RuleStatus, error, RuleResult, new_result,
}
use de_box_asset_alert.Monitor.Trigger.Realtime.{unsettled, arrived}
use de_box_asset_alert.Monitor.Effects.{is_alerted}
use de_box_asset_alert.Monitor.Rules.{
  limit_of, check_allowed, check_with_plan, rule_allowed_by_plan, plan_of, result_or_error,
  check_rule,
}
use de_box_asset_alert.Monitor.Limits.{today, Checked}
use de_box_asset_alert.Monitor.Kinds.{check_allowed-Checked}

abbrev pub is_error : RuleStatus → Bool
is_error error = true
is_error _ = false

-- The state after a check, against the one before it.
pub record CheckEffect (s : State) (r : RuleResult × State) : Type 0 where
  pub settled : unsettled r.1.db ≤ unsettled s.db
  pub one_message : length r.1.messages ≤ suc (length s.messages)
  pub accounted :
      arrived r.1.messages
      ≤ arrived s.messages + indicator (is_alerted r.0.status) + indicator (is_error r.0.status)
  pub told :
      (is_alerted r.0.status && not (arrived r.1.messages == suc (arrived s.messages))) ≡ false

of_result :
    (w : World) (rule : WatchRule) (plan : Plan) (s : State)
    (r : Result CheckError RuleResult × State)
    → Checked w rule plan s.db s.messages r
    → CheckEffect s (result_or_error rule.id r)
unfolding result_or_error new_result
of_result w rule plan s (ok result, s') c = record {
  settled = c.settled;
  one_message = c.one_message;
  accounted = omega (arith, c.reported);
  told = ground (arith, c.reported);
}
of_result w rule plan s (err e, s') c = record {
  settled = c.settled;
  one_message = c.one_message;
  accounted = omega (arith, c.reported);
  told = refl;
}

limit_of_result :
    (w : World) (rule : WatchRule) (plan : Plan) (s : State) (limit : ℕ)
    (r : Result CheckError RuleResult × State)
    → Checked w rule plan s.db s.messages r
    → limit_of plan ≡ some limit
    → today w rule s.db ≤ limit
    → today w rule (result_or_error rule.id r).1.db ≤ limit
unfolding result_or_error
limit_of_result w rule plan s limit (ok result, s') c e h = c.within limit e h
limit_of_result w rule plan s limit (err x, s') c e h = c.within limit e h

module _ (w : World) (rule : WatchRule) (code : String) (plan : Plan) (s : State)
    (h : plan_of w code ≡ ok plan) where
  allowed_or_limited :
      Checked w rule plan s.db s.messages
        (check_allowed w rule plan (rule_allowed_by_plan rule plan) s)
  allowed_or_limited =
      check_allowed-Checked w rule plan (rule_allowed_by_plan rule plan) s.db s.messages refl

  -- A check of a rule under a plan of the catalog leaves no further alert that waits for its notification;
  -- it gives one message at most to the messenger; a message that has arrived is in its result, by
  -- `alerted` or by an error; and a check that says `alerted` has had one message delivered.
  pub check_rule-CheckEffect : CheckEffect s (check_rule w rule code s)
  unfolding check_rule check_with_plan
  check_rule-CheckEffect = rw h (of_result w rule plan s _ allowed_or_limited)

  -- A check under a plan with a daily limit, the free one, keeps the alerts of the user on that day
  -- within the limit.
  pub check_rule-within_limit :
      (limit : ℕ)
      → limit_of plan ≡ some limit
      → today w rule s.db ≤ limit
      → today w rule (check_rule w rule code s).1.db ≤ limit
  unfolding check_rule check_with_plan
  check_rule-within_limit limit e k =
      rw h (limit_of_result w rule plan s limit _ allowed_or_limited e k)
