-- ===== src/Monitor/Cycle.antt =====
-- internal/monitor/executor.go: CheckAll and CheckRule, over the rules that are enabled.
use de_box_asset_alert.Prelude.{
  ℕ, suc, ◌+◌, ◌≤◌, String, Bool, inl, inr, ◌≡◌, refl, ap, Option, none, some, List, [], ◌∷◌,
  length, count, select, arith, Bool-cases, Result-cases,
}
use de_box_asset_alert.Prelude.Int.{ℤ}
use de_box_asset_alert.Prelude.Single.{indicator}
use de_box_asset_alert.Store.Tables.{WatchRule}
use de_box_asset_alert.Alerts.Enabled.{EnabledRule, list_enabled_watch_rules}
use de_box_asset_alert.Monitor.Check.{World, State, RuleResult, new_result}
use de_box_asset_alert.Monitor.Trigger.Realtime.{unsettled, arrived}
use de_box_asset_alert.Monitor.Effects.{is_alerted}
use de_box_asset_alert.Monitor.Rules.{check_rule, plan_of, check_with_plan, result_or_error}
use de_box_asset_alert.Monitor.Safety.{check_rule-CheckEffect, is_error}

pub record CycleResult : Type 0 where
  pub checked : ℕ
  pub alerted : ℕ
  pub errors : List RuleResult
  pub results : List RuleResult

-- Every rule is checked at its time, with the answers of that time.
unfoldable pub check_each : (WatchRule → World) → List EnabledRule → State → List RuleResult × State
unfolding check_rule
check_each worlds [] s = ([], s)
check_each worlds (e ∷ es) s =
    let (result, s') = check_rule (worlds e.rule) e.rule e.effective_plan_code s in
    let (results, s'') = check_each worlds es s' in (result ∷ results, s'')

unfoldable pub cycle_result : List RuleResult → CycleResult
unfolding count select
cycle_result results = record {
  checked = length results;
  alerted = count (λ (r : RuleResult). is_alerted r.status) results;
  errors = select (λ (r : RuleResult). is_error r.status) results;
  results = results;
}

unfoldable pub check_all : (WatchRule → World) → ℤ → ℕ → State → CycleResult × State
unfolding list_enabled_watch_rules check_each cycle_result
check_all worlds limit now s =
    let (results, s') = check_each worlds (list_enabled_watch_rules limit now s.db) s in
    (cycle_result results, s')

-- What TryExecutionLock answers: an error, that the lock is taken, or a lock and what its release
-- answers.
pub data LockAnswer : Type 0 where
  lock_failed : String → LockAnswer
  not_acquired : LockAnswer
  acquired : Option String → LockAnswer

pub data RuleAnswer : Type 0 where
  answered : RuleResult → RuleAnswer
  locked : ℕ → RuleAnswer
  refused : String → RuleAnswer

-- The result, unless the release failed.
unfoldable pub after_unlock : Option String → RuleResult × State → RuleAnswer × State
after_unlock none (result, s) = (answered result, s)
after_unlock (some message) (result, s) = (refused message, s)

unfoldable pub check_rule_locked :
    World → Option LockAnswer → WatchRule → String → State → RuleAnswer × State
unfolding check_rule after_unlock
check_rule_locked w none rule code s = after_unlock none (check_rule w rule code s)
check_rule_locked w (some (lock_failed message)) rule code s = (refused message, s)
check_rule_locked w (some not_acquired) rule code s = (locked rule.id, s)
check_rule_locked w (some (acquired unlock)) rule code s =
    after_unlock unlock (check_rule w rule code s)

-- A check is in its result: a message that has arrived, by `alerted` or by an error.
pub record Accounted (s : State) (r : RuleResult × State) : Type 0 where
  pub settled : unsettled r.1.db ≤ unsettled s.db
  pub one_message : length r.1.messages ≤ suc (length s.messages)
  pub accounted :
      arrived r.1.messages
      ≤ arrived s.messages + indicator (is_alerted r.0.status) + indicator (is_error r.0.status)

check_rule-Accounted :
    (w : World) (rule : WatchRule) (code : String) (s : State)
    → Accounted s (check_rule w rule code s)
unfolding check_rule check_with_plan result_or_error new_result
check_rule-Accounted w rule code s = elim (Result-cases (plan_of w code)) [
  | inr (e, h) ↦
      rw h (record { settled = omega arith; one_message = omega arith; accounted = omega arith })
  | inl (plan, h) ↦
      let c = check_rule-CheckEffect w rule code plan s h in
      record { settled = c.settled; one_message = c.one_message; accounted = c.accounted }
]

count-cons :
    (test : RuleResult → Bool) (x : RuleResult) (xs : List RuleResult)
    → count test (x ∷ xs) ≡ indicator (test x) + count test xs
unfolding count
count-cons test x xs = ground arith

length-select-cons :
    (test : RuleResult → Bool) (x : RuleResult) (xs : List RuleResult)
    → length (select test (x ∷ xs)) ≡ indicator (test x) + length (select test xs)
unfolding select
length-select-cons test x xs = elim (Bool-cases (test x)) [
  | inl e ↦ rw e (omega arith)
  | inr e ↦ rw e (omega arith)
]

check_each-accounts :
    (es : List EnabledRule) (worlds : WatchRule → World) (s : State)
    → (length (check_each worlds es s).0 ≡ length es)
      × (unsettled (check_each worlds es s).1.db ≤ unsettled s.db)
      × (length (check_each worlds es s).1.messages ≤ length s.messages + length es)
      × (arrived (check_each worlds es s).1.messages
          ≤ arrived s.messages
            + count (λ (r : RuleResult). is_alerted r.status) (check_each worlds es s).0
            + length (select (λ (r : RuleResult). is_error r.status) (check_each worlds es s).0))
unfolding check_each
check_each-accounts [] worlds s = (refl, omega arith, omega arith, omega arith)
check_each-accounts (e ∷ es) worlds s =
    let first = check_rule-Accounted (worlds e.rule) e.rule e.effective_plan_code s in
    let next = (check_rule (worlds e.rule) e.rule e.effective_plan_code s).1 in
    let result = (check_rule (worlds e.rule) e.rule e.effective_plan_code s).0 in
    let rest = (check_each worlds es next).0 in
    let (a, b, c, d) = check_each-accounts es worlds next in
    (
      ap suc a,
      omega (arith, b, first.settled),
      omega (arith, c, first.one_message),
      omega (
        arith,
        d,
        first.accounted,
        count-cons (λ (r : RuleResult). is_alerted r.status) result rest,
        length-select-cons (λ (r : RuleResult). is_error r.status) result rest,
      ),
    )

-- A cycle checks every rule it lists; no alert that it makes waits for its notification afterwards; it
-- gives at most one message per rule to the messenger; and of those that arrive none is unaccounted
-- for: they are at most the alerted results and the errors that it reports.
pub check_all-accounts :
    (worlds : WatchRule → World) (limit : ℤ) (now : ℕ) (s : State)
    → ((check_all worlds limit now s).0.checked ≡ length (list_enabled_watch_rules limit now s.db))
      × (unsettled (check_all worlds limit now s).1.db ≤ unsettled s.db)
      × (length (check_all worlds limit now s).1.messages
          ≤ length s.messages + (check_all worlds limit now s).0.checked)
      × (arrived (check_all worlds limit now s).1.messages
          ≤ arrived s.messages
            + (check_all worlds limit now s).0.alerted
            + length (check_all worlds limit now s).0.errors)
unfolding check_all cycle_result
check_all-accounts worlds limit now s =
    let (a, b, c, d) = check_each-accounts (list_enabled_watch_rules limit now s.db) worlds s in
    (a, b, omega (arith, a, c), d)
