-- ===== src/Monitor/Observed.antt =====
-- internal/monitor/executor.go: the checks of one rule, one after another.
use de_box_asset_alert.Prelude.{
  ℕ, String, Bool, true, false, ◌⊎◌, inl, inr, ==_iff, ◌≡◌, refl, ap, ◌∙◌, sym, subst, not, Option,
  none, some, Result, ok, err, List, [], ◌∷◌, find, update, map, ◌==◌, ltb, arith, Bool-cases,
}
use de_box_asset_alert.Prelude.Queries.{find-test}
use de_box_asset_alert.Plans.Types.{Plan, balance_threshold, high_balance_threshold}
use de_box_asset_alert.Store.Tables.{WatchRule}
use de_box_asset_alert.Alerts.Tables.{AlertDb}
use de_box_asset_alert.Alerts.Events.{store_rule_value}
use de_box_asset_alert.Monitor.Check.{
  World, BalanceResult, Message, State, CheckError, RuleStatus, daily_limit, RuleResult, new_result,
}
use de_box_asset_alert.Monitor.Conditions.{Floats, is_reported, string_value}
use de_box_asset_alert.Monitor.Crossings.{reports, rises, is_past, reports-rises}
use de_box_asset_alert.Monitor.Effects.{is_quiet, Loud}
use de_box_asset_alert.Monitor.Delivery.{record_trigger-Effect}
use de_box_asset_alert.Monitor.Limits.{today}
use de_box_asset_alert.Monitor.Rules.{
  plan_limited_result, free_alert_timezone, limited_at, limited_or_recorded, trigger_within_limit,
  free_daily_limit, daily_limit_result, with_value, observe_asset, check_asset_rule, check_by_type,
  check_allowed, check_with_plan, rule_allowed_by_plan, plan_of, result_or_error, check_rule,
  is_asset_type, limit_of,
}

abbrev pub row_of : ℕ → AlertDb → Option WatchRule
row_of id db = find (λ (r : WatchRule). r.id == id) db.watch_rules

-- The row after a check that has observed a value.
abbrev observed : WatchRule → String → ℕ → WatchRule
observed r value now = record r { last_value = some value; last_checked_at = some now }

find-update :
    {A : Type 0} (test : A → Bool) (f : A → A) (xs : List A) {r : A}
    → ((x : A) → test (f x) ≡ test x)
    → find test xs ≡ some r
    → find test (update test f xs) ≡ some (f r)
unfolding find update
find-update test f [] k h = absurd (cc)
find-update test f (x ∷ xs) {r} k h = elim (Bool-cases (test x)) [
  | inl e ↦
      let same : x ≡ r = ground arith in
      let hit : test (f x) ≡ true = k x ∙ e in rw (e, hit) (ap (λ y. some (f y)) same)
  | inr e ↦
      let rest : find test xs ≡ some r = ground arith in rw (e, e) (find-update test f xs k rest)
]

limited_at-status :
    (limit : Option ℕ) (used : ℕ) (rule : WatchRule) {result : RuleResult}
    → limited_at rule limit used ≡ some result
    → result.status ≡ daily_limit
unfolding limited_at daily_limit_result new_result
limited_at-status none used rule e = absurd (cc)
limited_at-status (some limit) used rule {result} e = elim (Bool-cases (ltb used limit)) [
  | inl f ↦ absurd (cc)
  | inr f ↦
      let same : daily_limit_result rule limit used ≡ result = ground arith in
      ap (λ (r : RuleResult). r.status) (sym same)
]

-- What a check tells: whether it found nothing to report, unless it failed.
abbrev pub Told : Bool → Result CheckError RuleResult → Type 0
Told reported (ok result) = is_quiet result.status ≡ not reported
Told reported (err e) = reported ≡ true

-- The rules after the step, and whether there was anything to report.
pub record Observed (db : AlertDb) (reported : Bool) (r : Result CheckError RuleResult × State)
    : Type 0 where
  pub rules : r.1.db.watch_rules ≡ db.watch_rules
  pub told : Told reported r.0

Loud-Told : (r : Result CheckError RuleResult) → Loud r → Told true r
Loud-Told (ok result) h = h
Loud-Told (err e) h = refl

module _ (w : World) (rule : WatchRule) (plan : Plan) where
  limited-Observed :
      (previous : Option String) (value note : String) (db : AlertDb) (ms : List Message)
      (limited : Option RuleResult)
      → limited_at rule (limit_of plan) (today w rule db) ≡ limited
      → Observed db true (
          limited_or_recorded w rule previous value note limited
            (record { db = db; messages = ms }))
  unfolding limited_or_recorded
  limited-Observed previous value note db ms none e =
      let effect =
        record_trigger-Effect w rule.debox_user_id free_alert_timezone rule previous value note db
          ms in
      record { rules = effect.rules; told = Loud-Told _ effect.loud }
  limited-Observed previous value note db ms (some result) e = record {
    rules = refl;
    told = ap is_quiet (limited_at-status _ _ rule e);
  }

  observe_asset-Observed :
      (current : BalanceResult) (previous : Option String) (reported : Bool) (db : AlertDb)
      (ms : List Message)
      → Observed db reported
          (observe_asset w rule plan current previous reported (record { db = db; messages = ms }))
  unfolding observe_asset with_value new_result trigger_within_limit free_daily_limit
  observe_asset-Observed current previous true db ms =
      limited-Observed previous current.value _ db ms _ refl
  observe_asset-Observed current none false db ms = record { rules = refl; told = refl }
  observe_asset-Observed current (some previous) false db ms = record { rules = refl; told = refl }

of_Told :
    (id : ℕ) (reported : Bool) (r : Result CheckError RuleResult × State)
    → Told reported r.0
    → (is_quiet (result_or_error id r).0.status ≡ not reported)
      × ((result_or_error id r).1.db.watch_rules ≡ r.1.db.watch_rules)
unfolding result_or_error new_result
of_Told id reported (ok result, s) h = (h, refl)
of_Told id reported (err e, s) h = (ground (arith, h), refl)

-- The chain tells a value of an asset of a wallet, to a monitor that has the plan.
pub record Observes (floats : Floats) (wallet token chain_key code : String) (plan : Plan)
    (w : World) (value : String) : Type 0 where
  pub has_plan : plan_of w code ≡ ok plan
  pub current : BalanceResult
  pub balance : w.balance wallet token chain_key w.default_chain_key ≡ ok current
  pub same_value : current.value ≡ value
  pub same_floats : w.floats ≡ floats

-- Of a check of an asset rule, the rules after it and its status.
check_rule-Observed :
    (floats : Floats) (rule : WatchRule) (code : String) (plan : Plan) (w : World) (value : String)
    (s : State)
    → Observes floats rule.wallet_address
        (string_value rule.token_address)
        rule.chain_key
        code
        plan
        w
        value
    → rule_allowed_by_plan rule plan ≡ none
    → is_asset_type rule.rule_type ≡ true
    → ((check_rule w rule code s).1.db.watch_rules
        ≡ (store_rule_value rule.id value w.now s.db).watch_rules)
      × (is_quiet (check_rule w rule code s).0.status
          ≡ not (is_reported floats rule.rule_type rule.last_value value rule.threshold))
unfolding check_rule check_with_plan check_allowed check_by_type check_asset_rule
check_rule-Observed floats rule code plan w value s o allowed asset =
    let reported =
      is_reported w.floats rule.rule_type rule.last_value o.current.value rule.threshold in
    let db = store_rule_value rule.id o.current.value w.now s.db in
    let out = observe_asset-Observed w rule plan o.current rule.last_value reported db s.messages in
    let step =
      observe_asset w rule plan o.current rule.last_value reported
        (record { db = db; messages = s.messages }) in
    let (told, rules) = of_Told rule.id reported step out.told in
    let same : reported ≡ is_reported floats rule.rule_type rule.last_value value rule.threshold =
      cc (o.same_value, o.same_floats) in
    rw (o.has_plan, allowed, asset, o.balance)
      (
        rules
            ∙ out.rules
            ∙ ap (λ (v : String). (store_rule_value rule.id v w.now s.db).watch_rules) o.same_value,
        told ∙ ap not same,
      )

-- A rule checked again and again, from its row.
unfoldable pub run_checks : List World → String → ℕ → State → List RuleStatus
unfolding find check_rule
run_checks [] code id s = []
run_checks (w ∷ ws) code id s = elim (row_of id s.db) [
  | none ↦ []
  | some r ↦ (check_rule w r code s).0.status ∷ run_checks ws code id (check_rule w r code s).1
]

allowed_after :
    (rule : WatchRule) (value : String) (now : ℕ) (plan : Plan)
    → rule_allowed_by_plan rule plan ≡ none
    → rule_allowed_by_plan (observed rule value now) plan ≡ none
unfolding rule_allowed_by_plan plan_limited_result new_result
allowed_after rule value now plan h = h

-- The worlds of the checks tell the values, one after another.
abbrev pub ObservesAll :
    Floats → String → String → String → String → Plan → List World → List String → Type 0
ObservesAll floats wallet token chain code plan [] [] = Unit
ObservesAll floats wallet token chain code plan [] (v ∷ vs) = ⊥
ObservesAll floats wallet token chain code plan (w ∷ ws) [] = ⊥
ObservesAll floats wallet token chain code plan (w ∷ ws) (v ∷ vs) =
    Observes floats wallet token chain code plan w v
    × ObservesAll floats wallet token chain code plan ws vs

rule_of_row :
    (rules : List WatchRule) (id : ℕ) {r : WatchRule}
    → find (λ (x : WatchRule). x.id == id) rules ≡ some r
    → r.id ≡ id
rule_of_row rules id {r} h = (==_iff r.id id).0 (find-test (λ (x : WatchRule). x.id == id) rules h)

run_checks-step :
    (w : World) (ws : List World) (code : String) (id : ℕ) (s : State) {r : WatchRule}
    → row_of id s.db ≡ some r
    → run_checks (w ∷ ws) code id s
      ≡ ((check_rule w r code s).0.status ∷ run_checks ws code id (check_rule w r code s).1)
unfolding run_checks
run_checks-step w ws code id s {r} h = rw (h, run_checks) refl

run_checks-reports :
    (ws : List World) (vs : List String) (floats : Floats) (rule : WatchRule) (code : String)
    (plan : Plan) (s : State)
    → ObservesAll floats rule.wallet_address
        (string_value rule.token_address)
        rule.chain_key
        code
        plan
        ws
        vs
    → row_of rule.id s.db ≡ some rule
    → rule_allowed_by_plan rule plan ≡ none
    → is_asset_type rule.rule_type ≡ true
    → map is_quiet (run_checks ws code rule.id s)
      ≡ map not (reports floats rule.rule_type rule.threshold rule.last_value vs)
unfolding run_checks reports
run_checks-reports [] [] floats rule code plan s o row allowed asset = refl
run_checks-reports [] (v ∷ vs) floats rule code plan s o row allowed asset = elim o [ ]
run_checks-reports (w ∷ ws) [] floats rule code plan s o row allowed asset = elim o [ ]
run_checks-reports (w ∷ ws) (v ∷ vs) floats rule code plan s (o, os) row allowed asset =
    let (rules, told) = check_rule-Observed floats rule code plan w v s o allowed asset in
    let next = (check_rule w rule code s).1 in
    let row' : row_of rule.id next.db ≡ some (observed rule v w.now) =
      ap (find (λ (x : WatchRule). x.id == rule.id)) rules
      ∙ find-update (λ (x : WatchRule). x.id == rule.id) (λ x. observed x v w.now) s.db.watch_rules
          (λ x. refl) row in
    let rest =
      run_checks-reports ws vs floats (observed rule v w.now) code plan next os row'
        (allowed_after rule v w.now plan allowed) asset in
    cc (run_checks-step w ws code rule.id s row, told, rest)

-- A rule of a low threshold that its plan allows, with no value yet, checked again and again while the
-- chain tells a sequence of balances: a check finds nothing to report exactly if the balance does not
-- come to be at or below the threshold there, whatever becomes of the reports themselves; a rule of a
-- high threshold likewise with at or above.
pub run_checks-rises :
    (floats : Floats) (rule : WatchRule) (code : String) (plan : Plan) (s : State) (ws : List World)
    (vs : List String)
    → ObservesAll floats rule.wallet_address
        (string_value rule.token_address)
        rule.chain_key
        code
        plan
        ws
        vs
    → row_of rule.id s.db ≡ some rule
    → rule_allowed_by_plan rule plan ≡ none
    → rule.last_value ≡ none
    → (rule.rule_type ≡ balance_threshold) ⊎ (rule.rule_type ≡ high_balance_threshold)
    → map is_quiet (run_checks ws code rule.id s)
      ≡ map not (rises false (map (is_past floats rule.rule_type rule.threshold) vs))
unfolding is_asset_type
run_checks-rises floats rule code plan s ws vs o row allowed first (inl e) =
    let asset : is_asset_type rule.rule_type ≡ true =
      subst (λ t. is_asset_type t ≡ true) (sym e) refl in
    run_checks-reports ws vs floats rule code plan s o row allowed asset
    ∙ ap (map not) (rw (e, first) (reports-rises floats rule.threshold vs).0)
run_checks-rises floats rule code plan s ws vs o row allowed first (inr e) =
    let asset : is_asset_type rule.rule_type ≡ true =
      subst (λ t. is_asset_type t ≡ true) (sym e) refl in
    run_checks-reports ws vs floats rule code plan s o row allowed asset
    ∙ ap (map not) (rw (e, first) (reports-rises floats rule.threshold vs).1)
