-- ===== src/Store/Entitlements/Fallback.antt =====
-- What stops when a paid plan has ended, and the one rule that the free plan runs.
use de_box_asset_alert.Prelude.{
  ℕ, String, ◌≡◌, refl, ◌⊎◌, inl, inr, true, false, not, ◌&&◌, Option, ok, All, count, update,
  str_eq, arith, ◌==◌, Bool-cases,
}
use de_box_asset_alert.Prelude.Queries.{count-update, update-All}
use de_box_asset_alert.Store.Tables.{Db, WatchRule, UserPreference, is_active}
use de_box_asset_alert.Store.Pause.{
  is_excepted, watch_runs, combination_runs, market_runs, project_runs,
  pause_expired_user_resources,
}
use de_box_asset_alert.Store.Subscriptions.{expire_subscriptions, after_expiry}
use de_box_asset_alert.Store.Subscriptions.Effective.{effective_plan_code_lem}
use de_box_asset_alert.Store.Rules.{choose, stop_for_free_plan, set_free_watch_rule_row}
use de_box_asset_alert.Store.Entitlements.Policy.{plan_in_effect}
use de_box_asset_alert.Store.Entitlements.{
  apply_paid_expiry_fallback, pause_if, has_current, has_history,
}

-- Nothing of the user runs but the excepted rule.
pub record IsPaused (user : String) (except : Option ℕ) (db : Db) : Type 0 where
  pub watch_rules :
      count (λ r. watch_runs user r && not (is_excepted except r.id)) db.watch_rules ≡ 0
  pub combinations : count (combination_runs user) db.combination_rules ≡ 0
  pub market_rules : count (market_runs user) db.market_rules ≡ 0
  pub market_combinations : count (combination_runs user) db.market_combinations ≡ 0
  pub projects : count (project_runs user) db.market_projects ≡ 0

pause-IsPaused :
    (user : String) (except : Option ℕ) (now : ℕ) (db : Db)
    → IsPaused user except (pause_expired_user_resources user except now db)
unfolding pause_expired_user_resources
pause-IsPaused user except now db = record {
  watch_rules = count-update _ _ db.watch_rules (λ r. ground arith);
  combinations = count-update _ _ db.combination_rules (λ r. ground arith);
  market_rules = count-update _ _ db.market_rules (λ r. ground arith);
  market_combinations = count-update _ _ db.market_combinations (λ r. ground arith);
  projects = count-update _ _ db.market_projects (λ p. ground arith);
}

-- What the rules and the projects of all users are.
pub record SameRules (db db' : Db) : Type 0 where
  pub watch_rules : db'.watch_rules ≡ db.watch_rules
  pub combinations : db'.combination_rules ≡ db.combination_rules
  pub market_rules : db'.market_rules ≡ db.market_rules
  pub market_combinations : db'.market_combinations ≡ db.market_combinations
  pub projects : db'.market_projects ≡ db.market_projects

fallback_cases :
    (user : String) (except : Option ℕ) (now : ℕ) (db : Db)
    → ((m : Db) × SameRules db m × (apply_paid_expiry_fallback user except now db ≡ ok (false, m)))
      ⊎ ((m : Db) × (apply_paid_expiry_fallback user except now db
            ≡ ok (true, pause_expired_user_resources user except now m)))
unfolding apply_paid_expiry_fallback pause_if expire_subscriptions
fallback_cases user except now db =
    let once = after_expiry user now db in
    let mid = after_expiry user now once in
    let code = plan_in_effect user now once in
    let rules : SameRules db mid =
      unfold after_expiry in
      record {
        watch_rules = refl;
        combinations = refl;
        market_rules = refl;
        market_combinations = refl;
        projects = refl;
      } in
    elim (Bool-cases (
      str_eq code "free"
      && (not (has_current user now mid.subscriptions) && has_history user mid.subscriptions))) [
        | inl t ↦ inr (mid, ground (arith, effective_plan_code_lem user now once))
        | inr t ↦ inl (mid, rules, ground (arith, effective_plan_code_lem user now once))
      ]

-- The fallback always succeeds. When it reports that it paused, nothing of the user runs any more but
-- the excepted rule; when it reports that it did not, no rule and no project of any user changed.
pub apply_paid_expiry_fallback_lem :
    (user : String) (except : Option ℕ) (now : ℕ) (db : Db)
    → (db' : Db) × ((apply_paid_expiry_fallback user except now db ≡ ok (true, db'))
          × IsPaused user except db'
        ⊎ (apply_paid_expiry_fallback user except now db ≡ ok (false, db')) × SameRules db db')
apply_paid_expiry_fallback_lem user except now db = elim (fallback_cases user except now db) [
  | inl (m, s, e) ↦ (m, inr (e, s))
  | inr (m, e) ↦ (_, inl (e, pause-IsPaused user except now m))
]

-- Once the rule of the free plan is chosen, an enabled rule of the user runs exactly if it has the
-- chosen id, and no combination of the user runs.
pub set_free_watch_rule_row-runs :
    (user : String) (id : ℕ) (db : Db) {saved : UserPreference} {db' : Db}
    → set_free_watch_rule_row user id db ≡ ok (saved, db')
    → All
        (λ (r : WatchRule).
          str_eq r.debox_user_id user && r.enabled ≡ true → is_active r.run_status ≡ (r.id == id))
        db'.watch_rules
      × (count (combination_runs user) db'.combination_rules ≡ 0)
unfolding set_free_watch_rule_row
set_free_watch_rule_row-runs user id db {saved} {db'} h =
    let rules : db'.watch_rules
        ≡ update (λ (r : WatchRule). str_eq r.debox_user_id user && r.enabled) (choose id)
            db.watch_rules =
      ground arith in
    let combinations : db'.combination_rules
        ≡ update (combination_runs user) (stop_for_free_plan) db.combination_rules =
      ground arith in
    (
      rw rules (
          update-All _ _ (choose id) db.watch_rules (λ r t e. ground arith) (λ r t e. absurd (cc))),
      rw combinations (
          count-update (combination_runs user) stop_for_free_plan db.combination_rules
            (λ r. ground arith)),
    )
