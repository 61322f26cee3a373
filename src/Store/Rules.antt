-- ===== src/Store/Rules.antt =====
-- internal/store/rules.go: the rules that watch a wallet, and the one rule of the free plan.
use de_box_asset_alert.Prelude.{
  ℕ, suc, String, Bool, true, false, not, ◌&&◌, ◌||◌, Option, none, some, List, [], ◌∷◌, ◌++◌, ok,
  count, exists, find, select, update, length, map, to_lower, trim_space, equal_fold, str_eq, ◌==◌,
  if◌then◌else◌,
}
use de_box_asset_alert.Prelude.Int.{ℤ, pos, leb_ℤ, pos_part}
use de_box_asset_alert.Store.Tables.{
  Db, WatchRule, Combination, active, paused, is_active, UserPreference, AggregationWindow,
  invalid_free_watch_rule, not_found, subscription_changed,
}
use de_box_asset_alert.Store.Tx.{Tx, ◌>>=◌, ◌>>◌, pure, fail, gets, modify, refuse_if}
use de_box_asset_alert.Store.Pause.{subscription_expired, is_excepted, watch_runs, combination_runs}
use de_box_asset_alert.Store.Subscriptions.{effective_plan_code}

-- The cycle and the threshold are Go integers of any sign.
pub record CreateWatchRuleParams : Type 0 where
  pub debox_user_id : String
  pub chain_key : String
  pub chain_id : ℕ
  pub wallet_address : String
  pub token_address : Option String
  pub target_address : Option String
  pub target_label : String
  pub rule_type : String
  pub threshold : String
  pub notification_chat_id : String
  pub notification_chat_type : String
  pub notification_label : String
  pub notification_language : String
  pub rule_scope : String
  pub delivery_mode : String
  pub cycle_type : String
  pub cycle_minutes : ℤ
  pub trigger_count_threshold : ℤ
  pub last_value : Option String

-- One text, in any letter case and with spaces round it, or else the default.
abbrev normalize : String → String → String → String
normalize known default value =
    if str_eq (to_lower (trim_space value)) known then known else default

unfoldable pub normalize_rule_scope : String → String
normalize_rule_scope = normalize "combination" "standalone"

unfoldable pub normalize_delivery_mode : String → String
normalize_delivery_mode = normalize "stage" "realtime"

unfoldable pub normalize_cycle_type : String → String
normalize_cycle_type = normalize "follow" "fixed"

unfoldable pub normalize_language : String → String
normalize_language = normalize "en" "zh"

-- CASE WHEN delivery_mode = 'stage' AND cycle_type = 'fixed' THEN NOW() ELSE NULL END
abbrev pub anchor : String → String → ℕ → Option ℕ
anchor delivery cycle now =
    if str_eq delivery "stage" && str_eq cycle "fixed" then some now else none

-- `if value <= 0 { value = default }`
abbrev pub positive_or : ℕ → ℤ → ℕ
positive_or default value = if leb_ℤ value (pos 0) then default else pos_part value

unfoldable pub new_watch_rule : CreateWatchRuleParams → ℕ → ℕ → WatchRule
unfolding normalize_rule_scope normalize_delivery_mode normalize_cycle_type normalize_language
new_watch_rule p id now =
    let delivery = normalize_delivery_mode p.delivery_mode in
    let cycle = normalize_cycle_type p.cycle_type in
    record {
      id = id;
      debox_user_id = p.debox_user_id;
      chain_key = p.chain_key;
      chain_id = p.chain_id;
      wallet_address = p.wallet_address;
      token_address = p.token_address;
      target_address = p.target_address;
      target_label = p.target_label;
      rule_type = p.rule_type;
      threshold = p.threshold;
      notification_chat_id = p.notification_chat_id;
      notification_chat_type = p.notification_chat_type;
      notification_label = p.notification_label;
      notification_language = normalize_language p.notification_language;
      rule_scope = normalize_rule_scope p.rule_scope;
      delivery_mode = delivery;
      cycle_type = cycle;
      cycle_minutes = positive_or 60 p.cycle_minutes;
      trigger_count_threshold = positive_or 1 p.trigger_count_threshold;
      aggregation_anchor_at = anchor delivery cycle now;
      enabled = true;
      run_status = active;
      pause_reason = "";
      last_value = p.last_value;
      last_checked_at = some now;
      created_at = now;
    }

unfoldable pub create_watch_rule : CreateWatchRuleParams → ℕ → Tx WatchRule
unfolding new_watch_rule
create_watch_rule p now db =
    let rule = new_watch_rule p db.next_id now in
    ok (rule, record db { watch_rules = db.watch_rules ++ rule ∷ []; next_id = suc db.next_id })

is_standalone_of : ℕ → String → WatchRule → Bool
is_standalone_of id user r =
    (r.id == id) && (str_eq r.debox_user_id user && str_eq r.rule_scope "standalone")

-- Whether a row was deleted.
unfoldable pub delete_watch_rule : ℕ → String → Tx Bool
unfolding is_standalone_of
delete_watch_rule id user db = ok (
  exists (is_standalone_of id user) db.watch_rules,
  record db { watch_rules = select (λ r. not (is_standalone_of id user r)) db.watch_rules },
)

is_deletable : String → WatchRule → Bool
is_deletable user r =
    str_eq r.debox_user_id user
    && (not (is_active r.run_status) && str_eq r.rule_scope "standalone")

unfoldable pub delete_paused_watch_rules : String → Tx ℕ
unfolding is_deletable
delete_paused_watch_rules user db = ok (
  count (is_deletable user) db.watch_rules,
  record db { watch_rules = select (λ r. not (is_deletable user r)) db.watch_rules },
)

unfoldable pub resume : ℕ → WatchRule → WatchRule
resume now r = record r {
  run_status = active;
  pause_reason = "";
  aggregation_anchor_at = anchor r.delivery_mode r.cycle_type now;
}

-- WHERE watch_rule_id = $1 AND closed_at IS NULL
is_open_window : ℕ → AggregationWindow → Bool
is_open_window id w =
    (elim w.watch_rule_id [ none ↦ false | some rule ↦ rule == id ])
    && (elim w.closed_at [ none ↦ true | some _ ↦ false ])

unfoldable pub close_windows : ℕ → ℕ → Db → Db
unfolding is_open_window
close_windows id now db = record db {
  aggregation_windows =
      update (is_open_window id) (λ w. record w { closed_at = some now }) db.aggregation_windows;
}

is_restorable : ℕ → String → WatchRule → Bool
unfolding is_standalone_of
is_restorable id user r = is_standalone_of id user r && r.enabled

restore_row : ℕ → String → ℕ → Option WatchRule → Tx WatchRule
unfolding resume is_restorable close_windows
restore_row id user now none = fail not_found
restore_row id user now (some r) = do
  modify
      (λ db. record db { watch_rules = update (is_restorable id user) (resume now) db.watch_rules })
  modify (close_windows id now)
  pure (resume now r)

unfoldable pub restore_watch_rule : ℕ → String → ℕ → Tx WatchRule
unfolding restore_row is_restorable
restore_watch_rule id user now = do
  row ← gets (λ db. find (is_restorable id user) db.watch_rules)
  restore_row id user now row

-- COUNT(DISTINCT value)
unfoldable pub distinct : List String → List String
distinct [] = []
distinct (x ∷ xs) = let rest = distinct xs in if exists (str_eq x) xs then rest else x ∷ rest

abbrev pub wallet_of : WatchRule → String
wallet_of r = to_lower r.wallet_address

-- The wallets that the running rules of a user watch, in lower case.
unfoldable pub active_wallets : String → List WatchRule → List String
unfolding distinct
active_wallets user rules = distinct (map wallet_of (select (watch_runs user) rules))

unfoldable pub count_user_wallets : String → Db → ℕ
unfolding active_wallets
count_user_wallets user db = length (active_wallets user db.watch_rules)

unfoldable pub wallet_is_monitored : String → String → Db → Bool
wallet_is_monitored user wallet db =
    exists (λ r. watch_runs user r && equal_fold r.wallet_address wallet) db.watch_rules

abbrev is_free_type : String → Bool
is_free_type t =
    str_eq t "balance_change"
    || (str_eq t "incoming"
        || (str_eq t "outgoing"
            || (str_eq t "balance_threshold" || str_eq t "balance_threshold_high")))

pub is_free_eligible : String → ℕ → WatchRule → Bool
is_free_eligible user id r =
    (r.id == id)
    && (str_eq r.debox_user_id user
        && (r.enabled
            && (str_eq r.rule_scope "standalone"
                && (str_eq r.notification_chat_type "private"
                    && (str_eq r.delivery_mode "realtime" && is_free_type r.rule_type)))))

abbrev pub choose : ℕ → WatchRule → WatchRule
choose id r = record r {
  run_status = if r.id == id then active else paused;
  pause_reason = if r.id == id then "" else "free_plan";
}

abbrev pub stop_for_free_plan : Combination → Combination
stop_for_free_plan r = record r { run_status = paused; pause_reason = "free_plan" }

-- INSERT ... ON CONFLICT (debox_user_id) DO UPDATE
save_preference : UserPreference → List UserPreference → List UserPreference
save_preference p [] = p ∷ []
save_preference p (q ∷ qs) =
    let rest = save_preference p qs in
    if str_eq q.debox_user_id p.debox_user_id then p ∷ qs else q ∷ rest

unfoldable pub set_free_watch_rule_row : String → ℕ → Tx UserPreference
unfolding is_free_eligible save_preference
set_free_watch_rule_row user id = do
  eligible ← gets (λ db. exists (is_free_eligible user id) db.watch_rules)
  refuse_if (not eligible) invalid_free_watch_rule
  modify (λ db. record db {
    watch_rules =
        update (λ (r : WatchRule). str_eq r.debox_user_id user && r.enabled) (choose id)
          db.watch_rules;
    combination_rules = update (combination_runs user) stop_for_free_plan db.combination_rules;
  })
  let saved : UserPreference = record { debox_user_id = user; free_watch_rule_id = some id }
  modify (λ db. record db { user_preferences = save_preference saved db.user_preferences })
  pure saved

unfoldable pub set_free_watch_rule : String → ℕ → ℕ → Tx UserPreference
unfolding set_free_watch_rule_row effective_plan_code
set_free_watch_rule user id now = do
  code ← effective_plan_code user now
  refuse_if (not (str_eq code "free")) subscription_changed
  set_free_watch_rule_row user id

unfoldable pub pause_user_watch_rules : String → Option ℕ → Tx ℕ
pause_user_watch_rules user except db =
    let test = λ (r : WatchRule). watch_runs user r && not (is_excepted except r.id) in
    ok (
      count test db.watch_rules,
      record db {
        watch_rules =
            update test (λ r. record r { run_status = paused; pause_reason = subscription_expired })
              db.watch_rules;
        combination_rules =
            update (combination_runs user)
              (λ r. record r { run_status = paused; pause_reason = subscription_expired })
              db.combination_rules;
      },
    )

unfoldable pub update_watch_rule_value : ℕ → String → ℕ → Tx (Unit {0})
update_watch_rule_value id value now db = ok (
  tt,
  record db {
    watch_rules =
        update (λ (r : WatchRule). r.id == id)
          (λ r. record r { last_value = some value; last_checked_at = some now }) db.watch_rules;
  },
)
