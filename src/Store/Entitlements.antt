-- ===== src/Store/Entitlements.antt =====
-- internal/store/entitlements.go and the group row of groups.go: the quotas of a plan.
pub mod Policy
pub mod Quota
pub mod Fallback
use de_box_asset_alert.Prelude.{
  ℕ, suc, ◌+◌, String, Bool, true, false, not, ◌&&◌, ◌||◌, Option, none, some, List, [], ◌∷◌, ◌++◌,
  ok, count, exists, find, update, str_eq, ◌==◌, leb, if◌then◌else◌,
}
use de_box_asset_alert.Store.Tables.{
  Db, WatchRule, Subscription, NotificationGroup, UserPreference, is_active, StoreError,
  combination_member_managed, group_limit_reached, group_notification_denied, not_found,
  rule_limit_reached, rule_type_denied, subscription_changed, wallet_limit_reached,
}
use de_box_asset_alert.Store.Tx.{Tx, ◌>>=◌, ◌>>◌, pure, fail, gets, modify, refuse_if}
use de_box_asset_alert.Store.Pause.{
  is_excepted, watch_runs, combination_runs, market_runs, project_runs,
  pause_expired_user_resources,
}
use de_box_asset_alert.Store.Subscriptions.{is_current, expire_subscriptions, effective_plan_code}
use de_box_asset_alert.Store.Rules.{
  CreateWatchRuleParams, normalize_rule_scope, create_watch_rule, resume, close_windows,
  count_user_wallets, wallet_is_monitored, set_free_watch_rule_row,
}

-- The limits are Go ints; a plan has non-negative ones only.
pub record QuotaPolicy : Type 0 where
  pub plan_code : String
  pub wallet_limit : ℕ
  pub rule_limit : ℕ
  pub group_limit : ℕ
  pub market_project_limit : ℕ
  pub allowed_rule_types : List String
  pub allowed_market_rule_types : List String
  pub group_notification : Bool
  pub stage_notifications : Bool
  pub combination_rules : Bool
  pub multi_pool_monitoring : Bool

unfoldable pub allows_rule_type : QuotaPolicy → String → Bool
allows_rule_type p rule_type = exists (λ a. str_eq a rule_type) p.allowed_rule_types

unfoldable pub allows_market_rule_type : QuotaPolicy → String → Bool
allows_market_rule_type p rule_type = exists (λ a. str_eq a rule_type) p.allowed_market_rule_types

-- chat type = 'group' && !policy.GroupNotification
abbrev pub denies_group : QuotaPolicy → String → Bool
denies_group p chat_type = str_eq chat_type "group" && not p.group_notification

unfoldable pub require_policy_plan : String → QuotaPolicy → ℕ → Tx (Unit {0})
unfolding effective_plan_code
require_policy_plan user p now = do
  code ← effective_plan_code user now
  refuse_if (not (str_eq code p.plan_code)) subscription_changed

-- Whether the user has any current subscription, or any that was not free.
has_current : String → ℕ → List Subscription → Bool
has_current user now = exists (is_current user now)

has_history : String → List Subscription → Bool
has_history user =
    exists (λ (s : Subscription). str_eq s.debox_user_id user && not (str_eq s.plan_code "free"))

pause_if : Bool → String → Option ℕ → ℕ → Tx Bool
unfolding pause_expired_user_resources
pause_if false user except now = pure false
pause_if true user except now = modify (pause_expired_user_resources user except now) >> pure true

unfoldable pub apply_paid_expiry_fallback : String → Option ℕ → ℕ → Tx Bool
unfolding expire_subscriptions effective_plan_code has_current has_history pause_if
apply_paid_expiry_fallback user except now = do
  expire_subscriptions user now
  code ← effective_plan_code user now
  current ← gets (λ db. has_current user now db.subscriptions)
  history ← gets (λ db. has_history user db.subscriptions)
  pause_if (str_eq code "free" && (not current && history)) user except now

unfoldable pub count_active_rule_slots : String → Db → ℕ
count_active_rule_slots user db =
    count (watch_runs user) db.watch_rules
    + count (combination_runs user) db.combination_rules
    + count (market_runs user) db.market_rules
    + count (combination_runs user) db.market_combinations

-- The checks that a rule passes before it takes a slot.
unfoldable pub require_slot : String → String → QuotaPolicy → Tx (Unit {0})
unfolding count_active_rule_slots wallet_is_monitored count_user_wallets
require_slot user wallet p = do
  slots ← gets (count_active_rule_slots user)
  refuse_if (leb p.rule_limit slots) rule_limit_reached
  monitored ← gets (wallet_is_monitored user wallet)
  wallets ← gets (count_user_wallets user)
  refuse_if (not monitored && leb p.wallet_limit wallets) wallet_limit_reached

-- The free plan runs the new rule and no other.
choose_if_free : QuotaPolicy → String → WatchRule → Tx WatchRule
unfolding set_free_watch_rule_row
choose_if_free p user rule =
    if str_eq p.plan_code "free"
    then set_free_watch_rule_row user rule.id >> pure rule
    else pure rule

unfoldable pub create_watch_rule_within_quota :
    CreateWatchRuleParams → QuotaPolicy → ℕ → Tx WatchRule
unfolding require_policy_plan allows_rule_type require_slot create_watch_rule choose_if_free
    normalize_rule_scope
create_watch_rule_within_quota c p now = do
  refuse_if (str_eq (normalize_rule_scope c.rule_scope) "combination") combination_member_managed
  require_policy_plan c.debox_user_id p now
  refuse_if (not (allows_rule_type p c.rule_type)) rule_type_denied
  refuse_if (denies_group p c.notification_chat_type) group_notification_denied
  require_slot c.debox_user_id c.wallet_address p
  rule ← create_watch_rule c now
  choose_if_free p c.debox_user_id rule

pub is_rule_of : ℕ → String → WatchRule → Bool
is_rule_of id user r = (r.id == id) && str_eq r.debox_user_id user

pub is_enabled_rule_of : ℕ → String → WatchRule → Bool
unfolding is_rule_of
is_enabled_rule_of id user r = is_rule_of id user r && r.enabled

-- The update returns the first row that it changes.
resume_row : ℕ → Option WatchRule → Tx WatchRule
unfolding resume
resume_row now none = fail not_found
resume_row now (some r) = pure (resume now r)

restore_stopped : ℕ → String → QuotaPolicy → ℕ → WatchRule → Tx WatchRule
unfolding require_slot resume_row resume close_windows is_enabled_rule_of
restore_stopped id user p now rule = do
  require_slot user rule.wallet_address p
  row ← gets (λ db. find (is_enabled_rule_of id user) db.watch_rules)
  restored ← resume_row now row
  modify (λ db. record db {
    watch_rules = update (is_enabled_rule_of id user) (resume now) db.watch_rules;
  })
  modify (close_windows id now)
  pure restored

restore_checked : ℕ → String → QuotaPolicy → ℕ → Option WatchRule → Tx WatchRule
unfolding restore_stopped allows_rule_type
restore_checked id user p now none = fail not_found
restore_checked id user p now (some rule) = do
  refuse_if (not rule.enabled) not_found
  refuse_if (str_eq rule.rule_scope "combination") combination_member_managed
  refuse_if (not (allows_rule_type p rule.rule_type)) rule_type_denied
  refuse_if (denies_group p rule.notification_chat_type) group_notification_denied
  if is_active rule.run_status then pure rule else restore_stopped id user p now rule

unfoldable pub restore_watch_rule_within_quota : ℕ → String → QuotaPolicy → ℕ → Tx WatchRule
unfolding require_policy_plan restore_checked is_rule_of
restore_watch_rule_within_quota id user p now = do
  require_policy_plan user p now
  row ← gets (λ db. find (is_rule_of id user) db.watch_rules)
  restore_checked id user p now row

pub is_group : String → String → NotificationGroup → Bool
is_group user gid g = str_eq g.debox_user_id user && str_eq g.gid gid

pub is_enabled_group_of : String → NotificationGroup → Bool
is_enabled_group_of user g = str_eq g.debox_user_id user && g.enabled

pub rename : String → NotificationGroup → NotificationGroup
rename name g = record g { name = name; enabled = true }

-- INSERT ... ON CONFLICT (debox_user_id, gid) DO UPDATE
create_group_row : String → String → String → Option NotificationGroup → Tx NotificationGroup
unfolding rename is_group
create_group_row user gid name none db =
    let g : NotificationGroup = record {
      id = db.next_id;
      debox_user_id = user;
      gid = gid;
      name = name;
      enabled = true;
    } in
    ok (
      g,
      record db {
        notification_groups = db.notification_groups ++ g ∷ [];
        next_id = suc db.next_id;
      },
    )
create_group_row user gid name (some g) db = ok (
  rename name g,
  record db {
    notification_groups = update (is_group user gid) (rename name) db.notification_groups;
  },
)

unfoldable pub create_notification_group : String → String → String → Tx NotificationGroup
unfolding create_group_row is_group
create_notification_group user gid name = do
  row ← gets (λ db. find (is_group user gid) db.notification_groups)
  create_group_row user gid name row

unfoldable pub create_notification_group_within_quota :
    String → String → String → QuotaPolicy → ℕ → Tx NotificationGroup
unfolding require_policy_plan create_notification_group is_group is_enabled_group_of
create_notification_group_within_quota user gid name p now = do
  require_policy_plan user p now
  refuse_if (not p.group_notification) group_notification_denied
  already ← gets (λ db.
      exists (λ (g : NotificationGroup). is_group user gid g && g.enabled) db.notification_groups)
  groups ← gets (λ db. count (is_enabled_group_of user) db.notification_groups)
  refuse_if (not already && leb p.group_limit groups) group_limit_reached
  create_notification_group user gid name
