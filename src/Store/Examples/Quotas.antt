-- ===== src/Store/Examples/Quotas.antt =====
-- The theorems on quotas, at the example database.
use de_box_asset_alert.Prelude.{
  ℕ, ◌≤◌, ◌<◌, ◌≡◌, refl, ◌⊎◌, true, false, none, some, [], ◌∷◌, ◌++◌, ok, count, exists, find,
  first_by, select, update, to_lower, trim_space, equal_fold, arith, ◌&&◌, ◌==◌,
}
use de_box_asset_alert.Prelude.Int.{pos}
use de_box_asset_alert.Store.Tables.{
  Db, WatchRule, NotificationGroup, UserPreference, active, paused, is_active,
}
use de_box_asset_alert.Store.Subscriptions.{after_expiry}
use de_box_asset_alert.Store.Rules.{
  CreateWatchRuleParams, wallet_is_monitored, count_user_wallets, set_free_watch_rule_row,
  active_wallets,
}
use de_box_asset_alert.Store.Entitlements.{
  allows_rule_type, denies_group, count_active_rule_slots, create_watch_rule_within_quota,
  restore_watch_rule_within_quota, is_group, is_enabled_group_of,
  create_notification_group_within_quota, apply_paid_expiry_fallback,
}
use de_box_asset_alert.Store.Entitlements.Quota.{
  create_watch_rule_within_quota-limits, restore_watch_rule_within_quota-le,
  create_notification_group_within_quota-le,
}
use de_box_asset_alert.Store.Entitlements.Fallback.{
  IsPaused, SameRules, apply_paid_expiry_fallback_lem,
}
use de_box_asset_alert.Store.Reconcile.{ReconcileResult}
use de_box_asset_alert.Store.Reconcile.Slots.{HasKeys}
use de_box_asset_alert.Store.Reconcile.Run.{reconcile_user_entitlements}
use de_box_asset_alert.Store.Reconcile.Bounds.{reconcile_user_entitlements-le}
use de_box_asset_alert.Store.Examples.{shop, rule_of, standard_policy}

abbrev params : CreateWatchRuleParams
params = record {
  debox_user_id = "ann";
  chain_key = "bsc";
  chain_id = 56;
  wallet_address = "0xW3";
  token_address = none;
  target_address = none;
  target_label = "";
  rule_type = "incoming";
  threshold = "1";
  notification_chat_id = "ann";
  notification_chat_type = "private";
  notification_label = "";
  notification_language = "en";
  rule_scope = "";
  delivery_mode = "";
  cycle_type = "";
  cycle_minutes = pos 0;
  trigger_count_threshold = pos 0;
  last_value = none;
}

abbrev new_rule : WatchRule
new_rule = record (rule_of 8 "0xW3" active "") { last_checked_at = some 1000; created_at = 1000 }

abbrev with_rule : Db
with_rule = record shop { watch_rules = shop.watch_rules ++ new_rule ∷ []; next_id = 9 }

create_run :
    create_watch_rule_within_quota params standard_policy 1000 shop ≡ ok (new_rule, with_rule)
unfolding create_watch_rule_within_quota to_lower trim_space first_by select after_expiry update
    exists count equal_fold
create_run = refl

create_watch_rule_within_quota-limits_example :
    (allows_rule_type standard_policy "incoming" ≡ true)
    × (denies_group standard_policy "private" ≡ false)
    × (count_active_rule_slots "ann" with_rule ≤ 10)
    × ((wallet_is_monitored "ann" "0xW3" shop ≡ true) ⊎ (count_user_wallets "ann" shop < 3))
create_watch_rule_within_quota-limits_example =
    create_watch_rule_within_quota-limits params standard_policy 1000 shop refl create_run

abbrev restored : Db
restored = record shop {
  watch_rules = rule_of 3 "0xW1" active "" ∷ rule_of 4 "0xW2" active "" ∷ [];
}

restore_run :
    restore_watch_rule_within_quota 4 "ann" standard_policy 1000 shop
    ≡ ok (rule_of 4 "0xW2" active "", restored)
unfolding restore_watch_rule_within_quota first_by select after_expiry update find exists count
    equal_fold
restore_run = refl

rule_key : (id : ℕ) → count (λ (r : WatchRule). r.id == id) shop.watch_rules ≤ 1
unfolding count
rule_key id = ground arith

restore_watch_rule_within_quota-le_example :
    (is_active active ≡ true)
    × ((restored.watch_rules ≡ shop.watch_rules) ⊎ (count_active_rule_slots "ann" restored ≤ 10))
restore_watch_rule_within_quota-le_example =
    restore_watch_rule_within_quota-le 4 "ann" standard_policy 1000 shop (rule_key 4) restore_run

abbrev team : NotificationGroup
team = record { id = 8; debox_user_id = "ann"; gid = "g1"; name = "team"; enabled = true }

abbrev with_group : Db
with_group = record shop { notification_groups = team ∷ []; next_id = 9 }

group_run :
    create_notification_group_within_quota "ann" "g1" "team" standard_policy 1000 shop
    ≡ ok (team, with_group)
unfolding create_notification_group_within_quota first_by select after_expiry update exists count
    find
group_run = refl

no_group_key : count (is_group "ann" "g1") shop.notification_groups ≤ 1
unfolding count
no_group_key = omega arith

no_group :
    exists (λ (g : NotificationGroup). is_group "ann" "g1" g && g.enabled) shop.notification_groups
    ≡ false
unfolding exists
no_group = refl

create_notification_group_within_quota-le_example :
    (standard_policy.group_notification ≡ true)
    × (count (is_enabled_group_of "ann") with_group.notification_groups ≤ 1)
create_notification_group_within_quota-le_example =
    create_notification_group_within_quota-le "ann" "g1" "team" standard_policy 1000 shop
      no_group_key no_group group_run

apply_paid_expiry_fallback_lem_example :
    (db' : Db) × ((apply_paid_expiry_fallback "ann" none 9500 shop ≡ ok (true, db'))
        × IsPaused "ann" none db'
      ⊎ (apply_paid_expiry_fallback "ann" none 9500 shop ≡ ok (false, db')) × SameRules shop db')
apply_paid_expiry_fallback_lem_example = apply_paid_expiry_fallback_lem "ann" none 9500 shop

abbrev preference : UserPreference
preference = record { debox_user_id = "ann"; free_watch_rule_id = some 4 }

abbrev chosen : Db
chosen = record shop {
  watch_rules = rule_of 3 "0xW1" paused "free_plan" ∷ rule_of 4 "0xW2" active "" ∷ [];
  user_preferences = preference ∷ [];
}

choose_run : set_free_watch_rule_row "ann" 4 shop ≡ ok (preference, chosen)
unfolding set_free_watch_rule_row exists update
choose_run = refl

shop-HasKeys : HasKeys shop
unfolding count
shop-HasKeys = record {
  watch_rules = λ id. ground arith;
  combination_rules = λ id. omega arith;
  market_rules = λ id. omega arith;
  market_combinations = λ id. omega arith;
}

abbrev report : ReconcileResult
report = record {
  projects_restored = 0;
  watch_rules_restored = 1;
  combination_rules_restored = 0;
  market_rules_restored = 0;
  market_combinations_restored = 0;
}

reconcile_run : reconcile_user_entitlements "ann" standard_policy 1000 shop ≡ ok (report, restored)
unfolding reconcile_user_entitlements first_by select after_expiry update count_active_rule_slots
    count exists active_wallets to_lower
reconcile_run = refl

one_slot : count_active_rule_slots "ann" shop ≤ 10
unfolding count_active_rule_slots count
one_slot = omega arith

reconcile_user_entitlements-le_example : count_active_rule_slots "ann" restored ≤ 10
reconcile_user_entitlements-le_example =
    reconcile_user_entitlements-le "ann" standard_policy 1000 10 (omega arith) shop shop-HasKeys
      one_slot reconcile_run
