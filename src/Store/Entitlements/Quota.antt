-- ===== src/Store/Entitlements/Quota.antt =====
-- The limits that a new or a restored rule and a new group respect.
use de_box_asset_alert.Prelude.{
  ℕ, suc, ◌≤◌, ◌<◌, String, ◌≡◌, refl, subst, ◌⊎◌, inl, inr, true, false, ◌&&◌, [], ◌∷◌, ◌++◌, ok,
  count, find, exists, update, str_eq, arith, ◌==◌, Bool-cases, Option-cases, count-append,
}
use de_box_asset_alert.Prelude.Single.{count-update_add, count_mono}
use de_box_asset_alert.Store.Tables.{Db, WatchRule, NotificationGroup, is_active}
use de_box_asset_alert.Store.Pause.{watch_runs}
use de_box_asset_alert.Store.Subscriptions.{after_expiry}
use de_box_asset_alert.Store.Rules.{
  CreateWatchRuleParams, create_watch_rule, new_watch_rule, resume, close_windows,
  wallet_is_monitored, count_user_wallets,
}
use de_box_asset_alert.Store.Entitlements.Policy.{require_policy_plan_cases}
use de_box_asset_alert.Store.Entitlements.{
  QuotaPolicy, allows_rule_type, denies_group, count_active_rule_slots, require_slot,
  choose_if_free, create_watch_rule_within_quota, restore_stopped, restore_checked,
  restore_watch_rule_within_quota, is_rule_of, is_enabled_rule_of, resume_row, create_group_row,
  rename, is_group, is_enabled_group_of, create_notification_group,
  create_notification_group_within_quota,
}

create-slots :
    (c : CreateWatchRuleParams) (p : QuotaPolicy) (now : ℕ) (db : Db) {r : WatchRule} {db' : Db}
    → create_watch_rule c now db ≡ ok (r, db')
    → count_active_rule_slots c.debox_user_id db' ≤ suc (count_active_rule_slots c.debox_user_id db)
unfolding create_watch_rule count_active_rule_slots count
create-slots c p now db {r} {db'} h = ground (
  arith,
  count-append (watch_runs c.debox_user_id) db.watch_rules (new_watch_rule c db.next_id now ∷ []),
)

-- A rule that a paid plan creates is of a type that the plan allows, is not sent to a group unless
-- the plan allows that, and leaves the user with at most as many running rules as the plan's limit;
-- its wallet was watched before, or fewer wallets were than the plan's limit.
pub create_watch_rule_within_quota-limits :
    (c : CreateWatchRuleParams) (p : QuotaPolicy) (now : ℕ) (db : Db) {r : WatchRule} {db' : Db}
    → str_eq p.plan_code "free" ≡ false
    → create_watch_rule_within_quota c p now db ≡ ok (r, db')
    → (allows_rule_type p r.rule_type ≡ true)
      × (denies_group p r.notification_chat_type ≡ false)
      × (count_active_rule_slots c.debox_user_id db' ≤ p.rule_limit)
      × ((wallet_is_monitored c.debox_user_id r.wallet_address db ≡ true)
          ⊎ (count_user_wallets c.debox_user_id db < p.wallet_limit))
unfolding create_watch_rule_within_quota
create_watch_rule_within_quota-limits c p now db {r} {db'} paid h =
    elim (require_policy_plan_cases c.debox_user_id p now db) [
      | inr (_, e) ↦ absurd (ground arith)
      | inl (_, e) ↦
          let mid = after_expiry c.debox_user_id now db in
          let made : create_watch_rule c now mid ≡ ok (r, db') =
            unfold create_watch_rule choose_if_free in ground arith in
          let room : suc (count_active_rule_slots c.debox_user_id mid) ≤ p.rule_limit =
            unfold require_slot in ground arith in
          (
            unfold create_watch_rule new_watch_rule choose_if_free in ground arith,
            unfold create_watch_rule new_watch_rule choose_if_free in ground arith,
            omega (arith, room, create-slots c p now mid made),
            unfold create_watch_rule new_watch_rule choose_if_free require_slot after_expiry
                  wallet_is_monitored count_user_wallets in
                ground arith,
          )
    ]

restore-slots :
    (user : String) (id now : ℕ) (db : Db)
    → count (λ (r : WatchRule). r.id == id) db.watch_rules ≤ 1
    → count_active_rule_slots user (
        close_windows id now (record db {
          watch_rules = update (is_enabled_rule_of id user) (resume now) db.watch_rules;
        }))
      ≤ suc (count_active_rule_slots user db)
unfolding close_windows count_active_rule_slots is_enabled_rule_of
restore-slots user id now db single = omega (
  arith,
  single,
  count-update_add (watch_runs user) (is_enabled_rule_of id user) (resume now) db.watch_rules,
  count_mono (is_enabled_rule_of id user) (λ (r : WatchRule). r.id == id) db.watch_rules
      (λ r t. unfold is_rule_of in ground arith),
)

restore_stopped-runs :
    (id : ℕ) (user : String) (p : QuotaPolicy) (now : ℕ) (rule : WatchRule) (db : Db)
    {r : WatchRule} {db' : Db}
    → count (λ (r : WatchRule). r.id == id) db.watch_rules ≤ 1
    → restore_stopped id user p now rule db ≡ ok (r, db')
    → (is_active r.run_status ≡ true) × (count_active_rule_slots user db' ≤ p.rule_limit)
unfolding restore_stopped require_slot
restore_stopped-runs id user p now rule db {r} {db'} single h =
    elim (Option-cases (find (is_enabled_rule_of id user) db.watch_rules)) [
      | inl e ↦ absurd (unfold resume_row in ground arith)
      | inr (x, e) ↦
          let made : close_windows id now (record db {
            watch_rules = update (is_enabled_rule_of id user) (resume now) db.watch_rules;
          })
              ≡ db' =
            unfold resume_row in ground arith in
          let room : suc (count_active_rule_slots user db) ≤ p.rule_limit = ground arith in
          (
            unfold resume_row resume in ground arith,
            subst (λ d. count_active_rule_slots user d ≤ p.rule_limit) made
                (omega (arith, room, restore-slots user id now db single)),
          )
    ]

-- A restoration that succeeds returns a running rule, and either leaves the rules as they were or
-- leaves the user with at most as many running rules as the plan's limit; at most one rule has the id.
pub restore_watch_rule_within_quota-le :
    (id : ℕ) (user : String) (p : QuotaPolicy) (now : ℕ) (db : Db) {r : WatchRule} {db' : Db}
    → count (λ (r : WatchRule). r.id == id) db.watch_rules ≤ 1
    → restore_watch_rule_within_quota id user p now db ≡ ok (r, db')
    → (is_active r.run_status ≡ true)
      × ((db'.watch_rules ≡ db.watch_rules) ⊎ (count_active_rule_slots user db' ≤ p.rule_limit))
unfolding restore_watch_rule_within_quota after_expiry
restore_watch_rule_within_quota-le id user p now db {r} {db'} single h =
    elim (require_policy_plan_cases user p now db) [
      | inr (_, e) ↦ absurd (ground arith)
      | inl (_, e) ↦
          let mid = after_expiry user now db in
          elim (Option-cases (find (is_rule_of id user) mid.watch_rules)) [
            | inl f ↦ absurd (unfold restore_checked in ground arith)
            | inr (x, f) ↦ elim (Bool-cases (is_active x.run_status)) [
              | inl a ↦ (
                unfold restore_checked in ground arith,
                inl (unfold restore_checked after_expiry in ground arith),
              )
              | inr a ↦
                  let made : restore_stopped id user p now x mid ≡ ok (r, db') =
                    unfold restore_checked in ground arith in
                  let (runs, room) = restore_stopped-runs id user p now x mid single made in
                  (runs, inr room)
            ]
          ]
    ]

-- A group that is created, and was not enabled before, leaves the user with at most as many enabled
-- groups as the plan's limit, of a plan that notifies groups; at most one row is
-- that group.
pub create_notification_group_within_quota-le :
    (user gid name : String) (p : QuotaPolicy) (now : ℕ) (db : Db) {g : NotificationGroup}
    {db' : Db}
    → count (is_group user gid) db.notification_groups ≤ 1
    → exists (λ (g : NotificationGroup). is_group user gid g && g.enabled) db.notification_groups
      ≡ false
    → create_notification_group_within_quota user gid name p now db ≡ ok (g, db')
    → (p.group_notification ≡ true)
      × (count (is_enabled_group_of user) db'.notification_groups ≤ p.group_limit)
unfolding create_notification_group_within_quota create_notification_group
create_notification_group_within_quota-le user gid name p now db {g} {db'} single fresh h =
    elim (require_policy_plan_cases user p now db) [
      | inr (_, e) ↦ absurd (ground arith)
      | inl (_, e) ↦
          let mid = after_expiry user now db in
          let same : mid.notification_groups ≡ db.notification_groups =
            unfold after_expiry in refl in
          elim (Option-cases (find (is_group user gid) mid.notification_groups)) [
            | inl f ↦ (
              ground arith,
              (let room : suc (count (is_enabled_group_of user) db.notification_groups)
                      ≤ p.group_limit =
                    ground arith in
                  let grown : db'.notification_groups ≡ db.notification_groups ++ g ∷ [] =
                    unfold create_group_row in ground arith in
                  rw
                    (grown, count-append (is_enabled_group_of user) db.notification_groups (g ∷ []))
                    (unfold count in ground arith)),
            )
            | inr (x, f) ↦ (
              ground arith,
              (let room : suc (count (is_enabled_group_of user) db.notification_groups)
                      ≤ p.group_limit =
                    ground arith in
                  let renamed : db'.notification_groups
                      ≡ update (is_group user gid) (rename name) db.notification_groups =
                    unfold create_group_row in ground arith in
                  rw renamed (
                    omega (
                      arith,
                      room,
                      single,
                      count-update_add (is_enabled_group_of user) (is_group user gid) (rename name)
                          db.notification_groups,
                    ))),
            )
          ]
    ]
