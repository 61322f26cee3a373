-- ===== src/Store/Reconcile.antt =====
-- internal/store/entitlement_reconcile.go: what a paid plan starts again, oldest first; here the
-- projects, the watch rules and their combinations.
pub mod Market
pub mod Run
pub mod Slots
pub mod Bounds
use de_box_asset_alert.Prelude.{
  ℕ, suc, ◌+◌, ◌-◌, String, Bool, true, false, not, ◌&&◌, ◌||◌, Option, none, some, List, [], ◌∷◌,
  ok, err, Result, count, exists, find, select, update, length, take, map, str_eq, ◌==◌, leb, ltb,
  if◌then◌else◌,
}
use de_box_asset_alert.Store.Tables.{
  Db, WatchRule, Combination, CombinationMember, MarketRule, MarketProject, MarketMember, watch,
  market, MarketCombinationMember, RunStatus, active, ProjectStatus, paused, archived, is_active,
  is_active_project, StoreError, not_found, constraint_violated,
}
use de_box_asset_alert.Store.Tx.{Tx, ◌>>=◌, ◌>>◌, pure, fail, gets, modify}
use de_box_asset_alert.Store.Pause.{
  subscription_expired, watch_runs, combination_runs, market_runs, project_runs,
}
use de_box_asset_alert.Store.Rules.{anchor, resume, wallet_of, active_wallets}
use de_box_asset_alert.Store.Entitlements.{
  QuotaPolicy, allows_rule_type, allows_market_rule_type, denies_group, require_policy_plan,
  count_active_rule_slots,
}

pub record ReconcileResult : Type 0 where
  pub projects_restored : ℕ
  pub watch_rules_restored : ℕ
  pub combination_rules_restored : ℕ
  pub market_rules_restored : ℕ
  pub market_combinations_restored : ℕ

-- ORDER BY created_at, id
module _ {A : Type 0} (created_at id : A → ℕ) where
  insert_oldest : A → List A → List A
  insert_oldest x [] = x ∷ []
  insert_oldest x (y ∷ ys) =
      let rest = insert_oldest x ys in
      if ltb (created_at x) (created_at y) || ((created_at x == created_at y) && leb (id x) (id y))
      then x ∷ y ∷ ys
      else y ∷ rest

  pub oldest_first : List A → List A
  unfolding insert_oldest
  oldest_first [] = []
  oldest_first (x ∷ xs) = insert_oldest x (oldest_first xs)

abbrev is_stopped : String → Bool
is_stopped reason = str_eq reason "subscription_expired" || str_eq reason "free_plan"

is_paused_project : String → MarketProject → Bool
is_paused_project user p =
    str_eq p.debox_user_id user
    && ((elim p.status [ ProjectStatus.paused ↦ true | _ ↦ false ])
        && str_eq p.pause_reason subscription_expired)

pub restorable_projects : String → ℕ → List MarketProject → List MarketProject
unfolding is_paused_project oldest_first
restorable_projects user n projects =
    take n (oldest_first (λ p. p.created_at) (λ p. p.id) (select (is_paused_project user) projects))

abbrev pub start_project : MarketProject → MarketProject
start_project p = record p { status = ProjectStatus.active; pause_reason = "" }

-- At most as many projects as the limit leaves; a limit that is passed leaves none.
pub restore_projects : String → QuotaPolicy → Tx ℕ
unfolding restorable_projects
restore_projects user p db =
    let left = p.market_project_limit - count (project_runs user) db.market_projects in
    let chosen = restorable_projects user left db.market_projects in
    let test = λ (q : MarketProject). exists (λ (c : MarketProject). c.id == q.id) chosen in
    ok (
      count test db.market_projects,
      record db { market_projects = update test start_project db.market_projects },
    )

-- The local variables of the loops: the slots and the wallets in use, and what a loop restored.
pub record Usage : Type 0 where
  pub slots : ℕ
  pub wallets : List String
  pub restored : ℕ

pub knows : List String → String → Bool
knows wallets wallet = exists (str_eq wallet) wallets

-- A set of wallets is a list without repetitions.
pub with_wallet : String → List String → List String
unfolding knows
with_wallet wallet wallets = if knows wallets wallet then wallets else wallet ∷ wallets

pub skips_watch_rule : QuotaPolicy → WatchRule → Usage → Bool
unfolding allows_rule_type knows
skips_watch_rule p r u =
    leb p.rule_limit u.slots
    || (not (allows_rule_type p r.rule_type)
        || (denies_group p r.notification_chat_type
            || (not (knows u.wallets (wallet_of r)) && leb p.wallet_limit (length u.wallets))))

pub start_watch_rule : ℕ → WatchRule → Db → Db
unfolding resume
start_watch_rule now r db = record db {
  watch_rules = update (λ (x : WatchRule). x.id == r.id) (resume now) db.watch_rules;
}

abbrev pub use_watch_rule : WatchRule → Usage → Usage
unfolding with_wallet
use_watch_rule r u = record {
  slots = suc u.slots;
  wallets = with_wallet (wallet_of r) u.wallets;
  restored = suc u.restored;
}

pub restore_watch_rules : QuotaPolicy → ℕ → List WatchRule → Usage → Tx Usage
unfolding skips_watch_rule start_watch_rule
restore_watch_rules p now [] u = pure u
restore_watch_rules p now (r ∷ rs) u = λ db.
    if skips_watch_rule p r u
    then restore_watch_rules p now rs u db
    else restore_watch_rules p now rs (use_watch_rule r u) (start_watch_rule now r db)

pub is_stopped_watch_rule : String → WatchRule → Bool
is_stopped_watch_rule user r =
    str_eq r.debox_user_id user
    && (r.enabled
        && (not (is_active r.run_status)
            && (str_eq r.rule_scope "standalone" && is_stopped r.pause_reason)))

-- The rules of the members of a combination; the schema keeps a rule for each.
pub member_rules : List CombinationMember → List WatchRule → Option (List WatchRule)
member_rules [] rules = some []
member_rules (m ∷ ms) rules =
    let rest = member_rules ms rules in
    elim (find (λ (r : WatchRule). r.id == m.watch_rule_id) rules) [
      | none ↦ none
      | some r ↦ elim rest [ none ↦ none | some rs ↦ some (r ∷ rs) ]
    ]

abbrev pub members_of : ℕ → List CombinationMember → List CombinationMember
members_of id = select (λ (m : CombinationMember). m.combination_rule_id == id)

abbrev pub minimum_combination_members : ℕ
minimum_combination_members = 2

unfoldable pub combination_rule_slot_cost : ℕ → ℕ
combination_rule_slot_cost members = members + 1

pub with_wallets : List WatchRule → List String → List String
unfolding with_wallet
with_wallets [] wallets = wallets
with_wallets (r ∷ rs) wallets = with_wallets rs (with_wallet (wallet_of r) wallets)

pub skips_combination : QuotaPolicy → Combination → List WatchRule → Usage → Bool
unfolding combination_rule_slot_cost allows_rule_type with_wallets
skips_combination p c members u =
    ltb (length members) minimum_combination_members
    || (ltb p.rule_limit (u.slots + combination_rule_slot_cost (length members))
        || (denies_group p c.notification_chat_type
            || (exists (λ (r : WatchRule). not (allows_rule_type p r.rule_type)) members
                || ltb p.wallet_limit (length (with_wallets members u.wallets)))))

abbrev pub resume_combination : ℕ → Combination → Combination
resume_combination now c = record c {
  run_status = active;
  pause_reason = "";
  aggregation_anchor_at = if str_eq c.cycle_type "fixed" then some now else none;
}

abbrev pub resume_member : WatchRule → WatchRule
resume_member r = record r { run_status = active; pause_reason = "" }

-- id IN (SELECT watch_rule_id FROM combination_rule_members WHERE combination_rule_id = $1)
abbrev pub is_member : List CombinationMember → WatchRule → Bool
is_member members r = exists (λ (m : CombinationMember). r.id == m.watch_rule_id) members

pub start_combination : ℕ → Combination → Db → Db
start_combination now c db = record db {
  combination_rules =
      update (λ (x : Combination). x.id == c.id) (resume_combination now) db.combination_rules;
  watch_rules =
      update (is_member (members_of c.id db.combination_members)) resume_member db.watch_rules;
}

abbrev pub use_members : List WatchRule → Usage → Usage
unfolding with_wallets combination_rule_slot_cost
use_members members u = record {
  slots = u.slots + combination_rule_slot_cost (length members);
  wallets = with_wallets members u.wallets;
  restored = suc u.restored;
}

pub restore_combinations : QuotaPolicy → ℕ → List Combination → Usage → Tx Usage
unfolding member_rules skips_combination start_combination
restore_combinations p now [] u = pure u
restore_combinations p now (c ∷ cs) u = λ db.
    elim (member_rules (members_of c.id db.combination_members) db.watch_rules) [
      | none ↦ err constraint_violated
      | some members ↦
          if skips_combination p c members u
          then restore_combinations p now cs u db
          else restore_combinations p now cs (use_members members u) (start_combination now c db)
    ]

pub is_stopped_combination : String → Combination → Bool
is_stopped_combination user c =
    str_eq c.debox_user_id user
    && (c.enabled && (not (is_active c.run_status) && is_stopped c.pause_reason))

unfoldable pub one_more : Usage → Usage
one_more u = record u { slots = suc u.slots; restored = suc u.restored }
