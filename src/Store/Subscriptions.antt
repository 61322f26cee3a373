-- ===== src/Store/Subscriptions.antt =====
-- internal/store/subscriptions.go, and `effectivePlanCode` of entitlements.go.
pub mod Effective
pub mod Activation
use de_box_asset_alert.Prelude.{
  ℕ, suc, ◌+◌, ◌*◌, String, Bool, true, false, not, ◌&&◌, ◌||◌, Option, none, some, List, [], ◌∷◌,
  ◌++◌, ok, err, exists, select, count, update, first_by, str_eq, ◌==◌, ltb, if◌then◌else◌,
}
use de_box_asset_alert.Store.Tables.{
  Db, Subscription, SubscriptionStatus, live, expired, upgraded, SummarySettings, SummaryRow,
  UserPreference, is_live, StoreError, active_subscription_conflict, subscription_changed,
}
use de_box_asset_alert.Store.Tx.{Tx, ◌>>=◌, ◌>>◌, pure, fail, gets, modify}
use de_box_asset_alert.Store.Pause.{pause_expired_user_resources}

abbrev pub seconds_per_day : ℕ
seconds_per_day = 86400

-- CASE plan_code WHEN 'professional' THEN 2 WHEN 'standard' THEN 1 ELSE 0 END
unfoldable pub plan_rank : String → ℕ
plan_rank code = if str_eq code "professional" then 2 else if str_eq code "standard" then 1 else 0

-- status = 'active' AND (is_permanent = 1 OR expires_at > NOW())
abbrev pub is_current : String → ℕ → Subscription → Bool
is_current user now s =
    str_eq s.debox_user_id user && (is_live s.status && (s.is_permanent || ltb now s.expires_at))

-- The order by rank, by permanence and by expiry, each downwards.
unfoldable pub precedes : Subscription → Subscription → Bool
precedes a b =
    if ltb (plan_rank b.plan_code) (plan_rank a.plan_code)
    then true
    else if ltb (plan_rank a.plan_code) (plan_rank b.plan_code)
    then false
    else if a.is_permanent && not b.is_permanent
    then true
    else if b.is_permanent && not a.is_permanent
    then false
    else ltb b.expires_at a.expires_at

unfoldable pub current_subscription : String → ℕ → List Subscription → Option Subscription
current_subscription user now subs = first_by precedes (select (is_current user now) subs)

-- WHERE status = 'active' AND is_permanent = 0 AND expires_at < NOW(), of one user or of all
abbrev pub is_lapsed : String → ℕ → Subscription → Bool
is_lapsed user now s =
    is_live s.status
    && (not s.is_permanent
        && (ltb s.expires_at now && (str_eq user "" || str_eq s.debox_user_id user)))

default_settings : String → SummarySettings
default_settings user = record {
  enabled = false;
  time = "20:00";
  timezone = "Asia/Shanghai";
  chat_type = "private";
  chat_id = user;
  label = "私聊摘要";
  language = "zh";
  last_sent_date = "";
  scheduled_push_last_sent_at = none;
  last_period_end_at = none;
}

expire : Subscription → Subscription
unfolding default_settings
expire s = record s { status = expired; daily_summary = default_settings s.debox_user_id }

-- DELETE ... WHERE subscription_id = ANY(ids)
drop_rows : List Subscription → List SummaryRow → List SummaryRow
drop_rows gone =
    select (λ row. not (exists (λ (s : Subscription). s.id == row.subscription_id) gone))

-- The deletions and the update, for the subscriptions that have lapsed.
unfoldable pub after_expiry : String → ℕ → Db → Db
unfolding expire drop_rows
after_expiry user now db =
    let gone = select (is_lapsed user now) db.subscriptions in
    record db {
      summary_deliveries = drop_rows gone db.summary_deliveries;
      summary_targets = drop_rows gone db.summary_targets;
      subscriptions = update (is_lapsed user now) expire db.subscriptions;
    }

unfoldable pub expire_subscriptions : String → ℕ → Tx ℕ
expire_subscriptions user now db =
    ok (count (is_lapsed user now) db.subscriptions, after_expiry user now db)

-- COALESCE((SELECT plan_code ...), 'free')
abbrev pub plan_code_or_free : Option Subscription → String
plan_code_or_free none = "free"
plan_code_or_free (some s) = s.plan_code

unfoldable pub effective_plan_code : String → ℕ → Tx String
unfolding expire_subscriptions current_subscription
effective_plan_code user now = do
  expire_subscriptions user now
  gets (λ db. plan_code_or_free (current_subscription user now db.subscriptions))

-- WHERE status = 'active' AND is_permanent = 0 AND expires_at > NOW()
abbrev pub is_timed : String → ℕ → Subscription → Bool
is_timed user now s =
    str_eq s.debox_user_id user
    && (is_live s.status && (not s.is_permanent && ltb now s.expires_at))

unfoldable pub timed_subscription : String → ℕ → List Subscription → Option Subscription
timed_subscription user now subs =
    first_by (λ a b. ltb b.expires_at a.expires_at) (select (is_timed user now) subs)

has_paid_history : String → List Subscription → Bool
has_paid_history user =
    exists
      (λ s. str_eq s.debox_user_id user && (not (str_eq s.plan_code "free") && not s.is_permanent))

free_watch_rule_of : String → List UserPreference → Option ℕ
free_watch_rule_of user [] = none
free_watch_rule_of user (p ∷ ps) =
    if str_eq p.debox_user_id user then p.free_watch_rule_id else free_watch_rule_of user ps

-- The resources of a user whose paid time ran out are paused before a new term begins.
pause_stale_resources : String → ℕ → Option Subscription → Db → Db
unfolding has_paid_history free_watch_rule_of
pause_stale_resources user now (some s) db = db
pause_stale_resources user now none db =
    if has_paid_history user db.subscriptions
    then pause_expired_user_resources user (free_watch_rule_of user db.user_preferences) now db
    else db

abbrev pub extend : ℕ → Subscription → Subscription
extend days s = record s { expires_at = s.expires_at + days * seconds_per_day }

renew : Subscription → ℕ → Tx Subscription
renew s days db = ok (
  extend days s,
  record db { subscriptions = update (λ t. t.id == s.id) (extend days) db.subscriptions },
)

insert_subscription : String → String → ℕ → ℕ → Tx Subscription
unfolding default_settings
insert_subscription user plan days now db =
    let s : Subscription = record {
      id = db.next_id;
      debox_user_id = user;
      plan_code = plan;
      status = live;
      starts_at = now;
      expires_at = now + days * seconds_per_day;
      daily_summary = default_settings user;
      is_permanent = false;
      entitlement_source = "paid";
      entitlement_wallet_address = none;
    } in
    ok (s, record db { subscriptions = db.subscriptions ++ s ∷ []; next_id = suc db.next_id })

mark_upgraded : ℕ → Db → Db
mark_upgraded id db = record db {
  subscriptions = update (λ s. s.id == id) (λ s. record s { status = upgraded }) db.subscriptions;
}

-- What follows the search for an active subscription.
switch_subscription : String → String → ℕ → Bool → ℕ → Option Subscription → Tx Subscription
unfolding insert_subscription renew mark_upgraded
switch_subscription user plan days allow_renewal now none = insert_subscription user plan days now
switch_subscription user plan days allow_renewal now (some s) =
    if str_eq s.plan_code plan && allow_renewal
    then renew s days
    else if str_eq s.plan_code "free" && not (str_eq plan "free")
    then (do modify (mark_upgraded s.id); insert_subscription user plan days now)
    else fail active_subscription_conflict

unfoldable pub activate_subscription : String → String → ℕ → Bool → ℕ → Tx Subscription
unfolding expire_subscriptions timed_subscription pause_stale_resources switch_subscription
activate_subscription user plan days allow_renewal now = do
  expire_subscriptions user now
  active ← gets (λ db. timed_subscription user now db.subscriptions)
  modify (pause_stale_resources user now active)
  switch_subscription user plan days allow_renewal now active
