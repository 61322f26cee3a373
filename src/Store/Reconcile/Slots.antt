-- ===== src/Store/Reconcile/Slots.antt =====
-- The rule slots that each restored rule takes, and the keys that a restoration keeps.
use de_box_asset_alert.Prelude.{
  ℕ, suc, ◌+◌, ◌≤◌, String, ◌≡◌, refl, inl, inr, Bool, true, false, ◌||◌, some, List, [], ◌∷◌,
  count, exists, find, length, arith, ◌==◌, Option-cases,
}
use de_box_asset_alert.Prelude.Single.{count-update_le, count-update_add}
use de_box_asset_alert.Store.Tables.{Db, WatchRule, Combination, CombinationMember, MarketRule}
use de_box_asset_alert.Store.Pause.{watch_runs, combination_runs, market_runs}
use de_box_asset_alert.Store.Rules.{resume}
use de_box_asset_alert.Store.Entitlements.{count_active_rule_slots}
use de_box_asset_alert.Store.Reconcile.{
  start_watch_rule, member_rules, members_of, is_member, resume_member, resume_combination,
  start_combination, combination_rule_slot_cost,
}
use de_box_asset_alert.Store.Reconcile.Market.{
  start_market_rule, resume_market_rule, start_market_combination,
}

module _ {ℓ} {A : Type ℓ} where
  count_or :
      (p q r : A → Bool) (xs : List A)
      → ((x : A) → r x ≡ true → p x || q x ≡ true)
      → count r xs ≤ count p xs + count q xs
  unfolding count
  count_or p q r [] h = omega arith
  count_or p q r (x ∷ xs) h = ground (arith, h x, count_or p q r xs h)

-- The primary keys of the tables of rules.
pub record HasKeys (db : Db) : Type 0 where
  pub watch_rules : (id : ℕ) → count (λ (r : WatchRule). r.id == id) db.watch_rules ≤ 1
  pub combination_rules :
      (id : ℕ) → count (λ (r : Combination). r.id == id) db.combination_rules ≤ 1
  pub market_rules : (id : ℕ) → count (λ (r : MarketRule). r.id == id) db.market_rules ≤ 1
  pub market_combinations :
      (id : ℕ) → count (λ (r : Combination). r.id == id) db.market_combinations ≤ 1

count_none : {A : Type 0} (xs : List A) → count (λ _. false) xs ≡ 0
unfolding count
count_none [] = refl
count_none (x ∷ xs) = count_none xs

-- A list of members covers at most as many rules.
count-is_member :
    (members : List CombinationMember) (rules : List WatchRule)
    → ((id : ℕ) → count (λ (r : WatchRule). r.id == id) rules ≤ 1)
    → count (is_member members) rules ≤ length members
unfolding exists
count-is_member [] rules single = omega (arith, count_none rules)
count-is_member (m ∷ members) rules single = omega (
  arith,
  single m.watch_rule_id,
  count-is_member members rules single,
  count_or (λ (r : WatchRule). r.id == m.watch_rule_id) (is_member members)
      (is_member (m ∷ members)) rules (λ r h. ground arith),
)

pub length-member_rules :
    (members : List CombinationMember) (rules : List WatchRule) {rs : List WatchRule}
    → member_rules members rules ≡ some rs
    → length rs ≡ length members
unfolding member_rules
length-member_rules [] rules {rs} h = ground arith
length-member_rules (m ∷ members) rules {rs} h =
    elim (Option-cases (find (λ (r : WatchRule). r.id == m.watch_rule_id) rules)) [
      | inl e ↦ absurd (ground arith)
      | inr (r, e) ↦ elim (Option-cases (member_rules members rules)) [
        | inl f ↦ absurd (ground arith)
        | inr (tail, f) ↦ ground (arith, length-member_rules members rules {rs = tail} f)
      ]
    ]

pub watch-keys :
    (now : ℕ) (r : WatchRule) (db : Db) → HasKeys db → HasKeys (start_watch_rule now r db)
unfolding start_watch_rule resume
watch-keys now r db k = record {
  watch_rules = λ id. omega (
    arith,
    k.watch_rules id,
    count-update_le (λ (x : WatchRule). x.id == id) (λ x. x.id == r.id) (resume now) db.watch_rules
        (λ x _ h. h),
  );
  combination_rules = k.combination_rules;
  market_rules = k.market_rules;
  market_combinations = k.market_combinations;
}

pub watch-slots :
    (user : String) (now : ℕ) (r : WatchRule) (db : Db)
    → HasKeys db
    → count_active_rule_slots user (start_watch_rule now r db)
      ≤ suc (count_active_rule_slots user db)
unfolding start_watch_rule count_active_rule_slots
watch-slots user now r db k = omega (
  arith,
  k.watch_rules r.id,
  count-update_add (watch_runs user) (λ (x : WatchRule). x.id == r.id) (resume now) db.watch_rules,
)

pub combination-keys :
    (now : ℕ) (c : Combination) (db : Db) → HasKeys db → HasKeys (start_combination now c db)
unfolding start_combination
combination-keys now c db k = record {
  watch_rules = λ id. omega (
    arith,
    k.watch_rules id,
    count-update_le (λ (x : WatchRule). x.id == id)
        (is_member (members_of c.id db.combination_members)) resume_member db.watch_rules
        (λ x _ h. h),
  );
  combination_rules = λ id. omega (
    arith,
    k.combination_rules id,
    count-update_le (λ (x : Combination). x.id == id) (λ x. x.id == c.id) (resume_combination now)
        db.combination_rules (λ x _ h. h),
  );
  market_rules = k.market_rules;
  market_combinations = k.market_combinations;
}

pub combination-slots :
    (user : String) (now : ℕ) (c : Combination) (db : Db)
    → HasKeys db
    → count_active_rule_slots user (start_combination now c db)
      ≤ count_active_rule_slots user db
        + combination_rule_slot_cost (length (members_of c.id db.combination_members))
unfolding start_combination count_active_rule_slots combination_rule_slot_cost
combination-slots user now c db k =
    let members = members_of c.id db.combination_members in
    omega (
      arith,
      k.combination_rules c.id,
      count-is_member members db.watch_rules k.watch_rules,
      count-update_add (watch_runs user) (is_member members) resume_member db.watch_rules,
      count-update_add (combination_runs user) (λ (x : Combination). x.id == c.id)
          (resume_combination now) db.combination_rules,
    )

pub market-keys :
    (now : ℕ) (r : MarketRule) (db : Db) → HasKeys db → HasKeys (start_market_rule now r db)
unfolding start_market_rule
market-keys now r db k = record {
  watch_rules = k.watch_rules;
  combination_rules = k.combination_rules;
  market_rules = λ id. omega (
    arith,
    k.market_rules id,
    count-update_le (λ (x : MarketRule). x.id == id) (λ x. x.id == r.id) (resume_market_rule now)
        db.market_rules (λ x _ h. h),
  );
  market_combinations = k.market_combinations;
}

pub market-slots :
    (user : String) (now : ℕ) (r : MarketRule) (db : Db)
    → HasKeys db
    → count_active_rule_slots user (start_market_rule now r db)
      ≤ suc (count_active_rule_slots user db)
unfolding start_market_rule count_active_rule_slots
market-slots user now r db k = omega (
  arith,
  k.market_rules r.id,
  count-update_add (market_runs user) (λ (x : MarketRule). x.id == r.id) (resume_market_rule now)
      db.market_rules,
)

pub market_combination-keys :
    (now : ℕ) (c : Combination) (db : Db) → HasKeys db → HasKeys (start_market_combination now c db)
unfolding start_market_combination
market_combination-keys now c db k = record {
  watch_rules = k.watch_rules;
  combination_rules = k.combination_rules;
  market_rules = k.market_rules;
  market_combinations = λ id. omega (
    arith,
    k.market_combinations id,
    count-update_le (λ (x : Combination). x.id == id) (λ x. x.id == c.id) (resume_combination now)
        db.market_combinations (λ x _ h. h),
  );
}

pub market_combination-slots :
    (user : String) (now : ℕ) (c : Combination) (db : Db)
    → HasKeys db
    → count_active_rule_slots user (start_market_combination now c db)
      ≤ suc (count_active_rule_slots user db)
unfolding start_market_combination count_active_rule_slots
market_combination-slots user now c db k = omega (
  arith,
  k.market_combinations c.id,
  count-update_add (combination_runs user) (λ (x : Combination). x.id == c.id)
      (resume_combination now) db.market_combinations,
)
