-- ===== src/Store/Reconcile/Bounds.antt =====
-- The rule slots in use after a reconciliation.
use de_box_asset_alert.Prelude.{
  ℕ, ◌≤◌, String, ◌≡◌, subst, inl, inr, List, [], ◌∷◌, ok, str_eq, arith, Bool-cases, Option-cases,
  Result-cases,
}
use de_box_asset_alert.Store.Tables.{Db, WatchRule, Combination, MarketRule}
use de_box_asset_alert.Store.Subscriptions.{after_expiry}
use de_box_asset_alert.Store.Entitlements.{QuotaPolicy, count_active_rule_slots}
use de_box_asset_alert.Store.Entitlements.Policy.{
  require_policy_plan_cases, count_active_rule_slots-after_expiry,
}
use de_box_asset_alert.Store.Reconcile.{
  ReconcileResult, Usage, restore_projects, restore_watch_rules, start_watch_rule, skips_watch_rule,
  member_rules, members_of, skips_combination, start_combination, combination_rule_slot_cost,
  restore_combinations, one_more, use_watch_rule, use_members,
}
use de_box_asset_alert.Store.Reconcile.Market.{
  restore_market_rules, skips_market_rule, start_market_rule, restore_market_combinations,
  skips_market_combination, start_market_combination,
}
use de_box_asset_alert.Store.Reconcile.Run.{
  start_usage, fresh, stopped_combinations, stopped_market_combinations, watch_loop,
  combination_loop, market_loop, market_combination_loop, restore_rules, restore_all,
  reconcile_user_entitlements,
}
use de_box_asset_alert.Store.Reconcile.Slots.{
  HasKeys, length-member_rules, watch-keys, watch-slots, combination-keys, combination-slots,
  market-keys, market-slots, market_combination-keys, market_combination-slots,
}

-- The loops' counter is not below the slots in use, nor above the cap.
record IsWithin (user : String) (cap : ℕ) (u : Usage) (db : Db) : Type 0 where
  keys : HasKeys db
  counted : count_active_rule_slots user db ≤ u.slots
  capped : u.slots ≤ cap

module _ (user : String) (p : QuotaPolicy) (now cap : ℕ) (limit : p.rule_limit ≤ cap) where
  restore_watch_rules-IsWithin :
      (rules : List WatchRule) (u : Usage) (db : Db) {v : Usage} {db' : Db}
      → IsWithin user cap u db
      → restore_watch_rules p now rules u db ≡ ok (v, db')
      → IsWithin user cap v db'
  unfolding restore_watch_rules count_active_rule_slots use_watch_rule
  restore_watch_rules-IsWithin [] u db w h = ground arith
  restore_watch_rules-IsWithin (r ∷ rules) u db {v} {db'} w h =
      elim (Bool-cases (skips_watch_rule p r u)) [
        | inl e ↦ restore_watch_rules-IsWithin rules u db w (ground arith)
        | inr e ↦
            restore_watch_rules-IsWithin rules (use_watch_rule r u) (start_watch_rule now r db)
              (record {
                keys = watch-keys now r db w.keys;
                counted = omega (arith, w.counted, watch-slots user now r db w.keys);
                capped = unfold skips_watch_rule in ground arith;
              })
              (ground arith)
      ]

  restore_market_rules-IsWithin :
      (rules : List MarketRule) (u : Usage) (db : Db) {v : Usage} {db' : Db}
      → IsWithin user cap u db
      → restore_market_rules p now rules u db ≡ ok (v, db')
      → IsWithin user cap v db'
  unfolding restore_market_rules one_more
  restore_market_rules-IsWithin [] u db w h = ground arith
  restore_market_rules-IsWithin (r ∷ rules) u db {v} {db'} w h =
      elim (Bool-cases (skips_market_rule p r u)) [
        | inl e ↦ restore_market_rules-IsWithin rules u db w (ground arith)
        | inr e ↦
            restore_market_rules-IsWithin rules (one_more u) (start_market_rule now r db)
              (record {
                keys = market-keys now r db w.keys;
                counted = omega (arith, w.counted, market-slots user now r db w.keys);
                capped = unfold skips_market_rule in ground arith;
              })
              (ground arith)
      ]

  restore_market_combinations-IsWithin :
      (rules : List Combination) (u : Usage) (db : Db) {v : Usage} {db' : Db}
      → IsWithin user cap u db
      → restore_market_combinations p now rules u db ≡ ok (v, db')
      → IsWithin user cap v db'
  unfolding restore_market_combinations one_more
  restore_market_combinations-IsWithin [] u db w h = ground arith
  restore_market_combinations-IsWithin (c ∷ rules) u db {v} {db'} w h =
      elim (Bool-cases (skips_market_combination p c u db)) [
        | inl e ↦ restore_market_combinations-IsWithin rules u db w (ground arith)
        | inr e ↦
            restore_market_combinations-IsWithin rules (one_more u)
              (start_market_combination now c db)
              (record {
                keys = market_combination-keys now c db w.keys;
                counted = omega (arith, w.counted, market_combination-slots user now c db w.keys);
                capped = unfold skips_market_combination in ground arith;
              })
              (ground arith)
      ]

  restore_combinations-IsWithin :
      (rules : List Combination) (u : Usage) (db : Db) {v : Usage} {db' : Db}
      → IsWithin user cap u db
      → restore_combinations p now rules u db ≡ ok (v, db')
      → IsWithin user cap v db'
  unfolding restore_combinations
  restore_combinations-IsWithin [] u db w h = ground arith
  restore_combinations-IsWithin (c ∷ rules) u db {v} {db'} w h =
      elim (Option-cases (member_rules (members_of c.id db.combination_members) db.watch_rules)) [
        | inl n ↦ absurd (ground arith)
        | inr (members, m) ↦ elim (Bool-cases (skips_combination p c members u)) [
          | inl e ↦ restore_combinations-IsWithin rules u db w (ground arith)
          | inr e ↦
              restore_combinations-IsWithin rules (use_members members u)
                (start_combination now c db)
                (record {
                  keys = combination-keys now c db w.keys;
                  counted =
                      unfold combination_rule_slot_cost in
                      omega (
                        arith,
                        w.counted,
                        combination-slots user now c db w.keys,
                        length-member_rules (members_of c.id db.combination_members) db.watch_rules
                            m,
                      );
                  capped = unfold skips_combination in ground arith;
                })
                (ground arith)
        ]
      ]

  -- A loop begins by counting from 0, which is none of the bounds' business.
  fresh-IsWithin : (u : Usage) (db : Db) → IsWithin user cap u db → IsWithin user cap (fresh u) db
  fresh-IsWithin u db w = record { keys = w.keys; counted = w.counted; capped = w.capped }

  watch_loop-IsWithin :
      (u : Usage) (db : Db) {v : Usage} {db' : Db}
      → IsWithin user cap u db
      → watch_loop user p now u db ≡ ok (v, db')
      → IsWithin user cap v db'
  unfolding watch_loop
  watch_loop-IsWithin u db w h =
      restore_watch_rules-IsWithin _ (fresh u) db (fresh-IsWithin u db w) h

  combination_loop-IsWithin :
      (u : Usage) (db : Db) {v : Usage} {db' : Db}
      → IsWithin user cap u db
      → combination_loop user p now u db ≡ ok (v, db')
      → IsWithin user cap v db'
  unfolding combination_loop
  combination_loop-IsWithin u db {v} {db'} w h = elim (Bool-cases p.combination_rules) [
    | inl e ↦
        let g : restore_combinations p now (stopped_combinations user db) (fresh u) db
            ≡ ok (v, db') =
          rw e at h in
        restore_combinations-IsWithin (stopped_combinations user db) (fresh u) db
          (fresh-IsWithin u db w) g
    | inr e ↦ ground arith
  ]

  market_loop-IsWithin :
      (u : Usage) (db : Db) {v : Usage} {db' : Db}
      → IsWithin user cap u db
      → market_loop user p now u db ≡ ok (v, db')
      → IsWithin user cap v db'
  unfolding market_loop
  market_loop-IsWithin u db w h =
      restore_market_rules-IsWithin _ (fresh u) db (fresh-IsWithin u db w) h

  market_combination_loop-IsWithin :
      (u : Usage) (db : Db) {v : Usage} {db' : Db}
      → IsWithin user cap u db
      → market_combination_loop user p now u db ≡ ok (v, db')
      → IsWithin user cap v db'
  unfolding market_combination_loop
  market_combination_loop-IsWithin u db {v} {db'} w h = elim (Bool-cases p.combination_rules) [
    | inl e ↦
        let g : restore_market_combinations p now (stopped_market_combinations user db) (fresh u) db
            ≡ ok (v, db') =
          rw e at h in
        restore_market_combinations-IsWithin (stopped_market_combinations user db) (fresh u) db
          (fresh-IsWithin u db w) g
    | inr e ↦ ground arith
  ]

  restore_projects-IsWithin :
      (u : Usage) (db : Db) {n : ℕ} {db' : Db}
      → IsWithin user cap u db
      → restore_projects user p db ≡ ok (n, db')
      → IsWithin user cap u db'
  unfolding restore_projects count_active_rule_slots
  restore_projects-IsWithin u db {n} {db'} w h = record {
    keys = record {
      watch_rules = λ id. ground (arith, w.keys.watch_rules id);
      combination_rules = λ id. ground (arith, w.keys.combination_rules id);
      market_rules = λ id. ground (arith, w.keys.market_rules id);
      market_combinations = λ id. ground (arith, w.keys.market_combinations id);
    };
    counted = ground (arith, w.counted);
    capped = w.capped;
  }

  -- The loops, each from what the one before it left.
  loops-IsWithin :
      (projects : ℕ) (u : Usage) (db : Db) {r : ReconcileResult} {db' : Db}
      → IsWithin user cap u db
      → restore_rules user p now projects u db ≡ ok (r, db')
      → count_active_rule_slots user db' ≤ cap
  unfolding restore_rules
  loops-IsWithin projects u db {r} {db'} w h = elim (Result-cases (watch_loop user p now u db)) [
    | inr (x, e) ↦ absurd (ground arith)
    | inl ((u1, db1), e1) ↦ elim (Result-cases (combination_loop user p now u1 db1)) [
      | inr (x, e) ↦ absurd (ground arith)
      | inl ((u2, db2), e2) ↦ elim (Result-cases (market_loop user p now u2 db2)) [
        | inr (x, e) ↦ absurd (ground arith)
        | inl ((u3, db3), e3) ↦ elim (Result-cases (market_combination_loop user p now u3 db3)) [
          | inr (x, e) ↦ absurd (ground arith)
          | inl ((u4, db4), e4) ↦
              let w1 = watch_loop-IsWithin u db w e1 in
              let w2 = combination_loop-IsWithin u1 db1 w1 e2 in
              let w3 = market_loop-IsWithin u2 db2 w2 e3 in
              let w4 = market_combination_loop-IsWithin u3 db3 w3 e4 in
              let same : db4 ≡ db' = ground arith in
              subst (λ d. count_active_rule_slots user d ≤ cap) same
                (omega (arith, w4.counted, w4.capped))
        ]
      ]
    ]
  ]

  restore_all-le :
      (db : Db) {r : ReconcileResult} {db' : Db}
      → HasKeys db
      → count_active_rule_slots user db ≤ cap
      → restore_all user p now db ≡ ok (r, db')
      → count_active_rule_slots user db' ≤ cap
  unfolding restore_all
  restore_all-le db {r} {db'} k within h = elim (Result-cases (restore_projects user p db)) [
    | inr (x, e) ↦ absurd (ground arith)
    | inl ((n, mid), e) ↦
        let w =
          restore_projects-IsWithin (start_usage user db) db
            (record { keys = k; counted = omega arith; capped = within }) e in
        loops-IsWithin n (start_usage user mid) mid {r = r}
          (record {
            keys = w.keys;
            counted = omega arith;
            capped = omega (arith, w.counted, w.capped);
          })
          (ground arith)
  ]

  after_expiry-HasKeys : (now : ℕ) (db : Db) → HasKeys db → HasKeys (after_expiry user now db)
  unfolding after_expiry
  after_expiry-HasKeys now db k = record {
    watch_rules = k.watch_rules;
    combination_rules = k.combination_rules;
    market_rules = k.market_rules;
    market_combinations = k.market_combinations;
  }

  -- A reconciliation that succeeds leaves the user with at most `cap` running rules, combinations
  -- included, for every cap that is not below the rule limit of the plan nor below the number of the
  -- rules that ran before; the ids of each table of rules are its key.
  pub reconcile_user_entitlements-le :
      (db : Db) {r : ReconcileResult} {db' : Db}
      → HasKeys db
      → count_active_rule_slots user db ≤ cap
      → reconcile_user_entitlements user p now db ≡ ok (r, db')
      → count_active_rule_slots user db' ≤ cap
  unfolding reconcile_user_entitlements
  reconcile_user_entitlements-le db {r} {db'} k within h =
      elim (require_policy_plan_cases user p now db) [
        | inr (_, e) ↦ absurd (ground arith)
        | inl (_, e) ↦
            let mid = after_expiry user now db in
            let same = count_active_rule_slots-after_expiry user now db in
            elim (Bool-cases (str_eq p.plan_code "free")) [
              | inl f ↦
                  (let here : mid ≡ db' = ground arith in
                    subst (λ d. count_active_rule_slots user d ≤ cap) here
                      (omega (arith, same, within)))
              | inr f ↦
                  restore_all-le mid {r = r} (after_expiry-HasKeys now db k)
                    (omega (arith, same, within)) (ground arith)
            ]
      ]
