-- ===== src/MarketDelivery/Queue/History.antt =====
-- internal/store/market_delivery.go: what every sequence of calls keeps of the notifications.
use de_box_asset_alert.Prelude.{
  ℕ, String, inl, inr, ◌≡◌, refl, subst, Option, List, [], ◌∷◌, Result, ok, err, All, str_eq,
  Bool-cases,
}
use de_box_asset_alert.Prelude.Results.{Result-cases}
use de_box_asset_alert.Prelude.Int.{ℤ}
use de_box_asset_alert.MarketDelivery.Tables.{Db, DeliveryError, is_staged, is_combined}
use de_box_asset_alert.MarketDelivery.Queue.{
  complete_table, sent_members, Claim, recover_stale_market_deliveries, claim_market_deliveries,
  complete_market_delivery,
}
use de_box_asset_alert.MarketDelivery.Queue.Moves.{
  Pairwise, IsBounded, Follows, Advances, Advances-refl, Advances-trans, recover_table-Advances,
  claim_table-Advances, complete_table-Advances, AreDistinct, AreDistinct-after, staged-open,
  combined-open, sent_members-Advances,
}

pub data Call : Type 0 where
  recover : ℤ → ℕ → Call
  claim : ℕ → ℕ → Call
  complete : Claim → Option String → String → ℕ → Call

-- A call that fails leaves the tables.
or_same : Db → Result DeliveryError Db → Db
or_same db (ok db') = db'
or_same db (err e) = db

unfoldable pub apply : Db → Call → Db
unfolding recover_stale_market_deliveries claim_market_deliveries complete_market_delivery or_same
apply db (recover lease now) = (recover_stale_market_deliveries lease now db).1
apply db (claim limit now) = (claim_market_deliveries limit now db).1
apply db (complete c message delivery_error now) =
    or_same db (complete_market_delivery c message delivery_error now db)

unfoldable pub run : Db → List Call → Db
unfolding apply
run db [] = db
run db (c ∷ calls) = run (apply db c) calls

-- Of each of the three tables.
abbrev DbAdvances : Db → Db → Type 0
DbAdvances db db' =
    Advances db.rule_events db'.rule_events
    × (Advances db.stage_windows db'.stage_windows
        × Advances db.combination_windows db'.combination_windows)

abbrev pub DbDistinct : Db → Type 0
DbDistinct db =
    AreDistinct db.rule_events × (AreDistinct db.stage_windows × AreDistinct db.combination_windows)

complete-Advances :
    (c : Claim) (message : Option String) (delivery_error : String) (now : ℕ) (db db' : Db)
    → complete_market_delivery c message delivery_error now db ≡ ok db'
    → DbAdvances db db'
unfolding complete_market_delivery
complete-Advances c message delivery_error now db db' h =
    elim (Bool-cases (str_eq c.kind "realtime")) [
      | inl e ↦
          elim (Result-cases (complete_table c.id message delivery_error now db.rule_events)) [
            | inl (rows, k) ↦
                subst (DbAdvances db) {x = record db { rule_events = rows }} {y = db'} (cc) (
                  complete_table-Advances c.id message delivery_error now _ _ k,
                  (Advances-refl _, Advances-refl _),
                )
            | inr (x, k) ↦ absurd (cc)
          ]
      | inr e ↦ elim (Bool-cases (str_eq c.kind "stage")) [
        | inl f ↦
            elim (Result-cases (complete_table c.id message delivery_error now db.stage_windows)) [
              | inl (rows, k) ↦
                  subst (DbAdvances db)
                    {x = record db {
                      stage_windows = rows;
                      rule_events =
                          sent_members is_staged db.stage_window_events c.id message delivery_error
                            now db.rule_events;
                    }}
                    {y = db'} (cc)
                    (
                      sent_members-Advances is_staged db.stage_window_events c.id message
                          delivery_error now _ staged-open,
                      (
                        complete_table-Advances c.id message delivery_error now _ _ k,
                        Advances-refl _,
                      ),
                    )
              | inr (x, k) ↦ absurd (cc)
            ]
        | inr f ↦ elim (Bool-cases (str_eq c.kind "combination")) [
          | inl g ↦
              elim (Result-cases
                (complete_table c.id message delivery_error now db.combination_windows)) [
                  | inl (rows, k) ↦
                      subst (DbAdvances db)
                        {x = record db {
                          combination_windows = rows;
                          rule_events =
                              sent_members is_combined db.combination_window_events c.id message
                                delivery_error now db.rule_events;
                        }}
                        {y = db'} (cc)
                        (
                          sent_members-Advances is_combined db.combination_window_events c.id
                              message delivery_error now _ combined-open,
                          (
                            Advances-refl _,
                            complete_table-Advances c.id message delivery_error now _ _ k,
                          ),
                        )
                  | inr (x, k) ↦ absurd (cc)
                ]
          | inr g ↦ absurd (cc)
        ]
      ]
    ]

apply-Advances : (db : Db) (c : Call) → DbDistinct db → DbAdvances db (apply db c)
unfolding apply
apply-Advances db (recover lease now) d = (
  recover_table-Advances _ now _,
  (recover_table-Advances _ now _, recover_table-Advances _ now _),
)
apply-Advances db (claim limit now) (a, (b, c)) = (
  claim_table-Advances _ _ now _ a,
  (claim_table-Advances _ _ now _ b, claim_table-Advances _ _ now _ c),
)
apply-Advances db (complete c message delivery_error now) d =
    elim (Result-cases (complete_market_delivery c message delivery_error now db)) [
      | inl (db', k) ↦
          subst (DbAdvances db) {x = db'} {y = apply db (complete c message delivery_error now)}
            (rw (k, complete_market_delivery) refl)
            (complete-Advances c message delivery_error now db db' k)
      | inr (x, k) ↦
          subst (DbAdvances db) {x = db} {y = apply db (complete c message delivery_error now)}
            (rw (k, complete_market_delivery) refl)
            (Advances-refl _, (Advances-refl _, Advances-refl _))
    ]

DbDistinct-after : (db db' : Db) → DbAdvances db db' → DbDistinct db → DbDistinct db'
DbDistinct-after db db' (a, (b, c)) (x, (y, z)) =
    (AreDistinct-after _ _ a x, (AreDistinct-after _ _ b y, AreDistinct-after _ _ c z))

run-Advances : (db : Db) (calls : List Call) → DbDistinct db → DbAdvances db (run db calls)
unfolding run
run-Advances db [] d = (Advances-refl _, (Advances-refl _, Advances-refl _))
run-Advances db (c ∷ calls) d =
    let a = apply-Advances db c d in
    let ih = run-Advances (apply db c) calls (DbDistinct-after db (apply db c) a d) in
    (
      Advances-trans _ _ _ a.0 ih.0,
      (Advances-trans _ _ _ a.1.0 ih.1.0, Advances-trans _ _ _ a.1.1 ih.1.1),
    )

-- Of tables with no id twice, and through every sequence of calls that recover, claim and complete
-- notifications, each row keeps its id, the number of its attempts never falls, and a row that is sent
-- or given up never changes again.
pub run-Follows :
    (db : Db) (calls : List Call)
    → DbDistinct db
    → Pairwise Follows db.rule_events (run db calls).rule_events
      × (Pairwise Follows db.stage_windows (run db calls).stage_windows
          × Pairwise Follows db.combination_windows (run db calls).combination_windows)
run-Follows db calls d = let a = run-Advances db calls d in (a.0.0, (a.1.0.0, a.1.1.0))

abbrev pub DbBounded : Db → Type 0
DbBounded db =
    All IsBounded db.rule_events
    × (All IsBounded db.stage_windows × All IsBounded db.combination_windows)

-- Every sequence of calls that recover, claim and complete notifications, of tables with no id twice,
-- keeps the invariant that a notification is attempted at most five times, and that one which is
-- pending, failed or being sent was attempted fewer than five times.
pub run-DbBounded :
    (db : Db) (calls : List Call) → DbDistinct db → DbBounded db → DbBounded (run db calls)
run-DbBounded db calls d (a, (b, c)) =
    let h = run-Advances db calls d in (h.0.1 a, (h.1.0.1 b, h.1.1.1 c))
