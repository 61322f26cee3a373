-- ===== src/Store/Orders/Steps/History.antt =====
-- What holds of the orders after any calls, in any order.
use de_box_asset_alert.Prelude.{
  ℕ, suc, ◌≤◌, ◌<◌, String, ◌≡◌, refl, sym, subst, inl, inr, Bool, true, false, not, ◌&&◌, some,
  List, [], ◌∷◌, ◌++◌, All, count, find, exists, update, to_lower, equal_fold, str_eq, eq_iff,
  arith, ◌==◌, Bool-cases, Option-cases, count-append,
}
use de_box_asset_alert.Prelude.Queries.{All-update, All-append, All-mono}
use de_box_asset_alert.Prelude.Single.{
  count_zero, count-update_le, count-update_one, count-update_sole,
}
use de_box_asset_alert.Store.Tables.{Db, Order, lapsed}
use de_box_asset_alert.Store.Orders.{
  CreateOrderParams, Verification, update_orders, has_expired, lapse, claim, verify, settle,
  replaced, new_order, is_pending_of, is_open, has_hash, is_claimable, is_unpaid, is_settling,
  taken_by_other, reopens, expire_pending_orders,
}
use de_box_asset_alert.Store.Orders.Steps.{
  OrderCall, expires, creates, claims, verifies, finalizes, apply,
}
use de_box_asset_alert.Store.Orders.Steps.Effects.{
  apply_claims, apply_verifies, apply_creates, apply_finalizes,
}

abbrev pub has_id : ℕ → Order → Bool
has_id id o = o.id == id

-- The keys of the table: ids and hashes name one order, and a user has one open order.
pub record Inv (db : Db) : Type 0 where
  pub fresh : All (λ o. o.id < db.next_id) db.orders
  pub one_id : (id : ℕ) → count (has_id id) db.orders ≤ 1
  pub one_open : (user : String) → count (is_open user) db.orders ≤ 1
  pub one_hash : (hash : String) → count (has_hash hash) db.orders ≤ 1

-- An update of one row keeps the ids; what it does to the open orders and the hashes is given.
update_one-Inv :
    (db db' : Db) (id : ℕ) (test : Order → Bool) (change : Order → Order) (o : Order)
    → ((x : Order) → test x ≡ true → has_id id x ≡ true)
    → ((x : Order) → (change x).id ≡ x.id)
    → find test db.orders ≡ some o
    → db'.orders ≡ update test change db.orders
    → db.next_id ≤ db'.next_id
    → ((user : String) → count (is_open user) (update test change db.orders) ≤ 1)
    → ((hash : String) → count (has_hash hash) (update test change db.orders) ≤ 1)
    → Inv db
    → Inv db'
update_one-Inv db db' id test change o part same found e later opens hashes v = record {
  fresh = rw e (
      All-update (λ x. x.id < db'.next_id) test change db.orders (λ x _ h. omega (arith, same x))
        (All-mono _ _ db.orders (λ x h. omega (arith, h)) v.fresh));
  one_id = λ i. rw e (
      omega (
        arith,
        v.one_id i,
        count-update_le (has_id i) test change db.orders (λ x _ h. ground (arith, same x)),
      ));
  one_open = λ user. rw e (opens user);
  one_hash = λ hash. rw e (hashes hash);
}

same_text : (a b c : String) → equal_fold a b ≡ true → equal_fold c b ≡ true → equal_fold a c ≡ true
unfolding equal_fold
same_text a b c h k = ground (
  arith,
  eq_iff (to_lower a) (to_lower b),
  eq_iff (to_lower c) (to_lower b),
  eq_iff (to_lower a) (to_lower c),
)

claim-hashes :
    (id : ℕ) (user payer hash : String) (now : ℕ) (db : Db) {o : Order}
    → find (is_claimable id user payer hash now) db.orders ≡ some o
    → taken_by_other id hash db.orders ≡ false
    → Inv db
    → (h : String)
    → count (has_hash h) (update (is_claimable id user payer hash now) (claim hash now) db.orders)
      ≤ 1
unfolding claim is_claimable taken_by_other
claim-hashes id user payer hash now db {o} found free v h =
    elim (Bool-cases (not (str_eq hash "") && equal_fold hash h)) [
      | inl e ↦
          count-update_sole (has_hash h) (has_id id) (is_claimable id user payer hash now) _
            (claim hash now) db.orders {x = o} (λ y t. ground arith) (v.one_id id) found
            (λ y t. elim (Option-cases y.tx_hash) [
              | inl n ↦ ground arith
              | inr (g, n) ↦ ground (arith, same_text g h hash)
            ])
            free
      | inr e ↦ omega (
        arith,
        v.one_hash h,
        count-update_le (has_hash h) (is_claimable id user payer hash now) (claim hash now)
            db.orders (λ y _ t. ground arith),
      )
    ]

claims-Inv :
    (id : ℕ) (user payer hash : String) (now : ℕ) (db : Db)
    → Inv db
    → Inv (apply (claims id user payer hash) now db)
claims-Inv id user payer hash now db v = elim (apply_claims id user payer hash now db) [
  | inl e ↦ subst Inv (sym e) v
  | inr (o, found, free, e) ↦ subst Inv (sym e) (
      update_one-Inv db _ id (is_claimable id user payer hash now) (claim hash now) o
        (λ x t. unfold is_claimable in ground arith) (λ x. unfold claim in refl) found refl
        (omega arith)
        (λ u. omega (
          arith,
          v.one_open u,
          count-update_le (is_open u) (is_claimable id user payer hash now) (claim hash now)
              db.orders (λ y a b. unfold is_claimable claim in ground arith),
        ))
        (claim-hashes id user payer hash now db found free v) v)
]

verify-open :
    (id : ℕ) (w : Verification) (now : ℕ) (db : Db) {o : Order}
    → find (is_unpaid id) db.orders ≡ some o
    → reopens w id o db.orders ≡ false
    → Inv db
    → (user : String) → count (is_open user) (update (is_unpaid id) (verify w now) db.orders) ≤ 1
unfolding verify is_unpaid reopens
verify-open id w now db {o} found free v user = elim (Bool-cases (is_open user (verify w now o))) [
  | inl e ↦
      count-update_sole (is_open user) (has_id id) (is_unpaid id)
        (λ p. not (p.id == id) && is_open o.debox_user_id p) (verify w now) db.orders {x = o}
        (λ y t. ground arith) (v.one_id id) found
        (λ y t. ground (
          arith,
          eq_iff o.debox_user_id user,
          eq_iff y.debox_user_id user,
          eq_iff y.debox_user_id o.debox_user_id,
        ))
        (ground arith)
  | inr e ↦
      let one =
        count-update_one (is_open user) (has_id id) (is_unpaid id) (verify w now) db.orders {x = o}
          (λ y t. ground arith) (v.one_id id) found in
      ground (arith, v.one_open user)
]

verifies-Inv :
    (id : ℕ) (w : Verification) (now : ℕ) (db : Db) → Inv db → Inv (apply (verifies id w) now db)
verifies-Inv id w now db v = elim (apply_verifies id w now db) [
  | inl e ↦ subst Inv (sym e) v
  | inr (o, found, free, e) ↦ subst Inv (sym e) (
      update_one-Inv db _ id (is_unpaid id) (verify w now) o
        (λ x t. unfold is_unpaid in ground arith) (λ x. unfold verify in refl) found refl
        (omega arith) (verify-open id w now db found free v)
        (λ h. omega (
          arith,
          v.one_hash h,
          count-update_le (has_hash h) (is_unpaid id) (verify w now) db.orders
              (λ y a b. unfold verify in ground arith),
        ))
        v)
]

finalizes-Inv :
    (id : ℕ) (hash : String) (block confirmations now : ℕ) (db : Db)
    → Inv db
    → Inv (apply (finalizes id hash block confirmations) now db)
finalizes-Inv id hash block confirmations now db v =
    elim (apply_finalizes id hash block confirmations now db) [
      | inl e ↦ subst Inv (sym e) v
      | inr (o, found, e, later) ↦
          update_one-Inv db _ id (is_settling id) (settle block confirmations now) o
            (λ x t. unfold is_settling in ground arith) (λ x. unfold settle in refl) found e later
            (λ u. omega (
              arith,
              v.one_open u,
              count-update_le (is_open u) (is_settling id) (settle block confirmations now)
                  db.orders (λ y a b. unfold settle in ground arith),
            ))
            (λ h. omega (
              arith,
              v.one_hash h,
              count-update_le (has_hash h) (is_settling id) (settle block confirmations now)
                  db.orders (λ y a b. unfold settle in ground arith),
            ))
            v
    ]

-- Closing orders keeps the keys.
close-Inv :
    (db db' : Db) (test : Order → Bool) (change : Order → Order)
    → ((x : Order) → (change x).id ≡ x.id)
    → ((x : Order) (user : String) → is_open user (change x) ≡ false)
    → ((x : Order) (hash : String) → has_hash hash (change x) ≡ has_hash hash x)
    → db'.orders ≡ update test change db.orders
    → db.next_id ≤ db'.next_id
    → Inv db
    → Inv db'
close-Inv db db' test change same closed hashes e later v = record {
  fresh = rw e (
      All-update (λ x. x.id < db'.next_id) test change db.orders (λ x _ h. omega (arith, h, same x))
        (All-mono _ _ db.orders (λ x h. omega (arith, h)) v.fresh));
  one_id = λ i. rw e (
      omega (
        arith,
        v.one_id i,
        count-update_le (has_id i) test change db.orders (λ x _ h. ground (arith, same x)),
      ));
  one_open = λ u. rw e (
      omega (
        arith,
        v.one_open u,
        count-update_le (is_open u) test change db.orders (λ x _ h. ground (arith, closed x u)),
      ));
  one_hash = λ h. rw e (
      omega (
        arith,
        v.one_hash h,
        count-update_le (has_hash h) test change db.orders (λ x _ t. ground (arith, hashes x h)),
      ));
}

expires-Inv : (now : ℕ) (db : Db) → Inv db → Inv (apply expires now db)
unfolding apply expire_pending_orders
expires-Inv now db v =
    close-Inv db _ (has_expired now) (λ o. record o { status = lapsed }) (λ x. refl)
      (λ x u. ground arith) (λ x h. refl) refl (omega arith) v

count-fresh :
    (n : ℕ) (orders : List Order) → All (λ o. o.id < n) orders → count (has_id n) orders ≡ 0
unfolding count
count-fresh n [] h = refl
count-fresh n (o ∷ orders) (l, h) = ground (arith, count-fresh n orders h)

-- A new order has an id of its own, and its user has no other open one.
append-Inv :
    (p : CreateOrderParams) (now : ℕ) (db db' : Db)
    → exists (is_open p.debox_user_id) db.orders ≡ false
    → db'.orders ≡ db.orders ++ new_order p db.next_id now ∷ []
    → db'.next_id ≡ suc db.next_id
    → Inv db
    → Inv db'
unfolding new_order count
append-Inv p now db db' free e n v = record {
  fresh = rw e (
      All-append (λ o. o.id < db'.next_id) db.orders _
        (All-mono _ _ db.orders (λ x h. omega (arith, h, n)) v.fresh) (omega (arith, n), tt));
  one_id = λ i.
      rw (e, count-append (has_id i) db.orders (new_order p db.next_id now ∷ []))
        (ground (arith, v.one_id i, count-fresh db.next_id db.orders v.fresh));
  one_open = λ u.
      rw (e, count-append (is_open u) db.orders (new_order p db.next_id now ∷ []))
        (ground (
          arith,
          v.one_open u,
          eq_iff p.debox_user_id u,
          count_zero (is_open p.debox_user_id) db.orders free,
        ));
  one_hash = λ h.
      rw (e, count-append (has_hash h) db.orders (new_order p db.next_id now ∷ []))
        (ground (arith, v.one_hash h));
}

creates-Inv : (p : CreateOrderParams) (now : ℕ) (db : Db) → Inv db → Inv (apply (creates p) now db)
creates-Inv p now db v = elim (apply_creates p now db) [
  | inl e ↦ subst Inv (sym e) v
  | inr (free, e, n) ↦
      append-Inv p now (update_orders (is_pending_of p.debox_user_id) (lapse replaced) db) _ free e
        n
        (close-Inv db _ (is_pending_of p.debox_user_id) (lapse replaced) (λ x. unfold lapse in refl)
          (λ x u. unfold lapse in ground arith) (λ x h. unfold lapse in refl) refl (omega arith) v)
]

-- Every call keeps the keys of the orders: an order's id is its own, a user has at most one open
-- order, and a transaction pays at most one order, whatever the letter case of its hash.
pub apply-Inv : (c : OrderCall) (now : ℕ) (db : Db) → Inv db → Inv (apply c now db)
apply-Inv expires now db v = expires-Inv now db v
apply-Inv (creates p) now db v = creates-Inv p now db v
apply-Inv (claims id user payer hash) now db v = claims-Inv id user payer hash now db v
apply-Inv (verifies id w) now db v = verifies-Inv id w now db v
apply-Inv (finalizes id hash block confirmations) now db v =
    finalizes-Inv id hash block confirmations now db v

-- Calls at their times, from the first to the last.
abbrev pub run : List (ℕ × OrderCall) → Db → Db
run [] db = db
run ((now, c) ∷ calls) db = run calls (apply c now db)

-- The keys hold after every sequence of calls, at any times.
pub run-Inv : (calls : List (ℕ × OrderCall)) (db : Db) → Inv db → Inv (run calls db)
run-Inv [] db v = v
run-Inv ((now, c) ∷ calls) db v = run-Inv calls (apply c now db) (apply-Inv c now db v)
