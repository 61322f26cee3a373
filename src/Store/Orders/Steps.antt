-- ===== src/Store/Orders/Steps.antt =====
-- One call of the order operations, and what it may do to each row.
pub mod Effects
pub mod History
pub mod Keeping
use de_box_asset_alert.Prelude.{
  ℕ, ◌<◌, ◌≤◌, String, ◌≡◌, refl, sym, ◌≢◌, ◌⊎◌, inl, inr, Bool, true, false, not, ◌&&◌, ◌||◌,
  Option, none, some, List, [], ◌∷◌, ◌++◌, Result, ok, err, update, equal_fold, str_eq, eq_iff,
  arith, ◌==◌, ==_iff, Bool-cases, to_lower,
}
use text.Mathlib.TextPositions.{eq_refl}
use de_box_asset_alert.Store.Tables.{
  Db, Order, OrderStatus, pending, confirming, paid, failed, lapsed, is_pending, is_confirming,
  is_paid, StoreError,
}
use de_box_asset_alert.Store.Orders.{
  CreateOrderParams, Verification, expire_pending_orders, create_order, claim_order_transaction,
  update_order_verification, finalize_paid_order, same_hash, accepts_hash, lapse, claim, verify,
  settle, has_expired, is_claimable, is_unpaid, is_settling, is_pending_of, replaced,
}

pub data OrderCall : Type 0 where
  expires : OrderCall
  creates : CreateOrderParams → OrderCall
  claims : ℕ → String → String → String → OrderCall
  verifies : ℕ → Verification → OrderCall
  finalizes : ℕ → String → ℕ → ℕ → OrderCall

-- What an update keeps of a row, and how a row may become paid.
pub record Step (o o' : Order) : Type 0 where
  pub id_lem : o'.id ≡ o.id
  pub owner : o'.debox_user_id ≡ o.debox_user_id
  pub payer : o'.payer_address ≡ o.payer_address
  pub plan : o'.plan_code ≡ o.plan_code
  pub days : o'.subscription_days ≡ o.subscription_days
  pub amount : o'.total_amount ≡ o.total_amount
  pub recipient : o'.recipient_address ≡ o.recipient_address
  pub paid_kept : o.status ≡ paid → o' ≡ o
  pub paid_from :
      o'.status ≡ paid → (o.status ≡ paid) ⊎ (o.status ≡ confirming) × (o'.tx_hash ≡ o.tx_hash)
  pub hash_kept : (h : String) → o.tx_hash ≡ some h → h ≢ "" → same_hash h o'.tx_hash ≡ true

equal_fold_refl : (s : String) → equal_fold s s ≡ true
unfolding equal_fold
equal_fold_refl s = eq_refl (to_lower s)

equal_fold_sym : (s t : String) → equal_fold s t ≡ true → equal_fold t s ≡ true
unfolding equal_fold
equal_fold_sym s t h =
    ground (arith, eq_iff (to_lower s) (to_lower t), eq_iff (to_lower t) (to_lower s))

-- The terms are equal by computation, so the tactics prove them with the rest.
Step-same : (o : Order) → Step o o
Step-same o = grind (arith, equal_fold_refl)

Step-lapse : (note : String) (o : Order) → is_pending o.status ≡ true → Step o (lapse note o)
unfolding lapse
Step-lapse note o t = grind (arith, equal_fold_refl)

Step-expire : (o : Order) → is_pending o.status ≡ true → Step o (record o { status = lapsed })
Step-expire o t = grind (arith, equal_fold_refl)

Step-claim :
    (id : ℕ) (user payer hash : String) (now : ℕ) (o : Order)
    → is_claimable id user payer hash now o ≡ true
    → Step o (claim hash now o)
unfolding claim is_claimable
Step-claim id user payer hash now o t = record {
  id_lem = refl;
  owner = refl;
  payer = refl;
  plan = refl;
  days = refl;
  amount = refl;
  recipient = refl;
  paid_kept = λ e. ground arith;
  paid_from = λ e. absurd (cc);
  hash_kept = λ h e n. ground (arith, eq_iff h "", equal_fold_sym h hash);
}

Step-verify :
    (v : Verification) (now id : ℕ) (o : Order)
    → v.status ≢ paid
    → is_unpaid id o ≡ true
    → Step o (verify v now o)
unfolding verify is_unpaid
Step-verify v now id o n t = grind (arith, equal_fold_refl)

Step-settle :
    (block confirmations now id : ℕ) (o : Order)
    → is_settling id o ≡ true
    → Step o (settle block confirmations now o)
unfolding settle is_settling
Step-settle block confirmations now id o t = grind (arith, equal_fold_refl)

-- Each order is kept in its place and takes a step; new orders come behind.
abbrev pub Evolves : List Order → List Order → Type 0
Evolves [] ys = Unit {0}
Evolves (x ∷ xs) [] = ⊥
Evolves (x ∷ xs) (y ∷ ys) = Step x y × Evolves xs ys

Evolves-same : (xs : List Order) → Evolves xs xs
Evolves-same [] = tt
Evolves-same (x ∷ xs) = (Step-same x, Evolves-same xs)

Evolves-update :
    (test : Order → Bool) (change : Order → Order) (xs : List Order)
    → ((o : Order) → test o ≡ true → Step o (change o))
    → Evolves xs (update test change xs)
unfolding update
Evolves-update test change [] h = tt
Evolves-update test change (x ∷ xs) h = elim (Bool-cases (test x)) [
  | inl e ↦ rw e (h x e, Evolves-update test change xs h)
  | inr e ↦ rw e (Step-same x, Evolves-update test change xs h)
]

Evolves-append : (xs ys zs : List Order) → Evolves xs ys → Evolves xs (ys ++ zs)
Evolves-append [] ys zs h = tt
Evolves-append (x ∷ xs) [] zs h = absurd h
Evolves-append (x ∷ xs) (y ∷ ys) zs (s, h) = (s, Evolves-append xs ys zs h)

-- A failed call leaves the database as it was.
abbrev pub after {ℓ} : {A : Type ℓ} → Db → Result StoreError (A × Db) → Db
after db (ok (a, db')) = db'
after db (err e) = db

unfoldable pub apply : OrderCall → ℕ → Db → Db
unfolding expire_pending_orders create_order claim_order_transaction update_order_verification
    finalize_paid_order
apply expires now db = after db (expire_pending_orders now db)
apply (creates p) now db = after db (create_order p now db)
apply (claims id user payer hash) now db =
    after db (claim_order_transaction id user payer hash now db)
apply (verifies id v) now db = after db (update_order_verification id v now db)
apply (finalizes id hash block confirmations) now db =
    after db (finalize_paid_order id hash block confirmations now db)

-- The service passes `confirming` or `failed` only.
abbrev pub IsCall : OrderCall → Type 0
IsCall (verifies id v) = v.status ≢ paid
IsCall _ = Unit
