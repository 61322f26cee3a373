-- ===== src/Store/Orders/Steps/Keeping.antt =====
-- What no sequence of calls changes in an order.
use de_box_asset_alert.Prelude.{ℕ, ◌≡◌, ◌∙◌, List, [], ◌∷◌, All, arith}
use de_box_asset_alert.Store.Tables.{Db, Order, paid}
use de_box_asset_alert.Store.Orders.Steps.{OrderCall, apply, IsCall, Step, Evolves}
use de_box_asset_alert.Store.Orders.Steps.Effects.{apply-Evolves}
use de_box_asset_alert.Store.Orders.Steps.History.{run}

-- Each order of a list stays in its place and keeps its terms; one that is paid stays as it is.
pub record Kept (o o' : Order) : Type 0 where
  pub id_lem : o'.id ≡ o.id
  pub owner : o'.debox_user_id ≡ o.debox_user_id
  pub plan : o'.plan_code ≡ o.plan_code
  pub days : o'.subscription_days ≡ o.subscription_days
  pub amount : o'.total_amount ≡ o.total_amount
  pub recipient : o'.recipient_address ≡ o.recipient_address
  pub paid_kept : o.status ≡ paid → o' ≡ o

abbrev pub Keeps : List Order → List Order → Type 0
Keeps [] ys = Unit {0}
Keeps (x ∷ xs) [] = ⊥
Keeps (x ∷ xs) (y ∷ ys) = Kept x y × Keeps xs ys

Keeps-refl : (xs : List Order) → Keeps xs xs
Keeps-refl [] = tt
Keeps-refl (x ∷ xs) = (ground arith, Keeps-refl xs)

Kept-Step : (x y z : Order) → Step x y → Kept y z → Kept x z
Kept-Step x y z s k = record {
  id_lem = k.id_lem ∙ s.id_lem;
  owner = k.owner ∙ s.owner;
  plan = k.plan ∙ s.plan;
  days = k.days ∙ s.days;
  amount = k.amount ∙ s.amount;
  recipient = k.recipient ∙ s.recipient;
  paid_kept = λ e. k.paid_kept (cc (e, s.paid_kept e)) ∙ s.paid_kept e;
}

Keeps-Evolves : (xs ys zs : List Order) → Evolves xs ys → Keeps ys zs → Keeps xs zs
Keeps-Evolves [] ys zs e k = tt
Keeps-Evolves (x ∷ xs) [] zs e k = absurd e
Keeps-Evolves (x ∷ xs) (y ∷ ys) [] e k = absurd k
Keeps-Evolves (x ∷ xs) (y ∷ ys) (z ∷ zs) (s, e) (k, h) =
    (Kept-Step x y z s k, Keeps-Evolves xs ys zs e h)

-- Over every sequence of calls, none of which sets an order to `paid` by an update of its
-- verification, the orders stay in the table with their ids, owners, plans, days,
-- amounts and recipients, and an order that is paid never changes again.
pub run-Keeps :
    (calls : List (ℕ × OrderCall)) (db : Db)
    → All (λ (now, c). IsCall c) calls
    → Keeps db.orders (run calls db).orders
run-Keeps [] db h = Keeps-refl db.orders
run-Keeps ((now, c) ∷ calls) db (i, h) =
    Keeps-Evolves db.orders _ _ (apply-Evolves c now db i) (run-Keeps calls (apply c now db) h)
