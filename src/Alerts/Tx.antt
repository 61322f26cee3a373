-- ===== src/Alerts/Tx.antt =====
-- A transaction on these tables: rolled back on an error, so that a failed one has no tables to return.
use de_box_asset_alert.Prelude.{Result, ok, err, Bool, true, false, Option, none, some}
use de_box_asset_alert.Alerts.Tables.{AlertDb, AlertError}

abbrev pub AlertTx : Type 0 → Type 0
AlertTx A = AlertDb → Result AlertError (A × AlertDb)

infixl 5 ◌>>=◌ ◌>>◌
abbrev pub ◌>>=◌ : {A B : Type 0} → AlertTx A → (A → AlertTx B) → AlertTx B
◌>>=◌ m f db = elim (m db) [ ok (a, db') ↦ f a db' | err e ↦ err e ]

abbrev pub ◌>>◌ : {A B : Type 0} → AlertTx A → AlertTx B → AlertTx B
m >> k = m >>= λ _. k

abbrev pub pure : {A : Type 0} → A → AlertTx A
pure a db = ok (a, db)

abbrev pub refuse_if : Bool → AlertError → AlertTx (Unit {0})
refuse_if true e db = err e
refuse_if false e db = ok (tt, db)

abbrev pub gets : {A : Type 0} → (AlertDb → A) → AlertTx A
gets f db = ok (f db, db)

abbrev pub modify : (AlertDb → AlertDb) → AlertTx (Unit {0})
modify f db = ok (tt, f db)

-- The row that a query found, or the error.
abbrev pub or_fail : {A : Type 0} → AlertError → Option A → AlertTx A
or_fail e none db = err e
or_fail e (some a) db = ok (a, db)
