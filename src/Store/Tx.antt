-- ===== src/Store/Tx.antt =====
-- internal/store/store.go: a transaction. `withTxValue` rolls back on an error, so a failed operation
-- has no database to return. Each operation takes the time of its NOW().
use de_box_asset_alert.Prelude.{Result, ok, err, Bool, true, false}
use de_box_asset_alert.Store.Tables.{Db, StoreError}

abbrev pub Tx : Type 0 → Type 0
Tx A = Db → Result StoreError (A × Db)

infixl 5 ◌>>=◌ ◌>>◌
abbrev pub ◌>>=◌ : {A B : Type 0} → Tx A → (A → Tx B) → Tx B
◌>>=◌ m f db = elim (m db) [ ok (a, db') ↦ f a db' | err e ↦ err e ]

abbrev pub ◌>>◌ : {A B : Type 0} → Tx A → Tx B → Tx B
m >> k = m >>= λ _. k

abbrev pub pure : {A : Type 0} → A → Tx A
pure a db = ok (a, db)

abbrev pub fail : {A : Type 0} → StoreError → Tx A
fail e db = err e

abbrev pub refuse_if : Bool → StoreError → Tx (Unit {0})
refuse_if true e db = err e
refuse_if false e db = ok (tt, db)

abbrev pub gets : {A : Type 0} → (Db → A) → Tx A
gets f db = ok (f db, db)

abbrev pub modify : (Db → Db) → Tx (Unit {0})
modify f db = ok (tt, f db)
