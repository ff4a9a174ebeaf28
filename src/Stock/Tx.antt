-- ===== src/Stock/Tx.antt =====
-- What the methods of `StockRepo` in internal/repository/stock.go share. Each method is a
-- transaction: `commit` keeps the new tables when every statement succeeded, and the old ones when
-- one failed (the deferred `tx.Rollback`).
use firebin_api.Base.{ℕ, Bool, true, false, Option, none, some, Outcome, ok, err, ◌>>=◌}
use firebin_api.Base.Int.{ℤ, pos}
use firebin_api.Stock.Model.{StockItem, Transaction, Db, Env, StockError, ItemView, not_found}
use firebin_api.Stock.Table.{
  find_item, find_part, find_location, earliest, set_quantity, insert_item, insert_transaction,
}

-- What a method leaves behind: its result, and the tables.
abbrev pub Reply : Type 0 → Type 0
Reply A = Outcome StockError A × Db

abbrev pub commit : {A : Type 0} → Db → Outcome StockError (A × Db) → Reply A
commit db (ok (a, db')) = (ok a, db')
commit db (err e) = (err e, db)

abbrev pub or_fail : {A : Type 0} → Option A → StockError → Outcome StockError A
or_fail none e = err e
or_fail (some a) e = ok a

abbrev pub check : {A : Type 0} → Bool → StockError → Outcome StockError A → Outcome StockError A
check true e m = err e
check false e m = m

-- A new lot with the columns that the INSERT statements leave at their defaults.
unfoldable pub empty_lot : Env → ℕ → Option ℕ → Option ℕ → StockItem
empty_lot env part loc supplier = record {
  id = env.fresh_id;
  part_id = part;
  location_id = loc;
  supplier_part_id = supplier;
  quantity = pos 0;
  status = "ok";
  barcode = none;
  name = none;
  split_from = none;
  added_at = env.now;
}

-- Find the lot of a part at a location, or create one.
unfoldable pub find_or_create :
    Env → Db → ℕ → Option ℕ → Option ℕ → Outcome StockError (StockItem × Db)
unfolding empty_lot
find_or_create env db part loc supplier = elim (earliest part loc db.items) [
  | some x ↦ ok (x, db)
  | none ↦ do
    db' ← insert_item db (empty_lot env part loc supplier)
    ok (empty_lot env part loc supplier, db')
]

-- UPDATE the quantity of a lot, then INSERT the movement row.
unfoldable pub record_change : Db → ℤ → Transaction → Outcome StockError Db
record_change db q t =
    insert_transaction (record db { items = set_quantity t.stock_item_id q db.items }) t

unfoldable pub get_item : ℕ → Db → Outcome StockError ItemView
unfolding find_location
get_item k db = do
  x ← or_fail (find_item k db.items) not_found
  p ← or_fail (find_part x.part_id db.parts) not_found
  ok (record {
    item = x;
    part_name = p.name;
    location_name = elim x.location_id [
      | none ↦ none
      | some l ↦ elim (find_location l db.locations) [ none ↦ none | some loc ↦ some loc.name ]
    ];
  })

-- `getItem` after the commit, before another transaction: it reads the tables as they were left.
unfoldable pub then_get : Reply ℕ → Reply ItemView
then_get (ok k, db) = (get_item k db, db)
then_get (err e, db) = (err e, db)
