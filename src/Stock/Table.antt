-- ===== src/Stock/Table.antt =====
-- The SQL statements of internal/repository/stock.go as functions on the tables, with the
-- constraints of the schema that a statement can break.
use firebin_api.Base.{
  ℕ, String, Bool, true, false, not, ◌&&◌, ◌||◌, List, [], ◌∷◌, Option, none, some, ◌==◌, str_eq,
  leb, if◌then◌else◌, Outcome, ok, err,
}
use firebin_api.Base.Int.{ℤ, pos, ◌+ℤ◌}
use firebin_api.Stock.Model.{
  StockItem, Transaction, PartRow, Location, Db, StockError, constraint_violated,
}

-- WHERE id = $1
unfoldable pub find_item : ℕ → List StockItem → Option StockItem
find_item k [] = none
find_item k (x ∷ xs) = if x.id == k then some x else find_item k xs

unfoldable pub find_part : ℕ → List PartRow → Option PartRow
find_part k [] = none
find_part k (x ∷ xs) = if x.id == k then some x else find_part k xs

unfoldable pub find_location : ℕ → List Location → Option Location
find_location k [] = none
find_location k (x ∷ xs) = if x.id == k then some x else find_location k xs

-- location_id IS NOT DISTINCT FROM $2
unfoldable pub same_location : Option ℕ → Option ℕ → Bool
same_location none none = true
same_location none (some b) = false
same_location (some a) none = false
same_location (some a) (some b) = a == b

older : StockItem → Option StockItem → Option StockItem
older x none = some x
older x (some y) = if leb x.added_at y.added_at then some x else some y

-- WHERE part_id = $1 AND location_id IS NOT DISTINCT FROM $2 ORDER BY added_at LIMIT 1
unfoldable pub earliest : ℕ → Option ℕ → List StockItem → Option StockItem
unfolding older same_location
earliest part loc [] = none
earliest part loc (x ∷ xs) =
    let rest = earliest part loc xs in
    if x.part_id == part && same_location x.location_id loc then older x rest else rest

-- UPDATE stock_items SET quantity = $2 WHERE id = $1
unfoldable pub set_quantity : ℕ → ℤ → List StockItem → List StockItem
set_quantity k q [] = []
set_quantity k q (x ∷ xs) =
    (if x.id == k then record x { quantity = q } else x) ∷ set_quantity k q xs

-- UPDATE stock_items SET location_id = $2 WHERE id = $1
unfoldable pub set_location : ℕ → Option ℕ → List StockItem → List StockItem
set_location k loc [] = []
set_location k loc (x ∷ xs) =
    (if x.id == k then record x { location_id = loc } else x) ∷ set_location k loc xs

-- REFERENCES storage_locations(id)
unfoldable pub location_exists : Option ℕ → List Location → Bool
unfolding find_location
location_exists none ls = true
location_exists (some k) ls = elim (find_location k ls) [ none ↦ false | some l ↦ true ]

-- The unique index on barcodes that are not null.
unfoldable pub barcode_taken : Option String → List StockItem → Bool
barcode_taken none xs = false
barcode_taken (some b) [] = false
barcode_taken (some b) (x ∷ xs) =
    (elim x.barcode [ none ↦ false | some c ↦ str_eq c b ]) || barcode_taken (some b) xs

-- INSERT INTO stock_items: the primary key, the part, the location and the barcode are checked.
unfoldable pub insert_item : Db → StockItem → Outcome StockError Db
insert_item db x = elim (find_item x.id db.items) [
  | some y ↦ err constraint_violated
  | none ↦ elim (find_part x.part_id db.parts) [
    | none ↦ err constraint_violated
    | some p ↦
        if location_exists x.location_id db.locations && not (barcode_taken x.barcode db.items)
        then ok (record db { items = x ∷ db.items })
        else err constraint_violated
  ]
]

-- INSERT INTO stock_transactions: the lot and the two locations are checked.
unfoldable pub insert_transaction : Db → Transaction → Outcome StockError Db
insert_transaction db t = elim (find_item t.stock_item_id db.items) [
  | none ↦ err constraint_violated
  | some x ↦
      if location_exists t.from_location_id db.locations
        && location_exists t.to_location_id db.locations
      then ok (record db { transactions = t ∷ db.transactions })
      else err constraint_violated
]

-- ON DELETE SET NULL of `split_from`
unfoldable pub forget_source : ℕ → List StockItem → List StockItem
forget_source k [] = []
forget_source k (x ∷ xs) =
    (elim x.split_from [ none ↦ x | some s ↦ if s == k then record x { split_from = none } else x ])
    ∷ forget_source k xs

unfoldable pub without_item : ℕ → List StockItem → List StockItem
without_item k [] = []
without_item k (x ∷ xs) = let rest = without_item k xs in if x.id == k then rest else x ∷ rest

-- ON DELETE CASCADE of `stock_item_id`
unfoldable pub without_transactions : ℕ → List Transaction → List Transaction
without_transactions k [] = []
without_transactions k (t ∷ ts) =
    let rest = without_transactions k ts in if t.stock_item_id == k then rest else t ∷ rest

-- DELETE FROM stock_items WHERE id = $1, with what the foreign keys do.
unfoldable pub delete_item : ℕ → Db → Db
delete_item k db = record db {
  items = forget_source k (without_item k db.items);
  transactions = without_transactions k db.transactions;
}

-- UPDATE parts SET reference_only = false WHERE id = $1 AND reference_only
unfoldable pub clear_reference : ℕ → List PartRow → List PartRow
clear_reference k [] = []
clear_reference k (x ∷ xs) =
    (if x.id == k && x.reference_only then record x { reference_only = false } else x)
    ∷ clear_reference k xs

-- The quantity of the lots whose part and location pass a test.
unfoldable pub sum_where : (ℕ → Option ℕ → Bool) → List StockItem → ℤ
sum_where sel [] = pos 0
sum_where sel (x ∷ xs) =
    (if sel x.part_id x.location_id then x.quantity else pos 0) +ℤ sum_where sel xs
