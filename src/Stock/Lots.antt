-- ===== src/Stock/Lots.antt =====
-- `SplitLot`, `MergeLot`, `CountEmptyLots` and `DeleteEmptyLots` of internal/repository/stock.go.
pub mod Split
pub mod Merge
pub mod Deleted
pub mod Clean
use firebin_api.Base.{
  ℕ, String, Bool, true, false, not, ◌&&◌, List, [], ◌∷◌, Option, none, some, ◌==◌, str_eq, Outcome,
  ok, ◌>>=◌, length, keep,
}
use firebin_api.Base.Int.{ℤ, pos, ◌+ℤ◌, ◌-ℤ◌, ltb_ℤ, is_zero}
use firebin_api.Stock.Model.{
  StockItem, Transaction, Db, Env, StockError, ItemView, not_found, not_positive, different_parts,
  same_lot, insufficient,
}
use firebin_api.Stock.Table.{find_item, set_quantity, insert_item, insert_transaction, delete_item}
use firebin_api.Stock.Tx.{Reply, commit, or_fail, check, record_change, then_get}

pub record SplitParams : Type 0 where
  pub source_id : ℕ
  pub quantity : ℤ
  pub to_location_id : Option ℕ
  pub name : Option String
  pub barcode : Option String
  pub user_id : Option ℕ

unfoldable pub split_row : Env → SplitParams → ℕ → ℤ → ℤ → Option ℕ → Transaction
split_row env p lot delta q to = record {
  stock_item_id = lot;
  kind = "split";
  delta = delta;
  resulting_quantity = q;
  from_location_id = none;
  to_location_id = to;
  note = p.name;
  user_id = p.user_id;
  created_at = env.now;
}

-- The lot that `SplitLot` inserts.
unfoldable pub cut_lot : Env → SplitParams → ℕ → StockItem
cut_lot env p part = record {
  id = env.fresh_id;
  part_id = part;
  location_id = p.to_location_id;
  supplier_part_id = none;
  quantity = p.quantity;
  status = "ok";
  barcode = p.barcode;
  name = p.name;
  split_from = some p.source_id;
  added_at = env.now;
}

unfoldable pub split_tx : Env → Db → SplitParams → Outcome StockError (ℕ × Db)
unfolding split_row cut_lot
split_tx env db p = do
  x ← or_fail (find_item p.source_id db.items) not_found
  let q = x.quantity -ℤ p.quantity
  check (not (ltb_ℤ (pos 0) p.quantity)) not_positive (
      check (ltb_ℤ x.quantity p.quantity) (insufficient p.quantity x.quantity) (do
        db₁ ← record_change db q (split_row env p p.source_id (pos 0 -ℤ p.quantity) q none)
        db₂ ← insert_item db₁ (cut_lot env p x.part_id)
        db₃ ←
            insert_transaction db₂
              (split_row env p env.fresh_id p.quantity p.quantity p.to_location_id)
        ok (env.fresh_id, db₃)))

unfoldable pub split_lot : Env → Db → SplitParams → Reply ItemView
unfolding split_tx then_get
split_lot env db p = then_get (commit db (split_tx env db p))

unfoldable pub merge_row : Env → ℕ → ℤ → ℤ → Option ℕ → Transaction
merge_row env lot delta q user = record {
  stock_item_id = lot;
  kind = "merge";
  delta = delta;
  resulting_quantity = q;
  from_location_id = none;
  to_location_id = none;
  note = none;
  user_id = user;
  created_at = env.now;
}

unfoldable pub merge_tx : Env → Db → ℕ → ℕ → Option ℕ → Outcome StockError (Unit {0} × Db)
unfolding merge_row
merge_tx env db source target user = check (source == target) same_lot (do
  s ← or_fail (find_item source db.items) not_found
  t ← or_fail (find_item target db.items) not_found
  let q = t.quantity +ℤ s.quantity
  check (not (s.part_id == t.part_id)) different_parts (do
    db' ←
        insert_transaction
          (delete_item source (record db { items = set_quantity target q db.items }))
          (merge_row env target s.quantity q user)
    ok (tt, db')))

unfoldable pub merge_lot : Env → Db → ℕ → ℕ → Option ℕ → Reply (Unit {0})
unfolding merge_tx
merge_lot env db source target user = commit db (merge_tx env db source target user)

-- emptyLotPredicate
unfoldable pub is_empty_lot : StockItem → Bool
is_empty_lot x =
    is_zero x.quantity
    && (elim x.barcode [ none ↦ true | some b ↦ false ])
    && (elim x.name [ none ↦ true | some n ↦ str_eq n "" ])

unfoldable pub count_empty_lots : Db → ℕ
count_empty_lots db = length (keep is_empty_lot db.items)

-- DELETE FROM stock_items WHERE the predicate holds, lot by lot.
unfoldable pub delete_all : List StockItem → Db → Db
delete_all [] db = db
delete_all (x ∷ xs) db = delete_all xs (delete_item x.id db)

-- The number of rows deleted, and the tables.
unfoldable pub delete_empty_lots : Db → ℕ × Db
unfolding delete_all
delete_empty_lots db =
    (length (keep is_empty_lot db.items), delete_all (keep is_empty_lot db.items) db)
