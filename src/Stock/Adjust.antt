-- ===== src/Stock/Adjust.antt =====
-- `Adjust` and `AdjustLot` of internal/repository/stock.go.
pub mod Sound
pub mod Correct
use firebin_api.Base.{
  ℕ, String, ◌&&◌, Option, none, some, str_eq, if◌then◌else◌, Outcome, ok, ◌>>=◌,
}
use firebin_api.Base.Int.{ℤ, pos, ◌+ℤ◌, ◌-ℤ◌, ltb_ℤ}
use firebin_api.Stock.Model.{
  Transaction, Db, Env, StockError, ItemView, not_found, unknown_kind, StockItem,
}
use firebin_api.Stock.Table.{find_item, clear_reference}
use firebin_api.Stock.Tx.{Reply, commit, or_fail, find_or_create, record_change, then_get}

pub record AdjustParams : Type 0 where
  pub part_id : ℕ
  pub location_id : Option ℕ
  pub supplier_part_id : Option ℕ
  pub kind : String
  pub quantity : ℤ
  pub note : Option String
  pub user_id : Option ℕ

unfoldable pub floor_zero : ℤ → ℤ
floor_zero q = if ltb_ℤ q (pos 0) then pos 0 else q

-- The switch on the kind in `AdjustLot`.
unfoldable pub lot_quantity : String → ℤ → ℤ → Option ℤ
unfolding floor_zero
lot_quantity kind cur q =
    if str_eq kind "add"
    then some (cur +ℤ q)
    else if str_eq kind "remove"
    then some (floor_zero (cur -ℤ q))
    else if str_eq kind "count"
    then some q
    else none

-- The switch on the kind in `Adjust`.
unfoldable pub adjusted_quantity : String → ℤ → ℤ → Option ℤ
unfolding floor_zero
adjusted_quantity kind cur q =
    if str_eq kind "add"
    then some (cur +ℤ q)
    else if str_eq kind "remove"
    then some (floor_zero (cur -ℤ q))
    else if str_eq kind "count"
    then some q
    else if str_eq kind "adjust"
    then some (cur +ℤ q)
    else none

-- Receiving stock clears `reference_only`.
unfoldable pub receive : ℕ → ℤ → ℤ → Db → Db
receive part delta q db =
    if ltb_ℤ (pos 0) delta && ltb_ℤ (pos 0) q
    then record db { parts = clear_reference part db.parts }
    else db

-- The movement row of `Adjust`.
unfoldable pub adjust_row : Env → AdjustParams → StockItem → ℤ → Transaction
adjust_row env p x q = record {
  stock_item_id = x.id;
  kind = p.kind;
  delta = q -ℤ x.quantity;
  resulting_quantity = q;
  from_location_id = none;
  to_location_id = none;
  note = p.note;
  user_id = p.user_id;
  created_at = env.now;
}

unfoldable pub adjust_tx : Env → Db → AdjustParams → Outcome StockError (ℕ × Db)
adjust_tx env db p = do
  found ← find_or_create env db p.part_id p.location_id p.supplier_part_id
  let (x, db₁) = found
  q ← or_fail (adjusted_quantity p.kind x.quantity p.quantity) (unknown_kind p.kind)
  db₂ ← record_change db₁ q (adjust_row env p x q)
  ok (x.id, receive p.part_id (q -ℤ x.quantity) q db₂)

unfoldable pub adjust : Env → Db → AdjustParams → Reply ItemView
unfolding adjust_tx adjust_row then_get
adjust env db p = then_get (commit db (adjust_tx env db p))

-- The movement row of `AdjustLot`.
unfoldable pub lot_row : Env → ℕ → String → StockItem → ℤ → Option ℕ → Transaction
lot_row env lot kind x q user = record {
  stock_item_id = lot;
  kind = kind;
  delta = q -ℤ x.quantity;
  resulting_quantity = q;
  from_location_id = none;
  to_location_id = none;
  note = none;
  user_id = user;
  created_at = env.now;
}

unfoldable pub adjust_lot_tx : Env → Db → ℕ → String → ℤ → Option ℕ → Outcome StockError (ℕ × Db)
adjust_lot_tx env db lot kind qty user = do
  x ← or_fail (find_item lot db.items) not_found
  q ← or_fail (lot_quantity kind x.quantity qty) (unknown_kind kind)
  db' ← record_change db q (lot_row env lot kind x q user)
  ok (lot, db')

unfoldable pub adjust_lot : Env → Db → ℕ → String → ℤ → Option ℕ → Reply ItemView
unfolding adjust_lot_tx lot_row then_get
adjust_lot env db lot kind qty user = then_get (commit db (adjust_lot_tx env db lot kind qty user))
