-- ===== src/Stock/Model.antt =====
-- The rows that internal/repository/stock.go reads and writes (internal/models/inventory.go and the
-- tables of internal/db/migrations). A quantity is NUMERIC(18,4): here an integer count of
-- ten-thousandths. Identifiers (UUIDs) and times are numbers. Columns that no operation below reads
-- (batch, serial, price, note of a lot) are left out.
use firebin_api.Base.{ℕ, String, Bool, List, Option}
use firebin_api.Base.Int.{ℤ}

pub record StockItem : Type 0 where
  pub id : ℕ
  pub part_id : ℕ
  pub location_id : Option ℕ
  pub supplier_part_id : Option ℕ
  pub quantity : ℤ
  pub status : String
  pub barcode : Option String
  pub name : Option String
  pub split_from : Option ℕ
  pub added_at : ℕ

-- A row of `stock_transactions`.
pub record Transaction : Type 0 where
  pub stock_item_id : ℕ
  pub kind : String
  pub delta : ℤ
  pub resulting_quantity : ℤ
  pub from_location_id : Option ℕ
  pub to_location_id : Option ℕ
  pub note : Option String
  pub user_id : Option ℕ
  pub created_at : ℕ

pub record PartRow : Type 0 where
  pub id : ℕ
  pub name : String
  pub reference_only : Bool

pub record Location : Type 0 where
  pub id : ℕ
  pub name : String

-- The tables; `transactions` holds the newest row first.
pub record Db : Type 0 where
  pub items : List StockItem
  pub transactions : List Transaction
  pub parts : List PartRow
  pub locations : List Location

-- What the database supplies to one transaction: its time, and a generated identifier.
pub record Env : Type 0 where
  pub now : ℕ
  pub fresh_id : ℕ

pub data StockError : Type 0 where
  not_found constraint_violated not_positive different_parts same_lot : StockError
  unknown_kind : String → StockError
  insufficient : ℤ → ℤ → StockError

-- `models.StockItem` as `getItem` returns it: the row and the names joined to it.
pub record ItemView : Type 0 where
  pub item : StockItem
  pub part_name : String
  pub location_name : Option String
