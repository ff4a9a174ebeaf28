-- ===== src/Pick/Model.antt =====
-- The data of internal/picklist/picklist.go (internal/models/project.go and `StockLot` of
-- internal/repository/stock.go). Quantities of stock are integer counts of ten-thousandths, those of
-- BOM lines, copies and boards are integers of 64 bits.
use firebin_api.Base.{ℕ, String, List, Option}
use firebin_api.Base.Int.{ℤ}

pub record BomLine : Type 0 where
  pub refs : String
  pub quantity : ℤ
  pub value : String
  pub footprint : String
  pub mpn : String
  pub manufacturer : String
  pub part_id : Option ℕ
  pub part_name : String

pub record Board : Type 0 where
  pub id : ℕ
  pub name : String
  pub copies : ℤ
  pub lines : List BomLine

pub record StockLot : Type 0 where
  pub id : ℕ
  pub part_id : ℕ
  pub part_name : String
  pub location_id : Option ℕ
  pub location_name : Option String
  pub quantity : ℤ

pub record PickEntry : Type 0 where
  pub stock_item_id : ℕ
  pub part_id : ℕ
  pub part_name : String
  pub location_id : Option ℕ
  pub location_name : String
  pub quantity : ℤ

pub record PickShortfall : Type 0 where
  pub part_id : ℕ
  pub part_name : String
  pub required : ℤ
  pub available : ℤ
  pub short : ℤ

pub record PickUnmatched : Type 0 where
  pub refs : String
  pub value : String
  pub quantity : ℤ
  pub footprint : String
  pub mpn : String
  pub manufacturer : String

pub record PickList : Type 0 where
  pub board_id : ℕ
  pub board_name : String
  pub quantity : ℤ
  pub copies : ℤ
  pub total_units : ℤ
  pub entries : List PickEntry
  pub shortfalls : List PickShortfall
  pub unmatched : List PickUnmatched

-- An error of a lookup is passed on as it is.
pub data PickError : Type 0 where
  lookup_failed : String → PickError
  board_not_found : ℕ → PickError
