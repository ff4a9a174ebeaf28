-- ===== src/Barcode/Label.antt =====
-- The decoded fields of a distributor's label (`Parsed` of internal/barcode/eigp114/eigp114.go).
pub mod Lookup
use firebin_api.Base.{List, [], ◌∷◌, ◌≡◌, Bool, true, false, if◌then◌else◌, Option, none, some}
use firebin_api.Base.Bytes.{Bytes, same}
use firebin_api.Base.Int.{ℤ, pos}

-- The map `Fields`, a pair for each key.
abbrev pub Fields : Type 0
Fields = List (Bytes × Bytes)

pub record Parsed : Type 0 where
  pub mpn : Bytes
  pub quantity : ℤ
  pub customer_part : Bytes
  pub distributor_part : Bytes
  pub sales_order : Bytes
  pub invoice : Bytes
  pub packing_list : Bytes
  pub customer_po : Bytes
  pub date_code : Bytes
  pub lot_code : Bytes
  pub country_of_origin : Bytes
  pub distributor : Bytes
  pub fields : Fields

abbrev pub no_fields : Parsed
no_fields = record {
  mpn = [];
  quantity = pos 0;
  customer_part = [];
  distributor_part = [];
  sales_order = [];
  invoice = [];
  packing_list = [];
  customer_po = [];
  date_code = [];
  lot_code = [];
  country_of_origin = [];
  distributor = [];
  fields = [];
}

-- `Fields[k] = v`.
unfoldable pub put : Bytes → Bytes → Fields → Fields
put k v [] = (k, v) ∷ []
put k v (f ∷ fs) = if same k (f.0) then (k, v) ∷ fs else f ∷ put k v fs

unfoldable pub get : Bytes → Fields → Option Bytes
get k [] = none
get k (f ∷ fs) = if same k (f.0) then some (f.1) else get k fs
