-- ===== src/HttpLib/Source.antt =====
-- What the mapping reads: internal/kicad/httplib/source/source.go.
use firebin_api.Base.{List, [], Option, none, some}
use firebin_api.Base.Bytes.{Bytes}
use firebin_api.Base.Int.{ℤ}

pub record Parameter : Type 0 where
  pub template_name : Bytes
  pub units : Option Bytes
  pub value : Bytes

pub record SupplierPart : Type 0 where
  pub supplier_name : Bytes
  pub sku : Bytes

pub record ManufacturerPart : Type 0 where
  pub manufacturer_name : Option Bytes
  pub mpn : Bytes
  pub datasheet_url : Option Bytes
  pub supplier_parts : List SupplierPart

-- The stock counts ten-thousandths, as the tables hold it.
pub record Part : Type 0 where
  pub id : Bytes
  pub category_id : Option Bytes
  pub name : Bytes
  pub description : Option Bytes
  pub ipn : Option Bytes
  pub package_name : Option Bytes
  pub kicad_symbol : Option Bytes
  pub kicad_footprint : Option Bytes
  pub keywords : Option Bytes
  pub tags : List Bytes
  pub total_stock : ℤ
  pub parameters : List Parameter
  pub manufacturer_parts : List ManufacturerPart
  pub primary_mpn : Bytes
  pub primary_manufacturer : Bytes

pub record Category : Type 0 where
  pub id : Bytes
  pub name : Bytes
  pub path : Bytes

unfoldable pub deref : Option Bytes → Bytes
deref none = []
deref (some s) = s
