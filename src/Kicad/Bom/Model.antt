-- ===== src/Kicad/Bom/Model.antt =====
-- The data of internal/kicad/bom.go, with strings as lists of bytes.
use firebin_api.Base.{ℕ, List, []}
use firebin_api.Base.Bytes.{Bytes}

pub record Component : Type 0 where
  pub reference : Bytes
  pub value : Bytes
  pub footprint : Bytes
  pub lib_id : Bytes
  pub mpn : Bytes
  pub manufacturer : Bytes
  pub supplier_sku : Bytes
  pub ipn : Bytes
  pub description : Bytes

pub record BomLine : Type 0 where
  pub refs : List Bytes
  pub quantity : ℕ
  pub value : Bytes
  pub footprint : Bytes
  pub lib_id : Bytes
  pub mpn : Bytes
  pub manufacturer : Bytes
  pub supplier_sku : Bytes
  pub ipn : Bytes
  pub description : Bytes

abbrev pub no_component : Component
no_component = record {
  reference = [];
  value = [];
  footprint = [];
  lib_id = [];
  mpn = [];
  manufacturer = [];
  supplier_sku = [];
  ipn = [];
  description = [];
}
