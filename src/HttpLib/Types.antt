-- ===== src/HttpLib/Types.antt =====
-- What KiCad is sent: internal/kicad/httplib/types.go.
use firebin_api.Base.{List}
use firebin_api.Base.Bytes.{Bytes}

-- An empty `visible` is left out.
pub record Field : Type 0 where
  pub value : Bytes
  pub visible : Bytes

-- The map of fields by name.
abbrev pub FieldMap : Type 0
FieldMap = List (Bytes × Field)

pub record Part : Type 0 where
  pub id : Bytes
  pub name : Bytes
  pub symbol_id_str : Bytes
  pub description : Bytes
  pub keywords : Bytes
  pub fields : FieldMap

pub record Category : Type 0 where
  pub id : Bytes
  pub name : Bytes
  pub description : Bytes
