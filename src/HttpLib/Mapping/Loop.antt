-- ===== src/HttpLib/Mapping/Loop.antt =====
-- The fields of a mapped part, drawn as a symbol, read back by the reader of schematics.
use firebin_api.Base.{◌≡◌, refl, ap, ◌∙◌, [], ◌∷◌, sym}
use firebin_api.Base.Bytes.{Bytes, codes, lower}
use firebin_api.Base.Runes.{trim_space}
use firebin_api.Kicad.Sexpr.{Node, Nodes, nil, cons, atom, list, head, atom_at}
use firebin_api.Kicad.Bom.Model.{Component, no_component}
use firebin_api.Kicad.Bom.Extract.{
  Symbol, read_symbol, read_child, symbol_property, keep_first, blank_symbol,
}
use firebin_api.Tags.{Unicode}
use firebin_api.HttpLib.Source
use firebin_api.HttpLib.Source.{deref}
use firebin_api.HttpLib.Types.{Field, FieldMap}
use firebin_api.HttpLib.Mapping.{value_for, mpn_for, manufacturer_for, datasheet_for, or_text}
use firebin_api.HttpLib.Mapping.Part.{map_fields, field_if, hidden, format_qty}

-- KiCad keeps each field as a property of the placed symbol, under the field's name.
abbrev pub property : Bytes → Bytes → Node
property name v = list (cons (atom (codes "property")) (cons (atom name) (cons (atom v) nil)))

abbrev pub properties : FieldMap → Nodes
properties [] = nil
properties (f ∷ fs) = cons (property (f.0) (f.1).value) (properties fs)

-- Reading a field and those after it.
abbrev field_read : Bytes → Bytes → FieldMap → Symbol → Symbol
field_read name v rest s = read_symbol (properties (field_if name v rest)) s

keep_first-empty : (old : Bytes) → keep_first old [] ≡ old
unfolding keep_first
keep_first-empty [] = refl
keep_first-empty (c ∷ old) = refl

keep_first-first : (v : Bytes) → keep_first [] v ≡ v
unfolding keep_first
keep_first-first v = refl

or_text-empty : (v : Bytes) → or_text v [] ≡ v
or_text-empty [] = refl
or_text-empty (c ∷ v) = refl

-- A field whose name the reader does not know.
read_other :
    (name v : Bytes) (rest : FieldMap) (s : Symbol)
    → ((w : Bytes) (c : Component) → symbol_property (lower name) w c ≡ c)
    → field_read name v rest s ≡ read_symbol (properties rest) s
unfolding field_if hidden read_symbol read_child head atom_at
read_other name [] rest s h = refl
read_other name (b ∷ v) rest s h =
    ap (λ c. read_symbol (properties rest) (record s { comp = c })) (h (b ∷ v) s.comp)

read_mpn :
    (v : Bytes) (rest : FieldMap) (s : Symbol)
    → field_read (codes "MPN") v rest s
      ≡ read_symbol
          (properties rest)
          (record s { comp = record (s.comp) { mpn = keep_first s.comp.mpn v } })
unfolding field_if hidden read_symbol read_child head atom_at symbol_property
read_mpn [] rest s =
    ap (λ m. read_symbol (properties rest) (record s { comp = record (s.comp) { mpn = m } }))
      (sym (keep_first-empty s.comp.mpn))
read_mpn (b ∷ v) rest s = refl

read_manufacturer :
    (v : Bytes) (rest : FieldMap) (s : Symbol)
    → field_read (codes "Manufacturer") v rest s
      ≡ read_symbol
          (properties rest)
          (record s { comp = record (s.comp) { manufacturer = keep_first s.comp.manufacturer v } })
unfolding field_if hidden read_symbol read_child head atom_at symbol_property
read_manufacturer [] rest s =
    ap
      (λ m.
        read_symbol (properties rest) (record s { comp = record (s.comp) { manufacturer = m } }))
      (sym (keep_first-empty s.comp.manufacturer))
read_manufacturer (b ∷ v) rest s = refl

read_ipn :
    (v : Bytes) (rest : FieldMap) (s : Symbol)
    → field_read (codes "fbpn") v rest s
      ≡ read_symbol
          (properties rest)
          (record s { comp = record (s.comp) { ipn = keep_first s.comp.ipn v } })
unfolding field_if hidden read_symbol read_child head atom_at symbol_property
read_ipn [] rest s =
    ap (λ m. read_symbol (properties rest) (record s { comp = record (s.comp) { ipn = m } }))
      (sym (keep_first-empty s.comp.ipn))
read_ipn (b ∷ v) rest s = refl

footprint_read :
    (v : Bytes) (rest : FieldMap) (s : Symbol)
    → field_read (codes "footprint") v rest s
      ≡ read_symbol
          (properties rest)
          (record s { comp = record (s.comp) { footprint = or_text v s.comp.footprint } })
unfolding field_if hidden read_symbol read_child head atom_at symbol_property
footprint_read [] rest s = refl
footprint_read (b ∷ v) rest s = refl

unknown_datasheet :
    (w : Bytes) (c : Component) → symbol_property (lower (codes "datasheet")) w c ≡ c
unfolding symbol_property
unknown_datasheet w c = refl

unknown_package : (w : Bytes) (c : Component) → symbol_property (lower (codes "Package")) w c ≡ c
unfolding symbol_property
unknown_package w c = refl

-- The component that is read from the drawn symbol of a mapped part.
abbrev pub drawn : Unicode → Source.Part → Bytes → Component
drawn u p category_name =
    (read_symbol (properties (map_fields u p category_name)) blank_symbol).comp

-- It has the part's own value, footprint, MPN, manufacturer and part number.
pub record IsPartOf (u : Unicode) (p : Source.Part) (category_name : Bytes) (c : Component)
    : Type 0 where
  pub value_is : c.value ≡ value_for u p category_name
  pub footprint_is : c.footprint ≡ trim_space (deref p.kicad_footprint)
  pub mpn_is : c.mpn ≡ mpn_for p
  pub manufacturer_is : c.manufacturer ≡ manufacturer_for p
  pub ipn_is : c.ipn ≡ trim_space (deref p.ipn)

abbrev with_value : Bytes → Symbol
with_value v = record blank_symbol { comp = record no_component { value = v } }

abbrev with_footprint : Bytes → Bytes → Symbol
with_footprint v f = record (with_value v) {
  comp = record ((with_value v).comp) { footprint = or_text f [] };
}

abbrev with_mpn : Bytes → Bytes → Bytes → Symbol
with_mpn v f m =
    let s = with_footprint v f in record s { comp = record (s.comp) { mpn = keep_first [] m } }

abbrev with_manufacturer : Bytes → Bytes → Bytes → Bytes → Symbol
with_manufacturer v f m mf =
    let s = with_mpn v f m in
    record s { comp = record (s.comp) { manufacturer = keep_first [] mf } }

abbrev with_ipn : Bytes → Bytes → Bytes → Bytes → Bytes → Symbol
with_ipn v f m mf i =
    let s = with_manufacturer v f m mf in
    record s { comp = record (s.comp) { ipn = keep_first [] i } }

stock_last :
    (q : Bytes) (s : Symbol) → read_symbol (properties ((codes "Stock", hidden q) ∷ [])) s ≡ s
unfolding read_symbol read_child head atom_at symbol_property
stock_last q s = refl

value_first :
    (v : Field) (rest : FieldMap)
    → read_symbol (properties ((codes "value", v) ∷ rest)) blank_symbol
      ≡ read_symbol (properties rest) (with_value v.value)
unfolding read_symbol read_child head atom_at symbol_property
value_first v rest = refl

-- The fields in turn: the reader knows value, footprint, MPN, Manufacturer and fbpn.
drawn-with_ipn :
    (u : Unicode) (p : Source.Part) (cat : Bytes)
    → read_symbol (properties (map_fields u p cat)) blank_symbol
      ≡ with_ipn
          (value_for u p cat)
          (trim_space (deref p.kicad_footprint))
          (mpn_for p)
          (manufacturer_for p)
          (trim_space (deref p.ipn))
unfolding map_fields
drawn-with_ipn u p cat =
    let v = value_for u p cat in
    let f = trim_space (deref p.kicad_footprint) in
    let m = mpn_for p in
    let mf = manufacturer_for p in
    let i = trim_space (deref p.ipn) in
    value_first (record { value = v; visible = [] }) _
    ∙ footprint_read f _ (with_value v)
    ∙ read_other (codes "datasheet") (datasheet_for p.manufacturer_parts) _ (with_footprint v f)
        unknown_datasheet
    ∙ read_mpn m _ (with_footprint v f)
    ∙ read_manufacturer mf _ (with_mpn v f m)
    ∙ read_ipn i _ (with_manufacturer v f m mf)
    ∙ read_other (codes "Package") (trim_space (deref p.package_name)) _ (with_ipn v f m mf i)
        unknown_package
    ∙ stock_last (format_qty p.total_stock) (with_ipn v f m mf i)

-- A part placed from the library, whose fields KiCad draws as properties of its symbol, is read back from
-- the schematic with the same value, footprint, MPN, manufacturer and internal part number.
pub drawn-IsPartOf :
    (u : Unicode) (p : Source.Part) (category_name : Bytes)
    → IsPartOf u p category_name (drawn u p category_name)
drawn-IsPartOf u p category_name =
    let read = drawn-with_ipn u p category_name in
    record {
      value_is = ap (λ s. s.comp.value) read;
      footprint_is =
          ap (λ s. s.comp.footprint) read ∙ or_text-empty (trim_space (deref p.kicad_footprint));
      mpn_is = ap (λ s. s.comp.mpn) read ∙ keep_first-first (mpn_for p);
      manufacturer_is = ap (λ s. s.comp.manufacturer) read ∙ keep_first-first (manufacturer_for p);
      ipn_is = ap (λ s. s.comp.ipn) read ∙ keep_first-first (trim_space (deref p.ipn));
    }
