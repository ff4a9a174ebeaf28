-- ===== src/HttpLib/Mapping/Part.antt =====
-- `MapPart` and `MapCategory` of internal/kicad/httplib/mapping.go.
use firebin_api.Base.{
  refl, ℕ, zero, suc, ◌+◌, ◌/◌, ◌%◌, [], ◌∷◌, ◌++◌, if◌then◌else◌, ◌==◌, ltb, ◌<◌, ◌≡◌, arith,
  Bool-cases, inl, inr,
}
use firebin_api.Base.Bytes.{Bytes, codes, is_empty}
use firebin_api.Base.Runes.{trim_space}
use firebin_api.Base.Int.{ℤ, pos, negsuc}
use firebin_api.Tags.{Unicode}
use firebin_api.HttpLib.Source
use firebin_api.HttpLib.Source.{deref}
use firebin_api.HttpLib.Types
use firebin_api.HttpLib.Types.{Field, FieldMap}
use firebin_api.HttpLib.Mapping.{value_for, keywords_for, mpn_for, manufacturer_for, datasheet_for}

-- Decimal digits, each a unit of fuel; a number has fewer digits than its successor.
unfoldable pub digits_from : ℕ → ℕ → Bytes → Bytes
digits_from zero n acc = acc
digits_from (suc f) n acc =
    let more = digits_from f (n / 10) ((48 + n % 10) ∷ acc) in
    if ltb n 10 then (48 + n) ∷ acc else more

unfoldable pub digits : ℕ → Bytes
unfolding digits_from
digits n = digits_from (suc n) n []

-- More fuel than the number changes nothing.
pub digits_from-enough :
    (f n : ℕ) (acc : Bytes) → n < f → digits_from (suc f) n acc ≡ digits_from f n acc
unfolding digits_from
digits_from-enough zero n acc h = absurd (omega (arith, h))
digits_from-enough (suc f) n acc h = elim (Bool-cases (ltb n 10)) [
  | inl e ↦ rw e refl
  | inr e ↦ rw e (digits_from-enough f (n / 10) ((48 + n % 10) ∷ acc) (ground (arith, e, h)))
]

-- Up to four decimals, without zeros at the end.
unfoldable pub decimals : ℕ → Bytes
decimals f =
    let a = 48 + f / 1000 in
    let b = 48 + f / 100 % 10 in
    let c = 48 + f / 10 % 10 in
    let d = 48 + f % 10 in
    if f == 0
    then []
    else if f % 1000 == 0
    then 46 ∷ a ∷ []
    else if f % 100 == 0
    then 46 ∷ a ∷ b ∷ []
    else if f % 10 == 0
    then 46 ∷ a ∷ b ∷ c ∷ []
    else 46 ∷ a ∷ b ∷ c ∷ d ∷ []

unfoldable pub unsigned_qty : ℕ → Bytes
unfolding digits decimals
unsigned_qty n = digits (n / 10000) ++ decimals (n % 10000)

-- `strconv.FormatFloat(v, 'f', -1, 64)` of a count of ten-thousandths, which is exact for the
-- quantities whose float64 has four decimals.
unfoldable pub format_qty : ℤ → Bytes
unfolding unsigned_qty
format_qty (pos n) = unsigned_qty n
format_qty (negsuc n) = 45 ∷ unsigned_qty (suc n)

unfoldable pub hidden : Bytes → Field
hidden v = record { value = v; visible = codes "False" }

-- A hidden field in front, where there is a value.
unfoldable pub field_if : Bytes → Bytes → FieldMap → FieldMap
unfolding hidden
field_if name v rest = if is_empty v then rest else (name, hidden v) ∷ rest

unfoldable pub map_fields : Unicode → Source.Part → Bytes → FieldMap
unfolding value_for field_if datasheet_for mpn_for manufacturer_for deref trim_space format_qty
    hidden
map_fields u p category_name =
    (codes "value", record { value = value_for u p category_name; visible = [] })
    ∷ field_if (codes "footprint") (trim_space (deref p.kicad_footprint)) (
        field_if (codes "datasheet") (datasheet_for p.manufacturer_parts) (
          field_if (codes "MPN") (mpn_for p) (
            field_if (codes "Manufacturer") (manufacturer_for p) (
              field_if (codes "fbpn") (trim_space (deref p.ipn)) (
                field_if (codes "Package") (trim_space (deref p.package_name))
                  ((codes "Stock", hidden (format_qty p.total_stock)) ∷ []))))))

-- A part without a symbol is marked in its name.
unfoldable pub map_part : Unicode → Source.Part → Bytes → Bytes → Types.Part
unfolding map_fields keywords_for trim_space deref
map_part u p category_name unmapped_marker =
    let symbol = trim_space (deref p.kicad_symbol) in
    record {
      id = p.id;
      name = if is_empty symbol then unmapped_marker ++ p.name else p.name;
      symbol_id_str = symbol;
      description = trim_space (deref p.description);
      keywords = keywords_for u p;
      fields = map_fields u p category_name;
    }

unfoldable pub map_category : Source.Category → Types.Category
unfolding trim_space
map_category c = record {
  id = c.id;
  name = if is_empty (trim_space c.path) then c.name else trim_space c.path;
  description = [];
}
