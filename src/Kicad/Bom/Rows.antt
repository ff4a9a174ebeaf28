-- ===== src/Kicad/Bom/Rows.antt =====
-- `rowsToLines` of internal/kicad/bom.go: the lines of a grid with a header, which the source reads
-- from a CSV or XLSX file. Texts are lists of code points.
pub mod Lines
use firebin_api.Base.{
  ℕ, ◌+◌, zero, suc, String, Bool, true, false, not, ◌&&◌, ◌||◌, List, [], ◌∷◌, Option, none, some,
  if◌then◌else◌, leb, ltb, ◌==◌, length, get_elem?,
}
use firebin_api.Base.Int.{ℤ, pos, negsuc}
use firebin_api.Base.Bytes.{Bytes, codes, same, is_empty}
use firebin_api.Base.Runes.{trim_space, lower_rune, atoi, is_space}
use firebin_api.Kicad.Bom.Model.{BomLine}

abbrev pub Row : Type 0
Row = List Bytes

unfoldable pub row_empty : Row → Bool
unfolding trim_space
row_empty [] = true
row_empty (c ∷ row) = is_empty (trim_space c) && row_empty row

-- The lower-case letters and digits of a header.
unfoldable pub norm_header : Bytes → Bytes
unfolding lower_rune
norm_header [] = []
norm_header (r ∷ h) =
    let l = lower_rune r in
    let more = norm_header h in
    if (leb 97 l && leb l 122) || (leb 48 l && leb l 57) then l ∷ more else more

unfoldable pub is_separator : ℕ → Bool
is_separator r = r == 44 || r == 32 || r == 59

-- A field without the white space around it, unless nothing is left of it.
unfoldable pub add_field : Bytes → List Bytes → List Bytes
unfolding trim_space
add_field w fs = if is_empty (trim_space w) then fs else trim_space w ∷ fs

-- The field at the start of a text, and the fields after it.
unfoldable pub fields : Bytes → Bytes × List Bytes
unfolding is_separator add_field
fields [] = ([], [])
fields (r ∷ s) =
    let t = fields s in if is_separator r then ([], add_field (t.0) (t.1)) else (r ∷ t.0, t.1)

unfoldable pub split_refs : Bytes → List Bytes
unfolding fields add_field
split_refs s = add_field ((fields s).0) ((fields s).1)

-- The column of a name: the last one with that header, where i is the first one's number.
unfoldable pub column_from : ℕ → Row → Bytes → Option ℕ
unfolding norm_header
column_from i [] name = none
column_from i (h ∷ header) name =
    let later = column_from (suc i) header name in
    let here = if same (norm_header h) name then some i else none in
    elim later [ none ↦ here | some j ↦ some j ]

-- The column of the first name that the header has; -1 in the source is none.
unfoldable pub pick : Row → List String → Option ℕ
unfolding column_from
pick header [] = none
pick header (n ∷ names) =
    let next = pick header names in
    elim (column_from 0 header (codes n)) [ none ↦ next | some i ↦ some i ]

unfoldable pub cell : Row → Option ℕ → Bytes
unfolding trim_space
cell row none = []
cell row (some i) = elim (get_elem? row i) [ none ↦ [] | some c ↦ trim_space c ]

-- The columns that the header names.
pub record Columns : Type 0 where
  pub ref_col : Option ℕ
  pub value_col : Option ℕ
  pub footprint_col : Option ℕ
  pub quantity_col : Option ℕ
  pub mpn_col : Option ℕ
  pub manufacturer_col : Option ℕ
  pub supplier_col : Option ℕ
  pub ipn_col : Option ℕ
  pub description_col : Option ℕ

abbrev mpn_names : List String
mpn_names =
    "mpn" ∷ "manufacturerpartnumber" ∷ "manufacturerpart" ∷ "mfrpartnumber" ∷ "partnumber"
    ∷ "mfrpart" ∷ "mfgpartnumber" ∷ []

abbrev supplier_names : List String
supplier_names =
    "supplierpart" ∷ "supplierpartnumber" ∷ "lcscpart" ∷ "lcscpartnumber" ∷ "lcsc" ∷ "jlcpcbpart"
    ∷ "distributorpart" ∷ "sku" ∷ []

abbrev ipn_names : List String
ipn_names =
    "fbpn" ∷ "firebinpartnumber" ∷ "firebinpn" ∷ "firebin" ∷ "ipn" ∷ "internalpartnumber" ∷ []

unfoldable pub columns_of : Row → Columns
unfolding pick
columns_of header = record {
  ref_col = pick header ("references" ∷ "reference" ∷ "designator" ∷ "designators" ∷ "refdes" ∷ []);
  value_col = pick header ("value" ∷ "comment" ∷ []);
  footprint_col = pick header ("footprint" ∷ "package" ∷ "pattern" ∷ []);
  quantity_col = pick header ("quantity" ∷ "qty" ∷ "count" ∷ []);
  mpn_col = pick header mpn_names;
  manufacturer_col = pick header ("manufacturer" ∷ "mfr" ∷ "mfg" ∷ []);
  supplier_col = pick header supplier_names;
  ipn_col = pick header ipn_names;
  description_col = pick header ("description" ∷ "desc" ∷ []);
}

abbrev pub positive : Option ℤ → Option ℕ
positive none = none
positive (some (pos q)) = if q == 0 then none else some q
positive (some (negsuc q)) = none

-- The quantity column, where it holds a positive integer; else the number of references; else 1.
unfoldable pub quantity_of : Option ℕ → ℕ → ℕ
quantity_of none n = if n == 0 then 1 else n
quantity_of (some q) n = q

unfoldable pub line_of : Columns → Row → BomLine
unfolding cell split_refs quantity_of atoi
line_of cols row = record {
  refs = split_refs (cell row cols.ref_col);
  quantity =
      quantity_of (positive (atoi (cell row cols.quantity_col)))
        (length (split_refs (cell row cols.ref_col)));
  value = cell row cols.value_col;
  footprint = cell row cols.footprint_col;
  lib_id = [];
  mpn = cell row cols.mpn_col;
  manufacturer = cell row cols.manufacturer_col;
  supplier_sku = cell row cols.supplier_col;
  ipn = cell row cols.ipn_col;
  description = cell row cols.description_col;
}

-- A line that names no part: no value, no MPN and no reference.
unfoldable pub names_nothing : BomLine → Bool
names_nothing l = is_empty l.value && is_empty l.mpn && is_empty l.refs

unfoldable pub lines_of : Columns → List Row → List BomLine
unfolding row_empty line_of names_nothing
lines_of cols [] = []
lines_of cols (row ∷ rows) =
    let more = lines_of cols rows in
    if row_empty row || names_nothing (line_of cols row) then more else line_of cols row ∷ more

-- The grid without the blank rows before the header.
unfoldable pub drop_blank : List Row → List Row
unfolding row_empty
drop_blank [] = []
drop_blank (row ∷ rows) = if row_empty row then drop_blank rows else row ∷ rows

unfoldable pub lines_under : List Row → List BomLine
unfolding columns_of lines_of
lines_under [] = []
lines_under (header ∷ rows) = lines_of (columns_of header) rows

unfoldable pub rows_to_lines : List Row → List BomLine
unfolding drop_blank lines_under
rows_to_lines rows = lines_under (drop_blank rows)
