-- ===== src/Kicad/Bom/Extract.antt =====
-- The components of a schematic and of a board (internal/kicad/bom.go). `strings.ToLower` lowers
-- the ASCII letters, which are those of the keys that its results are compared with.
use firebin_api.Base.{
  String, Bool, true, false, not, ◌&&◌, ◌||◌, List, [], ◌∷◌, Option, none, some, if◌then◌else◌,
  Outcome, ok, err,
}
use firebin_api.Base.Bytes.{Bytes, codes, same, is_empty, has_prefix, lower}
use firebin_api.Kicad.Sexpr.{
  Node, Nodes, nil, cons, head, atom_at, value, children, Document, root, parse_sexpr,
}
use firebin_api.Kicad.Bom.Model.{Component, no_component}

-- A case of a `switch` with these names.
abbrev pub one_of : Bytes → List String → Bool
one_of k [] = false
one_of k (n ∷ ns) = same k (codes n) || one_of k ns

-- A field that keeps the first text that is not empty.
unfoldable pub keep_first : Bytes → Bytes → Bytes
keep_first old new = if is_empty old then new else old

abbrev reference_key : List String
reference_key = "reference" ∷ []

abbrev value_key : List String
value_key = "value" ∷ []

abbrev manufacturer_keys : List String
manufacturer_keys = "manufacturer" ∷ "mfr" ∷ "mfg" ∷ []

abbrev footprint_mpn_keys : List String
footprint_mpn_keys =
    "mpn" ∷ "manufacturer part number" ∷ "manufacturer_part_number" ∷ "part number" ∷ []

abbrev symbol_mpn_keys : List String
symbol_mpn_keys =
    "mpn" ∷ "manufacturer part number" ∷ "manufacturer_part_number" ∷ "manufacturer part no"
    ∷ "part number" ∷ "part number (mpn)" ∷ []

abbrev ipn_keys : List String
ipn_keys =
    "fbpn" ∷ "firebin" ∷ "firebinpn" ∷ "firebin part number" ∷ "ipn" ∷ "internal part number" ∷ []

abbrev sku_keys : List String
sku_keys =
    "lcsc" ∷ "lcsc part" ∷ "lcsc part number" ∷ "lcsc#" ∷ "supplier part" ∷ "supplier part number"
    ∷ "sku" ∷ []

-- The `switch` of componentFromPCBFootprint over the keys of properties and texts, k in lower case.
unfoldable pub footprint_property : Bytes → Bytes → Component → Component
unfolding keep_first
footprint_property k val c =
    if one_of k reference_key
    then record c { reference = val }
    else if one_of k value_key
    then record c { value = val }
    else if one_of k footprint_mpn_keys
    then record c { mpn = keep_first c.mpn val }
    else if one_of k manufacturer_keys
    then record c { manufacturer = keep_first c.manufacturer val }
    else c

-- The flags of an `attr` that keep a footprint out.
unfoldable pub is_left_out : Nodes → Bool
unfolding value
is_left_out nil = false
is_left_out (cons a ns) =
    one_of (lower (value a)) ("exclude_from_bom" ∷ "dnp" ∷ "board_only" ∷ []) || is_left_out ns

unfoldable pub rest_of : Nodes → Nodes
rest_of nil = nil
rest_of (cons n ns) = ns

-- The loop of componentFromPCBFootprint; it returns none at once at a flag that leaves it out.
unfoldable pub read_footprint : Nodes → Component → Option Component
unfolding head children atom_at footprint_property is_left_out rest_of
read_footprint nil c = some c
read_footprint (cons ch ns) c =
    let more = read_footprint ns c in
    let after = read_footprint ns (footprint_property (lower (atom_at ch 1)) (atom_at ch 2) c) in
    if one_of (head ch) ("attr" ∷ [])
    then if is_left_out (rest_of (children ch)) then none else more
    else if one_of (head ch) ("property" ∷ "fp_text" ∷ [])
    then after
    else more

-- A part has a reference or a value, and its reference does not start with #.
unfoldable pub is_part : Component → Bool
is_part c =
    not (has_prefix (codes "#") c.reference) && not (is_empty c.reference && is_empty c.value)

unfoldable pub if_part : Component → Option Component
unfolding is_part
if_part c = if is_part c then some c else none

unfoldable pub component_from_footprint : Node → Option Component
unfolding read_footprint if_part children atom_at
component_from_footprint fp =
    elim (read_footprint (children fp) (record no_component { footprint = atom_at fp 1 })) [
      | none ↦ none
      | some c ↦ if_part c
    ]

-- What componentFromSymbol gathers: the component, whose lib_id is `libID`, and three flags.
pub record Symbol : Type 0 where
  pub comp : Component
  pub in_bom : Bool
  pub on_board : Bool
  pub dnp : Bool

-- Its `switch` over the names of properties, k in lower case.
unfoldable pub symbol_property : Bytes → Bytes → Component → Component
unfolding keep_first
symbol_property k val c =
    if one_of k reference_key
    then record c { reference = val }
    else if one_of k value_key
    then record c { value = val }
    else if one_of k ("footprint" ∷ [])
    then record c { footprint = val }
    else if one_of k symbol_mpn_keys
    then record c { mpn = keep_first c.mpn val }
    else if one_of k manufacturer_keys
    then record c { manufacturer = keep_first c.manufacturer val }
    else if one_of k ipn_keys
    then record c { ipn = keep_first c.ipn val }
    else if one_of k sku_keys
    then record c { supplier_sku = keep_first c.supplier_sku val }
    else if one_of k ("description" ∷ "desc" ∷ [])
    then record c { description = keep_first c.description val }
    else c

-- One child of a symbol.
unfoldable pub read_child : Node → Symbol → Symbol
unfolding head atom_at symbol_property
read_child ch s =
    if one_of (head ch) ("lib_id" ∷ [])
    then record s { comp = record (s.comp) { lib_id = atom_at ch 1 } }
    else if one_of (head ch) ("in_bom" ∷ [])
    then record s { in_bom = not (same (atom_at ch 1) (codes "no")) }
    else if one_of (head ch) ("on_board" ∷ [])
    then record s { on_board = not (same (atom_at ch 1) (codes "no")) }
    else if one_of (head ch) ("dnp" ∷ [])
    then record s { dnp = same (atom_at ch 1) (codes "yes") }
    else if one_of (head ch) ("property" ∷ [])
    then record s { comp = symbol_property (lower (atom_at ch 1)) (atom_at ch 2) s.comp }
    else s

unfoldable pub read_symbol : Nodes → Symbol → Symbol
unfolding read_child
read_symbol nil s = s
read_symbol (cons ch ns) s = read_symbol ns (read_child ch s)

abbrev pub blank_symbol : Symbol
blank_symbol = record { comp = no_component; in_bom = true; on_board = true; dnp = false }

-- A symbol that belongs on the bill: placed, and no power symbol.
unfoldable pub belongs : Symbol → Bool
belongs s =
    s.in_bom && s.on_board && not s.dnp && not (has_prefix (codes "power:") (lower s.comp.lib_id))

unfoldable pub component_from_symbol : Node → Option Component
unfolding read_symbol if_part belongs children
component_from_symbol sym =
    let s = read_symbol (children sym) blank_symbol in if belongs s then if_part s.comp else none

-- The components of the children with one of these heads.
unfoldable pub components_of : List String → (Node → Option Component) → Nodes → List Component
unfolding head
components_of heads from nil = []
components_of heads from (cons ch ns) =
    let more = components_of heads from ns in
    if one_of (head ch) heads then elim (from ch) [ none ↦ more | some c ↦ c ∷ more ] else more

-- The components of a document, or the parser's error.
unfoldable pub of_document : (Nodes → List Component) → Document → Outcome Document (List Component)
unfolding children
of_document from (root n) = ok (from (children n))
of_document from d = err d

unfoldable pub components_from_schematic : Bytes → Outcome Document (List Component)
unfolding parse_sexpr of_document components_of component_from_symbol
components_from_schematic s =
    of_document (components_of ("symbol" ∷ []) component_from_symbol) (parse_sexpr s)

unfoldable pub components_from_pcb : Bytes → Outcome Document (List Component)
unfolding parse_sexpr of_document components_of component_from_footprint
components_from_pcb s =
    of_document (components_of ("footprint" ∷ "module" ∷ []) component_from_footprint)
      (parse_sexpr s)
