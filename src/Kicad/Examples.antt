-- ===== src/Kicad/Examples.antt =====
-- Runs of the KiCad readers on small files, and the theorems on them.
use firebin_api.Base.{map, ℕ, true, ◌≡◌, ◌≢◌, refl, List, [], ◌∷◌, All, ok, ◌++◌}
use firebin_api.Base.Bytes.{Bytes, codes}
use firebin_api.Kicad.Sexpr.{
  eof_in_list, no_fuel, root, Nodes, nil, cons, atom, list, parse_sexpr, parse_within, Node,
  is_blank, children,
}
use firebin_api.Kicad.Sexpr.Clean.{parse_sexpr_ends, is_unskipped}
use firebin_api.Kicad.Sexpr.Stuck.{parse_within_diverges}
use firebin_api.Kicad.Sexpr.Print.{print, parse_sexpr-print}
use firebin_api.Kicad.Bom.Model.{Component, BomLine, no_component}
use firebin_api.Kicad.Bom.Extract.{components_from_pcb}
use firebin_api.Kicad.Bom.Group.{parse_schematic, parse_panel_board_bom, group_components}
use firebin_api.Kicad.Bom.Group.Lines.{IsGrouping, group_components_lem}
use firebin_api.Kicad.Bom.Group.Panel.{parse_panel_board_bom_lem, copies}
use firebin_api.Kicad.Bom.Rows.{rows_to_lines, Row}
use firebin_api.Kicad.Bom.Rows.Lines.{IsLine, rows_to_lines-IsLine}
use firebin_api.Kicad.Panel.{detect_panel_pcb, board_refs}
use firebin_api.Kicad.Panel.Copies.{detect_panel_pcb_lem}
use firebin_api.Kicad.Bom.Placed.{components_from_pcb_lem, shown, parts_of}

abbrev small : Bytes
small = codes "(a b)"

unclosed : parse_sexpr (codes "(a (b)") ≡ eof_in_list
unfolding parse_sexpr
unclosed = refl

parse_sexpr_ends_example : parse_sexpr small ≢ no_fuel
unfolding is_unskipped
parse_sexpr_ends_example = parse_sexpr_ends small (refl, (refl, (refl, (refl, (refl, tt)))))

-- The value of a resistor in degrees, unquoted: an a with a grave accent is the bytes 195 and 160.
parse_within_diverges_example : parse_within 500 (32 ∷ 40 ∷ 10 ∷ 160 ∷ codes " b)") ≡ no_fuel
unfolding is_blank is_unskipped
parse_within_diverges_example =
    parse_within_diverges (32 ∷ []) (10 ∷ []) 160 (codes " b)") 500 (refl, tt) (refl, tt) refl

abbrev a_tree : Nodes
a_tree = cons (atom (codes "a \"b\"")) (cons (list (cons (atom (10 ∷ 92 ∷ [])) nil)) nil)

parse_sexpr-print_example : parse_sexpr (print (list a_tree) ++ codes " more") ≡ root (list a_tree)
parse_sexpr-print_example = parse_sexpr-print a_tree (codes " more")

abbrev schematic : Bytes
schematic =
    codes
      "(kicad_sch (version 1) (symbol (lib_id \"Device:R\") (property \"Reference\" \"R10\") (property \"Value\" \"10k\")) (symbol (property \"Reference\" \"R2\") (property \"Value\" \"10k\") (property \"MFG\" \"Yageo\")) (symbol (dnp yes) (property \"Reference\" \"R3\")))"

abbrev line_10k : BomLine
line_10k = record {
  refs = codes "R2" ∷ codes "R10" ∷ [];
  quantity = 2;
  value = codes "10k";
  footprint = [];
  lib_id = codes "Device:R";
  mpn = [];
  manufacturer = codes "Yageo";
  supplier_sku = [];
  ipn = [];
  description = [];
}

schematic_lines : parse_schematic schematic ≡ ok (line_10k ∷ [])
unfolding parse_schematic
schematic_lines = refl

abbrev resistor : Component
resistor = record no_component {
  reference = codes "R1";
  value = codes "10k";
  footprint = codes "R_0603";
}

abbrev capacitor : Component
capacitor = record no_component {
  reference = codes "C1";
  value = codes "1u";
  footprint = codes "C_0603";
}

group_components_lem_example :
    IsGrouping
      (resistor ∷ capacitor ∷ resistor ∷ [])
      (group_components (resistor ∷ capacitor ∷ resistor ∷ []))
group_components_lem_example = group_components_lem (resistor ∷ capacitor ∷ resistor ∷ [])

abbrev panel : Bytes
panel =
    codes
      "(kicad_pcb (footprint \"R_0603\" (property \"Reference\" \"R1\") (fp_text value \"10k\")) (module C_0603 (fp_text reference C1) (fp_text value 1u)) (footprint H (attr board_only) (fp_text reference H1)) (footprint \"R_0603\" (property \"Reference\" \"R1\") (fp_text value \"10k\")) (module C_0603 (fp_text reference C1) (fp_text value 1u)))"

panel_components : components_from_pcb panel ≡ ok (copies 2 (resistor ∷ capacitor ∷ []))
unfolding components_from_pcb
panel_components = refl

parse_panel_board_bom_lem_example :
    parse_panel_board_bom panel ≡ ok (group_components (resistor ∷ capacitor ∷ []))
parse_panel_board_bom_lem_example =
    parse_panel_board_bom_lem panel 1 (resistor ∷ capacitor ∷ []) (refl, refl, (refl, refl, tt))
      panel_components

components_from_pcb_lem_example :
    (n : Node) × (parse_sexpr panel ≡ root n)
    × (map shown (copies 2 (resistor ∷ capacitor ∷ [])) ≡ parts_of (children n))
components_from_pcb_lem_example =
    components_from_pcb_lem panel (copies 2 (resistor ∷ capacitor ∷ [])) panel_components

abbrev grid : List Row
grid =
    []
    ∷ (codes "Designator" ∷ codes "Qty." ∷ codes "Mfr Part #" ∷ [])
    ∷ (codes "R1, R2;R3" ∷ codes "x" ∷ codes " RC0603 " ∷ [])
    ∷ (codes " " ∷ [])
    ∷ (codes "" ∷ codes "7" ∷ codes "GRM" ∷ [])
    ∷ []

abbrev quantities : List BomLine → List ℕ
quantities [] = []
quantities (l ∷ ls) = l.quantity ∷ quantities ls

grid_quantities : quantities (rows_to_lines grid) ≡ 3 ∷ 7 ∷ []
unfolding rows_to_lines
grid_quantities = refl

rows_to_lines-IsLine_example : All IsLine (rows_to_lines grid)
rows_to_lines-IsLine_example = rows_to_lines-IsLine grid

-- Two copies of a board with two parts, and one part of the frame.
abbrev panel_file : Bytes
panel_file =
    codes
      "(property \"Reference\" \"R1\") (property \"Reference\" \"C1\" (property \"Reference\" \"\")"
    ++ codes "(property \"Reference\" \"KiKit_TO_1\") (property \"Reference\" \"C1\""
    ++ codes "(property \"Reference\" \"R1\""

panel_file_copies : detect_panel_pcb panel_file ≡ (2, true)
unfolding detect_panel_pcb
panel_file_copies = refl

detect_panel_pcb_lem_example : detect_panel_pcb panel_file ≡ (2, true)
unfolding board_refs
detect_panel_pcb_lem_example =
    detect_panel_pcb_lem panel_file 2 refl (refl, (refl, (refl, (refl, tt))))
