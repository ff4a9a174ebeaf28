-- ===== src/Kicad/Bom/Group.antt =====
-- `GroupComponents` of internal/kicad/bom.go, and the bills of a schematic, a board and a panel.
pub mod Counts
pub mod Lines
pub mod Panel
use firebin_api.Base.{
  ℕ, ◌+◌, Bool, true, false, not, ◌&&◌, ◌||◌, List, [], ◌∷◌, ◌++◌, map, if◌then◌else◌, Outcome, ok,
  err, ◌>>=◌,
}
use firebin_api.Base.Compare.{is_lt}
use firebin_api.Base.Sort.{sort_by}
use firebin_api.Base.Bytes.{Bytes, same, is_empty, compare_bytes}
use firebin_api.Kicad.Sexpr.{Document}
use firebin_api.Kicad.Bom.Model.{Component, BomLine}
use firebin_api.Kicad.Bom.Order.{ref_less}
use firebin_api.Kicad.Bom.Extract.{keep_first, components_from_schematic, components_from_pcb}

-- The key of a group: value, footprint and MPN, which a line takes from its first component.
abbrev pub has_key : Bytes → Bytes → Bytes → BomLine → Bool
has_key v f m g = same v g.value && same f g.footprint && same m g.mpn

-- The line of a new group, before its first component is counted.
unfoldable pub new_line : Component → BomLine
new_line c = record {
  refs = [];
  quantity = 0;
  value = c.value;
  footprint = c.footprint;
  lib_id = c.lib_id;
  mpn = c.mpn;
  manufacturer = c.manufacturer;
  supplier_sku = c.supplier_sku;
  ipn = c.ipn;
  description = c.description;
}

abbrev pub add_ref : Bytes → List Bytes → List Bytes
add_ref r refs = if is_empty r then refs else refs ++ r ∷ []

-- The rest of the loop's body: the component's reference, its count, and what the line lacks.
unfoldable pub count_in : Component → BomLine → BomLine
unfolding keep_first
count_in c g = record g {
  refs = add_ref c.reference g.refs;
  quantity = g.quantity + 1;
  manufacturer = keep_first g.manufacturer c.manufacturer;
  supplier_sku = keep_first g.supplier_sku c.supplier_sku;
  lib_id = keep_first g.lib_id c.lib_id;
  ipn = keep_first g.ipn c.ipn;
  description = keep_first g.description c.description;
}

-- One component, into `groups` in the `order` of their keys.
unfoldable pub add_component : Component → List BomLine → List BomLine
unfolding new_line count_in
add_component c [] = count_in c (new_line c) ∷ []
add_component c (g ∷ gs) =
    if has_key c.value c.footprint c.mpn g then count_in c g ∷ gs else g ∷ add_component c gs

unfoldable pub add_components : List Component → List BomLine → List BomLine
unfolding add_component
add_components [] groups = groups
add_components (c ∷ cs) groups = add_components cs (add_component c groups)

unfoldable pub sort_refs : BomLine → BomLine
unfolding ref_less
sort_refs g = record g { refs = sort_by ref_less g.refs }

-- The comparison of the last sort: by the first reference, by the value where a line has none.
unfoldable pub refs_less : Bytes → Bytes → List Bytes → List Bytes → Bool
unfolding ref_less
refs_less v w [] qs = is_lt (compare_bytes v w)
refs_less v w (r ∷ rs) [] = is_lt (compare_bytes v w)
refs_less v w (r ∷ rs) (q ∷ qs) = ref_less r q

unfoldable pub line_less : BomLine → BomLine → Bool
unfolding refs_less
line_less g h = refs_less g.value h.value g.refs h.refs

-- The two sorts are Go's insertion sort, as the library runs them on at most 12 and 20 entries.
unfoldable pub group_components : List Component → List BomLine
unfolding add_components sort_refs line_less
group_components cs = sort_by line_less (map sort_refs (add_components cs []))

abbrev pub grouped : Outcome Document (List Component) → Outcome Document (List BomLine)
unfolding group_components
grouped m = m >>= λ cs. ok (group_components cs)

unfoldable pub parse_schematic : Bytes → Outcome Document (List BomLine)
unfolding components_from_schematic group_components
parse_schematic s = grouped (components_from_schematic s)

unfoldable pub parse_pcb : Bytes → Outcome Document (List BomLine)
unfolding components_from_pcb group_components
parse_pcb s = grouped (components_from_pcb s)

abbrev pub seen_in : Bytes → List Bytes → Bool
seen_in r [] = false
seen_in r (s ∷ seen) = same r s || seen_in r seen

-- The loop of ParsePanelBoardBOM: the components whose reference is new, `seen` those before.
unfoldable pub unique_refs : List Bytes → List Component → List Component
unique_refs seen [] = []
unique_refs seen (c ∷ cs) =
    let skipped = unique_refs seen cs in
    let kept = unique_refs (c.reference ∷ seen) cs in
    if is_empty c.reference || seen_in c.reference seen then skipped else c ∷ kept

unfoldable pub parse_panel_board_bom : Bytes → Outcome Document (List BomLine)
unfolding components_from_pcb unique_refs group_components
parse_panel_board_bom s = components_from_pcb s >>= λ cs. ok (group_components (unique_refs [] cs))
