-- ===== src/Kicad/Bom/Group/Lines.antt =====
-- The lines that GroupComponents returns: one for each key, with the quantity and the references.
use firebin_api.Base.{
  ◌+◌, ◌≤◌, ◌≡◌, refl, sym, ap, ◌∙◌, true, false, ◌&&◌, List, [], ◌∷◌, map, Bool-cases, inl, inr,
  arith, All, true_ne_false,
}
use firebin_api.Base.Sort.{sum_of-sort_by, All-sort_by, sort_by-InOrder, InOrder}
use firebin_api.Base.Bytes.{Bytes, same, same_iff, is_empty}
use firebin_api.Kicad.Bom.Model.{Component, BomLine}
use firebin_api.Kicad.Bom.Order.{ref_less, ref_less-IsAsymmetric}
use firebin_api.Kicad.Bom.Group.{
  has_key, new_line, count_in, add_component, add_components, sort_refs, group_components,
  line_less,
}
use firebin_api.Kicad.Bom.Group.Counts.{
  when, component_has_key, components_with, referenced_with, lines_with, quantity_with, refs_with,
  quantity_start, quantity_step, refs_start, refs_step, when_le, sum_of-add_components, occurrences,
}

lines_with-add_component :
    (v f m : Bytes) (c : Component) (gs : List BomLine)
    → component_has_key v f m c ≡ false
    → lines_with v f m (add_component c gs) ≡ lines_with v f m gs
unfolding add_component count_in new_line
lines_with-add_component v f m c [] h = rw h refl
lines_with-add_component v f m c (g ∷ gs) h = ground (arith, lines_with-add_component v f m c gs)

component_has_key_iff :
    (v f m : Bytes) (c : Component)
    → component_has_key v f m c ≡ true
    → (v ≡ c.value) × (f ≡ c.footprint) × (m ≡ c.mpn)
component_has_key_iff v f m c h =
    ground (arith, same_iff v c.value, same_iff f c.footprint, same_iff m c.mpn)

-- A line that has another key than the component has.
other_key :
    (v f m : Bytes) (c : Component) (g : BomLine)
    → has_key c.value c.footprint c.mpn g ≡ false
    → has_key v f m g ≡ true
    → component_has_key v f m c ≡ false
other_key v f m c g e h = elim (Bool-cases (component_has_key v f m c)) [
  | inl q ↦
      let (a, b, d) = component_has_key_iff v f m c q in
      absurd (
        true_ne_false (
          sym h
          ∙ ap (λ x. has_key x f m g) a
          ∙ ap (λ x. has_key c.value x m g) b
          ∙ ap (λ x. has_key c.value c.footprint x g) d
          ∙ e))
  | inr q ↦ q
]

one_line :
    (v f m : Bytes) (c : Component) (g : BomLine) (gs : List BomLine)
    → has_key c.value c.footprint c.mpn g ≡ false
    → when (has_key v f m g) 1 + lines_with v f m gs ≤ 1
    → (lines_with v f m gs ≤ 1 → lines_with v f m (add_component c gs) ≤ 1)
    → when (has_key v f m g) 1 + lines_with v f m (add_component c gs) ≤ 1
one_line v f m c g gs e h ih = elim (Bool-cases (has_key v f m g)) [
  | inl q ↦ rw (lines_with-add_component v f m c gs (other_key v f m c g e q)) h
  | inr q ↦ rw q (omega (arith, ih (omega (arith, rw q at h))))
]

lines_with-le :
    (v f m : Bytes) (c : Component) (gs : List BomLine)
    → lines_with v f m gs ≤ 1
    → lines_with v f m (add_component c gs) ≤ 1
unfolding add_component count_in new_line
lines_with-le v f m c [] h = when_le (has_key v f m (count_in c (new_line c)))
lines_with-le v f m c (g ∷ gs) h = elim (Bool-cases (has_key c.value c.footprint c.mpn g)) [
  | inl e ↦ rw e h
  | inr e ↦ rw e (one_line v f m c g gs e h (lines_with-le v f m c gs))
]

lines_with-add_components :
    (v f m : Bytes) (cs : List Component) (gs : List BomLine)
    → lines_with v f m gs ≤ 1
    → lines_with v f m (add_components cs gs) ≤ 1
unfolding add_components
lines_with-add_components v f m [] gs h = h
lines_with-add_components v f m (c ∷ cs) gs h =
    lines_with-add_components v f m cs (add_component c gs) (lines_with-le v f m c gs h)

-- Sorting the references of the lines, and the lines, keeps what they count.
module _ (v f m : Bytes) where
  lines_with-sort_refs :
      (gs : List BomLine) → lines_with v f m (map sort_refs gs) ≡ lines_with v f m gs
  unfolding sort_refs
  lines_with-sort_refs [] = refl
  lines_with-sort_refs (g ∷ gs) = omega (arith, lines_with-sort_refs gs)

  quantity_with-sort_refs :
      (gs : List BomLine) → quantity_with v f m (map sort_refs gs) ≡ quantity_with v f m gs
  unfolding sort_refs
  quantity_with-sort_refs [] = refl
  quantity_with-sort_refs (g ∷ gs) = omega (arith, quantity_with-sort_refs gs)

  refs_with-sort_refs :
      (r : Bytes) (gs : List BomLine) → refs_with v f m r (map sort_refs gs) ≡ refs_with v f m r gs
  unfolding sort_refs
  refs_with-sort_refs r [] = refl
  refs_with-sort_refs r (g ∷ gs) =
      rw (sum_of-sort_by (λ q. when (same r q) 1) ref_less g.refs)
        (omega (arith, refs_with-sort_refs r gs))

-- What a bill of materials says of the components that it groups.
pub record IsGrouping (cs : List Component) (lines : List BomLine) : Type 0 where
  pub one_line_each : (v f m : Bytes) → lines_with v f m lines ≤ 1
  pub quantities : (v f m : Bytes) → quantity_with v f m lines ≡ components_with v f m cs
  pub references :
      (v f m r : Bytes) → is_empty r ≡ false → refs_with v f m r lines ≡ referenced_with v f m r cs
  pub sorted : All (λ g. InOrder ref_less g.refs) lines

sort_refs-sorted : (gs : List BomLine) → All (λ g. InOrder ref_less g.refs) (map sort_refs gs)
unfolding sort_refs
sort_refs-sorted [] = tt
sort_refs-sorted (g ∷ gs) =
    (sort_by-InOrder ref_less ref_less-IsAsymmetric g.refs, sort_refs-sorted gs)

quantities_lem :
    (v f m : Bytes) (cs : List Component)
    → quantity_with v f m (group_components cs) ≡ components_with v f m cs
unfolding group_components
quantities_lem v f m cs =
    let groups = add_components cs [] in
    omega (
      arith,
      sum_of-sort_by (λ g. when (has_key v f m g) g.quantity) line_less (map sort_refs groups),
      quantity_with-sort_refs v f m groups,
      sum_of-add_components (λ g. when (has_key v f m g) g.quantity)
          (λ c. when (component_has_key v f m c) 1) (quantity_start v f m) (quantity_step v f m) cs
          [],
    )

references_lem :
    (v f m r : Bytes) (cs : List Component)
    → is_empty r ≡ false
    → refs_with v f m r (group_components cs) ≡ referenced_with v f m r cs
unfolding group_components
references_lem v f m r cs h =
    let groups = add_components cs [] in
    omega (
      arith,
      sum_of-sort_by (λ g. when (has_key v f m g) (occurrences r g.refs)) line_less
          (map sort_refs groups),
      refs_with-sort_refs v f m r groups,
      sum_of-add_components (λ g. when (has_key v f m g) (occurrences r g.refs))
          (λ c. when (component_has_key v f m c && same r c.reference) 1)
          (λ c. refs_start v f m r c h) (λ c g. refs_step v f m r c g h) cs [],
    )

-- GroupComponents gives each key (value, footprint, MPN) at most one line, whose quantity is the
-- number of the components with that key, and which names a reference as often as these components
-- do; the references of a line are in the order of refLess.
pub group_components_lem : (cs : List Component) → IsGrouping cs (group_components cs)
unfolding group_components
group_components_lem cs =
    let groups = add_components cs [] in
    record {
      one_line_each = λ v f m.
          rw
            (
              sum_of-sort_by (λ g. when (has_key v f m g) 1) line_less (map sort_refs groups),
              lines_with-sort_refs v f m groups,
            )
            (lines_with-add_components v f m cs [] (omega arith));
      quantities = λ v f m. quantities_lem v f m cs;
      references = λ v f m r h. references_lem v f m r cs h;
      sorted =
          All-sort_by (λ g. InOrder ref_less g.refs) line_less (map sort_refs groups)
            (sort_refs-sorted groups);
    }
