-- ===== src/Kicad/Bom/Group/Counts.antt =====
-- What the groups of a bill of materials count: each component once, under its own key.
use firebin_api.Base.{
  ℕ, ◌+◌, ◌≤◌, ◌≡◌, refl, Bool, true, false, ◌&&◌, List, [], ◌∷◌, ◌++◌, if◌then◌else◌, Bool-cases,
  inl, inr, arith,
}
use firebin_api.Base.Sort.{sum_of}
use firebin_api.Base.Bytes.{Bytes, same, same_iff, is_empty}
use firebin_api.Kicad.Bom.Model.{Component, BomLine}
use firebin_api.Kicad.Bom.Group.{
  has_key, new_line, add_ref, count_in, add_component, add_components,
}

abbrev pub when : Bool → ℕ → ℕ
when b n = if b then n else 0

abbrev pub component_has_key : Bytes → Bytes → Bytes → Component → Bool
component_has_key v f m c = same v c.value && same f c.footprint && same m c.mpn

abbrev pub occurrences : Bytes → List Bytes → ℕ
occurrences r rs = sum_of (λ q. when (same r q) 1) rs

-- How many components have a key; how many of these have the reference r.
abbrev pub components_with : Bytes → Bytes → Bytes → List Component → ℕ
components_with v f m cs = sum_of (λ c. when (component_has_key v f m c) 1) cs

abbrev pub referenced_with : Bytes → Bytes → Bytes → Bytes → List Component → ℕ
referenced_with v f m r cs =
    sum_of (λ c. when (component_has_key v f m c && same r c.reference) 1) cs

-- How many lines have a key; their quantity; how often they name the reference r.
abbrev pub lines_with : Bytes → Bytes → Bytes → List BomLine → ℕ
lines_with v f m gs = sum_of (λ g. when (has_key v f m g) 1) gs

abbrev pub quantity_with : Bytes → Bytes → Bytes → List BomLine → ℕ
quantity_with v f m gs = sum_of (λ g. when (has_key v f m g) g.quantity) gs

abbrev pub refs_with : Bytes → Bytes → Bytes → Bytes → List BomLine → ℕ
refs_with v f m r gs = sum_of (λ g. when (has_key v f m g) (occurrences r g.refs)) gs

-- A line of a component's key has the same keys as the component.
abbrev pub SameKey : Component → BomLine → Type 0
SameKey c g = (c.value ≡ g.value) × (c.footprint ≡ g.footprint) × (c.mpn ≡ g.mpn)

pub has_key-SameKey :
    (c : Component) (g : BomLine) → has_key c.value c.footprint c.mpn g ≡ true → SameKey c g
has_key-SameKey c g h =
    ground (arith, same_iff c.value g.value, same_iff c.footprint g.footprint, same_iff c.mpn g.mpn)

pub has_key_same :
    (v f m : Bytes) (c : Component) (g : BomLine)
    → SameKey c g
    → has_key v f m g ≡ component_has_key v f m c
has_key_same v f m c g (p, q, r) = rw (p, q, r) refl

-- A measure of lines to which a component adds its weight adds up to the weights.
module _ (measure : BomLine → ℕ) (weight : Component → ℕ)
    (start : (c : Component) → measure (count_in c (new_line c)) ≡ weight c)
    (step : (c : Component) (g : BomLine)
      → SameKey c g
      → measure (count_in c g) ≡ weight c + measure g) where
  sum_of-add_component :
      (c : Component) (gs : List BomLine)
      → sum_of measure (add_component c gs) ≡ weight c + sum_of measure gs
  unfolding add_component
  sum_of-add_component c [] = omega (arith, start c)
  sum_of-add_component c (g ∷ gs) = elim (Bool-cases (has_key c.value c.footprint c.mpn g)) [
    | inl e ↦ rw e (omega (arith, step c g (has_key-SameKey c g e)))
    | inr e ↦ rw e (omega (arith, sum_of-add_component c gs))
  ]

  pub sum_of-add_components :
      (cs : List Component) (gs : List BomLine)
      → sum_of measure (add_components cs gs) ≡ sum_of weight cs + sum_of measure gs
  unfolding add_components
  sum_of-add_components [] gs = omega arith
  sum_of-add_components (c ∷ cs) gs =
      omega (arith, sum_of-add_components cs (add_component c gs), sum_of-add_component c gs)

when_add : (b : Bool) (n : ℕ) → when b (n + 1) ≡ when b 1 + when b n
when_add true n = omega arith
when_add false n = omega arith

when_and : (b d : Bool) (n k : ℕ) → k ≡ when d 1 + n → when b k ≡ when (b && d) 1 + when b n
when_and true d n k h = h
when_and false d n k h = omega arith

when_zero : (b : Bool) → when b 0 ≡ 0
when_zero true = refl
when_zero false = refl

pub when_le : (b : Bool) → when b 1 + 0 ≤ 1
when_le true = omega arith
when_le false = omega arith

pub quantity_step :
    (v f m : Bytes) (c : Component) (g : BomLine)
    → SameKey c g
    → when (has_key v f m (count_in c g)) (count_in c g).quantity
      ≡ when (component_has_key v f m c) 1 + when (has_key v f m g) g.quantity
unfolding count_in
quantity_step v f m c g h =
    rw (has_key_same v f m c g h) (when_add (component_has_key v f m c) g.quantity)

occurrences-append :
    (r q : Bytes) (rs : List Bytes)
    → occurrences r (rs ++ q ∷ []) ≡ when (same r q) 1 + occurrences r rs
occurrences-append r q [] = omega arith
occurrences-append r q (s ∷ rs) = omega (arith, occurrences-append r q rs)

-- A reference that is not empty.
occurrences-add_ref :
    (r q : Bytes) (rs : List Bytes)
    → is_empty r ≡ false
    → occurrences r (add_ref q rs) ≡ when (same r q) 1 + occurrences r rs
occurrences-add_ref [] q rs h = cc
occurrences-add_ref (b ∷ r) [] rs h = omega arith
occurrences-add_ref (b ∷ r) (c ∷ q) rs h = occurrences-append (b ∷ r) (c ∷ q) rs

pub refs_step :
    (v f m r : Bytes) (c : Component) (g : BomLine)
    → is_empty r ≡ false
    → SameKey c g
    → when (has_key v f m (count_in c g)) (occurrences r (count_in c g).refs)
      ≡ when (component_has_key v f m c && same r c.reference) 1
        + when (has_key v f m g) (occurrences r g.refs)
unfolding count_in
refs_step v f m r c g h k = rw (has_key_same v f m c g k) (
    when_and (component_has_key v f m c) (same r c.reference) _ _
      (occurrences-add_ref r c.reference g.refs h))

pub quantity_start :
    (v f m : Bytes) (c : Component)
    → when (has_key v f m (count_in c (new_line c))) (count_in c (new_line c)).quantity
      ≡ when (component_has_key v f m c) 1
unfolding count_in new_line
quantity_start v f m c = refl

pub refs_start :
    (v f m r : Bytes) (c : Component)
    → is_empty r ≡ false
    → when (has_key v f m (count_in c (new_line c))) (occurrences r (count_in c (new_line c)).refs)
      ≡ when (component_has_key v f m c && same r c.reference) 1
unfolding count_in new_line
refs_start v f m r c h = omega (
  arith,
  when_and (component_has_key v f m c) (same r c.reference) 0 _
      (occurrences-add_ref r c.reference [] h),
  when_zero (component_has_key v f m c),
)
