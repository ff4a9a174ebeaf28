-- ===== src/Kicad/Bom/Placed.antt =====
-- Which components come out of a board: `componentsFromPCB` of internal/kicad/bom.go.
use mathlib.Core.Option
use firebin_api.Base.{
  ◌≡◌, refl, ap, ◌∙◌, sym, Bool, true, false, ◌&&◌, ◌||◌, List, [], ◌∷◌, Option, none, some, map,
  if◌then◌else◌, Bool-cases, inl, inr, arith, Outcome, ok, err, String, ok_injective,
}
use firebin_api.Base.Bytes.{Bytes, codes, lower, is_empty, same, same_iff, has_prefix}
use firebin_api.Kicad.Sexpr.{
  Node, Nodes, nil, cons, head, root, parse_sexpr, atom_at, children, value,
}
use firebin_api.Kicad.Bom.Model.{Component, no_component}
use firebin_api.Kicad.Bom.Extract.{
  is_part, if_part, component_from_footprint, components_of, of_document, components_from_pcb,
  read_footprint, one_of, footprint_property, is_left_out, rest_of,
}

-- A flag of an attribute that keeps a footprint off the bill of materials.
abbrev flagged : Nodes → Bool
flagged nil = false
flagged (cons a ns) =
    one_of (lower (value a)) ("exclude_from_bom" ∷ "dnp" ∷ "board_only" ∷ []) || flagged ns

abbrev is_attribute : Node → Bool
is_attribute n = one_of (head n) ("attr" ∷ [])

abbrev is_text : Node → Bool
is_text n = one_of (head n) ("property" ∷ "fp_text" ∷ [])

-- Some attribute among these children has such a flag.
abbrev left_out : Nodes → Bool
left_out nil = false
left_out (cons n ns) = (is_attribute n && flagged (rest_of (children n))) || left_out ns

-- The last text with a name among these children, else the one given.
abbrev last_text : String → Nodes → Bytes → Bytes
last_text name nil old = old
last_text name (cons n ns) old = last_text name ns (
    if is_attribute n
    then old
    else if is_text n
    then (if one_of (lower (atom_at n 1)) (name ∷ []) then atom_at n 2 else old)
    else old)

-- The reference, the value and the footprint of a component.
abbrev pub Shown : Type 0
Shown = Bytes × Bytes × Bytes

abbrev pub shown : Component → Shown
shown c = (c.reference, c.value, c.footprint)

-- What a footprint shows on the bill: its last reference and value; nothing when it is left out,
-- when the reference starts with #, or when both are empty.
abbrev part_of : Node → Option Shown
part_of n =
    let r = last_text "reference" (children n) [] in
    let v = last_text "value" (children n) [] in
    if left_out (children n)
    then none
    else if has_prefix (35 ∷ []) r
    then none
    else if is_empty r && is_empty v
    then none
    else some (r, v, atom_at n 1)

-- What the footprints among these nodes show, in their order.
abbrev pub parts_of : Nodes → List Shown
parts_of nil = []
parts_of (cons n ns) =
    let rest = parts_of ns in
    if one_of (head n) ("footprint" ∷ "module" ∷ [])
    then elim (part_of n) [ none ↦ rest | some p ↦ p ∷ rest ]
    else rest

is_left_out-flagged : (ns : Nodes) → is_left_out ns ≡ flagged ns
unfolding is_left_out
is_left_out-flagged nil = refl
is_left_out-flagged (cons a ns) = ground (arith, is_left_out-flagged ns)

reference-footprint_property :
    (k v : Bytes) (c : Component)
    → (footprint_property k v c).reference
      ≡ (if one_of k ("reference" ∷ []) then v else c.reference)
unfolding footprint_property
reference-footprint_property k v c = ground arith

other_key : (k : Bytes) → one_of k ("reference" ∷ []) ≡ true → one_of k ("value" ∷ []) ≡ false
other_key k h =
    let named : same k (codes "reference") ≡ true = ground arith in
    rw ((same_iff k (codes "reference")).0 named) refl

value-footprint_property :
    (k v : Bytes) (c : Component)
    → (footprint_property k v c).value ≡ (if one_of k ("value" ∷ []) then v else c.value)
unfolding footprint_property
value-footprint_property k v c = elim (Bool-cases (one_of k ("reference" ∷ []))) [
  | inl e ↦ rw (e, other_key k e) refl
  | inr e ↦ rw e (ground arith)
]

footprint-footprint_property :
    (k v : Bytes) (c : Component) → (footprint_property k v c).footprint ≡ c.footprint
unfolding footprint_property
footprint-footprint_property k v c = ground arith

-- What the loop over the children of a footprint has read.
abbrev read : Nodes → Component → Option Shown
read ns c =
    if left_out ns
    then none
    else some (last_text "reference" ns c.reference, last_text "value" ns c.value, c.footprint)

read-property :
    (ns : Nodes) (k v : Bytes) (c : Component)
    → read ns (footprint_property k v c) ≡ (
        if left_out ns
        then none
        else some (
          last_text "reference" ns (if one_of k ("reference" ∷ []) then v else c.reference),
          last_text "value" ns (if one_of k ("value" ∷ []) then v else c.value),
          c.footprint,
        ))
read-property ns k v c =
    rw
      (
        reference-footprint_property k v c,
        value-footprint_property k v c,
        footprint-footprint_property k v c,
      )
      refl

read_footprint-read :
    (ns : Nodes) (c : Component) → Option.map shown (read_footprint ns c) ≡ read ns c
unfolding read_footprint
read_footprint-read nil c = refl
read_footprint-read (cons n ns) c = elim (Bool-cases (is_attribute n)) [
  | inl a ↦ elim (Bool-cases (flagged (rest_of (children n)))) [
    | inl f ↦ rw (a, is_left_out-flagged (rest_of (children n)), f) refl
    | inr f ↦ rw (a, is_left_out-flagged (rest_of (children n)), f) (read_footprint-read ns c)
  ]
  | inr a ↦ elim (Bool-cases (is_text n)) [
    | inl t ↦
        rw (a, t)
          (read_footprint-read ns (footprint_property (lower (atom_at n 1)) (atom_at n 2) c)
            ∙ read-property ns (lower (atom_at n 1)) (atom_at n 2) c)
    | inr t ↦ rw (a, t) (read_footprint-read ns c)
  ]
]

-- The tests after that loop.
abbrev checked : Option Shown → Option Shown
checked none = none
checked (some (r, v, f)) =
    if has_prefix (35 ∷ []) r
    then none
    else if is_empty r && is_empty v
    then none
    else some (r, v, f)

if_part-shown : (c : Component) → Option.map shown (if_part c) ≡ checked (some (shown c))
unfolding if_part is_part
if_part-shown c = ground arith

checked_of :
    (o : Option Component)
    → Option.map shown (elim o [ none ↦ none | some c ↦ if_part c ]) ≡ checked (Option.map shown o)
checked_of none = refl
checked_of (some c) = if_part-shown c

checked-read :
    (n : Node)
    → checked (read (children n) (record no_component { footprint = atom_at n 1 })) ≡ part_of n
checked-read n = elim (Bool-cases (left_out (children n))) [ inl e ↦ rw e refl | inr e ↦ rw e refl ]

component_from_footprint-part_of :
    (n : Node) → Option.map shown (component_from_footprint n) ≡ part_of n
unfolding component_from_footprint
component_from_footprint-part_of n =
    let start = record no_component { footprint = atom_at n 1 } in
    checked_of (read_footprint (children n) start)
    ∙ ap checked (read_footprint-read (children n) start)
    ∙ checked-read n

-- The parts with one more in front, if there is one.
abbrev with_part : {A : Type 0} → Option A → List A → List A
with_part o rest = elim o [ none ↦ rest | some p ↦ p ∷ rest ]

map-with_part :
    (o : Option Component) (cs : List Component)
    → map shown (with_part o cs) ≡ with_part (Option.map shown o) (map shown cs)
map-with_part none cs = refl
map-with_part (some c) cs = refl

components_of-parts_of :
    (ns : Nodes)
    → map shown (components_of ("footprint" ∷ "module" ∷ []) component_from_footprint ns)
      ≡ parts_of ns
unfolding components_of
components_of-parts_of nil = refl
components_of-parts_of (cons n ns) =
    let more = components_of ("footprint" ∷ "module" ∷ []) component_from_footprint ns in
    elim (Bool-cases (one_of (head n) ("footprint" ∷ "module" ∷ []))) [
      | inl e ↦ rw e (
          map-with_part (component_from_footprint n) more
          ∙ ap (λ o. with_part o (map shown more)) (component_from_footprint-part_of n)
          ∙ ap (with_part (part_of n)) (components_of-parts_of ns))
      | inr e ↦ rw e (components_of-parts_of ns)
    ]

err_ok : {E A : Type 0} {e : E} {a : A} → Path (Outcome E A) (err e) (ok a) → ⊥
err_ok h = cc

-- The components of a document read from a text are those of the root's children.
components_of_text :
    (text : Bytes) (from : Nodes → List Component) (cs : List Component)
    → of_document from (parse_sexpr text) ≡ ok cs
    → (n : Node) × (parse_sexpr text ≡ root n) × (cs ≡ from (children n))
unfolding of_document
components_of_text text from cs h =
    elim (parse_sexpr text)
        as (λ d.
          of_document from d ≡ ok cs → (n : Node) × (d ≡ root n) × (cs ≡ from (children n))) [
            | root n ↦ λ e. (n, refl, sym (ok_injective e))
            | _ ↦ λ e. absurd (err_ok e)
          ]
      h

-- A board that is read gives, in the order of its footprints, one component for each of them that no
-- attribute leaves out and whose last reference does not start with # and is not empty together with
-- the last value; the component has that reference and value, and the footprint's name.
pub components_from_pcb_lem :
    (text : Bytes) (cs : List Component)
    → components_from_pcb text ≡ ok cs
    → (n : Node) × (parse_sexpr text ≡ root n) × (map shown cs ≡ parts_of (children n))
unfolding components_from_pcb
components_from_pcb_lem text cs h =
    let heads = "footprint" ∷ "module" ∷ [] in
    let (n, e, q) = components_of_text text (components_of heads component_from_footprint) cs h in
    (n, e, ap (map shown) q ∙ components_of-parts_of (children n))
