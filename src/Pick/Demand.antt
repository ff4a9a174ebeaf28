-- ===== src/Pick/Demand.antt =====
-- The first loop of `Compute` in internal/picklist/picklist.go: what the lines of a board require.
pub mod Correct
use firebin_api.Base.{
  ℕ, String, Bool, List, [], ◌∷◌, ◌++◌, Option, none, some, ◌≡◌, ◌≢◌, refl, ◌==◌, if◌then◌else◌,
  arith, All, keep, map, sym, ap,
}
use firebin_api.Base.Int.{ℤ, pos, ◌+ℤ◌, ◌*ℤ◌, ltb_ℤ, wrap_int, +ℤ_zero, zero-+ℤ}
use firebin_api.Pick.Model.{BomLine, PickUnmatched}

unfoldable pub at_least_one : ℤ → ℤ
at_least_one n = if ltb_ℤ n (pos 1) then pos 1 else n

-- l.Quantity * copies * qty, in 64 bits
unfoldable pub line_need : ℤ → ℤ → BomLine → ℤ
line_need copies qty l = wrap_int (wrap_int (l.quantity *ℤ copies) *ℤ qty)

-- float64 of a count, in ten-thousandths
unfoldable pub pieces : ℤ → ℤ
pieces n = n *ℤ pos 10000

-- What is required of a part. A list of these, in the order of `order`, is the maps `required` and
-- `names`.
pub record Need : Type 0 where
  pub part_id : ℕ
  pub part_name : String
  pub required : ℤ

unfoldable pub add_need : ℕ → String → ℤ → List Need → List Need
add_need k name q [] = record { part_id = k; part_name = name; required = q } ∷ []
add_need k name q (n ∷ ns) =
    if n.part_id == k
    then record n { required = n.required +ℤ q } ∷ ns
    else n ∷ add_need k name q ns

pub record Demand : Type 0 where
  pub needs : List Need
  pub unmatched : List PickUnmatched

unfoldable pub unmatched_line : ℤ → ℤ → BomLine → PickUnmatched
unmatched_line copies qty l = record {
  refs = l.refs;
  value = l.value;
  quantity = line_need copies qty l;
  footprint = l.footprint;
  mpn = l.mpn;
  manufacturer = l.manufacturer;
}

unfoldable pub add_line : ℤ → ℤ → Demand → BomLine → Demand
unfolding unmatched_line
add_line copies qty d l = elim l.part_id [
  | none ↦ record d { unmatched = d.unmatched ++ (unmatched_line copies qty l ∷ []) }
  | some k ↦ record d { needs = add_need k l.part_name (pieces (line_need copies qty l)) d.needs }
]

unfoldable pub add_lines : ℤ → ℤ → Demand → List BomLine → Demand
unfolding add_line
add_lines copies qty d [] = d
add_lines copies qty d (l ∷ ls) = add_lines copies qty (add_line copies qty d l) ls

unfoldable pub demand : ℤ → ℤ → List BomLine → Demand
demand copies qty ls = add_lines copies qty (record { needs = []; unmatched = [] }) ls

-- What the lines of a part add up to.
unfoldable pub required_of : ℤ → ℤ → ℕ → List BomLine → ℤ
required_of copies qty k [] = pos 0
required_of copies qty k (l ∷ ls) =
    (elim l.part_id [
      | none ↦ pos 0
      | some p ↦ if p == k then pieces (line_need copies qty l) else pos 0
    ])
    +ℤ required_of copies qty k ls

-- What a list of needs requires of a part.
unfoldable pub need_of : ℕ → List Need → ℤ
need_of k [] = pos 0
need_of k (n ∷ ns) = if n.part_id == k then n.required else need_of k ns

-- The name that a list of needs gives a part.
unfoldable pub named : ℕ → List Need → Option String
named k [] = none
named k (n ∷ ns) = if n.part_id == k then some n.part_name else named k ns

abbrev pub Unlisted : ℕ → List Need → Type 0
Unlisted k = All (λ n. n.part_id ≢ k)

abbrev pub Distinct : List Need → Type 0
Distinct [] = Unit
Distinct (n ∷ ns) = Unlisted n.part_id ns × Distinct ns

add_need-Unlisted :
    (j k : ℕ) (name : String) (q : ℤ) (ns : List Need)
    → k ≢ j
    → Unlisted j ns
    → Unlisted j (add_need k name q ns)
unfolding add_need
add_need-Unlisted j k name q [] d u = ground arith
add_need-Unlisted j k name q (n ∷ ns) d u = ground (arith, add_need-Unlisted j k name q ns d u.1)

add_need-Distinct :
    (k : ℕ) (name : String) (q : ℤ) (ns : List Need) → Distinct ns → Distinct (add_need k name q ns)
unfolding add_need
add_need-Distinct k name q [] u = ground arith
add_need-Distinct k name q (n ∷ ns) u =
    ground (arith, add_need-Unlisted n.part_id k name q ns, add_need-Distinct k name q ns u.1)

need_of-add_need :
    (j k : ℕ) (name : String) (q : ℤ) (ns : List Need)
    → need_of j (add_need k name q ns) ≡ need_of j ns +ℤ (if k == j then q else pos 0)
unfolding add_need need_of
need_of-add_need j k name q [] = ground (arith, zero-+ℤ q, zero-+ℤ (pos 0))
need_of-add_need j k name q (n ∷ ns) =
    ground (arith, need_of-add_need j k name q ns, +ℤ_zero n.required, +ℤ_zero (need_of j ns))
