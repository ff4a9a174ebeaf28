-- ===== src/Kicad/Bom/Rows/Lines.antt =====
-- What holds of every line that `rowsToLines` reads.
use firebin_api.Base.{
  ℕ, ◌+◌, ◌<◌, ◌≡◌, refl, Bool, true, false, ◌||◌, List, [], ◌∷◌, Option, none, some, Bool-cases,
  inl, inr, arith, All, length, ◌^◌, ◌*◌, ◌⊎◌, ◌-◌, ◌==◌, sym, ◌∙◌,
}
use firebin_api.Base.Int.{ℤ, pos, negsuc, sub_ℕ}
use mathlib.Core.Option
use firebin_api.Base.Bytes.{Bytes, is_empty}
use firebin_api.Base.Runes.{atoi, decimal, decimal_from}
use firebin_api.Kicad.Bom.Model.{BomLine}
use firebin_api.Kicad.Bom.Rows.{
  Row, row_empty, rows_to_lines, lines_under, lines_of, drop_blank, line_of, columns_of, Columns,
  names_nothing, quantity_of, positive, split_refs, fields, add_field, cell,
}

-- A line of a bill of materials: it counts something, names a part, and no reference is empty.
pub record IsLine (l : BomLine) : Type 0 where
  pub counts : 0 < l.quantity
  pub in_range : (l.quantity < 2 ^ 63) ⊎ (l.quantity ≡ length l.refs)
  pub names : names_nothing l ≡ false
  pub references : All (λ r. is_empty r ≡ false) l.refs

or_false : (a : Bool) {b : Bool} → (a || b) ≡ false → b ≡ false
or_false true h = cc
or_false false h = h

decimal_from-lt :
    (limit n : ℕ) (s : Bytes) (k : ℕ) → n < limit → decimal_from limit n s ≡ some k → k < limit
unfolding decimal_from
decimal_from-lt limit n [] k h e = grind arith
decimal_from-lt limit n (r ∷ s) k h e =
    ground (arith, decimal_from-lt limit (10 * n + (r - 48)) s k)

decimal-lt : (s : Bytes) (k : ℕ) → decimal (2 ^ 63) s ≡ some k → k < 2 ^ 63
unfolding decimal
decimal-lt [] k e = cc
decimal-lt (r ∷ s) k e = decimal_from-lt (2 ^ 63) 0 (r ∷ s) k (omega arith) e

positive-lt :
    (o : Option ℕ) (k : ℕ)
    → ((m : ℕ) → o ≡ some m → m < 2 ^ 63)
    → positive (Option.map pos o) ≡ some k
    → k < 2 ^ 63
positive-lt none k h e = cc
positive-lt (some m) k h e = ground (arith, h m refl)

positive-minus : (o : Option ℕ) → positive (Option.map (λ n. sub_ℕ 0 n) o) ≡ none
positive-minus none = refl
positive-minus (some m) = ground arith

none-some : {k : ℕ} → none ≡ some k → ⊥
none-some e = cc

positive-atoi-lt : (s : Bytes) (k : ℕ) → positive (atoi s) ≡ some k → k < 2 ^ 63
unfolding atoi
positive-atoi-lt [] k e = cc
positive-atoi-lt (r ∷ s) k e = elim (Bool-cases (r == 45)) [
  | inl m ↦ absurd (none-some (sym (positive-minus (decimal (2 ^ 63 + 1) s)) ∙ rw m at e))
  | inr m ↦ elim (Bool-cases (r == 43)) [
    | inl p ↦ positive-lt (decimal (2 ^ 63) s) k (decimal-lt s) (rw (m, p) at e)
    | inr p ↦ positive-lt (decimal (2 ^ 63) (r ∷ s)) k (decimal-lt (r ∷ s)) (rw (m, p) at e)
  ]
]

quantity_of-pos : (o : Option ℤ) (n : ℕ) → 0 < quantity_of (positive o) n
unfolding quantity_of
quantity_of-pos none n = ground arith
quantity_of-pos (some (pos q)) n = ground arith
quantity_of-pos (some (negsuc q)) n = ground arith

quantity_of-lt :
    (o : Option ℕ) (n : ℕ)
    → ((k : ℕ) → o ≡ some k → k < 2 ^ 63)
    → (quantity_of o n < 2 ^ 63) ⊎ (quantity_of o n ≡ n)
unfolding quantity_of
quantity_of-lt none n h = ground arith
quantity_of-lt (some q) n h = inl (h q refl)

add_field-full :
    (w : Bytes) (fs : List Bytes)
    → All (λ r. is_empty r ≡ false) fs
    → All (λ r. is_empty r ≡ false) (add_field w fs)
unfolding add_field
add_field-full w fs h = ground (arith, h)

fields-full : (s : Bytes) → All (λ r. is_empty r ≡ false) ((fields s).1)
unfolding fields
fields-full [] = tt
fields-full (r ∷ s) = ground (arith, add_field-full ((fields s).0) ((fields s).1), fields-full s)

line_of-IsLine :
    (cols : Columns) (row : Row)
    → names_nothing (line_of cols row) ≡ false
    → IsLine (line_of cols row)
unfolding line_of split_refs
line_of-IsLine cols row h = record {
  counts = quantity_of-pos (atoi (cell row cols.quantity_col)) _;
  in_range =
      quantity_of-lt (positive (atoi (cell row cols.quantity_col))) _
        (positive-atoi-lt (cell row cols.quantity_col));
  names = h;
  references =
      add_field-full ((fields (cell row cols.ref_col)).0) _ (fields-full (cell row cols.ref_col));
}

lines_of-IsLine : (cols : Columns) (rows : List Row) → All IsLine (lines_of cols rows)
unfolding lines_of
lines_of-IsLine cols [] = tt
lines_of-IsLine cols (row ∷ rows) =
    elim (Bool-cases (row_empty row || names_nothing (line_of cols row))) [
      | inl e ↦ rw e (lines_of-IsLine cols rows)
      | inr e ↦
          rw e (line_of-IsLine cols row (or_false (row_empty row) e), lines_of-IsLine cols rows)
    ]

lines_under-IsLine : (rows : List Row) → All IsLine (lines_under rows)
unfolding lines_under
lines_under-IsLine [] = tt
lines_under-IsLine (header ∷ rows) = lines_of-IsLine (columns_of header) rows

-- Every line that rowsToLines reads, from any grid, has a quantity of at least 1 that fits in 64
-- bits or is the number of its references, names a value, an MPN or a reference, and has no empty
-- reference.
pub rows_to_lines-IsLine : (rows : List Row) → All IsLine (rows_to_lines rows)
unfolding rows_to_lines
rows_to_lines-IsLine rows = lines_under-IsLine (drop_blank rows)
