-- ===== src/Pick/Source.antt =====
-- `StockForParts` of internal/repository/stock.go, and the lot source that it is for a pick list.
-- The collation by which the database orders names is an argument.
pub mod Correct
use firebin_api.Base.{
  ℕ, String, Bool, true, false, ◌&&◌, ◌||◌, List, [], ◌∷◌, Option, none, some, ◌≡◌, refl, ◌==◌,
  str_eq, if◌then◌else◌, arith, Outcome, ok, inl, inr, sym, ap, ◌∙◌, Option-cases, Bool-cases, All,
  ◌≢◌,
}
use firebin_api.Base.Int.{ℤ, pos, ltb_ℤ, ◌+ℤ◌, zero-+ℤ, +ℤ_left_swap}
use firebin_api.Base.Compare.{and_then, is_lt}
use Prim.Native.Nat.{Ordering, compare}
use firebin_api.Stock.Model.{Db, StockItem, PartRow}
use firebin_api.Stock.Table.{find_part, find_location}
use firebin_api.Pick.Model.{StockLot, PickError}
use firebin_api.Pick.Allocate.{available}
use firebin_api.Pick.Allocate.Pulled.{AllPositive}
use firebin_api.Pick.Compute.{LotSource}

-- part_id = ANY($1)
unfoldable pub is_among : ℕ → List ℕ → Bool
is_among k [] = false
is_among k (j ∷ js) = k == j || is_among k js

-- The WHERE clause.
unfoldable pub is_usable : List ℕ → StockItem → Bool
unfolding is_among
is_usable ks x = is_among x.part_id ks && str_eq x.status "ok" && ltb_ℤ (pos 0) x.quantity

-- LEFT JOIN storage_locations
unfoldable pub joined_name : Db → Option ℕ → Option String
joined_name db none = none
joined_name db (some k) = elim (find_location k db.locations) [ none ↦ none | some l ↦ some l.name ]

unfoldable pub lot_of : Db → StockItem → PartRow → StockLot
unfolding joined_name
lot_of db x p = record {
  id = x.id;
  part_id = x.part_id;
  part_name = p.name;
  location_id = x.location_id;
  location_name = joined_name db x.location_id;
  quantity = x.quantity;
}

-- ORDER BY l.name NULLS LAST
unfoldable pub compare_names :
    (String → String → Ordering) → Option String → Option String → Ordering
compare_names collate none none = Ordering.eq
compare_names collate none (some b) = Ordering.gt
compare_names collate (some a) none = Ordering.lt
compare_names collate (some a) (some b) = collate a b

-- ORDER BY l.name NULLS LAST, s.added_at, on rows with their `added_at`.
unfoldable pub comes_first : (String → String → Ordering) → ℕ × StockLot → ℕ × StockLot → Bool
unfolding compare_names
comes_first collate (t, a) (u, b) =
    is_lt (and_then (compare_names collate a.location_name b.location_name) (compare t u))

unfoldable pub insert_row :
    (String → String → Ordering) → ℕ × StockLot → List (ℕ × StockLot) → List (ℕ × StockLot)
unfolding comes_first
insert_row collate r [] = r ∷ []
insert_row collate r (s ∷ ss) =
    let rest = insert_row collate r ss in if comes_first collate s r then s ∷ rest else r ∷ s ∷ ss

-- The rows of the query.
unfoldable pub rows_for :
    (String → String → Ordering) → List ℕ → Db → List StockItem → List (ℕ × StockLot)
unfolding insert_row is_usable lot_of
rows_for collate ks db [] = []
rows_for collate ks db (x ∷ xs) =
    let rest = rows_for collate ks db xs in
    if is_usable ks x
    then elim (find_part x.part_id db.parts) [
      | none ↦ rest
      | some p ↦ insert_row collate (x.added_at, lot_of db x p) rest
    ]
    else rest

unfoldable pub lots_in : List (ℕ × StockLot) → List StockLot
lots_in [] = []
lots_in ((t, l) ∷ rs) = l ∷ lots_in rs

-- With no parts the query is not run.
unfoldable pub stock_for_parts : (String → String → Ordering) → List ℕ → Db → List StockLot
unfolding rows_for lots_in
stock_for_parts collate [] db = []
stock_for_parts collate (k ∷ ks) db = lots_in (rows_for collate (k ∷ ks) db db.items)

-- What the usable lots of a part hold.
unfoldable pub usable : List ℕ → ℕ → List StockItem → ℤ
usable ks k [] = pos 0
usable ks k (x ∷ xs) =
    (if x.part_id == k && is_usable ks x then x.quantity else pos 0) +ℤ usable ks k xs
