-- ===== src/Stock/Feed/Examples.antt =====
-- A small feed: a move of two rows and a receipt.
use firebin_api.Stock.Feed.{
  collapse_moves, FeedRow, collapse, move_key, find_seen, change_at, fold_in, magnitude, lacks,
}
use firebin_api.Base.{ℕ, String, List, [], ◌∷◌, Option, none, some, ◌≡◌, refl, ◌≤◌, length, take}
use firebin_api.Base.Int.{ℤ, pos, negsuc, ◌-ℤ◌}
use firebin_api.Stock.Feed.Correct.{others}
use firebin_api.Stock.Feed.Keys.{keys, Distinct, collapse_moves_lem}

abbrev movement : ℕ → String → ℤ → Option String → FeedRow
movement k kind d from = record {
  id = k;
  stock_item_id = k;
  part_id = some 1;
  kind = kind;
  delta = d;
  resulting_quantity = pos 0;
  from_location_id = none;
  from_location_name = from;
  to_location_id = none;
  to_location_name = none;
  created_at = 9;
}

abbrev raw : List FeedRow
raw =
    movement 3 "move" (negsuc 19) (some "A1")
    ∷ movement 2 "add" (pos 5) none
    ∷ movement 1 "move" (pos 20) none
    ∷ []

one_row_each :
    collapse_moves raw 5
    ≡ movement 3 "move" (pos 20) (some "A1") ∷ movement 2 "add" (pos 5) none ∷ []
unfolding collapse_moves collapse move_key find_seen change_at fold_in magnitude lacks ◌-ℤ◌
one_row_each = refl

collapse_moves_lem_example :
    (length (collapse_moves raw 5) ≤ 5)
    × ((full : List FeedRow) × (collapse_moves raw 5 ≡ take 5 full)
        × (others full ≡ others raw)
        × Distinct (keys full))
collapse_moves_lem_example = collapse_moves_lem raw 5
