-- ===== src/Stock/Earliest.antt =====
-- What the lookup of a part's lot at a location returns.
use firebin_api.Base.{ℕ, true, List, [], ◌∷◌, Option, none, some, ◌≡◌, refl, arith}
use firebin_api.Stock.Model.{StockItem}
use firebin_api.Stock.Table.{find_item, earliest, same_location}
use firebin_api.Stock.Lookup.{IsUnique, none-of-Fresh}

pub same_location-eq : (a b : Option ℕ) → same_location a b ≡ true → a ≡ b
unfolding same_location
same_location-eq none none h = refl
same_location-eq none (some b) h = cc
same_location-eq (some a) none h = cc
same_location-eq (some a) (some b) h = ground arith

module _ (part : ℕ) (loc : Option ℕ) where
  -- The lot found is a lot of that part at that location.
  pub earliest_matches :
      (xs : List StockItem) (x : StockItem)
      → earliest part loc xs ≡ some x
      → (x.part_id ≡ part) × (x.location_id ≡ loc)
  unfolding earliest
  earliest_matches [] x h = cc
  earliest_matches (y ∷ xs) x h =
      ground (arith, earliest_matches xs x, same_location-eq y.location_id loc)

  -- It is a row of the table.
  pub find_item-earliest :
      (xs : List StockItem) (x : StockItem)
      → IsUnique xs
      → earliest part loc xs ≡ some x
      → find_item x.id xs ≡ some x
  unfolding earliest find_item
  find_item-earliest [] x u h = cc
  find_item-earliest (y ∷ xs) x u h =
      ground (arith, find_item-earliest xs x, none-of-Fresh y.id xs u.0)
