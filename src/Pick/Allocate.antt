-- ===== src/Pick/Allocate.antt =====
-- The second loop of `Compute` in internal/picklist/picklist.go: stock is allocated lot by lot, in
-- the order of the lots.
pub mod Pulled
pub mod Shortfalls
pub mod Total
use firebin_api.Base.{
  ℕ, String, Bool, true, false, List, [], ◌∷◌, ◌++◌, Option, none, some, ◌≡◌, refl, ◌==◌,
  if◌then◌else◌, arith,
}
use firebin_api.Base.Int.{ℤ, pos, ◌+ℤ◌, ◌-ℤ◌, ltb_ℤ}
use firebin_api.Pick.Model.{StockLot, PickEntry, PickShortfall}
use firebin_api.Pick.Demand.{Need}

-- byPart[k]: the lots of a part, in their order.
unfoldable pub lots_of : ℕ → List StockLot → List StockLot
lots_of k [] = []
lots_of k (l ∷ ls) = let rest = lots_of k ls in if l.part_id == k then l ∷ rest else rest

-- available[k]
unfoldable pub available : ℕ → List StockLot → ℤ
available k [] = pos 0
available k (l ∷ ls) = (if l.part_id == k then l.quantity else pos 0) +ℤ available k ls

-- What the loop over the parts builds up.
pub record Picked : Type 0 where
  pub entries : List PickEntry
  pub shortfalls : List PickShortfall
  pub total : ℤ

unfoldable pub pull_of : ℤ → StockLot → ℤ
pull_of remaining l = if ltb_ℤ l.quantity remaining then l.quantity else remaining

unfoldable pub entry_of : ℕ → StockLot → ℤ → PickEntry
entry_of k l q = record {
  stock_item_id = l.id;
  part_id = k;
  part_name = l.part_name;
  location_id = l.location_id;
  location_name = elim l.location_name [ none ↦ "" | some n ↦ n ];
  quantity = q;
}

-- The loop over the lots of a part.
unfoldable pub allocate : ℕ → ℤ → Picked → List StockLot → Picked
unfolding pull_of entry_of
allocate k remaining p [] = p
allocate k remaining p (l ∷ ls) = elim (ltb_ℤ (pos 0) remaining) [
  | false ↦ p
  | true ↦
      allocate k (remaining -ℤ pull_of remaining l)
        (record p {
          entries = p.entries ++ (entry_of k l (pull_of remaining l) ∷ []);
          total = p.total +ℤ pull_of remaining l;
        })
        ls
]

unfoldable pub note_shortfall : Need → ℤ → Picked → Picked
note_shortfall n avail p =
    if ltb_ℤ avail n.required
    then record p {
      shortfalls =
          p.shortfalls
          ++ (record {
            part_id = n.part_id;
            part_name = n.part_name;
            required = n.required;
            available = avail;
            short = n.required -ℤ avail;
          }
              ∷ []);
    }
    else p

unfoldable pub pick_part : List StockLot → Picked → Need → Picked
unfolding allocate lots_of available note_shortfall
pick_part lots p n =
    note_shortfall n (available n.part_id lots)
      (allocate n.part_id n.required p (lots_of n.part_id lots))

unfoldable pub pick_parts : List StockLot → Picked → List Need → Picked
unfolding pick_part
pick_parts lots p [] = p
pick_parts lots p (n ∷ ns) = pick_parts lots (pick_part lots p n) ns
