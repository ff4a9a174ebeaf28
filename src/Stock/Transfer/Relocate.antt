-- ===== src/Stock/Transfer/Relocate.antt =====
-- `RelocateLot` carries a whole lot to a location.
use firebin_api.Base.{
  ℕ, true, Option, some, ◌≡◌, refl, arith, inl, inr, List, [], ◌∷◌, Bool-cases, Option-cases, ok,
  Outcome-cases,
}
use firebin_api.Base.Int.{pos, zero-+ℤ}
use firebin_api.Stock.Model.{StockItem, Transaction, Db, Env, ItemView, PartRow}
use firebin_api.Stock.Table.{find_item, set_location, location_exists, insert_transaction}
use firebin_api.Stock.Lookup.{
  quantity_of, quantity_of-some, quantity_of-set_location, set_location-IsUnique,
}
use firebin_api.Stock.Sums.{sum_where-set_location}
use firebin_api.Stock.Moved.{Moves}
use firebin_api.Stock.Ledger.{IsSound, HasParts, balance, last_result, insert_transaction-eq-ok}
use firebin_api.Stock.Views.{then_get_lem, then_get-IsSound}
use firebin_api.Stock.Transfer.{relocate_tx, relocate, relocate_row}

set_location-HasParts :
    (ps : List PartRow) (k : ℕ) (loc : Option ℕ) (xs : List StockItem)
    → HasParts ps xs
    → HasParts ps (set_location k loc xs)
unfolding set_location
set_location-HasParts ps k loc [] h = tt
set_location-HasParts ps k loc (x ∷ xs) h = ground (arith, set_location-HasParts ps k loc xs h.1)

-- A lot that changes its place, with a movement of nothing in its log.
carried-IsSound :
    (db : Db) (t : Transaction) (x : StockItem) (to : Option ℕ)
    → IsSound db
    → find_item t.stock_item_id db.items ≡ some x
    → t.delta ≡ pos 0
    → t.resulting_quantity ≡ x.quantity
    → IsSound (record db {
      items = set_location t.stock_item_id to db.items;
      transactions = t ∷ db.transactions;
    })
unfolding balance last_result
carried-IsSound db t x to s f d r = record {
  unique = set_location-IsUnique t.stock_item_id to db.items s.unique;
  balanced = λ k. ground (
    arith,
    quantity_of-set_location t.stock_item_id to k db.items,
    s.balanced k,
    zero-+ℤ (balance k db.transactions),
  );
  current = λ k. ground (
    arith,
    quantity_of-set_location t.stock_item_id to k db.items,
    s.current k,
    quantity_of-some t.stock_item_id db.items x f,
  );
  known = set_location-HasParts db.parts t.stock_item_id to db.items s.known;
}

find_item-set_location :
    (k : ℕ) (to : Option ℕ) (xs : List StockItem) (x : StockItem)
    → find_item k xs ≡ some x
    → find_item k (set_location k to xs) ≡ some (record x { location_id = to })
unfolding find_item set_location
find_item-set_location k to [] x h = cc
find_item-set_location k to (y ∷ xs) x h = ground (arith, find_item-set_location k to xs x)

relocate_tx-eq-ok :
    (env : Env) (db : Db) (lot : ℕ) (to user : Option ℕ) (k : ℕ) (db' : Db)
    → relocate_tx env db lot to user ≡ ok (k, db')
    → (x : StockItem) × (find_item lot db.items ≡ some x)
      × (location_exists to db.locations ≡ true)
      × (insert_transaction
            (record db { items = set_location lot to db.items })
            (relocate_row env lot x to user)
          ≡ ok db')
      × (lot ≡ k)
unfolding relocate_tx
relocate_tx-eq-ok env db lot to user k db' h = elim (Option-cases (find_item lot db.items)) [
  | inl e₁ ↦ absurd (ground arith)
  | inr (x, e₁) ↦ elim (Bool-cases (location_exists to db.locations)) [
    | inr e₂ ↦ absurd (ground arith)
    | inl e₂ ↦
        elim (Outcome-cases (
          insert_transaction (record db { items = set_location lot to db.items })
            (relocate_row env lot x to user))) [
              | inr (_, e₃) ↦ absurd (ground arith)
              | inl (db₁, e₃) ↦ (x, e₁, e₂, ground arith, ground arith)
            ]
  ]
]

-- The lot stands at the location, with all else as it was.
record Carried (db : Db) (lot : ℕ) (to : Option ℕ) (x : StockItem) (db' : Db) : Type 0 where
  pub sound : IsSound db'
  pub found : find_item lot db.items ≡ some x
  pub placed : find_item lot db'.items ≡ some (record x { location_id = to })
  pub quantities : (j : ℕ) → quantity_of j db'.items ≡ quantity_of j db.items
  pub moved : Moves db db' x.part_id x.location_id to x.quantity

relocate_tx-Carried :
    (env : Env) (db : Db) (lot : ℕ) (to user : Option ℕ) (k : ℕ) (db' : Db)
    → IsSound db
    → relocate_tx env db lot to user ≡ ok (k, db')
    → (x : StockItem) × (lot ≡ k) × Carried db lot to x db'
relocate_tx-Carried env db lot to user k db' s h =
    let (x, found, _, logged, same) = relocate_tx-eq-ok env db lot to user k db' h in
    (
      x,
      same,
      rw (← insert_transaction-eq-ok _ (relocate_row env lot x to user) logged) (record {
        sound =
            unfold relocate_row in
            carried-IsSound db (relocate_row env lot x to user) x to s found refl refl;
        found = found;
        placed = find_item-set_location lot to db.items x found;
        quantities = λ j. quantity_of-set_location lot to j db.items;
        moved = λ sel. sum_where-set_location sel lot to db.items x s.unique found;
      }),
    )

relocate_tx_good :
    (env : Env) (db : Db) (lot : ℕ) (to user : Option ℕ)
    → IsSound db
    → (k : ℕ) (db' : Db) → relocate_tx env db lot to user ≡ ok (k, db')
    → IsSound db' × (x : StockItem) × (find_item k db'.items ≡ some x)
relocate_tx_good env db lot to user s k db' h =
    let (x, same, c) = relocate_tx-Carried env db lot to user k db' s h in
    (c.sound, record x { location_id = to }, rw (← same) c.placed)

pub relocate-IsSound :
    (env : Env) (db : Db) (lot : ℕ) (to user : Option ℕ)
    → IsSound db
    → IsSound (relocate env db lot to user).1
unfolding relocate
relocate-IsSound env db lot to user s =
    then_get-IsSound db _ s (λ k db' h. (relocate_tx_good env db lot to user s k db' h).0)

-- On tables where the lots and their log agree: `RelocateLot` that succeeds returns the lot at its
-- new location and otherwise as it was (its quantity, barcode, name), keeps every lot's quantity,
-- and moves the lot's quantity from its old location to the new one in every sum over lots.
pub relocate_lem :
    (env : Env) (db : Db) (lot : ℕ) (to user : Option ℕ) (v : ItemView) (db' : Db)
    → IsSound db
    → relocate env db lot to user ≡ (ok v, db')
    → (x : StockItem) × (find_item lot db.items ≡ some x)
      × (v.item ≡ record x { location_id = to })
      × ((j : ℕ) → quantity_of j db'.items ≡ quantity_of j db.items)
      × Moves db db' x.part_id x.location_id to x.quantity
unfolding relocate
relocate_lem env db lot to user v db' s h =
    let (k, done, shown) =
      (then_get_lem db (relocate_tx env db lot to user) (relocate_tx_good env db lot to user s)).0 v
        db' h in
    let (x, same, c) = relocate_tx-Carried env db lot to user k db' s done in
    (x, c.found, cc (c.placed, shown, same), c.quantities, c.moved)
