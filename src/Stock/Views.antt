-- ===== src/Stock/Views.antt =====
-- `getItem` after a commit, and what clearing `reference_only` leaves alone.
use firebin_api.Base.{
  ℕ, List, [], ◌∷◌, none, some, ◌≡◌, ◌≢◌, refl, arith, ◌==◌, Bool-cases, inl, inr, Outcome, ok, err,
  Option-cases,
}
use firebin_api.Stock.Model.{StockItem, PartRow, Db, StockError, ItemView}
use firebin_api.Stock.Table.{find_item, find_part, find_location, clear_reference}
use firebin_api.Stock.Tx.{commit, get_item, then_get}
use firebin_api.Stock.Ledger.{IsSound, HasParts}

find_part-ne-none :
    (ps : List PartRow) (k : ℕ) (xs : List StockItem) (x : StockItem)
    → HasParts ps xs
    → find_item k xs ≡ some x
    → find_part x.part_id ps ≢ none
unfolding find_item
find_part-ne-none ps k [] x h e = cc
find_part-ne-none ps k (y ∷ xs) x h e = elim (Bool-cases (y.id == k)) [
  | inl hit ↦ let same : y ≡ x = ground arith in rw (← same) h.0
  | inr miss ↦ find_part-ne-none ps k xs x h.1 (ground arith)
]

-- A lot that the table holds is returned with its names.
pub get_item-eq-ok :
    (k : ℕ) (db : Db) (x : StockItem)
    → IsSound db
    → find_item k db.items ≡ some x
    → (v : ItemView) × (get_item k db ≡ ok v) × (v.item ≡ x)
get_item-eq-ok k db x s f = elim (Option-cases (find_part x.part_id db.parts)) [
  | inl gone ↦ absurd (find_part-ne-none db.parts k db.items x s.known f gone)
  | inr (p, e) ↦ (
    record {
      item = x;
      part_name = p.name;
      location_name = elim x.location_id [
        | none ↦ none
        | some l ↦ elim (find_location l db.locations) [ none ↦ none | some loc ↦ some loc.name ]
      ];
    },
    unfold get_item in ground arith,
    refl,
  )
]

-- A view that is returned shows the row that the table holds.
pub item-get_item :
    (k : ℕ) (db : Db) (v : ItemView) → get_item k db ≡ ok v → find_item k db.items ≡ some v.item
unfolding get_item
item-get_item k db v h = ground arith

pub find_part-clear_reference :
    (k j : ℕ) (ps : List PartRow)
    → find_part j ps ≢ none
    → find_part j (clear_reference k ps) ≢ none
unfolding find_part clear_reference
find_part-clear_reference k j [] h = h
find_part-clear_reference k j (p ∷ ps) h = ground (arith, find_part-clear_reference k j ps)

HasParts-clear_reference :
    (k : ℕ) (ps : List PartRow) (xs : List StockItem)
    → HasParts ps xs
    → HasParts (clear_reference k ps) xs
HasParts-clear_reference k ps [] h = tt
HasParts-clear_reference k ps (x ∷ xs) h =
    (find_part-clear_reference k x.part_id ps h.0, HasParts-clear_reference k ps xs h.1)

pub clear_reference-IsSound :
    (k : ℕ) (db : Db) → IsSound db → IsSound (record db { parts = clear_reference k db.parts })
clear_reference-IsSound k db s = record {
  unique = s.unique;
  balanced = s.balanced;
  current = s.current;
  known = HasParts-clear_reference k db.parts db.items s.known;
}

-- `then_get` fails only where the transaction did, and then the tables are the old ones.
pub then_get_lem :
    (db : Db) (m : Outcome StockError (ℕ × Db))
    → ((k : ℕ) (db' : Db)
        → m ≡ ok (k, db')
        → IsSound db' × (x : StockItem) × (find_item k db'.items ≡ some x))
    → ((v : ItemView) (db' : Db)
        → then_get (commit db m) ≡ (ok v, db')
        → (k : ℕ) × (m ≡ ok (k, db')) × (find_item k db'.items ≡ some v.item))
      × ((e : StockError) (db' : Db)
          → then_get (commit db m) ≡ (err e, db')
          → (m ≡ err e) × (db ≡ db'))
unfolding then_get
then_get_lem db (err e) good = (λ v db' h. cc, λ e' db' h. ground arith)
then_get_lem db (ok (k, db₁)) good =
    let (s, x, f) = good k db₁ refl in
    let (v, shown, same) = get_item-eq-ok k db₁ x s f in
    (
      λ v' db' h.
          let tables : db₁ ≡ db' = ground arith in
          (k, ground arith, rw (← tables) (item-get_item k db₁ v' (ground arith))),
      λ e db' h. cc (shown, h),
    )

-- A method that ends in `getItem` keeps the invariant, whatever it replies.
pub then_get-IsSound :
    (db : Db) (m : Outcome StockError (ℕ × Db))
    → IsSound db
    → ((k : ℕ) (db' : Db) → m ≡ ok (k, db') → IsSound db')
    → IsSound (then_get (commit db m)).1
unfolding then_get
then_get-IsSound db (err e) s good = s
then_get-IsSound db (ok (k, db')) s good = good k db' refl

-- So does a method that replies what its transaction replies.
pub commit-IsSound :
    {A : Type 0} (db : Db) (m : Outcome StockError (A × Db))
    → IsSound db
    → ((a : A) (db' : Db) → m ≡ ok (a, db') → IsSound db')
    → IsSound (commit db m).1
commit-IsSound db (err e) s good = s
commit-IsSound db (ok (a, db')) s good = good a db' refl
