-- ===== src/Stock/Steps.antt =====
-- What a successful statement or lookup of a method says of the tables before and after it.
use firebin_api.Base.{
  ℕ, Bool, true, false, ◌∷◌, Option, none, some, ◌≡◌, ◌≢◌, refl, arith, ◌==◌, if◌then◌else◌, inl,
  inr, Outcome, ok, err, Option-cases, ◌⊎◌,
}
use firebin_api.Base.Int.{ℤ, ◌+ℤ◌, ◌-ℤ◌, zero-+ℤ}
use firebin_api.Stock.Model.{StockItem, Transaction, Db, Env, StockError}
use firebin_api.Stock.Table.{find_item, find_part, set_quantity, earliest, insert_item, sum_where}
use firebin_api.Stock.Tx.{commit, or_fail, check, empty_lot, find_or_create, record_change}
use firebin_api.Stock.Lookup.{
  quantity_of, quantity_of-none, find_item-set_quantity, quantity_of-set_quantity,
  find_item_ne-set_quantity,
}
use firebin_api.Stock.Earliest.{earliest_matches, find_item-earliest}
use firebin_api.Stock.Sums.{weight, sum_where-set_quantity}
use firebin_api.Stock.Ledger.{
  IsSound, insert_item-eq-ok, insert_transaction-eq-ok, insert_empty-IsSound, record_change-IsSound,
}

pub commit-eq-ok :
    {A : Type 0} (db : Db) (m : Outcome StockError (A × Db)) {a : A} {db' : Db}
    → commit db m ≡ (ok a, db')
    → m ≡ ok (a, db')
commit-eq-ok db (ok (a, db')) h = ground arith
commit-eq-ok db (err e) h = cc

pub or_fail-eq-ok :
    {A : Type 0} (o : Option A) (e : StockError) {a : A} → or_fail o e ≡ ok a → o ≡ some a
or_fail-eq-ok none e h = cc
or_fail-eq-ok (some a) e h = cc

pub check-eq-ok :
    {A : Type 0} (b : Bool) (e : StockError) (m : Outcome StockError A) {a : A}
    → check b e m ≡ ok a
    → (b ≡ false) × (m ≡ ok a)
check-eq-ok true e m h = cc
check-eq-ok false e m h = (refl, h)

-- The lot of a part at a location is at hand: found, or made with nothing in it.
pub record IsAtHand (db : Db) (part : ℕ) (loc : Option ℕ) (x : StockItem) (db' : Db) : Type 0 where
  pub sound : IsSound db'
  pub found : find_item x.id db'.items ≡ some x
  pub of_part : x.part_id ≡ part
  pub at_location : x.location_id ≡ loc
  pub sums : (sel : ℕ → Option ℕ → Bool) → sum_where sel db'.items ≡ sum_where sel db.items
  pub quantities : (k : ℕ) → quantity_of k db'.items ≡ quantity_of k db.items
  pub rows : (db'.items ≡ db.items) ⊎ (db'.items ≡ x ∷ db.items)
  pub log_kept : db'.transactions ≡ db.transactions
  pub parts_kept : db'.parts ≡ db.parts
  pub locations_kept : db'.locations ≡ db.locations

found-IsAtHand :
    (db : Db) (part : ℕ) (loc : Option ℕ) (x : StockItem)
    → IsSound db
    → earliest part loc db.items ≡ some x
    → IsAtHand db part loc x db
found-IsAtHand db part loc x s e = record {
  sound = s;
  found = find_item-earliest part loc db.items x s.unique e;
  of_part = (earliest_matches part loc db.items x e).0;
  at_location = (earliest_matches part loc db.items x e).1;
  sums = λ sel. refl;
  quantities = λ k. refl;
  rows = inl refl;
  log_kept = refl;
  parts_kept = refl;
  locations_kept = refl;
}

created-IsAtHand :
    (env : Env) (db : Db) (part : ℕ) (loc supplier : Option ℕ)
    → IsSound db
    → find_item env.fresh_id db.items ≡ none
    → find_part part db.parts ≢ none
    → IsAtHand db part loc
        (empty_lot env part loc supplier)
        (record db { items = empty_lot env part loc supplier ∷ db.items })
unfolding empty_lot find_item sum_where quantity_of
created-IsAtHand env db part loc supplier s f p = record {
  sound = insert_empty-IsSound db _ s f p refl;
  found = ground arith;
  of_part = refl;
  at_location = refl;
  sums = λ sel. ground (arith, zero-+ℤ (sum_where sel db.items));
  quantities = λ k. ground (arith, quantity_of-none env.fresh_id db.items f);
  rows = inr refl;
  log_kept = refl;
  parts_kept = refl;
  locations_kept = refl;
}

find_or_create_old :
    (env : Env) (db : Db) (part : ℕ) (loc supplier : Option ℕ) (x y : StockItem) (db' : Db)
    → earliest part loc db.items ≡ some y
    → find_or_create env db part loc supplier ≡ ok (x, db')
    → (y ≡ x) × (db ≡ db')
unfolding find_or_create
find_or_create_old env db part loc supplier x y db' e h = ground arith

find_or_create_new :
    (env : Env) (db : Db) (part : ℕ) (loc supplier : Option ℕ) (x : StockItem) (db' : Db)
    → earliest part loc db.items ≡ none
    → find_or_create env db part loc supplier ≡ ok (x, db')
    → (insert_item db (empty_lot env part loc supplier) ≡ ok db')
      × (empty_lot env part loc supplier ≡ x)
unfolding find_or_create
find_or_create_new env db part loc supplier x db' e h = ground arith

empty_lot_fields :
    (env : Env) (part : ℕ) (loc supplier : Option ℕ)
    → ((empty_lot env part loc supplier).id ≡ env.fresh_id)
      × ((empty_lot env part loc supplier).part_id ≡ part)
unfolding empty_lot
empty_lot_fields env part loc supplier = (refl, refl)

pub find_or_create-IsAtHand :
    (env : Env) (db : Db) (part : ℕ) (loc supplier : Option ℕ) (x : StockItem) (db' : Db)
    → IsSound db
    → find_or_create env db part loc supplier ≡ ok (x, db')
    → IsAtHand db part loc x db'
find_or_create-IsAtHand env db part loc supplier x db' s h =
    elim (Option-cases (earliest part loc db.items)) [
      | inl e ↦
          let (inserted, same) = find_or_create_new env db part loc supplier x db' e h in
          let (tables, fresh, known) = insert_item-eq-ok db _ inserted in
          rw (← same, ← tables)
            (created-IsAtHand env db part loc supplier s (unfold empty_lot in fresh)
              (unfold empty_lot in known))
      | inr (y, e) ↦
          let (same, tables) = find_or_create_old env db part loc supplier x y db' e h in
          rw (← same, ← tables) (found-IsAtHand db part loc y s e)
    ]

-- What `record_change` leaves.
pub record Changed (db : Db) (q : ℤ) (t : Transaction) (x : StockItem) (db' : Db) : Type 0 where
  pub sound : IsSound db'
  pub found : find_item t.stock_item_id db'.items ≡ some (record x { quantity = q })
  pub sums :
      (sel : ℕ → Option ℕ → Bool)
      → sum_where sel db'.items +ℤ weight sel x.part_id x.location_id x.quantity
        ≡ sum_where sel db.items +ℤ weight sel x.part_id x.location_id q
  pub quantities :
      (j : ℕ)
      → quantity_of j db'.items ≡ (if j == t.stock_item_id then q else quantity_of j db.items)
  pub other_rows : (j : ℕ) → j ≢ t.stock_item_id → find_item j db'.items ≡ find_item j db.items
  pub tables :
      record db {
        items = set_quantity t.stock_item_id q db.items;
        transactions = t ∷ db.transactions;
      }
      ≡ db'

Changed-now :
    (db : Db) (q : ℤ) (t : Transaction) (x : StockItem)
    → IsSound db
    → find_item t.stock_item_id db.items ≡ some x
    → t.delta ≡ q -ℤ x.quantity
    → t.resulting_quantity ≡ q
    → Changed db q t x (record db {
      items = set_quantity t.stock_item_id q db.items;
      transactions = t ∷ db.transactions;
    })
Changed-now db q t x s f d r = record {
  sound = record_change-IsSound db q t x s f d r;
  found = ground (arith, find_item-set_quantity t.stock_item_id q t.stock_item_id db.items x f);
  sums = λ sel. sum_where-set_quantity sel t.stock_item_id q db.items x s.unique f;
  quantities = λ j. quantity_of-set_quantity t.stock_item_id q j db.items x f;
  other_rows = λ j n. find_item_ne-set_quantity t.stock_item_id j q db.items n;
  tables = refl;
}

pub record_change-Changed :
    (db : Db) (q : ℤ) (t : Transaction) (x : StockItem) (db' : Db)
    → IsSound db
    → find_item t.stock_item_id db.items ≡ some x
    → t.delta ≡ q -ℤ x.quantity
    → t.resulting_quantity ≡ q
    → record_change db q t ≡ ok db'
    → Changed db q t x db'
unfolding record_change
record_change-Changed db q t x db' s f d r h =
    rw (← insert_transaction-eq-ok _ t h) (Changed-now db q t x s f d r)
