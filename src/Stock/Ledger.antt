-- ===== src/Stock/Ledger.antt =====
-- The movement log against the lots: the invariant that each method of internal/repository/stock.go
-- keeps, and the statements that change a quantity and its log together.
use firebin_api.Base.{ℕ, List, [], ◌∷◌, none, some, ◌≡◌, ◌≢◌, arith, ◌==◌, if◌then◌else◌, ok, All}
use firebin_api.Base.Int.{ℤ, pos, ◌+ℤ◌, ◌-ℤ◌, int_laws, zero-+ℤ, +ℤ_zero}
use firebin_api.Stock.Model.{StockItem, Transaction, PartRow, Db}
use firebin_api.Stock.Table.{
  find_item, find_part, set_quantity, insert_item, insert_transaction, without_transactions,
  delete_item, forget_source, without_item,
}
use firebin_api.Stock.Lookup.{
  IsUnique, quantity_of, Fresh-of-none, quantity_of-none, quantity_of-some,
  quantity_of-set_quantity, set_quantity-IsUnique, forget_source-IsUnique, without_item-IsUnique,
  quantity_of-forget_source, quantity_of-without_item,
}

-- The sum of the movements of a lot.
unfoldable pub balance : ℕ → List Transaction → ℤ
balance k [] = pos 0
balance k (t ∷ ts) = (if t.stock_item_id == k then t.delta else pos 0) +ℤ balance k ts

-- What the newest movement of a lot says that it holds.
unfoldable pub last_result : ℕ → List Transaction → ℤ
last_result k [] = pos 0
last_result k (t ∷ ts) = if t.stock_item_id == k then t.resulting_quantity else last_result k ts

-- Every lot is of a known part.
abbrev pub HasParts : List PartRow → List StockItem → Type 0
HasParts ps = All (λ x. find_part x.part_id ps ≢ none)

pub record IsSound (db : Db) : Type 0 where
  pub unique : IsUnique db.items
  pub balanced : (k : ℕ) → balance k db.transactions ≡ quantity_of k db.items
  pub current : (k : ℕ) → last_result k db.transactions ≡ quantity_of k db.items
  pub known : HasParts db.parts db.items

pub insert_transaction-eq-ok :
    (db : Db) (t : Transaction) {db' : Db}
    → insert_transaction db t ≡ ok db'
    → record db { transactions = t ∷ db.transactions } ≡ db'
unfolding insert_transaction
insert_transaction-eq-ok db t h = ground arith

pub insert_item-eq-ok :
    (db : Db) (x : StockItem) {db' : Db}
    → insert_item db x ≡ ok db'
    → (record db { items = x ∷ db.items } ≡ db')
      × (find_item x.id db.items ≡ none)
      × (find_part x.part_id db.parts ≢ none)
unfolding insert_item
insert_item-eq-ok db x h = ground arith

balance-change : (d q old bal : ℤ) → d ≡ q -ℤ old → bal ≡ old → d +ℤ bal ≡ q
balance-change d q old bal h e = rw (h, e) (omega int_laws)

module _ (ps : List PartRow) where
  set_quantity-HasParts :
      (k : ℕ) (q : ℤ) (xs : List StockItem) → HasParts ps xs → HasParts ps (set_quantity k q xs)
  unfolding set_quantity
  set_quantity-HasParts k q [] h = tt
  set_quantity-HasParts k q (x ∷ xs) h = ground (arith, set_quantity-HasParts k q xs h.1)

-- A quantity that is changed with its movement row keeps the log right.
pub record_change-IsSound :
    (db : Db) (q : ℤ) (t : Transaction) (x : StockItem)
    → IsSound db
    → find_item t.stock_item_id db.items ≡ some x
    → t.delta ≡ q -ℤ x.quantity
    → t.resulting_quantity ≡ q
    → IsSound (record db {
      items = set_quantity t.stock_item_id q db.items;
      transactions = t ∷ db.transactions;
    })
unfolding balance last_result
record_change-IsSound db q t x s f d r = record {
  unique = set_quantity-IsUnique t.stock_item_id q db.items s.unique;
  balanced = λ k. ground (
    arith,
    quantity_of-set_quantity t.stock_item_id q k db.items x f,
    s.balanced k,
    quantity_of-some t.stock_item_id db.items x f,
    balance-change t.delta q x.quantity (balance k db.transactions) d,
    zero-+ℤ (balance k db.transactions),
  );
  current =
      λ k. ground (arith, quantity_of-set_quantity t.stock_item_id q k db.items x f, s.current k);
  known = set_quantity-HasParts db.parts t.stock_item_id q db.items s.known;
}

-- A new lot that holds nothing needs no movement row.
pub insert_empty-IsSound :
    (db : Db) (x : StockItem)
    → IsSound db
    → find_item x.id db.items ≡ none
    → find_part x.part_id db.parts ≢ none
    → x.quantity ≡ pos 0
    → IsSound (record db { items = x ∷ db.items })
unfolding quantity_of
insert_empty-IsSound db x s f p z = record {
  unique = (Fresh-of-none x.id db.items f, s.unique);
  balanced = λ k. ground (arith, s.balanced k, quantity_of-none x.id db.items f);
  current = λ k. ground (arith, s.current k, quantity_of-none x.id db.items f);
  known = (p, s.known);
}

-- A new lot and its first movement row.
pub insert_filled-IsSound :
    (db : Db) (x : StockItem) (t : Transaction)
    → IsSound db
    → find_item x.id db.items ≡ none
    → find_part x.part_id db.parts ≢ none
    → t.stock_item_id ≡ x.id
    → t.delta ≡ x.quantity
    → t.resulting_quantity ≡ x.quantity
    → IsSound (record db { items = x ∷ db.items; transactions = t ∷ db.transactions })
unfolding quantity_of balance last_result
insert_filled-IsSound db x t s f p i d r = record {
  unique = (Fresh-of-none x.id db.items f, s.unique);
  balanced = λ k. ground (
    arith,
    s.balanced k,
    quantity_of-none x.id db.items f,
    zero-+ℤ (balance k db.transactions),
    +ℤ_zero t.delta,
  );
  current = λ k. ground (arith, s.current k, quantity_of-none x.id db.items f);
  known = (p, s.known);
}

balance-without_transactions :
    (j k : ℕ) (ts : List Transaction)
    → balance k (without_transactions j ts) ≡ (if k == j then pos 0 else balance k ts)
unfolding balance without_transactions
balance-without_transactions j k [] = ground arith
balance-without_transactions j k (t ∷ ts) =
    ground (arith, balance-without_transactions j k ts, zero-+ℤ (balance k ts), zero-+ℤ (pos 0))

last_result-without_transactions :
    (j k : ℕ) (ts : List Transaction)
    → last_result k (without_transactions j ts) ≡ (if k == j then pos 0 else last_result k ts)
unfolding last_result without_transactions
last_result-without_transactions j k [] = ground arith
last_result-without_transactions j k (t ∷ ts) =
    ground (arith, last_result-without_transactions j k ts)

module _ (ps : List PartRow) (k : ℕ) where
  without_item-HasParts : (xs : List StockItem) → HasParts ps xs → HasParts ps (without_item k xs)
  unfolding without_item
  without_item-HasParts [] h = tt
  without_item-HasParts (x ∷ xs) h = ground (arith, without_item-HasParts xs h.1)

  forget_source-HasParts : (xs : List StockItem) → HasParts ps xs → HasParts ps (forget_source k xs)
  unfolding forget_source
  forget_source-HasParts [] h = tt
  forget_source-HasParts (x ∷ xs) h = ground (arith, forget_source-HasParts xs h.1)

pub delete_item-IsSound : (k : ℕ) (db : Db) → IsSound db → IsSound (delete_item k db)
unfolding delete_item
delete_item-IsSound k db s = record {
  unique = forget_source-IsUnique k _ (without_item-IsUnique k db.items s.unique);
  balanced = λ j. ground (
    arith,
    balance-without_transactions k j db.transactions,
    quantity_of-forget_source k j (without_item k db.items),
    quantity_of-without_item k j db.items,
    s.balanced j,
  );
  current = λ j. ground (
    arith,
    last_result-without_transactions k j db.transactions,
    quantity_of-forget_source k j (without_item k db.items),
    quantity_of-without_item k j db.items,
    s.current j,
  );
  known = forget_source-HasParts db.parts k _ (without_item-HasParts db.parts k db.items s.known);
}
