-- ===== src/Stock/Transfer/Emptied.antt =====
-- The loop of `MovePartToLocation` empties the source lots and adds up what they held.
use firebin_api.Base.{
  ℕ, Bool, true, false, Option, none, some, ◌≡◌, refl, sym, ◌∙◌, arith, List, [], ◌∷◌,
  if◌then◌else◌, ok, >>=-eq-ok,
}
use firebin_api.Base.Int.{ℤ, pos, ◌+ℤ◌, ◌-ℤ◌, int_laws, parts_of_eq, +ℤ_assoc, +ℤ_zero}
use firebin_api.Stock.Model.{StockItem, Transaction, Db, Env}
use firebin_api.Stock.Table.{find_item, sum_where}
use firebin_api.Stock.Tx.{record_change}
use firebin_api.Stock.Lookup.{Fresh, IsUnique, none-of-Fresh}
use firebin_api.Stock.Ledger.{IsSound}
use firebin_api.Stock.Steps.{Changed, record_change-Changed}
use firebin_api.Stock.Transfer.{bulk_row, empty_sources}

abbrev everything : ℕ → Option ℕ → Bool
everything p l = true

-- Each lot of the list stands in the table as it is.
abbrev pub Stand : List StockItem → List StockItem → Type 0
Stand xs ss = (j : ℕ) (s : StockItem) → find_item j ss ≡ some s → find_item j xs ≡ some s

-- What the loop leaves.
pub record Emptied (db : Db) (ss : List StockItem) (moved total : ℤ) (db' : Db) : Type 0 where
  pub sound : IsSound db'
  pub total_is : total ≡ moved +ℤ sum_where (λ p l. true) ss
  pub sums :
      (sel : ℕ → Option ℕ → Bool)
      → sum_where sel db'.items +ℤ sum_where sel ss ≡ sum_where sel db.items
  pub others : (j : ℕ) → find_item j ss ≡ none → find_item j db'.items ≡ find_item j db.items
  pub emptied :
      (j : ℕ) (s : StockItem)
      → find_item j ss ≡ some s
      → find_item j db'.items ≡ some (record s { quantity = pos 0 })

empty_nothing : (db : Db) (moved : ℤ) → IsSound db → Emptied db [] moved moved db
unfolding sum_where find_item
empty_nothing db moved s = record {
  sound = s;
  total_is = sym (+ℤ_zero moved);
  sums = λ sel. +ℤ_zero (sum_where sel db.items);
  others = λ j e. refl;
  emptied = λ j x e. cc;
}

peel :
    (b : Bool) (s₀ s₁ s₂ rest q : ℤ)
    → s₁ +ℤ (if b then q else pos 0) ≡ s₀ +ℤ (if b then pos 0 else pos 0)
    → s₂ +ℤ rest ≡ s₁
    → s₂ +ℤ ((if b then q else pos 0) +ℤ rest) ≡ s₀
peel true s₀ s₁ s₂ rest q h k = omega (int_laws, parts_of_eq h, parts_of_eq k)
peel false s₀ s₁ s₂ rest q h k = omega (int_laws, parts_of_eq h, parts_of_eq k)

empty_one :
    (db db₁ db' : Db) (t : Transaction) (s : StockItem) (ss : List StockItem) (moved total : ℤ)
    → Fresh s.id ss
    → t.stock_item_id ≡ s.id
    → find_item s.id db.items ≡ some s
    → Changed db (pos 0) t s db₁
    → Emptied db₁ ss (moved +ℤ s.quantity) total db'
    → Emptied db (s ∷ ss) moved total db'
unfolding find_item sum_where
empty_one db db₁ db' t s ss moved total fresh names stands c e = record {
  sound = e.sound;
  total_is = e.total_is ∙ +ℤ_assoc moved s.quantity (sum_where (λ p l. true) ss);
  sums = λ sel.
      peel (sel s.part_id s.location_id) (sum_where sel db.items) (sum_where sel db₁.items)
        (sum_where sel db'.items) (sum_where sel ss) s.quantity (c.sums sel) (e.sums sel);
  others = λ j n. ground (arith, e.others j, c.other_rows j);
  emptied =
      λ j x f. ground (arith, e.others j, e.emptied j x, none-of-Fresh s.id ss fresh, c.found);
}

still-Stand :
    (db db₁ : Db) (t : Transaction) (s : StockItem) (ss : List StockItem)
    → Fresh s.id ss
    → t.stock_item_id ≡ s.id
    → Stand db.items (s ∷ ss)
    → Changed db (pos 0) t s db₁
    → Stand db₁.items ss
unfolding find_item
still-Stand db db₁ t s ss fresh names st c j x f =
    ground (arith, st j x, c.other_rows j, none-of-Fresh s.id ss fresh)

empty_sources-eq-ok :
    (env : Env) (to user : Option ℕ) (db : Db) (moved : ℤ) (s : StockItem) (ss : List StockItem)
    (total : ℤ) (db' : Db)
    → empty_sources env to user db moved (s ∷ ss) ≡ ok (total, db')
    → (db₁ : Db) × (record_change db
          (pos 0)
          (bulk_row env user s.id (pos 0 -ℤ s.quantity) (pos 0) s.location_id to)
        ≡ ok db₁)
      × (empty_sources env to user db₁ (moved +ℤ s.quantity) ss ≡ ok (total, db'))
unfolding empty_sources
empty_sources-eq-ok env to user db moved s ss total db' h =
    >>=-eq-ok _ (λ db₁. empty_sources env to user db₁ (moved +ℤ s.quantity) ss) h

pub empty_sources-Emptied :
    (env : Env) (to user : Option ℕ) (db : Db) (moved : ℤ) (ss : List StockItem) (total : ℤ)
    (db' : Db)
    → IsSound db
    → IsUnique ss
    → Stand db.items ss
    → empty_sources env to user db moved ss ≡ ok (total, db')
    → Emptied db ss moved total db'
empty_sources-Emptied env to user db moved [] total db' s u st h =
    let (same, tables) : (moved ≡ total) × (db ≡ db') = unfold empty_sources in ground arith in
    rw (← same, ← tables) (empty_nothing db moved s)
empty_sources-Emptied env to user db moved (x ∷ ss) total db' s u st h =
    let (db₁, changed, rest) = empty_sources-eq-ok env to user db moved x ss total db' h in
    let row = bulk_row env user x.id (pos 0 -ℤ x.quantity) (pos 0) x.location_id to in
    let stands : find_item x.id db.items ≡ some x = st x.id x (unfold find_item in ground arith) in
    let c =
      record_change-Changed db (pos 0) row x db₁ s (unfold bulk_row in stands)
        (unfold bulk_row in refl) (unfold bulk_row in refl) changed in
    let later : Stand db₁.items ss =
      still-Stand db db₁ row x ss u.0 (unfold bulk_row in refl) st c in
    empty_one db db₁ db' row x ss moved total u.0 (unfold bulk_row in refl) stands c (
      empty_sources-Emptied env to user db₁ (moved +ℤ x.quantity) ss total db' c.sound u.1 later
        rest)
