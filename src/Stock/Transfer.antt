-- ===== src/Stock/Transfer.antt =====
-- `Move`, `MovePartToLocation` and `RelocateLot` of internal/repository/stock.go.
pub mod Move
pub mod Sources
pub mod Emptied
pub mod Gather
pub mod Bulk
pub mod Relocate
use firebin_api.Base.{
  ℕ, String, Bool, not, ◌&&◌, List, [], ◌∷◌, Option, none, some, ◌==◌, leb, if◌then◌else◌, Outcome,
  ok, ◌>>=◌,
}
use firebin_api.Base.Int.{ℤ, pos, ◌+ℤ◌, ◌-ℤ◌, ltb_ℤ}
use firebin_api.Stock.Model.{
  StockItem, Transaction, Db, Env, StockError, ItemView, not_found, constraint_violated,
  insufficient,
}
use firebin_api.Stock.Table.{
  find_item, same_location, set_location, location_exists, insert_transaction,
}
use firebin_api.Stock.Tx.{Reply, commit, or_fail, check, find_or_create, record_change, then_get}

pub record MoveParams : Type 0 where
  pub stock_item_id : ℕ
  pub to_location_id : Option ℕ
  pub quantity : ℤ
  pub note : Option String
  pub user_id : Option ℕ

-- The movement row that both sides of `Move` write.
unfoldable pub move_row : Env → MoveParams → Option ℕ → ℕ → ℤ → ℤ → Transaction
move_row env p from lot delta q = record {
  stock_item_id = lot;
  kind = "move";
  delta = delta;
  resulting_quantity = q;
  from_location_id = from;
  to_location_id = p.to_location_id;
  note = p.note;
  user_id = p.user_id;
  created_at = env.now;
}

-- The destination lot is looked up after the source was reduced.
unfoldable pub move_tx : Env → Db → MoveParams → Outcome StockError (Unit {0} × Db)
unfolding move_row
move_tx env db p = do
  x ← or_fail (find_item p.stock_item_id db.items) not_found
  let q = x.quantity -ℤ p.quantity
  let out = move_row env p x.location_id p.stock_item_id (pos 0 -ℤ p.quantity) q
  check (ltb_ℤ x.quantity p.quantity) (insufficient p.quantity x.quantity) (do
    db₁ ← record_change db q out
    found ← find_or_create env db₁ x.part_id p.to_location_id none
    let (d, db₂) = found
    let dest_q = d.quantity +ℤ p.quantity
    db₃ ← record_change db₂ dest_q (move_row env p x.location_id d.id p.quantity dest_q)
    ok (tt, db₃))

unfoldable pub move : Env → Db → MoveParams → Reply (Unit {0})
unfolding move_tx
move env db p = commit db (move_tx env db p)

-- WHERE part_id = $1 AND location_id IS DISTINCT FROM $2 AND quantity > 0
unfoldable pub is_source : ℕ → Option ℕ → StockItem → Bool
unfolding same_location
is_source part loc x =
    x.part_id == part && not (same_location x.location_id loc) && ltb_ℤ (pos 0) x.quantity

unfoldable pub insert_by_added : StockItem → List StockItem → List StockItem
insert_by_added x [] = x ∷ []
insert_by_added x (y ∷ ys) =
    let rest = insert_by_added x ys in if leb x.added_at y.added_at then x ∷ y ∷ ys else y ∷ rest

-- The source lots of `MovePartToLocation`, ORDER BY added_at.
unfoldable pub sources : ℕ → Option ℕ → List StockItem → List StockItem
unfolding is_source insert_by_added
sources part loc [] = []
sources part loc (x ∷ xs) =
    let rest = sources part loc xs in if is_source part loc x then insert_by_added x rest else rest

-- A movement row of `MovePartToLocation`.
unfoldable pub bulk_row : Env → Option ℕ → ℕ → ℤ → ℤ → Option ℕ → Option ℕ → Transaction
bulk_row env user lot delta q from to = record {
  stock_item_id = lot;
  kind = "move";
  delta = delta;
  resulting_quantity = q;
  from_location_id = from;
  to_location_id = to;
  note = some "bulk move";
  user_id = user;
  created_at = env.now;
}

-- The loop over the source lots: each is emptied, and what it held is added up.
unfoldable pub empty_sources :
    Env → Option ℕ → Option ℕ → Db → ℤ → List StockItem → Outcome StockError (ℤ × Db)
unfolding bulk_row
empty_sources env to user db moved [] = ok (moved, db)
empty_sources env to user db moved (s ∷ ss) =
    record_change db (pos 0) (bulk_row env user s.id (pos 0 -ℤ s.quantity) (pos 0) s.location_id to)
    >>= λ db'. empty_sources env to user db' (moved +ℤ s.quantity) ss

unfoldable pub gather :
    Env → Db → ℕ → Option ℕ → Option ℕ → List StockItem → Outcome StockError (ℤ × Db)
gather env db part to user [] = ok (pos 0, db)
gather env db part to user (s ∷ ss) = do
  found ← find_or_create env db part to none
  let (d, db₁) = found
  emptied ← empty_sources env to user db₁ (pos 0) (s ∷ ss)
  let (moved, db₂) = emptied
  let q = d.quantity +ℤ moved
  db₃ ← record_change db₂ q (bulk_row env user d.id moved q none to)
  ok (moved, db₃)

unfoldable pub move_part : Env → Db → ℕ → Option ℕ → Option ℕ → Reply ℤ
unfolding gather sources
move_part env db part to user = commit db (gather env db part to user (sources part to db.items))

-- The movement row of `RelocateLot`.
unfoldable pub relocate_row : Env → ℕ → StockItem → Option ℕ → Option ℕ → Transaction
relocate_row env lot x to user = record {
  stock_item_id = lot;
  kind = "move";
  delta = pos 0;
  resulting_quantity = x.quantity;
  from_location_id = x.location_id;
  to_location_id = to;
  note = none;
  user_id = user;
  created_at = env.now;
}

unfoldable pub relocate_tx : Env → Db → ℕ → Option ℕ → Option ℕ → Outcome StockError (ℕ × Db)
relocate_tx env db lot to user = do
  x ← or_fail (find_item lot db.items) not_found
  db' ← check (not (location_exists to db.locations)) constraint_violated (
      insert_transaction (record db { items = set_location lot to db.items })
        (relocate_row env lot x to user))
  ok (lot, db')

unfoldable pub relocate : Env → Db → ℕ → Option ℕ → Option ℕ → Reply ItemView
unfolding relocate_tx relocate_row then_get
relocate env db lot to user = then_get (commit db (relocate_tx env db lot to user))
