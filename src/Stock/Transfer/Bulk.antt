-- ===== src/Stock/Transfer/Bulk.antt =====
-- `MovePartToLocation` as its caller sees it.
use firebin_api.Base.{
  ℕ, Bool, true, false, Option, ◌≡◌, refl, sym, ap, ◌∙◌, arith, inl, inr, List, [], ◌∷◌, Bool-cases,
  if◌then◌else◌, ok, ◌⊎◌,
}
use firebin_api.Base.Int.{ℤ, pos, ◌+ℤ◌, int_laws, parts_of_eq, zero-+ℤ, +ℤ_zero, +ℤ_left_swap}
use firebin_api.Stock.Model.{StockItem, Db, Env}
use firebin_api.Stock.Table.{sum_where}
use firebin_api.Stock.Tx.{commit}
use firebin_api.Stock.Sums.{weight}
use firebin_api.Stock.Moved.{Conserves}
use firebin_api.Stock.Ledger.{IsSound}
use firebin_api.Stock.Views.{commit-IsSound}
use firebin_api.Stock.Steps.{commit-eq-ok}
use firebin_api.Stock.Transfer.{gather, move_part, sources, is_source, insert_by_added}
use firebin_api.Stock.Transfer.Gather.{Gathered, gather-Gathered}

sum_where-insert_by_added :
    (sel : ℕ → Option ℕ → Bool) (x : StockItem) (ys : List StockItem)
    → sum_where sel (insert_by_added x ys)
      ≡ weight sel x.part_id x.location_id x.quantity +ℤ sum_where sel ys
unfolding sum_where insert_by_added
sum_where-insert_by_added sel x [] = refl
sum_where-insert_by_added sel x (y ∷ ys) = ground (
  arith,
  sum_where-insert_by_added sel x ys,
  +ℤ_left_swap (weight sel y.part_id y.location_id y.quantity)
      (weight sel x.part_id x.location_id x.quantity) (sum_where sel ys),
)

part_of_source :
    (part : ℕ) (to : Option ℕ) (x : StockItem) → is_source part to x ≡ true → x.part_id ≡ part
unfolding is_source
part_of_source part to x h = ground arith

-- Seen by part alone, the sources are the part's.
sum_where-sources :
    (sel : ℕ → Bool) (part : ℕ) (to : Option ℕ) (xs : List StockItem)
    → sum_where (λ p l. sel p) (sources part to xs)
      ≡ (if sel part then sum_where (λ p l. true) (sources part to xs) else pos 0)
unfolding sum_where sources
sum_where-sources sel part to [] = ground arith
sum_where-sources sel part to (x ∷ xs) = elim (Bool-cases (is_source part to x)) [
  | inl e ↦
      rw (e, sources, sum_where-insert_by_added)
        (ground (
          arith,
          part_of_source part to x e,
          sum_where-sources sel part to xs,
          sum_where-insert_by_added (λ p l. true) x (sources part to xs),
          zero-+ℤ (pos 0),
        ))
  | inr e ↦ rw (e, sources) (sum_where-sources sel part to xs)
]

conserved :
    (b : Bool) (s₀ s₁ src m : ℤ)
    → src ≡ (if b then m else pos 0)
    → s₁ +ℤ src ≡ s₀ +ℤ (if b then m else pos 0)
    → s₁ ≡ s₀
conserved true s₀ s₁ src m e h = omega (int_laws, parts_of_eq e, parts_of_eq h)
conserved false s₀ s₁ src m e h = omega (int_laws, parts_of_eq e, parts_of_eq h)

Gathered-Conserves :
    (db : Db) (part : ℕ) (to : Option ℕ) (m : ℤ) (db' : Db)
    → Gathered db part to m db'
    → Conserves db db'
Gathered-Conserves db part to m db' g sel =
    conserved (sel part) _ _ _ m (sum_where-sources sel part to db.items ∙ rw g.total)
      (g.sums (λ p l. sel p))

stay :
    (db : Db) (part : ℕ) (to : Option ℕ)
    → IsSound db
    → sources part to db.items ≡ []
    → Gathered db part to (pos 0) db
unfolding sum_where
stay db part to s e = record {
  sound = s;
  total = rw e;
  sums = λ sel. rw e (ground (arith, +ℤ_zero (sum_where sel db.items)));
  nothing_left = e;
}

list_cases :
    (xs : List StockItem) → (xs ≡ []) ⊎ ((y : StockItem) × (ys : List StockItem) × (xs ≡ y ∷ ys))
list_cases [] = inl refl
list_cases (y ∷ ys) = inr (y, ys, refl)

move_part-Gathered :
    (env : Env) (db : Db) (part : ℕ) (to user : Option ℕ) (m : ℤ) (db' : Db)
    → IsSound db
    → move_part env db part to user ≡ (ok m, db')
    → Gathered db part to m db'
unfolding move_part
move_part-Gathered env db part to user m db' s h = elim (list_cases (sources part to db.items)) [
  | inl e ↦
      let (same, tables) : (pos 0 ≡ m) × (db ≡ db') =
        ground (arith, ap (gather env db part to user) e) in
      rw (← same, ← tables) (stay db part to s e)
  | inr (y, ys, e) ↦
      gather-Gathered env db part to user y ys m db' s e
        (sym (ap (gather env db part to user) e) ∙ commit-eq-ok db _ h)
]

-- On tables where the lots and their log agree: `MovePartToLocation` that succeeds keeps the lots
-- and their log in agreement; it returns the sum over the part's positive lots elsewhere; every sum
-- over lots loses what it counted of those and gains the amount returned where it counts the
-- destination; each part's total is what it was; and no positive lot of the part is left elsewhere.
pub move_part_lem :
    (env : Env) (db : Db) (part : ℕ) (to user : Option ℕ) (m : ℤ) (db' : Db)
    → IsSound db
    → move_part env db part to user ≡ (ok m, db')
    → IsSound db'
      × (m ≡ sum_where (λ p l. true) (sources part to db.items))
      × ((sel : ℕ → Option ℕ → Bool)
          → sum_where sel db'.items +ℤ sum_where sel (sources part to db.items)
            ≡ sum_where sel db.items +ℤ weight sel part to m)
      × Conserves db db'
      × (sources part to db'.items ≡ [])
move_part_lem env db part to user m db' s h =
    let g = move_part-Gathered env db part to user m db' s h in
    (g.sound, g.total, g.sums, Gathered-Conserves db part to m db' g, g.nothing_left)

pub move_part-IsSound :
    (env : Env) (db : Db) (part : ℕ) (to user : Option ℕ)
    → IsSound db
    → IsSound (move_part env db part to user).1
unfolding move_part
move_part-IsSound env db part to user s =
    commit-IsSound db _ s
      (λ m db' h. (move_part_lem env db part to user m db' s (ap (commit db) h)).0)
