-- ===== src/Stock/Adjust/Correct.antt =====
-- `Adjust` and `AdjustLot` set the quantity that their switch computes, on the lot that they mean.
use firebin_api.Stock.Adjust.Sound.{
  Adjusted, adjust_tx-Adjusted, adjust_lot_tx-Adjusted, adjust_tx_good, adjust_lot_tx_good,
  Replaces,
}
use firebin_api.Base.{
  ◌⊎◌, arith, eq_iff, if◌then◌else◌, ℕ, String, Option, some, ◌≡◌, refl, sym, ap, ok, ◌∙◌, subst,
}
use firebin_api.Base.Int.{ℤ, pos, ◌+ℤ◌, ◌-ℤ◌, ltb_ℤ}
use firebin_api.Stock.Model.{StockItem, Db, Env, ItemView}
use firebin_api.Stock.Table.{find_item}
use firebin_api.Stock.Lookup.{quantity_of, quantity_of-some}
use firebin_api.Stock.Ledger.{IsSound}
use firebin_api.Stock.Views.{then_get_lem}
use firebin_api.Stock.Adjust.{
  AdjustParams, adjusted_quantity, lot_quantity, adjust_tx, adjust, adjust_lot_tx, adjust_lot,
  floor_zero,
}

-- What `AdjustLot` makes of a quantity: a removal stops at 0.
abbrev pub LotSets : String → ℤ → ℤ → ℤ → Type 0
LotSets kind old q new =
    ((kind ≡ "add") × (new ≡ old +ℤ q))
    ⊎ ((kind ≡ "remove") × (new ≡ (if ltb_ℤ old q then pos 0 else old -ℤ q)))
    ⊎ ((kind ≡ "count") × (new ≡ q))

-- What `Adjust` makes of it, which also knows a relative change.
abbrev pub Sets : String → ℤ → ℤ → ℤ → Type 0
Sets kind old q new = LotSets kind old q new ⊎ ((kind ≡ "adjust") × (new ≡ old +ℤ q))

below_zero : (old q : ℤ) → ltb_ℤ (old -ℤ q) (pos 0) ≡ ltb_ℤ old q
unfolding ◌-ℤ◌ ◌+ℤ◌
below_zero old q = ground arith

floored : (old q : ℤ) → floor_zero (old -ℤ q) ≡ (if ltb_ℤ old q then pos 0 else old -ℤ q)
unfolding floor_zero
floored old q = ap (λ b. if b then pos 0 else old -ℤ q) (below_zero old q)

lot_quantity-LotSets :
    (kind : String) (old q new : ℤ) → lot_quantity kind old q ≡ some new → LotSets kind old q new
unfolding lot_quantity
lot_quantity-LotSets kind old q new h =
    grind (arith, eq_iff kind "add", eq_iff kind "remove", eq_iff kind "count", floored old q)

adjusted_quantity-Sets :
    (kind : String) (old q new : ℤ) → adjusted_quantity kind old q ≡ some new → Sets kind old q new
unfolding adjusted_quantity
adjusted_quantity-Sets kind old q new h = grind (
  arith,
  eq_iff kind "add",
  eq_iff kind "remove",
  eq_iff kind "count",
  eq_iff kind "adjust",
  floored old q,
)

some_item : {x y : StockItem} → some x ≡ some y → x ≡ y
some_item h = cc

Adjusted-view :
    (db db' : Db) (k : ℕ) (x : StockItem) (q : ℤ) (y : StockItem)
    → Adjusted db k x q db'
    → find_item k db'.items ≡ some y
    → (quantity_of y.id db.items ≡ x.quantity)
      × (q ≡ y.quantity)
      × (x.part_id ≡ y.part_id)
      × (x.location_id ≡ y.location_id)
      × (y.id ≡ k)
      × Replaces db db' y
Adjusted-view db db' k x q y a f =
    subst
      (λ (z : StockItem).
        (quantity_of z.id db.items ≡ x.quantity)
        × (q ≡ z.quantity)
        × (x.part_id ≡ z.part_id)
        × (x.location_id ≡ z.location_id)
        × (z.id ≡ k)
        × Replaces db db' z)
      (some_item (sym a.after ∙ f))
      (
        old,
        refl,
        refl,
        refl,
        id,
        (
          ap (λ (i : ℕ). find_item i db'.items) id ∙ a.after,
          λ j. rw id (a.quantities j),
          λ sel. rw old (a.sums sel),
        ),
      )
  where
    id : x.id ≡ k
    id = (quantity_of-some k db'.items (record x { quantity = q }) a.after).1

    old : quantity_of x.id db.items ≡ x.quantity
    old = ap (λ (i : ℕ). quantity_of i db.items) id ∙ a.before

-- On tables where the lots and their log agree: `Adjust` that succeeds: the lot returned is of the
-- part and at the location asked for, its quantity is, by the kind, what the lot had (0 for a new lot)
-- and the quantity given added, or taken off down to 0, or the quantity given, the table holds that lot, every other lot keeps its quantity, and so
-- does every sum over lots that leaves it out.
pub adjust_lem :
    (env : Env) (db : Db) (p : AdjustParams) (v : ItemView) (db' : Db)
    → IsSound db
    → adjust env db p ≡ (ok v, db')
    → Sets p.kind (quantity_of v.item.id db.items) p.quantity v.item.quantity
      × (v.item.part_id ≡ p.part_id)
      × (v.item.location_id ≡ p.location_id)
      × Replaces db db' v.item
unfolding adjust
adjust_lem env db p v db' s h =
    let (k, done, shown) =
      (then_get_lem db (adjust_tx env db p) (adjust_tx_good env db p s)).0 v db' h in
    let (x, q, chosen, part, loc, a) = adjust_tx-Adjusted env db p k db' s done in
    let (old, new, same_part, same_loc, _, others) = Adjusted-view db db' k x q v.item a shown in
    (
      adjusted_quantity-Sets _ _ _ _ (cc (old, new, chosen)),
      sym same_part ∙ part,
      sym same_loc ∙ loc,
      others,
    )

-- On tables where the lots and their log agree: `AdjustLot` that succeeds: the lot returned is the
-- one asked for, its quantity is, by the kind, what the lot had and the quantity given added, or taken
-- off down to 0, or the quantity given, the table holds that lot, every other lot keeps its quantity, and so does every sum over lots that leaves
-- it out.
pub adjust_lot_lem :
    (env : Env) (db : Db) (lot : ℕ) (kind : String) (qty : ℤ) (user : Option ℕ) (v : ItemView)
    (db' : Db)
    → IsSound db
    → adjust_lot env db lot kind qty user ≡ (ok v, db')
    → (v.item.id ≡ lot)
      × LotSets kind (quantity_of lot db.items) qty v.item.quantity
      × Replaces db db' v.item
unfolding adjust_lot
adjust_lot_lem env db lot kind qty user v db' s h =
    let (k, done, shown) =
      (then_get_lem db (adjust_lot_tx env db lot kind qty user)
          (adjust_lot_tx_good env db lot kind qty user s)).0
        v db' h in
    let (x, q, chosen, same, a) = adjust_lot_tx-Adjusted env db lot kind qty user k db' s done in
    let (old, new, _, _, id, others) = Adjusted-view db db' lot x q v.item a (rw same shown) in
    (id, lot_quantity-LotSets _ _ _ _ (cc (a.before, new, chosen)), others)
