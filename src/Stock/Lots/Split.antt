-- ===== src/Stock/Lots/Split.antt =====
-- `SplitLot` cuts a quantity off a lot into a lot of its own.
use firebin_api.Base.{
  ℕ, Bool, true, false, none, some, ◌≡◌, ◌≢◌, refl, ap, ◌∙◌, arith, inl, inr, ◌∷◌, Bool-cases,
  Option-cases, if◌then◌else◌, ok, Outcome-cases, subst,
}
use firebin_api.Base.Int.{ℤ, pos, ◌+ℤ◌, ◌-ℤ◌, ltb_ℤ, int_laws, parts_of_eq}
use firebin_api.Stock.Model.{StockItem, Transaction, Db, Env, ItemView}
use firebin_api.Stock.Table.{find_item, find_part, sum_where, insert_item, insert_transaction}
use firebin_api.Stock.Tx.{record_change}
use firebin_api.Stock.Moved.{Moves}
use firebin_api.Stock.Ledger.{
  IsSound, insert_item-eq-ok, insert_transaction-eq-ok, insert_filled-IsSound,
}
use firebin_api.Stock.Steps.{Changed, record_change-Changed}
use firebin_api.Stock.Views.{then_get_lem, then_get-IsSound}
use firebin_api.Stock.Lots.{SplitParams, split_row, cut_lot, split_tx, split_lot}

abbrev out_row : Env → SplitParams → StockItem → Transaction
out_row env p x = split_row env p p.source_id (pos 0 -ℤ p.quantity) (x.quantity -ℤ p.quantity) none

abbrev in_row : Env → SplitParams → Transaction
in_row env p = split_row env p env.fresh_id p.quantity p.quantity p.to_location_id

split_tx-eq-ok :
    (env : Env) (db : Db) (p : SplitParams) (k : ℕ) (db' : Db)
    → split_tx env db p ≡ ok (k, db')
    → (x : StockItem) × (db₁ : Db) × (db₂ : Db) × (find_item p.source_id db.items ≡ some x)
      × (ltb_ℤ (pos 0) p.quantity ≡ true)
      × (ltb_ℤ x.quantity p.quantity ≡ false)
      × (record_change db (x.quantity -ℤ p.quantity) (out_row env p x) ≡ ok db₁)
      × (insert_item db₁ (cut_lot env p x.part_id) ≡ ok db₂)
      × (insert_transaction db₂ (in_row env p) ≡ ok db')
      × (env.fresh_id ≡ k)
unfolding split_tx
split_tx-eq-ok env db p k db' h = elim (Option-cases (find_item p.source_id db.items)) [
  | inl e₁ ↦ absurd (ground arith)
  | inr (x, e₁) ↦ elim (Bool-cases (ltb_ℤ (pos 0) p.quantity)) [
    | inr e₂ ↦ absurd (ground arith)
    | inl e₂ ↦ elim (Bool-cases (ltb_ℤ x.quantity p.quantity)) [
      | inl e₃ ↦ absurd (ground arith)
      | inr e₃ ↦
          elim (Outcome-cases (record_change db (x.quantity -ℤ p.quantity) (out_row env p x))) [
            | inr (_, e₄) ↦ absurd (ground arith)
            | inl (db₁, e₄) ↦ elim (Outcome-cases (insert_item db₁ (cut_lot env p x.part_id))) [
              | inr (_, e₅) ↦ absurd (ground arith)
              | inl (db₂, e₅) ↦ elim (Outcome-cases (insert_transaction db₂ (in_row env p))) [
                | inr (_, e₆) ↦ absurd (ground arith)
                | inl (db₃, e₆) ↦ (x, db₁, db₂, e₁, e₂, e₃, e₄, e₅, ground arith, ground arith)
              ]
            ]
          ]
    ]
  ]
]

cut_sums :
    (b c : Bool) (s₀ s₁ x q : ℤ)
    → s₁ +ℤ (if b then x else pos 0) ≡ s₀ +ℤ (if b then x -ℤ q else pos 0)
    → (if c then q else pos 0) +ℤ s₁ +ℤ (if b then q else pos 0) ≡ s₀ +ℤ (if c then q else pos 0)
cut_sums true true s₀ s₁ x q h = omega (int_laws, parts_of_eq h)
cut_sums true false s₀ s₁ x q h = omega (int_laws, parts_of_eq h)
cut_sums false true s₀ s₁ x q h = omega (int_laws, parts_of_eq h)
cut_sums false false s₀ s₁ x q h = omega (int_laws, parts_of_eq h)

-- The tables after a split: the lot `x` is reduced, and the cut lot is there.
record IsCut (env : Env) (db : Db) (p : SplitParams) (x : StockItem) (db' : Db) : Type 0 where
  sound : IsSound db'
  cut : find_item env.fresh_id db'.items ≡ some (cut_lot env p x.part_id)
  left : find_item p.source_id db'.items ≡ some (record x { quantity = x.quantity -ℤ p.quantity })
  moved : Moves db db' x.part_id x.location_id p.to_location_id p.quantity

IsCut-now :
    (env : Env) (db db₁ : Db) (p : SplitParams) (x : StockItem)
    → Changed db (x.quantity -ℤ p.quantity) (out_row env p x) x db₁
    → find_item env.fresh_id db₁.items ≡ none
    → find_part x.part_id db₁.parts ≢ none
    → IsCut env db p x (record db₁ {
      items = cut_lot env p x.part_id ∷ db₁.items;
      transactions = in_row env p ∷ db₁.transactions;
    })
unfolding cut_lot split_row find_item sum_where
IsCut-now env db db₁ p x c fresh known = record {
  sound =
      insert_filled-IsSound db₁ (cut_lot env p x.part_id) (in_row env p) c.sound fresh known refl
        refl refl;
  cut = ground arith;
  left = ground (arith, c.found);
  moved = λ sel.
      cut_sums (sel x.part_id x.location_id) (sel x.part_id p.to_location_id)
        (sum_where sel db.items) (sum_where sel db₁.items) x.quantity p.quantity (c.sums sel);
}

split_tx-IsCut :
    (env : Env) (db : Db) (p : SplitParams) (k : ℕ) (db' : Db)
    → IsSound db
    → split_tx env db p ≡ ok (k, db')
    → (x : StockItem) × (find_item p.source_id db.items ≡ some x)
      × (ltb_ℤ (pos 0) p.quantity ≡ true)
      × (ltb_ℤ x.quantity p.quantity ≡ false)
      × (env.fresh_id ≡ k)
      × IsCut env db p x db'
split_tx-IsCut env db p k db' s h =
    let (x, db₁, db₂, found, positive, enough, out, inserted, logged, same) =
      split_tx-eq-ok env db p k db' h in
    let c =
      record_change-Changed db (x.quantity -ℤ p.quantity) (out_row env p x) x db₁ s
        (unfold split_row in found) (unfold split_row in omega int_laws) (unfold split_row in refl)
        out in
    let (tables, fresh, known) = insert_item-eq-ok db₁ (cut_lot env p x.part_id) inserted in
    let now = IsCut-now env db db₁ p x c (unfold cut_lot in fresh) (unfold cut_lot in known) in
    let last = insert_transaction-eq-ok db₂ (in_row env p) logged in
    (
      x,
      found,
      positive,
      enough,
      same,
      subst (IsCut env db p x)
          (ap (λ (z : Db). record z { transactions = in_row env p ∷ z.transactions }) tables ∙ last)
          now,
    )

split_tx_good :
    (env : Env) (db : Db) (p : SplitParams)
    → IsSound db
    → (k : ℕ) (db' : Db) → split_tx env db p ≡ ok (k, db')
    → IsSound db' × (x : StockItem) × (find_item k db'.items ≡ some x)
split_tx_good env db p s k db' h =
    let (x, _, _, _, same, c) = split_tx-IsCut env db p k db' s h in
    (c.sound, cut_lot env p x.part_id, rw (← same) c.cut)

pub split_lot-IsSound :
    (env : Env) (db : Db) (p : SplitParams) → IsSound db → IsSound (split_lot env db p).1
unfolding split_lot
split_lot-IsSound env db p s =
    then_get-IsSound db _ s (λ k db' h. (split_tx_good env db p s k db' h).0)

-- On tables where the lots and their log agree: `SplitLot` that succeeds was asked for a positive
-- quantity that the source lot held; it returns a new lot of the source's part, at the location asked
-- for, with just the quantity, barcode and name asked for, usable, of no supplier, linked to the source
-- and added now; the source keeps the rest; and the quantity
-- moved from the source's location to the new lot's in every sum over lots.
pub split_lot_lem :
    (env : Env) (db : Db) (p : SplitParams) (v : ItemView) (db' : Db)
    → IsSound db
    → split_lot env db p ≡ (ok v, db')
    → (x : StockItem) × (find_item p.source_id db.items ≡ some x)
      × (ltb_ℤ (pos 0) p.quantity ≡ true)
      × (ltb_ℤ x.quantity p.quantity ≡ false)
      × (v.item ≡ record {
        id = env.fresh_id;
        part_id = x.part_id;
        location_id = p.to_location_id;
        supplier_part_id = none;
        quantity = p.quantity;
        status = "ok";
        barcode = p.barcode;
        name = p.name;
        split_from = some p.source_id;
        added_at = env.now;
      })
      × (find_item p.source_id db'.items ≡ some (record x { quantity = x.quantity -ℤ p.quantity }))
      × Moves db db' x.part_id x.location_id p.to_location_id p.quantity
unfolding split_lot cut_lot
split_lot_lem env db p v db' s h =
    let (k, done, shown) =
      (then_get_lem db (split_tx env db p) (split_tx_good env db p s)).0 v db' h in
    let (x, found, positive, enough, same, c) = split_tx-IsCut env db p k db' s done in
    (x, found, positive, enough, cc (c.cut, shown, same), c.left, c.moved)
