-- ===== src/Stock/Transfer/Move.antt =====
-- `Move` takes the quantity from the source lot's location to the destination.
use firebin_api.Base.{
  false, none, some, ◌≡◌, refl, arith, inl, inr, ok, Outcome-cases, Option-cases, Bool-cases, ap,
}
use firebin_api.Base.Int.{pos, ◌+ℤ◌, ◌-ℤ◌, ltb_ℤ, int_laws}
use firebin_api.Stock.Model.{StockItem, Transaction, Db, Env}
use firebin_api.Stock.Table.{find_item, sum_where}
use firebin_api.Stock.Tx.{find_or_create, record_change}
use firebin_api.Stock.Ledger.{IsSound}
use firebin_api.Stock.Moved.{Moves, out_and_in}
use firebin_api.Stock.Views.{commit-IsSound}
use firebin_api.Stock.Steps.{find_or_create-IsAtHand, record_change-Changed, commit-eq-ok}
use firebin_api.Stock.Transfer.{MoveParams, move_row, move_tx, move, commit}

abbrev out_row : Env → MoveParams → StockItem → Transaction
out_row env p x =
    move_row env p x.location_id p.stock_item_id (pos 0 -ℤ p.quantity) (x.quantity -ℤ p.quantity)

abbrev in_row : Env → MoveParams → StockItem → StockItem → Transaction
in_row env p x d = move_row env p x.location_id d.id p.quantity (d.quantity +ℤ p.quantity)

move_tx-eq-ok :
    (env : Env) (db : Db) (p : MoveParams) (db' : Db)
    → move_tx env db p ≡ ok (tt, db')
    → (x : StockItem) × (db₁ : Db) × (d : StockItem) × (db₂ : Db) × (find_item p.stock_item_id
          db.items
        ≡ some x)
      × (ltb_ℤ x.quantity p.quantity ≡ false)
      × (record_change db (x.quantity -ℤ p.quantity) (out_row env p x) ≡ ok db₁)
      × (find_or_create env db₁ x.part_id p.to_location_id none ≡ ok (d, db₂))
      × (record_change db₂ (d.quantity +ℤ p.quantity) (in_row env p x d) ≡ ok db')
unfolding move_tx
move_tx-eq-ok env db p db' h = elim (Option-cases (find_item p.stock_item_id db.items)) [
  | inl e₁ ↦ absurd (ground arith)
  | inr (x, e₁) ↦ elim (Bool-cases (ltb_ℤ x.quantity p.quantity)) [
    | inl e₂ ↦ absurd (ground arith)
    | inr e₂ ↦
        elim (Outcome-cases (record_change db (x.quantity -ℤ p.quantity) (out_row env p x))) [
          | inr (_, e₃) ↦ absurd (ground arith)
          | inl (db₁, e₃) ↦
              elim (Outcome-cases (find_or_create env db₁ x.part_id p.to_location_id none)) [
                | inr (_, e₄) ↦ absurd (ground arith)
                | inl ((d, db₂), e₄) ↦ (x, db₁, d, db₂, e₁, e₂, e₃, e₄, ground arith)
              ]
        ]
  ]
]

-- On tables where the lots and their log agree: `Move` that succeeds found the source lot with at
-- least the quantity in it, keeps the lots and their log in agreement, and takes the quantity of
-- the lot's part from the lot's location to the destination: any sum over lots that counts the one
-- and not the other changes by just that.
pub move_lem :
    (env : Env) (db : Db) (p : MoveParams) (db' : Db)
    → IsSound db
    → move env db p ≡ (ok tt, db')
    → (x : StockItem) × (find_item p.stock_item_id db.items ≡ some x)
      × (ltb_ℤ x.quantity p.quantity ≡ false)
      × IsSound db'
      × Moves db db' x.part_id x.location_id p.to_location_id p.quantity
unfolding move
move_lem env db p db' s h =
    let (x, db₁, d, db₂, found, enough, out, at_hand, in_) =
      move_tx-eq-ok env db p db' (commit-eq-ok db _ h) in
    let c =
      record_change-Changed db _ (out_row env p x) x db₁ s (unfold move_row in found)
        (unfold move_row in omega int_laws) (unfold move_row in refl) out in
    let a = find_or_create-IsAtHand env db₁ x.part_id p.to_location_id none d db₂ c.sound at_hand in
    let c' =
      record_change-Changed db₂ _ (in_row env p x d) d db' a.sound (unfold move_row in a.found)
        (unfold move_row in omega int_laws) (unfold move_row in refl) in_ in
    (
      x,
      found,
      enough,
      c'.sound,
      λ sel.
          out_and_in (sel x.part_id x.location_id) (sel x.part_id p.to_location_id)
            (sum_where sel db.items) (sum_where sel db₁.items) (sum_where sel db'.items) x.quantity
            d.quantity p.quantity (c.sums sel)
            (rw (← a.sums sel, ← a.of_part, ← a.at_location) (c'.sums sel)),
    )

pub move-IsSound : (env : Env) (db : Db) (p : MoveParams) → IsSound db → IsSound (move env db p).1
unfolding move
move-IsSound env db p s =
    commit-IsSound db _ s
      (λ u db' h. let (_, _, _, sound, _) = move_lem env db p db' s (ap (commit db) h) in sound)
