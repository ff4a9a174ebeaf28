-- ===== src/Stock/Adjust/Sound.antt =====
-- `Adjust` and `AdjustLot` keep the lots and their log in agreement, and change one lot.
use firebin_api.Base.{
  ℕ, String, Bool, Option, some, ◌≡◌, refl, sym, ap, arith, ◌==◌, if◌then◌else◌, ◌&&◌, Bool-cases,
  inl, inr, ok, Option-cases, Outcome-cases, ◌∙◌,
}
use firebin_api.Base.Int.{ℤ, pos, ◌+ℤ◌, ◌-ℤ◌, ltb_ℤ}
use firebin_api.Stock.Model.{StockItem, Db, Env}
use firebin_api.Stock.Table.{find_item, sum_where}
use firebin_api.Stock.Tx.{find_or_create, record_change}
use firebin_api.Stock.Lookup.{quantity_of, quantity_of-some}
use firebin_api.Stock.Sums.{weight}
use firebin_api.Stock.Ledger.{IsSound}
use firebin_api.Stock.Steps.{find_or_create-IsAtHand, record_change-Changed}
use firebin_api.Stock.Views.{clear_reference-IsSound, then_get-IsSound}
use firebin_api.Stock.Adjust.{
  AdjustParams, adjust_row, lot_row, adjusted_quantity, lot_quantity, receive, adjust_tx, adjust,
  adjust_lot_tx, adjust_lot,
}

pub receive-IsSound : (part : ℕ) (d q : ℤ) (db : Db) → IsSound db → IsSound (receive part d q db)
unfolding receive
receive-IsSound part d q db s = elim (Bool-cases (ltb_ℤ (pos 0) d && ltb_ℤ (pos 0) q)) [
  | inl e ↦ rw e (clear_reference-IsSound part db s)
  | inr e ↦ rw e s
]

pub items-receive : (part : ℕ) (d q : ℤ) (db : Db) → (receive part d q db).items ≡ db.items
unfolding receive
items-receive part d q db = ground arith

-- The lot `k` goes from `x` to the quantity `q`, and the rest stays.
pub record Adjusted (db : Db) (k : ℕ) (x : StockItem) (q : ℤ) (db' : Db) : Type 0 where
  pub sound : IsSound db'
  pub before : quantity_of k db.items ≡ x.quantity
  pub after : find_item k db'.items ≡ some (record x { quantity = q })
  pub quantities :
      (j : ℕ) → quantity_of j db'.items ≡ (if j == k then q else quantity_of j db.items)
  pub sums :
      (sel : ℕ → Option ℕ → Bool)
      → sum_where sel db'.items +ℤ weight sel x.part_id x.location_id x.quantity
        ≡ sum_where sel db.items +ℤ weight sel x.part_id x.location_id q

-- What a successful transaction went through.
pub adjust_tx-eq-ok :
    (env : Env) (db : Db) (p : AdjustParams) (k : ℕ) (db' : Db)
    → adjust_tx env db p ≡ ok (k, db')
    → (x : StockItem) × (db₁ : Db) × (q : ℤ) × (db₂ : Db) × (find_or_create env db p.part_id
          p.location_id p.supplier_part_id
        ≡ ok (x, db₁))
      × (adjusted_quantity p.kind x.quantity p.quantity ≡ some q)
      × (record_change db₁ q (adjust_row env p x q) ≡ ok db₂)
      × (x.id ≡ k)
      × (receive p.part_id (q -ℤ x.quantity) q db₂ ≡ db')
unfolding adjust_tx
adjust_tx-eq-ok env db p k db' h =
    elim (Outcome-cases (find_or_create env db p.part_id p.location_id p.supplier_part_id)) [
      | inr (e, e₁) ↦ absurd (ground arith)
      | inl ((x, db₁), e₁) ↦ elim (Option-cases (adjusted_quantity p.kind x.quantity p.quantity)) [
        | inl e₂ ↦ absurd (ground arith)
        | inr (q, e₂) ↦ elim (Outcome-cases (record_change db₁ q (adjust_row env p x q))) [
          | inr (e, e₃) ↦ absurd (ground arith)
          | inl (db₂, e₃) ↦ (x, db₁, q, db₂, e₁, e₂, e₃, ground arith, ground arith)
        ]
      ]
    ]

pub adjust_lot_tx-eq-ok :
    (env : Env) (db : Db) (lot : ℕ) (kind : String) (qty : ℤ) (user : Option ℕ) (k : ℕ) (db' : Db)
    → adjust_lot_tx env db lot kind qty user ≡ ok (k, db')
    → (x : StockItem) × (q : ℤ) × (find_item lot db.items ≡ some x)
      × (lot_quantity kind x.quantity qty ≡ some q)
      × (record_change db q (lot_row env lot kind x q user) ≡ ok db')
      × (lot ≡ k)
unfolding adjust_lot_tx
adjust_lot_tx-eq-ok env db lot kind qty user k db' h =
    elim (Option-cases (find_item lot db.items)) [
      | inl e₁ ↦ absurd (ground arith)
      | inr (x, e₁) ↦ elim (Option-cases (lot_quantity kind x.quantity qty)) [
        | inl e₂ ↦ absurd (ground arith)
        | inr (q, e₂) ↦ elim (Outcome-cases (record_change db q (lot_row env lot kind x q user))) [
          | inr (e, e₃) ↦ absurd (ground arith)
          | inl (db₂, e₃) ↦ (x, q, e₁, e₂, ground arith, ground arith)
        ]
      ]
    ]

pub adjust_tx-Adjusted :
    (env : Env) (db : Db) (p : AdjustParams) (k : ℕ) (db' : Db)
    → IsSound db
    → adjust_tx env db p ≡ ok (k, db')
    → (x : StockItem) × (q : ℤ) × (adjusted_quantity p.kind x.quantity p.quantity ≡ some q)
      × (x.part_id ≡ p.part_id)
      × (x.location_id ≡ p.location_id)
      × Adjusted db k x q db'
adjust_tx-Adjusted env db p k db' s h =
    let (x, db₁, q, db₂, found, chosen, changed, same, received) =
      adjust_tx-eq-ok env db p k db' h in
    let a =
      find_or_create-IsAtHand env db p.part_id p.location_id p.supplier_part_id x db₁ s found in
    let c =
      record_change-Changed db₁ q (adjust_row env p x q) x db₂ a.sound
        (unfold adjust_row in a.found) (unfold adjust_row in refl) (unfold adjust_row in refl)
        changed in
    let kept = items-receive p.part_id (q -ℤ x.quantity) q db₂ in
    (
      x,
      q,
      chosen,
      a.of_part,
      a.at_location,
      rw (← same, ← received)
          (record {
            sound = receive-IsSound p.part_id (q -ℤ x.quantity) q db₂ c.sound;
            before = sym (a.quantities x.id) ∙ (quantity_of-some x.id db₁.items x a.found).0;
            after = rw kept (unfold adjust_row in c.found);
            quantities = λ j. rw (kept, ← a.quantities j) (unfold adjust_row in c.quantities j);
            sums = λ sel. rw kept (
                c.sums sel
                ∙ ap (λ (z : ℤ). z +ℤ weight sel x.part_id x.location_id q) (a.sums sel));
          }),
    )

pub adjust_lot_tx-Adjusted :
    (env : Env) (db : Db) (lot : ℕ) (kind : String) (qty : ℤ) (user : Option ℕ) (k : ℕ) (db' : Db)
    → IsSound db
    → adjust_lot_tx env db lot kind qty user ≡ ok (k, db')
    → (x : StockItem) × (q : ℤ) × (lot_quantity kind x.quantity qty ≡ some q)
      × (lot ≡ k)
      × Adjusted db lot x q db'
adjust_lot_tx-Adjusted env db lot kind qty user k db' s h =
    let (x, q, found, chosen, changed, same) =
      adjust_lot_tx-eq-ok env db lot kind qty user k db' h in
    let c =
      record_change-Changed db q (lot_row env lot kind x q user) x db' s (unfold lot_row in found)
        (unfold lot_row in refl) (unfold lot_row in refl) changed in
    (
      x,
      q,
      chosen,
      same,
      record {
        sound = c.sound;
        before = (quantity_of-some lot db.items x found).0;
        after = unfold lot_row in c.found;
        quantities = λ j. unfold lot_row in c.quantities j;
        sums = c.sums;
      },
    )

pub adjust_tx_good :
    (env : Env) (db : Db) (p : AdjustParams)
    → IsSound db
    → (k : ℕ) (db' : Db) → adjust_tx env db p ≡ ok (k, db')
    → IsSound db' × (x : StockItem) × (find_item k db'.items ≡ some x)
adjust_tx_good env db p s k db' h =
    let (x, q, _, _, _, a) = adjust_tx-Adjusted env db p k db' s h in (a.sound, _, a.after)

pub adjust_lot_tx_good :
    (env : Env) (db : Db) (lot : ℕ) (kind : String) (qty : ℤ) (user : Option ℕ)
    → IsSound db
    → (k : ℕ) (db' : Db) → adjust_lot_tx env db lot kind qty user ≡ ok (k, db')
    → IsSound db' × (x : StockItem) × (find_item k db'.items ≡ some x)
adjust_lot_tx_good env db lot kind qty user s k db' h =
    let (x, q, _, same, a) = adjust_lot_tx-Adjusted env db lot kind qty user k db' s h in
    (a.sound, record x { quantity = q }, rw (← same) a.after)

pub adjust-IsSound :
    (env : Env) (db : Db) (p : AdjustParams) → IsSound db → IsSound (adjust env db p).1
unfolding adjust
adjust-IsSound env db p s =
    then_get-IsSound db _ s (λ k db' h. (adjust_tx_good env db p s k db' h).0)

pub adjust_lot-IsSound :
    (env : Env) (db : Db) (lot : ℕ) (kind : String) (qty : ℤ) (user : Option ℕ)
    → IsSound db
    → IsSound (adjust_lot env db lot kind qty user).1
unfolding adjust_lot
adjust_lot-IsSound env db lot kind qty user s =
    then_get-IsSound db _ s (λ k db' h. (adjust_lot_tx_good env db lot kind qty user s k db' h).0)

-- The row `y` is what the table now holds in the place of the lot `x`.
abbrev pub Replaces : Db → Db → StockItem → Type 0
Replaces db db' y =
    (find_item y.id db'.items ≡ some y)
    × ((j : ℕ)
        → quantity_of j db'.items ≡ (if j == y.id then y.quantity else quantity_of j db.items))
    × ((sel : ℕ → Option ℕ → Bool)
        → sum_where sel db'.items +ℤ weight sel y.part_id y.location_id (quantity_of y.id db.items)
          ≡ sum_where sel db.items +ℤ weight sel y.part_id y.location_id y.quantity)
