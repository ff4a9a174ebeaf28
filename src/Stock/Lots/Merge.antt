-- ===== src/Stock/Lots/Merge.antt =====
-- `MergeLot` pours a lot into another of the same part and deletes it.
use firebin_api.Base.{
  ℕ, Bool, true, false, Option, none, some, ◌≡◌, ◌≢◌, refl, sym, ◌∙◌, arith, inl, inr, List, [],
  ◌∷◌, Bool-cases, Option-cases, ◌==◌, if◌then◌else◌, ok, Outcome-cases, subst,
}
use firebin_api.Base.Int.{ℤ, pos, ◌+ℤ◌, ◌-ℤ◌, int_laws, parts_of_eq}
use firebin_api.Stock.Model.{StockItem, Transaction, Db, Env}
use firebin_api.Stock.Table.{
  find_item, sum_where, insert_transaction, delete_item, set_quantity, without_item, forget_source,
  without_transactions,
}
use firebin_api.Stock.Lookup.{
  quantity_of, quantity_of-forget_source, quantity_of-without_item, find_item-without_item,
  find_item_ne-set_quantity, quantity_of-set_quantity, set_quantity-IsUnique,
}
use firebin_api.Stock.Sums.{
  weight, sum_where-set_quantity, sum_where-without_item, sum_where-forget_source,
}
use firebin_api.Stock.Moved.{Moves}
use firebin_api.Stock.Ledger.{
  IsSound, insert_transaction-eq-ok, record_change-IsSound, delete_item-IsSound,
}
use firebin_api.Stock.Steps.{commit-eq-ok}
use firebin_api.Stock.Views.{commit-IsSound}
use firebin_api.Stock.Lots.{merge_row, merge_tx, merge_lot}

abbrev poured : Db → ℕ → ℤ → Db
poured db target q = record db { items = set_quantity target q db.items }

merge_tx-eq-ok :
    (env : Env) (db : Db) (source target : ℕ) (user : Option ℕ) (db' : Db)
    → merge_tx env db source target user ≡ ok (tt, db')
    → (s : StockItem) × (t : StockItem) × (source ≢ target)
      × (find_item source db.items ≡ some s)
      × (find_item target db.items ≡ some t)
      × (s.part_id ≡ t.part_id)
      × (insert_transaction
            (delete_item source (poured db target (t.quantity +ℤ s.quantity)))
            (merge_row env target s.quantity (t.quantity +ℤ s.quantity) user)
          ≡ ok db')
unfolding merge_tx
merge_tx-eq-ok env db source target user db' h = elim (Bool-cases (source == target)) [
  | inl e₁ ↦ absurd (ground arith)
  | inr e₁ ↦ elim (Option-cases (find_item source db.items)) [
    | inl e₂ ↦ absurd (ground arith)
    | inr (s, e₂) ↦ elim (Option-cases (find_item target db.items)) [
      | inl e₃ ↦ absurd (ground arith)
      | inr (t, e₃) ↦ elim (Bool-cases (s.part_id == t.part_id)) [
        | inr e₄ ↦ absurd (ground arith)
        | inl e₄ ↦
            elim (Outcome-cases (
              insert_transaction (delete_item source (poured db target (t.quantity +ℤ s.quantity)))
                (merge_row env target s.quantity (t.quantity +ℤ s.quantity) user))) [
                  | inr (_, e₅) ↦ absurd (ground arith)
                  | inl (db₁, e₅) ↦ (s, t, ground arith, e₂, e₃, ground arith, ground arith)
                ]
      ]
    ]
  ]
]

-- The tables after a merge: they are in agreement, the source is gone, the target holds both.
pub record Merged (db : Db) (source target : ℕ) (s t : StockItem) (db' : Db) : Type 0 where
  pub sound : IsSound db'
  pub gone : find_item source db'.items ≡ none
  pub quantities :
      (j : ℕ)
      → quantity_of j db'.items ≡ (
          if j == source
          then pos 0
          else if j == target
          then t.quantity +ℤ s.quantity
          else quantity_of j db.items)
  pub moved : Moves db db' s.part_id s.location_id t.location_id s.quantity

pour_sums :
    (b c : Bool) (s₀ s₁ s₂ s₃ src tgt : ℤ)
    → s₁ +ℤ (if c then tgt else pos 0) ≡ s₀ +ℤ (if c then tgt +ℤ src else pos 0)
    → s₂ +ℤ (if b then src else pos 0) ≡ s₁
    → s₃ ≡ s₂
    → s₃ +ℤ (if b then src else pos 0) ≡ s₀ +ℤ (if c then src else pos 0)
pour_sums true true s₀ s₁ s₂ s₃ src tgt h k e =
    omega (int_laws, parts_of_eq h, parts_of_eq k, parts_of_eq e)
pour_sums true false s₀ s₁ s₂ s₃ src tgt h k e =
    omega (int_laws, parts_of_eq h, parts_of_eq k, parts_of_eq e)
pour_sums false true s₀ s₁ s₂ s₃ src tgt h k e =
    omega (int_laws, parts_of_eq h, parts_of_eq k, parts_of_eq e)
pour_sums false false s₀ s₁ s₂ s₃ src tgt h k e =
    omega (int_laws, parts_of_eq h, parts_of_eq k, parts_of_eq e)

find_item-forget_source-none :
    (k j : ℕ) (xs : List StockItem)
    → find_item j xs ≡ none
    → find_item j (forget_source k xs) ≡ none
unfolding find_item forget_source
find_item-forget_source-none k j [] h = refl
find_item-forget_source-none k j (x ∷ xs) h = ground (arith, find_item-forget_source-none k j xs)

module _ (db : Db) (source target : ℕ) (s t : StockItem) (row : Transaction) (sound : IsSound db)
    (apart : source ≢ target) (found_s : find_item source db.items ≡ some s)
    (found_t : find_item target db.items ≡ some t) (names : row.stock_item_id ≡ target)
    (delta : row.delta ≡ s.quantity) (result : row.resulting_quantity ≡ t.quantity +ℤ s.quantity)
    (parts : s.part_id ≡ t.part_id) where
  q : ℤ
  q = t.quantity +ℤ s.quantity

  -- The row written before the delete is the row written after it.
  row_last :
      delete_item source (record db {
        items = set_quantity row.stock_item_id q db.items;
        transactions = row ∷ db.transactions;
      })
      ≡ record (delete_item source (poured db target q)) {
        transactions = row ∷ (delete_item source (poured db target q)).transactions;
      }
  unfolding delete_item without_transactions
  row_last = ground arith

  delta_is : row.delta ≡ t.quantity +ℤ s.quantity -ℤ t.quantity
  delta_is = delta ∙ omega int_laws

  Merged-now : Merged db source target s t (record (delete_item source (poured db target q)) {
    transactions = row ∷ (delete_item source (poured db target q)).transactions;
  })
  unfolding q delete_item
  Merged-now = record {
    sound = subst IsSound row_last (
        delete_item-IsSound source _ (
          record_change-IsSound db (t.quantity +ℤ s.quantity) row t sound (rw names found_t)
            delta_is result));
    gone =
        find_item-forget_source-none source source
          (without_item source (set_quantity target q db.items))
          (ground (arith, find_item-without_item source source (set_quantity target q db.items)));
    quantities = λ j. ground (
      arith,
      quantity_of-forget_source source j (without_item source (set_quantity target q db.items)),
      quantity_of-without_item source j (set_quantity target q db.items),
      quantity_of-set_quantity target q j db.items t found_t,
    );
    moved = λ sel.
        pour_sums (sel s.part_id s.location_id) (sel s.part_id t.location_id)
          (sum_where sel db.items) (sum_where sel (set_quantity target q db.items))
          (sum_where sel (without_item source (set_quantity target q db.items)))
          (sum_where sel
            (forget_source source (without_item source (set_quantity target q db.items))))
          s.quantity t.quantity
          (subst
            (λ (p : ℕ).
              sum_where sel (set_quantity target q db.items)
                +ℤ weight sel p t.location_id t.quantity
              ≡ sum_where sel db.items +ℤ weight sel p t.location_id q)
            (sym parts) (sum_where-set_quantity sel target q db.items t sound.unique found_t))
          (sum_where-without_item sel source (set_quantity target q db.items) s
            (set_quantity-IsUnique target q db.items sound.unique)
            (find_item_ne-set_quantity target source q db.items apart ∙ found_s))
          (sum_where-forget_source sel source
            (without_item source (set_quantity target q db.items)));
  }

merge_tx-Merged :
    (env : Env) (db : Db) (source target : ℕ) (user : Option ℕ) (db' : Db)
    → IsSound db
    → merge_tx env db source target user ≡ ok (tt, db')
    → (s : StockItem) × (t : StockItem) × (source ≢ target)
      × (find_item source db.items ≡ some s)
      × (find_item target db.items ≡ some t)
      × (s.part_id ≡ t.part_id)
      × Merged db source target s t db'
merge_tx-Merged env db source target user db' sound h =
    let (s, t, apart, found_s, found_t, parts, logged) =
      merge_tx-eq-ok env db source target user db' h in
    let row = merge_row env target s.quantity (t.quantity +ℤ s.quantity) user in
    (
      s,
      t,
      apart,
      found_s,
      found_t,
      parts,
      rw (← insert_transaction-eq-ok _ row logged) (
          unfold q in
          Merged-now db source target s t row sound apart found_s found_t (unfold merge_row in refl)
            (unfold merge_row in refl) (unfold merge_row in refl) parts),
    )

pub merge_lot-IsSound :
    (env : Env) (db : Db) (source target : ℕ) (user : Option ℕ)
    → IsSound db
    → IsSound (merge_lot env db source target user).1
unfolding merge_lot
merge_lot-IsSound env db source target user s = commit-IsSound db _ s (λ u db' h.
    let (_, _, _, _, _, _, m) = merge_tx-Merged env db source target user db' s h in m.sound)

-- On tables where the lots and their log agree: `MergeLot` that succeeds was given two different
-- lots of one part; the source lot is gone, the target holds the quantities of both, every other
-- lot keeps its own; the log agrees with the lots; and the source's quantity moved from its
-- location to the target's in every sum over lots.
pub merge_lot_lem :
    (env : Env) (db : Db) (source target : ℕ) (user : Option ℕ) (db' : Db)
    → IsSound db
    → merge_lot env db source target user ≡ (ok tt, db')
    → (s : StockItem) × (t : StockItem) × (source ≢ target)
      × (find_item source db.items ≡ some s)
      × (find_item target db.items ≡ some t)
      × (s.part_id ≡ t.part_id)
      × Merged db source target s t db'
unfolding merge_lot
merge_lot_lem env db source target user db' s h =
    merge_tx-Merged env db source target user db' s (commit-eq-ok db _ h)
