-- ===== src/Pick/Source/Correct.antt =====
-- What `StockForParts` of internal/repository/stock.go gives a pick list.
use firebin_api.Base.{
  ℕ, String, Bool, true, false, ◌&&◌, List, [], ◌∷◌, none, some, ◌≡◌, refl, ◌==◌, if◌then◌else◌,
  arith, ok, inl, inr, sym, ap, ◌∙◌, Option-cases, Bool-cases, subst, ok_injective, ==_iff, str_eq,
  ◌||◌,
}
use firebin_api.Base.Int.{ℤ, pos, ltb_ℤ, ◌+ℤ◌, zero-+ℤ, +ℤ_left_swap}
use Prim.Native.Nat.{Ordering}
use firebin_api.Stock.Model.{Db, StockItem, PartRow}
use firebin_api.Stock.Table.{find_part}
use firebin_api.Stock.Ledger.{HasParts}
use firebin_api.Pick.Model.{StockLot}
use firebin_api.Pick.Allocate.{available}
use firebin_api.Pick.Allocate.Pulled.{AllPositive}
use firebin_api.Pick.Compute.{LotSource}
use firebin_api.Pick.Source.{
  is_usable, usable, stock_for_parts, rows_for, lots_in, insert_row, lot_of, comes_first, is_among,
}

module _ (collate : String → String → Ordering) where
  insert_row-AllPositive :
      (t : ℕ) (l : StockLot) (rs : List (ℕ × StockLot))
      → ltb_ℤ (pos 0) l.quantity ≡ true
      → AllPositive (lots_in rs)
      → AllPositive (lots_in (insert_row collate (t, l) rs))
  unfolding lots_in insert_row
  insert_row-AllPositive t l [] h hs = (h, tt)
  insert_row-AllPositive t l ((u, m) ∷ rs) h hs =
      elim (Bool-cases (comes_first collate (u, m) (t, l))) [
        | inl b ↦ rw (b, insert_row) (hs.0, insert_row-AllPositive t l rs h hs.1)
        | inr b ↦ rw (b, insert_row) (h, hs)
      ]

  available-insert_row :
      (k t : ℕ) (l : StockLot) (rs : List (ℕ × StockLot))
      → available k (lots_in (insert_row collate (t, l) rs))
        ≡ (if l.part_id == k then l.quantity else pos 0) +ℤ available k (lots_in rs)
  unfolding lots_in insert_row available
  available-insert_row k t l [] = refl
  available-insert_row k t l ((u, m) ∷ rs) = elim (Bool-cases (comes_first collate (u, m) (t, l))) [
    | inl b ↦
        rw (b, insert_row)
          (ap (λ (z : ℤ). (if m.part_id == k then m.quantity else pos 0) +ℤ z)
              (available-insert_row k t l rs)
            ∙ +ℤ_left_swap _ _ (available k (lots_in rs)))
    | inr b ↦ rw (b, insert_row) refl
  ]

  rows_for_other :
      (ks : List ℕ) (db : Db) (x : StockItem) (xs : List StockItem)
      → is_usable ks x ≡ false
      → rows_for collate ks db (x ∷ xs) ≡ rows_for collate ks db xs
  unfolding rows_for
  rows_for_other ks db x xs h = ground arith

  rows_for_orphan :
      (ks : List ℕ) (db : Db) (x : StockItem) (xs : List StockItem)
      → find_part x.part_id db.parts ≡ none
      → rows_for collate ks db (x ∷ xs) ≡ rows_for collate ks db xs
  unfolding rows_for
  rows_for_orphan ks db x xs h = ground arith

  rows_for_usable :
      (ks : List ℕ) (db : Db) (x : StockItem) (xs : List StockItem) (p : PartRow)
      → is_usable ks x ≡ true
      → find_part x.part_id db.parts ≡ some p
      → rows_for collate ks db (x ∷ xs)
        ≡ insert_row collate (x.added_at, lot_of db x p) (rows_for collate ks db xs)
  unfolding rows_for
  rows_for_usable ks db x xs p h f = ground arith

  usable_positive :
      (ks : List ℕ) (x : StockItem) → is_usable ks x ≡ true → ltb_ℤ (pos 0) x.quantity ≡ true
  unfolding is_usable
  usable_positive ks x h = ground arith

  positive_lot_of :
      (ks : List ℕ) (db : Db) (x : StockItem) (p : PartRow)
      → is_usable ks x ≡ true
      → ltb_ℤ (pos 0) (lot_of db x p).quantity ≡ true
  unfolding lot_of
  positive_lot_of ks db x p h = usable_positive ks x h

  rows_for-AllPositive :
      (ks : List ℕ) (db : Db) (xs : List StockItem)
      → AllPositive (lots_in (rows_for collate ks db xs))
  rows_for-AllPositive ks db [] = unfold rows_for lots_in in tt
  rows_for-AllPositive ks db (x ∷ xs) = elim (Bool-cases (is_usable ks x)) [
    | inr u ↦ rw (rows_for_other ks db x xs u) (rows_for-AllPositive ks db xs)
    | inl u ↦ elim (Option-cases (find_part x.part_id db.parts)) [
      | inl f ↦ rw (rows_for_orphan ks db x xs f) (rows_for-AllPositive ks db xs)
      | inr (p, f) ↦ rw (rows_for_usable ks db x xs p u f) (
          insert_row-AllPositive x.added_at (lot_of db x p) (rows_for collate ks db xs)
            (positive_lot_of ks db x p u) (rows_for-AllPositive ks db xs))
    ]
  ]

  not_usable : (b c : Bool) (q rest : ℤ) → c ≡ false → (if b && c then q else pos 0) +ℤ rest ≡ rest
  not_usable b c q rest h = ground (arith, zero-+ℤ rest)

  lot_quantity_of :
      (db : Db) (x : StockItem) (p : PartRow) (k : ℕ) (rest : ℤ)
      → (if (lot_of db x p).part_id == k then (lot_of db x p).quantity else pos 0) +ℤ rest
        ≡ (if x.part_id == k && true then x.quantity else pos 0) +ℤ rest
  unfolding lot_of
  lot_quantity_of db x p k rest = ground arith

  available-rows_for :
      (ks : List ℕ) (db : Db) (k : ℕ) (xs : List StockItem)
      → HasParts db.parts xs
      → available k (lots_in (rows_for collate ks db xs)) ≡ usable ks k xs
  unfolding usable
  available-rows_for ks db k [] h = unfold rows_for lots_in available in refl
  available-rows_for ks db k (x ∷ xs) h = elim (Bool-cases (is_usable ks x)) [
    | inr u ↦ rw (rows_for_other ks db x xs u) (
        available-rows_for ks db k xs h.1
        ∙ sym (not_usable (x.part_id == k) (is_usable ks x) x.quantity (usable ks k xs) u))
    | inl u ↦ elim (Option-cases (find_part x.part_id db.parts)) [
      | inl f ↦ absurd (h.0 f)
      | inr (p, f) ↦
          rw (rows_for_usable ks db x xs p u f, u)
            (available-insert_row k x.added_at (lot_of db x p) (rows_for collate ks db xs)
              ∙ lot_quantity_of db x p k (available k (lots_in (rows_for collate ks db xs)))
              ∙ ap (λ (z : ℤ). (if x.part_id == k && true then x.quantity else pos 0) +ℤ z)
                  (available-rows_for ks db k xs h.1))
    ]
  ]

  pub stock_for_parts-AllPositive :
      (ks : List ℕ) (db : Db) → AllPositive (stock_for_parts collate ks db)
  unfolding stock_for_parts
  stock_for_parts-AllPositive [] db = tt
  stock_for_parts-AllPositive (k ∷ ks) db = rows_for-AllPositive (k ∷ ks) db db.items

  usable_none : (k : ℕ) (xs : List StockItem) → usable [] k xs ≡ pos 0
  unfolding usable is_usable is_among
  usable_none k [] = refl
  usable_none k (x ∷ xs) = ground (arith, usable_none k xs, zero-+ℤ (pos 0))

  available-stock_for_parts :
      (ks : List ℕ) (db : Db) (k : ℕ)
      → HasParts db.parts db.items
      → available k (stock_for_parts collate ks db) ≡ usable ks k db.items
  unfolding stock_for_parts
  available-stock_for_parts [] db k h = unfold available in sym (usable_none k db.items)
  available-stock_for_parts (j ∷ ks) db k h = available-rows_for (j ∷ ks) db k db.items h

-- A part is among those asked for.
abbrev asked_for : ℕ → List ℕ → Bool
asked_for k [] = false
asked_for k (j ∷ js) = j == k || asked_for k js

-- What the lots of a part that is asked for hold, when their status is "ok" and they hold something.
abbrev pub on_hand : List ℕ → ℕ → List StockItem → ℤ
on_hand ks k [] = pos 0
on_hand ks k (x ∷ xs) =
    (if asked_for k ks && x.part_id == k && str_eq x.status "ok" && ltb_ℤ (pos 0) x.quantity
      then x.quantity
      else pos 0)
    +ℤ on_hand ks k xs

is_among-asked_for : (k : ℕ) (ks : List ℕ) → is_among k ks ≡ asked_for k ks
unfolding is_among
is_among-asked_for k [] = refl
is_among-asked_for k (j ∷ js) = ground (arith, is_among-asked_for k js)

same_test :
    (ks : List ℕ) (k : ℕ) (x : StockItem)
    → (x.part_id == k && is_usable ks x)
      ≡ (asked_for k ks && x.part_id == k && str_eq x.status "ok" && ltb_ℤ (pos 0) x.quantity)
unfolding is_usable
same_test ks k x = elim (Bool-cases (x.part_id == k)) [
  | inl e ↦ rw ((==_iff x.part_id k).0 e, is_among-asked_for k ks) (ground arith)
  | inr e ↦ rw e (ground arith)
]

usable-on_hand : (ks : List ℕ) (k : ℕ) (xs : List StockItem) → usable ks k xs ≡ on_hand ks k xs
unfolding usable
usable-on_hand ks k [] = refl
usable-on_hand ks k (x ∷ xs) = rw (same_test ks k x, usable-on_hand ks k xs) refl

-- The lots that `StockForParts` gives hold something each, and of every part as much in all as the lots
-- of it in the tables that have the status "ok" and hold something, if the part is asked for, and else
-- nothing; if the tables know the parts of all lots.
pub stock_for_parts_lem :
    (collate : String → String → Ordering) (ks : List ℕ) (db : Db) (k : ℕ)
    → HasParts db.parts db.items
    → AllPositive (stock_for_parts collate ks db)
      × (available k (stock_for_parts collate ks db) ≡ on_hand ks k db.items)
stock_for_parts_lem collate ks db k h = (
  stock_for_parts-AllPositive collate ks db,
  available-stock_for_parts collate ks db k h ∙ usable-on_hand ks k db.items,
)

-- The stock repository as the lot source of a pick list.
unfoldable pub stock_source : (String → String → Ordering) → Db → LotSource
stock_source collate db = record {
  lots_for = λ ks. ok (stock_for_parts collate ks db);
  positive =
      λ ks lots h. subst AllPositive (ok_injective h) (stock_for_parts-AllPositive collate ks db);
}
