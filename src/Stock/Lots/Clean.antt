-- ===== src/Stock/Lots/Clean.antt =====
-- `DeleteEmptyLots` removes the empty lots and nothing else.
use firebin_api.Stock.Lots.Deleted.{
  holds_zero, unlinked, SameRow, Cleaned, AllZero, delete_all-Cleaned,
}
use firebin_api.Base.{
  ℕ, Bool, false, Option, none, some, ◌≡◌, refl, sym, ap, ◌∙◌, arith, inl, inr, List, [], ◌∷◌,
  Bool-cases, Option-cases, if◌then◌else◌, length, keep, subst,
}
use firebin_api.Stock.Model.{StockItem, Db}
use firebin_api.Stock.Table.{find_item, sum_where}
use firebin_api.Stock.Lookup.{Fresh, IsUnique, quantity_of, none-of-Fresh}
use firebin_api.Stock.Ledger.{IsSound}
use firebin_api.Stock.Lots.{is_empty_lot, count_empty_lots, delete_empty_lots}

AllZero-cons :
    (y : StockItem) (xs ss : List StockItem) → Fresh y.id ss → AllZero xs ss → AllZero (y ∷ xs) ss
unfolding AllZero quantity_of
AllZero-cons y xs [] f z = tt
AllZero-cons y xs (s ∷ ss) f z = ground (arith, AllZero-cons y xs ss f.1 z.1)

module _ (p : StockItem → Bool) where
  Fresh-keep : (k : ℕ) (xs : List StockItem) → Fresh k xs → Fresh k (keep p xs)
  Fresh-keep k [] h = tt
  Fresh-keep k (x ∷ xs) h = ground (arith, Fresh-keep k xs h.1)

  find_item-keep :
      (j : ℕ) (xs : List StockItem)
      → IsUnique xs
      → find_item j (keep p xs)
        ≡ (elim (find_item j xs) [ none ↦ none | some x ↦ if p x then some x else none ])
  unfolding find_item
  find_item-keep j [] u = refl
  find_item-keep j (x ∷ xs) u = ground (arith, find_item-keep j xs u.1, none-of-Fresh x.id xs u.0)

  keep_none :
      (xs : List StockItem)
      → IsUnique xs
      → ((j : ℕ) (x : StockItem) → find_item j xs ≡ some x → p x ≡ false)
      → keep p xs ≡ []
  unfolding find_item
  keep_none [] u h = refl
  keep_none (x ∷ xs) u h =
      let here : p x ≡ false = h x.id x (ground arith) in
      rw (here, keep)
        (keep_none xs u.1 (λ j y f. h j y (ground (arith, none-of-Fresh x.id xs u.0))))

AllZero-keep : (xs : List StockItem) → IsUnique xs → AllZero xs (keep is_empty_lot xs)
unfolding AllZero quantity_of
AllZero-keep [] u = tt
AllZero-keep (x ∷ xs) u = elim (Bool-cases (is_empty_lot x)) [
  | inl e ↦
      rw (e, keep)
        (
          ground (arith, holds_zero x e),
          AllZero-cons x xs (keep is_empty_lot xs) (Fresh-keep is_empty_lot x.id xs u.0)
              (AllZero-keep xs u.1),
        )
  | inr e ↦
      rw (e, keep)
        (AllZero-cons x xs (keep is_empty_lot xs) (Fresh-keep is_empty_lot x.id xs u.0)
          (AllZero-keep xs u.1))
]

emptiness-unlinked : (x y : StockItem) → unlinked x ≡ unlinked y → is_empty_lot x ≡ is_empty_lot y
unfolding is_empty_lot
emptiness-unlinked x y h = let f : StockItem → Bool = is_empty_lot in ap f h

-- A lot that is left was there before, and was not empty.
left_over :
    (a b : Option StockItem) (x : StockItem)
    → SameRow a b
    → a ≡ some x
    → (y : StockItem) × (b ≡ some y) × (is_empty_lot x ≡ is_empty_lot y)
left_over none b x h e = cc
left_over (some z) none x h e = elim h [ ]
left_over (some z) (some y) x h e =
    (y, refl, ap is_empty_lot (some_item (sym e)) ∙ emptiness-unlinked z y h)
  where
    some_item : {v w : StockItem} → some v ≡ some w → v ≡ w
    some_item q = cc

delete_empty_lots-Cleaned :
    (db : Db) → IsSound db → Cleaned db (keep is_empty_lot db.items) (delete_empty_lots db).1
unfolding delete_empty_lots
delete_empty_lots-Cleaned db s =
    delete_all-Cleaned (keep is_empty_lot db.items) db s (AllZero-keep db.items s.unique)

none_left :
    (db db' : Db)
    → IsSound db
    → Cleaned db (keep is_empty_lot db.items) db'
    → (j : ℕ) (x : StockItem) → find_item j db'.items ≡ some x
    → is_empty_lot x ≡ false
none_left db db' s c j x f = elim (Option-cases (find_item j (keep is_empty_lot db.items))) [
  | inr (y, hit) ↦ absurd (cc (c.gone j (λ n. cc (hit, n)), f))
  | inl miss ↦
      let (y, there, same) =
        left_over (find_item j db'.items) (find_item j db.items) x (c.others j miss) f in
      same ∙ ground (arith, find_item-keep is_empty_lot j db.items s.unique)
]

-- On tables where the lots and their log agree: `DeleteEmptyLots` keeps the lots and their log in
-- agreement and every sum over lots; it returns the number that `CountEmptyLots` reports; no empty
-- lot is left; and a lot that was not empty is still there with all its columns but, where its
-- source was deleted, the link to it.
pub delete_empty_lots_lem :
    (db : Db)
    → IsSound db
    → IsSound (delete_empty_lots db).1
      × ((sel : ℕ → Option ℕ → Bool)
          → sum_where sel (delete_empty_lots db).1.items ≡ sum_where sel db.items)
      × ((delete_empty_lots db).0 ≡ count_empty_lots db)
      × (count_empty_lots (delete_empty_lots db).1 ≡ 0)
      × ((j : ℕ) (x : StockItem)
          → find_item j db.items ≡ some x
          → is_empty_lot x ≡ false
          → SameRow (find_item j (delete_empty_lots db).1.items) (some x))
unfolding count_empty_lots
delete_empty_lots_lem db s =
    let c = delete_empty_lots-Cleaned db s in
    (
      c.sound,
      c.sums,
      unfold delete_empty_lots in refl,
      ap length (
          keep_none is_empty_lot (delete_empty_lots db).1.items c.sound.unique
            (none_left db (delete_empty_lots db).1 s c)),
      λ j x f n.
          subst (SameRow (find_item j (delete_empty_lots db).1.items)) f
            (c.others j (ground (arith, find_item-keep is_empty_lot j db.items s.unique))),
    )
