-- ===== src/Stock/Transfer/Sources.antt =====
-- The source lots that `MovePartToLocation` selects are the lots of the table that pass its test,
-- each once.
use firebin_api.Base.{
  ℕ, true, false, Option, none, some, ◌≡◌, refl, sym, arith, inl, inr, List, [], ◌∷◌, Bool-cases,
  ◌==◌, if◌then◌else◌, ◌≢◌,
}
use firebin_api.Stock.Model.{StockItem}
use firebin_api.Stock.Table.{find_item}
use firebin_api.Stock.Lookup.{Fresh, IsUnique, none-of-Fresh}
use firebin_api.Stock.Transfer.{is_source, insert_by_added, sources}

module _ (j : ℕ) where
  Fresh-insert_by_added :
      (x : StockItem) (ys : List StockItem) → x.id ≢ j → Fresh j ys → Fresh j (insert_by_added x ys)
  unfolding insert_by_added
  Fresh-insert_by_added x [] n h = (n, tt)
  Fresh-insert_by_added x (y ∷ ys) n h = ground (arith, Fresh-insert_by_added x ys n h.1)

  find_item-insert_by_added :
      (x : StockItem) (ys : List StockItem)
      → Fresh x.id ys
      → find_item j (insert_by_added x ys) ≡ (if x.id == j then some x else find_item j ys)
  unfolding insert_by_added find_item
  find_item-insert_by_added x [] h = refl
  find_item-insert_by_added x (y ∷ ys) h = ground (arith, find_item-insert_by_added x ys h.1)

IsUnique-insert_by_added :
    (x : StockItem) (ys : List StockItem)
    → Fresh x.id ys
    → IsUnique ys
    → IsUnique (insert_by_added x ys)
unfolding insert_by_added
IsUnique-insert_by_added x [] f u = (tt, tt)
IsUnique-insert_by_added x (y ∷ ys) f u = ground (
  arith,
  IsUnique-insert_by_added x ys f.1 u.1,
  Fresh-insert_by_added y.id x ys (λ e. f.0 (sym e)) u.0,
)

-- A row of the table that is a source.
abbrev pub IsSource : ℕ → Option ℕ → List StockItem → StockItem → Type 0
IsSource part loc xs s = (find_item s.id xs ≡ some s) × (is_source part loc s ≡ true)

module _ (part : ℕ) (loc : Option ℕ) where
  Fresh-sources : (j : ℕ) (xs : List StockItem) → Fresh j xs → Fresh j (sources part loc xs)
  unfolding sources
  Fresh-sources j [] h = tt
  Fresh-sources j (x ∷ xs) h = elim (Bool-cases (is_source part loc x)) [
    | inl e ↦
        rw (e, sources)
          (Fresh-insert_by_added j x (sources part loc xs) h.0 (Fresh-sources j xs h.1))
    | inr e ↦ rw (e, sources) (Fresh-sources j xs h.1)
  ]

  pub IsUnique-sources : (xs : List StockItem) → IsUnique xs → IsUnique (sources part loc xs)
  unfolding sources
  IsUnique-sources [] u = tt
  IsUnique-sources (x ∷ xs) u = elim (Bool-cases (is_source part loc x)) [
    | inl e ↦
        rw (e, sources)
          (IsUnique-insert_by_added x (sources part loc xs) (Fresh-sources x.id xs u.0)
            (IsUnique-sources xs u.1))
    | inr e ↦ rw (e, sources) (IsUnique-sources xs u.1)
  ]

  -- The sources are looked up as the table is, but for the lots that are none.
  pub find_item-sources :
      (j : ℕ) (xs : List StockItem)
      → IsUnique xs
      → find_item j (sources part loc xs) ≡ (elim (find_item j xs) [
        | none ↦ none
        | some x ↦ if is_source part loc x then some x else none
      ])
  unfolding sources find_item
  find_item-sources j [] u = refl
  find_item-sources j (x ∷ xs) u = elim (Bool-cases (is_source part loc x)) [
    | inl e ↦ ground (
      arith,
      find_item-insert_by_added j x (sources part loc xs) (Fresh-sources x.id xs u.0),
      find_item-sources j xs u.1,
    )
    | inr e ↦ ground (arith, find_item-sources j xs u.1, none-of-Fresh x.id xs u.0)
  ]

  -- Where no row of the table is a source, there is none.
  pub sources_none :
      (xs : List StockItem)
      → IsUnique xs
      → ((j : ℕ) (x : StockItem) → find_item j xs ≡ some x → is_source part loc x ≡ false)
      → sources part loc xs ≡ []
  unfolding sources find_item
  sources_none [] u h = refl
  sources_none (x ∷ xs) u h =
      let here : is_source part loc x ≡ false = h x.id x (ground arith) in
      rw (here, sources)
        (sources_none xs u.1 (λ j y f. h j y (ground (arith, none-of-Fresh x.id xs u.0))))
