-- ===== src/Stock/Lookup.antt =====
-- Lookups by identifier in the lots, and what the statements of Table do to them.
use firebin_api.Base.{
  ℕ, List, [], ◌∷◌, Option, none, some, ◌≡◌, ◌≢◌, refl, arith, ◌==◌, if◌then◌else◌, All,
}
use firebin_api.Base.Int.{ℤ, pos}
use firebin_api.Stock.Model.{StockItem}
use firebin_api.Stock.Table.{find_item, set_quantity, set_location, forget_source, without_item}

abbrev pub Fresh : ℕ → List StockItem → Type 0
Fresh k = All (λ x. x.id ≢ k)

-- The primary key.
abbrev pub IsUnique : List StockItem → Type 0
IsUnique [] = Unit
IsUnique (x ∷ xs) = Fresh x.id xs × IsUnique xs

-- The quantity of a lot, and 0 where there is no such lot.
unfoldable pub quantity_of : ℕ → List StockItem → ℤ
quantity_of k [] = pos 0
quantity_of k (x ∷ xs) = if x.id == k then x.quantity else quantity_of k xs

module _ (k : ℕ) where
  pub Fresh-of-none : (xs : List StockItem) → find_item k xs ≡ none → Fresh k xs
  unfolding find_item
  Fresh-of-none [] h = tt
  Fresh-of-none (x ∷ xs) h = ground (arith, Fresh-of-none xs)

  pub none-of-Fresh : (xs : List StockItem) → Fresh k xs → find_item k xs ≡ none
  unfolding find_item
  none-of-Fresh [] h = refl
  none-of-Fresh (x ∷ xs) h = ground (arith, none-of-Fresh xs h.1)

  pub quantity_of-none : (xs : List StockItem) → find_item k xs ≡ none → quantity_of k xs ≡ pos 0
  unfolding find_item quantity_of
  quantity_of-none [] h = refl
  quantity_of-none (x ∷ xs) h = ground (arith, quantity_of-none xs)

  pub quantity_of-some :
      (xs : List StockItem) (x : StockItem)
      → find_item k xs ≡ some x
      → (quantity_of k xs ≡ x.quantity) × (x.id ≡ k)
  unfolding find_item quantity_of
  quantity_of-some [] x h = cc
  quantity_of-some (y ∷ xs) x h = ground (arith, quantity_of-some xs x)

module _ (k : ℕ) (q : ℤ) where
  pub set_quantity-Fresh :
      (j : ℕ) (xs : List StockItem) → Fresh j xs → Fresh j (set_quantity k q xs)
  unfolding set_quantity
  set_quantity-Fresh j [] h = tt
  set_quantity-Fresh j (x ∷ xs) h = ground (arith, set_quantity-Fresh j xs h.1)

  pub set_quantity-IsUnique : (xs : List StockItem) → IsUnique xs → IsUnique (set_quantity k q xs)
  unfolding set_quantity
  set_quantity-IsUnique [] h = tt
  set_quantity-IsUnique (x ∷ xs) h =
      ground (arith, set_quantity-IsUnique xs h.1, set_quantity-Fresh x.id xs h.0)

  pub set_quantity_unused : (xs : List StockItem) → Fresh k xs → set_quantity k q xs ≡ xs
  unfolding set_quantity
  set_quantity_unused [] h = refl
  set_quantity_unused (x ∷ xs) h = ground (arith, set_quantity_unused xs h.1)

  pub find_item-set_quantity :
      (j : ℕ) (xs : List StockItem) (x : StockItem)
      → find_item j xs ≡ some x
      → find_item j (set_quantity k q xs) ≡ some (if j == k then record x { quantity = q } else x)
  unfolding find_item set_quantity
  find_item-set_quantity j [] x h = cc
  find_item-set_quantity j (y ∷ xs) x h = ground (arith, find_item-set_quantity j xs x)

  quantity_of-set_quantity_ne :
      (j : ℕ) (xs : List StockItem) → j ≢ k → quantity_of j (set_quantity k q xs) ≡ quantity_of j xs
  unfolding quantity_of set_quantity
  quantity_of-set_quantity_ne j [] h = refl
  quantity_of-set_quantity_ne j (y ∷ xs) h = ground (arith, quantity_of-set_quantity_ne j xs)

  pub quantity_of-set_quantity :
      (j : ℕ) (xs : List StockItem) (x : StockItem)
      → find_item k xs ≡ some x
      → quantity_of j (set_quantity k q xs) ≡ (if j == k then q else quantity_of j xs)
  unfolding find_item quantity_of set_quantity
  quantity_of-set_quantity j [] x h = cc
  quantity_of-set_quantity j (y ∷ xs) x h =
      ground (arith, quantity_of-set_quantity_ne j xs, quantity_of-set_quantity j xs x)

module _ (k : ℕ) (loc : Option ℕ) where
  pub set_location-Fresh :
      (j : ℕ) (xs : List StockItem) → Fresh j xs → Fresh j (set_location k loc xs)
  unfolding set_location
  set_location-Fresh j [] h = tt
  set_location-Fresh j (x ∷ xs) h = ground (arith, set_location-Fresh j xs h.1)

  pub set_location-IsUnique : (xs : List StockItem) → IsUnique xs → IsUnique (set_location k loc xs)
  unfolding set_location
  set_location-IsUnique [] h = tt
  set_location-IsUnique (x ∷ xs) h =
      ground (arith, set_location-IsUnique xs h.1, set_location-Fresh x.id xs h.0)

  pub set_location_unused : (xs : List StockItem) → Fresh k xs → set_location k loc xs ≡ xs
  unfolding set_location
  set_location_unused [] h = refl
  set_location_unused (x ∷ xs) h = ground (arith, set_location_unused xs h.1)

  pub quantity_of-set_location :
      (j : ℕ) (xs : List StockItem) → quantity_of j (set_location k loc xs) ≡ quantity_of j xs
  unfolding quantity_of set_location
  quantity_of-set_location j [] = refl
  quantity_of-set_location j (x ∷ xs) = ground (arith, quantity_of-set_location j xs)

module _ (k : ℕ) where
  pub forget_source-Fresh :
      (j : ℕ) (xs : List StockItem) → Fresh j xs → Fresh j (forget_source k xs)
  unfolding forget_source
  forget_source-Fresh j [] h = tt
  forget_source-Fresh j (x ∷ xs) h = ground (arith, forget_source-Fresh j xs h.1)

  pub forget_source-IsUnique : (xs : List StockItem) → IsUnique xs → IsUnique (forget_source k xs)
  unfolding forget_source
  forget_source-IsUnique [] h = tt
  forget_source-IsUnique (x ∷ xs) h =
      ground (arith, forget_source-IsUnique xs h.1, forget_source-Fresh x.id xs h.0)

  pub quantity_of-forget_source :
      (j : ℕ) (xs : List StockItem) → quantity_of j (forget_source k xs) ≡ quantity_of j xs
  unfolding quantity_of forget_source
  quantity_of-forget_source j [] = refl
  quantity_of-forget_source j (x ∷ xs) = ground (arith, quantity_of-forget_source j xs)

  pub without_item-Fresh : (j : ℕ) (xs : List StockItem) → Fresh j xs → Fresh j (without_item k xs)
  unfolding without_item
  without_item-Fresh j [] h = tt
  without_item-Fresh j (x ∷ xs) h = ground (arith, without_item-Fresh j xs h.1)

  pub without_item-IsUnique : (xs : List StockItem) → IsUnique xs → IsUnique (without_item k xs)
  unfolding without_item
  without_item-IsUnique [] h = tt
  without_item-IsUnique (x ∷ xs) h =
      ground (arith, without_item-IsUnique xs h.1, without_item-Fresh x.id xs h.0)

  pub without_item_unused : (xs : List StockItem) → Fresh k xs → without_item k xs ≡ xs
  unfolding without_item
  without_item_unused [] h = refl
  without_item_unused (x ∷ xs) h = ground (arith, without_item_unused xs h.1)

  pub quantity_of-without_item :
      (j : ℕ) (xs : List StockItem)
      → quantity_of j (without_item k xs) ≡ (if j == k then pos 0 else quantity_of j xs)
  unfolding quantity_of without_item
  quantity_of-without_item j [] = ground arith
  quantity_of-without_item j (x ∷ xs) = ground (arith, quantity_of-without_item j xs)

  -- The lot that a delete leaves out is not found any more; all others are.
  pub find_item-without_item :
      (j : ℕ) (xs : List StockItem)
      → find_item j (without_item k xs) ≡ (if j == k then none else find_item j xs)
  unfolding find_item without_item
  find_item-without_item j [] = ground arith
  find_item-without_item j (x ∷ xs) = ground (arith, find_item-without_item j xs)

  pub find_item_ne-set_quantity :
      (j : ℕ) (q : ℤ) (xs : List StockItem)
      → j ≢ k
      → find_item j (set_quantity k q xs) ≡ find_item j xs
  unfolding find_item set_quantity
  find_item_ne-set_quantity j q [] h = refl
  find_item_ne-set_quantity j q (x ∷ xs) h = ground (arith, find_item_ne-set_quantity j q xs)

  pub is_found-set_quantity :
      (j : ℕ) (q : ℤ) (xs : List StockItem)
      → find_item j (set_quantity k q xs) ≡ none
      → find_item j xs ≡ none
  unfolding find_item set_quantity
  is_found-set_quantity j q [] h = refl
  is_found-set_quantity j q (x ∷ xs) h = ground (arith, is_found-set_quantity j q xs)
