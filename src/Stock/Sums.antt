-- ===== src/Stock/Sums.antt =====
-- Sums of quantities over the lots that a part and a location select, and what the statements of
-- Table do to them.
use firebin_api.Base.{
  ℕ, Bool, List, [], ◌∷◌, Option, some, ◌≡◌, refl, arith, ◌==◌, if◌then◌else◌, Bool-cases, inl, inr,
}
use firebin_api.Base.Int.{ℤ, pos, ◌+ℤ◌, +ℤ_comm, +ℤ_swap_ends, +ℤ_under, +ℤ_assoc}
use firebin_api.Stock.Model.{StockItem}
use firebin_api.Stock.Table.{
  find_item, set_quantity, set_location, forget_source, without_item, sum_where,
}
use firebin_api.Stock.Lookup.{
  IsUnique, set_quantity_unused, set_location_unused, without_item_unused,
}

-- What a quantity adds to the sum of a selection.
abbrev pub weight : (ℕ → Option ℕ → Bool) → ℕ → Option ℕ → ℤ → ℤ
weight sel part loc q = if sel part loc then q else pos 0

module _ (sel : ℕ → Option ℕ → Bool) (k : ℕ) where
  pub sum_where-set_quantity :
      (q : ℤ) (xs : List StockItem) (x : StockItem)
      → IsUnique xs
      → find_item k xs ≡ some x
      → sum_where sel (set_quantity k q xs) +ℤ weight sel x.part_id x.location_id x.quantity
        ≡ sum_where sel xs +ℤ weight sel x.part_id x.location_id q
  unfolding sum_where set_quantity find_item
  sum_where-set_quantity q [] x u h = cc
  sum_where-set_quantity q (y ∷ xs) x u h = elim (Bool-cases (y.id == k)) [
    | inl e ↦ ground (
      arith,
      set_quantity_unused k q xs,
      +ℤ_swap_ends (weight sel x.part_id x.location_id q) (sum_where sel xs)
          (weight sel x.part_id x.location_id x.quantity),
    )
    | inr e ↦ ground (
      arith,
      sum_where-set_quantity q xs x,
      +ℤ_under (weight sel y.part_id y.location_id y.quantity) (sum_where sel (set_quantity k q xs))
          (weight sel x.part_id x.location_id x.quantity) (sum_where sel xs)
          (weight sel x.part_id x.location_id q),
    )
  ]

  pub sum_where-set_location :
      (loc : Option ℕ) (xs : List StockItem) (x : StockItem)
      → IsUnique xs
      → find_item k xs ≡ some x
      → sum_where sel (set_location k loc xs) +ℤ weight sel x.part_id x.location_id x.quantity
        ≡ sum_where sel xs +ℤ weight sel x.part_id loc x.quantity
  unfolding sum_where set_location find_item
  sum_where-set_location loc [] x u h = cc
  sum_where-set_location loc (y ∷ xs) x u h = elim (Bool-cases (y.id == k)) [
    | inl e ↦ ground (
      arith,
      set_location_unused k loc xs,
      +ℤ_swap_ends (weight sel x.part_id loc x.quantity) (sum_where sel xs)
          (weight sel x.part_id x.location_id x.quantity),
    )
    | inr e ↦ ground (
      arith,
      sum_where-set_location loc xs x,
      +ℤ_under (weight sel y.part_id y.location_id y.quantity)
          (sum_where sel (set_location k loc xs)) (weight sel x.part_id x.location_id x.quantity)
          (sum_where sel xs) (weight sel x.part_id loc x.quantity),
    )
  ]

  pub sum_where-without_item :
      (xs : List StockItem) (x : StockItem)
      → IsUnique xs
      → find_item k xs ≡ some x
      → sum_where sel (without_item k xs) +ℤ weight sel x.part_id x.location_id x.quantity
        ≡ sum_where sel xs
  unfolding sum_where without_item find_item
  sum_where-without_item [] x u h = cc
  sum_where-without_item (y ∷ xs) x u h = elim (Bool-cases (y.id == k)) [
    | inl e ↦ ground (
      arith,
      without_item_unused k xs,
      +ℤ_comm (weight sel x.part_id x.location_id x.quantity) (sum_where sel xs),
    )
    | inr e ↦ ground (
      arith,
      sum_where-without_item xs x,
      +ℤ_assoc (weight sel y.part_id y.location_id y.quantity) (sum_where sel (without_item k xs))
          (weight sel x.part_id x.location_id x.quantity),
    )
  ]

  pub sum_where-forget_source :
      (xs : List StockItem) → sum_where sel (forget_source k xs) ≡ sum_where sel xs
  unfolding sum_where forget_source
  sum_where-forget_source [] = refl
  sum_where-forget_source (x ∷ xs) = ground (arith, sum_where-forget_source xs)
