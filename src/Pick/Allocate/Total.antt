-- ===== src/Pick/Allocate/Total.antt =====
-- The running total of the allocation in internal/picklist/picklist.go.
use firebin_api.Base.{ℕ, List, [], ◌∷◌, ◌≡◌, Bool-cases, inl, inr, sym, ◌∙◌, ap}
use firebin_api.Base.Int.{ℤ, pos, ◌+ℤ◌, ◌-ℤ◌, ltb_ℤ, +ℤ_zero}
use firebin_api.Pick.Model.{StockLot}
use firebin_api.Pick.Demand.{Need}
use firebin_api.Pick.Allocate.{
  Picked, pick_parts, allocate, pick_part, entry_of, available, pull_of, lots_of,
}
use firebin_api.Pick.Allocate.Pulled.{
  pulled_in_all, after_lot, allocate_stop, note_shortfall_keeps, allocate_pull,
  pulled_in_all-append,
}

abbrev pub IsTotalled : Picked → Type 0
IsTotalled p = p.total ≡ pulled_in_all p.entries

after_lot-IsTotalled :
    (k : ℕ) (need : ℤ) (p : Picked) (l : StockLot)
    → IsTotalled p
    → IsTotalled (after_lot k need p l)
unfolding after_lot entry_of pulled_in_all
after_lot-IsTotalled k need p l h =
    ap (λ (z : ℤ). z +ℤ pull_of need l) h
    ∙ ap (λ (z : ℤ). pulled_in_all p.entries +ℤ z) (sym (+ℤ_zero (pull_of need l)))
    ∙ sym (pulled_in_all-append p.entries (entry_of k l (pull_of need l) ∷ []))

allocate-IsTotalled :
    (k : ℕ) (need : ℤ) (p : Picked) (ls : List StockLot)
    → IsTotalled p
    → IsTotalled (allocate k need p ls)
allocate-IsTotalled k need p [] h = unfold allocate in h
allocate-IsTotalled k need p (l ∷ ls) h = elim (Bool-cases (ltb_ℤ (pos 0) need)) [
  | inr e ↦ rw (allocate_stop k need p l ls e) h
  | inl e ↦ rw (allocate_pull k need p l ls e) (
      allocate-IsTotalled k (need -ℤ pull_of need l) (after_lot k need p l) ls
        (after_lot-IsTotalled k need p l h))
]

pick_part-IsTotalled :
    (lots : List StockLot) (p : Picked) (n : Need) → IsTotalled p → IsTotalled (pick_part lots p n)
unfolding pick_part
pick_part-IsTotalled lots p n h =
    let kept =
      note_shortfall_keeps n (available n.part_id lots)
        (allocate n.part_id n.required p (lots_of n.part_id lots)) in
    kept.1
    ∙ allocate-IsTotalled n.part_id n.required p (lots_of n.part_id lots) h
    ∙ ap pulled_in_all (sym kept.0)

pub pick_parts-IsTotalled :
    (lots : List StockLot) (p : Picked) (ns : List Need)
    → IsTotalled p
    → IsTotalled (pick_parts lots p ns)
unfolding pick_parts
pick_parts-IsTotalled lots p [] h = h
pick_parts-IsTotalled lots p (n ∷ ns) h =
    pick_parts-IsTotalled lots (pick_part lots p n) ns (pick_part-IsTotalled lots p n h)
