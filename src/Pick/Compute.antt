-- ===== src/Pick/Compute.antt =====
-- `Compute` of internal/picklist/picklist.go, over the two lookups that it is given.
pub mod Correct
pub mod Buildable
use firebin_api.Base.{
  ℕ, String, Bool, List, [], ◌∷◌, ◌++◌, Option, none, some, ◌≡◌, refl, arith, Outcome, ok, err,
  ◌>>=◌, inl, inr, Outcome-cases, sym, ap, ◌∙◌, Option-cases, >>=-eq-ok, map,
}
use firebin_api.Base.Int.{ℤ, pos, zero-+ℤ}
use firebin_api.Pick.Model.{
  Board, StockLot, PickList, PickError, lookup_failed, board_not_found, PickEntry,
}
use firebin_api.Pick.Demand.{at_least_one, demand, Need, Demand, required_of, Distinct}
use firebin_api.Pick.Demand.Correct.{name_of, unmatched_of}
use firebin_api.Pick.Allocate.{Picked, pick_parts, available}
use firebin_api.Pick.Allocate.Pulled.{AllPositive, pulled, pulled_in_all, drawn}
use firebin_api.Pick.Allocate.Shortfalls.{find_shortfall, reported}
use firebin_api.Pick.Walk.{sort_entries, IsWalk}

-- The interface `Stock`, with what `Compute` relies on: lots hold something.
pub record LotSource : Type 0 where
  pub lots_for : List ℕ → Outcome PickError (List StockLot)
  pub positive : (ks : List ℕ) (lots : List StockLot) → lots_for ks ≡ ok lots → AllPositive lots

-- order
unfoldable pub part_ids : List Need → List ℕ
part_ids [] = []
part_ids (n ∷ ns) = n.part_id ∷ part_ids ns

abbrev pub nothing_picked : Picked
nothing_picked = record { entries = []; shortfalls = []; total = pos 0 }

unfoldable pub pick_list : Board → ℤ → ℤ → Demand → Picked → PickList
pick_list board qty copies d p = record {
  board_id = board.id;
  board_name = board.name;
  quantity = qty;
  copies = copies;
  total_units = p.total;
  entries = sort_entries p.entries;
  shortfalls = p.shortfalls;
  unmatched = d.unmatched;
}

-- What is computed for a board that was found.
unfoldable pub compute_for : LotSource → Board → ℤ → ℤ → Outcome PickError PickList
unfolding pick_list part_ids
compute_for source board copies qty =
    source.lots_for (part_ids (demand copies qty board.lines).needs) >>= λ lots. ok (
      pick_list board qty copies (demand copies qty board.lines)
        (pick_parts lots nothing_picked (demand copies qty board.lines).needs))

-- `get_board` is `Boards.GetBoard`.
unfoldable pub compute :
    (ℕ → Outcome PickError (Option Board)) → LotSource → ℕ → ℤ → Outcome PickError PickList
unfolding compute_for
compute get_board source board_id qty = do
  found ← get_board board_id
  elim found [
    | none ↦ err (board_not_found board_id)
    | some board ↦ compute_for source board (at_least_one board.copies) (at_least_one qty)
  ]

-- What a pick list says, for the lots that were there.
pub record IsPickList (board : Board) (copies qty : ℤ) (lots : List StockLot) (pl : PickList)
    : Type 0 where
  pub pulls :
      (k : ℕ)
      → pulled k pl.entries ≡ drawn (required_of copies qty k board.lines) (available k lots)
  pub total : pl.total_units ≡ pulled_in_all pl.entries
  pub in_order : IsWalk pl.entries
  pub shorts :
      (k : ℕ)
      → find_shortfall k pl.shortfalls
        ≡ reported k
            (name_of k board.lines)
            (required_of copies qty k board.lines)
            (available k lots)
  pub unmatched_lines : pl.unmatched ≡ unmatched_of copies qty board.lines
