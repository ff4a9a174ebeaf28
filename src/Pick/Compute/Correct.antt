-- ===== src/Pick/Compute/Correct.antt =====
-- The pick list that `Compute` of internal/picklist/picklist.go returns.
use firebin_api.Base.{
  ℕ, List, Option, some, ◌≡◌, refl, arith, Outcome, ok, inl, inr, sym, ap, ◌∙◌, Option-cases,
  >>=-eq-ok, subst, ok_injective,
}
use firebin_api.Base.Int.{ℤ, pos, zero-+ℤ, ◌+ℤ◌}
use firebin_api.Pick.Model.{Board, StockLot, PickList, PickError}
use firebin_api.Pick.Compute.{
  nothing_picked, pick_list, IsPickList, compute_for, compute, LotSource, part_ids,
}
use firebin_api.Pick.Demand.{at_least_one, demand, required_of, Distinct, need_of, named}
use firebin_api.Pick.Demand.Correct.{
  name_of, unmatched_of, add_lines-Distinct, need_of-add_lines, named-add_lines,
  unmatched-add_lines,
}
use firebin_api.Pick.Allocate.{pick_parts, available}
use firebin_api.Pick.Allocate.Pulled.{AllPositive, pulled, pulled_in_all, drawn, pulled-pick_parts}
use firebin_api.Pick.Allocate.Shortfalls.{
  find_shortfall, shortfalls-pick_parts, find_shortfall-shortfalls_of,
}
use firebin_api.Pick.Allocate.Total.{pick_parts-IsTotalled}
use firebin_api.Pick.Walk.{pulled-sort_entries, pulled_in_all-sort_entries, sort_entries-IsWalk}

demand-Distinct : (copies qty : ℤ) (board : Board) → Distinct (demand copies qty board.lines).needs
unfolding demand
demand-Distinct copies qty board = add_lines-Distinct copies qty _ board.lines tt

need_of-demand :
    (copies qty : ℤ) (board : Board) (k : ℕ)
    → need_of k (demand copies qty board.lines).needs ≡ required_of copies qty k board.lines
unfolding demand
need_of-demand copies qty board k =
    need_of-add_lines copies qty k _ board.lines
    ∙ unfold need_of in zero-+ℤ (required_of copies qty k board.lines)

named-demand :
    (copies qty : ℤ) (board : Board) (k : ℕ)
    → named k (demand copies qty board.lines).needs ≡ name_of k board.lines
unfolding demand named
named-demand copies qty board k = named-add_lines copies qty k _ board.lines

unmatched-demand :
    (copies qty : ℤ) (board : Board)
    → (demand copies qty board.lines).unmatched ≡ unmatched_of copies qty board.lines
unfolding demand
unmatched-demand copies qty board = unmatched-add_lines copies qty _ board.lines

pulled-nothing : (k : ℕ) → pulled k nothing_picked.entries ≡ pos 0
unfolding pulled
pulled-nothing k = refl

pub pick_list-IsPickList :
    (board : Board) (copies qty : ℤ) (lots : List StockLot)
    → AllPositive lots
    → IsPickList board copies qty lots (
        pick_list board qty copies
          (demand copies qty board.lines)
          (pick_parts lots nothing_picked (demand copies qty board.lines).needs))
unfolding pick_list
pick_list-IsPickList board copies qty lots positive = record {
  pulls = λ k.
      pulled-sort_entries k _
      ∙ pulled-pick_parts k lots nothing_picked (demand copies qty board.lines).needs positive
          (demand-Distinct copies qty board)
      ∙ ap
          (λ (z : ℤ).
            z +ℤ drawn (need_of k (demand copies qty board.lines).needs) (available k lots))
          (pulled-nothing k)
      ∙ zero-+ℤ _
      ∙ ap (λ (z : ℤ). drawn z (available k lots)) (need_of-demand copies qty board k);
  total =
      pick_parts-IsTotalled lots nothing_picked (demand copies qty board.lines).needs
        (unfold pulled_in_all in refl)
      ∙ sym (pulled_in_all-sort_entries _);
  in_order = sort_entries-IsWalk _;
  shorts = λ k.
      ap (find_shortfall k)
        (shortfalls-pick_parts lots nothing_picked (demand copies qty board.lines).needs)
      ∙ find_shortfall-shortfalls_of lots k (demand copies qty board.lines).needs
          (demand-Distinct copies qty board)
      ∙ rw (need_of-demand copies qty board k, named-demand copies qty board k) refl;
  unmatched_lines = unmatched-demand copies qty board;
}

compute-eq-ok :
    (get_board : ℕ → Outcome PickError (Option Board)) (source : LotSource) (board_id : ℕ) (qty : ℤ)
    (pl : PickList)
    → compute get_board source board_id qty ≡ ok pl
    → (board : Board) × (get_board board_id ≡ ok (some board))
      × (compute_for source board (at_least_one board.copies) (at_least_one qty) ≡ ok pl)
unfolding compute
compute-eq-ok get_board source board_id qty pl h =
    let (found, e, h') = >>=-eq-ok (get_board board_id) _ h in
    elim (Option-cases found) [
      | inl n ↦ absurd (ground arith)
      | inr (board, s) ↦ (board, ground arith, ground arith)
    ]

compute_for-eq-ok :
    (source : LotSource) (board : Board) (copies qty : ℤ) (pl : PickList)
    → compute_for source board copies qty ≡ ok pl
    → (lots : List StockLot) × (source.lots_for (part_ids (demand copies qty board.lines).needs)
        ≡ ok lots)
      × (pick_list board qty copies
            (demand copies qty board.lines)
            (pick_parts lots nothing_picked (demand copies qty board.lines).needs)
          ≡ pl)
unfolding compute_for
compute_for-eq-ok source board copies qty pl h =
    let (lots, given, h') =
      >>=-eq-ok (source.lots_for (part_ids (demand copies qty board.lines).needs)) _ h in
    (lots, given, ok_injective h')

-- A pick list that `Compute` returns is of the board found, for at least one copy and one build, and
-- of the lots that the stock lookup gave for the parts of its lines: for each part the entries pull
-- what its lines require, as far as there is stock; the total is the sum of the entries; entries
-- are in walk order; a shortfall is reported, with its name and numbers, of just the parts of which
-- less is there than is required; and the lines without a part are reported in their order.
pub compute_lem :
    (get_board : ℕ → Outcome PickError (Option Board)) (source : LotSource) (board_id : ℕ) (qty : ℤ)
    (pl : PickList)
    → compute get_board source board_id qty ≡ ok pl
    → (board : Board) × (lots : List StockLot) × (get_board board_id ≡ ok (some board))
      × (source.lots_for
            (part_ids (demand (at_least_one board.copies) (at_least_one qty) board.lines).needs)
          ≡ ok lots)
      × IsPickList board (at_least_one board.copies) (at_least_one qty) lots pl
compute_lem get_board source board_id qty pl h =
    let (board, found, done) = compute-eq-ok get_board source board_id qty pl h in
    let (lots, given, same) =
      compute_for-eq-ok source board (at_least_one board.copies) (at_least_one qty) pl done in
    (
      board,
      lots,
      found,
      given,
      subst (IsPickList board (at_least_one board.copies) (at_least_one qty) lots) same (
          pick_list-IsPickList board (at_least_one board.copies) (at_least_one qty) lots
            (source.positive _ lots given)),
    )
