-- ===== src/Pick/Compute/Buildable.antt =====
-- Whether a pick list of internal/picklist/picklist.go says that a board can be built.
use firebin_api.Base.{
  ℕ, String, List, [], ◌∷◌, Option, none, some, ◌≡◌, refl, arith, inl, inr, sym, ap, ◌∙◌,
  Option-cases, All, false, ◌≢◌, ◌↔◌, Outcome, ok,
}
use firebin_api.Base.Int.{ℤ, pos, ltb_ℤ, ◌+ℤ◌}
use firebin_api.Pick.Model.{Board, BomLine, StockLot, PickList, PickShortfall, PickError}
use firebin_api.Pick.Demand.{required_of, at_least_one, demand}
use firebin_api.Pick.Demand.Correct.{name_of, unmatched_of}
use firebin_api.Pick.Allocate.{available, pick_parts}
use firebin_api.Pick.Allocate.Pulled.{AllPositive}
use firebin_api.Pick.Allocate.Shortfalls.{find_shortfall, reported}
use firebin_api.Pick.Compute.{
  IsPickList, LotSource, compute, compute_for, part_ids, pick_list, nothing_picked,
}
use firebin_api.Pick.Compute.Correct.{pick_list-IsPickList}

abbrev pub AllMatched : List BomLine → Type 0
AllMatched = All (λ l. l.part_id ≢ none)

no_shortfall : (ss : List PickShortfall) → ((k : ℕ) → find_shortfall k ss ≡ none) → ss ≡ []
unfolding find_shortfall
no_shortfall [] h = refl
no_shortfall (s ∷ ss) h = absurd (ground (arith, h s.part_id))

unmatched_of_matched :
    (copies qty : ℤ) (ls : List BomLine) → AllMatched ls → unmatched_of copies qty ls ≡ []
unfolding unmatched_of
unmatched_of_matched copies qty [] h = refl
unmatched_of_matched copies qty (l ∷ ls) h = elim (Option-cases l.part_id) [
  | inl e ↦ absurd (h.0 e)
  | inr (k, e) ↦ rw e (unmatched_of_matched copies qty ls h.1)
]

matched_of_none :
    (copies qty : ℤ) (ls : List BomLine) → unmatched_of copies qty ls ≡ [] → AllMatched ls
unfolding unmatched_of
matched_of_none copies qty [] h = tt
matched_of_none copies qty (l ∷ ls) h = elim (Option-cases l.part_id) [
  | inl e ↦ absurd (ground arith)
  | inr (k, e) ↦ (λ n. ground arith, matched_of_none copies qty ls (ground arith))
]

required_of-unnamed :
    (copies qty : ℤ) (k : ℕ) (ls : List BomLine)
    → name_of k ls ≡ none
    → required_of copies qty k ls ≡ pos 0
unfolding name_of required_of ◌+ℤ◌
required_of-unnamed copies qty k [] h = refl
required_of-unnamed copies qty k (l ∷ ls) h = ground (arith, required_of-unnamed copies qty k ls)

available_nonneg :
    (k : ℕ) (ls : List StockLot) → AllPositive ls → ltb_ℤ (available k ls) (pos 0) ≡ false
unfolding available ◌+ℤ◌
available_nonneg k [] h = refl
available_nonneg k (l ∷ ls) h = ground (arith, available_nonneg k ls h.1, h.0)

reported-none :
    (k : ℕ) (name : Option String) (need avail : ℤ)
    → ltb_ℤ avail need ≡ false
    → reported k name need avail ≡ none
unfolding reported
reported-none k none need avail h = refl
reported-none k (some name) need avail h = ground arith

enough_of_none :
    (k : ℕ) (name : String) (need avail : ℤ)
    → reported k (some name) need avail ≡ none
    → ltb_ℤ avail need ≡ false
unfolding reported
enough_of_none k name need avail h = ground arith

enough :
    (board : Board) (copies qty : ℤ) (lots : List StockLot) (pl : PickList)
    → IsPickList board copies qty lots pl
    → AllPositive lots
    → (k : ℕ) → find_shortfall k pl.shortfalls ≡ none
    → ltb_ℤ (available k lots) (required_of copies qty k board.lines) ≡ false
enough board copies qty lots pl p positive k h = elim (Option-cases (name_of k board.lines)) [
  | inl e ↦ rw (required_of-unnamed copies qty k board.lines e) (available_nonneg k lots positive)
  | inr (name, e) ↦ enough_of_none k name _ _ (
      ap (λ o. reported k o (required_of copies qty k board.lines) (available k lots)) (sym e)
      ∙ sym (p.shorts k)
      ∙ h)
]

-- What is required of each part is there, and each line names one.
abbrev pub IsBuildable : Board → List StockLot → ℤ → ℤ → Type 0
IsBuildable board lots copies qty =
    AllMatched board.lines
    × ((k : ℕ) → ltb_ℤ (available k lots) (required_of copies qty k board.lines) ≡ false)

IsPickList-IsBuildable :
    (board : Board) (copies qty : ℤ) (lots : List StockLot) (pl : PickList)
    → IsPickList board copies qty lots pl
    → AllPositive lots
    → ((pl.shortfalls ≡ []) × (pl.unmatched ≡ [])) ↔ IsBuildable board lots copies qty
IsPickList-IsBuildable board copies qty lots pl p positive = (
  λ h. (
    matched_of_none copies qty board.lines (sym p.unmatched_lines ∙ h.1),
    λ k.
        enough board copies qty lots pl p positive k
          (ap (find_shortfall k) h.0 ∙ unfold find_shortfall in refl),
  ),
  λ h. (
    no_shortfall pl.shortfalls (λ k. p.shorts k ∙ reported-none k _ _ _ (h.1 k)),
    p.unmatched_lines ∙ unmatched_of_matched copies qty board.lines h.0,
  ),
)

-- Where the board is found and the lookup of its parts gives some lots: `Compute` returns a pick list,
-- and that has no shortfalls and no unmatched lines if and only if every line of the board names a
-- part and the lots hold of each part as much as the lines require, for at least one copy and build.
pub buildable_lem :
    (get_board : ℕ → Outcome PickError (Option Board)) (source : LotSource) (board_id : ℕ) (qty : ℤ)
    (board : Board) (lots : List StockLot)
    → get_board board_id ≡ ok (some board)
    → source.lots_for
        (part_ids (demand (at_least_one board.copies) (at_least_one qty) board.lines).needs)
      ≡ ok lots
    → (pl : PickList) × (compute get_board source board_id qty ≡ ok pl)
      × (((pl.shortfalls ≡ []) × (pl.unmatched ≡ []))
          ↔ IsBuildable board lots (at_least_one board.copies) (at_least_one qty))
unfolding compute compute_for
buildable_lem get_board source board_id qty board lots found given =
    let copies = at_least_one board.copies in
    let builds = at_least_one qty in
    let positive = source.positive _ lots given in
    let needs = (demand copies builds board.lines).needs in
    let pl =
      pick_list board builds copies (demand copies builds board.lines)
        (pick_parts lots nothing_picked needs) in
    (
      pl,
      rw (found, given) refl,
      IsPickList-IsBuildable board copies builds lots pl
          (pick_list-IsPickList board copies builds lots positive) positive,
    )
