-- ===== src/Kicad/Panel.antt =====
-- Whether a board file is a panel, and of how many copies: `DetectPanelPCB` of
-- internal/kicad/panel.go, on the bytes of the file.
pub mod Copies
use firebin_api.Base.{
  ℕ, zero, suc, ◌+◌, Bool, true, false, not, ◌&&◌, ◌||◌, List, [], ◌∷◌, ◌++◌, Option, none, some,
  if◌then◌else◌, ◌==◌, ltb, length,
}
use firebin_api.Base.Bytes.{Bytes, codes, same, has_prefix, is_empty}
use firebin_api.Barcode.Text.{drop}

-- What stands before a reference: `(property "Reference" "`.
abbrev pub before_ref : Bytes
before_ref = codes "(property \"Reference\" \""

-- The text up to a quote, none without one.
unfoldable pub up_to_quote : Bytes → Option Bytes
up_to_quote [] = none
up_to_quote (c ∷ s) =
    let more = up_to_quote s in
    if c == 34 then some [] else elim more [ none ↦ none | some r ↦ some (c ∷ r) ]

-- A match of the expression at the start of a text: a reference, not empty, in quotes.
unfoldable pub ref_at : Bytes → Option Bytes
unfolding up_to_quote
ref_at s =
    let found = up_to_quote (drop (length before_ref) s) in
    if has_prefix before_ref s
    then elim found [ none ↦ none | some r ↦ if is_empty r then none else some r ]
    else none

-- The matches from left to right, none inside another; `skip` bytes of one are passed over.
unfoldable pub refs_from : ℕ → Bytes → List Bytes
unfolding ref_at
refs_from skip [] = []
refs_from (suc skip) (c ∷ s) = refs_from skip s
refs_from zero (c ∷ s) = elim (ref_at (c ∷ s)) [
  | none ↦ refs_from 0 s
  | some r ↦ r ∷ refs_from (length before_ref + length r) s
]

-- KiKit's frame parts are left out.
unfoldable pub without_frame : List Bytes → List Bytes
without_frame [] = []
without_frame (r ∷ rs) =
    let rest = without_frame rs in if has_prefix (codes "KiKit") r then rest else r ∷ rest

unfoldable pub board_refs : Bytes → List Bytes
unfolding refs_from without_frame
board_refs file = without_frame (refs_from 0 file)

-- `counts[ref]++`, and the map of the counts; the order of its entries plays no part.
unfoldable pub bump : Bytes → List (Bytes × ℕ) → List (Bytes × ℕ)
bump r [] = (r, 1) ∷ []
bump r (e ∷ es) = if same r (e.0) then (r, suc (e.1)) ∷ es else e ∷ bump r es

unfoldable pub counts_of : List Bytes → List (Bytes × ℕ)
unfolding bump
counts_of [] = []
counts_of (r ∷ rs) = bump r (counts_of rs)

-- `freq[c]++`, and the map of how many references have a count.
unfoldable pub bump_count : ℕ → List (ℕ × ℕ) → List (ℕ × ℕ)
bump_count c [] = (c, 1) ∷ []
bump_count c (e ∷ es) = if c == e.0 then (c, suc (e.1)) ∷ es else e ∷ bump_count c es

unfoldable pub freq_of : List (Bytes × ℕ) → List (ℕ × ℕ)
unfolding bump_count
freq_of [] = []
freq_of (e ∷ es) = bump_count (e.1) (freq_of es)

-- The count that most references have, the largest one of several.
unfoldable pub mode_from : ℕ → ℕ → List (ℕ × ℕ) → ℕ
mode_from mode best [] = mode
mode_from mode best (e ∷ es) =
    let taken = mode_from (e.0) (e.1) es in
    let kept = mode_from mode best es in
    if ltb best (e.1) || (e.1 == best && ltb mode (e.0)) then taken else kept

abbrev pub verdict : ℕ → ℕ × Bool
verdict mode = if ltb mode 2 then (1, false) else (mode, true)

unfoldable pub detect_in : List Bytes → ℕ × Bool
unfolding counts_of freq_of mode_from
detect_in refs =
    if is_empty refs then (1, false) else verdict (mode_from 1 0 (freq_of (counts_of refs)))

unfoldable pub detect_panel_pcb : Bytes → ℕ × Bool
unfolding detect_in board_refs
detect_panel_pcb file = detect_in (board_refs file)
