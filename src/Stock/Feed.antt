-- ===== src/Stock/Feed.antt =====
-- The movement feeds of internal/repository/stock.go: `collapseMoves`, `Recent` and `ListTransactions`.
pub mod Correct
pub mod Keys
pub mod Examples
use firebin_api.Base.{
  ℕ, suc, zero, ◌+◌, ◌*◌, String, Bool, true, false, ◌&&◌, List, [], ◌∷◌, ◌++◌, Option, none, some,
  ◌==◌, str_eq, leb, if◌then◌else◌, length, take, keep,
}
use firebin_api.Base.Int.{ℤ, pos, ◌-ℤ◌, ltb_ℤ}

-- A row of the feed: a movement with the names joined to it.
pub record FeedRow : Type 0 where
  pub id : ℕ
  pub stock_item_id : ℕ
  pub part_id : Option ℕ
  pub kind : String
  pub delta : ℤ
  pub resulting_quantity : ℤ
  pub from_location_id : Option ℕ
  pub from_location_name : Option String
  pub to_location_id : Option ℕ
  pub to_location_name : Option String
  pub created_at : ℕ

-- A move of a known part, and its key: the part and the time.
unfoldable pub move_key : FeedRow → Option (ℕ × ℕ)
move_key t = elim t.part_id [
  | none ↦ none
  | some p ↦ if str_eq t.kind "move" then some (p, t.created_at) else none
]

-- seen: from a key to a position in the output.
unfoldable pub find_seen : ℕ × ℕ → List (ℕ × ℕ × ℕ) → Option ℕ
find_seen k [] = none
find_seen (p, c) ((q, d, i) ∷ ss) = if p == q && c == d then some i else find_seen (p, c) ss

unfoldable pub magnitude : ℤ → ℤ
magnitude d = if ltb_ℤ d (pos 0) then pos 0 -ℤ d else d

-- Whether a name is missing that the other row has.
unfoldable pub lacks : Option String → Option String → Bool
lacks (some n) b = false
lacks none none = false
lacks none (some n) = true

-- The positive side's quantity, and the end that the row lacks.
unfoldable pub fold_in : FeedRow → FeedRow → FeedRow
unfolding lacks
fold_in t m =
    let no_from = lacks m.from_location_name t.from_location_name in
    let no_to = lacks m.to_location_name t.to_location_name in
    record m {
      delta = if ltb_ℤ (pos 0) t.delta then t.delta else m.delta;
      from_location_id = if no_from then t.from_location_id else m.from_location_id;
      from_location_name = if no_from then t.from_location_name else m.from_location_name;
      to_location_id = if no_to then t.to_location_id else m.to_location_id;
      to_location_name = if no_to then t.to_location_name else m.to_location_name;
    }

unfoldable pub change_at : ℕ → (FeedRow → FeedRow) → List FeedRow → List FeedRow
change_at i f [] = []
change_at zero f (m ∷ ms) = f m ∷ ms
change_at (suc i) f (m ∷ ms) = m ∷ change_at i f ms

-- The loop: the rows put out, and the map of keys.
unfoldable pub collapse : List (ℕ × ℕ × ℕ) → List FeedRow → List FeedRow → List FeedRow
unfolding find_seen change_at fold_in move_key magnitude
collapse seen out [] = out
collapse seen out (t ∷ ts) = elim (move_key t) [
  | none ↦ collapse seen (out ++ (t ∷ [])) ts
  | some (p, c) ↦ elim (find_seen (p, c) seen) [
    | some i ↦ collapse seen (change_at i (fold_in t) out) ts
    | none ↦
        collapse ((p, c, length out) ∷ seen) (out ++ (record t { delta = magnitude t.delta } ∷ []))
          ts
  ]
]

unfoldable pub collapse_moves : List FeedRow → ℕ → List FeedRow
unfolding collapse
collapse_moves raw limit = take limit (collapse [] [] raw)

-- `Recent`, from the rows of all movements, the newest first.
unfoldable pub recent : List FeedRow → ℕ → List FeedRow
recent rows limit = collapse_moves (take (limit * 2 + 8) rows) limit

-- `ListTransactions`, from the rows of all movements, the newest first.
unfoldable pub list_transactions : List FeedRow → ℕ → ℕ → List FeedRow
list_transactions rows part limit =
    collapse_moves
      (take (limit * 2 + 8) (keep (λ t. elim t.part_id [ none ↦ false | some p ↦ p == part ]) rows))
      limit
